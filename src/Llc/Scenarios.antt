-- ===== src/Llc/Scenarios.antt =====
-- axi_interconnect/AXI_LLC.cpp over whole cycles at concrete inputs.

use mathlib.Core.Option
use axi_interconnect_kit.Prelude.{
  Bool, List, Option, [], arith, false, some, true, ℕ, ◌∷◌, ◌≡◌, is_some, refl, ◌==◌,
}
use axi_interconnect_kit.Llc.Ports.{ExtIn, LookupIn}
use axi_interconnect_kit.Llc.Regs.{Io}
use axi_interconnect_kit.Llc.Comb.Sound.{IsSoundNow, Leaves, reset-run-IsSoundNow}
use axi_interconnect_kit.Llc.Tests.{asking, config, limits, words, fresh}
use axi_interconnect_kit.Llc.Comb.{run}
use axi_interconnect_kit.Llc.Reset.{no_ext_in, no_lookup_in, no_mem_in, reset, no_lookup}
use axi_interconnect_kit.Llc.Lookup.Laws.{is_some-try_complete_lookup}
use axi_interconnect_kit.Llc.Lookup.Hit.{evicts_hit}
use axi_interconnect_kit.Llc.{is_valid, set_count}
use axi_interconnect_kit.Llc.Address.{line_addr, line_words, set_index, tag_of, valid_row_bytes}
use axi_interconnect_kit.Llc.Meta.{decode_meta, encode_meta, scan_row}
use axi_interconnect_kit.Llc.Refill.{no_miss}
use axi_interconnect_kit.Llc.Lookup.Complete.{try_complete_lookup}
use axi_interconnect_kit.Prelude.Words.{bit, byte}
use axi_interconnect_kit.Llc.Bytes.{
  build_repl_payload, decode_repl_way, decode_valid_bit, encode_valid_bit_payload,
  extract_line_response, full_line_strobe, merge_write_into_line, read_u32_le,
  update_dirty_line_count, words_to_line_bytes, write_u32_le, write_words,
}
use axi_interconnect_kit.Llc.Mshr.{
  find_free_mshr, find_mshr_by_line_addr, find_mshr_by_mem_id, has_mshr_for_master,
  pick_mem_issue_slot, pick_refill_commit_slot,
}
use axi_interconnect_kit.Llc.Prefetch.{
  find_free_prefetch_queue_slot, pick_prefetch_queue_slot, prefetch_candidate_exists,
}
use axi_interconnect_kit.Prelude.Search.{first_from}
use axi_interconnect_kit.Llc.Pending.{
  has_pending_upstream_write_line, victim_line_pending, write_line_pending,
}
use axi_interconnect_kit.Llc.Accept.{
  pick_bypass_write_issue_master, pick_new_write_master, pick_write_lookup_master,
}
use axi_interconnect_kit.Llc.Ways.{pick_unreserved_way}
use axi_interconnect_kit.Llc.Queues.{write_queue_empty, write_queue_front, write_queue_full}

abbrev empty_rows : LookupIn
empty_rows = record {
  data_valid = true;
  meta_valid = true;
  valid_valid = true;
  repl_valid = true;
  data_row = [];
  meta_row = [];
  valid_row = 0 ∷ (0 ∷ (0 ∷ (0 ∷ [])));
  repl_row = [];
}

-- Nothing asks, the memory takes a request.
abbrev listening : ExtIn
listening = record no_ext_in { mem = record no_mem_in { read_req_ready = true } }

-- The memory gives the line of register 0.
abbrev giving : ExtIn
giving = record no_ext_in {
  mem = record no_mem_in { read_resp_valid = true; read_resp_data = words };
}

-- Master 1 reads line 64, which no table has: it is looked up, fetched and kept.
abbrev read_miss : List (ExtIn × LookupIn)
read_miss =
    (asking.ext_in, no_lookup_in)
    ∷ ((listening, no_lookup_in)
        ∷ ((listening, empty_rows)
            ∷ ((listening, no_lookup_in)
                ∷ ((giving, no_lookup_in)
                    ∷ ((listening, no_lookup_in) ∷ ((listening, no_lookup_in) ∷ []))))))

reset-run-IsSoundNow_example :
    Leaves limits config (IsSoundNow limits config) (run limits config 0 read_miss (reset config))
reset-run-IsSoundNow_example = reset-run-IsSoundNow limits config read_miss (omega arith)

-- What the masters see of a run: the response of master 1, and whether register 0 is in use.
outcome : Option Io → Option (Bool × ℕ × ℕ × Bool)
outcome =
    Option.map
      (λ io. let r = io.regs.read_resp 1 in (r.valid, r.id, r.payload 0, (io.regs.mshr 0).valid))

serves_read_miss :
    outcome (run limits config 0 read_miss (reset config)) ≡ some (true, 1, words 0, false)
unfolding outcome run reset pick_new_write_master first_from pick_bypass_write_issue_master
    pick_refill_commit_slot pick_mem_issue_slot write_queue_front has_pending_upstream_write_line
    write_line_pending victim_line_pending find_mshr_by_line_addr find_free_mshr valid_row_bytes
    pick_unreserved_way find_mshr_by_mem_id tag_of set_count set_index line_addr read_u32_le
    decode_meta decode_valid_bit has_mshr_for_master line_words extract_line_response
    words_to_line_bytes encode_meta bit byte write_u32_le pick_write_lookup_master decode_repl_way
    build_repl_payload encode_valid_bit_payload write_queue_empty write_queue_full
    merge_write_into_line full_line_strobe update_dirty_line_count find_free_prefetch_queue_slot
    pick_prefetch_queue_slot prefetch_candidate_exists scan_row write_words is_valid
serves_read_miss = refl

-- A write to line 64 hits way 1 of set 1, which register 0 is to take for line 1088.
abbrev written : Io
written = record fresh {
  regs = record fresh.regs {
    lookup_r = record no_lookup { valid = true; issued = true; addr = 64; is_write = true };
    mshr = λ i. record no_miss { valid = i == 0; line_addr = 1088; set_idx = 1; way = 1 };
  };
}

written-evicts : evicts_hit limits config written 1 (written.regs.mshr 0) ≡ true
unfolding set_index line_addr set_count
written-evicts = refl

is_some-try_complete_lookup_example : is_some (try_complete_lookup limits config written) ≡ true
unfolding set_count is_valid
is_some-try_complete_lookup_example =
    is_some-try_complete_lookup limits config written (omega arith) (omega arith)
