-- ===== src/Llc/Tests.antt =====
-- axi_interconnect/AXI_LLC.cpp at concrete inputs.
use mathlib.Core.Option
use axi_interconnect_kit.Prelude.{
  true, Bool, List, [], arith, false, get_or, if◌then◌else◌, inl, leb, ltb, none, not, refl,
  replicate, some, ℕ, ◌%◌, ◌&&◌, ◌+◌, ◌-◌, ◌/◌, ◌==◌, ◌||◌, ◌∷◌, ◌≡◌, ◌⊎◌,
}
use axi_interconnect_kit.Llc.{Config, Limits, is_valid, set_count}
use axi_interconnect_kit.Llc.Regs.{Io, MissEntry, ReadRespSlot, Regs}
use axi_interconnect_kit.Llc.Reset.{
  no_ext_in, no_io, no_prefetches, no_read_req, no_regs, no_response, no_upstream_in, start_regs,
  no_pending, no_port,
}
use axi_interconnect_kit.Llc.Accept.Laws.{Accepts, accept_new_requests-Accepts}
use axi_interconnect_kit.Llc.Prefetch.Laws.{IsDistinct, try_schedule_prefetch-IsDistinct}
use axi_interconnect_kit.Llc.Queues.Laws.{
  IsPushed, IsRing, IsStep, drive_read_responses-IsStep, push_response-IsPushed,
}
use axi_interconnect_kit.Llc.Ways.Laws.{IsUnreservedPick, pick_unreserved_way-IsUnreservedPick}
use axi_interconnect_kit.Llc.Accept.{accept_new_requests}
use axi_interconnect_kit.Llc.Address.Laws.{build-tag_set}
use axi_interconnect_kit.Llc.Address.{build_line_addr_from_tag_set, line_addr, set_index, tag_of}
use axi_interconnect_kit.Prelude.Words.{byte, bit}
use axi_interconnect_kit.Llc.Pending.{
  can_accept_read_now, has_pending_upstream_write_line, victim_line_pending, write_line_pending,
  read_victim_snapshot_present, victim_snapshot_waits_for_write_resolution,
}
use axi_interconnect_kit.Llc.Refill.Commit.{
  commit_line, resp_data, arm_victim, committed_regs, committed_tables, externalize,
}
use axi_interconnect_kit.Llc.Meta.Laws.{
  decode-encode_meta, entry_of, line_has_valid_meta_lem, passed,
}
use axi_interconnect_kit.Llc.Meta.{
  decode_meta, encode_meta, line_has_valid_meta, tag_limit, way_hits, way_valid,
}
use axi_interconnect_kit.Llc.Queues.{drive_read_responses, push_response, shown}
use axi_interconnect_kit.Llc.Mshr.{find_free_mshr, find_mshr_by_line_addr, has_mshr_for_master}
use axi_interconnect_kit.Prelude.Search.{first_below, first_from}
use axi_interconnect_kit.Llc.Bytes.Laws.{get_or-merge_write}
use axi_interconnect_kit.Llc.Bytes.{merge_write_into_line, test, write_u32_le}
use axi_interconnect_kit.Llc.Refill.{no_miss}
use axi_interconnect_kit.Llc.Ways.{pick_unreserved_way}
use axi_interconnect_kit.Llc.Refill.Laws.{resp_data_lem, commit_line_safe}
use axi_interconnect_kit.Llc.Prefetch.{try_schedule_prefetch}
use axi_interconnect_kit.Llc.WritePath.Laws.{IsPromoted, promote_at-IsPromoted}
use axi_interconnect_kit.Llc.WritePath.Issue.{promote_at}

abbrev pub config : Config
config = record {
  enable = true;
  size_bytes = 4096;
  line_bytes = 64;
  ways = 4;
  mshr_num = 4;
  lookup_latency = 8;
  prefetch_enable = true;
  prefetch_degree = 2;
  nine = true;
  unified = true;
  pipt = true;
}

abbrev pub limits : Limits
limits = record {
  max_outstanding = 8;
  max_write_outstanding = 8;
  max_write_transaction_bytes = 64;
  bypass_direct_resp = true;
  bypass_direct_issue = true;
  dcache_read_miss_noalloc = false;
}

-- After reset.
abbrev pub fresh : Io
fresh = record no_io { regs = start_regs config no_regs; reg_write = start_regs config no_regs }

build-tag_set_example :
    build_line_addr_from_tag_set config (tag_of config 74565) (set_index config 74565)
    ≡ line_addr config 74565
unfolding is_valid set_count
build-tag_set_example = build-tag_set config 74565 refl (omega arith) (omega arith)

abbrev old_line : List ℕ
old_line = replicate 64 7

-- The first and the third byte of four.
abbrev strobe : ℕ → Bool
strobe b = b == 0 || b == 2

abbrev pub words : ℕ → ℕ
words i = 2864434397 + i

get_or-merge_write_example :
    let off = 68 % config.line_bytes in
    get_or (merge_write_into_line limits config 68 old_line words strobe 3) 6 0 ≡ (
      if leb off 6
        && (ltb 6 (off + 3 + 1) && (ltb 6 config.line_bytes && test limits strobe (6 - off)))
      then byte (words ((6 - off) / 4)) ((6 - off) % 4)
      else get_or old_line 6 0)
get_or-merge_write_example =
    get_or-merge_write limits config 68 3 6 old_line words strobe (omega arith) refl (omega arith)

decode-encode_meta_example :
    Option.map (λ row. decode_meta row 0) (encode_meta (record { tag = 77; flags = 5 }))
    ≡ (if ltb 77 tag_limit then some (record { tag = 77; flags = 5 }) else none)
decode-encode_meta_example = decode-encode_meta 77 5 (omega arith)

-- Two ways with the tags 0 and 1, of which the second is valid.
abbrev valid_row : List ℕ
valid_row = 0 ∷ (1 ∷ [])

abbrev meta_row : List ℕ
meta_row = 0 ∷ (0 ∷ (0 ∷ (32 ∷ (1 ∷ (0 ∷ (0 ∷ (32 ∷ [])))))))

line_has_valid_meta_lem_example :
    let scan = line_has_valid_meta valid_row meta_row config 1 in
    let hit = first_below (way_hits valid_row meta_row 1) config.ways in
    (scan.hit_way ≡ hit)
    × (scan.first_invalid_way
        ≡ first_below (λ w. not (way_valid valid_row w)) (passed 0 config.ways hit))
    × (scan.hit_meta ≡ entry_of meta_row hit)
line_has_valid_meta_lem_example = line_has_valid_meta_lem config valid_row meta_row 1

reads_accepted : can_accept_read_now limits config no_ext_in fresh.regs 1 false 64 ≡ true
unfolding can_accept_read_now has_pending_upstream_write_line write_line_pending victim_line_pending
    find_mshr_by_line_addr find_free_mshr has_mshr_for_master first_from
reads_accepted = refl

-- A refill of the line 64 is under way in way 1 of set 1.
abbrev refilling : Regs
refilling = record fresh.regs {
  mshr = λ i. record no_miss { valid = i == 0; line_addr = 64; addr = 64; set_idx = 1; way = 1 };
}

pick_unreserved_way-IsUnreservedPick_example :
    IsUnreservedPick limits config refilling 1 1088
      (pick_unreserved_way limits config refilling 1 none 1 1088)
pick_unreserved_way-IsUnreservedPick_example =
    pick_unreserved_way-IsUnreservedPick limits config refilling 1 1 1088 none (omega arith)
      (omega arith) (λ way e. absurd (cc))

-- A response in the slot and one behind it.
abbrev two_responses : ReadRespSlot
two_responses = record no_response {
  valid = true;
  id = 3;
  payload = words;
  q_tail = 1;
  q_count = 1;
  q_id = λ i. 4;
}

two_responses-IsRing : IsRing limits config two_responses
two_responses-IsRing = (omega arith, refl, omega arith, inl refl)

push_response-IsPushed_example :
    IsPushed limits config 5 words two_responses (push_response limits config 5 words two_responses)
push_response-IsPushed_example =
    push_response-IsPushed limits config 5 words two_responses two_responses-IsRing

abbrev responding : Io
responding = record fresh {
  regs = record fresh.regs { read_resp = λ m. two_responses };
  reg_write = record fresh.regs { read_resp = λ m. two_responses };
  ext_in = record no_ext_in { upstream = record no_upstream_in { read_resp_ready = λ m. true } };
}

drive_read_responses-IsStep_example :
    let r = responding.regs.read_resp 2 in
    let after = drive_read_responses limits config responding in
    (after.ext_out.upstream.read_resp 2 ≡ shown limits config r)
    × IsStep limits config
        (responding.ext_in.upstream.read_resp_ready 2)
        r
        (after.reg_write.read_resp 2)
drive_read_responses-IsStep_example =
    drive_read_responses-IsStep limits config responding 2 (omega arith) refl two_responses-IsRing

-- A miss of line 128 behind one of line 64, with an empty queue.
abbrev streaming : Regs
streaming = record fresh.regs {
  prefetch_r = record no_prefetches { stream_valid = true; last_miss_line = 64 };
}

abbrev next_miss : MissEntry
next_miss = record no_miss { valid = true; prefetch_train = true; line_addr = 128; addr = 128 }

streaming-IsDistinct : IsDistinct limits config streaming
unfolding IsDistinct
streaming-IsDistinct i j li lj vi vj e = absurd (cc)

try_schedule_prefetch-IsDistinct_example :
    IsDistinct limits config (try_schedule_prefetch limits config streaming next_miss streaming)
try_schedule_prefetch-IsDistinct_example =
    try_schedule_prefetch-IsDistinct limits config streaming streaming next_miss
      streaming-IsDistinct

-- Master 1 asks for line 64.
abbrev pub asking : Io
asking = record fresh {
  ext_in = record no_ext_in {
    upstream = record no_upstream_in {
      read_req = λ m. record no_read_req { valid = m == 1; addr = 64; total_size = 3; id = m };
    };
  };
}

accept_new_requests-Accepts_example :
    (accept_new_requests limits config asking ≡ asking)
    ⊎ Accepts limits config asking (accept_new_requests limits config asking)
accept_new_requests-Accepts_example = accept_new_requests-Accepts limits config asking

-- A refill over the dirty line 2112.
abbrev dirty_miss : MissEntry
dirty_miss = record next_miss {
  refill_valid = true;
  victim_dirty = true;
  victim_addr = 2112;
  refill_data = words;
  tag = 1;
}

abbrev kept_regs : Regs
kept_regs = arm_victim limits config 0 dirty_miss fresh.reg_write

abbrev committed : Io
committed = record fresh {
  table_out =
      committed_tables limits config kept_regs dirty_miss (1 ∷ (0 ∷ (0 ∷ (32 ∷ []))))
        fresh.table_out;
  reg_write = committed_regs limits config fresh 0 dirty_miss kept_regs;
}

commits : commit_line limits config fresh 0 dirty_miss ≡ some committed
unfolding commit_line externalize encode_meta victim_snapshot_waits_for_write_resolution
    read_victim_snapshot_present first_from write_u32_le bit
commits = refl

commit_line_safe_example :
    read_victim_snapshot_present limits config committed.reg_write 2112 ≡ true
commit_line_safe_example =
    commit_line_safe limits config fresh committed 0 dirty_miss (omega arith, refl) refl refl
      (λ e. absurd (omega arith)) refl commits refl

resp_data_lem_example :
    resp_data limits config dirty_miss 2
    ≡ dirty_miss.refill_data (dirty_miss.addr % config.line_bytes / 4 + 2)
resp_data_lem_example =
    resp_data_lem limits config dirty_miss 2 refl refl (omega arith) (omega arith) (omega arith)

-- Master 0 waits with two writes, the older of which is at the head of its queue.
abbrev two_writes : Regs
two_writes = record fresh.regs {
  write_port = λ m. record no_port {
    q = λ i. record no_pending { valid = true; id = i + 5; addr = 64 };
    q_tail = 2;
    q_count = 2;
  };
}

promote_at-IsPromoted_example :
    IsPromoted limits config
      (two_writes.write_port 0)
      ((promote_at limits config two_writes 0).write_port 0)
promote_at-IsPromoted_example =
    promote_at-IsPromoted limits config two_writes 0 (omega arith) (omega arith)
      (omega arith, refl, omega arith)
