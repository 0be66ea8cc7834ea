-- ===== src/Llc/Refill.antt =====
-- axi_interconnect/AXI_LLC.cpp: the read side of the memory port. A response of the memory, the next
-- request to it, and the commit of a refill. `cycle` is the simulation time.
pub mod Commit
pub mod Laws
pub mod Frame
use mathlib.Core.Option
use axi_interconnect_kit.Prelude.{
  Bool, Option, false, if◌then◌else◌, map, none, not, or_else, some, true, ℕ, ◌%◌, ◌&&◌, ◌+◌, ◌-◌,
  ◌==◌,
}
use axi_interconnect_kit.Llc.{Config, Limits}
use axi_interconnect_kit.Llc.Regs.{Io, MissEntry, Regs, idle, lookup, refill}
use axi_interconnect_kit.Llc.Ports.{MemOut, no_words}
use axi_interconnect_kit.Llc.Queues.{enqueue_read_response}
use axi_interconnect_kit.Llc.Mshr.{find_mshr_by_mem_id, mshr_limit, pick_mem_issue_slot}
use axi_interconnect_kit.Prelude.Search.{first_below}
use axi_interconnect_kit.Llc.Prefetch.{inc64}
use axi_interconnect_kit.Llc.Address.{line_addr}
use axi_interconnect_kit.Prelude.Words.{sub32, u8}
use axi_interconnect_kit.Prelude.Arrays.{update}

abbrev pub no_miss : MissEntry
no_miss = record {
  valid = false;
  bypass = false;
  is_prefetch = false;
  is_write = false;
  mode2_ddr_aligned = false;
  prefetch_train = false;
  mem_req_issued = false;
  refill_valid = false;
  refill_committed = false;
  addr = 0;
  line_addr = 0;
  set_idx = 0;
  tag = 0;
  way = 0;
  total_size = 0;
  master = 0;
  id = 0;
  epoch = 0;
  mem_issue_cycle = 0;
  victim_dirty = false;
  victim_writeback_done = false;
  victim_addr = 0;
  victim_data = no_words;
  refill_data = no_words;
}

abbrev pub u64 : ℕ → ℕ
u64 n = n % 18446744073709551616

abbrev pub set_mshr : ℕ → (MissEntry → MissEntry) → Regs → Regs
set_mshr slot f regs = record regs { mshr = update regs.mshr slot f }

-- A register freed, and the state that is left.
abbrev pub free_mshr : Io → ℕ → Regs → Regs
free_mshr io slot regs = record (set_mshr slot (λ old. no_miss) regs) {
  state = if io.regs.lookup_r.valid then lookup else idle;
}

-- The samples of the memory's latency.
abbrev pub sample_read : ℕ → MissEntry → Regs → Regs
sample_read cycle entry regs = if entry.mem_issue_cycle == 0 then regs else record regs {
  perf = record regs.perf {
    ddr_read_total_cycles =
        u64 (
          regs.perf.ddr_read_total_cycles + cycle + (18446744073709551616 - entry.mem_issue_cycle));
    ddr_read_samples = inc64 regs.perf.ddr_read_samples;
  };
}

module _ (limits : Limits) (config : Config) where
  -- A refill is kept in its register.
  abbrev pub keep_refill : Io → ℕ → Regs → Regs
  keep_refill io slot regs =
      let kept =
        set_mshr slot
          (λ entry. record entry {
            refill_valid = true;
            refill_data = io.ext_in.mem.read_resp_data;
            refill_committed = entry.bypass;
          })
          (record regs { state = refill }) in
      if (regs.mshr slot).bypass
      then kept
      else record kept { perf = record regs.perf { refills = inc64 regs.perf.refills } }

  -- A response to a bypass read may go to its master at once.
  abbrev pub receive_at : ℕ → Io → Option ℕ → Regs
  receive_at cycle io none = io.reg_write
  receive_at cycle io (some slot) =
      let prev = io.regs.mshr slot in
      let sampled = sample_read cycle prev io.reg_write in
      let sent =
        enqueue_read_response limits config prev.master prev.id io.ext_in.mem.read_resp_data
          sampled in
      if limits.bypass_direct_resp && (prev.bypass && sent.0)
      then free_mshr io slot sent.1
      else keep_refill io slot sampled

  unfoldable pub receive : ℕ → Io → Io
  unfolding enqueue_read_response update
  receive cycle io =
      let mem = io.ext_in.mem in
      record io {
        ext_out = record io.ext_out { mem = record io.ext_out.mem { read_resp_ready = true } };
        reg_write =
            if mem.read_resp_valid
            then receive_at cycle io (find_mshr_by_mem_id limits config io.regs mem.read_resp_id)
            else io.reg_write;
      }

  -- A bypass read that was put into its register in this cycle.
  abbrev pub is_fresh_bypass : Io → ℕ → Bool
  is_fresh_bypass io slot =
      let entry = io.reg_write.mshr slot in
      entry.valid
      && (entry.bypass
          && (not entry.mem_req_issued
              && (not entry.refill_valid && not (io.regs.mshr slot).valid)))

  -- The slot to issue and its entry.
  unfoldable pub pick_issue : Io → Option (ℕ × MissEntry)
  pick_issue io =
      let fresh = first_below (is_fresh_bypass io) (mshr_limit limits config io.regs) in
      or_else
        (Option.map (λ slot. (slot, io.regs.mshr slot)) (pick_mem_issue_slot limits config io.regs))
        (if limits.bypass_direct_issue
          then Option.map (λ slot. (slot, io.reg_write.mshr slot)) fresh
          else none)

  abbrev pub line_size : ℕ
  line_size = u8 (sub32 config.line_bytes 1)

  abbrev pub request : ℕ → MissEntry → MemOut → MemOut
  request slot entry out = record out {
    read_req_valid = true;
    read_req_addr = entry.line_addr;
    read_req_size = if entry.bypass then entry.total_size else line_size;
    read_req_mode2_ddr_aligned = entry.bypass && entry.mode2_ddr_aligned;
    read_req_id = u8 slot;
  }

  abbrev pub issued_at : ℕ → Bool → ℕ → Regs → Regs
  issued_at cycle ready slot regs =
      if ready
      then set_mshr slot
          (λ entry. record entry { mem_req_issued = true; mem_issue_cycle = u64 cycle }) regs
      else record regs {
        perf = record regs.perf { mem_read_block_cycles = inc64 regs.perf.mem_read_block_cycles };
      }

  abbrev pub issue_picked : ℕ → Io → Option (ℕ × MissEntry) → Io
  issue_picked cycle io none = io
  issue_picked cycle io (some (slot, entry)) = record io {
    ext_out = record io.ext_out { mem = request slot entry io.ext_out.mem };
    reg_write = issued_at cycle io.ext_in.mem.read_req_ready slot io.reg_write;
  }

  unfoldable pub issue : ℕ → Io → Io
  unfolding pick_issue update
  issue cycle io = issue_picked cycle io (pick_issue io)
