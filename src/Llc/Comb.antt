-- ===== src/Llc/Comb.antt =====
-- axi_interconnect/AXI_LLC.cpp: comb, the cycle of the cache. A program that aborts is `none`; a run
-- takes the inputs of its cycles, the rows of the tables among them.
pub mod Frame
pub mod Sound
use mathlib.Core.Option
use axi_interconnect_kit.Llc.Reset.{seq, comb_disabled}
use axi_interconnect_kit.Prelude.{
  Bool, List, Option, [], false, if◌then◌else◌, not, some, suc, true, zero, ℕ, ◌&&◌, ◌+◌, ◌==◌,
  ◌||◌, ◌∷◌,
}
use axi_interconnect_kit.Llc.{Config, Limits, is_valid, num_read_masters, num_write_masters}
use axi_interconnect_kit.Llc.Ports.{ExtIn, LookupIn, no_ext_out, no_table_out}
use axi_interconnect_kit.Llc.Regs.{
  Io, LlcState, PerfCounters, Regs, disabled, idle, lookup, miss, refill,
}
use axi_interconnect_kit.Llc.Accept.{
  accept_maintenance_request, accept_new_requests, drive_lookup_request,
  try_launch_pending_write_lookup,
}
use axi_interconnect_kit.Llc.WritePath.Issue.{and_then, drive_write_path}
use axi_interconnect_kit.Prelude.Search.{any_below}
use axi_interconnect_kit.Llc.Pending.{can_accept_invalidate_all_now}
use axi_interconnect_kit.Llc.Mshr.{count_free_mshrs, has_demand_mshr, mshr_limit}
use axi_interconnect_kit.Llc.Refill.Commit.{drive_mem_read_path}
use axi_interconnect_kit.Llc.Queues.{drive_read_responses}
use axi_interconnect_kit.Llc.Prefetch.{inc64, try_launch_prefetch_lookup}
use axi_interconnect_kit.Llc.Bytes.{min}
use axi_interconnect_kit.Llc.Lookup.Complete.{try_complete_lookup}
use axi_interconnect_kit.Prelude.Words.{u8}

abbrev pub is_disabled : LlcState → Bool
is_disabled disabled = true
is_disabled idle = false
is_disabled lookup = false
is_disabled miss = false
is_disabled refill = false

-- The loop from index `i` with `n` left.
unfoldable pub each : (ℕ → PerfCounters → PerfCounters) → ℕ → ℕ → PerfCounters → PerfCounters
each count i zero perf = perf
each count i (suc n) perf = each count (i + 1) n (count i perf)

module _ (limits : Limits) (config : Config) where
  abbrev pub has_read_resp_pending : Regs → Bool
  has_read_resp_pending regs =
      any_below (λ m. (regs.read_resp m).valid || not ((regs.read_resp m).q_count == 0))
        num_read_masters

  abbrev pub is_quiet : Io → Bool
  is_quiet io =
      io.ext_in.mem.prefetch_allow
      && (not io.regs.lookup_r.valid
          && (count_free_mshrs limits config io.regs == mshr_limit limits config io.regs
              && (not (has_demand_mshr limits config io.regs)
                  && not (has_read_resp_pending io.regs))))

  abbrev pub count_response : Io → ℕ → PerfCounters → PerfCounters
  count_response io m perf =
      let r = io.regs.read_resp m in
      let blocked =
        if r.valid && (not r.fresh && not (io.ext_in.upstream.read_resp_ready m))
        then record perf { read_resp_block_cycles = inc64 perf.read_resp_block_cycles }
        else perf in
      if not (r.q_count == 0)
      then record blocked { read_resp_pending_cycles = inc64 blocked.read_resp_pending_cycles }
      else blocked

  abbrev pub count_miss : Io → ℕ → PerfCounters → PerfCounters
  count_miss io slot perf =
      let entry = io.regs.mshr slot in
      let waiting =
        if not entry.bypass && (entry.mem_req_issued && not entry.refill_valid)
        then record perf { mem_read_wait_cycles = inc64 perf.mem_read_wait_cycles }
        else perf in
      if not entry.valid
      then perf
      else if entry.victim_dirty && not entry.victim_writeback_done
      then record waiting {
        victim_writeback_wait_cycles = inc64 waiting.victim_writeback_wait_cycles;
      }
      else waiting

  abbrev pub count_write : Io → ℕ → PerfCounters → PerfCounters
  count_write io m perf =
      let ctx = (io.regs.write_port m).ctx in
      let waiting =
        if ctx.lookup_pending
        then record perf { write_lookup_wait_cycles = inc64 perf.write_lookup_wait_cycles }
        else perf in
      if not ctx.valid
      then perf
      else if ctx.victim_dirty && not ctx.victim_mem_done
      then record waiting { write_victim_wait_cycles = inc64 waiting.write_victim_wait_cycles }
      else waiting

  abbrev pub count_lookup : Io → PerfCounters → PerfCounters
  count_lookup io perf =
      if io.regs.lookup_r.valid
      then record perf { lookup_active_cycles = inc64 perf.lookup_active_cycles }
      else perf

  -- The counters of what waits, as the registers of the cycle's start say.
  abbrev pub count_waits : Io → PerfCounters → PerfCounters
  count_waits io perf = each (count_write io) 0 num_write_masters (
      each (count_miss io) 0 (mshr_limit limits config io.regs)
        (each (count_response io) 0 num_read_masters (count_lookup io perf)))

  unfoldable pub prepare : Io → Io
  unfolding each count_free_mshrs has_demand_mshr
  prepare io =
      let regs = io.reg_write in
      record io {
        reg_write = record regs {
          enable = true;
          state = if is_disabled io.regs.state then idle else regs.state;
          prefetch_r = record regs.prefetch_r {
            quiet_cycles =
                if is_quiet io then u8 (min (io.regs.prefetch_r.quiet_cycles + 1) 255) else 0;
          };
          perf = count_waits io regs.perf;
        };
      }

  -- The maintenance and the prefetches, which an invalidation of all keeps out.
  abbrev pub background : Io → Io
  background io =
      let kept = accept_maintenance_request limits config io in
      if io.ext_in.mem.invalidate_all then io else record kept {
        reg_write = try_launch_prefetch_lookup limits config kept.ext_in kept.reg_write;
      }

  abbrev pub can_invalidate : Io → Bool
  can_invalidate io =
      io.ext_in.mem.invalidate_all
      && (can_accept_invalidate_all_now limits config io.reg_write
          && (not io.table_out.data_req.enable
              && (not io.table_out.meta_req.enable
                  && (not io.table_out.repl_req.enable
                      && (not io.ext_out.mem.read_req_valid
                          && not io.ext_out.mem.write_req_valid)))))

  abbrev pub restart_lookup : Regs → Regs → Regs
  restart_lookup regs reg_write =
      if regs.lookup_r.valid
      then record reg_write {
        lookup_r = record reg_write.lookup_r { issued = false };
        state = lookup;
      }
      else reg_write

  unfoldable pub invalidate_all : Io → Io
  unfolding can_accept_invalidate_all_now
  invalidate_all io =
      if can_invalidate io
      then record io {
        ext_out = record io.ext_out {
          mem = record io.ext_out.mem { invalidate_all_accepted = true };
        };
        table_out = record io.table_out { invalidate_all = true };
        reg_write = restart_lookup io.regs (record io.reg_write {
          invalidate_epoch = u8 (io.regs.invalidate_epoch + 1);
          dirty_line_count = 0;
        });
      }
      else io

  -- The phases that take new requests.
  unfoldable pub take_requests : Io → Io
  unfolding accept_new_requests accept_maintenance_request try_launch_prefetch_lookup
      try_launch_pending_write_lookup drive_lookup_request invalidate_all
  take_requests io =
      let launched : Io = record io {
        reg_write = (try_launch_pending_write_lookup limits config io.reg_write).1;
      } in
      invalidate_all (
        drive_lookup_request limits config
          (background (accept_new_requests limits config launched)))

  -- The phases that serve what is in hand.
  unfoldable pub serve : ℕ → Io → Option Io
  unfolding drive_write_path try_complete_lookup drive_mem_read_path drive_read_responses
  serve cycle io = and_then limits config (drive_mem_read_path limits config cycle) (
      and_then limits config (try_complete_lookup limits config)
        (drive_write_path limits config cycle (drive_read_responses limits config io)))

  abbrev pub started : Io → Io
  started io = record io { ext_out = no_ext_out; table_out = no_table_out; reg_write = io.regs }

  abbrev pub disable : Io → Io
  disable io =
      let off = comb_disabled io in
      record off { reg_write = record off.reg_write { enable = false; state = disabled } }

  unfoldable pub comb : ℕ → Io → Option Io
  unfolding prepare serve take_requests comb_disabled is_valid
  comb cycle io =
      if not config.enable || not (is_valid config)
      then some (disable (started io))
      else Option.map take_requests (serve cycle (prepare (started io)))

  -- A cycle on the inputs that it finds.
  unfoldable pub step : ℕ → ExtIn × LookupIn → Io → Option Io
  unfolding comb seq
  step cycle (ext_in, rows) io =
      Option.map seq (comb cycle (record io { ext_in = ext_in; lookup_in = rows }))

  -- Cycle after cycle, from cycle `cycle` on.
  unfoldable pub run : ℕ → List (ExtIn × LookupIn) → Io → Option Io
  unfolding step
  run cycle [] io = some io
  run cycle (inputs ∷ rest) io =
      and_then limits config (λ after. run (cycle + 1) rest after) (step cycle inputs io)
