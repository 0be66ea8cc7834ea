-- ===== src/Llc/WritePath/Issue.antt =====
-- axi_interconnect/AXI_LLC.cpp: the second half of drive_write_path. The next request to the memory,
-- the queues of the masters, and the whole of the write path.
pub mod Frame
use mathlib.Core.Option
use axi_interconnect_kit.Prelude.{
  Option, false, if◌then◌else◌, is_some, none, not, some, suc, true, zero, ℕ, ◌%◌, ◌&&◌, ◌+◌, ◌==◌,
  ◌||◌,
}
use axi_interconnect_kit.Llc.{Config, Limits, num_write_masters}
use axi_interconnect_kit.Llc.Regs.{Io, Regs, VictimWb, WriteCtx, WritePendingReq, WritePort}
use axi_interconnect_kit.Llc.Ports.{MemOut, WriteReq}
use axi_interconnect_kit.Llc.WritePath.{
  answer_masters, commit_writes, retire_write_resps, set_port, take_write_resp,
}
use axi_interconnect_kit.Prelude.Search.{at_round}
use axi_interconnect_kit.Llc.Queues.{dec8, write_queue_front, write_queue_full}
use axi_interconnect_kit.Llc.Pending.{find_bypass_write_mem_owner, queue_depth, victim_line_pending}
use axi_interconnect_kit.Llc.Prefetch.{inc64}
use axi_interconnect_kit.Llc.Refill.Commit.{invalid_victim_mshr_slot}
use axi_interconnect_kit.Llc.Address.{line_addr}
use axi_interconnect_kit.Llc.Refill.{line_size, u64}
use axi_interconnect_kit.Llc.Reset.{no_ctx, no_pending}
use axi_interconnect_kit.Llc.Accept.{
  pick_bypass_write_issue_master, pick_new_write_master, try_launch_pending_write_lookup,
}
use axi_interconnect_kit.Prelude.Words.{u8}
use axi_interconnect_kit.Prelude.Arrays.{update}

module _ (limits : Limits) (config : Config) where
  -- A queued victim goes to the write-back slot, when that is free and no bypass write is under way.
  unfoldable pub arm_queued : Io → Io
  unfolding find_bypass_write_mem_owner
  arm_queued io =
      let queue = io.regs.read_victim_wb in
      let queued = queue.q (queue.head % queue_depth limits config) in
      let idle_owner = not (is_some (find_bypass_write_mem_owner limits config io.regs)) in
      if not io.reg_write.victim_wb.valid
        && (not (queue.count == 0) && (idle_owner && queued.valid))
      then record io {
        reg_write = record io.reg_write {
          victim_wb = record io.reg_write.victim_wb {
            valid = true;
            issued = false;
            for_write = false;
            write_master = 0;
            mshr_slot = invalid_victim_mshr_slot;
            addr = queued.victim_addr;
            words = queued.victim_data;
            strobe = queued.victim_strobe;
          };
        };
      }
      else io

  abbrev pub request_victim : MemOut → VictimWb → MemOut
  request_victim out wb = record out {
    write_req_valid = true;
    write_req_addr = wb.addr;
    write_req_data = wb.words;
    write_req_strobe = wb.strobe;
    write_req_size = line_size limits config;
    write_req_mode2_ddr_aligned = false;
    write_req_id = 0;
  }

  -- The write-back that is armed is requested, unless a bypass write is under way.
  unfoldable pub issue_victim : ℕ → Io → Io
  unfolding find_bypass_write_mem_owner
  issue_victim cycle io =
      let wb = io.reg_write.victim_wb in
      let sent =
        if io.ext_in.mem.write_req_ready
        then record wb { issued = true; issue_cycle = u64 cycle }
        else wb in
      if wb.issued || is_some (find_bypass_write_mem_owner limits config io.regs)
      then io
      else record io {
        ext_out = record io.ext_out { mem = request_victim io.ext_out.mem wb };
        reg_write = record io.reg_write { victim_wb = sent };
      }

  abbrev pub request_bypass : MemOut → WriteCtx → MemOut
  request_bypass out ctx = record out {
    write_req_valid = true;
    write_req_addr = ctx.addr;
    write_req_data = ctx.wdata;
    write_req_strobe = ctx.strobe;
    write_req_size = ctx.total_size;
    write_req_mode2_ddr_aligned = ctx.mode2_ddr_aligned;
    write_req_id = ctx.id;
  }

  abbrev pub issue_bypass : ℕ → Io → Option ℕ → Io
  issue_bypass cycle io none = io
  issue_bypass cycle io (some m) = record io {
    ext_out = record io.ext_out { mem = request_bypass io.ext_out.mem (io.regs.write_port m).ctx };
    reg_write =
        if io.ext_in.mem.write_req_ready
        then set_port m
            (λ port. record port {
              ctx = record port.ctx { mem_issued = true; mem_issue_cycle = u64 cycle };
            })
            io.reg_write
        else io.reg_write;
  }

  abbrev pub pending_req : ℕ → WriteReq → WritePendingReq
  pending_req m req = record {
    valid = true;
    bypass = req.bypass;
    direct_mapped = req.direct_mapped;
    mode2_ddr_aligned = req.mode2_ddr_aligned;
    master = u8 m;
    id = req.id;
    total_size = req.total_size;
    addr = req.addr;
    wdata = req.wdata;
    wstrb = req.wstrb;
  }

  -- A request at the tail of the queue; the indices are those of the cycle's start.
  unfoldable pub push_write : WritePendingReq → WritePort → WritePort → WritePort
  unfolding update
  push_write entry cur next =
      let slot = u8 (cur.q_tail % limits.max_write_outstanding) in
      record next {
        q = update next.q slot (λ old. entry);
        q_tail = u8 ((slot + 1) % limits.max_write_outstanding);
        q_count = u8 (cur.q_count + 1);
      }

  abbrev pub accept_write : Io → Option ℕ → Io
  accept_write io none = io
  accept_write io (some m) =
      let req = io.ext_in.upstream.write_req m in
      let upstream = io.ext_out.upstream in
      let ready : Io = record io {
        ext_out = record io.ext_out {
          upstream = record upstream {
            write_req_ready = update upstream.write_req_ready m (λ old. true);
          };
        };
      } in
      if write_queue_full limits config io.regs m
      then io
      else if not req.valid
      then ready
      else record ready {
        reg_write =
            record (set_port m (push_write (pending_req m req) (io.regs.write_port m))
              io.reg_write) { rr_write_master = u8 ((m + 1) % num_write_masters) };
      }

  -- The request at the head of a master's queue taken in hand.
  unfoldable pub promote_port : WritePendingReq → WritePort → WritePort
  unfolding update
  promote_port entry port = record port {
    ctx = record no_ctx {
      valid = true;
      bypass = entry.bypass;
      direct_mapped = entry.direct_mapped;
      mode2_ddr_aligned = entry.mode2_ddr_aligned;
      lookup_pending = true;
      id = entry.id;
      total_size = entry.total_size;
      addr = entry.addr;
      line_addr = line_addr config entry.addr;
      wdata = entry.wdata;
      strobe = entry.wstrb;
    };
    q = update port.q (port.q_head % limits.max_write_outstanding) (λ old. no_pending);
    q_head = u8 ((port.q_head + 1) % limits.max_write_outstanding);
    q_count = dec8 port.q_count;
  }

  abbrev pub count_passthrough : WritePendingReq → Regs → Regs
  count_passthrough entry regs =
      if entry.bypass
      then record regs {
        perf = record regs.perf { write_passthrough = inc64 regs.perf.write_passthrough };
      }
      else regs

  abbrev pub promote_front : Regs → ℕ → Option WritePendingReq → Regs
  promote_front regs m none = regs
  promote_front regs m (some entry) =
      if victim_line_pending limits config regs (line_addr config entry.addr)
      then regs
      else count_passthrough entry (set_port m (promote_port entry) regs)

  unfoldable pub promote_at : Regs → ℕ → Regs
  unfolding promote_port update
  promote_at regs m =
      let port = regs.write_port m in
      if port.ctx.valid || port.resp_valid
      then regs
      else promote_front regs m (write_queue_front limits config regs (u8 m))

  -- The masters from offset `off` of the round on, with `n` left.
  unfoldable pub promote_writes : ℕ → ℕ → ℕ → Regs → Regs
  unfolding promote_at
  promote_writes rr off zero regs = regs
  promote_writes rr off (suc n) regs =
      promote_writes rr (off + 1) n (promote_at regs (at_round rr num_write_masters off))

  -- What is left once a write-back is armed or not; a write-back keeps the others waiting.
  unfoldable pub issue_writes : ℕ → Io → Io
  unfolding arm_queued issue_victim promote_writes push_write update
  issue_writes cycle io =
      let armed = arm_queued io in
      let bypassed =
        issue_bypass cycle armed (pick_bypass_write_issue_master limits config io.regs) in
      let accepted = accept_write bypassed (pick_new_write_master limits config io io.regs) in
      let promoted =
        promote_writes io.regs.rr_write_master 0 num_write_masters accepted.reg_write in
      if armed.reg_write.victim_wb.valid then issue_victim cycle armed else record accepted {
        reg_write = (try_launch_pending_write_lookup limits config promoted).1;
      }

  abbrev pub and_then : (Io → Option Io) → Option Io → Option Io
  and_then f none = none
  and_then f (some io) = f io

  unfoldable pub drive_write_path : ℕ → Io → Option Io
  unfolding issue_writes answer_masters commit_writes take_write_resp retire_write_resps
  drive_write_path cycle io =
      let answered = take_write_resp limits config cycle (retire_write_resps io) in
      let committed =
        and_then (λ after. commit_writes limits config 0 num_write_masters after) answered in
      Option.map
        (λ after.
          issue_writes cycle
            (record after { reg_write = answer_masters limits config after.reg_write }))
        committed
