-- ===== src/Llc/WritePath.antt =====
-- axi_interconnect/AXI_LLC.cpp: the first half of drive_write_path. The responses to the masters, the
-- answer of the memory, and the commit of writes whose victim is safe. A program that aborts is `none`.
pub mod Issue
pub mod Laws
pub mod Frame
use axi_interconnect_kit.Prelude.{
  Bool, List, Option, false, if◌then◌else◌, leb, ltb, none, not, replicate, some, suc, true, zero,
  ℕ, ◌%◌, ◌&&◌, ◌+◌, ◌-◌, ◌==◌, ◌||◌, is_some,
}
use axi_interconnect_kit.Llc.{Config, Limits, num_write_masters}
use axi_interconnect_kit.Llc.Regs.{Io, Regs, WriteCtx, WritePort, VictimWb, WritePendingReq}
use axi_interconnect_kit.Llc.Meta.{MetaEntry, encode_meta}
use axi_interconnect_kit.Llc.Ports.{TableOut, WriteResp, MemOut, WriteReq}
use axi_interconnect_kit.Llc.Bytes.{
  build_repl_payload, encode_valid_bit_payload, words_to_line_bytes,
}
use axi_interconnect_kit.Llc.Queues.{dec8, write_queue_full}
use axi_interconnect_kit.Llc.Pending.{find_bypass_write_mem_owner, queue_depth}
use axi_interconnect_kit.Llc.Mshr.{find_mshr_by_victim_addr, mshr_limit}
use axi_interconnect_kit.Llc.Prefetch.{inc64}
use axi_interconnect_kit.Llc.Refill.Commit.{invalid_victim_mshr_slot, table_write_busy, write_row}
use axi_interconnect_kit.Llc.Reset.{no_ctx, no_victim, no_victim_wb}
use axi_interconnect_kit.Llc.Refill.{set_mshr, u64, line_size}
use axi_interconnect_kit.Prelude.Words.{u8}
use axi_interconnect_kit.Prelude.Arrays.{update}

abbrev pub set_port : ℕ → (WritePort → WritePort) → Regs → Regs
set_port m f regs = record regs { write_port = update regs.write_port m f }

abbrev pub sample_write : ℕ → ℕ → Regs → Regs
sample_write cycle issued regs = if issued == 0 then regs else record regs {
  perf = record regs.perf {
    ddr_write_total_cycles =
        u64 (regs.perf.ddr_write_total_cycles + cycle + (18446744073709551616 - issued));
    ddr_write_samples = inc64 regs.perf.ddr_write_samples;
  };
}

abbrev pub shown_write : WritePort → WriteResp
shown_write port = record { valid = port.resp_valid; id = port.resp_id; resp = port.resp_code }

abbrev pub clear_resp : WritePort → WritePort
clear_resp port = record port { resp_valid = false; resp_id = 0; resp_code = 0; resp_line_addr = 0 }

-- The responses that the masters are shown; one that is taken is cleared.
unfoldable pub retire_write_resps : Io → Io
retire_write_resps io =
    let upstream = io.ext_out.upstream in
    let ready = io.ext_in.upstream.write_resp_ready in
    record io {
      ext_out = record io.ext_out {
        upstream = record upstream {
          write_resp = λ m.
              if ltb m num_write_masters
              then shown_write (io.regs.write_port m)
              else upstream.write_resp m;
        };
      };
      reg_write = record io.reg_write {
        write_port = λ m.
            if ltb m num_write_masters && ((io.regs.write_port m).resp_valid && ready m)
            then clear_resp (io.reg_write.write_port m)
            else io.reg_write.write_port m;
      };
    }

module _ (limits : Limits) (config : Config) where
  -- The tables written with one line.
  abbrev pub line_tables : ℕ → ℕ → List ℕ → List ℕ → ℕ → TableOut → TableOut
  line_tables index way line meta repl_next tables =
      let valid_row = encode_valid_bit_payload config.ways way true in
      record tables {
        data_req = write_row limits config index way line (replicate config.line_bytes 1);
        meta_req = write_row limits config index way meta (replicate 4 1);
        valid_req = write_row limits config index way valid_row.0 valid_row.1;
        repl_req =
            write_row limits config index tables.repl_req.way (build_repl_payload repl_next)
              (replicate 4 1);
      }

  abbrev pub commits_ctx : WriteCtx → Bool
  commits_ctx ctx =
      ctx.valid
      && (not ctx.bypass && (ctx.cache_pending && (ctx.victim_mem_done && not ctx.cache_done)))

  abbrev pub commit_ctx : Io → ℕ → Option (List ℕ) → Option (Bool × Io)
  commit_ctx io m none = none
  commit_ctx io m (some meta) =
      let ctx = (io.reg_write.write_port m).ctx in
      some (
        true,
        record io {
          table_out =
              line_tables ctx.set_idx ctx.way (words_to_line_bytes limits config ctx.line) meta
                ctx.repl_next_way io.table_out;
          reg_write =
              set_port m
                (λ port. record port {
                  ctx = record port.ctx {
                    cache_done = true;
                    cache_pending = false;
                    victim_mem_done = false;
                  };
                })
                io.reg_write;
        },
      )

  -- A write whose victim is in memory goes into the table, if the tables are free.
  unfoldable pub try_commit_write_ctx_after_victim : Io → ℕ → Option (Bool × Io)
  unfolding update
  try_commit_write_ctx_after_victim io m =
      let ctx = (io.reg_write.write_port m).ctx in
      let meta : MetaEntry = record { tag = ctx.tag; flags = 3 } in
      if leb num_write_masters m || not (commits_ctx ctx)
      then some (false, io)
      else if table_write_busy limits config io.table_out
      then some (false, io)
      else commit_ctx io m (encode_meta meta)

  -- The victim that the memory has written: of a queued snapshot, or of a miss.
  abbrev pub pop_victim : Regs → Regs → Regs
  pop_victim regs reg_write =
      let queue = regs.read_victim_wb in
      let head = queue.head % queue_depth limits config in
      let queued = queue.q head in
      let next = reg_write.read_victim_wb in
      if not (queue.count == 0) && (queued.valid && queued.victim_addr == regs.victim_wb.addr)
      then record reg_write {
        read_victim_wb = record next {
          q = update next.q head (λ old. no_victim);
          head = u8 ((head + 1) % queue_depth limits config);
          count = dec8 next.count;
        };
      }
      else reg_write

  -- The slot that the write-back belongs to, or else the first whose victim it is.
  abbrev pub victim_owner : Regs → Option ℕ
  victim_owner regs =
      let slot = regs.victim_wb.mshr_slot in
      let entry = regs.mshr slot in
      if ltb slot (mshr_limit limits config regs)
        && (entry.valid && (entry.victim_dirty && entry.victim_addr == regs.victim_wb.addr))
      then some slot
      else find_mshr_by_victim_addr limits config regs regs.victim_wb.addr

  abbrev pub victim_written : Option ℕ → Regs → Regs
  victim_written none regs = regs
  victim_written (some slot) regs =
      set_mshr slot (λ entry. record entry { victim_writeback_done = true }) regs

  abbrev pub drop_flag : Option (Bool × Io) → Option Io
  drop_flag none = none
  drop_flag (some (b, io)) = some io

  -- The memory's answer to a write-back.
  unfoldable pub answer_victim : ℕ → Io → Option Io
  unfolding try_commit_write_ctx_after_victim find_mshr_by_victim_addr update
  answer_victim cycle io =
      let wb = io.regs.victim_wb in
      let cleared =
        sample_write cycle wb.issue_cycle (record io.reg_write { victim_wb = no_victim_wb }) in
      if wb.for_write
      then drop_flag (
          try_commit_write_ctx_after_victim
            (record io {
              reg_write =
                  set_port wb.write_master
                    (λ port. record port { ctx = record port.ctx { victim_mem_done = true } })
                    cleared;
            })
            wb.write_master)
      else if wb.mshr_slot == invalid_victim_mshr_slot
      then some (record io { reg_write = pop_victim io.regs cleared })
      else some (record io { reg_write = victim_written (victim_owner io.regs) cleared })

  -- The memory's answer to a bypass write.
  abbrev pub answer_bypass : ℕ → Io → Option ℕ → Io
  answer_bypass cycle io none = io
  answer_bypass cycle io (some m) = record io {
    reg_write = sample_write cycle (io.regs.write_port m).ctx.mem_issue_cycle (
        set_port m
          (λ port. record port {
            ctx = record port.ctx { mem_done = true; mem_resp_code = io.ext_in.mem.write_resp };
          })
          io.reg_write);
  }

  unfoldable pub take_write_resp : ℕ → Io → Option Io
  unfolding answer_victim find_bypass_write_mem_owner update
  take_write_resp cycle io =
      let heard : Io = record io {
        ext_out = record io.ext_out { mem = record io.ext_out.mem { write_resp_ready = true } };
      } in
      let victim = io.regs.victim_wb.valid && io.regs.victim_wb.issued in
      if not io.ext_in.mem.write_resp_valid
      then some heard
      else if victim
      then answer_victim cycle heard
      else some (answer_bypass cycle heard (find_bypass_write_mem_owner limits config io.regs))

  abbrev pub go_on : (Io → Option Io) → Option (Bool × Io) → Option Io
  go_on k none = none
  go_on k (some (true, after)) = some after
  go_on k (some (false, after)) = k after

  -- The first write that commits ends the round.
  unfoldable pub commit_writes : ℕ → ℕ → Io → Option Io
  unfolding try_commit_write_ctx_after_victim
  commit_writes m zero io = some io
  commit_writes m (suc n) io =
      go_on (λ after. commit_writes (m + 1) n after) (try_commit_write_ctx_after_victim io m)

  abbrev pub is_done : WriteCtx → Bool
  is_done ctx = if ctx.bypass then ctx.mem_done else ctx.cache_done && not ctx.cache_pending

  -- A write that is done is answered, when the response slot is free.
  unfoldable pub answer_port : WritePort → WritePort
  answer_port port =
      let ctx = port.ctx in
      if ctx.valid && (not port.resp_valid && is_done ctx)
      then record port {
        resp_valid = true;
        resp_id = ctx.id;
        resp_code = if ctx.bypass then ctx.mem_resp_code else 0;
        resp_line_addr = ctx.line_addr;
        ctx = no_ctx;
      }
      else port

  unfoldable pub answer_masters : Regs → Regs
  unfolding answer_port
  answer_masters regs = record regs {
    write_port =
        λ m. if ltb m num_write_masters then answer_port (regs.write_port m) else regs.write_port m;
  }
