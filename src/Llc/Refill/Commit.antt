-- ===== src/Llc/Refill/Commit.antt =====
-- axi_interconnect/AXI_LLC.cpp: the commit of a refill, the second half of drive_mem_read_path. A
-- program that aborts is `none`.
-- AXI_LLC_INVALID_VICTIM_MSHR_SLOT.
pub mod Frame
use axi_interconnect_kit.Prelude.{
  Bool, false, if◌then◌else◌, not, true, ℕ, ◌&&◌, ◌==◌, ◌||◌, List, Option, none, replicate, some,
  ◌%◌, ◌+◌,
}
use axi_interconnect_kit.Llc.{Config, Limits}
use axi_interconnect_kit.Llc.Regs.{Io, MissEntry, Regs, WritePort, refill}
use axi_interconnect_kit.Llc.Ports.{TableOut, TableReq}
use axi_interconnect_kit.Llc.Queues.{enqueue_read_victim_snapshot, enqueue_read_response}
use axi_interconnect_kit.Llc.Bytes.{
  extract_line_response, full_line_strobe, words_to_line_bytes, build_repl_payload,
  encode_valid_bit_payload, merge_write_into_line, update_dirty_line_count,
}
use axi_interconnect_kit.Llc.Pending.{
  read_victim_snapshot_present, victim_snapshot_waits_for_write_resolution,
}
use axi_interconnect_kit.Prelude.Words.{u8, u32}
use axi_interconnect_kit.Llc.Meta.{MetaEntry, encode_meta}
use axi_interconnect_kit.Llc.Refill.{free_mshr, issue, receive, set_mshr}
use axi_interconnect_kit.Llc.Mshr.{pick_refill_commit_slot}
use axi_interconnect_kit.Llc.Prefetch.{try_schedule_prefetch}
use axi_interconnect_kit.Prelude.Arrays.{update}

abbrev pub invalid_victim_mshr_slot : ℕ
invalid_victim_mshr_slot = 255

module _ (limits : Limits) (config : Config) where
  abbrev pub holds_victim : Regs → ℕ → MissEntry → Bool
  holds_victim regs slot entry =
      let wb = regs.victim_wb in
      wb.valid && (not wb.for_write && (wb.addr == entry.victim_addr && wb.mshr_slot == u8 slot))

  abbrev pub arm_victim : ℕ → MissEntry → Regs → Regs
  arm_victim slot entry regs = record regs {
    victim_wb = record {
      valid = true;
      issued = false;
      for_write = false;
      write_master = 0;
      mshr_slot = u8 slot;
      addr = entry.victim_addr;
      issue_cycle = 0;
      words = entry.victim_data;
      strobe = full_line_strobe limits config;
    };
  }

  -- Into the write-back slot when it is free, else into the queue.
  abbrev pub take_victim : ℕ → MissEntry → Regs → Bool × Regs
  take_victim slot entry regs =
      if not regs.victim_wb.valid
      then (true, arm_victim slot entry regs)
      else enqueue_read_victim_snapshot limits config (u8 slot) entry.victim_addr entry.victim_data
          (full_line_strobe limits config) regs

  -- ensure_read_victim_snapshot_externalized.
  unfoldable pub externalize : Io → ℕ → MissEntry → Bool × Regs
  unfolding enqueue_read_victim_snapshot
  externalize io slot entry =
      let regs = io.reg_write in
      if not entry.victim_dirty || entry.victim_writeback_done
      then (true, regs)
      else if victim_snapshot_waits_for_write_resolution limits config io.regs entry.victim_addr
      then (false, regs)
      else if holds_victim regs slot entry
          || read_victim_snapshot_present limits config regs entry.victim_addr
      then (true, regs)
      else take_victim slot entry regs

  -- llc_table_write_busy.
  abbrev pub table_write_busy : TableOut → Bool
  table_write_busy t =
      t.data_req.enable || (t.meta_req.enable || (t.valid_req.enable || t.repl_req.enable))

  -- What the master of a miss is given.
  abbrev pub resp_data : MissEntry → ℕ → ℕ
  resp_data entry =
      if entry.bypass
      then entry.refill_data
      else extract_line_response limits config entry.addr
          (words_to_line_bytes limits config entry.refill_data)

  abbrev pub release_victim : ℕ → Regs → Regs
  release_victim slot regs =
      let wb = regs.victim_wb in
      if wb.valid && (not wb.for_write && wb.mshr_slot == u8 slot)
      then record regs { victim_wb = record wb { mshr_slot = invalid_victim_mshr_slot } }
      else regs

  -- The line that goes into the table, with the bytes of the write that missed.
  abbrev pub committed_line : Regs → MissEntry → List ℕ
  committed_line regs entry =
      let line = words_to_line_bytes limits config entry.refill_data in
      let ctx = (regs.write_port entry.master).ctx in
      if entry.is_write
      then merge_write_into_line limits config entry.addr line ctx.wdata ctx.strobe ctx.total_size
      else line

  -- Valid, and dirty for a write or marked for a prefetch.
  abbrev pub committed_flags : MissEntry → ℕ
  committed_flags entry = if entry.is_write then 3 else if entry.is_prefetch then 5 else 1

  abbrev pub write_row : ℕ → ℕ → List ℕ → List ℕ → TableReq
  write_row index way payload byte_enable = record {
    enable = true;
    write = true;
    index = index;
    way = way;
    payload = payload;
    byte_enable = byte_enable;
  }

  abbrev pub committed_tables : Regs → MissEntry → List ℕ → TableOut → TableOut
  committed_tables regs entry meta tables =
      let valid_row = encode_valid_bit_payload config.ways entry.way true in
      record tables {
        data_req =
            write_row entry.set_idx entry.way (committed_line regs entry)
              (replicate config.line_bytes 1);
        meta_req = write_row entry.set_idx entry.way meta (replicate 4 1);
        valid_req = write_row entry.set_idx entry.way valid_row.0 valid_row.1;
        repl_req =
            write_row entry.set_idx tables.repl_req.way
              (build_repl_payload (u32 (entry.way + 1) % config.ways)) (replicate 4 1);
      }

  abbrev pub finish_write : WritePort → WritePort
  finish_write port = record port {
    ctx = record port.ctx { cache_done = true; cache_pending = false };
  }

  -- The registers once the line is in the table.
  abbrev pub committed_regs : Io → ℕ → MissEntry → Regs → Regs
  committed_regs io slot entry regs =
      let dirty =
        update_dirty_line_count io.regs.dirty_line_count entry.victim_dirty entry.is_write in
      if entry.is_write
      then free_mshr io slot (record regs {
        write_port = update regs.write_port entry.master finish_write;
        dirty_line_count = dirty;
      })
      else set_mshr slot (λ old. record old { refill_committed = true })
          (record regs { dirty_line_count = dirty })

  abbrev pub write_tables : Io → ℕ → MissEntry → Regs → Option (List ℕ) → Option Io
  write_tables io slot entry regs none = none
  write_tables io slot entry regs (some meta) = some (record io {
    table_out = committed_tables regs entry meta io.table_out;
    reg_write = committed_regs io slot entry regs;
  })

  -- The line into the table, unless the victim is not safe yet or the tables are in use.
  unfoldable pub commit_line : Io → ℕ → MissEntry → Option Io
  unfolding externalize update
  commit_line io slot entry =
      let kept = externalize io slot entry in
      let meta : MetaEntry = record { tag = entry.tag; flags = committed_flags entry } in
      if not kept.0
      then some (record io { reg_write = kept.1 })
      else if table_write_busy io.table_out
      then some (record io { reg_write = record kept.1 { state = refill } })
      else write_tables io slot entry kept.1 (encode_meta meta)

  -- The response of a miss that the table has, or need not have; `trained` for one that trains the
  -- prefetcher.
  unfoldable pub respond : Io → ℕ → MissEntry → Bool → Regs → Io
  unfolding update enqueue_read_response try_schedule_prefetch
  respond io slot entry trained regs =
      let sent = enqueue_read_response limits config entry.master entry.id (resp_data entry) regs in
      let after =
        if trained then try_schedule_prefetch limits config io.regs entry sent.1 else sent.1 in
      if sent.0
      then record io { reg_write = free_mshr io slot (release_victim slot after) }
      else record io { reg_write = sent.1 }

  -- A refill of before the last invalidation goes to its master alone.
  unfoldable pub commit_stale : Io → ℕ → MissEntry → Io
  unfolding externalize respond update
  commit_stale io slot entry =
      let kept = externalize io slot entry in
      if not kept.0
      then record io { reg_write = kept.1 }
      else if entry.is_prefetch
      then record io { reg_write = free_mshr io slot kept.1 }
      else respond io slot entry false kept.1

  unfoldable pub commit_at : Io → ℕ → Option Io
  unfolding commit_stale commit_line respond update
  commit_at io slot =
      let entry = io.reg_write.mshr slot in
      let stale = not (entry.epoch == io.regs.invalidate_epoch) in
      if entry.refill_valid && (stale && not entry.is_write)
      then some (commit_stale io slot entry)
      else if not entry.refill_committed && not entry.bypass
      then commit_line io slot entry
      else if entry.is_prefetch
      then some (record io { reg_write = free_mshr io slot (release_victim slot io.reg_write) })
      else some (respond io slot entry true io.reg_write)

  abbrev pub commit_picked : Io → Option ℕ → Option Io
  commit_picked io none = some io
  commit_picked io (some slot) = commit_at io slot

  unfoldable pub drive_mem_read_path : ℕ → Io → Option Io
  unfolding receive issue commit_at
  drive_mem_read_path cycle io =
      commit_picked (issue limits config cycle (receive limits config cycle io))
        (pick_refill_commit_slot limits config io.regs)
