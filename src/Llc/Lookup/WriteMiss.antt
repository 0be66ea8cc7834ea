-- ===== src/Llc/Lookup/WriteMiss.antt =====
-- axi_interconnect/AXI_LLC.cpp: try_complete_lookup, a write that does not find its line, and the
-- victim that a line takes the place of.
use axi_interconnect_kit.Llc.Lookup.{finish, cache_done, lookup_ctx, merged, retry, way_line}
use axi_interconnect_kit.Prelude.{
  Bool, List, Option, false, if◌then◌else◌, is_some, none, not, replicate, some, true, ℕ, ◌%◌, ◌&&◌,
  ◌+◌,
}
use axi_interconnect_kit.Llc.{Config, Limits}
use axi_interconnect_kit.Llc.Regs.{Io, MissEntry, Regs, WritePort, idle, lookup, miss}
use axi_interconnect_kit.Llc.Meta.{MetaEntry, RowScan, decode_meta, encode_meta}
use axi_interconnect_kit.Llc.Address.{build_line_addr_from_tag_set, line_addr, set_index, tag_of}
use axi_interconnect_kit.Llc.Bytes.{
  decode_repl_way, decode_valid_bit, full_line_strobe, is_full_line_write,
  line_bytes_to_write_words, update_dirty_line_count,
}
use axi_interconnect_kit.Llc.Mshr.{find_free_mshr, find_mshr_by_line_addr}
use axi_interconnect_kit.Llc.Prefetch.{inc64}
use axi_interconnect_kit.Llc.Lookup.Hit.{is_dirty}
use axi_interconnect_kit.Llc.WritePath.{line_tables, set_port}
use axi_interconnect_kit.Llc.Refill.{no_miss, set_mshr}
use axi_interconnect_kit.Llc.Ports.{no_words}
use axi_interconnect_kit.Llc.Ways.{pick_unreserved_way}
use axi_interconnect_kit.Llc.Refill.Commit.{table_write_busy}
use axi_interconnect_kit.Prelude.Words.{u8}
use axi_interconnect_kit.Prelude.Arrays.{update}

module _ (limits : Limits) (config : Config) where
  abbrev pub victim_meta : Io → ℕ → MetaEntry
  victim_meta io way = decode_meta io.lookup_in.meta_row way

  abbrev pub victim_is_dirty : Io → ℕ → Bool
  victim_is_dirty io way =
      decode_valid_bit io.lookup_in.valid_row way false && is_dirty (victim_meta io way)

  abbrev pub victim_line_addr : Io → ℕ → ℕ
  victim_line_addr io way =
      build_line_addr_from_tag_set config (victim_meta io way).tag
        (set_index config io.regs.lookup_r.addr)

  abbrev pub victim_words : Io → ℕ → ℕ → ℕ
  victim_words io way = line_bytes_to_write_words limits config (way_line limits config io way)

  -- The victim of a miss that takes a way, in its register.
  abbrev pub with_victim : Io → ℕ → MissEntry → MissEntry
  with_victim io way entry =
      let dirty = victim_is_dirty io way in
      record entry {
        victim_dirty = dirty;
        victim_writeback_done = not dirty;
        victim_addr = if dirty then victim_line_addr io way else 0;
        victim_data = if dirty then victim_words io way else no_words;
      }

  -- The way that the line is to take, chosen as the row says.
  abbrev pub victim_way : Io → RowScan → Option ℕ
  victim_way io scan =
      let addr = io.regs.lookup_r.addr in
      pick_unreserved_way limits config io.regs (set_index config addr) scan.first_invalid_way
        (decode_repl_way io.lookup_in.repl_row) (line_addr config addr)

  abbrev pub repl_next : ℕ → ℕ
  repl_next way = (way + 1) % config.ways

  abbrev pub retry_miss : Io → Io
  retry_miss io = record io { reg_write = retry miss io.reg_write }

  -- The miss register of a write that covers a part of its line.
  abbrev pub write_miss_entry : Io → ℕ → MissEntry
  write_miss_entry io way =
      let l = io.regs.lookup_r in
      with_victim io way (record no_miss {
        valid = true;
        is_write = true;
        addr = l.addr;
        line_addr = line_addr config l.addr;
        set_idx = set_index config l.addr;
        tag = tag_of config l.addr;
        way = way;
        total_size = (lookup_ctx limits config io).total_size;
        master = l.master;
        id = l.id;
        epoch = io.regs.invalidate_epoch;
      })

  abbrev pub await_refill : Io → ℕ → WritePort → WritePort
  await_refill io way port =
      let addr = io.regs.lookup_r.addr in
      record port {
        ctx = record port.ctx {
          cache_pending = true;
          set_idx = set_index config addr;
          way = way;
          repl_next_way = repl_next way;
          tag = tag_of config addr;
        };
      }

  abbrev pub allocate_write : Io → ℕ → Option ℕ → Io
  allocate_write io way none = retry_miss io
  allocate_write io way (some slot) =
      let regs =
        set_port io.regs.lookup_r.master (await_refill io way)
          (set_mshr slot (λ old. write_miss_entry io way) io.reg_write) in
      record io {
        reg_write =
            finish miss
              (record regs { perf = record regs.perf { mshr_alloc = inc64 regs.perf.mshr_alloc } });
      }

  -- A line that is being fetched already is waited for.
  abbrev pub partial_write : Io → ℕ → Io
  partial_write io way =
      if is_some
        (find_mshr_by_line_addr limits config io.regs (line_addr config io.regs.lookup_r.addr))
      then retry_miss io
      else allocate_write io way (find_free_mshr limits config io.regs)

  -- A write of a whole line over a dirty victim: the victim goes to memory first.
  abbrev pub evict_for_write : Io → ℕ → List ℕ → Io
  evict_for_write io way line =
      let l = io.regs.lookup_r in
      let victim = victim_line_addr io way in
      let regs = io.reg_write in
      let held : Regs = record regs {
        victim_wb = record {
          valid = true;
          issued = false;
          for_write = true;
          write_master = l.master;
          mshr_slot = 0;
          addr = victim;
          issue_cycle = 0;
          words = victim_words io way;
          strobe = full_line_strobe limits config;
        };
      } in
      let waits = λ (port : WritePort). record port {
        ctx = record port.ctx {
          cache_pending = true;
          victim_dirty = true;
          victim_addr = victim;
          set_idx = set_index config l.addr;
          way = way;
          repl_next_way = repl_next way;
          tag = tag_of config l.addr;
          line = line_bytes_to_write_words limits config line;
        };
      } in
      if regs.victim_wb.valid
      then record io { reg_write = retry lookup regs }
      else record io { reg_write = finish idle (set_port l.master waits held) }

  abbrev pub put_line : Io → ℕ → List ℕ → Option (List ℕ) → Option Io
  put_line io way line none = none
  put_line io way line (some meta) =
      let l = io.regs.lookup_r in
      let regs = io.reg_write in
      some (record io {
        table_out =
            line_tables limits config (set_index config l.addr) way line meta (repl_next way)
              io.table_out;
        reg_write = finish idle (
            set_port l.master cache_done (record regs {
              dirty_line_count = update_dirty_line_count io.regs.dirty_line_count false true;
            }));
      })

  abbrev pub full_write : Io → ℕ → Option Io
  full_write io way =
      let line = merged limits config io (replicate config.line_bytes 0) in
      let meta : MetaEntry = record { tag = tag_of config io.regs.lookup_r.addr; flags = 3 } in
      if victim_is_dirty io way
      then some (evict_for_write io way line)
      else if table_write_busy limits config io.table_out
      then some (record io { reg_write = retry lookup io.reg_write })
      else put_line io way line (encode_meta meta)

  abbrev pub write_into : Io → Option ℕ → Option Io
  write_into io none = some (retry_miss io)
  write_into io (some picked) =
      let way = u8 picked in
      let ctx = lookup_ctx limits config io in
      if is_full_line_write limits config ctx.addr ctx.strobe ctx.total_size
      then full_write io way
      else some (partial_write io way)

  unfoldable pub complete_write_miss : Io → RowScan → Option Io
  unfolding update encode_meta
  complete_write_miss io scan =
      let l = io.regs.lookup_r in
      if l.is_bypass
      then some (record io { reg_write = finish idle (set_port l.master cache_done io.reg_write) })
      else write_into io (victim_way io scan)
