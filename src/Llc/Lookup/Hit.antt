-- ===== src/Llc/Lookup/Hit.antt =====
-- axi_interconnect/AXI_LLC.cpp: try_complete_lookup, a lookup that finds its line.
use mathlib.Core.Option
use axi_interconnect_kit.Llc.Lookup.{finish, answer, answered, cache_done, merged, retry, way_line}
use axi_interconnect_kit.Prelude.{
  Bool, List, Option, false, if◌then◌else◌, ltb, none, not, replicate, some, true, ℕ, ◌%◌, ◌&&◌,
  ◌*◌, ◌+◌, ◌-◌, ◌==◌,
}
use axi_interconnect_kit.Llc.{Config, Limits, num_read_masters}
use axi_interconnect_kit.Llc.Regs.{Io, MissEntry, PerfCounters, Regs, idle, lookup}
use axi_interconnect_kit.Llc.Meta.{MetaEntry, encode_meta}
use axi_interconnect_kit.Llc.Ports.{TableOut}
use axi_interconnect_kit.Prelude.Words.{bit, u8}
use axi_interconnect_kit.Llc.Bytes.{
  build_repl_payload, encode_valid_bit_payload, extract_line_response, line_bytes_to_write_words,
  update_dirty_line_count,
}
use axi_interconnect_kit.Llc.Queues.{enqueue_read_response}
use axi_interconnect_kit.Llc.Prefetch.{inc64, max_prefetch_queue}
use axi_interconnect_kit.Llc.Address.{line_addr, set_index, tag_of}
use axi_interconnect_kit.Llc.WritePath.{line_tables, set_port}
use axi_interconnect_kit.Llc.Mshr.{mshr_limit}
use axi_interconnect_kit.Llc.Reset.{no_prefetch}
use axi_interconnect_kit.Llc.Refill.Commit.{table_write_busy, write_row}
use axi_interconnect_kit.Prelude.Arrays.{update}

unfoldable pub perf_count_read_hit : PerfCounters → ℕ → PerfCounters
unfolding update
perf_count_read_hit perf m =
    let counted = record perf { read_hit = inc64 perf.read_hit } in
    if ltb m num_read_masters
    then record counted { read_hit_by_master = update perf.read_hit_by_master m inc64 }
    else counted

-- A prefetch leaves its place in the queue.
abbrev pub drop_prefetch : ℕ → Regs → Regs
drop_prefetch slot regs =
    if ltb slot max_prefetch_queue
    then record regs {
      prefetch_r = record regs.prefetch_r {
        q = update regs.prefetch_r.q slot (λ old. no_prefetch);
      };
    }
    else regs

abbrev pub is_dirty : MetaEntry → Bool
is_dirty meta = bit meta.flags 1 == 1

module _ (limits : Limits) (config : Config) where
  -- A refill that is under way over the line that is written.
  abbrev pub evicts_hit : Io → ℕ → MissEntry → Bool
  evicts_hit io way entry =
      let addr = io.regs.lookup_r.addr in
      entry.valid
      && (not entry.bypass
          && (not entry.is_write
              && (not entry.refill_committed
                  && (entry.set_idx == set_index config addr
                      && (entry.way == u8 way && not (entry.line_addr == line_addr config addr))))))

  -- Such a refill has the written line for a dirty victim.
  abbrev pub mark_victims : Io → ℕ → List ℕ → (ℕ → MissEntry) → ℕ → MissEntry
  mark_victims io way line mshr slot =
      if ltb slot (mshr_limit limits config io.regs) && evicts_hit io way (io.regs.mshr slot)
      then record (mshr slot) {
        victim_dirty = true;
        victim_writeback_done = false;
        victim_addr = line_addr config io.regs.lookup_r.addr;
        victim_data = line_bytes_to_write_words limits config line;
      }
      else mshr slot

  -- Valid; dirty unless the write goes to the memory too, which leaves that as it was.
  abbrev pub write_hit_flags : Bool → MetaEntry → ℕ
  write_hit_flags bypass hit = 1 + (if bypass then bit hit.flags 1 * 2 else 2)

  abbrev pub put_hit : Io → ℕ → MetaEntry → List ℕ → Option (List ℕ) → Option Io
  put_hit io way hit line none = none
  put_hit io way hit line (some meta) =
      let l = io.regs.lookup_r in
      let regs = io.reg_write in
      let dirty = is_dirty hit in
      some (record io {
        table_out =
            line_tables limits config (set_index config l.addr) way line meta
              ((way + 1) % config.ways) io.table_out;
        reg_write = finish idle (
            set_port l.master cache_done (record regs {
              mshr = if l.is_bypass then regs.mshr else mark_victims io way line regs.mshr;
              dirty_line_count =
                  update_dirty_line_count io.regs.dirty_line_count dirty
                    (if l.is_bypass then dirty else true);
            }));
      })

  abbrev pub write_hit : Io → ℕ → MetaEntry → Option Io
  write_hit io way hit =
      let l = io.regs.lookup_r in
      let meta : MetaEntry = record {
        tag = tag_of config l.addr;
        flags = write_hit_flags l.is_bypass hit;
      } in
      if table_write_busy limits config io.table_out
      then some (record io { reg_write = retry lookup io.reg_write })
      else put_hit io way hit (merged limits config io (way_line limits config io way))
          (encode_meta meta)

  abbrev pub invalidate_hit : Io → ℕ → MetaEntry → Io
  invalidate_hit io way hit =
      let valid_row = encode_valid_bit_payload config.ways way false in
      if table_write_busy limits config io.table_out
      then record io { reg_write = retry lookup io.reg_write }
      else record io {
        table_out = record io.table_out {
          valid_req =
              write_row limits config (set_index config io.regs.lookup_r.addr) way valid_row.0
                valid_row.1;
        };
        reg_write = finish idle (record io.reg_write {
          dirty_line_count = update_dirty_line_count io.regs.dirty_line_count (is_dirty hit) false;
        });
      }

  abbrev pub prefetch_hit : Io → Io
  prefetch_hit io =
      let regs = drop_prefetch io.regs.lookup_r.id io.reg_write in
      record io {
        reg_write = finish idle (record regs {
          perf = record regs.perf {
            prefetch_drop_table_hit = inc64 regs.perf.prefetch_drop_table_hit;
          };
        });
      }

  abbrev pub hit_response : Io → ℕ → ℕ → ℕ
  hit_response io way =
      extract_line_response limits config io.regs.lookup_r.addr (way_line limits config io way)

  abbrev pub bypass_hit : Io → ℕ → Io
  bypass_hit io way =
      answered limits config io (finish idle) (answer limits config io (hit_response io way))

  -- The next victim of the set, and the prefetch mark of the line taken off.
  abbrev pub touch : Io → ℕ → Option (List ℕ) → TableOut
  touch io way meta =
      let index = set_index config io.regs.lookup_r.addr in
      let tables = io.table_out in
      let touched : TableOut = record tables {
        repl_req =
            write_row limits config index tables.repl_req.way
              (build_repl_payload ((way + 1) % config.ways)) (replicate 4 1);
      } in
      elim meta [
        | none ↦ touched
        | some row ↦ record touched {
          meta_req = write_row limits config index way row (replicate 4 1);
        }
      ]

  abbrev pub count_hit : ℕ → Bool → Regs → Regs
  count_hit master prefetched regs =
      let marked =
        if prefetched
        then record regs.perf { prefetch_hit = inc64 regs.perf.prefetch_hit }
        else regs.perf in
      record regs { perf = perf_count_read_hit marked master }

  -- The mark's row, `none` where its encoding aborts, `some none` for a line with no mark.
  abbrev pub unmarked : MetaEntry → Option (Option (List ℕ))
  unmarked hit =
      if bit hit.flags 2 == 1
      then Option.map some (encode_meta (record hit { flags = hit.flags - 4 }))
      else some none

  abbrev pub serve_hit : Io → ℕ → MetaEntry → Bool × Regs → Option Io
  serve_hit io way hit (false, regs) = some (record io { reg_write = retry lookup regs })
  serve_hit io way hit (true, regs) =
      Option.map
        (λ meta. record io {
          table_out = touch io way meta;
          reg_write = finish idle (count_hit io.regs.lookup_r.master (bit hit.flags 2 == 1) regs);
        })
        (unmarked hit)

  abbrev pub read_hit : Io → ℕ → MetaEntry → Option Io
  read_hit io way hit =
      if table_write_busy limits config io.table_out
      then some (record io { reg_write = retry lookup io.reg_write })
      else serve_hit io way hit (answer limits config io (hit_response io way))

  unfoldable pub complete_hit : Io → ℕ → MetaEntry → Option Io
  unfolding update enqueue_read_response perf_count_read_hit encode_meta
  complete_hit io way hit =
      let l = io.regs.lookup_r in
      if l.is_write
      then write_hit io way hit
      else if l.is_invalidate
      then some (invalidate_hit io way hit)
      else if l.is_prefetch
      then some (prefetch_hit io)
      else if l.is_bypass
      then some (bypass_hit io way)
      else read_hit io way hit
