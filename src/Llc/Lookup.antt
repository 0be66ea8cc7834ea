-- ===== src/Llc/Lookup.antt =====
-- axi_interconnect/AXI_LLC.cpp: try_complete_lookup, the outcome of a lookup. Here the end of a
-- lookup, the rows that it has read and the direct-mapped accesses. The result, which the one caller
-- drops, is left out; a program that aborts is `none`.
pub mod Hit
pub mod WriteMiss
pub mod ReadMiss
pub mod Complete
pub mod Frame
pub mod Distinct
pub mod Outcome
pub mod Laws
use axi_interconnect_kit.Llc.Regs.{LlcState, Io, Regs, WriteCtx, WritePort, idle, lookup}
use axi_interconnect_kit.Prelude.{
  Bool, List, Option, false, if◌then◌else◌, leb, length, none, replicate, some, true, ℕ, ◌&&◌,
}
use axi_interconnect_kit.Llc.{Config, Limits}
use axi_interconnect_kit.Llc.Ports.{TableOut, no_words}
use axi_interconnect_kit.Llc.Bytes.{
  decode_valid_bit, encode_valid_bit_payload, extract_line_response, extract_way_line_bytes,
  merge_write_into_line,
}
use axi_interconnect_kit.Llc.Address.{direct_mapped_coords, valid_row_bytes}
use axi_interconnect_kit.Llc.Queues.{enqueue_read_response}
use axi_interconnect_kit.Llc.WritePath.{set_port}
use axi_interconnect_kit.Llc.Refill.Commit.{table_write_busy, write_row}
use axi_interconnect_kit.Prelude.Arrays.{update}

-- The lookup is over.
abbrev pub finish : LlcState → Regs → Regs
finish next regs = record regs {
  lookup_r = record regs.lookup_r {
    valid = false;
    issued = false;
    is_prefetch = false;
    is_invalidate = false;
    is_write = false;
    is_bypass = false;
  };
  state = next;
}

abbrev pub finish_direct : Regs → Regs
finish_direct regs = record regs {
  lookup_r = record regs.lookup_r {
    valid = false;
    issued = false;
    is_prefetch = false;
    is_invalidate = false;
    is_write = false;
    is_bypass = false;
    is_direct_mapped = false;
    is_mode2_ddr_aligned = false;
  };
  state = idle;
}

-- The lookup reads the tables again.
abbrev pub retry : LlcState → Regs → Regs
retry next regs = record regs { lookup_r = record regs.lookup_r { issued = false }; state = next }

abbrev pub cache_done : WritePort → WritePort
cache_done port = record port { ctx = record port.ctx { cache_done = true } }

module _ (limits : Limits) (config : Config) where
  -- The rows are there: `lookup_valid_r` to `valid_table_ready`.
  abbrev pub rows_ready : Io → Bool
  rows_ready io =
      let l = io.regs.lookup_r in
      let rows = io.lookup_in in
      let valid_table_ready =
        rows.valid_valid && leb (valid_row_bytes config) (length rows.valid_row) in
      l.valid
      && (l.issued
          && (rows.data_valid && (rows.meta_valid && (valid_table_ready && rows.repl_valid))))

  abbrev pub way_line : Io → ℕ → List ℕ
  way_line io way = extract_way_line_bytes limits config io.lookup_in.data_row way

  abbrev pub lookup_ctx : Io → WriteCtx
  lookup_ctx io = (io.reg_write.write_port io.regs.lookup_r.master).ctx

  -- A line with the bytes of the write that is looked up.
  abbrev pub merged : Io → List ℕ → List ℕ
  merged io line =
      let ctx = lookup_ctx io in
      merge_write_into_line limits config io.regs.lookup_r.addr line ctx.wdata ctx.strobe
        ctx.total_size

  -- The line of a direct-mapped slot that is in use, else `none`.
  abbrev pub resident : Io → Option (ℕ × ℕ) → Option (List ℕ)
  resident io none = none
  resident io (some (index, way)) =
      if decode_valid_bit io.lookup_in.valid_row way false then some (way_line io way) else none

  abbrev pub line_or_zero : Option (List ℕ) → List ℕ
  line_or_zero none = replicate config.line_bytes 0
  line_or_zero (some line) = line

  abbrev pub direct_tables : Option (ℕ × ℕ) → List ℕ → TableOut → TableOut
  direct_tables none line tables = tables
  direct_tables (some (index, way)) line tables =
      let valid_row = encode_valid_bit_payload config.ways way true in
      record tables {
        data_req = write_row limits config index way line (replicate config.line_bytes 1);
        valid_req = write_row limits config index way valid_row.0 valid_row.1;
      }

  abbrev pub direct_write : Io → Option (ℕ × ℕ) → Io
  direct_write io coords =
      if table_write_busy limits config io.table_out
      then record io { reg_write = retry lookup io.reg_write }
      else record io {
        table_out =
            direct_tables coords (merged io (line_or_zero (resident io coords))) io.table_out;
        reg_write = finish_direct (set_port io.regs.lookup_r.master cache_done io.reg_write);
      }

  abbrev pub direct_response : Io → Option (List ℕ) → ℕ → ℕ
  direct_response io none = no_words
  direct_response io (some line) = extract_line_response limits config io.regs.lookup_r.addr line

  -- A response that finds no room is tried again.
  abbrev pub answered : Io → (Regs → Regs) → Bool × Regs → Io
  answered io done (true, regs) = record io { reg_write = done regs }
  answered io done (false, regs) = record io { reg_write = retry lookup regs }

  abbrev pub answer : Io → (ℕ → ℕ) → Bool × Regs
  answer io payload =
      let l = io.regs.lookup_r in
      enqueue_read_response limits config l.master l.id payload io.reg_write

  abbrev pub direct_read : Io → Option (ℕ × ℕ) → Io
  direct_read io coords =
      answered io finish_direct (answer io (direct_response io (resident io coords)))

  unfoldable pub complete_direct : Io → Io
  unfolding update enqueue_read_response
  complete_direct io =
      let coords = direct_mapped_coords config io.regs.lookup_r.addr in
      if io.regs.lookup_r.is_write then direct_write io coords else direct_read io coords
