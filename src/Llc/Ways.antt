-- ===== src/Llc/Ways.antt =====
-- axi_interconnect/AXI_LLC.cpp: which ways of a set are reserved by a write or a refill under way,
-- and the choice of a way for a new line.
pub mod Laws
use mathlib.Core.Option
use axi_interconnect_kit.Prelude.{
  Bool, Option, if◌then◌else◌, none, not, some, ℕ, ◌%◌, ◌&&◌, ◌+◌, ◌==◌, ◌||◌,
}
use axi_interconnect_kit.Llc.{Config, Limits, num_write_masters}
use axi_interconnect_kit.Llc.Regs.{MissEntry, Regs, WriteCtx}
use axi_interconnect_kit.Prelude.Search.{any_below, first_below}
use axi_interconnect_kit.Llc.Mshr.{mshr_limit}
use axi_interconnect_kit.Prelude.Words.{u32, u8}

module _ (limits : Limits) (config : Config) (regs : Regs) where
  abbrev pub write_reserves : ℕ → ℕ → ℕ → WriteCtx → Bool
  write_reserves index way line ctx =
      ctx.valid
      && (not ctx.bypass
          && (ctx.cache_pending
              && (ctx.set_idx == index && (ctx.way == way && not (ctx.line_addr == line)))))

  unfoldable pub way_reserved_by_pending_write : ℕ → ℕ → ℕ → Bool
  way_reserved_by_pending_write index way line =
      any_below (λ m. write_reserves index way line (regs.write_port m).ctx) num_write_masters

  abbrev pub refill_reserves : ℕ → ℕ → ℕ → MissEntry → Bool
  refill_reserves index way line entry =
      entry.valid
      && (not entry.bypass
          && (not entry.refill_committed
              && (entry.set_idx == index && (entry.way == way && not (entry.line_addr == line)))))

  unfoldable pub way_reserved_by_pending_refill : ℕ → ℕ → ℕ → Bool
  way_reserved_by_pending_refill index way line =
      any_below (λ slot. refill_reserves index way line (regs.mshr slot))
        (mshr_limit limits config regs)

  abbrev pub way_reserved : ℕ → ℕ → ℕ → Bool
  way_reserved index line way =
      way_reserved_by_pending_write index way line || way_reserved_by_pending_refill index way line

  -- The candidates from the replacement way on.
  abbrev pub candidate : ℕ → ℕ → ℕ
  candidate repl_way_raw off = u8 (u32 (repl_way_raw + off) % config.ways)

  unfoldable pub pick_from_repl : ℕ → ℕ → ℕ → Option ℕ
  unfolding way_reserved_by_pending_write way_reserved_by_pending_refill
  pick_from_repl index repl_way_raw line =
      Option.map (candidate repl_way_raw) (
        first_below (λ off. not (way_reserved index line (candidate repl_way_raw off))) config.ways)

  -- The first invalid way, unless it is reserved; else the round from the replacement way.
  unfoldable pub pick_unreserved_way : ℕ → Option ℕ → ℕ → ℕ → Option ℕ
  unfolding way_reserved_by_pending_write way_reserved_by_pending_refill pick_from_repl
  pick_unreserved_way index none repl_way_raw line = pick_from_repl index repl_way_raw line
  pick_unreserved_way index (some way) repl_way_raw line =
      let rest = pick_from_repl index repl_way_raw line in
      if not (way_reserved index line (u8 way)) then some way else rest
