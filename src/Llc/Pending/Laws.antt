-- ===== src/Llc/Pending/Laws.antt =====
-- axi_interconnect/AXI_LLC.cpp: what holds while the cache may be invalidated, and of a kept victim.
use axi_interconnect_kit.Llc.{Config, Limits, num_write_masters}
use axi_interconnect_kit.Llc.Regs.{Regs}
use axi_interconnect_kit.Prelude.Search.{any_below, any_below-none, any_below-false}
use axi_interconnect_kit.Llc.Pending.{
  can_accept_invalidate_all_now, ctx_pending, has_dirty_or_write_hazard, hazards, port_hazard,
  read_victim_snapshot_present, victim_line_pending, write_line_pending, write_queued,
  any_queued_victim,
}
use axi_interconnect_kit.Prelude.{
  ==_eq, Bool, any_of, any_of-get_or, false, not, not-false, not-true, or-false, refl, true, ℕ,
  ◌&&◌, ◌<◌, ◌==◌, ◌||◌, ◌≡◌, arith,
}
use axi_interconnect_kit.Llc.Bytes.{min}

min-zero : (a b i : ℕ) → a ≡ 0 → i < min a b → ⊥
min-zero a b i z h = ground arith

snapshot_pending :
    (zero_addr valid for_write same queued more : Bool)
    → not zero_addr && (valid && (not for_write && same) || queued) ≡ true
    → valid && same || (queued || more) ≡ true
snapshot_pending zero_addr valid for_write same queued more h = ground arith

module _ (limits : Limits) (config : Config) where
  -- No write is under way.
  writes_done :
      (regs : Regs)
      → any_below (port_hazard limits config regs) num_write_masters ≡ false
      → (line : ℕ) → write_line_pending limits config regs line ≡ false
  unfolding write_line_pending
  writes_done regs h line =
      let ctx =
        any_below-none (λ m. ctx_pending limits config line (regs.write_port m).ctx)
          num_write_masters
          (λ m l.
            let c : (regs.write_port m).ctx.valid ≡ false =
              (or-false (regs.write_port m).ctx.valid _
                (any_below-false (port_hazard limits config regs) num_write_masters m h l)).0 in
            rw c refl) in
      let queued =
        any_below-none (λ m. write_queued limits config line (regs.write_port m)) num_write_masters
          (λ m l.
            let port = regs.write_port m in
            let t = any_below-false (port_hazard limits config regs) num_write_masters m h l in
            let u = or-false port.ctx.valid (not (port.q_count == 0) || port.resp_valid) t in
            let v = or-false (not (port.q_count == 0)) port.resp_valid u.1 in
            let none = ==_eq port.q_count 0 (not-false (port.q_count == 0) v.0) in
            any_below-none _ (min port.q_count limits.max_write_outstanding)
              (λ i b. absurd (min-zero port.q_count limits.max_write_outstanding i none b))) in
      rw (ctx, queued) refl

  -- While the cache may be invalidated as a whole, no line is dirty, no write to any line is under
  -- way or waits, no victim is being written back, and the lookup in hand is no write.
  pub can_accept_invalidate_all_now_safe :
      (regs : Regs) (line : ℕ)
      → can_accept_invalidate_all_now limits config regs ≡ true
      → (regs.dirty_line_count ≡ 0)
        × (write_line_pending limits config regs line ≡ false)
        × (regs.victim_wb.valid ≡ false)
        × (regs.lookup_r.valid && regs.lookup_r.is_write ≡ false)
  unfolding can_accept_invalidate_all_now has_dirty_or_write_hazard
  can_accept_invalidate_all_now_safe regs line h =
      let blocks = hazards limits config regs in
      let past = λ (i : ℕ). any_of-get_or blocks i (not-true (any_of blocks) h) in
      (
        ==_eq regs.dirty_line_count 0 (not-false (regs.dirty_line_count == 0) (past 0)),
        writes_done regs (past 3) line,
        (past 1),
        (past 4),
      )

  -- A line whose victim snapshot is kept is a line that is pending.
  pub victim_line_pending-read_victim_snapshot_present :
      (regs : Regs) (line : ℕ)
      → read_victim_snapshot_present limits config regs line ≡ true
      → victim_line_pending limits config regs line ≡ true
  unfolding read_victim_snapshot_present victim_line_pending
  victim_line_pending-read_victim_snapshot_present regs line h =
      snapshot_pending (line == 0) regs.victim_wb.valid regs.victim_wb.for_write
        (regs.victim_wb.addr == line)
        (any_queued_victim limits config regs (λ entry. entry.victim_addr == line)) _ h
