-- ===== src/Llc/Pending.antt =====
-- axi_interconnect/AXI_LLC.cpp: which lines have a write, a victim or a miss under way, and what may
-- be accepted beside them.
pub mod Laws
pub mod Quiet
use axi_interconnect_kit.Prelude.{
  Bool, Option, false, if◌then◌else◌, is_some, leb, ltb, none, not, some, ℕ, ◌%◌, ◌&&◌, ◌+◌, ◌==◌,
  ◌||◌, List, [], any_of, ◌∷◌,
}
use axi_interconnect_kit.Llc.{Config, Limits, master_dcache_r, num_read_masters, num_write_masters}
use axi_interconnect_kit.Llc.Ports.{ExtIn}
use axi_interconnect_kit.Llc.Regs.{ReadVictimWbReq, Regs, WriteCtx, WritePort}
use axi_interconnect_kit.Prelude.Search.{any_below, first_below}
use axi_interconnect_kit.Llc.Mshr.{
  find_free_mshr, find_mshr_by_line_addr, has_mshr_for_master, mshr_limit,
}
use axi_interconnect_kit.Llc.Address.{line_addr}
use axi_interconnect_kit.Llc.Bytes.{min}
use axi_interconnect_kit.Prelude.Words.{u8}

module _ (limits : Limits) (config : Config) where
  -- AXI_LLC_READ_RESP_QUEUE_DEPTH and AXI_LLC_READ_VICTIM_WB_QUEUE_DEPTH, a `uint8_t`.
  abbrev pub queue_depth : ℕ
  queue_depth = u8 limits.max_outstanding

  -- Whether one of the entries of the victim queue, oldest first, passes.
  abbrev pub any_queued_victim : Regs → (ReadVictimWbReq → Bool) → Bool
  any_queued_victim regs p =
      let queue = regs.read_victim_wb in
      any_below
        (λ i. let entry = queue.q (u8 ((queue.head + i) % queue_depth)) in entry.valid && p entry)
        (min queue.count queue_depth)

  unfoldable pub has_pending_upstream_write_line : ExtIn → ℕ → Bool
  has_pending_upstream_write_line ext_in line =
      any_below
        (λ m.
          let req = ext_in.upstream.write_req m in
          req.valid && (not req.bypass && line_addr config req.addr == line))
        num_write_masters

  -- A write that is being handled.
  abbrev pub ctx_pending : ℕ → WriteCtx → Bool
  ctx_pending line ctx =
      ctx.valid
      && (ctx.line_addr == line && (if ctx.bypass then not ctx.mem_done else not ctx.cache_done))

  -- A write that waits in the queue of its master.
  abbrev pub write_queued : ℕ → WritePort → Bool
  write_queued line port =
      any_below
        (λ i.
          let entry = port.q ((port.q_head + i) % limits.max_write_outstanding) in
          entry.valid && line_addr config entry.addr == line)
        (min port.q_count limits.max_write_outstanding)

  unfoldable pub write_line_pending : Regs → ℕ → Bool
  write_line_pending regs line =
      any_below (λ m. ctx_pending line (regs.write_port m).ctx) num_write_masters
      || any_below (λ m. write_queued line (regs.write_port m)) num_write_masters

  unfoldable pub read_victim_snapshot_present : Regs → ℕ → Bool
  read_victim_snapshot_present regs victim =
      let wb = regs.victim_wb in
      not (victim == 0)
      && (wb.valid && (not wb.for_write && wb.addr == victim)
          || any_queued_victim regs (λ entry. entry.victim_addr == victim))

  unfoldable pub victim_snapshot_waits_for_write_resolution : Regs → ℕ → Bool
  victim_snapshot_waits_for_write_resolution regs victim =
      let l = regs.lookup_r in
      not (victim == 0)
      && (l.valid
            && (l.is_write && (l.issued && (not l.is_bypass && line_addr config l.addr == victim)))
          || any_below
              (λ m.
                let ctx = (regs.write_port m).ctx in
                ctx.valid && (not ctx.bypass && (ctx.line_addr == victim && ctx.cache_pending)))
              num_write_masters)

  -- The victim of a write that waits for the table.
  abbrev pub ctx_evicts : ℕ → WriteCtx → Bool
  ctx_evicts line ctx =
      ctx.valid
      && (not ctx.bypass && (ctx.cache_pending && (ctx.victim_dirty && ctx.victim_addr == line)))

  -- The victim of a miss, from the refill's arrival to its commit.
  abbrev pub mshr_evicts : Regs → ℕ → ℕ → Bool
  mshr_evicts regs line slot =
      let entry = regs.mshr slot in
      let wb = regs.victim_wb in
      let armed = wb.valid && (not wb.for_write && (wb.addr == line && wb.mshr_slot == u8 slot)) in
      entry.valid
      && (not entry.bypass
          && (entry.victim_dirty
              && (not entry.refill_committed
                  && (entry.victim_addr == line
                      && (entry.refill_valid || (entry.victim_writeback_done || armed))))))

  unfoldable pub victim_line_pending : Regs → ℕ → Bool
  victim_line_pending regs line =
      regs.victim_wb.valid && regs.victim_wb.addr == line
      || (any_queued_victim regs (λ entry. entry.victim_addr == line)
          || (any_below (λ m. ctx_evicts line (regs.write_port m).ctx) num_write_masters
              || any_below (mshr_evicts regs line) (mshr_limit limits config regs)))

  -- A miss may stand beside another of its master only for the data cache.
  abbrev pub allow_parallel_demand_mshr : ℕ → Bool
  allow_parallel_demand_mshr master = master == master_dcache_r

  -- The early returns that `can_accept_read_now` and the read pick share.
  abbrev pub read_blocks : ExtIn → Regs → ℕ → Bool → ℕ → List Bool
  read_blocks ext_in regs master bypass addr =
      let line = line_addr config addr in
      (regs.lookup_r.valid)
      ∷ (has_pending_upstream_write_line ext_in line)
      ∷ (write_line_pending regs line)
      ∷ (victim_line_pending regs line)
      ∷ (is_some (find_mshr_by_line_addr limits config regs line))
      ∷ (not bypass
          && (not (allow_parallel_demand_mshr master)
              && has_mshr_for_master limits config regs master))
      ∷ (not (is_some (find_free_mshr limits config regs)))
      ∷ []

  unfoldable pub can_accept_read_now : ExtIn → Regs → ℕ → Bool → ℕ → Bool
  can_accept_read_now ext_in regs master bypass addr =
      not (leb num_read_masters master || config.mshr_num == 0)
      && (not (regs.read_resp master).valid
          && not (any_of (read_blocks ext_in regs master bypass addr)))

  unfoldable pub find_bypass_write_mem_owner : Regs → Option ℕ
  find_bypass_write_mem_owner regs =
      first_below
        (λ m.
          let ctx = (regs.write_port m).ctx in
          ctx.valid && (ctx.bypass && (ctx.mem_issued && not ctx.mem_done)))
        num_write_masters

  -- The memory answers a bypass write to the line in this cycle.
  abbrev pub answers_line : ExtIn → Regs → ℕ → Option ℕ → Bool
  answers_line ext_in regs line none = false
  answers_line ext_in regs line (some m) =
      let ctx = (regs.write_port (u8 m)).ctx in
      ext_in.mem.write_resp_valid && (ctx.valid && ctx.line_addr == line)

  -- A master's write to the line, being handled or answered.
  abbrev pub port_holds_line : Regs → ℕ → ℕ → Bool
  port_holds_line regs line m =
      let port = regs.write_port m in
      port.ctx.valid && port.ctx.line_addr == line || port.resp_valid && port.resp_line_addr == line

  abbrev pub victim_wb_holds_line : Regs → ℕ → Bool
  victim_wb_holds_line regs line =
      let wb = regs.victim_wb in
      let ctx = (regs.write_port wb.write_master).ctx in
      wb.valid
      && (wb.addr == line
          || wb.for_write
            && (ltb wb.write_master num_write_masters && (ctx.valid && ctx.line_addr == line)))

  abbrev pub invalidate_line_blocks : ExtIn → Regs → ℕ → List Bool
  invalidate_line_blocks ext_in regs line =
      (any_below (λ m. (regs.read_resp m).valid || not ((regs.read_resp m).q_count == 0))
        num_read_masters)
      ∷ (is_some (find_mshr_by_line_addr limits config regs line))
      ∷ (answers_line ext_in regs line (find_bypass_write_mem_owner regs))
      ∷ (any_below
          (λ m.
            let req = ext_in.upstream.write_req m in req.valid && line_addr config req.addr == line)
          num_write_masters)
      ∷ (write_line_pending regs line)
      ∷ (victim_line_pending regs line)
      ∷ (any_below (port_holds_line regs line) num_write_masters)
      ∷ (regs.lookup_r.valid && line_addr config regs.lookup_r.addr == line)
      ∷ (victim_wb_holds_line regs line)
      ∷ []

  unfoldable pub can_accept_invalidate_line_now : ExtIn → Regs → ℕ → Bool
  can_accept_invalidate_line_now ext_in regs line =
      not (any_of (invalidate_line_blocks ext_in regs line))

  abbrev pub mshr_hazard : Regs → ℕ → Bool
  mshr_hazard regs slot =
      let entry = regs.mshr slot in
      entry.valid && (entry.is_write || entry.victim_dirty && not entry.victim_writeback_done)

  abbrev pub port_hazard : Regs → ℕ → Bool
  port_hazard regs m =
      let port = regs.write_port m in port.ctx.valid || (not (port.q_count == 0) || port.resp_valid)

  abbrev pub hazards : Regs → List Bool
  hazards regs =
      (not (regs.dirty_line_count == 0))
      ∷ (regs.victim_wb.valid)
      ∷ (any_below (mshr_hazard regs) (mshr_limit limits config regs))
      ∷ (any_below (port_hazard regs) num_write_masters)
      ∷ (regs.lookup_r.valid && regs.lookup_r.is_write)
      ∷ []

  unfoldable pub has_dirty_or_write_hazard : Regs → Bool
  has_dirty_or_write_hazard regs = any_of (hazards regs)

  unfoldable pub can_accept_invalidate_all_now : Regs → Bool
  unfolding has_dirty_or_write_hazard
  can_accept_invalidate_all_now regs = not (has_dirty_or_write_hazard regs)
