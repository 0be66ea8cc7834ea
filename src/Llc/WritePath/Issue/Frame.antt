-- ===== src/Llc/WritePath/Issue/Frame.antt =====
-- axi_interconnect/AXI_LLC.cpp: what the second half of drive_write_path leaves of the miss registers
-- and of the queues of responses.
use axi_interconnect_kit.Llc.Frame.{Frozen, IsPhase, IsPhase-Frozen, IsPhase-self, IsPhase-trans}
use axi_interconnect_kit.Prelude.{Option, if_cases, none, refl, some, ℕ, arith, suc, zero, ◌+◌, ◌∙◌}
use axi_interconnect_kit.Llc.{Config, Limits, num_write_masters}
use axi_interconnect_kit.Llc.Regs.{Io, Regs, WritePendingReq}
use axi_interconnect_kit.Llc.WritePath.Issue.{
  accept_write, arm_queued, issue_bypass, issue_victim, promote_at, promote_front, promote_writes,
  issue_writes,
}
use axi_interconnect_kit.Prelude.Search.{at_round}
use axi_interconnect_kit.Llc.Accept.{
  launch_write, pick_write_lookup_master, try_launch_pending_write_lookup,
  pick_bypass_write_issue_master, pick_new_write_master,
}
use axi_interconnect_kit.Prelude.Words.{u8}
use axi_interconnect_kit.Llc.Queues.{write_queue_front}

module _ (limits : Limits) (config : Config) where
  arm_queued-IsPhase : (io : Io) → IsPhase limits config io (arm_queued limits config io)
  unfolding arm_queued
  arm_queued-IsPhase io = IsPhase-Frozen limits config (ground arith) (ground arith)

  issue_victim-IsPhase :
      (cycle : ℕ) (io : Io) → IsPhase limits config io (issue_victim limits config cycle io)
  unfolding issue_victim
  issue_victim-IsPhase cycle io = IsPhase-Frozen limits config (ground arith) (ground arith)

  issue_bypass-IsPhase :
      (cycle : ℕ) (io : Io) (m : Option ℕ)
      → IsPhase limits config io (issue_bypass limits config cycle io m)
  issue_bypass-IsPhase cycle io none = IsPhase-self limits config io
  issue_bypass-IsPhase cycle io (some m) =
      IsPhase-Frozen limits config (ground arith) (ground arith)

  accept_write-IsPhase :
      (io : Io) (m : Option ℕ) → IsPhase limits config io (accept_write limits config io m)
  accept_write-IsPhase io none = IsPhase-self limits config io
  accept_write-IsPhase io (some m) = IsPhase-Frozen limits config (ground arith) (ground arith)

  promote_front-Frozen :
      (regs : Regs) (m : ℕ) (entry : Option WritePendingReq)
      → Frozen regs (promote_front limits config regs m entry)
  promote_front-Frozen regs m none = (refl, refl)
  promote_front-Frozen regs m (some entry) = ground arith

  promote_at-Frozen : (regs : Regs) (m : ℕ) → Frozen regs (promote_at limits config regs m)
  unfolding promote_at
  promote_at-Frozen regs m =
      ground (arith, promote_front-Frozen regs m (write_queue_front limits config regs (u8 m)))

  promote_writes-Frozen :
      (rr off n : ℕ) (regs : Regs) → Frozen regs (promote_writes limits config rr off n regs)
  unfolding promote_writes
  promote_writes-Frozen rr off zero regs = (refl, refl)
  promote_writes-Frozen rr off (suc n) regs =
      let one = promote_at limits config regs (at_round rr num_write_masters off) in
      let (p, q) = promote_at-Frozen regs (at_round rr num_write_masters off) in
      let (p', q') = promote_writes-Frozen rr (off + 1) n one in (p' ∙ p, q' ∙ q)

  launch_write-Frozen :
      (regs : Regs) (m : Option ℕ) → Frozen regs (launch_write limits config regs m).1
  launch_write-Frozen regs none = (refl, refl)
  launch_write-Frozen regs (some m) = (refl, refl)

  pub try_launch_pending_write_lookup-Frozen :
      (regs : Regs) → Frozen regs (try_launch_pending_write_lookup limits config regs).1
  unfolding try_launch_pending_write_lookup
  try_launch_pending_write_lookup-Frozen regs =
      ground (arith, launch_write-Frozen regs (pick_write_lookup_master limits config regs))

  pub issue_writes-IsPhase :
      (cycle : ℕ) (io : Io) → IsPhase limits config io (issue_writes limits config cycle io)
  unfolding issue_writes
  issue_writes-IsPhase cycle io =
      let armed = arm_queued limits config io in
      let h = arm_queued-IsPhase io in
      let m = pick_bypass_write_issue_master limits config io.regs in
      let bypassed = issue_bypass limits config cycle armed m in
      let n = pick_new_write_master limits config io io.regs in
      let accepted = accept_write limits config bypassed n in
      let regs =
        promote_writes limits config io.regs.rr_write_master 0 num_write_masters
          accepted.reg_write in
      let k = IsPhase-trans limits config h (
        IsPhase-trans limits config (issue_bypass-IsPhase cycle armed m)
          (accept_write-IsPhase bypassed n)) in
      let (p, q) =
        promote_writes-Frozen io.regs.rr_write_master 0 num_write_masters accepted.reg_write in
      let (p', q') = try_launch_pending_write_lookup-Frozen regs in
      let last : Io = record accepted {
        reg_write = (try_launch_pending_write_lookup limits config regs).1;
      } in
      let whole : IsPhase limits config io last =
        IsPhase-trans limits config k (IsPhase-Frozen limits config refl (p' ∙ p, q' ∙ q)) in
      if_cases (IsPhase limits config io) armed.reg_write.victim_wb.valid
        (issue_victim limits config cycle armed) last
        (λ e. IsPhase-trans limits config h (issue_victim-IsPhase cycle armed)) (λ e. whole)
