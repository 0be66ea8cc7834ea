-- ===== src/Llc/Comb/Frame.antt =====
-- axi_interconnect/AXI_LLC.cpp: what the phases that take new requests leave of the miss registers and
-- of the queues of responses.
use axi_interconnect_kit.Prelude.{Option, arith, false, if_cases, none, refl, some, ℕ}
use axi_interconnect_kit.Llc.{Config, Limits}
use axi_interconnect_kit.Llc.Ports.{ExtIn}
use axi_interconnect_kit.Llc.Frame.{Frozen, IsPhase-Frozen, IsPhase-self, IsPhase-trans, IsPhase}
use axi_interconnect_kit.Llc.Regs.{Io, Regs}
use axi_interconnect_kit.Llc.Accept.{
  accept_invalidate, accept_maintenance_request, accept_new_requests, accept_picked,
  drive_lookup_request, issue_lookup, pick_new_read_master, set_line_accepted,
  try_launch_pending_write_lookup,
}
use axi_interconnect_kit.Llc.Comb.{background, invalidate_all, take_requests}
use axi_interconnect_kit.Llc.Prefetch.{
  launch_prefetch, pick_prefetch_queue_slot, try_launch_prefetch_lookup,
}
use axi_interconnect_kit.Llc.WritePath.Issue.Frame.{try_launch_pending_write_lookup-Frozen}

module _ (limits : Limits) (config : Config) where
  accept_new_requests-IsPhase :
      (io : Io) → IsPhase limits config io (accept_new_requests limits config io)
  unfolding accept_new_requests
  accept_new_requests-IsPhase io = picked (pick_new_read_master limits config io io.reg_write)
    where
      picked : (m : Option ℕ) → IsPhase limits config io (accept_picked limits config io m)
      picked none = IsPhase-self limits config io
      picked (some m) = IsPhase-Frozen limits config (ground arith) (ground arith)

  launch_prefetch-Frozen :
      (regs : Regs) (slot : Option ℕ) → Frozen regs (launch_prefetch limits config regs slot)
  launch_prefetch-Frozen regs none = (refl, refl)
  launch_prefetch-Frozen regs (some slot) = (refl, refl)

  try_launch_prefetch_lookup-Frozen :
      (ext_in : ExtIn) (regs : Regs)
      → Frozen regs (try_launch_prefetch_lookup limits config ext_in regs)
  unfolding try_launch_prefetch_lookup
  try_launch_prefetch_lookup-Frozen ext_in regs =
      ground (arith, launch_prefetch-Frozen regs (pick_prefetch_queue_slot limits config regs))

  accept_maintenance_request-IsPhase :
      (io : Io) → IsPhase limits config io (accept_maintenance_request limits config io)
  unfolding accept_maintenance_request
  accept_maintenance_request-IsPhase io =
      if_cases (IsPhase limits config io) _ (set_line_accepted limits config false io)
        (accept_invalidate limits config io) (λ e. IsPhase-Frozen limits config refl (refl, refl))
        (λ e. IsPhase-Frozen limits config refl (refl, refl))

  drive_lookup_request-IsPhase :
      (io : Io) → IsPhase limits config io (drive_lookup_request limits config io)
  unfolding drive_lookup_request
  drive_lookup_request-IsPhase io =
      if_cases (IsPhase limits config io) _ io (issue_lookup limits config io)
        (λ e. IsPhase-self limits config io) (λ e. IsPhase-Frozen limits config refl (refl, refl))

  background-IsPhase : (io : Io) → IsPhase limits config io (background limits config io)
  background-IsPhase io =
      let kept = accept_maintenance_request limits config io in
      let last : Io = record kept {
        reg_write = try_launch_prefetch_lookup limits config kept.ext_in kept.reg_write;
      } in
      let tried : IsPhase limits config kept last =
        IsPhase-Frozen limits config refl
          (try_launch_prefetch_lookup-Frozen kept.ext_in kept.reg_write) in
      if_cases (IsPhase limits config io) io.ext_in.mem.invalidate_all io last
        (λ e. IsPhase-self limits config io)
        (λ e. IsPhase-trans limits config (accept_maintenance_request-IsPhase io) tried)

  invalidate_all-IsPhase : (io : Io) → IsPhase limits config io (invalidate_all limits config io)
  unfolding invalidate_all
  invalidate_all-IsPhase io = IsPhase-Frozen limits config (ground arith) (ground arith)

  pub take_requests-IsPhase : (io : Io) → IsPhase limits config io (take_requests limits config io)
  unfolding take_requests
  take_requests-IsPhase io =
      let launched : Io = record io {
        reg_write = (try_launch_pending_write_lookup limits config io.reg_write).1;
      } in
      let h : IsPhase limits config io launched =
        IsPhase-Frozen limits config refl
          (try_launch_pending_write_lookup-Frozen limits config io.reg_write) in
      let accepted = accept_new_requests limits config launched in
      let kept = background limits config accepted in
      let driven = drive_lookup_request limits config kept in
      IsPhase-trans limits config h (
        IsPhase-trans limits config (accept_new_requests-IsPhase launched) (
          IsPhase-trans limits config (background-IsPhase accepted) (
            IsPhase-trans limits config (drive_lookup_request-IsPhase kept)
              (invalidate_all-IsPhase driven))))
