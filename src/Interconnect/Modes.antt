-- ===== src/Interconnect/Modes.antt =====
-- axi_interconnect/AXI_Interconnect.cpp: the modes of the cache, the window of memory that is mapped
-- onto it in mode 2, and the port of a request.
pub mod Laws
use axi_interconnect_kit.Bridge.Route.{route_support}
use axi_interconnect_kit.Interconnect.{
  Build, DownstreamPort, ddr, default_mapped_llc_offset, mapped_llc_window_bytes, mmio, same_port,
}
use axi_interconnect_kit.Interconnect.State.{Control, State}
use axi_interconnect_kit.Llc.{is_valid}
use axi_interconnect_kit.Prelude.Words.{u32, sub32}
use axi_interconnect_kit.Prelude.{
  Bool, false, if◌then◌else◌, leb, not, true, ℕ, ◌%◌, ◌&&◌, ◌+◌, ◌-◌, ◌==◌, ◌||◌,
}

unfoldable pub llc_enabled : State → Bool
llc_enabled s = not (s.control.active_mode == 0) && (s.llc_config.enable && is_valid s.llc_config)

-- `x & 3` is `x % 4`.
unfoldable pub requested_mode : Control → ℕ
requested_mode c = if c.mode % 4 == 3 then 0 else c.mode % 4

unfoldable pub requested_llc_mapped_offset : Control → ℕ
requested_llc_mapped_offset c =
    if not c.llc_mapped_offset_override && c.llc_mapped_offset == 0
    then default_mapped_llc_offset
    else c.llc_mapped_offset

unfoldable pub requested_config_differs_from_active : Control → Bool
unfolding requested_mode requested_llc_mapped_offset
requested_config_differs_from_active c =
    not (requested_mode c == c.active_mode)
    || requested_mode c == 2 && not (requested_llc_mapped_offset c == c.active_offset)

unfoldable pub mode_transition_needs_flush : Control → Bool
unfolding requested_config_differs_from_active
mode_transition_needs_flush c = c.reconfig_pending || requested_config_differs_from_active c

-- The sums are of 64 bits, which operands of 32 bits do not reach.
unfoldable pub request_in_mapped_window : Control → ℕ → ℕ → Bool
request_in_mapped_window c addr total_size =
    if not (c.active_mode == 2)
    then false
    else leb c.active_offset addr
      && leb (addr + total_size + 1) (c.active_offset + mapped_llc_window_bytes)

unfoldable pub request_uses_direct_mapped_llc : Control → ℕ → ℕ → Bool
unfolding request_in_mapped_window
request_uses_direct_mapped_llc c addr total_size =
    c.active_mode == 2 && request_in_mapped_window c addr total_size

module _ (build : Build) where
  unfoldable pub classify_downstream_port : ℕ → ℕ → DownstreamPort
  unfolding route_support
  classify_downstream_port addr total_size =
      if (route_support addr total_size build.ddr_address_base).ddr_port then ddr else mmio

  unfoldable pub request_uses_ddr_port : Control → ℕ → ℕ → Bool
  unfolding request_uses_direct_mapped_llc classify_downstream_port
  request_uses_ddr_port c addr total_size =
      if request_uses_direct_mapped_llc c addr total_size
      then false
      else same_port (classify_downstream_port addr total_size) ddr

  unfoldable pub request_uses_mmio_port : Control → ℕ → ℕ → Bool
  unfolding request_uses_direct_mapped_llc classify_downstream_port
  request_uses_mmio_port c addr total_size =
      if request_uses_direct_mapped_llc c addr total_size
      then false
      else same_port (classify_downstream_port addr total_size) mmio

  unfoldable pub effective_llc_bypass : Control → ℕ → ℕ → Bool → Bool
  unfolding request_uses_mmio_port request_in_mapped_window
  effective_llc_bypass c addr total_size upstream_bypass =
      if request_uses_mmio_port c addr total_size
      then true
      else if c.active_mode == 2
      then not (request_in_mapped_window c addr total_size)
      else if c.active_mode == 0
      then true
      else if c.active_mode == 1
      then upstream_bypass
      else true

-- The difference of 64 bits, cut to 32.
unfoldable pub translate_llc_addr : Control → ℕ → ℕ → ℕ
unfolding request_uses_direct_mapped_llc
translate_llc_addr c addr total_size =
    if not (request_uses_direct_mapped_llc c addr total_size)
    then addr
    else sub32 addr c.active_offset

-- The end of `seq`: a request for another configuration waits, or is dropped when it is withdrawn.
unfoldable pub request_reconfig : Control → Control
unfolding requested_config_differs_from_active
request_reconfig c =
    if requested_config_differs_from_active c
    then record c {
      reconfig_pending = true;
      reconfig_target_mode = requested_mode c;
      reconfig_target_offset = requested_llc_mapped_offset c;
    }
    else if c.reconfig_pending
    then record c {
      reconfig_pending = false;
      reconfig_target_mode = c.active_mode;
      reconfig_target_offset = c.active_offset;
    }
    else c

-- It becomes active when the cache has taken the invalidation of all its lines.
unfoldable pub apply_reconfig : Bool → Control → Control
apply_reconfig invalidate_all_accepted c =
    if c.reconfig_pending && invalidate_all_accepted
    then record c {
      active_mode = c.reconfig_target_mode;
      active_offset = c.reconfig_target_offset;
      reconfig_pending = false;
    }
    else c

unfoldable pub step_reconfig : Bool → Control → Control
unfolding request_reconfig apply_reconfig
step_reconfig invalidate_all_accepted c =
    apply_reconfig invalidate_all_accepted (request_reconfig c)
