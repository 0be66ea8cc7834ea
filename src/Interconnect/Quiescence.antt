-- ===== src/Interconnect/Quiescence.antt =====
-- axi_interconnect/AXI_Interconnect.cpp: when nothing is under way, so that the configuration may
-- change and the cache may be invalidated.
use axi_interconnect_kit.Interconnect.State.{State}
use axi_interconnect_kit.Interconnect.Modes.{llc_enabled, requested_config_differs_from_active}
use axi_interconnect_kit.Interconnect.Ids.{any_ar_latched, any_aw_latched, any_w_active}
use axi_interconnect_kit.Interconnect.Writes.{is_empty}
use axi_interconnect_kit.Llc.{Limits, num_read_masters, num_write_masters}
use axi_interconnect_kit.Llc.Bytes.{min}
use axi_interconnect_kit.Prelude.Search.{any_below}
use axi_interconnect_kit.Prelude.{
  Bool, [], any_of, if◌then◌else◌, not, true, ℕ, ◌&&◌, ◌==◌, ◌||◌, ◌∷◌,
}

module _ (limits : Limits) where
  -- The transactions towards memory that are under way.
  abbrev pub ports_busy : State → Bool
  ports_busy s = any_of (
      any_ar_latched s
      ∷ not (is_empty s.r_pending)
      ∷ any_aw_latched s
      ∷ any_w_active s
      ∷ not (is_empty s.w_pending)
      ∷ [])

  -- A master is about to be served.
  abbrev pub reader_ready : State → ℕ → Bool
  reader_ready s m = s.req_ready_r m || (s.read_req_hold m).valid

  abbrev pub writer_ready : State → ℕ → Bool
  writer_ready s m = s.w_req_ready_r m || (s.write_req m).ready

  unfoldable pub non_llc_path_quiescent : State → Bool
  unfolding any_ar_latched any_aw_latched any_w_active is_empty
  non_llc_path_quiescent s =
      not (ports_busy s)
      && (not (any_below (reader_ready s) num_read_masters)
          && not (any_below (writer_ready s) num_write_masters))

  unfoldable pub llc_path_busy : State → Bool
  unfolding any_ar_latched any_aw_latched any_w_active is_empty
  llc_path_busy s =
      let regs = s.llc.regs in
      let mem = s.llc.ext_out.mem in
      any_of (
        ports_busy s
        ∷ s.llc_mem_write_resp_valid
        ∷ not (s.llc_mem_ignored_b_count == 0)
        ∷ any_below (reader_ready s) num_read_masters
        ∷ any_below s.llc_read_resp_valid num_read_masters
        ∷ any_below
            (λ m.
              let buf = s.resp_buffer m in
              writer_ready s m || (buf.w_resp_valid || not (is_empty buf.w_resp_queue)))
            num_write_masters
        ∷ s.llc_core_req_stage.valid
        ∷ any_below
            (λ m.
              let slot = regs.read_resp m in
              (s.llc_upstream_req m).valid || (slot.valid || not (slot.q_count == 0)))
            num_read_masters
        ∷ any_below
            (λ m.
              let port = regs.write_port m in
              (s.llc_upstream_write_req m).valid
              || (not (is_empty (s.llc_upstream_write_q m))
                  || (port.ctx.valid || (not (port.q_count == 0) || port.resp_valid))))
            num_write_masters
        ∷ regs.lookup_r.valid
        ∷ regs.victim_wb.valid
        ∷ not (regs.read_victim_wb.count == 0)
        ∷ mem.read_req_valid
        ∷ mem.write_req_valid
        ∷ any_below (λ i. (regs.mshr i).valid) (min s.llc_config.mshr_num limits.max_outstanding)
        ∷ [])

  unfoldable pub llc_path_quiescent : State → Bool
  unfolding llc_enabled llc_path_busy
  llc_path_quiescent s = if not (llc_enabled s) then true else not (llc_path_busy s)

  unfoldable pub reconfig_path_quiescent : State → Bool
  unfolding llc_path_quiescent non_llc_path_quiescent llc_enabled
  reconfig_path_quiescent s =
      if llc_enabled s then llc_path_quiescent s else non_llc_path_quiescent s

  unfoldable pub mode_transition_invalidate_requested : State → Bool
  unfolding reconfig_path_quiescent
  mode_transition_invalidate_requested s =
      s.control.reconfig_pending
      && (requested_config_differs_from_active s.control && reconfig_path_quiescent s)

  unfoldable pub invalidate_all_requested : State → Bool
  unfolding mode_transition_invalidate_requested
  invalidate_all_requested s = s.llc_invalidate_all_req || mode_transition_invalidate_requested s
