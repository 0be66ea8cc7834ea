-- ===== src/Bridge/Gate/Laws.antt =====
-- include/axi_dual_port_route_shape.h: the issue and response gates.
use axi_interconnect_kit.Bridge.Gate.{
  issue_gate, resp_mux_control, resp_accept_control, resp_route_control,
}
use axi_interconnect_kit.Prelude.{Bool, arith, false, if◌then◌else◌, not, ℕ, ◌&&◌, ◌==◌, ◌||◌, ◌≡◌}

-- Whatever the requests and hazards are, a handshake on the bridge's side is one on the AXI side, on
-- both channels; nothing issues under its own hazards; and a read and a write of one line never issue
-- in the same cycle.
pub issue_gate_safe :
    (arvalid arready ar_slot ar_write awvalid awready aw_slot aw_read : Bool) (ar_line aw_line : ℕ)
    → let g =
        issue_gate arvalid arready ar_line ar_slot ar_write awvalid awready aw_line aw_slot
          aw_read in
      (g.ar_fire ≡ arvalid && g.bridge_arready)
      × (g.aw_fire ≡ awvalid && g.bridge_awready)
      × ((g.ar_fire && (ar_slot || ar_write)) ≡ false)
      × ((g.aw_fire && (aw_slot || aw_read)) ≡ false)
      × ((g.ar_fire && (g.aw_fire && ar_line == aw_line)) ≡ false)
unfolding issue_gate
issue_gate_safe arvalid arready ar_slot ar_write awvalid awready aw_slot aw_read ar_line aw_line =
    ground arith

-- Two responses and one consumer: a port is acknowledged exactly when its response is the one
-- delivered and the consumer is ready, MMIO before DDR. No response is lost and none taken twice.
pub resp_mux_control_fair :
    (ddr_valid mmio_valid ready : Bool)
    → let c = resp_mux_control ddr_valid mmio_valid ready in
      ((c.resp_valid && ready)
        ≡ ((ddr_valid && c.ddr_resp_ready) || (mmio_valid && c.mmio_resp_ready)))
      × ((c.ddr_resp_ready && c.mmio_resp_ready) ≡ false)
      × ((mmio_valid && c.mmio_resp_ready) ≡ (mmio_valid && ready))
unfolding resp_mux_control
resp_mux_control_fair ddr_valid mmio_valid ready = ground arith

-- With the write match's space taken from the response route: a read completion or a write response
-- is pushed to exactly one of the cache and bypass queues, its own, and never to a full one.
pub resp_route_safe :
    (axi_rvalid rd_match axi_bvalid wr_match rd_found rd_cache cache_rd bypass_rd wr_cache cache_wr
      bypass_wr : Bool)
    → let space : Bool = if wr_cache then cache_wr else bypass_wr in
      let a = resp_accept_control axi_rvalid rd_match axi_bvalid wr_match space in
      let c =
        resp_route_control rd_found rd_cache cache_rd bypass_rd wr_cache cache_wr bypass_wr
          a.wr_resp_accept in
      (c.wr_match_rsp_space ≡ space)
      × ((c.cache_rd_rsp_push && not cache_rd) ≡ false)
      × ((c.bypass_rd_rsp_push && not bypass_rd) ≡ false)
      × ((c.cache_wr_rsp_push && not cache_wr) ≡ false)
      × ((c.bypass_wr_rsp_push && not bypass_wr) ≡ false)
      × ((c.cache_rd_rsp_push || c.bypass_rd_rsp_push) ≡ c.rd_complete_push)
      × ((c.cache_rd_rsp_push && c.bypass_rd_rsp_push) ≡ false)
      × ((c.cache_wr_rsp_push || c.bypass_wr_rsp_push) ≡ (axi_bvalid && a.axi_bready))
      × ((c.cache_wr_rsp_push && c.bypass_wr_rsp_push) ≡ false)
unfolding resp_accept_control resp_route_control
resp_route_safe axi_rvalid rd_match axi_bvalid wr_match rd_found rd_cache cache_rd bypass_rd
      wr_cache cache_wr bypass_wr =
    ground arith
