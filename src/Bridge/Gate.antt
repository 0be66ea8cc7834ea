-- ===== src/Bridge/Gate.antt =====
-- include/axi_dual_port_route_shape.h: which requests issue and which responses move in a cycle.
pub mod Laws
use axi_interconnect_kit.Prelude.{Bool, if◌then◌else◌, not, ℕ, ◌%◌, ◌&&◌, ◌+◌, ◌==◌, ◌||◌}

pub record IssueGateResult : Type 0 where
  pub bridge_arready : Bool
  pub axi_arvalid : Bool
  pub bridge_awready : Bool
  pub axi_awvalid : Bool
  pub ar_hazard : Bool
  pub ar_would_issue : Bool
  pub aw_same_cycle_read_hazard : Bool
  pub aw_hazard : Bool
  pub ar_fire : Bool
  pub aw_fire : Bool

pub record ReqSteerResult : Type 0 where
  pub ddr_req_valid : Bool
  pub mmio_req_valid : Bool
  pub req_ready : Bool

pub record RespMuxControl : Type 0 where
  pub ddr_resp_ready : Bool
  pub mmio_resp_ready : Bool
  pub resp_valid : Bool
  pub select_mmio : Bool

pub record RespAcceptControl : Type 0 where
  pub axi_rready : Bool
  pub rd_resp_accept : Bool
  pub axi_bready : Bool
  pub wr_resp_accept : Bool

pub record SourceRespMuxControl : Type 0 where
  pub resp_valid : Bool
  pub select_read : Bool
  pub rd_pop : Bool
  pub wr_pop : Bool

pub record RespRouteControl : Type 0 where
  pub rd_complete_rsp_space : Bool
  pub rd_complete_push : Bool
  pub cache_rd_rsp_push : Bool
  pub bypass_rd_rsp_push : Bool
  pub wr_match_rsp_space : Bool
  pub cache_wr_rsp_push : Bool
  pub bypass_wr_rsp_push : Bool

pub record ReadRespControl : Type 0 where
  pub rd_last_beat : Bool
  pub next_resp_code : ℕ

pub record SlotHazardResult : Type 0 where
  pub primary_slot_hazard : Bool
  pub secondary_slot_hazard : Bool

pub record HazardMatchResult : Type 0 where
  pub ddr_line_match : Bool
  pub mmio_line_match : Bool
  pub ddr_id_match : Bool
  pub mmio_id_match : Bool

unfoldable pub issue_gate :
    Bool → Bool → ℕ → Bool → Bool → Bool → Bool → ℕ → Bool → Bool → IssueGateResult
issue_gate bridge_arvalid axi_arready ar_line ar_slot_hazard ar_pending_write_hazard bridge_awvalid
      axi_awready aw_line aw_slot_hazard aw_pending_read_hazard =
    let ar_hazard = ar_slot_hazard || ar_pending_write_hazard in
    let ar_would_issue = bridge_arvalid && not ar_hazard in
    let same_cycle = ar_would_issue && ar_line == aw_line in
    let aw_hazard = aw_slot_hazard || (aw_pending_read_hazard || same_cycle) in
    let arvalid = bridge_arvalid && not ar_hazard in
    let awvalid = bridge_awvalid && not aw_hazard in
    record {
      bridge_arready = axi_arready && not ar_hazard;
      axi_arvalid = arvalid;
      bridge_awready = axi_awready && not aw_hazard;
      axi_awvalid = awvalid;
      ar_hazard = ar_hazard;
      ar_would_issue = ar_would_issue;
      aw_same_cycle_read_hazard = same_cycle;
      aw_hazard = aw_hazard;
      ar_fire = arvalid && axi_arready;
      aw_fire = awvalid && axi_awready;
    }

unfoldable pub req_steer : Bool → Bool → Bool → Bool → Bool → ReqSteerResult
req_steer req_valid req_to_ddr req_supported ddr_req_ready mmio_req_ready = record {
  ddr_req_valid = req_valid && req_to_ddr;
  mmio_req_valid = req_valid && (not req_to_ddr && req_supported);
  req_ready = if req_to_ddr then ddr_req_ready else req_supported && mmio_req_ready;
}

unfoldable pub resp_mux_control : Bool → Bool → Bool → RespMuxControl
resp_mux_control ddr_resp_valid mmio_resp_valid resp_ready = record {
  ddr_resp_ready = not mmio_resp_valid && resp_ready;
  mmio_resp_ready = mmio_resp_valid && resp_ready;
  resp_valid = if mmio_resp_valid then mmio_resp_valid else ddr_resp_valid;
  select_mmio = mmio_resp_valid;
}

unfoldable pub resp_accept_control : Bool → Bool → Bool → Bool → Bool → RespAcceptControl
resp_accept_control axi_rvalid rd_match_found axi_bvalid wr_match_found wr_match_rsp_space =
    record {
      axi_rready = rd_match_found;
      rd_resp_accept = axi_rvalid && rd_match_found;
      axi_bready = wr_match_found && wr_match_rsp_space;
      wr_resp_accept = axi_bvalid && (wr_match_found && wr_match_rsp_space);
    }

unfoldable pub source_resp_mux_control : Bool → Bool → Bool → SourceRespMuxControl
source_resp_mux_control rd_valid wr_valid resp_ready =
    let resp_valid = rd_valid || wr_valid in
    record {
      resp_valid = resp_valid;
      select_read = rd_valid;
      rd_pop = resp_valid && (resp_ready && rd_valid);
      wr_pop = resp_valid && (resp_ready && (not rd_valid && wr_valid));
    }

unfoldable pub resp_route_control :
    Bool → Bool → Bool → Bool → Bool → Bool → Bool → Bool → RespRouteControl
resp_route_control rd_complete_found rd_complete_from_cache cache_rd_rsp_space bypass_rd_rsp_space
      wr_match_from_cache cache_wr_rsp_space bypass_wr_rsp_space wr_resp_accept =
    let rd_space = if rd_complete_from_cache then cache_rd_rsp_space else bypass_rd_rsp_space in
    let rd_push = rd_complete_found && rd_space in
    record {
      rd_complete_rsp_space = rd_space;
      rd_complete_push = rd_push;
      cache_rd_rsp_push = rd_push && rd_complete_from_cache;
      bypass_rd_rsp_push = rd_push && not rd_complete_from_cache;
      wr_match_rsp_space = if wr_match_from_cache then cache_wr_rsp_space else bypass_wr_rsp_space;
      cache_wr_rsp_push = wr_resp_accept && wr_match_from_cache;
      bypass_wr_rsp_push = wr_resp_accept && not wr_match_from_cache;
    }

-- `x & 3u` is `x % 4`.
unfoldable pub read_resp_control : Bool → ℕ → ℕ → Bool → ℕ → ℕ → ReadRespControl
read_resp_control rd_match_found rd_beats_done rd_total_beats axi_rlast axi_rresp
      current_resp_code =
    record {
      rd_last_beat = rd_match_found && ((rd_beats_done + 1) % 256 == rd_total_beats || axi_rlast);
      next_resp_code = if axi_rresp % 4 == 0 then current_resp_code % 4 else axi_rresp % 4;
    }

unfoldable pub slot_hazard : Bool → Bool → Bool → SlotHazardResult
slot_hazard first_free_found second_free_found primary_fire = record {
  primary_slot_hazard = not first_free_found;
  secondary_slot_hazard = not first_free_found || (primary_fire && not second_free_found);
}

unfoldable pub hazard_match : Bool → Bool → ℕ → ℕ → ℕ → ℕ → ℕ → ℕ → HazardMatchResult
hazard_match entry_valid entry_port entry_line entry_id ddr_line mmio_line ddr_id mmio_id = record {
  ddr_line_match = entry_valid && (not entry_port && entry_line == ddr_line);
  mmio_line_match = entry_valid && (entry_port && entry_line == mmio_line);
  ddr_id_match = entry_valid && (not entry_port && entry_id == ddr_id);
  mmio_id_match = entry_valid && (entry_port && entry_id == mmio_id);
}
