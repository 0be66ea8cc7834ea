-- ===== src/Interconnect/State.antt =====
-- axi_interconnect/include/AXI_Interconnect.h: the registers of the interconnect and the ports of its
-- masters. What belongs to one master or to one port is a function of it, a vector or a deque is a
-- list. Wide data are functions of the word, strobes of the byte.
use axi_interconnect_kit.Axi
use axi_interconnect_kit.Interconnect.{DownstreamPort}
use axi_interconnect_kit.Llc.{Config}
use axi_interconnect_kit.Prelude.{Bool, List, Option, ℕ}
use axi_interconnect_kit.Llc.Regs.{Io}

pub record ArLatch : Type 0 where
  pub valid : Bool
  pub accepted_upstream : Bool
  pub to_llc : Bool
  pub resp_extract_from_aligned_beat : Bool
  pub port : DownstreamPort
  pub addr : ℕ
  pub upstream_addr : ℕ
  pub len : ℕ
  pub size : ℕ
  pub burst : ℕ
  pub id : ℕ
  pub master_id : ℕ
  pub orig_id : ℕ
  pub upstream_total_size : ℕ

pub record AwLatch : Type 0 where
  pub valid : Bool
  pub port : DownstreamPort
  pub addr : ℕ
  pub len : ℕ
  pub size : ℕ
  pub burst : ℕ
  pub id : ℕ

pub record ArIssueMeta : Type 0 where
  pub valid : Bool
  pub from_llc : Bool
  pub resp_extract_from_aligned_beat : Bool
  pub llc_mem_id : ℕ
  pub upstream_addr : ℕ
  pub upstream_total_size : ℕ
  pub master_id : Option ℕ
  pub orig_id : ℕ

pub record ReadPendingTxn : Type 0 where
  pub axi_id : ℕ
  pub master_id : ℕ
  pub orig_id : ℕ
  pub total_beats : ℕ
  pub beats_done : ℕ
  pub port : DownstreamPort
  pub addr : ℕ
  pub upstream_addr : ℕ
  pub upstream_total_size : ℕ
  pub resp_extract_from_aligned_beat : Bool
  pub to_llc : Bool
  pub words : ℕ → ℕ
  pub stall_cycles : ℕ
  pub last_beats_done : ℕ
  pub timeout_warned : Bool
  pub completion_queued : Bool
  pub completion_seq : ℕ

pub record LlcUpstreamReqLatch : Type 0 where
  pub valid : Bool
  pub addr : ℕ
  pub total_size : ℕ
  pub id : ℕ
  pub bypass : Bool
  pub direct_mapped : Bool
  pub mode2_ddr_aligned : Bool

pub record ReadReqHoldLatch : Type 0 where
  pub valid : Bool
  pub addr : ℕ
  pub total_size : ℕ
  pub id : ℕ
  pub bypass : Bool

pub record LlcUpstreamWriteReqLatch : Type 0 where
  pub valid : Bool
  pub addr : ℕ
  pub total_size : ℕ
  pub id : ℕ
  pub wdata : ℕ → ℕ
  pub wstrb : ℕ → Bool
  pub bypass : Bool
  pub direct_mapped : Bool
  pub mode2_ddr_aligned : Bool

pub record LlcCoreReqStage : Type 0 where
  pub valid : Bool
  pub is_write : Bool
  pub master : ℕ
  pub read : LlcUpstreamReqLatch
  pub write : LlcUpstreamWriteReqLatch

pub record WritePendingTxn : Type 0 where
  pub axi_id : ℕ
  pub master_id : ℕ
  pub orig_id : ℕ
  pub port : DownstreamPort
  pub addr : ℕ
  pub wdata : ℕ → ℕ
  pub wstrb : ℕ → Bool
  pub total_beats : ℕ
  pub beats_sent : ℕ
  pub aw_done : Bool
  pub w_done : Bool
  pub to_llc_mem : Bool
  pub llc_victim_write : Bool

pub record WriteRespEntry : Type 0 where
  pub id : ℕ
  pub resp : ℕ
  pub line_valid : Bool
  pub line_addr : ℕ

pub record DelayedWriteRespEntry : Type 0 where
  pub entry : WriteRespEntry
  pub age : ℕ

-- ReadMasterReq_t.
pub record ReadMasterReq : Type 0 where
  pub valid : Bool
  pub ready : Bool
  pub accepted : Bool
  pub accepted_id : ℕ
  pub addr : ℕ
  pub total_size : ℕ
  pub id : ℕ
  pub bypass : Bool

-- WriteMasterReq_t.
pub record WriteMasterReq : Type 0 where
  pub valid : Bool
  pub ready : Bool
  pub accepted : Bool
  pub addr : ℕ
  pub wdata : ℕ → ℕ
  pub wstrb : ℕ → Bool
  pub total_size : ℕ
  pub id : ℕ
  pub bypass : Bool

-- WriteMasterResp_t.
pub record WriteMasterResp : Type 0 where
  pub valid : Bool
  pub ready : Bool
  pub id : ℕ
  pub resp : ℕ

-- w_resp_* of one master: the response that is offered and those that wait behind it.
pub record WriteRespBuffer : Type 0 where
  pub w_resp_valid : Bool
  pub w_resp_id : ℕ
  pub w_resp_resp : ℕ
  pub w_resp_queue : List WriteRespEntry

-- The control inputs and the active configuration.
pub record Control : Type 0 where
  pub mode : ℕ
  pub llc_mapped_offset : ℕ
  pub active_mode : ℕ
  pub active_offset : ℕ
  pub llc_mapped_offset_override : Bool
  pub reconfig_pending : Bool
  pub reconfig_target_mode : ℕ
  pub reconfig_target_offset : ℕ

-- AXI_Interconnect, of whose registers those that the modelled operations read or write.
pub record State : Type 0 where
  pub read_req : ℕ → ReadMasterReq
  pub write_req : ℕ → WriteMasterReq
  pub write_resp : ℕ → WriteMasterResp
  pub downstream : DownstreamPort → Axi.Io
  pub write_req_accepted : ℕ → Bool
  pub req_ready_r : ℕ → Bool
  pub w_req_ready_r : ℕ → Bool
  pub ar_latch : DownstreamPort → ArLatch
  pub ar_issue : DownstreamPort → ArIssueMeta
  pub r_pending : List ReadPendingTxn
  pub w_active : DownstreamPort → Bool
  pub w_current : DownstreamPort → WritePendingTxn
  pub w_current_master : DownstreamPort → Option ℕ
  pub w_pending : List WritePendingTxn
  pub resp_buffer : ℕ → WriteRespBuffer
  pub llc_write_resp_delay : ℕ → List DelayedWriteRespEntry
  pub aw_latch : DownstreamPort → AwLatch
  pub llc_config : Config
  pub llc : Io
  pub llc_invalidate_all_req : Bool
  pub read_req_hold : ℕ → ReadReqHoldLatch
  pub llc_upstream_req : ℕ → LlcUpstreamReqLatch
  pub llc_upstream_write_req : ℕ → LlcUpstreamWriteReqLatch
  pub llc_upstream_write_q : ℕ → List LlcUpstreamWriteReqLatch
  pub llc_core_req_stage : LlcCoreReqStage
  pub llc_read_resp_valid : ℕ → Bool
  pub llc_read_resp_id : ℕ → ℕ
  pub llc_mem_write_resp_valid : Bool
  pub llc_mem_ignored_b_count : ℕ
  pub control : Control
