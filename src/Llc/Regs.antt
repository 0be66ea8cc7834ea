-- ===== src/Llc/Regs.antt =====
-- axi_interconnect/AXI_LLC.h: the registers of the cache. What belongs to one request, queue or
-- master is a record of its own, an array a function of the index.
use axi_interconnect_kit.Llc.Ports.{ExtIn, ExtOut, LookupIn, TableOut}
use axi_interconnect_kit.Prelude.{Bool, ℕ}

-- AXI_LLCState.
pub data LlcState : Type 0 where
  disabled : LlcState
  idle : LlcState
  lookup : LlcState
  miss : LlcState
  refill : LlcState

-- The counters, which wrap at 2^64.
pub record PerfCounters : Type 0 where
  pub read_access : ℕ
  pub read_hit : ℕ
  pub read_miss : ℕ
  pub read_access_by_master : ℕ → ℕ
  pub read_hit_by_master : ℕ → ℕ
  pub read_miss_by_master : ℕ → ℕ
  pub bypass_read : ℕ
  pub write_passthrough : ℕ
  pub refills : ℕ
  pub mshr_alloc : ℕ
  pub mshr_merge : ℕ
  pub prefetch_issue : ℕ
  pub prefetch_hit : ℕ
  pub prefetch_drop_inflight : ℕ
  pub prefetch_drop_mshr_full : ℕ
  pub prefetch_drop_queue_full : ℕ
  pub prefetch_drop_table_hit : ℕ
  pub ddr_read_total_cycles : ℕ
  pub ddr_read_samples : ℕ
  pub ddr_write_total_cycles : ℕ
  pub ddr_write_samples : ℕ
  pub lookup_active_cycles : ℕ
  pub read_resp_block_cycles : ℕ
  pub read_resp_pending_cycles : ℕ
  pub mem_read_wait_cycles : ℕ
  pub mem_read_block_cycles : ℕ
  pub victim_writeback_wait_cycles : ℕ
  pub write_lookup_wait_cycles : ℕ
  pub write_victim_wait_cycles : ℕ

pub record MissEntry : Type 0 where
  pub valid : Bool
  pub bypass : Bool
  pub is_prefetch : Bool
  pub is_write : Bool
  pub mode2_ddr_aligned : Bool
  pub prefetch_train : Bool
  pub mem_req_issued : Bool
  pub refill_valid : Bool
  pub refill_committed : Bool
  pub addr : ℕ
  pub line_addr : ℕ
  pub set_idx : ℕ
  pub tag : ℕ
  pub way : ℕ
  pub total_size : ℕ
  pub master : ℕ
  pub id : ℕ
  pub epoch : ℕ
  pub mem_issue_cycle : ℕ
  pub victim_dirty : Bool
  pub victim_writeback_done : Bool
  pub victim_addr : ℕ
  pub victim_data : ℕ → ℕ
  pub refill_data : ℕ → ℕ

pub record PrefetchReq : Type 0 where
  pub valid : Bool
  pub line_addr : ℕ

pub record WritePendingReq : Type 0 where
  pub valid : Bool
  pub bypass : Bool
  pub direct_mapped : Bool
  pub mode2_ddr_aligned : Bool
  pub master : ℕ
  pub id : ℕ
  pub total_size : ℕ
  pub addr : ℕ
  pub wdata : ℕ → ℕ
  pub wstrb : ℕ → Bool

pub record WriteCtx : Type 0 where
  pub valid : Bool
  pub bypass : Bool
  pub direct_mapped : Bool
  pub mode2_ddr_aligned : Bool
  pub lookup_pending : Bool
  pub mem_issued : Bool
  pub mem_done : Bool
  pub cache_done : Bool
  pub cache_pending : Bool
  pub victim_mem_done : Bool
  pub victim_dirty : Bool
  pub id : ℕ
  pub total_size : ℕ
  pub mem_resp_code : ℕ
  pub addr : ℕ
  pub line_addr : ℕ
  pub victim_addr : ℕ
  pub set_idx : ℕ
  pub way : ℕ
  pub repl_next_way : ℕ
  pub tag : ℕ
  pub mem_issue_cycle : ℕ
  pub wdata : ℕ → ℕ
  pub strobe : ℕ → Bool
  pub line : ℕ → ℕ

pub record ReadVictimWbReq : Type 0 where
  pub valid : Bool
  pub owner_slot : ℕ
  pub victim_addr : ℕ
  pub victim_data : ℕ → ℕ
  pub victim_strobe : ℕ → Bool

-- lookup_*_r.
pub record Lookup : Type 0 where
  pub valid : Bool
  pub issued : Bool
  pub addr : ℕ
  pub size : ℕ
  pub master : ℕ
  pub id : ℕ
  pub is_prefetch : Bool
  pub is_invalidate : Bool
  pub is_write : Bool
  pub is_bypass : Bool
  pub is_direct_mapped : Bool
  pub is_mode2_ddr_aligned : Bool

-- prefetch_*_r and prefetch_q.
pub record PrefetchRegs : Type 0 where
  pub stream_valid : Bool
  pub last_miss_line : ℕ
  pub quiet_cycles : ℕ
  pub q : ℕ → PrefetchReq

-- read_resp_*_r of one master: the slot that is offered and the ring behind it.
pub record ReadRespSlot : Type 0 where
  pub valid : Bool
  pub fresh : Bool
  pub payload : ℕ → ℕ
  pub id : ℕ
  pub q_head : ℕ
  pub q_tail : ℕ
  pub q_count : ℕ
  pub q_data : ℕ → ℕ → ℕ
  pub q_id : ℕ → ℕ

-- read_victim_wb_q and its indices.
pub record ReadVictimWbQueue : Type 0 where
  pub head : ℕ
  pub tail : ℕ
  pub count : ℕ
  pub q : ℕ → ReadVictimWbReq

-- write_ctx, write_q and write_resp_*_r of one master.
pub record WritePort : Type 0 where
  pub ctx : WriteCtx
  pub q_head : ℕ
  pub q_tail : ℕ
  pub q_count : ℕ
  pub q : ℕ → WritePendingReq
  pub resp_valid : Bool
  pub resp_id : ℕ
  pub resp_code : ℕ
  pub resp_line_addr : ℕ

-- victim_wb_*_r.
pub record VictimWb : Type 0 where
  pub valid : Bool
  pub issued : Bool
  pub for_write : Bool
  pub write_master : ℕ
  pub mshr_slot : ℕ
  pub addr : ℕ
  pub issue_cycle : ℕ
  pub words : ℕ → ℕ
  pub strobe : ℕ → Bool

pub record Regs : Type 0 where
  pub enable : Bool
  pub state : LlcState
  pub perf : PerfCounters
  pub lookup_r : Lookup
  pub prefetch_r : PrefetchRegs
  pub rr_read_master : ℕ
  pub rr_write_master : ℕ
  pub invalidate_epoch : ℕ
  pub dirty_line_count : ℕ
  pub read_resp : ℕ → ReadRespSlot
  pub read_victim_wb : ReadVictimWbQueue
  pub write_port : ℕ → WritePort
  pub victim_wb : VictimWb
  pub mshr : ℕ → MissEntry

-- AXI_LLC_IO_t: a cycle reads `regs` and writes `reg_write`.
pub record Io : Type 0 where
  pub ext_in : ExtIn
  pub regs : Regs
  pub lookup_in : LookupIn
  pub ext_out : ExtOut
  pub reg_write : Regs
  pub table_out : TableOut
