-- ===== src/SimDdr.antt =====
-- sim_ddr/SimDDR.{h,cpp}: the DDR model behind an AXI4 slave. An `int` index is an Option, -1 is
-- `none`; a deque, queue or vector is a list, front first. The trace prints are left out.
pub mod Memory
pub mod Reads
pub mod Writes
pub mod Seq
pub mod Laws
mod Tests
use axi_interconnect_kit.Prelude.Words.{u16, u32, bit, byte, put_byte}
use axi_interconnect_kit.Axi.{Io}
use axi_interconnect_kit.Prelude.{Bool, List, Option, [], false, none, ℕ}

-- The configured constants SIM_DDR_*.
pub record Config : Type 0 where
  pub beat_bytes : ℕ
  pub latency : ℕ
  pub write_resp_latency : ℕ
  pub max_outstanding : ℕ
  pub write_queue_depth : ℕ
  pub write_accept_gap : ℕ
  pub write_data_fifo_depth : ℕ
  pub write_drain_gap : ℕ
  pub write_drain_high_watermark : ℕ
  pub write_drain_low_watermark : ℕ
  pub read_to_write_turnaround : ℕ
  pub write_to_read_turnaround : ℕ

pub record WriteTransaction : Type 0 where
  pub addr : ℕ
  pub id : ℕ
  pub len : ℕ
  pub size : ℕ
  pub burst : ℕ
  pub beats_accepted : ℕ
  pub beats_drained : ℕ
  pub data_done : Bool

pub record WriteRespPending : Type 0 where
  pub id : ℕ
  pub addr : ℕ
  pub latency_cnt : ℕ

pub record WriteBeatPending : Type 0 where
  pub addr : ℕ
  pub beat : ℕ
  pub wstrb : ℕ

pub record ReadTransaction : Type 0 where
  pub addr : ℕ
  pub id : ℕ
  pub len : ℕ
  pub size : ℕ
  pub burst : ℕ
  pub beat_cnt : ℕ
  pub latency_cnt : ℕ
  pub in_data_phase : Bool
  pub complete : Bool

-- BackendServiceMode.
pub data ServiceMode : Type 0 where
  idle read write : ServiceMode

-- `w_current` and `w_active`, which only the debug print reads, follow from the queues and are left
-- out. `p_memory` is the word array behind the DDR, `none` for a null pointer.
pub record SimDdr : Type 0 where
  pub io : Io
  pub w_pending : List WriteTransaction
  pub w_data_fifo : List WriteBeatPending
  pub w_accept_cooldown : ℕ
  pub w_drain_cooldown : ℕ
  pub w_drain_mode : Bool
  pub w_resp_queue : List WriteRespPending
  pub r_transactions : List ReadTransaction
  pub r_rr_index : ℕ
  pub r_selected_idx : Option ℕ
  pub r_active_idx : Option ℕ
  pub backend_last_service_mode : ServiceMode
  pub backend_turnaround_cooldown : ℕ
  pub backend_read_grant : Bool
  pub backend_write_grant : Bool
  pub backend_switch_pending : Bool
  pub backend_any_request_pending : Bool
  pub backend_switch_target_mode : ServiceMode
  pub p_memory : Option (ℕ → ℕ)

unfoldable pub init : SimDdr → SimDdr
init s = record {
  io = record {
    aw = record (s.io.aw) { awready = false };
    w = record (s.io.w) { wready = false };
    b = record (s.io.b) { bvalid = false; bid = 0; bresp = 0 };
    ar = record (s.io.ar) { arready = false };
    r = record (s.io.r) { rvalid = false; rid = 0; rdata = 0; rresp = 0; rlast = false };
  };
  w_pending = [];
  w_data_fifo = [];
  w_accept_cooldown = 0;
  w_drain_cooldown = 0;
  w_drain_mode = false;
  w_resp_queue = [];
  r_transactions = [];
  r_rr_index = 0;
  r_selected_idx = none;
  r_active_idx = none;
  backend_last_service_mode = idle;
  backend_turnaround_cooldown = 0;
  backend_read_grant = false;
  backend_write_grant = false;
  backend_switch_pending = false;
  backend_any_request_pending = false;
  backend_switch_target_mode = idle;
  p_memory = s.p_memory;
}
