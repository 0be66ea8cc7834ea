-- ===== src/Llc/Ports.antt =====
-- axi_interconnect/AXI_LLC.h: the ports of the cache. A port array is a function of the master.
use axi_interconnect_kit.Prelude.{Bool, List, [], false, ℕ}

pub record ReadReq : Type 0 where
  pub valid : Bool
  pub addr : ℕ
  pub total_size : ℕ
  pub id : ℕ
  pub bypass : Bool
  pub direct_mapped : Bool
  pub mode2_ddr_aligned : Bool

pub record ReadResp : Type 0 where
  pub valid : Bool
  pub payload : ℕ → ℕ
  pub id : ℕ

pub record WriteReq : Type 0 where
  pub valid : Bool
  pub addr : ℕ
  pub wdata : ℕ → ℕ
  pub wstrb : ℕ → Bool
  pub total_size : ℕ
  pub id : ℕ
  pub bypass : Bool
  pub direct_mapped : Bool
  pub mode2_ddr_aligned : Bool

pub record WriteResp : Type 0 where
  pub valid : Bool
  pub id : ℕ
  pub resp : ℕ

pub record UpstreamIn : Type 0 where
  pub read_req : ℕ → ReadReq
  pub read_resp_ready : ℕ → Bool
  pub write_req : ℕ → WriteReq
  pub write_resp_ready : ℕ → Bool

pub record UpstreamOut : Type 0 where
  pub read_req_ready : ℕ → Bool
  pub read_resp : ℕ → ReadResp
  pub write_req_ready : ℕ → Bool
  pub write_resp : ℕ → WriteResp

pub record MemIn : Type 0 where
  pub invalidate_all : Bool
  pub invalidate_line_valid : Bool
  pub invalidate_line_addr : ℕ
  pub prefetch_allow : Bool
  pub read_req_ready : Bool
  pub read_resp_valid : Bool
  pub read_resp_data : ℕ → ℕ
  pub read_resp_id : ℕ
  pub write_req_ready : Bool
  pub write_resp_valid : Bool
  pub write_resp_id : ℕ
  pub write_resp : ℕ

pub record MemOut : Type 0 where
  pub invalidate_all_accepted : Bool
  pub invalidate_line_accepted : Bool
  pub read_req_valid : Bool
  pub read_req_addr : ℕ
  pub read_req_size : ℕ
  pub read_req_mode2_ddr_aligned : Bool
  pub read_req_id : ℕ
  pub read_resp_ready : Bool
  pub write_req_valid : Bool
  pub write_req_addr : ℕ
  pub write_req_data : ℕ → ℕ
  pub write_req_strobe : ℕ → Bool
  pub write_req_size : ℕ
  pub write_req_mode2_ddr_aligned : Bool
  pub write_req_id : ℕ
  pub write_resp_ready : Bool

pub record ExtIn : Type 0 where
  pub upstream : UpstreamIn
  pub mem : MemIn

pub record ExtOut : Type 0 where
  pub upstream : UpstreamOut
  pub mem : MemOut

pub record LookupIn : Type 0 where
  pub data_valid : Bool
  pub meta_valid : Bool
  pub valid_valid : Bool
  pub repl_valid : Bool
  pub data_row : List ℕ
  pub meta_row : List ℕ
  pub valid_row : List ℕ
  pub repl_row : List ℕ

pub record TableReq : Type 0 where
  pub enable : Bool
  pub write : Bool
  pub index : ℕ
  pub way : ℕ
  pub payload : List ℕ
  pub byte_enable : List ℕ

pub record TableOut : Type 0 where
  pub data_req : TableReq
  pub meta_req : TableReq
  pub valid_req : TableReq
  pub repl_req : TableReq
  pub invalidate_all : Bool

abbrev pub no_words : ℕ → ℕ
no_words i = 0

abbrev pub no_strobe : ℕ → Bool
no_strobe i = false

abbrev pub no_read_resp : ReadResp
no_read_resp = record { valid = false; payload = no_words; id = 0 }

abbrev pub no_write_resp : WriteResp
no_write_resp = record { valid = false; id = 0; resp = 0 }

abbrev pub no_mem_out : MemOut
no_mem_out = record {
  invalidate_all_accepted = false;
  invalidate_line_accepted = false;
  read_req_valid = false;
  read_req_addr = 0;
  read_req_size = 0;
  read_req_mode2_ddr_aligned = false;
  read_req_id = 0;
  read_resp_ready = false;
  write_req_valid = false;
  write_req_addr = 0;
  write_req_data = no_words;
  write_req_strobe = no_strobe;
  write_req_size = 0;
  write_req_mode2_ddr_aligned = false;
  write_req_id = 0;
  write_resp_ready = false;
}

abbrev pub no_ext_out : ExtOut
no_ext_out = record {
  upstream = record {
    read_req_ready = no_strobe;
    read_resp = λ m. no_read_resp;
    write_req_ready = no_strobe;
    write_resp = λ m. no_write_resp;
  };
  mem = no_mem_out;
}

abbrev pub no_table_req : TableReq
no_table_req = record {
  enable = false;
  write = false;
  index = 0;
  way = 0;
  payload = [];
  byte_enable = [];
}

abbrev pub no_table_out : TableOut
no_table_out = record {
  data_req = no_table_req;
  meta_req = no_table_req;
  valid_req = no_table_req;
  repl_req = no_table_req;
  invalidate_all = false;
}
