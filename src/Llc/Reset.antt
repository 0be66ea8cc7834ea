-- ===== src/Llc/Reset.antt =====
-- axi_interconnect/AXI_LLC.{h,cpp}: the initial values of the fields, `reset`, `set_config`, the
-- outputs of a disabled cache and the clock edge.
use axi_interconnect_kit.Prelude.{[], false, if◌then◌else◌, ltb, true}
use axi_interconnect_kit.Llc.{Config, num_read_masters, num_write_masters}
use axi_interconnect_kit.Llc.Ports.{
  ExtIn, LookupIn, MemIn, ReadReq, UpstreamIn, WriteReq, no_ext_out, no_mem_out, no_read_resp,
  no_strobe, no_table_out, no_words, no_write_resp,
}
use axi_interconnect_kit.Llc.Regs.{
  Io, Lookup, PerfCounters, PrefetchRegs, PrefetchReq, ReadRespSlot, ReadVictimWbQueue,
  ReadVictimWbReq, Regs, VictimWb, WriteCtx, WritePendingReq, WritePort, disabled, idle,
}
use axi_interconnect_kit.Llc.Refill.Commit.{invalid_victim_mshr_slot}
use axi_interconnect_kit.Llc.Refill.{no_miss}

abbrev pub no_perf : PerfCounters
no_perf = record {
  read_access = 0;
  read_hit = 0;
  read_miss = 0;
  read_access_by_master = no_words;
  read_hit_by_master = no_words;
  read_miss_by_master = no_words;
  bypass_read = 0;
  write_passthrough = 0;
  refills = 0;
  mshr_alloc = 0;
  mshr_merge = 0;
  prefetch_issue = 0;
  prefetch_hit = 0;
  prefetch_drop_inflight = 0;
  prefetch_drop_mshr_full = 0;
  prefetch_drop_queue_full = 0;
  prefetch_drop_table_hit = 0;
  ddr_read_total_cycles = 0;
  ddr_read_samples = 0;
  ddr_write_total_cycles = 0;
  ddr_write_samples = 0;
  lookup_active_cycles = 0;
  read_resp_block_cycles = 0;
  read_resp_pending_cycles = 0;
  mem_read_wait_cycles = 0;
  mem_read_block_cycles = 0;
  victim_writeback_wait_cycles = 0;
  write_lookup_wait_cycles = 0;
  write_victim_wait_cycles = 0;
}

abbrev pub no_lookup : Lookup
no_lookup = record {
  valid = false;
  issued = false;
  addr = 0;
  size = 0;
  master = 0;
  id = 0;
  is_prefetch = false;
  is_invalidate = false;
  is_write = false;
  is_bypass = false;
  is_direct_mapped = false;
  is_mode2_ddr_aligned = false;
}

abbrev pub no_prefetch : PrefetchReq
no_prefetch = record { valid = false; line_addr = 0 }

abbrev pub no_prefetches : PrefetchRegs
no_prefetches = record {
  stream_valid = false;
  last_miss_line = 0;
  quiet_cycles = 0;
  q = λ i. no_prefetch;
}

abbrev pub no_response : ReadRespSlot
no_response = record {
  valid = false;
  fresh = false;
  payload = no_words;
  id = 0;
  q_head = 0;
  q_tail = 0;
  q_count = 0;
  q_data = λ i. no_words;
  q_id = no_words;
}

abbrev pub no_victim : ReadVictimWbReq
no_victim = record {
  valid = false;
  owner_slot = invalid_victim_mshr_slot;
  victim_addr = 0;
  victim_data = no_words;
  victim_strobe = no_strobe;
}

abbrev pub no_victims : ReadVictimWbQueue
no_victims = record { head = 0; tail = 0; count = 0; q = λ i. no_victim }

abbrev pub no_ctx : WriteCtx
no_ctx = record {
  valid = false;
  bypass = false;
  direct_mapped = false;
  mode2_ddr_aligned = false;
  lookup_pending = false;
  mem_issued = false;
  mem_done = false;
  cache_done = false;
  cache_pending = false;
  victim_mem_done = false;
  victim_dirty = false;
  id = 0;
  total_size = 0;
  mem_resp_code = 0;
  addr = 0;
  line_addr = 0;
  victim_addr = 0;
  set_idx = 0;
  way = 0;
  repl_next_way = 0;
  tag = 0;
  mem_issue_cycle = 0;
  wdata = no_words;
  strobe = no_strobe;
  line = no_words;
}

abbrev pub no_pending : WritePendingReq
no_pending = record {
  valid = false;
  bypass = false;
  direct_mapped = false;
  mode2_ddr_aligned = false;
  master = 0;
  id = 0;
  total_size = 0;
  addr = 0;
  wdata = no_words;
  wstrb = no_strobe;
}

abbrev pub no_port : WritePort
no_port = record {
  ctx = no_ctx;
  q_head = 0;
  q_tail = 0;
  q_count = 0;
  q = λ i. no_pending;
  resp_valid = false;
  resp_id = 0;
  resp_code = 0;
  resp_line_addr = 0;
}

abbrev pub no_victim_wb : VictimWb
no_victim_wb = record {
  valid = false;
  issued = false;
  for_write = false;
  write_master = 0;
  mshr_slot = 0;
  addr = 0;
  issue_cycle = 0;
  words = no_words;
  strobe = no_strobe;
}

abbrev pub no_regs : Regs
no_regs = record {
  enable = false;
  state = disabled;
  perf = no_perf;
  lookup_r = no_lookup;
  prefetch_r = no_prefetches;
  rr_read_master = 0;
  rr_write_master = 0;
  invalidate_epoch = 0;
  dirty_line_count = 0;
  read_resp = λ i. no_response;
  read_victim_wb = no_victims;
  write_port = λ i. no_port;
  victim_wb = no_victim_wb;
  mshr = λ i. no_miss;
}

abbrev pub no_read_req : ReadReq
no_read_req = record {
  valid = false;
  addr = 0;
  total_size = 0;
  id = 0;
  bypass = false;
  direct_mapped = false;
  mode2_ddr_aligned = false;
}

abbrev pub no_write_req : WriteReq
no_write_req = record {
  valid = false;
  addr = 0;
  wdata = no_words;
  wstrb = no_strobe;
  total_size = 0;
  id = 0;
  bypass = false;
  direct_mapped = false;
  mode2_ddr_aligned = false;
}

abbrev pub no_upstream_in : UpstreamIn
no_upstream_in = record {
  read_req = λ m. no_read_req;
  read_resp_ready = no_strobe;
  write_req = λ m. no_write_req;
  write_resp_ready = no_strobe;
}

abbrev pub no_mem_in : MemIn
no_mem_in = record {
  invalidate_all = false;
  invalidate_line_valid = false;
  invalidate_line_addr = 0;
  prefetch_allow = true;
  read_req_ready = false;
  read_resp_valid = false;
  read_resp_data = no_words;
  read_resp_id = 0;
  write_req_ready = false;
  write_resp_valid = false;
  write_resp_id = 0;
  write_resp = 0;
}

abbrev pub no_ext_in : ExtIn
no_ext_in = record { upstream = no_upstream_in; mem = no_mem_in }

abbrev pub no_lookup_in : LookupIn
no_lookup_in = record {
  data_valid = false;
  meta_valid = false;
  valid_valid = false;
  repl_valid = false;
  data_row = [];
  meta_row = [];
  valid_row = [];
  repl_row = [];
}

abbrev pub no_io : Io
no_io = record {
  ext_in = no_ext_in;
  regs = no_regs;
  lookup_in = no_lookup_in;
  ext_out = no_ext_out;
  reg_write = no_regs;
  table_out = no_table_out;
}

abbrev pub start_regs : Config → Regs → Regs
start_regs config regs = record regs {
  enable = config.enable;
  state = if config.enable then idle else disabled;
}

unfoldable pub set_config : Config → Io → Io
set_config config io = record io { regs = start_regs config io.regs }

unfoldable pub reset : Config → Io
reset config = record no_io { regs = start_regs config no_regs }

unfoldable pub comb_disabled : Io → Io
comb_disabled io =
    let upstream = io.ext_out.upstream in
    record io {
      ext_out = record {
        upstream = record {
          read_req_ready = λ m. if ltb m num_read_masters then false else upstream.read_req_ready m;
          read_resp = λ m. if ltb m num_read_masters then no_read_resp else upstream.read_resp m;
          write_req_ready =
              λ m. if ltb m num_write_masters then false else upstream.write_req_ready m;
          write_resp =
              λ m. if ltb m num_write_masters then no_write_resp else upstream.write_resp m;
        };
        mem = no_mem_out;
      };
    }

unfoldable pub seq : Io → Io
seq io = record io { regs = io.reg_write }
