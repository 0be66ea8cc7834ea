-- ===== src/Interconnect/Tests.antt =====
-- axi_interconnect/AXI_Interconnect.cpp at concrete inputs.
use axi_interconnect_kit.Axi.{quiet}
use axi_interconnect_kit.Interconnect.{Build, DownstreamPort, ddr, mmio}
use axi_interconnect_kit.Interconnect.Ids.{alloc_write_axi_id, any_in}
use axi_interconnect_kit.Interconnect.Ids.Laws.{IsAllocated, alloc_write_axi_id-IsAllocated}
use axi_interconnect_kit.Interconnect.Modes.{
  request_uses_direct_mapped_llc, step_reconfig, llc_enabled,
}
use axi_interconnect_kit.Interconnect.Modes.Laws.{
  IsMapped, IsSwitch, step_reconfig-IsSwitch, translate_llc_addr-IsMapped,
}
use axi_interconnect_kit.Interconnect.State.{
  ArIssueMeta, ArLatch, AwLatch, Control, LlcUpstreamReqLatch, LlcUpstreamWriteReqLatch, State,
  WritePendingTxn,
}
use axi_interconnect_kit.Interconnect.Writes.{no_txn, seq_write_responses, comb_write_response}
use axi_interconnect_kit.Interconnect.Writes.Outcome.{IsServed, seq_write_responses-IsServed}
use axi_interconnect_kit.Llc.{Config, Limits, is_valid}
use axi_interconnect_kit.Llc.Reset.{no_io}
use axi_interconnect_kit.Prelude.Search.{first_from}
use axi_interconnect_kit.Prelude.{[], arith, false, none, refl, true, ℕ, ◌+◌, ◌∷◌, ◌≡◌}
use axi_interconnect_kit.Interconnect.Writes.Laws.{IsPacked, waiting}
use axi_interconnect_kit.Interconnect.Writes.Search.{ids_distinct}

-- A cache of 8 MiB.
abbrev config : Config
config = record {
  enable = true;
  size_bytes = 8388608;
  line_bytes = 64;
  ways = 16;
  mshr_num = 4;
  lookup_latency = 8;
  prefetch_enable = false;
  prefetch_degree = 1;
  nine = true;
  unified = true;
  pipt = true;
}

abbrev build : Build
build = record {
  axi_id_width = 6;
  ddr_address_base = 0x80000000;
  max_read_outstanding_per_master = 4;
}

abbrev limits : Limits
limits = record {
  max_outstanding = 8;
  max_write_outstanding = 8;
  max_write_transaction_bytes = 64;
  bypass_direct_resp = true;
  bypass_direct_issue = true;
  dcache_read_miss_noalloc = false;
}

-- Mode 2, with a request for mode 1.
abbrev mapped : Control
mapped = record {
  mode = 1;
  llc_mapped_offset = 0;
  active_mode = 2;
  active_offset = 0x30000000;
  llc_mapped_offset_override = false;
  reconfig_pending = false;
  reconfig_target_mode = 2;
  reconfig_target_offset = 0x30000000;
}

abbrev no_ar_latch : ArLatch
no_ar_latch = record {
  valid = false;
  accepted_upstream = false;
  to_llc = false;
  resp_extract_from_aligned_beat = false;
  port = ddr;
  addr = 0;
  upstream_addr = 0;
  len = 0;
  size = 0;
  burst = 0;
  id = 0;
  master_id = 0;
  orig_id = 0;
  upstream_total_size = 0;
}

abbrev no_aw_latch : AwLatch
no_aw_latch = record { valid = false; port = ddr; addr = 0; len = 0; size = 0; burst = 0; id = 0 }

abbrev no_ar_issue : ArIssueMeta
no_ar_issue = record {
  valid = false;
  from_llc = false;
  resp_extract_from_aligned_beat = false;
  llc_mem_id = 0;
  upstream_addr = 0;
  upstream_total_size = 0;
  master_id = none;
  orig_id = 0;
}

abbrev no_upstream_req : LlcUpstreamReqLatch
no_upstream_req = record {
  valid = false;
  addr = 0;
  total_size = 0;
  id = 0;
  bypass = false;
  direct_mapped = false;
  mode2_ddr_aligned = false;
}

abbrev no_upstream_write_req : LlcUpstreamWriteReqLatch
no_upstream_write_req = record {
  valid = false;
  addr = 0;
  total_size = 0;
  id = 0;
  wdata = λ i. 0;
  wstrb = λ i. false;
  bypass = false;
  direct_mapped = false;
  mode2_ddr_aligned = false;
}

-- Two writes to the DDR whose data are sent, and one to MMIO.
abbrev sent : ℕ → ℕ → DownstreamPort → WritePendingTxn
sent axi_id master port = record no_txn {
  axi_id = axi_id;
  master_id = master;
  orig_id = axi_id + 5;
  port = port;
  aw_done = true;
  w_done = true;
}

abbrev writing : State
writing = record {
  read_req = λ m. record {
    valid = false;
    ready = false;
    accepted = false;
    accepted_id = 0;
    addr = 0;
    total_size = 0;
    id = 0;
    bypass = false;
  };
  write_req = λ m. record {
    valid = false;
    ready = false;
    accepted = false;
    addr = 0;
    wdata = λ i. 0;
    wstrb = λ i. false;
    total_size = 0;
    id = 0;
    bypass = false;
  };
  write_resp = λ m. record { valid = false; ready = false; id = 0; resp = 0 };
  downstream = λ p. record quiet { b = record (quiet.b) { bvalid = true } };
  write_req_accepted = λ m. false;
  req_ready_r = λ m. false;
  w_req_ready_r = λ m. false;
  ar_latch = λ p. no_ar_latch;
  ar_issue = λ p. no_ar_issue;
  r_pending = [];
  w_active = λ p. false;
  w_current = λ p. no_txn;
  w_current_master = λ p. none;
  w_pending = sent 1 0 ddr ∷ sent 0 1 ddr ∷ sent 0 1 mmio ∷ [];
  resp_buffer =
      λ m. record { w_resp_valid = true; w_resp_id = 3; w_resp_resp = 0; w_resp_queue = [] };
  llc_write_resp_delay = λ m. [];
  aw_latch = λ p. no_aw_latch;
  llc_config = record config { enable = false };
  llc = no_io;
  llc_invalidate_all_req = false;
  read_req_hold = λ m. record { valid = false; addr = 0; total_size = 0; id = 0; bypass = false };
  llc_upstream_req = λ m. no_upstream_req;
  llc_upstream_write_req = λ m. no_upstream_write_req;
  llc_upstream_write_q = λ m. [];
  llc_core_req_stage = record {
    valid = false;
    is_write = false;
    master = 0;
    read = no_upstream_req;
    write = no_upstream_write_req;
  };
  llc_read_resp_valid = λ m. false;
  llc_read_resp_id = λ m. 0;
  llc_mem_write_resp_valid = false;
  llc_mem_ignored_b_count = 0;
  control = mapped;
}

step_reconfig-IsSwitch_example : IsSwitch true mapped (step_reconfig true mapped)
step_reconfig-IsSwitch_example = step_reconfig-IsSwitch true mapped

-- In mode 1 another offset is not taken over.
abbrev moved : Control
moved = record mapped { active_mode = 1; llc_mapped_offset = 0x40000000 }

offset_ignored : (step_reconfig true moved).active_offset ≡ 0x30000000
unfolding step_reconfig
offset_ignored = refl

translate_llc_addr-IsMapped_example : IsMapped config mapped 0x30001000 63
unfolding request_uses_direct_mapped_llc is_valid
translate_llc_addr-IsMapped_example =
    translate_llc_addr-IsMapped config mapped 0x30001000 63 refl (omega arith) (omega arith) refl

alloc_write_axi_id-IsAllocated_example :
    IsAllocated build writing ddr (alloc_write_axi_id build writing ddr)
alloc_write_axi_id-IsAllocated_example =
    alloc_write_axi_id-IsAllocated build writing ddr (omega arith)

-- The two IDs in use on the port are passed over.
allocates : alloc_write_axi_id build writing ddr ≡ 2
unfolding alloc_write_axi_id first_from
allocates = refl

-- The writes of one master are answered by both ports, and that of the DDR is taken.
seq_write_responses-IsServed_example : IsServed limits build writing 1
unfolding llc_enabled is_valid ids_distinct any_in IsPacked
seq_write_responses-IsServed_example =
    seq_write_responses-IsServed limits build writing 1 (omega arith) refl refl (λ h. refl)

serves :
    waiting
      ((seq_write_responses limits build (comb_write_response limits build writing)).resp_buffer 1)
    ≡ (3, 0) ∷ (5, 0) ∷ []
unfolding waiting seq_write_responses comb_write_response
serves = refl
