-- ===== src/SimDdr/Tests.antt =====
-- sim_ddr/SimDDR.cpp at concrete inputs.
use axi_interconnect_kit.Prelude.Words.{byte, bit}
use axi_interconnect_kit.Axi.{Io, quiet}
use axi_interconnect_kit.SimDdr.{Config, SimDdr, ReadTransaction, idle, write, byte}
use axi_interconnect_kit.SimDdr.Memory.{do_memory_read, do_memory_write}
use axi_interconnect_kit.SimDdr.Memory.Laws.{do_memory_read-write}
use axi_interconnect_kit.SimDdr.Reads.{update_backend_arbitration}
use axi_interconnect_kit.SimDdr.Reads.Arbitration.{IsArbitrated, update_backend_arbitration_safe}
use axi_interconnect_kit.SimDdr.Seq.{run, cycle}
use axi_interconnect_kit.SimDdr.Laws.Order.{due, taken_ids, given_ids, run-due}
use axi_interconnect_kit.SimDdr.Laws.Bounds.{IsBounded, cycle-IsBounded}
use axi_interconnect_kit.Prelude.{List, [], arith, false, none, some, true, ◌++◌, ◌∷◌, ◌≡◌}

abbrev config : Config
config = record {
  beat_bytes = 32;
  latency = 2;
  write_resp_latency = 1;
  max_outstanding = 4;
  write_queue_depth = 4;
  write_accept_gap = 0;
  write_data_fifo_depth = 8;
  write_drain_gap = 0;
  write_drain_high_watermark = 4;
  write_drain_low_watermark = 0;
  read_to_write_turnaround = 2;
  write_to_read_turnaround = 3;
}

-- A read burst of one beat whose data are ready.
abbrev ready_read : ReadTransaction
ready_read = record {
  addr = 0x80000040;
  id = 6;
  len = 0;
  size = 5;
  burst = 1;
  beat_cnt = 0;
  latency_cnt = 2;
  in_data_phase = true;
  complete = false;
}

-- After reset, with an empty memory.
abbrev fresh : SimDdr
fresh = record {
  io = quiet;
  w_pending = [];
  w_data_fifo = [];
  w_accept_cooldown = 0;
  w_drain_cooldown = 0;
  w_drain_mode = false;
  w_resp_queue = [];
  r_transactions = [];
  r_rr_index = 0;
  r_selected_idx = none;
  r_active_idx = none;
  backend_last_service_mode = idle;
  backend_turnaround_cooldown = 0;
  backend_read_grant = false;
  backend_write_grant = false;
  backend_switch_pending = false;
  backend_any_request_pending = false;
  backend_switch_target_mode = idle;
  p_memory = some (λ _. 0);
}

-- Two reads in hand, the second ready and the search starting at it.
abbrev reading : SimDdr
reading = record fresh {
  r_transactions = record ready_read { in_data_phase = false } ∷ ready_read ∷ [];
  r_rr_index = 1;
  r_selected_idx = some 1;
  backend_last_service_mode = write;
}

-- A write of one beat with ID 3: its address, its data, and then the response.
abbrev address : Io
address = record quiet {
  aw = record (quiet.aw) { awvalid = true; awid = 3; awaddr = 0x80000000; awsize = 5 };
}

abbrev data_beat : Io
data_beat = record quiet {
  w = record (quiet.w) { wvalid = true; wdata = 0x1234; wstrb = 3; wlast = true };
}

abbrev waiting : Io
waiting = record quiet { b = record (quiet.b) { bready = true } }

abbrev one_write : List Io
one_write = address ∷ data_beat ∷ waiting ∷ waiting ∷ waiting ∷ waiting ∷ []

run-due_example :
    due fresh ++ taken_ids config one_write fresh
    ≡ given_ids config one_write fresh ++ due (run config one_write fresh)
run-due_example = run-due config one_write fresh

cycle-IsBounded_example : IsBounded config (cycle config address fresh)
cycle-IsBounded_example =
    cycle-IsBounded config address fresh
      (record { writes = omega arith; beats = omega arith; reads = omega arith })

do_memory_read-write_example :
    byte
      (do_memory_read 32 0x80000041
        (do_memory_write 32 0x80000041 0x1234 1 (some (λ _. 0xffffffff))))
      1
    ≡ byte (do_memory_read 32 0x80000041 (some (λ _. 0xffffffff))) 1
unfolding byte bit
do_memory_read-write_example =
    do_memory_read-write 32 0x80000041 0x1234 1 1 (λ _. 0xffffffff) (omega arith) (omega arith)

update_backend_arbitration_safe_example :
    IsArbitrated config reading (update_backend_arbitration config reading)
update_backend_arbitration_safe_example = update_backend_arbitration_safe config reading
