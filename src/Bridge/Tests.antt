-- ===== src/Bridge/Tests.antt =====
-- include/axi_dual_port_route_shape.h at concrete inputs.
use axi_interconnect_kit.Prelude.Words.{bit, byte}
use axi_interconnect_kit.Bridge.Gate.{issue_gate}
use axi_interconnect_kit.Bridge.Gate.Laws.{issue_gate_safe}
use axi_interconnect_kit.Bridge.Scan.{
  is_valid, is_match, is_complete, slot_id, pending_scan_control, scan_slots, scan_slot,
}
use axi_interconnect_kit.Bridge.Scan.Laws.{IsLowest, pending_scan-IsLowest, pending_scan-id_unused}
use axi_interconnect_kit.Bridge.Shape.{mode2_shape}
use axi_interconnect_kit.Bridge.Shape.Laws.{HoldsRequest, mode2_shape-HoldsRequest}
use axi_interconnect_kit.Bridge.Pack.{write_pack64, read_pack64}
use axi_interconnect_kit.Bridge.Pack.Laws.{read_pack64-write_pack64}
use axi_interconnect_kit.Bridge.Queue.{Req, Room, fifo_ptr_control, next_ptr}
use axi_interconnect_kit.Bridge.Queue.Laws.{IsFifo, fifo_ptr_control-IsFifo, view, store, push-view}
use axi_interconnect_kit.Prelude.{[], arith, false, inr, not, refl, true, ◌&&◌, ◌∷◌, ◌≡◌, ◌≢◌}

-- A read and a write of line 7 together.
issue_gate_safe_example :
    let g = issue_gate true true 7 false false true true 7 false false in
    (g.ar_fire ≡ g.bridge_arready)
    × (g.aw_fire ≡ g.bridge_awready)
    × ((g.ar_fire && false) ≡ false)
    × ((g.aw_fire && false) ≡ false)
    × ((g.ar_fire && (g.aw_fire && true)) ≡ false)
issue_gate_safe_example = issue_gate_safe true true false false true true false false 7 7

-- Two slots, the first with ID 0 and the second free, on one-bit IDs.
pending_scan-IsLowest_example :
    IsLowest
      (λ j. not (is_valid 2 1 1 1 0 0 j))
      2
      (pending_scan_control 2 1 1 1 0 0).free_found
      (pending_scan_control 2 1 1 1 0 0).free_slot
    × IsLowest
        (is_match 2 1 1 1 0 0)
        2
        (pending_scan_control 2 1 1 1 0 0).match_found
        (pending_scan_control 2 1 1 1 0 0).match_slot
    × IsLowest
        (is_complete 2 1 1 1 0 0)
        2
        (pending_scan_control 2 1 1 1 0 0).complete_found
        (pending_scan_control 2 1 1 1 0 0).complete_slot
pending_scan-IsLowest_example = pending_scan-IsLowest 2 1 1 1 0 0

-- Slot 0 is in use, and the ID handed out is 1.
pending_scan-id_unused_example : slot_id 2 1 1 1 0 0 0 ≢ (pending_scan_control 2 1 1 1 0 0).axi_id
unfolding pending_scan_control scan_slots scan_slot slot_id bit
pending_scan-id_unused_example =
    pending_scan-id_unused 2 1 1 1 0 0 0 (omega arith) refl (omega arith) refl

mode2_shape-HoldsRequest_example :
    let m = mode2_shape 0x104 7 64 32 in HoldsRequest m.issue_addr m.issue_size 0x104 7
mode2_shape-HoldsRequest_example =
    mode2_shape-HoldsRequest 0x104 7 64 32 (omega arith) (omega arith) (omega arith) (omega arith)
      (omega arith) (omega arith) (omega arith)

-- A ring of four places with two entries, from place 3.
abbrev ring : IsFifo 4 3 1 2
ring = record {
  head_in = omega arith;
  tail_in = omega arith;
  count_in = omega arith;
  distance = inr refl;
}

fifo_ptr_control-IsFifo_example :
    let c = fifo_ptr_control 3 1 2 true true 4 in IsFifo 4 c.next_head c.next_tail c.next_count
fifo_ptr_control-IsFifo_example =
    fifo_ptr_control-IsFifo 4 3 1 2 true true (omega arith) ring (λ _. omega arith)
      (λ _. omega arith)

push-view_example :
    let c = fifo_ptr_control 3 1 2 true false 4 in
    view 4 (store 4 (λ i. i) 1 9) c.next_head c.next_count ≡ 3 ∷ 0 ∷ 9 ∷ []
unfolding view next_ptr
push-view_example = push-view 4 (λ i. i) 3 1 2 9 (omega arith) ring (omega arith)

-- The cache writes two beats, the bypass reads one, and there is room for both.
abbrev cache_req : Req
cache_req = record { valid = true; write = true; total_beats = 2 }

abbrev bypass_req : Req
bypass_req = record { valid = true; write = false; total_beats = 1 }

abbrev room : Room
room = record {
  free_found = true;
  free_slot = 0;
  axi_id_found = true;
  axi_id = 0;
  issue_space = true;
  data_space = true;
}

-- The second beat of 4 bytes of a line of 8 bytes.
read_pack64-write_pack64_example :
    let w = write_pack64 0x100 0x100 1 false 8 4 0x1122334455667788 255 in
    byte (read_pack64 0x100 0x100 1 false 8 4 0 w.axi_wdata).final_data 5 ≡ 0x33
unfolding byte
read_pack64-write_pack64_example =
    read_pack64-write_pack64 0x100 0x100 1 8 4 0x1122334455667788 255 0 5 (omega arith)
      (omega arith) (omega arith)
