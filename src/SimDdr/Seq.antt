-- ===== src/SimDdr/Seq.antt =====
-- sim_ddr/SimDDR.cpp, `seq`: the clock edge, in the order of the source.
use axi_interconnect_kit.Prelude.Words.{u8, u16, u32}
use axi_interconnect_kit.Axi.{Io, Aw, Ar, offer}
use axi_interconnect_kit.SimDdr.{
  Config, SimDdr, WriteTransaction, WriteRespPending, WriteBeatPending, ReadTransaction, idle, read,
  write,
}
use axi_interconnect_kit.SimDdr.Memory.{do_memory_write}
use axi_interconnect_kit.SimDdr.Writes.{
  find_write_data_target, find_write_drain_target, should_enter_write_drain_mode,
  should_keep_write_drain_mode, retire_completed_writes,
}
use axi_interconnect_kit.SimDdr.Reads.{turnaround_cycles, comb_outputs, comb_inputs}
use axi_interconnect_kit.Prelude.{
  Bool, List, Option, [], false, get_elem?, if◌then◌else◌, leb, length, ltb, map, modify, none, not,
  set, some, true, ℕ, ◌%◌, ◌&&◌, ◌*◌, ◌++◌, ◌+◌, ◌-◌, ◌==◌, ◌^◌, ◌||◌, ◌∷◌,
}

-- `if (x > 0) x--` is truncated subtraction.
unfoldable pub cool_down : SimDdr → SimDdr
cool_down s = record s {
  backend_turnaround_cooldown = s.backend_turnaround_cooldown - 1;
  w_accept_cooldown = s.w_accept_cooldown - 1;
  w_drain_cooldown = s.w_drain_cooldown - 1;
}

abbrev pub pop_front {ℓ} : {A : Type ℓ} → List A → List A
pop_front [] = []
pop_front (x ∷ xs) = xs

unfoldable pub finish_b : SimDdr → SimDdr
finish_b s =
    if s.io.b.bvalid && s.io.b.bready
    then record s { w_resp_queue = pop_front s.w_resp_queue }
    else s

abbrev pub older : WriteRespPending → WriteRespPending
older r = record r { latency_cnt = u32 (r.latency_cnt + 1) }

unfoldable pub age_resps : SimDdr → SimDdr
age_resps s = record s { w_resp_queue = map older s.w_resp_queue }

-- The entry of a write address.
abbrev pub new_write : Aw → WriteTransaction
new_write aw = record {
  addr = aw.awaddr;
  id = aw.awid;
  len = aw.awlen;
  size = aw.awsize;
  burst = aw.awburst;
  beats_accepted = 0;
  beats_drained = 0;
  data_done = false;
}

unfoldable pub take_aw : SimDdr → SimDdr
take_aw s =
    if s.io.aw.awvalid && s.io.aw.awready
    then record s { w_pending = s.w_pending ++ new_write s.io.aw ∷ [] }
    else s

-- The entry of a read address.
abbrev pub new_read : Ar → ReadTransaction
new_read ar = record {
  addr = ar.araddr;
  id = ar.arid;
  len = ar.arlen;
  size = ar.arsize;
  burst = ar.arburst;
  beat_cnt = 0;
  latency_cnt = 0;
  in_data_phase = false;
  complete = false;
}

unfoldable pub take_ar : SimDdr → SimDdr
take_ar s =
    if s.io.ar.arvalid && s.io.ar.arready
    then record s { r_transactions = s.r_transactions ++ new_read s.io.ar ∷ [] }
    else s

-- The address of the beat that a write takes next.
abbrev pub next_beat_addr : WriteTransaction → ℕ
next_beat_addr t = u32 (t.addr + u32 (t.beats_accepted * 2 ^ t.size))

abbrev pub with_beat : Bool → WriteTransaction → WriteTransaction
with_beat last t = record t {
  beats_accepted = u16 (t.beats_accepted + 1);
  data_done = t.data_done || last;
}

module _ (config : Config) where
  -- The beat goes to the write at the index.
  unfoldable pub accept_beat : Option ℕ → SimDdr → SimDdr
  accept_beat none s = s
  accept_beat (some i) s = elim (get_elem? s.w_pending i) [
    | none ↦ s
    | some t ↦ record s {
      w_pending = set s.w_pending i (with_beat s.io.w.wlast t);
      w_data_fifo =
          s.w_data_fifo
          ++ record { addr = next_beat_addr t; beat = s.io.w.wdata; wstrb = s.io.w.wstrb } ∷ [];
      w_accept_cooldown = config.write_accept_gap;
    }
  ]

  unfoldable pub take_w : SimDdr → SimDdr
  take_w s = if s.io.w.wvalid && s.io.w.wready then accept_beat (find_write_data_target s) s else s

  unfoldable pub enter_drain : SimDdr → SimDdr
  enter_drain s =
      if not s.w_drain_mode && should_enter_write_drain_mode config s
      then record s { w_drain_mode = true }
      else s

  -- The oldest buffered beat goes to memory, on the account of the write at the index.
  unfoldable pub drain_beat : Option ℕ → List WriteBeatPending → SimDdr → SimDdr
  drain_beat none beats s = s
  drain_beat (some i) [] s = s
  drain_beat (some i) (b ∷ rest) s = record s {
    w_data_fifo = rest;
    p_memory = do_memory_write config.beat_bytes b.addr b.beat b.wstrb s.p_memory;
    w_pending = modify s.w_pending i (λ t. record t { beats_drained = u16 (t.beats_drained + 1) });
    w_drain_cooldown = config.write_drain_gap;
  }

  unfoldable pub drain : SimDdr → SimDdr
  drain s =
      if s.backend_write_grant && (s.w_drain_mode && s.w_drain_cooldown == 0)
      then drain_beat (find_write_drain_target s) s.w_data_fifo s
      else s

  unfoldable pub leave_drain : SimDdr → SimDdr
  leave_drain s =
      if s.w_drain_mode && not (should_keep_write_drain_mode config s)
      then record s { w_drain_mode = false }
      else s

  unfoldable pub seq_write : SimDdr → SimDdr
  seq_write s = leave_drain (
      retire_completed_writes
        (drain (enter_drain (take_w (take_aw (age_resps (finish_b (cool_down s))))))))

  abbrev pub given : Bool → ReadTransaction → ReadTransaction
  given last t = record t { beat_cnt = u8 (t.beat_cnt + 1); complete = t.complete || last }

  -- A beat of the transaction at the index has been taken.
  unfoldable pub advance_read : Option ℕ → SimDdr → SimDdr
  advance_read none s = s
  advance_read (some i) s =
      let s' : SimDdr = record s {
        r_transactions = modify s.r_transactions i (given s.io.r.rlast);
      } in
      if s.io.r.rlast
      then record s' {
        r_active_idx = none;
        r_rr_index =
            (i + 1) % (if ltb (length s.r_transactions) 1 then 1 else length s.r_transactions);
      }
      else record s' { r_active_idx = some i }

  unfoldable pub finish_r : SimDdr → SimDdr
  finish_r s =
      if s.backend_read_grant && (s.io.r.rvalid && s.io.r.rready)
      then advance_read s.r_selected_idx s
      else s

  abbrev pub aged : ReadTransaction → ReadTransaction
  aged t =
      if not t.in_data_phase && not t.complete
      then record t {
        latency_cnt = u32 (t.latency_cnt + 1);
        in_data_phase = leb config.latency (u32 (t.latency_cnt + 1));
      }
      else t

  unfoldable pub age_reads : SimDdr → SimDdr
  age_reads s = record s { r_transactions = map aged s.r_transactions }

  -- The active index after the transaction at `src` has been removed.
  abbrev pub shift_active : ℕ → Option ℕ → Option ℕ
  shift_active src none = none
  shift_active src (some a) = if ltb src a then some (a - 1) else some a

  -- The removal loop from index `src` on.
  unfoldable pub remove_complete :
      ℕ → Option ℕ → List ReadTransaction → Option ℕ × List ReadTransaction
  remove_complete src active [] = (active, [])
  remove_complete src active (t ∷ ts) =
      let (active', rest) =
        remove_complete (src + 1) (if t.complete then shift_active src active else active) ts in
      (active', if t.complete then rest else t ∷ rest)

  abbrev pub in_bounds : ℕ → Option ℕ → Option ℕ
  in_bounds n none = none
  in_bounds n (some a) = if leb n a then none else some a

  unfoldable pub sweep_reads : SimDdr → SimDdr
  unfolding remove_complete
  sweep_reads s =
      let (active, txns) = remove_complete 0 s.r_active_idx s.r_transactions in
      record s {
        r_transactions = txns;
        r_rr_index =
            if ltb 0 (length txns) && leb (length txns) s.r_rr_index then 0 else s.r_rr_index;
        r_active_idx = in_bounds (length txns) active;
      }

  unfoldable pub seq_read : SimDdr → SimDdr
  seq_read s = sweep_reads (age_reads (finish_r (take_ar s)))

  unfoldable pub seq_backend : SimDdr → SimDdr
  seq_backend s =
      if not s.backend_any_request_pending && s.backend_turnaround_cooldown == 0
      then record s { backend_last_service_mode = idle }
      else if s.backend_switch_pending
      then record s {
        backend_turnaround_cooldown =
            turnaround_cycles config s.backend_last_service_mode s.backend_switch_target_mode;
        backend_last_service_mode = idle;
      }
      else if s.backend_read_grant
      then record s { backend_last_service_mode = read }
      else if s.backend_write_grant
      then record s { backend_last_service_mode = write }
      else s

  unfoldable pub seq : SimDdr → SimDdr
  seq s = seq_backend (seq_read (seq_write s))

  -- A clock cycle with a master that drives `m`: the signals at the edge, and the edge.
  unfoldable pub settle : Io → SimDdr → SimDdr
  settle m s = let s' = comb_outputs config s in comb_inputs (record s' { io = offer m s'.io })

  unfoldable pub cycle : Io → SimDdr → SimDdr
  cycle m s = seq (settle m s)

  unfoldable pub run : List Io → SimDdr → SimDdr
  run [] s = s
  run (m ∷ ms) s = run ms (cycle m s)
