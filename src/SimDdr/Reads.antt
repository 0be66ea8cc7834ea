-- ===== src/SimDdr/Reads.antt =====
-- sim_ddr/SimDDR.cpp, the read channel and the arbitration of the backend between reads and writes.
pub mod Select
pub mod Arbitration
use axi_interconnect_kit.Prelude.Words.{u32}
use axi_interconnect_kit.Axi.{R, Ar, resp_okay}
use axi_interconnect_kit.SimDdr.{Config, SimDdr, ReadTransaction, ServiceMode, idle, read, write}
use axi_interconnect_kit.SimDdr.Memory.{do_memory_read}
use axi_interconnect_kit.SimDdr.Writes.{
  find_write_drain_target, should_keep_write_drain_mode, comb_write_channel, is_empty,
}
use axi_interconnect_kit.Prelude.{
  Bool, List, Option, [], false, get_elem?, if◌then◌else◌, is_some, length, ltb, none, not, some,
  suc, true, zero, ℕ, ◌%◌, ◌&&◌, ◌*◌, ◌+◌, ◌==◌, ◌^◌, ◌||◌, ◌∷◌,
}

abbrev pub is_ready : ReadTransaction → Bool
is_ready t = t.in_data_phase && not t.complete

-- The test at an index; none passes out of range.
abbrev pub ready_at : List ReadTransaction → ℕ → Bool
ready_at [] i = false
ready_at (t ∷ ts) zero = is_ready t
ready_at (t ∷ ts) (suc i) = ready_at ts i

-- The round-robin loop from step `i`, with `n` steps left.
unfoldable pub next_ready : List ReadTransaction → ℕ → ℕ → ℕ → Option ℕ
next_ready txns rr i zero = none
next_ready txns rr i (suc n) =
    let idx = (rr + i) % length txns in
    let rest = next_ready txns rr (i + 1) n in if ready_at txns idx then some idx else rest

unfoldable pub find_next_ready_transaction : SimDdr → Option ℕ
unfolding next_ready
find_next_ready_transaction s = next_ready s.r_transactions s.r_rr_index 0 (length s.r_transactions)

-- The active burst goes on while it is ready; else the next ready burst is selected.
unfoldable pub select : SimDdr → Option ℕ → Option ℕ
select s none = find_next_ready_transaction s
select s (some i) = if ready_at s.r_transactions i then some i else find_next_ready_transaction s

unfoldable pub select_read_transaction : SimDdr → SimDdr
unfolding select find_next_ready_transaction
select_read_transaction s = record s { r_selected_idx = select s s.r_active_idx }

abbrev pub same_index : Option ℕ → Option ℕ → Bool
same_index (some i) (some j) = i == j
same_index _ _ = false

abbrev pub is_idle : ServiceMode → Bool
is_idle idle = true
is_idle _ = false

abbrev pub is_read : ServiceMode → Bool
is_read read = true
is_read _ = false

abbrev pub is_write : ServiceMode → Bool
is_write write = true
is_write _ = false

abbrev pub same_mode : ServiceMode → ServiceMode → Bool
same_mode idle m = is_idle m
same_mode read m = is_read m
same_mode write m = is_write m

module _ (config : Config) where
  abbrev pub turnaround_cycles : ServiceMode → ServiceMode → ℕ
  turnaround_cycles read write = config.read_to_write_turnaround
  turnaround_cycles write read = config.write_to_read_turnaround
  turnaround_cycles _ _ = 0

  abbrev pub write_ready : SimDdr → Bool
  write_ready s =
      s.w_drain_mode
      && (not (is_empty s.w_data_fifo)
          && (s.w_drain_cooldown == 0 && is_some (find_write_drain_target s)))

  -- Which direction is to be served, of those that are ready.
  unfoldable pub desired_mode : SimDdr → ServiceMode
  desired_mode s =
      let read_ready = is_some s.r_selected_idx in
      if is_write s.backend_last_service_mode
        && (write_ready s && should_keep_write_drain_mode config s)
      then write
      else if same_index s.r_selected_idx s.r_active_idx
      then read
      else if is_read s.backend_last_service_mode && read_ready
      then read
      else if read_ready
      then read
      else if write_ready s
      then write
      else idle

  -- The decision once something is ready and no cooldown runs.
  unfoldable pub decide : ServiceMode → SimDdr → SimDdr
  decide desired s =
      if is_idle desired
      then s
      else if not (is_idle s.backend_last_service_mode)
          && (not (same_mode desired s.backend_last_service_mode)
              && not (turnaround_cycles s.backend_last_service_mode desired == 0))
      then record s { backend_switch_pending = true; backend_switch_target_mode = desired }
      else record s { backend_read_grant = is_read desired; backend_write_grant = is_write desired }

  unfoldable pub update_backend_arbitration : SimDdr → SimDdr
  unfolding desired_mode decide
  update_backend_arbitration s =
      let any = is_some s.r_selected_idx || write_ready s in
      let s' : SimDdr = record s {
        backend_read_grant = false;
        backend_write_grant = false;
        backend_switch_pending = false;
        backend_any_request_pending = any;
        backend_switch_target_mode = idle;
      } in
      if not any || not (s.backend_turnaround_cooldown == 0) then s' else decide (desired_mode s) s'

  -- The address of a transaction's current beat. The shift is on 32 bits.
  abbrev pub current_addr : ReadTransaction → ℕ
  current_addr t = u32 (t.addr + u32 (t.beat_cnt * 2 ^ t.size))

  -- What R shows for the selected transaction.
  unfoldable pub drive_r : Option (ℕ → ℕ) → Option ReadTransaction → R → R
  drive_r m none r = record r {
    rvalid = false;
    rid = 0;
    rdata = 0;
    rresp = resp_okay;
    rlast = false;
  }
  drive_r m (some t) r = record r {
    rvalid = true;
    rid = t.id;
    rdata = do_memory_read config.beat_bytes (current_addr t) m;
    rresp = resp_okay;
    rlast = t.beat_cnt == t.len;
  }

  abbrev pub selected : SimDdr → Option ReadTransaction
  selected s = elim s.r_selected_idx [ none ↦ none | some i ↦ get_elem? s.r_transactions i ]

  unfoldable pub comb_read_channel : SimDdr → SimDdr
  unfolding drive_r
  comb_read_channel s = record s {
    io = record (s.io) {
      ar = record (s.io.ar) { arready = ltb (length s.r_transactions) config.max_outstanding };
      r = drive_r s.p_memory (if s.backend_read_grant then selected s else none) s.io.r;
    };
  }

  unfoldable pub comb_outputs : SimDdr → SimDdr
  comb_outputs s =
      comb_write_channel config
        (comb_read_channel (update_backend_arbitration (select_read_transaction s)))

-- A no-op in the source too.
unfoldable pub comb_inputs : SimDdr → SimDdr
comb_inputs s = s
