-- ===== src/Interconnect/Writes.antt =====
-- axi_interconnect/AXI_Interconnect.cpp: the responses to writes that wait for their masters, and the
-- writes of the modes without the cache: their addresses, their beats and their responses. The trace
-- prints are left out.
pub mod Laws
pub mod Search
pub mod Handshake
pub mod Frame
pub mod Cycle
pub mod Outcome
use mathlib.Core.Option
use axi_interconnect_kit.Axi.{b_fires}
use axi_interconnect_kit.Interconnect.{Build, DownstreamPort, ddr, mmio, same_port, set_port}
use axi_interconnect_kit.Interconnect.State.{
  State, WritePendingTxn, WriteRespBuffer, WriteRespEntry,
}
use axi_interconnect_kit.Interconnect.Modes.{llc_enabled}
use axi_interconnect_kit.Llc.{Limits, num_write_masters}
use axi_interconnect_kit.Prelude.Arrays.{update}
use axi_interconnect_kit.Prelude.Words.{u8}
use axi_interconnect_kit.Prelude.{
  Bool, List, Option, [], false, get_elem?, if◌then◌else◌, length, ltb, modify, none, not, one_if,
  some, true, zero, suc, ℕ, ◌%◌, ◌&&◌, ◌++◌, ◌+◌, ◌-◌, ◌==◌, ◌^◌, ◌||◌, ◌∷◌, map,
}

unfoldable pub is_empty {ℓ} : {A : Type ℓ} → List A → Bool
is_empty [] = true
is_empty (x ∷ xs) = false

-- The index of the first entry that passes.
unfoldable pub find_in {ℓ} : {A : Type ℓ} → (A → Bool) → List A → Option ℕ
find_in p [] = none
find_in p (x ∷ xs) = if p x then some 0 else Option.map suc (find_in p xs)

unfoldable pub erase_at {ℓ} : {A : Type ℓ} → List A → ℕ → List A
erase_at [] i = []
erase_at (x ∷ xs) zero = xs
erase_at (x ∷ xs) (suc i) = x ∷ erase_at xs i

-- A write of a port with an AXI ID.
abbrev pub has_axi_id : DownstreamPort → ℕ → WritePendingTxn → Bool
has_axi_id port axi_id txn = same_port txn.port port && txn.axi_id == axi_id

unfoldable pub find_write_pending_by_axi_id : State → DownstreamPort → ℕ → Option ℕ
unfolding find_in
find_write_pending_by_axi_id s port axi_id = find_in (has_axi_id port axi_id) s.w_pending

unfoldable pub find_next_aw_pending : State → DownstreamPort → Option ℕ
unfolding find_in
find_next_aw_pending s port =
    find_in (λ txn. not txn.aw_done && same_port txn.port port) s.w_pending

unfoldable pub find_next_w_pending : State → DownstreamPort → Option ℕ
unfolding find_in
find_next_w_pending s port =
    find_in (λ txn. same_port txn.port port && (txn.aw_done && not txn.w_done)) s.w_pending

-- The entry at an index that a search may have found.
unfoldable pub entry_of {ℓ} : {A : Type ℓ} → List A → Option ℕ → Option A
entry_of xs none = none
entry_of xs (some i) = get_elem? xs i

-- `WritePendingTxn{}`.
abbrev pub no_txn : WritePendingTxn
no_txn = record {
  axi_id = 0;
  master_id = 0;
  orig_id = 0;
  port = ddr;
  addr = 0;
  wdata = λ i. 0;
  wstrb = λ i. false;
  total_beats = 0;
  beats_sent = 0;
  aw_done = false;
  w_done = false;
  to_llc_mem = false;
  llc_victim_write = false;
}

unfoldable pub select_current : State → DownstreamPort → Option WritePendingTxn → State
unfolding set_port
select_current s port none = record s {
  w_current = set_port s.w_current port no_txn;
  w_current_master = set_port s.w_current_master port none;
}
select_current s port (some txn) = record s {
  w_current = set_port s.w_current port txn;
  w_active = set_port s.w_active port true;
  w_current_master = set_port s.w_current_master port (some txn.master_id);
}

unfoldable pub refresh_non_llc_w_active : State → DownstreamPort → State
unfolding llc_enabled find_next_w_pending entry_of select_current
refresh_non_llc_w_active s port =
    if llc_enabled s || s.w_active port
    then s
    else select_current s port (entry_of s.w_pending (find_next_w_pending s port))

-- A response joins a buffer: it is offered, or waits if there is space.
unfoldable pub push_response : Bool → WriteRespEntry → WriteRespBuffer → WriteRespBuffer
push_response space entry buf =
    if not buf.w_resp_valid
    then record buf { w_resp_valid = true; w_resp_id = entry.id; w_resp_resp = entry.resp }
    else if space
    then record buf { w_resp_queue = buf.w_resp_queue ++ (entry ∷ []) }
    else buf

-- The response of one master's buffer that takes the place of the one that has left.
unfoldable pub promote_buffer : WriteRespBuffer → List WriteRespEntry → WriteRespBuffer
promote_buffer buf [] = buf
promote_buffer buf (entry ∷ rest) = if buf.w_resp_valid then buf else record {
  w_resp_valid = true;
  w_resp_id = entry.id;
  w_resp_resp = entry.resp;
  w_resp_queue = rest;
}

unfoldable pub promote_write_resp_queue : State → State
unfolding promote_buffer
promote_write_resp_queue s = record s {
  resp_buffer = λ m.
      let buf = s.resp_buffer m in
      if ltb m num_write_masters then promote_buffer buf buf.w_resp_queue else buf;
}

unfoldable pub any_write_resp_buffered : State → Bool
unfolding is_empty
any_write_resp_buffered s =
    let a = s.resp_buffer 0 in
    let b = s.resp_buffer 1 in
    a.w_resp_valid
    || not (is_empty a.w_resp_queue)
    || (b.w_resp_valid || not (is_empty b.w_resp_queue))

-- The response that its master has taken leaves.
unfoldable pub take_responses : State → State
take_responses s = record s {
  resp_buffer = λ m.
      let buf = s.resp_buffer m in
      let resp = s.write_resp m in
      if ltb m num_write_masters && (resp.valid && resp.ready)
      then record buf { w_resp_valid = false; w_resp_id = 0; w_resp_resp = 0 }
      else buf;
}

-- The ID of a port's response.
abbrev pub bid : Build → State → DownstreamPort → ℕ
bid build s port = (s.downstream port).b.bid % 2 ^ build.axi_id_width

unfoldable pub same_master : Option WritePendingTxn → Option WritePendingTxn → Bool
same_master (some a) (some b) = a.master_id == b.master_id
same_master (some a) none = false
same_master none b = false

unfoldable pub set_b_ready : State → Bool → Bool → State
unfolding set_port
set_b_ready s ddr_bready mmio_bready =
    let a = s.downstream ddr in
    let c = s.downstream mmio in
    record s {
      downstream =
          set_port
            (set_port s.downstream ddr (record a { b = record (a.b) { bready = ddr_bready } })) mmio
            (record c { b = record (c.b) { bready = mmio_bready } });
    }

unfoldable pub drive_write_masters : State → State
drive_write_masters s = record s {
  write_req = λ m.
      if ltb m num_write_masters
      then record (s.write_req m) { accepted = s.write_req_accepted m }
      else s.write_req m;
  write_resp = λ m.
      if ltb m num_write_masters
      then record (s.write_resp m) {
        valid = (s.resp_buffer m).w_resp_valid;
        id = (s.resp_buffer m).w_resp_id;
        resp = (s.resp_buffer m).w_resp_resp;
      }
      else s.write_resp m;
}

module _ (build : Build) where
  -- `b_target_master`, for a response that is valid.
  unfoldable pub b_target : State → DownstreamPort → Option WritePendingTxn
  unfolding find_in entry_of
  b_target s port = entry_of s.w_pending (
      find_in
        (λ txn.
          has_axi_id port (bid build s port) txn
          && (txn.w_done && ltb txn.master_id num_write_masters))
        s.w_pending)

  unfoldable pub both_to_one_master : State → Bool
  unfolding b_target same_master
  both_to_one_master s =
      (s.downstream ddr).b.bvalid
      && ((s.downstream mmio).b.bvalid && same_master (b_target s ddr) (b_target s mmio))

module _ (limits : Limits) where
  unfoldable pub write_resp_buffer_count : State → ℕ → ℕ
  write_resp_buffer_count s master =
      let buf = s.resp_buffer master in
      if ltb master num_write_masters
      then u8 (one_if buf.w_resp_valid + length buf.w_resp_queue)
      else 0

  unfoldable pub write_resp_buffer_has_space : State → ℕ → Bool
  unfolding write_resp_buffer_count
  write_resp_buffer_has_space s master =
      ltb master num_write_masters
      && ltb (write_resp_buffer_count s master) limits.max_write_outstanding

  -- A response that finds no space is dropped.
  unfoldable pub enqueue_write_resp : State → ℕ → WriteRespEntry → State
  unfolding write_resp_buffer_has_space push_response update
  enqueue_write_resp s master entry = if not (ltb master num_write_masters) then s else record s {
    resp_buffer =
        update s.resp_buffer master (push_response (write_resp_buffer_has_space s master) entry);
  }

  -- The end of a write: its response goes to its master, and it leaves the list.
  unfoldable pub end_write : State → Option ℕ → Option WritePendingTxn → ℕ → State
  unfolding enqueue_write_resp erase_at
  end_write s (some i) (some txn) resp =
      let entry : WriteRespEntry = record {
        id = txn.orig_id;
        resp = resp;
        line_valid = false;
        line_addr = 0;
      } in
      let queued =
        if ltb txn.master_id num_write_masters
        then enqueue_write_resp s txn.master_id entry
        else s in
      record queued { w_pending = erase_at queued.w_pending i }
  end_write s (some i) none resp = s
  end_write s none txn resp = s

  module _ (build : Build) where
    -- `can_accept_b_for_master`, of that target.
    unfoldable pub can_accept_b : State → Option WritePendingTxn → Bool
    unfolding write_resp_buffer_has_space
    can_accept_b s none = false
    can_accept_b s (some txn) = write_resp_buffer_has_space s txn.master_id

    -- The two `bready` of `comb_write_response` in the modes without the cache: a port whose response
    -- is not valid is ready.
    unfoldable pub b_ready : State → DownstreamPort → Bool
    unfolding b_target can_accept_b
    b_ready s port = not (s.downstream port).b.bvalid || can_accept_b s (b_target build s port)

    -- The `bready` of a port in the modes with the cache.
    unfoldable pub llc_b_ready : State → DownstreamPort → Bool
    unfolding write_resp_buffer_has_space
    llc_b_ready s port =
        let current = s.w_current port in
        if s.w_active port && (current.w_done && current.axi_id == bid build s port)
        then if current.to_llc_mem
          then not s.llc_mem_write_resp_valid
          else write_resp_buffer_has_space s current.master_id
        else not (s.w_active port) && ltb 0 s.llc_mem_ignored_b_count

    unfoldable pub comb_write_response : State → State
    unfolding b_ready both_to_one_master llc_b_ready set_b_ready drive_write_masters llc_enabled
    comb_write_response s =
        let ddr_bready = b_ready s ddr in
        let mmio_bready = b_ready s mmio in
        let clash = both_to_one_master build s && (ddr_bready && mmio_bready) in
        if llc_enabled s
        then set_b_ready s (llc_b_ready s ddr) (llc_b_ready s mmio)
        else set_b_ready (drive_write_masters s) ddr_bready (mmio_bready && not clash)

    unfoldable pub handle_b_handshake : State → DownstreamPort → State
    unfolding find_write_pending_by_axi_id entry_of end_write
    handle_b_handshake s port =
        let b = (s.downstream port).b in
        let found = find_write_pending_by_axi_id s port (bid build s port) in
        if b_fires b then end_write s found (entry_of s.w_pending found) b.bresp else s

    -- The B handshakes, and the responses that the masters take, in the order of `seq`.
    unfoldable pub seq_write_responses : State → State
    unfolding handle_b_handshake take_responses promote_write_resp_queue
    seq_write_responses s =
        promote_write_resp_queue
          (take_responses (handle_b_handshake (handle_b_handshake s ddr) mmio))
