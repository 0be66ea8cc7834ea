-- ===== src/MmioBus/Invariant.antt =====
-- mmio/MMIO_Bus_AXI4.cpp over clock cycles: the shape of the pending bursts, and counts of write
-- requests and responses.
use axi_interconnect_kit.Axi.{Io, offer, b_fires, aw_fires}
use axi_interconnect_kit.MmioDevice.{Devices}
use axi_interconnect_kit.MmioBus.{
  Bus, latency, comb_outputs, comb_inputs, build_read_beat, progress_read, seq, consume_r, accept_w,
  accept_ar, tick_all, u8, accept_aw, age_resp, consume_b, PendingRead, PendingWrite,
  PendingWriteResp,
}
use axi_interconnect_kit.Prelude.{
  arith, false, not, true, ℕ, ◌&&◌, ◌<◌, ◌==◌, ◌||◌, ◌≡◌, ◌≤◌, if◌then◌else◌, ◌+◌, List, [], leb,
  refl, ◌∷◌, one_if,
}

pub record IsReadValid (r : PendingRead) : Type 0 where
  pub read_within : r.active ≡ true → r.beat_idx ≤ r.len
  pub read_len : r.len < 256
  pub beat_of_burst : r.beat_valid ≡ true → r.active ≡ true
  pub read_latency : r.latency_cnt ≤ latency

pub record IsWriteValid (w : PendingWrite) (b : PendingWriteResp) : Type 0 where
  pub one_write : w.active ≡ true → b.active ≡ false
  pub write_within : w.active ≡ true → w.beat_idx ≤ w.len
  pub write_len : w.len < 256
  pub resp_latency : b.latency_cnt ≤ latency

pub record IsValid (s : Bus) : Type 0 where
  pub reading : IsReadValid s.r_pending
  pub writing : IsWriteValid s.w_pending s.w_resp

-- The master's lengths are 8-bit wires.
pub record IsWire (m : Io) : Type 0 where
  pub arlen_byte : m.ar.arlen < 256
  pub awlen_byte : m.aw.awlen < 256

abbrev pub AllWire : List Io → Type 0
AllWire [] = Unit
AllWire (m ∷ ms) = IsWire m × AllWire ms

-- The signals at the clock edge, when the master drives `m`.
unfoldable pub settle : Io → Bus → Bus
settle m s = let s' = comb_outputs s in comb_inputs (record s' { io = offer m s'.io })

-- What the ready and valid signals say of the state, as the phases leave them.
pub record IsSettled (s : Bus) : Type 0 where
  pub ar_free : s.io.ar.arready ≡ not s.r_pending.active
  pub aw_free : s.io.aw.awready ≡ (not s.w_pending.active && not s.w_resp.active)
  pub r_offered : s.io.r.rvalid ≡ (s.r_pending.active && s.r_pending.beat_valid)
  pub w_open : s.io.w.wready ≡ s.w_pending.active
  pub b_offered : s.io.b.bvalid ≡ (s.w_resp.active && leb latency s.w_resp.latency_cnt)
  pub last : s.io.r.rvalid ≡ true → s.io.r.rlast ≡ (s.r_pending.beat_idx == s.r_pending.len)

pub settle-IsSettled : (m : Io) (s : Bus) → IsSettled (settle m s)
unfolding settle comb_outputs comb_inputs offer
settle-IsSettled m s = ground arith

pub settle-shape :
    (m : Io) (s : Bus)
    → let t = settle m s in
      (t.r_pending ≡ s.r_pending)
      × (t.w_pending ≡ s.w_pending)
      × (t.w_resp ≡ s.w_resp)
      × (t.regions ≡ s.regions)
      × (t.io.ar.arlen ≡ m.ar.arlen)
      × (t.io.aw.awlen ≡ m.aw.awlen)
unfolding settle comb_outputs comb_inputs offer
settle-shape m s = (refl, refl, refl, refl, refl, refl)

pub settle-IsValid : (m : Io) (s : Bus) → IsValid s → IsValid (settle m s)
unfolding settle comb_outputs comb_inputs
settle-IsValid m s v = ground arith

module _ (devices : Devices) (width : ℕ) where
  open devices use {State}

  unfoldable pub cycle : Io → Bus × State → Bus × State
  cycle m (s, d) = seq devices width (settle m s, d)

  -- The read half of the clock edge.
  abbrev pub read_half : Bus × State → Bus
  read_half (s, d) =
      consume_r (progress_read devices width (accept_ar s, tick_all devices width s.regions d)).0

  pub progress_read_shape :
      (s : Bus) (d : State)
      → let t = (progress_read devices width (s, d)).0 in
        let r = s.r_pending in
        let r' = t.r_pending in
        (r'.active ≡ r.active)
        × (r'.beat_idx ≡ r.beat_idx)
        × (r'.len ≡ r.len)
        × (r'.beat_valid ≡ r.active || r.beat_valid)
        × (r.latency_cnt ≤ latency → r'.latency_cnt ≤ latency)
        × (t.w_pending ≡ s.w_pending)
        × (t.w_resp ≡ s.w_resp)
        × (t.io ≡ s.io)
        × (t.regions ≡ s.regions)
  unfolding progress_read build_read_beat
  progress_read_shape s d = ground arith

  accept_w_shape :
      (s : Bus) (d : State)
      → let t = (accept_w devices width (s, d)).0 in
        let w = s.w_pending in
        let take = s.io.w.wvalid && (s.io.w.wready && w.active) in
        let done = take && (s.io.w.wlast || w.beat_idx == w.len) in
        (t.r_pending ≡ s.r_pending)
        × (t.io ≡ s.io)
        × (t.regions ≡ s.regions)
        × (t.w_pending.active ≡ (w.active && not done))
        × (t.w_pending.len ≡ w.len)
        × (t.w_pending.beat_idx ≡ (if take then u8 (w.beat_idx + 1) else w.beat_idx))
        × (t.w_resp.active ≡ (done || s.w_resp.active))
        × (t.w_resp.latency_cnt ≡ (if done then 0 else s.w_resp.latency_cnt))
  unfolding accept_w
  accept_w_shape s d = ground arith

  seq-reading :
      (s : Bus) (d : State)
      → IsSettled s
      → s.io.ar.arlen < 256
      → IsReadValid s.r_pending
      → IsReadValid (read_half (s, d)).r_pending
  unfolding accept_ar consume_r
  seq-reading s d c la v =
      ground (arith, progress_read_shape (accept_ar s) (tick_all devices width s.regions d))

  pub seq-read_half :
      (s : Bus) (d : State) → (seq devices width (s, d)).0.r_pending ≡ (read_half (s, d)).r_pending
  unfolding seq accept_aw age_resp consume_b
  seq-read_half s d =
      let (s₁, d₁) =
        progress_read devices width (accept_ar s, tick_all devices width s.regions d) in
      ground (arith, accept_w_shape (accept_aw (consume_r s₁)) d₁)

  read_half-write :
      (s : Bus) (d : State)
      → let t = read_half (s, d) in
        (t.w_pending ≡ s.w_pending) × (t.w_resp ≡ s.w_resp) × (t.io ≡ s.io)
  unfolding accept_ar consume_r
  read_half-write s d =
      ground (arith, progress_read_shape (accept_ar s) (tick_all devices width s.regions d))

  -- The write half of the clock edge.
  abbrev write_half : Bus × State → Bus
  write_half (s, d) = consume_b (age_resp (accept_w devices width (accept_aw s, d)).0)

  write_half-writing :
      (s : Bus) (d : State)
      → (s.io.aw.awready ≡ true → (s.w_pending.active ≡ false) × (s.w_resp.active ≡ false))
      → s.io.aw.awlen < 256
      → IsWriteValid s.w_pending s.w_resp
      → IsWriteValid (write_half (s, d)).w_pending (write_half (s, d)).w_resp
  unfolding accept_aw age_resp consume_b
  write_half-writing s d c lw v = ground (arith, accept_w_shape (accept_aw s) d)

  seq-writing :
      (s : Bus) (d : State)
      → IsSettled s
      → s.io.aw.awlen < 256
      → IsWriteValid s.w_pending s.w_resp
      → IsWriteValid (seq devices width (s, d)).0.w_pending (seq devices width (s, d)).0.w_resp
  unfolding seq
  seq-writing s d c lw v =
      let d₁ = (progress_read devices width (accept_ar s, tick_all devices width s.regions d)).1 in
      let (same_w, same_resp, same_io) = read_half-write s d in
      write_half-writing (read_half (s, d)) d₁ (rw (same_w, same_resp, same_io) (ground arith))
        (rw same_io lw) (rw (same_w, same_resp) v)

  seq-IsValid :
      (s : Bus) (d : State)
      → IsSettled s
      → s.io.ar.arlen < 256
      → s.io.aw.awlen < 256
      → IsValid s
      → IsValid (seq devices width (s, d)).0
  seq-IsValid s d c la lw v = record {
    reading = rw (seq-read_half s d) (seq-reading s d c la v.reading);
    writing = seq-writing s d c lw v.writing;
  }

  -- Whatever a master drives within its wires, and whatever the devices answer, a clock cycle keeps
  -- both bursts within their lengths and the bus with one write in hand at most.
  pub cycle-IsValid :
      (m : Io) (s : Bus) (d : State) → IsWire m → IsValid s → IsValid (cycle m (s, d)).0
  unfolding cycle settle comb_inputs offer
  cycle-IsValid m s d w v =
      seq-IsValid (settle m s) d (settle-IsSettled m s) w.arlen_byte w.awlen_byte
        (settle-IsValid m s v)

  -- Write bursts in hand: taken and not answered.
  abbrev pub in_hand : Bus → ℕ
  in_hand s = one_if s.w_pending.active + one_if s.w_resp.active

  seq-in_hand :
      (s : Bus) (d : State)
      → IsSettled s
      → IsValid s
      → one_if (b_fires s.io.b) + in_hand (seq devices width (s, d)).0
        ≡ in_hand s + one_if (aw_fires s.io.aw)
  unfolding seq accept_ar consume_r accept_aw age_resp consume_b
  seq-in_hand s d c v =
      let (s₁, d₁) =
        progress_read devices width (accept_ar s, tick_all devices width s.regions d) in
      ground (
        arith,
        progress_read_shape (accept_ar s) (tick_all devices width s.regions d),
        accept_w_shape (accept_aw (consume_r s₁)) d₁,
      )

  cycle-in_hand :
      (m : Io) (s : Bus) (d : State)
      → IsValid s
      → one_if (b_fires (settle m s).io.b) + in_hand (cycle m (s, d)).0
        ≡ in_hand s + one_if (aw_fires (settle m s).io.aw)
  unfolding cycle settle comb_outputs comb_inputs
  cycle-in_hand m s d v = seq-in_hand (settle m s) d (settle-IsSettled m s) (settle-IsValid m s v)

  unfoldable pub run : List Io → Bus × State → Bus × State
  run [] s = s
  run (m ∷ ms) s = run ms (cycle m s)

  pub writes_taken : List Io → Bus × State → ℕ
  writes_taken [] s = 0
  writes_taken (m ∷ ms) s = one_if (aw_fires (settle m s.0).io.aw) + writes_taken ms (cycle m s)

  pub writes_answered : List Io → Bus × State → ℕ
  writes_answered [] s = 0
  writes_answered (m ∷ ms) s = one_if (b_fires (settle m s.0).io.b) + writes_answered ms (cycle m s)

  -- Over any number of cycles, with a master that stays within its wires and whatever the devices
  -- answer, the write responses that the master takes and the write still in hand are together the
  -- write in hand at the start and the write addresses accepted since: each write is answered once.
  pub run-in_hand :
      (ms : List Io) (s : Bus) (d : State)
      → IsValid s
      → AllWire ms
      → writes_answered ms (s, d) + in_hand (run ms (s, d)).0 ≡ in_hand s + writes_taken ms (s, d)
  unfolding run writes_answered writes_taken
  run-in_hand [] s d v w = omega arith
  run-in_hand (m ∷ ms) s d v w =
      let (s', d') = cycle m (s, d) in
      omega (arith, cycle-in_hand m s d v, run-in_hand ms s' d' (cycle-IsValid m s d w.0 v) w.1)
