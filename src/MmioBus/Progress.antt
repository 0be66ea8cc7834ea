-- ===== src/MmioBus/Progress.antt =====
-- mmio/MMIO_Bus_AXI4.cpp: the cycles and beats of a read burst.
use axi_interconnect_kit.Axi.{Io, offer, r_fires}
use axi_interconnect_kit.MmioDevice.{Devices}
use axi_interconnect_kit.MmioBus.{
  Bus, PendingRead, comb_outputs, comb_inputs, accept_ar, consume_r, tick_all,
}
use axi_interconnect_kit.MmioBus.Invariant.{
  IsReadValid, IsValid, AllWire, IsSettled, settle, cycle, run, read_half, progress_read_shape,
  seq-read_half, settle-IsSettled, settle-IsValid, cycle-IsValid,
}
use axi_interconnect_kit.Prelude.{
  List, [], arith, false, if◌then◌else◌, length, one_if, true, ℕ, ◌*◌, ◌+◌, ◌-◌, ◌∷◌, ◌≡◌,
}

-- The cycles that a burst still takes with a master that is always ready, and its beats to come.
abbrev pub cycles_left : PendingRead → ℕ
cycles_left r = if r.active then 2 * (r.len - r.beat_idx) + (if r.beat_valid then 1 else 2) else 0

abbrev pub beats_left : PendingRead → ℕ
beats_left r = if r.active then r.len + 1 - r.beat_idx else 0

abbrev pub AllReady : List Io → Type 0
AllReady [] = Unit
AllReady (m ∷ ms) = (m.r.rready ≡ true) × AllReady ms

module _ (devices : Devices) (width : ℕ) where
  open devices use {State}

  read_half-left :
      (s : Bus) (d : State)
      → IsSettled s
      → IsReadValid s.r_pending
      → s.io.r.rready ≡ true
      → s.r_pending.active ≡ true
      → let r = (read_half devices width (s, d)).r_pending in
        (cycles_left r + 1 ≡ cycles_left s.r_pending)
        × (beats_left r + one_if (r_fires s.io.r) ≡ beats_left s.r_pending)
  unfolding accept_ar consume_r
  read_half-left s d c v ready on =
      ground (
        arith,
        progress_read_shape devices width (accept_ar s) (tick_all devices width s.regions d),
      )

  cycle-left :
      (m : Io) (s : Bus) (d : State)
      → IsValid s
      → m.r.rready ≡ true
      → s.r_pending.active ≡ true
      → let r = (cycle devices width m (s, d)).0.r_pending in
        (cycles_left r + 1 ≡ cycles_left s.r_pending)
        × (beats_left r + one_if (r_fires (settle m s).io.r) ≡ beats_left s.r_pending)
  unfolding cycle settle comb_inputs comb_outputs offer
  cycle-left m s d v ready on =
      rw (seq-read_half devices width (settle m s) d) (
        read_half-left (settle m s) d (settle-IsSettled m s) (settle-IsValid m s v).reading ready
          on)

  pub beats_given : List Io → Bus × State → ℕ
  beats_given [] s = 0
  beats_given (m ∷ ms) s =
      one_if (r_fires (settle m s.0).io.r) + beats_given ms (cycle devices width m s)

  -- A read burst in hand, with a master that is ready in every cycle: after exactly two cycles a beat,
  -- less one where a beat is already waiting, the burst is over, and the master has taken all of the
  -- `len + 1` beats that were still due, whatever the devices answer.
  pub run-read_ends :
      (ms : List Io) (s : Bus) (d : State)
      → IsValid s
      → AllWire ms
      → AllReady ms
      → length ms ≡ cycles_left s.r_pending
      → ((run devices width ms (s, d)).0.r_pending.active ≡ false)
        × (beats_given ms (s, d) ≡ beats_left s.r_pending)
  unfolding run beats_given
  run-read_ends [] s d v w a h = ground arith
  run-read_ends (m ∷ ms) s d v w a h =
      let (s', d') = cycle devices width m (s, d) in
      let (fewer, due) = cycle-left m s d v a.0 (ground arith) in
      let (over, got) =
        run-read_ends ms s' d' (cycle-IsValid devices width m s d w.0 v) w.1 a.1 (omega arith) in
      (over, omega arith)
