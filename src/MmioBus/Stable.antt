-- ===== src/MmioBus/Stable.antt =====
-- mmio/MMIO_Bus_AXI4.cpp: the responses on offer from one cycle to the next.
use axi_interconnect_kit.Axi.{Io, R, B, offer}
use axi_interconnect_kit.MmioDevice.{Devices}
use axi_interconnect_kit.MmioBus.{
  Bus, comb_outputs, comb_inputs, seq, accept_ar, consume_r, progress_read, accept_aw, accept_w,
  age_resp, consume_b, latency, tick_all,
}
use axi_interconnect_kit.MmioBus.Invariant.{
  settle, cycle, settle-shape, read_half, seq-read_half, IsValid, settle-IsValid,
  progress_read_shape,
}
use axi_interconnect_kit.Prelude.{arith, false, leb, true, ℕ, ◌≡◌, ◌∙◌}

-- What the master sees of a response.
abbrev SameR : R → R → Type 0
SameR a b =
    (a.rvalid ≡ b.rvalid)
    × (a.rid ≡ b.rid)
    × (a.rdata ≡ b.rdata)
    × (a.rresp ≡ b.rresp)
    × (a.rlast ≡ b.rlast)

abbrev SameB : B → B → Type 0
SameB a b = (a.bvalid ≡ b.bvalid) × (a.bid ≡ b.bid) × (a.bresp ≡ b.bresp)

-- The responses offered depend on the pending bursts alone.
settle-SameR :
    (m m' : Io) (s s' : Bus)
    → s'.r_pending ≡ s.r_pending
    → SameR (settle m' s').io.r (settle m s).io.r
unfolding settle comb_outputs comb_inputs offer
settle-SameR m m' s s' e = ground arith

settle-SameB :
    (m m' : Io) (s s' : Bus) → s'.w_resp ≡ s.w_resp → SameB (settle m' s').io.b (settle m s).io.b
unfolding settle comb_outputs comb_inputs offer
settle-SameB m m' s s' e = ground arith

-- What an offered response says of the state, and the ready signals that the master keeps low.
offered-r :
    (m : Io) (s : Bus)
    → (settle m s).io.r.rvalid ≡ true
    → m.r.rready ≡ false
    → ((settle m s).io.ar.arready ≡ false)
      × ((settle m s).io.r.rready ≡ false)
      × ((settle m s).r_pending.beat_valid ≡ true)
unfolding settle comb_outputs comb_inputs offer
offered-r m s v r = ground arith

offered-b :
    (m : Io) (s : Bus)
    → (settle m s).io.b.bvalid ≡ true
    → m.b.bready ≡ false
    → ((settle m s).io.aw.awready ≡ false)
      × ((settle m s).io.b.bready ≡ false)
      × ((settle m s).w_resp.active ≡ true)
      × (leb latency (settle m s).w_resp.latency_cnt ≡ true)
unfolding settle comb_outputs comb_inputs offer
offered-b m s v r = ground arith

module _ (devices : Devices) (width : ℕ) where
  open devices use {State}

  read_half-held :
      (s : Bus) (d : State)
      → s.io.ar.arready ≡ false
      → s.io.r.rready ≡ false
      → s.r_pending.beat_valid ≡ true
      → (read_half devices width (s, d)).r_pending ≡ s.r_pending
  unfolding accept_ar consume_r progress_read
  read_half-held s d a r v = ground arith

  -- A read beat that is offered and not taken is offered unchanged in the next cycle, whatever the
  -- master drives then and whatever the devices answer.
  settle-r_held :
      (m m' : Io) (s : Bus) (d : State)
      → (settle m s).io.r.rvalid ≡ true
      → m.r.rready ≡ false
      → SameR (settle m' (cycle devices width m (s, d)).0).io.r (settle m s).io.r
  unfolding cycle
  settle-r_held m m' s d v r =
      let t = settle m s in
      let h = offered-r m s v r in
      settle-SameR m m' s (seq devices width (t, d)).0
        (seq-read_half devices width t d ∙ read_half-held t d h.0 h.1 h.2 ∙ (settle-shape m s).0)

  write_half-held :
      (s : Bus) (d : State)
      → s.io.aw.awready ≡ false
      → s.io.b.bready ≡ false
      → s.w_pending.active ≡ false
      → leb latency s.w_resp.latency_cnt ≡ true
      → (consume_b (age_resp (accept_w devices width (accept_aw s, d)).0)).w_resp ≡ s.w_resp
  unfolding accept_aw age_resp consume_b accept_w
  write_half-held s d a r w l = ground arith

  seq-w_resp_held :
      (s : Bus) (d : State)
      → s.io.aw.awready ≡ false
      → s.io.b.bready ≡ false
      → s.w_pending.active ≡ false
      → leb latency s.w_resp.latency_cnt ≡ true
      → (seq devices width (s, d)).0.w_resp ≡ s.w_resp
  unfolding seq accept_ar consume_r
  seq-w_resp_held s d a r w l =
      let d' = tick_all devices width s.regions d in
      let s₁ = (progress_read devices width (accept_ar s, d')).0 in
      let d₁ = (progress_read devices width (accept_ar s, d')).1 in
      ground (
        arith,
        progress_read_shape devices width (accept_ar s) d',
        write_half-held (consume_r s₁) d₁,
      )

  -- On a bus that is well formed, a write response that is offered and not taken is offered unchanged
  -- in the next cycle, whatever the master drives then and whatever the devices answer.
  settle-b_held :
      (m m' : Io) (s : Bus) (d : State)
      → IsValid s
      → (settle m s).io.b.bvalid ≡ true
      → m.b.bready ≡ false
      → SameB (settle m' (cycle devices width m (s, d)).0).io.b (settle m s).io.b
  unfolding cycle
  settle-b_held m m' s d g v r =
      let t = settle m s in
      let h = offered-b m s v r in
      let w = settle-IsValid m s g in
      settle-SameB m m' s (seq devices width (t, d)).0 (
        seq-w_resp_held t d h.0 h.1 (let o = w.writing.one_write in let a = h.2 in ground arith) h.3
        ∙ (settle-shape m s).2)
