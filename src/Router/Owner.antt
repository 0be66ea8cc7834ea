-- ===== src/Router/Owner.antt =====
-- The bookkeeping of axi_interconnect/AXI_Router_AXI4.cpp over many cycles: the owner of an AXI ID, and
-- counts of requests and responses.
use axi_interconnect_kit.Prelude.{
  ℕ, ◌+◌, ◌≤◌, ◌≡◌, refl, subst, Bool, true, false, ◌&&◌, ◌==◌, if◌then◌else◌, List, [], ◌∷◌, arith,
  one_if, ◌⊎◌,
}
use axi_interconnect_kit.Axi.{R, offer, aw_fires, b_fires, ar_fires, r_fires}
use axi_interconnect_kit.MmioMap.{MmioRange}
use axi_interconnect_kit.Router.{Router, Ports, comb_outputs, comb_inputs, seq, init}
use axi_interconnect_kit.Router.Cycle.{Drive, settle, cycle, run}

module _ (config : MmioRange) where
  -- A read response reaches the master from exactly one slave: it moves at the master exactly when it
  -- moves at that slave, nothing moves at the other slave, and a response that the master sees is that
  -- slave's, with its data, code and last flag, and has an ID that this slave owns.
  pub settle-r_routed :
      (s : Router) (d : Drive)
      → let (s', q) = settle config s d in
        let src : R = if s'.r_drive_to_mmio then q.mmio.r else q.ddr.r in
        let other : R = if s'.r_drive_to_mmio then q.ddr.r else q.mmio.r in
        (r_fires q.up.r ≡ r_fires src)
        × (r_fires other ≡ false)
        × ((q.up.r.rvalid ≡ false)
            ⊎ (q.up.r.rid ≡ src.rid)
              × (q.up.r.rdata ≡ src.rdata)
              × (q.up.r.rresp ≡ src.rresp)
              × (q.up.r.rlast ≡ src.rlast)
              × (s.r_route_valid src.rid ≡ true)
              × (s.r_route_to_mmio src.rid ≡ s'.r_drive_to_mmio))
  unfolding settle comb_outputs comb_inputs offer
  settle-r_routed s d = ground arith

  abbrev pub ar_taken : Router → Drive → ℕ → ℕ
  ar_taken s d i = let q = (settle config s d).1 in one_if (ar_fires q.up.ar && q.up.ar.arid == i)

  abbrev pub r_finished : Router → Drive → ℕ → ℕ
  r_finished s d i =
      let q = (settle config s d).1 in one_if (r_fires q.up.r && (q.up.r.rlast && q.up.r.rid == i))

  abbrev pub aw_taken : Router → Drive → ℕ
  aw_taken s d = one_if (aw_fires (settle config s d).1.up.aw)

  abbrev pub b_finished : Router → Drive → ℕ
  b_finished s d = one_if (b_fires (settle config s d).1.up.b)

  -- Sums over a run.
  pub reads_taken : Router → List Drive → ℕ → ℕ
  reads_taken s [] i = 0
  reads_taken s (d ∷ ds) i = ar_taken s d i + reads_taken (cycle config s d) ds i

  pub reads_finished : Router → List Drive → ℕ → ℕ
  reads_finished s [] i = 0
  reads_finished s (d ∷ ds) i = r_finished s d i + reads_finished (cycle config s d) ds i

  pub writes_taken : Router → List Drive → ℕ
  writes_taken s [] = 0
  writes_taken s (d ∷ ds) = aw_taken s d + writes_taken (cycle config s d) ds

  pub writes_finished : Router → List Drive → ℕ
  writes_finished s [] = 0
  writes_finished s (d ∷ ds) = b_finished s d + writes_finished (cycle config s d) ds

  -- The clock edge, for a response whose ID is routed.
  seq-reads :
      (s : Router) (p : Ports) (i : ℕ)
      → (p.up.r.rvalid ≡ true → s.r_route_valid p.up.r.rid ≡ true)
      → one_if (r_fires p.up.r && (p.up.r.rlast && p.up.r.rid == i))
          + one_if ((seq config s p).r_route_valid i)
        ≤ one_if (s.r_route_valid i) + one_if (ar_fires p.up.ar && p.up.ar.arid == i)
  unfolding seq
  seq-reads s p i h = ground arith

  settle-routed :
      (s : Router) (d : Drive)
      → let (s', q) = settle config s d in
        (s'.r_route_valid ≡ s.r_route_valid)
        × (q.up.r.rvalid ≡ true → s'.r_route_valid q.up.r.rid ≡ true)
  unfolding settle comb_outputs comb_inputs offer
  settle-routed s d = (refl, ground arith)

  cycle-reads :
      (s : Router) (d : Drive) (i : ℕ)
      → r_finished s d i + one_if ((cycle config s d).r_route_valid i)
        ≤ one_if (s.r_route_valid i) + ar_taken s d i
  unfolding cycle
  cycle-reads s d i =
      let (s', q) = settle config s d in
      let (same, routed) = settle-routed s d in
      subst
        (λ (v : ℕ → Bool).
          r_finished s d i + one_if ((seq config s' q).r_route_valid i)
          ≤ one_if (v i) + ar_taken s d i)
        same (seq-reads s' q i routed)

  cycle-writes :
      (s : Router) (d : Drive)
      → b_finished s d + one_if (cycle config s d).w_active ≡ one_if s.w_active + aw_taken s d
  unfolding cycle settle comb_outputs comb_inputs offer seq
  cycle-writes s d = ground arith

  run-reads :
      (s : Router) (ds : List Drive) (i : ℕ)
      → reads_finished s ds i + one_if ((run config s ds).r_route_valid i)
        ≤ one_if (s.r_route_valid i) + reads_taken s ds i
  unfolding run reads_finished reads_taken
  run-reads s [] i = omega arith
  run-reads s (d ∷ ds) i = omega (arith, cycle-reads s d i, run-reads (cycle config s d) ds i)

  run-writes :
      (s : Router) (ds : List Drive)
      → writes_finished s ds + one_if (run config s ds).w_active
        ≡ one_if s.w_active + writes_taken s ds
  unfolding run writes_finished writes_taken
  run-writes s [] = omega arith
  run-writes s (d ∷ ds) = omega (arith, cycle-writes s d, run-writes (cycle config s d) ds)

  -- Whatever master and slaves drive, in any number of cycles from reset the last beats that the
  -- master receives for an AXI ID are at most the read addresses that it had accepted for that ID,
  -- and one less than those at most if the ID is still routed.
  pub init-reads_balanced :
      (ds : List Drive) (i : ℕ)
      → reads_finished init ds i + one_if ((run config init ds).r_route_valid i)
        ≤ reads_taken init ds i
  unfolding init
  init-reads_balanced ds i = omega (arith, run-reads init ds i)

  -- Whatever master and slaves drive, in any number of cycles from reset the write responses that
  -- the master receives and the write that is still active together are exactly the write addresses
  -- that it had accepted: each write is answered once, and one is in flight at most.
  pub init-writes_balanced :
      (ds : List Drive)
      → writes_finished init ds + one_if (run config init ds).w_active ≡ writes_taken init ds
  unfolding init
  init-writes_balanced ds = omega (arith, run-writes init ds)
