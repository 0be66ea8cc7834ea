-- ===== src/Interconnect/Writes/Cycle.antt =====
-- axi_interconnect/AXI_Interconnect.cpp: the responses of a cycle, from the ready signals of
-- `comb_write_response` to the handshakes of `seq`, in the modes without the cache.
use axi_interconnect_kit.Axi.{Io, b_fires}
use axi_interconnect_kit.Interconnect.{Build, DownstreamPort, ddr, mmio, set_port}
use axi_interconnect_kit.Interconnect.State.{State, WritePendingTxn, WriteRespBuffer}
use axi_interconnect_kit.Interconnect.Writes.{
  b_ready, b_target, bid, both_to_one_master, can_accept_b, comb_write_response,
  drive_write_masters, end_write, find_write_pending_by_axi_id, entry_of, find_in,
  handle_b_handshake, has_axi_id, same_master, set_b_ready, write_resp_buffer_has_space,
  enqueue_write_resp,
}
use axi_interconnect_kit.Interconnect.Modes.{llc_enabled}
use axi_interconnect_kit.Interconnect.Writes.Search.{entry-find, first_in-same, ids_distinct}
use axi_interconnect_kit.Llc.{Limits}
use axi_interconnect_kit.Prelude.{
  false, not, refl, some, sym, true, ◌&&◌, ◌∙◌, ◌≡◌, Bool, Option, none, ◌||◌, and-true, ap, ◌≢◌,
  ==_self, if_cases, ltb, not-true, ℕ, Bool-cases, inl, inr, subst, ◌++◌,
}
use axi_interconnect_kit.Interconnect.Writes.Handshake.{
  answered_txn, has_space_same, IsReady, has_space-master, end_write_other, handle-fires,
  handle-idle, answered, handle-waiting,
}
use axi_interconnect_kit.Interconnect.Writes.Laws.{IsPacked, waiting}
use mathlib.Core.List.{append_assoc}
use axi_interconnect_kit.Interconnect.Writes.Frame.{answered_same, end_write-frame, ended-answered}

module _ (limits : Limits) (build : Build) (s : State) where
  -- What a ready port says of its response.
  ready-target :
      (port : DownstreamPort)
      → (s.downstream port).b.bvalid ≡ true
      → b_ready limits build s port ≡ true
      → (txn : WritePendingTxn) × (b_target build s port ≡ some txn)
        × (write_resp_buffer_has_space limits s txn.master_id ≡ true)
  unfolding b_ready can_accept_b
  ready-target port v r =
      helper (b_target build s port) refl (skip (s.downstream port).b.bvalid v r)
    where
      skip : (v : Bool) {a : Bool} → v ≡ true → not v || a ≡ true → a ≡ true
      skip true e h = h
      skip false e h = absurd (cc)

      helper :
          (o : Option WritePendingTxn)
          → b_target build s port ≡ o
          → can_accept_b limits build s o ≡ true
          → (txn : WritePendingTxn) × (b_target build s port ≡ some txn)
            × (write_resp_buffer_has_space limits s txn.master_id ≡ true)
      helper none e h = absurd (cc)
      helper (some txn) e h = (txn, e, h)

  -- The write that is meant is the one that the handshake finds.
  target-answered :
      (port : DownstreamPort) (txn : WritePendingTxn)
      → ids_distinct s.w_pending ≡ true
      → b_target build s port ≡ some txn
      → answered_txn build s port ≡ some txn
  unfolding b_target answered_txn
  target-answered port txn d t =
      first_in-same port (bid build s port) _ s.w_pending txn d (sym (entry-find _ s.w_pending) ∙ t)

  -- The state after the signals are driven.
  abbrev pub driven : State
  driven = set_b_ready (drive_write_masters s) (b_ready limits build s ddr) (
      b_ready limits build s mmio
      && not (
          both_to_one_master build s
          && (b_ready limits build s ddr && b_ready limits build s mmio)))

  pub comb-driven : llc_enabled s ≡ false → comb_write_response limits build s ≡ driven
  unfolding comb_write_response
  comb-driven e = rw e refl

  driven_ready :
      (port : DownstreamPort)
      → b_fires (driven.downstream port).b ≡ true
      → ((s.downstream port).b.bvalid ≡ true) × (b_ready limits build s port ≡ true)
  unfolding set_b_ready drive_write_masters set_port
  driven_ready ddr f = and-true (s.downstream ddr).b.bvalid _ f
  driven_ready mmio f =
      let a = and-true (s.downstream mmio).b.bvalid _ f in
      (a.0, (and-true (b_ready limits build s mmio) _ a.1).0)

  driven-answered :
      (port : DownstreamPort) → answered_txn build driven port ≡ answered_txn build s port
  unfolding set_b_ready drive_write_masters set_port answered_txn
  driven-answered ddr = refl
  driven-answered mmio = refl

  driven-buffer : driven.resp_buffer ≡ s.resp_buffer
  unfolding set_b_ready drive_write_masters
  driven-buffer = refl

  -- A port that gives its response gives that of its target.
  driven-target :
      (port : DownstreamPort)
      → ids_distinct s.w_pending ≡ true
      → b_fires (driven.downstream port).b ≡ true
      → (txn : WritePendingTxn) × (b_target build s port ≡ some txn)
        × (answered_txn build driven port ≡ some txn)
        × (write_resp_buffer_has_space limits driven txn.master_id ≡ true)
  driven-target port d f =
      let (v, r) = driven_ready port f in
      let (txn, t, h) = ready-target port v r in
      (
        txn,
        t,
        driven-answered port ∙ target-answered port txn d t,
        has_space_same limits driven s txn.master_id (ap (λ g. g txn.master_id) driven-buffer) ∙ h,
      )

  one_master :
      (a b : WritePendingTxn)
      → (s.downstream ddr).b.bvalid ≡ true
      → (s.downstream mmio).b.bvalid ≡ true
      → b_target build s ddr ≡ some a
      → b_target build s mmio ≡ some b
      → a.master_id ≡ b.master_id
      → both_to_one_master build s ≡ true
  unfolding both_to_one_master same_master
  one_master a b v w t u q = rw (v, w, t, u, q) (==_self b.master_id)

  not_both :
      b_fires (driven.downstream mmio).b ≡ true
      → both_to_one_master build s && (b_ready limits build s ddr && b_ready limits build s mmio)
        ≡ false
  unfolding set_b_ready drive_write_masters set_port
  not_both g =
      not-true _
        (and-true (b_ready limits build s mmio) _ (and-true (s.downstream mmio).b.bvalid _ g).1).1

  -- Two ports that both give their responses give them to different masters.
  different :
      (a b : WritePendingTxn)
      → b_fires (driven.downstream ddr).b ≡ true
      → b_fires (driven.downstream mmio).b ≡ true
      → b_target build s ddr ≡ some a
      → b_target build s mmio ≡ some b
      → a.master_id ≢ b.master_id
  different a b f g t u = λ q.
      let (v, r) = driven_ready ddr f in
      let (w, k) = driven_ready mmio g in
      let both = one_master a b v w t u q in let free = not_both g in absurd (cc)

  -- The end of the DDR's write leaves what the other port needs.
  ended-IsReady :
      (i : ℕ) (a : WritePendingTxn) (resp : ℕ)
      → ids_distinct s.w_pending ≡ true
      → b_fires (driven.downstream ddr).b ≡ true
      → find_in (has_axi_id ddr (bid build driven ddr)) driven.w_pending ≡ some i
      → b_target build s ddr ≡ some a
      → write_resp_buffer_has_space limits driven a.master_id ≡ true
      → IsReady limits build (end_write limits driven (some i) (some a) resp) mmio
        × (answered_txn build (end_write limits driven (some i) (some a) resp) mmio
            ≡ answered_txn build driven mmio)
  unfolding IsReady
  ended-IsReady i a resp d f e t h =
      let l = has_space-master limits driven a.master_id h in
      let same = ended-answered limits build driven i a resp l e in
      let fr = end_write-frame limits build driven i a resp l in
      (
        λ g.
            let g' : b_fires (driven.downstream mmio).b ≡ true =
              subst (λ (dn : DownstreamPort → Io). b_fires (dn mmio).b ≡ true) fr.0 g in
            let (b, u, at, k) = driven-target mmio d g' in
            let ne = different a b f g' t u in
            (
              b,
              same ∙ at,
              has_space_same limits (end_write limits driven (some i) (some a) resp) driven
                    b.master_id (end_write_other limits driven i a resp b.master_id l ne)
                  ∙ k,
            ),
        same,
      )

  -- The DDR's response, and then that of MMIO.
  driven-IsReady_ddr : ids_distinct s.w_pending ≡ true → IsReady limits build driven ddr
  unfolding IsReady
  driven-IsReady_ddr d = λ f. let (a, t, at, h) = driven-target ddr d f in (a, at, h)

  after-IsReady_mmio :
      ids_distinct s.w_pending ≡ true
      → IsReady limits build (handle_b_handshake limits build driven ddr) mmio
        × ((m : ℕ)
            → answered build (handle_b_handshake limits build driven ddr) mmio m
              ≡ answered build driven mmio m)
  unfolding IsReady answered
  after-IsReady_mmio d = elim (Bool-cases (b_fires (driven.downstream ddr).b)) [
    | inl f ↦
        let (a, t, at, h) = driven-target ddr d f in
        let (i, e, q) = handle-fires limits build driven ddr a f at in
        let r = ended-IsReady i a (driven.downstream ddr).b.bresp d f e t h in
        let l = has_space-master limits driven a.master_id h in
        let fr = end_write-frame limits build driven i a (driven.downstream ddr).b.bresp l in
        rw q (r.0, λ m. answered_same build _ driven m fr.0 r.1)
    | inr f ↦
        rw (handle-idle limits build driven ddr f)
          (λ g. let (b, u, at, k) = driven-target mmio d g in (b, at, k), λ m. refl)
  ]

  -- Both handshakes.
  pub driven-waiting :
      (m : ℕ)
      → ids_distinct s.w_pending ≡ true
      → IsPacked (s.resp_buffer m)
      → let last =
          handle_b_handshake limits build (handle_b_handshake limits build driven ddr) mmio in
        (waiting (last.resp_buffer m)
          ≡ waiting (s.resp_buffer m)
            ++ (answered build driven ddr m ++ answered build driven mmio m))
        × IsPacked (last.resp_buffer m)
  driven-waiting m d p =
      let mid = handle_b_handshake limits build driven ddr in
      let first =
        handle-waiting limits build driven ddr m (driven-IsReady_ddr d)
          (subst (λ (f : ℕ → WriteRespBuffer). IsPacked (f m)) (sym driven-buffer) p) in
      let (r, a) = after-IsReady_mmio d in
      let second = handle-waiting limits build mid mmio m r first.1 in
      (
        second.0
            ∙ ap (λ w. w ++ answered build mid mmio m) first.0
            ∙ ap (λ w. (waiting (driven.resp_buffer m) ++ answered build driven ddr m) ++ w) (a m)
            ∙ append_assoc (waiting (driven.resp_buffer m)) (answered build driven ddr m)
                (answered build driven mmio m)
            ∙ ap
                (λ (f : ℕ → WriteRespBuffer).
                  waiting (f m) ++ (answered build driven ddr m ++ answered build driven mmio m))
                driven-buffer,
        second.1,
      )

  -- The handshakes leave the signals towards the masters.
  end_write-resp :
      (t : State) (o : Option ℕ) (a : Option WritePendingTxn) (resp : ℕ)
      → (end_write limits t o a resp).write_resp ≡ t.write_resp
  unfolding end_write enqueue_write_resp
  end_write-resp t none a resp = refl
  end_write-resp t (some i) none resp = refl
  end_write-resp t (some i) (some a) resp = elim (Bool-cases (ltb a.master_id 2)) [
    | inl e ↦ rw e refl
    | inr e ↦ rw e refl
  ]

  pub handle-resp :
      (t : State) (port : DownstreamPort)
      → (handle_b_handshake limits build t port).write_resp ≡ t.write_resp
  unfolding handle_b_handshake
  handle-resp t port =
      if_cases (λ (r : State). r.write_resp ≡ t.write_resp) (b_fires (t.downstream port).b) _ _
        (λ e.
          let found = find_write_pending_by_axi_id t port (bid build t port) in
          end_write-resp t found (entry_of t.w_pending found) (t.downstream port).b.bresp)
        (λ e. refl)
