-- ===== src/Interconnect/Writes/Handshake.antt =====
-- axi_interconnect/AXI_Interconnect.cpp: the responses that the two ports give in one cycle.
use axi_interconnect_kit.Axi.{b_fires}
use axi_interconnect_kit.Interconnect.{Build, DownstreamPort}
use axi_interconnect_kit.Interconnect.State.{State, WritePendingTxn, WriteRespEntry}
use axi_interconnect_kit.Interconnect.Writes.{
  end_write, enqueue_write_resp, entry_of, handle_b_handshake, bid, write_resp_buffer_has_space,
  has_axi_id, write_resp_buffer_count, find_in, find_write_pending_by_axi_id, push_response,
}
use axi_interconnect_kit.Interconnect.Writes.Search.{first_in, entry-find}
use axi_interconnect_kit.Llc.{Limits, num_write_masters}
use native.Mathlib.Decide.{ℕ_discrete}
use axi_interconnect_kit.Prelude.{
  List, Option, [], and-true, ap, false, if◌then◌else◌, ltb, ltb→lt, lt→ltb, none, refl, some, true,
  ℕ, ◌++◌, ◌<◌, ◌==◌, ◌∙◌, ◌∷◌, ◌≡◌, ◌≢◌, ==_ne, ==_self, Bool-cases, Option-cases, inl, inr, subst,
  sym,
}
use axi_interconnect_kit.Interconnect.Writes.Laws.{
  IsPacked, waiting, enqueue_other, enqueue_self, push_response-IsPacked, push_response-waiting,
}
use mathlib.Core.List.{append-nil}

-- What a response means for a master: its own ID with the code, or nothing.
unfoldable pub resp_for : ℕ → ℕ → Option WritePendingTxn → List (ℕ × ℕ)
resp_for m resp none = []
resp_for m resp (some txn) = if txn.master_id == m then (txn.orig_id, resp) ∷ [] else []

-- The write that a port's response is for.
unfoldable pub answered_txn : Build → State → DownstreamPort → Option WritePendingTxn
answered_txn build s port = first_in (has_axi_id port (bid build s port)) s.w_pending

-- The responses that a master is owed by the handshake of a port.
unfoldable pub answered : Build → State → DownstreamPort → ℕ → List (ℕ × ℕ)
answered build s port m =
    let b = (s.downstream port).b in
    if b_fires b then resp_for m b.bresp (answered_txn build s port) else []

pub has_space-master :
    (limits : Limits) (s : State) (m : ℕ)
    → write_resp_buffer_has_space limits s m ≡ true
    → m < num_write_masters
unfolding write_resp_buffer_has_space
has_space-master limits s m h =
    ltb→lt m num_write_masters (and-true (ltb m num_write_masters) _ h).0

pub has_space_same :
    (limits : Limits) (s t : State) (m : ℕ)
    → s.resp_buffer m ≡ t.resp_buffer m
    → write_resp_buffer_has_space limits s m ≡ write_resp_buffer_has_space limits t m
unfolding write_resp_buffer_has_space write_resp_buffer_count
has_space_same limits s t m e = rw e refl

pub entry_of-none {ℓ} : {A : Type ℓ} (xs : List A) {x : A} → entry_of xs none ≡ some x → ⊥
unfolding entry_of
entry_of-none xs e = absurd (cc)

module _ (limits : Limits) where
  end_write-buffer :
      (s : State) (i : ℕ) (txn : WritePendingTxn) (resp : ℕ)
      → txn.master_id < num_write_masters
      → (end_write limits s (some i) (some txn) resp).resp_buffer
        ≡ (enqueue_write_resp limits s txn.master_id (record {
          id = txn.orig_id;
          resp = resp;
          line_valid = false;
          line_addr = 0;
        })).resp_buffer
  unfolding end_write
  end_write-buffer s i txn resp l = rw (lt→ltb txn.master_id num_write_masters l) refl

  pub end_write_other :
      (s : State) (i : ℕ) (txn : WritePendingTxn) (resp m : ℕ)
      → txn.master_id < num_write_masters
      → txn.master_id ≢ m
      → (end_write limits s (some i) (some txn) resp).resp_buffer m ≡ s.resp_buffer m
  end_write_other s i txn resp m l n =
      ap (λ f. f m) (end_write-buffer s i txn resp l) ∙ enqueue_other limits s txn.master_id _ m n

  end_write_self :
      (s : State) (i : ℕ) (txn : WritePendingTxn) (resp : ℕ)
      → write_resp_buffer_has_space limits s txn.master_id ≡ true
      → (end_write limits s (some i) (some txn) resp).resp_buffer txn.master_id
        ≡ push_response true
            (record { id = txn.orig_id; resp = resp; line_valid = false; line_addr = 0 })
            (s.resp_buffer txn.master_id)
  end_write_self s i txn resp h =
      let l = has_space-master limits s txn.master_id h in
      let e : WriteRespEntry = record {
        id = txn.orig_id;
        resp = resp;
        line_valid = false;
        line_addr = 0;
      } in
      ap (λ f. f txn.master_id) (end_write-buffer s i txn resp l)
      ∙ enqueue_self limits s txn.master_id e l
      ∙ ap (λ b. push_response b e (s.resp_buffer txn.master_id)) h

  end_write-waiting :
      (s : State) (i : ℕ) (txn : WritePendingTxn) (resp m : ℕ)
      → write_resp_buffer_has_space limits s txn.master_id ≡ true
      → IsPacked (s.resp_buffer m)
      → (waiting ((end_write limits s (some i) (some txn) resp).resp_buffer m)
          ≡ waiting (s.resp_buffer m) ++ resp_for m resp (some txn))
        × IsPacked ((end_write limits s (some i) (some txn) resp).resp_buffer m)
  unfolding resp_for
  end_write-waiting s i txn resp m h p = elim (ℕ_discrete txn.master_id m) [
    | yes q ↦
        subst
          (λ k.
            IsPacked (s.resp_buffer k)
            → (waiting ((end_write limits s (some i) (some txn) resp).resp_buffer k)
                ≡ waiting (s.resp_buffer k)
                  ++ (if txn.master_id == k then (txn.orig_id, resp) ∷ [] else []))
              × IsPacked ((end_write limits s (some i) (some txn) resp).resp_buffer k))
          q
          (λ p'.
            let e : WriteRespEntry = record {
              id = txn.orig_id;
              resp = resp;
              line_valid = false;
              line_addr = 0;
            } in
            let self = end_write_self s i txn resp h in
            (
              rw (self, ==_self txn.master_id)
                  (push_response-waiting e (s.resp_buffer txn.master_id) p'),
              subst IsPacked (sym self)
                  (push_response-IsPacked true e (s.resp_buffer txn.master_id) p'),
            ))
          p
    | no n ↦
        let other = end_write_other s i txn resp m (has_space-master limits s txn.master_id h) n in
        (
          rw (other, ==_ne txn.master_id m n) (sym (append-nil (waiting (s.resp_buffer m)))),
          subst IsPacked (sym other) p,
        )
  ]

-- A response that a port gives is that of a pending write whose master has space for it.
unfoldable pub IsReady : Limits → Build → State → DownstreamPort → Type 0
IsReady limits build s port =
    b_fires (s.downstream port).b ≡ true
    → (txn : WritePendingTxn) × (answered_txn build s port ≡ some txn)
      × (write_resp_buffer_has_space limits s txn.master_id ≡ true)

module _ (limits : Limits) (build : Build) (s : State) (port : DownstreamPort) where
  -- The handshake of a port that gives a response, and of one that does not.
  pub handle-fires :
      (txn : WritePendingTxn)
      → b_fires (s.downstream port).b ≡ true
      → answered_txn build s port ≡ some txn
      → (i : ℕ) × (find_in (has_axi_id port (bid build s port)) s.w_pending ≡ some i)
        × (handle_b_handshake limits build s port
            ≡ end_write limits s (some i) (some txn) (s.downstream port).b.bresp)
  unfolding handle_b_handshake find_write_pending_by_axi_id answered_txn
  handle-fires txn f a =
      let p = has_axi_id port (bid build s port) in
      let at : entry_of s.w_pending (find_in p s.w_pending) ≡ some txn =
        entry-find p s.w_pending ∙ a in
      elim (Option-cases (find_in p s.w_pending)) [
        | inl e ↦
            let z : entry_of s.w_pending none ≡ some txn =
              subst (λ o. entry_of s.w_pending o ≡ some txn) e at in
            absurd (entry_of-none s.w_pending z)
        | inr (i, e) ↦ (i, e, rw (f, at, e) refl)
      ]

  pub handle-idle :
      b_fires (s.downstream port).b ≡ false → handle_b_handshake limits build s port ≡ s
  unfolding handle_b_handshake
  handle-idle f = rw f refl

  pub handle-waiting :
      (m : ℕ)
      → IsReady limits build s port
      → IsPacked (s.resp_buffer m)
      → (waiting ((handle_b_handshake limits build s port).resp_buffer m)
          ≡ waiting (s.resp_buffer m) ++ answered build s port m)
        × IsPacked ((handle_b_handshake limits build s port).resp_buffer m)
  unfolding answered IsReady
  handle-waiting m r p = elim (Bool-cases (b_fires (s.downstream port).b)) [
    | inl f ↦
        let (txn, a, h) = r f in
        let (i, e, q) = handle-fires txn f a in
        rw (q, f, a) (end_write-waiting limits s i txn (s.downstream port).b.bresp m h p)
    | inr f ↦ rw (handle-idle f, f) (sym (append-nil (waiting (s.resp_buffer m))), p)
  ]
