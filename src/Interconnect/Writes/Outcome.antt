-- ===== src/Interconnect/Writes/Outcome.antt =====
-- axi_interconnect/AXI_Interconnect.cpp: what a cycle makes of the responses to writes, in the modes
-- without the cache.
use axi_interconnect_kit.Interconnect.{Build, ddr, mmio}
use axi_interconnect_kit.Interconnect.State.{State, WriteRespBuffer, WriteMasterResp}
use axi_interconnect_kit.Interconnect.Modes.{llc_enabled}
use axi_interconnect_kit.Interconnect.Writes.{
  comb_write_response, drive_write_masters, handle_b_handshake, promote_write_resp_queue,
  seq_write_responses, set_b_ready, take_responses,
}
use axi_interconnect_kit.Interconnect.Writes.Handshake.{answered}
use axi_interconnect_kit.Interconnect.Writes.Cycle.{
  driven, comb-driven, driven-waiting, handle-resp,
}
use axi_interconnect_kit.Interconnect.Writes.Search.{ids_distinct}
use axi_interconnect_kit.Llc.{Limits, num_write_masters}
use axi_interconnect_kit.Prelude.{
  Bool-cases, List, [], and-true, false, if◌then◌else◌, inl, inr, lt→ltb, refl, true, ℕ, ◌&&◌, ◌++◌,
  ◌<◌, ◌∙◌, ◌∷◌, ◌≡◌, ap, map, sym,
}
use axi_interconnect_kit.Interconnect.Writes.Laws.{
  IsPacked, promote-IsPacked, promote-waiting, waiting, answer,
}

unfoldable pub drop_first {ℓ} : {A : Type ℓ} → List A → List A
drop_first [] = []
drop_first (x ∷ xs) = xs

cleared :
    (buf : WriteRespBuffer)
    → buf.w_resp_valid ≡ true
    → waiting (record buf { w_resp_valid = false; w_resp_id = 0; w_resp_resp = 0 })
      ≡ drop_first (waiting buf)
unfolding waiting drop_first
cleared buf v = rw v refl

-- A response that is offered stands first.
drop_first-append :
    (buf : WriteRespBuffer) (more : List (ℕ × ℕ))
    → buf.w_resp_valid ≡ true
    → drop_first (waiting buf ++ more) ≡ drop_first (waiting buf) ++ more
unfolding waiting drop_first
drop_first-append buf more v = rw v refl

-- Where a response waits, one is offered.
IsPacked-offered :
    (buf : WriteRespBuffer) (x : ℕ × ℕ) (xs : List (ℕ × ℕ))
    → IsPacked buf
    → waiting buf ≡ x ∷ xs
    → buf.w_resp_valid ≡ true
unfolding waiting IsPacked
IsPacked-offered buf x xs p h = elim (Bool-cases buf.w_resp_valid) [
  | inl v ↦ v
  | inr v ↦ absurd (no_more (sym (none_left v (p v)) ∙ h))
]
  where
    none_left : buf.w_resp_valid ≡ false → buf.w_resp_queue ≡ [] → waiting buf ≡ []
    none_left v q = rw (v, q) refl

    no_more : [] ≡ x ∷ xs → ⊥
    no_more z = absurd (cc)

-- The response that a master takes leaves, and the next one is offered.
taken_out :
    (t : State) (m : ℕ)
    → m < num_write_masters
    → ((t.write_resp m).valid ≡ true → (t.resp_buffer m).w_resp_valid ≡ true)
    → (waiting ((promote_write_resp_queue (take_responses t)).resp_buffer m) ≡ (
        if (t.write_resp m).valid && (t.write_resp m).ready
        then drop_first (waiting (t.resp_buffer m))
        else waiting (t.resp_buffer m)))
      × IsPacked ((promote_write_resp_queue (take_responses t)).resp_buffer m)
unfolding promote_write_resp_queue take_responses
taken_out t m l v =
    let buf = t.resp_buffer m in
    elim (Bool-cases ((t.write_resp m).valid && (t.write_resp m).ready)) [
      | inl e ↦
          let c : WriteRespBuffer = record buf {
            w_resp_valid = false;
            w_resp_id = 0;
            w_resp_resp = 0;
          } in
          rw (lt→ltb m 2 l, e)
            (promote-waiting c ∙ cleared buf (v (and-true _ _ e).0), promote-IsPacked c)
      | inr e ↦ rw (lt→ltb m 2 l, e) (promote-waiting buf, promote-IsPacked buf)
    ]

-- What a cycle makes of the responses that wait for a master.
pub record IsServed (limits : Limits) (build : Build) (s : State) (m : ℕ) : Type 0 where
  pub responses :
      let d = comb_write_response limits build s in
      waiting ((seq_write_responses limits build d).resp_buffer m)
      ≡ (if (s.resp_buffer m).w_resp_valid && (s.write_resp m).ready
          then drop_first (waiting (s.resp_buffer m))
          else waiting (s.resp_buffer m))
        ++ (answered build d ddr m ++ answered build d mmio m)
  pub packed :
      IsPacked
        ((seq_write_responses limits build (comb_write_response limits build s)).resp_buffer m)

module _ (limits : Limits) (build : Build) (s : State) (m : ℕ) (l : m < num_write_masters) where
  driven-resp :
      (((driven limits build s).write_resp m).valid ≡ (s.resp_buffer m).w_resp_valid)
      × (((driven limits build s).write_resp m).ready ≡ (s.write_resp m).ready)
  unfolding set_b_ready drive_write_masters
  driven-resp = rw (lt→ltb m 2 l) (refl, refl)

  -- The first response that waits is the one that is offered.
  offered_first :
      (more : List (ℕ × ℕ)) (buf : WriteRespBuffer)
      → (s.resp_buffer m).w_resp_valid ≡ true
      → waiting buf ≡ waiting (s.resp_buffer m) ++ more
      → IsPacked buf
      → buf.w_resp_valid ≡ true
  unfolding waiting
  offered_first more buf v e p = IsPacked-offered buf _ _ p (e ∙ shape)
    where
      shape :
          waiting (s.resp_buffer m) ++ more
          ≡ ((s.resp_buffer m).w_resp_id, (s.resp_buffer m).w_resp_resp)
            ∷ (map answer (s.resp_buffer m).w_resp_queue ++ more)
      shape = rw v refl

  taken_from :
      (more : List (ℕ × ℕ))
      → (if (s.resp_buffer m).w_resp_valid && (s.write_resp m).ready
          then drop_first (waiting (s.resp_buffer m) ++ more)
          else waiting (s.resp_buffer m) ++ more)
        ≡ (if (s.resp_buffer m).w_resp_valid && (s.write_resp m).ready
            then drop_first (waiting (s.resp_buffer m))
            else waiting (s.resp_buffer m))
          ++ more
  taken_from more = elim (Bool-cases ((s.resp_buffer m).w_resp_valid && (s.write_resp m).ready)) [
    | inl e ↦ rw e (drop_first-append (s.resp_buffer m) more (and-true _ _ e).0)
    | inr e ↦ rw e refl
  ]

  -- From the signals of a cycle to its end.
  driven-served :
      ids_distinct s.w_pending ≡ true
      → IsPacked (s.resp_buffer m)
      → let d = driven limits build s in
        (waiting ((seq_write_responses limits build d).resp_buffer m)
          ≡ (if (s.resp_buffer m).w_resp_valid && (s.write_resp m).ready
              then drop_first (waiting (s.resp_buffer m))
              else waiting (s.resp_buffer m))
            ++ (answered build d ddr m ++ answered build d mmio m))
        × IsPacked ((seq_write_responses limits build d).resp_buffer m)
  unfolding seq_write_responses
  driven-served dist p =
      let d = driven limits build s in
      let mid = handle_b_handshake limits build d ddr in
      let t = handle_b_handshake limits build mid mmio in
      let more = answered build d ddr m ++ answered build d mmio m in
      let h = driven-waiting limits build s m dist p in
      let wr : t.write_resp ≡ d.write_resp =
        handle-resp limits build s mid mmio ∙ handle-resp limits build s d ddr in
      let valid : (t.write_resp m).valid ≡ (s.resp_buffer m).w_resp_valid =
        ap (λ (f : ℕ → WriteMasterResp). (f m).valid) wr ∙ driven-resp.0 in
      let ready : (t.write_resp m).ready ≡ (s.write_resp m).ready =
        ap (λ (f : ℕ → WriteMasterResp). (f m).ready) wr ∙ driven-resp.1 in
      let f = taken_out t m l (λ v. offered_first more (t.resp_buffer m) (sym valid ∙ v) h.0 h.1) in
      (f.0 ∙ rw (valid, ready, h.0) (taken_from more), f.1)

-- In the modes without the cache, where the pending writes of a port have distinct IDs and no
-- response of a master waits behind an empty place: in a cycle the responses that wait for the master
-- lose the first one exactly if it is offered and taken, and gain at the end those that the two ports
-- give in this cycle for its writes, the DDR's first. None is dropped, and again none waits behind an
-- empty place.
pub seq_write_responses-IsServed :
    (limits : Limits) (build : Build) (s : State) (m : ℕ)
    → m < num_write_masters
    → llc_enabled s ≡ false
    → ids_distinct s.w_pending ≡ true
    → IsPacked (s.resp_buffer m)
    → IsServed limits build s m
seq_write_responses-IsServed limits build s m l off dist p =
    let served = driven-served limits build s m l dist p in
    let e = comb-driven limits build s off in
    record { responses = rw e served.0; packed = rw e served.1 }
