-- ===== src/Llc/Queues/Laws.antt =====
-- axi_interconnect/AXI_LLC.cpp: the slot and the ring of a master's read responses as one queue.
use axi_interconnect_kit.Prelude.{
  Bool, Bool-cases, List, Option, [], if◌then◌else◌, inl, inr, leb, none, not, refl, some, true, ℕ,
  ◌%◌, ◌&&◌, ◌++◌, ◌+◌, ◌<◌, ◌∷◌, ◌≡◌, ◌≤◌, ◌⊎◌, ◌==◌, ap, arith, leb-false, ◌∙◌, subst, suc, sym,
  ◌≢◌, ==_eq, ◌-◌, lt→ltb,
}
use axi_interconnect_kit.Llc.{Config, Limits, num_read_masters}
use axi_interconnect_kit.Llc.Regs.{ReadRespSlot, Io}
use axi_interconnect_kit.Llc.Queues.{
  depth, push_response, step_response, pop_response, dec8, drive_read_responses, shown,
}
use axi_interconnect_kit.Prelude.Rings.{ring, ring_push, ring_pop, ring_uncons}
use axi_interconnect_kit.Prelude.Words.{u8}
use axi_interconnect_kit.Prelude.Arrays.{update, update_ne, update_self}
use native.Mathlib.Nat.{mod-eq_of_lt, mod-lt, mod-mod, mod-add-mod}
use axi_interconnect_kit.Llc.Ports.{no_words}

module _ (limits : Limits) (config : Config) where
  abbrev pub response_at : ReadRespSlot → ℕ → ℕ × (ℕ → ℕ)
  response_at r i = (r.q_id i, r.q_data i)

  abbrev pub waiting : ReadRespSlot → List (ℕ × (ℕ → ℕ))
  waiting r = ring (response_at r) (depth limits config) r.q_head 0 r.q_count

  -- The IDs and lines that a master is still to be given, oldest first.
  abbrev pub held : ReadRespSlot → List (ℕ × (ℕ → ℕ))
  held r = if r.valid then (r.id, r.payload) ∷ waiting r else waiting r

  -- The ring's indices agree with its count, and it is used only behind an occupied slot.
  abbrev pub IsRing : ReadRespSlot → Type 0
  IsRing r =
      let d = depth limits config in
      (r.q_head < d)
      × (r.q_tail ≡ (r.q_head + r.q_count) % d)
      × (r.q_count ≤ d)
      × ((r.valid ≡ true) ⊎ (r.q_count ≡ 0))

  abbrev pub IsPushed : ℕ → (ℕ → ℕ) → ReadRespSlot → Option ReadRespSlot → Type 0
  IsPushed id payload r none = (r.valid ≡ true) × (r.q_count ≡ depth limits config)
  IsPushed id payload r (some s) = IsRing s × (held s ≡ held r ++ ((id, payload) ∷ []))

  depth-le : depth limits config ≤ 255
  depth-le = omega arith

  -- The tail moves with the count.
  ring_tail :
      (h c : ℕ)
      → h < depth limits config
      → c < depth limits config
      → let d = depth limits config in u8 (((h + c) % d % d + 1) % d) ≡ (h + u8 (c + 1)) % d
  ring_tail h c l m =
      let d = depth limits config in
      let count : u8 (c + 1) ≡ c + 1 = mod-eq_of_lt (omega (arith, depth-le)) in
      let z : h + c + 1 ≡ h + (c + 1) = omega arith in
      let b = mod-lt (h + (c + 1)) {m = d} (omega arith) in
      rw (count, mod-mod (h + c) d, mod-add-mod (h + c) d 1, z)
        (mod-eq_of_lt (omega (arith, depth-le)))

  -- The ring of a response that is pushed behind others.
  waiting_push :
      (id : ℕ) (payload : ℕ → ℕ) (r : ReadRespSlot)
      → r.q_head < depth limits config
      → r.q_tail ≡ (r.q_head + r.q_count) % depth limits config
      → r.q_count < depth limits config
      → let tail = r.q_tail % depth limits config in
        ring
          (λ i. (update r.q_id tail (λ old. id) i, update r.q_data tail (λ old. payload) i))
          (depth limits config)
          r.q_head
          0
          (u8 (r.q_count + 1))
        ≡ waiting r ++ ((id, payload) ∷ [])
  waiting_push id payload r h t c =
      let d = depth limits config in
      let slot : r.q_tail % d ≡ (r.q_head + r.q_count) % d =
        ap (λ x. x % d) t ∙ mod-mod (r.q_head + r.q_count) d in
      let count : u8 (r.q_count + 1) ≡ suc r.q_count = omega (arith, depth-le) in
      let tail = (r.q_head + r.q_count) % d in
      rw (slot, count)
        (ring_push
          (λ i. (update r.q_id tail (λ old. id) i, update r.q_data tail (λ old. payload) i))
          (response_at r) d r.q_head r.q_count (id, payload) h c
          (λ j n.
            rw (update_ne r.q_id tail j (λ old. id) n, update_ne r.q_data tail j (λ old. payload) n)
              refl)
          (rw (update_self r.q_id tail (λ old. id), update_self r.q_data tail (λ old. payload))
            refl))

  -- A response that is pushed is the last to be given; one is refused only when the slot and the ring
  -- are full.
  pub push_response-IsPushed :
      (id : ℕ) (payload : ℕ → ℕ) (r : ReadRespSlot)
      → IsRing r
      → IsPushed id payload r (push_response limits config id payload r)
  unfolding push_response
  push_response-IsPushed id payload r (h, t, c, v) = elim (Bool-cases r.valid) [
    | inr e ↦
        let z : r.q_count ≡ 0 = elim v [ inl w ↦ absurd (cc) | inr w ↦ w ] in
        simp (e, z)
          (
            (
              h,
              subst (λ x. r.q_tail ≡ (r.q_head + x) % depth limits config) z t,
              omega arith,
              inl refl,
            ),
            refl,
          )
    | inl e ↦ elim (Bool-cases (leb (depth limits config) r.q_count)) [
      | inl f ↦
          let full : r.q_count ≡ depth limits config = ground arith in simp (e, f) (refl, full)
      | inr f ↦
          let b = leb-false (depth limits config) r.q_count f in
          let count : u8 (r.q_count + 1) ≤ depth limits config = omega (arith, depth-le) in
          simp (e, f)
            (
              (
                h,
                ap (λ x. u8 ((x % depth limits config + 1) % depth limits config)) t
                    ∙ ring_tail r.q_head r.q_count h b,
                count,
                inl refl,
              ),
              ap (λ x. (r.id, r.payload) ∷ x) (waiting_push id payload r h t b),
            )
    ]
  ]

abbrev pub drop_first {ℓ} : {A : Type ℓ} → List A → List A
drop_first [] = []
drop_first (a ∷ rest) = rest

module _ (limits : Limits) (config : Config) where
  abbrev pub given : Bool → ReadRespSlot → Bool
  given ready r = r.valid && (not r.fresh && ready)

  abbrev pub IsStep : Bool → ReadRespSlot → ReadRespSlot → Type 0
  IsStep ready r s =
      IsRing limits config s
      × (held limits config s
          ≡ (if given ready r then drop_first (held limits config r) else held limits config r))

  -- The ring behind an occupied slot, when its head has gone into the slot.
  pop_response-IsStep :
      (ready : Bool) (r : ReadRespSlot)
      → IsRing limits config r
      → r.valid ≡ true
      → given ready r ≡ true
      → r.q_count ≢ 0
      → IsStep ready r (pop_response limits config r r)
  pop_response-IsStep ready r (h, t, c, v) e g n =
      let d = depth limits config in
      let le = depth-le limits config in
      let b = mod-lt (r.q_head + 1) {m = d} (omega arith) in
      let head : u8 ((r.q_head % d + 1) % d) ≡ (r.q_head + 1) % d =
        ap u8 (mod-add-mod r.q_head d 1) ∙ mod-eq_of_lt (omega arith) in
      let count : dec8 r.q_count ≡ r.q_count - 1 = omega arith in
      let z : r.q_head + 1 + (r.q_count - 1) ≡ r.q_head + r.q_count = omega arith in
      let slot = r.q_head % d in
      let given_eq : (if given ready r
            then drop_first (held limits config r)
            else held limits config r)
          ≡ waiting limits config r =
        subst
          (λ x.
            (if x then drop_first (held limits config r) else held limits config r)
            ≡ waiting limits config r)
          (sym g)
          (subst
            (λ x.
              drop_first
                (if x then (r.id, r.payload) ∷ waiting limits config r else waiting limits config r)
              ≡ waiting limits config r)
            (sym e) refl) in
      (
        rw (head, count)
            (
              b,
              t ∙ sym (mod-add-mod (r.q_head + 1) d (r.q_count - 1) ∙ ap (λ x. x % d) z),
              omega arith,
              inl refl,
            ),
        ap (λ x. response_at limits config r slot ∷ x)
              (rw (head, count)
                (ring_pop
                  (λ i. (update r.q_id slot (λ old. 0) i, update r.q_data slot (λ old. no_words) i))
                  (response_at limits config r) d r.q_head (r.q_count - 1) h (omega arith)
                  (λ j m.
                    rw
                      (
                        update_ne r.q_id slot j (λ old. 0) m,
                        update_ne r.q_data slot j (λ old. no_words) m,
                      )
                      refl)))
            ∙ sym (ring_uncons (response_at limits config r) d r.q_head r.q_count n)
            ∙ sym given_eq,
      )

  -- In a cycle a master's queue of responses loses its first one when that one is not fresh and the
  -- master is ready, and else it stays as it is; its indices stay sound.
  pub step_response-IsStep :
      (ready : Bool) (r : ReadRespSlot)
      → IsRing limits config r
      → IsStep ready r (step_response limits config ready r r)
  unfolding step_response
  step_response-IsStep ready r (h, t, c, v) = elim (Bool-cases r.valid) [
    | inr e ↦
        let z : r.q_count ≡ 0 = elim v [ inl w ↦ absurd (cc) | inr w ↦ w ] in
        let same : step_response limits config ready r r ≡ r = simp (e, z) refl in
        subst (IsStep ready r) (sym same) ((h, t, c, v), simp e refl)
    | inl e ↦ elim (Bool-cases r.fresh) [
      | inl f ↦ simp (e, f) ((h, t, c, inl refl), refl)
      | inr f ↦ elim (Bool-cases ready) [
        | inr g ↦
            let same : step_response limits config ready r r ≡ r = simp (e, f, g) refl in
            subst (IsStep ready r) (sym same) ((h, t, c, v), simp (e, f, g) refl)
        | inl g ↦ elim (Bool-cases (r.q_count == 0)) [
          | inl z ↦ simp (e, f, g, z) ((h, t, c, inr (==_eq r.q_count 0 z)), refl)
          | inr z ↦
              let popped : step_response limits config ready r r ≡ pop_response limits config r r =
                simp (e, f, g, z) refl in
              subst (IsStep ready r) (sym popped) (
                pop_response-IsStep ready r (h, t, c, v) e (simp (e, f, g) refl)
                  (λ q. let w : (r.q_count == 0) ≡ true = simp q refl in cc))
        ]
      ]
    ]
  ]

  -- A cycle shows each master the first of what its queue held, and then steps the queue.
  pub drive_read_responses-IsStep :
      (io : Io) (m : ℕ)
      → m < num_read_masters
      → io.reg_write.read_resp m ≡ io.regs.read_resp m
      → IsRing limits config (io.regs.read_resp m)
      → let r = io.regs.read_resp m in
        let after = drive_read_responses limits config io in
        (after.ext_out.upstream.read_resp m ≡ shown limits config r)
        × IsStep (io.ext_in.upstream.read_resp_ready m) r (after.reg_write.read_resp m)
  unfolding drive_read_responses
  drive_read_responses-IsStep io m l e h =
      let r = io.regs.read_resp m in
      let ready = io.ext_in.upstream.read_resp_ready m in
      let inside = lt→ltb m num_read_masters l in
      (rw inside refl, rw (inside, e) (step_response-IsStep ready r h))
