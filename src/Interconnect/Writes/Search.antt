-- ===== src/Interconnect/Writes/Search.antt =====
-- axi_interconnect/AXI_Interconnect.cpp: the searches in the list of pending writes.
use mathlib.Core.Option
use mathlib.Core.Option.{some-injective}
use axi_interconnect_kit.Interconnect.{DownstreamPort, ddr, mmio, same_port}
use axi_interconnect_kit.Interconnect.State.{WritePendingTxn}
use axi_interconnect_kit.Interconnect.Writes.{entry_of, erase_at, find_in, has_axi_id}
use axi_interconnect_kit.Interconnect.Ids.{any_in}
use axi_interconnect_kit.Prelude.{
  Bool, Bool-cases, List, Option, [], false, if◌then◌else◌, inl, inr, none, not, refl, some, subst,
  suc, sym, true, ℕ, ◌&&◌, ◌==◌, ◌∙◌, ◌∷◌, ◌≡◌, ==_eq, ==_self, Option-cases, and-true, if_cases,
  not-true, ◌||◌, ap,
}

or_true : (b : Bool) → b || true ≡ true
or_true true = refl
or_true false = refl

-- A branch that is taken.
taken {ℓ} : {A : Type ℓ} {z : A} (b : Bool) (x y : A) → b ≡ true → (if b then x else y) ≡ z → x ≡ z
taken {z = z} b x y e h = subst (λ c. (if c then x else y) ≡ z) e h

skipped {ℓ} :
    {A : Type ℓ} {z : A} (b : Bool) (x y : A) → b ≡ false → (if b then x else y) ≡ z → y ≡ z
skipped {z = z} b x y e h = subst (λ c. (if c then x else y) ≡ z) e h

module _ {ℓ} {A : Type ℓ} where
  -- The first entry that passes.
  unfoldable pub first_in : (A → Bool) → List A → Option A
  first_in p [] = none
  first_in p (x ∷ xs) = if p x then some x else first_in p xs

  entry_step :
      (x : A) (xs : List A) (o : Option ℕ) → entry_of (x ∷ xs) (Option.map suc o) ≡ entry_of xs o
  unfolding entry_of
  entry_step x xs none = refl
  entry_step x xs (some i) = refl

  pub entry-find : (p : A → Bool) (xs : List A) → entry_of xs (find_in p xs) ≡ first_in p xs
  unfolding find_in first_in entry_of
  entry-find p [] = refl
  entry-find p (x ∷ xs) =
      if_cases (λ o. entry_of (x ∷ xs) o ≡ (if p x then some x else first_in p xs)) (p x) (some 0)
        (Option.map suc (find_in p xs)) (λ h. rw h refl)
        (λ h. rw h (entry_step x xs (find_in p xs) ∙ entry-find p xs))

  pub first_in-passes : (p : A → Bool) (xs : List A) (x : A) → first_in p xs ≡ some x → p x ≡ true
  unfolding first_in
  first_in-passes p [] x h = absurd (cc)
  first_in-passes p (y ∷ ys) x h = elim (Bool-cases (p y)) [
    | inl e ↦
        let s : some y ≡ some x = taken (p y) _ _ e h in
        subst (λ a. p a ≡ true) (some-injective y x s) e
    | inr e ↦ let s : first_in p ys ≡ some x = skipped (p y) _ _ e h in first_in-passes p ys x s
  ]

  -- The search does not see that an entry that fails its test was erased.
  pub first_in-erase :
      (p r : A → Bool) (xs : List A) (i : ℕ)
      → ((x : A) → p x ≡ true → r x ≡ false)
      → find_in p xs ≡ some i
      → first_in r (erase_at xs i) ≡ first_in r xs
  unfolding find_in first_in erase_at
  first_in-erase p r [] i d h = refl
  first_in-erase p r (x ∷ xs) i d h = elim (Bool-cases (p x)) [
    | inl e ↦
        let s : some 0 ≡ some i = taken (p x) _ _ e h in
        subst (λ k. first_in r (erase_at (x ∷ xs) k) ≡ first_in r (x ∷ xs)) (some-injective 0 i s)
          (rw (d x e) refl)
    | inr e ↦
        let s : Option.map suc (find_in p xs) ≡ some i = skipped (p x) _ _ e h in
        elim (Option-cases (find_in p xs)) [
          | inl f ↦ let t : none ≡ some i = ap (λ o. Option.map suc o) (sym f) ∙ s in absurd (cc)
          | inr (k, f) ↦
              let t : some (suc k) ≡ some i = ap (λ o. Option.map suc o) (sym f) ∙ s in
              subst (λ j. first_in r (erase_at (x ∷ xs) j) ≡ first_in r (x ∷ xs))
                (some-injective (suc k) i t) (rw (first_in-erase p r xs k d f) refl)
        ]
  ]

  any_in-first :
      (p c : A → Bool) (xs : List A) (x : A)
      → first_in p xs ≡ some x
      → c x ≡ true
      → any_in c xs ≡ true
  unfolding first_in any_in
  any_in-first p c [] x h e = absurd (cc)
  any_in-first p c (y ∷ ys) x h e = elim (Bool-cases (p y)) [
    | inl f ↦
        let s : some y ≡ some x = taken (p y) _ _ f h in
        let g : c y ≡ true = subst (λ a. c a ≡ true) (sym (some-injective y x s)) e in rw g refl
    | inr f ↦
        let s : first_in p ys ≡ some x = skipped (p y) _ _ f h in
        rw (any_in-first p c ys x s e) (or_true (c y))
  ]

-- Two writes of one port with one AXI ID.
abbrev pub clashes : WritePendingTxn → WritePendingTxn → Bool
clashes a b = same_port a.port b.port && a.axi_id == b.axi_id

unfoldable pub ids_distinct : List WritePendingTxn → Bool
unfolding any_in
ids_distinct [] = true
ids_distinct (txn ∷ txns) = not (any_in (clashes txn) txns) && ids_distinct txns

same_port_both :
    (a b c : DownstreamPort) → same_port a c ≡ true → same_port b c ≡ true → same_port a b ≡ true
same_port_both ddr ddr c h k = refl
same_port_both mmio mmio c h k = refl
same_port_both ddr mmio ddr h k = absurd (cc)
same_port_both ddr mmio mmio h k = absurd (cc)
same_port_both mmio ddr ddr h k = absurd (cc)
same_port_both mmio ddr mmio h k = absurd (cc)

both_clash :
    (port : DownstreamPort) (id : ℕ) (a b : WritePendingTxn)
    → has_axi_id port id a ≡ true
    → has_axi_id port id b ≡ true
    → clashes a b ≡ true
both_clash port id a b h k =
    let l = and-true (same_port a.port port) _ h in
    let r = and-true (same_port b.port port) _ k in
    let e : a.axi_id ≡ b.axi_id = ==_eq a.axi_id id l.1 ∙ sym (==_eq b.axi_id id r.1) in
    rw (same_port_both a.port b.port port l.0 r.0, e) (==_self b.axi_id)

-- Where IDs are distinct, a further test finds the same write, or none.
pub first_in-same :
    (port : DownstreamPort) (id : ℕ) (q : WritePendingTxn → Bool) (xs : List WritePendingTxn)
    (x : WritePendingTxn)
    → ids_distinct xs ≡ true
    → first_in (λ txn. has_axi_id port id txn && q txn) xs ≡ some x
    → first_in (has_axi_id port id) xs ≡ some x
unfolding first_in ids_distinct
first_in-same port id q [] x d h = h
first_in-same port id q (y ∷ ys) x d h =
    let parts = and-true (not (any_in (clashes y) ys)) (ids_distinct ys) d in
    elim (Bool-cases (has_axi_id port id y)) [
      | inl e ↦ elim (Bool-cases (q y)) [
        | inl f ↦
            let s : some y ≡ some x = taken (has_axi_id port id y && q y) _ _ (rw (e, f) refl) h in
            rw e s
        | inr f ↦
            let s : first_in (λ txn. has_axi_id port id txn && q txn) ys ≡ some x =
              skipped (has_axi_id port id y && q y) _ _ (rw (e, f) refl) h in
            let k = first_in-passes _ ys x s in
            let c = both_clash port id y x e (and-true (has_axi_id port id x) _ k).0 in
            let t = any_in-first _ (clashes y) ys x s c in let n = not-true _ parts.0 in absurd (cc)
      ]
      | inr e ↦
          let s : first_in (λ txn. has_axi_id port id txn && q txn) ys ≡ some x =
            skipped (has_axi_id port id y && q y) _ _ (rw e refl) h in
          rw e (first_in-same port id q ys x parts.1 s)
    ]
