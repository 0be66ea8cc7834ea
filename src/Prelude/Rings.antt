-- ===== src/Prelude/Rings.antt =====
-- Ring buffers: what a buffer of `d` slots holds, as a list, oldest first.
use Prim.Native.Nat.{ℕ, zero, suc, ◌+◌, ◌-◌, ◌%◌, ◌<◌, ◌≤◌}
use mathlib.Core.Path.{◌≡◌, refl, ap, sym, ◌∙◌}
use mathlib.Core.Logic.{◌≢◌, ◌⊎◌, inl, inr}
use mathlib.Core.List.{List, [], ◌∷◌, ◌++◌}
use native.Mathlib.Omega.{arith}
use native.Mathlib.Decide.{dec_lt}
use native.Mathlib.Nat.{mod-add-mod}

wrap_cases :
    (d h j : ℕ)
    → h < d
    → j < d
    → ((h + j < d) × ((h + j) % d ≡ h + j)) ⊎ ((d ≤ h + j) × ((h + j) % d ≡ h + j - d))
wrap_cases d h j l m = elim (dec_lt (h + j) d) [
  | yes q ↦ inl (q, grind arith)
  | no q ↦ inr (omega arith, grind arith)
]

-- Two of the offsets below `d` are two slots.
pub slot_ne : (d h i j : ℕ) → h < d → i < j → j < d → (h + i) % d ≢ (h + j) % d
slot_ne d h i j l m n e = elim (wrap_cases d h i l (omega arith)) [
  | inl a ↦ elim (wrap_cases d h j l n) [
    | inl b ↦ omega (arith, a.1, b.1)
    | inr b ↦ omega (arith, a.1, b.1)
  ]
  | inr a ↦ elim (wrap_cases d h j l n) [
    | inl b ↦ omega (arith, a.1, b.1)
    | inr b ↦ omega (arith, a.1, b.1)
  ]
]

module _ {ℓ} {A : Type ℓ} where
  -- `n` slots from offset `i` on, with the head at `h`.
  abbrev pub ring : (ℕ → A) → ℕ → ℕ → ℕ → ℕ → List A
  ring q d h i zero = []
  ring q d h i (suc n) = q ((h + i) % d) ∷ ring q d h (i + 1) n

  pub ring-congr :
      (p q : ℕ → A) (d h i n : ℕ)
      → ((j : ℕ) → i ≤ j → j < i + n → p ((h + j) % d) ≡ q ((h + j) % d))
      → ring p d h i n ≡ ring q d h i n
  ring-congr p q d h i zero e = refl
  ring-congr p q d h i (suc n) e =
      rw
        (
          e i (omega arith) (omega arith),
          ring-congr p q d h (i + 1) n (λ j a b. e j (omega arith) (omega arith)),
        )
        refl

  -- One slot more at the tail.
  pub ring_snoc :
      (q : ℕ → A) (d h i n : ℕ)
      → ring q d h i (suc n) ≡ ring q d h i n ++ (q ((h + (i + n)) % d) ∷ [])
  ring_snoc q d h i zero = let z : i + 0 ≡ i = omega arith in rw z refl
  ring_snoc q d h i (suc n) =
      let z : i + suc n ≡ i + 1 + n = omega arith in
      rw z (ap (λ r. q ((h + i) % d) ∷ r) (ring_snoc q d h (i + 1) n))

  -- The head moved on by one.
  pub ring_shift : (q : ℕ → A) (d h i n : ℕ) → ring q d ((h + 1) % d) i n ≡ ring q d h (i + 1) n
  ring_shift q d h i zero = refl
  ring_shift q d h i (suc n) =
      let e = mod-add-mod (h + 1) d i in
      let z : h + 1 + i ≡ h + (i + 1) = omega arith in rw (e, z, ring_shift q d h (i + 1) n) refl

  -- A ring that differs from another in the slot at its tail alone, and is one longer.
  pub ring_push :
      (p q : ℕ → A) (d h n : ℕ) (a : A)
      → h < d
      → n < d
      → ((j : ℕ) → (h + n) % d ≢ j → p j ≡ q j)
      → p ((h + n) % d) ≡ a
      → ring p d h 0 (suc n) ≡ ring q d h 0 n ++ (a ∷ [])
  ring_push p q d h n a l m e f =
      let kept =
        ring-congr p q d h 0 n (λ j b c. e _ (λ s. slot_ne d h j n l (omega arith) m (sym s))) in
      let zn : 0 + n ≡ n = omega arith in ring_snoc p d h 0 n ∙ rw (zn, kept, f) refl

  -- The first of a ring that is not empty, and the rest.
  pub ring_uncons :
      (q : ℕ → A) (d h n : ℕ) → n ≢ 0 → ring q d h 0 n ≡ q (h % d) ∷ ring q d h 1 (n - 1)
  ring_uncons q d h zero m = absurd (m refl)
  ring_uncons q d h (suc n) m =
      let z : h + 0 ≡ h = omega arith in let y : suc n - 1 ≡ n = omega arith in rw (z, y) refl

  -- The rest of a ring, when the slot of the first has been written.
  pub ring_pop :
      (p q : ℕ → A) (d h n : ℕ)
      → h < d
      → n < d
      → ((j : ℕ) → h % d ≢ j → p j ≡ q j)
      → ring p d ((h + 1) % d) 0 n ≡ ring q d h 1 n
  ring_pop p q d h n l m e =
      let z : h + 0 ≡ h = omega arith in
      ring_shift p d h 0 n
      ∙ ring-congr p q d h 1 n
          (λ j b c. e _ (λ s. slot_ne d h 0 j l (omega arith) (omega arith) (rw z s)))
