-- ===== src/Prelude/Search.antt =====
-- Loops that return at the first index that passes a test, or report whether one does.
use Prim.Native.Nat.{ℕ, zero, suc, ◌+◌, ◌-◌, ◌%◌, ◌<◌, ◌≤◌}
use mathlib.Core.Path.{◌≡◌, refl, ap, sym, subst, ◌∙◌}
use mathlib.Core.Logic.{inl, inr}
use mathlib.Core.Bool.{Bool, true, false, ◌&&◌}
use mathlib.Core.Option
use mathlib.Core.Option.{Option, none, some}
use native.Mathlib.Omega.{arith}
use native.Mathlib.Decide.{ℕ_discrete, dec_lt}
use native.Mathlib.Nat.{mod-lt, mod-add-mod}
use axi_interconnect_kit.Prelude.Tests.{
  if◌then◌else◌, Bool-cases, Option-cases, is_some, ltb, ltb→lt, lt→ltb,
}

-- The loop from index `i`, with `n` rounds left.
unfoldable pub first_from : (ℕ → Bool) → ℕ → ℕ → Option ℕ
first_from p i zero = none
first_from p i (suc n) = let rest = first_from p (i + 1) n in if p i then some i else rest

abbrev pub first_below : (ℕ → Bool) → ℕ → Option ℕ
first_below p n = first_from p 0 n

abbrev pub any_below : (ℕ → Bool) → ℕ → Bool
any_below p n = is_some (first_below p n)

-- What such a loop's answer says: the lowest index that passes, or that none does.
abbrev pub IsFirst : (ℕ → Bool) → ℕ → ℕ → Option ℕ → Type 0
IsFirst p i n none = (j : ℕ) → i ≤ j → j < i + n → p j ≡ false
IsFirst p i n (some k) =
    (i ≤ k) × (k < i + n) × (p k ≡ true) × ((j : ℕ) → i ≤ j → j < k → p j ≡ false)

IsFirst-step :
    (p : ℕ → Bool) (i n : ℕ) (o : Option ℕ)
    → p i ≡ false
    → IsFirst p (i + 1) n o
    → IsFirst p i (suc n) o
IsFirst-step p i n none e h = λ j l u. elim (ℕ_discrete i j) [
  | yes s ↦ subst (λ x. p x ≡ false) s e
  | no ne ↦ h j (omega arith) (omega arith)
]
IsFirst-step p i n (some k) e h = (
  omega arith,
  omega arith,
  h.2,
  λ j l u. elim (ℕ_discrete i j) [
    | yes s ↦ subst (λ x. p x ≡ false) s e
    | no ne ↦ h.3 j (omega arith) (omega arith)
  ],
)

pub first_from-IsFirst : (p : ℕ → Bool) (i n : ℕ) → IsFirst p i n (first_from p i n)
unfolding first_from
first_from-IsFirst p i zero = λ j l u. absurd (omega arith)
first_from-IsFirst p i (suc n) = elim (Bool-cases (p i)) [
  | inl e ↦ rw e (omega arith, omega arith, e, λ j l u. absurd (omega arith))
  | inr e ↦ rw e (IsFirst-step p i n (first_from p (i + 1) n) e (first_from-IsFirst p (i + 1) n))
]

-- The two answers, taken apart.
pub first_below-some : (p : ℕ → Bool) (n k : ℕ) → first_below p n ≡ some k → (k < n) × (p k ≡ true)
first_below-some p n k e =
    let h = subst (IsFirst p 0 n) e (first_from-IsFirst p 0 n) in (omega arith, h.2)

pub first_below-none : (p : ℕ → Bool) (n j : ℕ) → first_below p n ≡ none → j < n → p j ≡ false
first_below-none p n j e l =
    let h = subst (IsFirst p 0 n) e (first_from-IsFirst p 0 n) in h j (omega arith) (omega arith)

-- If no index passes for the loop, none does; and an index that passes is found.
pub any_below-false : (p : ℕ → Bool) (n j : ℕ) → any_below p n ≡ false → j < n → p j ≡ false
any_below-false p n j e l = elim (Option-cases (first_below p n)) [
  | inl f ↦ first_below-none p n j f l
  | inr (k, f) ↦ absurd (cc)
]

pub any_below-of : (p : ℕ → Bool) (n j : ℕ) → j < n → p j ≡ true → any_below p n ≡ true
any_below-of p n j l e = elim (Option-cases (first_below p n)) [
  | inl f ↦ let g = first_below-none p n j f l in absurd (cc)
  | inr (k, f) ↦ ap is_some f
]

-- The loop for an index that no other passes for.
pub first_below-only :
    (p : ℕ → Bool) (n k : ℕ)
    → ((j : ℕ) → j < n → p j ≡ true → j ≡ k)
    → first_below p n ≡ (if ltb k n && p k then some k else none)
first_below-only p n k h = elim (Option-cases (first_below p n)) [
  | inl f ↦ elim (Bool-cases (ltb k n)) [
    | inl l ↦ rw (f, l, first_below-none p n k f (ltb→lt k n l)) refl
    | inr l ↦ rw (f, l) refl
  ]
  | inr (j, f) ↦
      let b = first_below-some p n j f in
      let s = h j b.0 b.1 in rw (f, sym s, lt→ltb j n b.0, b.1) refl
]

pub any_below-none :
    (p : ℕ → Bool) (n : ℕ) → ((j : ℕ) → j < n → p j ≡ false) → any_below p n ≡ false
any_below-none p n h = elim (Option-cases (first_below p n)) [
  | inl f ↦ ap is_some f
  | inr (k, f) ↦ let b = first_below-some p n k f in let c = h k b.0 in absurd (cc)
]

-- A round from any index on reaches every index.
pub round_robin : (rr n i : ℕ) → i < n → (off : ℕ) × (off < n) × ((rr + off) % n ≡ i)
round_robin rr n i l = elim (dec_lt i (rr % n)) [
  | yes q ↦ (
    i + n - rr % n,
    omega arith,
    sym (mod-add-mod rr n _) ∙ wrapped (rr % n) (mod-lt rr (omega arith)) q,
  )
  | no q ↦ (i - rr % n, omega arith, sym (mod-add-mod rr n _) ∙ direct (rr % n) q)
]
  where
    wrapped : (r : ℕ) → r < n → i < r → (r + (i + n - r)) % n ≡ i
    wrapped r b q = grind arith

    direct : (r : ℕ) → (i < r → ⊥) → (r + (i - r)) % n ≡ i
    direct r q = grind arith

-- The first index from `rr` round that passes.
abbrev pub at_round : ℕ → ℕ → ℕ → ℕ
at_round rr n off = (rr + off) % n

abbrev pub pick_round : (ℕ → Bool) → ℕ → ℕ → Option ℕ
pick_round p rr n = Option.map (at_round rr n) (first_below (λ off. p (at_round rr n off)) n)

pub pick_round-some :
    (p : ℕ → Bool) (rr n k : ℕ) → pick_round p rr n ≡ some k → (k < n) × (p k ≡ true)
pick_round-some p rr n k e = elim (Option-cases (first_below (λ off. p (at_round rr n off)) n)) [
  | inl f ↦ absurd (cc)
  | inr (off, f) ↦
      let b = first_below-some (λ off. p (at_round rr n off)) n off f in
      let e' : some (at_round rr n off) ≡ some k =
        subst (λ o. Option.map (at_round rr n) o ≡ some k) f e in
      let s : at_round rr n off ≡ k = cc in
      subst (λ x. (x < n) × (p x ≡ true)) s (mod-lt (rr + off) (omega arith), b.1)
]

-- If an index passes then one is picked.
pub pick_round-finds :
    (p : ℕ → Bool) (rr n k : ℕ) → k < n → p k ≡ true → is_some (pick_round p rr n) ≡ true
pick_round-finds p rr n k l e = elim (Option-cases (first_below (λ off. p (at_round rr n off)) n)) [
  | inl f ↦
      let (off, b, s) = round_robin rr n k l in
      let g = first_below-none (λ off. p (at_round rr n off)) n off f b in
      let h : p k ≡ false = subst (λ x. p x ≡ false) s g in absurd (cc)
  | inr (off, f) ↦ rw f refl
]

pub any_below_mono :
    (p q : ℕ → Bool) (n : ℕ)
    → ((j : ℕ) → p j ≡ true → q j ≡ true)
    → any_below p n ≡ true
    → any_below q n ≡ true
any_below_mono p q n h e = elim (Option-cases (first_below p n)) [
  | inl f ↦ absurd (cc)
  | inr (k, f) ↦ let b = first_below-some p n k f in any_below-of q n k b.0 (h k b.1)
]
