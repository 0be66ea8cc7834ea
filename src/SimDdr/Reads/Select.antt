-- ===== src/SimDdr/Reads/Select.antt =====
-- sim_ddr/SimDDR.cpp: the round-robin search for a ready burst.
use native.Mathlib.Nat.{mod-lt}
use axi_interconnect_kit.SimDdr.{SimDdr, ReadTransaction}
use axi_interconnect_kit.SimDdr.Reads.{ready_at, next_ready, find_next_ready_transaction}
use axi_interconnect_kit.Prelude.{
  Bool-cases, List, Option, arith, false, inl, inr, length, none, some, subst, suc, true, zero, ℕ,
  ◌%◌, ◌+◌, ◌<◌, ◌≡◌, ◌-◌,
}
use native.Mathlib.Decide.{dec_lt}

-- What a search says that starts at `rr` and goes round: the first ready index, or that none is
-- ready.
pub data Finds (txns : List ReadTransaction) (rr : ℕ) (i n : ℕ) : Option ℕ → Type 0 where
  found :
      (k : ℕ)
      → k < n
      → ready_at txns ((rr + (i + k)) % length txns) ≡ true
      → ((j : ℕ) → j < k → ready_at txns ((rr + (i + j)) % length txns) ≡ false)
      → Finds txns rr i n (some ((rr + (i + k)) % length txns))
  exhausted :
      ((j : ℕ) → j < n → ready_at txns ((rr + (i + j)) % length txns) ≡ false)
      → Finds txns rr i n none

busy_before :
    (txns : List ReadTransaction) (rr i n : ℕ)
    → ready_at txns ((rr + i) % length txns) ≡ false
    → ((j : ℕ) → j < n → ready_at txns ((rr + (i + 1 + j)) % length txns) ≡ false)
    → (j : ℕ) → j < suc n
    → ready_at txns ((rr + (i + j)) % length txns) ≡ false
busy_before txns rr i n e b zero h = let z : i + 0 ≡ i = omega arith in rw z e
busy_before txns rr i n e b (suc j) h =
    let z : i + suc j ≡ i + 1 + j = omega arith in rw z (b j (omega arith))

next_ready-Finds :
    (txns : List ReadTransaction) (rr i n : ℕ) → Finds txns rr i n (next_ready txns rr i n)
unfolding next_ready
next_ready-Finds txns rr i zero = exhausted (λ j h. absurd (omega arith))
next_ready-Finds txns rr i (suc n) = elim (Bool-cases (ready_at txns ((rr + i) % length txns))) [
  | inl e ↦ rw e (now e)
  | inr e ↦ rw e (later (next_ready-Finds txns rr (i + 1) n) e)
]
  where
    now :
        ready_at txns ((rr + i) % length txns) ≡ true
        → Finds txns rr i (suc n) (some ((rr + i) % length txns))
    now e =
        let z : i + 0 ≡ i = omega arith in
        subst (λ x. Finds txns rr i (suc n) (some ((rr + x) % length txns))) z
          (found 0 (omega arith) (rw z e) (λ j h. absurd (omega arith)))

    later :
        {r : Option ℕ}
        → Finds txns rr (i + 1) n r
        → ready_at txns ((rr + i) % length txns) ≡ false
        → Finds txns rr i (suc n) r
    later (found k h t b) e =
        let z : i + suc k ≡ i + 1 + k = omega arith in
        subst (λ x. Finds txns rr i (suc n) (some ((rr + x) % length txns))) z
          (found (suc k) (omega arith) (rw z t) (busy_before txns rr i k e b))
    later (exhausted b) e = exhausted (busy_before txns rr i n e b)

-- The index lies in the vector and its burst is ready, if one is found; and if none is found then no
-- burst is ready.
pub data Serves (txns : List ReadTransaction) : Option ℕ → Type 0 where
  one : (i : ℕ) → i < length txns → ready_at txns i ≡ true → Serves txns (some i)
  nothing : ((i : ℕ) → i < length txns → ready_at txns i ≡ false) → Serves txns none

round : (rr n i : ℕ) → rr < n → i < n → (k : ℕ) × (k < n) × ((rr + (0 + k)) % n ≡ i)
round rr n i h l = elim (dec_lt i rr) [
  | yes q ↦ (i + n - rr, omega arith, grind arith)
  | no q ↦ (i - rr, omega arith, grind arith)
]

Finds-Serves :
    (txns : List ReadTransaction) (rr : ℕ)
    → rr < length txns
    → {r : Option ℕ} → Finds txns rr 0 (length txns) r
    → Serves txns r
Finds-Serves txns rr h (found k l t b) = one _ (mod-lt _ (omega arith)) t
Finds-Serves txns rr h (exhausted b) =
    nothing (λ i l. let (k, small, e) = round rr (length txns) i h l in rw e at (b k small))

-- With the round-robin index inside the vector, the search finds a ready burst if there is one, and
-- none only if no burst is ready.
pub find_next_ready_transaction-Serves :
    (s : SimDdr)
    → s.r_rr_index < length s.r_transactions
    → Serves s.r_transactions (find_next_ready_transaction s)
unfolding find_next_ready_transaction
find_next_ready_transaction-Serves s h =
    Finds-Serves s.r_transactions s.r_rr_index h
      (next_ready-Finds s.r_transactions s.r_rr_index 0 (length s.r_transactions))

-- The search goes round from the round-robin index: every burst between it and the one found is not
-- ready.
pub find_next_ready_transaction-Finds :
    (s : SimDdr)
    → Finds s.r_transactions s.r_rr_index 0
        (length s.r_transactions)
        (find_next_ready_transaction s)
unfolding find_next_ready_transaction
find_next_ready_transaction-Finds s =
    next_ready-Finds s.r_transactions s.r_rr_index 0 (length s.r_transactions)
