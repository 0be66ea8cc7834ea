-- ===== src/Llc/Ways/Laws.antt =====
-- axi_interconnect/AXI_LLC.cpp: the way chosen for a new line.
use axi_interconnect_kit.Prelude.{
  Option, false, none, some, true, ℕ, ◌+◌, ◌<◌, ◌≡◌, ◌≤◌, Bool-cases, Option-cases, arith, inl, inr,
  not, not-false, not-true, refl, subst, ◌%◌,
}
use axi_interconnect_kit.Llc.{Config, Limits}
use axi_interconnect_kit.Llc.Regs.{Regs}
use axi_interconnect_kit.Llc.Ways.{candidate, pick_from_repl, pick_unreserved_way, way_reserved}
use axi_interconnect_kit.Prelude.Words.{u32, u8}
use axi_interconnect_kit.Prelude.Search.{
  first_below, first_below-none, first_below-some, round_robin,
}
use native.Mathlib.Nat.{mod-lt, mod-eq_of_lt}

module _ (limits : Limits) (config : Config) (regs : Regs) where
  -- A way that is chosen is one of the cache's and not reserved; without one every way is reserved.
  abbrev pub IsUnreservedPick : ℕ → ℕ → Option ℕ → Type 0
  IsUnreservedPick index line none =
      (way : ℕ) → way < config.ways → way_reserved limits config regs index line way ≡ true
  IsUnreservedPick index line (some way) =
      (way < config.ways) × (way_reserved limits config regs index line way ≡ false)

  candidate-lt :
      (repl off : ℕ)
      → off < config.ways
      → config.ways ≤ 256
      → candidate limits config regs repl off < config.ways
  candidate-lt repl off l k =
      let b = mod-lt (u32 (repl + off)) {m = config.ways} (omega arith) in
      rw (mod-eq_of_lt {n = u32 (repl + off) % config.ways} {m = 256} (omega arith)) b

  -- Every way is a candidate.
  candidate_of :
      (repl way : ℕ)
      → way < config.ways
      → config.ways ≤ 256
      → repl + config.ways ≤ 4294967296
      → (off : ℕ) × (off < config.ways) × (candidate limits config regs repl off ≡ way)
  candidate_of repl way l k r =
      let (off, b, e) = round_robin repl config.ways way l in
      let word : u32 (repl + off) ≡ repl + off = omega arith in (off, b, rw (word, e) (omega arith))

  pick_from_repl-IsUnreservedPick :
      (index repl line : ℕ)
      → config.ways ≤ 256
      → repl + config.ways ≤ 4294967296
      → IsUnreservedPick index line (pick_from_repl limits config regs index repl line)
  unfolding pick_from_repl
  pick_from_repl-IsUnreservedPick index repl line k r =
      let at = candidate limits config regs repl in
      let free = λ (off : ℕ). not (way_reserved limits config regs index line (at off)) in
      elim (Option-cases (first_below free config.ways)) [
        | inl f ↦ rw f (λ way l.
            let (off, b, e) = candidate_of repl way l k r in
            subst (λ w. way_reserved limits config regs index line w ≡ true) e
              (not-false _ (first_below-none free config.ways off f b)))
        | inr (off, f) ↦
            let b = first_below-some free config.ways off f in
            rw f (candidate-lt repl off b.0 k, not-true _ b.1)
      ]

  -- A replacement way that is chosen is one of the cache's ways and is reserved by no write and no
  -- refill of another line under way; and no way is chosen only if all are reserved. The cache has
  -- at most 256 ways, the raw replacement index does not wrap, and an invalid way offered is one of
  -- the cache's.
  pub pick_unreserved_way-IsUnreservedPick :
      (index repl line : ℕ) (invalid : Option ℕ)
      → config.ways ≤ 256
      → repl + config.ways ≤ 4294967296
      → ((way : ℕ) → invalid ≡ some way → way < config.ways)
      → IsUnreservedPick index line (pick_unreserved_way limits config regs index invalid repl line)
  unfolding pick_unreserved_way
  pick_unreserved_way-IsUnreservedPick index repl line none k r f =
      pick_from_repl-IsUnreservedPick index repl line k r
  pick_unreserved_way-IsUnreservedPick index repl line (some way) k r f =
      let l = f way refl in
      let byte : u8 way ≡ way = omega arith in
      elim (Bool-cases (way_reserved limits config regs index line (u8 way))) [
        | inl e ↦ rw e (pick_from_repl-IsUnreservedPick index repl line k r)
        | inr e ↦ rw e (l, subst (λ w. way_reserved limits config regs index line w ≡ false) byte e)
      ]
