-- ===== src/Llc/Mshr/Laws.antt =====
-- axi_interconnect/AXI_LLC.cpp: what the searches in the miss-status registers find.
use axi_interconnect_kit.Prelude.{
  Option, false, if◌then◌else◌, ltb, none, not, some, true, ℕ, ◌&&◌, ◌<◌, ◌↔◌, ◌≡◌, ◌≤◌, ◌⊎◌,
  Option-cases, arith, inl, inr, refl, suc, zero, ◌==◌, Bool-cases, ltb→lt, ◌∙◌,
}
use axi_interconnect_kit.Llc.{Config, Limits}
use axi_interconnect_kit.Llc.Regs.{Regs}
use axi_interconnect_kit.Llc.Mshr.{
  count_free, count_free_mshrs, find_free_mshr, find_mshr_by_mem_id, is_free, mshr_limit,
  pick_mem_issue_slot, waits_demand, waits_prefetch,
}
use axi_interconnect_kit.Prelude.Search.{
  first_below, first_below-none, first_below-some, first_below-only,
}
use axi_interconnect_kit.Prelude.Words.{u8}
use native.Mathlib.Decide.{ℕ_discrete}

module _ (limits : Limits) (config : Config) (regs : Regs) where
  count_free-none :
      (n : ℕ)
      → ((j : ℕ) → j < n → is_free limits config regs j ≡ false)
      → count_free limits config regs n ≡ 0
  unfolding count_free
  count_free-none zero h = refl
  count_free-none (suc n) h =
      rw (h n (omega arith), count_free-none n (λ j l. h j (omega arith))) refl

  count_free-some :
      (n k : ℕ) → k < n → is_free limits config regs k ≡ true → 1 ≤ count_free limits config regs n
  unfolding count_free
  count_free-some zero k l e = absurd (omega arith)
  count_free-some (suc n) k l e = elim (ℕ_discrete n k) [
    | yes s ↦ rw (s, e) (omega arith)
    | no ne ↦ let h = count_free-some n k (omega arith) e in omega arith
  ]

  -- No register is found free exactly when none is counted free.
  pub find_free_mshr-count_free_mshrs :
      (find_free_mshr limits config regs ≡ none) ↔ (count_free_mshrs limits config regs ≡ 0)
  unfolding find_free_mshr count_free_mshrs
  find_free_mshr-count_free_mshrs =
      let limit = mshr_limit limits config regs in
      let free = is_free limits config regs in
      (
        λ f. count_free-none limit (λ j l. first_below-none free limit j f l),
        λ z. elim (Option-cases (first_below free limit)) [
          | inl f ↦ f
          | inr (k, f) ↦
              let b = first_below-some free limit k f in
              let c = count_free-some limit k b.0 b.1 in absurd (omega arith)
        ],
      )

  -- A slot to issue is a demand miss that waits, or a prefetch that waits while no demand miss does;
  -- without a slot nothing waits.
  abbrev pub IsIssuePick : Option ℕ → Type 0
  IsIssuePick none =
      (i : ℕ)
      → i < mshr_limit limits config regs
      → (regs.mshr i).valid && not (regs.mshr i).mem_req_issued ≡ false
  IsIssuePick (some k) =
      (k < mshr_limit limits config regs)
      × ((waits_demand limits config regs k ≡ true)
          ⊎ ((waits_prefetch limits config regs k ≡ true)
              × ((i : ℕ)
                  → i < mshr_limit limits config regs
                  → waits_demand limits config regs i ≡ false)))

  pub pick_mem_issue_slot-IsIssuePick : IsIssuePick (pick_mem_issue_slot limits config regs)
  unfolding pick_mem_issue_slot
  pick_mem_issue_slot-IsIssuePick =
      let limit = mshr_limit limits config regs in
      let demand = waits_demand limits config regs in
      let prefetch = waits_prefetch limits config regs in
      elim (Option-cases (first_below demand limit)) [
        | inl d ↦ elim (Option-cases (first_below prefetch limit)) [
          | inl p ↦
              rw (d, p)
                (λ i l.
                  let a = first_below-none demand limit i d l in
                  let b = first_below-none prefetch limit i p l in ground arith)
          | inr (k, p) ↦
              let b = first_below-some prefetch limit k p in
              rw (d, p) (b.0, inr (b.1, λ i l. first_below-none demand limit i d l))
        ]
        | inr (k, d) ↦ let b = first_below-some demand limit k d in rw d (b.0, inl b.1)
      ]

  -- A memory response's ID names its slot: with at most 256 slots the search finds the slot of that
  -- number if it is in use, and nothing else.
  pub find_mshr_by_mem_id_lem :
      (mem_id : ℕ)
      → mshr_limit limits config regs ≤ 256
      → find_mshr_by_mem_id limits config regs mem_id ≡ (
          if ltb mem_id (mshr_limit limits config regs) && (regs.mshr mem_id).valid
          then some mem_id
          else none)
  unfolding find_mshr_by_mem_id
  find_mshr_by_mem_id_lem mem_id h =
      let limit = mshr_limit limits config regs in
      let p = λ (i : ℕ). (regs.mshr i).valid && u8 i == mem_id in
      let only : (j : ℕ) → j < limit → p j ≡ true → j ≡ mem_id = λ j l e. ground arith in
      elim (Bool-cases (ltb mem_id limit)) [
        | inl e ↦
            let l = ltb→lt mem_id limit e in
            let same : (u8 mem_id == mem_id) ≡ true = ground arith in
            first_below-only p limit mem_id only ∙ ground arith
        | inr e ↦ first_below-only p limit mem_id only ∙ rw e refl
      ]
