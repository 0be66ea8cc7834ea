-- ===== src/Llc/Prefetch/Laws.antt =====
-- axi_interconnect/AXI_LLC.cpp: the prefetch queue holds no line twice.
use axi_interconnect_kit.Prelude.{
  Bool-cases, Option-cases, inl, inr, suc, true, zero, ℕ, ◌<◌, ◌≡◌, false, is_some-false, some, sym,
  ◌*◌, ◌+◌, ◌∙◌, ==_self, ap, is_some, or-false, refl, subst, not, ◌&&◌,
}
use axi_interconnect_kit.Llc.{Config, Limits}
use axi_interconnect_kit.Llc.Regs.{MissEntry, Regs, PrefetchReq}
use axi_interconnect_kit.Llc.Prefetch.{
  find_free_prefetch_queue_slot, find_prefetch_queue_slot, max_prefetch_queue,
  prefetch_candidate_exists, schedule_line, schedule_lines, try_schedule_prefetch, place_prefetch,
  queues_line, degree, starts_stream, untrained,
}
use axi_interconnect_kit.Prelude.Search.{first_below-none, first_below}
use axi_interconnect_kit.Prelude.Words.{u32}
use native.Mathlib.Decide.{ℕ_discrete}
use axi_interconnect_kit.Prelude.Arrays.{update, update_ne, update_self}

module _ (limits : Limits) (config : Config) where
  -- No two entries of the queue are for one line.
  unfoldable pub IsDistinct : Regs → Type 0
  IsDistinct regs =
      (i j : ℕ)
      → i < max_prefetch_queue
      → j < max_prefetch_queue
      → (regs.prefetch_r.q i).valid ≡ true
      → (regs.prefetch_r.q j).valid ≡ true
      → (regs.prefetch_r.q i).line_addr ≡ (regs.prefetch_r.q j).line_addr
      → i ≡ j

  -- A line that is queued nowhere, put into a slot.
  place-IsDistinct :
      (regs : Regs) (line slot : ℕ)
      → IsDistinct regs
      → ((j : ℕ) → j < max_prefetch_queue → queues_line limits config regs line j ≡ false)
      → IsDistinct (place_prefetch limits config regs line (some slot)).1
  unfolding IsDistinct
  place-IsDistinct regs line slot h n i j li lj vi vj e =
      let q = regs.prefetch_r.q in
      let fresh : PrefetchReq = record { valid = true; line_addr = line } in
      let p = update q slot (λ old. fresh) in
      let absent : (k : ℕ)
          → k < max_prefetch_queue
          → (q k).valid ≡ true
          → (q k).line_addr ≡ line
          → ⊥ =
        λ k l v w.
          let no = n k l in
          let yes_it : queues_line limits config regs line k ≡ true =
            rw (v, w, ==_self line) refl in
          cc in
      elim (ℕ_discrete slot i) [
        | yes s ↦ elim (ℕ_discrete slot j) [
          | yes t ↦ sym s ∙ t
          | no u ↦
              let new : p i ≡ fresh =
                subst (λ x. p x ≡ fresh) s (update_self q slot (λ old. fresh)) in
              let old = update_ne q slot j (λ old. fresh) u in
              absurd (
                absent j lj (subst (λ r. r.valid ≡ true) old vj)
                  (sym (ap (λ r. r.line_addr) old) ∙ sym e ∙ ap (λ r. r.line_addr) new))
        ]
        | no r ↦
            let kept = update_ne q slot i (λ old. fresh) r in
            elim (ℕ_discrete slot j) [
              | yes t ↦
                  let new : p j ≡ fresh =
                    subst (λ x. p x ≡ fresh) t (update_self q slot (λ old. fresh)) in
                  absurd (
                    absent i li (subst (λ r. r.valid ≡ true) kept vi)
                      (sym (ap (λ r. r.line_addr) kept) ∙ e ∙ ap (λ r. r.line_addr) new))
              | no u ↦
                  let old = update_ne q slot j (λ old. fresh) u in
                  h i j li lj (subst (λ r. r.valid ≡ true) kept vi)
                    (subst (λ r. r.valid ≡ true) old vj)
                    (sym (ap (λ r. r.line_addr) kept) ∙ e ∙ ap (λ r. r.line_addr) old)
            ]
      ]

  schedule_line-IsDistinct :
      (regs : Regs) (line : ℕ)
      → IsDistinct regs
      → IsDistinct (schedule_line limits config regs line).1
  unfolding schedule_line prefetch_candidate_exists find_prefetch_queue_slot
      find_free_prefetch_queue_slot IsDistinct
  schedule_line-IsDistinct regs line h =
      elim (Bool-cases (prefetch_candidate_exists limits config regs line)) [
        | inl e ↦ rw e h
        | inr e ↦ elim (Option-cases (find_free_prefetch_queue_slot limits config regs)) [
          | inl f ↦ rw (e, f) h
          | inr (slot, f) ↦
              rw (e, f)
                (place-IsDistinct regs line slot h (λ j l.
                  first_below-none (queues_line limits config regs line) max_prefetch_queue j
                    (is_some-false _
                      (or-false
                        (is_some
                          (first_below (queues_line limits config regs line) max_prefetch_queue))
                        _ e).0)
                    l))
        ]
      ]

  schedule_lines-IsDistinct :
      (line d n : ℕ) (regs : Regs)
      → IsDistinct regs
      → IsDistinct (schedule_lines limits config line d n regs)
  unfolding schedule_lines
  schedule_lines-IsDistinct line d zero regs h = h
  schedule_lines-IsDistinct line d (suc n) regs h =
      let one = schedule_line limits config regs (u32 (line + d * config.line_bytes)) in
      let k = schedule_line-IsDistinct regs (u32 (line + d * config.line_bytes)) h in
      elim (Bool-cases one.0) [
        | inl e ↦ rw e (schedule_lines-IsDistinct line (d + 1) n one.1 k)
        | inr e ↦ rw e k
      ]

  -- Training on a miss keeps the prefetch queue free of duplicates.
  pub try_schedule_prefetch-IsDistinct :
      (regs reg_write : Regs) (entry : MissEntry)
      → IsDistinct reg_write
      → IsDistinct (try_schedule_prefetch limits config regs entry reg_write)
  unfolding try_schedule_prefetch IsDistinct
  try_schedule_prefetch-IsDistinct regs reg_write entry h =
      let line = entry.line_addr in
      let n = degree limits config in
      elim (Bool-cases (untrained limits config entry)) [
        | inl e ↦ elim (Bool-cases (not entry.bypass && not entry.is_prefetch)) [
          | inl f ↦ rw (e, f) h
          | inr f ↦ rw (e, f) h
        ]
        | inr e ↦ elim (Bool-cases (starts_stream limits config regs entry)) [
          | inl f ↦ rw (e, f) h
          | inr f ↦ rw (e, f) (schedule_lines-IsDistinct line 1 n reg_write h)
        ]
      ]
