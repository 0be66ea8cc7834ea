-- ===== src/Llc/WritePath/Laws.antt =====
-- axi_interconnect/AXI_LLC.cpp: the write queue of a master.
use axi_interconnect_kit.Prelude.{
  List, [], ap, arith, suc, sym, ◌%◌, ◌++◌, ◌+◌, ◌-◌, ◌<◌, ◌∙◌, ◌∷◌, ◌≡◌, ◌≢◌, ◌≤◌, Bool-cases,
  false, inl, inr, leb, refl, subst, true, ℕ, ◌==◌, ◌||◌, ◌⊎◌,
}
use axi_interconnect_kit.Llc.{Config, Limits, num_write_masters}
use axi_interconnect_kit.Llc.Regs.{WritePendingReq, WritePort, Regs}
use axi_interconnect_kit.Llc.WritePath.Issue.{
  promote_port, push_write, count_passthrough, promote_at,
}
use axi_interconnect_kit.Llc.Queues.{dec8, write_queue_empty, write_queue_front}
use axi_interconnect_kit.Llc.Reset.{no_pending}
use axi_interconnect_kit.Prelude.Rings.{ring, ring_pop, ring_push, ring_uncons}
use axi_interconnect_kit.Prelude.Words.{u8}
use axi_interconnect_kit.Prelude.Arrays.{update, update_ne, update_self}
use native.Mathlib.Nat.{mod-lt, mod-mod, mod-eq_of_lt, mod-add-mod}
use axi_interconnect_kit.Llc.Address.{line_addr}
use axi_interconnect_kit.Llc.WritePath.{set_port}
use axi_interconnect_kit.Llc.Pending.{victim_line_pending}

module _ (limits : Limits) (config : Config) where
  -- The requests that wait, oldest first.
  abbrev pub waiting_writes : WritePort → List WritePendingReq
  waiting_writes port = ring port.q limits.max_write_outstanding port.q_head 0 port.q_count

  -- The indices agree with the count.
  abbrev pub IsQueue : WritePort → Type 0
  IsQueue port =
      let d = limits.max_write_outstanding in
      (port.q_head < d) × (port.q_tail ≡ (port.q_head + port.q_count) % d) × (port.q_count ≤ d)

  -- A request that is accepted waits behind the others.
  push_write-IsQueue :
      (entry : WritePendingReq) (port : WritePort)
      → limits.max_write_outstanding ≤ 255
      → IsQueue port
      → port.q_count < limits.max_write_outstanding
      → let after = push_write limits config entry port port in
        IsQueue after × (waiting_writes after ≡ waiting_writes port ++ (entry ∷ []))
  unfolding push_write
  push_write-IsQueue entry port le (h, t, c) l =
      let d = limits.max_write_outstanding in
      let n = port.q_head + port.q_count in
      let below = mod-lt n {m = d} (omega arith) in
      let slot : u8 (port.q_tail % d) ≡ n % d =
        ap (λ x. u8 (x % d)) t ∙ ap u8 (mod-mod n d) ∙ mod-eq_of_lt (omega arith) in
      let count : u8 (port.q_count + 1) ≡ suc port.q_count = omega arith in
      let z : n + 1 ≡ port.q_head + suc port.q_count = omega arith in
      let above = mod-lt (port.q_head + suc port.q_count) {m = d} (omega arith) in
      let tail : u8 ((n % d + 1) % d) ≡ (port.q_head + suc port.q_count) % d =
        ap u8 (mod-add-mod n d 1 ∙ ap (λ x. x % d) z) ∙ mod-eq_of_lt (omega arith) in
      rw (slot, count)
        (
          (h, tail, omega arith),
          ring_push (update port.q (n % d) (λ old. entry)) port.q d port.q_head port.q_count entry h
              l (λ j m. update_ne port.q (n % d) j (λ old. entry) m)
              (update_self port.q (n % d) (λ old. entry)),
        )

  -- The request that is taken in hand is the one that waited longest; the others keep their order.
  pub promote_port-IsQueue :
      (entry : WritePendingReq) (port : WritePort)
      → limits.max_write_outstanding ≤ 255
      → IsQueue port
      → port.q_count ≢ 0
      → let after = promote_port limits config entry port in
        IsQueue after
        × (waiting_writes port
            ≡ port.q (port.q_head % limits.max_write_outstanding) ∷ waiting_writes after)
  unfolding promote_port
  promote_port-IsQueue entry port le (h, t, c) n =
      let d = limits.max_write_outstanding in
      let above = mod-lt (port.q_head + 1) {m = d} (omega arith) in
      let head : u8 ((port.q_head + 1) % d) ≡ (port.q_head + 1) % d = mod-eq_of_lt (omega arith) in
      let count : dec8 port.q_count ≡ port.q_count - 1 = omega arith in
      let z : port.q_head + 1 + (port.q_count - 1) ≡ port.q_head + port.q_count = omega arith in
      let rest =
        ring_pop (update port.q (port.q_head % d) (λ old. no_pending)) port.q d port.q_head
          (port.q_count - 1) h (omega arith)
          (λ j m. update_ne port.q (port.q_head % d) j (λ old. no_pending) m) in
      rw (head, count)
        (
          (
            above,
            t ∙ sym (mod-add-mod (port.q_head + 1) d (port.q_count - 1) ∙ ap (λ x. x % d) z),
            omega arith,
          ),
          ring_uncons port.q d port.q_head port.q_count n
              ∙ ap (λ x. port.q (port.q_head % d) ∷ x) (sym rest),
        )

  -- The request at the head of the queue is the one in hand, and it has left the queue.
  abbrev pub IsTaken : WritePort → WritePort → Type 0
  IsTaken port after =
      let entry = port.q (port.q_head % limits.max_write_outstanding) in
      IsQueue after
      × (waiting_writes port ≡ entry ∷ waiting_writes after)
      × (entry.valid ≡ true)
      × (after.ctx.valid ≡ true)
      × (after.ctx.id ≡ entry.id)
      × (after.ctx.addr ≡ entry.addr)
      × (after.ctx.wdata ≡ entry.wdata)
      × (after.ctx.strobe ≡ entry.wstrb)

  abbrev pub IsPromoted : WritePort → WritePort → Type 0
  IsPromoted port after =
      (after ≡ port) ⊎ ((port.ctx.valid ≡ false) × (port.resp_valid ≡ false) × IsTaken port after)

  passthrough_port :
      (entry : WritePendingReq) (regs : Regs) (m : ℕ)
      → (count_passthrough limits config entry regs).write_port m ≡ regs.write_port m
  passthrough_port entry regs m = elim (Bool-cases entry.bypass) [
    | inl e ↦ simp (e) refl
    | inr e ↦ simp (e) refl
  ]

  -- The same, for the port of a master in the registers.
  promoted :
      (regs : Regs) (m : ℕ)
      → limits.max_write_outstanding ≤ 255
      → IsQueue (regs.write_port m)
      → (regs.write_port m).q_count ≢ 0
      → let port = regs.write_port m in
        let entry = port.q (port.q_head % limits.max_write_outstanding) in
        entry.valid ≡ true
        → IsTaken port (
            (count_passthrough limits config entry
                (set_port m (promote_port limits config entry) regs)).write_port
              m)
  unfolding promote_port
  promoted regs m le q n v =
      let port = regs.write_port m in
      let entry = port.q (port.q_head % limits.max_write_outstanding) in
      let (sound, order) = promote_port-IsQueue entry port le q n in
      let port_eq =
        passthrough_port entry (set_port m (promote_port limits config entry) regs) m
        ∙ update_self regs.write_port m (promote_port limits config entry) in
      subst (λ x. IsTaken port x) (sym port_eq) (sound, order, v, refl, refl, refl, refl, refl)

  -- In its turn a master's port stays as it is, or, with no write in hand and no response to give,
  -- takes the valid request that has waited longest in hand, with its ID, address, data and strobe, and
  -- the others keep their order.
  pub promote_at-IsPromoted :
      (regs : Regs) (m : ℕ)
      → limits.max_write_outstanding ≤ 255
      → m < num_write_masters
      → IsQueue (regs.write_port m)
      → IsPromoted (regs.write_port m) ((promote_at limits config regs m).write_port m)
  unfolding promote_at write_queue_front write_queue_empty
  promote_at-IsPromoted regs m le l q =
      let port = regs.write_port m in
      let entry = port.q (port.q_head % limits.max_write_outstanding) in
      let small : u8 m ≡ m = mod-eq_of_lt (omega arith) in
      elim (Bool-cases (port.ctx.valid || port.resp_valid)) [
        | inl e ↦ simp (e) (inl refl)
        | inr e ↦ elim (Bool-cases (leb num_write_masters m || port.q_count == 0)) [
          | inl f ↦ simp (e, small, f) (inl refl)
          | inr f ↦ elim (Bool-cases entry.valid) [
            | inr g ↦ simp (e, small, f, g) (inl refl)
            | inl g ↦
                elim (Bool-cases
                  (victim_line_pending limits config regs (line_addr config entry.addr))) [
                    | inl k ↦ simp (e, small, f, g, k) (inl refl)
                    | inr k ↦
                        let step : promote_at limits config regs m
                            ≡ count_passthrough limits config entry
                                (set_port m (promote_port limits config entry) regs) =
                          simp (e, small, f, g, k) refl in
                        let (free, answered) : (port.ctx.valid ≡ false)
                            × (port.resp_valid ≡ false) =
                          ground arith in
                        let n : port.q_count ≢ 0 = ground arith in
                        subst (λ x. IsPromoted port (x.write_port m)) (sym step)
                          (inr (free, answered, promoted regs m le q n g))
                  ]
          ]
        ]
      ]
