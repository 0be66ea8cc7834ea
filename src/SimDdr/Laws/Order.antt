-- ===== src/SimDdr/Laws/Order.antt =====
-- sim_ddr/SimDDR.cpp: the IDs of write addresses and of write responses, in order.
use mathlib.Core.List.{append-nil, append_assoc}
use mathlib.Core.Path.{ap₂}
use axi_interconnect_kit.Axi.{Io, offer}
use axi_interconnect_kit.SimDdr.{
  Config, SimDdr, WriteTransaction, WriteRespPending, WriteBeatPending,
}
use axi_interconnect_kit.SimDdr.Writes.{
  find_write_data_target, find_write_drain_target, is_due, comb_write_channel, b_front, is_retired,
  resp_of, retire, retire_completed_writes,
}
use axi_interconnect_kit.SimDdr.Reads.{
  select_read_transaction, update_backend_arbitration, decide, comb_read_channel, comb_outputs,
  comb_inputs,
}
use axi_interconnect_kit.SimDdr.Seq.{
  cool_down, finish_b, older, age_resps, take_aw, accept_beat, take_w, enter_drain, drain_beat,
  drain, leave_drain, seq_write, take_ar, finish_r, advance_read, age_reads, sweep_reads, seq_read,
  seq_backend, seq, settle, cycle, run,
}
use axi_interconnect_kit.Prelude.{
  Bool-cases, List, Option, Option-cases, [], ap, arith, get_elem?, inl, inr, map, modify, none,
  refl, set, some, suc, zero, ℕ, ◌++◌, ◌∙◌, ◌∷◌, ◌≡◌, if◌then◌else◌, ◌&&◌, false, sym,
}

abbrev pub resp_ids : List WriteRespPending → List ℕ
resp_ids [] = []
resp_ids (r ∷ rs) = r.id ∷ resp_ids rs

abbrev pub write_ids : List WriteTransaction → List ℕ
write_ids [] = []
write_ids (t ∷ ts) = t.id ∷ write_ids ts

-- The IDs of the writes in hand, in the order in which their responses are due.
abbrev pub due : SimDdr → List ℕ
due s = resp_ids s.w_resp_queue ++ write_ids s.w_pending

resp_ids-snoc :
    (rs : List WriteRespPending) (t : WriteTransaction)
    → resp_ids (rs ++ resp_of t ∷ []) ≡ resp_ids rs ++ t.id ∷ []
resp_ids-snoc [] t = refl
resp_ids-snoc (r ∷ rs) t = ap (◌∷◌ r.id) (resp_ids-snoc rs t)

write_ids-snoc :
    (ts : List WriteTransaction) (t : WriteTransaction)
    → write_ids (ts ++ t ∷ []) ≡ write_ids ts ++ t.id ∷ []
write_ids-snoc [] t = refl
write_ids-snoc (u ∷ us) t = ap (◌∷◌ u.id) (write_ids-snoc us t)

resp_ids-older : (rs : List WriteRespPending) → resp_ids (map older rs) ≡ resp_ids rs
resp_ids-older [] = refl
resp_ids-older (r ∷ rs) = ap (◌∷◌ r.id) (resp_ids-older rs)

write_ids-set :
    (ts : List WriteTransaction) (i : ℕ) (t u : WriteTransaction)
    → get_elem? ts i ≡ some t
    → u.id ≡ t.id
    → write_ids (set ts i u) ≡ write_ids ts
write_ids-set [] i t u h e = refl
write_ids-set (x ∷ xs) zero t u h e = ground arith
write_ids-set (x ∷ xs) (suc i) t u h e = ap (◌∷◌ x.id) (write_ids-set xs i t u h e)

write_ids-modify :
    (ts : List WriteTransaction) (i : ℕ) (f : WriteTransaction → WriteTransaction)
    → ((t : WriteTransaction) → (f t).id ≡ t.id)
    → write_ids (modify ts i f) ≡ write_ids ts
write_ids-modify [] i f h = refl
write_ids-modify (x ∷ xs) zero f h = ap (λ (k : ℕ). k ∷ write_ids xs) (h x)
write_ids-modify (x ∷ xs) (suc i) f h = ap (◌∷◌ x.id) (write_ids-modify xs i f h)

retire-due :
    (ts : List WriteTransaction) (rs : List WriteRespPending)
    → resp_ids (retire ts rs).1 ++ write_ids (retire ts rs).0 ≡ resp_ids rs ++ write_ids ts
unfolding retire
retire-due [] rs = refl
retire-due (t ∷ ts) rs = elim (Bool-cases (is_retired t)) [
  | inl e ↦ rw e (
      retire-due ts (rs ++ resp_of t ∷ [])
      ∙ rw (resp_ids-snoc rs t) (append_assoc (resp_ids rs) (t.id ∷ []) (write_ids ts)))
  | inr e ↦ rw e
]

module _ (config : Config) where
  accept_beat-due : (i : Option ℕ) (s : SimDdr) → due (accept_beat config i s) ≡ due s
  unfolding accept_beat
  accept_beat-due none s = refl
  accept_beat-due (some i) s = elim (Option-cases (get_elem? s.w_pending i)) [
    | inl e ↦ rw (e, accept_beat)
    | inr (t, e) ↦
        rw (e, accept_beat)
          (ap (◌++◌ (resp_ids s.w_resp_queue)) (write_ids-set s.w_pending i t _ e refl))
  ]

  drain_beat-due :
      (i : Option ℕ) (bs : List WriteBeatPending) (s : SimDdr)
      → due (drain_beat config i bs s) ≡ due s
  unfolding drain_beat
  drain_beat-due none bs s = refl
  drain_beat-due (some i) [] s = refl
  drain_beat-due (some i) (b ∷ bs) s =
      ap (◌++◌ (resp_ids s.w_resp_queue)) (write_ids-modify s.w_pending i _ (λ t. refl))

  -- The writes' half of the clock edge, behind the B and AW handshakes.
  abbrev late : SimDdr → SimDdr
  late s =
      leave_drain config
        (retire_completed_writes (drain config (enter_drain config (take_w config s))))

  take_w-due : (s : SimDdr) → due (take_w config s) ≡ due s
  unfolding take_w
  take_w-due s = ground (arith, accept_beat-due (find_write_data_target s) s)

  drain-due : (s : SimDdr) → due (drain config s) ≡ due s
  unfolding drain
  drain-due s = ground (arith, drain_beat-due (find_write_drain_target s) s.w_data_fifo s)

  enter_drain-due : (s : SimDdr) → due (enter_drain config s) ≡ due s
  unfolding enter_drain
  enter_drain-due s = ground arith

  leave_drain-due : (s : SimDdr) → due (leave_drain config s) ≡ due s
  unfolding leave_drain
  leave_drain-due s = ground arith

  retire_completed_writes-due : (s : SimDdr) → due (retire_completed_writes s) ≡ due s
  unfolding retire_completed_writes
  retire_completed_writes-due s = retire-due s.w_pending s.w_resp_queue

  late-due : (s : SimDdr) → due (late s) ≡ due s
  late-due s =
      leave_drain-due _
      ∙ retire_completed_writes-due _
      ∙ drain-due _
      ∙ enter_drain-due _
      ∙ take_w-due s

  seq_read-due : (s : SimDdr) → due (seq_backend config (seq_read config s)) ≡ due s
  unfolding seq_backend seq_read sweep_reads age_reads finish_r advance_read take_ar
  seq_read-due s = ground arith

  -- The IDs of a cycle's handshakes: of the write address taken, and of the response given.
  abbrev pub taken_id : SimDdr → List ℕ
  taken_id s = if s.io.aw.awvalid && s.io.aw.awready then s.io.aw.awid ∷ [] else []

  abbrev pub given_id : SimDdr → List ℕ
  given_id s = if s.io.b.bvalid && s.io.b.bready then s.io.b.bid ∷ [] else []

  finish_b-due :
      (s : SimDdr) (r : WriteRespPending) (rest : List WriteRespPending)
      → s.w_resp_queue ≡ r ∷ rest
      → s.io.b.bid ≡ r.id
      → due s ≡ given_id s ++ due (finish_b s)
  unfolding finish_b
  finish_b-due s r rest e i = elim (Bool-cases (s.io.b.bvalid && s.io.b.bready)) [
    | inl f ↦ rw f (rw e (rw i))
    | inr f ↦ rw f
  ]

  finish_b-due_quiet : (s : SimDdr) → s.io.b.bvalid ≡ false → due s ≡ given_id s ++ due (finish_b s)
  unfolding finish_b
  finish_b-due_quiet s e = rw e

  take_aw-due : (s : SimDdr) → due (take_aw s) ≡ due s ++ taken_id s
  unfolding take_aw
  take_aw-due s = elim (Bool-cases (s.io.aw.awvalid && s.io.aw.awready)) [
    | inl f ↦ rw f (
        rw (write_ids-snoc s.w_pending _) (
          sym (append_assoc (resp_ids s.w_resp_queue) (write_ids s.w_pending) (s.io.aw.awid ∷ []))))
    | inr f ↦ rw f (sym (append-nil (due s)))
  ]

  age_resps-due : (s : SimDdr) → due (age_resps s) ≡ due s
  unfolding age_resps
  age_resps-due s = ap (λ (l : List ℕ). l ++ write_ids s.w_pending) (resp_ids-older s.w_resp_queue)

  finish_b-cool_down : (s : SimDdr) → due (finish_b (cool_down s)) ≡ due (finish_b s)
  unfolding finish_b cool_down
  finish_b-cool_down s = ground arith

  taken_id_kept : (s : SimDdr) → taken_id (age_resps (finish_b (cool_down s))) ≡ taken_id s
  unfolding age_resps finish_b cool_down
  taken_id_kept s = ground arith

  early-due :
      (s : SimDdr)
      → due s ≡ given_id s ++ due (finish_b s)
      → due s ++ taken_id s ≡ given_id s ++ due (take_aw (age_resps (finish_b (cool_down s))))
  early-due s h =
      let t = age_resps (finish_b (cool_down s)) in
      ap (λ (l : List ℕ). l ++ taken_id s) h
      ∙ append_assoc (given_id s) (due (finish_b s)) (taken_id s)
      ∙ ap (◌++◌ (given_id s)) (
          sym (
            take_aw-due t
            ∙ ap₂ (λ (l k : List ℕ). l ++ k)
                (age_resps-due (finish_b (cool_down s)) ∙ finish_b-cool_down s) (taken_id_kept s)))

  seq-due :
      (s : SimDdr)
      → due s ≡ given_id s ++ due (finish_b s)
      → due s ++ taken_id s ≡ given_id s ++ due (seq config s)
  unfolding seq seq_write
  seq-due s h = early-due s h ∙ ap (◌++◌ (given_id s)) (sym (seq_read-due _ ∙ late-due _))

  settle-due :
      (m : Io) (s : SimDdr)
      → let t = settle config m s in
        (due t ≡ due s)
        × (t.w_resp_queue ≡ s.w_resp_queue)
        × (t.io.b.bvalid ≡ (b_front config s.w_resp_queue).0)
        × (t.io.b.bid ≡ (b_front config s.w_resp_queue).1)
  unfolding settle comb_outputs comb_inputs comb_write_channel comb_read_channel
      update_backend_arbitration select_read_transaction decide offer
  settle-due m s = ground arith

  b_offered :
      (m : Io) (s : SimDdr)
      → due (settle config m s) ≡ given_id (settle config m s) ++ due (finish_b (settle config m s))
  b_offered m s = offered s.w_resp_queue (settle-due m s).1 (settle-due m s).2 (settle-due m s).3
    where
      offered :
          (rs : List WriteRespPending)
          → (settle config m s).w_resp_queue ≡ rs
          → (settle config m s).io.b.bvalid ≡ (b_front config rs).0
          → (settle config m s).io.b.bid ≡ (b_front config rs).1
          → due (settle config m s)
            ≡ given_id (settle config m s) ++ due (finish_b (settle config m s))
      offered [] e v i = finish_b-due_quiet (settle config m s) v
      offered (r ∷ rs) e v i = elim (Bool-cases (is_due config r)) [
        | inl f ↦ finish_b-due (settle config m s) r rs e (i ∙ (rw f refl))
        | inr f ↦ finish_b-due_quiet (settle config m s) (v ∙ (rw f refl))
      ]

  -- The responses of a run, and the write addresses it takes, by their IDs in order.
  pub given_ids : List Io → SimDdr → List ℕ
  given_ids [] s = []
  given_ids (m ∷ ms) s = given_id (settle config m s) ++ given_ids ms (cycle config m s)

  pub taken_ids : List Io → SimDdr → List ℕ
  taken_ids [] s = []
  taken_ids (m ∷ ms) s = taken_id (settle config m s) ++ taken_ids ms (cycle config m s)

  cycle-due :
      (m : Io) (s : SimDdr)
      → due s ++ taken_id (settle config m s)
        ≡ given_id (settle config m s) ++ due (cycle config m s)
  unfolding cycle
  cycle-due m s = rw (← (settle-due m s).0) (seq-due (settle config m s) (b_offered m s))

  -- Whatever the master drives, in any number of cycles: the IDs of the responses given, followed by
  -- those of the writes still in hand, are the IDs of the writes in hand at the start, followed by
  -- those of the write addresses taken. So every write is answered at most once, in order.
  pub run-due :
      (ms : List Io) (s : SimDdr)
      → due s ++ taken_ids ms s ≡ given_ids ms s ++ due (run config ms s)
  unfolding run given_ids taken_ids
  run-due [] s = append-nil (due s)
  run-due (m ∷ ms) s =
      let s' = cycle config m s in
      sym (append_assoc (due s) (taken_id (settle config m s)) (taken_ids ms s'))
      ∙ ap (λ (l : List ℕ). l ++ taken_ids ms s') (cycle-due m s)
      ∙ append_assoc (given_id (settle config m s)) (due s') (taken_ids ms s')
      ∙ ap (◌++◌ (given_id (settle config m s))) (run-due ms s')
      ∙ sym (append_assoc (given_id (settle config m s)) (given_ids ms s') (due (run config ms s')))
