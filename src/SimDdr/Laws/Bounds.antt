-- ===== src/SimDdr/Laws/Bounds.antt =====
-- sim_ddr/SimDDR.cpp: the depths of the queues.
use axi_interconnect_kit.Axi.{Io, offer}
use axi_interconnect_kit.SimDdr.{
  Config, SimDdr, WriteTransaction, WriteRespPending, WriteBeatPending, ReadTransaction,
}
use axi_interconnect_kit.SimDdr.Writes.{
  comb_write_channel, retire, resp_of, find_write_data_target, find_write_drain_target,
  retire_completed_writes,
}
use axi_interconnect_kit.SimDdr.Reads.{
  select_read_transaction, update_backend_arbitration, decide, comb_read_channel, comb_outputs,
  comb_inputs,
}
use axi_interconnect_kit.SimDdr.Seq.{
  accept_beat, drain_beat, settle, take_aw, take_w, drain, leave_drain, seq_write, remove_complete,
  advance_read, seq_read, seq_backend, age_resps, shift_active, aged, given, sweep_reads, finish_b,
  enter_drain, age_reads, cool_down, finish_r, take_ar, new_write, new_read, cycle, seq,
}
use axi_interconnect_kit.Prelude.{
  List, Option, Option-cases, [], arith, false, get_elem?, inl, inr, length, length-append,
  length-modify, length-set, ltb, none, not, refl, some, ℕ, ◌&&◌, ◌++◌, ◌+◌, ◌∷◌, ◌≡◌, ◌≤◌, ap,
  if◌then◌else◌, map, one_if, suc, sym, ◌∙◌,
}

pub record IsBounded (config : Config) (s : SimDdr) : Type 0 where
  pub writes : length s.w_pending ≤ config.write_queue_depth
  pub beats : length s.w_data_fifo ≤ config.write_data_fifo_depth
  pub reads : length s.r_transactions ≤ config.max_outstanding

length-retire :
    (ts : List WriteTransaction) (rs : List WriteRespPending) → length (retire ts rs).0 ≤ length ts
unfolding retire
length-retire [] rs = omega arith
length-retire (t ∷ ts) rs = ground (arith, length-retire ts (rs ++ resp_of t ∷ []))

module _ (config : Config) where
  accept_beat-lengths :
      (i : Option ℕ) (s : SimDdr)
      → let t = accept_beat config i s in
        (length t.w_pending ≡ length s.w_pending)
        × (length t.w_data_fifo ≤ length s.w_data_fifo + 1)
        × (t.r_transactions ≡ s.r_transactions)
        × (t.io ≡ s.io)
  unfolding accept_beat
  accept_beat-lengths none s = (refl, omega arith, refl, refl)
  accept_beat-lengths (some i) s = elim (Option-cases (get_elem? s.w_pending i)) [
    | inl e ↦ rw (e, accept_beat) (refl, omega arith, refl, refl)
    | inr (t, e) ↦
        rw (e, accept_beat)
          (length-set s.w_pending i _, omega (arith, length-append {0} s.w_data_fifo), refl, refl)
  ]

  drain_beat-lengths :
      (i : Option ℕ) (bs : List WriteBeatPending) (s : SimDdr)
      → s.w_data_fifo ≡ bs
      → let t = drain_beat config i bs s in
        (length t.w_pending ≡ length s.w_pending)
        × (length t.w_data_fifo ≤ length s.w_data_fifo)
        × (t.r_transactions ≡ s.r_transactions)
        × (t.io ≡ s.io)
  unfolding drain_beat
  drain_beat-lengths none bs s h = (refl, omega arith, refl, refl)
  drain_beat-lengths (some i) [] s h = (refl, omega arith, refl, refl)
  drain_beat-lengths (some i) (b ∷ bs) s h =
      (length-modify s.w_pending i _, rw h (omega arith), refl, refl)

  -- The queues and the ready signals that the phases leave.
  settle-room :
      (m : Io) (s : SimDdr)
      → let t = settle config m s in
        (t.w_pending ≡ s.w_pending)
        × (t.w_data_fifo ≡ s.w_data_fifo)
        × (t.r_transactions ≡ s.r_transactions)
        × (t.io.aw.awready ≡ ltb (length s.w_pending) config.write_queue_depth)
        × (t.io.ar.arready ≡ ltb (length s.r_transactions) config.max_outstanding)
        × ((t.io.w.wready && not (ltb (length s.w_data_fifo) config.write_data_fifo_depth)) ≡ false)
  unfolding settle comb_outputs comb_inputs comb_write_channel comb_read_channel
      update_backend_arbitration select_read_transaction decide offer
  settle-room m s = ground arith

  -- What a stage of the clock edge does to the lengths.
  abbrev Shrinks : SimDdr → SimDdr → Type 0
  Shrinks t s =
      (length t.w_pending ≤ length s.w_pending)
      × (length t.w_data_fifo ≤ length s.w_data_fifo)
      × (t.r_transactions ≡ s.r_transactions)
      × (t.io ≡ s.io)

  early-lengths :
      (s : SimDdr)
      → let t = take_aw (age_resps (finish_b (cool_down s))) in
        (length t.w_pending ≡ length s.w_pending + one_if (s.io.aw.awvalid && s.io.aw.awready))
        × (t.w_data_fifo ≡ s.w_data_fifo)
        × (t.r_transactions ≡ s.r_transactions)
        × (t.io ≡ s.io)
  unfolding take_aw age_resps finish_b cool_down
  early-lengths s = ground (arith, length-append s.w_pending (new_write s.io.aw ∷ []))

  take_w-lengths :
      (s : SimDdr)
      → let t = take_w config s in
        (length t.w_pending ≡ length s.w_pending)
        × (length t.w_data_fifo ≤ length s.w_data_fifo + one_if (s.io.w.wvalid && s.io.w.wready))
        × (t.r_transactions ≡ s.r_transactions)
        × (t.io ≡ s.io)
  unfolding take_w
  take_w-lengths s = ground (arith, accept_beat-lengths (find_write_data_target s) s)

  drain-Shrinks : (s : SimDdr) → Shrinks (drain config s) s
  unfolding drain
  drain-Shrinks s =
      ground (arith, drain_beat-lengths (find_write_drain_target s) s.w_data_fifo s refl)

  late-Shrinks :
      (s : SimDdr)
      → Shrinks
          (leave_drain config (retire_completed_writes (drain config (enter_drain config s))))
          s
  unfolding leave_drain retire_completed_writes enter_drain
  late-Shrinks s =
      let t = drain config (enter_drain config s) in
      ground (arith, drain-Shrinks (enter_drain config s), length-retire t.w_pending t.w_resp_queue)

  write_half-bounds :
      (s : SimDdr)
      → s.io.aw.awready ≡ ltb (length s.w_pending) config.write_queue_depth
      → (s.io.w.wready && not (ltb (length s.w_data_fifo) config.write_data_fifo_depth)) ≡ false
      → IsBounded config s
      → let t = seq_write config s in
        IsBounded config t × (t.r_transactions ≡ s.r_transactions) × (t.io ≡ s.io)
  unfolding seq_write
  write_half-bounds s aw w v =
      let t = take_aw (age_resps (finish_b (cool_down s))) in
      ground (arith, early-lengths s, take_w-lengths t, late-Shrinks (take_w config t))

  length-remove_complete :
      (src : ℕ) (active : Option ℕ) (ts : List ReadTransaction)
      → length (remove_complete config src active ts).1 ≤ length ts
  unfolding remove_complete
  length-remove_complete src active [] = omega arith
  length-remove_complete src active (t ∷ ts) = ground (
    arith,
    length-remove_complete (src + 1) (if t.complete then shift_active config src active else active)
        ts,
  )

  length-aged : (ts : List ReadTransaction) → length (map (aged config) ts) ≡ length ts
  length-aged [] = refl
  length-aged (t ∷ ts) = ap suc (length-aged ts)

  -- What a stage of the read half does to the lengths.
  abbrev Reads : SimDdr → SimDdr → ℕ → Type 0
  Reads t s n =
      (length t.r_transactions ≤ length s.r_transactions + n)
      × (t.w_pending ≡ s.w_pending)
      × (t.w_data_fifo ≡ s.w_data_fifo)

  advance_read-Reads : (i : Option ℕ) (s : SimDdr) → Reads (advance_read config i s) s 0
  unfolding advance_read
  advance_read-Reads none s = (omega arith, refl, refl)
  advance_read-Reads (some i) s =
      ground (arith, length-modify s.r_transactions i (given config s.io.r.rlast))

  take_ar-Reads : (s : SimDdr) → Reads (take_ar s) s (one_if (s.io.ar.arvalid && s.io.ar.arready))
  unfolding take_ar
  take_ar-Reads s = ground (arith, length-append s.r_transactions (new_read s.io.ar ∷ []))

  finish_r-Reads : (s : SimDdr) → Reads (finish_r config s) s 0
  unfolding finish_r
  finish_r-Reads s = ground (arith, advance_read-Reads s.r_selected_idx s)

  sweep-Reads : (s : SimDdr) → Reads (sweep_reads config (age_reads config s)) s 0
  unfolding sweep_reads age_reads
  sweep-Reads s = ground (
    arith,
    length-remove_complete 0 s.r_active_idx (map (aged config) s.r_transactions),
    length-aged s.r_transactions,
  )

  seq_backend-Reads : (s : SimDdr) → Reads (seq_backend config s) s 0
  unfolding seq_backend
  seq_backend-Reads s = ground arith

  seq_read-shape :
      (s : SimDdr)
      → Reads
          (seq_backend config (seq_read config s))
          s
          (one_if (s.io.ar.arvalid && s.io.ar.arready))
  unfolding seq_read
  seq_read-shape s =
      let t = finish_r config (take_ar s) in
      ground (
        arith,
        take_ar-Reads s,
        finish_r-Reads (take_ar s),
        sweep-Reads t,
        seq_backend-Reads (sweep_reads config (age_reads config t)),
      )

  read_half-bounds :
      (s : SimDdr)
      → s.io.ar.arready ≡ ltb (length s.r_transactions) config.max_outstanding
      → IsBounded config s
      → IsBounded config (seq_backend config (seq_read config s))
  read_half-bounds s ar v = ground (arith, seq_read-shape s)

  -- Whatever the master drives, a cycle keeps the pending writes, the buffered write beats and the
  -- reads within the configured depths.
  pub cycle-IsBounded :
      (m : Io) (s : SimDdr) → IsBounded config s → IsBounded config (cycle config m s)
  unfolding cycle seq
  cycle-IsBounded m s v =
      let a = settle config m s in
      let b = seq_write config a in
      let r = settle-room m s in
      let h =
        write_half-bounds a
          (r.3
            ∙ ap (λ (l : List WriteTransaction). ltb (length l) config.write_queue_depth) (sym r.0))
          (rw r.1 r.5)
          (record { writes = rw r.0 v.writes; beats = rw r.1 v.beats; reads = rw r.2 v.reads }) in
      read_half-bounds b
        (ap (λ (i : Io). i.ar.arready) h.2
          ∙ r.4
          ∙ ap (λ (l : List ReadTransaction). ltb (length l) config.max_outstanding)
              (sym (h.1 ∙ r.2)))
        h.0
