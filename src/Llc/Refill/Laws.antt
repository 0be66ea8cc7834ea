-- ===== src/Llc/Refill/Laws.antt =====
-- axi_interconnect/AXI_LLC.cpp: the victim of a refill and the response of a miss.
use axi_interconnect_kit.Prelude.{
  false, some, true, ℕ, ◌%◌, ◌+◌, ◌/◌, ◌<◌, ◌==◌, ◌≡◌, ◌≢◌, ◌≤◌, ==_ne, ==_self, Bool, Bool-cases,
  ap, arith, inl, inr, leb, leb-false, not, refl, sym, ◌&&◌, ◌||◌, ◌∙◌, if_cases, Option, none,
  subst, Option-cases, not-false,
}
use axi_interconnect_kit.Llc.{Config, Limits}
use axi_interconnect_kit.Llc.Regs.{Io, MissEntry, ReadVictimWbQueue, ReadVictimWbReq, Regs, refill}
use axi_interconnect_kit.Llc.Pending.{
  any_queued_victim, queue_depth, read_victim_snapshot_present,
  victim_snapshot_waits_for_write_resolution,
}
use axi_interconnect_kit.Llc.Refill.Commit.{
  commit_line, externalize, resp_data, holds_victim, arm_victim, take_victim, committed_flags,
  committed_regs, table_write_busy,
}
use axi_interconnect_kit.Llc.Bytes.{full_line_strobe, min}
use axi_interconnect_kit.Llc.Queues.{
  push_victim, read_victim_snapshot_queued, enqueue_read_victim_snapshot, read_victim_wb_queue_full,
}
use axi_interconnect_kit.Prelude.Search.{any_below-of, any_below_mono}
use axi_interconnect_kit.Prelude.Words.{u8}
use axi_interconnect_kit.Prelude.Arrays.{update, update_self}
use native.Mathlib.Nat.{mod-lt, mod-eq_of_lt, mod-mod}
use axi_interconnect_kit.Llc.Meta.{MetaEntry, encode_meta}
use axi_interconnect_kit.Llc.Bytes.Words.{extract-words_to_line_bytes}

min-above : (c d : ℕ) → c < d → d ≤ 255 → c < min (u8 (c + 1)) d
min-above c d l m = ground arith

keep_last : (a b c : Bool) → a && (b && c) ≡ true → a && c ≡ true
keep_last a b c h = ground arith

present_of : (z a b : Bool) → z ≡ false → b ≡ true → not z && (a || b) ≡ true
present_of z a b e h = ground arith

first_of : (z a b : Bool) → z ≡ false → a ≡ true → not z && (a || b) ≡ true
first_of z a b e h = ground arith

held_of :
    (z v f e s b : Bool)
    → z ≡ false
    → v && (not f && (e && s)) ≡ true
    → not z && (v && (not f && e) || b) ≡ true
held_of z v f e s b g h = ground arith

module _ (limits : Limits) (config : Config) where
  -- The victim queue's indices agree with its count.
  abbrev pub IsVictimRing : ReadVictimWbQueue → Type 0
  IsVictimRing queue =
      let d = queue_depth limits config in
      (queue.head < d) × (queue.tail ≡ (queue.head + queue.count) % d)

  -- A victim that is pushed into the queue is found in it.
  push_victim-present :
      (regs : Regs) (entry : ReadVictimWbReq)
      → IsVictimRing regs.read_victim_wb
      → regs.read_victim_wb.count < queue_depth limits config
      → entry.valid ≡ true
      → let after : Regs = record regs {
        read_victim_wb = push_victim limits config entry regs.read_victim_wb;
      } in
        any_queued_victim limits config after (λ e. e.victim_addr == entry.victim_addr) ≡ true
  push_victim-present regs entry (h, t) c v =
      let d = queue_depth limits config in
      let queue = regs.read_victim_wb in
      let small = mod-lt (queue.head + queue.count) {m = d} (omega arith) in
      let slot : u8 ((queue.head + queue.count) % d) ≡ queue.tail % d =
        mod-eq_of_lt (omega arith)
        ∙ sym (mod-mod (queue.head + queue.count) d)
        ∙ ap (λ x. x % d) (sym t) in
      let stored = update_self queue.q (queue.tail % d) (λ old. entry) in
      let passes = λ (i : ℕ).
        let e = update queue.q (queue.tail % d) (λ old. entry) (u8 ((queue.head + i) % d)) in
        e.valid && e.victim_addr == entry.victim_addr in
      let here : passes queue.count ≡ true = rw (slot, stored, v, ==_self entry.victim_addr) refl in
      any_below-of passes (min (u8 (queue.count + 1)) d) queue.count
        (min-above queue.count d c (omega arith)) here

  -- A snapshot that is queued for its slot is one that is kept.
  queued-present :
      (regs : Regs) (owner victim : ℕ)
      → read_victim_snapshot_queued limits config regs owner victim ≡ true
      → any_queued_victim limits config regs (λ e. e.victim_addr == victim) ≡ true
  unfolding read_victim_snapshot_queued
  queued-present regs owner victim h =
      let queue = regs.read_victim_wb in
      let slot = λ (i : ℕ). queue.q (u8 ((queue.head + i) % queue_depth limits config)) in
      any_below_mono
        (λ i. (slot i).valid && ((slot i).owner_slot == owner && (slot i).victim_addr == victim))
        (λ i. (slot i).valid && (slot i).victim_addr == victim)
        (min queue.count (queue_depth limits config))
        (λ i e.
          keep_last (slot i).valid ((slot i).owner_slot == owner) ((slot i).victim_addr == victim)
            e)
        h

  abbrev pub Keeps : ℕ → Bool × Regs → Type 0
  Keeps victim kept =
      kept.0 ≡ true → read_victim_snapshot_present limits config kept.1 victim ≡ true

  -- A queue that takes the victim, or has it already.
  enqueue-Keeps :
      (regs : Regs) (owner victim : ℕ) (words : ℕ → ℕ) (strobe : ℕ → Bool)
      → IsVictimRing regs.read_victim_wb
      → victim ≢ 0
      → Keeps victim (enqueue_read_victim_snapshot limits config owner victim words strobe regs)
  unfolding enqueue_read_victim_snapshot read_victim_snapshot_present read_victim_wb_queue_full
  enqueue-Keeps regs owner victim words strobe r a =
      let zero_no = ==_ne victim 0 a in
      let entry : ReadVictimWbReq = record {
        valid = true;
        owner_slot = owner;
        victim_addr = victim;
        victim_data = words;
        victim_strobe = strobe;
      } in
      elim (Bool-cases (read_victim_snapshot_queued limits config regs owner victim)) [
        | inl e ↦
            rw e (λ h. present_of (victim == 0) _ _ zero_no (queued-present regs owner victim e))
        | inr e ↦ elim (Bool-cases (leb (queue_depth limits config) regs.read_victim_wb.count)) [
          | inl f ↦ rw (e, f) (λ h. absurd (cc))
          | inr f ↦
              rw (e, f)
                (λ h.
                  present_of (victim == 0) _ _ zero_no
                    (push_victim-present regs entry r (leb-false _ _ f) refl))
        ]
      ]

  take_victim-Keeps :
      (regs : Regs) (slot : ℕ) (entry : MissEntry)
      → IsVictimRing regs.read_victim_wb
      → entry.victim_addr ≢ 0
      → Keeps entry.victim_addr (take_victim limits config slot entry regs)
  unfolding read_victim_snapshot_present
  take_victim-Keeps regs slot entry r a =
      let victim = entry.victim_addr in
      if_cases (Keeps victim) (not regs.victim_wb.valid)
        (true, arm_victim limits config slot entry regs) _
        (λ k h. first_of (victim == 0) (victim == victim) _ (==_ne victim 0 a) (==_self victim))
        (λ k.
          enqueue-Keeps regs (u8 slot) victim entry.victim_data (full_line_strobe limits config) r
            a)

  externalize-Keeps :
      (io : Io) (slot : ℕ) (entry : MissEntry)
      → IsVictimRing io.reg_write.read_victim_wb
      → entry.victim_dirty ≡ true
      → entry.victim_writeback_done ≡ false
      → entry.victim_addr ≢ 0
      → Keeps entry.victim_addr (externalize limits config io slot entry)
  unfolding externalize read_victim_snapshot_present
  externalize-Keeps io slot entry r d w a =
      let regs = io.reg_write in
      let victim = entry.victim_addr in
      let wb = regs.victim_wb in
      let zero_no = ==_ne victim 0 a in
      elim (Bool-cases (victim_snapshot_waits_for_write_resolution limits config io.regs victim)) [
        | inl e ↦ rw (d, w, e) (λ h. absurd (cc))
        | inr e ↦ elim (Bool-cases (holds_victim limits config regs slot entry)) [
          | inl f ↦
              rw (d, w, e, f)
                (λ h.
                  held_of (victim == 0) wb.valid wb.for_write (wb.addr == victim)
                    (wb.mshr_slot == u8 slot) _ zero_no f)
          | inr f ↦ elim (Bool-cases (read_victim_snapshot_present limits config regs victim)) [
            | inl g ↦ rw (d, w, e, f, g) (λ h. g)
            | inr g ↦ rw (d, w, e, f, g) (take_victim-Keeps regs slot entry r a)
          ]
        ]
      ]

  abbrev pub Safe : ℕ → Option Io → Type 0
  Safe victim none = true ≡ true
  Safe victim (some io) =
      io.table_out.data_req.enable ≡ true
      → read_victim_snapshot_present limits config io.reg_write victim ≡ true

  -- The registers that a committed line leaves keep the snapshots.
  committed_regs-present :
      (io : Io) (slot : ℕ) (entry : MissEntry) (regs : Regs) (victim : ℕ)
      → read_victim_snapshot_present limits config regs victim ≡ true
      → read_victim_snapshot_present limits config
          (committed_regs limits config io slot entry regs)
          victim
        ≡ true
  unfolding read_victim_snapshot_present
  committed_regs-present io slot entry regs victim h =
      if_cases (λ x. read_victim_snapshot_present limits config x victim ≡ true) entry.is_write _ _
        (λ e. h) (λ e. h)

  -- When a refill goes into the table in place of a dirty line that has not been written back, that
  -- line's snapshot is kept: in the write-back slot, or in the queue, whose indices agree with its
  -- count. The tables were not in use, and the victim is not at address 0.
  pub commit_line_safe :
      (io after : Io) (slot : ℕ) (entry : MissEntry)
      → IsVictimRing io.reg_write.read_victim_wb
      → entry.victim_dirty ≡ true
      → entry.victim_writeback_done ≡ false
      → entry.victim_addr ≢ 0
      → io.table_out.data_req.enable ≡ false
      → commit_line limits config io slot entry ≡ some after
      → after.table_out.data_req.enable ≡ true
      → read_victim_snapshot_present limits config after.reg_write entry.victim_addr ≡ true
  unfolding commit_line
  commit_line_safe io after slot entry r d w a t e =
      let victim = entry.victim_addr in
      let kept = externalize limits config io slot entry in
      let keeps = externalize-Keeps io slot entry r d w a in
      let meta : MetaEntry = record {
        tag = entry.tag;
        flags = committed_flags limits config entry;
      } in
      let all =
        if_cases (Safe victim) (not kept.0) (some (record io { reg_write = kept.1 })) _
          (λ b f. absurd (cc))
          (λ b.
            if_cases (Safe victim) (table_write_busy limits config io.table_out)
              (some (record io { reg_write = record kept.1 { state = refill } })) _
              (λ c f. absurd (cc))
              (λ c. elim (Option-cases (encode_meta meta)) [
                | inl q ↦ rw q refl
                | inr (packed_meta, q) ↦ rw q (λ f.
                    committed_regs-present io slot entry kept.1 victim (keeps (not-false kept.0 b)))
              ])) in
      subst (Safe victim) e all

  -- The master of a read miss is given the words of the refilled line from its address on, for lines
  -- of whole words and at most 256 bytes.
  pub resp_data_lem :
      (entry : MissEntry) (i : ℕ)
      → entry.bypass ≡ false
      → config.line_bytes % 4 ≡ 0
      → config.line_bytes ≤ 256
      → entry.addr % config.line_bytes / 4 + i < config.line_bytes / 4
      → entry.refill_data (entry.addr % config.line_bytes / 4 + i) < 4294967296
      → resp_data limits config entry i ≡ entry.refill_data (entry.addr % config.line_bytes / 4 + i)
  resp_data_lem entry i b l m k w =
      rw b (extract-words_to_line_bytes limits config entry.refill_data entry.addr i l m k w)
