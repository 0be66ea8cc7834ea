-- ===== src/Llc/Lookup/Distinct.antt =====
-- axi_interconnect/AXI_LLC.cpp: try_complete_lookup and the lines that the miss registers fetch.
use axi_interconnect_kit.Prelude.{
  ==_eq, Bool-cases, false, inl, inr, none, sym, true, ℕ, ◌<◌, ◌==◌, ◌∙◌, ◌≡◌, ◌⊎◌, List, Option,
  arith, if_cases, if◌then◌else◌, is_some, is_some-false, refl, replicate, some, subst, ◌≢◌,
}
use axi_interconnect_kit.Llc.{Config, Limits}
use axi_interconnect_kit.Llc.Regs.{MissEntry, Regs, Io, idle, lookup}
use axi_interconnect_kit.Llc.Frame.{Shrinks, Frozen, IsPhase-Frozen, Runs, Shrinks-trans, IsPhase}
use axi_interconnect_kit.Llc.Mshr.{find_mshr_by_line_addr, mshr_limit, find_free_mshr, has_line}
use axi_interconnect_kit.Llc.Refill.{set_mshr}
use axi_interconnect_kit.Prelude.Arrays.{update}
use axi_interconnect_kit.Llc.Queues.Laws.{IsRing}
use axi_interconnect_kit.Llc.Meta.{MetaEntry, RowScan, encode_meta}
use axi_interconnect_kit.Llc.Lookup.WriteMiss.{
  allocate_write, complete_write_miss, evict_for_write, full_write, partial_write, put_line,
  retry_miss, victim_is_dirty, victim_way, write_into, write_miss_entry,
}
use axi_interconnect_kit.Llc.Lookup.{cache_done, finish, lookup_ctx, merged, retry}
use axi_interconnect_kit.Prelude.Search.{first_below-none}
use axi_interconnect_kit.Llc.Bytes.{is_full_line_write}
use axi_interconnect_kit.Llc.Address.{line_addr, tag_of}
use axi_interconnect_kit.Llc.WritePath.{set_port}
use axi_interconnect_kit.Llc.Refill.Commit.{table_write_busy}
use axi_interconnect_kit.Prelude.Words.{u8}

module _ (limits : Limits) (config : Config) where
  -- A register that fetches a line for the tables.
  abbrev pub Fetches : Regs → ℕ → Type 0
  Fetches regs i =
      (i < mshr_limit limits config regs)
      × ((regs.mshr i).valid ≡ true)
      × ((regs.mshr i).bypass ≡ false)

  -- No two registers fetch one line.
  unfoldable pub IsDistinctLines : Regs → Type 0
  IsDistinctLines regs =
      (i j : ℕ)
      → Fetches regs i
      → Fetches regs j
      → (regs.mshr i).line_addr ≡ (regs.mshr j).line_addr
      → i ≡ j

  pub Shrinks-IsDistinctLines :
      (old new : Regs) → Shrinks old.mshr new.mshr → IsDistinctLines old → IsDistinctLines new
  unfolding IsDistinctLines
  Shrinks-IsDistinctLines old new s d i j (l, v, b) (l', v', b') e =
      let (u, p, q) = s i v in
      let (u', p', q') = s j v' in d i j (l, u, sym p ∙ b) (l', u', sym p' ∙ b') (sym q ∙ e ∙ q')

  -- A register that fetched before cannot be for the line of a new entry.
  old_line :
      (start regs : Regs) (entry : MissEntry) (j : ℕ)
      → Shrinks start.mshr regs.mshr
      → (entry.bypass ≡ true) ⊎ (find_mshr_by_line_addr limits config start entry.line_addr ≡ none)
      → entry.bypass ≡ false
      → Fetches regs j
      → entry.line_addr ≢ (regs.mshr j).line_addr
  unfolding find_mshr_by_line_addr
  old_line start regs entry j s (inl h) b (l, v, c) e = absurd (cc)
  old_line start regs entry j s (inr h) b (l, v, c) e =
      let (u, p, q) = s j v in
      let absent =
        first_below-none (has_line limits config start entry.line_addr)
          (mshr_limit limits config start) j h l in
      absurd (ground arith)

  -- The register that a miss takes: free so far, and its line is in no other.
  pub allocate-IsDistinctLines :
      (start regs : Regs) (slot : ℕ) (entry : MissEntry)
      → Shrinks start.mshr regs.mshr
      → IsDistinctLines start
      → (entry.bypass ≡ true) ⊎ (find_mshr_by_line_addr limits config start entry.line_addr ≡ none)
      → IsDistinctLines (set_mshr slot (λ old. entry) regs)
  unfolding IsDistinctLines update
  allocate-IsDistinctLines start regs slot entry s d h i j (l, v, b) (l', v', b') e =
      elim (Bool-cases (slot == i)) [
        | inl p ↦ elim (Bool-cases (slot == j)) [
          | inl q ↦ sym (==_eq slot i p) ∙ ==_eq slot j q
          | inr q ↦ absurd (
              old_line start regs entry j s h (rw p at b) (l', rw q at v', rw q at b')
                (rw (p, q) at e))
        ]
        | inr p ↦ elim (Bool-cases (slot == j)) [
          | inl q ↦ absurd (
              old_line start regs entry i s h (rw q at b') (l, rw p at v, rw p at b)
                (sym (rw (p, q) at e)))
          | inr q ↦
              Shrinks-IsDistinctLines start regs s d i j (l, rw p at v, rw p at b)
                (l', rw q at v', rw q at b') (rw (p, q) at e)
        ]
      ]

  -- What the end of a lookup leaves: sound rings, and no line that is fetched twice.
  pub record IsServed (io after : Io) : Type 0 where
    pub start : after.regs ≡ io.regs
    pub rings :
        (m : ℕ)
        → IsRing limits config (io.reg_write.read_resp m)
        → IsRing limits config (after.reg_write.read_resp m)
    pub distinct :
        Shrinks io.regs.mshr io.reg_write.mshr
        → IsDistinctLines io.regs
        → IsDistinctLines after.reg_write

  unfoldable pub Serves : Io → Option Io → Type 0
  Serves io none = Unit {0}
  Serves io (some after) = IsServed io after

  pub IsPhase-IsServed : {io after : Io} → IsPhase limits config io after → IsServed io after
  IsPhase-IsServed {io} {after} h = record {
    start = h.start;
    rings = h.kept.rings;
    distinct = λ s d.
        Shrinks-IsDistinctLines io.regs after.reg_write
          (Shrinks-trans io.regs.mshr io.reg_write.mshr after.reg_write.mshr s h.kept.shrinks) d;
  }

  pub Runs-Serves : (io : Io) (o : Option Io) → Runs limits config io o → Serves io o
  unfolding Serves Runs
  Runs-Serves io none h = tt
  Runs-Serves io (some after) h = IsPhase-IsServed h

  pub Serves-some : {io after : Io} → IsServed io after → Serves io (some after)
  unfolding Serves
  Serves-some h = h

  -- A register is allocated, and what else changes is not in the registers of the misses.
  pub allocated-IsServed :
      (io after : Io) (slot : ℕ) (entry : MissEntry)
      → after.regs ≡ io.regs
      → Frozen (set_mshr slot (λ old. entry) io.reg_write) after.reg_write
      → (entry.bypass ≡ true)
        ⊎ (find_mshr_by_line_addr limits config io.regs entry.line_addr ≡ none)
      → IsServed io after
  allocated-IsServed io after slot entry r (p, q) h = record {
    start = r;
    rings = λ m.
        subst (λ x. IsRing limits config (io.reg_write.read_resp m) → IsRing limits config (x m))
          (sym q) (λ k. k);
    distinct = λ s d.
        Shrinks-IsDistinctLines (set_mshr slot (λ old. entry) io.reg_write) after.reg_write
          (subst (Shrinks (update io.reg_write.mshr slot (λ old. entry))) (sym p)
            (λ i v. (v, refl, refl)))
          (allocate-IsDistinctLines io.regs io.reg_write slot entry s d h);
  }

  pub retried : (io : Io) → IsServed io (retry_miss limits config io)
  retried io = IsPhase-IsServed (IsPhase-Frozen limits config refl (refl, refl))

  allocate_write-IsServed :
      (io : Io) (way : ℕ) (slot : Option ℕ)
      → find_mshr_by_line_addr limits config io.regs (line_addr config io.regs.lookup_r.addr) ≡ none
      → IsServed io (allocate_write limits config io way slot)
  allocate_write-IsServed io way none h = retried io
  allocate_write-IsServed io way (some slot) h =
      allocated-IsServed io _ slot (write_miss_entry limits config io way) refl (refl, refl) (inr h)

  evict_for_write-IsServed :
      (io : Io) (way : ℕ) (line : List ℕ) → IsServed io (evict_for_write limits config io way line)
  evict_for_write-IsServed io way line =
      IsPhase-IsServed (IsPhase-Frozen limits config (ground arith) (ground arith))

  put_line-Serves :
      (io : Io) (way : ℕ) (line : List ℕ) (row : Option (List ℕ))
      → Serves io (put_line limits config io way line row)
  unfolding Serves
  put_line-Serves io way line none = tt
  put_line-Serves io way line (some row) =
      IsPhase-IsServed (IsPhase-Frozen limits config refl (refl, refl))

  partial_write-IsServed : (io : Io) (way : ℕ) → IsServed io (partial_write limits config io way)
  partial_write-IsServed io way =
      let found =
        find_mshr_by_line_addr limits config io.regs (line_addr config io.regs.lookup_r.addr) in
      if_cases (IsServed io) (is_some found) (retry_miss limits config io)
        (allocate_write limits config io way (find_free_mshr limits config io.regs))
        (λ e. retried io) (λ e. allocate_write-IsServed io way _ (is_some-false found e))

  write_into-Serves : (io : Io) (way : Option ℕ) → Serves io (write_into limits config io way)
  write_into-Serves io none = Serves-some (retried io)
  write_into-Serves io (some picked) =
      let way = u8 picked in
      let ctx = lookup_ctx limits config io in
      let line = merged limits config io (replicate config.line_bytes 0) in
      let meta : MetaEntry = record { tag = tag_of config io.regs.lookup_r.addr; flags = 3 } in
      let busy : Serves io (some (record io { reg_write = retry lookup io.reg_write })) =
        Serves-some (IsPhase-IsServed (IsPhase-Frozen limits config refl (refl, refl))) in
      if_cases (Serves io) (is_full_line_write limits config ctx.addr ctx.strobe ctx.total_size)
        (full_write limits config io way) (some (partial_write limits config io way))
        (λ e.
          if_cases (Serves io) (victim_is_dirty limits config io way)
            (some (evict_for_write limits config io way line))
            (if table_write_busy limits config io.table_out
              then some (record io { reg_write = retry lookup io.reg_write })
              else put_line limits config io way line (encode_meta meta))
            (λ f. Serves-some (evict_for_write-IsServed io way line))
            (λ f.
              if_cases (Serves io) (table_write_busy limits config io.table_out)
                (some (record io { reg_write = retry lookup io.reg_write }))
                (put_line limits config io way line (encode_meta meta)) (λ g. busy)
                (λ g. put_line-Serves io way line (encode_meta meta))))
        (λ e. Serves-some (partial_write-IsServed io way))

  pub complete_write_miss-Serves :
      (io : Io) (scan : RowScan) → Serves io (complete_write_miss limits config io scan)
  unfolding complete_write_miss
  complete_write_miss-Serves io scan =
      let l = io.regs.lookup_r in
      if_cases (Serves io) l.is_bypass
        (some (record io { reg_write = finish idle (set_port l.master cache_done io.reg_write) }))
        (write_into limits config io (victim_way limits config io scan))
        (λ e. Serves-some (IsPhase-IsServed (IsPhase-Frozen limits config refl (refl, refl))))
        (λ e. write_into-Serves io (victim_way limits config io scan))
