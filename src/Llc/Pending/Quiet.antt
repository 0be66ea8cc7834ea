-- ===== src/Llc/Pending/Quiet.antt =====
-- axi_interconnect/AXI_LLC.cpp: the searches for what is under way to a line, in terms of the ports and
-- registers that they search.
use axi_interconnect_kit.Llc.{Config, Limits, num_write_masters}
use axi_interconnect_kit.Llc.Ports.{ExtIn}
use axi_interconnect_kit.Llc.Regs.{Regs, WriteCtx}
use axi_interconnect_kit.Prelude.Search.{any_below, any_below-false, first_below-some, first_below}
use axi_interconnect_kit.Llc.Pending.{
  ctx_evicts, ctx_pending, has_pending_upstream_write_line, mshr_evicts, queue_depth,
  victim_line_pending, write_line_pending, write_queued, any_queued_victim,
}
use axi_interconnect_kit.Llc.Mshr.{
  find_free_mshr, find_mshr_by_line_addr, has_line, is_free, mshr_limit,
}
use axi_interconnect_kit.Llc.Address.{line_addr}
use axi_interconnect_kit.Llc.Bytes.{min}
use axi_interconnect_kit.Prelude.{
  Option-cases, false, if◌then◌else◌, inl, inr, is_some, not-true, or-false, true, ℕ, ◌%◌, ◌&&◌,
  ◌+◌, ◌<◌, ◌==◌, ◌||◌, ◌≡◌, ◌≢◌, ==_self, Bool, arith, not,
}
use axi_interconnect_kit.Prelude.Words.{u8}

no_match : (p : Bool) (x y : ℕ) → (x ≡ y → p ≡ true) → p ≡ false → x ≢ y
no_match p x y h n = λ e. let t = h e in absurd (cc)

lt_min : {i a b : ℕ} → i < a → i < b → i < min a b
lt_min h k = ground (arith, h, k)

-- A third reason changes nothing.
ored : (a b c : Bool) → a || b ≡ true → a || (b || c) ≡ true
ored a b c h = ground arith

finished :
    (ctx : WriteCtx) (line : ℕ)
    → ctx.valid ≡ true
    → ctx.line_addr ≡ line
    → ctx.valid
        && (ctx.line_addr == line && (if ctx.bypass then not ctx.mem_done else not ctx.cache_done))
      ≡ false
    → (if ctx.bypass then ctx.mem_done else ctx.cache_done) ≡ true
finished ctx line a e h = ground arith

module _ (limits : Limits) (config : Config) where
  -- What is not under way to a line.
  pub record IsQuiet (ext_in : ExtIn) (regs : Regs) (line : ℕ) : Type 0 where
    -- No master asks to write it in this cycle.
    pub asked :
        (w : ℕ)
        → w < num_write_masters
        → (ext_in.upstream.write_req w).valid ≡ true
        → (ext_in.upstream.write_req w).bypass ≡ false
        → line_addr config (ext_in.upstream.write_req w).addr ≢ line
    -- A write to it that is in hand has been answered by the memory, or is in the table.
    pub in_hand :
        (w : ℕ)
        → w < num_write_masters
        → (regs.write_port w).ctx.valid ≡ true
        → (regs.write_port w).ctx.line_addr ≡ line
        → (if (regs.write_port w).ctx.bypass
            then (regs.write_port w).ctx.mem_done
            else (regs.write_port w).ctx.cache_done)
          ≡ true
    -- No write to it waits in a queue.
    pub queued :
        (w i : ℕ)
        → w < num_write_masters
        → i < (regs.write_port w).q_count
        → i < limits.max_write_outstanding
        → let entry =
            (regs.write_port w).q
              (((regs.write_port w).q_head + i) % limits.max_write_outstanding) in
          entry.valid ≡ true → line_addr config entry.addr ≢ line
    -- It is no victim: neither of the write-back in hand, nor of one that waits, nor of a write that
    -- waits for the table, nor of a refill that is back and has not been committed.
    pub victim : regs.victim_wb.valid ≡ true → regs.victim_wb.addr ≢ line
    pub victim_queued :
        (i : ℕ)
        → i < min regs.read_victim_wb.count (queue_depth limits config)
        → let entry =
            regs.read_victim_wb.q
              (u8 ((regs.read_victim_wb.head + i) % queue_depth limits config)) in
          entry.valid ≡ true → entry.victim_addr ≢ line
    pub victim_write :
        (w : ℕ)
        → w < num_write_masters
        → (regs.write_port w).ctx.valid ≡ true
        → (regs.write_port w).ctx.bypass ≡ false
        → (regs.write_port w).ctx.cache_pending ≡ true
        → (regs.write_port w).ctx.victim_dirty ≡ true
        → (regs.write_port w).ctx.victim_addr ≢ line
    pub victim_refill :
        (slot : ℕ)
        → slot < mshr_limit limits config regs
        → (regs.mshr slot).valid ≡ true
        → (regs.mshr slot).bypass ≡ false
        → (regs.mshr slot).victim_dirty ≡ true
        → (regs.mshr slot).refill_committed ≡ false
        → (regs.mshr slot).refill_valid || (regs.mshr slot).victim_writeback_done ≡ true
        → (regs.mshr slot).victim_addr ≢ line
    -- It is not being fetched into the cache.
    pub fetched :
        (slot : ℕ)
        → slot < mshr_limit limits config regs
        → (regs.mshr slot).valid ≡ true
        → (regs.mshr slot).bypass ≡ false
        → (regs.mshr slot).line_addr ≢ line

  pub find_free_mshr-some :
      (regs : Regs)
      → is_some (find_free_mshr limits config regs) ≡ true
      → (slot : ℕ) × (slot < mshr_limit limits config regs) × ((regs.mshr slot).valid ≡ false)
  unfolding find_free_mshr
  find_free_mshr-some regs h =
      elim (Option-cases
        (first_below (is_free limits config regs) (mshr_limit limits config regs))) [
          | inl e ↦ absurd (cc)
          | inr (slot, e) ↦
              let b = first_below-some (is_free limits config regs) _ slot e in
              (slot, b.0, not-true _ b.1)
        ]

  -- A refill over a victim.
  evicting :
      (regs : Regs) (line m : ℕ)
      → (regs.mshr m).valid ≡ true
      → (regs.mshr m).bypass ≡ false
      → (regs.mshr m).victim_dirty ≡ true
      → (regs.mshr m).refill_committed ≡ false
      → (regs.mshr m).refill_valid || (regs.mshr m).victim_writeback_done ≡ true
      → (regs.mshr m).victim_addr ≡ line
      → mshr_evicts limits config regs line m ≡ true
  evicting regs line m a b c d g e =
      rw (a, b, c, d, e, ==_self line)
        (ored (regs.mshr m).refill_valid (regs.mshr m).victim_writeback_done
          (regs.victim_wb.valid
            && (not regs.victim_wb.for_write
                && (regs.victim_wb.addr == line && regs.victim_wb.mshr_slot == u8 m)))
          g)

  pub search-IsQuiet :
      (ext_in : ExtIn) (regs : Regs) (line : ℕ)
      → has_pending_upstream_write_line limits config ext_in line ≡ false
      → write_line_pending limits config regs line ≡ false
      → victim_line_pending limits config regs line ≡ false
      → is_some (find_mshr_by_line_addr limits config regs line) ≡ false
      → IsQuiet ext_in regs line
  unfolding has_pending_upstream_write_line write_line_pending victim_line_pending
      find_mshr_by_line_addr
  search-IsQuiet ext_in regs line u w v f =
      let asks = λ (m : ℕ).
        let req = ext_in.upstream.write_req m in
        req.valid && (not req.bypass && line_addr config req.addr == line) in
      let hand = λ (m : ℕ). ctx_pending limits config line (regs.write_port m).ctx in
      let waits = λ (m : ℕ). write_queued limits config line (regs.write_port m) in
      let evicts = λ (m : ℕ). ctx_evicts limits config line (regs.write_port m).ctx in
      let refills = mshr_evicts limits config regs line in
      let limit = mshr_limit limits config regs in
      let n = num_write_masters in
      let ws = or-false (any_below hand n) (any_below waits n) w in
      let wb = regs.victim_wb in
      let queue = any_queued_victim limits config regs (λ entry. entry.victim_addr == line) in
      let rest = any_below evicts n || any_below refills limit in
      let v0 = or-false (wb.valid && wb.addr == line) (queue || rest) v in
      let v1 = or-false queue rest v0.1 in
      let v2 = or-false (any_below evicts n) (any_below refills limit) v1.1 in
      record {
        asked = λ m l a b.
            no_match _ _ line (λ e. rw (a, b, e) (==_self line)) (any_below-false asks n m u l);
        in_hand =
            λ m l a b. finished (regs.write_port m).ctx line a b (any_below-false hand n m ws.0 l);
        queued = λ m i l b c a.
            no_match _ _ line (λ e. rw (a, e) (==_self line))
              (any_below-false _ _ i (any_below-false waits n m ws.1 l) (lt_min b c));
        victim = λ a. no_match _ _ line (λ e. rw (a, e) (==_self line)) v0.0;
        victim_queued = λ i l a.
            no_match _ _ line (λ e. rw (a, e) (==_self line)) (any_below-false _ _ i v1.0 l);
        victim_write = λ m l a b c d.
            no_match _ _ line (λ e. rw (a, b, c, d, e) (==_self line))
              (any_below-false evicts n m v2.0 l);
        victim_refill = λ m l a b c d g.
            no_match _ _ line (λ e. evicting regs line m a b c d g e)
              (any_below-false refills limit m v2.1 l);
        fetched = λ m l a b.
            no_match _ _ line (λ e. rw (a, b, e) (==_self line))
              (any_below-false (has_line limits config regs line) limit m f l);
      }
