-- ===== src/Llc/Accept/Laws.antt =====
-- axi_interconnect/AXI_LLC.cpp: what a request that takes the lookup was picked by.
use native.Mathlib.Nat.{mod-eq_of_lt}
use axi_interconnect_kit.Prelude.{
  and-true, any_of, any_of-get_or, false, not, not-true, true, ℕ, ◌%◌, ◌&&◌, ◌+◌, ◌<◌, ◌≡◌, ◌⊎◌,
  Bool, Option-cases, arith, inl, inr, refl, is_some, ==_ne, ==_self, get_or, not-false, ◌==◌, ◌≢◌,
}
use axi_interconnect_kit.Llc.{Config, Limits, num_read_masters, master_dcache_r}
use axi_interconnect_kit.Llc.Regs.{Io, Lookup, Regs}
use axi_interconnect_kit.Llc.Accept.{
  accept_blocks, accept_new_requests, pick_new_read_master, readable, accept_read,
}
use axi_interconnect_kit.Llc.Pending.{
  read_blocks, has_pending_upstream_write_line, victim_line_pending, write_line_pending,
  allow_parallel_demand_mshr,
}
use axi_interconnect_kit.Prelude.Search.{pick_round, pick_round-some, any_below, any_below-of}
use axi_interconnect_kit.Prelude.Arrays.{update_self, update_ne}
use axi_interconnect_kit.Llc.Mshr.{
  find_mshr_by_line_addr, has_mshr_for_master, is_demand, mshr_limit,
}
use axi_interconnect_kit.Llc.Address.{line_addr}
use axi_interconnect_kit.Llc.Ports.{ReadReq}
use axi_interconnect_kit.Llc.Pending.Quiet.{find_free_mshr-some, search-IsQuiet, IsQuiet}

and_false : (b : Bool) → b && false ≡ false
and_false true = refl
and_false false = refl

module _ (limits : Limits) (config : Config) where
  -- The lookup that stands for a read of a master.
  pub record IsReadOf (req : ReadReq) (m : ℕ) (l : Lookup) : Type 0 where
    pub live : (l.valid ≡ true) × (l.issued ≡ false)
    pub is_read : (l.is_write ≡ false) × (l.is_invalidate ≡ false) × (l.is_prefetch ≡ false)
    pub place : (l.addr ≡ req.addr) × (l.size ≡ req.total_size)
    pub owner : (l.master ≡ m) × (l.id ≡ req.id)
    pub flags :
        (l.is_bypass ≡ req.bypass)
        × (l.is_direct_mapped ≡ req.direct_mapped)
        × (l.is_mode2_ddr_aligned ≡ req.mode2_ddr_aligned)

  -- What the acceptance of a read relied on, and what it left.
  pub record AcceptsFrom (io after : Io) (m : ℕ) : Type 0 where
    pub in_range : m < num_read_masters
    pub asks : (io.ext_in.upstream.read_req m).valid ≡ true
    pub slot_empty :
        ((io.regs.read_resp m).valid ≡ false) × ((io.reg_write.read_resp m).valid ≡ false)
    pub lookup_free : io.reg_write.lookup_r.valid ≡ false
    pub quiet :
        IsQuiet limits config io.ext_in io.reg_write
          (line_addr config (io.ext_in.upstream.read_req m).addr)
    -- A register is free for its miss, and a master but the data cache has no other miss.
    pub register :
        (slot : ℕ) × (slot < mshr_limit limits config io.reg_write)
        × ((io.reg_write.mshr slot).valid ≡ false)
    pub sole :
        (io.ext_in.upstream.read_req m).bypass ≡ false
        → m ≢ master_dcache_r
        → (slot : ℕ) → slot < mshr_limit limits config io.reg_write
        → (io.reg_write.mshr slot).valid ≡ true
        → (io.reg_write.mshr slot).is_prefetch ≡ false
        → (io.reg_write.mshr slot).master ≢ m
    pub taken : IsReadOf (io.ext_in.upstream.read_req m) m after.reg_write.lookup_r
    pub ready :
        (after.ext_out.upstream.read_req_ready m ≡ true)
        × ((k : ℕ)
            → m ≢ k
            → after.ext_out.upstream.read_req_ready k ≡ io.ext_out.upstream.read_req_ready k)
    pub next_round : after.reg_write.rr_read_master ≡ (m + 1) % num_read_masters

  abbrev pub Accepts : Io → Io → Type 0
  Accepts io after = (m : ℕ) × AcceptsFrom io after m

  readable-parts :
      (io : Io) (m : ℕ)
      → readable limits config io io.reg_write m ≡ true
      → let req = io.ext_in.upstream.read_req m in
        (req.valid ≡ true)
        × ((io.regs.read_resp m).valid ≡ false)
        × ((io.reg_write.read_resp m).valid ≡ false)
        × ((i : ℕ)
            → get_or
                (read_blocks limits config io.ext_in io.reg_write m req.bypass req.addr)
                i
                false
              ≡ false)
  readable-parts io m h =
      let req = io.ext_in.upstream.read_req m in
      let r = io.reg_write in
      let busy = (io.regs.read_resp m).valid in
      let busy_end = (r.read_resp m).valid in
      let blocks = read_blocks limits config io.ext_in r m req.bypass req.addr in
      let t = and-true req.valid (not busy && (not busy_end && not (any_of blocks))) h in
      let u = and-true (not busy) (not busy_end && not (any_of blocks)) t.1 in
      let v = and-true (not busy_end) (not (any_of blocks)) u.1 in
      (
        t.0,
        not-true busy u.0,
        not-true busy_end v.0,
        λ i. any_of-get_or blocks i (not-true (any_of blocks) v.1),
      )

  -- The guards that follow a pick refuse nothing that was picked.
  accept_blocks-readable :
      (io : Io) (m : ℕ)
      → readable limits config io io.reg_write m ≡ true
      → any_of (accept_blocks limits config io m) ≡ false
  accept_blocks-readable io m h =
      let (asks, idle_slot, idle_end, past) = readable-parts io m h in
      let req = io.ext_in.upstream.read_req m in
      let r = io.reg_write in
      let line = line_addr config req.addr in
      let upstream : has_pending_upstream_write_line limits config io.ext_in line ≡ false =
        past 1 in
      let writes : write_line_pending limits config r line ≡ false = past 2 in
      let victims : victim_line_pending limits config r line ≡ false = past 3 in
      let misses : is_some (find_mshr_by_line_addr limits config r line) ≡ false = past 4 in
      rw (asks, idle_slot, upstream, writes, victims, misses) (and_false (not req.direct_mapped))

  -- A master but the data cache has one miss at most.
  sole_miss :
      (regs : Regs) (m : ℕ) (bypass : Bool)
      → not bypass
          && (not (allow_parallel_demand_mshr limits config m)
              && has_mshr_for_master limits config regs m)
        ≡ false
      → bypass ≡ false
      → m ≢ master_dcache_r
      → (slot : ℕ) → slot < mshr_limit limits config regs
      → (regs.mshr slot).valid ≡ true
      → (regs.mshr slot).is_prefetch ≡ false
      → (regs.mshr slot).master ≢ m
  unfolding has_mshr_for_master
  sole_miss regs m bypass h b d slot l v f = λ e.
      let owns = λ (i : ℕ). is_demand limits config regs i && (regs.mshr i).master == m in
      let found : any_below owns (mshr_limit limits config regs) ≡ true =
        any_below-of owns (mshr_limit limits config regs) slot l (rw (v, f, e) (==_self m)) in
      let other : (m == master_dcache_r) ≡ false = ==_ne m master_dcache_r d in
      let t : not bypass
            && (not (m == master_dcache_r) && any_below owns (mshr_limit limits config regs))
          ≡ true =
        rw (b, other, found) refl in
      absurd (cc)

  accept_read-AcceptsFrom :
      (io : Io) (m : ℕ)
      → m < num_read_masters
      → readable limits config io io.reg_write m ≡ true
      → AcceptsFrom io (accept_read limits config io m) m
  accept_read-AcceptsFrom io m l h =
      let (asks, idle_slot, idle_end, past) = readable-parts io m h in
      let req = io.ext_in.upstream.read_req m in
      let r = io.reg_write in
      let line = line_addr config req.addr in
      record {
        in_range = l;
        asks = asks;
        slot_empty = (idle_slot, idle_end);
        lookup_free = past 0;
        quiet = search-IsQuiet limits config io.ext_in r line (past 1) (past 2) (past 3) (past 4);
        register = find_free_mshr-some limits config r (not-false _ (past 6));
        sole = sole_miss r m req.bypass (past 5);
        taken = record {
          live = (refl, refl);
          is_read = (refl, refl, refl);
          place = (refl, refl);
          owner = (mod-eq_of_lt (omega arith), refl);
          flags = (refl, refl, refl);
        };
        ready = (
          update_self io.ext_out.upstream.read_req_ready m (λ old. true),
          λ k n. update_ne io.ext_out.upstream.read_req_ready m k (λ old. true) n,
        );
        next_round = omega arith;
      }

  -- The read phase of a cycle changes nothing, or it accepts a read of one master of the cache that
  -- asks. Its response slot was empty at the cycle's start and is so now, and the lookup was free. For
  -- the line of the read, no master asks for a write that is no bypass, no write is in hand that is
  -- still to be answered by the memory or put into the table, and none waits in a queue; the line is
  -- not the victim of a write-back in hand or waiting, of a write that waits for the table, or of a
  -- refill that is back, or whose victim is written, and is not committed; and no miss that is no
  -- bypass fetches it. A register is free for its miss, and unless the read is a bypass or the data
  -- cache's, no miss of its master that is no prefetch is under way. Then the lookup is that read, not a write, an invalidation or
  -- a prefetch, with its address, size, ID, master and flags; that master alone is told that it is
  -- accepted; and the next round of the masters starts behind it.
  pub accept_new_requests-Accepts :
      (io : Io)
      → (accept_new_requests limits config io ≡ io)
        ⊎ Accepts io (accept_new_requests limits config io)
  unfolding accept_new_requests pick_new_read_master
  accept_new_requests-Accepts io =
      let p = readable limits config io io.reg_write in
      let rr = io.reg_write.rr_read_master in
      elim (Option-cases (pick_round p rr num_read_masters)) [
        | inl f ↦ inl (rw f refl)
        | inr (m, f) ↦
            let b = pick_round-some p rr num_read_masters m f in
            rw (f, accept_blocks-readable io m b.1) (inr (m, accept_read-AcceptsFrom io m b.0 b.1))
      ]
