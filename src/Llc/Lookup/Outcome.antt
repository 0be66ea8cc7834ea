-- ===== src/Llc/Lookup/Outcome.antt =====
-- axi_interconnect/AXI_LLC.cpp: try_complete_lookup on every path, the misses of reads included.
use axi_interconnect_kit.Prelude.{
  Bool-cases, Option, arith, if_cases, if◌then◌else◌, inl, inr, is_some, is_some-false, none, not,
  refl, some, true, ℕ, ◌&&◌, ◌≡◌, ◌⊎◌,
}
use axi_interconnect_kit.Llc.{Config, Limits}
use axi_interconnect_kit.Llc.Frame.{Frozen, IsPhase-Frozen, IsPhase-self}
use axi_interconnect_kit.Llc.Regs.{Io, Lookup, PerfCounters, Regs, idle, miss}
use axi_interconnect_kit.Llc.Lookup.Distinct.{
  IsPhase-IsServed, Runs-Serves, Serves, Serves-some, allocated-IsServed,
  complete_write_miss-Serves, retried, IsServed,
}
use axi_interconnect_kit.Llc.Meta.{RowScan}
use axi_interconnect_kit.Llc.Lookup.ReadMiss.{
  allocate_read, complete_read_miss, counted_miss, give_up, is_noalloc, merge_read, no_register,
  noalloc_entry, read_miss_entry, start_noalloc, start_read,
}
use axi_interconnect_kit.Llc.Mshr.{
  can_allocate_prefetch_mshr, find_free_mshr, find_mshr_by_line_addr,
}
use axi_interconnect_kit.Llc.Lookup.{complete_direct, finish, retry, rows_ready}
use axi_interconnect_kit.Llc.Lookup.Frame.{
  complete_direct-IsPhase, complete_hit-Runs, drop_prefetch-Frozen,
}
use axi_interconnect_kit.Llc.Lookup.Complete.{
  complete_miss, complete_scan, row_scan, try_complete_lookup,
}
use axi_interconnect_kit.Llc.Lookup.WriteMiss.{complete_write_miss, retry_miss, victim_way}
use axi_interconnect_kit.Llc.Prefetch.{inc64}
use axi_interconnect_kit.Llc.Address.{line_addr}
use axi_interconnect_kit.Llc.Refill.{set_mshr}
use axi_interconnect_kit.Prelude.Words.{u8}

module _ (limits : Limits) (config : Config) where
  give_up-IsServed :
      (io : Io) (count : PerfCounters → PerfCounters)
      → IsServed limits config io (give_up limits config io count)
  give_up-IsServed io count = IsPhase-IsServed limits config (
      IsPhase-Frozen limits config refl
        (drop_prefetch-Frozen limits config io.regs.lookup_r.id io.reg_write))

  merge_read-IsServed : (io : Io) → IsServed limits config io (merge_read limits config io)
  merge_read-IsServed io =
      let regs = io.reg_write in
      if_cases (IsServed limits config io) io.regs.lookup_r.is_prefetch _
        (record io {
          reg_write =
              retry miss (record regs {
                perf = record regs.perf { mshr_merge = inc64 regs.perf.mshr_merge };
              });
        })
        (λ e.
          give_up-IsServed io
            (λ perf. record perf { prefetch_drop_inflight = inc64 perf.prefetch_drop_inflight }))
        (λ e. IsPhase-IsServed limits config (IsPhase-Frozen limits config refl (refl, refl)))

  no_register-IsServed : (io : Io) → IsServed limits config io (no_register limits config io)
  no_register-IsServed io =
      if_cases (IsServed limits config io) io.regs.lookup_r.is_prefetch _
        (retry_miss limits config io)
        (λ e.
          give_up-IsServed io
            (λ perf. record perf { prefetch_drop_mshr_full = inc64 perf.prefetch_drop_mshr_full }))
        (λ e. retried limits config io)

  counted_miss-Frozen : (l : Lookup) (regs : Regs) → Frozen regs (counted_miss limits config l regs)
  counted_miss-Frozen l regs = ground (arith, drop_prefetch-Frozen limits config l.id regs)

  start_read-IsServed :
      (io : Io) (slot : ℕ) (way : Option ℕ)
      → find_mshr_by_line_addr limits config io.regs (line_addr config io.regs.lookup_r.addr) ≡ none
      → IsServed limits config io (start_read limits config io slot way)
  start_read-IsServed io slot none h = retried limits config io
  start_read-IsServed io slot (some picked) h =
      let l = io.regs.lookup_r in
      let entry = read_miss_entry limits config io (u8 picked) in
      let absent : (entry.bypass ≡ true)
          ⊎ (find_mshr_by_line_addr limits config io.regs entry.line_addr ≡ none) =
        elim (Bool-cases l.is_bypass) [ inl e ↦ inl e | inr e ↦ inr (simp e h) ] in
      allocated-IsServed limits config io (start_read limits config io slot (some picked)) slot
        entry refl (counted_miss-Frozen l (set_mshr slot (λ old. entry) io.reg_write)) absent

  allocate_read-IsServed :
      (io : Io) (scan : RowScan) (slot : Option ℕ)
      → find_mshr_by_line_addr limits config io.regs (line_addr config io.regs.lookup_r.addr) ≡ none
      → IsServed limits config io (allocate_read limits config io scan slot)
  allocate_read-IsServed io scan none h = no_register-IsServed io
  allocate_read-IsServed io scan (some slot) h =
      let l = io.regs.lookup_r in
      let way = victim_way limits config io scan in
      let alone : IsServed limits config io (start_noalloc limits config io slot) =
        allocated-IsServed limits config io (start_noalloc limits config io slot) slot
          (noalloc_entry limits config io) refl (refl, refl) (inl refl) in
      if_cases (IsServed limits config io)
        (l.is_prefetch && not (can_allocate_prefetch_mshr limits config io.regs))
        (no_register limits config io)
        (if is_noalloc limits config l
          then start_noalloc limits config io slot
          else start_read limits config io slot way)
        (λ e. no_register-IsServed io)
        (λ e.
          if_cases (IsServed limits config io) (is_noalloc limits config l)
            (start_noalloc limits config io slot) (start_read limits config io slot way)
            (λ f. alone) (λ f. start_read-IsServed io slot way h))

  complete_read_miss-IsServed :
      (io : Io) (scan : RowScan)
      → IsServed limits config io (complete_read_miss limits config io scan)
  unfolding complete_read_miss
  complete_read_miss-IsServed io scan =
      let found =
        find_mshr_by_line_addr limits config io.regs (line_addr config io.regs.lookup_r.addr) in
      let slot = find_free_mshr limits config io.regs in
      if_cases (IsServed limits config io) (is_some found) (merge_read limits config io)
        (allocate_read limits config io scan slot) (λ e. merge_read-IsServed io)
        (λ e. allocate_read-IsServed io scan slot (is_some-false found e))

  complete_miss-Serves :
      (io : Io) (scan : RowScan) → Serves limits config io (complete_miss limits config io scan)
  complete_miss-Serves io scan =
      let l = io.regs.lookup_r in
      let over : Serves limits config io
          (some (record io { reg_write = finish idle io.reg_write })) =
        Serves-some limits config
          (IsPhase-IsServed limits config (IsPhase-Frozen limits config refl (refl, refl))) in
      if_cases (Serves limits config io) l.is_write (complete_write_miss limits config io scan)
        (if l.is_invalidate
          then some (record io { reg_write = finish idle io.reg_write })
          else some (complete_read_miss limits config io scan))
        (λ e. complete_write_miss-Serves limits config io scan)
        (λ e.
          if_cases (Serves limits config io) l.is_invalidate
            (some (record io { reg_write = finish idle io.reg_write }))
            (some (complete_read_miss limits config io scan)) (λ f. over)
            (λ f. Serves-some limits config (complete_read_miss-IsServed io scan)))

  complete_scan-Serves :
      (io : Io) (scan : RowScan) (way : Option ℕ)
      → Serves limits config io (complete_scan limits config io scan way)
  complete_scan-Serves io scan none = complete_miss-Serves io scan
  complete_scan-Serves io scan (some way) =
      Runs-Serves limits config io _ (complete_hit-Runs limits config io way scan.hit_meta)

  -- The end of a lookup leaves the rings sound, and no line is fetched twice.
  pub try_complete_lookup-Serves :
      (io : Io) → Serves limits config io (try_complete_lookup limits config io)
  unfolding try_complete_lookup
  try_complete_lookup-Serves io =
      let scan = row_scan limits config io in
      if_cases (Serves limits config io) (not (rows_ready limits config io)) (some io)
        (if io.regs.lookup_r.is_direct_mapped
          then some (complete_direct limits config io)
          else complete_scan limits config io scan scan.hit_way)
        (λ e.
          Serves-some limits config
            (IsPhase-IsServed limits config (IsPhase-self limits config io)))
        (λ e.
          if_cases (Serves limits config io) io.regs.lookup_r.is_direct_mapped
            (some (complete_direct limits config io))
            (complete_scan limits config io scan scan.hit_way)
            (λ f.
              Serves-some limits config
                (IsPhase-IsServed limits config (complete_direct-IsPhase limits config io)))
            (λ f. complete_scan-Serves io scan scan.hit_way))
