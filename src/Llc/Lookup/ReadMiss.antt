-- ===== src/Llc/Lookup/ReadMiss.antt =====
-- axi_interconnect/AXI_LLC.cpp: try_complete_lookup, a read or a prefetch that does not find its
-- line.
use axi_interconnect_kit.Llc.Lookup.{finish, retry}
use axi_interconnect_kit.Prelude.{
  Bool, Option, if◌then◌else◌, is_some, ltb, none, not, some, true, ℕ, ◌&&◌, ◌+◌, ◌==◌,
}
use axi_interconnect_kit.Llc.{Config, Limits, master_dcache_r, num_read_masters}
use axi_interconnect_kit.Llc.Regs.{Io, Lookup, MissEntry, PerfCounters, Regs, miss}
use axi_interconnect_kit.Llc.Meta.{RowScan}
use axi_interconnect_kit.Llc.Mshr.{
  can_allocate_prefetch_mshr, find_free_mshr, find_mshr_by_line_addr,
}
use axi_interconnect_kit.Llc.Lookup.Hit.{drop_prefetch}
use axi_interconnect_kit.Llc.Prefetch.{inc64}
use axi_interconnect_kit.Llc.Address.{line_addr, set_index, tag_of}
use axi_interconnect_kit.Llc.Refill.{no_miss, set_mshr}
use axi_interconnect_kit.Llc.Lookup.WriteMiss.{retry_miss, victim_way, with_victim}
use axi_interconnect_kit.Prelude.Words.{u8}
use axi_interconnect_kit.Prelude.Arrays.{update}

unfoldable pub perf_count_read_miss : PerfCounters → ℕ → PerfCounters
unfolding update
perf_count_read_miss perf m =
    let counted = record perf { read_miss = inc64 perf.read_miss } in
    if ltb m num_read_masters
    then record counted { read_miss_by_master = update perf.read_miss_by_master m inc64 }
    else counted

module _ (limits : Limits) (config : Config) where
  -- A prefetch that is given up is counted by `count`.
  abbrev pub give_up : Io → (PerfCounters → PerfCounters) → Io
  give_up io count =
      let regs = drop_prefetch io.regs.lookup_r.id io.reg_write in
      record io { reg_write = finish miss (record regs { perf = count regs.perf }) }

  -- The line is being fetched already.
  abbrev pub merge_read : Io → Io
  merge_read io =
      let regs = io.reg_write in
      if io.regs.lookup_r.is_prefetch
      then give_up io
          (λ perf. record perf { prefetch_drop_inflight = inc64 perf.prefetch_drop_inflight })
      else record io {
        reg_write =
            retry miss
              (record regs { perf = record regs.perf { mshr_merge = inc64 regs.perf.mshr_merge } });
      }

  abbrev pub no_register : Io → Io
  no_register io =
      if io.regs.lookup_r.is_prefetch
      then give_up io
          (λ perf. record perf { prefetch_drop_mshr_full = inc64 perf.prefetch_drop_mshr_full })
      else retry_miss limits config io

  abbrev pub is_noalloc : Lookup → Bool
  is_noalloc l =
      limits.dcache_read_miss_noalloc
      && (not l.is_prefetch && (not l.is_bypass && l.master == master_dcache_r))

  -- The whole line for its master alone.
  abbrev pub noalloc_entry : Io → MissEntry
  noalloc_entry io =
      let l = io.regs.lookup_r in
      record no_miss {
        valid = true;
        bypass = true;
        addr = line_addr config l.addr;
        line_addr = line_addr config l.addr;
        total_size = u8 (config.line_bytes + 255);
        master = l.master;
        id = l.id;
        epoch = io.regs.invalidate_epoch;
      }

  abbrev pub read_miss_entry : Io → ℕ → MissEntry
  read_miss_entry io way =
      let l = io.regs.lookup_r in
      with_victim limits config io way (record no_miss {
        valid = true;
        bypass = l.is_bypass;
        is_prefetch = l.is_prefetch;
        prefetch_train = not l.is_prefetch;
        mode2_ddr_aligned = l.is_mode2_ddr_aligned;
        addr = l.addr;
        line_addr = if l.is_bypass then l.addr else line_addr config l.addr;
        set_idx = set_index config l.addr;
        tag = tag_of config l.addr;
        way = way;
        total_size = l.size;
        master = l.master;
        id = if l.is_prefetch then 0 else l.id;
        epoch = io.regs.invalidate_epoch;
      })

  abbrev pub count_alloc : PerfCounters → PerfCounters
  count_alloc perf = record perf { mshr_alloc = inc64 perf.mshr_alloc }

  abbrev pub start_noalloc : Io → ℕ → Io
  start_noalloc io slot =
      let regs = set_mshr slot (λ old. noalloc_entry io) io.reg_write in
      record io {
        reg_write = finish miss (record regs {
          perf = count_alloc (perf_count_read_miss regs.perf io.regs.lookup_r.master);
        });
      }

  abbrev pub counted_miss : Lookup → Regs → Regs
  counted_miss l regs =
      if l.is_prefetch
      then record (drop_prefetch l.id regs) {
        perf = count_alloc (record regs.perf { prefetch_issue = inc64 regs.perf.prefetch_issue });
      }
      else record regs { perf = count_alloc (perf_count_read_miss regs.perf l.master) }

  abbrev pub start_read : Io → ℕ → Option ℕ → Io
  start_read io slot none = retry_miss limits config io
  start_read io slot (some picked) =
      let regs = set_mshr slot (λ old. read_miss_entry io (u8 picked)) io.reg_write in
      record io { reg_write = finish miss (counted_miss io.regs.lookup_r regs) }

  abbrev pub allocate_read : Io → RowScan → Option ℕ → Io
  allocate_read io scan none = no_register io
  allocate_read io scan (some slot) =
      let l = io.regs.lookup_r in
      if l.is_prefetch && not (can_allocate_prefetch_mshr limits config io.regs)
      then no_register io
      else if is_noalloc l
      then start_noalloc io slot
      else start_read io slot (victim_way limits config io scan)

  unfoldable pub complete_read_miss : Io → RowScan → Io
  unfolding update perf_count_read_miss
  complete_read_miss io scan =
      if is_some
        (find_mshr_by_line_addr limits config io.regs (line_addr config io.regs.lookup_r.addr))
      then merge_read io
      else allocate_read io scan (find_free_mshr limits config io.regs)
