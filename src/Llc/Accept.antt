-- ===== src/Llc/Accept.antt =====
-- axi_interconnect/AXI_LLC.cpp: the picks among the masters, and the requests that take the lookup.
pub mod Laws
use axi_interconnect_kit.Prelude.{
  Bool, List, Option, [], any_of, false, if◌then◌else◌, is_some, ltb, none, not, some, true, ℕ, ◌%◌,
  ◌&&◌, ◌+◌, ◌||◌, ◌∷◌,
}
use axi_interconnect_kit.Llc.{Config, Limits, num_read_masters, num_write_masters}
use axi_interconnect_kit.Llc.Regs.{Io, Lookup, PerfCounters, Regs, lookup}
use axi_interconnect_kit.Llc.Ports.{ReadReq, TableReq}
use axi_interconnect_kit.Llc.Pending.{
  can_accept_invalidate_line_now, has_pending_upstream_write_line, read_blocks, victim_line_pending,
  write_line_pending,
}
use axi_interconnect_kit.Llc.Mshr.{find_mshr_by_line_addr}
use axi_interconnect_kit.Llc.Prefetch.{inc64}
use axi_interconnect_kit.Llc.Address.{line_addr, set_index}
use axi_interconnect_kit.Prelude.Search.{pick_round}
use axi_interconnect_kit.Prelude.Words.{u8}
use axi_interconnect_kit.Prelude.Arrays.{update}
use axi_interconnect_kit.Llc.Queues.{write_queue_full}

module _ (limits : Limits) (config : Config) where
  abbrev pub readable : Io → Regs → ℕ → Bool
  readable io regs m =
      let req = io.ext_in.upstream.read_req m in
      req.valid
      && (not (io.regs.read_resp m).valid
          && (not (regs.read_resp m).valid
              && not (any_of (read_blocks limits config io.ext_in regs m req.bypass req.addr))))

  unfoldable pub pick_new_read_master : Io → Regs → Option ℕ
  pick_new_read_master io regs = pick_round (readable io regs) regs.rr_read_master num_read_masters

  unfoldable pub pick_new_write_master : Io → Regs → Option ℕ
  pick_new_write_master io regs =
      pick_round
        (λ m.
          let req = io.ext_in.upstream.write_req m in
          req.valid
          && (not (write_queue_full limits config regs m)
              && not (victim_line_pending limits config regs (line_addr config req.addr))))
        regs.rr_write_master num_write_masters

  unfoldable pub pick_write_lookup_master : Regs → Option ℕ
  pick_write_lookup_master regs =
      pick_round (λ m. let ctx = (regs.write_port m).ctx in ctx.valid && ctx.lookup_pending)
        regs.rr_write_master num_write_masters

  unfoldable pub pick_bypass_write_issue_master : Regs → Option ℕ
  pick_bypass_write_issue_master regs =
      pick_round
        (λ m.
          let ctx = (regs.write_port m).ctx in
          ctx.valid && (ctx.bypass && (not ctx.mem_done && not ctx.mem_issued)))
        regs.rr_write_master num_write_masters

  abbrev pub read_lookup : ℕ → ReadReq → Lookup
  read_lookup m req = record {
    valid = true;
    issued = false;
    addr = req.addr;
    size = req.total_size;
    master = u8 m;
    id = req.id;
    is_prefetch = false;
    is_invalidate = false;
    is_write = false;
    is_bypass = req.bypass;
    is_direct_mapped = req.direct_mapped;
    is_mode2_ddr_aligned = req.mode2_ddr_aligned;
  }

  unfoldable pub perf_count_read_access : PerfCounters → ℕ → PerfCounters
  unfolding update
  perf_count_read_access perf m =
      let counted = record perf { read_access = inc64 perf.read_access } in
      if ltb m num_read_masters
      then record counted { read_access_by_master = update perf.read_access_by_master m inc64 }
      else counted

  abbrev pub count_access : PerfCounters → ℕ → ReadReq → PerfCounters
  count_access perf m req =
      if req.bypass
      then record perf { bypass_read = inc64 perf.bypass_read }
      else if req.direct_mapped
      then perf
      else perf_count_read_access perf (u8 m)

  abbrev pub accept_read : Io → ℕ → Io
  accept_read io m =
      let req = io.ext_in.upstream.read_req m in
      let upstream = io.ext_out.upstream in
      let regs = io.reg_write in
      record io {
        ext_out = record io.ext_out {
          upstream = record upstream {
            read_req_ready = update upstream.read_req_ready m (λ old. true);
          };
        };
        reg_write = record regs {
          rr_read_master = u8 ((m + 1) % num_read_masters);
          perf = count_access regs.perf m req;
          prefetch_r = record regs.prefetch_r { q = λ i. record { valid = false; line_addr = 0 } };
          lookup_r = read_lookup m req;
          state = lookup;
        };
      }

  -- The guards that follow the pick.
  abbrev pub accept_blocks : Io → ℕ → List Bool
  accept_blocks io m =
      let req = io.ext_in.upstream.read_req m in
      let line = line_addr config req.addr in
      not req.valid
      ∷ ((io.regs.read_resp m).valid
          ∷ (has_pending_upstream_write_line limits config io.ext_in line
              ∷ (write_line_pending limits config io.reg_write line
                  ∷ (victim_line_pending limits config io.reg_write line
                      ∷ ((not req.direct_mapped
                            && is_some (find_mshr_by_line_addr limits config io.reg_write line))
                          ∷ [])))))

  abbrev pub accept_picked : Io → Option ℕ → Io
  accept_picked io none = io
  accept_picked io (some m) = if any_of (accept_blocks io m) then io else accept_read io m

  unfoldable pub accept_new_requests : Io → Io
  unfolding pick_new_read_master perf_count_read_access update
  accept_new_requests io = accept_picked io (pick_new_read_master io io.reg_write)

  abbrev pub launch_write : Regs → Option ℕ → Bool × Regs
  launch_write regs none = (false, regs)
  launch_write regs (some m) =
      let ctx = (regs.write_port m).ctx in
      (
        true,
        record regs {
          lookup_r = record {
            valid = true;
            issued = false;
            addr = ctx.addr;
            size = ctx.total_size;
            master = u8 m;
            id = ctx.id;
            is_prefetch = false;
            is_invalidate = false;
            is_write = true;
            is_bypass = ctx.bypass;
            is_direct_mapped = ctx.direct_mapped;
            is_mode2_ddr_aligned = ctx.mode2_ddr_aligned;
          };
          write_port =
              update regs.write_port m
                (λ port. record port { ctx = record port.ctx { lookup_pending = false } });
          state = lookup;
          rr_write_master = u8 ((m + 1) % num_write_masters);
        },
      )

  unfoldable pub try_launch_pending_write_lookup : Regs → Bool × Regs
  unfolding pick_write_lookup_master update
  try_launch_pending_write_lookup regs =
      if regs.lookup_r.valid
      then (false, regs)
      else launch_write regs (pick_write_lookup_master regs)

  abbrev pub set_line_accepted : Bool → Io → Io
  set_line_accepted b io = record io {
    ext_out = record io.ext_out { mem = record io.ext_out.mem { invalidate_line_accepted = b } };
  }

  abbrev pub accept_invalidate : Io → Io
  accept_invalidate io =
      let regs = io.reg_write in
      set_line_accepted true (record io {
        reg_write = record regs {
          lookup_r = record {
            valid = true;
            issued = false;
            addr = io.ext_in.mem.invalidate_line_addr;
            size = 0;
            master = 0;
            id = 0;
            is_prefetch = false;
            is_invalidate = true;
            is_write = false;
            is_bypass = false;
            is_direct_mapped = false;
            is_mode2_ddr_aligned = false;
          };
          state = lookup;
        };
      })

  unfoldable pub accept_maintenance_request : Io → Io
  accept_maintenance_request io =
      let mem = io.ext_in.mem in
      if any_of (
        not mem.invalidate_line_valid
        ∷ (mem.invalidate_all
            ∷ (not (
                  can_accept_invalidate_line_now limits config io.ext_in io.regs
                    (line_addr config mem.invalidate_line_addr))
                ∷ (io.reg_write.lookup_r.valid ∷ []))))
      then set_line_accepted false io
      else accept_invalidate io

  -- The guards of the table read.
  abbrev pub issue_blocks : Io → List Bool
  issue_blocks io =
      let l = io.reg_write.lookup_r in
      let line = line_addr config l.addr in
      let tables = io.table_out in
      (not io.regs.lookup_r.valid || not l.valid)
      ∷ (io.regs.lookup_r.issued
          ∷ (victim_line_pending limits config io.reg_write line
              ∷ ((tables.data_req.enable
                    || (tables.meta_req.enable
                        || (tables.valid_req.enable || tables.repl_req.enable)))
                  ∷ ((not l.is_prefetch
                        && (not l.is_direct_mapped
                            && is_some (find_mshr_by_line_addr limits config io.reg_write line)))
                      ∷ []))))

  abbrev pub read_row : ℕ → TableReq → TableReq
  read_row index req = record req { enable = true; index = index }

  abbrev pub issue_lookup : Io → Io
  issue_lookup io =
      let index = set_index config io.reg_write.lookup_r.addr in
      let tables = io.table_out in
      record io {
        table_out = record tables {
          data_req = read_row index tables.data_req;
          meta_req = read_row index tables.meta_req;
          valid_req = read_row index tables.valid_req;
          repl_req = read_row index tables.repl_req;
        };
        reg_write = record io.reg_write {
          lookup_r = record io.reg_write.lookup_r { issued = true };
          state = lookup;
        };
      }

  unfoldable pub drive_lookup_request : Io → Io
  drive_lookup_request io = if any_of (issue_blocks io) then io else issue_lookup io
