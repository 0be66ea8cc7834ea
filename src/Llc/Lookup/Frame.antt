-- ===== src/Llc/Lookup/Frame.antt =====
-- axi_interconnect/AXI_LLC.cpp: what try_complete_lookup leaves of the miss registers and of the
-- queues of responses, where it allocates no register.
use mathlib.Core.Option
use axi_interconnect_kit.Prelude.{
  Bool, List, Option, arith, false, if_cases, if◌then◌else◌, none, refl, some, true, ℕ, ◌==◌,
}
use axi_interconnect_kit.Llc.{Config, Limits}
use axi_interconnect_kit.Llc.Frame.{
  Frozen, IsPhase-Frozen, Preserves-enqueue, Preserves-same, Preserves-self, Preserves-trans, Runs,
  Runs-none, Runs-some, Shrinks, IsPhase, Preserves,
}
use axi_interconnect_kit.Llc.Regs.{Io, MissEntry, Regs, idle, lookup}
use axi_interconnect_kit.Llc.Meta.{MetaEntry, encode_meta}
use axi_interconnect_kit.Llc.Lookup.{
  answer, answered, complete_direct, direct_read, direct_write, finish, finish_direct, merged,
  retry, way_line,
}
use axi_interconnect_kit.Prelude.Words.{bit}
use axi_interconnect_kit.Llc.Lookup.Hit.{
  bypass_hit, complete_hit, count_hit, drop_prefetch, hit_response, invalidate_hit, mark_victims,
  prefetch_hit, put_hit, read_hit, serve_hit, touch, unmarked, write_hit, write_hit_flags,
}
use axi_interconnect_kit.Llc.Address.{direct_mapped_coords, tag_of}
use axi_interconnect_kit.Llc.Refill.Commit.{table_write_busy}

module _ (limits : Limits) (config : Config) where
  -- A response that finds no room is tried again, and otherwise the lookup is over.
  answered-IsPhase :
      (io : Io) (done : Regs → Regs) (payload : ℕ → ℕ)
      → ((regs : Regs) → Frozen regs (done regs))
      → IsPhase limits config io (answered limits config io done (answer limits config io payload))
  answered-IsPhase io done payload h =
      let l = io.regs.lookup_r in
      go (answer limits config io payload) (
        Preserves-enqueue limits config io.reg_write l.master l.id payload
          (Preserves-self limits config io.reg_write))
    where
      go :
          (sent : Bool × Regs)
          → Preserves limits config io.reg_write sent.1
          → IsPhase limits config io (answered limits config io done sent)
      go (true, regs) k = record {
        start = refl;
        kept = Preserves-trans limits config k (Preserves-same limits config (h regs).0 (h regs).1);
      }
      go (false, regs) k = record {
        start = refl;
        kept = Preserves-trans limits config k (Preserves-same limits config refl refl);
      }

  pub complete_direct-IsPhase :
      (io : Io) → IsPhase limits config io (complete_direct limits config io)
  unfolding complete_direct
  complete_direct-IsPhase io =
      let coords = direct_mapped_coords config io.regs.lookup_r.addr in
      if_cases (IsPhase limits config io) io.regs.lookup_r.is_write
        (direct_write limits config io coords) (direct_read limits config io coords)
        (λ e. IsPhase-Frozen limits config (ground arith) (ground arith))
        (λ e. answered-IsPhase io finish_direct _ (λ regs. (refl, refl)))

  mark_victims-Shrinks :
      (io : Io) (way : ℕ) (line : List ℕ) (mshr : ℕ → MissEntry)
      → Shrinks mshr (mark_victims limits config io way line mshr)
  mark_victims-Shrinks io way line mshr i = ground arith

  put_hit-Runs :
      (io : Io) (way : ℕ) (hit : MetaEntry) (line : List ℕ) (row : Option (List ℕ))
      → Runs limits config io (put_hit limits config io way hit line row)
  put_hit-Runs io way hit line none = Runs-none limits config io
  put_hit-Runs io way hit line (some row) =
      let mshr = io.reg_write.mshr in
      let marked = mark_victims limits config io way line mshr in
      let s : Shrinks mshr (if io.regs.lookup_r.is_bypass then mshr else marked) =
        if_cases (Shrinks mshr) io.regs.lookup_r.is_bypass mshr marked (λ e i v. (v, refl, refl))
          (λ e. mark_victims-Shrinks io way line mshr) in
      Runs-some limits config
        (record { start = refl; kept = record { shrinks = s; rings = λ m r. r } })

  write_hit-Runs :
      (io : Io) (way : ℕ) (hit : MetaEntry)
      → Runs limits config io (write_hit limits config io way hit)
  write_hit-Runs io way hit =
      let l = io.regs.lookup_r in
      let meta : MetaEntry = record {
        tag = tag_of config l.addr;
        flags = write_hit_flags limits config l.is_bypass hit;
      } in
      if_cases (Runs limits config io) (table_write_busy limits config io.table_out)
        (some (record io { reg_write = retry lookup io.reg_write }))
        (put_hit limits config io way hit (merged limits config io (way_line limits config io way))
          (encode_meta meta))
        (λ e. Runs-some limits config (IsPhase-Frozen limits config refl (refl, refl)))
        (λ e. put_hit-Runs io way hit _ (encode_meta meta))

  count_hit-Frozen :
      (master : ℕ) (prefetched : Bool) (regs : Regs)
      → Frozen regs (count_hit limits config master prefetched regs)
  count_hit-Frozen master prefetched regs = (refl, refl)

  serve_hit-Runs :
      (io : Io) (way : ℕ) (hit : MetaEntry) (sent : Bool × Regs)
      → Preserves limits config io.reg_write sent.1
      → Runs limits config io (serve_hit limits config io way hit sent)
  serve_hit-Runs io way hit (false, regs) k = Runs-some limits config (record {
    start = refl;
    kept = Preserves-trans limits config k (Preserves-same limits config refl refl);
  })
  serve_hit-Runs io way hit (true, regs) k = mapped (unmarked limits config hit)
    where
      mapped :
          (row : Option (Option (List ℕ)))
          → Runs limits config io (
              Option.map
                (λ meta. record io {
                  table_out = touch limits config io way meta;
                  reg_write =
                      finish idle (
                        count_hit limits config io.regs.lookup_r.master
                          (bit hit.flags 2 == 1)
                          regs);
                })
                row)
      mapped none = Runs-none limits config io
      mapped (some row) = Runs-some limits config (record {
        start = refl;
        kept = Preserves-trans limits config k (Preserves-same limits config refl refl);
      })

  read_hit-Runs :
      (io : Io) (way : ℕ) (hit : MetaEntry)
      → Runs limits config io (read_hit limits config io way hit)
  read_hit-Runs io way hit =
      let l = io.regs.lookup_r in
      let sent = answer limits config io (hit_response limits config io way) in
      let k =
        Preserves-enqueue limits config io.reg_write l.master l.id
          (hit_response limits config io way) (Preserves-self limits config io.reg_write) in
      if_cases (Runs limits config io) (table_write_busy limits config io.table_out)
        (some (record io { reg_write = retry lookup io.reg_write }))
        (serve_hit limits config io way hit sent)
        (λ e. Runs-some limits config (IsPhase-Frozen limits config refl (refl, refl)))
        (λ e. serve_hit-Runs io way hit sent k)

  pub drop_prefetch-Frozen : (slot : ℕ) (regs : Regs) → Frozen regs (drop_prefetch slot regs)
  drop_prefetch-Frozen slot regs = ground arith

  pub complete_hit-Runs :
      (io : Io) (way : ℕ) (hit : MetaEntry)
      → Runs limits config io (complete_hit limits config io way hit)
  unfolding complete_hit
  complete_hit-Runs io way hit =
      let l = io.regs.lookup_r in
      let (p, q) = drop_prefetch-Frozen l.id io.reg_write in
      let invalidated : Runs limits config io (some (invalidate_hit limits config io way hit)) =
        Runs-some limits config (IsPhase-Frozen limits config (ground arith) (ground arith)) in
      let dropped : Runs limits config io (some (prefetch_hit limits config io)) =
        Runs-some limits config (IsPhase-Frozen limits config refl (p, q)) in
      let bypassed : Runs limits config io (some (bypass_hit limits config io way)) =
        Runs-some limits config (answered-IsPhase io (finish idle) _ (λ regs. (refl, refl))) in
      if_cases (Runs limits config io) l.is_write (write_hit limits config io way hit) _
        (λ e. write_hit-Runs io way hit)
        (λ e.
          if_cases (Runs limits config io) l.is_invalidate
            (some (invalidate_hit limits config io way hit))
            (if l.is_prefetch
              then some (prefetch_hit limits config io)
              else if l.is_bypass
              then some (bypass_hit limits config io way)
              else read_hit limits config io way hit)
            (λ f. invalidated)
            (λ f.
              if_cases (Runs limits config io) l.is_prefetch (some (prefetch_hit limits config io))
                (if l.is_bypass
                  then some (bypass_hit limits config io way)
                  else read_hit limits config io way hit)
                (λ g. dropped)
                (λ g.
                  if_cases (Runs limits config io) l.is_bypass
                    (some (bypass_hit limits config io way)) (read_hit limits config io way hit)
                    (λ h. bypassed) (λ h. read_hit-Runs io way hit))))
