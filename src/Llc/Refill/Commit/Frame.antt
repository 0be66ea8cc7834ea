-- ===== src/Llc/Refill/Commit/Frame.antt =====
-- axi_interconnect/AXI_LLC.cpp: what the commit of a refill leaves of the miss registers and of the
-- queues of responses.
use axi_interconnect_kit.Prelude.{
  Option, arith, if_cases, none, refl, some, true, ℕ, Bool, List, false, if◌then◌else◌, ◌∙◌, not,
}
use axi_interconnect_kit.Llc.{Config, Limits}
use axi_interconnect_kit.Llc.Frame.{
  Frozen, Preserves-enqueue, Preserves-same, Preserves-self, Preserves-set_mshr, Preserves-trans,
  Preserves, IsPhase, IsPhase-Frozen, IsPhase-self, IsPhase-trans, Runs, Runs-from, Runs-none,
  Runs-some,
}
use axi_interconnect_kit.Llc.Regs.{Io, MissEntry, Regs, refill}
use axi_interconnect_kit.Llc.Queues.{enqueue_read_response, enqueue_read_victim_snapshot}
use axi_interconnect_kit.Llc.Mshr.{pick_refill_commit_slot}
use axi_interconnect_kit.Llc.Refill.{free_mshr, receive, set_mshr, issue}
use axi_interconnect_kit.Llc.Prefetch.{try_schedule_prefetch}
use axi_interconnect_kit.Llc.Meta.{MetaEntry, encode_meta}
use axi_interconnect_kit.Llc.Refill.Commit.{
  commit_at, commit_line, commit_picked, commit_stale, committed_flags, committed_regs,
  drive_mem_read_path, externalize, finish_write, release_victim, resp_data, respond, write_tables,
}
use axi_interconnect_kit.Llc.Bytes.{full_line_strobe, update_dirty_line_count}
use axi_interconnect_kit.Prelude.Words.{u8}
use axi_interconnect_kit.Prelude.Arrays.{update}
use axi_interconnect_kit.Llc.Refill.Frame.{
  free_mshr-Preserves, issue-IsPhase, receive-IsPhase, try_schedule_prefetch-Frozen,
}

module _ (limits : Limits) (config : Config) where
  enqueue_victim-Frozen :
      (owner victim : ℕ) (words : ℕ → ℕ) (strobe : ℕ → Bool) (regs : Regs)
      → Frozen regs (enqueue_read_victim_snapshot limits config owner victim words strobe regs).1
  unfolding enqueue_read_victim_snapshot
  enqueue_victim-Frozen owner victim words strobe regs = ground arith

  externalize-Frozen :
      (io : Io) (slot : ℕ) (entry : MissEntry)
      → Frozen io.reg_write (externalize limits config io slot entry).1
  unfolding externalize
  externalize-Frozen io slot entry = ground (
    arith,
    enqueue_victim-Frozen (u8 slot) entry.victim_addr entry.victim_data
        (full_line_strobe limits config) io.reg_write,
  )

  release_victim-Frozen :
      (slot : ℕ) (regs : Regs) → Frozen regs (release_victim limits config slot regs)
  release_victim-Frozen slot regs = ground arith

  respond-IsPhase :
      (io : Io) (slot : ℕ) (entry : MissEntry) (trained : Bool) (regs : Regs)
      → Preserves limits config io.reg_write regs
      → IsPhase limits config io (respond limits config io slot entry trained regs)
  unfolding respond
  respond-IsPhase io slot entry trained regs h =
      let sent =
        enqueue_read_response limits config entry.master entry.id (resp_data limits config entry)
          regs in
      let k =
        Preserves-enqueue limits config regs entry.master entry.id (resp_data limits config entry)
          h in
      let after =
        if trained then try_schedule_prefetch limits config io.regs entry sent.1 else sent.1 in
      let frozen : Frozen sent.1 after =
        if_cases (Frozen sent.1) trained _ sent.1
          (λ e. try_schedule_prefetch-Frozen limits config io.regs entry sent.1)
          (λ e. (refl, refl)) in
      let (p, q) = release_victim-Frozen slot after in
      let released : Preserves limits config io.reg_write
          (release_victim limits config slot after) =
        Preserves-trans limits config k
          (Preserves-same limits config (p ∙ frozen.0) (q ∙ frozen.1)) in
      let freed : IsPhase limits config io
          (record io { reg_write = free_mshr io slot (release_victim limits config slot after) }) =
        record { start = refl; kept = free_mshr-Preserves limits config io slot _ released } in
      let waits : IsPhase limits config io (record io { reg_write = sent.1 }) = record {
        start = refl;
        kept = k;
      } in
      if_cases (IsPhase limits config io) sent.0 _ (record io { reg_write = sent.1 }) (λ e. freed)
        (λ e. waits)

  commit_stale-IsPhase :
      (io : Io) (slot : ℕ) (entry : MissEntry)
      → IsPhase limits config io (commit_stale limits config io slot entry)
  unfolding commit_stale
  commit_stale-IsPhase io slot entry =
      let kept = externalize limits config io slot entry in
      let h = externalize-Frozen io slot entry in
      let k : Preserves limits config io.reg_write kept.1 = Preserves-same limits config h.0 h.1 in
      let waits : IsPhase limits config io (record io { reg_write = kept.1 }) = record {
        start = refl;
        kept = k;
      } in
      let freed : IsPhase limits config io (record io { reg_write = free_mshr io slot kept.1 }) =
        record { start = refl; kept = free_mshr-Preserves limits config io slot kept.1 k } in
      let answered = respond-IsPhase io slot entry false kept.1 k in
      if_cases (IsPhase limits config io) (not kept.0) (record io { reg_write = kept.1 })
        (if entry.is_prefetch
          then record io { reg_write = free_mshr io slot kept.1 }
          else respond limits config io slot entry false kept.1)
        (λ e. waits)
        (λ e.
          if_cases (IsPhase limits config io) entry.is_prefetch
            (record io { reg_write = free_mshr io slot kept.1 })
            (respond limits config io slot entry false kept.1) (λ f. freed) (λ f. answered))

  committed_regs-Preserves :
      (io : Io) (slot : ℕ) (entry : MissEntry) {old : Regs} (regs : Regs)
      → Preserves limits config old regs
      → Preserves limits config old (committed_regs limits config io slot entry regs)
  committed_regs-Preserves io slot entry {old} regs h =
      let dirty =
        update_dirty_line_count io.regs.dirty_line_count entry.victim_dirty entry.is_write in
      let counted : Regs = record regs { dirty_line_count = dirty } in
      let finished : Regs = record regs {
        write_port = update regs.write_port entry.master (finish_write limits config);
        dirty_line_count = dirty;
      } in
      let k : Preserves limits config old counted =
        Preserves-trans limits config h (Preserves-same limits config refl refl) in
      let l : Preserves limits config old finished =
        Preserves-trans limits config h (Preserves-same limits config refl refl) in
      if_cases (Preserves limits config old) entry.is_write (free_mshr io slot finished)
        (set_mshr slot (λ old. record old { refill_committed = true }) counted)
        (λ e. free_mshr-Preserves limits config io slot finished l)
        (λ e. Preserves-set_mshr limits config counted slot _ (λ e v. (v, refl, refl)) k)

  write_tables-Runs :
      (io : Io) (slot : ℕ) (entry : MissEntry) (regs : Regs) (row : Option (List ℕ))
      → Preserves limits config io.reg_write regs
      → Runs limits config io (write_tables limits config io slot entry regs row)
  write_tables-Runs io slot entry regs none h = Runs-none limits config io
  write_tables-Runs io slot entry regs (some row) h =
      Runs-some limits config
        (record { start = refl; kept = committed_regs-Preserves io slot entry regs h })

  commit_line-Runs :
      (io : Io) (slot : ℕ) (entry : MissEntry)
      → Runs limits config io (commit_line limits config io slot entry)
  unfolding commit_line
  commit_line-Runs io slot entry =
      let kept = externalize limits config io slot entry in
      let (p, q) = externalize-Frozen io slot entry in
      let k : Preserves limits config io.reg_write kept.1 = Preserves-same limits config p q in
      let meta : MetaEntry = record {
        tag = entry.tag;
        flags = committed_flags limits config entry;
      } in
      let waits : Runs limits config io (some (record io { reg_write = kept.1 })) =
        Runs-some limits config (record { start = refl; kept = k }) in
      let busy : Runs limits config io
          (some (record io { reg_write = record kept.1 { state = refill } })) =
        Runs-some limits config (IsPhase-Frozen limits config refl (p, q)) in
      ground (arith, waits, busy, write_tables-Runs io slot entry kept.1 (encode_meta meta) k)

  commit_at-Runs : (io : Io) (slot : ℕ) → Runs limits config io (commit_at limits config io slot)
  unfolding commit_at
  commit_at-Runs io slot =
      let entry = io.reg_write.mshr slot in
      let self = Preserves-self limits config io.reg_write in
      let (p, q) = release_victim-Frozen slot io.reg_write in
      let stale : Runs limits config io (some (commit_stale limits config io slot entry)) =
        Runs-some limits config (commit_stale-IsPhase io slot entry) in
      let released = release_victim limits config slot io.reg_write in
      let h : Preserves limits config io.reg_write released = Preserves-same limits config p q in
      let freed : Runs limits config io
          (some (record io { reg_write = free_mshr io slot released })) =
        Runs-some limits config
          (record { start = refl; kept = free_mshr-Preserves limits config io slot released h }) in
      let served : Runs limits config io
          (some (respond limits config io slot entry true io.reg_write)) =
        Runs-some limits config (respond-IsPhase io slot entry true io.reg_write self) in
      ground (arith, stale, freed, served, commit_line-Runs io slot entry)

  commit_picked-Runs :
      (io : Io) (slot : Option ℕ) → Runs limits config io (commit_picked limits config io slot)
  commit_picked-Runs io none = Runs-some limits config (IsPhase-self limits config io)
  commit_picked-Runs io (some slot) = commit_at-Runs io slot

  pub drive_mem_read_path-Runs :
      (cycle : ℕ) (io : Io) → Runs limits config io (drive_mem_read_path limits config cycle io)
  unfolding drive_mem_read_path
  drive_mem_read_path-Runs cycle io =
      let received = receive limits config cycle io in
      let issued = issue limits config cycle received in
      let h : IsPhase limits config io issued =
        IsPhase-trans limits config (receive-IsPhase limits config cycle io)
          (issue-IsPhase limits config cycle received) in
      let slot = pick_refill_commit_slot limits config io.regs in
      Runs-from limits config io issued (commit_picked limits config issued slot) h
        (commit_picked-Runs issued slot)
