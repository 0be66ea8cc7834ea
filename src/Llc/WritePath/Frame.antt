-- ===== src/Llc/WritePath/Frame.antt =====
-- axi_interconnect/AXI_LLC.cpp: what drive_write_path leaves of the miss registers and of the queues
-- of responses.
use axi_interconnect_kit.Llc.Frame.{
  Preserves, Flagged, Flagged-none, Flagged-some, Preserves-same, Preserves-self, Preserves-trans,
  Frozen, IsPhase, IsPhase-Frozen, IsPhase-self, Preserves-set_mshr, Runs, Runs-go_on, Runs-some,
  IsPhase-trans, Runs-and_then, Runs-drop_flag, Runs-from, Runs-map,
}
use axi_interconnect_kit.Prelude.{
  List, Option, false, if_cases, none, refl, some, true, ℕ, arith, suc, zero, ◌+◌, ◌∙◌, not, ◌&&◌,
}
use axi_interconnect_kit.Llc.{Config, Limits, num_write_masters}
use axi_interconnect_kit.Llc.Regs.{Io, Regs}
use axi_interconnect_kit.Llc.WritePath.{
  commit_ctx, sample_write, try_commit_write_ctx_after_victim, answer_bypass, commit_writes,
  pop_victim, retire_write_resps, victim_written, answer_victim, take_write_resp, answer_masters,
  drop_flag, set_port, victim_owner,
}
use axi_interconnect_kit.Llc.Meta.{encode_meta, MetaEntry}
use axi_interconnect_kit.Llc.WritePath.Issue.{drive_write_path, issue_writes, and_then}
use axi_interconnect_kit.Llc.Pending.{find_bypass_write_mem_owner}
use axi_interconnect_kit.Llc.Reset.{no_victim_wb}
use axi_interconnect_kit.Llc.WritePath.Issue.Frame.{issue_writes-IsPhase}

module _ (limits : Limits) (config : Config) where
  commit_ctx-Flagged :
      (io : Io) (m : ℕ) (row : Option (List ℕ))
      → Flagged limits config io (commit_ctx limits config io m row)
  commit_ctx-Flagged io m none = Flagged-none limits config io
  commit_ctx-Flagged io m (some row) =
      Flagged-some limits config true (IsPhase-Frozen limits config refl (refl, refl))

  try_commit-Flagged :
      (io : Io) (m : ℕ)
      → Flagged limits config io (try_commit_write_ctx_after_victim limits config io m)
  unfolding try_commit_write_ctx_after_victim
  try_commit-Flagged io m =
      let meta : MetaEntry = record { tag = (io.reg_write.write_port m).ctx.tag; flags = 3 } in
      ground (
        arith,
        Flagged-some limits config false (IsPhase-self limits config io),
        commit_ctx-Flagged io m (encode_meta meta),
      )

  commit_writes-Runs :
      (m n : ℕ) (io : Io) → Runs limits config io (commit_writes limits config m n io)
  unfolding commit_writes
  commit_writes-Runs m zero io = Runs-some limits config (IsPhase-self limits config io)
  commit_writes-Runs m (suc n) io =
      Runs-go_on limits config (λ after. commit_writes limits config (m + 1) n after) io
        (try_commit_write_ctx_after_victim limits config io m) (try_commit-Flagged io m)
        (λ after. commit_writes-Runs (m + 1) n after)

  sample_write-Frozen :
      (cycle issued : ℕ) (regs : Regs) → Frozen regs (sample_write cycle issued regs)
  sample_write-Frozen cycle issued regs = ground arith

  pop_victim-Frozen : (old regs : Regs) → Frozen regs (pop_victim limits config old regs)
  pop_victim-Frozen old regs = ground arith

  victim_written-Preserves :
      (slot : Option ℕ) (regs : Regs)
      → Preserves limits config regs (victim_written limits config slot regs)
  victim_written-Preserves none regs = Preserves-self limits config regs
  victim_written-Preserves (some slot) regs =
      Preserves-set_mshr limits config regs slot _ (λ e v. (v, refl, refl))
        (Preserves-self limits config regs)

  retire_write_resps-IsPhase : (io : Io) → IsPhase limits config io (retire_write_resps io)
  unfolding retire_write_resps
  retire_write_resps-IsPhase io = IsPhase-Frozen limits config refl (refl, refl)

  answer_bypass-IsPhase :
      (cycle : ℕ) (io : Io) (m : Option ℕ)
      → IsPhase limits config io (answer_bypass limits config cycle io m)
  answer_bypass-IsPhase cycle io none = IsPhase-self limits config io
  answer_bypass-IsPhase cycle io (some m) =
      IsPhase-Frozen limits config refl (sample_write-Frozen cycle _ _)

  answer_victim-Runs :
      (cycle : ℕ) (io : Io) → Runs limits config io (answer_victim limits config cycle io)
  unfolding answer_victim
  answer_victim-Runs cycle io =
      let wb = io.regs.victim_wb in
      let base : Regs = record io.reg_write { victim_wb = no_victim_wb } in
      let cleared = sample_write cycle wb.issue_cycle base in
      let (p, q) = sample_write-Frozen cycle wb.issue_cycle base in
      let written : Io = record io {
        reg_write =
            set_port wb.write_master
              (λ port. record port { ctx = record port.ctx { victim_mem_done = true } }) cleared;
      } in
      let owner = victim_owner limits config io.regs in
      let (p', q') = pop_victim-Frozen io.regs cleared in
      let of_write : Runs limits config io (
          drop_flag limits config
            (try_commit_write_ctx_after_victim limits config written wb.write_master)) =
        Runs-from limits config io written _ (IsPhase-Frozen limits config refl (p, q))
          (Runs-drop_flag limits config written _ (try_commit-Flagged written wb.write_master)) in
      let of_queue : Runs limits config io
          (some (record io { reg_write = pop_victim limits config io.regs cleared })) =
        Runs-some limits config (IsPhase-Frozen limits config refl (p' ∙ p, q' ∙ q)) in
      let of_miss : Runs limits config io
          (some (record io { reg_write = victim_written limits config owner cleared })) =
        Runs-some limits config (record {
          start = refl;
          kept =
              Preserves-trans limits config (Preserves-same limits config p q)
                (victim_written-Preserves owner cleared);
        }) in
      ground (arith, of_write, of_queue, of_miss)

  take_write_resp-Runs :
      (cycle : ℕ) (io : Io) → Runs limits config io (take_write_resp limits config cycle io)
  unfolding take_write_resp
  take_write_resp-Runs cycle io =
      let heard : Io = record io {
        ext_out = record io.ext_out { mem = record io.ext_out.mem { write_resp_ready = true } };
      } in
      let h : IsPhase limits config io heard = IsPhase-Frozen limits config refl (refl, refl) in
      let owner = find_bypass_write_mem_owner limits config io.regs in
      if_cases (Runs limits config io) (not io.ext_in.mem.write_resp_valid) (some heard) _
        (λ e. Runs-some limits config h)
        (λ e.
          if_cases (Runs limits config io) (io.regs.victim_wb.valid && io.regs.victim_wb.issued)
            (answer_victim limits config cycle heard)
            (some (answer_bypass limits config cycle heard owner))
            (λ f. Runs-from limits config io heard _ h (answer_victim-Runs cycle heard))
            (λ f.
              Runs-some limits config
                (IsPhase-trans limits config h (answer_bypass-IsPhase cycle heard owner))))

  answer_masters-IsPhase :
      (io : Io)
      → IsPhase limits config io
          (record io { reg_write = answer_masters limits config io.reg_write })
  unfolding answer_masters
  answer_masters-IsPhase io = IsPhase-Frozen limits config refl (refl, refl)

  pub drive_write_path-Runs :
      (cycle : ℕ) (io : Io) → Runs limits config io (drive_write_path limits config cycle io)
  unfolding drive_write_path
  drive_write_path-Runs cycle io =
      let shown = retire_write_resps io in
      let answered = take_write_resp limits config cycle shown in
      let committed =
        and_then limits config (λ after. commit_writes limits config 0 num_write_masters after)
          answered in
      Runs-map limits config
        (λ after.
          issue_writes limits config cycle
            (record after { reg_write = answer_masters limits config after.reg_write }))
        io committed
        (Runs-from limits config io shown committed (retire_write_resps-IsPhase io) (
          Runs-and_then limits config
            (λ after. commit_writes limits config 0 num_write_masters after) shown answered
            (take_write_resp-Runs cycle shown)
            (λ after. commit_writes-Runs 0 num_write_masters after)))
        (λ after. IsPhase-trans limits config (answer_masters-IsPhase after) (
          issue_writes-IsPhase limits config cycle
            (record after { reg_write = answer_masters limits config after.reg_write })))
