-- ===== src/Llc/Refill/Frame.antt =====
-- axi_interconnect/AXI_LLC.cpp: what drive_mem_read_path leaves of the miss registers and of the
-- queues of responses.
use axi_interconnect_kit.Prelude.{
  Option, arith, if_cases, none, refl, some, true, ℕ, ◌&&◌, Bool, false, suc, zero, ◌*◌, ◌+◌, ◌∙◌,
}
use axi_interconnect_kit.Llc.{Config, Limits}
use axi_interconnect_kit.Llc.Frame.{
  Frozen, Preserves-enqueue, Preserves-same, Preserves-self, Preserves-set_mshr, Preserves-trans,
  free-IsUse, Preserves, IsPhase, IsPhase-self,
}
use axi_interconnect_kit.Llc.Regs.{Io, MissEntry, Regs, refill}
use axi_interconnect_kit.Llc.Queues.{enqueue_read_response}
use axi_interconnect_kit.Llc.Mshr.{find_mshr_by_mem_id}
use axi_interconnect_kit.Llc.Refill.{
  free_mshr, keep_refill, receive, receive_at, sample_read, set_mshr, issue, issue_picked,
  issued_at, pick_issue,
}
use axi_interconnect_kit.Llc.Prefetch.{
  inc64, degree, find_free_prefetch_queue_slot, place_prefetch, schedule_line, schedule_lines,
  try_schedule_prefetch,
}
use axi_interconnect_kit.Prelude.Words.{u32}

module _ (limits : Limits) (config : Config) where
  sample_read-Frozen :
      (cycle : ℕ) (entry : MissEntry) (regs : Regs) → Frozen regs (sample_read cycle entry regs)
  sample_read-Frozen cycle entry regs = ground arith

  pub free_mshr-Preserves :
      (io : Io) (slot : ℕ) {old : Regs} (regs : Regs)
      → Preserves limits config old regs
      → Preserves limits config old (free_mshr io slot regs)
  free_mshr-Preserves io slot regs h =
      Preserves-trans limits config
        (Preserves-set_mshr limits config regs slot _ (free-IsUse limits config) h)
        (Preserves-same limits config refl refl)

  keep_refill-Preserves :
      (io : Io) (slot : ℕ) {old : Regs} (regs : Regs)
      → Preserves limits config old regs
      → Preserves limits config old (keep_refill limits config io slot regs)
  keep_refill-Preserves io slot {old} regs h =
      let kept =
        set_mshr slot
          (λ entry. record entry {
            refill_valid = true;
            refill_data = io.ext_in.mem.read_resp_data;
            refill_committed = entry.bypass;
          })
          (record regs { state = refill }) in
      let k : Preserves limits config old kept = Preserves-trans limits config h (
        Preserves-trans limits config
          (Preserves-same limits config {new = record regs { state = refill }} refl refl)
          (Preserves-set_mshr limits config (record regs { state = refill }) slot _
            (λ e v. (v, refl, refl)) (Preserves-self limits config _))) in
      let c : Preserves limits config old
          (record kept { perf = record regs.perf { refills = inc64 regs.perf.refills } }) =
        Preserves-trans limits config k (Preserves-same limits config refl refl) in
      ground (arith, k, c)

  receive_at-Preserves :
      (cycle : ℕ) (io : Io) (slot : Option ℕ)
      → Preserves limits config io.reg_write (receive_at limits config cycle io slot)
  receive_at-Preserves cycle io none = Preserves-self limits config io.reg_write
  receive_at-Preserves cycle io (some slot) =
      let prev = io.regs.mshr slot in
      let sampled = sample_read cycle prev io.reg_write in
      let (p, q) = sample_read-Frozen cycle prev io.reg_write in
      let h : Preserves limits config io.reg_write sampled = Preserves-same limits config p q in
      let sent =
        enqueue_read_response limits config prev.master prev.id io.ext_in.mem.read_resp_data
          sampled in
      if_cases (Preserves limits config io.reg_write)
        (limits.bypass_direct_resp && (prev.bypass && sent.0)) (free_mshr io slot sent.1)
        (keep_refill limits config io slot sampled)
        (λ e. free_mshr-Preserves io slot sent.1 (
          Preserves-enqueue limits config sampled prev.master prev.id io.ext_in.mem.read_resp_data
            h))
        (λ e. keep_refill-Preserves io slot sampled h)

  pub receive-IsPhase :
      (cycle : ℕ) (io : Io) → IsPhase limits config io (receive limits config cycle io)
  unfolding receive
  receive-IsPhase cycle io = record {
    start = refl;
    kept =
        if_cases (Preserves limits config io.reg_write) io.ext_in.mem.read_resp_valid
          (receive_at limits config cycle io
            (find_mshr_by_mem_id limits config io.regs io.ext_in.mem.read_resp_id))
          io.reg_write (λ e. receive_at-Preserves cycle io _)
          (λ e. Preserves-self limits config io.reg_write);
  }

  issued_at-Preserves :
      (cycle : ℕ) (ready : Bool) (slot : ℕ) (regs : Regs)
      → Preserves limits config regs (issued_at limits config cycle ready slot regs)
  issued_at-Preserves cycle true slot regs =
      Preserves-set_mshr limits config regs slot _ (λ e v. (v, refl, refl))
        (Preserves-self limits config regs)
  issued_at-Preserves cycle false slot regs = Preserves-same limits config refl refl

  issue_picked-IsPhase :
      (cycle : ℕ) (io : Io) (picked : Option (ℕ × MissEntry))
      → IsPhase limits config io (issue_picked limits config cycle io picked)
  issue_picked-IsPhase cycle io none = IsPhase-self limits config io
  issue_picked-IsPhase cycle io (some (slot, entry)) = record {
    start = refl;
    kept = issued_at-Preserves cycle io.ext_in.mem.read_req_ready slot io.reg_write;
  }

  pub issue-IsPhase :
      (cycle : ℕ) (io : Io) → IsPhase limits config io (issue limits config cycle io)
  unfolding issue
  issue-IsPhase cycle io = issue_picked-IsPhase cycle io (pick_issue limits config io)

  place_prefetch-Frozen :
      (regs : Regs) (line : ℕ) (slot : Option ℕ)
      → Frozen regs (place_prefetch limits config regs line slot).1
  place_prefetch-Frozen regs line none = (refl, refl)
  place_prefetch-Frozen regs line (some slot) = (refl, refl)

  schedule_line-Frozen :
      (regs : Regs) (line : ℕ) → Frozen regs (schedule_line limits config regs line).1
  unfolding schedule_line
  schedule_line-Frozen regs line =
      ground
        (arith, place_prefetch-Frozen regs line (find_free_prefetch_queue_slot limits config regs))

  schedule_lines-Frozen :
      (line d n : ℕ) (regs : Regs) → Frozen regs (schedule_lines limits config line d n regs)
  unfolding schedule_lines
  schedule_lines-Frozen line d zero regs = (refl, refl)
  schedule_lines-Frozen line d (suc n) regs =
      let one = schedule_line limits config regs (u32 (line + d * config.line_bytes)) in
      let h = schedule_line-Frozen regs (u32 (line + d * config.line_bytes)) in
      let (p, q) = schedule_lines-Frozen line (d + 1) n one.1 in
      if_cases (Frozen regs) one.0 (schedule_lines limits config line (d + 1) n one.1) one.1
        (λ e. (p ∙ h.0, q ∙ h.1)) (λ e. h)

  pub try_schedule_prefetch-Frozen :
      (old : Regs) (entry : MissEntry) (regs : Regs)
      → Frozen regs (try_schedule_prefetch limits config old entry regs)
  unfolding try_schedule_prefetch
  try_schedule_prefetch-Frozen old entry regs =
      ground (arith, schedule_lines-Frozen entry.line_addr 1 (degree limits config) regs)
