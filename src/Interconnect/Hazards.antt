-- ===== src/Interconnect/Hazards.antt =====
-- axi_interconnect/AXI_Interconnect.cpp: which requests wait for another one to the same line, and
-- when nothing is under way, so that the configuration may change.
use axi_interconnect_kit.Bridge.Gate.{issue_gate}
use axi_interconnect_kit.Interconnect.{Build, DownstreamPort, ddr, mmio}
use axi_interconnect_kit.Interconnect.State.{State}
use axi_interconnect_kit.Interconnect.Modes.{
  llc_enabled, request_uses_mmio_port, translate_llc_addr,
}
use axi_interconnect_kit.Interconnect.Ids.{any_in}
use axi_interconnect_kit.Llc.{Limits, num_read_masters, num_write_masters}
use axi_interconnect_kit.Llc.Address.{line_addr}
use axi_interconnect_kit.Llc.Bytes.{min}
use axi_interconnect_kit.Llc.Pending.{write_queued}
use axi_interconnect_kit.Prelude.Search.{any_below}
use axi_interconnect_kit.Prelude.{
  Bool, any_of, false, ltb, not, true, ℕ, ◌&&◌, ◌*◌, ◌/◌, ◌==◌, ◌||◌, [], ◌∷◌,
}

-- `addr & ~(kHazardBytes - 1)`, of a power of two.
unfoldable pub external_hazard_line_addr : Limits → ℕ → ℕ
external_hazard_line_addr limits addr =
    addr / limits.max_write_transaction_bytes * limits.max_write_transaction_bytes

module _ (limits : Limits) (s : State) where
  -- The read that a port's address channel issues, and the one that its latch holds.
  abbrev pub issues_read : ℕ → DownstreamPort → Bool
  issues_read line port =
      (s.downstream port).ar.arvalid
      && ((s.ar_issue port).valid
          && external_hazard_line_addr limits (s.ar_issue port).upstream_addr == line)

  abbrev pub latched_read : ℕ → DownstreamPort → Bool
  latched_read line port =
      (s.ar_latch port).valid
      && external_hazard_line_addr limits (s.ar_latch port).upstream_addr == line

  unfoldable pub has_external_pending_read_hazard : ℕ → Bool
  unfolding external_hazard_line_addr any_in
  has_external_pending_read_hazard addr =
      let line = external_hazard_line_addr limits addr in
      any_of (
        issues_read line ddr
        ∷ issues_read line mmio
        ∷ latched_read line ddr
        ∷ latched_read line mmio
        ∷ any_in
            (λ txn.
              ltb txn.beats_done txn.total_beats
              && external_hazard_line_addr limits txn.upstream_addr == line)
            s.r_pending
        ∷ [])

  abbrev pub latched_write : ℕ → DownstreamPort → Bool
  latched_write line port =
      (s.aw_latch port).valid && external_hazard_line_addr limits (s.aw_latch port).addr == line

  abbrev pub active_write : ℕ → DownstreamPort → Bool
  active_write line port =
      s.w_active port && external_hazard_line_addr limits (s.w_current port).addr == line

  unfoldable pub has_external_pending_write_hazard : ℕ → Bool
  unfolding external_hazard_line_addr any_in
  has_external_pending_write_hazard addr =
      let line = external_hazard_line_addr limits addr in
      any_of (
        latched_write line ddr
        ∷ latched_write line mmio
        ∷ active_write line ddr
        ∷ active_write line mmio
        ∷ any_in (λ txn. external_hazard_line_addr limits txn.addr == line) s.w_pending
        ∷ [])

  unfoldable pub can_issue_external_read : ℕ → Bool
  unfolding has_external_pending_write_hazard issue_gate
  can_issue_external_read addr =
      let line = external_hazard_line_addr limits addr in
      let hazard = has_external_pending_write_hazard addr in
      (issue_gate true true line false hazard false true 0 false false).axi_arvalid

  unfoldable pub can_issue_external_write : ℕ → Bool
  unfolding has_external_pending_read_hazard issue_gate
  can_issue_external_write addr =
      let line = external_hazard_line_addr limits addr in
      let hazard = has_external_pending_read_hazard addr in
      (issue_gate false true 0 false false true true line false hazard).axi_awvalid

unfoldable pub has_direct_read_response : State → ℕ → Bool
unfolding any_in
has_direct_read_response s master_id =
    any_in
      (λ txn. not txn.to_llc && (txn.master_id == master_id && txn.beats_done == txn.total_beats))
      s.r_pending

-- A read of the same master with the same ID is under way.
unfoldable pub latch_has_id : State → ℕ → ℕ → DownstreamPort → Bool
latch_has_id s master_id orig_id port =
    let latch = s.ar_latch port in
    latch.valid && (not latch.to_llc && (latch.master_id == master_id && latch.orig_id == orig_id))

module _ (limits : Limits) where
  unfoldable pub llc_has_read_id : State → ℕ → ℕ → Bool
  llc_has_read_id s master_id orig_id =
      let stage = s.llc_core_req_stage in
      let req = s.llc_upstream_req master_id in
      let regs = s.llc.regs in
      let slot = regs.read_resp master_id in
      let l = regs.lookup_r in
      any_of (
        (stage.valid
          && (not stage.is_write && (stage.master == master_id && stage.read.id == orig_id)))
        ∷ (req.valid && req.id == orig_id)
        ∷ (s.llc_read_resp_valid master_id && s.llc_read_resp_id master_id == orig_id)
        ∷ (slot.valid && slot.id == orig_id)
        ∷ (l.valid && (l.master == master_id && l.id == orig_id))
        ∷ any_below
            (λ i.
              let entry = regs.mshr i in
              entry.valid
              && (not entry.is_prefetch && (entry.master == master_id && entry.id == orig_id)))
            (min s.llc_config.mshr_num limits.max_outstanding)
        ∷ [])

  unfoldable pub has_read_id_conflict : State → ℕ → ℕ → Bool
  unfolding latch_has_id llc_has_read_id llc_enabled any_in
  has_read_id_conflict s master_id orig_id = any_of (
      latch_has_id s master_id orig_id ddr
      ∷ latch_has_id s master_id orig_id mmio
      ∷ any_in (λ txn. txn.master_id == master_id && txn.orig_id == orig_id) s.r_pending
      ∷ (llc_enabled s && llc_has_read_id s master_id orig_id)
      ∷ [])

  -- The writes of one master that stand before the cache, or whose response is on its way.
  unfoldable pub master_writes_line : State → ℕ → ℕ → Bool
  unfolding line_addr any_in
  master_writes_line s line m = any_of (
      ((s.llc_upstream_write_req m).valid
        && line_addr s.llc_config (s.llc_upstream_write_req m).addr == line)
      ∷ any_in (λ entry. entry.valid && line_addr s.llc_config entry.addr == line)
          (s.llc_upstream_write_q m)
      ∷ any_in (λ delayed. delayed.entry.line_valid && delayed.entry.line_addr == line)
          (s.llc_write_resp_delay m)
      ∷ any_in (λ entry. entry.line_valid && entry.line_addr == line) (s.resp_buffer m).w_resp_queue
      ∷ ((s.write_req m).valid && line_addr s.llc_config (s.write_req m).addr == line)
      ∷ [])

  -- The write that the cache has in hand for a master, or whose response it offers.
  unfoldable pub llc_writes_line : State → ℕ → ℕ → Bool
  llc_writes_line s line m =
      let port = s.llc.regs.write_port m in
      port.ctx.valid && port.ctx.line_addr == line || port.resp_valid && port.resp_line_addr == line

  unfoldable pub port_writes_line : State → ℕ → DownstreamPort → Bool
  unfolding line_addr
  port_writes_line s line port =
      s.w_active port && line_addr s.llc_config (s.w_current port).addr == line
      || (s.aw_latch port).valid && line_addr s.llc_config (s.aw_latch port).addr == line

  unfoldable pub has_same_line_write_hazard : State → ℕ → Bool
  unfolding llc_enabled master_writes_line llc_writes_line port_writes_line line_addr
  has_same_line_write_hazard s line =
      let stage = s.llc_core_req_stage in
      llc_enabled s
      && any_of (
          any_below (master_writes_line s line) num_write_masters
          ∷ (stage.valid && (stage.is_write && line_addr s.llc_config stage.write.addr == line))
          ∷ any_below (llc_writes_line s line) num_write_masters
          ∷ any_below (λ m. write_queued limits s.llc_config line (s.llc.regs.write_port m))
              num_write_masters
          ∷ port_writes_line s line ddr
          ∷ port_writes_line s line mmio
          ∷ [])

  module _ (build : Build) where
    unfoldable pub request_hits_line : State → ℕ → ℕ → ℕ → Bool
    unfolding translate_llc_addr line_addr
    request_hits_line s line addr total_size =
        line_addr s.llc_config (translate_llc_addr s.control addr total_size) == line

    unfoldable pub master_reads_line : State → ℕ → ℕ → Bool
    unfolding request_hits_line request_uses_mmio_port
    master_reads_line s line m =
        let up = s.llc_upstream_req m in
        let hold = s.read_req_hold m in
        let req = s.read_req m in
        any_of (
          (up.valid && request_hits_line s line up.addr up.total_size)
          ∷ (hold.valid
              && (not (request_uses_mmio_port build s.control hold.addr hold.total_size)
                  && request_hits_line s line hold.addr hold.total_size))
          ∷ (req.valid
              && (not (request_uses_mmio_port build s.control req.addr req.total_size)
                  && request_hits_line s line req.addr req.total_size))
          ∷ [])

    unfoldable pub latch_reads_line : State → ℕ → DownstreamPort → Bool
    unfolding line_addr
    latch_reads_line s line port =
        let latch = s.ar_latch port in
        latch.valid && (latch.to_llc && line_addr s.llc_config latch.upstream_addr == line)

    unfoldable pub has_same_line_read_hazard : State → ℕ → Bool
    unfolding llc_enabled master_reads_line request_hits_line latch_reads_line line_addr any_in
    has_same_line_read_hazard s line =
        let stage = s.llc_core_req_stage in
        let l = s.llc.regs.lookup_r in
        let mem = s.llc.ext_out.mem in
        llc_enabled s
        && any_of (
            any_below (master_reads_line s line) num_read_masters
            ∷ (stage.valid
                && (not stage.is_write
                    && request_hits_line s line stage.read.addr stage.read.total_size))
            ∷ (l.valid && (not l.is_write && line_addr s.llc_config l.addr == line))
            ∷ (mem.read_req_valid && line_addr s.llc_config mem.read_req_addr == line)
            ∷ any_below
                (λ i.
                  let entry = s.llc.regs.mshr i in
                  entry.valid && (not entry.is_write && entry.line_addr == line))
                (min s.llc_config.mshr_num limits.max_outstanding)
            ∷ latch_reads_line s line ddr
            ∷ latch_reads_line s line mmio
            ∷ any_in
                (λ txn.
                  txn.to_llc
                  && (ltb txn.beats_done txn.total_beats
                      && line_addr s.llc_config txn.upstream_addr == line))
                s.r_pending
            ∷ [])
