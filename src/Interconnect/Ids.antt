-- ===== src/Interconnect/Ids.antt =====
-- axi_interconnect/AXI_Interconnect.cpp: how many transactions are in flight, and the AXI IDs that are
-- free for the next one.
pub mod Laws
use axi_interconnect_kit.Interconnect.{Build, DownstreamPort, ddr, invalid_axi_id, mmio, same_port}
use axi_interconnect_kit.Interconnect.State.{
  AwLatch, ArLatch, ReadPendingTxn, State, WritePendingTxn,
}
use axi_interconnect_kit.Interconnect.Modes.{llc_enabled}
use axi_interconnect_kit.Llc.{Limits, num_read_masters, num_write_masters}
use axi_interconnect_kit.Prelude.Search.{first_below}
use axi_interconnect_kit.Prelude.Words.{u8, u32}
use axi_interconnect_kit.Prelude.{
  Bool, List, Option, any_of, if◌then◌else◌, leb, length, ltb, map, none, not, one_if, some, ℕ, ◌%◌,
  ◌&&◌, ◌+◌, ◌==◌, ◌^◌, ◌||◌, [], ◌∷◌, false,
}

unfoldable pub any_ar_latched : State → Bool
any_ar_latched s = (s.ar_latch ddr).valid || (s.ar_latch mmio).valid

unfoldable pub any_aw_latched : State → Bool
any_aw_latched s = (s.aw_latch ddr).valid || (s.aw_latch mmio).valid

unfoldable pub any_w_active : State → Bool
any_w_active s = s.w_active ddr || s.w_active mmio

unfoldable pub external_write_busy : State → Bool
unfolding any_w_active any_aw_latched
external_write_busy s = any_w_active s || any_aw_latched s

-- Whether an entry of a list passes.
unfoldable pub any_in {ℓ} : {A : Type ℓ} → (A → Bool) → List A → Bool
any_in p [] = false
any_in p (x ∷ xs) = p x || any_in p xs

-- How many entries of a list pass.
unfoldable pub count_in {ℓ} : {A : Type ℓ} → (A → Bool) → List A → ℕ
count_in p [] = 0
count_in p (x ∷ xs) = one_if (p x) + count_in p xs

-- An ID, or the invalid one.
unfoldable pub id_or_invalid : Option ℕ → ℕ
id_or_invalid none = invalid_axi_id
id_or_invalid (some id) = u8 id

module _ (build : Build) where
  abbrev pub is_id : ℕ → ℕ → Bool
  is_id axi_id id = axi_id % 2 ^ build.axi_id_width == id

  -- `used` of `alloc_read_axi_id`.
  unfoldable pub read_id_used : State → ℕ → Bool
  unfolding any_in
  read_id_used s id =
      let a = s.ar_latch ddr in
      let b = s.ar_latch mmio in
      any_in (λ txn. is_id txn.axi_id id) s.r_pending
      || (a.valid && is_id a.id id || b.valid && is_id b.id id)

  unfoldable pub alloc_read_axi_id : State → ℕ
  unfolding read_id_used id_or_invalid
  alloc_read_axi_id s =
      id_or_invalid (first_below (λ id. not (read_id_used s id)) (2 ^ build.axi_id_width))

  -- `used` of `alloc_write_axi_id(port)`, whose test on the port is `on_port`.
  unfoldable pub write_id_used : State → DownstreamPort → ℕ → Bool
  unfolding any_in
  write_id_used s port id =
      any_in (λ txn. same_port txn.port port && is_id txn.axi_id id) s.w_pending
      || (s.w_active port && is_id (s.w_current port).axi_id id
          || (s.aw_latch port).valid && is_id (s.aw_latch port).id id)

  unfoldable pub alloc_write_axi_id : State → DownstreamPort → ℕ
  unfolding write_id_used id_or_invalid
  alloc_write_axi_id s port =
      id_or_invalid (first_below (λ id. not (write_id_used s port id)) (2 ^ build.axi_id_width))

  -- `alloc_write_axi_id()`: free on both ports.
  unfoldable pub any_write_id_used : State → ℕ → Bool
  unfolding any_in
  any_write_id_used s id =
      any_in (λ txn. is_id txn.axi_id id) s.w_pending
      || (s.w_active ddr && is_id (s.w_current ddr).axi_id id
          || (s.w_active mmio && is_id (s.w_current mmio).axi_id id
              || ((s.aw_latch ddr).valid && is_id (s.aw_latch ddr).id id
                  || (s.aw_latch mmio).valid && is_id (s.aw_latch mmio).id id)))

  unfoldable pub alloc_any_write_axi_id : State → ℕ
  unfolding any_write_id_used id_or_invalid
  alloc_any_write_axi_id s =
      id_or_invalid (first_below (λ id. not (any_write_id_used s id)) (2 ^ build.axi_id_width))

  unfoldable pub count_master_read_pending : State → ℕ → ℕ
  unfolding count_in
  count_master_read_pending s master_id =
      let a = s.ar_latch ddr in
      let b = s.ar_latch mmio in
      u8 (
        count_in (λ txn. txn.master_id == master_id) s.r_pending
        + one_if (a.valid && a.master_id == master_id)
        + one_if (b.valid && b.master_id == master_id))

  unfoldable pub count_total_read_inflight : State → ℕ
  count_total_read_inflight s =
      u8 (length s.r_pending + one_if (s.ar_latch ddr).valid + one_if (s.ar_latch mmio).valid)

  unfoldable pub can_accept_write_now : Limits → State → Bool
  unfolding alloc_any_write_axi_id llc_enabled
  can_accept_write_now limits s =
      not (llc_enabled s)
      && (ltb (length s.w_pending) limits.max_write_outstanding
          && not (alloc_any_write_axi_id s == invalid_axi_id))

  unfoldable pub can_accept_read_master : Limits → State → ℕ → Bool
  unfolding alloc_read_axi_id count_total_read_inflight count_master_read_pending
  can_accept_read_master limits s master_id =
      if leb num_read_masters master_id
      then false
      else if leb limits.max_outstanding (count_total_read_inflight s)
      then false
      else if leb build.max_read_outstanding_per_master (count_master_read_pending s master_id)
      then false
      else not (alloc_read_axi_id s == invalid_axi_id)

  unfoldable pub can_issue_llc_read_req : Limits → State → Bool
  unfolding alloc_read_axi_id count_total_read_inflight any_ar_latched
  can_issue_llc_read_req limits s =
      not (any_ar_latched s)
      && (ltb (count_total_read_inflight s) limits.max_outstanding
          && not (alloc_read_axi_id s == invalid_axi_id))

-- The writes of the masters that have not reached the cache: those of one master, and all.
abbrev pub llc_writes_of : State → ℕ → ℕ
llc_writes_of s i = one_if (s.llc_upstream_write_req i).valid + length (s.llc_upstream_write_q i)

unfoldable pub count_llc_write_pending : State → ℕ
count_llc_write_pending s =
    let stage = s.llc_core_req_stage in
    u32 (one_if (stage.valid && stage.is_write) + (llc_writes_of s 0 + llc_writes_of s 1))
