-- ===== src/Llc/Mshr.antt =====
-- axi_interconnect/AXI_LLC.cpp: the searches in the miss-status registers.
pub mod Laws
use axi_interconnect_kit.Prelude.{
  Bool, Option, if◌then◌else◌, leb, none, not, one_if, or_else, suc, zero, ℕ, ◌&&◌, ◌+◌, ◌==◌,
}
use axi_interconnect_kit.Llc.{Config, Limits}
use axi_interconnect_kit.Llc.Regs.{Regs}
use axi_interconnect_kit.Prelude.Search.{any_below, first_below}
use axi_interconnect_kit.Llc.Bytes.{min}
use axi_interconnect_kit.Prelude.Words.{u8}

module _ (limits : Limits) (config : Config) (regs : Regs) where
  abbrev pub mshr_limit : ℕ
  mshr_limit = min config.mshr_num limits.max_outstanding

  abbrev pub is_free : ℕ → Bool
  is_free i = not (regs.mshr i).valid

  unfoldable pub find_free_mshr : Option ℕ
  find_free_mshr = first_below is_free mshr_limit

  abbrev pub has_line : ℕ → ℕ → Bool
  has_line line i =
      let entry = regs.mshr i in entry.valid && (not entry.bypass && entry.line_addr == line)

  unfoldable pub find_mshr_by_line_addr : ℕ → Option ℕ
  find_mshr_by_line_addr line = first_below (has_line line) mshr_limit

  abbrev pub has_victim : ℕ → ℕ → Bool
  has_victim victim i =
      let entry = regs.mshr i in
      entry.valid
      && (entry.victim_dirty && (not entry.victim_writeback_done && entry.victim_addr == victim))

  unfoldable pub find_mshr_by_victim_addr : ℕ → Option ℕ
  find_mshr_by_victim_addr victim =
      let found = first_below (has_victim victim) mshr_limit in if victim == 0 then none else found

  abbrev pub is_demand : ℕ → Bool
  is_demand i = let entry = regs.mshr i in entry.valid && not entry.is_prefetch

  unfoldable pub has_mshr_for_master : ℕ → Bool
  has_mshr_for_master master =
      any_below (λ i. is_demand i && (regs.mshr i).master == master) mshr_limit

  unfoldable pub count_free : ℕ → ℕ
  count_free zero = 0
  count_free (suc n) = count_free n + one_if (is_free n)

  unfoldable pub count_free_mshrs : ℕ
  unfolding count_free
  count_free_mshrs = count_free mshr_limit

  unfoldable pub has_demand_mshr : Bool
  has_demand_mshr = any_below is_demand mshr_limit

  abbrev pub waits_demand : ℕ → Bool
  waits_demand i = is_demand i && not (regs.mshr i).mem_req_issued

  abbrev pub waits_prefetch : ℕ → Bool
  waits_prefetch i =
      let entry = regs.mshr i in entry.valid && (entry.is_prefetch && not entry.mem_req_issued)

  -- The lowest waiting demand miss, or else the lowest waiting prefetch.
  unfoldable pub pick_mem_issue_slot : Option ℕ
  pick_mem_issue_slot =
      or_else (first_below waits_demand mshr_limit) (first_below waits_prefetch mshr_limit)

  unfoldable pub find_mshr_by_mem_id : ℕ → Option ℕ
  find_mshr_by_mem_id mem_id = first_below (λ i. (regs.mshr i).valid && u8 i == mem_id) mshr_limit

  unfoldable pub pick_refill_commit_slot : Option ℕ
  pick_refill_commit_slot =
      first_below (λ i. (regs.mshr i).valid && (regs.mshr i).refill_valid) mshr_limit

  unfoldable pub can_allocate_prefetch_mshr : Bool
  unfolding count_free_mshrs
  can_allocate_prefetch_mshr =
      not (leb count_free_mshrs 1)
      && not (any_below (λ i. (regs.mshr i).valid && (regs.mshr i).is_prefetch) mshr_limit)
