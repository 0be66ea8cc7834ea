-- ===== src/Llc/Prefetch.antt =====
-- axi_interconnect/AXI_LLC.cpp: the queue of lines to prefetch, its training on demand misses and the
-- launch of a prefetch lookup.
pub mod Laws
use axi_interconnect_kit.Prelude.{
  Bool, Option, false, if◌then◌else◌, is_some, none, not, some, suc, true, zero, ℕ, ◌%◌, ◌&&◌, ◌*◌,
  ◌+◌, ◌==◌, ◌||◌,
}
use axi_interconnect_kit.Llc.{Config, Limits, num_read_masters}
use axi_interconnect_kit.Llc.Ports.{ExtIn}
use axi_interconnect_kit.Llc.Regs.{MissEntry, Regs, lookup}
use axi_interconnect_kit.Llc.Mshr.{
  count_free_mshrs, find_mshr_by_line_addr, has_demand_mshr, mshr_limit,
}
use axi_interconnect_kit.Prelude.Search.{first_below}
use axi_interconnect_kit.Llc.Address.{line_addr}
use axi_interconnect_kit.Prelude.Words.{sub32, u32, u8}
use axi_interconnect_kit.Prelude.Arrays.{update}

-- AXI_LLC_MAX_PREFETCH_QUEUE.
abbrev pub max_prefetch_queue : ℕ
max_prefetch_queue = 8

-- A 64-bit counter moved on.
abbrev pub inc64 : ℕ → ℕ
inc64 n = (n + 1) % 18446744073709551616

module _ (limits : Limits) (config : Config) where
  abbrev pub queues_line : Regs → ℕ → ℕ → Bool
  queues_line regs line i = let req = regs.prefetch_r.q i in req.valid && req.line_addr == line

  unfoldable pub find_prefetch_queue_slot : Regs → ℕ → Option ℕ
  find_prefetch_queue_slot regs line = first_below (queues_line regs line) max_prefetch_queue

  unfoldable pub find_free_prefetch_queue_slot : Regs → Option ℕ
  find_free_prefetch_queue_slot regs =
      first_below (λ i. not (regs.prefetch_r.q i).valid) max_prefetch_queue

  unfoldable pub pick_prefetch_queue_slot : Regs → Option ℕ
  pick_prefetch_queue_slot regs = first_below (λ i. (regs.prefetch_r.q i).valid) max_prefetch_queue

  unfoldable pub prefetch_candidate_exists : Regs → ℕ → Bool
  unfolding find_prefetch_queue_slot
  prefetch_candidate_exists regs line =
      is_some (find_prefetch_queue_slot regs line)
      || (regs.lookup_r.valid && line_addr config regs.lookup_r.addr == line
          || is_some (find_mshr_by_line_addr limits config regs line))

  -- A line queued, or counted as dropped; and whether the loop goes on.
  abbrev pub place_prefetch : Regs → ℕ → Option ℕ → Bool × Regs
  place_prefetch regs line none = (
    false,
    record regs {
      perf = record regs.perf {
        prefetch_drop_queue_full = inc64 regs.perf.prefetch_drop_queue_full;
      };
    },
  )
  place_prefetch regs line (some slot) = (
    true,
    record regs {
      prefetch_r = record regs.prefetch_r {
        q = update regs.prefetch_r.q slot (λ old. record { valid = true; line_addr = line });
      };
    },
  )

  unfoldable pub schedule_line : Regs → ℕ → Bool × Regs
  unfolding prefetch_candidate_exists find_free_prefetch_queue_slot
  schedule_line regs line =
      if prefetch_candidate_exists regs line
      then (
        true,
        record regs {
          perf = record regs.perf {
            prefetch_drop_inflight = inc64 regs.perf.prefetch_drop_inflight;
          };
        },
      )
      else place_prefetch regs line (find_free_prefetch_queue_slot regs)

  -- The lines at distance `d` on, with `n` rounds left.
  unfoldable pub schedule_lines : ℕ → ℕ → ℕ → Regs → Regs
  unfolding schedule_line
  schedule_lines line d zero regs = regs
  schedule_lines line d (suc n) regs =
      let one = schedule_line regs (u32 (line + d * config.line_bytes)) in
      let rest = schedule_lines line (d + 1) n one.1 in if one.0 then rest else one.1

  abbrev pub train : ℕ → Regs → Regs
  train line regs = record regs {
    prefetch_r = record regs.prefetch_r { stream_valid = true; last_miss_line = line };
  }

  abbrev pub untrained : MissEntry → Bool
  untrained entry =
      not config.prefetch_enable
      || (entry.bypass
          || (entry.is_prefetch || (not entry.prefetch_train || config.line_bytes == 0)))

  abbrev pub starts_stream : Regs → MissEntry → Bool
  starts_stream regs entry =
      not regs.prefetch_r.stream_valid
      || not (u32 (regs.prefetch_r.last_miss_line + config.line_bytes) == entry.line_addr)

  abbrev pub degree : ℕ
  degree = if config.prefetch_degree == 0 then 1 else config.prefetch_degree

  -- A demand miss that follows the last one by a line queues the lines behind it.
  unfoldable pub try_schedule_prefetch : Regs → MissEntry → Regs → Regs
  unfolding schedule_lines
  try_schedule_prefetch regs entry reg_write =
      let trained = train entry.line_addr reg_write in
      if untrained entry
      then (if not entry.bypass && not entry.is_prefetch then trained else reg_write)
      else if starts_stream regs entry
      then trained
      else train entry.line_addr (schedule_lines entry.line_addr 1 degree reg_write)

  abbrev pub launch_prefetch : Regs → Option ℕ → Regs
  launch_prefetch regs none = regs
  launch_prefetch regs (some slot) = record regs {
    lookup_r = record {
      valid = true;
      issued = false;
      addr = (regs.prefetch_r.q slot).line_addr;
      size = u8 (sub32 config.line_bytes 1);
      master = num_read_masters;
      id = u8 slot;
      is_prefetch = true;
      is_invalidate = false;
      is_write = false;
      is_bypass = false;
      is_direct_mapped = false;
      is_mode2_ddr_aligned = false;
    };
    state = lookup;
  }

  -- Only while no demand miss is in the registers and the read side has been quiet.
  unfoldable pub try_launch_prefetch_lookup : ExtIn → Regs → Regs
  unfolding pick_prefetch_queue_slot
  try_launch_prefetch_lookup ext_in regs =
      if regs.lookup_r.valid
        || (not ext_in.mem.prefetch_allow
            || (has_demand_mshr limits config regs
                || (not (count_free_mshrs limits config regs == mshr_limit limits config regs)
                    || regs.prefetch_r.quiet_cycles == 0)))
      then regs
      else launch_prefetch regs (pick_prefetch_queue_slot regs)
