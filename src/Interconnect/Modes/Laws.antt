-- ===== src/Interconnect/Modes/Laws.antt =====
-- axi_interconnect/AXI_Interconnect.cpp: the change of the configuration, and the window that mode 2
-- maps onto the cache.
use native.Mathlib.Nat.{
  div-add-mod', mul_comm, div-le_self, mul_assoc, div-lt_iff_lt-mul, mod-eq_of_lt,
}
use axi_interconnect_kit.Interconnect.{mapped_llc_window_bytes}
use axi_interconnect_kit.Interconnect.State.{Control}
use axi_interconnect_kit.Interconnect.Modes.{
  apply_reconfig, request_in_mapped_window, request_reconfig, request_uses_direct_mapped_llc,
  requested_config_differs_from_active, requested_llc_mapped_offset, requested_mode, step_reconfig,
  translate_llc_addr,
}
use axi_interconnect_kit.Llc.{Config, is_valid, set_count}
use axi_interconnect_kit.Llc.Address.{direct_mapped_coords}
use axi_interconnect_kit.Prelude.{
  Bool, arith, is_some, true, ℕ, ◌*◌, ◌+◌, ◌/◌, ◌<◌, ◌≡◌, ◌≤◌, subst, sym, ◌%◌, ◌∙◌, suc,
  if◌then◌else◌, not, ◌&&◌, ◌||◌, ◌==◌, zero,
}

-- What a cycle does with the configuration, from `c` to `d`. Outside mode 2 an offset that changes
-- alone is not a request.
pub record IsSwitch (accepted : Bool) (c d : Control) : Type 0 where
  -- The mode and the offset that are active after the cycle.
  pub mode : d.active_mode ≡ (if accepted then requested_mode c else c.active_mode)
  pub offset : d.active_offset ≡ (
      if accepted && (requested_mode c == 2 || not (requested_mode c == c.active_mode))
      then requested_llc_mapped_offset c
      else c.active_offset)
  -- Whether a request waits, and for what.
  pub waits : d.reconfig_pending ≡ (
      not accepted
      && (not (requested_mode c == c.active_mode)
          || requested_mode c == 2 && not (requested_llc_mapped_offset c == c.active_offset)))
  pub target :
      d.reconfig_pending ≡ true
      → (d.reconfig_target_mode ≡ requested_mode c)
        × (d.reconfig_target_offset ≡ requested_llc_mapped_offset c)
  -- Mode 3 never becomes active.
  pub valid : c.active_mode ≤ 2 → d.active_mode ≤ 2

-- The active mode becomes the requested one in a cycle in which the cache takes the invalidation of
-- its lines, and stays otherwise. The active offset becomes the requested one in such a cycle if the
-- requested mode is 2 or another one than the active, and stays otherwise: an offset that is changed
-- alone outside mode 2 is not taken over. A change waits after the cycle exactly when no invalidation
-- was taken and the mode that is requested is another one, or is 2 with another offset; what waits is
-- the requested mode and offset of this cycle. Mode 3 never becomes active.
pub step_reconfig-IsSwitch :
    (accepted : Bool) (c : Control) → IsSwitch accepted c (step_reconfig accepted c)
unfolding step_reconfig request_reconfig apply_reconfig requested_config_differs_from_active
    requested_mode
step_reconfig-IsSwitch accepted c = record {
  mode = ground arith;
  offset = ground arith;
  waits = ground arith;
  target = ground arith;
  valid = λ l. ground arith;
}

-- An address below the size of the cache lies in one of its ways.
way_of : (a l q w : ℕ) → 0 < l → 0 < q → a < q * (l * w) → a / l / q < w
way_of a l q w hl hq h =
    let order : q * (l * w) ≡ w * q * l = sym (mul_assoc q l w) ∙ swap in
    (div-lt_iff_lt-mul hq).1 ((div-lt_iff_lt-mul hl).1 (subst (λ n. a < n) order h))
  where
    swap : q * l * w ≡ w * q * l
    swap = mul_comm (q * l) w ∙ sym (mul_assoc w q l)

sets_positive : {a : ℕ} (q n : ℕ) → a < q * n → 0 < q
sets_positive zero n h = absurd (omega arith)
sets_positive (suc q) n h = omega arith

module _ (config : Config) where
  valid_parts :
      is_valid config ≡ true
      → (0 < config.line_bytes) × (config.size_bytes % (config.line_bytes * config.ways) ≡ 0)
  unfolding is_valid
  valid_parts v = (ground arith, ground arith)

  set_count-valid :
      is_valid config ≡ true
      → config.size_bytes < 4294967296
      → set_count config ≡ config.size_bytes / (config.line_bytes * config.ways)
  unfolding set_count
  set_count-valid v h =
      let n = config.line_bytes * config.ways in
      let small = div-le_self config.size_bytes n in rw v (mod-eq_of_lt (omega (arith, small, h)))

  -- The sets of a valid cache of fewer than 2^32 bytes make up its size.
  size_of_sets :
      is_valid config ≡ true
      → config.size_bytes < 4294967296
      → config.size_bytes ≡ set_count config * (config.line_bytes * config.ways)
  size_of_sets v h =
      let n = config.line_bytes * config.ways in
      let whole = div-add-mod' config.size_bytes n in
      let e = (valid_parts v).1 in rw (set_count-valid v h) (omega (arith, whole, e))

  direct_mapped_coords-way :
      (addr : ℕ)
      → is_valid config ≡ true
      → config.size_bytes < 4294967296
      → addr < config.size_bytes
      → is_some (direct_mapped_coords config addr) ≡ true
  unfolding direct_mapped_coords
  direct_mapped_coords-way addr v h l =
      let size = size_of_sets v h in
      let line = (valid_parts v).0 in
      let below = subst (λ n. addr < n) size l in
      let sets = sets_positive (set_count config) _ below in
      let way = way_of addr config.line_bytes (set_count config) config.ways line sets below in
      ground arith

-- The window of mode 2 in the cache: the address less the window's, which the cache holds in full.
pub record IsMapped (config : Config) (c : Control) (addr total_size : ℕ) : Type 0 where
  pub moved : translate_llc_addr c addr total_size + c.active_offset ≡ addr
  pub inside : translate_llc_addr c addr total_size + total_size + 1 ≤ mapped_llc_window_bytes
  pub has_way : is_some (direct_mapped_coords config (translate_llc_addr c addr total_size)) ≡ true

translate_inside :
    (c : Control) (addr total_size : ℕ)
    → request_uses_direct_mapped_llc c addr total_size ≡ true
    → (translate_llc_addr c addr total_size + c.active_offset ≡ addr)
      × (translate_llc_addr c addr total_size + total_size + 1 ≤ mapped_llc_window_bytes)
unfolding translate_llc_addr request_uses_direct_mapped_llc request_in_mapped_window
translate_inside c addr total_size h = (ground arith, ground arith)

-- For a valid cache of fewer than 2^32 bytes and at least those of the window: a request in the
-- window of mode 2 goes to its address less the window's, with all its bytes inside the window, and
-- the cache has a set and a way for it.
pub translate_llc_addr-IsMapped :
    (config : Config) (c : Control) (addr total_size : ℕ)
    → is_valid config ≡ true
    → config.size_bytes < 4294967296
    → mapped_llc_window_bytes ≤ config.size_bytes
    → request_uses_direct_mapped_llc c addr total_size ≡ true
    → IsMapped config c addr total_size
translate_llc_addr-IsMapped config c addr total_size v h l u =
    let t = translate_inside c addr total_size u in
    record {
      moved = t.0;
      inside = t.1;
      has_way =
          direct_mapped_coords-way config (translate_llc_addr c addr total_size) v h
            (omega (arith, t.1, l));
    }
