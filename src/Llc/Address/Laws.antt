-- ===== src/Llc/Address/Laws.antt =====
-- axi_interconnect/AXI_LLC.cpp: a line's address, its set and its tag.
use native.Mathlib.Nat.{div-add-mod', div-mul-le_self, div-le_self, mul-div_cancel}
use axi_interconnect_kit.Prelude.Words.{u32}
use axi_interconnect_kit.Llc.{Config, is_valid, set_count}
use axi_interconnect_kit.Llc.Address.{
  line_addr, set_index, tag_of, build_line_addr_from_tag_set, direct_mapped_coords,
}
use axi_interconnect_kit.Prelude.{
  ap, arith, some, sym, true, ℕ, ◌%◌, ◌*◌, ◌+◌, ◌/◌, ◌<◌, ◌↔◌, ◌∙◌, ◌≡◌, ◌≤◌,
}

-- The arithmetic on 32 bits, for a line of `n` bytes and `s` sets.
recompose :
    (a n s : ℕ) → a < 4294967296 → u32 (u32 (u32 (a / n / s * s) + a / n % s) * n) ≡ a / n * n
recompose a n s h =
    let q = a / n in
    let whole : u32 (u32 (q / s * s) + q % s) ≡ q =
      omega (arith, div-add-mod' q s, div-le_self a n) in
    rw whole (omega (arith, div-mul-le_self a n))

-- Equal tags and sets are equal line numbers.
same_quotient : (p q s : ℕ) → p / s ≡ q / s → p % s ≡ q % s → p ≡ q
same_quotient p q s t i = sym (div-add-mod' p s) ∙ rw t (rw i (div-add-mod' q s))

module _ (config : Config) where
  pub valid-line_bytes : is_valid config ≡ true → 0 < config.line_bytes
  unfolding is_valid
  valid-line_bytes v = ground arith

  -- For a cache with sets: an address's tag and set give back the address of its line.
  pub build-tag_set :
      (addr : ℕ)
      → is_valid config ≡ true
      → 0 < set_count config
      → addr < 4294967296
      → build_line_addr_from_tag_set config (tag_of config addr) (set_index config addr)
        ≡ line_addr config addr
  unfolding build_line_addr_from_tag_set tag_of set_index line_addr
  build-tag_set addr v s h =
      ground (arith, valid-line_bytes v, recompose addr config.line_bytes (set_count config) h)

  line_addr_same :
      (a b : ℕ)
      → 0 < config.line_bytes
      → line_addr config a ≡ line_addr config b
      → a / config.line_bytes ≡ b / config.line_bytes
  unfolding line_addr
  line_addr_same a b h e =
      let n = config.line_bytes in
      let e' : a / n * n ≡ b / n * n = ground arith in
      sym (mul-div_cancel (a / n) h) ∙ ap (λ x. x / n) e' ∙ mul-div_cancel (b / n) h

  line_addr_lem :
      (a : ℕ)
      → 0 < config.line_bytes
      → line_addr config a ≡ a / config.line_bytes * config.line_bytes
  unfolding line_addr
  line_addr_lem a h = ground arith

  same-line_addr :
      (a b : ℕ)
      → 0 < config.line_bytes
      → a / config.line_bytes ≡ b / config.line_bytes
      → line_addr config a ≡ line_addr config b
  same-line_addr a b h e =
      line_addr_lem a h ∙ ap (λ q. q * config.line_bytes) e ∙ sym (line_addr_lem b h)

  fields_lem :
      (a : ℕ)
      → is_valid config ≡ true
      → 0 < set_count config
      → (tag_of config a ≡ a / config.line_bytes / set_count config)
        × (set_index config a ≡ a / config.line_bytes % set_count config)
  unfolding tag_of set_index
  fields_lem a v s = ground (arith, valid-line_bytes v)

  -- For a cache with sets: two addresses have the same tag and the same set exactly when they lie in
  -- the same line.
  pub tag_set_iff :
      (a b : ℕ)
      → is_valid config ≡ true
      → 0 < set_count config
      → ((tag_of config a ≡ tag_of config b) × (set_index config a ≡ set_index config b))
        ↔ (line_addr config a ≡ line_addr config b)
  tag_set_iff a b v s =
      let n = config.line_bytes in
      let k = set_count config in
      let h = valid-line_bytes v in
      let fa = fields_lem a v s in
      let fb = fields_lem b v s in
      (
        λ e.
            same-line_addr a b h
              (same_quotient (a / n) (b / n) k (sym fa.0 ∙ e.0 ∙ fb.0) (sym fa.1 ∙ e.1 ∙ fb.1)),
        λ e.
            let q = line_addr_same a b h e in
            (fa.0 ∙ ap (λ x. x / k) q ∙ sym fb.0, fa.1 ∙ ap (λ x. x % k) q ∙ sym fb.1),
      )

  -- In a cache of at most 256 ways, two direct-mapped addresses that own the same set and way lie in
  -- the same line.
  pub direct_mapped_coords_inj :
      (a b : ℕ) (c : ℕ × ℕ)
      → config.ways ≤ 256
      → direct_mapped_coords config a ≡ some c
      → direct_mapped_coords config b ≡ some c
      → line_addr config a ≡ line_addr config b
  unfolding direct_mapped_coords
  direct_mapped_coords_inj a b c w ea eb =
      let n = config.line_bytes in
      let k = set_count config in
      let h : 0 < n = ground arith in
      let t : a / n / k ≡ b / n / k = ground arith in
      let i : a / n % k ≡ b / n % k = ground arith in
      same-line_addr a b h (same_quotient (a / n) (b / n) k t i)
