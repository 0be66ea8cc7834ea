-- ===== src/MmioMap.antt =====
-- include/axi_mmio_map.h: which addresses belong to the MMIO ranges.
mod Tests
use axi_interconnect_kit.Prelude.{
  ℕ, ◌+◌, ◌≤◌, ◌<◌, ◌≡◌, ◌↔◌, Bool, true, false, ◌&&◌, ◌||◌, List, [], ◌∷◌, arith, ltb, leb,
}
use axi_interconnect_kit.Prelude.Words.{u32}

-- AxiMmioRange.
pub record MmioRange : Type 0 where
  pub base : ℕ
  pub size : ℕ

-- kAxiMmioRanges: one range, whose bounds MMIO_BASE and MMIO_SIZE the build configures.
abbrev pub mmio_ranges : MmioRange → List MmioRange
mmio_ranges config = config ∷ []

pub in_range : ℕ → MmioRange → Bool
in_range addr range = leb range.base addr && ltb addr (u32 (range.base + range.size))

-- The loop over the ranges returns at the first that holds the address.
pub in_ranges : ℕ → List MmioRange → Bool
unfolding in_range
in_ranges addr [] = false
in_ranges addr (range ∷ rest) = in_range addr range || in_ranges addr rest

unfoldable pub is_mmio_addr : MmioRange → ℕ → Bool
unfolding in_ranges
is_mmio_addr config addr = in_ranges addr (mmio_ranges config)

-- An address is routed to MMIO exactly when it lies within the configured range, if that range
-- ends below 2^32.
is_mmio_addr_iff :
    (config : MmioRange) (addr : ℕ)
    → config.base + config.size < 4294967296
    → (is_mmio_addr config addr ≡ true)
      ↔ ((config.base ≤ addr) × (addr < config.base + config.size))
unfolding is_mmio_addr
is_mmio_addr_iff config addr h = ground arith
