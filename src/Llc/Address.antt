-- ===== src/Llc/Address.antt =====
-- axi_interconnect/AXI_LLC.cpp: the fields of an address. Addresses are below 2^32.
pub mod Laws
use axi_interconnect_kit.Prelude.Words.{u8, u32}
use axi_interconnect_kit.Llc.{Config, is_valid, set_count}
use axi_interconnect_kit.Prelude.{
  Option, if◌then◌else◌, leb, none, not, some, ℕ, ◌%◌, ◌*◌, ◌+◌, ◌/◌, ◌==◌, ◌||◌,
}

module _ (config : Config) where
  unfoldable pub line_words : ℕ
  line_words = config.line_bytes / 4

  unfoldable pub line_addr : ℕ → ℕ
  line_addr addr =
      if config.line_bytes == 0 then addr else addr / config.line_bytes * config.line_bytes

  unfoldable pub set_index : ℕ → ℕ
  set_index addr =
      if not (is_valid config) || config.line_bytes == 0
      then 0
      else addr / config.line_bytes % set_count config

  unfoldable pub tag_of : ℕ → ℕ
  tag_of addr =
      if not (is_valid config) || (config.line_bytes == 0 || set_count config == 0)
      then 0
      else addr / config.line_bytes / set_count config

  unfoldable pub valid_row_bytes : ℕ
  valid_row_bytes = config.ways

  unfoldable pub build_line_addr_from_tag_set : ℕ → ℕ → ℕ
  build_line_addr_from_tag_set tag index =
      if not (is_valid config)
      then 0
      else u32 (u32 (u32 (tag * set_count config) + index) * config.line_bytes)

  -- The set and the way that a direct-mapped address owns, if the cache reaches that far.
  unfoldable pub direct_mapped_coords : ℕ → Option (ℕ × ℕ)
  direct_mapped_coords addr =
      if not (is_valid config) || (config.line_bytes == 0 || set_count config == 0)
      then none
      else let line_idx = addr / config.line_bytes in
        let mapped_way = line_idx / set_count config in
        if leb config.ways mapped_way
        then none
        else some (line_idx % set_count config, u8 mapped_way)
