-- ===== src/Llc/Meta.antt =====
-- axi_interconnect/AXI_LLC.cpp: the entries of the metadata table and the search of a row for a tag.
pub mod Laws
use axi_interconnect_kit.Prelude.{
  Bool, List, Option, false, if◌then◌else◌, leb, length, ltb, none, or_else, replicate, some, suc,
  zero, ℕ, ◌%◌, ◌&&◌, ◌*◌, ◌+◌, ◌/◌, ◌==◌,
}
use axi_interconnect_kit.Prelude.Words.{bit}
use axi_interconnect_kit.Llc.{Config}
use axi_interconnect_kit.Llc.Bytes.{decode_valid_bit, read_u32_le, write_u32_le}

pub record MetaEntry : Type 0 where
  pub tag : ℕ
  pub flags : ℕ

abbrev pub no_meta : MetaEntry
no_meta = record { tag = 0; flags = 0 }

abbrev pub tag_limit : ℕ
tag_limit = 536870912

-- The flags AXI_LLC_META_VALID, AXI_LLC_META_DIRTY and AXI_LLC_META_PREFETCH are the bits 0, 1, 2 of
-- `flags` and the bits 29, 30, 31 of the packed word.
abbrev pub packed : MetaEntry → ℕ
packed entry =
    entry.tag % tag_limit
    + bit entry.flags 0 * 536870912
    + bit entry.flags 1 * 1073741824
    + bit entry.flags 2 * 2147483648

abbrev pub unpacked : ℕ → MetaEntry
unpacked word = record {
  tag = word % tag_limit;
  flags = word / 536870912 % 2 + word / 1073741824 % 2 * 2 + word / 2147483648 % 2 * 4;
}

-- A tag that does not fit aborts the program, `none`.
unfoldable pub encode_meta : MetaEntry → Option (List ℕ)
unfolding write_u32_le
encode_meta entry =
    if leb tag_limit entry.tag then none else some (write_u32_le (replicate 4 0) 0 (packed entry))

unfoldable pub decode_meta : List ℕ → ℕ → MetaEntry
unfolding read_u32_le
decode_meta payload way =
    if ltb (length payload) (way * 4 + 4) then no_meta else unpacked (read_u32_le payload (way * 4))

-- What the search leaves in `*hit_way`, `*first_invalid_way` and `*hit_meta`.
pub record RowScan : Type 0 where
  pub hit_way : Option ℕ
  pub first_invalid_way : Option ℕ
  pub hit_meta : MetaEntry

abbrev pub way_valid : List ℕ → ℕ → Bool
way_valid valid_payload way = decode_valid_bit valid_payload way false

module _ (valid_payload meta_payload : List ℕ) where
  abbrev pub way_hits : ℕ → ℕ → Bool
  way_hits tag way = way_valid valid_payload way && (decode_meta meta_payload way).tag == tag

  -- The loop from way `way`, with `n` ways left and the first invalid way so far.
  unfoldable pub scan_row : ℕ → ℕ → ℕ → Option ℕ → RowScan
  unfolding decode_meta decode_valid_bit
  scan_row tag way zero invalid = record {
    hit_way = none;
    first_invalid_way = invalid;
    hit_meta = no_meta;
  }
  scan_row tag way (suc n) invalid =
      let now = or_else invalid (if way_valid valid_payload way then none else some way) in
      let rest = scan_row tag (way + 1) n now in
      if way_hits tag way
      then record {
        hit_way = some way;
        first_invalid_way = now;
        hit_meta = decode_meta meta_payload way;
      }
      else rest

  unfoldable pub line_has_valid_meta : Config → ℕ → RowScan
  unfolding scan_row
  line_has_valid_meta config tag = scan_row tag 0 config.ways none
