-- ===== src/Llc/Meta/Laws.antt =====
-- axi_interconnect/AXI_LLC.cpp: metadata entries encoded and decoded, and the search of a row.
use mathlib.Core.Option
use axi_interconnect_kit.Prelude.{
  Bool, Bool-cases, List, Option, arith, false, if◌then◌else◌, inl, inr, leb, ltb, ltb→lt, none,
  not, or_else, refl, some, suc, true, zero, ℕ, ◌*◌, ◌+◌, ◌<◌, ◌≡◌, Option-cases, ap, replicate,
  subst, ◌%◌, ◌-◌, ◌/◌, ◌∙◌, sym,
}
use axi_interconnect_kit.Llc.Meta.{
  MetaEntry, decode_meta, encode_meta, no_meta, scan_row, tag_limit, way_hits, way_valid, packed,
  unpacked, line_has_valid_meta,
}
use axi_interconnect_kit.Prelude.Words.{bit}
use axi_interconnect_kit.Prelude.Search.{first_from, IsFirst, first_from-IsFirst, first_below}
use axi_interconnect_kit.Llc.Bytes.Words.{read-write_u32_le}
use axi_interconnect_kit.Llc.{Config}

flags_split : (f : ℕ) → f < 8 → bit f 0 + bit f 1 * 2 + bit f 2 * 4 ≡ f
unfolding bit
flags_split f h = omega arith

unpacked-packed :
    (tag flags : ℕ)
    → tag < tag_limit
    → flags < 8
    → unpacked (packed (record { tag = tag; flags = flags })) ≡ record { tag = tag; flags = flags }
unfolding bit
unpacked-packed tag flags l h =
    let word = packed (record { tag = tag; flags = flags }) in
    let t : word % tag_limit ≡ tag = omega arith in
    let f : word / 536870912 % 2 + word / 1073741824 % 2 * 2 + word / 2147483648 % 2 * 4 ≡ flags =
      omega arith in
    λ i. record { tag = t i; flags = f i }

packed-lt : (entry : MetaEntry) → packed entry < 4294967296
unfolding bit
packed-lt entry = omega arith

-- A tag of 29 bits and three flags survive the packing; a wider tag is refused.
pub decode-encode_meta :
    (tag flags : ℕ)
    → flags < 8
    → Option.map (λ row. decode_meta row 0) (encode_meta (record { tag = tag; flags = flags }))
      ≡ (if ltb tag tag_limit then some (record { tag = tag; flags = flags }) else none)
unfolding encode_meta decode_meta
decode-encode_meta tag flags h = elim (Bool-cases (ltb tag tag_limit)) [
  | inl e ↦
      let small = ltb→lt tag tag_limit e in
      let fits : leb tag_limit tag ≡ false = ground arith in
      let word = packed (record { tag = tag; flags = flags }) in
      let read =
        read-write_u32_le (replicate 4 0) 0 word (omega arith)
          (packed-lt (record { tag = tag; flags = flags })) in
      rw (e, fits) (ap (λ w. some (unpacked w)) read ∙ ap some (unpacked-packed tag flags small h))
  | inr e ↦ let wide : leb tag_limit tag ≡ true = ground arith in rw (e, wide) refl
]

-- The number of ways that the search from way `way` has looked at, and the entry that it leaves.
abbrev pub passed : ℕ → ℕ → Option ℕ → ℕ
passed way n none = n
passed way n (some k) = k + 1 - way

abbrev pub entry_of : List ℕ → Option ℕ → MetaEntry
entry_of meta_payload none = no_meta
entry_of meta_payload (some k) = decode_meta meta_payload k

or_else-none : (o : Option ℕ) → o ≡ or_else o none
or_else-none none = refl
or_else-none (some w) = refl

passed-suc :
    (p : ℕ → Bool) (way n : ℕ)
    → passed way (suc n) (first_from p (way + 1) n)
      ≡ suc (passed (way + 1) n (first_from p (way + 1) n))
passed-suc p way n =
    let h = first_from-IsFirst p (way + 1) n in
    elim (Option-cases (first_from p (way + 1) n)) [
      | inl e ↦ rw e refl
      | inr (k, e) ↦ let b = subst (IsFirst p (way + 1) n) e h in rw e (omega arith)
    ]

module _ (valid_payload meta_payload : List ℕ) (tag : ℕ) where
  abbrev hits : ℕ → Bool
  hits way = way_hits valid_payload meta_payload tag way

  abbrev invalid : ℕ → Bool
  invalid way = not (way_valid valid_payload way)

  -- The first invalid way so far, beside the loop that goes on.
  seen_step :
      (way m : ℕ) (seen : Option ℕ)
      → or_else
          (or_else seen (if way_valid valid_payload way then none else some way))
          (first_from invalid (way + 1) m)
        ≡ or_else seen (first_from invalid way (suc m))
  unfolding first_from
  seen_step way m (some w) = refl
  seen_step way m none = elim (Bool-cases (way_valid valid_payload way)) [
    | inl e ↦ rw e refl
    | inr e ↦ rw e refl
  ]

  scan_row_lem :
      (way n : ℕ) (seen : Option ℕ)
      → let scan = scan_row valid_payload meta_payload tag way n seen in
        let hit = first_from hits way n in
        (scan.hit_way ≡ hit)
        × (scan.first_invalid_way ≡ or_else seen (first_from invalid way (passed way n hit)))
        × (scan.hit_meta ≡ entry_of meta_payload hit)
  unfolding scan_row first_from
  scan_row_lem way zero none = (refl, refl, refl)
  scan_row_lem way zero (some w) = (refl, refl, refl)
  scan_row_lem way (suc n) seen =
      let now = or_else seen (if way_valid valid_payload way then none else some way) in
      let h = scan_row_lem (way + 1) n now in
      let hit = first_from hits (way + 1) n in
      elim (Bool-cases (hits way)) [
        | inl e ↦
            let one : way + 1 - way ≡ 1 = omega arith in
            rw e (
              refl,
              or_else-none now
                  ∙ seen_step way 0 seen
                  ∙ ap (λ m. or_else seen (first_from invalid way m)) (sym one),
              refl,
            )
        | inr e ↦ rw e (
          h.0,
          h.1
              ∙ seen_step way (passed (way + 1) n hit) seen
              ∙ ap (λ m. or_else seen (first_from invalid way m)) (sym (passed-suc hits way n)),
          h.2,
        )
      ]

-- The search of a row returns the lowest way that is valid and has the tag, with its entry, and the
-- lowest invalid way among those up to it, or among all when no way hits.
pub line_has_valid_meta_lem :
    (config : Config) (valid_payload meta_payload : List ℕ) (tag : ℕ)
    → let scan = line_has_valid_meta valid_payload meta_payload config tag in
      let hit = first_below (way_hits valid_payload meta_payload tag) config.ways in
      (scan.hit_way ≡ hit)
      × (scan.first_invalid_way
          ≡ first_below (λ w. not (way_valid valid_payload w)) (passed 0 config.ways hit))
      × (scan.hit_meta ≡ entry_of meta_payload hit)
unfolding line_has_valid_meta
line_has_valid_meta_lem config valid_payload meta_payload tag =
    scan_row_lem valid_payload meta_payload tag 0 config.ways none
