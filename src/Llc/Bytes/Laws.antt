-- ===== src/Llc/Bytes/Laws.antt =====
-- axi_interconnect/AXI_LLC.cpp: what merging, packing and unpacking keep of a line's bytes.
use native.Mathlib.Nat.{mod-lt}
use native.Mathlib.Decide.{ℕ_discrete}
use axi_interconnect_kit.Prelude.Words.{u32, byte}
use axi_interconnect_kit.Llc.{Config, Limits}
use axi_interconnect_kit.Llc.Bytes.{
  min, test, merge_bytes, all_set, merge_write_into_line, is_full_line_write, min,
}
use axi_interconnect_kit.Prelude.{
  ==_ne, ==_self, Bool, List, arith, get_or, get_or-set_ne, get_or-set_self, if◌then◌else◌, leb,
  length, length-set, ltb, refl, set, suc, zero, ℕ, ◌%◌, ◌&&◌, ◌+◌, ◌/◌, ◌<◌, ◌==◌, ◌≡◌, ◌≤◌, false,
  true, ◌-◌, ◌∙◌, Bool-cases, inl, inr,
}

-- A byte after one write, in one equation.
pub get_or-set :
    (xs : List ℕ) (i j v : ℕ)
    → i < length xs
    → get_or (set xs i v) j 0 ≡ (if i == j then v else get_or xs j 0)
get_or-set xs i j v h = elim (ℕ_discrete i j) [
  | yes e ↦ rw (← e) (rw (==_self i) (get_or-set_self xs i v 0 h))
  | no ne ↦ rw (==_ne i j ne) (get_or-set_ne xs v 0 ne)
]

get_or-set_if :
    (c : Bool) (xs : List ℕ) (i j v : ℕ)
    → i < length xs
    → get_or (if c then set xs i v else xs) j 0 ≡ (if c && i == j then v else get_or xs j 0)
get_or-set_if true xs i j v h = get_or-set xs i j v h
get_or-set_if false xs i j v h = refl

length-set_if :
    (c : Bool) (xs : List ℕ) (i v : ℕ) → length (if c then set xs i v else xs) ≡ length xs
length-set_if true xs i v = length-set xs i v
length-set_if false xs i v = refl

module _ (limits : Limits) where
  length-merge_bytes :
      (off : ℕ) (words : ℕ → ℕ) (strobe : ℕ → Bool) (i n : ℕ) (line : List ℕ)
      → length (merge_bytes limits off words strobe i n line) ≡ length line
  unfolding merge_bytes
  length-merge_bytes off words strobe i zero line = refl
  length-merge_bytes off words strobe i (suc n) line =
      length-merge_bytes off words strobe (i + 1) n _
      ∙ length-set_if (test limits strobe i) line (off + i) (byte (words (i / 4)) (i % 4))

  get_or-merge_bytes :
      (off : ℕ) (words : ℕ → ℕ) (strobe : ℕ → Bool) (i n : ℕ) (line : List ℕ) (j : ℕ)
      → off + (i + n) ≤ length line
      → get_or (merge_bytes limits off words strobe i n line) (off + j) 0 ≡ (
          if leb i j && (ltb j (i + n) && test limits strobe j)
          then byte (words (j / 4)) (j % 4)
          else get_or line (off + j) 0)
  unfolding merge_bytes
  get_or-merge_bytes off words strobe i zero line j h = ground arith
  get_or-merge_bytes off words strobe i (suc n) line j h =
      let v = byte (words (i / 4)) (i % 4) in
      let c = test limits strobe i in
      let line' = if c then set line (off + i) v else line in
      get_or-merge_bytes off words strobe (i + 1) n line' j
        (omega (arith, length-set_if c line (off + i) v))
      ∙ rw (get_or-set_if c line (off + i) (off + j) v (omega arith))
          (elim (ℕ_discrete i j) [ yes e ↦ rw (← e) (ground arith) | no ne ↦ ground arith ])

  get_or-merge_bytes_below :
      (off : ℕ) (words : ℕ → ℕ) (strobe : ℕ → Bool) (i n : ℕ) (line : List ℕ) (j : ℕ)
      → off + (i + n) ≤ length line
      → j < off
      → get_or (merge_bytes limits off words strobe i n line) j 0 ≡ get_or line j 0
  unfolding merge_bytes
  get_or-merge_bytes_below off words strobe i zero line j h b = refl
  get_or-merge_bytes_below off words strobe i (suc n) line j h b =
      let v = byte (words (i / 4)) (i % 4) in
      let c = test limits strobe i in
      get_or-merge_bytes_below off words strobe (i + 1) n _ j
        (omega (arith, length-set_if c line (off + i) v)) b
      ∙ rw (get_or-set_if c line (off + i) j v (omega arith)) (ground arith)

  all_set_lem :
      (strobe : ℕ → Bool) (i n j : ℕ)
      → all_set limits strobe i n ≡ true
      → i ≤ j
      → j < i + n
      → test limits strobe j ≡ true
  unfolding all_set
  all_set_lem strobe i zero j a l h = absurd (omega arith)
  all_set_lem strobe i (suc n) j a l h = elim (ℕ_discrete i j) [
    | yes e ↦ rw (← e) (ground arith)
    | no ne ↦ all_set_lem strobe (i + 1) n j (ground arith) (omega arith) (omega arith)
  ]

module _ (limits : Limits) (config : Config) where
  -- A write merged into a line changes the bytes that lie within the write's size and are strobed,
  -- to the write's, and no others.
  pub get_or-merge_write :
      (addr total_size j : ℕ) (line : List ℕ) (words : ℕ → ℕ) (strobe : ℕ → Bool)
      → 0 < config.line_bytes
      → length line ≡ config.line_bytes
      → total_size < 256
      → let off = addr % config.line_bytes in
        get_or (merge_write_into_line limits config addr line words strobe total_size) j 0 ≡ (
          if leb off j
            && (ltb j (off + total_size + 1)
                && (ltb j config.line_bytes && test limits strobe (j - off)))
          then byte (words ((j - off) / 4)) ((j - off) % 4)
          else get_or line j 0)
  unfolding merge_write_into_line
  get_or-merge_write addr total_size j line words strobe h l s =
      let off = addr % config.line_bytes in
      let inside : off < config.line_bytes = mod-lt addr h in
      let n = min (u32 (total_size + 1)) (length line - off) in
      let room : off + (0 + n) ≤ length line = ground arith in
      elim (Bool-cases (leb off j)) [
        | inl e ↦
            let place : off + (j - off) ≡ j = ground arith in
            let body = get_or-merge_bytes limits off words strobe 0 n line (j - off) room in
            let here = rw place at body in ground arith
        | inr e ↦
            let below =
              get_or-merge_bytes_below limits off words strobe 0 n line j room (ground arith) in
            ground arith
      ]

  -- A write of a full line leaves nothing of the line before it: whatever the line held, the merged
  -- bytes are the write's.
  pub full_line_write_lem :
      (addr total_size j : ℕ) (line : List ℕ) (words : ℕ → ℕ) (strobe : ℕ → Bool)
      → length line ≡ config.line_bytes
      → total_size < 256
      → is_full_line_write limits config addr strobe total_size ≡ true
      → j < config.line_bytes
      → get_or (merge_write_into_line limits config addr line words strobe total_size) j 0
        ≡ byte (words (j / 4)) (j % 4)
  unfolding is_full_line_write
  full_line_write_lem addr total_size j line words strobe l s f h =
      let n = config.line_bytes in
      let start : addr % n ≡ 0 = ground arith in
      let some_bytes : 0 < n = ground arith in
      let size : total_size + 1 ≡ n = ground arith in
      let strobed = all_set_lem limits strobe 0 n j (ground arith) (omega arith) (omega arith) in
      let merged = get_or-merge_write addr total_size j line words strobe some_bytes l s in
      let here = rw start at merged in ground arith
