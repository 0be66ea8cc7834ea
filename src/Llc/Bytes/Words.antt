-- ===== src/Llc/Bytes/Words.antt =====
-- axi_interconnect/AXI_LLC.cpp: words and the bytes that hold them.
use native.Mathlib.Decide.{ℕ_discrete}
use axi_interconnect_kit.Llc.{Config, Limits, max_read_transaction_words}
use axi_interconnect_kit.Llc.Address.{line_words}
use axi_interconnect_kit.Llc.Bytes.{
  min, read_u32_le, write_u32_le, write_words, words_to_line_bytes, line_bytes_to_write_words,
  build_repl_payload, decode_repl_way, extract_line_response,
}
use axi_interconnect_kit.Llc.Bytes.Laws.{get_or-set}
use axi_interconnect_kit.Prelude.{
  List, ap, arith, get_or, if◌then◌else◌, length, length-set, refl, replicate, set, suc, zero, ℕ,
  ◌%◌, ◌*◌, ◌+◌, ◌/◌, ◌<◌, ◌==◌, ◌∙◌, ◌≡◌, ◌≤◌, ltb, true, false, leb,
}
use axi_interconnect_kit.Prelude.Words.{sub32}

get_or-write_u32_le :
    (p : List ℕ) (off v j : ℕ)
    → off + 4 ≤ length p
    → get_or (write_u32_le p off v) j 0 ≡ (
        if off + 3 == j
        then v / 16777216 % 256
        else if off + 2 == j
        then v / 65536 % 256
        else if off + 1 == j
        then v / 256 % 256
        else if off == j
        then v % 256
        else get_or p j 0)
unfolding write_u32_le
get_or-write_u32_le p off v j h =
    let a = set p off (v % 256) in
    let b = set a (off + 1) (v / 256 % 256) in
    let c = set b (off + 2) (v / 65536 % 256) in
    let la = length-set p off (v % 256) in
    let lb = length-set a (off + 1) (v / 256 % 256) in
    let lc = length-set b (off + 2) (v / 65536 % 256) in
    rw (get_or-set c (off + 3) j (v / 16777216 % 256) (omega arith)) (
      rw (get_or-set b (off + 2) j (v / 65536 % 256) (omega arith)) (
        rw (get_or-set a (off + 1) j (v / 256 % 256) (omega arith))
          (rw (get_or-set p off j (v % 256) (omega arith)))))

length-write_u32_le : (p : List ℕ) (off v : ℕ) → length (write_u32_le p off v) ≡ length p
unfolding write_u32_le
length-write_u32_le p off v =
    length-set _ (off + 3) (v / 16777216 % 256)
    ∙ length-set _ (off + 2) (v / 65536 % 256)
    ∙ length-set _ (off + 1) (v / 256 % 256)
    ∙ length-set p off (v % 256)

pub read-write_u32_le :
    (p : List ℕ) (off v : ℕ)
    → off + 4 ≤ length p
    → v < 4294967296
    → read_u32_le (write_u32_le p off v) off ≡ v
unfolding read_u32_le
read-write_u32_le p off v h l = ground (
  arith,
  get_or-write_u32_le p off v off h,
  get_or-write_u32_le p off v (off + 1) h,
  get_or-write_u32_le p off v (off + 2) h,
  get_or-write_u32_le p off v (off + 3) h,
)

length-write_words :
    (words : ℕ → ℕ) (i n : ℕ) (p : List ℕ) → length (write_words words i n p) ≡ length p
unfolding write_words
length-write_words words i zero p = refl
length-write_words words i (suc n) p =
    length-write_words words (i + 1) n _ ∙ length-write_u32_le p (i * 4) (words i)

get_or-write_words_below :
    (words : ℕ → ℕ) (i n : ℕ) (p : List ℕ) (j : ℕ)
    → (i + n) * 4 ≤ length p
    → j < i * 4
    → get_or (write_words words i n p) j 0 ≡ get_or p j 0
unfolding write_words
get_or-write_words_below words i zero p j h l = refl
get_or-write_words_below words i (suc n) p j h l =
    let e = length-write_u32_le p (i * 4) (words i) in
    get_or-write_words_below words (i + 1) n _ j (omega arith) (omega arith)
    ∙ ground (arith, get_or-write_u32_le p (i * 4) (words i) j (omega arith))

read_u32_le-congr :
    (p q : List ℕ) (off : ℕ)
    → get_or p (off + 0) 0 ≡ get_or q (off + 0) 0
    → get_or p (off + 1) 0 ≡ get_or q (off + 1) 0
    → get_or p (off + 2) 0 ≡ get_or q (off + 2) 0
    → get_or p (off + 3) 0 ≡ get_or q (off + 3) 0
    → read_u32_le p off ≡ read_u32_le q off
unfolding read_u32_le
read_u32_le-congr p q off a b c d =
    let e : off + 0 ≡ off = omega arith in
    let a' : get_or p off 0 ≡ get_or q off 0 = rw e at a in ground arith

length-replicate : (n v : ℕ) → length (replicate n v) ≡ n
length-replicate zero v = refl
length-replicate (suc n) v = ap suc (length-replicate n v)

read-write_words :
    (words : ℕ → ℕ) (i n : ℕ) (p : List ℕ) (k : ℕ)
    → (i + n) * 4 ≤ length p
    → i ≤ k
    → k < i + n
    → words k < 4294967296
    → read_u32_le (write_words words i n p) (k * 4) ≡ words k
unfolding write_words
read-write_words words i zero p k h l u w = absurd (omega arith)
read-write_words words i (suc n) p k h l u w =
    let p' = write_u32_le p (i * 4) (words i) in
    let e = length-write_u32_le p (i * 4) (words i) in
    elim (ℕ_discrete i k) [
      | yes s ↦
          let kept = λ (o : ℕ) (b : o < 4).
            get_or-write_words_below words (i + 1) n p' (i * 4 + o) (omega arith) (omega arith) in
          rw (← s) (
            read_u32_le-congr (write_words words (i + 1) n p') p' (i * 4) (kept 0 (omega arith))
              (kept 1 (omega arith)) (kept 2 (omega arith)) (kept 3 (omega arith))
            ∙ read-write_u32_le p (i * 4) (words i) (omega arith) (rw s w))
      | no ne ↦ read-write_words words (i + 1) n p' k (omega arith) (omega arith) (omega arith) w
    ]

module _ (limits : Limits) (config : Config) where
  -- A line packed from words and unpacked again is those words, for lines of whole words within the
  -- write limit.
  pub line_words-roundtrip :
      (words : ℕ → ℕ) (i : ℕ)
      → config.line_bytes % 4 ≡ 0
      → config.line_bytes ≤ limits.max_write_transaction_bytes
      → i < config.line_bytes / 4
      → words i < 4294967296
      → line_bytes_to_write_words limits config (words_to_line_bytes limits config words) i
        ≡ words i
  unfolding line_bytes_to_write_words words_to_line_bytes line_words
  line_words-roundtrip words i h l k w =
      let zeros : List ℕ = replicate config.line_bytes 0 in
      let count = config.line_bytes / 4 in
      let size = length-write_words words 0 count zeros ∙ length-replicate config.line_bytes 0 in
      let packed =
        read-write_words words 0 count zeros i (omega (arith, length-replicate config.line_bytes 0))
          (omega arith) (omega arith) w in
      let inside : ltb i (
            min (limits.max_write_transaction_bytes / 4)
              (length (write_words words 0 count zeros) / 4))
          ≡ true =
        ground (arith, size) in
      rw inside packed

  -- The words of a line from an address on, out of the line's bytes.
  pub extract-words_to_line_bytes :
      (words : ℕ → ℕ) (addr i : ℕ)
      → config.line_bytes % 4 ≡ 0
      → config.line_bytes ≤ 256
      → addr % config.line_bytes / 4 + i < config.line_bytes / 4
      → words (addr % config.line_bytes / 4 + i) < 4294967296
      → extract_line_response limits config addr (words_to_line_bytes limits config words) i
        ≡ words (addr % config.line_bytes / 4 + i)
  unfolding extract_line_response words_to_line_bytes line_words
  extract-words_to_line_bytes words addr i l m k w =
      let zeros : List ℕ = replicate config.line_bytes 0 in
      let count = config.line_bytes / 4 in
      let start = addr % config.line_bytes / 4 in
      let size = length-write_words words 0 count zeros ∙ length-replicate config.line_bytes 0 in
      let packed =
        read-write_words words 0 count zeros (start + i)
          (omega (arith, length-replicate config.line_bytes 0)) (omega arith) (omega arith) w in
      let some_bytes : (config.line_bytes == 0) ≡ false = ground arith in
      let inside : ltb i (min count (sub32 max_read_transaction_words start)) ≡ true =
        ground arith in
      let fits : leb ((start + i) * 4 + 4) (length (write_words words 0 count zeros)) ≡ true =
        rw size (ground arith) in
      rw (some_bytes, inside, fits) packed

-- The replacement way that a payload is built from is the one decoded.
pub decode-build_repl :
    (way : ℕ) → way < 4294967296 → decode_repl_way (build_repl_payload way) ≡ way
unfolding decode_repl_way build_repl_payload
decode-build_repl way h = read-write_u32_le (replicate 4 0) 0 way (omega arith) h
