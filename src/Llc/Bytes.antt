-- ===== src/Llc/Bytes.antt =====
-- axi_interconnect/AXI_LLC.cpp: lines, words and strobes. A byte vector is a list, an array of words
-- a function of the index, a strobe the predicate of its set bytes.
pub mod Laws
pub mod Words
use axi_interconnect_kit.Prelude.Words.{u32, sub32, byte}
use axi_interconnect_kit.Llc.{Config, Limits, max_read_transaction_words}
use axi_interconnect_kit.Llc.Address.{line_words}
use axi_interconnect_kit.Prelude.{
  Bool, List, [], false, get_or, if◌then◌else◌, leb, length, ltb, not, replicate, set, suc, true,
  zero, ℕ, ◌%◌, ◌&&◌, ◌*◌, ◌+◌, ◌-◌, ◌/◌, ◌==◌, ◌∷◌,
}

abbrev pub min : ℕ → ℕ → ℕ
min a b = if ltb b a then b else a

-- Bytes below 256, the lowest first.
unfoldable pub read_u32_le : List ℕ → ℕ → ℕ
read_u32_le p off =
    get_or p off 0
    + 256 * get_or p (off + 1) 0
    + 65536 * get_or p (off + 2) 0
    + 16777216 * get_or p (off + 3) 0

unfoldable pub write_u32_le : List ℕ → ℕ → ℕ → List ℕ
write_u32_le p off value =
    set
      (set (set (set p off (value % 256)) (off + 1) (value / 256 % 256)) (off + 2)
        (value / 65536 % 256))
      (off + 3) (value / 16777216 % 256)

-- WideWriteStrb_t::test.
abbrev pub test : Limits → (ℕ → Bool) → ℕ → Bool
test limits strobe i = ltb i limits.max_write_transaction_bytes && strobe i

-- The word loop from word `i`, with `n` words left.
unfoldable pub write_words : (ℕ → ℕ) → ℕ → ℕ → List ℕ → List ℕ
unfolding write_u32_le
write_words words i zero bytes = bytes
write_words words i (suc n) bytes =
    write_words words (i + 1) n (write_u32_le bytes (i * 4) (words i))

-- std::memcpy of `n` bytes from an offset on.
unfoldable pub copy_bytes : List ℕ → ℕ → ℕ → List ℕ
copy_bytes p off zero = []
copy_bytes p off (suc n) = get_or p off 0 ∷ copy_bytes p (off + 1) n

-- The merge loop from byte `i`, with `n` bytes left.
unfoldable pub merge_bytes : Limits → ℕ → (ℕ → ℕ) → (ℕ → Bool) → ℕ → ℕ → List ℕ → List ℕ
merge_bytes limits off words strobe i zero line = line
merge_bytes limits off words strobe i (suc n) line =
    merge_bytes limits off words strobe (i + 1) n
      (if test limits strobe i then set line (off + i) (byte (words (i / 4)) (i % 4)) else line)

unfoldable pub all_set : Limits → (ℕ → Bool) → ℕ → ℕ → Bool
all_set limits strobe i zero = true
all_set limits strobe i (suc n) = test limits strobe i && all_set limits strobe (i + 1) n

unfoldable pub update_dirty_line_count : ℕ → Bool → Bool → ℕ
update_dirty_line_count current true true = current
update_dirty_line_count current false false = current
update_dirty_line_count current false true = u32 (current + 1)
update_dirty_line_count current true false = current - 1

unfoldable pub build_repl_payload : ℕ → List ℕ
unfolding write_u32_le
build_repl_payload next_way = write_u32_le (replicate 4 0) 0 next_way

unfoldable pub decode_repl_way : List ℕ → ℕ
unfolding read_u32_le
decode_repl_way payload = if ltb (length payload) 4 then 0 else read_u32_le payload 0

unfoldable pub decode_valid_bit : List ℕ → ℕ → Bool → Bool
decode_valid_bit payload way fallback_valid =
    if leb (length payload) way then fallback_valid else not (get_or payload way 0 == 0)

-- The row's payload and its byte enables.
unfoldable pub encode_valid_bit_payload : ℕ → ℕ → Bool → List ℕ × List ℕ
encode_valid_bit_payload ways way valid =
    if leb ways way
    then (replicate ways 0, replicate ways 0)
    else (set (replicate ways 0) way (if valid then 1 else 0), set (replicate ways 0) way 1)

module _ (limits : Limits) (config : Config) where
  -- `MAX_READ_TRANSACTION_WORDS - start_word` is taken on 32 bits.
  unfoldable pub extract_line_response : ℕ → List ℕ → ℕ → ℕ
  unfolding read_u32_le line_words
  extract_line_response addr line i =
      let byte_off = if config.line_bytes == 0 then 0 else addr % config.line_bytes in
      let start_word = byte_off / 4 in
      let max_words = min (line_words config) (sub32 max_read_transaction_words start_word) in
      let byte_idx = (start_word + i) * 4 in
      if ltb i max_words && leb (byte_idx + 4) (length line) then read_u32_le line byte_idx else 0

  -- `wide_to_line_bytes` and `write_words_to_line_bytes`, which differ in the array's type alone.
  unfoldable pub words_to_line_bytes : (ℕ → ℕ) → List ℕ
  unfolding write_words line_words
  words_to_line_bytes words =
      write_words words 0 (line_words config) (replicate config.line_bytes 0)

  unfoldable pub line_bytes_to_write_words : List ℕ → ℕ → ℕ
  unfolding read_u32_le
  line_bytes_to_write_words line i =
      if ltb i (min (limits.max_write_transaction_bytes / 4) (length line / 4))
      then read_u32_le line (i * 4)
      else 0

  unfoldable pub full_line_strobe : ℕ → Bool
  full_line_strobe b = ltb b config.line_bytes && ltb b limits.max_write_transaction_bytes

  unfoldable pub extract_way_line_bytes : List ℕ → ℕ → List ℕ
  unfolding copy_bytes
  extract_way_line_bytes payload way =
      let offset = way * config.line_bytes in
      if leb (offset + config.line_bytes) (length payload)
      then copy_bytes payload offset config.line_bytes
      else replicate config.line_bytes 0

  unfoldable pub merge_write_into_line : ℕ → List ℕ → (ℕ → ℕ) → (ℕ → Bool) → ℕ → List ℕ
  unfolding merge_bytes
  merge_write_into_line addr line words strobe total_size =
      let line_off = if config.line_bytes == 0 then 0 else addr % config.line_bytes in
      let limit = min (u32 (total_size + 1)) (length line - line_off) in
      merge_bytes limits line_off words strobe 0 limit line

  unfoldable pub is_full_line_write : ℕ → (ℕ → Bool) → ℕ → Bool
  unfolding all_set
  is_full_line_write addr strobe total_size =
      not (config.line_bytes == 0)
      && (addr % config.line_bytes == 0
          && (u32 (total_size + 1) == config.line_bytes
              && all_set limits strobe 0 config.line_bytes))
