-- ===== src/SimDdr/Memory/Laws.antt =====
-- sim_ddr/SimDDR.cpp: what is read back from the memory after a write.
use axi_interconnect_kit.Prelude.Words.{
  u32, bit, byte, put_byte, byte-lt, byte-put_byte_self, byte-put_byte_ne, bit_cases,
}
use axi_interconnect_kit.SimDdr.Memory.{
  pmem_offset, word_index, pmem_read, pmem_write, word_addr, write_byte, read_byte, write_bytes,
  read_bytes, do_memory_write, do_memory_read,
}
use axi_interconnect_kit.Prelude.{
  arith, if◌then◌else◌, some, ℕ, ◌%◌, ◌/◌, ◌<◌, ◌==◌, ◌≡◌, inl, inr, leb, ltb, suc, zero, ◌&&◌, ◌+◌,
  ◌∙◌, ◌≤◌, Option, ap, refl, sym,
}
use native.Mathlib.Decide.{ℕ_discrete}

-- The place of a byte in RAM: both halves of the address space show the same 2 GiB.
abbrev pub place : ℕ → ℕ
place addr = addr % 2147483648

word_index_lem :
    (a : ℕ) → a < 4294967296 → (word_index (word_addr a) ≡ place a / 4) × (a % 4 ≡ place a % 4)
unfolding pmem_offset
word_index_lem a h = ground arith

read_byte-lt : (a : ℕ) (m : Option (ℕ → ℕ)) → read_byte a m < 256
unfolding read_byte
read_byte-lt a m = byte-lt (pmem_read m (word_addr a)) (a % 4)

read_byte-write_byte :
    (a b v : ℕ) (m : ℕ → ℕ)
    → a < 4294967296
    → b < 4294967296
    → v < 256
    → read_byte b (write_byte a v (some m))
      ≡ (if place a == place b then v else read_byte b (some m))
unfolding read_byte write_byte
read_byte-write_byte a b v m h k l = ground (
  arith,
  word_index_lem a h,
  word_index_lem b k,
  byte-put_byte_self (m (word_index (word_addr a))) (a % 4) v l,
  byte-put_byte_ne (m (word_index (word_addr a))) (a % 4) (b % 4) v l,
)

place_lem :
    (addr i k : ℕ)
    → i < 256
    → k < 256
    → (place (u32 (addr + i)) == place (u32 (addr + k))) ≡ (i == k)
place_lem addr i k h l = ground arith

-- The word array after a byte was stored.
abbrev stored : ℕ → ℕ → (ℕ → ℕ) → ℕ → ℕ
stored a v m j =
    if j == word_index (word_addr a) then put_byte (m (word_index (word_addr a))) (a % 4) v else m j

read_byte-stored :
    (addr i k v : ℕ) (m : ℕ → ℕ)
    → i < 256
    → k < 256
    → v < 256
    → read_byte (u32 (addr + k)) (some (stored (u32 (addr + i)) v m))
      ≡ (if i == k then v else read_byte (u32 (addr + k)) (some m))
unfolding write_byte pmem_read pmem_write
read_byte-stored addr i k v m h l b =
    rw (← place_lem addr i k h l)
      (read_byte-write_byte (u32 (addr + i)) (u32 (addr + k)) v m (omega arith) (omega arith) b)

-- A byte of the beat's range, after the rest of the loop.
write_bytes-at :
    (addr beat wstrb i n k : ℕ) (m : ℕ → ℕ)
    → i + n ≤ 256
    → k < 256
    → read_byte (u32 (addr + k)) (write_bytes addr beat wstrb i n (some m)) ≡ (
        if leb i k && (ltb k (i + n) && bit wstrb k == 1)
        then byte beat k
        else read_byte (u32 (addr + k)) (some m))
unfolding write_bytes write_byte pmem_read pmem_write
write_bytes-at addr beat wstrb i zero k m r l = ground arith
write_bytes-at addr beat wstrb i (suc n) k m r l = elim (bit_cases wstrb i) [
  | inl one ↦ rw one (
      write_bytes-at addr beat wstrb (i + 1) n k (stored (u32 (addr + i)) (byte beat i) m)
        (omega arith) l
      ∙ rw (read_byte-stored addr i k (byte beat i) m (omega arith) l (byte-lt beat i)) (merge one))
  | inr nil ↦ rw nil (write_bytes-at addr beat wstrb (i + 1) n k m (omega arith) l ∙ skip nil)
]
  where
    merge :
        bit wstrb i ≡ 1
        → (if leb (i + 1) k && (ltb k (i + 1 + n) && bit wstrb k == 1)
            then byte beat k
            else (if i == k then byte beat i else read_byte (u32 (addr + k)) (some m)))
          ≡ (if leb i k && (ltb k (i + suc n) && bit wstrb k == 1)
              then byte beat k
              else read_byte (u32 (addr + k)) (some m))
    merge one = ground arith

    skip :
        bit wstrb i ≡ 0
        → (if leb (i + 1) k && (ltb k (i + 1 + n) && bit wstrb k == 1)
            then byte beat k
            else read_byte (u32 (addr + k)) (some m))
          ≡ (if leb i k && (ltb k (i + suc n) && bit wstrb k == 1)
              then byte beat k
              else read_byte (u32 (addr + k)) (some m))
    skip nil = ground arith

read_bytes-at :
    (addr i n beat k : ℕ) (m : Option (ℕ → ℕ))
    → byte (read_bytes addr i n beat m) k
      ≡ (if leb i k && ltb k (i + n) then read_byte (u32 (addr + k)) m else byte beat k)
unfolding read_bytes
read_bytes-at addr i zero beat k m = ground arith
read_bytes-at addr i (suc n) beat k m =
    read_bytes-at addr (i + 1) n (put_byte beat i (read_byte (u32 (addr + i)) m)) k m
    ∙ elim (ℕ_discrete i k) [
      | yes e ↦ rw (← e) (
          ground (
            arith,
            byte-put_byte_self beat i (read_byte (u32 (addr + i)) m)
                (read_byte-lt (u32 (addr + i)) m),
          ))
      | no ne ↦ ground (
        arith,
        byte-put_byte_ne beat i k (read_byte (u32 (addr + i)) m) (read_byte-lt (u32 (addr + i)) m)
            ne,
      )
    ]

write_bytes-some :
    (addr beat wstrb i n : ℕ) (m : ℕ → ℕ)
    → (m' : ℕ → ℕ) × (write_bytes addr beat wstrb i n (some m) ≡ some m')
unfolding write_bytes write_byte pmem_read pmem_write
write_bytes-some addr beat wstrb i zero m = (m, refl)
write_bytes-some addr beat wstrb i (suc n) m = elim (bit_cases wstrb i) [
  | inl one ↦
      rw one (write_bytes-some addr beat wstrb (i + 1) n (stored (u32 (addr + i)) (byte beat i) m))
  | inr nil ↦ rw nil (write_bytes-some addr beat wstrb (i + 1) n m)
]

-- A beat that is written to RAM and read back at the same address, anywhere in the 32-bit address
-- space: each strobed byte is the one written, and each other byte is what it was before.
pub do_memory_read-write :
    (beat_bytes addr beat wstrb k : ℕ) (m : ℕ → ℕ)
    → beat_bytes ≤ 32
    → k < beat_bytes
    → byte (do_memory_read beat_bytes addr (do_memory_write beat_bytes addr beat wstrb (some m))) k
      ≡ (if bit wstrb k == 1 then byte beat k else byte (do_memory_read beat_bytes addr (some m)) k)
unfolding do_memory_read do_memory_write
do_memory_read-write beat_bytes addr beat wstrb k m h l =
    let (m', e) = write_bytes-some addr beat wstrb 0 beat_bytes m in
    let back = read_bytes-at addr 0 beat_bytes 0 k (some m') in
    let written = write_bytes-at addr beat wstrb 0 beat_bytes k m (omega arith) (omega arith) in
    let before = read_bytes-at addr 0 beat_bytes 0 k (some m) in
    let same : read_byte (u32 (addr + k)) (some m')
        ≡ (if bit wstrb k == 1 then byte beat k else read_byte (u32 (addr + k)) (some m)) =
      ap (read_byte (u32 (addr + k))) (sym e) ∙ written ∙ ground arith in
    rw e (back ∙ ground arith)
