-- ===== src/SimDdr/Memory.antt =====
-- include/PhysMemory.h and the memory accesses of sim_ddr/SimDDR.cpp: bytes of beats in a word array.
pub mod Laws
use axi_interconnect_kit.Prelude.Words.{u32, bit, byte, put_byte}
use axi_interconnect_kit.Prelude.{
  Option, if◌then◌else◌, leb, none, some, suc, zero, ℕ, ◌%◌, ◌*◌, ◌+◌, ◌-◌, ◌/◌, ◌==◌,
}

-- PMEM_RAM_BASE.
abbrev pub ram_base : ℕ
ram_base = 0x80000000

unfoldable pub pmem_offset : ℕ → ℕ
pmem_offset paddr = if leb ram_base paddr then paddr - ram_base else paddr

-- `(offset & ~3) >> 2`.
abbrev pub word_index : ℕ → ℕ
word_index paddr = pmem_offset paddr / 4

unfoldable pub pmem_read : Option (ℕ → ℕ) → ℕ → ℕ
unfolding pmem_offset
pmem_read none paddr = 0
pmem_read (some m) paddr = m (word_index paddr)

unfoldable pub pmem_write : Option (ℕ → ℕ) → ℕ → ℕ → Option (ℕ → ℕ)
unfolding pmem_offset
pmem_write none paddr word = none
pmem_write (some m) paddr word = some (λ i. if i == word_index paddr then word else m i)

-- `byte_addr & ~0x3u`.
abbrev pub word_addr : ℕ → ℕ
word_addr byte_addr = byte_addr / 4 * 4

-- The loop's body for one byte that is strobed.
unfoldable pub write_byte : ℕ → ℕ → Option (ℕ → ℕ) → Option (ℕ → ℕ)
unfolding pmem_read pmem_write
write_byte byte_addr b m =
    pmem_write m (word_addr byte_addr)
      (put_byte (pmem_read m (word_addr byte_addr)) (byte_addr % 4) b)

unfoldable pub read_byte : ℕ → Option (ℕ → ℕ) → ℕ
unfolding pmem_read
read_byte byte_addr m = byte (pmem_read m (word_addr byte_addr)) (byte_addr % 4)

-- The loops from byte `i`, with `n` bytes left.
unfoldable pub write_bytes : ℕ → ℕ → ℕ → ℕ → ℕ → Option (ℕ → ℕ) → Option (ℕ → ℕ)
unfolding write_byte
write_bytes addr beat wstrb i zero m = m
write_bytes addr beat wstrb i (suc n) m =
    write_bytes addr beat wstrb (i + 1) n
      (if bit wstrb i == 1 then write_byte (u32 (addr + i)) (byte beat i) m else m)

unfoldable pub read_bytes : ℕ → ℕ → ℕ → ℕ → Option (ℕ → ℕ) → ℕ
unfolding read_byte
read_bytes addr i zero beat m = beat
read_bytes addr i (suc n) beat m =
    read_bytes addr (i + 1) n (put_byte beat i (read_byte (u32 (addr + i)) m)) m

unfoldable pub do_memory_write : ℕ → ℕ → ℕ → ℕ → Option (ℕ → ℕ) → Option (ℕ → ℕ)
unfolding write_bytes
do_memory_write beat_bytes addr beat wstrb none = none
do_memory_write beat_bytes addr beat wstrb (some m) =
    write_bytes addr beat wstrb 0 beat_bytes (some m)

-- A null memory reads as poison.
unfoldable pub do_memory_read : ℕ → ℕ → Option (ℕ → ℕ) → ℕ
unfolding read_bytes
do_memory_read beat_bytes addr none = 0xdeadbeef
do_memory_read beat_bytes addr (some m) = read_bytes addr 0 beat_bytes 0 (some m)
