-- ===== src/Uart/Registers.antt =====
-- mmio/UART16550_Device.cpp, the register file as software sees it.
use Prim.Native.Nat.{bit_or}
use native.Mathlib.Nat.{add-zero, zero-add}
use native.Mathlib.Decide.{ℕ_discrete}
use axi_interconnect_kit.Prelude.{
  refl, lt→ltb, ◌⊎◌, inl, inr, ℕ, zero, suc, ◌+◌, ◌<◌, ◌≡◌, ◌≢◌, ◌==◌, if◌then◌else◌, List, length,
  get_elem?, some, arith, ◌-◌, ◌∷◌, ◌∙◌, [],
}
use axi_interconnect_kit.Prelude.Words.{bit_cases, u32, sub32, bit}
use axi_interconnect_kit.Uart.{
  write_lane, Uart, cr, reg_thr, reg_lsr, reg_count, lsr_ready, flush_tx_buffer, push_char,
  transmit, write_reg, read_reg, read_bytes, read, write_bytes, write,
}

-- What a register reads as.
abbrev pub seen : Uart → ℕ → ℕ
seen s r = if r == reg_lsr then bit_or (s.regs r) lsr_ready else s.regs r

read_bytes-get :
    (s : Uart) (off i n k : ℕ)
    → k < n
    → off + i + k < reg_count
    → get_elem? (read_bytes s off i n) k ≡ some (seen s (off + i + k))
unfolding read_bytes read_reg
read_bytes-get s off i zero k h b = absurd (omega arith)
read_bytes-get s off i (suc n) zero h b =
    let e : u32 (off + i) ≡ off + i + 0 = omega arith in rw e (ground arith)
read_bytes-get s off i (suc n) (suc k) h b =
    let e : off + (i + 1) + k ≡ off + i + suc k = omega arith in
    rw (← e) (read_bytes-get s off (i + 1) n k (omega arith) (omega arith))

-- A bus read of `len` bytes at register `r` returns at its byte `k` the register `r + k`; the line
-- status register reads with its two transmitter-ready bits set.
pub read-get :
    (s : Uart) (r len k : ℕ)
    → s.base < 4294967296
    → s.base + r < 4294967296
    → k < len
    → r + k < reg_count
    → get_elem? (read (s.base + r) len s) k ≡ some (seen s (r + k))
unfolding read
read-get s r len k hb hr hk hc =
    let e : sub32 (s.base + r) s.base ≡ r = omega arith in
    let e' : r + 0 + k ≡ r + k = omega arith in
    rw e (rw e' at (read_bytes-get s r 0 len k hk (omega arith)))

write_reg-other :
    (off c : ℕ) (s : Uart) (r : ℕ) → r ≢ 0 → r ≢ off → (write_reg off c s).regs r ≡ s.regs r
unfolding write_reg transmit flush_tx_buffer push_char
write_reg-other off c s r h n = ground arith

write_reg_self :
    (off c : ℕ) (s : Uart) → off ≢ 0 → off < reg_count → (write_reg off c s).regs off ≡ c
unfolding write_reg transmit flush_tx_buffer push_char
write_reg_self off c s h n = ground arith

-- A register above THR that no strobed lane of the rest of the loop reaches.
abbrev Missed : ℕ → ℕ → ℕ → ℕ → Type 0
Missed off0 wstrb i r = (r < off0 + i) ⊎ (bit wstrb (r - off0) ≡ 0)

write_lane-Missed :
    (off0 wstrb i c : ℕ) (s : Uart) (r : ℕ)
    → r ≢ 0
    → off0 + i < 4294967296
    → Missed off0 wstrb i r
    → (write_lane off0 wstrb i c s).regs r ≡ s.regs r
unfolding write_lane
write_lane-Missed off0 wstrb i c s r h b m =
    let e : u32 (off0 + i) ≡ off0 + i = omega arith in
    rw e (elim (ℕ_discrete r (off0 + i)) [
      | yes q ↦
          let e' : r - off0 ≡ i = omega arith in
          let z : bit wstrb i ≡ 0 = elim m [ inl l ↦ absurd (omega arith) | inr n ↦ rw e' at n ] in
          rw z (ground arith)
      | no q ↦ ground (arith, write_reg-other (off0 + i) c s r)
    ])

write_lane-hit :
    (off0 wstrb i c : ℕ) (s : Uart)
    → i < 32
    → bit wstrb i ≡ 1
    → off0 + i ≢ 0
    → off0 + i < reg_count
    → (write_lane off0 wstrb i c s).regs (off0 + i) ≡ c
unfolding write_lane
write_lane-hit off0 wstrb i c s h b n l =
    let e : u32 (off0 + i) ≡ off0 + i = omega arith in
    rw e (rw b (rw (lt→ltb i 32 h) (write_reg_self (off0 + i) c s n l)))

-- A register above THR that no strobed lane reaches is left alone.
pub write_bytes-Missed :
    (off0 wstrb i : ℕ) (cs : List ℕ) (s : Uart) (r : ℕ)
    → r ≢ 0
    → off0 + i + length cs < 4294967296
    → Missed off0 wstrb i r
    → (write_bytes off0 wstrb i cs s).regs r ≡ s.regs r
unfolding write_bytes
write_bytes-Missed off0 wstrb i [] s r h b m = refl
write_bytes-Missed off0 wstrb i (c ∷ cs) s r h b m =
    write_bytes-Missed off0 wstrb (i + 1) cs (write_lane off0 wstrb i c s) r h (omega arith)
      (elim m [ inl l ↦ inl (omega arith) | inr n ↦ inr n ])
    ∙ write_lane-Missed off0 wstrb i c s r h (omega arith) m

write_bytes-hit :
    (off0 wstrb i k : ℕ) (cs : List ℕ) (s : Uart) (c : ℕ)
    → get_elem? cs k ≡ some c
    → i + k < 32
    → bit wstrb (i + k) ≡ 1
    → off0 + i + length cs < 4294967296
    → off0 + i + k ≢ 0
    → off0 + i + k < reg_count
    → (write_bytes off0 wstrb i cs s).regs (off0 + i + k) ≡ c
unfolding write_bytes
write_bytes-hit off0 wstrb i k [] s c g h b w n l = cc
write_bytes-hit off0 wstrb i zero (d ∷ cs) s c g h b w n l =
    let e : off0 + i + 0 ≡ off0 + i = omega arith in
    rw e (
      write_bytes-Missed off0 wstrb (i + 1) cs (write_lane off0 wstrb i d s) (off0 + i)
        (omega arith) (omega arith) (inl (omega arith))
      ∙ write_lane-hit off0 wstrb i d s (omega arith) (rw add-zero at b) (omega arith) (omega arith)
      ∙ cc)
write_bytes-hit off0 wstrb i (suc k) (d ∷ cs) s c g h b w n l =
    let e : off0 + i + suc k ≡ off0 + (i + 1) + k = omega arith in
    let e' : i + suc k ≡ i + 1 + k = omega arith in
    rw e (
      write_bytes-hit off0 wstrb (i + 1) k cs (write_lane off0 wstrb i d s) c g (omega arith)
        (rw e' at b) (omega arith) (omega arith) (omega arith))

-- THR never holds a byte after it was sent, but a CR: that stays readable.
pub write_reg-thr :
    (c : ℕ) (s : Uart) → (write_reg reg_thr c s).regs reg_thr ≡ (if c == cr then cr else 0)
unfolding write_reg transmit flush_tx_buffer push_char
write_reg-thr c s = ground arith

-- A bus write at register `r` puts byte `k`, among the first 32, into register `r + k` above THR when
-- its strobe is set, and leaves that register as it was when its strobe is clear.
pub write-regs :
    (s : Uart) (r k wstrb c : ℕ) (bytes : List ℕ)
    → s.base < 4294967296
    → s.base + r + length bytes < 4294967296
    → get_elem? bytes k ≡ some c
    → k < 32
    → r + k ≢ 0
    → r + k < reg_count
    → (write (s.base + r) bytes wstrb s).regs (r + k)
      ≡ (if bit wstrb k == 1 then c else s.regs (r + k))
unfolding write
write-regs s r k wstrb c bytes hb hl g h n l =
    let e : sub32 (s.base + r) s.base ≡ r = omega arith in
    let z : r + 0 + k ≡ r + k = omega arith in
    rw e (elim (bit_cases wstrb k) [
      | inl one ↦ rw one (
          rw z at (
            write_bytes-hit r wstrb 0 k bytes s c g (omega arith) (rw (zero-add k) one)
              (omega arith) (omega arith) (omega arith)))
      | inr nil ↦
          let m : r + k - r ≡ k = omega arith in
          rw nil (write_bytes-Missed r wstrb 0 bytes s (r + k) n (omega arith) (inr (rw m nil)))
    ])
