-- ===== src/Uart.antt =====
-- mmio/UART16550_Device.{h,cpp}: a transmit-only 16550 UART. `regs` is the array of 8 registers as a
-- function of the offset, `out` is what has gone to standard output, oldest byte first. A buffer and
-- its length are a list.
pub mod Transmit
pub mod Registers
mod Tests
use Prim.Native.Nat.{bit_or}
use axi_interconnect_kit.Prelude.{
  ℕ, zero, suc, ◌+◌, ◌-◌, ◌/◌, Bool, true, false, not, ◌&&◌, ◌==◌, ltb, leb, if◌then◌else◌, List,
  [], ◌∷◌, ◌++◌, length, Option, none, some,
}
use axi_interconnect_kit.Prelude.Words.{u32, sub32, bit, byte}

pub record Uart : Type 0 where
  pub base : ℕ
  pub regs : ℕ → ℕ
  pub tx_buffer : List ℕ
  pub out : List ℕ

-- UART_REG_THR, UART_REG_LSR, UART_LSR_THRE | UART_LSR_TEMT and the number of registers.
abbrev pub reg_thr : ℕ
reg_thr = 0

abbrev pub reg_lsr : ℕ
reg_lsr = 5

abbrev pub lsr_ready : ℕ
lsr_ready = 0x60

abbrev pub reg_count : ℕ
reg_count = 8

-- ESC, CR and LF.
abbrev pub esc : ℕ
esc = 27

abbrev pub cr : ℕ
cr = 13

abbrev pub lf : ℕ
lf = 10

unfoldable pub new : ℕ → Uart
new base = record { base = base; regs = λ _. 0; tx_buffer = []; out = [] }

abbrev is_empty : List ℕ → Bool
is_empty [] = true
is_empty (x ∷ xs) = false

unfoldable pub flush_tx_buffer : Bool → Uart → Uart
flush_tx_buffer append_newline s =
    if is_empty s.tx_buffer && not append_newline then s else record s {
      out = s.out ++ (s.tx_buffer ++ (if append_newline then lf ∷ [] else []));
      tx_buffer = [];
    }

-- The destructor.
unfoldable pub close : Uart → Uart
close s = flush_tx_buffer false s

-- A null pointer is `none`.
unfoldable pub sync_from_backing : Option (ℕ → ℕ) → Uart → Uart
sync_from_backing none s = s
sync_from_backing (some memory) s =
    let word0 = memory (s.base / 4) in
    let word1 = memory (u32 (s.base / 4 + 1)) in
    record s {
      regs =
          λ r. if ltb r 4 then byte word0 r else if ltb r 8 then byte word1 (r - 4) else s.regs r;
    }

read_reg : Uart → ℕ → ℕ
read_reg s off =
    if leb reg_count off
    then 0
    else if off == reg_lsr
    then bit_or (s.regs off) lsr_ready
    else s.regs off

-- The loop of `read` from byte `i`, with `n` bytes left.
unfoldable pub read_bytes : Uart → ℕ → ℕ → ℕ → List ℕ
unfolding read_reg
read_bytes s off i zero = []
read_bytes s off i (suc n) = read_reg s (u32 (off + i)) ∷ read_bytes s off (i + 1) n

unfoldable pub read : ℕ → ℕ → Uart → List ℕ
unfolding read_bytes
read addr len s = read_bytes s (sub32 addr s.base) 0 len

abbrev pub set_reg : ℕ → ℕ → Uart → Uart
set_reg off v s = record s { regs = λ r. if r == off then v else s.regs r }

push_char : ℕ → Uart → Uart
push_char ch s = record s { tx_buffer = s.tx_buffer ++ ch ∷ [] }

-- A byte that reaches the transmit register: CR leaves the loop before THR is cleared.
unfoldable pub transmit : ℕ → Uart → Uart
unfolding flush_tx_buffer push_char
transmit ch s =
    if ch == esc
    then set_reg reg_thr 0 s
    else if ch == cr
    then s
    else if ch == lf
    then set_reg reg_thr 0 (flush_tx_buffer true s)
    else let s' = push_char ch s in
      set_reg reg_thr 0 (if leb 1024 (length s'.tx_buffer) then flush_tx_buffer false s' else s')

-- One byte of the loop of `write`, at a register offset.
unfoldable pub write_reg : ℕ → ℕ → Uart → Uart
unfolding transmit
write_reg off ch s =
    if leb reg_count off
    then s
    else let s' = set_reg off ch s in if off == reg_thr then transmit ch s' else s'

-- The loop's body for lane `i`, and the loop of `write` from lane `i`.
unfoldable pub write_lane : ℕ → ℕ → ℕ → ℕ → Uart → Uart
unfolding write_reg
write_lane off0 wstrb i ch s =
    if ltb i 32 && (bit wstrb i == 1) then write_reg (u32 (off0 + i)) ch s else s

unfoldable pub write_bytes : ℕ → ℕ → ℕ → List ℕ → Uart → Uart
unfolding write_lane
write_bytes off0 wstrb i [] s = s
write_bytes off0 wstrb i (ch ∷ rest) s =
    write_bytes off0 wstrb (i + 1) rest (write_lane off0 wstrb i ch s)

unfoldable pub write : ℕ → List ℕ → ℕ → Uart → Uart
unfolding write_bytes
write addr bytes wstrb s = write_bytes (sub32 addr s.base) wstrb 0 bytes s
