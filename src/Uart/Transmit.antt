-- ===== src/Uart/Transmit.antt =====
-- mmio/UART16550_Device.cpp, the transmit side: what reaches standard output.
use mathlib.Core.List.{append-nil, append_assoc}
use axi_interconnect_kit.Prelude.{
  ℕ, ◌+◌, ◌<◌, ◌≡◌, ◌≢◌, refl, sym, ◌∙◌, Bool, true, false, ◌==◌, ◌&&◌, ltb, if◌then◌else◌, List,
  [], ◌∷◌, ◌++◌, length, length-append, arith,
}
use axi_interconnect_kit.Prelude.Words.{u32, sub32, bit}
use axi_interconnect_kit.Uart.{
  write_lane, Uart, esc, cr, lf, reg_thr, new, flush_tx_buffer, push_char, transmit, close,
  write_reg, write_bytes, write,
}

-- All that the program has sent and that is printed or will be.
abbrev pub sent : Uart → List ℕ
sent s = s.out ++ s.tx_buffer

-- The specification: every byte but ESC and CR is printed, in order.
unfoldable pub visible : List ℕ → List ℕ
visible [] = []
visible (c ∷ cs) =
    let rest = visible cs in if c == esc then rest else if c == cr then rest else c ∷ rest

-- Byte writes to THR.
unfoldable pub puts : List ℕ → Uart → Uart
puts [] s = s
puts (c ∷ cs) s = puts cs (write_reg reg_thr c s)

sent-write_reg : (c : ℕ) (s : Uart) → sent (write_reg reg_thr c s) ≡ sent s ++ visible (c ∷ [])
unfolding write_reg transmit flush_tx_buffer push_char visible
sent-write_reg c s = ground (
  arith,
  append-nil (s.out ++ s.tx_buffer),
  append_assoc s.out s.tx_buffer (c ∷ []),
  append-nil (s.tx_buffer ++ c ∷ []),
  append-nil (s.out ++ (s.tx_buffer ++ c ∷ [])),
)

visible-cons : (c : ℕ) (cs : List ℕ) → visible (c ∷ cs) ≡ visible (c ∷ []) ++ visible cs
unfolding visible
visible-cons c cs = ground arith

-- Whatever bytes a program writes to THR, what has been printed together with what is buffered grows
-- by exactly those bytes in their order, less every ESC and CR.
pub sent-puts : (cs : List ℕ) (s : Uart) → sent (puts cs s) ≡ sent s ++ visible cs
unfolding puts
sent-puts [] s = unfold visible in sym (append-nil (sent s))
sent-puts (c ∷ cs) s =
    sent-puts cs (write_reg reg_thr c s)
    ∙ rw (sent-write_reg c s, visible-cons c cs)
        (append_assoc (sent s) (visible (c ∷ [])) (visible cs))

out-close : (s : Uart) → (close s).out ≡ sent s
unfolding close flush_tx_buffer
out-close s = ground (arith, append-nil s.tx_buffer, append-nil s.out)

-- A device that is created, written to and destroyed has printed the visible bytes, and no other.
pub out-close-puts : (base : ℕ) (cs : List ℕ) → (close (puts cs (new base))).out ≡ visible cs
out-close-puts base cs =
    out-close (puts cs (new base)) ∙ sent-puts cs (new base) ∙ (unfold new in refl)

-- The buffer holds less than 1024 bytes, and no line end.
abbrev NoLf : List ℕ → Type 0
NoLf [] = Unit
NoLf (c ∷ cs) = (c ≢ lf) × NoLf cs

record IsBuffered (s : Uart) : Type 0 where
  pub short : length s.tx_buffer < 1024
  pub one_line : NoLf s.tx_buffer

NoLf-snoc : (cs : List ℕ) (c : ℕ) → NoLf cs → c ≢ lf → NoLf (cs ++ c ∷ [])
NoLf-snoc [] c h n = (n, tt)
NoLf-snoc (d ∷ ds) c h n = (h.0, NoLf-snoc ds c h.1 n)

write_reg-IsBuffered : (off c : ℕ) (s : Uart) → IsBuffered s → IsBuffered (write_reg off c s)
unfolding write_reg transmit flush_tx_buffer push_char
write_reg-IsBuffered off c s v =
    ground (arith, NoLf-snoc s.tx_buffer c, length-append s.tx_buffer (c ∷ []))

write_lane-IsBuffered :
    (off0 wstrb i c : ℕ) (s : Uart) → IsBuffered s → IsBuffered (write_lane off0 wstrb i c s)
unfolding write_lane
write_lane-IsBuffered off0 wstrb i c s v =
    pick (ltb i 32 && (bit wstrb i == 1)) (write_reg-IsBuffered (u32 (off0 + i)) c s v)
  where
    pick :
        (b : Bool)
        → IsBuffered (write_reg (u32 (off0 + i)) c s)
        → IsBuffered (if b then write_reg (u32 (off0 + i)) c s else s)
    pick true w = w
    pick false w = v

write_bytes-IsBuffered :
    (off0 wstrb i : ℕ) (cs : List ℕ) (s : Uart)
    → IsBuffered s
    → IsBuffered (write_bytes off0 wstrb i cs s)
unfolding write_bytes
write_bytes-IsBuffered off0 wstrb i [] s v = v
write_bytes-IsBuffered off0 wstrb i (c ∷ cs) s v =
    write_bytes-IsBuffered off0 wstrb (i + 1) cs _ (write_lane-IsBuffered off0 wstrb i c s v)

-- Every bus write, of any length, strobe and address, leaves less than 1024 bytes buffered and no
-- line end among them: lines are printed when they end.
write-IsBuffered :
    (addr : ℕ) (bytes : List ℕ) (wstrb : ℕ) (s : Uart)
    → IsBuffered s
    → IsBuffered (write addr bytes wstrb s)
unfolding write
write-IsBuffered addr bytes wstrb s v = write_bytes-IsBuffered (sub32 addr s.base) wstrb 0 bytes s v
