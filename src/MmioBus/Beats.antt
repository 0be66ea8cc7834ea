-- ===== src/MmioBus/Beats.antt =====
-- mmio/MMIO_Bus_AXI4.cpp: addresses and bytes of a beat.
use axi_interconnect_kit.Prelude.Words.{
  byte, put_byte, byte-lt, byte-put_byte_self, byte-put_byte_ne, bit,
}
use axi_interconnect_kit.MmioBus.{load_bytes, load_beat, store_bytes, store_beat, local_wstrb}
use axi_interconnect_kit.Prelude.{
  List, [], ap, arith, get_or, if◌then◌else◌, leb, ltb, refl, suc, zero, ℕ, ◌%◌, ◌&&◌, ◌*◌, ◌+◌,
  ◌/◌, ◌<◌, ◌∙◌, ◌∷◌, ◌≡◌, ltb-false,
}
use native.Mathlib.Decide.{ℕ_discrete}

abbrev pub AllBytes : List ℕ → Type 0
AllBytes [] = Unit
AllBytes (b ∷ bs) = (b < 256) × AllBytes bs

get_or-lt : (p : List ℕ) (i : ℕ) → AllBytes p → get_or p i 0 < 256
get_or-lt [] i h = omega arith
get_or-lt (b ∷ bs) zero h = h.0
get_or-lt (b ∷ bs) (suc i) h = get_or-lt bs i h.1

-- The bytes below the loop's position stay, those it covers are the buffer's.
byte-load_bytes :
    (p : List ℕ) (i n v k : ℕ)
    → AllBytes p
    → byte (load_bytes p i n v) k ≡ (if leb i k && ltb k (i + n) then get_or p k 0 else byte v k)
unfolding load_bytes
byte-load_bytes p i zero v k h = ground arith
byte-load_bytes p i (suc n) v k h =
    byte-load_bytes p (i + 1) n (put_byte v i (get_or p i 0)) k h ∙ (elim (ℕ_discrete i k) [
      | yes e ↦ rw (← e) (ground (arith, byte-put_byte_self v i (get_or p i 0) (get_or-lt p i h)))
      | no ne ↦ ground (arith, byte-put_byte_ne v i k (get_or p i 0) (get_or-lt p i h) ne)
    ])

byte-zero : (k : ℕ) → byte 0 k ≡ 0
unfolding byte
byte-zero zero = refl
byte-zero (suc k) = byte-zero k

get-store_bytes : (v i n k : ℕ) → k < n → get_or (store_bytes v i n) k 0 ≡ byte v (i + k)
unfolding store_bytes
get-store_bytes v i zero k h = absurd (omega arith)
get-store_bytes v i (suc n) zero h = ap (byte v) (omega arith)
get-store_bytes v i (suc n) (suc k) h =
    get-store_bytes v (i + 1) n k (omega arith) ∙ ap (byte v) (omega arith)

store_bytes-AllBytes : (v i n : ℕ) → AllBytes (store_bytes v i n)
unfolding store_bytes
store_bytes-AllBytes v i zero = tt
store_bytes-AllBytes v i (suc n) = (byte-lt v i, store_bytes-AllBytes v (i + 1) n)

-- Unpacking a beat into a byte buffer and packing that buffer again keeps each of the beat's first
-- `n` bytes and clears the others.
pub byte-load_beat-store_beat :
    (v n k : ℕ) → byte (load_beat (store_beat v n) n) k ≡ (if ltb k n then byte v k else 0)
unfolding load_beat store_beat
byte-load_beat-store_beat v n k =
    byte-load_bytes (store_bytes v 0 n) 0 n 0 k (store_bytes-AllBytes v 0 n)
    ∙ ground (arith, byte-zero k, get-store_bytes v 0 n k)

bit-zero : (k : ℕ) → bit 0 k ≡ 0
unfolding bit
bit-zero zero = refl
bit-zero (suc k) = bit-zero k

-- Strobes of lanes within the beat pass, the others are dropped.
pub bit-local_wstrb :
    (wstrb n k : ℕ) → bit (local_wstrb wstrb n) k ≡ (if ltb k n then bit wstrb k else 0)
unfolding local_wstrb bit
bit-local_wstrb wstrb zero k = rw (ltb-false k 0 (omega arith)) (bit-zero k)
bit-local_wstrb wstrb (suc n) zero = ground arith
bit-local_wstrb wstrb (suc n) (suc k) =
    let e : (wstrb % 2 + 2 * local_wstrb (wstrb / 2) n) / 2 ≡ local_wstrb (wstrb / 2) n =
      omega arith in
    ap (λ x. bit x k) e ∙ bit-local_wstrb (wstrb / 2) n k ∙ ground arith
