-- ===== src/Prelude/Words.antt =====
-- Machine words: the wrap-around of the fixed widths, shifts, and bytes of a word.
use Prim.Native.Nat.{ℕ, zero, suc, ◌+◌, ◌-◌, ◌*◌, ◌/◌, ◌%◌, ◌<◌}
use mathlib.Core.Path.{◌≡◌, refl, ap, ◌∙◌}
use mathlib.Core.Logic.{◌≢◌, ◌⊎◌}
use native.Mathlib.Omega.{arith}

-- `static_cast<uint8_t>` and its kin.
abbrev pub u8 : ℕ → ℕ
u8 n = n % 256

abbrev pub u16 : ℕ → ℕ
u16 n = n % 65536

abbrev pub u32 : ℕ → ℕ
u32 n = n % 4294967296

-- `a - b` on `uint32_t`, for `b` below 2^32.
abbrev pub sub32 : ℕ → ℕ → ℕ
sub32 a b = (a + 4294967296 - b) % 4294967296

-- Bit `i` of a number, `(x >> i) & 1`, by halving.
unfoldable pub bit : ℕ → ℕ → ℕ
bit x zero = x % 2
bit x (suc i) = bit (x / 2) i

pub bit_cases : (x i : ℕ) → (bit x i ≡ 1) ⊎ (bit x i ≡ 0)
unfolding bit
bit_cases x zero = omega arith
bit_cases x (suc i) = bit_cases (x / 2) i

-- Byte `i` of a number, `(x >> 8 i) & 0xFF`, by dividing off the bytes below.
unfoldable pub byte : ℕ → ℕ → ℕ
byte x zero = x % 256
byte x (suc i) = byte (x / 256) i

-- `(x & ~(0xFF << 8 i)) | (b << 8 i)` for a byte `b`: byte `i` is replaced.
unfoldable pub put_byte : ℕ → ℕ → ℕ → ℕ
put_byte x zero b = x / 256 * 256 + b
put_byte x (suc i) b = x % 256 + 256 * put_byte (x / 256) i b

pub byte-lt : (x i : ℕ) → byte x i < 256
unfolding byte
byte-lt x zero = omega arith
byte-lt x (suc i) = byte-lt (x / 256) i

pub byte-put_byte_self : (x i b : ℕ) → b < 256 → byte (put_byte x i b) i ≡ b
unfolding byte put_byte
byte-put_byte_self x zero b h = omega arith
byte-put_byte_self x (suc i) b h =
    let e : (x % 256 + 256 * put_byte (x / 256) i b) / 256 ≡ put_byte (x / 256) i b = omega arith in
    ap (λ y. byte y i) e ∙ byte-put_byte_self (x / 256) i b h

pub byte-put_byte_ne : (x i j b : ℕ) → b < 256 → i ≢ j → byte (put_byte x i b) j ≡ byte x j
unfolding byte put_byte
byte-put_byte_ne x zero zero b h n = absurd (n refl)
byte-put_byte_ne x zero (suc j) b h n = ap (λ y. byte y j) (omega arith)
byte-put_byte_ne x (suc i) zero b h n = omega arith
byte-put_byte_ne x (suc i) (suc j) b h n =
    let e : (x % 256 + 256 * put_byte (x / 256) i b) / 256 ≡ put_byte (x / 256) i b = omega arith in
    ap (λ y. byte y j) e ∙ byte-put_byte_ne (x / 256) i j b h (λ e. n (ap suc e))
