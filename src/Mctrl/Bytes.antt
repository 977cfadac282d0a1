-- ===== src/Mctrl/Bytes.antt =====
-- src/peripherals/MCTRL.h: words in bytes, in both orders, and steps that can fail.
use sparcv8emulator.Base.{ℕ, ◌*◌, ◌^◌, Option, none, some, bit_and, bit_or, ◌>>>◌}

infixl 5 ◌>>=◌
abbrev pub ◌>>=◌ {ℓ κ} : {A : Type ℓ} {B : Type κ} → Option A → (A → Option B) → Option B
none >>= f = none
some a >>= f = f a

pub data Endian : Type 0 where
  little : Endian
  big : Endian

-- `b0 << 24 | b1 << 16 | b2 << 8 | b3`, and of two bytes.
unfoldable pub word_of : ℕ → ℕ → ℕ → ℕ → ℕ
word_of b0 b1 b2 b3 = bit_or (bit_or (bit_or (b0 * 2 ^ 24) (b1 * 2 ^ 16)) (b2 * 2 ^ 8)) b3

unfoldable pub half_of : ℕ → ℕ → ℕ
half_of hi lo = bit_or (hi * 2 ^ 8) lo

-- `(val >> k) & 0xff`.
unfoldable pub byte_at : ℕ → ℕ → ℕ
byte_at k val = bit_and (val >>> k) 0xff
