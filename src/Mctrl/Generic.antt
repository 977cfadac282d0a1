-- ===== src/Mctrl/Generic.antt =====
-- src/peripherals/MCTRL.h, `class IMemoryBank`: accesses to several bytes by accesses to single
-- ones, which each class of banks implements.
use sparcv8emulator.Base.{
  ℕ, ◌+◌, ◌-◌, ◌==◌, if◌then◌else◌, ◌*◌, ◌^◌, Option, some, bit_or, u32, ◌>>>◌,
}
use sparcv8emulator.Mctrl.Bytes.{◌>>=◌, Endian, little, big, word_of, half_of, byte_at}

-- The virtual functions that the others call: a read, a write, and the byte order.
pub record Bytewise (B : Type 0) : Type 0 where
  pub endian : Endian
  pub read8 : ℕ → B → Option ℕ
  pub write8 : ℕ → ℕ → B → Option B

unfoldable pub half_in : Endian → ℕ → ℕ → ℕ
half_in big b0 b1 = half_of b0 b1
half_in little b0 b1 = half_of b1 b0

unfoldable pub word_in : Endian → ℕ → ℕ → ℕ → ℕ → ℕ
word_in big b0 b1 b2 b3 = word_of b0 b1 b2 b3
word_in little b0 b1 b2 b3 = word_of b3 b2 b1 b0

-- The byte of `val` that goes to the `i`-th address.
unfoldable pub half_byte : Endian → ℕ → ℕ → ℕ
half_byte big i val = byte_at (8 * (1 - i)) val
half_byte little i val = byte_at (8 * i) val

unfoldable pub word_byte : Endian → ℕ → ℕ → ℕ
word_byte big i val = byte_at (8 * (3 - i)) val
word_byte little i val = byte_at (8 * i) val

module _ {B : Type 0} (m : Bytewise B) where
  unfoldable pub read16 : ℕ → B → Option ℕ
  read16 addr b = do
    b0 ← m.read8 addr b
    b1 ← m.read8 (u32 (addr + 1)) b
    some (half_in m.endian b0 b1)

  unfoldable pub write16 : ℕ → ℕ → B → Option B
  write16 addr val b = do
    b' ← m.write8 addr (half_byte m.endian 0 val) b
    m.write8 (u32 (addr + 1)) (half_byte m.endian 1 val) b'

  unfoldable pub read32 : ℕ → B → Option ℕ
  read32 addr b = do
    b0 ← m.read8 addr b
    b1 ← m.read8 (u32 (addr + 1)) b
    b2 ← m.read8 (u32 (addr + 2)) b
    b3 ← m.read8 (u32 (addr + 3)) b
    some (word_in m.endian b0 b1 b2 b3)

  unfoldable pub write32 : ℕ → ℕ → B → Option B
  write32 addr val b = do
    b1 ← m.write8 addr (word_byte m.endian 0 val) b
    b2 ← m.write8 (u32 (addr + 1)) (word_byte m.endian 1 val) b1
    b3 ← m.write8 (u32 (addr + 2)) (word_byte m.endian 2 val) b2
    m.write8 (u32 (addr + 3)) (word_byte m.endian 3 val) b3

-- `(u64)hi << 32 | lo`, of the words at an address and at the next one.
unfoldable pub long_in : Endian → ℕ → ℕ → ℕ
long_in big w0 w1 = bit_or (w0 * 2 ^ 32) w1
long_in little w0 w1 = bit_or (w1 * 2 ^ 32) w0

unfoldable pub long_word : Endian → ℕ → ℕ → ℕ
long_word big i val = if i == 0 then u32 (val >>> 32) else u32 val
long_word little i val = if i == 0 then u32 val else u32 (val >>> 32)

-- `read64` and `write64`, over the virtual `read32` and `write32`.
module _ {B : Type 0} (endian : Endian) (read32 : ℕ → B → Option ℕ) where
  unfoldable pub read64 : ℕ → B → Option ℕ
  read64 addr b = do w0 ← read32 addr b; w1 ← read32 (u32 (addr + 4)) b; some (long_in endian w0 w1)

module _ {B : Type 0} (endian : Endian) (write32 : ℕ → ℕ → B → Option B) where
  unfoldable pub write64 : ℕ → ℕ → B → Option B
  write64 addr val b = do
    b' ← write32 addr (long_word endian 0 val) b
    write32 (u32 (addr + 4)) (long_word endian 1 val) b'
