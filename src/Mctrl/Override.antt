-- ===== src/Mctrl/Override.antt =====
-- src/peripherals/MCTRL.h: the accesses that `RamBank` implements itself against those of
-- `IMemoryBank`.
use sparcv8emulator.Base.{ℕ, ◌+◌, ◌^◌, ◌≤◌, ◌<◌, ◌≡◌, sym, update, u8, sub32, arith}
use mathlib.Core.Path.{fun_ext}
use sparcv8emulator.Mctrl.Bytes.{Endian, little, big, byte_at}
use sparcv8emulator.Mctrl.Generic
use sparcv8emulator.Mctrl.Generic.{half_in, word_in, half_byte, word_byte}
use sparcv8emulator.Mctrl.Banks.{
  Bank, by_endian, read16_be, read16_le, read32_be, read32_le, write16_be, write16_le, write32_be,
  write32_le, ram_read16, ram_read32, ram_write16, ram_write32, ram,
}
use sparcv8emulator.Mctrl.Offsets.{
  u8-byte_at, generic_read16, generic_read32, generic_write16, generic_write32,
}

-- Writes of four bytes from the first on and from the last on.
pub reversed32 :
    (f : ℕ → ℕ) (off a b c d : ℕ)
    → update (update (update (update f (off + 3) d) (off + 2) c) (off + 1) b) off a
      ≡ update (update (update (update f off a) (off + 1) b) (off + 2) c) (off + 3) d
reversed32 f off a b c d = fun_ext λ j. ground arith

reversed16 :
    (f : ℕ → ℕ) (off a b : ℕ)
    → update (update f (off + 1) b) off a ≡ update (update f off a) (off + 1) b
reversed16 f off a b = fun_ext λ j. ground arith

module _ (addr : ℕ) (b : Bank) (al : addr < 2 ^ 32) (bl : b.base < 2 ^ 32)
    (sl : b.size + 3 ≤ 2 ^ 32) where
  same_read16 :
      (e : Endian)
      → by_endian e (read16_be addr b) (read16_le addr b) ≡ Generic.read16 (ram e) addr b
  unfolding read16_be read16_le half_in
  same_read16 big = sym (generic_read16 addr b al bl sl big)
  same_read16 little = sym (generic_read16 addr b al bl sl little)

  same_read32 :
      (e : Endian)
      → by_endian e (read32_be addr b) (read32_le addr b) ≡ Generic.read32 (ram e) addr b
  unfolding read32_be read32_le word_in
  same_read32 big = sym (generic_read32 addr b al bl sl big)
  same_read32 little = sym (generic_read32 addr b al bl sl little)

  same_write16 :
      (e : Endian) (val : ℕ)
      → by_endian e (write16_be addr val b) (write16_le addr val b)
        ≡ Generic.write16 (ram e) addr val b
  unfolding write16_be write16_le half_byte
  same_write16 big val = sym (generic_write16 addr b al bl sl big val)
  same_write16 little val =
      rw (reversed16 b.bytes (sub32 addr b.base) (u8 (byte_at 0 val)) (u8 (byte_at 8 val)))
        (sym (generic_write16 addr b al bl sl little val))

  same_write32 :
      (e : Endian) (val : ℕ)
      → by_endian e (write32_be addr val b) (write32_le addr val b)
        ≡ Generic.write32 (ram e) addr val b
  unfolding write32_be write32_le word_byte
  same_write32 big val =
      rw (← u8-byte_at 24 val, ← u8-byte_at 16 val, ← u8-byte_at 8 val, ← u8-byte_at 0 val)
        (sym (generic_write32 addr b al bl sl big val))
  same_write32 little val =
      rw
        (reversed32 b.bytes (sub32 addr b.base) (byte_at 0 val) (byte_at 8 val) (byte_at 16 val)
          (byte_at 24 val))
        (rw (← u8-byte_at 24 val, ← u8-byte_at 16 val, ← u8-byte_at 8 val, ← u8-byte_at 0 val)
          (sym (generic_write32 addr b al bl sl little val)))

  -- Whether the word or halfword is inside the bank or not, the accesses of two and of four bytes
  -- that a RAM bank implements itself do what those of the base class do by single bytes, in
  -- both byte orders.
  pub ram-generic :
      (val : ℕ)
      → (ram_read16 addr b ≡ Generic.read16 (ram b.endian) addr b)
        × (ram_read32 addr b ≡ Generic.read32 (ram b.endian) addr b)
        × (ram_write16 addr val b ≡ Generic.write16 (ram b.endian) addr val b)
        × (ram_write32 addr val b ≡ Generic.write32 (ram b.endian) addr val b)
  unfolding ram_read16 ram_read32 ram_write16 ram_write32
  ram-generic val = (
    same_read16 b.endian,
    same_read32 b.endian,
    same_write16 b.endian val,
    same_write32 b.endian val,
  )
