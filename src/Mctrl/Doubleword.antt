-- ===== src/Mctrl/Doubleword.antt =====
-- src/peripherals/MCTRL.h: doublewords of a RAM bank.
use sparcv8emulator.Base.{
  ℕ, ◌+◌, ◌^◌, ◌≤◌, ◌<◌, ◌≡◌, refl, ◌∙◌, ap, inl, some, bit_or-add, u32, sub32, ◌>>>◌, arith,
}
use sparcv8emulator.Mctrl.Bytes.{Endian, little, big}
use sparcv8emulator.Mctrl.Generic.{long_in, long_word}
use sparcv8emulator.Mctrl.Generic
use sparcv8emulator.Mctrl.Banks.{Bank, read32_be, read32_le, ram_read32, ram_write32}
use sparcv8emulator.Mctrl.Offsets.{next_offset}
use sparcv8emulator.Mctrl.RoundTrip.{SameOutside, Stored, Stored-some, read32-write32}

-- A word beside the bytes that changed.
kept_be :
    (addr off n : ℕ) (b c : Bank)
    → SameOutside off n b c
    → sub32 addr b.base + 4 ≤ off
    → read32_be addr c ≡ read32_be addr b
unfolding read32_be
kept_be addr off n b c h below =
    rw
      (
        h.base,
        h.size,
        h.bytes (sub32 addr b.base) (inl (omega arith)),
        h.bytes (sub32 addr b.base + 1) (inl (omega arith)),
        h.bytes (sub32 addr b.base + 2) (inl (omega arith)),
        h.bytes (sub32 addr b.base + 3) (inl (omega arith)),
      )
      refl

kept_le :
    (addr off n : ℕ) (b c : Bank)
    → SameOutside off n b c
    → sub32 addr b.base + 4 ≤ off
    → read32_le addr c ≡ read32_le addr b
unfolding read32_le
kept_le addr off n b c h below =
    rw
      (
        h.base,
        h.size,
        h.bytes (sub32 addr b.base) (inl (omega arith)),
        h.bytes (sub32 addr b.base + 1) (inl (omega arith)),
        h.bytes (sub32 addr b.base + 2) (inl (omega arith)),
        h.bytes (sub32 addr b.base + 3) (inl (omega arith)),
      )
      refl

kept_word :
    (addr off n : ℕ) (b c : Bank)
    → SameOutside off n b c
    → sub32 addr b.base + 4 ≤ off
    → ram_read32 addr c ≡ ram_read32 addr b
unfolding ram_read32
kept_word addr off n b c h below =
    simp (h.endian, kept_be addr off n b c h below, kept_le addr off n b c h below) refl

-- A 64-bit word from its words.
long_lem :
    (e : Endian) (val : ℕ) → val < 2 ^ 64 → long_in e (long_word e 0 val) (long_word e 1 val) ≡ val
unfolding long_in long_word
long_lem big val lt = bit_or-add 32 (u32 (val >>> 32)) (u32 val) (omega arith) ∙ omega arith
long_lem little val lt = bit_or-add 32 (u32 (val >>> 32)) (u32 val) (omega arith) ∙ omega arith

long_word_small : (e : Endian) (i val : ℕ) → long_word e i val < 2 ^ 32
unfolding long_word
long_word_small big i val = ground arith
long_word_small little i val = ground arith

-- Two writes side by side.
both :
    (off next : ℕ) (b c d : Bank)
    → SameOutside off 4 b c
    → next ≡ off + 4
    → SameOutside next 4 c d
    → SameOutside off 8 b d
both off next b c d h e h' = record {
  base = h'.base ∙ h.base;
  size = h'.size ∙ h.size;
  endian = h'.endian ∙ h.endian;
  writeable = h'.writeable ∙ h.writeable;
  bytes = λ i far. h'.bytes i (ground (arith, far, e)) ∙ h.bytes i (ground (arith, far));
}

-- A doubleword written to a RAM bank at an address below 2 ^ 32 is stored as two words, reads
-- back, and changes no byte outside the eight.
pub read64-write64 :
    (addr val : ℕ) (b : Bank)
    → addr < 2 ^ 32
    → b.base < 2 ^ 32
    → b.size ≤ 2 ^ 32
    → sub32 addr b.base + 7 < b.size
    → val < 2 ^ 64
    → Stored
        (Generic.read64 b.endian ram_read32)
        addr
        8
        val
        b
        (Generic.write64 b.endian ram_write32 addr val b)
unfolding Generic.read64 Generic.write64
read64-write64 addr val b al bl sl inside small =
    let w0 = long_word b.endian 0 val in
    let w1 = long_word b.endian 1 val in
    let off = sub32 addr b.base in
    let (b1, stored1, back1, same1) =
      Stored-some ram_read32 addr 4 w0 b (ram_write32 addr w0 b)
        (read32-write32 addr w0 b (omega arith) (long_word_small b.endian 0 val)) in
    let place : sub32 (u32 (addr + 4)) b1.base ≡ off + 4 =
      rw same1.base (next_offset addr b.base 4 al bl (omega arith)) in
    let fits : sub32 (u32 (addr + 4)) b1.base + 3 < b1.size =
      rw (place, same1.size) (omega arith) in
    let (b2, stored2, back2, same2) =
      Stored-some ram_read32 (u32 (addr + 4)) 4 w1 b1 (ram_write32 (u32 (addr + 4)) w1 b1)
        (read32-write32 (u32 (addr + 4)) w1 b1 fits (long_word_small b.endian 1 val)) in
    let first : ram_read32 addr b2 ≡ some w0 =
      kept_word addr (sub32 (u32 (addr + 4)) b1.base) 4 b1 b2 same2
        (omega (arith, same1.base, place))
      ∙ back1 in
    rw (stored1, stored2)
      (
        rw (first, back2) (ap some (long_lem b.endian val small)),
        both off (sub32 (u32 (addr + 4)) b1.base) b b1 b2 same1 place same2,
      )
