-- ===== src/Mctrl/RoundTrip.antt =====
-- src/peripherals/MCTRL.h, `class RamBank`: what is written is read back.
use sparcv8emulator.Base.{
  ℕ, ◌+◌, ◌*◌, ◌^◌, ◌≤◌, ◌<◌, ◌≡◌, refl, ◌∙◌, ap, inl, inr, ◌⊎◌, true, ltb, Option, none, some,
  update, bit_or, bit_or-add, bit_and-mod, sub32, ◌>>>◌, arith,
}
use sparcv8emulator.Mctrl.Bytes.{Endian, little, big, word_of, byte_at}
use sparcv8emulator.Mctrl.Banks.{
  Bank, by_endian, read32_be, read32_le, write32_be, write32_le, ram_read32, ram_write32,
}
use sparcv8emulator.Mctrl.Offsets.{byte_small}
use sparcv8emulator.Mctrl.Override.{reversed32}

pub or_shifted : (n w k s : ℕ) → k < 2 ^ n → s ≡ w * 2 ^ n → bit_or s k ≡ s + k
or_shifted n w k s lt e = rw e (bit_or-add n w k lt)

pub word_sum :
    (b0 b1 b2 b3 : ℕ)
    → b1 < 2 ^ 8
    → b2 < 2 ^ 8
    → b3 < 2 ^ 8
    → word_of b0 b1 b2 b3 ≡ b0 * 2 ^ 24 + b1 * 2 ^ 16 + b2 * 2 ^ 8 + b3
unfolding word_of
word_sum b0 b1 b2 b3 l1 l2 l3 =
    rw
      (
        bit_or-add 24 b0 (b1 * 2 ^ 16) (omega arith),
        or_shifted 16 (b0 * 2 ^ 8 + b1) (b2 * 2 ^ 8) (b0 * 2 ^ 24 + b1 * 2 ^ 16) (omega arith)
            (omega arith),
        or_shifted 8 (b0 * 2 ^ 16 + b1 * 2 ^ 8 + b2) b3 (b0 * 2 ^ 24 + b1 * 2 ^ 16 + b2 * 2 ^ 8)
            (omega arith) (omega arith),
      )
      refl

-- A word is put together from its bytes.
pub word_of-byte_at :
    (val : ℕ)
    → val < 2 ^ 32
    → word_of (byte_at 24 val) (byte_at 16 val) (byte_at 8 val) (byte_at 0 val) ≡ val
unfolding byte_at
word_of-byte_at val lt =
    word_sum (byte_at 24 val) (byte_at 16 val) (byte_at 8 val) (byte_at 0 val) (byte_small 16 val)
      (byte_small 8 val) (byte_small 0 val)
    ∙ omega (
      arith,
      bit_and-mod 8 (val >>> 24),
      bit_and-mod 8 (val >>> 16),
      bit_and-mod 8 (val >>> 8),
      bit_and-mod 8 (val >>> 0),
    )

-- The bytes of a bank outside the `n` ones from offset `off` on are the same in another one.
pub record SameOutside (off n : ℕ) (b c : Bank) : Type 0 where
  pub base : c.base ≡ b.base
  pub size : c.size ≡ b.size
  pub endian : c.endian ≡ b.endian
  pub writeable : c.writeable ≡ b.writeable
  pub bytes : (i : ℕ) → (i < off) ⊎ (off + n ≤ i) → c.bytes i ≡ b.bytes i

-- A write that is done, read back as `val`, with the rest of the bank left alone.
abbrev pub Stored : (ℕ → Bank → Option ℕ) → ℕ → ℕ → ℕ → Bank → Option Bank → Type 0
Stored read addr n val b none = ⊥
Stored read addr n val b (some c) = (read addr c ≡ some val) × SameOutside (sub32 addr b.base) n b c

Endian-cases : (e : Endian) → (e ≡ big) ⊎ (e ≡ little)
Endian-cases big = inl refl
Endian-cases little = inr refl

big_choice {ℓ} : {A : Type ℓ} (e : Endian) (x y : A) → e ≡ big → by_endian e x y ≡ x
big_choice e x y p = rw p refl

little_choice {ℓ} : {A : Type ℓ} (e : Endian) (x y : A) → e ≡ little → by_endian e x y ≡ y
little_choice e x y p = rw p refl

-- What one byte order stores, the functions that the bank chose read.
as_big :
    (addr val : ℕ) (b : Bank) (o : Option Bank)
    → b.endian ≡ big
    → Stored read32_be addr 4 val b o
    → Stored ram_read32 addr 4 val b o
unfolding ram_read32
as_big addr val b none e x = elim x [ ]
as_big addr val b (some c) e (read, same) =
    (big_choice c.endian (read32_be addr c) (read32_le addr c) (same.endian ∙ e) ∙ read, same)

as_little :
    (addr val : ℕ) (b : Bank) (o : Option Bank)
    → b.endian ≡ little
    → Stored read32_le addr 4 val b o
    → Stored ram_read32 addr 4 val b o
unfolding ram_read32
as_little addr val b none e x = elim x [ ]
as_little addr val b (some c) e (read, same) =
    (little_choice c.endian (read32_be addr c) (read32_le addr c) (same.endian ∙ e) ∙ read, same)

abbrev pub four : (ℕ → ℕ) → ℕ → ℕ → ℕ → ℕ → ℕ → ℕ → ℕ
four f off a b c d = update (update (update (update f off a) (off + 1) b) (off + 2) c) (off + 3) d

pub four_read :
    (f : ℕ → ℕ) (off a b c d : ℕ)
    → (four f off a b c d off ≡ a)
      × (four f off a b c d (off + 1) ≡ b)
      × (four f off a b c d (off + 2) ≡ c)
      × (four f off a b c d (off + 3) ≡ d)
four_read f off a b c d = (ground arith, ground arith, ground arith, ground arith)

four_other :
    (f : ℕ → ℕ) (off a b c d i : ℕ) → (i < off) ⊎ (off + 4 ≤ i) → four f off a b c d i ≡ f i
four_other f off a b c d i h = ground (arith, h)

module _ (addr val : ℕ) (b : Bank) (inside : sub32 addr b.base + 3 < b.size)
    (small : val < 2 ^ 32) where
  abbrev off : ℕ
  off = sub32 addr b.base

  in_size : ltb (off + 3) b.size ≡ true
  in_size = ground (arith, inside)

  written_be : Stored read32_be addr 4 val b (write32_be addr val b)
  unfolding write32_be read32_be
  written_be =
      let r =
        four_read b.bytes off (byte_at 24 val) (byte_at 16 val) (byte_at 8 val) (byte_at 0 val) in
      simp in_size (
        rw (r.0, r.1, r.2, r.3) (ap some (word_of-byte_at val small)),
        record {
          base = refl;
          size = refl;
          endian = refl;
          writeable = refl;
          bytes = λ i h.
              four_other b.bytes off (byte_at 24 val) (byte_at 16 val) (byte_at 8 val)
                (byte_at 0 val) i h;
        },
      )

  written_le : Stored read32_le addr 4 val b (write32_le addr val b)
  unfolding write32_le read32_le
  written_le =
      let r =
        four_read b.bytes off (byte_at 0 val) (byte_at 8 val) (byte_at 16 val) (byte_at 24 val) in
      rw (reversed32 b.bytes off (byte_at 0 val) (byte_at 8 val) (byte_at 16 val) (byte_at 24 val))
        (simp in_size (
          rw (r.0, r.1, r.2, r.3) (ap some (word_of-byte_at val small)),
          record {
            base = refl;
            size = refl;
            endian = refl;
            writeable = refl;
            bytes = λ i h.
                four_other b.bytes off (byte_at 0 val) (byte_at 8 val) (byte_at 16 val)
                  (byte_at 24 val) i h;
          },
        ))

  -- A word written to a RAM bank, in either byte order, is stored and reads back, and no byte of
  -- the bank outside the four changes.
  pub read32-write32 : Stored ram_read32 addr 4 val b (ram_write32 addr val b)
  unfolding ram_read32 ram_write32
  read32-write32 = elim (Endian-cases b.endian) [
    | inl e ↦
        rw (big_choice b.endian (write32_be addr val b) (write32_le addr val b) e)
          (as_big addr val b (write32_be addr val b) e written_be)
    | inr e ↦
        rw (little_choice b.endian (write32_be addr val b) (write32_le addr val b) e)
          (as_little addr val b (write32_le addr val b) e written_le)
  ]

pub Stored-some :
    (read : ℕ → Bank → Option ℕ) (addr n val : ℕ) (b : Bank) (o : Option Bank)
    → Stored read addr n val b o
    → (c : Bank) × (o ≡ some c) × (read addr c ≡ some val) × SameOutside (sub32 addr b.base) n b c
Stored-some read addr n val b none x = elim x [ ]
Stored-some read addr n val b (some c) (read_back, same) = (c, refl, read_back, same)
