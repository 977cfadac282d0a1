-- ===== src/Grpci2/RoundTrip.antt =====
-- src/peripherals/GRPCI2.cpp: what a write to the configuration space makes a read give.
use sparcv8emulator.Base.{
  ℕ, ◌+◌, ◌-◌, ◌*◌, ◌/◌, ◌%◌, ◌^◌, ◌<◌, ◌≡◌, refl, ◌∙◌, sym, ap, inl, inr, true, false, ◌||◌,
  if◌then◌else◌, ◌==◌, ==_iff, Bool-cases, Option, none, some, bit_and, bit_or, u8, u32, ◌>>>◌,
  bit_and-div, bit_and-low, bit_and-mod, bit_and-zero, bit_or-add, bit_or_comm, arith,
}
use sparcv8emulator.Mctrl.Bytes.{word_of, byte_at}
use sparcv8emulator.Mctrl.RoundTrip.{four_read, word_sum}
use sparcv8emulator.Ac97.State.{Ac97}
use sparcv8emulator.Ac97.Config.{
  bar0, bar1, put_config8, put_config32, write_bar, read_bar, config_read32, config_write32,
}
use sparcv8emulator.Grpci2.Registers.{Bridge, signal_pci_cfg_access_complete}
use sparcv8emulator.Grpci2.Config.{
  slot_of, config_register, swapped_bytes, config_read, config_write,
}

-- A word as the sum of its bytes.
abbrev bytes_sum : ℕ → ℕ → ℕ → ℕ → ℕ
bytes_sum b0 b1 b2 b3 = b0 * 2 ^ 24 + b1 * 2 ^ 16 + b2 * 2 ^ 8 + b3

middle_byte : (v : ℕ) → bit_and v ((2 ^ 8 - 1) * 2 ^ 8) ≡ v / 2 ^ 8 % 2 ^ 8 * 2 ^ 8
middle_byte v =
    let high : bit_and v ((2 ^ 8 - 1) * 2 ^ 8) / 2 ^ 8 ≡ v / 2 ^ 8 % 2 ^ 8 =
      bit_and-div 8 v ((2 ^ 8 - 1) * 2 ^ 8) ∙ bit_and-mod 8 (v / 2 ^ 8) in
    let low : bit_and v ((2 ^ 8 - 1) * 2 ^ 8) % 2 ^ 8 ≡ 0 =
      bit_and-low 8 v ((2 ^ 8 - 1) * 2 ^ 8) ∙ bit_and-zero (v % 2 ^ 8) in
    omega (arith, high, low)

upper_byte : (v : ℕ) → bit_and v 0x00FF0000 ≡ v / 2 ^ 16 % 2 ^ 8 * 2 ^ 16
upper_byte v =
    let high : bit_and v 0x00FF0000 / 2 ^ 16 ≡ v / 2 ^ 16 % 2 ^ 8 =
      bit_and-div 16 v 0x00FF0000 ∙ bit_and-mod 8 (v / 2 ^ 16) in
    let low : bit_and v 0x00FF0000 % 2 ^ 16 ≡ 0 =
      bit_and-low 16 v 0x00FF0000 ∙ bit_and-zero (v % 2 ^ 16) in
    omega (arith, high, low)

swapped_bytes_sum :
    (v : ℕ)
    → v < 2 ^ 32
    → swapped_bytes v ≡ bytes_sum (v % 2 ^ 8) (v / 2 ^ 8 % 2 ^ 8) (v / 2 ^ 16 % 2 ^ 8) (v / 2 ^ 24)
unfolding swapped_bytes word_of
swapped_bytes_sum v lt =
    let first : u32 (v * 2 ^ 24) ≡ v % 2 ^ 8 * 2 ^ 24 = omega arith in
    let second : u32 (bit_and v 0x0000FF00 * 2 ^ 8) ≡ v / 2 ^ 8 % 2 ^ 8 * 2 ^ 16 =
      omega (arith, middle_byte v) in
    let third : bit_and v 0x00FF0000 / 2 ^ 8 ≡ v / 2 ^ 16 % 2 ^ 8 * 2 ^ 8 =
      omega (arith, upper_byte v) in
    rw (first, second, third)
      (word_sum (v % 2 ^ 8) (v / 2 ^ 8 % 2 ^ 8) (v / 2 ^ 16 % 2 ^ 8) (v / 2 ^ 24) (omega arith)
        (omega arith) (omega arith))

swapped_word : (v : ℕ) → v < 2 ^ 32 → swapped_bytes v < 2 ^ 32
swapped_word v lt = omega (arith, swapped_bytes_sum v lt)

swapped_twice : (v : ℕ) → v < 2 ^ 32 → swapped_bytes (swapped_bytes v) ≡ v
swapped_twice v lt =
    let once = swapped_bytes_sum v lt in
    let twice = swapped_bytes_sum (swapped_bytes v) (swapped_word v lt) in
    omega (arith, once, twice)

-- Four bytes in the order of the bus.
little_sum :
    (c0 c1 c2 c3 : ℕ)
    → c0 < 2 ^ 8
    → c1 < 2 ^ 8
    → c2 < 2 ^ 8
    → bit_or (bit_or (bit_or c0 (c1 * 2 ^ 8)) (c2 * 2 ^ 16)) (c3 * 2 ^ 24) ≡ bytes_sum c3 c2 c1 c0
little_sum c0 c1 c2 c3 l0 l1 l2 =
    let low : bit_or c0 (c1 * 2 ^ 8) ≡ c1 * 2 ^ 8 + c0 =
      bit_or_comm c0 (c1 * 2 ^ 8) ∙ bit_or-add 8 c1 c0 l0 in
    let middle : bit_or (c1 * 2 ^ 8 + c0) (c2 * 2 ^ 16) ≡ c2 * 2 ^ 16 + (c1 * 2 ^ 8 + c0) =
      bit_or_comm (c1 * 2 ^ 8 + c0) (c2 * 2 ^ 16)
      ∙ bit_or-add 16 c2 (c1 * 2 ^ 8 + c0) (omega arith) in
    let high : bit_or (c2 * 2 ^ 16 + (c1 * 2 ^ 8 + c0)) (c3 * 2 ^ 24)
        ≡ c3 * 2 ^ 24 + (c2 * 2 ^ 16 + (c1 * 2 ^ 8 + c0)) =
      bit_or_comm (c2 * 2 ^ 16 + (c1 * 2 ^ 8 + c0)) (c3 * 2 ^ 24)
      ∙ bit_or-add 24 c3 (c2 * 2 ^ 16 + (c1 * 2 ^ 8 + c0)) (omega arith) in
    rw (low, middle, high) (omega arith)

-- What a register of the device gives after a write of `v`.
unfoldable pub register_word : ℕ → ℕ → ℕ
register_word off v =
    if off == bar0 || off == bar1
    then if v == 0xFFFFFFFF then 0xFFFFFF00 else if v == 0 then 0 else bit_and v 0xFFFFFFF0
    else v

plain_register :
    (off v : ℕ) (a : Ac97)
    → v < 2 ^ 32
    → (off == bar0) ≡ false
    → (off == bar1) ≡ false
    → config_read32 off (config_write32 off v a) ≡ v
unfolding config_read32 config_write32 put_config32 put_config8 byte_at
plain_register off v a lt n0 n1 =
    let (r0, r1, r2, r3) =
      four_read a.config off (u8 (byte_at 0 v)) (u8 (byte_at 8 v)) (u8 (byte_at 16 v))
        (u8 (byte_at 24 v)) in
    simp (n0, n1)
      (rw (r0, r1, r2, r3)
        (little_sum (u8 (byte_at 0 v)) (u8 (byte_at 8 v)) (u8 (byte_at 16 v)) (u8 (byte_at 24 v))
            (omega arith) (omega arith) (omega arith)
          ∙ omega (
            arith,
            bit_and-mod 8 (v >>> 24),
            bit_and-mod 8 (v >>> 16),
            bit_and-mod 8 (v >>> 8),
            bit_and-mod 8 (v >>> 0),
          )))

bar_value :
    (i v : ℕ) (a : Ac97)
    → read_bar i (write_bar i v a)
      ≡ (if v == 0xFFFFFFFF then 0xFFFFFF00 else if v == 0 then 0 else bit_and v 0xFFFFFFF0)
unfolding read_bar write_bar
bar_value i v a =
    let same : (i == i) ≡ true = ground arith in
    elim (Bool-cases (v == 0xFFFFFFFF)) [
      | inl asks ↦ simp (asks, same) refl
      | inr n ↦ simp (n, same) refl
    ]

config_read32-config_write32 :
    (off v : ℕ) (a : Ac97)
    → v < 2 ^ 32
    → config_read32 off (config_write32 off v a) ≡ register_word off v
unfolding register_word config_read32 config_write32 read_bar
config_read32-config_write32 off v a lt = elim (Bool-cases (off == bar0)) [
  | inl e0 ↦ let it : off ≡ bar0 = (==_iff off bar0).0 e0 in rw it (bar_value 0 v a)
  | inr n0 ↦ elim (Bool-cases (off == bar1)) [
    | inl e1 ↦ let it : off ≡ bar1 = (==_iff off bar1).0 e1 in rw it (bar_value 1 v a)
    | inr n1 ↦
        let kept : register_word off v ≡ v = (simp (n0, n1) refl) in
        plain_register off v a lt n0 n1 ∙ sym kept
  ]
]

-- What the guest reads after a write of `v`.
unfoldable pub config_word : ℕ → ℕ → ℕ
config_word off v =
    if off == bar0 || off == bar1 then swapped_bytes (register_word off (swapped_bytes v)) else v

register_word-swapped_bytes :
    (off v : ℕ)
    → v < 2 ^ 32
    → swapped_bytes (register_word off (swapped_bytes v)) ≡ config_word off v
unfolding config_word register_word
register_word-swapped_bytes off v lt = elim (Bool-cases (off == bar0 || off == bar1)) [
  | inl bar ↦ simp bar refl
  | inr plain ↦ simp plain (swapped_twice v lt)
]

-- The word that a read of the configuration space gives.
abbrev pub word_read : Option (ℕ × Bridge) → Option ℕ
word_read none = none
word_read (some (v, b)) = some v

-- A write that is done, after which a read of the address gives `v`.
abbrev pub ReadsConfig : ℕ → ℕ → Option Bridge → Type 0
ReadsConfig paddr v none = ⊥
ReadsConfig paddr v (some b) = word_read (config_read paddr 32 b) ≡ some v

-- A word written to the configuration space of the device in slot 6, through the bridge that swaps
-- the bytes both ways, is read back, but for the two base address registers: all ones read as the
-- size of 256 bytes, and another value without the low four bits of the word on the bus.
pub config_read-config_write :
    (paddr v : ℕ) (a : Ac97) (b : Bridge)
    → v < 2 ^ 32
    → slot_of paddr ≡ 6
    → b.device ≡ some a
    → ReadsConfig paddr (config_word (config_register paddr) v) (config_write paddr v 32 b)
unfolding config_read config_write signal_pci_cfg_access_complete
config_read-config_write paddr v a b lt slot here =
    let six : (slot_of paddr == 6) ≡ true = (==_iff (slot_of paddr) 6).1 slot in
    simp (six, here)
      (ap (λ (t : ℕ). some (swapped_bytes t))
          (config_read32-config_write32 (config_register paddr) (swapped_bytes v) a
            (swapped_word v lt))
        ∙ ap some (register_word-swapped_bytes (config_register paddr) v lt))
