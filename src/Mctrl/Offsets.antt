-- ===== src/Mctrl/Offsets.antt =====
-- src/peripherals/MCTRL.h, `class IMemoryBank`: what its accesses to several bytes read and write,
-- by the offsets in a RAM bank.
use sparcv8emulator.Base.{
  ℕ, ◌+◌, ◌^◌, ◌≤◌, ◌<◌, ◌≡◌, refl, ◌∙◌, ap, inl, inr, true, false, if◌then◌else◌, ltb, Bool-cases,
  none, some, update, bit_and-mod, u8, u32, sub32, ◌>>>◌, arith,
}
use sparcv8emulator.Mctrl.Bytes.{Endian, byte_at}
use sparcv8emulator.Mctrl.Generic
use sparcv8emulator.Mctrl.Generic.{half_in, word_in, half_byte, word_byte}
use sparcv8emulator.Mctrl.Banks.{Bank, at_offset, put_offset, read8, ram_write8, ram}

pub byte_small : (k val : ℕ) → byte_at k val < 2 ^ 8
unfolding byte_at
byte_small k val = omega (arith, bit_and-mod 8 (val >>> k))

pub u8-byte_at : (k val : ℕ) → u8 (byte_at k val) ≡ byte_at k val
u8-byte_at k val = omega (arith, byte_small k val)

-- The next addresses of a bank stand at the next offsets.
pub next_offset :
    (addr base k : ℕ)
    → addr < 2 ^ 32
    → base < 2 ^ 32
    → sub32 addr base + k < 2 ^ 32
    → sub32 (u32 (addr + k)) base ≡ sub32 addr base + k
next_offset addr base k al bl fits = omega arith

in_bounds : (off : ℕ) (b : Bank) → ltb off b.size ≡ true → at_offset off b ≡ some (b.bytes off)
unfolding at_offset
in_bounds off b e = rw e refl

out_of_bounds : (off : ℕ) (b : Bank) → ltb off b.size ≡ false → at_offset off b ≡ none
unfolding at_offset
out_of_bounds off b e = rw e refl

put_in_bounds :
    (off val : ℕ) (b : Bank)
    → ltb off b.size ≡ true
    → put_offset off val b ≡ some (record b { bytes = update b.bytes off (u8 val) })
unfolding put_offset
put_in_bounds off val b e = rw e refl

put_out_of_bounds : (off val : ℕ) (b : Bank) → ltb off b.size ≡ false → put_offset off val b ≡ none
unfolding put_offset
put_out_of_bounds off val b e = rw e refl

module _ (addr : ℕ) (b : Bank) (al : addr < 2 ^ 32) (bl : b.base < 2 ^ 32)
    (sl : b.size + 3 ≤ 2 ^ 32) where
  abbrev pub off : ℕ
  off = sub32 addr b.base

  read_first : read8 addr b ≡ at_offset off b
  unfolding read8
  read_first = refl

  read_next :
      (k : ℕ) → k ≤ 3 → ltb off b.size ≡ true → read8 (u32 (addr + k)) b ≡ at_offset (off + k) b
  unfolding read8
  read_next k le e =
      ap (λ (o : ℕ). at_offset o b) (next_offset addr b.base k al bl (ground (arith, e)))

  -- A multi-byte read of the base class, by the offsets that are inside.
  pub generic_read32 :
      (endian : Endian)
      → Generic.read32 (ram endian) addr b ≡ (
          if ltb (off + 3) b.size
          then some (
              word_in endian
                (b.bytes off)
                (b.bytes (off + 1))
                (b.bytes (off + 2))
                (b.bytes (off + 3)))
          else none)
  unfolding Generic.read32 ram at_offset
  generic_read32 endian = elim (Bool-cases (ltb off b.size)) [
    | inr e0 ↦
        let e3 : ltb (off + 3) b.size ≡ false = ground (arith, e0) in
        rw (read_first, out_of_bounds off b e0, e3) refl
    | inl e0 ↦
        rw
          (
            read_first,
            in_bounds off b e0,
            read_next 1 (omega arith) e0,
            read_next 2 (omega arith) e0,
            read_next 3 (omega arith) e0,
          )
          (ground arith)
  ]

  pub generic_read16 :
      (endian : Endian)
      → Generic.read16 (ram endian) addr b ≡ (
          if ltb (off + 1) b.size
          then some (half_in endian (b.bytes off) (b.bytes (off + 1)))
          else none)
  unfolding Generic.read16 ram at_offset
  generic_read16 endian = elim (Bool-cases (ltb off b.size)) [
    | inr e0 ↦
        let e1 : ltb (off + 1) b.size ≡ false = ground (arith, e0) in
        rw (read_first, out_of_bounds off b e0, e1) refl
    | inl e0 ↦ rw (read_first, in_bounds off b e0, read_next 1 (omega arith) e0) (ground arith)
  ]

  write_next :
      (k : ℕ)
      → k ≤ 3
      → ltb off b.size ≡ true
      → (f : ℕ → ℕ) (v : ℕ)
      → ram_write8 (u32 (addr + k)) v (record b { bytes = f })
        ≡ put_offset (off + k) v (record b { bytes = f })
  unfolding ram_write8
  write_next k le e f v =
      ap (λ (o : ℕ). put_offset o v (record b { bytes = f }))
        (next_offset addr b.base k al bl (ground (arith, e)))

  put_next :
      (k : ℕ) (f : ℕ → ℕ) (v : ℕ)
      → k ≤ 3
      → ltb off b.size ≡ true
      → ltb (off + k) b.size ≡ true
      → ram_write8 (u32 (addr + k)) v (record b { bytes = f })
        ≡ some (record b { bytes = update f (off + k) (u8 v) })
  put_next k f v le e inside =
      write_next k le e f v ∙ put_in_bounds (off + k) v (record b { bytes = f }) inside

  stop_next :
      (k : ℕ) (f : ℕ → ℕ) (v : ℕ)
      → k ≤ 3
      → ltb off b.size ≡ true
      → ltb (off + k) b.size ≡ false
      → ram_write8 (u32 (addr + k)) v (record b { bytes = f }) ≡ none
  stop_next k f v le e outside =
      write_next k le e f v ∙ put_out_of_bounds (off + k) v (record b { bytes = f }) outside

  write_first : (v : ℕ) → ram_write8 addr v b ≡ put_offset off v b
  unfolding ram_write8
  write_first v = refl

  pub generic_write32 :
      (endian : Endian) (val : ℕ)
      → Generic.write32 (ram endian) addr val b ≡ (
          if ltb (off + 3) b.size
          then (let d1 = update b.bytes off (u8 (word_byte endian 0 val)) in
              let d2 = update d1 (off + 1) (u8 (word_byte endian 1 val)) in
              let d3 = update d2 (off + 2) (u8 (word_byte endian 2 val)) in
              some (record b { bytes = update d3 (off + 3) (u8 (word_byte endian 3 val)) }))
          else none)
  unfolding Generic.write32 ram
  generic_write32 endian val =
      let v0 = word_byte endian 0 val in
      let v1 = word_byte endian 1 val in
      let v2 = word_byte endian 2 val in
      let v3 = word_byte endian 3 val in
      let d1 = update b.bytes off (u8 v0) in
      let d2 = update d1 (off + 1) (u8 v1) in
      let d3 = update d2 (off + 2) (u8 v2) in
      elim (Bool-cases (ltb off b.size)) [
        | inr e0 ↦
            let e3 : ltb (off + 3) b.size ≡ false = ground (arith, e0) in
            rw (write_first v0, put_out_of_bounds off v0 b e0, e3) refl
        | inl e0 ↦ elim (Bool-cases (ltb (off + 1) b.size)) [
          | inr e1 ↦
              let e3 : ltb (off + 3) b.size ≡ false = ground (arith, e1) in
              rw
                (
                  write_first v0,
                  put_in_bounds off v0 b e0,
                  stop_next 1 d1 v1 (omega arith) e0 e1,
                  e3,
                )
                refl
          | inl e1 ↦ elim (Bool-cases (ltb (off + 2) b.size)) [
            | inr e2 ↦
                let e3 : ltb (off + 3) b.size ≡ false = ground (arith, e2) in
                rw
                  (
                    write_first v0,
                    put_in_bounds off v0 b e0,
                    put_next 1 d1 v1 (omega arith) e0 e1,
                    stop_next 2 d2 v2 (omega arith) e0 e2,
                    e3,
                  )
                  refl
            | inl e2 ↦ elim (Bool-cases (ltb (off + 3) b.size)) [
              | inr e3 ↦
                  rw
                    (
                      write_first v0,
                      put_in_bounds off v0 b e0,
                      put_next 1 d1 v1 (omega arith) e0 e1,
                      put_next 2 d2 v2 (omega arith) e0 e2,
                      stop_next 3 d3 v3 (omega arith) e0 e3,
                      e3,
                    )
                    refl
              | inl e3 ↦
                  rw
                    (
                      write_first v0,
                      put_in_bounds off v0 b e0,
                      put_next 1 d1 v1 (omega arith) e0 e1,
                      put_next 2 d2 v2 (omega arith) e0 e2,
                      put_next 3 d3 v3 (omega arith) e0 e3,
                      e3,
                    )
                    refl
            ]
          ]
        ]
      ]

  pub generic_write16 :
      (endian : Endian) (val : ℕ)
      → Generic.write16 (ram endian) addr val b ≡ (
          if ltb (off + 1) b.size
          then (let d1 = update b.bytes off (u8 (half_byte endian 0 val)) in
              some (record b { bytes = update d1 (off + 1) (u8 (half_byte endian 1 val)) }))
          else none)
  unfolding Generic.write16 ram
  generic_write16 endian val =
      let v0 = half_byte endian 0 val in
      let v1 = half_byte endian 1 val in
      let d1 = update b.bytes off (u8 v0) in
      elim (Bool-cases (ltb off b.size)) [
        | inr e0 ↦
            let e1 : ltb (off + 1) b.size ≡ false = ground (arith, e0) in
            rw (write_first v0, put_out_of_bounds off v0 b e0, e1) refl
        | inl e0 ↦ elim (Bool-cases (ltb (off + 1) b.size)) [
          | inr e1 ↦
              rw
                (
                  write_first v0,
                  put_in_bounds off v0 b e0,
                  stop_next 1 d1 v1 (omega arith) e0 e1,
                  e1,
                )
                refl
          | inl e1 ↦
              rw
                (
                  write_first v0,
                  put_in_bounds off v0 b e0,
                  put_next 1 d1 v1 (omega arith) e0 e1,
                  e1,
                )
                refl
        ]
      ]
