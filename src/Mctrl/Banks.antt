-- ===== src/Mctrl/Banks.antt =====
-- src/peripherals/MCTRL.h, `class RomBank` and `class RamBank`.
use sparcv8emulator.Base.{
  ℕ, ◌+◌, ◌-◌, ◌%◌, ◌^◌, Bool, false, if◌then◌else◌, ltb, Option, none, some, update, u8, sub32,
}
use sparcv8emulator.Mctrl.Bytes.{Endian, little, big, word_of, half_of, byte_at}
use sparcv8emulator.Mctrl.Generic.{Bytewise}

-- A bank of host memory: `writeable` is false in a ROM after `lock`.
pub record Bank : Type 0 where
  pub base : ℕ
  pub size : ℕ
  pub endian : Endian
  pub writeable : Bool
  pub bytes : ℕ → ℕ

-- `(uint64_t(addr) - uint64_t(base)) < uint64_t(size)`.
unfoldable pub contains : ℕ → Bank → Bool
contains addr b = ltb ((addr + 2 ^ 64 - b.base) % 2 ^ 64) b.size

-- `data[off]`, and an assignment to it.
unfoldable pub at_offset : ℕ → Bank → Option ℕ
at_offset off b = if ltb off b.size then some (b.bytes off) else none

unfoldable pub put_offset : ℕ → ℕ → Bank → Option Bank
put_offset off val b =
    if ltb off b.size then some (record b { bytes = update b.bytes off (u8 val) }) else none

unfoldable pub read8 : ℕ → Bank → Option ℕ
read8 addr b = at_offset (sub32 addr b.base) b

-- `RomBank::write8`; `none` is also the exception on a locked bank.
unfoldable pub rom_write8 : ℕ → ℕ → Bank → Option Bank
rom_write8 addr val b = if b.writeable then put_offset (sub32 addr b.base) val b else none

unfoldable pub lock : Bank → Bank
lock b = record b { writeable = false }

unfoldable pub ram_write8 : ℕ → ℕ → Bank → Option Bank
ram_write8 addr val b = put_offset (sub32 addr b.base) val b

-- `p[0]`, `p[1]`, ... with `p = &data[off]`: the offsets do not wrap.
unfoldable pub read16_be : ℕ → Bank → Option ℕ
read16_be addr b =
    let off = sub32 addr b.base in
    if ltb (off + 1) b.size then some (half_of (b.bytes off) (b.bytes (off + 1))) else none

unfoldable pub read16_le : ℕ → Bank → Option ℕ
read16_le addr b =
    let off = sub32 addr b.base in
    if ltb (off + 1) b.size then some (half_of (b.bytes (off + 1)) (b.bytes off)) else none

unfoldable pub read32_be : ℕ → Bank → Option ℕ
read32_be addr b =
    let off = sub32 addr b.base in
    if ltb (off + 3) b.size
    then some (word_of (b.bytes off) (b.bytes (off + 1)) (b.bytes (off + 2)) (b.bytes (off + 3)))
    else none

unfoldable pub read32_le : ℕ → Bank → Option ℕ
read32_le addr b =
    let off = sub32 addr b.base in
    if ltb (off + 3) b.size
    then some (word_of (b.bytes (off + 3)) (b.bytes (off + 2)) (b.bytes (off + 1)) (b.bytes off))
    else none

unfoldable pub write16_be : ℕ → ℕ → Bank → Option Bank
write16_be addr val b =
    let off = sub32 addr b.base in
    if ltb (off + 1) b.size
    then some (record b {
      bytes = update (update b.bytes off (u8 (byte_at 8 val))) (off + 1) (u8 (byte_at 0 val));
    })
    else none

unfoldable pub write16_le : ℕ → ℕ → Bank → Option Bank
write16_le addr val b =
    let off = sub32 addr b.base in
    if ltb (off + 1) b.size
    then some (record b {
      bytes = update (update b.bytes (off + 1) (u8 (byte_at 8 val))) off (u8 (byte_at 0 val));
    })
    else none

unfoldable pub write32_be : ℕ → ℕ → Bank → Option Bank
write32_be addr val b =
    let off = sub32 addr b.base in
    if ltb (off + 3) b.size
    then (let d1 = update b.bytes off (byte_at 24 val) in
        let d2 = update d1 (off + 1) (byte_at 16 val) in
        let d3 = update d2 (off + 2) (byte_at 8 val) in
        some (record b { bytes = update d3 (off + 3) (byte_at 0 val) }))
    else none

unfoldable pub write32_le : ℕ → ℕ → Bank → Option Bank
write32_le addr val b =
    let off = sub32 addr b.base in
    if ltb (off + 3) b.size
    then (let d1 = update b.bytes (off + 3) (byte_at 24 val) in
        let d2 = update d1 (off + 2) (byte_at 16 val) in
        let d3 = update d2 (off + 1) (byte_at 8 val) in
        some (record b { bytes = update d3 off (byte_at 0 val) }))
    else none

abbrev pub by_endian {ℓ} : {A : Type ℓ} → Endian → A → A → A
by_endian big x y = x
by_endian little x y = y

-- The functions that the constructor of a RAM bank chose by the byte order.
unfoldable pub ram_read16 : ℕ → Bank → Option ℕ
ram_read16 addr b = by_endian b.endian (read16_be addr b) (read16_le addr b)

unfoldable pub ram_read32 : ℕ → Bank → Option ℕ
ram_read32 addr b = by_endian b.endian (read32_be addr b) (read32_le addr b)

unfoldable pub ram_write16 : ℕ → ℕ → Bank → Option Bank
ram_write16 addr val b = by_endian b.endian (write16_be addr val b) (write16_le addr val b)

unfoldable pub ram_write32 : ℕ → ℕ → Bank → Option Bank
ram_write32 addr val b = by_endian b.endian (write32_be addr val b) (write32_le addr val b)

-- The virtual functions of the two classes on a bank of byte order `endian`.
unfoldable pub rom : Endian → Bytewise Bank
rom endian = record { endian = endian; read8 = read8; write8 = rom_write8 }

unfoldable pub ram : Endian → Bytewise Bank
ram endian = record { endian = endian; read8 = read8; write8 = ram_write8 }
