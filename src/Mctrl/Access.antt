-- ===== src/Mctrl/Access.antt =====
-- src/peripherals/MCTRL.h, `class MCtrl`: reads and writes of one to eight bytes at an address.
-- They give a result and the thread's cache; no result is an exception, which a `noexcept`
-- function turns into the end of the program, or an access outside a bank's array.
use sparcv8emulator.Base.{ℕ, ◌%◌, ◌^◌, Option, none, some, u8, u32}
use sparcv8emulator.Mctrl.Bytes.{◌>>=◌}
use sparcv8emulator.Mctrl.Generic
use sparcv8emulator.Mctrl.Banks
use sparcv8emulator.Mctrl.Banks.{Bank, rom, ram}
use sparcv8emulator.Mctrl.Control.{
  BankType, rom_bank, ram_bank, Attached, Mctrl, Cache, find_bank_or_null, place, put_place,
}

pub data MemBusStatus : Type 0 where
  ok no_device device_error : MemBusStatus

-- The virtual functions of a bank, by its class.
abbrev pub by_type {ℓ} : {A : Type ℓ} → BankType → A → A → A
by_type rom_bank x y = x
by_type ram_bank x y = y

unfoldable pub bank_read8 : ℕ → Attached → Option ℕ
bank_read8 addr a = Banks.read8 addr a.bank

unfoldable pub bank_read16 : ℕ → Attached → Option ℕ
bank_read16 addr a =
    by_type a.bank_type (Generic.read16 (rom a.bank.endian) addr a.bank)
      (Banks.ram_read16 addr a.bank)

unfoldable pub type_read32 : BankType → ℕ → Bank → Option ℕ
type_read32 rom_bank addr b = Generic.read32 (rom b.endian) addr b
type_read32 ram_bank addr b = Banks.ram_read32 addr b

unfoldable pub bank_read32 : ℕ → Attached → Option ℕ
bank_read32 addr a = type_read32 a.bank_type addr a.bank

unfoldable pub bank_read64 : ℕ → Attached → Option ℕ
bank_read64 addr a = Generic.read64 a.bank.endian (type_read32 a.bank_type) addr a.bank

unfoldable pub with_bank : Attached → Option Bank → Option Attached
with_bank a none = none
with_bank a (some b) = some (record a { bank = b })

unfoldable pub bank_write8 : ℕ → ℕ → Attached → Option Attached
bank_write8 addr val a =
    with_bank a
      (by_type a.bank_type (Banks.rom_write8 addr val a.bank) (Banks.ram_write8 addr val a.bank))

unfoldable pub bank_write16 : ℕ → ℕ → Attached → Option Attached
bank_write16 addr val a = with_bank a (
    by_type a.bank_type (Generic.write16 (rom a.bank.endian) addr val a.bank)
      (Banks.ram_write16 addr val a.bank))

unfoldable pub type_write32 : BankType → ℕ → ℕ → Bank → Option Bank
type_write32 rom_bank addr val b = Generic.write32 (rom b.endian) addr val b
type_write32 ram_bank addr val b = Banks.ram_write32 addr val b

unfoldable pub bank_write32 : ℕ → ℕ → Attached → Option Attached
bank_write32 addr val a = with_bank a (type_write32 a.bank_type addr val a.bank)

unfoldable pub bank_write64 : ℕ → ℕ → Attached → Option Attached
bank_write64 addr val a =
    with_bank a (Generic.write64 a.bank.endian (type_write32 a.bank_type) addr val a.bank)

abbrev pub bank_at : Option ℕ → Mctrl → Option Attached
bank_at none m = none
bank_at (some i) m = place i m.banks

abbrev pub store_back : Option ℕ → Mctrl → Option Attached → Option Mctrl
store_back (some i) m (some a) = some (record m { banks = put_place i a m.banks })
store_back (some i) m none = none
store_back none m a = none

-- An access at the bank that the search finds; the exception where it finds none.
unfoldable pub reading : (ℕ → Attached → Option ℕ) → ℕ → Mctrl → Cache → Option ℕ × Cache
reading read addr m c = let (p, c') = find_bank_or_null addr m c in (bank_at p m >>= read addr, c')

unfoldable pub writing :
    (ℕ → ℕ → Attached → Option Attached) → ℕ → ℕ → Mctrl → Cache → Option Mctrl × Cache
writing write addr val m c =
    let (p, c') = find_bank_or_null addr m c in
    (store_back p m (bank_at p m >>= write addr val), c')

unfoldable pub read8 : ℕ → Mctrl → Cache → Option ℕ × Cache
read8 addr m c = reading bank_read8 addr m c

unfoldable pub read16 : ℕ → Mctrl → Cache → Option ℕ × Cache
read16 addr m c = reading bank_read16 addr m c

unfoldable pub read32 : ℕ → Mctrl → Cache → Option ℕ × Cache
read32 addr m c = reading bank_read32 addr m c

unfoldable pub read64 : ℕ → Mctrl → Cache → Option ℕ × Cache
read64 addr m c = reading bank_read64 addr m c

unfoldable pub write8 : ℕ → ℕ → Mctrl → Cache → Option Mctrl × Cache
write8 addr val m c = writing bank_write8 addr val m c

unfoldable pub write16 : ℕ → ℕ → Mctrl → Cache → Option Mctrl × Cache
write16 addr val m c = writing bank_write16 addr val m c

unfoldable pub write32 : ℕ → ℕ → Mctrl → Cache → Option Mctrl × Cache
write32 addr val m c = writing bank_write32 addr val m c

unfoldable pub write64 : ℕ → ℕ → Mctrl → Cache → Option Mctrl × Cache
write64 addr val m c = writing bank_write64 addr val m c

-- The accesses with a status: without a bank, `out` stays and nothing is written.
abbrev pub status_of_read : ℕ → Option Attached → (Attached → Option ℕ) → Option (MemBusStatus × ℕ)
status_of_read out none read = some (no_device, out)
status_of_read out (some a) read = do v ← read a; some (ok, v)

abbrev pub status_of_write :
    Option ℕ → Mctrl → (Attached → Option Attached) → Option (MemBusStatus × Mctrl)
status_of_write none m write = some (no_device, m)
status_of_write (some i) m write = do
  m' ← store_back (some i) m (bank_at (some i) m >>= write)
  some (ok, m')

unfoldable pub try_reading :
    (ℕ → Attached → Option ℕ) → ℕ → ℕ → Mctrl → Cache → Option (MemBusStatus × ℕ) × Cache
try_reading read addr out m c =
    let (p, c') = find_bank_or_null addr m c in (status_of_read out (bank_at p m) (read addr), c')

unfoldable pub try_writing :
    (ℕ → ℕ → Attached → Option Attached)
    → ℕ
    → ℕ
    → Mctrl
    → Cache
    → Option (MemBusStatus × Mctrl) × Cache
try_writing write addr val m c =
    let (p, c') = find_bank_or_null addr m c in (status_of_write p m (write addr val), c')

unfoldable pub try_read8 : ℕ → ℕ → Mctrl → Cache → Option (MemBusStatus × ℕ) × Cache
try_read8 addr out m c = try_reading bank_read8 addr out m c

unfoldable pub try_read16 : ℕ → ℕ → Mctrl → Cache → Option (MemBusStatus × ℕ) × Cache
try_read16 addr out m c = try_reading bank_read16 addr out m c

unfoldable pub try_read32 : ℕ → ℕ → Mctrl → Cache → Option (MemBusStatus × ℕ) × Cache
try_read32 addr out m c = try_reading bank_read32 addr out m c

-- `out` has 32 bits.
unfoldable pub low_word : ℕ → Attached → Option ℕ
low_word addr a = do v ← bank_read64 addr a; some (u32 v)

unfoldable pub try_read64 : ℕ → ℕ → Mctrl → Cache → Option (MemBusStatus × ℕ) × Cache
try_read64 addr out m c = try_reading low_word addr out m c

unfoldable pub try_write8 : ℕ → ℕ → Mctrl → Cache → Option (MemBusStatus × Mctrl) × Cache
try_write8 addr value m c = try_writing bank_write8 addr (u8 value) m c

unfoldable pub try_write16 : ℕ → ℕ → Mctrl → Cache → Option (MemBusStatus × Mctrl) × Cache
try_write16 addr value m c = try_writing bank_write16 addr (value % 2 ^ 16) m c

unfoldable pub try_write32 : ℕ → ℕ → Mctrl → Cache → Option (MemBusStatus × Mctrl) × Cache
try_write32 addr value m c = try_writing bank_write32 addr (u32 value) m c

-- The parameter `value` has 32 bits.
unfoldable pub try_write64 : ℕ → ℕ → Mctrl → Cache → Option (MemBusStatus × Mctrl) × Cache
try_write64 addr value m c = try_writing bank_write64 addr (u32 value) m c
