-- ===== src/Mctrl/Atomic.antt =====
-- src/peripherals/MCTRL.h: `atomic_ldstub8` and `atomic_swap32`. The host locks the page, so each
-- is one step.
use sparcv8emulator.Base.{ℕ, Bool, true, false, Option, none, some}
use sparcv8emulator.Mctrl.Bytes.{◌>>=◌}
use sparcv8emulator.Mctrl.Banks
use sparcv8emulator.Mctrl.Banks.{Bank}
use sparcv8emulator.Mctrl.Control.{
  BankType, rom_bank, ram_bank, Attached, Mctrl, Cache, find_bank_or_null, put_place,
}
use sparcv8emulator.Mctrl.Access.{bank_at}

pub record AtomicResult : Type 0 where
  pub success : Bool
  pub old : ℕ

-- The old value, and the bank with the new one.
unfoldable pub ram_ldstub8 : ℕ → Bank → Option (ℕ × Bank)
ram_ldstub8 addr b = do old ← Banks.read8 addr b; b' ← Banks.ram_write8 addr 0xff b; some (old, b')

unfoldable pub ram_swap32 : ℕ → ℕ → Bank → Option (ℕ × Bank)
ram_swap32 newv addr b = do
  old ← Banks.ram_read32 addr b
  b' ← Banks.ram_write32 addr newv b
  some (old, b')

-- The other classes throw.
abbrev only_ram : BankType → Option (ℕ × Attached) → Option (ℕ × Attached)
only_ram rom_bank x = none
only_ram ram_bank x = x

unfoldable pub on_bank : (Bank → Option (ℕ × Bank)) → Attached → Option (ℕ × Attached)
on_bank swap a = only_ram a.bank_type (do (old, b) ← swap a.bank; some (old, record a { bank = b }))

abbrev atomic_at :
    Option ℕ → Mctrl → (Attached → Option (ℕ × Attached)) → Option (AtomicResult × Mctrl)
atomic_at none m swap = some (record { success = false; old = 0 }, m)
atomic_at (some i) m swap = do
  a ← bank_at (some i) m
  (old, a') ← swap a
  some (record { success = true; old = old }, record m { banks = put_place i a' m.banks })

unfoldable pub atomic :
    (ℕ → Bank → Option (ℕ × Bank)) → ℕ → Mctrl → Cache → Option (AtomicResult × Mctrl) × Cache
atomic swap paddr m c =
    let (p, c') = find_bank_or_null paddr m c in (atomic_at p m (on_bank (swap paddr)), c')

unfoldable pub atomic_ldstub8 : ℕ → Mctrl → Cache → Option (AtomicResult × Mctrl) × Cache
atomic_ldstub8 paddr m c = atomic ram_ldstub8 paddr m c

unfoldable pub atomic_swap32 : ℕ → ℕ → Mctrl → Cache → Option (AtomicResult × Mctrl) × Cache
atomic_swap32 paddr newv m c = atomic (ram_swap32 newv) paddr m c
