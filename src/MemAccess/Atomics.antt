-- ===== src/MemAccess/Atomics.antt =====
-- src/sparcv8/MMU.cpp: `atomic_swap32` and `atomic_casa32`. The host locks the page, so each is one
-- step; no result is an exception or the end of the program.
use sparcv8emulator.Base.{ℕ, Bool, true, false, not, if◌then◌else◌, ◌==◌, Option, none, some}
use sparcv8emulator.Mctrl.Bytes.{◌>>=◌}
use sparcv8emulator.Mctrl.Control.{Attached}
use sparcv8emulator.Mctrl.Access.{bank_read32, bank_write32, store_back}
use sparcv8emulator.Mctrl.Atomic.{AtomicResult}
use sparcv8emulator.Mmu.Perms.{load, store, check_perms}
use sparcv8emulator.Mmu.Translate.{Translation, translate_va}
use sparcv8emulator.MemAccess.Core.{Srmmu, get_enabled, get_no_fault, get_bank, physical}

abbrev pub failed : AtomicResult
failed = record { success = false; old = 0 }

-- The translation for a load that starts an atomic access; without the unit, the address is the
-- physical one.
unfoldable pub first_translation : ℕ → Bool → Srmmu → Option (Srmmu × Translation)
first_translation vaddr supervisor u =
    if get_enabled u
    then (do
      (core, r) ←
          translate_va (physical u.mctrl) vaddr supervisor load (not (get_no_fault u)) u.core
      some (record u { core = core }, r))
    else some (u, record { ok = true; pa = vaddr; level = 0; pte = 0 })

-- `check_perms` for a store to the translated page: the unit, and whether it finds no fault.
unfoldable pub store_allowed : ℕ → Bool → Translation → Srmmu → Srmmu × Bool
store_allowed vaddr supervisor r u =
    if get_enabled u
    then (let core = u.core in
        let (f, ft) =
          check_perms vaddr r.pte store supervisor r.level (not (get_no_fault u)) core.faults in
        (record u { core = record core { faults = f } }, ft == 0))
    else (u, true)

-- The word at `pa` replaced by `value`.
unfoldable pub swap_at : ℕ → ℕ → Option (ℕ × Attached) → Srmmu → Option (AtomicResult × Srmmu)
swap_at pa value none u = some (failed, u)
swap_at pa value (some (i, a)) u = do
  old ← bank_read32 pa a
  m ← store_back (some i) u.mctrl (bank_write32 pa value a)
  some (record { success = true; old = old }, record u { mctrl = m })

unfoldable pub swap_translated : ℕ → Bool → ℕ → Srmmu × Translation → Option (AtomicResult × Srmmu)
swap_translated vaddr supervisor value (u, r) =
    let (u', allowed) = store_allowed vaddr supervisor r u in
    if r.ok
    then if allowed then swap_at r.pa value (get_bank r.pa u.mctrl) u' else some (failed, u')
    else some (failed, u)

unfoldable pub unit_swap32 : ℕ → Bool → ℕ → Srmmu → Option (AtomicResult × Srmmu)
unit_swap32 vaddr supervisor value u = do
  x ← first_translation vaddr supervisor u
  swap_translated vaddr supervisor value x

-- The result, `swapped` and the unit.
abbrev pub Compared : Type 0
Compared = AtomicResult × (Bool × Srmmu)

-- The store of a comparison that found the expected word.
unfoldable pub exchange : ℕ → Bool → ℕ → ℕ → Translation → ℕ → Attached → Srmmu → Option Compared
exchange vaddr supervisor desired old r i a u =
    let (u', allowed) = store_allowed vaddr supervisor r u in
    if allowed
    then (do
      m ← store_back (some i) u'.mctrl (bank_write32 r.pa desired a)
      some (record { success = true; old = old }, (true, record u' { mctrl = m })))
    else some (record { success = false; old = old }, (false, u'))

unfoldable pub compare_at :
    ℕ → Bool → ℕ → ℕ → Translation → Option (ℕ × Attached) → Srmmu → Option Compared
compare_at vaddr supervisor expected desired r none u = some (failed, (false, u))
compare_at vaddr supervisor expected desired r (some (i, a)) u = do
  old ← bank_read32 r.pa a
  (if old == expected
      then exchange vaddr supervisor desired old r i a u
      else some (record { success = true; old = old }, (false, u)))

unfoldable pub casa_translated : ℕ → Bool → ℕ → ℕ → Srmmu × Translation → Option Compared
casa_translated vaddr supervisor expected desired (u, r) =
    if r.ok
    then compare_at vaddr supervisor expected desired r (get_bank r.pa u.mctrl) u
    else some (failed, (false, u))

-- `atomic_casa32`, with `swapped` false before the call.
unfoldable pub atomic_casa32 : ℕ → Bool → ℕ → ℕ → Srmmu → Option Compared
atomic_casa32 vaddr supervisor expected desired u = do
  x ← first_translation vaddr supervisor u
  casa_translated vaddr supervisor expected desired x
