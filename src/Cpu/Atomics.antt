-- ===== src/Cpu/Atomics.antt =====
-- src/sparcv8/CPU_instructions.cpp and CPU_instructions_Leon3_extensions.cpp: SWAP, SWAPA, LDSTUB
-- and CASA over the memory management unit. No result is an exception or the end of the program.
use sparcv8emulator.Base.{
  ℕ, true, not, ◌&&◌, ◌||◌, if◌then◌else◌, ◌==◌, Option, none, some, bit_and, ◌>>>◌,
}
use sparcv8emulator.Mctrl.Bytes.{◌>>=◌}
use sparcv8emulator.Mctrl.Control.{Attached, put_place}
use sparcv8emulator.Mctrl.Atomic.{AtomicResult, ram_ldstub8, on_bank}
use sparcv8emulator.MemAccess.Core.{Srmmu, get_no_fault, get_bank}
use sparcv8emulator.MemAccess.Atomics.{
  failed, first_translation, unit_swap32, Compared, atomic_casa32,
}
use sparcv8emulator.Mmu.Translate.{Translation}
use sparcv8emulator.Cpu.State.{Cpu, Decoded, write_reg, trap, next, supervisor}
use sparcv8emulator.Cpu.Control.{privileged_instruction, memory_addr_not_aligned}
use sparcv8emulator.Cpu.Decode.{read_into}
use sparcv8emulator.Cpu.Loads.{data_access_exception}
use sparcv8emulator.Cpu.Special.{TerminateReason, instruction, unimp_reason}

-- Why the run ends, the unit, the processor and the instruction after its execution.
abbrev pub Executed : Type 0
Executed = TerminateReason × (Srmmu × (Cpu × Decoded))

abbrev pub going_on : Srmmu → Option (Cpu × Decoded) → Option Executed
going_on u none = none
going_on u (some x) = some (instruction, (u, x))

unfoldable pub traps_with : ℕ → Decoded → Srmmu → Cpu → Option Executed
traps_with trap_no d u s = going_on u (trap trap_no d s)

-- A result goes to the register `rd`; a failure traps unless the unit is told not to report it.
unfoldable pub old_to_rd : ℕ → Decoded → Cpu → AtomicResult × Srmmu → Option Executed
old_to_rd rd d s (r, u) =
    if not r.success && not (get_no_fault u)
    then traps_with data_access_exception d u s
    else some (instruction, (u, (write_reg r.old rd s, next d)))

abbrev to_swap_reg : ℕ → Cpu → Cpu
to_swap_reg value s = record s { swap_reg = value }

unfoldable pub swap_word : Decoded → Srmmu → Cpu → Option Executed
swap_word d u s =
    if not (bit_and d.ev 3 == 0) then traps_with memory_addr_not_aligned d u s else (do
      x ← unit_swap32 d.ev (supervisor d) d.value u
      old_to_rd d.rd d (to_swap_reg d.value s) x)

-- `SWAPA`, for the address space 1 alone.
unfoldable pub swapa : Decoded → Srmmu → Cpu → Option Executed
swapa d u s =
    if not (bit_and (d.opcode >>> 5) 0xff == 1)
    then some (unimp_reason d, (u, (s, d)))
    else if not (supervisor d)
    then traps_with privileged_instruction d u s
    else swap_word d u s

-- `MCtrl::atomic_ldstub8` at the bank of an address.
unfoldable pub ldstub_at : ℕ → Option (ℕ × Attached) → Srmmu → Option (AtomicResult × Srmmu)
ldstub_at pa none u = some (failed, u)
ldstub_at pa (some (i, a)) u = do
  (old, a') ← on_bank (ram_ldstub8 pa) a
  let m = u.mctrl
  some (
    record { success = true; old = old },
    record u { mctrl = record m { banks = put_place i a' m.banks } },
  )

unfoldable pub ldstub_translated : Decoded → Cpu → Srmmu × Translation → Option Executed
ldstub_translated d s (u, r) =
    if r.ok
    then (do
      (a, u') ← ldstub_at r.pa (get_bank r.pa u.mctrl) u
      (if a.success
          then some (
            instruction,
            (u', (to_swap_reg 0xff (write_reg (bit_and a.old 0xff) d.rd s), next d)),
          )
          else traps_with data_access_exception d u' s))
    else traps_with data_access_exception d u s

-- The address is translated for a load.
unfoldable pub ldstub : Decoded → Srmmu → Cpu → Option Executed
ldstub d u s = do x ← first_translation d.ev (supervisor d) u; ldstub_translated d s x

unfoldable pub casa_asi : Decoded → ℕ
casa_asi d = bit_and (d.imm_disp_rs2 >>> 5) 0xff

unfoldable pub casa_result : Decoded → Cpu → Compared → Option Executed
casa_result d s (r, (swapped, u)) = old_to_rd (bit_and d.rd 0x1f) d s (r, u)

-- `CASA`: the address space 0xA is the user's data, 0xB the supervisor's, and another one throws.
unfoldable pub casa : Decoded → Srmmu → Cpu → Option Executed
casa d u s =
    let addr = read_into (bit_and d.rs1 0x1f) s 0 in
    if not (supervisor d) && not (casa_asi d == 0xa)
    then traps_with privileged_instruction d u s
    else if not (bit_and addr 3 == 0)
    then traps_with memory_addr_not_aligned d u s
    else if casa_asi d == 0xa || casa_asi d == 0xb
    then (do
      x ←
          atomic_casa32 addr (casa_asi d == 0xb) (read_into (bit_and d.imm_disp_rs2 0x1f) s 0)
            (read_into (bit_and d.rd 0x1f) s 0) u
      casa_result d s x)
    else none
