-- ===== src/Cpu/Alternate.antt =====
-- src/sparcv8/CPU_instructions_extensions.cpp: LDA and STA, which reach the registers of the memory
-- management unit, its flush and the memory behind it. No result is an exception.
use sparcv8emulator.Base.{ℕ, ◌+◌, not, if◌then◌else◌, ◌==◌, Option, none, some, bit_and, u32, ◌>>>◌}
use sparcv8emulator.Mmu.Walk.{word_or_zero}
use sparcv8emulator.MemAccess.Core.{
  Srmmu, set_control_reg, set_ctx_tbl_ptr, set_ctx_number, clear_fault_status, flush_unit, physical,
  bypass_write,
}
use sparcv8emulator.Cpu.State.{Cpu, Decoded, next, result, supervisor}
use sparcv8emulator.Cpu.Control.{
  illegal_instruction, privileged_instruction, memory_addr_not_aligned,
}
use sparcv8emulator.Cpu.Decode.{read_into}
use sparcv8emulator.Cpu.Special.{instruction}
use sparcv8emulator.Cpu.Atomics.{Executed, traps_with}

abbrev pub asi_m_mxcc : ℕ
asi_m_mxcc = 0x02

abbrev pub asi_leon_dflush : ℕ
asi_leon_dflush = 0x11

abbrev pub asi_leon_mmuflush : ℕ
asi_leon_mmuflush = 0x18

-- With `CONFIG_SPARC_LEON`.
abbrev pub asi_m_mmuregs : ℕ
asi_m_mmuregs = 0x19

abbrev pub asi_leon_bypass : ℕ
asi_leon_bypass = 0x1c

unfoldable pub asi_of : Decoded → ℕ
asi_of d = bit_and (d.imm_disp_rs2 >>> 5) 0xff

unfoldable pub alternate_address : Decoded → Cpu → ℕ
alternate_address d s = u32 (read_into d.rs1 s 0 + read_into (bit_and d.imm_disp_rs2 0x1f) s 0)

-- The registers of the unit; reading the fault status clears it.
unfoldable pub read_mmureg : ℕ → Srmmu → Option (ℕ × Srmmu)
read_mmureg address u =
    if address == 0x0
    then some (u.control_reg, u)
    else if address == 0x100
    then some (u.core.ctx_tbl_ptr, u)
    else if address == 0x200
    then some (u.core.ctx_n, u)
    else if address == 0x300
    then some (u.core.faults.fault_status_reg, clear_fault_status u)
    else if address == 0x400
    then some (u.core.faults.fault_address_reg, u)
    else none

unfoldable pub read_cache_reg : ℕ → Srmmu → Option (ℕ × Srmmu)
read_cache_reg offset u =
    if offset == 0x0
    then some (u.ccr, u)
    else if offset == 0x8
    then some (u.iccr, u)
    else if offset == 0xc
    then some (u.dccr, u)
    else none

unfoldable pub read_alternate : ℕ → ℕ → Srmmu → Option (ℕ × Srmmu)
read_alternate asi address u =
    if asi == asi_m_mmuregs
    then read_mmureg address u
    else if asi == asi_m_mxcc
    then read_cache_reg (bit_and address 0xf) u
    else if asi == asi_leon_bypass
    then some (word_or_zero (physical u.mctrl address), u)
    else none

unfoldable pub write_mmureg : ℕ → ℕ → Srmmu → Option Srmmu
write_mmureg address value u =
    if address == 0x0
    then some (set_control_reg value u)
    else if address == 0x100
    then some (set_ctx_tbl_ptr value u)
    else if address == 0x200
    then some (set_ctx_number value u)
    else none

unfoldable pub write_cache_reg : ℕ → ℕ → Srmmu → Option Srmmu
write_cache_reg offset value u =
    if offset == 0x0
    then some (record u { ccr = value })
    else if offset == 0x8
    then some (record u { iccr = value })
    else if offset == 0xc
    then some (record u { dccr = value })
    else none

unfoldable pub write_alternate : ℕ → ℕ → ℕ → Srmmu → Option Srmmu
write_alternate asi address value u =
    if asi == asi_m_mmuregs
    then write_mmureg address value u
    else if asi == asi_m_mxcc
    then write_cache_reg (bit_and address 0xf) value u
    else if asi == asi_leon_dflush
    then some u
    else if asi == asi_leon_mmuflush
    then some (flush_unit u)
    else if asi == asi_leon_bypass
    then bypass_write address value u
    else none

unfoldable pub lda_done : Decoded → Cpu → Option (ℕ × Srmmu) → Option Executed
lda_done d s none = none
lda_done d s (some (value, u)) = some (instruction, (u, (s, next (result value d))))

unfoldable pub sta_done : Decoded → Cpu → Option Srmmu → Option Executed
sta_done d s none = none
sta_done d s (some u) = some (instruction, (u, (s, next d)))

-- The supervisor alone, and without an immediate.
unfoldable pub alternate : Decoded → Srmmu → Cpu → Option Executed → Option Executed
alternate d u s rest =
    if not (supervisor d)
    then traps_with privileged_instruction d u s
    else if d.i
    then traps_with illegal_instruction d u s
    else rest

unfoldable pub lda : Decoded → Srmmu → Cpu → Option Executed
lda d u s = alternate d u s (
    if bit_and d.op_2_3 0xf == 0
    then lda_done d s (read_alternate (asi_of d) (alternate_address d s) u)
    else none)

unfoldable pub sta : Decoded → Srmmu → Cpu → Option Executed
sta d u s =
    let address = alternate_address d s in
    alternate d u s (
      if bit_and address 3 == 0
      then sta_done d s (write_alternate (asi_of d) address (read_into d.rd s 0) u)
      else traps_with memory_addr_not_aligned d u s)
