-- ===== src/Cpu/Special.antt =====
-- src/sparcv8/CPU_instructions.cpp: UNIMP, SRA, RDY, WRY, TICC and FLUSH. A reason stops the run
-- loop; the debugger is left out.
use sparcv8emulator.Base.{
  ℕ, ◌+◌, ◌-◌, ◌*◌, ◌^◌, not, ◌&&◌, if◌then◌else◌, ◌==◌, Option, none, some, bit_and, bit_or,
  bit_xor, testbit, u32, ◌>>>◌,
}
use sparcv8emulator.Cpu.State.{Cpu, Decoded, nwindows, trap, next, result}
use sparcv8emulator.Cpu.Control.{test_cc}

-- `TerminateReason`, without the reasons of the debugger and of the host.
pub data TerminateReason : Type 0 where
  normal instruction unimplemented : TerminateReason

abbrev pub terminate_inst : ℕ
terminate_inst = 0

-- `UNIMP`.
unfoldable pub unimp_reason : Decoded → TerminateReason
unimp_reason d = if d.opcode == terminate_inst then normal else unimplemented

-- The ones above the sign bit that moved. A shift by 32 is undefined in C++: no result.
unfoldable pub sign_fill : ℕ → ℕ → Option ℕ
sign_fill x ev =
    let k = bit_and ev 0x1f in
    if testbit x 31 && not (ev == 0)
    then if k == 0 then none else some (u32 ((2 ^ 32 - 1) * 2 ^ (32 - k)))
    else some 0

unfoldable pub sra_result : Decoded → Cpu → Option ℕ → Option (Cpu × Decoded)
sra_result d s none = none
sra_result d s (some fill) =
    some (s, next (result (bit_or (d.rs1_value >>> bit_and d.ev 0x1f) fill) d))

unfoldable pub sra : Decoded → Cpu → Option (Cpu × Decoded)
sra d s = sra_result d s (sign_fill d.rs1_value d.ev)

-- `%asr17`: the processor's number, and what it has.
unfoldable pub asr17 : Cpu → ℕ
asr17 s =
    bit_or (bit_or (bit_or (bit_or (u32 (s.cpu_id * 2 ^ 28)) (2 ^ 26)) (3 * 2 ^ 10)) (2 ^ 8))
      (bit_and (nwindows - 1) 0x1f)

-- An instruction that may end the run.
abbrev pub Ended : Type 0
Ended = TerminateReason × (Cpu × Decoded)

unfoldable pub rdy : Decoded → Cpu → Ended
rdy d s =
    let reads = bit_and d.op_2_3 0x2f == 0x28 in
    if d.rs1 == 15 && d.rd == 0
    then (instruction, (s, next d))
    else if d.rs1 == 0 && reads
    then (instruction, (s, next (result s.y_reg d)))
    else if d.rs1 == 17 && reads
    then (instruction, (s, next (result (asr17 s) d)))
    else (unimp_reason d, (s, next d))

-- A processor that powers down sleeps here until it is woken up, and goes on with the same state.
unfoldable pub wry : Decoded → Cpu → Ended
wry d s =
    if bit_and d.rd 0x1f == 0
    then (instruction, (record s { y_reg = bit_xor d.rs1_value d.ev }, next d))
    else if d.rd == 19
    then (instruction, (s, next d))
    else (unimp_reason d, (s, next d))

unfoldable pub sign_ext7 : ℕ → ℕ
sign_ext7 n = bit_or n (if testbit n 6 then 0xffffff80 else 0)

-- The number of a software trap.
unfoldable pub trap_number : Decoded → ℕ
trap_number d =
    if d.i
    then 128 + bit_and (u32 (d.rs1_value + sign_ext7 (bit_and d.opcode 0x7f))) 0x7f
    else 128 + bit_and (u32 (d.value + d.rs1_value)) 0x7f

unfoldable pub ticc : Decoded → Cpu → Option (Cpu × Decoded)
ticc d s = if test_cc d then trap (trap_number d) d s else some (s, next d)

-- `FLUSH`: there is no instruction cache to flush.
unfoldable pub flush_instruction : Decoded → Cpu → Option (Cpu × Decoded)
flush_instruction d s = some (s, next d)
