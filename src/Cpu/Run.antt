-- ===== src/Cpu/Run.antt =====
-- src/sparcv8/CPU.h and CPU.cpp: the fetch and the loop `run`. The debugger's stops and the signals
-- of the host are left out.
use sparcv8emulator.Base.{
  ℕ, zero, suc, Bool, true, false, ◌||◌, if◌then◌else◌, ltb, ◌==◌, Option, none, some, bit_and,
  ◌>>>◌,
}
use sparcv8emulator.Irqmp.Ops.{Irqmp}
use sparcv8emulator.Mmu.Perms.{execute}
use sparcv8emulator.MemAccess.Core.{Srmmu, get_no_fault}
use sparcv8emulator.MemAccess.Access.{Accessed, mem_access}
use sparcv8emulator.Cpu.State.{Cpu, Decoded, write_back, trap}
use sparcv8emulator.Cpu.Loads.{super}
use sparcv8emulator.Cpu.Special.{TerminateReason, normal, instruction, unimplemented}
use sparcv8emulator.Cpu.Atomics.{Executed}
use sparcv8emulator.Cpu.Cycle.{irq_check_interval, begin_cycle}
use sparcv8emulator.Cpu.Decode.{decode}
use sparcv8emulator.Cpu.Dispatch.{Floating, execute_function}

-- The state of `run`: the variables `rs.reason`, `irq_check_countdown` and `Dec` with the objects.
pub record Machine : Type 0 where
  pub intc : Irqmp
  pub unit : Srmmu
  pub cpu : Cpu
  pub reason : TerminateReason
  pub countdown : ℕ
  pub decoded : Decoded

-- A function that does not end the run leaves its reason.
unfoldable pub ended_by : TerminateReason → TerminateReason → TerminateReason
ended_by before instruction = before
ended_by before normal = normal
ended_by before unimplemented = unimplemented

unfoldable pub finished : Machine → Option Executed → Option Machine
finished m none = none
finished m (some (r, (u, (s, d)))) =
    some (record m { unit = u; cpu = write_back d s; reason = ended_by m.reason r; decoded = d })

-- `excute_one` on the fetched word.
unfoldable pub execute_one : Floating → Bool → ℕ → Machine → Option Machine
execute_one floating fpu opcode m =
    let (function, d) = decode opcode m.cpu m.decoded in
    finished m (execute_function floating fpu function d m.unit m.cpu)

unfoldable pub trapped_fetch : Machine → Option (Cpu × Decoded) → Option Machine
trapped_fetch m none = none
trapped_fetch m (some (s, d)) =
    if s.trap_type == 0 then none else some (record m { cpu = s; decoded = d })

-- A fetch that fails: the fault's access type must be an instruction's, and a unit that does not
-- report faults throws.
unfoldable pub fetch_fault : Machine → Option Machine
fetch_fault m =
    let at = bit_and (m.unit.core.faults.fault_status_reg >>> 5) 7 in
    if ltb at 2 || ltb 3 at || get_no_fault m.unit
    then none
    else trapped_fetch m (trap 0x01 m.decoded m.cpu)

unfoldable pub fetched : Floating → Bool → Machine → Option (Accessed × Srmmu) → Option Machine
fetched floating fpu m none = none
fetched floating fpu m (some (r, u)) =
    let m' = record m { unit = u } in
    let done = execute_one floating fpu r.value m' in if r.fault == 0 then done else fetch_fault m'

-- One turn of the loop, up to the tests that end it.
unfoldable pub turn : Floating → Bool → Machine → Option Machine
turn floating fpu m =
    let (intc, (countdown, s)) = begin_cycle (m.intc, (m.countdown, m.cpu)) in
    fetched floating fpu (record m { intc = intc; cpu = s; countdown = countdown })
      (mem_access execute 4 s.pc m.decoded.opcode (super s) true m.unit)

unfoldable pub ends : TerminateReason → Bool
ends normal = true
ends unimplemented = true
ends instruction = false

unfoldable pub counted : Option (ℕ × Machine) → Option (ℕ × Machine)
counted none = none
counted (some (n, m)) = some (suc n, m)

unfoldable pub after_turn : (Machine → Option (ℕ × Machine)) → Option Machine → Option (ℕ × Machine)
after_turn continue none = none
after_turn continue (some m) =
    let rest = counted (continue m) in if ends m.reason then some (1, m) else rest

-- The count of instructions and the machine after at most `n` turns.
unfoldable pub run_loop : Floating → Bool → ℕ → Machine → Option (ℕ × Machine)
run_loop floating fpu zero m = some (0, m)
run_loop floating fpu (suc n) m = after_turn (run_loop floating fpu n) (turn floating fpu m)

-- `DecodeStruct Dec{}`.
abbrev pub no_instruction : Decoded
no_instruction = record {
  opcode = 0;
  rd = 0;
  rs1 = 0;
  rs1_value = 0;
  imm_disp_rs2 = 0;
  ev = 0;
  op_2_3 = 0;
  i = false;
  pc = 0;
  npc = 0;
  psr = 0;
  writeback = false;
  value = 0;
  value1 = 0;
}

-- `run(n)` for a positive `n`; 0 runs for any number of turns.
unfoldable pub run : Floating → Bool → ℕ → Machine → Option (ℕ × Machine)
run floating fpu n m =
    run_loop floating fpu n
      (record m { reason = instruction; countdown = irq_check_interval; decoded = no_instruction })
