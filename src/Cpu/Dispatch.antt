-- ===== src/Cpu/Dispatch.antt =====
-- src/sparcv8/CPU.h and CPU_instr_map.h: the function that each entry of the instruction tables
-- names. The functions of FPU_instructions.cpp are a parameter.
use sparcv8emulator.Base.{Bool, Option, none, some}
use sparcv8emulator.MemAccess.Core.{Srmmu}
use sparcv8emulator.MemAccess.Access.{unit_port}
use sparcv8emulator.Cpu.State.{Cpu, Decoded}
use sparcv8emulator.Cpu.Integer
use sparcv8emulator.Cpu.Control
use sparcv8emulator.Cpu.Multiply
use sparcv8emulator.Cpu.Loads
use sparcv8emulator.Cpu.Loads.{MemoryFunction, super, memory_access}
use sparcv8emulator.Cpu.Special
use sparcv8emulator.Cpu.Special.{
  TerminateReason, normal, instruction, unimplemented, unimp_reason, Ended,
}
use sparcv8emulator.Cpu.Atomics
use sparcv8emulator.Cpu.Atomics.{Executed, going_on}
use sparcv8emulator.Cpu.Alternate
use sparcv8emulator.Cpu.Decode.{
  Operation, unimp, call, bicc, sethi, fbfcc, add, logic, mul, div, mulscc, sll, srl, sra, rdy,
  rdpsr, rdwim, rdtbr, wry, wrpsr, wrwim, wrtbr, fop1, fop2, jmpl, rett, ticc, flush, save, restore,
  ld, ldub, lduh, ldd, st, stb, sth, std, ldsb, ldsh, ldstub, swap, lda, sta, swapa, casa, ldf,
  ldfsr, lddf, stf, stfsr, stdfq, stdf,
}

unfoldable pub may_end : Srmmu → Ended → Option Executed
may_end u (r, x) = some (r, (u, x))

unfoldable pub over_port : Option ((Option Srmmu × Cpu) × Decoded) → Option Executed
over_port none = none
over_port (some ((none, s), d)) = none
over_port (some ((some u, s), d)) = some (instruction, (u, (s, d)))

unfoldable pub through_port : MemoryFunction → Decoded → Srmmu → Cpu → Option Executed
through_port f d u s = over_port (memory_access unit_port f d (some u, s))

abbrev pub Floating : Type 0
Floating = Operation → Decoded → Srmmu → Cpu → Option Executed

-- The table of a build without floating point names `UNIMP` for these functions.
unfoldable pub no_floating : Floating
no_floating function d u s = some (unimp_reason d, (u, (s, d)))

-- `(this->*d->function)(d)`. `fpu` says that the build has a floating-point unit.
unfoldable pub execute_function :
    Floating → Bool → Operation → Decoded → Srmmu → Cpu → Option Executed
execute_function floating fpu unimp d u s = some (unimp_reason d, (u, (s, d)))
execute_function floating fpu call d u s = going_on u (Control.call d s)
execute_function floating fpu bicc d u s = going_on u (Control.bicc d s)
execute_function floating fpu sethi d u s = going_on u (Integer.sethi d s)
execute_function floating fpu fbfcc d u s = floating fbfcc d u s
execute_function floating fpu add d u s = going_on u (Integer.add d s)
execute_function floating fpu logic d u s = going_on u (Integer.logical d s)
execute_function floating fpu mul d u s = going_on u (Multiply.mul d s)
execute_function floating fpu div d u s = going_on u (Multiply.div d s)
execute_function floating fpu mulscc d u s = going_on u (Integer.mulscc d s)
execute_function floating fpu sll d u s = going_on u (Integer.sll d s)
execute_function floating fpu srl d u s = going_on u (Integer.srl d s)
execute_function floating fpu sra d u s = going_on u (Special.sra d s)
execute_function floating fpu rdy d u s = may_end u (Special.rdy d s)
execute_function floating fpu rdpsr d u s = going_on u (Control.rdpsr d s)
execute_function floating fpu rdwim d u s = going_on u (Control.rdwim d s)
execute_function floating fpu rdtbr d u s = going_on u (Control.rdtbr d s)
execute_function floating fpu wry d u s = may_end u (Special.wry d s)
execute_function floating fpu wrpsr d u s = going_on u (Control.wrpsr fpu d s)
execute_function floating fpu wrwim d u s = going_on u (Control.wrwim d s)
execute_function floating fpu wrtbr d u s = going_on u (Control.wrtbr d s)
execute_function floating fpu fop1 d u s = floating fop1 d u s
execute_function floating fpu fop2 d u s = floating fop2 d u s
execute_function floating fpu jmpl d u s = going_on u (Control.jmpl d s)
execute_function floating fpu rett d u s = going_on u (Control.rett d s)
execute_function floating fpu ticc d u s = going_on u (Special.ticc d s)
execute_function floating fpu flush d u s = going_on u (Special.flush_instruction d s)
execute_function floating fpu save d u s = going_on u (Control.save d s)
execute_function floating fpu restore d u s = going_on u (Control.restore d s)
execute_function floating fpu ld d u s = through_port Loads.ld d u s
execute_function floating fpu ldub d u s = through_port Loads.ldub d u s
execute_function floating fpu lduh d u s = through_port Loads.lduh d u s
execute_function floating fpu ldd d u s = through_port Loads.ldd d u s
execute_function floating fpu st d u s = through_port Loads.st d u s
execute_function floating fpu stb d u s = through_port Loads.stb d u s
execute_function floating fpu sth d u s = through_port Loads.sth d u s
execute_function floating fpu std d u s = through_port Loads.std d u s
execute_function floating fpu ldsb d u s = through_port Loads.ldsb d u s
execute_function floating fpu ldsh d u s = through_port Loads.ldsh d u s
execute_function floating fpu ldstub d u s = Atomics.ldstub d u s
execute_function floating fpu swap d u s = Atomics.swap_word d u s
execute_function floating fpu lda d u s = Alternate.lda d u s
execute_function floating fpu sta d u s = Alternate.sta d u s
execute_function floating fpu swapa d u s = Atomics.swapa d u s
execute_function floating fpu casa d u s = Atomics.casa d u s
execute_function floating fpu ldf d u s = floating ldf d u s
execute_function floating fpu ldfsr d u s = floating ldfsr d u s
execute_function floating fpu lddf d u s = floating lddf d u s
execute_function floating fpu stf d u s = floating stf d u s
execute_function floating fpu stfsr d u s = floating stfsr d u s
execute_function floating fpu stdfq d u s = floating stdfq d u s
execute_function floating fpu stdf d u s = floating stdf d u s
