-- ===== src/Cpu/RunCases.antt =====
-- A run of a small program, and the theorem on runs at it.
use sparcv8emulator.Base.{ℕ, true, if◌then◌else◌, ◌==◌, [], ◌∷◌}
use sparcv8emulator.Irqmp.Ops.{cold}
use sparcv8emulator.Mctrl.Bytes.{big}
use sparcv8emulator.Mctrl.Control.{ram_bank, Mctrl}
use sparcv8emulator.MemAccess.Core.{new_unit}
use sparcv8emulator.Cpu.State.{Cpu}
use sparcv8emulator.Cpu.Special.{instruction}
use sparcv8emulator.Cpu.Run.{Machine, no_instruction}

-- `or %g0, 42, %o0` and `unimp 0`.
abbrev program : ℕ → ℕ
program i =
    if i == 0
    then 0x90
    else if i == 1
    then 0x10
    else if i == 2
    then 0x20
    else if i == 3
    then 0x2A
    else 0

abbrev controller : Mctrl
controller = record {
  banks =
      record {
        bank_type = ram_bank;
        bank = record {
          base = 0x40000000;
          size = 0x1000;
          endian = big;
          writeable = true;
          bytes = program;
        };
      }
      ∷ [];
  generation = 2;
  instance_id = 1;
}

abbrev reset_cpu : Cpu
reset_cpu = record {
  pc = 0x40000000;
  npc = 0x40000004;
  psr = 0xf30000a0;
  irl = 0;
  trap_type = 0;
  tbr = 0x40000000;
  wim = 0;
  y_reg = 0;
  cpu_id = 0;
  cwp_base = 0;
  globals = λ i. 0;
  swap_reg = 0;
  locals = λ i. 0;
  outs = λ i. 0;
}

abbrev machine : Machine
machine = record {
  intc = cold 1;
  unit = new_unit controller;
  cpu = reset_cpu;
  reason = instruction;
  countdown = 64;
  decoded = no_instruction;
}
