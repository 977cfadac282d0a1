-- ===== src/Cpu/MemoryCases.antt =====
-- The theorems on loads and stores at concrete inputs, with a memory that is read alone.
use sparcv8emulator.Base.{ℕ, ◌+◌, ◌-◌, ◌*◌, ◌^◌, ◌≡◌, refl, true, false, some, arith}
use sparcv8emulator.Cpu.State.{Cpu, Decoded, write_reg, next}
use sparcv8emulator.Cpu.Loads.{Port, ldd, ldsh, memory_access}
use sparcv8emulator.Cpu.Precise.{cause, Precise, memory_access-Precise}
use sparcv8emulator.Cpu.Signed.{signed_value, signed_load_lem}

-- Loads give -2 in their size, and stores fault.
abbrev lone : Port ℕ
lone = record {
  load = λ size va super m. (some (2 ^ (8 * size) - 2), m);
  store = λ size va value super m. (false, m);
  no_fault = λ m. false;
}

abbrev cpu : Cpu
cpu = record {
  pc = 0x40000000;
  npc = 0x40000004;
  psr = 0xf30000a2;
  irl = 0;
  trap_type = 0;
  tbr = 0x40001000;
  wim = 0x80;
  y_reg = 0;
  cpu_id = 0;
  cwp_base = 16;
  globals = λ i. 0;
  swap_reg = 0;
  locals = λ i. 0;
  outs = λ i. i + 100;
}

abbrev accessing : Decoded
accessing = record {
  opcode = 0;
  rd = 10;
  rs1 = 1;
  rs1_value = 0x50000000;
  imm_disp_rs2 = 0;
  ev = 0x50000000;
  op_2_3 = 9;
  i = true;
  pc = 0x40000000;
  npc = 0x40000004;
  psr = 0xf30000a2;
  writeback = false;
  value = 0;
  value1 = 0;
}

memory_access-Precise_example :
    Precise lone (cause ldd accessing) accessing 7 cpu (memory_access lone ldd accessing (7, cpu))
memory_access-Precise_example = memory_access-Precise lone ldd accessing 7 cpu

signed_load_lem_example :
    memory_access lone ldsh accessing (7, cpu)
    ≡ some ((7, write_reg (signed_value (2 ^ 15) 0xfffe) 10 cpu), next accessing)
signed_load_lem_example =
    signed_load_lem lone true accessing 7 7 cpu 0xfffe (omega arith) (λ e. refl) refl
