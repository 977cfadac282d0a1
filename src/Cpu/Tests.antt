-- ===== src/Cpu/Tests.antt =====
-- Tests of the integer unit, and its theorems at concrete inputs.
use sparcv8emulator.Base.{
  ℕ, ◌+◌, ◌/◌, ◌%◌, ◌≡◌, refl, true, false, Option, none, some, testbit, arith, if◌then◌else◌, ◌==◌,
}
use sparcv8emulator.Cpu.State.{Cpu, Decoded, write_reg, read_reg, next, result}
use sparcv8emulator.Cpu.Integer.{
  bit, set_cc, get_icc, put_icc, tag_sub, y_sign, carry_in, sum, tag_overflow, add_cc, add,
}
use sparcv8emulator.Cpu.Control.{invalid_window, save, restore}
use sparcv8emulator.Cpu.Windows.{completed, read_of, InWindow, save_overlaps, restore_overlaps}
use sparcv8emulator.Cpu.Registers.{read_reg-write_reg}
use sparcv8emulator.Cpu.Arithmetic.{opcode_of, Computed, add-Computed}

-- A processor in window 2, with window 7 marked as invalid.
abbrev cpu : Cpu
cpu = record {
  pc = 0x40000000;
  npc = 0x40000004;
  psr = 0xf30000a2;
  irl = 0;
  trap_type = 0;
  tbr = 0x40000000;
  wim = 0x80;
  y_reg = 0;
  cpu_id = 0;
  cwp_base = 16;
  globals = λ i. 0;
  swap_reg = 0;
  locals = λ i. 0;
  outs = λ i. i + 100;
}

-- `op3` with the operands 3 and 5, into register 14.
abbrev with_op3 : ℕ → Decoded
with_op3 op3 = record {
  opcode = 0;
  rd = 14;
  rs1 = 1;
  rs1_value = 3;
  imm_disp_rs2 = 2;
  ev = 5;
  op_2_3 = op3;
  i = false;
  pc = 0x40000000;
  npc = 0x40000004;
  psr = 0xf30000a2;
  writeback = false;
  value = 0;
  value1 = 0;
}

abbrev codes_after : Option (Cpu × Decoded) → ℕ
codes_after none = 0
codes_after (some (s, d)) = d.psr / 0x100000 % 16

-- 3 - 5 is negative and borrows.
sub_borrows : codes_after (add (with_op3 0x14) cpu) ≡ 9
unfolding add sum y_sign tag_sub carry_in bit next result add_cc set_cc tag_overflow put_icc get_icc
    testbit
sub_borrows = refl

-- The tagged subtraction of the same operands reports no carry, but an overflow of the tags.
tagged_sub_borrows : codes_after (add (with_op3 0x21) cpu) ≡ 10
unfolding add sum y_sign tag_sub carry_in bit next result add_cc set_cc tag_overflow put_icc get_icc
    testbit
tagged_sub_borrows = refl

subcc : 0x14 ≡ opcode_of true false
unfolding opcode_of
subcc = refl

add-Computed_example : Computed true false (with_op3 0x14) cpu (add (with_op3 0x14) cpu)
add-Computed_example = add-Computed true false (with_op3 0x14) cpu subcc (omega arith) (omega arith)

cpu-InWindow : InWindow 2 cpu
cpu-InWindow = record { small = omega arith; cached = refl }

window_1_valid : invalid_window cpu ((2 + 7) % 8) ≡ false
unfolding invalid_window testbit
window_1_valid = refl

window_3_valid : invalid_window cpu ((2 + 1) % 8) ≡ false
unfolding invalid_window testbit
window_3_valid = refl

save_overlaps_example :
    read_of (24 + 6) (completed (save (with_op3 0x3c) cpu)) ≡ read_reg (8 + 6) cpu
save_overlaps_example =
    save_overlaps 2 6 (with_op3 0x3c) cpu cpu-InWindow refl window_1_valid (omega arith)
      (omega arith)

abbrev to_global : Decoded
to_global = record (with_op3 0x3d) { rd = 1 }

restore_overlaps_example :
    read_of (8 + 6) (completed (restore to_global cpu)) ≡ read_reg (24 + 6) cpu
restore_overlaps_example =
    restore_overlaps 2 6 to_global cpu cpu-InWindow refl window_3_valid (λ e. absurd (omega arith))
      (omega arith) (omega arith)

read_reg-write_reg_example :
    read_reg 24 (write_reg 7 8 cpu)
    ≡ (if 24 == 8 then some (if 8 == 0 then 0 else 7) else read_reg 24 cpu)
read_reg-write_reg_example =
    read_reg-write_reg 2 24 8 7 cpu cpu-InWindow refl (omega arith) (omega arith)
