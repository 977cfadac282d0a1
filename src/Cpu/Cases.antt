-- ===== src/Cpu/Cases.antt =====
-- The theorems on decoding, traps and interrupts at concrete inputs.
use sparcv8emulator.Base.{
  ◌+◌, ◌*◌, ◌-◌, ◌<◌, ◌^◌, ◌≡◌, refl, true, false, ◌&&◌, if◌then◌else◌, ltb, leb, testbit, not32,
  bit_and, arith,
}
use sparcv8emulator.Irqmp.Ops.{Irqmp, get_irq_hint, clear_irq}
use sparcv8emulator.Cpu.State.{Cpu, Decoded}
use sparcv8emulator.Cpu.Integer.{bit}
use sparcv8emulator.Cpu.Control.{invalid_window, rett}
use sparcv8emulator.Cpu.Multiply.{mul, div}
use sparcv8emulator.Cpu.Products.{word_magnitude, Multiplied, mul-product}
use sparcv8emulator.Cpu.Quotients.{dividend_magnitude, divisor_magnitude, Divided, div-quotient}
use sparcv8emulator.Cpu.Decode.{entry, format3_high, decode}
use sparcv8emulator.Cpu.Fields.{Fields, encode, Holds, decode-encode}
use sparcv8emulator.Cpu.Cycle.{
  irq_check_interval, sparc_interrupt, pil, trap_base, enter_trap, begin_cycle,
}
use sparcv8emulator.Cpu.Traps.{Entered, enter_trap-Entered}
use sparcv8emulator.Cpu.Interrupts.{
  ReturnsTo, enter_trap-rett, testbit-trap_base, IsReady, times, turns, interrupt_taken,
}

-- A processor in window 2, in supervisor mode, with traps enabled and a trap of level 8 waiting.
abbrev trapping : Cpu
trapping = record {
  pc = 0x40000000;
  npc = 0x40000004;
  psr = 0xf30000a2;
  irl = 0;
  trap_type = 0x18;
  tbr = 0x40001000;
  wim = 0x80;
  y_reg = 0;
  cpu_id = 0;
  cwp_base = 16;
  globals = λ i. 0;
  swap_reg = 0;
  locals = λ i. 0;
  outs = λ i. i + 100;
}

abbrev quiet : Cpu
quiet = record trapping { trap_type = 0 }

-- `RETT` to 0x40000004 at the end of the handler.
abbrev returning : Decoded
returning = record {
  opcode = 0;
  rd = 0;
  rs1 = 18;
  rs1_value = 0x40000004;
  imm_disp_rs2 = 0;
  ev = 0x40000004;
  op_2_3 = 0x39;
  i = true;
  pc = 0x40001184;
  npc = 0x40000000;
  psr = (enter_trap trapping).psr;
  writeback = false;
  value = 0;
  value1 = 0;
}

-- Level 8 pending for CPU 0, which has it unmasked.
abbrev asking : Irqmp
asking = record {
  ilevel = 0;
  ipend = 0x100;
  iforce = 0;
  iclear = 0;
  mpstat = 0;
  brdcst = 0;
  errstat = 0;
  ampctrl = 0;
  piforce = λ i. 0;
  pimask = λ i. 0xfffe;
  num_cpus = 1;
  num_active_cpus = 1;
  irq_hint = λ i. 8;
  cpu_ptrs = λ i. true;
  woken = λ i. false;
}

-- `ldub [%g1 - 1], %g3`.
abbrev load_byte : Fields
load_byte = record { memory = true; rd = 3; op3 = 1; rs1 = 1; immediate = true; low = 0x1fff }

word : encode load_byte ≡ 0xc6087fff
unfolding encode bit
word = refl

decode-encode_example :
    ((decode (encode load_byte) trapping returning).0 ≡ entry format3_high 1)
    × Holds load_byte trapping returning (decode (encode load_byte) trapping returning).1
decode-encode_example =
    decode-encode load_byte
      (record {
        rd_lt = omega arith;
        op3_lt = omega arith;
        rs1_lt = omega arith;
        low_lt = omega arith;
      })
      trapping returning

enter_trap-Entered_example : Entered 2 trapping (enter_trap trapping)
enter_trap-Entered_example = enter_trap-Entered 2 trapping (omega arith) refl refl (omega arith)

window_2_valid : invalid_window trapping 2 ≡ false
unfolding invalid_window testbit
window_2_valid = refl

traps_on : testbit 0xf30000a2 5 ≡ true
unfolding testbit
traps_on = refl

enter_trap-rett_example :
    ReturnsTo
      (bit_and 0x40000004 (not32 3))
      0xf30000a2
      7
      trapping
      returning
      (rett returning trapping)
enter_trap-rett_example =
    enter_trap-rett 2 7 trapping trapping returning (omega arith) (omega arith) (omega arith) refl
      traps_on (omega arith) refl refl window_2_valid

testbit-trap_base_example :
    testbit (trap_base trapping) 8
    ≡ (if leb 4 8 && ltb 8 12 then testbit 0x18 (8 - 4) else testbit 0x40001000 8)
testbit-trap_base_example = testbit-trap_base trapping 8 (omega arith)

-- An instruction that only goes on.
abbrev nop : Cpu → Cpu
nop s = record s { pc = s.npc; npc = s.npc + 4 }

nop-IsReady : (s : Cpu) → IsReady 8 asking s → IsReady 8 asking (nop s)
unfolding pil
nop-IsReady s r = record {
  asked = r.asked;
  none_held = r.none_held;
  no_trap = r.no_trap;
  enabled = r.enabled;
  unmasked = r.unmasked;
}

hint_8 : get_irq_hint 0 asking ≡ 8
unfolding get_irq_hint
hint_8 = refl

level_0 : pil quiet < 8
unfolding pil
level_0 = omega arith

quiet-IsReady : IsReady 8 asking quiet
quiet-IsReady = record {
  asked = hint_8;
  none_held = refl;
  no_trap = refl;
  enabled = traps_on;
  unmasked = level_0;
}

interrupt_taken_example :
    let t = times 3 nop quiet in
    begin_cycle (turns 3 nop (asking, (4, quiet))) ≡ (
      clear_irq 8 t.cpu_id asking,
      (irq_check_interval, enter_trap (record t { irl = 0; trap_type = 8 + sparc_interrupt })),
    )
interrupt_taken_example =
    interrupt_taken 8 3 nop asking quiet (omega arith) nop-IsReady quiet-IsReady

-- -3 times 5 by `SMULcc`.
abbrev multiplying : Decoded
multiplying = record returning { op_2_3 = 0x1b; rs1_value = 2 ^ 32 - 3; ev = 5 }

mul-product_example : Multiplied multiplying quiet (mul multiplying quiet)
mul-product_example = mul-product multiplying (omega arith) (omega arith) quiet

-- -17 divided by 5 by `SDIV`.
abbrev dividing : Decoded
dividing = record returning { op_2_3 = 0x0f; rs1_value = 2 ^ 32 - 17; ev = 5 }

abbrev negative_quiet : Cpu
negative_quiet = record quiet { y_reg = 2 ^ 32 - 1 }

in_range :
    dividend_magnitude (testbit 0x0f 0) ((2 ^ 32 - 1) * 2 ^ 32 + (2 ^ 32 - 17))
    < divisor_magnitude (testbit 0x0f 0) 5 * (if testbit 0x0f 0 then 2 ^ 31 else 2 ^ 32)
unfolding testbit dividend_magnitude divisor_magnitude word_magnitude
in_range = omega arith

div-quotient_example : Divided dividing negative_quiet (div dividing negative_quiet)
div-quotient_example =
    div-quotient dividing negative_quiet (omega arith) (omega arith) (omega arith) in_range
