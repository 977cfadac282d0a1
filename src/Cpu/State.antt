-- ===== src/Cpu/State.antt =====
-- src/sparcv8/CPU.h and CPU.cpp: the processor's registers, a decoded instruction, write-back and
-- the recording of traps. Floating point, the debugger and the run summary are left out.
use sparcv8emulator.Base.{
  ℕ, ◌+◌, ◌-◌, ◌*◌, ◌^◌, Bool, true, if◌then◌else◌, ◌==◌, Option, none, some, bit_and, bit_or,
  testbit, update, u32, not32, ◌>>>◌,
}

-- `class CPU`; `swap_reg` is `globals[8]`.
pub record Cpu : Type 0 where
  pub pc : ℕ
  pub npc : ℕ
  pub psr : ℕ
  pub irl : ℕ
  pub trap_type : ℕ
  pub tbr : ℕ
  pub wim : ℕ
  pub y_reg : ℕ
  pub cpu_id : ℕ
  pub cwp_base : ℕ
  pub globals : ℕ → ℕ
  pub swap_reg : ℕ
  pub locals : ℕ → ℕ
  pub outs : ℕ → ℕ

-- `DecodeStruct`. `p` is a view of `psr`.
pub record Decoded : Type 0 where
  pub opcode : ℕ
  pub rd : ℕ
  pub rs1 : ℕ
  pub rs1_value : ℕ
  pub imm_disp_rs2 : ℕ
  pub ev : ℕ
  pub op_2_3 : ℕ
  pub i : Bool
  pub pc : ℕ
  pub npc : ℕ
  pub psr : ℕ
  pub writeback : Bool
  pub value : ℕ
  pub value1 : ℕ

abbrev pub nwindows : ℕ
nwindows = 8

abbrev pub globalreg8 : ℕ
globalreg8 = 0x108

unfoldable pub update_cwp_bases : Cpu → Cpu
update_cwp_bases s = record s { cwp_base = bit_and s.psr 0x1f * 2 ^ 3 }

-- The index of the `in` registers, which are the `out` registers of the next window.
unfoldable pub next_base : ℕ → ℕ
next_base base = bit_and (base + 8) (nwindows * 8 - 1)

-- `none` leaves the caller's variable as it was: no case of the switch applies.
unfoldable pub read_reg : ℕ → Cpu → Option ℕ
read_reg reg_no s =
    if reg_no == globalreg8
    then some s.swap_reg
    else if reg_no >>> 3 == 0
    then some (s.globals (bit_and reg_no 7))
    else if reg_no >>> 3 == 1
    then some (s.outs (bit_or s.cwp_base (bit_and reg_no 7)))
    else if reg_no >>> 3 == 2
    then some (s.locals (bit_or s.cwp_base (bit_and reg_no 7)))
    else if reg_no >>> 3 == 3
    then some (s.outs (bit_or (next_base s.cwp_base) (bit_and reg_no 7)))
    else none

unfoldable pub write_reg : ℕ → ℕ → Cpu → Cpu
write_reg value reg_no s =
    if reg_no == globalreg8
    then record s { swap_reg = value }
    else if bit_and (reg_no >>> 3) 3 == 0
    then record s { globals = update (update s.globals (bit_and reg_no 7) value) 0 0 }
    else if bit_and (reg_no >>> 3) 3 == 1
    then record s { outs = update s.outs (bit_or s.cwp_base (bit_and reg_no 7)) value }
    else if bit_and (reg_no >>> 3) 3 == 2
    then record s { locals = update s.locals (bit_or s.cwp_base (bit_and reg_no 7)) value }
    else record s { outs = update s.outs (bit_or (next_base s.cwp_base) (bit_and reg_no 7)) value }

unfoldable pub write_back : Decoded → Cpu → Cpu
write_back d s =
    let s' = update_cwp_bases (record s { pc = d.pc; npc = d.npc; psr = d.psr }) in
    if d.writeback then write_reg d.value d.rd s' else s'

-- `trap`; `none` is the exception on a trap while traps are disabled.
unfoldable pub trap : ℕ → Decoded → Cpu → Option (Cpu × Decoded)
trap trap_no d s =
    if testbit s.psr 5
    then some (
      record s { trap_type = bit_or (bit_and s.trap_type (not32 0xff)) (bit_and trap_no 0xff) },
      d,
    )
    else none

-- `d->pc = d->npc; d->npc += 4;`
unfoldable pub next : Decoded → Decoded
next d = record d { pc = d.npc; npc = u32 (d.npc + 4) }

-- `d->wb_type = WRITEBACKREG; d->value = value;`
unfoldable pub result : ℕ → Decoded → Decoded
result value d = record d { writeback = true; value = value }

-- The bits of the processor status register that `d->p` names.
unfoldable pub supervisor : Decoded → Bool
supervisor d = testbit d.psr 7

unfoldable pub traps_enabled : Decoded → Bool
traps_enabled d = testbit d.psr 5
