-- ===== src/Cpu/Decode.antt =====
-- src/sparcv8/CPU.h and CPU_instr_map.h, `decode`: the fields of an instruction, its operands, and
-- the function that executes it.
use sparcv8emulator.Base.{
  ℕ, zero, suc, ◌+◌, false, not, ◌&&◌, if◌then◌else◌, ltb, ◌==◌, Option, none, some, List, [], ◌∷◌,
  bit_and, bit_or, testbit, u32, not32, ◌>>>◌,
}
use sparcv8emulator.Cpu.State.{Cpu, Decoded, read_reg}

-- The functions that the instruction tables name.
pub data Operation : Type 0 where
  unimp : Operation
  call bicc sethi fbfcc : Operation
  add logic mul div mulscc sll srl sra : Operation
  rdy rdpsr rdwim rdtbr wry wrpsr wrwim wrtbr : Operation
  fop1 fop2 : Operation
  jmpl rett ticc flush save restore : Operation
  ld ldub lduh ldd st stb sth std ldsb ldsh ldstub swap : Operation
  lda sta swapa casa : Operation
  ldf ldfsr lddf stf stfsr stdfq stdf : Operation

unfoldable pub format2 : List Operation
format2 = unimp ∷ unimp ∷ bicc ∷ unimp ∷ sethi ∷ unimp ∷ fbfcc ∷ unimp ∷ []

-- The first half of the table, for the format bits 2.
unfoldable pub format3_low : List Operation
format3_low =
    add ∷ logic ∷ logic ∷ logic ∷ add ∷ logic ∷ logic ∷ logic ∷ add ∷ unimp ∷ mul ∷ mul ∷ add
    ∷ unimp ∷ div ∷ div ∷ add ∷ logic ∷ logic ∷ logic ∷ add ∷ logic ∷ logic ∷ logic ∷ add ∷ unimp
    ∷ mul ∷ mul ∷ add ∷ unimp ∷ div ∷ div ∷ add ∷ add ∷ add ∷ add ∷ mulscc ∷ sll ∷ srl ∷ sra ∷ rdy
    ∷ rdpsr ∷ rdwim ∷ rdtbr ∷ unimp ∷ unimp ∷ unimp ∷ unimp ∷ wry ∷ wrpsr ∷ wrwim ∷ wrtbr ∷ fop1
    ∷ fop2 ∷ unimp ∷ unimp ∷ jmpl ∷ rett ∷ ticc ∷ flush ∷ save ∷ restore ∷ unimp ∷ unimp ∷ []

-- The second half, for the format bits 3.
unfoldable pub format3_high : List Operation
format3_high =
    ld ∷ ldub ∷ lduh ∷ ldd ∷ st ∷ stb ∷ sth ∷ std ∷ unimp ∷ ldsb ∷ ldsh ∷ unimp ∷ unimp ∷ ldstub
    ∷ unimp ∷ swap ∷ lda ∷ unimp ∷ unimp ∷ unimp ∷ sta ∷ sta ∷ sta ∷ sta ∷ unimp ∷ unimp ∷ unimp
    ∷ unimp ∷ unimp ∷ unimp ∷ unimp ∷ swapa ∷ ldf ∷ ldfsr ∷ unimp ∷ lddf ∷ stf ∷ stfsr ∷ stdfq
    ∷ stdf ∷ unimp ∷ unimp ∷ unimp ∷ unimp ∷ unimp ∷ unimp ∷ unimp ∷ unimp ∷ unimp ∷ unimp ∷ unimp
    ∷ unimp ∷ unimp ∷ unimp ∷ unimp ∷ unimp ∷ unimp ∷ unimp ∷ unimp ∷ unimp ∷ casa ∷ unimp ∷ unimp
    ∷ unimp ∷ []

-- An index that the fields cannot reach gives `unimp`.
unfoldable pub entry : List Operation → ℕ → Operation
entry [] n = unimp
entry (o ∷ os) zero = o
entry (o ∷ os) (suc n) = entry os n

unfoldable pub sign_ext13 : ℕ → ℕ
sign_ext13 n = bit_or n (if testbit n 12 then 0xffffe000 else 0)

abbrev pub first_rs1_eval_idx : ℕ
first_rs1_eval_idx = 56

abbrev pub ticc_idx : ℕ
ticc_idx = 58

abbrev pub store_dbl_idx : ℕ
store_dbl_idx = 71

unfoldable pub fmt_of : ℕ → ℕ
fmt_of opcode = bit_and (opcode >>> 30) 3

unfoldable pub op2_of : ℕ → ℕ
op2_of opcode = bit_and (opcode >>> 22) 7

unfoldable pub op3_of : ℕ → ℕ
op3_of opcode = bit_and (opcode >>> 19) 0x3f

unfoldable pub rd_of : ℕ → ℕ
rd_of opcode = bit_and (opcode >>> 25) 0x1f

-- `read_reg` into a variable: it stays as it is where no case applies.
abbrev pub or_else : Option ℕ → ℕ → ℕ
or_else none old = old
or_else (some v) old = v

unfoldable pub read_into : ℕ → Cpu → ℕ → ℕ
read_into reg_no s old = or_else (read_reg reg_no s) old

-- The fields and the operands of a format 3 instruction of index `idx`, before the second value.
unfoldable pub operands : ℕ → Cpu → Decoded → Decoded
operands idx s d =
    let rs1 = bit_and (d.opcode >>> 14) 0x1f in
    let imm = bit_and d.opcode 0x1fff in
    let rs1_value = read_into rs1 s d.rs1_value in
    let regvalue = if ltb idx first_rs1_eval_idx then 0 else rs1_value in
    record d {
      rd = rd_of d.opcode;
      op_2_3 = op3_of d.opcode;
      rs1 = rs1;
      i = testbit d.opcode 13;
      imm_disp_rs2 = imm;
      rs1_value = rs1_value;
      ev =
          if testbit d.opcode 13
          then u32 (regvalue + sign_ext13 imm)
          else u32 (read_into (bit_and imm 0x1f) s d.ev + regvalue);
    }

unfoldable pub second_value : ℕ → Cpu → Decoded → Decoded
second_value idx s d =
    let even = bit_and d.rd (not32 1) in
    if idx == store_dbl_idx
    then record d { value = read_into even s d.value; value1 = read_into (even + 1) s d.value1 }
    else if idx == ticc_idx && not d.i
    then record d { value = read_into (bit_and d.imm_disp_rs2 0x1f) s d.value }
    else if testbit d.opcode 30
    then record d { value = read_into d.rd s d.value }
    else d

-- Program counters and status register, and no write-back yet.
unfoldable pub prepared : ℕ → Cpu → Decoded → Decoded
prepared opcode s d = record d {
  opcode = opcode;
  pc = s.pc;
  npc = s.npc;
  psr = s.psr;
  writeback = false;
}

unfoldable pub format3 : ℕ → Operation
format3 opcode = entry (if testbit opcode 30 then format3_high else format3_low) (op3_of opcode)

unfoldable pub format3_index : ℕ → ℕ
format3_index opcode = op3_of opcode + (if testbit opcode 30 then 64 else 0)

-- The fields of the instruction before stay where the new one has none.
unfoldable pub decode : ℕ → Cpu → Decoded → Operation × Decoded
decode opcode s before =
    let d = prepared opcode s before in
    if fmt_of opcode == 1
    then (call, record d { imm_disp_rs2 = bit_and opcode 0x3fffffff })
    else if fmt_of opcode == 0
    then (
      entry format2 (op2_of opcode),
      record d {
        rd = rd_of opcode;
        op_2_3 = op2_of opcode;
        imm_disp_rs2 = bit_and opcode 0x3fffff;
      },
    )
    else (
      format3 opcode,
      second_value (format3_index opcode) s (operands (format3_index opcode) s d),
    )
