-- ===== src/Cpu/Integer.antt =====
-- src/sparcv8/CPU_instructions.cpp: addition, subtraction, logic, shifts and the condition codes.
use sparcv8emulator.Base.{
  ℕ, ◌+◌, ◌*◌, ◌^◌, Bool, false, not, ◌&&◌, ◌||◌, xor, if◌then◌else◌, ◌==◌, Option, some, bit_and,
  bit_or, bit_xor, testbit, u32, not32, ◌>>>◌,
}
use sparcv8emulator.Cpu.State.{Cpu, Decoded, trap, next, result}

abbrev pub cc_carry : ℕ
cc_carry = 0

abbrev pub cc_overflow : ℕ
cc_overflow = 1

abbrev pub cc_zero : ℕ
cc_zero = 2

abbrev pub cc_negative : ℕ
cc_negative = 3

abbrev pub psr_cc_carry : ℕ
psr_cc_carry = 20

abbrev pub tag_overflow_trap : ℕ
tag_overflow_trap = 0x0a

unfoldable pub bit : Bool → ℕ
bit b = if b then 1 else 0

-- `cc = (cc & ~(1 << k)) | (b << k)`.
unfoldable pub set_cc : ℕ → Bool → ℕ → ℕ
set_cc k b cc = bit_or (bit_and cc (not32 (2 ^ k))) (bit b * 2 ^ k)

unfoldable pub get_icc : ℕ → ℕ
get_icc psr = bit_and (psr >>> psr_cc_carry) 0xf

unfoldable pub put_icc : ℕ → ℕ → ℕ
put_icc cc psr = bit_or (bit_and psr (not32 (0xf * 2 ^ psr_cc_carry))) (cc * 2 ^ psr_cc_carry)

-- Both operands have one sign and the sum has the other.
abbrev pub signs_overflow : Bool → Bool → Bool → Bool
signs_overflow xtop ytop ztop = xtop && ytop && not ztop || not xtop && not ytop && ztop

abbrev pub carry_out : Bool → Bool → Bool → Bool
carry_out xtop ytop ztop = xtop && ytop || not ztop && (xtop || ytop)

-- An opcode of a tagged instruction has bit 5; of a subtraction, bit 2 or, if tagged, bit 0.
unfoldable pub tag_sub : ℕ → Bool
tag_sub op = testbit op 5 && testbit op 0

unfoldable pub y_sign : ℕ → ℕ → ℕ
y_sign op y = if testbit op 2 || tag_sub op then not32 y else y

unfoldable pub carry_in : ℕ → ℕ → Bool
carry_in op cc =
    xor (testbit op 2 || tag_sub op) (testbit cc cc_carry && not (tag_sub op) && testbit op 3)

unfoldable pub sum : ℕ → ℕ → ℕ → ℕ → ℕ
sum op cc x y = u32 (x + y_sign op y + bit (carry_in op cc))

unfoldable pub tag_overflow : ℕ → ℕ → ℕ → Bool
tag_overflow op x y = testbit op 5 && (not (bit_and x 3 == 0) || not (bit_and y 3 == 0))

-- The condition codes of `x` and `y`, whose sum is `z`.
unfoldable pub add_cc : ℕ → ℕ → ℕ → ℕ → ℕ → ℕ
add_cc op x y z cc =
    let xtop = testbit x 31 in
    let ytop = testbit (y_sign op y) 31 in
    let ztop = testbit z 31 in
    set_cc cc_negative ztop (
      set_cc cc_zero (z == 0) (
        set_cc cc_carry (xor (testbit op 2) (carry_out xtop ytop ztop))
          (set_cc cc_overflow (signs_overflow xtop ytop ztop || tag_overflow op x y) cc)))

-- `ADD`: the twelve instructions that add and subtract.
unfoldable pub add : Decoded → Cpu → Option (Cpu × Decoded)
add d s =
    if d.op_2_3 == 0
    then some (s, next (result (u32 (d.rs1_value + d.ev)) d))
    else (let z = sum d.op_2_3 (get_icc d.psr) d.rs1_value d.ev in
        let cc = add_cc d.op_2_3 d.rs1_value d.ev z (get_icc d.psr) in
        if bit_and d.op_2_3 0x22 == 0x22 && testbit cc cc_overflow
        then trap tag_overflow_trap d s
        else (let d' =
              if testbit d.op_2_3 4 || testbit d.op_2_3 5
              then record d { psr = put_icc cc d.psr }
              else d in
            some (s, next (result z d'))))

-- `CalcCC`.
unfoldable pub logic_cc : ℕ → ℕ → ℕ
logic_cc z cc =
    set_cc cc_negative (testbit z 31)
      (set_cc cc_zero (z == 0) (set_cc cc_carry false (set_cc cc_overflow false cc)))

unfoldable pub fast_logic : ℕ → ℕ → ℕ → ℕ
fast_logic op x y =
    if bit_and op 3 == 1 then bit_and x y else if bit_and op 3 == 2 then bit_or x y else bit_xor x y

unfoldable pub logic : ℕ → ℕ → ℕ → ℕ
logic op x y =
    let y' = if testbit op 2 then not32 y else y in
    if bit_and op 3 == 1
    then bit_and x y'
    else if bit_and op 3 == 2
    then bit_or x y'
    else if bit_and op 3 == 3
    then bit_xor x y'
    else 0

-- `AND`: the logical instructions.
unfoldable pub logical : Decoded → Cpu → Option (Cpu × Decoded)
logical d s =
    if bit_and d.op_2_3 0x14 == 0
    then some (s, next (result (fast_logic d.op_2_3 d.rs1_value d.ev) d))
    else (let z = logic d.op_2_3 d.rs1_value d.ev in
        let d' =
          if testbit d.op_2_3 4
          then record d { psr = put_icc (logic_cc z (get_icc d.psr)) d.psr }
          else d in
        some (s, next (result z d')))

unfoldable pub sll : Decoded → Cpu → Option (Cpu × Decoded)
sll d s = some (s, next (result (u32 (d.rs1_value * 2 ^ bit_and d.ev 0x1f)) d))

unfoldable pub srl : Decoded → Cpu → Option (Cpu × Decoded)
srl d s = some (s, next (result (d.rs1_value >>> bit_and d.ev 0x1f) d))

abbrev pub nop_opcode : ℕ
nop_opcode = 0x01000000

unfoldable pub sethi : Decoded → Cpu → Option (Cpu × Decoded)
sethi d s =
    if d.opcode == nop_opcode
    then some (s, next d)
    else some (s, next (result (u32 (d.imm_disp_rs2 * 2 ^ 10)) d))

-- `MULSCC`: one step of a multiplication.
unfoldable pub mulscc : Decoded → Cpu → Option (Cpu × Decoded)
mulscc d s =
    let cc = get_icc d.psr in
    let x =
      bit_or (d.rs1_value >>> 1)
        (bit (xor (testbit cc cc_overflow) (testbit cc cc_negative)) * 2 ^ 31) in
    let y = if testbit s.y_reg 0 then d.ev else 0 in
    let z = u32 (x + y) in
    let xtop = testbit x 31 in
    let ytop = testbit y 31 in
    let ztop = testbit z 31 in
    let cc' = set_cc cc_negative ztop (
      set_cc cc_zero (z == 0) (
        set_cc cc_carry (carry_out xtop ytop ztop)
          (set_cc cc_overflow (signs_overflow xtop ytop ztop) cc))) in
    some (
      record s { y_reg = bit_or (s.y_reg >>> 1) (bit (testbit d.rs1_value 0) * 2 ^ 31) },
      next (record (result z d) { psr = put_icc cc' d.psr }),
    )
