-- ===== src/Cpu/Arithmetic.antt =====
-- src/sparcv8/CPU_instructions.cpp, `ADD`: the instructions that set the condition codes against
-- arithmetic on two's complement numbers.
use sparcv8emulator.Base.{
  ℕ, ◌+◌, ◌-◌, ◌%◌, ◌^◌, ◌<◌, ◌≡◌, refl, ◌∙◌, ap, Bool, true, false, not, ◌&&◌, ◌||◌, xor,
  if◌then◌else◌, ltb, leb, ◌==◌, Option, none, some, testbit, testbit-and, u32, not32, ◌>>>◌, arith,
}
use sparcv8emulator.Cpu.State.{Cpu, Decoded, next, result}
use sparcv8emulator.Cpu.Integer.{
  bit, get_icc, put_icc, signs_overflow, carry_out, tag_sub, y_sign, carry_in, sum, tag_overflow,
  add_cc, add,
}
use sparcv8emulator.Cpu.Flags.{
  shifted, out_of_range, top_bit, carry_out_lem, signs_overflow_lem, codes, put_icc-codes,
}

-- `ADDcc`, `SUBcc`, `ADDXcc` and `SUBXcc`.
unfoldable pub opcode_of : Bool → Bool → ℕ
opcode_of false false = 0x10
opcode_of true false = 0x14
opcode_of false true = 0x18
opcode_of true true = 0x1c

-- Whether `x - y - c` in two's complement is below -2 ^ 31 or at least 2 ^ 31.
unfoldable pub difference_out_of_range : ℕ → ℕ → ℕ → Bool
difference_out_of_range x y c =
    ltb (shifted x + 2 ^ 31) (shifted y + c) || leb (shifted y + c + 2 ^ 31) (shifted x)

-- What `x + y + c`, or `x - y - c` if `sub`, leaves in the register and the status register.
pub record Computes (sub : Bool) (x y c z psr : ℕ) : Type 0 where
  pub value : z ≡ (if sub then (x + 2 ^ 33 - y - c) % 2 ^ 32 else (x + y + c) % 2 ^ 32)
  pub negative : testbit psr 23 ≡ leb (2 ^ 31) z
  pub is_zero : testbit psr 22 ≡ (z == 0)
  pub overflow :
      testbit psr 21 ≡ (if sub then difference_out_of_range x y c else out_of_range x y c)
  pub carry : testbit psr 20 ≡ (if sub then ltb x (y + c) else leb (2 ^ 32) (x + y + c))

abbrev pub Computed : Bool → Bool → Decoded → Cpu → Option (Cpu × Decoded) → Type 0
Computed sub ext d s none = ⊥
Computed sub ext d s (some (s', d')) =
    (s' ≡ s)
    × (d'.pc ≡ d.npc)
    × (d'.writeback ≡ true)
    × Computes sub d.rs1_value d.ev (bit (ext && testbit d.psr 20)) d'.value d'.psr

old_carry : (psr : ℕ) → testbit (get_icc psr) 0 ≡ testbit psr 20
unfolding get_icc testbit
old_carry psr = testbit-and (psr >>> 20) 0xf 0 ∙ ground arith

-- `SUB` adds the complement.
complement_out_of_range :
    (x y : ℕ) (c : Bool)
    → x < 2 ^ 32
    → y < 2 ^ 32
    → out_of_range x (not32 y) (bit (not c)) ≡ difference_out_of_range x y (bit c)
unfolding out_of_range difference_out_of_range shifted bit
complement_out_of_range x y true xl yl = ground arith
complement_out_of_range x y false xl yl = ground arith

abbrev addend : Bool → ℕ → ℕ
addend sub y = if sub then not32 y else y

and_right : (b : Bool) → ((b && true && true) ≡ b) × ((b && true && false) ≡ false)
and_right true = (refl, refl)
and_right false = (refl, refl)

or_right : (b : Bool) → (b || false) ≡ b
or_right true = refl
or_right false = refl

sum_lem :
    (sub ext : Bool) (cc x y : ℕ)
    → sum (opcode_of sub ext) cc x y ≡ u32 (x + addend sub y + bit (xor sub (ext && testbit cc 0)))
unfolding sum opcode_of y_sign tag_sub carry_in testbit
sum_lem false false cc x y = rw (and_right (testbit cc 0)).1 refl
sum_lem true false cc x y = rw (and_right (testbit cc 0)).1 refl
sum_lem false true cc x y = rw (and_right (testbit cc 0)).0 refl
sum_lem true true cc x y = rw (and_right (testbit cc 0)).0 refl

add_cc_lem :
    (sub ext : Bool) (x y z cc : ℕ)
    → add_cc (opcode_of sub ext) x y z cc ≡ (
        let xtop = testbit x 31 in
        let ytop = testbit (addend sub y) 31 in
        let ztop = testbit z 31 in
        codes ztop (z == 0) (signs_overflow xtop ytop ztop) (xor sub (carry_out xtop ytop ztop)) cc)
unfolding add_cc opcode_of y_sign tag_sub tag_overflow testbit
add_cc_lem false false x y z cc =
    rw (or_right (signs_overflow (testbit x 31) (testbit y 31) (testbit z 31))) refl
add_cc_lem true false x y z cc =
    rw (or_right (signs_overflow (testbit x 31) (testbit (not32 y) 31) (testbit z 31))) refl
add_cc_lem false true x y z cc =
    rw (or_right (signs_overflow (testbit x 31) (testbit y 31) (testbit z 31))) refl
add_cc_lem true true x y z cc =
    rw (or_right (signs_overflow (testbit x 31) (testbit (not32 y) 31) (testbit z 31))) refl

difference :
    (c : Bool) (x y : ℕ)
    → y < 2 ^ 32
    → u32 (x + not32 y + bit (not c)) ≡ (x + 2 ^ 33 - y - bit c) % 2 ^ 32
unfolding bit
difference true x y yl = omega arith
difference false x y yl = omega arith

borrow :
    (c : Bool) (x y : ℕ)
    → y < 2 ^ 32
    → not (leb (2 ^ 32) (x + not32 y + bit (not c))) ≡ ltb x (y + bit c)
unfolding bit
borrow true x y yl = ground arith
borrow false x y yl = ground arith

-- The value and the codes of `x + addend sub y + bit (xor sub c)`.
computes_lem :
    (sub c : Bool) (x y psr cc : ℕ)
    → x < 2 ^ 32
    → y < 2 ^ 32
    → (let z = u32 (x + addend sub y + bit (xor sub c)) in
        let xtop = testbit x 31 in
        let ytop = testbit (addend sub y) 31 in
        let ztop = testbit z 31 in
        Computes sub x y (bit c) z (
          put_icc
            (codes ztop
              (z == 0)
              (signs_overflow xtop ytop ztop)
              (xor sub (carry_out xtop ytop ztop))
              cc)
            psr))
computes_lem false c x y psr cc xl yl =
    let z = u32 (x + y + bit c) in
    let b =
      put_icc-codes (testbit z 31) (z == 0)
        (signs_overflow (testbit x 31) (testbit y 31) (testbit z 31))
        (carry_out (testbit x 31) (testbit y 31) (testbit z 31)) cc psr in
    record {
      value = refl;
      negative = b.0 ∙ top_bit z (omega arith);
      is_zero = b.1;
      overflow = b.2 ∙ signs_overflow_lem x y c xl yl;
      carry = b.3 ∙ carry_out_lem x y c xl yl;
    }
computes_lem true c x y psr cc xl yl =
    let y' = not32 y in
    let z = u32 (x + y' + bit (not c)) in
    let b =
      put_icc-codes (testbit z 31) (z == 0)
        (signs_overflow (testbit x 31) (testbit y' 31) (testbit z 31))
        (not (carry_out (testbit x 31) (testbit y' 31) (testbit z 31))) cc psr in
    record {
      value = difference c x y yl;
      negative = b.0 ∙ top_bit z (omega arith);
      is_zero = b.1;
      overflow =
          b.2
          ∙ signs_overflow_lem x y' (not c) xl (omega arith)
          ∙ complement_out_of_range x y c xl yl;
      carry = b.3 ∙ ap not (carry_out_lem x y' (not c) xl (omega arith)) ∙ borrow c x y yl;
    }

general_add :
    (sub ext : Bool) (d : Decoded) (s : Cpu)
    → d.op_2_3 ≡ opcode_of sub ext
    → add d s ≡ (
        let op = opcode_of sub ext in
        let z = sum op (get_icc d.psr) d.rs1_value d.ev in
        some (
          s,
          next (
              result z
                (record d { psr = put_icc (add_cc op d.rs1_value d.ev z (get_icc d.psr)) d.psr })),
        ))
unfolding add opcode_of testbit next result
general_add false false d s e = simp e refl
general_add true false d s e = simp e refl
general_add false true d s e = simp e refl
general_add true true d s e = simp e refl

-- Each of the four instructions on words leaves the sum or the difference of its operands and the
-- old carry if it is an extended one, and the codes say whether the result is negative or zero,
-- overflows as a two's complement number, and carries or borrows. None of them traps.
pub add-Computed :
    (sub ext : Bool) (d : Decoded) (s : Cpu)
    → d.op_2_3 ≡ opcode_of sub ext
    → d.rs1_value < 2 ^ 32
    → d.ev < 2 ^ 32
    → Computed sub ext d s (add d s)
unfolding next result
add-Computed sub ext d s e xl yl =
    let c : Bool = ext && testbit (get_icc d.psr) 0 in
    rw
      (
        general_add sub ext d s e,
        sum_lem sub ext (get_icc d.psr) d.rs1_value d.ev,
        add_cc_lem sub ext d.rs1_value d.ev (u32 (d.rs1_value + addend sub d.ev + bit (xor sub c)))
            (get_icc d.psr),
        old_carry d.psr,
      )
      (
        refl,
        refl,
        refl,
        computes_lem sub (ext && testbit d.psr 20) d.rs1_value d.ev d.psr (get_icc d.psr) xl yl,
      )
