-- ===== src/Cpu/Products.antt =====
-- src/sparcv8/CPU_instructions.cpp, `MUL`: the product in the Y register and the destination.
use sparcv8emulator.Base.{
  ℕ, ◌+◌, ◌-◌, ◌*◌, ◌%◌, ◌^◌, ◌≤◌, ◌<◌, ◌≡◌, refl, ◌∙◌, sym, ap, inl, inr, Bool, true, false, xor,
  if◌then◌else◌, leb, ◌==◌, Bool-cases, Option, none, some, bit_or, bit_or-add, bit_or_comm,
  testbit, u32, ◌>>>◌, arith,
}
use native.Mathlib.Nat.{mul-add, add-mul, mul-le-mul, mul_comm}
use sparcv8emulator.Cpu.State.{Cpu, Decoded, next, result}
use sparcv8emulator.Cpu.Integer.{cc_overflow, cc_zero, cc_negative, set_cc, get_icc, put_icc}
use sparcv8emulator.Cpu.Flags.{testbit-set_cc, one_code, top_bit}
use sparcv8emulator.Cpu.Multiply.{sign_extended, wide_cc, with_codes, product, mul}

-- A word's magnitude as a two's complement number.
unfoldable pub word_magnitude : ℕ → ℕ
word_magnitude x = if leb (2 ^ 31) x then 2 ^ 32 - x else x

-- The product as a 64-bit word, from the magnitudes and the signs.
unfoldable pub signed_product : ℕ → ℕ → ℕ
signed_product x y =
    let p = word_magnitude x * word_magnitude y in
    if xor (leb (2 ^ 31) x) (leb (2 ^ 31) y) then (2 ^ 64 - p) % 2 ^ 64 else p

-- The condition codes of a result `z`, with no overflow and no carry.
pub record Codes (z : ℕ) (zero_result : Bool) (psr : ℕ) : Type 0 where
  pub negative : testbit psr 23 ≡ testbit z 31
  pub is_zero : testbit psr 22 ≡ zero_result
  pub overflow : testbit psr 21 ≡ false
  pub carry : testbit psr 20 ≡ false

put_icc-wide_cc : (z cc psr : ℕ) → Codes z (z == 0) (put_icc (wide_cc z cc) psr)
unfolding wide_cc
put_icc-wide_cc z cc psr =
    let c1 = set_cc cc_zero (z == 0) cc in
    let c2 = set_cc cc_negative (testbit z 31) c1 in
    let c3 = set_cc cc_overflow false c2 in
    let at0 : (i : ℕ)
        → i < 32
        → testbit (set_cc 0 false c3) i ≡ (if i == 0 then false else testbit c3 i) =
      λ i lt. testbit-set_cc 0 i false c3 (omega arith) lt in
    let at1 : (i : ℕ) → i < 32 → testbit c3 i ≡ (if i == 1 then false else testbit c2 i) =
      λ i lt. testbit-set_cc 1 i false c2 (omega arith) lt in
    let at3 : (i : ℕ) → i < 32 → testbit c2 i ≡ (if i == 3 then testbit z 31 else testbit c1 i) =
      λ i lt. testbit-set_cc 3 i (testbit z 31) c1 (omega arith) lt in
    let code = one_code (wide_cc z cc) psr in
    record {
      negative = code.0 ∙ (at0 3 (omega arith) ∙ at1 3 (omega arith) ∙ at3 3 (omega arith));
      is_zero =
          code.1
          ∙ (at0 2 (omega arith)
              ∙ at1 2 (omega arith)
              ∙ at3 2 (omega arith)
              ∙ testbit-set_cc 2 2 (z == 0) cc (omega arith) (omega arith));
      overflow = code.2 ∙ (at0 1 (omega arith) ∙ at1 1 (omega arith));
      carry = code.3 ∙ at0 0 (omega arith);
    }

-- With bit 4 of op3 the codes are those of `z`, without it the status register stays.
abbrev pub CodesIf : Bool → ℕ → Bool → ℕ → ℕ → Type 0
CodesIf true z zero_result old psr = Codes z zero_result psr
CodesIf false z zero_result old psr = psr ≡ old

-- What a multiplication leaves: the upper word of the product in the Y register and the lower one
-- in the destination.
abbrev pub Multiplied : Decoded → Cpu → Option (Cpu × Decoded) → Type 0
Multiplied d s none = ⊥
Multiplied d s (some (s', d')) =
    (s' ≡ record s { y_reg = s'.y_reg })
    × (d'.pc ≡ d.npc)
    × (d'.writeback ≡ true)
    × (s'.y_reg * 2 ^ 32 + d'.value
        ≡ (if testbit d.op_2_3 0 then signed_product d.rs1_value d.ev else d.rs1_value * d.ev))
    × CodesIf (testbit d.op_2_3 4) d'.value (d'.value == 0) d.psr d'.psr

pub with_codes-CodesIf :
    (b : Bool) (z : ℕ) (d : Decoded)
    → testbit d.op_2_3 4 ≡ b
    → CodesIf b z (z == 0) d.psr (with_codes z d).psr
unfolding with_codes
with_codes-CodesIf true z d e = simp e (put_icc-wide_cc z (get_icc d.psr) d.psr)
with_codes-CodesIf false z d e = simp e refl

pub sign_extended_lem :
    (x : ℕ)
    → x < 2 ^ 32
    → sign_extended x ≡ (if leb (2 ^ 31) x then 2 ^ 64 - word_magnitude x else x)
unfolding sign_extended word_magnitude
sign_extended_lem x lt = elim (Bool-cases (leb (2 ^ 31) x)) [
  | inl e ↦
      let high : bit_or (0xffffffff * 2 ^ 32) x ≡ 0xffffffff * 2 ^ 32 + x =
        bit_or-add 32 0xffffffff x lt in
      rw (top_bit x lt, e) (bit_or_comm x (0xffffffff * 2 ^ 32) ∙ (high ∙ omega arith))
  | inr e ↦ rw (top_bit x lt, e) (bit_or_comm x 0 ∙ (bit_or-add 32 0 x lt ∙ omega arith))
]

-- Products of negative numbers in 64 bits.
negated : (a b x : ℕ) → a * b ≤ 2 ^ 62 → x + a ≡ 2 ^ 64 → x * b % 2 ^ 64 ≡ (2 ^ 64 - a * b) % 2 ^ 64
negated a b x small e = omega (arith, add-mul x a b, ap (λ (t : ℕ). t * b) e)

twice_negated :
    (a b x y : ℕ) → a * b ≤ 2 ^ 62 → x + a ≡ 2 ^ 64 → y + b ≡ 2 ^ 64 → x * y % 2 ^ 64 ≡ a * b
twice_negated a b x y small e e' =
    omega (arith, add-mul x a b, ap (λ (t : ℕ). t * b) e, mul-add x y b, ap (λ (t : ℕ). x * t) e')

pub magnitude_small : (x : ℕ) → x < 2 ^ 32 → word_magnitude x ≤ 2 ^ 31
unfolding word_magnitude
magnitude_small x lt = ground arith

pub extended_negative :
    (x : ℕ) → x < 2 ^ 32 → leb (2 ^ 31) x ≡ true → sign_extended x + word_magnitude x ≡ 2 ^ 64
extended_negative x lt e =
    let value : sign_extended x ≡ 2 ^ 64 - word_magnitude x =
      sign_extended_lem x lt ∙ ap (λ (b : Bool). if b then 2 ^ 64 - word_magnitude x else x) e in
    omega (arith, value, magnitude_small x lt)

pub extended_positive :
    (x : ℕ) → x < 2 ^ 32 → leb (2 ^ 31) x ≡ false → sign_extended x ≡ word_magnitude x
unfolding word_magnitude
extended_positive x lt e =
    sign_extended_lem x lt
    ∙ ap (λ (b : Bool). if b then 2 ^ 64 - word_magnitude x else x) e
    ∙ sym (ap (λ (b : Bool). if b then 2 ^ 32 - x else x) e)

wide_product :
    (x y : ℕ)
    → x < 2 ^ 32
    → y < 2 ^ 32
    → sign_extended x * sign_extended y % 2 ^ 64 ≡ signed_product x y
unfolding signed_product
wide_product x y xl yl =
    let a = word_magnitude x in
    let b = word_magnitude y in
    let small : a * b ≤ 2 ^ 62 = mul-le-mul (magnitude_small x xl) (magnitude_small y yl) in
    let small' : b * a ≤ 2 ^ 62 = mul-le-mul (magnitude_small y yl) (magnitude_small x xl) in
    elim (Bool-cases (leb (2 ^ 31) x)) [
      | inl e ↦ elim (Bool-cases (leb (2 ^ 31) y)) [
        | inl e' ↦
            rw (e, e')
              (twice_negated a b (sign_extended x) (sign_extended y) small
                (extended_negative x xl e) (extended_negative y yl e'))
        | inr e' ↦
            rw (e, e', extended_positive y yl e')
              (negated a b (sign_extended x) small (extended_negative x xl e))
      ]
      | inr e ↦ elim (Bool-cases (leb (2 ^ 31) y)) [
        | inl e' ↦
            rw (e, e', extended_positive x xl e, mul_comm a (sign_extended y), mul_comm a b)
              (negated b a (sign_extended y) small' (extended_negative y yl e'))
        | inr e' ↦
            rw (e, e', extended_positive x xl e, extended_positive y yl e') (omega (arith, small))
      ]
    ]

pub with_codes-npc : (z : ℕ) (d : Decoded) → (with_codes z d).npc ≡ d.npc
unfolding with_codes
with_codes-npc z d = ground arith

product_small : (signed : Bool) (x y : ℕ) → product signed x y < 2 ^ 64
unfolding product
product_small true x y = omega arith
product_small false x y = omega arith

-- A 64-bit word from its halves.
halves : (z : ℕ) → z < 2 ^ 64 → u32 (z >>> 32) * 2 ^ 32 + u32 z ≡ z
halves z lt = omega arith

module _ (d : Decoded) (xl : d.rs1_value < 2 ^ 32) (yl : d.ev < 2 ^ 32) where
  -- The 64-bit product of a `MUL`, which the lowest bit of op3 makes a signed one.
  pub product_lem :
      product (testbit d.op_2_3 0) d.rs1_value d.ev
      ≡ (if testbit d.op_2_3 0 then signed_product d.rs1_value d.ev else d.rs1_value * d.ev)
  unfolding product
  product_lem =
      let left : d.rs1_value ≤ 2 ^ 32 - 1 = omega arith in
      let right : d.ev ≤ 2 ^ 32 - 1 = omega arith in
      let fits : d.rs1_value * d.ev ≤ (2 ^ 32 - 1) * (2 ^ 32 - 1) = mul-le-mul left right in
      elim (Bool-cases (testbit d.op_2_3 0)) [
        | inl e ↦ rw e (wide_product d.rs1_value d.ev xl yl)
        | inr e ↦ rw e (omega (arith, fits))
      ]

  -- `UMUL`, `SMUL` and their variants that set the codes leave the product of the two operands,
  -- taken as unsigned or as two's complement words, in the Y register and the destination, and
  -- go to the next instruction.
  pub mul-product : (s : Cpu) → Multiplied d s (mul d s)
  unfolding mul next result
  mul-product s =
      let z = product (testbit d.op_2_3 0) d.rs1_value d.ev in
      (
        refl,
        with_codes-npc (u32 z) d,
        refl,
        halves z (product_small (testbit d.op_2_3 0) d.rs1_value d.ev) ∙ product_lem,
        with_codes-CodesIf (testbit d.op_2_3 4) (u32 z) d refl,
      )
