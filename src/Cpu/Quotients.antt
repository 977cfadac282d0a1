-- ===== src/Cpu/Quotients.antt =====
-- src/sparcv8/CPU_instructions.cpp, `DIV`: the quotient in the destination and the remainder in
-- the Y register.
use sparcv8emulator.Base.{
  ℕ, zero, suc, ◌+◌, ◌-◌, ◌*◌, ◌/◌, ◌%◌, ◌^◌, ◌≤◌, ◌<◌, ◌≡◌, refl, ◌∙◌, sym, ap, inl, inr, Bool,
  true, false, xor, ◌&&◌, if◌then◌else◌, leb, ◌==◌, Bool-cases, Option, none, some, bit_or-add,
  testbit, testbit-div, u32, arith,
}
use native.Mathlib.Nat.{div-add-mod', mod-lt, div-lt_iff_lt-mul, mul_comm}
use sparcv8emulator.Cpu.State.{Cpu, Decoded, next, result}
use sparcv8emulator.Cpu.Multiply.{
  sign_extended, with_codes, is_negative, magnitude, signed_word, quotient, divisor,
  quotient_written, div,
}
use sparcv8emulator.Cpu.Products.{
  word_magnitude, magnitude_small, CodesIf, with_codes-CodesIf, with_codes-npc, extended_negative,
  extended_positive,
}

-- The magnitudes and signs of the 64-bit dividend and of the divisor, if `signed`.
unfoldable pub dividend_magnitude : Bool → ℕ → ℕ
dividend_magnitude signed x = if signed && leb (2 ^ 63) x then 2 ^ 64 - x else x

unfoldable pub divisor_magnitude : Bool → ℕ → ℕ
divisor_magnitude signed y = if signed then word_magnitude y else y

-- The word of a sign and a magnitude.
unfoldable pub negated_word : Bool → ℕ → ℕ
negated_word negative n = if negative then (2 ^ 32 - n) % 2 ^ 32 else n

-- The quotient `q` and the remainder `r` of magnitudes, in words `value` and `y_reg` with the
-- signs of a division that rounds towards zero.
pub record Quotient (signed : Bool) (x y value y_reg : ℕ) : Type 0 where
  pub q : ℕ
  pub r : ℕ
  pub whole : q * divisor_magnitude signed y + r ≡ dividend_magnitude signed x
  pub r_lt : r < divisor_magnitude signed y
  pub value_is : value ≡ negated_word (signed && xor (leb (2 ^ 63) x) (leb (2 ^ 31) y)) q
  pub y_reg_is : y_reg ≡ negated_word (signed && leb (2 ^ 63) x) r

abbrev pub Divided : Decoded → Cpu → Option (Cpu × Decoded) → Type 0
Divided d s none = ⊥
Divided d s (some (s', d')) =
    (s' ≡ record s { y_reg = s'.y_reg })
    × (d'.pc ≡ d.npc)
    × (d'.writeback ≡ true)
    × Quotient (testbit d.op_2_3 0) (s.y_reg * 2 ^ 32 + d.rs1_value) d.ev d'.value s'.y_reg
    × CodesIf (testbit d.op_2_3 4) d'.value (d'.value == 0) d.psr d'.psr

-- The 64-bit result and its lower word.
module _ (negative : Bool) (n : ℕ) (small : n < 2 ^ 32) where
  low_word : u32 (signed_word negative n) ≡ negated_word negative n
  unfolding signed_word negated_word
  low_word = elim (Bool-cases negative) [ inl e ↦ rw e (omega arith) | inr e ↦ rw e (omega arith) ]

  low_zero : (signed_word negative n == 0) ≡ (u32 (signed_word negative n) == 0)
  unfolding signed_word
  low_zero = elim (Bool-cases negative) [
    | inl e ↦ rw e (ground arith)
    | inr e ↦ rw e (ground arith)
  ]

low_sign : (z : ℕ) → testbit z 31 ≡ testbit (u32 z) 31
low_sign z =
    testbit-div z 31 ∙ (ap (λ (t : ℕ). t == 1) (omega arith) ∙ sym (testbit-div (u32 z) 31))

low_codes :
    (b : Bool) (z : ℕ) (d : Decoded)
    → testbit d.op_2_3 4 ≡ b
    → (z == 0) ≡ (u32 z == 0)
    → CodesIf b (u32 z) (u32 z == 0) d.psr (with_codes z d).psr
low_codes true z d e same =
    let c = with_codes-CodesIf true z d e in
    record {
      negative = c.negative ∙ low_sign z;
      is_zero = c.is_zero ∙ same;
      overflow = c.overflow;
      carry = c.carry;
    }
low_codes false z d e same = with_codes-CodesIf false z d e

extended_magnitude : (y : ℕ) → y < 2 ^ 32 → magnitude (sign_extended y) ≡ word_magnitude y
unfolding magnitude is_negative
extended_magnitude y lt = elim (Bool-cases (leb (2 ^ 31) y)) [
  | inl e ↦ ground (arith, extended_negative y lt e, magnitude_small y lt)
  | inr e ↦ rw (extended_positive y lt e) (ground (arith, magnitude_small y lt))
]

extended_sign : (y : ℕ) → y < 2 ^ 32 → is_negative (sign_extended y) ≡ leb (2 ^ 31) y
unfolding is_negative
extended_sign y lt = elim (Bool-cases (leb (2 ^ 31) y)) [
  | inl e ↦ rw e (ground (arith, extended_negative y lt e, magnitude_small y lt))
  | inr e ↦ rw (e, extended_positive y lt e) (ground (arith, magnitude_small y lt))
]

-- The sign of a quotient and of a remainder.
unfoldable pub quotient_sign : Bool → ℕ → ℕ → Bool
quotient_sign signed x y = signed && xor (leb (2 ^ 63) x) (leb (2 ^ 31) y)

divides : (x y k : ℕ) → x < y * k → 0 < y
divides x zero k lt = absurd (omega arith)
divides x (suc y) k lt = omega arith

quotient_small : (x y k : ℕ) → x < y * k → x / y < k
quotient_small x y k lt =
    (div-lt_iff_lt-mul {k = y} {x = x} {y = k} (divides x y k lt)).1 (rw (mul_comm k y) lt)

low_quotient : (n : ℕ) → n < 2 ^ 64 → signed_word false n ≡ n
unfolding signed_word
low_quotient n lt = omega arith

not_least : (x m : ℕ) → dividend_magnitude true x < m * 2 ^ 31 → m ≤ 2 ^ 31 → (x == 2 ^ 63) ≡ false
unfolding dividend_magnitude
not_least x m fits small = ground (arith, fits, small)

not_zero : (signed : Bool) (y : ℕ) → 0 < divisor_magnitude signed y → (y == 0) ≡ false
unfolding divisor_magnitude word_magnitude
not_zero true y lt = ground (arith, lt)
not_zero false y lt = ground (arith, lt)

range_small : (signed : Bool) → (if signed then 2 ^ 31 else 2 ^ 32) ≤ 2 ^ 32
range_small true = omega arith
range_small false = omega arith

divisor_small : (signed : Bool) (y : ℕ) → y < 2 ^ 32 → divisor_magnitude signed y ≤ 2 ^ 32
unfolding divisor_magnitude
divisor_small true y lt = omega (arith, magnitude_small y lt)
divisor_small false y lt = omega arith

quotient_lem :
    (signed : Bool) (x y : ℕ)
    → x < 2 ^ 64
    → y < 2 ^ 32
    → dividend_magnitude signed x < divisor_magnitude signed y * (if signed then 2 ^ 31 else 2 ^ 32)
    → let q = dividend_magnitude signed x / divisor_magnitude signed y in
      let r = dividend_magnitude signed x % divisor_magnitude signed y in
      quotient signed x (divisor signed y)
      ≡ some (signed_word (quotient_sign signed x y) q, signed_word (signed && leb (2 ^ 63) x) r)
unfolding quotient divisor quotient_sign dividend_magnitude divisor_magnitude is_negative magnitude
quotient_lem false x y xl yl fits =
    let small : x / y < 2 ^ 32 = quotient_small x y (2 ^ 32) fits in
    let rest : x % y < y = mod-lt x (divides x y (2 ^ 32) fits) in
    rw (low_quotient (x / y) (omega (arith, small)), low_quotient (x % y) (omega (arith, rest)))
      refl
quotient_lem true x y xl yl fits =
    let fits' : dividend_magnitude true x < word_magnitude y * 2 ^ 31 = fits in
    let other : (x == 2 ^ 63) ≡ false =
      not_least x (word_magnitude y) fits' (magnitude_small y yl) in
    rw (other, extended_magnitude y yl, extended_sign y yl) refl

written-Divided :
    (signed : Bool) (d : Decoded) (s : Cpu) (q r : ℕ)
    → let x = s.y_reg * 2 ^ 32 + d.rs1_value in
      testbit d.op_2_3 0 ≡ signed
      → q < 2 ^ 32
      → r < divisor_magnitude signed d.ev
      → divisor_magnitude signed d.ev ≤ 2 ^ 32
      → q * divisor_magnitude signed d.ev + r ≡ dividend_magnitude signed x
      → Divided d s (
          quotient_written d s (
            some (
              signed_word (quotient_sign signed x d.ev) q,
              signed_word (signed && leb (2 ^ 63) x) r,
            )))
unfolding quotient_written next result quotient_sign
written-Divided signed d s q r e ql rl yl whole =
    let x = s.y_reg * 2 ^ 32 + d.rs1_value in
    let z = signed_word (signed && xor (leb (2 ^ 63) x) (leb (2 ^ 31) d.ev)) q in
    let codes : CodesIf (testbit d.op_2_3 4) (u32 z) (u32 z == 0) d.psr (with_codes z d).psr =
      low_codes (testbit d.op_2_3 4) z d refl
        (low_zero (signed && xor (leb (2 ^ 63) x) (leb (2 ^ 31) d.ev)) q ql) in
    (
      refl,
      with_codes-npc z d,
      refl,
      rw e (record {
        q = q;
        r = r;
        whole = whole;
        r_lt = rl;
        value_is = low_word (signed && xor (leb (2 ^ 63) x) (leb (2 ^ 31) d.ev)) q ql;
        y_reg_is = low_word (signed && leb (2 ^ 63) x) r (omega arith);
      }),
      codes,
    )

-- `UDIV`, `SDIV` and their variants that set the codes, by a divisor that is not zero and with a
-- quotient that fits into a word: the destination gets the quotient of the Y register and the
-- first operand by the second, rounded towards zero, the Y register the remainder, and the
-- processor goes to the next instruction.
pub div-quotient :
    (d : Decoded) (s : Cpu)
    → s.y_reg < 2 ^ 32
    → d.rs1_value < 2 ^ 32
    → d.ev < 2 ^ 32
    → dividend_magnitude (testbit d.op_2_3 0) (s.y_reg * 2 ^ 32 + d.rs1_value)
      < divisor_magnitude (testbit d.op_2_3 0) d.ev
        * (if testbit d.op_2_3 0 then 2 ^ 31 else 2 ^ 32)
    → Divided d s (div d s)
unfolding div
div-quotient d s sl xl yl fits =
    let signed = testbit d.op_2_3 0 in
    let x = s.y_reg * 2 ^ 32 + d.rs1_value in
    let k = if signed then 2 ^ 31 else 2 ^ 32 in
    let m = divisor_magnitude signed d.ev in
    let n = dividend_magnitude signed x in
    let positive : 0 < m = divides n m k fits in
    rw
      (
        not_zero signed d.ev positive,
        bit_or-add 32 s.y_reg d.rs1_value xl,
        quotient_lem signed x d.ev (omega arith) yl fits,
      )
      (written-Divided signed d s (n / m) (n % m) refl
        (omega (arith, quotient_small n m k fits, range_small signed)) (mod-lt n positive)
        (divisor_small signed d.ev yl) (div-add-mod' n m))
