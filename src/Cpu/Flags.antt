-- ===== src/Cpu/Flags.antt =====
-- src/sparcv8/CPU_instructions.cpp: the condition codes of addition and subtraction.
use sparcv8emulator.Base.{
  ℕ, ◌+◌, ◌-◌, ◌*◌, ◌^◌, ◌<◌, ◌≡◌, refl, ◌∙◌, ap, Bool, true, false, not, ◌&&◌, ◌||◌, if◌then◌else◌,
  ltb, leb, ◌==◌, bit_and, testbit, testbit-or, testbit-and, testbit-clear, testbit-div,
  testbit-pow, testbit-zero, u32, not32, arith,
}
use sparcv8emulator.Cpu.Integer.{
  cc_carry, cc_overflow, cc_zero, cc_negative, bit, set_cc, put_icc, signs_overflow, carry_out,
}

testbit-bit : (b : Bool) (k i : ℕ) → testbit (bit b * 2 ^ k) i ≡ (b && i == k)
unfolding bit
testbit-bit true k i = ap (λ (t : ℕ). testbit t i) (omega arith) ∙ testbit-pow k i
testbit-bit false k i = ap (λ (t : ℕ). testbit t i) (omega arith) ∙ testbit-zero i

pub select : (t b e : Bool) → (t && not e || b && e) ≡ (if e then b else t)
select true true true = refl
select true true false = refl
select true false true = refl
select true false false = refl
select false true true = refl
select false true false = refl
select false false true = refl
select false false false = refl

-- `set_cc` sets the one bit.
pub testbit-set_cc :
    (k i : ℕ) (b : Bool) (cc : ℕ)
    → k < 32
    → i < 32
    → testbit (set_cc k b cc) i ≡ (if i == k then b else testbit cc i)
unfolding set_cc
testbit-set_cc k i b cc kl il =
    testbit-or (bit_and cc (not32 (2 ^ k))) (bit b * 2 ^ k) i
    ∙ rw (testbit-clear cc k i kl il, testbit-bit b k i) (select (testbit cc i) b (i == k))

pub top_bit : (x : ℕ) → x < 2 ^ 32 → testbit x 31 ≡ leb (2 ^ 31) x
top_bit x lt = testbit-div x 31 ∙ ground arith

-- A word as a two's complement number, moved up by 2 ^ 32.
unfoldable pub shifted : ℕ → ℕ
shifted x = if ltb x (2 ^ 31) then x + 2 ^ 32 else x

-- Whether `x + y + c` in two's complement is below -2 ^ 31 or at least 2 ^ 31.
unfoldable pub out_of_range : ℕ → ℕ → ℕ → Bool
out_of_range x y c =
    ltb (shifted x + shifted y + c) (2 ^ 33 - 2 ^ 31)
    || leb (2 ^ 33 + 2 ^ 31) (shifted x + shifted y + c)

-- The carry and the overflow of a sum of words, by the signs.
module _ (x y : ℕ) (c : Bool) (xl : x < 2 ^ 32) (yl : y < 2 ^ 32) where
  pub carry_out_lem :
      carry_out (testbit x 31) (testbit y 31) (testbit (u32 (x + y + bit c)) 31)
      ≡ leb (2 ^ 32) (x + y + bit c)
  unfolding bit
  carry_out_lem =
      rw (top_bit x xl, top_bit y yl, top_bit (u32 (x + y + bit c)) (omega arith)) (ground arith)

  pub signs_overflow_lem :
      signs_overflow (testbit x 31) (testbit y 31) (testbit (u32 (x + y + bit c)) 31)
      ≡ out_of_range x y (bit c)
  unfolding bit out_of_range shifted
  signs_overflow_lem =
      rw (top_bit x xl, top_bit y yl, top_bit (u32 (x + y + bit c)) (omega arith)) (ground arith)

-- The condition codes as `ADD`, `MULSCC` and `CalcCC` put them together.
abbrev pub codes : Bool → Bool → Bool → Bool → ℕ → ℕ
codes n z v c cc =
    set_cc cc_negative n (set_cc cc_zero z (set_cc cc_carry c (set_cc cc_overflow v cc)))

none_left : (a b : Bool) → (a && false || b) ≡ b
none_left true b = refl
none_left false b = refl

put_icc_bit :
    (cc psr k j : ℕ)
    → testbit (not32 (0xf * 2 ^ 20)) k ≡ false
    → testbit (cc * 2 ^ 20) k ≡ testbit cc j
    → testbit (put_icc cc psr) k ≡ testbit cc j
unfolding put_icc
put_icc_bit cc psr k j masked e =
    testbit-or (bit_and psr (not32 (0xf * 2 ^ 20))) (cc * 2 ^ 20) k
    ∙ rw (testbit-and psr (not32 (0xf * 2 ^ 20)) k, masked, e)
        (none_left (testbit psr k) (testbit cc j))

pub one_code :
    (cc psr : ℕ)
    → (testbit (put_icc cc psr) 23 ≡ testbit cc 3)
      × (testbit (put_icc cc psr) 22 ≡ testbit cc 2)
      × (testbit (put_icc cc psr) 21 ≡ testbit cc 1)
      × (testbit (put_icc cc psr) 20 ≡ testbit cc 0)
unfolding testbit
one_code cc psr = (
  put_icc_bit cc psr 23 3 refl (ground arith),
  put_icc_bit cc psr 22 2 refl (ground arith),
  put_icc_bit cc psr 21 1 refl (ground arith),
  put_icc_bit cc psr 20 0 refl (ground arith),
)

codes_bits :
    (n z v c : Bool) (cc : ℕ)
    → (testbit (codes n z v c cc) 3 ≡ n)
      × (testbit (codes n z v c cc) 2 ≡ z)
      × (testbit (codes n z v c cc) 1 ≡ v)
      × (testbit (codes n z v c cc) 0 ≡ c)
codes_bits n z v c cc =
    let c1 = set_cc cc_overflow v cc in
    let c2 = set_cc cc_carry c c1 in
    let c3 = set_cc cc_zero z c2 in
    let at3 : (i : ℕ) → i < 32 → testbit (set_cc 3 n c3) i ≡ (if i == 3 then n else testbit c3 i) =
      λ i lt. testbit-set_cc 3 i n c3 (omega arith) lt in
    let at2 : (i : ℕ) → i < 32 → testbit c3 i ≡ (if i == 2 then z else testbit c2 i) =
      λ i lt. testbit-set_cc 2 i z c2 (omega arith) lt in
    let at0 : (i : ℕ) → i < 32 → testbit c2 i ≡ (if i == 0 then c else testbit c1 i) =
      λ i lt. testbit-set_cc 0 i c c1 (omega arith) lt in
    (
      at3 3 (omega arith),
      at3 2 (omega arith) ∙ at2 2 (omega arith),
      at3 1 (omega arith)
          ∙ at2 1 (omega arith)
          ∙ at0 1 (omega arith)
          ∙ testbit-set_cc 1 1 v cc (omega arith) (omega arith),
      at3 0 (omega arith) ∙ at2 0 (omega arith) ∙ at0 0 (omega arith),
    )

-- The condition codes of the status register after `codes` is put there.
pub put_icc-codes :
    (n z v c : Bool) (cc psr : ℕ)
    → (testbit (put_icc (codes n z v c cc) psr) 23 ≡ n)
      × (testbit (put_icc (codes n z v c cc) psr) 22 ≡ z)
      × (testbit (put_icc (codes n z v c cc) psr) 21 ≡ v)
      × (testbit (put_icc (codes n z v c cc) psr) 20 ≡ c)
put_icc-codes n z v c cc psr =
    let r = one_code (codes n z v c cc) psr in
    let b = codes_bits n z v c cc in (r.0 ∙ b.0, r.1 ∙ b.1, r.2 ∙ b.2, r.3 ∙ b.3)
