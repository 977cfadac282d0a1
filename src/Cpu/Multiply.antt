-- ===== src/Cpu/Multiply.antt =====
-- src/sparcv8/CPU_instructions.cpp, `MUL` and `DIV`: multiplication and division with the
-- Y register.
use sparcv8emulator.Base.{
  ℕ, ◌-◌, ◌*◌, ◌/◌, ◌%◌, ◌^◌, Bool, true, false, xor, if◌then◌else◌, leb, ◌&&◌, ◌==◌, Option, none,
  some, bit_or, testbit, u32, ◌>>>◌,
}
use sparcv8emulator.Cpu.State.{Cpu, Decoded, trap, next, result}
use sparcv8emulator.Cpu.Integer.{
  cc_carry, cc_overflow, cc_zero, cc_negative, set_cc, get_icc, put_icc,
}

abbrev pub u64 : ℕ → ℕ
u64 n = n % 2 ^ 64

abbrev pub division_by_zero : ℕ
division_by_zero = 0x2a

-- `x |= (x & 0x80000000) ? ((u64)0xffffffff << (u64)32) : 0`.
unfoldable pub sign_extended : ℕ → ℕ
sign_extended x = bit_or x (if testbit x 31 then 0xffffffff * 2 ^ 32 else 0)

-- `cc` after the code's four assignments, for the 64-bit `z`.
unfoldable pub wide_cc : ℕ → ℕ → ℕ
wide_cc z cc =
    set_cc cc_carry false
      (set_cc cc_overflow false (set_cc cc_negative (testbit z 31) (set_cc cc_zero (z == 0) cc)))

unfoldable pub with_codes : ℕ → Decoded → Decoded
with_codes z d =
    if testbit d.op_2_3 4 then record d { psr = put_icc (wide_cc z (get_icc d.psr)) d.psr } else d

-- The product as a 64-bit word: two's complement numbers multiply like words.
unfoldable pub product : Bool → ℕ → ℕ → ℕ
product true x y = u64 (sign_extended x * sign_extended y)
product false x y = u64 (x * y)

unfoldable pub mul : Decoded → Cpu → Option (Cpu × Decoded)
mul d s =
    let z = product (testbit d.op_2_3 0) d.rs1_value d.ev in
    some (record s { y_reg = u32 (z >>> 32) }, next (result (u32 z) (with_codes (u32 z) d)))

-- The parts of an `s64`: `/` and `%` on it round towards zero.
unfoldable pub is_negative : ℕ → Bool
is_negative z = leb (2 ^ 63) z

unfoldable pub magnitude : ℕ → ℕ
magnitude z = if is_negative z then 2 ^ 64 - z else z

unfoldable pub signed_word : Bool → ℕ → ℕ
signed_word negative n = u64 (if negative then 2 ^ 64 - n else n)

-- The quotient and the remainder of 64-bit words, if `signed` of two's complement numbers; `none`
-- is the division that the host cannot represent, `INT64_MIN / -1`.
unfoldable pub quotient : Bool → ℕ → ℕ → Option (ℕ × ℕ)
quotient false x y = some (x / y, x % y)
quotient true x y =
    if x == 2 ^ 63 && y == 2 ^ 64 - 1
    then none
    else some (
      signed_word (xor (is_negative x) (is_negative y)) (magnitude x / magnitude y),
      signed_word (is_negative x) (magnitude x % magnitude y),
    )

unfoldable pub divisor : Bool → ℕ → ℕ
divisor true y = sign_extended y
divisor false y = y

unfoldable pub quotient_written : Decoded → Cpu → Option (ℕ × ℕ) → Option (Cpu × Decoded)
quotient_written d s none = none
quotient_written d s (some (z, rest)) =
    some (record s { y_reg = u32 rest }, next (result (u32 z) (with_codes z d)))

-- `none` is a trap while traps are disabled, or a division that stops the host.
unfoldable pub div : Decoded → Cpu → Option (Cpu × Decoded)
div d s =
    if d.ev == 0
    then trap division_by_zero d s
    else quotient_written d s (
        quotient (testbit d.op_2_3 0) (bit_or (s.y_reg * 2 ^ 32) d.rs1_value)
          (divisor (testbit d.op_2_3 0) d.ev))
