-- ===== src/Cpu/Fields.antt =====
-- src/sparcv8/CPU.h, `decode`: instructions put together from their fields.
use sparcv8emulator.Base.{
  ℕ, ◌+◌, ◌-◌, ◌*◌, ◌/◌, ◌%◌, ◌^◌, ◌≤◌, ◌<◌, ◌≡◌, refl, ◌∙◌, ap, inl, inr, Bool, true, false, not,
  ◌&&◌, if◌then◌else◌, ltb, ◌==◌, Bool-cases, bit_and, bit_or, testbit, testbit-div, bit_and-mod,
  bit_or-add, bit_or_comm, u32, not32, ◌>>>◌, arith,
}
use sparcv8emulator.Cpu.State.{Cpu, Decoded}
use sparcv8emulator.Cpu.Integer.{bit}
use sparcv8emulator.Cpu.Decode.{
  format3_low, format3_high, entry, sign_ext13, ticc_idx, store_dbl_idx, fmt_of, op3_of, rd_of,
  read_into, operands, second_value, prepared, format3, format3_index, decode,
}

-- A format 3 instruction: `memory` is the lower format bit, and `low` the lowest 13 bits.
pub record Fields : Type 0 where
  pub memory : Bool
  pub rd : ℕ
  pub op3 : ℕ
  pub rs1 : ℕ
  pub immediate : Bool
  pub low : ℕ

pub record IsEncodable (f : Fields) : Type 0 where
  pub rd_lt : f.rd < 32
  pub op3_lt : f.op3 < 64
  pub rs1_lt : f.rs1 < 32
  pub low_lt : f.low < 2 ^ 13

unfoldable pub encode : Fields → ℕ
encode f =
    (2 + bit f.memory) * 2 ^ 30
    + f.rd * 2 ^ 25
    + f.op3 * 2 ^ 19
    + f.rs1 * 2 ^ 14
    + bit f.immediate * 2 ^ 13
    + f.low

-- The number that the 13 bits stand for in two's complement, modulo 2 ^ 32.
unfoldable pub signed13 : ℕ → ℕ
signed13 n = if ltb n (2 ^ 12) then n else n + 2 ^ 32 - 2 ^ 13

sign_ext13-signed13 : (n : ℕ) → n < 2 ^ 13 → sign_ext13 n ≡ signed13 n
unfolding sign_ext13 signed13
sign_ext13-signed13 n lt = elim (Bool-cases (ltb n (2 ^ 12))) [
  | inl e ↦
      let clear : testbit n 12 ≡ false = testbit-div n 12 ∙ ground (arith, e) in
      rw (clear, e) (bit_or_comm n 0 ∙ (bit_or-add 13 0 n lt ∙ omega arith))
  | inr e ↦
      let set : testbit n 12 ≡ true = testbit-div n 12 ∙ ground (arith, e) in
      let sum : bit_or 0xffffe000 n ≡ 0xffffe000 + n = bit_or-add 13 0x7ffff n lt in
      rw (set, e) (bit_or_comm n 0xffffe000 ∙ sum ∙ omega arith)
]

bit_test : (n : ℕ) (b : Bool) → n ≡ bit b → (n == 1) ≡ b
unfolding bit
bit_test n true e = ground (arith, e)
bit_test n false e = ground (arith, e)

add_comm : (a b : ℕ) → a + b ≡ b + a
add_comm a b = omega arith

operand_sum :
    (b : Bool) (base n m : ℕ)
    → (if b then u32 (base + n) else u32 (m + base)) ≡ u32 (base + (if b then n else m))
operand_sum true base n m = refl
operand_sum false base n m = ap (λ (t : ℕ). u32 t) (add_comm m base)

bit_le : (b : Bool) → bit b ≤ 1
unfolding bit
bit_le true = omega arith
bit_le false = omega arith

unfoldable pub index_of : Fields → ℕ
index_of f = f.op3 + (if f.memory then 64 else 0)

-- The second operand of an arithmetic instruction (`idx < 56`), or the sum with the first one.
unfoldable pub address_of : Fields → Cpu → Decoded → ℕ
address_of f s before =
    let base = if ltb (index_of f) 56 then 0 else read_into f.rs1 s before.rs1_value in
    u32 (base + (if f.immediate then signed13 f.low else read_into (f.low % 32) s before.ev))

-- What a decoded instruction holds of the fields.
pub record Holds (f : Fields) (s : Cpu) (before d : Decoded) : Type 0 where
  pub rd : d.rd ≡ f.rd
  pub op3 : d.op_2_3 ≡ f.op3
  pub rs1 : d.rs1 ≡ f.rs1
  pub immediate : d.i ≡ f.immediate
  pub low : d.imm_disp_rs2 ≡ f.low
  pub operand : d.rs1_value ≡ read_into f.rs1 s before.rs1_value
  pub address : d.ev ≡ address_of f s before

Holds-value :
    (f : Fields) (s : Cpu) (before d : Decoded) (v w : ℕ)
    → Holds f s before d
    → Holds f s before (record d { value = v; value1 = w })
Holds-value f s before d v w h = record {
  rd = h.rd;
  op3 = h.op3;
  rs1 = h.rs1;
  immediate = h.immediate;
  low = h.low;
  operand = h.operand;
  address = h.address;
}

Holds-second_value :
    (f : Fields) (s : Cpu) (before d : Decoded) (idx : ℕ)
    → Holds f s before d
    → Holds f s before (second_value idx s d)
unfolding second_value
Holds-second_value f s before d idx h =
    let even = bit_and d.rd (not32 1) in
    elim (Bool-cases (idx == store_dbl_idx)) [
      | inl e ↦
          rw e (
            Holds-value f s before d (read_into even s d.value) (read_into (even + 1) s d.value1) h)
      | inr e ↦ elim (Bool-cases (idx == ticc_idx && not d.i)) [
        | inl t ↦
            rw (e, t)
              (Holds-value f s before d (read_into (bit_and d.imm_disp_rs2 0x1f) s d.value) d.value1
                h)
        | inr t ↦ elim (Bool-cases (testbit d.opcode 30)) [
          | inl m ↦ rw (e, t, m) (Holds-value f s before d (read_into d.rd s d.value) d.value1 h)
          | inr m ↦ rw (e, t, m) h
        ]
      ]
    ]

module _ (f : Fields) (ok : IsEncodable f) where
  fmt : fmt_of (encode f) ≡ 2 + bit f.memory
  unfolding fmt_of encode
  fmt = omega (arith, bit_and-mod 2 (encode f >>> 30), bit_le f.memory, bit_le f.immediate)

  op3_field : op3_of (encode f) ≡ f.op3
  unfolding op3_of encode
  op3_field = omega (arith, bit_and-mod 6 (encode f >>> 19), bit_le f.memory, bit_le f.immediate)

  rd_field : rd_of (encode f) ≡ f.rd
  unfolding rd_of encode
  rd_field = omega (arith, bit_and-mod 5 (encode f >>> 25), bit_le f.memory, bit_le f.immediate)

  rs1_field : bit_and (encode f >>> 14) 0x1f ≡ f.rs1
  unfolding encode
  rs1_field = omega (arith, bit_and-mod 5 (encode f >>> 14), bit_le f.memory, bit_le f.immediate)

  low_field : bit_and (encode f) 0x1fff ≡ f.low
  unfolding encode
  low_field = omega (arith, bit_and-mod 13 (encode f), bit_le f.memory, bit_le f.immediate)

  immediate_field : testbit (encode f) 13 ≡ f.immediate
  unfolding encode
  immediate_field =
      testbit-div (encode f) 13
      ∙ bit_test (encode f / 2 ^ 13 % 2) f.immediate
          (omega (arith, bit_le f.memory, bit_le f.immediate))

  memory_field : testbit (encode f) 30 ≡ f.memory
  unfolding encode
  memory_field =
      testbit-div (encode f) 30
      ∙ bit_test (encode f / 2 ^ 30 % 2) f.memory
          (omega (arith, bit_le f.memory, bit_le f.immediate))

  not_call : (fmt_of (encode f) == 1) ≡ false
  not_call = rw fmt (ground (arith, bit_le f.memory))

  not_branch : (fmt_of (encode f) == 0) ≡ false
  not_branch = rw fmt (ground (arith, bit_le f.memory))

  index : format3_index (encode f) ≡ index_of f
  unfolding format3_index index_of
  index = rw (op3_field, memory_field) refl

  table : format3 (encode f) ≡ entry (if f.memory then format3_high else format3_low) f.op3
  unfolding format3
  table = rw (op3_field, memory_field) refl

  module _ (s : Cpu) (before : Decoded) where
    address : (operands (index_of f) s (prepared (encode f) s before)).ev ≡ address_of f s before
    unfolding operands prepared address_of
    address =
        let base = if ltb (index_of f) 56 then 0 else read_into f.rs1 s before.rs1_value in
        rw
          (
            immediate_field,
            rs1_field,
            low_field,
            sign_ext13-signed13 f.low ok.low_lt,
            bit_and-mod 5 f.low,
          )
          (operand_sum f.immediate base (signed13 f.low) (read_into (f.low % 32) s before.ev))

    Holds-operands : Holds f s before (operands (index_of f) s (prepared (encode f) s before))
    unfolding operands prepared
    Holds-operands = record {
      rd = rd_field;
      op3 = op3_field;
      rs1 = rs1_field;
      immediate = immediate_field;
      low = low_field;
      operand = ap (λ (r : ℕ). read_into r s before.rs1_value) rs1_field;
      address = address;
    }

    -- Every format 3 instruction put together from its fields decodes to the function that the
    -- table names for them, and to the same fields; the first operand is the register rs1, and
    -- the second the register of the low five bits or the signed 13-bit immediate, with the
    -- first operand added from index 56 on.
    pub decode-encode :
        ((decode (encode f) s before).0
          ≡ entry (if f.memory then format3_high else format3_low) f.op3)
        × Holds f s before (decode (encode f) s before).1
    unfolding decode
    decode-encode =
        simp (not_call, not_branch, index)
          (
            table,
            Holds-second_value f s before (operands (index_of f) s (prepared (encode f) s before))
                (index_of f) Holds-operands,
          )
