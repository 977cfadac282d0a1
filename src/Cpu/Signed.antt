-- ===== src/Cpu/Signed.antt =====
-- src/sparcv8/CPU.cpp, `load8` and `load16`: loads of signed bytes and halfwords.
use sparcv8emulator.Base.{
  ℕ, ◌+◌, ◌-◌, ◌*◌, ◌^◌, ◌<◌, ◌≡◌, refl, ◌∙◌, inl, inr, Bool, true, false, if◌then◌else◌, ltb,
  Bool-cases, some, bit_and, bit_or, bit_or-add, bit_or_comm, testbit, testbit-div, arith,
}
use sparcv8emulator.Cpu.State.{Cpu, Decoded, write_reg, next}
use sparcv8emulator.Cpu.Loads.{
  MemoryFunction, ldsb, ldsh, Port, super, extended8, extended16, loaded, load8, load16, finish,
  aligned, memory_access,
}

-- The word of a two's complement number of `2 * half` values.
unfoldable pub signed_value : ℕ → ℕ → ℕ
signed_value half v = if ltb v half then v else v + 2 ^ 32 - 2 * half

extended8_lem : (v : ℕ) → v < 2 ^ 8 → extended8 true v ≡ signed_value (2 ^ 7) v
unfolding extended8 signed_value
extended8_lem v lt = elim (Bool-cases (ltb v (2 ^ 7))) [
  | inl e ↦
      let top : testbit v 7 ≡ false = testbit-div v 7 ∙ ground (arith, e) in
      rw (top, e) (bit_or_comm v 0 ∙ (bit_or-add 8 0 v lt ∙ omega arith))
  | inr e ↦
      let top : testbit v 7 ≡ true = testbit-div v 7 ∙ ground (arith, e) in
      let sum : bit_or 0xffffff00 v ≡ 0xffffff00 + v = bit_or-add 8 0xffffff v lt in
      rw (top, e) (bit_or_comm v 0xffffff00 ∙ (sum ∙ omega arith))
]

extended16_lem : (v : ℕ) → v < 2 ^ 16 → extended16 true v ≡ signed_value (2 ^ 15) v
unfolding extended16 signed_value
extended16_lem v lt = elim (Bool-cases (ltb v (2 ^ 15))) [
  | inl e ↦
      let top : testbit v 15 ≡ false = testbit-div v 15 ∙ ground (arith, e) in
      rw (top, e) (bit_or_comm v 0 ∙ (bit_or-add 16 0 v lt ∙ omega arith))
  | inr e ↦
      let top : testbit v 15 ≡ true = testbit-div v 15 ∙ ground (arith, e) in
      let sum : bit_or 0xffff0000 v ≡ 0xffff0000 + v = bit_or-add 16 0xffff v lt in
      rw (top, e) (bit_or_comm v 0xffff0000 ∙ (sum ∙ omega arith))
]

ldsb_lem :
    {M : Type 0} (port : Port M) (d : Decoded) (m m' : M) (s : Cpu) (v : ℕ)
    → v < 2 ^ 8
    → port.load 1 d.ev (super s) m ≡ (some v, m')
    → memory_access port ldsb d (m, s)
      ≡ some ((m', write_reg (signed_value (2 ^ 7) v) d.rd s), next d)
unfolding memory_access load8 loaded finish
ldsb_lem port d m m' s v lt e = rw (e, extended8_lem v lt) refl

ldsh_lem :
    {M : Type 0} (port : Port M) (d : Decoded) (m m' : M) (s : Cpu) (v : ℕ)
    → v < 2 ^ 16
    → bit_and d.ev 1 ≡ 0
    → port.load 2 d.ev (super s) m ≡ (some v, m')
    → memory_access port ldsh d (m, s)
      ≡ some ((m', write_reg (signed_value (2 ^ 15) v) d.rd s), next d)
unfolding memory_access load16 loaded finish aligned
ldsh_lem port d m m' s v lt even e = simp (even, e, extended16_lem v lt) refl

-- LDSH or LDSB.
abbrev pub signed_load : Bool → MemoryFunction
signed_load half = if half then ldsh else ldsb

-- Where the memory gives a byte to LDSB, or a halfword to LDSH at an even address, the destination
-- gets it as a two's complement number, and the processor goes to the next instruction.
pub signed_load_lem :
    {M : Type 0} (port : Port M) (half : Bool) (d : Decoded) (m m' : M) (s : Cpu) (v : ℕ)
    → v < (if half then 2 ^ 16 else 2 ^ 8)
    → (half ≡ true → bit_and d.ev 1 ≡ 0)
    → port.load (if half then 2 else 1) d.ev (super s) m ≡ (some v, m')
    → memory_access port (signed_load half) d (m, s)
      ≡ some ((m', write_reg (signed_value (if half then 2 ^ 15 else 2 ^ 7) v) d.rd s), next d)
signed_load_lem port true d m m' s v lt even e = ldsh_lem port d m m' s v lt (even refl) e
signed_load_lem port false d m m' s v lt even e = ldsb_lem port d m m' s v lt e
