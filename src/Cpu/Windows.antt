-- ===== src/Cpu/Windows.antt =====
-- src/sparcv8/CPU.h and CPU_instructions.cpp: `SAVE` and `RESTORE` move between overlapping
-- register windows.
use sparcv8emulator.Base.{
  ℕ, ◌+◌, ◌*◌, ◌/◌, ◌%◌, ◌^◌, ◌<◌, ◌≡◌, ◌≢◌, refl, ◌∙◌, ap, inl, inr, false, ◌==◌, Bool-cases,
  Option, none, some, bit_and, bit_or, bit_and-mod, bit_and-low, bit_and-zero, bit_or-add, u32,
  sub32, not32, ◌>>>◌, arith,
}
use sparcv8emulator.Cpu.State.{
  Cpu, Decoded, nwindows, globalreg8, update_cwp_bases, next_base, read_reg, write_reg, write_back,
  next, result,
}
use sparcv8emulator.Cpu.Control.{invalid_window, put_cwp, enter_window, save, restore}

-- The end of `excute_one`: write-back of an instruction that did not throw.
unfoldable pub completed : Option (Cpu × Decoded) → Option Cpu
completed none = none
completed (some (s, d)) = some (write_back d s)

unfoldable pub read_of : ℕ → Option Cpu → Option ℕ
read_of reg_no none = none
read_of reg_no (some s) = read_reg reg_no s

-- The current window is `w`, in the status register and in the cached base.
pub record InWindow (w : ℕ) (s : Cpu) : Type 0 where
  pub small : w < nwindows
  pub cached : s.cwp_base ≡ w * 8

pub next_base-window : (w : ℕ) → w < 8 → next_base (w * 8) ≡ (w + 1) % 8 * 8
unfolding next_base
next_base-window w lt = omega (arith, bit_and-mod 6 (w * 8 + 8))

pub register_index : (w j : ℕ) → bit_or (w * 8) (bit_and j 7) ≡ w * 8 + j % 8
register_index w j =
    ap (λ (t : ℕ). bit_or (w * 8) t) (bit_and-mod 3 j) ∙ bit_or-add 3 w (j % 8) (omega arith)

module _ (w : ℕ) (s : Cpu) (inside : InWindow w s) where
  read_out : (k : ℕ) → k < 8 → read_reg (8 + k) s ≡ some (s.outs (w * 8 + k))
  unfolding read_reg
  read_out k lt =
      let bank : (8 + k) >>> 3 ≡ 1 = omega arith in
      let plain : (8 + k == globalreg8) ≡ false = ground arith in
      let low : (8 + k) % 8 ≡ k = omega arith in
      rw (plain, bank, inside.cached, register_index w (8 + k), low) refl

  read_in : (k : ℕ) → k < 8 → read_reg (24 + k) s ≡ some (s.outs ((w + 1) % 8 * 8 + k))
  unfolding read_reg
  read_in k lt =
      let bank : (24 + k) >>> 3 ≡ 3 = omega arith in
      let plain : (24 + k == globalreg8) ≡ false = ground arith in
      let low : (24 + k) % 8 ≡ k = omega arith in
      rw
        (
          plain,
          bank,
          inside.cached,
          next_base-window w inside.small,
          register_index ((w + 1) % 8) (24 + k),
          low,
        )
        refl

  -- A write to a register outside of the `out` and `in` registers leaves them, a write to one
  -- bank of them leaves the other.
  write_reg-outs :
      (value rd i : ℕ)
      → rd < 32
      → (rd / 8 ≡ 1 → i / 8 ≢ w)
      → (rd / 8 ≡ 3 → i / 8 ≢ (w + 1) % 8)
      → (write_reg value rd s).outs i ≡ s.outs i
  unfolding write_reg
  write_reg-outs value rd i lt own next_own =
      let plain : (rd == globalreg8) ≡ false = ground arith in
      let bank : bit_and (rd >>> 3) 3 ≡ rd / 8 = omega (arith, bit_and-mod 2 (rd >>> 3)) in
      elim (Bool-cases (rd / 8 == 0)) [
        | inl e0 ↦ simp (plain, bank, e0) refl
        | inr n0 ↦ elim (Bool-cases (rd / 8 == 1)) [
          | inl e1 ↦
              let away : (i == w * 8 + rd % 8) ≡ false = ground (arith, own (ground (arith, e1))) in
              simp (plain, bank, n0, e1, inside.cached, register_index w rd, away) refl
          | inr n1 ↦ elim (Bool-cases (rd / 8 == 2)) [
            | inl e2 ↦ simp (plain, bank, n0, n1, e2) refl
            | inr n2 ↦
                let away : (i == (w + 1) % 8 * 8 + rd % 8) ≡ false =
                  ground (arith, next_own (ground (arith, n0, n1, n2))) in
                simp
                  (
                    plain,
                    bank,
                    n0,
                    n1,
                    n2,
                    inside.cached,
                    next_base-window w inside.small,
                    register_index ((w + 1) % 8) rd,
                    away,
                  )
                  refl
          ]
        ]
      ]

pub put_cwp-cwp : (cwp psr : ℕ) → cwp < 8 → bit_and (put_cwp cwp psr) 0x1f ≡ cwp
unfolding put_cwp
put_cwp-cwp cwp psr lt =
    let p = bit_and psr (not32 0x1f) in
    let low : p % 2 ^ 5 ≡ 0 = bit_and-low 5 psr (not32 0x1f) ∙ bit_and-zero (psr % 2 ^ 5) in
    let own : bit_and cwp 0x1f ≡ cwp = omega (arith, bit_and-mod 5 cwp) in
    let whole : p ≡ p / 2 ^ 5 * 2 ^ 5 = omega (arith, low) in
    let both : bit_or p cwp ≡ p / 2 ^ 5 * 2 ^ 5 + cwp =
      ap (λ (t : ℕ). bit_or t cwp) whole ∙ bit_or-add 5 (p / 2 ^ 5) cwp (omega arith) in
    rw (own, both) (omega (arith, bit_and-mod 5 (p / 2 ^ 5 * 2 ^ 5 + cwp)))

pub write_reg-cwp_base : (value rd : ℕ) (s : Cpu) → (write_reg value rd s).cwp_base ≡ s.cwp_base
unfolding write_reg
write_reg-cwp_base value rd s = ground arith

-- The state into which `SAVE` or `RESTORE` writes its result.
abbrev moved : ℕ → Decoded → Cpu → Cpu
moved cwp d s =
    update_cwp_bases (record s { pc = d.npc; npc = u32 (d.npc + 4); psr = put_cwp cwp d.psr })

moved-InWindow :
    (cwp : ℕ) (d : Decoded) (s : Cpu) → cwp < 8 → InWindow cwp (write_reg d.ev d.rd (moved cwp d s))
unfolding update_cwp_bases
moved-InWindow cwp d s lt = record {
  small = lt;
  cached =
      write_reg-cwp_base d.ev d.rd (moved cwp d s)
      ∙ ap (λ (t : ℕ). t * 8) (put_cwp-cwp cwp d.psr lt);
}

module _ (cwp i : ℕ) (d : Decoded) (s : Cpu) (small : cwp < 8) (rd_lt : d.rd < 32) where
  -- What the new window shows of the `out` registers that the result does not overwrite.
  moved_outs :
      (d.rd / 8 ≡ 1 → i / 8 ≢ cwp)
      → (d.rd / 8 ≡ 3 → i / 8 ≢ (cwp + 1) % 8)
      → (write_reg d.ev d.rd (moved cwp d s)).outs i ≡ s.outs i
  unfolding update_cwp_bases
  moved_outs own next_own =
      write_reg-outs cwp (moved cwp d s)
        (record { small = small; cached = ap (λ (t : ℕ). t * 8) (put_cwp-cwp cwp d.psr small) })
        d.ev d.rd i rd_lt own next_own

-- After a `SAVE` that does not trap, whose result is no `in` register, the new window's `in`
-- registers hold what the `out` registers held.
pub save_overlaps :
    (w k : ℕ) (d : Decoded) (s : Cpu)
    → InWindow w s
    → bit_and d.psr 0x1f ≡ w
    → invalid_window s ((w + 7) % 8) ≡ false
    → d.rd < 24
    → k < 8
    → read_of (24 + k) (completed (save d s)) ≡ read_reg (8 + k) s
unfolding save completed read_of enter_window write_back next result
save_overlaps w k d s inside cwp valid rd_lt kl =
    let new : sub32 w 1 % nwindows ≡ (w + 7) % 8 = omega (arith, inside.small) in
    let back : ((w + 7) % 8 + 1) % 8 ≡ w = omega (arith, inside.small) in
    simp (cwp, new, valid, back, read_out w s inside k kl)
      (read_in ((w + 7) % 8) (write_reg d.ev d.rd (moved ((w + 7) % 8) d s))
          (moved-InWindow ((w + 7) % 8) d s (omega arith)) k kl
        ∙ rw back (
            ap some (
              moved_outs ((w + 7) % 8) (w * 8 + k) d s (omega arith) (omega arith)
                (λ own e. absurd (omega (arith, inside.small)))
                (λ next_own e. absurd (omega arith)))))

-- After a `RESTORE` that does not trap, whose result is no `out` register, the `out` registers
-- hold what the `in` registers of the window before held.
pub restore_overlaps :
    (w k : ℕ) (d : Decoded) (s : Cpu)
    → InWindow w s
    → bit_and d.psr 0x1f ≡ w
    → invalid_window s ((w + 1) % 8) ≡ false
    → d.rd / 8 ≢ 1
    → d.rd < 32
    → k < 8
    → read_of (8 + k) (completed (restore d s)) ≡ read_reg (24 + k) s
unfolding restore completed read_of enter_window write_back next result
restore_overlaps w k d s inside cwp valid no_out rd_lt kl =
    simp (cwp, valid, read_in w s inside k kl)
      (read_out ((w + 1) % 8) (write_reg d.ev d.rd (moved ((w + 1) % 8) d s))
          (moved-InWindow ((w + 1) % 8) d s (omega arith)) k kl
        ∙ ap some (
            moved_outs ((w + 1) % 8) ((w + 1) % 8 * 8 + k) d s (omega arith) rd_lt
              (λ own e. no_out own) (λ next_own e. absurd (omega arith))))
