-- ===== src/Cpu/Traps.antt =====
-- src/sparcv8/CPU.cpp: entry into a trap handler, and the return from it by `RETT`.
use sparcv8emulator.Base.{
  ℕ, ◌+◌, ◌*◌, ◌%◌, ◌^◌, ◌<◌, ◌≡◌, ◌≢◌, refl, ◌∙◌, sym, ap, inl, inr, Bool, true, false, ◌&&◌, ◌||◌,
  if◌then◌else◌, ltb, ◌==◌, Bool-cases, ==_iff, some, bit_and, bit_or, testbit, testbit-and,
  testbit-or, testbit-ones, testbit-pow, testbit-complement, bit_and-mod, sub32, not32, arith,
}
use sparcv8emulator.Cpu.State.{Cpu, update_cwp_bases, read_reg, write_reg}
use sparcv8emulator.Cpu.Integer.{bit, set_cc}
use sparcv8emulator.Cpu.Flags.{select, testbit-set_cc}
use sparcv8emulator.Cpu.Control.{put_cwp, return_psr}
use sparcv8emulator.Cpu.Windows.{InWindow, put_cwp-cwp, write_reg-cwp_base}
use sparcv8emulator.Cpu.Registers.{read_reg-write_reg}
use sparcv8emulator.Cpu.Cycle.{localreg1, localreg2, trapped_psr, saved_counters, enter_trap}

-- The window field takes the low five bits, and leaves the others.
pub testbit-put_cwp :
    (cwp psr i : ℕ)
    → cwp < 8
    → i < 32
    → testbit (put_cwp cwp psr) i ≡ (if ltb i 5 then testbit cwp i else testbit psr i)
unfolding put_cwp
testbit-put_cwp cwp psr i small lt =
    testbit-or (bit_and psr (not32 0x1f)) (bit_and cwp 0x1f) i
    ∙ rw
        (
          testbit-and psr (not32 0x1f) i,
          testbit-and cwp 0x1f i,
          testbit-complement 32 0x1f i (omega arith) lt,
          testbit-ones 5 i,
        )
        (select (testbit psr i) (testbit cwp i) (ltb i 5))

-- The window below, modulo their number.
abbrev pub below : ℕ → ℕ
below w = (w + 7) % 8

pub testbit-trapped_psr :
    (w psr i : ℕ)
    → w < 8
    → bit_and psr 0x1f ≡ w
    → i < 32
    → testbit (trapped_psr psr) i ≡ (
        if ltb i 5
        then testbit (below w) i
        else if i == 7
        then true
        else if i == 6
        then testbit psr 7
        else if i == 5
        then false
        else testbit psr i)
unfolding trapped_psr
testbit-trapped_psr w psr i small e lt =
    let new : bit_and (sub32 w 1) 0x1f % 8 ≡ below w = omega (arith, bit_and-mod 5 (sub32 w 1)) in
    let p5 = set_cc 5 false psr in
    let p6 = set_cc 6 (testbit psr 7) p5 in
    rw (e, new)
      (testbit-put_cwp (below w) (set_cc 7 true p6) i (omega arith) lt
        ∙ rw
            (
              testbit-set_cc 7 i true p6 (omega arith) lt,
              testbit-set_cc 6 i (testbit psr 7) p5 (omega arith) lt,
              testbit-set_cc 5 i false psr (omega arith) lt,
            )
            refl)

supervisor_bit : (b : Bool) → (if b then 2 ^ 7 else 0) ≡ bit b * 2 ^ 7
unfolding bit
supervisor_bit true = refl
supervisor_bit false = refl

or_test : (x c : Bool) → (x || c) ≡ (if c then true else x)
or_test true true = refl
or_test true false = refl
or_test false true = refl
or_test false false = refl

testbit-return_psr :
    (w psr i : ℕ)
    → w < 8
    → i < 32
    → testbit (return_psr w psr) i ≡ (
        if ltb i 5
        then testbit w i
        else if i == 5
        then true
        else if i == 7
        then testbit psr 6
        else testbit psr i)
unfolding return_psr set_cc bit
testbit-return_psr w psr i small lt =
    let s = bit_or (bit_and psr (not32 (2 ^ 7))) (if testbit psr 6 then 2 ^ 7 else 0) in
    let bits_s : testbit s i ≡ (if i == 7 then testbit psr 6 else testbit psr i) =
      rw (supervisor_bit (testbit psr 6))
        (testbit-set_cc 7 i (testbit psr 6) psr (omega arith) lt) in
    testbit-put_cwp w (bit_or s (2 ^ 5)) i small lt
    ∙ rw
        (
          testbit-or s (2 ^ 5) i,
          bits_s,
          testbit-pow 5 i,
          or_test (if i == 7 then testbit psr 6 else testbit psr i) (i == 5),
        )
        refl

and_true : (b : Bool) → (b && true) ≡ b
and_true true = refl
and_true false = refl

window_bit : (w psr i : ℕ) → bit_and psr 0x1f ≡ w → i < 5 → testbit w i ≡ testbit psr i
window_bit w psr i e lt =
    let low : ltb i 5 ≡ true = ground arith in
    rw (← e) (testbit-and psr 0x1f i ∙ rw (testbit-ones 5 i, low) (and_true (testbit psr i)))

-- `RETT` in the handler undoes the entry, for every bit of the status register but the previous
-- supervisor mode.
pub return-trapped_psr :
    (w psr i : ℕ)
    → w < 8
    → bit_and psr 0x1f ≡ w
    → testbit psr 5 ≡ true
    → i < 32
    → i ≢ 6
    → testbit (return_psr w (trapped_psr psr)) i ≡ testbit psr i
return-trapped_psr w psr i small e et lt not_ps =
    let t = trapped_psr psr in
    let bits = testbit-return_psr w t i small lt in
    let kept = testbit-trapped_psr w psr i small e lt in
    let old_s = testbit-trapped_psr w psr 6 small e (omega arith) in
    elim (Bool-cases (ltb i 5)) [
      | inl low ↦ (simp low at bits) ∙ window_bit w psr i e (ground (arith, low))
      | inr high ↦ elim (Bool-cases (i == 5)) [
        | inl is5 ↦ (simp (high, is5) at bits) ∙ sym (ap (testbit psr) ((==_iff i 5).0 is5) ∙ et)
        | inr n5 ↦ elim (Bool-cases (i == 7)) [
          | inl is7 ↦
              (simp (high, n5, is7) at bits) ∙ old_s ∙ sym (ap (testbit psr) ((==_iff i 7).0 is7))
          | inr n7 ↦
              let n6 : (i == 6) ≡ false = ground (arith, not_ps) in
              (simp (high, n5, n7) at bits) ∙ (simp (high, n5, n6, n7) at kept)
        ]
      ]
    ]

write_reg_g0 : (v r : ℕ) (s : Cpu) → s.globals 0 ≡ 0 → (write_reg v r s).globals 0 ≡ 0
unfolding write_reg
write_reg_g0 v r s z = ground (arith, z)

-- The handler's view: it runs in the window below as supervisor with traps disabled, the previous
-- mode is kept, and locals 1 and 2 hold the counters of the interrupted program.
pub record Entered (w : ℕ) (s t : Cpu) : Type 0 where
  pub window : InWindow (below w) t
  pub counter : read_reg localreg1 t ≡ some s.pc
  pub next_counter : read_reg localreg2 t ≡ some s.npc
  pub disabled : testbit t.psr 5 ≡ false
  pub previous : testbit t.psr 6 ≡ testbit s.psr 7
  pub privileged : testbit t.psr 7 ≡ true

InWindow-write_reg : (w v r : ℕ) (s : Cpu) → InWindow w s → InWindow w (write_reg v r s)
InWindow-write_reg w v r s i = record {
  small = i.small;
  cached = write_reg-cwp_base v r s ∙ i.cached;
}

write_reg-psr : (v r : ℕ) (s : Cpu) → (write_reg v r s).psr ≡ s.psr
unfolding write_reg
write_reg-psr v r s = ground arith

pub trapped_psr_window :
    (w psr : ℕ) → w < 8 → bit_and psr 0x1f ≡ w → bit_and (trapped_psr psr) 0x1f ≡ below w
unfolding trapped_psr
trapped_psr_window w psr small e =
    let new : bit_and (sub32 w 1) 0x1f % 8 ≡ below w = omega (arith, bit_and-mod 5 (sub32 w 1)) in
    rw (e, new)
      (put_cwp-cwp (below w) (set_cc 7 true (set_cc 6 (testbit psr 7) (set_cc 5 false psr)))
        (omega arith))

pub saved_counters-psr : (s : Cpu) → (saved_counters s).psr ≡ trapped_psr s.psr
unfolding saved_counters update_cwp_bases
saved_counters-psr s =
    let t = update_cwp_bases (record s { psr = trapped_psr s.psr }) in
    write_reg-psr t.npc localreg2 (write_reg t.pc localreg1 t) ∙ write_reg-psr t.pc localreg1 t

saved_counters-Entered :
    (w : ℕ) (s : Cpu)
    → w < 8
    → bit_and s.psr 0x1f ≡ w
    → s.globals 0 ≡ 0
    → Entered w s (saved_counters s)
unfolding saved_counters update_cwp_bases
saved_counters-Entered w s small e z =
    let t = update_cwp_bases (record s { psr = trapped_psr s.psr }) in
    let u = write_reg t.pc localreg1 t in
    let in_t : InWindow (below w) t = record {
      small = omega arith;
      cached = ap (λ (k : ℕ). k * 8) (trapped_psr_window w s.psr small e);
    } in
    let in_u : InWindow (below w) u = InWindow-write_reg (below w) t.pc localreg1 t in_t in
    let bits : (i : ℕ) → testbit (saved_counters s).psr i ≡ testbit (trapped_psr s.psr) i =
      λ i. ap (λ (k : ℕ). testbit k i) (saved_counters-psr s) in
    record {
      window = InWindow-write_reg (below w) t.npc localreg2 u in_u;
      counter =
          read_reg-write_reg (below w) localreg1 localreg2 t.npc u in_u
            (write_reg_g0 t.pc localreg1 t z) (omega arith) (omega arith)
          ∙ read_reg-write_reg (below w) localreg1 localreg1 t.pc t in_t z (omega arith)
              (omega arith);
      next_counter =
          read_reg-write_reg (below w) localreg2 localreg2 t.npc u in_u
            (write_reg_g0 t.pc localreg1 t z) (omega arith) (omega arith);
      disabled = bits 5 ∙ testbit-trapped_psr w s.psr 5 small e (omega arith);
      previous = bits 6 ∙ testbit-trapped_psr w s.psr 6 small e (omega arith);
      privileged = bits 7 ∙ testbit-trapped_psr w s.psr 7 small e (omega arith);
    }

-- A trap that waits enters its handler, from any window and with the traps enabled or not.
pub enter_trap-Entered :
    (w : ℕ) (s : Cpu)
    → w < 8
    → bit_and s.psr 0x1f ≡ w
    → s.globals 0 ≡ 0
    → s.trap_type ≢ 0
    → Entered w s (enter_trap s)
unfolding enter_trap read_reg
enter_trap-Entered w s small e z waits =
    let t = saved_counters-Entered w s small e z in
    let some_trap : (s.trap_type == 0) ≡ false = ground (arith, waits) in
    simp some_trap (record {
      window = record { small = t.window.small; cached = t.window.cached };
      counter = t.counter;
      next_counter = t.next_counter;
      disabled = t.disabled;
      previous = t.previous;
      privileged = t.privileged;
    })
