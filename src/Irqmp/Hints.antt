-- ===== src/Irqmp/Hints.antt =====
-- src/peripherals/IRQMP.cpp: the lock-free hints agree with the registers after every call.
use sparcv8emulator.Base.{
  ℕ, zero, suc, ◌+◌, ◌-◌, ◌/◌, ◌%◌, ◌^◌, ◌<◌, ◌≡◌, refl, ◌∙◌, sym, ap, subst, inl, inr, Bool, true,
  false, ◌&&◌, if◌then◌else◌, ltb, leb, ◌==◌, Bool-cases, testbit, testbit-zero, update, bit_and,
  arith, List, [], ◌∷◌,
}
use sparcv8emulator.Irqmp.Ops.{
  Irqmp, Outcome, done, threw, null_call, ◌>>=◌, hint_of, hints_loop, update_hints, wakeup, reset,
  construct, set_cpu_ptr, highest_level, wake_loop, post_irq, trigger_irq, clear_irq, write_mask,
  write_force, power_up, power_up_loop, write_mpstat, write, cold, get_irq_hint,
}
use sparcv8emulator.Irqmp.Scan.{HintSpec, hint_of-HintSpec}

pub hints_loop_lem :
    (s : Irqmp) (left c : ℕ) (hints : ℕ → ℕ) (j : ℕ)
    → hints_loop s left c hints j ≡ (if leb c j && ltb j (c + left) then hint_of s j else hints j)
unfolding hints_loop
hints_loop_lem s zero c hints j = ground arith
hints_loop_lem s (suc left) c hints j =
    hints_loop_lem s left (suc c) (update hints c (hint_of s c)) j ∙ elim (Bool-cases (j == c)) [
      | inl e ↦ let e' : j ≡ c = ground arith in rw e' (ground arith)
      | inr ne ↦ ground arith
    ]

-- Every CPU's hint is what the registers say.
abbrev pub HintsOk : Irqmp → Type 0
HintsOk s = (c : ℕ) → c < s.num_cpus → s.irq_hint c ≡ hint_of s c

pub update_hints-HintsOk : (s : Irqmp) → HintsOk (update_hints s)
unfolding update_hints hint_of
update_hints-HintsOk s c lt = hints_loop_lem s s.num_cpus 0 s.irq_hint c ∙ ground arith

pub hint-update_hints :
    (s : Irqmp) (c : ℕ) → c < s.num_cpus → (update_hints s).irq_hint c ≡ hint_of s c
unfolding update_hints
hint-update_hints s c lt = hints_loop_lem s s.num_cpus 0 s.irq_hint c ∙ ground arith

-- What holds of the state that a call returns.
abbrev pub Holds : (Irqmp → Type 0) → Outcome → Type 0
Holds P (done s) = P s
Holds P threw = Unit
Holds P null_call = Unit

pub Holds-bind :
    (P Q : Irqmp → Type 0) (o : Outcome) (k : Irqmp → Outcome)
    → Holds P o
    → ((s : Irqmp) → P s → Holds Q (k s))
    → Holds Q (o >>= k)
Holds-bind P Q (done s) k h f = f s h
Holds-bind P Q threw k h f = tt
Holds-bind P Q null_call k h f = tt

pub Holds-map :
    (P Q : Irqmp → Type 0) → ((s : Irqmp) → P s → Q s) → (o : Outcome) → Holds P o → Holds Q o
Holds-map P Q f (done s) h = f s h
Holds-map P Q f threw h = tt
Holds-map P Q f null_call h = tt

pub Holds-if :
    (P : Irqmp → Type 0) (b : Bool) (x y : Outcome)
    → (b ≡ true → Holds P x)
    → (b ≡ false → Holds P y)
    → Holds P (if b then x else y)
Holds-if P true x y f g = f refl
Holds-if P false x y f g = g refl

wakeup-HintsOk : (i : ℕ) (s : Irqmp) → HintsOk s → Holds HintsOk (wakeup i s)
unfolding wakeup hint_of
wakeup-HintsOk i s h = Holds-if HintsOk (s.cpu_ptrs i) _ _ (λ e. h) (λ e. tt)

wake_loop-HintsOk :
    (irl left i : ℕ) (s : Irqmp) → HintsOk s → Holds HintsOk (wake_loop irl left i s)
unfolding wake_loop
wake_loop-HintsOk irl zero i s h = h
wake_loop-HintsOk irl (suc left) i s h =
    Holds-bind HintsOk HintsOk (if testbit (s.pimask i) irl then wakeup i s else done s)
      (wake_loop irl left (suc i)) first (λ t ok. wake_loop-HintsOk irl left (suc i) t ok)
  where
    first : Holds HintsOk (if testbit (s.pimask i) irl then wakeup i s else done s)
    first = Holds-if HintsOk (testbit (s.pimask i) irl) _ _ (λ e. wakeup-HintsOk i s h) (λ e. h)

power_up-HintsOk : (val i : ℕ) (s : Irqmp) → HintsOk s → HintsOk (power_up val i s)
unfolding power_up hint_of
power_up-HintsOk val i s h =
    elim (Bool-cases (testbit val i && testbit s.mpstat i && s.cpu_ptrs i)) [
      | inl e ↦ rw e h
      | inr e ↦ rw e h
    ]

power_up_loop-HintsOk :
    (val left i : ℕ) (s : Irqmp) → HintsOk s → HintsOk (power_up_loop val left i s)
unfolding power_up_loop
power_up_loop-HintsOk val zero i s h = h
power_up_loop-HintsOk val (suc left) i s h =
    power_up_loop-HintsOk val left (suc i) (power_up val i s) (power_up-HintsOk val i s h)

write_force-HintsOk : (n value : ℕ) (s : Irqmp) → Holds HintsOk (write_force n value s)
unfolding write_force update_hints
write_force-HintsOk n value s =
    Holds-if HintsOk (bit_and value (s.pimask n) == 0) _ _ (λ e. update_hints-HintsOk _)
      (λ e. wakeup-HintsOk n _ (update_hints-HintsOk _))

trigger_irq-HintsOk : (level : ℕ) (s : Irqmp) → Holds HintsOk (trigger_irq level s)
unfolding trigger_irq
trigger_irq-HintsOk level s =
    wake_loop-HintsOk (level % 16) _ 0 _ (update_hints-HintsOk (post_irq (level % 16) s))

highest_level_masked : (n req : ℕ) → highest_level n req 0 ≡ 0
unfolding highest_level
highest_level_masked zero req = refl
highest_level_masked (suc n) req = ground (arith, testbit-zero (suc n), highest_level_masked n req)

reset-HintsOk : (s : Irqmp) → Holds HintsOk (reset s)
unfolding reset hint_of
reset-HintsOk s =
    Holds-if HintsOk (ltb 8 s.num_cpus) _ _ (λ e. tt)
      λ e c lt. ground (arith, highest_level_masked 15 0, highest_level_masked 15 s.ipend)

write-HintsOk : (offset value : ℕ) (s : Irqmp) → HintsOk s → Holds HintsOk (write offset value s)
unfolding write write_mask write_mpstat hint_of
write-HintsOk offset value s h =
    cases (leb 0x40 offset && ltb offset 0x60) _ _ (λ e. update_hints-HintsOk _)
      λ e.
        cases (leb 0x80 offset && ltb offset 0xa0) _ _
          (λ e. write_force-HintsOk ((offset - 0x80) / 4) value s)
          λ e.
            cases (offset == 0x00) _ _ (λ e. h)
              λ e.
                cases (offset == 0x04) _ _ (λ e. update_hints-HintsOk _)
                  λ e.
                    cases (offset == 0x08) _ _ (λ e. update_hints-HintsOk _)
                      λ e.
                        cases (offset == 0x0c) _ _ (λ e. update_hints-HintsOk _)
                          λ e.
                            cases (offset == 0x10) _ _
                              (λ e. power_up_loop-HintsOk (value % 2 ^ 16) s.num_cpus 0 s h)
                              λ e.
                                cases (offset == 0x14) _ _ (λ e. h)
                                  λ e. cases (offset == 0x18) _ _ (λ e. h) λ e. tt
  where
    cases :
        (b : Bool) (x y : Outcome)
        → (b ≡ true → Holds HintsOk x)
        → (b ≡ false → Holds HintsOk y)
        → Holds HintsOk (if b then x else y)
    cases = Holds-if HintsOk

-- The calls that change the controller.
pub data Call : Type 0 where
  triggers : ℕ → Call
  clears : ℕ → ℕ → Call
  writes : ℕ → ℕ → Call
  attaches : ℕ → Call
  resets : Call

unfoldable pub step : Call → Irqmp → Outcome
step (triggers level) s = trigger_irq level s
step (clears level cpu) s = done (clear_irq level cpu s)
step (writes offset value) s = write offset value s
step (attaches id) s = set_cpu_ptr id s
step resets s = reset s

unfoldable pub run : List Call → Irqmp → Outcome
run [] s = done s
run (c ∷ cs) s = step c s >>= run cs

step-HintsOk : (c : Call) (s : Irqmp) → HintsOk s → Holds HintsOk (step c s)
unfolding step clear_irq set_cpu_ptr hint_of
step-HintsOk (triggers level) s h = trigger_irq-HintsOk level s
step-HintsOk (clears level cpu) s h = update_hints-HintsOk _
step-HintsOk (writes offset value) s h = write-HintsOk offset value s h
step-HintsOk (attaches id) s h = Holds-if HintsOk (leb s.num_cpus id) _ _ (λ e. tt) (λ e. h)
step-HintsOk resets s h = reset-HintsOk s

run-HintsOk : (cs : List Call) (s : Irqmp) → HintsOk s → Holds HintsOk (run cs s)
unfolding run
run-HintsOk [] s h = h
run-HintsOk (c ∷ cs) s h =
    Holds-bind HintsOk HintsOk (step c s) (run cs) (step-HintsOk c s h)
      (λ t ok. run-HintsOk cs t ok)

hint_read :
    (s : Irqmp) → HintsOk s → (c : ℕ) → c < s.num_cpus → c < 8 → HintSpec s c (get_irq_hint c s)
unfolding get_irq_hint
hint_read s ok c lt lt8 =
    let small : c % 8 ≡ c = omega arith in
    subst (HintSpec s c) (sym (ap s.irq_hint small ∙ ok c lt)) (hint_of-HintSpec s c)

-- After any calls since the construction with any number of CPUs, in every state that is reached,
-- the hint that a CPU reads is the highest level that is forced on it and unmasked, or with none
-- forced the highest that is pending and unmasked, or 0.
pub construct-run-HintSpec :
    (n : ℕ) (cs : List Call)
    → Holds
        (λ s. (c : ℕ) → c < s.num_cpus → c < 8 → HintSpec s c (get_irq_hint c s))
        (construct n >>= run cs)
unfolding construct
construct-run-HintSpec n cs = Holds-map _ _ hint_read (construct n >>= run cs) (
    Holds-bind HintsOk HintsOk (construct n) (run cs) (reset-HintsOk (cold n))
      (λ s ok. run-HintsOk cs s ok))
