-- ===== src/Irqmp/Tests.antt =====
-- Tests of the interrupt controller on two CPUs, and its theorems at concrete inputs.
use sparcv8emulator.Base.{
  ℕ, ◌%◌, ◌^◌, ◌<◌, ◌≡◌, refl, true, false, not, ◌&&◌, ◌||◌, if◌then◌else◌, ltb, ◌==◌, testbit,
  bit_or, List, [], ◌∷◌, arith,
}
use sparcv8emulator.Irqmp.Ops.{
  Irqmp, done, ◌>>=◌, construct, highest_level, hint_of, update_hints, trigger_irq, clear_irq,
  get_irq_hint, write_mpstat,
}
use sparcv8emulator.Irqmp.Scan.{HintSpec, IsHighest, hint_of_not-IsHighest, highest_level-IsHighest}
use sparcv8emulator.Irqmp.Hints.{
  Holds, Call, triggers, clears, writes, attaches, run, construct-run-HintSpec,
}
use sparcv8emulator.Irqmp.Deliver.{IsDelivered, trigger_irq-IsDelivered}
use sparcv8emulator.Irqmp.Clear.{clear_irq-bits}
use sparcv8emulator.Irqmp.Power.{write_mpstat_lem}

-- Two attached CPUs; CPU 0 unmasks levels 1 to 15, CPU 1 none. Level 3 is forced on CPU 0 and level
-- 14 pending.
abbrev busy : Irqmp
busy = record {
  ilevel = 0;
  ipend = 0x4000;
  iforce = 0;
  iclear = 0;
  mpstat = 0x1800fffe;
  brdcst = 0;
  errstat = 0;
  ampctrl = 0;
  piforce = λ i. if i == 0 then 8 else 0;
  pimask = λ i. if i == 0 then 0xfffe else 0;
  num_cpus = 2;
  num_active_cpus = 1;
  irq_hint = λ i. 0;
  cpu_ptrs = λ i. true;
  woken = λ i. false;
}

forced_wins : hint_of busy 0 ≡ 3
unfolding hint_of highest_level testbit
forced_wins = refl

acknowledged : hint_of (clear_irq 3 0 busy) 0 ≡ 14
unfolding clear_irq update_hints hint_of highest_level testbit
acknowledged = refl

abbrev boot : List Call
boot = attaches 0 ∷ attaches 1 ∷ writes 0x40 0xfffe ∷ triggers 8 ∷ clears 8 0 ∷ triggers 11 ∷ []

construct-run-HintSpec_example :
    Holds
      (λ s. (c : ℕ) → c < s.num_cpus → c < 8 → HintSpec s c (get_irq_hint c s))
      (construct 2 >>= run boot)
construct-run-HintSpec_example = construct-run-HintSpec 2 boot

level_3_forced : IsHighest 15 8 0xfffe 3
unfolding highest_level testbit
level_3_forced = highest_level-IsHighest 15 8 0xfffe

level_14_pending : testbit 0x4000 14 && testbit 0xfffe 14 ≡ true
unfolding testbit
level_14_pending = refl

hint_of_not-IsHighest_example :
    (hint_of busy 0 ≡ 3) × ¬ IsHighest 15 (bit_or 8 0x4000) 0xfffe (hint_of busy 0)
hint_of_not-IsHighest_example =
    hint_of_not-IsHighest busy 0 3 14 (omega arith) level_3_forced (omega arith) (omega arith)
      level_14_pending

trigger_irq-IsDelivered_example :
    (t : Irqmp) × (trigger_irq 8 busy ≡ done t) × IsDelivered (8 % 16) busy t
trigger_irq-IsDelivered_example = trigger_irq-IsDelivered 8 busy (λ c lt. refl)

clear_irq-bits_example :
    ((c : ℕ)
      → testbit ((clear_irq 3 0 busy).piforce c) 14
        ≡ (testbit (busy.piforce c) 14 && not ((c == 0 % 8) && (14 == 3 % 16))))
    × (testbit (clear_irq 3 0 busy).ipend 14 ≡ (
        testbit 0x4000 14 && not (not (testbit (busy.piforce (0 % 8)) (3 % 16)) && (14 == 3 % 16))))
    × ((clear_irq 3 0 busy).pimask ≡ busy.pimask)
clear_irq-bits_example = clear_irq-bits 3 0 busy 14 (omega arith)

write_mpstat_lem_example :
    let up = ltb 1 2 && (testbit (2 % 2 ^ 16) 1 && true) in
    let t = write_mpstat 2 busy in
    (testbit t.mpstat 1 ≡ (testbit 0x1800fffe 1 && not up))
    × (t.woken 1 ≡ (up && testbit 0x1800fffe 1 || false))
write_mpstat_lem_example = write_mpstat_lem 2 busy 1 (omega arith) (omega arith)
