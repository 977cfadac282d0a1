-- ===== src/Irqmp/Clear.antt =====
-- src/peripherals/IRQMP.cpp: acknowledging a level, powering CPUs up, and the mask registers.
use sparcv8emulator.Base.{
  ℕ, ◌%◌, ◌^◌, ◌<◌, ◌≡◌, refl, ap, inl, inr, false, not, ◌&&◌, ◌==◌, Bool-cases, testbit,
  testbit-clear, update, bit_and, not32, arith,
}
use sparcv8emulator.Irqmp.Ops.{Irqmp, update_hints, clear_irq}

-- Acknowledging level `irl` on CPU `cpu` clears one bit: the CPU's force bit where it is set, or
-- else the pending bit. Every other bit of the force and pending registers stays, as do the masks.
pub clear_irq-bits :
    (level cpu_id : ℕ) (s : Irqmp) (i : ℕ)
    → i < 32
    → let irl = level % 16 in
      let cpu = cpu_id % 8 in
      let t = clear_irq level cpu_id s in
      ((c : ℕ)
        → testbit (t.piforce c) i ≡ (testbit (s.piforce c) i && not ((c == cpu) && (i == irl))))
      × (testbit t.ipend i
          ≡ (testbit s.ipend i && not (not (testbit (s.piforce cpu) irl) && (i == irl))))
      × (t.pimask ≡ s.pimask)
unfolding clear_irq update_hints
clear_irq-bits level cpu_id s i lt = elim (Bool-cases (testbit (s.piforce cpu) irl)) [
  | inl hit ↦ rw hit (λ c. forced_bit c, ground arith, refl)
  | inr miss ↦ rw miss (λ c. kept_bit c miss, cleared s.ipend, refl)
]
  where
    irl : ℕ
    irl = level % 16

    cpu : ℕ
    cpu = cpu_id % 8

    cleared : (a : ℕ) → testbit (bit_and a (not32 (2 ^ irl))) i ≡ (testbit a i && not (i == irl))
    cleared a = testbit-clear a irl i (omega arith) lt

    forced_bit :
        (c : ℕ)
        → testbit (update s.piforce cpu (bit_and (s.piforce cpu) (not32 (2 ^ irl))) c) i
          ≡ (testbit (s.piforce c) i && not ((c == cpu) && (i == irl)))
    forced_bit c = elim (Bool-cases (c == cpu)) [
      | inl e ↦ let e' : c ≡ cpu = ground arith in rw (e, ap s.piforce e') (cleared (s.piforce cpu))
      | inr ne ↦ rw ne (ground arith)
    ]

    kept_bit :
        (c : ℕ)
        → testbit (s.piforce cpu) irl ≡ false
        → testbit (s.piforce c) i ≡ (testbit (s.piforce c) i && not ((c == cpu) && (i == irl)))
    kept_bit c miss = elim (Bool-cases ((c == cpu) && (i == irl))) [
      | inl e ↦
          let at_cpu : c ≡ cpu = ground arith in
          let at_irl : i ≡ irl = ground arith in rw (e, at_irl, ap s.piforce at_cpu, miss) refl
      | inr ne ↦ rw ne (ground arith)
    ]
