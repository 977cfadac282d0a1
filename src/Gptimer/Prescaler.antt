-- ===== src/Gptimer/Prescaler.antt =====
-- src/peripherals/GPTIMER.h: the closed form of the prescaler in `advance_unlocked` against one
-- bus clock at a time.
use native.Mathlib.Nat.{div-eq_of_lt, mod-eq_of_lt, div-eq-sub-div, mod-eq-sub-mod}
use sparcv8emulator.Base.{
  ℕ, zero, suc, ◌+◌, ◌-◌, ◌/◌, ◌%◌, ◌^◌, ◌≤◌, ◌<◌, ◌≡◌, ◌∙◌, sym, inl, inr, false, if◌then◌else◌,
  leb, ◌==◌, Bool-cases, u32, arith,
}
use sparcv8emulator.Gptimer.Ops.{Prescaled, whole_periods, prescaled}

-- `n` bus clocks, one at a time: the count of prescaler ticks and the prescaler at the end.
unfoldable pub clock_by_clock : ℕ → ℕ → ℕ → Prescaled
clock_by_clock sreload zero s = record { ticks = 0; scaler = s }
clock_by_clock sreload (suc n) s =
    let p = clock_by_clock sreload n (if s == 0 then sreload else s - 1) in
    record p { ticks = if s == 0 then suc p.ticks else p.ticks }

module _ (sreload : ℕ) where
  clock_running : (n s : ℕ) → clock_by_clock sreload (suc n) (suc s) ≡ clock_by_clock sreload n s
  unfolding clock_by_clock
  clock_running n s =
      let nonzero : (suc s == 0) ≡ false = ground arith in
      let less : suc s - 1 ≡ s = omega arith in rw (nonzero, less) (ground arith)

  within_period :
      (n s : ℕ) → n ≤ s → clock_by_clock sreload n s ≡ record { ticks = 0; scaler = s - n }
  unfolding clock_by_clock
  within_period zero s le = ground arith
  within_period (suc n) s le = ground (arith, within_period n (s - 1))

  past_period :
      (s n : ℕ)
      → s < n
      → clock_by_clock sreload n s
        ≡ (let p = clock_by_clock sreload (n - (s + 1)) sreload in record p { ticks = 1 + p.ticks })
  unfolding clock_by_clock
  past_period s zero lt = absurd (omega arith)
  past_period zero (suc n) lt = let e : suc n - 1 ≡ n = omega arith in rw e (ground arith)
  past_period (suc s) (suc n) lt =
      let e : suc n - (suc s + 1) ≡ n - (s + 1) = omega arith in
      clock_running n s ∙ rw e (past_period s n (omega arith))

  past :
      (s n rest : ℕ)
      → s < n
      → n - (s + 1) ≡ rest
      → clock_by_clock sreload n s
        ≡ (let p = clock_by_clock sreload rest sreload in record p { ticks = 1 + p.ticks })
  past s n rest lt e = rw (← e) (past_period s n lt)

  full_periods :
      (k n : ℕ)
      → n < k
      → clock_by_clock sreload n sreload
        ≡ record { ticks = n / (sreload + 1); scaler = sreload - n % (sreload + 1) }
  full_periods zero n lt = absurd (omega arith)
  full_periods (suc k) n lt = elim (Bool-cases (leb n sreload)) [
    | inl le ↦
        rw
          (
            div-eq_of_lt {n = n} {m = sreload + 1} (ground arith),
            mod-eq_of_lt {n = n} {m = sreload + 1} (ground arith),
          )
          (within_period n sreload (ground arith))
    | inr more ↦
        rw
          (
            div-eq-sub-div {m = sreload + 1} {n = n} (omega arith) (ground arith),
            mod-eq-sub-mod {n = n} {m = sreload + 1} (ground arith),
          )
          (ground (arith, past_period sreload n, full_periods k (n - (sreload + 1)) (ground arith)))
  ]

  after_first :
      (n ticks s : ℕ)
      → whole_periods sreload n ticks sreload
        ≡ (let p = clock_by_clock sreload n sreload in record p { ticks = ticks + p.ticks })
  unfolding whole_periods
  after_first n ticks s = ground (arith, full_periods (suc n) n)

  -- The closed form of `advance_unlocked` agrees with clocking the prescaler `n` times, for any
  -- words `n` above 0 and `s`.
  pub prescaled-clock_by_clock :
      (n s : ℕ)
      → 0 < n
      → n < 2 ^ 32
      → s < 2 ^ 32
      → prescaled sreload n s ≡ clock_by_clock sreload n s
  unfolding prescaled whole_periods
  prescaled-clock_by_clock n s pos nl sl = elim (Bool-cases (s == 0)) [
    | inl z ↦ rw z (after_first (n - 1) 1 s ∙ sym (past s n (n - 1) (ground arith) (ground arith)))
    | inr nz ↦ elim (Bool-cases (leb n s)) [
      | inl le ↦ rw (nz, le, whole_periods) (sym (within_period n s (ground arith)))
      | inr gt ↦
          rw (nz, gt)
            (after_first (n - u32 (s + 1)) 1 s
              ∙ sym (past s n (n - u32 (s + 1)) (ground arith) (ground arith)))
    ]
  ]
