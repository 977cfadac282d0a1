-- ===== src/Gptimer/Advance.antt =====
-- src/peripherals/GPTIMER.h: `advance_unlocked`, which jumps over many bus clocks, against `Tick`,
-- which makes one.
use sparcv8emulator.Base.{
  ℕ, zero, suc, ◌-◌, ◌%◌, ◌^◌, ◌<◌, ◌≡◌, refl, ◌∙◌, sym, ap, inl, inr, Bool, true, false, ◌&&◌,
  ◌||◌, if◌then◌else◌, ◌==◌, Bool-cases, testbit, testbit-or, testbit-pow, arith,
}
use sparcv8emulator.Gptimer.Ops.{
  Timer, Gptimer, is_enabled, pending, clear_pending, signal, tick_timer, tick_enabled, any_enabled,
  tick, tick_times, advance_timer, advance_unlocked,
}
use sparcv8emulator.Gptimer.Prescaler.{clock_by_clock, prescaled-clock_by_clock}

-- `n` bus clocks, each a call of `Tick`.
abbrev pub clocks : ℕ → Gptimer → Gptimer
clocks zero g = g
clocks (suc n) g = clocks n (tick g)

-- A timer that is enabled restarts by itself.
abbrev pub IsPeriodic : Timer → Type 0
IsPeriodic t = is_enabled t ≡ true → testbit t.tctrl 1 ≡ true

signal_bit : (ctrl i : ℕ) → i < 4 → testbit (signal ctrl) i ≡ testbit ctrl i
unfolding signal
signal_bit ctrl i lt = ground (arith, testbit-or ctrl (2 ^ 4) i, testbit-pow 4 i)

tick_timer-periodic :
    (t : Timer)
    → is_enabled t ≡ true
    → testbit t.tctrl 1 ≡ true
    → (is_enabled (tick_timer t) ≡ true) × (testbit (tick_timer t).tctrl 1 ≡ true)
unfolding tick_timer is_enabled
tick_timer-periodic t on restarts =
    ground (arith, signal_bit t.tctrl 0 (omega arith), signal_bit t.tctrl 1 (omega arith))

-- What `k` prescaler ticks make of a timer.
abbrev ticked : ℕ → Timer → Timer
ticked k t = if is_enabled t then tick_times k t else t

tick_enabled-IsPeriodic : (t : Timer) → IsPeriodic t → IsPeriodic (tick_enabled t)
unfolding tick_enabled
tick_enabled-IsPeriodic t p = elim (Bool-cases (is_enabled t)) [
  | inl on ↦ rw on (λ _. (tick_timer-periodic t on (p on)).1)
  | inr off ↦ rw off p
]

same_enabled : (t : Timer) → IsPeriodic t → is_enabled (tick_enabled t) ≡ is_enabled t
unfolding tick_enabled
same_enabled t p = elim (Bool-cases (is_enabled t)) [
  | inl on ↦ rw on ((tick_timer-periodic t on (p on)).0)
  | inr off ↦ rw off off
]

ticked-suc : (k : ℕ) (t : Timer) → IsPeriodic t → ticked k (tick_enabled t) ≡ ticked (suc k) t
unfolding tick_enabled tick_times
ticked-suc k t p = elim (Bool-cases (is_enabled t)) [
  | inl on ↦ rw on (rw ((tick_timer-periodic t on (p on)).0) refl)
  | inr off ↦ rw off (rw off refl)
]

still_enabled :
    (g : Gptimer)
    → any_enabled g ≡ true
    → IsPeriodic g.timer0
    → IsPeriodic g.timer1
    → (is_enabled (tick_enabled g.timer0) || is_enabled (tick_enabled g.timer1)) ≡ true
unfolding any_enabled
still_enabled g on p0 p1 = rw (same_enabled g.timer0 p0, same_enabled g.timer1 p1) on

ticked_zero : (t : Timer) → ticked 0 t ≡ t
unfolding tick_times
ticked_zero t = ground arith

tick-fires :
    (g : Gptimer)
    → any_enabled g ≡ true
    → g.scaler ≡ 0
    → tick g ≡ record g {
      timer0 = tick_enabled g.timer0;
      timer1 = tick_enabled g.timer1;
      scaler = g.sreload % 2 ^ 16;
    }
unfolding tick
tick-fires g on z = let z' : (g.scaler == 0) ≡ true = ground arith in rw (on, z') refl

tick-counts :
    (g : Gptimer)
    → any_enabled g ≡ true
    → (g.scaler == 0) ≡ false
    → tick g ≡ record g { scaler = g.scaler - 1 }
unfolding tick
tick-counts g on nz = rw (on, nz) refl

tick-idle : (g : Gptimer) → any_enabled g ≡ false → tick g ≡ g
unfolding tick
tick-idle g off = rw off refl

clocks-idle : (n : ℕ) (g : Gptimer) → any_enabled g ≡ false → clocks n g ≡ g
clocks-idle zero g off = refl
clocks-idle (suc n) g off = rw (tick-idle g off) (clocks-idle n g off)

-- Clocking periodic timers: the prescaler runs by itself, and the timers take its ticks.
clocks-ticked :
    (n : ℕ) (g : Gptimer)
    → any_enabled g ≡ true
    → IsPeriodic g.timer0
    → IsPeriodic g.timer1
    → clocks n g ≡ (
        let p = clock_by_clock (g.sreload % 2 ^ 16) n g.scaler in
        record g {
          scaler = p.scaler;
          timer0 = ticked p.ticks g.timer0;
          timer1 = ticked p.ticks g.timer1;
        })
unfolding clock_by_clock any_enabled
clocks-ticked zero g on p0 p1 = rw (ticked_zero g.timer0, ticked_zero g.timer1) refl
clocks-ticked (suc n) g on p0 p1 = elim (Bool-cases (g.scaler == 0)) [
  | inl z ↦
      let g' : Gptimer = record g {
        timer0 = tick_enabled g.timer0;
        timer1 = tick_enabled g.timer1;
        scaler = g.sreload % 2 ^ 16;
      } in
      ap (clocks n) (tick-fires g on (ground arith))
      ∙ clocks-ticked n g' (still_enabled g on p0 p1) (tick_enabled-IsPeriodic g.timer0 p0)
          (tick_enabled-IsPeriodic g.timer1 p1)
      ∙ rw (z, ticked-suc _ g.timer0 p0, ticked-suc _ g.timer1 p1) refl
  | inr nz ↦
      ap (clocks n) (tick-counts g on nz)
      ∙ clocks-ticked n (record g { scaler = g.scaler - 1 }) on p0 p1
      ∙ rw nz refl
]

-- The enabled timers' interrupts after the clocks, cleared if asked for.
abbrev pub acknowledged : Bool → Timer → Timer
acknowledged clear t = if clear && is_enabled t && pending t then clear_pending t else t

abbrev pub interrupts : Timer → Bool
interrupts t = is_enabled t && pending t

ticked-enabled : (k : ℕ) (t : Timer) → IsPeriodic t → is_enabled (ticked k t) ≡ is_enabled t
unfolding tick_times
ticked-enabled zero t p = ground arith
ticked-enabled (suc k) t p =
    ap is_enabled (sym (ticked-suc k t p))
    ∙ ticked-enabled k (tick_enabled t) (tick_enabled-IsPeriodic t p)
    ∙ same_enabled t p

advance_timer_lem :
    (k : ℕ) (clear : Bool) (t : Timer)
    → IsPeriodic t
    → ((advance_timer k clear t).0 ≡ acknowledged clear (ticked k t))
      × ((advance_timer k clear t).1 ≡ interrupts (ticked k t))
unfolding advance_timer
advance_timer_lem k clear t p = ground (arith, ticked-enabled k t p)

idle_acknowledged :
    (clear : Bool) (g : Gptimer)
    → any_enabled g ≡ false
    → (g ≡ record g { timer0 = acknowledged clear g.timer0; timer1 = acknowledged clear g.timer1 })
      × (false ≡ (interrupts g.timer0 || interrupts g.timer1))
unfolding any_enabled
idle_acknowledged clear g off = ground arith

-- Where the timers that are enabled restart by themselves, advancing by `n` bus clocks at once, for
-- a word `n` above 0, leaves the unit as `n` calls of `Tick` do, with the pending interrupts of the
-- enabled timers then cleared if that is asked for, and returns whether there was one.
pub advance_unlocked-clocks :
    (n : ℕ) (clear : Bool) (g : Gptimer)
    → 0 < n
    → n < 2 ^ 32
    → g.scaler < 2 ^ 32
    → IsPeriodic g.timer0
    → IsPeriodic g.timer1
    → let c = clocks n g in
      let r = advance_unlocked n clear g in
      (r.0
        ≡ record c { timer0 = acknowledged clear c.timer0; timer1 = acknowledged clear c.timer1 })
      × (r.1 ≡ (interrupts c.timer0 || interrupts c.timer1))
unfolding advance_unlocked
advance_unlocked-clocks n clear g pos nl sl p0 p1 = elim (Bool-cases (any_enabled g)) [
  | inl on ↦
      rw
        (
          nonzero,
          on,
          prescaled-clock_by_clock (g.sreload % 2 ^ 16) n g.scaler pos nl sl,
          clocks-ticked n g on p0 p1,
        )
        (rw (share0.0, share1.0) refl, rw (share0.1, share1.1) refl)
  | inr off ↦ rw (nonzero, off, clocks-idle n g off) (idle_acknowledged clear g off)
]
  where
    nonzero : (n == 0) ≡ false
    nonzero = ground arith

    taken : ℕ
    taken = (clock_by_clock (g.sreload % 2 ^ 16) n g.scaler).ticks

    share0 :
        ((advance_timer taken clear g.timer0).0 ≡ acknowledged clear (ticked taken g.timer0))
        × ((advance_timer taken clear g.timer0).1 ≡ interrupts (ticked taken g.timer0))
    share0 = advance_timer_lem taken clear g.timer0 p0

    share1 :
        ((advance_timer taken clear g.timer1).0 ≡ acknowledged clear (ticked taken g.timer1))
        × ((advance_timer taken clear g.timer1).1 ≡ interrupts (ticked taken g.timer1))
    share1 = advance_timer_lem taken clear g.timer1 p1
