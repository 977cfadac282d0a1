-- ===== src/Gptimer/OneShot.antt =====
-- src/peripherals/GPTIMER.h: a timer that does not restart, in `advance_unlocked` and in `Tick`.
use sparcv8emulator.Base.{
  ℕ, zero, suc, ◌+◌, ◌-◌, ◌^◌, ◌≤◌, ◌<◌, ◌≡◌, refl, ◌∙◌, ap, Bool, true, false, ◌==◌, testbit,
  testbit-or, testbit-pow, testbit-clear, bit_and, not32, arith,
}
use sparcv8emulator.Gptimer.Ops.{
  Timer, is_enabled, clear_pending, signal, tick_timer, tick_enabled, tick_times, advance_timer,
}

-- Prescaler ticks as `Tick` gives them: each only if the timer is still enabled.
abbrev pub guarded_ticks : ℕ → Timer → Timer
guarded_ticks zero t = t
guarded_ticks (suc p) t = guarded_ticks p (tick_enabled t)

abbrev expired : Timer → Timer
expired t = record t { tctrl = bit_and (signal t.tctrl) (not32 (2 ^ 0)); tcntval = 2 ^ 32 - 1 }

expired_off : (t : Timer) → is_enabled (expired t) ≡ false
unfolding is_enabled
expired_off t = ground (arith, testbit-clear (signal t.tctrl) 0 0 (omega arith) (omega arith))

same_ctrl : (t : Timer) (v : ℕ) → is_enabled (record t { tcntval = v }) ≡ is_enabled t
unfolding is_enabled
same_ctrl t v = refl

cleared_enabled : (t : Timer) → is_enabled (clear_pending t) ≡ is_enabled t
unfolding is_enabled clear_pending
cleared_enabled t = ground (arith, testbit-clear t.tctrl 4 0 (omega arith) (omega arith))

cleared_counter : (t : Timer) → (clear_pending t).tcntval ≡ t.tcntval
unfolding clear_pending
cleared_counter t = refl

settled :
    (p : ℕ) (clear : Bool) (t : Timer)
    → is_enabled t ≡ true
    → ((advance_timer p clear t).0.tcntval ≡ (tick_times p t).tcntval)
      × (is_enabled (advance_timer p clear t).0 ≡ is_enabled (tick_times p t))
unfolding advance_timer
settled p clear t on =
    ground (arith, cleared_enabled (tick_times p t), cleared_counter (tick_times p t))

counts_down :
    (p : ℕ) (t : Timer) → p ≤ t.tcntval → tick_times p t ≡ record t { tcntval = t.tcntval - p }
unfolding tick_times tick_timer
counts_down zero t le = ground arith
counts_down (suc p) t le =
    let running : (t.tcntval == 0) ≡ false = ground arith in
    rw running (counts_down p (record t { tcntval = t.tcntval - 1 }) (omega arith) ∙ ground arith)

expires : (t : Timer) → t.tcntval ≡ 0 → testbit t.tctrl 1 ≡ false → tick_timer t ≡ expired t
unfolding tick_timer signal
expires t z once = ground (arith, testbit-or t.tctrl (2 ^ 4) 1, testbit-pow 4 1)

-- After the expiry the unguarded loop goes on counting down from the largest word.
runs : (t : Timer) (v : ℕ) → t.tcntval ≡ suc v → tick_timer t ≡ record t { tcntval = v }
unfolding tick_timer
runs t v e = ground arith

overruns :
    (p v : ℕ) (t : Timer)
    → t.tcntval ≡ v
    → testbit t.tctrl 1 ≡ false
    → v < p
    → p ≤ v + 2 ^ 32
    → tick_times p t ≡ record (expired t) { tcntval = 2 ^ 32 - (p - v) }
unfolding tick_times
overruns zero v t e once lt le = absurd (omega arith)
overruns (suc p) zero t e once lt le =
    ap (tick_times p) (expires t e once) ∙ counts_down p (expired t) (omega arith) ∙ ground arith
overruns (suc p) (suc v) t e once lt le =
    ap (tick_times p) (runs t v e)
    ∙ overruns p v (record t { tcntval = v }) refl once (omega arith) (omega arith)
    ∙ ground arith

stays : (p : ℕ) (t : Timer) → is_enabled t ≡ false → guarded_ticks p t ≡ t
unfolding tick_enabled
stays zero t off = refl
stays (suc p) t off = rw off (stays p t off)

stops :
    (p v : ℕ) (t : Timer)
    → t.tcntval ≡ v
    → is_enabled t ≡ true
    → testbit t.tctrl 1 ≡ false
    → v < p
    → guarded_ticks p t ≡ expired t
unfolding tick_enabled
stops zero v t e on once lt = absurd (omega arith)
stops (suc p) zero t e on once lt = rw (on, expires t e once) (stays p (expired t) (expired_off t))
stops (suc p) (suc v) t e on once lt =
    rw (on, runs t v e)
      (stops p v (record t { tcntval = v }) refl (same_ctrl t v ∙ on) once (omega arith))

-- A timer that is enabled and does not restart, with `p` prescaler ticks due where its counter is
-- below `p`. Guarded ticks, as `Tick` gives them, stop it at the largest word and disable it. The
-- loop of `advance_unlocked` disables it too, but has gone on counting down, to 2^32 less the ticks
-- since the counter was 0.
pub advance_timer_overruns :
    (p : ℕ) (clear : Bool) (t : Timer)
    → is_enabled t ≡ true
    → testbit t.tctrl 1 ≡ false
    → t.tcntval < p
    → p ≤ t.tcntval + 2 ^ 32
    → ((guarded_ticks p t).tcntval ≡ 2 ^ 32 - 1)
      × (is_enabled (guarded_ticks p t) ≡ false)
      × ((advance_timer p clear t).0.tcntval ≡ 2 ^ 32 - (p - t.tcntval))
      × (is_enabled (advance_timer p clear t).0 ≡ false)
advance_timer_overruns p clear t on once lt le =
    let stopped = stops p t.tcntval t refl on once lt in
    let ran = overruns p t.tcntval t refl once lt le in
    (
      ap (λ (u : Timer). u.tcntval) stopped,
      ap is_enabled stopped ∙ expired_off t,
      (settled p clear t on).0 ∙ ap (λ (u : Timer). u.tcntval) ran,
      (settled p clear t on).1
          ∙ ap is_enabled ran
          ∙ same_ctrl (expired t) (2 ^ 32 - (p - t.tcntval))
          ∙ expired_off t,
    )
