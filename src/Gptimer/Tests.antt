-- ===== src/Gptimer/Tests.antt =====
-- Tests of the timer unit, and its theorems at concrete inputs.
use sparcv8emulator.Base.{
  ◌+◌, ◌-◌, ◌*◌, ◌^◌, ◌≡◌, refl, true, false, not, ◌&&◌, ◌||◌, if◌then◌else◌, ◌==◌, testbit, arith,
}
use sparcv8emulator.Gptimer.Ops.{
  Timer, Gptimer, is_enabled, pending, signal, tick_timer, any_enabled, tick_times, whole_periods,
  prescaled, advance_timer, advance_unlocked,
}
use sparcv8emulator.Gptimer.Prescaler.{clock_by_clock, prescaled-clock_by_clock}
use sparcv8emulator.Gptimer.Advance.{clocks, acknowledged, interrupts, advance_unlocked-clocks}
use sparcv8emulator.Gptimer.OneShot.{guarded_ticks, advance_timer_overruns}
use sparcv8emulator.Gptimer.Regs.{construct, timer_at, timer_number, read, write}
use sparcv8emulator.Gptimer.Control.{write_control}

-- The start-up state of a multiprocessor: timer 0 periodic with interrupts.
abbrev smp : Gptimer
smp = record {
  scaler = 0x24;
  sreload = 0x24;
  config = 0x142;
  catchcfg = 0;
  timer0 = record { tcntval = 3; trldval = 0x270f; tctrl = 11; tlatch = 0 };
  timer1 = record { tcntval = 0; trldval = 0; tctrl = 0; tlatch = 0 };
}

-- A timer that does not restart, one prescaler tick from its expiry.
abbrev once : Timer
once = record { tcntval = 0; trldval = 9; tctrl = 9; tlatch = 0 }

default_config : (construct 8 31).config ≡ 0x142
unfolding construct
default_config = refl

-- 148 = 4 * 37 bus clocks bring timer 0 from 3 to its interrupt.
fires : (advance_unlocked 148 true smp).1 ≡ true
unfolding advance_unlocked prescaled whole_periods advance_timer tick_times tick_timer signal
    any_enabled is_enabled pending testbit
fires = refl

too_early : (advance_unlocked 147 true smp).1 ≡ false
unfolding advance_unlocked prescaled whole_periods advance_timer tick_times tick_timer signal
    any_enabled is_enabled pending testbit
too_early = refl

below_registers : read 0x2 smp ≡ 0
unfolding read timer_number
below_registers = refl

smp_periodic : testbit 11 1 ≡ true
unfolding testbit
smp_periodic = refl

once_enabled : is_enabled once ≡ true
unfolding is_enabled testbit
once_enabled = refl

once_stops : testbit 9 1 ≡ false
unfolding testbit
once_stops = refl

prescaled-clock_by_clock_example : prescaled 0x24 100 7 ≡ clock_by_clock 0x24 100 7
prescaled-clock_by_clock_example =
    prescaled-clock_by_clock 0x24 100 7 (omega arith) (omega arith) (omega arith)

off_periodic : is_enabled (smp.timer1) ≡ true → testbit 0 1 ≡ true
unfolding is_enabled testbit
off_periodic e = cc

advance_unlocked-clocks_example :
    let c = clocks 148 smp in
    let r = advance_unlocked 148 true smp in
    (r.0 ≡ record c { timer0 = acknowledged true c.timer0; timer1 = acknowledged true c.timer1 })
    × (r.1 ≡ (interrupts c.timer0 || interrupts c.timer1))
advance_unlocked-clocks_example =
    advance_unlocked-clocks 148 true smp (omega arith) (omega arith) (omega arith)
      (λ on. smp_periodic) off_periodic

advance_timer_overruns_example :
    ((guarded_ticks 3 once).tcntval ≡ 2 ^ 32 - 1)
    × (is_enabled (guarded_ticks 3 once) ≡ false)
    × ((advance_timer 3 true once).0.tcntval ≡ 2 ^ 32 - (3 - 0))
    × (is_enabled (advance_timer 3 true once).0 ≡ false)
advance_timer_overruns_example =
    advance_timer_overruns 3 true once once_enabled once_stops (omega arith) (omega arith)

write_control_example :
    let g' = write (0x18 + 0x10 * 0) 0x1f smp in
    let t = timer_at 0 smp in
    (testbit (timer_at 0 g').tctrl 4 ≡ (
      if 4 == 4
      then testbit t.tctrl 4 && not (testbit 0x1f 4)
      else if 4 == 2
      then false
      else testbit 0x1f 4))
    × ((timer_at 0 g').tcntval ≡ (if testbit 0x1f 2 then t.trldval else t.tcntval))
    × (timer_at (1 - 0) g' ≡ timer_at (1 - 0) smp)
write_control_example = write_control 0 0x1f 4 smp (omega arith) (omega arith)
