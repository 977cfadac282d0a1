-- ===== src/Gptimer/Ops.antt =====
-- src/peripherals/GPTIMER.h: the timer registers and every call that changes them. Each call runs
-- under the unit's lock. The messages on the console are left out.
use sparcv8emulator.Base.{
  ℕ, zero, suc, ◌+◌, ◌-◌, ◌/◌, ◌%◌, ◌^◌, Bool, true, false, ◌||◌, if◌then◌else◌, ltb, leb, ◌==◌,
  bit_and, bit_or, testbit, not32, sub32, u32,
}

-- `timer_impl`.
pub record Timer : Type 0 where
  pub tcntval : ℕ
  pub trldval : ℕ
  pub tctrl : ℕ
  pub tlatch : ℕ

pub record Gptimer : Type 0 where
  pub scaler : ℕ
  pub sreload : ℕ
  pub config : ℕ
  pub catchcfg : ℕ
  pub timer0 : Timer
  pub timer1 : Timer

unfoldable pub fresh_timer : Timer
fresh_timer = record { tcntval = 0x270f; trldval = 0x270f; tctrl = 2; tlatch = 0 }

unfoldable pub is_enabled : Timer → Bool
is_enabled t = testbit t.tctrl 0

unfoldable pub reload : Timer → Timer
reload t = record t { tcntval = t.trldval }

unfoldable pub pending : Timer → Bool
pending t = testbit t.tctrl 4

unfoldable pub clear_pending : Timer → Timer
clear_pending t = record t { tctrl = bit_and t.tctrl (not32 (2 ^ 4)) }

-- The control register with the pending bit set if interrupts are enabled.
unfoldable pub signal : ℕ → ℕ
signal ctrl = if testbit ctrl 3 then bit_or ctrl (2 ^ 4) else ctrl

-- `timer_impl::tick`. A counter at 0 wraps to the largest word.
unfoldable pub tick_timer : Timer → Timer
tick_timer t =
    if t.tcntval == 0
    then (let ctrl = signal t.tctrl in
        if testbit ctrl 1
        then record t { tctrl = ctrl; tcntval = t.trldval }
        else record t { tctrl = bit_and ctrl (not32 (2 ^ 0)); tcntval = sub32 t.tcntval 1 })
    else record t { tcntval = t.tcntval - 1 }

unfoldable pub any_enabled : Gptimer → Bool
any_enabled g = is_enabled g.timer0 || is_enabled g.timer1

unfoldable pub tick_enabled : Timer → Timer
tick_enabled t = if is_enabled t then tick_timer t else t

-- `Tick`: one bus clock.
unfoldable pub tick : Gptimer → Gptimer
tick g =
    if any_enabled g
    then if g.scaler == 0
      then record g {
        timer0 = tick_enabled g.timer0;
        timer1 = tick_enabled g.timer1;
        scaler = g.sreload % 2 ^ 16;
      }
      else record g { scaler = g.scaler - 1 }
    else g

-- The first timer whose interrupt is pending answers.
unfoldable pub check_interrupt : Bool → Gptimer → Gptimer × Bool
check_interrupt clear g =
    if pending g.timer0
    then ((if clear then record g { timer0 = clear_pending g.timer0 } else g), true)
    else if pending g.timer1
    then ((if clear then record g { timer1 = clear_pending g.timer1 } else g), true)
    else (g, false)

unfoldable pub tick_and_check_interrupt : Bool → Gptimer → Gptimer × Bool
tick_and_check_interrupt clear g = check_interrupt clear (tick g)

unfoldable pub interrupt_enable : Gptimer → Gptimer
interrupt_enable g = record g {
  timer0 = record (g.timer0) { tctrl = bit_or g.timer0.tctrl (2 ^ 3) };
  timer1 = record (g.timer1) { tctrl = bit_or g.timer1.tctrl (2 ^ 3) };
}

unfoldable pub reset_timer : Bool → Timer → Timer
reset_timer on t = reload (if on then record t { tctrl = 3 } else t)

unfoldable pub reset : Gptimer → Gptimer
reset g = record g {
  timer0 = reset_timer (testbit g.config 16) g.timer0;
  timer1 = reset_timer (testbit g.config 17) g.timer1;
  scaler = g.sreload % 2 ^ 16;
}

-- `for (p = 0; p < prescaler_ticks; ++p) timer.tick()`.
unfoldable pub tick_times : ℕ → Timer → Timer
tick_times zero t = t
tick_times (suc p) t = tick_times p (tick_timer t)

-- What `advance_unlocked` computes for the prescaler: its ticks, and its new value.
pub record Prescaled : Type 0 where
  pub ticks : ℕ
  pub scaler : ℕ

-- Phase 2: `n` clocks are left after phase 1.
unfoldable pub whole_periods : ℕ → ℕ → ℕ → ℕ → Prescaled
whole_periods sreload n ticks scaler =
    if ltb 0 n
    then record { ticks = ticks + n / (sreload + 1); scaler = sreload - n % (sreload + 1) }
    else record { ticks = ticks; scaler = scaler }

-- Phase 1 and then phase 2, of `n` bus clocks from the prescaler value `s`.
unfoldable pub prescaled : ℕ → ℕ → ℕ → Prescaled
prescaled sreload n s =
    if s == 0
    then whole_periods sreload (n - 1) 1 sreload
    else if leb n s
    then whole_periods sreload 0 0 (s - n)
    else whole_periods sreload (n - u32 (s + 1)) 1 sreload

-- One timer's share of `advance_unlocked`: its ticks, then its interrupt.
unfoldable pub advance_timer : ℕ → Bool → Timer → Timer × Bool
advance_timer ticks clear t =
    if is_enabled t
    then (let t' = tick_times ticks t in
        if pending t' then ((if clear then clear_pending t' else t'), true) else (t', false))
    else (t, false)

unfoldable pub advance_unlocked : ℕ → Bool → Gptimer → Gptimer × Bool
advance_unlocked n clear g =
    if n == 0
    then (g, false)
    else if any_enabled g
    then (let p = prescaled (g.sreload % 2 ^ 16) n g.scaler in
        let (t0, irq0) = advance_timer p.ticks clear g.timer0 in
        let (t1, irq1) = advance_timer p.ticks clear g.timer1 in
        (record g { scaler = p.scaler; timer0 = t0; timer1 = t1 }, irq0 || irq1))
    else (g, false)
