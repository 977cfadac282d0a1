-- ===== src/Gptimer/Regs.antt =====
-- src/peripherals/GPTIMER.h: the register interface, the constructor and the LEON start-up states.
use sparcv8emulator.Base.{
  ℕ, ◌+◌, ◌*◌, ◌/◌, ◌%◌, ◌^◌, if◌then◌else◌, ltb, leb, ◌==◌, bit_and, bit_or, testbit, not32, sub32,
}
use sparcv8emulator.Gptimer.Ops.{Timer, Gptimer, fresh_timer, reload, reset}

unfoldable pub construct : ℕ → ℕ → Gptimer
unfolding reset fresh_timer
construct irq prescaler = reset (record {
  scaler = 0;
  sreload = prescaler % 2 ^ 16;
  config = bit_or (bit_or (2 ^ 8) (irq % 32 * 2 ^ 3)) 2;
  catchcfg = 0;
  timer0 = fresh_timer;
  timer1 = fresh_timer;
})

-- `set_LEON_state` and `set_LEON_smp_state` differ in timer 1's control register.
unfoldable pub leon_state : ℕ → Gptimer → Gptimer
leon_state ctrl g = record g {
  timer0 = record (g.timer0) { tctrl = ctrl; tcntval = 0x270f; trldval = 0x270f };
  timer1 = record (g.timer1) { tctrl = 0; tcntval = 0; trldval = 0 };
  sreload = 0x24;
  scaler = 0x24;
}

abbrev pub set_leon_state : Gptimer → Gptimer
set_leon_state = leon_state 3

abbrev pub set_leon_smp_state : Gptimer → Gptimer
set_leon_smp_state = leon_state (bit_or 3 8)

unfoldable pub timer_at : ℕ → Gptimer → Timer
timer_at n g = if n == 0 then g.timer0 else g.timer1

unfoldable pub set_timer : ℕ → Timer → Gptimer → Gptimer
set_timer n t g = if n == 0 then record g { timer0 = t } else record g { timer1 = t }

-- `(offset - 0x10) / 0x10` on `u32`, which wraps below 0x10.
unfoldable pub timer_number : ℕ → ℕ
timer_number offset = sub32 offset 0x10 / 0x10

unfoldable pub read_timer : ℕ → Timer → ℕ
read_timer o t =
    if o == 0x0
    then t.tcntval
    else if o == 0x4
    then t.trldval
    else if o == 0x8
    then t.tctrl
    else if o == 0xc
    then t.tlatch
    else 0

unfoldable pub read : ℕ → Gptimer → ℕ
read offset g =
    if offset == 0x0
    then g.scaler
    else if offset == 0x4
    then g.sreload
    else if offset == 0x8
    then bit_and g.config (not32 (0x7f * 2 ^ 16))
    else if offset == 0xc
    then g.catchcfg
    else if leb offset 0x7c
    then if ltb 1 (timer_number offset)
      then 0
      else read_timer (offset % 0x10) (timer_at (timer_number offset) g)
    else 0

-- The pending bit of the value to store: set bits clear it, and 0 keeps it.
unfoldable pub settle_pending : ℕ → ℕ → ℕ
settle_pending value old =
    if testbit value 4 then bit_and value (not32 (2 ^ 4)) else bit_or value (bit_and old (2 ^ 4))

unfoldable pub write_ctrl : ℕ → Timer → Timer
write_ctrl value t =
    let settled = settle_pending value t.tctrl in
    if testbit settled 2
    then record (reload t) { tctrl = bit_and settled (not32 (2 ^ 2)) }
    else record t { tctrl = settled }

-- A write to register `o` of timer `n`.
unfoldable pub write_timer : ℕ → ℕ → ℕ → Gptimer → Gptimer
write_timer n o value g =
    let t = timer_at n g in
    if o == 0x0
    then set_timer n (record t { tcntval = value }) g
    else if o == 0x4
    then set_timer n (record t { trldval = value }) g
    else if o == 0x8
    then (let enabling =
          if testbit value 0 then record g { config = bit_or g.config (2 ^ (16 + n)) } else g in
        set_timer n (write_ctrl value t) enabling)
    else if o == 0xc
    then set_timer n (record t { tlatch = value }) g
    else g

unfoldable pub write : ℕ → ℕ → Gptimer → Gptimer
write offset value g =
    if offset == 0x0
    then record g { scaler = value }
    else if offset == 0x4
    then record g { sreload = value }
    else if offset == 0x8
    then record g { config = value }
    else if offset == 0xc
    then record g { catchcfg = value }
    else if leb offset 0x7c
    then if ltb 1 (timer_number offset)
      then g
      else write_timer (timer_number offset) (offset % 0x10) value g
    else g
