-- ===== src/Gptimer/Control.antt =====
-- src/peripherals/GPTIMER.h: what a write to a timer's control register does.
use sparcv8emulator.Base.{
  ℕ, ◌+◌, ◌-◌, ◌*◌, ◌/◌, ◌%◌, ◌^◌, ◌<◌, ◌≡◌, Bool, false, not, ◌&&◌, if◌then◌else◌, ◌==◌, at_index,
  testbit, testbit-or, testbit-and, testbit-pow, testbit-clear, bit_and, sub32, arith,
}
use sparcv8emulator.Gptimer.Ops.{Timer, Gptimer, reload}
use sparcv8emulator.Gptimer.Regs.{
  timer_at, set_timer, timer_number, write, write_timer, settle_pending, write_ctrl,
}

settle_pending_bit :
    (value old i : ℕ)
    → i < 32
    → testbit (settle_pending value old) i
      ≡ (if i == 4 then testbit old 4 && not (testbit value 4) else testbit value i)
unfolding settle_pending
settle_pending_bit value old i lt =
    at_index
      (λ j.
        testbit (settle_pending value old) j
        ≡ (if j == 4 then testbit old 4 && not (testbit value 4) else testbit value j))
      i 4
      (ground (
        arith,
        testbit-clear value 4 4 (omega arith) (omega arith),
        testbit-or value (bit_and old (2 ^ 4)) 4,
        testbit-and old (2 ^ 4) 4,
        testbit-pow 4 4,
      ))
      λ ne. ground (
        arith,
        ne,
        testbit-clear value 4 i (omega arith) lt,
        testbit-or value (bit_and old (2 ^ 4)) i,
        testbit-and old (2 ^ 4) i,
        testbit-pow 4 i,
      )

-- The control register after a write of `value`: the pending bit stays only if it was set and is
-- written as 0, the load bit reads 0, and every other bit is the one written.
abbrev written_bit : ℕ → ℕ → ℕ → Bool
written_bit value old i =
    if i == 4
    then testbit old 4 && not (testbit value 4)
    else if i == 2
    then false
    else testbit value i

write_ctrl_bit :
    (value : ℕ) (t : Timer) (i : ℕ)
    → i < 32
    → testbit (write_ctrl value t).tctrl i ≡ written_bit value t.tctrl i
unfolding write_ctrl
write_ctrl_bit value t i lt = ground (
  arith,
  settle_pending_bit value t.tctrl i lt,
  settle_pending_bit value t.tctrl 2 (omega arith),
  testbit-clear (settle_pending value t.tctrl) 2 i (omega arith) lt,
)

write_ctrl_counter :
    (value : ℕ) (t : Timer)
    → (write_ctrl value t).tcntval ≡ (if testbit value 2 then t.trldval else t.tcntval)
unfolding write_ctrl reload
write_ctrl_counter value t = ground (arith, settle_pending_bit value t.tctrl 2 (omega arith))

write_at_ctrl :
    (n value : ℕ) (g : Gptimer) → n < 2 → write (0x18 + 0x10 * n) value g ≡ write_timer n 8 value g
unfolding write timer_number
write_at_ctrl n value g lt =
    let number : sub32 (0x18 + 0x10 * n) 0x10 / 0x10 ≡ n = omega arith in
    let register : (0x18 + 0x10 * n) % 0x10 ≡ 8 = omega arith in
    rw (number, register) (ground arith)

-- A write to the control register of timer `n` (0 or 1), bit by bit: the pending bit stays only if
-- it was set and is written as 0, the load bit reads 0, and every other bit is the one written. The
-- counter is reloaded exactly if the load bit is written, and the other timer stays as it is.
pub write_control :
    (n value i : ℕ) (g : Gptimer)
    → n < 2
    → i < 32
    → let g' = write (0x18 + 0x10 * n) value g in
      let t = timer_at n g in
      (testbit (timer_at n g').tctrl i ≡ (
        if i == 4
        then testbit t.tctrl 4 && not (testbit value 4)
        else if i == 2
        then false
        else testbit value i))
      × ((timer_at n g').tcntval ≡ (if testbit value 2 then t.trldval else t.tcntval))
      × (timer_at (1 - n) g' ≡ timer_at (1 - n) g)
unfolding write_timer timer_at set_timer
write_control n value i g nl lt = rw (write_at_ctrl n value g nl) (
    ground
      (arith, write_ctrl_bit value (timer_at n g) i lt, write_ctrl_counter value (timer_at n g)))
