-- ===== src/Apbuart/Ops.antt =====
-- src/peripherals/APBUART.h: the serial port. The registers `data`, `status` and `control` of the
-- class are never used.
use sparcv8emulator.Base.{
  ℕ, ◌+◌, ◌-◌, ◌*◌, ◌%◌, ◌^◌, Bool, true, false, not, ◌&&◌, if◌then◌else◌, ltb, leb, ◌==◌, Option,
  none, some, bit_and, bit_or, testbit, update, u8,
}
use sparcv8emulator.Apbuart.Console.{Console, hit, getc, putc}

pub record Apbuart : Type 0 where
  pub enabled : Bool
  pub r_ints_enabled : Bool
  pub t_ints_enabled : Bool
  pub tx_emptied_int_pending : Bool
  pub overrun : Bool
  pub len : ℕ
  pub pos : ℕ
  pub fifo : ℕ → ℕ
  pub scaler : ℕ
  pub console : Console

-- Register 0: the oldest byte, or 0 if there is none.
unfoldable pub read_data : Apbuart → Apbuart × ℕ
read_data u =
    if ltb 0 u.len then (record u { len = u.len - 1 }, u.fifo ((u.pos + 8 - u.len) % 8)) else (u, 0)

unfoldable pub flag : Bool → ℕ → ℕ
flag b v = if b then v else 0

unfoldable pub read_status : Apbuart → Apbuart × ℕ
read_status u = (
  record u { overrun = false },
  bit_or (bit_or (bit_or (bit_or (flag (ltb 0 u.len) 1) 2) 4) (flag u.overrun 16)) (u.len * 2 ^ 26),
)

unfoldable pub read_control : Apbuart → ℕ
read_control u =
    bit_or (bit_or (bit_or (flag u.enabled 3) (flag u.r_ints_enabled 4)) (flag u.t_ints_enabled 8))
      (2 ^ 31)

-- `none` is the exception on an offset above the registers.
unfoldable pub read : ℕ → Apbuart → Option (Apbuart × ℕ)
read offset u =
    if offset == 0x0
    then some (read_data u)
    else if offset == 0x4
    then some (read_status u)
    else if offset == 0x8
    then some (u, read_control u)
    else if offset == 0xc
    then some (u, u.scaler)
    else none

unfoldable pub write : ℕ → ℕ → Apbuart → Option Apbuart
write offset value u =
    if offset == 0x0
    then some (record u { console = putc value u.console; tx_emptied_int_pending = true })
    else if offset == 0x4
    then some u
    else if offset == 0x8
    then some (record u {
      r_ints_enabled = testbit value 2;
      t_ints_enabled = testbit value 3;
      enabled = not (bit_and value 3 == 0);
    })
    else if offset == 0xc
    then some (record u { scaler = value % 2 ^ 12 })
    else none

unfoldable pub check_irq : Apbuart → Apbuart × Bool
check_irq u =
    if u.r_ints_enabled && not (u.len == 0)
    then (u, true)
    else if u.t_ints_enabled && u.tx_emptied_int_pending
    then (record u { tx_emptied_int_pending = false }, true)
    else (u, false)

-- `in.fifo[in.pos++ % 8] = c; ++in.len;` on bytes.
unfoldable pub store : ℕ → Apbuart → Apbuart
store c u = record u {
  fifo = update u.fifo (u.pos % 8) c;
  pos = u8 (u.pos + 1);
  len = u8 (u.len + 1);
}

-- A character waits: it stays with the console if the buffer is full.
unfoldable pub accept : Apbuart → Apbuart
accept u =
    if leb 8 u.len
    then record u { overrun = true }
    else (let (k, c) = getc u.console in store c (record u { console = k }))

unfoldable pub input_scheduled : Apbuart → Apbuart
input_scheduled u =
    let (k, waiting) = hit u.console in
    if waiting then accept (record u { console = k }) else record u { console = k }

unfoldable pub tick_scheduled : Apbuart → Apbuart
tick_scheduled u =
    input_scheduled (if u.t_ints_enabled then record u { tx_emptied_int_pending = true } else u)

-- `input`, with its static counter passed along.
unfoldable pub input : ℕ → Apbuart → ℕ × Apbuart
input counter u =
    if counter == 0 then (bit_and u.scaler 0xfff, input_scheduled u) else (counter - 1, u)
