-- ===== src/Cpu/Cycle.antt =====
-- src/sparcv8/CPU.cpp, the head of the loop in `run`: the interrupt controller is polled, an
-- interrupt becomes a trap, and a trap enters its handler.
use sparcv8emulator.Base.{
  ℕ, ◌+◌, ◌-◌, ◌*◌, ◌%◌, ◌^◌, Bool, true, false, ◌&&◌, if◌then◌else◌, ltb, ◌==◌, bit_and, bit_or,
  testbit, u32, sub32, not32, ◌>>>◌,
}
use sparcv8emulator.Irqmp.Ops.{Irqmp, get_irq_hint, clear_irq}
use sparcv8emulator.Cpu.State.{Cpu, nwindows, update_cwp_bases, write_reg}
use sparcv8emulator.Cpu.Integer.{set_cc}
use sparcv8emulator.Cpu.Control.{put_cwp}

abbrev pub irq_check_interval : ℕ
irq_check_interval = 64

abbrev pub sparc_interrupt : ℕ
sparc_interrupt = 0x10

-- `LOCALREG1` and `LOCALREG2`.
abbrev pub localreg1 : ℕ
localreg1 = 0x11

abbrev pub localreg2 : ℕ
localreg2 = 0x12

unfoldable pub set_irl : ℕ → Cpu → Cpu
set_irl level s = record s { irl = bit_and level 0xf }

-- A level above the one held is taken over unless a trap waits.
unfoldable pub take_hint : ℕ → Cpu → Cpu
take_hint hint s = if ltb s.irl hint && s.trap_type == 0 then set_irl hint s else s

-- The count of cycles until the next poll, and the processor.
unfoldable pub poll : Irqmp → ℕ × Cpu → ℕ × Cpu
poll intc (countdown, s) =
    if countdown - 1 == 0
    then (irq_check_interval, take_hint (get_irq_hint s.cpu_id intc) s)
    else (countdown - 1, s)

-- The field `pil` of the status register.
unfoldable pub pil : Cpu → ℕ
pil s = bit_and (s.psr >>> 8) 0xf

unfoldable pub interruptible : Cpu → Bool
interruptible s = s.trap_type == 0 && testbit s.psr 5 && ltb (pil s) s.irl

unfoldable pub take_interrupt : Irqmp × Cpu → Irqmp × Cpu
take_interrupt (intc, s) =
    if interruptible s
    then (clear_irq s.irl s.cpu_id intc, record s { trap_type = s.irl + sparc_interrupt; irl = 0 })
    else (intc, s)

-- `p->et = 0; p->ps = p->s; p->s = 1; p->cwp = n_cwp`, with `n_cwp` computed from the old window.
unfoldable pub trapped_psr : ℕ → ℕ
trapped_psr psr =
    let n_cwp = bit_and (sub32 (bit_and psr 0x1f) 1) 0x1f % nwindows in
    put_cwp n_cwp (set_cc 7 true (set_cc 6 (testbit psr 7) (set_cc 5 false psr)))

unfoldable pub trap_base : Cpu → ℕ
trap_base s = bit_or (bit_and s.tbr (not32 0xff0)) (bit_and s.trap_type 0xff * 2 ^ 4)

-- The new window holds the interrupted program counters.
unfoldable pub saved_counters : Cpu → Cpu
saved_counters s =
    let t = update_cwp_bases (record s { psr = trapped_psr s.psr }) in
    write_reg t.npc localreg2 (write_reg t.pc localreg1 t)

unfoldable pub enter_trap : Cpu → Cpu
enter_trap s = if s.trap_type == 0 then s else record (saved_counters s) {
  tbr = trap_base s;
  pc = trap_base s;
  npc = u32 (trap_base s + 4);
  trap_type = bit_and s.trap_type (not32 0xff);
}

-- One turn of the loop up to the fetch.
unfoldable pub begin_cycle : Irqmp × (ℕ × Cpu) → Irqmp × (ℕ × Cpu)
begin_cycle (intc, counted) =
    let (countdown, s) = poll intc counted in
    let (intc', s') = take_interrupt (intc, s) in (intc', (countdown, enter_trap s'))
