-- ===== src/Cpu/Interrupts.antt =====
-- src/sparcv8/CPU.cpp: from a pending interrupt to its handler and back.
use sparcv8emulator.Base.{
  ℕ, zero, suc, ◌+◌, ◌-◌, ◌*◌, ◌%◌, ◌^◌, ◌<◌, ◌≡◌, ◌≢◌, refl, ◌∙◌, ap, Bool, true, false, not, ◌&&◌,
  ◌||◌, if◌then◌else◌, ltb, leb, ◌==◌, Option, none, some, bit_and, testbit, testbit-and,
  testbit-or, testbit-complement, testbit-ones, testbit-shift, bit_and-mod, not32, arith,
}
use sparcv8emulator.Irqmp.Ops.{Irqmp, get_irq_hint, clear_irq}
use sparcv8emulator.Cpu.State.{Cpu, Decoded, supervisor, traps_enabled}
use sparcv8emulator.Cpu.Control.{invalid_window, rett}
use sparcv8emulator.Cpu.Flags.{select}
use sparcv8emulator.Cpu.Cycle.{
  irq_check_interval, sparc_interrupt, set_irl, take_hint, poll, pil, interruptible, take_interrupt,
  trapped_psr, trap_base, enter_trap, begin_cycle,
}
use sparcv8emulator.Cpu.Traps.{
  below, saved_counters-psr, trapped_psr_window, testbit-trapped_psr, return-trapped_psr,
}

-- A return that goes on at `target` with bit `i` of the status register as `old` has it.
abbrev pub ReturnsTo : ℕ → ℕ → ℕ → Cpu → Decoded → Option (Cpu × Decoded) → Type 0
ReturnsTo target old i h d none = ⊥
ReturnsTo target old i h d (some (h', d')) =
    (h' ≡ h) × (d'.pc ≡ d.npc) × (d'.npc ≡ target) × (testbit d'.psr i ≡ testbit old i)

-- The handler may change the processor as it likes (`h`), but ends with a `RETT` under the status
-- register that it was entered with, to an aligned target and a valid window. Then every bit of
-- the status register but the previous mode is as it was when the trap was taken, in particular
-- the window, the mode, the interrupt level and the condition codes.
pub enter_trap-rett :
    (w i : ℕ) (s h : Cpu) (d : Decoded)
    → w < 8
    → i < 32
    → i ≢ 6
    → bit_and s.psr 0x1f ≡ w
    → testbit s.psr 5 ≡ true
    → s.trap_type ≢ 0
    → d.psr ≡ (enter_trap s).psr
    → bit_and d.ev 3 ≡ 0
    → invalid_window h w ≡ false
    → ReturnsTo (bit_and d.ev (not32 3)) s.psr i h d (rett d h)
unfolding rett enter_trap supervisor traps_enabled
enter_trap-rett w i s h d small lt not_ps e et waits same aligned valid =
    let some_trap : (s.trap_type == 0) ≡ false = ground (arith, waits) in
    let psr : d.psr ≡ trapped_psr s.psr = (simp some_trap at same) ∙ saved_counters-psr s in
    let disabled : testbit (trapped_psr s.psr) 5 ≡ false =
      testbit-trapped_psr w s.psr 5 small e (omega arith) in
    let privileged : testbit (trapped_psr s.psr) 7 ≡ true =
      testbit-trapped_psr w s.psr 7 small e (omega arith) in
    let back : (below w + 1) % 8 ≡ w = omega arith in
    simp (psr, disabled, privileged, trapped_psr_window w s.psr small e, back, aligned, valid)
      (refl, refl, refl, return-trapped_psr w s.psr i small e et lt not_ps)

field :
    (p q q' a b : Bool)
    → (p && q) ≡ (p && q')
    → (b && not (p && q) || p && (a && q)) ≡ (if p && q' then a else b)
field true q q' a b e = select b a q ∙ ap (λ (r : Bool). if r then a else b) e
field false q q' a true e = refl
field false q q' a false e = refl

-- The handler's address: the trap number in bits 4 to 11 of the trap base register.
pub testbit-trap_base :
    (s : Cpu) (i : ℕ)
    → i < 32
    → testbit (trap_base s) i
      ≡ (if leb 4 i && ltb i 12 then testbit s.trap_type (i - 4) else testbit s.tbr i)
unfolding trap_base
testbit-trap_base s i lt =
    let same : (leb 4 i && ltb (i - 4) 8) ≡ (leb 4 i && ltb i 12) = ground arith in
    testbit-or (bit_and s.tbr (not32 0xff0)) (bit_and s.trap_type 0xff * 2 ^ 4) i
    ∙ rw
        (
          testbit-and s.tbr (not32 0xff0) i,
          testbit-complement 32 0xff0 i (omega arith) lt,
          testbit-shift (2 ^ 8 - 1) 4 i,
          testbit-shift (bit_and s.trap_type 0xff) 4 i,
          testbit-and s.trap_type 0xff (i - 4),
          testbit-ones 8 (i - 4),
        )
        (field (leb 4 i) (ltb (i - 4) 8) (ltb i 12) (testbit s.trap_type (i - 4)) (testbit s.tbr i)
          same)

-- Ready for the interrupt `h` that the controller asks for, with none held.
pub record IsReady (h : ℕ) (intc : Irqmp) (s : Cpu) : Type 0 where
  pub asked : get_irq_hint s.cpu_id intc ≡ h
  pub none_held : s.irl ≡ 0
  pub no_trap : s.trap_type ≡ 0
  pub enabled : testbit s.psr 5 ≡ true
  pub unmasked : pil s < h

-- `n` times in a row.
unfoldable pub times : ℕ → (Cpu → Cpu) → Cpu → Cpu
times zero body s = s
times (suc n) body s = times n body (body s)

-- `n` turns of the loop: `body` is the fetch and execution of an instruction.
unfoldable pub turns : ℕ → (Cpu → Cpu) → Irqmp × (ℕ × Cpu) → Irqmp × (ℕ × Cpu)
turns zero body x = x
turns (suc n) body x = let (i, (c, s)) = begin_cycle x in turns n body (i, (c, body s))

begin_cycle_waits :
    (h c : ℕ) (intc : Irqmp) (s : Cpu)
    → IsReady h intc s
    → begin_cycle (intc, (suc (suc c), s)) ≡ (intc, (suc c, s))
unfolding begin_cycle poll take_interrupt interruptible enter_trap
begin_cycle_waits h c intc s r =
    let later : suc (suc c) - 1 ≡ suc c = omega arith in
    let not_zero : (suc c == 0) ≡ false = ground arith in
    let none_above : ltb (pil s) 0 ≡ false = ground arith in
    simp (later, not_zero, r.no_trap, r.enabled, r.none_held, none_above) refl

begin_cycle_takes :
    (h : ℕ) (intc : Irqmp) (s : Cpu)
    → IsReady h intc s
    → h < 16
    → begin_cycle (intc, (1, s)) ≡ (
      clear_irq h s.cpu_id intc,
      (irq_check_interval, enter_trap (record s { irl = 0; trap_type = h + sparc_interrupt })),
    )
unfolding begin_cycle poll take_interrupt take_hint set_irl interruptible pil
begin_cycle_takes h intc s r small =
    let above : ltb 0 h ≡ true = ground (arith, r.unmasked) in
    let level : bit_and h 0xf ≡ h = omega (arith, bit_and-mod 4 h) in
    let over : ltb (pil s) h ≡ true = ground (arith, r.unmasked) in
    simp (r.asked, r.none_held, r.no_trap, above, level, r.enabled, over) refl

turns_wait :
    (h c : ℕ) (body : Cpu → Cpu) (intc : Irqmp) (s : Cpu)
    → ((t : Cpu) → IsReady h intc t → IsReady h intc (body t))
    → IsReady h intc s
    → (turns c body (intc, (suc c, s)) ≡ (intc, (1, times c body s)))
      × IsReady h intc (times c body s)
unfolding turns times
turns_wait h zero body intc s kept r = (refl, r)
turns_wait h (suc c) body intc s kept r =
    rw (begin_cycle_waits h c intc s r) (turns_wait h c body intc (body s) kept (kept s r))

-- An interrupt above the processor's level is taken after as many turns as the polling count has
-- left, while the instructions between leave the processor ready for it: the controller gets the
-- acknowledgement, and the processor enters the trap of that level.
pub interrupt_taken :
    (h c : ℕ) (body : Cpu → Cpu) (intc : Irqmp) (s : Cpu)
    → h < 16
    → ((t : Cpu) → IsReady h intc t → IsReady h intc (body t))
    → IsReady h intc s
    → let t = times c body s in
      begin_cycle (turns c body (intc, (suc c, s))) ≡ (
        clear_irq h t.cpu_id intc,
        (irq_check_interval, enter_trap (record t { irl = 0; trap_type = h + sparc_interrupt })),
      )
interrupt_taken h c body intc s small kept r =
    let w = turns_wait h c body intc s kept r in
    rw w.0 (begin_cycle_takes h intc (times c body s) w.1 small)
