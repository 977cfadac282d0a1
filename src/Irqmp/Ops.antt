-- ===== src/Irqmp/Ops.antt =====
-- src/peripherals/IRQMP.h and IRQMP.cpp: the registers and every call that changes them.
use sparcv8emulator.Base.{
  ℕ, zero, suc, ◌+◌, ◌-◌, ◌*◌, ◌/◌, ◌%◌, ◌^◌, Bool, true, false, not, ◌&&◌, if◌then◌else◌, ltb, leb,
  ◌==◌, bit_and, bit_or, testbit, not32, u32, update,
}

pub record Irqmp : Type 0 where
  pub ilevel : ℕ
  pub ipend : ℕ
  pub iforce : ℕ
  pub iclear : ℕ
  pub mpstat : ℕ
  pub brdcst : ℕ
  pub errstat : ℕ
  pub ampctrl : ℕ
  pub piforce : ℕ → ℕ
  pub pimask : ℕ → ℕ
  pub num_cpus : ℕ
  pub num_active_cpus : ℕ
  pub irq_hint : ℕ → ℕ
  -- Which entries of `cpu_ptrs_` are set, and the CPUs that were sent `wakeup()`.
  pub cpu_ptrs : ℕ → Bool
  pub woken : ℕ → Bool

-- A call returns, throws, or calls `wakeup()` through a null pointer.
pub data Outcome : Type 0 where
  done : Irqmp → Outcome
  threw : Outcome
  null_call : Outcome

infixl 5 ◌>>=◌
abbrev pub ◌>>=◌ : Outcome → (Irqmp → Outcome) → Outcome
done s >>= k = k s
threw >>= k = threw
null_call >>= k = null_call

-- `for (int i = n; i >= 1; --i) if (both bits i are set) { h = i; break; }`, from `h = 0`.
unfoldable pub highest_level : ℕ → ℕ → ℕ → ℕ
highest_level zero req mask = 0
highest_level (suc i) req mask =
    let rest = highest_level i req mask in
    if testbit req (suc i) && testbit mask (suc i) then suc i else rest

-- The hint of one CPU: a forced level, or else a pending one.
unfoldable pub hint_of : Irqmp → ℕ → ℕ
hint_of s c =
    let forced = highest_level 15 (s.piforce c) (s.pimask c) in
    if forced == 0 then highest_level 15 s.ipend (s.pimask c) else forced

-- The loop over the CPUs, with `left` rounds to go at CPU `c`.
unfoldable pub hints_loop : Irqmp → ℕ → ℕ → (ℕ → ℕ) → ℕ → ℕ
hints_loop s zero c hints = hints
hints_loop s (suc left) c hints = hints_loop s left (suc c) (update hints c (hint_of s c))

unfoldable pub update_hints : Irqmp → Irqmp
update_hints s = record s { irq_hint = hints_loop s s.num_cpus 0 s.irq_hint }

-- `cpu_ptrs_[i]->wakeup()`.
unfoldable pub wakeup : ℕ → Irqmp → Outcome
wakeup i s = if s.cpu_ptrs i then done (record s { woken = update s.woken i true }) else null_call

unfoldable pub initial_mpstat : ℕ → ℕ
initial_mpstat n = bit_or (bit_or (u32 ((n - 1) * 2 ^ 28)) (2 ^ 27)) 0xfffe

unfoldable pub reset : Irqmp → Outcome
reset s =
    if ltb 8 s.num_cpus
    then threw
    else done (record s {
      pimask = λ i. if ltb i 8 then 0 else s.pimask i;
      piforce = λ i. if ltb i 8 then 0 else s.piforce i;
      irq_hint = λ i. if ltb i 8 then 0 else s.irq_hint i;
      num_active_cpus = 0;
      mpstat = if ltb 1 s.num_cpus then initial_mpstat s.num_cpus else s.mpstat;
      cpu_ptrs = λ i. false;
    })

-- The constructor's initialisers.
unfoldable pub cold : ℕ → Irqmp
cold n = record {
  ilevel = 0;
  ipend = 0;
  iforce = 0;
  iclear = 0;
  mpstat = 0;
  brdcst = 0;
  errstat = 0;
  ampctrl = 0;
  piforce = λ i. 0;
  pimask = λ i. 0;
  num_cpus = n;
  num_active_cpus = 0;
  irq_hint = λ i. 0;
  cpu_ptrs = λ i. false;
  woken = λ i. false;
}

unfoldable pub construct : ℕ → Outcome
unfolding cold reset
construct n = reset (cold n)

unfoldable pub set_cpu_ptr : ℕ → Irqmp → Outcome
set_cpu_ptr id s =
    if leb s.num_cpus id then threw else done (record s { cpu_ptrs = update s.cpu_ptrs id true })

-- The broadcast loop: `if ((pimask_[i] >> irl) & 1) piforce_[i] |= 1 << irl`.
unfoldable pub force_loop : Irqmp → ℕ → ℕ → ℕ → (ℕ → ℕ) → ℕ → ℕ
force_loop s irl zero i forced = forced
force_loop s irl (suc left) i forced =
    force_loop s irl left (suc i)
      (if testbit (s.pimask i) irl then update forced i (bit_or (forced i) (2 ^ irl)) else forced)

unfoldable pub post_irq : ℕ → Irqmp → Irqmp
post_irq irl s =
    if testbit s.brdcst irl
    then if ltb 1 s.num_cpus
      then record s { piforce = force_loop s irl s.num_cpus 0 s.piforce }
      else if testbit (s.pimask 0) irl
      then record s {
        piforce = update s.piforce 0 (bit_or (s.piforce 0) (2 ^ irl));
        iforce = bit_or s.iforce (2 ^ irl);
      }
      else s
    else record s { ipend = bit_or s.ipend (2 ^ irl) }

-- The loop that wakes the CPUs that have unmasked the level.
unfoldable pub wake_loop : ℕ → ℕ → ℕ → Irqmp → Outcome
wake_loop irl zero i s = done s
wake_loop irl (suc left) i s =
    (if testbit (s.pimask i) irl then wakeup i s else done s) >>= wake_loop irl left (suc i)

unfoldable pub trigger_irq : ℕ → Irqmp → Outcome
trigger_irq level s =
    let irl = level % 16 in
    let posted = update_hints (post_irq irl s) in wake_loop irl posted.num_cpus 0 posted

unfoldable pub clear_irq : ℕ → ℕ → Irqmp → Irqmp
clear_irq level cpu_id s =
    let irl = level % 16 in
    let cpu = cpu_id % 8 in
    let keep = not32 (2 ^ irl) in
    update_hints (
      if testbit (s.piforce cpu) irl
      then record s { piforce = update s.piforce cpu (bit_and (s.piforce cpu) keep) }
      else record s { ipend = bit_and s.ipend keep })

unfoldable pub get_irq_hint : ℕ → Irqmp → ℕ
get_irq_hint cpu_id s = s.irq_hint (cpu_id % 8)

-- Register offsets on the APB.
abbrev pub ilevel_os : ℕ
ilevel_os = 0x00

abbrev pub ipend_os : ℕ
ipend_os = 0x04

abbrev pub iforce_os : ℕ
iforce_os = 0x08

abbrev pub iclear_os : ℕ
iclear_os = 0x0c

abbrev pub mpstat_os : ℕ
mpstat_os = 0x10

abbrev pub brdcst_os : ℕ
brdcst_os = 0x14

abbrev pub errstat_os : ℕ
errstat_os = 0x18

abbrev pub ampctrl_os : ℕ
ampctrl_os = 0x20

unfoldable pub read : ℕ → Irqmp → ℕ
read offset s =
    if leb 0x40 offset && ltb offset 0x60
    then s.pimask ((offset - 0x40) / 4)
    else if offset == ilevel_os
    then s.ilevel
    else if offset == ipend_os
    then s.ipend
    else if offset == iforce_os
    then s.iforce
    else if offset == iclear_os
    then s.iclear
    else if offset == mpstat_os
    then s.mpstat
    else if offset == brdcst_os
    then s.brdcst
    else if offset == errstat_os
    then s.errstat
    else if offset == ampctrl_os
    then s.ampctrl
    else 0

abbrev pub barrier_irl : ℕ
barrier_irl = 8

-- A write to the mask register of CPU `n`.
unfoldable pub write_mask : ℕ → ℕ → Irqmp → Irqmp
write_mask n value s =
    let starts =
      not (testbit (s.pimask n) barrier_irl)
      && testbit value barrier_irl
      && not (testbit s.mpstat n) in
    update_hints (record s {
      pimask = update s.pimask n value;
      num_active_cpus = if starts then u32 (s.num_active_cpus + 1) else s.num_active_cpus;
    })

-- A write to the force register of CPU `n`.
unfoldable pub write_force : ℕ → ℕ → Irqmp → Outcome
write_force n value s =
    let forced =
      update_hints (record s { piforce = update s.piforce n (bit_or (s.piforce n) value) }) in
    if bit_and value (forced.pimask n) == 0 then done forced else wakeup n forced

-- One round of the loop of a write to the status register: power CPU `i` up.
unfoldable pub power_up : ℕ → ℕ → Irqmp → Irqmp
power_up val i s =
    if testbit val i && testbit s.mpstat i && s.cpu_ptrs i
    then record s {
      num_active_cpus =
          if testbit (s.pimask i) barrier_irl
          then u32 (s.num_active_cpus + 1)
          else s.num_active_cpus;
      mpstat = bit_and s.mpstat (not32 (2 ^ i));
      woken = update s.woken i true;
    }
    else s

unfoldable pub power_up_loop : ℕ → ℕ → ℕ → Irqmp → Irqmp
power_up_loop val zero i s = s
power_up_loop val (suc left) i s = power_up_loop val left (suc i) (power_up val i s)

unfoldable pub write_mpstat : ℕ → Irqmp → Irqmp
write_mpstat value s = power_up_loop (value % 2 ^ 16) s.num_cpus 0 s

unfoldable pub write : ℕ → ℕ → Irqmp → Outcome
write offset value s =
    if leb 0x40 offset && ltb offset 0x60
    then done (write_mask ((offset - 0x40) / 4) value s)
    else if leb 0x80 offset && ltb offset 0xa0
    then write_force ((offset - 0x80) / 4) value s
    else if offset == ilevel_os
    then done (record s { ilevel = value })
    else if offset == ipend_os
    then done (update_hints (record s { ipend = value }))
    else if offset == iforce_os
    then done (update_hints (record s { iforce = bit_or s.iforce value }))
    else if offset == iclear_os
    then done (
        update_hints
          (record s { iclear = value; ipend = bit_and s.ipend (not32 (bit_and value 0xfffe)) }))
    else if offset == mpstat_os
    then done (write_mpstat value s)
    else if offset == brdcst_os
    then done (record s { brdcst = bit_and value 0xfffe })
    else if offset == errstat_os
    then done (record s { errstat = value })
    else threw
