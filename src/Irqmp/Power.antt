-- ===== src/Irqmp/Power.antt =====
-- src/peripherals/IRQMP.cpp: powering CPUs up by the status register, and the mask registers.
use sparcv8emulator.Base.{
  ℕ, zero, suc, ◌+◌, ◌-◌, ◌*◌, ◌/◌, ◌%◌, ◌^◌, ◌≤◌, ◌<◌, ◌≡◌, refl, ◌∙◌, sym, ap, Bool, not, ◌&&◌,
  ◌||◌, if◌then◌else◌, ltb, leb, ◌==◌, at_index, testbit, testbit-clear, arith,
}
use sparcv8emulator.Irqmp.Ops.{
  Irqmp, done, update_hints, power_up, power_up_loop, write_mpstat, read, write, write_mask,
}

-- CPU `j` lies among the `left` CPUs from `i` on, is asked for and is attached.
abbrev asked : Irqmp → ℕ → ℕ → ℕ → ℕ → Bool
asked s val i left j = leb i j && ltb j (i + left) && (testbit val j && s.cpu_ptrs j)

-- The state after powering up the asked CPUs among those.
record IsPoweredUp (val i left : ℕ) (s t : Irqmp) : Type 0 where
  status :
      (j : ℕ) → j < 32 → testbit t.mpstat j ≡ (testbit s.mpstat j && not (asked s val i left j))
  woken : (j : ℕ) → j < 32 → t.woken j ≡ (asked s val i left j && testbit s.mpstat j || s.woken j)
  same_ptrs : (j : ℕ) → t.cpu_ptrs j ≡ s.cpu_ptrs j

power_up-IsPoweredUp : (val i : ℕ) (s : Irqmp) → i < 32 → IsPoweredUp val i 1 s (power_up val i s)
unfolding power_up
power_up-IsPoweredUp val i s lt = record {
  status = λ j jl.
      at_index
        (λ k. testbit (power_up val i s).mpstat k ≡ (testbit s.mpstat k && not (asked s val i 1 k)))
        j i (ground (arith, testbit-clear s.mpstat i i lt lt))
        λ ne. ground (arith, ne, testbit-clear s.mpstat i j lt jl);
  woken = λ j jl.
      at_index
        (λ k. (power_up val i s).woken k ≡ (asked s val i 1 k && testbit s.mpstat k || s.woken k)) j
        i (ground arith) λ ne. ground (arith, ne);
  same_ptrs = λ j. ground arith;
}

power_up_loop-IsPoweredUp :
    (val left i : ℕ) (s : Irqmp)
    → i + left ≤ 32
    → IsPoweredUp val i left s (power_up_loop val left i s)
unfolding power_up_loop
power_up_loop-IsPoweredUp val zero i s le = record {
  status = λ j jl. ground arith;
  woken = λ j jl. ground arith;
  same_ptrs = λ j. refl;
}
power_up_loop-IsPoweredUp val (suc left) i s le =
    let one = power_up-IsPoweredUp val i s (omega arith) in
    let rest = power_up_loop-IsPoweredUp val left (suc i) (power_up val i s) (omega arith) in
    record {
      status = λ j jl. ground (arith, one.status j jl, rest.status j jl, one.same_ptrs j);
      woken =
          λ j jl. ground (arith, one.status j jl, one.woken j jl, rest.woken j jl, one.same_ptrs j);
      same_ptrs = λ j. rest.same_ptrs j ∙ one.same_ptrs j;
    }

-- A write to the status register powers up exactly the CPUs that exist, are attached and have
-- their bit among the lower 16 of the value set: those bits of the register become 0 and the
-- others stay, and a CPU is woken exactly when it is powered up and was powered down.
pub write_mpstat_lem :
    (value : ℕ) (s : Irqmp) (j : ℕ)
    → s.num_cpus ≤ 8
    → j < 32
    → let up = ltb j s.num_cpus && (testbit (value % 2 ^ 16) j && s.cpu_ptrs j) in
      let t = write_mpstat value s in
      (testbit t.mpstat j ≡ (testbit s.mpstat j && not up))
      × (t.woken j ≡ (up && testbit s.mpstat j || s.woken j))
unfolding write_mpstat
write_mpstat_lem value s j le jl =
    let p = power_up_loop-IsPoweredUp (value % 2 ^ 16) s.num_cpus 0 s (omega arith) in
    (p.status j jl ∙ ground arith, p.woken j jl ∙ ground arith)

write_at_mask :
    (n value : ℕ) (s : Irqmp) → n < 8 → write (0x40 + 4 * n) value s ≡ done (write_mask n value s)
unfolding write
write_at_mask n value s nl =
    let offset : (0x40 + 4 * n - 0x40) / 4 ≡ n = omega arith in
    ground (arith, ap (λ (k : ℕ). write_mask k value s) offset)

read_at_mask : (n : ℕ) (s : Irqmp) → n < 8 → read (0x40 + 4 * n) s ≡ s.pimask n
unfolding read
read_at_mask n s nl =
    let offset : (0x40 + 4 * n - 0x40) / 4 ≡ n = omega arith in ground (arith, ap s.pimask offset)

-- A write to the mask register of CPU `n` returns; then the mask register of CPU `n` reads as
-- the value written, and the mask register of every other CPU as before.
pub read-write_mask :
    (n m value : ℕ) (s : Irqmp)
    → n < 8
    → m < 8
    → (t : Irqmp) × (write (0x40 + 4 * n) value s ≡ done t)
      × (read (0x40 + 4 * m) t ≡ (if m == n then value else read (0x40 + 4 * m) s))
unfolding write_mask update_hints
read-write_mask n m value s nl ml =
    let t = write_mask n value s in
    (
      t,
      write_at_mask n value s nl,
      read_at_mask m t ml ∙ ap (λ (v : ℕ). if m == n then value else v) (sym (read_at_mask m s ml)),
    )
