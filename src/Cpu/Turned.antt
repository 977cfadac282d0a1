-- ===== src/Cpu/Turned.antt =====
-- src/sparcv8/CPU.cpp, the loop of `run`: what one turn does.
use sparcv8emulator.Base.{
  ℕ, ◌%◌, ◌^◌, ◌≡◌, ◌≢◌, refl, ◌∙◌, sym, ap, subst, ◌⊎◌, inl, inr, Bool, true, false, ◌||◌,
  if◌then◌else◌, ltb, ◌==◌, Bool-cases, Option, none, some, bit_and, bit_or, testbit, not32, ◌>>>◌,
  arith,
}
use sparcv8emulator.Mmu.Perms.{execute}
use sparcv8emulator.MemAccess.Core.{Srmmu, get_no_fault}
use sparcv8emulator.MemAccess.Access.{Accessed, mem_access}
use sparcv8emulator.Cpu.State.{Cpu, Decoded, trap, write_back}
use sparcv8emulator.Cpu.Decode.{
  unimp, fmt_of, op2_of, entry, format2, prepared, operands, second_value, decode,
}
use sparcv8emulator.Cpu.Loads.{super}
use sparcv8emulator.Cpu.Special.{TerminateReason, instruction, normal, unimplemented, unimp_reason}
use sparcv8emulator.Cpu.Atomics.{Executed}
use sparcv8emulator.Cpu.Cycle.{begin_cycle}
use sparcv8emulator.Cpu.Precise.{recorded}
use sparcv8emulator.Cpu.Dispatch.{Floating, execute_function}
use sparcv8emulator.Cpu.Reasons.{EndsAsUnimp, FloatingEndsAsUnimp, execute_function-EndsAsUnimp}
use sparcv8emulator.Cpu.Run.{
  Machine, ended_by, finished, execute_one, trapped_fetch, fetch_fault, fetched, turn, ends,
}

-- The machine after the head of the loop, and the fetch of a turn.
abbrev pub started : Machine → Machine
started m =
    let (intc, (countdown, s)) = begin_cycle (m.intc, (m.countdown, m.cpu)) in
    record m { intc = intc; cpu = s; countdown = countdown }

abbrev pub fetch : Machine → Option (Accessed × Srmmu)
fetch m =
    let s = (started m).cpu in mem_access execute 4 s.pc m.decoded.opcode (super s) true m.unit

-- A fetch that failed: trap 1 is recorded, and nothing else of the machine changes but the unit.
pub record Faulted (m : Machine) (u : Srmmu) (m' : Machine) : Type 0 where
  pub number : m'.cpu.trap_type % 2 ^ 8 ≡ 1
  pub enabled : testbit m.cpu.psr 5 ≡ true
  pub reports : get_no_fault u ≡ false
  pub same :
      let s = m.cpu in m' ≡ record m { unit = u; cpu = record s { trap_type = m'.cpu.trap_type } }

-- The fault that is recorded is not a fetch's.
abbrev pub foreign : Srmmu → Bool
foreign u = let at = bit_and (u.core.faults.fault_status_reg >>> 5) 7 in ltb at 2 || ltb 3 at

abbrev pub reason_of : ℕ → TerminateReason
reason_of word = if word == 0 then normal else unimplemented

module _ (floating : Floating) (fpu : Bool) where
  -- The function that the word decodes to was called, and its results were written back; the run
  -- goes on, or it ends with the reason that the word gives to UNIMP, as the word 0 always does.
  pub record Ran (m : Machine) (u : Srmmu) (word : ℕ) (m' : Machine) : Type 0 where
    pub result : Executed
    pub calls :
        execute_function floating fpu
          (decode word m.cpu m.decoded).0
          (decode word m.cpu m.decoded).1
          u
          m.cpu
        ≡ some result
    pub after : m' ≡ record m {
      unit = result.1.0;
      cpu = write_back result.1.1.1 result.1.1.0;
      reason = m'.reason;
      decoded = result.1.1.1;
    }
    pub stops : (m'.reason ≡ m.reason) ⊎ (m'.reason ≡ reason_of word)
    pub zero_stops : word ≡ 0 → m'.reason ≡ normal

  abbrev pub Fetched : Machine → Option (Accessed × Srmmu) → Machine → Type 0
  Fetched m none m' = ⊥
  Fetched m (some (r, u)) m' =
      ((r.fault ≡ 0) × Ran m u r.value m') ⊎ ((r.fault ≢ 0) × Faulted m u m')

  abbrev pub Turned : Machine → Machine → Type 0
  Turned m m' = Fetched (started m) (fetch m) m'

  -- Why a turn throws: the fetch does, or the function does, or the fetch fails where no trap can
  -- be taken or the fault is not one of a fetch.
  abbrev pub Thrown : Machine → Option (Accessed × Srmmu) → Type 0
  Thrown m none = Unit
  Thrown m (some (r, u)) =
      ((r.fault ≡ 0)
        × (execute_function floating fpu (decode r.value m.cpu m.decoded).0
              (decode r.value m.cpu m.decoded).1 u m.cpu
            ≡ none))
      ⊎ ((r.fault ≢ 0)
          × ((testbit m.cpu.psr 5 ≡ false) ⊎ ((get_no_fault u ≡ true) ⊎ (foreign u ≡ true))))

second_value_opcode : (idx : ℕ) (s : Cpu) (d : Decoded) → (second_value idx s d).opcode ≡ d.opcode
unfolding second_value
second_value_opcode idx s d = ground arith

decode_opcode : (word : ℕ) (s : Cpu) (d : Decoded) → (decode word s d).1.opcode ≡ word
unfolding decode operands prepared
decode_opcode word s d = elim (Bool-cases (fmt_of word == 1)) [
  | inl e ↦ simp e refl
  | inr e ↦ elim (Bool-cases (fmt_of word == 0)) [
    | inl k ↦ simp (e, k) refl
    | inr k ↦ simp (e, k) (second_value_opcode _ s _)
  ]
]

zero_unimp : (s : Cpu) (d : Decoded) → (decode 0 s d).0 ≡ unimp
unfolding decode fmt_of op2_of entry format2
zero_unimp s d = refl

going_reason : (r : TerminateReason) → ends r ≡ false → r ≡ instruction
unfolding ends
going_reason normal e = cc
going_reason unimplemented e = cc
going_reason instruction e = refl

some_injective : {A : Type 0} {x y : A} → some x ≡ some y → x ≡ y
some_injective e = cc

-- What a failed fetch gives.
abbrev FaultOr : Machine → Srmmu → Option Machine → Type 0
FaultOr m u none = (testbit m.cpu.psr 5 ≡ false) ⊎ ((get_no_fault u ≡ true) ⊎ (foreign u ≡ true))
FaultOr m u (some m') = Faulted m u m'

trapped_fetch-FaultOr :
    (m : Machine) (u : Srmmu)
    → get_no_fault u ≡ false
    → FaultOr m u (trapped_fetch (record m { unit = u }) (trap 1 m.decoded m.cpu))
unfolding trapped_fetch trap
trapped_fetch-FaultOr m u reports =
    let s = m.cpu in
    let number = bit_or (bit_and s.trap_type (not32 0xff)) (bit_and 1 0xff) in
    let one : number % 2 ^ 8 ≡ 1 = recorded s.trap_type 1 (omega arith) in
    elim (Bool-cases (testbit s.psr 5)) [
      | inl on ↦
          let waits : (number == 0) ≡ false = ground (arith, one) in
          simp (on, waits) (record { number = one; enabled = on; reports = reports; same = refl })
      | inr off ↦ simp off (inl refl)
    ]

fetch_fault-FaultOr : (m : Machine) (u : Srmmu) → FaultOr m u (fetch_fault (record m { unit = u }))
unfolding fetch_fault
fetch_fault-FaultOr m u = elim (Bool-cases (get_no_fault u)) [
  | inl f ↦
      let never : (foreign u || get_no_fault u) ≡ true = ground (arith, f) in
      simp never (inr (inl f))
  | inr f ↦ elim (Bool-cases (foreign u)) [
    | inl bad ↦ simp bad (inr (inr refl))
    | inr good ↦ simp (good, f) (trapped_fetch-FaultOr m u f)
  ]
]

module _ (floating : Floating) (fpu : Bool) (as_unimp : FloatingEndsAsUnimp floating) where
  zero_runs :
      (word : ℕ) (s : Cpu) (before d : Decoded) (u : Srmmu)
      → word ≡ 0
      → execute_function floating fpu (decode word s before).0 d u s
        ≡ some (unimp_reason d, (u, (s, d)))
  unfolding execute_function
  zero_runs word s before d u e = rw (e, zero_unimp s before) refl

  ended_reason :
      (m : Machine) (word : ℕ) (d : Decoded) (r : TerminateReason) (x : Srmmu × (Cpu × Decoded))
      → d.opcode ≡ word
      → EndsAsUnimp d (some (r, x))
      → (ended_by m.reason r ≡ m.reason) ⊎ (ended_by m.reason r ≡ reason_of word)
  unfolding EndsAsUnimp unimp_reason ended_by
  ended_reason m word d r x op (inl e) = inl (rw e refl)
  ended_reason m word d r x op (inr e) = elim (Bool-cases (word == 0)) [
    | inl z ↦ inr (rw (e, op, z) refl)
    | inr z ↦ inr (rw (e, op, z) refl)
  ]

  zero_reason :
      (m : Machine) (d : Decoded) (r : TerminateReason)
      → d.opcode ≡ 0
      → unimp_reason d ≡ r
      → ended_by m.reason r ≡ normal
  unfolding unimp_reason ended_by
  zero_reason m d r op e = rw (← e, op) refl

  -- What a turn gives.
  abbrev pub TurnedOr : Machine → Option (Accessed × Srmmu) → Option Machine → Type 0
  TurnedOr m o none = Thrown floating fpu m o
  TurnedOr m o (some m') = Fetched floating fpu m o m'

  finished-TurnedOr :
      (m : Machine) (u : Srmmu) (r : Accessed) (o : Option Executed)
      → r.fault ≡ 0
      → execute_function floating fpu
          (decode r.value m.cpu m.decoded).0
          (decode r.value m.cpu m.decoded).1
          u
          m.cpu
        ≡ o
      → TurnedOr m (some (r, u)) (finished (record m { unit = u }) o)
  unfolding finished
  finished-TurnedOr m u r none z calls = inl (z, calls)
  finished-TurnedOr m u r (some (why, (u', (s', d')))) z calls =
      let d = (decode r.value m.cpu m.decoded).1 in
      let op = decode_opcode r.value m.cpu m.decoded in
      let how : EndsAsUnimp d (some (why, (u', (s', d')))) = subst (EndsAsUnimp d) calls (
        execute_function-EndsAsUnimp floating fpu as_unimp (decode r.value m.cpu m.decoded).0 d u
          m.cpu) in
      inl (
        z,
        record {
          result = (why, (u', (s', d')));
          calls = calls;
          after = refl;
          stops = ended_reason m r.value d why (u', (s', d')) op how;
          zero_stops = λ k. zero_reason m d why (op ∙ k) (
              ap (λ (x : Executed). x.0)
                (some_injective (sym (zero_runs r.value m.cpu m.decoded d u k) ∙ calls)));
        },
      )

  fault-TurnedOr :
      (m : Machine) (u : Srmmu) (r : Accessed) (o : Option Machine)
      → r.fault ≢ 0
      → FaultOr m u o
      → TurnedOr m (some (r, u)) o
  fault-TurnedOr m u r none f h = inr (f, h)
  fault-TurnedOr m u r (some m') f h = inr (f, h)

  fetched-TurnedOr :
      (m : Machine) (o : Option (Accessed × Srmmu)) → TurnedOr m o (fetched floating fpu m o)
  unfolding fetched execute_one
  fetched-TurnedOr m none = tt
  fetched-TurnedOr m (some (r, u)) = elim (Bool-cases (r.fault == 0)) [
    | inl z ↦ simp z (finished-TurnedOr m u r _ (ground (arith, z)) refl)
    | inr f ↦ simp f (fault-TurnedOr m u r _ (ground (arith, f)) (fetch_fault-FaultOr m u))
  ]

  pub turn-TurnedOr : (m : Machine) → TurnedOr (started m) (fetch m) (turn floating fpu m)
  unfolding turn
  turn-TurnedOr m = fetched-TurnedOr (started m) (fetch m)
