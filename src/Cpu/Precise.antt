-- ===== src/Cpu/Precise.antt =====
-- src/sparcv8/CPU_instructions.cpp: loads and stores are done, or record the trap that belongs to
-- their operands and to the memory's answers, and leave the registers and the program counters.
use sparcv8emulator.Base.{
  ℕ, ◌+◌, ◌-◌, ◌*◌, ◌/◌, ◌%◌, ◌^◌, ◌<◌, ◌≡◌, ◌≢◌, refl, ◌∙◌, ap, inl, inr, ◌⊎◌, Bool, true, false,
  ◌&&◌, if◌then◌else◌, ◌==◌, Bool-cases, Option, none, some, bit_and, bit_or, testbit, u32, not32,
  bit_and-low, bit_and-mod, bit_and-zero, bit_or-add, arith,
}
use sparcv8emulator.Cpu.State.{Cpu, Decoded, write_reg, trap, next}
use sparcv8emulator.Cpu.Decode.{read_into}
use sparcv8emulator.Cpu.Control.{memory_addr_not_aligned, illegal_instruction}
use sparcv8emulator.Cpu.Loads.{
  MemoryFunction, ld, ldub, lduh, ldd, st, stb, sth, std, ldsb, ldsh, data_access_exception, Port,
  super, extended8, extended16, loaded, load8, load16, load32, loaded_pair, load64, store_one,
  store64, trapped, finish, aligned, even_rd, memory_access,
}

-- The size of the access in bytes.
abbrev pub width : MemoryFunction → ℕ
width ld = 4
width ldub = 1
width lduh = 2
width ldd = 8
width ldsb = 1
width ldsh = 2
width st = 4
width stb = 1
width sth = 2
width std = 8

abbrev pub in_pairs : MemoryFunction → Bool
in_pairs ld = false
in_pairs ldub = false
in_pairs lduh = false
in_pairs ldd = true
in_pairs ldsb = false
in_pairs ldsh = false
in_pairs st = false
in_pairs stb = false
in_pairs sth = false
in_pairs std = true

-- The trap that the operands call for; 9 is the one that is left to the memory.
abbrev pub cause : MemoryFunction → Decoded → ℕ
cause f d = if in_pairs f && (d.rd % 2 == 1) then 2 else if d.ev % width f == 0 then 9 else 7

-- A memory that refuses every access and reports it, and one that refuses none.
pub record Refuses {M : Type 0} (port : Port M) : Type 0 where
  pub loads : (size va : ℕ) (sv : Bool) (m : M) → (port.load size va sv m).0 ≡ none
  pub stores : (size va v : ℕ) (sv : Bool) (m : M) → (port.store size va v sv m).0 ≡ false
  pub reports : (m : M) → port.no_fault m ≡ false

pub record Serves {M : Type 0} (port : Port M) : Type 0 where
  pub loads : (size va : ℕ) (sv : Bool) (m : M) → (port.load size va sv m).0 ≢ none
  pub stores : (size va v : ℕ) (sv : Bool) (m : M) → (port.store size va v sv m).0 ≡ true

-- With the trap `c` that the operands call for: the instruction goes on to the next one, or the
-- trap is recorded and nothing else of the processor and the instruction changes; the emulator
-- throws only on a trap while traps are disabled.
abbrev pub Precise :
    {M : Type 0} → Port M → ℕ → Decoded → M → Cpu → Option ((M × Cpu) × Decoded) → Type 0
Precise port c d m s none = (testbit s.psr 5 ≡ false) × (c ≡ 9 → ¬ Serves port)
Precise port c d m s (some ((m', s'), d')) =
    ((c ≡ 9)
      × (¬ Refuses port)
      × (s'.trap_type ≡ s.trap_type)
      × (d'.pc ≡ d.npc)
      × (d'.npc ≡ u32 (d.npc + 4)))
    ⊎ ((s'.trap_type % 2 ^ 8 ≡ c)
        × (testbit s.psr 5 ≡ true)
        × (c ≡ 9 → ¬ Serves port)
        × (c ≢ 9 → m' ≡ m)
        × (d' ≡ d)
        × (s' ≡ record s { trap_type = s'.trap_type }))

-- An access that fails leaves the registers, none records a trap, and whether it fails is what the
-- memory says.
abbrev Kept : {M : Type 0} → Port M → Cpu → Bool × (M × Cpu) → Type 0
Kept port s (done, (m, s')) =
    (done ≡ false → s' ≡ s)
    × (s'.trap_type ≡ s.trap_type)
    × (Refuses port → done ≡ false)
    × (Serves port → done ≡ true)

write_reg-trap_type : (v r : ℕ) (s : Cpu) → (write_reg v r s).trap_type ≡ s.trap_type
unfolding write_reg
write_reg-trap_type v r s = ground arith

pub recorded :
    (old n : ℕ) → n < 2 ^ 8 → bit_or (bit_and old (not32 0xff)) (bit_and n 0xff) % 2 ^ 8 ≡ n
recorded old n lt =
    let high = bit_and old (not32 0xff) in
    let low : high % 2 ^ 8 ≡ 0 = bit_and-low 8 old (not32 0xff) ∙ bit_and-zero (old % 2 ^ 8) in
    let whole : high ≡ high / 2 ^ 8 * 2 ^ 8 = omega (arith, low) in
    let number : bit_and n 0xff ≡ n = bit_and-mod 8 n ∙ omega (arith, lt) in
    let sum : bit_or high n ≡ high / 2 ^ 8 * 2 ^ 8 + n =
      ap (λ (h : ℕ). bit_or h n) whole ∙ bit_or-add 8 (high / 2 ^ 8) n lt in
    rw (number, sum) (omega (arith, lt))

module _ {M : Type 0} (port : Port M) where
  trap-Precise :
      (n : ℕ) (d : Decoded) (m m' : M) (s : Cpu)
      → n < 2 ^ 8
      → (n ≡ 9 → ¬ Serves port)
      → (n ≢ 9 → m' ≡ m)
      → Precise port n d m s (trapped port n d (m', s))
  unfolding trapped trap
  trap-Precise n d m m' s lt fails same = elim (Bool-cases (testbit s.psr 5)) [
    | inl e ↦ simp e (inr (recorded s.trap_type n lt, refl, fails, same, refl, refl))
    | inr e ↦ simp e (refl, fails)
  ]

  -- A trap after an access that failed.
  late_trap :
      (d : Decoded) (m m' : M) (s s' : Cpu)
      → s' ≡ s
      → ¬ Serves port
      → Precise port 9 d m s (trapped port data_access_exception d (m', s'))
  late_trap d m m' s s' e fails =
      rw e (trap-Precise 9 d m m' s (omega arith) (λ k. fails) (λ k. absurd (k refl)))

  finish-Precise :
      (d d' : Decoded) (m : M) (s : Cpu) (x : Bool × (M × Cpu))
      → d'.npc ≡ d.npc
      → Kept port s x
      → Precise port 9 d m s (finish port d d' x)
  unfolding finish next
  finish-Precise d d' m s (true, (m', s')) e (same, tt_same, refuses, serves) =
      inl (refl, (λ r. let k = refuses r in cc), tt_same, e, ap (λ (t : ℕ). u32 (t + 4)) e)
  finish-Precise d d' m s (false, (m', s')) e (same, tt_same, refuses, serves) =
      elim (Bool-cases (port.no_fault m')) [
        | inl f ↦ simp f (
            inl
              (refl, (λ r. let k = r.reports m' in cc), tt_same, e, ap (λ (t : ℕ). u32 (t + 4)) e))
        | inr f ↦ simp f (late_trap d m m' s s' (same refl) (λ r. let k = serves r in cc))
      ]

  loaded-Kept :
      (extend : ℕ → ℕ) (rd : ℕ) (s : Cpu) (r : Option ℕ × M)
      → (Refuses port → r.0 ≡ none)
      → (Serves port → r.0 ≢ none)
      → Kept port s (loaded port extend rd s r)
  unfolding loaded
  loaded-Kept extend rd s (none, m) refuses serves =
      (λ e. refl, refl, λ r. refl, λ r. absurd (serves r refl))
  loaded-Kept extend rd s (some v, m) refuses serves =
      (λ e. cc, write_reg-trap_type (extend v) rd s, λ r. let k = refuses r in cc, λ r. refl)

  loaded_pair-Kept :
      (rd : ℕ) (s : Cpu) (v : Option ℕ) (r : Option ℕ × M)
      → (Refuses port → v ≡ none)
      → (Serves port → (v ≢ none) × (r.0 ≢ none))
      → Kept port s (loaded_pair port rd s v r)
  unfolding loaded_pair
  loaded_pair-Kept rd s none (w, m) refuses serves =
      (λ e. refl, refl, λ r. refl, λ r. absurd ((serves r).0 refl))
  loaded_pair-Kept rd s (some v) (none, m) refuses serves =
      (λ e. refl, refl, λ r. refl, λ r. absurd ((serves r).1 refl))
  loaded_pair-Kept rd s (some v) (some w, m) refuses serves = (
    λ e. cc,
    write_reg-trap_type w (rd + 1) (write_reg v rd s) ∙ write_reg-trap_type v rd s,
    λ r. let k = refuses r in cc,
    λ r. refl,
  )

  -- Of two accesses, both are done or the first is not.
  store_pair-Kept :
      (first second : Bool) (m : M) (s : Cpu)
      → (Refuses port → first ≡ false)
      → (Serves port → (first ≡ true) × (second ≡ true))
      → Kept port s (first && second, (m, s))
  store_pair-Kept first second m s refuses serves =
      (λ e. refl, refl, λ r. rw (refuses r) refl, λ r. rw ((serves r).0, (serves r).1) refl)

  byte-Precise :
      (d : Decoded) (m : M) (s : Cpu) (o : Option ((M × Cpu) × Decoded))
      → Precise port 9 d m s o
      → Precise port (if d.ev % 1 == 0 then 9 else 7) d m s o
  byte-Precise d m s o p = let e : (d.ev % 1 == 0) ≡ true = ground arith in rw e p

  aligned-Precise :
      (n : ℕ) (d : Decoded) (m : M) (s : Cpu) (rest : Option ((M × Cpu) × Decoded))
      → Precise port 9 d m s rest
      → Precise port
          (if d.ev % 2 ^ n == 0 then 9 else 7)
          d
          m
          s
          (aligned port (2 ^ n - 1) d (m, s) rest)
  unfolding aligned
  aligned-Precise n d m s rest p = elim (Bool-cases (d.ev % 2 ^ n == 0)) [
    | inl e ↦ rw (bit_and-mod n d.ev, e) p
    | inr e ↦
        rw (bit_and-mod n d.ev, e)
          (trap-Precise memory_addr_not_aligned d m m s (omega arith)
            (λ k. absurd (omega (arith, k))) (λ k. refl))
  ]

  even_rd-Precise :
      (c : ℕ) (d : Decoded) (m : M) (s : Cpu) (rest : Option ((M × Cpu) × Decoded))
      → Precise port c d m s rest
      → Precise port (if d.rd % 2 == 1 then 2 else c) d m s (even_rd port d (m, s) rest)
  unfolding even_rd testbit
  even_rd-Precise c d m s rest p =
      let odd : testbit d.rd 0 ≡ (d.rd % 2 == 1) = refl in
      elim (Bool-cases (d.rd % 2 == 1)) [
        | inl e ↦
            rw (odd, e)
              (trap-Precise illegal_instruction d m m s (omega arith)
                (λ k. absurd (omega (arith, k))) (λ k. refl))
        | inr e ↦ rw (odd, e) p
      ]

  load-Precise :
      (extend : ℕ → ℕ) (size : ℕ) (d : Decoded) (m : M) (s : Cpu)
      → Precise port 9 d m s
          (finish port d d (loaded port extend d.rd s (port.load size d.ev (super s) m)))
  load-Precise extend size d m s = finish-Precise d d m s _ refl (
      loaded-Kept extend d.rd s (port.load size d.ev (super s) m)
        (λ r. r.loads size d.ev (super s) m) (λ r. r.loads size d.ev (super s) m))

  store-Precise :
      (size : ℕ) (d : Decoded) (m : M) (s : Cpu)
      → Precise port 9 d m s (finish port d d (store_one port size d.ev d.rd (m, s)))
  unfolding store_one
  store-Precise size d m s = finish-Precise d d m s _ refl (
    λ e. refl,
    refl,
    λ r. r.stores size d.ev _ (super s) m,
    λ r. r.stores size d.ev _ (super s) m,
  )

-- Whatever the memory does, a load or a store of two registers with an odd register number records
-- trap 2, any with an address that is no multiple of its size records trap 7, and both leave the
-- memory; any other goes on to the next instruction without a trap or records trap 9. It does not
-- go on if the memory refuses every access and reports faults, and records no trap 9 if the memory
-- refuses none. A trap leaves every register and both program counters. The emulator throws only
-- on such a trap while traps are disabled.
pub memory_access-Precise :
    {M : Type 0} (port : Port M) (f : MemoryFunction) (d : Decoded) (m : M) (s : Cpu)
    → Precise port (cause f d) d m s (memory_access port f d (m, s))
unfolding memory_access load8 load16 load32 load64 store64
memory_access-Precise port ld d m s =
    aligned-Precise port 2 d m s _ (load-Precise port (extended8 false) 4 d m s)
memory_access-Precise port ldub d m s =
    byte-Precise port d m s _ (load-Precise port (extended8 false) 1 d m s)
memory_access-Precise port lduh d m s =
    aligned-Precise port 1 d m s _ (load-Precise port (extended16 false) 2 d m s)
memory_access-Precise port ldd d m s =
    let first = port.load 4 d.ev (super s) m in
    let second = port.load 4 (u32 (d.ev + 4)) (super s) first.1 in
    even_rd-Precise port _ d m s _ (
      aligned-Precise port 3 d m s _ (
        finish-Precise port d d m s _ refl (
          loaded_pair-Kept port (bit_and d.rd (not32 1)) s first.0 second
            (λ r. r.loads 4 d.ev (super s) m)
            (λ r. (r.loads 4 d.ev (super s) m, r.loads 4 (u32 (d.ev + 4)) (super s) first.1)))))
memory_access-Precise port ldsb d m s =
    byte-Precise port d m s _ (load-Precise port (extended8 true) 1 d m s)
memory_access-Precise port ldsh d m s =
    aligned-Precise port 1 d m s _ (load-Precise port (extended16 true) 2 d m s)
memory_access-Precise port st d m s = aligned-Precise port 2 d m s _ (store-Precise port 4 d m s)
memory_access-Precise port stb d m s = byte-Precise port d m s _ (store-Precise port 1 d m s)
memory_access-Precise port sth d m s = aligned-Precise port 1 d m s _ (store-Precise port 2 d m s)
memory_access-Precise port std d m s =
    let value = read_into d.rd s 0 in
    let value' = read_into (d.rd + 1) s value in
    let first = port.store 4 d.ev value (super s) m in
    let second = port.store 4 (u32 (d.ev + 4)) value' (super s) first.1 in
    even_rd-Precise port _ d m s _ (
      aligned-Precise port 3 d m s _ (
        finish-Precise port d (record d { rd = bit_and d.rd (not32 1) }) m s _ refl
          (store_pair-Kept port first.0 second.0 second.1 s (λ r. r.stores 4 d.ev value (super s) m)
            (λ r. (
              r.stores 4 d.ev value (super s) m,
              r.stores 4 (u32 (d.ev + 4)) value' (super s) first.1,
            )))))
