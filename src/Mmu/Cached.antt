-- ===== src/Mmu/Cached.antt =====
-- src/sparcv8/MMU.cpp, `translate_va`: translation with the TLBs against translation without them.
use sparcv8emulator.Base.{
  ℕ, ◌^◌, ◌≤◌, ◌<◌, ◌≡◌, ◌≢◌, refl, inl, inr, Bool, true, false, ltb, ◌==◌, Bool-cases, ==_iff,
  Option, none, some, arith,
}
use sparcv8emulator.Mmu.Tlb.{Tlb, is_valid, lookup, get_addr_level_mask, placed, insert}
use sparcv8emulator.Mmu.Walk.{Memory, entry_type, root_entry, get_pte}
use sparcv8emulator.Mmu.Perms.{
  Intent, load, store, execute, get_access_type, fault_type, check_perms,
}
use sparcv8emulator.Mmu.Pages.{get_pte_level}
use sparcv8emulator.Mmu.Rights.{perm_ok-fault_type}
use sparcv8emulator.Mmu.Translate.{
  Mmu, Translation, is_execute, tlb_of, with_tlb, checked, hit_checked, stored, inserted,
  then_checked, walked, translated, translate_va,
}
use sparcv8emulator.Mmu.Coherent.{Coherent, Found, lookup-Found, Inserted, insert-Inserted}

-- Translation without TLBs: the walk, then the full check.
unfoldable pub uncached : Memory → ℕ → Bool → Intent → Bool → Mmu → Mmu × Translation
uncached memory vaddr supervisor intent report m =
    let (pte, level) = get_pte memory m.ctx_tbl_ptr m.ctx_n vaddr 0 in
    checked vaddr intent supervisor report pte level m

-- A hit's check records and answers what the full check does.
hit_checked-checked :
    (vaddr : ℕ) (intent : Intent) (supervisor report : Bool) (pte level : ℕ) (m : Mmu)
    → entry_type pte ≡ 2
    → hit_checked vaddr intent supervisor report pte level m
      ≡ checked vaddr intent supervisor report pte level m
unfolding hit_checked checked check_perms
hit_checked-checked vaddr intent supervisor report pte level m e =
    elim (Bool-cases (fault_type pte (get_access_type intent supervisor) level == 0)) [
      | inl z ↦ simp (perm_ok-fault_type pte intent supervisor level e, z) refl
      | inr f ↦ simp (perm_ok-fault_type pte intent supervisor level e, f) refl
    ]

module _ (memory : Memory) (ctx_tbl_ptr : ℕ) where
  pub record BothCoherent (m : Mmu) : Type 0 where
    pub instructions : Coherent memory ctx_tbl_ptr m.itlb
    pub accesses : Coherent memory ctx_tbl_ptr m.dtlb

  tlb_of-Coherent :
      (intent : Intent) (m : Mmu) → BothCoherent m → Coherent memory ctx_tbl_ptr (tlb_of intent m)
  unfolding is_execute
  tlb_of-Coherent load m ok = ok.accesses
  tlb_of-Coherent store m ok = ok.accesses
  tlb_of-Coherent execute m ok = ok.instructions

  with_tlb-BothCoherent :
      (intent : Intent) (t : Tlb) (m : Mmu)
      → BothCoherent m
      → Coherent memory ctx_tbl_ptr t
      → BothCoherent (with_tlb intent t m)
  unfolding is_execute
  with_tlb-BothCoherent load t m ok c = record { instructions = ok.instructions; accesses = c }
  with_tlb-BothCoherent store t m ok c = record { instructions = ok.instructions; accesses = c }
  with_tlb-BothCoherent execute t m ok c = record { instructions = c; accesses = ok.accesses }

  -- A result that is that of `uncached`, in a state whose TLBs are sound again.
  abbrev pub Agrees : Mmu × Translation → Option (Mmu × Translation) → Type 0
  Agrees (u, expected) none = ⊥
  Agrees (u, expected) (some (m, r)) = (r ≡ expected) × (m.faults ≡ u.faults) × BothCoherent m

  abbrev Entered : Mmu → Option Mmu → Type 0
  Entered m none = ⊥
  Entered m (some m') = (m'.faults ≡ m.faults) × BothCoherent m'

  stored-Entered :
      (intent : Intent) (c v l pte mask : ℕ) (m : Mmu)
      → get_addr_level_mask l ≡ some mask
      → BothCoherent m
      → is_valid pte ≡ true
      → Inserted memory ctx_tbl_ptr (insert c v l pte (tlb_of intent m))
      → Entered m (stored intent m (insert c v l pte (tlb_of intent m)))
  unfolding insert placed stored
  stored-Entered intent c v l pte mask m is_mask ok valid =
      simp (valid, is_mask) (λ t_ok. (refl, with_tlb-BothCoherent intent _ m ok t_ok))

  inserted-Entered :
      (intent : Intent) (v pte l : ℕ) (m : Mmu)
      → v < 2 ^ 32
      → (entry_type pte ≡ 2 → (mask : ℕ) × (get_addr_level_mask l ≡ some mask))
      → get_pte memory ctx_tbl_ptr m.ctx_n v 0 ≡ (pte, l)
      → BothCoherent m
      → Entered m (inserted intent v pte l m)
  unfolding inserted entry_type is_valid
  inserted-Entered intent v pte l m vl is_mask w ok = elim (Bool-cases (entry_type pte == 2)) [
    | inl e ↦
        let k = is_mask ((==_iff (entry_type pte) 2).0 e) in
        simp e (
          stored-Entered intent m.ctx_n v l pte k.0 m k.1 ok e (
            insert-Inserted memory ctx_tbl_ptr m.ctx_n v l pte (tlb_of intent m) vl
              (tlb_of-Coherent intent m ok) w))
    | inr e ↦ simp e (refl, ok)
  ]

  then_checked-Agrees :
      (vaddr : ℕ) (intent : Intent) (supervisor report : Bool) (pte level : ℕ) (m : Mmu)
      (o : Option Mmu)
      → Entered m o
      → Agrees
          (checked vaddr intent supervisor report pte level m)
          (then_checked vaddr intent supervisor report pte level o)
  unfolding then_checked checked
  then_checked-Agrees vaddr intent supervisor report pte level m none e = e
  then_checked-Agrees vaddr intent supervisor report pte level m (some m') e =
      simp e.0 (refl, refl, record { instructions = e.1.instructions; accesses = e.1.accesses })

  hit_checked-Agrees :
      (vaddr : ℕ) (intent : Intent) (supervisor report : Bool) (pte level : ℕ) (m : Mmu)
      → BothCoherent m
      → entry_type pte ≡ 2
      → Agrees
          (checked vaddr intent supervisor report pte level m)
          (some (hit_checked vaddr intent supervisor report pte level m))
  unfolding checked
  hit_checked-Agrees vaddr intent supervisor report pte level m ok e =
      rw (hit_checked-checked vaddr intent supervisor report pte level m e)
        (refl, refl, record { instructions = ok.instructions; accesses = ok.accesses })

translated-Agrees :
    (memory : Memory) (vaddr : ℕ) (supervisor : Bool) (intent : Intent) (report : Bool)
    (found : Option (ℕ × ℕ)) (m : Mmu)
    → vaddr < 2 ^ 32
    → m.ctx_n ≤ 255
    → entry_type (root_entry memory m.ctx_tbl_ptr m.ctx_n) ≢ 2
    → BothCoherent memory m.ctx_tbl_ptr m
    → Found memory m.ctx_tbl_ptr m.ctx_n vaddr found
    → Agrees memory m.ctx_tbl_ptr
        (uncached memory vaddr supervisor intent report m)
        (translated memory vaddr supervisor intent report found m)
unfolding translated walked uncached is_valid entry_type
translated-Agrees memory vaddr supervisor intent report none m vl cl root ok f =
    let small : ltb 255 m.ctx_n ≡ false = ground arith in
    let w = get_pte memory m.ctx_tbl_ptr m.ctx_n vaddr 0 in
    simp small (
      then_checked-Agrees memory m.ctx_tbl_ptr vaddr intent supervisor report w.0 w.1 m
        (inserted intent vaddr w.0 w.1 m)
        (inserted-Entered memory m.ctx_tbl_ptr intent vaddr w.0 w.1 m vl
          (get_pte_level memory m.ctx_tbl_ptr m.ctx_n vaddr root) refl ok))
translated-Agrees memory vaddr supervisor intent report (some (pte, level)) m vl cl root ok f =
    rw f.0 (
      hit_checked-Agrees memory m.ctx_tbl_ptr vaddr intent supervisor report pte level m ok
        ((==_iff (entry_type pte) 2).0 f.1))

-- For a context number that the hardware allows, and a context table that holds pointers to
-- tables, translation through the TLBs gives the result and records the fault that the walk and
-- the full check give, it throws nothing, and the TLBs stay sound for the next access.
pub translate_va-uncached :
    (memory : Memory) (vaddr : ℕ) (supervisor : Bool) (intent : Intent) (report : Bool) (m : Mmu)
    → vaddr < 2 ^ 32
    → m.ctx_n ≤ 255
    → entry_type (root_entry memory m.ctx_tbl_ptr m.ctx_n) ≢ 2
    → BothCoherent memory m.ctx_tbl_ptr m
    → Agrees memory m.ctx_tbl_ptr
        (uncached memory vaddr supervisor intent report m)
        (translate_va memory vaddr supervisor intent report m)
unfolding translate_va uncached checked
translate_va-uncached memory vaddr supervisor intent report m vl cl root ok =
    let l =
      lookup-Found memory m.ctx_tbl_ptr m.ctx_n vaddr (tlb_of intent m) (omega arith) vl
        (tlb_of-Coherent memory m.ctx_tbl_ptr intent m ok) in
    let t = (lookup m.ctx_n vaddr (tlb_of intent m)).0 in
    translated-Agrees memory vaddr supervisor intent report
      (lookup m.ctx_n vaddr (tlb_of intent m)).1 (with_tlb intent t m) vl cl root
      (with_tlb-BothCoherent memory m.ctx_tbl_ptr intent t m ok l.0) l.1
