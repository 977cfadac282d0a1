-- ===== src/Mmu/Coherent.antt =====
-- src/sparcv8/MMU.cpp, class TLB: its answers against the page tables.
use sparcv8emulator.Base.{
  ℕ, zero, suc, ◌^◌, ◌<◌, ◌≡◌, refl, sym, inl, inr, Bool, true, false, ◌&&◌, if◌then◌else◌, ◌==◌,
  Bool-cases, ==_iff, Option, none, some, bit_and, arith,
}
use sparcv8emulator.Mmu.Tlb.{
  Entry, Tlb, tlb_entries, no_context, is_valid, matches, usable, scan, warmed, lookup,
  get_addr_level_mask, placed, insert, dropped, invalidate_strict, flush,
}
use sparcv8emulator.Mmu.Walk.{Memory, get_pte}
use sparcv8emulator.Mmu.Pages.{get_pte_same_page}

both_true : (a b : Bool) → (a && b) ≡ true → (a ≡ true) × (b ≡ true)
both_true true b e = (refl, e)
both_true false b e = absurd (cc)

module _ (memory : Memory) (ctx_tbl_ptr : ℕ) where
  -- The entry says what the page tables say, for every address that it matches.
  pub record Sound (e : Entry) : Type 0 where
    pub valid : is_valid e.pte ≡ true
    pub answers :
        (v : ℕ)
        → v < 2 ^ 32
        → bit_and v e.mask ≡ e.vaddr_tag
        → get_pte memory ctx_tbl_ptr e.context v 0 ≡ (e.pte, e.level)

  -- Every entry in use is sound, and so is the micro-cache unless it is marked as empty.
  pub record Coherent (t : Tlb) : Type 0 where
    pub entries : (i : ℕ) → is_valid (t.entries i).pte ≡ true → Sound (t.entries i)
    pub micro : t.micro.context < no_context → Sound t.micro

  -- What a lookup may answer: nothing, or the valid entry where the walk ends.
  abbrev pub Found : ℕ → ℕ → Option (ℕ × ℕ) → Type 0
  Found c v none = Unit
  Found c v (some r) = (get_pte memory ctx_tbl_ptr c v 0 ≡ r) × (is_valid r.0 ≡ true)

  abbrev Scanned : ℕ → ℕ → Option Entry → Type 0
  Scanned c v none = Unit
  Scanned c v (some e) = Sound e × (matches c v e ≡ true)

  scan-Scanned : (c v : ℕ) (t : Tlb) → Coherent t → (n i : ℕ) → Scanned c v (scan c v t.entries n i)
  unfolding scan usable
  scan-Scanned c v t ok zero i = tt
  scan-Scanned c v t ok (suc n) i = elim (Bool-cases (usable c v (t.entries i))) [
    | inl e ↦
        let b = both_true (is_valid (t.entries i).pte) (matches c v (t.entries i)) e in
        simp e (ok.entries i b.0, b.1)
    | inr e ↦ simp e (scan-Scanned c v t ok n (suc i))
  ]

  matches-Found :
      (c v : ℕ) (e : Entry)
      → v < 2 ^ 32
      → Sound e
      → matches c v e ≡ true
      → Found c v (some (e.pte, e.level))
  unfolding matches
  matches-Found c v e vl s m =
      let b = both_true (e.context == c) (bit_and v e.mask == e.vaddr_tag) m in
      (
        rw (← (==_iff e.context c).0 b.0)
            (s.answers v vl ((==_iff (bit_and v e.mask) e.vaddr_tag).0 b.1)),
        s.valid,
      )

  warmed-Found :
      (c v : ℕ) (t : Tlb) (o : Option Entry)
      → v < 2 ^ 32
      → Coherent t
      → Scanned c v o
      → Coherent (warmed t o).0 × Found c v (warmed t o).1
  unfolding warmed
  warmed-Found c v t none vl ok s = (ok, tt)
  warmed-Found c v t (some e) vl ok s =
      (record { entries = ok.entries; micro = λ lt. s.0 }, matches-Found c v e vl s.0 s.1)

  -- A lookup keeps the TLB sound and answers, if at all, as the page tables do.
  pub lookup-Found :
      (c v : ℕ) (t : Tlb)
      → c < no_context
      → v < 2 ^ 32
      → Coherent t
      → Coherent (lookup c v t).0 × Found c v (lookup c v t).1
  unfolding lookup matches
  lookup-Found c v t cl vl ok = elim (Bool-cases (matches c v t.micro)) [
    | inl e ↦
        let b = both_true (t.micro.context == c) (bit_and v t.micro.mask == t.micro.vaddr_tag) e in
        simp e (ok, matches-Found c v t.micro vl (ok.micro (ground (arith, b.0))) e)
    | inr e ↦ simp e (
        warmed-Found c v t (scan c v t.entries tlb_entries 0) vl ok
          (scan-Scanned c v t ok tlb_entries 0))
  ]

  either :
      (b : Bool) (x y : Entry)
      → (is_valid x.pte ≡ true → Sound x)
      → (is_valid y.pte ≡ true → Sound y)
      → is_valid (if b then x else y).pte ≡ true
      → Sound (if b then x else y)
  either true x y sx sy valid = sx valid
  either false x y sx sy valid = sy valid

  -- An `insert` that does not throw keeps the TLB sound.
  abbrev pub Inserted : Option Tlb → Type 0
  Inserted none = Unit
  Inserted (some t) = Coherent t

  placed-Inserted :
      (c v l pte : ℕ) (t : Tlb) (o : Option ℕ)
      → v < 2 ^ 32
      → Coherent t
      → is_valid pte ≡ true
      → get_addr_level_mask l ≡ o
      → get_pte memory ctx_tbl_ptr c v 0 ≡ (pte, l)
      → Inserted (placed c v l pte t o)
  unfolding placed
  placed-Inserted c v l pte t none vl ok valid m w = tt
  placed-Inserted c v l pte t (some mask) vl ok valid m w =
      let e : Entry = record {
        vaddr_tag = bit_and v mask;
        mask = mask;
        pte = pte;
        context = c;
        level = l;
      } in
      let s : Sound e = record {
        valid = valid;
        answers =
            λ y yl same. get_pte_same_page memory ctx_tbl_ptr c l pte v y mask vl yl m (sym same) w;
      } in
      record {
        entries = λ i. either (i == t.next_victim) e (t.entries i) (λ is. s) (ok.entries i);
        micro = λ lt. s;
      }

  pub insert-Inserted :
      (c v l pte : ℕ) (t : Tlb)
      → v < 2 ^ 32
      → Coherent t
      → get_pte memory ctx_tbl_ptr c v 0 ≡ (pte, l)
      → Inserted (insert c v l pte t)
  unfolding insert
  insert-Inserted c v l pte t vl ok w = elim (Bool-cases (is_valid pte)) [
    | inl e ↦ simp e (placed-Inserted c v l pte t (get_addr_level_mask l) vl ok e refl w)
    | inr e ↦ simp e ok
  ]

  zero_invalid : is_valid 0 ≡ true → ⊥
  unfolding is_valid
  zero_invalid e = ground (arith, e)

  pub invalidate_strict-Coherent :
      (c v : ℕ) (t : Tlb) → Coherent t → Coherent (invalidate_strict c v t)
  unfolding invalidate_strict dropped
  invalidate_strict-Coherent c v t ok = record {
    entries = λ i.
        either (usable c v (t.entries i)) (record (t.entries i) { pte = 0 }) (t.entries i)
          (λ valid. absurd (zero_invalid valid)) (ok.entries i);
    micro = λ lt. absurd (omega arith);
  }

  pub flush-Coherent : (t : Tlb) → Coherent (flush t)
  unfolding flush
  flush-Coherent t = record {
    entries = λ i valid. absurd (zero_invalid valid);
    micro = λ lt. absurd (omega arith);
  }
