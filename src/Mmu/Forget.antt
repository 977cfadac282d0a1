-- ===== src/Mmu/Forget.antt =====
-- src/sparcv8/MMU.cpp, class TLB: what the TLB forgets when it is told to.
use sparcv8emulator.Base.{
  ℕ, zero, suc, ◌<◌, ◌≡◌, refl, inl, inr, true, false, ◌==◌, Bool-cases, none, some, bit_and, arith,
}
use sparcv8emulator.Mmu.Tlb.{
  Entry, Tlb, tlb_entries, no_context, is_valid, matches, usable, scan, warmed, lookup, dropped,
  invalidate_strict, flush,
}

dropped_unusable : (c v : ℕ) (e : Entry) → usable c v (dropped c v e) ≡ false
unfolding dropped usable is_valid
dropped_unusable c v e = elim (Bool-cases (usable c v e)) [
  | inl u ↦ simp u refl
  | inr u ↦ simp u refl
]

scan-dropped :
    (c v : ℕ) (entries : ℕ → Entry) (n i : ℕ) → scan c v (λ k. dropped c v (entries k)) n i ≡ none
unfolding scan
scan-dropped c v entries zero i = refl
scan-dropped c v entries (suc n) i =
    simp (dropped_unusable c v (entries i)) (scan-dropped c v entries n (suc i))

other_context :
    (c v : ℕ) (e : Entry) → c < no_context → matches c v (record e { context = no_context }) ≡ false
unfolding matches
other_context c v e lt = ground arith

-- After an address is invalidated in a context below 0xffffffff, the word that marks an empty
-- micro-cache, the next lookup of it in that context misses.
pub invalidate_strict-lookup :
    (c v : ℕ) (t : Tlb) → c < no_context → (lookup c v (invalidate_strict c v t)).1 ≡ none
unfolding lookup invalidate_strict warmed
invalidate_strict-lookup c v t lt =
    simp (other_context c v t.micro lt, scan-dropped c v t.entries tlb_entries 0) refl

-- A flush does not forget the page used last: an access whose context number is the word that
-- marks an empty micro-cache still gets it.
pub flush-lookup-no_context :
    (v : ℕ) (t : Tlb)
    → bit_and v t.micro.mask ≡ t.micro.vaddr_tag
    → (lookup no_context v (flush t)).1 ≡ some (t.micro.pte, t.micro.level)
unfolding lookup flush matches
flush-lookup-no_context v t e =
    let hit : (bit_and v t.micro.mask == t.micro.vaddr_tag) ≡ true = ground (arith, e) in
    simp hit refl
