-- ===== src/MemAccess/Compare.antt =====
-- src/sparcv8/MMU.cpp, `MMU::atomic_casa32`: what the comparison returns and stores.
use sparcv8emulator.Base.{
  ℕ, suc, ◌+◌, ◌^◌, ◌<◌, ◌≡◌, refl, ◌∙◌, ap, inl, inr, Bool, true, if◌then◌else◌, ◌==◌, Bool-cases,
  Option, Option-cases, none, some, List, [], ◌∷◌, sub32,
}
use sparcv8emulator.Mctrl.Banks.{contains, ram_read32, ram_write32}
use sparcv8emulator.Mctrl.Control.{ram_bank, Attached, search, put_place}
use sparcv8emulator.Mctrl.Access.{bank_read32, bank_write32}
use sparcv8emulator.Mctrl.Memory.{write_ram, read_ram}
use sparcv8emulator.Mctrl.RoundTrip.{Stored-some, read32-write32}
use sparcv8emulator.Mmu.Translate.{Translation}
use sparcv8emulator.MemAccess.Core.{Srmmu, get_enabled, get_bank, physical}
use sparcv8emulator.MemAccess.Atomics.{
  Compared, first_translation, store_allowed, exchange, compare_at, casa_translated, atomic_casa32,
}

number_of : Option (ℕ × Attached) → ℕ
number_of none = 0
number_of (some (i, x)) = i

bank_of : Option (ℕ × Attached) → Option Attached
bank_of none = none
bank_of (some (i, x)) = some x

abbrev at_place : ℕ → Attached → Option (ℕ × Attached)
at_place i x = some (i, x)

some_place : (i j : ℕ) (x y : Attached) → at_place i x ≡ at_place j y → (i ≡ j) × (some x ≡ some y)
unfolding number_of bank_of
some_place i j x y e = (ap number_of e, ap bank_of e)

-- A bank found by the search is found again with other contents.
search-put_place :
    (addr i : ℕ) (x y : Attached) (banks : List Attached)
    → contains addr y.bank ≡ contains addr x.bank
    → search addr banks ≡ some (i, x)
    → search addr (put_place i y banks) ≡ some (i, y)
unfolding search put_place
search-put_place addr i x y [] same e = cc
search-put_place addr i x y (z ∷ banks) same e = elim (Bool-cases (contains addr z.bank)) [
  | inl c ↦
      let (first, it) = some_place 0 i z x (simp c at e) in
      let is : z ≡ x = cc in
      let still : contains addr y.bank ≡ true = same ∙ rw (← is) c in rw (← first) (simp still refl)
  | inr n ↦ elim (Option-cases (search addr banks)) [
    | inl nothing ↦ let k = simp (n, nothing) at e in cc
    | inr ((j, w), found) ↦
        let (next, it) = some_place (suc j) i w x (simp (n, found) at e) in
        let is : w ≡ x = cc in
        let here : search addr banks ≡ some (j, x) = rw (← is) found in
        rw (← next) (simp (n, search-put_place addr j x y banks same here) refl)
  ]
]

store_allowed_mctrl :
    (vaddr : ℕ) (supervisor : Bool) (r : Translation) (u : Srmmu)
    → (store_allowed vaddr supervisor r u).0.mctrl ≡ u.mctrl
unfolding store_allowed
store_allowed_mctrl vaddr supervisor r u = elim (Bool-cases (get_enabled u)) [
  | inl on ↦ simp on refl
  | inr off ↦ simp off refl
]

-- The old word, whether it was swapped, and the word at the address afterwards.
abbrev pub Compares : ℕ → ℕ → ℕ → ℕ → Option Compared → Type 0
Compares pa word expected desired none = ⊥
Compares pa word expected desired (some (r, (swapped, u))) =
    (r ≡ record { success = true; old = word })
    × (swapped ≡ (word == expected))
    × (physical u.mctrl pa ≡ some (if word == expected then desired else word))

-- The word that a bank holds after the exchange.
exchange-Compares :
    (vaddr : ℕ) (supervisor : Bool) (expected desired word i : ℕ) (a : Attached) (r : Translation)
    (u : Srmmu)
    → desired < 2 ^ 32
    → a.bank_type ≡ ram_bank
    → sub32 r.pa a.bank.base + 3 < a.bank.size
    → get_bank r.pa u.mctrl ≡ some (i, a)
    → (store_allowed vaddr supervisor r u).1 ≡ true
    → (word == expected) ≡ true
    → Compares r.pa word expected desired (exchange vaddr supervisor desired word r i a u)
unfolding exchange physical contains
exchange-Compares vaddr supervisor expected desired word i a r u small kind inside found allowed
      equal =
    let (b, wrote, back, same) =
      Stored-some ram_read32 r.pa 4 desired a.bank (ram_write32 r.pa desired a.bank)
        (read32-write32 r.pa desired a.bank inside small) in
    let a' : Attached = record a { bank = b } in
    let there : contains r.pa a'.bank ≡ contains r.pa a.bank = rw (same.base, same.size) refl in
    let again : search r.pa (put_place i a' u.mctrl.banks) ≡ some (i, a') =
      search-put_place r.pa i a a' u.mctrl.banks there found in
    let kept = store_allowed_mctrl vaddr supervisor r u in
    let stores : bank_write32 r.pa desired a ≡ some a' = write_ram r.pa desired a b kind wrote in
    let holds : physical
          (record {
            banks = put_place i a' u.mctrl.banks;
            generation = u.mctrl.generation;
            instance_id = u.mctrl.instance_id;
          })
          r.pa
        ≡ some desired =
      rw again (read_ram r.pa a' kind ∙ back) in
    simp (allowed, kept, stores, equal) (refl, refl, holds)

-- CASA of an address whose translation, for a load, leads to four bytes of a RAM bank, and whose
-- page allows a store, returns the word at the address, says that it swapped exactly when the word
-- is the expected one, and leaves the desired word at the address if it is, and the old one if not.
pub atomic_casa32-Compares :
    (vaddr : ℕ) (supervisor : Bool) (expected desired word i : ℕ) (a : Attached) (r : Translation)
    (u u' : Srmmu)
    → desired < 2 ^ 32
    → first_translation vaddr supervisor u ≡ some (u', r)
    → r.ok ≡ true
    → get_bank r.pa u'.mctrl ≡ some (i, a)
    → a.bank_type ≡ ram_bank
    → sub32 r.pa a.bank.base + 3 < a.bank.size
    → bank_read32 r.pa a ≡ some word
    → (store_allowed vaddr supervisor r u').1 ≡ true
    → Compares r.pa word expected desired (atomic_casa32 vaddr supervisor expected desired u)
unfolding atomic_casa32 casa_translated compare_at physical
atomic_casa32-Compares vaddr supervisor expected desired word i a r u u' small first ok found kind
      inside reads allowed =
    elim (Bool-cases (word == expected)) [
      | inl equal ↦
          simp (first, ok, found, reads, equal)
            (exchange-Compares vaddr supervisor expected desired word i a r u' small kind inside
              found allowed equal)
      | inr other ↦ simp (first, ok, found, reads, other) (refl, refl, refl)
    ]
