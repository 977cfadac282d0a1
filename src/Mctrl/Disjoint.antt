-- ===== src/Mctrl/Disjoint.antt =====
-- src/peripherals/MCTRL.h: no address belongs to two banks, and the search finds the one it
-- belongs to.
use sparcv8emulator.Base.{
  ℕ, zero, suc, ◌-◌, ◌^◌, ◌<◌, ◌≡◌, refl, ◌∙◌, sym, ap, inl, inr, ◌⊎◌, Bool, true, false, ◌&&◌,
  ◌||◌, ltb, leb, Bool-cases, Option, none, some, List, [], ◌∷◌, ◌++◌, arith,
}
use sparcv8emulator.Mctrl.Banks.{Bank, contains}
use sparcv8emulator.Mctrl.Control.{
  Attached, end_exclusive, ranges_overlap, overlaps_any, next_place, search, place,
}

-- What the constructors give: a base in 32 bits and an array that the host can hold.
pub record Fits (b : Bank) : Type 0 where
  pub base : b.base < 2 ^ 32
  pub size : b.size < 2 ^ 63

-- The banks of a list fit, and none shares an address with another one.
pub record IsApart (banks : List Attached) : Type 0 where
  pub fits : (i : ℕ) (x : Attached) → place i banks ≡ some x → Fits x.bank
  pub apart :
      (i j addr : ℕ) (x y : Attached)
      → addr < 2 ^ 32
      → place i banks ≡ some x
      → place j banks ≡ some y
      → contains addr x.bank ≡ true
      → contains addr y.bank ≡ true
      → i ≡ j

pub contains_lem :
    (addr : ℕ) (b : Bank)
    → addr < 2 ^ 32
    → Fits b
    → contains addr b ≡ (leb b.base addr && ltb (addr - b.base) b.size)
unfolding contains
contains_lem addr b lt fits = ground (arith, fits.base, fits.size)

overlap_lem :
    (addr : ℕ) (a b : Bank)
    → addr < 2 ^ 32
    → Fits a
    → Fits b
    → contains addr a ≡ true
    → contains addr b ≡ true
    → ranges_overlap a b ≡ true
unfolding contains ranges_overlap end_exclusive
overlap_lem addr a b lt fits fits' e e' =
    ground (arith, fits.base, fits.size, fits'.base, fits'.size, e, e')

or_true : (b : Bool) → (b || true) ≡ true
or_true true = refl
or_true false = refl

overlaps-place :
    (a : Bank) (banks : List Attached) (i : ℕ) (x : Attached)
    → place i banks ≡ some x
    → ranges_overlap a x.bank ≡ true
    → overlaps_any a banks ≡ true
unfolding place overlaps_any
overlaps-place a [] i x e o = cc
overlaps-place a (y ∷ ys) zero x e o = let p : y ≡ x = cc in simp (p, o) refl
overlaps-place a (y ∷ ys) (suc i) x e o =
    rw (overlaps-place a ys i x e o) (or_true (ranges_overlap a y.bank))

abbrev count : List Attached → ℕ
count [] = 0
count (x ∷ xs) = suc (count xs)

-- A place of a list with one more bank is a place before, or the last one.
place_snoc :
    (a : Attached) (banks : List Attached) (i : ℕ) (x : Attached)
    → place i (banks ++ (a ∷ [])) ≡ some x
    → (place i banks ≡ some x) ⊎ ((x ≡ a) × (i ≡ count banks))
unfolding place
place_snoc a [] zero x e = inr (cc, refl)
place_snoc a [] (suc i) x e = cc
place_snoc a (y ∷ ys) zero x e = inl e
place_snoc a (y ∷ ys) (suc i) x e = elim (place_snoc a ys i x e) [
  | inl p ↦ inl p
  | inr (p, q) ↦ inr (p, ap suc q)
]

-- What a search finds contains the address, and if it finds nothing no bank does.
abbrev pub Found : ℕ → List Attached → Option (ℕ × Attached) → Type 0
Found addr banks none =
    (j : ℕ) (y : Attached) → place j banks ≡ some y → contains addr y.bank ≡ false
Found addr banks (some (i, x)) = (place i banks ≡ some x) × (contains addr x.bank ≡ true)

none_after :
    (addr : ℕ) (y : Attached) (ys : List Attached)
    → contains addr y.bank ≡ false
    → Found addr ys none
    → (j : ℕ) (x : Attached) → place j (y ∷ ys) ≡ some x
    → contains addr x.bank ≡ false
unfolding place
none_after addr y ys e h zero x p = let q : y ≡ x = cc in rw (← q) e
none_after addr y ys e h (suc j) x p = h j x p

Found-next_place :
    (addr : ℕ) (y : Attached) (ys : List Attached) (o : Option (ℕ × Attached))
    → contains addr y.bank ≡ false
    → Found addr ys o
    → Found addr (y ∷ ys) (next_place o)
unfolding place
Found-next_place addr y ys none e h = λ j x p. none_after addr y ys e h j x p
Found-next_place addr y ys (some (i, x)) e h = h

pub search-Found : (addr : ℕ) (banks : List Attached) → Found addr banks (search addr banks)
unfolding search place
search-Found addr [] = λ j y e. cc
search-Found addr (y ∷ ys) = elim (Bool-cases (contains addr y.bank)) [
  | inl e ↦ simp e (refl, refl)
  | inr e ↦ simp e (Found-next_place addr y ys (search addr ys) e (search-Found addr ys))
]

no_share :
    (a : Attached) (banks : List Attached) (addr i : ℕ) (x : Attached)
    → addr < 2 ^ 32
    → Fits a.bank
    → overlaps_any a.bank banks ≡ false
    → IsApart banks
    → place i banks ≡ some x
    → contains addr x.bank ≡ true
    → contains addr a.bank ≡ true
    → ⊥
no_share a banks addr i x lt fits free h p c c' =
    let o =
      overlaps-place a.bank banks i x p
        (overlap_lem addr a.bank x.bank lt fits (h.fits i x p) c' c) in
    cc

-- Attaching a bank that overlaps none keeps the banks apart.
pub IsApart-snoc :
    (a : Attached) (banks : List Attached)
    → Fits a.bank
    → overlaps_any a.bank banks ≡ false
    → IsApart banks
    → IsApart (banks ++ (a ∷ []))
IsApart-snoc a banks fits free h = record {
  fits = λ i x e. elim (place_snoc a banks i x e) [ inl p ↦ h.fits i x p | inr (p, q) ↦ rw p fits ];
  apart = λ i j addr x y lt e e' c c'. elim (place_snoc a banks i x e) [
    | inl p ↦ elim (place_snoc a banks j y e') [
      | inl p' ↦ h.apart i j addr x y lt p p' c c'
      | inr (p', q') ↦ absurd (no_share a banks addr i x lt fits free h p c (rw (← p') c'))
    ]
    | inr (p, q) ↦ elim (place_snoc a banks j y e') [
      | inl p' ↦ absurd (no_share a banks addr j y lt fits free h p' c' (rw (← p) c))
      | inr (p', q') ↦ q ∙ sym q'
    ]
  ];
}

pub []-IsApart : IsApart []
unfolding place
[]-IsApart = record { fits = λ i x e. cc; apart = λ i j addr x y lt e e' c c'. cc }
