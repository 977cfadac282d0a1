-- ===== src/Mctrl/Memory.antt =====
-- src/peripherals/MCTRL.h, `class MCtrl`: a word written through the controller is read back
-- through it, with the cache in use.
use sparcv8emulator.Base.{
  ℕ, zero, suc, ◌+◌, ◌%◌, ◌^◌, ◌<◌, ◌≡◌, refl, ◌∙◌, sym, ap, inl, inr, true, false, if◌then◌else◌,
  ◌==◌, ==_iff, Bool-cases, Option, none, some, List, [], ◌∷◌, sub32, arith,
}
use sparcv8emulator.Mctrl.Banks.{Bank, contains, ram_read32, ram_write32}
use sparcv8emulator.Mctrl.Control.{
  ram_bank, Attached, Mctrl, Cache, search, place, put_place, find_bank_or_null,
}
use sparcv8emulator.Mctrl.Access.{
  type_read32, bank_read32, with_bank, type_write32, bank_write32, reading, writing, read32,
  write32,
}
use sparcv8emulator.Mctrl.RoundTrip.{Stored-some, read32-write32}
use sparcv8emulator.Mctrl.Disjoint.{Fits, IsApart, search-Found}
use sparcv8emulator.Mctrl.Lookup.{
  IsCached, Agrees, find_bank_or_null-search, unique_place, after-Agrees,
}

-- A bank that moves to its place with other contents.
place-put_place :
    (i j : ℕ) (a x : Attached) (banks : List Attached)
    → place i banks ≡ some x
    → place j (put_place i a banks) ≡ (if j == i then some a else place j banks)
unfolding place put_place
place-put_place i j a x [] e = cc
place-put_place zero zero a x (y ∷ ys) e = refl
place-put_place zero (suc j) a x (y ∷ ys) e =
    let other : (suc j == 0) ≡ false = ground arith in rw other refl
place-put_place (suc i) zero a x (y ∷ ys) e =
    let other : (0 == suc i) ≡ false = ground arith in rw other refl
place-put_place (suc i) (suc j) a x (y ∷ ys) e =
    let same : (suc j == suc i) ≡ (j == i) = ground arith in
    place-put_place i j a x ys e ∙ rw same refl

put_here :
    (i : ℕ) (a x : Attached) (banks : List Attached)
    → place i banks ≡ some x
    → place i (put_place i a banks) ≡ some a
put_here i a x banks e =
    let same : (i == i) ≡ true = ground arith in place-put_place i i a x banks e ∙ rw same refl

module _ (i : ℕ) (a x : Attached) (base : a.bank.base ≡ x.bank.base)
    (size : a.bank.size ≡ x.bank.size) where
  -- What stood at a place, with the base and the size of what stands there now.
  stood :
      (j : ℕ) (y : Attached) (banks : List Attached)
      → place i banks ≡ some x
      → place j (put_place i a banks) ≡ some y
      → (z : Attached) × (place j banks ≡ some z)
        × (y.bank.base ≡ z.bank.base)
        × (y.bank.size ≡ z.bank.size)
  stood j y banks p e =
      let now = place-put_place i j a x banks p in
      elim (Bool-cases (j == i)) [
        | inl s ↦
            let q : a ≡ y = let r = simp s at now in cc in
            (x, rw ((==_iff j i).0 s) p, rw (← q) base, rw (← q) size)
        | inr s ↦ let r = simp s at now in (y, sym r ∙ e, refl, refl)
      ]

  -- What stands at a place now, with the base and the size of what stood there.
  stands :
      (j : ℕ) (z : Attached) (banks : List Attached)
      → place i banks ≡ some x
      → place j banks ≡ some z
      → (y : Attached) × (place j (put_place i a banks) ≡ some y)
        × (y.bank.base ≡ z.bank.base)
        × (y.bank.size ≡ z.bank.size)
  stands j z banks p e =
      let now = place-put_place i j a x banks p in
      elim (Bool-cases (j == i)) [
        | inl s ↦
            let q : x ≡ z = let r : place i banks ≡ some z = (rw (← (==_iff j i).0 s) e) in cc in
            let r = simp s at now in (a, r, rw (← q) base, rw (← q) size)
        | inr s ↦ let r = simp s at now in (z, r ∙ e, refl, refl)
      ]

  contains_same :
      (addr : ℕ) (y z : Attached)
      → y.bank.base ≡ z.bank.base
      → y.bank.size ≡ z.bank.size
      → contains addr y.bank ≡ contains addr z.bank
  unfolding contains
  contains_same addr y z e e' = rw (e, e') refl

  Fits-same :
      (y z : Attached)
      → y.bank.base ≡ z.bank.base
      → y.bank.size ≡ z.bank.size
      → Fits z.bank
      → Fits y.bank
  Fits-same y z e e' f = record {
    base = omega (arith, e, f.base);
    size = omega (arith, e', f.size);
  }

  IsApart-put_place :
      (banks : List Attached)
      → place i banks ≡ some x
      → IsApart banks
      → IsApart (put_place i a banks)
  IsApart-put_place banks p h = record {
    fits = λ j y e. let (z, q, b, s) = stood j y banks p e in Fits-same y z b s (h.fits j z q);
    apart = λ j k addr y y' lt e e' c c'.
        let (z, q, b, s) = stood j y banks p e in
        let (z', q', b', s') = stood k y' banks p e' in
        h.apart j k addr z z' lt q q' (sym (contains_same addr y z b s) ∙ c)
          (sym (contains_same addr y' z' b' s') ∙ c');
  }

  IsCached-put_place :
      (banks : List Attached) (b : Option ℕ) (start n : ℕ)
      → place i banks ≡ some x
      → IsCached banks b start n
      → IsCached (put_place i a banks) b start n
  IsCached-put_place banks none start n p c = tt
  IsCached-put_place banks (some j) start n p (z, q, e, e') =
      let (y, r, b, s) = stands j z banks p q in
      (y, r, e ∙ sym b, e' ∙ sym (ap (λ (t : ℕ). t % 2 ^ 32) s))

  -- A cache agrees with a controller whatever its banks hold.
  pub Agrees-put_place :
      (m : Mctrl) (c : Cache)
      → place i m.banks ≡ some x
      → Agrees m c
      → Agrees (record m { banks = put_place i a m.banks }) c
  Agrees-put_place m c p h = record {
    apart = IsApart-put_place m.banks p h.apart;
    past = h.past;
    current = λ o g. IsCached-put_place m.banks c.b c.start c.size p (h.current o g);
  }

-- The place found for an address in a bank.
find_place :
    (addr i : ℕ) (x : Attached) (m : Mctrl) (c : Cache)
    → addr < 2 ^ 32
    → Agrees m c
    → place i m.banks ≡ some x
    → contains addr x.bank ≡ true
    → (find_bank_or_null addr m c).0 ≡ some i
find_place addr i x m c lt h p in_bank =
    find_bank_or_null-search addr m c lt h
    ∙ unique_place addr i x m.banks (search addr m.banks) lt h.apart p in_bank
        (search-Found addr m.banks)

pub write_ram :
    (addr val : ℕ) (x : Attached) (b : Bank)
    → x.bank_type ≡ ram_bank
    → ram_write32 addr val x.bank ≡ some b
    → bank_write32 addr val x ≡ some (record x { bank = b })
unfolding bank_write32 type_write32 with_bank
write_ram addr val x b kind wrote = simp (kind, wrote) refl

pub read_ram :
    (addr : ℕ) (x : Attached) → x.bank_type ≡ ram_bank → bank_read32 addr x ≡ ram_read32 addr x.bank
unfolding bank_read32 type_read32
read_ram addr x kind = simp kind refl

read_place :
    (addr i : ℕ) (x : Attached) (m : Mctrl) (c : Cache)
    → addr < 2 ^ 32
    → Agrees m c
    → place i m.banks ≡ some x
    → contains addr x.bank ≡ true
    → (read32 addr m c).0 ≡ bank_read32 addr x
unfolding read32 reading
read_place addr i x m c lt h p in_bank = rw (find_place addr i x m c lt h p in_bank, p) refl

-- A write through the controller that is done, after which a read gives `val`.
abbrev pub ReadsBack : ℕ → ℕ → Option Mctrl × Cache → Type 0
ReadsBack addr val (none, c) = ⊥
ReadsBack addr val (some m, c) = (read32 addr m c).0 ≡ some val

-- With a cache that agrees with the controller, a word written through it to an address whose four
-- bytes are inside one RAM bank is stored, and a read through it gives the word back.
pub write32-ReadsBack :
    (addr val i : ℕ) (x : Attached) (m : Mctrl) (c : Cache)
    → addr < 2 ^ 32
    → val < 2 ^ 32
    → Agrees m c
    → place i m.banks ≡ some x
    → x.bank_type ≡ ram_bank
    → contains addr x.bank ≡ true
    → sub32 addr x.bank.base + 3 < x.bank.size
    → ReadsBack addr val (write32 addr val m c)
unfolding write32 writing
write32-ReadsBack addr val i x m c lt small h p kind in_bank inside =
    let found = find_place addr i x m c lt h p in_bank in
    let (b, wrote, back, same) =
      Stored-some ram_read32 addr 4 val x.bank (ram_write32 addr val x.bank)
        (read32-write32 addr val x.bank inside small) in
    let a : Attached = record x { bank = b } in
    let m' : Mctrl = record m { banks = put_place i a m.banks } in
    let now : place i (put_place i a m.banks) ≡ some a = put_here i a x m.banks p in
    let agrees : Agrees m' (find_bank_or_null addr m c).1 =
      Agrees-put_place i a x same.base same.size m (find_bank_or_null addr m c).1 p
        (after-Agrees addr m c h).0 in
    let still : contains addr b ≡ true =
      contains_same i a x same.base same.size addr a x same.base same.size ∙ in_bank in
    rw (found, p, write_ram addr val x b kind wrote)
      (read_place addr i a m' (find_bank_or_null addr m c).1 lt agrees now still
        ∙ (read_ram addr a kind ∙ back))
