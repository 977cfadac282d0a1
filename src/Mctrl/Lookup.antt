-- ===== src/Mctrl/Lookup.antt =====
-- src/peripherals/MCTRL.h, `find_bank_or_null`: the thread's cache over any number of controllers
-- against the search of the banks.
use sparcv8emulator.Base.{
  ℕ, ◌-◌, ◌^◌, ◌≤◌, ◌<◌, ◌≡◌, refl, ◌∙◌, sym, ap, inl, inr, true, ◌&&◌, if◌then◌else◌, ltb, leb,
  ◌==◌, ==_iff, Bool-cases, Option, none, some, List, u32, arith,
}
use sparcv8emulator.Mctrl.Banks.{contains}
use sparcv8emulator.Mctrl.Control.{
  Attached, Mctrl, Cache, search, place, validated, is_some, cache_hit, remember, find_bank_or_null,
}
use sparcv8emulator.Mctrl.Disjoint.{Fits, IsApart, contains_lem, Found, search-Found}

-- The place of the bank that a search finds.
abbrev pub place_of : Option (ℕ × Attached) → Option ℕ
place_of none = none
place_of (some (i, x)) = some i

-- A bank in the cache is the one at its place, with its base and its size.
abbrev pub IsCached : List Attached → Option ℕ → ℕ → ℕ → Type 0
IsCached banks none start size = Unit
IsCached banks (some i) start size =
    (x : Attached) × (place i banks ≡ some x) × (start ≡ x.bank.base) × (size ≡ u32 x.bank.size)

-- The cache agrees with a controller: if it is the controller's and of its generation, its bank is.
pub record Agrees (m : Mctrl) (c : Cache) : Type 0 where
  pub apart : IsApart m.banks
  pub past : c.owner_id ≡ m.instance_id → c.gen ≤ m.generation
  pub current :
      c.owner_id ≡ m.instance_id → c.gen ≡ m.generation → IsCached m.banks c.b c.start c.size

validated-IsCached :
    (m : Mctrl) (c : Cache)
    → Agrees m c
    → IsCached m.banks (validated m c).b (validated m c).start (validated m c).size
unfolding validated
validated-IsCached m c h = elim (Bool-cases (c.owner_id == m.instance_id)) [
  | inr e ↦ simp e tt
  | inl e ↦ elim (Bool-cases (c.gen == m.generation)) [
    | inr e' ↦ simp (e, e') tt
    | inl e' ↦
        simp (e, e')
          (h.current ((==_iff c.owner_id m.instance_id).0 e) ((==_iff c.gen m.generation).0 e'))
  ]
]

-- A hit is on a bank that contains the address.
hit-contains :
    (addr : ℕ) (x : Attached) (start size : ℕ)
    → addr < 2 ^ 32
    → Fits x.bank
    → start ≡ x.bank.base
    → size ≡ u32 x.bank.size
    → (leb start addr && ltb (addr - start) size) ≡ true
    → contains addr x.bank ≡ true
hit-contains addr x start size lt fits e e' h =
    contains_lem addr x.bank lt fits ∙ ground (arith, e, e', h)

-- The only bank that contains an address is the one that a search finds.
pub unique_place :
    (addr i : ℕ) (x : Attached) (banks : List Attached) (o : Option (ℕ × Attached))
    → addr < 2 ^ 32
    → IsApart banks
    → place i banks ≡ some x
    → contains addr x.bank ≡ true
    → Found addr banks o
    → place_of o ≡ some i
unique_place addr i x banks none lt h p c found = absurd (let e = found i x p in cc)
unique_place addr i x banks (some (j, y)) lt h p c (q, c') =
    ap some (h.apart j i addr y x lt q p c' c)

remember-place : (o : Option (ℕ × Attached)) (c : Cache) → (remember o c).0 ≡ place_of o
unfolding remember
remember-place none c = refl
remember-place (some (i, x)) c = refl

hit_lem :
    (addr start size : ℕ) (banks : List Attached) (o : Option ℕ)
    → addr < 2 ^ 32
    → IsApart banks
    → (is_some o && leb start addr && ltb (addr - start) size) ≡ true
    → IsCached banks o start size
    → o ≡ place_of (search addr banks)
hit_lem addr start size banks none lt h e cached = cc
hit_lem addr start size banks (some i) lt h e (x, p, q, r) = sym (
    unique_place addr i x banks (search addr banks) lt h p
      (hit-contains addr x start size lt (h.fits i x p) q r e) (search-Found addr banks))

find_lem :
    (addr : ℕ) (m : Mctrl) (c : Cache)
    → addr < 2 ^ 32
    → IsApart m.banks
    → IsCached m.banks c.b c.start c.size
    → (if cache_hit addr c then (c.b, c) else remember (search addr m.banks) c).0
      ≡ place_of (search addr m.banks)
unfolding cache_hit
find_lem addr m c lt apart cached = elim (Bool-cases (cache_hit addr c)) [
  | inr e ↦ rw e (remember-place (search addr m.banks) c)
  | inl e ↦ simp e (hit_lem addr c.start c.size m.banks c.b lt apart e cached)
]

-- In a cache that agrees with the controller, the place found is that of the search.
pub find_bank_or_null-search :
    (addr : ℕ) (m : Mctrl) (c : Cache)
    → addr < 2 ^ 32
    → Agrees m c
    → (find_bank_or_null addr m c).0 ≡ place_of (search addr m.banks)
unfolding find_bank_or_null
find_bank_or_null-search addr m c lt h =
    find_lem addr m (validated m c) lt h.apart (validated-IsCached m c h)

-- The cache after a search is the controller's, and agrees with it.
pub record IsOwned (m : Mctrl) (c : Cache) : Type 0 where
  pub owner : c.owner_id ≡ m.instance_id
  pub gen : c.gen ≡ m.generation

IsOwned-validated : (m : Mctrl) (c : Cache) → IsOwned m (validated m c)
unfolding validated
IsOwned-validated m c = elim (Bool-cases (c.owner_id == m.instance_id)) [
  | inr e ↦ simp e (record { owner = refl; gen = refl })
  | inl e ↦ elim (Bool-cases (c.gen == m.generation)) [
    | inr e' ↦ simp (e, e') (record { owner = refl; gen = refl })
    | inl e' ↦
        simp (e, e')
          (record {
            owner = (==_iff c.owner_id m.instance_id).0 e;
            gen = (==_iff c.gen m.generation).0 e';
          })
  ]
]

remember-IsOwned :
    (m : Mctrl) (c : Cache) (o : Option (ℕ × Attached)) → IsOwned m c → IsOwned m (remember o c).1
unfolding remember
remember-IsOwned m c none h = record { owner = h.owner; gen = h.gen }
remember-IsOwned m c (some (i, x)) h = record { owner = h.owner; gen = h.gen }

remember-IsCached :
    (addr : ℕ) (banks : List Attached) (c : Cache) (o : Option (ℕ × Attached))
    → Found addr banks o
    → IsCached banks (remember o c).1.b (remember o c).1.start (remember o c).1.size
unfolding remember
remember-IsCached addr banks c none h = tt
remember-IsCached addr banks c (some (i, x)) (p, e) = (x, p, refl, refl)

pub after-Agrees :
    (addr : ℕ) (m : Mctrl) (c : Cache)
    → Agrees m c
    → Agrees m (find_bank_or_null addr m c).1 × IsOwned m (find_bank_or_null addr m c).1
unfolding find_bank_or_null
after-Agrees addr m c h =
    let c' = validated m c in
    let owned = IsOwned-validated m c in
    let r = remember (search addr m.banks) c' in
    let owned_r = remember-IsOwned m c' (search addr m.banks) owned in
    elim (Bool-cases (cache_hit addr c')) [
      | inl e ↦ simp e (
        record {
          apart = h.apart;
          past = λ o. omega (arith, owned.gen);
          current = λ o g. validated-IsCached m c h;
        },
        owned,
      )
      | inr e ↦ simp e (
        record {
          apart = h.apart;
          past = λ o. omega (arith, owned_r.gen);
          current = λ o g.
              remember-IsCached addr m.banks c' (search addr m.banks) (search-Found addr m.banks);
        },
        owned_r,
      )
    ]
