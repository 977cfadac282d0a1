-- ===== src/Mctrl/Threads.antt =====
-- src/peripherals/MCTRL.h: one thread that attaches, clears and searches the banks of any number
-- of controllers, with its one cache.
use sparcv8emulator.Base.{
  ℕ, suc, ◌+◌, ◌^◌, ◌<◌, ◌≡◌, ◌≢◌, refl, ◌∙◌, sym, ap, inl, inr, false, ◌==◌, ==_iff, Bool-cases,
  update, Option, none, some, List, [], ◌∷◌, ◌++◌, u32, arith,
}
use sparcv8emulator.Mctrl.Bytes.{Endian}
use sparcv8emulator.Mctrl.Control.{
  BankType, Attached, Mctrl, Cache, fresh, new_bank, construct, overlaps_any, attach_bank,
  clear_banks, search, find_bank_or_null,
}
use sparcv8emulator.Mctrl.Disjoint.{Fits, IsApart, IsApart-snoc, []-IsApart}
use sparcv8emulator.Mctrl.Lookup.{place_of, Agrees, find_bank_or_null-search, after-Agrees}

pub record World : Type 0 where
  pub controllers : ℕ → Mctrl
  pub cache : Cache

-- `next_instance_id` counts from 1.
unfoldable pub start : World
start = record { controllers = λ k. construct (suc k); cache = fresh }

pub data Event : Type 0 where
  attaches : ℕ → BankType → ℕ → ℕ → Endian → Event
  clears : ℕ → Event
  finds : ℕ → ℕ → Event

unfoldable pub attached : ℕ → Option Mctrl → World → World
attached k none w = w
attached k (some m) w = record w { controllers = update w.controllers k m }

unfoldable pub step : Event → World → World
step (attaches k bank_type base size endian) w =
    attached k (attach_bank (new_bank bank_type base size endian) (w.controllers k)) w
step (clears k) w = record w {
  controllers = update w.controllers k (clear_banks (w.controllers k));
}
step (finds k addr) w = record w {
  cache = (find_bank_or_null (u32 addr) (w.controllers k) w.cache).1;
}

unfoldable pub steps : List Event → World → World
steps [] w = w
steps (e ∷ es) w = steps es (step e w)

-- The host holds an array of each size.
abbrev pub Holdable : List Event → Type 0
Holdable [] = Unit
Holdable (attaches k bank_type base size endian ∷ es) = (size < 2 ^ 63) × Holdable es
Holdable (clears k ∷ es) = Holdable es
Holdable (finds k addr ∷ es) = Holdable es

record IsCoherent (w : World) : Type 0 where
  pub ids : (k : ℕ) → (w.controllers k).instance_id ≡ suc k
  pub agrees : (k : ℕ) → Agrees (w.controllers k) w.cache

start-IsCoherent : IsCoherent start
unfolding start construct
start-IsCoherent = record {
  ids = λ k. refl;
  agrees = λ k. record { apart = []-IsApart; past = λ o. omega arith; current = λ o g. tt };
}

-- A controller whose banks change moves on to a new generation.
Agrees-update :
    (m m' : Mctrl) (c : Cache)
    → m'.instance_id ≡ m.instance_id
    → m'.generation ≡ m.generation + 1
    → IsApart m'.banks
    → Agrees m c
    → Agrees m' c
Agrees-update m m' c same newer apart h = record {
  apart = apart;
  past = λ o. omega (arith, h.past (o ∙ same), newer);
  current = λ o g. absurd (omega (arith, h.past (o ∙ same), newer, g));
}

IsCoherent-update :
    (k : ℕ) (m : Mctrl) (w : World)
    → m.instance_id ≡ (w.controllers k).instance_id
    → m.generation ≡ (w.controllers k).generation + 1
    → IsApart m.banks
    → IsCoherent w
    → IsCoherent (record w { controllers = update w.controllers k m })
IsCoherent-update k m w same newer apart h = record {
  ids = λ j. elim (Bool-cases (j == k)) [
    | inl e ↦ rw e (same ∙ h.ids k ∙ ap suc (sym ((==_iff j k).0 e)))
    | inr e ↦ rw e (h.ids j)
  ];
  agrees = λ j. elim (Bool-cases (j == k)) [
    | inl e ↦ rw e (Agrees-update (w.controllers k) m w.cache same newer apart (h.agrees k))
    | inr e ↦ rw e (h.agrees j)
  ];
}

attached-IsCoherent :
    (k : ℕ) (a : Attached) (w : World)
    → Fits a.bank
    → IsCoherent w
    → IsCoherent (attached k (attach_bank a (w.controllers k)) w)
unfolding attached attach_bank
attached-IsCoherent k a w fits h =
    let m = w.controllers k in
    elim (Bool-cases (overlaps_any a.bank m.banks)) [
      | inl e ↦ rw e h
      | inr e ↦ rw e (
          IsCoherent-update k
            (record m { banks = m.banks ++ (a ∷ []); generation = m.generation + 1 }) w refl refl
            (IsApart-snoc a m.banks fits e (h.agrees k).apart) h)
    ]

-- A search takes the cache over for its controller; the identifiers tell the others.
found-IsCoherent :
    (k addr : ℕ) (w : World)
    → IsCoherent w
    → IsCoherent (record w { cache = (find_bank_or_null addr (w.controllers k) w.cache).1 })
found-IsCoherent k addr w h =
    let c = (find_bank_or_null addr (w.controllers k) w.cache).1 in
    let r = after-Agrees addr (w.controllers k) w.cache (h.agrees k) in
    let other : (j : ℕ) → (j == k) ≡ false → c.owner_id ≢ (w.controllers j).instance_id =
      λ j e o. absurd (ground (arith, e, o, r.1.owner, h.ids j, h.ids k)) in
    record {
      ids = h.ids;
      agrees = λ j. elim (Bool-cases (j == k)) [
        | inl e ↦ rw ((==_iff j k).0 e) r.0
        | inr e ↦ record {
          apart = (h.agrees j).apart;
          past = λ o. absurd (other j e o);
          current = λ o g. absurd (other j e o);
        }
      ];
    }

step-IsCoherent :
    (e : Event) (es : List Event) (w : World)
    → Holdable (e ∷ es)
    → IsCoherent w
    → IsCoherent (step e w)
unfolding step new_bank clear_banks
step-IsCoherent (attaches k bank_type base size endian) es w (small, rest) h =
    attached-IsCoherent k (new_bank bank_type base size endian) w
      (record { base = omega arith; size = small }) h
step-IsCoherent (clears k) es w rest h =
    IsCoherent-update k (clear_banks (w.controllers k)) w refl refl []-IsApart h
step-IsCoherent (finds k addr) es w rest h = found-IsCoherent k (u32 addr) w h

tail-Holdable : (e : Event) (es : List Event) → Holdable (e ∷ es) → Holdable es
tail-Holdable (attaches k bank_type base size endian) es (small, rest) = rest
tail-Holdable (clears k) es rest = rest
tail-Holdable (finds k addr) es rest = rest

steps-IsCoherent :
    (es : List Event) (w : World) → Holdable es → IsCoherent w → IsCoherent (steps es w)
unfolding steps
steps-IsCoherent [] w fits h = h
steps-IsCoherent (e ∷ es) w fits h =
    steps-IsCoherent es (step e w) (tail-Holdable e es fits) (step-IsCoherent e es w fits h)

pub steps-Agrees :
    (es : List Event) (k : ℕ)
    → Holdable es
    → Agrees ((steps es start).controllers k) (steps es start).cache
steps-Agrees es k fits = (steps-IsCoherent es start fits start-IsCoherent).agrees k

-- However a thread has attached, cleared and searched banks since the start, of whichever
-- controllers, a search with its cache finds the bank of a controller that the search without a
-- cache finds, and nothing where that finds nothing.
pub find_bank_or_null-uncached :
    (es : List Event) (k addr : ℕ)
    → Holdable es
    → addr < 2 ^ 32
    → let w = steps es start in
      (find_bank_or_null addr (w.controllers k) w.cache).0
      ≡ place_of (search addr (w.controllers k).banks)
find_bank_or_null-uncached es k addr fits lt =
    let w = steps es start in
    find_bank_or_null-search addr (w.controllers k) w.cache lt (steps-Agrees es k fits)
