-- ===== src/MemAccess/History.antt =====
-- src/sparcv8/MMU.h: the caches of host pages over a run of fetches, loads, flushes and changes of
-- the context.
use sparcv8emulator.Base.{
  ℕ, ◌^◌, ◌≤◌, ◌<◌, ◌≡◌, ◌≢◌, refl, ◌∙◌, subst, Bool, true, ◌==◌, ◌||◌, Option, none, some, List,
  [], ◌∷◌, arith,
}
use sparcv8emulator.Mctrl.Bytes.{◌>>=◌}
use sparcv8emulator.Mctrl.Control.{Attached, place}
use sparcv8emulator.Mmu.Walk.{entry_type, root_entry}
use sparcv8emulator.Mmu.Perms.{Intent, load, store, execute}
use sparcv8emulator.Mmu.Translate.{flush_tlbs}
use sparcv8emulator.Mmu.Coherent.{flush-Coherent}
use sparcv8emulator.MemAccess.Core.{
  Srmmu, get_enabled, physical, set_ctx_number, forget_pages, flush_unit,
}
use sparcv8emulator.MemAccess.Access.{Accessed, cache_of, missed, mem_access}
use sparcv8emulator.MemAccess.Hits.{answered, IsKept, IsRunning, mem_access-missed}
use sparcv8emulator.MemAccess.Pages.{IsPaged}
use sparcv8emulator.MemAccess.Shared.{Shares, IsKept-Shares}
use sparcv8emulator.MemAccess.Reads.{AfterRead, reads, pages-core, mem_access-AfterRead}

flushed_pages : (u w : Srmmu) (k : Intent) (v : ℕ) → IsKept w k (cache_of k v (flush_unit u))
unfolding cache_of flush_unit forget_pages
flushed_pages u w load v = record { leads = λ x r xl page. absurd (omega (arith, xl, page)) }
flushed_pages u w store v = record { leads = λ x r xl page. absurd (omega (arith, xl, page)) }
flushed_pages u w execute v = record { leads = λ x r xl page. absurd (omega (arith, xl, page)) }

-- A flush forgets every page and every entry of the TLBs.
flush_unit-IsRunning :
    (u : Srmmu)
    → u.core.ctx_n ≤ 255
    → entry_type (root_entry (physical u.mctrl) u.core.ctx_tbl_ptr u.core.ctx_n) ≢ 2
    → IsRunning (flush_unit u)
unfolding flush_unit flush_tlbs forget_pages
flush_unit-IsRunning u le root = record {
  context = le;
  root = root;
  tlbs = record {
    instructions = flush-Coherent (physical u.mctrl) u.core.ctx_tbl_ptr u.core.itlb;
    accesses = flush-Coherent (physical u.mctrl) u.core.ctx_tbl_ptr u.core.dtlb;
  };
  pages = flushed_pages u (flush_unit u);
}

-- What a guest does between two changes of its memory: an access, a change of the context, a flush.
pub data Step : Type 0 where
  access : Intent → ℕ → ℕ → Bool → Bool → Step
  context : ℕ → Step
  flushes : Step

unfoldable pub unit_of : Option (Accessed × Srmmu) → Option Srmmu
unit_of none = none
unit_of (some (r, u)) = some u

unfoldable pub perform : Step → Srmmu → Option Srmmu
perform (access intent size vaddr supervisor report) u =
    unit_of (mem_access intent size vaddr 0 supervisor report u)
perform (context n) u = some (set_ctx_number n u)
perform flushes u = some (flush_unit u)

unfoldable pub performs : List Step → Srmmu → Option Srmmu
performs [] u = some u
performs (step ∷ steps) u = do u' ← perform step u; performs steps u'

-- Fetches and loads at words, and contexts that the tables of a unit know.
abbrev pub IsAllowed : Srmmu → Step → Type 0
IsAllowed u (access intent size vaddr supervisor report) = (reads intent ≡ true) × (vaddr < 2 ^ 32)
IsAllowed u (context n) =
    (n ≤ 255) × (entry_type (root_entry (physical u.mctrl) u.core.ctx_tbl_ptr n) ≢ 2)
IsAllowed u flushes = Unit

abbrev pub AreAllowed : Srmmu → List Step → Type 0
AreAllowed u [] = Unit
AreAllowed u (step ∷ steps) = IsAllowed u step × AreAllowed u steps

-- The steps see the memory, the mode and the tables that the unit had.
abbrev Stays : Srmmu → Option Srmmu → Type 0
Stays w none = Unit
Stays w (some u) = IsRunning u × Shares w u

unit_of-Stays :
    (w u : Srmmu) (o : Option (Accessed × Srmmu)) → Shares w u → AfterRead u o → Stays w (unit_of o)
unfolding unit_of
unit_of-Stays w u none s h = tt
unit_of-Stays w u (some (r, u')) s (ok, t) = (
  ok,
  record { mctrl = t.mctrl ∙ s.mctrl; control = t.control ∙ s.control; table = t.table ∙ s.table },
)

set_ctx_number-IsRunning :
    (n : ℕ) (w u : Srmmu)
    → Shares w u
    → n ≤ 255
    → entry_type (root_entry (physical w.mctrl) w.core.ctx_tbl_ptr n) ≢ 2
    → IsRunning u
    → IsRunning (set_ctx_number n u)
unfolding set_ctx_number
set_ctx_number-IsRunning n w u s le root ok =
    let core = u.core in
    record {
      context = le;
      root = rw (s.mctrl, s.table) root;
      tlbs = record { instructions = ok.tlbs.instructions; accesses = ok.tlbs.accesses };
      pages = λ k v.
          IsKept-Shares u _ k _ (record { mctrl = refl; control = refl; table = refl })
            (pages-core u (record core { ctx_n = n }) ok k v);
    }

perform-Stays :
    (step : Step) (w u : Srmmu)
    → ((j : ℕ) (b : Attached) → place j w.mctrl.banks ≡ some b → IsPaged b.bank)
    → get_enabled w ≡ true
    → IsAllowed w step
    → IsRunning u
    → Shares w u
    → Stays w (perform step u)
unfolding perform get_enabled set_ctx_number flush_unit flush_tlbs forget_pages
perform-Stays (access intent size vaddr supervisor report) w u paged on (e, vl) ok s =
    unit_of-Stays w u (mem_access intent size vaddr 0 supervisor report u) s (
      mem_access-AfterRead intent size vaddr 0 supervisor report u e vl (rw s.mctrl paged)
        (rw s.control on) ok)
perform-Stays (context n) w u paged on (le, root) ok s = (
  set_ctx_number-IsRunning n w u s le root ok,
  record { mctrl = s.mctrl; control = s.control; table = s.table },
)
perform-Stays flushes w u paged on allowed ok s = (
  flush_unit-IsRunning u ok.context ok.root,
  record { mctrl = s.mctrl; control = s.control; table = s.table },
)

went_on :
    {A : Type 0} {B : Type 0} (o : Option A) (f : A → Option B) (y : B)
    → (o >>= f) ≡ some y
    → (x : A) × (o ≡ some x) × (f x ≡ some y)
went_on none f y e = cc
went_on (some x) f y e = (x, refl, e)

performs-Stays :
    (steps : List Step) (w u u' : Srmmu)
    → ((j : ℕ) (b : Attached) → place j w.mctrl.banks ≡ some b → IsPaged b.bank)
    → get_enabled w ≡ true
    → AreAllowed w steps
    → IsRunning u
    → Shares w u
    → performs steps u ≡ some u'
    → IsRunning u' × Shares w u'
unfolding performs
performs-Stays [] w u u' paged on allowed ok s e = let k : u ≡ u' = cc in rw (← k) (ok, s)
performs-Stays (step ∷ steps) w u u' paged on (allowed, rest) ok s e =
    let (m, goes, e') = went_on (perform step u) (performs steps) u' e in
    let h = subst (Stays w) goes (perform-Stays step w u paged on allowed ok s) in
    performs-Stays steps w m u' paged on rest h.0 h.1 e'

-- Where the banks start and end at borders of pages, translation is on, and a context of up to 255
-- has a pointer to tables in the context table: after a flush and any run of fetches, loads,
-- further flushes and changes to such contexts that no exception stops, a fetch, a load or a store
-- of one, two or four bytes, whatever entries the page caches hold by then, returns the value and
-- leaves the memory that the same access returns and leaves after a translation.
pub performs-missed :
    (steps : List Step) (u u' : Srmmu) (intent : Intent) (size vaddr value : ℕ)
    (supervisor report : Bool)
    → ((j : ℕ) (b : Attached) → place j u.mctrl.banks ≡ some b → IsPaged b.bank)
    → get_enabled u ≡ true
    → u.core.ctx_n ≤ 255
    → entry_type (root_entry (physical u.mctrl) u.core.ctx_tbl_ptr u.core.ctx_n) ≢ 2
    → AreAllowed u steps
    → performs steps (flush_unit u) ≡ some u'
    → (size == 1 || size == 2 || size == 4) ≡ true
    → vaddr < 2 ^ 32
    → answered (mem_access intent size vaddr value supervisor report u')
      ≡ answered (missed intent size vaddr value supervisor report u')
unfolding flush_unit flush_tlbs forget_pages get_enabled
performs-missed steps u u' intent size vaddr value supervisor report paged on le root allowed e
      known vl =
    let (ok, s) =
      performs-Stays steps u (flush_unit u) u' paged on allowed (flush_unit-IsRunning u le root)
        (record { mctrl = refl; control = refl; table = refl }) e in
    mem_access-missed intent size vaddr value supervisor report u' known vl ok (rw s.control on)
