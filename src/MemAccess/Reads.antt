-- ===== src/MemAccess/Reads.antt =====
-- src/sparcv8/MMU.h, `MMU::MemAccess`: what a fetch or a load leaves of the unit.
use sparcv8emulator.Base.{
  ℕ, ◌^◌, ◌<◌, ◌≡◌, refl, ◌∙◌, sym, ap, subst, inl, inr, Bool, true, false, Bool-cases, Option,
  none, some, ◌>>>◌,
}
use sparcv8emulator.Mctrl.Control.{Attached, place}
use sparcv8emulator.Mmu.Perms.{Intent, load, store, execute}
use sparcv8emulator.Mmu.Translate.{Mmu, Translation, translate_va}
use sparcv8emulator.Mmu.Cached.{uncached, BothCoherent, Agrees, translate_va-uncached}
use sparcv8emulator.MemAccess.Core.{PageCache, Srmmu, get_enabled, get_bank, physical}
use sparcv8emulator.MemAccess.Pointers.{page_hit, filled}
use sparcv8emulator.MemAccess.Access.{
  Accessed, succeeded, bus_fault, cache_of, fill_cache, through_pointer, known_size, at_bank,
  after_translation, missed, mem_access,
}
use sparcv8emulator.MemAccess.Hits.{translation, IsKept, IsRunning}
use sparcv8emulator.MemAccess.Pages.{IsPaged, translation_lem}
use sparcv8emulator.MemAccess.Shared.{
  SameRegisters, translate_va-SameRegisters, Shares, Shares-refl, IsKept-Shares, filled-IsKept,
  fill_cache-IsKept,
}

-- What an access that reads leaves: a unit that runs, with the same memory, mode and tables.
abbrev pub AfterRead : Srmmu → Option (Accessed × Srmmu) → Type 0
AfterRead u none = Unit
AfterRead u (some (r, u')) = IsRunning u' × Shares u u'

abbrev pub reads : Intent → Bool
reads load = true
reads store = false
reads execute = true

succeeded-AfterRead :
    (w u : Srmmu) (o : Option ℕ) → IsRunning u → Shares w u → AfterRead w (succeeded u o)
unfolding succeeded
succeeded-AfterRead w u none ok s = tt
succeeded-AfterRead w u (some v) ok s = (ok, s)

through_pointer-AfterRead :
    (intent : Intent) (size vaddr value : ℕ) (w u : Srmmu)
    → reads intent ≡ true
    → IsRunning u
    → Shares w u
    → AfterRead w (known_size intent size (through_pointer intent size vaddr value u))
unfolding through_pointer known_size
through_pointer-AfterRead load size vaddr value w u e ok s = succeeded-AfterRead w u _ ok s
through_pointer-AfterRead execute size vaddr value w u e ok s = succeeded-AfterRead w u _ ok s
through_pointer-AfterRead store size vaddr value w u e ok s = cc

-- Another state of the registers and the TLBs, and other entries, for the same memory and tables.
pub moved-IsRunning :
    (u u' : Srmmu)
    → Shares u u'
    → u'.core.ctx_n ≡ u.core.ctx_n
    → BothCoherent (physical u.mctrl) u.core.ctx_tbl_ptr u'.core
    → ((k : Intent) (v : ℕ) → IsKept u k (cache_of k v u'))
    → IsRunning u
    → IsRunning u'
moved-IsRunning u u' s n tlbs kept ok = record {
  context = rw n ok.context;
  root = rw (s.mctrl, s.table, n) ok.root;
  tlbs = record {
    instructions = rw (s.mctrl, s.table) tlbs.instructions;
    accesses = rw (s.mctrl, s.table) tlbs.accesses;
  };
  pages = λ k v. IsKept-Shares u u' k (cache_of k v u') s (kept k v);
}

pub pages-core :
    (u : Srmmu) (core : Mmu)
    → IsRunning u
    → (k : Intent) (v : ℕ) → IsKept u k (cache_of k v (record u { core = core }))
unfolding cache_of
pages-core u core ok load v = ok.pages load v
pages-core u core ok store v = ok.pages store v
pages-core u core ok execute v = ok.pages execute v

bus_fault-AfterRead :
    (intent : Intent) (vaddr value : ℕ) (supervisor report : Bool) (w u : Srmmu)
    → IsRunning u
    → Shares w u
    → AfterRead w (some (bus_fault intent vaddr value supervisor report u))
unfolding bus_fault
bus_fault-AfterRead intent vaddr value supervisor true w u ok s = (
  moved-IsRunning u _ (record { mctrl = refl; control = refl; table = refl }) refl
      (record { instructions = ok.tlbs.instructions; accesses = ok.tlbs.accesses })
      (pages-core u _ ok) ok,
  record { mctrl = s.mctrl; control = s.control; table = s.table },
)
bus_fault-AfterRead intent vaddr value supervisor false w u ok s = (ok, s)

fill_cache_rest :
    (intent : Intent) (vpage : ℕ) (c : PageCache) (u : Srmmu)
    → ((fill_cache intent vpage c u).mctrl ≡ u.mctrl)
      × ((fill_cache intent vpage c u).core ≡ u.core)
      × ((fill_cache intent vpage c u).control_reg ≡ u.control_reg)
unfolding fill_cache
fill_cache_rest load vpage c u = (refl, refl, refl)
fill_cache_rest store vpage c u = (refl, refl, refl)
fill_cache_rest execute vpage c u = (refl, refl, refl)

fill_cache-IsRunning :
    (intent : Intent) (vpage : ℕ) (c : PageCache) (u : Srmmu)
    → IsRunning u
    → IsKept u intent c
    → IsRunning (fill_cache intent vpage c u)
fill_cache-IsRunning intent vpage c u ok kept =
    let (m, core, control) = fill_cache_rest intent vpage c u in
    moved-IsRunning u (fill_cache intent vpage c u)
      (record { mctrl = m; control = control; table = ap (λ (k : Mmu). k.ctx_tbl_ptr) core })
      (ap (λ (k : Mmu). k.ctx_n) core) (rw core ok.tlbs)
      (fill_cache-IsKept u intent vpage c u kept ok.pages) ok

-- The access at the bank that a translation leads to.
at_bank-AfterRead :
    (intent : Intent) (size vaddr value : ℕ) (supervisor report : Bool) (u : Srmmu)
    (found : Option (ℕ × Attached))
    → reads intent ≡ true
    → vaddr < 2 ^ 32
    → ((j : ℕ) (b : Attached) → place j u.mctrl.banks ≡ some b → IsPaged b.bank)
    → get_enabled u ≡ true
    → (translation u intent vaddr supervisor report).ok ≡ true
    → get_bank (translation u intent vaddr supervisor report).pa u.mctrl ≡ found
    → IsRunning u
    → AfterRead u (
        at_bank intent size vaddr value supervisor report
          (translation u intent vaddr supervisor report).pa
          found
          u)
unfolding at_bank
at_bank-AfterRead intent size vaddr value supervisor report u none e vl paged on allowed f ok =
    bus_fault-AfterRead intent vaddr value supervisor report u u ok (Shares-refl u)
at_bank-AfterRead intent size vaddr value supervisor report u (some (i, a)) e vl paged on allowed f
      ok =
    let c : PageCache =
      filled vaddr (translation u intent vaddr supervisor report).pa u.core.ctx_n supervisor i in
    let rest = fill_cache_rest intent (vaddr >>> 12) c u in
    simp on (
      through_pointer-AfterRead intent size vaddr value u (fill_cache intent (vaddr >>> 12) c u) e
        (fill_cache-IsRunning intent (vaddr >>> 12) c u ok
          (filled-IsKept u intent vaddr supervisor report i a paged vl allowed f))
        (record {
          mctrl = rest.0;
          control = rest.2;
          table = ap (λ (k : Mmu). k.ctx_tbl_ptr) rest.1;
        }))

AfterRead-core :
    (u : Srmmu) (core : Mmu) (o : Option (Accessed × Srmmu))
    → core.ctx_tbl_ptr ≡ u.core.ctx_tbl_ptr
    → AfterRead (record u { core = core }) o
    → AfterRead u o
AfterRead-core u core none e h = tt
AfterRead-core u core (some (r, u')) e (ok, s) =
    (ok, record { mctrl = s.mctrl; control = s.control; table = s.table ∙ e })

translation-core :
    (u : Srmmu) (core : Mmu) (intent : Intent) (x : ℕ) (supervisor report : Bool)
    → core.ctx_tbl_ptr ≡ u.core.ctx_tbl_ptr
    → core.ctx_n ≡ u.core.ctx_n
    → translation (record u { core = core }) intent x supervisor report
      ≡ translation u intent x supervisor report
translation-core u core intent x supervisor report table n =
    rw
      (
        translation_lem (record u { core = core }) intent x supervisor report,
        translation_lem u intent x supervisor report,
        table,
        n,
      )
      refl

after_translation-AfterRead :
    (intent : Intent) (size vaddr value : ℕ) (supervisor report : Bool) (u : Srmmu)
    (o : Option (Mmu × Translation))
    → reads intent ≡ true
    → vaddr < 2 ^ 32
    → ((j : ℕ) (b : Attached) → place j u.mctrl.banks ≡ some b → IsPaged b.bank)
    → get_enabled u ≡ true
    → SameRegisters u.core o
    → Agrees
        (physical u.mctrl)
        u.core.ctx_tbl_ptr
        (uncached (physical u.mctrl) vaddr supervisor intent report u.core)
        o
    → IsRunning u
    → AfterRead u (after_translation intent size vaddr value supervisor report o u)
unfolding after_translation translation get_enabled
after_translation-AfterRead intent size vaddr value supervisor report u none e vl paged on k a ok =
    tt
after_translation-AfterRead intent size vaddr value supervisor report u (some (core, r)) e vl paged
      on k a ok =
    let u' : Srmmu = record u { core = core } in
    let ok' : IsRunning u' =
      moved-IsRunning u u' (record { mctrl = refl; control = refl; table = k.0 }) k.1 a.2
        (pages-core u core ok) ok in
    let same : translation u' intent vaddr supervisor report ≡ r =
      translation-core u core intent vaddr supervisor report k.0 k.1 ∙ sym a.0 in
    elim (Bool-cases r.ok) [
      | inl allowed ↦ simp allowed (
          AfterRead-core u core _ k.0 (
            subst
              (λ (t : Translation).
                AfterRead u' (
                  at_bank intent size vaddr value supervisor report t.pa (get_bank t.pa u.mctrl)
                    u'))
              same
              (at_bank-AfterRead intent size vaddr value supervisor report u' _ e vl paged on
                (rw same allowed) refl ok')))
      | inr refused ↦ simp refused (ok', record { mctrl = refl; control = refl; table = k.0 })
    ]

hit-AfterRead :
    (intent : Intent) (size vaddr value : ℕ) (u : Srmmu)
    → reads intent ≡ true
    → IsRunning u
    → AfterRead u (through_pointer intent size vaddr value u)
unfolding through_pointer
hit-AfterRead load size vaddr value u e ok = succeeded-AfterRead u u _ ok (Shares-refl u)
hit-AfterRead execute size vaddr value u e ok = succeeded-AfterRead u u _ ok (Shares-refl u)
hit-AfterRead store size vaddr value u e ok = cc

-- A fetch or a load leaves a unit that runs as one that runs, with the same memory and mode.
pub mem_access-AfterRead :
    (intent : Intent) (size vaddr value : ℕ) (supervisor report : Bool) (u : Srmmu)
    → reads intent ≡ true
    → vaddr < 2 ^ 32
    → ((j : ℕ) (b : Attached) → place j u.mctrl.banks ≡ some b → IsPaged b.bank)
    → get_enabled u ≡ true
    → IsRunning u
    → AfterRead u (mem_access intent size vaddr value supervisor report u)
unfolding mem_access missed
mem_access-AfterRead intent size vaddr value supervisor report u e vl paged on ok =
    elim (Bool-cases
      (page_hit (vaddr >>> 12) u.core.ctx_n supervisor (cache_of intent (vaddr >>> 12) u))) [
        | inl hit ↦ simp (on, hit) (hit-AfterRead intent size vaddr value u e ok)
        | inr miss ↦
            simp (on, miss)
              (after_translation-AfterRead intent size vaddr value supervisor report u
                (translate_va (physical u.mctrl) vaddr supervisor intent report u.core) e vl paged
                on
                (translate_va-SameRegisters (physical u.mctrl) vaddr supervisor intent report u.core
                  ok.context)
                (translate_va-uncached (physical u.mctrl) vaddr supervisor intent report u.core vl
                  ok.context ok.root ok.tlbs)
                ok)
      ]
