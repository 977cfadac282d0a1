-- ===== src/MemAccess/Hits.antt =====
-- src/sparcv8/MMU.h, `MMU::MemAccess`: an access to a page that is cached against the same access
-- after a translation.
use sparcv8emulator.Base.{
  ℕ, ◌^◌, ◌≤◌, ◌<◌, ◌≡◌, ◌≢◌, refl, ◌∙◌, sym, ap, Bool, true, false, Bool-cases, inl, inr, subst,
  ◌||◌, ◌==◌, Option, none, some, ◌>>>◌, bit_and, not32, arith,
}
use sparcv8emulator.Mctrl.Control.{Attached, Mctrl}
use sparcv8emulator.Mmu.Walk.{entry_type, root_entry}
use sparcv8emulator.Mmu.Perms.{Intent, load, store, execute}
use sparcv8emulator.Mmu.Translate.{Mmu, Translation, translate_va}
use sparcv8emulator.Mmu.Cached.{uncached, BothCoherent, Agrees, translate_va-uncached}
use sparcv8emulator.MemAccess.Core.{
  PagePointer, PageCache, Srmmu, get_enabled, get_bank, physical, set_ctx_number,
}
use sparcv8emulator.MemAccess.Pointers.{page_read, page_write, page_hit, filled, way}
use sparcv8emulator.MemAccess.Access.{
  Accessed, succeeded, written, cache_of, fill_cache, through_pointer, known_size, at_bank,
  after_translation, missed, mem_access,
}

-- What an access returns and what the memory holds after it.
unfoldable pub answered : Option (Accessed × Srmmu) → Option (Accessed × Mctrl)
answered none = none
answered (some (r, u)) = some (r, u.mctrl)

read_answer : Mctrl → Option ℕ → Option (Accessed × Mctrl)
read_answer m none = none
read_answer m (some v) = some (record { fault = 0; value = v }, m)

write_answer : ℕ → Option Mctrl → Option (Accessed × Mctrl)
write_answer value none = none
write_answer value (some m) = some (record { fault = 0; value = value }, m)

-- An access through a pointer, by the pointer alone.
pointer_answer : Intent → ℕ → ℕ → ℕ → Option PagePointer → Mctrl → Option (Accessed × Mctrl)
pointer_answer load size vaddr value p m = read_answer m (page_read size vaddr value p m)
pointer_answer execute size vaddr value p m = read_answer m (page_read 4 vaddr value p m)
pointer_answer store size vaddr value p m = write_answer value (page_write size vaddr value p m)

succeeded_lem : (u : Srmmu) (o : Option ℕ) → answered (succeeded u o) ≡ read_answer u.mctrl o
unfolding answered succeeded read_answer
succeeded_lem u none = refl
succeeded_lem u (some v) = refl

written_lem :
    (value : ℕ) (u : Srmmu) (o : Option Mctrl) → answered (written value u o) ≡ write_answer value o
unfolding answered written write_answer
written_lem value u none = refl
written_lem value u (some m) = refl

through_pointer_lem :
    (intent : Intent) (size vaddr value : ℕ) (u : Srmmu)
    → answered (through_pointer intent size vaddr value u)
      ≡ pointer_answer intent size vaddr value (cache_of intent (vaddr >>> 12) u).page_data u.mctrl
unfolding through_pointer pointer_answer
through_pointer_lem load size vaddr value u = succeeded_lem u _
through_pointer_lem execute size vaddr value u = succeeded_lem u _
through_pointer_lem store size vaddr value u = written_lem value u _

cache_of-fill_cache :
    (intent : Intent) (vpage : ℕ) (c : PageCache) (u : Srmmu)
    → cache_of intent vpage (fill_cache intent vpage c u) ≡ c
unfolding cache_of fill_cache
cache_of-fill_cache load vpage c u =
    let same : (way vpage == way vpage) ≡ true = ground arith in simp same refl
cache_of-fill_cache store vpage c u =
    let same : (way vpage == way vpage) ≡ true = ground arith in simp same refl
cache_of-fill_cache execute vpage c u = refl

fill_cache_mctrl :
    (intent : Intent) (vpage : ℕ) (c : PageCache) (u : Srmmu)
    → (fill_cache intent vpage c u).mctrl ≡ u.mctrl
unfolding fill_cache
fill_cache_mctrl load vpage c u = refl
fill_cache_mctrl store vpage c u = refl
fill_cache_mctrl execute vpage c u = refl

-- The translation of an address by the page tables, for a context.
unfoldable pub translation : Srmmu → Intent → ℕ → Bool → Bool → Translation
translation u intent vaddr supervisor report =
    (uncached (physical u.mctrl) vaddr supervisor intent report u.core).1

-- The page that a pointer leads to is the one that the tables give for an address.
pub record LeadsTo (u : Srmmu) (intent : Intent) (vaddr : ℕ) (supervisor report : Bool)
    (p : Option PagePointer) : Type 0 where
  pub allowed : (translation u intent vaddr supervisor report).ok ≡ true
  pub bank : ℕ
  pub attached : Attached
  pub found :
      get_bank (translation u intent vaddr supervisor report).pa u.mctrl ≡ some (bank, attached)
  pub same :
      p
      ≡ some (record {
        bank = bank;
        page = bit_and (translation u intent vaddr supervisor report).pa (not32 0xfff);
      })

-- An entry keeps its promise: at every address of its page, in its own context and mode, its
-- pointer leads to the page that the tables give. An entry of no page promises nothing.
pub record IsKept (u : Srmmu) (intent : Intent) (c : PageCache) : Type 0 where
  pub leads :
      (vaddr : ℕ) (report : Bool)
      → vaddr < 2 ^ 32
      → vaddr >>> 12 ≡ c.vpage
      → LeadsTo (set_ctx_number c.ctx u) intent vaddr c.super report c.page_data

-- The state of a unit that runs: a context number that the hardware allows, with a pointer to
-- tables in its entry of the context table, sound TLBs, and page caches that keep what they promise.
pub record IsRunning (u : Srmmu) : Type 0 where
  pub context : u.core.ctx_n ≤ 255
  pub root : entry_type (root_entry (physical u.mctrl) u.core.ctx_tbl_ptr u.core.ctx_n) ≢ 2
  pub tlbs : BothCoherent (physical u.mctrl) u.core.ctx_tbl_ptr u.core
  pub pages : (intent : Intent) (vpage : ℕ) → IsKept u intent (cache_of intent vpage u)

-- What a hit tests.
hit_key :
    (vpage ctx : ℕ) (supervisor : Bool) (c : PageCache)
    → page_hit vpage ctx supervisor c ≡ true
    → (vpage ≡ c.vpage) × (c.ctx ≡ ctx) × (c.super ≡ supervisor)
unfolding page_hit
hit_key vpage ctx true c hit = (ground (arith, hit), ground (arith, hit), ground (arith, hit))
hit_key vpage ctx false c hit = (ground (arith, hit), ground (arith, hit), ground (arith, hit))

hit-LeadsTo :
    (intent : Intent) (vaddr : ℕ) (supervisor report : Bool) (u : Srmmu) (c : PageCache)
    → vaddr < 2 ^ 32
    → IsKept u intent c
    → page_hit (vaddr >>> 12) u.core.ctx_n supervisor c ≡ true
    → LeadsTo u intent vaddr supervisor report c.page_data
unfolding set_ctx_number
hit-LeadsTo intent vaddr supervisor report u c vl k hit =
    let (page, context, mode) = hit_key (vaddr >>> 12) u.core.ctx_n supervisor c hit in
    subst (λ (s : Bool). LeadsTo u intent vaddr s report c.page_data) mode
      (subst (λ (n : ℕ). LeadsTo (set_ctx_number n u) intent vaddr c.super report c.page_data)
        context (k.leads vaddr report vl page))

sized :
    (intent : Intent) (size : ℕ) (o : Option (Accessed × Srmmu))
    → (size == 1 || size == 2 || size == 4) ≡ true
    → known_size intent size o ≡ o
unfolding known_size
sized load size o e = refl
sized execute size o e = refl
sized store size o e = simp e refl

-- After a translation to what the tables give, the access uses the page they lead to.
translated_answer :
    (intent : Intent) (size vaddr value : ℕ) (supervisor report : Bool) (u : Srmmu)
    (o : Option (Mmu × Translation)) (p : Option PagePointer)
    → (size == 1 || size == 2 || size == 4) ≡ true
    → get_enabled u ≡ true
    → LeadsTo u intent vaddr supervisor report p
    → Agrees
        (physical u.mctrl)
        u.core.ctx_tbl_ptr
        (uncached (physical u.mctrl) vaddr supervisor intent report u.core)
        o
    → answered (after_translation intent size vaddr value supervisor report o u)
      ≡ pointer_answer intent size vaddr value p u.mctrl
unfolding after_translation at_bank get_enabled translation filled
translated_answer intent size vaddr value supervisor report u none p known on l a = absurd a
translated_answer intent size vaddr value supervisor report u (some (core, r)) p known on l a =
    let c : PageCache =
      filled vaddr (translation u intent vaddr supervisor report).pa core.ctx_n supervisor l.bank in
    let u' : Srmmu = record u { core = core } in
    simp (a.0, l.allowed, l.found, on)
      (ap answered (sized intent size _ known)
        ∙ through_pointer_lem intent size vaddr value (fill_cache intent (vaddr >>> 12) c u')
        ∙ rw
            (
              cache_of-fill_cache intent (vaddr >>> 12) c u',
              fill_cache_mctrl intent (vaddr >>> 12) c u',
              l.same,
            )
            refl)

-- Where a unit runs with its page caches as they should be, a fetch, a load or a store of one, two
-- or four bytes that hits an entry of a page cache returns the value, and leaves the memory, that
-- the same access returns and leaves after a translation.
pub mem_access-missed :
    (intent : Intent) (size vaddr value : ℕ) (supervisor report : Bool) (u : Srmmu)
    → (size == 1 || size == 2 || size == 4) ≡ true
    → vaddr < 2 ^ 32
    → IsRunning u
    → get_enabled u ≡ true
    → answered (mem_access intent size vaddr value supervisor report u)
      ≡ answered (missed intent size vaddr value supervisor report u)
unfolding mem_access missed
mem_access-missed intent size vaddr value supervisor report u known vl ok on =
    let c : PageCache = cache_of intent (vaddr >>> 12) u in
    elim (Bool-cases (page_hit (vaddr >>> 12) u.core.ctx_n supervisor c)) [
      | inl hit ↦
          simp (on, hit)
            (through_pointer_lem intent size vaddr value u
              ∙ sym (
                  translated_answer intent size vaddr value supervisor report u
                    (translate_va (physical u.mctrl) vaddr supervisor intent report u.core)
                    c.page_data known on
                    (hit-LeadsTo intent vaddr supervisor report u c vl
                      (ok.pages intent (vaddr >>> 12)) hit)
                    (translate_va-uncached (physical u.mctrl) vaddr supervisor intent report u.core
                      vl ok.context ok.root ok.tlbs)))
      | inr miss ↦ simp (on, miss) refl
    ]
