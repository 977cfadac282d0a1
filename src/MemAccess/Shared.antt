-- ===== src/MemAccess/Shared.antt =====
-- src/sparcv8/MMU.h and MMU.cpp: what a translation leaves of the registers, and the entries of the
-- page caches in units that share their memory and tables.
use sparcv8emulator.Base.{
  ℕ, ◌^◌, ◌≤◌, ◌<◌, ◌≡◌, refl, sym, inl, inr, Bool, true, false, Bool-cases, ltb, ◌==◌, Option,
  none, some, arith,
}
use sparcv8emulator.Mctrl.Control.{Attached, place}
use sparcv8emulator.Mmu.Tlb.{Tlb, lookup, insert}
use sparcv8emulator.Mmu.Walk.{Memory, entry_type, get_pte}
use sparcv8emulator.Mmu.Perms.{Intent, load, store, execute, get_access_type, acc_of, perm_ok}
use sparcv8emulator.Mmu.Translate.{
  Mmu, Translation, hit_checked, checked, stored, inserted, then_checked, walked, translated,
  translate_va, tlb_of, with_tlb,
}
use sparcv8emulator.MemAccess.Core.{PageCache, Srmmu, get_bank, set_ctx_number}
use sparcv8emulator.MemAccess.Pointers.{filled, way}
use sparcv8emulator.MemAccess.Access.{cache_of, fill_cache}
use sparcv8emulator.MemAccess.Hits.{translation, IsKept}
use sparcv8emulator.MemAccess.Pages.{IsPaged, translation_lem, filled-LeadsTo}

-- A translation leaves the registers that choose the tables.
abbrev pub SameTables : Mmu → Option Mmu → Type 0
SameTables m none = Unit
SameTables m (some m') = (m'.ctx_tbl_ptr ≡ m.ctx_tbl_ptr) × (m'.ctx_n ≡ m.ctx_n)

abbrev pub SameRegisters : Mmu → Option (Mmu × Translation) → Type 0
SameRegisters m none = Unit
SameRegisters m (some (m', r)) = SameTables m (some m')

stored-SameTables : (intent : Intent) (m : Mmu) (o : Option Tlb) → SameTables m (stored intent m o)
unfolding stored
stored-SameTables intent m none = tt
stored-SameTables intent m (some t) = (refl, refl)

inserted-SameTables :
    (intent : Intent) (vaddr pte level : ℕ) (m : Mmu)
    → SameTables m (inserted intent vaddr pte level m)
unfolding inserted
inserted-SameTables intent vaddr pte level m = elim (Bool-cases (entry_type pte == 2)) [
  | inl e ↦ simp e (stored-SameTables intent m (insert m.ctx_n vaddr level pte (tlb_of intent m)))
  | inr e ↦ simp e (refl, refl)
]

then_checked-SameRegisters :
    (vaddr : ℕ) (intent : Intent) (supervisor report : Bool) (pte level : ℕ) (m : Mmu)
    (o : Option Mmu)
    → SameTables m o
    → SameRegisters m (then_checked vaddr intent supervisor report pte level o)
unfolding then_checked checked
then_checked-SameRegisters vaddr intent supervisor report pte level m none e = tt
then_checked-SameRegisters vaddr intent supervisor report pte level m (some m') e = e

translated-SameRegisters :
    (memory : Memory) (vaddr : ℕ) (supervisor : Bool) (intent : Intent) (report : Bool)
    (found : Option (ℕ × ℕ)) (m : Mmu)
    → m.ctx_n ≤ 255
    → SameRegisters m (translated memory vaddr supervisor intent report found m)
unfolding translated walked hit_checked
translated-SameRegisters memory vaddr supervisor intent report none m le =
    let w = get_pte memory m.ctx_tbl_ptr m.ctx_n vaddr 0 in
    let small : ltb 255 m.ctx_n ≡ false = ground arith in
    simp small (
      then_checked-SameRegisters vaddr intent supervisor report w.0 w.1 m
        (inserted intent vaddr w.0 w.1 m) (inserted-SameTables intent vaddr w.0 w.1 m))
translated-SameRegisters memory vaddr supervisor intent report (some (pte, level)) m le =
    elim (Bool-cases (perm_ok (acc_of pte) (get_access_type intent supervisor))) [
      | inl e ↦ simp e (refl, refl)
      | inr e ↦ simp e (refl, refl)
    ]

pub translate_va-SameRegisters :
    (memory : Memory) (vaddr : ℕ) (supervisor : Bool) (intent : Intent) (report : Bool) (m : Mmu)
    → m.ctx_n ≤ 255
    → SameRegisters m (translate_va memory vaddr supervisor intent report m)
unfolding translate_va
translate_va-SameRegisters memory vaddr supervisor intent report m le =
    let (t, found) = lookup m.ctx_n vaddr (tlb_of intent m) in
    translated-SameRegisters memory vaddr supervisor intent report found (with_tlb intent t m) le

-- The memory and the tables that two units share.
pub record Shares (u u' : Srmmu) : Type 0 where
  pub mctrl : u'.mctrl ≡ u.mctrl
  pub control : u'.control_reg ≡ u.control_reg
  pub table : u'.core.ctx_tbl_ptr ≡ u.core.ctx_tbl_ptr

pub Shares-refl : (u : Srmmu) → Shares u u
Shares-refl u = record { mctrl = refl; control = refl; table = refl }

translation-Shares :
    (u u' : Srmmu) (intent : Intent) (x : ℕ) (supervisor report : Bool) (c : ℕ)
    → Shares u u'
    → translation (set_ctx_number c u') intent x supervisor report
      ≡ translation (set_ctx_number c u) intent x supervisor report
unfolding set_ctx_number
translation-Shares u u' intent x supervisor report c s =
    rw
      (
        translation_lem (set_ctx_number c u') intent x supervisor report,
        translation_lem (set_ctx_number c u) intent x supervisor report,
        s.mctrl,
        s.table,
      )
      refl

pub IsKept-Shares :
    (u u' : Srmmu) (intent : Intent) (c : PageCache)
    → Shares u u'
    → IsKept u intent c
    → IsKept u' intent c
unfolding set_ctx_number
IsKept-Shares u u' intent c s k = record {
  leads = λ vaddr report vl page.
      let l = k.leads vaddr report vl page in
      let same = translation-Shares u u' intent vaddr c.super report c.ctx s in
      record {
        allowed = rw same l.allowed;
        bank = l.bank;
        attached = l.attached;
        found = rw (same, s.mctrl) l.found;
        same = rw same l.same;
      };
}

-- An entry that is filled after a translation keeps its promise.
pub filled-IsKept :
    (u : Srmmu) (intent : Intent) (x : ℕ) (supervisor report : Bool) (i : ℕ) (a : Attached)
    → ((j : ℕ) (b : Attached) → place j u.mctrl.banks ≡ some b → IsPaged b.bank)
    → x < 2 ^ 32
    → (translation u intent x supervisor report).ok ≡ true
    → get_bank (translation u intent x supervisor report).pa u.mctrl ≡ some (i, a)
    → IsKept u intent
        (filled x (translation u intent x supervisor report).pa u.core.ctx_n supervisor i)
unfolding filled set_ctx_number
filled-IsKept u intent x supervisor report i a paged xl ok found = record {
  leads = λ y report' yl page.
      filled-LeadsTo u intent x y supervisor report report' i a paged xl yl (sym page) ok found;
}

pub fill_cache-IsKept :
    (u : Srmmu) (intent : Intent) (vpage : ℕ) (c : PageCache) (w : Srmmu)
    → IsKept w intent c
    → ((k : Intent) (v : ℕ) → IsKept w k (cache_of k v u))
    → (k : Intent) (v : ℕ) → IsKept w k (cache_of k v (fill_cache intent vpage c u))
unfolding cache_of fill_cache
fill_cache-IsKept u load vpage c w new old load v = elim (Bool-cases (way v == way vpage)) [
  | inl e ↦ simp e new
  | inr e ↦ simp e (old load v)
]
fill_cache-IsKept u load vpage c w new old store v = old store v
fill_cache-IsKept u load vpage c w new old execute v = old execute v
fill_cache-IsKept u store vpage c w new old load v = old load v
fill_cache-IsKept u store vpage c w new old store v = elim (Bool-cases (way v == way vpage)) [
  | inl e ↦ simp e new
  | inr e ↦ simp e (old store v)
]
fill_cache-IsKept u store vpage c w new old execute v = old execute v
fill_cache-IsKept u execute vpage c w new old load v = old load v
fill_cache-IsKept u execute vpage c w new old store v = old store v
fill_cache-IsKept u execute vpage c w new old execute v = new
