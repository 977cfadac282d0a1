-- ===== src/Mmu/Translate.antt =====
-- src/sparcv8/MMU.cpp, `translate_va`: a virtual address through the TLB or the page tables.
use sparcv8emulator.Base.{
  ℕ, ◌*◌, ◌^◌, Bool, true, false, if◌then◌else◌, ltb, ◌==◌, Option, none, some, bit_and, bit_or,
  u32, not32, ◌>>>◌,
}
use sparcv8emulator.Mmu.Tlb.{Tlb, lookup, insert, flush}
use sparcv8emulator.Mmu.Walk.{Memory, get_pte, entry_type}
use sparcv8emulator.Mmu.Perms.{
  Intent, load, store, execute, Faults, get_access_type, acc_of, check_perms, perm_ok,
}

pub record Mmu : Type 0 where
  pub ctx_tbl_ptr : ℕ
  pub ctx_n : ℕ
  pub faults : Faults
  pub itlb : Tlb
  pub dtlb : Tlb

-- `MMUTranslateResult`.
pub record Translation : Type 0 where
  pub ok : Bool
  pub pa : ℕ
  pub level : ℕ
  pub pte : ℕ

unfoldable pub refused : ℕ → Translation
refused level = record { ok = false; pa = 0; level = level; pte = 0 }

unfoldable pub page_offset : ℕ → ℕ → ℕ
page_offset level va =
    if level == 3
    then bit_and va 0xfff
    else if level == 2
    then bit_and va 0x3ffff
    else if level == 1
    then bit_and va 0xffffff
    else va

unfoldable pub granted : ℕ → ℕ → ℕ → Translation
granted vaddr pte level = record {
  ok = true;
  pa = bit_or (page_offset level vaddr) (u32 (bit_and pte (not32 0xff) >>> 8 * 2 ^ 12));
  level = level;
  pte = pte;
}

unfoldable pub is_execute : Intent → Bool
is_execute load = false
is_execute store = false
is_execute execute = true

-- Instructions go through `itlb`, data through `dtlb`.
abbrev pub tlb_of : Intent → Mmu → Tlb
tlb_of rw m = if is_execute rw then m.itlb else m.dtlb

abbrev pub with_tlb : Intent → Tlb → Mmu → Mmu
with_tlb rw t m = record m {
  itlb = if is_execute rw then t else m.itlb;
  dtlb = if is_execute rw then m.dtlb else t;
}

unfoldable pub checked : ℕ → Intent → Bool → Bool → ℕ → ℕ → Mmu → Mmu × Translation
checked vaddr rw supervisor report pte level m =
    let (f, ft) = check_perms vaddr pte rw supervisor level report m.faults in
    (record m { faults = f }, if ft == 0 then granted vaddr pte level else refused level)

-- A hit tests the access by `perm_ok_table`, and calls `check_perms` to record the fault.
unfoldable pub hit_checked : ℕ → Intent → Bool → Bool → ℕ → ℕ → Mmu → Mmu × Translation
hit_checked vaddr rw supervisor report pte level m =
    if perm_ok (acc_of pte) (get_access_type rw supervisor) then (m, granted vaddr pte level) else (
      record m { faults = (check_perms vaddr pte rw supervisor level report m.faults).0 },
      refused level,
    )

unfoldable pub stored : Intent → Mmu → Option Tlb → Option Mmu
stored rw m none = none
stored rw m (some t) = some (with_tlb rw t m)

unfoldable pub inserted : Intent → ℕ → ℕ → ℕ → Mmu → Option Mmu
inserted rw vaddr pte level m =
    if entry_type pte == 2
    then stored rw m (insert m.ctx_n vaddr level pte (tlb_of rw m))
    else some m

unfoldable pub then_checked :
    ℕ → Intent → Bool → Bool → ℕ → ℕ → Option Mmu → Option (Mmu × Translation)
then_checked vaddr rw supervisor report pte level none = none
then_checked vaddr rw supervisor report pte level (some m) =
    some (checked vaddr rw supervisor report pte level m)

-- A miss. `none` is an exception: on the context number, or on the level in `insert`.
unfoldable pub walked : Memory → ℕ → Bool → Intent → Bool → Mmu → Option (Mmu × Translation)
walked memory vaddr supervisor rw report m =
    if ltb 255 m.ctx_n
    then none
    else (let (pte, level) = get_pte memory m.ctx_tbl_ptr m.ctx_n vaddr 0 in
        then_checked vaddr rw supervisor report pte level (inserted rw vaddr pte level m))

unfoldable pub translated :
    Memory → ℕ → Bool → Intent → Bool → Option (ℕ × ℕ) → Mmu → Option (Mmu × Translation)
translated memory vaddr supervisor rw report none m = walked memory vaddr supervisor rw report m
translated memory vaddr supervisor rw report (some (pte, level)) m =
    some (hit_checked vaddr rw supervisor report pte level m)

unfoldable pub translate_va : Memory → ℕ → Bool → Intent → Bool → Mmu → Option (Mmu × Translation)
translate_va memory vaddr supervisor rw report m =
    let (t, found) = lookup m.ctx_n vaddr (tlb_of rw m) in
    translated memory vaddr supervisor rw report found (with_tlb rw t m)

-- `MMU::flush`, without the caches of host pages.
unfoldable pub flush_tlbs : Mmu → Mmu
flush_tlbs m = record m { itlb = flush m.itlb; dtlb = flush m.dtlb }
