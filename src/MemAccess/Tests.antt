-- ===== src/MemAccess/Tests.antt =====
-- Tests of accesses through the memory management unit, and its theorems at concrete inputs.
use sparcv8emulator.Base.{
  testbit, sub32, subst, ℕ, zero, suc, ◌+◌, ◌^◌, ◌≡◌, ◌≢◌, refl, ◌<◌, ◌/◌, true, false,
  if◌then◌else◌, ◌==◌, none, some, List, [], ◌∷◌, arith,
}
use sparcv8emulator.Mctrl.Bytes.{big, word_of}
use sparcv8emulator.Mctrl.Banks.{contains, at_offset, read32_be, ram_read32}
use sparcv8emulator.Mctrl.Control.{ram_bank, Attached, Mctrl, search, place}
use sparcv8emulator.Mmu.Tlb.{
  fresh_tlb, flush, is_valid, matches, usable, scan, warmed, lookup, get_addr_level_mask, placed,
  insert,
}
use sparcv8emulator.Mctrl.Access.{bank_read32, type_read32}
use sparcv8emulator.Mmu.Walk.{
  word_or_zero, bypass_read, ind1, ind2, ind3, entry_type, next_entry, root_entry, get_pte,
}
use sparcv8emulator.Mmu.Translate.{
  Translation, hit_checked, refused, flush_tlbs, granted, page_offset, is_execute, checked, stored,
  inserted, then_checked, walked, translated, translate_va,
}
use sparcv8emulator.Mmu.Perms.{
  load, acc_of, perm_ok, make_fsr, get_access_type, check_acc, fault_type, check_perms,
}
use sparcv8emulator.Mmu.Cached.{uncached, BothCoherent}
use sparcv8emulator.Mmu.Coherent.{flush-Coherent}
use sparcv8emulator.MemAccess.Core.{
  Srmmu, fresh_page, get_enabled, get_no_fault, get_bank, physical, forget_pages, flush_unit,
  set_ctx_number,
}
use sparcv8emulator.MemAccess.Pointers.{way, filled, page_hit, page_read, pointed, pointer_read}
use sparcv8emulator.MemAccess.Access.{
  cache_of, fill_cache, succeeded, bus_fault, known_size, at_bank, after_translation,
  through_pointer, mem_access, missed,
}
use sparcv8emulator.MemAccess.Hits.{answered, translation, LeadsTo}
use sparcv8emulator.MemAccess.History.{
  Step, access, context, unit_of, perform, performs, AreAllowed, performs-missed,
}
use sparcv8emulator.MemAccess.Atomics.{first_translation, store_allowed, atomic_casa32}
use sparcv8emulator.MemAccess.Compare.{Compares, atomic_casa32-Compares}
use sparcv8emulator.MemAccess.Pages.{IsPaged, filled-LeadsTo}

-- A context table at 0x40001000, a table at 0x40002000 with a page for 0xf0000000, and a word at
-- 0x40003000.
abbrev contents : ℕ → ℕ
contents i =
    if i == 0x1000
    then 0x04
    else if i == 0x1002
    then 0x02
    else if i == 0x1003
    then 0x01
    else if i == 0x23c0
    then 0x04
    else if i == 0x23c3
    then 0x0e
    else if i == 0x3003
    then 0x2a
    else 0

abbrev bank : Attached
bank = record {
  bank_type = ram_bank;
  bank = record {
    base = 0x40000000;
    size = 0x1000000;
    endian = big;
    writeable = true;
    bytes = contents;
  };
}

abbrev controller : Mctrl
controller = record { banks = bank ∷ []; generation = 2; instance_id = 1 }

abbrev unit : Srmmu
unit = record {
  control_reg = 1;
  ccr = 0;
  iccr = 0;
  dccr = 0;
  last_ctx_n = 0;
  core = record {
    ctx_tbl_ptr = 0x4000100;
    ctx_n = 0;
    faults = record { fault_status_reg = 0; fault_address_reg = 0 };
    itlb = flush fresh_tlb;
    dtlb = flush fresh_tlb;
  };
  fetch_cache = fresh_page;
  data_cache = λ way. filled 0xf0003010 0x40003010 0 true 0;
  store_cache = λ way. fresh_page;
  mctrl = controller;
}

bank-IsPaged : (j : ℕ) (b : Attached) → place j controller.banks ≡ some b → IsPaged b.bank
unfolding place
bank-IsPaged zero b e =
    let same : bank ≡ b = cc in
    let paged : IsPaged bank.bank = (record {
      base = omega arith;
      size = omega arith;
      starts = refl;
      finishes = refl;
    }) in
    rw (← same) paged
bank-IsPaged (suc j) b e = cc

leads_to :
    ((translation unit load 0xf0003010 true true).ok ≡ true)
    × ((translation unit load 0xf0003010 true true).pa ≡ 0x40003010)
unfolding translation uncached checked check_perms fault_type check_acc get_access_type granted
    page_offset get_pte root_entry next_entry bypass_read word_or_zero entry_type ind1 ind2 ind3
    physical search contains bank_read32 type_read32 ram_read32 read32_be word_of
leads_to = (refl, refl)

found : get_bank 0x40003010 controller ≡ some (0, bank)
unfolding search contains
found = refl

leads :
    (y : ℕ)
    → y < 2 ^ 32
    → 0xf0003010 / 2 ^ 12 ≡ y / 2 ^ 12
    → LeadsTo unit load y true true (filled 0xf0003010 0x40003010 0 true 0).page_data
leads y lt e =
    subst (λ (pa : ℕ). LeadsTo unit load y true true (filled 0xf0003010 pa 0 true 0).page_data)
      leads_to.1
      (filled-LeadsTo unit load 0xf0003010 y true true true 0 bank bank-IsPaged (omega arith) lt e
        leads_to.0 (rw leads_to.1 found))

filled-LeadsTo_example :
    LeadsTo unit load 0xf0003004 true true
      (filled 0xf0003010 (translation unit load 0xf0003010 true true).pa 0 true 0).page_data
filled-LeadsTo_example =
    filled-LeadsTo unit load 0xf0003010 0xf0003004 true true true 0 bank bank-IsPaged (omega arith)
      (omega arith) refl leads_to.0 (rw leads_to.1 found)

pointer : entry_type (root_entry (physical controller) 0x4000100 0) ≢ 2
unfolding root_entry bypass_read word_or_zero entry_type physical search contains bank_read32
    type_read32 ram_read32 read32_be word_of
pointer e = ground (arith, e)

sound : BothCoherent (physical controller) 0x4000100 unit.core
sound = record {
  instructions = flush-Coherent (physical controller) 0x4000100 fresh_tlb;
  accesses = flush-Coherent (physical controller) 0x4000100 fresh_tlb;
}

enabled : get_enabled unit ≡ true
unfolding get_enabled testbit
enabled = refl

-- A page is loaded, and another context, which has no page there, comes and goes.
abbrev steps : List Step
steps =
    access load 4 0xf0003010 true true
    ∷ context 1
    ∷ access load 2 0xf0003010 true true
    ∷ context 0
    ∷ []

abbrev after_steps : Srmmu
after_steps = elim (performs steps (flush_unit unit)) [ none ↦ unit | some u ↦ u ]

performed : performs steps (flush_unit unit) ≡ some after_steps
unfolding performs perform unit_of flush_unit forget_pages flush_tlbs set_ctx_number mem_access
    missed after_translation at_bank bus_fault known_size fill_cache way cache_of filled page_hit
    through_pointer succeeded page_read pointed pointer_read place at_offset get_enabled testbit
    translate_va lookup matches warmed scan usable is_valid fresh_tlb flush translated walked
    hit_checked perm_ok acc_of get_pte root_entry next_entry bypass_read word_or_zero entry_type
    ind1 ind2 ind3 inserted insert placed get_addr_level_mask stored then_checked checked
    check_perms fault_type check_acc get_access_type granted refused page_offset is_execute physical
    search contains bank_read32 type_read32 ram_read32 read32_be word_of make_fsr
performed = refl

no_tables : entry_type (root_entry (physical controller) 0x4000100 1) ≢ 2
unfolding root_entry bypass_read word_or_zero entry_type physical search contains bank_read32
    type_read32 ram_read32 read32_be word_of
no_tables e = ground (arith, e)

steps-AreAllowed : AreAllowed unit steps
steps-AreAllowed = (
  (refl, omega arith),
  ((omega arith, no_tables), ((refl, omega arith), ((omega arith, pointer), tt))),
)

performs-missed_example :
    answered (mem_access load 4 0xf0003000 0 true true after_steps)
    ≡ answered (missed load 4 0xf0003000 0 true true after_steps)
performs-missed_example =
    performs-missed steps unit after_steps load 4 0xf0003000 0 true true bank-IsPaged enabled
      (omega arith) pointer steps-AreAllowed performed refl (omega arith)

-- The cached load gives the word.
cached_word :
    answered (mem_access load 4 0xf0003000 0 true true unit)
    ≡ some (record { fault = 0; value = 0x2a }, controller)
unfolding testbit at_offset answered mem_access get_enabled page_hit cache_of filled through_pointer
    succeeded page_read pointed pointer_read place word_of
cached_word = refl

abbrev first : Srmmu × Translation
first = elim (first_translation 0xf0003000 true unit) [
  | none ↦ (unit, record { ok = false; pa = 0; level = 0; pte = 0 })
  | some x ↦ x
]

first_lem : first_translation 0xf0003000 true unit ≡ some first
unfolding first_translation get_enabled testbit translate_va lookup matches warmed scan usable
    is_valid fresh_tlb flush translated walked get_pte root_entry next_entry bypass_read
    word_or_zero entry_type ind1 ind2 ind3 inserted insert placed get_addr_level_mask stored
    then_checked checked check_perms fault_type check_acc get_access_type granted page_offset
    is_execute physical search contains bank_read32 type_read32 ram_read32 read32_be word_of
    get_no_fault
first_lem = refl

first_granted :
    (first.1.ok ≡ true)
    × (get_bank first.1.pa first.0.mctrl ≡ some (0, bank))
    × (sub32 first.1.pa bank.bank.base + 3 < bank.bank.size)
    × (bank_read32 first.1.pa bank ≡ some 0x2a)
    × ((store_allowed 0xf0003000 true first.1 first.0).1 ≡ true)
unfolding first_translation get_enabled testbit translate_va lookup matches warmed scan usable
    is_valid fresh_tlb flush translated walked get_pte root_entry next_entry bypass_read
    word_or_zero entry_type ind1 ind2 ind3 inserted insert placed get_addr_level_mask stored
    then_checked checked check_perms fault_type check_acc get_access_type granted page_offset
    is_execute physical search contains bank_read32 type_read32 ram_read32 read32_be word_of
    get_no_fault store_allowed
first_granted = (refl, refl, omega arith, refl, refl)

atomic_casa32-Compares_example :
    Compares first.1.pa 0x2a 0x2a 0x55 (atomic_casa32 0xf0003000 true 0x2a 0x55 unit)
atomic_casa32-Compares_example =
    atomic_casa32-Compares 0xf0003000 true 0x2a 0x55 0x2a 0 bank first.1 unit first.0 (omega arith)
      first_lem first_granted.0 first_granted.1 refl first_granted.2 first_granted.3 first_granted.4
