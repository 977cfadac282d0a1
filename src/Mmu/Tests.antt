-- ===== src/Mmu/Tests.antt =====
-- Tests of the memory management unit, and its theorems at concrete inputs.
use sparcv8emulator.Base.{
  ℕ, ◌≡◌, ◌≢◌, refl, true, false, if◌then◌else◌, ◌==◌, Option, none, some, arith,
}
use sparcv8emulator.Mmu.Tlb.{
  Tlb, no_context, fresh_tlb, is_valid, matches, usable, scan, warmed, lookup, get_addr_level_mask,
  placed, insert, invalidate_strict, flush,
}
use sparcv8emulator.Mmu.Walk.{
  Memory, word_or_zero, bypass_read, ind1, ind2, ind3, entry_type, next_entry, root_entry, get_pte,
}
use sparcv8emulator.Mmu.Perms.{
  load, store, get_access_type, acc_of, check_acc, fault_type, check_perms, perm_ok,
}
use sparcv8emulator.Mmu.Rights.{perm_ok-fault_type}
use sparcv8emulator.Mmu.Translate.{
  Mmu, Translation, granted, page_offset, is_execute, checked, stored, inserted, then_checked,
  walked, translated, translate_va,
}
use sparcv8emulator.Mmu.Coherent.{flush-Coherent}
use sparcv8emulator.Mmu.Cached.{uncached, BothCoherent, Agrees, translate_va-uncached}
use sparcv8emulator.Mmu.Forget.{invalidate_strict-lookup, flush-lookup-no_context}

-- A context table at 0x10000 and a level 1 table at 0x20000 with a page for 0xf0000000.
abbrev kernel : Memory
kernel pa = if pa == 0x10000 then some 0x2001 else if pa == 0x203c0 then some 0x0400001e else none

abbrev start : Mmu
start = record {
  ctx_tbl_ptr = 0x1000;
  ctx_n = 0;
  faults = record { fault_status_reg = 0; fault_address_reg = 0 };
  itlb = flush fresh_tlb;
  dtlb = flush fresh_tlb;
}

abbrev address : Option (Mmu × Translation) → ℕ
address none = 0
address (some (m, r)) = r.pa

supervisor_load : address (translate_va kernel 0xf0001234 true load true start) ≡ 0x40001234
unfolding translate_va lookup matches warmed scan usable is_valid fresh_tlb flush translated walked
    get_pte root_entry next_entry bypass_read word_or_zero entry_type ind1 ind2 ind3 inserted insert
    placed get_addr_level_mask stored then_checked checked check_perms fault_type check_acc
    get_access_type granted page_offset is_execute
supervisor_load = refl

pointer : entry_type (root_entry kernel 0x1000 0) ≢ 2
unfolding entry_type root_entry bypass_read word_or_zero
pointer e = ground (arith, e)

start-BothCoherent : BothCoherent kernel 0x1000 start
start-BothCoherent = record {
  instructions = flush-Coherent kernel 0x1000 fresh_tlb;
  accesses = flush-Coherent kernel 0x1000 fresh_tlb;
}

translate_va-uncached_example :
    Agrees kernel 0x1000
      (uncached kernel 0xf0001234 false load true start)
      (translate_va kernel 0xf0001234 false load true start)
translate_va-uncached_example =
    translate_va-uncached kernel 0xf0001234 false load true start (omega arith) (omega arith)
      pointer start-BothCoherent

valid_entry : entry_type 0x0400001e ≡ 2
unfolding entry_type
valid_entry = refl

perm_ok-fault_type_example :
    perm_ok (acc_of 0x0400001e) (get_access_type store false)
    ≡ (fault_type 0x0400001e (get_access_type store false) 1 == 0)
perm_ok-fault_type_example = perm_ok-fault_type 0x0400001e store false 1 valid_entry

abbrev warm : Tlb
warm = record fresh_tlb {
  micro = record {
    vaddr_tag = 0xf0000000;
    mask = 0xff000000;
    pte = 0x0400001e;
    context = 3;
    level = 1;
  };
}

invalidate_strict-lookup_example :
    (lookup 3 0xf0001234 (invalidate_strict 3 0xf0001234 warm)).1 ≡ none
invalidate_strict-lookup_example = invalidate_strict-lookup 3 0xf0001234 warm (omega arith)

flush-lookup-no_context_example :
    (lookup no_context 0xf0001234 (flush warm)).1 ≡ some (warm.micro.pte, warm.micro.level)
flush-lookup-no_context_example = flush-lookup-no_context 0xf0001234 warm refl
