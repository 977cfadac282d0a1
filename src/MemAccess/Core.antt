-- ===== src/MemAccess/Core.antt =====
-- src/sparcv8/MMU.h, `class MMU`: the registers, the caches of host pages, reset and flush.
use sparcv8emulator.Base.{
  ℕ, ◌^◌, ◌-◌, Bool, false, if◌then◌else◌, ◌==◌, Option, none, some, bit_and, testbit,
}
use sparcv8emulator.Mctrl.Bytes.{◌>>=◌}
use sparcv8emulator.Mctrl.Control.{Attached, Mctrl, search}
use sparcv8emulator.Mctrl.Access.{bank_read32, bank_write32, store_back}
use sparcv8emulator.Mmu.Tlb.{fresh_tlb, flush}
use sparcv8emulator.Mmu.Walk.{Memory}
use sparcv8emulator.Mmu.Translate.{Mmu, flush_tlbs}

-- A host pointer into the array of a bank: the place of the bank, and the physical address of the
-- first byte of the page.
pub record PagePointer : Type 0 where
  pub bank : ℕ
  pub page : ℕ

-- `FetchCache`, and an entry of `DataCache` and of `StoreCache`.
pub record PageCache : Type 0 where
  pub vpage : ℕ
  pub ctx : ℕ
  pub super : Bool
  pub page_data : Option PagePointer

-- `~0u`.
abbrev pub no_page : ℕ
no_page = 2 ^ 32 - 1

abbrev pub fresh_page : PageCache
fresh_page = record { vpage = no_page; ctx = no_page; super = false; page_data = none }

-- `class MMU`. `core` holds the registers and the TLBs that a translation uses.
pub record Srmmu : Type 0 where
  pub control_reg : ℕ
  pub ccr : ℕ
  pub iccr : ℕ
  pub dccr : ℕ
  pub last_ctx_n : ℕ
  pub core : Mmu
  pub fetch_cache : PageCache
  pub data_cache : ℕ → PageCache
  pub store_cache : ℕ → PageCache
  pub mctrl : Mctrl

unfoldable pub get_enabled : Srmmu → Bool
get_enabled u = testbit u.control_reg 0

unfoldable pub get_no_fault : Srmmu → Bool
get_no_fault u = testbit u.control_reg 1

abbrev pub forget_page : PageCache → PageCache
forget_page c = record c { vpage = no_page }

unfoldable pub forget_pages : Srmmu → Srmmu
forget_pages u = record u {
  fetch_cache = forget_page u.fetch_cache;
  data_cache = λ way. forget_page (u.data_cache way);
  store_cache = λ way. forget_page (u.store_cache way);
}

unfoldable pub set_control_reg : ℕ → Srmmu → Srmmu
set_control_reg value u =
    let u' = if bit_and value 1 == bit_and u.control_reg 1 then u else forget_pages u in
    record u' { control_reg = value }

unfoldable pub set_ctx_tbl_ptr : ℕ → Srmmu → Srmmu
set_ctx_tbl_ptr value u =
    let core = u.core in record u { core = record core { ctx_tbl_ptr = value } }

unfoldable pub set_ctx_number : ℕ → Srmmu → Srmmu
set_ctx_number value u = let core = u.core in record u { core = record core { ctx_n = value } }

unfoldable pub clear_fault_status : Srmmu → Srmmu
clear_fault_status u =
    let core = u.core in
    let faults = core.faults in
    record u { core = record core { faults = record faults { fault_status_reg = 0 } } }

-- `reset`. It leaves the memory.
unfoldable pub reset_unit : Srmmu → Srmmu
reset_unit u = record {
  control_reg = 0;
  ccr = 0;
  iccr = 0;
  dccr = 0;
  last_ctx_n = 0;
  core = record {
    ctx_tbl_ptr = 0;
    ctx_n = 0;
    faults = record { fault_status_reg = 0; fault_address_reg = 0 };
    itlb = flush u.core.itlb;
    dtlb = flush u.core.dtlb;
  };
  fetch_cache = fresh_page;
  data_cache = λ way. fresh_page;
  store_cache = λ way. fresh_page;
  mctrl = u.mctrl;
}

-- The constructor: fresh TLBs, and `reset`.
unfoldable pub new_unit : Mctrl → Srmmu
new_unit mctrl = reset_unit (record {
  control_reg = 0;
  ccr = 0;
  iccr = 0;
  dccr = 0;
  last_ctx_n = 0;
  core = record {
    ctx_tbl_ptr = 0;
    ctx_n = 0;
    faults = record { fault_status_reg = 0; fault_address_reg = 0 };
    itlb = fresh_tlb;
    dtlb = fresh_tlb;
  };
  fetch_cache = fresh_page;
  data_cache = λ way. fresh_page;
  store_cache = λ way. fresh_page;
  mctrl = mctrl;
})

-- `MMU::flush`.
unfoldable pub flush_unit : Srmmu → Srmmu
flush_unit u = let u' = forget_pages u in record u' { core = flush_tlbs u.core }

-- `MCtrl::get_bank`, by the search alone: the thread's cache of the last bank gives the same bank
-- and is left out of this state.
abbrev pub get_bank : ℕ → Mctrl → Option (ℕ × Attached)
get_bank paddr m = search paddr m.banks

abbrev pub word_at : ℕ → Option (ℕ × Attached) → Option ℕ
word_at pa none = none
word_at pa (some (i, a)) = bank_read32 pa a

-- The words that a walk over the page tables reads.
unfoldable pub physical : Mctrl → Memory
physical m pa = word_at pa (get_bank pa m)

abbrev bypassed : ℕ → ℕ → Mctrl → Option (ℕ × Attached) → Option Mctrl
bypassed pa value m none = some m
bypassed pa value m (some (i, a)) = store_back (some i) m (bank_write32 pa value a)

-- `MemAccessBypassWrite4`: nothing happens where there is no bank, and `none` ends the program.
unfoldable pub bypass_write : ℕ → ℕ → Srmmu → Option Srmmu
bypass_write pa value u = do
  m ← bypassed pa value u.mctrl (get_bank pa u.mctrl)
  some (record u { mctrl = m })
