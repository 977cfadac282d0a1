-- ===== src/MemAccess/Access.antt =====
-- src/sparcv8/MMU.h, `MMU::MemAccess`: an instruction fetch, a load or a store of one, two or four
-- bytes at a virtual address. The locks of the host are left out.
use sparcv8emulator.Base.{
  ℕ, ◌%◌, ◌^◌, Bool, true, false, ◌||◌, if◌then◌else◌, ◌==◌, Option, none, some, bit_and, update,
  u8, ◌>>>◌,
}
use sparcv8emulator.Cpu.Loads.{Port}
use sparcv8emulator.Mctrl.Control.{Attached, Mctrl}
use sparcv8emulator.Mctrl.Access.{
  bank_read8, bank_read16, bank_read32, bank_write8, bank_write16, bank_write32, store_back,
}
use sparcv8emulator.Mmu.Perms.{Intent, load, store, execute, get_access_type, make_fsr}
use sparcv8emulator.Mmu.Translate.{Mmu, Translation, translate_va}
use sparcv8emulator.MemAccess.Core.{PageCache, Srmmu, get_enabled, get_no_fault, get_bank, physical}
use sparcv8emulator.MemAccess.Pointers.{page_read, page_write, page_hit, filled, way}

-- The call returns `-fault`, and leaves `value` in its variable.
pub record Accessed : Type 0 where
  pub fault : ℕ
  pub value : ℕ

abbrev Returned : Type 0
Returned = Option (Accessed × Srmmu)

unfoldable pub succeeded : Srmmu → Option ℕ → Returned
succeeded u none = none
succeeded u (some v) = some (record { fault = 0; value = v }, u)

unfoldable pub written : ℕ → Srmmu → Option Mctrl → Returned
written value u none = none
written value u (some m) = some (record { fault = 0; value = value }, record u { mctrl = m })

-- The lambda `bus_fault`.
unfoldable pub bus_fault : Intent → ℕ → ℕ → Bool → Bool → Srmmu → Accessed × Srmmu
bus_fault rw vaddr value supervisor report u =
    let core = u.core in
    (
      record { fault = 5; value = value },
      (if report
          then record u {
            core = record core {
              faults = record {
                fault_status_reg = make_fsr 0 (get_access_type rw supervisor) 5 true;
                fault_address_reg = vaddr;
              };
            };
          }
          else u),
    )

unfoldable pub cache_of : Intent → ℕ → Srmmu → PageCache
cache_of load vpage u = u.data_cache (way vpage)
cache_of store vpage u = u.store_cache (way vpage)
cache_of execute vpage u = u.fetch_cache

unfoldable pub fill_cache : Intent → ℕ → PageCache → Srmmu → Srmmu
fill_cache load vpage c u = record u { data_cache = update u.data_cache (way vpage) c }
fill_cache store vpage c u = record u { store_cache = update u.store_cache (way vpage) c }
fill_cache execute vpage c u = record u { fetch_cache = c }

-- A fetch through a pointer is of four bytes.
unfoldable pub through_pointer : Intent → ℕ → ℕ → ℕ → Srmmu → Returned
through_pointer load size vaddr value u =
    succeeded u (page_read size vaddr value (cache_of load (vaddr >>> 12) u).page_data u.mctrl)
through_pointer execute size vaddr value u =
    succeeded u (page_read 4 vaddr value (cache_of execute (vaddr >>> 12) u).page_data u.mctrl)
through_pointer store size vaddr value u =
    written value u
      (page_write size vaddr value (cache_of store (vaddr >>> 12) u).page_data u.mctrl)

-- The virtual functions of a bank; another size throws.
unfoldable pub virtual_read : ℕ → ℕ → Attached → Option ℕ
virtual_read size pa a =
    if size == 1
    then bank_read8 pa a
    else if size == 2
    then bank_read16 pa a
    else if size == 4
    then bank_read32 pa a
    else none

unfoldable pub virtual_write : ℕ → ℕ → ℕ → Attached → Option Attached
virtual_write size pa value a =
    if size == 1
    then bank_write8 pa (u8 value) a
    else if size == 2
    then bank_write16 pa (value % 2 ^ 16) a
    else if size == 4
    then bank_write32 pa value a
    else none

unfoldable pub without_pointer : Intent → ℕ → ℕ → ℕ → ℕ → Attached → Srmmu → Returned
without_pointer load size pa value i a u = succeeded u (virtual_read size pa a)
without_pointer execute size pa value i a u = succeeded u (virtual_read size pa a)
without_pointer store size pa value i a u =
    written value u (store_back (some i) u.mctrl (virtual_write size pa value a))

-- A store of another size throws after a miss.
unfoldable pub known_size : Intent → ℕ → Returned → Returned
known_size load size o = o
known_size execute size o = o
known_size store size o = if size == 1 || size == 2 || size == 4 then o else none

-- The access at a physical address. Every bank of the model is an array of the host, so that
-- `get_ptr` is no null pointer.
unfoldable pub at_bank :
    Intent → ℕ → ℕ → ℕ → Bool → Bool → ℕ → Option (ℕ × Attached) → Srmmu → Returned
at_bank rw size vaddr value supervisor report pa none u =
    some (bus_fault rw vaddr value supervisor report u)
at_bank rw size vaddr value supervisor report pa (some (i, a)) u =
    if get_enabled u
    then known_size rw size (
        through_pointer rw size vaddr value
          (fill_cache rw (vaddr >>> 12) (filled vaddr pa u.core.ctx_n supervisor i) u))
    else without_pointer rw size pa value i a u

-- The fault type that a refused translation returns.
abbrev pub refusal : Bool → Mmu → ℕ
refusal report core = if report then bit_and (core.faults.fault_status_reg >>> 2) 7 else 1

unfoldable pub after_translation :
    Intent → ℕ → ℕ → ℕ → Bool → Bool → Option (Mmu × Translation) → Srmmu → Returned
after_translation rw size vaddr value supervisor report none u = none
after_translation rw size vaddr value supervisor report (some (core, r)) u =
    let u' = record u { core = core } in
    if r.ok
    then at_bank rw size vaddr value supervisor report r.pa (get_bank r.pa u.mctrl) u'
    else some (record { fault = refusal report core; value = value }, u')

-- An access that no cached page serves.
unfoldable pub missed : Intent → ℕ → ℕ → ℕ → Bool → Bool → Srmmu → Returned
missed rw size vaddr value supervisor report u =
    after_translation rw size vaddr value supervisor report
      (translate_va (physical u.mctrl) vaddr supervisor rw report u.core) u

-- `MemAccess<rw, size>(vaddr, value, reverse, supervisor, report)`. `none` is an exception or an
-- access outside an array.
unfoldable pub mem_access : Intent → ℕ → ℕ → ℕ → Bool → Bool → Srmmu → Returned
mem_access rw size vaddr value supervisor report u =
    if get_enabled u
    then if page_hit (vaddr >>> 12) u.core.ctx_n supervisor (cache_of rw (vaddr >>> 12) u)
      then through_pointer rw size vaddr value u
      else missed rw size vaddr value supervisor report u
    else at_bank rw size vaddr value supervisor report vaddr (get_bank vaddr u.mctrl) u

-- What the processor's loads and stores see of the unit; no unit is a program that has ended.
unfoldable pub seen : Returned → Option ℕ × Option Srmmu
seen none = (none, none)
seen (some (r, u)) = ((if r.fault == 0 then some r.value else none), some u)

unfoldable pub port_load : ℕ → ℕ → Bool → Option Srmmu → Option ℕ × Option Srmmu
port_load size va supervisor none = (none, none)
port_load size va supervisor (some u) = seen (mem_access load size va 0 supervisor true u)

abbrev is_done : Option ℕ → Bool
is_done none = false
is_done (some v) = true

unfoldable pub port_store : ℕ → ℕ → ℕ → Bool → Option Srmmu → Bool × Option Srmmu
port_store size va value supervisor none = (false, none)
port_store size va value supervisor (some u) =
    let (v, u') = seen (mem_access store size va value supervisor true u) in (is_done v, u')

unfoldable pub port_no_fault : Option Srmmu → Bool
port_no_fault none = true
port_no_fault (some u) = get_no_fault u

-- The unit as the memory of `Cpu.Loads`.
unfoldable pub unit_port : Port (Option Srmmu)
unit_port = record { load = port_load; store = port_store; no_fault = port_no_fault }
