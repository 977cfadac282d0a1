-- ===== src/Mmu/Tlb.antt =====
-- src/sparcv8/MMU.h and MMU.cpp, class TLB: sixteen entries replaced in turn, and a copy of the
-- entry used last.
use sparcv8emulator.Base.{
  ℕ, zero, suc, ◌+◌, ◌-◌, ◌^◌, Bool, ◌&&◌, if◌then◌else◌, ◌==◌, Option, none, some, bit_and, update,
}

-- `TLB::Entry`.
pub record Entry : Type 0 where
  pub vaddr_tag : ℕ
  pub mask : ℕ
  pub pte : ℕ
  pub context : ℕ
  pub level : ℕ

-- `micro` holds the five fields `mc_…`.
pub record Tlb : Type 0 where
  pub entries : ℕ → Entry
  pub next_victim : ℕ
  pub micro : Entry

abbrev pub tlb_entries : ℕ
tlb_entries = 16

abbrev pub empty_entry : Entry
empty_entry = record { vaddr_tag = 0; mask = 0; pte = 0; context = 0; level = 0 }

-- `~0u`, the context of an empty micro-cache.
abbrev pub no_context : ℕ
no_context = 2 ^ 32 - 1

unfoldable pub fresh_tlb : Tlb
fresh_tlb = record {
  entries = λ i. empty_entry;
  next_victim = 0;
  micro = record empty_entry { context = no_context };
}

unfoldable pub is_valid : ℕ → Bool
is_valid pte = bit_and pte 3 == 2

unfoldable pub matches : ℕ → ℕ → Entry → Bool
matches context vaddr e = e.context == context && bit_and vaddr e.mask == e.vaddr_tag

unfoldable pub usable : ℕ → ℕ → Entry → Bool
usable context vaddr e = is_valid e.pte && matches context vaddr e

-- The loop of `lookup` over the `n` entries from `i` on.
unfoldable pub scan : ℕ → ℕ → (ℕ → Entry) → ℕ → ℕ → Option Entry
scan context vaddr entries zero i = none
scan context vaddr entries (suc n) i =
    if usable context vaddr (entries i)
    then some (entries i)
    else scan context vaddr entries n (suc i)

-- The entry found warms the micro-cache.
unfoldable pub warmed : Tlb → Option Entry → Tlb × Option (ℕ × ℕ)
warmed t none = (t, none)
warmed t (some e) = (record t { micro = e }, some (e.pte, e.level))

-- The page table entry and its level, `none` on a miss.
unfoldable pub lookup : ℕ → ℕ → Tlb → Tlb × Option (ℕ × ℕ)
lookup context vaddr t =
    if matches context vaddr t.micro
    then (t, some (t.micro.pte, t.micro.level))
    else warmed t (scan context vaddr t.entries tlb_entries 0)

-- `MMU::get_addr_level_mask`; `none` is the exception on another level.
unfoldable pub get_addr_level_mask : ℕ → Option ℕ
get_addr_level_mask level =
    if level == 3
    then some (2 ^ 32 - 2 ^ 12)
    else if level == 2
    then some (2 ^ 32 - 2 ^ 18)
    else if level == 1
    then some (2 ^ 32 - 2 ^ 24)
    else none

unfoldable pub placed : ℕ → ℕ → ℕ → ℕ → Tlb → Option ℕ → Option Tlb
placed context vaddr level pte t none = none
placed context vaddr level pte t (some mask) =
    let e : Entry = record {
      vaddr_tag = bit_and vaddr mask;
      mask = mask;
      pte = pte;
      context = context;
      level = level;
    } in
    some (record {
      entries = update t.entries t.next_victim e;
      next_victim = bit_and (t.next_victim + 1) (tlb_entries - 1);
      micro = e;
    })

unfoldable pub insert : ℕ → ℕ → ℕ → ℕ → Tlb → Option Tlb
insert context vaddr level pte t =
    if is_valid pte then placed context vaddr level pte t (get_addr_level_mask level) else some t

unfoldable pub dropped : ℕ → ℕ → Entry → Entry
dropped context vaddr e = if usable context vaddr e then record e { pte = 0 } else e

unfoldable pub invalidate_strict : ℕ → ℕ → Tlb → Tlb
invalidate_strict context vaddr t = record t {
  entries = λ i. dropped context vaddr (t.entries i);
  micro = record (t.micro) { context = no_context };
}

unfoldable pub flush : Tlb → Tlb
flush t = record {
  entries = λ i. empty_entry;
  next_victim = 0;
  micro = record (t.micro) { context = no_context };
}
