-- ===== src/Mmu/Walk.antt =====
-- src/sparcv8/MMU.cpp, `get_PTE`: the walk over the page tables. Memory is a function that gives
-- the word at a physical address, or `none` where the memory bus has an error.
use sparcv8emulator.Base.{
  ℕ, ◌+◌, ◌*◌, ◌^◌, if◌then◌else◌, ◌==◌, Option, none, some, bit_and, u32, not32, ◌>>>◌,
}

abbrev pub Memory : Type 0
Memory = ℕ → Option ℕ

unfoldable pub word_or_zero : Option ℕ → ℕ
word_or_zero none = 0
word_or_zero (some w) = w

-- `MemAccessBypassRead4`.
unfoldable pub bypass_read : Memory → ℕ → ℕ
bypass_read memory pa = word_or_zero (memory pa)

unfoldable pub ind1 : ℕ → ℕ
ind1 vaddr = bit_and (vaddr >>> 24) 0xff

unfoldable pub ind2 : ℕ → ℕ
ind2 vaddr = bit_and (vaddr >>> 18) 0x3f

unfoldable pub ind3 : ℕ → ℕ
ind3 vaddr = bit_and (vaddr >>> 12) 0x3f

unfoldable pub entry_type : ℕ → ℕ
entry_type lx = bit_and lx 3

-- The entry `ind` of the table that the descriptor `lx` points to.
unfoldable pub next_entry : Memory → ℕ → ℕ → ℕ
next_entry memory lx ind =
    bypass_read memory (u32 (u32 (bit_and lx (not32 3) >>> 2 * 2 ^ 6) + ind * 4))

unfoldable pub root_entry : Memory → ℕ → ℕ → ℕ
root_entry memory ctx_tbl_ptr ctx_n =
    bypass_read memory (u32 (u32 (ctx_tbl_ptr * 2 ^ 4) + u32 (ctx_n * 4)))

-- The entry where the walk ends, and its level; `level` stays when no table is entered.
unfoldable pub get_pte : Memory → ℕ → ℕ → ℕ → ℕ → ℕ × ℕ
get_pte memory ctx_tbl_ptr ctx_n vaddr level =
    let l0 = root_entry memory ctx_tbl_ptr ctx_n in
    let l1 = next_entry memory l0 (ind1 vaddr) in
    let l2 = next_entry memory l1 (ind2 vaddr) in
    let l3 = next_entry memory l2 (ind3 vaddr) in
    if entry_type l0 == 1
    then if entry_type l1 == 1 then if entry_type l2 == 1 then (l3, 3) else (l2, 2) else (l1, 1)
    else (l0, level)
