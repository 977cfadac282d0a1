-- ===== src/MemAccess/Pointers.antt =====
-- src/sparcv8/MMU.h, `MemAccess`: bytes through a pointer to a host page, in big-endian order.
use sparcv8emulator.Base.{
  ℕ, ◌+◌, ◌-◌, Bool, not, ◌&&◌, if◌then◌else◌, ltb, ◌==◌, Option, none, some, bit_and, not32, ◌>>>◌,
}
use sparcv8emulator.Mctrl.Bytes.{◌>>=◌, word_of, half_of, byte_at}
use sparcv8emulator.Mctrl.Banks.{Bank, at_offset, put_offset}
use sparcv8emulator.Mctrl.Control.{Attached, Mctrl, place, put_place}
use sparcv8emulator.MemAccess.Core.{PagePointer, PageCache}

-- The page's pointer plus the low bits of the address, as an offset in the bank's array.
unfoldable pub pointed : PagePointer → ℕ → Attached → Option ℕ
pointed p vaddr a =
    let host = p.page + bit_and vaddr 0xfff in
    if ltb host a.bank.base then none else some (host - a.bank.base)

-- `p[k]`; `none` is an access outside the array.
abbrev pub byte_in : ℕ → ℕ → Bank → Option ℕ
byte_in off k b = at_offset (off + k) b

-- The value from `size` bytes at `p`; for another size, `value` stays.
unfoldable pub pointer_read : ℕ → ℕ → ℕ → Bank → Option ℕ
pointer_read size value off b =
    if size == 1
    then byte_in off 0 b
    else if size == 2
    then (do hi ← byte_in off 0 b; lo ← byte_in off 1 b; some (half_of hi lo))
    else if size == 4
    then (do
      b0 ← byte_in off 0 b
      b1 ← byte_in off 1 b
      b2 ← byte_in off 2 b
      b3 ← byte_in off 3 b
      some (word_of b0 b1 b2 b3))
    else some value

unfoldable pub pointer_write : ℕ → ℕ → ℕ → Bank → Option Bank
pointer_write size value off b =
    if size == 1
    then put_offset off value b
    else if size == 2
    then (do b1 ← put_offset off (byte_at 8 value) b; put_offset (off + 1) (byte_at 0 value) b1)
    else if size == 4
    then (do
      b1 ← put_offset off (byte_at 24 value) b
      b2 ← put_offset (off + 1) (byte_at 16 value) b1
      b3 ← put_offset (off + 2) (byte_at 8 value) b2
      put_offset (off + 3) (byte_at 0 value) b3)
    else some b

-- A read and a write of the page that a cache points to; no pointer is a null pointer.
unfoldable pub page_read : ℕ → ℕ → ℕ → Option PagePointer → Mctrl → Option ℕ
page_read size vaddr value none m = none
page_read size vaddr value (some p) m = do
  a ← place p.bank m.banks
  off ← pointed p vaddr a
  pointer_read size value off a.bank

unfoldable pub page_write : ℕ → ℕ → ℕ → Option PagePointer → Mctrl → Option Mctrl
page_write size vaddr value none m = none
page_write size vaddr value (some p) m = do
  a ← place p.bank m.banks
  off ← pointed p vaddr a
  b ← pointer_write size value off a.bank
  some (record m { banks = put_place p.bank (record a { bank = b }) m.banks })

-- Whether an entry holds the page of an address, for a context and a mode.
unfoldable pub page_hit : ℕ → ℕ → Bool → PageCache → Bool
page_hit vpage ctx supervisor c =
    c.vpage == vpage && (if supervisor then c.super else not c.super) && c.ctx == ctx

-- The entry filled after a translation to `paddr`.
unfoldable pub filled : ℕ → ℕ → ℕ → Bool → ℕ → PageCache
filled vaddr paddr ctx supervisor i = record {
  vpage = vaddr >>> 12;
  ctx = ctx;
  super = supervisor;
  page_data = some (record { bank = i; page = bit_and paddr (not32 0xfff) });
}

-- `vpage & (DC_WAYS - 1)`.
unfoldable pub way : ℕ → ℕ
way vpage = bit_and vpage 15
