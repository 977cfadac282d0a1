-- ===== src/Mctrl/Control.antt =====
-- src/peripherals/MCTRL.h, `class MCtrl`: the banks of memory, the search for the one at an
-- address, and the accesses. A bank is pointed to by its place in the list.
use sparcv8emulator.Base.{
  ℕ, zero, suc, ◌+◌, ◌-◌, ◌%◌, ◌^◌, Bool, true, false, not, ◌&&◌, ◌||◌, if◌then◌else◌, ltb, leb,
  ◌==◌, Option, none, some, List, [], ◌∷◌, ◌++◌, u32,
}
use sparcv8emulator.Mctrl.Bytes.{Endian}
use sparcv8emulator.Mctrl.Banks
use sparcv8emulator.Mctrl.Banks.{Bank, rom, ram}

pub data BankType : Type 0 where
  rom_bank ram_bank : BankType

-- A bank with its class. The other classes of banks, of the APB bridge and the PCI devices, are
-- left out.
pub record Attached : Type 0 where
  pub bank_type : BankType
  pub bank : Bank

-- The constructors of the two classes.
unfoldable pub new_bank : BankType → ℕ → ℕ → Endian → Attached
new_bank bank_type base size endian = record {
  bank_type = bank_type;
  bank = record { base = u32 base; size = size; endian = endian; writeable = true; bytes = λ i. 0 };
}

pub record Mctrl : Type 0 where
  pub banks : List Attached
  pub generation : ℕ
  pub instance_id : ℕ

-- The cache of a thread, which all controllers use.
pub record Cache : Type 0 where
  pub owner_id : ℕ
  pub gen : ℕ
  pub b : Option ℕ
  pub start : ℕ
  pub size : ℕ

abbrev pub fresh : Cache
fresh = record { owner_id = 0; gen = 0; b = none; start = 0; size = 0 }

unfoldable pub construct : ℕ → Mctrl
construct instance_id = record { banks = []; generation = 1; instance_id = instance_id }

unfoldable pub end_exclusive : Bank → ℕ
end_exclusive b = (b.base + b.size) % 2 ^ 64

unfoldable pub ranges_overlap : Bank → Bank → Bool
ranges_overlap a b = ltb a.base (end_exclusive b) && ltb b.base (end_exclusive a)

unfoldable pub overlaps_any : Bank → List Attached → Bool
overlaps_any a [] = false
overlaps_any a (x ∷ xs) = ranges_overlap a x.bank || overlaps_any a xs

-- `attach_bank`; `none` is the exception on a bank that overlaps another one.
unfoldable pub attach_bank : Attached → Mctrl → Option Mctrl
attach_bank a m =
    if overlaps_any a.bank m.banks
    then none
    else some (record m { banks = m.banks ++ (a ∷ []); generation = m.generation + 1 })

unfoldable pub clear_banks : Mctrl → Mctrl
clear_banks m = record m { banks = []; generation = m.generation + 1 }

abbrev pub next_place : Option (ℕ × Attached) → Option (ℕ × Attached)
next_place none = none
next_place (some (i, x)) = some (suc i, x)

-- The first bank that contains an address, with its place.
unfoldable pub search : ℕ → List Attached → Option (ℕ × Attached)
search addr [] = none
search addr (x ∷ xs) =
    if Banks.contains addr x.bank then some (0, x) else next_place (search addr xs)

-- Another controller's cache, or one from before a change of the banks, is emptied.
unfoldable pub validated : Mctrl → Cache → Cache
validated m c =
    if not (c.owner_id == m.instance_id) || not (c.gen == m.generation)
    then record { owner_id = m.instance_id; gen = m.generation; b = none; start = 0; size = 0 }
    else c

abbrev pub is_some : Option ℕ → Bool
is_some none = false
is_some (some i) = true

unfoldable pub cache_hit : ℕ → Cache → Bool
cache_hit addr c = is_some c.b && leb c.start addr && ltb (addr - c.start) c.size

unfoldable pub remember : Option (ℕ × Attached) → Cache → Option ℕ × Cache
remember none c = (none, record c { b = none; start = 0; size = 0 })
remember (some (i, x)) c =
    (some i, record c { b = some i; start = x.bank.base; size = u32 x.bank.size })

unfoldable pub find_bank_or_null : ℕ → Mctrl → Cache → Option ℕ × Cache
find_bank_or_null addr m c =
    let c' = validated m c in
    if cache_hit addr c' then (c'.b, c') else remember (search addr m.banks) c'

unfoldable pub place : ℕ → List Attached → Option Attached
place i [] = none
place zero (x ∷ xs) = some x
place (suc i) (x ∷ xs) = place i xs

unfoldable pub put_place : ℕ → Attached → List Attached → List Attached
put_place i y [] = []
put_place zero y (x ∷ xs) = y ∷ xs
put_place (suc i) y (x ∷ xs) = x ∷ put_place i y xs
