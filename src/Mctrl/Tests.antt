-- ===== src/Mctrl/Tests.antt =====
-- Tests of the memory controller, and its theorems at concrete inputs.
use sparcv8emulator.Base.{◌+◌, ◌<◌, ◌≡◌, refl, true, some, List, [], ◌∷◌, sub32, arith}
use sparcv8emulator.Mctrl.Bytes.{big, word_of}
use sparcv8emulator.Mctrl.Generic
use sparcv8emulator.Mctrl.Banks.{
  Bank, contains, ram, read32_be, ram_read16, ram_read32, ram_write16, ram_write32,
}
use sparcv8emulator.Mctrl.Control.{
  rom_bank, ram_bank, Mctrl, construct, new_bank, end_exclusive, ranges_overlap, overlaps_any,
  attach_bank, search, place, find_bank_or_null,
}
use sparcv8emulator.Mctrl.Access.{write32}
use sparcv8emulator.Mctrl.Override.{ram-generic}
use sparcv8emulator.Mctrl.RoundTrip.{Stored, read32-write32}
use sparcv8emulator.Mctrl.Lookup.{place_of}
use sparcv8emulator.Mctrl.Threads.{
  Event, attaches, finds, start, attached, step, steps, find_bank_or_null-uncached, steps-Agrees,
}
use sparcv8emulator.Mctrl.Memory.{ReadsBack, write32-ReadsBack}

-- Sixteen bytes of RAM at 0x40000000.
abbrev small_ram : Bank
small_ram = record { base = 0x40000000; size = 16; endian = big; writeable = true; bytes = λ i. i }

second_word : ram_read32 0x40000004 small_ram ≡ some 0x04050607
unfolding ram_read32 read32_be word_of
second_word = refl

ram-generic_example :
    (ram_read16 0x40000004 small_ram ≡ Generic.read16 (ram big) 0x40000004 small_ram)
    × (ram_read32 0x40000004 small_ram ≡ Generic.read32 (ram big) 0x40000004 small_ram)
    × (ram_write16 0x40000004 7 small_ram ≡ Generic.write16 (ram big) 0x40000004 7 small_ram)
    × (ram_write32 0x40000004 7 small_ram ≡ Generic.write32 (ram big) 0x40000004 7 small_ram)
ram-generic_example = ram-generic 0x40000004 small_ram (omega arith) (omega arith) (omega arith) 7

read32-write32_example :
    Stored ram_read32 0x40000004 4 0xdeadbeef small_ram
      (ram_write32 0x40000004 0xdeadbeef small_ram)
read32-write32_example = read32-write32 0x40000004 0xdeadbeef small_ram (omega arith) (omega arith)

-- Two controllers with RAM at one address; the search in the second comes between two in the first.
abbrev use_both : List Event
use_both =
    attaches 0 rom_bank 0 0x1000 big
    ∷ attaches 0 ram_bank 0x40000000 0x1000 big
    ∷ attaches 1 ram_bank 0x40000000 0x2000 big
    ∷ finds 0 0x40000010
    ∷ finds 1 0x40001010
    ∷ []

find_bank_or_null-uncached_example :
    (find_bank_or_null 0x40000ffc
      ((steps use_both start).controllers 0)
      (steps use_both start).cache).0
    ≡ place_of (search 0x40000ffc ((steps use_both start).controllers 0).banks)
find_bank_or_null-uncached_example =
    find_bank_or_null-uncached use_both 0 0x40000ffc (omega arith, (omega arith, (omega arith, tt)))
      (omega arith)

abbrev boot : List Event
boot = attaches 0 rom_bank 0 0x1000 big ∷ attaches 0 ram_bank 0x40000000 0x1000 big ∷ []

ram_attached :
    place 1 ((steps boot start).controllers 0).banks
    ≡ some (new_bank ram_bank 0x40000000 0x1000 big)
unfolding steps step attached attach_bank overlaps_any ranges_overlap end_exclusive new_bank
    construct start place
ram_attached = refl

abbrev booted : Mctrl
booted = (steps boot start).controllers 0

kind : (new_bank ram_bank 0x40000000 0x1000 big).bank_type ≡ ram_bank
unfolding new_bank
kind = refl

in_bank : contains 0x40000ffc (new_bank ram_bank 0x40000000 0x1000 big).bank ≡ true
unfolding new_bank contains
in_bank = refl

inside :
    sub32 0x40000ffc (new_bank ram_bank 0x40000000 0x1000 big).bank.base + 3
    < (new_bank ram_bank 0x40000000 0x1000 big).bank.size
unfolding new_bank
inside = omega arith

write32-ReadsBack_example :
    ReadsBack 0x40000ffc 0x12345678 (write32 0x40000ffc 0x12345678 booted (steps boot start).cache)
write32-ReadsBack_example =
    write32-ReadsBack 0x40000ffc 0x12345678 1 (new_bank ram_bank 0x40000000 0x1000 big) booted
      (steps boot start).cache (omega arith) (omega arith)
      (steps-Agrees boot 0 (omega arith, (omega arith, tt))) ram_attached kind in_bank inside
