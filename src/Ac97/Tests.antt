-- ===== src/Ac97/Tests.antt =====
-- Tests of the sound device, and its theorem at a concrete run.
use sparcv8emulator.Base.{true, false, if◌then◌else◌, ◌==◌, some, none, List, [], ◌∷◌}
use sparcv8emulator.Ac97.State.{GuestMemory}
use sparcv8emulator.Ac97.Config.{new_device}
use sparcv8emulator.Ac97.Playable.{AllPlayable}
use sparcv8emulator.Ac97.Calls.{Call, ticks, reads8, writes, moves, performs}
use sparcv8emulator.Ac97.Order.{new_device-performs-IsPlayable}

-- Descriptors of four samples that ask for an interrupt, at every address.
abbrev guest : GuestMemory
guest = record {
  read32 = λ addr. some 0x40;
  read16 = λ addr. if addr == 0x40000004 then some 0x0400 else some 0x0080;
  has_bank = λ addr. true;
}

-- The list of descriptors, the last index, a start with interrupts, and three ticks.
abbrev playing : List Call
playing =
    moves 0x24000000 0x24000100
    ∷ writes guest 4 0x24000110 0x40000000
    ∷ writes guest 1 0x24000115 0x01
    ∷ writes guest 1 0x2400011B 0x11
    ∷ ticks guest false (some 2)
    ∷ reads8 0x24000116
    ∷ ticks guest false (some 0x30)
    ∷ ticks guest true none
    ∷ []

new_device-performs-IsPlayable_example : AllPlayable (performs playing new_device)
new_device-performs-IsPlayable_example = new_device-performs-IsPlayable playing
