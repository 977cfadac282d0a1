-- ===== src/Grpci2/Tests.antt =====
-- Tests of the PCI bridge, and its theorem at a concrete input.
use sparcv8emulator.Base.{◌≡◌, refl, some, arith}
use sparcv8emulator.Ac97.Config.{new_device}
use sparcv8emulator.Grpci2.Registers.{new_bridge, attach_device, write_sts_cap, write_to_clear}
use sparcv8emulator.Grpci2.Config.{slot_of, config_register, swapped_bytes, config_write}
use sparcv8emulator.Grpci2.RoundTrip.{
  ReadsConfig, register_word, config_word, config_read-config_write,
}

-- Bits 20 to 12 are cleared by ones, the others stay.
status_cleared : write_sts_cap 0x51180000 0x00100000 ≡ 0x51080000
unfolding write_sts_cap write_to_clear
status_cleared = refl

in_slot_6 : slot_of 0xFFFB3010 ≡ 6
unfolding slot_of
in_slot_6 = refl

attached : (attach_device new_device new_bridge).device ≡ some new_device
unfolding attach_device
attached = refl

config_read-config_write_example :
    ReadsConfig 0xFFFB3010
      (config_word (config_register 0xFFFB3010) 0xFFFFFFFF)
      (config_write 0xFFFB3010 0xFFFFFFFF 32 (attach_device new_device new_bridge))
config_read-config_write_example =
    config_read-config_write 0xFFFB3010 0xFFFFFFFF new_device (attach_device new_device new_bridge)
      (omega arith) in_slot_6 attached

-- The first base address register, asked for its size, reads 0xFFFFFF00 in the order of the bus.
size_of_range : config_word (config_register 0xFFFB3010) 0xFFFFFFFF ≡ 0x00FFFFFF
unfolding config_word register_word swapped_bytes config_register
size_of_range = refl
