-- ===== src/Grpci2/Config.antt =====
-- src/peripherals/GRPCI2.cpp and GRPCI2.hpp: accesses to the configuration space and the I/O space
-- of the bus, and the memory bank `PCIIOCfgArea` for them. No result is an exception, or a device
-- that is missing.
use sparcv8emulator.Base.{
  ℕ, ◌+◌, ◌*◌, ◌^◌, Bool, not, ◌&&◌, ◌||◌, if◌then◌else◌, ltb, leb, ◌==◌, Option, none, some,
  bit_and, bit_or, u32, sub32, ◌>>>◌,
}
use sparcv8emulator.Mctrl.Bytes.{◌>>=◌}
use sparcv8emulator.Ac97.Config.{config_read32, config_write32}
use sparcv8emulator.Grpci2.Registers.{Bridge, signal_pci_cfg_access_complete}

abbrev pub pci_io_base : ℕ
pci_io_base = 0xFFFA0000

abbrev pub pci_conf_base : ℕ
pci_conf_base = 0xFFFB0000

unfoldable pub slot_of : ℕ → ℕ
slot_of paddr = bit_and (sub32 paddr pci_conf_base >>> 8) 0xff >>> 3

unfoldable pub config_register : ℕ → ℕ
config_register paddr = bit_and (sub32 paddr pci_conf_base) 0xfc

-- The bytes in the other order.
unfoldable pub swapped_bytes : ℕ → ℕ
swapped_bytes v =
    bit_or
      (bit_or (bit_or (u32 (v * 2 ^ 24)) (u32 (bit_and v 0x0000FF00 * 2 ^ 8)))
        (bit_and v 0x00FF0000 >>> 8))
      (v >>> 24)

abbrev completed_access : ℕ → Bridge → Option (ℕ × Bridge)
completed_access v b = some (v, signal_pci_cfg_access_complete b)

-- `size` in bits.
unfoldable pub config_read : ℕ → ℕ → Bridge → Option (ℕ × Bridge)
config_read paddr size b =
    if not (slot_of paddr == 6)
    then completed_access 0xffffffff b
    else if size == 8 || size == 16
    then none
    else if size == 32
    then (do
      a ← b.device
      completed_access (swapped_bytes (config_read32 (config_register paddr) a)) b)
    else completed_access 0xffffffff b

unfoldable pub config_write : ℕ → ℕ → ℕ → Bridge → Option Bridge
config_write paddr val size b =
    if not (slot_of paddr == 6)
    then some (signal_pci_cfg_access_complete b)
    else if size == 8 || size == 16
    then none
    else if size == 32
    then (do
      a ← b.device
      some (
          signal_pci_cfg_access_complete (record b {
            device = some (config_write32 (config_register paddr) (swapped_bytes val) a);
          })))
    else some (signal_pci_cfg_access_complete b)

-- The I/O space is not implemented: it reads as ones, and writes are ignored.
unfoldable pub io_read : ℕ → ℕ
io_read size = if size == 8 then 0xFF else if size == 16 then 0xFFFF else 0xFFFFFFFF

-- `PCIIOCfgArea`.
unfoldable pub in_config : ℕ → Bool
in_config addr = leb pci_conf_base addr && ltb addr (pci_conf_base + 0x10000)

unfoldable pub in_io : ℕ → Bool
in_io addr = leb pci_io_base addr && ltb addr (pci_io_base + 0x10000)

unfoldable pub area_read : ℕ → ℕ → Bridge → Option (ℕ × Bridge)
area_read size addr b =
    if in_config addr
    then config_read addr size b
    else if in_io addr
    then some (io_read size, b)
    else none

unfoldable pub area_write : ℕ → ℕ → ℕ → Bridge → Option Bridge
area_write size addr val b =
    if in_config addr then config_write addr val size b else if in_io addr then some b else none

unfoldable pub area_read8 : ℕ → Bridge → Option (ℕ × Bridge)
area_read8 addr b = area_read 8 addr b

-- An unaligned access throws where it is asked to be aligned.
unfoldable pub area_read16 : ℕ → Bool → Bridge → Option (ℕ × Bridge)
area_read16 addr align b = if align && not (bit_and addr 1 == 0) then none else area_read 16 addr b

unfoldable pub area_read32 : ℕ → Bool → Bridge → Option (ℕ × Bridge)
area_read32 addr align b = if align && not (bit_and addr 3 == 0) then none else area_read 32 addr b

unfoldable pub area_write8 : ℕ → ℕ → Bridge → Option Bridge
area_write8 addr val b = area_write 8 addr val b

unfoldable pub area_write16 : ℕ → ℕ → Bool → Bridge → Option Bridge
area_write16 addr val align b =
    if align && not (bit_and addr 1 == 0) then none else area_write 16 addr val b

unfoldable pub area_write32 : ℕ → ℕ → Bool → Bridge → Option Bridge
area_write32 addr val align b =
    if align && not (bit_and addr 3 == 0) then none else area_write 32 addr val b
