-- ===== src/Grpci2/Registers.antt =====
-- src/peripherals/GRPCI2.cpp: the registers of the bridge. The clock that ticks the device is left
-- out.
use sparcv8emulator.Base.{
  ℕ, ◌-◌, ◌*◌, ◌/◌, ◌^◌, Bool, false, ◌&&◌, if◌then◌else◌, leb, ◌==◌, Option, none, some, update,
  bit_and, bit_or, testbit, not32,
}
use sparcv8emulator.Ac97.State.{Ac97}
use sparcv8emulator.Ac97.Playback.{inta_asserted}

pub record Bridge : Type 0 where
  pub ctrl : ℕ
  pub sts_cap : ℕ
  pub dma_ctrl : ℕ
  pub dma_base : ℕ
  pub io_map : ℕ
  pub ahbm2pci : ℕ → ℕ
  pub device : Option Ac97

-- The constructor: `MST`, `IRQ_MODE` and `DMA_ENABLE`.
unfoldable pub new_bridge : Bridge
new_bridge = record {
  ctrl = 0;
  sts_cap = bit_or (bit_or (2 ^ 30) (2 ^ 24)) (2 ^ 28);
  dma_ctrl = 2 ^ 31;
  dma_base = 0;
  io_map = 0;
  ahbm2pci = λ i. 0;
  device = none;
}

unfoldable pub attach_device : Ac97 → Bridge → Bridge
attach_device a b = record b { device = some a }

unfoldable pub inta : Option Ac97 → Bool
inta none = false
inta (some a) = inta_asserted a

-- The bits 11 to 8 show the interrupt lines, low where they are asserted.
unfoldable pub int_bits : Bool → ℕ
int_bits asserted = if asserted then bit_and 0xF00 (not32 (2 ^ 8)) else 0xF00

unfoldable pub read_bridge : ℕ → Bridge → ℕ
read_bridge offset b =
    if offset == 0x0
    then b.ctrl
    else if offset == 0x4
    then bit_or (bit_and b.sts_cap (not32 0xF00)) (int_bits (inta b.device))
    else if offset == 0xC
    then b.io_map
    else if offset == 0x10
    then b.dma_ctrl
    else if offset == 0x14
    then b.dma_base
    else if leb 0x40 offset && leb offset 0x7c
    then b.ahbm2pci ((offset - 0x40) / 4)
    else 0

-- `mask`: the bits written as ones are cleared.
unfoldable pub write_to_clear : ℕ → ℕ → ℕ → ℕ
write_to_clear mask old val = bit_and (bit_and old mask) (not32 (bit_and val mask))

abbrev pub sts_cap_wc : ℕ
sts_cap_wc = 0x1FF * 2 ^ 12

abbrev pub sts_cap_r : ℕ
sts_cap_r = bit_or (0x7FF * 2 ^ 21) 0xFFF

unfoldable pub write_sts_cap : ℕ → ℕ → ℕ
write_sts_cap old val = bit_or (bit_and old sts_cap_r) (write_to_clear sts_cap_wc old val)

abbrev pub dma_rw : ℕ
dma_rw = bit_or (bit_or (2 ^ 31) (7 * 2 ^ 4)) 7

abbrev pub dma_r : ℕ
dma_r = bit_or (0x7FF * 2 ^ 20) (2 ^ 3)

abbrev pub dma_wc : ℕ
dma_wc = 0x1FFF * 2 ^ 7

-- Without bit 31, the bits 1 and 6 to 4 of the value are taken as zeros.
unfoldable pub guarded : ℕ → ℕ
guarded val = if testbit val 31 then val else bit_and val (not32 (bit_or 2 (7 * 2 ^ 4)))

unfoldable pub write_dma_ctrl : ℕ → ℕ → ℕ
write_dma_ctrl old val =
    bit_or (bit_or (bit_and old dma_r) (bit_and (guarded val) dma_rw))
      (write_to_clear dma_wc old (guarded val))

-- Bits 28 and 15 to 12 are reserved; bits 30 and 29 clear themselves. The resets do nothing.
unfoldable pub written_ctrl : ℕ → ℕ
written_ctrl value =
    let tmp = bit_and value (not32 (bit_or (2 ^ 28) (0xf * 2 ^ 12))) in
    let tmp' = if testbit tmp 30 then bit_and tmp (not32 (2 ^ 30)) else tmp in
    if testbit tmp' 29 then bit_and tmp' (not32 (2 ^ 29)) else tmp'

unfoldable pub write_bridge : ℕ → ℕ → Bridge → Bridge
write_bridge offset value b =
    if offset == 0x0
    then record b { ctrl = written_ctrl value }
    else if offset == 0x4
    then record b { sts_cap = write_sts_cap b.sts_cap value }
    else if offset == 0xC
    then record b { io_map = bit_and value 0xffff0000 }
    else if offset == 0x10
    then record b { dma_ctrl = write_dma_ctrl b.dma_ctrl value }
    else if offset == 0x14
    then record b { dma_base = value }
    else if leb 0x40 offset && leb offset 0x7c
    then record b { ahbm2pci = update b.ahbm2pci ((offset - 0x40) / 4) value }
    else b

-- Bit 19 is cleared, bit 20 set.
unfoldable pub signal_pci_cfg_access_complete : Bridge → Bridge
signal_pci_cfg_access_complete b = record b {
  sts_cap = bit_or (bit_and b.sts_cap (not32 (2 ^ 19))) (2 ^ 20);
}
