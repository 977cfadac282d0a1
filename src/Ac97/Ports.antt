-- ===== src/Ac97/Ports.antt =====
-- src/peripherals/ac97.cpp: reads of the bus master's registers, and the ports, at which the
-- registers of the codec and of the bus master stand.
use sparcv8emulator.Base.{
  ℕ, ◌+◌, ◌-◌, ◌*◌, ◌%◌, ◌^◌, Bool, not, ◌&&◌, ◌||◌, if◌then◌else◌, ltb, leb, ◌==◌, Option, none,
  some, bit_and, bit_or, testbit, u32, not32, ◌>>>◌,
}
use sparcv8emulator.Ac97.State.{Ac97, GuestMemory}
use sparcv8emulator.Ac97.Codec.{read_nam, write_nam}
use sparcv8emulator.Ac97.Control.{write_nabm}

-- Bit 15 is cleared by the read.
unfoldable pub read_glob_sta : Ac97 → ℕ × Ac97
read_glob_sta a = (
  bit_and a.glob_sta 0x81E7,
  record a {
    glob_sta = if testbit a.glob_sta 15 then bit_and a.glob_sta (not32 0x8000) else a.glob_sta;
  },
)

-- A byte of one of the status registers.
unfoldable pub status_byte : ℕ → ℕ → ℕ
status_byte offset s = bit_and (s >>> (bit_and offset 1 * 8)) 0xFF

unfoldable pub other_status_byte : ℕ → ℕ → ℕ
other_status_byte offset s = if testbit offset 0 then 0 else bit_and s 0x1F

unfoldable pub read_nabm8 : ℕ → Ac97 → Option ℕ
read_nabm8 offset a =
    if offset == 0x16 || offset == 0x17
    then some (status_byte offset a.po.status)
    else if offset == 0x06 || offset == 0x07
    then some (other_status_byte offset a.pi_status)
    else if offset == 0x26 || offset == 0x27
    then some (other_status_byte offset a.mc_status)
    else if offset == 0x0B
    then some a.pi_control
    else if offset == 0x1B
    then some (bit_and a.po.control 0x1D)
    else if offset == 0x2B
    then some a.mc_control
    else if offset == 0x04
    then some a.pi_civ
    else if offset == 0x14
    then some a.po.civ
    else if offset == 0x24
    then some a.mc_civ
    else if offset == 0x05
    then some a.pi_lvi
    else if offset == 0x15
    then some a.po.lvi
    else if offset == 0x25
    then some a.mc_lvi
    else if offset == 0x34
    then some 0
    else none

unfoldable pub read_nabm16 : ℕ → Ac97 → Option ℕ
read_nabm16 offset a =
    if offset == 0x16
    then some a.po.status
    else if offset == 0x06
    then some a.pi_status
    else if offset == 0x26
    then some a.mc_status
    else if offset == 0x18
    then some (a.po.picb * 2)
    else if offset == 0x08 || offset == 0x28
    then some 0
    else none

unfoldable pub read_nabm32 : ℕ → Ac97 → Option (ℕ × Ac97)
read_nabm32 offset a =
    if offset == 0x10
    then some (a.bdbar_playback, a)
    else if offset == 0x00
    then some (a.bdbar_capture, a)
    else if offset == 0x20
    then some (0, a)
    else if offset == 0x2C
    then some (a.glob_cnt, a)
    else if offset == 0x30
    then some (read_glob_sta a)
    else none

abbrev pub unchanged : Ac97 → Option ℕ → Option (ℕ × Ac97)
unchanged a none = none
unchanged a (some v) = some (v, a)

unfoldable pub read_nabm : ℕ → ℕ → Ac97 → Option (ℕ × Ac97)
read_nabm offset width a =
    if width == 1
    then unchanged a (read_nabm8 offset a)
    else if width == 2
    then unchanged a (read_nabm16 offset a)
    else read_nabm32 offset a

-- The addresses of the two apertures: those of the host system come before the ones of the BARs.
unfoldable pub eff_nam : Ac97 → ℕ
eff_nam a = if a.phys_nam_base == 0 then a.nam_base else a.phys_nam_base

unfoldable pub eff_nabm : Ac97 → ℕ
eff_nabm a = if a.phys_nabm_base == 0 then a.nabm_base else a.phys_nabm_base

unfoldable pub in_aperture : ℕ → ℕ → Bool
in_aperture base addr = leb base addr && ltb addr (u32 (base + 0x100))

unfoldable pub register_at : ℕ → ℕ → ℕ
register_at base addr = bit_and (addr - base) 0xFF

unfoldable pub io_read32 : ℕ → Ac97 → Option (ℕ × Ac97)
io_read32 addr a =
    if in_aperture (eff_nam a) addr
    then (let (v, b) = read_nam (register_at (eff_nam a) addr) a in some (bit_or 0xFFFF0000 v, b))
    else if in_aperture (eff_nabm a) addr
    then read_nabm (register_at (eff_nabm a) addr) 4 a
    else some (0xFFFFFFFF, a)

abbrev pub narrowed : ℕ → Option (ℕ × Ac97) → Option (ℕ × Ac97)
narrowed bits none = none
narrowed bits (some (v, a)) = some (v % 2 ^ bits, a)

unfoldable pub io_read16 : ℕ → Ac97 → Option (ℕ × Ac97)
io_read16 addr a =
    if in_aperture (eff_nam a) addr
    then some (read_nam (register_at (eff_nam a) addr) a)
    else if in_aperture (eff_nabm a) addr
    then narrowed 16 (read_nabm (register_at (eff_nabm a) addr) 2 a)
    else some (0xFFFF, a)

unfoldable pub io_read8 : ℕ → Ac97 → Option (ℕ × Ac97)
io_read8 addr a =
    if in_aperture (eff_nabm a) addr
    then narrowed 8 (read_nabm (register_at (eff_nabm a) addr) 1 a)
    else some (0xFF, a)

-- A write of `width` bytes; the codec's registers are of 16 bits.
unfoldable pub io_write : GuestMemory → ℕ → ℕ → ℕ → Ac97 → Option Ac97
io_write memory width addr v a =
    if in_aperture (eff_nam a) addr && not (width == 1)
    then some (write_nam (register_at (eff_nam a) addr) (v % 2 ^ 16) a)
    else if in_aperture (eff_nabm a) addr
    then write_nabm memory (register_at (eff_nabm a) addr) v width a
    else some a

unfoldable pub io_write32 : GuestMemory → ℕ → ℕ → Ac97 → Option Ac97
io_write32 memory addr v a = io_write memory 4 addr v a

unfoldable pub io_write16 : GuestMemory → ℕ → ℕ → Ac97 → Option Ac97
io_write16 memory addr v a = io_write memory 2 addr v a

unfoldable pub io_write8 : GuestMemory → ℕ → ℕ → Ac97 → Option Ac97
io_write8 memory addr v a = io_write memory 1 addr v a
