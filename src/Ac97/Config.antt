-- ===== src/Ac97/Config.antt =====
-- src/peripherals/ac97.hpp and ac97.cpp: the configuration space of the device, with its two base
-- address registers, and the constructor. The bridge passes offsets inside the 256 bytes.
use sparcv8emulator.Base.{
  ℕ, ◌+◌, ◌-◌, ◌*◌, ◌/◌, ◌^◌, true, false, ◌||◌, if◌then◌else◌, ◌==◌, update, bit_and, bit_or, u8,
  not32,
}
use sparcv8emulator.Mctrl.Bytes.{byte_at}
use sparcv8emulator.Ac97.State.{Engine, Ac97, gs_pr}
use sparcv8emulator.Ac97.Codec.{init_codec_cold}

abbrev pub bar0 : ℕ
bar0 = 0x10

abbrev pub bar1 : ℕ
bar1 = 0x14

-- `config_[off] = v`.
unfoldable pub put_config8 : ℕ → ℕ → Ac97 → Ac97
put_config8 off v a = record a { config = update a.config off (u8 v) }

unfoldable pub put_config16 : ℕ → ℕ → Ac97 → Ac97
put_config16 off v a = put_config8 (off + 1) (byte_at 8 v) (put_config8 off (bit_and v 0xff) a)

unfoldable pub put_config32 : ℕ → ℕ → Ac97 → Ac97
put_config32 off v a = put_config8 (off + 3) (byte_at 24 v) (
    put_config8 (off + 2) (byte_at 16 v)
      (put_config8 (off + 1) (byte_at 8 v) (put_config8 off (byte_at 0 v) a)))

-- A write of a base address register: all ones ask for the size, zero turns the range off.
unfoldable pub write_bar : ℕ → ℕ → Ac97 → Ac97
write_bar i v a =
    if v == 0xFFFFFFFF then record a { probing_bar = update a.probing_bar i true } else record a {
      probing_bar = update a.probing_bar i false;
      bar_values = update a.bar_values i (if v == 0 then 0 else bit_and v 0xFFFFFFF0);
    }

-- The base that the ports use.
unfoldable pub bar_base : ℕ → ℕ → ℕ
bar_base v base = if v == 0xFFFFFFFF then base else if v == 0 then 0 else bit_and v 0xFFFFFFF0

-- `write32`, which is `config_write32`.
unfoldable pub config_write32 : ℕ → ℕ → Ac97 → Ac97
config_write32 off v a =
    if off == bar0
    then record (write_bar 0 v a) { nam_base = bar_base v a.nam_base }
    else if off == bar1
    then record (write_bar 1 v a) { nabm_base = bar_base v a.nabm_base }
    else put_config32 off v a

unfoldable pub config_read16 : ℕ → Ac97 → ℕ
config_read16 off a = bit_or (a.config off) (a.config (off + 1) * 2 ^ 8)

-- A base address register that is asked gives the mask of 256 bytes.
unfoldable pub read_bar : ℕ → Ac97 → ℕ
read_bar i a = if a.probing_bar i then 0xFFFFFF00 else a.bar_values i

-- `read32`, which is `config_read32`.
unfoldable pub config_read32 : ℕ → Ac97 → ℕ
config_read32 off a =
    if off == bar0 || off == bar1
    then read_bar ((off - bar0) / 4) a
    else bit_or
        (bit_or (bit_or (a.config off) (a.config (off + 1) * 2 ^ 8)) (a.config (off + 2) * 2 ^ 16))
        (a.config (off + 3) * 2 ^ 24)

abbrev pub still : Engine
still = record {
  running = false;
  lvbci_halted = false;
  civ = 0;
  lvi = 0;
  picb = 0;
  control = 0;
  status = 0;
  cur_ptr = 0;
  cur_len = 0;
  cur_ctl = 0;
  frame_offset = 0;
}

-- The members' initial values.
abbrev pub blank : Ac97
blank = record {
  config = λ i. 0;
  bar_values = λ i. 0;
  probing_bar = λ i. false;
  nam_base = 0;
  nabm_base = 0;
  phys_nam_base = 0;
  phys_nabm_base = 0;
  codec_regs = λ i. 0;
  bdbar_playback = 0;
  bdbar_capture = 0;
  glob_cnt = 0;
  glob_sta = gs_pr;
  pi_control = 0;
  mc_control = 0;
  pi_status = 0;
  mc_status = 0;
  pi_civ = 0;
  mc_civ = 0;
  pi_lvi = 0;
  mc_lvi = 0;
  power_ctrl = 0;
  power_status = 0;
  po = still;
}

-- The identification of the device.
unfoldable pub identify : Ac97 → Ac97
identify a =
    let class = put_config8 0x0E 0 (
      put_config8 0x0B 4 (
        put_config8 0x0A 1 (
          put_config8 0x09 0
            (put_config8 0x08 1 (put_config16 0x02 0x2415 (put_config16 0x00 0x8086 a)))))) in
    put_config16 0x06 (bit_and (config_read16 0x06 class) (not32 0x10)) class

-- `init_pci_config`.
unfoldable pub init_pci_config : Ac97 → Ac97
init_pci_config a =
    let b = config_write32 0x30 0 (config_write32 0x2C 0x0C (identify a)) in
    let c =
      init_codec_cold (put_config8 0x34 0x50 (put_config8 0x3C 0xFF (put_config8 0x3D 1 b))) in
    record c { po = record (c.po) { status = 0 } }

unfoldable pub new_device : Ac97
new_device = init_pci_config blank

unfoldable pub set_phys_bases : ℕ → ℕ → Ac97 → Ac97
set_phys_bases nam_phys nabm_phys a = record a {
  phys_nam_base = nam_phys;
  phys_nabm_base = nabm_phys;
}
