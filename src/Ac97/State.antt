-- ===== src/Ac97/State.antt =====
-- src/peripherals/ac97.hpp, `class AC97Pci`: the state of the sound device. The host's audio and
-- clock are left out.
use sparcv8emulator.Base.{ℕ, ◌*◌, ◌^◌, Bool, Option, some, bit_and, bit_or, ◌>>>◌}
use sparcv8emulator.Mctrl.Bytes.{◌>>=◌}

-- The members `po_...` of the playback engine.
pub record Engine : Type 0 where
  pub running : Bool
  pub lvbci_halted : Bool
  pub civ : ℕ
  pub lvi : ℕ
  pub picb : ℕ
  pub control : ℕ
  pub status : ℕ
  pub cur_ptr : ℕ
  pub cur_len : ℕ
  pub cur_ctl : ℕ
  pub frame_offset : ℕ

pub record Ac97 : Type 0 where
  pub config : ℕ → ℕ
  pub bar_values : ℕ → ℕ
  pub probing_bar : ℕ → Bool
  pub nam_base : ℕ
  pub nabm_base : ℕ
  pub phys_nam_base : ℕ
  pub phys_nabm_base : ℕ
  pub codec_regs : ℕ → ℕ
  pub bdbar_playback : ℕ
  pub bdbar_capture : ℕ
  pub glob_cnt : ℕ
  pub glob_sta : ℕ
  pub pi_control : ℕ
  pub mc_control : ℕ
  pub pi_status : ℕ
  pub mc_status : ℕ
  pub pi_civ : ℕ
  pub mc_civ : ℕ
  pub pi_lvi : ℕ
  pub mc_lvi : ℕ
  pub power_ctrl : ℕ
  pub power_status : ℕ
  pub po : Engine

-- What the device uses of the memory controller: `read32`, `read16` and the search for a bank, at
-- one point of time. No value is an exception.
pub record GuestMemory : Type 0 where
  pub read32 : ℕ → Option ℕ
  pub read16 : ℕ → Option ℕ
  pub has_bank : ℕ → Bool

-- `std::byteswap`.
unfoldable pub byteswap16 : ℕ → ℕ
byteswap16 v = bit_or (bit_and v 0xff * 2 ^ 8) (v >>> 8)

unfoldable pub byteswap32 : ℕ → ℕ
byteswap32 v =
    bit_or
      (bit_or (bit_or (bit_and v 0xff * 2 ^ 24) (bit_and (v >>> 8) 0xff * 2 ^ 16))
        (bit_and (v >>> 16) 0xff * 2 ^ 8))
      (v >>> 24)

unfoldable pub mem_read32 : GuestMemory → ℕ → Option ℕ
mem_read32 memory addr = do v ← memory.read32 addr; some (byteswap32 v)

unfoldable pub mem_read16 : GuestMemory → ℕ → Option ℕ
mem_read16 memory addr = do v ← memory.read16 addr; some (byteswap16 v)

-- Bits of the global status, and of the global control.
abbrev pub gs_pr : ℕ
gs_pr = 0x100

abbrev pub gs_busy : ℕ
gs_busy = 0x4

abbrev pub gs_point : ℕ
gs_point = 0x40

abbrev pub gs_w1c_mask : ℕ
gs_w1c_mask = 0xff
