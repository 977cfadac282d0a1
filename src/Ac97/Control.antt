-- ===== src/Ac97/Control.antt =====
-- src/peripherals/ac97.cpp: resets, and writes of the bus master's registers. No result is an
-- exception. The argument `memory` is the guest's memory at the time of the write.
use sparcv8emulator.Base.{
  ℕ, ◌+◌, ◌^◌, true, false, not, ◌&&◌, ◌||◌, if◌then◌else◌, ◌==◌, Option, none, some, bit_and,
  bit_or, testbit, not32,
}
use sparcv8emulator.Mctrl.Bytes.{◌>>=◌}
use sparcv8emulator.Ac97.State.{Engine, Ac97, GuestMemory, gs_pr, gs_w1c_mask}
use sparcv8emulator.Ac97.Codec.{init_codec_cold, init_codec_warm, codec_ready}
use sparcv8emulator.Ac97.Playback.{
  Descriptor, read_descriptor, is_empty, with_descriptor, with_engine,
}

abbrev pub cnt_cold : ℕ
cnt_cold = 2

abbrev pub cnt_warm : ℕ
cnt_warm = 4

-- The engine's members that RESETREGS and a cold reset clear.
unfoldable pub cleared_engine : Engine → Engine
cleared_engine e = record e {
  running = false;
  lvbci_halted = false;
  civ = 0;
  picb = 0;
  status = 1;
  cur_ptr = 0;
  cur_len = 0;
  cur_ctl = 0;
  frame_offset = 0;
}

unfoldable pub cold_reset : Ac97 → Ac97
cold_reset a = record (init_codec_cold a) {
  po = record (cleared_engine a.po) { control = 0 };
  bdbar_playback = 0;
  bdbar_capture = 0;
  glob_sta = gs_pr;
  glob_cnt = 2 ^ 18;
}

unfoldable pub warm_reset : Ac97 → Ac97
warm_reset a =
    let e = a.po in
    codec_ready (record (init_codec_warm a) { po = record e { status = 0 }; mc_status = 0 })

unfoldable pub stopped_engine : Engine → Engine
stopped_engine e = record e {
  running = false;
  lvbci_halted = false;
  status = bit_or (bit_and e.status (not32 0x0C)) 1;
}

-- A start that is refused: DCH stays set.
unfoldable pub refused_engine : Engine → Engine
refused_engine e = record e { running = false; status = bit_or e.status 1 }

unfoldable pub started_engine : Descriptor → Engine → Engine
started_engine d e =
    if is_empty d
    then refused_engine e
    else with_descriptor d (record e { running = true; status = bit_and e.status (not32 1) })

unfoldable pub start_engine : GuestMemory → Ac97 → Option Ac97
start_engine memory a =
    if a.po.running
    then some a
    else if a.bdbar_playback == 0 || not (memory.has_bank a.bdbar_playback)
    then some (with_engine (refused_engine a.po) a)
    else (do d ← read_descriptor memory a; some (with_engine (started_engine d a.po) a))

-- `PO_BASE + CR`: bit 1 resets and clears itself, bit 0 runs.
unfoldable pub write_po_cr : GuestMemory → ℕ → Ac97 → Option Ac97
write_po_cr memory value a =
    let ctl = bit_and value 0x1F in
    let e : Engine = record (a.po) { control = bit_and ctl (not32 2) } in
    if testbit ctl 1
    then some (with_engine (cleared_engine e) a)
    else if testbit ctl 0
    then start_engine memory (with_engine e a)
    else some (with_engine (stopped_engine e) a)

-- `PO_BASE + LVI`: an engine that halted at the last buffer goes on if the index moved.
unfoldable pub resumed_engine : Engine → Engine
resumed_engine e =
    if not e.running && e.lvbci_halted && not (e.lvi == bit_and (e.civ + 31) 0x1F)
    then record e {
      running = true;
      lvbci_halted = false;
      status = bit_or (bit_and e.status (not32 1)) 2;
    }
    else e

unfoldable pub write_po_lvi : ℕ → Ac97 → Ac97
write_po_lvi value a = with_engine (resumed_engine (record (a.po) { lvi = bit_and value 0x1F })) a

unfoldable pub clear_po_sr : ℕ → Ac97 → Ac97
clear_po_sr mask a = with_engine (record (a.po) { status = bit_and a.po.status (not32 mask) }) a

-- The other engines' status: the value is stored, then bits 2 to 4 of it are cleared.
unfoldable pub other_status : ℕ → ℕ
other_status value = bit_and (bit_and value 0x1F) (not32 (bit_and value 0x1C))

unfoldable pub other_control : ℕ → ℕ
other_control value = bit_and (bit_and value 0x1F) (not32 2)

-- A write of one byte.
unfoldable pub write_nabm8 : GuestMemory → ℕ → ℕ → Ac97 → Option Ac97
write_nabm8 memory offset word a =
    let value = bit_and word 0xFF in
    if offset == 0x16
    then some (clear_po_sr (bit_and value 0x1E) a)
    else if offset == 0x17 || offset == 0x07 || offset == 0x27
    then some a
    else if offset == 0x06
    then some (record a { pi_status = other_status value })
    else if offset == 0x26
    then some (record a { mc_status = other_status value })
    else if offset == 0x0B
    then some (record a { pi_control = other_control value })
    else if offset == 0x1B
    then write_po_cr memory value a
    else if offset == 0x2B
    then some (record a { mc_control = other_control value })
    else if offset == 0x14 || offset == 0x04 || offset == 0x24
    then some a
    else if offset == 0x05
    then some (record a { pi_lvi = bit_and value 0x1F })
    else if offset == 0x15
    then some (write_po_lvi value a)
    else if offset == 0x25
    then some (record a { mc_lvi = bit_and value 0x1F })
    else none

-- A write of two bytes.
unfoldable pub write_nabm16 : ℕ → ℕ → Ac97 → Ac97
write_nabm16 offset word a = if offset == 0x16 then clear_po_sr (bit_and word 0x1E) a else a

-- A reset where its bit of the global control rises; the bit is cleared after it.
unfoldable pub cold_if_rises : ℕ → ℕ → Ac97 → Ac97
cold_if_rises old value a =
    if not (testbit old 1) && testbit value 1
    then (let b = cold_reset a in record b { glob_cnt = bit_and b.glob_cnt (not32 cnt_cold) })
    else a

unfoldable pub warm_if_rises : ℕ → ℕ → Ac97 → Ac97
warm_if_rises old value a =
    if not (testbit old 2) && testbit value 2
    then (let b = warm_reset a in record b { glob_cnt = bit_and b.glob_cnt (not32 cnt_warm) })
    else a

unfoldable pub write_glob_cnt : ℕ → Ac97 → Ac97
write_glob_cnt value a =
    warm_if_rises a.glob_cnt value (cold_if_rises a.glob_cnt value (record a { glob_cnt = value }))

-- A write of four bytes.
unfoldable pub write_nabm32 : ℕ → ℕ → Ac97 → Option Ac97
write_nabm32 offset value a =
    if offset == 0x10
    then some (record a { bdbar_playback = value })
    else if offset == 0x00
    then some (record a { bdbar_capture = value })
    else if offset == 0x20
    then some a
    else if offset == 0x2C
    then some (write_glob_cnt value a)
    else if offset == 0x30
    then some (record a { glob_sta = bit_and a.glob_sta (not32 (bit_and value gs_w1c_mask)) })
    else none

unfoldable pub write_nabm : GuestMemory → ℕ → ℕ → ℕ → Ac97 → Option Ac97
write_nabm memory offset value width a =
    if width == 1
    then write_nabm8 memory offset value a
    else if width == 2
    then some (write_nabm16 offset value a)
    else write_nabm32 offset value a
