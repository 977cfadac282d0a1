-- ===== src/Ac97/Codec.antt =====
-- src/peripherals/ac97.cpp: the registers of the codec, cold and warm resets of it, and the
-- semaphore that its accesses hold.
use sparcv8emulator.Base.{
  ℕ, Bool, false, ◌||◌, if◌then◌else◌, leb, ◌==◌, List, [], ◌∷◌, update, bit_and, bit_or, not32,
  ◌>>>◌,
}
use sparcv8emulator.Ac97.State.{Ac97, gs_pr, gs_busy}

-- `VALID_NAM_REGS`.
unfoldable pub valid_nam_regs : List ℕ
valid_nam_regs =
    0x00 ∷ 0x02 ∷ 0x04 ∷ 0x06 ∷ 0x18 ∷ 0x1A ∷ 0x1C ∷ 0x20 ∷ 0x26 ∷ 0x28 ∷ 0x2A ∷ 0x2C ∷ 0x32 ∷ 0x7C
    ∷ 0x7E ∷ []

unfoldable pub is_listed : ℕ → List ℕ → Bool
is_listed n [] = false
is_listed n (x ∷ xs) = x == n || is_listed n xs

unfoldable pub nam_valid : ℕ → Bool
nam_valid offset = is_listed offset valid_nam_regs

-- `glob_sta_ |= GS_PR; glob_sta_ &= ~GS_BUSY`.
unfoldable pub codec_ready : Ac97 → Ac97
codec_ready a = record a { glob_sta = bit_and (bit_or a.glob_sta gs_pr) (not32 gs_busy) }

-- `codec_regs_[offset >> 1] = value`.
abbrev pub set_reg : ℕ → ℕ → (ℕ → ℕ) → ℕ → ℕ
set_reg offset value regs = update regs (offset >>> 1) value

unfoldable pub mixer_defaults : (ℕ → ℕ) → ℕ → ℕ
mixer_defaults regs =
    set_reg 0x1A 0x0808 (set_reg 0x18 0x0808 (set_reg 0x04 0 (set_reg 0x02 0 regs)))

unfoldable pub cold_regs : ℕ → ℕ
cold_regs =
    let ids = set_reg 0x7E 0x5348 (set_reg 0x7C 0x4144 (λ i. 0)) in
    let extended = set_reg 0x2A 0x0003 (set_reg 0x28 0x0003 (set_reg 0x26 0x000F ids)) in
    set_reg 0x20 0x0008 (mixer_defaults (set_reg 0x32 48000 (set_reg 0x2C 48000 extended)))

unfoldable pub init_codec_cold : Ac97 → Ac97
init_codec_cold a = codec_ready (record a { codec_regs = cold_regs; power_status = 0x000F })

unfoldable pub init_codec_warm : Ac97 → Ac97
init_codec_warm a = codec_ready (record a { codec_regs = mixer_defaults a.codec_regs })

unfoldable pub codec_command_begin : Ac97 → Ac97
codec_command_begin a = record a { glob_sta = bit_or a.glob_sta gs_busy }

unfoldable pub codec_command_complete : Ac97 → Ac97
codec_command_complete a = record a { glob_sta = bit_and a.glob_sta (not32 gs_busy) }

-- The value at a valid register.
unfoldable pub nam_value : ℕ → Ac97 → ℕ
nam_value offset a =
    if offset == 0x00
    then 0x0A00
    else if offset == 0x26
    then a.power_status
    else a.codec_regs (offset >>> 1)

unfoldable pub read_nam : ℕ → Ac97 → ℕ × Ac97
read_nam offset a = if leb 0x80 offset then (0xFFFF, a) else (
  (if nam_valid offset then nam_value offset a else 0xFFFF),
  codec_command_complete (codec_command_begin a),
)

unfoldable pub handle_0x26_power : ℕ → Ac97 → Ac97
handle_0x26_power value a = record a {
  power_ctrl = value;
  power_status = if value == 0 then 0x000F else bit_and (not32 value) 0x000F;
}

unfoldable pub handle_0x2a_ext_audio_status : ℕ → Ac97 → Ac97
handle_0x2a_ext_audio_status value a = record a {
  codec_regs =
      set_reg 0x2A (bit_or (bit_and (a.codec_regs (0x28 >>> 1)) 0xFFFE) (bit_and value 1))
        a.codec_regs;
}

unfoldable pub mask_volume_reg : ℕ → ℕ
mask_volume_reg value =
    bit_or (bit_or (bit_and value 0x8000) (bit_and value 0x1F00)) (bit_and value 0x001F)

unfoldable pub nam_written : ℕ → ℕ → Ac97 → Ac97
nam_written offset value a =
    if offset == 0x00
    then init_codec_warm a
    else if offset == 0x26
    then handle_0x26_power value a
    else if offset == 0x28
    then a
    else if offset == 0x2A
    then handle_0x2a_ext_audio_status value a
    else if offset == 0x02 || offset == 0x04 || offset == 0x18 || offset == 0x1A
    then record a { codec_regs = set_reg offset (mask_volume_reg value) a.codec_regs }
    else record a { codec_regs = set_reg offset value a.codec_regs }

unfoldable pub write_nam : ℕ → ℕ → Ac97 → Ac97
write_nam offset value a =
    let b = codec_command_begin a in
    if leb 0x80 offset
    then a
    else codec_command_complete (if nam_valid offset then nam_written offset value b else b)
