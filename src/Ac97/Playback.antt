-- ===== src/Ac97/Playback.antt =====
-- src/peripherals/ac97.cpp, `AC97Pci::tick`: the playback engine, which takes buffers of samples
-- from a ring of 32 descriptors in the guest's memory.
use sparcv8emulator.Base.{
  ℕ, zero, suc, ◌+◌, ◌-◌, ◌*◌, ◌/◌, Bool, true, false, not, ◌&&◌, ◌||◌, if◌then◌else◌, ltb, ◌==◌,
  Option, none, some, List, [], ◌∷◌, bit_and, bit_or, testbit, u32, not32,
}
use sparcv8emulator.Mctrl.Bytes.{◌>>=◌}
use sparcv8emulator.Ac97.State.{Engine, Ac97, GuestMemory, mem_read32, mem_read16, gs_point}

-- A descriptor: `ptr`, `len` and `ctl`.
pub record Descriptor : Type 0 where
  pub ptr : ℕ
  pub len : ℕ
  pub ctl : ℕ

unfoldable pub read_descriptor : GuestMemory → Ac97 → Option Descriptor
read_descriptor memory a = do
  ptr ← mem_read32 memory (u32 (a.bdbar_playback + a.po.civ * 8))
  len ← mem_read16 memory (u32 (a.bdbar_playback + a.po.civ * 8 + 4))
  ctl ← mem_read16 memory (u32 (a.bdbar_playback + a.po.civ * 8 + 6))
  some (record { ptr = ptr; len = len; ctl = ctl })

-- DCH is set and CIP is clear.
unfoldable pub halted_status : ℕ → ℕ
halted_status status = bit_or (bit_and status (not32 2)) 1

unfoldable pub is_empty : Descriptor → Bool
is_empty d = d.ptr == 0 || d.len == 0

unfoldable pub with_descriptor : Descriptor → Engine → Engine
with_descriptor d e = record e {
  cur_ptr = d.ptr;
  cur_len = d.len;
  cur_ctl = d.ctl;
  frame_offset = 0;
  picb = d.len / 2;
}

-- A descriptor loaded, or an engine that halts at an empty one.
unfoldable pub take_descriptor : Descriptor → Engine → Engine
take_descriptor d e =
    if is_empty d
    then record e { running = false; cur_len = 0; status = halted_status e.status }
    else with_descriptor d e

abbrev pub with_engine : Engine → Ac97 → Ac97
with_engine e a = record a { po = e }

unfoldable pub load_descriptor : GuestMemory → Ac97 → Option Ac97
load_descriptor memory a = do
  d ← read_descriptor memory a
  some (with_engine (take_descriptor d a.po) a)

-- The samples of the guest from an address on, `n` of them.
unfoldable pub fetch_samples : GuestMemory → ℕ → ℕ → Option (List ℕ)
fetch_samples memory ptr zero = some []
fetch_samples memory ptr (suc n) = do
  x ← mem_read16 memory ptr
  xs ← fetch_samples memory (u32 (ptr + 2)) n
  some (x ∷ xs)

abbrev pub lesser : ℕ → ℕ → ℕ
lesser x y = if ltb x y then x else y

-- The frames of one tick. `allowed` is `frames_per_tick_dynamic_`, or what the host's clock allows:
-- nothing at the first tick after a start, which sets the clock.
unfoldable pub frames_due : Bool → Option ℕ → ℕ → Option ℕ
frames_due wall_clock none picb = none
frames_due false (some n) picb = some (lesser n picb)
frames_due true (some n) picb = if lesser n picb == 0 then none else some (lesser n picb)

-- What a tick does: samples for the host, whether it raises INTA, and the device.
pub record Ticked : Type 0 where
  pub samples : List ℕ
  pub raised : Bool
  pub device : Ac97

abbrev pub no_sound : Ac97 → Ticked
no_sound a = record { samples = []; raised = false; device = a }

-- `(po_status_ & 0x0C) && (po_control_ & 0x10)`.
unfoldable pub inta_asserted : Ac97 → Bool
inta_asserted a = not (bit_and a.po.status 0x0C == 0) && testbit a.po.control 4

unfoldable pub signalled : Ac97 → Bool × Ac97
signalled a =
    if inta_asserted a
    then (true, record a { glob_sta = bit_or a.glob_sta gs_point })
    else (false, a)

-- The engine after the samples of a tick.
unfoldable pub advanced : ℕ → Engine → Engine
advanced todo e = record e { frame_offset = u32 (e.frame_offset + todo * 4); picb = e.picb - todo }

-- The end of a buffer: BCIS where the descriptor asks for it, and the next index.
unfoldable pub completed_buffer : Engine → Engine
completed_buffer e = record e {
  status = if testbit e.cur_ctl 15 then bit_or e.status 8 else e.status;
  civ = bit_and (e.civ + 1) 0x1F;
}

-- The last valid buffer was the last one.
unfoldable pub halts : Engine → Bool
halts e = e.civ == bit_and (e.lvi + 1) 0x1F

unfoldable pub halted_engine : Engine → Engine
halted_engine e = record e {
  status = halted_status (bit_or e.status 4);
  running = false;
  lvbci_halted = true;
  cur_len = 0;
}

unfoldable pub buffer_done : GuestMemory → List ℕ → Ac97 → Option Ticked
buffer_done memory samples a =
    let e = completed_buffer a.po in
    if halts e
    then (let (raised, b) = signalled (with_engine (halted_engine e) a) in
        some (record { samples = samples; raised = raised; device = b }))
    else (let (raised, b) = signalled (with_engine e a) in
        do
          c ← load_descriptor memory b
          some (record { samples = samples; raised = raised; device = c }))

unfoldable pub play : GuestMemory → ℕ → Ac97 → Option Ticked
play memory todo a = do
  samples ← fetch_samples memory (u32 (a.po.cur_ptr + a.po.frame_offset)) (todo * 2)
  (let b = with_engine (advanced todo a.po) a in
      if ltb 0 b.po.picb
      then some (record { samples = samples; raised = false; device = b })
      else buffer_done memory samples b)

unfoldable pub play_due : GuestMemory → Option ℕ → Ac97 → Option Ticked
play_due memory none a = some (no_sound a)
play_due memory (some todo) a = play memory todo a

-- A descriptor is loaded first where none is; an empty one ends the tick.
unfoldable pub descriptor_ready : GuestMemory → Ac97 → Option Ac97
descriptor_ready memory a = if a.po.cur_len == 0 then load_descriptor memory a else some a

-- `tick`. `wall_clock` is `use_wall_clock_`.
unfoldable pub tick : GuestMemory → Bool → Option ℕ → Ac97 → Option Ticked
tick memory wall_clock allowed a =
    if not a.po.running || a.bdbar_playback == 0 then some (no_sound a) else (do
      b ← descriptor_ready memory a
      (if b.po.running
          then play_due memory (frames_due wall_clock allowed b.po.picb) b
          else some (no_sound b)))
