-- ===== src/Ac97/Calls.antt =====
-- src/peripherals/ac97.hpp and ac97.cpp: the calls of the device, one after the other.
use sparcv8emulator.Base.{ℕ, Bool, Option, none, some, List, [], ◌∷◌}
use sparcv8emulator.Mctrl.Bytes.{◌>>=◌}
use sparcv8emulator.Ac97.State.{Ac97, GuestMemory}
use sparcv8emulator.Ac97.Playback.{Ticked, tick}
use sparcv8emulator.Ac97.Control.{cold_reset}
use sparcv8emulator.Ac97.Ports.{io_read32, io_read16, io_read8, io_write}
use sparcv8emulator.Ac97.Config.{put_config8, put_config16, config_write32, set_phys_bases}

-- The memory is what the guest's memory holds at the time of the call.
pub data Call : Type 0 where
  ticks : GuestMemory → Bool → Option ℕ → Call
  reads8 reads16 reads32 : ℕ → Call
  writes : GuestMemory → ℕ → ℕ → ℕ → Call
  configures8 configures16 configures32 : ℕ → ℕ → Call
  moves : ℕ → ℕ → Call
  resets : Call

unfoldable pub after_tick : Option Ticked → Option Ac97
after_tick none = none
after_tick (some t) = some t.device

unfoldable pub after_read : Option (ℕ × Ac97) → Option Ac97
after_read none = none
after_read (some (v, a)) = some a

-- No device is an exception.
unfoldable pub perform : Call → Ac97 → Option Ac97
perform (ticks memory wall_clock allowed) a = after_tick (tick memory wall_clock allowed a)
perform (reads8 addr) a = after_read (io_read8 addr a)
perform (reads16 addr) a = after_read (io_read16 addr a)
perform (reads32 addr) a = after_read (io_read32 addr a)
perform (writes memory width addr v) a = io_write memory width addr v a
perform (configures8 off v) a = some (put_config8 off v a)
perform (configures16 off v) a = some (put_config16 off v a)
perform (configures32 off v) a = some (config_write32 off v a)
perform (moves nam nabm) a = some (set_phys_bases nam nabm a)
perform resets a = some (cold_reset a)

unfoldable pub performs : List Call → Ac97 → Option Ac97
performs [] a = some a
performs (c ∷ cs) a = do b ← perform c a; performs cs b
