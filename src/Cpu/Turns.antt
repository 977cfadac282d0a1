-- ===== src/Cpu/Turns.antt =====
-- src/sparcv8/CPU.cpp, the loop of `run`: the chain of its turns, and when it ends.
use sparcv8emulator.Base.{ℕ, zero, suc, ◌≤◌, ◌<◌, ◌≡◌, ◌⊎◌, Bool, true, false, Option, none, some}
use sparcv8emulator.Cpu.Dispatch.{Floating}
use sparcv8emulator.Cpu.Run.{Machine, ends}
use sparcv8emulator.Cpu.Turned.{started, fetch, Turned, Thrown}

module _ (floating : Floating) (fpu : Bool) where
  -- `k` turns, of which the last alone may end the run.
  abbrev pub Trace : ℕ → Machine → Machine → Type 0
  Trace zero m m' = m' ≡ m
  Trace (suc k) m m' =
      (p : Machine) × Turned floating fpu m p × ((k ≡ 0) ⊎ (ends p.reason ≡ false)) × Trace k p m'

  -- What the loop gives for at most `n` turns: a chain of turns that is long enough or ended, or a
  -- chain of turns that did not end the run before one that throws.
  abbrev pub Traced : ℕ → Machine → Option (ℕ × Machine) → Type 0
  Traced n m none =
      (j : ℕ) × (p : Machine) × Trace j m p
      × (j < n)
      × ((j ≡ 0) ⊎ (ends p.reason ≡ false))
      × Thrown floating fpu (started p) (fetch p)
  Traced n m (some (k, m')) = Trace k m m' × (k ≤ n) × ((k ≡ n) ⊎ (ends m'.reason ≡ true))
