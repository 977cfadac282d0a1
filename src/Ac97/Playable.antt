-- ===== src/Ac97/Playable.antt =====
-- src/peripherals/ac97.cpp: every call of the device keeps its playback engine in order.
use sparcv8emulator.Base.{
  ℕ, ◌+◌, ◌*◌, inl, inr, Bool, not, ◌||◌, ltb, ◌==◌, Bool-cases, Option, none, some, List, u32,
}
use sparcv8emulator.Mctrl.Bytes.{◌>>=◌}
use sparcv8emulator.Ac97.State.{Ac97, GuestMemory}
use sparcv8emulator.Ac97.Playback
use sparcv8emulator.Ac97.Invariant
use sparcv8emulator.Ac97.Invariant.{IsPlayable}

-- A device whose engine is in order, where there is one.
abbrev pub AllPlayable : Option Ac97 → Type 0
AllPlayable none = Unit
AllPlayable (some a) = IsPlayable a.po

abbrev pub TickPlayable : Option Playback.Ticked → Type 0
TickPlayable none = Unit
TickPlayable (some t) = IsPlayable t.device.po

-- A chain of steps.
pub bound-IsPlayable {ℓ} :
    {A : Type ℓ} (o : Option A) (f : A → Option Ac97)
    → ((x : A) → AllPlayable (f x))
    → AllPlayable (o >>= f)
bound-IsPlayable none f h = tt
bound-IsPlayable (some x) f h = h x

bound_tick {ℓ} :
    {A : Type ℓ} (o : Option A) (f : A → Option Playback.Ticked)
    → ((x : A) → TickPlayable (f x))
    → TickPlayable (o >>= f)
bound_tick none f h = tt
bound_tick (some x) f h = h x

device_tick :
    (o : Option Ac97) (f : Ac97 → Option Playback.Ticked)
    → AllPlayable o
    → ((x : Ac97) → IsPlayable x.po → TickPlayable (f x))
    → TickPlayable (o >>= f)
device_tick none f ok h = tt
device_tick (some x) f ok h = h x ok

module _ (memory : GuestMemory) where
  load-IsPlayable : (a : Ac97) → IsPlayable a.po → AllPlayable (Playback.load_descriptor memory a)
  unfolding Playback.load_descriptor
  load-IsPlayable a ok =
      bound-IsPlayable (Playback.read_descriptor memory a) _
        (λ d. Invariant.take_descriptor-IsPlayable a.po ok d)

  signalled-IsPlayable : (a : Ac97) → IsPlayable a.po → IsPlayable (Playback.signalled a).1.po
  unfolding Playback.signalled
  signalled-IsPlayable a ok = elim (Bool-cases (Playback.inta_asserted a)) [
    | inl y ↦ simp y ok
    | inr n ↦ simp n ok
  ]

  done-IsPlayable :
      (samples : List ℕ) (a : Ac97)
      → IsPlayable a.po
      → TickPlayable (Playback.buffer_done memory samples a)
  unfolding Playback.buffer_done
  done-IsPlayable samples a ok =
      let e = Playback.completed_buffer a.po in
      let e_ok = Invariant.completed_buffer-IsPlayable a.po ok in
      elim (Bool-cases (Playback.halts e)) [
        | inl y ↦ simp y (
            signalled-IsPlayable (Playback.with_engine (Playback.halted_engine e) a)
              (Invariant.halted_engine-IsPlayable e e_ok))
        | inr n ↦ simp n (
            device_tick
              (Playback.load_descriptor memory (Playback.signalled (Playback.with_engine e a)).1) _
              (load-IsPlayable (Playback.signalled (Playback.with_engine e a)).1
                (signalled-IsPlayable (Playback.with_engine e a) e_ok))
              (λ x x_ok. x_ok))
      ]

  play-IsPlayable :
      (todo : ℕ) (a : Ac97) → IsPlayable a.po → TickPlayable (Playback.play memory todo a)
  unfolding Playback.play
  play-IsPlayable todo a ok =
      let b : Ac97 = Playback.with_engine (Playback.advanced todo a.po) a in
      let b_ok : IsPlayable b.po = Invariant.advanced-IsPlayable a.po ok todo in
      bound_tick (Playback.fetch_samples memory (u32 (a.po.cur_ptr + a.po.frame_offset)) (todo * 2))
        _
        (λ samples. elim (Bool-cases (ltb 0 b.po.picb)) [
          | inl y ↦ simp y b_ok
          | inr n ↦ simp n (done-IsPlayable samples b b_ok)
        ])

  due-IsPlayable :
      (due : Option ℕ) (a : Ac97) → IsPlayable a.po → TickPlayable (Playback.play_due memory due a)
  unfolding Playback.play_due
  due-IsPlayable none a ok = ok
  due-IsPlayable (some todo) a ok = play-IsPlayable todo a ok

  ready-IsPlayable : (a : Ac97) → IsPlayable a.po → AllPlayable (Playback.descriptor_ready memory a)
  unfolding Playback.descriptor_ready
  ready-IsPlayable a ok = elim (Bool-cases (a.po.cur_len == 0)) [
    | inl y ↦ simp y (load-IsPlayable a ok)
    | inr n ↦ simp n ok
  ]

  pub tick-IsPlayable :
      (wall_clock : Bool) (allowed : Option ℕ) (a : Ac97)
      → IsPlayable a.po
      → TickPlayable (Playback.tick memory wall_clock allowed a)
  unfolding Playback.tick
  tick-IsPlayable wall_clock allowed a ok =
      elim (Bool-cases (not a.po.running || a.bdbar_playback == 0)) [
        | inl y ↦ simp y ok
        | inr n ↦ simp n (
            device_tick (Playback.descriptor_ready memory a) _ (ready-IsPlayable a ok) (λ b b_ok.
              elim (Bool-cases b.po.running) [
                | inl y ↦
                    simp y
                      (due-IsPlayable (Playback.frames_due wall_clock allowed b.po.picb) b b_ok)
                | inr n ↦ simp n b_ok
              ]))
      ]
