-- ===== src/Ac97/Invariant.antt =====
-- src/peripherals/ac97.cpp: what the functions keep of the playback engine.
use sparcv8emulator.Base.{
  ℕ, ◌+◌, ◌<◌, ◌≡◌, refl, ◌∙◌, inl, inr, Bool, true, false, not, ◌&&◌, ◌==◌, Bool-cases, bit_and,
  bit_or, testbit, testbit-and, testbit-or, not32, bit_and-mod, arith,
}
use sparcv8emulator.Ac97.State.{Engine}
use sparcv8emulator.Ac97.Playback.{
  Descriptor, is_empty, with_descriptor, take_descriptor, advanced, completed_buffer, halted_engine,
}
use sparcv8emulator.Ac97.Control.{
  cleared_engine, stopped_engine, refused_engine, started_engine, resumed_engine,
}

-- The indices are inside the ring of 32 descriptors, and a running engine does not say that its DMA
-- is halted.
pub record IsPlayable (e : Engine) : Type 0 where
  pub civ : e.civ < 32
  pub lvi : e.lvi < 32
  pub active : e.running ≡ true → testbit e.status 0 ≡ false

pub five_bits : (x : ℕ) → bit_and x 0x1F < 32
five_bits x = omega (arith, bit_and-mod 5 x)

pub clear_stays : (s m : ℕ) → testbit s 0 ≡ false → testbit (bit_and s m) 0 ≡ false
clear_stays s m e = testbit-and s m 0 ∙ rw e refl

clear_joins : (s m : ℕ) → testbit s 0 ≡ false → testbit m 0 ≡ false → testbit (bit_or s m) 0 ≡ false
clear_joins s m e e' = testbit-or s m 0 ∙ rw (e, e') refl

and_false : (b : Bool) → (b && false) ≡ false
and_false true = refl
and_false false = refl

bit_cleared : (s : ℕ) → testbit (bit_and s (not32 1)) 0 ≡ false
unfolding testbit
bit_cleared s = testbit-and s (not32 1) 0 ∙ and_false (testbit s 0)

module _ (e : Engine) (ok : IsPlayable e) where
  pub take_descriptor-IsPlayable : (d : Descriptor) → IsPlayable (take_descriptor d e)
  unfolding take_descriptor with_descriptor
  take_descriptor-IsPlayable d = elim (Bool-cases (is_empty d)) [
    | inl y ↦ simp y (record { civ = ok.civ; lvi = ok.lvi; active = λ r. cc })
    | inr n ↦ simp n (record { civ = ok.civ; lvi = ok.lvi; active = ok.active })
  ]

  pub advanced-IsPlayable : (todo : ℕ) → IsPlayable (advanced todo e)
  unfolding advanced
  advanced-IsPlayable todo = record { civ = ok.civ; lvi = ok.lvi; active = ok.active }

  pub completed_buffer-IsPlayable : IsPlayable (completed_buffer e)
  unfolding completed_buffer testbit
  completed_buffer-IsPlayable = record {
    civ = five_bits (e.civ + 1);
    lvi = ok.lvi;
    active = λ r. elim (Bool-cases (testbit e.cur_ctl 15)) [
      | inl y ↦ simp y (clear_joins e.status 8 (ok.active r) refl)
      | inr n ↦ simp n (ok.active r)
    ];
  }

  pub halted_engine-IsPlayable : IsPlayable (halted_engine e)
  unfolding halted_engine
  halted_engine-IsPlayable = record { civ = ok.civ; lvi = ok.lvi; active = λ r. cc }

  pub stopped_engine-IsPlayable : IsPlayable (stopped_engine e)
  unfolding stopped_engine
  stopped_engine-IsPlayable = record { civ = ok.civ; lvi = ok.lvi; active = λ r. cc }

  pub refused_engine-IsPlayable : IsPlayable (refused_engine e)
  unfolding refused_engine
  refused_engine-IsPlayable = record { civ = ok.civ; lvi = ok.lvi; active = λ r. cc }

  pub cleared_engine-IsPlayable : IsPlayable (cleared_engine e)
  unfolding cleared_engine
  cleared_engine-IsPlayable = record { civ = omega arith; lvi = ok.lvi; active = λ r. cc }

  pub started_engine-IsPlayable : (d : Descriptor) → IsPlayable (started_engine d e)
  unfolding started_engine with_descriptor
  started_engine-IsPlayable d = elim (Bool-cases (is_empty d)) [
    | inl y ↦ simp y refused_engine-IsPlayable
    | inr n ↦ simp n (record { civ = ok.civ; lvi = ok.lvi; active = λ r. bit_cleared e.status })
  ]

  pub resumed_engine-IsPlayable : IsPlayable (resumed_engine e)
  unfolding resumed_engine testbit
  resumed_engine-IsPlayable =
      elim (Bool-cases
        (not e.running && e.lvbci_halted && not (e.lvi == bit_and (e.civ + 31) 0x1F))) [
          | inl y ↦ simp y (record {
            civ = ok.civ;
            lvi = ok.lvi;
            active = λ r. clear_joins (bit_and e.status (not32 1)) 2 (bit_cleared e.status) refl;
          })
          | inr n ↦ simp n ok
        ]
