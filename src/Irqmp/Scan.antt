-- ===== src/Irqmp/Scan.antt =====
-- src/peripherals/IRQMP.cpp: the search loops of `update_hints_locked`.
use sparcv8emulator.Base.{
  ℕ, zero, suc, ◌≤◌, ◌<◌, ◌≡◌, ◌⊎◌, inl, inr, Bool, true, false, ◌&&◌, ltb, ◌==◌, Bool-cases,
  testbit, testbit-or, bit_or, arith,
}
use sparcv8emulator.Irqmp.Ops.{Irqmp, highest_level, hint_of}

-- Level `i` is requested and unmasked.
abbrev pub serves : ℕ → ℕ → ℕ → Bool
serves req mask i = testbit req i && testbit mask i

-- `h` is the highest level from 1 to `n` that is requested and unmasked, or 0 if there is none.
pub record IsHighest (n req mask h : ℕ) : Type 0 where
  pub within : h ≤ n
  pub served : 0 < h → serves req mask h ≡ true
  pub above : (i : ℕ) → h < i → i ≤ n → serves req mask i ≡ false

pub highest_level-IsHighest : (n req mask : ℕ) → IsHighest n req mask (highest_level n req mask)
unfolding highest_level
highest_level-IsHighest zero req mask = record {
  within = omega arith;
  served = λ p. absurd (omega arith);
  above = λ i p q. absurd (omega arith);
}
highest_level-IsHighest (suc n) req mask =
    let below = highest_level-IsHighest n req mask in
    elim (Bool-cases (serves req mask (suc n))) [
      | inl hit ↦ rw hit (record {
        within = omega arith;
        served = λ p. hit;
        above = λ i p q. absurd (omega arith);
      })
      | inr miss ↦ rw miss (record {
        within = omega (arith, below.within);
        served = below.served;
        above = λ i p q. elim (Bool-cases (i == suc n)) [
          | inl e ↦ let e' : i ≡ suc n = ground arith in rw e' miss
          | inr ne ↦ below.above i p (ground arith)
        ];
      })
    ]

-- The specification determines the level.
pub IsHighest-unique :
    (n req mask g h : ℕ) → IsHighest n req mask g → IsHighest n req mask h → g ≡ h
IsHighest-unique n req mask g h a b = elim (Bool-cases (ltb g h)) [
  | inl lt ↦ cc (b.served (ground arith), a.above h (ground arith) b.within)
  | inr ge ↦ elim (Bool-cases (ltb h g)) [
    | inl lt ↦ cc (a.served (ground arith), b.above g (ground arith) a.within)
    | inr ge' ↦ ground arith
  ]
]

-- What a hint says: the highest level that is forced on the CPU, or, with none forced, the
-- highest that is pending, or 0.
abbrev pub HintSpec : Irqmp → ℕ → ℕ → Type 0
HintSpec s c h =
    ((0 < h) × IsHighest 15 (s.piforce c) (s.pimask c) h)
    ⊎ (IsHighest 15 (s.piforce c) (s.pimask c) 0 × IsHighest 15 s.ipend (s.pimask c) h)

pub hint_of-HintSpec : (s : Irqmp) (c : ℕ) → HintSpec s c (hint_of s c)
unfolding hint_of
hint_of-HintSpec s c =
    let forced = highest_level-IsHighest 15 (s.piforce c) (s.pimask c) in
    let pending = highest_level-IsHighest 15 s.ipend (s.pimask c) in
    elim (Bool-cases (highest_level 15 (s.piforce c) (s.pimask c) == 0)) [
      | inl e ↦
          let none : highest_level 15 (s.piforce c) (s.pimask c) ≡ 0 = ground arith in
          rw e (inr (rw none at forced, pending))
      | inr e ↦ rw e (inl (ground arith, forced))
    ]

hint_of-forced :
    (s : Irqmp) (c f : ℕ) → 0 < f → IsHighest 15 (s.piforce c) (s.pimask c) f → hint_of s c ≡ f
unfolding hint_of
hint_of-forced s c f pos top = ground (
  arith,
  IsHighest-unique 15 (s.piforce c) (s.pimask c) (highest_level 15 (s.piforce c) (s.pimask c)) f
      (highest_level-IsHighest 15 (s.piforce c) (s.pimask c)) top,
)

-- A forced level hides a higher pending one: with `f` the highest level that is forced on the
-- CPU and unmasked, and a level `p` above `f` that is pending and unmasked, the hint is `f`, and
-- so it is not the highest level that is forced or pending and unmasked.
pub hint_of_not-IsHighest :
    (s : Irqmp) (c f p : ℕ)
    → 0 < f
    → IsHighest 15 (s.piforce c) (s.pimask c) f
    → f < p
    → p ≤ 15
    → serves s.ipend (s.pimask c) p ≡ true
    → (hint_of s c ≡ f) × ¬ IsHighest 15 (bit_or (s.piforce c) s.ipend) (s.pimask c) (hint_of s c)
hint_of_not-IsHighest s c f p pos top lt le pend =
    let is_f = hint_of-forced s c f pos top in
    (is_f, λ h. ground (arith, is_f, h.above p, testbit-or (s.piforce c) s.ipend p))
