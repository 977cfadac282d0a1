-- ===== src/Irqmp/Deliver.antt =====
-- src/peripherals/IRQMP.cpp: what `trigger_irq`, `clear_irq` and a write to the status register
-- do to the bits of the registers, and which CPUs they wake.
use sparcv8emulator.Base.{
  ℕ, zero, suc, ◌+◌, ◌%◌, ◌^◌, ◌≤◌, ◌<◌, ◌≡◌, refl, ◌∙◌, ap, inl, inr, Bool, true, false, not, ◌&&◌,
  ◌||◌, ltb, leb, ◌==◌, Bool-cases, testbit, testbit-or, testbit-pow, update, bit_or, arith,
}
use sparcv8emulator.Irqmp.Ops.{
  Irqmp, done, update_hints, wakeup, wake_loop, post_irq, trigger_irq, force_loop, hint_of,
}
use sparcv8emulator.Irqmp.Scan.{hint_of-HintSpec}
use sparcv8emulator.Irqmp.Hints.{hint-update_hints}

-- The CPUs from `i` on, `left` of them, that `m` picks.
abbrev picks : (ℕ → Bool) → ℕ → ℕ → ℕ → Bool
picks m i left c = leb i c && ltb c (i + left) && m c

picks-hit :
    (m o : ℕ → Bool) (i left c : ℕ)
    → m i ≡ true
    → (picks m (suc i) left c || update o i true c) ≡ (picks m i (suc left) c || o c)
picks-hit m o i left c hit = elim (Bool-cases (c == i)) [
  | inl e ↦ let e' : c ≡ i = ground arith in rw e' (ground arith)
  | inr ne ↦ ground arith
]

picks-miss :
    (m : ℕ → Bool) (i left c : ℕ) → m i ≡ false → picks m (suc i) left c ≡ picks m i (suc left) c
picks-miss m i left c miss = elim (Bool-cases (c == i)) [
  | inl e ↦ let e' : c ≡ i = ground arith in rw e' (ground arith)
  | inr ne ↦ ground arith
]

-- The wake loop, where every CPU that unmasks the level is attached.
wake_loop-woken :
    (irl left i : ℕ) (s : Irqmp)
    → ((c : ℕ) → i ≤ c → c < i + left → testbit (s.pimask c) irl ≡ true → s.cpu_ptrs c ≡ true)
    → (w : ℕ → Bool) × (wake_loop irl left i s ≡ done (record s { woken = w }))
      × ((c : ℕ) → w c ≡ (picks (λ j. testbit (s.pimask j) irl) i left c || s.woken c))
unfolding wake_loop wakeup
wake_loop-woken irl zero i s attached = (s.woken, refl, λ c. ground arith)
wake_loop-woken irl (suc left) i s attached = elim (Bool-cases (testbit (s.pimask i) irl)) [
  | inl hit ↦
      let (w, runs, bits) =
        wake_loop-woken irl left (suc i) (record s { woken = update s.woken i true })
          (λ c p q. attached c (omega arith) (omega arith)) in
      (
        w,
        rw (hit, attached i (omega arith) (omega arith) hit) runs,
        λ c. bits c ∙ picks-hit (λ j. testbit (s.pimask j) irl) s.woken i left c hit,
      )
  | inr miss ↦
      let (w, runs, bits) =
        wake_loop-woken irl left (suc i) s (λ c p q. attached c (omega arith) (omega arith)) in
      (
        w,
        rw miss runs,
        λ c.
            bits c
            ∙ ap (λ (b : Bool). b || s.woken c)
                (picks-miss (λ j. testbit (s.pimask j) irl) i left c miss),
      )
]

set_hit :
    (s : Irqmp) (irl left i : ℕ) (forced : ℕ → ℕ) (c j : ℕ)
    → testbit (s.pimask i) irl ≡ true
    → (picks (λ k. testbit (s.pimask k) irl) (suc i) left c && (j == irl)
        || testbit (update forced i (bit_or (forced i) (2 ^ irl)) c) j)
      ≡ (picks (λ k. testbit (s.pimask k) irl) i (suc left) c && (j == irl) || testbit (forced c) j)
set_hit s irl left i forced c j hit = elim (Bool-cases (c == i)) [
  | inl e ↦
      let e' : c ≡ i = ground arith in
      rw e' (ground (arith, hit, testbit-or (forced i) (2 ^ irl) j, testbit-pow irl j))
  | inr ne ↦ ground arith
]

force_loop_bits :
    (s : Irqmp) (irl left i : ℕ) (forced : ℕ → ℕ) (c j : ℕ)
    → testbit (force_loop s irl left i forced c) j
      ≡ (picks (λ k. testbit (s.pimask k) irl) i left c && (j == irl) || testbit (forced c) j)
unfolding force_loop
force_loop_bits s irl zero i forced c j = ground arith
force_loop_bits s irl (suc left) i forced c j = elim (Bool-cases (testbit (s.pimask i) irl)) [
  | inl hit ↦
      rw (hit, force_loop)
        (force_loop_bits s irl left (suc i) (update forced i (bit_or (forced i) (2 ^ irl))) c j
          ∙ set_hit s irl left i forced c j hit)
  | inr miss ↦
      rw (miss, force_loop)
        (force_loop_bits s irl left (suc i) forced c j
          ∙ ap (λ (b : Bool). b && (j == irl) || testbit (forced c) j)
              (picks-miss (λ k. testbit (s.pimask k) irl) i left c miss))
]

-- What posting level `irl` does: a broadcast level is forced on each CPU that unmasks it, any other
-- becomes pending, and no other bit changes.
pub record IsPosted (irl : ℕ) (s t : Irqmp) : Type 0 where
  pub pending :
      (i : ℕ) → testbit t.ipend i ≡ (not (testbit s.brdcst irl) && (i == irl) || testbit s.ipend i)
  pub forced :
      (c i : ℕ)
      → c < s.num_cpus
      → testbit (t.piforce c) i ≡ (
          testbit s.brdcst irl && testbit (s.pimask c) irl && (i == irl) || testbit (s.piforce c) i)
  pub same_mask : t.pimask ≡ s.pimask
  pub same_count : t.num_cpus ≡ s.num_cpus
  pub same_ptrs : t.cpu_ptrs ≡ s.cpu_ptrs
  pub same_woken : t.woken ≡ s.woken

post_irq-IsPosted : (irl : ℕ) (s : Irqmp) → IsPosted irl s (post_irq irl s)
unfolding post_irq
post_irq-IsPosted irl s = elim (Bool-cases (testbit s.brdcst irl)) [
  | inl broadcast ↦ elim (Bool-cases (ltb 1 s.num_cpus)) [
    | inl many ↦
        rw (broadcast, many)
          (record {
            pending = λ i. rw broadcast refl;
            forced = λ c i lt.
                rw broadcast (force_loop_bits s irl s.num_cpus 0 s.piforce c i ∙ ground arith);
            same_mask = refl;
            same_count = refl;
            same_ptrs = refl;
            same_woken = refl;
          })
    | inr one ↦ elim (Bool-cases (testbit (s.pimask 0) irl)) [
      | inl hit ↦
          rw (broadcast, one, hit)
            (record {
              pending = λ i. rw broadcast refl;
              forced = λ c i lt.
                  let z : c ≡ 0 = ground arith in
                  rw (z, broadcast, hit)
                    (ground (arith, testbit-or (s.piforce 0) (2 ^ irl) i, testbit-pow irl i));
              same_mask = refl;
              same_count = refl;
              same_ptrs = refl;
              same_woken = refl;
            })
      | inr miss ↦
          rw (broadcast, one, miss)
            (record {
              pending = λ i. rw broadcast refl;
              forced = λ c i lt. let z : c ≡ 0 = ground arith in rw (z, broadcast, miss) refl;
              same_mask = refl;
              same_count = refl;
              same_ptrs = refl;
              same_woken = refl;
            })
    ]
  ]
  | inr single ↦ rw single (record {
    pending = λ i. ground (arith, testbit-or s.ipend (2 ^ irl) i, testbit-pow irl i);
    forced = λ c i lt. rw single refl;
    same_mask = refl;
    same_count = refl;
    same_ptrs = refl;
    same_woken = refl;
  })
]

-- The state that a trigger of level `irl` returns.
pub record IsDelivered (irl : ℕ) (s t : Irqmp) : Type 0 where
  pub pending :
      (i : ℕ) → testbit t.ipend i ≡ (not (testbit s.brdcst irl) && (i == irl) || testbit s.ipend i)
  pub forced :
      (c i : ℕ)
      → c < s.num_cpus
      → testbit (t.piforce c) i ≡ (
          testbit s.brdcst irl && testbit (s.pimask c) irl && (i == irl) || testbit (s.piforce c) i)
  pub woken : (c : ℕ) → t.woken c ≡ (ltb c s.num_cpus && testbit (s.pimask c) irl || s.woken c)
  pub hinted :
      (c : ℕ) → c < s.num_cpus → testbit (s.pimask c) irl ≡ true → 0 < irl → 0 < t.irq_hint c

-- A level that is posted and unmasked is never hinted as 0.
posted_hint :
    (irl : ℕ) (s t : Irqmp) (c : ℕ)
    → IsPosted irl s t
    → irl < 16
    → 0 < irl
    → c < s.num_cpus
    → testbit (s.pimask c) irl ≡ true
    → 0 < (update_hints t).irq_hint c
posted_hint irl s t c p lt pos cpu unmasked =
    let here : (update_hints t).irq_hint c ≡ hint_of t c =
      hint-update_hints t c (omega (arith, p.same_count)) in
    let mask : testbit (t.pimask c) irl ≡ true = rw p.same_mask unmasked in
    elim (hint_of-HintSpec t c) [
      | inl h ↦ omega (arith, here, h.0)
      | inr h ↦ ground (arith, here, p.pending irl, p.forced c irl, h.0.above irl, h.1.above irl)
    ]

same_picks :
    (irl : ℕ) (s t : Irqmp) (c : ℕ)
    → IsPosted irl s t
    → (picks (λ j. testbit (t.pimask j) irl) 0 t.num_cpus c || t.woken c)
      ≡ (ltb c s.num_cpus && testbit (s.pimask c) irl || s.woken c)
same_picks irl s t c p = ground (
  arith,
  p.same_count,
  ap (λ (f : ℕ → Bool). f c) p.same_woken,
  ap (λ (f : ℕ → ℕ). testbit (f c) irl) p.same_mask,
)

-- With every CPU attached, `trigger_irq` returns. A broadcast level is then forced on each CPU that
-- unmasks it, any other level is pending, and no other pending or force bit has changed; exactly
-- the CPUs that unmask the level are sent a wakeup; and if the level modulo 16 is not 0, each of
-- them sees a hint above 0.
pub trigger_irq-IsDelivered :
    (level : ℕ) (s : Irqmp)
    → ((c : ℕ) → c < s.num_cpus → s.cpu_ptrs c ≡ true)
    → (t : Irqmp) × (trigger_irq level s ≡ done t) × IsDelivered (level % 16) s t
unfolding trigger_irq update_hints
trigger_irq-IsDelivered level s attached =
    let irl : ℕ = level % 16 in
    let q = post_irq irl s in
    let p : IsPosted irl s q = post_irq-IsPosted irl s in
    let (w, runs, woken) = wake_loop-woken irl q.num_cpus 0 (update_hints q) (λ c _ lt _.
      ap (λ (f : ℕ → Bool). f c) p.same_ptrs ∙ attached c (omega (arith, p.same_count))) in
    (
      record (update_hints q) { woken = w },
      runs,
      record {
        pending = p.pending;
        forced = p.forced;
        woken = λ c. woken c ∙ same_picks irl s q c p;
        hinted = λ c lt unmasked pos. posted_hint irl s q c p (omega arith) pos lt unmasked;
      },
    )
