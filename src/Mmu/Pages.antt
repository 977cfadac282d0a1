-- ===== src/Mmu/Pages.antt =====
-- src/sparcv8/MMU.cpp: which bits of an address a walk reads.
use sparcv8emulator.Base.{
  ℕ, ◌+◌, ◌-◌, ◌/◌, ◌%◌, ◌^◌, ◌≤◌, ◌<◌, ◌≡◌, ◌≢◌, refl, ◌∙◌, sym, ap, inl, inr, ◌==◌, Bool-cases,
  Option, none, some, bit_and, masked_quotient, arith,
}
use sparcv8emulator.Mmu.Tlb.{get_addr_level_mask}
use sparcv8emulator.Mmu.Walk.{Memory, ind1, ind2, ind3, entry_type, next_entry, root_entry, get_pte}

-- Addresses that agree under the mask of a page size have the same page number.
same_page :
    (k n x y : ℕ)
    → x / 2 ^ k % 2 ^ n ≡ x / 2 ^ k
    → y / 2 ^ k % 2 ^ n ≡ y / 2 ^ k
    → (2 ^ (k + n) - 2 ^ k) / 2 ^ k ≡ 2 ^ n - 1
    → bit_and x (2 ^ (k + n) - 2 ^ k) ≡ bit_and y (2 ^ (k + n) - 2 ^ k)
    → x / 2 ^ k ≡ y / 2 ^ k
same_page k n x y xl yl e same =
    sym (masked_quotient k n x xl e) ∙ ap (λ (t : ℕ). t / 2 ^ k) same ∙ masked_quotient k n y yl e

-- `x` and `y` select the same entries down to the table of level `l`.
record Agree (l x y : ℕ) : Type 0 where
  entered : 1 ≤ l
  first : ind1 x ≡ ind1 y
  second : 2 ≤ l → ind2 x ≡ ind2 y
  third : 3 ≤ l → ind3 x ≡ ind3 y

none-ne-some : (a : ℕ) → none ≡ some a → ⊥
none-ne-some a e = cc

some_injective : (a b : ℕ) → some a ≡ some b → a ≡ b
some_injective a b e = ap (λ (o : Option ℕ). elim o [ none ↦ 0 | some v ↦ v ]) e

-- The mask of a level keeps the bits that a walk to that level reads.
mask-Agree :
    (l x y mask : ℕ)
    → x < 2 ^ 32
    → y < 2 ^ 32
    → get_addr_level_mask l ≡ some mask
    → bit_and x mask ≡ bit_and y mask
    → Agree l x y
unfolding get_addr_level_mask ind1 ind2 ind3
mask-Agree l x y mask xl yl m same = elim (Bool-cases (l == 3)) [
  | inl e3 ↦
      let is_mask : 2 ^ 32 - 2 ^ 12 ≡ mask = some_injective (2 ^ 32 - 2 ^ 12) mask (simp e3 at m) in
      let page : x / 2 ^ 12 ≡ y / 2 ^ 12 =
        same_page 12 20 x y (omega arith) (omega arith) refl (rw is_mask same) in
      record {
        entered = ground (arith, e3);
        first = ap (λ (t : ℕ). bit_and t 0xff) (omega (arith, page));
        second = λ le. ap (λ (t : ℕ). bit_and t 0x3f) (omega (arith, page));
        third = λ le. ap (λ (t : ℕ). bit_and t 0x3f) (omega (arith, page));
      }
  | inr n3 ↦ elim (Bool-cases (l == 2)) [
    | inl e2 ↦
        let is_mask : 2 ^ 32 - 2 ^ 18 ≡ mask =
          some_injective (2 ^ 32 - 2 ^ 18) mask (simp (n3, e2) at m) in
        let page : x / 2 ^ 18 ≡ y / 2 ^ 18 =
          same_page 18 14 x y (omega arith) (omega arith) refl (rw is_mask same) in
        record {
          entered = ground (arith, e2);
          first = ap (λ (t : ℕ). bit_and t 0xff) (omega (arith, page));
          second = λ le. ap (λ (t : ℕ). bit_and t 0x3f) (omega (arith, page));
          third = λ le. absurd (ground (arith, e2, le));
        }
    | inr n2 ↦ elim (Bool-cases (l == 1)) [
      | inl e1 ↦
          let is_mask : 2 ^ 32 - 2 ^ 24 ≡ mask =
            some_injective (2 ^ 32 - 2 ^ 24) mask (simp (n3, n2, e1) at m) in
          let page : x / 2 ^ 24 ≡ y / 2 ^ 24 =
            same_page 24 8 x y (omega arith) (omega arith) refl (rw is_mask same) in
          record {
            entered = ground (arith, e1);
            first = ap (λ (t : ℕ). bit_and t 0xff) (omega (arith, page));
            second = λ le. absurd (ground (arith, e1, le));
            third = λ le. absurd (ground (arith, e1, le));
          }
      | inr n1 ↦ absurd (none-ne-some mask (simp (n3, n2, n1) at m))
    ]
  ]
]

-- If the walk for `x` ends in a table, it ends in the same entry for every such `y`.
Agree-get_pte :
    (memory : Memory) (ctx_tbl_ptr ctx_n l pte x y : ℕ)
    → Agree l x y
    → get_pte memory ctx_tbl_ptr ctx_n x 0 ≡ (pte, l)
    → get_pte memory ctx_tbl_ptr ctx_n y 0 ≡ (pte, l)
unfolding get_pte
Agree-get_pte memory ctp c l pte x y a e =
    let l0 = root_entry memory ctp c in
    let l1 = next_entry memory l0 (ind1 x) in
    let l2 = next_entry memory l1 (ind2 x) in
    elim (Bool-cases (entry_type l0 == 1)) [
      | inr t0 ↦
          absurd
            (let n : 0 ≡ l = ap (λ (p : ℕ × ℕ). p.1) (simp t0 at e) in omega (arith, a.entered))
      | inl t0 ↦ elim (Bool-cases (entry_type l1 == 1)) [
        | inr t1 ↦
            let e' = simp (t0, t1) at e in
            let ends : 1 ≡ l = ap (λ (p : ℕ × ℕ). p.1) e' in rw (← a.first) (simp (t0, t1) e')
        | inl t1 ↦ elim (Bool-cases (entry_type l2 == 1)) [
          | inr t2 ↦
              let e' = simp (t0, t1, t2) at e in
              let ends : 2 ≡ l = ap (λ (p : ℕ × ℕ). p.1) e' in
              rw (← a.first, ← a.second (omega arith)) (simp (t0, t1, t2) e')
          | inl t2 ↦
              let e' = simp (t0, t1, t2) at e in
              let ends : 3 ≡ l = ap (λ (p : ℕ × ℕ). p.1) e' in
              rw (← a.first, ← a.second (omega arith), ← a.third (omega arith))
                (simp (t0, t1, t2) e')
        ]
      ]
    ]

-- If the walk for `x` ends in a table at level `l`, it ends in the same entry for every address of
-- that page.
pub get_pte_same_page :
    (memory : Memory) (ctx_tbl_ptr ctx_n l pte x y mask : ℕ)
    → x < 2 ^ 32
    → y < 2 ^ 32
    → get_addr_level_mask l ≡ some mask
    → bit_and x mask ≡ bit_and y mask
    → get_pte memory ctx_tbl_ptr ctx_n x 0 ≡ (pte, l)
    → get_pte memory ctx_tbl_ptr ctx_n y 0 ≡ (pte, l)
get_pte_same_page memory ctp c l pte x y mask xl yl m same e =
    Agree-get_pte memory ctp c l pte x y (mask-Agree l x y mask xl yl m same) e

-- A walk ends at a valid entry only at a level that has a page size, unless the context table
-- itself holds a valid entry.
pub get_pte_level :
    (memory : Memory) (ctx_tbl_ptr ctx_n x : ℕ)
    → entry_type (root_entry memory ctx_tbl_ptr ctx_n) ≢ 2
    → entry_type (get_pte memory ctx_tbl_ptr ctx_n x 0).0 ≡ 2
    → (mask : ℕ) × (get_addr_level_mask (get_pte memory ctx_tbl_ptr ctx_n x 0).1 ≡ some mask)
unfolding get_pte get_addr_level_mask
get_pte_level memory ctp c x no_page valid =
    let l0 = root_entry memory ctp c in
    let l1 = next_entry memory l0 (ind1 x) in
    let l2 = next_entry memory l1 (ind2 x) in
    elim (Bool-cases (entry_type l0 == 1)) [
      | inr t0 ↦ absurd (no_page (simp t0 at valid))
      | inl t0 ↦ elim (Bool-cases (entry_type l1 == 1)) [
        | inr t1 ↦ simp (t0, t1) (2 ^ 32 - 2 ^ 24, refl)
        | inl t1 ↦ elim (Bool-cases (entry_type l2 == 1)) [
          | inr t2 ↦ simp (t0, t1, t2) (2 ^ 32 - 2 ^ 18, refl)
          | inl t2 ↦ simp (t0, t1, t2) (2 ^ 32 - 2 ^ 12, refl)
        ]
      ]
    ]
