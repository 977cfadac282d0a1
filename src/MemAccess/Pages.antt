-- ===== src/MemAccess/Pages.antt =====
-- src/sparcv8/MMU.h, `MMU::MemAccess`: the entry that a cache of host pages gets serves every
-- address of the page.
use sparcv8emulator.Base.{
  ℕ, suc, ◌*◌, ◌/◌, ◌%◌, ◌^◌, ◌<◌, ◌≡◌, refl, ◌∙◌, sym, inl, inr, Bool, true, false, if◌then◌else◌,
  ◌==◌, Bool-cases, some, List, [], ◌∷◌, bit_and, bit_or, u32, not32, ◌>>>◌, bit_and-div,
  bit_or-div, bit_and-low, bit_and-zero, arith,
}
use sparcv8emulator.Mctrl.Banks.{Bank, contains}
use sparcv8emulator.Mctrl.Control.{Attached, search, place}
use sparcv8emulator.Mmu.Walk.{Memory, ind1, ind2, ind3, get_pte}
use sparcv8emulator.Mmu.Perms.{Intent, get_access_type, fault_type, check_perms}
use sparcv8emulator.Mmu.Translate.{Translation, refused, page_offset, granted, checked}
use sparcv8emulator.Mmu.Cached.{uncached}
use sparcv8emulator.MemAccess.Core.{Srmmu, get_bank, physical}
use sparcv8emulator.MemAccess.Pointers.{filled}
use sparcv8emulator.MemAccess.Hits.{translation, LeadsTo}

-- A bank that starts and ends at the border of a page.
pub record IsPaged (b : Bank) : Type 0 where
  pub base : b.base < 2 ^ 32
  pub size : b.size < 2 ^ 63
  pub starts : b.base % 2 ^ 12 ≡ 0
  pub finishes : b.size % 2 ^ 12 ≡ 0

contains_page :
    (x y : ℕ) (b : Bank)
    → IsPaged b
    → x < 2 ^ 32
    → y < 2 ^ 32
    → x / 2 ^ 12 ≡ y / 2 ^ 12
    → contains x b ≡ contains y b
unfolding contains
contains_page x y b p xl yl e = ground (arith, p.base, p.size, p.starts, p.finishes, e)

search_page :
    (x y : ℕ) (banks : List Attached)
    → ((i : ℕ) (a : Attached) → place i banks ≡ some a → IsPaged a.bank)
    → x < 2 ^ 32
    → y < 2 ^ 32
    → x / 2 ^ 12 ≡ y / 2 ^ 12
    → search x banks ≡ search y banks
unfolding search place
search_page x y [] p xl yl e = refl
search_page x y (a ∷ banks) p xl yl e =
    rw
      (
        contains_page x y a.bank (p 0 a refl) xl yl e,
        search_page x y banks (λ i b q. p (suc i) b q) xl yl e,
      )
      refl

-- A walk reads the number of the page alone.
get_pte_page :
    (memory : Memory) (ctx_tbl_ptr ctx_n x y : ℕ)
    → x / 2 ^ 12 ≡ y / 2 ^ 12
    → get_pte memory ctx_tbl_ptr ctx_n x 0 ≡ get_pte memory ctx_tbl_ptr ctx_n y 0
unfolding get_pte ind1 ind2 ind3
get_pte_page memory ctp c x y e =
    let first : x / 2 ^ 24 ≡ y / 2 ^ 24 = omega (arith, e) in
    let second : x / 2 ^ 18 ≡ y / 2 ^ 18 = omega (arith, e) in rw (first, second, e) refl

page_offset_page :
    (level x y : ℕ)
    → x / 2 ^ 12 ≡ y / 2 ^ 12
    → page_offset level x / 2 ^ 12 ≡ page_offset level y / 2 ^ 12
unfolding page_offset
page_offset_page level x y e =
    let masked : (m : ℕ) → bit_and x m / 2 ^ 12 ≡ bit_and y m / 2 ^ 12 =
      λ m. rw (bit_and-div 12 x m, bit_and-div 12 y m, e) refl in
    elim (Bool-cases (level == 3)) [
      | inl e3 ↦ simp e3 (masked 0xfff)
      | inr n3 ↦ elim (Bool-cases (level == 2)) [
        | inl e2 ↦ simp (n3, e2) (masked 0x3ffff)
        | inr n2 ↦ elim (Bool-cases (level == 1)) [
          | inl e1 ↦ simp (n3, n2, e1) (masked 0xffffff)
          | inr n1 ↦ simp (n3, n2, n1) e
        ]
      ]
    ]

-- Pages with the same number have the same address.
page_address :
    (x y : ℕ) → x / 2 ^ 12 ≡ y / 2 ^ 12 → bit_and x (not32 0xfff) ≡ bit_and y (not32 0xfff)
page_address x y e =
    let high : bit_and x (not32 0xfff) / 2 ^ 12 ≡ bit_and y (not32 0xfff) / 2 ^ 12 =
      rw (bit_and-div 12 x (not32 0xfff), bit_and-div 12 y (not32 0xfff), e) refl in
    let low : (z : ℕ) → bit_and z (not32 0xfff) % 2 ^ 12 ≡ 0 =
      λ z. bit_and-low 12 z (not32 0xfff) ∙ bit_and-zero (z % 2 ^ 12) in
    omega (arith, high, low x, low y)

abbrev pub by_entry : Intent → Bool → ℕ → ℕ × ℕ → Translation
by_entry intent supervisor x w =
    if fault_type w.0 (get_access_type intent supervisor) w.1 == 0
    then granted x w.0 w.1
    else refused w.1

pub translation_lem :
    (u : Srmmu) (intent : Intent) (x : ℕ) (supervisor report : Bool)
    → translation u intent x supervisor report
      ≡ by_entry intent supervisor x
          (get_pte (physical u.mctrl) u.core.ctx_tbl_ptr u.core.ctx_n x 0)
unfolding translation uncached checked check_perms
translation_lem u intent x supervisor report = refl

entry_allows :
    (intent : Intent) (supervisor : Bool) (x : ℕ) (w : ℕ × ℕ)
    → (by_entry intent supervisor x w).ok ≡ true
    → (fault_type w.0 (get_access_type intent supervisor) w.1 == 0) ≡ true
unfolding refused
entry_allows intent supervisor x w ok =
    elim (Bool-cases (fault_type w.0 (get_access_type intent supervisor) w.1 == 0)) [
      | inl e ↦ e
      | inr n ↦ let k : false ≡ true = (simp n at ok) in cc
    ]

granted_page :
    (x y pte level : ℕ)
    → x / 2 ^ 12 ≡ y / 2 ^ 12
    → (granted x pte level).pa / 2 ^ 12 ≡ (granted y pte level).pa / 2 ^ 12
unfolding granted
granted_page x y pte level e =
    let k = u32 (bit_and pte (not32 0xff) >>> 8 * 2 ^ 12) in
    rw
      (
        bit_or-div 12 (page_offset level x) k,
        bit_or-div 12 (page_offset level y) k,
        page_offset_page level x y e,
      )
      refl

-- A translation that is granted gives addresses on one page to addresses on one page.
translation_page :
    (u : Srmmu) (intent : Intent) (x y : ℕ) (supervisor report report' : Bool)
    → x / 2 ^ 12 ≡ y / 2 ^ 12
    → (translation u intent x supervisor report).ok ≡ true
    → ((translation u intent y supervisor report').ok ≡ true)
      × ((translation u intent x supervisor report).pa / 2 ^ 12
          ≡ (translation u intent y supervisor report').pa / 2 ^ 12)
unfolding granted
translation_page u intent x y supervisor report report' e ok =
    let w = get_pte (physical u.mctrl) u.core.ctx_tbl_ptr u.core.ctx_n x 0 in
    let same = get_pte_page (physical u.mctrl) u.core.ctx_tbl_ptr u.core.ctx_n x y e in
    let allowed =
      entry_allows intent supervisor x w (rw (← translation_lem u intent x supervisor report) ok) in
    rw
      (
        translation_lem u intent x supervisor report,
        translation_lem u intent y supervisor report',
        ← same,
        allowed,
      )
      (refl, granted_page x y w.0 w.1 e)

masked_word : (x m : ℕ) → m / 2 ^ 32 ≡ 0 → bit_and x m < 2 ^ 32
masked_word x m e =
    let q : bit_and x m / 2 ^ 32 ≡ 0 = bit_and-div 32 x m ∙ rw e (bit_and-zero (x / 2 ^ 32)) in
    omega (arith, q)

page_offset_word : (level x : ℕ) → x < 2 ^ 32 → page_offset level x < 2 ^ 32
unfolding page_offset
page_offset_word level x lt = elim (Bool-cases (level == 3)) [
  | inl e3 ↦ simp e3 (masked_word x 0xfff refl)
  | inr n3 ↦ elim (Bool-cases (level == 2)) [
    | inl e2 ↦ simp (n3, e2) (masked_word x 0x3ffff refl)
    | inr n2 ↦ elim (Bool-cases (level == 1)) [
      | inl e1 ↦ simp (n3, n2, e1) (masked_word x 0xffffff refl)
      | inr n1 ↦ simp (n3, n2, n1) lt
    ]
  ]
]

translation_word :
    (u : Srmmu) (intent : Intent) (x : ℕ) (supervisor report : Bool)
    → x < 2 ^ 32
    → (translation u intent x supervisor report).pa < 2 ^ 32
unfolding granted refused
translation_word u intent x supervisor report lt =
    let w = get_pte (physical u.mctrl) u.core.ctx_tbl_ptr u.core.ctx_n x 0 in
    let k = u32 (bit_and w.0 (not32 0xff) >>> 8 * 2 ^ 12) in
    let offset : page_offset w.1 x / 2 ^ 32 ≡ 0 = omega (arith, page_offset_word w.1 x lt) in
    let number : k / 2 ^ 32 ≡ 0 = omega arith in
    let whole : bit_or (page_offset w.1 x) k / 2 ^ 32 ≡ 0 =
      bit_or-div 32 (page_offset w.1 x) k ∙ rw (offset, number) refl in
    rw (translation_lem u intent x supervisor report)
      (elim (Bool-cases (fault_type w.0 (get_access_type intent supervisor) w.1 == 0)) [
        | inl e ↦ simp e (omega (arith, whole))
        | inr n ↦ simp n (omega arith)
      ])

-- Where the banks start and end at borders of pages, and the translation of an address is granted
-- and leads to a bank, the entry that the caches of host pages get for it leads to the page that
-- the tables give for every address of the same virtual page.
pub filled-LeadsTo :
    (u : Srmmu) (intent : Intent) (x y : ℕ) (supervisor report report' : Bool) (i : ℕ)
    (a : Attached)
    → ((j : ℕ) (b : Attached) → place j u.mctrl.banks ≡ some b → IsPaged b.bank)
    → x < 2 ^ 32
    → y < 2 ^ 32
    → x / 2 ^ 12 ≡ y / 2 ^ 12
    → (translation u intent x supervisor report).ok ≡ true
    → get_bank (translation u intent x supervisor report).pa u.mctrl ≡ some (i, a)
    → LeadsTo u intent y supervisor report'
        (filled x (translation u intent x supervisor report).pa u.core.ctx_n supervisor i).page_data
unfolding filled
filled-LeadsTo u intent x y supervisor report report' i a paged xl yl e ok found =
    let (ok', near) = translation_page u intent x y supervisor report report' e ok in
    let same =
      search_page (translation u intent x supervisor report).pa
        (translation u intent y supervisor report').pa u.mctrl.banks paged
        (translation_word u intent x supervisor report xl)
        (translation_word u intent y supervisor report' yl) near in
    record {
      allowed = ok';
      bank = i;
      attached = a;
      found = sym same ∙ found;
      same =
          rw
            (page_address (translation u intent x supervisor report).pa
              (translation u intent y supervisor report').pa near)
            refl;
    }
