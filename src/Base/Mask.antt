-- ===== src/Base/Mask.antt =====
-- Masks of low and of high bits, in arithmetic.
use Prim.Native.Nat.{min, bit_or, ℕ, zero, suc, ◌+◌, ◌*◌, ◌/◌, ◌%◌, ◌^◌, ◌<◌, ◌-◌, bit_and}
use native.Mathlib.Nat.{pow-suc, one-le-pow, div-div-eq-div-mul, div-add-mod'}
use mathlib.Core.Path.{◌≡◌, refl, sym, ap, ◌∙◌}
use native.Mathlib.Omega.{arith}
use sparcv8emulator.Base.Bits.{bit_and-step, bit_or-step}

div-pow-suc : (k x : ℕ) → x / 2 ^ suc k ≡ x / 2 / 2 ^ k
div-pow-suc k x =
    ap (λ (t : ℕ). x / t) (omega (arith, pow-suc 2 k)) ∙ sym (div-div-eq-div-mul x 2 (2 ^ k))

mod-pow-suc : (k x : ℕ) → x % 2 ^ suc k ≡ x / 2 % 2 ^ k * 2 + x % 2
mod-pow-suc k x =
    let twice : x / 2 / 2 ^ k * 2 ^ suc k ≡ x / 2 / 2 ^ k * 2 ^ k * 2 =
      ap (λ (t : ℕ). x / 2 / 2 ^ k * t) (pow-suc 2 k) ∙ omega arith in
    let whole : x / 2 / 2 ^ k * 2 ^ suc k + x % 2 ^ suc k ≡ x =
      rw (← div-pow-suc k x) (div-add-mod' x (2 ^ suc k)) in
    omega (arith, div-add-mod' (x / 2) (2 ^ k), twice, whole)

pub bit_and-div : (k a b : ℕ) → bit_and a b / 2 ^ k ≡ bit_and (a / 2 ^ k) (b / 2 ^ k)
bit_and-div zero a b =
    let one : (x : ℕ) → x / 2 ^ 0 ≡ x = λ x. omega arith in rw (one a, one b) (one (bit_and a b))
bit_and-div (suc k) a b =
    let half : bit_and a b / 2 ≡ bit_and (a / 2) (b / 2) = omega (arith, bit_and-step a b) in
    rw (div-pow-suc k a, div-pow-suc k b, div-pow-suc k (bit_and a b), half)
      (bit_and-div k (a / 2) (b / 2))

pub bit_or-div : (k a b : ℕ) → bit_or a b / 2 ^ k ≡ bit_or (a / 2 ^ k) (b / 2 ^ k)
bit_or-div zero a b =
    let one : (x : ℕ) → x / 2 ^ 0 ≡ x = λ x. omega arith in rw (one a, one b) (one (bit_or a b))
bit_or-div (suc k) a b =
    let half : bit_or a b / 2 ≡ bit_or (a / 2) (b / 2) = omega (arith, bit_or-step a b) in
    rw (div-pow-suc k a, div-pow-suc k b, div-pow-suc k (bit_or a b), half)
      (bit_or-div k (a / 2) (b / 2))

bit_and_zero_fuel : (n x : ℕ) → x < n → bit_and x 0 ≡ 0
bit_and_zero_fuel zero x lt = absurd (omega arith)
bit_and_zero_fuel (suc n) zero lt = refl
bit_and_zero_fuel (suc n) (suc x) lt =
    let rest : bit_and (suc x / 2) (0 / 2) ≡ 0 = bit_and_zero_fuel n (suc x / 2) (omega arith) in
    omega (arith, bit_and-step (suc x) 0, rest)

-- The low bits are the remainder.
pub bit_and-mod : (n x : ℕ) → bit_and x (2 ^ n - 1) ≡ x % 2 ^ n
bit_and-mod zero x = omega (arith, bit_and_zero_fuel (suc x) x (omega arith))
bit_and-mod (suc n) x =
    let half : (2 ^ suc n - 1) / 2 ≡ 2 ^ n - 1 = omega (arith, pow-suc 2 n) in
    let rest : bit_and (x / 2) ((2 ^ suc n - 1) / 2) ≡ x / 2 % 2 ^ n =
      rw half (bit_and-mod n (x / 2)) in
    omega (
      arith,
      bit_and-step x (2 ^ suc n - 1),
      rest,
      pow-suc 2 n,
      one-le-pow n 2 (omega arith),
      mod-pow-suc n x,
    )

-- A mask of high bits keeps the quotient.
pub masked_quotient :
    (k n x : ℕ)
    → x / 2 ^ k % 2 ^ n ≡ x / 2 ^ k
    → (2 ^ (k + n) - 2 ^ k) / 2 ^ k ≡ 2 ^ n - 1
    → bit_and x (2 ^ (k + n) - 2 ^ k) / 2 ^ k ≡ x / 2 ^ k
masked_quotient k n x lt e =
    bit_and-div k x (2 ^ (k + n) - 2 ^ k) ∙ rw e (bit_and-mod n (x / 2 ^ k) ∙ lt)

bit_or_zero_fuel : (n x : ℕ) → x < n → bit_or x 0 ≡ x
bit_or_zero_fuel zero x lt = absurd (omega arith)
bit_or_zero_fuel (suc n) zero lt = refl
bit_or_zero_fuel (suc n) (suc x) lt =
    let rest : bit_or (suc x / 2) (0 / 2) ≡ suc x / 2 =
      bit_or_zero_fuel n (suc x / 2) (omega arith) in
    omega (arith, bit_or-step (suc x) 0, rest)

bit_or-zero : (x : ℕ) → bit_or x 0 ≡ x
bit_or-zero x = bit_or_zero_fuel (suc x) x (omega arith)

pub bit_and-zero : (x : ℕ) → bit_and x 0 ≡ 0
bit_and-zero x = bit_and_zero_fuel (suc x) x (omega arith)

twice : (a b : ℕ) → a * (b * 2) ≡ a * b * 2
twice a b = omega arith

-- `|` of numbers without a common bit is their sum.
pub bit_or-add : (n w k : ℕ) → k < 2 ^ n → bit_or (w * 2 ^ n) k ≡ w * 2 ^ n + k
bit_or-add zero w k lt =
    let none : k ≡ 0 = omega arith in rw none (bit_or-zero (w * 2 ^ 0) ∙ omega arith)
bit_or-add (suc n) w k lt =
    let left : w * 2 ^ suc n / 2 ≡ w * 2 ^ n =
      omega (arith, ap (λ (t : ℕ). w * t) (pow-suc 2 n) ∙ twice w (2 ^ n)) in
    let even : w * 2 ^ suc n ≡ w * 2 ^ n * 2 =
      ap (λ (t : ℕ). w * t) (pow-suc 2 n) ∙ twice w (2 ^ n) in
    let rest : bit_or (w * 2 ^ suc n / 2) (k / 2) ≡ w * 2 ^ n + k / 2 =
      rw left (bit_or-add n w (k / 2) (omega (arith, pow-suc 2 n))) in
    omega (arith, bit_or-step (w * 2 ^ suc n) k, rest, even)

bit_or_comm_fuel : (n a b : ℕ) → a + b < n → bit_or a b ≡ bit_or b a
bit_or_comm_fuel zero a b lt = absurd (omega arith)
bit_or_comm_fuel (suc n) zero zero lt = refl
bit_or_comm_fuel (suc n) zero (suc b) lt =
    let rest : bit_or 0 (suc b / 2) ≡ bit_or (suc b / 2) 0 =
      bit_or_comm_fuel n 0 (suc b / 2) (omega arith) in
    omega (arith, bit_or-step 0 (suc b), bit_or-step (suc b) 0, rest)
bit_or_comm_fuel (suc n) (suc a) b lt =
    let rest : bit_or (suc a / 2) (b / 2) ≡ bit_or (b / 2) (suc a / 2) =
      bit_or_comm_fuel n (suc a / 2) (b / 2) (omega arith) in
    omega (arith, bit_or-step (suc a) b, bit_or-step b (suc a), rest)

pub bit_or_comm : (a b : ℕ) → bit_or a b ≡ bit_or b a
bit_or_comm a b = bit_or_comm_fuel (suc (a + b)) a b (omega arith)

-- `&` on the low bits.
pub bit_and-low : (n a b : ℕ) → bit_and a b % 2 ^ n ≡ bit_and (a % 2 ^ n) (b % 2 ^ n)
bit_and-low zero a b =
    let nothing : (x : ℕ) → x % 2 ^ 0 ≡ 0 = λ x. omega arith in
    rw (nothing a, nothing b, nothing (bit_and a b)) refl
bit_and-low (suc n) a b =
    let half : bit_and a b / 2 ≡ bit_and (a / 2) (b / 2) = omega (arith, bit_and-step a b) in
    let half_a : a % 2 ^ suc n / 2 ≡ a / 2 % 2 ^ n = omega (arith, mod-pow-suc n a) in
    let half_b : b % 2 ^ suc n / 2 ≡ b / 2 % 2 ^ n = omega (arith, mod-pow-suc n b) in
    let odd_a : a % 2 ^ suc n % 2 ≡ a % 2 = omega (arith, mod-pow-suc n a) in
    let odd_b : b % 2 ^ suc n % 2 ≡ b % 2 = omega (arith, mod-pow-suc n b) in
    let low : bit_and a b % 2 ≡ min (a % 2) (b % 2) = omega (arith, bit_and-step a b) in
    mod-pow-suc n (bit_and a b)
    ∙ rw (half, low, bit_and-low n (a / 2) (b / 2))
        (sym
          (bit_and-step (a % 2 ^ suc n) (b % 2 ^ suc n) ∙ rw (half_a, half_b, odd_a, odd_b) refl))
