-- ===== src/Base/Bits.antt =====
-- Single bits of `&`, `|`, `^` and shifted ones, at variables.
use Prim.Native.Nat.{
  ℕ, zero, suc, ◌+◌, ◌*◌, ◌/◌, ◌%◌, ◌^◌, ◌≤◌, ◌<◌, ◌-◌, min, max, digits, bitwise, differ,
}
use Prim.Native.Nat.{bit_and, bit_or, bit_xor, bit_and-bitwise, bit_or-bitwise, bit_xor-bitwise}
use native.Mathlib.Nat.{le_refl, one-le-pow, pow-suc, pow-le-pow_right, div-div-eq-div-mul}
use mathlib.Core.Path.{◌≡◌, refl, ap, ◌∙◌}
use mathlib.Core.Bool.{Bool, true, false, not, ◌&&◌, ◌||◌}
use native.Mathlib.Omega.{arith}
use sparcv8emulator.Base.Tests.{ltb, leb, ◌==◌}

-- `(a >> i) & 1` as a condition.
unfoldable pub testbit : ℕ → ℕ → Bool
testbit a zero = a % 2 == 1
testbit a (suc i) = testbit (a / 2) i

-- The native operations mean `bitwise`, a recursion on binary digits with fuel; the lowest digit
-- splits off with no fuel left to speak of.
module _ (z : ℕ → ℕ) (f : ℕ → ℕ → ℕ) where
  more_fuel : (n m a b : ℕ) → a ≤ n → a ≤ m → digits z f n a b ≡ digits z f m a b
  more_fuel zero zero a b p q = refl
  more_fuel zero (suc m) zero b p q = refl
  more_fuel zero (suc m) (suc a) b p q = absurd (omega arith)
  more_fuel (suc n) zero zero b p q = refl
  more_fuel (suc n) zero (suc a) b p q = absurd (omega arith)
  more_fuel (suc n) (suc m) zero b p q = refl
  more_fuel (suc n) (suc m) (suc a) b p q =
      rw (more_fuel n m (suc a / 2) (b / 2) (omega arith) (omega arith))

  lowest_digit :
      (a b : ℕ)
      → bitwise z f (suc a) b ≡ bitwise z f (suc a / 2) (b / 2) * 2 + f (suc a % 2) (b % 2)
  lowest_digit a b =
      omega (arith, more_fuel a (suc a / 2) (suc a / 2) (b / 2) (omega arith) (le_refl _))

pub bit_or-step : (a b : ℕ) → bit_or a b ≡ bit_or (a / 2) (b / 2) * 2 + max (a % 2) (b % 2)
bit_or-step zero b = simp bit_or-bitwise (omega arith)
bit_or-step (suc a) b = simp bit_or-bitwise (lowest_digit (λ y. y) max a b)

pub bit_and-step : (a b : ℕ) → bit_and a b ≡ bit_and (a / 2) (b / 2) * 2 + min (a % 2) (b % 2)
bit_and-step zero b = simp bit_and-bitwise (omega arith)
bit_and-step (suc a) b = simp bit_and-bitwise (lowest_digit (λ y. 0) min a b)

pub bit_xor-step : (a b : ℕ) → bit_xor a b ≡ bit_xor (a / 2) (b / 2) * 2 + differ (a % 2) (b % 2)
bit_xor-step zero b = simp bit_xor-bitwise (omega arith)
bit_xor-step (suc a) b = simp bit_xor-bitwise (lowest_digit (λ y. y) differ a b)

pub testbit-or : (a b i : ℕ) → testbit (bit_or a b) i ≡ (testbit a i || testbit b i)
unfolding testbit
testbit-or a b zero = ground (arith, bit_or-step a b)
testbit-or a b (suc i) =
    let half : bit_or a b / 2 ≡ bit_or (a / 2) (b / 2) = omega (arith, bit_or-step a b) in
    rw half (testbit-or (a / 2) (b / 2) i)

pub testbit-and : (a b i : ℕ) → testbit (bit_and a b) i ≡ (testbit a i && testbit b i)
unfolding testbit
testbit-and a b zero = ground (arith, bit_and-step a b)
testbit-and a b (suc i) =
    let half : bit_and a b / 2 ≡ bit_and (a / 2) (b / 2) = omega (arith, bit_and-step a b) in
    rw half (testbit-and (a / 2) (b / 2) i)

pub testbit-zero : (i : ℕ) → testbit 0 i ≡ false
unfolding testbit
testbit-zero zero = refl
testbit-zero (suc i) = testbit-zero i

-- `1 << k` has the one bit k.
pub testbit-pow : (k i : ℕ) → testbit (2 ^ k) i ≡ (i == k)
unfolding testbit
testbit-pow zero zero = refl
testbit-pow zero (suc i) = rw (testbit-zero i) (ground arith)
testbit-pow (suc k) zero = ground (arith, pow-suc 2 k)
testbit-pow (suc k) (suc i) =
    let half : 2 ^ suc k / 2 ≡ 2 ^ k = omega (arith, pow-suc 2 k) in
    rw half (testbit-pow k i ∙ ground arith)

-- `~m` in k bits.
pub testbit-complement :
    (k m i : ℕ) → m < 2 ^ k → i < k → testbit (2 ^ k - 1 - m) i ≡ not (testbit m i)
unfolding testbit
testbit-complement zero m i h lt = absurd (omega arith)
testbit-complement (suc k) m zero h lt = ground (arith, pow-suc 2 k)
testbit-complement (suc k) m (suc i) h lt =
    let half : (2 ^ suc k - 1 - m) / 2 ≡ 2 ^ k - 1 - m / 2 = omega (arith, pow-suc 2 k) in
    rw half (testbit-complement k (m / 2) i (omega (arith, pow-suc 2 k)) (omega arith))

-- A shift right and a mask of one bit, in arithmetic.
pub testbit-div : (a i : ℕ) → testbit a i ≡ (a / 2 ^ i % 2 == 1)
unfolding testbit
testbit-div a zero = ground arith
testbit-div a (suc i) =
    testbit-div (a / 2) i
    ∙ ap (λ (t : ℕ). t % 2 == 1)
        (div-div-eq-div-mul a 2 (2 ^ i) ∙ ap (λ (t : ℕ). a / t) (omega (arith, pow-suc 2 i)))

-- No bit stands above a number's width.
pub testbit-above : (k a i : ℕ) → a < 2 ^ k → k ≤ i → testbit a i ≡ false
unfolding testbit
testbit-above zero a i h le = let z : a ≡ 0 = omega arith in rw z (testbit-zero i)
testbit-above (suc k) a zero h le = absurd (omega arith)
testbit-above (suc k) a (suc i) h le =
    testbit-above k (a / 2) i (omega (arith, pow-suc 2 k)) (omega arith)

pow-lt-mod : (i : ℕ) → i < 32 → 2 ^ i < 2 ^ 32
pow-lt-mod i lt =
    omega (arith, pow-suc 2 i, pow-le-pow_right {n = 2} (omega arith) {i = suc i} {j = 32} lt)

-- Bit `i` of a word with its bit `k` cleared by `& ~(1 << k)`.
pub testbit-clear :
    (a k i : ℕ)
    → k < 32
    → i < 32
    → testbit (bit_and a (2 ^ 32 - 1 - 2 ^ k)) i ≡ (testbit a i && not (i == k))
testbit-clear a k i kl il =
    testbit-and a (2 ^ 32 - 1 - 2 ^ k) i
    ∙ ap (λ (b : Bool). testbit a i && b)
        (testbit-complement 32 (2 ^ k) i (pow-lt-mod k kl) il ∙ ap not (testbit-pow k i))

-- The mask of the k lowest bits.
pub testbit-ones : (k i : ℕ) → testbit (2 ^ k - 1) i ≡ ltb i k
unfolding testbit
testbit-ones zero i = testbit-zero i ∙ ground arith
testbit-ones (suc k) zero = ground (arith, pow-suc 2 k, one-le-pow k 2 (omega arith))
testbit-ones (suc k) (suc i) =
    let half : (2 ^ suc k - 1) / 2 ≡ 2 ^ k - 1 = omega (arith, pow-suc 2 k) in
    rw half (testbit-ones k i ∙ ground arith)

twice : (a b : ℕ) → a * (b * 2) ≡ a * b * 2
twice a b = omega arith

-- A shift left by k bits.
pub testbit-shift : (a k i : ℕ) → testbit (a * 2 ^ k) i ≡ (leb k i && testbit a (i - k))
unfolding testbit
testbit-shift a zero i =
    let all : a * 2 ^ 0 ≡ a = omega arith in
    let start : i - 0 ≡ i = omega arith in
    let low : leb 0 i ≡ true = ground arith in rw (all, start, low) refl
testbit-shift a (suc k) zero =
    let even : a * 2 ^ suc k ≡ a * 2 ^ k * 2 =
      ap (λ (t : ℕ). a * t) (pow-suc 2 k) ∙ twice a (2 ^ k) in
    ground (arith, even)
testbit-shift a (suc k) (suc i) =
    let even : a * 2 ^ suc k ≡ a * 2 ^ k * 2 =
      ap (λ (t : ℕ). a * t) (pow-suc 2 k) ∙ twice a (2 ^ k) in
    let half : a * 2 ^ suc k / 2 ≡ a * 2 ^ k = omega (arith, even) in
    let place : suc i - suc k ≡ i - k = omega arith in
    let order : leb (suc k) (suc i) ≡ leb k i = ground arith in
    rw (half, place, order) (testbit-shift a k i)
