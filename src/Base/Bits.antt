-- ===== src/Base/Bits.antt =====
-- Laws of the native operations on bits, from the digit recursion that defines them, and tests of
-- every number below a bound by evaluation.
use Prim.Native.Nat.{
  ℕ, zero, suc, ◌+◌, ◌-◌, ◌*◌, ◌/◌, ◌%◌, ◌^◌, ◌≤◌, ◌<◌, min, max, bit_and, bit_or, digits, bitwise,
  bit_and-bitwise, bit_or-bitwise,
}
use mathlib.Core.Path.{◌≡◌, refl, ap}
use mathlib.Core.Bool.{Bool, true, ◌&&◌}
use native.Mathlib.Nat.{pow-suc, one-le-pow}
use native.Mathlib.Omega.{arith}

-- Whether a test holds at every number below a bound.
unfoldable pub all_below : (ℕ → Bool) → ℕ → Bool
all_below test zero = true
all_below test (suc n) = all_below test n && test n

pub all_below_sound : (test : ℕ → Bool) {n x : ℕ} → x < n → all_below test n ≡ true → test x ≡ true
unfolding all_below
all_below_sound test {n = zero} below _ = absurd (omega arith)
all_below_sound test {n = suc n} {x = x} below every =
    ground (arith, all_below_sound test {n = n} {x = x})

module _ (z : ℕ → ℕ) (f : ℕ → ℕ → ℕ) where
  -- Any count of digits that reaches the first number will do.
  digits_count : (a b : ℕ) {j k : ℕ} → a ≤ k → a ≤ j → digits z f j a b ≡ digits z f k a b
  digits_count zero b {j = zero} {k = zero} _ _ = refl
  digits_count zero b {j = zero} {k = suc k} _ _ = refl
  digits_count zero b {j = suc j} {k = zero} _ _ = refl
  digits_count zero b {j = suc j} {k = suc k} _ _ = refl
  digits_count (suc a) b {j = zero} _ none_left = absurd (omega arith)
  digits_count (suc a) b {j = suc j} {k = zero} none_left _ = absurd (omega arith)
  digits_count (suc a) b {j = suc j} {k = suc k} few enough =
      ap (λ t. t * 2 + f (suc a % 2) (b % 2))
        (digits_count (suc a / 2) (b / 2) {j = j} {k = k} (omega arith) (omega arith))

  bitwise-suc :
      (n m : ℕ)
      → bitwise z f (suc n) m ≡ f (suc n % 2) (m % 2) + bitwise z f (suc n / 2) (m / 2) * 2
  bitwise-suc n m =
      omega (
        arith,
        digits_count (suc n / 2) (m / 2) {j = n} {k = suc n / 2} (omega arith) (omega arith),
      )

pub bit_or_step : (n m : ℕ) → bit_or n m ≡ bit_or (n / 2) (m / 2) * 2 + max (n % 2) (m % 2)
bit_or_step (suc n) m =
    let whole = bit_or-bitwise (suc n) m in
    let half = bit_or-bitwise (suc n / 2) (m / 2) in
    omega (arith, whole, half, bitwise-suc (λ m. m) max n m)
bit_or_step zero m = omega (arith, bit_or-bitwise 0 m, bit_or-bitwise 0 (m / 2))

pub bit_and_step : (n m : ℕ) → bit_and n m ≡ bit_and (n / 2) (m / 2) * 2 + min (n % 2) (m % 2)
bit_and_step (suc n) m =
    let whole = bit_and-bitwise (suc n) m in
    let half = bit_and-bitwise (suc n / 2) (m / 2) in
    omega (arith, whole, half, bitwise-suc (λ m. zero) min n m)
bit_and_step zero m = omega (arith, bit_and-bitwise 0 m, bit_and-bitwise 0 (m / 2))

and_zero_below : (n a : ℕ) → a ≤ n → bit_and a 0 ≡ 0
and_zero_below zero zero h = omega (arith, bit_and-bitwise 0 0)
and_zero_below zero (suc a) h = absurd (omega arith)
and_zero_below (suc n) zero h = omega (arith, bit_and-bitwise 0 0)
and_zero_below (suc n) (suc a) h =
    omega (arith, bit_and_step (suc a) 0, and_zero_below n (suc a / 2) (omega arith))

pub bit_and-zero : (a : ℕ) → bit_and a 0 ≡ 0
bit_and-zero a = and_zero_below a a (omega arith)

or_zero_below : (n a : ℕ) → a ≤ n → bit_or a 0 ≡ a
or_zero_below zero zero h = omega (arith, bit_or-bitwise 0 0)
or_zero_below zero (suc a) h = absurd (omega arith)
or_zero_below (suc n) zero h = omega (arith, bit_or-bitwise 0 0)
or_zero_below (suc n) (suc a) h =
    omega (arith, bit_or_step (suc a) 0, or_zero_below n (suc a / 2) (omega arith))

pub bit_or-zero : (a : ℕ) → bit_or a 0 ≡ a
bit_or-zero a = or_zero_below a a (omega arith)

-- A mask of enough ones changes nothing.
pub bit_and_ones : (j a : ℕ) → a < 2 ^ j → bit_and a (2 ^ j - 1) ≡ a
bit_and_ones zero a h = omega (arith, bit_and-zero a)
bit_and_ones (suc j) a h =
    let half_mask : (2 ^ suc j - 1) / 2 ≡ 2 ^ j - 1 = omega (arith, pow-suc 2 j, one-le-pow j 2) in
    let odd : (2 ^ suc j - 1) % 2 ≡ 1 = omega (arith, pow-suc 2 j, one-le-pow j 2) in
    omega (
      arith,
      bit_and_step a (2 ^ suc j - 1),
      ap (bit_and (a / 2)) half_mask,
      bit_and_ones j (a / 2) (omega (arith, pow-suc 2 j)),
    )
