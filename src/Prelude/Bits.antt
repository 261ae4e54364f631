-- ===== src/Prelude/Bits.antt =====
-- Laws of `|` and `&` at variables: two halves of a word joined, and a mask of ones, at any width.
use Prim.Native.Nat.{
  ℕ, zero, suc, ◌+◌, ◌-◌, ◌*◌, ◌/◌, ◌%◌, ◌^◌, ◌≤◌, ◌<◌, min, max, bit_and, bit_or, bitwise, digits,
  bit_and-bitwise, bit_or-bitwise,
}
use mathlib.Core.Path.{◌≡◌, refl, ap}
use native.Mathlib.Nat.{le_refl, pow-suc}
use native.Mathlib.Omega.{arith}

module _ (z : ℕ → ℕ) (f : ℕ → ℕ → ℕ) where
  digits_more : (n m a b : ℕ) → a ≤ n → a ≤ m → digits z f n a b ≡ digits z f m a b
  digits_more zero zero a b p q = refl
  digits_more zero (suc m) zero b p q = refl
  digits_more (suc n) zero zero b p q = refl
  digits_more (suc n) (suc m) zero b p q = refl
  digits_more zero (suc m) (suc a) b p q = absurd (omega arith)
  digits_more (suc n) zero (suc a) b p q = absurd (omega arith)
  digits_more (suc n) (suc m) (suc a) b p q =
      ap (λ d. d * 2 + f (suc a % 2) (b % 2))
        (digits_more n m (suc a / 2) (b / 2) (omega arith) (omega arith))

  lowest_digit :
      (a b : ℕ)
      → bitwise z f (suc a) b ≡ bitwise z f (suc a / 2) (b / 2) * 2 + f (suc a % 2) (b % 2)
  lowest_digit a b =
      ap (λ d. d * 2 + f (suc a % 2) (b % 2))
        (digits_more a (suc a / 2) (suc a / 2) (b / 2) (omega arith) (le_refl _))

or_digit : (a b : ℕ) → bit_or a b ≡ bit_or (a / 2) (b / 2) * 2 + max (a % 2) (b % 2)
or_digit zero b = rw (bit_or-bitwise 0 b, bit_or-bitwise 0 (b / 2)) (omega arith)
or_digit (suc a) b =
    rw (bit_or-bitwise (suc a) b, bit_or-bitwise (suc a / 2) (b / 2))
      (lowest_digit (λ y. y) max a b)

and_digit : (a b : ℕ) → bit_and a b ≡ bit_and (a / 2) (b / 2) * 2 + min (a % 2) (b % 2)
and_digit zero b = rw (bit_and-bitwise 0 b, bit_and-bitwise 0 (b / 2)) (omega arith)
and_digit (suc a) b =
    rw (bit_and-bitwise (suc a) b, bit_and-bitwise (suc a / 2) (b / 2))
      (lowest_digit (λ y. 0) min a b)

zero-bit_or : (b : ℕ) → bit_or 0 b ≡ b
zero-bit_or b = bit_or-bitwise 0 b

or_even : (a h : ℕ) → bit_or a (h * 2) ≡ bit_or (a / 2) h * 2 + a % 2
or_even a h =
    let half : h * 2 / 2 ≡ h = omega arith in
    omega (arith, or_digit a (h * 2), ap (λ (t : ℕ). bit_or (a / 2) t) half)

and_odd : (a h : ℕ) → bit_and a (h * 2 + 1) ≡ bit_and (a / 2) h * 2 + a % 2
and_odd a h =
    let half : (h * 2 + 1) / 2 ≡ h = omega arith in
    omega (arith, and_digit a (h * 2 + 1), ap (λ (t : ℕ). bit_and (a / 2) t) half)

-- A low half below 2 ^ k and a high half shifted by k share no bit, so `|` adds them.
pub bit_or-shifted : (k a b : ℕ) → a < 2 ^ k → bit_or a (b * 2 ^ k) ≡ a + b * 2 ^ k
bit_or-shifted zero a b h =
    let none_low : a ≡ 0 = omega arith in rw none_low (omega (arith, zero-bit_or (b * 2 ^ 0)))
bit_or-shifted (suc k) a b h =
    let twice : b * 2 ^ suc k ≡ b * 2 ^ k * 2 =
      omega (arith, ap (λ (t : ℕ). b * t) (pow-suc 2 k)) in
    rw twice (
      omega (arith, or_even a (b * 2 ^ k), bit_or-shifted k (a / 2) b (omega (arith, pow-suc 2 k))))

and-zero_below : (n a : ℕ) → a ≤ n → bit_and a 0 ≡ 0
and-zero_below n zero h = bit_and-bitwise 0 0
and-zero_below zero (suc a) h = absurd (omega arith)
and-zero_below (suc n) (suc a) h =
    omega (arith, and_digit (suc a) 0, and-zero_below n (suc a / 2) (omega arith))

pow_pos : (k : ℕ) → 0 < 2 ^ k
pow_pos zero = omega arith
pow_pos (suc k) = omega (arith, pow-suc 2 k, pow_pos k)

mod_double : (a m : ℕ) → a % (m * 2) ≡ a / 2 % m * 2 + a % 2
mod_double a m = grind arith

-- `&` with k ones keeps the k lowest bits.
pub bit_and_mask : (k a : ℕ) → bit_and a (2 ^ k - 1) ≡ a % 2 ^ k
bit_and_mask zero a = omega (arith, and-zero_below a a)
bit_and_mask (suc k) a =
    let twice : 2 ^ suc k ≡ 2 ^ k * 2 = pow-suc 2 k in
    let mask : 2 ^ suc k - 1 ≡ (2 ^ k - 1) * 2 + 1 = omega (arith, twice, pow_pos k) in
    rw mask (rw twice (rw (and_odd, bit_and_mask k, mod_double)))
