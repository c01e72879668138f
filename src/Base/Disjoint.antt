-- ===== src/Base/Disjoint.antt =====
-- The inclusive or of fields of binary digits that do not overlap.
use Prim.Native.Nat.{
  ℕ, zero, suc, ◌+◌, ◌*◌, ◌/◌, ◌%◌, ◌≤◌, ◌<◌, max, bit_or, bit_or-bitwise, digits,
}
use mathlib.Core.Path.{◌≡◌, refl, ap}
use native.Mathlib.Omega.{arith}

or_fuel : (n m a b : ℕ) → a ≤ n → a ≤ m → digits (λ y. y) max n a b ≡ digits (λ y. y) max m a b
or_fuel zero zero a b p q = refl
or_fuel zero (suc m) zero b p q = refl
or_fuel zero (suc m) (suc a) b p q = absurd (omega arith)
or_fuel (suc n) zero zero b p q = refl
or_fuel (suc n) zero (suc a) b p q = absurd (omega arith)
or_fuel (suc n) (suc m) zero b p q = refl
or_fuel (suc n) (suc m) (suc a) b p q =
    omega (arith, or_fuel n m (suc a / 2) (b / 2) (omega arith) (omega arith))

zero-bit_or : (b : ℕ) → bit_or 0 b ≡ b
zero-bit_or b = bit_or-bitwise 0 b

bit_or_step : (a b : ℕ) → bit_or a b ≡ bit_or (a / 2) (b / 2) * 2 + max (a % 2) (b % 2)
bit_or_step zero b = omega (arith, zero-bit_or b, zero-bit_or (b / 2))
bit_or_step (suc a) b = omega (
  arith,
  bit_or-bitwise (suc a) b,
  bit_or-bitwise (suc a / 2) (b / 2),
  or_fuel a (suc a / 2) (suc a / 2) (b / 2) (omega arith) (omega arith),
)

bit_or-zero_fuel : (n a : ℕ) → a ≤ n → bit_or a 0 ≡ a
bit_or-zero_fuel zero zero p = zero-bit_or 0
bit_or-zero_fuel zero (suc a) p = absurd (omega arith)
bit_or-zero_fuel (suc n) a p =
    omega (arith, bit_or_step a 0, bit_or-zero_fuel n (a / 2) (omega arith))

bit_or_even : (a b : ℕ) → bit_or (a * 2) b ≡ bit_or a (b / 2) * 2 + b % 2
bit_or_even a b =
    let half : a * 2 / 2 ≡ a = omega arith in
    omega (arith, bit_or_step (a * 2) b, ap (λ h. bit_or h (b / 2)) half)

-- A shift to the left, by `k` digits.
unfoldable pub shifted : ℕ → ℕ → ℕ
shifted zero x = x
shifted (suc k) x = shifted k x * 2

pub bit_or-shifted : (k x b : ℕ) → b < shifted k 1 → bit_or (shifted k x) b ≡ shifted k x + b
unfolding shifted
bit_or-shifted zero x zero low = omega (arith, bit_or-zero_fuel x x (omega arith))
bit_or-shifted zero x (suc b) low = absurd (omega arith)
bit_or-shifted (suc k) x b low =
    omega (arith, bit_or_even (shifted k x) b, bit_or-shifted k x (b / 2) (omega (arith, low)))
