-- ===== src/Base/And.antt =====
-- The conjunction of binary digits.
use Prim.Native.Nat.{ℕ, zero, suc, ◌/◌, ◌≤◌, min, bit_and, bit_and-bitwise, digits}
use native.Mathlib.Omega.{arith}

digits_le : (n a b : ℕ) → digits (λ y. zero) min n a b ≤ b
digits_le zero a b = omega arith
digits_le (suc n) zero b = omega arith
digits_le (suc n) (suc a) b = omega (arith, digits_le n (suc a / 2) (b / 2))

-- It is at most the second number.
pub bit_and-le : (a b : ℕ) → bit_and a b ≤ b
bit_and-le a b = omega (arith, bit_and-bitwise a b, digits_le a a b)
