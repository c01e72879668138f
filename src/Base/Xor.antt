-- ===== src/Base/Xor.antt =====
-- Laws of the exclusive or of native numbers, at every width.
use Prim.Native.Nat.{ℕ, zero, suc, ◌+◌, ◌*◌, ◌/◌, ◌%◌, ◌^◌, ◌≤◌, ◌<◌, bit_xor, bit_xor-bitwise}
use Prim.Native.Nat.{digits, differ}
use mathlib.Core.Path.{◌≡◌, refl, sym, ◌∙◌}
use native.Mathlib.Omega.{arith}

differ_small : (x y : ℕ) → x < 2 → y < 2 → differ x y ≡ (x + y) % 2
differ_small zero y p q = omega arith
differ_small (suc zero) zero p q = refl
differ_small (suc zero) (suc zero) p q = refl
differ_small (suc zero) (suc (suc y)) p q = absurd (omega arith)
differ_small (suc (suc x)) y p q = absurd (omega arith)

differ_bits : (a b : ℕ) → differ (a % 2) (b % 2) ≡ (a + b) % 2
differ_bits a b = omega (arith, differ_small (a % 2) (b % 2) (omega arith) (omega arith))

bits_fuel :
    (n m a b : ℕ) → a ≤ n → a ≤ m → digits (λ y. y) differ n a b ≡ digits (λ y. y) differ m a b
bits_fuel zero zero a b p q = refl
bits_fuel zero (suc m) zero b p q = refl
bits_fuel zero (suc m) (suc a) b p q = absurd (omega arith)
bits_fuel (suc n) zero zero b p q = refl
bits_fuel (suc n) zero (suc a) b p q = absurd (omega arith)
bits_fuel (suc n) (suc m) zero b p q = refl
bits_fuel (suc n) (suc m) (suc a) b p q =
    omega (arith, bits_fuel n m (suc a / 2) (b / 2) (omega arith) (omega arith))

pub zero-bit_xor : (b : ℕ) → bit_xor 0 b ≡ b
zero-bit_xor b = bit_xor-bitwise 0 b

-- The digit recursion, with no fuel.
bit_xor_step : (a b : ℕ) → bit_xor a b ≡ bit_xor (a / 2) (b / 2) * 2 + (a + b) % 2
bit_xor_step zero b = omega (arith, zero-bit_xor b, zero-bit_xor (b / 2))
bit_xor_step (suc a) b = omega (
  arith,
  bit_xor-bitwise (suc a) b,
  bit_xor-bitwise (suc a / 2) (b / 2),
  differ_bits (suc a) b,
  bits_fuel a (suc a / 2) (suc a / 2) (b / 2) (omega arith) (omega arith),
)

xor_comm_fuel : (n a b : ℕ) → a ≤ n → b ≤ n → bit_xor a b ≡ bit_xor b a
xor_comm_fuel zero zero zero p q = refl
xor_comm_fuel zero zero (suc b) p q = absurd (omega arith)
xor_comm_fuel zero (suc a) b p q = absurd (omega arith)
xor_comm_fuel (suc n) a b p q = omega (
  arith,
  bit_xor_step a b,
  bit_xor_step b a,
  xor_comm_fuel n (a / 2) (b / 2) (omega arith) (omega arith),
)

pub xor_comm : (a b : ℕ) → bit_xor a b ≡ bit_xor b a
xor_comm a b = xor_comm_fuel (a + b) a b (omega arith) (omega arith)

pub bit_xor-zero : (a : ℕ) → bit_xor a 0 ≡ a
bit_xor-zero a = omega (arith, xor_comm a 0, zero-bit_xor a)

xor_self_fuel : (n a : ℕ) → a ≤ n → bit_xor a a ≡ 0
xor_self_fuel zero zero p = refl
xor_self_fuel zero (suc a) p = absurd (omega arith)
xor_self_fuel (suc n) a p = omega (arith, bit_xor_step a a, xor_self_fuel n (a / 2) (omega arith))

pub xor_self : (a : ℕ) → bit_xor a a ≡ 0
xor_self a = xor_self_fuel a a (omega arith)

-- The lowest digit and the rest of an exclusive or.
xor_half : (a b : ℕ) → bit_xor a b / 2 ≡ bit_xor (a / 2) (b / 2)
xor_half a b = omega (arith, bit_xor_step a b)

xor_parity : (a b : ℕ) → bit_xor a b % 2 ≡ (a + b) % 2
xor_parity a b = omega (arith, bit_xor_step a b)

xor_assoc_fuel :
    (n a b c : ℕ) → a ≤ n → b ≤ n → c ≤ n → bit_xor (bit_xor a b) c ≡ bit_xor a (bit_xor b c)
xor_assoc_fuel zero zero b c p q r = let e = zero-bit_xor (bit_xor b c) in rw (zero-bit_xor b, e)
xor_assoc_fuel zero (suc a) b c p q r = absurd (omega arith)
xor_assoc_fuel (suc n) a b c p q r =
    let left = xor_half a b in
    let right = xor_half b c in
    let ih = xor_assoc_fuel n (a / 2) (b / 2) (c / 2) (omega arith) (omega arith) (omega arith) in
    let upper : bit_xor (bit_xor a b / 2) (c / 2) ≡ bit_xor (a / 2) (bit_xor b c / 2) =
      rw (left, right) ih in
    omega (
      arith,
      upper,
      bit_xor_step (bit_xor a b) c,
      bit_xor_step a (bit_xor b c),
      xor_parity a b,
      xor_parity b c,
    )

pub xor_assoc : (a b c : ℕ) → bit_xor (bit_xor a b) c ≡ bit_xor a (bit_xor b c)
xor_assoc a b c = xor_assoc_fuel (a + b + c) a b c (omega arith) (omega arith) (omega arith)

-- Inverting twice by the same word changes nothing.
pub xor_cancel : (a b : ℕ) → bit_xor (bit_xor a b) b ≡ a
xor_cancel a b = xor_assoc a b b ∙ (rw xor_self (bit_xor-zero a))

-- Two inversions commute.
pub xor_right_comm : (a b c : ℕ) → bit_xor (bit_xor a b) c ≡ bit_xor (bit_xor a c) b
xor_right_comm a b c = xor_assoc a b c ∙ (rw (xor_comm b c) (sym (xor_assoc a c b)))

-- The exclusive or of two numbers of at most `k` digits has no more.
xor_lt_weight :
    (k a b : ℕ) (weight : ℕ → ℕ)
    → weight 0 ≡ 1
    → ((j : ℕ) → weight (suc j) ≡ weight j * 2)
    → a < weight k
    → b < weight k
    → bit_xor a b < weight k
xor_lt_weight zero zero zero weight one double p q = omega (arith, zero-bit_xor 0, one)
xor_lt_weight zero zero (suc b) weight one double p q = absurd (omega (arith, one, q))
xor_lt_weight zero (suc a) b weight one double p q = absurd (omega (arith, one, p))
xor_lt_weight (suc k) a b weight one double p q = omega (
  arith,
  double k,
  bit_xor_step a b,
  xor_lt_weight k (a / 2) (b / 2) weight one double (omega (arith, double k, p))
      (omega (arith, double k, q)),
)

pub xor_lt : (a b : ℕ) → a < 2 ^ 32 → b < 2 ^ 32 → bit_xor a b < 2 ^ 32
xor_lt a b p q = xor_lt_weight 32 a b (λ k. 2 ^ k) refl (λ j. omega arith) p q
