-- ===== src/Dfa/Product/Unseen.antt =====
-- How many pairs of states are not in the test array yet: the measure of do_sync_product.
use gnugo.Base.{
  ℕ, zero, suc, ◌+◌, ◌*◌, ◌≤◌, ◌<◌, ◌≡◌, ◌≢◌, ◌⊎◌, inl, inr, arith, ◌==◌, if◌then◌else◌, Bool-cases,
  ==→≡, ==→≢,
}
use gnugo.Dfa.Product.{TestArray, get_from_test_array}

abbrev absent : TestArray → ℕ → ℕ → ℕ
absent t l r = if get_from_test_array t l r == 0 then 1 else 0

-- Of the pairs of `l` with the states before `n`.
unseen_row : TestArray → ℕ → ℕ → ℕ
unseen_row t l zero = 0
unseen_row t l (suc n) = absent t l n + unseen_row t l n

pub unseen : TestArray → ℕ → ℕ → ℕ
unfolding unseen_row
unseen t zero n = 0
unseen t (suc m) n = unseen_row t m n + unseen t m n

Eq-cases : (a b : ℕ) → (a ≡ b) ⊎ (a ≢ b)
Eq-cases a b = elim (Bool-cases (a == b)) [ inl e ↦ inl (==→≡ a b e) | inr e ↦ inr (==→≢ a b e) ]

unseen_row_le : (t : TestArray) (l n : ℕ) → unseen_row t l n ≤ n
unfolding unseen_row
unseen_row_le t l zero = omega arith
unseen_row_le t l (suc n) = ground (arith, unseen_row_le t l n)

pub unseen_le : (t : TestArray) (m n : ℕ) → unseen t m n ≤ m * n
unfolding unseen
unseen_le t zero n = omega arith
unseen_le t (suc m) n = omega (arith, unseen_row_le t m n, unseen_le t m n)

module _ (t t' : TestArray)
    (keeps : (l r : ℕ) → get_from_test_array t l r ≢ 0 → get_from_test_array t' l r ≢ 0) where
  absent_anti : (l r : ℕ) → absent t' l r ≤ absent t l r
  absent_anti l r = ground (arith, keeps l r)

  unseen_row_anti : (l n : ℕ) → unseen_row t' l n ≤ unseen_row t l n
  unfolding unseen_row
  unseen_row_anti l zero = omega arith
  unseen_row_anti l (suc n) = omega (arith, absent_anti l n, unseen_row_anti l n)

  pub unseen_anti : (m n : ℕ) → unseen t' m n ≤ unseen t m n
  unfolding unseen
  unseen_anti zero n = omega arith
  unseen_anti (suc m) n = omega (arith, unseen_row_anti m n, unseen_anti m n)

  module _ (l r : ℕ) (old : get_from_test_array t l r ≡ 0)
      (new : get_from_test_array t' l r ≢ 0) where
    absent_falls : absent t' l r < absent t l r
    absent_falls = ground (arith, old, new)

    unseen_row_falls : (n : ℕ) → r < n → unseen_row t' l n < unseen_row t l n
    unfolding unseen_row
    unseen_row_falls zero h = absurd (omega arith)
    unseen_row_falls (suc n) h = elim (Eq-cases r n) [
      | inl e ↦ rw (← e) (omega (arith, absent_falls, unseen_row_anti l r))
      | inr e ↦ omega (arith, absent_anti l n, unseen_row_falls n (omega (arith, e)))
    ]

    -- A pair that is added is no longer counted.
    pub unseen_falls : (m n : ℕ) → l < m → r < n → unseen t' m n < unseen t m n
    unfolding unseen
    unseen_falls zero n h k = absurd (omega arith)
    unseen_falls (suc m) n h k = elim (Eq-cases l m) [
      | inl e ↦ rw (← e) (omega (arith, unseen_row_falls n k, unseen_anti l n))
      | inr e ↦ omega (arith, unseen_row_anti m n, unseen_falls m n (omega (arith, e)) k)
    ]
