-- ===== src/Board/Position/Pending.antt =====
-- Counting the points that a test holds for.
use gnugo.Base.{
  ℕ, zero, suc, ◌+◌, ◌≤◌, ◌<◌, ◌≡◌, Bool, true, false, if◌then◌else◌, ◌==◌, arith, Bool-cases, inl,
  inr,
}

-- The number of points below `n` that pass the test.
unfoldable pub tally : ℕ → (ℕ → Bool) → ℕ
tally zero test = 0
tally (suc n) test = tally n test + (if test n then 1 else 0)

pub tally_le_bound : (n : ℕ) (test : ℕ → Bool) → tally n test ≤ n
unfolding tally
tally_le_bound zero test = omega arith
tally_le_bound (suc n) test = ground (arith, tally_le_bound n test)

pub tally_le :
    (n : ℕ) (test test' : ℕ → Bool)
    → ((q : ℕ) → test' q ≡ true → test q ≡ true)
    → tally n test' ≤ tally n test
unfolding tally
tally_le zero test test' less = omega arith
tally_le (suc n) test test' less = elim (Bool-cases (test' n)) [
  | inl is ↦ rw (is, less n is) (omega (arith, tally_le n test test' less))
  | inr not ↦ rw not (ground (arith, tally_le n test test' less))
]

pub tally_lt :
    (n : ℕ) (test test' : ℕ → Bool) (p : ℕ)
    → ((q : ℕ) → test' q ≡ true → test q ≡ true)
    → p < n
    → test p ≡ true
    → test' p ≡ false
    → tally n test' < tally n test
unfolding tally
tally_lt zero test test' p less low is not = absurd (omega (arith, low))
tally_lt (suc n) test test' p less low is not = elim (Bool-cases (p == n)) [
  | inl last ↦
      let same : p ≡ n = ground (arith, last) in
      rw⁻¹ same (rw (is, not) (omega (arith, tally_le p test test' less)))
  | inr before ↦
      let rest = tally_lt n test test' p less (ground (arith, low, before)) is not in
      elim (Bool-cases (test' n)) [
        | inl here ↦ rw (here, less n here) (omega (arith, rest))
        | inr none ↦ rw none (ground (arith, rest))
      ]
]
