-- ===== src/Random/Twist.antt =====
-- What iterate_tgfsr does to each word.
use gnugo.Base.{ℕ, zero, suc, ◌+◌, ◌-◌, ◌≤◌, ◌<◌, ◌≡◌, ◌∙◌, ltb, leb, if◌then◌else◌, arith}
use gnugo.Random.{words, m, twist, iterate_low, iterate_high, iterate_tgfsr}

-- The first loop looks ahead, at words that are still the old ones.
iterate_low_lem :
    (n i j : ℕ) (x : ℕ → ℕ)
    → iterate_low n i x j
      ≡ (if leb i j then (if ltb j (i + n) then twist (x (j + m)) (x j) else x j) else x j)
unfolding iterate_low
iterate_low_lem zero i j x = ground arith
iterate_low_lem (suc n) i j x = iterate_low_lem n (i + 1) j _ ∙ (ground arith)

-- The second one looks back, at words that are new.
iterate_high_lem :
    (n i j : ℕ) (x : ℕ → ℕ)
    → words - m ≤ i
    → i + n ≤ words
    → iterate_high n i x j
      ≡ (if leb i j then (if ltb j (i + n) then twist (x (j + m - words)) (x j) else x j) else x j)
unfolding iterate_high
iterate_high_lem zero i j x low room = ground arith
iterate_high_lem (suc n) i j x low room =
    iterate_high_lem n (i + 1) j _ (omega arith) (omega arith) ∙ (ground arith)

-- The words of the new state: the recurrence of the generator, for the words that have their
-- partner in the old state, and for those that have it in the new one.
pub iterate_tgfsr_low :
    (i : ℕ) (x : ℕ → ℕ) → i < words - m → iterate_tgfsr x i ≡ twist (x (i + m)) (x i)
unfolding iterate_tgfsr
iterate_tgfsr_low i x low =
    let second =
      iterate_high_lem m (words - m) i (iterate_low (words - m) 0 x) (omega arith) (omega arith) in
    let first = iterate_low_lem (words - m) 0 i x in ground (arith, first, second)

pub iterate_tgfsr_high :
    (i : ℕ) (x : ℕ → ℕ)
    → words - m ≤ i
    → i < words
    → iterate_tgfsr x i ≡ twist (iterate_tgfsr x (i + m - words)) (x i)
unfolding iterate_tgfsr
iterate_tgfsr_high i x low high =
    let base = iterate_low (words - m) 0 x in
    let second = iterate_high_lem m (words - m) i base (omega arith) (omega arith) in
    let partner = iterate_high_lem m (words - m) (i + m - words) base (omega arith) (omega arith) in
    let first = iterate_low_lem (words - m) 0 i x in ground (arith, first, second, partner)
