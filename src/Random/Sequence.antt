-- ===== src/Random/Sequence.antt =====
-- The generator puts out the sequence of its recurrence.
use gnugo.Base.{
  ℕ, zero, suc, ◌+◌, ◌-◌, ◌/◌, ◌%◌, ◌≡◌, refl, sym, true, ◌==◌, ltb, arith, Bool-cases, inl, inr,
}
use gnugo.Random.{
  RandState, words, m, twist, iterate_tgfsr, temper, seed_words, gg_srand, next_rand, gg_urand,
}
use gnugo.Random.Twist.{iterate_tgfsr_low, iterate_tgfsr_high}

-- The words of the generator after `n` iterations.
unfoldable pub iterations : ℕ → (ℕ → ℕ) → ℕ → ℕ
iterations zero x = x
iterations (suc n) x = iterate_tgfsr (iterations n x)

-- The sequence of words that begins with the state `x`.
unfoldable pub sequence : (ℕ → ℕ) → ℕ → ℕ
sequence x n = iterations (n / words) x (n % words)

-- It obeys the recurrence of the twisted generator: each word is made of the ones 25 and 18 places
-- before it.
sequence_recurrence :
    (x : ℕ → ℕ) (n : ℕ) → sequence x (n + words) ≡ twist (sequence x (n + m)) (sequence x n)
unfolding sequence iterations
sequence_recurrence x n =
    let q = n / words in
    let r = n % words in
    let next : (n + words) / words ≡ suc q = omega arith in
    let same : (n + words) % words ≡ r = omega arith in
    elim (Bool-cases (ltb r (words - m))) [
      | inl low ↦
          let q_m : (n + m) / words ≡ q = ground (arith, low) in
          let r_m : (n + m) % words ≡ r + m = ground (arith, low) in
          rw (next, same, q_m, r_m) (iterate_tgfsr_low r (iterations q x) (ground (arith, low)))
      | inr high ↦
          let q_m : (n + m) / words ≡ suc q = ground (arith, high) in
          let r_m : (n + m) % words ≡ r + m - words = ground (arith, high) in
          rw (next, same, q_m, r_m)
            (iterate_tgfsr_high r (iterations q x) (ground (arith, high)) (omega arith))
    ]

-- The state after `n` numbers.
unfoldable pub drawn : ℕ → RandState → RandState
drawn zero r = r
drawn (suc n) r = (gg_urand (drawn n r)).1

-- Where the generator stands when `n` numbers have been drawn.
record StandsAt (x : ℕ → ℕ) (n : ℕ) (r : RandState) : Type 0 where
  pub state : r.x ≡ iterations ((n + 24) / words) x
  pub index : r.k ≡ (n + 24) % words
  pub ready : r.rand_initialized ≡ true

-- The next number, and where it leaves the generator.
next_rand-StandsAt :
    (x : ℕ → ℕ) (n : ℕ) (r : RandState)
    → StandsAt x n r
    → ((next_rand r).0 ≡ temper (sequence x (n + words))) × StandsAt x (suc n) (next_rand r).1
unfolding next_rand sequence iterations
next_rand-StandsAt x n r at = elim (Bool-cases (r.k + 1 == words)) [
  | inl full ↦
      let next : (n + words) / words ≡ suc ((n + 24) / words) = ground (arith, full, at.index) in
      let first : (n + words) % words ≡ 0 = ground (arith, full, at.index) in
      let next' : (suc n + 24) / words ≡ suc ((n + 24) / words) = omega (arith, next) in
      let first' : (suc n + 24) % words ≡ 0 = omega (arith, first) in
      rw (at.ready, full, next, first, at.state)
        (refl, record { state = rw next' refl; index = sym first'; ready = refl })
  | inr more ↦
      let same : (n + words) / words ≡ (n + 24) / words = ground (arith, more, at.index) in
      let later : (n + words) % words ≡ r.k + 1 = ground (arith, more, at.index) in
      let same' : (suc n + 24) / words ≡ (n + 24) / words = omega (arith, same) in
      let later' : (suc n + 24) % words ≡ r.k + 1 = omega (arith, later) in
      rw (at.ready, more, same, later, at.state)
        (refl, record { state = rw same' refl; index = sym later'; ready = refl })
]

drawn-StandsAt :
    (seed n : ℕ) (r : RandState)
    → StandsAt (seed_words words 0 seed r.x) n (drawn n (gg_srand seed r))
unfolding drawn gg_srand gg_urand iterations
drawn-StandsAt seed zero r = record { state = refl; index = refl; ready = refl }
drawn-StandsAt seed (suc n) r =
    (next_rand-StandsAt (seed_words words 0 seed r.x) n _ (drawn-StandsAt seed n r)).1

-- Number `n` after seeding is made of word `25 + n` of the sequence that begins with the seed's words,
-- and this word obeys the recurrence of the twisted generator: it is made of the ones 25 and 18
-- places before it.
pub gg_urand-sequence :
    (seed n : ℕ) (r : RandState)
    → let x = seed_words words 0 seed r.x in
      ((gg_urand (drawn n (gg_srand seed r))).0 ≡ temper (sequence x (n + words)))
      × (sequence x (n + words) ≡ twist (sequence x (n + m)) (sequence x n))
unfolding gg_urand
gg_urand-sequence seed n r =
    let x = seed_words words 0 seed r.x in
    ((next_rand-StandsAt x n _ (drawn-StandsAt seed n r)).0, sequence_recurrence x n)
