-- ===== src/Random/Samples.antt =====
-- The generator seeded by 1.
use gnugo.Base.{◌+◌, ◌≡◌, refl, false}
use gnugo.Random.{RandState, words, m, twist, temper, seed_words, gg_srand, next_rand, gg_urand}
use gnugo.Random.Sequence.{sequence, drawn, gg_urand-sequence}

abbrev fresh : RandState
fresh = record { x = λ i. 0; k = 0; rand_initialized = false }

gg_urand-sequence_example :
    let x = seed_words words 0 1 fresh.x in
    ((gg_urand (drawn 3 (gg_srand 1 fresh))).0 ≡ temper (sequence x (3 + words)))
    × (sequence x (3 + words) ≡ twist (sequence x (3 + m)) (sequence x 3))
gg_urand-sequence_example = gg_urand-sequence 1 3 fresh

-- A generator that was not seeded draws the same number as one that was seeded by 1.
silent : (gg_urand fresh).0 ≡ (gg_urand (gg_srand 1 fresh)).0
unfolding gg_urand next_rand gg_srand
silent = refl
