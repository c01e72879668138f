-- ===== src/Random/Bounds.antt =====
-- Every number of the generator has 32 bits.
use gnugo.Base.{ℕ, zero, suc, ◌+◌, ◌^◌, ◌<◌, ◌==◌, arith, Bool-cases, inl, inr}
use gnugo.Random.{RandState, words, set_word, seed_words, gg_srand}

-- Each word is a 32-bit unsigned int.
abbrev pub AreWords : (ℕ → ℕ) → Type 0
AreWords x = (i : ℕ) → x i < 2 ^ 32

set_word-AreWords : (x : ℕ → ℕ) (i v : ℕ) → AreWords x → v < 2 ^ 32 → AreWords (set_word x i v)
set_word-AreWords x i v words low j = elim (Bool-cases (i == j)) [
  | inl here ↦ rw here low
  | inr other ↦ rw other (words j)
]

seed_words-AreWords :
    (n i seed : ℕ) (x : ℕ → ℕ) → AreWords x → seed < 2 ^ 32 → AreWords (seed_words n i seed x)
unfolding seed_words
seed_words-AreWords zero i seed x all low = all
seed_words-AreWords (suc n) i seed x all low =
    seed_words-AreWords n (i + 1) _ _ (set_word-AreWords x i seed all low) (omega arith)

pub gg_srand-AreWords :
    (seed : ℕ) (r : RandState) → AreWords r.x → seed < 2 ^ 32 → AreWords (gg_srand seed r).x
unfolding gg_srand
gg_srand-AreWords seed r all low = seed_words-AreWords words 0 seed r.x all low
