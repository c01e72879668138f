-- ===== src/Random.antt =====
-- The pseudo-random numbers of utils/random.c: the generator TT800, on 32-bit unsigned ints.
pub mod Twist
pub mod Sequence
pub mod Bounds
mod Samples
use gnugo.Base.{
  ℕ, zero, suc, ◌+◌, ◌-◌, ◌*◌, ◌/◌, ◌%◌, ◌^◌, Bool, true, false, ◌==◌, if◌then◌else◌, bit_xor,
  bit_and,
}

-- The static variables.
pub record RandState : Type 0 where
  pub x : ℕ → ℕ
  pub k : ℕ
  pub rand_initialized : Bool

-- N and the other parameters.
abbrev pub words : ℕ
words = 25

abbrev pub m : ℕ
m = 7

abbrev pub a : ℕ
a = 0x8ebfd028

abbrev pub b : ℕ
b = 0x2b5b2500

abbrev pub c : ℕ
c = 0xdb8b0000

-- x[i] = v
abbrev pub set_word : (ℕ → ℕ) → ℕ → ℕ → ℕ → ℕ
set_word x i v j = if i == j then v else x j

-- p ^ (w >> 1) ^ ((w & 1) ? a : 0)
unfoldable pub twist : ℕ → ℕ → ℕ
twist p w = bit_xor (bit_xor p (w / 2)) (if w % 2 == 1 then a else 0)

-- The first loop of iterate_tgfsr, with `n` turns left from `i` on, and the second.
unfoldable pub iterate_low : ℕ → ℕ → (ℕ → ℕ) → ℕ → ℕ
iterate_low zero i x = x
iterate_low (suc n) i x = iterate_low n (i + 1) (set_word x i (twist (x (i + m)) (x i)))

unfoldable pub iterate_high : ℕ → ℕ → (ℕ → ℕ) → ℕ → ℕ
iterate_high zero i x = x
iterate_high (suc n) i x = iterate_high n (i + 1) (set_word x i (twist (x (i + m - words)) (x i)))

unfoldable pub iterate_tgfsr : (ℕ → ℕ) → ℕ → ℕ
iterate_tgfsr x = iterate_high m (words - m) (iterate_low (words - m) 0 x)

-- The two lines of next_rand that make a number of a word; `y` is a 32-bit word.
unfoldable pub temper : ℕ → ℕ
temper w =
    let y = bit_xor w (bit_and (w * 2 ^ 7 % 2 ^ 32) b) in
    bit_xor y (bit_and (y * 2 ^ 15 % 2 ^ 32) c)

-- The loop of gg_srand, with `n` turns left from `i` on.
unfoldable pub seed_words : ℕ → ℕ → ℕ → (ℕ → ℕ) → ℕ → ℕ
seed_words zero i seed x = x
seed_words (suc n) i seed x =
    seed_words n (i + 1) ((seed * 1313 + 88897) % 2 ^ 32) (set_word x i seed)

unfoldable pub gg_srand : ℕ → RandState → RandState
gg_srand seed r = record { x = seed_words words 0 seed r.x; k = words - 1; rand_initialized = true }

-- A generator that was not seeded is seeded by 1.
unfoldable pub next_rand : RandState → ℕ × RandState
next_rand r =
    let ready = if r.rand_initialized then r else gg_srand 1 r in
    let full = ready.k + 1 == words in
    let x' = if full then iterate_tgfsr ready.x else ready.x in
    let k' = if full then 0 else ready.k + 1 in (temper (x' k'), record ready { x = x'; k = k' })

unfoldable pub gg_urand : RandState → ℕ × RandState
gg_urand r = next_rand r

unfoldable pub gg_rand : RandState → ℕ × RandState
gg_rand r = let (y, r') = next_rand r in (y % 2 ^ 31, r')

-- struct gg_rand_state
pub record SavedState : Type 0 where
  pub x : ℕ → ℕ
  pub k : ℕ

unfoldable pub gg_get_rand_state : RandState → SavedState
gg_get_rand_state r = record { x = r.x; k = r.k }

unfoldable pub gg_set_rand_state : SavedState → RandState → RandState
gg_set_rand_state state r = record r { x = state.x; k = state.k }
