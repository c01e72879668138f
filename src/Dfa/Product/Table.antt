-- ===== src/Dfa/Product/Table.antt =====
-- The test array as a map from pairs of states to states.
use gnugo.Base.{
  ℕ, ◌+◌, ◌%◌, ◌<◌, ◌≡◌, inl, inr, refl, arith, true, false, ◌&&◌, ◌==◌, if◌then◌else◌, Bool-cases,
  ==→≡, List, [], ◌∷◌,
}
use gnugo.Dfa.{done, put}
use gnugo.Dfa.Attributes.{put-same}
use gnugo.Dfa.Product.{
  Entry, TestArray, max_hash_value, new_test_array, last_match, get_from_entry_list,
  get_from_test_array, add_to_entry_list, add_to_test_array,
}

-- The assert of add_to_entry_list keeps 0 out.
abbrev pub Positive : List Entry → Type 0
Positive [] = 0 < 1
Positive (e ∷ es) = (0 < e.val) × Positive es

abbrev pub IsPositive : TestArray → Type 0
IsPositive t = (h : ℕ) → Positive (t h)

last_match_pos : (es : List Entry) (l r v : ℕ) → Positive es → 0 < v → 0 < last_match es l r v
unfolding last_match
last_match_pos [] l r v p h = h
last_match_pos (e ∷ es) l r v (q, p) h =
    last_match_pos es l r (if e.l == l && e.r == r then e.val else v) p (ground arith)

-- Without an entry for the pair the value stays.
last_match-absent :
    (es : List Entry) (l r w : ℕ) → Positive es → last_match es l r 0 ≡ 0 → last_match es l r w ≡ w
unfolding last_match
last_match-absent [] l r w p h = refl
last_match-absent (e ∷ es) l r w (q, p) h = elim (Bool-cases (e.l == l && e.r == r)) [
  | inl found ↦ absurd (omega (arith, last_match_pos es l r e.val p q, rw found at h))
  | inr other ↦ rw other (last_match-absent es l r w p (rw other at h))
]

skip :
    (e : Entry) (es : List Entry) (l r v : ℕ)
    → (e.l == l && e.r == r) ≡ false
    → last_match (e ∷ es) l r v ≡ last_match es l r v
unfolding last_match
skip e es l r v h = rw h refl

==-refl : (n : ℕ) → (n == n) ≡ true
==-refl n = ground arith

pub get-new_test_array : (l r : ℕ) → get_from_test_array new_test_array l r ≡ 0
unfolding get_from_test_array new_test_array get_from_entry_list last_match
get-new_test_array l r = refl

pub IsPositive-new_test_array : IsPositive new_test_array
unfolding new_test_array
IsPositive-new_test_array h = omega arith

-- One more pair is in the table.
pub record Added (t t' : TestArray) (l r val : ℕ) : Type 0 where
  pub positive : IsPositive t'
  pub here : get_from_test_array t' l r ≡ val
  pub others :
      (m s : ℕ)
      → ((l == m && r == s) ≡ false)
      → get_from_test_array t' m s ≡ get_from_test_array t m s

pub add_to_test_array_lem :
    (t : TestArray) (l r val : ℕ)
    → IsPositive t
    → 0 < val
    → get_from_test_array t l r ≡ 0
    → (t' : TestArray) × (add_to_test_array t l r val ≡ done t') × Added t t' l r val
unfolding add_to_test_array add_to_entry_list get_from_test_array get_from_entry_list last_match
add_to_test_array_lem t l r val p h absent =
    let b = (l + r) % max_hash_value in
    let e : Entry = record { l = l; r = r; val = val } in
    (
      put t b (e ∷ t b),
      rw absent (ground arith),
      record {
        positive = λ k. elim (Bool-cases (k == b)) [ inl e ↦ rw e (h, p b) | inr e ↦ rw e (p k) ];
        here =
            rw put-same
              (simp (==-refl l, ==-refl r) (last_match-absent (t b) l r val (p b) absent));
        others = λ m s differ. elim (Bool-cases ((m + s) % max_hash_value == b)) [
          | inl same ↦ rw (same, ==→≡ _ b same) (skip e (t b) m s 0 differ)
          | inr other ↦ rw other refl
        ];
      },
    )
