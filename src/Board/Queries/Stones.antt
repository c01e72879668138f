-- ===== src/Board/Queries/Stones.antt =====
-- findstones gives the stones of a string in the order of their links, and count_adjacent_stones
-- stays within its limits.
use gnugo.Base.{
  ℕ, zero, suc, ◌+◌, ◌≤◌, ◌≡◌, refl, ap, ◌∙◌, List, [], ◌∷◌, ltb, min, take, length, arith,
  Bool-cases, inl, inr, if◌then◌else◌,
}
use gnugo.Board.State.{Board, number_at, next_of, origin_of, size_of}
use gnugo.Board.Capture.{neighbor_of_string}
use gnugo.Board.Walks.{Links}
use gnugo.Board.Queries.{
  collect_stones, findstones, count_beside, count_adjacent_stones, countstones,
}

take-collect :
    (n first pos : ℕ) (stones : List ℕ) (b : Board)
    → Links b first pos stones
    → n ≤ length stones + 1
    → collect_stones n pos b ≡ take n (pos ∷ stones)
unfolding collect_stones Links
take-collect zero first pos stones b l few = refl
take-collect (suc zero) first pos stones b l few = refl
take-collect (suc (suc n)) first pos [] b l few = absurd (omega (arith, few))
take-collect (suc (suc n)) first pos (q ∷ qs) b (next, other, rest) few =
    ap (λ xs. pos ∷ xs)
      (ap (λ p. collect_stones (suc n) p b) next
        ∙ take-collect (suc n) first q qs b rest (omega (arith, few)))

take-min : (n : ℕ) (xs : List ℕ) → take (min n (length xs)) xs ≡ take n xs
take-min zero xs =
    let none_left : min 0 (length xs) ≡ 0 = omega arith in ap (λ k. take k xs) none_left
take-min (suc n) [] =
    let none_left : min (suc n) 0 ≡ 0 = omega arith in ap (λ k. take {A = ℕ} k []) none_left
take-min (suc n) (x ∷ xs) =
    let one_less : min (suc n) (suc (length xs)) ≡ suc (min n (length xs)) = omega arith in
    ap (λ k. take k (x ∷ xs)) one_less ∙ ap (λ ys. x ∷ ys) (take-min n xs)

-- Where the links of a string lead from its first stone through `stones` and back, and its size
-- counts them, findstones gives the size, and the first stones of the string in this order, as many
-- as there is room for.
pub findstones_lem :
    (str maxstones : ℕ) (stones : List ℕ) (b : Board)
    → let s = number_at str b in
      Links b (origin_of s b) (origin_of s b) stones
      → size_of s b ≡ length stones + 1
      → findstones str maxstones b ≡ (length stones + 1, take maxstones (origin_of s b ∷ stones))
unfolding findstones
findstones_lem str maxstones stones b links size =
    let first = origin_of (number_at str b) b in
    let n = min maxstones (length stones + 1) in
    let same : n ≡ min maxstones (suc (length stones)) = omega arith in
    rw size (
      ap (λ xs. (length stones + 1, xs))
        (take-collect n first first stones b links (omega arith)
          ∙ ap (λ k. take k (first ∷ stones)) same
          ∙ take-min maxstones (first ∷ stones)))

beside_bounds :
    (n pos s2 color maxstones count : ℕ) (b : Board)
    → count ≤ maxstones
    → let total = count_beside n pos s2 color maxstones count b in
      (total ≤ maxstones) × (total ≤ count + n)
unfolding count_beside
beside_bounds zero pos s2 color maxstones count b low = (low, omega arith)
beside_bounds (suc n) pos s2 color maxstones count b low = elim (Bool-cases (ltb count maxstones)) [
  | inl more ↦
      let next = if neighbor_of_string pos s2 color b then count + 1 else count in
      let small : next ≤ count + 1 = ground arith in
      let within : next ≤ maxstones = ground (arith, more) in
      let (a, c) = beside_bounds n (next_of pos b) s2 color maxstones next b within in
      rw (more, count_beside) (a, omega (arith, c, small))
  | inr full ↦ rw (full, count_beside) (low, omega arith)
]

-- The result of count_adjacent_stones is bounded by the limit that it gets, and by the size of the
-- first string.
pub count_adjacent_stones_le :
    (str1 str2 maxstones : ℕ) (b : Board)
    → let total = count_adjacent_stones str1 str2 maxstones b in
      (total ≤ maxstones) × (total ≤ countstones str1 b)
unfolding count_adjacent_stones countstones
count_adjacent_stones_le str1 str2 maxstones b =
    let size = size_of (number_at str1 b) b in
    let (a, c) =
      beside_bounds size (origin_of (number_at str1 b) b) (number_at str2 b) (b.board str2)
        maxstones 0 b (omega arith) in
    (a, omega (arith, c))
