-- ===== src/MoveList/Contents.antt =====
-- movelist_sort_points loses no entry and makes no new one, on any arrays.
use gnugo.Base.{
  ℕ, zero, suc, ◌+◌, ◌-◌, ◌≤◌, ◌<◌, ◌≡◌, refl, sym, ap, ◌∙◌, true, false, ◌&&◌, ltb, ◌==◌, fun_ext,
  ==→≡, subst, if◌then◌else◌, arith, Bool-cases, inl, inr,
}
use gnugo.MoveList.Ends.{turn_bounds}
use gnugo.MoveList.{
  Moves, Pass, set_entry, swap_points_and_codes, down_pass, up_pass, sort_loop,
  movelist_sort_points,
}

-- Whether an entry is for a move and a code, as a number.
unfoldable pub is_for : ℕ → ℕ → ℕ → ℕ → ℕ
is_for move code point c = if point == move && c == code then 1 else 0

-- How often a move stands with a code among the first `n` entries.
unfoldable pub occurrences : ℕ → ℕ → ℕ → Moves → ℕ
occurrences move code zero ms = 0
occurrences move code (suc n) ms =
    occurrences move code n ms + is_for move code (ms.points n) (ms.codes n)

swap_symm :
    (k : ℕ) (ms : Moves) → swap_points_and_codes (k + 1) k ms ≡ swap_points_and_codes k (k + 1) ms
unfolding swap_points_and_codes
swap_symm k ms =
    let points : (λ j.
      set_entry (set_entry ms.points (k + 1) (ms.points k)) k (ms.points (k + 1)) j)
        ≡ (λ j. set_entry (set_entry ms.points k (ms.points (k + 1))) (k + 1) (ms.points k) j) =
      fun_ext (λ j. ground arith) in
    let codes : (λ j. set_entry (set_entry ms.codes (k + 1) (ms.codes k)) k (ms.codes (k + 1)) j)
        ≡ (λ j. set_entry (set_entry ms.codes k (ms.codes (k + 1))) (k + 1) (ms.codes k) j) =
      fun_ext (λ j. ground arith) in
    λ t. record { points = points t; codes = codes t }

module _ (move code : ℕ) where
  -- A swap behind the entries that are counted.
  swap_behind :
      (n i j : ℕ) (ms : Moves)
      → n ≤ i
      → n ≤ j
      → occurrences move code n (swap_points_and_codes i j ms) ≡ occurrences move code n ms
  unfolding occurrences swap_points_and_codes
  swap_behind zero i j ms a b = refl
  swap_behind (suc n) i j ms a b =
      let not_i : (i == n) ≡ false = ground (arith, a) in
      let not_j : (j == n) ≡ false = ground (arith, b) in
      let rest = swap_behind n i j ms (omega (arith, a)) (omega (arith, b)) in
      rw (not_i, not_j) (ap (λ o. o + is_for move code (ms.points n) (ms.codes n)) rest)

  swap_last :
      (n : ℕ) (ms : Moves)
      → occurrences move code (suc (suc n)) (swap_points_and_codes n (n + 1) ms)
        ≡ occurrences move code (suc (suc n)) ms
  unfolding occurrences swap_points_and_codes
  swap_last n ms =
      let next : n + 1 ≡ suc n = omega arith in
      let same : (n == n) ≡ true = ground arith in
      let same_next : (suc n == suc n) ≡ true = ground arith in
      let apart : (suc n == n) ≡ false = ground arith in
      let behind = swap_behind n n (suc n) ms (omega arith) (omega arith) in
      rw (next, same, same_next, apart) (omega (arith, behind))

  -- A swap of two neighbors among them.
  swap_within :
      (n k : ℕ) (ms : Moves)
      → k + 1 < n
      → occurrences move code n (swap_points_and_codes k (k + 1) ms) ≡ occurrences move code n ms
  unfolding occurrences swap_points_and_codes
  swap_within zero k ms room = absurd (omega (arith, room))
  swap_within (suc zero) k ms room = absurd (omega (arith, room))
  swap_within (suc (suc n)) k ms room = elim (Bool-cases (k == n)) [
    | inr before ↦
        let not_k : (k == suc n) ≡ false = ground (arith, room) in
        let not_next : (k + 1 == suc n) ≡ false = ground (arith, before) in
        let rest = swap_within (suc n) k ms (ground (arith, before, room)) in
        rw (not_k, not_next)
          (ap (λ o. o + is_for move code (ms.points (suc n)) (ms.codes (suc n))) rest)
    | inl here ↦
        subst
          (λ x.
            occurrences move code (suc (suc n)) (swap_points_and_codes x (x + 1) ms)
            ≡ occurrences move code (suc (suc n)) ms)
          (sym (==→≡ k n here)) (swap_last n ms)
  ]

  module _ (size : ℕ) where
    occurrences-down_pass :
        (n start : ℕ) (pass : Pass)
        → start + n < size
        → occurrences move code size (down_pass n start pass).moves
          ≡ occurrences move code size pass.moves
    unfolding down_pass
    occurrences-down_pass zero start pass room = refl
    occurrences-down_pass (suc n) start pass room =
        let ms = pass.moves in
        let place : start + suc n ≡ start + n + 1 = omega arith in
        let before : start + n + 1 - 1 ≡ start + n = omega arith in
        elim (Bool-cases (ltb (ms.codes (start + n)) (ms.codes (start + n + 1)))) [
          | inr less ↦
              rw (down_pass, place, before, less) (occurrences-down_pass n start pass (omega arith))
          | inl more ↦
              rw (down_pass, place, before, more)
                (occurrences-down_pass n start _ (omega arith)
                  ∙ ap (occurrences move code size) (swap_symm (start + n) ms)
                  ∙ swap_within size (start + n) ms (omega arith))
        ]

    occurrences-up_pass :
        (n k : ℕ) (pass : Pass)
        → k + n < size
        → occurrences move code size (up_pass n k pass).moves
          ≡ occurrences move code size pass.moves
    unfolding up_pass
    occurrences-up_pass zero k pass room = refl
    occurrences-up_pass (suc n) k pass room =
        let ms = pass.moves in
        elim (Bool-cases (ltb (ms.codes k) (ms.codes (k + 1)))) [
          | inr less ↦ rw (up_pass, less) (occurrences-up_pass n (k + 1) pass (omega arith))
          | inl more ↦
              rw (up_pass, more)
                (occurrences-up_pass n (k + 1) _ (omega arith)
                  ∙ swap_within size k ms (omega arith))
        ]

    occurrences-sort_loop :
        (fuel start end : ℕ) (ms : Moves)
        → end < size
        → occurrences move code size (sort_loop fuel start end ms) ≡ occurrences move code size ms
    unfolding sort_loop
    occurrences-sort_loop zero start end ms room = refl
    occurrences-sort_loop (suc fuel) start end ms room =
        let first : Pass = record { moves = ms; last = end } in
        let down = down_pass (end - start) start first in
        let second : Pass = record { moves = down.moves; last = down.last } in
        let up = up_pass (end - 1 - down.last) down.last second in
        elim (Bool-cases (ltb start end)) [
          | inr done ↦ rw (sort_loop, done) refl
          | inl more ↦
              let (past, a, b) = turn_bounds start end ms (ground (arith, more)) in
              rw (sort_loop, more)
                (occurrences-sort_loop fuel down.last up.last up.moves (omega (arith, b, room))
                  ∙ occurrences-up_pass (end - 1 - down.last) down.last second
                      (omega (arith, a, b, room))
                  ∙ occurrences-down_pass (end - start) start first (ground (arith, more, room)))
        ]

-- On arrays with room for a first entry, sorting keeps how often each move stands with each code.
pub occurrences-movelist_sort_points :
    (move code max_points : ℕ) (ms : Moves)
    → 0 < max_points
    → occurrences move code max_points (movelist_sort_points max_points ms)
      ≡ occurrences move code max_points ms
unfolding movelist_sort_points
occurrences-movelist_sort_points move code max_points ms some_room =
    occurrences-sort_loop move code max_points max_points 0 (max_points - 1) ms (omega arith)
