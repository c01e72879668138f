-- ===== src/MoveList/Ends.antt =====
-- The loops of movelist_sort_points stay within the arrays, and the outer one ends.
use gnugo.Base.{
  ℕ, zero, suc, ◌+◌, ◌-◌, ◌≤◌, ◌<◌, ◌≡◌, refl, false, ltb, arith, Bool-cases, inl, inr,
}
use gnugo.MoveList.{Moves, Pass, down_pass, up_pass, sort_loop, movelist_sort_points}

-- The last index of a pass to the front, which starts with `last` at the end.
pub down_pass_bounds :
    (n start end : ℕ) (pass : Pass)
    → start + n ≤ end
    → start < pass.last
    → pass.last ≤ end
    → (start < (down_pass n start pass).last) × ((down_pass n start pass).last ≤ end)
unfolding down_pass
down_pass_bounds zero start end pass room low high = (low, high)
down_pass_bounds (suc n) start end pass room low high =
    let ms = pass.moves in
    elim (Bool-cases (ltb (ms.codes (start + suc n - 1)) (ms.codes (start + suc n)))) [
      | inl more ↦
          rw (down_pass, more)
            (down_pass_bounds n start end _ (omega arith) (omega arith) (omega arith))
      | inr less ↦ rw (down_pass, less) (down_pass_bounds n start end pass (omega arith) low high)
    ]

-- That of a pass to the back.
pub up_pass_bounds :
    (n k low high : ℕ) (pass : Pass)
    → k + n ≤ high
    → low ≤ k
    → low ≤ pass.last
    → pass.last ≤ high
    → (low ≤ (up_pass n k pass).last) × ((up_pass n k pass).last ≤ high)
unfolding up_pass
up_pass_bounds zero k low high pass room at_k a b = (a, b)
up_pass_bounds (suc n) k low high pass room at_k a b =
    let ms = pass.moves in
    elim (Bool-cases (ltb (ms.codes k) (ms.codes (k + 1)))) [
      | inl more ↦
          rw (up_pass, more)
            (up_pass_bounds n (k + 1) low high _ (omega arith) (omega arith) at_k (omega arith))
      | inr less ↦
          rw (up_pass, less)
            (up_pass_bounds n (k + 1) low high pass (omega arith) (omega arith) a b)
    ]

-- A turn leaves less of the array: `start` has moved on, and `end` has not.
pub turn_bounds :
    (start end : ℕ) (ms : Moves)
    → start < end
    → let down = down_pass (end - start) start (record { moves = ms; last = end }) in
      let up =
        up_pass (end - 1 - down.last) down.last (record { moves = down.moves; last = down.last }) in
      (start < down.last) × (down.last ≤ up.last) × (up.last ≤ end)
turn_bounds start end ms more =
    let first : Pass = record { moves = ms; last = end } in
    let down = down_pass (end - start) start first in
    let (past, low) =
      down_pass_bounds (end - start) start end first (omega arith) more (omega arith) in
    let second : Pass = record { moves = down.moves; last = down.last } in
    let (a, b) =
      up_pass_bounds (end - 1 - down.last) down.last down.last end second (omega (arith, low))
        (omega arith) (omega arith) low in
    (past, a, b)

sort_loop_fuel :
    (fuel extra start end : ℕ) (ms : Moves)
    → end - start ≤ fuel
    → sort_loop (fuel + extra) start end ms ≡ sort_loop fuel start end ms
unfolding sort_loop
sort_loop_fuel zero zero start end ms enough = refl
sort_loop_fuel zero (suc extra) start end ms enough =
    let count : 0 + suc extra ≡ suc extra = omega arith in
    let done : ltb start end ≡ false = ground (arith, enough) in rw (count, sort_loop, done) refl
sort_loop_fuel (suc fuel) extra start end ms enough =
    let count : suc fuel + extra ≡ suc (fuel + extra) = omega arith in
    let down = down_pass (end - start) start (record { moves = ms; last = end }) in
    let up =
      up_pass (end - 1 - down.last) down.last (record { moves = down.moves; last = down.last }) in
    elim (Bool-cases (ltb start end)) [
      | inr done ↦ rw (count, sort_loop, done) refl
      | inl more ↦
          let (past, a, b) = turn_bounds start end ms (ground (arith, more)) in
          rw (count, sort_loop, more)
            (sort_loop_fuel fuel extra down.last up.last up.moves
              (omega (arith, enough, past, a, b)))
    ]

-- `max_points` turns of the outer loop are enough: more change nothing.
pub movelist_sort_points_fuel :
    (max_points extra : ℕ) (ms : Moves)
    → sort_loop (max_points + extra) 0 (max_points - 1) ms ≡ movelist_sort_points max_points ms
unfolding movelist_sort_points
movelist_sort_points_fuel max_points extra ms =
    sort_loop_fuel max_points extra 0 (max_points - 1) ms (omega arith)
