-- ===== src/MoveList/Samples.antt =====
-- A list of three moves.
use gnugo.Base.{ℕ, ◌+◌, ◌-◌, ◌≡◌, inl, refl, if◌then◌else◌, ◌==◌, arith}
use gnugo.MoveList.{
  Moves, known_from, movelist_move_known, swap_points_and_codes, down_pass, up_pass, sort_loop,
  movelist_sort_points, index_from, movelist_change_point,
}
use gnugo.MoveList.Sorting.{IsFalling, movelist_change_point-IsFalling}
use gnugo.MoveList.Contents.{occurrences, occurrences-movelist_sort_points}
use gnugo.MoveList.Ends.{movelist_sort_points_fuel}

abbrev entries : ℕ → ℕ → ℕ → ℕ → ℕ
entries a b c k = if k == 0 then a else if k == 1 then b else if k == 2 then c else 0

-- The moves 50, 60 and 70 with the codes 5, 4 and 3.
abbrev three : Moves
three = record { points = entries 50 60 70; codes = entries 5 4 3 }

three-IsFalling : IsFalling 3 three
three-IsFalling = record { falls = λ i room. ground arith }

movelist_change_point-IsFalling_example : IsFalling 3 (movelist_change_point 80 4 3 three)
unfolding index_from
movelist_change_point-IsFalling_example =
    movelist_change_point-IsFalling 80 4 3 three (omega arith) (inl (omega arith)) three-IsFalling

occurrences-movelist_sort_points_example :
    occurrences 50 1 3
      (movelist_sort_points 3 (record { points = entries 50 60 70; codes = entries 1 4 3 }))
    ≡ occurrences 50 1 3 (record { points = entries 50 60 70; codes = entries 1 4 3 })
occurrences-movelist_sort_points_example =
    occurrences-movelist_sort_points 50 1 3
      (record { points = entries 50 60 70; codes = entries 1 4 3 }) (omega arith)

movelist_sort_points_fuel_example : sort_loop (3 + 2) 0 (3 - 1) three ≡ movelist_sort_points 3 three
movelist_sort_points_fuel_example = movelist_sort_points_fuel 3 2 three

-- A new move of code 4 takes the place of the one of code 3, behind the other of code 4.
takes_last : (movelist_change_point 80 4 3 three).points 2 ≡ 80
unfolding movelist_change_point movelist_sort_points sort_loop down_pass up_pass
    swap_points_and_codes index_from
takes_last = refl

-- A lower code for a known move is entered; a greater one is not.
lowered : movelist_move_known 60 3 (movelist_change_point 60 1 3 three) ≡ 1
unfolding movelist_change_point movelist_sort_points sort_loop down_pass up_pass
    swap_points_and_codes index_from movelist_move_known known_from
lowered = refl

not_raised : movelist_move_known 60 3 (movelist_change_point 60 5 3 three) ≡ 4
unfolding movelist_change_point index_from movelist_move_known known_from
not_raised = refl

-- The codes 1, 4, 3 are left as 4, 1, 3.
not_sorted : (movelist_change_point 50 1 3 three).codes 2 ≡ 3
unfolding movelist_change_point movelist_sort_points sort_loop down_pass up_pass
    swap_points_and_codes index_from
not_sorted = refl

not_sorted_before : (movelist_change_point 50 1 3 three).codes 1 ≡ 1
unfolding movelist_change_point movelist_sort_points sort_loop down_pass up_pass
    swap_points_and_codes index_from
not_sorted_before = refl
