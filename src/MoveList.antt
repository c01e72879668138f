-- ===== src/MoveList.antt =====
-- Lists of moves with a code for each, engine/movelist.c: two arrays of `max_points` entries, in
-- falling order of the codes. The codes of tactical results are not negative.
pub mod Sorting
pub mod Contents
pub mod Ends
mod Samples
use gnugo.Base.{ℕ, zero, suc, ◌+◌, ◌-◌, Bool, true, false, ltb, leb, ◌==◌, if◌then◌else◌}

pub record Moves : Type 0 where
  pub points : ℕ → ℕ
  pub codes : ℕ → ℕ

-- a[i] = v
abbrev pub set_entry : (ℕ → ℕ) → ℕ → ℕ → ℕ → ℕ
set_entry a i v j = if i == j then v else a j

-- The loop of movelist_move_known, with `n` entries left from `k` on.
unfoldable pub known_from : ℕ → ℕ → ℕ → Moves → ℕ
known_from zero k move ms = 0
known_from (suc n) k move ms =
    let rest = known_from n (k + 1) move ms in
    if ms.codes k == 0 then 0 else if ms.points k == move then ms.codes k else rest

unfoldable pub movelist_move_known : ℕ → ℕ → Moves → ℕ
movelist_move_known move max_points ms = known_from max_points 0 move ms

unfoldable pub swap_points_and_codes : ℕ → ℕ → Moves → Moves
swap_points_and_codes m n ms = record {
  points = set_entry (set_entry ms.points m (ms.points n)) n (ms.points m);
  codes = set_entry (set_entry ms.codes m (ms.codes n)) n (ms.codes m);
}

-- The local variables of a pass, `new_start` or `new_end`, with the arrays.
abbrev pub Pass : Type 0
Pass = record { moves : Moves; last : ℕ }

-- `for (k = end; k > start; k--)`, with `n` turns left: `k` is `start + n`.
unfoldable pub down_pass : ℕ → ℕ → Pass → Pass
down_pass zero start pass = pass
down_pass (suc n) start pass =
    let k = start + suc n in
    let ms = pass.moves in
    down_pass n start (
      if ltb (ms.codes (k - 1)) (ms.codes k)
      then record { moves = swap_points_and_codes k (k - 1) ms; last = k }
      else pass)

-- `for (k = start; k < end - 1; k++)`, with `n` turns left.
unfoldable pub up_pass : ℕ → ℕ → Pass → Pass
up_pass zero k pass = pass
up_pass (suc n) k pass =
    let ms = pass.moves in
    up_pass n (k + 1) (
      if ltb (ms.codes k) (ms.codes (k + 1))
      then record { moves = swap_points_and_codes k (k + 1) ms; last = k }
      else pass)

-- The outer loop. Each turn moves `start` on, so `end - start` turns are enough.
unfoldable pub sort_loop : ℕ → ℕ → ℕ → Moves → Moves
sort_loop zero start end ms = ms
sort_loop (suc fuel) start end ms =
    let down = down_pass (end - start) start (record { moves = ms; last = end }) in
    let start' = down.last in
    let up = up_pass (end - 1 - start') start' (record { moves = down.moves; last = start' }) in
    elim (ltb start end) [ true ↦ sort_loop fuel start' up.last up.moves | false ↦ ms ]

unfoldable pub movelist_sort_points : ℕ → Moves → Moves
movelist_sort_points max_points ms = sort_loop max_points 0 (max_points - 1) ms

-- The index of a move in `points`, or the number of entries.
unfoldable pub index_from : ℕ → ℕ → ℕ → Moves → ℕ
index_from zero k move ms = k
index_from (suc n) k move ms =
    let rest = index_from n (k + 1) move ms in if ms.points k == move then k else rest

unfoldable pub movelist_change_point : ℕ → ℕ → ℕ → Moves → Moves
movelist_change_point move code max_points ms =
    let k = index_from max_points 0 move ms in
    let last = max_points - 1 in
    let raised : Moves = record ms { codes = set_entry ms.codes k code } in
    let added : Moves = record {
      points = set_entry ms.points last move;
      codes = set_entry ms.codes last code;
    } in
    if ltb k max_points
    then (if leb (ms.codes k) code then ms else movelist_sort_points max_points raised)
    else if ltb (ms.codes last) code
    then movelist_sort_points max_points added
    else ms
