-- ===== src/Rotation.antt =====
-- The eight symmetries of the board: rotate1 of engine/board.c on points, rotate and inv_rotate of
-- utils/gg_utils.c on coordinates. Their assertions are hypotheses of the theorems about them.
pub mod Inverse
mod Samples
use gnugo.Base.{ℕ, ◌+◌, ◌-◌, ◌==◌, if◌then◌else◌}
use gnugo.Point.{to_pos, row, column, pass_move}

-- `board_size` is the size of the board.
unfoldable pub rotate1 : ℕ → ℕ → ℕ → ℕ
rotate1 board_size pos rot =
    let bs = board_size - 1 in
    let i = row pos in
    let j = column pos in
    if pos == pass_move
    then pass_move
    else if rot == 0
    then pos
    else if rot == 1
    then to_pos (bs - j) i
    else if rot == 2
    then to_pos (bs - i) (bs - j)
    else if rot == 3
    then to_pos j (bs - i)
    else if rot == 4
    then to_pos j i
    else if rot == 5
    then to_pos (bs - i) j
    else if rot == 6
    then to_pos (bs - j) (bs - i)
    else if rot == 7
    then to_pos i (bs - j)
    else pass_move

-- `*ri` and `*rj`, for a point on the board; the pass, (-1, -1), stays itself.
unfoldable pub rotate : ℕ → ℕ → ℕ → ℕ → ℕ × ℕ
rotate i j bs rot =
    let bs1 = bs - 1 in
    if rot == 0
    then (i, j)
    else if rot == 1
    then (bs1 - j, i)
    else if rot == 2
    then (bs1 - i, bs1 - j)
    else if rot == 3
    then (j, bs1 - i)
    else if rot == 4
    then (j, i)
    else if rot == 5
    then (bs1 - i, j)
    else if rot == 6
    then (bs1 - j, bs1 - i)
    else (i, bs1 - j)

unfoldable pub inv_rotate : ℕ → ℕ → ℕ → ℕ → ℕ × ℕ
inv_rotate i j bs rot =
    if rot == 1 then rotate i j bs 3 else if rot == 3 then rotate i j bs 1 else rotate i j bs rot
