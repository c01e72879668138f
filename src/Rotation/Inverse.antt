-- ===== src/Rotation/Inverse.antt =====
-- The symmetries are undone by inv_rotate, and agree on points and on coordinates.
use gnugo.Base.{ℕ, ◌≤◌, ◌<◌, ◌≡◌, arith, ◌==◌, false}
use gnugo.Point.{to_pos, row, column, max_board, pass_move}
use gnugo.Rotation.{rotate1, rotate, inv_rotate}

-- The coordinates of a point are the ones that it is made of.
pub row-to_pos : (i j : ℕ) → j < max_board → row (to_pos i j) ≡ i
row-to_pos i j h = omega (arith, h)

pub column-to_pos : (i j : ℕ) → j < max_board → column (to_pos i j) ≡ j
column-to_pos i j h = omega (arith, h)

pair : {a b c d : ℕ} → a ≡ c → b ≡ d → ◌≡◌ {A = ℕ × ℕ} (a, b) (c, d)
pair p q t = (p t, q t)

-- inv_rotate undoes rotate, for each symmetry, on the coordinates of a board of size `bs`.
pub inv_rotate-rotate :
    (i j bs rot : ℕ)
    → i < bs
    → j < bs
    → rot < 8
    → inv_rotate (rotate i j bs rot).0 (rotate i j bs rot).1 bs rot ≡ (i, j)
unfolding rotate inv_rotate
inv_rotate-rotate i j bs rot in_i in_j r = pair (ground arith) (ground arith)

-- rotate1 does to a point of a board of size `bs`, which is at most MAX_BOARD, what rotate does to
-- its coordinates.
pub rotate1-to_pos :
    (i j bs rot : ℕ)
    → i < bs
    → j < bs
    → bs ≤ max_board
    → rot < 8
    → rotate1 bs (to_pos i j) rot ≡ to_pos (rotate i j bs rot).0 (rotate i j bs rot).1
unfolding rotate1 rotate
rotate1-to_pos i j bs rot in_i in_j size r =
    let apart : (to_pos i j == pass_move) ≡ false = ground arith in
    rw (apart, row-to_pos i j (omega arith), column-to_pos i j (omega arith)) (ground arith)
