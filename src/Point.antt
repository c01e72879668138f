-- ===== src/Point.antt =====
-- The one-dimensional board of engine/board.h: a point is an index into `board`, a row has
-- MAX_BOARD + 1 = 20 entries, and the indices off the board hold GRAY.
use gnugo.Base.{ℕ, ◌+◌, ◌-◌, ◌*◌, ◌/◌, ◌%◌, Bool, ◌||◌, ◌==◌}

abbrev pub max_board : ℕ
max_board = 19

-- BOARDSIZE
abbrev pub board_length : ℕ
board_length = (max_board + 2) * (max_board + 1) + 1

abbrev pub board_min : ℕ
board_min = max_board + 2

abbrev pub board_max : ℕ
board_max = (max_board + 1) * (max_board + 1)

-- NS
abbrev pub ns : ℕ
ns = max_board + 1

abbrev pub pass_move : ℕ
pass_move = 0

abbrev pub no_move : ℕ
no_move = pass_move

-- POS(i, j)
abbrev pub to_pos : ℕ → ℕ → ℕ
to_pos i j = (max_board + 2) + i * (max_board + 1) + j

-- I(pos) and J(pos), for points of the board; on the row and the column around it C gives -1, and
-- these give 0.
abbrev pub row : ℕ → ℕ
row pos = pos / (max_board + 1) - 1

abbrev pub column : ℕ → ℕ
column pos = pos % (max_board + 1) - 1

abbrev pub south : ℕ → ℕ
south pos = pos + ns

abbrev pub west : ℕ → ℕ
west pos = pos - 1

abbrev pub north : ℕ → ℕ
north pos = pos - ns

abbrev pub east : ℕ → ℕ
east pos = pos + 1

-- DIAGONAL_NEIGHBORS(pos1, pos2), over SW, NW, NE and SE.
abbrev pub diagonal_neighbors : ℕ → ℕ → Bool
diagonal_neighbors pos1 pos2 =
    pos1 == pos2 + ns - 1 || pos1 == pos2 - ns - 1 || pos1 == pos2 - ns + 1 || pos1 == pos2 + ns + 1

-- The first four entries of `delta`: SOUTH, WEST, NORTH, EAST.
pub data Direction : Type 0 where
  to_south to_west to_north to_east : Direction

abbrev pub step : Direction → ℕ → ℕ
step to_south pos = south pos
step to_west pos = west pos
step to_north pos = north pos
step to_east pos = east pos

-- A statement on all four directions.
pub every :
    (P : Direction → Type 0)
    → P to_south
    → P to_west
    → P to_north
    → P to_east
    → (d : Direction) → P d
every P s w n e to_south = s
every P s w n e to_west = w
every P s w n e to_north = n
every P s w n e to_east = e
