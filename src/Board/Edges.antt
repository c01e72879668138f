-- ===== src/Board/Edges.antt =====
-- Queries of engine/board.c about the edge of the board. Their assertions on the arguments are left
-- to the callers.
use gnugo.Base.{ℕ, ◌+◌, ◌-◌, Bool, ◌&&◌, ◌||◌, not, min}
use gnugo.Point.{ns, row, column, south, west, north, east}
use gnugo.Board.State.{Board}
use gnugo.Board.Legality.{on_board}

-- SW(pos) and NE(pos)
abbrev pub south_west : ℕ → ℕ
south_west pos = pos + ns - 1

abbrev pub north_east : ℕ → ℕ
north_east pos = pos - ns + 1

unfoldable pub is_edge_vertex : ℕ → Board → Bool
is_edge_vertex pos b = not (on_board (south_west pos) b) || not (on_board (north_east pos) b)

unfoldable pub is_corner_vertex : ℕ → Board → Bool
is_corner_vertex pos b =
    (not (on_board (west pos) b) || not (on_board (east pos) b))
    && (not (on_board (south pos) b) || not (on_board (north pos) b))

-- The distance in one direction, on a board of `board_size`.
unfoldable pub line_distance : ℕ → ℕ → ℕ
line_distance board_size i = min i (board_size - 1 - i)

unfoldable pub edge_distance : ℕ → ℕ → ℕ
edge_distance board_size pos =
    min (line_distance board_size (row pos)) (line_distance board_size (column pos))
