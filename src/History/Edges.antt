-- ===== src/History/Edges.antt =====
-- The edges and the corners of a board that clear_board of engine/board.c has made.
use gnugo.Base.{
  ℕ, ◌+◌, ◌-◌, ◌/◌, ◌%◌, ◌≤◌, ◌<◌, ◌≡◌, refl, Bool, true, false, ◌&&◌, ◌||◌, not, leb, ltb, ◌==◌,
  arith, Bool-cases, inl, inr,
}
use gnugo.Point.{max_board, board_length, row, column, south, west, north, east}
use gnugo.Board.Legality.{on_board}
use gnugo.Board.Position.Keeps.{rebuild_strings-Keeps}
use gnugo.Board.Edges.{
  south_west, north_east, is_edge_vertex, is_corner_vertex, line_distance, edge_distance,
}
use gnugo.History.{Game, position_of, set_board, new_position}
use gnugo.History.Storage.{in_square, bare_board, recalc_hash, clear_board}

board-clear_board :
    (g : Game) (q : ℕ)
    → q < board_length
    → on_board q (position_of (clear_board g)) ≡ in_square g.board_size q
unfolding clear_board recalc_hash set_board new_position bare_board
board-clear_board g q low =
    let inside : ltb q board_length ≡ true = ground (arith, low) in
    rw ((rebuild_strings-Keeps _).points, inside) (ground arith)

-- A point in the rows and columns of a board.
pub record Inside (size pos : ℕ) : Type 0 where
  pub supported : size ≤ max_board
  pub low_row : 1 ≤ pos / (max_board + 1)
  pub high_row : pos / (max_board + 1) ≤ size
  pub low_column : 1 ≤ pos % (max_board + 1)
  pub high_column : pos % (max_board + 1) ≤ size

module _ (size pos : ℕ) (at : Inside size pos) where
  low_pos : pos < 400
  low_pos = omega (arith, at.supported, at.high_row)

  south_west_lem :
      in_square size (south_west pos)
      ≡ (ltb (pos / (max_board + 1)) size && leb 2 (pos % (max_board + 1)))
  unfolding in_square
  south_west_lem =
      let r : (pos + 20 - 1) / 20 ≡ pos / 20 + 1 = omega (arith, at.low_column) in
      let c : (pos + 20 - 1) % 20 ≡ pos % 20 - 1 = omega (arith, at.low_column) in
      rw (r, c) (ground (arith, at.low_row, at.high_row, at.low_column, at.high_column))

  north_east_lem :
      in_square size (north_east pos)
      ≡ (leb 2 (pos / (max_board + 1)) && ltb (pos % (max_board + 1)) size)
  unfolding in_square
  north_east_lem = elim (Bool-cases (pos % 20 == 19)) [
    | inl last ↦
        let c : (pos - 20 + 1) % 20 ≡ 0 = ground (arith, last, at.low_row) in
        rw c (ground (arith, last, at.supported))
    | inr more ↦
        let r : (pos - 20 + 1) / 20 ≡ pos / 20 - 1 = ground (arith, more, at.low_row) in
        let c : (pos - 20 + 1) % 20 ≡ pos % 20 + 1 = ground (arith, more, at.low_row) in
        rw (r, c) (ground (arith, at.low_row, at.high_row, at.low_column, at.high_column))
  ]

  west_lem : in_square size (west pos) ≡ leb 2 (pos % (max_board + 1))
  unfolding in_square
  west_lem =
      let r : (pos - 1) / 20 ≡ pos / 20 = omega (arith, at.low_column) in
      let c : (pos - 1) % 20 ≡ pos % 20 - 1 = omega (arith, at.low_column) in
      rw (r, c) (ground (arith, at.low_row, at.high_row, at.low_column, at.high_column))

  east_lem : in_square size (east pos) ≡ ltb (pos % (max_board + 1)) size
  unfolding in_square
  east_lem = elim (Bool-cases (pos % 20 == 19)) [
    | inl last ↦
        let c : (pos + 1) % 20 ≡ 0 = ground (arith, last) in
        rw c (ground (arith, last, at.supported))
    | inr more ↦
        let r : (pos + 1) / 20 ≡ pos / 20 = ground (arith, more) in
        let c : (pos + 1) % 20 ≡ pos % 20 + 1 = ground (arith, more) in
        rw (r, c) (ground (arith, at.low_row, at.high_row, at.low_column, at.high_column))
  ]

  south_lem : in_square size (south pos) ≡ ltb (pos / (max_board + 1)) size
  unfolding in_square
  south_lem =
      let r : (pos + 20) / 20 ≡ pos / 20 + 1 = omega arith in
      let c : (pos + 20) % 20 ≡ pos % 20 = omega arith in
      rw (r, c) (ground (arith, at.low_row, at.high_row, at.low_column, at.high_column))

  north_lem : in_square size (north pos) ≡ leb 2 (pos / (max_board + 1))
  unfolding in_square
  north_lem =
      let r : (pos - 20) / 20 ≡ pos / 20 - 1 = omega (arith, at.low_row) in
      let c : (pos - 20) % 20 ≡ pos % 20 = omega (arith, at.low_row) in
      rw (r, c) (ground (arith, at.low_row, at.high_row, at.low_column, at.high_column))

  -- The first and the last line have the distance 0.
  line_distance_lem :
      (k : ℕ)
      → 1 ≤ k
      → k ≤ size
      → (line_distance size (k - 1) == 0) ≡ (not (leb 2 k) || not (ltb k size))
  unfolding line_distance
  line_distance_lem k some most = ground (arith, some, most)

  edge_distance_lem :
      (edge_distance size pos == 0)
      ≡ (line_distance size (row pos) == 0 || line_distance size (column pos) == 0)
  unfolding edge_distance
  edge_distance_lem = ground arith

edge_law :
    (up down left right : Bool)
    → (not (down && left) || not (up && right)) ≡ ((not up || not down) || (not left || not right))
edge_law true true left right = refl
edge_law true false left right = refl
edge_law false true true right = refl
edge_law false true false right = refl
edge_law false false left right = refl

corner_law :
    (up down left right : Bool)
    → ((not left || not right) && (not down || not up))
      ≡ ((not up || not down) && (not left || not right))
corner_law true true true true = refl
corner_law true true true false = refl
corner_law true true false right = refl
corner_law true false true true = refl
corner_law true false true false = refl
corner_law true false false right = refl
corner_law false true true true = refl
corner_law false true true false = refl
corner_law false true false right = refl
corner_law false false true true = refl
corner_law false false true false = refl
corner_law false false false right = refl

-- On a board of at most 19 rows that clear_board has made, a point is an edge vertex exactly when
-- its distance to the edge is 0, and a corner exactly when it is on the first or last row and on the
-- first or last column.
pub is_edge_vertex-edge_distance :
    (g : Game) (pos : ℕ)
    → Inside g.board_size pos
    → let b = position_of (clear_board g) in
      (is_edge_vertex pos b ≡ edge_distance g.board_size pos == 0)
      × (is_corner_vertex pos b ≡ (
          line_distance g.board_size (row pos) == 0
          && line_distance g.board_size (column pos) == 0))
unfolding is_edge_vertex is_corner_vertex
is_edge_vertex-edge_distance g pos at =
    let size = g.board_size in
    let low = low_pos size pos at in
    let rows = line_distance_lem size pos at (pos / (max_board + 1)) at.low_row at.high_row in
    let columns =
      line_distance_lem size pos at (pos % (max_board + 1)) at.low_column at.high_column in
    let on = board-clear_board g in
    (
      rw
          (
            edge_distance_lem size pos at,
            rows,
            columns,
            on (south_west pos) (omega (arith, low)),
            on (north_east pos) (omega (arith, low)),
            south_west_lem size pos at,
            north_east_lem size pos at,
          )
          (edge_law (leb 2 (pos / (max_board + 1))) _ _ _),
      rw
          (
            rows,
            columns,
            on (west pos) (omega (arith, low)),
            on (east pos) (omega (arith, low)),
            on (south pos) (omega (arith, low)),
            on (north pos) (omega (arith, low)),
            west_lem size pos at,
            east_lem size pos at,
            south_lem size pos at,
            north_lem size pos at,
          )
          (corner_law (leb 2 (pos / (max_board + 1))) _ _ _),
    )
