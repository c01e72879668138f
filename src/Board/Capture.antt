-- ===== src/Board/Capture.antt =====
-- do_remove_string and do_commit_suicide of engine/board.c.
use gnugo.Base.{ℕ, zero, suc, ◌+◌, Bool, true, false, ◌||◌, ltb, ◌==◌, if◌then◌else◌}
use gnugo.Color.{white, other_color}
use gnugo.Point.{south, west, north, east, step}
use gnugo.Board.Cells.{
  at, at_slot, only, neighbor_list, string_number, string_liberties, next_stone, white_captured,
  black_captured,
}
use gnugo.Board.State.{
  Board, write, push_value, color_of, size_of, origin_of, neighbors_of, number_at, next_of,
  add_liberty, do_remove_stone, string_at_vertex, walk_string, around,
}
use gnugo.Board.Liberties.{update_liberties, remove_neighbor}

-- NEIGHBOR_OF_STRING
unfoldable pub neighbor_of_string : ℕ → ℕ → ℕ → Board → Bool
neighbor_of_string pos s color b =
    string_at_vertex (south pos) s color b
    || string_at_vertex (west pos) s color b
    || string_at_vertex (north pos) s color b
    || string_at_vertex (east pos) s color b

-- One stone comes off, with its string number and its link pushed.
unfoldable pub lift_stone : ℕ → Board → Board
lift_stone pos b =
    do_remove_stone pos (push_value (at next_stone pos) (push_value (at string_number pos) b))

-- The neighbor `t` of a captured stone at `pos`: one liberty is gained.
unfoldable pub free_one : ℕ → ℕ → ℕ → Board → Board
free_one s pos t b = add_liberty t pos (push_value (at string_liberties t) (remove_neighbor t s b))

unfoldable pub add_if_neighbor : ℕ → ℕ → ℕ → Board → Board
add_if_neighbor t pos color b = if neighbor_of_string pos t color b then add_liberty t pos b else b

-- The neighbor `t` of two captured stones.
unfoldable pub free_two : ℕ → ℕ → ℕ → ℕ → ℕ → Board → Board
free_two s other pos pos2 t b =
    let pushed = push_value (at string_liberties t) (remove_neighbor t s b) in
    add_if_neighbor t pos2 other (add_if_neighbor t pos other pushed)

unfoldable pub free_many : ℕ → ℕ → Board → Board
free_many s t b = update_liberties t (remove_neighbor t s b)

-- `for (k = 0; k < string[s].neighbors; k++) body(string_neighbors[s].list[k])`, from `k` on. No
-- body makes the list longer, so its length at the start is enough fuel.
module _ (s : ℕ) (body : ℕ → Board → Board) where
  unfoldable pub each_neighbor : ℕ → ℕ → Board → Board
  each_neighbor zero k b = b
  each_neighbor (suc n) k b = elim (ltb k (neighbors_of s b)) [
    | true ↦ each_neighbor n (k + 1) (body (b.mem (at_slot neighbor_list s k)) b)
    | false ↦ b
  ]

abbrev pub for_neighbors : ℕ → (ℕ → Board → Board) → Board → Board
for_neighbors s body b = each_neighbor s body (neighbors_of s b) 0 b

-- A captured stone counts for its color.
unfoldable pub count_captured : ℕ → ℕ → Board → Board
count_captured color n b =
    if color == white
    then write (only white_captured) (b.mem (only white_captured) + n) b
    else write (only black_captured) (b.mem (only black_captured) + n) b

-- What the neighbors of a removed string gain. The walk has ended at the origin.
unfoldable pub free_neighbors : ℕ → ℕ → Board → Board
free_neighbors s size b =
    let pos = origin_of s b in
    let pos2 = next_of pos b in
    if size == 1
    then for_neighbors s (free_one s pos) b
    else if size == 2
    then for_neighbors s (free_two s (other_color (color_of s b)) pos pos2) b
    else for_neighbors s (free_many s) b

-- The number of removed stones is `size_of s b`.
unfoldable pub do_remove_string : ℕ → Board → Board
do_remove_string s b =
    let size = size_of s b in
    let freed = free_neighbors s size (walk_string s lift_stone b) in
    count_captured (color_of s freed) size freed

unfoldable pub suicide_around : ℕ → ℕ → Board → Board
suicide_around color q b = if b.board q == color then do_remove_string (number_at q b) b else b

unfoldable pub do_commit_suicide : ℕ → ℕ → Board → Board
do_commit_suicide pos color b =
    count_captured color 1 (around (λ d. suicide_around color (step d pos)) b)
