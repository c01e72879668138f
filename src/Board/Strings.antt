-- ===== src/Board/Strings.antt =====
-- How a new stone becomes part of a string: create_new_string, extend_neighbor_string,
-- assimilate_string and assimilate_neighbor_strings of engine/board.c.
use gnugo.Base.{ℕ, zero, suc, ◌+◌, Bool, ◌||◌, ◌&&◌, not, ltb, leb, ◌==◌, if◌then◌else◌}
use gnugo.Color.{other_color}
use gnugo.Point.{
  board_max, south, west, north, east, Direction, to_south, to_west, to_north, to_east, step,
}
use gnugo.Board.Cells.{
  at, at_slot, only, string_color, string_size, string_origin, string_liberties, string_neighbors,
  string_mark, libs, string_number, next_stone, next_string, string_mark_counter,
}
use gnugo.Board.State.{
  Board, max_liberties, write, push_value, size_of, origin_of, liberties_of, number_at, next_of,
  is_liberty, unmarked_liberty, unmarked_color_string, next_string_mark, next_liberty_mark,
  set_string_mark, mark_string_at, add_liberty, add_and_mark_liberty, add_neighbor,
  add_neighbor_string, string_at_vertex, walk, around, marks, max_strings, paranoid,
}
use gnugo.Board.Liberties.{update_liberties, remove_neighbor, remove_liberty}
use gnugo.Board.Capture.{for_neighbors}

-- The next free string number for the stone at `pos`, and its trivially known values.
unfoldable pub start_string : ℕ → Board → Board
start_string pos b =
    let s = b.mem (only next_string) in
    let numbered =
      write (at string_number pos) s
        (write (only next_string) (s + 1) (push_value (only next_string) b)) in
    let cycle = write (at next_stone pos) pos numbered in
    let colored = write (at string_color s) (b.board pos) cycle in
    let placed = write (at string_origin s) pos (write (at string_size s) 1 colored) in
    paranoid (ltb s max_strings)
      (write (at string_neighbors s) 0 (write (at string_liberties s) 0 placed))

-- An opponent string at `q` becomes a neighbor of `s`, and `s`, to which the stone at `pos`
-- belongs, one of it. In the last direction it is not marked.
unfoldable pub join_neighbor : Bool → ℕ → ℕ → ℕ → Board → Board
join_neighbor marks s pos q b =
    let s2 = number_at q b in
    let ours = add_neighbor s q b in
    let theirs = add_neighbor s2 pos (push_value (at string_neighbors s2) ours) in
    if marks then mark_string_at q theirs else theirs

unfoldable pub create_towards : ℕ → ℕ → ℕ → Direction → Board → Board
create_towards s pos other d b =
    let q = step d pos in
    if is_liberty q b
    then add_liberty s q b
    else if unmarked_color_string q other b
    then join_neighbor (marks d) s pos q b
    else b

unfoldable pub create_new_string : ℕ → Board → Board
create_new_string pos b =
    let s = b.mem (only next_string) in
    let started = next_string_mark (write (at string_mark s) 0 (start_string pos b)) in
    around (create_towards s pos (other_color (b.board pos))) started

-- NON_SOUTH_NEIGHBOR_OF_STRING and its three kin, at the liberty in direction `d`: not the new
-- stone, which lies the other way.
unfoldable pub non_neighbor_of_string : Direction → ℕ → ℕ → ℕ → Board → Bool
non_neighbor_of_string to_south q s color b =
    string_at_vertex (south q) s color b
    || string_at_vertex (west q) s color b
    || string_at_vertex (east q) s color b
non_neighbor_of_string to_west q s color b =
    string_at_vertex (west q) s color b
    || string_at_vertex (north q) s color b
    || string_at_vertex (south q) s color b
non_neighbor_of_string to_north q s color b =
    string_at_vertex (north q) s color b
    || string_at_vertex (east q) s color b
    || string_at_vertex (west q) s color b
non_neighbor_of_string to_east q s color b =
    string_at_vertex (east q) s color b
    || string_at_vertex (south q) s color b
    || string_at_vertex (north q) s color b

-- The new stone in the cyclic list of `s`, in its origin, its number and its size.
unfoldable pub link_stone : ℕ → ℕ → Board → Board
link_stone pos s b =
    let pos2 = origin_of s b in
    let linked = push_value (at next_stone pos2) (write (at next_stone pos) (next_of pos2 b) b) in
    let cycle = write (at next_stone pos2) pos linked in
    let moved = write (at string_origin s) pos (push_value (at string_origin s) cycle) in
    let placed = if ltb pos pos2 then moved else cycle in
    let sized = push_value (at string_size s) (write (at string_number pos) s placed) in
    write (at string_size s) (size_of s sized + 1) sized

-- The loop that marks the neighbors of `s`.
unfoldable pub mark_neighbors : ℕ → Board → Board
mark_neighbors s b = for_neighbors s set_string_mark b

-- One direction of extend_neighbor_string. `updated` is `liberties_updated`.
unfoldable pub extend_towards : Bool → ℕ → ℕ → ℕ → Direction → Board → Board
extend_towards updated s pos color d b =
    let q = step d pos in
    let s2 = number_at q b in
    let ours = add_neighbor s q (push_value (at string_neighbors s) b) in
    let theirs = add_neighbor s2 pos (push_value (at string_neighbors s2) ours) in
    if is_liberty q b
    then (if not updated && not (non_neighbor_of_string d q s color b)
        then add_liberty s q b
        else b)
    else if unmarked_color_string q (other_color color) b
    then (if marks d then mark_string_at q theirs else theirs)
    else b

unfoldable pub extend_neighbor_string : ℕ → ℕ → Board → Board
extend_neighbor_string pos s b =
    let color = b.board pos in
    let linked = link_stone pos s b in
    let updated = ltb max_liberties (liberties_of s linked) in
    let freed = if updated then update_liberties s linked else remove_liberty s pos linked in
    let marked = mark_neighbors s (next_string_mark freed) in
    around (extend_towards updated s pos color) marked

-- The stones of `s2` get the number `s`.
unfoldable pub renumber : ℕ → ℕ → Board → Board
renumber s pos b = write (at string_number pos) s (push_value (at string_number pos) b)

-- The two cycles become one; `last` is the last stone of that of `s2`.
unfoldable pub link_cycles : ℕ → ℕ → ℕ → Board → Board
link_cycles s s2 last b =
    let pos2 = origin_of s b in
    let pushed = push_value (at next_stone pos2) (push_value (at next_stone last) b) in
    let crossed = write (at next_stone last) (next_of pos2 pushed) pushed in
    let linked = write (at next_stone pos2) (origin_of s2 crossed) crossed in
    if ltb (origin_of s2 linked) pos2
    then write (at string_origin s) (origin_of s2 linked) linked
    else linked

-- The loop over the listed liberties of `s2`, from `k` on with `n` to go.
unfoldable pub take_liberties : ℕ → ℕ → ℕ → ℕ → Board → Board
take_liberties s s2 zero k b = b
take_liberties s s2 (suc n) k b =
    let pos2 = b.mem (at_slot libs s2 k) in
    take_liberties s s2 n (k + 1)
      (if unmarked_liberty pos2 b then add_and_mark_liberty s pos2 b else b)

unfoldable pub merge_liberties : ℕ → ℕ → Board → Board
merge_liberties s s2 b =
    if leb (liberties_of s2 b) max_liberties
    then take_liberties s s2 (liberties_of s2 b) 0 b
    else update_liberties s (write (at string_liberties s) 0 (next_liberty_mark b))

-- The neighbor `t` of `s2` becomes one of `s`, unless it is already.
unfoldable pub move_neighbor : ℕ → ℕ → ℕ → Board → Board
move_neighbor s s2 t b =
    let removed = remove_neighbor t s2 b in
    let theirs = add_neighbor_string t s (push_value (at string_neighbors t) removed) in
    if removed.mem (at string_mark t) == removed.mem (only string_mark_counter)
    then removed
    else set_string_mark t (add_neighbor_string s t theirs)

unfoldable pub assimilate_string : ℕ → ℕ → Board → Board
assimilate_string s pos b =
    let s2 = number_at pos b in
    let sized = write (at string_size s) (size_of s b + size_of s2 b) b in
    let renumbered = walk s2 (renumber s) board_max (origin_of s2 sized) sized in
    let linked = link_cycles s s2 renumbered.last renumbered.board in
    for_neighbors s2 (move_neighbor s s2) (merge_liberties s s2 linked)

-- One direction of assimilate_neighbor_strings. In the last one nothing is marked.
unfoldable pub assimilate_towards : ℕ → ℕ → ℕ → Direction → Board → Board
assimilate_towards s pos color d b =
    let q = step d pos in
    if unmarked_liberty q b
    then (if marks d then add_and_mark_liberty s q b else add_liberty s q b)
    else if unmarked_color_string q (other_color color) b
    then join_neighbor (marks d) s pos q b
    else if unmarked_color_string q color b
    then assimilate_string s q b
    else b

unfoldable pub assimilate_neighbor_strings : ℕ → Board → Board
assimilate_neighbor_strings pos b =
    let s = b.mem (only next_string) in
    let started = next_string_mark (next_liberty_mark (start_string pos b)) in
    around (assimilate_towards s pos (b.board pos)) (set_string_mark s started)
