-- ===== src/Board/Liberties.antt =====
-- The lists of liberties and of neighbors of a string: update_liberties, remove_neighbor and
-- remove_liberty of engine/board.c.
use gnugo.Base.{ℕ, zero, suc, ◌+◌, ◌-◌, Bool, true, false, ltb, ◌==◌, if◌then◌else◌, min}
use gnugo.Point.{step}
use gnugo.Board.Cells.{Cell, at, at_slot, string_liberties, string_neighbors, libs, neighbor_list}
use gnugo.Board.State.{
  Board, max_liberties, write, push_value, gg_assert, liberties_of, neighbors_of, unmarked_liberty,
  next_liberty_mark, add_and_mark_liberty, walk_string, around,
}

-- The loop that pushes the listed liberties from `k` on, with `n` of them to go.
unfoldable pub push_liberties : ℕ → ℕ → ℕ → Board → Board
push_liberties s zero k b = b
push_liberties s (suc n) k b = push_liberties s n (k + 1) (push_value (at_slot libs s k) b)

unfoldable pub add_if_unmarked : ℕ → ℕ → Board → Board
add_if_unmarked s q b = if unmarked_liberty q b then add_and_mark_liberty s q b else b

-- The liberties that the stone at `pos` gives.
unfoldable pub add_liberties_around : ℕ → ℕ → Board → Board
add_liberties_around s pos b = around (λ d. add_if_unmarked s (step d pos)) b

unfoldable pub update_liberties : ℕ → Board → Board
update_liberties s b =
    let counted = push_value (at string_liberties s) b in
    let listed = push_liberties s (min (liberties_of s b) max_liberties) 0 counted in
    let cleared = next_liberty_mark (write (at string_liberties s) 0 listed) in
    walk_string s (add_liberties_around s) cleared

-- The place of `x` in the list of string `s`, among the `n` entries from `k` on.
unfoldable pub find_entry : (ℕ → Cell) → ℕ → ℕ → ℕ → Board → ℕ × Bool
find_entry entry x zero k b = (k, false)
find_entry entry x (suc n) k b = elim (b.mem (entry k) == x) [
  | true ↦ (k, true)
  | false ↦ find_entry entry x n (k + 1) b
]

-- The last entry takes the place of entry `k`; what is lost is pushed.
unfoldable pub drop_entry : (ℕ → Cell) → Cell → ℕ → Board → Board
drop_entry entry count k b =
    let last = b.mem count - 1 in
    let pushed = push_value count (push_value (entry k) (push_value (entry last) b)) in
    write count last (write (entry k) (b.mem (entry last)) pushed)

unfoldable pub remove_neighbor : ℕ → ℕ → Board → Board
remove_neighbor str_number n b =
    let (k, done) =
      find_entry (at_slot neighbor_list str_number) n (neighbors_of str_number b) 0 b in
    let dropped =
      drop_entry (at_slot neighbor_list str_number) (at string_neighbors str_number) k b in
    gg_assert done (if done then dropped else b)

unfoldable pub remove_liberty : ℕ → ℕ → Board → Board
remove_liberty str_number pos b =
    let (k, found) = find_entry (at_slot libs str_number) pos (liberties_of str_number b) 0 b in
    let dropped = drop_entry (at_slot libs str_number) (at string_liberties str_number) k b in
    if ltb max_liberties (liberties_of str_number b)
    then update_liberties str_number b
    else if found
    then dropped
    else b
