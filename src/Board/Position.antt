-- ===== src/Board/Position.antt =====
-- new_position of engine/board.c: the incremental data of the strings, built from the stones alone;
-- with propagate_string and find_liberties_and_neighbors.
pub mod Keeps
pub mod Pending
pub mod Components
pub mod Waiting
pub mod Flood
pub mod Numbering
pub mod Whole
use gnugo.Base.{ℕ, zero, suc, ◌+◌, ◌-◌, Bool, true, false, ◌&&◌, [], ltb, ◌==◌, if◌then◌else◌}
use gnugo.Color.{other_color, is_stone}
use gnugo.Point.{board_min, board_max, Direction, to_south, to_west, to_north, to_east, step}
use gnugo.Board.Cells.{
  Field, Memory, at, only, string_number, next_stone, next_string, string_size, string_color,
  string_origin, string_mark, board_ko_pos, black_captured, white_captured, komaster, kom_pos,
}
use gnugo.Board.State.{
  Board, minus_one, write, number_at, next_of, color_of, unmarked_liberty, unmarked_color_string,
  next_liberty_mark, next_string_mark, mark_string_at, add_and_mark_liberty, add_neighbor,
  walk_string, around, max_strings, paranoid,
}
use gnugo.Board.Legality.{on_board}

-- CLEAR_STACKS
abbrev pub clear_stacks : Board → Board
clear_stacks b = record b { changes = []; vertices = [] }

-- The variables that new_position sets to 0: the arrays of strings, `ml`, and the three counters.
unfoldable pub is_reset : Field → Bool
is_reset string_number = false
is_reset next_stone = false
is_reset board_ko_pos = false
is_reset black_captured = false
is_reset white_captured = false
is_reset komaster = false
is_reset kom_pos = false
is_reset f = true

unfoldable pub reset_memory : Memory → Memory
reset_memory m c = if is_reset c.field then 0 else m c

-- The loop that sets the string numbers to -1, over `n` points from `pos` on.
unfoldable pub forget_numbers : ℕ → ℕ → Board → Board
forget_numbers zero pos b = b
forget_numbers (suc n) pos b =
    forget_numbers n (pos + 1)
      (if on_board pos b then write (at string_number pos) minus_one b else b)

-- The stone starts a string, or is linked behind `str`.
unfoldable pub link_to_string : ℕ → ℕ → Board → Board
link_to_string stone str b =
    if stone == str
    then write (at next_stone stone) stone b
    else (let numbered = write (at string_number stone) (number_at str b) b in
        write (at next_stone str) stone
          (write (at next_stone stone) (next_of str numbered) numbered))

-- One direction of propagate_string: the count so far, with the board.
unfoldable pub propagate_towards : (ℕ → Board → ℕ × Board) → ℕ → Direction → ℕ × Board → ℕ × Board
propagate_towards visit stone d (size, b) =
    let q = step d stone in
    elim (on_board q b && b.board q == b.board stone && number_at q b == minus_one) [
      | true ↦ (let (more, grown) = visit q b in (size + more, grown))
      | false ↦ (size, b)
    ]

-- Each call numbers a stone, so that a board has room for BOARDMAX nested ones at most.
unfoldable pub propagate_string : ℕ → ℕ → ℕ → Board → ℕ × Board
propagate_string zero stone str b = (0, record b { faulty = true })
propagate_string (suc fuel) stone str b =
    let visit = λ (q : ℕ) (b' : Board). propagate_string fuel q str b' in
    propagate_towards visit stone to_east (
      propagate_towards visit stone to_north (
        propagate_towards visit stone to_west
          (propagate_towards visit stone to_south (1, link_to_string stone str b))))

-- A stone without a number gives a new string.
unfoldable pub find_string : ℕ → Board → Board
find_string pos b =
    let s = b.mem (only next_string) in
    let (size, grown) = propagate_string board_max pos pos (write (at string_number pos) s b) in
    let sized = write (at string_size s) size grown in
    let colored = write (at string_color s) (sized.board pos) sized in
    let placed = write (at string_mark s) 0 (write (at string_origin s) pos colored) in
    if on_board pos b && is_stone (b.board pos) && number_at pos b == minus_one
    then paranoid (ltb (s + 1) max_strings) (write (only next_string) (s + 1) placed)
    else b

unfoldable pub find_strings : ℕ → ℕ → Board → Board
find_strings zero pos b = b
find_strings (suc n) pos b = find_strings n (pos + 1) (find_string pos b)

-- One direction of find_liberties_and_neighbors.
unfoldable pub note_beside : ℕ → ℕ → ℕ → Board → Board
note_beside s other q b =
    if unmarked_liberty q b
    then add_and_mark_liberty s q b
    else if unmarked_color_string q other b
    then mark_string_at q (add_neighbor s q b)
    else b

unfoldable pub find_liberties_and_neighbors : ℕ → Board → Board
find_liberties_and_neighbors s b =
    let other = other_color (color_of s b) in
    walk_string s (λ pos. around (λ d. note_beside s other (step d pos)))
      (next_string_mark (next_liberty_mark b))

-- The last loop, over `n` strings from `s` on.
unfoldable pub fill_strings : ℕ → ℕ → Board → Board
fill_strings zero s b = b
fill_strings (suc n) s b = fill_strings n (s + 1) (find_liberties_and_neighbors s b)

-- new_position, save for the count of positions.
unfoldable pub rebuild_strings : Board → Board
rebuild_strings b =
    let reset = record (clear_stacks b) { mem = reset_memory b.mem } in
    let found =
      find_strings (board_max - board_min) board_min
        (forget_numbers (board_max - board_min) board_min reset) in
    fill_strings (found.mem (only next_string)) 0 found
