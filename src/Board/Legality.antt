-- ===== src/Board/Legality.antt =====
-- The tests of a move before it is made: is_suicide, is_illegal_ko_capture, does_capture_something
-- and is_ko of engine/board.c.
use mathlib.Core.Bool.{xor}
use gnugo.Base.{ℕ, ◌+◌, Bool, ◌&&◌, ◌||◌, not, Option, none, some, ltb, ◌==◌, if◌then◌else◌}
use gnugo.Color.{gray, other_color}
use gnugo.Point.{
  no_move, board_length, south, west, north, east, Direction, to_south, to_west, to_north, to_east,
  step,
}
use gnugo.Board.Cells.{only, board_ko_pos}
use gnugo.Board.State.{Board, is_liberty, liberties_at, number_at, size_of}

-- ON_BOARD and ON_BOARD1
abbrev pub on_board : ℕ → Board → Bool
on_board pos b = not (b.board pos == gray)

abbrev pub on_board1 : ℕ → Board → Bool
on_board1 pos b = ltb pos board_length && on_board pos b

-- The functions of this file are those of a build with GG_TURN_OFF_ASSERTS: is_suicide and
-- is_illegal_ko_capture assert that the point is on the board and empty, is_ko that it is on the
-- board and that the color is a player's, and change nothing.

-- The neighbor `q` of a move keeps it from being a suicide.
unfoldable pub gives_life : ℕ → ℕ → Board → Bool
gives_life q color b =
    is_liberty q b || (on_board q b && xor (b.board q == color) (liberties_at q b == 1))

unfoldable pub is_suicide : ℕ → ℕ → Board → Bool
is_suicide pos color b = not (
    gives_life (south pos) color b
    || gives_life (west pos) color b
    || gives_life (north pos) color b
    || gives_life (east pos) color b)

-- The test of a move at the ko point.
unfoldable pub takes_ko : ℕ → ℕ → Board → Bool
takes_ko pos color b =
    pos == b.mem (only board_ko_pos)
    && (b.board (west pos) == other_color color || b.board (east pos) == other_color color)

unfoldable pub is_illegal_ko_capture : ℕ → ℕ → Board → Bool
is_illegal_ko_capture pos color b = takes_ko pos color b

unfoldable pub captures_at : ℕ → ℕ → Board → Bool
captures_at q color b = b.board q == other_color color && liberties_at q b == 1

unfoldable pub does_capture_something : ℕ → ℕ → Board → Bool
does_capture_something pos color b =
    captures_at (south pos) color b
    || captures_at (west pos) color b
    || captures_at (north pos) color b
    || captures_at (east pos) color b

-- The local variables `captures` and `kpos` of is_ko; `none` is an early `return 0`.
abbrev pub KoScan : Type 0
KoScan = Option (ℕ × ℕ)

unfoldable pub ko_towards : ℕ → ℕ → Direction → Board → KoScan → KoScan
ko_towards pos color d b none = none
ko_towards pos color d b (some (captures, kpos)) =
    let q = step d pos in
    let more = captures + size_of (number_at q b) b in
    if on_board q b
    then (if b.board q == other_color color
        then (if liberties_at q b == 1
            then (if ltb 1 more then none else some (more, q))
            else some (captures, kpos))
        else none)
    else some (captures, kpos)

unfoldable pub ko_result : KoScan → Option ℕ
ko_result none = none
ko_result (some (captures, kpos)) = if captures == 1 then some kpos else none

-- `some kpos` is a return of 1 with `*ko_pos` set to `kpos`.
unfoldable pub is_ko : ℕ → ℕ → Board → Option ℕ
is_ko pos color b = ko_result (
    ko_towards pos color to_east b (
      ko_towards pos color to_north b
        (ko_towards pos color to_west b (ko_towards pos color to_south b (some (0, no_move))))))
