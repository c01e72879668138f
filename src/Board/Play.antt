-- ===== src/Board/Play.antt =====
-- do_play_move of engine/board.c.
use gnugo.Base.{ℕ, ◌+◌, Bool, ◌&&◌, ltb, ◌==◌, if◌then◌else◌}
use gnugo.Color.{other_color}
use gnugo.Point.{no_move, Direction, to_south, to_west, to_north, to_east, step}
use gnugo.Hash.{hashdata_invert_ko}
use gnugo.Board.Cells.{at, at_slot, only, libs, string_number, board_ko_pos}
use gnugo.Board.State.{
  Board, minus_one, write, gg_assert, size_of, liberties_of, liberties_at, number_at,
  unmarked_color_string, next_string_mark, mark_string_at, do_add_stone, marks,
}
use gnugo.Board.Liberties.{remove_liberty}
use gnugo.Board.Capture.{do_remove_string}
use gnugo.Board.Strings.{create_new_string, extend_neighbor_string, assimilate_neighbor_strings}

-- The local variables of do_play_move, with the board.
pub record Scan : Type 0 where
  pub position : Board
  pub neighbor_allies : ℕ
  pub ally : ℕ
  pub captured_stones : ℕ

-- The test of a direction. The first one needs no look at the marks, which are all old.
unfoldable pub meets : Direction → ℕ → ℕ → Board → Bool
meets to_south q color b = b.board q == color
meets d q color b = unmarked_color_string q color b

unfoldable pub mark_if : Bool → ℕ → Board → Board
mark_if marked q b = if marked then mark_string_at q b else b

-- One direction of the scan around the new stone at `pos`.
unfoldable pub scan_towards : ℕ → ℕ → Direction → Scan → Scan
scan_towards pos color d scan =
    let b = scan.position in
    let q = step d pos in
    let s = number_at q b in
    if meets d q color b
    then record scan {
      position = mark_if (marks d) q b;
      neighbor_allies = scan.neighbor_allies + 1;
      ally = s;
    }
    else if meets d q (other_color color) b
    then (if ltb 1 (liberties_at q b)
        then record scan { position = mark_if (marks d) q (remove_liberty s pos b) }
        else record scan {
          position = do_remove_string s b;
          captured_stones = scan.captured_stones + size_of s b;
        })
    else scan

-- The stone is put down; its string number is -1 for a while.
unfoldable pub put_down : ℕ → ℕ → Board → Board
put_down pos color b =
    write (at string_number pos) minus_one (do_add_stone pos color (next_string_mark b))

unfoldable pub scan_around : ℕ → ℕ → Board → Scan
scan_around pos color b = scan_towards pos color to_east (
    scan_towards pos color to_north (
      scan_towards pos color to_west (
        scan_towards pos color to_south (record {
          position = put_down pos color b;
          neighbor_allies = 0;
          ally = minus_one;
          captured_stones = 0;
        }))))

-- A ko capture sets board_ko_pos.
unfoldable pub note_ko : ℕ → ℕ → Board → Board
note_ko pos captured_stones b =
    let s = number_at pos b in
    let old = b.mem (only board_ko_pos) in
    let cleared =
      if old == no_move
      then b
      else record b { board_hash = hashdata_invert_ko b.zobrist b.board_hash old } in
    let ko = b.mem (at_slot libs s 0) in
    let noted = write (only board_ko_pos) ko cleared in
    if liberties_of s b == 1 && size_of s b == 1 && captured_stones == 1
    then record noted { board_hash = hashdata_invert_ko b.zobrist noted.board_hash ko }
    else b

unfoldable pub do_play_move : ℕ → ℕ → Board → Board
do_play_move pos color b =
    let scan = scan_around pos color b in
    if scan.neighbor_allies == 0
    then note_ko pos scan.captured_stones (create_new_string pos scan.position)
    else if scan.neighbor_allies == 1
    then extend_neighbor_string pos scan.ally (gg_assert (ltb scan.ally 2147483648) scan.position)
    else assimilate_neighbor_strings pos scan.position
