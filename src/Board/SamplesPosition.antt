-- ===== src/Board/SamplesPosition.antt =====
-- Two black stones side by side, on a board whose strings are built anew.
use gnugo.Base.{ℕ, ◌≡◌, ◌≢◌, ◌<◌, ◌≤◌, ◌↔◌, refl, if◌then◌else◌, ◌==◌, arith}
use gnugo.Color.{black, gray}
use gnugo.Point.{board_min, board_max}
use gnugo.Board.Cells.{only, next_string}
use gnugo.Board.State.{Board, number_at}
use gnugo.Board.Samples.{empty_board}
use gnugo.Board.Position.{rebuild_strings}
use gnugo.Board.Position.Components.{Connected}
use gnugo.Board.Position.Whole.{rebuild_strings-Connected}

abbrev pair : Board
pair = record empty_board {
  board = λ q. if q == 110 then black else if q == 111 then black else empty_board.board q;
}

pair_framed : (q : ℕ) → pair.board q ≢ gray → (board_min ≤ q) × (q < board_max)
pair_framed q on = (ground (arith, on), ground (arith, on))

rebuild_strings-Connected_example :
    (number_at 110 (rebuild_strings pair) < (rebuild_strings pair).mem (only next_string))
    × (number_at 111 (rebuild_strings pair) ≡ number_at 110 (rebuild_strings pair)
        ↔ Connected pair.board 110 111)
rebuild_strings-Connected_example = rebuild_strings-Connected pair pair_framed 110 111 refl refl
