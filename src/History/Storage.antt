-- ===== src/History/Storage.antt =====
-- store_board, restore_board and clear_board of engine/board.c.
use gnugo.Base.{ℕ, zero, suc, ◌+◌, ◌/◌, ◌%◌, Bool, ◌&&◌, leb, ltb, ◌==◌, if◌then◌else◌}
use gnugo.Color.{empty, gray}
use gnugo.Point.{max_board, no_move, board_length, row, column}
use gnugo.Hash.{hashdata_recalc}
use gnugo.Board.Cells.{only, black_captured, white_captured, komaster, kom_pos}
use gnugo.Board.State.{Board, write}
use gnugo.Board.Trymove.{store}
use gnugo.History.{
  History, Game, position_of, ko_pos_of, on_position, assert_game, new_position, set_board,
}

-- struct board_state
pub record BoardState : Type 0 where
  pub board_size : ℕ
  pub board : ℕ → ℕ
  pub board_ko_pos : ℕ
  pub black_captured : ℕ
  pub white_captured : ℕ
  pub history : History
  pub komi : ℕ
  pub handicap : ℕ
  pub move_number : ℕ

-- to[k] = from[k] for the `n` entries from `k` on
unfoldable pub copy_entries : ℕ → ℕ → (ℕ → ℕ) → (ℕ → ℕ) → ℕ → ℕ
copy_entries zero k from to = to
copy_entries (suc n) k from to = copy_entries n (k + 1) from (store to k (from k))

-- The initial position is copied, and the moves up to the pointer.
unfoldable pub copy_history : History → History → History
copy_history from to =
    let n = from.move_history_pointer in
    record from {
      move_history_color = copy_entries n 0 from.move_history_color to.move_history_color;
      move_history_pos = copy_entries n 0 from.move_history_pos to.move_history_pos;
      move_history_hash = copy_entries n 0 from.move_history_hash to.move_history_hash;
    }

-- `state` holds what was there before; the assertion on `stackp` is the second result.
unfoldable pub store_board : Game → BoardState → BoardState × Game
store_board g state =
    let b = position_of g in
    (
      record {
        board_size = g.board_size;
        board = b.board;
        board_ko_pos = ko_pos_of b;
        black_captured = b.mem (only black_captured);
        white_captured = b.mem (only white_captured);
        history = copy_history g.history state.history;
        komi = g.komi;
        handicap = g.handicap;
        move_number = g.movenum;
      },
      assert_game (g.reading.stackp == 0) g,
    )

unfoldable pub recalc_hash : Board → Board
recalc_hash b = record b { board_hash = hashdata_recalc b.zobrist b.board (ko_pos_of b) }

unfoldable pub restore_board : BoardState → Game → Game
restore_board state g =
    let asserted = assert_game (g.reading.stackp == 0) g in
    let b =
      set_board state.board state.board_ko_pos state.white_captured state.black_captured
        (position_of asserted) in
    new_position (record (on_position (λ (x : Board). recalc_hash b) asserted) {
      board_size = state.board_size;
      history = copy_history state.history g.history;
      komi = state.komi;
      handicap = state.handicap;
      movenum = state.move_number;
    })

-- ON_BOARD2(I(k), J(k)), where I and J are -1 on the outermost points.
unfoldable pub in_square : ℕ → ℕ → Bool
in_square board_size k =
    leb 1 (k / (max_board + 1))
    && leb 1 (k % (max_board + 1))
    && ltb (row k) board_size
    && ltb (column k) board_size

-- The two arrays of intersections; both have BOARDSIZE entries.
unfoldable pub bare_board : ℕ → (ℕ → ℕ) → ℕ → ℕ
bare_board board_size old k =
    if ltb k board_length then (if in_square board_size k then empty else gray) else old k

unfoldable pub clear_board : Game → Game
clear_board g =
    let size = g.board_size in
    let asserted = assert_game (ltb 0 size && leb size max_board) g in
    let b = position_of asserted in
    let placed = set_board (bare_board size b.board) no_move 0 0 b in
    let settled = write (only kom_pos) no_move (write (only komaster) empty placed) in
    new_position (record (on_position (λ (x : Board). recalc_hash settled) asserted) {
      history = record g.history {
        initial_board = bare_board size g.history.initial_board;
        initial_board_ko_pos = no_move;
        initial_white_captured = 0;
        initial_black_captured = 0;
        move_history_pointer = 0;
      };
      movenum = 0;
      handicap = 0;
    })
