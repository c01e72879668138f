-- ===== src/History/Samples.antt =====
-- A game from the empty board: a black stone, a white one, and moves that are undone.
use gnugo.Base.{◌==◌, ◌&&◌, ◌∙◌, ◌≤◌, ◌≡◌, inl, refl, true, List, [], ◌∷◌, arith}
use gnugo.Color.{white, black, other_color}
use gnugo.Hash.{hashdata_invert_stone, hashdata_recalc, recalc_stones}
use gnugo.Board.Hashing.{HashIsRecalc}
use gnugo.Board.Samples.{empty_board, start}
use gnugo.Board.Trymove.{is_legal}
use gnugo.Board.Undo.Search.{SameReading}
use gnugo.Board.Position.Keeps.{Keeps, rebuild_strings-Keeps}
use gnugo.Board.Cells.{only, white_captured, black_captured}
use gnugo.Board.State.{
  list_liberty, add_liberty, add_and_mark_liberty, mark_string_at, do_add_stone,
}
use gnugo.Board.Strings.{start_string, create_towards, create_new_string}
use gnugo.Board.Play.{meets, mark_if, scan_towards, put_down, scan_around, note_ko, do_play_move}
use gnugo.Board.Legality.{gives_life, is_suicide, takes_ko}
use gnugo.History.{
  History, Game, max_move_history, position_of, ko_pos_of, play_move, play_move_asserts,
  record_move, play_move_no_history, play_or_commit, clear_ko, undo_move, add_stone, remove_stone,
}
use gnugo.History.Latest.{get_last_opponent_move, get_last_move, get_last_player}
use gnugo.History.Storage.{BoardState, store_board, restore_board}
use gnugo.History.Rules.{
  forbidden, all_allowed, simple, no_rule, psk, is_superko_violation, is_allowed_move,
}
use gnugo.History.Log.{log_of, first_moves}
use gnugo.History.Refinement.{
  Request, play, undo, perform_all, log_after, log_after_all, make_room, log_of-perform_all,
}
use gnugo.History.Bounds.{move_history_pointer_le}
use gnugo.History.Answers.{latest, latest_by, get_last-log_of}
use gnugo.History.Round.{
  SameGame, add_stone-HashIsRecalc, restore_board-store_board, remove_stone-add_stone,
  undo_move-initial,
}
use gnugo.History.Acceptance.{is_allowed_move_le, is_allowed_move-is_legal}
use gnugo.Point.{row, column}
use gnugo.Board.Edges.{is_edge_vertex, is_corner_vertex, line_distance, edge_distance}
use gnugo.History.Storage.{clear_board}
use gnugo.History.Edges.{is_edge_vertex-edge_distance}
use gnugo.History.Superko.{is_superko_violation-SameReading}

abbrev no_history : History
no_history = record {
  initial_board = empty_board.board;
  initial_board_ko_pos = 0;
  initial_white_captured = 0;
  initial_black_captured = 0;
  move_history_color = λ k. 0;
  move_history_pos = λ k. 0;
  move_history_hash = λ k. 0;
  move_history_pointer = 0;
}

abbrev new_game : Game
new_game = record {
  reading = start;
  history = no_history;
  board_size = 19;
  komi = 0;
  handicap = 0;
  movenum = 0;
  position_number = 0;
}

abbrev requests : List Request
requests = play 110 black ∷ play 111 white ∷ undo 1 ∷ play 0 white ∷ []

log_of-perform_all_example :
    log_of (perform_all requests new_game) ≡ log_after_all requests (log_of new_game)
log_of-perform_all_example = log_of-perform_all requests new_game

-- The white stone is gone, and the pass stands in its place.
requests_log :
    log_after_all requests (log_of new_game)
    ≡ record { color = white; pos = 0 } ∷ record { color = black; pos = 110 } ∷ []
unfolding log_after_all log_after log_of first_moves make_room
requests_log = refl

move_history_pointer_le_example :
    (perform_all requests new_game).history.move_history_pointer ≤ max_move_history
move_history_pointer_le_example = move_history_pointer_le requests new_game (omega arith)

get_last-log_of_example :
    (get_last_move (perform_all requests new_game)
      ≡ (latest (log_of (perform_all requests new_game))).pos)
    × (get_last_player (perform_all requests new_game)
        ≡ (latest (log_of (perform_all requests new_game))).color)
    × (get_last_opponent_move white (perform_all requests new_game)
        ≡ latest_by (other_color white) (log_of (perform_all requests new_game)))
get_last-log_of_example = get_last-log_of white (perform_all requests new_game)

abbrev old_state : BoardState
old_state = record {
  board_size = 9;
  board = λ k. 0;
  board_ko_pos = 0;
  black_captured = 0;
  white_captured = 0;
  history = no_history;
  komi = 0;
  handicap = 0;
  move_number = 0;
}

new_game-exact : HashIsRecalc (position_of new_game)
unfolding hashdata_recalc recalc_stones
new_game-exact = refl

abbrev other_game : Game
other_game = record new_game { board_size = 9; movenum = 4; handicap = 2 }

restore_board-store_board_example :
    SameGame new_game (restore_board (store_board new_game old_state).0 other_game)
restore_board-store_board_example =
    restore_board-store_board new_game other_game old_state new_game-exact refl

remove_stone-add_stone_example :
    Keeps (position_of new_game) (position_of (remove_stone 110 (add_stone 110 black new_game)))
remove_stone-add_stone_example = remove_stone-add_stone 110 black new_game refl

add_stone-HashIsRecalc_example : HashIsRecalc (position_of (add_stone 110 black new_game))
add_stone-HashIsRecalc_example =
    add_stone-HashIsRecalc 110 black new_game refl (omega arith) (omega arith) new_game-exact

abbrev one_move : Game
one_move = play_move 110 black new_game

undo_move-initial_example :
    let undone = position_of (undo_move one_move.history.move_history_pointer one_move).1 in
    (undone.board ≡ one_move.history.initial_board)
    × (ko_pos_of undone ≡ one_move.history.initial_board_ko_pos)
    × (undone.mem (only white_captured) ≡ one_move.history.initial_white_captured)
    × (undone.mem (only black_captured) ≡ one_move.history.initial_black_captured)
    × (undone.board_hash ≡ (position_of one_move).board_hash)
undo_move-initial_example = undo_move-initial one_move

-- The black stone is off the board, and still in the hash: its word is 110 * 5 + 2.
stale_hash : (position_of (undo_move 1 one_move).1).board_hash ≡ 552
unfolding play_move play_move_asserts record_move play_move_no_history play_or_commit clear_ko
    is_suicide gives_life do_play_move scan_around put_down do_add_stone scan_towards meets note_ko
    create_new_string start_string create_towards add_and_mark_liberty add_liberty list_liberty
    hashdata_invert_stone mark_if mark_string_at
stale_hash = (undo_move-initial one_move).4 ∙ (rebuild_strings-Keeps _).hash

is_allowed_move-is_legal_example :
    (is_allowed_move 110 black forbidden simple new_game).0 ≡ is_legal 110 black new_game.reading
is_allowed_move-is_legal_example = is_allowed_move-is_legal 110 black new_game refl

new_game-allows : (is_allowed_move 110 black forbidden simple new_game).0 ≡ true
unfolding is_legal is_suicide gives_life takes_ko
new_game-allows = is_allowed_move-is_legal 110 black new_game refl

is_allowed_move_le_example : (is_allowed_move 110 black all_allowed no_rule new_game).0 ≡ true
is_allowed_move_le_example =
    is_allowed_move_le 110 black forbidden all_allowed simple no_rule new_game (omega arith)
      (omega arith) new_game-allows

is_superko_violation-SameReading_example :
    SameReading new_game.reading (is_superko_violation 0 black psk new_game).1.reading
is_superko_violation-SameReading_example =
    is_superko_violation-SameReading 0 black psk new_game refl (inl refl)

-- The point 21 is the upper left corner.
is_edge_vertex-edge_distance_example :
    let b = position_of (clear_board new_game) in
    (is_edge_vertex 21 b ≡ edge_distance 19 21 == 0)
    × (is_corner_vertex 21 b
        ≡ (line_distance 19 (row 21) == 0 && line_distance 19 (column 21) == 0))
is_edge_vertex-edge_distance_example = is_edge_vertex-edge_distance new_game 21 (record {
  supported = omega arith;
  low_row = omega arith;
  high_row = omega arith;
  low_column = omega arith;
  high_column = omega arith;
})
