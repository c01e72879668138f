-- ===== src/History.antt =====
-- The permanent moves of engine/board.c: add_stone, remove_stone, play_move and undo_move with the
-- move history, store_board, restore_board and clear_board.
pub mod Latest
pub mod Storage
pub mod Rules
pub mod Log
pub mod Refinement
pub mod Bounds
pub mod Answers
pub mod Round
pub mod Acceptance
pub mod Superko
pub mod Edges
mod Samples
use gnugo.Base.{
  ℕ, zero, suc, ◌+◌, ◌-◌, ◌*◌, ◌/◌, Bool, true, false, ◌&&◌, ◌||◌, leb, ltb, ◌==◌, if◌then◌else◌,
}
use gnugo.Color.{empty, gray, white, black, other_color, is_stone}
use gnugo.Point.{max_board, no_move, pass_move, board_length, row, column}
use gnugo.Hash.{hashdata_invert_ko, hashdata_invert_stone, hashdata_recalc}
use gnugo.Board.Cells.{
  Field, only, update, next_string, board_ko_pos, black_captured, white_captured, komaster, kom_pos,
}
use gnugo.Board.State.{Board, write, gg_assert}
use gnugo.Board.Capture.{do_commit_suicide}
use gnugo.Board.Play.{do_play_move}
use gnugo.Board.Position.{clear_stacks, rebuild_strings}
use gnugo.Board.Legality.{on_board1, is_suicide}
use gnugo.Board.Trymove.{Reading, store, set_position}

-- The initial position and the moves since then.
pub record History : Type 0 where
  pub initial_board : ℕ → ℕ
  pub initial_board_ko_pos : ℕ
  pub initial_white_captured : ℕ
  pub initial_black_captured : ℕ
  pub move_history_color : ℕ → ℕ
  pub move_history_pos : ℕ → ℕ
  pub move_history_hash : ℕ → ℕ
  pub move_history_pointer : ℕ

-- The board, with the variables of the game. `komi` holds the bits of the float, which are only
-- copied.
pub record Game : Type 0 where
  pub reading : Reading
  pub history : History
  pub board_size : ℕ
  pub komi : ℕ
  pub handicap : ℕ
  pub movenum : ℕ
  pub position_number : ℕ

abbrev pub max_move_history : ℕ
max_move_history = 500

abbrev pub max_strings : ℕ
max_strings = 4 * max_board * max_board / 5

abbrev pub number_collapsed_moves : ℕ
number_collapsed_moves = 1 + max_move_history / 10

abbrev pub position_of : Game → Board
position_of g = g.reading.position

abbrev pub ko_pos_of : Board → ℕ
ko_pos_of b = b.mem (only board_ko_pos)

-- A change of the board alone.
abbrev pub on_position : (Board → Board) → Game → Game
on_position f g = record g { reading = set_position g.reading (f g.reading.position) }

-- A failed assertion about the game.
abbrev pub assert_game : Bool → Game → Game
assert_game test g = on_position (gg_assert test) g

unfoldable pub new_position : Game → Game
new_position g = record (on_position rebuild_strings g) { position_number = g.position_number + 1 }

unfoldable pub reset_move_history : Game → Game
reset_move_history g = record g {
  history = record g.history {
    initial_board = (position_of g).board;
    initial_board_ko_pos = ko_pos_of (position_of g);
    initial_white_captured = (position_of g).mem (only white_captured);
    initial_black_captured = (position_of g).mem (only black_captured);
    move_history_pointer = 0;
  };
}

-- board[pos] = color, and the hash.
unfoldable pub place_stone : ℕ → ℕ → Board → Board
place_stone pos color b = record b {
  board = store b.board pos color;
  board_hash = hashdata_invert_stone b.zobrist b.board_hash pos color;
}

unfoldable pub add_stone : ℕ → ℕ → Game → Game
add_stone pos color g =
    let b = position_of g in
    let test = g.reading.stackp == 0 && on_board1 pos b && b.board pos == empty in
    new_position (reset_move_history (on_position (place_stone pos color) (assert_game test g)))

unfoldable pub take_stone : ℕ → Board → Board
take_stone pos b = record b {
  board_hash = hashdata_invert_stone b.zobrist b.board_hash pos (b.board pos);
  board = store b.board pos empty;
}

unfoldable pub remove_stone : ℕ → Game → Game
remove_stone pos g =
    let b = position_of g in
    let test = g.reading.stackp == 0 && on_board1 pos b && is_stone (b.board pos) in
    new_position (reset_move_history (on_position (take_stone pos) (assert_game test g)))

-- The ko of the last move is over.
unfoldable pub clear_ko : Board → Board
clear_ko b =
    let ko = ko_pos_of b in
    write (only board_ko_pos) no_move (record b {
      board_hash =
          if ko == no_move then b.board_hash else hashdata_invert_ko b.zobrist b.board_hash ko;
    })

-- The stone of play_move_no_history, with what it captures.
unfoldable pub play_or_commit : ℕ → ℕ → Board → Board
play_or_commit pos color b =
    let asserted = gg_assert (on_board1 pos b && b.board pos == empty) b in
    if pos == pass_move
    then b
    else if is_suicide pos color asserted
    then do_commit_suicide pos color asserted
    else do_play_move pos color asserted

unfoldable pub play_move_no_history : ℕ → ℕ → Bool → Game → Game
play_move_no_history pos color update_internals g =
    let b = play_or_commit pos color (clear_ko (position_of g)) in
    let renew = update_internals || b.mem (only next_string) == max_strings in
    record g {
      reading = set_position g.reading (if renew then rebuild_strings b else clear_stacks b);
      position_number = if renew then g.position_number + 1 else g.position_number;
    }

-- The loop of replay_move_history, with `n` moves to go from move `k` on.
unfoldable pub replay_moves : ℕ → ℕ → Game → Game
replay_moves zero k g = g
replay_moves (suc n) k g =
    replay_moves n (k + 1)
      (play_move_no_history (g.history.move_history_pos k) (g.history.move_history_color k) false g)

-- The board, the ko and the prisoners are set.
unfoldable pub set_board : (ℕ → ℕ) → ℕ → ℕ → ℕ → Board → Board
set_board board ko white_count black_count b = write (only black_captured) black_count (
    write (only white_captured) white_count
      (write (only board_ko_pos) ko (record b { board = board })))

abbrev pub load_initial : History → Board → Board
load_initial h b =
    set_board h.initial_board h.initial_board_ko_pos h.initial_white_captured
      h.initial_black_captured b

unfoldable pub replay_move_history : ℕ → Game → Game
replay_move_history n g =
    new_position (replay_moves n 0 (new_position (on_position (load_initial g.history) g)))

-- a[k - d] = a[k] for the `n` entries from `k` on
unfoldable pub shift_down : ℕ → ℕ → ℕ → (ℕ → ℕ) → ℕ → ℕ
shift_down d zero k a = a
shift_down d (suc n) k a = shift_down d n (k + 1) (store a (k - d) (a k))

-- The entries behind the first `d` move to the front.
unfoldable pub forget_oldest : ℕ → History → History
forget_oldest d h =
    let n = h.move_history_pointer - d in
    record h {
      move_history_color = shift_down d n d h.move_history_color;
      move_history_pos = shift_down d n d h.move_history_pos;
      move_history_hash = shift_down d n d h.move_history_hash;
      move_history_pointer = n;
    }

-- The part of reset_move_history that leaves the moves.
unfoldable pub set_initial : Board → History → History
set_initial b h = record h {
  initial_board = b.board;
  initial_board_ko_pos = ko_pos_of b;
  initial_white_captured = b.mem (only white_captured);
  initial_black_captured = b.mem (only black_captured);
}

-- A full history: its oldest moves become part of the initial position.
unfoldable pub collapse_history : Game → Game
collapse_history g =
    let saved = position_of g in
    let replayed = replay_move_history number_collapsed_moves g in
    let shifted = record replayed {
      history =
          forget_oldest number_collapsed_moves
            (set_initial (position_of replayed) replayed.history);
    } in
    new_position (
      on_position
        (set_board saved.board (ko_pos_of saved) (saved.mem (only white_captured))
          (saved.mem (only black_captured)))
        shifted)

-- The hash of the board without its ko.
unfoldable pub hash_without_ko : Board → ℕ
hash_without_ko b =
    if ko_pos_of b == no_move
    then b.board_hash
    else hashdata_invert_ko b.zobrist b.board_hash (ko_pos_of b)

unfoldable pub record_move : ℕ → ℕ → Game → Game
record_move pos color g =
    let h = g.history in
    let k = h.move_history_pointer in
    record g {
      history = record h {
        move_history_color = store h.move_history_color k color;
        move_history_pos = store h.move_history_pos k pos;
        move_history_hash = store h.move_history_hash k (hash_without_ko (position_of g));
        move_history_pointer = k + 1;
      };
    }

unfoldable pub play_move_asserts : ℕ → ℕ → Game → Bool
play_move_asserts pos color g =
    let b = position_of g in
    g.reading.stackp == 0
    && (color == white || color == black)
    && (pos == pass_move || (on_board1 pos b && b.board pos == empty))
    && b.mem (only komaster) == empty
    && b.mem (only kom_pos) == no_move

unfoldable pub play_move : ℕ → ℕ → Game → Game
play_move pos color g =
    let asserted = assert_game (play_move_asserts pos color g) g in
    let ready =
      if leb max_move_history g.history.move_history_pointer
      then collapse_history asserted
      else asserted in
    let played = play_move_no_history pos color true (record_move pos color ready) in
    record played { movenum = played.movenum + 1 }

-- `n` is not negative, and no greater than `movenum`, which play_move counts up.
unfoldable pub undo_move : ℕ → Game → Bool × Game
undo_move n g =
    let asserted = assert_game (g.reading.stackp == 0) g in
    let rest = g.history.move_history_pointer - n in
    let replayed = replay_move_history rest asserted in
    if ltb g.history.move_history_pointer n then (false, asserted) else (
      true,
      record replayed {
        history = record replayed.history { move_history_pointer = rest };
        movenum = g.movenum - n;
      },
    )
