-- ===== src/Board/Trymove.antt =====
-- Temporary moves of engine/board.c: trymove, tryko and popgo, with do_trymove, really_do_trymove
-- and undo_trymove below them, and is_legal. Nothing is written to an SGF tree (`sgf_dumptree` is
-- NULL).
use gnugo.Base.{
  ℕ, ◌+◌, ◌-◌, ◌*◌, Bool, true, false, ◌&&◌, ◌||◌, not, List, [], ◌∷◌, leb, ◌==◌, if◌then◌else◌,
  length,
}
use gnugo.Color.{empty, white, black}
use gnugo.Point.{max_board, no_move, pass_move}
use gnugo.Hash.{hashdata_invert_ko}
use gnugo.Board.Cells.{Memory, only, update, board_ko_pos, black_captured, white_captured}
use gnugo.Board.State.{Board, Change, VertexChange, write, push_value, gg_assert}
use gnugo.Board.Legality.{on_board1, is_suicide, takes_ko}
use gnugo.Board.Play.{do_play_move}

-- The board with the stack of trial moves.
pub record Reading : Type 0 where
  pub position : Board
  pub stackp : ℕ
  pub move_stack : ℕ → ℕ
  pub move_color : ℕ → ℕ
  pub board_hash_stack : ℕ → ℕ
  pub shadow : ℕ → ℕ
  pub trymove_counter : ℕ
  pub count_variations : ℕ
  pub nodes : ℕ

abbrev pub max_stack : ℕ
max_stack = max_board * max_board

-- STACK_SIZE is `80 * MAXSTACK`, and MAXSTACK stands for `MAX_BOARD * MAX_BOARD`.
abbrev pub stack_size : ℕ
stack_size = 80 * max_board * max_board

-- a[i] = v
abbrev pub store : (ℕ → ℕ) → ℕ → ℕ → ℕ → ℕ
store a i v j = if i == j then v else a j

-- BEGIN_CHANGE_RECORD
abbrev pub begin_change_record : Board → Board
begin_change_record b = record b {
  changes = Change.begin ∷ b.changes;
  vertices = VertexChange.begin ∷ b.vertices;
}

-- POP_MOVE, as the stack and the memory that it leaves.
unfoldable pub popped_changes : List Change → List Change
popped_changes [] = []
popped_changes (Change.begin ∷ cs) = cs
popped_changes (Change.old_value c v ∷ cs) = popped_changes cs

unfoldable pub popped_memory : List Change → Memory → Memory
popped_memory [] m = m
popped_memory (Change.begin ∷ cs) m = m
popped_memory (Change.old_value c v ∷ cs) m = popped_memory cs (update m c v)

-- POP_VERTICES, likewise.
unfoldable pub popped_vertices : List VertexChange → List VertexChange
popped_vertices [] = []
popped_vertices (VertexChange.begin ∷ vs) = vs
popped_vertices (VertexChange.old_color p v ∷ vs) = popped_vertices vs

unfoldable pub popped_board : List VertexChange → (ℕ → ℕ) → ℕ → ℕ
popped_board [] board = board
popped_board (VertexChange.begin ∷ vs) board = board
popped_board (VertexChange.old_color p v ∷ vs) board = popped_board vs (store board p v)

-- The part of really_do_trymove before the stone is put down.
unfoldable pub open_record : Board → Board
open_record b =
    let pushed = push_value (only board_ko_pos) (begin_change_record b) in
    let old = pushed.mem (only board_ko_pos) in
    write (only board_ko_pos) no_move (
      if old == no_move
      then pushed
      else record pushed { board_hash = hashdata_invert_ko b.zobrist b.board_hash old })

unfoldable pub place_move : ℕ → ℕ → Board → Board
place_move pos color b =
    if pos == pass_move
    then b
    else do_play_move pos color
        (push_value (only white_captured) (push_value (only black_captured) b))

unfoldable pub really_do_trymove : ℕ → ℕ → Reading → Reading
really_do_trymove pos color r = record r {
  position = place_move pos color (open_record r.position);
  board_hash_stack = store r.board_hash_stack r.stackp r.position.board_hash;
  stackp = r.stackp + 1;
}

-- The tests of do_trymove on a move that is no pass, in their order.
unfoldable pub refuses : ℕ → ℕ → Bool → Board → Bool
refuses pos color ignore_ko b =
    not (b.board pos == empty) || (not ignore_ko && takes_ko pos color b) || is_suicide pos color b

abbrev pub set_position : Reading → Board → Reading
set_position r b = record r { position = b }

-- The assertion on the color, that on the point, and the store to `shadow`.
unfoldable pub enter : ℕ → ℕ → Reading → Reading
enter pos color r =
    let asserted = set_position r (gg_assert (color == black || color == white) r.position) in
    if pos == pass_move then asserted else record asserted {
      position = gg_assert (on_board1 pos asserted.position) asserted.position;
      shadow = store asserted.shadow pos 1;
    }

-- The part of do_trymove behind the assertions: the tests, the room on the stack, the move.
unfoldable pub try_entered : ℕ → ℕ → Bool → Reading → Bool × Reading
try_entered pos color ignore_ko r =
    let counted = record r {
      trymove_counter = r.trymove_counter + 1;
      move_stack = store r.move_stack r.stackp pos;
      move_color = store r.move_color r.stackp color;
    } in
    if not (pos == pass_move) && refuses pos color ignore_ko r.position
    then (false, r)
    else if leb (max_stack - 2) r.stackp
    then (false, r)
    else (true, really_do_trymove pos color counted)

unfoldable pub do_trymove : ℕ → ℕ → Bool → Reading → Bool × Reading
do_trymove pos color ignore_ko r = try_entered pos color ignore_ko (enter pos color r)

-- The statistics that trymove and tryko keep.
unfoldable pub count_node : Reading → Reading
count_node r = record r {
  count_variations = if r.count_variations == 0 then 0 else r.count_variations + 1;
  nodes = r.nodes + 1;
}

unfoldable pub finish_try : Bool × Reading → Bool × Reading
finish_try (true, r) = (true, count_node r)
finish_try (false, r) = (false, r)

unfoldable pub trymove : ℕ → ℕ → Reading → Bool × Reading
trymove pos color r = finish_try (do_trymove pos color false r)

unfoldable pub tryko : ℕ → ℕ → Reading → Bool × Reading
tryko pos color r = finish_try (do_trymove pos color true r)

-- The board after POP_MOVE and POP_VERTICES; the hash is restored apart.
unfoldable pub pop_record : ℕ → Board → Board
pop_record hash b = record b {
  changes = popped_changes b.changes;
  mem = popped_memory b.changes b.mem;
  vertices = popped_vertices b.vertices;
  board = popped_board b.vertices b.board;
  board_hash = hash;
}

unfoldable pub undo_trymove : Reading → Reading
undo_trymove r = record r {
  stackp = r.stackp - 1;
  position =
      pop_record (r.board_hash_stack (r.stackp - 1))
        (gg_assert (leb (length r.position.changes) stack_size) r.position);
}

unfoldable pub popgo : Reading → Reading
popgo r = undo_trymove r

-- is_legal, where its assertion that the point is on the board holds: `board` is not read outside of
-- the array. The comment on it says that suicide is always allowed; the code refuses it.
unfoldable pub is_legal : ℕ → ℕ → Reading → Bool
is_legal pos color r =
    pos == pass_move
    || (r.position.board pos == empty
        && not (takes_ko pos color r.position)
        && not (leb (max_stack - 2) r.stackp)
        && not (is_suicide pos color r.position))
