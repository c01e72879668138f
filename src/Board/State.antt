-- ===== src/Board/State.antt =====
-- The global variables of engine/board.c and the macros that read and change them.
use gnugo.Base.{
  ℕ, zero, suc, ◌+◌, ◌*◌, ◌/◌, Bool, true, false, ◌&&◌, ◌||◌, not, List, ◌∷◌, ltb, ◌==◌,
  if◌then◌else◌,
}
use gnugo.Color.{empty}
use gnugo.Point.{max_board, board_max, Direction, to_south, to_west, to_north, to_east}
use gnugo.Hash.{Zobrist, hashdata_invert_stone}
use gnugo.Board.Cells.{
  Cell, Memory, at, at_slot, only, update, string_origin, string_liberties, string_neighbors,
  string_mark, string_size, string_color, libs, neighbor_list, string_number, next_stone, ml,
  liberty_mark, string_mark_counter,
}

-- struct change_stack_entry; BEGIN_CHANGE_RECORD pushes the one whose address is NULL.
pub data Change : Type 0 where
  begin : Change
  old_value : Cell → ℕ → Change

-- struct vertex_stack_entry
pub data VertexChange : Type 0 where
  begin : VertexChange
  old_color : ℕ → ℕ → VertexChange

-- The head of each stack is its top. `faulty` is set where an assertion of the code fails, or where
-- a chain of stones does not return to its origin; the build with GG_TURN_OFF_ASSERTS goes on
-- after a failed assertion, and so does the model.
pub record Board : Type 0 where
  pub zobrist : Zobrist
  pub board : ℕ → ℕ
  pub mem : Memory
  pub changes : List Change
  pub vertices : List VertexChange
  pub board_hash : ℕ
  pub faulty : Bool

abbrev pub max_liberties : ℕ
max_liberties = 8

-- The int -1, as a 32-bit word.
abbrev pub minus_one : ℕ
minus_one = 4294967295

-- An assignment to a variable.
abbrev pub write : Cell → ℕ → Board → Board
write c v b = record b { mem = update b.mem c v }

-- PUSH_VALUE
abbrev pub push_value : Cell → Board → Board
push_value c b = record b { changes = Change.old_value c (b.mem c) ∷ b.changes }

-- MAX_STRINGS
abbrev pub max_strings : ℕ
max_strings = 4 * max_board * max_board / 5

-- PARANOID1
abbrev pub paranoid : Bool → Board → Board
paranoid test b = record b { faulty = b.faulty || not test }

-- gg_assert
abbrev pub gg_assert : Bool → Board → Board
gg_assert test b = if test then b else record b { faulty = true }

abbrev pub color_of : ℕ → Board → ℕ
color_of s b = b.mem (at string_color s)

abbrev pub size_of : ℕ → Board → ℕ
size_of s b = b.mem (at string_size s)

abbrev pub origin_of : ℕ → Board → ℕ
origin_of s b = b.mem (at string_origin s)

abbrev pub liberties_of : ℕ → Board → ℕ
liberties_of s b = b.mem (at string_liberties s)

abbrev pub neighbors_of : ℕ → Board → ℕ
neighbors_of s b = b.mem (at string_neighbors s)

abbrev pub number_at : ℕ → Board → ℕ
number_at pos b = b.mem (at string_number pos)

abbrev pub next_of : ℕ → Board → ℕ
next_of pos b = b.mem (at next_stone pos)

-- LIBERTY, UNMARKED_LIBERTY, UNMARKED_COLOR_STRING, LIBERTIES
abbrev pub is_liberty : ℕ → Board → Bool
is_liberty pos b = b.board pos == empty

abbrev pub unmarked_liberty : ℕ → Board → Bool
unmarked_liberty pos b =
    b.board pos == empty && not (b.mem (at ml pos) == b.mem (only liberty_mark))

abbrev pub unmarked_color_string : ℕ → ℕ → Board → Bool
unmarked_color_string pos color b =
    b.board pos == color
    && not (b.mem (at string_mark (number_at pos b)) == b.mem (only string_mark_counter))

abbrev pub liberties_at : ℕ → Board → ℕ
liberties_at pos b = liberties_of (number_at pos b) b

-- string_mark++ and liberty_mark++
abbrev pub next_string_mark : Board → Board
next_string_mark b = write (only string_mark_counter) (b.mem (only string_mark_counter) + 1) b

abbrev pub next_liberty_mark : Board → Board
next_liberty_mark b = write (only liberty_mark) (b.mem (only liberty_mark) + 1) b

abbrev pub set_string_mark : ℕ → Board → Board
set_string_mark s b = write (at string_mark s) (b.mem (only string_mark_counter)) b

-- MARK_STRING
unfoldable pub mark_string_at : ℕ → Board → Board
mark_string_at pos b = set_string_mark (number_at pos b) b

-- The store into the list of liberties, while there is room.
unfoldable pub list_liberty : ℕ → ℕ → Board → Board
list_liberty s pos b =
    if ltb (liberties_of s b) max_liberties
    then write (at_slot libs s (liberties_of s b)) pos b
    else b

-- ADD_LIBERTY
unfoldable pub add_liberty : ℕ → ℕ → Board → Board
add_liberty s pos b =
    let listed = list_liberty s pos b in
    write (at string_liberties s) (liberties_of s listed + 1) listed

-- ADD_AND_MARK_LIBERTY
unfoldable pub add_and_mark_liberty : ℕ → ℕ → Board → Board
add_and_mark_liberty s pos b =
    let added = add_liberty s pos b in write (at ml pos) (added.mem (only liberty_mark)) added

-- string_neighbors[s].list[string[s].neighbors++] = t
unfoldable pub add_neighbor_string : ℕ → ℕ → Board → Board
add_neighbor_string s t b =
    let n = neighbors_of s b in
    write (at string_neighbors s) (n + 1) (write (at_slot neighbor_list s n) t b)

-- ADD_NEIGHBOR
abbrev pub add_neighbor : ℕ → ℕ → Board → Board
add_neighbor s pos b = add_neighbor_string s (number_at pos b) b

-- DO_ADD_STONE
unfoldable pub do_add_stone : ℕ → ℕ → Board → Board
do_add_stone pos color b = record b {
  vertices = VertexChange.old_color pos (b.board pos) ∷ b.vertices;
  board = λ q. if pos == q then color else b.board q;
  board_hash = hashdata_invert_stone b.zobrist b.board_hash pos color;
}

-- DO_REMOVE_STONE
unfoldable pub do_remove_stone : ℕ → Board → Board
do_remove_stone pos b = record b {
  vertices = VertexChange.old_color pos (b.board pos) ∷ b.vertices;
  board_hash = hashdata_invert_stone b.zobrist b.board_hash pos (b.board pos);
  board = λ q. if pos == q then empty else b.board q;
}

-- STRING_AT_VERTEX
abbrev pub string_at_vertex : ℕ → ℕ → ℕ → Board → Bool
string_at_vertex pos s color b = b.board pos == color && number_at pos b == s

-- The board after a walk, and the last stone that it used.
abbrev pub Walk : Type 0
Walk = record { board : Board; last : ℕ }

-- `do { body(pos); pos = NEXT_STONE(pos); } while (!BACK_TO_FIRST_STONE(s, pos));` A string has
-- fewer than BOARDMAX stones, which is the fuel that callers give.
module _ (s : ℕ) (body : ℕ → Board → Board) where
  unfoldable pub walk : ℕ → ℕ → Board → Walk
  walk zero pos b = record { board = record b { faulty = true }; last = pos }
  walk (suc fuel) pos b =
      let b' = body pos b in
      elim (next_of pos b' == origin_of s b') [
        | true ↦ record { board = b'; last = pos }
        | false ↦ walk fuel (next_of pos b') b'
      ]

-- The walk from FIRST_STONE(s).
abbrev pub walk_string : ℕ → (ℕ → Board → Board) → Board → Board
walk_string s body b = (walk s body board_max (origin_of s b) b).board

-- A piece of code that is written out once for each direction, SOUTH, WEST, NORTH, EAST.
abbrev pub around : (Direction → Board → Board) → Board → Board
around f b = f to_east (f to_north (f to_west (f to_south b)))

-- MARK_STRING is disabled in the last direction.
abbrev pub marks : Direction → Bool
marks to_south = true
marks to_west = true
marks to_north = true
marks to_east = false
