-- ===== src/Board/Undo/Live.antt =====
-- Which variables of engine/board.c mean something in a position, and what popping the change
-- stack leaves in each.
use gnugo.Base.{
  ℕ, ◌≡◌, refl, ap, sym, ◌∙◌, Bool, true, false, ◌&&◌, Option, none, some, List, [], ◌∷◌, ltb, ◌==◌,
  if◌then◌else◌, ==→≡, arith, is_some, get_or,
}
use gnugo.Color.{is_stone}
use gnugo.Board.Cells.{
  Field, Cell, Memory, at, only, cell_eq, field_code, update, string_color, string_size,
  string_origin, string_liberties, string_neighbors, string_mark, libs, neighbor_list,
  string_number, next_stone, ml, next_string, liberty_mark, string_mark_counter, board_ko_pos,
  black_captured, white_captured, komaster, kom_pos,
}
use gnugo.Board.State.{Board, Change, max_liberties}
use gnugo.Board.Trymove.{popped_memory}

decode : ℕ → Field
decode n =
    if n == 0
    then string_color
    else if n == 1
    then string_size
    else if n == 2
    then string_origin
    else if n == 3
    then string_liberties
    else if n == 4
    then string_neighbors
    else if n == 5
    then string_mark
    else if n == 6
    then libs
    else if n == 7
    then neighbor_list
    else if n == 8
    then string_number
    else if n == 9
    then next_stone
    else if n == 10
    then ml
    else if n == 11
    then next_string
    else if n == 12
    then liberty_mark
    else if n == 13
    then string_mark_counter
    else if n == 14
    then board_ko_pos
    else if n == 15
    then black_captured
    else if n == 16
    then white_captured
    else if n == 17
    then komaster
    else kom_pos

decode-field_code : (f : Field) → decode (field_code f) ≡ f
unfolding decode
decode-field_code string_color = refl
decode-field_code string_size = refl
decode-field_code f = refl

-- Cells that compare as equal are equal.
pub cell_eq→≡ : (c d : Cell) → cell_eq c d ≡ true → c ≡ d
cell_eq→≡ c d h =
    let f : c.field ≡ d.field =
      sym (decode-field_code c.field)
      ∙ ap decode (==→≡ (field_code c.field) (field_code d.field) (ground arith))
      ∙ decode-field_code d.field in
    let i : c.index ≡ d.index = ground arith in
    let k : c.slot ≡ d.slot = ground arith in λ t. record { field = f t; index = i t; slot = k t }

-- The variables that mean something: those of the strings up to `next_string`, the listed
-- liberties and neighbors, the string number and the link of each stone, and the single ones. The
-- marks mean nothing between moves, nor do the links of an empty point.
abbrev pub live : Field → ℕ → ℕ → (ℕ → ℕ) → Memory → Bool
live string_color s k board m = ltb s (m (only next_string))
live string_size s k board m = ltb s (m (only next_string))
live string_origin s k board m = ltb s (m (only next_string))
live string_liberties s k board m = ltb s (m (only next_string))
live string_neighbors s k board m = ltb s (m (only next_string))
live string_mark s k board m = false
live libs s k board m =
    ltb s (m (only next_string)) && ltb k (m (at string_liberties s)) && ltb k max_liberties
live neighbor_list s k board m = ltb s (m (only next_string)) && ltb k (m (at string_neighbors s))
live string_number p k board m = k == 0 && is_stone (board p)
live next_stone p k board m = k == 0 && is_stone (board p)
live ml p k board m = false
live next_string s k board m = true
live liberty_mark s k board m = false
live string_mark_counter s k board m = false
live board_ko_pos s k board m = true
live black_captured s k board m = true
live white_captured s k board m = true
live komaster s k board m = true
live kom_pos s k board m = true

abbrev pub live_in : Board → Cell → Bool
live_in b c = live c.field c.index c.slot b.board b.mem

-- The value that popping the topmost record puts into a cell, if the record has one: the oldest.
abbrev pub older : Option ℕ → Option ℕ → Option ℕ
older (some w) o = some w
older none o = o

abbrev pub saved : List Change → Cell → Option ℕ
saved [] c = none
saved (Change.begin ∷ cs) c = none
saved (Change.old_value d v ∷ cs) c = older (saved cs c) (if cell_eq d c then some v else none)

abbrev pub logged : List Change → Cell → Bool
logged cs c = is_some (saved cs c)

-- Popping gives each cell its saved value, and leaves the others alone.
pub popped_memory-saved :
    (cs : List Change) (m : Memory) (c : Cell) → popped_memory cs m c ≡ get_or (saved cs c) (m c)
unfolding popped_memory
popped_memory-saved [] m c = refl
popped_memory-saved (Change.begin ∷ cs) m c = refl
popped_memory-saved (Change.old_value d v ∷ cs) m c =
    ground (arith, popped_memory-saved cs (update m d v) c)

-- A push keeps what is logged, and logs its cell.
pub logged-push :
    (cs : List Change) (d c : Cell) (v : ℕ)
    → logged cs c ≡ true
    → logged (Change.old_value d v ∷ cs) c ≡ true
logged-push cs d c v h = ground arith

pub cell_eq_refl : (c : Cell) → cell_eq c c ≡ true
cell_eq_refl c = ground arith

pub logged-push_self :
    (cs : List Change) (c : Cell) (v : ℕ) → logged (Change.old_value c v ∷ cs) c ≡ true
logged-push_self cs c v = ground (arith, cell_eq_refl c)
