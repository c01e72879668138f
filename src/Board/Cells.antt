-- ===== src/Board/Cells.antt =====
-- The integer variables of engine/board.c as cells of one memory. PUSH_VALUE stores the address of
-- such a variable with its old value; here an address is a `Cell`.
use gnugo.Base.{ℕ, Bool, ◌&&◌, ◌==◌, if◌then◌else◌}

-- The arrays and the single variables. `string_color` is the member `color` of the array `string`,
-- `libs` is `string_libs[s].list`, and so on.
pub data Field : Type 0 where
  string_color string_size string_origin string_liberties string_neighbors string_mark : Field
  libs neighbor_list : Field
  string_number next_stone ml : Field
  next_string liberty_mark string_mark_counter : Field
  board_ko_pos black_captured white_captured komaster kom_pos : Field

abbrev pub field_code : Field → ℕ
field_code string_color = 0
field_code string_size = 1
field_code string_origin = 2
field_code string_liberties = 3
field_code string_neighbors = 4
field_code string_mark = 5
field_code libs = 6
field_code neighbor_list = 7
field_code string_number = 8
field_code next_stone = 9
field_code ml = 10
field_code next_string = 11
field_code liberty_mark = 12
field_code string_mark_counter = 13
field_code board_ko_pos = 14
field_code black_captured = 15
field_code white_captured = 16
field_code komaster = 17
field_code kom_pos = 18

-- `index` is the index into the array, `slot` that into the list of a string.
pub record Cell : Type 0 where
  pub field : Field
  pub index : ℕ
  pub slot : ℕ

abbrev pub at : Field → ℕ → Cell
at f s = record { field = f; index = s; slot = 0 }

abbrev pub at_slot : Field → ℕ → ℕ → Cell
at_slot f s k = record { field = f; index = s; slot = k }

abbrev pub only : Field → Cell
only f = at f 0

abbrev pub cell_eq : Cell → Cell → Bool
cell_eq c d = field_code c.field == field_code d.field && c.index == d.index && c.slot == d.slot

abbrev pub Memory : Type 0
Memory = Cell → ℕ

abbrev pub update : Memory → Cell → ℕ → Memory
update m c v d = if cell_eq c d then v else m d
