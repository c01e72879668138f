-- ===== src/Location.antt =====
-- The text forms of points, engine/printutils.c: location_to_buffer, location_to_string and
-- string_to_location. A text is the list of its characters, without the 0 at its end.
pub mod Round
pub mod Range
mod Samples
use gnugo.Base.{
  ℕ, zero, suc, ◌+◌, ◌-◌, ◌*◌, ◌/◌, ◌%◌, Bool, true, false, ◌&&◌, ◌||◌, not, List, [], ◌∷◌, leb,
  ltb, ◌==◌, if◌then◌else◌,
}
use gnugo.Point.{max_board, no_move, board_length, to_pos}

abbrev pub Text : Type 0
Text = List ℕ

-- isdigit, isalpha and tolower of the C library, on ASCII.
unfoldable pub isdigit : ℕ → Bool
isdigit c = leb 48 c && leb c 57

unfoldable pub isalpha : ℕ → Bool
isalpha c = (leb 65 c && leb c 90) || (leb 97 c && leb c 122)

unfoldable pub tolower : ℕ → ℕ
tolower c = if leb 65 c && leb c 90 then c + 32 else c

-- atoi of the C library on a text that begins with a digit, with the value so far. Where the number
-- is greater than an int, C leaves the result of atoi open; here it is the number.
unfoldable pub atoi_from : ℕ → Text → ℕ
atoi_from value [] = value
atoi_from value (c ∷ cs) =
    let rest = atoi_from (value * 10 + (c - 48)) cs in if isdigit c then rest else value

-- The letter of a column: `'A' + j`, where `j + 1` is the rest of `pos`, past the letter I.
unfoldable pub column_letter : ℕ → ℕ
column_letter pos = let c = 64 + pos % (max_board + 1) in if leb 73 c then c + 1 else c

-- `board_size - i`, which is at least 0 on the points of the board and above it.
unfoldable pub row_number : ℕ → ℕ → ℕ
row_number board_size pos = board_size + 1 - pos / (max_board + 1)

unfoldable pub location_to_buffer : ℕ → ℕ → Text
location_to_buffer board_size pos =
    let i = row_number board_size pos in
    if pos == no_move
    then 80 ∷ 97 ∷ 115 ∷ 115 ∷ []
    else if ltb 9 i
    then column_letter pos ∷ (48 + i / 10) ∷ (48 + i % 10) ∷ []
    else column_letter pos ∷ (48 + i % 10) ∷ []

-- The static variables of location_to_string.
pub record Names : Type 0 where
  pub init : Bool
  pub buf : ℕ → Text

-- The first call writes all texts.
unfoldable pub write_names : ℕ → Names → Names
write_names board_size names = record {
  init = true;
  buf = λ pos. if ltb pos board_length then location_to_buffer board_size pos else names.buf pos;
}

unfoldable pub location_to_string : ℕ → ℕ → Names → Text × Names
location_to_string board_size pos names =
    let names' = if names.init then names else write_names board_size names in
    (names'.buf pos, names')

-- The column of a letter; there is no column I.
unfoldable pub letter_column : ℕ → ℕ
letter_column c = let n = tolower c - 97 in if leb 105 (tolower c) then n - 1 else n

-- The tests on the digits and on the row `m = boardsize - atoi(str + 1)`.
unfoldable pub read_row : ℕ → ℕ → Text → ℕ
read_row boardsize n [] = no_move
read_row boardsize n (c ∷ cs) =
    let number = atoi_from 0 (c ∷ cs) in
    let m = boardsize - number in
    if not (isdigit c)
    then no_move
    else if ltb boardsize number || leb boardsize m
    then no_move
    else to_pos m n

unfoldable pub string_to_location : ℕ → Text → ℕ
string_to_location boardsize [] = no_move
string_to_location boardsize (c ∷ cs) =
    if not (isalpha c)
    then no_move
    else if leb boardsize (letter_column c)
    then no_move
    else read_row boardsize (letter_column c) cs
