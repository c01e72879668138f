-- ===== src/Location/Round.antt =====
-- The text of a point is read back as that point.
use gnugo.Base.{
  ℕ, ◌+◌, ◌-◌, ◌*◌, ◌/◌, ◌%◌, ◌≤◌, ◌<◌, ◌≡◌, ◌⊎◌, inl, inr, refl, ◌∙◌, true, false, ◌||◌, [], ◌∷◌,
  leb, ltb, ◌==◌, if◌then◌else◌, arith, Bool-cases,
}
use gnugo.Point.{max_board, no_move, board_length, to_pos}
use gnugo.Location.{
  Text, isdigit, isalpha, tolower, atoi_from, column_letter, row_number, location_to_buffer, Names,
  write_names, location_to_string, letter_column, read_row, string_to_location,
}

letter_column-column_letter :
    (pos : ℕ)
    → 1 ≤ pos % (max_board + 1)
    → letter_column (column_letter pos) ≡ pos % (max_board + 1) - 1
unfolding letter_column column_letter tolower
letter_column-column_letter pos some = ground (arith, some)

isalpha-column_letter : (pos : ℕ) → 1 ≤ pos % (max_board + 1) → isalpha (column_letter pos) ≡ true
unfolding isalpha column_letter
isalpha-column_letter pos some = ground (arith, some)

isdigit_digit : (k : ℕ) → k < 10 → isdigit (48 + k) ≡ true
unfolding isdigit
isdigit_digit k low = ground (arith, low)

-- The digits of a row are read as its number.
read_row_digits :
    (boardsize n i : ℕ)
    → 1 ≤ i
    → i ≤ boardsize
    → boardsize ≤ max_board
    → read_row boardsize n
        (if ltb 9 i then (48 + i / 10) ∷ (48 + i % 10) ∷ [] else (48 + i % 10) ∷ [])
      ≡ to_pos (boardsize - i) n
unfolding read_row atoi_from
read_row_digits boardsize n i some low size =
    let ones = isdigit_digit (i % 10) (omega arith) in
    let fits : (ltb boardsize i || leb boardsize (boardsize - i)) ≡ false =
      ground (arith, some, low) in
    elim (Bool-cases (ltb 9 i)) [
      | inl two ↦
          let tens = isdigit_digit (i / 10) (omega (arith, low, size)) in
          let value : (0 * 10 + (48 + i / 10 - 48)) * 10 + (48 + i % 10 - 48) ≡ i = omega arith in
          rw (two, tens, ones, value, fits) refl
      | inr one ↦
          let value : 0 * 10 + (48 + i % 10 - 48) ≡ i = ground (arith, one) in
          rw (one, ones, value, fits) refl
    ]

abbrev digits : ℕ → Text
digits i = if ltb 9 i then (48 + i / 10) ∷ (48 + i % 10) ∷ [] else (48 + i % 10) ∷ []

location_to_buffer_lem :
    (board_size pos : ℕ)
    → (pos == no_move) ≡ false
    → location_to_buffer board_size pos ≡ column_letter pos ∷ digits (row_number board_size pos)
unfolding location_to_buffer
location_to_buffer_lem board_size pos move = elim (Bool-cases (ltb 9 (row_number board_size pos))) [
  | inl two ↦ rw (move, two) refl
  | inr one ↦ rw (move, one) refl
]

-- "Pass" is no point: its second letter is no digit.
string_to_location-Pass :
    (board_size : ℕ)
    → string_to_location board_size (location_to_buffer board_size no_move) ≡ no_move
unfolding string_to_location location_to_buffer read_row isalpha isdigit
string_to_location-Pass board_size = elim (Bool-cases (leb board_size (letter_column 80))) [
  | inl small ↦ rw small refl
  | inr large ↦ rw large refl
]

-- On a board of at most 19 rows, the text of a point, or of a pass, is read back as that point.
string_to_location-location_to_buffer :
    (board_size pos : ℕ)
    → board_size ≤ max_board
    → (pos ≡ no_move)
      ⊎ (1 ≤ pos / (max_board + 1))
        × (pos / (max_board + 1) ≤ board_size)
        × (1 ≤ pos % (max_board + 1))
        × (pos % (max_board + 1) ≤ board_size)
    → string_to_location board_size (location_to_buffer board_size pos) ≡ pos
unfolding string_to_location row_number
string_to_location-location_to_buffer board_size pos size on =
    let i = row_number board_size pos in
    elim on [
      | inl pass ↦ rw pass (string_to_location-Pass board_size)
      | inr (low_i, high_i, low_j, high_j) ↦
          let move : (pos == no_move) ≡ false = ground (arith, low_j) in
          let letter = isalpha-column_letter pos low_j in
          let column = letter_column-column_letter pos low_j in
          let fits : leb board_size (pos % (max_board + 1) - 1) ≡ false =
            ground (arith, low_j, high_j) in
          rw (location_to_buffer_lem board_size pos move, letter, column, fits)
            (read_row_digits board_size (pos % (max_board + 1) - 1) i (omega (arith, high_i))
                (omega (arith, low_i)) size
              ∙ omega (arith, low_i, high_i, low_j))
    ]

-- The texts that a call of location_to_string left for boards of this size, or none yet.
abbrev pub Fits : ℕ → Names → Type 0
Fits board_size names =
    (names.init ≡ false)
    ⊎ ((pos : ℕ) → pos < board_length → names.buf pos ≡ location_to_buffer board_size pos)

-- Let location_to_string not have been called yet, or on a board of the same size. On a board of at
-- most 19 rows, the text that it gives for a point, or for a pass, is read back as that point.
pub string_to_location-location_to_string :
    (board_size pos : ℕ) (names : Names)
    → board_size ≤ max_board
    → Fits board_size names
    → (pos ≡ no_move)
      ⊎ (1 ≤ pos / (max_board + 1))
        × (pos / (max_board + 1) ≤ board_size)
        × (1 ≤ pos % (max_board + 1))
        × (pos % (max_board + 1) ≤ board_size)
    → string_to_location board_size (location_to_string board_size pos names).0 ≡ pos
unfolding location_to_string write_names
string_to_location-location_to_string board_size pos names size fits on =
    let low : pos < board_length = elim on [
      | inl pass ↦ omega (arith, pass)
      | inr (low_i, high_i, low_j, high_j) ↦ omega (arith, high_i, size)
    ] in
    let inside : ltb pos board_length ≡ true = ground (arith, low) in
    let text : (location_to_string board_size pos names).0 ≡ location_to_buffer board_size pos =
      elim (Bool-cases names.init) [
        | inr fresh ↦ rw (fresh, inside) refl
        | inl called ↦ elim fits [
          | inl fresh ↦ rw (fresh, inside) refl
          | inr written ↦ rw called (written pos low)
        ]
      ] in
    rw text (string_to_location-location_to_buffer board_size pos size on)
