-- ===== src/Location/Range.antt =====
-- Whatever is read is a point of the board, or no move.
use gnugo.Base.{ℕ, ◌-◌, ◌<◌, ◌≡◌, ◌⊎◌, inl, inr, refl, ◌||◌, [], ◌∷◌, leb, ltb, arith, Bool-cases}
use gnugo.Point.{no_move, to_pos}
use gnugo.Location.{Text, isdigit, isalpha, atoi_from, letter_column, read_row, string_to_location}

-- A point of a board: POS(i, j) of a row and a column.
abbrev pub IsPoint : ℕ → ℕ → Type 0
IsPoint boardsize pos = (i : ℕ) × (j : ℕ) × (i < boardsize) × (j < boardsize) × (pos ≡ to_pos i j)

read_row-IsPoint :
    (boardsize n : ℕ) (cs : Text)
    → n < boardsize
    → (read_row boardsize n cs ≡ no_move) ⊎ IsPoint boardsize (read_row boardsize n cs)
unfolding read_row
read_row-IsPoint boardsize n [] low = inl refl
read_row-IsPoint boardsize n (c ∷ cs) low =
    let number = atoi_from 0 (c ∷ cs) in
    elim (Bool-cases (isdigit c)) [
      | inr none ↦ rw none (inl refl)
      | inl digit ↦ elim (Bool-cases (ltb boardsize number || leb boardsize (boardsize - number))) [
        | inl out ↦ rw (digit, out) (inl refl)
        | inr fine ↦ rw (digit, fine) (inr (boardsize - number, n, ground (arith, fine), low, refl))
      ]
    ]

-- Whatever the text, string_to_location gives no move or POS(i, j) of a row and a column of the
-- board. The number of the row is read as a natural number.
pub string_to_location-IsPoint :
    (boardsize : ℕ) (str : Text)
    → (string_to_location boardsize str ≡ no_move)
      ⊎ IsPoint boardsize (string_to_location boardsize str)
unfolding string_to_location
string_to_location-IsPoint boardsize [] = inl refl
string_to_location-IsPoint boardsize (c ∷ cs) = elim (Bool-cases (isalpha c)) [
  | inr none ↦ rw none (inl refl)
  | inl letter ↦ elim (Bool-cases (leb boardsize (letter_column c))) [
    | inl out ↦ rw (letter, out) (inl refl)
    | inr fine ↦
        rw (letter, fine) (read_row-IsPoint boardsize (letter_column c) cs (ground (arith, fine)))
  ]
]
