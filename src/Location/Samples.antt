-- ===== src/Location/Samples.antt =====
-- The point 110 is K15 on a board of 19 rows.
use gnugo.Base.{◌≡◌, ◌⊎◌, inl, inr, refl, false, [], ◌∷◌, arith}
use gnugo.Point.{no_move}
use gnugo.Location.{
  Names, location_to_buffer, location_to_string, string_to_location, write_names, column_letter,
  row_number, letter_column, tolower,
}
use gnugo.Location.Round.{string_to_location-location_to_string}
use gnugo.Location.Range.{IsPoint, string_to_location-IsPoint}

abbrev no_names : Names
no_names = record { init = false; buf = λ pos. [] }

string_to_location-location_to_string_example :
    string_to_location 19 (location_to_string 19 110 no_names).0 ≡ 110
string_to_location-location_to_string_example =
    string_to_location-location_to_string 19 110 no_names (omega arith) (inl refl)
      (inr (omega arith, omega arith, omega arith, omega arith))

text_110 : (location_to_string 19 110 no_names).0 ≡ 75 ∷ 49 ∷ 53 ∷ []
unfolding location_to_string write_names location_to_buffer column_letter row_number
text_110 = refl

-- After a call on a board of 19 rows, the lower left corner of a board of 9 rows is called A11, and
-- not A1.
stale_names :
    (location_to_string 9 181 (location_to_string 19 110 no_names).1).0 ≡ 65 ∷ 49 ∷ 49 ∷ []
unfolding location_to_string write_names location_to_buffer column_letter row_number
stale_names = refl

right_name : location_to_buffer 9 181 ≡ 65 ∷ 49 ∷ []
unfolding location_to_buffer column_letter row_number
right_name = refl

-- The text "z99" is off the board.
string_to_location-IsPoint_example :
    (string_to_location 19 (122 ∷ 57 ∷ 57 ∷ []) ≡ no_move)
    ⊎ IsPoint 19 (string_to_location 19 (122 ∷ 57 ∷ 57 ∷ []))
string_to_location-IsPoint_example = string_to_location-IsPoint 19 (122 ∷ 57 ∷ 57 ∷ [])

-- The letter I names no column, and is read as H.
letter_i : letter_column 73 ≡ letter_column 72
unfolding letter_column tolower
letter_i = refl
