-- ===== src/Color.antt =====
-- enum colors of engine/board.h: the contents of an intersection, the players, and the states of
-- the komaster. They are numbers, as in C, since the arrays of the board hold them as such.
use gnugo.Base.{ℕ, ◌+◌, ◌-◌, Bool, ◌||◌, ◌==◌}

abbrev pub empty : ℕ
empty = 0

abbrev pub white : ℕ
white = 1

abbrev pub black : ℕ
black = 2

abbrev pub gray : ℕ
gray = 3

abbrev pub gray_white : ℕ
gray_white = 4

abbrev pub gray_black : ℕ
gray_black = 5

abbrev pub weak_ko : ℕ
weak_ko = 6

-- OTHER_COLOR(color), which is WHITE + BLACK - color.
abbrev pub other_color : ℕ → ℕ
other_color color = white + black - color

-- IS_STONE(arg)
abbrev pub is_stone : ℕ → Bool
is_stone arg = arg == white || arg == black
