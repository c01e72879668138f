-- ===== src/Board/Samples.antt =====
-- A small game: a black stone on an otherwise empty board, with a stone beside it to be tried, and a
-- komaster capture.
use gnugo.Base.{
  ℕ, some, ◌+◌, ◌-◌, ◌*◌, ◌%◌, ◌≡◌, refl, inr, Bool, true, false, ◌&&◌, ◌||◌, not, [], ltb, leb,
  ◌==◌, if◌then◌else◌, arith,
}
use gnugo.Color.{empty, gray, black, white}
use gnugo.Point.{Direction, to_south, to_west, to_north, to_east, board_min, board_max, step}
use gnugo.Hash.{Zobrist, hashdata_invert_stone, hashdata_recalc, recalc_stones}
use gnugo.Board.State.{
  Board, list_liberty, add_liberty, add_and_mark_liberty, do_add_stone, mark_string_at,
}
use gnugo.Board.Liberties.{find_entry}
use gnugo.Board.Strings.{start_string, create_towards, create_new_string}
use gnugo.Board.Play.{meets, mark_if, scan_towards, put_down, scan_around, note_ko, do_play_move}
use gnugo.Board.Legality.{gives_life, is_suicide, takes_ko, is_ko, ko_towards, ko_result}
use gnugo.Board.Trymove.{
  Reading, open_record, place_move, really_do_trymove, refuses, enter, try_entered, do_trymove,
  count_node, finish_try, trymove, tryko, popgo, is_legal, max_stack,
}
use gnugo.Board.Cells.{at, string_number}
use gnugo.Board.Undo.Scanning.{AlliesList}
use gnugo.Board.Undo.Results.{marked, trymove-refused}
use gnugo.Board.Undo.Komasters.{popgo-komaster_trymove}
use gnugo.Board.Komaster.{komaster_trymove, komaster_forbids, after_trymove}
use gnugo.Board.Acceptance.{trymove-is_legal, tryko-is_legal}
use gnugo.Board.Ko.{Surrounds, Captured, all_taken, is_ko-Captured}
use gnugo.Board.Hashing.{HashIsRecalc}
use gnugo.Board.Undo.Trying.{Fits}
use gnugo.Board.Undo.Search.{SameReading, SameReading-refl, popgo-trymove, popgo-tryko}

abbrev pub hashes : Zobrist
hashes = record {
  white_hash = λ k. k * 3 + 1;
  black_hash = λ k. k * 5 + 2;
  ko_hash = λ k. k * 7 + 3;
  komaster_hash = λ k. k * 11;
  kom_pos_hash = λ k. k * 13;
}

-- A board of full size.
abbrev pub empty_board : Board
empty_board = record {
  zobrist = hashes;
  board = λ q. if ltb q board_min || leb board_max q || q % 20 == 0 then gray else empty;
  mem = λ c. 0;
  changes = [];
  vertices = [];
  board_hash = 0;
  faulty = false;
}

abbrev pub start : Reading
start = record {
  position = empty_board;
  stackp = 0;
  move_stack = λ k. 0;
  move_color = λ k. 0;
  board_hash_stack = λ k. 0;
  shadow = λ k. 0;
  trymove_counter = 0;
  count_variations = 0;
  nodes = 0;
}

abbrev pub after_first : Reading
after_first = (trymove 110 black start).1

first_is_played : (trymove 110 black start).0 ≡ true
unfolding trymove do_trymove try_entered enter refuses is_suicide gives_life takes_ko finish_try
first_is_played = refl

first_is_black : after_first.position.board 110 ≡ black
unfolding trymove do_trymove try_entered enter refuses is_suicide gives_life takes_ko finish_try
    count_node really_do_trymove place_move open_record do_play_move scan_around put_down
    do_add_stone scan_towards meets note_ko create_new_string start_string create_towards
    add_and_mark_liberty add_liberty list_liberty
first_is_black = refl

first_string : after_first.position.mem (at string_number 110) ≡ 0
unfolding trymove do_trymove try_entered enter refuses is_suicide gives_life takes_ko finish_try
    count_node really_do_trymove place_move open_record do_play_move scan_around put_down
    do_add_stone scan_towards meets mark_if mark_string_at note_ko create_new_string start_string
    create_towards add_and_mark_liberty add_liberty list_liberty
first_string = refl

second_allies : AlliesList after_first.position 111 black
unfolding find_entry trymove do_trymove try_entered enter refuses is_suicide gives_life takes_ko
    finish_try count_node really_do_trymove place_move open_record do_play_move scan_around put_down
    do_add_stone scan_towards meets mark_if mark_string_at note_ko create_new_string start_string
    create_towards add_and_mark_liberty add_liberty list_liberty
second_allies to_south e = absurd (omega (arith, e))
second_allies to_west e = (omega arith, inr refl)
second_allies to_north e = absurd (omega (arith, e))
second_allies to_east e = absurd (omega (arith, e))

second-Fits : Fits 111 black after_first.position
second-Fits = (refl, inr second_allies)

popgo-trymove_example : SameReading after_first (popgo (trymove 111 black after_first).1)
unfolding trymove do_trymove try_entered enter refuses is_suicide gives_life takes_ko finish_try
    count_node really_do_trymove place_move open_record do_play_move scan_around put_down
    do_add_stone scan_towards meets mark_if mark_string_at note_ko create_new_string start_string
    create_towards add_and_mark_liberty add_liberty list_liberty
popgo-trymove_example =
    popgo-trymove 111 black after_first (trymove 111 black after_first).1
      (trymove 111 black after_first).1 second-Fits refl
      (SameReading-refl (trymove 111 black after_first).1)

popgo-tryko_example : SameReading after_first (popgo (tryko 111 black after_first).1)
unfolding trymove tryko do_trymove try_entered enter refuses is_suicide gives_life takes_ko
    finish_try count_node really_do_trymove place_move open_record do_play_move scan_around put_down
    do_add_stone scan_towards meets mark_if mark_string_at note_ko create_new_string start_string
    create_towards add_and_mark_liberty add_liberty list_liberty
popgo-tryko_example =
    popgo-tryko 111 black after_first (tryko 111 black after_first).1
      (tryko 111 black after_first).1 second-Fits refl
      (SameReading-refl (tryko 111 black after_first).1)

popgo-komaster_trymove_example :
    SameReading after_first (popgo (komaster_trymove 111 black true after_first).reading)
unfolding trymove do_trymove try_entered enter refuses is_suicide gives_life takes_ko finish_try
    count_node really_do_trymove place_move open_record do_play_move scan_around put_down
    do_add_stone scan_towards meets mark_if mark_string_at note_ko create_new_string start_string
    create_towards add_and_mark_liberty add_liberty list_liberty is_ko ko_towards ko_result
    komaster_trymove komaster_forbids after_trymove
popgo-komaster_trymove_example =
    popgo-komaster_trymove 111 black after_first second-Fits true
      (komaster_trymove 111 black true after_first).reading refl
      (SameReading-refl (komaster_trymove 111 black true after_first).reading)

trymove-refused_example :
    (f : Bool) × (h : ℕ → ℕ) × ((trymove 110 white after_first).1 ≡ marked f h after_first)
unfolding trymove do_trymove try_entered enter refuses is_suicide gives_life takes_ko finish_try
    count_node really_do_trymove place_move open_record do_play_move scan_around put_down
    do_add_stone scan_towards meets mark_if mark_string_at note_ko create_new_string start_string
    create_towards add_and_mark_liberty add_liberty list_liberty
trymove-refused_example =
    trymove-refused 110 white after_first (trymove 110 white after_first).1 refl

trymove-is_legal_example :
    (trymove 110 white after_first).0
    ≡ is_legal 110 white after_first && not (leb (max_stack - 2) after_first.stackp)
trymove-is_legal_example = trymove-is_legal 110 white after_first

tryko-is_legal_example :
    (tryko 111 white after_first).0
    ≡ (is_legal 111 white after_first
        || after_first.position.board 111 == empty
          && takes_ko 111 white after_first.position
          && not (is_suicide 111 white after_first.position))
      && not (leb (max_stack - 2) after_first.stackp)
tryko-is_legal_example = tryko-is_legal 111 white after_first

-- White stones at 22, in atari, and at 41; black ones at 23 and 42. Black takes a ko at 21.
abbrev corner : Reading
corner = (trymove 41 white (trymove 22 white (trymove 42 black (trymove 23 black start).1).1).1).1

is_ko-Captured_example :
    ((kpos : ℕ)
      → is_ko 21 black corner.position ≡ some kpos
      → ((d : Direction) → Surrounds (step d 21) black corner.position)
        × Captured kpos 21 black corner.position
        × (all_taken 21 black corner.position ≡ 1))
    × (((d : Direction) → Surrounds (step d 21) black corner.position)
        → all_taken 21 black corner.position ≡ 1
        → (kpos : ℕ) × (is_ko 21 black corner.position ≡ some kpos))
is_ko-Captured_example = is_ko-Captured 21 black corner.position

empty-HashIsRecalc : HashIsRecalc empty_board
unfolding hashdata_recalc recalc_stones
empty-HashIsRecalc = refl

abbrev one_stone : Board
one_stone = do_add_stone 110 black empty_board

one_stone-HashIsRecalc : HashIsRecalc one_stone
unfolding hashdata_recalc recalc_stones do_add_stone hashdata_invert_stone
one_stone-HashIsRecalc = refl
