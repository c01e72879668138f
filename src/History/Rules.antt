-- ===== src/History/Rules.antt =====
-- is_allowed_move and is_superko_violation of engine/board.c: the rules of the game in play.
use gnugo.Base.{ℕ, zero, suc, Bool, true, false, ◌&&◌, ◌||◌, not, ◌==◌, if◌then◌else◌}
use gnugo.Color.{empty, other_color}
use gnugo.Point.{pass_move}
use gnugo.Board.Legality.{on_board1, is_suicide, takes_ko}
use gnugo.Board.Queries.{has_neighbor}
use gnugo.Board.Trymove.{really_do_trymove, undo_trymove}
use gnugo.History.{History, Game, position_of, assert_game, hash_without_ko}

pub data SuicideRules : Type 0 where
  forbidden allowed all_allowed : SuicideRules

pub data KoRules : Type 0 where
  simple no_rule psk ssk : KoRules

abbrev pub is_psk : KoRules → Bool
is_psk psk = true
is_psk rule = false

abbrev pub is_superko : KoRules → Bool
is_superko psk = true
is_superko ssk = true
is_superko rule = false

-- ko_rule != NONE
abbrev pub has_ko_rule : KoRules → Bool
has_ko_rule no_rule = false
has_ko_rule rule = true

-- The loop over the `n` oldest moves, for the position with the hash `hash`.
unfoldable pub repeats : ℕ → ℕ → ℕ → KoRules → History → Bool
repeats zero hash color type h = false
repeats (suc n) hash color type h =
    (h.move_history_hash n == hash && (is_psk type || h.move_history_color n == other_color color))
    || repeats n hash color type h

-- The move is made and taken back, to see the hash behind it.
unfoldable pub is_superko_violation : ℕ → ℕ → KoRules → Game → Bool × Game
is_superko_violation pos color type g =
    let tried = really_do_trymove pos color g.reading in
    let this_board_hash = hash_without_ko (position_of g) in
    let new_board_hash = hash_without_ko tried.position in
    let same = is_psk type && this_board_hash == new_board_hash in
    if is_superko type
    then (
      same || repeats g.history.move_history_pointer new_board_hash color type g.history,
      record g { reading = undo_trymove tried },
    )
    else (false, g)

-- What the suicide rule forbids.
unfoldable pub forbids_suicide : SuicideRules → ℕ → ℕ → Game → Bool
forbids_suicide forbidden pos color g = true
forbids_suicide allowed pos color g = not (has_neighbor pos color (position_of g))
forbids_suicide all_allowed pos color g = false

-- The tests before the one for repetitions.
unfoldable pub refused_by_rules : ℕ → ℕ → SuicideRules → KoRules → Game → Bool
refused_by_rules pos color suicide_rule ko_rule g =
    let b = position_of g in
    not (b.board pos == empty)
    || (has_ko_rule ko_rule && takes_ko pos color b)
    || (is_suicide pos color b && forbids_suicide suicide_rule pos color g)

unfoldable pub is_allowed_move : ℕ → ℕ → SuicideRules → KoRules → Game → Bool × Game
is_allowed_move pos color suicide_rule ko_rule g =
    let opened = assert_game (g.reading.stackp == 0) g in
    let asserted = assert_game (on_board1 pos (position_of g)) opened in
    let (violation, g') = is_superko_violation pos color ko_rule asserted in
    if pos == pass_move
    then (true, opened)
    else if refused_by_rules pos color suicide_rule ko_rule asserted
    then (false, asserted)
    else (not violation, g')
