-- ===== src/History/Superko.antt =====
-- The trial move of is_superko_violation of engine/board.c is taken back.
use gnugo.Base.{ℕ, ◌≡◌, ◌⊎◌, true}
use gnugo.Color.{empty, is_stone}
use gnugo.Point.{pass_move}
use gnugo.Board.Trymove.{really_do_trymove, popgo}
use gnugo.Board.Undo.Scanning.{AlliesList}
use gnugo.Board.Undo.Trying.{really_do_trymove-Tried}
use gnugo.Board.Undo.Search.{SameReading, SameReading-refl, popgo-Tried}
use gnugo.History.{Game, position_of}
use gnugo.History.Rules.{KoRules, simple, no_rule, psk, ssk, is_superko_violation}

-- Let the move be a pass, or one of a player on an empty point whose strings beside the point list it
-- among their liberties. Whatever the ko rule, is_superko_violation leaves the same position, with
-- the same moves under way.
pub is_superko_violation-SameReading :
    (pos color : ℕ) (type : KoRules) (g : Game)
    → is_stone color ≡ true
    → (pos ≡ pass_move) ⊎ ((position_of g).board pos ≡ empty) × AlliesList (position_of g) pos color
    → SameReading g.reading (is_superko_violation pos color type g).1.reading
unfolding is_superko_violation popgo
is_superko_violation-SameReading pos color type g stone fits =
    let taken_back =
      popgo-Tried g.reading (really_do_trymove pos color g.reading) _
        (really_do_trymove-Tried pos color g.reading stone fits) (SameReading-refl _) in
    elim type as (λ k. SameReading g.reading (is_superko_violation pos color k g).1.reading) [
      | psk ↦ taken_back
      | ssk ↦ taken_back
      | simple ↦ SameReading-refl g.reading
      | no_rule ↦ SameReading-refl g.reading
    ]
