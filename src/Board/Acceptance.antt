-- ===== src/Board/Acceptance.antt =====
-- The moves that trymove, tryko and is_legal of engine/board.c accept.
use gnugo.Base.{
  ℕ, ◌-◌, ◌≡◌, refl, ap, ◌∙◌, Bool, true, false, ◌&&◌, ◌||◌, not, leb, ◌==◌, if◌then◌else◌, arith,
}
use gnugo.Color.{empty}
use gnugo.Point.{pass_move}
use gnugo.Board.Legality.{is_suicide, gives_life, takes_ko}
use gnugo.Board.Trymove.{
  Reading, refuses, do_trymove, max_stack, try_entered, trymove, tryko, finish_try, is_legal,
}
use gnugo.Board.Undo.Trying.{enter_position}
use gnugo.Board.Undo.Results.{marked}

succeeds-finish_try : (tried : Bool × Reading) → (finish_try tried).0 ≡ tried.0
unfolding finish_try
succeeds-finish_try (true, r) = refl
succeeds-finish_try (false, r) = refl

two_tests_first :
    (pass refused full : Bool) (r q : Reading)
    → (if◌then◌else◌ {A = Bool × Reading}
        (not pass && refused)
        (false, r)
        (if full then (false, r) else (true, q))).0
      ≡ ((pass || not refused) && not full)
two_tests_first true refused true r q = refl
two_tests_first true refused false r q = refl
two_tests_first false true full r q = refl
two_tests_first false false true r q = refl
two_tests_first false false false r q = refl

module _ (pos color : ℕ) where
  -- What trymove and tryko accept.
  accepts : Bool → Reading → Bool
  accepts ignore_ko r =
      (pos == pass_move || not (refuses pos color ignore_ko r.position))
      && not (leb (max_stack - 2) r.stackp)

  accepts-marked :
      (ignore_ko f : Bool) (s : ℕ → ℕ) (r : Reading)
      → accepts ignore_ko (marked f s r) ≡ accepts ignore_ko r
  unfolding accepts marked refuses is_suicide takes_ko gives_life
  accepts-marked ignore_ko f s r = refl

  accepts-try_entered :
      (ignore_ko : Bool) (r : Reading) → (try_entered pos color ignore_ko r).0 ≡ accepts ignore_ko r
  unfolding accepts try_entered
  accepts-try_entered ignore_ko r =
      two_tests_first (pos == pass_move) (refuses pos color ignore_ko r.position)
        (leb (max_stack - 2) r.stackp) r _

  accepts-do_trymove :
      (ignore_ko : Bool) (r : Reading)
      → (finish_try (do_trymove pos color ignore_ko r)).0 ≡ accepts ignore_ko r
  unfolding do_trymove marked
  accepts-do_trymove ignore_ko r =
      let (f, s, e) = enter_position pos color r in
      succeeds-finish_try (do_trymove pos color ignore_ko r)
      ∙ ap (λ x. (try_entered pos color ignore_ko x).0) e
      ∙ accepts-try_entered ignore_ko (marked f s r)
      ∙ accepts-marked ignore_ko f s r

-- trymove accepts a move exactly where is_legal does and the stack of moves has room; is_legal does
-- not ask for that room where the move is a pass. Both refuse a suicide, though the comment on
-- is_legal says that it always allows suicide.
pub trymove-is_legal :
    (pos color : ℕ) (r : Reading)
    → (trymove pos color r).0 ≡ is_legal pos color r && not (leb (max_stack - 2) r.stackp)
unfolding trymove is_legal accepts refuses
trymove-is_legal pos color r = accepts-do_trymove pos color false r ∙ ground arith

-- tryko accepts in addition the moves that only the ko rule forbids. A suicide is refused by all of
-- these, whatever the comment on is_legal says.
pub tryko-is_legal :
    (pos color : ℕ) (r : Reading)
    → (tryko pos color r).0
      ≡ (is_legal pos color r
          || r.position.board pos == empty
            && takes_ko pos color r.position
            && not (is_suicide pos color r.position))
        && not (leb (max_stack - 2) r.stackp)
unfolding tryko is_legal accepts refuses
tryko-is_legal pos color r = accepts-do_trymove pos color true r ∙ ground arith
