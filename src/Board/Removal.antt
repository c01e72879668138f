-- ===== src/Board/Removal.antt =====
-- do_remove_string of engine/board.c takes off the stones of its string and no others, and keeps the
-- hash exact.
use gnugo.Base.{
  ℕ, ◌≤◌, ◌<◌, ◌≡◌, refl, ap, ◌∙◌, Bool, true, false, ◌||◌, List, [], ◌∷◌, length, ◌==◌,
  if◌then◌else◌,
}
use gnugo.Color.{empty}
use gnugo.Point.{board_min, board_max}
use gnugo.Board.State.{Board, walk_string, origin_of, size_of, do_remove_stone}
use gnugo.Board.Capture.{lift_stone, do_remove_string}
use gnugo.Board.Walks.{Links, visit, KeepsLinks, walk-visit}
use gnugo.Board.Still.{Still, Still-trans, free_neighbors-Still, count_captured-Still}
use gnugo.Board.Hashing.{HashIsRecalc, do_remove_stone-HashIsRecalc}

-- `q` is one of `pos` and `stones`.
unfoldable pub among : ℕ → ℕ → List ℕ → Bool
among q pos [] = pos == q
among q pos (p ∷ ps) = pos == q || among q p ps

-- All of `pos` and `stones` are indices of the board.
unfoldable pub InRange : ℕ → List ℕ → Type 0
InRange pos [] = (board_min ≤ pos) × (pos < board_max)
InRange pos (p ∷ ps) = (board_min ≤ pos) × (pos < board_max) × InRange p ps

pub lift_stone-KeepsLinks : (s : ℕ) → KeepsLinks s lift_stone
unfolding lift_stone do_remove_stone
lift_stone-KeepsLinks s = record { links = λ p q b. refl; first = λ p b. refl }

emptied :
    (here later : Bool) (x : ℕ)
    → (if later then empty else if here then empty else x) ≡ (if here || later then empty else x)
emptied true true x = refl
emptied true false x = refl
emptied false true x = refl
emptied false false x = refl

Still-HashIsRecalc : {b b' : Board} → Still b b' → HashIsRecalc b → HashIsRecalc b'
Still-HashIsRecalc still exact =
    still.hash ∙ exact ∙ (rw (still.tables, still.points, still.ko) refl)

-- The board after lifting some stones.
board-visit :
    (q pos : ℕ) (stones : List ℕ) (b : Board)
    → (visit lift_stone pos stones b).board q ≡ (if among q pos stones then empty else b.board q)
unfolding visit lift_stone do_remove_stone among
board-visit q pos [] b = refl
board-visit q pos (p ∷ ps) b =
    board-visit q p ps (lift_stone pos b) ∙ emptied (pos == q) (among q p ps) (b.board q)

visit-HashIsRecalc :
    (pos : ℕ) (stones : List ℕ) (b : Board)
    → InRange pos stones
    → HashIsRecalc b
    → HashIsRecalc (visit lift_stone pos stones b)
unfolding visit lift_stone InRange
visit-HashIsRecalc pos [] b (low, high) exact = do_remove_stone-HashIsRecalc _ pos exact low high
visit-HashIsRecalc pos (p ∷ ps) b (low, high, rest) exact =
    visit-HashIsRecalc p ps _ rest (do_remove_stone-HashIsRecalc _ pos exact low high)

module _ (s : ℕ) (stones : List ℕ) (b : Board)
    (links : Links b (origin_of s b) (origin_of s b) stones)
    (enough : length stones < board_max) where
  lifted : walk_string s lift_stone b ≡ visit lift_stone (origin_of s b) stones b
  lifted =
      walk-visit s lift_stone (lift_stone-KeepsLinks s) board_max (origin_of s b) stones b enough
        links

  removed-Still : Still (visit lift_stone (origin_of s b) stones b) (do_remove_string s b)
  unfolding do_remove_string
  removed-Still = rw (← lifted) (
      Still-trans (free_neighbors-Still s (size_of s b) (walk_string s lift_stone b))
        (count_captured-Still _ _ _))

  -- Where the links lead from the first stone through fewer than BOARDMAX others and back, the
  -- points of these stones are empty after do_remove_string, and every other point is as before.
  pub board-do_remove_string :
      (q : ℕ)
      → (do_remove_string s b).board q
        ≡ (if among q (origin_of s b) stones then empty else b.board q)
  board-do_remove_string q =
      ap (λ board. board q) removed-Still.points ∙ board-visit q (origin_of s b) stones b

  -- If these stones are within the board's indices, do_remove_string keeps the hash exact.
  pub do_remove_string-HashIsRecalc :
      InRange (origin_of s b) stones → HashIsRecalc b → HashIsRecalc (do_remove_string s b)
  do_remove_string-HashIsRecalc range exact =
      Still-HashIsRecalc removed-Still (visit-HashIsRecalc (origin_of s b) stones b range exact)
