-- ===== src/History/Bounds.antt =====
-- The move history fits into its arrays.
use gnugo.Base.{
  ℕ, zero, suc, ◌-◌, ◌≤◌, ap, List, [], ◌∷◌, length, take, leb, arith, Bool-cases, inl, inr,
}
use gnugo.History.{Game, max_move_history, number_collapsed_moves}
use gnugo.History.Log.{Move, log_of, drop, length-first_moves}
use gnugo.History.Refinement.{
  Request, play, undo, add, remove, make_room, log_after, log_after_all, perform_all,
  log_of-perform_all,
}

length-take : (n : ℕ) (log : List Move) → length (take n log) ≤ n
length-take zero log = omega arith
length-take (suc n) [] = omega arith
length-take (suc n) (m ∷ log) = omega (arith, length-take n log)

length-drop : (n : ℕ) (log : List Move) → length (drop n log) ≤ length log
length-drop zero log = omega arith
length-drop (suc n) [] = omega arith
length-drop (suc n) (m ∷ log) = omega (arith, length-drop n log)

log_after-bound :
    (r : Request) (log : List Move)
    → length log ≤ max_move_history
    → length (log_after r log) ≤ max_move_history
unfolding log_after make_room
log_after-bound (play pos color) log low = elim (Bool-cases (leb max_move_history (length log))) [
  | inl full ↦ rw full (omega (arith, low, length-take (length log - number_collapsed_moves) log))
  | inr room ↦ rw room (ground (arith, room))
]
log_after-bound (undo n) log low = elim (Bool-cases (leb n (length log))) [
  | inl long ↦ rw long (omega (arith, low, length-drop n log))
  | inr short ↦ rw short low
]
log_after-bound (add pos color) log low = omega arith
log_after-bound (remove pos) log low = omega arith

log_after_all-bound :
    (rs : List Request) (log : List Move)
    → length log ≤ max_move_history
    → length (log_after_all rs log) ≤ max_move_history
unfolding log_after_all
log_after_all-bound [] log low = low
log_after_all-bound (r ∷ rs) log low =
    log_after_all-bound rs (log_after r log) (log_after-bound r log low)

-- The history never outgrows its arrays: where it has at most MAX_MOVE_HISTORY moves, it has at
-- most as many after any sequence of permanent moves, undone moves, added and removed stones.
pub move_history_pointer_le :
    (rs : List Request) (g : Game)
    → g.history.move_history_pointer ≤ max_move_history
    → (perform_all rs g).history.move_history_pointer ≤ max_move_history
unfolding log_of
move_history_pointer_le rs g low =
    let before = length-first_moves g.history.move_history_pointer g.history in
    let after =
      length-first_moves (perform_all rs g).history.move_history_pointer
        (perform_all rs g).history in
    let bound = log_after_all-bound rs (log_of g) (omega (arith, low, before)) in
    omega (arith, ap length (log_of-perform_all rs g), after, bound)
