-- ===== src/History/Refinement.antt =====
-- The history of the game as an abstract log, and the operations of engine/board.c on it.
use gnugo.Base.{
  ℕ, suc, ◌+◌, ◌-◌, ◌≤◌, ◌<◌, ◌≡◌, refl, sym, ap, ◌∙◌, true, false, List, [], ◌∷◌, length, take,
  subst, leb, ltb, ◌==◌, if◌then◌else◌, arith, Bool-cases, inl, inr,
}
use gnugo.Board.State.{Board}
use gnugo.History.{
  History, Game, max_move_history, number_collapsed_moves, new_position, play_move_no_history,
  replay_move_history, shift_down, forget_oldest, set_initial, collapse_history, reset_move_history,
  record_move, play_move, undo_move, add_stone, remove_stone, assert_game, play_move_asserts,
}
use gnugo.History.Log.{
  Move, first_moves, log_of, drop, length-first_moves, first_moves_cong, first_moves-take,
  first_moves-drop, shift_down_lem, history-replay_move_history,
}

-- A log with room for MAX_MOVE_HISTORY moves: a full one forgets its 51 oldest moves.
unfoldable pub make_room : List Move → List Move
make_room log =
    if leb max_move_history (length log)
    then take (length log - number_collapsed_moves) log
    else log

-- What is asked of the game, and what it does to the log.
pub data Request : Type 0 where
  play : ℕ → ℕ → Request
  undo : ℕ → Request
  add : ℕ → ℕ → Request
  remove : ℕ → Request

unfoldable pub perform : Request → Game → Game
perform (play pos color) g = play_move pos color g
perform (undo n) g = (undo_move n g).1
perform (add pos color) g = add_stone pos color g
perform (remove pos) g = remove_stone pos g

unfoldable pub log_after : Request → List Move → List Move
log_after (play pos color) log = record { color = color; pos = pos } ∷ make_room log
log_after (undo n) log = if leb n (length log) then drop n log else log
log_after (add pos color) log = []
log_after (remove pos) log = []

-- Sequences of requests.
unfoldable pub perform_all : List Request → Game → Game
perform_all [] g = g
perform_all (r ∷ rs) g = perform_all rs (perform r g)

unfoldable pub log_after_all : List Request → List Move → List Move
log_after_all [] log = log
log_after_all (r ∷ rs) log = log_after_all rs (log_after r log)

-- The entries behind the oldest ones move to the front.
shifted : (a : ℕ → ℕ) (d n k : ℕ) → k < n → shift_down d n d a k ≡ a (k + d)
shifted a d n k low = shift_down_lem d n d a k (omega arith) ∙ (ground (arith, low))

first_moves-forget_oldest :
    (d : ℕ) (h : History)
    → d ≤ h.move_history_pointer
    → first_moves (h.move_history_pointer - d) (forget_oldest d h)
      ≡ take (h.move_history_pointer - d) (first_moves h.move_history_pointer h)
unfolding forget_oldest
first_moves-forget_oldest d h enough =
    let n = h.move_history_pointer - d in
    let whole : n + d ≡ h.move_history_pointer = omega (arith, enough) in
    first_moves-take d n h (forget_oldest d h) (λ k low.
      rw (shifted h.move_history_color d n k low, shifted h.move_history_pos d n k low) refl)
    ∙ ap (λ m. take n (first_moves m h)) whole

-- The new initial position does not matter.
first_moves-set_initial :
    (d : ℕ) (b : Board) (h : History)
    → d ≤ h.move_history_pointer
    → first_moves (h.move_history_pointer - d) (forget_oldest d (set_initial b h))
      ≡ take (h.move_history_pointer - d) (first_moves h.move_history_pointer h)
unfolding set_initial
first_moves-set_initial d b h enough =
    let n = h.move_history_pointer in
    first_moves-forget_oldest d (set_initial b h) enough
    ∙ ap (take (n - d)) (first_moves_cong n (set_initial b h) h (λ k low. refl))

log_of-collapse_history :
    (g : Game)
    → number_collapsed_moves ≤ g.history.move_history_pointer
    → log_of (collapse_history g)
      ≡ take (g.history.move_history_pointer - number_collapsed_moves) (log_of g)
unfolding log_of collapse_history new_position forget_oldest set_initial
log_of-collapse_history g full =
    let d = number_collapsed_moves in
    let b = (replay_move_history d g).reading.position in
    subst
      (λ (h : History).
        first_moves (h.move_history_pointer - d) (forget_oldest d (set_initial b h))
        ≡ take (g.history.move_history_pointer - d) (log_of g))
      (sym (history-replay_move_history d g)) (first_moves-set_initial d b g.history full)

log_of-record_move :
    (pos color : ℕ) (g : Game)
    → log_of (record_move pos color g) ≡ record { color = color; pos = pos } ∷ log_of g
unfolding log_of record_move first_moves
log_of-record_move pos color g =
    let h = g.history in
    let n = h.move_history_pointer in
    let last : n + 1 ≡ suc n = omega arith in
    let here : (n == n) ≡ true = ground arith in
    let earlier =
      first_moves_cong n (record_move pos color g).history h
        (λ k low. let other : (n == k) ≡ false = ground (arith, low) in rw other refl) in
    ap (λ m. first_moves m (record_move pos color g).history) last
    ∙ rw here (ap (λ ms. record { color = color; pos = pos } ∷ ms) earlier)

log_of-play_move :
    (pos color : ℕ) (g : Game)
    → log_of (play_move pos color g) ≡ record { color = color; pos = pos } ∷ make_room (log_of g)
unfolding play_move play_move_no_history make_room play_move_asserts log_of
log_of-play_move pos color g =
    let asserted = assert_game (play_move_asserts pos color g) g in
    let n = g.history.move_history_pointer in
    let count : length (log_of g) ≡ n = (unfold log_of in length-first_moves n g.history) in
    elim (Bool-cases (leb max_move_history n)) [
      | inl full ↦
          rw (count, full)
            (log_of-record_move pos color (collapse_history asserted)
              ∙ ap (λ ms. record { color = color; pos = pos } ∷ ms)
                  (log_of-collapse_history asserted (ground (arith, full))))
      | inr room ↦ rw (count, room) (log_of-record_move pos color asserted)
    ]

log_of-undo_move :
    (n : ℕ) (g : Game)
    → log_of (undo_move n g).1 ≡ (if leb n (length (log_of g)) then drop n (log_of g) else log_of g)
unfolding undo_move log_of
log_of-undo_move n g =
    let h = g.history in
    let count = length-first_moves h.move_history_pointer h in
    let rest = h.move_history_pointer - n in
    let asserted = assert_game (g.reading.stackp == 0) g in
    let kept : first_moves rest (replay_move_history rest asserted).history ≡ first_moves rest h =
      ap (first_moves rest) (history-replay_move_history rest asserted) in
    elim (Bool-cases (ltb h.move_history_pointer n)) [
      | inl short ↦
          let none : leb n h.move_history_pointer ≡ false = ground (arith, short) in
          rw (count, short, none) refl
      | inr long ↦
          let some : leb n h.move_history_pointer ≡ true = ground (arith, long) in
          let whole : n + rest ≡ h.move_history_pointer = ground (arith, long) in
          rw (count, long, some)
            (first_moves_cong rest _ (replay_move_history rest asserted).history (λ k low. refl)
              ∙ kept
              ∙ first_moves-drop rest n h
              ∙ ap (λ m. drop n (first_moves m h)) whole)
    ]

-- Setting up a position by hand forgets the moves.
log_of-add_stone : (pos color : ℕ) (g : Game) → log_of (add_stone pos color g) ≡ []
unfolding log_of add_stone reset_move_history new_position first_moves
log_of-add_stone pos color g = refl

log_of-remove_stone : (pos : ℕ) (g : Game) → log_of (remove_stone pos g) ≡ []
unfolding log_of remove_stone reset_move_history new_position first_moves
log_of-remove_stone pos g = refl

log_of-perform : (r : Request) (g : Game) → log_of (perform r g) ≡ log_after r (log_of g)
unfolding perform log_after
log_of-perform (play pos color) g = log_of-play_move pos color g
log_of-perform (undo n) g = log_of-undo_move n g
log_of-perform (add pos color) g = log_of-add_stone pos color g
log_of-perform (remove pos) g = log_of-remove_stone pos g

-- After any sequence of permanent moves, undone moves, added and removed stones, the history holds
-- the moves of the abstract log.
pub log_of-perform_all :
    (rs : List Request) (g : Game) → log_of (perform_all rs g) ≡ log_after_all rs (log_of g)
unfolding perform_all log_after_all
log_of-perform_all [] g = refl
log_of-perform_all (r ∷ rs) g =
    log_of-perform_all rs (perform r g) ∙ ap (log_after_all rs) (log_of-perform r g)
