-- ===== src/History/Answers.antt =====
-- What the queries about the last moves of engine/board.c say of the log.
use gnugo.Base.{ℕ, zero, suc, ◌-◌, ◌≡◌, refl, ap, false, List, [], ◌∷◌, ◌==◌, if◌then◌else◌, arith}
use gnugo.Color.{empty, other_color}
use gnugo.Point.{pass_move}
use gnugo.History.{History, Game}
use gnugo.History.Latest.{
  last_opponent_move, get_last_opponent_move, get_last_move, get_last_player,
}
use gnugo.History.Log.{Move, first_moves, log_of}

-- The latest move of a color in the log, or a pass.
unfoldable pub latest_by : ℕ → List Move → ℕ
latest_by color [] = pass_move
latest_by color (m ∷ log) = if m.color == color then m.pos else latest_by color log

unfoldable pub latest : List Move → Move
latest [] = record { color = empty; pos = pass_move }
latest (m ∷ log) = m

last_opponent_move_lem :
    (color n : ℕ) (h : History)
    → last_opponent_move color n h ≡ latest_by (other_color color) (first_moves n h)
unfolding last_opponent_move latest_by first_moves
last_opponent_move_lem color zero h = refl
last_opponent_move_lem color (suc n) h =
    ap (λ p. if h.move_history_color n == other_color color then h.move_history_pos n else p)
      (last_opponent_move_lem color n h)

latest-first_moves :
    (n : ℕ) (h : History)
    → ((if n == 0 then pass_move else h.move_history_pos (n - 1)) ≡ (latest (first_moves n h)).pos)
      × ((if n == 0 then empty else h.move_history_color (n - 1))
          ≡ (latest (first_moves n h)).color)
unfolding latest first_moves
latest-first_moves zero h = (refl, refl)
latest-first_moves (suc n) h =
    let e : suc n - 1 ≡ n = omega arith in
    let more : (suc n == 0) ≡ false = ground arith in rw (more, e) (refl, refl)

-- The queries answer from the log: the latest move, who made it, and the latest move of the
-- opponent of `color`; a pass, and no player, where there is none.
pub get_last-log_of :
    (color : ℕ) (g : Game)
    → (get_last_move g ≡ (latest (log_of g)).pos)
      × (get_last_player g ≡ (latest (log_of g)).color)
      × (get_last_opponent_move color g ≡ latest_by (other_color color) (log_of g))
unfolding get_last_move get_last_player get_last_opponent_move log_of
get_last-log_of color g =
    let n = g.history.move_history_pointer in
    let (pos, player) = latest-first_moves n g.history in
    (pos, player, last_opponent_move_lem color n g.history)
