-- ===== src/History/Latest.antt =====
-- The queries about the last moves of engine/board.c.
use gnugo.Base.{ℕ, zero, suc, ◌-◌, ◌==◌, if◌then◌else◌}
use gnugo.Color.{empty, other_color}
use gnugo.Point.{pass_move}
use gnugo.History.{History, Game}

-- The loop of get_last_opponent_move, over the `n` oldest moves, the latest of them first.
unfoldable pub last_opponent_move : ℕ → ℕ → History → ℕ
last_opponent_move color zero h = pass_move
last_opponent_move color (suc n) h =
    let earlier = last_opponent_move color n h in
    if h.move_history_color n == other_color color then h.move_history_pos n else earlier

unfoldable pub get_last_opponent_move : ℕ → Game → ℕ
get_last_opponent_move color g = last_opponent_move color g.history.move_history_pointer g.history

unfoldable pub get_last_move : Game → ℕ
get_last_move g =
    let k = g.history.move_history_pointer in
    if k == 0 then pass_move else g.history.move_history_pos (k - 1)

unfoldable pub get_last_player : Game → ℕ
get_last_player g =
    let k = g.history.move_history_pointer in
    if k == 0 then empty else g.history.move_history_color (k - 1)
