-- ===== src/History/Log.antt =====
-- The move history as a list, the latest move first: what play_move and undo_move do to it.
use gnugo.Base.{
  ℕ, zero, suc, ◌+◌, ◌-◌, ◌≤◌, ◌<◌, ◌≡◌, refl, ap, ◌∙◌, ◌&&◌, List, [], ◌∷◌, length, take, leb, ltb,
  if◌then◌else◌, arith,
}
use gnugo.Board.Trymove.{store}
use gnugo.History.{
  History, Game, new_position, play_move_no_history, replay_moves, replay_move_history, shift_down,
}

-- A move with the color that made it.
abbrev pub Move : Type 0
Move = record { color : ℕ; pos : ℕ }

abbrev pub recorded : History → ℕ → Move
recorded h k = record { color = h.move_history_color k; pos = h.move_history_pos k }

-- The first `n` moves of the history.
unfoldable pub first_moves : ℕ → History → List Move
first_moves zero h = []
first_moves (suc n) h = recorded h n ∷ first_moves n h

unfoldable pub log_of : Game → List Move
log_of g = first_moves g.history.move_history_pointer g.history

abbrev pub drop : {A : Type 0} → ℕ → List A → List A
drop zero xs = xs
drop (suc n) [] = []
drop (suc n) (x ∷ xs) = drop n xs

pub length-first_moves : (n : ℕ) (h : History) → length (first_moves n h) ≡ n
unfolding first_moves
length-first_moves zero h = refl
length-first_moves (suc n) h = ap suc (length-first_moves n h)

-- Only the entries before the pointer count.
pub first_moves_cong :
    (n : ℕ) (h h' : History)
    → ((k : ℕ) → k < n → recorded h k ≡ recorded h' k)
    → first_moves n h ≡ first_moves n h'
unfolding first_moves
first_moves_cong zero h h' same = refl
first_moves_cong (suc n) h h' same =
    rw (same n (omega arith)) (
      ap (λ ms. recorded h' n ∷ ms)
        (first_moves_cong n h h' (λ k low. same k (omega (arith, low)))))

-- A history whose entries are those of another one from `d` on.
pub first_moves-take :
    (d n : ℕ) (h h' : History)
    → ((k : ℕ) → k < n → recorded h' k ≡ recorded h (k + d))
    → first_moves n h' ≡ take n (first_moves (n + d) h)
unfolding first_moves
first_moves-take d zero h h' same = refl
first_moves-take d (suc n) h h' same =
    let e : suc n + d ≡ suc (n + d) = omega arith in
    rw (e, same n (omega arith))
      (ap (λ ms. recorded h (n + d) ∷ ms)
        (first_moves-take d n h h' (λ k low. same k (omega (arith, low)))))

pub first_moves-drop : (n d : ℕ) (h : History) → first_moves n h ≡ drop d (first_moves (d + n) h)
unfolding first_moves
first_moves-drop n zero h = ap (λ m. first_moves m h) (omega arith)
first_moves-drop n (suc d) h =
    let e : suc d + n ≡ suc (d + n) = omega arith in rw e (first_moves-drop n d h)

pub shift_down_lem :
    (d n k : ℕ) (a : ℕ → ℕ) (j : ℕ)
    → d ≤ k
    → shift_down d n k a j ≡ (if leb (k - d) j && ltb j (k - d + n) then a (j + d) else a j)
unfolding shift_down
shift_down_lem d zero k a j low = ground arith
shift_down_lem d (suc n) k a j low =
    shift_down_lem d n (k + 1) (store a (k - d) (a k)) j (omega arith) ∙ (ground arith)

-- A move that is played again leaves the history alone.
pub history-replay_moves : (n k : ℕ) (g : Game) → (replay_moves n k g).history ≡ g.history
unfolding replay_moves play_move_no_history
history-replay_moves zero k g = refl
history-replay_moves (suc n) k g = history-replay_moves n (k + 1) _

pub history-replay_move_history : (n : ℕ) (g : Game) → (replay_move_history n g).history ≡ g.history
unfolding replay_move_history new_position
history-replay_move_history n g = history-replay_moves n 0 _
