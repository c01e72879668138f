-- ===== src/Board/Undo/QuietCaptures.antt =====
-- Captures leave alone what bookkeeping on strings leaves alone, save for the captured stones.
use gnugo.Base.{ℕ, refl, inl, inr, ◌==◌, arith, Bool-cases}
use gnugo.Color.{white, other_color}
use gnugo.Board.Cells.{at, string_liberties, string_number, next_stone}
use gnugo.Board.State.{
  Board, push_value, neighbors_of, do_remove_stone, color_of, size_of, origin_of, next_of,
}
use gnugo.Board.Capture.{
  lift_stone, free_one, free_two, free_many, add_if_neighbor, neighbor_of_string, count_captured,
  free_neighbors, do_remove_string,
}
use gnugo.Board.Loops.{walk-keeps, each_neighbor-keeps}
use gnugo.Board.Undo.Quiet.{
  Quiet, Quiet-refl, Quiet-trans, memory-Quiet, push-Quiet, add_liberty-Quiet,
  update_liberties-Quiet, remove_neighbor-Quiet,
}

lift_stone-Quiet : (pos : ℕ) (b : Board) → Quiet b (lift_stone pos b)
unfolding lift_stone do_remove_stone
lift_stone-Quiet pos b = Quiet-trans (push-Quiet (at string_number pos) b (λ _ _. refl)) (
    Quiet-trans (push-Quiet (at next_stone pos) _ (λ _ _. refl))
      (record { numbers = λ q. refl; stones = λ q. ground arith; pairs = λ p. p }))

push_count-Quiet : (x : ℕ) (b : Board) → Quiet b (push_value (at string_liberties x) b)
push_count-Quiet x b = push-Quiet (at string_liberties x) b (λ _ _. refl)

free_one-Quiet : (s pos x : ℕ) (b : Board) → Quiet b (free_one s pos x b)
unfolding free_one
free_one-Quiet s pos x b =
    Quiet-trans (remove_neighbor-Quiet x s b)
      (Quiet-trans (push_count-Quiet x _) (add_liberty-Quiet x pos _))

add_if_neighbor-Quiet : (x pos color : ℕ) (b : Board) → Quiet b (add_if_neighbor x pos color b)
unfolding add_if_neighbor
add_if_neighbor-Quiet x pos color b = elim (Bool-cases (neighbor_of_string pos x color b)) [
  | inl near ↦ rw near (add_liberty-Quiet x pos b)
  | inr far ↦ rw far (Quiet-refl b)
]

free_two-Quiet : (s other pos pos2 x : ℕ) (b : Board) → Quiet b (free_two s other pos pos2 x b)
unfolding free_two
free_two-Quiet s other pos pos2 x b = Quiet-trans (remove_neighbor-Quiet x s b) (
    Quiet-trans (push_count-Quiet x _)
      (Quiet-trans (add_if_neighbor-Quiet x pos other _) (add_if_neighbor-Quiet x pos2 other _)))

free_many-Quiet : (s x : ℕ) (b : Board) → Quiet b (free_many s x b)
unfolding free_many
free_many-Quiet s x b = Quiet-trans (remove_neighbor-Quiet x s b) (update_liberties-Quiet x _)

free_neighbors-Quiet : (s size : ℕ) (b : Board) → Quiet b (free_neighbors s size b)
unfolding free_neighbors
free_neighbors-Quiet s size b =
    let pos = origin_of s b in
    let pos2 = next_of pos b in
    let other = other_color (color_of s b) in
    let each = λ (body : ℕ → Board → Board) (quiet : (x : ℕ) (b' : Board) → Quiet b' (body x b')).
      each_neighbor-keeps (Quiet b) s body (λ x b' q. Quiet-trans q (quiet x b')) (neighbors_of s b)
        0 b (Quiet-refl b) in
    elim (Bool-cases (size == 1)) [
      | inl one ↦ rw one (each (free_one s pos) (free_one-Quiet s pos))
      | inr more ↦ rw more (elim (Bool-cases (size == 2)) [
        | inl two ↦ rw two (each (free_two s other pos pos2) (free_two-Quiet s other pos pos2))
        | inr many ↦ rw many (each (free_many s) (free_many-Quiet s))
      ])
    ]

count_captured-Quiet : (color n : ℕ) (b : Board) → Quiet b (count_captured color n b)
unfolding count_captured
count_captured-Quiet color n b = elim (Bool-cases (color == white)) [
  | inl is ↦ rw is (memory-Quiet b _ (λ _. refl) refl (λ p. p))
  | inr not ↦ rw not (memory-Quiet b _ (λ _. refl) refl (λ p. p))
]

pub do_remove_string-Quiet : (s : ℕ) (b : Board) → Quiet b (do_remove_string s b)
unfolding do_remove_string
do_remove_string-Quiet s b =
    Quiet-trans
      (walk-keeps (Quiet b) s lift_stone
        (λ b' q. Quiet-trans q (memory-Quiet _ _ (λ _. refl) refl (λ p. p)))
        (λ pos b' q. Quiet-trans q (lift_stone-Quiet pos b')) _ _ b (Quiet-refl b))
      (Quiet-trans (free_neighbors-Quiet s (size_of s b) _) (count_captured-Quiet _ _ _))
