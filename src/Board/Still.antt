-- ===== src/Board/Still.antt =====
-- What the bookkeeping on strings leaves alone: the stones, the hash and the ko.
use gnugo.Base.{ℕ, zero, suc, ◌+◌, ◌≡◌, refl, ◌∙◌, ltb, ◌==◌, Bool-cases, inl, inr, min}
use gnugo.Color.{white, other_color}
use gnugo.Point.{step}
use gnugo.Board.Cells.{only, at, at_slot, board_ko_pos, string_liberties, libs, neighbor_list}
use gnugo.Board.State.{
  Board, max_liberties, push_value, liberties_of, neighbors_of, list_liberty, add_liberty,
  add_and_mark_liberty, unmarked_liberty, color_of, origin_of, next_of,
}
use gnugo.Board.Liberties.{
  push_liberties, add_if_unmarked, add_liberties_around, update_liberties, drop_entry,
  remove_neighbor, find_entry,
}
use gnugo.Board.Capture.{
  free_one, free_two, free_many, add_if_neighbor, neighbor_of_string, count_captured,
  free_neighbors,
}
use gnugo.Board.Loops.{around-keeps, walk-keeps, each_neighbor-keeps}

pub record Still (b b' : Board) : Type 0 where
  pub points : b'.board ≡ b.board
  pub hash : b'.board_hash ≡ b.board_hash
  pub tables : b'.zobrist ≡ b.zobrist
  pub ko : b'.mem (only board_ko_pos) ≡ b.mem (only board_ko_pos)

pub Still-refl : (b : Board) → Still b b
Still-refl b = record { points = refl; hash = refl; tables = refl; ko = refl }

pub Still-trans : {a b c : Board} → Still a b → Still b c → Still a c
Still-trans p q = record {
  points = q.points ∙ p.points;
  hash = q.hash ∙ p.hash;
  tables = q.tables ∙ p.tables;
  ko = q.ko ∙ p.ko;
}

-- Pushes, stores to other variables, and the fault flag.
same_Still :
    (b b' : Board)
    → b'.board ≡ b.board
    → b'.board_hash ≡ b.board_hash
    → b'.zobrist ≡ b.zobrist
    → b'.mem (only board_ko_pos) ≡ b.mem (only board_ko_pos)
    → Still b b'
same_Still b b' p h t k = record { points = p; hash = h; tables = t; ko = k }

add_liberty-Still : (s pos : ℕ) (b : Board) → Still b (add_liberty s pos b)
unfolding add_liberty list_liberty
add_liberty-Still s pos b = elim (Bool-cases (ltb (liberties_of s b) max_liberties)) [
  | inl room ↦ rw room (same_Still b _ refl refl refl refl)
  | inr full ↦ rw full (same_Still b _ refl refl refl refl)
]

add_if_unmarked-Still : (s pos : ℕ) (b : Board) → Still b (add_if_unmarked s pos b)
unfolding add_if_unmarked add_and_mark_liberty
add_if_unmarked-Still s pos b = elim (Bool-cases (unmarked_liberty pos b)) [
  | inl new ↦ rw new (Still-trans (add_liberty-Still s pos b) (same_Still _ _ refl refl refl refl))
  | inr old ↦ rw old (Still-refl b)
]

push_liberties-Still : (s n k : ℕ) (b : Board) → Still b (push_liberties s n k b)
unfolding push_liberties
push_liberties-Still s zero k b = Still-refl b
push_liberties-Still s (suc n) k b =
    Still-trans (same_Still b (push_value (at_slot libs s k) b) refl refl refl refl)
      (push_liberties-Still s n (k + 1) _)

update_liberties-Still : (s : ℕ) (b : Board) → Still b (update_liberties s b)
unfolding update_liberties add_liberties_around
update_liberties-Still s b =
    walk-keeps (Still b) s (add_liberties_around s)
      (λ b' q. Still-trans q (same_Still b' _ refl refl refl refl))
      (λ pos.
        around-keeps (Still b) (λ d. add_if_unmarked s (step d pos))
          (λ d b' q. Still-trans q (add_if_unmarked-Still s (step d pos) b')))
      _ _ _
      (Still-trans (same_Still b (push_value (at string_liberties s) b) refl refl refl refl) (
        Still-trans (push_liberties-Still s (min (liberties_of s b) max_liberties) 0 _)
          (same_Still _ _ refl refl refl refl)))

remove_neighbor-Still : (s n : ℕ) (b : Board) → Still b (remove_neighbor s n b)
unfolding remove_neighbor drop_entry
remove_neighbor-Still s n b =
    let found = find_entry (at_slot neighbor_list s) n (neighbors_of s b) 0 b in
    elim (Bool-cases found.1) [
      | inl e ↦ rw e (same_Still b _ refl refl refl refl)
      | inr e ↦ rw e (same_Still b _ refl refl refl refl)
    ]

push_count-Still : (t : ℕ) (b : Board) → Still b (push_value (at string_liberties t) b)
push_count-Still t b = same_Still b _ refl refl refl refl

free_one-Still : (s pos t : ℕ) (b : Board) → Still b (free_one s pos t b)
unfolding free_one
free_one-Still s pos t b =
    Still-trans (remove_neighbor-Still t s b)
      (Still-trans (push_count-Still t _) (add_liberty-Still t pos _))

add_if_neighbor-Still : (t pos color : ℕ) (b : Board) → Still b (add_if_neighbor t pos color b)
unfolding add_if_neighbor
add_if_neighbor-Still t pos color b = elim (Bool-cases (neighbor_of_string pos t color b)) [
  | inl near ↦ rw near (add_liberty-Still t pos b)
  | inr far ↦ rw far (Still-refl b)
]

free_two-Still : (s other pos pos2 t : ℕ) (b : Board) → Still b (free_two s other pos pos2 t b)
unfolding free_two
free_two-Still s other pos pos2 t b = Still-trans (remove_neighbor-Still t s b) (
    Still-trans (push_count-Still t _)
      (Still-trans (add_if_neighbor-Still t pos other _) (add_if_neighbor-Still t pos2 other _)))

free_many-Still : (s t : ℕ) (b : Board) → Still b (free_many s t b)
unfolding free_many
free_many-Still s t b = Still-trans (remove_neighbor-Still t s b) (update_liberties-Still t _)

pub free_neighbors-Still : (s size : ℕ) (b : Board) → Still b (free_neighbors s size b)
unfolding free_neighbors
free_neighbors-Still s size b =
    let pos = origin_of s b in
    let pos2 = next_of pos b in
    let other = other_color (color_of s b) in
    let each = λ (body : ℕ → Board → Board) (still : (t : ℕ) (b' : Board) → Still b' (body t b')).
      each_neighbor-keeps (Still b) s body (λ t b' q. Still-trans q (still t b')) (neighbors_of s b)
        0 b (Still-refl b) in
    elim (Bool-cases (size == 1)) [
      | inl one ↦ rw one (each (free_one s pos) (free_one-Still s pos))
      | inr more ↦ rw more (elim (Bool-cases (size == 2)) [
        | inl two ↦ rw two (each (free_two s other pos pos2) (free_two-Still s other pos pos2))
        | inr many ↦ rw many (each (free_many s) (free_many-Still s))
      ])
    ]

pub count_captured-Still : (color n : ℕ) (b : Board) → Still b (count_captured color n b)
unfolding count_captured
count_captured-Still color n b = elim (Bool-cases (color == white)) [
  | inl is ↦ rw is (same_Still b _ refl refl refl refl)
  | inr not ↦ rw not (same_Still b _ refl refl refl refl)
]
