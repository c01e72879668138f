-- ===== src/Board/Undo/Captures.antt =====
-- do_remove_string keeps the invariant.
use gnugo.Base.{ℕ, ◌+◌, ◌≡◌, refl, inl, inr, true, ◌==◌, Bool-cases}
use gnugo.Color.{white, other_color}
use gnugo.Board.Cells.{
  Cell, at, only, string_liberties, string_number, next_stone, black_captured, white_captured,
}
use gnugo.Board.State.{Board, push_value, color_of, size_of, origin_of, next_of}
use gnugo.Board.Liberties.{remove_neighbor}
use gnugo.Board.Capture.{
  lift_stone, free_one, free_two, free_many, add_if_neighbor, neighbor_of_string, count_captured,
  free_neighbors, do_remove_string,
}
use gnugo.Board.Loops.{walk-keeps, each_neighbor-keeps}
use gnugo.Board.Undo.Live.{logged, logged-push, logged-push_self}
use gnugo.Board.Undo.Tracks.{Tracks, push-Tracks}
use gnugo.Board.Undo.Rules.{store-Tracks}
use gnugo.Board.Undo.Points.{aside-Tracks, keep-Tracks, do_remove_stone-Tracks}
use gnugo.Board.Undo.Lists.{add_liberty-Tracks, changes-add_liberty, update_liberties-Tracks}
use gnugo.Board.Undo.Entries.{remove_neighbor-Tracks}

changes-add_if_neighbor :
    (x pos color : ℕ) (b : Board) → (add_if_neighbor x pos color b).changes ≡ b.changes
unfolding add_if_neighbor
changes-add_if_neighbor x pos color b = elim (Bool-cases (neighbor_of_string pos x color b)) [
  | inl near ↦ rw near (changes-add_liberty x pos b)
  | inr far ↦ rw far
]

module _ {b0 : Board} {kept : Cell → Type 0} where
  lift_stone-Tracks : (pos : ℕ) (b : Board) → Tracks b0 kept b → Tracks b0 kept (lift_stone pos b)
  unfolding lift_stone
  lift_stone-Tracks pos b t =
      let numbered = push_value (at string_number pos) b in
      do_remove_stone-Tracks
        (push-Tracks (push-Tracks t (at string_number pos)) (at next_stone pos)) pos
        (
          logged-push numbered.changes (at next_stone pos) (at string_number pos)
              (b.mem (at next_stone pos))
              (logged-push_self b.changes (at string_number pos) (b.mem (at string_number pos))),
          logged-push_self numbered.changes (at next_stone pos) (b.mem (at next_stone pos)),
        )

  free_one-Tracks :
      (s pos x : ℕ) (b : Board) → Tracks b0 kept b → Tracks b0 kept (free_one s pos x b)
  unfolding free_one
  free_one-Tracks s pos x b t =
      let removed = remove_neighbor x s b in
      add_liberty-Tracks (push-Tracks (remove_neighbor-Tracks t x s) (at string_liberties x)) x pos
        (λ _.
          logged-push_self removed.changes (at string_liberties x)
            (removed.mem (at string_liberties x)))

  add_if_neighbor-Tracks :
      (x pos color : ℕ) (b : Board)
      → logged b.changes (at string_liberties x) ≡ true
      → Tracks b0 kept b
      → Tracks b0 kept (add_if_neighbor x pos color b)
  unfolding add_if_neighbor
  add_if_neighbor-Tracks x pos color b h t = elim (Bool-cases (neighbor_of_string pos x color b)) [
    | inl near ↦ rw near (add_liberty-Tracks t x pos (λ _. h))
    | inr far ↦ rw far t
  ]

  free_two-Tracks :
      (s other pos pos2 x : ℕ) (b : Board)
      → Tracks b0 kept b
      → Tracks b0 kept (free_two s other pos pos2 x b)
  unfolding free_two
  free_two-Tracks s other pos pos2 x b t =
      let removed = remove_neighbor x s b in
      let pushed = push_value (at string_liberties x) removed in
      let saved : logged pushed.changes (at string_liberties x) ≡ true =
        logged-push_self removed.changes (at string_liberties x)
          (removed.mem (at string_liberties x)) in
      add_if_neighbor-Tracks x pos2 other (add_if_neighbor x pos other pushed)
        (rw (changes-add_if_neighbor x pos other pushed) saved)
        (add_if_neighbor-Tracks x pos other pushed saved
          (push-Tracks (remove_neighbor-Tracks t x s) (at string_liberties x)))

  free_many-Tracks : (s x : ℕ) (b : Board) → Tracks b0 kept b → Tracks b0 kept (free_many s x b)
  unfolding free_many
  free_many-Tracks s x b t =
      let updated = update_liberties-Tracks (remove_neighbor-Tracks t x s) x in
      keep-Tracks updated kept (λ c k. updated.saves c (inl k))

  free_neighbors-Tracks :
      (s size : ℕ) (b : Board) → Tracks b0 kept b → Tracks b0 kept (free_neighbors s size b)
  unfolding free_neighbors
  free_neighbors-Tracks s size b t =
      let pos = origin_of s b in
      elim (Bool-cases (size == 1)) [
        | inl one ↦ rw one (
            each_neighbor-keeps (Tracks b0 kept) s (free_one s pos) (free_one-Tracks s pos) _ 0 b t)
        | inr more ↦ rw more (elim (Bool-cases (size == 2)) [
          | inl two ↦
              let other = other_color (color_of s b) in
              let pos2 = next_of pos b in
              rw two (
                each_neighbor-keeps (Tracks b0 kept) s (free_two s other pos pos2)
                  (free_two-Tracks s other pos pos2) _ 0 b t)
          | inr many ↦
              rw many
                (each_neighbor-keeps (Tracks b0 kept) s (free_many s) (free_many-Tracks s) _ 0 b t)
        ])
      ]

  module _ (whites : kept (only white_captured)) (blacks : kept (only black_captured)) where
    pub count_captured-Tracks :
        (color n : ℕ) (b : Board) → Tracks b0 kept b → Tracks b0 kept (count_captured color n b)
    unfolding count_captured
    count_captured-Tracks color n b t = elim (Bool-cases (color == white)) [
      | inl is ↦ rw is (
          store-Tracks t (only white_captured) (b.mem (only white_captured) + n)
            (λ _. t.saves _ whites) refl (λ _. refl) (λ _. refl))
      | inr not ↦ rw not (
          store-Tracks t (only black_captured) (b.mem (only black_captured) + n)
            (λ _. t.saves _ blacks) refl (λ _. refl) (λ _. refl))
    ]

    pub do_remove_string-Tracks :
        (s : ℕ) (b : Board) → Tracks b0 kept b → Tracks b0 kept (do_remove_string s b)
    unfolding do_remove_string
    do_remove_string-Tracks s b t = count_captured-Tracks _ (size_of s b) _ (
        free_neighbors-Tracks s (size_of s b) _ (
          walk-keeps (Tracks b0 kept) s lift_stone (λ b' t'. aside-Tracks t' b'.board_hash true)
            lift_stone-Tracks _ _ b t))
