-- ===== src/Board/Undo/Assimilating.antt =====
-- assimilate_string and assimilate_neighbor_strings keep the invariant.
use gnugo.Base.{ℕ, zero, suc, ◌+◌, refl, inl, inr, true, ltb, leb, ◌==◌, arith, Bool-cases}
use gnugo.Color.{other_color}
use gnugo.Point.{Direction, step}
use gnugo.Board.Cells.{
  Cell, at, at_slot, only, string_size, string_origin, string_neighbors, string_mark, libs,
  string_number, next_stone, next_string, string_mark_counter,
}
use gnugo.Board.State.{
  Board, max_liberties, push_value, number_at, unmarked_liberty, unmarked_color_string, marks,
  origin_of, next_of, size_of, liberties_of, add_neighbor_string, next_liberty_mark,
}
use gnugo.Board.Liberties.{remove_neighbor}
use gnugo.Board.Strings.{
  renumber, link_cycles, take_liberties, merge_liberties, move_neighbor, assimilate_string,
  assimilate_towards, assimilate_neighbor_strings,
}
use gnugo.Board.Loops.{around-keeps, walk-keeps, each_neighbor-keeps}
use gnugo.Board.Undo.Live.{logged-push, logged-push_self}
use gnugo.Board.Undo.Tracks.{Tracks, push-Tracks}
use gnugo.Board.Undo.Rules.{store-Tracks, assign-Tracks, liberties-Tracks}
use gnugo.Board.Undo.Points.{aside-Tracks, keep-Tracks}
use gnugo.Board.Undo.Lists.{
  set_string_mark-Tracks, next_string_mark-Tracks, next_liberty_mark-Tracks, add_liberty-Tracks,
  add_and_mark_liberty-Tracks, add_neighbor_string-Tracks, update_liberties-Tracks,
}
use gnugo.Board.Undo.Entries.{remove_neighbor-Tracks}
use gnugo.Board.Undo.Joining.{
  New, Vacant, Free-New, Free-New_neighbors, add_pushed-Tracks, start_string-Tracks,
  join_neighbor-Tracks,
}

module _ {b0 : Board} {kept : Cell → Type 0} where
  renumber-Tracks : (s pos : ℕ) (b : Board) → Tracks b0 kept b → Tracks b0 kept (renumber s pos b)
  unfolding renumber
  renumber-Tracks s pos b t = assign-Tracks t (at string_number pos) s refl (λ _. refl) (λ _. refl)

  module _ (s : ℕ) (new : New b0 s) where
    link_cycles-Tracks :
        (s2 last : ℕ) (b : Board) → Tracks b0 kept b → Tracks b0 kept (link_cycles s s2 last b)
    unfolding link_cycles
    link_cycles-Tracks s2 last b t =
        let pos2 = origin_of s b in
        let once = push_value (at next_stone last) b in
        let pushed = push-Tracks (push-Tracks t (at next_stone last)) (at next_stone pos2) in
        let crossed =
          store-Tracks pushed (at next_stone last) (next_of pos2 b)
            (λ _.
              logged-push once.changes (at next_stone pos2) (at next_stone last)
                (b.mem (at next_stone pos2))
                (logged-push_self b.changes (at next_stone last) (b.mem (at next_stone last))))
            refl (λ _. refl) (λ _. refl) in
        let linked =
          store-Tracks crossed (at next_stone pos2) (origin_of s2 b)
            (λ _. logged-push_self once.changes (at next_stone pos2) (b.mem (at next_stone pos2)))
            refl (λ _. refl) (λ _. refl) in
        elim (Bool-cases (ltb (origin_of s2 b) pos2)) [
          | inl before ↦ rw before (
              store-Tracks linked (at string_origin s) (origin_of s2 b)
                (λ h. absurd (ground (arith, h))) refl (λ _. refl) (λ _. refl))
          | inr after ↦ rw after linked
        ]

    take_liberties-Tracks :
        (s2 n k : ℕ) (b : Board) → Tracks b0 kept b → Tracks b0 kept (take_liberties s s2 n k b)
    unfolding take_liberties
    take_liberties-Tracks s2 zero k b t = t
    take_liberties-Tracks s2 (suc n) k b t =
        let pos2 = b.mem (at_slot libs s2 k) in
        take_liberties-Tracks s2 n (k + 1) _ (elim (Bool-cases (unmarked_liberty pos2 b)) [
          | inl more ↦ rw more (add_and_mark_liberty-Tracks t s pos2 (Free-New b0 s new b))
          | inr old ↦ rw old t
        ])

    merge_liberties-Tracks :
        (s2 : ℕ) (b : Board) → Tracks b0 kept b → Tracks b0 kept (merge_liberties s s2 b)
    unfolding merge_liberties
    merge_liberties-Tracks s2 b t = elim (Bool-cases (leb (liberties_of s2 b) max_liberties)) [
      | inl few ↦ rw few (take_liberties-Tracks s2 (liberties_of s2 b) 0 b t)
      | inr many ↦
          let cleared =
            liberties-Tracks (next_liberty_mark-Tracks t) s 0
              (Free-New b0 s new (next_liberty_mark b)) (λ k h _ _ _. absurd (ground (arith, h))) in
          let updated = update_liberties-Tracks cleared s in
          rw many (keep-Tracks updated kept (λ c k. updated.saves c (inl k)))
    ]

    move_neighbor-Tracks :
        (s2 x : ℕ) (b : Board) → Tracks b0 kept b → Tracks b0 kept (move_neighbor s s2 x b)
    unfolding move_neighbor
    move_neighbor-Tracks s2 x b t =
        let removed = remove_neighbor x s2 b in
        let removed-Tracks = remove_neighbor-Tracks t x s2 in
        elim (Bool-cases
          (removed.mem (at string_mark x) == removed.mem (only string_mark_counter))) [
            | inl marked ↦ rw marked removed-Tracks
            | inr fresh ↦ rw fresh (
                set_string_mark-Tracks
                  (add_neighbor_string-Tracks (add_pushed-Tracks x s removed removed-Tracks) s x (
                    Free-New_neighbors b0 s new
                      (add_neighbor_string x s (push_value (at string_neighbors x) removed))))
                  x)
          ]

    assimilate_string-Tracks :
        (pos : ℕ) (b : Board) → Tracks b0 kept b → Tracks b0 kept (assimilate_string s pos b)
    unfolding assimilate_string
    assimilate_string-Tracks pos b t =
        let s2 = number_at pos b in
        let sized =
          store-Tracks t (at string_size s) (size_of s b + size_of s2 b)
            (λ h. absurd (ground (arith, h))) refl (λ _. refl) (λ _. refl) in
        let renumbered =
          walk-keeps (Tracks b0 kept) s2 (renumber s) (λ b' t'. aside-Tracks t' b'.board_hash true)
            (renumber-Tracks s) _ _ _ sized in
        each_neighbor-keeps (Tracks b0 kept) s2 (move_neighbor s s2) (move_neighbor-Tracks s2) _ 0 _
          (merge_liberties-Tracks s2 _ (link_cycles-Tracks s2 _ _ renumbered))

    assimilate_towards-Tracks :
        (pos color : ℕ) (d : Direction) (b : Board)
        → Tracks b0 kept b
        → Tracks b0 kept (assimilate_towards s pos color d b)
    unfolding assimilate_towards
    assimilate_towards-Tracks pos color d b t =
        let q = step d pos in
        elim (Bool-cases (unmarked_liberty q b)) [
          | inl free ↦ rw free (elim (Bool-cases (marks d)) [
            | inl m ↦ rw m (add_and_mark_liberty-Tracks t s q (Free-New b0 s new b))
            | inr m ↦ rw m (add_liberty-Tracks t s q (Free-New b0 s new b))
          ])
          | inr held ↦ rw held (elim (Bool-cases (unmarked_color_string q (other_color color) b)) [
            | inl theirs ↦ rw theirs (join_neighbor-Tracks s new (marks d) pos q b t)
            | inr not ↦ rw not (elim (Bool-cases (unmarked_color_string q color b)) [
              | inl ours ↦ rw ours (assimilate_string-Tracks q b t)
              | inr other ↦ rw other t
            ])
          ])
        ]

  pub assimilate_neighbor_strings-Tracks :
      (pos : ℕ) (b : Board)
      → Vacant b0 pos
      → Tracks b0 kept b
      → Tracks b0 kept (assimilate_neighbor_strings pos b)
  unfolding assimilate_neighbor_strings
  assimilate_neighbor_strings-Tracks pos b vacant t =
      let s = b.mem (only next_string) in
      around-keeps (Tracks b0 kept) (assimilate_towards s pos (b.board pos))
        (assimilate_towards-Tracks s t.strings pos (b.board pos)) _
        (set_string_mark-Tracks
          (next_string_mark-Tracks (next_liberty_mark-Tracks (start_string-Tracks pos b vacant t)))
          s)
