-- ===== src/Board/Undo/Entries.antt =====
-- remove_neighbor and remove_liberty keep the invariant.
use gnugo.Base.{
  ℕ, ◌-◌, ◌≤◌, ◌<◌, ◌≡◌, refl, ◌⊎◌, inl, inr, true, false, ltb, arith, Bool-cases, subst,
}
use gnugo.Board.Cells.{Cell, at, at_slot, string_liberties, string_neighbors, libs, neighbor_list}
use gnugo.Board.State.{Board, max_liberties, push_value, liberties_of, neighbors_of}
use gnugo.Board.Liberties.{drop_entry, remove_neighbor, remove_liberty, find_entry}
use gnugo.Board.Undo.Live.{logged, logged-push, logged-push_self}
use gnugo.Board.Undo.Tracks.{Tracks, push-Tracks}
use gnugo.Board.Undo.Rules.{store-Tracks, liberties-Tracks, neighbors-Tracks}
use gnugo.Board.Undo.Points.{assert-Tracks, keep-Tracks}
use gnugo.Board.Undo.Lists.{update_liberties-Tracks}

-- The three pushes of drop_entry.
abbrev pushed_entry : (ℕ → Cell) → Cell → ℕ → Board → Board
pushed_entry entry count k b =
    push_value count (push_value (entry k) (push_value (entry (b.mem count - 1)) b))

module _ (entry : ℕ → Cell) (count : Cell) (k : ℕ) (b : Board) where
  logged_count : logged (pushed_entry entry count k b).changes count ≡ true
  logged_count =
      logged-push_self (push_value (entry k) (push_value (entry (b.mem count - 1)) b)).changes count
        (b.mem count)

  logged_entry : logged (pushed_entry entry count k b).changes (entry k) ≡ true
  logged_entry =
      logged-push (push_value (entry k) (push_value (entry (b.mem count - 1)) b)).changes count
        (entry k) (b.mem count)
        (logged-push_self (push_value (entry (b.mem count - 1)) b).changes (entry k)
          (b.mem (entry k)))

  logged_last :
      (j : ℕ)
      → b.mem count - 1 ≤ j
      → j < b.mem count
      → logged (pushed_entry entry count k b).changes (entry j) ≡ true
  logged_last j low high =
      let e : b.mem count - 1 ≡ j = omega arith in
      subst (λ x. logged (pushed_entry entry count k b).changes (entry x) ≡ true) e
        (logged-push (push_value (entry k) (push_value (entry (b.mem count - 1)) b)).changes count
          (entry (b.mem count - 1)) (b.mem count)
          (logged-push (push_value (entry (b.mem count - 1)) b).changes (entry k)
            (entry (b.mem count - 1)) (b.mem (entry k))
            (logged-push_self b.changes (entry (b.mem count - 1))
              (b.mem (entry (b.mem count - 1))))))

module _ {b0 : Board} {kept : Cell → Type 0} {b : Board} (t : Tracks b0 kept b) where
  pushed_entry-Tracks :
      (entry : ℕ → Cell) (count : Cell) (k : ℕ) → Tracks b0 kept (pushed_entry entry count k b)
  pushed_entry-Tracks entry count k =
      push-Tracks (push-Tracks (push-Tracks t (entry (b.mem count - 1))) (entry k)) count

  drop_neighbor-Tracks :
      (s k : ℕ) → Tracks b0 kept (drop_entry (at_slot neighbor_list s) (at string_neighbors s) k b)
  unfolding drop_entry
  drop_neighbor-Tracks s k =
      let entry = at_slot neighbor_list s in
      let count = at string_neighbors s in
      neighbors-Tracks
        (store-Tracks (pushed_entry-Tracks entry count k) (entry k)
          (b.mem (entry (b.mem count - 1))) (λ _. logged_entry entry count k b) refl (λ _. refl)
          (λ _. refl))
        s (b.mem count - 1) (λ _. logged_count entry count k b)
        (λ j _ low high. logged_last entry count k b j low high)

  drop_liberty-Tracks :
      (s k : ℕ) → Tracks b0 kept (drop_entry (at_slot libs s) (at string_liberties s) k b)
  unfolding drop_entry
  drop_liberty-Tracks s k =
      let entry = at_slot libs s in
      let count = at string_liberties s in
      liberties-Tracks
        (store-Tracks (pushed_entry-Tracks entry count k) (entry k)
          (b.mem (entry (b.mem count - 1))) (λ _. logged_entry entry count k b) refl (λ _. refl)
          (λ _. refl))
        s (b.mem count - 1) (λ _. logged_count entry count k b)
        (λ j _ low high _. logged_last entry count k b j low high)

  pub remove_neighbor-Tracks : (s n : ℕ) → Tracks b0 kept (remove_neighbor s n b)
  unfolding remove_neighbor
  remove_neighbor-Tracks s n =
      let found = find_entry (at_slot neighbor_list s) n (neighbors_of s b) 0 b in
      elim (Bool-cases found.1) [
        | inl e ↦ rw e (drop_neighbor-Tracks s found.0)
        | inr e ↦ rw e (assert-Tracks t false)
      ]

  pub remove_liberty-Tracks : (s pos : ℕ) → Tracks b0 kept (remove_liberty s pos b)
  unfolding remove_liberty
  remove_liberty-Tracks s pos =
      let found = find_entry (at_slot libs s) pos (liberties_of s b) 0 b in
      elim (Bool-cases (ltb max_liberties (liberties_of s b))) [
        | inl many ↦
            let updated = update_liberties-Tracks t s in
            rw many (keep-Tracks updated kept (λ c k. updated.saves c (inl k)))
        | inr few ↦ rw few (elim (Bool-cases found.1) [
          | inl e ↦ rw e (drop_liberty-Tracks s found.0)
          | inr e ↦ rw e t
        ])
      ]

  -- The number of liberties is saved, if the liberty is listed or the list is not complete.
  pub remove_liberty_saves :
      (s pos : ℕ)
      → (ltb max_liberties (liberties_of s b) ≡ true)
        ⊎ ((find_entry (at_slot libs s) pos (liberties_of s b) 0 b).1 ≡ true)
      → logged (remove_liberty s pos b).changes (at string_liberties s) ≡ true
  unfolding remove_liberty drop_entry
  remove_liberty_saves s pos found = elim (Bool-cases (ltb max_liberties (liberties_of s b))) [
    | inl many ↦ rw many ((update_liberties-Tracks t s).saves _ (inr refl))
    | inr few ↦ rw few (elim found [
      | inl many ↦ absurd (ground (arith, many, few))
      | inr e ↦ rw e (
          logged_count (at_slot libs s) (at string_liberties s)
            (find_entry (at_slot libs s) pos (liberties_of s b) 0 b).0 b)
    ])
  ]
