-- ===== src/Board/Undo/Lists.antt =====
-- The functions on the lists of liberties and neighbors keep the invariant.
use gnugo.Base.{
  ℕ, zero, suc, ◌+◌, ◌≤◌, ◌<◌, ◌≡◌, refl, ap, ◌⊎◌, inl, inr, true, ltb, ◌==◌, arith, Bool-cases,
  min, ==→≡, subst,
}
use gnugo.Board.Cells.{
  Cell, Memory, at, at_slot, only, string_liberties, string_neighbors, string_mark, libs,
  neighbor_list, ml, liberty_mark, string_mark_counter,
}
use gnugo.Board.State.{
  Board, max_liberties, write, push_value, liberties_of, neighbors_of, number_at, set_string_mark,
  mark_string_at, list_liberty, add_liberty, add_and_mark_liberty, add_neighbor_string,
  next_string_mark, next_liberty_mark, unmarked_liberty,
}
use gnugo.Board.Liberties.{push_liberties, add_if_unmarked, add_liberties_around, update_liberties}
use gnugo.Point.{step}
use gnugo.Board.Loops.{around-keeps, walk-keeps}
use gnugo.Board.Undo.Live.{logged, logged-push, logged-push_self}
use gnugo.Board.Undo.Tracks.{Free, Tracks, push-Tracks, Free-of_dead}
use gnugo.Board.Undo.Rules.{store-Tracks, liberties-Tracks, neighbors-Tracks}
use gnugo.Board.Undo.Points.{aside-Tracks, keep-Tracks}

module _ {b0 : Board} {kept : Cell → Type 0} {b : Board} (t : Tracks b0 kept b) where
  -- A store to a variable that means nothing between moves.
  pub set_string_mark-Tracks : (s : ℕ) → Tracks b0 kept (set_string_mark s b)
  set_string_mark-Tracks s =
      store-Tracks t (at string_mark s) (b.mem (only string_mark_counter)) (λ h. cc) refl
        (λ _. refl) (λ _. refl)

  pub mark_string_at-Tracks : (pos : ℕ) → Tracks b0 kept (mark_string_at pos b)
  unfolding mark_string_at
  mark_string_at-Tracks pos = set_string_mark-Tracks (number_at pos b)

  pub next_string_mark-Tracks : Tracks b0 kept (next_string_mark b)
  next_string_mark-Tracks =
      store-Tracks t (only string_mark_counter) (b.mem (only string_mark_counter) + 1) (λ h. cc)
        refl (λ _. refl) (λ _. refl)

  pub next_liberty_mark-Tracks : Tracks b0 kept (next_liberty_mark b)
  next_liberty_mark-Tracks =
      store-Tracks t (only liberty_mark) (b.mem (only liberty_mark) + 1) (λ h. cc) refl (λ _. refl)
        (λ _. refl)

  mark_liberty-Tracks : (pos v : ℕ) → Tracks b0 kept (write (at ml pos) v b)
  mark_liberty-Tracks pos v = store-Tracks t (at ml pos) v (λ h. cc) refl (λ _. refl) (λ _. refl)

  list_liberty-Tracks : (s pos : ℕ) → Tracks b0 kept (list_liberty s pos b)
  unfolding list_liberty
  list_liberty-Tracks s pos = elim (Bool-cases (ltb (liberties_of s b) max_liberties)) [
    | inl room ↦ rw room (
        store-Tracks t (at_slot libs s (liberties_of s b)) pos
          (Free-of_dead t (at_slot libs s (liberties_of s b)) (ground arith)) refl (λ _. refl)
          (λ _. refl))
    | inr full ↦ rw full t
  ]

changes-list_liberty : (s pos : ℕ) (b : Board) → (list_liberty s pos b).changes ≡ b.changes
unfolding list_liberty
changes-list_liberty s pos b = ground arith

pub changes-add_liberty : (s pos : ℕ) (b : Board) → (add_liberty s pos b).changes ≡ b.changes
unfolding add_liberty
changes-add_liberty s pos b = changes-list_liberty s pos b

pub changes-add_if_unmarked :
    (s pos : ℕ) (b : Board) → (add_if_unmarked s pos b).changes ≡ b.changes
unfolding add_if_unmarked add_and_mark_liberty
changes-add_if_unmarked s pos b = ground (arith, changes-add_liberty s pos b)

module _ {b0 : Board} {kept : Cell → Type 0} {b : Board} (t : Tracks b0 kept b) where
  -- ADD_LIBERTY, where the number of liberties is saved, or the string is new.
  pub add_liberty-Tracks :
      (s pos : ℕ) → Free b0 b (at string_liberties s) → Tracks b0 kept (add_liberty s pos b)
  unfolding add_liberty
  add_liberty-Tracks s pos free =
      let listed = list_liberty s pos b in
      liberties-Tracks (list_liberty-Tracks t s pos) s (liberties_of s listed + 1)
        (λ was. rw (changes-list_liberty s pos b) (free was))
        (λ k _ low high _. absurd (omega arith))

  pub add_and_mark_liberty-Tracks :
      (s pos : ℕ)
      → Free b0 b (at string_liberties s)
      → Tracks b0 kept (add_and_mark_liberty s pos b)
  unfolding add_and_mark_liberty
  add_and_mark_liberty-Tracks s pos free = mark_liberty-Tracks (add_liberty-Tracks s pos free) pos _

  pub add_if_unmarked-Tracks :
      (s pos : ℕ) → Free b0 b (at string_liberties s) → Tracks b0 kept (add_if_unmarked s pos b)
  unfolding add_if_unmarked
  add_if_unmarked-Tracks s pos free = elim (Bool-cases (unmarked_liberty pos b)) [
    | inl new ↦ rw new (add_and_mark_liberty-Tracks s pos free)
    | inr old ↦ rw old t
  ]

  -- An entry at the end of the list of neighbors.
  pub add_neighbor_string-Tracks :
      (s x : ℕ) → Free b0 b (at string_neighbors s) → Tracks b0 kept (add_neighbor_string s x b)
  unfolding add_neighbor_string
  add_neighbor_string-Tracks s x free =
      neighbors-Tracks
        (store-Tracks t (at_slot neighbor_list s (neighbors_of s b)) x
          (Free-of_dead t (at_slot neighbor_list s (neighbors_of s b)) (ground arith)) refl
          (λ _. refl) (λ _. refl))
        s (neighbors_of s b + 1) free (λ k _ low high. absurd (omega arith))

-- The listed liberties from `k` on are pushed; what was saved stays so.
push_liberties-Tracks :
    {b0 : Board} {kept : Cell → Type 0} (s n k : ℕ) (b : Board)
    → Tracks b0 kept b
    → Tracks b0 kept (push_liberties s n k b)
unfolding push_liberties
push_liberties-Tracks s zero k b t = t
push_liberties-Tracks s (suc n) k b t =
    push_liberties-Tracks s n (k + 1) _ (push-Tracks t (at_slot libs s k))

pub logged-push_liberties :
    (s n k : ℕ) (b : Board) (c : Cell)
    → logged b.changes c ≡ true
    → logged (push_liberties s n k b).changes c ≡ true
unfolding push_liberties
logged-push_liberties s zero k b c h = h
logged-push_liberties s (suc n) k b c h =
    logged-push_liberties s n (k + 1) _ c
      (logged-push b.changes (at_slot libs s k) c (b.mem (at_slot libs s k)) h)

logged-push_liberties_self :
    (s n k j : ℕ) (b : Board)
    → k ≤ j
    → j < k + n
    → logged (push_liberties s n k b).changes (at_slot libs s j) ≡ true
unfolding push_liberties
logged-push_liberties_self s zero k j b low high = absurd (omega arith)
logged-push_liberties_self s (suc n) k j b low high = elim (Bool-cases (k == j)) [
  | inl same ↦ logged-push_liberties s n (k + 1) _ (at_slot libs s j) (
      subst (λ (x : ℕ). logged (push_value (at_slot libs s k) b).changes (at_slot libs s x) ≡ true)
        (==→≡ k j same) (logged-push_self b.changes (at_slot libs s k) (b.mem (at_slot libs s k))))
  | inr other ↦ logged-push_liberties_self s n (k + 1) j _ (ground (arith, other)) (omega arith)
]

pub mem-push_liberties : (s n k : ℕ) (b : Board) → (push_liberties s n k b).mem ≡ b.mem
unfolding push_liberties
mem-push_liberties s zero k b = refl
mem-push_liberties s (suc n) k b = mem-push_liberties s n (k + 1) _

-- Between the moves of the marks and the walk, `cleared` of update_liberties.
module _ {b0 : Board} {kept : Cell → Type 0} {b : Board} (t : Tracks b0 kept b) (s : ℕ) where
  abbrev KeptToo : Cell → Type 0
  KeptToo c = kept c ⊎ (c ≡ at string_liberties s)

  abbrev listed : Board
  listed =
      push_liberties s (min (liberties_of s b) max_liberties) 0
        (push_value (at string_liberties s) b)

  listed-Tracks : Tracks b0 kept listed
  listed-Tracks = push_liberties-Tracks s _ 0 _ (push-Tracks t (at string_liberties s))

  listed_liberties : logged listed.changes (at string_liberties s) ≡ true
  listed_liberties =
      logged-push_liberties s _ 0 _ (at string_liberties s)
        (logged-push_self b.changes (at string_liberties s) (liberties_of s b))

  cleared-Tracks : Tracks b0 KeptToo (write (at string_liberties s) 0 listed)
  cleared-Tracks =
      keep-Tracks
        (liberties-Tracks listed-Tracks s 0 (λ _. listed_liberties)
          (λ k _ low high few. logged-push_liberties_self s _ 0 k _ low (
            omega (
              arith,
              ap (λ (m : Memory). m (at string_liberties s))
                  (mem-push_liberties s (min (liberties_of s b) max_liberties) 0
                    (push_value (at string_liberties s) b)),
            ))))
        KeptToo (λ c. elim [ inl k ↦ listed-Tracks.saves c k | inr e ↦ rw e listed_liberties ])

  around_keeps_too :
      (pos : ℕ) (b' : Board)
      → Tracks b0 KeptToo b'
      → Tracks b0 KeptToo (add_liberties_around s pos b')
  unfolding add_liberties_around
  around_keeps_too pos b' t' =
      around-keeps (Tracks b0 KeptToo) (λ d. add_if_unmarked s (step d pos))
        (λ d b'' t''. add_if_unmarked-Tracks t'' s (step d pos) (λ _. t''.saves _ (inr refl))) b' t'

  -- update_liberties saves what it changes, and the number of liberties in any case.
  pub update_liberties-Tracks : Tracks b0 KeptToo (update_liberties s b)
  unfolding update_liberties
  update_liberties-Tracks =
      walk-keeps (Tracks b0 KeptToo) s (add_liberties_around s)
        (λ b' t'. aside-Tracks t' b'.board_hash true) around_keeps_too _ _ _
        (next_liberty_mark-Tracks cleared-Tracks)
