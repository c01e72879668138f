-- ===== src/Board/Undo/Extending.antt =====
-- extend_neighbor_string keeps the invariant. It adds liberties with no push of their number: that
-- was pushed when the place of the new stone was taken out of the list.
use gnugo.Base.{
  ℕ, zero, suc, ◌+◌, ◌≤◌, ◌<◌, ◌≡◌, refl, ◌∙◌, ◌⊎◌, inl, inr, Bool, true, ◌&&◌, not, ltb,
  if◌then◌else◌, arith, Bool-cases,
}
use gnugo.Color.{other_color}
use gnugo.Point.{Direction, step}
use gnugo.Board.Cells.{
  Cell, at, at_slot, string_size, string_origin, string_liberties, libs, string_number, next_stone,
}
use gnugo.Board.State.{
  Board, max_liberties, write, number_at, is_liberty, unmarked_color_string, marks, origin_of,
  next_of, size_of, liberties_of, set_string_mark,
}
use gnugo.Board.Liberties.{update_liberties, remove_liberty, find_entry}
use gnugo.Board.Strings.{
  link_stone, mark_neighbors, extend_towards, extend_neighbor_string, non_neighbor_of_string,
}
use gnugo.Board.Loops.{around-keeps, each_neighbor-keeps}
use gnugo.Board.Undo.Live.{logged, logged-push_self}
use gnugo.Board.Undo.Tracks.{Tracks, push-Tracks}
use gnugo.Board.Undo.Rules.{store-Tracks, assign-Tracks}
use gnugo.Board.Undo.Points.{keep-Tracks}
use gnugo.Board.Undo.Lists.{
  set_string_mark-Tracks, next_string_mark-Tracks, add_liberty-Tracks, update_liberties-Tracks,
}
use gnugo.Board.Undo.Entries.{remove_liberty-Tracks, remove_liberty_saves}
use gnugo.Board.Undo.Joining.{Vacant, mark_if-Tracks, add_pushed-Tracks}

-- The liberty `pos` of string `s` is listed, or the list is known not to be complete.
abbrev pub Listed : Board → ℕ → ℕ → Type 0
Listed b s pos =
    (ltb max_liberties (liberties_of s b) ≡ true)
    ⊎ ((find_entry (at_slot libs s) pos (liberties_of s b) 0 b).1 ≡ true)

-- Or the number of liberties is saved already.
abbrev pub Ready : Board → ℕ → ℕ → Type 0
Ready b s pos = (logged b.changes (at string_liberties s) ≡ true) ⊎ Listed b s pos

pub find_entry_cong :
    (entry : ℕ → Cell) (x n k : ℕ) (b b' : Board)
    → ((j : ℕ) → k ≤ j → j < k + n → b'.mem (entry j) ≡ b.mem (entry j))
    → (find_entry entry x n k b').1 ≡ (find_entry entry x n k b).1
unfolding find_entry
find_entry_cong entry x zero k b b' e = refl
find_entry_cong entry x (suc n) k b b' e = ground (
  arith,
  e k (omega arith) (omega arith),
  find_entry_cong entry x n (k + 1) b b' (λ j low high. e j (omega arith) (omega arith)),
)

-- What linking the stone leaves alone.
liberties-link_stone :
    (pos s x : ℕ) (b : Board)
    → (link_stone pos s b).mem (at string_liberties x) ≡ b.mem (at string_liberties x)
unfolding link_stone
liberties-link_stone pos s x b = elim (Bool-cases (ltb pos (origin_of s b))) [
  | inl before ↦ rw before
  | inr after ↦ rw after
]

libs-link_stone :
    (pos s x k : ℕ) (b : Board)
    → (link_stone pos s b).mem (at_slot libs x k) ≡ b.mem (at_slot libs x k)
unfolding link_stone
libs-link_stone pos s x k b = elim (Bool-cases (ltb pos (origin_of s b))) [
  | inl before ↦ rw before
  | inr after ↦ rw after
]

logged-link_stone :
    (pos s x : ℕ) (b : Board)
    → logged b.changes (at string_liberties x) ≡ true
    → logged (link_stone pos s b).changes (at string_liberties x) ≡ true
unfolding link_stone
logged-link_stone pos s x b h = elim (Bool-cases (ltb pos (origin_of s b))) [
  | inl before ↦ rw before (ground (arith, h))
  | inr after ↦ rw after (ground (arith, h))
]

link_stone-Ready : (pos s : ℕ) (b : Board) → Ready b s pos → Ready (link_stone pos s b) s pos
link_stone-Ready pos s b (inl h) = inl (logged-link_stone pos s s b h)
link_stone-Ready pos s b (inr (inl many)) = inr (inl (rw (liberties-link_stone pos s s b) many))
link_stone-Ready pos s b (inr (inr found)) = inr (
    inr (
      rw (liberties-link_stone pos s s b) (
        find_entry_cong (at_slot libs s) pos (liberties_of s b) 0 b (link_stone pos s b)
          (λ j _ _. libs-link_stone pos s s j b)
        ∙ found)))

module _ {b0 : Board} {kept : Cell → Type 0} where
  link_stone-Tracks :
      (pos s : ℕ) (b : Board)
      → Vacant b0 pos
      → Tracks b0 kept b
      → Tracks b0 kept (link_stone pos s b)
  unfolding link_stone
  link_stone-Tracks pos s b vacant t =
      let pos2 = origin_of s b in
      let linked =
        push-Tracks
          (store-Tracks t (at next_stone pos) (next_of pos2 b)
            (λ h. absurd (ground (arith, vacant, h))) refl (λ _. refl) (λ _. refl))
          (at next_stone pos2) in
      let written = write (at next_stone pos) (next_of pos2 b) b in
      let cycle =
        store-Tracks linked (at next_stone pos2) pos
          (λ _. logged-push_self b.changes (at next_stone pos2) (written.mem (at next_stone pos2)))
          refl (λ _. refl) (λ _. refl) in
      let moved = assign-Tracks cycle (at string_origin s) pos refl (λ _. refl) (λ _. refl) in
      let sized = λ (placed : Board) (t' : Tracks b0 kept placed).
        assign-Tracks
          (store-Tracks t' (at string_number pos) s (λ h. absurd (ground (arith, vacant, h))) refl
            (λ _. refl) (λ _. refl))
          (at string_size s) (size_of s placed + 1) refl (λ _. refl) (λ _. refl) in
      elim (Bool-cases (ltb pos pos2)) [
        | inl before ↦ rw before (sized _ moved)
        | inr after ↦ rw after (sized _ cycle)
      ]

  mark_neighbors-Tracks :
      (s : ℕ) (b : Board) → Tracks b0 kept b → Tracks b0 kept (mark_neighbors s b)
  unfolding mark_neighbors
  mark_neighbors-Tracks s b t =
      each_neighbor-keeps (Tracks b0 kept) s set_string_mark (λ x _ t'. set_string_mark-Tracks t' x)
        _ 0 b t

  extend_towards-Tracks :
      (updated : Bool) (s pos color : ℕ) (d : Direction) (b : Board)
      → kept (at string_liberties s)
      → Tracks b0 kept b
      → Tracks b0 kept (extend_towards updated s pos color d b)
  unfolding extend_towards
  extend_towards-Tracks updated s pos color d b k t =
      let q = step d pos in
      elim (Bool-cases (is_liberty q b)) [
        | inl free ↦
            rw free (elim (Bool-cases (not updated && not (non_neighbor_of_string d q s color b))) [
              | inl new ↦ rw new (add_liberty-Tracks t s q (λ _. t.saves _ k))
              | inr old ↦ rw old t
            ])
        | inr held ↦ rw held (elim (Bool-cases (unmarked_color_string q (other_color color) b)) [
          | inl theirs ↦ rw theirs (
              mark_if-Tracks (marks d) q _
                (add_pushed-Tracks (number_at q b) _ _ (add_pushed-Tracks s (number_at q b) b t)))
          | inr not ↦ rw not t
        ])
      ]

-- The cells of `kept`, and the number of liberties of `s`.
abbrev AlsoLiberties : (Cell → Type 0) → ℕ → Cell → Type 0
AlsoLiberties kept s c = kept c ⊎ (c ≡ at string_liberties s)

module _ {b0 : Board} {kept : Cell → Type 0} where
  also-Tracks :
      (s : ℕ) (b : Board)
      → logged b.changes (at string_liberties s) ≡ true
      → Tracks b0 kept b
      → Tracks b0 (AlsoLiberties kept s) b
  also-Tracks s b h t =
      keep-Tracks t (AlsoLiberties kept s) (λ c. elim [ inl k ↦ t.saves c k | inr e ↦ rw e h ])

  -- The place of the new stone leaves the list, and the number of liberties is saved.
  take_place-Tracks :
      (s pos : ℕ) (b : Board)
      → Ready b s pos
      → Tracks b0 kept b
      → Tracks b0 (AlsoLiberties kept s) (
          if ltb max_liberties (liberties_of s b)
          then update_liberties s b
          else remove_liberty s pos b)
  take_place-Tracks s pos b r t = elim (Bool-cases (ltb max_liberties (liberties_of s b))) [
    | inl many ↦ rw many (update_liberties-Tracks t s)
    | inr few ↦ rw few (elim r [
      | inl h ↦ remove_liberty-Tracks (also-Tracks s b h t) s pos
      | inr l ↦
          also-Tracks s (remove_liberty s pos b) (remove_liberty_saves t s pos l)
            (remove_liberty-Tracks t s pos)
    ])
  ]

  pub extend_neighbor_string-Tracks :
      (pos s : ℕ) (b : Board)
      → Vacant b0 pos
      → Ready b s pos
      → Tracks b0 kept b
      → Tracks b0 kept (extend_neighbor_string pos s b)
  unfolding extend_neighbor_string
  extend_neighbor_string-Tracks pos s b vacant r t =
      let linked = link_stone pos s b in
      let updated = ltb max_liberties (liberties_of s linked) in
      let freed =
        take_place-Tracks s pos linked (link_stone-Ready pos s b r)
          (link_stone-Tracks pos s b vacant t) in
      let marked = mark_neighbors-Tracks s _ (next_string_mark-Tracks freed) in
      let extended =
        around-keeps (Tracks b0 (AlsoLiberties kept s)) (extend_towards updated s pos (b.board pos))
          (λ d b' t'. extend_towards-Tracks updated s pos (b.board pos) d b' (inr refl) t') _
          marked in
      keep-Tracks extended kept (λ c k. extended.saves c (inl k))
