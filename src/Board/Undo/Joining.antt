-- ===== src/Board/Undo/Joining.antt =====
-- What the three ways to place a stone in a string share, and create_new_string.
use gnugo.Base.{
  ℕ, ◌≤◌, ◌≡◌, refl, inl, inr, Bool, true, false, ◌||◌, not, ltb, if◌then◌else◌, arith, Bool-cases,
}
use gnugo.Color.{is_stone, other_color}
use gnugo.Point.{Direction, step}
use gnugo.Board.Cells.{
  Cell, at, only, string_color, string_size, string_origin, string_liberties, string_neighbors,
  string_mark, string_number, next_stone, next_string,
}
use gnugo.Board.State.{
  Board, push_value, number_at, is_liberty, unmarked_color_string, marks, mark_string_at,
  add_neighbor_string, max_strings,
}
use gnugo.Board.Strings.{start_string, join_neighbor, create_towards, create_new_string}
use gnugo.Board.Loops.{around-keeps}
use gnugo.Board.Undo.Live.{logged-push_self}
use gnugo.Board.Undo.Tracks.{Free, Tracks, push-Tracks}
use gnugo.Board.Undo.Rules.{store-Tracks, liberties-Tracks, neighbors-Tracks}
use gnugo.Board.Undo.Points.{next_string-Tracks, aside-Tracks}
use gnugo.Board.Undo.Lists.{
  mark_string_at-Tracks, next_string_mark-Tracks, add_liberty-Tracks, add_neighbor_string-Tracks,
}

-- A string that the position before the move did not have.
abbrev pub New : Board → ℕ → Type 0
New b0 s = b0.mem (only next_string) ≤ s

-- The point of the new stone, which was empty.
abbrev pub Vacant : Board → ℕ → Type 0
Vacant b0 pos = is_stone (b0.board pos) ≡ false

-- The numbers of a new string need no push.
pub Free-New : (b0 : Board) (s : ℕ) → New b0 s → (b : Board) → Free b0 b (at string_liberties s)
Free-New b0 s new b h = absurd (ground (arith, h))

pub Free-New_neighbors :
    (b0 : Board) (s : ℕ) → New b0 s → (b : Board) → Free b0 b (at string_neighbors s)
Free-New_neighbors b0 s new b h = absurd (ground (arith, h))

module _ {b0 : Board} {kept : Cell → Type 0} where
  pub mark_if-Tracks :
      (d : Bool) (q : ℕ) (b : Board)
      → Tracks b0 kept b
      → Tracks b0 kept (if d then mark_string_at q b else b)
  mark_if-Tracks true q b t = mark_string_at-Tracks t q
  mark_if-Tracks false q b t = t

  -- PUSH_VALUE(string[s2].neighbors); ADD_NEIGHBOR(s2, pos)
  pub add_pushed-Tracks :
      (s2 x : ℕ) (b : Board)
      → Tracks b0 kept b
      → Tracks b0 kept (add_neighbor_string s2 x (push_value (at string_neighbors s2) b))
  add_pushed-Tracks s2 x b t =
      add_neighbor_string-Tracks (push-Tracks t (at string_neighbors s2)) s2 x
        (λ _. logged-push_self b.changes (at string_neighbors s2) (b.mem (at string_neighbors s2)))

  pub start_string-Tracks :
      (pos : ℕ) (b : Board) → Vacant b0 pos → Tracks b0 kept b → Tracks b0 kept (start_string pos b)
  unfolding start_string
  start_string-Tracks pos b vacant t =
      let s = b.mem (only next_string) in
      let numbered =
        store-Tracks (next_string-Tracks t) (at string_number pos) s
          (λ h. absurd (ground (arith, vacant, h))) refl (λ _. refl) (λ _. refl) in
      let cycle =
        store-Tracks numbered (at next_stone pos) pos (λ h. absurd (ground (arith, vacant, h))) refl
          (λ _. refl) (λ _. refl) in
      let fresh : (ltb s (b0.mem (only next_string)) ≡ true) → ⊥ = λ h. ground (arith, t.strings) in
      let colored =
        store-Tracks cycle (at string_color s) (b.board pos) (λ h. absurd (fresh h)) refl
          (λ _. refl) (λ _. refl) in
      let sized =
        store-Tracks colored (at string_size s) 1 (λ h. absurd (fresh h)) refl (λ _. refl)
          (λ _. refl) in
      let placed =
        store-Tracks sized (at string_origin s) pos (λ h. absurd (fresh h)) refl (λ _. refl)
          (λ _. refl) in
      let cleared =
        liberties-Tracks placed s 0 (λ h. absurd (fresh h))
          (λ k h _ _ _. absurd (fresh (ground (arith, h)))) in
      let alone =
        neighbors-Tracks cleared s 0 (λ h. absurd (fresh h))
          (λ k h _ _. absurd (fresh (ground (arith, h)))) in
      aside-Tracks alone b.board_hash (b.faulty || not (ltb s max_strings))

  module _ (s : ℕ) (new : New b0 s) where
    pub join_neighbor-Tracks :
        (m : Bool) (pos q : ℕ) (b : Board)
        → Tracks b0 kept b
        → Tracks b0 kept (join_neighbor m s pos q b)
    unfolding join_neighbor
    join_neighbor-Tracks m pos q b t = mark_if-Tracks m q _ (
        add_pushed-Tracks (number_at q b) _ _
          (add_neighbor_string-Tracks t s (number_at q b) (Free-New_neighbors b0 s new b)))

    create_towards-Tracks :
        (pos other : ℕ) (d : Direction) (b : Board)
        → Tracks b0 kept b
        → Tracks b0 kept (create_towards s pos other d b)
    unfolding create_towards
    create_towards-Tracks pos other d b t = elim (Bool-cases (is_liberty (step d pos) b)) [
      | inl free ↦ rw free (add_liberty-Tracks t s (step d pos) (Free-New b0 s new b))
      | inr held ↦ rw held (elim (Bool-cases (unmarked_color_string (step d pos) other b)) [
        | inl theirs ↦ rw theirs (join_neighbor-Tracks (marks d) pos (step d pos) b t)
        | inr not ↦ rw not t
      ])
    ]

  pub create_new_string-Tracks :
      (pos : ℕ) (b : Board)
      → Vacant b0 pos
      → Tracks b0 kept b
      → Tracks b0 kept (create_new_string pos b)
  unfolding create_new_string
  create_new_string-Tracks pos b vacant t =
      let s = b.mem (only next_string) in
      let started = start_string-Tracks pos b vacant t in
      around-keeps (Tracks b0 kept) (create_towards s pos (other_color (b.board pos)))
        (create_towards-Tracks s t.strings pos (other_color (b.board pos))) _
        (next_string_mark-Tracks
          (store-Tracks started (at string_mark s) 0 (λ h. cc) refl (λ _. refl) (λ _. refl)))
