-- ===== src/Board/Undo/Tracks.antt =====
-- While a move is made, popping the stacks leads back to the position before it: the invariant, and
-- the rules for a push and for a store.
use gnugo.Base.{
  ℕ, ◌≤◌, ◌≡◌, ap, ◌∙◌, ◌⊎◌, inl, inr, true, false, none, some, arith, Bool-cases, subst,
}
use gnugo.Board.Cells.{Cell, only, cell_eq, update, next_string}
use gnugo.Board.State.{Board, write, push_value}
use gnugo.Board.Trymove.{popped_changes, popped_vertices, popped_board}
use gnugo.Board.Undo.Live.{live_in, saved, logged, cell_eq→≡, logged-push}

-- A cell is saved with its old value, or it has it still, and is still live.
abbrev pub Tracked : Board → Board → Cell → Type 0
Tracked b0 b c =
    (saved b.changes c ≡ some (b0.mem c))
    ⊎ (saved b.changes c ≡ none) × (b.mem c ≡ b0.mem c) × (live_in b c ≡ true)

-- A cell may be stored to with no push: it was not live, or it is saved.
abbrev pub Free : Board → Board → Cell → Type 0
Free b0 b c = live_in b0 c ≡ true → logged b.changes c ≡ true

-- Between the begin of the topmost record, at `b0`, and `b`; the cells of `kept` are saved.
pub record Tracks (b0 : Board) (kept : Cell → Type 0) (b : Board) : Type 0 where
  pub cells : (c : Cell) → live_in b0 c ≡ true → Tracked b0 b c
  pub points : (p : ℕ) → popped_board b.vertices b.board p ≡ b0.board p
  pub changes_below : popped_changes b.changes ≡ b0.changes
  pub vertices_below : popped_vertices b.vertices ≡ b0.vertices
  pub strings : b0.mem (only next_string) ≤ b.mem (only next_string)
  pub saves : (c : Cell) → kept c → logged b.changes c ≡ true

module _ {b0 : Board} {kept : Cell → Type 0} {b : Board} (t : Tracks b0 kept b) where
  -- What is not live now is saved, if it was live.
  pub Free-of_dead : (c : Cell) → live_in b c ≡ false → Free b0 b c
  Free-of_dead c dead was = ground (arith, t.cells c was)

  push_cells : (c d : Cell) → live_in b0 d ≡ true → Tracked b0 (push_value c b) d
  push_cells c d was = elim (t.cells d was) [
    | inl e ↦ inl (rw e)
    | inr (n, e, l) ↦ elim (Bool-cases (cell_eq c d)) [
      | inl same ↦ inl (rw (n, same) (ap some (ap b.mem (cell_eq→≡ c d same) ∙ e)))
      | inr other ↦ inr (rw (n, other), e, l)
    ]
  ]

  pub push-Tracks : (c : Cell) → Tracks b0 kept (push_value c b)
  unfolding popped_changes
  push-Tracks c = record {
    cells = push_cells c;
    points = t.points;
    changes_below = t.changes_below;
    vertices_below = t.vertices_below;
    strings = t.strings;
    saves = λ d k. logged-push b.changes c d (b.mem c) (t.saves d k);
  }

  write_cells :
      (c : Cell) (v : ℕ)
      → Free b0 b c
      → ((d : Cell)
          → live_in b0 d ≡ true
          → saved b.changes d ≡ none
          → live_in b d ≡ true
          → live_in (write c v b) d ≡ true)
      → (d : Cell) → live_in b0 d ≡ true
      → Tracked b0 (write c v b) d
  write_cells c v free lives d was = elim (t.cells d was) [
    | inl e ↦ inl e
    | inr (n, e, l) ↦ elim (Bool-cases (cell_eq c d)) [
      | inl same ↦
          let lost : logged b.changes d ≡ true =
            subst (λ x. logged b.changes x ≡ true) (cell_eq→≡ c d same)
              (free (rw (cell_eq→≡ c d same) was)) in
          absurd (ground (arith, lost))
      | inr other ↦ inr (n, (rw other e), lives d was n l)
    ]
  ]

  -- A store that leaves every live cell live.
  pub write-Tracks :
      (c : Cell) (v : ℕ)
      → Free b0 b c
      → ((d : Cell)
          → live_in b0 d ≡ true
          → saved b.changes d ≡ none
          → live_in b d ≡ true
          → live_in (write c v b) d ≡ true)
      → b0.mem (only next_string) ≤ update b.mem c v (only next_string)
      → Tracks b0 kept (write c v b)
  write-Tracks c v free lives grows = record {
    cells = write_cells c v free lives;
    points = t.points;
    changes_below = t.changes_below;
    vertices_below = t.vertices_below;
    strings = grows;
    saves = t.saves;
  }
