-- ===== src/Board/Undo/Restore.antt =====
-- Popping the topmost record leads back to the position at its begin.
use gnugo.Base.{ℕ, ◌≡◌, refl, ap, ◌∙◌, inl, inr, true, arith, fun_ext, get_or}
use gnugo.Board.Cells.{
  Field, Cell, at, only, string_color, string_size, string_origin, string_liberties,
  string_neighbors, libs, neighbor_list, string_number, next_stone, next_string,
}
use gnugo.Board.State.{Board}
use gnugo.Board.Trymove.{pop_record}
use gnugo.Board.Undo.Live.{live, live_in, popped_memory-saved}
use gnugo.Board.Undo.Tracks.{Tracks}

-- Two boards are the same position: the same stones, the same value of every variable that means
-- something, the same stacks and the same hash.
pub record SamePosition (b b' : Board) : Type 0 where
  pub cells : (c : Cell) → live_in b c ≡ true → b'.mem c ≡ b.mem c
  pub points : (p : ℕ) → b'.board p ≡ b.board p
  pub changes : b'.changes ≡ b.changes
  pub vertices : b'.vertices ≡ b.vertices
  pub hash : b'.board_hash ≡ b.board_hash

pub SamePosition-refl : (b : Board) → SamePosition b b
SamePosition-refl b = record {
  cells = λ c l. refl;
  points = λ p. refl;
  changes = refl;
  vertices = refl;
  hash = refl;
}

-- What is live in one of them is live in the other.
pub live_same :
    (b b' : Board) (f : Field) (i k : ℕ)
    → SamePosition b b'
    → live f i k b.board b.mem ≡ true
    → live f i k b'.board b'.mem ≡ true
live_same b b' string_color i k e l = ground (arith, e.cells (only next_string) refl)
live_same b b' string_size i k e l = ground (arith, e.cells (only next_string) refl)
live_same b b' string_origin i k e l = ground (arith, e.cells (only next_string) refl)
live_same b b' string_liberties i k e l = ground (arith, e.cells (only next_string) refl)
live_same b b' string_neighbors i k e l = ground (arith, e.cells (only next_string) refl)
live_same b b' libs i k e l =
    ground
      (arith, e.cells (only next_string) refl, e.cells (at string_liberties i) (ground (arith, l)))
live_same b b' neighbor_list i k e l =
    ground
      (arith, e.cells (only next_string) refl, e.cells (at string_neighbors i) (ground (arith, l)))
live_same b b' string_number i k e l = ground (arith, e.points i)
live_same b b' next_stone i k e l = ground (arith, e.points i)
live_same b b' f i k e l = l

pub SamePosition-trans : {a b c : Board} → SamePosition a b → SamePosition b c → SamePosition a c
SamePosition-trans {a} {b} {c} p q = record {
  cells = λ x l. q.cells x (live_same a b x.field x.index x.slot p l) ∙ p.cells x l;
  points = λ x. q.points x ∙ p.points x;
  changes = q.changes ∙ p.changes;
  vertices = q.vertices ∙ p.vertices;
  hash = q.hash ∙ p.hash;
}

module _ {b0 : Board} {kept : Cell → Type 0} {b : Board} (t : Tracks b0 kept b) where
  -- Popping, with the hash of the position before.
  pub pop_record-SamePosition : SamePosition b0 (pop_record b0.board_hash b)
  unfolding pop_record
  pop_record-SamePosition = record {
    cells = λ c l. popped_memory-saved b.changes b.mem c ∙ (elim (t.cells c l) [
      | inl e ↦ ap (λ o. get_or o (b.mem c)) e
      | inr (n, e, _) ↦ ap (λ o. get_or o (b.mem c)) n ∙ e
    ]);
    points = t.points;
    changes = t.changes_below;
    vertices = t.vertices_below;
    hash = refl;
  }

  -- The same record may be popped from any board that is the same position.
  pub same-Tracks : (b' : Board) → SamePosition b b' → Tracks b0 kept b'
  same-Tracks b' e = record {
    cells = λ c l. elim (t.cells c l) [
      | inl s ↦ inl (rw e.changes s)
      | inr (n, m, is) ↦
          inr (rw e.changes n, e.cells c is ∙ m, live_same b b' c.field c.index c.slot e is)
    ];
    points = λ p. rw (e.vertices, fun_ext e.points) (t.points p);
    changes_below = rw e.changes t.changes_below;
    vertices_below = rw e.vertices t.vertices_below;
    strings = rw (e.cells (only next_string) refl) t.strings;
    saves = λ c k. rw e.changes (t.saves c k);
  }
