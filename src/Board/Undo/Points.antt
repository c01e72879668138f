-- ===== src/Board/Undo/Points.antt =====
-- The rules for stones put down and taken off, for `next_string`, and for what is on no stack.
use gnugo.Base.{
  ℕ, ◌+◌, ◌≡◌, ap, ◌∙◌, inl, inr, Bool, true, false, none, ◌∷◌, ◌==◌, arith, Bool-cases, fun_ext,
  ==→≡,
}
use gnugo.Color.{is_stone, empty}
use gnugo.Hash.{hashdata_invert_stone}
use gnugo.Board.Cells.{
  Field, Cell, at, at_slot, only, update, string_color, string_size, string_origin,
  string_liberties, string_neighbors, string_mark, libs, neighbor_list, string_number, next_stone,
  next_string,
}
use gnugo.Board.State.{
  Board, VertexChange, write, push_value, do_add_stone, do_remove_stone, gg_assert,
}
use gnugo.Board.Trymove.{popped_vertices, popped_board, store}
use gnugo.Board.Undo.Live.{live, saved, logged, logged-push_self}
use gnugo.Board.Undo.Tracks.{Tracks, write-Tracks, push-Tracks}

module _ {b0 : Board} {kept : Cell → Type 0} {b : Board} (t : Tracks b0 kept b) where
  -- The hash and the fault flag are on neither stack.
  pub aside-Tracks : (h : ℕ) (f : Bool) → Tracks b0 kept (record b { board_hash = h; faulty = f })
  aside-Tracks h f = record {
    cells = t.cells;
    points = t.points;
    changes_below = t.changes_below;
    vertices_below = t.vertices_below;
    strings = t.strings;
    saves = t.saves;
  }

  pub assert-Tracks : (test : Bool) → Tracks b0 kept (gg_assert test b)
  assert-Tracks true = t
  assert-Tracks false = aside-Tracks b.board_hash true

  -- Other cells may be the ones that are known to be saved.
  pub keep-Tracks :
      (kept' : Cell → Type 0)
      → ((c : Cell) → kept' c → logged b.changes c ≡ true)
      → Tracks b0 kept' b
  keep-Tracks kept' h = record {
    cells = t.cells;
    points = t.points;
    changes_below = t.changes_below;
    vertices_below = t.vertices_below;
    strings = t.strings;
    saves = h;
  }

  live_more :
      (f : Field) (i k : ℕ)
      → live f i k b.board b.mem ≡ true
      → live f i k b.board (update b.mem (only next_string) (b.mem (only next_string) + 1)) ≡ true
  live_more string_color i k is = ground arith
  live_more string_size i k is = ground arith
  live_more string_origin i k is = ground arith
  live_more string_liberties i k is = ground arith
  live_more string_neighbors i k is = ground arith
  live_more libs i k is = ground arith
  live_more neighbor_list i k is = ground arith
  live_more string_mark i k is = is
  live_more f i k is = is

  -- PUSH_VALUE(next_string); next_string++
  pub next_string-Tracks :
      Tracks b0 kept
        (write (only next_string) (b.mem (only next_string) + 1) (push_value (only next_string) b))
  next_string-Tracks =
      write-Tracks (push-Tracks t (only next_string)) (only next_string)
        (b.mem (only next_string) + 1)
        (λ _. logged-push_self b.changes (only next_string) (b.mem (only next_string)))
        (λ d _ _ is. live_more d.field d.index d.slot is) (omega (arith, t.strings))

  store-store : (pos color : ℕ) → store (store b.board pos color) pos (b.board pos) ≡ b.board
  store-store pos color = fun_ext λ q. elim (Bool-cases (pos == q)) [
    | inl same ↦ rw same (ap b.board (==→≡ pos q same))
    | inr other ↦ rw other
  ]

  -- What a point that ceases to hold a stone gives up.
  abbrev pub Lost : ℕ → Type 0
  Lost pos =
      (logged b.changes (at string_number pos) ≡ true)
      × (logged b.changes (at next_stone pos) ≡ true)

  live_points :
      (f : Field) (i k pos color : ℕ)
      → (is_stone (b.board pos) ≡ true → is_stone color ≡ false → Lost pos)
      → saved b.changes (record { field = f; index = i; slot = k }) ≡ none
      → live f i k b.board b.mem ≡ true
      → live f i k (store b.board pos color) b.mem ≡ true
  live_points string_number i k pos color lost n is = elim (Bool-cases (pos == i)) [
    | inl same ↦
        let e : pos ≡ i = ==→≡ pos i same in
        let z : k ≡ 0 = ground arith in
        rw same (
          ground (
            arith,
            lost (rw e (ground arith)),
            ap (λ (x : ℕ). saved b.changes (at string_number x)) e,
            ap (λ (x : ℕ). saved b.changes (at_slot string_number i x)) z,
          ))
    | inr other ↦ rw other is
  ]
  live_points next_stone i k pos color lost n is = elim (Bool-cases (pos == i)) [
    | inl same ↦
        let e : pos ≡ i = ==→≡ pos i same in
        let z : k ≡ 0 = ground arith in
        rw same (
          ground (
            arith,
            lost (rw e (ground arith)),
            ap (λ (x : ℕ). saved b.changes (at next_stone x)) e,
            ap (λ (x : ℕ). saved b.changes (at_slot next_stone i x)) z,
          ))
    | inr other ↦ rw other is
  ]
  live_points f i k pos color lost n is = is

  -- PUSH_VERTEX and a store to the board, with a new hash.
  pub vertex-Tracks :
      (pos color h : ℕ)
      → (is_stone (b.board pos) ≡ true → is_stone color ≡ false → Lost pos)
      → Tracks b0 kept (record b {
        vertices = VertexChange.old_color pos (b.board pos) ∷ b.vertices;
        board = store b.board pos color;
        board_hash = h;
      })
  unfolding popped_vertices popped_board
  vertex-Tracks pos color h lost = record {
    cells = λ d was. elim (t.cells d was) [
      | inl e ↦ inl e
      | inr (n, e, is) ↦ inr (n, e, live_points d.field d.index d.slot pos color lost n is)
    ];
    points =
        λ p. ap (λ (f : ℕ → ℕ). popped_board b.vertices f p) (store-store pos color) ∙ t.points p;
    changes_below = t.changes_below;
    vertices_below = t.vertices_below;
    strings = t.strings;
    saves = t.saves;
  }

  -- DO_ADD_STONE, on an empty point.
  pub do_add_stone-Tracks :
      (pos color : ℕ) → b.board pos ≡ empty → Tracks b0 kept (do_add_stone pos color b)
  unfolding do_add_stone
  do_add_stone-Tracks pos color e =
      vertex-Tracks pos color (hashdata_invert_stone b.zobrist b.board_hash pos color)
        (λ is. absurd (ground (arith, is)))

  -- DO_REMOVE_STONE, with the number and the link of the stone saved.
  pub do_remove_stone-Tracks : (pos : ℕ) → Lost pos → Tracks b0 kept (do_remove_stone pos b)
  unfolding do_remove_stone
  do_remove_stone-Tracks pos lost =
      vertex-Tracks pos empty (hashdata_invert_stone b.zobrist b.board_hash pos (b.board pos))
        (λ _ _. lost)
