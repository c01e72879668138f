-- ===== src/Board/Undo/Rules.antt =====
-- The rules for the stores and pushes that the code makes, by the variable that they change.
use gnugo.Base.{
  ℕ, ◌≤◌, ◌<◌, ◌≡◌, refl, ap, ◌∙◌, inl, inr, true, none, ◌==◌, arith, Bool-cases, ==→≡,
}
use gnugo.Board.Cells.{
  Field, Cell, Memory, at, at_slot, only, update, string_color, string_size, string_origin,
  string_liberties, string_neighbors, string_mark, libs, neighbor_list, next_string,
}
use gnugo.Board.State.{Board, max_liberties, write, push_value, liberties_of, neighbors_of}
use gnugo.Board.Undo.Live.{live, live_in, saved, logged, logged-push_self}
use gnugo.Board.Undo.Tracks.{Free, Tracks, write-Tracks, push-Tracks}

-- Liveness reads the memory at three kinds of variables only.
live_cong :
    (f : Field) (i k : ℕ) (board : ℕ → ℕ) (m m' : Memory)
    → m' (only next_string) ≡ m (only next_string)
    → ((s : ℕ) → m' (at string_liberties s) ≡ m (at string_liberties s))
    → ((s : ℕ) → m' (at string_neighbors s) ≡ m (at string_neighbors s))
    → live f i k board m' ≡ live f i k board m
live_cong string_color i k board m m' n l g = rw n
live_cong string_size i k board m m' n l g = rw n
live_cong string_origin i k board m m' n l g = rw n
live_cong string_liberties i k board m m' n l g = rw n
live_cong string_neighbors i k board m m' n l g = rw n
live_cong libs i k board m m' n l g = rw (n, l i)
live_cong neighbor_list i k board m m' n l g = rw (n, g i)
live_cong string_mark i k board m m' n l g = refl
live_cong f i k board m m' n l g = refl

module _ {b0 : Board} {kept : Cell → Type 0} {b : Board} (t : Tracks b0 kept b) where
  -- A store that liveness does not read. The equations hold by computation.
  pub store-Tracks :
      (c : Cell) (v : ℕ)
      → Free b0 b c
      → update b.mem c v (only next_string) ≡ b.mem (only next_string)
      → ((s : ℕ) → update b.mem c v (at string_liberties s) ≡ b.mem (at string_liberties s))
      → ((s : ℕ) → update b.mem c v (at string_neighbors s) ≡ b.mem (at string_neighbors s))
      → Tracks b0 kept (write c v b)
  store-Tracks c v free n l g =
      write-Tracks t c v free
        (λ d _ _ is. live_cong d.field d.index d.slot b.board b.mem (update b.mem c v) n l g ∙ is)
        (rw n t.strings)

  -- A push and a store of one variable.
  pub assign-Tracks :
      (c : Cell) (v : ℕ)
      → update b.mem c v (only next_string) ≡ b.mem (only next_string)
      → ((s : ℕ) → update b.mem c v (at string_liberties s) ≡ b.mem (at string_liberties s))
      → ((s : ℕ) → update b.mem c v (at string_neighbors s) ≡ b.mem (at string_neighbors s))
      → Tracks b0 kept (write c v (push_value c b))
  assign-Tracks c v n l g =
      let pushed = push-Tracks t c in
      write-Tracks pushed c v (λ _. logged-push_self b.changes c (b.mem c))
        (λ d _ _ is. live_cong d.field d.index d.slot b.board b.mem (update b.mem c v) n l g ∙ is)
        (rw n t.strings)

  live_liberties :
      (f : Field) (i k s v : ℕ)
      → (live_in b0 (at_slot libs s k) ≡ true
          → v ≤ k
          → k < liberties_of s b
          → k < max_liberties
          → logged b.changes (at_slot libs s k) ≡ true)
      → live f i k b0.board b0.mem ≡ true
      → saved b.changes (record { field = f; index = i; slot = k }) ≡ none
      → live f i k b.board b.mem ≡ true
      → live f i k b.board (update b.mem (at string_liberties s) v) ≡ true
  live_liberties libs i k s v lost was n is = elim (Bool-cases (s == i)) [
    | inl same ↦
        let e : s ≡ i = ==→≡ s i same in
        rw same (
          ground (
            arith,
            lost (rw e was),
            ap (λ (x : ℕ). saved b.changes (at_slot libs x k)) e,
            ap (λ (x : ℕ). b.mem (at string_liberties x)) e,
          ))
    | inr other ↦ rw other is
  ]
  live_liberties string_color i k s v lost was n is = is
  live_liberties f i k s v lost was n is = is

  -- A store to the number of liberties. The list entries that it gives up are saved.
  pub liberties-Tracks :
      (s v : ℕ)
      → Free b0 b (at string_liberties s)
      → ((k : ℕ)
          → live_in b0 (at_slot libs s k) ≡ true
          → v ≤ k
          → k < liberties_of s b
          → k < max_liberties
          → logged b.changes (at_slot libs s k) ≡ true)
      → Tracks b0 kept (write (at string_liberties s) v b)
  liberties-Tracks s v free lost =
      write-Tracks t (at string_liberties s) v free
        (λ d was n is. live_liberties d.field d.index d.slot s v (lost d.slot) was n is) t.strings

  live_neighbors :
      (f : Field) (i k s v : ℕ)
      → (live_in b0 (at_slot neighbor_list s k) ≡ true
          → v ≤ k
          → k < neighbors_of s b
          → logged b.changes (at_slot neighbor_list s k) ≡ true)
      → live f i k b0.board b0.mem ≡ true
      → saved b.changes (record { field = f; index = i; slot = k }) ≡ none
      → live f i k b.board b.mem ≡ true
      → live f i k b.board (update b.mem (at string_neighbors s) v) ≡ true
  live_neighbors neighbor_list i k s v lost was n is = elim (Bool-cases (s == i)) [
    | inl same ↦
        let e : s ≡ i = ==→≡ s i same in
        rw same (
          ground (
            arith,
            lost (rw e was),
            ap (λ (x : ℕ). saved b.changes (at_slot neighbor_list x k)) e,
            ap (λ (x : ℕ). b.mem (at string_neighbors x)) e,
          ))
    | inr other ↦ rw other is
  ]
  live_neighbors string_color i k s v lost was n is = is
  live_neighbors f i k s v lost was n is = is

  pub neighbors-Tracks :
      (s v : ℕ)
      → Free b0 b (at string_neighbors s)
      → ((k : ℕ)
          → live_in b0 (at_slot neighbor_list s k) ≡ true
          → v ≤ k
          → k < neighbors_of s b
          → logged b.changes (at_slot neighbor_list s k) ≡ true)
      → Tracks b0 kept (write (at string_neighbors s) v b)
  neighbors-Tracks s v free lost =
      write-Tracks t (at string_neighbors s) v free
        (λ d was n is. live_neighbors d.field d.index d.slot s v (lost d.slot) was n is) t.strings
