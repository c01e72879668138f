-- ===== src/History/Round.antt =====
-- What comes back: a stored position that is restored, a stone that is added and removed, and the
-- initial position when all moves are undone.
use gnugo.Base.{
  ℕ, zero, suc, ◌+◌, ◌-◌, ◌≤◌, ◌<◌, ◌≡◌, refl, sym, ap, ◌∙◌, Bool, false, ◌&&◌, leb, ltb, ◌==◌,
  if◌then◌else◌, arith, fun_ext,
}
use gnugo.Color.{empty, is_stone}
use gnugo.Point.{board_min, board_max}
use gnugo.Hash.{hashdata_recalc, hashdata_invert_stone}
use gnugo.Board.Cells.{only, board_ko_pos, black_captured, white_captured}
use gnugo.Board.State.{Board, gg_assert}
use gnugo.Board.Legality.{on_board1}
use gnugo.Board.Hashing.{HashIsRecalc, hashdata_recalc-add, invert_twice}
use gnugo.Board.Position.Keeps.{Keeps, Keeps-trans, gg_assert-Keeps, rebuild_strings-Keeps}
use gnugo.Board.Position.{rebuild_strings}
use gnugo.Board.Trymove.{store}
use gnugo.History.{
  History, Game, position_of, ko_pos_of, new_position, set_board, add_stone, remove_stone,
  place_stone, take_stone, reset_move_history, undo_move, replay_move_history, replay_moves,
  load_initial,
}
use gnugo.History.Storage.{
  BoardState, copy_entries, copy_history, store_board, restore_board, recalc_hash,
}

copy_entries_lem :
    (n k : ℕ) (from to : ℕ → ℕ) (j : ℕ)
    → copy_entries n k from to j ≡ (if leb k j && ltb j (k + n) then from j else to j)
unfolding copy_entries
copy_entries_lem zero k from to j = ground arith
copy_entries_lem (suc n) k from to j =
    copy_entries_lem n (k + 1) from (store to k (from k)) j ∙ (ground arith)

copied : (n j : ℕ) (from to : ℕ → ℕ) → j < n → copy_entries n 0 from to j ≡ from j
copied n j from to low = copy_entries_lem n 0 from to j ∙ (ground (arith, low))

-- The same initial position, and the same moves.
pub record SameHistory (h h' : History) : Type 0 where
  pub initial_board : h'.initial_board ≡ h.initial_board
  pub initial_board_ko_pos : h'.initial_board_ko_pos ≡ h.initial_board_ko_pos
  pub initial_white_captured : h'.initial_white_captured ≡ h.initial_white_captured
  pub initial_black_captured : h'.initial_black_captured ≡ h.initial_black_captured
  pub pointer : h'.move_history_pointer ≡ h.move_history_pointer
  pub color :
      (k : ℕ) → k < h.move_history_pointer → h'.move_history_color k ≡ h.move_history_color k
  pub pos : (k : ℕ) → k < h.move_history_pointer → h'.move_history_pos k ≡ h.move_history_pos k
  pub hash : (k : ℕ) → k < h.move_history_pointer → h'.move_history_hash k ≡ h.move_history_hash k

copy_history-SameHistory : (h old : History) → SameHistory h (copy_history h old)
unfolding copy_history
copy_history-SameHistory h old = record {
  initial_board = refl;
  initial_board_ko_pos = refl;
  initial_white_captured = refl;
  initial_black_captured = refl;
  pointer = refl;
  color = λ k low. copied h.move_history_pointer k h.move_history_color old.move_history_color low;
  pos = λ k low. copied h.move_history_pointer k h.move_history_pos old.move_history_pos low;
  hash = λ k low. copied h.move_history_pointer k h.move_history_hash old.move_history_hash low;
}

SameHistory-trans : {a b c : History} → SameHistory a b → SameHistory b c → SameHistory a c
SameHistory-trans {a} {b} {c} p q = record {
  initial_board = q.initial_board ∙ p.initial_board;
  initial_board_ko_pos = q.initial_board_ko_pos ∙ p.initial_board_ko_pos;
  initial_white_captured = q.initial_white_captured ∙ p.initial_white_captured;
  initial_black_captured = q.initial_black_captured ∙ p.initial_black_captured;
  pointer = q.pointer ∙ p.pointer;
  color = λ k low. q.color k (omega (arith, low, p.pointer)) ∙ p.color k low;
  pos = λ k low. q.pos k (omega (arith, low, p.pointer)) ∙ p.pos k low;
  hash = λ k low. q.hash k (omega (arith, low, p.pointer)) ∙ p.hash k low;
}

-- The same game, save for the numbering of its strings and the count of positions.
pub record SameGame (g g' : Game) : Type 0 where
  pub board : (position_of g').board ≡ (position_of g).board
  pub ko : ko_pos_of (position_of g') ≡ ko_pos_of (position_of g)
  pub white_count :
      (position_of g').mem (only white_captured) ≡ (position_of g).mem (only white_captured)
  pub black_count :
      (position_of g').mem (only black_captured) ≡ (position_of g).mem (only black_captured)
  pub hash : (position_of g').board_hash ≡ (position_of g).board_hash
  pub history : SameHistory g.history g'.history
  pub board_size : g'.board_size ≡ g.board_size
  pub komi : g'.komi ≡ g.komi
  pub handicap : g'.handicap ≡ g.handicap
  pub movenum : g'.movenum ≡ g.movenum

-- Let a game with an exact hash be stored over any state. Restoring it, in any game that hashes with
-- the same tables, gives the same game: board, ko, prisoners, hash, initial position, moves with
-- their hashes, komi, handicap and move number.
pub restore_board-store_board :
    (g g' : Game) (old : BoardState)
    → HashIsRecalc (position_of g)
    → (position_of g').zobrist ≡ (position_of g).zobrist
    → SameGame g (restore_board (store_board g old).0 g')
unfolding restore_board store_board recalc_hash set_board new_position
restore_board-store_board g g' old exact tables =
    let kept = rebuild_strings-Keeps _ in
    record {
      board = kept.points;
      ko = kept.cells (only board_ko_pos) refl;
      white_count = kept.cells (only white_captured) refl;
      black_count = kept.cells (only black_captured) refl;
      hash =
          kept.hash
          ∙ ap (λ z. hashdata_recalc z (position_of g).board (ko_pos_of (position_of g)))
              ((gg_assert-Keeps (g'.reading.stackp == 0) (position_of g')).tables ∙ tables)
          ∙ sym exact;
      history =
          SameHistory-trans (copy_history-SameHistory g.history old.history)
            (copy_history-SameHistory _ g'.history);
      board_size = refl;
      komi = refl;
      handicap = refl;
      movenum = refl;
    }

-- A hash stays exact where the board, the tables and the ko stay.
Keeps-HashIsRecalc : (b b' : Board) → Keeps b b' → HashIsRecalc b → HashIsRecalc b'
Keeps-HashIsRecalc b b' kept exact =
    rw (kept.hash, kept.tables, kept.points, kept.cells (only board_ko_pos) refl) exact

module _ (pos color : ℕ) (b : Board) (free : b.board pos ≡ empty) where
  place_stone-HashIsRecalc :
      board_min ≤ pos → pos < board_max → HashIsRecalc b → HashIsRecalc (place_stone pos color b)
  unfolding place_stone
  place_stone-HashIsRecalc low high exact =
      ap (λ h. hashdata_invert_stone b.zobrist h pos color) exact
      ∙ sym (hashdata_recalc-add b.zobrist b.board (ko_pos_of b) pos color low high free)

  take_stone-place_stone :
      (c : Board) → Keeps (place_stone pos color b) c → Keeps b (take_stone pos c)
  unfolding take_stone place_stone
  take_stone-place_stone c kept =
      let here : store b.board pos color pos ≡ color = ground arith in
      record {
        points = rw kept.points (fun_ext (λ q. ground (arith, free)));
        hash =
            rw (kept.tables, kept.hash, kept.points, here)
              (invert_twice b.zobrist pos color b.board_hash);
        tables = kept.tables;
        cells = kept.cells;
      }

-- The assertions of add_stone and remove_stone.
abbrev addable : ℕ → Game → Bool
addable pos g =
    g.reading.stackp == 0 && on_board1 pos (position_of g) && (position_of g).board pos == empty

abbrev removable : ℕ → Game → Bool
removable pos g =
    g.reading.stackp == 0 && on_board1 pos (position_of g) && is_stone ((position_of g).board pos)

module _ (pos color : ℕ) (g : Game) (free : (position_of g).board pos ≡ empty) where
  -- A stone that is added on an empty point keeps the hash exact.
  pub add_stone-HashIsRecalc :
      board_min ≤ pos
      → pos < board_max
      → HashIsRecalc (position_of g)
      → HashIsRecalc (position_of (add_stone pos color g))
  unfolding add_stone place_stone reset_move_history new_position
  add_stone-HashIsRecalc low high exact =
      let test = addable pos g in
      let b = gg_assert test (position_of g) in
      let asserted = gg_assert-Keeps test (position_of g) in
      Keeps-HashIsRecalc (place_stone pos color b) _ (rebuild_strings-Keeps _) (
        place_stone-HashIsRecalc pos color b (ap (λ p. p pos) asserted.points ∙ free) low high
          (Keeps-HashIsRecalc (position_of g) b asserted exact))

  -- A stone that is added on an empty point and removed again leaves the stones, the hash, the ko,
  -- the prisoners and the komaster as they were.
  pub remove_stone-add_stone :
      Keeps (position_of g) (position_of (remove_stone pos (add_stone pos color g)))
  unfolding add_stone remove_stone place_stone take_stone reset_move_history new_position
  remove_stone-add_stone =
      let test = addable pos g in
      let b = gg_assert test (position_of g) in
      let asserted = gg_assert-Keeps test (position_of g) in
      let added = rebuild_strings (place_stone pos color b) in
      let test' = removable pos (add_stone pos color g) in
      Keeps-trans asserted (
        Keeps-trans
          (take_stone-place_stone pos color b (ap (λ p. p pos) asserted.points ∙ free)
            (gg_assert test' added)
            (Keeps-trans (rebuild_strings-Keeps _) (gg_assert-Keeps test' added)))
          (rebuild_strings-Keeps _))

-- When all moves are undone, the board, the ko and the prisoners are those of the initial position,
-- and the hash is still the one of the position before.
pub undo_move-initial :
    (g : Game)
    → let undone = position_of (undo_move g.history.move_history_pointer g).1 in
      (undone.board ≡ g.history.initial_board)
      × (ko_pos_of undone ≡ g.history.initial_board_ko_pos)
      × (undone.mem (only white_captured) ≡ g.history.initial_white_captured)
      × (undone.mem (only black_captured) ≡ g.history.initial_black_captured)
      × (undone.board_hash ≡ (position_of g).board_hash)
unfolding undo_move replay_move_history new_position replay_moves set_board
undo_move-initial g =
    let n = g.history.move_history_pointer in
    let none : n - n ≡ 0 = omega arith in
    let all : ltb n n ≡ false = ground arith in
    let b = gg_assert (g.reading.stackp == 0) (position_of g) in
    let loaded = load_initial g.history b in
    let kept =
      Keeps-trans (rebuild_strings-Keeps loaded) (rebuild_strings-Keeps (rebuild_strings loaded)) in
    rw (none, all)
      (
        kept.points,
        kept.cells (only board_ko_pos) refl,
        kept.cells (only white_captured) refl,
        kept.cells (only black_captured) refl,
        kept.hash ∙ (gg_assert-Keeps (g.reading.stackp == 0) (position_of g)).hash,
      )
