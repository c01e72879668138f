-- ===== src/Board/Undo/Scanning.antt =====
-- The scan around the new stone keeps the invariant, and the ally that it finds has the place of
-- the new stone among its liberties.
use gnugo.Base.{
  ℕ, ◌<◌, ◌≡◌, ◌≢◌, refl, sym, ◌∙◌, ◌⊎◌, inl, inr, Bool, true, false, ltb, arith, Bool-cases,
}
use gnugo.Color.{is_stone, other_color}
use gnugo.Point.{Direction, to_south, to_west, to_north, to_east, step}
use gnugo.Board.Cells.{
  Cell, at, at_slot, only, string_liberties, libs, next_string, white_captured, black_captured,
  board_ko_pos,
}
use gnugo.Board.State.{Board, max_liberties, number_at, liberties_of, liberties_at, marks}
use gnugo.Board.Liberties.{remove_liberty}
use gnugo.Board.Play.{Scan, meets, mark_if, scan_towards}
use gnugo.Board.Undo.Live.{logged}
use gnugo.Board.Undo.Tracks.{Tracks}
use gnugo.Board.Undo.Entries.{remove_liberty-Tracks}
use gnugo.Board.Undo.Captures.{do_remove_string-Tracks}
use gnugo.Board.Undo.Joining.{mark_if-Tracks}
use gnugo.Board.Undo.Extending.{Listed, Ready, find_entry_cong}
use gnugo.Board.Undo.QuietCaptures.{do_remove_string-Quiet}
use gnugo.Board.Undo.Quiet.{
  Paired, Quiet, Quiet-refl, Quiet-trans, mark_string_at-Quiet, remove_liberty-Quiet,
}

-- What really_do_trymove pushes before the stone is put down.
abbrev pub Early : Cell → Type 0
Early c = (c ≡ only board_ko_pos) ⊎ (c ≡ only white_captured) ⊎ (c ≡ only black_captured)

-- A string that the position has, with `pos` among its liberties.
abbrev pub HasLiberty : Board → ℕ → ℕ → Type 0
HasLiberty b s pos = (s < b.mem (only next_string)) × Listed b s pos

-- Each string of `color` beside the empty point `pos` has it among its liberties.
abbrev pub AlliesList : Board → ℕ → ℕ → Type 0
AlliesList b pos color =
    (d : Direction) → b.board (step d pos) ≡ color → HasLiberty b (number_at (step d pos) b) pos

module _ {b0 b : Board} (t : Tracks b0 Early b) (pairs : Paired b.changes) where
  -- A string whose number of liberties is not saved has the list that it had.
  kept_list :
      (s j : ℕ)
      → s < b0.mem (only next_string)
      → logged b.changes (at string_liberties s) ≡ false
      → j < b0.mem (at string_liberties s)
      → j < max_liberties
      → b.mem (at_slot libs s j) ≡ b0.mem (at_slot libs s j)
  kept_list s j old unsaved low few =
      ground (arith, t.cells (at_slot libs s j) (ground arith), pairs s j)

  kept_count :
      (s : ℕ)
      → s < b0.mem (only next_string)
      → logged b.changes (at string_liberties s) ≡ false
      → liberties_of s b ≡ liberties_of s b0
  kept_count s old unsaved = ground (arith, t.cells (at string_liberties s) (ground arith))

  pub HasLiberty-Ready : (s pos : ℕ) → HasLiberty b0 s pos → Ready b s pos
  HasLiberty-Ready s pos (old, listed) =
      elim (Bool-cases (logged b.changes (at string_liberties s))) [
        | inl h ↦ inl h
        | inr unsaved ↦
            let e = kept_count s old unsaved in
            elim (Bool-cases (ltb max_liberties (liberties_of s b0))) [
              | inl many ↦ inr (inl (rw e many))
              | inr few ↦ elim listed [
                | inl many ↦ inr (inl (rw e many))
                | inr found ↦ inr (
                    inr (
                      rw e (
                        find_entry_cong (at_slot libs s) pos (liberties_of s b0) 0 b0 b
                          (λ j low high.
                            kept_list s j old unsaved (omega arith) (ground (arith, few, high)))
                        ∙ found)))
              ]
            ]
      ]

meets_color :
    (d : Direction) (q color : ℕ) (b : Board) → meets d q color b ≡ true → b.board q ≡ color
unfolding meets
meets_color to_south q color b h = ground arith
meets_color d q color b h = ground arith

step_ne : (d : Direction) (pos : ℕ) → pos ≢ 0 → step d pos ≢ pos
step_ne to_south pos h = omega arith
step_ne to_west pos h = omega arith
step_ne to_north pos h = omega arith
step_ne to_east pos h = omega arith

mark_if-Quiet : (m : Bool) (q : ℕ) (b : Board) → Quiet b (mark_if m q b)
unfolding mark_if
mark_if-Quiet true q b = mark_string_at-Quiet q b
mark_if-Quiet false q b = Quiet-refl b

mark_scan-Tracks :
    {b0 : Board} (m : Bool) (q : ℕ) (b : Board)
    → Tracks b0 Early b
    → Tracks b0 Early (mark_if m q b)
unfolding mark_if
mark_scan-Tracks m q b t = mark_if-Tracks m q b t

-- `b1` is the board with the stone put down.
pub record ScanOk (b0 b1 : Board) (pos : ℕ) (scan : Scan) : Type 0 where
  pub tracks : Tracks b0 Early scan.position
  pub quiet : Quiet b1 scan.position
  pub ally : (scan.neighbor_allies ≡ 0) ⊎ HasLiberty b0 scan.ally pos

module _ (b0 b1 : Board) (pos color : ℕ)
    (numbers : (q : ℕ) → q ≢ pos → number_at q b1 ≡ number_at q b0)
    (points : (q : ℕ) → q ≢ pos → b1.board q ≡ b0.board q) (inside : pos ≢ 0)
    (stone : is_stone color ≡ true) (allies : AlliesList b0 pos color) where
  -- A stone of the color beside the new one was there, in the same string.
  met_ally :
      (d : Direction) (b : Board)
      → Quiet b1 b
      → b.board (step d pos) ≡ color
      → HasLiberty b0 (number_at (step d pos) b) pos
  met_ally d b quiet e =
      let q = step d pos in
      let apart = step_ne d pos inside in
      let number = quiet.numbers q ∙ numbers q apart in
      let was : b0.board q ≡ color = elim (quiet.stones q) [
        | inl same ↦ sym (points q apart) ∙ sym same ∙ e
        | inr gone ↦ absurd (ground (arith, stone, e, gone))
      ] in
      rw number (allies d was)

  pub scan_towards-Ok :
      (d : Direction) (scan : Scan)
      → ScanOk b0 b1 pos scan
      → ScanOk b0 b1 pos (scan_towards pos color d scan)
  unfolding scan_towards
  scan_towards-Ok d scan ok =
      let b = scan.position in
      let q = step d pos in
      let s = number_at q b in
      elim (Bool-cases (meets d q color b)) [
        | inl ours ↦ rw ours (record {
          tracks = mark_scan-Tracks (marks d) q b ok.tracks;
          quiet = Quiet-trans ok.quiet (mark_if-Quiet (marks d) q b);
          ally = inr (met_ally d b ok.quiet (meets_color d q color b ours));
        })
        | inr not ↦ rw not (elim (Bool-cases (meets d q (other_color color) b)) [
          | inl theirs ↦ rw theirs (elim (Bool-cases (ltb 1 (liberties_at q b))) [
            | inl many ↦ rw many (record {
              tracks =
                  mark_scan-Tracks (marks d) q (remove_liberty s pos b)
                    (remove_liberty-Tracks ok.tracks s pos);
              quiet = Quiet-trans ok.quiet (
                  Quiet-trans (remove_liberty-Quiet s pos b)
                    (mark_if-Quiet (marks d) q (remove_liberty s pos b)));
              ally = ok.ally;
            })
            | inr last ↦ rw last (record {
              tracks = do_remove_string-Tracks (inr (inl refl)) (inr (inr refl)) s b ok.tracks;
              quiet = Quiet-trans ok.quiet (do_remove_string-Quiet s b);
              ally = ok.ally;
            })
          ])
          | inr free ↦ rw free ok
        ])
      ]
