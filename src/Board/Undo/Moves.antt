-- ===== src/Board/Undo/Moves.antt =====
-- do_play_move keeps the invariant.
use gnugo.Base.{
  ℕ, ◌≡◌, ◌≢◌, refl, ◌∙◌, inl, inr, Bool, true, false, ◌&&◌, ltb, ◌==◌, arith, Bool-cases,
}
use gnugo.Color.{empty, is_stone}
use gnugo.Point.{no_move, to_south, to_west, to_north, to_east}
use gnugo.Hash.{hashdata_invert_ko}
use gnugo.Board.Cells.{at, at_slot, only, string_number, board_ko_pos, libs}
use gnugo.Board.State.{Board, gg_assert, number_at, do_add_stone, minus_one, liberties_of, size_of}
use gnugo.Board.Strings.{create_new_string}
use gnugo.Board.Play.{put_down, scan_around, note_ko, do_play_move}
use gnugo.Board.Undo.Tracks.{Tracks}
use gnugo.Board.Undo.Rules.{store-Tracks}
use gnugo.Board.Undo.Points.{do_add_stone-Tracks, aside-Tracks, assert-Tracks}
use gnugo.Board.Undo.Lists.{next_string_mark-Tracks}
use gnugo.Board.Undo.Joining.{Vacant, create_new_string-Tracks}
use gnugo.Board.Undo.Extending.{Ready, find_entry_cong, extend_neighbor_string-Tracks}
use gnugo.Board.Undo.Assimilating.{assimilate_neighbor_strings-Tracks}
use gnugo.Board.Undo.Quiet.{Paired, Quiet-refl}
use gnugo.Board.Undo.Scanning.{Early, AlliesList, HasLiberty-Ready, ScanOk, scan_towards-Ok}

assert-Ready :
    (test : Bool) (s pos : ℕ) (b : Board) → Ready b s pos → Ready (gg_assert test b) s pos
assert-Ready true s pos b r = r
assert-Ready false s pos b (inl h) = inl h
assert-Ready false s pos b (inr (inl many)) = inr (inl many)
assert-Ready false s pos b (inr (inr found)) = inr (
    inr (
      find_entry_cong (at_slot libs s) pos (liberties_of s b) 0 b (record b { faulty = true })
        (λ _ _ _. refl)
      ∙ found))

note_ko-Tracks :
    {b0 : Board} (pos n : ℕ) (b : Board) → Tracks b0 Early b → Tracks b0 Early (note_ko pos n b)
unfolding note_ko
note_ko-Tracks {b0} pos n b t =
    let s = number_at pos b in
    let old = b.mem (only board_ko_pos) in
    let noted = λ (b' : Board) (t' : Tracks b0 Early b') (h : ℕ).
      aside-Tracks
        (store-Tracks t' (only board_ko_pos) (b.mem (at_slot libs s 0)) (λ _. t'.saves _ (inl refl))
          refl (λ _. refl) (λ _. refl))
        h b'.faulty in
    elim (Bool-cases (liberties_of s b == 1 && size_of s b == 1 && n == 1)) [
      | inl ko ↦ rw ko (elim (Bool-cases (old == no_move)) [
        | inl unset ↦ rw unset (noted b t _)
        | inr set ↦
            rw set
              (noted _ (aside-Tracks t (hashdata_invert_ko b.zobrist b.board_hash old) b.faulty) _)
      ])
      | inr not ↦ rw not t
    ]

module _ (b0 b : Board) (pos color : ℕ) (t : Tracks b0 Early b) (pairs : Paired b.changes)
    (numbers : (q : ℕ) → number_at q b ≡ number_at q b0) (points : (q : ℕ) → b.board q ≡ b0.board q)
    (inside : pos ≢ 0) (free : b0.board pos ≡ empty) (stone : is_stone color ≡ true)
    (allies : AlliesList b0 pos color) where
  vacant : Vacant b0 pos
  vacant = ground (arith, free)

  put_down-Tracks : Tracks b0 Early (put_down pos color b)
  unfolding put_down do_add_stone
  put_down-Tracks =
      store-Tracks (do_add_stone-Tracks (next_string_mark-Tracks t) pos color (points pos ∙ free))
        (at string_number pos) minus_one (λ h. absurd (ground (arith, vacant, h))) refl (λ _. refl)
        (λ _. refl)

  put_down_numbers : (q : ℕ) → q ≢ pos → number_at q (put_down pos color b) ≡ number_at q b0
  unfolding put_down do_add_stone
  put_down_numbers q apart = ground (arith, numbers q)

  put_down_points : (q : ℕ) → q ≢ pos → (put_down pos color b).board q ≡ b0.board q
  unfolding put_down do_add_stone
  put_down_points q apart = ground (arith, points q)

  put_down_pairs : Paired (put_down pos color b).changes
  unfolding put_down do_add_stone
  put_down_pairs = pairs

  scan_around-Ok : ScanOk b0 (put_down pos color b) pos (scan_around pos color b)
  unfolding scan_around
  scan_around-Ok =
      let towards =
        scan_towards-Ok b0 (put_down pos color b) pos color put_down_numbers put_down_points inside
          stone allies in
      towards to_east _ (
        towards to_north _ (
          towards to_west _ (
            towards to_south _ (record {
              tracks = put_down-Tracks;
              quiet = Quiet-refl (put_down pos color b);
              ally = inl refl;
            }))))

  pub do_play_move-Tracks : Tracks b0 Early (do_play_move pos color b)
  unfolding do_play_move
  do_play_move-Tracks =
      let scan = scan_around pos color b in
      let ok = scan_around-Ok in
      elim (Bool-cases (scan.neighbor_allies == 0)) [
        | inl lone ↦ rw lone (
            note_ko-Tracks pos scan.captured_stones (create_new_string pos scan.position)
              (create_new_string-Tracks pos scan.position vacant ok.tracks))
        | inr more ↦ rw more (elim (Bool-cases (scan.neighbor_allies == 1)) [
          | inl one ↦
              let test = ltb scan.ally 2147483648 in
              let ready : Ready scan.position scan.ally pos = elim ok.ally [
                | inl zero_allies ↦ absurd (ground (arith, more, zero_allies))
                | inr has ↦
                    HasLiberty-Ready ok.tracks (ok.quiet.pairs put_down_pairs) scan.ally pos has
              ] in
              rw one (
                extend_neighbor_string-Tracks pos scan.ally (gg_assert test scan.position) vacant
                  (assert-Ready test scan.ally pos scan.position ready)
                  (assert-Tracks ok.tracks test))
          | inr many ↦
              rw many (assimilate_neighbor_strings-Tracks pos scan.position vacant ok.tracks)
        ])
      ]
