-- ===== src/Board/Hashing.antt =====
-- The hash of the board is kept up to date: stone by stone it stays what hashdata_recalc of
-- engine/hash.c computes from scratch.
use gnugo.Base.{
  ℕ, zero, suc, ◌+◌, ◌-◌, ◌≤◌, ◌<◌, ◌≡◌, refl, sym, ap, ◌∙◌, inl, inr, false, ◌==◌, if◌then◌else◌,
  arith, Bool-cases, ==→≡, ==→≢, xor_cancel, xor_right_comm, fun_ext,
}
use gnugo.Color.{empty, white, black}
use gnugo.Point.{board_min, board_max, no_move}
use gnugo.Hash.{
  Zobrist, hashdata_xor, hashdata_invert_stone, hashdata_invert_ko, hashdata_recalc, recalc_stones,
}
use gnugo.Board.Cells.{only, board_ko_pos}
use gnugo.Board.State.{Board, do_add_stone, do_remove_stone}
use gnugo.Board.Trymove.{open_record}

-- p[pos] = color
abbrev stored : (ℕ → ℕ) → ℕ → ℕ → ℕ → ℕ
stored p pos color q = if pos == q then color else p q

-- One turn of the loop.
abbrev turn : Zobrist → ℕ → ℕ → ℕ → ℕ
turn z pos color hd =
    if color == white
    then hashdata_xor hd (z.white_hash pos)
    else if color == black
    then hashdata_xor hd (z.black_hash pos)
    else hd

module _ (z : Zobrist) where
  turn-xor :
      (pos color hd w : ℕ)
      → turn z pos color (hashdata_xor hd w) ≡ hashdata_xor (turn z pos color hd) w
  turn-xor pos color hd w = elim (Bool-cases (color == white)) [
    | inl is ↦ rw is (xor_right_comm hd w (z.white_hash pos))
    | inr not ↦ rw not (elim (Bool-cases (color == black)) [
      | inl is ↦ rw is (xor_right_comm hd w (z.black_hash pos))
      | inr none ↦ rw none refl
    ])
  ]

  -- A word that is in the hash before the loop is in it after the loop.
  recalc_stones-xor :
      (n pos : ℕ) (p : ℕ → ℕ) (hd w : ℕ)
      → recalc_stones z n pos p (hashdata_xor hd w) ≡ hashdata_xor (recalc_stones z n pos p hd) w
  unfolding recalc_stones
  recalc_stones-xor zero pos p hd w = refl
  recalc_stones-xor (suc n) pos p hd w =
      ap (recalc_stones z n (pos + 1) p) (turn-xor pos (p pos) hd w)
      ∙ recalc_stones-xor n (pos + 1) p (turn z pos (p pos) hd) w

  recalc_stones-turn :
      (n start : ℕ) (p : ℕ → ℕ) (pos color hd : ℕ)
      → recalc_stones z n start p (turn z pos color hd)
        ≡ turn z pos color (recalc_stones z n start p hd)
  recalc_stones-turn n start p pos color hd = elim (Bool-cases (color == white)) [
    | inl is ↦ rw is (recalc_stones-xor n start p hd (z.white_hash pos))
    | inr not ↦ rw not (elim (Bool-cases (color == black)) [
      | inl is ↦ rw is (recalc_stones-xor n start p hd (z.black_hash pos))
      | inr none ↦ rw none refl
    ])
  ]

  -- The loop does not see a stone before its points.
  recalc_stones_before :
      (n start pos color : ℕ) (p : ℕ → ℕ) (hd : ℕ)
      → pos < start
      → recalc_stones z n start (stored p pos color) hd ≡ recalc_stones z n start p hd
  unfolding recalc_stones
  recalc_stones_before zero start pos color p hd before = refl
  recalc_stones_before (suc n) start pos color p hd before =
      let other : (pos == start) ≡ false = ground (arith, before) in
      rw other
        (recalc_stones_before n (start + 1) pos color p (turn z start (p start) hd) (omega arith))

  invert-turn : (pos color hd : ℕ) → hashdata_invert_stone z hd pos color ≡ turn z pos color hd
  unfolding hashdata_invert_stone
  invert-turn pos color hd = ground arith

  -- A stone more on an empty point of the loop.
  recalc_stones-add :
      (n start pos color : ℕ) (p : ℕ → ℕ) (hd : ℕ)
      → start ≤ pos
      → pos < start + n
      → p pos ≡ empty
      → recalc_stones z n start (stored p pos color) hd
        ≡ turn z pos color (recalc_stones z n start p hd)
  unfolding recalc_stones
  recalc_stones-add zero start pos color p hd low high free = absurd (omega arith)
  recalc_stones-add (suc n) start pos color p hd low high free = elim (Bool-cases (pos == start)) [
    | inl here ↦
        let same = ==→≡ pos start here in
        let free_here : p start ≡ empty = ap p (sym same) ∙ free in
        rw (here, free_here)
          (recalc_stones_before n (start + 1) pos color p (turn z start color hd) (omega arith)
            ∙ recalc_stones-turn n (start + 1) p start color hd
            ∙ ap (λ s. turn z s color (recalc_stones z n (start + 1) p hd)) (sym same))
    | inr later ↦ rw later (
        recalc_stones-add n (start + 1) pos color p (turn z start (p start) hd)
          (omega (arith, ==→≢ pos start later)) (omega arith) free)
  ]

  -- The same with the ko, which is inverted behind the loop.
  pub hashdata_recalc-add :
      (p : ℕ → ℕ) (ko_pos pos color : ℕ)
      → board_min ≤ pos
      → pos < board_max
      → p pos ≡ empty
      → hashdata_recalc z (stored p pos color) ko_pos
        ≡ hashdata_invert_stone z (hashdata_recalc z p ko_pos) pos color
  unfolding hashdata_recalc
  hashdata_recalc-add p ko_pos pos color low high free =
      let add =
        recalc_stones-add (board_max - board_min) board_min pos color p 0 low (omega arith) free in
      elim (Bool-cases (ko_pos == 0)) [
        | inl no_ko ↦ rw no_ko (add ∙ sym (invert-turn pos color _))
        | inr ko ↦ rw ko (
            ap (λ h. hashdata_xor h (z.ko_hash ko_pos)) add
            ∙ sym (turn-xor pos color _ (z.ko_hash ko_pos))
            ∙ sym (invert-turn pos color _))
      ]

  pub invert_twice :
      (pos color hd : ℕ)
      → hashdata_invert_stone z (hashdata_invert_stone z hd pos color) pos color ≡ hd
  unfolding hashdata_invert_stone
  invert_twice pos color hd = elim (Bool-cases (color == black)) [
    | inl is ↦ rw is (xor_cancel hd (z.black_hash pos))
    | inr not ↦ rw not (elim (Bool-cases (color == white)) [
      | inl is ↦ rw is (xor_cancel hd (z.white_hash pos))
      | inr none ↦ rw none refl
    ])
  ]

-- The hash of the board is the one computed from scratch.
abbrev pub HashIsRecalc : Board → Type 0
HashIsRecalc b = b.board_hash ≡ hashdata_recalc b.zobrist b.board (b.mem (only board_ko_pos))

module _ (b : Board) (pos : ℕ) (exact : HashIsRecalc b) where
  -- A stone put down on an empty point keeps the hash exact.
  pub do_add_stone-HashIsRecalc :
      (color : ℕ)
      → board_min ≤ pos
      → pos < board_max
      → b.board pos ≡ empty
      → HashIsRecalc (do_add_stone pos color b)
  unfolding do_add_stone
  do_add_stone-HashIsRecalc color low high free =
      ap (λ h. hashdata_invert_stone b.zobrist h pos color) exact
      ∙ sym (
          hashdata_recalc-add b.zobrist b.board (b.mem (only board_ko_pos)) pos color low high free)

  -- Whatever stands on a point, taking it off keeps the hash exact.
  pub do_remove_stone-HashIsRecalc :
      board_min ≤ pos → pos < board_max → HashIsRecalc (do_remove_stone pos b)
  unfolding do_remove_stone
  do_remove_stone-HashIsRecalc low high =
      let ko = b.mem (only board_ko_pos) in
      let bare = stored b.board pos empty in
      let bare_here : bare pos ≡ empty = ground arith in
      let back : stored bare pos (b.board pos) ≡ b.board = fun_ext (λ q. ground arith) in
      let whole : hashdata_recalc b.zobrist b.board ko
          ≡ hashdata_invert_stone b.zobrist (hashdata_recalc b.zobrist bare ko) pos (b.board pos) =
        ap (λ p. hashdata_recalc b.zobrist p ko) (sym back)
        ∙ hashdata_recalc-add b.zobrist bare ko pos (b.board pos) low high bare_here in
      ap (λ h. hashdata_invert_stone b.zobrist h pos (b.board pos)) (exact ∙ whole)
      ∙ invert_twice b.zobrist pos (b.board pos) (hashdata_recalc b.zobrist bare ko)

-- Opening a record clears the ko, in the hash too.
pub open_record-HashIsRecalc : (b : Board) → HashIsRecalc b → HashIsRecalc (open_record b)
unfolding open_record hashdata_recalc hashdata_invert_ko
open_record-HashIsRecalc b exact = elim (Bool-cases (b.mem (only board_ko_pos) == no_move)) [
  | inl none ↦ rw none (exact ∙ (rw none refl))
  | inr ko ↦ rw ko (
      ap (λ h. hashdata_xor h (b.zobrist.ko_hash (b.mem (only board_ko_pos))))
        (exact ∙ (rw ko refl))
      ∙ xor_cancel _ (b.zobrist.ko_hash (b.mem (only board_ko_pos))))
]
