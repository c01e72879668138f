-- ===== src/Board/Undo/Trying.antt =====
-- trymove and tryko open a record that leads back to the position before them.
use gnugo.Base.{
  ℕ, ◌+◌, ◌-◌, ◌<◌, ◌≡◌, refl, ◌∙◌, ◌⊎◌, inl, inr, Bool, true, false, ◌&&◌, ◌||◌, not, leb, ◌==◌,
  if◌then◌else◌, arith, Bool-cases, ==→≢, ==→≡,
}
use gnugo.Color.{empty, white, black, is_stone}
use gnugo.Point.{no_move, pass_move, step}
use gnugo.Hash.{hashdata_invert_ko}
use gnugo.Board.Cells.{
  Cell, update, at_slot, only, libs, board_ko_pos, black_captured, white_captured,
}
use gnugo.Board.State.{Board, push_value, gg_assert, number_at, liberties_of}
use gnugo.Board.Legality.{on_board1}
use gnugo.Board.Trymove.{
  Reading, begin_change_record, open_record, place_move, really_do_trymove, enter, refuses,
  max_stack, try_entered, store, popped_changes, popped_vertices, popped_board,
}
use gnugo.Board.Undo.Tracks.{Tracks, push-Tracks}
use gnugo.Board.Undo.Rules.{assign-Tracks}
use gnugo.Board.Undo.Points.{aside-Tracks, keep-Tracks}
use gnugo.Board.Undo.Quiet.{Paired}
use gnugo.Board.Undo.Extending.{find_entry_cong}
use gnugo.Board.Undo.Scanning.{Early, AlliesList}
use gnugo.Board.Undo.Moves.{do_play_move-Tracks}

-- No cell at all.
abbrev pub Nothing : Cell → Type 0
Nothing c = ⊥

begin-Tracks : (b : Board) → Tracks b Nothing (begin_change_record b)
unfolding popped_changes popped_vertices popped_board
begin-Tracks b = record {
  cells = λ c l. inr (refl, refl, l);
  points = λ p. refl;
  changes_below = refl;
  vertices_below = refl;
  strings = omega arith;
  saves = λ c h. absurd h;
}

-- The hash is all that depends on the old ko position.
opened : Board → ℕ → Board
opened b h =
    let pushed = push_value (only board_ko_pos) (begin_change_record b) in
    record pushed { mem = update pushed.mem (only board_ko_pos) no_move; board_hash = h }

open_record-opened : (b : Board) → (h : ℕ) × (open_record b ≡ opened b h)
unfolding open_record opened
open_record-opened b = elim (Bool-cases (b.mem (only board_ko_pos) == no_move)) [
  | inl unset ↦ (b.board_hash, rw unset)
  | inr set ↦ (hashdata_invert_ko b.zobrist b.board_hash (b.mem (only board_ko_pos)), rw set)
]

opened-Tracks : (b : Board) (h : ℕ) → Tracks b Nothing (opened b h)
unfolding opened
opened-Tracks b h =
    aside-Tracks
      (assign-Tracks (begin-Tracks b) (only board_ko_pos) no_move refl (λ _. refl) (λ _. refl)) h
      b.faulty

-- With both numbers of captured stones pushed.
ready_board : Board → ℕ → Board
ready_board b h = push_value (only white_captured) (push_value (only black_captured) (opened b h))

ready_board-Tracks : (b : Board) (h : ℕ) → Tracks b Early (ready_board b h)
unfolding ready_board opened
ready_board-Tracks b h =
    keep-Tracks
      (push-Tracks (push-Tracks (opened-Tracks b h) (only black_captured)) (only white_captured))
      Early
      (λ c. elim [
        | inl e ↦ rw e (ground arith)
        | inr (inl e) ↦ rw e (ground arith)
        | inr (inr e) ↦ rw e (ground arith)
      ])

ready_board-Paired : (b : Board) (h : ℕ) → Paired (ready_board b h).changes
unfolding ready_board opened
ready_board-Paired b h s k l = cc

module _ (b : Board) (pos color : ℕ) (stone : is_stone color ≡ true)
    (fits : (pos ≡ pass_move) ⊎ (b.board pos ≡ empty) × AlliesList b pos color) where
  place_opened-Tracks : (h : ℕ) → Tracks b Nothing (place_move pos color (opened b h))
  unfolding place_move ready_board opened
  place_opened-Tracks h = elim (Bool-cases (pos == pass_move)) [
    | inl pass ↦ rw pass (opened-Tracks b h)
    | inr move ↦ rw move (elim fits [
      | inl pass ↦ absurd (==→≢ pos pass_move move pass)
      | inr (free, allies) ↦
          keep-Tracks
            (do_play_move-Tracks b (ready_board b h) pos color (ready_board-Tracks b h)
              (ready_board-Paired b h) (λ q. refl) (λ q. refl) (==→≢ pos pass_move move) free stone
              allies)
            Nothing (λ c n. absurd n)
    ])
  ]

  pub place_move-Tracks : Tracks b Nothing (place_move pos color (open_record b))
  place_move-Tracks = let (h, e) = open_record-opened b in rw e (place_opened-Tracks h)

-- After a try, popping leads back to `r`.
pub record Tried (r r1 : Reading) : Type 0 where
  pub tracks : Tracks r.position Nothing r1.position
  pub deeper : r1.stackp ≡ r.stackp + 1
  pub hashes : (k : ℕ) → k < r.stackp → r1.board_hash_stack k ≡ r.board_hash_stack k
  pub hash : r1.board_hash_stack r.stackp ≡ r.position.board_hash

-- A move that the position can take: a pass, or a stone of a player whose strings beside the point
-- have it among their liberties.
abbrev pub Fits : ℕ → ℕ → Board → Type 0
Fits pos color b = (is_stone color ≡ true) × ((pos ≡ pass_move) ⊎ AlliesList b pos color)

pub really_do_trymove-Tried :
    (pos color : ℕ) (r : Reading)
    → is_stone color ≡ true
    → (pos ≡ pass_move) ⊎ (r.position.board pos ≡ empty) × AlliesList r.position pos color
    → Tried r (really_do_trymove pos color r)
unfolding really_do_trymove
really_do_trymove-Tried pos color r stone fits = record {
  tracks = place_move-Tracks r.position pos color stone fits;
  deeper = refl;
  hashes = λ k low. ground (arith, low);
  hash = ground arith;
}

-- An assertion leaves all but the fault flag alone.
pub gg_assert_lem :
    (test : Bool) (b : Board) → (f : Bool) × (gg_assert test b ≡ record b { faulty = f })
gg_assert_lem true b = (b.faulty, refl)
gg_assert_lem false b = (true, refl)

-- So do those of do_trymove.
pub enter_position :
    (pos color : ℕ) (r : Reading)
    → (f : Bool) × (s : ℕ → ℕ) × (enter pos color r
        ≡ record r { position = record r.position { faulty = f }; shadow = s })
unfolding enter
enter_position pos color r =
    let (f, e) = gg_assert_lem (color == black || color == white) r.position in
    let (g, d) =
      gg_assert_lem (on_board1 pos (record r.position { faulty = f }))
        (record r.position { faulty = f }) in
    elim (Bool-cases (pos == pass_move)) [
      | inl pass ↦ (f, r.shadow, rw (e, pass))
      | inr move ↦ (g, store r.shadow pos 1, rw (e, move, d))
    ]

-- The move under way is counted before the record is opened.
counted_record : ℕ → ℕ → Reading → Reading
counted_record pos color r = record r {
  trymove_counter = r.trymove_counter + 1;
  move_stack = store r.move_stack r.stackp pos;
  move_color = store r.move_color r.stackp color;
}

rebase_Tried : (r r1 : Reading) (pos color : ℕ) → Tried (counted_record pos color r) r1 → Tried r r1
unfolding counted_record
rebase_Tried r r1 pos color t = record {
  tracks = t.tracks;
  deeper = t.deeper;
  hashes = t.hashes;
  hash = t.hash;
}

-- The success of two tests in a row.
pub two_tests :
    (g1 g2 : Bool) (r r1 q : Reading)
    → ◌≡◌ {A = Bool × Reading}
        (if g1 then (false, r) else if g2 then (false, r) else (true, q))
        (true, r1)
    → (g1 ≡ false) × (g2 ≡ false) × (r1 ≡ q)
two_tests true g2 r r1 q h = absurd cc
two_tests false true r r1 q h = absurd cc
two_tests false false r r1 q h = (refl, refl, cc)

-- A try that succeeds ran really_do_trymove, on an empty point or as a pass.
entered_cases :
    (pos color : ℕ) (ignore_ko : Bool) (r r1 : Reading)
    → try_entered pos color ignore_ko r ≡ (true, r1)
    → (r1 ≡ really_do_trymove pos color (counted_record pos color r))
      × ((pos ≡ pass_move) ⊎ (r.position.board pos ≡ empty))
unfolding try_entered refuses counted_record
entered_cases pos color ignore_ko r r1 h =
    let (tests, room, e) =
      two_tests (not (pos == pass_move) && refuses pos color ignore_ko r.position)
        (leb (max_stack - 2) r.stackp) r r1 _ h in
    (
      e,
      elim (Bool-cases (pos == pass_move)) [
        | inl pass ↦ inl (==→≡ pos pass_move pass)
        | inr move ↦ inr (==→≡ (r.position.board pos) empty (ground arith))
      ],
    )

pub try_entered-Tried :
    (pos color : ℕ) (ignore_ko : Bool) (r r1 : Reading)
    → Fits pos color r.position
    → try_entered pos color ignore_ko r ≡ (true, r1)
    → Tried r r1
unfolding counted_record
try_entered-Tried pos color ignore_ko r r1 (stone, fits) h =
    let (e, free) = entered_cases pos color ignore_ko r r1 h in
    let room : (pos ≡ pass_move)
        ⊎ (r.position.board pos ≡ empty) × AlliesList r.position pos color =
      elim fits [
        | inl pass ↦ inl pass
        | inr allies ↦ elim free [ inl pass ↦ inl pass | inr is ↦ inr (is, allies) ]
      ] in
    rw e (
      rebase_Tried r (really_do_trymove pos color (counted_record pos color r)) pos color
        (really_do_trymove-Tried pos color (counted_record pos color r) stone room))

pub Fits-faulty :
    (pos color : ℕ) (b : Board) (f : Bool)
    → Fits pos color b
    → Fits pos color (record b { faulty = f })
Fits-faulty pos color b f (stone, fits) = (
  stone,
  elim fits [
    | inl pass ↦ inl pass
    | inr allies ↦ inr (λ d e.
        let (low, listed) = allies d e in
        (
          low,
          elim listed [
            | inl long ↦ inl long
            | inr found ↦
                let s = number_at (step d pos) b in
                inr (
                  find_entry_cong (at_slot libs s) pos (liberties_of s b) 0 b
                    (record b { faulty = f }) (λ j _ _. refl)
                  ∙ found)
          ],
        ))
  ],
)
