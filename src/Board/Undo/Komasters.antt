-- ===== src/Board/Undo/Komasters.antt =====
-- A move that komaster_trymove tries is taken back by popgo, with the state of the komaster.
use gnugo.Base.{
  ℕ, ◌≡◌, refl, ap, sym, ◌||◌, Bool, true, false, Option, none, some, get_or, ◌==◌, if◌then◌else◌,
  Bool-cases, inl, inr, arith,
}
use gnugo.Color.{empty, weak_ko}
use gnugo.Point.{no_move}
use gnugo.Board.Cells.{only, komaster, kom_pos, board_ko_pos}
use gnugo.Board.State.{Board}
use gnugo.Board.Legality.{is_ko}
use gnugo.Board.Trymove.{Reading, trymove, tryko, popgo}
use gnugo.Board.Komaster.{
  set_new_komaster, set_new_kom_pos, set_komaster_state, komaster_of, ko_is_resolved, after_no_ko,
  after_ko, on_position, settle, settle_conditional, after_tryko, after_trymove, komaster_forbids,
  komaster_trymove, tried,
}
use gnugo.Board.Undo.Tracks.{Tracks}
use gnugo.Board.Undo.Rules.{assign-Tracks}
use gnugo.Board.Undo.Points.{aside-Tracks}
use gnugo.Board.Undo.Trying.{Nothing, Tried, Fits, Fits-faulty}
use gnugo.Board.Undo.Results.{marked, marked-Tried, trymove-Tried, tryko-Tried, trymove-refused}
use gnugo.Board.Undo.Search.{SameReading, popgo-Tried}

module _ {b0 b : Board} (t : Tracks b0 Nothing b) where
  set_new_komaster-Tracks : (k : ℕ) → Tracks b0 Nothing (set_new_komaster k b)
  unfolding set_new_komaster
  set_new_komaster-Tracks k =
      aside-Tracks (assign-Tracks t (only komaster) k refl (λ _. refl) (λ _. refl)) _ b.faulty

  set_new_kom_pos-Tracks : (p : ℕ) → Tracks b0 Nothing (set_new_kom_pos p b)
  unfolding set_new_kom_pos
  set_new_kom_pos-Tracks p =
      aside-Tracks (assign-Tracks t (only kom_pos) p refl (λ _. refl) (λ _. refl)) _ b.faulty

module _ {b0 : Board} where
  state-Tracks :
      (k p : ℕ) (b : Board) → Tracks b0 Nothing b → Tracks b0 Nothing (set_komaster_state k p b)
  state-Tracks k p b t = set_new_kom_pos-Tracks (set_new_komaster-Tracks t k) p

  if-Tracks :
      (test : Bool) {b1 b2 : Board}
      → Tracks b0 Nothing b1
      → Tracks b0 Nothing b2
      → Tracks b0 Nothing (if test then b1 else b2)
  if-Tracks true t1 t2 = t1
  if-Tracks false t1 t2 = t2

  after_no_ko-Tracks :
      (color : ℕ) (b : Board) → Tracks b0 Nothing b → Tracks b0 Nothing (after_no_ko color b)
  unfolding after_no_ko
  after_no_ko-Tracks color b t =
      let resolved = if-Tracks (ko_is_resolved color b) (state-Tracks empty no_move b t) t in
      if-Tracks _ (state-Tracks empty no_move _ resolved) resolved

  after_ko-Tracks :
      (color kpos previous : ℕ) (b : Board)
      → Tracks b0 Nothing b
      → Tracks b0 Nothing (after_ko color kpos previous b)
  unfolding after_ko
  after_ko-Tracks color kpos previous b t = if-Tracks _ (set_new_komaster-Tracks t _) (
      if-Tracks _ (set_new_kom_pos-Tracks t kpos)
        (if-Tracks _ t (state-Tracks weak_ko previous b t)))

on_position-Tried :
    (f : Board → Board) {r r1 : Reading}
    → Tracks r.position Nothing (f r1.position)
    → Tried r r1
    → Tried r (on_position f r1)
on_position-Tried f t tried = record {
  tracks = t;
  deeper = tried.deeper;
  hashes = tried.hashes;
  hash = tried.hash;
}

settle-Tried :
    (color : ℕ) (ko : Option ℕ) (previous : ℕ) {r r1 : Reading}
    → Tried r r1
    → Tried r (settle color ko previous r1)
unfolding settle
settle-Tried color none previous {r} {r1} t =
    on_position-Tried (after_no_ko color) (after_no_ko-Tracks color r1.position t.tracks) t
settle-Tried color (some kpos) previous {r} {r1} t =
    on_position-Tried (after_ko color kpos previous)
      (after_ko-Tracks color kpos previous r1.position t.tracks) t

settle_conditional-Tried :
    (color : ℕ) (ko : Option ℕ) (previous : ℕ) {r r1 : Reading}
    → Tried r r1
    → Tried r (settle_conditional color ko previous r1).reading
unfolding settle_conditional
settle_conditional-Tried color ko previous {r} {r1} t =
    elim (Bool-cases (komaster_of r1.position == empty || komaster_of r1.position == weak_ko)) [
      | inl free ↦ rw free (
          on_position-Tried (set_komaster_state color (get_or ko no_move))
            (state-Tracks color (get_or ko no_move) r1.position t.tracks) t)
      | inr held ↦ rw held (settle-Tried color ko previous t)
    ]

module _ (pos color : ℕ) (r : Reading) (fits : Fits pos color r.position) where
  after_tryko-Tried :
      (f : Bool) (s : ℕ → ℕ) (ko : Option ℕ) (previous : ℕ) (result : Bool × Reading)
      → tryko pos color (marked f s r) ≡ result
      → (after_tryko color ko previous result).allowed ≡ true
      → Tried r (after_tryko color ko previous result).reading
  unfolding after_tryko marked
  after_tryko-Tried f s ko previous (false, r1) e h = absurd cc
  after_tryko-Tried f s ko previous (true, r1) e h = settle_conditional-Tried color ko previous (
      marked-Tried f s r r1
        (tryko-Tried pos color (marked f s r) r1 (Fits-faulty pos color r.position f fits) e))

  after_trymove-Tried :
      (conditional : Bool) (ko : Option ℕ) (previous : ℕ) (result : Bool × Reading)
      → trymove pos color r ≡ result
      → (after_trymove pos color conditional ko previous result).allowed ≡ true
      → Tried r (after_trymove pos color conditional ko previous result).reading
  unfolding after_trymove
  after_trymove-Tried conditional ko previous (true, r1) e h =
      settle-Tried color ko previous (trymove-Tried pos color r r1 fits e)
  after_trymove-Tried true ko previous (false, r1) e h =
      let (f, s, marks) = trymove-refused pos color r r1 e in
      after_tryko-Tried f s ko previous (tryko pos color r1) (ap (tryko pos color) (sym marks)) h
  after_trymove-Tried false ko previous (false, r1) e h = absurd cc

  komaster_trymove-Tried :
      (conditional : Bool)
      → (komaster_trymove pos color conditional r).allowed ≡ true
      → Tried r (komaster_trymove pos color conditional r).reading
  unfolding komaster_trymove
  komaster_trymove-Tried conditional h =
      let ko = is_ko pos color r.position in
      elim (Bool-cases (komaster_forbids pos color ko r.position)) [
        | inl never ↦ absurd (ground arith)
        | inr may ↦ rw may (
            after_trymove-Tried conditional ko (r.position.mem (only board_ko_pos))
              (trymove pos color r) refl (rw may at h))
      ]

  -- Let komaster_trymove allow a pass, or a move of a player whose strings beside the point list it
  -- among their liberties. From the reading that it makes, or any that is the same, popgo leads
  -- back to the same reading as before, with the komaster and its position.
  pub popgo-komaster_trymove :
      (conditional : Bool) (r2 : Reading)
      → (komaster_trymove pos color conditional r).allowed ≡ true
      → SameReading (komaster_trymove pos color conditional r).reading r2
      → SameReading r (popgo r2)
  popgo-komaster_trymove conditional r2 h same =
      popgo-Tried r (komaster_trymove pos color conditional r).reading r2
        (komaster_trymove-Tried conditional h) same
