-- ===== src/Board/Undo/Search.antt =====
-- Moves that are tried and taken back in the order of a search leave the position as it was.
use gnugo.Base.{ℕ, ◌-◌, ◌<◌, ◌≡◌, refl, ap, ◌∙◌, Bool, true, leb, arith, length}
use gnugo.Board.State.{Board, gg_assert}
use gnugo.Board.Trymove.{Reading, trymove, tryko, popgo, undo_trymove, pop_record, stack_size}
use gnugo.Board.Undo.Restore.{
  SamePosition, SamePosition-refl, SamePosition-trans, pop_record-SamePosition, same-Tracks,
}
use gnugo.Board.Undo.Trying.{Tried, Fits, gg_assert_lem}
use gnugo.Board.Undo.Results.{trymove-Tried, tryko-Tried}

-- The same position, with the same trial moves under way: as many, over the same hashes.
pub record SameReading (r r' : Reading) : Type 0 where
  pub position : SamePosition r.position r'.position
  pub stackp : r'.stackp ≡ r.stackp
  pub hashes : (k : ℕ) → k < r.stackp → r'.board_hash_stack k ≡ r.board_hash_stack k

pub SameReading-refl : (r : Reading) → SameReading r r
SameReading-refl r = record {
  position = SamePosition-refl r.position;
  stackp = refl;
  hashes = λ k low. refl;
}

pub SameReading-trans : {r s t : Reading} → SameReading r s → SameReading s t → SameReading r t
SameReading-trans {r} {s} {t} p q = record {
  position = SamePosition-trans p.position q.position;
  stackp = q.stackp ∙ p.stackp;
  hashes = λ k low. q.hashes k (omega (arith, p.stackp)) ∙ p.hashes k low;
}

popgo_asserted :
    (hash : ℕ) (test : Bool) (b b' : Board)
    → hash ≡ b.board_hash
    → SamePosition b (pop_record b.board_hash b')
    → SamePosition b (pop_record hash (gg_assert test b'))
unfolding pop_record
popgo_asserted hash test b b' e s =
    let (f, d) = gg_assert_lem test b' in
    rw d (record {
      cells = s.cells;
      points = s.points;
      changes = s.changes;
      vertices = s.vertices;
      hash = e;
    })

pub popgo-Tried : (r r1 r2 : Reading) → Tried r r1 → SameReading r1 r2 → SameReading r (popgo r2)
unfolding popgo undo_trymove
popgo-Tried r r1 r2 tried same =
    let depth : r2.stackp - 1 ≡ r.stackp = omega (arith, same.stackp, tried.deeper) in
    let top : r2.board_hash_stack r.stackp ≡ r.position.board_hash =
      same.hashes r.stackp (omega (arith, tried.deeper)) ∙ tried.hash in
    record {
      position =
          popgo_asserted (r2.board_hash_stack (r2.stackp - 1))
            (leb (length r2.position.changes) stack_size) r.position r2.position
            (ap r2.board_hash_stack depth ∙ top)
            (pop_record-SamePosition (same-Tracks tried.tracks r2.position same.position));
      stackp = depth;
      hashes = λ k low. same.hashes k (omega (arith, low, tried.deeper)) ∙ tried.hashes k low;
    }

-- What may come between a try and the popgo that takes it back: any tries that are themselves
-- taken back.
module _ (pos color : ℕ) (r r1 r2 : Reading) (fits : Fits pos color r.position) where
  -- Let trymove succeed with a pass, or with a move of a player whose strings beside the point list
  -- it among their liberties. From the reading that it makes, or any that is the same, popgo leads
  -- back to the same reading as before: position, hash, undo stacks and moves under way.
  pub popgo-trymove :
      trymove pos color r ≡ (true, r1) → SameReading r1 r2 → SameReading r (popgo r2)
  popgo-trymove h same = popgo-Tried r r1 r2 (trymove-Tried pos color r r1 fits h) same

  -- The same for tryko.
  pub popgo-tryko : tryko pos color r ≡ (true, r1) → SameReading r1 r2 → SameReading r (popgo r2)
  popgo-tryko h same = popgo-Tried r r1 r2 (tryko-Tried pos color r r1 fits h) same
