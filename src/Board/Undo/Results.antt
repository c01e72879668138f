-- ===== src/Board/Undo/Results.antt =====
-- What trymove and tryko leave behind, from the position that they are called at.
use gnugo.Base.{ℕ, ◌-◌, ◌≡◌, refl, Bool, true, false, ◌&&◌, not, leb, ◌==◌, if◌then◌else◌, subst}
use gnugo.Point.{pass_move}
use gnugo.Board.State.{Board}
use gnugo.Board.Trymove.{
  Reading, refuses, do_trymove, max_stack, try_entered, trymove, tryko, finish_try, count_node,
}
use gnugo.Board.Undo.Tracks.{Tracks}
use gnugo.Board.Undo.Trying.{Nothing, Tried, Fits, Fits-faulty, enter_position, try_entered-Tried}

-- The reading with another fault flag and another `shadow`, which the assertions and the store at
-- the head of do_trymove change.
unfoldable pub marked : Bool → (ℕ → ℕ) → Reading → Reading
marked f s r = record r { position = record r.position { faulty = f }; shadow = s }

pub rebase_Tracks :
    {b b1 : Board} {f : Bool} → Tracks (record b { faulty = f }) Nothing b1 → Tracks b Nothing b1
rebase_Tracks t = record {
  cells = t.cells;
  points = t.points;
  changes_below = t.changes_below;
  vertices_below = t.vertices_below;
  strings = t.strings;
  saves = λ c k. absurd k;
}

-- A try from the marked reading counts as one from the reading.
pub marked-Tried : (f : Bool) (s : ℕ → ℕ) (r r1 : Reading) → Tried (marked f s r) r1 → Tried r r1
unfolding marked
marked-Tried f s r r1 t = record {
  tracks = rebase_Tracks t.tracks;
  deeper = t.deeper;
  hashes = t.hashes;
  hash = t.hash;
}

-- do_trymove tries the move from the position that it was given, the fault flag apart.
do_trymove-Tried :
    (pos color : ℕ) (ignore_ko : Bool) (r r1 : Reading)
    → Fits pos color r.position
    → do_trymove pos color ignore_ko r ≡ (true, r1)
    → Tried r r1
unfolding do_trymove marked
do_trymove-Tried pos color ignore_ko r r1 fits h =
    let (f, s, e) = enter_position pos color r in
    let entered = marked f s r in
    marked-Tried f s r r1 (
      try_entered-Tried pos color ignore_ko entered r1 (Fits-faulty pos color r.position f fits)
        (subst (λ x. try_entered pos color ignore_ko x ≡ (true, r1)) e h))

pub finish_try_cases :
    (tried : Bool × Reading) (r1 : Reading)
    → finish_try tried ≡ (true, r1)
    → (r2 : Reading) × (tried ≡ (true, r2)) × (r1 ≡ count_node r2)
unfolding finish_try
finish_try_cases (true, r2) r1 h = (r2, refl, cc)
finish_try_cases (false, r2) r1 h = absurd cc

count_node-Tried : {r r1 : Reading} → Tried r r1 → Tried r (count_node r1)
unfolding count_node
count_node-Tried t = record {
  tracks = t.tracks;
  deeper = t.deeper;
  hashes = t.hashes;
  hash = t.hash;
}

module _ (pos color : ℕ) (r r1 : Reading) (fits : Fits pos color r.position) where
  finish-Tried :
      (ignore_ko : Bool) → finish_try (do_trymove pos color ignore_ko r) ≡ (true, r1) → Tried r r1
  finish-Tried ignore_ko h =
      let (r2, tried, e) = finish_try_cases (do_trymove pos color ignore_ko r) r1 h in
      rw e (count_node-Tried (do_trymove-Tried pos color ignore_ko r r2 fits tried))

  pub trymove-Tried : trymove pos color r ≡ (true, r1) → Tried r r1
  unfolding trymove
  trymove-Tried h = finish-Tried false h

  pub tryko-Tried : tryko pos color r ≡ (true, r1) → Tried r r1
  unfolding tryko
  tryko-Tried h = finish-Tried true h

two_refusals :
    (g1 g2 : Bool) (r r1 q : Reading)
    → ◌≡◌ {A = Bool × Reading}
        (if g1 then (false, r) else if g2 then (false, r) else (true, q))
        (false, r1)
    → r1 ≡ r
two_refusals true g2 r r1 q h = cc
two_refusals false true r r1 q h = cc
two_refusals false false r r1 q h = absurd cc

try_entered-refused :
    (pos color : ℕ) (ignore_ko : Bool) (r r1 : Reading)
    → try_entered pos color ignore_ko r ≡ (false, r1)
    → r1 ≡ r
unfolding try_entered
try_entered-refused pos color ignore_ko r r1 h =
    two_refusals (not (pos == pass_move) && refuses pos color ignore_ko r.position)
      (leb (max_stack - 2) r.stackp) r r1 _ h

finish_try_refused :
    (tried : Bool × Reading) (r1 : Reading) → finish_try tried ≡ (false, r1) → tried ≡ (false, r1)
unfolding finish_try
finish_try_refused (true, r2) r1 h = absurd cc
finish_try_refused (false, r2) r1 h = h

refused_marked :
    (pos color : ℕ) (ignore_ko : Bool) (r r1 : Reading)
    → finish_try (do_trymove pos color ignore_ko r) ≡ (false, r1)
    → (f : Bool) × (s : ℕ → ℕ) × (r1 ≡ marked f s r)
unfolding do_trymove marked
refused_marked pos color ignore_ko r r1 h =
    let (f, s, e) = enter_position pos color r in
    let refused = finish_try_refused (do_trymove pos color ignore_ko r) r1 h in
    (
      f,
      s,
      try_entered-refused pos color ignore_ko (marked f s r) r1
          (subst (λ x. try_entered pos color ignore_ko x ≡ (false, r1)) e refused),
    )

-- A try that fails changes at most the fault flag and `shadow`.
pub trymove-refused :
    (pos color : ℕ) (r r1 : Reading)
    → trymove pos color r ≡ (false, r1)
    → (f : Bool) × (s : ℕ → ℕ) × (r1 ≡ marked f s r)
unfolding trymove
trymove-refused pos color r r1 h = refused_marked pos color false r r1 h

pub tryko-refused :
    (pos color : ℕ) (r r1 : Reading)
    → tryko pos color r ≡ (false, r1)
    → (f : Bool) × (s : ℕ → ℕ) × (r1 ≡ marked f s r)
unfolding tryko
tryko-refused pos color r r1 h = refused_marked pos color true r r1 h
