-- ===== src/Dfa/Shuffle.antt =====
-- patterns/dfa.c: dfa_shuffle, which numbers the states in the order of a walk through the
-- automaton.
pub mod Numbering
pub mod Renumbered
pub mod Explored
pub mod Reached
use gnugo.Base.{
  ℕ, zero, suc, Bool, true, false, ◌&&◌, ◌||◌, not, leb, ltb, ◌==◌, if◌then◌else◌, List, [], ◌∷◌,
  ◌++◌,
}
use gnugo.Dfa.{Outcome, done, failed, out_of_fuel, ◌>>=◌, Dfa, put}

-- The arrays and counters of the walk; `queue2` holds q2p states.
pub record Walked : Type 0 where
  pub state_to : ℕ → ℕ
  pub state_from : ℕ → ℕ
  pub next_new_state : ℕ
  pub queue2 : List ℕ

-- calloc clears the arrays.
abbrev pub first_walked : Walked
first_walked = record {
  state_to = put (λ n. 0) 1 1;
  state_from = put (λ n. 0) 1 1;
  next_new_state = 2;
  queue2 = [];
}

-- The test of the innermost loop.
abbrev pub is_new : ℕ → Walked → Bool
is_new n s = not (n == 0) && s.state_to n == 0

abbrev pub numbered : ℕ → Walked → Walked
numbered n s = record {
  state_to = put s.state_to n s.next_new_state;
  state_from = put s.state_from s.next_new_state n;
  next_new_state = suc s.next_new_state;
  queue2 = s.queue2 ++ (n ∷ []);
}

-- The innermost loop. Each turn numbers a state, so that last_state turns are enough.
unfoldable pub follow : ℕ → Dfa → ℕ → Walked → Outcome Walked
follow zero d n s = if is_new n s then out_of_fuel else done s
follow (suc fuel) d n s =
    let rest = follow fuel d ((d.states n).next 0) (numbered n s) in
    if is_new n s then rest else done s

-- The loops over a queue and over the colors.
unfoldable pub walk_queue : Dfa → List ℕ → Walked → Outcome Walked
walk_queue d [] s = done s
walk_queue d (q ∷ qs) s =
    follow d.last_state d ((d.states q).next 0) s
    >>= follow d.last_state d ((d.states q).next 1)
    >>= follow d.last_state d ((d.states q).next 2)
    >>= follow d.last_state d ((d.states q).next 3)
    >>= walk_queue d qs

-- The outer loop, on the states of `queue1`.
unfoldable pub walk_queues : ℕ → Dfa → List ℕ → Walked → Outcome Walked
walk_queues fuel d [] s = done s
walk_queues zero d (q ∷ qs) s = out_of_fuel
walk_queues (suc fuel) d (q ∷ qs) s =
    walk_queue d (q ∷ qs) (record s { queue2 = [] }) >>= λ s'. walk_queues fuel d s'.queue2 s'

-- The assertions: the states from 1 to `n` have a number.
unfoldable pub all_numbered : ℕ → (ℕ → ℕ) → Bool
all_numbered zero state_to = true
all_numbered (suc n) state_to = ltb 0 (state_to (suc n)) && all_numbered n state_to

abbrev pub renumbered : Dfa → Walked → Dfa
renumbered d s = record d {
  states = λ i.
      let old = d.states (s.state_from i) in
      if leb 1 i && leb i d.last_state
      then record { att = old.att; next = λ c. s.state_to (old.next c) }
      else d.states i;
}

unfoldable pub dfa_shuffle : Dfa → Outcome Dfa
dfa_shuffle d = walk_queues d.last_state d (1 ∷ []) first_walked >>= λ s.
    if all_numbered d.last_state s.state_to then done (renumbered d s) else failed
