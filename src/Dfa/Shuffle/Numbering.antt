-- ===== src/Dfa/Shuffle/Numbering.antt =====
-- The walk of dfa_shuffle ends, and gives different numbers to different states.
use gnugo.Base.{
  ℕ, zero, suc, ◌+◌, ◌≤◌, ◌<◌, ◌≡◌, ◌≢◌, inl, inr, refl, ◌∙◌, arith, true, if◌then◌else◌, ◌==◌,
  Bool-cases, ==→≡, List, [], ◌∷◌, ◌++◌, length,
}
use gnugo.Dfa.{done, Dfa, put}
use gnugo.Dfa.Attributes.{elem, elem-append}
use gnugo.Dfa.Shuffle.{Walked, first_walked, is_new, numbered, follow, walk_queue, walk_queues}

-- The transitions lead to states of the automaton, and none leaves state 0.
pub record IsClosed (d : Dfa) : Type 0 where
  pub started : 1 ≤ d.last_state
  pub transitions : (s c : ℕ) → s ≤ d.last_state → c < 4 → (d.states s).next c ≤ d.last_state
  pub dead : (c : ℕ) → c < 4 → (d.states 0).next c ≡ 0

-- How many states from 1 to `n` have no number yet: the measure of the loops.
pub unnumbered : ℕ → (ℕ → ℕ) → ℕ
unnumbered zero to = 0
unnumbered (suc n) to = (if to (suc n) == 0 then 1 else 0) + unnumbered n to

unnumbered-none : (n : ℕ) → unnumbered n (λ k. 0) ≡ n
unfolding unnumbered
unnumbered-none zero = refl
unnumbered-none (suc n) = omega (arith, unnumbered-none n)

unnumbered-above : (m n v : ℕ) (to : ℕ → ℕ) → m < n → unnumbered m (put to n v) ≡ unnumbered m to
unfolding unnumbered
unnumbered-above zero n v to h = refl
unnumbered-above (suc m) n v to h = ground (arith, unnumbered-above m n v to (omega arith))

-- A state that gets a number is no longer counted.
unnumbered-put :
    (m n v : ℕ) (to : ℕ → ℕ)
    → 1 ≤ n
    → n ≤ m
    → to n ≡ 0
    → v ≢ 0
    → suc (unnumbered m (put to n v)) ≡ unnumbered m to
unfolding unnumbered
unnumbered-put zero n v to low high free some_number = absurd (omega arith)
unnumbered-put (suc m) n v to low high free some_number = elim (Bool-cases (n == suc m)) [
  | inl e ↦
      let same = ==→≡ n (suc m) e in
      ground (arith, unnumbered-above m n v to (omega (arith, same)), same, free, some_number)
  | inr e ↦ ground (arith, unnumbered-put m n v to low (ground (arith, e)) free some_number, e)
]

pub record IsNumbering (d : Dfa) (s : Walked) : Type 0 where
  pub none : s.state_to 0 ≡ 0
  pub first : s.state_to 1 ≡ 1
  pub inverse : (n : ℕ) → s.state_to n ≢ 0 → s.state_from (s.state_to n) ≡ n
  pub below : (n : ℕ) → s.state_to n < s.next_new_state
  pub room : s.next_new_state + unnumbered d.last_state s.state_to ≡ suc d.last_state
  pub queued : (q : ℕ) → elem q s.queue2 ≡ true → q ≤ d.last_state

abbrev pub measure : Dfa → Walked → ℕ
measure d s = length s.queue2 + unnumbered d.last_state s.state_to

length-snoc : (xs : List ℕ) (x : ℕ) → length (xs ++ (x ∷ [])) ≡ suc (length xs)
length-snoc [] x = refl
length-snoc (y ∷ xs) x = omega (arith, length-snoc xs x)

first_walked-IsNumbering : (d : Dfa) → 1 ≤ d.last_state → IsNumbering d first_walked
first_walked-IsNumbering d started = record {
  none = refl;
  first = refl;
  inverse = λ n h. ground (arith, h);
  below = λ n. ground arith;
  room =
      let rest =
        unnumbered-put d.last_state 1 1 (λ k. 0) (omega arith) started refl (omega arith) in
      omega (arith, rest, unnumbered-none d.last_state);
  queued = λ q h. absurd (ground (arith, h));
}

module _ (d : Dfa) (closed : IsClosed d) where
  numbered-IsNumbering :
      (n : ℕ) (s : Walked)
      → IsNumbering d s
      → n ≢ 0
      → s.state_to n ≡ 0
      → n ≤ d.last_state
      → IsNumbering d (numbered n s)
        × (suc (unnumbered d.last_state (numbered n s).state_to)
            ≡ unnumbered d.last_state s.state_to)
        × (measure d (numbered n s) ≡ measure d s)
  numbered-IsNumbering n s is some_state free high =
      let rest =
        unnumbered-put d.last_state n s.next_new_state s.state_to (omega (arith, some_state)) high
          free (omega (arith, is.below 0)) in
      (
        record {
          none = ground (arith, is.none, some_state);
          first = ground (arith, is.first, free);
          inverse = λ m h. ground (arith, h, is.inverse m, is.below m);
          below = λ m. ground (arith, is.below m);
          room = omega (arith, rest, is.room);
          queued = λ q h. ground (arith, h, elem-append q s.queue2 (n ∷ []), is.queued q, high);
        },
        rest,
        omega (arith, rest, length-snoc s.queue2 n),
      )

  follow_lem :
      (fuel n : ℕ) (s : Walked)
      → IsNumbering d s
      → n ≤ d.last_state
      → unnumbered d.last_state s.state_to ≤ fuel
      → (s' : Walked) × (follow fuel d n s ≡ done s')
        × IsNumbering d s'
        × (measure d s' ≡ measure d s)
  unfolding follow
  follow_lem zero n s is high enough = elim (Bool-cases (is_new n s)) [
    | inr old ↦ (s, rw old refl, is, refl)
    | inl new ↦
        let (_, fewer, _) =
          numbered-IsNumbering n s is (ground (arith, new)) (ground (arith, new)) high in
        absurd (omega (arith, fewer, enough))
  ]
  follow_lem (suc fuel) n s is high enough = elim (Bool-cases (is_new n s)) [
    | inr old ↦ (s, rw old refl, is, refl)
    | inl new ↦
        let (is1, fewer, same) =
          numbered-IsNumbering n s is (ground (arith, new)) (ground (arith, new)) high in
        let (s', ends, is', same') =
          follow_lem fuel ((d.states n).next 0) (numbered n s) is1
            (closed.transitions n 0 high (omega arith)) (omega (arith, fewer, enough)) in
        (s', rw new ends, is', same' ∙ same)
  ]

  -- One color.
  follow_color :
      (q c : ℕ) (s : Walked)
      → IsNumbering d s
      → q ≤ d.last_state
      → c < 4
      → (s' : Walked) × (follow d.last_state d ((d.states q).next c) s ≡ done s')
        × IsNumbering d s'
        × (measure d s' ≡ measure d s)
  follow_color q c s is high low =
      follow_lem d.last_state ((d.states q).next c) s is (closed.transitions q c high low)
        (omega (arith, is.room, is.below 1, is.first))

  walk_queue_lem :
      (qs : List ℕ) (s : Walked)
      → IsNumbering d s
      → ((q : ℕ) → elem q qs ≡ true → q ≤ d.last_state)
      → (s' : Walked) × (walk_queue d qs s ≡ done s')
        × IsNumbering d s'
        × (measure d s' ≡ measure d s)
  unfolding walk_queue
  walk_queue_lem [] s is high = (s, refl, is, refl)
  walk_queue_lem (q ∷ qs) s is high =
      let here : q ≤ d.last_state = high q (ground arith) in
      let (s0, e0, is0, m0) = follow_color q 0 s is here (omega arith) in
      let (s1, e1, is1, m1) = follow_color q 1 s0 is0 here (omega arith) in
      let (s2, e2, is2, m2) = follow_color q 2 s1 is1 here (omega arith) in
      let (s3, e3, is3, m3) = follow_color q 3 s2 is2 here (omega arith) in
      let (s', ends, is', m) = walk_queue_lem qs s3 is3 (λ p h. high p (ground (arith, h))) in
      (s', rw (e0, e1, e2, e3) ends, is', omega (arith, m0, m1, m2, m3, m))

  walk_queues_lem :
      (fuel : ℕ) (qs : List ℕ) (s : Walked)
      → IsNumbering d s
      → ((q : ℕ) → elem q qs ≡ true → q ≤ d.last_state)
      → length qs + unnumbered d.last_state s.state_to ≤ fuel
      → (s' : Walked) × (walk_queues fuel d qs s ≡ done s') × IsNumbering d s'
  unfolding walk_queues
  walk_queues_lem fuel [] s is high enough = (s, refl, is)
  walk_queues_lem zero (q ∷ qs) s is high enough = absurd (omega (arith, enough))
  walk_queues_lem (suc fuel) (q ∷ qs) s is high enough =
      let emptied = record s { queue2 = [] } in
      let is0 : IsNumbering d emptied = record {
        none = is.none;
        first = is.first;
        inverse = is.inverse;
        below = is.below;
        room = is.room;
        queued = λ p h. absurd cc;
      } in
      let (s1, e1, is1, m1) = walk_queue_lem (q ∷ qs) emptied is0 high in
      let (s', ends, is') =
        walk_queues_lem fuel s1.queue2 s1 is1 is1.queued (omega (arith, m1, enough)) in
      (s', rw e1 ends, is')

  -- The walk of dfa_shuffle ends with a numbering.
  pub walk_lem :
      (s : Walked) × (walk_queues d.last_state d (1 ∷ []) first_walked ≡ done s) × IsNumbering d s
  walk_lem =
      let rest =
        unnumbered-put d.last_state 1 1 (λ k. 0) (omega arith) closed.started refl (omega arith) in
      walk_queues_lem d.last_state (1 ∷ []) first_walked (first_walked-IsNumbering d closed.started)
        (λ q h. ground (arith, h, closed.started))
        (omega (arith, rest, unnumbered-none d.last_state))
