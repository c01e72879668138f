-- ===== src/Dfa/Shuffle/Explored.antt =====
-- The walk of dfa_shuffle numbers each state that some word leads to, so that its assertion holds.
use gnugo.Base.{
  ℕ, zero, suc, ◌≤◌, ◌<◌, ◌≡◌, ◌≢◌, ◌⊎◌, inl, inr, refl, ap, subst, ◌∙◌, arith, Bool-cases, ==→≡,
  true, false, ◌==◌, List, [], ◌∷◌,
}
use gnugo.Dfa.{Outcome, done, failed, out_of_fuel, ◌>>=◌, Dfa}
use gnugo.Dfa.Attributes.{elem, elem-append}
use gnugo.Dfa.Shuffle.{Walked, is_new, numbered, follow, walk_queue, walk_queues}

-- The state 0, or one with a number.
abbrev pub IsMarked : Walked → ℕ → Type 0
IsMarked s n = (n ≡ 0) ⊎ (s.state_to n ≢ 0)

-- A part of the walk: numbers are kept, and the states that get one are queued.
record Goes (s s' : Walked) : Type 0 where
  counted : s.next_new_state ≤ s'.next_new_state
  kept : (n : ℕ) → s.state_to n ≢ 0 → s'.state_to n ≢ 0
  queued : (n : ℕ) → s'.state_to n ≢ 0 → (s.state_to n ≢ 0) ⊎ (elem n s'.queue2 ≡ true)
  waiting : (n : ℕ) → elem n s.queue2 ≡ true → elem n s'.queue2 ≡ true

Goes-refl : (s : Walked) → Goes s s
Goes-refl s = record {
  counted = omega arith;
  kept = λ n h. h;
  queued = λ n h. inl h;
  waiting = λ n h. h;
}

Goes-trans : (a b c : Walked) → Goes a b → Goes b c → Goes a c
Goes-trans a b c p q = record {
  counted = omega (arith, p.counted, q.counted);
  kept = λ n h. q.kept n (p.kept n h);
  queued = λ n h. elim (q.queued n h) [
    | inr e ↦ inr e
    | inl k ↦ elim (p.queued n k) [ inl k' ↦ inl k' | inr e ↦ inr (q.waiting n e) ]
  ];
  waiting = λ n h. q.waiting n (p.waiting n h);
}

IsMarked-Goes : (s s' : Walked) → Goes s s' → (n : ℕ) → IsMarked s n → IsMarked s' n
IsMarked-Goes s s' g n h = elim h [ inl z ↦ inl z | inr k ↦ inr (g.kept n k) ]

numbered-Goes : (n : ℕ) (s : Walked) → 1 ≤ s.next_new_state → Goes s (numbered n s)
numbered-Goes n s started = record {
  counted = omega arith;
  kept = λ m h. λ z. ground (arith, h, z, started);
  queued = λ m h. elim (Bool-cases (n == m)) [
    | inl e ↦ inr (elem-append m s.queue2 (n ∷ []) ∙ ground (arith, e))
    | inr e ↦ inl (λ z. h (ground (arith, z, e)))
  ];
  waiting = λ m h. elem-append m s.queue2 (n ∷ []) ∙ ground (arith, h);
}

bind_lem :
    (o : Outcome Walked) (f : Walked → Outcome Walked) (b : Walked)
    → (o >>= f) ≡ done b
    → (a : Walked) × (o ≡ done a) × (f a ≡ done b)
bind_lem (done a) f b h = (a, refl, h)
bind_lem failed f b h = absurd cc
bind_lem out_of_fuel f b h = absurd cc

walked_or : Walked → Outcome Walked → Walked
walked_or s (done a) = a
walked_or s failed = s
walked_or s out_of_fuel = s

done-inj : (a b : Walked) → ◌≡◌ {A = Outcome Walked} (done a) (done b) → a ≡ b
unfolding walked_or
done-inj a b h = ap (walked_or a) h

module _ (d : Dfa) where
  -- Nothing to follow.
  stays :
      (n : ℕ) (s s' : Walked)
      → is_new n s ≡ false
      → ◌≡◌ {A = Outcome Walked} (done s) (done s')
      → Goes s s' × IsMarked s' n
  stays n s s' old h =
      subst (λ x. Goes s x × IsMarked x n) (done-inj s s' h)
        (
          Goes-refl s,
          elim (Bool-cases (n == 0)) [
            | inl e ↦ inl (==→≡ n 0 e)
            | inr e ↦ inr (λ z. ground (arith, old, e, z))
          ],
        )

  follow-Goes :
      (fuel n : ℕ) (s s' : Walked)
      → 1 ≤ s.next_new_state
      → follow fuel d n s ≡ done s'
      → Goes s s' × IsMarked s' n
  unfolding follow
  follow-Goes zero n s s' started h = elim (Bool-cases (is_new n s)) [
    | inr old ↦ stays n s s' old (rw old at h)
    | inl new ↦ let stop : ◌≡◌ {A = Outcome Walked} out_of_fuel (done s') = rw new at h in absurd cc
  ]
  follow-Goes (suc fuel) n s s' started h = elim (Bool-cases (is_new n s)) [
    | inr old ↦ stays n s s' old (rw old at h)
    | inl new ↦
        let (rest, _) =
          follow-Goes fuel ((d.states n).next 0) (numbered n s) s' (omega arith) (rw new at h) in
        let marked : (numbered n s).state_to n ≢ 0 = λ z. ground (arith, z, started) in
        (Goes-trans s (numbered n s) s' (numbered-Goes n s started) rest, inr (rest.kept n marked))
  ]

  -- The transitions of a state lead to marked states.
  abbrev pub IsExplored : Walked → ℕ → Type 0
  IsExplored s q = (c : ℕ) → c < 4 → IsMarked s ((d.states q).next c)

  IsExplored-Goes : (s s' : Walked) → Goes s s' → (q : ℕ) → IsExplored s q → IsExplored s' q
  IsExplored-Goes s s' g q h c low = IsMarked-Goes s s' g ((d.states q).next c) (h c low)

  every_color : (P : ℕ → Type 0) → P 0 → P 1 → P 2 → P 3 → (c : ℕ) → c < 4 → P c
  every_color P p0 p1 p2 p3 zero low = p0
  every_color P p0 p1 p2 p3 (suc zero) low = p1
  every_color P p0 p1 p2 p3 (suc (suc zero)) low = p2
  every_color P p0 p1 p2 p3 (suc (suc (suc zero))) low = p3
  every_color P p0 p1 p2 p3 (suc (suc (suc (suc c)))) low = absurd (omega (arith, low))

  walk_queue-Goes :
      (qs : List ℕ) (s s' : Walked)
      → 1 ≤ s.next_new_state
      → walk_queue d qs s ≡ done s'
      → Goes s s' × ((q : ℕ) → elem q qs ≡ true → IsExplored s' q)
  unfolding walk_queue
  walk_queue-Goes [] s s' started h =
      (subst (Goes s) (done-inj s s' h) (Goes-refl s), λ q e. absurd cc)
  walk_queue-Goes (q ∷ qs) s s' started h =
      let n = λ (c : ℕ). (d.states q).next c in
      let (s4, h4, rest) = bind_lem _ (walk_queue d qs) s' h in
      let (s3, h3, e4) = bind_lem _ (follow d.last_state d (n 3)) s4 h4 in
      let (s2, h2, e3) = bind_lem _ (follow d.last_state d (n 2)) s3 h3 in
      let (s1, e1, e2) = bind_lem _ (follow d.last_state d (n 1)) s2 h2 in
      let (g1, m0) = follow-Goes d.last_state (n 0) s s1 started e1 in
      let (g2, m1) = follow-Goes d.last_state (n 1) s1 s2 (omega (arith, g1.counted)) e2 in
      let g12 = Goes-trans s s1 s2 g1 g2 in
      let (g3, m2) = follow-Goes d.last_state (n 2) s2 s3 (omega (arith, g12.counted)) e3 in
      let g13 = Goes-trans s s2 s3 g12 g3 in
      let (g4, m3) = follow-Goes d.last_state (n 3) s3 s4 (omega (arith, g13.counted)) e4 in
      let g14 = Goes-trans s s3 s4 g13 g4 in
      let (on, more) = walk_queue-Goes qs s4 s' (omega (arith, g14.counted)) rest in
      let g3' = Goes-trans s3 s4 s' g4 on in
      let g2' = Goes-trans s2 s3 s' g3 g3' in
      let g1' = Goes-trans s1 s2 s' g2 g2' in
      let here : IsExplored s' q =
        every_color (λ c. IsMarked s' (n c)) (IsMarked-Goes s1 s' g1' (n 0) m0)
          (IsMarked-Goes s2 s' g2' (n 1) m1) (IsMarked-Goes s3 s' g3' (n 2) m2)
          (IsMarked-Goes s4 s' on (n 3) m3) in
      (
        Goes-trans s s4 s' g14 on,
        λ p e. elim (Bool-cases (q == p)) [
          | inl same ↦ subst (λ x. IsExplored s' x) (==→≡ q p same) here
          | inr other ↦ more p (ground (arith, e, other))
        ],
      )

  -- A state with a number waits in the queue, or is explored.
  abbrev pub Explores : Walked → List ℕ → Type 0
  Explores s qs = (m : ℕ) → s.state_to m ≢ 0 → (elem m qs ≡ true) ⊎ IsExplored s m

  IsExplored-emptied :
      (s : Walked) (m : ℕ) → IsExplored s m → IsExplored (record s { queue2 = [] }) m
  IsExplored-emptied s m h = h

  pub walk_queues-Explores :
      (fuel : ℕ) (qs : List ℕ) (s s' : Walked)
      → 1 ≤ s.next_new_state
      → Explores s qs
      → walk_queues fuel d qs s ≡ done s'
      → ((n : ℕ) → s.state_to n ≢ 0 → s'.state_to n ≢ 0) × Explores s' []
  unfolding walk_queues
  walk_queues-Explores fuel [] s s' started all h =
      let same = done-inj s s' h in
      (
        subst (λ x. (n : ℕ) → s.state_to n ≢ 0 → x.state_to n ≢ 0) same (λ n k. k),
        subst (λ x. Explores x []) same all,
      )
  walk_queues-Explores zero (q ∷ qs) s s' started all h = absurd cc
  walk_queues-Explores (suc fuel) (q ∷ qs) s s' started all h =
      let emptied = record s { queue2 = [] } in
      let (s1, e1, rest) =
        bind_lem (walk_queue d (q ∷ qs) emptied) (λ x. walk_queues fuel d x.queue2 x) s' h in
      let (g, now) = walk_queue-Goes (q ∷ qs) emptied s1 started e1 in
      let later : Explores s1 s1.queue2 = λ m k. elim (g.queued m k) [
        | inr waits ↦ inl waits
        | inl before ↦ elim (all m before) [
          | inl waited ↦ inr (now m waited)
          | inr explored ↦ inr (IsExplored-Goes emptied s1 g m (IsExplored-emptied s m explored))
        ]
      ] in
      let (kept, done_all) =
        walk_queues-Explores fuel s1.queue2 s1 s' (omega (arith, g.counted, started)) later rest in
      (λ n k. kept n (g.kept n k), done_all)
