-- ===== src/Dfa/Linear/Line.antt =====
-- An automaton whose states form a line reports where the word matches the symbols.
use gnugo.Base.{
  ℕ, zero, suc, ◌+◌, ◌≤◌, ◌<◌, ◌≡◌, ◌≢◌, ◌⊎◌, ◌↔◌, inl, inr, refl, sym, ap, subst, ◌∙◌, arith, Bool,
  true, ◌&&◌, Bool-cases, ◌==◌, ==→≡, if◌then◌else◌, List, [], ◌∷◌, length,
}
use gnugo.Dfa.{Dfa, no_state}
use gnugo.Dfa.Attributes.{IsList, IsList-unique, elem, HasRoom}
use gnugo.Dfa.Automaton.{
  IsDfa, Word, IsWord, run, run-suc, run-stopped, unlisted, silent, Reports, Stops,
}
use gnugo.Dfa.Linear.{takes_empty, takes_white, takes_black, takes_out}

-- The test of a color.
abbrev pub pick : (empty white black out : Bool) → ℕ → Bool
pick empty white black out zero = empty
pick empty white black out (suc zero) = white
pick empty white black out (suc (suc zero)) = black
pick empty white black out (suc (suc (suc c))) = out

-- The symbol stands for the color.
abbrev pub accepts : ℕ → ℕ → Bool
accepts symbol c =
    pick (takes_empty symbol) (takes_white symbol) (takes_black symbol) (takes_out symbol) c

-- The symbols stand for the colors of the word from `k` on.
unfoldable pub matches : List ℕ → Word → ℕ → Bool
matches [] w k = true
matches (c ∷ cs) w k = accepts c (w k) && matches cs w (suc k)

-- The states from `n` on form a line, and the last one has the attribute `v`.
abbrev pub Line : Dfa → ℕ → List ℕ → ℕ → Type 0
Line d n [] v =
    ((c : ℕ) → c < 4 → (d.states n).next c ≡ 0)
    × IsList d.indexes (d.states n).att (v ∷ [])
    × ((d.states n).att ≤ d.last_index)
    × (n ≡ d.last_state)
Line d n (s ∷ cs) v =
    ((c : ℕ) → c < 4 → (d.states n).next c ≡ (if accepts s c then suc n else 0))
    × ((d.states n).att ≡ 0)
    × Line d (suc n) cs v

if_le : (b : Bool) (n m : ℕ) → n ≤ m → (if b then n else 0) ≤ m
if_le b n m h = ground arith

Zero-or : (s : ℕ) → (s ≡ 0) ⊎ (1 ≤ s)
Zero-or zero = inl refl
Zero-or (suc s) = inr (omega arith)

shift : (k n : ℕ) → k + suc n ≡ suc k + n
shift k n = omega arith

Line-length : (d : Dfa) (n : ℕ) (cs : List ℕ) (v : ℕ) → Line d n cs v → n + length cs ≡ d.last_state
Line-length d n [] v (_, _, _, e) = omega (arith, e)
Line-length d n (s ∷ cs) v (_, _, l) = omega (arith, Line-length d (suc n) cs v l)

Line-end :
    (d : Dfa) (n : ℕ) (cs : List ℕ) (v : ℕ)
    → Line d n cs v
    → IsList d.indexes (d.states d.last_state).att (v ∷ [])
Line-end d n [] v (_, list, _, e) = subst (λ i. IsList d.indexes (d.states i).att (v ∷ [])) e list
Line-end d n (s ∷ cs) v (_, _, l) = Line-end d (suc n) cs v l

zero_add : (n : ℕ) → 0 + n ≡ n
zero_add n = omega arith

-- Each state of the line is as it should be.
Line-state :
    (d : Dfa) (n : ℕ) (cs : List ℕ) (v : ℕ)
    → Line d n cs v
    → (s : ℕ) → n ≤ s
    → s ≤ d.last_state
    → ((d.states s).att ≤ d.last_index)
      × ((vs : List ℕ) × IsList d.indexes (d.states s).att vs)
      × ((c : ℕ) → c < 4 → (d.states s).next c ≤ d.last_state)
Line-state d n [] v (stop, list, low, last) s h k =
    let here : s ≡ n = omega arith in rw here (low, (v ∷ [], list), λ c e. omega (arith, stop c e))
Line-state d n (a ∷ cs) v (next, none_yet, l) s h k = elim (Bool-cases (n == s)) [
  | inl here ↦ rw (← ==→≡ n s here) (
    omega (arith, none_yet),
    ([], none_yet),
    λ c e.
        rw (next c e)
          (if_le (accepts a c) (suc n) d.last_state (omega (arith, Line-length d (suc n) cs v l))),
  )
  | inr later ↦ Line-state d (suc n) cs v l s (ground arith) k
]

pub IsDfa-Line :
    (d : Dfa) (cs : List ℕ) (v : ℕ) → Line d 1 cs v → HasRoom d → d.states 0 ≡ no_state → IsDfa d
IsDfa-Line d cs v l room clear =
    let state = Line-state d 1 cs v l in
    record {
      started = omega (arith, Line-length d 1 cs v l);
      room = room;
      attributes = λ s k. elim (Zero-or s) [
        | inl e ↦ rw (e, clear) (omega arith, [], refl)
        | inr pos ↦ let (low, (vs, list), _) = state s pos k in (low, vs, list)
      ];
      transitions = λ s c k e. elim (Zero-or s) [
        | inl z ↦ rw (z, clear) (omega arith)
        | inr pos ↦ (state s pos k).2 c e
      ];
      dead = λ c e. rw clear refl;
      no_attributes = rw clear refl;
    }

module _ (d : Dfa) (is : IsDfa d) (v : ℕ) (w : Word) (is_word : IsWord w) where
  -- Where the symbols match, the last state is reached, and left with the next symbol.
  Line-matches :
      (cs : List ℕ) (n k : ℕ)
      → Line d n cs v
      → run d w k ≡ n
      → matches cs w k ≡ true
      → run d w (k + length cs) ≡ d.last_state
  unfolding matches
  Line-matches [] n k (_, _, _, last) e m =
      subst (λ i. run d w i ≡ d.last_state) (omega arith) (e ∙ last)
  Line-matches (s ∷ cs) n k (next, _, l) e m =
      let taken : accepts s (w k) ≡ true = ground arith in
      let step : run d w (suc k) ≡ suc n =
        run-suc d w k n e ∙ (rw (next (w k) (is_word k), taken) refl) in
      let end = Line-matches cs (suc n) (suc k) l step (ground arith) in
      ap (λ i. run d w i) (shift k (length cs)) ∙ end

  -- Nothing is reported once the automaton has stopped.
  after :
      (k j : ℕ)
      → k < j
      → run d w (suc k) ≡ 0
      → (u : ℕ) (vs : List ℕ) → IsList d.indexes (d.states (run d w j)).att vs
      → elem u vs ≢ true
  after k j h e u vs =
      silent d is (run d w j) u vs (run-stopped d w is is_word (suc k) j (omega arith) e)

  -- Only there.
  Line-only :
      (cs : List ℕ) (n k j u : ℕ) (vs : List ℕ)
      → Line d n cs v
      → run d w k ≡ n
      → k ≤ j
      → IsList d.indexes (d.states (run d w j)).att vs
      → elem u vs ≡ true
      → (u ≡ v) × (matches cs w k ≡ true)
  unfolding matches
  Line-only [] n k j u vs (stop, single, _, _) e h list found = elim (Bool-cases (k == j)) [
    | inl same ↦
        let at : run d w j ≡ n = subst (λ i. run d w i ≡ n) (==→≡ k j same) e in
        let one : vs ≡ v ∷ [] =
          IsList-unique d.indexes (d.states n).att vs (v ∷ []) (rw at at list) single in
        let is_v : elem u (v ∷ []) ≡ true = subst (λ x. elem u x ≡ true) one found in
        (ground arith, refl)
    | inr later ↦
        absurd
          (after k j (ground arith) (run-suc d w k n e ∙ stop (w k) (is_word k)) u vs list found)
  ]
  Line-only (s ∷ cs) n k j u vs (next, none_yet, l) e h list found = elim (Bool-cases (k == j)) [
    | inl same ↦
        let at : run d w j ≡ n = subst (λ i. run d w i ≡ n) (==→≡ k j same) e in
        absurd (unlisted d (run d w j) u vs (ap (λ i. (d.states i).att) at ∙ none_yet) list found)
    | inr later ↦ elim (Bool-cases (accepts s (w k))) [
      | inl taken ↦
          let (is_v, rest) =
            Line-only cs (suc n) (suc k) j u vs l
              (run-suc d w k n e ∙ (rw (next (w k) (is_word k), taken) refl)) (ground arith) list
              found in
          (is_v, rw (taken, rest) refl)
      | inr refused ↦ absurd (
          after k j (ground arith) (run-suc d w k n e ∙ (rw (next (w k) (is_word k), refused) refl))
            u vs list found)
    ]
  ]

  -- The automaton stops behind the last state.
  Line-Stops :
      (cs : List ℕ) (n k : ℕ) → Line d n cs v → run d w k ≡ n → run d w (suc (k + length cs)) ≡ 0
  Line-Stops [] n k l e =
      run-stopped d w is is_word (suc k) (suc (k + 0)) (omega arith)
        (run-suc d w k n e ∙ l.0 (w k) (is_word k))
  Line-Stops (s ∷ cs) n k (next, _, l) e = elim (Bool-cases (accepts s (w k))) [
    | inl taken ↦
        ap (λ i. run d w (suc i)) (shift k (length cs))
        ∙ Line-Stops cs (suc n) (suc k) l
            (run-suc d w k n e ∙ (rw (next (w k) (is_word k), taken) refl))
    | inr refused ↦
        run-stopped d w is is_word (suc k) (suc (k + suc (length cs))) (omega arith)
          (run-suc d w k n e ∙ (rw (next (w k) (is_word k), refused) refl))
  ]

  -- The automaton of a line reports its attribute where the word matches, and no other.
  pub Reports-Line :
      (cs : List ℕ) → Line d 1 cs v → (u : ℕ) → Reports d w u ↔ ((u ≡ v) × (matches cs w 0 ≡ true))
  unfolding run
  Reports-Line cs l u = (
    λ (k, vs, list, found). Line-only cs 1 0 k u vs l refl (omega arith) list found,
    λ (e, m). (
      length cs,
      v ∷ [],
      subst (λ i. IsList d.indexes (d.states i).att (v ∷ []))
          (sym (Line-matches cs 1 0 l refl m) ∙ ap (λ i. run d w i) (zero_add (length cs)))
          (Line-end d 1 cs v l),
      rw e (ground arith),
    ),
  )

  pub Stops-Line : (cs : List ℕ) → Line d 1 cs v → Stops d w (suc (length cs))
  unfolding run
  Stops-Line cs l = subst (λ i. run d w (suc i) ≡ 0) (omega arith) (Line-Stops cs 1 0 l refl)
