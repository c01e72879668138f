-- ===== src/Dfa/Linear/Create.antt =====
-- create_dfa makes the line of the symbols before the first character that is none.
use gnugo.Base.{
  ℕ, zero, suc, ◌+◌, ◌≤◌, ◌<◌, ◌≡◌, ◌↔◌, inl, inr, refl, sym, ap, subst, ◌∙◌, arith, Bool, true,
  false, ◌&&◌, Bool-cases, ltb, leb, ◌==◌, if◌then◌else◌, List, [], ◌∷◌, length,
}
use gnugo.Dfa.{done, ◌>>=◌, Dfa, State, put, no_state, resized, dfa_resize_step, clean_dfa}
use gnugo.Dfa.Attributes.{
  IsList, IsList-cons, HasRoom, next_index_lem, resize_dfa_lem, cleared-before, cleared-within,
  put-same, put-other,
}
use gnugo.Dfa.Automaton.{IsDfa, Word, IsWord, Reports, Stops}
use gnugo.Dfa.Linear.{
  is_symbol, takes_empty, takes_white, takes_black, takes_out, link_if, no_next, symbol_next,
  set_links, Drawn, draw_symbol, draw_loop, close_dfa, create_dfa,
}
use gnugo.Dfa.Linear.Line.{pick, accepts, matches, Line, IsDfa-Line, Reports-Line, Stops-Line}

-- The symbols that are read.
unfoldable pub symbols : List ℕ → List ℕ
symbols [] = []
symbols (c ∷ cs) = let rest = symbols cs in if is_symbol c then c ∷ rest else []

links_lem :
    (empty white black out : Bool) (to c : ℕ) (next : ℕ → ℕ)
    → c < 4
    → link_if out 3 to
        (link_if black 2 to (link_if white 1 to (link_if empty 0 to (no_next next))))
        c
      ≡ (if pick empty white black out c then to else 0)
links_lem empty white black out to zero next h = refl
links_lem empty white black out to (suc zero) next h = refl
links_lem empty white black out to (suc (suc zero)) next h = refl
links_lem empty white black out to (suc (suc (suc zero))) next h = refl
links_lem empty white black out to (suc (suc (suc (suc c)))) next h = absurd (omega arith)

symbol_next_lem :
    (s to c : ℕ) (next : ℕ → ℕ) → c < 4 → symbol_next s to next c ≡ (if accepts s c then to else 0)
symbol_next_lem s to c next =
    links_lem (takes_empty s) (takes_white s) (takes_black s) (takes_out s) to c next

-- The states from `new_state` on are not used yet.
record IsOpen (a : Drawn) : Type 0 where
  blank : (k : ℕ) → a.new_state ≤ k → k < a.dfa.max_states → a.dfa.states k ≡ no_state
  room : a.new_state < a.dfa.max_states
  started : a.dfa.last_state < a.dfa.max_states
  no_index : a.dfa.last_index ≡ 0
  indexes : 1 < a.dfa.max_indexes

draw_symbol_lem :
    (s : ℕ) (a : Drawn)
    → IsOpen a
    → (a' : Drawn) × (draw_symbol s a ≡ done a')
      × IsOpen a'
      × (a'.new_state ≡ suc a.new_state)
      × ((k : ℕ) → k < a.new_state → a'.dfa.states k ≡ a.dfa.states k)
      × (a'.dfa.states a.new_state
          ≡ record no_state { next = symbol_next s (suc a.new_state) no_state.next })
unfolding draw_symbol
draw_symbol_lem s a o =
    let n = a.new_state in
    let at = o.room in
    let next = symbol_next s (suc n) (a.dfa.states n).next in
    let d = set_links a.dfa n next in
    let relinked : State → State = λ b. record b { next = symbol_next s (suc n) b.next } in
    let here : d.states n ≡ record no_state { next = symbol_next s (suc n) no_state.next } =
      put-same a.dfa.states n _ ∙ ap relinked (o.blank n (omega arith) o.room) in
    let older : (k : ℕ) → (k == n) ≡ false → d.states k ≡ a.dfa.states k =
      λ k h. put-other a.dfa.states n k _ h in
    elim (Bool-cases (leb d.max_states (suc n))) [
      | inl full ↦
          let more = d.max_states + dfa_resize_step in
          let grown = resized d more d.max_indexes in
          let kept : (k : ℕ) → k < d.max_states → grown.states k ≡ d.states k =
            λ k h. cleared-before no_state d.max_states more d.states k h in
          (
            record { dfa = grown; new_state = suc n },
            rw
                (
                  full,
                  resize_dfa_lem d more d.max_indexes (omega (arith, o.started))
                      (omega (arith, o.no_index, o.indexes)),
                )
                refl,
            record {
              blank =
                  λ k h e. cleared-within no_state d.max_states more d.states k (ground arith) e;
              room = omega arith;
              started = omega (arith, o.started);
              no_index = o.no_index;
              indexes = o.indexes;
            },
            refl,
            λ k h. kept k (omega arith) ∙ older k (ground arith),
            kept n o.room ∙ here,
          )
      | inr roomy ↦ (
        record { dfa = d; new_state = suc n },
        rw roomy refl,
        record {
          blank = λ k h e. older k (ground arith) ∙ o.blank k (omega arith) e;
          room = ground arith;
          started = o.started;
          no_index = o.no_index;
          indexes = o.indexes;
        },
        refl,
        λ k h. older k (ground arith),
        here,
      )
    ]

close_dfa_lem :
    (v : ℕ) (a : Drawn)
    → IsOpen a
    → (d : Dfa) × (close_dfa v a ≡ done d)
      × HasRoom d
      × Line d a.new_state [] v
      × ((k : ℕ) → k < a.new_state → d.states k ≡ a.dfa.states k)
unfolding close_dfa
close_dfa_lem v a o =
    let n = a.new_state in
    let at = o.room in
    let linked = set_links a.dfa n (no_next (a.dfa.states n).next) in
    let (d, e, g, last) = next_index_lem linked (o.started, omega (arith, o.no_index, o.indexes)) in
    let final : Dfa = record d {
      states = put d.states n (record (d.states n) { att = d.last_index });
      indexes = put d.indexes d.last_index (record { val = v; next = 0 });
      last_state = n;
    } in
    let here : final.states n ≡ record { att = d.last_index; next = (d.states n).next } =
      put-same d.states n _ in
    (
      final,
      rw e refl,
      (omega (arith, g.same_max), g.room),
      (
        λ c h.
            ap (λ b. b.next c) here
            ∙ ap (λ a. (a n).next c) g.same_states
            ∙ ap (λ b. b.next c) (put-same a.dfa.states n _)
            ∙ ground arith,
        subst (λ i. IsList final.indexes i (v ∷ [])) (sym (ap (λ b. b.att) here))
            (IsList-cons final.indexes d.last_index v 0 [] (put-same d.indexes d.last_index _)
              (omega (arith, last)) refl),
        omega (arith, ap (λ b. b.att) here),
        refl,
      ),
      λ k h.
          put-other d.states n k _ (ground arith)
          ∙ ap (λ a. a k) g.same_states
          ∙ put-other a.dfa.states n k _ (ground arith),
    )

draw_loop_lem :
    (str : List ℕ) (v : ℕ) (a : Drawn)
    → IsOpen a
    → (d : Dfa) × ((draw_loop str a >>= close_dfa v) ≡ done d)
      × HasRoom d
      × Line d a.new_state (symbols str) v
      × ((k : ℕ) → k < a.new_state → d.states k ≡ a.dfa.states k)
unfolding draw_loop symbols
draw_loop_lem [] v a o = close_dfa_lem v a o
draw_loop_lem (c ∷ cs) v a o = elim (Bool-cases (is_symbol c)) [
  | inr other ↦ rw other (close_dfa_lem v a o)
  | inl symbol ↦
      let (a1, e1, o1, n1, older1, here1) = draw_symbol_lem c a o in
      let (d, e, room, line, older) = draw_loop_lem cs v a1 o1 in
      rw symbol (
        d,
        rw e1 e,
        room,
        (
          λ k h.
              ap (λ b. b.next k) (older a.new_state (omega arith) ∙ here1)
              ∙ symbol_next_lem c (suc a.new_state) k no_state.next h,
          ap (λ b. b.att) (older a.new_state (omega arith) ∙ here1),
          subst (λ m. Line d m (symbols cs) v) n1 line,
        ),
        λ k h. older k (omega arith) ∙ older1 k h,
      )
]

-- create_dfa ends, with the line of the symbols.
create_dfa_lem :
    (d : Dfa) (str : List ℕ) (v : ℕ)
    → 1 < d.max_states
    → 1 < d.max_indexes
    → (d' : Dfa) × (create_dfa d str v ≡ done d')
      × HasRoom d'
      × Line d' 1 (symbols str) v
      × (d'.states 0 ≡ no_state)
unfolding create_dfa clean_dfa
create_dfa_lem d str v h k =
    let a : Drawn = record { dfa = clean_dfa d; new_state = 1 } in
    let cleared : (i : ℕ) → i < d.max_states → (clean_dfa d).states i ≡ no_state =
      λ i e. cleared-within no_state 0 d.max_states d.states i (omega arith) e in
    let (d', e, room, line, older) = draw_loop_lem str v a (record {
      blank = λ i _ e. cleared i e;
      room = h;
      started = h;
      no_index = refl;
      indexes = k;
    }) in
    let checked : (ltb 1 d.max_states && ltb 1 d.max_indexes) ≡ true = ground arith in
    (d', rw checked e, room, line, older 0 (omega arith) ∙ cleared 0 (omega arith))

-- The last state has an attribute.
indexed : (d : Dfa) (n : ℕ) (cs : List ℕ) (v : ℕ) → Line d n cs v → HasRoom d → 1 < d.max_indexes
indexed d n [] v (_, (pos, _, _, _), low, _) (_, room) = omega arith
indexed d n (c ∷ cs) v (_, _, line) room = indexed d (suc n) cs v line room

-- create_dfa in an automaton that has room for two states and two attributes ends without a failed
-- assertion. What it makes is well-formed and has room for two attributes. It stops behind the last symbol, and reports the given
-- value, and no other, on the words of which each color is one that the symbol stands for, as far
-- as there are symbols.
pub Reports-create_dfa :
    (d : Dfa) (str : List ℕ) (v : ℕ)
    → 1 < d.max_states
    → 1 < d.max_indexes
    → (d' : Dfa) × (create_dfa d str v ≡ done d')
      × IsDfa d'
      × (1 < d'.max_indexes)
      × ((w : Word)
          → IsWord w
          → ((u : ℕ) → Reports d' w u ↔ ((u ≡ v) × (matches (symbols str) w 0 ≡ true)))
            × Stops d' w (suc (length (symbols str))))
Reports-create_dfa d str v h k =
    let (d', e, room, line, clear) = create_dfa_lem d str v h k in
    let is = IsDfa-Line d' (symbols str) v line room clear in
    (
      d',
      e,
      is,
      indexed d' 1 (symbols str) v line room,
      λ w is_word. (
        Reports-Line d' is v w is_word (symbols str) line,
        Stops-Line d' is v w is_word (symbols str) line,
      ),
    )
