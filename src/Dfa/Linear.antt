-- ===== src/Dfa/Linear.antt =====
-- patterns/dfa.c: create_dfa, the linear automaton of the string of a pattern. Strings are lists of
-- character codes without their final 0.
pub mod Line
pub mod Create
use gnugo.Base.{
  ℕ, zero, suc, ◌+◌, ◌≡◌, Bool, true, false, ◌&&◌, ◌||◌, ltb, leb, ◌==◌, if◌then◌else◌, List, [],
  ◌∷◌,
}
use gnugo.Dfa.{
  Outcome, done, failed, ◌>>=◌, Dfa, State, Attrib, put, out_board, no_attrib, dfa_resize_step,
  resize_dfa, clean_dfa, next_index,
}
use gnugo.Dfa.Attributes.{elem}

-- "$#+-|OoXx.?,!a*"
abbrev pub is_symbol : ℕ → Bool
is_symbol c =
    elem c (36 ∷ 35 ∷ 43 ∷ 45 ∷ 124 ∷ 79 ∷ 111 ∷ 88 ∷ 120 ∷ 46 ∷ 63 ∷ 44 ∷ 33 ∷ 97 ∷ 42 ∷ [])

-- "$?.ox,a!*"
abbrev pub takes_empty : ℕ → Bool
takes_empty c = elem c (36 ∷ 63 ∷ 46 ∷ 111 ∷ 120 ∷ 44 ∷ 97 ∷ 33 ∷ 42 ∷ [])

-- "$?Oo"
abbrev pub takes_white : ℕ → Bool
takes_white c = elem c (36 ∷ 63 ∷ 79 ∷ 111 ∷ [])

-- "$?Xx"
abbrev pub takes_black : ℕ → Bool
takes_black c = elem c (36 ∷ 63 ∷ 88 ∷ 120 ∷ [])

-- "$#+-|"
abbrev pub takes_out : ℕ → Bool
takes_out c = elem c (36 ∷ 35 ∷ 43 ∷ 45 ∷ 124 ∷ [])

-- `if (test) next[c] = to`
abbrev pub link_if : Bool → ℕ → ℕ → (ℕ → ℕ) → ℕ → ℕ
link_if test c to next k = if k == c then (if test then to else next k) else next k

-- The first four transitions are 0.
abbrev pub no_next : (ℕ → ℕ) → ℕ → ℕ
no_next next c = if ltb c 4 then 0 else next c

-- The transitions of a state for a symbol.
abbrev pub symbol_next : ℕ → ℕ → (ℕ → ℕ) → ℕ → ℕ
symbol_next symbol to next = link_if (takes_out symbol) out_board to (
    link_if (takes_black symbol) 2 to
      (link_if (takes_white symbol) 1 to (link_if (takes_empty symbol) 0 to (no_next next))))

abbrev pub set_links : Dfa → ℕ → (ℕ → ℕ) → Dfa
set_links d state next = record d {
  states = put d.states state (record (d.states state) { next = next });
}

-- The automaton, and `new_state`.
pub record Drawn : Type 0 where
  pub dfa : Dfa
  pub new_state : ℕ

-- The body of the loop.
unfoldable pub draw_symbol : ℕ → Drawn → Outcome Drawn
draw_symbol symbol a =
    let next = symbol_next symbol (suc a.new_state) (a.dfa.states a.new_state).next in
    let d = set_links a.dfa a.new_state next in
    let roomy : Outcome Dfa =
      if leb d.max_states (suc a.new_state)
      then resize_dfa d (d.max_states + dfa_resize_step) d.max_indexes
      else done d in
    roomy >>= λ d'. done (record { dfa = d'; new_state = suc a.new_state })

unfoldable pub draw_loop : List ℕ → Drawn → Outcome Drawn
draw_loop [] a = done a
draw_loop (c ∷ cs) a =
    let rest = draw_symbol c a >>= draw_loop cs in if is_symbol c then rest else done a

-- The last state, and its attribute.
unfoldable pub close_dfa : ℕ → Drawn → Outcome Dfa
close_dfa att_val a =
    next_index (set_links a.dfa a.new_state (no_next (a.dfa.states a.new_state).next)) >>= λ d.
    done (record d {
      states = put d.states a.new_state (record (d.states a.new_state) { att = d.last_index });
      indexes = put d.indexes d.last_index (record { val = att_val; next = 0 });
      last_state = a.new_state;
    })

unfoldable pub create_dfa : Dfa → List ℕ → ℕ → Outcome Dfa
create_dfa d str att_val =
    let created =
      draw_loop str (record { dfa = clean_dfa d; new_state = 1 }) >>= close_dfa att_val in
    if ltb 1 d.max_states && ltb 1 d.max_indexes then created else failed
