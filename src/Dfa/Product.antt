-- ===== src/Dfa/Product.antt =====
-- patterns/dfa.c: the test array, and the synchronization product of two automata. The globals
-- gpout and gtest are the parts of `Product`; gpleft and gpright are arguments.
pub mod Table
pub mod Unseen
pub mod Invariant
pub mod Steps
pub mod Transition
pub mod Visit
pub mod Whole
pub mod Reports
use gnugo.Base.{
  ℕ, zero, suc, ◌+◌, ◌*◌, ◌%◌, Bool, true, false, ◌&&◌, leb, ltb, ◌==◌, if◌then◌else◌, List, [],
  ◌∷◌,
}
use gnugo.Dfa.{
  Outcome, done, failed, out_of_fuel, ◌>>=◌, State, Dfa, put, no_state, dfa_resize_step, resize_dfa,
  union_att,
}

abbrev pub max_hash_value : ℕ
max_hash_value = 4096

pub record Entry : Type 0 where
  pub l : ℕ
  pub r : ℕ
  pub val : ℕ

-- The lists of struct test_array.
abbrev pub TestArray : Type 0
TestArray = ℕ → List Entry

unfoldable pub new_test_array : TestArray
new_test_array h = []

-- The loop of get_from_entry_list from a value that it has.
unfoldable pub last_match : List Entry → ℕ → ℕ → ℕ → ℕ
last_match [] l r val = val
last_match (e ∷ es) l r val = last_match es l r (if e.l == l && e.r == r then e.val else val)

unfoldable pub get_from_entry_list : List Entry → ℕ → ℕ → ℕ
unfolding last_match
get_from_entry_list es l r = last_match es l r 0

unfoldable pub get_from_test_array : TestArray → ℕ → ℕ → ℕ
unfolding get_from_entry_list
get_from_test_array t l r = get_from_entry_list (t ((l + r) % max_hash_value)) l r

unfoldable pub add_to_entry_list : List Entry → ℕ → ℕ → ℕ → Outcome (List Entry)
unfolding get_from_entry_list
add_to_entry_list es l r val =
    if ltb 0 val && get_from_entry_list es l r == 0
    then done (record { l = l; r = r; val = val } ∷ es)
    else failed

unfoldable pub add_to_test_array : TestArray → ℕ → ℕ → ℕ → Outcome TestArray
unfolding add_to_entry_list
add_to_test_array t l r val =
    let h = (l + r) % max_hash_value in add_to_entry_list (t h) l r val >>= λ es. done (put t h es)

pub record Product : Type 0 where
  pub out : Dfa
  pub test : TestArray

-- `gpout->states[state].att = att`, `gpout->states[state].next[c] = next`
abbrev pub set_att : Dfa → ℕ → ℕ → Dfa
set_att d state att = record d {
  states = put d.states state (record (d.states state) { att = att });
}

abbrev pub set_next : Dfa → ℕ → ℕ → ℕ → Dfa
set_next d state c next = record d {
  states = put d.states state (record (d.states state) { next = put (d.states state).next c next });
}

-- "create it!": `gpout->last_state++`, with room for it.
unfoldable pub with_state : Dfa → Outcome Dfa
unfolding resize_dfa
with_state out =
    let d = record out { last_state = suc out.last_state } in
    if leb d.max_states d.last_state
    then resize_dfa d (d.max_states + dfa_resize_step) d.max_indexes
    else done d

-- And its entry in the test array.
unfoldable pub create_state : ℕ → ℕ → Product → Outcome Product
unfolding with_state add_to_test_array
create_state nextl nextr p = with_state p.out >>= λ d.
    add_to_test_array p.test nextl nextr d.last_state >>= λ t. done (record { out = d; test = t })

-- The body of the loop over the out-transitions. `visit` is the recursive call.
unfoldable pub out_transition :
    (ℕ → ℕ → Product → Outcome Product) → Dfa → Dfa → ℕ → ℕ → ℕ → ℕ → Product → Outcome Product
unfolding get_from_test_array
out_transition visit left right l r state c p =
    let nextl = (left.states l).next c in
    let nextr = (right.states r).next c in
    let reached = get_from_test_array p.test nextl nextr in
    let created = create_state nextl nextr p >>= λ q.
    visit nextl nextr (record q { out = set_next q.out state c q.out.last_state }) in
    let linked =
      if reached == 0 then created else done (record p { out = set_next p.out state c reached }) in
    let no_output = done (record p { out = set_next p.out state c 0 }) in
    if leb nextl left.last_state && leb nextr right.last_state
    then (if nextl == 0 && nextr == 0 then no_output else linked)
    else failed

-- The attributes of the state.
unfoldable pub unify_att : Dfa → Dfa → ℕ → ℕ → ℕ → Product → Outcome Product
unfolding union_att
unify_att left right l r state p =
    union_att p.out left (left.states l).att right (right.states r).att >>= λ u.
    done (record p { out = set_att u.dfa state u.att })

-- The loop from `c` on, with `n` more turns.
unfoldable pub out_transitions :
    (ℕ → ℕ → Product → Outcome Product) → Dfa → Dfa → ℕ → ℕ → ℕ → ℕ → ℕ → Product → Outcome Product
out_transitions visit left right l r state zero c p = done p
out_transitions visit left right l r state (suc n) c p =
    out_transition visit left right l r state c p
    >>= out_transitions visit left right l r state n (suc c)

unfoldable pub do_sync_product : ℕ → Dfa → Dfa → ℕ → ℕ → Product → Outcome Product
do_sync_product zero left right l r p = out_of_fuel
do_sync_product (suc fuel) left right l r p =
    let state = p.out.last_state in
    let visit = do_sync_product fuel left right in
    unify_att left right l r state p >>= out_transitions visit left right l r state 4 0

-- There is fuel for each pair of states.
unfoldable pub sync_product : Dfa → Dfa → Dfa → Outcome Dfa
sync_product out left right = add_to_test_array new_test_array 1 1 1 >>= λ t.
    do_sync_product (suc left.last_state * suc right.last_state) left right 1 1
      (record { out = record out { last_index = 0; last_state = 1 }; test = t })
    >>= λ p. done p.out
