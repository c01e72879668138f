-- ===== src/Dfa.antt =====
-- patterns/dfa.c and patterns/dfa-mkpat.h: the automata that filter the patterns. A pointer to an
-- automaton is the automaton itself; two pointers of one call are to different automata, as
-- copy_dfa asserts and the other callers see to. An `int` that is -1 is kept as its residue modulo
-- 2 ^ 32.
pub mod Attributes
pub mod Automaton
pub mod Product
pub mod Linear
pub mod Compact
pub mod Copy
pub mod Bins
pub mod Shuffle
pub mod Scan
pub mod Matching
mod Samples
mod SamplesMatching
use gnugo.Base.{ℕ, zero, suc, ◌+◌, Bool, true, false, ◌&&◌, ltb, leb, ◌==◌, if◌then◌else◌}

-- A failed assert ends the program.
pub data Outcome {ℓ} (A : Type ℓ) : Type ℓ where
  done : A → Outcome A
  failed out_of_fuel : Outcome A

infixl 5 ◌>>=◌
abbrev pub ◌>>=◌ {ℓ κ} : {A : Type ℓ} {B : Type κ} → Outcome A → (A → Outcome B) → Outcome B
done a >>= f = f a
failed >>= f = failed
out_of_fuel >>= f = out_of_fuel

pub record Attrib : Type 0 where
  pub val : ℕ
  pub next : ℕ

pub record State : Type 0 where
  pub att : ℕ
  pub next : ℕ → ℕ

pub record Dfa : Type 0 where
  pub states : ℕ → State
  pub max_states : ℕ
  pub last_state : ℕ
  pub indexes : ℕ → Attrib
  pub max_indexes : ℕ
  pub last_index : ℕ

abbrev pub out_board : ℕ
out_board = 3

abbrev pub dfa_resize_step : ℕ
dfa_resize_step = 20000

abbrev dfa_init_size : ℕ
dfa_init_size = 250

-- The bytes of these structs are 0.
abbrev pub no_state : State
no_state = record { att = 0; next = λ c. 0 }

abbrev pub no_attrib : Attrib
no_attrib = record { val = 0; next = 0 }

-- `a[i] = v`
abbrev pub put {ℓ} : {A : Type ℓ} → (ℕ → A) → ℕ → A → ℕ → A
put a i v k = if k == i then v else a k

-- The places from `from` on and before `to` are cleared.
abbrev pub cleared {ℓ} : {A : Type ℓ} → A → ℕ → ℕ → (ℕ → A) → ℕ → A
cleared blank from to a k = if leb from k && ltb k to then blank else a k

abbrev pub resized : Dfa → ℕ → ℕ → Dfa
resized d max_states max_indexes = record d {
  states = cleared no_state d.max_states max_states d.states;
  indexes = cleared no_attrib d.max_indexes max_indexes d.indexes;
  max_states = max_states;
  max_indexes = max_indexes;
}

unfoldable pub resize_dfa : Dfa → ℕ → ℕ → Outcome Dfa
resize_dfa d max_states max_indexes =
    if leb d.last_state d.max_states && leb d.last_index d.max_indexes
    then done (resized d max_states max_indexes)
    else failed

unfoldable pub clean_dfa : Dfa → Dfa
clean_dfa d = record d {
  states = cleared no_state 0 d.max_states d.states;
  indexes =
      put (cleared no_attrib 0 d.max_indexes d.indexes) 0 (record { val = 4294967295; next = 0 });
  last_state = 1;
  last_index = 0;
}

-- The memory of the new automaton, which realloc gives, is cleared as far as it is used.
unfoldable pub new_dfa : Outcome Dfa
unfolding resize_dfa clean_dfa
new_dfa =
    resize_dfa
      (record {
        states = λ i. no_state;
        max_states = 0;
        last_state = 0;
        indexes = λ i. no_attrib;
        max_indexes = 0;
        last_index = 0;
      })
      dfa_init_size dfa_init_size
    >>= λ d. done (clean_dfa d)

-- `pdfa->last_index++`, with room for it.
unfoldable pub next_index : Dfa → Outcome Dfa
unfolding resize_dfa
next_index d =
    let d' = record d { last_index = suc d.last_index } in
    if leb d'.max_indexes d'.last_index
    then resize_dfa d' d'.max_states (d'.max_indexes + dfa_resize_step)
    else done d'

-- An automaton, and the first attribute of a list in it.
pub record Listed : Type 0 where
  pub dfa : Dfa
  pub att : ℕ

-- A new attribute before the list.
unfoldable pub push_att : ℕ → Listed → Outcome Listed
unfolding next_index
push_att val l = next_index l.dfa >>= λ d. done (record {
  dfa = record d { indexes = put d.indexes d.last_index (record { val = val; next = l.att }) };
  att = d.last_index;
})

-- The fuel of these loops is the first attribute, since each is linked to one of a smaller index.
unfoldable pub member_loop : ℕ → (ℕ → Attrib) → ℕ → ℕ → Outcome Bool
member_loop fuel indexes zero val = done false
member_loop zero indexes (suc att) val = out_of_fuel
member_loop (suc fuel) indexes (suc att) val =
    let a = indexes (suc att) in
    let rest = member_loop fuel indexes a.next val in if a.val == val then done true else rest

unfoldable pub member_att : Dfa → ℕ → ℕ → Outcome Bool
unfolding member_loop
member_att d att val = member_loop att d.indexes att val

-- "copy att1 in att"
unfoldable pub copy_loop : ℕ → (ℕ → Attrib) → ℕ → Listed → Outcome Listed
unfolding push_att
copy_loop fuel indexes zero l = done l
copy_loop zero indexes (suc att) l = out_of_fuel
copy_loop (suc fuel) indexes (suc att) l =
    push_att (indexes (suc att)).val l >>= copy_loop fuel indexes (indexes (suc att)).next

-- The body of the second loop.
unfoldable pub add_new : ℕ → Listed → Outcome Listed
unfolding member_att push_att
add_new val l = member_att l.dfa l.att val >>= λ known. if known then done l else push_att val l

-- "add to att the new elements of att2"
unfoldable pub merge_loop : ℕ → (ℕ → Attrib) → ℕ → Listed → Outcome Listed
unfolding add_new
merge_loop fuel indexes zero l = done l
merge_loop zero indexes (suc att) l = out_of_fuel
merge_loop (suc fuel) indexes (suc att) l =
    add_new (indexes (suc att)).val l >>= merge_loop fuel indexes (indexes (suc att)).next

unfoldable pub union_att : Dfa → Dfa → ℕ → Dfa → ℕ → Outcome Listed
unfolding copy_loop merge_loop
union_att d dfa1 att1 dfa2 att2 =
    copy_loop att1 dfa1.indexes att1 (record { dfa = d; att = 0 })
    >>= merge_loop att2 dfa2.indexes att2
