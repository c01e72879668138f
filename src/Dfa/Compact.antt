-- ===== src/Dfa/Compact.antt =====
-- patterns/dfa.c: compactify_att, which merges equal attributes.
pub mod Kept
pub mod Lists
use gnugo.Base.{ℕ, zero, suc, ◌+◌, Bool, true, false, ltb, leb, ◌==◌, if◌then◌else◌}
use gnugo.Dfa.{Outcome, done, failed, out_of_fuel, ◌>>=◌, Dfa, Attrib, State, put}

-- `last` and the arrays while the entries are gone through.
pub record Compacting : Type 0 where
  pub indexes : ℕ → Attrib
  pub last : ℕ
  pub map : ℕ → ℕ
  pub search_first : ℕ → ℕ
  pub search_next : ℕ → ℕ

-- They and `i`.
pub record Slot : Type 0 where
  pub found : ℕ
  pub rest : Compacting

-- The search from `i` on for an entry that is linked as entry `k` is.
unfoldable pub search_loop : ℕ → ℕ → ℕ → Compacting → Outcome Slot
search_loop zero k i t = out_of_fuel
search_loop (suc fuel) k i t =
    let after = search_loop fuel k (t.search_next i) t in
    if (t.indexes i).next == (t.indexes k).next
    then done (record { found = i; rest = t })
    else if t.search_next i == 0
    then done (record {
      found = 0;
      rest = record t { search_next = put t.search_next i (suc t.last); last = suc t.last };
    })
    else after

-- The entry that entry `k` repeats, or 0 and a new one.
unfoldable pub find_slot : ℕ → Compacting → Outcome Slot
find_slot k t =
    let val = (t.indexes k).val in
    let i = t.search_first val in
    if i == 0
    then done (record {
      found = 0;
      rest = record t { search_first = put t.search_first val (suc t.last); last = suc t.last };
    })
    else search_loop k k i t

-- The body of the loop over the entries.
unfoldable pub compact_entry : ℕ → Compacting → Outcome Compacting
compact_entry k t = find_slot k t >>= λ s.
    let u = s.rest in
    if s.found == 0
    then done (record u { map = put u.map k u.last; indexes = put u.indexes u.last (u.indexes k) })
    else done (record u { map = put u.map k s.found })

-- The loop, with `n` entries to go.
unfoldable pub compact_entries : ℕ → ℕ → Compacting → Outcome Compacting
compact_entries zero k t = done t
compact_entries (suc n) k t = compact_entry k t >>= compact_entries n (suc k)

-- The links of the entries and of the states are renumbered.
unfoldable pub relabel : Dfa → Compacting → Dfa
relabel d t = record d {
  last_index = t.last;
  indexes = λ k.
      if leb k t.last
      then record (t.indexes k) { next = t.map (t.indexes k).next }
      else t.indexes k;
  states = λ k.
      if leb k d.last_state
      then record (d.states k) { att = t.map (d.states k).att }
      else d.states k;
}

-- `map[0]` is set, and the other entries of `map` are read only after they are.
unfoldable pub compactify_att : ℕ → Dfa → Outcome Dfa
compactify_att zero d = out_of_fuel
compactify_att (suc fuel) d =
    let start : Compacting = record {
      indexes = d.indexes;
      last = 0;
      map = λ k. 0;
      search_first = λ k. 0;
      search_next = λ k. 0;
    } in
    compact_entries d.last_index 1 start >>= λ t.
    let again = compactify_att fuel (relabel d t) in
    if ltb t.last d.last_index then again else done (record d { indexes = t.indexes })
