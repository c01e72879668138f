-- ===== src/Dfa/SamplesMatching.antt =====
-- The scan with the tables of a database of four patterns.
use gnugo.Base.{
  ℕ, zero, suc, ◌+◌, ◌≤◌, ◌<◌, ◌≡◌, ◌↔◌, inl, inr, refl, arith, Bool, true, false, ◌&&◌, ◌||◌, not,
  Bool-cases, ==→≡, ltb, ◌==◌, if◌then◌else◌, List, [], ◌∷◌,
}
use gnugo.Dfa.{
  Outcome, done, failed, out_of_fuel, Dfa, new_dfa, resize_dfa, clean_dfa, next_index, push_att,
  member_loop, member_att, copy_loop, add_new, merge_loop, union_att,
}
use gnugo.Dfa.Attributes.{IsList, elem}
use gnugo.Dfa.Bins.{
  dfa_init, add_all, dfa_add_string, merge_two, merge_bins, merge_rounds, merged_dfa, dfa_finalize,
}
use gnugo.Dfa.Automaton.{IsDfa, IsScanned, IsScanned-IsDfa, Word, IsWord, Reports, Stops, run}
use gnugo.Dfa.Shuffle.Numbering.{IsClosed}
use gnugo.Dfa.Shuffle.Reached.{AreReached, Reports-dfa_shuffle}
use gnugo.Dfa.Compact.{
  search_loop, find_slot, compact_entry, compact_entries, relabel, compactify_att,
}
use gnugo.Dfa.Copy.{copy_dfa}
use gnugo.Dfa.Linear.{draw_symbol, draw_loop, close_dfa, create_dfa}
use gnugo.Dfa.Product.{
  new_test_array, last_match, get_from_entry_list, get_from_test_array, add_to_entry_list,
  add_to_test_array, with_state, create_state, out_transition, unify_att, out_transitions,
  do_sync_product, sync_product,
}
use gnugo.Dfa.Bins.Whole.{Wanted}
use gnugo.Dfa.Shuffle.{follow, walk_queue, walk_queues, all_numbered, dfa_shuffle}
use gnugo.Dfa.Matching.{built_dfa, scan_for_patterns-Wanted}
use gnugo.Dfa.Samples.{empty_dfa, patterns}
use gnugo.Dfa.Scan.{print_c_dfa, scan_for_patterns}
use gnugo.Dfa.Scan.Found.{Fits}

-- The test holds for all numbers before `n`.
all_below : (ℕ → Bool) → ℕ → Bool
all_below p zero = true
all_below p (suc n) = p n && all_below p n

all_below_lem : (p : ℕ → Bool) (n i : ℕ) → all_below p n ≡ true → i < n → p i ≡ true
unfolding all_below
all_below_lem p zero i h l = absurd (omega arith)
all_below_lem p (suc n) i h l = elim (Bool-cases (i == n)) [
  | inl e ↦ rw (==→≡ i n e) (ground arith)
  | inr less ↦ all_below_lem p n i (ground arith) (ground arith)
]

abbrev value_fits : Dfa → ℕ → Bool
value_fits d i = i == 0 || ltb (d.indexes i).val 32768

abbrev near_fits : ℕ → ℕ → Bool
near_fits s n = n == 0 || (ltb n (s + 32768) && ltb s (n + 32768) && not (n == s))

abbrev values_fit : Dfa → Bool
values_fit d = all_below (value_fits d) (suc d.last_index)

abbrev states_fit : Dfa → Bool
states_fit d =
    all_below (λ s. all_below (λ c. near_fits s ((d.states s).next c)) 4) (suc d.last_state)

Fits-test :
    (d : Dfa)
    → d.last_index < 32768
    → d.last_state < 65536
    → values_fit d ≡ true
    → states_fit d ≡ true
    → Fits d
Fits-test d h k values states =
    let near : (s c : ℕ) → s ≤ d.last_state → c < 4 → near_fits s ((d.states s).next c) ≡ true =
      λ s c e f.
        all_below_lem (λ c. near_fits s ((d.states s).next c)) 4 c
          (all_below_lem (λ s. all_below (λ c. near_fits s ((d.states s).next c)) 4)
            (suc d.last_state) s states (omega arith))
          f in
    record {
      indices = h;
      values = λ i e f.
          let test = all_below_lem (value_fits d) (suc d.last_index) i values (omega arith) in
          ground (arith, test);
      near = λ s c e f there.
          let test = near s c e f in (ground (arith, test, there), ground (arith, test, there));
      moves = λ s c e f same. let test = near s c e f in ground (arith, test, same);
      few = k;
    }

abbrev is_done : Outcome Dfa → Bool
is_done (done d) = true
is_done failed = false
is_done out_of_fuel = false

abbrev result : Outcome Dfa → Dfa
result (done d) = d
result failed = empty_dfa
result out_of_fuel = empty_dfa

is_done-done : (o : Outcome Dfa) → is_done o ≡ true → o ≡ done (result o)
is_done-done (done d) h = refl
is_done-done failed h = absurd cc
is_done-done out_of_fuel h = absurd cc

abbrev database : Dfa
database = result (built_dfa patterns empty_dfa)

database-made : built_dfa patterns empty_dfa ≡ done database
unfolding dfa_init new_dfa resize_dfa clean_dfa add_all dfa_add_string create_dfa draw_loop
    draw_symbol close_dfa next_index sync_product do_sync_product out_transitions out_transition
    unify_att union_att copy_loop merge_loop add_new push_att member_att member_loop create_state
    with_state add_to_test_array add_to_entry_list get_from_test_array get_from_entry_list
    last_match new_test_array dfa_finalize merged_dfa merge_rounds merge_bins merge_two copy_dfa
    compactify_att compact_entries compact_entry find_slot search_loop relabel built_dfa dfa_shuffle
    walk_queues walk_queue follow all_numbered
database-made = is_done-done (built_dfa patterns empty_dfa) refl

database_fits :
    (values_fit database
      && states_fit database
      && ltb database.last_index 32768
      && ltb database.last_state 65536)
    ≡ true
unfolding dfa_init new_dfa resize_dfa clean_dfa add_all dfa_add_string create_dfa draw_loop
    draw_symbol close_dfa next_index sync_product do_sync_product out_transitions out_transition
    unify_att union_att copy_loop merge_loop add_new push_att member_att member_loop create_state
    with_state add_to_test_array add_to_entry_list get_from_test_array get_from_entry_list
    last_match new_test_array dfa_finalize merged_dfa merge_rounds merge_bins merge_two copy_dfa
    compactify_att compact_entries compact_entry find_slot search_loop relabel all_below built_dfa
    dfa_shuffle walk_queues walk_queue follow all_numbered
database_fits = refl

database-Fits : Fits database
database-Fits =
    Fits-test database (ground (arith, database_fits)) (ground (arith, database_fits))
      (ground (arith, database_fits)) (ground (arith, database_fits))

-- After a white stone one goes from state 1 to state 3, which reports 5, after a black one to state 2.
abbrev fork : Dfa
fork = record empty_dfa {
  states = λ s. record {
    att = if s == 3 then 1 else 0;
    next = λ c. if s == 1 && c == 1 then 3 else (if s == 1 && c == 2 then 2 else 0);
  };
  indexes = λ i. record { val = 5; next = 0 };
  last_state = 3;
  last_index = 1;
}

fork-attributes :
    (s : ℕ)
    → s ≤ 3
    → ((fork.states s).att ≤ 1) × (vs : List ℕ) × IsList fork.indexes (fork.states s).att vs
fork-attributes zero h = (omega arith, [], refl)
fork-attributes (suc zero) h = (omega arith, [], refl)
fork-attributes (suc (suc zero)) h = (omega arith, [], refl)
fork-attributes (suc (suc (suc zero))) h =
    (omega arith, 5 ∷ [], (omega arith, refl, omega arith, refl))
fork-attributes (suc (suc (suc (suc s)))) h = absurd (omega (arith, h))

fork-IsDfa : IsDfa fork
fork-IsDfa = record {
  started = omega arith;
  room = (omega arith, omega arith);
  attributes = fork-attributes;
  transitions = λ s c h k. ground arith;
  dead = λ c h. refl;
  no_attributes = refl;
}

fork-IsClosed : IsClosed fork
fork-IsClosed = record {
  started = fork-IsDfa.started;
  transitions = fork-IsDfa.transitions;
  dead = fork-IsDfa.dead;
}

fork-AreReached : AreReached fork
unfolding run
fork-AreReached zero low high = absurd (omega (arith, low))
fork-AreReached (suc zero) low high = ((λ k. 0), (λ k. omega arith), 0, refl)
fork-AreReached (suc (suc zero)) low high = ((λ k. 2), (λ k. omega arith), 1, refl)
fork-AreReached (suc (suc (suc zero))) low high = ((λ k. 1), (λ k. omega arith), 1, refl)
fork-AreReached (suc (suc (suc (suc s)))) low high = absurd (omega (arith, high))

Reports-dfa_shuffle_example :
    (d' : Dfa) × (dfa_shuffle fork ≡ done d')
    × IsScanned d'
    × ((w : Word)
        → IsWord w
        → ((v : ℕ) → Reports d' w v ↔ Reports fork w v) × ((n : ℕ) → Stops fork w n → Stops d' w n))
Reports-dfa_shuffle_example =
    Reports-dfa_shuffle fork fork-IsClosed (IsScanned-IsDfa fork fork-IsDfa) fork-AreReached

-- White stones on every point.
abbrev white_points : Word
white_points row = 1

scan_for_patterns-Wanted_example :
    (n : ℕ) × (vs : List ℕ) × (scan_for_patterns n (print_c_dfa database) white_points ≡ done vs)
    × ((v : ℕ) → (elem v vs ≡ true) ↔ Wanted patterns white_points v)
scan_for_patterns-Wanted_example =
    scan_for_patterns-Wanted patterns empty_dfa database (omega arith) (omega arith, omega arith)
      database-made database-Fits white_points (λ k. omega arith)
