-- ===== src/Dfa/Samples.antt =====
-- A database of four patterns, the product of two automata, and a linear one.
use gnugo.Base.{
  ℕ, zero, suc, ◌≤◌, ◌<◌, ◌≡◌, ◌⊎◌, ◌↔◌, refl, sym, arith, true, List, [], ◌∷◌, length,
}
use gnugo.Dfa.{done, ◌>>=◌, Dfa, no_state, no_attrib}
use gnugo.Dfa.Attributes.{AreLinked, IsList, elem}
use gnugo.Dfa.Automaton.{IsScanned, IsScanned-IsDfa, IsDfa, Word, IsWord, Reports, Stops, run}
use gnugo.Dfa.Bins.{Pattern, dfa_init, add_all, dfa_finalize}
use gnugo.Dfa.Bins.Whole.{Wanted, Reports-dfa_finalize}
use gnugo.Dfa.Linear.{create_dfa}
use gnugo.Dfa.Linear.Create.{symbols, Reports-create_dfa}
use gnugo.Dfa.Linear.Line.{matches}
use gnugo.Dfa.Product.{sync_product}
use gnugo.Dfa.Product.Reports.{Reports-sync_product}
use gnugo.Dfa.Scan.{
  scan_for_patterns, scan_loop, print_c_dfa, delta_of, read_index, add_delta, collect,
}
use gnugo.Dfa.Scan.Found.{Fits, scan_for_patterns-Reports}

-- An automaton without transitions or attributes.
abbrev pub empty_dfa : Dfa
empty_dfa = record {
  states = λ i. no_state;
  max_states = 250;
  last_state = 1;
  indexes = λ i. no_attrib;
  max_indexes = 250;
  last_index = 0;
}

empty_dfa-IsDfa : IsDfa empty_dfa
empty_dfa-IsDfa = record {
  started = omega arith;
  room = (omega arith, omega arith);
  attributes = λ s h. (omega arith, [], refl);
  transitions = λ s c h k. omega arith;
  dead = λ c h. refl;
  no_attributes = refl;
}

-- "O.", "XX", "$#" and "o?O".
abbrev pub patterns : List Pattern
patterns =
    record { string = 79 ∷ 46 ∷ []; index = 7 }
    ∷ record { string = 88 ∷ 88 ∷ []; index = 8 }
    ∷ record { string = 36 ∷ 35 ∷ []; index = 9 }
    ∷ record { string = 111 ∷ 63 ∷ 79 ∷ []; index = 7 }
    ∷ []

Reports-dfa_finalize_example :
    (d : Dfa) × ((dfa_init >>= add_all patterns >>= dfa_finalize empty_dfa) ≡ done d)
    × IsScanned d
    × ((w : Word) → IsWord w → (v : ℕ) → Reports d w v ↔ Wanted patterns w v)
    × ((n : ℕ) × ((w : Word) → IsWord w → Stops d w n))
Reports-dfa_finalize_example =
    Reports-dfa_finalize patterns empty_dfa (omega arith) (omega arith, omega arith)

-- "Xx", which reports 12.
abbrev pair : List ℕ
pair = 88 ∷ 120 ∷ []

Reports-create_dfa_example :
    (d' : Dfa) × (create_dfa empty_dfa pair 12 ≡ done d')
    × IsDfa d'
    × (1 < d'.max_indexes)
    × ((w : Word)
        → IsWord w
        → ((u : ℕ) → Reports d' w u ↔ ((u ≡ 12) × (matches (symbols pair) w 0 ≡ true)))
          × Stops d' w (suc (length (symbols pair))))
Reports-create_dfa_example = Reports-create_dfa empty_dfa pair 12 (omega arith) (omega arith)

-- One state that reports 5.
abbrev five : Dfa
five = record empty_dfa {
  states = λ s. record { att = s; next = λ c. 0 };
  indexes = λ i. record { val = 5; next = 0 };
  last_index = 1;
}

five-attributes : (s : ℕ) → s ≤ 1 → (s ≤ 1) × (vs : List ℕ) × IsList five.indexes s vs
five-attributes zero h = (h, [], refl)
five-attributes (suc zero) h = (h, 5 ∷ [], (omega arith, refl, omega arith, refl))
five-attributes (suc (suc s)) h = absurd (omega arith)

five-IsDfa : IsDfa five
five-IsDfa = record {
  started = omega arith;
  room = (omega arith, omega arith);
  attributes = five-attributes;
  transitions = λ s c h k. omega arith;
  dead = λ c h. refl;
  no_attributes = refl;
}

Reports-sync_product_example :
    (d : Dfa) × (sync_product empty_dfa five five ≡ done d)
    × IsDfa d
    × (d.states 0 ≡ no_state)
    × AreLinked d
    × ((w : Word)
        → IsWord w
        → ((v : ℕ) → Reports d w v ↔ (Reports five w v ⊎ Reports five w v))
          × ((n : ℕ) → Stops five w n → Stops five w n → Stops d w n))
Reports-sync_product_example =
    Reports-sync_product five five empty_dfa five-IsDfa five-IsDfa (omega arith) (omega arith) refl

five-Fits : Fits five
five-Fits = record {
  indices = omega arith;
  values = λ i h k. omega arith;
  near = λ s c h k there. absurd (there refl);
  moves = λ s c h k e. sym e;
  few = omega arith;
}

-- A board without stones.
abbrev empty_points : Word
empty_points row = 0

five-Stops : Stops five empty_points 1
unfolding run
five-Stops = refl

scan_for_patterns-Reports_example :
    (vs : List ℕ) × (scan_for_patterns 1 (print_c_dfa five) empty_points ≡ done vs)
    × ((v : ℕ) → (elem v vs ≡ true) ↔ Reports five empty_points v)
scan_for_patterns-Reports_example =
    scan_for_patterns-Reports five (IsScanned-IsDfa five five-IsDfa) five-Fits empty_points
      (λ k. omega arith) 1 five-Stops

five_found : scan_for_patterns 1 (print_c_dfa five) empty_points ≡ done (5 ∷ [])
unfolding scan_for_patterns scan_loop print_c_dfa delta_of read_index add_delta collect
five_found = refl
