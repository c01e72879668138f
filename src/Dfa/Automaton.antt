-- ===== src/Dfa/Automaton.antt =====
-- What an automaton reports on a word: an endless sequence of colors, of which it reads as many as
-- it has transitions for.
use gnugo.Base.{
  ℕ, zero, suc, ◌≤◌, ◌<◌, ◌≡◌, ◌≢◌, inl, inr, arith, subst, ap, ◌∙◌, Bool-cases, ==→≡, ◌==◌, true,
  List, [], ◌∷◌,
}
use gnugo.Dfa.{Dfa}
use gnugo.Dfa.Attributes.{IsList, elem, HasRoom}

abbrev pub Word : Type 0
Word = ℕ → ℕ

-- The values on the board: empty, white, black, and off the board.
abbrev pub IsWord : Word → Type 0
IsWord w = (k : ℕ) → w k < 4

-- The state after `k` symbols; 0 is the state without transitions.
unfoldable pub run : Dfa → Word → ℕ → ℕ
run d w zero = 1
run d w (suc k) = (d.states (run d w k)).next (w k)

-- Some state on the way has the attribute `v`.
abbrev pub Reports : Dfa → Word → ℕ → Type 0
Reports d w v =
    (k : ℕ) × (vs : List ℕ) × IsList d.indexes (d.states (run d w k)).att vs × (elem v vs ≡ true)

-- The automaton stops within `n` symbols.
abbrev pub Stops : Dfa → Word → ℕ → Type 0
Stops d w n = run d w n ≡ 0

-- A well-formed automaton.
pub record IsDfa (d : Dfa) : Type 0 where
  pub started : 1 ≤ d.last_state
  pub room : HasRoom d
  pub attributes :
      (s : ℕ)
      → s ≤ d.last_state
      → ((d.states s).att ≤ d.last_index) × (vs : List ℕ) × IsList d.indexes (d.states s).att vs
  pub transitions : (s c : ℕ) → s ≤ d.last_state → c < 4 → (d.states s).next c ≤ d.last_state
  pub dead : (c : ℕ) → c < 4 → (d.states 0).next c ≡ 0
  pub no_attributes : (d.states 0).att ≡ 0

pub run_le : (d : Dfa) (w : Word) → IsDfa d → IsWord w → (k : ℕ) → run d w k ≤ d.last_state
unfolding run
run_le d w p h zero = p.started
run_le d w p h (suc k) = p.transitions (run d w k) (w k) (run_le d w p h k) (h k)

-- A state whose list is empty reports nothing.
pub unlisted :
    (d : Dfa) (s v : ℕ) (vs : List ℕ)
    → (d.states s).att ≡ 0
    → IsList d.indexes (d.states s).att vs
    → elem v vs ≢ true
unlisted d s v [] e list found = ground arith
unlisted d s v (u ∷ us) e (pos, _, _, _) found = absurd (omega (arith, pos, e))

pub silent :
    (d : Dfa)
    → IsDfa d
    → (s v : ℕ) (vs : List ℕ) → s ≡ 0
    → IsList d.indexes (d.states s).att vs
    → elem v vs ≢ true
silent d h s v vs e = unlisted d s v vs (ap (λ k. (d.states k).att) e ∙ h.no_attributes)

pub run-suc :
    (d : Dfa) (w : Word) (k n : ℕ) → run d w k ≡ n → run d w (suc k) ≡ (d.states n).next (w k)
unfolding run
run-suc d w k n e = ap (λ m. (d.states m).next (w k)) e

-- An automaton that has stopped reads nothing more.
pub run-stopped :
    (d : Dfa) (w : Word) → IsDfa d → IsWord w → (k j : ℕ) → k ≤ j → run d w k ≡ 0 → run d w j ≡ 0
run-stopped d w is is_word k zero h e = subst (λ i. run d w i ≡ 0) (omega arith) e
run-stopped d w is is_word k (suc j) h e = elim (Bool-cases (k == suc j)) [
  | inl same ↦ rw (← ==→≡ k (suc j) same) e
  | inr less ↦
      run-suc d w j 0 (run-stopped d w is is_word k j (ground arith) e) ∙ is.dead (w j) (is_word j)
]

-- What a scan relies on: on every word the states have lists of attributes, nothing is read after
-- the automaton has stopped, and nothing is reported then.
pub record IsScanned (d : Dfa) : Type 0 where
  pub listed :
      (w : Word)
      → IsWord w
      → (k : ℕ)
      → (run d w k ≤ d.last_state)
        × ((d.states (run d w k)).att ≤ d.last_index)
        × (vs : List ℕ) × IsList d.indexes (d.states (run d w k)).att vs
  pub stopped : (w : Word) → IsWord w → (k j : ℕ) → k ≤ j → run d w k ≡ 0 → run d w j ≡ 0
  pub no_attributes : (d.states 0).att ≡ 0

pub IsScanned-IsDfa : (d : Dfa) → IsDfa d → IsScanned d
IsScanned-IsDfa d is = record {
  listed = λ w is_word k.
      let within = run_le d w is is_word k in
      let (low, vs, list) = is.attributes (run d w k) within in (within, low, vs, list);
  stopped = λ w is_word. run-stopped d w is is_word;
  no_attributes = is.no_attributes;
}
