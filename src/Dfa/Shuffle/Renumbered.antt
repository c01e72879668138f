-- ===== src/Dfa/Shuffle/Renumbered.antt =====
-- What an automaton reports stays when dfa_shuffle numbers its states anew.
use gnugo.Base.{
  ℕ, zero, suc, ◌≤◌, ◌<◌, ◌≡◌, ◌≢◌, ◌↔◌, inl, inr, refl, sym, ap, subst, ◌∙◌, arith, true,
  Bool-cases, ==→≡, ◌==◌, ◌&&◌, leb, List, [], ◌∷◌,
}
use gnugo.Dfa.{Outcome, done, failed, out_of_fuel, Dfa}
use gnugo.Dfa.Attributes.{IsList}
use gnugo.Dfa.Automaton.{IsScanned, Word, IsWord, run, run-suc, Reports, Stops}
use gnugo.Dfa.Shuffle.{Walked, first_walked, walk_queues, all_numbered, renumbered, dfa_shuffle}
use gnugo.Dfa.Shuffle.Numbering.{IsClosed, IsNumbering, walk_lem}

all_numbered_lem :
    (n : ℕ) (to : ℕ → ℕ) (i : ℕ) → all_numbered n to ≡ true → 1 ≤ i → i ≤ n → to i ≢ 0
unfolding all_numbered
all_numbered_lem zero to i all low high = absurd (omega arith)
all_numbered_lem (suc n) to i all low high = elim (Bool-cases (i == suc n)) [
  | inl e ↦ rw (==→≡ i (suc n) e) (λ z. ground (arith, all, z))
  | inr e ↦ all_numbered_lem n to i (ground (arith, all)) low (ground (arith, e))
]

pub run-IsClosed_le :
    (d : Dfa) (w : Word) → IsClosed d → IsWord w → (k : ℕ) → run d w k ≤ d.last_state
unfolding run
run-IsClosed_le d w closed is_word zero = closed.started
run-IsClosed_le d w closed is_word (suc k) =
    closed.transitions (run d w k) (w k) (run-IsClosed_le d w closed is_word k) (is_word k)

-- The same automaton, save for the numbers of the states.
record Renumbers (to : ℕ → ℕ) (d d' : Dfa) : Type 0 where
  none : to 0 ≡ 0
  first : to 1 ≡ 1
  within : (i : ℕ) → to i ≤ d.last_state
  reached : (i : ℕ) → i ≤ d.last_state → to i ≡ 0 → i ≡ 0
  next : (i c : ℕ) → i ≤ d.last_state → c < 4 → (d'.states (to i)).next c ≡ to ((d.states i).next c)
  att : (i : ℕ) → i ≤ d.last_state → (d'.states (to i)).att ≡ (d.states i).att
  zero_att : (d'.states 0).att ≡ (d.states 0).att
  same_indexes : d'.indexes ≡ d.indexes
  same_index : d'.last_index ≡ d.last_index
  same_state : d'.last_state ≡ d.last_state

module _ (d : Dfa) (closed : IsClosed d) (s : Walked) (is : IsNumbering d s)
    (all : all_numbered d.last_state s.state_to ≡ true) where
  to_le : (i : ℕ) → s.state_to i ≤ d.last_state
  to_le i = omega (arith, is.below i, is.room)

  states-renumbered :
      (i : ℕ)
      → 1 ≤ i
      → i ≤ d.last_state
      → (renumbered d s).states (s.state_to i)
        ≡ record { att = (d.states i).att; next = λ c. s.state_to ((d.states i).next c) }
  states-renumbered i low high =
      let some_number = all_numbered_lem d.last_state s.state_to i all low high in
      let in_range : leb 1 (s.state_to i) && leb (s.state_to i) d.last_state ≡ true =
        ground (arith, to_le i, some_number) in
      rw (in_range, is.inverse i some_number) refl

  renumbered-Renumbers : Renumbers s.state_to d (renumbered d s)
  renumbered-Renumbers = record {
    none = is.none;
    first = is.first;
    within = to_le;
    reached = λ i high z. elim (Bool-cases (i == 0)) [
      | inl e ↦ ==→≡ i 0 e
      | inr e ↦ absurd (all_numbered_lem d.last_state s.state_to i all (ground (arith, e)) high z)
    ];
    next = λ i c high low. elim (Bool-cases (i == 0)) [
      | inl e ↦ rw (==→≡ i 0 e, is.none, closed.dead c low) (sym is.none)
      | inr e ↦ ap (λ x. x.next c) (states-renumbered i (ground (arith, e)) high)
    ];
    att = λ i high. elim (Bool-cases (i == 0)) [
      | inl e ↦ rw (==→≡ i 0 e, is.none) refl
      | inr e ↦ ap (λ x. x.att) (states-renumbered i (ground (arith, e)) high)
    ];
    zero_att = refl;
    same_indexes = refl;
    same_index = refl;
    same_state = refl;
  }

module _ (to : ℕ → ℕ) (d d' : Dfa) (closed : IsClosed d) (r : Renumbers to d d') where
  module _ (w : Word) (is_word : IsWord w) where
    run-Renumbers : (k : ℕ) → run d' w k ≡ to (run d w k)
    unfolding run
    run-Renumbers zero = sym r.first
    run-Renumbers (suc k) =
        run-suc d' w k (to (run d w k)) (run-Renumbers k)
        ∙ r.next (run d w k) (w k) (run-IsClosed_le d w closed is_word k) (is_word k)

    att-Renumbers : (k : ℕ) → (d'.states (run d' w k)).att ≡ (d.states (run d w k)).att
    att-Renumbers k =
        ap (λ i. (d'.states i).att) (run-Renumbers k)
        ∙ r.att (run d w k) (run-IsClosed_le d w closed is_word k)

    list-Renumbers :
        (k : ℕ) (vs : List ℕ)
        → IsList d.indexes (d.states (run d w k)).att vs
        → IsList d'.indexes (d'.states (run d' w k)).att vs
    list-Renumbers k vs list =
        subst (λ a. IsList d'.indexes a vs) (sym (att-Renumbers k))
          (subst (λ x. IsList x (d.states (run d w k)).att vs) (sym r.same_indexes) list)

    list-Renumbers_back :
        (k : ℕ) (vs : List ℕ)
        → IsList d'.indexes (d'.states (run d' w k)).att vs
        → IsList d.indexes (d.states (run d w k)).att vs
    list-Renumbers_back k vs list =
        subst (λ a. IsList d.indexes a vs) (att-Renumbers k)
          (subst (λ x. IsList x (d'.states (run d' w k)).att vs) r.same_indexes list)

    Reports-Renumbers : (v : ℕ) → Reports d' w v ↔ Reports d w v
    Reports-Renumbers v = (
      λ (k, vs, list, found). (k, vs, list-Renumbers_back k vs list, found),
      λ (k, vs, list, found). (k, vs, list-Renumbers k vs list, found),
    )

    Stops-Renumbers : (n : ℕ) → Stops d w n → Stops d' w n
    Stops-Renumbers n h = run-Renumbers n ∙ ap to h ∙ r.none

  IsScanned-Renumbers : IsScanned d → IsScanned d'
  IsScanned-Renumbers scanned = record {
    listed = λ w is_word k.
        let (_, low, vs, list) = scanned.listed w is_word k in
        (
          omega (arith, run-Renumbers w is_word k, r.within (run d w k), r.same_state),
          omega (arith, att-Renumbers w is_word k, low, r.same_index),
          vs,
          list-Renumbers w is_word k vs list,
        );
    stopped = λ w is_word k j h z.
        let gone =
          r.reached (run d w k) (run-IsClosed_le d w closed is_word k)
            (sym (run-Renumbers w is_word k) ∙ z) in
        Stops-Renumbers w is_word j (scanned.stopped w is_word k j h gone);
    no_attributes = r.zero_att ∙ scanned.no_attributes;
  }

abbrev pub shuffled_or : Dfa → Outcome Dfa → Dfa
shuffled_or d (done e) = e
shuffled_or d failed = d
shuffled_or d out_of_fuel = d

-- Where the assertions of dfa_shuffle hold, the automaton is numbered anew.
pub dfa_shuffle_done :
    (d : Dfa) (s : Walked)
    → walk_queues d.last_state d (1 ∷ []) first_walked ≡ done s
    → all_numbered d.last_state s.state_to ≡ true
    → dfa_shuffle d ≡ done (renumbered d s)
unfolding dfa_shuffle
dfa_shuffle_done d s walked all = rw (walked, all) refl

-- An automaton that dfa_shuffle gives can be scanned, and reports what the one before does.
pub dfa_shuffle_lem :
    (d d' : Dfa)
    → IsClosed d
    → IsScanned d
    → dfa_shuffle d ≡ done d'
    → IsScanned d'
      × ((w : Word)
          → IsWord w
          → ((v : ℕ) → Reports d' w v ↔ Reports d w v) × ((n : ℕ) → Stops d w n → Stops d' w n))
unfolding dfa_shuffle
dfa_shuffle_lem d d' closed scanned h =
    let (s, walked, is) = walk_lem d closed in
    elim (Bool-cases (all_numbered d.last_state s.state_to)) [
      | inr missing ↦
          let stop : ◌≡◌ {A = Outcome Dfa} failed (done d') = rw (walked, missing) at h in absurd cc
      | inl all ↦
          let same : renumbered d s ≡ d' =
            ap (shuffled_or d) (sym (dfa_shuffle_done d s walked all) ∙ h) in
          let r = renumbered-Renumbers d closed s is all in
          subst
            (λ e.
              IsScanned e
              × ((w : Word)
                  → IsWord w
                  → ((v : ℕ) → Reports e w v ↔ Reports d w v)
                    × ((n : ℕ) → Stops d w n → Stops e w n)))
            same
            (
              IsScanned-Renumbers s.state_to d (renumbered d s) closed r scanned,
              λ w is_word. (
                Reports-Renumbers s.state_to d (renumbered d s) closed r w is_word,
                Stops-Renumbers s.state_to d (renumbered d s) closed r w is_word,
              ),
            )
    ]
