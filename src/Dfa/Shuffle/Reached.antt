-- ===== src/Dfa/Shuffle/Reached.antt =====
-- dfa_shuffle on an automaton without useless states.
use gnugo.Base.{
  ℕ, zero, suc, ◌≤◌, ◌≡◌, ◌≢◌, ◌↔◌, inl, inr, refl, subst, ◌∙◌, arith, Bool-cases, ==→≡, true, ◌==◌,
  [], ◌∷◌,
}
use gnugo.Dfa.{done, Dfa}
use gnugo.Dfa.Automaton.{IsScanned, Word, IsWord, run, run-suc, Reports, Stops}
use gnugo.Dfa.Shuffle.{Walked, first_walked, all_numbered, renumbered, dfa_shuffle}
use gnugo.Dfa.Shuffle.Explored.{IsMarked, Explores, walk_queues-Explores}
use gnugo.Dfa.Shuffle.Numbering.{IsClosed, walk_lem}
use gnugo.Dfa.Shuffle.Renumbered.{dfa_shuffle_done, dfa_shuffle_lem}

-- Some word leads to each state.
abbrev pub AreReached : Dfa → Type 0
AreReached d =
    (i : ℕ) → 1 ≤ i → i ≤ d.last_state → (w : Word) × IsWord w × (k : ℕ) × (run d w k ≡ i)

module _ (d : Dfa) (closed : IsClosed d) (s : Walked) where
  IsMarked-run :
      Explores d s [] → s.state_to 1 ≢ 0 → (w : Word) → IsWord w → (k : ℕ) → IsMarked s (run d w k)
  unfolding run
  IsMarked-run all first w is_word zero = inr first
  IsMarked-run all first w is_word (suc k) = elim (Bool-cases (run d w k == 0)) [
    | inl e ↦ inl (run-suc d w k 0 (==→≡ (run d w k) 0 e) ∙ closed.dead (w k) (is_word k))
    | inr e ↦ elim (IsMarked-run all first w is_word k) [
      | inl z ↦ absurd (ground (arith, e, z))
      | inr m ↦ elim (all (run d w k) m) [
        | inl waits ↦ absurd cc
        | inr explored ↦ explored (w k) (is_word k)
      ]
    ]
  ]

  all_numbered-true :
      (n : ℕ) → ((i : ℕ) → 1 ≤ i → i ≤ n → s.state_to i ≢ 0) → all_numbered n s.state_to ≡ true
  unfolding all_numbered
  all_numbered-true zero h = refl
  all_numbered-true (suc n) h = ground (
    arith,
    h (suc n) (omega arith) (omega arith),
    all_numbered-true n (λ i low high. h i low (omega arith)),
  )

-- On an automaton whose transitions lead to its states, that can be scanned, and each of whose states
-- some word leads to, dfa_shuffle ends, its assertions hold, and the automaton that it gives can be
-- scanned, reports on every word what the one before does, and stops where that one does.
pub Reports-dfa_shuffle :
    (d : Dfa)
    → IsClosed d
    → IsScanned d
    → AreReached d
    → (d' : Dfa) × (dfa_shuffle d ≡ done d')
      × IsScanned d'
      × ((w : Word)
          → IsWord w
          → ((v : ℕ) → Reports d' w v ↔ Reports d w v) × ((n : ℕ) → Stops d w n → Stops d' w n))
Reports-dfa_shuffle d closed scanned reached =
    let (s, walked, is) = walk_lem d closed in
    let (_, all) =
      walk_queues-Explores d d.last_state (1 ∷ []) first_walked s (omega arith)
        (λ m h. inl (ground (arith, h))) walked in
    let first : s.state_to 1 ≢ 0 = λ z. omega (arith, z, is.first) in
    let numbered : all_numbered d.last_state s.state_to ≡ true =
      all_numbered-true d closed s d.last_state (λ i low high.
        let (w, is_word, k, there) = reached i low high in
        elim (IsMarked-run d closed s all first w is_word k) [
          | inl z ↦ absurd (omega (arith, z, there, low))
          | inr m ↦ subst (λ x. s.state_to x ≢ 0) there m
        ]) in
    let ends = dfa_shuffle_done d s walked numbered in
    let (scanned', kept) = dfa_shuffle_lem d (renumbered d s) closed scanned ends in
    (renumbered d s, ends, scanned', kept)
