-- ===== src/Dfa/Product/Reports.antt =====
-- The product reports exactly what one of the two automata reports.
use gnugo.Base.{
  ℕ, zero, suc, ◌≤◌, ◌<◌, ◌≡◌, ◌≢◌, ◌⊎◌, ◌↔◌, inl, inr, refl, sym, ◌∙◌, arith, true, ◌||◌,
  Bool-cases, List, [],
}
use gnugo.Dfa.{done, Dfa, no_state}
use gnugo.Dfa.Attributes.{AreLinked, IsList, IsList-unique, elem, united, elem-united}
use gnugo.Dfa.Automaton.{IsDfa, Word, IsWord, run, run_le, silent, Reports, Stops}
use gnugo.Dfa.Product.{Product, sync_product}
use gnugo.Dfa.Product.Invariant.{Inv, state_of, Done}
use gnugo.Dfa.Product.Whole.{sync_product_ends}

module _ (left right : Dfa) (is_left : IsDfa left) (is_right : IsDfa right) (p : Product)
    (i : Inv left right p) (one : state_of p 1 1 ≡ 1)
    (done' : (m n : ℕ) → state_of p m n ≢ 0 → Done left right p m n (state_of p m n)) where
  module _ (s : ℕ) (h : 0 < s) (k : s ≤ p.out.last_state) where
    finished :
        (l : ℕ) × (r : ℕ) × (l ≤ left.last_state) × (r ≤ right.last_state) × Done left right p l r s
    finished =
        let (l, r, e) = i.onto s h k in
        let there : state_of p l r ≢ 0 = λ z. omega (arith, z, e) in
        let (in_l, in_r) = i.inside l r there in (l, r, in_l, in_r, rw (← e) (done' l r there))

    attributes-finished :
        ((p.out.states s).att ≤ p.out.last_index)
        × (vs : List ℕ) × IsList p.out.indexes (p.out.states s).att vs
    attributes-finished =
        let (l, r, in_l, in_r, d) = finished in
        let (_, vs, list_l) = is_left.attributes l in_l in
        let (_, us, list_r) = is_right.attributes r in_r in
        (d.attributed.within, united vs us, d.attributed.lists vs us list_l list_r)

    transitions-finished : (c : ℕ) → c < 4 → (p.out.states s).next c ≤ p.out.last_state
    transitions-finished c e =
        let (l, r, in_l, in_r, d) = finished in
        rw ((d.linked c e).link) (i.bounded ((left.states l).next c) ((right.states r).next c))

  attributes-out :
      (s : ℕ)
      → s ≤ p.out.last_state
      → ((p.out.states s).att ≤ p.out.last_index)
        × (vs : List ℕ) × IsList p.out.indexes (p.out.states s).att vs
  attributes-out zero k = rw (i.dead) (omega arith, [], refl)
  attributes-out (suc s) k = attributes-finished (suc s) (omega arith) k

  transitions-out :
      (s c : ℕ) → s ≤ p.out.last_state → c < 4 → (p.out.states s).next c ≤ p.out.last_state
  transitions-out zero c k e = rw (i.dead) (omega arith)
  transitions-out (suc s) c k e = transitions-finished (suc s) (omega arith) k c e

  pub IsDfa-out : IsDfa p.out
  IsDfa-out = record {
    started = omega (arith, i.bounded 1 1, one);
    room = i.room;
    attributes = attributes-out;
    transitions = transitions-out;
    dead = λ c e. rw (i.dead) refl;
    no_attributes = rw (i.dead) refl;
  }

  -- Both automata have stopped, or their pair has a state.
  abbrev Known : ℕ → ℕ → Type 0
  Known l r = ((l ≡ 0) × (r ≡ 0)) ⊎ (state_of p l r ≢ 0)

  step-out :
      (s l r c : ℕ)
      → c < 4
      → s ≡ state_of p l r
      → Known l r
      → let next_l = (left.states l).next c in
        let next_r = (right.states r).next c in
        ((p.out.states s).next c ≡ state_of p next_l next_r) × Known next_l next_r
  step-out s l r c h e known = elim known [
    | inl (zl, zr) ↦
        let dead_l : (left.states l).next c ≡ 0 = rw zl (is_left.dead c h) in
        let dead_r : (right.states r).next c ≡ 0 = rw zr (is_right.dead c h) in
        let stopped : s ≡ 0 = e ∙ (rw (zl, zr) i.no_state_of_zeros) in
        (rw (dead_l, dead_r, stopped, i.dead) (sym i.no_state_of_zeros), inl (dead_l, dead_r))
    | inr there ↦ let d = (done' l r there).linked c h in (rw e (d.link), d.known)
  ]

  module _ (w : Word) (is_word : IsWord w) where
    -- The product runs along with both automata.
    run-out :
        (k : ℕ)
        → (run p.out w k ≡ state_of p (run left w k) (run right w k))
          × Known (run left w k) (run right w k)
    unfolding run
    run-out zero = (sym one, inr (λ z. omega (arith, z, one)))
    run-out (suc k) =
        let (e, known) = run-out k in
        step-out (run p.out w k) (run left w k) (run right w k) (w k) (is_word k) e known

    pub Stops-out : (n : ℕ) → Stops left w n → Stops right w n → Stops p.out w n
    Stops-out n a b = let (e, _) = run-out n in e ∙ (rw (a, b) i.no_state_of_zeros)

    united-out :
        (k : ℕ) (vs us : List ℕ)
        → state_of p (run left w k) (run right w k) ≢ 0
        → IsList left.indexes (left.states (run left w k)).att vs
        → IsList right.indexes (right.states (run right w k)).att us
        → IsList p.out.indexes (p.out.states (run p.out w k)).att (united vs us)
    united-out k vs us there list_l list_r =
        let (e, _) = run-out k in
        rw e ((done' (run left w k) (run right w k) there).attributed.lists vs us list_l list_r)

    pub Reports-out : (v : ℕ) → Reports p.out w v ↔ (Reports left w v ⊎ Reports right w v)
    Reports-out v = (
      λ (k, zs, list, found).
          let (e, known) = run-out k in
          elim known [
            | inl (zl, zr) ↦ absurd (
                silent p.out IsDfa-out (run p.out w k) v zs (e ∙ (rw (zl, zr) i.no_state_of_zeros))
                  list found)
            | inr there ↦
                let (_, vs, list_l) = is_left.attributes _ (run_le left w is_left is_word k) in
                let (_, us, list_r) = is_right.attributes _ (run_le right w is_right is_word k) in
                let same =
                  IsList-unique p.out.indexes _ zs (united vs us) list
                    (united-out k vs us there list_l list_r) in
                let either : (elem v vs || elem v us) ≡ true =
                  sym (elem-united v vs us) ∙ (rw (← same) found) in
                elim (Bool-cases (elem v vs)) [
                  | inl in_left ↦ inl (k, vs, list_l, in_left)
                  | inr not_left ↦ inr (k, us, list_r, ground arith)
                ]
          ],
      λ either. elim either [
        | inl (k, vs, list_l, found) ↦
            let (_, known) = run-out k in
            let (_, us, list_r) = is_right.attributes _ (run_le right w is_right is_word k) in
            elim known [
              | inl (zl, _) ↦ absurd (silent left is_left (run left w k) v vs zl list_l found)
              | inr there ↦ (
                k,
                united vs us,
                united-out k vs us there list_l list_r,
                rw (elem-united v vs us, found) refl,
              )
            ]
        | inr (k, us, list_r, found) ↦
            let (_, known) = run-out k in
            let (_, vs, list_l) = is_left.attributes _ (run_le left w is_left is_word k) in
            elim known [
              | inl (_, zr) ↦ absurd (silent right is_right (run right w k) v us zr list_r found)
              | inr there ↦ (
                k,
                united vs us,
                united-out k vs us there list_l list_r,
                elem-united v vs us ∙ ground (arith, found),
              )
            ]
      ],
    )

-- A well-formed product of two well-formed automata, made in an automaton that has room for a
-- first state and whose state 0 is clear, ends without a failed assertion, leaves state 0 clear and
-- links its attributes to smaller ones, reports on every word exactly what one of the two reports; it stops where both do.
pub Reports-sync_product :
    (left right out : Dfa)
    → IsDfa left
    → IsDfa right
    → 1 < out.max_states
    → 0 < out.max_indexes
    → out.states 0 ≡ no_state
    → (d : Dfa) × (sync_product out left right ≡ done d)
      × IsDfa d
      × (d.states 0 ≡ no_state)
      × AreLinked d
      × ((w : Word)
          → IsWord w
          → ((v : ℕ) → Reports d w v ↔ (Reports left w v ⊎ Reports right w v))
            × ((n : ℕ) → Stops left w n → Stops right w n → Stops d w n))
Reports-sync_product left right out is_left is_right roomy index clear =
    let (p, e, i, one, done') =
      sync_product_ends left right is_left is_right out roomy index clear in
    (
      p.out,
      e,
      IsDfa-out left right is_left is_right p i one done',
      i.dead,
      i.linked,
      λ w h. (
        Reports-out left right is_left is_right p i one done' w h,
        Stops-out left right is_left is_right p i one done' w h,
      ),
    )
