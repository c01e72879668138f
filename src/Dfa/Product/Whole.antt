-- ===== src/Dfa/Product/Whole.antt =====
-- The whole product: do_sync_product ends, and the product reports what either automaton does.
use gnugo.Base.{
  ℕ, zero, suc, ◌+◌, ◌*◌, ◌≤◌, ◌<◌, ◌≡◌, ◌≢◌, inl, inr, refl, ap, subst, ◌∙◌, arith, ◌==◌,
  Bool-cases, ==→≡, ==→≢,
}
use gnugo.Dfa.{Outcome, done, Dfa, no_state}
use gnugo.Dfa.Automaton.{IsDfa}
use gnugo.Dfa.Product.{
  Product, get_from_test_array, new_test_array, out_transitions, do_sync_product, sync_product,
}
use gnugo.Dfa.Product.Invariant.{
  Inv, Advances, Advances-refl, Advances-trans, state_of, Attributed, Done,
}
use gnugo.Dfa.Product.Steps.{Inv-initial, unify_att_lem}
use gnugo.Dfa.Product.Table.{add_to_test_array_lem, get-new_test_array, IsPositive-new_test_array}
use gnugo.Dfa.Product.Transition.{Loop, Finished, Visits}
use gnugo.Dfa.Product.Unseen.{unseen_falls, unseen_le}
use gnugo.Dfa.Product.Visit.{left_over, left_over-Advances, out_transition_lem}

module _ (left right : Dfa) (is_left : IsDfa left) (is_right : IsDfa right) where
  -- The state of the pair, with its attributes, before the first transition.
  Loop-start :
      (l r : ℕ) (p p0 : Product)
      → Inv left right p
      → Inv left right p0
      → state_of p l r ≡ p.out.last_state
      → 0 < p.out.last_state
      → p0.test ≡ p.test
      → p0.out.last_state ≡ p.out.last_state
      → Attributed left right p0 l r p.out.last_state
      → Loop left right p0 l r p.out.last_state 0 × Finished left right p0 p.out.last_state
  Loop-start l r p p0 i i0 here pos same last at = (
    record {
      inv = i0;
      positive = pos;
      at_most = omega arith;
      here = ap (λ t. get_from_test_array t l r) same ∙ here;
      attributed = at;
      linked = λ k h. absurd (omega arith);
    },
    λ m n h. absurd (omega (arith, i0.bounded m n)),
  )

  -- And after the last one.
  Done-end :
      (l r s : ℕ) (p : Product)
      → Loop left right p l r s 4
      → Finished left right p s
      → (m n : ℕ) → s ≤ state_of p m n
      → Done left right p m n (state_of p m n)
  Done-end l r s p lo f m n h = elim (Bool-cases (s == state_of p m n)) [
    | inl e ↦
        let same = ==→≡ s (state_of p m n) e in
        let (el, er) =
          lo.inv.injective l r m n (λ z. omega (arith, z, lo.here, lo.positive)) (lo.here ∙ same) in
        rw (← same, ← el, ← er) (record { attributed = lo.attributed; linked = lo.linked })
    | inr e ↦ f m n (omega (arith, ==→≢ s (state_of p m n) e))
  ]

  out_transitions_lem :
      (fuel : ℕ) (visit : ℕ → ℕ → Product → Outcome Product)
      → Visits left right fuel visit
      → (l r s : ℕ) → l ≤ left.last_state
      → r ≤ right.last_state
      → (n c : ℕ) (p : Product) → n + c ≡ 4
      → Loop left right p l r s c
      → Finished left right p s
      → left_over left right is_left is_right p ≤ fuel
      → (p' : Product) × (out_transitions visit left right l r s n c p ≡ done p')
        × Loop left right p' l r s 4
        × Finished left right p' s
        × Advances s p p'
  unfolding out_transitions
  out_transitions_lem fuel visit visits l r s in_l in_r zero c p last lo f enough =
      (p, refl, subst (λ k. Loop left right p l r s k) (omega arith) lo, f, Advances-refl s p)
  out_transitions_lem fuel visit visits l r s in_l in_r (suc n) c p last lo f enough =
      let (p1, e1, (lo1, f1, a1)) =
        out_transition_lem left right is_left is_right fuel visit visits l r s c in_l in_r
          (omega arith) p lo f enough in
      let less = left_over-Advances left right is_left is_right s p p1 a1 in
      let (p2, e2, lo2, f2, a2) =
        out_transitions_lem fuel visit visits l r s in_l in_r n (suc c) p1 (omega arith) lo1 f1
          (omega arith) in
      (p2, rw e1 e2, lo2, f2, Advances-trans s s p p1 p2 (omega arith) a1 a2)

  pub do_sync_product_lem : (fuel : ℕ) → Visits left right fuel (do_sync_product fuel left right)
  unfolding do_sync_product
  do_sync_product_lem zero l r p i here pos enough = absurd (omega arith)
  do_sync_product_lem (suc fuel) l r p i here pos enough =
      let s = p.out.last_state in
      let (in_l, in_r) = i.inside l r (λ z. omega (arith, z, here)) in
      let (_, vs, list_l) = is_left.attributes l in_l in
      let (_, us, list_r) = is_right.attributes r in_r in
      let (p0, e0, i0, a0, same, last, at) =
        unify_att_lem left right l r s p vs us i refl pos list_l list_r in
      let (lo0, f0) = Loop-start l r p p0 i i0 here pos same last at in
      let less = left_over-Advances left right is_left is_right s p p0 a0 in
      let (p', e, lo, f, a) =
        out_transitions_lem fuel (do_sync_product fuel left right) (do_sync_product_lem fuel) l r s
          in_l in_r 4 0 p0 refl lo0 f0 (omega arith) in
      (p', rw e0 e, lo.inv, Advances-trans s s p p0 p' (omega arith) a0 a, Done-end l r s p' lo f)

  module _ (out : Dfa) (roomy : 1 < out.max_states) (index : 0 < out.max_indexes)
      (clear : out.states 0 ≡ no_state) where
    -- sync_product ends, and no assertion fails.
    pub sync_product_ends :
        (p : Product) × (sync_product out left right ≡ done p.out)
        × Inv left right p
        × (state_of p 1 1 ≡ 1)
        × ((m n : ℕ) → state_of p m n ≢ 0 → Done left right p m n (state_of p m n))
    unfolding sync_product
    sync_product_ends =
        let (t, added, a) =
          add_to_test_array_lem new_test_array 1 1 1 IsPositive-new_test_array (omega arith)
            (get-new_test_array 1 1) in
        let p : Product = record {
          out = record out { last_index = 0; last_state = 1 };
          test = t;
        } in
        let i = Inv-initial left right is_left is_right p a roomy refl index refl clear in
        let enough =
          unseen_falls new_test_array t (λ m n k. absurd (k (get-new_test_array m n))) 1 1
            (get-new_test_array 1 1) (λ z. omega (arith, z, a.here)) (suc left.last_state)
            (suc right.last_state) (omega (arith, is_left.started))
            (omega (arith, is_right.started)) in
        let most = unseen_le new_test_array (suc left.last_state) (suc right.last_state) in
        let (p', e, i', a', done') =
          do_sync_product_lem (suc left.last_state * suc right.last_state) 1 1 p i a.here
            (omega arith) (omega arith) in
        (
          p',
          rw (added, e) refl,
          i',
          a'.keeps 1 1 (λ z. omega (arith, z, a.here)) ∙ a.here,
          λ m n h. done' m n (ground (arith, h)),
        )
