-- ===== src/Dfa/Product/Visit.antt =====
-- do_sync_product visits all pairs of states that can be reached, and finishes each.
use gnugo.Base.{
  ℕ, suc, ◌≤◌, ◌<◌, ◌≡◌, ◌≢◌, ◌⊎◌, inl, inr, refl, sym, ◌∙◌, arith, true, ◌&&◌, leb, ◌==◌,
  Bool-cases, ==→≡, ==→≢,
}
use gnugo.Dfa.{Outcome, done, Dfa}
use gnugo.Dfa.Attributes.{put-other}
use gnugo.Dfa.Automaton.{IsDfa}
use gnugo.Dfa.Product.{Product, out_transition}
use gnugo.Dfa.Product.Invariant.{
  Inv, Advances, Advances-trans, Advances-weaken, state_of, Done, Done-Advances,
}
use gnugo.Dfa.Product.Steps.{create_state_lem}
use gnugo.Dfa.Product.Transition.{
  Loop, Finished, Loop-Advances, set, Advances-set_next, Loop-set_next, Finished-set_next, Visits,
}
use gnugo.Dfa.Product.Unseen.{unseen, unseen_anti, unseen_falls}

module _ (left right : Dfa) (is_left : IsDfa left) (is_right : IsDfa right) where
  abbrev pub left_over : Product → ℕ
  left_over p = unseen p.test (suc left.last_state) (suc right.last_state)

  pub left_over-Advances : (b : ℕ) (p q : Product) → Advances b p q → left_over q ≤ left_over p
  left_over-Advances b p q a =
      unseen_anti p.test q.test (λ l r n z. n (sym (a.keeps l r n) ∙ z)) (suc left.last_state)
        (suc right.last_state)

  module _ (fuel : ℕ) (visit : ℕ → ℕ → Product → Outcome Product)
      (visits : Visits left right fuel visit) (l r s c : ℕ) (in_left : l ≤ left.last_state)
      (in_right : r ≤ right.last_state) (is_color : c < 4) (p : Product)
      (lo : Loop left right p l r s c) (f : Finished left right p s) where
    abbrev nextl : ℕ
    nextl = (left.states l).next c

    abbrev nextr : ℕ
    nextr = (right.states r).next c

    abbrev pub Step : (p' : Product) → Type 0
    Step p' = Loop left right p' l r s (suc c) × Finished left right p' s × Advances s p p'

    -- Where the transition is set without a new state.
    Step-set :
        (x : ℕ)
        → x ≡ state_of p nextl nextr
        → ((nextl ≡ 0) × (nextr ≡ 0)) ⊎ (x ≢ 0)
        → Step (set left right p s c x)
    Step-set x e known = (
      Loop-set_next left right p s c x l r lo e known,
      Finished-set_next left right p s c x f,
      Advances-set_next left right p s c x,
    )

    module _ (q : Product) (iq : Inv left right q) (aq : Advances (suc p.out.last_state) p q)
        (last : q.out.last_state ≡ suc p.out.last_state)
        (here : state_of q nextl nextr ≡ suc p.out.last_state) where
      abbrev q1 : Product
      q1 = set left right q s c q.out.last_state

      linked_new : Loop left right q1 l r s (suc c)
      linked_new =
          Loop-set_next left right q s c q.out.last_state l r
            (Loop-Advances left right (suc p.out.last_state) p q l r s c iq aq
              (omega (arith, lo.at_most)) lo)
            (last ∙ sym here) (inr (λ z. omega (arith, z, last)))

      Advances-new : Advances s p q1
      Advances-new =
          Advances-trans s s p q q1 (omega arith)
            (Advances-weaken s (suc p.out.last_state) p q (omega (arith, lo.at_most)) aq)
            (Advances-set_next left right q s c q.out.last_state)

      -- And the new state is visited.
      Step-visit :
          (p' : Product)
          → Inv left right p'
          → Advances q.out.last_state q1 p'
          → ((m n : ℕ)
              → q.out.last_state ≤ state_of p' m n
              → Done left right p' m n (state_of p' m n))
          → Step p'
      Step-visit p' i' a' done' =
          let a =
            Advances-trans s q.out.last_state p q1 p' (omega (arith, lo.at_most, last)) Advances-new
              a' in
          (
            Loop-Advances left right q.out.last_state q1 p' l r s (suc c) i' a'
                (omega (arith, lo.at_most, last)) linked_new,
            λ m n h. elim (Bool-cases (leb q.out.last_state (state_of p' m n))) [
              | inl new ↦ done' m n (ground arith)
              | inr old ↦
                  let below : state_of p' m n < q.out.last_state = ground arith in
                  let known : state_of p m n ≢ 0 =
                    λ z. omega (arith, a.fresh m n z (λ y. omega (arith, y, h)), below, last) in
                  let kept = a.keeps m n known in
                  rw kept (
                    Done-Advances left right s p p' a
                      (lo.inv.no_state_of_zeros ∙ sym i'.no_state_of_zeros) (state_of p m n)
                      (a'.older (state_of p m n) (omega (arith, kept, below))
                        ∙ put-other q.out.states s (state_of p m n) _ (ground (arith, kept, h))
                        ∙ aq.older (state_of p m n) (omega (arith, kept, below, last)))
                      m n (f m n (omega (arith, kept, h))))
            ],
            a,
          )

    pub out_transition_lem :
        left_over p ≤ fuel
        → (p' : Product) × (out_transition visit left right l r s c p ≡ done p') × Step p'
    unfolding out_transition
    out_transition_lem enough =
        let low_l = is_left.transitions l c in_left is_color in
        let low_r = is_right.transitions r c in_right is_color in
        let no_failure : (leb nextl left.last_state && leb nextr right.last_state) ≡ true =
          ground arith in
        elim (Bool-cases (nextl == 0 && nextr == 0)) [
          | inl none_left ↦
              let zero_l : nextl ≡ 0 = ground arith in
              let zero_r : nextr ≡ 0 = ground arith in
              (
                set left right p s c 0,
                rw (no_failure, none_left) refl,
                Step-set 0 (rw (zero_l, zero_r) (sym lo.inv.no_state_of_zeros))
                    (inl (zero_l, zero_r)),
              )
          | inr some_left ↦ elim (Bool-cases (state_of p nextl nextr == 0)) [
            | inr there ↦ (
              set left right p s c (state_of p nextl nextr),
              rw (no_failure, some_left, there) refl,
              Step-set (state_of p nextl nextr) refl (inr (==→≢ _ 0 there)),
            )
            | inl new ↦
                let absent = ==→≡ _ 0 new in
                let (q, made, iq, aq, last, here) =
                  create_state_lem left right nextl nextr p lo.inv absent (ground arith) low_l
                    low_r in
                let lq = linked_new q iq aq last here in
                let fewer =
                  unseen_falls p.test q.test (λ m n k z. k (sym (aq.keeps m n k) ∙ z)) nextl nextr
                    absent (λ z. omega (arith, z, here)) (suc left.last_state)
                    (suc right.last_state) (omega arith) (omega arith) in
                let (p', visited, i', a', done') =
                  visits nextl nextr (q1 q iq aq last here) lq.inv (here ∙ sym last)
                    (omega (arith, last)) (omega arith) in
                (
                  p',
                  rw (no_failure, some_left, new, made) visited,
                  Step-visit q iq aq last here p' i' a' done',
                )
          ]
        ]
