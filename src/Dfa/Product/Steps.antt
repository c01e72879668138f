-- ===== src/Dfa/Product/Steps.antt =====
-- The steps of do_sync_product at a state: its attributes, a new state, and a transition that is
-- set.
use gnugo.Base.{
  ℕ, suc, ◌+◌, ◌≤◌, ◌<◌, ◌≡◌, ◌≢◌, ◌⊎◌, inl, inr, refl, sym, ap, ◌∙◌, arith, false, ◌&&◌, leb, ◌==◌,
  Bool-cases, ==→≡, List,
}
use gnugo.Dfa.{done, Dfa, put, no_state, resized, dfa_resize_step}
use gnugo.Dfa.Attributes.{
  Agrees, IsList, IsList-unique, AreLinked, HasRoom, HasRoom-Grows, union_att_lem, resize_dfa_lem,
  cleared-before, cleared-none, put-same, put-other,
}
use gnugo.Dfa.Product.{
  Product, set_att, set_next, with_state, new_test_array, create_state, unify_att,
}
use gnugo.Dfa.Automaton.{IsDfa}
use gnugo.Dfa.Product.Table.{Added, get-new_test_array, add_to_test_array_lem}
use gnugo.Dfa.Product.Invariant.{Inv, Advances, state_of, Attributed}

put-zero {ℓ} : {A : Type ℓ} (a : ℕ → A) (s : ℕ) (v : A) → 0 < s → put a s v 0 ≡ a 0
put-zero a s v h = put-other a s 0 v (ground arith)

put-before {ℓ} : {A : Type ℓ} (a : ℕ → A) (s i : ℕ) (v : A) → i < s → put a s v i ≡ a i
put-before a s i v h = put-other a s i v (ground arith)

att-set_att : (d : Dfa) (s a : ℕ) → ((set_att d s a).states s).att ≡ a
att-set_att d s a = ap (λ x. x.att) (put-same d.states s (record (d.states s) { att = a }))

Pair-cases : (l r m n : ℕ) → ((l ≡ m) × (r ≡ n)) ⊎ ((l == m && r == n) ≡ false)
Pair-cases l r m n = elim (Bool-cases (l == m)) [
  | inl e ↦ elim (Bool-cases (r == n)) [
    | inl f ↦ inl (==→≡ l m e, ==→≡ r n f)
    | inr f ↦ inr (rw (e, f) refl)
  ]
  | inr e ↦ inr (rw e refl)
]

module _ (left right : Dfa) where
  -- With another automaton that has the same number of states, and room.
  Inv-out :
      (p : Product) (d : Dfa)
      → Inv left right p
      → HasRoom d
      → d.last_state ≡ p.out.last_state
      → d.states 0 ≡ no_state
      → AreLinked d
      → Inv left right (record p { out = d })
  Inv-out p d i room same dead linked = record {
    linked = linked;
    positive = i.positive;
    room = room;
    bounded = λ l r. omega (arith, i.bounded l r);
    no_state_of_zeros = i.no_state_of_zeros;
    inside = i.inside;
    injective = i.injective;
    onto = λ s h k. i.onto s h (omega arith);
    dead = dead;
  }

  pub Inv-set_next :
      (p : Product) (s c x : ℕ)
      → 0 < s
      → Inv left right p
      → Inv left right (record p { out = set_next p.out s c x })
  Inv-set_next p s c x h i =
      Inv-out p (set_next p.out s c x) i i.room refl (put-zero p.out.states s _ h ∙ i.dead) i.linked

  -- `gpout->last_state++`
  room_for_state :
      (out : Dfa)
      → HasRoom out
      → (d : Dfa) × (with_state out ≡ done d)
        × HasRoom d
        × (d.last_state ≡ suc out.last_state)
        × ((k : ℕ) → k ≤ out.last_state → d.states k ≡ out.states k)
        × Agrees out.indexes d.indexes out.last_index
        × (d.last_index ≡ out.last_index)
  unfolding with_state
  room_for_state out (h, r) =
      let d = record out { last_state = suc out.last_state } in
      elim (Bool-cases (leb d.max_states d.last_state)) [
        | inl full ↦ (
          resized d (d.max_states + dfa_resize_step) d.max_indexes,
          rw full (resize_dfa_lem d _ _ (omega arith) (omega arith)),
          (omega arith, r),
          refl,
          λ k e. cleared-before _ d.max_states _ d.states k (omega arith),
          λ k e. ap (λ a. a k) (cleared-none _ d.max_indexes d.indexes),
          refl,
        )
        | inr more ↦ (d, rw more refl, (ground arith, r), refl, λ k e. refl, λ k e. refl, refl)
      ]

  pub unify_att_lem :
      (l r s : ℕ) (p : Product) (vs us : List ℕ)
      → Inv left right p
      → s ≡ p.out.last_state
      → 0 < s
      → IsList left.indexes (left.states l).att vs
      → IsList right.indexes (right.states r).att us
      → (p' : Product) × (unify_att left right l r s p ≡ done p')
        × Inv left right p'
        × Advances s p p'
        × (p'.test ≡ p.test)
        × (p'.out.last_state ≡ p.out.last_state)
        × Attributed left right p' l r s
  unfolding unify_att
  unify_att_lem l r s p vs us i last h e f =
      let (u, made, g, ls) =
        union_att_lem p.out left right (left.states l).att (right.states r).att vs us i.room
          i.linked e f in
      let d = set_att u.dfa s u.att in
      let within = ls.within in
      (
        record p { out = d },
        rw made refl,
        Inv-out p d i (HasRoom-Grows p.out u.dfa g i.room) g.same_last
            (put-zero u.dfa.states s _ h ∙ (rw (g.same_states) i.dead)) ls.linked,
        record {
          keeps = λ m n _. refl;
          fresh = λ m n z there. absurd (there z);
          agrees = g.agrees;
          longer = g.longer;
          more = omega (arith, g.same_last);
          older = λ k before. put-before u.dfa.states s k _ before ∙ (rw (g.same_states) refl);
        },
        refl,
        g.same_last,
        record {
          within = rw (att-set_att u.dfa s u.att) within;
          lists = λ vs' us' e' f'. rw (att-set_att u.dfa s u.att) (
              rw
                (
                  IsList-unique left.indexes (left.states l).att vs' vs e' e,
                  IsList-unique right.indexes (right.states r).att us' us f' f,
                )
                ls.list);
        },
      )

  module _ (nextl nextr : ℕ) (p q : Product) (i : Inv left right p)
      (new : state_of p nextl nextr ≡ 0) (last : q.out.last_state ≡ suc p.out.last_state)
      (a : Added p.test q.test nextl nextr q.out.last_state) where
    -- A pair of the larger table is the new one, or has the state that it had.
    Added-cases :
        (m n : ℕ)
        → ((nextl ≡ m)
            × (nextr ≡ n)
            × (state_of q m n ≡ suc p.out.last_state)
            × (state_of p m n ≡ 0))
          ⊎ (state_of q m n ≡ state_of p m n)
    Added-cases m n = elim (Pair-cases nextl nextr m n) [
      | inl (e, f) ↦ inl (e, f, rw (← e, ← f) (a.here ∙ last), rw (← e, ← f) new)
      | inr other ↦ inr (a.others m n other)
    ]

    injective-Added :
        (l r m n : ℕ) → state_of q l r ≢ 0 → state_of q l r ≡ state_of q m n → (l ≡ m) × (r ≡ n)
    injective-Added l r m n there same =
        let low_l = i.bounded l r in
        let low_m = i.bounded m n in
        elim (Added-cases l r) [
          | inl (e, f, top, _) ↦ elim (Added-cases m n) [
            | inl (e', f', _, _) ↦ (omega (arith, e, e'), omega (arith, f, f'))
            | inr old ↦ absurd (omega (arith, same, top, old))
          ]
          | inr old ↦ elim (Added-cases m n) [
            | inl (_, _, top, _) ↦ absurd (omega (arith, same, top, old))
            | inr old' ↦
                i.injective l r m n (λ z. there (omega (arith, z, old)))
                  (omega (arith, same, old, old'))
          ]
        ]

    Inv-Added :
        HasRoom q.out
        → AreLinked q.out
        → (nextl ≢ 0) ⊎ (nextr ≢ 0)
        → nextl ≤ left.last_state
        → nextr ≤ right.last_state
        → q.out.states 0 ≡ no_state
        → Inv left right q
    Inv-Added room linked some_state h k dead = record {
      linked = linked;
      positive = a.positive;
      room = room;
      bounded = λ m n. elim (Added-cases m n) [
        | inl (_, _, top, _) ↦ omega (arith, top)
        | inr old ↦ omega (arith, old, i.bounded m n)
      ];
      no_state_of_zeros = elim (Added-cases 0 0) [
        | inl (e, f, _, _) ↦ absurd (elim some_state [ inl x ↦ x e | inr y ↦ y f ])
        | inr old ↦ old ∙ i.no_state_of_zeros
      ];
      inside = λ m n there. elim (Added-cases m n) [
        | inl (e, f, _, _) ↦ (omega (arith, e), omega (arith, f))
        | inr old ↦ i.inside m n (λ z. there (old ∙ z))
      ];
      injective = injective-Added;
      onto = λ s h k. elim (Bool-cases (leb s p.out.last_state)) [
        | inl old ↦
            let (m, n, e) = i.onto s h (ground arith) in
            elim (Added-cases m n) [
              | inl (_, _, _, z) ↦ absurd (omega (arith, z, e))
              | inr same ↦ (m, n, same ∙ e)
            ]
        | inr top ↦ (nextl, nextr, ground (arith, a.here, last))
      ];
      dead = dead;
    }

    Advances-Added :
        Agrees p.out.indexes q.out.indexes p.out.last_index
        → q.out.last_index ≡ p.out.last_index
        → ((k : ℕ) → k ≤ p.out.last_state → q.out.states k ≡ p.out.states k)
        → Advances (suc p.out.last_state) p q
    Advances-Added same longer older = record {
      keeps = λ m n there. elim (Added-cases m n) [
        | inl (_, _, _, z) ↦ absurd (there z)
        | inr old ↦ old
      ];
      fresh = λ m n z there. elim (Added-cases m n) [
        | inl (_, _, top, _) ↦ omega (arith, top)
        | inr old ↦ absurd (there (old ∙ z))
      ];
      agrees = same;
      longer = omega arith;
      more = omega arith;
      older = λ k e. older k (omega arith);
    }

  -- A state is created for a pair that has none.
  pub create_state_lem :
      (nextl nextr : ℕ) (p : Product)
      → Inv left right p
      → state_of p nextl nextr ≡ 0
      → (nextl ≢ 0) ⊎ (nextr ≢ 0)
      → nextl ≤ left.last_state
      → nextr ≤ right.last_state
      → (q : Product) × (create_state nextl nextr p ≡ done q)
        × Inv left right q
        × Advances (suc p.out.last_state) p q
        × (q.out.last_state ≡ suc p.out.last_state)
        × (state_of q nextl nextr ≡ suc p.out.last_state)
  unfolding create_state
  create_state_lem nextl nextr p i new some_state h k =
      let (d, made, room, last, older, same, longer) = room_for_state p.out i.room in
      let (t, added, a) =
        add_to_test_array_lem p.test nextl nextr d.last_state i.positive (omega (arith, last))
          new in
      let q : Product = record { out = d; test = t } in
      (
        q,
        rw (made, added) refl,
        Inv-Added nextl nextr p q i new last a room
            (λ j e l. rw (same j (omega (arith, longer))) (i.linked j e (omega (arith, longer))))
            some_state h k (older 0 (omega arith) ∙ i.dead),
        Advances-Added nextl nextr p q i new last a same longer older,
        last,
        a.here ∙ last,
      )

  -- The table with the pair of the initial states.
  module _ (is_left : IsDfa left) (is_right : IsDfa right) (p : Product)
      (a : Added new_test_array p.test 1 1 1) where
    Initial-cases : (m n : ℕ) → (1 ≡ m) × (1 ≡ n) × (state_of p m n ≡ 1) ⊎ (state_of p m n ≡ 0)
    Initial-cases m n = elim (Pair-cases 1 1 m n) [
      | inl (e, f) ↦ inl (e, f, rw (← e, ← f) a.here)
      | inr other ↦ inr (a.others m n other ∙ get-new_test_array m n)
    ]

    pub Inv-initial :
        1 < p.out.max_states
        → p.out.last_index ≡ 0
        → p.out.last_index < p.out.max_indexes
        → p.out.last_state ≡ 1
        → p.out.states 0 ≡ no_state
        → Inv left right p
    Inv-initial roomy none index one dead = record {
      linked = λ j h l. absurd (omega arith);
      positive = a.positive;
      room = (omega arith, index);
      bounded = λ m n. elim (Initial-cases m n) [
        | inl (_, _, e) ↦ omega (arith, e)
        | inr e ↦ omega (arith, e)
      ];
      no_state_of_zeros = a.others 0 0 refl ∙ get-new_test_array 0 0;
      inside = λ m n there. elim (Initial-cases m n) [
        | inl (e, f, _) ↦ (omega (arith, e, is_left.started), omega (arith, f, is_right.started))
        | inr e ↦ absurd (there e)
      ];
      injective = λ l r m n there same. elim (Initial-cases l r) [
        | inl (e, f, _) ↦ elim (Initial-cases m n) [
          | inl (e', f', _) ↦ (sym e ∙ e', sym f ∙ f')
          | inr z ↦ absurd (there (same ∙ z))
        ]
        | inr z ↦ absurd (there z)
      ];
      onto = λ s h k. (1, 1, omega (arith, a.here));
      dead = dead;
    }
