-- ===== src/Dfa/Product/Invariant.antt =====
-- What do_sync_product keeps true of the product, and which states are done.
use gnugo.Base.{
  ℕ, ◌≤◌, ◌<◌, ◌≡◌, ◌≢◌, ◌⊎◌, inl, inr, refl, ◌∙◌, arith, ◌==◌, Bool-cases, ==→≡, List,
}
use gnugo.Dfa.{Dfa, no_state}
use gnugo.Dfa.Attributes.{Agrees, IsList, IsList-Agrees, HasRoom, united, AreLinked}
use gnugo.Dfa.Product.{Product, get_from_test_array}
use gnugo.Dfa.Product.Table.{IsPositive}

-- The state of a pair, or 0.
abbrev pub state_of : Product → ℕ → ℕ → ℕ
state_of p l r = get_from_test_array p.test l r

pub record Inv (left right : Dfa) (p : Product) : Type 0 where
  pub positive : IsPositive p.test
  pub room : HasRoom p.out
  pub bounded : (l r : ℕ) → state_of p l r ≤ p.out.last_state
  pub no_state_of_zeros : state_of p 0 0 ≡ 0
  pub inside : (l r : ℕ) → state_of p l r ≢ 0 → (l ≤ left.last_state) × (r ≤ right.last_state)
  pub injective :
      (l r m n : ℕ) → state_of p l r ≢ 0 → state_of p l r ≡ state_of p m n → (l ≡ m) × (r ≡ n)
  pub onto : (s : ℕ) → 0 < s → s ≤ p.out.last_state → (l : ℕ) × (r : ℕ) × (state_of p l r ≡ s)
  pub linked : AreLinked p.out
  pub dead : p.out.states 0 ≡ no_state

-- The states before `b` and the attributes are as they were; new pairs have new states.
pub record Advances (b : ℕ) (p p' : Product) : Type 0 where
  pub keeps : (l r : ℕ) → state_of p l r ≢ 0 → state_of p' l r ≡ state_of p l r
  pub fresh :
      (l r : ℕ) → state_of p l r ≡ 0 → state_of p' l r ≢ 0 → p.out.last_state < state_of p' l r
  pub agrees : Agrees p.out.indexes p'.out.indexes p.out.last_index
  pub longer : p.out.last_index ≤ p'.out.last_index
  pub more : p.out.last_state ≤ p'.out.last_state
  pub older : (i : ℕ) → i < b → p'.out.states i ≡ p.out.states i

Zero-cases : (a : ℕ) → (a ≡ 0) ⊎ (a ≢ 0)
Zero-cases a = elim (Bool-cases (a == 0)) [
  | inl e ↦ inl (==→≡ a 0 e)
  | inr e ↦ inr (λ z. ground arith)
]

pub Advances-refl : (b : ℕ) (p : Product) → Advances b p p
Advances-refl b p = record {
  keeps = λ l r _. refl;
  fresh = λ l r z n. absurd (n z);
  agrees = λ i _. refl;
  longer = omega arith;
  more = omega arith;
  older = λ i _. refl;
}

pub Advances-trans :
    (b c : ℕ) (p q s : Product) → b ≤ c → Advances b p q → Advances c q s → Advances b p s
Advances-trans b c p q s h a k = record {
  keeps = λ l r n. k.keeps l r (λ z. n (omega (arith, a.keeps l r n, z))) ∙ a.keeps l r n;
  fresh = λ l r z n. elim (Zero-cases (state_of q l r)) [
    | inl none_yet ↦ omega (arith, k.fresh l r none_yet n, a.more)
    | inr there ↦ omega (arith, k.keeps l r there, a.fresh l r z there)
  ];
  agrees = λ i e. rw (k.agrees i (omega (arith, a.longer)), a.agrees i e) refl;
  longer = omega (arith, a.longer, k.longer);
  more = omega (arith, a.more, k.more);
  older = λ i e. rw (k.older i (omega arith), a.older i e) refl;
}

pub Advances-weaken : (b c : ℕ) (p q : Product) → b ≤ c → Advances c p q → Advances b p q
Advances-weaken b c p q h a = record {
  keeps = a.keeps;
  fresh = a.fresh;
  agrees = a.agrees;
  longer = a.longer;
  more = a.more;
  older = λ i e. a.older i (omega arith);
}

module _ (left right : Dfa) where
  -- The state `s` lists the attributes of both states.
  pub record Attributed (p : Product) (l r s : ℕ) : Type 0 where
    pub within : (p.out.states s).att ≤ p.out.last_index
    pub lists :
        (vs us : List ℕ)
        → IsList left.indexes (left.states l).att vs
        → IsList right.indexes (right.states r).att us
        → IsList p.out.indexes (p.out.states s).att (united vs us)

  -- Its transition leads to the pair of the transitions.
  pub record Linked (p : Product) (l r s c : ℕ) : Type 0 where
    pub link :
        (p.out.states s).next c ≡ state_of p ((left.states l).next c) ((right.states r).next c)
    pub known :
        (((left.states l).next c ≡ 0) × ((right.states r).next c ≡ 0))
        ⊎ (state_of p ((left.states l).next c) ((right.states r).next c) ≢ 0)

  pub record Done (p : Product) (l r s : ℕ) : Type 0 where
    pub attributed : Attributed p l r s
    pub linked : (c : ℕ) → c < 4 → Linked p l r s c

  module _ (b : ℕ) (p p' : Product) (a : Advances b p p') (zeros : state_of p 0 0 ≡ state_of p' 0 0)
      (s : ℕ) (same : p'.out.states s ≡ p.out.states s) (l r : ℕ) where
    pub Attributed-Advances : Attributed p l r s → Attributed p' l r s
    Attributed-Advances d = record {
      within = rw same (omega (arith, d.within, a.longer));
      lists = λ vs us e f. rw same (
          IsList-Agrees p.out.indexes p'.out.indexes p.out.last_index (p.out.states s).att _
            (λ i k. a.agrees i k) d.within (d.lists vs us e f));
    }

    pub Linked-Advances : (c : ℕ) → Linked p l r s c → Linked p' l r s c
    Linked-Advances c d = elim d.known [
      | inl (e, f) ↦ record { link = rw (same, d.link, e, f) zeros; known = inl (e, f) }
      | inr there ↦
          let kept = a.keeps ((left.states l).next c) ((right.states r).next c) there in
          record {
            link = rw (same, d.link) (omega (arith, kept));
            known = inr (λ z. there (omega (arith, kept, z)));
          }
    ]

    pub Done-Advances : Done p l r s → Done p' l r s
    Done-Advances d = record {
      attributed = Attributed-Advances d.attributed;
      linked = λ c k. Linked-Advances c (d.linked c k);
    }
