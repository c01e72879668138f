-- ===== src/Dfa/Product/Transition.antt =====
-- One out-transition of a state of the product is set.
use gnugo.Base.{
  ℕ, suc, ◌≤◌, ◌<◌, ◌≡◌, ◌≢◌, ◌⊎◌, inl, inr, refl, sym, ap, ◌∙◌, arith, ◌==◌, Bool-cases, ==→≡,
  ==→≢,
}
use gnugo.Dfa.{Outcome, done, Dfa, put}
use gnugo.Dfa.Attributes.{put-same, put-other}
use gnugo.Dfa.Product.{Product, set_next}
use gnugo.Dfa.Product.Invariant.{
  Inv, Advances, state_of, Attributed, Linked, Done, Attributed-Advances, Linked-Advances,
  Done-Advances,
}
use gnugo.Dfa.Product.Steps.{Inv-set_next}
use gnugo.Dfa.Product.Unseen.{unseen}

att-set_next : (d : Dfa) (s c x i : ℕ) → ((set_next d s c x).states i).att ≡ (d.states i).att
att-set_next d s c x i = elim (Bool-cases (i == s)) [
  | inl e ↦ rw (e, ==→≡ i s e) refl
  | inr e ↦ rw e refl
]

states-set_next :
    (d : Dfa) (s c x : ℕ)
    → (set_next d s c x).states s ≡ record (d.states s) { next = put (d.states s).next c x }
states-set_next d s c x = put-same d.states s _

next-set_next : (d : Dfa) (s c x : ℕ) → ((set_next d s c x).states s).next c ≡ x
next-set_next d s c x =
    ap (λ a. a.next c) (states-set_next d s c x) ∙ put-same (d.states s).next c x

next-set_next-other :
    (d : Dfa) (s c x k : ℕ) → k ≢ c → ((set_next d s c x).states s).next k ≡ (d.states s).next k
next-set_next-other d s c x k h =
    ap (λ a. a.next k) (states-set_next d s c x)
    ∙ put-other (d.states s).next c k x (ground (arith, h))

Less-cases : (k c : ℕ) → k < suc c → (k ≡ c) ⊎ (k < c) × (k ≢ c)
Less-cases k c h = elim (Bool-cases (k == c)) [
  | inl e ↦ inl (==→≡ k c e)
  | inr e ↦ inr (omega (arith, ==→≢ k c e), ==→≢ k c e)
]

module _ (left right : Dfa) where
  -- What is true of the state `s` of the pair before its transition for `c`.
  pub record Loop (p : Product) (l r s c : ℕ) : Type 0 where
    pub inv : Inv left right p
    pub positive : 0 < s
    pub at_most : s ≤ p.out.last_state
    pub here : state_of p l r ≡ s
    pub attributed : Attributed left right p l r s
    pub linked : (k : ℕ) → k < c → Linked left right p l r s k

  -- All states behind `s` are finished.
  abbrev pub Finished : Product → ℕ → Type 0
  Finished p s = (m n : ℕ) → s < state_of p m n → Done left right p m n (state_of p m n)

  pub Loop-Advances :
      (b : ℕ) (p p' : Product) (l r s c : ℕ)
      → Inv left right p'
      → Advances b p p'
      → s < b
      → Loop p l r s c
      → Loop p' l r s c
  Loop-Advances b p p' l r s c i a h lo =
      let zeros = lo.inv.no_state_of_zeros ∙ sym i.no_state_of_zeros in
      let there : state_of p l r ≢ 0 = λ z. omega (arith, z, lo.here, lo.positive) in
      record {
        inv = i;
        positive = lo.positive;
        at_most = omega (arith, lo.at_most, a.more);
        here = a.keeps l r there ∙ lo.here;
        attributed =
            Attributed-Advances left right b p p' a zeros s (a.older s h) l r lo.attributed;
        linked =
            λ k e. Linked-Advances left right b p p' a zeros s (a.older s h) l r k (lo.linked k e);
      }

  module _ (p : Product) (s c x : ℕ) where
    abbrev pub set : Product
    set = record p { out = set_next p.out s c x }

    pub Advances-set_next : Advances s p set
    Advances-set_next = record {
      keeps = λ l r _. refl;
      fresh = λ l r z n. absurd (n z);
      agrees = λ i _. refl;
      longer = omega arith;
      more = omega arith;
      older = λ i h. put-other p.out.states s i _ (ground arith);
    }

    -- The transition is set, and nothing else.
    pub Loop-set_next :
        (l r : ℕ)
        → Loop p l r s c
        → x ≡ state_of p ((left.states l).next c) ((right.states r).next c)
        → (((left.states l).next c ≡ 0) × ((right.states r).next c ≡ 0)) ⊎ (x ≢ 0)
        → Loop set l r s (suc c)
    Loop-set_next l r lo e known = record {
      inv = Inv-set_next left right p s c x lo.positive lo.inv;
      positive = lo.positive;
      at_most = lo.at_most;
      here = lo.here;
      attributed = record {
        within = rw (att-set_next p.out s c x s) lo.attributed.within;
        lists = λ vs us f g. rw (att-set_next p.out s c x s) (lo.attributed.lists vs us f g);
      };
      linked = λ k h. elim (Less-cases k c h) [
        | inl same ↦ rw same (record {
          link = next-set_next p.out s c x ∙ e;
          known = elim known [ inl z ↦ inl z | inr n ↦ inr (λ z. n (e ∙ z)) ];
        })
        | inr (less, other) ↦ record {
          link = next-set_next-other p.out s c x k other ∙ (lo.linked k less).link;
          known = (lo.linked k less).known;
        }
      ];
    }

    pub Finished-set_next : Finished p s → Finished set s
    Finished-set_next f m n h =
        Done-Advances left right s p set Advances-set_next refl (state_of p m n)
          (put-other p.out.states s (state_of p m n) _ (ground arith)) m n (f m n h)

  -- What a call for the latest state does.
  abbrev pub Visits : ℕ → (ℕ → ℕ → Product → Outcome Product) → Type 0
  Visits fuel visit =
      (l r : ℕ) (p : Product)
      → Inv left right p
      → state_of p l r ≡ p.out.last_state
      → 0 < p.out.last_state
      → unseen p.test (suc left.last_state) (suc right.last_state) < fuel
      → (p' : Product) × (visit l r p ≡ done p')
        × Inv left right p'
        × Advances p.out.last_state p p'
        × ((m n : ℕ)
            → p.out.last_state ≤ state_of p' m n
            → Done left right p' m n (state_of p' m n))
