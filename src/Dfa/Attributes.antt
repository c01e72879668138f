-- ===== src/Dfa/Attributes.antt =====
-- The linked lists of attributes, and what member_att and union_att do with them.
use gnugo.Base.{
  ℕ, zero, suc, ◌+◌, ◌≤◌, ◌<◌, ◌≡◌, inl, inr, refl, ap, subst, fun_ext, arith, Bool, true, false,
  ◌||◌, ◌==◌, leb, if◌then◌else◌, Bool-cases, ==→≡, List, [], ◌∷◌, ◌++◌,
}
use gnugo.Dfa.{
  done, Attrib, Dfa, put, cleared, resized, dfa_resize_step, Listed, resize_dfa, next_index,
  push_att, member_loop, member_att, copy_loop, add_new, merge_loop, union_att,
}

-- The values that are linked from an attribute on. Links go to smaller indices.
abbrev pub IsList : (ℕ → Attrib) → ℕ → List ℕ → Type 0
IsList indexes att [] = att ≡ 0
IsList indexes att (v ∷ vs) =
    (0 < att)
    × ((indexes att).val ≡ v)
    × ((indexes att).next < att)
    × IsList indexes (indexes att).next vs

pub IsList-unique :
    (indexes : ℕ → Attrib) (att : ℕ) (vs us : List ℕ)
    → IsList indexes att vs
    → IsList indexes att us
    → vs ≡ us
IsList-unique indexes att [] [] p q = refl
IsList-unique indexes att [] (u ∷ us) p q = absurd (omega (arith, p, q.0))
IsList-unique indexes att (v ∷ vs) [] p q = absurd (omega (arith, q, p.0))
IsList-unique indexes att (v ∷ vs) (u ∷ us) (_, a, _, p) (_, b, _, q) =
    rw (← a, ← b) (ap (λ l. (indexes att).val ∷ l) (IsList-unique indexes _ vs us p q))

pub IsList-cons :
    (indexes : ℕ → Attrib) (att v next : ℕ) (vs : List ℕ)
    → indexes att ≡ record { val = v; next = next }
    → next < att
    → IsList indexes next vs
    → IsList indexes att (v ∷ vs)
IsList-cons indexes att v next vs e h p = rw e (omega arith, refl, h, p)

-- The entries up to `last` are the same.
abbrev pub Agrees : (indexes indexes' : ℕ → Attrib) → ℕ → Type 0
Agrees indexes indexes' last = (i : ℕ) → i ≤ last → indexes' i ≡ indexes i

pub IsList-Agrees :
    (indexes indexes' : ℕ → Attrib) (last att : ℕ) (vs : List ℕ)
    → Agrees indexes indexes' last
    → att ≤ last
    → IsList indexes att vs
    → IsList indexes' att vs
IsList-Agrees indexes indexes' last att [] same h p = p
IsList-Agrees indexes indexes' last att (v ∷ vs) same h (a, b, c, p) =
    rw (same att h)
      (a, b, c, IsList-Agrees indexes indexes' last (indexes att).next vs same (omega arith) p)

abbrev pub elem : ℕ → List ℕ → Bool
elem v [] = false
elem v (u ∷ us) = u == v || elem v us

pub elem-append : (v : ℕ) (vs us : List ℕ) → elem v (vs ++ us) ≡ (elem v vs || elem v us)
elem-append v [] us = refl
elem-append v (x ∷ vs) us = rw (elem-append v vs us) (ground arith)

-- What member_att finds.
pub member_loop_lem :
    (fuel : ℕ) (indexes : ℕ → Attrib) (att val : ℕ) (vs : List ℕ)
    → att ≤ fuel
    → IsList indexes att vs
    → member_loop fuel indexes att val ≡ done (elem val vs)
unfolding member_loop
member_loop_lem fuel indexes zero val [] h p = refl
member_loop_lem fuel indexes zero val (v ∷ vs) h p = absurd (omega (arith, p.0))
member_loop_lem fuel indexes (suc att) val [] h p = absurd (omega (arith, p))
member_loop_lem zero indexes (suc att) val (v ∷ vs) h p = absurd (omega arith)
member_loop_lem (suc fuel) indexes (suc att) val (v ∷ vs) h (_, b, c, p) =
    let rest = member_loop_lem fuel indexes _ val vs (omega arith) p in
    rw (rest, b) (elim (Bool-cases (v == val)) [ inl e ↦ rw e refl | inr e ↦ rw e refl ])

-- The later entries are as they were, or there are more of them, and no state changed.
pub record Grows (d d' : Dfa) : Type 0 where
  pub agrees : Agrees d.indexes d'.indexes d.last_index
  pub longer : d.last_index ≤ d'.last_index
  pub room : d'.last_index < d'.max_indexes
  pub same_states : d'.states ≡ d.states
  pub same_last : d'.last_state ≡ d.last_state
  pub same_max : d'.max_states ≡ d.max_states

abbrev pub HasRoom : Dfa → Type 0
HasRoom d = (d.last_state < d.max_states) × (d.last_index < d.max_indexes)

pub Grows-refl : (d : Dfa) → HasRoom d → Grows d d
Grows-refl d (h, r) = record {
  agrees = λ i _. refl;
  longer = omega arith;
  room = r;
  same_states = refl;
  same_last = refl;
  same_max = refl;
}

pub Grows-trans : (d d' d'' : Dfa) → Grows d d' → Grows d' d'' → Grows d d''
Grows-trans d d' d'' g k = record {
  agrees = λ i h. rw (k.agrees i (omega (arith, g.longer)), g.agrees i h) refl;
  longer = omega (arith, g.longer, k.longer);
  room = k.room;
  same_states = rw (k.same_states) g.same_states;
  same_last = rw (k.same_last) g.same_last;
  same_max = rw (k.same_max) g.same_max;
}

pub HasRoom-Grows : (d d' : Dfa) → Grows d d' → HasRoom d → HasRoom d'
HasRoom-Grows d d' g h = (omega (arith, g.same_last, g.same_max, h.0), g.room)

pub resize_dfa_lem :
    (d : Dfa) (max_states max_indexes : ℕ)
    → d.last_state ≤ d.max_states
    → d.last_index ≤ d.max_indexes
    → resize_dfa d max_states max_indexes ≡ done (resized d max_states max_indexes)
unfolding resize_dfa
resize_dfa_lem d max_states max_indexes h k = ground arith

-- Only what is behind `from` is cleared.
pub cleared-before {ℓ} :
    {A : Type ℓ} (blank : A) (from to : ℕ) (a : ℕ → A) (i : ℕ)
    → i < from
    → cleared blank from to a i ≡ a i
cleared-before blank from to a i h = ground arith

pub cleared-within {ℓ} :
    {A : Type ℓ} (blank : A) (from to : ℕ) (a : ℕ → A) (i : ℕ)
    → from ≤ i
    → i < to
    → cleared blank from to a i ≡ blank
cleared-within blank from to a i h k = ground arith

pub cleared-none {ℓ} :
    {A : Type ℓ} (blank : A) (from : ℕ) (a : ℕ → A) → cleared blank from from a ≡ a
cleared-none blank from a = fun_ext (λ i. ground arith)

pub next_index_lem :
    (d : Dfa)
    → HasRoom d
    → (d' : Dfa) × (next_index d ≡ done d') × Grows d d' × (d'.last_index ≡ suc d.last_index)
unfolding next_index
next_index_lem d (h, r) =
    let d' = record d { last_index = suc d.last_index } in
    elim (Bool-cases (leb d.max_indexes (suc d.last_index))) [
      | inl full ↦ (
        resized d' d.max_states (d.max_indexes + dfa_resize_step),
        rw full (resize_dfa_lem d' _ _ (omega arith) (omega arith)),
        record {
          agrees = λ i k. cleared-before _ d.max_indexes _ d.indexes i (omega arith);
          longer = omega arith;
          room = omega arith;
          same_states = cleared-none _ d.max_states d.states;
          same_last = refl;
          same_max = refl;
        },
        refl,
      )
      | inr more ↦ (
        d',
        rw more refl,
        record {
          agrees = λ i _. refl;
          longer = omega arith;
          room = ground arith;
          same_states = refl;
          same_last = refl;
          same_max = refl;
        },
        refl,
      )
    ]

pub put-other {ℓ} :
    {A : Type ℓ} (a : ℕ → A) (i k : ℕ) (v : A) → (k == i) ≡ false → put a i v k ≡ a k
put-other a i k v h = rw h refl

pub put-same {ℓ} : {A : Type ℓ} (a : ℕ → A) (i : ℕ) (v : A) → put a i v i ≡ v
put-same a i v = ground arith

-- Each attribute is linked to one of a smaller index.
abbrev pub AreLinked : Dfa → Type 0
AreLinked d = (i : ℕ) → 0 < i → i ≤ d.last_index → (d.indexes i).next < i

-- A list in an automaton that has room for more.
pub record Lists (l : Listed) (vs : List ℕ) : Type 0 where
  pub list : IsList l.dfa.indexes l.att vs
  pub within : l.att ≤ l.dfa.last_index
  pub linked : AreLinked l.dfa

pub push_att_lem :
    (val : ℕ) (l : Listed) (vs : List ℕ)
    → HasRoom l.dfa
    → Lists l vs
    → (l' : Listed) × (push_att val l ≡ done l') × Grows l.dfa l'.dfa × Lists l' (val ∷ vs)
unfolding push_att
push_att_lem val l vs room ls =
    let (d', e, g, last) = next_index_lem l.dfa room in
    let within = ls.within in
    let added : Attrib = record { val = val; next = l.att } in
    let agrees : Agrees l.dfa.indexes (put d'.indexes d'.last_index added) l.dfa.last_index =
      λ i h. rw (← g.agrees i h) (ground (arith, last)) in
    (
      record {
        dfa = record d' { indexes = put d'.indexes d'.last_index added };
        att = d'.last_index;
      },
      rw e refl,
      record {
        agrees = agrees;
        longer = g.longer;
        room = g.room;
        same_states = g.same_states;
        same_last = g.same_last;
        same_max = g.same_max;
      },
      record {
        list =
            IsList-cons (put d'.indexes d'.last_index added) d'.last_index val l.att vs
              (put-same d'.indexes d'.last_index added) (omega arith)
              (IsList-Agrees l.dfa.indexes _ l.dfa.last_index l.att vs agrees within ls.list);
        within = omega arith;
        linked = λ i h k. elim (Bool-cases (i == d'.last_index)) [
          | inl new ↦
              rw (==→≡ i d'.last_index new, put-same d'.indexes d'.last_index added) (omega arith)
          | inr old ↦
              rw (old, g.agrees i (ground (arith, last))) (ls.linked i h (ground (arith, last)))
        ];
      },
    )

-- What the first loop lists before the list that it has.
abbrev pub reversed_onto : List ℕ → List ℕ → List ℕ
reversed_onto [] us = us
reversed_onto (v ∷ vs) us = reversed_onto vs (v ∷ us)

pub copy_loop_lem :
    (fuel : ℕ) (indexes : ℕ → Attrib) (att : ℕ) (vs us : List ℕ) (l : Listed)
    → att ≤ fuel
    → IsList indexes att vs
    → HasRoom l.dfa
    → Lists l us
    → (l' : Listed) × (copy_loop fuel indexes att l ≡ done l')
      × Grows l.dfa l'.dfa
      × Lists l' (reversed_onto vs us)
unfolding copy_loop
copy_loop_lem fuel indexes zero [] us l h p room ls = (l, refl, Grows-refl l.dfa room, ls)
copy_loop_lem fuel indexes zero (v ∷ vs) us l h p room ls = absurd (omega (arith, p.0))
copy_loop_lem fuel indexes (suc att) [] us l h p room ls = absurd (omega (arith, p))
copy_loop_lem zero indexes (suc att) (v ∷ vs) us l h p room ls = absurd (omega arith)
copy_loop_lem (suc fuel) indexes (suc att) (v ∷ vs) us l h (_, b, c, p) room ls =
    let (l1, e1, g1, ls1) = push_att_lem v l us room ls in
    let (l2, e2, g2, ls2) =
      copy_loop_lem fuel indexes (indexes (suc att)).next vs (v ∷ us) l1 (omega arith) p
        (HasRoom-Grows l.dfa l1.dfa g1 room) ls1 in
    (l2, rw (b, e1) e2, Grows-trans l.dfa l1.dfa l2.dfa g1 g2, ls2)

-- What the second loop lists.
abbrev pub with_new : List ℕ → List ℕ → List ℕ
with_new us [] = us
with_new us (v ∷ vs) = with_new (if elem v us then us else v ∷ us) vs

member_att_lem :
    (val : ℕ) (l : Listed) (us : List ℕ)
    → Lists l us
    → member_att l.dfa l.att val ≡ done (elem val us)
unfolding member_att
member_att_lem val l us ls = member_loop_lem l.att l.dfa.indexes l.att val us (omega arith) ls.list

add_new_lem :
    (val : ℕ) (l : Listed) (us : List ℕ)
    → HasRoom l.dfa
    → Lists l us
    → (l' : Listed) × (add_new val l ≡ done l')
      × Grows l.dfa l'.dfa
      × Lists l' (if elem val us then us else val ∷ us)
unfolding add_new
add_new_lem val l us room ls =
    let found = member_att_lem val l us ls in
    elim (Bool-cases (elem val us)) [
      | inl old ↦ (l, rw (found, old) refl, Grows-refl l.dfa room, rw old ls)
      | inr new ↦
          let (l', e, g, ls') = push_att_lem val l us room ls in
          (l', rw (found, new) e, g, rw new ls')
    ]

merge_loop_lem :
    (fuel : ℕ) (indexes : ℕ → Attrib) (att : ℕ) (vs us : List ℕ) (l : Listed)
    → att ≤ fuel
    → IsList indexes att vs
    → HasRoom l.dfa
    → Lists l us
    → (l' : Listed) × (merge_loop fuel indexes att l ≡ done l')
      × Grows l.dfa l'.dfa
      × Lists l' (with_new us vs)
unfolding merge_loop
merge_loop_lem fuel indexes zero [] us l h p room ls = (l, refl, Grows-refl l.dfa room, ls)
merge_loop_lem fuel indexes zero (v ∷ vs) us l h p room ls = absurd (omega (arith, p.0))
merge_loop_lem fuel indexes (suc att) [] us l h p room ls = absurd (omega (arith, p))
merge_loop_lem zero indexes (suc att) (v ∷ vs) us l h p room ls = absurd (omega arith)
merge_loop_lem (suc fuel) indexes (suc att) (v ∷ vs) us l h (_, b, c, p) room ls =
    let (l1, e1, g1, ls1) = add_new_lem v l us room ls in
    let (l2, e2, g2, ls2) =
      merge_loop_lem fuel indexes (indexes (suc att)).next vs (if elem v us then us else v ∷ us) l1
        (omega arith) p (HasRoom-Grows l.dfa l1.dfa g1 room) ls1 in
    (l2, rw (b, e1) e2, Grows-trans l.dfa l1.dfa l2.dfa g1 g2, ls2)

-- The list that union_att makes.
abbrev pub united : List ℕ → List ℕ → List ℕ
united vs us = with_new (reversed_onto vs []) us

pub union_att_lem :
    (d dfa1 dfa2 : Dfa) (att1 att2 : ℕ) (vs us : List ℕ)
    → HasRoom d
    → AreLinked d
    → IsList dfa1.indexes att1 vs
    → IsList dfa2.indexes att2 us
    → (l : Listed) × (union_att d dfa1 att1 dfa2 att2 ≡ done l)
      × Grows d l.dfa
      × Lists l (united vs us)
unfolding union_att
union_att_lem d dfa1 dfa2 att1 att2 vs us room linked p q =
    let start : Listed = record { dfa = d; att = 0 } in
    let (l1, e1, g1, ls1) =
      copy_loop_lem att1 dfa1.indexes att1 vs [] start (omega arith) p room
        (record { list = refl; within = omega arith; linked = linked }) in
    let (l2, e2, g2, ls2) =
      merge_loop_lem att2 dfa2.indexes att2 us (reversed_onto vs []) l1 (omega arith) q
        (HasRoom-Grows d l1.dfa g1 room) ls1 in
    (l2, rw e1 e2, Grows-trans d l1.dfa l2.dfa g1 g2, ls2)

elem-reversed_onto :
    (x : ℕ) (vs us : List ℕ) → elem x (reversed_onto vs us) ≡ (elem x vs || elem x us)
elem-reversed_onto x [] us = refl
elem-reversed_onto x (v ∷ vs) us = rw (elem-reversed_onto x vs (v ∷ us)) (ground arith)

elem-with_new : (x : ℕ) (us vs : List ℕ) → elem x (with_new us vs) ≡ (elem x us || elem x vs)
elem-with_new x us [] = ground arith
elem-with_new x us (v ∷ vs) =
    rw (elem-with_new x (if elem v us then us else v ∷ us) vs) (elim (Bool-cases (elem v us)) [
      | inl old ↦ elim (Bool-cases (v == x)) [
        | inl same ↦ rw (old, same) (rw (subst (λ k. elem k us ≡ true) (==→≡ v x same) old) refl)
        | inr other ↦ rw (old, other) refl
      ]
      | inr new ↦ rw new (ground arith)
    ])

pub elem-united : (x : ℕ) (vs us : List ℕ) → elem x (united vs us) ≡ (elem x vs || elem x us)
elem-united x vs us =
    rw (elem-with_new x (reversed_onto vs []) us, elem-reversed_onto x vs []) (ground arith)
