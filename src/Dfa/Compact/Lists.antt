-- ===== src/Dfa/Compact/Lists.antt =====
-- compactify_att ends, with the same lists of attributes in fewer entries.
use gnugo.Base.{
  ℕ, zero, suc, ◌+◌, ◌≤◌, ◌<◌, ◌≡◌, ◌↔◌, inl, inr, refl, sym, ap, subst, ◌∙◌, arith, true,
  Bool-cases, ltb, leb, List, [], ◌∷◌,
}
use gnugo.Dfa.{done, Dfa, Attrib}
use gnugo.Dfa.Attributes.{AreLinked, IsList, IsList-Agrees, IsList-unique, elem}
use gnugo.Dfa.Automaton.{Word, run, run-suc, Reports, Stops}
use gnugo.Dfa.Compact.{Compacting, compact_entries, relabel, compactify_att}
use gnugo.Dfa.Compact.Kept.{Kept, compact_entry_lem}

-- The states refer to attributes that are there.
abbrev pub AreListed : Dfa → Type 0
AreListed d = (s : ℕ) → s ≤ d.last_state → (d.states s).att ≤ d.last_index

-- The transitions and the lists are the same.
pub record Keeps (d d' : Dfa) : Type 0 where
  pub same_last : d'.last_state ≡ d.last_state
  pub same_next : (s c : ℕ) → (d'.states s).next c ≡ (d.states s).next c
  pub lists :
      (s : ℕ) (vs : List ℕ)
      → s ≤ d.last_state
      → IsList d.indexes (d.states s).att vs
      → IsList d'.indexes (d'.states s).att vs

compact_entries_lem :
    (o : ℕ → Attrib) (n k : ℕ) (t : Compacting)
    → Kept o t k
    → ((i : ℕ) → 0 < i → i ≤ n + k → (o i).next < i)
    → (t' : Compacting) × (compact_entries n (suc k) t ≡ done t') × Kept o t' (n + k)
unfolding compact_entries
compact_entries_lem o zero k t kept links = (t, refl, subst (λ i. Kept o t i) (omega arith) kept)
compact_entries_lem o (suc n) k t kept links =
    let link = links (suc k) (omega arith) (omega arith) in
    let (t1, e1, kept1) = compact_entry_lem o t k kept (omega (arith, link)) in
    let (t2, e2, kept2) =
      compact_entries_lem o n (suc k) t1 kept1 (λ i h l. links i h (omega arith)) in
    (t2, rw e1 e2, subst (λ i. Kept o t2 i) (omega arith) kept2)

abbrev start : Dfa → Compacting
start d = record {
  indexes = d.indexes;
  last = 0;
  map = λ k. 0;
  search_first = λ k. 0;
  search_next = λ k. 0;
}

Kept-start : (d : Dfa) → Kept d.indexes (start d) 0
Kept-start d = record {
  behind = omega arith;
  unread = λ j h. refl;
  mapped = λ j h l. absurd (omega arith);
  full = λ e j h. refl;
  zero_mapped = refl;
  linked = λ i h l. absurd (omega arith);
  firsts = λ v there. absurd (there refl);
  nexts = λ i there. absurd (there refl);
}

module _ (d : Dfa) (t : Compacting) (kept : Kept d.indexes t d.last_index) (linked : AreLinked d)
    (listed : AreListed d) where
  map_le : (j : ℕ) → j ≤ d.last_index → t.map j ≤ t.last
  map_le zero h = omega (arith, kept.zero_mapped)
  map_le (suc j) h = let (_, low, _) = kept.mapped (suc j) (omega arith) h in low

  index-relabel :
      (i : ℕ)
      → i ≤ t.last
      → (relabel d t).indexes i
        ≡ record { val = (t.indexes i).val; next = t.map (t.indexes i).next }
  unfolding relabel
  index-relabel i h = ground arith

  att-relabel : (s : ℕ) → s ≤ d.last_state → ((relabel d t).states s).att ≡ t.map (d.states s).att
  unfolding relabel
  att-relabel s h = let low : leb s d.last_state ≡ true = ground arith in rw low refl

  next-relabel : (s c : ℕ) → ((relabel d t).states s).next c ≡ (d.states s).next c
  unfolding relabel
  next-relabel s c = elim (Bool-cases (leb s d.last_state)) [
    | inl low ↦ rw low refl
    | inr high ↦ rw high refl
  ]

  IsList-relabel :
      (att : ℕ) (vs : List ℕ)
      → att ≤ d.last_index
      → IsList d.indexes att vs
      → IsList (relabel d t).indexes (t.map att) vs
  IsList-relabel att [] h e = rw e kept.zero_mapped
  IsList-relabel att (v ∷ vs) h (pos, val, less, list) =
      let (above, low, same) = kept.mapped att pos h in
      let (_, down) = kept.linked (t.map att) above low in
      let next = (d.indexes att).next in
      let same_next : (t.indexes (t.map att)).next ≡ next = ap (λ a. a.next) same in
      rw (index-relabel (t.map att) low) (
        above,
        ap (λ a. a.val) same ∙ val,
        down,
        subst (λ i. IsList (relabel d t).indexes (t.map i) vs) (sym same_next)
            (IsList-relabel next vs (omega arith) list),
      )

  Keeps-relabel : Keeps d (relabel d t)
  unfolding relabel
  Keeps-relabel = record {
    same_last = refl;
    same_next = next-relabel;
    lists = λ s vs h list.
        subst (λ a. IsList (relabel d t).indexes a vs) (sym (att-relabel s h))
          (IsList-relabel (d.states s).att vs (listed s h) list);
  }

  AreLinked-relabel : AreLinked (relabel d t)
  unfolding relabel
  AreLinked-relabel i h l = let (_, down) = kept.linked i h l in rw (index-relabel i l) down

  AreListed-relabel : AreListed (relabel d t)
  unfolding relabel
  AreListed-relabel s h = rw (att-relabel s h) (map_le (d.states s).att (listed s h))

  -- Nothing was repeated.
  Keeps-full : t.last ≡ d.last_index → Keeps d (record d { indexes = t.indexes })
  Keeps-full e = record {
    same_last = refl;
    same_next = λ s c. refl;
    lists = λ s vs h list.
        IsList-Agrees d.indexes t.indexes d.last_index (d.states s).att vs (kept.full e)
          (listed s h) list;
  }

-- From an automaton whose attributes are linked to smaller ones.
pub record Compacted (d d' : Dfa) : Type 0 where
  pub keeps : Keeps d d'
  pub listed : AreListed d'
  fewer : d'.last_index ≤ d.last_index

Keeps-trans : (d d' d'' : Dfa) → Keeps d d' → Keeps d' d'' → Keeps d d''
Keeps-trans d d' d'' a b = record {
  same_last = b.same_last ∙ a.same_last;
  same_next = λ s c. b.same_next s c ∙ a.same_next s c;
  lists = λ s vs h list. b.lists s vs (omega (arith, a.same_last)) (a.lists s vs h list);
}

fewer-relabel :
    (d : Dfa) (t : Compacting)
    → t.last < d.last_index
    → (fuel : ℕ) → d.last_index < suc fuel
    → (relabel d t).last_index < fuel
unfolding relabel
fewer-relabel d t h fuel e = omega arith

le-relabel :
    (d : Dfa) (t : Compacting)
    → t.last ≤ d.last_index
    → (n : ℕ) → n ≤ (relabel d t).last_index
    → n ≤ d.last_index
unfolding relabel
le-relabel d t h n e = omega arith

module _ (d d' : Dfa) (keeps : Keeps d d') (w : Word)
    (listed : (k : ℕ)
      → (run d w k ≤ d.last_state)
        × (vs : List ℕ) × IsList d.indexes (d.states (run d w k)).att vs) where
  pub run-Keeps : (k : ℕ) → run d' w k ≡ run d w k
  unfolding run
  run-Keeps zero = refl
  run-Keeps (suc k) = run-suc d' w k (run d w k) (run-Keeps k) ∙ keeps.same_next (run d w k) (w k)

  pub IsList-Keeps :
      (k : ℕ) (vs : List ℕ)
      → IsList d.indexes (d.states (run d w k)).att vs
      → IsList d'.indexes (d'.states (run d' w k)).att vs
  IsList-Keeps k vs list =
      subst (λ s. IsList d'.indexes (d'.states s).att vs) (sym (run-Keeps k))
        (keeps.lists (run d w k) vs (listed k).0 list)

  pub Reports-Keeps : (v : ℕ) → Reports d' w v ↔ Reports d w v
  Reports-Keeps v = (
    λ (k, us, list, found).
        let (_, vs, list_vs) = listed k in
        let same = IsList-unique d'.indexes _ us vs list (IsList-Keeps k vs list_vs) in
        (k, vs, list_vs, subst (λ l. elem v l ≡ true) same found),
    λ (k, vs, list, found). (k, vs, IsList-Keeps k vs list, found),
  )

  pub Stops-Keeps : (n : ℕ) → Stops d w n → Stops d' w n
  Stops-Keeps n h = run-Keeps n ∙ h

pub compactify_att_lem :
    (fuel : ℕ) (d : Dfa)
    → AreLinked d
    → AreListed d
    → d.last_index < fuel
    → (d' : Dfa) × (compactify_att fuel d ≡ done d') × Compacted d d'
unfolding compactify_att
compactify_att_lem zero d linked listed enough = absurd (omega arith)
compactify_att_lem (suc fuel) d linked listed enough =
    let (t, ends, at_end) =
      compact_entries_lem d.indexes d.last_index 0 (start d) (Kept-start d)
        (λ i h l. linked i h (omega arith)) in
    let kept : Kept d.indexes t d.last_index =
      subst (λ i. Kept d.indexes t i) (omega arith) at_end in
    elim (Bool-cases (ltb t.last d.last_index)) [
      | inl less ↦
          let (d', again, compacted) =
            compactify_att_lem fuel (relabel d t) (AreLinked-relabel d t kept linked listed)
              (AreListed-relabel d t kept linked listed)
              (fewer-relabel d t (ground arith) fuel enough) in
          (
            d',
            rw (ends, less) again,
            record {
              keeps =
                  Keeps-trans d (relabel d t) d' (Keeps-relabel d t kept linked listed)
                    compacted.keeps;
              listed = compacted.listed;
              fewer = le-relabel d t kept.behind d'.last_index compacted.fewer;
            },
          )
      | inr same ↦
          let all : t.last ≡ d.last_index = ground (arith, kept.behind) in
          (
            record d { indexes = t.indexes },
            rw (ends, same) refl,
            record {
              keeps = Keeps-full d t kept linked listed all;
              listed = listed;
              fewer = omega arith;
            },
          )
    ]
