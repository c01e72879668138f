-- ===== src/Dfa/Copy.antt =====
-- patterns/dfa.c: copy_dfa. The arrays are functions on all indices: a write at an index that is not
-- allocated is a write.
use gnugo.Base.{
  List, ℕ, zero, suc, ◌≤◌, ◌<◌, ◌≡◌, ◌↔◌, refl, sym, ap, subst, ◌∙◌, arith, true, Bool-cases, inl,
  inr, ltb, leb, if◌then◌else◌,
}
use gnugo.Dfa.{Outcome, done, ◌>>=◌, Dfa, resized, resize_dfa, clean_dfa}
use gnugo.Dfa.Attributes.{
  AreLinked, HasRoom, IsList, IsList-unique, IsList-Agrees, elem, resize_dfa_lem,
}
use gnugo.Dfa.Compact.Lists.{AreListed}
use gnugo.Dfa.Automaton.{IsDfa, Word, IsWord, run, run-suc, run_le, Reports, Stops}

-- `memcpy(to, from, last + 1)`
abbrev pub copied {ℓ} : {A : Type ℓ} → (ℕ → A) → (ℕ → A) → ℕ → ℕ → A
copied to from last k = if leb k last then from k else to k

unfoldable pub copy_dfa : Dfa → Dfa → Outcome Dfa
copy_dfa p_to p_from =
    (if ltb p_to.max_states p_from.last_state
      then resize_dfa p_to p_from.max_states p_to.max_indexes
      else done p_to)
    >>= λ d1.
        (if ltb d1.max_indexes p_from.last_index
          then resize_dfa d1 d1.max_states p_from.max_indexes
          else done d1)
        >>= λ d2.
            let d3 = clean_dfa d2 in
            done (record d3 {
              states = copied d3.states p_from.states p_from.last_state;
              indexes = copied d3.indexes p_from.indexes p_from.last_index;
              last_state = p_from.last_state;
              last_index = p_from.last_index;
            })

-- An automaton with the same states and attributes up to the last ones.
pub record Copies (p_from d : Dfa) : Type 0 where
  pub states : (s : ℕ) → s ≤ p_from.last_state → d.states s ≡ p_from.states s
  pub indexes : (i : ℕ) → i ≤ p_from.last_index → d.indexes i ≡ p_from.indexes i
  pub same_state : d.last_state ≡ p_from.last_state
  pub same_index : d.last_index ≡ p_from.last_index

copied-within {ℓ} :
    {A : Type ℓ} (to from : ℕ → A) (last k : ℕ) → k ≤ last → copied to from last k ≡ from k
copied-within to from last k h = ground arith

module _ (p_to p_from : Dfa) where
  -- Behind the first test.
  abbrev filled : Dfa → Dfa
  filled d =
      let d3 = clean_dfa d in
      record d3 {
        states = copied d3.states p_from.states p_from.last_state;
        indexes = copied d3.indexes p_from.indexes p_from.last_index;
        last_state = p_from.last_state;
        last_index = p_from.last_index;
      }

  filled-Copies : (d : Dfa) → Copies p_from (filled d)
  filled-Copies d = record {
    states = λ s h. copied-within (clean_dfa d).states p_from.states p_from.last_state s h;
    indexes = λ i h. copied-within (clean_dfa d).indexes p_from.indexes p_from.last_index i h;
    same_state = refl;
    same_index = refl;
  }

  second :
      (d1 : Dfa)
      → d1.last_state ≤ d1.max_states
      → d1.last_index ≤ d1.max_indexes
      → (d : Dfa) × (((if ltb d1.max_indexes p_from.last_index
              then resize_dfa d1 d1.max_states p_from.max_indexes
              else done d1)
            >>= λ d2. done (filled d2))
          ≡ done d)
        × Copies p_from d
  second d1 h k = elim (Bool-cases (ltb d1.max_indexes p_from.last_index)) [
    | inl small ↦
        let d2 = resized d1 d1.max_states p_from.max_indexes in
        (
          filled d2,
          rw (small, resize_dfa_lem d1 d1.max_states p_from.max_indexes h k) refl,
          filled-Copies d2,
        )
    | inr big ↦ (filled d1, rw big refl, filled-Copies d1)
  ]

  -- copy_dfa ends.
  pub copy_dfa_lem :
      HasRoom p_to
      → p_from.last_state < p_from.max_states
      → (d : Dfa) × (copy_dfa p_to p_from ≡ done d) × Copies p_from d
  unfolding copy_dfa
  copy_dfa_lem (h, k) e = elim (Bool-cases (ltb p_to.max_states p_from.last_state)) [
    | inl small ↦
        let d1 = resized p_to p_from.max_states p_to.max_indexes in
        let made =
          resize_dfa_lem p_to p_from.max_states p_to.max_indexes (omega arith) (omega arith) in
        let (d, ends, copies) = second d1 (ground arith) (omega arith) in
        (d, rw (small, made) ends, copies)
    | inr big ↦
        let (d, ends, copies) = second p_to (omega arith) (omega arith) in (d, rw big ends, copies)
  ]

module _ (p_from d : Dfa) (is : IsDfa p_from) (c : Copies p_from d) (w : Word)
    (is_word : IsWord w) where
  pub run-Copies : (k : ℕ) → run d w k ≡ run p_from w k
  unfolding run
  run-Copies zero = refl
  run-Copies (suc k) =
      run-suc d w k (run p_from w k) (run-Copies k)
      ∙ ap (λ s. s.next (w k)) (c.states (run p_from w k) (run_le p_from w is is_word k))

  pub Stops-Copies : (n : ℕ) → Stops p_from w n → Stops d w n
  Stops-Copies n h = run-Copies n ∙ h

  -- The state on the way has the same list.
  att-Copies : (k : ℕ) → (d.states (run d w k)).att ≡ (p_from.states (run p_from w k)).att
  att-Copies k =
      ap (λ s. (d.states s).att) (run-Copies k)
      ∙ ap (λ s. s.att) (c.states (run p_from w k) (run_le p_from w is is_word k))

  pub listed-Copies :
      (k : ℕ)
      → (run d w k ≤ d.last_state) × (vs : List ℕ) × IsList d.indexes (d.states (run d w k)).att vs
  listed-Copies k =
      let within = run_le p_from w is is_word k in
      let (low, us, list_us) = is.attributes (run p_from w k) within in
      (
        omega (arith, run-Copies k, c.same_state, within),
        us,
        subst (λ a. IsList d.indexes a us) (sym (att-Copies k))
            (IsList-Agrees p_from.indexes d.indexes p_from.last_index _ us c.indexes low list_us),
      )

  pub Reports-Copies : (v : ℕ) → Reports d w v ↔ Reports p_from w v
  Reports-Copies v = (
    λ (k, vs, list, found).
        let (low, us, list_us) = is.attributes _ (run_le p_from w is is_word k) in
        let moved =
          subst (λ a. IsList d.indexes a us) (sym (att-Copies k))
            (IsList-Agrees p_from.indexes d.indexes p_from.last_index _ us c.indexes low list_us) in
        let same = IsList-unique d.indexes _ vs us list moved in
        (k, us, list_us, subst (λ l. elem v l ≡ true) same found),
    λ (k, us, list_us, found).
        let (low, _, _) = is.attributes _ (run_le p_from w is is_word k) in
        (
          k,
          us,
          subst (λ a. IsList d.indexes a us) (sym (att-Copies k))
              (IsList-Agrees p_from.indexes d.indexes p_from.last_index _ us c.indexes low list_us),
          found,
        ),
  )

pub AreLinked-Copies : (p_from d : Dfa) → Copies p_from d → AreLinked p_from → AreLinked d
AreLinked-Copies p_from d c linked i h l =
    let low : i ≤ p_from.last_index = omega (arith, c.same_index) in
    rw (c.indexes i low) (linked i h low)

pub AreListed-Copies : (p_from d : Dfa) → Copies p_from d → IsDfa p_from → AreListed d
AreListed-Copies p_from d c is s h =
    let low : s ≤ p_from.last_state = omega (arith, c.same_state) in
    let (within, _, _) = is.attributes s low in rw (c.states s low, c.same_index) within
