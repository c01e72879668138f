-- ===== src/Dfa/Bins/Whole.antt =====
-- All strings that are added are in the merged automaton.
use gnugo.Base.{
  ◌∙◌, sym, ℕ, suc, ◌+◌, ◌-◌, ◌%◌, ◌≤◌, ◌<◌, ◌≡◌, ◌⊎◌, ◌↔◌, inl, inr, refl, sym, ap, subst, arith,
  true, List, [], ◌∷◌, length,
}
use gnugo.Dfa.{done, ◌>>=◌, Dfa, put, no_state, no_attrib, resized, resize_dfa, clean_dfa, new_dfa}
use gnugo.Dfa.Attributes.{HasRoom}
use gnugo.Dfa.Automaton.{IsScanned, IsDfa, Word, IsWord, run, run-stopped, unlisted, Reports, Stops}
use gnugo.Dfa.Bins.{
  dfa_bins, Bins, dfa_init, dfa_add_string, Pattern, add_all, merged_dfa, dfa_finalize,
}
use gnugo.Dfa.Bins.Merge.{IsBin, AreBins, Among, IsBin-le, AreBins-put, IsBin-room, Among-moved}
use gnugo.Dfa.Bins.Rounds.{merge_rounds_lem}
use gnugo.Dfa.Copy.{
  Copies, run-Copies, copy_dfa_lem, Stops-Copies, Reports-Copies, listed-Copies, AreLinked-Copies,
  AreListed-Copies,
}
use gnugo.Dfa.Compact.Lists.{
  Compacted, IsList-Keeps, run-Keeps, compactify_att_lem, Reports-Keeps, Stops-Keeps,
}
use gnugo.Dfa.Linear.Create.{symbols, Reports-create_dfa}
use gnugo.Dfa.Linear.Line.{matches}
use gnugo.Dfa.Product.Reports.{Reports-sync_product}
use gnugo.Dfa.Shuffle.Numbering.{IsClosed}

-- Some pattern has the index `v`, and its symbols stand for the colors of the word.
abbrev pub Wanted : List Pattern → Word → ℕ → Type 0
Wanted [] w v = suc v ≡ 0
Wanted (p ∷ ps) w v = ((v ≡ p.index) × (matches (symbols p.string) w 0 ≡ true)) ⊎ Wanted ps w v

-- The bins that are not written next hold all strings.
record Holds (n : ℕ) (b : Bins) : Type 0 where
  bins : AreBins n b.aux_dfa
  states : 1 < b.aux_temp.max_states
  indexes : 1 < b.aux_temp.max_indexes

abbrev Held : Bins → Word → ℕ → Type 0
Held b w v = Among b.aux_dfa (suc b.aux_count) (b.aux_count + 33) w v

IsDfa-roomy : (d : Dfa) → IsDfa d → 1 < d.max_states
IsDfa-roomy d is = let (h, _) = is.room in omega (arith, is.started)

-- A new string, and what the bins held.
dfa_add_string_lem :
    (n : ℕ) (str : List ℕ) (u : ℕ) (b : Bins)
    → Holds n b
    → (m : ℕ) × (b' : Bins) × (dfa_add_string str u b ≡ done b')
      × (b'.aux_count ≡ suc b.aux_count)
      × Holds m b'
      × ((w : Word)
          → IsWord w
          → (v : ℕ) → Held b' w v ↔ (((v ≡ u) × (matches (symbols str) w 0 ≡ true)) ⊎ Held b w v))
unfolding dfa_add_string
dfa_add_string_lem n str u b h =
    let m = n + suc (length (symbols str)) in
    let new = b.aux_dfa (b.aux_count % dfa_bins) in
    let old = b.aux_dfa ((b.aux_count + 1) % dfa_bins) in
    let (temp, created, is, more, on_temp) =
      Reports-create_dfa b.aux_temp str u h.states h.indexes in
    let (roomy, index) = IsBin-room n new (h.bins (b.aux_count % dfa_bins)) in
    let (d, made, is_d, clear, linked, on) =
      Reports-sync_product old temp new (h.bins _).is is roomy index (h.bins _).clear in
    let temp_roomy = IsDfa-roomy temp is in
    let bin : IsBin m d = record {
      is = is_d;
      linked = linked;
      clear = clear;
      stops = λ w is_word.
          (on w is_word).1 m
            (run-stopped old w (h.bins _).is is_word n m (omega arith) ((h.bins _).stops w is_word))
            (run-stopped temp w is is_word (suc (length (symbols str))) m (omega arith)
              (on_temp w is_word).1);
    } in
    (
      m,
      record {
        aux_dfa = put b.aux_dfa (b.aux_count % dfa_bins) d;
        aux_temp = temp;
        aux_count = suc b.aux_count;
      },
      rw (created, made) refl,
      refl,
      record {
        bins =
            AreBins-put m (b.aux_count % dfa_bins) b.aux_dfa d
              (λ i. IsBin-le n m (b.aux_dfa i) (omega arith) (h.bins i)) bin;
        states = temp_roomy;
        indexes = more;
      },
      λ w is_word v.
          let (to, from) = (on w is_word).0 v in
          let (temp_to, temp_from) = (on_temp w is_word).0 v in
          Among-moved b.aux_dfa d w v b.aux_count ((v ≡ u) × (matches (symbols str) w 0 ≡ true)) (
            λ r. elim (to r) [ inl x ↦ inl x | inr y ↦ inr (temp_to y) ],
            λ either. elim either [ inl x ↦ from (inl x) | inr y ↦ from (inr (temp_from y)) ],
          ),
    )

-- And of all strings.
add_all_lem :
    (n : ℕ) (ps : List Pattern) (b : Bins)
    → Holds n b
    → (m : ℕ) × (b' : Bins) × (add_all ps b ≡ done b')
      × (b'.aux_count ≡ b.aux_count + length ps)
      × Holds m b'
      × ((w : Word) → IsWord w → (v : ℕ) → Held b' w v ↔ (Wanted ps w v ⊎ Held b w v))
unfolding add_all
add_all_lem n [] b h = (
  n,
  b,
  refl,
  omega arith,
  h,
  λ w is_word v.
      (inr, λ either. elim either [ inl none_wanted ↦ absurd (omega arith) | inr x ↦ x ]),
)
add_all_lem n (p ∷ ps) b h =
    let (m1, b1, e1, count1, h1, on1) = dfa_add_string_lem n p.string p.index b h in
    let (m, b2, e2, count2, h2, on2) = add_all_lem m1 ps b1 h1 in
    (
      m,
      b2,
      rw e1 e2,
      omega (arith, count1, count2),
      h2,
      λ w is_word v.
          let (to1, from1) = on1 w is_word v in
          let (to2, from2) = on2 w is_word v in
          (
            λ x. elim (to2 x) [
              | inl y ↦ inl (inr y)
              | inr y ↦ elim (to1 y) [ inl z ↦ inl (inl z) | inr z ↦ inr z ]
            ],
            λ either. elim either [
              | inl (inl z) ↦ from2 (inr (from1 (inl z)))
              | inl (inr y) ↦ from2 (inl y)
              | inr z ↦ from2 (inr (from1 (inr z)))
            ],
          ),
    )

-- What new_dfa makes.
abbrev unused : Dfa
unused = record {
  states = λ i. no_state;
  max_states = 0;
  last_state = 0;
  indexes = λ i. no_attrib;
  max_indexes = 0;
  last_index = 0;
}

abbrev fresh : Dfa
fresh = clean_dfa (resized unused 250 250)

new_dfa_lem : new_dfa ≡ done fresh
unfolding new_dfa resize_dfa
new_dfa_lem = refl

states-fresh : (s : ℕ) → fresh.states s ≡ no_state
unfolding clean_dfa
states-fresh s = ground arith

run-fresh : (w : Word) (k : ℕ) → run fresh w (suc k) ≡ 0
unfolding run
run-fresh w k = ap (λ s. s.next (w k)) (states-fresh (run fresh w k))

IsBin-fresh : IsBin 1 fresh
unfolding clean_dfa
IsBin-fresh = record {
  is = record {
    started = omega arith;
    room = (omega arith, omega arith);
    attributes = λ s h.
        (omega (arith, ap (λ x. x.att) (states-fresh s)), [], ap (λ x. x.att) (states-fresh s));
    transitions = λ s c h k. omega (arith, ap (λ x. x.next c) (states-fresh s));
    dead = λ c h. ap (λ x. x.next c) (states-fresh 0);
    no_attributes = ap (λ x. x.att) (states-fresh 0);
  };
  linked = λ i h l. absurd (omega arith);
  clear = states-fresh 0;
  stops = λ w is_word. run-fresh w 0;
}

fresh-silent : (w : Word) (v : ℕ) → Reports fresh w v → suc v ≡ 0
fresh-silent w v (k, vs, list, found) = absurd (
    unlisted fresh (run fresh w k) v vs (ap (λ x. x.att) (states-fresh (run fresh w k))) list found)

fresh-indexes : 1 < fresh.max_indexes
unfolding clean_dfa
fresh-indexes = omega arith

abbrev first_bins : Bins
first_bins = record { aux_dfa = λ i. fresh; aux_temp = fresh; aux_count = 0 }

dfa_init_lem : dfa_init ≡ done first_bins
unfolding dfa_init
dfa_init_lem = rw new_dfa_lem refl

-- The copy of a bin, with its attributes compacted, can be scanned.
IsScanned-Compacted : (d c e : Dfa) → IsDfa d → Copies d c → Compacted c e → IsScanned e
IsScanned-Compacted d c e is copies compacted =
    let keeps = compacted.keeps in
    record {
      listed = λ w is_word k.
          let at_copy = listed-Copies d c is copies w is_word in
          let (within, vs, list) = at_copy k in
          let in_range : run e w k ≤ e.last_state =
            omega (arith, run-Keeps c e keeps w at_copy k, within, keeps.same_last) in
          (
            in_range,
            compacted.listed (run e w k) in_range,
            vs,
            IsList-Keeps c e keeps w at_copy k vs list,
          );
      stopped = λ w is_word k j h z.
          let at_copy = listed-Copies d c is copies w is_word in
          let same : (i : ℕ) → run e w i ≡ run d w i =
            λ i. run-Keeps c e keeps w at_copy i ∙ run-Copies d c is copies w is_word i in
          same j ∙ run-stopped d w is is_word k j h (sym (same k) ∙ z);
      no_attributes =
          keeps.lists 0 [] (omega arith)
            (ap (λ x. x.att) (copies.states 0 (omega arith)) ∙ is.no_attributes);
    }

-- Its transitions stay within its states.
IsClosed-Compacted : (d c e : Dfa) → IsDfa d → Copies d c → Compacted c e → IsClosed e
IsClosed-Compacted d c e is copies compacted =
    let keeps = compacted.keeps in
    let last : e.last_state ≡ d.last_state = keeps.same_last ∙ copies.same_state in
    let next : (s k : ℕ) → s ≤ d.last_state → (e.states s).next k ≡ (d.states s).next k =
      λ s k h. keeps.same_next s k ∙ ap (λ x. x.next k) (copies.states s h) in
    record {
      started = omega (arith, last, is.started);
      transitions = λ s k h low.
          let within : s ≤ d.last_state = omega (arith, last, h) in
          omega (arith, last, next s k within, is.transitions s k within low);
      dead = λ k low. next 0 k (omega arith) ∙ is.dead k low;
    }

-- What dfa_finalize makes of the bins that dfa_add_string has filled.
pub dfa_finalize_lem :
    (ps : List Pattern) (pdfa : Dfa)
    → 4 ≤ length ps
    → HasRoom pdfa
    → (d : Dfa) × ((dfa_init >>= add_all ps >>= dfa_finalize pdfa) ≡ done d)
      × IsScanned d
      × ((w : Word) → IsWord w → (v : ℕ) → Reports d w v ↔ Wanted ps w v)
      × ((n : ℕ) × ((w : Word) → IsWord w → Stops d w n))
      × IsClosed d
unfolding dfa_finalize merged_dfa
dfa_finalize_lem ps pdfa enough room =
    let (n, b, added, count, h, on) = add_all_lem 1 ps first_bins (record {
      bins = λ i. IsBin-fresh;
      states = IsDfa-roomy fresh IsBin-fresh.is;
      indexes = fresh-indexes;
    }) in
    let (d, merged, bin, all) =
      merge_rounds_lem n 5 33 (suc b.aux_count) (b.aux_count + 33 - 1) b.aux_dfa (omega arith)
        (omega (arith, count)) (omega arith) (omega arith) h.bins in
    let (c, copied, copies) = copy_dfa_lem pdfa d room bin.is.room.0 in
    let (e, compact, compacted) =
      compactify_att_lem (suc c.last_index) c (AreLinked-Copies d c copies bin.linked)
        (AreListed-Copies d c copies bin.is) (omega arith) in
    (
      e,
      rw (dfa_init_lem, added, merged, copied) compact,
      IsScanned-Compacted d c e bin.is copies compacted,
      λ w is_word v.
          let (to, from) = all w is_word v in
          let (held_to, held_from) = on w is_word v in
          let span : suc b.aux_count + 32 ≡ b.aux_count + 33 = omega arith in
          let window : ℕ → Type 0 = λ end. Among b.aux_dfa (suc b.aux_count) end w v in
          let (compact_to, compact_from) =
            Reports-Keeps c e compacted.keeps w (listed-Copies d c bin.is copies w is_word) v in
          let (copy_to, copy_from) = Reports-Copies d c bin.is copies w is_word v in
          (
            λ r. elim (held_to (subst window span (to (copy_to (compact_to r))))) [
              | inl wanted ↦ wanted
              | inr (i, low, high, r') ↦ absurd (omega (arith, fresh-silent w v r'))
            ],
            λ wanted.
                compact_from (copy_from (from (subst window (sym span) (held_from (inl wanted))))),
          ),
      (
        n,
        λ w is_word.
            Stops-Keeps c e compacted.keeps w (listed-Copies d c bin.is copies w is_word) n
              (Stops-Copies d c bin.is copies w is_word n (bin.stops w is_word)),
      ),
      IsClosed-Compacted d c e bin.is copies compacted,
    )

-- For a database of at least four patterns, and an automaton that has room, the bins are set up, all
-- strings are added, and dfa_finalize ends, without a failed assertion; the automaton that is made
-- can be scanned, and reports an index on a word exactly where some pattern has this index and its symbols stand for
-- the colors of the word. It stops on every word.
pub Reports-dfa_finalize :
    (ps : List Pattern) (pdfa : Dfa)
    → 4 ≤ length ps
    → HasRoom pdfa
    → (d : Dfa) × ((dfa_init >>= add_all ps >>= dfa_finalize pdfa) ≡ done d)
      × IsScanned d
      × ((w : Word) → IsWord w → (v : ℕ) → Reports d w v ↔ Wanted ps w v)
      × ((n : ℕ) × ((w : Word) → IsWord w → Stops d w n))
Reports-dfa_finalize ps pdfa enough room =
    let (d, ends, scanned, reports, stops, _) = dfa_finalize_lem ps pdfa enough room in
    (d, ends, scanned, reports, stops)
