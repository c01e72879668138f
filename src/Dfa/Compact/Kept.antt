-- ===== src/Dfa/Compact/Kept.antt =====
-- compactify_att keeps every list of attributes.
use gnugo.Base.{
  ℕ, zero, suc, ◌+◌, ◌≤◌, ◌<◌, ◌≡◌, ◌≢◌, ◌⊎◌, inl, inr, refl, sym, subst, ◌∙◌, arith, false,
  Bool-cases, ==→≡, ◌==◌,
}
use gnugo.Dfa.{Outcome, done, Attrib, put}
use gnugo.Dfa.Attributes.{put-same, put-other}
use gnugo.Dfa.Compact.{Compacting, Slot, search_loop, find_slot, compact_entry}

same_attrib : {a b : Attrib} → a.val ≡ b.val → a.next ≡ b.next → a ≡ b
same_attrib e h i = record { val = e i; next = h i }

-- After the entries up to `k` of the attributes `o`.
pub record Kept (o : ℕ → Attrib) (t : Compacting) (k : ℕ) : Type 0 where
  pub behind : t.last ≤ k
  pub unread : (j : ℕ) → t.last < j → t.indexes j ≡ o j
  pub mapped :
      (j : ℕ) → 0 < j → j ≤ k → (0 < t.map j) × (t.map j ≤ t.last) × (t.indexes (t.map j) ≡ o j)
  pub full : t.last ≡ k → (j : ℕ) → j ≤ k → t.indexes j ≡ o j
  pub zero_mapped : t.map 0 ≡ 0
  pub linked :
      (i : ℕ) → 0 < i → i ≤ t.last → ((t.indexes i).next ≤ k) × (t.map (t.indexes i).next < i)
  pub firsts :
      (v : ℕ)
      → t.search_first v ≢ 0
      → (t.search_first v ≤ t.last) × ((t.indexes (t.search_first v)).val ≡ v)
  pub nexts :
      (i : ℕ)
      → t.search_next i ≢ 0
      → (i < t.search_next i)
        × (t.search_next i ≤ t.last)
        × ((t.indexes (t.search_next i)).val ≡ (t.indexes i).val)

-- What the search ends with, at an entry `i` of the same value.
abbrev Searched : Compacting → ℕ → ℕ → Outcome Slot → Type 0
Searched t k i slot =
    (0 < i)
    × (i ≤ t.last)
    × ((t.indexes i).val ≡ (t.indexes k).val)
    × (((slot ≡ done (record { found = i; rest = t })) × ((t.indexes i).next ≡ (t.indexes k).next))
        ⊎ (slot
            ≡ done (record {
              found = 0;
              rest = record t { search_next = put t.search_next i (suc t.last); last = suc t.last };
            })))

search_loop_lem :
    (o : ℕ → Attrib) (t : Compacting) (b : ℕ)
    → Kept o t b
    → (fuel k i : ℕ) → 0 < i
    → i ≤ t.last
    → t.last < fuel + i
    → (t.indexes i).val ≡ (t.indexes k).val
    → (j : ℕ) × Searched t k j (search_loop fuel k i t)
unfolding search_loop
search_loop_lem o t b kept zero k i h l enough e = absurd (omega arith)
search_loop_lem o t b kept (suc fuel) k i h l enough e =
    elim (Bool-cases ((t.indexes i).next == (t.indexes k).next)) [
      | inl same ↦ (i, (h, l, e, inl (rw same refl, ==→≡ _ _ same)))
      | inr other ↦ elim (Bool-cases (t.search_next i == 0)) [
        | inl last ↦ (i, (h, l, e, inr (rw (other, last) refl)))
        | inr more ↦
            let (up, low, val) = kept.nexts i (λ z. ground arith) in
            let (j, (pos, in_range, same_val, ends)) =
              search_loop_lem o t b kept fuel k (t.search_next i) (omega arith) low (omega arith)
                (val ∙ e) in
            (j, (pos, in_range, same_val, rw (other, more) ends))
      ]
    ]

-- A new entry: the arrays of the search may have changed by one place that leads to it.
module _ (o : ℕ → Attrib) (t : Compacting) (k : ℕ) (kept : Kept o t k)
    (link : (o (suc k)).next ≤ k) where
  abbrev entered : (first next : ℕ → ℕ) → Compacting
  entered first next = record t {
    last = suc t.last;
    search_first = first;
    search_next = next;
    map = put t.map (suc k) (suc t.last);
    indexes = put t.indexes (suc t.last) (t.indexes (suc k));
  }

  abbrev indexes1 : ℕ → Attrib
  indexes1 = put t.indexes (suc t.last) (t.indexes (suc k))

  old_index : (i : ℕ) → i ≤ t.last → indexes1 i ≡ t.indexes i
  old_index i h = put-other t.indexes (suc t.last) i _ (ground arith)

  new_index : indexes1 (suc t.last) ≡ o (suc k)
  new_index = put-same t.indexes (suc t.last) _ ∙ kept.unread (suc k) (omega (arith, kept.behind))

  old_map : (j : ℕ) → j ≤ k → put t.map (suc k) (suc t.last) j ≡ t.map j
  old_map j h = put-other t.map (suc k) j _ (ground arith)

  map_le : (j : ℕ) → j ≤ k → t.map j ≤ t.last
  map_le zero h = omega (arith, kept.zero_mapped)
  map_le (suc j) h = let (_, low, _) = kept.mapped (suc j) (omega arith) h in low

  Kept-entered :
      (first next : ℕ → ℕ)
      → ((v : ℕ) → first v ≢ 0 → (first v ≤ suc t.last) × ((indexes1 (first v)).val ≡ v))
      → ((i : ℕ)
          → next i ≢ 0
          → (i < next i) × (next i ≤ suc t.last) × ((indexes1 (next i)).val ≡ (indexes1 i).val))
      → Kept o (entered first next) (suc k)
  Kept-entered first next firsts nexts = record {
    behind = omega (arith, kept.behind);
    unread =
        λ j h. put-other t.indexes (suc t.last) j _ (ground arith) ∙ kept.unread j (omega arith);
    mapped = λ j h l. elim (Bool-cases (j == suc k)) [
      | inl new ↦
          rw (==→≡ j (suc k) new, put-same t.map (suc k) (suc t.last))
            (omega arith, omega arith, new_index)
      | inr old ↦
          let (pos, low, same) = kept.mapped j h (ground arith) in
          rw (old_map j (ground arith)) (pos, omega arith, old_index (t.map j) low ∙ same)
    ];
    full = λ e j h. elim (Bool-cases (j == suc k)) [
      | inl new ↦ rw (==→≡ j (suc k) new) (subst (λ i. indexes1 i ≡ o (suc k)) e new_index)
      | inr old ↦ old_index j (ground arith) ∙ kept.full (omega arith) j (ground arith)
    ];
    zero_mapped = old_map 0 (omega arith) ∙ kept.zero_mapped;
    linked = λ i h l. elim (Bool-cases (i == suc t.last)) [
      | inl new ↦
          let mapped = map_le ((o (suc k)).next) link in
          rw (==→≡ i (suc t.last) new, new_index, old_map ((o (suc k)).next) link)
            (omega arith, omega arith)
      | inr old ↦
          let (low, less) = kept.linked i h (ground arith) in
          rw (old_index i (ground arith), old_map ((t.indexes i).next) low) (omega arith, less)
    ];
    firsts = firsts;
    nexts = nexts;
  }

  -- The value has no entry yet.
  Kept-first :
      t.search_first (t.indexes (suc k)).val ≡ 0
      → Kept o
          (entered (put t.search_first (t.indexes (suc k)).val (suc t.last)) t.search_next)
          (suc k)
  Kept-first none =
      let val = (t.indexes (suc k)).val in
      Kept-entered (put t.search_first val (suc t.last)) t.search_next
        (λ v there. elim (Bool-cases (v == val)) [
          | inl same ↦
              rw
                (
                  ==→≡ v val same,
                  put-same t.search_first val (suc t.last),
                  put-same t.indexes (suc t.last) (t.indexes (suc k)),
                )
                (omega arith, refl)
          | inr other ↦
              let apart = put-other t.search_first val v (suc t.last) other in
              let (low, same) = kept.firsts v (λ z. there (apart ∙ z)) in
              rw (apart, old_index (t.search_first v) low) (omega arith, same)
        ])
        (λ i there.
          let (up, low, same) = kept.nexts i there in
          (up, omega arith, rw (old_index (t.search_next i) low, old_index i (omega arith)) same))

  -- The entries of its value are all linked elsewhere.
  Kept-chained :
      (j : ℕ)
      → j ≤ t.last
      → (t.indexes j).val ≡ (t.indexes (suc k)).val
      → Kept o (entered t.search_first (put t.search_next j (suc t.last))) (suc k)
  Kept-chained j l val =
      Kept-entered t.search_first (put t.search_next j (suc t.last))
        (λ v there.
          let (low, same) = kept.firsts v there in
          (omega arith, rw (old_index (t.search_first v) low) same))
        (λ i there. elim (Bool-cases (i == j)) [
          | inl here ↦
              rw
                (
                  ==→≡ i j here,
                  put-same t.search_next j (suc t.last),
                  put-same t.indexes (suc t.last) (t.indexes (suc k)),
                  old_index j l,
                )
                (omega arith, omega arith, sym val)
          | inr other ↦
              let apart = put-other t.search_next j i (suc t.last) other in
              let (up, low, same) = kept.nexts i (λ z. there (apart ∙ z)) in
              rw (apart, old_index (t.search_next i) low, old_index i (omega arith))
                (up, omega arith, same)
        ])

  -- The entry repeats entry `j`.
  Kept-repeated :
      (j : ℕ)
      → 0 < j
      → j ≤ t.last
      → t.indexes j ≡ o (suc k)
      → Kept o (record t { map = put t.map (suc k) j }) (suc k)
  Kept-repeated j pos l same = record {
    behind = omega (arith, kept.behind);
    unread = kept.unread;
    mapped = λ i h m. elim (Bool-cases (i == suc k)) [
      | inl new ↦ rw (==→≡ i (suc k) new, put-same t.map (suc k) j) (pos, l, same)
      | inr old ↦ rw old (kept.mapped i h (ground arith))
    ];
    full = λ e i h. absurd (omega (arith, kept.behind, e));
    zero_mapped = put-other t.map (suc k) 0 j (ground arith) ∙ kept.zero_mapped;
    linked = λ i h m.
        let (low, less) = kept.linked i h m in
        rw (put-other t.map (suc k) (t.indexes i).next j (ground arith)) (omega arith, less);
    firsts = kept.firsts;
    nexts = kept.nexts;
  }

  -- One entry.
  pub compact_entry_lem :
      (t' : Compacting) × (compact_entry (suc k) t ≡ done t') × Kept o t' (suc k)
  unfolding compact_entry find_slot
  compact_entry_lem =
      let first = t.search_first (t.indexes (suc k)).val in
      elim (Bool-cases (first == 0)) [
        | inl none ↦ (
          entered (put t.search_first (t.indexes (suc k)).val (suc t.last)) t.search_next,
          rw none refl,
          Kept-first (==→≡ first 0 none),
        )
        | inr some_entry ↦
            let (low, val) = kept.firsts (t.indexes (suc k)).val (λ z. ground arith) in
            let (j, (pos, in_range, same_val, ends)) =
              search_loop_lem o t k kept (suc k) (suc k) first (ground arith) low
                (omega (arith, kept.behind)) val in
            elim ends [
              | inl (found, same_next) ↦
                  let there : (j == 0) ≡ false = ground arith in
                  (
                    record t { map = put t.map (suc k) j },
                    rw (some_entry, found, there) refl,
                    Kept-repeated j pos in_range (
                        same_attrib same_val same_next
                        ∙ kept.unread (suc k) (omega (arith, kept.behind))),
                  )
              | inr new ↦ (
                entered t.search_first (put t.search_next j (suc t.last)),
                rw (some_entry, new) refl,
                Kept-chained j in_range same_val,
              )
            ]
      ]
