-- ===== src/Dfa/Bins/Merge.antt =====
-- The inner loop of dfa_finalize: half as many bins report what all did.
use gnugo.Base.{
  ℕ, zero, suc, ◌+◌, ◌%◌, ◌≤◌, ◌<◌, ◌≡◌, ◌⊎◌, ◌↔◌, inl, inr, refl, sym, ap, subst, ◌∙◌, arith, true,
  false, Bool-cases, ==→≡, leb, ◌==◌,
}
use gnugo.Dfa.{done, Dfa, put, no_state}
use gnugo.Dfa.Attributes.{AreLinked, put-same, put-other}
use gnugo.Dfa.Automaton.{IsDfa, Word, IsWord, Reports, Stops, run-stopped}
use gnugo.Dfa.Bins.{dfa_bins, merge_two, Merged, merge_bins}
use gnugo.Dfa.Product.{sync_product}
use gnugo.Dfa.Product.Reports.{Reports-sync_product}

-- A well-formed automaton that stops within `n` symbols.
pub record IsBin (n : ℕ) (d : Dfa) : Type 0 where
  pub is : IsDfa d
  pub linked : AreLinked d
  pub clear : d.states 0 ≡ no_state
  pub stops : (w : Word) → IsWord w → Stops d w n

abbrev pub AreBins : ℕ → (ℕ → Dfa) → Type 0
AreBins n bins = (i : ℕ) → IsBin n (bins i)

-- One of the bins from `a` on and before `b` reports it.
abbrev pub Among : (ℕ → Dfa) → ℕ → ℕ → Word → ℕ → Type 0
Among bins a b w v = (i : ℕ) × (a ≤ i) × (i < b) × Reports (bins (i % dfa_bins)) w v

pub IsBin-room : (n : ℕ) (d : Dfa) → IsBin n d → (1 < d.max_states) × (0 < d.max_indexes)
IsBin-room n d b = let (h, k) = b.is.room in (omega (arith, b.is.started), omega arith)

pub IsBin-le : (n m : ℕ) (d : Dfa) → n ≤ m → IsBin n d → IsBin m d
IsBin-le n m d h b = record {
  is = b.is;
  linked = b.linked;
  clear = b.clear;
  stops = λ w is_word. run-stopped d w b.is is_word n m h (b.stops w is_word);
}

pub AreBins-put :
    (n i : ℕ) (bins : ℕ → Dfa) (d : Dfa) → AreBins n bins → IsBin n d → AreBins n (put bins i d)
AreBins-put n i bins d bs b k = elim (Bool-cases (k == i)) [
  | inl same ↦ rw same b
  | inr other ↦ rw other (bs k)
]

-- A product of bins, in a bin.
pub IsBin-sync_product :
    (n : ℕ) (out left right : Dfa)
    → IsBin n out
    → IsBin n left
    → IsBin n right
    → (d : Dfa) × (sync_product out left right ≡ done d)
      × IsBin n d
      × ((w : Word) → IsWord w → (v : ℕ) → Reports d w v ↔ (Reports left w v ⊎ Reports right w v))
IsBin-sync_product n out left right o l r =
    let (h, k) = IsBin-room n out o in
    let (d, e, is, clear, linked, on) = Reports-sync_product left right out l.is r.is h k o.clear in
    (
      d,
      e,
      record {
        is = is;
        linked = linked;
        clear = clear;
        stops = λ w is_word. (on w is_word).1 n (l.stops w is_word) (r.stops w is_word);
      },
      λ w is_word. (on w is_word).0,
    )

-- The bins in a window of 33 are different ones.
pub other_bin : (i k : ℕ) → i < k → k < i + 33 → (k % dfa_bins == i % dfa_bins) ≡ false
other_bin i k h e = ground arith

pub put-window :
    (bins : ℕ → Dfa) (d : Dfa) (i k : ℕ)
    → i < k
    → k < i + 33
    → put bins (i % dfa_bins) d (k % dfa_bins) ≡ bins (k % dfa_bins)
put-window bins d i k h e = put-other bins (i % dfa_bins) (k % dfa_bins) d (other_bin i k h e)

pub put-behind :
    (bins : ℕ → Dfa) (d : Dfa) (i k : ℕ)
    → k < i
    → i < k + 33
    → put bins (i % dfa_bins) d (k % dfa_bins) ≡ bins (k % dfa_bins)
put-behind bins d i k h e = put-other bins (i % dfa_bins) (k % dfa_bins) d (ground arith)

module _ (bins : ℕ → Dfa) (d : Dfa) (w : Word) (v : ℕ) where
  abbrev now : ℕ → ℕ → Dfa
  now i = put bins (i % dfa_bins) d

  -- The bins before the one that is written, and it.
  Among-written :
      (base next : ℕ)
      → base ≤ next
      → next < base + 33
      → Among (now next) base (suc next) w v ↔ (Among bins base next w v ⊎ Reports d w v)
  Among-written base next h e = (
    λ (i, a, b, r). elim (Bool-cases (i == next)) [
      | inl same ↦ inr (
          subst (λ c. Reports c w v)
            (ap (λ k. now next (k % dfa_bins)) (==→≡ i next same)
              ∙ put-same bins (next % dfa_bins) d)
            r)
      | inr other ↦
          let less : i < next = ground arith in
          inl
            (i, a, less, subst (λ c. Reports c w v) (put-behind bins d next i less (omega arith)) r)
    ],
    λ either. elim either [
      | inl (i, a, b, r) ↦ (
        i,
        a,
        omega arith,
        subst (λ c. Reports c w v) (sym (put-behind bins d next i b (omega arith))) r,
      )
      | inr r ↦ (
        next,
        h,
        omega arith,
        subst (λ c. Reports c w v) (sym (put-same bins (next % dfa_bins) d)) r,
      )
    ],
  )

  -- The bins behind it.
  Among-unwritten :
      (next a b : ℕ) → next < a → b ≤ next + 33 → Among (now next) a b w v ↔ Among bins a b w v
  Among-unwritten next a b h e = (
    λ (i, low, high, r). (
      i,
      low,
      high,
      subst (λ c. Reports c w v) (put-window bins d next i (omega arith) (omega arith)) r,
    ),
    λ (i, low, high, r). (
      i,
      low,
      high,
      subst (λ c. Reports c w v) (sym (put-window bins d next i (omega arith) (omega arith))) r,
    ),
  )

  -- Two bins, and the others.
  Among-two :
      (j b : ℕ)
      → j + 2 ≤ b
      → Among bins j b w v ↔ (
          (Reports (bins (j % dfa_bins)) w v ⊎ Reports (bins ((j + 1) % dfa_bins)) w v)
          ⊎ Among bins (j + 2) b w v)
  Among-two j b h = (
    λ (i, low, high, r). elim (Bool-cases (i == j)) [
      | inl first ↦ inl (inl (subst (λ k. Reports (bins (k % dfa_bins)) w v) (==→≡ i j first) r))
      | inr other ↦ elim (Bool-cases (i == j + 1)) [
        | inl second ↦
            inl (inr (subst (λ k. Reports (bins (k % dfa_bins)) w v) (==→≡ i (j + 1) second) r))
        | inr later ↦ inr (i, ground arith, high, r)
      ]
    ],
    λ either. elim either [
      | inl (inl r) ↦ (j, omega arith, omega arith, r)
      | inl (inr r) ↦ (j + 1, omega arith, omega arith, r)
      | inr (i, low, high, r) ↦ (i, omega arith, high, r)
    ],
  )

  -- The bin that is written is the last one of the next window.
  pub Among-moved :
      (c : ℕ) (T : Type 0)
      → (Reports d w v ↔ (Reports (bins ((c + 1) % dfa_bins)) w v ⊎ T))
      → Among (now c) (suc (suc c)) (suc c + 33) w v ↔ (T ⊎ Among bins (suc c) (c + 33) w v)
  Among-moved c T (on_to, on_from) =
      let turned : (c + 33) % dfa_bins ≡ c % dfa_bins = omega arith in
      let at_last : now c ((c + 33) % dfa_bins) ≡ d =
        ap (now c) turned ∙ put-same bins (c % dfa_bins) d in
      let place : Reports d w v → Among (now c) (suc (suc c)) (suc c + 33) w v =
        λ r. (c + 33, omega arith, omega arith, subst (λ x. Reports x w v) (sym at_last) r) in
      (
        λ (i, low, high, r). elim (Bool-cases (i == c + 33)) [
          | inl last ↦
              elim (on_to (
                subst (λ x. Reports x w v)
                  (ap (λ k. now c (k % dfa_bins)) (==→≡ i (c + 33) last) ∙ at_last) r)) [
                    | inl old ↦ inr (
                      suc c,
                      omega arith,
                      omega arith,
                      subst (λ k. Reports (bins (k % dfa_bins)) w v) (omega arith) old,
                    )
                    | inr t ↦ inl t
                  ]
          | inr before ↦ inr (
            i,
            omega arith,
            ground arith,
            subst (λ x. Reports x w v) (put-window bins d c i (omega arith) (ground arith)) r,
          )
        ],
        λ either. elim either [
          | inl t ↦ place (on_from (inr t))
          | inr (i, low, high, r) ↦ elim (Bool-cases (i == c + 1)) [
            | inl first ↦ place (
                on_from
                  (inl (subst (λ k. Reports (bins (k % dfa_bins)) w v) (==→≡ i (c + 1) first) r)))
            | inr later ↦ (
              i,
              ground arith,
              omega arith,
              subst (λ x. Reports x w v) (sym (put-window bins d c i (omega arith) (omega arith)))
                  r,
            )
          ]
        ],
      )

  -- One turn of the loop, and the turns after it.
  Among-turn :
      (r : ℕ → Dfa) (base next j top end : ℕ)
      → base ≤ next
      → next < j
      → j + 2 ≤ end
      → end ≤ base + 33
      → (Reports d w v
          ↔ (Reports (bins (j % dfa_bins)) w v ⊎ Reports (bins ((j + 1) % dfa_bins)) w v))
      → (Among r base top w v
          ↔ (Among (now next) base (suc next) w v ⊎ Among (now next) (j + 2) end w v))
      → Among r base top w v ↔ (Among bins base next w v ⊎ Among bins j end w v)
  Among-turn r base next j top end h k two window (on_to, on_from) (later_to, later_from) =
      let (written_to, written_from) = Among-written base next h (omega arith) in
      let (kept_to, kept_from) = Among-unwritten next (j + 2) end (omega arith) (omega arith) in
      let (two_to, two_from) = Among-two j end two in
      (
        λ x. elim (later_to x) [
          | inl y ↦ elim (written_to y) [ inl z ↦ inl z | inr z ↦ inr (two_from (inl (on_to z))) ]
          | inr y ↦ inr (two_from (inr (kept_to y)))
        ],
        λ either. elim either [
          | inl x ↦ later_from (inl (written_from (inl x)))
          | inr x ↦ elim (two_to x) [
            | inl y ↦ later_from (inl (written_from (inr (on_from y))))
            | inr y ↦ later_from (inr (kept_from y))
          ]
        ],
      )

merge_bins-none :
    (fuel j last next : ℕ) (bins : ℕ → Dfa)
    → leb j last ≡ false
    → merge_bins fuel j last next bins ≡ done (record { bins = bins; next_bin = next })
unfolding merge_bins
merge_bins-none zero j last next bins h = rw h refl
merge_bins-none (suc fuel) j last next bins h = rw h refl

merge_two_lem :
    (j next : ℕ) (bins : ℕ → Dfa) (d : Dfa)
    → next < j
    → sync_product (bins (next % dfa_bins)) (bins (j % dfa_bins)) (bins ((j + 1) % dfa_bins))
      ≡ done d
    → merge_two j next bins ≡ done (put bins (next % dfa_bins) d)
unfolding merge_two
merge_two_lem j next bins d h made =
    let apart : (j + 1 == next) ≡ false = ground arith in rw (apart, made) refl

-- A loop of `m` turns merges 2 * m bins into `m`.
pub merge_bins_lem :
    (n m fuel base j next last : ℕ) (bins : ℕ → Dfa)
    → base ≤ next
    → next < j
    → j + (m + m) ≤ base + 33
    → m ≤ fuel
    → suc last ≡ j + (m + m)
    → AreBins n bins
    → (r : Merged) × (merge_bins fuel j last next bins ≡ done r)
      × (r.next_bin ≡ next + m)
      × AreBins n r.bins
      × ((w : Word)
          → IsWord w
          → (v : ℕ)
          → Among r.bins base (next + m) w v
            ↔ (Among bins base next w v ⊎ Among bins j (j + (m + m)) w v))
unfolding merge_bins
merge_bins_lem n zero fuel base j next last bins h k window enough e bs = (
  record { bins = bins; next_bin = next },
  merge_bins-none fuel j last next bins (ground arith),
  omega arith,
  bs,
  λ w is_word v. (
    λ (i, low, high, r). inl (i, low, omega arith, r),
    λ either. elim either [
      | inl (i, low, high, r) ↦ (i, low, omega arith, r)
      | inr (i, low, high, r) ↦ absurd (omega arith)
    ],
  ),
)
merge_bins_lem n (suc m) zero base j next last bins h k window enough e bs = absurd (omega arith)
merge_bins_lem n (suc m) (suc fuel) base j next last bins h k window enough e bs =
    let (d, made, b, on) =
      IsBin-sync_product n (bins (next % dfa_bins)) (bins (j % dfa_bins))
        (bins ((j + 1) % dfa_bins)) (bs _) (bs _) (bs _) in
    let bins1 = put bins (next % dfa_bins) d in
    let (r, ends, count, rs, among) =
      merge_bins_lem n m fuel base (j + 2) (suc next) last bins1 (omega arith) (omega arith)
        (omega arith) (omega arith) (omega arith) (AreBins-put n (next % dfa_bins) bins d bs b) in
    let more : leb j last ≡ true = ground arith in
    (
      r,
      rw (more, merge_two_lem j next bins d k made) ends,
      omega (arith, count),
      rs,
      λ w is_word v.
          Among-turn bins d w v r.bins base next j (next + suc m) (j + (suc m + suc m)) h k
            (omega arith) window (on w is_word v)
            (subst
              (λ top.
                Among r.bins base top w v
                ↔ (Among bins1 base (suc next) w v ⊎ Among bins1 (j + 2) (j + (suc m + suc m)) w v))
              (omega arith)
              (subst
                (λ end.
                  Among r.bins base (suc next + m) w v
                  ↔ (Among bins1 base (suc next) w v ⊎ Among bins1 (j + 2) end w v))
                (omega arith) (among w is_word v))),
    )
