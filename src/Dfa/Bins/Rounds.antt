-- ===== src/Dfa/Bins/Rounds.antt =====
-- The outer loop of dfa_finalize: one automaton reports what all bins did.
use gnugo.Base.{
  ℕ, zero, suc, ◌+◌, ◌-◌, ◌%◌, ◌≤◌, ◌<◌, ◌≡◌, ◌↔◌, inl, inr, refl, subst, ◌∙◌, arith, true, false,
  ◌==◌,
}
use gnugo.Dfa.{done, Dfa}
use gnugo.Dfa.Automaton.{Word, IsWord, Reports}
use gnugo.Dfa.Bins.{dfa_bins, Merged, merge_bins, merge_rounds}
use gnugo.Dfa.Bins.Merge.{IsBin, AreBins, Among, merge_bins_lem}

-- The bins that are left before `r` rounds.
abbrev pub bins_of : ℕ → ℕ
bins_of zero = 1
bins_of (suc r) = bins_of r + bins_of r

bins_of_pos : (r : ℕ) → 0 < bins_of r
bins_of_pos zero = omega arith
bins_of_pos (suc r) = omega (arith, bins_of_pos r)

merge_rounds-one :
    (fuel above last : ℕ) (bins : ℕ → Dfa)
    → above ≡ last
    → merge_rounds fuel above last bins ≡ done (bins (last % dfa_bins))
unfolding merge_rounds
merge_rounds-one zero above last bins e =
    let same : (above == last) ≡ true = ground arith in rw same refl
merge_rounds-one (suc fuel) above last bins e =
    let same : (above == last) ≡ true = ground arith in rw same refl

merge_rounds-more :
    (fuel above last : ℕ) (bins : ℕ → Dfa) (m : Merged)
    → (above == last) ≡ false
    → (above == 0) ≡ false
    → merge_bins dfa_bins above last (above - 1) bins ≡ done m
    → merge_rounds (suc fuel) above last bins
      ≡ merge_rounds fuel (above - 1) (m.next_bin - 1) m.bins
unfolding merge_rounds
merge_rounds-more fuel above last bins m h k e = rw (h, k, e) refl

pub merge_rounds_lem :
    (n r fuel above last : ℕ) (bins : ℕ → Dfa)
    → r ≤ fuel
    → r ≤ above
    → bins_of r ≤ 32
    → suc last ≡ above + bins_of r
    → AreBins n bins
    → (d : Dfa) × (merge_rounds fuel above last bins ≡ done d)
      × IsBin n d
      × ((w : Word) → IsWord w → (v : ℕ) → Reports d w v ↔ Among bins above (above + bins_of r) w v)
merge_rounds_lem n zero fuel above last bins h k few e bs = (
  bins (last % dfa_bins),
  merge_rounds-one fuel above last bins (omega arith),
  bs (last % dfa_bins),
  λ w is_word v. (
    λ r. (last, omega arith, omega arith, r),
    λ (i, low, high, r). subst (λ k. Reports (bins (k % dfa_bins)) w v) (omega arith) r,
  ),
)
merge_rounds_lem n (suc r) zero above last bins h k few e bs = absurd (omega arith)
merge_rounds_lem n (suc r) (suc fuel) above last bins h k few e bs =
    let pos = bins_of_pos r in
    let base = above - 1 in
    let (m, merged, count, ms, halved) =
      merge_bins_lem n (bins_of r) 33 base above base last bins (omega arith) (omega arith)
        (omega arith) (omega arith) e bs in
    let (d, ends, b, reports) =
      merge_rounds_lem n r fuel base (m.next_bin - 1) m.bins (omega arith) (omega arith)
        (omega arith) (omega (arith, count)) ms in
    (
      d,
      merge_rounds-more fuel above last bins m (ground arith) (ground arith) merged ∙ ends,
      b,
      λ w is_word v.
          let (to, from) = reports w is_word v in
          let (halved_to, halved_from) = halved w is_word v in
          (
            λ x. elim (halved_to (to x)) [
              | inl (i, low, high, _) ↦ absurd (omega arith)
              | inr y ↦ y
            ],
            λ y. from (halved_from (inr y)),
          ),
    )
