-- ===== src/Dfa/Scan/Found.antt =====
-- scan_for_patterns finds what the automaton reports.
use gnugo.Base.{
  ℕ, zero, suc, ◌+◌, ◌-◌, ◌%◌, ◌≤◌, ◌<◌, ◌≡◌, ◌≢◌, ◌⊎◌, ◌↔◌, inl, inr, refl, sym, ap, subst, ◌∙◌,
  arith, true, false, Bool-cases, ==→≡, ltb, ◌==◌, List, [], ◌∷◌, ◌++◌,
}
use gnugo.Dfa.{done, Dfa}
use gnugo.Dfa.Attributes.{elem-append, IsList, IsList-unique, elem}
use gnugo.Dfa.Automaton.{IsScanned, Word, IsWord, run, run-suc, unlisted, Reports, Stops}
use gnugo.Dfa.Scan.{
  short, delta_of, print_c_dfa, read_index, add_delta, collect, scan_loop, scan_for_patterns,
}

-- Everything that is printed fits into the shorts, and no transition leads back to its own state.
pub record Fits (d : Dfa) : Type 0 where
  pub indices : d.last_index < 32768
  pub values : (i : ℕ) → 0 < i → i ≤ d.last_index → (d.indexes i).val < 32768
  pub near :
      (s c : ℕ)
      → s ≤ d.last_state
      → c < 4
      → (d.states s).next c ≢ 0
      → ((d.states s).next c < s + 32768) × (s < (d.states s).next c + 32768)
  pub moves : (s c : ℕ) → s ≤ d.last_state → c < 4 → (d.states s).next c ≡ s → s ≡ 0
  pub few : d.last_state < 65536

read_index-short : (n : ℕ) → n < 32768 → read_index (short n) ≡ done n
unfolding read_index
read_index-short n h =
    let same : n % 65536 ≡ n = omega arith in
    let low : ltb n 32768 ≡ true = ground arith in rw (same, low) refl

delta-forward : (s n : ℕ) → s ≤ n → n < s + 32768 → (n + 65536 - s) % 65536 ≡ n - s
delta-forward s n h k = omega arith

delta-back : (s n : ℕ) → s < 65536 → n < s → s < n + 32768 → (n + 65536 - s) % 65536 ≡ n + 65536 - s
delta-back s n few h k = omega arith

add_delta-delta_of :
    (s n : ℕ) → s < 65536 → n ≢ 0 → n < s + 32768 → s < n + 32768 → add_delta s (delta_of s n) ≡ n
unfolding add_delta delta_of
add_delta-delta_of s n few pos h k =
    let there : (n == 0) ≡ false = ground arith in
    elim (Bool-cases (ltb n s)) [
      | inl back ↦
          let value = delta-back s n few (ground arith) k in
          let high : ltb (n + 65536 - s) 32768 ≡ false = ground arith in
          rw (there, value, high) (ground arith)
      | inr forward ↦
          let value = delta-forward s n (ground arith) h in
          let low : ltb (n - s) 32768 ≡ true = ground arith in rw (there, value, low) (ground arith)
    ]

==-delta_of :
    (s n : ℕ)
    → s < 65536
    → n < s + 32768
    → s < n + 32768
    → n ≢ s
    → n ≢ 0
    → (delta_of s n == 0) ≡ false
unfolding delta_of
==-delta_of s n few h k other pos =
    let there : (n == 0) ≡ false = ground arith in
    elim (Bool-cases (ltb n s)) [
      | inl back ↦ rw (there, delta-back s n few (ground arith) k) (ground arith)
      | inr forward ↦ rw (there, delta-forward s n (ground arith) h) (ground arith)
    ]

delta_of-stop : (s n : ℕ) → (n == 0) ≡ true → (delta_of s n == 0) ≡ true
unfolding delta_of
delta_of-stop s n h = rw h refl

att-print_c_dfa : (d : Dfa) (s : ℕ) → ((print_c_dfa d).states s).att ≡ short (d.states s).att
unfolding print_c_dfa
att-print_c_dfa d s = refl

next-print_c_dfa :
    (d : Dfa) (s c : ℕ) → ((print_c_dfa d).states s).next c ≡ delta_of s ((d.states s).next c)
unfolding print_c_dfa
next-print_c_dfa d s c = refl

collect_lem :
    (d : Dfa) (f : Fits d) (fuel att : ℕ) (vs : List ℕ)
    → att ≤ fuel
    → att ≤ d.last_index
    → IsList d.indexes att vs
    → collect fuel (print_c_dfa d).indexes att ≡ done vs
unfolding collect print_c_dfa
collect_lem d f fuel zero [] h k p = refl
collect_lem d f fuel zero (v ∷ vs) h k p = absurd (omega (arith, p.0))
collect_lem d f fuel (suc att) [] h k p = absurd (omega (arith, p))
collect_lem d f zero (suc att) (v ∷ vs) h k p = absurd (omega arith)
collect_lem d f (suc fuel) (suc att) (v ∷ vs) h k (_, b, c, p) =
    let rest = collect_lem d f fuel _ vs (omega arith) (omega arith) p in
    let value = read_index-short _ (f.values (suc att) (omega arith) k) in
    let index = read_index-short (d.indexes (suc att)).next (omega (arith, f.indices)) in
    rw (value, index, rest, b) refl

module _ (d : Dfa) (is : IsScanned d) (f : Fits d) (w : Word) (is_word : IsWord w) where
  -- Some state from the row `k` on has the attribute `v`.
  abbrev ReportsFrom : ℕ → ℕ → Type 0
  ReportsFrom k v =
      (j : ℕ) × (k ≤ j)
      × (vs : List ℕ) × IsList d.indexes (d.states (run d w j)).att vs
      × (elem v vs ≡ true)

  -- It has it at `k`, or later.
  ReportsFrom-cases :
      (k v : ℕ) (vs : List ℕ)
      → IsList d.indexes (d.states (run d w k)).att vs
      → ReportsFrom k v ↔ ((elem v vs ≡ true) ⊎ ReportsFrom (suc k) v)
  ReportsFrom-cases k v vs list = (
    λ (j, h, us, list_us, found). elim (Bool-cases (k == j)) [
      | inl here ↦
          let moved =
            subst (λ i. IsList d.indexes (d.states (run d w i)).att us) (sym (==→≡ k j here))
              list_us in
          inl (subst (λ l. elem v l ≡ true) (IsList-unique d.indexes _ us vs moved list) found)
      | inr later ↦ inr (j, ground arith, us, list_us, found)
    ],
    λ either. elim either [
      | inl found ↦ (k, omega arith, vs, list, found)
      | inr (j, h, us, list_us, found) ↦ (j, omega arith, us, list_us, found)
    ],
  )

  scan_loop_lem :
      (fuel k n : ℕ)
      → Stops d w n
      → n ≤ fuel + k
      → run d w k ≢ 0
      → (vs : List ℕ) × (scan_loop fuel (print_c_dfa d) w (run d w k) k ≡ done vs)
        × ((v : ℕ) → (elem v vs ≡ true) ↔ ReportsFrom k v)
  unfolding scan_loop
  scan_loop_lem zero k n stops enough alive =
      absurd (alive (is.stopped w is_word n k (omega arith) stops))
  scan_loop_lem (suc fuel) k n stops enough alive =
      let s = run d w k in
      let (low, in_range, vs, list) = is.listed w is_word k in
      let next = (d.states s).next (w k) in
      let index = read_index-short (d.states s).att (omega (arith, in_range, f.indices)) in
      let found =
        collect_lem d f (d.states s).att (d.states s).att vs (omega arith) in_range list in
      elim (Bool-cases (next == 0)) [
        | inl last ↦ (
          vs,
          rw
              (
                att-print_c_dfa d s,
                index,
                found,
                next-print_c_dfa d s (w k),
                delta_of-stop s next last,
              )
              refl,
          λ v.
              let (to, from) = ReportsFrom-cases k v vs list in
              (
                λ e. from (inl e),
                λ r. elim (to r) [
                  | inl e ↦ e
                  | inr (j, h, us, list_us, in_us) ↦ absurd (
                      unlisted d (run d w j) v us
                        (ap (λ i. (d.states i).att)
                            (is.stopped w is_word (suc k) j h
                              (run-suc d w k s refl ∙ ==→≡ next 0 last))
                          ∙ is.no_attributes)
                        list_us in_us)
                ],
              ),
        )
        | inr on ↦
            let (near_up, near_down) = f.near s (w k) low (is_word k) (λ z. ground arith) in
            let moved : add_delta s (delta_of s next) ≡ run d w (suc k) =
              add_delta-delta_of s next (omega (arith, f.few)) (λ z. ground arith) near_up near_down
              ∙ sym (run-suc d w k s refl) in
            let onward =
              ==-delta_of s next (omega (arith, f.few)) near_up near_down
                (λ z. alive (f.moves s (w k) low (is_word k) z)) (λ z. ground arith) in
            let (us, rest, later) =
              scan_loop_lem fuel (suc k) n stops (omega arith)
                (λ z. ground (arith, run-suc d w k s refl)) in
            (
              vs ++ us,
              rw
                  (
                    att-print_c_dfa d s,
                    index,
                    found,
                    next-print_c_dfa d s (w k),
                    onward,
                    moved,
                    rest,
                  )
                  refl,
              λ v.
                  let (to, from) = ReportsFrom-cases k v vs list in
                  let (later_to, later_from) = later v in
                  (
                    λ e. elim (Bool-cases (elem v vs)) [
                      | inl here ↦ from (inl here)
                      | inr other ↦ from (inr (later_to (ground (arith, elem-append v vs us))))
                    ],
                    λ r. elim (to r) [
                      | inl here ↦ rw (elem-append v vs us, here) refl
                      | inr x ↦ elem-append v vs us ∙ ground (arith, later_from x)
                    ],
                  ),
            )
      ]

-- On an automaton that can be scanned, fits into shorts, and stops on the colors of a board within `n`
-- rows, scan_for_patterns ends on the tables of print_c_dfa with `n` turns of its loop, reads no
-- negative index, and finds exactly the patterns that the automaton reports.
pub scan_for_patterns-Reports :
    (d : Dfa)
    → IsScanned d
    → Fits d
    → (colors : Word) → IsWord colors
    → (n : ℕ) → Stops d colors n
    → (vs : List ℕ) × (scan_for_patterns n (print_c_dfa d) colors ≡ done vs)
      × ((v : ℕ) → (elem v vs ≡ true) ↔ Reports d colors v)
unfolding scan_for_patterns run
scan_for_patterns-Reports d is f colors is_word n stops =
    let (vs, e, on) =
      scan_loop_lem d is f colors is_word n 0 n stops (omega arith) (λ z. omega (arith, z)) in
    (
      vs,
      e,
      λ v.
          let (to, from) = on v in
          (
            λ h. let (j, _, us, list, found) = to h in (j, us, list, found),
            λ (j, us, list, found). from (j, omega arith, us, list, found),
          ),
    )
