-- ===== src/Dfa/Matching.antt =====
-- The automata and the scan together: mkpat makes the tables of a database, and the engine finds
-- with them the patterns that match.
use gnugo.Base.{ℕ, ◌≤◌, ◌≡◌, ◌↔◌, true, List, length}
use gnugo.Dfa.{Outcome, done, ◌>>=◌, Dfa}
use gnugo.Dfa.Attributes.{HasRoom, elem}
use gnugo.Dfa.Automaton.{Word, IsWord}
use gnugo.Dfa.Bins.{Pattern, dfa_init, add_all, dfa_finalize}
use gnugo.Dfa.Bins.Whole.{Wanted, dfa_finalize_lem}
use gnugo.Dfa.Shuffle.{dfa_shuffle}
use gnugo.Dfa.Shuffle.Renumbered.{dfa_shuffle_lem}
use gnugo.Dfa.Scan.{print_c_dfa, scan_for_patterns}
use gnugo.Dfa.Scan.Found.{Fits, scan_for_patterns-Reports}

-- The calls of mkpat for the strings of a database, up to the automaton that is printed.
unfoldable pub built_dfa : List Pattern → Dfa → Outcome Dfa
built_dfa ps pdfa = dfa_init >>= add_all ps >>= dfa_finalize pdfa >>= dfa_shuffle

-- Where mkpat builds the automaton of at least four patterns without a failed assertion, and it fits
-- into shorts, scan_for_patterns ends on its tables, for all colors of a board, with enough turns of
-- its loop, and finds exactly the indices of those patterns whose symbols stand for the colors.
pub scan_for_patterns-Wanted :
    (ps : List Pattern) (pdfa d : Dfa)
    → 4 ≤ length ps
    → HasRoom pdfa
    → built_dfa ps pdfa ≡ done d
    → Fits d
    → (colors : Word) → IsWord colors
    → (n : ℕ) × (vs : List ℕ) × (scan_for_patterns n (print_c_dfa d) colors ≡ done vs)
      × ((v : ℕ) → (elem v vs ≡ true) ↔ Wanted ps colors v)
unfolding built_dfa
scan_for_patterns-Wanted ps pdfa d enough room made fits colors is_word =
    let (e, ends, scanned, reports, (n, stops), closed) = dfa_finalize_lem ps pdfa enough room in
    let shuffled : dfa_shuffle e ≡ done d = rw ends at made in
    let (scanned', kept) = dfa_shuffle_lem e d closed scanned shuffled in
    let (same, stops') = kept colors is_word in
    let (vs, found, exact) =
      scan_for_patterns-Reports d scanned' fits colors is_word n
        (stops' n (stops colors is_word)) in
    (
      n,
      vs,
      found,
      λ v.
          let (to, from) = exact v in
          let (down, up) = same v in
          let (wanted, back) = reports colors is_word v in
          (λ h. wanted (down (to h)), λ h. from (up (back h))),
    )
