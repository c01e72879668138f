-- ===== src/Dfa/Bins.antt =====
-- patterns/dfa.c: dfa_init, dfa_add_string and dfa_finalize.
pub mod Merge
pub mod Rounds
pub mod Whole
use gnugo.Base.{
  ℕ, zero, suc, ◌+◌, ◌-◌, ◌%◌, Bool, true, false, leb, ◌==◌, if◌then◌else◌, List, [], ◌∷◌,
}
use gnugo.Dfa.{Outcome, done, failed, out_of_fuel, ◌>>=◌, Dfa, put, new_dfa}
use gnugo.Dfa.Compact.{compactify_att}
use gnugo.Dfa.Copy.{copy_dfa}
use gnugo.Dfa.Linear.{create_dfa}
use gnugo.Dfa.Product.{sync_product}

abbrev pub dfa_bins : ℕ
dfa_bins = 33

pub record Bins : Type 0 where
  pub aux_dfa : ℕ → Dfa
  pub aux_temp : Dfa
  pub aux_count : ℕ

-- What new_dfa makes is the same for each bin. aux_count is a static variable, which no other
-- function has changed before: the bins are set up once in a run of mkpat.
unfoldable pub dfa_init : Outcome Bins
dfa_init = new_dfa >>= λ d. done (record { aux_dfa = λ i. d; aux_temp = d; aux_count = 0 })

-- dfa_was_initialized is 1 after dfa_init. The ratio of sizes that it returns is left out.
unfoldable pub dfa_add_string : List ℕ → ℕ → Bins → Outcome Bins
dfa_add_string str pattern_index b =
    let new = b.aux_count % dfa_bins in
    let old = (b.aux_count + 1) % dfa_bins in
    create_dfa b.aux_temp str pattern_index >>= λ temp.
    sync_product (b.aux_dfa new) (b.aux_dfa old) temp >>= λ d.
    done (record { aux_dfa = put b.aux_dfa new d; aux_temp = temp; aux_count = suc b.aux_count })

-- The string of a pattern, and its index in the database.
pub record Pattern : Type 0 where
  pub string : List ℕ
  pub index : ℕ

-- The calls for all patterns of a database.
unfoldable pub add_all : List Pattern → Bins → Outcome Bins
add_all [] b = done b
add_all (p ∷ ps) b = dfa_add_string p.string p.index b >>= add_all ps

-- The body of the inner loop.
unfoldable pub merge_two : ℕ → ℕ → (ℕ → Dfa) → Outcome (ℕ → Dfa)
merge_two j next_bin bins =
    let out = bins (next_bin % dfa_bins) in
    let left = bins (j % dfa_bins) in
    let right = bins ((j + 1) % dfa_bins) in
    (if j + 1 == next_bin then copy_dfa out left else sync_product out left right) >>= λ d.
    done (put bins (next_bin % dfa_bins) d)

pub record Merged : Type 0 where
  pub bins : ℕ → Dfa
  pub next_bin : ℕ

-- The inner loop.
unfoldable pub merge_bins : ℕ → ℕ → ℕ → ℕ → (ℕ → Dfa) → Outcome Merged
merge_bins zero j last_bin next_bin bins =
    if leb j last_bin then out_of_fuel else done (record { bins = bins; next_bin = next_bin })
merge_bins (suc fuel) j last_bin next_bin bins =
    let next = merge_two j next_bin bins >>= merge_bins fuel (j + 2) last_bin (suc next_bin) in
    if leb j last_bin then next else done (record { bins = bins; next_bin = next_bin })

-- The outer loop. `above` is `aux_count + 1`, which is also `next_bin + 1`. Where it is 0, the index
-- of the first bin to be written is negative.
unfoldable pub merge_rounds : ℕ → ℕ → ℕ → (ℕ → Dfa) → Outcome Dfa
merge_rounds zero above last_bin bins =
    if above == last_bin then done (bins (last_bin % dfa_bins)) else out_of_fuel
merge_rounds (suc fuel) above last_bin bins =
    let next = merge_bins dfa_bins above last_bin (above - 1) bins >>= λ m.
    merge_rounds fuel (above - 1) (m.next_bin - 1) m.bins in
    if above == last_bin
    then done (bins (last_bin % dfa_bins))
    else (if above == 0 then failed else next)

-- What is copied to the automaton, before its attributes are compacted.
unfoldable pub merged_dfa : Dfa → Bins → Outcome Dfa
merged_dfa pdfa b =
    merge_rounds dfa_bins (suc b.aux_count) (b.aux_count + dfa_bins - 1) b.aux_dfa >>= copy_dfa pdfa

unfoldable pub dfa_finalize : Dfa → Bins → Outcome Dfa
dfa_finalize pdfa b = merged_dfa pdfa b >>= λ d. compactify_att (suc d.last_index) d
