-- ===== src/Dfa/Scan.antt =====
-- The tables that print_c_dfa of patterns/dfa.c writes, and scan_for_patterns of engine/matchpat.c,
-- which runs on them. A short is kept as its residue modulo 2 ^ 16. What print_c_dfa asserts and
-- tests of the sizes is a hypothesis of what is proved (Scan/Found).
pub mod Found
use gnugo.Base.{
  ℕ, zero, suc, ◌+◌, ◌-◌, ◌%◌, Bool, true, false, ltb, ◌==◌, if◌then◌else◌, List, [], ◌∷◌, ◌++◌,
}
use gnugo.Dfa.{Outcome, done, failed, out_of_fuel, ◌>>=◌, Dfa, Attrib, State}

abbrev pub short : ℕ → ℕ
short n = n % 65536

-- A dfa_rt_t. Its states and attributes have shorts for members.
pub record DfaRt : Type 0 where
  pub states : ℕ → State
  pub indexes : ℕ → Attrib

-- `n ? n - i : 0`, as a short. Numbers of states have 16 bits.
unfoldable pub delta_of : ℕ → ℕ → ℕ
delta_of i n = if n == 0 then 0 else short (n + 65536 - i)

unfoldable pub print_c_dfa : Dfa → DfaRt
print_c_dfa d = record {
  states =
      λ i. record { att = short (d.states i).att; next = λ c. delta_of i ((d.states i).next c) };
  indexes = λ i. record { val = short (d.indexes i).val; next = short (d.indexes i).next };
}

-- A short that is an index; the others are negative.
unfoldable pub read_index : ℕ → Outcome ℕ
read_index n = if ltb n 32768 then done n else failed

-- `state += delta`
unfoldable pub add_delta : ℕ → ℕ → ℕ
add_delta state delta = if ltb delta 32768 then state + delta else state + delta - 65536

-- "collect patterns indexes"
unfoldable pub collect : ℕ → (ℕ → Attrib) → ℕ → Outcome (List ℕ)
collect fuel indexes zero = done []
collect zero indexes (suc att) = out_of_fuel
collect (suc fuel) indexes (suc att) = read_index (indexes (suc att)).val >>= λ val.
    read_index (indexes (suc att)).next >>= λ next.
    collect fuel indexes next >>= λ vals. done (val ∷ vals)

-- The loop from a state and a row on. `colors row` is `dfa_pos[spiral[row][l]]`.
unfoldable pub scan_loop : ℕ → DfaRt → (ℕ → ℕ) → ℕ → ℕ → Outcome (List ℕ)
scan_loop zero rt colors state row = out_of_fuel
scan_loop (suc fuel) rt colors state row =
    let delta = (rt.states state).next (colors row) in
    let rest = scan_loop fuel rt colors (add_delta state delta) (suc row) in
    read_index (rt.states state).att >>= λ att. collect att rt.indexes att >>= λ vals.
    if delta == 0 then done vals else rest >>= λ more. done (vals ++ more)

-- The patterns that are found, in their order.
unfoldable pub scan_for_patterns : ℕ → DfaRt → (ℕ → ℕ) → Outcome (List ℕ)
scan_for_patterns fuel rt colors = scan_loop fuel rt colors 1 0
