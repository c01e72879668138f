-- ===== src/Board/Queries.antt =====
-- Queries of engine/board.c that look up the incremental data of a string. Their assertions on the
-- arguments are left to the callers.
pub mod Stones
use gnugo.Base.{
  ℕ, zero, suc, ◌+◌, Bool, true, false, ◌&&◌, ◌||◌, List, [], ◌∷◌, ltb, leb, ◌==◌, if◌then◌else◌,
  min,
}
use gnugo.Color.{is_stone}
use gnugo.Point.{south, west, north, east}
use gnugo.Board.Cells.{at_slot, neighbor_list}
use gnugo.Board.State.{
  Board, number_at, next_of, origin_of, size_of, liberties_of, liberties_at, neighbors_of,
}
use gnugo.Board.Capture.{neighbor_of_string}

unfoldable pub find_origin : ℕ → Board → ℕ
find_origin str b = origin_of (number_at str b) b

unfoldable pub countlib : ℕ → Board → ℕ
countlib str b = liberties_at str b

-- COUNTSTONES
unfoldable pub countstones : ℕ → Board → ℕ
countstones str b = size_of (number_at str b) b

-- `n` turns of the loop of findstones.
unfoldable pub collect_stones : ℕ → ℕ → Board → List ℕ
collect_stones zero pos b = []
collect_stones (suc n) pos b = pos ∷ collect_stones n (next_of pos b) b

-- The return value, and the part of the array that is written.
unfoldable pub findstones : ℕ → ℕ → Board → ℕ × List ℕ
findstones str maxstones b =
    let s = number_at str b in
    let size = size_of s b in (size, collect_stones (min maxstones size) (origin_of s b) b)

-- The loop of count_adjacent_stones, with `n` stones to go.
unfoldable pub count_beside : ℕ → ℕ → ℕ → ℕ → ℕ → ℕ → Board → ℕ
count_beside zero pos s2 color maxstones count b = count
count_beside (suc n) pos s2 color maxstones count b = elim (ltb count maxstones) [
  | true ↦
      count_beside n (next_of pos b) s2 color maxstones
        (if neighbor_of_string pos s2 color b then count + 1 else count) b
  | false ↦ count
]

unfoldable pub count_adjacent_stones : ℕ → ℕ → ℕ → Board → ℕ
count_adjacent_stones str1 str2 maxstones b =
    let s1 = number_at str1 b in
    count_beside (size_of s1 b) (origin_of s1 b) (number_at str2 b) (b.board str2) maxstones 0 b

-- The origins of those neighbors of string `s`, from entry `k` on, whose liberties pass a test; `n`
-- entries are left.
unfoldable pub chain_origins : (ℕ → Bool) → ℕ → ℕ → ℕ → Board → List ℕ
chain_origins test s zero k b = []
chain_origins test s (suc n) k b =
    let t = b.mem (at_slot neighbor_list s k) in
    let rest = chain_origins test s n (k + 1) b in
    if test (liberties_of t b) then origin_of t b ∷ rest else rest

-- The part of `adj` that is written; the return value is its length.
unfoldable pub chainlinks : ℕ → Board → List ℕ
chainlinks str b = let s = number_at str b in chain_origins (λ libs. true) s (neighbors_of s b) 0 b

unfoldable pub chainlinks2 : ℕ → ℕ → Board → List ℕ
chainlinks2 str lib b =
    let s = number_at str b in chain_origins (λ libs. libs == lib) s (neighbors_of s b) 0 b

unfoldable pub chainlinks3 : ℕ → ℕ → Board → List ℕ
chainlinks3 str lib b =
    let s = number_at str b in chain_origins (λ libs. leb libs lib) s (neighbors_of s b) 0 b

unfoldable pub has_neighbor : ℕ → ℕ → Board → Bool
has_neighbor pos color b =
    b.board (south pos) == color
    || b.board (west pos) == color
    || b.board (north pos) == color
    || b.board (east pos) == color

unfoldable pub same_string : ℕ → ℕ → Board → Bool
same_string str1 str2 b = number_at str1 b == number_at str2 b

unfoldable pub liberty_of_string : ℕ → ℕ → Board → Bool
liberty_of_string pos str b =
    if is_stone (b.board pos)
    then false
    else neighbor_of_string pos (number_at str b) (b.board str) b
