-- ===== src/Board/Loops.antt =====
-- One invariant rule for each kind of loop on the board.
use gnugo.Base.{ℕ, zero, suc, ◌+◌, true, ltb, ◌==◌, inl, inr, Bool-cases}
use gnugo.Point.{Direction, to_south, to_west, to_north, to_east}
use gnugo.Board.Cells.{at_slot, neighbor_list}
use gnugo.Board.State.{Board, next_of, origin_of, neighbors_of, walk, around}
use gnugo.Board.Capture.{each_neighbor}

module _ {ℓ} (P : Board → Type ℓ) where
  pub around-keeps :
      (f : Direction → Board → Board)
      → ((d : Direction) (b : Board) → P b → P (f d b))
      → (b : Board) → P b
      → P (around f b)
  around-keeps f keep b p = keep to_east _ (keep to_north _ (keep to_west _ (keep to_south _ p)))

  pub walk-keeps :
      (s : ℕ) (body : ℕ → Board → Board)
      → ((b : Board) → P b → P (record b { faulty = true }))
      → ((pos : ℕ) (b : Board) → P b → P (body pos b))
      → (fuel pos : ℕ) (b : Board) → P b
      → P (walk s body fuel pos b).board
  unfolding walk
  walk-keeps s body fault keep zero pos b p = fault b p
  walk-keeps s body fault keep (suc fuel) pos b p =
      elim (Bool-cases (next_of pos (body pos b) == origin_of s (body pos b))) [
        | inl back ↦ rw (back, walk) (keep pos b p)
        | inr on ↦
            rw (on, walk)
              (walk-keeps s body fault keep fuel (next_of pos (body pos b)) (body pos b)
                (keep pos b p))
      ]

  pub each_neighbor-keeps :
      (s : ℕ) (body : ℕ → Board → Board)
      → ((t : ℕ) (b : Board) → P b → P (body t b))
      → (n k : ℕ) (b : Board) → P b
      → P (each_neighbor s body n k b)
  unfolding each_neighbor
  each_neighbor-keeps s body keep zero k b p = p
  each_neighbor-keeps s body keep (suc n) k b p = elim (Bool-cases (ltb k (neighbors_of s b))) [
    | inl more ↦
        let t = b.mem (at_slot neighbor_list s k) in
        rw (more, each_neighbor) (each_neighbor-keeps s body keep n (k + 1) (body t b) (keep t b p))
    | inr done ↦ rw (done, each_neighbor) p
  ]
