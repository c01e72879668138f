-- ===== src/Board/Walks.antt =====
-- The walk along the stones of a string visits each of them once, and ends.
use gnugo.Base.{
  ℕ, zero, suc, ◌<◌, ◌≡◌, ◌≢◌, refl, ◌∙◌, true, false, List, [], ◌∷◌, length, ◌==◌, arith,
}
use gnugo.Board.State.{Board, walk, next_of, origin_of}

-- From `pos` the links lead through `stones` and then back to the first stone, which is met no
-- sooner.
unfoldable pub Links : Board → ℕ → ℕ → List ℕ → Type 0
Links b first pos [] = next_of pos b ≡ first
Links b first pos (q ∷ qs) = (next_of pos b ≡ q) × (q ≢ first) × Links b first q qs

-- The body for one stone after the other.
unfoldable pub visit : (ℕ → Board → Board) → ℕ → List ℕ → Board → Board
visit body pos [] b = body pos b
visit body pos (q ∷ qs) b = visit body q qs (body pos b)

-- A body that leaves the links and the first stone of the string alone.
pub record KeepsLinks (s : ℕ) (body : ℕ → Board → Board) : Type 0 where
  pub links : (p q : ℕ) (b : Board) → next_of q (body p b) ≡ next_of q b
  pub first : (p : ℕ) (b : Board) → origin_of s (body p b) ≡ origin_of s b

module _ (s : ℕ) (body : ℕ → Board → Board) (keeps : KeepsLinks s body) where
  Links-after :
      (p first pos : ℕ) (stones : List ℕ) (b : Board)
      → Links b first pos stones
      → Links (body p b) first pos stones
  unfolding Links
  Links-after p first pos [] b l = keeps.links p pos b ∙ l
  Links-after p first pos (q ∷ qs) b (next, other, rest) =
      (keeps.links p pos b ∙ next, other, Links-after p first q qs b rest)

  -- With more turns than stones behind the first, a walk does its body for each stone, in the order
  -- of the links, and no more; the body leaves the links and the first stone alone.
  pub walk-visit :
      (fuel pos : ℕ) (stones : List ℕ) (b : Board)
      → length stones < fuel
      → Links b (origin_of s b) pos stones
      → (walk s body fuel pos b).board ≡ visit body pos stones b
  unfolding Links visit walk
  walk-visit zero pos stones b enough l = absurd (omega (arith, enough))
  walk-visit (suc fuel) pos [] b enough l =
      let back : (next_of pos (body pos b) == origin_of s (body pos b)) ≡ true =
        ground (arith, keeps.links pos pos b, keeps.first pos b, l) in
      rw (walk, back) refl
  walk-visit (suc fuel) pos (q ∷ qs) b enough (next, other, rest) =
      let at_next = keeps.links pos pos b ∙ next in
      let on : (next_of pos (body pos b) == origin_of s (body pos b)) ≡ false =
        ground (arith, at_next, keeps.first pos b, other) in
      rw (walk, on, at_next)
        (walk-visit fuel q qs (body pos b) (omega (arith, enough))
          (rw (keeps.first pos b) (Links-after pos (origin_of s b) q qs b rest)))
