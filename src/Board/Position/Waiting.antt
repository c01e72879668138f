-- ===== src/Board/Position/Waiting.antt =====
-- The points that wait for a string number, and the link that propagate_string of engine/board.c makes
-- for one of them.
use gnugo.Base.{
  ℕ, ◌≤◌, ◌<◌, ◌≡◌, ◌≢◌, inl, inr, refl, sym, ap, ◌∙◌, Bool, false, ◌&&◌, not, ◌==◌, if◌then◌else◌,
  arith, Bool-cases, ==→≡,
}
use gnugo.Color.{gray}
use gnugo.Point.{board_max}
use gnugo.Board.State.{Board, minus_one, number_at}
use gnugo.Board.Position.{link_to_string}
use gnugo.Board.Position.Pending.{tally, tally_le, tally_lt}
use gnugo.Board.Position.Components.{Grows}

module _ (points : ℕ → ℕ) where
  -- The points that wait for a number.
  abbrev pub waits : Board → ℕ → Bool
  waits b q = not (points q == gray) && number_at q b == minus_one

  unfoldable pub left : Board → ℕ
  left b = tally board_max (waits b)

  pub left-Grows :
      (s root : ℕ) (b b' : Board) → s ≢ minus_one → Grows points s root b b' → left b' ≤ left b
  unfolding left
  left-Grows s root b b' some g = tally_le board_max (waits b) (waits b') (λ q wait.
      elim (g.numbers q) [
        | inl same ↦ ground (arith, wait, same)
        | inr (none, n, chain) ↦ ground (arith, wait, none)
      ])

  pub link_numbers :
      (stone str q : ℕ) (b : Board)
      → number_at q (link_to_string stone str b) ≡ (
          if stone == str
          then number_at q b
          else if stone == q
          then number_at str b
          else number_at q b)
  unfolding link_to_string
  link_numbers stone str q b = ground arith

  pub link_stones : (stone str : ℕ) (b : Board) → (link_to_string stone str b).board ≡ b.board
  unfolding link_to_string
  link_stones stone str b = elim (Bool-cases (stone == str)) [
    | inl root ↦ rw root refl
    | inr other ↦ rw other refl
  ]

  pub left-link :
      (stone str : ℕ) (b : Board)
      → stone < board_max
      → points stone ≢ gray
      → number_at stone b ≡ minus_one
      → number_at str b ≢ minus_one
      → left (link_to_string stone str b) < left b
  unfolding left
  left-link stone str b low on none some =
      let other : (stone == str) ≡ false = elim (Bool-cases (stone == str)) [
        | inl same ↦ absurd (some (ap (λ q. number_at q b) (sym (==→≡ _ _ same)) ∙ none))
        | inr apart ↦ apart
      ] in
      let after = link_numbers stone str stone b in
      tally_lt board_max (waits b) (waits (link_to_string stone str b)) stone
        (λ q wait. ground (arith, wait, link_numbers stone str q b, other, some)) low
        (ground (arith, on, none)) (ground (arith, after, other, some))
