-- ===== src/Board/Position/Numbering.antt =====
-- The loop of new_position over the points, in engine/board.c: two stones get the same string number
-- exactly when they are connected.
use gnugo.Base.{
  ℕ, zero, suc, ◌+◌, ◌≤◌, ◌<◌, ◌≡◌, ◌≢◌, ◌⊎◌, inl, inr, refl, sym, ap, ◌∙◌, subst, true, ◌&&◌, ◌==◌,
  arith, Bool-cases, ==→≡, ==→≢,
}
use gnugo.Color.{gray, is_stone}
use gnugo.Point.{board_min, board_max, Direction, to_south, to_west, to_north, to_east, step}
use gnugo.Board.Cells.{at, only, string_number, next_string}
use gnugo.Board.State.{Board, minus_one, number_at, write}
use gnugo.Board.Legality.{on_board}
use gnugo.Board.Position.{propagate_string, find_string, find_strings}
use gnugo.Board.Position.Keeps.{propagate_string-Keeps}
use gnugo.Board.Position.Components.{Allied, Connected, here, onward}
use gnugo.Board.Position.Flood.{propagate_string-Connected}

abbrev back : Direction → Direction
back to_south = to_north
back to_west = to_east
back to_north = to_south
back to_east = to_west

step-back : (d : Direction) (q : ℕ) → board_min ≤ q → step (back d) (step d q) ≡ q
step-back to_south q low = omega arith
step-back to_west q low = omega (arith, low)
step-back to_north q low = omega (arith, low)
step-back to_east q low = omega arith

module _ (points : ℕ → ℕ) where
  chained : (p q r : ℕ) → Connected points p q → Connected points q r → Connected points p r
  chained p q r first here = first
  chained p q r first (onward r' d chain ally) = onward r' d (chained p q r' first chain) ally

  same_color : (p q : ℕ) → Connected points p q → points q ≡ points p
  same_color p q here = refl
  same_color p q (onward r d chain (on, same)) = same ∙ same_color p r chain

  module _ (framed : (q : ℕ) → points q ≢ gray → (board_min ≤ q) × (q < board_max)) where
    reversed : (p q : ℕ) → points p ≢ gray → Connected points p q → Connected points q p
    reversed p q on here = here
    reversed p q on (onward r d chain (on', same)) =
        let on_r : points r ≢ gray = λ e. on (sym (same_color p r chain) ∙ e) in
        let home = step-back d r (framed r on_r).0 in
        let first : Connected points (step d r) r =
          subst (λ x. Connected points (step d r) x) home
            (onward (step d r) (back d) here
              (subst (λ x. Allied points (step d r) x) (sym home) (on_r, sym same))) in
        chained (step d r) r p first (reversed p r on chain)

    abbrev next_of_all : Board → ℕ
    next_of_all b = b.mem (only next_string)

    abbrev pub HasStone : ℕ → Type 0
    HasStone q = is_stone (points q) ≡ true

    -- The stones before `i` have numbers, and strings that have one have it as a whole.
    pub record Numbers (i : ℕ) (b : Board) : Type 0 where
      pub stones : b.board ≡ points
      pub few : next_of_all b ≤ i
      pub done : (q : ℕ) → HasStone q → q < i → number_at q b ≢ minus_one
      pub below : (q : ℕ) → HasStone q → number_at q b ≢ minus_one → number_at q b < next_of_all b
      pub together :
          (p q : ℕ)
          → HasStone p
          → number_at p b ≢ minus_one
          → Connected points p q
          → number_at q b ≡ number_at p b
      pub apart :
          (p q : ℕ)
          → HasStone p
          → HasStone q
          → number_at p b ≢ minus_one
          → number_at q b ≡ number_at p b
          → Connected points p q

    on_points : (q : ℕ) → HasStone q → points q ≢ gray
    on_points q stone = ground (arith, stone)

    stone_along : (p q : ℕ) → HasStone p → Connected points p q → HasStone q
    stone_along p q stone chain = ap is_stone (same_color p q chain) ∙ stone

    -- No stone of a string that waits has a number.
    waiting :
        (pos q : ℕ) (b : Board)
        → Numbers pos b
        → HasStone pos
        → number_at pos b ≡ minus_one
        → Connected points pos q
        → number_at q b ≡ minus_one
    waiting pos q b old stone none chain = elim (Bool-cases (number_at q b == minus_one)) [
      | inl is ↦ ==→≡ _ _ is
      | inr has ↦ absurd (
          ==→≢ _ _ has (
            sym (
              old.together q pos (stone_along pos q stone chain) (==→≢ _ _ has)
                (reversed pos q (on_points pos stone) chain))
            ∙ none))
    ]

    -- One more string has a number.
    module _ (pos : ℕ) (b f : Board) (old : Numbers pos b) (low : pos < board_max)
        (stone : HasStone pos) (none : number_at pos b ≡ minus_one) (stones' : f.board ≡ points)
        (next : next_of_all f ≡ next_of_all b + 1)
        (all : (q : ℕ) → Connected points pos q → number_at q f ≡ next_of_all b)
        (rest : (q : ℕ) → (number_at q f ≡ number_at q b) ⊎ Connected points pos q) where
      n_some : next_of_all b ≢ minus_one
      n_some e = absurd (omega (arith, e, old.few, low))

      -- What has an old number has a lower one.
      old_below : (q : ℕ) → HasStone q → number_at q b ≢ next_of_all b
      old_below q has e = absurd (omega (arith, e, old.below q has (λ no. n_some (sym e ∙ no))))

      together' :
          (p q : ℕ)
          → HasStone p
          → number_at p f ≢ minus_one
          → Connected points p q
          → number_at q f ≡ number_at p f
      together' p q has some chain = elim (rest p) [
        | inr new ↦ all q (chained pos p q new chain) ∙ sym (all p new)
        | inl same ↦
            let some' : number_at p b ≢ minus_one = λ no. some (same ∙ no) in
            let ind = old.together p q has some' chain in
            elim (rest q) [
              | inl same' ↦ same' ∙ ind ∙ sym same
              | inr new ↦ absurd (some' (sym ind ∙ waiting pos q b old stone none new))
            ]
      ]

      apart' :
          (p q : ℕ)
          → HasStone p
          → HasStone q
          → number_at p f ≢ minus_one
          → number_at q f ≡ number_at p f
          → Connected points p q
      apart' p q has has' some e = elim (rest p) [
        | inr new ↦ elim (rest q) [
          | inr new' ↦ chained p pos q (reversed pos p (on_points pos stone) new) new'
          | inl same' ↦ absurd (old_below q has' (sym same' ∙ e ∙ all p new))
        ]
        | inl same ↦ elim (rest q) [
          | inr new' ↦ absurd (old_below p has (sym same ∙ sym e ∙ all q new'))
          | inl same' ↦ old.apart p q has has' (λ no. some (same ∙ no)) (sym same' ∙ e ∙ same)
        ]
      ]

      extended : Numbers (pos + 1) f
      extended = record {
        stones = stones';
        few = omega (arith, next, old.few);
        done = λ q has before. elim (rest q) [
          | inr new ↦ λ no. n_some (sym (all q new) ∙ no)
          | inl same ↦ elim (Bool-cases (pos == q)) [
            | inl is ↦ λ no.
                n_some (sym (all q (subst (λ x. Connected points pos x) (==→≡ pos q is) here)) ∙ no)
            | inr other ↦
                λ no. old.done q has (omega (arith, before, ==→≢ pos q other)) (sym same ∙ no)
          ]
        ];
        below = λ q has some. elim (rest q) [
          | inr new ↦ omega (arith, all q new, next)
          | inl same ↦ omega (arith, same, next, old.below q has (λ no. some (same ∙ no)))
        ];
        together = together';
        apart = apart';
      }

    -- One turn of the loop.
    pub find_string-Numbers :
        (pos : ℕ) (b : Board)
        → pos < board_max
        → Numbers pos b
        → Numbers (pos + 1) (find_string pos b)
    unfolding find_string
    find_string-Numbers pos b low old =
        let at_pos : b.board pos ≡ points pos = ap (λ p. p pos) old.stones in
        let n = next_of_all b in
        let b1 = write (at string_number pos) n b in
        let grown = (propagate_string board_max pos pos b1).1 in
        elim (Bool-cases
          (on_board pos b && is_stone (b.board pos) && number_at pos b == minus_one)) [
            | inl go ↦
                let stone : HasStone pos = ground (arith, go, at_pos) in
                let none : number_at pos b ≡ minus_one = ground (arith, go) in
                let some : n ≢ minus_one = λ e. absurd (omega (arith, e, old.few, low)) in
                let here_n : number_at pos b1 ≡ n = ground arith in
                let (all, rest) =
                  propagate_string-Connected points (λ q on. (framed q on).1) pos n some b1
                    old.stones (on_points pos stone) here_n
                    (λ q chain. elim (Bool-cases (pos == q)) [
                      | inl is ↦ inl (sym (==→≡ pos q is))
                      | inr other ↦
                          inr (ground (arith, other, waiting pos q b old stone none chain))
                    ]) in
                rw (find_string, go)
                  (extended pos b _ old low stone none
                    ((propagate_string-Keeps board_max pos pos b1).points ∙ old.stones) refl all
                    (λ q. elim (Bool-cases (pos == q)) [
                      | inl is ↦ inr (subst (λ x. Connected points pos x) (==→≡ pos q is) here)
                      | inr other ↦ elim (rest q) [
                        | inl same ↦ inl (ground (arith, same, other))
                        | inr new ↦ inr new
                      ]
                    ]))
            | inr stay ↦
                rw (find_string, stay)
                  (record {
                    stones = old.stones;
                    few = omega (arith, old.few);
                    done = λ q has before. elim (Bool-cases (pos == q)) [
                      | inl is ↦ λ no.
                          ground (arith, stay, ap (λ p. p q) old.stones, ==→≡ pos q is, has, no)
                      | inr other ↦ old.done q has (omega (arith, before, ==→≢ pos q other))
                    ];
                    below = old.below;
                    together = old.together;
                    apart = old.apart;
                  })
          ]

    pub find_strings-Numbers :
        (n pos : ℕ) (b : Board)
        → pos + n ≤ board_max
        → Numbers pos b
        → Numbers (pos + n) (find_strings n pos b)
    unfolding find_strings
    find_strings-Numbers zero pos b low old = subst (λ i. Numbers i b) (omega arith) old
    find_strings-Numbers (suc n) pos b low old =
        subst (λ i. Numbers i (find_strings n (pos + 1) (find_string pos b))) (omega arith)
          (find_strings-Numbers n (pos + 1) (find_string pos b) (omega (arith, low))
            (find_string-Numbers pos b (omega (arith, low)) old))
