-- ===== src/Board/Position/Flood.antt =====
-- propagate_string of engine/board.c numbers the stones that are connected to the first one.
use gnugo.Base.{
  ℕ, zero, suc, ◌≤◌, ◌<◌, ◌≡◌, ◌≢◌, ◌⊎◌, inl, inr, refl, sym, ap, ◌∙◌, subst, true, false, ◌&&◌,
  ◌==◌, arith, Bool-cases, ==→≡, ==→≢,
}
use gnugo.Color.{gray}
use gnugo.Point.{board_max, Direction, to_south, to_west, to_north, to_east, step}
use gnugo.Board.State.{Board, minus_one, number_at}
use gnugo.Board.Legality.{on_board}
use gnugo.Board.Position.{link_to_string, propagate_towards, propagate_string}
use gnugo.Board.Position.Pending.{tally_le_bound, tally_lt}
use gnugo.Board.Position.Components.{
  Allied, Connected, here, onward, before, Closed, Grows, numbered, Grows-refl, Grows-trans,
}
use gnugo.Board.Position.Waiting.{waits, left, left-Grows, link_numbers, link_stones, left-link}

module _ (points : ℕ → ℕ) where
  -- What a nested call does.
  abbrev Visits : ℕ → ℕ → ℕ → Type 0
  Visits fuel str s =
      (q : ℕ) (b : Board)
      → b.board ≡ points
      → number_at str b ≡ s
      → points q ≢ gray
      → number_at q b ≡ minus_one
      → left points b ≤ fuel
      → Grows points s q b (propagate_string fuel q str b).1
        × (number_at q (propagate_string fuel q str b).1 ≡ s)

  reroot :
      (s q root : ℕ) (b b' : Board)
      → ((r : ℕ) → Connected points q r → Connected points root r)
      → Grows points s q b b'
      → Grows points s root b b'
  reroot s q root b b' more g = record {
    stones = g.stones;
    numbers = λ r. elim (g.numbers r) [
      | inl same ↦ inl same
      | inr (none, n, chain) ↦ inr (none, n, more r chain)
    ];
    closed = g.closed;
  }

  towards-Grows :
      (fuel str s stone : ℕ) (d : Direction) (turn : ℕ × Board)
      → s ≢ minus_one
      → Visits fuel str s
      → turn.1.board ≡ points
      → number_at str turn.1 ≡ s
      → left points turn.1 ≤ fuel
      → let next = (propagate_towards (λ q b'. propagate_string fuel q str b') stone d turn).1 in
        Grows points s stone turn.1 next
        × (Allied points stone (step d stone) → number_at (step d stone) next ≢ minus_one)
  unfolding propagate_towards
  towards-Grows fuel str s stone d (size, b) some visits e at_str room =
      let q = step d stone in
      let test = on_board q b && b.board q == b.board stone && number_at q b == minus_one in
      elim (Bool-cases test) [
        | inl go ↦
            let at_q : b.board q ≡ points q = ap (λ p. p q) e in
            let at_stone : b.board stone ≡ points stone = ap (λ p. p stone) e in
            let on : points q ≢ gray = ground (arith, go, at_q) in
            let same : points q ≡ points stone = ground (arith, go, at_q, at_stone) in
            let (g, n) = visits q b e at_str on (ground (arith, go)) room in
            rw (propagate_towards, go)
              (
                reroot s q stone b _ (λ r. before points stone d r (on, same)) g,
                λ ally none. some (sym n ∙ none),
              )
        | inr stay ↦
            let at_q : b.board q ≡ points q = ap (λ p. p q) e in
            let at_stone : b.board stone ≡ points stone = ap (λ p. p stone) e in
            rw (propagate_towards, stay)
              (
                Grows-refl points s stone b e,
                λ (on, same) none. ground (arith, stay, at_q, at_stone, on, same, none),
              )
      ]

  -- A number is still there after more growth.
  still :
      {s root : ℕ} {b b' : Board} (q : ℕ)
      → Grows points s root b b'
      → number_at q b ≢ minus_one
      → number_at q b' ≢ minus_one
  still q g some none = some (sym (numbered points g q some) ∙ none)

  -- The four directions, from a stone that has its number.
  around-Grows :
      (fuel str s stone : ℕ) (b : Board)
      → s ≢ minus_one
      → Visits fuel str s
      → b.board ≡ points
      → number_at str b ≡ s
      → left points b ≤ fuel
      → let visit = λ (q : ℕ) (b' : Board). propagate_string fuel q str b' in
        let towards = propagate_towards visit stone in
        let last =
          (towards to_east (towards to_north (towards to_west (towards to_south (1, b))))).1 in
        Grows points s stone b last × Closed points stone last
  around-Grows fuel str s stone b some visits e at_str room =
      let towards = propagate_towards (λ q b'. propagate_string fuel q str b') stone in
      let go = towards-Grows fuel str s stone in
      let one = towards to_south (1, b) in
      let two = towards to_west one in
      let three = towards to_north two in
      let four = towards to_east three in
      let str_some : number_at str b ≢ minus_one = λ none. some (sym at_str ∙ none) in
      let (g1, c1) = go to_south (1, b) some visits e at_str room in
      let room1 : left points one.1 ≤ fuel =
        omega (arith, room, left-Grows points s stone b one.1 some g1) in
      let (g2, c2) =
        go to_west one some visits g1.stones (numbered points g1 str str_some ∙ at_str) room1 in
      let g12 = Grows-trans points s stone b one.1 two.1 some g1 g2 in
      let room2 : left points two.1 ≤ fuel =
        omega (arith, room, left-Grows points s stone b two.1 some g12) in
      let (g3, c3) =
        go to_north two some visits g2.stones (numbered points g12 str str_some ∙ at_str) room2 in
      let g13 = Grows-trans points s stone b two.1 three.1 some g12 g3 in
      let room3 : left points three.1 ≤ fuel =
        omega (arith, room, left-Grows points s stone b three.1 some g13) in
      let (g4, c4) =
        go to_east three some visits g3.stones (numbered points g13 str str_some ∙ at_str) room3 in
      (
        Grows-trans points s stone b three.1 four.1 some g13 g4,
        λ d.
            elim d
              as (λ x.
                Allied points stone (step x stone) → number_at (step x stone) four.1 ≢ minus_one) [
                  | to_south ↦ λ ally. still _ g4 (still _ g3 (still _ g2 (c1 ally)))
                  | to_west ↦ λ ally. still _ g4 (still _ g3 (c2 ally))
                  | to_north ↦ λ ally. still _ g4 (c3 ally)
                  | to_east ↦ c4
                ],
      )

  -- The stone itself is numbered first.
  with_first :
      (s q : ℕ) (b b1 b' : Board)
      → s ≢ minus_one
      → number_at q b ≡ minus_one
      → number_at q b1 ≡ s
      → ((r : ℕ) → q ≢ r → number_at r b1 ≡ number_at r b)
      → Grows points s q b1 b'
      → Closed points q b'
      → Grows points s q b b'
  with_first s q b b1 b' some none first others g closed = record {
    stones = g.stones;
    numbers = λ r. elim (Bool-cases (q == r)) [
      | inl is ↦
          subst
            (λ x.
              (number_at x b' ≡ number_at x b)
              ⊎ (number_at x b ≡ minus_one) × (number_at x b' ≡ s) × Connected points q x)
            (==→≡ q r is)
            (inr (none, numbered points g q (λ e. some (sym first ∙ e)) ∙ first, here))
      | inr apart ↦ elim (g.numbers r) [
        | inl same ↦ inl (same ∙ others r (==→≢ q r apart))
        | inr (none', n, chain) ↦ inr (sym (others r (==→≢ q r apart)) ∙ none', n, chain)
      ]
    ];
    closed = λ r none' later. elim (Bool-cases (q == r)) [
      | inl is ↦ subst (λ x. Closed points x b') (==→≡ q r is) closed
      | inr apart ↦ g.closed r (others r (==→≢ q r apart) ∙ none') later
    ];
  }

  module _ (framed : (q : ℕ) → points q ≢ gray → q < board_max) (str s : ℕ)
      (some : s ≢ minus_one) where
    -- Each nested call numbers the stones that its stone is connected to and that wait.
    propagate_string-Visits : (fuel : ℕ) → Visits fuel str s
    unfolding propagate_string
    propagate_string-Visits zero q b e at_str on none room =
        let fewer = left-link points q str b (framed q on) on none (λ no. some (sym at_str ∙ no)) in
        absurd (omega (arith, fewer, room))
    propagate_string-Visits (suc fuel) q b e at_str on none room =
        let b1 = link_to_string q str b in
        let fewer = left-link points q str b (framed q on) on none (λ no. some (sym at_str ∙ no)) in
        let other : (q == str) ≡ false = elim (Bool-cases (q == str)) [
          | inl same ↦
              absurd (some (sym at_str ∙ ap (λ r. number_at r b) (sym (==→≡ _ _ same)) ∙ none))
          | inr apart ↦ apart
        ] in
        let first : number_at q b1 ≡ s =
          ground (arith, link_numbers points q str q b, other, at_str) in
        let at_str' : number_at str b1 ≡ s =
          ground (arith, link_numbers points q str str b, other, at_str) in
        let (g, closed) =
          around-Grows fuel str s q b1 some (propagate_string-Visits fuel)
            (link_stones points q str b ∙ e) at_str' (omega (arith, fewer, room)) in
        let whole =
          with_first s q b b1 _ some none first
            (λ r apart. ground (arith, link_numbers points q str r b, other, apart)) g closed in
        (whole, numbered points g q (λ no. some (sym first ∙ no)) ∙ first)

    -- So does a call that starts a string, with BOARDMAX turns of fuel.
    propagate_string-Grows :
        (b : Board)
        → b.board ≡ points
        → points str ≢ gray
        → number_at str b ≡ s
        → let b' = (propagate_string board_max str str b).1 in
          Grows points s str b b' × Closed points str b'
    unfolding propagate_string left
    propagate_string-Grows b e on at_str =
        let b1 = link_to_string str str b in
        let root : (str == str) ≡ true = ground arith in
        let first : number_at str b1 ≡ s =
          ground (arith, link_numbers points str str str b, root, at_str) in
        let fewer =
          tally_lt board_max (λ q. true) (waits points b1) str (λ q wait. refl) (framed str on) refl
            (ground (arith, first, some)) in
        let all = tally_le_bound board_max (λ q. true) in
        let (g, closed) =
          around-Grows 399 str s str b1 some (propagate_string-Visits 399)
            (link_stones points str str b ∙ e) first (omega (arith, fewer, all)) in
        (
          Grows-trans points s str b b1 _ some
              (record {
                stones = link_stones points str str b ∙ e;
                numbers = λ q. inl (ground (arith, link_numbers points str str q b, root));
                closed = λ q none later.
                    absurd (ground (arith, link_numbers points str str q b, root, none, later));
              })
              g,
          closed,
        )

    all_numbered :
        (b b' : Board)
        → number_at str b ≡ s
        → ((q : ℕ) → Connected points str q → (q ≡ str) ⊎ (number_at q b ≡ minus_one))
        → Grows points s str b b'
        → Closed points str b'
        → (q : ℕ) → Connected points str q
        → number_at q b' ≡ s
    all_numbered b b' at_str fresh g closed q here =
        numbered points g q (λ no. some (sym at_str ∙ no)) ∙ at_str
    all_numbered b b' at_str fresh g closed r (onward q d chain ally) =
        let ind = all_numbered b b' at_str fresh g closed q chain in
        let at_q : Closed points q b' = elim (fresh q chain) [
          | inl is ↦ subst (λ x. Closed points x b') (sym is) closed
          | inr none ↦ g.closed q none (λ no. some (sym ind ∙ no))
        ] in
        let has = at_q d ally in
        let r' = step d q in
        elim (g.numbers r') [
          | inl same ↦ elim (fresh r' (onward q d chain ally)) [
            | inl is ↦ same ∙ ap (λ x. number_at x b) is ∙ at_str
            | inr none ↦ absurd (has (same ∙ none))
          ]
          | inr (none, n, chain') ↦ n
        ]

    -- Let no other stone that is connected to `str` have a number. Then these stones get its number,
    -- and no others do.
    pub propagate_string-Connected :
        (b : Board)
        → b.board ≡ points
        → points str ≢ gray
        → number_at str b ≡ s
        → ((q : ℕ) → Connected points str q → (q ≡ str) ⊎ (number_at q b ≡ minus_one))
        → let b' = (propagate_string board_max str str b).1 in
          ((q : ℕ) → Connected points str q → number_at q b' ≡ s)
          × ((q : ℕ) → (number_at q b' ≡ number_at q b) ⊎ Connected points str q)
    propagate_string-Connected b e on at_str fresh =
        let (g, closed) = propagate_string-Grows b e on at_str in
        (
          all_numbered b _ at_str fresh g closed,
          λ q. elim (g.numbers q) [ inl same ↦ inl same | inr (none, n, chain) ↦ inr chain ],
        )
