-- ===== src/Board/Ko.antt =====
-- What is_ko of engine/board.c finds out about the four neighbors of a move.
use gnugo.Base.{
  ℕ, ◌+◌, ◌≤◌, ◌≡◌, ◌⊎◌, inl, inr, refl, ap, subst, true, false, ◌&&◌, Option, none, some, ltb,
  ◌==◌, if◌then◌else◌, arith, Bool-cases, ==→≡,
}
use gnugo.Color.{gray, other_color}
use gnugo.Point.{no_move, Direction, to_south, to_west, to_north, to_east, step, every}
use gnugo.Board.State.{Board, liberties_at, number_at, size_of}
use gnugo.Board.Legality.{is_ko, ko_towards, ko_result, KoScan, on_board}

-- A neighbor that a ko may have: off the board, or of the opponent.
abbrev pub Surrounds : ℕ → ℕ → Board → Type 0
Surrounds q color b = (b.board q ≡ gray) ⊎ (b.board q ≡ other_color color)

-- How many stones the move captures at a neighbor: all of a string of the opponent with one liberty.
-- A string that two neighbors belong to is counted twice, as is_ko does.
abbrev pub taken : ℕ → ℕ → Board → ℕ
taken q color b =
    if on_board q b && b.board q == other_color color && liberties_at q b == 1
    then size_of (number_at q b) b
    else 0

-- At all four neighbors of `pos`.
abbrev pub all_taken : ℕ → ℕ → Board → ℕ
all_taken pos color b =
    taken (step to_south pos) color b
    + taken (step to_west pos) color b
    + taken (step to_north pos) color b
    + taken (step to_east pos) color b

-- A neighbor of the move, of the opponent and with one liberty.
abbrev pub Captured : ℕ → ℕ → ℕ → Board → Type 0
Captured kpos pos color b =
    (d : Direction) × (kpos ≡ step d pos)
    × (b.board kpos ≡ other_color color)
    × (liberties_at kpos b ≡ 1)

module _ (pos color : ℕ) (b : Board) where
  abbrev Seen : ℕ → ℕ → Type 0
  Seen captures kpos = (captures ≡ 0) ⊎ Captured kpos pos color b

  kept : (c k c' k' : ℕ) → ◌≡◌ {A = KoScan} (some (c, k)) (some (c', k')) → Seen c k → Seen c' k'
  kept c k c' k' e seen =
      let count : c ≡ c' = cc in
      let place : k ≡ k' = cc in subst (λ x. Seen x k') count (subst (λ x. Seen c x) place seen)

  -- The opponent's string in a direction is captured or not.
  theirs_step :
      (d : Direction) (captures kpos captures' kpos' : ℕ)
      → (b.board (step d pos) == other_color color) ≡ true
      → let q = step d pos in
        let more = captures + size_of (number_at q b) b in
        ◌≡◌ {A = KoScan}
          (if liberties_at q b == 1
            then (if ltb 1 more then none else some (more, q))
            else some (captures, kpos))
          (some (captures', kpos'))
        → Seen captures kpos
        → Seen captures' kpos'
  theirs_step d captures kpos captures' kpos' theirs h seen =
      let q = step d pos in
      let more = captures + size_of (number_at q b) b in
      elim (Bool-cases (liberties_at q b == 1)) [
        | inr safe ↦ kept captures kpos captures' kpos' (rw safe at h) seen
        | inl atari ↦ elim (Bool-cases (ltb 1 more)) [
          | inl many ↦
              let stop : ◌≡◌ {A = KoScan} none (some (captures', kpos')) = rw (atari, many) at h in
              absurd cc
          | inr one ↦
              kept more q captures' kpos' (rw (atari, one) at h)
                (inr (d, refl, ==→≡ _ _ theirs, ==→≡ _ _ atari))
        ]
      ]

  equal_counts : {c k c' k' : ℕ} → ◌≡◌ {A = KoScan} (some (c, k)) (some (c', k')) → c' ≡ c
  equal_counts e = cc

  -- The count goes up by what is captured.
  count_theirs :
      (d : Direction) (captures kpos captures' kpos' : ℕ)
      → on_board (step d pos) b ≡ true
      → (b.board (step d pos) == other_color color) ≡ true
      → let q = step d pos in
        let more = captures + size_of (number_at q b) b in
        ◌≡◌ {A = KoScan}
          (if liberties_at q b == 1
            then (if ltb 1 more then none else some (more, q))
            else some (captures, kpos))
          (some (captures', kpos'))
        → captures' ≡ captures + taken (step d pos) color b
  count_theirs d captures kpos captures' kpos' on theirs h =
      let q = step d pos in
      let more = captures + size_of (number_at q b) b in
      elim (Bool-cases (liberties_at q b == 1)) [
        | inr safe ↦ rw (on, theirs, safe) (ground (arith, equal_counts (rw safe at h)))
        | inl atari ↦ elim (Bool-cases (ltb 1 more)) [
          | inl many ↦
              let stop : ◌≡◌ {A = KoScan} none (some (captures', kpos')) = rw (atari, many) at h in
              absurd cc
          | inr one ↦ rw (on, theirs, atari) (ground (arith, equal_counts (rw (atari, one) at h)))
        ]
      ]

  -- A neighbor that a ko may have does not end the scan, while at most one stone is captured.
  goes_on :
      (d : Direction) (captures kpos : ℕ)
      → Surrounds (step d pos) color b
      → captures + taken (step d pos) color b ≤ 1
      → (kpos' : ℕ) × (ko_towards pos color d b (some (captures, kpos))
          ≡ some (captures + taken (step d pos) color b, kpos'))
  unfolding ko_towards
  goes_on d captures kpos around few =
      let q = step d pos in
      elim (Bool-cases (on_board q b)) [
        | inr off ↦ (kpos, rw off (ap (λ n. some (n, kpos)) (omega arith)))
        | inl on ↦ elim (Bool-cases (b.board q == other_color color)) [
          | inr own ↦
              absurd
                (elim around [ inl e ↦ ground (arith, on, e) | inr e ↦ ground (arith, own, e) ])
          | inl theirs ↦ elim (Bool-cases (liberties_at q b == 1)) [
            | inr safe ↦ (kpos, rw (on, theirs, safe) (ap (λ n. some (n, kpos)) (omega arith)))
            | inl atari ↦
                let held : ltb 1 (captures + size_of (number_at q b) b) ≡ false =
                  ground (arith, few, on, theirs, atari) in
                (q, rw (on, theirs, atari, held) refl)
          ]
        ]
      ]

  result_step :
      (scan : KoScan) (kpos : ℕ) → ko_result scan ≡ some kpos → (last : ℕ) × (scan ≡ some (1, kpos))
  unfolding ko_result
  result_step none kpos h = absurd cc
  result_step (some (captures, k)) kpos h = elim (Bool-cases (captures == 1)) [
    | inl one ↦
        let same : ◌≡◌ {A = Option ℕ} (some k) (some kpos) = rw one at h in
        let count = ==→≡ captures 1 one in (k, cc)
    | inr other ↦ let stop : ◌≡◌ {A = Option ℕ} none (some kpos) = rw other at h in absurd cc
  ]

  -- One direction, where the scan goes on.
  ko_step :
      (d : Direction) (scan : KoScan) (captures' kpos' : ℕ)
      → ko_towards pos color d b scan ≡ some (captures', kpos')
      → (captures : ℕ) × (kpos : ℕ) × (scan ≡ some (captures, kpos))
        × Surrounds (step d pos) color b
        × (Seen captures kpos → Seen captures' kpos')
        × (captures' ≡ captures + taken (step d pos) color b)
  unfolding ko_towards
  ko_step d none captures' kpos' h = absurd cc
  ko_step d (some (captures, kpos)) captures' kpos' h =
      let q = step d pos in
      elim (Bool-cases (on_board q b)) [
        | inr off ↦
            let same : ◌≡◌ {A = KoScan} (some (captures, kpos)) (some (captures', kpos')) =
              rw off at h in
            (
              captures,
              kpos,
              refl,
              inl (ground (arith, off)),
              kept captures kpos captures' kpos' same,
              ground (arith, equal_counts same, off),
            )
        | inl on ↦ elim (Bool-cases (b.board q == other_color color)) [
          | inr own ↦
              let stop : ◌≡◌ {A = KoScan} none (some (captures', kpos')) = rw (on, own) at h in
              absurd cc
          | inl theirs ↦ (
            captures,
            kpos,
            refl,
            inr (==→≡ _ _ theirs),
            theirs_step d captures kpos captures' kpos' theirs (rw (on, theirs) at h),
            count_theirs d captures kpos captures' kpos' on theirs (rw (on, theirs) at h),
          )
        ]
      ]

  -- Where is_ko reports a ko at `kpos`, every neighbor of the move is off the board or of the
  -- opponent, `kpos` is one of the opponent's, whose string has one liberty, and the strings that
  -- the move captures at its neighbors have one stone in all. Where the neighbors are so and there
  -- is one stone to capture, is_ko reports a ko.
  pub is_ko-Captured :
      ((kpos : ℕ)
        → is_ko pos color b ≡ some kpos
        → ((d : Direction) → Surrounds (step d pos) color b)
          × Captured kpos pos color b
          × (all_taken pos color b ≡ 1))
      × (((d : Direction) → Surrounds (step d pos) color b)
          → all_taken pos color b ≡ 1
          → (kpos : ℕ) × (is_ko pos color b ≡ some kpos))
  unfolding is_ko ko_result
  is_ko-Captured = (
    (λ kpos h.
        let (last, found) = result_step _ kpos h in
        let (c3, k3, e3, east, s4, n4) = ko_step to_east _ 1 kpos found in
        let (c2, k2, e2, north, s3, n3) = ko_step to_north _ c3 k3 e3 in
        let (c1, k1, e1, west, s2, n2) = ko_step to_west _ c2 k2 e2 in
        let (c0, k0, e0, south, s1, n1) = ko_step to_south _ c1 k1 e1 in
        let none_yet : c0 ≡ 0 = cc in
        (
          every (λ d. Surrounds (step d pos) color b) south west north east,
          elim (s4 (s3 (s2 (s1 (inl none_yet))))) [
            | inl zero_captures ↦ absurd (omega (arith, zero_captures))
            | inr captured ↦ captured
          ],
          omega (arith, n1, n2, n3, n4, none_yet),
        )),
    (λ around one.
        let at = λ (d : Direction). taken (step d pos) color b in
        let two = 0 + at to_south + at to_west in
        let sum : two + at to_north + at to_east ≡ 1 = omega (arith, one) in
        let (k1, e1) = goes_on to_south 0 no_move (around to_south) (omega (arith, one)) in
        let (k2, e2) = goes_on to_west (0 + at to_south) k1 (around to_west) (omega (arith, one)) in
        let (k3, e3) = goes_on to_north two k2 (around to_north) (omega (arith, one)) in
        let (k4, e4) =
          goes_on to_east (two + at to_north) k3 (around to_east) (omega (arith, one)) in
        (k4, rw (e1, e2, e3, e4, sum) refl)),
  )
