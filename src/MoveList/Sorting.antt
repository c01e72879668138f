-- ===== src/MoveList/Sorting.antt =====
-- One turn of movelist_sort_points puts an entry that has to move to the front into its place.
use gnugo.Base.{
  ℕ, zero, suc, ◌+◌, ◌-◌, ◌≤◌, ◌<◌, ◌≡◌, ◌≢◌, ◌⊎◌, inl, inr, refl, true, false, ltb, leb, ◌==◌,
  if◌then◌else◌, arith, Bool-cases, subst, ==→≡,
}
use gnugo.MoveList.{
  Moves, Pass, set_entry, swap_points_and_codes, down_pass, up_pass, sort_loop,
  movelist_sort_points, index_from, movelist_change_point,
}

-- The first `n` codes fall, or stay the same.
pub record IsFalling (n : ℕ) (ms : Moves) : Type 0 where
  pub falls : (i : ℕ) → i + 1 < n → ms.codes (i + 1) ≤ ms.codes i

-- They fall but for entry `p`, which may have to move to the front.
record FallsBut (n p : ℕ) (ms : Moves) : Type 0 where
  pub others : (i : ℕ) → i + 1 < n → i + 1 ≢ p → ms.codes (i + 1) ≤ ms.codes i
  pub around : 0 < p → p + 1 < n → ms.codes (p + 1) ≤ ms.codes (p - 1)

abbrev DownTo : ℕ → Pass → Type 0
DownTo size pass = IsFalling size pass.moves

module _ (size : ℕ) where
  -- Where the codes fall, a pass changes nothing.
  down_pass_falling :
      (n start : ℕ) (pass : Pass)
      → start + n < size
      → IsFalling size pass.moves
      → down_pass n start pass ≡ pass
  unfolding down_pass
  down_pass_falling zero start pass room f = refl
  down_pass_falling (suc n) start pass room f =
      let place : start + suc n ≡ (start + n) + 1 = omega arith in
      let before : start + suc n - 1 ≡ start + n = omega arith in
      let kept : ltb (pass.moves.codes (start + suc n - 1)) (pass.moves.codes (start + suc n))
          ≡ false =
        rw (before, place) (ground (arith, f.falls (start + n) (omega arith))) in
      rw kept (down_pass_falling n start pass (omega arith) f)

  up_pass_falling :
      (n k : ℕ) (pass : Pass) → k + n < size → IsFalling size pass.moves → up_pass n k pass ≡ pass
  unfolding up_pass
  up_pass_falling zero k pass room f = refl
  up_pass_falling (suc n) k pass room f =
      let kept : ltb (pass.moves.codes k) (pass.moves.codes (k + 1)) ≡ false =
        ground (arith, f.falls k (omega arith)) in
      rw kept (up_pass_falling n (k + 1) pass (omega arith) f)

  FallsBut-front : (ms : Moves) → FallsBut size 0 ms → IsFalling size ms
  FallsBut-front ms f = record { falls = λ i room. f.others i room (omega arith) }

  IsFalling-FallsBut : (p : ℕ) (ms : Moves) → IsFalling size ms → FallsBut size p ms
  IsFalling-FallsBut p ms f = record {
    others = λ i room _. f.falls i room;
    around = λ low room. falls_twice p low room;
  }
    where
      falls_twice : (q : ℕ) → 0 < q → q + 1 < size → ms.codes (q + 1) ≤ ms.codes (q - 1)
      falls_twice zero low room = absurd (omega arith)
      falls_twice (suc q) low room =
          let back : suc q - 1 ≡ q = omega arith in
          let next : suc q ≡ q + 1 = omega arith in
          rw (back, next) (omega (arith, f.falls (q + 1) (omega arith), f.falls q (omega arith)))

  -- A swap takes the entry one place to the front.
  swap-FallsBut :
      (n : ℕ) (ms : Moves)
      → suc n < size
      → ms.codes n < ms.codes (suc n)
      → FallsBut size (suc n) ms
      → FallsBut size n (swap_points_and_codes (suc n) n ms)
  unfolding swap_points_and_codes
  swap-FallsBut n ms room more f = record {
    others = λ i low apart. ground (arith, f.others i low, f.around, more);
    around = λ low high. ground (arith, f.others (n - 1));
  }

  in_place :
      (n : ℕ) (ms : Moves)
      → ltb (ms.codes n) (ms.codes (suc n)) ≡ false
      → FallsBut size (suc n) ms
      → IsFalling size ms
  in_place n ms less f = record {
    falls = λ i room. elim (Bool-cases (i == n)) [
      | inl here ↦ ground (arith, less, here)
      | inr other ↦ f.others i room (ground arith)
    ];
  }

  down_pass_step :
      (n : ℕ) (pass : Pass)
      → down_pass (suc n) 0 pass
        ≡ down_pass n 0 (
            if ltb (pass.moves.codes n) (pass.moves.codes (suc n))
            then record { moves = swap_points_and_codes (suc n) n pass.moves; last = suc n }
            else pass)
  unfolding down_pass
  down_pass_step n pass =
      let place : 0 + suc n ≡ suc n = omega arith in
      let before : 0 + suc n - 1 ≡ n = omega arith in rw (down_pass, before, place) refl

  -- The pass from the end moves the entry to its place.
  down_pass-IsFalling :
      (n p : ℕ) (pass : Pass)
      → n < size
      → p ≤ n
      → FallsBut size p pass.moves
      → IsFalling size (down_pass n 0 pass).moves
  unfolding down_pass
  down_pass-IsFalling zero p pass room low f =
      let front : p ≡ 0 = omega arith in
      FallsBut-front pass.moves (subst (λ x. FallsBut size x pass.moves) front f)
  down_pass-IsFalling (suc n) p pass room low f =
      let ms = pass.moves in
      elim (Bool-cases (p == suc n)) [
        | inr earlier ↦
            let less : ltb (ms.codes n) (ms.codes (suc n)) ≡ false =
              ground (arith, f.others n (omega arith)) in
            rw (down_pass_step n pass, less)
              (down_pass-IsFalling n p pass (omega arith) (ground arith) f)
        | inl at_end ↦
            let g = subst (λ x. FallsBut size x ms) (==→≡ p (suc n) at_end) f in
            elim (Bool-cases (ltb (ms.codes n) (ms.codes (suc n)))) [
              | inl more ↦
                  rw (down_pass_step n pass, more)
                    (down_pass-IsFalling n n _ (omega arith) (omega arith)
                      (swap-FallsBut n ms room (ground arith) g))
              | inr less ↦
                  rw (down_pass_step n pass, less)
                    (down_pass-IsFalling n n pass (omega arith) (omega arith)
                      (IsFalling-FallsBut n ms (in_place n ms less g)))
            ]
      ]

  down_pass_last :
      (n start : ℕ) (pass : Pass)
      → start + n < size
      → pass.last < size
      → (down_pass n start pass).last < size
  unfolding down_pass
  down_pass_last zero start pass room low = low
  down_pass_last (suc n) start pass room low =
      let ms = pass.moves in
      elim (Bool-cases (ltb (ms.codes (start + suc n - 1)) (ms.codes (start + suc n)))) [
        | inl more ↦ rw (down_pass, more) (down_pass_last n start _ (omega arith) room)
        | inr less ↦ rw (down_pass, less) (down_pass_last n start pass (omega arith) low)
      ]

  sort_loop_end : (fuel start : ℕ) (ms : Moves) → sort_loop fuel start start ms ≡ ms
  unfolding sort_loop
  sort_loop_end zero start ms = refl
  sort_loop_end (suc fuel) start ms =
      let done : ltb start start ≡ false = ground arith in rw (sort_loop, done) refl

  -- One turn of the outer loop is enough for such an array, and the loop ends.
  sort_loop-IsFalling :
      (fuel p : ℕ) (ms : Moves)
      → p < size
      → FallsBut size p ms
      → IsFalling size (sort_loop (suc fuel) 0 (size - 1) ms)
  unfolding sort_loop
  sort_loop-IsFalling fuel p ms room f = elim (Bool-cases (ltb 0 (size - 1))) [
    | inr one ↦
        let front : p ≡ 0 = ground (arith, one) in
        rw (sort_loop, one) (FallsBut-front ms (subst (λ x. FallsBut size x ms) front f))
    | inl more ↦
        let down = down_pass (size - 1) 0 (record { moves = ms; last = size - 1 }) in
        let fallen : IsFalling size down.moves =
          down_pass-IsFalling (size - 1) p (record { moves = ms; last = size - 1 }) (omega arith)
            (omega arith) f in
        let low : down.last < size =
          down_pass_last (size - 1) 0 (record { moves = ms; last = size - 1 }) (omega arith)
            (omega arith) in
        let still =
          up_pass_falling (size - 1 - 1 - down.last) down.last down (omega (arith, low)) fallen in
        let whole : size - 1 - 0 ≡ size - 1 = omega arith in
        rw (sort_loop, more, whole, still, sort_loop_end fuel down.last down.moves) fallen
  ]

  added-FallsBut :
      (m move code : ℕ) (ms : Moves)
      → size ≡ suc m
      → IsFalling size ms
      → ms.codes m < code
      → FallsBut size m
          (record { points = set_entry ms.points m move; codes = set_entry ms.codes m code })
  added-FallsBut m move code ms whole f more = record {
    others = λ i room apart. ground (arith, f.falls i room, whole);
    around = λ low high. absurd (omega (arith, whole));
  }

-- movelist_change_point keeps the codes falling, where the move is not in the list yet, or has no
-- greater code there than the new one.
pub movelist_change_point-IsFalling :
    (move code max_points : ℕ) (ms : Moves)
    → 0 < max_points
    → let k = index_from max_points 0 move ms in
      (max_points ≤ k) ⊎ (ms.codes k ≤ code)
      → IsFalling max_points ms
      → IsFalling max_points (movelist_change_point move code max_points ms)
unfolding movelist_change_point movelist_sort_points
movelist_change_point-IsFalling move code (zero) ms some_room older f = absurd (omega arith)
movelist_change_point-IsFalling move code (suc m) ms some_room older f =
    let size = suc m in
    let k = index_from size 0 move ms in
    let last : suc m - 1 ≡ m = omega arith in
    elim (Bool-cases (ltb k size)) [
      | inl there ↦ elim older [
        | inl absent ↦ absurd (ground (arith, there, absent))
        | inr greater ↦
            let old : leb (ms.codes k) code ≡ true = ground (arith, greater) in rw (there, old) f
      ]
      | inr new ↦ elim (Bool-cases (ltb (ms.codes m) code)) [
        | inr less ↦ rw (new, last, less) f
        | inl more ↦
            let added : Moves = record {
              points = set_entry ms.points m move;
              codes = set_entry ms.codes m code;
            } in
            let sorted : IsFalling size (sort_loop size 0 (size - 1) added) =
              sort_loop-IsFalling size m m added (omega arith)
                (added-FallsBut size m move code ms refl f (ground (arith, more))) in
            rw (new, last, more) (rw last at sorted)
      ]
    ]
