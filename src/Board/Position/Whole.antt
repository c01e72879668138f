-- ===== src/Board/Position/Whole.antt =====
-- new_position of engine/board.c as a whole: the string numbers that it leaves.
use gnugo.Base.{
  ℕ, zero, suc, ◌+◌, ◌-◌, ◌≤◌, ◌<◌, ◌≡◌, ◌≢◌, ◌↔◌, inl, inr, refl, sym, ap, ◌∙◌, subst, Bool, true,
  ltb, ◌==◌, if◌then◌else◌, arith, Bool-cases, ==→≡, ==→≢,
}
use gnugo.Color.{gray, is_stone, other_color}
use gnugo.Point.{board_min, board_max, step}
use gnugo.Board.Cells.{at, at_slot, only, string_number, next_string, libs}
use gnugo.Board.State.{
  Board, minus_one, number_at, write, liberties_of, max_liberties, add_liberty, list_liberty,
  add_and_mark_liberty, mark_string_at, add_neighbor_string, unmarked_liberty,
  unmarked_color_string, color_of, around,
}
use gnugo.Board.Legality.{on_board}
use gnugo.Board.Loops.{around-keeps, walk-keeps}
use gnugo.Board.Position.{
  is_reset, reset_memory, forget_numbers, find_strings, note_beside, find_liberties_and_neighbors,
  fill_strings, rebuild_strings, clear_stacks,
}
use gnugo.Board.Position.Keeps.{forget_numbers-Keeps}
use gnugo.Board.Position.Components.{Connected}
use gnugo.Board.Position.Numbering.{HasStone, Numbers, find_strings-Numbers}

-- The string numbers, and how many there are, stay.
record SameNumbers (b b' : Board) : Type 0 where
  pub numbers : (q : ℕ) → number_at q b' ≡ number_at q b
  pub total : b'.mem (only next_string) ≡ b.mem (only next_string)

if-SameNumbers :
    (test : Bool) (a b c : Board)
    → SameNumbers a b
    → SameNumbers a c
    → SameNumbers a (if test then b else c)
if-SameNumbers test a b c p q = elim (Bool-cases test) [ inl e ↦ rw e p | inr e ↦ rw e q ]

SameNumbers-refl : (b : Board) → SameNumbers b b
SameNumbers-refl b = record { numbers = λ q. refl; total = refl }

SameNumbers-trans : {a b c : Board} → SameNumbers a b → SameNumbers b c → SameNumbers a c
SameNumbers-trans p p' = record {
  numbers = λ q. p'.numbers q ∙ p.numbers q;
  total = p'.total ∙ p.total;
}

add_liberty-SameNumbers : (s pos : ℕ) (b : Board) → SameNumbers b (add_liberty s pos b)
unfolding add_liberty list_liberty
add_liberty-SameNumbers s pos b =
    SameNumbers-trans
      (if-SameNumbers (ltb (liberties_of s b) max_liberties) b
        (write (at_slot libs s (liberties_of s b)) pos b) b
        (record { numbers = λ q. refl; total = refl }) (SameNumbers-refl b))
      (record { numbers = λ q. refl; total = refl })

note_beside-SameNumbers : (s other q : ℕ) (b : Board) → SameNumbers b (note_beside s other q b)
unfolding note_beside add_and_mark_liberty mark_string_at add_neighbor_string
note_beside-SameNumbers s other q b =
    if-SameNumbers (unmarked_liberty q b) b _ _
      (SameNumbers-trans (add_liberty-SameNumbers s q b)
        (record { numbers = λ q. refl; total = refl }))
      (if-SameNumbers (unmarked_color_string q other b) b _ b
        (record { numbers = λ q. refl; total = refl }) (SameNumbers-refl b))

find_liberties_and_neighbors-SameNumbers :
    (s : ℕ) (b : Board) → SameNumbers b (find_liberties_and_neighbors s b)
unfolding find_liberties_and_neighbors
find_liberties_and_neighbors-SameNumbers s b =
    let other = other_color (color_of s b) in
    walk-keeps (SameNumbers b) s (λ pos. around (λ d. note_beside s other (step d pos)))
      (λ b' p. record { numbers = p.numbers; total = p.total })
      (λ pos.
        around-keeps (SameNumbers b) (λ d. note_beside s other (step d pos))
          (λ d b' p. SameNumbers-trans p (note_beside-SameNumbers s other (step d pos) b')))
      _ _ _ (record { numbers = λ q. refl; total = refl })

fill_strings-SameNumbers : (n s : ℕ) (b : Board) → SameNumbers b (fill_strings n s b)
unfolding fill_strings
fill_strings-SameNumbers zero s b = SameNumbers-refl b
fill_strings-SameNumbers (suc n) s b =
    SameNumbers-trans (find_liberties_and_neighbors-SameNumbers s b)
      (fill_strings-SameNumbers n (s + 1) _)

-- forget_numbers leaves the numbers of the points outside of its range alone.
forget_numbers_outside :
    (n pos : ℕ) (b : Board) (q : ℕ) → q < pos → number_at q (forget_numbers n pos b) ≡ number_at q b
unfolding forget_numbers
forget_numbers_outside zero pos b q low = refl
forget_numbers_outside (suc n) pos b q low =
    forget_numbers_outside n (pos + 1) _ q (omega (arith, low))
    ∙ (elim (Bool-cases (on_board pos b)) [
      | inl on ↦ rw on (ground (arith, low))
      | inr off ↦ rw off refl
    ])

forget_numbers_lem :
    (n pos : ℕ) (b : Board) (q : ℕ)
    → on_board q b ≡ true
    → pos ≤ q
    → q < pos + n
    → number_at q (forget_numbers n pos b) ≡ minus_one
unfolding forget_numbers
forget_numbers_lem zero pos b q on low high = absurd (omega (arith, low, high))
forget_numbers_lem (suc n) pos b q on low high = elim (Bool-cases (pos == q)) [
  | inl is ↦
      subst (λ x. number_at x (forget_numbers (suc n) pos b) ≡ minus_one) (==→≡ pos q is)
        (forget_numbers_outside n (pos + 1) _ pos (omega arith)
          ∙ (let on' : on_board pos b ≡ true = ap (λ x. on_board x b) (==→≡ pos q is) ∙ on in
              rw on' (ground arith)))
  | inr other ↦ elim (Bool-cases (on_board pos b)) [
    | inl here ↦ rw here (
        forget_numbers_lem n (pos + 1) (write (at string_number pos) minus_one b) q on
          (omega (arith, low, ==→≢ pos q other)) (omega (arith, high)))
    | inr off ↦ rw off (
        forget_numbers_lem n (pos + 1) b q on (omega (arith, low, ==→≢ pos q other))
          (omega (arith, high)))
  ]
]

total-forget_numbers :
    (n pos : ℕ) (b : Board)
    → (forget_numbers n pos b).mem (only next_string) ≡ b.mem (only next_string)
unfolding forget_numbers
total-forget_numbers zero pos b = refl
total-forget_numbers (suc n) pos b =
    total-forget_numbers n (pos + 1) _
    ∙ (elim (Bool-cases (on_board pos b)) [ inl on ↦ rw on refl | inr off ↦ rw off refl ])

module _ (b : Board) (framed : (q : ℕ) → b.board q ≢ gray → (board_min ≤ q) × (q < board_max)) where
  -- Where no stone has a number.
  nothing-Numbers :
      (f : Board)
      → f.board ≡ b.board
      → f.mem (only next_string) ≡ 0
      → ((q : ℕ) → HasStone b.board framed q → number_at q f ≡ minus_one)
      → Numbers b.board framed board_min f
  nothing-Numbers f e none all = record {
    stones = e;
    few = omega (arith, none);
    done = λ q has before. absurd (omega (arith, before, (framed q (ground (arith, has))).0));
    below = λ q has some. absurd (some (all q has));
    together = λ p q has some chain. absurd (some (all p has));
    apart = λ p q has has' some same. absurd (some (all p has));
  }

  -- Let the points outside of the rows and columns be off the board. After new_position each stone
  -- has the number of a string, and two stones have the same one exactly when a chain of stones of
  -- their color leads from one to the other.
  pub rebuild_strings-Connected :
      (p q : ℕ)
      → is_stone (b.board p) ≡ true
      → is_stone (b.board q) ≡ true
      → let b' = rebuild_strings b in
        (number_at p b' < b'.mem (only next_string))
        × (number_at q b' ≡ number_at p b' ↔ Connected b.board p q)
  unfolding rebuild_strings reset_memory is_reset
  rebuild_strings-Connected p q has has' =
      let reset = record (clear_stacks b) { mem = reset_memory b.mem } in
      let forgotten = forget_numbers (board_max - board_min) board_min reset in
      let found = find_strings (board_max - board_min) board_min forgotten in
      let start =
        nothing-Numbers forgotten
          (forget_numbers-Keeps (board_max - board_min) board_min reset).points
          (total-forget_numbers (board_max - board_min) board_min reset)
          (λ r stone.
            let (low, high) = framed r (ground (arith, stone)) in
            forget_numbers_lem (board_max - board_min) board_min reset r (ground (arith, stone)) low
              (omega (arith, high))) in
      let numbers =
        find_strings-Numbers b.board framed (board_max - board_min) board_min forgotten
          (omega arith) start in
      let filled = fill_strings-SameNumbers (found.mem (only next_string)) 0 found in
      let high = (framed p (ground (arith, has))).1 in
      let some = numbers.done p has high in
      (
        omega (arith, filled.numbers p, filled.total, numbers.below p has some),
        (
          λ e. numbers.apart p q has has' some (sym (filled.numbers q) ∙ e ∙ filled.numbers p),
          λ chain. filled.numbers q ∙ numbers.together p q has some chain ∙ sym (filled.numbers p),
        ),
      )
