-- ===== src/Board/Undo/Quiet.antt =====
-- What captures leave alone: the string numbers, and the stones that stay. With the saved list
-- entries of a string its number of liberties is saved.
use gnugo.Base.{
  ℕ, zero, suc, ◌+◌, ◌-◌, ◌≡◌, refl, ◌∙◌, ◌⊎◌, inl, inr, true, false, ltb, ◌==◌, arith, Bool-cases,
  min, List, ap, ==→≡,
}
use gnugo.Color.{empty}
use gnugo.Point.{step}
use gnugo.Board.Cells.{
  Cell, Memory, cell_eq, at, at_slot, string_liberties, string_neighbors, libs, neighbor_list,
  string_number,
}
use gnugo.Board.State.{
  Board, Change, max_liberties, push_value, number_at, liberties_of, neighbors_of, mark_string_at,
  list_liberty, add_liberty, add_and_mark_liberty, unmarked_liberty,
}
use gnugo.Board.Liberties.{
  push_liberties, add_if_unmarked, add_liberties_around, update_liberties, drop_entry,
  remove_neighbor, remove_liberty, find_entry,
}
use gnugo.Board.Loops.{around-keeps, walk-keeps}
use gnugo.Board.Undo.Live.{logged, logged-push, logged-push_self}
use gnugo.Board.Undo.Lists.{mem-push_liberties, logged-push_liberties}

abbrev pub Paired : List Change → Type 0
Paired cs =
    (s k : ℕ) → logged cs (at_slot libs s k) ≡ true → logged cs (at string_liberties s) ≡ true

pub record Quiet (b b' : Board) : Type 0 where
  pub numbers : (q : ℕ) → number_at q b' ≡ number_at q b
  pub stones : (q : ℕ) → (b'.board q ≡ b.board q) ⊎ (b'.board q ≡ empty)
  pub pairs : Paired b.changes → Paired b'.changes

pub Quiet-refl : (b : Board) → Quiet b b
Quiet-refl b = record { numbers = λ q. refl; stones = λ q. inl refl; pairs = λ p. p }

pub Quiet-trans : {a b c : Board} → Quiet a b → Quiet b c → Quiet a c
Quiet-trans p q = record {
  numbers = λ x. q.numbers x ∙ p.numbers x;
  stones = λ x. elim (q.stones x) [
    | inl e ↦ elim (p.stones x) [ inl e' ↦ inl (e ∙ e') | inr e' ↦ inr (e ∙ e') ]
    | inr e ↦ inr e
  ];
  pairs = λ h. q.pairs (p.pairs h);
}

-- Changes to the memory alone, and pushes of variables that are no list entries.
pub memory-Quiet :
    (b b' : Board)
    → ((q : ℕ) → number_at q b' ≡ number_at q b)
    → b'.board ≡ b.board
    → (Paired b.changes → Paired b'.changes)
    → Quiet b b'
memory-Quiet b b' n e p = record { numbers = n; stones = λ q. inl (λ i. e i q); pairs = p }

pub mark_string_at-Quiet : (q : ℕ) (b : Board) → Quiet b (mark_string_at q b)
unfolding mark_string_at
mark_string_at-Quiet q b = memory-Quiet b _ (λ _. refl) refl (λ p. p)

list_liberty-Quiet : (s pos : ℕ) (b : Board) → Quiet b (list_liberty s pos b)
unfolding list_liberty
list_liberty-Quiet s pos b = elim (Bool-cases (ltb (liberties_of s b) max_liberties)) [
  | inl room ↦ rw room (memory-Quiet b _ (λ _. refl) refl (λ p. p))
  | inr full ↦ rw full (Quiet-refl b)
]

pub add_liberty-Quiet : (s pos : ℕ) (b : Board) → Quiet b (add_liberty s pos b)
unfolding add_liberty
add_liberty-Quiet s pos b =
    Quiet-trans (list_liberty-Quiet s pos b) (memory-Quiet _ _ (λ _. refl) refl (λ p. p))

add_if_unmarked-Quiet : (s pos : ℕ) (b : Board) → Quiet b (add_if_unmarked s pos b)
unfolding add_if_unmarked add_and_mark_liberty
add_if_unmarked-Quiet s pos b = elim (Bool-cases (unmarked_liberty pos b)) [
  | inl new ↦
      rw new (Quiet-trans (add_liberty-Quiet s pos b) (memory-Quiet _ _ (λ _. refl) refl (λ p. p)))
  | inr old ↦ rw old (Quiet-refl b)
]

-- A push of a variable that is no entry of a list of liberties.
pub push-Quiet :
    (c : Cell) (b : Board)
    → ((s k : ℕ) → cell_eq c (at_slot libs s k) ≡ false)
    → Quiet b (push_value c b)
push-Quiet c b other =
    memory-Quiet b _ (λ _. refl) refl
      (λ p s k l.
        logged-push b.changes c (at string_liberties s) (b.mem c)
          (p s k (ground (arith, other s k, l))))

-- Pushes of entries of the list of one string, whose number of liberties is saved in the end.
entry_pushes :
    (cs cs' : List Change) (s : ℕ)
    → logged cs' (at string_liberties s) ≡ true
    → ((c : Cell) → logged cs c ≡ true → logged cs' c ≡ true)
    → ((x j : ℕ)
        → (s == x) ≡ false
        → logged cs' (at_slot libs x j) ≡ true
        → logged cs (at_slot libs x j) ≡ true)
    → Paired cs
    → Paired cs'
entry_pushes cs cs' s h more other p x j l = elim (Bool-cases (s == x)) [
  | inl same ↦ rw (← ==→≡ s x same) h
  | inr apart ↦ more (at string_liberties x) (p x j (other x j apart l))
]

push_liberties_other :
    (s n k x j : ℕ) (b : Board)
    → (s == x) ≡ false
    → logged (push_liberties s n k b).changes (at_slot libs x j) ≡ true
    → logged b.changes (at_slot libs x j) ≡ true
unfolding push_liberties
push_liberties_other s zero k x j b apart l = l
push_liberties_other s (suc n) k x j b apart l =
    ground
      (arith, apart, push_liberties_other s n (k + 1) x j (push_value (at_slot libs s k) b) apart l)

board-push_liberties : (s n k : ℕ) (b : Board) → (push_liberties s n k b).board ≡ b.board
unfolding push_liberties
board-push_liberties s zero k b = refl
board-push_liberties s (suc n) k b = board-push_liberties s n (k + 1) _

listed-Quiet :
    (s : ℕ) (b : Board)
    → Quiet b (
        push_liberties s
          (min (liberties_of s b) max_liberties)
          0
          (push_value (at string_liberties s) b))
listed-Quiet s b =
    let n = min (liberties_of s b) max_liberties in
    let counted = push_value (at string_liberties s) b in
    memory-Quiet b _
      (λ q. ap (λ (m : Memory). m (at string_number q)) (mem-push_liberties s n 0 counted))
      (board-push_liberties s n 0 counted)
      (entry_pushes b.changes (push_liberties s n 0 counted).changes s
        (logged-push_liberties s n 0 counted (at string_liberties s)
          (logged-push_self b.changes (at string_liberties s) (liberties_of s b)))
        (λ c h.
          logged-push_liberties s n 0 counted c
            (logged-push b.changes (at string_liberties s) c (liberties_of s b) h))
        (λ x j apart l. ground (arith, push_liberties_other s n 0 x j counted apart l)))

pub update_liberties-Quiet : (s : ℕ) (b : Board) → Quiet b (update_liberties s b)
unfolding update_liberties add_liberties_around
update_liberties-Quiet s b =
    walk-keeps (Quiet b) s (add_liberties_around s)
      (λ b' q. Quiet-trans q (memory-Quiet _ _ (λ _. refl) refl (λ p. p)))
      (λ pos.
        around-keeps (Quiet b) (λ d. add_if_unmarked s (step d pos))
          (λ d b' q. Quiet-trans q (add_if_unmarked-Quiet s (step d pos) b')))
      _ _ _ (Quiet-trans (listed-Quiet s b) (memory-Quiet _ _ (λ _. refl) refl (λ p. p)))

drop_neighbor-Quiet :
    (s k : ℕ) (b : Board)
    → Quiet b (drop_entry (at_slot neighbor_list s) (at string_neighbors s) k b)
unfolding drop_entry
drop_neighbor-Quiet s k b =
    let last = at_slot neighbor_list s (b.mem (at string_neighbors s) - 1) in
    Quiet-trans (push-Quiet last b (λ _ _. refl)) (
      Quiet-trans (push-Quiet (at_slot neighbor_list s k) _ (λ _ _. refl)) (
        Quiet-trans (push-Quiet (at string_neighbors s) _ (λ _ _. refl))
          (memory-Quiet _ _ (λ _. refl) refl (λ p. p))))

drop_liberty-Quiet :
    (s k : ℕ) (b : Board) → Quiet b (drop_entry (at_slot libs s) (at string_liberties s) k b)
unfolding drop_entry
drop_liberty-Quiet s k b =
    memory-Quiet b _ (λ _. refl) refl
      (entry_pushes b.changes (drop_entry (at_slot libs s) (at string_liberties s) k b).changes s
        (ground arith) (λ c h. ground (arith, h)) (λ x j apart l. ground (arith, apart, l)))

pub remove_neighbor-Quiet : (s n : ℕ) (b : Board) → Quiet b (remove_neighbor s n b)
unfolding remove_neighbor
remove_neighbor-Quiet s n b =
    let found = find_entry (at_slot neighbor_list s) n (neighbors_of s b) 0 b in
    elim (Bool-cases found.1) [
      | inl e ↦ rw e (drop_neighbor-Quiet s found.0 b)
      | inr e ↦ rw e (memory-Quiet _ _ (λ _. refl) refl (λ p. p))
    ]

pub remove_liberty-Quiet : (s pos : ℕ) (b : Board) → Quiet b (remove_liberty s pos b)
unfolding remove_liberty
remove_liberty-Quiet s pos b =
    let found = find_entry (at_slot libs s) pos (liberties_of s b) 0 b in
    elim (Bool-cases (ltb max_liberties (liberties_of s b))) [
      | inl many ↦ rw many (update_liberties-Quiet s b)
      | inr few ↦ rw few (elim (Bool-cases found.1) [
        | inl e ↦ rw e (drop_liberty-Quiet s found.0 b)
        | inr e ↦ rw e (Quiet-refl b)
      ])
    ]
