-- ===== src/Board/Position/Keeps.antt =====
-- What new_position of engine/board.c leaves alone: the stones, the hash, the ko, the prisoners and
-- the komaster.
use gnugo.Base.{
  ℕ, zero, suc, ◌+◌, ◌-◌, ◌≡◌, refl, ◌∙◌, Bool, true, false, ◌&&◌, leb, ltb, ◌==◌, if◌then◌else◌,
  arith, Bool-cases, inl, inr,
}
use gnugo.Color.{other_color}
use gnugo.Point.{board_min, board_max, Direction, to_south, to_west, to_north, to_east, step}
use gnugo.Board.Cells.{
  Field, Cell, field_code, at, at_slot, only, string_number, next_stone, next_string, string_size,
  string_color, string_origin, string_mark, string_liberties, string_neighbors, libs, neighbor_list,
  ml, liberty_mark, string_mark_counter, board_ko_pos, black_captured, white_captured, komaster,
  kom_pos,
}
use gnugo.Board.State.{
  Board, minus_one, max_liberties, write, number_at, color_of, liberties_of, unmarked_liberty,
  unmarked_color_string, mark_string_at, add_and_mark_liberty, add_liberty, list_liberty,
  add_neighbor_string, around, gg_assert, paranoid,
}
use gnugo.Board.Legality.{on_board}
use gnugo.Board.Loops.{around-keeps, walk-keeps}
use gnugo.Board.Position.{
  is_reset, reset_memory, clear_stacks, forget_numbers, link_to_string, propagate_towards,
  propagate_string, find_string, find_strings, note_beside, find_liberties_and_neighbors,
  fill_strings, rebuild_strings,
}

-- The variables of the game, from board_ko_pos on.
abbrev pub is_game : Field → Bool
is_game f = leb 14 (field_code f)

pub record Keeps (b b' : Board) : Type 0 where
  pub points : b'.board ≡ b.board
  pub hash : b'.board_hash ≡ b.board_hash
  pub tables : b'.zobrist ≡ b.zobrist
  pub cells : (c : Cell) → is_game c.field ≡ true → b'.mem c ≡ b.mem c

pub Keeps-refl : (b : Board) → Keeps b b
Keeps-refl b = record { points = refl; hash = refl; tables = refl; cells = λ c e. refl }

pub Keeps-trans : {a b c : Board} → Keeps a b → Keeps b c → Keeps a c
Keeps-trans p q = record {
  points = q.points ∙ p.points;
  hash = q.hash ∙ p.hash;
  tables = q.tables ∙ p.tables;
  cells = λ c e. q.cells c e ∙ p.cells c e;
}

-- A fault changes nothing else.
paranoid-Keeps : (test : Bool) (a b : Board) → Keeps a b → Keeps a (paranoid test b)
paranoid-Keeps test a b p = record {
  points = p.points;
  hash = p.hash;
  tables = p.tables;
  cells = p.cells;
}

fault-Keeps : (a b : Board) → Keeps a b → Keeps a (record b { faulty = true })
fault-Keeps a b p = record { points = p.points; hash = p.hash; tables = p.tables; cells = p.cells }

write-Keeps : (c : Cell) (v : ℕ) (b : Board) → is_game c.field ≡ false → Keeps b (write c v b)
write-Keeps c v b other = record {
  points = refl;
  hash = refl;
  tables = refl;
  cells = λ d e.
      let apart : (field_code c.field == field_code d.field) ≡ false = ground (arith, other, e) in
      rw apart refl;
}

-- Two writes in a row.
then_write :
    {a b : Board} (c : Cell) (v : ℕ) → is_game c.field ≡ false → Keeps a b → Keeps a (write c v b)
then_write {a} {b} c v other p = Keeps-trans p (write-Keeps c v b other)

if-Keeps : (test : Bool) (a b c : Board) → Keeps a b → Keeps a c → Keeps a (if test then b else c)
if-Keeps test a b c p q = elim (Bool-cases test) [ inl e ↦ rw e p | inr e ↦ rw e q ]

pub gg_assert-Keeps : (test : Bool) (b : Board) → Keeps b (gg_assert test b)
gg_assert-Keeps test b = if-Keeps test b b _ (Keeps-refl b) (fault-Keeps b b (Keeps-refl b))

pub forget_numbers-Keeps : (n pos : ℕ) (b : Board) → Keeps b (forget_numbers n pos b)
unfolding forget_numbers
forget_numbers-Keeps zero pos b = Keeps-refl b
forget_numbers-Keeps (suc n) pos b =
    Keeps-trans
      (if-Keeps (on_board pos b) b _ b (write-Keeps (at string_number pos) minus_one b refl)
        (Keeps-refl b))
      (forget_numbers-Keeps n (pos + 1) _)

link_to_string-Keeps : (stone str : ℕ) (b : Board) → Keeps b (link_to_string stone str b)
unfolding link_to_string
link_to_string-Keeps stone str b =
    if-Keeps (stone == str) b _ _ (write-Keeps (at next_stone stone) stone b refl) (
      then_write (at next_stone str) stone refl (
        then_write (at next_stone stone) _ refl
          (write-Keeps (at string_number stone) (number_at str b) b refl)))

propagate_towards-Keeps :
    (visit : ℕ → Board → ℕ × Board)
    → ((q : ℕ) (b : Board) → Keeps b (visit q b).1)
    → (stone : ℕ) (d : Direction) (s : ℕ × Board) → Keeps s.1 (propagate_towards visit stone d s).1
unfolding propagate_towards
propagate_towards-Keeps visit keep stone d (size, b) =
    let q = step d stone in
    elim (Bool-cases (on_board q b && b.board q == b.board stone && number_at q b == minus_one)) [
      | inl more ↦ rw (propagate_towards, more) (keep q b)
      | inr none ↦ rw (propagate_towards, none) (Keeps-refl b)
    ]

pub propagate_string-Keeps :
    (fuel stone str : ℕ) (b : Board) → Keeps b (propagate_string fuel stone str b).1
unfolding propagate_string
propagate_string-Keeps zero stone str b = fault-Keeps b b (Keeps-refl b)
propagate_string-Keeps (suc fuel) stone str b =
    let turn =
      propagate_towards-Keeps (λ q b'. propagate_string fuel q str b')
        (λ q b'. propagate_string-Keeps fuel q str b') stone in
    Keeps-trans (link_to_string-Keeps stone str b) (
      Keeps-trans (turn to_south _)
        (Keeps-trans (turn to_west _) (Keeps-trans (turn to_north _) (turn to_east _))))

pub find_string-Keeps : (pos : ℕ) (b : Board) → Keeps b (find_string pos b)
unfolding find_string
find_string-Keeps pos b =
    let numbered = write (at string_number pos) (b.mem (only next_string)) b in
    let grown =
      Keeps-trans (write-Keeps (at string_number pos) (b.mem (only next_string)) b refl)
        (propagate_string-Keeps board_max pos pos numbered) in
    if-Keeps _ b _ b
      (paranoid-Keeps _ b _ (
        then_write (only next_string) _ refl (
          then_write (at string_mark _) 0 refl (
            then_write (at string_origin _) pos refl (
              then_write (at string_color _) _ refl
                (then_write (at string_size _) _ refl grown))))))
      (Keeps-refl b)

find_strings-Keeps : (n pos : ℕ) (b : Board) → Keeps b (find_strings n pos b)
unfolding find_strings
find_strings-Keeps zero pos b = Keeps-refl b
find_strings-Keeps (suc n) pos b =
    Keeps-trans (find_string-Keeps pos b) (find_strings-Keeps n (pos + 1) _)

add_liberty-Keeps : (s pos : ℕ) (b : Board) → Keeps b (add_liberty s pos b)
unfolding add_liberty list_liberty
add_liberty-Keeps s pos b = then_write (at string_liberties s) _ refl (
    if-Keeps (ltb (liberties_of s b) max_liberties) b _ b
      (write-Keeps (at_slot libs s (liberties_of s b)) pos b refl) (Keeps-refl b))

note_beside-Keeps : (s other q : ℕ) (b : Board) → Keeps b (note_beside s other q b)
unfolding note_beside add_and_mark_liberty mark_string_at add_neighbor_string
note_beside-Keeps s other q b =
    if-Keeps (unmarked_liberty q b) b _ _ (then_write (at ml q) _ refl (add_liberty-Keeps s q b)) (
      if-Keeps (unmarked_color_string q other b) b _ b
        (then_write (at string_mark _) _ refl (
          then_write (at string_neighbors s) _ refl
            (write-Keeps (at_slot neighbor_list s _) _ b refl)))
        (Keeps-refl b))

find_liberties_and_neighbors-Keeps :
    (s : ℕ) (b : Board) → Keeps b (find_liberties_and_neighbors s b)
unfolding find_liberties_and_neighbors
find_liberties_and_neighbors-Keeps s b =
    let other = other_color (color_of s b) in
    walk-keeps (Keeps b) s (λ pos. around (λ d. note_beside s other (step d pos))) (fault-Keeps b)
      (λ pos.
        around-keeps (Keeps b) (λ d. note_beside s other (step d pos))
          (λ d b' p. Keeps-trans p (note_beside-Keeps s other (step d pos) b')))
      _ _ _
      (then_write (only string_mark_counter) _ refl (write-Keeps (only liberty_mark) _ b refl))

fill_strings-Keeps : (n s : ℕ) (b : Board) → Keeps b (fill_strings n s b)
unfolding fill_strings
fill_strings-Keeps zero s b = Keeps-refl b
fill_strings-Keeps (suc n) s b =
    Keeps-trans (find_liberties_and_neighbors-Keeps s b) (fill_strings-Keeps n (s + 1) _)

not_reset : (f : Field) → is_game f ≡ true → is_reset f ≡ false
unfolding is_reset
not_reset board_ko_pos e = refl
not_reset black_captured e = refl
not_reset white_captured e = refl
not_reset komaster e = refl
not_reset kom_pos e = refl
not_reset f e = absurd (ground (arith, e))

pub rebuild_strings-Keeps : (b : Board) → Keeps b (rebuild_strings b)
unfolding rebuild_strings reset_memory
rebuild_strings-Keeps b =
    let reset : Keeps b (record (clear_stacks b) { mem = reset_memory b.mem }) = record {
      points = refl;
      hash = refl;
      tables = refl;
      cells = λ c e. rw (not_reset c.field e) refl;
    } in
    Keeps-trans reset (
      Keeps-trans (forget_numbers-Keeps (board_max - board_min) board_min _) (
        Keeps-trans (find_strings-Keeps (board_max - board_min) board_min _)
          (fill_strings-Keeps _ 0 _)))
