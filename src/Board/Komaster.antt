-- ===== src/Board/Komaster.antt =====
-- The komaster scheme of engine/board.c: set_new_komaster, set_new_kom_pos and komaster_trymove.
use gnugo.Base.{
  ℕ, Bool, true, false, ◌&&◌, ◌||◌, not, Option, none, some, ◌==◌, if◌then◌else◌, is_some, get_or,
}
use gnugo.Color.{empty, white, black, gray_white, gray_black, weak_ko, other_color, is_stone}
use gnugo.Point.{no_move, diagonal_neighbors}
use gnugo.Hash.{hashdata_invert_komaster, hashdata_invert_kom_pos}
use gnugo.Board.Cells.{only, board_ko_pos, komaster, kom_pos}
use gnugo.Board.State.{Board, write, push_value}
use gnugo.Board.Legality.{is_ko, is_suicide}
use gnugo.Board.Trymove.{Reading, set_position, trymove, tryko}

abbrev pub komaster_of : Board → ℕ
komaster_of b = b.mem (only komaster)

abbrev pub kom_pos_of : Board → ℕ
kom_pos_of b = b.mem (only kom_pos)

unfoldable pub set_new_komaster : ℕ → Board → Board
set_new_komaster new_komaster b =
    let inverted = hashdata_invert_komaster b.zobrist b.board_hash (komaster_of b) in
    let pushed = push_value (only komaster) b in
    write (only komaster) new_komaster
      (record pushed { board_hash = hashdata_invert_komaster b.zobrist inverted new_komaster })

unfoldable pub set_new_kom_pos : ℕ → Board → Board
set_new_kom_pos new_kom_pos b =
    let inverted = hashdata_invert_kom_pos b.zobrist b.board_hash (kom_pos_of b) in
    let pushed = push_value (only kom_pos) b in
    write (only kom_pos) new_kom_pos
      (record pushed { board_hash = hashdata_invert_kom_pos b.zobrist inverted new_kom_pos })

abbrev pub set_komaster_state : ℕ → ℕ → Board → Board
set_komaster_state new_komaster new_kom_pos b =
    set_new_kom_pos new_kom_pos (set_new_komaster new_komaster b)

-- The returns of 0 before the move is tried: `ko` is the result of is_ko.
unfoldable pub komaster_forbids : ℕ → ℕ → Option ℕ → Board → Bool
komaster_forbids pos color none b = false
komaster_forbids pos color (some kpos) b =
    let master = komaster_of b in
    (master == other_color color && pos == kom_pos_of b)
    || (master == gray_white || master == gray_black)
    || (master == color && not (diagonal_neighbors kpos (kom_pos_of b)))
    || (master == weak_ko
        && not (pos == b.mem (only board_ko_pos))
        && not (diagonal_neighbors kpos (kom_pos_of b)))

-- After a move that is no ko capture.
unfoldable pub ko_is_resolved : ℕ → Board → Bool
ko_is_resolved color b =
    let master = komaster_of b in
    let kom = kom_pos_of b in
    (master == color
      || (master == gray_white && color == white)
      || (master == gray_black && color == black))
    && (is_stone (b.board kom)
        || (not (is_some (is_ko kom (other_color color) b))
            && is_suicide kom (other_color color) b))

unfoldable pub after_no_ko : ℕ → Board → Board
after_no_ko color b =
    let resolved = if ko_is_resolved color b then set_komaster_state empty no_move b else b in
    if komaster_of resolved == weak_ko then set_komaster_state empty no_move resolved else resolved

-- After a ko capture at which the stone at `kpos` was taken.
unfoldable pub after_ko : ℕ → ℕ → ℕ → Board → Board
after_ko color kpos previous_board_ko_pos b =
    let master = komaster_of b in
    if master == other_color color
    then set_new_komaster (if color == white then gray_black else gray_white) b
    else if master == color
    then set_new_kom_pos kpos b
    else if previous_board_ko_pos == no_move
    then b
    else set_komaster_state weak_ko previous_board_ko_pos b

-- The result: the return value, `*is_conditional_ko`, and the state.
abbrev pub Tried : Type 0
Tried = record { allowed : Bool; conditional : Bool; reading : Reading }

abbrev pub tried : Bool → Bool → Reading → Tried
tried allowed conditional r = record { allowed = allowed; conditional = conditional; reading = r }

abbrev pub on_position : (Board → Board) → Reading → Reading
on_position f r = set_position r (f r.position)

-- The part behind a successful trymove or tryko.
unfoldable pub settle : ℕ → Option ℕ → ℕ → Reading → Reading
settle color none previous r = on_position (after_no_ko color) r
settle color (some kpos) previous r = on_position (after_ko color kpos previous) r

-- The part behind tryko. Where is_ko returned 0 the local `kpos` of the code is not initialised; the
-- model has NO_MOVE for it.
unfoldable pub settle_conditional : ℕ → Option ℕ → ℕ → Reading → Tried
settle_conditional color ko previous r =
    if komaster_of r.position == empty || komaster_of r.position == weak_ko
    then tried true true (on_position (set_komaster_state color (get_or ko no_move)) r)
    else tried true true (settle color ko previous r)

unfoldable pub after_tryko : ℕ → Option ℕ → ℕ → Bool × Reading → Tried
after_tryko color ko previous (false, r) = tried false false r
after_tryko color ko previous (true, r) = settle_conditional color ko previous r

unfoldable pub after_trymove : ℕ → ℕ → Bool → Option ℕ → ℕ → Bool × Reading → Tried
after_trymove pos color consider_conditional_ko ko previous (true, r) =
    tried true false (settle color ko previous r)
after_trymove pos color consider_conditional_ko ko previous (false, r) =
    if consider_conditional_ko
    then after_tryko color ko previous (tryko pos color r)
    else tried false false r

unfoldable pub komaster_trymove : ℕ → ℕ → Bool → Reading → Tried
komaster_trymove pos color consider_conditional_ko r =
    let ko = is_ko pos color r.position in
    let previous = r.position.mem (only board_ko_pos) in
    if komaster_forbids pos color ko r.position
    then tried false false r
    else after_trymove pos color consider_conditional_ko ko previous (trymove pos color r)
