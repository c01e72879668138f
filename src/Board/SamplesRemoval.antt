-- ===== src/Board/SamplesRemoval.antt =====
-- Two black stones side by side, and their removal.
use gnugo.Base.{take, ◌≤◌, ◌≡◌, refl, [], ◌∷◌, if◌then◌else◌, arith}
use gnugo.Color.{empty, black}
use gnugo.Hash.{hashdata_recalc, recalc_stones, hashdata_invert_stone}
use gnugo.Board.State.{
  Board, origin_of, list_liberty, add_liberty, add_and_mark_liberty, do_add_stone, mark_string_at,
}
use gnugo.Board.Liberties.{find_entry, remove_liberty, drop_entry}
use gnugo.Board.Capture.{each_neighbor, do_remove_string}
use gnugo.Board.Strings.{
  start_string, create_towards, create_new_string, link_stone, mark_neighbors, extend_towards,
  extend_neighbor_string, non_neighbor_of_string,
}
use gnugo.Board.Play.{meets, mark_if, scan_towards, put_down, scan_around, note_ko, do_play_move}
use gnugo.Board.Legality.{gives_life, is_suicide, takes_ko}
use gnugo.Board.Trymove.{
  open_record, place_move, really_do_trymove, refuses, enter, try_entered, do_trymove, count_node,
  finish_try, trymove,
}
use gnugo.Board.Walks.{Links}
use gnugo.Board.Removal.{among, InRange, board-do_remove_string, do_remove_string-HashIsRecalc}
use gnugo.Board.Hashing.{HashIsRecalc}
use gnugo.Board.Queries.{findstones, countstones, count_adjacent_stones}
use gnugo.Board.Queries.Stones.{findstones_lem, count_adjacent_stones_le}
use gnugo.Board.Samples.{after_first}

abbrev pair_board : Board
pair_board = (trymove 111 black after_first).1.position

pair_origin : origin_of 0 pair_board ≡ 110
unfolding trymove do_trymove try_entered enter refuses is_suicide gives_life takes_ko finish_try
    count_node really_do_trymove place_move open_record do_play_move scan_around put_down
    do_add_stone scan_towards meets mark_if mark_string_at note_ko create_new_string start_string
    create_towards add_and_mark_liberty add_liberty list_liberty extend_neighbor_string link_stone
    mark_neighbors extend_towards remove_liberty find_entry drop_entry non_neighbor_of_string
    each_neighbor
pair_origin = refl

pair-Links : Links pair_board (origin_of 0 pair_board) (origin_of 0 pair_board) (111 ∷ [])
unfolding trymove do_trymove try_entered enter refuses is_suicide gives_life takes_ko finish_try
    count_node really_do_trymove place_move open_record do_play_move scan_around put_down
    do_add_stone scan_towards meets mark_if mark_string_at note_ko create_new_string start_string
    create_towards add_and_mark_liberty add_liberty list_liberty extend_neighbor_string link_stone
    mark_neighbors extend_towards remove_liberty find_entry drop_entry non_neighbor_of_string
    each_neighbor Links
pair-Links = (refl, (λ e. absurd (omega (arith, e))), refl)

pair-InRange : InRange (origin_of 0 pair_board) (111 ∷ [])
unfolding trymove do_trymove try_entered enter refuses is_suicide gives_life takes_ko finish_try
    count_node really_do_trymove place_move open_record do_play_move scan_around put_down
    do_add_stone scan_towards meets mark_if mark_string_at note_ko create_new_string start_string
    create_towards add_and_mark_liberty add_liberty list_liberty extend_neighbor_string link_stone
    mark_neighbors extend_towards remove_liberty find_entry drop_entry non_neighbor_of_string
    each_neighbor InRange
pair-InRange = (omega arith, omega arith, (omega arith, omega arith))

pair-HashIsRecalc : HashIsRecalc pair_board
unfolding trymove do_trymove try_entered enter refuses is_suicide gives_life takes_ko finish_try
    count_node really_do_trymove place_move open_record do_play_move scan_around put_down
    do_add_stone scan_towards meets mark_if mark_string_at note_ko create_new_string start_string
    create_towards add_and_mark_liberty add_liberty list_liberty extend_neighbor_string link_stone
    mark_neighbors extend_towards remove_liberty find_entry drop_entry non_neighbor_of_string
    each_neighbor hashdata_recalc recalc_stones hashdata_invert_stone
pair-HashIsRecalc = refl

board-do_remove_string_example :
    (do_remove_string 0 pair_board).board 111
    ≡ (if among 111 (origin_of 0 pair_board) (111 ∷ []) then empty else pair_board.board 111)
board-do_remove_string_example =
    board-do_remove_string 0 (111 ∷ []) pair_board pair-Links (omega arith) 111

do_remove_string-HashIsRecalc_example : HashIsRecalc (do_remove_string 0 pair_board)
do_remove_string-HashIsRecalc_example =
    do_remove_string-HashIsRecalc 0 (111 ∷ []) pair_board pair-Links (omega arith) pair-InRange
      pair-HashIsRecalc

findstones_lem_example : findstones 111 1 pair_board ≡ (2, take 1 (110 ∷ 111 ∷ []))
unfolding trymove do_trymove try_entered enter refuses is_suicide gives_life takes_ko finish_try
    count_node really_do_trymove place_move open_record do_play_move scan_around put_down
    do_add_stone scan_towards meets mark_if mark_string_at note_ko create_new_string start_string
    create_towards add_and_mark_liberty add_liberty list_liberty extend_neighbor_string link_stone
    mark_neighbors extend_towards remove_liberty find_entry drop_entry non_neighbor_of_string
    each_neighbor
findstones_lem_example = findstones_lem 111 1 (111 ∷ []) pair_board pair-Links refl

count_adjacent_stones_le_example :
    let total = count_adjacent_stones 110 111 5 pair_board in
    (total ≤ 5) × (total ≤ countstones 110 pair_board)
count_adjacent_stones_le_example = count_adjacent_stones_le 110 111 5 pair_board
