-- ===== src/Lib.antt =====
-- GNU Go: a verification library for the board of the engine.
--
-- The program plays Go. Everything in it rests on one component, libboard (engine/board.c,
-- engine/board.h and engine/hash.c): it keeps the stones, links the stones of a string in a cycle,
-- keeps the liberties and the neighbors of each string up to date while moves are made, and takes
-- moves back in the order of a search. The search routines call trymove, tryko or komaster_trymove,
-- look at the board, and call popgo; they keep their results in the transposition table of
-- engine/cache.c under the hash of the board.
--
-- Files, and what they model:
--   Base: names of the library that are passed on, Boolean tests and lists over the native numbers,
--   the laws of exclusive or, and inclusive or of fields that do not overlap.
--   Color, Point: `enum colors` and the macros on points of engine/board.h.
--   Hash: the tables and the inversions of engine/hash.c, and hashdata_recalc.
--   Board/Cells, Board/State: the static variables of engine/board.c and the macros on them.
--   Board/Liberties, Board/Capture, Board/Strings, Board/Play: update_liberties, remove_neighbor,
--   remove_liberty; do_remove_string, do_commit_suicide; create_new_string,
--   extend_neighbor_string, assimilate_string, assimilate_neighbor_strings; do_play_move.
--   Board/Legality: is_suicide, is_illegal_ko_capture, does_capture_something, is_ko.
--   Board/Queries: find_origin, countlib, countstones, findstones, count_adjacent_stones, chainlinks,
--   chainlinks2, chainlinks3, has_neighbor, same_string, liberty_of_string.
--   Board/Edges: is_edge_vertex, is_corner_vertex, edge_distance.
--   Board/Trymove: trymove, tryko, popgo and what they call, and is_legal.
--   Board/Komaster: set_new_komaster, set_new_kom_pos, komaster_trymove.
--   Board/Loops: rules for the loops over directions, stones and neighbors. Board/Walks: a walk along
--   the stones of a string ends, and visits each stone.
--   Board/Still, Board/Removal: what the bookkeeping leaves alone, and what a capture takes away.
--   Board/Undo: what popping the stacks restores. Live says which variables mean something in a
--   position, Tracks is the invariant of an open record, Rules and Points are its rules for a push,
--   a store and a stone, the next files go through do_play_move, Restore pops the record, Trying
--   and Results are about trymove and tryko, Search and Komasters about popgo.
--   Board/Acceptance, Board/Ko, Board/Hashing, Board/Komasters: which moves are accepted, what is_ko
--   finds, the incremental hash, also under changes of the komaster.
--   Board/Position: new_position, propagate_string, find_liberties_and_neighbors. Keeps says what they
--   leave alone; Pending, Components, Waiting, Flood, Numbering and Whole are about the string
--   numbers.
--   History: the permanent moves of engine/board.c: add_stone, remove_stone, play_move, undo_move,
--   with the move history. History/Latest: get_last_move and the like. History/Storage: store_board,
--   restore_board, clear_board. History/Rules: is_allowed_move and is_superko_violation.
--   History/Log, History/Refinement, History/Bounds, History/Answers: the history as a list of moves,
--   and an abstract machine on it. History/Round, History/Acceptance, History/Superko, History/Edges:
--   what comes back, which moves are allowed, the trial move of the superko test, and the edges of a
--   cleared board.
--   Location: location_to_buffer, location_to_string and string_to_location of engine/printutils.c.
--   Round is about what is read back, Range about what can be read.
--   MoveList: the lists of tactical moves of engine/movelist.c. Sorting, Contents and Ends are about
--   the order, the entries, and the end of its sort.
--   Random: the generator of utils/random.c. Twist and Sequence are about its recurrence, Bounds about
--   the size of its words.
--   Cache: the transposition table of engine/cache.c and engine/cache.h.
--   Rotation: rotate1 of engine/board.c, rotate and inv_rotate of utils/gg_utils.c.
--   Dfa: the automata of patterns/dfa.c, with which the matcher finds the patterns that may match.
--   Attributes is about union_att, Automaton says what an automaton reports. Dfa/Linear: create_dfa.
--   Dfa/Product: sync_product, with its test array (Table), the measure of its recursion (Unseen),
--   the invariant, and the steps up to what the product reports. Dfa/Compact: compactify_att. Dfa/Copy: copy_dfa. Dfa/Bins:
--   dfa_init, dfa_add_string and dfa_finalize (Merge, Rounds, Whole). Dfa/Shuffle: dfa_shuffle
--   (Numbering, Renumbered, Explored, Reached). mkpat makes an automaton from the strings of a database
--   with these. Dfa/Scan: the tables of print_c_dfa, and
--   scan_for_patterns of engine/matchpat.c, which scans the board with them. Dfa/Matching is about
--   all of this together.
--   Dfa/Samples, Dfa/SamplesMatching, Board/Samples, Board/SamplesRemoval, Board/SamplesPosition, Cache/Samples, Rotation/Samples,
--   History/Samples, MoveList/Samples, Random/Samples, Location/Samples: tests on concrete values.
--
-- How the code is read:
--   An int is a natural number, without overflow: atoi gives the number that is written; -1, which two local variables and string_number hold for a
--   while, is the 32-bit word.
--   Results of subtractions stay in range where the macros are used, save beside the pass, where
--   they stop at 0.
--   A static array is a part of one memory, a function from cells to numbers, and the address that
--   a record of the change stack holds is a cell. The bounds of the arrays are not checked. The
--   stacks are lists without a bound; the assertion on the size in undo_trymove is kept.
--   A failed assertion sets the flag `faulty` and the code goes on, as in the build with
--   GG_TURN_OFF_ASSERTS. The flag is never cleared, and is no part of a position. Functions that only
--   test (is_legal, is_suicide, is_ko, is_illegal_ko_capture) do not set it.
--   A walk along the stones of a string has BOARDMAX turns: a string has fewer stones than the
--   board has points, so that many are enough on boards whose chains are cycles of different
--   stones (Board/Walks). On others, where the loop of the code may not end, the walk stops and sets
--   `faulty`.
--   propagate_string has BOARDMAX nested calls at most, since each call numbers a stone. `komi` is a
--   float that is only copied. The shaker sort of a move list has a turn for each entry as fuel.
--   A loop over a list in the memory takes as many turns as its counter says.
--   The automata have a result type with a failed assertion, and one for fuel. The loops along
--   attributes have the index of the first attribute as fuel, since each links to a smaller index;
--   do_sync_product has a turn for each pair of states, since it never visits one twice; the loops of
--   dfa_finalize have 33 turns each, and need 16 and 5. The loops of dfa_shuffle have last_state turns,
--   since each turn numbers a state, or empties a queue of states just numbered. realloc is taken to succeed, and an index that
--   is not allocated can be written.
--   Longs have 64 bits, so a hash is one word. The tables of random words are arbitrary.
--   `sgf_dumptree` is NULL. The debugging array `shadow` is written only.
--   A position is `the same` (Board/Undo/Restore) where its stones, its hash, its stacks and every
--   live variable are: the marks and what lies behind the end of a list are not live.
--
-- Not modelled: gg_drand (floating point), the queries about strings that search the board
-- (findlib, fastlib, accuratelib and others), SGF, the heuristic engine (reading, owl, influence,
-- move generation) and the interfaces. Of the pattern matcher, what is done with the patterns that are found is
-- left out: the matchers themselves run on tables that the build generates.
pub mod Base
pub mod Color
pub mod Dfa
pub mod Point
pub mod Hash
pub mod History
pub mod Board
pub mod Cache
pub mod Rotation
pub mod Location
pub mod MoveList
pub mod Random
