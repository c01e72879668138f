-- ===== src/Cache.antt =====
-- The transposition table for read results: engine/cache.h and engine/cache.c. The table of costs
-- is ROUTINE_COSTS of engine/liberty.h; allocation and the SGF traces are left aside.
pub mod Data
pub mod Lookup
mod Samples
use gnugo.Base.{
  ℕ, ◌+◌, ◌*◌, ◌/◌, ◌%◌, ◌^◌, Bool, true, false, ◌&&◌, ◌||◌, not, Option, none, some, ltb, leb,
  ◌==◌, if◌then◌else◌, bit_or,
}
use gnugo.Point.{no_move}
use gnugo.Hash.{hashdata_xor}

-- Hashnode and Hashentry; the field `data` is `packed` here.
pub record Hashnode : Type 0 where
  pub key : ℕ
  pub packed : ℕ

pub record Hashentry : Type 0 where
  pub deepest : Hashnode
  pub newest : Hashnode

-- Transposition_table, with the three fields of `stats` that it counts in.
pub record TranspositionTable : Type 0 where
  pub num_entries : ℕ
  pub entries : ℕ → Hashentry
  pub is_clean : Bool
  pub read_result_hits : ℕ
  pub trusted_read_result_hits : ℕ
  pub read_result_entered : ℕ

-- The static arrays of random words for the input of a routine.
pub record KeyHash : Type 0 where
  pub target1_hash : ℕ → ℕ
  pub target2_hash : ℕ → ℕ
  pub routine_hash : ℕ → ℕ

-- The arguments that tt_get and tt_update share, and the global hash of the board.
pub record Query : Type 0 where
  pub board_hash : ℕ
  pub routine : ℕ
  pub target1 : ℕ
  pub target2 : ℕ
  pub extra_hash : Option ℕ

abbrev pub hn_max_remaining_depth : ℕ
hn_max_remaining_depth = 31

-- hn_get_value1 and the other fields, as quotients and remainders for `>>` and `&`.
unfoldable pub hn_get_value1 : ℕ → ℕ
hn_get_value1 hn = hn / 2 ^ 23 % 16

unfoldable pub hn_get_value2 : ℕ → ℕ
hn_get_value2 hn = hn / 2 ^ 19 % 16

unfoldable pub hn_get_move : ℕ → ℕ
hn_get_move hn = hn / 2 ^ 9 % 1024

unfoldable pub hn_get_cost : ℕ → ℕ
hn_get_cost hn = hn / 2 ^ 5 % 16

unfoldable pub hn_get_remaining_depth : ℕ → ℕ
hn_get_remaining_depth hn = hn % 32

unfoldable pub hn_get_total_cost : ℕ → ℕ
hn_get_total_cost hn = hn % 512

unfoldable pub hn_create_data : ℕ → ℕ → ℕ → ℕ → ℕ → ℕ
hn_create_data remaining_depth value1 value2 move cost = bit_or (value1 % 16 * 2 ^ 23) (
    bit_or (value2 % 16 * 2 ^ 19)
      (bit_or (move % 1024 * 2 ^ 9) (bit_or (cost % 16 * 2 ^ 5) (remaining_depth % 32))))

-- ROUTINE_COSTS, up to the -1 that ends it.
unfoldable pub routine_costs : ℕ → ℕ
routine_costs routine =
    if routine == 2
    then 4
    else if routine == 3 || routine == 4
    then 0
    else if routine == 5 || routine == 6
    then 1
    else if routine == 7 || routine == 8
    then 2
    else 3

unfoldable pub calculate_hashval_for_tt : KeyHash → Query → ℕ
calculate_hashval_for_tt keys q =
    let on_routine = hashdata_xor q.board_hash (keys.routine_hash q.routine) in
    let on_target1 = hashdata_xor on_routine (keys.target1_hash q.target1) in
    let on_target2 =
      if q.target2 == no_move
      then on_target1
      else hashdata_xor on_target1 (keys.target2_hash q.target2) in
    elim q.extra_hash [ none ↦ on_target2 | some extra ↦ hashdata_xor on_target2 extra ]

-- hashdata_remainder, on 64-bit words.
unfoldable pub hashdata_remainder : ℕ → ℕ → ℕ
hashdata_remainder hd num = hd / 2 ^ 32 % num

-- The node of an entry that holds a key.
unfoldable pub matching_node : ℕ → Hashentry → Option Hashnode
matching_node hashval entry =
    if hashval == entry.deepest.key
    then some entry.deepest
    else if hashval == entry.newest.key
    then some entry.newest
    else none

-- The return value of tt_get, with what it stores through its pointers.
pub data Found : Type 0 where
  not_found : Found
  move_only : ℕ → Found
  trusted : ℕ → ℕ → ℕ → Found

unfoldable pub read_node : ℕ → Hashnode → Found
read_node remaining_depth node =
    if leb remaining_depth (hn_get_remaining_depth node.packed)
    then trusted (hn_get_value1 node.packed) (hn_get_value2 node.packed) (hn_get_move node.packed)
    else move_only (hn_get_move node.packed)

-- The two counters of tt_get.
unfoldable pub count_hit : Found → TranspositionTable → TranspositionTable
count_hit not_found table = table
count_hit (move_only move) table = record table { read_result_hits = table.read_result_hits + 1 }
count_hit (trusted value1 value2 move) table = record table {
  read_result_hits = table.read_result_hits + 1;
  trusted_read_result_hits = table.trusted_read_result_hits + 1;
}

unfoldable pub read_found : ℕ → Option Hashnode → Found
read_found remaining_depth none = not_found
read_found remaining_depth (some node) = read_node remaining_depth node

-- A negative depth is a word above the bound as well.
unfoldable pub tt_get : KeyHash → Query → ℕ → TranspositionTable → Found × TranspositionTable
tt_get keys q remaining_depth table =
    let hashval = calculate_hashval_for_tt keys q in
    let entry = table.entries (hashdata_remainder hashval table.num_entries) in
    let found = read_found remaining_depth (matching_node hashval entry) in
    if ltb hn_max_remaining_depth remaining_depth
    then (not_found, table)
    else (found, count_hit found table)

-- The policy of tt_update for one entry.
unfoldable pub update_entry : ℕ → ℕ → ℕ → Hashentry → Hashentry
update_entry hashval remaining_depth packed entry =
    let deepest = entry.deepest in
    let newest = entry.newest in
    let fresh : Hashnode = record { key = hashval; packed = packed } in
    if hashval == deepest.key && leb (hn_get_remaining_depth deepest.packed) remaining_depth
    then record entry { deepest = record deepest { packed = packed } }
    else if hashval == newest.key && leb (hn_get_remaining_depth newest.packed) remaining_depth
    then (if ltb (hn_get_remaining_depth deepest.packed) (hn_get_remaining_depth packed)
        then record { deepest = record newest { packed = packed }; newest = deepest }
        else record entry { newest = record newest { packed = packed } })
    else if ltb (hn_get_total_cost deepest.packed) (hn_get_total_cost packed)
    then record {
      deepest = fresh;
      newest =
          if ltb (hn_get_total_cost newest.packed) (hn_get_total_cost deepest.packed)
          then deepest
          else newest;
    }
    else record entry { newest = fresh }

unfoldable pub tt_update : KeyHash → Query → ℕ → ℕ → ℕ → ℕ → TranspositionTable → TranspositionTable
tt_update keys q remaining_depth value1 value2 move table =
    let hashval = calculate_hashval_for_tt keys q in
    let packed = hn_create_data remaining_depth value1 value2 move (routine_costs q.routine) in
    let index = hashdata_remainder hashval table.num_entries in
    let updated = update_entry hashval remaining_depth packed (table.entries index) in
    if ltb hn_max_remaining_depth remaining_depth then table else record table {
      entries = λ k. if index == k then updated else table.entries k;
      read_result_entered = table.read_result_entered + 1;
      is_clean = false;
    }

-- tt_clear: `memset` to 0.
unfoldable pub tt_clear : TranspositionTable → TranspositionTable
tt_clear table =
    let zeroed : Hashnode = record { key = 0; packed = 0 } in
    if table.is_clean then table else record table {
      entries = λ k. record { deepest = zeroed; newest = zeroed };
      is_clean = true;
    }

unfoldable pub reading_cache_clear : TranspositionTable → TranspositionTable
reading_cache_clear table = tt_clear table
