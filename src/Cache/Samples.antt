-- ===== src/Cache/Samples.antt =====
-- A query to an empty table.
use gnugo.Base.{◌*◌, ◌<◌, ◌≡◌, ◌⊎◌, false, none, arith}
use gnugo.Cache.{
  TranspositionTable, KeyHash, Query, trusted, hn_get_value1, hn_get_value2, hn_get_move,
  hn_get_remaining_depth, calculate_hashval_for_tt, hashdata_remainder, tt_get, tt_update,
}
use gnugo.Cache.Lookup.{tt_get-tt_update}

abbrev keys : KeyHash
keys = record { target1_hash = λ k. k * 3; target2_hash = λ k. k * 5; routine_hash = λ k. k * 7 }

abbrev attack : Query
attack = record { board_hash = 77; routine = 1; target1 = 110; target2 = 0; extra_hash = none }

abbrev table : TranspositionTable
table = record {
  num_entries = 16;
  entries = λ k. record {
    deepest = record { key = 0; packed = 0 };
    newest = record { key = 0; packed = 0 };
  };
  is_clean = false;
  read_result_hits = 0;
  trusted_read_result_hits = 0;
  read_result_entered = 0;
}

tt_get-tt_update_example :
    let old =
      table.entries (hashdata_remainder (calculate_hashval_for_tt keys attack) table.num_entries) in
    let found = (tt_get keys attack 3 (tt_update keys attack 5 4 0 111 table)).0 in
    (found ≡ trusted 4 0 111)
    ⊎ (calculate_hashval_for_tt keys attack ≡ old.deepest.key)
      × (5 < hn_get_remaining_depth old.deepest.packed)
      × (found
          ≡ trusted
              (hn_get_value1 old.deepest.packed)
              (hn_get_value2 old.deepest.packed)
              (hn_get_move old.deepest.packed))
tt_get-tt_update_example =
    tt_get-tt_update keys attack 5 4 0 111 table (omega arith) 3 (omega arith)
