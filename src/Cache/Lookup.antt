-- ===== src/Cache/Lookup.antt =====
-- What tt_get finds after tt_update.
use gnugo.Base.{
  ℕ, ◌%◌, ◌≤◌, ◌<◌, ◌≡◌, ◌⊎◌, inl, inr, refl, ◌∙◌, arith, Bool, true, false, ◌&&◌, some, ltb, leb,
  ◌==◌, if◌then◌else◌, Bool-cases, ==→≡,
}
use gnugo.Cache.{
  Hashnode, Hashentry, TranspositionTable, KeyHash, Query, trusted, hn_create_data, hn_get_value1,
  hn_get_value2, hn_get_move, hn_get_remaining_depth, routine_costs, calculate_hashval_for_tt,
  hashdata_remainder, matching_node, read_node, read_found, tt_get, tt_update, update_entry,
  hn_max_remaining_depth,
}
use gnugo.Cache.Data.{fields-hn_create_data}

-- What an entry has for a key after an update for it: the new data, or the deepest node from
-- before, which was for the same key and a greater depth.
abbrev Stored : ℕ → ℕ → ℕ → Hashentry → Hashnode → Type 0
Stored hashval remaining_depth packed entry node =
    (node.packed ≡ packed)
    ⊎ (hashval ≡ entry.deepest.key)
      × (remaining_depth < hn_get_remaining_depth entry.deepest.packed)
      × (node ≡ entry.deepest)

module _ (hashval remaining_depth packed : ℕ) (entry : Hashentry) where
  abbrev same_key : (node : Hashnode) → Hashnode
  same_key node = record node { packed = packed }

  -- Where neither node is taken over.
  inserted :
      (swap shift : Bool)
      → (hashval == entry.deepest.key
          && leb (hn_get_remaining_depth entry.deepest.packed) remaining_depth)
        ≡ false
      → let fresh : Hashnode = record { key = hashval; packed = packed } in
        let entry' : Hashentry =
          if swap
          then record { deepest = fresh; newest = if shift then entry.deepest else entry.newest }
          else record entry { newest = fresh } in
        (node : Hashnode) × (matching_node hashval entry' ≡ some node)
        × Stored hashval remaining_depth packed entry node
  unfolding matching_node
  inserted true shift h = (record { key = hashval; packed = packed }, (ground arith), inl refl)
  inserted false shift h = elim (Bool-cases (hashval == entry.deepest.key)) [
    | inl same ↦ (
      entry.deepest,
      (rw same refl),
      inr (==→≡ hashval entry.deepest.key same, (ground arith), refl),
    )
    | inr other ↦ (record { key = hashval; packed = packed }, ground arith, inl refl)
  ]

  -- Where the newest node is taken over, and becomes the deepest one if `swap`.
  renewed :
      (swap : Bool)
      → (hashval == entry.newest.key) ≡ true
      → (hashval == entry.deepest.key
          && leb (hn_get_remaining_depth entry.deepest.packed) remaining_depth)
        ≡ false
      → let entry' : Hashentry =
          if swap
          then record { deepest = same_key entry.newest; newest = entry.deepest }
          else record entry { newest = same_key entry.newest } in
        (node : Hashnode) × (matching_node hashval entry' ≡ some node)
        × Stored hashval remaining_depth packed entry node
  unfolding matching_node
  renewed true same h = (same_key entry.newest, rw same refl, inl refl)
  renewed false same h = elim (Bool-cases (hashval == entry.deepest.key)) [
    | inl old ↦
        (entry.deepest, rw old refl, inr (==→≡ hashval entry.deepest.key old, (ground arith), refl))
    | inr other ↦ (same_key entry.newest, rw (other, same) refl, inl refl)
  ]

  matching-update_entry :
      (node : Hashnode) × (matching_node hashval (update_entry hashval remaining_depth packed entry)
        ≡ some node)
      × Stored hashval remaining_depth packed entry node
  unfolding matching_node update_entry
  matching-update_entry =
      let one =
        hashval == entry.deepest.key
        && leb (hn_get_remaining_depth entry.deepest.packed) remaining_depth in
      let two =
        hashval == entry.newest.key
        && leb (hn_get_remaining_depth entry.newest.packed) remaining_depth in
      elim (Bool-cases one) [
        | inl first ↦
            let same : (hashval == entry.deepest.key) ≡ true = ground (arith, first) in
            (same_key entry.deepest, rw (first, same) refl, inl refl)
        | inr not_first ↦ elim (Bool-cases two) [
          | inl second ↦
              let same : (hashval == entry.newest.key) ≡ true = ground (arith, second) in
              rw (not_first, second) (renewed _ same not_first)
          | inr not_second ↦ rw (not_first, not_second) (inserted _ _ not_first)
        ]
      ]

module _ (keys : KeyHash) (q : Query) (remaining_depth value1 value2 move : ℕ)
    (table : TranspositionTable) (in_range : remaining_depth ≤ hn_max_remaining_depth) where
  abbrev updated : TranspositionTable
  updated = tt_update keys q remaining_depth value1 value2 move table

  abbrev hashval : ℕ
  hashval = calculate_hashval_for_tt keys q

  abbrev old_entry : Hashentry
  old_entry = table.entries (hashdata_remainder hashval table.num_entries)

  -- What is read, by the node that holds the key.
  reads :
      (depth : ℕ) (node : Hashnode)
      → depth ≤ remaining_depth
      → matching_node hashval (
          update_entry hashval remaining_depth
            (hn_create_data remaining_depth value1 value2 move (routine_costs q.routine))
            old_entry)
        ≡ some node
      → (tt_get keys q depth updated).0 ≡ read_node depth node
  unfolding tt_get tt_update read_found
  reads depth node low e =
      let valid : ltb hn_max_remaining_depth depth ≡ false = ground (arith, low, in_range) in
      let entered : ltb hn_max_remaining_depth remaining_depth ≡ false = ground (arith, in_range) in
      let index = hashdata_remainder hashval table.num_entries in
      let here : (index == index) ≡ true = ground arith in rw (valid, entered, here, e) refl

  -- After an update with a depth in range, a read for the same query and no greater depth is trusted, and gives what was entered, or
  -- what the deepest node of the entry had for the query already, for a greater depth.
  pub tt_get-tt_update :
      (depth : ℕ)
      → depth ≤ remaining_depth
      → ((tt_get keys q depth updated).0 ≡ trusted (value1 % 16) (value2 % 16) (move % 1024))
        ⊎ (calculate_hashval_for_tt keys q ≡ old_entry.deepest.key)
          × (remaining_depth < hn_get_remaining_depth old_entry.deepest.packed)
          × ((tt_get keys q depth updated).0
              ≡ trusted
                  (hn_get_value1 old_entry.deepest.packed)
                  (hn_get_value2 old_entry.deepest.packed)
                  (hn_get_move old_entry.deepest.packed))
  unfolding read_node
  tt_get-tt_update depth low =
      let packed = hn_create_data remaining_depth value1 value2 move (routine_costs q.routine) in
      let (node, e, stored) = matching-update_entry hashval remaining_depth packed old_entry in
      let read = reads depth node low e in
      let (on_value1, on_value2, on_move, on_cost, on_depth, on_total) =
        fields-hn_create_data remaining_depth value1 value2 move (routine_costs q.routine) in
      elim stored [
        | inl fresh ↦
            let enough : leb depth (hn_get_remaining_depth packed) ≡ true =
              ground (arith, on_depth, low, in_range) in
            inl (read ∙ (rw (fresh, enough, on_value1, on_value2, on_move) refl))
        | inr (same, more, is) ↦
            let enough : leb depth (hn_get_remaining_depth old_entry.deepest.packed) ≡ true =
              ground (arith, more, low) in
            inr (same, more, read ∙ (rw (is, enough) refl))
      ]
