-- ===== src/Cache/Data.antt =====
-- The packed data of a node of the transposition table.
use gnugo.Base.{ℕ, ◌+◌, ◌*◌, ◌%◌, ◌<◌, ◌≡◌, arith, bit_or, shifted, bit_or-shifted}
use gnugo.Cache.{
  hn_create_data, hn_get_value1, hn_get_value2, hn_get_move, hn_get_cost, hn_get_remaining_depth,
  hn_get_total_cost,
}

shifted_5 : (x : ℕ) → shifted 5 x ≡ x * 32
unfolding shifted
shifted_5 x = omega arith

shifted_9 : (x : ℕ) → shifted 9 x ≡ x * 512
unfolding shifted
shifted_9 x = omega arith

shifted_19 : (x : ℕ) → shifted 19 x ≡ x * 524288
unfolding shifted
shifted_19 x = omega arith

shifted_23 : (x : ℕ) → shifted 23 x ≡ x * 8388608
unfolding shifted
shifted_23 x = omega arith

-- A field above lower ones.
field_above :
    (k weight x low : ℕ)
    → ((y : ℕ) → shifted k y ≡ y * weight)
    → low < weight
    → bit_or (x * weight) low ≡ x * weight + low
field_above k weight x low e bound =
    let unit : shifted k 1 ≡ weight = omega (arith, e 1) in
    let joined : bit_or (shifted k x) low ≡ shifted k x + low =
      bit_or-shifted k x low (omega (arith, unit)) in
    rw (e x) at joined

module _ (remaining_depth value1 value2 move cost : ℕ) where
  sum_of_fields :
      hn_create_data remaining_depth value1 value2 move cost
      ≡ value1 % 16 * 8388608
        + (value2 % 16 * 524288 + (move % 1024 * 512 + (cost % 16 * 32 + remaining_depth % 32)))
  unfolding hn_create_data
  sum_of_fields =
      let d = remaining_depth % 32 in
      let c = cost % 16 * 32 + d in
      let m = move % 1024 * 512 + c in
      let v = value2 % 16 * 524288 + m in
      let on_c : bit_or (cost % 16 * 32) d ≡ c =
        field_above 5 32 (cost % 16) d shifted_5 (omega arith) in
      let on_m : bit_or (move % 1024 * 512) c ≡ m =
        field_above 9 512 (move % 1024) c shifted_9 (omega arith) in
      let on_v : bit_or (value2 % 16 * 524288) m ≡ v =
        field_above 19 524288 (value2 % 16) m shifted_19 (omega arith) in
      let on_w = field_above 23 8388608 (value1 % 16) v shifted_23 (omega arith) in
      rw (on_c, on_m, on_v) on_w

  -- Each field of packed data is read back with its low bits: four of the values and of the cost,
  -- ten of the move, five of the depth; the total cost is the cost before the depth.
  pub fields-hn_create_data :
      let packed = hn_create_data remaining_depth value1 value2 move cost in
      (hn_get_value1 packed ≡ value1 % 16)
      × (hn_get_value2 packed ≡ value2 % 16)
      × (hn_get_move packed ≡ move % 1024)
      × (hn_get_cost packed ≡ cost % 16)
      × (hn_get_remaining_depth packed ≡ remaining_depth % 32)
      × (hn_get_total_cost packed ≡ cost % 16 * 32 + remaining_depth % 32)
  unfolding hn_get_value1 hn_get_value2 hn_get_move hn_get_cost hn_get_remaining_depth
      hn_get_total_cost
  fields-hn_create_data =
      let e = sum_of_fields in
      (
        omega (arith, e),
        omega (arith, e),
        omega (arith, e),
        omega (arith, e),
        omega (arith, e),
        omega (arith, e),
      )
