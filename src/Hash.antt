-- ===== src/Hash.antt =====
-- Zobrist hashing, engine/hash.c and engine/hash.h, on a platform with 64-bit longs: NUM_HASHVALUES
-- is 1, and a Hash_data is one word.
use gnugo.Base.{ℕ, zero, suc, ◌+◌, ◌-◌, bit_xor, if◌then◌else◌, ◌==◌}
use gnugo.Color.{white, black}
use gnugo.Point.{board_min, board_max}

-- The static arrays of random words. `hash_init` fills them once.
pub record Zobrist : Type 0 where
  pub white_hash : ℕ → ℕ
  pub black_hash : ℕ → ℕ
  pub ko_hash : ℕ → ℕ
  pub komaster_hash : ℕ → ℕ
  pub kom_pos_hash : ℕ → ℕ

-- hashdata_xor
abbrev pub hashdata_xor : ℕ → ℕ → ℕ
hashdata_xor hd1 hd2 = bit_xor hd1 hd2

module _ (z : Zobrist) where
  unfoldable pub hashdata_invert_ko : ℕ → ℕ → ℕ
  hashdata_invert_ko hd pos = hashdata_xor hd (z.ko_hash pos)

  unfoldable pub hashdata_invert_stone : ℕ → ℕ → ℕ → ℕ
  hashdata_invert_stone hd pos color =
      if color == black
      then hashdata_xor hd (z.black_hash pos)
      else if color == white
      then hashdata_xor hd (z.white_hash pos)
      else hd

  unfoldable pub hashdata_invert_komaster : ℕ → ℕ → ℕ
  hashdata_invert_komaster hd komaster = hashdata_xor hd (z.komaster_hash komaster)

  unfoldable pub hashdata_invert_kom_pos : ℕ → ℕ → ℕ
  hashdata_invert_kom_pos hd kom_pos = hashdata_xor hd (z.kom_pos_hash kom_pos)

  -- The loop of hashdata_recalc over `count` points from `pos` on.
  unfoldable pub recalc_stones : ℕ → ℕ → (ℕ → ℕ) → ℕ → ℕ
  recalc_stones zero pos p hd = hd
  recalc_stones (suc count) pos p hd = recalc_stones count (pos + 1) p (
      if p pos == white
      then hashdata_xor hd (z.white_hash pos)
      else if p pos == black
      then hashdata_xor hd (z.black_hash pos)
      else hd)

  unfoldable pub hashdata_recalc : (ℕ → ℕ) → ℕ → ℕ
  hashdata_recalc p ko_pos =
      let stones = recalc_stones (board_max - board_min) board_min p 0 in
      if ko_pos == 0 then stones else hashdata_xor stones (z.ko_hash ko_pos)
