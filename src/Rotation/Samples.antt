-- ===== src/Rotation/Samples.antt =====
-- A quarter turn on a board of full size.
use gnugo.Base.{◌≡◌, arith}
use gnugo.Point.{to_pos}
use gnugo.Rotation.{rotate, inv_rotate, rotate1}
use gnugo.Rotation.Inverse.{inv_rotate-rotate, rotate1-to_pos}

inv_rotate-rotate_example : inv_rotate (rotate 2 5 19 1).0 (rotate 2 5 19 1).1 19 1 ≡ (2, 5)
inv_rotate-rotate_example = inv_rotate-rotate 2 5 19 1 (omega arith) (omega arith) (omega arith)

rotate1-to_pos_example : rotate1 19 (to_pos 2 5) 1 ≡ to_pos (rotate 2 5 19 1).0 (rotate 2 5 19 1).1
rotate1-to_pos_example =
    rotate1-to_pos 2 5 19 1 (omega arith) (omega arith) (omega arith) (omega arith)
