-- ===== src/Board/Komasters.antt =====
-- The hash under changes of the komaster.
use gnugo.Board.State.{Board}
