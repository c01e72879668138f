-- ===== src/Board.antt =====
-- The incremental board, engine/board.c.
pub mod Cells
pub mod State
pub mod Liberties
pub mod Capture
pub mod Strings
pub mod Play
pub mod Position
pub mod Legality
pub mod Trymove
pub mod Komaster
pub mod Loops
pub mod Walks
pub mod Still
pub mod Removal
pub mod Queries
pub mod Edges
pub mod Undo
pub mod Acceptance
pub mod Hashing
pub mod Ko
pub mod Komasters
pub mod Samples
mod SamplesRemoval
mod SamplesPosition
