-- ===== src/Board/Undo.antt =====
-- What popping the stacks restores.
pub mod Live
pub mod Tracks
pub mod Rules
pub mod Points
pub mod Lists
pub mod Entries
pub mod Captures
pub mod Joining
pub mod Assimilating
pub mod Extending
pub mod Quiet
pub mod QuietCaptures
pub mod Scanning
pub mod Moves
pub mod Restore
pub mod Trying
pub mod Results
pub mod Search
pub mod Komasters
