-- ===== src/Runlog.antt =====
-- internal/runlog/runlog.go: the run log over SQLite. A table is the list of its rows in the order of
-- their ids; a statement that fails changes nothing. JSON columns hold the values themselves.
pub mod Statements
pub mod Queries
pub mod Watermark
pub mod Invariant
