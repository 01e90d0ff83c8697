-- ===== src/Sync.antt =====
-- The package sync: cached query results, change streams and where their cursors are kept.
pub mod Query
pub mod Changes
