-- ===== src/Sync.antt =====
-- kernel/src/sync: futexes.
pub mod Futex
