-- ===== src/Shared.antt =====
-- kernel/shared/src: the status codes, results and small types that kernel and services share.
pub mod Status
pub mod Result
pub mod Types
