-- ===== src/Ipc.antt =====
-- kernel/src/ipc: the service registry, ports and channels.
pub mod Registry
pub mod Port
pub mod Channel
