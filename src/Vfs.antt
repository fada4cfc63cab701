-- ===== src/Vfs.antt =====
-- kernel/src/vfs: pipes, and the vnode and descriptor tables.
pub mod Pipe
pub mod Vnode
pub mod Descriptor
