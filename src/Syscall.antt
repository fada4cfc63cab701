-- ===== src/Syscall.antt =====
-- The entry of system calls (kernel/src/syscall).
pub mod Validation
