-- ===== src/Memory.antt =====
-- Physical pages, address-space identifiers and memory regions (kernel/src/arch/aarch64/phys.rs and
-- asid.rs, kernel/src/memory).
pub mod Tracker
pub mod Cache
pub mod Slab
pub mod Asid
pub mod Region
pub mod Pages
