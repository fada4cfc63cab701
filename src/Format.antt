-- ===== src/Format.antt =====
-- tools/ohlink-toolchain/crates/ohlink-format: the executable format OHLK. A file is a header, a table
-- of entries, one per segment, and the segments' bytes.
pub mod Words
pub mod Crc
pub mod Header
pub mod Entry
pub mod Symbol
pub mod Reloc
pub mod Parser
pub mod Builder
pub mod RoundTrip
pub mod Segments
pub mod Layout
pub mod Written
pub mod Checksum
