-- ===== src/Format/Builder.antt =====
-- tools/ohlink-toolchain/crates/ohlink-format/src/builder.rs: writing a file.
use capsule_os.Base.{
  ℕ, ◌+◌, ◌-◌, ◌*◌, ◌%◌, ◌^◌, bit_and, List, [], ◌∷◌, ◌++◌, length, replicate, ltb, if◌then◌else◌,
}
use capsule_os.Base.Slices.{splice}
use capsule_os.Format.Words.{to_le}
use capsule_os.Format.Crc.{crc32_ieee}
use capsule_os.Format.Header.{Header, header_size, magic_number, to_bytes}
use capsule_os.Format.Entry.{Entry, entry_size, to_bytes as entry_to_bytes}

-- The two vectors, of entries and of their data, have one length: they are a list of pairs here.
pub record Builder : Type 0 where
  pub header : Header
  pub segments : List (Entry × List ℕ)

unfoldable pub new : ℕ → ℕ → ℕ → ℕ → Builder
new arch file_type flags entry_point = record {
  header = record {
    magic = magic_number;
    version_major = 1;
    version_minor = 1;
    endian = 0;
    arch = arch;
    file_type = file_type;
    header_count = 0;
    header_offset = 0x40;
    data_offset = 0;
    file_size = 0;
    checksum = 0;
    flags = flags;
    entry_point = entry_point;
    reserved = replicate 18 0;
  };
  segments = [];
}

unfoldable pub add_segment : Builder → ℕ → ℕ → List ℕ → ℕ → ℕ → ℕ → ℕ × Builder
add_segment b ty flags bytes mem_size virtual_address alignment =
    let e : Entry = record {
      ty = ty;
      flags = flags;
      file_offset = 0;
      virtual_address = virtual_address;
      file_size = length bytes;
      mem_size = mem_size;
      alignment = alignment;
      link = 0;
      info = 0;
      name_offset = 0;
    } in
    let segments = b.segments ++ ((e, bytes) ∷ []) in
    (
      length b.segments % 2 ^ 16,
      record {
        header = record b.header { header_count = length segments % 2 ^ 16 };
        segments = segments;
      },
    )

-- `(offset + alignment - 1) & !(alignment - 1)` on 64 bits.
unfoldable pub align_up : ℕ → ℕ → ℕ
align_up alignment offset = bit_and ((offset + alignment - 1) % 2 ^ 64) (2 ^ 64 - alignment)

abbrev pub alignment_of : Entry → ℕ
alignment_of e = if ltb 0 e.alignment then e.alignment else 16

abbrev pub padding : ℕ → ℕ → List ℕ
padding current aligned = if ltb current aligned then replicate (aligned - current) 0 else []

-- The loop over the segments from an offset on: the entries with their offsets, and the bytes that
-- it appends.
unfoldable pub layout : List (Entry × List ℕ) → ℕ → List Entry × List ℕ
unfolding align_up
layout [] current = ([], [])
layout ((e, bytes) ∷ rest) current =
    let aligned = align_up (alignment_of e) current in
    let (es, body) = layout rest (aligned + length bytes) in
    (record e { file_offset = aligned } ∷ es, padding current aligned ++ (bytes ++ body))

-- The loop that writes the table, from index `i` on.
unfoldable pub write_entries : ℕ → List Entry → List ℕ → List ℕ
write_entries i [] buf = buf
write_entries i (e ∷ es) buf =
    write_entries (i + 1) es (splice (header_size + i * entry_size) (entry_to_bytes e) buf)

-- The header as it is written first: its checksum is still 0.
unfoldable pub final_header : Builder → Header
unfolding layout
final_header b =
    let start = header_size + length b.segments * entry_size in
    record b.header {
      data_offset = start % 2 ^ 32;
      file_size = start + length (layout b.segments start).1;
    }

-- The last three writes: the checksum is taken with its own bytes at 0.
abbrev pub seal : List ℕ → List ℕ
seal buf =
    let buf' = splice 30 (0 ∷ 0 ∷ 0 ∷ 0 ∷ []) buf in splice 30 (to_le 4 (crc32_ieee buf')) buf'

unfoldable pub build : Builder → List ℕ
unfolding final_header write_entries
build b =
    let start = header_size + length b.segments * entry_size in
    let (es, body) = layout b.segments start in
    let buf = splice 0 (to_bytes (final_header b)) (replicate start 0 ++ body) in
    seal (write_entries 0 es buf)
