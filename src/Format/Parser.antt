-- ===== src/Format/Parser.antt =====
-- tools/ohlink-toolchain/crates/ohlink-format/src/parser.rs: reading a file.
use capsule_os.Base.{
  ℕ, zero, suc, ◌+◌, ◌*◌, ◌%◌, ◌^◌, ◌&&◌, not, Option, none, some, List, [], ◌∷◌, length, take,
  drop, leb, ltb, ◌==◌, if◌then◌else◌,
}
use capsule_os.Format.Words.{
  buffer_too_small, checksum_mismatch, invalid_entry_index, Parsed, parsed, failed,
}
use capsule_os.Format.Crc.{crc_step, complement}
use capsule_os.Format.Header.{Header, header_size, from_bytes}
use capsule_os.Format.Entry.{Entry, entry_size, from_bytes as entry_from_bytes}

pub record Parser : Type 0 where
  pub bytes : List ℕ
  pub header : Header

-- The loop over the bytes from index `i` on, with `n` to go: the checksum's own bytes count as 0.
unfoldable pub checksum_loop : ℕ → ℕ → ℕ → List ℕ → ℕ
checksum_loop i zero crc bytes = crc
checksum_loop i (suc n) crc [] = crc
checksum_loop i (suc n) crc (b ∷ bs) =
    checksum_loop (i + 1) n (crc_step crc (if leb 30 i && ltb i 34 then 0 else b)) bs

unfoldable pub calculated_checksum : Header → List ℕ → ℕ
unfolding checksum_loop
calculated_checksum h bytes =
    if leb 32 (length bytes) then complement (checksum_loop 0 h.file_size 0xffff_ffff bytes) else 0

unfoldable pub new : List ℕ → Parsed Parser
unfolding calculated_checksum
new bytes =
    if ltb (length bytes) header_size then failed buffer_too_small else elim (from_bytes bytes) [
      | failed e ↦ failed e
      | parsed h ↦
          if ltb (length bytes) h.file_size
          then failed buffer_too_small
          else if not (h.checksum == calculated_checksum h bytes)
          then failed (checksum_mismatch h.checksum (calculated_checksum h bytes))
          else parsed (record { bytes = bytes; header = h })
    ]

unfoldable pub get_entry : Parser → ℕ → Parsed Entry
get_entry p index =
    let start = p.header.header_offset + index * entry_size in
    if leb p.header.header_count index
    then failed invalid_entry_index
    else if ltb (length p.bytes) (start + entry_size)
    then failed buffer_too_small
    else entry_from_bytes (take entry_size (drop start p.bytes))

-- `usize` is 64 bits wide. A slice that ends before it starts panics: `none`.
unfoldable pub get_segment_data : Parser → Entry → Option (Parsed (List ℕ))
get_segment_data p e =
    let end_offset = (e.file_offset + e.file_size) % 2 ^ 64 in
    if ltb (length p.bytes) end_offset
    then some (failed buffer_too_small)
    else if ltb end_offset e.file_offset
    then none
    else some (parsed (take e.file_size (drop e.file_offset p.bytes)))

-- `EntryIterator::next`, on the iterator's index; the count is the header's.
unfoldable pub next : Parser → ℕ → Option Entry × ℕ
unfolding get_entry
next p current =
    if ltb current p.header.header_count
    then elim (get_entry p current) [
      | failed _ ↦ (none, current)
      | parsed e ↦ (some e, (current + 1) % 2 ^ 16)
    ]
    else (none, current)
