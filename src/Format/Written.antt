-- ===== src/Format/Written.antt =====
-- The file that the builder (tools/ohlink-toolchain/crates/ohlink-format/src/builder.rs) writes, as its
-- parts.
use capsule_os.Base.{
  ℕ, ◌+◌, ◌*◌, ◌^◌, ◌<◌, ◌≡◌, refl, sym, ap, ◌∙◌, List, [], ◌∷◌, ◌++◌, length, length-append,
  append-nil, append_assoc, replicate, arith,
}
use capsule_os.Base.Slices.{splice, splice-append, replicate_add}
use capsule_os.Format.Words.{to_le}
use capsule_os.Format.Crc.{crc32_ieee, crc32_ieee-lt}
use capsule_os.Format.Header.{
  Header, header_size, to_bytes, from_bytes, from_bytes-to_bytes, length-to_bytes,
}
use capsule_os.Format.Header
use capsule_os.Format.Entry.{
  Entry, entry_size, to_bytes as entry_to_bytes, length-to_bytes as length-entry_to_bytes,
}
use capsule_os.Format.Builder.{Builder, layout, write_entries, final_header, seal, build}
use capsule_os.Format.Layout.{Fits, length-layout}

-- The table of entries, as bytes.
abbrev pub table : List Entry → List ℕ
table [] = []
table (e ∷ es) = entry_to_bytes e ++ table es

pub length-table : (es : List Entry) → length (table es) ≡ length es * entry_size
length-table [] = refl
length-table (e ∷ es) =
    omega
      (arith, length-append (entry_to_bytes e) (table es), length-entry_to_bytes e, length-table es)

-- The loop over the entries fills the zeros that the table has been given.
write_entries_lem :
    (es : List Entry) (i : ℕ) (pre body : List ℕ)
    → length pre ≡ header_size + i * entry_size
    → write_entries i es (pre ++ (replicate (length es * entry_size) 0 ++ body))
      ≡ pre ++ (table es ++ body)
unfolding write_entries
write_entries_lem [] i pre body h = refl
write_entries_lem (e ∷ es) i pre body h =
    let more = replicate (length es * entry_size) 0 in
    let zeros : replicate (length (e ∷ es) * entry_size) 0 ≡ replicate entry_size 0 ++ more =
      ap (λ n. replicate n 0) {y = entry_size + length es * entry_size} (omega arith)
      ∙ replicate_add entry_size (length es * entry_size) 0 in
    let once =
      splice-append (header_size + i * entry_size) pre (entry_to_bytes e) (replicate entry_size 0)
        (more ++ body) h (length-entry_to_bytes e) in
    rw
      (
        zeros,
        append_assoc (replicate entry_size 0) more body,
        once,
        ← append_assoc pre (entry_to_bytes e) (more ++ body),
        write_entries_lem es (i + 1) (pre ++ entry_to_bytes e) body
            (omega (arith, length-append pre (entry_to_bytes e), length-entry_to_bytes e, h)),
      )
      (append_assoc pre (entry_to_bytes e) (table es ++ body)
        ∙ ap (λ r. pre ++ r) (sym (append_assoc (entry_to_bytes e) (table es) body)))

-- A builder whose header and segments fit their words.
pub record IsValid (b : Builder) : Type 0 where
  pub header : Header.IsValid b.header
  pub offset : b.header.header_offset ≡ header_size
  pub count : b.header.header_count ≡ length b.segments
  pub fits : Fits b.segments (header_size + length b.segments * entry_size)

-- Where the data start.
abbrev pub data_start : Builder → ℕ
data_start b = header_size + length b.segments * entry_size

-- The header of the file, with a checksum.
abbrev pub with_checksum : Builder → ℕ → Header
with_checksum b c = record (final_header b) { checksum = c }

-- What follows the header in the file.
abbrev pub after_header : Builder → List ℕ
after_header b =
    let (es, body) = layout b.segments (header_size + length b.segments * entry_size) in
    table es ++ body

abbrev pub written_header : Builder → Header
written_header b = with_checksum b (crc32_ieee (to_bytes (with_checksum b 0) ++ after_header b))

final_header-IsValid : (b : Builder) → IsValid b → Header.IsValid (final_header b)
unfolding final_header
final_header-IsValid b v =
    let h = v.header in
    let size = length-layout b.segments (header_size + length b.segments * entry_size) v.fits in
    record {
      magic_ok = h.magic_ok;
      major_ok = h.major_ok;
      version_minor = h.version_minor;
      file_type = h.file_type;
      header_count = h.header_count;
      header_offset = h.header_offset;
      data_offset = omega arith;
      file_size = size.1;
      checksum = h.checksum;
      flags = h.flags;
      entry_point = h.entry_point;
      reserved = h.reserved;
    }

splice_checksum :
    (h : Header) (c : ℕ) (rest : List ℕ)
    → splice 30 (to_le 4 c) (to_bytes h ++ rest) ≡ to_bytes (record h { checksum = c }) ++ rest
unfolding to_bytes
splice_checksum h c rest = refl

-- The header is written over the zeros at the start.
header_lem :
    (h : Header) (n : ℕ) (body : List ℕ)
    → Header.IsValid h
    → splice 0 (to_bytes h) (replicate (header_size + n) 0 ++ body)
      ≡ to_bytes h ++ (replicate n 0 ++ body)
header_lem h n body v =
    let len : length (to_bytes h) ≡ header_size =
      ap length (sym (append-nil (to_bytes h))) ∙ length-to_bytes h [] v in
    let zeros : replicate (header_size + n) 0 ++ body
        ≡ replicate header_size 0 ++ (replicate n 0 ++ body) =
      ap (λ z. z ++ body) (replicate_add header_size n 0)
      ∙ append_assoc (replicate header_size 0) (replicate n 0) body in
    ap (splice 0 (to_bytes h)) zeros
    ∙ splice-append 0 [] (to_bytes h) (replicate header_size 0) (replicate n 0 ++ body) refl len

pub build_lem : (b : Builder) → IsValid b → build b ≡ to_bytes (written_header b) ++ after_header b
unfolding build
build_lem b v =
    let start = header_size + length b.segments * entry_size in
    let (es, body) = layout b.segments start in
    let h = final_header b in
    let count = (length-layout b.segments start v.fits).0 in
    let len : length (to_bytes h) ≡ header_size =
      ap length (sym (append-nil (to_bytes h))) ∙ length-to_bytes h [] (final_header-IsValid b v) in
    let table_size = ap (λ n. to_bytes h ++ (replicate (n * entry_size) 0 ++ body)) (sym count) in
    let entries = write_entries_lem es 0 (to_bytes h) body len in
    let written : write_entries 0 es (splice 0 (to_bytes h) (replicate start 0 ++ body))
        ≡ to_bytes h ++ (table es ++ body) =
      ap (write_entries 0 es)
        (header_lem h (length b.segments * entry_size) body (final_header-IsValid b v) ∙ table_size)
      ∙ entries in
    let zeroed = splice_checksum h 0 (table es ++ body) in
    ap seal written
    ∙ ap (λ buf'. splice 30 (to_le 4 (crc32_ieee buf')) buf') zeroed
    ∙ splice_checksum (with_checksum b 0)
        (crc32_ieee (to_bytes (with_checksum b 0) ++ (table es ++ body))) (table es ++ body)

with_checksum-IsValid :
    (b : Builder) (c : ℕ) → IsValid b → c < 2 ^ 32 → Header.IsValid (with_checksum b c)
with_checksum-IsValid b c v hc =
    let h = final_header-IsValid b v in
    record {
      magic_ok = h.magic_ok;
      major_ok = h.major_ok;
      version_minor = h.version_minor;
      file_type = h.file_type;
      header_count = h.header_count;
      header_offset = h.header_offset;
      data_offset = h.data_offset;
      file_size = h.file_size;
      checksum = hc;
      flags = h.flags;
      entry_point = h.entry_point;
      reserved = h.reserved;
    }

pub written_header-IsValid : (b : Builder) → IsValid b → Header.IsValid (written_header b)
written_header-IsValid b v =
    with_checksum-IsValid b _ v (crc32_ieee-lt (to_bytes (with_checksum b 0) ++ after_header b))

-- The size in the header is the size of the file.
pub length-build :
    (b : Builder) (c : ℕ)
    → IsValid b
    → c < 2 ^ 32
    → length (to_bytes (with_checksum b c) ++ after_header b) ≡ (with_checksum b c).file_size
unfolding final_header
length-build b c v hc =
    let start = header_size + length b.segments * entry_size in
    let (es, body) = layout b.segments start in
    omega (
      arith,
      length-to_bytes (with_checksum b c) (after_header b) (with_checksum-IsValid b c v hc),
      length-append (table es) body,
      length-table es,
      (length-layout b.segments start v.fits).0,
    )
