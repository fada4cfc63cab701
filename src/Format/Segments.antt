-- ===== src/Format/Segments.antt =====
-- The segments that the parser (tools/ohlink-toolchain/crates/ohlink-format/src/parser.rs) finds in a
-- file that the builder wrote.
use capsule_os.Base.{
  ℕ, zero, suc, ◌+◌, ◌-◌, ◌*◌, ◌%◌, ◌^◌, ◌≤◌, ◌<◌, ◌≡◌, refl, sym, ap, ap₂, ◌∙◌, some, List, [],
  ◌∷◌, ◌++◌, length, length-append, append-nil, append_assoc, take, drop, get_elem?, get_elem?-lt,
  arith, false, leb, ltb,
}
use capsule_os.Base.Slices.{take-append, drop-append}
use capsule_os.Format.Words.{parsed}
use capsule_os.Format.Header.{header_size, to_bytes, length-to_bytes}
use capsule_os.Format.Entry
use capsule_os.Format.Entry.{
  Entry, entry_size, to_bytes as entry_to_bytes, from_bytes as entry_from_bytes,
  length-to_bytes as length-entry_to_bytes, from_bytes-to_bytes as entry_from_bytes-to_bytes,
}
use capsule_os.Format.Builder.{Builder, layout, final_header, build}
use capsule_os.Format.Layout.{length-layout, layout_lem}
use capsule_os.Format.Parser.{Parser, get_entry, get_segment_data}
use capsule_os.Format.Written.{
  table, length-table, IsValid, data_start, written_header, build_lem, written_header-IsValid,
}

-- An entry of the table is at its index.
table_at :
    (es : List Entry) (i : ℕ) (e : Entry) (rest : List ℕ)
    → get_elem? es i ≡ some e
    → take entry_size (drop (i * entry_size) (table es ++ rest)) ≡ entry_to_bytes e
table_at [] i e rest h = absurd cc
table_at (e' ∷ es) zero e rest h =
    let same : e' ≡ e = cc in
    ap (take entry_size) (append_assoc (entry_to_bytes e') (table es) rest)
    ∙ take-append entry_size (entry_to_bytes e') (table es ++ rest) (length-entry_to_bytes e')
    ∙ ap entry_to_bytes same
table_at (e' ∷ es) (suc i) e rest h =
    let skip : drop (suc i * entry_size) (table (e' ∷ es) ++ rest)
        ≡ drop (i * entry_size) (table es ++ rest) =
      ap₂ drop {x = suc i * entry_size} {y = entry_size + i * entry_size} (omega arith)
        (append_assoc (entry_to_bytes e') (table es) rest)
      ∙ drop-append entry_size (i * entry_size) (entry_to_bytes e') (table es ++ rest)
          (length-entry_to_bytes e') in
    ap (take entry_size) skip ∙ table_at es i e rest h

abbrev pub built : Builder → Parser
built b = record { bytes = build b; header = written_header b }

-- The parser's tests pass on a slice that ends within the file.
get_entry_ok :
    (p : Parser) (i : ℕ) (e : Entry)
    → i < p.header.header_count
    → p.header.header_offset + i * entry_size + entry_size ≤ length p.bytes
    → take entry_size (drop (p.header.header_offset + i * entry_size) p.bytes) ≡ entry_to_bytes e
    → Entry.IsValid e
    → get_entry p i ≡ parsed e
unfolding get_entry
get_entry_ok p i e hi inside slice ev =
    let known : leb p.header.header_count i ≡ false = ground (arith, hi) in
    let long : ltb (length p.bytes) (p.header.header_offset + i * entry_size + entry_size) ≡ false =
      ground (arith, inside) in
    rw (known, long, slice)
      (ap entry_from_bytes (sym (append-nil (entry_to_bytes e)))
        ∙ entry_from_bytes-to_bytes e [] ev)

get_segment_data_ok :
    (p : Parser) (e : Entry) (bytes : List ℕ)
    → e.file_offset + e.file_size ≤ length p.bytes
    → length p.bytes < 2 ^ 64
    → take e.file_size (drop e.file_offset p.bytes) ≡ bytes
    → get_segment_data p e ≡ some (parsed bytes)
unfolding get_segment_data
get_segment_data_ok p e bytes inside small slice =
    let exact : (e.file_offset + e.file_size) % 2 ^ 64 ≡ e.file_offset + e.file_size =
      omega (arith, inside, small) in
    let long : ltb (length p.bytes) (e.file_offset + e.file_size) ≡ false =
      ground (arith, inside) in
    let forward : ltb (e.file_offset + e.file_size) e.file_offset ≡ false = ground arith in
    rw (exact, long, forward, slice) refl

-- The header and the table fill the file up to the data.
length-front :
    (b : Builder)
    → IsValid b
    → (length (to_bytes (written_header b)) ≡ header_size)
      × (length (to_bytes (written_header b) ++ table (layout b.segments (data_start b)).0)
          ≡ data_start b)
length-front b v =
    let header = to_bytes (written_header b) in
    let es = (layout b.segments (data_start b)).0 in
    let header_len : length header ≡ header_size =
      ap length (sym (append-nil header))
      ∙ length-to_bytes (written_header b) [] (written_header-IsValid b v) in
    let count = (length-layout b.segments (data_start b) v.fits).0 in
    (header_len, omega (arith, length-append header (table es), header_len, length-table es, count))

drop-build :
    (b : Builder) (k : ℕ)
    → IsValid b
    → drop (data_start b + k) (build b) ≡ drop k (layout b.segments (data_start b)).1
drop-build b k v =
    let (es, body) = layout b.segments (data_start b) in
    let header = to_bytes (written_header b) in
    ap (drop (data_start b + k)) (build_lem b v ∙ sym (append_assoc header (table es) body))
    ∙ drop-append (data_start b) k (header ++ table es) body (length-front b v).1

length-file :
    (b : Builder)
    → IsValid b
    → length (build b) ≡ data_start b + length (layout b.segments (data_start b)).1
length-file b v =
    let (es, body) = layout b.segments (data_start b) in
    let header = to_bytes (written_header b) in
    ap length (build_lem b v)
    ∙ omega (
      arith,
      (length-front b v).1,
      length-append header (table es ++ body),
      length-append (table es) body,
      length-append header (table es),
    )

get_entry-build :
    (b : Builder) (i : ℕ) (e : Entry)
    → IsValid b
    → get_elem? (layout b.segments (data_start b)).0 i ≡ some e
    → Entry.IsValid e
    → get_entry (built b) i ≡ parsed e
unfolding final_header
get_entry-build b i e v at_i ev =
    let (es, body) = layout b.segments (data_start b) in
    let header = to_bytes (written_header b) in
    let start : (built b).header.header_offset + i * entry_size ≡ header_size + i * entry_size =
      omega (arith, v.offset) in
    let in_table : i < length es = get_elem?-lt es i at_i in
    let count = (length-layout b.segments (data_start b) v.fits).0 in
    let slice : take entry_size (drop (header_size + i * entry_size) (build b)) ≡ entry_to_bytes e =
      ap (λ f. take entry_size (drop (header_size + i * entry_size) f)) (build_lem b v)
      ∙ ap (take entry_size)
          (drop-append header_size (i * entry_size) header (table es ++ body) (length-front b v).0)
      ∙ table_at es i e body at_i in
    get_entry_ok (built b) i e (omega (arith, in_table, count, v.count))
      (omega (arith, in_table, count, start, length-file b v))
      (ap (λ k. take entry_size (drop k (build b))) start ∙ slice) ev

at_offset :
    (e : Entry) (offset : ℕ)
    → offset < 2 ^ 64
    → Entry.IsValid e
    → Entry.IsValid (record e { file_offset = offset })
at_offset e offset small ev = record {
  ty = ev.ty;
  flags = ev.flags;
  file_offset = small;
  virtual_address = ev.virtual_address;
  file_size = ev.file_size;
  mem_size = ev.mem_size;
  alignment = ev.alignment;
  link = ev.link;
  info = ev.info;
  name_offset = ev.name_offset;
}

-- In a file built from a builder whose fields fit their words, with the table right behind the header,
-- the count of its segments, and offsets that fit 64 bits, a segment with a valid entry and the size of
-- its data is found again: the entry by its index, with an offset behind the table, and the data by
-- that entry.
pub get_segment-build :
    (b : Builder) (i : ℕ) (e : Entry) (bytes : List ℕ)
    → IsValid b
    → get_elem? b.segments i ≡ some (e, bytes)
    → Entry.IsValid e
    → e.file_size ≡ length bytes
    → (offset : ℕ) × (data_start b ≤ offset)
      × (get_entry (built b) i ≡ parsed (record e { file_offset = offset }))
      × (get_segment_data (built b) (record e { file_offset = offset }) ≡ some (parsed bytes))
get_segment-build b i e bytes v at_i ev size =
    let start = data_start b in
    let (offset, above, small, entry, inside, there) =
      layout_lem b.segments start i e bytes v.fits at_i in
    let body = (layout b.segments start).1 in
    let slice : take e.file_size (drop offset (build b)) ≡ bytes =
      ap₂ (λ n k. take n (drop k (build b))) {u = offset} {v = start + (offset - start)} size
        (omega (arith, above))
      ∙ ap (take (length bytes)) (drop-build b (offset - start) v)
      ∙ there in
    (
      offset,
      above,
      get_entry-build b i (record e { file_offset = offset }) v entry (at_offset e offset small ev),
      get_segment_data_ok (built b) (record e { file_offset = offset }) bytes
          (omega (arith, inside, size, length-file b v))
          (omega (arith, length-file b v, (length-layout b.segments start v.fits).1)) slice,
    )
