-- ===== src/Format/Entry.antt =====
-- tools/ohlink-toolchain/crates/ohlink-format/src/entry.rs: an entry of the table, 60 bytes, and the
-- types of segments.
use capsule_os.Base.{
  ℕ, ◌^◌, ◌≤◌, ◌<◌, ◌≡◌, refl, ap, List, ◌++◌, length, arith, false, ltb, ◌==◌, if◌then◌else◌,
}
use capsule_os.Format.Words.{
  buffer_too_small, Parsed, parsed, failed, to_le, word_at, from_le-to_le,
}

pub data SegmentType : Type 0 where
  text data_segment rodata bss symtab strtab relocations dynamic imports exports : SegmentType
  got plt hash tls init fini debug line : SegmentType
  custom : ℕ → SegmentType

-- The literal arms of `from_u32`.
unfoldable pub from_u32 : ℕ → SegmentType
from_u32 val =
    if val == 1
    then text
    else if val == 2
    then data_segment
    else if val == 3
    then rodata
    else if val == 4
    then bss
    else if val == 5
    then symtab
    else if val == 6
    then strtab
    else if val == 7
    then relocations
    else if val == 8
    then dynamic
    else if val == 9
    then imports
    else if val == 10
    then exports
    else if val == 11
    then got
    else if val == 12
    then plt
    else if val == 13
    then hash
    else if val == 14
    then tls
    else if val == 15
    then init
    else if val == 16
    then fini
    else if val == 17
    then debug
    else if val == 18
    then line
    else custom val

unfoldable pub to_u32 : SegmentType → ℕ
to_u32 text = 1
to_u32 data_segment = 2
to_u32 rodata = 3
to_u32 bss = 4
to_u32 symtab = 5
to_u32 strtab = 6
to_u32 relocations = 7
to_u32 dynamic = 8
to_u32 imports = 9
to_u32 exports = 10
to_u32 got = 11
to_u32 plt = 12
to_u32 hash = 13
to_u32 tls = 14
to_u32 init = 15
to_u32 fini = 16
to_u32 debug = 17
to_u32 line = 18
to_u32 (custom val) = val

-- Every code survives `from_u32` and the way back; so no two codes have one segment type.
pub to_u32-from_u32 : (val : ℕ) → to_u32 (from_u32 val) ≡ val
unfolding to_u32 from_u32
to_u32-from_u32 val = ground arith

pub record Entry : Type 0 where
  pub ty : ℕ
  pub flags : ℕ
  pub file_offset : ℕ
  pub virtual_address : ℕ
  pub file_size : ℕ
  pub mem_size : ℕ
  pub alignment : ℕ
  pub link : ℕ
  pub info : ℕ
  pub name_offset : ℕ

abbrev pub entry_size : ℕ
entry_size = 60

unfoldable pub to_bytes : Entry → List ℕ
to_bytes e =
    to_le 4 e.ty
    ++ to_le 4 e.flags
    ++ to_le 8 e.file_offset
    ++ to_le 8 e.virtual_address
    ++ to_le 8 e.file_size
    ++ to_le 8 e.mem_size
    ++ to_le 8 e.alignment
    ++ to_le 4 e.link
    ++ to_le 4 e.info
    ++ to_le 4 e.name_offset

unfoldable pub read_fields : List ℕ → Entry
read_fields bytes = record {
  ty = word_at 0 4 bytes;
  flags = word_at 4 4 bytes;
  file_offset = word_at 8 8 bytes;
  virtual_address = word_at 16 8 bytes;
  file_size = word_at 24 8 bytes;
  mem_size = word_at 32 8 bytes;
  alignment = word_at 40 8 bytes;
  link = word_at 48 4 bytes;
  info = word_at 52 4 bytes;
  name_offset = word_at 56 4 bytes;
}

unfoldable pub from_bytes : List ℕ → Parsed Entry
unfolding read_fields
from_bytes bytes =
    if ltb (length bytes) entry_size then failed buffer_too_small else parsed (read_fields bytes)

-- The fields fit their words.
pub record IsValid (e : Entry) : Type 0 where
  pub ty : e.ty < 2 ^ 32
  pub flags : e.flags < 2 ^ 32
  pub file_offset : e.file_offset < 2 ^ 64
  pub virtual_address : e.virtual_address < 2 ^ 64
  pub file_size : e.file_size < 2 ^ 64
  pub mem_size : e.mem_size < 2 ^ 64
  pub alignment : e.alignment < 2 ^ 64
  pub link : e.link < 2 ^ 32
  pub info : e.info < 2 ^ 32
  pub name_offset : e.name_offset < 2 ^ 32

pub length-to_bytes : (e : Entry) → length (to_bytes e) ≡ entry_size
unfolding to_bytes
length-to_bytes e = refl

read_fields-to_bytes :
    (e : Entry) (rest : List ℕ) → IsValid e → read_fields (to_bytes e ++ rest) ≡ e
unfolding read_fields to_bytes
read_fields-to_bytes e rest v =
    rw
      (
        from_le-to_le 4 e.ty v.ty,
        from_le-to_le 4 e.flags v.flags,
        from_le-to_le 8 e.file_offset v.file_offset,
        from_le-to_le 8 e.virtual_address v.virtual_address,
        from_le-to_le 8 e.file_size v.file_size,
        from_le-to_le 8 e.mem_size v.mem_size,
        from_le-to_le 8 e.alignment v.alignment,
        from_le-to_le 4 e.link v.link,
        from_le-to_le 4 e.info v.info,
        from_le-to_le 4 e.name_offset v.name_offset,
      )
      refl

long_enough : (e : Entry) (rest : List ℕ) → entry_size ≤ length (to_bytes e ++ rest)
unfolding to_bytes
long_enough e rest = omega arith

-- An entry is read back from its bytes, whatever follows them.
pub from_bytes-to_bytes :
    (e : Entry) (rest : List ℕ) → IsValid e → from_bytes (to_bytes e ++ rest) ≡ parsed e
unfolding from_bytes
from_bytes-to_bytes e rest v =
    let long : ltb (length (to_bytes e ++ rest)) entry_size ≡ false =
      ground (arith, long_enough e rest) in
    rw (long, from_bytes) (ap parsed (read_fields-to_bytes e rest v))
