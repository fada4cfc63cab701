-- ===== src/Format/Header.antt =====
-- tools/ohlink-toolchain/crates/ohlink-format/src/header.rs: the file header, 64 bytes.
use capsule_os.Base.{
  ℕ, ◌+◌, ◌^◌, ◌<◌, ◌≡◌, refl, not, List, [], ◌∷◌, ◌++◌, length, length-append, take, drop, ap, ◌∙◌,
  true, false, get_or, arith, ltb, ◌==◌, if◌then◌else◌,
}
use capsule_os.Base.Slices.{take-append}
use capsule_os.Format.Words.{
  buffer_too_small, invalid_magic, invalid_version, Parsed, parsed, failed, to_le, word_at,
  from_le-to_le,
}

pub record Header : Type 0 where
  pub magic : ℕ
  pub version_major : ℕ
  pub version_minor : ℕ
  pub endian : ℕ
  pub arch : ℕ
  pub file_type : ℕ
  pub header_count : ℕ
  pub header_offset : ℕ
  pub data_offset : ℕ
  pub file_size : ℕ
  pub checksum : ℕ
  pub flags : ℕ
  pub entry_point : ℕ
  pub reserved : List ℕ

pub data FileType : Type 0 where
  executable relocatable shared kernel_module firmware bootloader : FileType

unfoldable pub from_u16 : ℕ → FileType
from_u16 val =
    if val == 1
    then executable
    else if val == 2
    then relocatable
    else if val == 3
    then shared
    else if val == 4
    then kernel_module
    else if val == 5
    then firmware
    else if val == 6
    then bootloader
    else relocatable

unfoldable pub to_u16 : FileType → ℕ
to_u16 executable = 1
to_u16 relocatable = 2
to_u16 shared = 3
to_u16 kernel_module = 4
to_u16 firmware = 5
to_u16 bootloader = 6

-- Every type of file survives its code; other codes count as relocatable.
pub from_u16-to_u16 : (t : FileType) → from_u16 (to_u16 t) ≡ t
unfolding from_u16 to_u16
from_u16-to_u16 executable = refl
from_u16-to_u16 relocatable = refl
from_u16-to_u16 shared = refl
from_u16-to_u16 kernel_module = refl
from_u16-to_u16 firmware = refl
from_u16-to_u16 bootloader = refl

abbrev pub magic_number : ℕ
magic_number = 0x4f48_4c4b

abbrev pub header_size : ℕ
header_size = 64

-- `reserved` is an array of 18 bytes; the other slices follow each other and fill the rest.
unfoldable pub to_bytes : Header → List ℕ
to_bytes h =
    to_le 4 h.magic
    ++ to_le 2 h.version_major
    ++ to_le 2 h.version_minor
    ++ (h.endian ∷ h.arch ∷ [])
    ++ to_le 2 h.file_type
    ++ to_le 2 h.header_count
    ++ to_le 4 h.header_offset
    ++ to_le 4 h.data_offset
    ++ to_le 8 h.file_size
    ++ to_le 4 h.checksum
    ++ to_le 4 h.flags
    ++ to_le 8 h.entry_point
    ++ h.reserved

-- The words at their offsets.
unfoldable pub read_fields : List ℕ → Header
read_fields bytes = record {
  magic = word_at 0 4 bytes;
  version_major = word_at 4 2 bytes;
  version_minor = word_at 6 2 bytes;
  endian = get_or bytes 8 0;
  arch = get_or bytes 9 0;
  file_type = word_at 10 2 bytes;
  header_count = word_at 12 2 bytes;
  header_offset = word_at 14 4 bytes;
  data_offset = word_at 18 4 bytes;
  file_size = word_at 22 8 bytes;
  checksum = word_at 30 4 bytes;
  flags = word_at 34 4 bytes;
  entry_point = word_at 38 8 bytes;
  reserved = take 18 (drop 46 bytes);
}

unfoldable pub from_bytes : List ℕ → Parsed Header
unfolding read_fields
from_bytes bytes =
    if ltb (length bytes) header_size
    then failed buffer_too_small
    else if not (word_at 0 4 bytes == magic_number)
    then failed invalid_magic
    else if not (word_at 4 2 bytes == 1)
    then failed invalid_version
    else parsed (read_fields bytes)

-- The fields fit their words, and name this format.
pub record IsValid (h : Header) : Type 0 where
  pub magic_ok : h.magic ≡ magic_number
  pub major_ok : h.version_major ≡ 1
  pub version_minor : h.version_minor < 2 ^ 16
  pub file_type : h.file_type < 2 ^ 16
  pub header_count : h.header_count < 2 ^ 16
  pub header_offset : h.header_offset < 2 ^ 32
  pub data_offset : h.data_offset < 2 ^ 32
  pub file_size : h.file_size < 2 ^ 64
  pub checksum : h.checksum < 2 ^ 32
  pub flags : h.flags < 2 ^ 32
  pub entry_point : h.entry_point < 2 ^ 64
  pub reserved : length h.reserved ≡ 18

pub length-to_bytes :
    (h : Header) (rest : List ℕ)
    → IsValid h
    → length (to_bytes h ++ rest) ≡ header_size + length rest
unfolding to_bytes
length-to_bytes h rest v = omega (arith, length-append h.reserved rest, v.reserved)

read_fields-to_bytes :
    (h : Header) (rest : List ℕ) → IsValid h → read_fields (to_bytes h ++ rest) ≡ h
unfolding read_fields to_bytes
read_fields-to_bytes h rest v =
    rw
      (
        from_le-to_le 4 h.magic (omega (arith, v.magic_ok)),
        from_le-to_le 2 h.version_major (omega (arith, v.major_ok)),
        from_le-to_le 2 h.version_minor v.version_minor,
        from_le-to_le 2 h.file_type v.file_type,
        from_le-to_le 2 h.header_count v.header_count,
        from_le-to_le 4 h.header_offset v.header_offset,
        from_le-to_le 4 h.data_offset v.data_offset,
        from_le-to_le 8 h.file_size v.file_size,
        from_le-to_le 4 h.checksum v.checksum,
        from_le-to_le 4 h.flags v.flags,
        from_le-to_le 8 h.entry_point v.entry_point,
        take-append 18 h.reserved rest v.reserved,
      )
      refl

-- The header is read back from its bytes, whatever follows them.
pub from_bytes-to_bytes :
    (h : Header) (rest : List ℕ) → IsValid h → from_bytes (to_bytes h ++ rest) ≡ parsed h
unfolding from_bytes
from_bytes-to_bytes h rest v =
    let bytes = to_bytes h ++ rest in
    let all = read_fields-to_bytes h rest v in
    let long : ltb (length bytes) header_size ≡ false = ground (arith, length-to_bytes h rest v) in
    let magic : (word_at 0 4 bytes == magic_number) ≡ true =
      ground (arith, ap (λ z. z.magic) all ∙ v.magic_ok) in
    let major : (word_at 4 2 bytes == 1) ≡ true =
      ground (arith, ap (λ z. z.version_major) all ∙ v.major_ok) in
    rw (long, magic, major, from_bytes) (ap parsed all)
