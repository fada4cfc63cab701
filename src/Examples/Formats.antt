-- ===== src/Examples/Formats.antt =====
-- The executable format on concrete files.
use capsule_os.Base.{
  ℕ, ◌≤◌, ◌<◌, ◌⊎◌, ◌≡◌, refl, List, [], ◌∷◌, ◌++◌, length, replicate, some, none, arith,
}
use capsule_os.Format.Words.{parsed, failed, buffer_too_small}
use capsule_os.Format.Crc.{crc32_ieee, crc_loop, crc_step}
use capsule_os.Format.Header.{Header, to_bytes}
use capsule_os.Format.Header
use capsule_os.Format.Entry.{Entry}
use capsule_os.Format.Entry
use capsule_os.Format.Symbol.{Symbol}
use capsule_os.Format.Symbol
use capsule_os.Format.Builder.{Builder}
use capsule_os.Format.Builder
use capsule_os.Format.Written.{IsValid, data_start, written_header}
use capsule_os.Format.Parser.{new, get_entry, get_segment_data}
use capsule_os.Format.RoundTrip.{new-build}
use capsule_os.Format.Segments.{built, get_segment-build}

-- The check value of CRC-32: "123456789".
crc32_check : crc32_ieee (49 ∷ 50 ∷ 51 ∷ 52 ∷ 53 ∷ 54 ∷ 55 ∷ 56 ∷ 57 ∷ []) ≡ 0xcbf4_3926
unfolding crc32_ieee crc_loop crc_step
crc32_check = refl

abbrev header : Header
header = record {
  magic = 0x4f48_4c4b;
  version_major = 1;
  version_minor = 1;
  endian = 0;
  arch = 1;
  file_type = 2;
  header_count = 1;
  header_offset = 0x40;
  data_offset = 0;
  file_size = 0;
  checksum = 0;
  flags = 0;
  entry_point = 0x1000;
  reserved = replicate 18 0;
}

abbrev text : Entry
text = record {
  ty = 1;
  flags = 5;
  file_offset = 0;
  virtual_address = 0x1000;
  file_size = 3;
  mem_size = 4096;
  alignment = 16;
  link = 0;
  info = 0;
  name_offset = 0;
}

abbrev code : List ℕ
code = 0x13 ∷ 0 ∷ 0xff ∷ []

abbrev one_segment : Builder
one_segment = record { header = header; segments = (text, code) ∷ [] }

-- It is what the builder's operations make.
one_segment_made :
    (Builder.add_segment (Builder.new 1 2 0 0x1000) 1 5 code 4096 0x1000 16) ≡ (0, one_segment)
unfolding Builder.add_segment Builder.new
one_segment_made = refl

header-IsValid : Header.IsValid header
header-IsValid = record {
  magic_ok = refl;
  major_ok = refl;
  version_minor = omega arith;
  file_type = omega arith;
  header_count = omega arith;
  header_offset = omega arith;
  data_offset = omega arith;
  file_size = omega arith;
  checksum = omega arith;
  flags = omega arith;
  entry_point = omega arith;
  reserved = refl;
}

text-IsValid : Entry.IsValid text
text-IsValid = record {
  ty = omega arith;
  flags = omega arith;
  file_offset = omega arith;
  virtual_address = omega arith;
  file_size = omega arith;
  mem_size = omega arith;
  alignment = omega arith;
  link = omega arith;
  info = omega arith;
  name_offset = omega arith;
}

one_segment-IsValid : IsValid one_segment
unfolding Builder.align_up
one_segment-IsValid = record {
  header = header-IsValid;
  offset = refl;
  count = refl;
  fits = (omega arith, omega arith);
}

new-build_example :
    new (Builder.build one_segment)
    ≡ parsed (record { bytes = Builder.build one_segment; header = written_header one_segment })
new-build_example = new-build one_segment one_segment-IsValid

get_segment-build_example :
    (offset : ℕ) × (data_start one_segment ≤ offset)
    × (get_entry (built one_segment) 0 ≡ parsed (record text { file_offset = offset }))
    × (get_segment_data (built one_segment) (record text { file_offset = offset })
        ≡ some (parsed code))
get_segment-build_example =
    get_segment-build one_segment 0 text code one_segment-IsValid refl text-IsValid refl

short_enough : length (to_bytes (record header { checksum = 0x1234_5678 }) ++ code) ≤ 70
unfolding to_bytes
short_enough = omega arith

abbrev main_symbol : Symbol
main_symbol = record {
  name_offset = 4;
  value = 0x1000;
  size = 12;
  ty = 1;
  binding = 1;
  visibility = 0;
  section_idx = 1;
  reserved = replicate 21 0;
}

from_bytes-to_bytes_example :
    (length (Symbol.to_bytes main_symbol) ≡ Symbol.symbol_size)
    × (Symbol.from_bytes (Symbol.to_bytes main_symbol) ≡ none)
    × (((length code < Symbol.symbol_size)
          × (Symbol.from_bytes code ≡ some (failed buffer_too_small)))
        ⊎ ((Symbol.symbol_size ≤ length code) × (Symbol.from_bytes code ≡ none)))
from_bytes-to_bytes_example = Symbol.from_bytes-to_bytes main_symbol code
