-- ===== src/Format/Reloc.antt =====
-- tools/ohlink-toolchain/crates/ohlink-format/src/reloc.rs: relocations, 32 bytes.
use capsule_os.Base.{
  ℕ, ◌^◌, ◌<◌, ◌≡◌, refl, ap, List, [], ◌∷◌, ◌++◌, length, take, drop, get_or, arith, ltb, ◌==◌,
  if◌then◌else◌,
}
use capsule_os.Format.Words.{
  buffer_too_small, Parsed, parsed, failed, to_le, word_at, from_le-to_le,
}

pub data RelocType : Type 0 where
  abs64 call26 adr_prel_pg_hi21 add_abs_lo12_nc ldst64_abs_lo12_nc ldst32_abs_lo12_nc : RelocType
  custom : ℕ → RelocType

unfoldable pub from_u32 : ℕ → RelocType
from_u32 val =
    if val == 1
    then abs64
    else if val == 2
    then call26
    else if val == 3
    then adr_prel_pg_hi21
    else if val == 4
    then add_abs_lo12_nc
    else if val == 5
    then ldst64_abs_lo12_nc
    else if val == 6
    then ldst32_abs_lo12_nc
    else custom val

unfoldable pub to_u32 : RelocType → ℕ
to_u32 abs64 = 1
to_u32 call26 = 2
to_u32 adr_prel_pg_hi21 = 3
to_u32 add_abs_lo12_nc = 4
to_u32 ldst64_abs_lo12_nc = 5
to_u32 ldst32_abs_lo12_nc = 6
to_u32 (custom val) = val

pub to_u32-from_u32 : (val : ℕ) → to_u32 (from_u32 val) ≡ val
unfolding to_u32 from_u32
to_u32-from_u32 val = ground arith

-- `addend` is an `i64`, held as its 64 bits.
pub record Reloc : Type 0 where
  pub offset : ℕ
  pub ty : ℕ
  pub symbol_idx : ℕ
  pub bit_size : ℕ
  pub reserved8 : ℕ
  pub reserved16 : ℕ
  pub addend : ℕ
  pub reserved : List ℕ

abbrev pub reloc_size : ℕ
reloc_size = 32

-- `reserved` is not written: the last four bytes stay 0.
unfoldable pub to_bytes : Reloc → List ℕ
to_bytes r =
    to_le 8 r.offset
    ++ to_le 4 r.ty
    ++ to_le 4 r.symbol_idx
    ++ (r.bit_size ∷ r.reserved8 ∷ [])
    ++ to_le 2 r.reserved16
    ++ to_le 8 r.addend
    ++ (0 ∷ 0 ∷ 0 ∷ 0 ∷ [])

unfoldable pub from_bytes : List ℕ → Parsed Reloc
from_bytes bytes =
    if ltb (length bytes) reloc_size
    then failed buffer_too_small
    else parsed (record {
      offset = word_at 0 8 bytes;
      ty = word_at 8 4 bytes;
      symbol_idx = word_at 12 4 bytes;
      bit_size = get_or bytes 16 0;
      reserved8 = get_or bytes 17 0;
      reserved16 = word_at 18 2 bytes;
      addend = word_at 20 8 bytes;
      reserved = take 4 (drop 28 bytes);
    })

-- The fields fit their words.
pub record IsValid (r : Reloc) : Type 0 where
  pub offset : r.offset < 2 ^ 64
  pub ty : r.ty < 2 ^ 32
  pub symbol_idx : r.symbol_idx < 2 ^ 32
  pub reserved16 : r.reserved16 < 2 ^ 16
  pub addend : r.addend < 2 ^ 64

-- A relocation is read back from its bytes, but for its reserved bytes, which come back as zeros.
pub from_bytes-to_bytes :
    (r : Reloc)
    → IsValid r
    → from_bytes (to_bytes r) ≡ parsed (record r { reserved = 0 ∷ 0 ∷ 0 ∷ 0 ∷ [] })
unfolding from_bytes to_bytes
from_bytes-to_bytes r v = ap parsed (
    rw
      (
        from_le-to_le 8 r.offset v.offset,
        from_le-to_le 4 r.ty v.ty,
        from_le-to_le 4 r.symbol_idx v.symbol_idx,
        from_le-to_le 2 r.reserved16 v.reserved16,
        from_le-to_le 8 r.addend v.addend,
      )
      refl)
