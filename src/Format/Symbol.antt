-- ===== src/Format/Symbol.antt =====
-- tools/ohlink-toolchain/crates/ohlink-format/src/symbol.rs: symbols, 32 bytes.
use capsule_os.Base.{
  ℕ, ◌≡◌, ◌≤◌, ◌<◌, ◌⊎◌, refl, false, Bool-cases, inl, inr, Option, none, some, List, [], ◌∷◌, ◌++◌,
  length, ltb, take, drop, replicate, get_or, length-take, arith, ◌==◌, if◌then◌else◌,
}
use capsule_os.Format.Words.{buffer_too_small, Parsed, parsed, failed, to_le, word_at}

pub data SymbolType : Type 0 where
  no_type function object file section : SymbolType

unfoldable pub type_from_u8 : ℕ → SymbolType
type_from_u8 val =
    if val == 1
    then function
    else if val == 2
    then object
    else if val == 3
    then file
    else if val == 4
    then section
    else no_type

unfoldable pub type_to_u8 : SymbolType → ℕ
type_to_u8 no_type = 0
type_to_u8 function = 1
type_to_u8 object = 2
type_to_u8 file = 3
type_to_u8 section = 4

pub data SymbolBinding : Type 0 where
  local global weak : SymbolBinding

unfoldable pub binding_from_u8 : ℕ → SymbolBinding
binding_from_u8 val = if val == 1 then global else if val == 2 then weak else local

unfoldable pub binding_to_u8 : SymbolBinding → ℕ
binding_to_u8 local = 0
binding_to_u8 global = 1
binding_to_u8 weak = 2

pub data SymbolVisibility : Type 0 where
  default hidden protected : SymbolVisibility

unfoldable pub visibility_from_u8 : ℕ → SymbolVisibility
visibility_from_u8 val = if val == 1 then hidden else if val == 2 then protected else default

unfoldable pub visibility_to_u8 : SymbolVisibility → ℕ
visibility_to_u8 default = 0
visibility_to_u8 hidden = 1
visibility_to_u8 protected = 2

-- The three codes of a symbol survive the way out and back.
pub symbol_codes :
    (t : SymbolType) (b : SymbolBinding) (v : SymbolVisibility)
    → (type_from_u8 (type_to_u8 t) ≡ t)
      × (binding_from_u8 (binding_to_u8 b) ≡ b)
      × (visibility_from_u8 (visibility_to_u8 v) ≡ v)
unfolding type_from_u8 type_to_u8 binding_from_u8 binding_to_u8 visibility_from_u8 visibility_to_u8
symbol_codes t b v = (of_type t, of_binding b, of_visibility v)
  where
    of_type : (t : SymbolType) → type_from_u8 (type_to_u8 t) ≡ t
    of_type no_type = refl
    of_type function = refl
    of_type object = refl
    of_type file = refl
    of_type section = refl

    of_binding : (b : SymbolBinding) → binding_from_u8 (binding_to_u8 b) ≡ b
    of_binding local = refl
    of_binding global = refl
    of_binding weak = refl

    of_visibility : (v : SymbolVisibility) → visibility_from_u8 (visibility_to_u8 v) ≡ v
    of_visibility default = refl
    of_visibility hidden = refl
    of_visibility protected = refl

-- `reserved` has 21 bytes in memory.
pub record Symbol : Type 0 where
  pub name_offset : ℕ
  pub value : ℕ
  pub size : ℕ
  pub ty : ℕ
  pub binding : ℕ
  pub visibility : ℕ
  pub section_idx : ℕ
  pub reserved : List ℕ

abbrev pub symbol_size : ℕ
symbol_size = 32

-- The last three bytes stay 0.
unfoldable pub to_bytes : Symbol → List ℕ
to_bytes s =
    to_le 8 s.name_offset
    ++ to_le 8 s.value
    ++ to_le 8 s.size
    ++ (s.ty ∷ s.binding ∷ s.visibility ∷ [])
    ++ to_le 2 s.section_idx
    ++ (0 ∷ 0 ∷ 0 ∷ [])

-- `dest.copy_from_slice(src)` panics when the lengths differ: `none`.
unfoldable pub copy_from_slice : List ℕ → List ℕ → Option (List ℕ)
copy_from_slice dest src = if length dest == length src then some src else none

-- `none` when it panics.
unfoldable pub from_bytes : List ℕ → Option (Parsed Symbol)
unfolding copy_from_slice
from_bytes bytes =
    if ltb (length bytes) symbol_size
    then some (failed buffer_too_small)
    else elim (copy_from_slice (replicate 21 0) (take 3 (drop 29 bytes))) [
      | none ↦ none
      | some reserved ↦ some (
          parsed (record {
            name_offset = word_at 0 8 bytes;
            value = word_at 8 8 bytes;
            size = word_at 16 8 bytes;
            ty = get_or bytes 24 0;
            binding = get_or bytes 25 0;
            visibility = get_or bytes 26 0;
            section_idx = word_at 27 2 bytes;
            reserved = reserved;
          }))
    ]

-- No three bytes fill `reserved`.
copy_panics : (xs : List ℕ) → copy_from_slice (replicate 21 0) (take 3 xs) ≡ none
unfolding copy_from_slice
copy_panics xs =
    let few : (21 == length (take 3 xs)) ≡ false = ground (arith, length-take 3 xs) in
    rw (few, copy_from_slice) refl

from_bytes-long : (bytes : List ℕ) → symbol_size ≤ length bytes → from_bytes bytes ≡ none
unfolding from_bytes
from_bytes-long bytes enough =
    let long : ltb (length bytes) symbol_size ≡ false = ground (arith, enough) in
    rw (long, copy_panics (drop 29 bytes), from_bytes) refl

-- `to_bytes` writes 32 bytes, and `from_bytes` panics on them, as on any 32 bytes or more; fewer bytes
-- are refused. So no symbol is ever read.
pub from_bytes-to_bytes :
    (s : Symbol) (bytes : List ℕ)
    → (length (to_bytes s) ≡ symbol_size)
      × (from_bytes (to_bytes s) ≡ none)
      × (((length bytes < symbol_size) × (from_bytes bytes ≡ some (failed buffer_too_small)))
          ⊎ ((symbol_size ≤ length bytes) × (from_bytes bytes ≡ none)))
unfolding to_bytes from_bytes
from_bytes-to_bytes s bytes = (
  refl,
  from_bytes-long (to_bytes s) (omega arith),
  elim (Bool-cases (ltb (length bytes) symbol_size)) [
    | inl short ↦ inl (ground (arith, short), rw (short, from_bytes) refl)
    | inr long ↦
        let enough : symbol_size ≤ length bytes = ground (arith, long) in
        inr (enough, from_bytes-long bytes enough)
  ],
)
