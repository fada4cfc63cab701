-- ===== src/Format/Layout.antt =====
-- Where the builder (tools/ohlink-toolchain/crates/ohlink-format/src/builder.rs) puts the segments.
use capsule_os.Base.{
  ℕ, zero, suc, ◌+◌, ◌-◌, ◌^◌, ◌≤◌, ◌<◌, ◌≡◌, refl, sym, ap, ap₂, ◌∙◌, Bool-cases, inl, inr, Option,
  some, List, [], ◌∷◌, ◌++◌, length, length-append, length-replicate, append_assoc, take, drop,
  get_elem?, arith, ltb,
}
use capsule_os.Base.Slices.{take-append, drop-append}
use capsule_os.Base.Bits.{bit_and_round_up}
use capsule_os.Format.Entry.{Entry}
use capsule_os.Format.Builder.{align_up, alignment_of, padding, layout}

-- No offset overflows 64 bits.
abbrev pub Fits : List (Entry × List ℕ) → ℕ → Type 0
Fits [] current = current < 2 ^ 64
Fits ((e, bytes) ∷ rest) current =
    (current + alignment_of e ≤ 2 ^ 64)
    × Fits rest (align_up (alignment_of e) current + length bytes)

-- An offset is only moved up, whatever the alignment.
pub align_up-le : (a c : ℕ) → 0 < a → c + a ≤ 2 ^ 64 → (c ≤ align_up a c) × (align_up a c < 2 ^ 64)
unfolding align_up
align_up-le a c ha h = let (low, high) = bit_and_round_up a c ha h in (low, omega (arith, high))

alignment_of-pos : (e : Entry) → 0 < alignment_of e
alignment_of-pos e = ground arith

padding-length : (c d : ℕ) → length (padding c d) ≡ d - c
padding-length c d = elim (Bool-cases (ltb c d)) [
  | inl up ↦ rw up (length-replicate (d - c) 0)
  | inr short ↦ rw short (ground arith)
]

-- The entry at an index is given an offset, not below the first one, at which its bytes stand.
pub layout_lem :
    (segments : List (Entry × List ℕ)) (current i : ℕ) (e : Entry) (bytes : List ℕ)
    → Fits segments current
    → get_elem? segments i ≡ some (e, bytes)
    → (offset : ℕ) × (current ≤ offset)
      × (offset < 2 ^ 64)
      × (get_elem? (layout segments current).0 i ≡ some (record e { file_offset = offset }))
      × (offset + length bytes ≤ current + length (layout segments current).1)
      × (take (length bytes) (drop (offset - current) (layout segments current).1) ≡ bytes)
unfolding layout
layout_lem [] current i e bytes h at_i = absurd cc
layout_lem ((e', bytes') ∷ rest) current zero e bytes (h, _) at_i =
    let e_eq : e' ≡ e = cc in
    let bytes_eq : bytes' ≡ bytes = cc in
    let aligned = align_up (alignment_of e') current in
    let place : Entry → Option Entry = λ z. some (record z { file_offset = aligned }) in
    let pad = padding current aligned in
    let body = (layout rest (aligned + length bytes')).1 in
    let up = align_up-le (alignment_of e') current (alignment_of-pos e') h in
    let len = padding-length current aligned in
    let skip : drop (aligned - current) (pad ++ (bytes' ++ body)) ≡ bytes' ++ body =
      ap (λ k. drop k (pad ++ (bytes' ++ body))) {x = aligned - current} {y = aligned - current + 0}
        (omega arith)
      ∙ drop-append (aligned - current) 0 pad (bytes' ++ body) len in
    (
      aligned,
      up.0,
      up.1,
      ap place e_eq,
      omega (
        arith,
        up.0,
        ap length bytes_eq,
        len,
        length-append pad (bytes' ++ body),
        length-append bytes' body,
      ),
      rw (← bytes_eq)
          (ap (take (length bytes')) skip ∙ take-append (length bytes') bytes' body refl),
    )
layout_lem ((e', bytes') ∷ rest) current (suc i) e bytes (h, hs) at_i =
    let aligned = align_up (alignment_of e') current in
    let next = aligned + length bytes' in
    let pad = padding current aligned in
    let body = (layout rest next).1 in
    let up = align_up-le (alignment_of e') current (alignment_of-pos e') h in
    let (offset, above, small, entry, inside, there) = layout_lem rest next i e bytes hs at_i in
    let len : length (pad ++ bytes') ≡ next - current =
      omega (arith, up.0, length-append pad bytes', padding-length current aligned) in
    let total : length (pad ++ (bytes' ++ body)) ≡ (next - current) + length body = omega (
      arith,
      up.0,
      length-append pad (bytes' ++ body),
      length-append bytes' body,
      padding-length current aligned,
    ) in
    let skip : drop (offset - current) (pad ++ (bytes' ++ body)) ≡ drop (offset - next) body =
      ap₂ drop {x = offset - current} {y = (next - current) + (offset - next)}
        (omega (arith, up.0, above)) (sym (append_assoc pad bytes' body))
      ∙ drop-append (next - current) (offset - next) (pad ++ bytes') body len in
    (
      offset,
      omega (arith, up.0, above),
      small,
      entry,
      omega (arith, inside, total, up.0),
      ap (take (length bytes)) skip ∙ there,
    )

-- The body ends where the last segment does.
pub length-layout :
    (segments : List (Entry × List ℕ)) (current : ℕ)
    → Fits segments current
    → (length (layout segments current).0 ≡ length segments)
      × (current + length (layout segments current).1 < 2 ^ 64)
unfolding layout
length-layout [] current h = (refl, omega arith)
length-layout ((e, bytes) ∷ rest) current (h, hs) =
    let aligned = align_up (alignment_of e) current in
    let pad = padding current aligned in
    let body = (layout rest (aligned + length bytes)).1 in
    let up = align_up-le (alignment_of e) current (alignment_of-pos e) h in
    let (count, size) = length-layout rest (aligned + length bytes) hs in
    (
      ap suc count,
      omega (
        arith,
        up.0,
        size,
        length-append pad (bytes ++ body),
        length-append bytes body,
        padding-length current aligned,
      ),
    )
