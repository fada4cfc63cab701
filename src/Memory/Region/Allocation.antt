-- ===== src/Memory/Region/Allocation.antt =====
-- What an allocation and a reservation in a region (kernel/src/memory/vmar.rs) leave.
use capsule_os.Base.{
  ℕ, ◌+◌, ◌%◌, ◌^◌, ◌≤◌, ◌<◌, ◌≡◌, ◌⊎◌, refl, sym, ap, ap₂, subst, ◌∙◌, inl, inr, Bool-cases,
  Option-cases, true, ◌||◌, Option, some, [], ◌∷◌, ◌++◌, length, get_elem?-append_one, ltb, leb,
  ◌==◌, arith,
}
use capsule_os.Memory.Region.{
  Status, invalid_args, no_memory, misaligned, Mapping, Vmar, page_up, create, allocate_subregion,
  reserve_mapping, max_children, max_mappings,
}
use capsule_os.Memory.Region.Placement.{
  IsValid, Inside, ClearOfChildren, ClearOfMappings, search_from_lem,
}

create-cases :
    (meta_pa : Option ℕ) (base size : ℕ)
    → ((e : Status) × (create meta_pa base size ≡ inl e))
      ⊎ ((child : Vmar) × (create meta_pa base size ≡ inr child) × (child.base ≡ base))
unfolding create
create-cases meta_pa base size = elim (Bool-cases (misaligned base || (size == 0))) [
  | inl bad ↦ inl (invalid_args, rw bad refl)
  | inr good ↦ elim (Option-cases meta_pa) [
    | inl failed ↦ inl (no_memory, rw (good, failed) refl)
    | inr (pa, got) ↦ inr (
      record { base = base; size = page_up size; meta_page = pa; children = []; mappings = [] },
      rw (good, got) refl,
      refl,
    )
  ]
]

-- The region that keeps a child.
abbrev pub with_child : Vmar → Vmar → ℕ → Vmar
with_child r child size = record r {
  children =
      r.children
      ++ (record { base = child.base; size = size; meta_pa = some child.meta_page } ∷ []);
}

-- In a valid region, for a size that 64-bit addresses leave room for: when a subregion is given, the
-- range of that size from its base, rounded up to pages, lies inside the region and overlaps no
-- mapping and no child that has its metadata, and the region records the child last.
pub allocate_subregion-clear :
    (meta_pa : Option ℕ) (size : ℕ) (r child r' : Vmar)
    → IsValid r
    → r.base + r.size + page_up size + 8192 ≤ 2 ^ 64
    → allocate_subregion meta_pa size r ≡ inr (child, r')
    → Inside child.base (page_up size) r.base r.size
      × ClearOfChildren child.base (page_up size) r.children
      × ClearOfMappings child.base (page_up size) r.mappings
      × (r' ≡ with_child r child (page_up size))
unfolding allocate_subregion
allocate_subregion-clear meta_pa size r child r' v room h = elim (Bool-cases (size == 0)) [
  | inl null ↦ absurd (cc (rw (null, allocate_subregion) at h))
  | inr positive ↦ elim (Bool-cases (leb max_children (length r.children))) [
    | inl many ↦ absurd (cc (rw (positive, many, allocate_subregion) at h))
    | inr few ↦
        elim (search_from_lem (r.size + 2) (page_up size) r r.base v (omega arith) (omega arith)
          room (omega arith) (omega arith)) [
            | inl (all, _) ↦ absurd (cc (rw (positive, few, all, allocate_subregion) at h))
            | inr (c, at, (inside, clear, clear')) ↦ elim (create-cases meta_pa c (page_up size)) [
              | inl (e, failed) ↦
                  absurd (cc (rw (positive, few, at, failed, allocate_subregion) at h))
              | inr (made, e, base) ↦
                  let result = rw (positive, few, at, e, allocate_subregion) at h in
                  let same : made ≡ child = cc in
                  let c_eq : c ≡ child.base = sym base ∙ ap (λ z. z.base) same in
                  let kept : record r {
                    children =
                        r.children
                        ++ (record { base = c; size = page_up size; meta_pa = some made.meta_page }
                            ∷ []);
                  }
                      ≡ r' =
                    cc in
                  let keep : ℕ → Vmar → Vmar = λ b t. record r {
                    children =
                        r.children
                        ++ (record { base = b; size = page_up size; meta_pa = some t.meta_page }
                            ∷ []);
                  } in
                  (
                    subst (λ b. Inside b (page_up size) r.base r.size) c_eq inside,
                    subst (λ b. ClearOfChildren b (page_up size) r.children) c_eq clear,
                    subst (λ b. ClearOfMappings b (page_up size) r.mappings) c_eq clear',
                    sym kept ∙ ap₂ keep c_eq same,
                  )
            ]
          ]
  ]
]

-- The region with one more mapping.
abbrev pub with_mapping : Vmar → Mapping → Vmar
with_mapping r m = record r { mappings = r.mappings ++ (m ∷ []) }

abbrev mapping_of : ℕ → ℕ → ℕ → ℕ → ℕ → Mapping
mapping_of vmo_id vmo_offset virt_addr size flags = record {
  vmo_id = vmo_id;
  vmo_offset = vmo_offset;
  virt_addr = virt_addr;
  size = size;
  flags = flags;
  installed = true;
}

with_mapping-IsValid :
    (r : Vmar) (m : Mapping)
    → IsValid r
    → Inside m.virt_addr m.size r.base r.size
    → IsValid (with_mapping r m)
with_mapping-IsValid r m v inside = record {
  small = v.small;
  children = v.children;
  mappings = λ j m' at_j. elim (get_elem?-append_one r.mappings m j m' at_j) [
    | inl old ↦ v.mappings j m' old
    | inr same ↦ subst (λ z. Inside z.virt_addr z.size r.base r.size) same inside
  ];
}

-- A reservation keeps a valid region valid, where the end of the mapping does not wrap.
pub reserve_mapping-IsValid :
    (vmo_id vmo_offset virt_addr size flags : ℕ) (r r' : Vmar)
    → IsValid r
    → virt_addr + size < 2 ^ 64
    → reserve_mapping vmo_id vmo_offset virt_addr size flags r ≡ inr r'
    → IsValid r'
unfolding reserve_mapping
reserve_mapping-IsValid vmo_id vmo_offset virt_addr size flags r r' v fits h =
    elim (Bool-cases ((size == 0) || misaligned virt_addr || misaligned vmo_offset)) [
      | inl bad ↦ absurd (cc (rw (bad, reserve_mapping) at h))
      | inr aligned ↦
          let outside =
            ltb virt_addr r.base
            || ltb ((r.base + r.size) % 2 ^ 64) ((virt_addr + size) % 2 ^ 64) in
          elim (Bool-cases outside) [
            | inl bad ↦ absurd (cc (rw (aligned, bad, reserve_mapping) at h))
            | inr inside ↦ elim (Bool-cases (leb max_mappings (length r.mappings))) [
              | inl many ↦ absurd (cc (rw (aligned, inside, many, reserve_mapping) at h))
              | inr few ↦
                  let new = mapping_of vmo_id vmo_offset virt_addr size flags in
                  let result = rw (aligned, inside, few, reserve_mapping) at h in
                  let kept : with_mapping r new ≡ r' = cc in
                  let exact_r : (r.base + r.size) % 2 ^ 64 ≡ r.base + r.size =
                    omega (arith, v.small) in
                  let exact_m : (virt_addr + size) % 2 ^ 64 ≡ virt_addr + size =
                    omega (arith, fits) in
                  let tests = rw (exact_r, exact_m) at inside in
                  let within : Inside virt_addr size r.base r.size =
                    (ground (arith, tests), ground (arith, tests)) in
                  subst IsValid kept (with_mapping-IsValid r new v within)
            ]
          ]
    ]
