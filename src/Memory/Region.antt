-- ===== src/Memory/Region.antt =====
-- Virtual memory regions (kernel/src/memory/vmar.rs). The page that a region takes for its metadata
-- comes from the page allocator, a parameter here.
pub mod Placement
pub mod Allocation
use capsule_os.Base.{
  ℕ, zero, suc, ◌+◌, ◌-◌, ◌*◌, ◌/◌, ◌%◌, ◌^◌, ◌⊎◌, inl, inr, Bool, true, false, not, ◌&&◌, ◌||◌,
  Option, none, some, List, [], ◌∷◌, ◌++◌, length, bit_and, ltb, leb, ◌==◌, if◌then◌else◌,
}

pub data Status : Type 0 where
  invalid_args no_memory : Status

pub record Mapping : Type 0 where
  pub vmo_id : ℕ
  pub vmo_offset : ℕ
  pub virt_addr : ℕ
  pub size : ℕ
  pub flags : ℕ
  pub installed : Bool

pub record SubRegion : Type 0 where
  pub base : ℕ
  pub size : ℕ
  pub meta_pa : Option ℕ

pub record Vmar : Type 0 where
  pub base : ℕ
  pub size : ℕ
  pub meta_page : ℕ
  pub children : List SubRegion
  pub mappings : List Mapping

abbrev pub max_children : ℕ
max_children = 32

abbrev pub max_mappings : ℕ
max_mappings = 32

-- `VmarFlags`: the four bits.
abbrev pub readable : ℕ → Bool
readable flags = not (bit_and flags 1 == 0)

abbrev pub writable : ℕ → Bool
writable flags = not (bit_and flags 2 == 0)

abbrev pub executable : ℕ → Bool
executable flags = not (bit_and flags 4 == 0)

abbrev pub user : ℕ → Bool
user flags = not (bit_and flags 8 == 0)

-- `(x + PAGE_SIZE - 1) & !(PAGE_SIZE - 1)`.
abbrev pub page_up : ℕ → ℕ
page_up x = bit_and ((x + 4096 - 1) % 2 ^ 64) (2 ^ 64 - 4096)

abbrev pub misaligned : ℕ → Bool
misaligned x = not (bit_and x 4095 == 0)

-- `create`, with the answer of the page allocator.
unfoldable pub create : Option ℕ → ℕ → ℕ → Status ⊎ Vmar
create meta_pa base size =
    if misaligned base || (size == 0) then inl invalid_args else elim meta_pa [
      | none ↦ inl no_memory
      | some pa ↦ inr (record {
        base = base;
        size = page_up size;
        meta_page = pa;
        children = [];
        mappings = [];
      })
    ]

-- The test of both inner loops: do the two ranges overlap?
abbrev pub overlaps : ℕ → ℕ → ℕ → ℕ → Bool
overlaps candidate size start len =
    ltb candidate ((start + len) % 2 ^ 64) && ltb start ((candidate + size) % 2 ^ 64)

-- The loop over the children: where a range moves the candidate to.
unfoldable pub child_conflict : ℕ → ℕ → List SubRegion → Option ℕ
child_conflict candidate size [] = none
child_conflict candidate size (c ∷ cs) = elim c.meta_pa [
  | none ↦ child_conflict candidate size cs
  | some _ ↦
      if overlaps candidate size c.base c.size
      then some (page_up ((c.base + c.size) % 2 ^ 64))
      else child_conflict candidate size cs
]

unfoldable pub mapping_conflict : ℕ → ℕ → List Mapping → Option ℕ
mapping_conflict candidate size [] = none
mapping_conflict candidate size (m ∷ ms) =
    if overlaps candidate size m.virt_addr m.size
    then some (page_up ((m.virt_addr + m.size) % 2 ^ 64))
    else mapping_conflict candidate size ms

unfoldable pub conflict : ℕ → ℕ → Vmar → Option ℕ
unfolding child_conflict mapping_conflict
conflict candidate size r = elim (child_conflict candidate size r.children) [
  | some moved ↦ some moved
  | none ↦ mapping_conflict candidate size r.mappings
]

pub data Search : Type 0 where
  found : ℕ → Search
  full out_of_fuel : Search

-- The outer loop.
unfoldable pub search_from : ℕ → ℕ → Vmar → ℕ → Search
unfolding conflict
search_from zero size r candidate = out_of_fuel
search_from (suc fuel) size r candidate =
    if ltb ((r.base + r.size) % 2 ^ 64) ((candidate + size) % 2 ^ 64)
    then full
    else elim (conflict candidate size r) [
      | none ↦ found candidate
      | some moved ↦ search_from fuel size r moved
    ]

-- `allocate_subregion`: the child and the region with it. Every round of the search moves the
-- candidate up, so a round for each address of the region is enough.
unfoldable pub allocate_subregion : Option ℕ → ℕ → Vmar → Status ⊎ (Vmar × Vmar)
unfolding search_from create
allocate_subregion meta_pa size r =
    let rounded = page_up size in
    if size == 0
    then inl invalid_args
    else if leb max_children (length r.children)
    then inl no_memory
    else elim (search_from (r.size + 2) rounded r r.base) [
      | full ↦ inl no_memory
      | out_of_fuel ↦ inl no_memory
      | found candidate ↦ elim (create meta_pa candidate rounded) [
        | inl e ↦ inl e
        | inr child ↦ inr (
          child,
          record r {
            children =
                r.children
                ++ (record { base = candidate; size = rounded; meta_pa = some child.meta_page }
                    ∷ []);
          },
        )
      ]
    ]

unfoldable pub reserve_mapping : ℕ → ℕ → ℕ → ℕ → ℕ → Vmar → Status ⊎ Vmar
reserve_mapping vmo_id vmo_offset virt_addr size flags r =
    if (size == 0) || misaligned virt_addr || misaligned vmo_offset
    then inl invalid_args
    else if ltb virt_addr r.base || ltb ((r.base + r.size) % 2 ^ 64) ((virt_addr + size) % 2 ^ 64)
    then inl invalid_args
    else if leb max_mappings (length r.mappings)
    then inl no_memory
    else inr (record r {
      mappings =
          r.mappings
          ++ (record {
            vmo_id = vmo_id;
            vmo_offset = vmo_offset;
            virt_addr = virt_addr;
            size = size;
            flags = flags;
            installed = true;
          }
              ∷ []);
    })
