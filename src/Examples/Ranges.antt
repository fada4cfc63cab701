-- ===== src/Examples/Ranges.antt =====
-- Memory regions on concrete layouts (kernel/src/memory/vmar.rs).
use capsule_os.Base.{
  ℕ, zero, suc, ◌≤◌, ◌%◌, ◌≡◌, ◌⊎◌, inr, refl, true, some, [], ◌∷◌, get_elem?, arith,
}
use capsule_os.Memory.Region.{
  Mapping, Vmar, page_up, found, full, search_from, conflict, child_conflict, mapping_conflict,
  create, allocate_subregion, reserve_mapping,
}
use capsule_os.Memory.Region.Placement.{
  IsValid, IsPlace, Inside, ClearOfChildren, ClearOfMappings, search_from_lem,
}
use capsule_os.Memory.Region.Allocation.{with_child, with_mapping, allocate_subregion-clear}

-- A region of four pages, the first of which is mapped.
abbrev first_mapped : Vmar
first_mapped = record {
  base = 0x1_0000;
  size = 0x4000;
  meta_page = 4096;
  children = [];
  mappings =
      record {
        vmo_id = 1;
        vmo_offset = 0;
        virt_addr = 0x1_0000;
        size = 0x1000;
        flags = 3;
        installed = true;
      }
      ∷ [];
}

first_mapped-IsValid : IsValid first_mapped
first_mapped-IsValid = record {
  small = omega arith;
  children = λ j c at_j. absurd cc;
  mappings = inside;
}
  where
    inside :
        (j : ℕ) (m : Mapping)
        → get_elem? first_mapped.mappings j ≡ some m
        → Inside m.virt_addr m.size 0x1_0000 0x4000
    inside zero m at_j =
        let start : m.virt_addr ≡ 0x1_0000 = cc in
        let size : m.size ≡ 0x1000 = cc in (omega (arith, start), omega (arith, start, size))
    inside (suc j) m at_j = absurd cc

search_from_lem_example :
    ((search_from 0x4002 0x2000 first_mapped 0x1_0000 ≡ full)
      × ((c : ℕ) → 0x1_0000 ≤ c → c % 4096 ≡ 0 → ¬ IsPlace c 0x2000 first_mapped))
    ⊎ ((c : ℕ) × (search_from 0x4002 0x2000 first_mapped 0x1_0000 ≡ found c)
        × IsPlace c 0x2000 first_mapped)
search_from_lem_example =
    search_from_lem 0x4002 0x2000 first_mapped 0x1_0000 first_mapped-IsValid (omega arith)
      (omega arith) (omega arith) (omega arith) (omega arith)

-- A subregion of two pages comes behind the mapping.
abbrev child : Vmar
child = record { base = 0x1_1000; size = 0x2000; meta_page = 8192; children = []; mappings = [] }

given_child :
    allocate_subregion (some 8192) 0x1234 first_mapped
    ≡ inr (child, with_child first_mapped child 0x2000)
unfolding allocate_subregion create search_from conflict child_conflict mapping_conflict
given_child = refl

allocate_subregion-clear_example :
    Inside 0x1_1000 (page_up 0x1234) 0x1_0000 0x4000
    × ClearOfChildren 0x1_1000 (page_up 0x1234) []
    × ClearOfMappings 0x1_1000 (page_up 0x1234) first_mapped.mappings
    × (with_child first_mapped child 0x2000 ≡ with_child first_mapped child (page_up 0x1234))
allocate_subregion-clear_example =
    allocate_subregion-clear (some 8192) 0x1234 first_mapped child
      (with_child first_mapped child 0x2000) first_mapped-IsValid (omega arith) given_child

-- A second mapping of the same page is accepted.
abbrev again : Mapping
again = record {
  vmo_id = 2;
  vmo_offset = 0;
  virt_addr = 0x1_0000;
  size = 0x1000;
  flags = 3;
  installed = true;
}

mapped_twice :
    reserve_mapping 2 0 0x1_0000 0x1000 3 first_mapped ≡ inr (with_mapping first_mapped again)
unfolding reserve_mapping
mapped_twice = refl
