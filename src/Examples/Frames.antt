-- ===== src/Examples/Frames.antt =====
-- The page allocator, its cache and its tracker on concrete memories (kernel/src/arch/aarch64/phys.rs),
-- and the address-space identifiers (asid.rs).
use capsule_os.Base.{
  ℕ, zero, suc, ◌+◌, ◌-◌, ◌*◌, ◌%◌, ◌^◌, ◌≤◌, ◌<◌, ◌≡◌, ◌⊎◌, refl, true, false, Option, none, some,
  List, [], ◌∷◌, length-replicate, replicate, get_elem?, occupied, arith,
}
use capsule_os.Memory.Tracker.{
  register_pt_page, unregister_pt_page, is_live_pt_page, register_slots, unregister_slots,
  live_slots,
}
use capsule_os.Memory.Cache
use capsule_os.Memory.Cache.{
  Entry, PageCache, page_cache_size, find_evictable, find_clean, find_dirty, add_page,
}
use capsule_os.Memory.Cache.Laws.{CleanFrom, find_evictable-least}
use capsule_os.Memory.Cache.Count
use capsule_os.Memory.Cache.Count.{add_page-IsValid}
use capsule_os.Memory.Pages.{
  kernel_heap, page_table, vmo_data, Phys, ram_base, ram_size, max_pages, alloc_page, alloc_loop,
  alloc_round, free_page, tag_code,
}
use capsule_os.Memory.Pages.Cursor.{IsValid, IsReady, Answers, alloc_page-IsReady}
use capsule_os.Memory.Pages.Runs.{want, give_back, Request, run, Ascending, run-Ascending}
use capsule_os.Memory.Pages.Boot.{init}
use capsule_os.Memory.Asid.{
  Asids, alloc, alloc_many, max_user_asid, alloc-IsValid, alloc_many-rollover,
}
use capsule_os.Memory.Asid

-- Three free pages.
abbrev three_pages : Phys
three_pages = record {
  next = ram_base;
  end = ram_base + 3 * 4096;
  free_count = 3;
  total_count = 3;
  tags = replicate max_pages 0;
  live = [];
  cache = Cache.empty;
  memory = λ a. 7;
}

three_pages-IsValid : IsValid three_pages
three_pages-IsValid = record { size = length-replicate {A = ℕ} max_pages 0; small = omega arith }

three_pages-IsReady : IsReady three_pages
unfolding live_slots
three_pages-IsReady = record {
  start = omega arith;
  finish = omega arith;
  dead = λ pa up. ground arith;
}

alloc_page-IsReady_example : Answers kernel_heap three_pages (alloc_page kernel_heap three_pages)
alloc_page-IsReady_example =
    alloc_page-IsReady kernel_heap three_pages three_pages-IsValid three_pages-IsReady

-- The first page is freed between the two allocations.
abbrev requests : List Request
requests = want kernel_heap ∷ give_back ram_base ∷ want vmo_data ∷ []

abbrev last : Phys
unfolding run
last = elim (run requests three_pages) [ none ↦ three_pages | some (_, s) ↦ s ]

run-requests : run requests three_pages ≡ some (ram_base ∷ (ram_base + 4096) ∷ [], last)
unfolding run alloc_page alloc_loop alloc_round tag_code free_page add_page Cache.make_room
    Cache.store_page live_slots
run-requests = refl

run-Ascending_example : Ascending ram_base (ram_base + 3 * 4096) (ram_base ∷ (ram_base + 4096) ∷ [])
run-Ascending_example =
    run-Ascending requests three_pages last (ram_base ∷ (ram_base + 4096) ∷ []) three_pages-IsValid
      run-requests

-- A kernel that ends below a device tree.
abbrev booted : Phys
booted = init ram_base ram_size 0x4010_0000 0x4800_0000 0x1_0000 (λ a. 0)

-- The pages that a run is given.
abbrev pages_of : Option (List ℕ × Phys) → List ℕ
pages_of none = []
pages_of (some (pages, _)) = pages

-- The device tree is in the second of the three pages behind the kernel. It is not counted as free, and
-- the second allocation is given it.
abbrev with_device_tree : Phys
with_device_tree = init ram_base 0x4000 0x4000_1000 0x4000_2000 0x100 (λ a. 0)

device_tree_given :
    (with_device_tree.free_count ≡ 2)
    × (pages_of (run (want kernel_heap ∷ want page_table ∷ []) with_device_tree)
        ≡ 0x4000_1000 ∷ 0x4000_2000 ∷ [])
unfolding init run alloc_page alloc_loop alloc_round tag_code live_slots
device_tree_given = (refl, refl)

-- Two clean pages, of ages 5 and 2, and a dirty one.
abbrev aged : PageCache
aged = record {
  entries =
      some (record { pa = 4096; age = 5; dirty = false })
      ∷ some (record { pa = 8192; age = 2; dirty = false })
      ∷ some (record { pa = 0; age = 0; dirty = true })
      ∷ replicate 61 none;
  count = 3;
}

aged_evicts : find_evictable aged ≡ some (1, 8192)
unfolding find_evictable
aged_evicts = refl

find_evictable-least_example :
    (e : Entry) × (get_elem? aged.entries 1 ≡ some (some e))
    × (e.pa ≡ 8192)
    × (((e.dirty ≡ false) × CleanFrom e.age aged.entries)
        ⊎ ((e.dirty ≡ true) × CleanFrom (2 ^ 64 - 1) aged.entries))
find_evictable-least_example = find_evictable-least aged 1 8192 aged_evicts

empty-IsValid : Count.IsValid Cache.empty
unfolding occupied
empty-IsValid = record { size = refl; counted = refl; young = λ j e at_j. never 64 j e at_j }
  where
    never :
        (n j : ℕ) (e : Entry) → get_elem? (replicate n none) j ≡ some (some e) → e.age < 2 ^ 64 - 1
    never zero j e at_j = absurd cc
    never (suc n) zero e at_j = absurd cc
    never (suc n) (suc j) e at_j = never n j e at_j

-- A page that is registered again behind a slot that was freed before it stays live after it is
-- unregistered.
registered_twice :
    is_live_pt_page 8192
      (unregister_pt_page 8192 (register_pt_page 8192 (unregister_pt_page 4096 (4096 ∷ 8192 ∷ []))))
    ≡ true
unfolding register_slots unregister_slots live_slots
registered_twice = refl

abbrev used_up : Asids
used_up = record { next = 256; generation = 0 }

alloc-IsValid_example :
    (asid : ℕ) × ((alloc used_up).0 ≡ some asid)
    × (0 < asid)
    × (asid ≤ max_user_asid)
    × Asid.IsValid (alloc used_up).1
alloc-IsValid_example =
    alloc-IsValid used_up (record { positive = omega arith; small = omega arith })

alloc_many-rollover_example :
    (alloc_many 2 used_up).0 ≡ (some 1, (0 + 1) % 2 ^ 32) ∷ (some 1, (0 + 1) % 2 ^ 32) ∷ []
alloc_many-rollover_example = alloc_many-rollover used_up refl
