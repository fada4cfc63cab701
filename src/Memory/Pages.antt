-- ===== src/Memory/Pages.antt =====
-- The tagged page allocator (kernel/src/arch/aarch64/phys.rs), on one core: a compare-and-exchange
-- right after its load succeeds. The log lines are left out.
pub mod Cursor
pub mod Runs
pub mod Boot
use capsule_os.Base.{
  ℕ, zero, suc, ◌+◌, ◌-◌, ◌*◌, ◌/◌, ◌%◌, ◌^◌, ◌≡◌, Bool, true, false, not, ◌&&◌, ◌||◌, Option, none,
  some, List, [], ◌∷◌, ◌++◌, get_elem?, set, ltb, leb, ◌==◌, if◌then◌else◌,
}
use capsule_os.Memory.Tracker.{is_live_pt_page, unregister_pt_page}
use capsule_os.Memory.Cache.{PageCache, add_page}

pub data PageTag : Type 0 where
  free page_table vmo_data vmar_meta kernel_stack kernel_heap : PageTag

-- The cast to `u8`.
unfoldable pub tag_code : PageTag → ℕ
tag_code free = 0
tag_code page_table = 1
tag_code vmo_data = 2
tag_code vmar_meta = 3
tag_code kernel_stack = 4
tag_code kernel_heap = 5

abbrev pub ram_base : ℕ
ram_base = 0x4000_0000

abbrev pub ram_size : ℕ
ram_size = 0x2000_0000

abbrev pub max_pages : ℕ
max_pages = 131072

-- The statics of the module, and the bytes of memory by their physical address.
pub record Phys : Type 0 where
  pub next : ℕ
  pub end : ℕ
  pub free_count : ℕ
  pub total_count : ℕ
  pub tags : List ℕ
  pub live : List ℕ
  pub cache : PageCache
  pub memory : ℕ → ℕ

-- The subtraction wraps below the start of memory; the index is then out of range.
abbrev pub pa_to_pfn : ℕ → ℕ
pa_to_pfn pa = (pa + 2 ^ 64 - ram_base) % 2 ^ 64 / 4096

abbrev pub pa_valid : ℕ → Bool
pa_valid pa = leb ram_base pa && ltb pa (ram_base + ram_size)

unfoldable pub page_tag : Phys → ℕ → Option PageTag
page_tag s pa = if not (pa_valid pa) then none else elim (get_elem? s.tags (pa_to_pfn pa)) [
  | none ↦ none
  | some tag ↦
      if tag == 0
      then some free
      else if tag == 1
      then some page_table
      else if tag == 2
      then some vmo_data
      else if tag == 3
      then some vmar_meta
      else if tag == 4
      then some kernel_stack
      else if tag == 5
      then some kernel_heap
      else none
]

-- The loop that fills a page with zeros.
abbrev pub zero_page : ℕ → (ℕ → ℕ) → ℕ → ℕ
zero_page pa memory a = if leb pa a && ltb a (pa + 4096) then 0 else memory a

-- What one round of the loop of `alloc_page` does: the index may be out of range, and a live page
-- panics.
pub data Round : Type 0 where
  no_memory panic : Round
  again : Phys → Round
  page : ℕ → Phys → Round

unfoldable pub alloc_round : PageTag → Phys → Round
alloc_round tag s =
    let pa = s.next in
    let next = (pa + 4096) % 2 ^ 64 in
    if (pa == 0) || leb s.end pa then no_memory else elim (get_elem? s.tags (pa_to_pfn pa)) [
      | none ↦ panic
      | some old_tag ↦
          if not (old_tag == 0)
          then again (record s { next = next })
          else if is_live_pt_page pa s.live
          then panic
          else page pa (record s {
            next = next;
            free_count = (s.free_count + 2 ^ 64 - 1) % 2 ^ 64;
            tags = set s.tags (pa_to_pfn pa) (tag_code tag);
            memory = zero_page pa s.memory;
          })
    ]

pub data Allocated : Type 0 where
  given : ℕ → Phys → Allocated
  no_page : Phys → Allocated
  panicked out_of_fuel : Allocated

-- The loop.
unfoldable pub alloc_loop : ℕ → PageTag → Phys → Allocated
unfolding alloc_round
alloc_loop zero tag s = out_of_fuel
alloc_loop (suc fuel) tag s = elim (alloc_round tag s) [
  | no_memory ↦ no_page s
  | panic ↦ panicked
  | again s' ↦ alloc_loop fuel tag s'
  | page pa s' ↦ given pa s'
]

-- A round for each page from the cursor to the end, and one more.
unfoldable pub alloc_page : PageTag → Phys → Allocated
unfolding alloc_loop
alloc_page tag s = alloc_loop (suc ((s.end - s.next + 4095) / 4096)) tag s

-- `free_page`; a panic is `none`.
unfoldable pub free_page : ℕ → Phys → Option Phys
free_page pa s = elim (get_elem? s.tags (pa_to_pfn pa)) [
  | none ↦ none
  | some old_tag ↦
      if old_tag == 0
      then none
      else some (record s {
        live = if old_tag == 1 then unregister_pt_page pa s.live else s.live;
        tags = set s.tags (pa_to_pfn pa) 0;
        cache = add_page pa false s.cache;
      })
]
