-- ===== src/Memory/Cache.antt =====
-- The cache of freed pages (kernel/src/arch/aarch64/phys.rs).
pub mod Laws
pub mod Count
use capsule_os.Base.{
  ℕ, zero, suc, ◌+◌, ◌-◌, ◌%◌, ◌^◌, ◌≤◌, ◌<◌, ◌≡◌, ◌≢◌, refl, sym, ap, ◌∙◌, Bool, true, false, not,
  ◌&&◌, Bool-cases, inl, inr, Option, none, some, List, [], ◌∷◌, length, length-set, replicate,
  get_elem?, set, free_index, occupied, ltb, leb, ◌==◌, if◌then◌else◌, arith,
}

pub record Entry : Type 0 where
  pub pa : ℕ
  pub age : ℕ
  pub dirty : Bool

abbrev pub page_cache_size : ℕ
page_cache_size = 64

pub record PageCache : Type 0 where
  pub entries : List (Option Entry)
  pub count : ℕ

-- `PageCache::new`, which `init` stores too.
abbrev pub empty : PageCache
empty = record { entries = replicate page_cache_size none; count = 0 }

-- The first loop of `find_evictable`, from index `i` on, with the age and the index so far.
unfoldable pub find_clean : ℕ → List (Option Entry) → ℕ → Option (ℕ × ℕ) → Option (ℕ × ℕ)
find_clean i [] age found = found
find_clean i (none ∷ es) age found = find_clean (i + 1) es age found
find_clean i (some e ∷ es) age found =
    if not e.dirty && ltb e.age age
    then find_clean (i + 1) es e.age (some (i, e.pa))
    else find_clean (i + 1) es age found

-- The second loop.
unfoldable pub find_dirty : ℕ → List (Option Entry) → Option (ℕ × ℕ)
find_dirty i [] = none
find_dirty i (none ∷ es) = find_dirty (i + 1) es
find_dirty i (some e ∷ es) = if e.dirty then some (i, e.pa) else find_dirty (i + 1) es

-- `usize::MAX` is the age to begin with.
unfoldable pub find_evictable : PageCache → Option (ℕ × ℕ)
unfolding find_clean find_dirty
find_evictable c = elim (find_clean 0 c.entries (2 ^ 64 - 1) none) [
  | some found ↦ some found
  | none ↦ find_dirty 0 c.entries
]

-- The first part of `add_page`: room is made in a full cache.
unfoldable pub make_room : PageCache → PageCache
unfolding find_evictable
make_room c =
    if leb page_cache_size c.count
    then elim (find_evictable c) [
      | some (idx, _) ↦ record { entries = set c.entries idx none; count = c.count - 1 }
      | none ↦ c
    ]
    else c

-- The second part: the first free slot takes the page.
unfoldable pub store_page : ℕ → Bool → PageCache → PageCache
store_page pa dirty c = elim (free_index c.entries) [
  | some i ↦ record {
    entries = set c.entries i (some (record { pa = pa; age = 0; dirty = dirty }));
    count = c.count + 1;
  }
  | none ↦ c
]

unfoldable pub add_page : ℕ → Bool → PageCache → PageCache
unfolding make_room store_page
add_page pa dirty c = store_page pa dirty (make_room c)

-- The loop of `mark_dirty`.
unfoldable pub mark_entries : ℕ → List (Option Entry) → List (Option Entry)
mark_entries pa [] = []
mark_entries pa (none ∷ es) = none ∷ mark_entries pa es
mark_entries pa (some e ∷ es) =
    let rest = mark_entries pa es in
    if e.pa == pa then some (record e { dirty = true }) ∷ es else some e ∷ rest

unfoldable pub mark_dirty : ℕ → PageCache → PageCache
mark_dirty pa c = record c { entries = mark_entries pa c.entries }

unfoldable pub tick_entries : List (Option Entry) → List (Option Entry)
tick_entries [] = []
tick_entries (none ∷ es) = none ∷ tick_entries es
tick_entries (some e ∷ es) = some (record e { age = (e.age + 1) % 2 ^ 64 }) ∷ tick_entries es

unfoldable pub tick : PageCache → PageCache
tick c = record c { entries = tick_entries c.entries }

-- The loop of `sync`: how many entries were dirty, and the entries, clean now.
unfoldable pub sync_entries : List (Option Entry) → ℕ × List (Option Entry)
sync_entries [] = (0, [])
sync_entries (none ∷ es) = let (n, rest) = sync_entries es in (n, none ∷ rest)
sync_entries (some e ∷ es) =
    let (n, rest) = sync_entries es in
    if e.dirty then (suc n, some (record e { dirty = false }) ∷ rest) else (n, some e ∷ rest)

unfoldable pub sync : PageCache → ℕ × PageCache
unfolding sync_entries
sync c = let (n, es) = sync_entries c.entries in (n, record c { entries = es })

-- `drain` takes every entry out.
unfoldable pub drain : PageCache → ℕ × PageCache
drain c = (occupied c.entries, record { entries = replicate (length c.entries) none; count = 0 })

-- `reclaim_page`.
unfoldable pub reclaim_page : PageCache → Option ℕ × PageCache
unfolding add_page
reclaim_page c = elim (find_evictable c) [
  | some (_, pa) ↦ (some pa, add_page pa false c)
  | none ↦ (none, c)
]
