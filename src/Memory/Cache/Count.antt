-- ===== src/Memory/Cache/Count.antt =====
-- The count of the page cache (kernel/src/arch/aarch64/phys.rs) under its operations.
use capsule_os.Base.{
  ℕ, zero, suc, ◌+◌, ◌-◌, ◌^◌, ◌≤◌, ◌<◌, ◌≡◌, refl, sym, ap, subst, ◌∙◌, Bool, false, Bool-cases,
  Option-cases, inl, inr, Option, none, some, List, [], ◌∷◌, length, length-set, get_elem?,
  get_elem?-lt, get_elem?-set_self, set, free_index, occupied, occupied-le, free_index-some,
  free_index-full, occupied-set-some, occupied-set-none, leb, arith,
}
use capsule_os.Memory.Cache.{
  Entry, page_cache_size, PageCache, find_evictable, make_room, store_page, add_page, sync_entries,
  sync,
}
use capsule_os.Memory.Cache.Laws.{find_evictable-least, find_evictable-none}

abbrev pub Young : List (Option Entry) → Type 0
Young es = (j : ℕ) (e : Entry) → get_elem? es j ≡ some (some e) → e.age < 2 ^ 64 - 1

Young-set :
    (es : List (Option Entry)) (i : ℕ) (o : Option Entry)
    → Young es
    → ((e : Entry) → o ≡ some e → e.age < 2 ^ 64 - 1)
    → Young (set es i o)
Young-set [] i o h new j e at_j = absurd cc
Young-set (e' ∷ es) zero o h new zero e at_j = new e cc
Young-set (e' ∷ es) zero o h new (suc j) e at_j = h (suc j) e at_j
Young-set (e' ∷ es) (suc i) o h new zero e at_j = h zero e at_j
Young-set (e' ∷ es) (suc i) o h new (suc j) e at_j = Young-set es i o (λ k. h (suc k)) new j e at_j

-- The array has its size, the count counts, and no age has reached the largest.
pub record IsValid (c : PageCache) : Type 0 where
  pub size : length c.entries ≡ page_cache_size
  pub counted : c.count ≡ occupied c.entries
  pub young : Young c.entries

some_entry :
    (es : List (Option Entry))
    → 0 < occupied es
    → (j : ℕ) × (e : Entry) × (get_elem? es j ≡ some (some e))
unfolding occupied
some_entry [] h = absurd (omega arith)
some_entry (none ∷ es) h = let (j, e, at_j) = some_entry es h in (suc j, e, at_j)
some_entry (some e ∷ es) h = (zero, e, refl)

-- Room is made.
make_room-free :
    (c : PageCache)
    → IsValid c
    → (length (make_room c).entries ≡ page_cache_size)
      × ((make_room c).count ≡ occupied (make_room c).entries)
      × (occupied (make_room c).entries < page_cache_size)
      × Young (make_room c).entries
unfolding make_room
make_room-free c v = elim (Bool-cases (leb page_cache_size c.count)) [
  | inr room ↦ rw room (v.size, v.counted, ground (arith, room, v.counted), v.young)
  | inl full ↦
      let is_full : page_cache_size ≤ c.count = ground (arith, full) in
      elim (Option-cases (find_evictable c)) [
        | inl nothing ↦
            let (j, e, at_j) = some_entry c.entries (omega (arith, v.counted, is_full)) in
            absurd (omega (arith, find_evictable-none c nothing j e at_j, v.young j e at_j))
        | inr ((idx, pa), found) ↦
            let (e, at, _, _) = find_evictable-least c idx pa found in
            let fewer = occupied-set-none c.entries idx e at in
            let in_range = get_elem?-lt c.entries idx at in
            rw (full, found)
              (
                length-set c.entries idx none ∙ v.size,
                omega (arith, fewer, v.counted),
                omega (arith, fewer, occupied-le c.entries, v.size),
                Young-set c.entries idx none v.young (λ e' never. absurd cc),
              )
      ]
]

-- Adding a page to a valid cache leaves it valid, and the page is in it, with age 0.
pub add_page-IsValid :
    (c : PageCache) (pa : ℕ) (dirty : Bool)
    → IsValid c
    → IsValid (add_page pa dirty c)
      × ((i : ℕ) × (get_elem? (add_page pa dirty c).entries i
            ≡ some (some (record { pa = pa; age = 0; dirty = dirty }))))
unfolding add_page store_page
add_page-IsValid c pa dirty v =
    let room = make_room c in
    let (size, counted, fewer, young) = make_room-free c v in
    let new : Entry = record { pa = pa; age = 0; dirty = dirty } in
    elim (Option-cases (free_index room.entries)) [
      | inl nothing ↦ absurd (omega (arith, free_index-full room.entries nothing, size, fewer))
      | inr (i, free) ↦
          let at_i = free_index-some room.entries i free in
          let after : PageCache = record {
            entries = set room.entries i (some new);
            count = room.count + 1;
          } in
          let added : add_page pa dirty c ≡ after = rw (free, add_page, store_page) refl in
          subst (λ r. IsValid r × ((k : ℕ) × (get_elem? r.entries k ≡ some (some new)))) (sym added)
            (
              record {
                size = length-set room.entries i (some new) ∙ size;
                counted = omega (arith, counted, occupied-set-some room.entries i new at_i);
                young = Young-set room.entries i (some new) young (λ e same. of_new e same);
              },
              (i, get_elem?-set_self room.entries i (some new) (get_elem?-lt room.entries i at_i)),
            )
    ]
  where
    of_new :
        (e : Entry)
        → some (record { pa = pa; age = 0; dirty = dirty }) ≡ some e
        → e.age < 2 ^ 64 - 1
    of_new e same = let age : e.age ≡ 0 = cc in omega (arith, age)

-- After `sync` no entry is dirty, and a second `sync` finds none.
pub sync-sync : (c : PageCache) → sync (sync c).1 ≡ (0, (sync c).1)
unfolding sync sync_entries
sync-sync c = ap (λ r. (r.0, record c { entries = r.1 })) (twice c.entries)
  where
    twice : (es : List (Option Entry)) → sync_entries (sync_entries es).1 ≡ (0, (sync_entries es).1)
    twice [] = refl
    twice (none ∷ es) = ap (λ r. (r.0, none ∷ r.1)) (twice es)
    twice (some e ∷ es) = elim (Bool-cases e.dirty) [
      | inl dirty ↦ rw dirty (ap (λ r. (r.0, some (record e { dirty = false }) ∷ r.1)) (twice es))
      | inr clean ↦ rw clean (ap (λ r. (r.0, some (record e { dirty = false }) ∷ r.1)) (twice es))
    ]
