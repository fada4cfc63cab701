-- ===== src/Memory/Cache/Laws.antt =====
-- Which page the cache (kernel/src/arch/aarch64/phys.rs) evicts, and that its count stays right.
use capsule_os.Base.{
  ℕ, zero, suc, ◌+◌, ◌-◌, ◌^◌, ◌≤◌, ◌<◌, ◌≡◌, ◌⊎◌, refl, sym, ap, ◌∙◌, true, false, not, ◌&&◌,
  Bool-cases, Option-cases, inl, inr, Option, none, some, List, [], ◌∷◌, get_elem?, ltb, arith,
}
use capsule_os.Memory.Cache.{Entry, PageCache, find_clean, find_dirty, find_evictable}

-- Every clean entry is at least so old.
abbrev pub CleanFrom : ℕ → List (Option Entry) → Type 0
CleanFrom age es =
    (j : ℕ) (e : Entry) → get_elem? es j ≡ some (some e) → e.dirty ≡ false → age ≤ e.age

CleanFrom-none : (age : ℕ) (es : List (Option Entry)) → CleanFrom age es → CleanFrom age (none ∷ es)
CleanFrom-none age es h zero e at_j clean = absurd cc
CleanFrom-none age es h (suc j) e at_j clean = h j e at_j clean

CleanFrom-some :
    (age : ℕ) (e' : Entry) (es : List (Option Entry))
    → (e'.dirty ≡ false → age ≤ e'.age)
    → CleanFrom age es
    → CleanFrom age (some e' ∷ es)
CleanFrom-some age e' es first h zero e at_j clean =
    let same : e' ≡ e = cc in
    omega (arith, first (ap (λ z. z.dirty) same ∙ clean), ap (λ z. z.age) same)
CleanFrom-some age e' es first h (suc j) e at_j clean = h j e at_j clean

-- The entry at a slot, with its page.
abbrev pub Chosen : List (Option Entry) → ℕ → ℕ → Entry → Type 0
Chosen es k pa e = (get_elem? es k ≡ some (some e)) × (e.pa ≡ pa)

-- The scan for a clean entry keeps what it found, or finds a younger one with the least age.
find_clean_lem :
    (i : ℕ) (es : List (Option Entry)) (age : ℕ) (found : Option (ℕ × ℕ)) (idx pa : ℕ)
    → find_clean i es age found ≡ some (idx, pa)
    → ((found ≡ some (idx, pa)) × CleanFrom age es)
      ⊎ ((k : ℕ) × (e : Entry) × (idx ≡ i + k)
          × Chosen es k pa e
          × (e.dirty ≡ false)
          × (e.age < age)
          × CleanFrom e.age es)
unfolding find_clean
find_clean_lem i [] age found idx pa h = inl (h, λ j e at_j clean. absurd cc)
find_clean_lem i (none ∷ es) age found idx pa h =
    elim (find_clean_lem (i + 1) es age found idx pa h) [
      | inl (kept, all) ↦ inl (kept, CleanFrom-none age es all)
      | inr (k, e, at, chosen, clean, young, all) ↦
          inr (suc k, e, omega (arith, at), chosen, clean, young, CleanFrom-none e.age es all)
    ]
find_clean_lem i (some e' ∷ es) age found idx pa h =
    elim (Bool-cases (not e'.dirty && ltb e'.age age)) [
      | inl taken ↦
          let clean' : e'.dirty ≡ false = ground (arith, taken) in
          let young' : e'.age < age = ground (arith, taken) in
          elim (find_clean_lem (i + 1) es e'.age (some (i, e'.pa)) idx pa (rw (taken) at h)) [
            | inl (kept, all) ↦
                let at : i ≡ idx = cc in
                let page : e'.pa ≡ pa = cc in
                inr (
                  zero,
                  e',
                  omega (arith, at),
                  (refl, page),
                  clean',
                  young',
                  CleanFrom-some e'.age e' es (λ _. omega arith) all,
                )
            | inr (k, e, at, chosen, clean, young, all) ↦ inr (
              suc k,
              e,
              omega (arith, at),
              chosen,
              clean,
              omega (arith, young, young'),
              CleanFrom-some e.age e' es (λ _. omega (arith, young)) all,
            )
          ]
      | inr left ↦ elim (find_clean_lem (i + 1) es age found idx pa (rw (left) at h)) [
        | inl (kept, all) ↦
            inl (kept, CleanFrom-some age e' es (λ clean. ground (arith, left, clean)) all)
        | inr (k, e, at, chosen, clean, young, all) ↦ inr (
          suc k,
          e,
          omega (arith, at),
          chosen,
          clean,
          young,
          CleanFrom-some e.age e' es (λ clean'. ground (arith, left, clean', young)) all,
        )
      ]
    ]

find_clean-none :
    (i : ℕ) (es : List (Option Entry)) (age : ℕ) (found : Option (ℕ × ℕ))
    → find_clean i es age found ≡ none
    → (found ≡ none) × CleanFrom age es
unfolding find_clean
find_clean-none i [] age found h = (h, λ j e at_j clean. absurd cc)
find_clean-none i (none ∷ es) age found h =
    let (kept, all) = find_clean-none (i + 1) es age found h in (kept, CleanFrom-none age es all)
find_clean-none i (some e' ∷ es) age found h = elim (Bool-cases (not e'.dirty && ltb e'.age age)) [
  | inl taken ↦
      absurd (cc (find_clean-none (i + 1) es e'.age (some (i, e'.pa)) (rw (taken) at h)).0)
  | inr left ↦
      let (kept, all) = find_clean-none (i + 1) es age found (rw (left) at h) in
      (kept, CleanFrom-some age e' es (λ clean. ground (arith, left, clean)) all)
]

find_dirty_lem :
    (i : ℕ) (es : List (Option Entry)) (idx pa : ℕ)
    → find_dirty i es ≡ some (idx, pa)
    → (k : ℕ) × (e : Entry) × (idx ≡ i + k) × Chosen es k pa e × (e.dirty ≡ true)
unfolding find_dirty
find_dirty_lem i [] idx pa h = absurd cc
find_dirty_lem i (none ∷ es) idx pa h =
    let (k, e, at, chosen, dirty) = find_dirty_lem (i + 1) es idx pa h in
    (suc k, e, omega (arith, at), chosen, dirty)
find_dirty_lem i (some e' ∷ es) idx pa h = elim (Bool-cases e'.dirty) [
  | inl dirty' ↦
      let found = rw dirty' at h in
      let at : i ≡ idx = cc in
      let page : e'.pa ≡ pa = cc in (zero, e', omega (arith, at), (refl, page), dirty')
  | inr clean ↦
      let (k, e, at, chosen, dirty) = find_dirty_lem (i + 1) es idx pa (rw clean at h) in
      (suc k, e, omega (arith, at), chosen, dirty)
]

find_dirty-none :
    (i : ℕ) (es : List (Option Entry)) (j : ℕ) (e : Entry)
    → find_dirty i es ≡ none
    → get_elem? es j ≡ some (some e)
    → e.dirty ≡ false
unfolding find_dirty
find_dirty-none i [] j e h at_j = absurd cc
find_dirty-none i (none ∷ es) zero e h at_j = absurd cc
find_dirty-none i (none ∷ es) (suc j) e h at_j = find_dirty-none (i + 1) es j e h at_j
find_dirty-none i (some e' ∷ es) zero e h at_j = elim (Bool-cases e'.dirty) [
  | inl dirty ↦ absurd (cc (rw dirty at h))
  | inr clean ↦ let same : e' ≡ e = cc in sym (ap (λ z. z.dirty) same) ∙ clean
]
find_dirty-none i (some e' ∷ es) (suc j) e h at_j = elim (Bool-cases e'.dirty) [
  | inl dirty ↦ absurd (cc (rw dirty at h))
  | inr clean ↦ find_dirty-none (i + 1) es j e (rw clean at h) at_j
]

-- A page that is to be evicted is in the cache, at the index. It is a clean one with the least age of
-- the clean ones, or it is dirty and no clean one has an age below the largest.
pub find_evictable-least :
    (c : PageCache) (idx pa : ℕ)
    → find_evictable c ≡ some (idx, pa)
    → (e : Entry) × (get_elem? c.entries idx ≡ some (some e))
      × (e.pa ≡ pa)
      × (((e.dirty ≡ false) × CleanFrom e.age c.entries)
          ⊎ ((e.dirty ≡ true) × CleanFrom (2 ^ 64 - 1) c.entries))
unfolding find_evictable
find_evictable-least c idx pa h = elim (Option-cases (find_clean 0 c.entries (2 ^ 64 - 1) none)) [
  | inl nothing ↦
      let (k, e, at, chosen, dirty) =
        find_dirty_lem 0 c.entries idx pa (rw (nothing, find_evictable) at h) in
      let index : idx ≡ k = omega (arith, at) in
      (
        e,
        ap (get_elem? c.entries) index ∙ chosen.0,
        chosen.1,
        inr (dirty, (find_clean-none 0 c.entries _ none nothing).1),
      )
  | inr (found, something) ↦
      elim (find_clean_lem 0 c.entries (2 ^ 64 - 1) none idx pa
        (something ∙ (rw (something, find_evictable) at h))) [
          | inl (never, _) ↦ absurd cc
          | inr (k, e, at, chosen, clean, young, all) ↦
              let index : idx ≡ k = omega (arith, at) in
              (e, ap (get_elem? c.entries) index ∙ chosen.0, chosen.1, inl (clean, all))
        ]
]

-- With nothing to evict, no page of the cache has an age below the largest.
pub find_evictable-none :
    (c : PageCache)
    → find_evictable c ≡ none
    → (j : ℕ) (e : Entry) → get_elem? c.entries j ≡ some (some e)
    → 2 ^ 64 - 1 ≤ e.age
unfolding find_evictable
find_evictable-none c h j e at_j = elim (Option-cases (find_clean 0 c.entries (2 ^ 64 - 1) none)) [
  | inl nothing ↦
      (find_clean-none 0 c.entries _ none nothing).1 j e at_j
        (find_dirty-none 0 c.entries j e (rw (nothing, find_evictable) at h) at_j)
  | inr (found, something) ↦ absurd (cc (rw (something, find_evictable) at h))
]
