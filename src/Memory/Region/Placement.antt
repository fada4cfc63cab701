-- ===== src/Memory/Region/Placement.antt =====
-- Where a subregion is put (kernel/src/memory/vmar.rs).
use capsule_os.Base.{
  ℕ, zero, suc, ◌+◌, ◌-◌, ◌%◌, ◌^◌, ◌≤◌, ◌<◌, ◌≡◌, ◌≢◌, ◌⊎◌, refl, sym, subst, inl, inr, Bool-cases,
  Option-cases, true, false, none, some, List, [], ◌∷◌, get_elem?, ltb, arith,
}
use capsule_os.Base.Bits.{bit_and_round_up, bit_and_page}
use capsule_os.Memory.Region.{
  Mapping, SubRegion, Vmar, page_up, overlaps, child_conflict, mapping_conflict, conflict, found,
  full, search_from,
}

-- A range inside another one.
abbrev pub Inside : ℕ → ℕ → ℕ → ℕ → Type 0
Inside start len base size = (base ≤ start) × (start + len ≤ base + size)

-- Two ranges that do not overlap.
abbrev pub Apart : ℕ → ℕ → ℕ → ℕ → Type 0
Apart a n b m = (a + n ≤ b) ⊎ (b + m ≤ a)

-- The children and the mappings of a region lie inside it, and it ends below the last addresses.
pub record IsValid (r : Vmar) : Type 0 where
  pub small : r.base + r.size + 8192 ≤ 2 ^ 64
  pub children :
      (j : ℕ) (c : SubRegion) → get_elem? r.children j ≡ some c → Inside c.base c.size r.base r.size
  pub mappings :
      (j : ℕ) (m : Mapping)
      → get_elem? r.mappings j ≡ some m
      → Inside m.virt_addr m.size r.base r.size

page_up-le : (x : ℕ) → x + 4096 ≤ 2 ^ 64 → (x ≤ page_up x) × (page_up x ≤ x + 4095)
page_up-le x h =
    let (low, high) = bit_and_round_up 4096 x (omega arith) h in (low, omega (arith, high))

page_up-whole : (x : ℕ) → page_up x % 4096 ≡ 0
page_up-whole x = omega (arith, bit_and_page ((x + 4096 - 1) % 2 ^ 64) (omega arith))

-- What the test of the loops says, where nothing wraps.
overlaps-false :
    (a n b m : ℕ) → a + n < 2 ^ 64 → b + m < 2 ^ 64 → overlaps a n b m ≡ false → Apart a n b m
overlaps-false a n b m hn hm e =
    let exact_n : (a + n) % 2 ^ 64 ≡ a + n = omega (arith, hn) in
    let exact_m : (b + m) % 2 ^ 64 ≡ b + m = omega (arith, hm) in
    ground (arith, rw (exact_n, exact_m) at e)

-- A conflict moves a candidate up, to a page at most behind the region.
abbrev Moves : ℕ → ℕ → Vmar → ℕ → Type 0
Moves candidate size r moved = (candidate < moved) × (moved ≤ r.base + r.size + 4095)

moved_lem :
    (candidate size start len : ℕ) (r : Vmar)
    → r.base + r.size + 8192 ≤ 2 ^ 64
    → Inside start len r.base r.size
    → overlaps candidate size start len ≡ true
    → Moves candidate size r (page_up ((start + len) % 2 ^ 64))
moved_lem candidate size start len r small (low, high) e =
    let exact : (start + len) % 2 ^ 64 ≡ start + len = omega (arith, small, high) in
    let before : candidate < start + len = ground (arith, rw exact at e) in
    let (up, down) = page_up-le (start + len) (omega (arith, small, high)) in
    rw exact (omega (arith, before, up), omega (arith, down, high))

-- No page from the candidate up to where it moves is a place beside the range.
passed_over :
    (candidate size start len c : ℕ) (r : Vmar)
    → r.base + r.size + 8192 ≤ 2 ^ 64
    → candidate + size < 2 ^ 64
    → Inside start len r.base r.size
    → overlaps candidate size start len ≡ true
    → candidate ≤ c
    → c < page_up ((start + len) % 2 ^ 64)
    → c % 4096 ≡ 0
    → Apart c size start len
    → ⊥
passed_over candidate size start len c r small fits (low, high) e from below whole apart =
    let exact : (start + len) % 2 ^ 64 ≡ start + len = omega (arith, small, high) in
    let exact_c : (candidate + size) % 2 ^ 64 ≡ candidate + size = omega (arith, fits) in
    let after : start < candidate + size = ground (arith, rw exact_c at e) in
    let (_, down) = page_up-le (start + len) (omega (arith, small, high)) in
    let aligned = page_up-whole (start + len) in
    let limit : c < page_up (start + len) = rw exact at below in
    elim apart [
      | inl before ↦ absurd (omega (arith, before, from, after))
      | inr behind ↦ absurd (omega (arith, behind, limit, down, aligned, whole))
    ]

-- The children with metadata, and the mappings, that a range stays clear of.
abbrev pub ClearOfChildren : ℕ → ℕ → List SubRegion → Type 0
ClearOfChildren candidate size cs =
    (j : ℕ) (c : SubRegion)
    → get_elem? cs j ≡ some c
    → c.meta_pa ≢ none
    → Apart candidate size c.base c.size

abbrev pub ClearOfMappings : ℕ → ℕ → List Mapping → Type 0
ClearOfMappings candidate size ms =
    (j : ℕ) (m : Mapping) → get_elem? ms j ≡ some m → Apart candidate size m.virt_addr m.size

ClearOfChildren-cons :
    (candidate size : ℕ) (c : SubRegion) (cs : List SubRegion)
    → (c.meta_pa ≢ none → Apart candidate size c.base c.size)
    → ClearOfChildren candidate size cs
    → ClearOfChildren candidate size (c ∷ cs)
ClearOfChildren-cons candidate size c cs head tail zero c' at_j has =
    let same : c ≡ c' = cc in
    subst (λ x. Apart candidate size x.base x.size) same
      (head (subst (λ x. x.meta_pa ≢ none) (sym same) has))
ClearOfChildren-cons candidate size c cs head tail (suc j) c' at_j has = tail j c' at_j has

ClearOfMappings-cons :
    (candidate size : ℕ) (m : Mapping) (ms : List Mapping)
    → Apart candidate size m.virt_addr m.size
    → ClearOfMappings candidate size ms
    → ClearOfMappings candidate size (m ∷ ms)
ClearOfMappings-cons candidate size m ms head tail zero m' at_j =
    let same : m ≡ m' = cc in subst (λ x. Apart candidate size x.virt_addr x.size) same head
ClearOfMappings-cons candidate size m ms head tail (suc j) m' at_j = tail j m' at_j

child_conflict_lem :
    (candidate size : ℕ) (r : Vmar) (cs : List SubRegion)
    → r.base + r.size + 8192 ≤ 2 ^ 64
    → candidate + size < 2 ^ 64
    → ((j : ℕ) (c : SubRegion) → get_elem? cs j ≡ some c → Inside c.base c.size r.base r.size)
    → ((moved : ℕ) × (child_conflict candidate size cs ≡ some moved)
        × Moves candidate size r moved
        × ((c : ℕ) → candidate ≤ c → c < moved → c % 4096 ≡ 0 → ClearOfChildren c size cs → ⊥))
      ⊎ ((child_conflict candidate size cs ≡ none) × ClearOfChildren candidate size cs)
unfolding child_conflict
child_conflict_lem candidate size r [] small fits inside = inr (refl, λ j c at_j. absurd cc)
child_conflict_lem candidate size r (c ∷ cs) small fits inside =
    let tail = child_conflict_lem candidate size r cs small fits (λ j. inside (suc j)) in
    let at = inside zero c refl in
    elim (Option-cases c.meta_pa) [
      | inl unused ↦ elim tail [
        | inl (moved, e, m, over) ↦ inl (
          moved,
          rw (unused) e,
          m,
          λ p low up whole clear. over p low up whole (λ j. clear (suc j)),
        )
        | inr (e, clear) ↦ inr (
          rw (unused) e,
          ClearOfChildren-cons candidate size c cs (λ has. absurd (has unused)) clear,
        )
      ]
      | inr (pa, used) ↦ elim (Bool-cases (overlaps candidate size c.base c.size)) [
        | inl hit ↦ inl (
          page_up ((c.base + c.size) % 2 ^ 64),
          rw (used, hit) refl,
          moved_lem candidate size c.base c.size r small at hit,
          λ p low up whole clear.
              passed_over candidate size c.base c.size p r small fits at hit low up whole
                (clear zero c refl (in_use pa used)),
        )
        | inr miss ↦ elim tail [
          | inl (moved, e, m, over) ↦ inl (
            moved,
            rw (used, miss) e,
            m,
            λ p low up whole clear. over p low up whole (λ j. clear (suc j)),
          )
          | inr (e, clear) ↦
              let apart =
                overlaps-false candidate size c.base c.size fits (omega (arith, small, at.1))
                  miss in
              inr (rw (used, miss) e, ClearOfChildren-cons candidate size c cs (λ _. apart) clear)
        ]
      ]
    ]
  where
    in_use : (pa : ℕ) → c.meta_pa ≡ some pa → c.meta_pa ≢ none
    in_use pa used q = cc

mapping_conflict_lem :
    (candidate size : ℕ) (r : Vmar) (ms : List Mapping)
    → r.base + r.size + 8192 ≤ 2 ^ 64
    → candidate + size < 2 ^ 64
    → ((j : ℕ) (m : Mapping) → get_elem? ms j ≡ some m → Inside m.virt_addr m.size r.base r.size)
    → ((moved : ℕ) × (mapping_conflict candidate size ms ≡ some moved)
        × Moves candidate size r moved
        × ((c : ℕ) → candidate ≤ c → c < moved → c % 4096 ≡ 0 → ClearOfMappings c size ms → ⊥))
      ⊎ ((mapping_conflict candidate size ms ≡ none) × ClearOfMappings candidate size ms)
unfolding mapping_conflict
mapping_conflict_lem candidate size r [] small fits inside = inr (refl, λ j c at_j. absurd cc)
mapping_conflict_lem candidate size r (m ∷ ms) small fits inside =
    let tail = mapping_conflict_lem candidate size r ms small fits (λ j. inside (suc j)) in
    let at = inside zero m refl in
    elim (Bool-cases (overlaps candidate size m.virt_addr m.size)) [
      | inl hit ↦ inl (
        page_up ((m.virt_addr + m.size) % 2 ^ 64),
        rw hit refl,
        moved_lem candidate size m.virt_addr m.size r small at hit,
        λ p low up whole clear.
            passed_over candidate size m.virt_addr m.size p r small fits at hit low up whole
              (clear zero m refl),
      )
      | inr miss ↦ elim tail [
        | inl (moved, e, m', over) ↦
            inl (
              moved,
              rw miss e,
              m',
              λ p low up whole clear. over p low up whole (λ j. clear (suc j)),
            )
        | inr (e, clear) ↦
            let apart =
              overlaps-false candidate size m.virt_addr m.size fits (omega (arith, small, at.1))
                miss in
            inr (rw miss e, ClearOfMappings-cons candidate size m ms apart clear)
      ]
    ]

conflict_lem :
    (candidate size : ℕ) (r : Vmar)
    → IsValid r
    → candidate + size < 2 ^ 64
    → ((moved : ℕ) × (conflict candidate size r ≡ some moved)
        × Moves candidate size r moved
        × ((c : ℕ)
            → candidate ≤ c
            → c < moved
            → c % 4096 ≡ 0
            → ClearOfChildren c size r.children
            → ClearOfMappings c size r.mappings
            → ⊥))
      ⊎ ((conflict candidate size r ≡ none)
          × ClearOfChildren candidate size r.children
          × ClearOfMappings candidate size r.mappings)
unfolding conflict
conflict_lem candidate size r v fits =
    elim (child_conflict_lem candidate size r r.children v.small fits v.children) [
      | inl (moved, e, m, over) ↦
          inl (moved, rw (e, conflict) refl, m, λ p low up whole clear _. over p low up whole clear)
      | inr (e, clear) ↦
          elim (mapping_conflict_lem candidate size r r.mappings v.small fits v.mappings) [
            | inl (moved, e', m, over) ↦ inl (
              moved,
              rw (e, conflict) e',
              m,
              λ p low up whole _ clear'. over p low up whole clear',
            )
            | inr (e', clear') ↦ inr (rw (e, conflict) e', clear, clear')
          ]
    ]

-- A range of the size from `c` on lies in the region and overlaps no mapping of it, and no child that
-- has its metadata.
abbrev pub IsPlace : ℕ → ℕ → Vmar → Type 0
IsPlace c size r =
    Inside c size r.base r.size
    × ClearOfChildren c size r.children
    × ClearOfMappings c size r.mappings

-- In a valid region, from a candidate in it or at most a page behind it, for a size that 64-bit
-- addresses leave room for, and with a round for each address that is left, the search ends: either
-- the range that is found lies inside the region and overlaps no mapping and no child that has its
-- metadata; or the answer is that the region is full, and then no such range starts at any page from
-- the candidate on.
pub search_from_lem :
    (fuel size : ℕ) (r : Vmar) (candidate : ℕ)
    → IsValid r
    → r.base ≤ candidate
    → candidate ≤ r.base + r.size + 4095
    → r.base + r.size + size + 8192 ≤ 2 ^ 64
    → 0 < fuel
    → r.base + r.size + 1 < candidate + fuel
    → ((search_from fuel size r candidate ≡ full)
        × ((c : ℕ) → candidate ≤ c → c % 4096 ≡ 0 → ¬ IsPlace c size r))
      ⊎ ((c : ℕ) × (search_from fuel size r candidate ≡ found c) × IsPlace c size r)
unfolding search_from
search_from_lem zero size r candidate v low high room some_fuel enough =
    absurd (omega (arith, some_fuel))
search_from_lem (suc fuel) size r candidate v low high room some_fuel enough =
    let exact_r : (r.base + r.size) % 2 ^ 64 ≡ r.base + r.size = omega (arith, v.small) in
    let exact_c : (candidate + size) % 2 ^ 64 ≡ candidate + size = omega (arith, high, room) in
    elim (Bool-cases (ltb (r.base + r.size) (candidate + size))) [
      | inl over ↦
          let beyond : r.base + r.size < candidate + size = ground (arith, over) in
          inl (
            rw (exact_r, exact_c, over) refl,
            λ p from _ ((_, fits), _, _). omega (arith, beyond, from, fits),
          )
      | inr within ↦ elim (conflict_lem candidate size r v (omega (arith, high, room))) [
        | inr (e, clear, clear') ↦ inr (
          candidate,
          rw (exact_r, exact_c, within, e) refl,
          ((low, ground (arith, within)), clear, clear'),
        )
        | inl (moved, e, (up, down), over) ↦
            let inside : candidate + size ≤ r.base + r.size = ground (arith, within) in
            elim (search_from_lem fuel size r moved v (omega (arith, low, up)) down room
              (omega (arith, inside, enough)) (omega (arith, up, enough))) [
                | inl (all, nowhere) ↦ inl (
                  rw (exact_r, exact_c, within, e) all,
                  λ p from whole place. elim (Bool-cases (ltb p moved)) [
                    | inl below ↦ over p from (ground (arith, below)) whole place.1 place.2
                    | inr above ↦ nowhere p (ground (arith, above)) whole place
                  ],
                )
                | inr (c, at, place) ↦ inr (c, rw (exact_r, exact_c, within, e) at, place)
              ]
      ]
    ]
