-- ===== src/Memory/Pages/Cursor.antt =====
-- The cursor of the page allocator (kernel/src/arch/aarch64/phys.rs): it ends, and only moves up.
use capsule_os.Base.{
  ℕ, zero, suc, ◌+◌, ◌-◌, ◌*◌, ◌/◌, ◌%◌, ◌^◌, ◌≤◌, ◌<◌, ◌≡◌, ◌≢◌, ◌⊎◌, refl, sym, ap, subst, ◌∙◌,
  Bool-cases, Option-cases, inl, inr, true, false, ◌||◌, none, some, get_elem?, get_elem?-lt,
  get_elem?-ne-none, length, length-set, set, leb, ◌==◌, eq_of_==, arith,
}
use capsule_os.Memory.Tracker.{is_live_pt_page}
use capsule_os.Memory.Pages.{
  PageTag, tag_code, ram_base, ram_size, max_pages, Phys, pa_to_pfn, zero_page, no_memory, panic,
  again, page, alloc_round, Allocated, given, no_page, alloc_loop, alloc_page,
}

-- An index in range is that of an address in memory, and the next page does not wrap.
index_in_memory :
    (pa : ℕ) → pa < 2 ^ 64 → pa_to_pfn pa < max_pages → (ram_base ≤ pa) × (pa < ram_base + ram_size)
index_in_memory pa small h = (omega arith, omega arith)

-- The state after a page is given.
abbrev pub after : PageTag → Phys → Phys
after tag s = record s {
  next = s.next + 4096;
  free_count = (s.free_count + 2 ^ 64 - 1) % 2 ^ 64;
  tags = set s.tags (pa_to_pfn s.next) (tag_code tag);
  memory = zero_page s.next s.memory;
}

-- The page under the cursor is in memory, free and not a live page-table page.
pub record IsFree (s : Phys) : Type 0 where
  pub before_end : s.next < s.end
  pub in_ram : (ram_base ≤ s.next) × (s.next < ram_base + ram_size)
  pub tagged : get_elem? s.tags (pa_to_pfn s.next) ≡ some 0
  pub not_live : is_live_pt_page s.next s.live ≡ false

-- The cases of a round.
pub alloc_round-cases :
    (tag : PageTag) (s : Phys)
    → length s.tags ≡ max_pages
    → s.next < 2 ^ 64
    → (((alloc_round tag s ≡ no_memory) × (s.next ≢ 0 → s.end ≤ s.next))
        ⊎ ((alloc_round tag s ≡ panic)
            × (s.next < s.end)
            × (ram_base ≤ s.next
                → s.next < ram_base + ram_size
                → is_live_pt_page s.next s.live ≡ true)))
      ⊎ (((alloc_round tag s ≡ again (record s { next = s.next + 4096 }))
            × (s.next < s.end)
            × (s.next < ram_base + ram_size))
          ⊎ ((alloc_round tag s ≡ page s.next (after tag s)) × IsFree s))
unfolding alloc_round
alloc_round-cases tag s size small = elim (Bool-cases ((s.next == 0) || leb s.end s.next)) [
  | inl full ↦ inl (inl (rw full refl, λ nz. ground (arith, full, nz)))
  | inr more ↦
      let before : s.next < s.end = ground (arith, more) in
      elim (Option-cases (get_elem? s.tags (pa_to_pfn s.next))) [
        | inl outside ↦ inl (
            inr (
              rw (more, outside) refl,
              before,
              λ low high. absurd (inside s low high size outside),
            ))
        | inr (old, tagged) ↦
            let index = get_elem?-lt s.tags (pa_to_pfn s.next) tagged in
            let in_ram = index_in_memory s.next small (omega (arith, index, size)) in
            let exact : (s.next + 4096) % 2 ^ 64 ≡ s.next + 4096 = omega (arith, in_ram.1) in
            elim (Bool-cases (old == 0)) [
              | inr used ↦ inr (inl (rw (more, tagged, used, exact) refl, before, in_ram.1))
              | inl unused ↦ elim (Bool-cases (is_live_pt_page s.next s.live)) [
                | inl live ↦
                    inl (inr (rw (more, tagged, unused, live) refl, before, λ low high. live))
                | inr dead ↦ inr (
                    inr (
                      rw (more, tagged, unused, dead, exact) refl,
                      record {
                        before_end = before;
                        in_ram = in_ram;
                        tagged = tagged ∙ ap some (eq_of_== old 0 unused);
                        not_live = dead;
                      },
                    ))
              ]
            ]
      ]
]
  where
    inside :
        (s : Phys)
        → ram_base ≤ s.next
        → s.next < ram_base + ram_size
        → length s.tags ≡ max_pages
        → get_elem? s.tags (pa_to_pfn s.next) ≢ none
    inside s low high size none_at =
        get_elem?-ne-none s.tags (pa_to_pfn s.next) (omega (arith, size, low, high)) none_at

pub record IsValid (s : Phys) : Type 0 where
  pub size : length s.tags ≡ max_pages
  pub small : s.next < 2 ^ 64

pub after-IsValid : (tag : PageTag) (s : Phys) → IsValid s → IsFree s → IsValid (after tag s)
after-IsValid tag s v f = record {
  size = length-set s.tags (pa_to_pfn s.next) (tag_code tag) ∙ v.size;
  small = omega (arith, f.in_ram.1);
}

-- The memory from the cursor to the end is RAM, and no live page-table page is in it.
pub record IsReady (s : Phys) : Type 0 where
  pub start : ram_base ≤ s.next
  pub finish : s.end ≤ ram_base + ram_size
  pub dead : (pa : ℕ) → s.next ≤ pa → is_live_pt_page pa s.live ≡ false

-- What a ready allocator answers.
abbrev pub Answers : PageTag → Phys → Allocated → Type 0
Answers tag s r =
    ((pa : ℕ) × (s.next ≤ pa)
      × IsFree (record s { next = pa })
      × (r ≡ given pa (after tag (record s { next = pa }))))
    ⊎ ((last : ℕ) × (s.next ≤ last) × (s.end ≤ last) × (r ≡ no_page (record s { next = last })))

-- With a round for each page up to the end, the loop gives a free page or reaches the end.
alloc_loop-IsReady :
    (n : ℕ) (tag : PageTag) (s : Phys)
    → IsValid s
    → IsReady s
    → s.end ≤ s.next + 4096 * n
    → Answers tag s (alloc_loop (suc n) tag s)
unfolding alloc_loop
alloc_loop-IsReady zero tag s v r h = elim (alloc_round-cases tag s v.size v.small) [
  | inl (inl (e, full)) ↦ inr (s.next, omega arith, omega (arith, h), rw (e, alloc_loop) refl)
  | inl (inr (e, before, live)) ↦ absurd (omega (arith, before, h))
  | inr (inl (e, before, in_ram)) ↦ absurd (omega (arith, before, h))
  | inr (inr (e, f)) ↦ inl (s.next, omega arith, f, rw (e, alloc_loop) refl)
]
alloc_loop-IsReady (suc n) tag s v r h = elim (alloc_round-cases tag s v.size v.small) [
  | inl (inl (e, full)) ↦
      inr (
        s.next,
        omega arith,
        full (λ z. absurd (omega (arith, z, r.start))),
        rw (e, alloc_loop) refl,
      )
  | inl (inr (e, before, live)) ↦
      let dead = r.dead s.next (omega arith) in
      let live' = live r.start (omega (arith, before, r.finish)) in absurd (cc (sym live' ∙ dead))
  | inr (inl (e, before, in_ram)) ↦
      let next : Phys = record s { next = s.next + 4096 } in
      let valid : IsValid next = record { size = v.size; small = omega (arith, in_ram) } in
      let ready : IsReady next = record {
        start = omega (arith, r.start);
        finish = r.finish;
        dead = λ pa up. r.dead pa (omega (arith, up));
      } in
      elim (alloc_loop-IsReady n tag next valid ready (omega (arith, h))) [
        | inl (pa, up, f, given_pa) ↦ inl (pa, omega (arith, up), f, rw (e, alloc_loop) given_pa)
        | inr (last, up, done, none_left) ↦
            inr (last, omega (arith, up), done, rw (e, alloc_loop) none_left)
      ]
  | inr (inr (e, f)) ↦ inl (s.next, omega arith, f, rw (e, alloc_loop) refl)
]

-- Allocation ends, without a panic. From a valid allocator that is ready, it gives a page from the
-- cursor on that was free, tagged and filled with zeros, and leaves the cursor behind it; or it reports
-- that no page is left, with the cursor at the end or behind it.
pub alloc_page-IsReady :
    (tag : PageTag) (s : Phys) → IsValid s → IsReady s → Answers tag s (alloc_page tag s)
unfolding alloc_page
alloc_page-IsReady tag s v r =
    alloc_loop-IsReady ((s.end - s.next + 4095) / 4096) tag s v r (omega arith)

-- Whatever the state, a page that is given was free at the cursor or behind it.
alloc_loop-given :
    (n : ℕ) (tag : PageTag) (s s' : Phys) (pa : ℕ)
    → IsValid s
    → alloc_loop n tag s ≡ given pa s'
    → (s.next ≤ pa) × IsFree (record s { next = pa }) × (s' ≡ after tag (record s { next = pa }))
unfolding alloc_loop
alloc_loop-given zero tag s s' pa v h = absurd cc
alloc_loop-given (suc n) tag s s' pa v h = elim (alloc_round-cases tag s v.size v.small) [
  | inl (inl (e, full)) ↦ absurd (cc (rw (e, alloc_loop) at h))
  | inl (inr (e, before, live)) ↦ absurd (cc (rw (e, alloc_loop) at h))
  | inr (inl (e, before, in_ram)) ↦
      let next : Phys = record s { next = s.next + 4096 } in
      let valid : IsValid next = record { size = v.size; small = omega (arith, in_ram) } in
      let (up, f, same) = alloc_loop-given n tag next s' pa valid (rw (e, alloc_loop) at h) in
      (omega (arith, up), f, same)
  | inr (inr (e, f)) ↦
      let found = rw (e, alloc_loop) at h in
      let same_pa : s.next ≡ pa = cc in
      let same : after tag s ≡ s' = cc in
      (
        omega (arith, same_pa),
        subst (λ k. IsFree (record s { next = k })) same_pa f,
        sym same ∙ ap (λ k. after tag (record s { next = k })) same_pa,
      )
]

alloc_loop-no_page :
    (n : ℕ) (tag : PageTag) (s s' : Phys)
    → IsValid s
    → alloc_loop n tag s ≡ no_page s'
    → (last : ℕ) × (s.next ≤ last) × (last < 2 ^ 64) × (s' ≡ record s { next = last })
unfolding alloc_loop
alloc_loop-no_page zero tag s s' v h = absurd cc
alloc_loop-no_page (suc n) tag s s' v h = elim (alloc_round-cases tag s v.size v.small) [
  | inl (inl (e, full)) ↦
      let found = rw (e, alloc_loop) at h in
      let same : s ≡ s' = cc in (s.next, omega arith, v.small, sym same)
  | inl (inr (e, before, live)) ↦ absurd (cc (rw (e, alloc_loop) at h))
  | inr (inl (e, before, in_ram)) ↦
      let next : Phys = record s { next = s.next + 4096 } in
      let valid : IsValid next = record { size = v.size; small = omega (arith, in_ram) } in
      let (last, up, small, same) =
        alloc_loop-no_page n tag next s' valid (rw (e, alloc_loop) at h) in
      (last, omega (arith, up), small, same)
  | inr (inr (e, f)) ↦ absurd (cc (rw (e, alloc_loop) at h))
]

pub alloc_page-given :
    (tag : PageTag) (s s' : Phys) (pa : ℕ)
    → IsValid s
    → alloc_page tag s ≡ given pa s'
    → (s.next ≤ pa) × IsFree (record s { next = pa }) × (s' ≡ after tag (record s { next = pa }))
unfolding alloc_page
alloc_page-given tag s s' pa = alloc_loop-given (suc ((s.end - s.next + 4095) / 4096)) tag s s' pa

pub alloc_page-no_page :
    (tag : PageTag) (s s' : Phys)
    → IsValid s
    → alloc_page tag s ≡ no_page s'
    → (last : ℕ) × (s.next ≤ last) × (last < 2 ^ 64) × (s' ≡ record s { next = last })
unfolding alloc_page
alloc_page-no_page tag s s' = alloc_loop-no_page (suc ((s.end - s.next + 4095) / 4096)) tag s s'
