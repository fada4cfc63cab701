-- ===== src/Paging/Allocation.antt =====
-- The pages that the page tables are given (kernel/src/arch/aarch64/page_table.rs, phys.rs).
use capsule_os.Base.{
  ℕ, zero, suc, ◌+◌, ◌/◌, ◌%◌, ◌-◌, ◌≤◌, ◌<◌, ◌≡◌, ◌⊎◌, refl, ap, subst, ◌∙◌, inl, inr, false,
  Bool-cases, List, take, leb, ◌==◌, arith,
}
use capsule_os.Shared.Status.{no_memory}
use capsule_os.Memory.Tracker.{
  is_live_pt_page, register_pt_page, live_slots, live_slots-register_ne,
}
use capsule_os.Memory.Pages.{
  Phys, page_table, zero_page, given, no_page, alloc_page, alloc_loop, ram_base, ram_size,
}
use capsule_os.Memory.Pages.Cursor.{
  after, IsValid, IsReady, after-IsValid, alloc_page-IsReady, alloc_page-no_page, alloc_round-cases,
}
use capsule_os.Paging.{Machine, done, failed, alloc_pt_page, track}

-- An allocator that gives whole pages.
pub record IsAllocator (s : Phys) : Type 0 where
  pub valid : IsValid s
  pub ready : IsReady s
  pub whole : s.next % 4096 ≡ 0

-- The cursor moves by whole pages.
alloc_loop-whole :
    (n : ℕ) (s s' : Phys) (pa : ℕ)
    → IsValid s
    → s.next % 4096 ≡ 0
    → alloc_loop n page_table s ≡ given pa s'
    → pa % 4096 ≡ 0
unfolding alloc_loop
alloc_loop-whole zero s s' pa v w h = absurd cc
alloc_loop-whole (suc n) s s' pa v w h = elim (alloc_round-cases page_table s v.size v.small) [
  | inl (inl (e, full)) ↦ absurd (cc (rw (e, alloc_loop) at h))
  | inl (inr (e, before, live)) ↦ absurd (cc (rw (e, alloc_loop) at h))
  | inr (inl (e, before, in_ram)) ↦
      let next : Phys = record s { next = s.next + 4096 } in
      let valid : IsValid next = record { size = v.size; small = omega (arith, in_ram) } in
      alloc_loop-whole n next s' pa valid (omega (arith, w)) (rw (e, alloc_loop) at h)
  | inr (inr (e, f)) ↦
      let found = rw (e, alloc_loop) at h in
      let same_pa : s.next ≡ pa = cc in omega (arith, same_pa, w)
]

alloc_loop-whole_end :
    (n : ℕ) (s s' : Phys)
    → IsValid s
    → s.next % 4096 ≡ 0
    → alloc_loop n page_table s ≡ no_page s'
    → s'.next % 4096 ≡ 0
unfolding alloc_loop
alloc_loop-whole_end zero s s' v w h = absurd cc
alloc_loop-whole_end (suc n) s s' v w h = elim (alloc_round-cases page_table s v.size v.small) [
  | inl (inl (e, full)) ↦
      let found = rw (e, alloc_loop) at h in
      let same : s ≡ s' = cc in subst (λ k. k.next % 4096 ≡ 0) same w
  | inl (inr (e, before, live)) ↦ absurd (cc (rw (e, alloc_loop) at h))
  | inr (inl (e, before, in_ram)) ↦
      let next : Phys = record s { next = s.next + 4096 } in
      let valid : IsValid next = record { size = v.size; small = omega (arith, in_ram) } in
      alloc_loop-whole_end n next s' valid (omega (arith, w)) (rw (e, alloc_loop) at h)
  | inr (inr (e, f)) ↦ absurd (cc (rw (e, alloc_loop) at h))
]

alloc_page-whole :
    (s s' : Phys)
    → IsAllocator s
    → ((pa : ℕ) → alloc_page page_table s ≡ given pa s' → pa % 4096 ≡ 0)
      × (alloc_page page_table s ≡ no_page s' → s'.next % 4096 ≡ 0)
unfolding alloc_page
alloc_page-whole s s' a =
    let n = suc ((s.end - s.next + 4095) / 4096) in
    (λ pa. alloc_loop-whole n s s' pa a.valid a.whole, alloc_loop-whole_end n s s' a.valid a.whole)

-- The machine after a page is given to the page tables.
abbrev pub granted : ℕ → Machine → Machine
granted pa m = record m {
  phys = after page_table (record m.phys { next = pa });
  words = zero_page pa m.words;
}

-- What is known of the page.
pub record IsGranted (pa : ℕ) (s : Phys) : Type 0 where
  pub above : s.next ≤ pa
  pub whole : pa % 4096 ≡ 0
  pub low : ram_base ≤ pa
  pub in_ram : pa < ram_base + ram_size
  pub allocator : IsAllocator (after page_table (record s { next = pa }))

-- What is kept when no page is left.
pub record IsRefused (m m' : Machine) : Type 0 where
  pub words : m'.words ≡ m.words
  pub tree : m'.tree ≡ m.tree
  pub allocator : IsAllocator m'.phys
  pub above : m.phys.next ≤ m'.phys.next

-- The two answers of `alloc_pt_page`.
pub alloc_pt_page-cases :
    (m : Machine)
    → IsAllocator m.phys
    → ((pa : ℕ) × IsGranted pa m.phys × (alloc_pt_page m ≡ done pa (granted pa m)))
      ⊎ ((m' : Machine) × (alloc_pt_page m ≡ failed no_memory m') × IsRefused m m')
unfolding alloc_pt_page
alloc_pt_page-cases m a = elim (alloc_page-IsReady page_table m.phys a.valid a.ready) [
  | inl (pa, up, f, e) ↦
      let next = after page_table (record m.phys { next = pa }) in
      let whole = (alloc_page-whole m.phys next a).0 pa e in
      let start = record m.phys { next = pa } in
      let v : IsValid start = record { size = a.valid.size; small = omega (arith, f.in_ram.1) } in
      let allocator : IsAllocator (after page_table start) = record {
        valid = after-IsValid page_table start v f;
        ready = record {
          start = omega (arith, f.in_ram.0);
          finish = a.ready.finish;
          dead = λ p h. a.ready.dead p (omega (arith, up, h));
        };
        whole = omega (arith, whole);
      } in
      inl (
        pa,
        record {
          above = up;
          whole = whole;
          low = f.in_ram.0;
          in_ram = f.in_ram.1;
          allocator = allocator;
        },
        rw (e, alloc_pt_page) refl,
      )
  | inr (last, up, full, e) ↦
      let s' = record m.phys { next = last } in
      let (at, _, small, same) = alloc_page-no_page page_table m.phys s' a.valid e in
      let same_next : last ≡ at = ap (λ s. s.next) same in
      let allocator : IsAllocator s' = record {
        valid = record { size = a.valid.size; small = omega (arith, small, same_next) };
        ready = record {
          start = omega (arith, a.ready.start, up);
          finish = a.ready.finish;
          dead = λ p h. a.ready.dead p (omega (arith, up, h));
        };
        whole = (alloc_page-whole m.phys s' a).1 e;
      } in
      inr (
        record m { phys = s' },
        rw (e, alloc_pt_page) refl,
        record { words = refl; tree = refl; allocator = allocator; above = up },
      )
]

-- A page in use, below the cursor, may be registered as live.
live-register :
    (pa p : ℕ) (slots : List ℕ)
    → 0 < pa
    → pa < p
    → is_live_pt_page p slots ≡ false
    → is_live_pt_page p (register_pt_page pa slots) ≡ false
live-register pa p slots pos less h =
    let nonzero : (p == 0) ≡ false = ground (arith, less) in
    let used : (pa == 0) ≡ false = ground (arith, pos) in
    let dead : live_slots p slots ≡ false = rw nonzero at h in
    rw (nonzero, used)
      (live_slots-register_ne pa p slots (omega (arith, less)) (omega (arith, less)) ∙ dead)

pub track-IsAllocator :
    (pa : ℕ) (m : Machine)
    → IsAllocator m.phys
    → 0 < pa
    → pa < m.phys.next
    → IsAllocator (track pa m).phys
unfolding track
track-IsAllocator pa m a pos less = elim (Bool-cases (leb 64 m.tree.count)) [
  | inl full ↦ rw (full, track) a
  | inr room ↦ elim (Bool-cases (live_slots pa (take m.tree.count m.tree.tracked))) [
    | inl known ↦ rw (room, known, track) a
    | inr fresh ↦
        rw (room, fresh, track)
          (record {
            valid = record { size = a.valid.size; small = a.valid.small };
            ready = record {
              start = a.ready.start;
              finish = a.ready.finish;
              dead = λ p h.
                  live-register pa p m.phys.live pos (omega (arith, less, h)) (a.ready.dead p h);
            };
            whole = a.whole;
          })
  ]
]

-- `track` changes no word, and neither the root nor the cursor.
pub track-keeps :
    (pa : ℕ) (m : Machine)
    → ((track pa m).words ≡ m.words)
      × ((track pa m).tree.l0_pa ≡ m.tree.l0_pa)
      × ((track pa m).tree.has_root ≡ m.tree.has_root)
      × ((track pa m).phys.next ≡ m.phys.next)
unfolding track
track-keeps pa m = elim (Bool-cases (leb 64 m.tree.count)) [
  | inl full ↦ rw (full, track) (refl, refl, refl, refl)
  | inr room ↦ elim (Bool-cases (live_slots pa (take m.tree.count m.tree.tracked))) [
    | inl known ↦ rw (room, known, track) (refl, refl, refl, refl)
    | inr fresh ↦ rw (room, fresh, track) (refl, refl, refl, refl)
  ]
]
