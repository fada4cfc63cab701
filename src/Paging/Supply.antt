-- ===== src/Paging/Supply.antt =====
-- `map_va` with enough free pages (kernel/src/arch/aarch64/page_table.rs, phys.rs): three are enough, one
-- for each level below the root.
use capsule_os.Base.{
  ℕ, suc, ◌+◌, ◌*◌, ◌/◌, ◌%◌, ◌^◌, ◌≤◌, ◌<◌, ◌≡◌, ◌≢◌, refl, sym, ap, subst, ◌∙◌, inl, inr, true,
  false, Bool-cases, some, take, get_elem?, get_elem?-set_ne, bit_and, leb, ◌==◌, eq_of_==, arith,
}
use capsule_os.Shared.Status.{no_memory}
use capsule_os.Memory.Tracker.{live_slots}
use capsule_os.Memory.Pages.{
  Phys, page_table, tag_code, pa_to_pfn, page, alloc_round, alloc_loop, alloc_page,
}
use capsule_os.Memory.Pages.Cursor.{after}
use capsule_os.Paging.{
  MapFlags, Machine, Run, done, failed, is_valid, table_of, table_entry, read_pte, put, va_l0_index,
  va_l1_index, va_l2_index, alloc_pt_page, track, shatter, shatter_l1_block, shatter_l2_block,
  refuse_l0_block, next_table, l3_table, map_va, translate_va,
}
use capsule_os.Paging.Allocation.{IsAllocator, granted}
use capsule_os.Paging.Shape.{IsTree}
use capsule_os.Paging.Growth.{with_parts}
use capsule_os.Paging.Walks.{label_l1, l1_below, index_small}
use capsule_os.Paging.Steps.{step_l0, step_l1}
use capsule_os.Paging.Mapping.{guards, map_va-translate_va}

-- The next `k` pages at the cursor are before the end and free.
pub record HasPages (k : ℕ) (s : Phys) : Type 0 where
  pub room : s.next + 4096 * k ≤ s.end
  pub free : (p : ℕ) → s.next ≤ p → p < s.next + 4096 * k → get_elem? s.tags (pa_to_pfn p) ≡ some 0

fewer : (k : ℕ) (s : Phys) → HasPages (suc k) s → HasPages k s
fewer k s h = record {
  room = omega (arith, h.room);
  free = λ p low high. h.free p low (omega (arith, high));
}

-- The page at the cursor is given, and one fewer is left.
alloc_round-next :
    (k : ℕ) (s : Phys)
    → IsAllocator s
    → HasPages (suc k) s
    → alloc_round page_table s ≡ page s.next (after page_table s)
unfolding alloc_round
alloc_round-next k s a h =
    let used : (s.next == 0) ≡ false = ground (arith, a.ready.start) in
    let before : leb s.end s.next ≡ false = ground (arith, h.room) in
    let tag = h.free s.next (omega arith) (omega arith) in
    let dead = a.ready.dead s.next (omega arith) in
    let exact : (s.next + 4096) % 2 ^ 64 ≡ s.next + 4096 = omega (arith, h.room, a.ready.finish) in
    rw (alloc_round, used, before, tag, dead, exact) refl

after-HasPages :
    (k : ℕ) (s : Phys) → IsAllocator s → HasPages (suc k) s → HasPages k (after page_table s)
after-HasPages k s a h = record {
  room = omega (arith, h.room);
  free = λ p low high.
      let apart : pa_to_pfn s.next ≢ pa_to_pfn p =
        λ same. omega (arith, same, low, high, h.room, a.ready.start, a.ready.finish) in
      get_elem?-set_ne s.tags (pa_to_pfn s.next) (pa_to_pfn p) (tag_code page_table) apart
      ∙ h.free p (omega (arith, low)) (omega (arith, high));
}

alloc_pt_page-next :
    (k : ℕ) (m : Machine)
    → IsAllocator m.phys
    → HasPages (suc k) m.phys
    → alloc_pt_page m ≡ done m.phys.next (granted m.phys.next m)
unfolding alloc_pt_page alloc_page alloc_loop
alloc_pt_page-next k m a h = rw (alloc_pt_page, alloc_loop, alloc_round-next k m.phys a h) refl

track-HasPages : (k pa : ℕ) (m : Machine) → HasPages k m.phys → HasPages k (track pa m).phys
unfolding track
track-HasPages k pa m h = elim (Bool-cases (leb 64 m.tree.count)) [
  | inl full ↦ rw (full, track) h
  | inr room ↦ elim (Bool-cases (live_slots pa (take m.tree.count m.tree.tracked))) [
    | inl known ↦ rw (room, known, track) h
    | inr fresh ↦ rw (room, fresh, track) (record { room = h.room; free = h.free })
  ]
]

-- A step is made, and so many pages are left.
abbrev Supplied : ℕ → Run ℕ → Type 0
Supplied k r = (c : ℕ) × (m' : Machine) × (r ≡ done c m') × HasPages k m'.phys

Supplied-pages :
    (k : ℕ) (r : Run ℕ) (c : ℕ) (m : Machine) → Supplied k r → r ≡ done c m → HasPages k m.phys
Supplied-pages k r c m (c', m', e', pages) e =
    let same : m' ≡ m = cc (sym e' ∙ e) in subst (λ x. HasPages k x.phys) same pages

not_refused :
    {A : Type 0} (k : ℕ) (r : Run ℕ) (m : Machine) → Supplied k r → r ≡ failed no_memory m → A
not_refused k r m (c, m', e', pages) e = absurd (cc (sym e' ∙ e))

shatter-Supplied :
    (k width kind t i e : ℕ) (m : Machine)
    → IsAllocator m.phys
    → HasPages (suc k) m.phys
    → Supplied k (shatter width kind t i e m)
unfolding shatter
shatter-Supplied k width kind t i e m a h =
    let c = m.phys.next in
    let left = track-HasPages k c (granted c m) (after-HasPages k m.phys a h) in
    (c, with_parts width kind t i e c m, rw (shatter, alloc_pt_page-next k m a h) refl, left)

next_table-Supplied :
    (split : ℕ → ℕ → ℕ → Machine → Run ℕ) (k t i : ℕ) (m : Machine)
    → let e = read_pte t i m.words in
      IsAllocator m.phys
      → HasPages (suc k) m.phys
      → (is_valid e ≡ true → bit_and e 2 ≡ 0 → Supplied k (split t i e m))
      → Supplied k (next_table split t i m)
unfolding next_table
next_table-Supplied split k t i m a h by_split =
    let e = read_pte t i m.words in
    let c = m.phys.next in
    let given_c = alloc_pt_page-next k m a h in
    elim (Bool-cases (bit_and e 1 == 0)) [
      | inl no_valid ↦
          let linked = put t i (table_entry c) (granted c m) in
          (
            c,
            track c linked,
            rw (next_table, no_valid, given_c) refl,
            track-HasPages k c linked (after-HasPages k m.phys a h),
          )
      | inr valid ↦ elim (Bool-cases (bit_and e 2 == 0)) [
        | inl block ↦
            let split_it = by_split (rw valid refl) (eq_of_== (bit_and e 2) 0 block) in
            subst (Supplied k) (sym (rw (next_table, valid, block) refl)) split_it
        | inr more ↦ (table_of e, m, rw (next_table, valid, more) refl, fewer k m.phys h)
      ]
    ]

l3_table-done :
    (label : ℕ → ℕ) (m : Machine) (va : ℕ)
    → IsTree label m
    → HasPages 3 m.phys
    → (l3 : ℕ) × (m3 : Machine) × (l3_table va m ≡ done l3 m3)
unfolding l3_table
l3_table-done label m va tree h =
    let l0 = m.tree.l0_pa in
    let i0 = va_l0_index va in
    let small0 = index_small (va / 2 ^ 39) in
    let root_pos : 0 < label l0 = omega (arith, tree.root) in
    let r0 = next_table-Supplied refuse_l0_block 2 l0 i0 m tree.allocator h (λ valid block.
      let table = (tree.entries l0 i0 root_pos small0).no_block (omega (arith, tree.root)) valid in
      absurd (cc (rw (block, valid) at table))) in
    elim (step_l0 label m l0 i0 tree tree.root small0) [
      | inr (m', e, _) ↦ not_refused 2 (next_table refuse_l0_block l0 i0 m) m' r0 e
      | inl (l1, label1, m1, e1, s1) ↦
          let h1 = Supplied-pages 2 (next_table refuse_l0_block l0 i0 m) l1 m1 r0 e1 in
          let known1 : label1 l1 ≡ label_l1 va =
            s1.child ∙ ap (λ l. 512 * l + i0) tree.root ∙ l1_below va in
          let i1 = va_l1_index va in
          let a1 = s1.tree.allocator in
          let r1 =
            next_table-Supplied shatter_l1_block 1 l1 i1 m1 a1 h1
              (λ _ _. shatter-Supplied 1 0x20_0000 1 l1 i1 (read_pte l1 i1 m1.words) m1 a1 h1) in
          elim (step_l1 label1 m1 l1 i1 s1.tree (omega (arith, known1)) (omega (arith, known1))
            (index_small (va / 2 ^ 30))) [
              | inr (m', e, _) ↦ not_refused 1 (next_table shatter_l1_block l1 i1 m1) m' r1 e
              | inl (l2, label2, m2, e2, s2) ↦
                  let h2 = Supplied-pages 1 (next_table shatter_l1_block l1 i1 m1) l2 m2 r1 e2 in
                  let i2 = va_l2_index va in
                  let a2 = s2.tree.allocator in
                  let (l3, m3, e3, _) =
                    next_table-Supplied shatter_l2_block 0 l2 i2 m2 a2 h2 (λ _ _.
                      shatter-Supplied 0 0x1000 3 l2 i2 (read_pte l2 i2 m2.words) m2 a2 h2) in
                  (l3, m3, rw (l3_table, e1, e2, e3) refl)
            ]
    ]

-- In a tree of page tables, when the next three pages of the allocator are free, `map_va` of a page
-- succeeds, the root stays, and each address of the page then translates to the same offset in the
-- physical page, which lies below 2 ^ 48.
pub map_va-done :
    (label : ℕ → ℕ) (m : Machine) (va pa offset : ℕ) (flags : MapFlags)
    → IsTree label m
    → HasPages 3 m.phys
    → m.tree.has_root ≡ true
    → va % 4096 ≡ 0
    → pa % 4096 ≡ 0
    → pa < 2 ^ 48
    → offset < 4096
    → (m' : Machine) × (map_va va pa flags m ≡ done tt m')
      × (m'.tree.l0_pa ≡ m.tree.l0_pa)
      × (translate_va m' (va + offset) ≡ some (pa + offset))
unfolding map_va
map_va-done label m va pa offset flags tree h rooted hv hp small less =
    let (whole, root) = guards va pa m hv hp rooted in
    let (l3, m3, e) = l3_table-done label m va tree h in
    elim (map_va-translate_va label m va pa offset flags tree rooted hv hp small less) [
      | inl mapped ↦ mapped
      | inr (m', refused) ↦ absurd (cc (rw (map_va, whole, root, e) at refused))
    ]
