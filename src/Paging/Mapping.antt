-- ===== src/Paging/Mapping.antt =====
-- What `map_va` does to the translations (kernel/src/arch/aarch64/page_table.rs).
use capsule_os.Base.{
  ℕ, ◌+◌, ◌/◌, ◌%◌, ◌^◌, ◌≤◌, ◌<◌, ◌≡◌, ◌≢◌, ◌⊎◌, refl, sym, ap, ap₂, subst, ◌∙◌, inl, inr, true,
  false, not, ◌||◌, Bool-cases, none, some, bit_and, ◌==◌, ==_refl, eq_of_==, if◌then◌else◌, arith,
}
use capsule_os.Base.Bits.{bit_and_4095}
use capsule_os.Base.Masks.{bit_and_511}
use capsule_os.Shared.Status.{no_memory}
use capsule_os.Paging.{
  MapFlags, Machine, done, failed, is_table, table_of, page_entry, read_pte, put, va_l0_index,
  va_l1_index, va_l2_index, va_l3_index, after_l3e, map_va, translate_user_va, translate_va,
}
use capsule_os.Paging.Entry.{table_of-page_entry, is_valid-page_entry}
use capsule_os.Paging.Shape.{IsEntry, IsTree}
use capsule_os.Paging.Growth.{read-write_same, read-write_other, deep-IsEntry}
use capsule_os.Paging.Walks.{Agree, kept_l0, index_small}
use capsule_os.Paging.Kept.{after_l3e-page}
use capsule_os.Paging.Reach.{IsPath, walk-IsPath, IsReached, alike, reach}

-- The last write, of the entry of level 3.
abbrev written : ℕ → ℕ → ℕ → MapFlags → Machine → Machine
written l3 va pa flags m = put l3 (va_l3_index va) (page_entry pa flags) m

module _ (label : ℕ → ℕ) (m : Machine) (va pa : ℕ) (flags : MapFlags) (l3 : ℕ) (label3 : ℕ → ℕ)
    (m3 : Machine) (r : IsReached label m va l3 label3 m3) where
  beside :
      (p j : ℕ)
      → 0 < label3 p
      → j < 512
      → (p ≡ l3 → j ≢ va_l3_index va)
      → read_pte p j (written l3 va pa flags m3).words ≡ read_pte p j m3.words
  beside p j pos small other =
      read-write_other p j l3 (va_l3_index va) (page_entry pa flags) m3.words (r.tree.whole p pos)
        (r.tree.whole l3 (omega (arith, r.label3))) small (index_small (va / 2 ^ 12)) other

  above :
      (p j : ℕ)
      → 0 < label3 p
      → label3 p < 2 ^ 27
      → j < 512
      → read_pte p j (written l3 va pa flags m3).words ≡ read_pte p j m3.words
  above p j pos low small =
      beside p j pos small (λ same _. omega (arith, ap label3 same, low, r.label3))

  -- The tree stays one.
  written-IsTree : IsTree label3 (written l3 va pa flags m3)
  written-IsTree = record {
    allocator = r.tree.allocator;
    root = r.tree.root;
    whole = r.tree.whole;
    in_use = r.tree.in_use;
    entries = λ p j pos small. elim (Bool-cases (p == l3)) [
      | inl same ↦
          let deep : 2 ^ 27 ≤ label3 p = omega (arith, ap label3 (eq_of_== p l3 same), r.label3) in
          deep-IsEntry label3 (label3 p) j (read_pte p j (written l3 va pa flags m3).words) deep
      | inr other ↦
          subst (IsEntry label3 (label3 p) j)
            (sym (beside p j pos small (λ same _. absurd (cc (rw (same, ==_refl l3) at other)))))
            (r.tree.entries p j pos small)
    ];
  }

  written-IsPath : IsPath (written l3 va pa flags m3).words va m3.tree.l0_pa r.l1 r.l2 l3
  written-IsPath =
      let l0 = m3.tree.l0_pa in
      let root = r.tree.root in
      let read0 =
        above l0 (va_l0_index va) (omega (arith, root)) (omega (arith, root))
          (index_small (va / 2 ^ 39)) in
      let read1 =
        above r.l1 (va_l1_index va) (omega (arith, r.label1)) (omega (arith, r.label1))
          (index_small (va / 2 ^ 30)) in
      let read2 =
        above r.l2 (va_l2_index va) (omega (arith, r.label2)) (omega (arith, r.label2))
          (index_small (va / 2 ^ 21)) in
      record {
        linked0 = ap is_table read0 ∙ r.path.linked0;
        points0 = ap table_of read0 ∙ r.path.points0;
        linked1 = ap is_table read1 ∙ r.path.linked1;
        points1 = ap table_of read1 ∙ r.path.points1;
        linked2 = ap is_table read2 ∙ r.path.linked2;
        points2 = ap table_of read2 ∙ r.path.points2;
      }

  -- The page is found.
  written-found :
      (offset : ℕ)
      → m3.tree.has_root ≡ true
      → va % 4096 ≡ 0
      → pa % 4096 ≡ 0
      → pa < 2 ^ 48
      → offset < 4096
      → translate_va (written l3 va pa flags m3) (va + offset) ≡ some (pa + offset)
  unfolding translate_va
  written-found offset rooted va_whole pa_whole small less =
      let e = page_entry pa flags in
      let words = (written l3 va pa flags m3).words in
      let low : bit_and (va + offset) 4095 ≡ offset =
        omega (arith, bit_and_4095 (va + offset), va_whole, less) in
      ap (λ b. if not b then none else translate_user_va m3.tree.l0_pa (va + offset) words) rooted
      ∙ walk-IsPath words va m3.tree.l0_pa r.l1 r.l2 l3 offset va_whole less written-IsPath
      ∙ ap (λ x. after_l3e x (va + offset)) (read-write_same l3 (va_l3_index va) e m3.words)
      ∙ after_l3e-page e (va + offset) (is_valid-page_entry pa flags)
      ∙ ap₂ (λ a b. some (a + b)) (table_of-page_entry pa flags pa_whole small) low

  -- Other pages are found, or missed, as before.
  written-other :
      (x : ℕ)
      → x / 4096 % 2 ^ 36 ≢ va / 4096 % 2 ^ 36
      → translate_va (written l3 va pa flags m3) x ≡ translate_va m x
  written-other x other =
      let m' = written l3 va pa flags m3 in
      let agree : Agree label3 l3 (va_l3_index va) m3.words m'.words x = record {
        frame = beside;
        at_l0 = λ h _. absurd (omega (arith, h, r.label3));
        at_l1 = λ h _. absurd (omega (arith, h, r.label3));
        at_l2 = λ h _. absurd (omega (arith, h, r.label3));
        at_l3 = λ h same. absurd (
            other (
              omega
                (arith, h, r.label3, same, bit_and_511 (x / 2 ^ 12), bit_and_511 (va / 2 ^ 12))));
      } in
      alike m m' x r.rooted
        (kept_l0 label3 m3 l3 (va_l3_index va) m'.words x r.tree agree ∙ r.kept x)

-- The two guards.
pub guards :
    (va pa : ℕ) (m : Machine)
    → va % 4096 ≡ 0
    → pa % 4096 ≡ 0
    → m.tree.has_root ≡ true
    → ((not (bit_and va 0xfff == 0) || not (bit_and pa 0xfff == 0)) ≡ false)
      × (not m.tree.has_root ≡ false)
guards va pa m hv hp rooted =
    let v : (bit_and va 0xfff == 0) ≡ true = ground (arith, bit_and_4095 va, hv) in
    let p : (bit_and pa 0xfff == 0) ≡ true = ground (arith, bit_and_4095 pa, hp) in
    (rw (v, p) refl, rw rooted refl)

-- What `map_va` answers for whole pages: the entry is written at the end of the way, or no page is
-- left.
Answered : (ℕ → ℕ) → Machine → ℕ → ℕ → MapFlags → Type 0
Answered label m va pa flags =
    ((l3 : ℕ) × (label' : ℕ → ℕ) × (m3 : Machine) × (map_va va pa flags m
        ≡ done tt (written l3 va pa flags m3))
      × IsReached label m va l3 label' m3)
    ⊎ ((label' : ℕ → ℕ) × (m' : Machine) × (map_va va pa flags m ≡ failed no_memory m')
        × IsTree label' m'
        × ((x : ℕ) → translate_va m' x ≡ translate_va m x))

answer :
    (label : ℕ → ℕ) (m : Machine) (va pa : ℕ) (flags : MapFlags)
    → IsTree label m
    → m.tree.has_root ≡ true
    → va % 4096 ≡ 0
    → pa % 4096 ≡ 0
    → Answered label m va pa flags
unfolding map_va Answered
answer label m va pa flags tree rooted hv hp =
    let (whole, root) = guards va pa m hv hp rooted in
    elim (reach label m va tree) [
      | inl (l3, label', m3, e, r) ↦ inl (l3, label', m3, rw (map_va, whole, root, e) refl, r)
      | inr (label', m', e, tree', kept) ↦
          inr (label', m', rw (map_va, whole, root, e) refl, tree', kept)
    ]

-- In a tree of page tables, mapping a page makes each of its addresses translate to the same offset in
-- the physical page, which lies below 2 ^ 48 -- whatever tables had to be made and whatever blocks had
-- to be split -- and the root stays; or no page is left for a table, and `NoMemory` is reported. The
-- allocator never panics.
pub map_va-translate_va :
    (label : ℕ → ℕ) (m : Machine) (va pa offset : ℕ) (flags : MapFlags)
    → IsTree label m
    → m.tree.has_root ≡ true
    → va % 4096 ≡ 0
    → pa % 4096 ≡ 0
    → pa < 2 ^ 48
    → offset < 4096
    → ((m' : Machine) × (map_va va pa flags m ≡ done tt m')
        × (m'.tree.l0_pa ≡ m.tree.l0_pa)
        × (translate_va m' (va + offset) ≡ some (pa + offset)))
      ⊎ ((m' : Machine) × (map_va va pa flags m ≡ failed no_memory m'))
unfolding Answered
map_va-translate_va label m va pa offset flags tree rooted hv hp small less =
    elim (answer label m va pa flags tree rooted hv hp) [
      | inl (l3, label', m3, e, r) ↦ inl (
        written l3 va pa flags m3,
        e,
        r.root,
        written-found label m va pa flags l3 label' m3 r offset (r.rooted ∙ rooted) hv hp small
            less,
      )
      | inr (label', m', e, tree', kept) ↦ inr (m', e)
    ]

-- In a tree of page tables, mapping a page leaves the translation of every address of another page as it
-- was -- in a block that is split, and when no page is left for a table, too.
pub map_va-other :
    (label : ℕ → ℕ) (m : Machine) (va pa x : ℕ) (flags : MapFlags)
    → IsTree label m
    → m.tree.has_root ≡ true
    → va % 4096 ≡ 0
    → pa % 4096 ≡ 0
    → x / 4096 % 2 ^ 36 ≢ va / 4096 % 2 ^ 36
    → ((m' : Machine) × (map_va va pa flags m ≡ done tt m')
        × (translate_va m' x ≡ translate_va m x))
      ⊎ ((m' : Machine) × (map_va va pa flags m ≡ failed no_memory m')
          × (translate_va m' x ≡ translate_va m x))
unfolding Answered
map_va-other label m va pa x flags tree rooted hv hp other =
    elim (answer label m va pa flags tree rooted hv hp) [
      | inl (l3, label', m3, e, r) ↦
          inl
            (written l3 va pa flags m3, e, written-other label m va pa flags l3 label' m3 r x other)
      | inr (label', m', e, tree', kept) ↦ inr (m', e, kept x)
    ]

-- A tree of page tables stays one when a page is mapped, and when no page is left for a table: every
-- table is a page in use that is reached in one way only, and every block lies at a multiple of its
-- size.
pub map_va-IsTree :
    (label : ℕ → ℕ) (m : Machine) (va pa : ℕ) (flags : MapFlags)
    → IsTree label m
    → m.tree.has_root ≡ true
    → va % 4096 ≡ 0
    → pa % 4096 ≡ 0
    → ((label' : ℕ → ℕ) × (m' : Machine) × (map_va va pa flags m ≡ done tt m') × IsTree label' m')
      ⊎ ((label' : ℕ → ℕ) × (m' : Machine) × (map_va va pa flags m ≡ failed no_memory m')
          × IsTree label' m')
unfolding Answered
map_va-IsTree label m va pa flags tree rooted hv hp =
    elim (answer label m va pa flags tree rooted hv hp) [
      | inl (l3, label', m3, e, r) ↦
          inl (
            label',
            written l3 va pa flags m3,
            e,
            written-IsTree label m va pa flags l3 label' m3 r,
          )
      | inr (label', m', e, tree', kept) ↦ inr (label', m', e, tree')
    ]
