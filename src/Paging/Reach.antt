-- ===== src/Paging/Reach.antt =====
-- The way of `map_va` to the table of level 3 (kernel/src/arch/aarch64/page_table.rs).
use capsule_os.Base.{
  ℕ, ◌+◌, ◌*◌, ◌/◌, ◌%◌, ◌^◌, ◌<◌, ◌≡◌, ◌⊎◌, refl, sym, ap, ap₂, subst, ◌∙◌, inl, inr, true, not,
  none, bit_and, if◌then◌else◌, arith,
}
use capsule_os.Shared.Status.{no_memory}
use capsule_os.Paging.{
  Machine, Run, done, failed, is_table, table_of, read_pte, va_l0_index, va_l1_index, va_l2_index,
  va_l3_index, after_l0e, after_l1e, after_l2e, after_l3e, l3_table, translate_user_va,
  translate_va,
}
use capsule_os.Paging.Allocation.{IsRefused}
use capsule_os.Paging.Shape.{IsEntry, IsTree}
use capsule_os.Paging.Walks.{
  label_l1, label_l2, label_l3, l1_below, l2_below, l3_below, index_small,
}
use capsule_os.Paging.Kept.{after_l0e-table, after_l1e-table, after_l2e-table}
use capsule_os.Paging.Steps.{IsStep, step_l0, step_l1, step_l2}

-- The tables on the walk of `va` to the table of level 3, and the words that link them.
pub record IsPath (words : ℕ → ℕ) (va l0 l1 l2 l3 : ℕ) : Type 0 where
  pub linked0 : is_table (read_pte l0 (va_l0_index va) words) ≡ true
  pub points0 : table_of (read_pte l0 (va_l0_index va) words) ≡ l1
  pub linked1 : is_table (read_pte l1 (va_l1_index va) words) ≡ true
  pub points1 : table_of (read_pte l1 (va_l1_index va) words) ≡ l2
  pub linked2 : is_table (read_pte l2 (va_l2_index va) words) ≡ true
  pub points2 : table_of (read_pte l2 (va_l2_index va) words) ≡ l3

-- On a path, the walk of an address in the page ends at the entry of level 3.
pub walk-IsPath :
    (words : ℕ → ℕ) (va l0 l1 l2 l3 offset : ℕ)
    → va % 4096 ≡ 0
    → offset < 4096
    → IsPath words va l0 l1 l2 l3
    → translate_user_va l0 (va + offset) words
      ≡ after_l3e (read_pte l3 (va_l3_index va) words) (va + offset)
walk-IsPath words va l0 l1 l2 l3 offset whole small path =
    let x = va + offset in
    let i0 : x / 2 ^ 39 ≡ va / 2 ^ 39 = omega arith in
    let i1 : x / 2 ^ 30 ≡ va / 2 ^ 30 = omega arith in
    let i2 : x / 2 ^ 21 ≡ va / 2 ^ 21 = omega arith in
    let i3 : x / 2 ^ 12 ≡ va / 2 ^ 12 = omega arith in
    ap (λ k. after_l0e (read_pte l0 (bit_and k 511) words) x words) i0
    ∙ after_l0e-table (read_pte l0 (va_l0_index va) words) x words path.linked0
    ∙ ap₂ (λ t k. after_l1e (read_pte t (bit_and k 511) words) x words) path.points0 i1
    ∙ after_l1e-table (read_pte l1 (va_l1_index va) words) x words path.linked1
    ∙ ap₂ (λ t k. after_l2e (read_pte t (bit_and k 511) words) x words) path.points1 i2
    ∙ after_l2e-table (read_pte l2 (va_l2_index va) words) x words path.linked2
    ∙ ap₂ (λ t k. after_l3e (read_pte t (bit_and k 511) words) x) path.points2 i3

-- What `map_va` has reached before its last write.
pub record IsReached (label : ℕ → ℕ) (m : Machine) (va l3 : ℕ) (label' : ℕ → ℕ) (m' : Machine)
    : Type 0 where
  pub tree : IsTree label' m'
  pub l1 : ℕ
  pub l2 : ℕ
  pub path : IsPath m'.words va m'.tree.l0_pa l1 l2 l3
  pub label1 : label' l1 ≡ label_l1 va
  pub label2 : label' l2 ≡ label_l2 va
  pub label3 : label' l3 ≡ label_l3 va
  pub root : m'.tree.l0_pa ≡ m.tree.l0_pa
  pub rooted : m'.tree.has_root ≡ m.tree.has_root
  pub kept :
      (x : ℕ)
      → translate_user_va m'.tree.l0_pa x m'.words ≡ translate_user_va m.tree.l0_pa x m.words

-- The way is found, or no page is left for a table; the translations are kept.
abbrev pub Reached : (ℕ → ℕ) → Machine → ℕ → Run ℕ → Type 0
Reached label m va r =
    ((l3 : ℕ) × (label' : ℕ → ℕ) × (m' : Machine) × (r ≡ done l3 m')
      × IsReached label m va l3 label' m')
    ⊎ ((label' : ℕ → ℕ) × (m' : Machine) × (r ≡ failed no_memory m')
        × IsTree label' m'
        × ((x : ℕ) → translate_va m' x ≡ translate_va m x))

-- Equal trees and words translate alike, and so do walks that agree from one root to the other.
pub alike :
    (m m' : Machine) (x : ℕ)
    → m'.tree.has_root ≡ m.tree.has_root
    → translate_user_va m'.tree.l0_pa x m'.words ≡ translate_user_va m.tree.l0_pa x m.words
    → translate_va m' x ≡ translate_va m x
unfolding translate_va
alike m m' x rooted h = ap₂ (λ b r. if not b then none else r) rooted h

refused-alike : (m m' : Machine) (x : ℕ) → IsRefused m m' → translate_va m' x ≡ translate_va m x
refused-alike m m' x same =
    alike m m' x (ap (λ t. t.has_root) same.tree)
      (ap₂ (λ t w. translate_user_va t.l0_pa x w) same.tree same.words)

-- The tree as it was is still one.
refused-IsTree :
    (label : ℕ → ℕ) (m m' : Machine) → IsTree label m → IsRefused m m' → IsTree label m'
refused-IsTree label m m' tree same = record {
  allocator = same.allocator;
  root = ap (λ t. label t.l0_pa) same.tree ∙ tree.root;
  whole = tree.whole;
  in_use = λ t h. omega (arith, tree.in_use t h, same.above);
  entries = λ t j h small.
      subst (λ w. IsEntry label (label t) j (read_pte t j w)) (sym same.words)
        (tree.entries t j h small);
}

-- A later step keeps what an earlier one reads, at a table with a smaller label.
read_kept :
    (label : ℕ → ℕ) (m : Machine) (t i c : ℕ) (label' : ℕ → ℕ) (m' : Machine) (p j : ℕ)
    → IsStep label m t i c label' m'
    → 0 < label p
    → label p < label t
    → j < 512
    → read_pte p j m'.words ≡ read_pte p j m.words
read_kept label m t i c label' m' p j s pos less small =
    s.frame p j pos small (λ same _. omega (arith, ap label same, less))

-- Three steps make a path.
path_of_steps :
    (label label1 label2 label3 : ℕ → ℕ) (m m1 m2 m3 : Machine) (va l1 l2 l3 : ℕ)
    → IsTree label m
    → IsStep label m m.tree.l0_pa (va_l0_index va) l1 label1 m1
    → IsStep label1 m1 l1 (va_l1_index va) l2 label2 m2
    → IsStep label2 m2 l2 (va_l2_index va) l3 label3 m3
    → label1 l1 ≡ label_l1 va
    → label2 l2 ≡ label_l2 va
    → IsReached label m va l3 label3 m3
path_of_steps label label1 label2 label3 m m1 m2 m3 va l1 l2 l3 tree s1 s2 s3 known1 known2 =
    let l0 = m.tree.l0_pa in
    let i0 = index_small (va / 2 ^ 39) in
    let i1 = index_small (va / 2 ^ 30) in
    let root1 : label1 l0 ≡ 1 = s1.extends l0 (omega (arith, tree.root)) ∙ tree.root in
    let root2 : label2 l0 ≡ 1 = s2.extends l0 (omega (arith, root1)) ∙ root1 in
    let still1 : label2 l1 ≡ label_l1 va = s2.extends l1 (omega (arith, known1)) ∙ known1 in
    let still2 : label3 l2 ≡ label_l2 va = s3.extends l2 (omega (arith, known2)) ∙ known2 in
    let same_root : m3.tree.l0_pa ≡ l0 = s3.root ∙ s2.root ∙ s1.root in
    let read0 : read_pte l0 (va_l0_index va) m3.words ≡ read_pte l0 (va_l0_index va) m1.words =
      read_kept label2 m2 l2 (va_l2_index va) l3 label3 m3 l0 (va_l0_index va) s3
        (omega (arith, root2)) (omega (arith, root2, known2)) i0
      ∙ read_kept label1 m1 l1 (va_l1_index va) l2 label2 m2 l0 (va_l0_index va) s2
          (omega (arith, root1)) (omega (arith, root1, known1)) i0 in
    let read1 : read_pte l1 (va_l1_index va) m3.words ≡ read_pte l1 (va_l1_index va) m2.words =
      read_kept label2 m2 l2 (va_l2_index va) l3 label3 m3 l1 (va_l1_index va) s3
        (omega (arith, still1)) (omega (arith, still1, known2)) i1 in
    record {
      tree = s3.tree;
      l1 = l1;
      l2 = l2;
      path =
          subst (λ r. IsPath m3.words va r l1 l2 l3) (sym same_root)
            (record {
              linked0 = ap is_table read0 ∙ s1.linked;
              points0 = ap table_of read0 ∙ s1.points;
              linked1 = ap is_table read1 ∙ s2.linked;
              points1 = ap table_of read1 ∙ s2.points;
              linked2 = s3.linked;
              points2 = s3.points;
            });
      label1 = s3.extends l1 (omega (arith, still1)) ∙ still1;
      label2 = still2;
      label3 = s3.child ∙ ap (λ l. 512 * l + va_l2_index va) known2 ∙ l3_below va;
      root = same_root;
      rooted = s3.rooted ∙ s2.rooted ∙ s1.rooted;
      kept = λ x. s3.kept x ∙ s2.kept x ∙ s1.kept x;
    }

pub reach :
    (label : ℕ → ℕ) (m : Machine) (va : ℕ) → IsTree label m → Reached label m va (l3_table va m)
unfolding l3_table
reach label m va tree =
    let i0 = index_small (va / 2 ^ 39) in
    let i1 = index_small (va / 2 ^ 30) in
    let i2 = index_small (va / 2 ^ 21) in
    let l0 = m.tree.l0_pa in
    elim (step_l0 label m l0 (va_l0_index va) tree tree.root i0) [
      | inr (m', e, same) ↦ inr (
        label,
        m',
        rw (l3_table, e) refl,
        refused-IsTree label m m' tree same,
        λ x. refused-alike m m' x same,
      )
      | inl (l1, label1, m1, e1, s1) ↦
          let known1 : label1 l1 ≡ label_l1 va =
            s1.child ∙ ap (λ l. 512 * l + va_l0_index va) tree.root ∙ l1_below va in
          elim (step_l1 label1 m1 l1 (va_l1_index va) s1.tree (omega (arith, known1))
            (omega (arith, known1)) i1) [
              | inr (m', e, same) ↦ inr (
                label1,
                m',
                rw (l3_table, e1, e) refl,
                refused-IsTree label1 m1 m' s1.tree same,
                λ x. refused-alike m1 m' x same ∙ alike m m1 x s1.rooted (s1.kept x),
              )
              | inl (l2, label2, m2, e2, s2) ↦
                  let known2 : label2 l2 ≡ label_l2 va =
                    s2.child ∙ ap (λ l. 512 * l + va_l1_index va) known1 ∙ l2_below va in
                  elim (step_l2 label2 m2 l2 (va_l2_index va) s2.tree (omega (arith, known2))
                    (omega (arith, known2)) i2) [
                      | inr (m', e, same) ↦ inr (
                        label2,
                        m',
                        rw (l3_table, e1, e2, e) refl,
                        refused-IsTree label2 m2 m' s2.tree same,
                        λ x.
                            refused-alike m2 m' x same
                            ∙ alike m1 m2 x s2.rooted (s2.kept x)
                            ∙ alike m m1 x s1.rooted (s1.kept x),
                      )
                      | inl (l3, label3, m3, e3, s3) ↦ inl (
                        l3,
                        label3,
                        m3,
                        rw (l3_table, e1, e2, e3) refl,
                        path_of_steps label label1 label2 label3 m m1 m2 m3 va l1 l2 l3 tree s1 s2
                            s3 known1 known2,
                      )
                    ]
            ]
    ]
