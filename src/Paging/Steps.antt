-- ===== src/Paging/Steps.antt =====
-- The steps of `map_va` from a table to the next (kernel/src/arch/aarch64/page_table.rs): followed,
-- made or split from a block, the next table is in the tree, and every translation is kept.
use capsule_os.Base.{
  ℕ, ◌+◌, ◌*◌, ◌^◌, ◌≤◌, ◌<◌, ◌≡◌, ◌≢◌, ◌⊎◌, refl, sym, ap, subst, ◌∙◌, inl, inr, true, Bool-cases,
  bit_and, ◌==◌, eq_of_==, arith,
}
use capsule_os.Shared.Status.{no_memory}
use capsule_os.Paging.{
  Machine, Run, done, failed, is_valid, is_table, table_of, part_entry, read_pte, shatter,
  shatter_l1_block, shatter_l2_block, refuse_l0_block, next_table, translate_user_va,
}
use capsule_os.Paging.Entry.{table_of-table_entry, is_table-table_entry}
use capsule_os.Paging.Allocation.{IsRefused, alloc_pt_page-cases}
use capsule_os.Paging.Shape.{
  IsEntry, IsTree, IsAttached, with_label, with_label-at, with_label-ne, attached-IsTree,
}
use capsule_os.Paging.Growth.{
  with_table, with_table-IsAttached, with_parts, with_parts-IsAttached, block_part-IsEntry,
  deep-IsEntry,
}
use capsule_os.Paging.Walks.{Agree, kept_l0}
use capsule_os.Paging.Kept.{empty-Agree, giga-Agree, mega-Agree}

-- A step from the entry at `i` of table `t` to the table `c`.
pub record IsStep (label : ℕ → ℕ) (m : Machine) (t i c : ℕ) (label' : ℕ → ℕ) (m' : Machine)
    : Type 0 where
  pub tree : IsTree label' m'
  pub extends : (p : ℕ) → 0 < label p → label' p ≡ label p
  pub child : label' c ≡ 512 * label t + i
  pub linked : is_table (read_pte t i m'.words) ≡ true
  pub points : table_of (read_pte t i m'.words) ≡ c
  pub root : m'.tree.l0_pa ≡ m.tree.l0_pa
  pub rooted : m'.tree.has_root ≡ m.tree.has_root
  pub frame :
      (p j : ℕ)
      → 0 < label p
      → j < 512
      → (p ≡ t → j ≢ i)
      → read_pte p j m'.words ≡ read_pte p j m.words
  pub kept :
      (va : ℕ)
      → translate_user_va m'.tree.l0_pa va m'.words ≡ translate_user_va m.tree.l0_pa va m.words

-- The step is made, or the allocator has no page.
abbrev pub Stepped : (ℕ → ℕ) → Machine → ℕ → ℕ → Run ℕ → Type 0
Stepped label m t i r =
    ((c : ℕ) × (label' : ℕ → ℕ) × (m' : Machine) × (r ≡ done c m') × IsStep label m t i c label' m')
    ⊎ ((m' : Machine) × (r ≡ failed no_memory m') × IsRefused m m')

attached-IsStep :
    (label : ℕ → ℕ) (m : Machine) (t i c : ℕ) (content : ℕ → ℕ) (m' : Machine)
    → IsTree label m
    → 0 < label t
    → i < 512
    → IsAttached label m t i c content m'
    → ((va : ℕ) → Agree label t i m.words m'.words va)
    → IsStep label m t i c (with_label label c (512 * label t + i)) m'
attached-IsStep label m t i c content m' tree pos small a agree =
    let l = 512 * label t + i in
    let g = a.granted in
    record {
      tree = attached-IsTree label m t i c content m' tree pos small a;
      extends =
          λ p h. with_label-ne label c l p (λ same. omega (arith, tree.in_use p h, g.above, same));
      child = with_label-at label c l;
      linked = ap is_table a.link ∙ is_table-table_entry c;
      points = ap table_of a.link ∙ table_of-table_entry c g.whole (omega (arith, g.in_ram));
      root = a.root;
      rooted = a.rooted;
      frame = a.frame;
      kept = λ va.
          ap (λ p. translate_user_va p va m'.words) a.root
          ∙ kept_l0 label m t i m'.words va tree (agree va);
    }

-- A block that is split, by the parts that its level asks for.
shatter-Stepped :
    (label : ℕ → ℕ) (m : Machine) (width kind t i : ℕ)
    → let e = read_pte t i m.words in
      IsTree label m
      → 0 < label t
      → i < 512
      → ((any : ℕ → ℕ) (j : ℕ)
          → j < 512
          → IsEntry any (512 * label t + i) j (part_entry width kind e j))
      → ((c : ℕ) (m' : Machine)
          → IsAttached label m t i c (part_entry width kind e) m'
          → (va : ℕ) → Agree label t i m.words m'.words va)
      → Stepped label m t i (shatter width kind t i e m)
unfolding shatter
shatter-Stepped label m width kind t i tree pos small parts agree =
    let e = read_pte t i m.words in
    elim (alloc_pt_page-cases m tree.allocator) [
      | inl (c, g, given_c) ↦
          let m' = with_parts width kind t i e c m in
          let a = with_parts-IsAttached label m width kind t i e c tree pos small g parts in
          let step =
            attached-IsStep label m t i c (part_entry width kind e) m' tree pos small a
              (agree c m' a) in
          inl (c, with_label label c (512 * label t + i), m', rw (shatter, given_c) refl, step)
      | inr (m', none_left, same) ↦ inr (m', rw (shatter, none_left) refl, same)
    ]

-- A table that is there is followed, and a new one made, whatever is done with blocks.
next_table-Stepped :
    (split : ℕ → ℕ → ℕ → Machine → Run ℕ) (label : ℕ → ℕ) (m : Machine) (t i : ℕ)
    → let e = read_pte t i m.words in
      IsTree label m
      → 0 < label t
      → label t < 2 ^ 27
      → i < 512
      → (is_valid e ≡ true → bit_and e 2 ≡ 0 → Stepped label m t i (split t i e m))
      → Stepped label m t i (next_table split t i m)
unfolding next_table
next_table-Stepped split label m t i tree pos shallow small by_split =
    let e = read_pte t i m.words in
    elim (Bool-cases (bit_and e 1 == 0)) [
      | inl no_valid ↦ elim (alloc_pt_page-cases m tree.allocator) [
        | inl (c, g, given_c) ↦
            let m' = with_table t i c m in
            let a = with_table-IsAttached label m t i c tree pos small g in
            let agree = empty-Agree label m t i c m' a shallow (rw no_valid refl) in
            let step = attached-IsStep label m t i c (λ _. 0) m' tree pos small a agree in
            inl (
              c,
              with_label label c (512 * label t + i),
              m',
              rw (next_table, no_valid, given_c) refl,
              step,
            )
        | inr (m', none_left, same) ↦ inr (m', rw (next_table, no_valid, none_left) refl, same)
      ]
      | inr valid ↦ elim (Bool-cases (bit_and e 2 == 0)) [
        | inl block ↦
            let split_it = by_split (rw valid refl) (eq_of_== (bit_and e 2) 0 block) in
            subst (Stepped label m t i) (sym (rw (next_table, valid, block) refl)) split_it
        | inr more ↦
            let is : is_table e ≡ true = rw (valid, more) refl in
            let known = (tree.entries t i pos small).child shallow is in
            inl (
              table_of e,
              label,
              m,
              rw (next_table, valid, more) refl,
              record {
                tree = tree;
                extends = λ _ _. refl;
                child = known;
                linked = is;
                points = refl;
                root = refl;
                rooted = refl;
                frame = λ _ _ _ _ _. refl;
                kept = λ _. refl;
              },
            )
      ]
    ]

-- The three steps of `map_va`.
pub step_l0 :
    (label : ℕ → ℕ) (m : Machine) (t i : ℕ)
    → IsTree label m
    → label t ≡ 1
    → i < 512
    → Stepped label m t i (next_table refuse_l0_block t i m)
step_l0 label m t i tree known small =
    let pos : 0 < label t = omega (arith, known) in
    next_table-Stepped refuse_l0_block label m t i tree pos (omega (arith, known)) small
      (λ valid block.
        let table = (tree.entries t i pos small).no_block (omega (arith, known)) valid in
        absurd (cc (rw (block, valid) at table)))

pub step_l1 :
    (label : ℕ → ℕ) (m : Machine) (t i : ℕ)
    → IsTree label m
    → 2 ^ 9 ≤ label t
    → label t < 2 ^ 18
    → i < 512
    → Stepped label m t i (next_table shatter_l1_block t i m)
step_l1 label m t i tree low high small =
    let e = read_pte t i m.words in
    let pos : 0 < label t = omega (arith, low) in
    next_table-Stepped shatter_l1_block label m t i tree pos (omega (arith, high)) small
      (λ valid block.
        let whole = (tree.entries t i pos small).giga high valid block in
        shatter-Stepped label m 0x20_0000 1 t i tree pos small
          (λ any j less.
            block_part-IsEntry any (512 * label t + i) e j (omega (arith, low)) block whole less)
          (λ c m' a va. giga-Agree label m t i c m' a low high valid block whole va))

pub step_l2 :
    (label : ℕ → ℕ) (m : Machine) (t i : ℕ)
    → IsTree label m
    → 2 ^ 18 ≤ label t
    → label t < 2 ^ 27
    → i < 512
    → Stepped label m t i (next_table shatter_l2_block t i m)
step_l2 label m t i tree low high small =
    let e = read_pte t i m.words in
    let pos : 0 < label t = omega (arith, low) in
    next_table-Stepped shatter_l2_block label m t i tree pos high small (λ valid block.
      let whole = (tree.entries t i pos small).mega high valid block in
      shatter-Stepped label m 0x1000 3 t i tree pos small
        (λ any j less.
          deep-IsEntry any (512 * label t + i) j (part_entry 0x1000 3 e j) (omega (arith, low)))
        (λ c m' a va. mega-Agree label m t i c m' a low high valid block whole va))
