-- ===== src/Paging/Unmapping.antt =====
-- What `unmap_page` does to the translations (kernel/src/arch/aarch64/mmu.rs).
use capsule_os.Base.{
  ℕ, ◌+◌, ◌*◌, ◌/◌, ◌%◌, ◌^◌, ◌<◌, ◌≡◌, ◌⊎◌, refl, sym, ap, ◌∙◌, Bool, true, false, not, Bool-cases,
  inl, inr, none, bit_and, ◌==◌, if◌then◌else◌, arith,
}
use capsule_os.Paging.{
  Machine, is_valid, is_table, table_of, read_pte, write_pte, va_l0_index, va_l1_index, va_l2_index,
  va_l3_index, after_l0e, after_l1e, after_l2e, after_l3e, translate_user_va,
}
use capsule_os.Base.Bits.{bit_and_4095}
use capsule_os.Shared.Result.{ok}
use capsule_os.Paging.Release.{unmap_words, unmap_page}
use capsule_os.Paging.Shape.{IsTree}
use capsule_os.Paging.Growth.{read-write_same, read-write_other}
use capsule_os.Paging.Walks.{
  label_l1, label_l2, label_l3, l1_below, l2_below, l3_below, index_small,
}
use capsule_os.Paging.Kept.{after-none, after_l0e-table, after_l1e-table}
use capsule_os.Paging.Reach.{IsPath, walk-IsPath}

-- The walk of `va` ends at a block of 1 GiB or of 2 MiB.
unfoldable pub ends_in_block : ℕ → ℕ → (ℕ → ℕ) → Bool
ends_in_block l0_pa va words =
    let l0e = read_pte l0_pa (va_l0_index va) words in
    let l1e = read_pte (table_of l0e) (va_l1_index va) words in
    let l2e = read_pte (table_of l1e) (va_l2_index va) words in
    if not (is_table l0e)
    then false
    else if not (is_table l1e)
    then is_valid l1e
    else if not (is_table l2e)
    then is_valid l2e
    else false

-- The indices of an address in a page are those of the page.
same_indices :
    (va offset : ℕ)
    → va % 4096 ≡ 0
    → offset < 4096
    → (va_l0_index (va + offset) ≡ va_l0_index va)
      × (va_l1_index (va + offset) ≡ va_l1_index va)
      × (va_l2_index (va + offset) ≡ va_l2_index va)
same_indices va offset whole small =
    let x = va + offset in
    (
      ap (λ k. bit_and k 511) {x = x / 2 ^ 39} {y = va / 2 ^ 39} (omega arith),
      ap (λ k. bit_and k 511) {x = x / 2 ^ 30} {y = va / 2 ^ 30} (omega arith),
      ap (λ k. bit_and k 511) {x = x / 2 ^ 21} {y = va / 2 ^ 21} (omega arith),
    )

-- The labels of the tables that a walk follows.
module _ (label : ℕ → ℕ) (m : Machine) (va : ℕ) (tree : IsTree label m) where
  e0 : ℕ
  e0 = read_pte m.tree.l0_pa (va_l0_index va) m.words

  e1 : ℕ
  unfolding e0
  e1 = read_pte (table_of e0) (va_l1_index va) m.words

  e2 : ℕ
  unfolding e1
  e2 = read_pte (table_of e1) (va_l2_index va) m.words

  follow0 : is_table e0 ≡ true → label (table_of e0) ≡ label_l1 va
  unfolding e0
  follow0 h =
      let pos : 0 < label m.tree.l0_pa = omega (arith, tree.root) in
      let entry = tree.entries m.tree.l0_pa (va_l0_index va) pos (index_small (va / 2 ^ 39)) in
      entry.child (omega (arith, tree.root)) h
      ∙ ap (λ l. 512 * l + va_l0_index va) tree.root
      ∙ l1_below va

  follow1 : is_table e0 ≡ true → is_table e1 ≡ true → label (table_of e1) ≡ label_l2 va
  unfolding e0 e1
  follow1 h0 h1 =
      let known = follow0 h0 in
      let entry =
        tree.entries (table_of e0) (va_l1_index va) (omega (arith, known))
          (index_small (va / 2 ^ 30)) in
      entry.child (omega (arith, known)) h1 ∙ ap (λ l. 512 * l + va_l1_index va) known ∙ l2_below va

  follow2 :
      is_table e0 ≡ true
      → is_table e1 ≡ true
      → is_table e2 ≡ true
      → label (table_of e2) ≡ label_l3 va
  unfolding e0 e1 e2
  follow2 h0 h1 h2 =
      let known = follow1 h0 h1 in
      let entry =
        tree.entries (table_of e1) (va_l2_index va) (omega (arith, known))
          (index_small (va / 2 ^ 21)) in
      entry.child (omega (arith, known)) h2 ∙ ap (λ l. 512 * l + va_l2_index va) known ∙ l3_below va

  not_valid0 : is_table e0 ≡ false → is_valid e0 ≡ false
  unfolding e0
  not_valid0 h = elim (Bool-cases (is_valid e0)) [
    | inr no_valid ↦ no_valid
    | inl valid ↦
        let pos : 0 < label m.tree.l0_pa = omega (arith, tree.root) in
        let entry = tree.entries m.tree.l0_pa (va_l0_index va) pos (index_small (va / 2 ^ 39)) in
        absurd (cc (sym (entry.no_block (omega (arith, tree.root)) valid) ∙ h))
  ]

  -- The last write, behind three tables.
  cleared : ℕ → ℕ
  unfolding e2
  cleared = write_pte (table_of e2) (va_l3_index va) 0 m.words

  cleared-IsPath :
      is_table e0 ≡ true
      → is_table e1 ≡ true
      → is_table e2 ≡ true
      → IsPath cleared va m.tree.l0_pa (table_of e0) (table_of e1) (table_of e2)
  unfolding e0 e1 e2 cleared
  cleared-IsPath h0 h1 h2 =
      let l3 = table_of e2 in
      let known1 = follow0 h0 in
      let known2 = follow1 h0 h1 in
      let known3 = follow2 h0 h1 h2 in
      let l3_whole = tree.whole l3 (omega (arith, known3)) in
      let kept : (p j : ℕ)
          → 0 < label p
          → label p < 2 ^ 27
          → j < 512
          → read_pte p j cleared ≡ read_pte p j m.words =
        λ p j pos low small.
          read-write_other p j l3 (va_l3_index va) 0 m.words (tree.whole p pos) l3_whole small
            (index_small (va / 2 ^ 12)) (λ same _. omega (arith, ap label same, low, known3)) in
      let read0 =
        kept m.tree.l0_pa (va_l0_index va) (omega (arith, tree.root)) (omega (arith, tree.root))
          (index_small (va / 2 ^ 39)) in
      let read1 =
        kept (table_of e0) (va_l1_index va) (omega (arith, known1)) (omega (arith, known1))
          (index_small (va / 2 ^ 30)) in
      let read2 =
        kept (table_of e1) (va_l2_index va) (omega (arith, known2)) (omega (arith, known2))
          (index_small (va / 2 ^ 21)) in
      record {
        linked0 = ap is_table read0 ∙ h0;
        points0 = ap table_of read0;
        linked1 = ap is_table read1 ∙ h1;
        points1 = ap table_of read1;
        linked2 = ap is_table read2 ∙ h2;
        points2 = ap table_of read2;
      }

  -- The walk of an address in the page, up to the first entry that is not a table's.
  stops0 :
      (offset : ℕ)
      → va % 4096 ≡ 0
      → offset < 4096
      → translate_user_va m.tree.l0_pa (va + offset) m.words ≡ after_l0e e0 (va + offset) m.words
  unfolding e0
  stops0 offset whole small =
      let (i0, i1, i2) = same_indices va offset whole small in
      ap (λ j. after_l0e (read_pte m.tree.l0_pa j m.words) (va + offset) m.words) i0

  stops1 :
      (offset : ℕ)
      → va % 4096 ≡ 0
      → offset < 4096
      → is_table e0 ≡ true
      → translate_user_va m.tree.l0_pa (va + offset) m.words ≡ after_l1e e1 (va + offset) m.words
  unfolding e0 e1
  stops1 offset whole small h0 =
      let (i0, i1, i2) = same_indices va offset whole small in
      stops0 offset whole small
      ∙ after_l0e-table e0 (va + offset) m.words h0
      ∙ ap (λ j. after_l1e (read_pte (table_of e0) j m.words) (va + offset) m.words) i1

  stops2 :
      (offset : ℕ)
      → va % 4096 ≡ 0
      → offset < 4096
      → is_table e0 ≡ true
      → is_table e1 ≡ true
      → translate_user_va m.tree.l0_pa (va + offset) m.words ≡ after_l2e e2 (va + offset) m.words
  unfolding e0 e1 e2
  stops2 offset whole small h0 h1 =
      let (i0, i1, i2) = same_indices va offset whole small in
      stops1 offset whole small h0
      ∙ after_l1e-table e1 (va + offset) m.words h1
      ∙ ap (λ j. after_l2e (read_pte (table_of e1) j m.words) (va + offset) m.words) i2

unmap_words-walk :
    (label : ℕ → ℕ) (m : Machine) (va offset : ℕ)
    → IsTree label m
    → va % 4096 ≡ 0
    → offset < 4096
    → ((ends_in_block m.tree.l0_pa va m.words ≡ true)
        × (unmap_words m.tree.l0_pa va m.words ≡ m.words))
      ⊎ ((ends_in_block m.tree.l0_pa va m.words ≡ false)
          × (translate_user_va m.tree.l0_pa (va + offset) (unmap_words m.tree.l0_pa va m.words)
              ≡ none))
unfolding unmap_words ends_in_block e0 e1 e2 cleared
unmap_words-walk label m va offset tree whole small =
    let x = va + offset in
    let l0 = m.tree.l0_pa in
    let a = e0 label m va tree in
    let b = e1 label m va tree in
    let c = e2 label m va tree in
    elim (Bool-cases (is_table a)) [
      | inr missing ↦
          let none_at = (after-none a x m.words (not_valid0 label m va tree missing)).0 in
          inr (
            rw (ends_in_block, missing) refl,
            rw (unmap_words, missing) (stops0 label m va tree offset whole small ∙ none_at),
          )
      | inl h0 ↦ elim (Bool-cases (is_table b)) [
        | inr stop ↦ elim (Bool-cases (is_valid b)) [
          | inl block ↦ inl (rw (ends_in_block, h0, stop) block, rw (unmap_words, h0, stop) refl)
          | inr missing ↦
              let none_at = (after-none b x m.words missing).1 in
              inr (
                rw (ends_in_block, h0, stop) missing,
                rw (unmap_words, h0, stop) (stops1 label m va tree offset whole small h0 ∙ none_at),
              )
        ]
        | inl h1 ↦ elim (Bool-cases (is_table c)) [
          | inr stop ↦ elim (Bool-cases (is_valid c)) [
            | inl block ↦
                inl (rw (ends_in_block, h0, h1, stop) block, rw (unmap_words, h0, h1, stop) refl)
            | inr missing ↦
                let none_at = (after-none c x m.words missing).2 in
                inr (
                  rw (ends_in_block, h0, h1, stop) missing,
                  rw (unmap_words, h0, h1, stop)
                      (stops2 label m va tree offset whole small h0 h1 ∙ none_at),
                )
          ]
          | inl h2 ↦
              let w = cleared label m va tree in
              let path = cleared-IsPath label m va tree h0 h1 h2 in
              let zero_at = read-write_same (table_of c) (va_l3_index va) 0 m.words in
              let walk =
                walk-IsPath w va l0 (table_of a) (table_of b) (table_of c) offset whole small path
                ∙ ap (λ e. after_l3e e x) zero_at
                ∙ (after-none 0 x w refl).3 in
              inr (rw (ends_in_block, h0, h1, h2) refl, rw (unmap_words, h0, h1, h2) walk)
        ]
      ]
    ]

unmap_page-words :
    (root va : ℕ) (words : ℕ → ℕ)
    → va % 4096 ≡ 0
    → unmap_page root va words ≡ (ok tt, unmap_words (bit_and root 0xffff_ffff_f000) va words)
unfolding unmap_page
unmap_page-words root va words whole =
    let aligned : (bit_and va 0xfff == 0) ≡ true = ground (arith, bit_and_4095 va, whole) in
    rw (aligned, unmap_page) refl

-- With a root register that points to a tree of page tables, `unmap_page` of a page reports success.
-- When the walk of the page ends in a block, it has changed no word; otherwise no address of the page
-- has a translation any more.
pub unmap_page-walk :
    (label : ℕ → ℕ) (m : Machine) (root va offset : ℕ)
    → IsTree label m
    → bit_and root 0xffff_ffff_f000 ≡ m.tree.l0_pa
    → va % 4096 ≡ 0
    → offset < 4096
    → let r = unmap_page root va m.words in
      (r.0 ≡ ok tt)
      × (((ends_in_block m.tree.l0_pa va m.words ≡ true) × (r.1 ≡ m.words))
          ⊎ ((ends_in_block m.tree.l0_pa va m.words ≡ false)
              × (translate_user_va m.tree.l0_pa (va + offset) r.1 ≡ none)))
unmap_page-walk label m root va offset tree at whole small =
    rw (unmap_page-words root va m.words whole, at)
      (refl, unmap_words-walk label m va offset tree whole small)
