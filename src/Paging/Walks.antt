-- ===== src/Paging/Walks.antt =====
-- The walks of the page tables (kernel/src/arch/aarch64/page_table.rs), before and after the tree
-- grows by a table.
use capsule_os.Base.{
  ℕ, ◌+◌, ◌*◌, ◌/◌, ◌%◌, ◌^◌, ◌<◌, ◌≡◌, ◌≢◌, refl, sym, ap, subst, ◌∙◌, inl, inr, true, Bool-cases,
  Option, bit_and, ◌==◌, ==_refl, eq_of_==, arith,
}
use capsule_os.Base.Masks.{bit_and_511}
use capsule_os.Paging.{
  Machine, is_valid, is_table, table_of, read_pte, va_l0_index, va_l1_index, va_l2_index,
  va_l3_index, after_l0e, after_l1e, after_l2e, after_l3e, walk_l1, walk_l2, walk_l3,
  translate_user_va,
}
use capsule_os.Paging.Shape.{IsTree}

-- A read at the slot or beside it.
by_slot : (P : Type 0) (p t j i : ℕ) → (p ≡ t → j ≡ i → P) → ((p ≡ t → j ≢ i) → P) → P
by_slot P p t j i at beside = elim (Bool-cases (p == t)) [
  | inl same_p ↦ elim (Bool-cases (j == i)) [
    | inl same_j ↦ at (eq_of_== p t same_p) (eq_of_== j i same_j)
    | inr other ↦ beside (λ _ same. absurd (cc (rw (same, ==_refl i) at other)))
  ]
  | inr other ↦ beside (λ same _. absurd (cc (rw (same, ==_refl t) at other)))
]

-- What a walk does with one entry depends on the words only through the table behind it.
after_l2e-words :
    (e va : ℕ) (w v : ℕ → ℕ)
    → (is_table e ≡ true → walk_l3 (table_of e) va w ≡ walk_l3 (table_of e) va v)
    → after_l2e e va w ≡ after_l2e e va v
unfolding after_l2e
after_l2e-words e va w v h = elim (Bool-cases (bit_and e 1 == 0)) [
  | inl no_valid ↦ rw (no_valid, after_l2e) refl
  | inr valid ↦ elim (Bool-cases (bit_and e 2 == 0)) [
    | inl block ↦ rw (valid, block, after_l2e) refl
    | inr more ↦ rw (valid, more, after_l2e) (h (rw (valid, more) refl))
  ]
]

after_l1e-words :
    (e va : ℕ) (w v : ℕ → ℕ)
    → (is_table e ≡ true → walk_l2 (table_of e) va w ≡ walk_l2 (table_of e) va v)
    → after_l1e e va w ≡ after_l1e e va v
unfolding after_l1e
after_l1e-words e va w v h = elim (Bool-cases (bit_and e 1 == 0)) [
  | inl no_valid ↦ rw (no_valid, after_l1e) refl
  | inr valid ↦ elim (Bool-cases (bit_and e 2 == 0)) [
    | inl block ↦ rw (valid, block, after_l1e) refl
    | inr more ↦ rw (valid, more, after_l1e) (h (rw (valid, more) refl))
  ]
]

after_l0e-words :
    (e va : ℕ) (w v : ℕ → ℕ)
    → (is_valid e ≡ true → walk_l1 (table_of e) va w ≡ walk_l1 (table_of e) va v)
    → after_l0e e va w ≡ after_l0e e va v
unfolding after_l0e
after_l0e-words e va w v h = elim (Bool-cases (bit_and e 1 == 0)) [
  | inl no_valid ↦ rw (no_valid, after_l0e) refl
  | inr valid ↦ rw (valid, after_l0e) (h (rw valid refl))
]

-- The labels of the tables on the walk of an address.
abbrev pub label_l1 : ℕ → ℕ
label_l1 va = 2 ^ 9 + va / 2 ^ 39 % 2 ^ 9

abbrev pub label_l2 : ℕ → ℕ
label_l2 va = 2 ^ 18 + va / 2 ^ 30 % 2 ^ 18

abbrev pub label_l3 : ℕ → ℕ
label_l3 va = 2 ^ 27 + va / 2 ^ 21 % 2 ^ 27

pub l1_below : (va : ℕ) → 512 * 1 + va_l0_index va ≡ label_l1 va
l1_below va = omega (arith, bit_and_511 (va / 2 ^ 39))

pub l2_below : (va : ℕ) → 512 * label_l1 va + va_l1_index va ≡ label_l2 va
l2_below va = omega (arith, bit_and_511 (va / 2 ^ 30))

pub l3_below : (va : ℕ) → 512 * label_l2 va + va_l2_index va ≡ label_l3 va
l3_below va = omega (arith, bit_and_511 (va / 2 ^ 21))

-- Two sets of words that agree on the entries of a tree, but for the entry at `i` of table `t`. If the
-- walk of `va` meets that entry, what it does from there agrees as well.
pub record Agree (label : ℕ → ℕ) (t i : ℕ) (w v : ℕ → ℕ) (va : ℕ) : Type 0 where
  pub frame : (p j : ℕ) → 0 < label p → j < 512 → (p ≡ t → j ≢ i) → read_pte p j v ≡ read_pte p j w
  pub at_l0 :
      label t ≡ 1
      → va_l0_index va ≡ i
      → after_l0e (read_pte t i v) va v ≡ after_l0e (read_pte t i w) va w
  pub at_l1 :
      label t ≡ label_l1 va
      → va_l1_index va ≡ i
      → after_l1e (read_pte t i v) va v ≡ after_l1e (read_pte t i w) va w
  pub at_l2 :
      label t ≡ label_l2 va
      → va_l2_index va ≡ i
      → after_l2e (read_pte t i v) va v ≡ after_l2e (read_pte t i w) va w
  pub at_l3 :
      label t ≡ label_l3 va
      → va_l3_index va ≡ i
      → after_l3e (read_pte t i v) va ≡ after_l3e (read_pte t i w) va

pub index_small : (x : ℕ) → bit_and x 511 < 512
index_small x = omega (arith, bit_and_511 x)

-- At the slot itself.
at_slot :
    (f : ℕ → ℕ → (ℕ → ℕ) → Option ℕ) (t i p j va : ℕ) (w v : ℕ → ℕ)
    → p ≡ t
    → j ≡ i
    → f (read_pte t i v) va v ≡ f (read_pte t i w) va w
    → f (read_pte p j v) va v ≡ f (read_pte p j w) va w
at_slot f t i p j va w v same_p same_j h =
    subst (λ q. f (read_pte q j v) va v ≡ f (read_pte q j w) va w) (sym same_p)
      (subst (λ k. f (read_pte t k v) va v ≡ f (read_pte t k w) va w) (sym same_j) h)

module _ (label : ℕ → ℕ) (m : Machine) (t i : ℕ) (v : ℕ → ℕ) (va : ℕ) (tree : IsTree label m)
    (a : Agree label t i m.words v va) where
  kept_l3 : (p : ℕ) → label p ≡ label_l3 va → walk_l3 p va v ≡ walk_l3 p va m.words
  kept_l3 p known =
      let j = va_l3_index va in
      by_slot (walk_l3 p va v ≡ walk_l3 p va m.words) p t j i
        (λ same_p same_j.
          at_slot (λ e va _. after_l3e e va) t i p j va m.words v same_p same_j
            (a.at_l3 (ap label (sym same_p) ∙ known) same_j))
        (λ other.
          ap (λ e. after_l3e e va)
            (a.frame p j (omega (arith, known)) (index_small (va / 2 ^ 12)) other))

  kept_l2 : (p : ℕ) → label p ≡ label_l2 va → walk_l2 p va v ≡ walk_l2 p va m.words
  kept_l2 p known =
      let j = va_l2_index va in
      let small = index_small (va / 2 ^ 21) in
      let pos : 0 < label p = omega (arith, known) in
      by_slot (walk_l2 p va v ≡ walk_l2 p va m.words) p t j i
        (λ same_p same_j.
          at_slot after_l2e t i p j va m.words v same_p same_j
            (a.at_l2 (ap label (sym same_p) ∙ known) same_j))
        (λ other.
          let e = read_pte p j m.words in
          ap (λ x. after_l2e x va v) (a.frame p j pos small other)
          ∙ after_l2e-words e va v m.words (λ is.
            let next = (tree.entries p j pos small).child (omega (arith, known)) is in
            kept_l3 (table_of e) (next ∙ ap (λ l. 512 * l + j) known ∙ l3_below va)))

  kept_l1 : (p : ℕ) → label p ≡ label_l1 va → walk_l1 p va v ≡ walk_l1 p va m.words
  kept_l1 p known =
      let j = va_l1_index va in
      let small = index_small (va / 2 ^ 30) in
      let pos : 0 < label p = omega (arith, known) in
      by_slot (walk_l1 p va v ≡ walk_l1 p va m.words) p t j i
        (λ same_p same_j.
          at_slot after_l1e t i p j va m.words v same_p same_j
            (a.at_l1 (ap label (sym same_p) ∙ known) same_j))
        (λ other.
          let e = read_pte p j m.words in
          ap (λ x. after_l1e x va v) (a.frame p j pos small other)
          ∙ after_l1e-words e va v m.words (λ is.
            let next = (tree.entries p j pos small).child (omega (arith, known)) is in
            kept_l2 (table_of e) (next ∙ ap (λ l. 512 * l + j) known ∙ l2_below va)))

  -- Then the whole walk from the root agrees.
  pub kept_l0 : translate_user_va m.tree.l0_pa va v ≡ translate_user_va m.tree.l0_pa va m.words
  kept_l0 =
      let j = va_l0_index va in
      let p = m.tree.l0_pa in
      let small = index_small (va / 2 ^ 39) in
      let known = tree.root in
      let pos : 0 < label p = omega (arith, known) in
      by_slot (translate_user_va p va v ≡ translate_user_va p va m.words) p t j i
        (λ same_p same_j.
          at_slot after_l0e t i p j va m.words v same_p same_j
            (a.at_l0 (ap label (sym same_p) ∙ known) same_j))
        (λ other.
          let e = read_pte p j m.words in
          let entry = tree.entries p j pos small in
          ap (λ x. after_l0e x va v) (a.frame p j pos small other)
          ∙ after_l0e-words e va v m.words (λ is.
            let table = entry.no_block (omega (arith, known)) is in
            let next = entry.child (omega (arith, known)) table in
            kept_l1 (table_of e) (next ∙ ap (λ l. 512 * l + j) known ∙ l1_below va)))
