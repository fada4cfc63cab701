-- ===== src/Paging/Shape.antt =====
-- The shape of the tree of page tables (kernel/src/arch/aarch64/page_table.rs). Each table carries a
-- label: 1 for the root, and `512 * label + idx` for the table behind the entry at `idx`. So the
-- tables of level 1 have labels from 2 ^ 9, those of level 2 from 2 ^ 18, those of level 3 from 2 ^ 27,
-- and no table is reached in two ways.
use capsule_os.Base.{
  ℕ, ◌+◌, ◌*◌, ◌%◌, ◌^◌, ◌<◌, ◌≡◌, ◌≢◌, refl, sym, ap, ap₂, subst, ◌∙◌, inl, inr, true, false,
  Bool-cases, bit_and, ◌==◌, ==_refl, ==_of_ne, eq_of_==, if◌then◌else◌, arith,
}
use capsule_os.Paging.{Machine, is_valid, is_table, table_of, table_entry, read_pte}
use capsule_os.Paging.Entry.{table_of-table_entry, is_table-table_entry}
use capsule_os.Paging.Allocation.{IsAllocator, IsGranted}

-- An entry of a table, by the table's label and the entry's index.
pub record IsEntry (label : ℕ → ℕ) (l j e : ℕ) : Type 0 where
  pub child : l < 2 ^ 27 → is_table e ≡ true → label (table_of e) ≡ 512 * l + j
  pub no_block : l < 2 ^ 9 → is_valid e ≡ true → is_table e ≡ true
  pub giga : l < 2 ^ 18 → is_valid e ≡ true → bit_and e 2 ≡ 0 → table_of e % 2 ^ 30 ≡ 0
  pub mega : l < 2 ^ 27 → is_valid e ≡ true → bit_and e 2 ≡ 0 → table_of e % 2 ^ 21 ≡ 0

pub record IsTree (label : ℕ → ℕ) (m : Machine) : Type 0 where
  pub allocator : IsAllocator m.phys
  pub root : label m.tree.l0_pa ≡ 1
  pub whole : (t : ℕ) → 0 < label t → t % 4096 ≡ 0
  pub in_use : (t : ℕ) → 0 < label t → t < m.phys.next
  pub entries : (t j : ℕ) → 0 < label t → j < 512 → IsEntry label (label t) j (read_pte t j m.words)

-- The label of one more table.
abbrev pub with_label : (ℕ → ℕ) → ℕ → ℕ → ℕ → ℕ
with_label label c l p = if p == c then l else label p

pub with_label-at : (label : ℕ → ℕ) (c l : ℕ) → with_label label c l c ≡ l
with_label-at label c l = rw (==_refl c) refl

pub with_label-ne : (label : ℕ → ℕ) (c l p : ℕ) → p ≢ c → with_label label c l p ≡ label p
with_label-ne label c l p h = rw (==_of_ne p c h) refl

-- A table's entry, and an entry that is not one, under a mask.
table_bit : (e : ℕ) → is_table e ≡ true → bit_and e 2 ≢ 0
table_bit e h zero_bit = elim (Bool-cases (bit_and e 1 == 0)) [
  | inl no_valid ↦ absurd (cc (rw no_valid at h))
  | inr valid ↦
      let z : (bit_and e 2 == 0) ≡ true = rw zero_bit refl in absurd (cc (rw (valid, z) at h))
]

-- An entry stays one when the labels are extended.
extend-IsEntry :
    (label : ℕ → ℕ) (c n l j e : ℕ)
    → ((t : ℕ) → 0 < label t → t ≢ c)
    → 0 < l
    → IsEntry label l j e
    → IsEntry (with_label label c n) l j e
extend-IsEntry label c n l j e fresh pos v = record {
  child = λ h is.
      let old = v.child h is in
      with_label-ne label c n (table_of e) (fresh (table_of e) (omega (arith, old, pos))) ∙ old;
  no_block = v.no_block;
  giga = v.giga;
  mega = v.mega;
}

-- An entry for the table whose label it gives.
linked-IsEntry :
    (label : ℕ → ℕ) (c l j : ℕ)
    → c % 4096 ≡ 0
    → c < 2 ^ 48
    → label c ≡ 512 * l + j
    → IsEntry label l j (table_entry c)
linked-IsEntry label c l j whole small h =
    let bit = table_bit (table_entry c) (is_table-table_entry c) in
    record {
      child = λ _ _. ap label (table_of-table_entry c whole small) ∙ h;
      no_block = λ _ _. is_table-table_entry c;
      giga = λ _ _ z. absurd (bit z);
      mega = λ _ _ z. absurd (bit z);
    }

-- A new table at an entry: the words of the old tables stay, but for the entry, which points to the new
-- table, and the new table's entries are as its label asks.
pub record IsAttached (label : ℕ → ℕ) (m : Machine) (t i c : ℕ) (content : ℕ → ℕ) (m' : Machine)
    : Type 0 where
  pub granted : IsGranted c m.phys
  pub allocator : IsAllocator m'.phys
  pub cursor : m'.phys.next ≡ c + 4096
  pub root : m'.tree.l0_pa ≡ m.tree.l0_pa
  pub rooted : m'.tree.has_root ≡ m.tree.has_root
  pub frame :
      (p j : ℕ)
      → 0 < label p
      → j < 512
      → (p ≡ t → j ≢ i)
      → read_pte p j m'.words ≡ read_pte p j m.words
  pub link : read_pte t i m'.words ≡ table_entry c
  pub parts : (any : ℕ → ℕ) (j : ℕ) → j < 512 → IsEntry any (512 * label t + i) j (content j)
  pub inside : (j : ℕ) → j < 512 → read_pte c j m'.words ≡ content j

-- The new table's entries in the tree that has it.
new_entry :
    (label : ℕ → ℕ) (m : Machine) (t i c : ℕ) (content : ℕ → ℕ) (m' : Machine) (p j : ℕ)
    → IsAttached label m t i c content m'
    → p ≡ c
    → j < 512
    → let grown = with_label label c (512 * label t + i) in
      IsEntry grown (grown p) j (read_pte p j m'.words)
new_entry label m t i c content m' p j a same less =
    let grown = with_label label c (512 * label t + i) in
    let at_c = with_label-at label c (512 * label t + i) in
    subst (λ q. IsEntry grown (grown q) j (read_pte q j m'.words)) (sym same)
      (subst (λ l. IsEntry grown l j (read_pte c j m'.words)) (sym at_c)
        (subst (IsEntry grown (512 * label t + i) j) (sym (a.inside j less))
          (a.parts grown j less)))

-- The entry that links the new table, and the other entries of the old tables.
old_entry :
    (label : ℕ → ℕ) (m : Machine) (t i c : ℕ) (content : ℕ → ℕ) (m' : Machine) (p j : ℕ)
    → IsTree label m
    → IsAttached label m t i c content m'
    → 0 < label p
    → j < 512
    → IsEntry (with_label label c (512 * label t + i)) (label p) j (read_pte p j m'.words)
old_entry label m t i c content m' p j tree a pos less =
    let l = 512 * label t + i in
    let grown = with_label label c l in
    let g = a.granted in
    let fresh : (q : ℕ) → 0 < label q → q ≢ c =
      λ q h same. omega (arith, tree.in_use q h, g.above, same) in
    let kept : ((p ≡ t) → j ≢ i) → IsEntry grown (label p) j (read_pte p j m'.words) = λ other.
      subst (λ e. IsEntry grown (label p) j e) (sym (a.frame p j pos less other))
        (extend-IsEntry label c l (label p) j (read_pte p j m.words) fresh pos
          (tree.entries p j pos less)) in
    elim (Bool-cases (p == t)) [
      | inl at_t ↦ elim (Bool-cases (j == i)) [
        | inl at_i ↦
            let same_t = eq_of_== p t at_t in
            let same_i = eq_of_== j i at_i in
            let known : grown c ≡ 512 * label p + j =
              with_label-at label c l ∙ ap₂ (λ x y. 512 * label x + y) (sym same_t) (sym same_i) in
            let low : c < 2 ^ 48 = omega (arith, g.in_ram) in
            subst (λ e. IsEntry grown (label p) j e)
              (sym (ap₂ (λ x y. read_pte x y m'.words) same_t same_i ∙ a.link))
              (linked-IsEntry grown c (label p) j g.whole low known)
        | inr other ↦ kept (λ _ same. absurd (cc (rw (same, ==_refl i) at other)))
      ]
      | inr other ↦ kept (λ same _. absurd (cc (rw (same, ==_refl t) at other)))
    ]

-- The tree with the new table.
pub attached-IsTree :
    (label : ℕ → ℕ) (m : Machine) (t i c : ℕ) (content : ℕ → ℕ) (m' : Machine)
    → IsTree label m
    → 0 < label t
    → i < 512
    → IsAttached label m t i c content m'
    → IsTree (with_label label c (512 * label t + i)) m'
attached-IsTree label m t i c content m' tree pos small a =
    let g = a.granted in
    let fresh : (p : ℕ) → 0 < label p → p ≢ c =
      λ p h same. omega (arith, tree.in_use p h, g.above, same) in
    let old : (p : ℕ) → (p == c) ≡ false → with_label label c (512 * label t + i) p ≡ label p =
      λ p differs. rw differs refl in
    let root_pos : 0 < label m.tree.l0_pa = omega (arith, tree.root) in
    record {
      allocator = a.allocator;
      root =
          ap (with_label label c (512 * label t + i)) a.root
          ∙ with_label-ne label c (512 * label t + i) m.tree.l0_pa (fresh m.tree.l0_pa root_pos)
          ∙ tree.root;
      whole = λ p h. elim (Bool-cases (p == c)) [
        | inl same ↦ subst (λ x. x % 4096 ≡ 0) (sym (eq_of_== p c same)) g.whole
        | inr differs ↦ tree.whole p (subst (λ x. 0 < x) (old p differs) h)
      ];
      in_use = λ p h. elim (Bool-cases (p == c)) [
        | inl same ↦ omega (arith, a.cursor, eq_of_== p c same)
        | inr differs ↦
            omega (arith, tree.in_use p (subst (λ x. 0 < x) (old p differs) h), a.cursor, g.above)
      ];
      entries = λ p j h less. elim (Bool-cases (p == c)) [
        | inl same ↦ new_entry label m t i c content m' p j a (eq_of_== p c same) less
        | inr differs ↦
            let grown = with_label label c (512 * label t + i) in
            subst (λ n. IsEntry grown n j (read_pte p j m'.words)) (sym (old p differs))
              (old_entry label m t i c content m' p j tree a (subst (λ x. 0 < x) (old p differs) h)
                less)
      ];
    }
