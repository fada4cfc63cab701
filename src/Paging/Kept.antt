-- ===== src/Paging/Kept.antt =====
-- A new table of the page tables, empty or with the parts of a block, keeps every translation
-- (kernel/src/arch/aarch64/page_table.rs).
use capsule_os.Base.{
  ℕ, ◌+◌, ◌/◌, ◌%◌, ◌^◌, ◌≤◌, ◌<◌, ◌≡◌, refl, sym, ap, ◌∙◌, inl, inr, true, false, Bool-cases,
  Option, none, some, bit_and, ◌==◌, arith,
}
use capsule_os.Base.Masks.{
  bit_and_511, bit_and_2m, bit_and_1g, bit_and_page_base, bit_and_2m_base, bit_and_1g_base,
}
use capsule_os.Base.Bits.{bit_and_4095}
use capsule_os.Paging.{
  Machine, is_valid, is_table, table_of, table_entry, part_entry, read_pte, va_l1_index,
  va_l2_index, va_l3_index, after_l0e, after_l1e, after_l2e, after_l3e, walk_l1, walk_l2, walk_l3,
}
use capsule_os.Paging.Entry.{
  table_of-table_entry, is_table-table_entry, is_valid-part_entry, block_part-bit,
  block_part-address, page_part-address,
}
use capsule_os.Paging.Shape.{IsAttached}
use capsule_os.Paging.Walks.{Agree, index_small}

-- Behind the entry of a table the walk goes on in the table.
pub after_l0e-table :
    (e va : ℕ) (w : ℕ → ℕ) → is_table e ≡ true → after_l0e e va w ≡ walk_l1 (table_of e) va w
unfolding after_l0e
after_l0e-table e va w h = elim (Bool-cases (bit_and e 1 == 0)) [
  | inl no_valid ↦ absurd (cc (rw no_valid at h))
  | inr valid ↦ rw (valid, after_l0e) refl
]

pub after_l1e-table :
    (e va : ℕ) (w : ℕ → ℕ) → is_table e ≡ true → after_l1e e va w ≡ walk_l2 (table_of e) va w
unfolding after_l1e
after_l1e-table e va w h = elim (Bool-cases (bit_and e 1 == 0)) [
  | inl no_valid ↦ absurd (cc (rw no_valid at h))
  | inr valid ↦ elim (Bool-cases (bit_and e 2 == 0)) [
    | inl block ↦ absurd (cc (rw (valid, block) at h))
    | inr more ↦ rw (valid, more, after_l1e) refl
  ]
]

pub after_l2e-table :
    (e va : ℕ) (w : ℕ → ℕ) → is_table e ≡ true → after_l2e e va w ≡ walk_l3 (table_of e) va w
unfolding after_l2e
after_l2e-table e va w h = elim (Bool-cases (bit_and e 1 == 0)) [
  | inl no_valid ↦ absurd (cc (rw no_valid at h))
  | inr valid ↦ elim (Bool-cases (bit_and e 2 == 0)) [
    | inl block ↦ absurd (cc (rw (valid, block) at h))
    | inr more ↦ rw (valid, more, after_l2e) refl
  ]
]

pub after_l3e-page :
    (e va : ℕ) → is_valid e ≡ true → after_l3e e va ≡ some (table_of e + bit_and va 4095)
unfolding after_l3e
after_l3e-page e va h = rw (h, after_l3e) refl

-- What the walk answers at a block, and at an entry that is not valid.
after_l1e-block :
    (e va : ℕ) (w : ℕ → ℕ)
    → is_valid e ≡ true
    → bit_and e 2 ≡ 0
    → after_l1e e va w ≡ some (bit_and e 0xffff_c000_0000 + bit_and va 0x3fff_ffff)
unfolding after_l1e
after_l1e-block e va w valid block = rw (valid, block, after_l1e) refl

after_l2e-block :
    (e va : ℕ) (w : ℕ → ℕ)
    → is_valid e ≡ true
    → bit_and e 2 ≡ 0
    → after_l2e e va w ≡ some (bit_and e 0xffff_ffe0_0000 + bit_and va 0x1f_ffff)
unfolding after_l2e
after_l2e-block e va w valid block = rw (valid, block, after_l2e) refl

pub after-none :
    (e va : ℕ) (w : ℕ → ℕ)
    → is_valid e ≡ false
    → (after_l0e e va w ≡ none)
      × (after_l1e e va w ≡ none)
      × (after_l2e e va w ≡ none)
      × (after_l3e e va ≡ none)
unfolding after_l0e after_l1e after_l2e after_l3e
after-none e va w h =
    (rw (h, after_l0e) refl, rw (h, after_l1e) refl, rw (h, after_l2e) refl, rw (h, after_l3e) refl)

-- A new table is reached through its entry.
module _ (label : ℕ → ℕ) (m : Machine) (t i c : ℕ) (content : ℕ → ℕ) (m' : Machine)
    (a : IsAttached label m t i c content m') (va : ℕ) where
  through :
      (f g : ℕ → (ℕ → ℕ) → Option ℕ)
      → ((e : ℕ) → is_table e ≡ true → f e m'.words ≡ g (table_of e) m'.words)
      → f (read_pte t i m'.words) m'.words ≡ g c m'.words
  through f g h =
      let gr = a.granted in
      ap (λ e. f e m'.words) a.link
      ∙ h (table_entry c) (is_table-table_entry c)
      ∙ ap (λ p. g p m'.words) (table_of-table_entry c gr.whole (omega (arith, gr.in_ram)))

  pub through_l0 : after_l0e (read_pte t i m'.words) va m'.words ≡ walk_l1 c va m'.words
  through_l0 =
      through (λ e w. after_l0e e va w) (λ p w. walk_l1 p va w)
        (λ e h. after_l0e-table e va m'.words h)

  pub through_l1 : after_l1e (read_pte t i m'.words) va m'.words ≡ walk_l2 c va m'.words
  through_l1 =
      through (λ e w. after_l1e e va w) (λ p w. walk_l2 p va w)
        (λ e h. after_l1e-table e va m'.words h)

  pub through_l2 : after_l2e (read_pte t i m'.words) va m'.words ≡ walk_l3 c va m'.words
  through_l2 =
      through (λ e w. after_l2e e va w) (λ p w. walk_l3 p va w)
        (λ e h. after_l2e-table e va m'.words h)

-- An empty table answers nothing, as an entry does that is not valid.
pub empty-Agree :
    (label : ℕ → ℕ) (m : Machine) (t i c : ℕ) (m' : Machine)
    → IsAttached label m t i c (λ _. 0) m'
    → label t < 2 ^ 27
    → is_valid (read_pte t i m.words) ≡ false
    → (va : ℕ) → Agree label t i m.words m'.words va
empty-Agree label m t i c m' a shallow invalid va =
    let e = read_pte t i m.words in
    let (none0, none1, none2, none3) = after-none e va m.words invalid in
    let (zero0, zero1, zero2, zero3) = after-none 0 va m'.words refl in
    record {
      frame = a.frame;
      at_l0 = λ _ _.
          through_l0 label m t i c (λ _. 0) m' a va
          ∙ ap (λ x. after_l1e x va m'.words)
              (a.inside (va_l1_index va) (index_small (va / 2 ^ 30)))
          ∙ zero1
          ∙ sym none0;
      at_l1 = λ _ _.
          through_l1 label m t i c (λ _. 0) m' a va
          ∙ ap (λ x. after_l2e x va m'.words)
              (a.inside (va_l2_index va) (index_small (va / 2 ^ 21)))
          ∙ zero2
          ∙ sym none1;
      at_l2 = λ _ _.
          through_l2 label m t i c (λ _. 0) m' a va
          ∙ ap (λ x. after_l3e x va) (a.inside (va_l3_index va) (index_small (va / 2 ^ 12)))
          ∙ zero3
          ∙ sym none2;
      at_l3 = λ h _. absurd (omega (arith, h, shallow));
    }

-- The parts of a block of 1 GiB answer what the block did.
pub giga-Agree :
    (label : ℕ → ℕ) (m : Machine) (t i c : ℕ) (m' : Machine)
    → let e = read_pte t i m.words in
      IsAttached label m t i c (part_entry 0x20_0000 1 e) m'
      → 2 ^ 9 ≤ label t
      → label t < 2 ^ 18
      → is_valid e ≡ true
      → bit_and e 2 ≡ 0
      → table_of e % 2 ^ 30 ≡ 0
      → (va : ℕ) → Agree label t i m.words m'.words va
giga-Agree label m t i c m' a low high valid block whole va =
    let e = read_pte t i m.words in
    let j = va_l2_index va in
    let small = index_small (va / 2 ^ 21) in
    let part = part_entry 0x20_0000 1 e j in
    let address : bit_and part 0xffff_ffe0_0000 + bit_and va 0x1f_ffff
        ≡ bit_and e 0xffff_c000_0000 + bit_and va 0x3fff_ffff =
      omega (
        arith,
        (block_part-address e j whole small).1,
        bit_and_page_base e,
        bit_and_1g_base e,
        bit_and_2m va,
        bit_and_1g va,
        bit_and_511 (va / 2 ^ 21),
        whole,
      ) in
    record {
      frame = a.frame;
      at_l0 = λ h _. absurd (omega (arith, h, low));
      at_l1 = λ _ _.
          through_l1 label m t i c (part_entry 0x20_0000 1 e) m' a va
          ∙ ap (λ x. after_l2e x va m'.words) (a.inside j small)
          ∙ after_l2e-block part va m'.words (is_valid-part_entry 0x20_0000 1 e j (omega arith))
              (block_part-bit e j block)
          ∙ ap some address
          ∙ sym (after_l1e-block e va m.words valid block);
      at_l2 = λ h _. absurd (omega (arith, h, high));
      at_l3 = λ h _. absurd (omega (arith, h, high));
    }

-- The parts of a block of 2 MiB are pages, and answer what the block did.
pub mega-Agree :
    (label : ℕ → ℕ) (m : Machine) (t i c : ℕ) (m' : Machine)
    → let e = read_pte t i m.words in
      IsAttached label m t i c (part_entry 0x1000 3 e) m'
      → 2 ^ 18 ≤ label t
      → label t < 2 ^ 27
      → is_valid e ≡ true
      → bit_and e 2 ≡ 0
      → table_of e % 2 ^ 21 ≡ 0
      → (va : ℕ) → Agree label t i m.words m'.words va
mega-Agree label m t i c m' a low high valid block whole va =
    let e = read_pte t i m.words in
    let j = va_l3_index va in
    let small = index_small (va / 2 ^ 12) in
    let part = part_entry 0x1000 3 e j in
    let address : table_of part + bit_and va 4095
        ≡ bit_and e 0xffff_ffe0_0000 + bit_and va 0x1f_ffff =
      omega (
        arith,
        page_part-address e j whole small,
        bit_and_page_base e,
        bit_and_2m_base e,
        bit_and_4095 va,
        bit_and_2m va,
        bit_and_511 (va / 2 ^ 12),
        whole,
      ) in
    record {
      frame = a.frame;
      at_l0 = λ h _. absurd (omega (arith, h, low));
      at_l1 = λ h _. absurd (omega (arith, h, low));
      at_l2 = λ _ _.
          through_l2 label m t i c (part_entry 0x1000 3 e) m' a va
          ∙ ap (λ x. after_l3e x va) (a.inside j small)
          ∙ after_l3e-page part va (is_valid-part_entry 0x1000 3 e j (omega arith))
          ∙ ap some address
          ∙ sym (after_l2e-block e va m.words valid block);
      at_l3 = λ h _. absurd (omega (arith, h, high));
    }
