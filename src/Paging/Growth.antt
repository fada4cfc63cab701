-- ===== src/Paging/Growth.antt =====
-- How the tree of page tables grows by a table: `shatter_l1_block`, `shatter_l2_block` and the new
-- tables of `map_va` (kernel/src/arch/aarch64/page_table.rs).
use capsule_os.Base.{
  ℕ, zero, suc, ◌+◌, ◌*◌, ◌%◌, ◌^◌, ◌≤◌, ◌<◌, ◌≡◌, ◌≢◌, refl, ap, ◌∙◌, inl, inr, true, false,
  Bool-cases, bit_and, ltb, leb, ◌==◌, ==_refl, ==_of_ne, eq_of_==, arith,
}
use capsule_os.Memory.Pages.{zero_page}
use capsule_os.Paging.{
  Machine, table_of, table_entry, part_entry, read_pte, write_pte, put, track, fill_parts,
}
use capsule_os.Paging.Entry.{is_valid-part_entry, block_part-bit, block_part-address}
use capsule_os.Paging.Allocation.{IsAllocator, granted, IsGranted, track-IsAllocator, track-keeps}
use capsule_os.Paging.Shape.{IsEntry, IsTree, IsAttached}

pub read-write_same : (t i e : ℕ) (words : ℕ → ℕ) → read_pte t i (write_pte t i e words) ≡ e
read-write_same t i e words = rw (==_refl (t + 8 * i)) refl

-- Words of different tables, or at different indices, lie apart.
pub read-write_other :
    (p j t i e : ℕ) (words : ℕ → ℕ)
    → p % 4096 ≡ 0
    → t % 4096 ≡ 0
    → j < 512
    → i < 512
    → (p ≡ t → j ≢ i)
    → read_pte p j (write_pte t i e words) ≡ read_pte p j words
read-write_other p j t i e words hp ht hj hi other =
    let apart : p + 8 * j ≢ t + 8 * i =
      λ same. other (omega (arith, same, hp, ht, hj, hi)) (omega (arith, same, hp, ht, hj, hi)) in
    rw (==_of_ne (p + 8 * j) (t + 8 * i) apart) refl

zero_page-before :
    (p j c : ℕ) (words : ℕ → ℕ)
    → p + 4096 ≤ c
    → j < 512
    → read_pte p j (zero_page c words) ≡ read_pte p j words
zero_page-before p j c words h hj =
    let below : leb c (p + 8 * j) ≡ false = ground (arith, h, hj) in rw below refl

zero_page-inside : (j c : ℕ) (words : ℕ → ℕ) → j < 512 → read_pte c j (zero_page c words) ≡ 0
zero_page-inside j c words hj =
    let low : leb c (c + 8 * j) ≡ true = ground arith in
    let high : ltb (c + 8 * j) (c + 4096) ≡ true = ground (arith, hj) in rw (low, high) refl

-- The loop over the parts writes each entry of the new table once, and nothing else.
fill_parts-inside :
    (c : ℕ) (entry : ℕ → ℕ) (n j : ℕ) (words : ℕ → ℕ)
    → c % 4096 ≡ 0
    → n ≤ 512
    → j < n
    → read_pte c j (fill_parts c entry n words) ≡ entry j
unfolding fill_parts
fill_parts-inside c entry zero j words whole all less = absurd (omega (arith, less))
fill_parts-inside c entry (suc n) j words whole all less = elim (Bool-cases (j == n)) [
  | inl last ↦ rw (eq_of_== j n last) (read-write_same c n (entry n) (fill_parts c entry n words))
  | inr earlier ↦
      read-write_other c j c n (entry n) (fill_parts c entry n words) whole whole
        (omega (arith, less, all)) (omega (arith, all))
        (λ _ same. absurd (cc (rw (same, ==_refl n) at earlier)))
      ∙ fill_parts-inside c entry n j words whole (omega (arith, all))
          (ground (arith, less, earlier))
]

fill_parts-outside :
    (c : ℕ) (entry : ℕ → ℕ) (n p j : ℕ) (words : ℕ → ℕ)
    → c % 4096 ≡ 0
    → p % 4096 ≡ 0
    → n ≤ 512
    → j < 512
    → p ≢ c
    → read_pte p j (fill_parts c entry n words) ≡ read_pte p j words
unfolding fill_parts
fill_parts-outside c entry zero p j words hc hp all hj other = refl
fill_parts-outside c entry (suc n) p j words hc hp all hj other =
    read-write_other p j c n (entry n) (fill_parts c entry n words) hp hc hj (omega (arith, all))
      (λ same _. other same)
    ∙ fill_parts-outside c entry n p j words hc hp (omega (arith, all)) hj other

-- A new table whose entries are written before the entry that links it.
attach :
    (label : ℕ → ℕ) (m : Machine) (t i c : ℕ) (content w : ℕ → ℕ) (m' : Machine)
    → IsTree label m
    → 0 < label t
    → i < 512
    → IsGranted c m.phys
    → IsAllocator m'.phys
    → m'.phys.next ≡ c + 4096
    → m'.tree.l0_pa ≡ m.tree.l0_pa
    → m'.tree.has_root ≡ m.tree.has_root
    → m'.words ≡ write_pte t i (table_entry c) w
    → ((p j : ℕ) → p % 4096 ≡ 0 → p < c → j < 512 → read_pte p j w ≡ read_pte p j m.words)
    → ((j : ℕ) → j < 512 → read_pte c j w ≡ content j)
    → ((any : ℕ → ℕ) (j : ℕ) → j < 512 → IsEntry any (512 * label t + i) j (content j))
    → IsAttached label m t i c content m'
attach label m t i c content w m' tree pos small g a next root rooted written old inside parts =
    let t_whole = tree.whole t pos in
    let below : t < c = omega (arith, tree.in_use t pos, g.above) in
    record {
      granted = g;
      allocator = a;
      cursor = next;
      root = root;
      rooted = rooted;
      frame = λ p j h less other.
          ap (read_pte p j) written
          ∙ read-write_other p j t i (table_entry c) w (tree.whole p h) t_whole less small other
          ∙ old p j (tree.whole p h) (omega (arith, tree.in_use p h, g.above)) less;
      link = ap (read_pte t i) written ∙ read-write_same t i (table_entry c) w;
      parts = parts;
      inside = λ j less.
          ap (read_pte c j) written
          ∙ read-write_other c j t i (table_entry c) w g.whole t_whole less small
              (λ same _. omega (arith, same, below))
          ∙ inside j less;
    }

-- The machine after a new, empty table.
abbrev pub with_table : ℕ → ℕ → ℕ → Machine → Machine
with_table t i c m = track c (put t i (table_entry c) (granted c m))

pub empty_entry : (any : ℕ → ℕ) (l j : ℕ) → IsEntry any l j 0
empty_entry any l j = record {
  child = λ _ is. absurd (cc is);
  no_block = λ _ is. absurd (cc is);
  giga = λ _ is _. absurd (cc is);
  mega = λ _ is _. absurd (cc is);
}

pub with_table-IsAttached :
    (label : ℕ → ℕ) (m : Machine) (t i c : ℕ)
    → IsTree label m
    → 0 < label t
    → i < 512
    → IsGranted c m.phys
    → IsAttached label m t i c (λ _. 0) (with_table t i c m)
with_table-IsAttached label m t i c tree pos small g =
    let w = zero_page c m.words in
    let linked = put t i (table_entry c) (granted c m) in
    let (words, root, rooted, next) = track-keeps c linked in
    let a = track-IsAllocator c linked g.allocator (omega (arith, g.low)) (omega arith) in
    attach label m t i c (λ _. 0) w (with_table t i c m) tree pos small g a next root rooted words
      (λ p j hp less hj. zero_page-before p j c m.words (omega (arith, hp, less, g.whole)) hj)
      (λ j hj. zero_page-inside j c m.words hj) (λ any j _. empty_entry any (512 * label t + i) j)

-- The machine after a block is split.
abbrev pub with_parts : ℕ → ℕ → ℕ → ℕ → ℕ → ℕ → Machine → Machine
with_parts width kind t i e c m =
    let m2 = track c (granted c m) in
    let filled = fill_parts c (part_entry width kind e) 512 m2.words in
    put t i (table_entry c) (record m2 { words = filled })

pub with_parts-IsAttached :
    (label : ℕ → ℕ) (m : Machine) (width kind t i e c : ℕ)
    → IsTree label m
    → 0 < label t
    → i < 512
    → IsGranted c m.phys
    → ((any : ℕ → ℕ) (j : ℕ)
        → j < 512
        → IsEntry any (512 * label t + i) j (part_entry width kind e j))
    → IsAttached label m t i c (part_entry width kind e) (with_parts width kind t i e c m)
with_parts-IsAttached label m width kind t i e c tree pos small g parts =
    let m2 = track c (granted c m) in
    let entry = part_entry width kind e in
    let w = fill_parts c entry 512 m2.words in
    let (words, root, rooted, next) = track-keeps c (granted c m) in
    let a = track-IsAllocator c (granted c m) g.allocator (omega (arith, g.low)) (omega arith) in
    attach label m t i c entry w (with_parts width kind t i e c m) tree pos small g a next root
      rooted refl
      (λ p j hp less hj.
        fill_parts-outside c entry 512 p j m2.words g.whole hp (omega arith) hj
          (omega (arith, less))
        ∙ ap (read_pte p j) words
        ∙ zero_page-before p j c m.words (omega (arith, hp, less, g.whole)) hj)
      (λ j hj. fill_parts-inside c entry 512 j m2.words g.whole (omega arith) hj) parts

-- The parts of a block of 1 GiB lie in a table of level 2, where they are blocks; those of a block of
-- 2 MiB lie in a table of level 3.
pub block_part-IsEntry :
    (any : ℕ → ℕ) (l e j : ℕ)
    → 2 ^ 18 ≤ l
    → bit_and e 2 ≡ 0
    → table_of e % 2 ^ 30 ≡ 0
    → j < 512
    → IsEntry any l j (part_entry 0x20_0000 1 e j)
block_part-IsEntry any l e j deep block whole small =
    let bit : bit_and (part_entry 0x20_0000 1 e j) 2 ≡ 0 = block_part-bit e j block in
    record {
      child =
          λ _ is. absurd (cc (rw (bit, is_valid-part_entry 0x20_0000 1 e j (omega arith)) at is));
      no_block = λ low _. absurd (omega (arith, low, deep));
      giga = λ low _ _. absurd (omega (arith, low, deep));
      mega = λ _ _ _. omega (arith, (block_part-address e j whole small).0, whole);
    }

pub deep-IsEntry : (any : ℕ → ℕ) (l j e : ℕ) → 2 ^ 27 ≤ l → IsEntry any l j e
deep-IsEntry any l j e deep = record {
  child = λ low _. absurd (omega (arith, low, deep));
  no_block = λ low _. absurd (omega (arith, low, deep));
  giga = λ low _ _. absurd (omega (arith, low, deep));
  mega = λ low _ _. absurd (omega (arith, low, deep));
}
