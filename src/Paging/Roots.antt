-- ===== src/Paging/Roots.antt =====
-- The root of a process's page tables: how it is made, filled from the parent's, and given up
-- (kernel/src/arch/aarch64/page_table.rs).
use capsule_os.Base.{
  ℕ, zero, suc, ◌+◌, ◌%◌, ◌^◌, ◌<◌, ◌≡◌, refl, sym, ap, subst, ◌∙◌, true, false, not, Bool-cases,
  inl, inr, Option, none, some, List, set, get_or, ◌==◌, ==_refl, eq_of_==, if◌then◌else◌, arith,
}
use capsule_os.Shared.Status.{already_exists}
use capsule_os.Memory.Pages.{Phys, free_page}
use capsule_os.Paging.{
  Machine, Run, done, failed, ◌>>=◌, table_of, table_entry, read_pte, write_pte, alloc_pt_page,
  track,
}
use capsule_os.Paging.Allocation.{IsAllocator, track-IsAllocator, track-keeps}
use capsule_os.Paging.Shape.{IsEntry, IsTree}
use capsule_os.Paging.Growth.{empty_entry}

-- The first entry of the root points to a table of level 1. A page that was given before an error is not
-- given back.
unfoldable pub allocate_root : Machine → Run (Unit {0})
unfolding alloc_pt_page
allocate_root m =
    if m.tree.has_root
    then failed already_exists m
    else alloc_pt_page m >>= (λ l0 m1. alloc_pt_page m1 >>= (λ l1 m2. done tt (record m2 {
      words = write_pte l0 0 (table_entry l1) m2.words;
      tree = record {
        l0_pa = l0;
        tracked = set (set m2.tree.tracked 0 l0) 1 l1;
        count = 2;
        generation = 1;
        has_root = true;
      };
    })))

unfoldable pub set_root_raw : ℕ → Machine → Machine
unfolding track
set_root_raw l0_pa m = track l0_pa (record m {
  tree = record m.tree {
    l0_pa = l0_pa;
    has_root = true;
    generation = (m.tree.generation + 1) % 2 ^ 64;
  };
})

-- The loop of `clone_high_half`, over `n` entries from `idx` on.
unfoldable pub clone_entries : ℕ → ℕ → ℕ → ℕ → (ℕ → ℕ) → ℕ → ℕ
clone_entries parent own idx zero words = words
clone_entries parent own idx (suc n) words =
    let entry = read_pte parent idx words in
    clone_entries parent own (idx + 1) n
      (if entry == 0 then words else write_pte own idx entry words)

unfoldable pub clone_high_half : ℕ → Machine → Machine
unfolding clone_entries
clone_high_half parent_l0_pa m =
    if not m.tree.has_root
    then m
    else record m { words = clone_entries parent_l0_pa m.tree.l0_pa 256 256 m.words }

-- Of the entries of the tables of level 1, the loop takes only the one at 1.
unfoldable pub clone_identity_block : ℕ → Machine → Machine
clone_identity_block parent_l0_pa m =
    let entry_0 = read_pte parent_l0_pa 0 m.words in
    let parent_l1_pa = table_of entry_0 in
    let my_entry_0 = read_pte m.tree.l0_pa 0 m.words in
    let my_l1_pa = table_of my_entry_0 in
    let entry = read_pte parent_l1_pa 1 m.words in
    if not m.tree.has_root
    then m
    else if entry_0 == 0
    then m
    else if parent_l1_pa == 0
    then m
    else if my_entry_0 == 0
    then m
    else if my_l1_pa == 0
    then m
    else if entry == 0
    then m
    else record m { words = write_pte my_l1_pa 1 entry m.words }

-- The loop of `free_tree`, from the last tracked page to the first; a panic of `free_page` is `none`.
unfoldable pub free_tracked : List ℕ → ℕ → Phys → Option Phys
free_tracked tracked zero s = some s
free_tracked tracked (suc idx) s =
    let pa = get_or tracked idx 0 in
    if pa == 0
    then free_tracked tracked idx s
    else elim (free_page pa s) [ none ↦ none | some s' ↦ free_tracked tracked idx s' ]

unfoldable pub free_tree : Machine → Option Machine
unfolding free_tracked
free_tree m =
    if not m.tree.has_root then some m else elim (free_tracked m.tree.tracked m.tree.count m.phys) [
      | none ↦ none
      | some s ↦ some (record m {
        phys = s;
        tree = record m.tree { l0_pa = 0; count = 0; generation = 0; has_root = false };
      })
    ]

-- The label of a root alone.
abbrev pub only_root : ℕ → ℕ → ℕ
only_root root p = if p == root then 1 else 0

-- A page of zeros that is in use below the cursor of the allocator, set as the root, is a tree of page
-- tables.
pub set_root_raw-IsTree :
    (l0 : ℕ) (m : Machine)
    → IsAllocator m.phys
    → 0 < l0
    → l0 % 4096 ≡ 0
    → l0 < m.phys.next
    → ((j : ℕ) → j < 512 → read_pte l0 j m.words ≡ 0)
    → IsTree (only_root l0) (set_root_raw l0 m)
unfolding set_root_raw
set_root_raw-IsTree l0 m a pos whole below zeros =
    let rooted : Machine = record m {
      tree = record m.tree {
        l0_pa = l0;
        has_root = true;
        generation = (m.tree.generation + 1) % 2 ^ 64;
      };
    } in
    let (words, root, _, next) = track-keeps l0 rooted in
    let is : (p : ℕ) → 0 < only_root l0 p → p ≡ l0 = λ p h. elim (Bool-cases (p == l0)) [
      | inl same ↦ eq_of_== p l0 same
      | inr other ↦ absurd (omega (arith, rw other at h))
    ] in
    record {
      allocator = track-IsAllocator l0 rooted a pos below;
      root = ap (only_root l0) root ∙ rw (==_refl l0) refl;
      whole = λ p h. ap (λ q. q % 4096) (is p h) ∙ whole;
      in_use = λ p h. omega (arith, is p h, next, below);
      entries = λ p j h small.
          let zero_entry : read_pte p j (track l0 rooted).words ≡ 0 =
            ap (read_pte p j) words ∙ ap (λ q. read_pte q j m.words) (is p h) ∙ zeros j small in
          subst (IsEntry (only_root l0) (only_root l0 p) j) (sym zero_entry)
            (empty_entry (only_root l0) (only_root l0 p) j);
    }
