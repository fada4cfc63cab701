-- ===== src/Paging/Release.antt =====
-- Pages taken out of the page tables, and the tables given back (kernel/src/arch/aarch64/mmu.rs,
-- page_table.rs).
use capsule_os.Base.{
  ℕ, zero, suc, Bool, true, false, not, ◌&&◌, Option, none, some, List, [], ◌∷◌, ◌++◌, length, take,
  bit_and, leb, ◌==◌, if◌then◌else◌,
}
use capsule_os.Shared.Status.{invalid_args}
use capsule_os.Shared.Result.{Result, ok, err}
use capsule_os.Memory.Tracker.{live_slots}
use capsule_os.Memory.Pages.{Phys, free_page}
use capsule_os.Paging.{
  Machine, is_valid, is_table, table_of, read_pte, write_pte, va_l0_index, va_l1_index, va_l2_index,
  va_l3_index,
}

-- The words after `unmap_page`, below the root that the hardware has for the address.
unfoldable pub unmap_words : ℕ → ℕ → (ℕ → ℕ) → ℕ → ℕ
unmap_words l0_pa va words =
    let l0e = read_pte l0_pa (va_l0_index va) words in
    let l1e = read_pte (table_of l0e) (va_l1_index va) words in
    let l2e = read_pte (table_of l1e) (va_l2_index va) words in
    if not (is_table l0e)
    then words
    else if not (is_table l1e)
    then words
    else if not (is_table l2e)
    then words
    else write_pte (table_of l2e) (va_l3_index va) 0 words

unfoldable pub unmap_page : ℕ → ℕ → (ℕ → ℕ) → Result (Unit {0}) × (ℕ → ℕ)
unfolding unmap_words
unmap_page root va words =
    if not (bit_and va 0xfff == 0)
    then (err invalid_args, words)
    else (ok tt, unmap_words (bit_and root 0xffff_ffff_f000) va words)

-- A loop over the entries of a table that point to tables; a panic of `free_page` is `none`.
unfoldable pub each_table : (ℕ → Phys → Option Phys) → ℕ → ℕ → (ℕ → ℕ) → Phys → Option Phys
each_table visit table zero words s = some s
each_table visit table (suc idx) words s = elim (each_table visit table idx words s) [
  | none ↦ none
  | some s' ↦
      let e = read_pte table idx words in if is_table e then visit (table_of e) s' else some s'
]

unfoldable pub free_l2_table : (ℕ → ℕ) → ℕ → Phys → Option Phys
unfolding each_table
free_l2_table words l2_pa s = elim (each_table free_page l2_pa 512 words s) [
  | none ↦ none
  | some s' ↦ free_page l2_pa s'
]

unfoldable pub free_l1_table : (ℕ → ℕ) → ℕ → Phys → Option Phys
unfolding each_table
free_l1_table words l1_pa s = elim (each_table (free_l2_table words) l1_pa 512 words s) [
  | none ↦ none
  | some s' ↦ free_page l1_pa s'
]

-- `free_page_table_tree`: the user half of the root.
unfoldable pub free_page_table_tree : (ℕ → ℕ) → ℕ → Phys → Option Phys
unfolding each_table
free_page_table_tree words l0_pa s = elim (each_table (free_l1_table words) l0_pa 256 words s) [
  | none ↦ none
  | some s' ↦ free_page l0_pa s'
]

-- What `validate` has seen: its answer so far, and the pages that it reached.
pub record Seen : Type 0 where
  pub good : Bool
  pub reachable : List ℕ

unfoldable pub track_reachable : ℕ → Seen → Seen
track_reachable pa seen =
    if leb 64 (length seen.reachable)
    then seen
    else if live_slots pa seen.reachable
    then seen
    else record seen { reachable = seen.reachable ++ (pa ∷ []) }

-- The loops over one table, with what is done at each of its valid entries.
unfoldable pub scan_table : (ℕ → Seen → Seen) → ℕ → ℕ → (ℕ → ℕ) → Seen → Seen
scan_table visit table zero words seen = seen
scan_table visit table (suc idx) words seen =
    let before = scan_table visit table idx words seen in
    let e = read_pte table idx words in if is_valid e then visit e before else before

unfoldable pub scan_l3e : ℕ → Seen → Seen
scan_l3e l3e seen = if bit_and l3e 2 == 0 then record seen { good = false } else seen

unfoldable pub scan_l2e : (ℕ → ℕ) → ℕ → Seen → Seen
unfolding scan_table scan_l3e track_reachable
scan_l2e words l2e seen =
    if bit_and l2e 2 == 0
    then seen
    else scan_table scan_l3e (table_of l2e) 512 words (track_reachable (table_of l2e) seen)

unfoldable pub scan_l1e : (ℕ → ℕ) → ℕ → Seen → Seen
unfolding scan_table scan_l2e track_reachable
scan_l1e words l1e seen =
    if bit_and l1e 2 == 0
    then seen
    else scan_table (scan_l2e words) (table_of l1e) 512 words (track_reachable (table_of l1e) seen)

unfoldable pub scan_l0e : (ℕ → ℕ) → ℕ → Seen → Seen
unfolding scan_table scan_l1e track_reachable
scan_l0e words l0e seen =
    if bit_and l0e 2 == 0
    then record seen { good = false }
    else scan_table (scan_l1e words) (table_of l0e) 512 words (track_reachable (table_of l0e) seen)

-- The pages of one list that the other one lacks.
unfoldable pub all_known : List ℕ → List ℕ → Bool
all_known [] known = true
all_known (pa ∷ pages) known = live_slots pa known && all_known pages known

abbrev pub drop_zeros : List ℕ → List ℕ
drop_zeros [] = []
drop_zeros (pa ∷ pages) = if pa == 0 then drop_zeros pages else pa ∷ drop_zeros pages

unfoldable pub validate : Machine → Bool
unfolding scan_table scan_l0e track_reachable all_known
validate m =
    let start = track_reachable m.tree.l0_pa (record { good = true; reachable = [] }) in
    let seen = scan_table (scan_l0e m.words) m.tree.l0_pa 256 m.words start in
    let tracked = take m.tree.count m.tree.tracked in
    if not m.tree.has_root
    then true
    else seen.good
      && all_known (drop_zeros tracked) seen.reachable
      && all_known seen.reachable tracked
