-- ===== src/Paging.antt =====
-- The page tables of a process (kernel/src/arch/aarch64/page_table.rs, and the walks of
-- kernel/src/arch/aarch64/mmu.rs). Cache maintenance and the invalidation of the translation buffer
-- have no effect on the model.
pub mod Entry
pub mod Allocation
pub mod Shape
pub mod Growth
pub mod Walks
pub mod Kept
pub mod Steps
pub mod Roots
pub mod Release
pub mod Reach
pub mod Mapping
pub mod Supply
pub mod Buffers
pub mod Unmapping
use capsule_os.Base.{
  ℕ, zero, suc, ◌+◌, ◌-◌, ◌*◌, ◌/◌, ◌%◌, ◌^◌, Bool, true, false, not, ◌&&◌, ◌||◌, Option, none,
  some, List, ◌∷◌, take, set, replicate, bit_and, ltb, leb, ◌==◌, if◌then◌else◌,
}
use capsule_os.Shared.Status.{Status, no_memory, invalid_args, not_allowed}
use capsule_os.Memory.Tracker.{register_pt_page, live_slots}
use capsule_os.Memory.Pages.{
  Phys, page_table, zero_page, Allocated, given, no_page, panicked, out_of_fuel, alloc_page,
}
use Prim.Native.Nat.{bit_or}

pub data MemAttr : Type 0 where
  normal_cacheable device : MemAttr

pub record MapFlags : Type 0 where
  pub mem_attr : MemAttr
  pub readable : Bool
  pub writable : Bool
  pub executable : Bool
  pub user : Bool

-- The constants of the entries.
abbrev pub pte_valid : ℕ
pte_valid = 1

abbrev pub pte_type_block : ℕ
pte_type_block = 1

abbrev pub pte_type_table : ℕ
pte_type_table = 3

abbrev pub pte_type_page : ℕ
pte_type_page = 3

abbrev pub pte_af : ℕ
pte_af = 2 ^ 10

abbrev pub pte_normal_wb : ℕ
pte_normal_wb = 3 * 2 ^ 8 + pte_af

abbrev pub pte_device : ℕ
pte_device = 2 ^ 2 + pte_af

abbrev pub pte_ap_user : ℕ
pte_ap_user = 2 ^ 6

abbrev pub pte_ap_ro : ℕ
pte_ap_ro = 2 ^ 7

abbrev pub pte_xn : ℕ
pte_xn = 2 ^ 54

abbrev pub pte_uxn : ℕ
pte_uxn = 2 ^ 53

unfoldable pub mem_bits : MemAttr → ℕ
mem_bits normal_cacheable = pte_normal_wb
mem_bits device = pte_device

-- The access bits of `pte_attr_bits`.
unfoldable pub access_bits : Bool → Bool → ℕ
access_bits true true = pte_ap_user
access_bits true false = bit_or pte_ap_user pte_ap_ro
access_bits false true = 0
access_bits false false = pte_ap_user

unfoldable pub pte_attr_bits : MapFlags → ℕ
unfolding mem_bits access_bits
pte_attr_bits flags =
    let bits = bit_or (mem_bits flags.mem_attr) (access_bits flags.user flags.writable) in
    bit_or (if flags.executable then bits else bit_or (bit_or bits pte_xn) pte_uxn) pte_af

abbrev pub va_l0_index : ℕ → ℕ
va_l0_index va = bit_and (va / 2 ^ 39) 0x1ff

abbrev pub va_l1_index : ℕ → ℕ
va_l1_index va = bit_and (va / 2 ^ 30) 0x1ff

abbrev pub va_l2_index : ℕ → ℕ
va_l2_index va = bit_and (va / 2 ^ 21) 0x1ff

abbrev pub va_l3_index : ℕ → ℕ
va_l3_index va = bit_and (va / 2 ^ 12) 0x1ff

abbrev pub pa_to_pte_addr : ℕ → ℕ
pa_to_pte_addr pa = bit_and pa 0xffff_ffff_f000

-- An entry's valid bit, its table bit, and the table that it points to.
abbrev pub is_valid : ℕ → Bool
is_valid e = not (bit_and e 1 == 0)

abbrev pub is_table : ℕ → Bool
is_table e = not (bit_and e 1 == 0) && not (bit_and e 2 == 0)

abbrev pub table_of : ℕ → ℕ
table_of e = bit_and e 0xffff_ffff_f000

-- The entry for a table, cleaned, the entry for a page, and those of a block that is split: `width` is
-- the size of a part.
abbrev pub table_entry : ℕ → ℕ
table_entry table =
    bit_and (bit_or (bit_or (pa_to_pte_addr table) pte_valid) pte_type_table) 0xffff_ffff_f003

abbrev pub page_entry : ℕ → MapFlags → ℕ
page_entry pa flags =
    bit_or (bit_or (bit_or (pa_to_pte_addr pa) pte_valid) pte_type_page) (pte_attr_bits flags)

abbrev pub block_attr : ℕ → ℕ
block_attr original =
    let user = bit_or (bit_and original 0xf_0000_0000_0fff) pte_ap_user in
    bit_and (bit_and user (2 ^ 64 - 1 - pte_xn)) (2 ^ 64 - 1 - pte_uxn)

abbrev pub part_entry : ℕ → ℕ → ℕ → ℕ → ℕ
part_entry width kind original i =
    let pa = bit_and original 0xffff_ffff_f000 + i * width in
    bit_or (bit_or (bit_or (pa_to_pte_addr pa) pte_valid) kind) (block_attr original)

-- `core::ptr`: the word at an index of a table; the words of memory are kept by their address.
abbrev pub read_pte : ℕ → ℕ → (ℕ → ℕ) → ℕ
read_pte table idx words = words (table + 8 * idx)

abbrev pub write_pte : ℕ → ℕ → ℕ → (ℕ → ℕ) → ℕ → ℕ
write_pte table idx e words a = if a == table + 8 * idx then e else words a

pub record PageTableTree : Type 0 where
  pub l0_pa : ℕ
  pub tracked : List ℕ
  pub count : ℕ
  pub generation : ℕ
  pub has_root : Bool

abbrev pub new : PageTableTree
new = record { l0_pa = 0; tracked = replicate 64 0; count = 0; generation = 0; has_root = false }

-- A tree, the page allocator, and the words of the pages in use as tables.
pub record Machine : Type 0 where
  pub tree : PageTableTree
  pub phys : Phys
  pub words : ℕ → ℕ

-- What an operation does: it returns, reports an error, or the allocator panics (or is out of fuel).
pub data Run {ℓ} (A : Type ℓ) : Type ℓ where
  done : A → Machine → Run A
  failed : Status → Machine → Run A
  crashed unfinished : Run A

infixl 5 ◌>>=◌
abbrev pub ◌>>=◌ {ℓ κ} : {A : Type ℓ} {B : Type κ} → Run A → (A → Machine → Run B) → Run B
done a m >>= f = f a m
failed e m >>= f = failed e m
crashed >>= f = crashed
unfinished >>= f = unfinished

-- `phys::alloc_pt_page`: the page is filled with zeros.
unfoldable pub alloc_pt_page : Machine → Run ℕ
alloc_pt_page m = elim (alloc_page page_table m.phys) [
  | given pa s ↦ done pa (record m { phys = s; words = zero_page pa m.words })
  | no_page s ↦ failed no_memory (record m { phys = s })
  | panicked ↦ crashed
  | out_of_fuel ↦ unfinished
]

-- A full array drops the page.
unfoldable pub track : ℕ → Machine → Machine
track pa m =
    let t = m.tree in
    if leb 64 t.count then m else if live_slots pa (take t.count t.tracked) then m else record m {
      tree = record t { tracked = set t.tracked t.count pa; count = t.count + 1 };
      phys = record m.phys { live = register_pt_page pa m.phys.live };
    }

abbrev pub put : ℕ → ℕ → ℕ → Machine → Machine
put table idx e m = record m { words = write_pte table idx e m.words }

-- The loops that fill a new table with the parts of a block.
unfoldable pub fill_parts : ℕ → (ℕ → ℕ) → ℕ → (ℕ → ℕ) → ℕ → ℕ
fill_parts table entry zero words = words
fill_parts table entry (suc n) words =
    let filled = fill_parts table entry n words in write_pte table n (entry n) filled

-- `shatter_l1_block` and `shatter_l2_block`, with the size and the kind of the parts.
unfoldable pub shatter : ℕ → ℕ → ℕ → ℕ → ℕ → Machine → Run ℕ
unfolding alloc_pt_page track fill_parts
shatter width kind table idx original m = alloc_pt_page m >>= (λ new_table m1.
    let m2 = track new_table m1 in
    let filled = fill_parts new_table (part_entry width kind original) 512 m2.words in
    done new_table (put table idx (table_entry new_table) (record m2 { words = filled })))

abbrev pub shatter_l1_block : ℕ → ℕ → ℕ → Machine → Run ℕ
shatter_l1_block = shatter 0x20_0000 pte_type_block

abbrev pub shatter_l2_block : ℕ → ℕ → ℕ → Machine → Run ℕ
shatter_l2_block = shatter 0x1000 pte_type_page

abbrev pub refuse_l0_block : ℕ → ℕ → ℕ → Machine → Run ℕ
refuse_l0_block table idx original m = failed not_allowed m

-- The step of `map_va` from a table to the next: follow a table, split a block, or make a new table.
unfoldable pub next_table : (ℕ → ℕ → ℕ → Machine → Run ℕ) → ℕ → ℕ → Machine → Run ℕ
unfolding alloc_pt_page track
next_table split table idx m =
    let e = read_pte table idx m.words in
    if is_table e
    then done (table_of e) m
    else if is_valid e
    then split table idx e m
    else alloc_pt_page m >>= (λ new_table m1.
      done new_table (track new_table (put table idx (table_entry new_table) m1)))

-- The way of `map_va` to the table of level 3.
unfoldable pub l3_table : ℕ → Machine → Run ℕ
unfolding next_table shatter
l3_table va m = next_table refuse_l0_block m.tree.l0_pa (va_l0_index va) m >>= (λ l1_pa m1.
    next_table shatter_l1_block l1_pa (va_l1_index va) m1
    >>= (λ l2_pa m2. next_table shatter_l2_block l2_pa (va_l2_index va) m2))

unfoldable pub map_va : ℕ → ℕ → MapFlags → Machine → Run (Unit {0})
unfolding l3_table
map_va va pa flags m =
    if not (bit_and va 0xfff == 0) || not (bit_and pa 0xfff == 0)
    then failed invalid_args m
    else if not m.tree.has_root
    then failed invalid_args m
    else l3_table va m
      >>= (λ l3_pa m3. done tt (put l3_pa (va_l3_index va) (page_entry pa flags) m3))

-- The walk of `translate_va` and `mmu::translate_user_va`, from its last table to its first: what
-- each does with the entry that it reads, and the read.
unfoldable pub after_l3e : ℕ → ℕ → Option ℕ
after_l3e l3e va = if not (is_valid l3e) then none else some (table_of l3e + bit_and va 0xfff)

abbrev pub walk_l3 : ℕ → ℕ → (ℕ → ℕ) → Option ℕ
walk_l3 l3_pa va words = after_l3e (read_pte l3_pa (va_l3_index va) words) va

unfoldable pub after_l2e : ℕ → ℕ → (ℕ → ℕ) → Option ℕ
after_l2e l2e va words =
    if not (is_valid l2e)
    then none
    else if bit_and l2e 2 == 0
    then some (bit_and l2e 0xffff_ffe0_0000 + bit_and va 0x1f_ffff)
    else walk_l3 (table_of l2e) va words

abbrev pub walk_l2 : ℕ → ℕ → (ℕ → ℕ) → Option ℕ
walk_l2 l2_pa va words = after_l2e (read_pte l2_pa (va_l2_index va) words) va words

unfoldable pub after_l1e : ℕ → ℕ → (ℕ → ℕ) → Option ℕ
after_l1e l1e va words =
    if not (is_valid l1e)
    then none
    else if bit_and l1e 2 == 0
    then some (bit_and l1e 0xffff_c000_0000 + bit_and va 0x3fff_ffff)
    else walk_l2 (table_of l1e) va words

abbrev pub walk_l1 : ℕ → ℕ → (ℕ → ℕ) → Option ℕ
walk_l1 l1_pa va words = after_l1e (read_pte l1_pa (va_l1_index va) words) va words

unfoldable pub after_l0e : ℕ → ℕ → (ℕ → ℕ) → Option ℕ
after_l0e l0e va words = if not (is_valid l0e) then none else walk_l1 (table_of l0e) va words

abbrev pub translate_user_va : ℕ → ℕ → (ℕ → ℕ) → Option ℕ
translate_user_va l0_pa va words = after_l0e (read_pte l0_pa (va_l0_index va) words) va words

unfoldable pub translate_va : Machine → ℕ → Option ℕ
translate_va m va = if not m.tree.has_root then none else translate_user_va m.tree.l0_pa va m.words
