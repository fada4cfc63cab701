-- ===== src/Memory/Slab.antt =====
-- The kernel heap (kernel/src/arch/aarch64/slab.rs), on one core. The pages come from the page
-- allocator, and their kernel addresses from the memory map: both are arguments here.
use capsule_os.Base.{
  ℕ, zero, suc, ◌+◌, ◌-◌, ◌*◌, ◌/◌, ◌%◌, ◌≤◌, ◌<◌, ◌≡◌, ◌≢◌, refl, ap, subst, ◌∙◌, max, Bool-cases,
  inl, inr, true, false, not, Option, none, some, List, [], ◌∷◌, length, set, get_or,
  get_or-set_self, ltb, leb, ◌==◌, ==_refl, ==_of_ne, if◌then◌else◌, arith,
}

abbrev pub class_sizes : List ℕ
class_sizes = 32 ∷ 64 ∷ 128 ∷ 256 ∷ 512 ∷ 1024 ∷ 2048 ∷ []

abbrev pub page_header : ℕ
page_header = 8

-- The loop of `class_index`, from index `i` on.
unfoldable pub first_class : ℕ → ℕ → List ℕ → Option ℕ
first_class need i [] = none
first_class need i (cs ∷ classes) =
    let rest = first_class need (i + 1) classes in if leb need cs then some i else rest

unfoldable pub class_index : ℕ → ℕ → Option ℕ
unfolding first_class
class_index size align = first_class (max size align) 0 class_sizes

-- A page has room for a block of every class, so the test for none in `refill` never holds.
abbrev pub blocks_per_page : ℕ → ℕ
blocks_per_page block_size = (4096 - page_header) / block_size

-- The heads of the free lists, and the words of memory by their address.
pub record Slab : Type 0 where
  pub heads : List ℕ
  pub words : ℕ → ℕ

-- `ptr::write` of a word.
abbrev pub write_word : ℕ → ℕ → (ℕ → ℕ) → ℕ → ℕ
write_word address value words a = if a == address then value else words a

-- The loop that links the blocks of a page, with `n` to go from index `i` on.
unfoldable pub link_blocks : ℕ → ℕ → ℕ → ℕ → (ℕ → ℕ) → ℕ → ℕ
link_blocks zero i data_start block_size words = words
link_blocks (suc n) i data_start block_size words =
    link_blocks n (i + 1) data_start block_size
      (write_word (data_start + i * block_size) (data_start + (i + 1) * block_size) words)

-- `refill`, with the kernel address of the page that the page allocator gives, if it gives one.
unfoldable pub refill : ℕ → Option ℕ → Slab → Slab
unfolding link_blocks
refill ci page s = elim page [
  | none ↦ s
  | some kva ↦
      let block_size = get_or class_sizes ci 0 in
      let last = blocks_per_page block_size - 1 in
      let data_start = kva + page_header in
      let linked =
        link_blocks last 0 data_start block_size (write_word kva (get_or s.heads ci 0) s.words) in
      record {
        heads = set s.heads ci data_start;
        words = write_word (data_start + last * block_size) 0 linked;
      }
]

-- A round of the loop of `allocate` with a block at the head: the block, and the list without it.
unfoldable pub pop_block : ℕ → Slab → ℕ × Slab
pop_block ci s =
    let head = get_or s.heads ci 0 in (head, record s { heads = set s.heads ci (s.words head) })

-- The loop refills an empty list once: after that the head is 0, and null is returned, or a block.
unfoldable pub allocate : ℕ → ℕ → Option ℕ → Slab → ℕ × Slab
unfolding class_index refill pop_block
allocate size align page s = if ltb 64 align then (0, s) else elim (class_index size align) [
  | none ↦ (0, s)
  | some ci ↦
      if not (get_or s.heads ci 0 == 0)
      then pop_block ci s
      else (let filled = refill ci page s in
          if get_or filled.heads ci 0 == 0 then (0, filled) else pop_block ci filled)
]

unfoldable pub deallocate : ℕ → ℕ → ℕ → Slab → Slab
unfolding class_index
deallocate ptr size align s = elim (class_index size align) [
  | none ↦ s
  | some ci ↦ record {
    heads = set s.heads ci ptr;
    words = write_word ptr (get_or s.heads ci 0) s.words;
  }
]

first_class_lem :
    (need i : ℕ) (classes : List ℕ) (ci : ℕ)
    → first_class need i classes ≡ some ci
    → (k : ℕ) × (ci ≡ i + k) × (k < length classes) × (need ≤ get_or classes k 0)
unfolding first_class
first_class_lem need i [] ci h = absurd cc
first_class_lem need i (cs ∷ classes) ci h = elim (Bool-cases (leb need cs)) [
  | inl fits ↦
      let found = rw fits at h in
      let at : i ≡ ci = cc in (0, omega (arith, at), omega arith, ground (arith, fits))
  | inr small ↦
      let (k, at, in_range, large) = first_class_lem need (i + 1) classes ci (rw small at h) in
      (suc k, omega (arith, at), omega (arith, in_range), large)
]

-- A class that is found is one of the seven, and its blocks are large enough for the size and for the
-- alignment.
pub class_index-fits :
    (size align ci : ℕ)
    → class_index size align ≡ some ci
    → (ci < 7) × (size ≤ get_or class_sizes ci 0) × (align ≤ get_or class_sizes ci 0)
unfolding class_index
class_index-fits size align ci h =
    let (k, at, in_range, large) = first_class_lem (max size align) 0 class_sizes ci h in
    let same : k ≡ ci = omega (arith, at) in
    let need : max size align ≤ get_or class_sizes ci 0 =
      subst (λ j. max size align ≤ get_or class_sizes j 0) same large in
    (omega (arith, at, in_range), omega (arith, need), omega (arith, need))

set-set-get_or : (xs : List ℕ) (i v : ℕ) → i < length xs → set (set xs i v) i (get_or xs i 0) ≡ xs
set-set-get_or [] i v h = refl
set-set-get_or (x ∷ xs) zero v h = refl
set-set-get_or (x ∷ xs) (suc i) v h = ap (λ r. x ∷ r) (set-set-get_or xs i v (omega arith))

-- With the seven lists: a block that is given back under a layout of alignment at most 64 is the next
-- one that is handed out under that layout, and then every list is as before.
pub allocate-deallocate :
    (ptr size align ci : ℕ) (page : Option ℕ) (s : Slab)
    → ptr ≢ 0
    → length s.heads ≡ 7
    → align ≤ 64
    → class_index size align ≡ some ci
    → allocate size align page (deallocate ptr size align s)
      ≡ (ptr, record s { words = write_word ptr (get_or s.heads ci 0) s.words })
unfolding allocate deallocate pop_block
allocate-deallocate ptr size align ci page s nz seven small class =
    let (in_range, _, _) = class_index-fits size align ci class in
    let bound : ci < length s.heads = omega (arith, in_range, seven) in
    let ok : ltb 64 align ≡ false = ground (arith, small) in
    let head : get_or (set s.heads ci ptr) ci 0 ≡ ptr = get_or-set_self s.heads ci ptr 0 bound in
    let some_block : (ptr == 0) ≡ false = ==_of_ne ptr 0 nz in
    let same : (ptr == ptr) ≡ true = ==_refl ptr in
    let back = set-set-get_or s.heads ci ptr bound in
    let freed : Slab = record {
      heads = set s.heads ci ptr;
      words = write_word ptr (get_or s.heads ci 0) s.words;
    } in
    let given_back : deallocate ptr size align s ≡ freed = rw (class, deallocate) refl in
    let taken : allocate size align page freed ≡ (ptr, record s { words = freed.words }) =
      rw (ok, class, head, some_block, same, back) refl in
    ap (allocate size align page) given_back ∙ taken

-- A page that comes to an empty list gives its block right behind the page's header: in a page at a
-- multiple of 4096 its address is 8 more than a multiple of 32, whatever alignment was asked for.
pub allocate-fresh :
    (size align ci kva : ℕ) (s : Slab)
    → length s.heads ≡ 7
    → align ≤ 64
    → class_index size align ≡ some ci
    → get_or s.heads ci 0 ≡ 0
    → kva % 4096 ≡ 0
    → ((allocate size align (some kva) s).0 ≡ kva + page_header)
      × ((allocate size align (some kva) s).0 % 32 ≡ 8)
unfolding allocate refill pop_block
allocate-fresh size align ci kva s seven small class no_block aligned =
    let (in_range, _, _) = class_index-fits size align ci class in
    let bound : ci < length s.heads = omega (arith, in_range, seven) in
    let ok : ltb 64 align ≡ false = ground (arith, small) in
    let head : get_or (set s.heads ci (kva + page_header)) ci 0 ≡ kva + page_header =
      get_or-set_self s.heads ci (kva + page_header) 0 bound in
    let full : (kva + page_header == 0) ≡ false = ground arith in
    let first : (allocate size align (some kva) s).0 ≡ kva + page_header =
      rw (ok, class, no_block, head, full) refl in
    (first, rw first (omega (arith, aligned)))
