-- ===== src/Paging/Entry.antt =====
-- The bits of the entries that the page tables are written with
-- (kernel/src/arch/aarch64/page_table.rs).
use capsule_os.Base.{
  ℕ, ◌+◌, ◌-◌, ◌*◌, ◌/◌, ◌%◌, ◌^◌, ◌<◌, ◌≡◌, refl, sym, ◌∙◌, Bool, true, false, ap, ◌==◌, ◌≢◌,
  ==_of_ne, zero, suc, inl, inr, Bool-cases, bit_and, arith,
}
use capsule_os.Base.Bits.{bit_and-zero}
use capsule_os.Base.Masks.{
  bit_or-halves, bit_or-zero, bit_and-bit_or, bit_and_assoc, bit_and_page_base, bit_and_2m_base,
}
use capsule_os.Paging.{
  MemAttr, normal_cacheable, device, MapFlags, mem_bits, access_bits, pte_attr_bits, pte_ap_user,
  pte_xn, pte_uxn, pa_to_pte_addr, is_valid, is_table, table_of, table_entry, page_entry,
  block_attr, part_entry,
}
use Prim.Native.Nat.{bit_or}

-- A mask that a second mask leaves nothing of, or that it leaves as it is.
masked_twice : (x m k r : ℕ) → bit_and m k ≡ r → bit_and (bit_and x m) k ≡ bit_and x r
masked_twice x m k r h = bit_and_assoc x m k ∙ ap (bit_and x) h

-- A disjunction whose right side the mask removes.
mask-right_gone : (x y m : ℕ) → bit_and y m ≡ 0 → bit_and (bit_or x y) m ≡ bit_and x m
mask-right_gone x y m h =
    bit_and-bit_or x y m ∙ ap (bit_or (bit_and x m)) h ∙ bit_or-zero (bit_and x m)

-- A disjunction is 0 only when both sides are.
bit_or-ne_at : (n x y : ℕ) → x + y < n → 0 < x + y → bit_or x y ≢ 0
bit_or-ne_at zero x y h pos e = absurd (omega (arith, h))
bit_or-ne_at (suc n) x y h pos e = elim (Bool-cases (x / 2 + y / 2 == 0)) [
  | inl low ↦ ground (arith, bit_or-halves x y, e, low, pos)
  | inr high ↦
      bit_or-ne_at n (x / 2) (y / 2) (omega (arith, h, pos)) (ground (arith, high))
        (omega (arith, bit_or-halves x y, e))
]

bit_or-ne : (x y : ℕ) → 0 < x + y → bit_or x y ≢ 0
bit_or-ne x y = bit_or-ne_at (suc (x + y)) x y (omega arith)

-- A bit that the second of three disjuncts sets is set.
middle_bit : (x y z w m : ℕ) → 0 < bit_and z m → bit_and (bit_or (bit_or (bit_or x y) z) w) m ≢ 0
middle_bit x y z w m h e =
    let left = bit_or-ne (bit_and (bit_or x y) m) (bit_and z m) (omega (arith, h)) in
    let inner = bit_and-bit_or (bit_or x y) z m in
    let outer = bit_and-bit_or (bit_or (bit_or x y) z) w m in
    let positive : 0 < bit_and (bit_or (bit_or x y) z) m = rw inner (ground (arith, left)) in
    bit_or-ne (bit_and (bit_or (bit_or x y) z) m) (bit_and w m) (omega (arith, positive))
      (sym outer ∙ e)

-- A mask that the last three disjuncts have nothing in.
first_only :
    (x y z w m : ℕ)
    → bit_and y m ≡ 0
    → bit_and z m ≡ 0
    → bit_and w m ≡ 0
    → bit_and (bit_or (bit_or (bit_or x y) z) w) m ≡ bit_and x m
first_only x y z w m hy hz hw =
    mask-right_gone (bit_or (bit_or x y) z) w m hw
    ∙ mask-right_gone (bit_or x y) z m hz
    ∙ mask-right_gone x y m hy

-- The address of a page in 48 digits is kept.
page_address : (pa : ℕ) → pa % 4096 ≡ 0 → pa < 2 ^ 48 → pa_to_pte_addr pa ≡ pa
page_address pa whole small = omega (arith, bit_and_page_base pa, whole, small)

pub table_of_aligned : (e : ℕ) → table_of e % 4096 ≡ 0
table_of_aligned e = omega (arith, bit_and_page_base e)

table_entry-masked :
    (pa m r : ℕ)
    → bit_and 0xffff_ffff_f003 m ≡ r
    → bit_and (table_entry pa) m ≡ bit_and (bit_or (bit_or (pa_to_pte_addr pa) 1) 3) r
table_entry-masked pa m r h =
    masked_twice (bit_or (bit_or (pa_to_pte_addr pa) 1) 3) 0xffff_ffff_f003 m r h

-- A table's entry points to the table, and is one of a table.
pub table_of-table_entry : (pa : ℕ) → pa % 4096 ≡ 0 → pa < 2 ^ 48 → table_of (table_entry pa) ≡ pa
table_of-table_entry pa whole small =
    table_entry-masked pa 0xffff_ffff_f000 0xffff_ffff_f000 refl
    ∙ mask-right_gone (bit_or (pa_to_pte_addr pa) 1) 3 0xffff_ffff_f000 refl
    ∙ mask-right_gone (pa_to_pte_addr pa) 1 0xffff_ffff_f000 refl
    ∙ masked_twice pa 0xffff_ffff_f000 0xffff_ffff_f000 0xffff_ffff_f000 refl
    ∙ page_address pa whole small

both_bits : (e : ℕ) → bit_and e 1 ≢ 0 → bit_and e 2 ≢ 0 → is_table e ≡ true
both_bits e h1 h2 = rw (==_of_ne (bit_and e 1) 0 h1, ==_of_ne (bit_and e 2) 0 h2) refl

pub is_table-table_entry : (pa : ℕ) → is_table (table_entry pa) ≡ true
is_table-table_entry pa =
    both_bits (table_entry pa) (bit 1 refl (omega arith)) (bit 2 refl (omega arith))
  where
    bit :
        (m : ℕ) → bit_and 0xffff_ffff_f003 m ≡ m → 0 < bit_and 3 m → bit_and (table_entry pa) m ≢ 0
    bit m h pos e =
        let x = bit_or (pa_to_pte_addr pa) 1 in
        bit_or-ne (bit_and x m) (bit_and 3 m) (omega (arith, pos))
          (sym (bit_and-bit_or x 3 m) ∙ sym (table_entry-masked pa m m h) ∙ e)

attr_clear :
    (a : MemAttr) (r w x u : Bool)
    → bit_and
        (pte_attr_bits
          (record { mem_attr = a; readable = r; writable = w; executable = x; user = u }))
        0xffff_ffff_f000
      ≡ 0
unfolding pte_attr_bits mem_bits access_bits
attr_clear normal_cacheable r true true true = refl
attr_clear normal_cacheable r true true false = refl
attr_clear normal_cacheable r true false true = refl
attr_clear normal_cacheable r true false false = refl
attr_clear normal_cacheable r false true true = refl
attr_clear normal_cacheable r false true false = refl
attr_clear normal_cacheable r false false true = refl
attr_clear normal_cacheable r false false false = refl
attr_clear device r true true true = refl
attr_clear device r true true false = refl
attr_clear device r true false true = refl
attr_clear device r true false false = refl
attr_clear device r false true true = refl
attr_clear device r false true false = refl
attr_clear device r false false true = refl
attr_clear device r false false false = refl

-- A page's entry is valid and gives the page's address, whatever its flags.
pub table_of-page_entry :
    (pa : ℕ) (flags : MapFlags) → pa % 4096 ≡ 0 → pa < 2 ^ 48 → table_of (page_entry pa flags) ≡ pa
table_of-page_entry pa flags whole small =
    first_only (pa_to_pte_addr pa) 1 3 (pte_attr_bits flags) 0xffff_ffff_f000 refl refl
      (attr_clear flags.mem_attr flags.readable flags.writable flags.executable flags.user)
    ∙ masked_twice pa 0xffff_ffff_f000 0xffff_ffff_f000 0xffff_ffff_f000 refl
    ∙ page_address pa whole small

pub is_valid-page_entry : (pa : ℕ) (flags : MapFlags) → is_valid (page_entry pa flags) ≡ true
is_valid-page_entry pa flags =
    let set = middle_bit (pa_to_pte_addr pa) 1 3 (pte_attr_bits flags) 1 (omega arith) in
    rw (==_of_ne (bit_and (page_entry pa flags) 1) 0 set) refl

-- What a mask leaves of the attributes of a block's part.
block_attr-masked :
    (o k r : ℕ)
    → bit_and (2 ^ 64 - 1 - pte_xn) (bit_and (2 ^ 64 - 1 - pte_uxn) k) ≡ k
    → bit_and 0xf_0000_0000_0fff k ≡ r
    → bit_and pte_ap_user k ≡ 0
    → bit_and (block_attr o) k ≡ bit_and o r
block_attr-masked o k r hx hr hu =
    let user = bit_or (bit_and o 0xf_0000_0000_0fff) pte_ap_user in
    bit_and_assoc (bit_and user (2 ^ 64 - 1 - pte_xn)) (2 ^ 64 - 1 - pte_uxn) k
    ∙ masked_twice user (2 ^ 64 - 1 - pte_xn) (bit_and (2 ^ 64 - 1 - pte_uxn) k) k hx
    ∙ mask-right_gone (bit_and o 0xf_0000_0000_0fff) pte_ap_user k hu
    ∙ masked_twice o 0xf_0000_0000_0fff k r hr

-- A part is valid, and its entry under a mask of the address is the part's address under that mask.
pub is_valid-part_entry :
    (width kind original i : ℕ)
    → 0 < bit_and kind 1
    → is_valid (part_entry width kind original i) ≡ true
is_valid-part_entry width kind original i h =
    let pa = bit_and original 0xffff_ffff_f000 + i * width in
    let set = middle_bit (pa_to_pte_addr pa) 1 kind (block_attr original) 1 h in
    rw (==_of_ne (bit_and (part_entry width kind original i) 1) 0 set) refl

part_entry-masked :
    (width kind original i k : ℕ)
    → bit_and 1 k ≡ 0
    → bit_and kind k ≡ 0
    → bit_and (block_attr original) k ≡ 0
    → bit_and 0xffff_ffff_f000 k ≡ k
    → bit_and (part_entry width kind original i) k
      ≡ bit_and (bit_and original 0xffff_ffff_f000 + i * width) k
part_entry-masked width kind original i k h1 hk ha hm =
    let pa = bit_and original 0xffff_ffff_f000 + i * width in
    first_only (pa_to_pte_addr pa) 1 kind (block_attr original) k h1 hk ha
    ∙ masked_twice pa 0xffff_ffff_f000 k k hm

attr_no_address : (o : ℕ) → bit_and (block_attr o) 0xffff_ffff_f000 ≡ 0
attr_no_address o = block_attr-masked o 0xffff_ffff_f000 0 refl refl refl ∙ bit_and-zero o

attr_no_block : (o : ℕ) → bit_and (block_attr o) 0xffff_ffe0_0000 ≡ 0
attr_no_block o = block_attr-masked o 0xffff_ffe0_0000 0 refl refl refl ∙ bit_and-zero o

-- A part of a block of 1 GiB is a block of 2 MiB, of which the address is kept.
pub block_part-bit :
    (original i : ℕ) → bit_and original 2 ≡ 0 → bit_and (part_entry 0x20_0000 1 original i) 2 ≡ 0
block_part-bit original i h =
    let pa = bit_and original 0xffff_ffff_f000 + i * 0x20_0000 in
    let attr : bit_and (block_attr original) 2 ≡ 0 =
      block_attr-masked original 2 2 refl refl refl ∙ h in
    first_only (pa_to_pte_addr pa) 1 1 (block_attr original) 2 refl refl attr
    ∙ masked_twice pa 0xffff_ffff_f000 2 0 refl
    ∙ bit_and-zero pa

-- The address of a block that lies at a multiple of its size.
pub block_part-address :
    (original i : ℕ)
    → table_of original % 2 ^ 30 ≡ 0
    → i < 512
    → (table_of (part_entry 0x20_0000 1 original i) ≡ table_of original + i * 2 ^ 21)
      × (bit_and (part_entry 0x20_0000 1 original i) 0xffff_ffe0_0000
          ≡ table_of original + i * 2 ^ 21)
block_part-address original i whole small =
    let base = table_of original in
    let pa = base + i * 0x20_0000 in
    let low = bit_and_page_base original in
    let fits : base + i * 0x20_0000 < 2 ^ 48 = omega (arith, low, whole, small) in
    (
      part_entry-masked 0x20_0000 1 original i 0xffff_ffff_f000 refl refl (attr_no_address original)
            refl
          ∙ omega (arith, bit_and_page_base pa, fits, whole),
      part_entry-masked 0x20_0000 1 original i 0xffff_ffe0_0000 refl refl (attr_no_block original)
            refl
          ∙ omega (arith, bit_and_2m_base pa, fits, whole),
    )

pub page_part-address :
    (original i : ℕ)
    → table_of original % 2 ^ 21 ≡ 0
    → i < 512
    → table_of (part_entry 0x1000 3 original i) ≡ table_of original + i * 2 ^ 12
page_part-address original i whole small =
    let base = table_of original in
    let pa = base + i * 0x1000 in
    let low = bit_and_page_base original in
    let fits : base + i * 0x1000 < 2 ^ 48 = omega (arith, low, whole, small) in
    part_entry-masked 0x1000 3 original i 0xffff_ffff_f000 refl refl (attr_no_address original) refl
    ∙ omega (arith, bit_and_page_base pa, fits, whole)
