-- ===== src/Examples/Trees.antt =====
-- The page tables on a concrete memory (kernel/src/arch/aarch64/page_table.rs, mmu.rs).
use capsule_os.Base.{
  zero, suc, get_elem?, ◌<◌, ℕ, ◌+◌, ◌*◌, ◌≡◌, ◌⊎◌, inl, inr, sym, ap, ◌∙◌, bit_and, refl, true,
  false, none, some, [], replicate, length-replicate, arith,
}
use capsule_os.Memory.Cache
use capsule_os.Memory.Pages.{Phys, pa_to_pfn, ram_base, max_pages}
use capsule_os.Memory.Tracker.{live_slots}
use capsule_os.Shared.Status.{no_memory}
use capsule_os.Paging.{
  normal_cacheable, MapFlags, Machine, new, done, failed, map_va, track, translate_user_va,
  translate_va,
}
use capsule_os.Paging.Allocation.{IsAllocator}
use capsule_os.Paging.Shape.{IsTree}
use capsule_os.Paging.Roots.{set_root_raw, only_root, set_root_raw-IsTree}
use capsule_os.Paging.Release.{unmap_page}
use capsule_os.Paging.Mapping.{map_va-translate_va, map_va-other, map_va-IsTree}
use capsule_os.Paging.Supply.{HasPages, map_va-done}
use capsule_os.Paging.Buffers.{walk_of, map_va-validate_range}
use capsule_os.Shared.Result.{ok}
use capsule_os.Syscall.Validation.{validate_range}
use capsule_os.Paging.Unmapping.{ends_in_block, unmap_page-walk}

get_elem?-replicate : (n i a : ℕ) → i < n → get_elem? (replicate n a) i ≡ some a
get_elem?-replicate zero i a h = absurd (omega (arith, h))
get_elem?-replicate (suc n) zero a h = refl
get_elem?-replicate (suc n) (suc i) a h = get_elem?-replicate n i a (omega (arith, h))

-- Eight pages, of which the first is in use, filled with zeros.
abbrev eight_pages : Phys
eight_pages = record {
  next = ram_base + 4096;
  end = ram_base + 8 * 4096;
  free_count = 7;
  total_count = 8;
  tags = replicate max_pages 0;
  live = [];
  cache = Cache.empty;
  memory = λ a. 0;
}

eight_pages-IsAllocator : IsAllocator eight_pages
unfolding live_slots
eight_pages-IsAllocator = record {
  valid = record { size = length-replicate {A = ℕ} max_pages 0; small = omega arith };
  ready = record { start = omega arith; finish = omega arith; dead = λ pa up. ground arith };
  whole = refl;
}

abbrev no_root : Machine
no_root = record { tree = new; phys = eight_pages; words = λ a. 0 }

-- The first page is the root.
abbrev empty_root : Machine
empty_root = set_root_raw ram_base no_root

abbrev user_rw : MapFlags
user_rw = record {
  mem_attr = normal_cacheable;
  readable = true;
  writable = true;
  executable = false;
  user = true;
}

empty_root-IsTree : IsTree (only_root ram_base) empty_root
empty_root-IsTree =
    set_root_raw-IsTree ram_base no_root eight_pages-IsAllocator (omega arith) refl (omega arith)
      (λ _ _. refl)

empty_root-rooted : empty_root.tree.has_root ≡ true
unfolding set_root_raw track live_slots
empty_root-rooted = refl

-- A page is mapped at 0x8000_3000.
map_va-translate_va_example :
    ((m : Machine) × (map_va 0x8000_3000 0x5000_0000 user_rw empty_root ≡ done tt m)
      × (m.tree.l0_pa ≡ empty_root.tree.l0_pa)
      × (translate_va m (0x8000_3000 + 0x123) ≡ some (0x5000_0000 + 0x123)))
    ⊎ ((m : Machine) × (map_va 0x8000_3000 0x5000_0000 user_rw empty_root ≡ failed no_memory m))
map_va-translate_va_example =
    map_va-translate_va (only_root ram_base) empty_root 0x8000_3000 0x5000_0000 0x123 user_rw
      empty_root-IsTree empty_root-rooted refl refl (omega arith) (omega arith)

map_va-other_example :
    ((m : Machine) × (map_va 0x8000_3000 0x5000_0000 user_rw empty_root ≡ done tt m)
      × (translate_va m 0x8000_4008 ≡ translate_va empty_root 0x8000_4008))
    ⊎ ((m : Machine) × (map_va 0x8000_3000 0x5000_0000 user_rw empty_root ≡ failed no_memory m)
        × (translate_va m 0x8000_4008 ≡ translate_va empty_root 0x8000_4008))
map_va-other_example =
    map_va-other (only_root ram_base) empty_root 0x8000_3000 0x5000_0000 0x8000_4008 user_rw
      empty_root-IsTree empty_root-rooted refl refl (omega arith)

map_va-IsTree_example :
    ((label : ℕ → ℕ) × (m : Machine) × (map_va 0x8000_3000 0x5000_0000 user_rw empty_root
        ≡ done tt m)
      × IsTree label m)
    ⊎ ((label : ℕ → ℕ) × (m : Machine) × (map_va 0x8000_3000 0x5000_0000 user_rw empty_root
          ≡ failed no_memory m)
        × IsTree label m)
map_va-IsTree_example =
    map_va-IsTree (only_root ram_base) empty_root 0x8000_3000 0x5000_0000 user_rw empty_root-IsTree
      empty_root-rooted refl refl

-- The seven pages behind the root are free.
eight_pages-HasPages : HasPages 3 empty_root.phys
unfolding set_root_raw track live_slots
eight_pages-HasPages = record {
  room = omega arith;
  free = λ p low high. get_elem?-replicate max_pages (pa_to_pfn p) 0 (omega (arith, low, high));
}

map_va-done_example :
    (m : Machine) × (map_va 0x8000_3000 0x5000_0000 user_rw empty_root ≡ done tt m)
    × (m.tree.l0_pa ≡ empty_root.tree.l0_pa)
    × (translate_va m (0x8000_3000 + 0xfff) ≡ some (0x5000_0000 + 0xfff))
map_va-done_example =
    map_va-done (only_root ram_base) empty_root 0x8000_3000 0x5000_0000 0xfff user_rw
      empty_root-IsTree eight_pages-HasPages empty_root-rooted refl refl (omega arith) (omega arith)

-- The tree after a page is mapped at 0x8000_3000.
done_eq {ℓ} : {A : Type ℓ} {a : A} {m n : Machine} → done a m ≡ done a n → m ≡ n
done_eq e = cc

not_failed {ℓ} : {A : Type ℓ} {a : A} {m n : Machine} → done a m ≡ failed no_memory n → ⊥
not_failed e = cc

with_page :
    (label : ℕ → ℕ) × (m : Machine) × (map_va 0x8000_3000 0x5000_0000 user_rw empty_root
      ≡ done tt m)
    × IsTree label m
    × (m.tree.l0_pa ≡ empty_root.tree.l0_pa)
with_page =
    let (m, made, root, _) =
      map_va-done (only_root ram_base) empty_root 0x8000_3000 0x5000_0000 0 user_rw
        empty_root-IsTree eight_pages-HasPages empty_root-rooted refl refl (omega arith)
        (omega arith) in
    elim (map_va-IsTree (only_root ram_base) empty_root 0x8000_3000 0x5000_0000 user_rw
      empty_root-IsTree empty_root-rooted refl refl) [
        | inl (label, n, e, tree) ↦
            let same : m ≡ n = done_eq (sym made ∙ e) in
            (label, n, e, tree, sym (ap (λ z. z.tree.l0_pa) same) ∙ root)
        | inr (label, n, e, tree) ↦ absurd (not_failed (sym made ∙ e))
      ]

root_aligned : bit_and ram_base 0xffff_ffff_f000 ≡ empty_root.tree.l0_pa
unfolding set_root_raw track live_slots
root_aligned = refl

-- That page is unmapped again.
unmap_page-walk_example :
    let m = with_page.1 in
    let r = unmap_page ram_base 0x8000_3000 m.words in
    (r.0 ≡ ok tt)
    × (((ends_in_block m.tree.l0_pa 0x8000_3000 m.words ≡ true) × (r.1 ≡ m.words))
        ⊎ ((ends_in_block m.tree.l0_pa 0x8000_3000 m.words ≡ false)
            × (translate_user_va m.tree.l0_pa (0x8000_3000 + 5) r.1 ≡ none)))
unmap_page-walk_example =
    unmap_page-walk with_page.0 with_page.1 ram_base 0x8000_3000 5 with_page.3
      (root_aligned ∙ sym with_page.4) refl (omega arith)

empty_root-placed : 0 < empty_root.tree.l0_pa
unfolding set_root_raw track live_slots
empty_root-placed = omega arith

map_va-validate_range_example :
    (m : Machine) × (map_va 0x8000_3000 0x5000_0000 user_rw empty_root ≡ done tt m)
    × (validate_range (walk_of m) 0x8000_3010 0x100 m.tree.l0_pa ≡ some (ok tt))
map_va-validate_range_example =
    map_va-validate_range (only_root ram_base) empty_root 0x8000_3000 0x5000_0000 0x8000_3010 0x100
      user_rw empty_root-IsTree eight_pages-HasPages empty_root-rooted empty_root-placed refl
      (omega arith) refl (omega arith) (omega arith) (omega arith) (omega arith)
