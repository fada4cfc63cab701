-- ===== src/Paging/Buffers.antt =====
-- The checks of user pointers (kernel/src/syscall/validation.rs) on the page tables
-- (kernel/src/arch/aarch64/page_table.rs, mmu.rs).
use capsule_os.Base.{
  ℕ, ◌+◌, ◌-◌, ◌%◌, ◌^◌, ◌≤◌, ◌<◌, ◌≡◌, refl, sym, subst, ◌∙◌, inl, inr, true, false, Bool-cases,
  Option, some, ◌==◌, arith,
}
use capsule_os.Shared.Result.{ok}
use capsule_os.Syscall.Validation.{translate, validate_range}
use capsule_os.Syscall.Validation.Coverage.{validate_range-Covered}
use capsule_os.Paging.{MapFlags, Machine, done, map_va, translate_user_va, translate_va}
use capsule_os.Paging.Shape.{IsTree}
use capsule_os.Paging.Supply.{HasPages, map_va-done}

-- The walk that the checks are given.
abbrev pub walk_of : Machine → ℕ → ℕ → Option ℕ
walk_of m l0_pa va = translate_user_va l0_pa va m.words

-- An address that `translate_va` finds is found from the root.
walk_of-translate_va :
    (m : Machine) (x pa : ℕ) → translate_va m x ≡ some pa → walk_of m m.tree.l0_pa x ≡ some pa
unfolding translate_va
walk_of-translate_va m x pa h = elim (Bool-cases m.tree.has_root) [
  | inl rooted ↦ rw (translate_va, rooted) at h
  | inr bare ↦ absurd (cc (rw (translate_va, bare) at h))
]

found-mapped :
    (walk : ℕ → ℕ → Option ℕ) (x l0_pa pa : ℕ)
    → 0 < l0_pa
    → walk l0_pa x ≡ some pa
    → translate walk x l0_pa ≡ ok tt
unfolding translate
found-mapped walk x l0_pa pa pos h =
    let base : (l0_pa == 0) ≡ false = ground (arith, pos) in rw (translate, base, h) refl

-- A range in which every address is found is accepted.
range-found :
    (walk : ℕ → ℕ → Option ℕ) (ptr len l0_pa : ℕ)
    → 0 < len
    → 0 < l0_pa
    → ptr + len < 2 ^ 64
    → ((x : ℕ) → ptr ≤ x → x < ptr + len → (pa : ℕ) × (walk l0_pa x ≡ some pa))
    → validate_range walk ptr len l0_pa ≡ some (ok tt)
range-found walk ptr len l0_pa some_bytes pos small found =
    elim (validate_range-Covered walk ptr len l0_pa some_bytes) [
      | inl (accepted, fits, covered) ↦ accepted
      | inr (refused, inl wraps) ↦ absurd (omega (arith, wraps, small))
      | inr (refused, inr (x, low, high, unmapped)) ↦
          let (pa, at) = found x low high in
          absurd (cc (sym unmapped ∙ found-mapped walk x l0_pa pa pos at))
    ]

-- In a tree of page tables whose root is not at 0, when the next three pages of the allocator are free, a
-- page below 2 ^ 48 is mapped to a physical page below 2 ^ 48, and then the kernel's check of a user range
-- accepts every range of at least one byte in the page.
pub map_va-validate_range :
    (label : ℕ → ℕ) (m : Machine) (va pa ptr len : ℕ) (flags : MapFlags)
    → IsTree label m
    → HasPages 3 m.phys
    → m.tree.has_root ≡ true
    → 0 < m.tree.l0_pa
    → va % 4096 ≡ 0
    → va < 2 ^ 48
    → pa % 4096 ≡ 0
    → pa < 2 ^ 48
    → va ≤ ptr
    → 0 < len
    → ptr + len ≤ va + 4096
    → (m' : Machine) × (map_va va pa flags m ≡ done tt m')
      × (validate_range (walk_of m') ptr len m'.tree.l0_pa ≡ some (ok tt))
map_va-validate_range label m va pa ptr len flags tree pages rooted pos hv va_small hp pa_small low
      some_bytes high =
    let (m', e, root, _) =
      map_va-done label m va pa 0 flags tree pages rooted hv hp pa_small (omega arith) in
    let found : (x : ℕ)
        → ptr ≤ x
        → x < ptr + len
        → (at : ℕ) × (walk_of m' m'.tree.l0_pa x ≡ some at) =
      λ x from to.
        let offset = x - va in
        let small : offset < 4096 = omega (arith, low, from, to, high) in
        let (m'', e'', _, at) =
          map_va-done label m va pa offset flags tree pages rooted hv hp pa_small small in
        let same : m'' ≡ m' = cc (sym e'' ∙ e) in
        let here : va + offset ≡ x = omega (arith, low, from) in
        let there : translate_va m' x ≡ some (pa + offset) =
          subst (λ y. translate_va m' y ≡ some (pa + offset)) here
            (subst (λ k. translate_va k (va + offset) ≡ some (pa + offset)) same at) in
        (pa + offset, walk_of-translate_va m' x (pa + offset) there) in
    (
      m',
      e,
      range-found (walk_of m') ptr len m'.tree.l0_pa some_bytes (omega (arith, root, pos))
          (omega (arith, high, va_small)) found,
    )
