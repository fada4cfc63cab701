-- ===== src/Memory/Asid.antt =====
-- The allocator of address-space identifiers (kernel/src/arch/aarch64/asid.rs).
use capsule_os.Base.{
  ℕ, zero, suc, ◌+◌, ◌*◌, ◌%◌, ◌^◌, ◌≤◌, ◌<◌, ◌≡◌, refl, sym, ap, subst, false, true, Bool-cases,
  inl, inr, bit_and, Option, some, List, [], ◌∷◌, ◌||◌, ltb, ◌==◌, if◌then◌else◌, arith,
}
use Prim.Native.Nat.{bit_or}

pub record Asids : Type 0 where
  pub next : ℕ
  pub generation : ℕ

abbrev pub initial : Asids
initial = record { next = 1; generation = 0 }

abbrev pub max_user_asid : ℕ
max_user_asid = 255

-- `alloc`: the counters are 16 and 32 bits wide.
unfoldable pub alloc : Asids → Option ℕ × Asids
alloc s =
    if (s.next == 0) || ltb max_user_asid s.next
    then (some 1, record { next = 1; generation = (s.generation + 1) % 2 ^ 32 })
    else (some s.next, record s { next = (s.next + 1) % 2 ^ 16 })

unfoldable pub free : ℕ → Asids → Asids
free asid s = s

abbrev pub rollover_generation : Asids → ℕ
rollover_generation s = s.generation

abbrev pub pack_ttbr : ℕ → ℕ → ℕ
pack_ttbr l0_base_pa asid =
    bit_or (bit_and l0_base_pa 0x0000_ffff_ffff_f000) (asid * 2 ^ 48 % 2 ^ 64)

-- The identifiers that `n` calls hand out, each with the generation after its call.
unfoldable pub alloc_many : ℕ → Asids → List (Option ℕ × ℕ) × Asids
unfolding alloc
alloc_many zero s = ([], s)
alloc_many (suc n) s =
    let (asid, s') = alloc s in
    let (rest, last) = alloc_many n s' in ((asid, s'.generation) ∷ rest, last)

-- The counter starts at 1 and stays in reach of it.
pub record IsValid (s : Asids) : Type 0 where
  pub positive : 0 < s.next
  pub small : s.next ≤ 256

-- The two cases of `alloc`.
alloc-next :
    (s : Asids)
    → IsValid s
    → s.next ≤ max_user_asid
    → alloc s ≡ (some s.next, record s { next = s.next + 1 })
unfolding alloc
alloc-next s v h =
    let test : ((s.next == 0) || ltb max_user_asid s.next) ≡ false =
      ground (arith, v.positive, h) in
    let exact : (s.next + 1) % 2 ^ 16 ≡ s.next + 1 = omega (arith, v.small) in rw (test, exact) refl

alloc-rollover :
    (s : Asids)
    → max_user_asid < s.next
    → alloc s ≡ (some 1, record { next = 1; generation = (s.generation + 1) % 2 ^ 32 })
unfolding alloc
alloc-rollover s h =
    let test : ((s.next == 0) || ltb max_user_asid s.next) ≡ true = ground (arith, h) in
    rw test refl

-- A valid allocator hands out an identifier from 1 to 255, never the kernel's 0, and stays valid.
pub alloc-IsValid :
    (s : Asids)
    → IsValid s
    → (asid : ℕ) × ((alloc s).0 ≡ some asid)
      × (0 < asid)
      × (asid ≤ max_user_asid)
      × IsValid (alloc s).1
alloc-IsValid s v = elim (Bool-cases (ltb max_user_asid s.next)) [
  | inl over ↦
      let e = alloc-rollover s (ground (arith, over)) in
      (
        1,
        ap (λ r. r.0) e,
        omega arith,
        omega arith,
        subst (λ r. IsValid r.1) (sym e) (record { positive = omega arith; small = omega arith }),
      )
  | inr within ↦
      let small : s.next ≤ max_user_asid = ground (arith, within) in
      let e = alloc-next s v small in
      (
        s.next,
        ap (λ r. r.0) e,
        v.positive,
        small,
        subst (λ r. IsValid r.1) (sym e)
            (record { positive = omega arith; small = omega (arith, small) }),
      )
]

abbrev pub ascending : ℕ → ℕ → ℕ → List (Option ℕ × ℕ)
ascending zero next generation = []
ascending (suc n) next generation = (some next, generation) ∷ ascending n (next + 1) generation

-- Until the counter passes 255, the calls hand out ascending identifiers of one generation.
pub alloc_many-ascending :
    (n : ℕ) (s : Asids)
    → IsValid s
    → s.next + n ≤ 256
    → alloc_many n s ≡ (ascending n s.next s.generation, record s { next = s.next + n })
unfolding alloc_many
alloc_many-ascending zero s v h =
    ap (λ k. ([], record s { next = k })) {x = s.next} {y = s.next + 0} (omega arith)
alloc_many-ascending (suc n) s v h =
    let next : Asids = record s { next = s.next + 1 } in
    let valid : IsValid next = record { positive = omega arith; small = omega arith } in
    let rest = alloc_many-ascending n next valid (omega arith) in
    rw (alloc-next s v (omega arith), rest)
      (ap
        (λ k. (
          (some s.next, s.generation) ∷ ascending n (s.next + 1) s.generation,
          record s { next = k },
        ))
        {x = s.next + 1 + n} {y = s.next + suc n} (omega arith))

-- Once the counter has reached 256, the next two calls both hand out identifier 1, in one generation.
pub alloc_many-rollover :
    (s : Asids)
    → s.next ≡ 256
    → (alloc_many 2 s).0
      ≡ (some 1, (s.generation + 1) % 2 ^ 32) ∷ (some 1, (s.generation + 1) % 2 ^ 32) ∷ []
unfolding alloc_many
alloc_many-rollover s h = rw (alloc-rollover s (omega (arith, h))) refl
