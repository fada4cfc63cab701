-- ===== src/Object/Lookup.antt =====
-- What each operation of the handle table does to the entries that handles name
-- (kernel/src/object/handle_table.rs).
use capsule_os.Base.{
  ℕ, ◌+◌, ◌%◌, ◌^◌, ◌≡◌, refl, ◌⊎◌, inl, inr, true, false, Option, none, some, get_elem?,
  free_index, free_index-some, find_key, find_key-of_index, find_index-none, find_key-set-some,
  find_key-set-none, find_key-set_keep, Distinct, if◌then◌else◌, ◌==◌, arith, Option-cases,
  Bool-cases, set, bit_and, ◌≢◌, eq_of_==,
}
use capsule_os.Base.Bits.{bit_and-zero}
use capsule_os.Shared.Status.{bad_handle, access_denied, no_memory, not_allowed}
use capsule_os.Shared.Result.{Result, ok, err}
use capsule_os.Shared.Types.{HandleValue}
use capsule_os.Object.{
  KernelObject, Slot, HandleTable, check_rights, duplicate, position, add, with_object,
  remove_with_rights, duplicate_handle,
}

-- The entry that a handle names.
abbrev pub lookup {ℓ} : {O : Type ℓ} → HandleTable O → HandleValue → Option (Slot O)
lookup t hv = find_key (λ s. s.value) hv t.slots

-- No two live handles have one value.
abbrev pub IsDistinct {ℓ} : {O : Type ℓ} → HandleTable O → Type ℓ
IsDistinct t = Distinct (λ s. s.value) t.slots

-- `add` fills the first free slot, or finds none.
pub add-cases {ℓ} :
    {O : Type ℓ} (t : HandleTable O) (o : O) (rights : ℕ)
    → let next = (t.counter + 1) % 2 ^ 32 in
      ((free_index t.slots ≡ none)
        × (add t o rights ≡ (err no_memory, record t { counter = next })))
      ⊎ ((i : ℕ) × (free_index t.slots ≡ some i)
          × (add t o rights ≡ (
            ok t.counter,
            record {
              counter = next;
              slots =
                  set t.slots i (some (record { value = t.counter; rights = rights; object = o }));
            },
          )))
unfolding add
add-cases t o rights = elim (Option-cases (free_index t.slots)) [
  | inl full ↦ inl (full, rw (full, add))
  | inr (i, free) ↦ inr (i, free, rw (free, add))
]

-- What `remove_with_rights` and `with_object` find.
pub find-cases {ℓ} :
    {O : Type ℓ} (t : HandleTable O) (hv : HandleValue)
    → ((position hv t ≡ none) × (lookup t hv ≡ none))
      ⊎ ((i : ℕ) × (s : Slot O) × (position hv t ≡ some i)
          × (get_elem? t.slots i ≡ some (some s))
          × (s.value ≡ hv)
          × (lookup t hv ≡ some s))
find-cases t hv = elim (Option-cases (position hv t)) [
  | inl e ↦ inl (e, find_index-none (λ s. s.value) hv t.slots e)
  | inr (i, e) ↦
      let (s, g, k, f) = find_key-of_index (λ s. s.value) hv i t.slots e in inr (i, s, e, g, k, f)
]

module _ {ℓ} {O : Type ℓ} (t : HandleTable O) where
  -- A successful `add` returns the counter's value, and that handle alone is new.
  pub add-lookup :
      (o : O) (rights : ℕ) {hv : HandleValue}
      → lookup t t.counter ≡ none
      → (add t o rights).0 ≡ ok hv
      → (k : HandleValue)
      → (hv ≡ t.counter)
        × (lookup (add t o rights).1 k ≡ (
            if hv == k
            then some (record { value = hv; rights = rights; object = o })
            else lookup t k))
  add-lookup o rights {hv} fresh e k = elim (add-cases t o rights) [
    | inl (_, c) ↦ absurd (ground arith)
    | inr (i, free, c) ↦ ground (
      arith,
      c,
      find_key-set-some (λ s. s.value) k i
          (record { value = t.counter; rights = rights; object = o }) t.slots
          (free_index-some t.slots i free) fresh,
    )
  ]

  -- `remove_with_rights` hands out the object and the rights of the handle, and forgets it alone;
  -- on an unknown handle it fails and changes nothing.
  pub remove-lookup :
      (hv : HandleValue)
      → IsDistinct t
      → ((s : Slot O) × (lookup t hv ≡ some s)
          × ((remove_with_rights t hv).0 ≡ ok (s.object, s.rights))
          × ((k : HandleValue)
              → lookup (remove_with_rights t hv).1 k ≡ (if hv == k then none else lookup t k)))
        ⊎ ((lookup t hv ≡ none) × (remove_with_rights t hv ≡ (err bad_handle, t)))
  unfolding remove_with_rights
  remove-lookup hv d = elim (find-cases t hv) [
    | inl (e, l) ↦ inr (l, rw (e, remove_with_rights))
    | inr (i, s, e, g, v, l) ↦ inl (
      s,
      l,
      rw (e, remove_with_rights, g),
      λ k.
          rw (e, remove_with_rights, g)
            (rw (← v) (find_key-set-none (λ s. s.value) k i s t.slots d g)),
    )
  ]

-- The rights hold every bit that is asked for.
abbrev pub Holds : ℕ → ℕ → Type 0
Holds have required = bit_and have required ≡ required

pub check_rights-Holds :
    (have required : ℕ)
    → ((check_rights have required ≡ true) × Holds have required)
      ⊎ ((check_rights have required ≡ false) × (bit_and have required ≢ required))
unfolding check_rights
check_rights-Holds have required = elim (Bool-cases (required == 0)) [
  | inl nothing ↦
      let zero_bits = eq_of_== required 0 nothing in
      inl (rw (check_rights, nothing) refl, rw zero_bits (bit_and-zero have))
  | inr some_bits ↦ elim (Bool-cases (bit_and have required == required)) [
    | inl all ↦
        inl (rw (check_rights, some_bits) all, eq_of_== (bit_and have required) required all)
    | inr missing ↦ inr (rw (check_rights, some_bits) missing, ground (arith, missing))
  ]
]

module _ {ℓ κ} {O : Type ℓ} {A : Type κ} (t : HandleTable O) where
  -- In a table whose live handles have different values, `with_object` runs `f` on the handle's object if and only if the handle is live and its rights
  -- hold every bit asked for; the handle keeps its rights, and every other handle its entry.
  -- Otherwise it reports which check failed, and changes nothing.
  pub with_object-lookup :
      (hv : HandleValue) (required : ℕ) (f : O → Result A × O)
      → IsDistinct t
      → ((s : Slot O) × (lookup t hv ≡ some s)
          × Holds s.rights required
          × ((with_object t hv required f).0 ≡ (f s.object).0)
          × ((k : HandleValue)
              → lookup (with_object t hv required f).1 k
                ≡ (if hv == k then some (record s { object = (f s.object).1 }) else lookup t k)))
        ⊎ (((s : Slot O) × (lookup t hv ≡ some s)
              × (bit_and s.rights required ≢ required)
              × (with_object t hv required f ≡ (err access_denied, t)))
            ⊎ ((lookup t hv ≡ none) × (with_object t hv required f ≡ (err bad_handle, t))))
  unfolding with_object
  with_object-lookup hv required f d = elim (find-cases t hv) [
    | inl (e, l) ↦ inr (inr (l, rw (e, with_object)))
    | inr (i, s, e, g, v, l) ↦ elim (check_rights-Holds s.rights required) [
      | inl (allowed, held) ↦ inl (
        s,
        l,
        held,
        rw (e, with_object, g, allowed),
        λ k.
            rw (e, with_object, g, allowed)
              (rw (← v) (
                find_key-set_keep (λ s'. s'.value) k i s (record s { object = (f s.object).1 })
                  t.slots d g refl)),
      )
      | inr (denied, missing) ↦ inr (inl (s, l, missing, rw (e, with_object, g, denied)))
    ]
  ]

-- A duplicate of an object is the object.
duplicate-cases {ℓ} :
    {V R C P : Type ℓ} (o : KernelObject V R C P)
    → (duplicate o ≡ ok o) ⊎ (duplicate o ≡ err not_allowed)
unfolding duplicate
duplicate-cases (KernelObject.vmo v) = inl refl
duplicate-cases (KernelObject.vmar _) = inr refl
duplicate-cases _ = inr refl

module _ {ℓ} {V R C P : Type ℓ} (t : HandleTable (KernelObject V R C P)) where
  -- `duplicate_handle` changes nothing or is an `add` of the object with the rights it has.
  pub duplicate_handle-cases :
      (hv : HandleValue) (required : ℕ)
      → ((duplicate_handle t hv required).1 ≡ t)
        ⊎ ((s : Slot (KernelObject V R C P)) × (duplicate_handle t hv required
              ≡ add t s.object s.rights))
  unfolding duplicate_handle
  duplicate_handle-cases hv required = elim (find-cases t hv) [
    | inl (p, l) ↦ inl (rw (p, duplicate_handle))
    | inr (i, s, p, g, v, l) ↦ elim (Bool-cases (check_rights s.rights required)) [
      | inr denied ↦ inl (rw (p, duplicate_handle, g, denied))
      | inl allowed ↦ elim (duplicate-cases s.object) [
        | inl copied ↦ inr (s, rw (p, duplicate_handle, g, allowed, copied))
        | inr refused ↦ inl (rw (p, duplicate_handle, g, allowed, refused))
      ]
    ]
  ]

  pub duplicate_handle-add :
      (hv : HandleValue) (required : ℕ) {dup : HandleValue}
      → (duplicate_handle t hv required).0 ≡ ok dup
      → (s : Slot (KernelObject V R C P)) × (lookup t hv ≡ some s)
        × Holds s.rights required
        × (duplicate_handle t hv required ≡ add t s.object s.rights)
  unfolding duplicate_handle
  duplicate_handle-add hv required {dup} e = elim (find-cases t hv) [
    | inl (p, l) ↦ absurd (ground (arith, p))
    | inr (i, s, p, g, v, l) ↦ elim (check_rights-Holds s.rights required) [
      | inr (denied, _) ↦ absurd (ground (arith, p, g, denied))
      | inl (allowed, held) ↦ elim (duplicate-cases s.object) [
        | inl copied ↦ (s, l, held, rw (p, duplicate_handle, g, allowed, copied))
        | inr refused ↦ absurd (ground (arith, p, g, allowed, refused))
      ]
    ]
  ]

  -- Where no live handle has the counter's value, a duplicate that is made names the same object with the same rights, never more; the original must hold
  -- every right asked for, and it and all other handles stay as they were.
  pub duplicate_handle-lookup :
      (hv : HandleValue) (required : ℕ) {dup : HandleValue}
      → lookup t t.counter ≡ none
      → (duplicate_handle t hv required).0 ≡ ok dup
      → (s : Slot (KernelObject V R C P)) × (lookup t hv ≡ some s)
        × Holds s.rights required
        × ((k : HandleValue)
            → lookup (duplicate_handle t hv required).1 k
              ≡ (if dup == k then some (record s { value = dup }) else lookup t k))
  duplicate_handle-lookup hv required {dup} fresh e =
      let (s, l, allowed, c) = duplicate_handle-add hv required e in
      (s, l, allowed, λ k. rw c (add-lookup t s.object s.rights fresh (rw c at e) k).1)
