-- ===== src/Object/Invariant.antt =====
-- The invariant of the handle table, and handles over time (kernel/src/object/handle_table.rs).
use capsule_os.Base.{
  ℕ, ◌+◌, ◌^◌, ◌≤◌, ◌<◌, ◌≡◌, ◌≢◌, ◌↔◌, refl, sym, ap, find_key-set-some, find_key-set-none,
  find_key-set_keep, inl, inr, ◌∙◌, Option, none, some, List, [], ◌∷◌, length, set, length-set,
  free_index-some, free_index-full, occupied-lt_of_free, find_key, Distinct-set-some,
  Distinct-set-none, Distinct-set_keep, if◌then◌else◌, ◌==◌, arith, Bool-cases, Option-cases,
  free_index, ==_of_ne,
}
use capsule_os.Shared.Status.{no_memory}
use capsule_os.Shared.Result.{Result, err}
use capsule_os.Shared.Types.{HandleValue}
use capsule_os.Object.{
  KernelObject, Slot, HandleTable, max_handles, check_rights, new, add, add_raw_handle, with_object,
  remove_with_rights, duplicate_handle, live_count,
}
use capsule_os.Object.Lookup.{lookup, IsDistinct, add-cases, find-cases, duplicate_handle-cases}

-- Twelve slots, live handles with distinct values, all of them issued before the next one.
pub record IsValid {ℓ} {O : Type ℓ} (t : HandleTable O) : Type ℓ where
  pub sized : length t.slots ≡ max_handles
  pub distinct : IsDistinct t
  pub issued : (k : HandleValue) → t.counter ≤ k → lookup t k ≡ none

-- The calls of a client, with what they pass.
pub data Call {ℓ} (V R C P : Type ℓ) : Type ℓ where
  adds : KernelObject V R C P → ℕ → Call V R C P
  adds_raw : HandleValue → KernelObject V R C P → ℕ → Call V R C P
  duplicates : HandleValue → ℕ → Call V R C P
  removes : HandleValue → Call V R C P
  updates :
      HandleValue
      → ℕ
      → (KernelObject V R C P → Result (Unit {ℓ}) × KernelObject V R C P)
      → Call V R C P

module _ {ℓ} {V R C P : Type ℓ} where
  unfoldable pub step :
      HandleTable (KernelObject V R C P) → Call V R C P → HandleTable (KernelObject V R C P)
  step t (adds o rights) = (add t o rights).1
  step t (adds_raw raw o rights) = (add_raw_handle t raw o rights).1
  step t (duplicates hv required) = (duplicate_handle t hv required).1
  step t (removes hv) = (remove_with_rights t hv).1
  step t (updates hv required f) = (with_object t hv required f).1

  unfoldable pub run :
      HandleTable (KernelObject V R C P) → List (Call V R C P) → HandleTable (KernelObject V R C P)
  run t [] = t
  run t (c ∷ cs) = run (step t c) cs

  -- The value that a call brings along for a new handle.
  abbrev pub placed : Call V R C P → Option HandleValue
  placed (adds_raw raw _ _) = some raw
  placed _ = none

  -- Each value that a call of `add_raw_handle` brings along is below the counter, and no live handle
  -- has it at that time.
  unfoldable pub PlacesFree : HandleTable (KernelObject V R C P) → List (Call V R C P) → Type ℓ
  unfolding step
  PlacesFree t [] = Unit {ℓ}
  PlacesFree t (c ∷ cs) =
      ((raw : HandleValue) → placed c ≡ some raw → (raw < t.counter) × (lookup t raw ≡ none))
      × PlacesFree (step t c) cs

  -- No call brings the value `k` along.
  unfoldable pub NeverPlaces : HandleValue → List (Call V R C P) → Type 0
  NeverPlaces k [] = Unit {0}
  NeverPlaces k (c ∷ cs) = (placed c ≢ some k) × NeverPlaces k cs

-- What a step may do to the handles that were issued before it: the invariant holds again, the
-- counter moves by at most one, and a value that was issued and is dead stays dead, unless it is `p`.
record Kept {ℓ} {O : Type ℓ} (p : Option HandleValue) (t u : HandleTable O) : Type ℓ where
  valid : IsValid u
  grows : t.counter ≤ u.counter
  bounded : u.counter ≤ t.counter + 1
  dead : (k : HandleValue) → p ≢ some k → k < t.counter → lookup t k ≡ none → lookup u k ≡ none

module _ {ℓ} {O : Type ℓ} (t : HandleTable O) (v : IsValid t) where
  same-Kept : Kept none t t
  same-Kept = record { valid = v; grows = omega arith; bounded = omega arith; dead = λ k _ _ e. e }

  -- A lookup that differs from the old one at the live handle `hv` at most.
  dead-of_after :
      (hv : HandleValue) (s : Slot O) (e : Option (Slot O)) (u : HandleTable O)
      → lookup t hv ≡ some s
      → ((k : HandleValue) → lookup u k ≡ (if hv == k then e else lookup t k))
      → (k : HandleValue) → lookup t k ≡ none
      → lookup u k ≡ none
  dead-of_after hv s e u live after k d =
      after k ∙ rw (==_of_ne hv k (λ q. false_of (sym live ∙ ap (lookup t) q ∙ d))) d
    where
      false_of : some s ≡ none → ⊥
      false_of q = cc

  remove-Kept : (hv : HandleValue) → Kept none t (remove_with_rights t hv).1
  unfolding remove_with_rights
  remove-Kept hv = elim (find-cases t hv) [
    | inl (p, _) ↦ rw (p, remove_with_rights) same-Kept
    | inr (i, s, p, g, q, l) ↦
        let u : HandleTable O = record t { slots = set t.slots i none } in
        let after : (k : HandleValue) → lookup u k ≡ (if hv == k then none else lookup t k) =
          λ k. rw (← q) (find_key-set-none (λ s'. s'.value) k i s t.slots v.distinct g) in
        rw (p, remove_with_rights, g)
          (record {
            valid = record {
              sized = length-set t.slots i none ∙ v.sized;
              distinct = Distinct-set-none (λ s'. s'.value) i s t.slots g v.distinct;
              issued = λ k h. dead-of_after hv s none u l after k (v.issued k h);
            };
            grows = omega arith;
            bounded = omega arith;
            dead = λ k _ _ d. dead-of_after hv s none u l after k d;
          })
  ]

  with_object-Kept :
      {A : Type ℓ} (hv : HandleValue) (required : ℕ) (f : O → Result A × O)
      → Kept none t (with_object t hv required f).1
  unfolding with_object
  with_object-Kept hv required f = elim (find-cases t hv) [
    | inl (p, _) ↦ rw (p, with_object) same-Kept
    | inr (i, s, p, g, q, l) ↦ elim (Bool-cases (check_rights s.rights required)) [
      | inr denied ↦ rw (p, with_object, g, denied) same-Kept
      | inl allowed ↦
          let s' : Slot O = record s { object = (f s.object).1 } in
          let u : HandleTable O = record t { slots = set t.slots i (some s') } in
          let after : (k : HandleValue) → lookup u k ≡ (if hv == k then some s' else lookup t k) =
            λ k. rw (← q) (find_key-set_keep (λ x. x.value) k i s s' t.slots v.distinct g refl) in
          rw (p, with_object, g, allowed)
            (record {
              valid = record {
                sized = length-set t.slots i (some s') ∙ v.sized;
                distinct = Distinct-set_keep (λ x. x.value) i s s' t.slots g refl v.distinct;
                issued = λ k h. dead-of_after hv s (some s') u l after k (v.issued k h);
              };
              grows = omega arith;
              bounded = omega arith;
              dead = λ k _ _ d. dead-of_after hv s (some s') u l after k d;
            })
    ]
  ]

  add-Kept : (o : O) (rights : ℕ) → t.counter + 1 < 2 ^ 32 → Kept none t (add t o rights).1
  add-Kept o rights small = elim (add-cases t o rights) [
    | inl (full, c) ↦ rw c (record {
      valid = record {
        sized = v.sized;
        distinct = v.distinct;
        issued = λ k h. v.issued k (omega arith);
      };
      grows = omega arith;
      bounded = omega arith;
      dead = λ k _ _ e. e;
    })
    | inr (i, free, c) ↦
        let s : Slot O = record { value = t.counter; rights = rights; object = o } in
        let none_yet = v.issued t.counter (omega arith) in
        let at = free_index-some t.slots i free in
        let other : (k : HandleValue)
            → t.counter ≢ k
            → lookup t k ≡ none
            → find_key (λ x. x.value) k (set t.slots i (some s)) ≡ none =
          λ k ne d.
            find_key-set-some (λ x. x.value) k i s t.slots at none_yet
            ∙ rw (==_of_ne t.counter k ne) d in
        rw c (record {
          valid = record {
            sized = length-set t.slots i (some s) ∙ v.sized;
            distinct = Distinct-set-some (λ x. x.value) i s t.slots at none_yet v.distinct;
            issued = λ k h. other k (omega arith) (v.issued k (omega arith));
          };
          grows = omega arith;
          bounded = omega arith;
          dead = λ k _ h d. other k (omega arith) d;
        })
  ]

  raw-Kept :
      (raw : HandleValue) (o : O) (rights : ℕ)
      → raw < t.counter
      → lookup t raw ≡ none
      → Kept (some raw) t (add_raw_handle t raw o rights).1
  unfolding add_raw_handle
  raw-Kept raw o rights below unused = elim (Option-cases (free_index t.slots)) [
    | inl full ↦
        rw (full, add_raw_handle)
          (record { valid = v; grows = omega arith; bounded = omega arith; dead = λ k _ _ e. e })
    | inr (i, free) ↦
        let s : Slot O = record { value = raw; rights = rights; object = o } in
        let at = free_index-some t.slots i free in
        let other : (k : HandleValue)
            → raw ≢ k
            → lookup t k ≡ none
            → find_key (λ x. x.value) k (set t.slots i (some s)) ≡ none =
          λ k ne d.
            find_key-set-some (λ x. x.value) k i s t.slots at unused ∙ rw (==_of_ne raw k ne) d in
        rw (free, add_raw_handle)
          (record {
            valid = record {
              sized = length-set t.slots i (some s) ∙ v.sized;
              distinct = Distinct-set-some (λ x. x.value) i s t.slots at unused v.distinct;
              issued = λ k h. other k (omega (arith, below, h)) (v.issued k h);
            };
            grows = omega arith;
            bounded = omega arith;
            dead = λ k ne _ d. other k (λ q. ne (ap some q)) d;
          })
  ]

module _ {ℓ} {V R C P : Type ℓ} where
  duplicate-Kept :
      (t : HandleTable (KernelObject V R C P)) (hv : HandleValue) (required : ℕ)
      → IsValid t
      → t.counter + 1 < 2 ^ 32
      → Kept none t (duplicate_handle t hv required).1
  duplicate-Kept t hv required v small = elim (duplicate_handle-cases t hv required) [
    | inl e ↦ rw e (same-Kept t v)
    | inr (s, e) ↦ rw e (add-Kept t v s.object s.rights small)
  ]

  step-Kept :
      (t : HandleTable (KernelObject V R C P)) (c : Call V R C P)
      → IsValid t
      → t.counter + 1 < 2 ^ 32
      → ((raw : HandleValue) → placed c ≡ some raw → (raw < t.counter) × (lookup t raw ≡ none))
      → Kept (placed c) t (step t c)
  unfolding step
  step-Kept t (adds o rights) v small free = add-Kept t v o rights small
  step-Kept t (adds_raw raw o rights) v small free =
      raw-Kept t v raw o rights (free raw refl).0 (free raw refl).1
  step-Kept t (duplicates hv required) v small free = duplicate-Kept t hv required v small
  step-Kept t (removes hv) v small free = remove-Kept t v hv
  step-Kept t (updates hv required f) v small free = with_object-Kept t v hv required f

  -- On a valid table any sequence of calls, of `add_raw_handle` too, keeps the invariant, while fewer than 2 ^ 32 values
  -- are issued, and when each value that `add_raw_handle` is given is below the counter and belongs to
  -- no live handle. A handle that was issued and is no longer live then never comes back to name
  -- anything, unless a call of `add_raw_handle` is given its value.
  pub run-stale :
      (cs : List (Call V R C P)) (t : HandleTable (KernelObject V R C P))
      → IsValid t
      → t.counter + length cs < 2 ^ 32
      → PlacesFree t cs
      → IsValid (run t cs)
        × ((k : HandleValue)
            → k < t.counter
            → NeverPlaces k cs
            → lookup t k ≡ none
            → lookup (run t cs) k ≡ none)
  unfolding run PlacesFree NeverPlaces
  run-stale [] t v small free = (v, λ k h _ d. d)
  run-stale (c ∷ cs) t v small (free, later) =
      let s = step-Kept t c v (omega arith) free in
      let (u, ih) = run-stale cs (step t c) s.valid (omega (arith, s.bounded)) later in
      (u, λ k h (ne, never) d. ih k (omega (arith, s.grows, h)) never (s.dead k ne h d))

-- On a valid table `add` fails exactly when all twelve slots are in use.
pub add-full {ℓ} :
    {O : Type ℓ} (t : HandleTable O) (o : O) (rights : ℕ)
    → IsValid t
    → ((add t o rights).0 ≡ err no_memory) ↔ (live_count t ≡ max_handles)
unfolding live_count
add-full t o rights v = elim (add-cases t o rights) [
  | inl (full, c) ↦ (λ _. free_index-full t.slots full ∙ v.sized, λ _. rw c)
  | inr (i, free, c) ↦ (
    λ e. absurd (ground (arith, c)),
    λ e.
        absurd (
          omega
            (arith, v.sized, e, occupied-lt_of_free t.slots i (free_index-some t.slots i free))),
  )
]

-- A new table is valid.
pub new-IsValid {ℓ} : (O : Type ℓ) (counter : ℕ) → IsValid (new {O = O} counter)
unfolding new find_key
new-IsValid O counter = record { sized = refl; distinct = tt; issued = λ k h. refl }
