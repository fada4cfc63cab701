-- ===== src/Examples/Objects.antt =====
-- The handle table on concrete tables (kernel/src/object/handle_table.rs).
use capsule_os.Base.{
  ℕ, ◌+◌, ◌<◌, ◌≡◌, refl, ◌⊎◌, none, some, List, [], ◌∷◌, replicate, find_index, free_index,
  find_key, arith, bit_and, ◌≢◌, subst, ◌==◌, if◌then◌else◌,
}
use capsule_os.Shared.Status.{access_denied, bad_handle}
use capsule_os.Shared.Result.{Result, ok, err}
use capsule_os.Shared.Types.{HandleValue}
use capsule_os.Object.{
  KernelObject, vmo, process, Slot, HandleTable, check_rights, add, with_object, duplicate,
  duplicate_handle,
}
use capsule_os.Object.Lookup.{lookup, Holds, with_object-lookup, duplicate_handle-lookup}
use capsule_os.Object.Invariant.{
  IsValid, Call, PlacesFree, NeverPlaces, adds, adds_raw, duplicates, removes, run, run-stale,
}

abbrev Object : Type 0
Object = KernelObject ℕ ℕ ℕ ℕ

-- One live handle, 1000, which names a memory object with the rights 3; 1001 was removed.
abbrev table : HandleTable Object
table = record {
  counter = 1002;
  slots = some (record { value = 1000; rights = 3; object = vmo 7 }) ∷ replicate 11 none;
}

table-IsValid : IsValid table
unfolding find_key
table-IsValid = record { sized = refl; distinct = (refl, tt); issued = λ k h. ground arith }

abbrev calls : List (Call ℕ ℕ ℕ ℕ)
calls = adds_raw 7 (vmo 9) 3 ∷ duplicates 1000 1 ∷ removes 1000 ∷ adds (process 3) 1 ∷ []

-- The value 7 is used by nobody.
calls-PlacesFree : PlacesFree table calls
unfolding PlacesFree find_key
calls-PlacesFree =
    (λ raw e. free raw (cc e), (λ raw e. absurd cc, (λ raw e. absurd cc, (λ raw e. absurd cc, tt))))
  where
    free : (raw : HandleValue) → 7 ≡ raw → (raw < 1002) × (lookup table raw ≡ none)
    free raw e = (omega (arith, e), subst (λ k. lookup table k ≡ none) e refl)

run-stale_example :
    IsValid (run table calls)
    × ((k : HandleValue)
        → k < 1002
        → NeverPlaces k calls
        → lookup table k ≡ none
        → lookup (run table calls) k ≡ none)
run-stale_example = run-stale calls table table-IsValid (omega arith) calls-PlacesFree

-- A call of the client that increments the payload.
abbrev bump : Object → Result ℕ × Object
bump (vmo n) = (ok n, vmo (n + 1))
bump o = (ok 0, o)

with_object-lookup_example :
    ((s : Slot Object) × (lookup table 1000 ≡ some s)
      × Holds s.rights 2
      × ((with_object table 1000 2 bump).0 ≡ (bump s.object).0)
      × ((k : HandleValue)
          → lookup (with_object table 1000 2 bump).1 k ≡ (
              if 1000 == k
              then some (record s { object = (bump s.object).1 })
              else lookup table k)))
    ⊎ (((s : Slot Object) × (lookup table 1000 ≡ some s)
          × (bit_and s.rights 2 ≢ 2)
          × (with_object table 1000 2 bump ≡ (err access_denied, table)))
        ⊎ ((lookup table 1000 ≡ none) × (with_object table 1000 2 bump ≡ (err bad_handle, table))))
with_object-lookup_example = with_object-lookup table 1000 2 bump table-IsValid.distinct

duplicate_handle-lookup_example :
    (s : Slot Object) × (lookup table 1000 ≡ some s)
    × Holds s.rights 1
    × ((k : HandleValue)
        → lookup (duplicate_handle table 1000 1).1 k
          ≡ (if 1002 == k then some (record s { value = 1002 }) else lookup table k))
unfolding duplicate_handle add check_rights find_key find_index duplicate free_index
duplicate_handle-lookup_example = duplicate_handle-lookup table 1000 1 refl refl
