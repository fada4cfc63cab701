-- ===== src/Ipc/Registry.antt =====
-- kernel/src/ipc/registry.rs: services by name. The registry's spin lock is taken and released
-- within each call, so a call is one atomic step here.
use capsule_os.Base.{
  ℕ, zero, suc, ◌-◌, ◌≤◌, ◌<◌, ◌≡◌, ◌≢◌, refl, ap, ◌⊎◌, inl, inr, Bool, true, false, ◌||◌, Option,
  none, some, List, [], ◌∷◌, ◌++◌, length, take, set, get_elem?, replicate, free_index,
  free_index-some, free_index-none, bytes_eq, bytes_eq_sound, bytes_eq_refl, arith, ltb, ◌==◌,
  if◌then◌else◌, Option-cases, Bool-cases,
}
use capsule_os.Shared.Status.{invalid_args, already_exists, no_memory, not_found}
use capsule_os.Shared.Result.{Result, ok, err}

abbrev pub max_services : ℕ
max_services = 8

abbrev pub name_size : ℕ
name_size = 16

-- A channel pointer is an address.
pub record ServiceEntry : Type 0 where
  pub name : List ℕ
  pub name_len : ℕ
  pub channel_ptr : ℕ

abbrev pub Registry : Type 0
Registry = List (Option ServiceEntry)

-- `&e.name[..e.name_len]`.
unfoldable pub name_of : ServiceEntry → List ℕ
name_of e = take e.name_len e.name

-- The scan for a service of the name.
unfoldable pub find_service : List ℕ → Registry → Option ServiceEntry
unfolding name_of
find_service name [] = none
find_service name (none ∷ s) = find_service name s
find_service name (some e ∷ s) =
    let rest = find_service name s in if bytes_eq (name_of e) name then some e else rest

-- The name is copied to the front of a zeroed array.
unfoldable pub new_entry : List ℕ → ℕ → ServiceEntry
new_entry name channel_ptr = record {
  name = name ++ replicate (name_size - length name) 0;
  name_len = length name;
  channel_ptr = channel_ptr;
}

abbrev bad_name : List ℕ → Bool
bad_name name = ltb name_size (length name) || length name == 0

unfoldable pub register_service : Registry → List ℕ → ℕ → Result (Unit {0}) × Registry
unfolding find_service new_entry
register_service r name channel_ptr =
    if bad_name name then (err invalid_args, r) else elim (find_service name r) [
      | some _ ↦ (err already_exists, r)
      | none ↦ elim (free_index r) [
        | none ↦ (err no_memory, r)
        | some i ↦ (ok tt, set r i (some (new_entry name channel_ptr)))
      ]
    ]

unfoldable pub lookup_service : Registry → List ℕ → Result ℕ
unfolding find_service
lookup_service r name =
    if bad_name name
    then err invalid_args
    else elim (find_service name r) [ none ↦ err not_found | some e ↦ ok e.channel_ptr ]

take-length_append : (xs ys : List ℕ) → take (length xs) (xs ++ ys) ≡ xs
take-length_append [] ys = refl
take-length_append (x ∷ xs) ys = ap (λ r. x ∷ r) (take-length_append xs ys)

name_of-new_entry : (name : List ℕ) (ptr : ℕ) → name_of (new_entry name ptr) ≡ name
unfolding name_of new_entry
name_of-new_entry name ptr = take-length_append name (replicate (name_size - length name) 0)

-- A write to a free slot makes its entry known.
find_service-set :
    (k : List ℕ) (i : ℕ) (e : ServiceEntry) (s : Registry)
    → get_elem? s i ≡ some none
    → find_service (name_of e) s ≡ none
    → find_service k (set s i (some e))
      ≡ (if bytes_eq (name_of e) k then some e else find_service k s)
unfolding find_service
find_service-set k i e [] g f = cc
find_service-set k zero e (none ∷ s) g f = refl
find_service-set k (suc i) e (none ∷ s) g f = find_service-set k i e s g f
find_service-set k zero e (some b ∷ s) g f = ground arith
find_service-set k (suc i) e (some b ∷ s) g f = ground (
  arith,
  find_service-set k i e s g,
  bytes_eq_sound (name_of b) k,
  bytes_eq_sound (name_of e) k,
  bytes_eq_refl k,
)

refused :
    (r : Registry) (name : List ℕ)
    → bad_name name ≡ false
    → find_service name r ≡ none
    → lookup_service r name ≡ err not_found
unfolding lookup_service
refused r name good unknown = rw (good, lookup_service, unknown)

-- The lookups after a registration.
registered :
    (r : Registry) (name : List ℕ) (ptr i : ℕ) (k : List ℕ)
    → bad_name name ≡ false
    → find_service name r ≡ none
    → get_elem? r i ≡ some none
    → lookup_service (set r i (some (new_entry name ptr))) k
      ≡ (if bytes_eq name k then ok ptr else lookup_service r k)
unfolding lookup_service
registered r name ptr i k good unknown free =
    let e = new_entry name ptr in
    let n = name_of-new_entry name ptr in
    let found : find_service k (set r i (some e))
        ≡ (if bytes_eq name k then some e else find_service k r) =
      rw n at (find_service-set k i e r free (rw n unknown)) in
    elim (Bool-cases (bytes_eq name k)) [
      | inl same ↦
          let eq = bytes_eq_sound name k same in
          let good' : bad_name k ≡ false = rw eq at good in
          rw (good', lookup_service, found, same) (ptr_of name ptr)
      | inr other ↦ rw (found, lookup_service, other)
    ]
  where
    ptr_of : (m : List ℕ) (p : ℕ) → ok (new_entry m p).channel_ptr ≡ ok p
    ptr_of m p = unfold new_entry in refl

-- No slot of the registry is free.
abbrev pub IsFull : Registry → Type 0
IsFull r = (i : ℕ) → get_elem? r i ≢ some none

taken_lem :
    (r : Registry) (name : List ℕ) (e : ServiceEntry)
    → bad_name name ≡ false
    → find_service name r ≡ some e
    → lookup_service r name ≡ ok e.channel_ptr
unfolding lookup_service
taken_lem r name e good known = rw (good, lookup_service, known)

-- What `register_service` does, in four cases that cover all calls. A name that is empty or longer
-- than 16 bytes is refused with InvalidArgs. A name of 1 to 16 bytes that is registered already is
-- refused with AlreadyExists. One that is not is refused with NoMemory when no slot is free. Each of
-- these leaves the registry as it was. Otherwise the call succeeds; from then on the name finds the
-- channel, and every other name what it found before.
pub register_service-lookup :
    (r : Registry) (name : List ℕ) (ptr : ℕ)
    → (((length name ≡ 0) ⊎ (name_size < length name))
        × (register_service r name ptr ≡ (err invalid_args, r)))
      ⊎ ((0 < length name)
          × (length name ≤ name_size)
          × (((old : ℕ) × (lookup_service r name ≡ ok old)
                × (register_service r name ptr ≡ (err already_exists, r)))
              ⊎ ((lookup_service r name ≡ err not_found)
                  × ((IsFull r × (register_service r name ptr ≡ (err no_memory, r)))
                      ⊎ ((i : ℕ) × (get_elem? r i ≡ some none)
                          × ((register_service r name ptr).0 ≡ ok tt)
                          × ((k : List ℕ)
                              → lookup_service (register_service r name ptr).1 k
                                ≡ (if bytes_eq name k then ok ptr else lookup_service r k)))))))
unfolding register_service
register_service-lookup r name ptr = elim (Bool-cases (bad_name name)) [
  | inl bad ↦ inl (bad_lem name bad, rw (bad, register_service))
  | inr good ↦ inr (
    ground (arith, good),
    ground (arith, good),
    elim (Option-cases (find_service name r)) [
      | inr (e, taken) ↦
          inl (e.channel_ptr, taken_lem r name e good taken, rw (good, register_service, taken))
      | inl unknown ↦ inr (
        refused r name good unknown,
        elim (Option-cases (free_index r)) [
          | inl full ↦ inl (free_index-none r full, rw (good, register_service, unknown, full))
          | inr (i, free) ↦ inr (
            i,
            free_index-some r i free,
            rw (good, register_service, unknown, free),
            rw (good, register_service, unknown, free)
                λ k. registered r name ptr i k good unknown (free_index-some r i free),
          )
        ],
      )
    ],
  )
]
  where
    bad_lem : (n : List ℕ) → bad_name n ≡ true → (length n ≡ 0) ⊎ (name_size < length n)
    bad_lem n bad = elim (Bool-cases (length n == 0)) [
      | inl empty ↦ inl (ground arith)
      | inr other ↦ inr (ground (arith, bad, other))
    ]
