-- ===== src/Object.antt =====
-- kernel/src/object/handle_table.rs: the capability table of a process. The table's spin lock is
-- taken and released within each operation, so an operation is one atomic step here.
pub mod Lookup
pub mod Invariant
use capsule_os.Base.{
  ℕ, suc, ◌+◌, ◌%◌, ◌^◌, ◌≡◌, Bool, true, Option, none, some, List, set, get_elem?, replicate,
  free_index, occupied, find_index, bit_and, if◌then◌else◌, ◌==◌,
}
use capsule_os.Shared.Status.{Status, no_memory, bad_handle, access_denied, wrong_type, not_allowed}
use capsule_os.Shared.Result.{Result, ok, err}
use capsule_os.Shared.Types.{HandleValue, ObjectType}

-- The payloads are the kernel's own structures (`Vmo`, `Vmar`, `Channel`, `Port`), which the table
-- stores and hands out and never looks into.
pub data KernelObject {ℓ} (V R C P : Type ℓ) : Type ℓ where
  vmo : V → KernelObject V R C P
  vmar : R → KernelObject V R C P
  channel : C → KernelObject V R C P
  port : P → KernelObject V R C P
  process thread : ℕ → KernelObject V R C P

pub record Slot {ℓ} (O : Type ℓ) : Type ℓ where
  pub value : HandleValue
  pub rights : ℕ
  pub object : O

-- A table and the counter of handle values, which all tables share.
pub record HandleTable {ℓ} (O : Type ℓ) : Type ℓ where
  pub counter : ℕ
  pub slots : List (Option (Slot O))

abbrev pub max_handles : ℕ
max_handles = 12

abbrev pub counter_start : ℕ
counter_start = 1000

unfoldable pub check_rights : ℕ → ℕ → Bool
check_rights have required = if required == 0 then true else bit_and have required == required

module _ {ℓ} {V R C P : Type ℓ} where
  unfoldable pub object_type : KernelObject V R C P → ObjectType
  object_type (vmo _) = ObjectType.vmo
  object_type (vmar _) = ObjectType.vmar
  object_type (channel _) = ObjectType.channel
  object_type (port _) = ObjectType.port
  object_type (process _) = ObjectType.process
  object_type (thread _) = ObjectType.thread

  -- `Vmo::clone` copies every field.
  unfoldable pub duplicate : KernelObject V R C P → Result (KernelObject V R C P)
  duplicate (vmo v) = ok (vmo v)
  duplicate _ = err not_allowed

module _ {ℓ} {O : Type ℓ} where
  unfoldable pub new : ℕ → HandleTable O
  new counter = record { counter = counter; slots = replicate max_handles none }

  -- The slot for `hv`: the scans of `with`, `duplicate_handle` and `remove_with_rights`.
  abbrev pub position : HandleValue → HandleTable O → Option ℕ
  position hv t = find_index (λ s. s.value) hv t.slots

  -- The entry in slot `i`.
  abbrev pub entry : HandleTable O → ℕ → Option (Slot O)
  entry t i = elim (get_elem? t.slots i) [ none ↦ none | some e ↦ e ]

  put : HandleTable O → HandleValue → ℕ → O → Option (HandleTable O)
  put t hv rights object = elim (free_index t.slots) [
    | none ↦ none
    | some i ↦ some (record t {
      slots = set t.slots i (some (record { value = hv; rights = rights; object = object }));
    })
  ]

  -- `fetch_add` wraps at 32 bits, and counts also when the table is full.
  unfoldable pub add : HandleTable O → O → ℕ → Result HandleValue × HandleTable O
  unfolding put
  add t object rights =
      let hv = t.counter in
      let t' : HandleTable O = record t { counter = (t.counter + 1) % 2 ^ 32 } in
      elim (put t' hv rights object) [ none ↦ (err no_memory, t') | some u ↦ (ok hv, u) ]

  unfoldable pub add_raw_handle :
      HandleTable O → HandleValue → O → ℕ → Result (Unit {0}) × HandleTable O
  unfolding put
  add_raw_handle t raw object rights = elim (put t raw rights object) [
    | none ↦ (err no_memory, t)
    | some u ↦ (ok tt, u)
  ]

  -- `f` returns its result beside the object as it leaves it.
  unfoldable pub with_object {κ} :
      {A : Type κ} → HandleTable O → HandleValue → ℕ → (O → Result A × O) → Result A × HandleTable O
  with_object t hv required f = elim (position hv t) [
    | none ↦ (err bad_handle, t)
    | some i ↦ elim (entry t i) [
      | none ↦ (err bad_handle, t)
      | some s ↦
          if check_rights s.rights required
          then (let (r, o) = f s.object in
              (r, record t { slots = set t.slots i (some (record s { object = o })) }))
          else (err access_denied, t)
    ]
  ]

  unfoldable pub remove_with_rights : HandleTable O → HandleValue → Result (O × ℕ) × HandleTable O
  remove_with_rights t hv = elim (position hv t) [
    | none ↦ (err bad_handle, t)
    | some i ↦ elim (entry t i) [
      | none ↦ (err bad_handle, t)
      | some s ↦ (ok (s.object, s.rights), record t { slots = set t.slots i none })
    ]
  ]

  unfoldable pub remove : HandleTable O → HandleValue → Result O × HandleTable O
  remove t hv =
      let (r, u) = remove_with_rights t hv in (elim r [ ok p ↦ ok p.0 | err e ↦ err e ], u)

  unfoldable pub close : HandleTable O → HandleValue → Result O × HandleTable O
  unfolding remove
  close t hv = remove t hv

  unfoldable pub live_count : HandleTable O → ℕ
  unfolding occupied
  live_count t = occupied t.slots

module _ {ℓ} {V R C P : Type ℓ} where
  unfoldable pub duplicate_handle :
      HandleTable (KernelObject V R C P)
      → HandleValue
      → ℕ
      → Result HandleValue × HandleTable (KernelObject V R C P)
  duplicate_handle t hv required = elim (position hv t) [
    | none ↦ (err bad_handle, t)
    | some i ↦ elim (entry t i) [
      | none ↦ (err bad_handle, t)
      | some s ↦
          if check_rights s.rights required
          then elim (duplicate s.object) [ err e ↦ (err e, t) | ok o ↦ add t o s.rights ]
          else (err access_denied, t)
    ]
  ]

  -- The typed accessors run `f` on a payload of their kind alone.
  unfoldable pub with_vmo {κ} :
      {A : Type κ}
      → HandleTable (KernelObject V R C P)
      → HandleValue
      → ℕ
      → (V → A × V)
      → Result A × HandleTable (KernelObject V R C P)
  with_vmo t hv required f =
      with_object t hv required
        (elim [ vmo v ↦ (let (a, v') = f v in (ok a, vmo v')) | o ↦ (err wrong_type, o) ])

  unfoldable pub with_vmar {κ} :
      {A : Type κ}
      → HandleTable (KernelObject V R C P)
      → HandleValue
      → ℕ
      → (R → A × R)
      → Result A × HandleTable (KernelObject V R C P)
  with_vmar t hv required f =
      with_object t hv required
        (elim [ vmar v ↦ (let (a, v') = f v in (ok a, vmar v')) | o ↦ (err wrong_type, o) ])

  unfoldable pub with_channel {κ} :
      {A : Type κ}
      → HandleTable (KernelObject V R C P)
      → HandleValue
      → ℕ
      → (C → A × C)
      → Result A × HandleTable (KernelObject V R C P)
  with_channel t hv required f =
      with_object t hv required
        (elim [ channel v ↦ (let (a, v') = f v in (ok a, channel v')) | o ↦ (err wrong_type, o) ])

  unfoldable pub with_port {κ} :
      {A : Type κ}
      → HandleTable (KernelObject V R C P)
      → HandleValue
      → ℕ
      → (P → A × P)
      → Result A × HandleTable (KernelObject V R C P)
  with_port t hv required f =
      with_object t hv required
        (elim [ port v ↦ (let (a, v') = f v in (ok a, port v')) | o ↦ (err wrong_type, o) ])

  -- `Process` and `Thread` payloads are copied, so `f` cannot change them.
  unfoldable pub with_process {κ} :
      {A : Type κ}
      → HandleTable (KernelObject V R C P)
      → HandleValue
      → ℕ
      → (ℕ → A)
      → Result A × HandleTable (KernelObject V R C P)
  with_process t hv required f =
      with_object t hv required
        (elim [ process n ↦ (ok (f n), process n) | o ↦ (err wrong_type, o) ])

  unfoldable pub with_thread {κ} :
      {A : Type κ}
      → HandleTable (KernelObject V R C P)
      → HandleValue
      → ℕ
      → (ℕ → A)
      → Result A × HandleTable (KernelObject V R C P)
  with_thread t hv required f =
      with_object t hv required (elim [ thread n ↦ (ok (f n), thread n) | o ↦ (err wrong_type, o) ])
