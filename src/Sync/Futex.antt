-- ===== src/Sync/Futex.antt =====
-- kernel/src/sync/futex.rs: threads that wait on an address. The table has an entry per hash; the
-- waiters of an entry are linked by slot indices in an array of eight. A wait is two functions, up
-- to the call of the scheduler and from its return on.
pub mod Links
pub mod Join
pub mod Arrival
pub mod Wake
use capsule_os.Base.{
  ℕ, zero, suc, ◌+◌, ◌-◌, ◌/◌, ◌%◌, ◌^◌, ◌≡◌, Bool, true, false, not, Option, none, some, List, [],
  ◌∷◌, get_elem?, set, free_index, replicate, leb, ◌==◌, if◌then◌else◌,
}
use capsule_os.Shared.Status.{Status, no_memory, thread_not_found}
use capsule_os.Shared.Result.{Result, ok, err}
use capsule_os.Task.Thread.{blocked}
use capsule_os.Task.Scheduler.{Scheduler, put_thread, wake_thread}
use capsule_os.Ipc.Port.{current}

abbrev pub max_futex_waiters : ℕ
max_futex_waiters = 8

pub record FutexWaiter : Type 0 where
  pub thread_id : ℕ
  pub next : Option ℕ

pub record FutexEntry : Type 0 where
  pub addr : ℕ
  pub waiters : List (Option FutexWaiter)
  pub waiter_count : ℕ
  pub head : Option ℕ
  pub tail : Option ℕ

unfoldable pub new_entry : ℕ → FutexEntry
new_entry addr = record {
  addr = addr;
  waiters = replicate max_futex_waiters none;
  waiter_count = 0;
  head = none;
  tail = none;
}

abbrev pub buckets : ℕ
buckets = 64

abbrev pub FutexTable : Type 0
FutexTable = List (Option FutexEntry)

-- `addr >> 3`, modulo the table's size.
unfoldable pub hash_addr : ℕ → ℕ
hash_addr addr = addr / 8 % buckets

unfoldable pub find_entry : FutexTable → ℕ → Option FutexEntry
unfolding hash_addr
find_entry t addr = elim (get_elem? t (hash_addr addr)) [ none ↦ none | some e ↦ e ]

-- An entry that exists is used for every address of its hash.
unfoldable pub get_or_create_entry : FutexTable → ℕ → FutexEntry
unfolding find_entry new_entry
get_or_create_entry t addr = elim (find_entry t addr) [ none ↦ new_entry addr | some e ↦ e ]

-- `waiters[i].next = next`, on a slot in use.
abbrev pub link : List (Option FutexWaiter) → ℕ → Option ℕ → List (Option FutexWaiter)
link ws i next = elim (get_elem? ws i) [
  | none ↦ ws
  | some slot ↦ elim slot [ none ↦ ws | some w ↦ set ws i (some (record w { next = next })) ]
]

unfoldable pub add_waiter : FutexEntry → ℕ → Bool × FutexEntry
add_waiter e tid =
    if leb max_futex_waiters e.waiter_count then (false, e) else elim (free_index e.waiters) [
      | none ↦ (false, e)
      | some i ↦
          let ws = set e.waiters i (some (record { thread_id = tid; next = none })) in
          let e' : FutexEntry = record e { waiters = ws; waiter_count = e.waiter_count + 1 } in
          elim e.head [
            | none ↦ (true, record e' { head = some i; tail = some i })
            | some _ ↦ elim e.tail [
              | none ↦ (true, e')
              | some last ↦ (true, record e' { waiters = link ws last (some i); tail = some i })
            ]
          ]
    ]

-- The slot of an index, if it is in use.
abbrev pub waiter_at : List (Option FutexWaiter) → ℕ → Option FutexWaiter
waiter_at ws i = elim (get_elem? ws i) [ none ↦ none | some slot ↦ slot ]

abbrev same_index : Option ℕ → ℕ → Bool
same_index none i = false
same_index (some j) i = j == i

-- The waiter in slot `i` leaves the list; `prev` is the slot before it.
unfoldable pub unlink : FutexEntry → Option ℕ → ℕ → Option ℕ → FutexEntry
unlink e prev i next = record e {
  waiters = set (elim prev [ none ↦ e.waiters | some p ↦ link e.waiters p next ]) i none;
  waiter_count = e.waiter_count - 1;
  head = elim prev [ none ↦ next | some _ ↦ e.head ];
  tail = if same_index e.tail i then prev else e.tail;
}

-- The loop of `remove_waiter`, with the steps that are left. A list without a cycle has at most
-- eight slots.
unfoldable pub remove_loop : ℕ → FutexEntry → ℕ → Option ℕ → Option ℕ → FutexEntry
unfolding unlink
remove_loop zero e tid prev curr = e
remove_loop (suc n) e tid prev none = e
remove_loop (suc n) e tid prev (some i) = elim (waiter_at e.waiters i) [
  | none ↦ e
  | some w ↦
      let rest = remove_loop n e tid (some i) w.next in
      if w.thread_id == tid then unlink e prev i w.next else rest
]

unfoldable pub remove_waiter : FutexEntry → ℕ → FutexEntry
unfolding remove_loop
remove_waiter e tid = remove_loop max_futex_waiters e tid none e.head

module _ {ℓ} {O : Type ℓ} where
  -- The loop of `wake_from_entry` with the steps that are left: each frees a slot in use, or is the
  -- last. What it returns: how many it woke, the slots, the threads.
  unfoldable pub wake_loop :
      ℕ
      → ℕ
      → Option ℕ
      → List (Option FutexWaiter)
      → Scheduler O
      → ℕ × List (Option FutexWaiter) × Scheduler O
  unfolding wake_thread
  wake_loop zero count curr ws s = (0, ws, s)
  wake_loop (suc n) zero curr ws s = (0, ws, s)
  wake_loop (suc n) (suc count) none ws s = (0, ws, s)
  wake_loop (suc n) (suc count) (some i) ws s = elim (waiter_at ws i) [
    | none ↦ (0, ws, s)
    | some w ↦
        let rest = wake_loop n count w.next (set ws i none) (wake_thread s w.thread_id) in
        (suc rest.0, rest.1, rest.2)
  ]

  unfoldable pub wake_from_entry : FutexEntry → ℕ → Scheduler O → ℕ × FutexEntry × Scheduler O
  unfolding wake_loop
  wake_from_entry e count s =
      let (woken, ws, s') = wake_loop max_futex_waiters count e.head e.waiters s in
      if woken == 0
      then (woken, record e { waiters = ws }, s')
      else (woken, record e { waiters = ws; head = none; tail = none; waiter_count = 0 }, s')

  unfoldable pub wake : FutexTable → ℕ → ℕ → Scheduler O → Result ℕ × FutexTable × Scheduler O
  unfolding find_entry wake_from_entry hash_addr
  wake t addr count s = elim (find_entry t addr) [
    | none ↦ (ok 0, t, s)
    | some e ↦ elim e.head [
      | none ↦ (ok 0, t, s)
      | some _ ↦
          let (woken, e', s') = wake_from_entry e count s in
          (ok woken, set t (hash_addr addr) (some e'), s')
    ]
  ]

  -- `usize::MAX`.
  unfoldable pub wake_all : FutexTable → ℕ → Scheduler O → Result ℕ × FutexTable × Scheduler O
  unfolding wake
  wake_all t addr s = wake t addr (2 ^ 64 - 1) s

  -- The new address is not used; the rest is the text of `wake` and of its loop.
  unfoldable pub requeue :
      FutexTable → ℕ → ℕ → ℕ → Scheduler O → Result ℕ × FutexTable × Scheduler O
  unfolding wake
  requeue t addr count new_addr s = wake t addr count s

  -- `value` is the number at the address. A wait ends at once, or blocks: `true`.
  unfoldable pub wait :
      FutexTable → ℕ → ℕ → ℕ → Scheduler O → Result Bool × FutexTable × Scheduler O
  unfolding get_or_create_entry add_waiter hash_addr
  wait t addr value expected s =
      if not (value == expected) then (ok false, t, s) else elim (current s) [
        | none ↦ (err thread_not_found, t, s)
        | some (i, thread) ↦
            let (added, e) = add_waiter (get_or_create_entry t addr) thread.id in
            let t' = set t (hash_addr addr) (some e) in
            if added
            then (ok true, t', put_thread s i (record thread { state = blocked }))
            else (err no_memory, t', s)
      ]

-- After the scheduler has returned to the thread.
unfoldable pub wait_finish : FutexTable → ℕ → ℕ → FutexTable
unfolding find_entry remove_waiter hash_addr
wait_finish t addr tid = elim (find_entry t addr) [
  | none ↦ t
  | some e ↦ set t (hash_addr addr) (some (remove_waiter e tid))
]
