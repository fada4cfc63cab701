-- ===== src/Examples/Futexes.antt =====
-- Futexes on concrete waiters (kernel/src/sync/futex.rs).
use capsule_os.Base.{
  ℕ, ◌≤◌, ◌⊎◌, ◌≢◌, get_elem?, min, ◌≡◌, refl, true, false, none, some, List, [], ◌∷◌, length, take,
  replicate, arith,
}
use capsule_os.Task.Scheduler.{Scheduler, new_queue}
use capsule_os.Sync.Futex.{FutexEntry, max_futex_waiters, add_waiter, wake_from_entry}
use capsule_os.Sync.Futex.Links.{Holds, links}
use capsule_os.Sync.Futex.Arrival.{IsJoined, add_waiter-waiters}
use capsule_os.Sync.Futex.Wake.{wake_each, wake_from_entry-Holds}

-- Three threads wait.
abbrev tids : List ℕ
tids = 3 ∷ 4 ∷ 5 ∷ []

abbrev entry : FutexEntry
entry = record {
  addr = 4096;
  waiters = links 0 max_futex_waiters tids;
  waiter_count = 3;
  head = some 0;
  tail = some 2;
}

entry-Holds : Holds entry tids
entry-Holds = record {
  stored = refl;
  counted = refl;
  bounded = omega arith;
  first = refl;
  last = refl;
}

abbrev scheduler : Scheduler ℕ
scheduler = record {
  threads = replicate 16 none;
  queues = replicate 5 new_queue;
  current_idx = none;
  is_running = true;
}

-- The second thread has gone: the next one to come takes its slot, behind the third.
abbrev gap : FutexEntry
gap = record {
  addr = 4096;
  waiters =
      some (record { thread_id = 3; next = some 2 })
      ∷ none
      ∷ some (record { thread_id = 5; next = none })
      ∷ replicate 5 none;
  waiter_count = 2;
  head = some 0;
  tail = some 2;
}

add_waiter-waiters_example :
    ((add_waiter gap 6 ≡ (false, gap))
      × ((max_futex_waiters ≤ 2) ⊎ ((i : ℕ) → get_elem? gap.waiters i ≢ some none)))
    ⊎ ((i : ℕ) × (e' : FutexEntry) × (add_waiter gap 6 ≡ (true, e')) × IsJoined gap 6 i e')
add_waiter-waiters_example = add_waiter-waiters gap 6

wake_from_entry-Holds_example :
    let (woken, e', s') = wake_from_entry entry 1 scheduler in
    (woken ≡ min 1 (length tids))
    × (s' ≡ wake_each (take 1 tids) scheduler)
    × (e'.head ≡ none)
    × ((wake_from_entry e' 8 scheduler).0 ≡ 0)
    × ((wake_from_entry e' 8 scheduler).2 ≡ scheduler)
wake_from_entry-Holds_example =
    wake_from_entry-Holds entry tids 1 8 scheduler scheduler entry-Holds (omega arith) (omega arith)
