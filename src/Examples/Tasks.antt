-- ===== src/Examples/Tasks.antt =====
-- The scheduler on concrete threads (kernel/src/task/scheduler.rs).
use capsule_os.Base.{
  ℕ, ◌≤◌, ◌≡◌, refl, ap, zero, suc, get_elem?, true, false, Option, none, some, List, [], ◌∷◌,
  replicate, arith,
}
use capsule_os.Task.Thread.{Thread, ThreadState, normal, ready, running, blocked, dead}
use capsule_os.Task.Scheduler.{
  Scheduler, returned, switched, ThreadQueue, thread_at, dead_at, first_alive, new_queue, schedule,
}
use capsule_os.Task.Scheduler.Queues.{Holds, HoldAll, new_queue-Holds}
use capsule_os.Task.Scheduler.Choice.{schedule-switched}
use capsule_os.Task.Scheduler.Decay.{LongSlices, ranks, state_after, schedule-ranks}
use capsule_os.Task.Scheduler.Fallback.{schedule-resumes_blocked}

abbrev thread : ℕ → ThreadState → Thread ℕ
thread id state = record {
  id = id;
  state = state;
  priority = normal;
  time_slice = 5;
  remaining_ticks = 5;
  process_id = 1;
  ipc_buf = [];
  ipc_actual_len = 0;
  ipc_transfer_handles = replicate 4 none;
  handle_table = none;
  ipc_transfer_slots = none ∷ none ∷ [];
  port_packet_slot = none;
}

-- A queue that holds some slots.
abbrev queue_of_one : ℕ → ThreadQueue
queue_of_one i = record { items = some i ∷ replicate 15 none; count = 1 }

queue_of_one-Holds : (i : ℕ) → Holds (queue_of_one i) (i ∷ [])
queue_of_one-Holds i = record { stored = refl; counted = refl; bounded = omega arith }

-- Slot 0 runs, slot 1 is ready, slot 2 is dead and still queued, before slot 1.
abbrev threads : List (Option (Thread ℕ))
threads = some (thread 1 running) ∷ some (thread 2 ready) ∷ some (thread 3 dead) ∷ replicate 13 none

abbrev queues : List ThreadQueue
queues = new_queue ∷ queue_of_one 2 ∷ queue_of_one 1 ∷ new_queue ∷ new_queue ∷ []

abbrev waiting : List (List ℕ)
waiting = [] ∷ (2 ∷ []) ∷ (1 ∷ []) ∷ [] ∷ [] ∷ []

queues-HoldAll : HoldAll queues waiting
queues-HoldAll = (
  new_queue-Holds,
  (queue_of_one-Holds 2, (queue_of_one-Holds 1, (new_queue-Holds, (new_queue-Holds, tt)))),
)

abbrev scheduler : Scheduler ℕ
scheduler = record { threads = threads; queues = queues; current_idx = some 0; is_running = true }

abbrev queued : List ℕ
queued = 2 ∷ []

-- Slot 1 runs after slot 0, which waits behind it.
abbrev after : Scheduler ℕ
after = record {
  threads =
      some (record (thread 1 ready) { remaining_ticks = 4 })
      ∷ some (thread 2 running)
      ∷ some (thread 3 dead)
      ∷ replicate 13 none;
  queues = new_queue ∷ new_queue ∷ queue_of_one 0 ∷ new_queue ∷ new_queue ∷ [];
  current_idx = some 1;
  is_running = true;
}

schedule_test : schedule scheduler ≡ switched 0 1 after
unfolding schedule new_queue
schedule_test = refl

schedule-switched_example :
    (scheduler.current_idx ≡ some 0)
    × (dead_at threads 1 ≡ false)
    × (after.current_idx ≡ some 1)
    × ((t : Thread ℕ) × (thread_at after 1 ≡ some t)
        × (t.state ≡ running)
        × (t.remaining_ticks ≡ t.time_slice))
schedule-switched_example = schedule-switched scheduler after 0 1 schedule_test

free_slots-long :
    (n i : ℕ) (t : Thread ℕ)
    → (elim (get_elem? (replicate n (let s : Option (Thread ℕ) = none in s)) i) [
      | none ↦ none
      | some s ↦ s
    ])
      ≡ some t
    → 2 ≤ t.time_slice
free_slots-long zero i t e = absurd (cc)
free_slots-long (suc n) zero t e = absurd (cc)
free_slots-long (suc n) (suc i) t e = free_slots-long n i t e

slices-long : (i : ℕ) (t : Thread ℕ) → thread_at scheduler i ≡ some t → 2 ≤ t.time_slice
slices-long zero t e = ground arith
slices-long (suc zero) t e = ground arith
slices-long (suc (suc zero)) t e = ground arith
slices-long (suc (suc (suc i))) t e = free_slots-long 13 i t e

current-long :
    (i : ℕ) (t : Thread ℕ)
    → scheduler.current_idx ≡ some i
    → thread_at scheduler i ≡ some t
    → 2 ≤ t.remaining_ticks
current-long zero t c e = ground arith
current-long (suc i) t c e = ground arith

scheduler-LongSlices : LongSlices scheduler
scheduler-LongSlices = record { whole = slices-long; left = current-long }

schedule-ranks_example : (ranks after ≡ ranks scheduler) × LongSlices after
schedule-ranks_example =
    schedule-ranks scheduler after scheduler-LongSlices (ap state_after schedule_test)

-- The only thread has just blocked.
abbrev stuck : Scheduler ℕ
stuck = record {
  threads = some (thread 1 blocked) ∷ replicate 15 none;
  queues = replicate 5 new_queue;
  current_idx = some 0;
  is_running = true;
}

schedule-resumes_blocked_example :
    (s' : Scheduler ℕ) × (t' : Thread ℕ) × (schedule stuck ≡ returned s')
    × (thread_at s' 0 ≡ some t')
    × (t'.id ≡ 1)
    × (t'.state ≡ running)
unfolding first_alive
schedule-resumes_blocked_example =
    schedule-resumes_blocked stuck 0 (thread 1 blocked) ([] ∷ [] ∷ [] ∷ [] ∷ [] ∷ []) refl refl refl
      refl
      (
        new_queue-Holds,
        (new_queue-Holds, (new_queue-Holds, (new_queue-Holds, (new_queue-Holds, tt)))),
      )
      refl refl

-- Slot 0 has blocked; slot 1 is ready and queued.
abbrev one_blocked : Scheduler ℕ
one_blocked = record {
  threads = some (thread 1 blocked) ∷ some (thread 2 ready) ∷ replicate 14 none;
  queues = new_queue ∷ new_queue ∷ queue_of_one 1 ∷ new_queue ∷ new_queue ∷ [];
  current_idx = some 1;
  is_running = true;
}
