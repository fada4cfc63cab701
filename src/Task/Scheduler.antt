-- ===== src/Task/Scheduler.antt =====
-- kernel/src/task/scheduler.rs: the ready queues and the choice of the next thread. The scheduler's
-- lock, with interrupts masked, spans each method, so a method is one atomic step here. What runs
-- at a switch (page tables, barriers, registers, log lines) is left out; `Outcome` tells whether a
-- switch takes place.
pub mod Queues
pub mod Choice
pub mod Decay
pub mod Fallback
pub mod Waking
pub mod Woken
use capsule_os.Base.{
  ℕ, zero, suc, ◌+◌, ◌-◌, ◌≡◌, Bool, true, false, not, ◌&&◌, ◌||◌, Option, none, some, List, [],
  ◌∷◌, get_elem?, set, replicate, free_index, leb, ltb, ◌==◌, if◌then◌else◌, arith,
}
use capsule_os.Base.Padded.{shift_left}
use capsule_os.Task.Thread.{
  Thread, Priority, realtime, high, normal, low, idle, ThreadState, ready, running, blocked,
  sleeping, dead, is_dead, reset_time_slice, decay_priority,
}

abbrev pub max_threads : ℕ
max_threads = 16

abbrev pub priority_levels : ℕ
priority_levels = 5

pub record ThreadQueue : Type 0 where
  pub items : List (Option ℕ)
  pub count : ℕ

unfoldable pub new_queue : ThreadQueue
new_queue = record { items = replicate max_threads none; count = 0 }

unfoldable pub push : ThreadQueue → ℕ → Bool × ThreadQueue
push q thread_id =
    if leb max_threads q.count
    then (false, q)
    else (true, record { items = set q.items q.count (some thread_id); count = q.count + 1 })

unfoldable pub pop_highest_priority : ThreadQueue → Option ℕ × ThreadQueue
unfolding shift_left
pop_highest_priority q = if q.count == 0 then (none, q) else (
  elim (get_elem? q.items 0) [ none ↦ none | some e ↦ e ],
  record { items = set (shift_left (q.count - 1) q.items) (q.count - 1) none; count = q.count - 1 },
)

unfoldable pub is_empty : ThreadQueue → Bool
is_empty q = q.count == 0

pub record Scheduler {ℓ} (O : Type ℓ) : Type ℓ where
  pub threads : List (Option (Thread O))
  pub queues : List ThreadQueue
  pub current_idx : Option ℕ
  pub is_running : Bool

-- How a method ends: it returns; it switches from one slot's context to another's; it halts the
-- processor, no thread being left; it panics.
pub data Outcome {ℓ} (O : Type ℓ) : Type ℓ where
  returned : Scheduler O → Outcome O
  switched : ℕ → ℕ → Scheduler O → Outcome O
  halted : Scheduler O → Outcome O
  panicked : Outcome O

unfoldable pub priority_to_index : Priority → ℕ
priority_to_index realtime = 0
priority_to_index high = 1
priority_to_index normal = 2
priority_to_index low = 3
priority_to_index idle = 4

-- `find_map` over the queues, in the order of priority.
unfoldable pub pop_queues : List ThreadQueue → Option ℕ × List ThreadQueue
unfolding pop_highest_priority
pop_queues [] = (none, [])
pop_queues (q ∷ qs) =
    let (r, q') = pop_highest_priority q in
    let rest = pop_queues qs in elim r [ some i ↦ (some i, q' ∷ qs) | none ↦ (rest.0, q' ∷ rest.1) ]

-- The result of `ThreadQueue::push` is dropped.
unfoldable pub enqueue : List ThreadQueue → ℕ → ℕ → List ThreadQueue
unfolding push
enqueue [] p i = []
enqueue (q ∷ qs) zero i = (push q i).1 ∷ qs
enqueue (q ∷ qs) (suc p) i = q ∷ enqueue qs p i

abbrev pub is_waiting : ThreadState → Bool
is_waiting blocked = true
is_waiting sleeping = true
is_waiting _ = false

module _ {ℓ} {O : Type ℓ} where
  -- Queues hold indices of slots, below `max_threads`.
  abbrev pub thread_at : Scheduler O → ℕ → Option (Thread O)
  thread_at s i = elim (get_elem? s.threads i) [ none ↦ none | some slot ↦ slot ]

  abbrev pub put_thread : Scheduler O → ℕ → Thread O → Scheduler O
  put_thread s i t = record s { threads = set s.threads i (some t) }

  unfoldable pub requeue_current : Scheduler O → ℕ → Scheduler O
  unfolding priority_to_index enqueue
  requeue_current s idx = elim (thread_at s idx) [
    | none ↦ s
    | some t ↦ record s { queues = enqueue s.queues (priority_to_index t.priority) idx }
  ]

  -- The linear scan: the first thread that is not dead.
  unfoldable pub first_alive : List (Option (Thread O)) → Option ℕ
  first_alive [] = none
  first_alive (none ∷ ts) = elim (first_alive ts) [ none ↦ none | some i ↦ some (suc i) ]
  first_alive (some t ∷ ts) =
      let rest : Option ℕ = elim (first_alive ts) [ none ↦ none | some i ↦ some (suc i) ] in
      if is_dead t.state then rest else some 0

  abbrev pub dead_at : List (Option (Thread O)) → ℕ → Bool
  dead_at ts i = elim (get_elem? ts i) [
    | none ↦ true
    | some slot ↦ elim slot [ none ↦ true | some t ↦ is_dead t.state ]
  ]

  -- The loop of `pop_next_from_all_queues`, with the rounds that are left.
  unfoldable pub pop_rounds :
      ℕ → List (Option (Thread O)) → List ThreadQueue → Option ℕ × List ThreadQueue
  unfolding pop_queues first_alive
  pop_rounds zero ts qs = (none, qs)
  pop_rounds (suc n) ts qs =
      let (candidate, qs') = pop_queues qs in
      let next = pop_rounds n ts qs' in
      elim candidate [
        | none ↦ (first_alive ts, qs')
        | some idx ↦ if dead_at ts idx then next else (some idx, qs')
      ]

  unfoldable pub pop_next_from_all_queues : Scheduler O → Option ℕ × Scheduler O
  unfolding pop_rounds
  pop_next_from_all_queues s =
      let (r, qs) = pop_rounds max_threads s.threads s.queues in (r, record s { queues = qs })

  -- The time that the running thread has had, and its new state.
  unfoldable pub charge : Thread O → Thread O
  unfolding decay_priority
  charge t =
      let t' : Thread O = record t {
        state = elim t.state [ running ↦ ready | other ↦ other ];
        remaining_ticks = t.remaining_ticks - 1;
      } in
      if t'.remaining_ticks == 0 then decay_priority t' else t'

  -- Up to the choice of the next thread: the previous one is charged, and queued if it is ready.
  unfoldable pub retire : Scheduler O → ℕ → ThreadState × Scheduler O
  unfolding charge requeue_current
  retire s prev = elim (thread_at s prev) [
    | none ↦ (dead, s)
    | some t ↦
        let t' = charge t in
        let s' = put_thread s prev t' in
        (t'.state, elim t'.state [ ready ↦ requeue_current s' prev | _ ↦ s' ])
  ]

  -- The chosen thread becomes the running one, with a full time slice.
  unfoldable pub dispatch : Scheduler O → ℕ → Scheduler O
  unfolding reset_time_slice
  dispatch s next = elim (thread_at s next) [
    | none ↦ record s { current_idx = some next }
    | some t ↦ record (put_thread s next (reset_time_slice (record t { state = running }))) {
      current_idx = some next;
    }
  ]

  unfoldable pub all_dead : List (Option (Thread O)) → Bool
  all_dead [] = true
  all_dead (none ∷ ts) = all_dead ts
  all_dead (some t ∷ ts) = is_dead t.state && all_dead ts

  -- A switch takes the contexts of both slots, which must be in use.
  unfoldable pub switch : Scheduler O → ℕ → ℕ → Outcome O
  switch s prev next = elim (thread_at s prev) [
    | none ↦ panicked
    | some _ ↦ elim (thread_at s next) [ none ↦ panicked | some _ ↦ switched prev next s ]
  ]

  -- The rest of `schedule`, once the next thread has been chosen.
  unfoldable pub settle : Scheduler O → ℕ → ThreadState → Option ℕ → Outcome O
  unfolding dispatch all_dead switch
  settle s prev prev_state none =
      if all_dead s.threads then halted s else returned (record s { current_idx = none })
  settle s prev prev_state (some next) =
      let s' = dispatch s next in
      if prev == next && not (is_dead prev_state) then returned s' else switch s' prev next

  unfoldable pub schedule : Scheduler O → Outcome O
  unfolding retire pop_next_from_all_queues settle
  schedule s = if not s.is_running then returned s else elim s.current_idx [
    | none ↦ returned s
    | some prev ↦
        let (prev_state, s₁) = retire s prev in
        let (choice, s₂) = pop_next_from_all_queues s₁ in settle s₂ prev prev_state choice
  ]

  unfoldable pub add : Scheduler O → Thread O → Outcome O
  unfolding push priority_to_index
  add s thread = elim (free_index s.threads) [
    | none ↦ panicked
    | some idx ↦ elim (get_elem? s.queues (priority_to_index thread.priority)) [
      | none ↦ panicked
      | some q ↦
          let (fits, q') = push q idx in
          if fits
          then returned (record s {
            threads = set s.threads idx (some (record thread { state = ready }));
            queues = set s.queues (priority_to_index thread.priority) q';
          })
          else panicked
    ]
  ]

  -- The slot of the thread with the id.
  unfoldable pub slot_of : List (Option (Thread O)) → ℕ → Option ℕ
  slot_of [] tid = none
  slot_of (none ∷ ts) tid = elim (slot_of ts tid) [ none ↦ none | some i ↦ some (suc i) ]
  slot_of (some t ∷ ts) tid =
      let rest : Option ℕ = elim (slot_of ts tid) [ none ↦ none | some i ↦ some (suc i) ] in
      if t.id == tid then some 0 else rest

  -- The first slot whose thread has the id and waits.
  unfoldable pub waiting_slot : List (Option (Thread O)) → ℕ → Option ℕ
  waiting_slot [] tid = none
  waiting_slot (none ∷ ts) tid = elim (waiting_slot ts tid) [ none ↦ none | some i ↦ some (suc i) ]
  waiting_slot (some t ∷ ts) tid =
      let rest : Option ℕ = elim (waiting_slot ts tid) [ none ↦ none | some i ↦ some (suc i) ] in
      if t.id == tid && is_waiting t.state then some 0 else rest

  unfoldable pub wake_thread : Scheduler O → ℕ → Scheduler O
  unfolding waiting_slot requeue_current
  wake_thread s tid = elim (waiting_slot s.threads tid) [
    | none ↦ s
    | some i ↦ elim (thread_at s i) [
      | none ↦ s
      | some t ↦ requeue_current (put_thread s i (record t { state = ready })) i
    ]
  ]
