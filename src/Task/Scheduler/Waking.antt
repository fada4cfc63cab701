-- ===== src/Task/Scheduler/Waking.antt =====
-- `wake_thread` of kernel/src/task/scheduler.rs.
use capsule_os.Base.{
  ℕ, zero, suc, ◌<◌, ◌≡◌, ◌≢◌, refl, ap, ◌∙◌, none, some, Option, true, List, [], ◌∷◌, ◌++◌, length,
  get_elem?, get_elem?-lt, get_elem?-set_self, get_elem?-set_ne, set, arith,
}
use capsule_os.Task.Thread.{Thread, ready}
use capsule_os.Task.Scheduler.{
  is_waiting, slot_of, Scheduler, ThreadQueue, max_threads, thread_at, put_thread,
  priority_to_index, push, enqueue, waiting_slot, requeue_current, wake_thread,
}
use capsule_os.Task.Scheduler.Queues.{Holds, push-Holds}

enqueue-at :
    (qs : List ThreadQueue) (p i : ℕ) (q : ThreadQueue)
    → get_elem? qs p ≡ some q
    → get_elem? (enqueue qs p i) p ≡ some (push q i).1
unfolding enqueue
enqueue-at [] p i q e = cc
enqueue-at (x ∷ qs) zero i q e = ap (λ o. elim o [ none ↦ none | some y ↦ some (push y i).1 ]) e
enqueue-at (x ∷ qs) (suc p) i q e = enqueue-at qs p i q e

module _ {ℓ} {O : Type ℓ} where
  requeue-at :
      (s : Scheduler O) (i : ℕ) (t : Thread O)
      → thread_at s i ≡ some t
      → requeue_current s i
        ≡ record s { queues = enqueue s.queues (priority_to_index t.priority) i }
  unfolding requeue_current
  requeue-at s i t at = simp (at, requeue_current)

  wake_thread-requeue :
      (s : Scheduler O) (tid i : ℕ) (t : Thread O)
      → waiting_slot s.threads tid ≡ some i
      → thread_at s i ≡ some t
      → wake_thread s tid ≡ requeue_current (put_thread s i (record t { state = ready })) i
  unfolding wake_thread
  wake_thread-requeue s tid i t w at = simp (w, at, wake_thread)

  -- The slot that has the id is the one to wake, when its thread waits.
  pub waiting_slot-of_slot :
      (ts : List (Option (Thread O))) (tid i : ℕ) (t : Thread O)
      → slot_of ts tid ≡ some i
      → get_elem? ts i ≡ some (some t)
      → is_waiting t.state ≡ true
      → waiting_slot ts tid ≡ some i
  unfolding slot_of waiting_slot
  waiting_slot-of_slot [] tid i t e g h = absurd cc
  waiting_slot-of_slot (none ∷ ts) tid zero t e g h = absurd (ground arith)
  waiting_slot-of_slot (none ∷ ts) tid (suc i) t e g h =
      ground (arith, waiting_slot-of_slot ts tid i t (ground arith) g h)
  waiting_slot-of_slot (some x ∷ ts) tid zero t e g h =
      let same : x ≡ t = cc in
      let waits : is_waiting x.state ≡ true = ap (λ y. is_waiting y.state) same ∙ h in
      ground (arith, waits, e)
  waiting_slot-of_slot (some x ∷ ts) tid (suc i) t e g h =
      ground (arith, waiting_slot-of_slot ts tid i t (ground arith) g h)

  -- Waking a thread that waits: it is marked ready and stands last in the queue of its priority; no
  -- other thread changes.
  pub wake_thread-Holds :
      (s : Scheduler O) (tid i : ℕ) (t : Thread O) (q : ThreadQueue) (xs : List ℕ)
      → waiting_slot s.threads tid ≡ some i
      → thread_at s i ≡ some t
      → get_elem? s.queues (priority_to_index t.priority) ≡ some q
      → Holds q xs
      → length xs < max_threads
      → let s' = wake_thread s tid in
        (q' : ThreadQueue) × (thread_at s' i ≡ some (record t { state = ready }))
        × (get_elem? s'.queues (priority_to_index t.priority) ≡ some q')
        × Holds q' (xs ++ (i ∷ []))
        × ((other : ℕ) → i ≢ other → thread_at s' other ≡ thread_at s other)
  wake_thread-Holds s tid i t q xs w at e h room =
      let u : Thread O = record t { state = ready } in
      let g : get_elem? s.threads i ≡ some (some t) = ground (arith, at) in
      let put : thread_at (put_thread s i u) i ≡ some u =
        rw (get_elem?-set_self s.threads i (some u) (get_elem?-lt s.threads i g), thread_at) refl in
      let after : wake_thread s tid ≡ record s {
        threads = set s.threads i (some u);
        queues = enqueue s.queues (priority_to_index t.priority) i;
      } =
        wake_thread-requeue s tid i t w at ∙ requeue-at (put_thread s i u) i u put in
      (
        (push q i).1,
        ap (λ z. thread_at z i) after ∙ put,
        ap (λ z. get_elem? z.queues (priority_to_index t.priority)) after
            ∙ enqueue-at s.queues (priority_to_index t.priority) i q e,
        ((push-Holds q xs i h).0 room).1,
        λ other ne.
            ap (λ z. thread_at z other) after
            ∙ rw (get_elem?-set_ne s.threads i other (some u) ne, thread_at) refl,
      )
