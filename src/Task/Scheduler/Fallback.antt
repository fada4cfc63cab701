-- ===== src/Task/Scheduler/Fallback.antt =====
-- A blocked thread that is resumed without being woken (kernel/src/task/scheduler.rs).
use capsule_os.Base.{
  ℕ, zero, suc, ◌≡◌, refl, ap, ◌∙◌, inl, inr, true, false, Option, none, some, List, [], ◌∷◌,
  get_elem?, set, get_elem?-lt, get_elem?-set_self, ==_refl, arith,
}
use capsule_os.Task.Thread.{Thread, ThreadState, running, blocked, is_dead, reset_time_slice}
use capsule_os.Task.Scheduler.{
  Scheduler, returned, thread_at, put_thread, first_alive, pop_rounds, pop_next_from_all_queues,
  charge, retire, dispatch, settle, schedule,
}
use capsule_os.Task.Scheduler.Queues.{HoldAll, flat, pop_queues-HoldAll}
use capsule_os.Task.Scheduler.Choice.{slot_of_thread}

module _ {ℓ} {O : Type ℓ} where
  -- The linear scan looks only at whether threads are dead.
  first_alive-set :
      (ts : List (Option (Thread O))) (i : ℕ) (t u : Thread O)
      → get_elem? ts i ≡ some (some t)
      → is_dead u.state ≡ is_dead t.state
      → first_alive (set ts i (some u)) ≡ first_alive ts
  unfolding first_alive
  first_alive-set [] i t u g e = refl
  first_alive-set (x ∷ ts) zero t u g e = ground arith
  first_alive-set (none ∷ ts) (suc i) t u g e = ground (arith, first_alive-set ts i t u g e)
  first_alive-set (some x ∷ ts) (suc i) t u g e = ground (arith, first_alive-set ts i t u g e)

  charge-blocked : (t : Thread O) → t.state ≡ blocked → (charge t).state ≡ blocked
  unfolding charge
  charge-blocked t e = ground arith

  retire-blocked :
      (s : Scheduler O) (i : ℕ) (t : Thread O)
      → thread_at s i ≡ some t
      → t.state ≡ blocked
      → retire s i ≡ (blocked, put_thread s i (charge t))
  unfolding retire
  retire-blocked s i t at b = rw (at, retire) (rw (charge-blocked t b))

  pop-none_ready :
      (s : Scheduler O) (xss : List (List ℕ))
      → HoldAll s.queues xss
      → flat xss ≡ []
      → pop_next_from_all_queues s ≡ (first_alive s.threads, s)
  unfolding pop_next_from_all_queues pop_rounds
  pop-none_ready s xss h none_ready = elim (pop_queues-HoldAll s.queues xss h) [
    | inl (_, p) ↦ ground (arith, p)
    | inr (x, yss, f, _, _) ↦ absurd (cc)
  ]

  settle-same :
      (s : Scheduler O) (i : ℕ) (st : ThreadState)
      → is_dead st ≡ false
      → settle s i st (some i) ≡ returned (dispatch s i)
  unfolding settle
  settle-same s i st h = rw (==_refl i, h)

  schedule-step :
      (s : Scheduler O) (i : ℕ)
      → s.is_running ≡ true
      → s.current_idx ≡ some i
      → let s₁ = (retire s i).1 in
        schedule s
        ≡ settle (pop_next_from_all_queues s₁).1 i (retire s i).0 (pop_next_from_all_queues s₁).0
  unfolding schedule
  schedule-step s i active current = ground (arith, active, current)

  charge-id : (t : Thread O) → (charge t).id ≡ t.id
  unfolding charge
  charge-id t = ground arith

  dispatch-at :
      (s : Scheduler O) (i : ℕ) (t : Thread O)
      → thread_at s i ≡ some t
      → thread_at (dispatch s i) i
        ≡ some (record t { state = running; remaining_ticks = t.time_slice })
  unfolding dispatch reset_time_slice
  dispatch-at s i t e =
      let u : Thread O = record t { state = running; remaining_ticks = t.time_slice } in
      let inside = get_elem?-lt s.threads i (slot_of_thread s i e) in
      rw (e, dispatch) (rw (get_elem?-set_self s.threads i (some u) inside, thread_at))

  -- When the ready queues are empty, the search falls back to the first thread that is not dead.
  -- If that is the current thread and it has just blocked, `schedule` sets it running again and
  -- returns to it, though nothing has woken it.
  pub schedule-resumes_blocked :
      (s : Scheduler O) (i : ℕ) (t : Thread O) (xss : List (List ℕ))
      → s.is_running ≡ true
      → s.current_idx ≡ some i
      → thread_at s i ≡ some t
      → t.state ≡ blocked
      → HoldAll s.queues xss
      → flat xss ≡ []
      → first_alive s.threads ≡ some i
      → (s' : Scheduler O) × (t' : Thread O) × (schedule s ≡ returned s')
        × (thread_at s' i ≡ some t')
        × (t'.id ≡ t.id)
        × (t'.state ≡ running)
  schedule-resumes_blocked s i t xss active current at b h none_ready alive =
      let g = slot_of_thread s i at in
      let s₁ = put_thread s i (charge t) in
      let blocked_too : is_dead (charge t).state ≡ is_dead t.state = rw (charge-blocked t b, b) in
      let chosen : first_alive s₁.threads ≡ some i =
        first_alive-set s.threads i t (charge t) g blocked_too ∙ alive in
      let held : thread_at s₁ i ≡ some (charge t) =
        ground
          (arith, get_elem?-set_self s.threads i (some (charge t)) (get_elem?-lt s.threads i g)) in
      (
        dispatch s₁ i,
        record (charge t) { state = running; remaining_ticks = (charge t).time_slice },
        schedule-step s i active current
            ∙ ap
                (λ z.
                  settle (pop_next_from_all_queues z.1).1 i z.0 (pop_next_from_all_queues z.1).0)
                (retire-blocked s i t at b)
            ∙ ap (λ w. settle w.1 i blocked w.0) (pop-none_ready s₁ xss h none_ready)
            ∙ ap (settle s₁ i blocked) chosen
            ∙ settle-same s₁ i blocked refl,
        dispatch-at s₁ i (charge t) held,
        charge-id t,
        refl,
      )
