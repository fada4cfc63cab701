-- ===== src/Task/Scheduler/Decay.antt =====
-- The time slice and the decay of priorities (kernel/src/task/scheduler.rs, kernel/src/task/thread.rs).
use capsule_os.Base.{
  ℕ, zero, suc, ◌≤◌, ◌≡◌, refl, ap, sym, subst, ◌∙◌, inl, inr, Option, none, some, List, [], ◌∷◌,
  map, get_elem?, set, get_elem?-lt, get_elem?-set_self, arith, Option-cases, Bool-cases,
}
use capsule_os.Task.Thread.{Thread, Priority, ThreadState, running, reset_time_slice}
use capsule_os.Task.Scheduler.{
  Scheduler, Outcome, returned, switched, thread_at, pop_next_from_all_queues, charge, retire,
  dispatch, all_dead, settle, schedule,
}
use capsule_os.Task.Scheduler.Choice.{slot_of_thread, threads-retire, threads-pop}

module _ {ℓ} {O : Type ℓ} where
  -- What must not change of a thread: its priority and its time slice.
  abbrev pub rank : Option (Thread O) → Option (Priority × ℕ)
  rank none = none
  rank (some t) = some (t.priority, t.time_slice)

  abbrev pub ranks : Scheduler O → List (Option (Priority × ℕ))
  ranks s = map rank s.threads

  ranks-set :
      (ts : List (Option (Thread O))) (i : ℕ) (t u : Thread O)
      → get_elem? ts i ≡ some (some t)
      → rank (some u) ≡ rank (some t)
      → map rank (set ts i (some u)) ≡ map rank ts
  ranks-set [] i t u g e = refl
  ranks-set (x ∷ ts) zero t u g e = ground arith
  ranks-set (x ∷ ts) (suc i) t u g e = ap (λ r. rank x ∷ r) (ranks-set ts i t u g e)

  charge-rank : (t : Thread O) → 2 ≤ t.remaining_ticks → rank (some (charge t)) ≡ rank (some t)
  unfolding charge
  charge-rank t h = ground arith

  -- Slices are long enough: of every thread the whole slice, of the current one what is left.
  pub record LongSlices (s : Scheduler O) : Type ℓ where
    pub whole : (i : ℕ) (t : Thread O) → thread_at s i ≡ some t → 2 ≤ t.time_slice
    pub left :
        (i : ℕ) (t : Thread O)
        → s.current_idx ≡ some i
        → thread_at s i ≡ some t
        → 2 ≤ t.remaining_ticks

  -- The scheduler's state after a method that goes on.
  abbrev pub state_after : Outcome O → Option (Scheduler O)
  state_after (returned s) = some s
  state_after (switched _ _ s) = some s
  state_after _ = none

  ranks-retire :
      (s : Scheduler O) (prev : ℕ)
      → LongSlices s
      → s.current_idx ≡ some prev
      → map rank (retire s prev).1.threads ≡ ranks s
  ranks-retire s prev l c = elim (threads-retire s prev) [
    | inl (_, e) ↦ ap (map rank) e
    | inr (t, at, e) ↦
        ap (map rank) e
        ∙ ranks-set s.threads prev t (charge t) (slot_of_thread s prev at)
            (charge-rank t (l.left prev t c at))
  ]

  dispatch-cases :
      (s : Scheduler O) (next : ℕ)
      → ((dispatch s next).current_idx ≡ some next)
        × (ranks (dispatch s next) ≡ ranks s)
        × ((t : Thread O)
            → thread_at (dispatch s next) next ≡ some t
            → t.remaining_ticks ≡ t.time_slice)
  unfolding dispatch reset_time_slice
  dispatch-cases s next = elim (Option-cases (thread_at s next)) [
    | inl e ↦ (rw (e, dispatch), rw (e, dispatch), λ t at. absurd (ground (arith, e)))
    | inr (t, e) ↦
        let u : Thread O = record t { state = running; remaining_ticks = t.time_slice } in
        let g = slot_of_thread s next e in
        (
          rw (e, dispatch),
          rw (e, dispatch) (ranks-set s.threads next t u g refl),
          λ t' at. ground (
            arith,
            e,
            get_elem?-set_self s.threads next (some u) (get_elem?-lt s.threads next g),
          ),
        )
  ]

  abbrev at_slot : List (Option (Thread O)) → ℕ → Option (Thread O)
  at_slot ts i = elim (get_elem? ts i) [ none ↦ none | some slot ↦ slot ]

  -- Equal ranks: a thread in a slot of one table has one of its time slice in the other.
  slice_of_ranks :
      (ts us : List (Option (Thread O))) (i : ℕ) (t : Thread O)
      → map rank ts ≡ map rank us
      → at_slot ts i ≡ some t
      → (u : Thread O) × (at_slot us i ≡ some u) × (u.time_slice ≡ t.time_slice)
  slice_of_ranks [] us i t e a = absurd (cc)
  slice_of_ranks (x ∷ ts) [] i t e a = absurd (ground arith)
  slice_of_ranks (none ∷ ts) (y ∷ us) zero t e a = absurd (cc)
  slice_of_ranks (some x ∷ ts) (none ∷ us) zero t e a = absurd (ground arith)
  slice_of_ranks (some x ∷ ts) (some y ∷ us) zero t e a = (y, refl, ground arith)
  slice_of_ranks (x ∷ ts) (y ∷ us) (suc i) t e a = slice_of_ranks ts us i t (ground arith) a

  -- After the choice: no rank has changed, and the current thread has its whole slice.
  settle-ranks :
      (s s' : Scheduler O) (prev : ℕ) (st : ThreadState) (choice : Option ℕ)
      → state_after (settle s prev st choice) ≡ some s'
      → (ranks s' ≡ ranks s)
        × ((i : ℕ) (t : Thread O)
            → s'.current_idx ≡ some i
            → thread_at s' i ≡ some t
            → t.remaining_ticks ≡ t.time_slice)
  unfolding settle
  settle-ranks s s' prev st none e = elim (Bool-cases (all_dead s.threads)) [
    | inl gone ↦ absurd (cc (rw gone at e))
    | inr left ↦ (ground (arith, left), λ i t c a. absurd (ground (arith, left)))
  ]
  settle-ranks s s' prev st (some next) e =
      let (c, r, full) = dispatch-cases s next in
      let d = dispatch s next in
      let same : d ≡ s' = ground (arith, e) in
      rw (← same) (
        r,
        λ i t ci at.
            let here : next ≡ i = ground (arith, c, ci) in
            full t (subst (λ k. thread_at (dispatch s next) k ≡ some t) (sym here) at),
      )

  -- As long as no time slice is shorter than two ticks, `schedule` changes no thread's priority and
  -- no time slice, and this stays so from call to call: a thread that runs is charged one tick and
  -- is given a whole slice when it is next chosen, so no slice ever runs out.
  pub schedule-ranks :
      (s s' : Scheduler O)
      → LongSlices s
      → state_after (schedule s) ≡ some s'
      → (ranks s' ≡ ranks s) × LongSlices s'
  unfolding schedule
  schedule-ranks s s' l e = elim (Bool-cases s.is_running) [
    | inr idle ↦
        let same : s ≡ s' = ground (arith, rw (idle, schedule) at e) in rw (← same) (refl, l)
    | inl active ↦ elim (Option-cases s.current_idx) [
      | inl no_thread ↦
          let same : s ≡ s' = ground (arith, rw (active, no_thread, schedule) at e) in
          rw (← same) (refl, l)
      | inr (p, current) ↦
          let s₁ = (retire s p).1 in
          let s₂ = (pop_next_from_all_queues s₁).1 in
          let chosen = (pop_next_from_all_queues s₁).0 in
          let (r, full) =
            settle-ranks s₂ s' p (retire s p).0 chosen (rw (active, current, schedule) at e) in
          let r' : ranks s' ≡ ranks s =
            r ∙ ap (map rank) (threads-pop s₁) ∙ ranks-retire s p l current in
          let whole : (i : ℕ) (t : Thread O) → thread_at s' i ≡ some t → 2 ≤ t.time_slice =
            λ i t at.
              let (u, at_u, q) = slice_of_ranks s'.threads s.threads i t r' at in
              omega (arith, l.whole i u at_u, q) in
          (
            r',
            record { whole = whole; left = λ i t c at. omega (arith, full i t c at, whole i t at) },
          )
    ]
  ]
