-- ===== src/Task/Scheduler/Choice.antt =====
-- Which thread the scheduler runs next (kernel/src/task/scheduler.rs).
use capsule_os.Base.{
  ℕ, zero, suc, ◌<◌, ◌≡◌, refl, ap, sym, ◌∙◌, ◌⊎◌, inl, inr, true, false, not, ◌&&◌, Option, none,
  some, List, [], ◌∷◌, ◌++◌, length, get_elem?, set, get_elem?-lt, get_elem?-set_self, ◌==◌, arith,
  Option-cases, Bool-cases,
}
use capsule_os.Task.Thread.{Thread, ThreadState, running, is_dead, reset_time_slice}
use capsule_os.Task.Scheduler.{
  Scheduler, switched, ThreadQueue, max_threads, thread_at, put_thread, dead_at, first_alive,
  pop_queues, pop_rounds, pop_next_from_all_queues, charge, retire, requeue_current, dispatch,
  switch, settle, schedule,
}
use capsule_os.Task.Scheduler.Queues.{HoldAll, flat, pop_queues-HoldAll}

module _ {ℓ} {O : Type ℓ} where
  -- The linear scan finds a thread that is not dead.
  first_alive-dead_at :
      (ts : List (Option (Thread O))) (i : ℕ) → first_alive ts ≡ some i → dead_at ts i ≡ false
  unfolding first_alive
  first_alive-dead_at [] i e = cc
  first_alive-dead_at (none ∷ ts) zero e = ground arith
  first_alive-dead_at (none ∷ ts) (suc i) e = first_alive-dead_at ts i (ground arith)
  first_alive-dead_at (some t ∷ ts) zero e = ground arith
  first_alive-dead_at (some t ∷ ts) (suc i) e = first_alive-dead_at ts i (ground arith)

  -- What the search for the next thread returns is never dead.
  pop_rounds-dead_at :
      (n : ℕ) (ts : List (Option (Thread O))) (qs : List ThreadQueue) (i : ℕ)
      → (pop_rounds n ts qs).0 ≡ some i
      → dead_at ts i ≡ false
  unfolding pop_rounds
  pop_rounds-dead_at zero ts qs i e = cc
  pop_rounds-dead_at (suc n) ts qs i e = elim (Option-cases (pop_queues qs).0) [
    | inl no_candidate ↦ first_alive-dead_at ts i (rw (no_candidate, pop_rounds) at e)
    | inr (c, found) ↦ elim (Bool-cases (dead_at ts c)) [
      | inl gone ↦ pop_rounds-dead_at n ts (pop_queues qs).1 i (rw (found, pop_rounds, gone) at e)
      | inr alive ↦ ground (arith, found, alive)
    ]
  ]

  -- All the entries are dead threads, or free slots.
  abbrev pub AllDead : List (Option (Thread O)) → List ℕ → Type 0
  AllDead ts [] = Unit
  AllDead ts (x ∷ xs) = (dead_at ts x ≡ true) × AllDead ts xs

  -- The search takes the first live thread of the queues in the order of priority, and drops the
  -- dead ones before it, as long as they number less than the rounds.
  pub pop_rounds-first :
      (n : ℕ) (ts : List (Option (Thread O))) (qs : List ThreadQueue) (xss : List (List ℕ))
      (skipped : List ℕ) (i : ℕ) (rest : List ℕ)
      → HoldAll qs xss
      → flat xss ≡ skipped ++ (i ∷ rest)
      → AllDead ts skipped
      → dead_at ts i ≡ false
      → length skipped < n
      → (yss : List (List ℕ)) × ((pop_rounds n ts qs).0 ≡ some i)
        × HoldAll (pop_rounds n ts qs).1 yss
        × (flat yss ≡ rest)
  unfolding pop_rounds
  pop_rounds-first zero ts qs xss skipped i rest h e d a l = absurd (omega arith)
  pop_rounds-first (suc n) ts qs xss [] i rest h e d a l = elim (pop_queues-HoldAll qs xss h) [
    | inl (none_left, _) ↦ absurd (cc)
    | inr (x, yss, f, p, held) ↦
        let here : x ≡ i = ground (arith, e, f) in
        (yss, rw (p, pop_rounds, here, a), rw (p, pop_rounds, here, a) held, ground (arith, e, f))
  ]
  pop_rounds-first (suc n) ts qs xss (s ∷ skipped) i rest h e d a l =
      elim (pop_queues-HoldAll qs xss h) [
        | inl (none_left, _) ↦ absurd (cc)
        | inr (x, yss, f, p, held) ↦
            let here : x ≡ s = ground (arith, e, f) in
            let gone : dead_at ts x ≡ true = rw here d.0 in
            let (zss, r, held', f') =
              pop_rounds-first n ts (pop_queues qs).1 yss skipped i rest held (ground (arith, e, f))
                d.1 a (omega arith) in
            (zss, rw (p, pop_rounds, gone) r, rw (p, pop_rounds, gone) held', f')
      ]

module _ {ℓ} {O : Type ℓ} where
  -- Replacing a thread by one that is as dead, or as alive.
  dead_at-set :
      (ts : List (Option (Thread O))) (i j : ℕ) (t u : Thread O)
      → get_elem? ts i ≡ some (some t)
      → is_dead u.state ≡ is_dead t.state
      → dead_at (set ts i (some u)) j ≡ dead_at ts j
  dead_at-set [] i j t u g e = refl
  dead_at-set (x ∷ ts) zero zero t u g e = ground arith
  dead_at-set (x ∷ ts) zero (suc j) t u g e = refl
  dead_at-set (x ∷ ts) (suc i) zero t u g e = refl
  dead_at-set (x ∷ ts) (suc i) (suc j) t u g e = dead_at-set ts i j t u g e

  charge-is_dead : (t : Thread O) → is_dead (charge t).state ≡ is_dead t.state
  unfolding charge
  charge-is_dead t = ground arith

  pub slot_of_thread :
      (s : Scheduler O) (i : ℕ) {t : Thread O}
      → thread_at s i ≡ some t
      → get_elem? s.threads i ≡ some (some t)
  slot_of_thread s i e = ground arith

  threads-requeue : (s : Scheduler O) (i : ℕ) → (requeue_current s i).threads ≡ s.threads
  unfolding requeue_current
  threads-requeue s i = ground arith

  pub threads-pop : (s : Scheduler O) → (pop_next_from_all_queues s).1.threads ≡ s.threads
  unfolding pop_next_from_all_queues
  threads-pop s = refl

  -- Charging the previous thread replaces it in its slot, and no other.
  pub threads-retire :
      (s : Scheduler O) (prev : ℕ)
      → ((thread_at s prev ≡ none) × ((retire s prev).1.threads ≡ s.threads))
        ⊎ ((t : Thread O) × (thread_at s prev ≡ some t)
            × ((retire s prev).1.threads ≡ set s.threads prev (some (charge t))))
  unfolding retire
  threads-retire s prev = elim (Option-cases (thread_at s prev)) [
    | inl e ↦ inl (e, rw (e, retire))
    | inr (t, e) ↦
        inr (
          t,
          e,
          rw (e, retire) (ground (arith, threads-requeue (put_thread s prev (charge t)) prev)),
        )
  ]

  retire-dead_at :
      (s : Scheduler O) (prev j : ℕ) → dead_at (retire s prev).1.threads j ≡ dead_at s.threads j
  retire-dead_at s prev j = elim (threads-retire s prev) [
    | inl (_, e) ↦ ap (λ ts. dead_at ts j) e
    | inr (t, at, e) ↦
        ap (λ ts. dead_at ts j) e
        ∙ dead_at-set s.threads prev j t (charge t) (slot_of_thread s prev at) (charge-is_dead t)
  ]

  -- The choice, made after the previous thread has been charged, was alive before that too.
  choice-dead_at :
      (s : Scheduler O) (prev next : ℕ)
      → (pop_next_from_all_queues (retire s prev).1).0 ≡ some next
      → dead_at s.threads next ≡ false
  unfolding pop_next_from_all_queues
  choice-dead_at s prev next e =
      sym (retire-dead_at s prev next)
      ∙ pop_rounds-dead_at max_threads (retire s prev).1.threads (retire s prev).1.queues next e

  -- The state in which the chosen thread is entered.
  pub dispatch-running :
      (s : Scheduler O) (next : ℕ)
      → dead_at s.threads next ≡ false
      → (t : Thread O) × (thread_at (dispatch s next) next ≡ some t)
        × (t.state ≡ running)
        × (t.remaining_ticks ≡ t.time_slice)
        × ((dispatch s next).current_idx ≡ some next)
  unfolding dispatch reset_time_slice
  dispatch-running s next alive = elim (Option-cases (thread_at s next)) [
    | inl e ↦ absurd (ground (arith, e, alive))
    | inr (t, e) ↦
        let u : Thread O = record t { state = running; remaining_ticks = t.time_slice } in
        let g = slot_of_thread s next e in
        (
          u,
          rw (e, dispatch)
              (rw (
                get_elem?-set_self s.threads next (some u) (get_elem?-lt s.threads next g),
                thread_at,
              )),
          refl,
          refl,
          rw (e, dispatch),
        )
  ]

  switch-switched :
      (s s' : Scheduler O) (prev next p n : ℕ)
      → switch s prev next ≡ switched p n s'
      → (prev ≡ p) × (next ≡ n) × (s ≡ s')
  unfolding switch
  switch-switched s s' prev next p n e = ground arith

  -- A switch comes from a choice, and goes to the state in which the chosen thread is entered.
  settle-switched :
      (s s' : Scheduler O) (prev p n : ℕ) (st : ThreadState) (choice : Option ℕ)
      → settle s prev st choice ≡ switched p n s'
      → (choice ≡ some n) × (prev ≡ p) × (dispatch s n ≡ s')
  unfolding settle
  settle-switched s s' prev p n st none e = absurd (ground arith)
  settle-switched s s' prev p n st (some next) e =
      elim (Bool-cases (prev == next && not (is_dead st))) [
        | inl same ↦ absurd (cc (rw same at e))
        | inr differ ↦
            let (q, m, u) = switch-switched (dispatch s next) s' prev next p n (rw differ at e) in
            (ap some m, q, rw (← m) u)
      ]

  -- Whenever `schedule` switches, the thread switched to was not dead; it is now the current one,
  -- in state Running, with a full time slice.
  pub schedule-switched :
      (s s' : Scheduler O) (prev next : ℕ)
      → schedule s ≡ switched prev next s'
      → (s.current_idx ≡ some prev)
        × (dead_at s.threads next ≡ false)
        × (s'.current_idx ≡ some next)
        × ((t : Thread O) × (thread_at s' next ≡ some t)
            × (t.state ≡ running)
            × (t.remaining_ticks ≡ t.time_slice))
  unfolding schedule
  schedule-switched s s' prev next e = elim (Bool-cases s.is_running) [
    | inr idle ↦ absurd (cc (rw (idle, schedule) at e))
    | inl active ↦ elim (Option-cases s.current_idx) [
      | inl no_thread ↦ absurd (cc (rw (active, no_thread, schedule) at e))
      | inr (p, current) ↦
          let s₁ = (retire s p).1 in
          let s₂ = (pop_next_from_all_queues s₁).1 in
          let e' : settle s₂ p (retire s p).0 (pop_next_from_all_queues s₁).0
              ≡ switched prev next s' =
            rw (active, current, schedule) at e in
          let (chosen, was, entered) = settle-switched s₂ s' p prev next (retire s p).0 _ e' in
          let alive = choice-dead_at s p next chosen in
          let alive₂ : dead_at s₂.threads next ≡ false =
            ap (λ ts. dead_at ts next) (threads-pop s₁) ∙ retire-dead_at s p next ∙ alive in
          let (t, at, run, slice, idx) = dispatch-running s₂ next alive₂ in
          (current ∙ ap some was, alive, rw (← entered) idx, (t, rw (← entered) at, run, slice))
    ]
  ]
