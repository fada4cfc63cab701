-- ===== src/Task/Scheduler/Woken.antt =====
-- Threads that no longer wait, once `wake_thread` of kernel/src/task/scheduler.rs was called for them.
use capsule_os.Base.{
  ℕ, zero, suc, ◌≡◌, ◌≢◌, refl, sym, ap, ◌∙◌, false, Bool-cases, Option-cases, inl, inr, ◌⊎◌,
  Option, none, some, List, [], ◌∷◌, get_elem?, get_elem?-lt, get_elem?-set_self, get_elem?-set_ne,
  set, find_key, find_key-ne-none_at, Distinct, arith, ◌==◌,
}
use capsule_os.Task.Thread.{Thread, ready}
use capsule_os.Task.Scheduler.{
  Scheduler, thread_at, put_thread, is_waiting, waiting_slot, requeue_current, wake_thread,
}

module _ {ℓ} {O : Type ℓ} where
  -- No thread with the id is blocked or asleep.
  abbrev pub Awake : List (Option (Thread O)) → ℕ → Type ℓ
  Awake ts tid =
      (i : ℕ) (t : Thread O)
      → get_elem? ts i ≡ some (some t)
      → t.id ≡ tid
      → is_waiting t.state ≡ false

  -- No two slots hold threads of one id.
  abbrev pub HasOwnIds : List (Option (Thread O)) → Type ℓ
  HasOwnIds ts =
      (i j : ℕ) (t u : Thread O)
      → get_elem? ts i ≡ some (some t)
      → get_elem? ts j ≡ some (some u)
      → t.id ≡ u.id
      → i ≡ j

  pub Distinct-HasOwnIds : (ts : List (Option (Thread O))) → Distinct (λ t. t.id) ts → HasOwnIds ts
  Distinct-HasOwnIds [] d i j t u g h e = absurd cc
  Distinct-HasOwnIds (none ∷ ts) d zero j t u g h e = absurd cc
  Distinct-HasOwnIds (none ∷ ts) d (suc i) zero t u g h e = absurd cc
  Distinct-HasOwnIds (none ∷ ts) d (suc i) (suc j) t u g h e =
      ap suc (Distinct-HasOwnIds ts d i j t u g h e)
  Distinct-HasOwnIds (some x ∷ ts) d zero zero t u g h e = refl
  Distinct-HasOwnIds (some x ∷ ts) d zero (suc j) t u g h e =
      let same : x ≡ t = cc in
      absurd (
        find_key-ne-none_at (λ t. t.id) j u ts h
          (ap (λ k. find_key (λ t. t.id) k ts) (sym (ap (λ y. y.id) same ∙ e)) ∙ d.0))
  Distinct-HasOwnIds (some x ∷ ts) d (suc i) zero t u g h e =
      let same : x ≡ u = cc in
      absurd (
        find_key-ne-none_at (λ t. t.id) i t ts g
          (ap (λ k. find_key (λ t. t.id) k ts) (e ∙ sym (ap (λ y. y.id) same)) ∙ d.0))
  Distinct-HasOwnIds (some x ∷ ts) d (suc i) (suc j) t u g h e =
      ap suc (Distinct-HasOwnIds ts d.1 i j t u g h e)

  waiting_slot-some :
      (ts : List (Option (Thread O))) (tid i : ℕ)
      → waiting_slot ts tid ≡ some i
      → (t : Thread O) × (get_elem? ts i ≡ some (some t)) × (t.id ≡ tid)
  unfolding waiting_slot
  waiting_slot-some [] tid i e = absurd cc
  waiting_slot-some (none ∷ ts) tid zero e = absurd (ground arith)
  waiting_slot-some (none ∷ ts) tid (suc i) e = waiting_slot-some ts tid i (ground arith)
  waiting_slot-some (some t ∷ ts) tid zero e = (t, refl, ground arith)
  waiting_slot-some (some t ∷ ts) tid (suc i) e = waiting_slot-some ts tid i (ground arith)

  waiting_slot-none :
      (ts : List (Option (Thread O))) (tid : ℕ) → waiting_slot ts tid ≡ none → Awake ts tid
  unfolding waiting_slot
  waiting_slot-none [] tid e i t g k = absurd cc
  waiting_slot-none (none ∷ ts) tid e zero t g k = absurd cc
  waiting_slot-none (none ∷ ts) tid e (suc i) t g k =
      waiting_slot-none ts tid (ground arith) i t g k
  waiting_slot-none (some x ∷ ts) tid e zero t g k =
      let same : x ≡ t = cc in
      ap (λ y. is_waiting y.state) (sym same) ∙ ground (arith, ap (λ y. y.id) same)
  waiting_slot-none (some x ∷ ts) tid e (suc i) t g k =
      waiting_slot-none ts tid (ground arith) i t g k

  -- The threads after `wake_thread`.
  wake_thread-threads :
      (s : Scheduler O) (tid : ℕ)
      → (Awake s.threads tid × ((wake_thread s tid).threads ≡ s.threads))
        ⊎ ((i : ℕ) × (t : Thread O) × (get_elem? s.threads i ≡ some (some t))
            × (t.id ≡ tid)
            × ((wake_thread s tid).threads ≡ set s.threads i (some (record t { state = ready }))))
  unfolding wake_thread requeue_current
  wake_thread-threads s tid = elim (Option-cases (waiting_slot s.threads tid)) [
    | inl nobody ↦ inl (waiting_slot-none s.threads tid nobody, rw (nobody, wake_thread) refl)
    | inr (i, e) ↦
        let (t, g, k) = waiting_slot-some s.threads tid i e in
        let u : Thread O = record t { state = ready } in
        let at : thread_at s i ≡ some t = rw (g, thread_at) refl in
        let put : thread_at (put_thread s i u) i ≡ some u =
          rw (get_elem?-set_self s.threads i (some u) (get_elem?-lt s.threads i g), thread_at)
            refl in
        inr (i, t, g, k, simp (e, at, put, wake_thread, requeue_current))
  ]

  -- A thread stays in its slot under its id, and is not made to wait.
  Follows : List (Option (Thread O)) → List (Option (Thread O)) → Type ℓ
  Follows ts us =
      (i : ℕ) (u : Thread O)
      → get_elem? us i ≡ some (some u)
      → (t : Thread O) × (get_elem? ts i ≡ some (some t))
        × (u.id ≡ t.id)
        × (is_waiting t.state ≡ false → is_waiting u.state ≡ false)

  some_eq : {x y : Thread O} → some (some x) ≡ some (some y) → x ≡ y
  some_eq e = cc

  set-Follows :
      (ts : List (Option (Thread O))) (i : ℕ) (t : Thread O)
      → get_elem? ts i ≡ some (some t)
      → Follows ts (set ts i (some (record t { state = ready })))
  unfolding Follows
  set-Follows ts i t g j u h = elim (Bool-cases (i == j)) [
    | inl here ↦
        let same : i ≡ j = ground (arith, here) in
        let at =
          get_elem?-set_self ts i (some (record t { state = ready })) (get_elem?-lt ts i g) in
        let is : record t { state = ready } ≡ u = some_eq (sym at ∙ ap (get_elem? _) same ∙ h) in
        (
          t,
          ap (get_elem? ts) (sym same) ∙ g,
          sym (ap (λ y. y.id) is),
          λ _. sym (ap (λ y. is_waiting y.state) is),
        )
    | inr there ↦
        let ne : i ≢ j = ground (arith, there) in
        (u, sym (get_elem?-set_ne ts i j (some (record t { state = ready })) ne) ∙ h, refl, λ w. w)
  ]

  wake_thread-Follows : (s : Scheduler O) (tid : ℕ) → Follows s.threads (wake_thread s tid).threads
  unfolding Follows
  wake_thread-Follows s tid = elim (wake_thread-threads s tid) [
    | inl (_, e) ↦ rw e (λ i u g. (u, g, refl, λ w. w))
    | inr (i, t, g, _, e) ↦ rw e (set-Follows s.threads i t g)
  ]

  pub wake_thread-HasOwnIds :
      (s : Scheduler O) (tid : ℕ) → HasOwnIds s.threads → HasOwnIds (wake_thread s tid).threads
  unfolding Follows
  wake_thread-HasOwnIds s tid own i j t u g h e =
      let (t', g', k, _) = wake_thread-Follows s tid i t g in
      let (u', h', l, _) = wake_thread-Follows s tid j u h in own i j t' u' g' h' (sym k ∙ e ∙ l)

  pub wake_thread-keeps :
      (s : Scheduler O) (tid k : ℕ) → Awake s.threads k → Awake (wake_thread s tid).threads k
  unfolding Follows
  wake_thread-keeps s tid k awake i u g e =
      let (t, h, same, quiet) = wake_thread-Follows s tid i u g in
      quiet (awake i t h (sym same ∙ e))

  -- Whoever is woken waits no longer.
  pub wake_thread-Awake :
      (s : Scheduler O) (tid : ℕ) → HasOwnIds s.threads → Awake (wake_thread s tid).threads tid
  unfolding Follows
  wake_thread-Awake s tid own = elim (wake_thread-threads s tid) [
    | inl (awake, e) ↦ rw e awake
    | inr (i, t, g, k, e) ↦ rw e (woken i t g k)
  ]
    where
      woken :
          (i : ℕ) (t : Thread O)
          → get_elem? s.threads i ≡ some (some t)
          → t.id ≡ tid
          → Awake (set s.threads i (some (record t { state = ready }))) tid
      woken i t g k j u h l =
          let (v, at, same, _) = set-Follows s.threads i t g j u h in
          let here : i ≡ j = own i j t v g at (k ∙ sym l ∙ same) in
          let there =
            get_elem?-set_self s.threads i (some (record t { state = ready }))
              (get_elem?-lt s.threads i g) in
          let is : record t { state = ready } ≡ u =
            some_eq (sym there ∙ ap (get_elem? _) here ∙ h) in
          sym (ap (λ y. is_waiting y.state) is)
