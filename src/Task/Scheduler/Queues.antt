-- ===== src/Task/Scheduler/Queues.antt =====
-- The ready queues are first-in first-out, and are served in the order of priority
-- (kernel/src/task/scheduler.rs).
use capsule_os.Base.{
  ℕ, ◌-◌, ◌≤◌, ◌<◌, ◌≡◌, refl, ap, sym, subst, ◌∙◌, ◌⊎◌, inl, inr, true, false, none, some, List,
  [], ◌∷◌, ◌++◌, length, length-append, set, leb, ◌==◌, arith,
}
use capsule_os.Base.Padded.{padded, set-padded, shift_left, shift_left-padded}
use capsule_os.Task.Scheduler.{
  ThreadQueue, max_threads, new_queue, push, pop_highest_priority, pop_queues,
}

-- The queue holds the slot indices `xs`, oldest first.
pub record Holds (q : ThreadQueue) (xs : List ℕ) : Type 0 where
  pub stored : q.items ≡ padded max_threads xs
  pub counted : q.count ≡ length xs
  pub bounded : length xs ≤ max_threads

pub new_queue-Holds : Holds new_queue []
unfolding new_queue
new_queue-Holds = record { stored = refl; counted = refl; bounded = omega arith }

-- `push` adds at the end, and is refused exactly when sixteen entries are held.
pub push-Holds :
    (q : ThreadQueue) (xs : List ℕ) (i : ℕ)
    → Holds q xs
    → (length xs < max_threads → ((push q i).0 ≡ true) × Holds (push q i).1 (xs ++ (i ∷ [])))
      × (length xs ≡ max_threads → push q i ≡ (false, q))
unfolding push
push-Holds q xs i h = (
  λ room.
      let short : leb max_threads q.count ≡ false = ground (arith, h.counted) in
      rw short (
        refl,
        record {
          stored =
              ap (λ a. set a q.count (some i)) h.stored
              ∙ ap (λ n. set (padded max_threads xs) n (some i)) h.counted
              ∙ set-padded max_threads xs i room;
          counted = omega (arith, h.counted, length-append xs (i ∷ []));
          bounded = omega (arith, length-append xs (i ∷ []));
        },
      ),
  λ full. let long : leb max_threads q.count ≡ true = ground (arith, h.counted) in rw long,
)

-- `pop_highest_priority` takes the oldest entry, and finds none exactly in an empty queue.
pub pop-Holds :
    (q : ThreadQueue) (xs : List ℕ)
    → Holds q xs
    → ((xs ≡ []) × (pop_highest_priority q ≡ (none, q)))
      ⊎ ((x : ℕ) × (ys : List ℕ) × (xs ≡ x ∷ ys)
          × ((pop_highest_priority q).0 ≡ some x)
          × Holds (pop_highest_priority q).1 ys)
unfolding pop_highest_priority
pop-Holds q [] h =
    let none_held : (q.count == 0) ≡ true = ground (arith, h.counted) in inl (refl, rw none_held)
pop-Holds q (x ∷ ys) h =
    let some_held : (q.count == 0) ≡ false = ground (arith, h.counted) in
    let last : q.count - 1 ≡ length ys = omega (arith, h.counted) in
    inr (
      x,
      ys,
      refl,
      rw some_held (rw h.stored refl),
      rw some_held (record {
        stored =
            ap (λ a. set (shift_left (q.count - 1) a) (q.count - 1) none) h.stored
            ∙ ap (λ n. set (shift_left n (padded max_threads (x ∷ ys))) n none) last
            ∙ shift_left-padded max_threads (length ys) x ys (omega arith)
                (omega (arith, h.bounded));
        counted = last;
        bounded = omega (arith, h.bounded);
      }),
    )

-- The queues of all priorities together, the highest first.
abbrev pub HoldAll : List ThreadQueue → List (List ℕ) → Type 0
HoldAll [] [] = Unit
HoldAll [] (xs ∷ xss) = ⊥
HoldAll (q ∷ qs) [] = ⊥
HoldAll (q ∷ qs) (xs ∷ xss) = Holds q xs × HoldAll qs xss

abbrev pub flat : List (List ℕ) → List ℕ
flat [] = []
flat (xs ∷ xss) = xs ++ flat xss

-- The five queues pop as one queue, in which every thread stands before those of lower priority.
pub pop_queues-HoldAll :
    (qs : List ThreadQueue) (xss : List (List ℕ))
    → HoldAll qs xss
    → ((flat xss ≡ []) × (pop_queues qs ≡ (none, qs)))
      ⊎ ((x : ℕ) × (yss : List (List ℕ)) × (flat xss ≡ x ∷ flat yss)
          × ((pop_queues qs).0 ≡ some x)
          × HoldAll (pop_queues qs).1 yss)
unfolding pop_queues
pop_queues-HoldAll [] [] h = inl (refl, refl)
pop_queues-HoldAll [] (xs ∷ xss) h = absurd h
pop_queues-HoldAll (q ∷ qs) [] h = absurd h
pop_queues-HoldAll (q ∷ qs) (xs ∷ xss) h = elim (pop-Holds q xs h.0) [
  | inr (x, ys, e, p, held) ↦
      inr
        (x, ys ∷ xss, ap (λ l. l ++ flat xss) e, rw (p, pop_queues), rw (p, pop_queues) (held, h.1))
  | inl (e, p) ↦ elim (pop_queues-HoldAll qs xss h.1) [
    | inl (e', p') ↦ inl (rw (e, e'), ground (arith, p, p'))
    | inr (x, yss, e', p', held) ↦ inr (
      x,
      [] ∷ yss,
      rw (e, e'),
      rw (ap (λ z. z.0) p, pop_queues, p'),
      rw (ap (λ z. z.0) p, pop_queues)
          (subst (λ z. Holds z []) (sym (ap (λ z. z.1) p)) (subst (λ l. Holds q l) e h.0), held),
    )
  ]
]
