-- ===== src/Sync/Futex/Wake.antt =====
-- Who is woken at a futex, and who is lost (kernel/src/sync/futex.rs).
use capsule_os.Base.{
  ℕ, zero, suc, ◌≤◌, ◌<◌, min, ◌≡◌, refl, sym, ap, ap₂, ◌∙◌, false, Option, none, some, List, [],
  ◌∷◌, ◌++◌, length, length-append, take, take-nil, set, arith, ◌==◌,
}
use capsule_os.Task.Scheduler.{Scheduler, wake_thread}
use capsule_os.Sync.Futex.{
  FutexWaiter, FutexEntry, max_futex_waiters, waiter_at, wake_loop, wake_from_entry,
}
use capsule_os.Sync.Futex.Links.{following, links, Holds}

waiter_at-append :
    (before rest : List (Option FutexWaiter)) (w : FutexWaiter) (i : ℕ)
    → length before ≡ i
    → waiter_at (before ++ (some w ∷ rest)) i ≡ some w
waiter_at-append [] rest w zero b = refl
waiter_at-append [] rest w (suc i) b = absurd (omega arith)
waiter_at-append (x ∷ xs) rest w zero b = absurd (omega arith)
waiter_at-append (x ∷ xs) rest w (suc i) b = waiter_at-append xs rest w i (omega arith)

set-append :
    (before rest : List (Option FutexWaiter)) (x v : Option FutexWaiter) (i : ℕ)
    → length before ≡ i
    → set (before ++ (x ∷ rest)) i v ≡ (before ++ (v ∷ [])) ++ rest
set-append [] rest x v zero b = refl
set-append [] rest x v (suc i) b = absurd (omega arith)
set-append (y ∷ ys) rest x v zero b = absurd (omega arith)
set-append (y ∷ ys) rest x v (suc i) b = ap (λ r. y ∷ r) (set-append ys rest x v i (omega arith))

module _ {ℓ} {O : Type ℓ} where
  abbrev pub wake_each : List ℕ → Scheduler O → Scheduler O
  wake_each [] s = s
  wake_each (t ∷ ts) s = wake_each ts (wake_thread s t)

  -- The slots before the first waiter do not matter.
  wake_loop-links :
      (fuel count i n : ℕ) (ts : List ℕ) (before : List (Option FutexWaiter)) (s : Scheduler O)
      → length before ≡ i
      → length ts ≤ n
      → length ts ≤ fuel
      → ((wake_loop fuel count (following i ts) (before ++ links i n ts) s).0
          ≡ min count (length ts))
        × ((wake_loop fuel count (following i ts) (before ++ links i n ts) s).2
            ≡ wake_each (take count ts) s)
  unfolding wake_loop
  wake_loop-links zero count i n [] before s b hn hf =
      (omega arith, ap (λ l. wake_each l s) (sym (take-nil count)))
  wake_loop-links zero count i n (t ∷ ts) before s b hn hf = absurd (omega arith)
  wake_loop-links (suc fuel) zero i n ts before s b hn hf = (omega arith, refl)
  wake_loop-links (suc fuel) (suc count) i n [] before s b hn hf = (omega arith, refl)
  wake_loop-links (suc fuel) (suc count) i zero (t ∷ ts) before s b hn hf = absurd (omega arith)
  wake_loop-links (suc fuel) (suc count) i (suc n) (t ∷ ts) before s b hn hf =
      let w : FutexWaiter = record { thread_id = t; next = following (suc i) ts } in
      let rest = links (suc i) n ts in
      let found = waiter_at-append before rest w i b in
      let freed = set-append before rest (some w) none i b in
      let grown : length (before ++ (none ∷ [])) ≡ suc i =
        omega (arith, length-append before (none ∷ [])) in
      let (k, all) =
        wake_loop-links fuel count (suc i) n ts (before ++ (none ∷ [])) (wake_thread s t) grown
          (omega arith) (omega arith) in
      rw (found, freed, wake_loop) (omega (arith, k), all)

  wake_from_entry-some :
      (e : FutexEntry) (count : ℕ) (s : Scheduler O)
      → let r = wake_loop max_futex_waiters count e.head e.waiters s in
        0 < r.0
        → wake_from_entry e count s
          ≡ (r.0, record e { waiters = r.1; head = none; tail = none; waiter_count = 0 }, r.2)
  unfolding wake_from_entry
  wake_from_entry-some e count s h =
      let r = wake_loop max_futex_waiters count e.head e.waiters s in
      let more : (r.0 == 0) ≡ false = ground arith in rw (more, wake_from_entry) refl

  wake_loop-none :
      (fuel count : ℕ) (ws : List (Option FutexWaiter)) (s : Scheduler O)
      → wake_loop fuel count none ws s ≡ (0, ws, s)
  unfolding wake_loop
  wake_loop-none zero count ws s = refl
  wake_loop-none (suc fuel) zero ws s = refl
  wake_loop-none (suc fuel) (suc count) ws s = refl

  wake_from_entry-none :
      (e : FutexEntry) (count : ℕ) (s : Scheduler O)
      → e.head ≡ none
      → ((wake_from_entry e count s).0 ≡ 0) × ((wake_from_entry e count s).2 ≡ s)
  unfolding wake_from_entry
  wake_from_entry-none e count s h =
      let r =
        ap (λ c. wake_loop max_futex_waiters count c e.waiters s) h
        ∙ wake_loop-none max_futex_waiters count e.waiters s in
      rw (r, wake_from_entry) (refl, refl)

  -- A wake at an entry whose waiters stand in its slots from 0 on, in the order in which they came and
  -- without a gap (as in an entry that threads have only joined), for at least one of at least one
  -- waiter: the first `count` are woken, in order, or all if they are fewer. The entry then has no first
  -- waiter any more, whoever else waited there: a wake that follows at once wakes nobody.
  pub wake_from_entry-Holds :
      (e : FutexEntry) (tids : List ℕ) (count again : ℕ) (s s₁ : Scheduler O)
      → Holds e tids
      → 0 < count
      → 0 < length tids
      → let (woken, e', s') = wake_from_entry e count s in
        (woken ≡ min count (length tids))
        × (s' ≡ wake_each (take count tids) s)
        × (e'.head ≡ none)
        × ((wake_from_entry e' again s₁).0 ≡ 0)
        × ((wake_from_entry e' again s₁).2 ≡ s₁)
  wake_from_entry-Holds e tids count again s s₁ h hc ht =
      let r = wake_loop max_futex_waiters count e.head e.waiters s in
      let same = ap₂ (λ c ws. wake_loop max_futex_waiters count c ws s) h.first h.stored in
      let (k, all) =
        wake_loop-links max_futex_waiters count 0 max_futex_waiters tids [] s refl h.bounded
          h.bounded in
      let woken : r.0 ≡ min count (length tids) = ap (λ z. z.0) same ∙ k in
      let eq = wake_from_entry-some e count s (omega (arith, woken)) in
      let lost =
        wake_from_entry-none
          (record e { waiters = r.1; head = none; tail = none; waiter_count = 0 }) again s₁ refl in
      (
        ap (λ z. z.0) eq ∙ woken,
        ap (λ z. z.2) eq ∙ ap (λ z. z.2) same ∙ all,
        ap (λ z. z.1.head) eq,
        ap (λ z. (wake_from_entry z.1 again s₁).0) eq ∙ lost.0,
        ap (λ z. (wake_from_entry z.1 again s₁).2) eq ∙ lost.1,
      )
