-- ===== src/Ipc/Channel/Closing.antt =====
-- What `close` does to the threads that wait at a channel (kernel/src/ipc/channel.rs).
use capsule_os.Base.{
  ℕ, zero, suc, ◌≡◌, refl, ap, ◌⊎◌, inl, inr, true, false, Option, none, some, List, [], ◌∷◌,
  length, get_elem?, Distinct, arith, Bool,
}
use capsule_os.Base.Padded.{padded}
use capsule_os.Shared.Status.{peer_closed}
use capsule_os.Shared.Result.{err}
use capsule_os.Shared.Types.{HandleValue}
use capsule_os.Task.Scheduler.{Scheduler}
use capsule_os.Task.Scheduler.Woken.{
  Awake, HasOwnIds, Distinct-HasOwnIds, wake_thread-HasOwnIds, wake_thread-keeps, wake_thread-Awake,
}
use capsule_os.Ipc.Channel.{World, done, max_waiters, is_closed, wake_entry, wake_waiters, close}
use capsule_os.Ipc.Channel.Read.{read_some, read}
use capsule_os.Ipc.Channel.Taking.{other_end}

-- The thread stands in the array.
abbrev pub IsListed : List (Option ℕ) → ℕ → Type 0
IsListed ws tid = (j : ℕ) × (get_elem? ws j ≡ some (some tid))

module _ {ℓ} {O : Type ℓ} where
  -- What a loop that wakes threads does to the scheduler.
  record Wakes (s r : Scheduler O) : Type ℓ where
    own : HasOwnIds s.threads → HasOwnIds r.threads
    keeps : (k : ℕ) → Awake s.threads k → Awake r.threads k

  wake_entry-Wakes : (x : Option ℕ) (s : Scheduler O) → Wakes s (wake_entry x s)
  unfolding wake_entry
  wake_entry-Wakes none s = record { own = λ o. o; keeps = λ k a. a }
  wake_entry-Wakes (some tid) s = record {
    own = wake_thread-HasOwnIds s tid;
    keeps = wake_thread-keeps s tid;
  }

  wake_entry-Awake :
      (tid : ℕ) (x : Option ℕ) (s : Scheduler O)
      → HasOwnIds s.threads
      → x ≡ some tid
      → Awake (wake_entry x s).threads tid
  unfolding wake_entry
  wake_entry-Awake tid none s own e = absurd cc
  wake_entry-Awake tid (some y) s own e =
      let same : y ≡ tid = cc in rw same (wake_thread-Awake s tid own)

  wake_waiters-Wakes :
      (xs ys : List (Option ℕ)) (s : Scheduler O) → Wakes s (wake_waiters xs ys s).2
  unfolding wake_waiters
  wake_waiters-Wakes [] ys s = record { own = λ o. o; keeps = λ k a. a }
  wake_waiters-Wakes (x ∷ xs) [] s = record { own = λ o. o; keeps = λ k a. a }
  wake_waiters-Wakes (x ∷ xs) (y ∷ ys) s =
      let s₁ = wake_entry x s in
      let a = wake_entry-Wakes x s in
      let b = wake_entry-Wakes y s₁ in
      let c = wake_waiters-Wakes xs ys (wake_entry y s₁) in
      record {
        own = λ o. c.own (b.own (a.own o));
        keeps = λ k o. c.keeps k (b.keeps k (a.keeps k o));
      }

  -- The loop leaves nobody in the arrays.
  wake_waiters-padded :
      (n : ℕ) (xs ys : List (Option ℕ)) (s : Scheduler O)
      → length xs ≡ n
      → length ys ≡ n
      → ((wake_waiters xs ys s).0 ≡ padded n []) × ((wake_waiters xs ys s).1 ≡ padded n [])
  unfolding wake_waiters
  wake_waiters-padded zero [] [] s h k = (refl, refl)
  wake_waiters-padded zero [] (y ∷ ys) s h k = absurd (omega (arith, k))
  wake_waiters-padded zero (x ∷ xs) ys s h k = absurd (omega (arith, h))
  wake_waiters-padded (suc n) [] ys s h k = absurd (omega (arith, h))
  wake_waiters-padded (suc n) (x ∷ xs) [] s h k = absurd (omega (arith, k))
  wake_waiters-padded (suc n) (x ∷ xs) (y ∷ ys) s h k =
      let (p, q) =
        wake_waiters-padded n xs ys (wake_entry y (wake_entry x s)) (omega (arith, h))
          (omega (arith, k)) in
      (ap (λ r. none ∷ r) p, ap (λ r. none ∷ r) q)

  -- Each thread in the arrays is awake after the loop.
  wake_waiters-Awake :
      (n tid : ℕ) (xs ys : List (Option ℕ)) (s : Scheduler O)
      → length xs ≡ n
      → length ys ≡ n
      → HasOwnIds s.threads
      → IsListed xs tid ⊎ IsListed ys tid
      → Awake (wake_waiters xs ys s).2.threads tid
  unfolding wake_waiters
  wake_waiters-Awake n tid [] [] s h k own (inl (j, e)) = absurd cc
  wake_waiters-Awake n tid [] [] s h k own (inr (j, e)) = absurd cc
  wake_waiters-Awake n tid [] (y ∷ ys) s h k own at = absurd (omega (arith, h, k))
  wake_waiters-Awake n tid (x ∷ xs) [] s h k own at = absurd (omega (arith, h, k))
  wake_waiters-Awake zero tid (x ∷ xs) (y ∷ ys) s h k own at = absurd (omega (arith, h))
  wake_waiters-Awake (suc n) tid (x ∷ xs) (y ∷ ys) s h k own at =
      let s₁ = wake_entry x s in
      let s₂ = wake_entry y s₁ in
      let own₁ = (wake_entry-Wakes x s).own own in
      let own₂ = (wake_entry-Wakes y s₁).own own₁ in
      let rest = wake_waiters-Wakes xs ys s₂ in
      let tail : IsListed xs tid ⊎ IsListed ys tid → Awake (wake_waiters xs ys s₂).2.threads tid =
        wake_waiters-Awake n tid xs ys s₂ (omega (arith, h)) (omega (arith, k)) own₂ in
      elim at [
        | inl (zero, e) ↦
            rest.keeps tid
              ((wake_entry-Wakes y s₁).keeps tid (wake_entry-Awake tid x s own (ground arith)))
        | inl (suc j, e) ↦ tail (inl (j, e))
        | inr (zero, e) ↦ rest.keeps tid (wake_entry-Awake tid y s₁ own₁ (ground arith))
        | inr (suc j, e) ↦ tail (inr (j, e))
      ]

  -- A call on a closed end fails, and changes nothing.
  read-closed :
      (w : World O) (clear : Bool) (bytes : List ℕ) (handles : List HandleValue)
      → is_closed w.mine.state ≡ true
      → read_some w clear bytes handles ≡ done (err peer_closed) bytes handles w
  unfolding read_some
  read-closed w clear bytes handles e = rw (e, read_some) refl

  -- Closing one end of a pair, where each end has its eight slots for senders and for receivers and no
  -- two threads have one id, closes both: every thread that stood in one of the four arrays is neither
  -- blocked nor asleep any more, all four arrays are empty, neither end points to the other, and reads
  -- on both ends fail at once, whichever thread runs.
  pub close-read :
      (w : World O) (i : ℕ) (bytes : List ℕ) (handles : List HandleValue)
      → w.mine.has_peer ≡ true
      → length w.mine.send_waiters ≡ max_waiters
      → length w.mine.recv_waiters ≡ max_waiters
      → length w.theirs.send_waiters ≡ max_waiters
      → length w.theirs.recv_waiters ≡ max_waiters
      → Distinct (λ t. t.id) w.sched.threads
      → let v = close w in
        ((tid : ℕ)
          → (IsListed w.mine.send_waiters tid ⊎ IsListed w.mine.recv_waiters tid)
            ⊎ (IsListed w.theirs.send_waiters tid ⊎ IsListed w.theirs.recv_waiters tid)
          → Awake v.sched.threads tid)
        × (v.mine.send_waiters ≡ padded max_waiters [])
        × (v.mine.recv_waiters ≡ padded max_waiters [])
        × (v.theirs.send_waiters ≡ padded max_waiters [])
        × (v.theirs.recv_waiters ≡ padded max_waiters [])
        × (v.mine.has_peer ≡ false)
        × (v.theirs.has_peer ≡ false)
        × (read v bytes handles ≡ done (err peer_closed) bytes handles v)
        × (read (other_end v i) bytes handles
            ≡ done (err peer_closed) bytes handles (other_end v i))
  unfolding close read
  close-read w i bytes handles p ms mr ts tr distinct =
      let own = Distinct-HasOwnIds w.sched.threads distinct in
      let s = (wake_waiters w.mine.send_waiters w.mine.recv_waiters w.sched).2 in
      let first = wake_waiters-Wakes w.mine.send_waiters w.mine.recv_waiters w.sched in
      let second = wake_waiters-Wakes w.theirs.send_waiters w.theirs.recv_waiters s in
      let here =
        wake_waiters-padded max_waiters w.mine.send_waiters w.mine.recv_waiters w.sched ms mr in
      let there =
        wake_waiters-padded max_waiters w.theirs.send_waiters w.theirs.recv_waiters s ts tr in
      rw (p, close)
        (
          λ tid at. elim at [
            | inl mine ↦ second.keeps tid (
                wake_waiters-Awake max_waiters tid w.mine.send_waiters w.mine.recv_waiters w.sched
                  ms mr own mine)
            | inr theirs ↦
                wake_waiters-Awake max_waiters tid w.theirs.send_waiters w.theirs.recv_waiters s ts
                  tr (first.own own) theirs
          ],
          here.0,
          here.1,
          there.0,
          there.1,
          refl,
          refl,
          read-closed _ true bytes handles refl,
          read-closed _ true bytes handles refl,
        )
