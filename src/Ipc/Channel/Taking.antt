-- ===== src/Ipc/Channel/Taking.antt =====
-- A read that takes the message of a sender that waits (kernel/src/ipc/channel.rs).
use capsule_os.Base.{
  ℕ, zero, suc, ◌<◌, min, ◌≡◌, ◌≢◌, refl, ap, ◌∙◌, Bool, true, false, Option, none, some, List, [],
  ◌∷◌, ◌++◌, length, get_elem?, get_elem?-lt, get_elem?-set_self, get_elem?-set_ne, set, arith,
}
use capsule_os.Base.Padded.{padded}
use capsule_os.Shared.Result.{ok}
use capsule_os.Shared.Types.{HandleValue}
use capsule_os.Task.Thread.{Thread, ready}
use capsule_os.Task.Scheduler.{
  Scheduler, ThreadQueue, max_threads, priority_to_index, is_waiting, wake_thread, thread_at,
  put_thread, slot_of,
}
use capsule_os.Task.Scheduler.Queues.{Holds}
use capsule_os.Task.Scheduler.Waking.{waiting_slot-of_slot, wake_thread-Holds}
use capsule_os.Ipc.Channel.{World, done, max_waiters, copy_bytes, is_closed, extract, modify}
use capsule_os.Ipc.Channel.Read.{taken, after_take, take_message, read_some, read}
use capsule_os.Ipc.Channel.Waiters.{pop_waiter, pop_waiter-padded}

module _ {ℓ} {O : Type ℓ} where
  -- The pair as the thread in slot `i` sees it from the other end, when it runs.
  abbrev pub other_end : World O → ℕ → World O
  other_end w i = record w {
    mine = w.theirs;
    theirs = w.mine;
    sched = record w.sched { current_idx = some i };
  }

  read-reaches :
      (w : World O) (clear : Bool) (ci si tid : ℕ) (cur : Thread O) (ws : List (Option ℕ))
      (bytes : List ℕ) (handles : List HandleValue)
      → is_closed w.mine.state ≡ false
      → w.mine.has_peer ≡ true
      → w.sched.current_idx ≡ some ci
      → thread_at w.sched ci ≡ some cur
      → pop_waiter w.theirs.send_waiters ≡ (some tid, ws)
      → slot_of w.sched.threads tid ≡ some si
      → read_some w clear bytes handles
        ≡ take_message
            (record w { theirs = record w.theirs { send_waiters = ws } })
            ci
            si
            tid
            bytes
            handles
  unfolding read_some
  read-reaches w clear ci si tid cur ws bytes handles o p c at pop sl = simp (o, p, c, at, pop, sl)

  take_message-done :
      (w : World O) (ci si tid : ℕ) (cur sender : Thread O) (bytes : List ℕ)
      (handles : List HandleValue)
      → thread_at w.sched ci ≡ some cur
      → thread_at w.sched si ≡ some sender
      → let n = min (length sender.ipc_buf) (length bytes) in
        let after = after_take w ci si tid cur sender n handles in
        take_message w ci si tid bytes handles
        ≡ done (ok n) (copy_bytes n sender.ipc_buf bytes) after.0 after.1
  unfolding take_message
  take_message-done w ci si tid cur sender bytes handles at st = simp (at, st, take_message)

  modify-at :
      (s : Scheduler O) (i : ℕ) (t : Thread O) (f : Thread O → Thread O)
      → thread_at s i ≡ some t
      → modify s i f ≡ put_thread s i (f t)
  modify-at s i t f e = ap (λ o. elim o [ none ↦ s | some t ↦ put_thread s i (f t) ]) e

  after_take-sched :
      (w : World O) (ci si tid n : ℕ) (cur sender : Thread O) (handles : List HandleValue)
      → thread_at w.sched ci ≡ some cur
      → thread_at w.sched si ≡ some sender
      → ci ≢ si
      → let (hs, ts, slots) = taken cur sender w.tables in
        let s =
          put_thread w.sched ci (record cur { ipc_transfer_handles = (extract handles hs).1 }) in
        (after_take w ci si tid cur sender n handles).1.sched
        ≡ wake_thread
            (put_thread s si (record sender { ipc_transfer_slots = slots; ipc_actual_len = n }))
            tid
  unfolding after_take
  after_take-sched w ci si tid n cur sender handles at st ne =
      let u : Thread O = record cur {
        ipc_transfer_handles = (extract handles (taken cur sender w.tables).0).1;
      } in
      let still : thread_at (put_thread w.sched ci u) si ≡ some sender =
        rw (get_elem?-set_ne w.sched.threads ci si (some u) ne, thread_at) st in
      let filled : Thread O → Thread O =
        λ t. record t { ipc_transfer_slots = (taken cur sender w.tables).2; ipc_actual_len = n } in
      let emptied : Thread O → Thread O = λ t. record t {
        ipc_transfer_handles = (extract handles (taken cur sender w.tables).0).1;
      } in
      ap (λ z. wake_thread (modify z si filled) tid) (modify-at w.sched ci cur emptied at)
      ∙ ap (λ z. wake_thread z tid) (modify-at (put_thread w.sched ci u) si sender filled still)

-- A thread that is put back under its id is found where it was.
pub slot_of-set {ℓ} :
    {O : Type ℓ} (ts : List (Option (Thread O))) (i tid : ℕ) (t u : Thread O)
    → get_elem? ts i ≡ some (some t)
    → u.id ≡ t.id
    → slot_of (set ts i (some u)) tid ≡ slot_of ts tid
unfolding slot_of
slot_of-set [] i tid t u g e = refl
slot_of-set (x ∷ ts) zero tid t u g e = ground arith
slot_of-set (none ∷ ts) (suc i) tid t u g e = ground (arith, slot_of-set ts i tid t u g e)
slot_of-set (some x ∷ ts) (suc i) tid t u g e = ground (arith, slot_of-set ts i tid t u g e)

module _ {ℓ} {O : Type ℓ} where
  -- A read on an end whose peer has a sender waiting ends at once: the reader's buffer starts with
  -- as much of the oldest sender's message as it has room for, and that sender no longer waits.
  pub read-takes :
      (w : World O) (ci si tid : ℕ) (cur sender : Thread O) (tids bytes : List ℕ)
      (handles : List HandleValue)
      → is_closed w.mine.state ≡ false
      → w.mine.has_peer ≡ true
      → w.sched.current_idx ≡ some ci
      → thread_at w.sched ci ≡ some cur
      → length tids < max_waiters
      → w.theirs.send_waiters ≡ padded max_waiters (tid ∷ tids)
      → slot_of w.sched.threads tid ≡ some si
      → thread_at w.sched si ≡ some sender
      → ci ≢ si
      → let n = min (length sender.ipc_buf) (length bytes) in
        let (hs, ts, slots) = taken cur sender w.tables in
        let s =
          put_thread w.sched ci (record cur { ipc_transfer_handles = (extract handles hs).1 }) in
        let v : World O = record w {
          theirs = record w.theirs { send_waiters = padded max_waiters tids };
          sched =
              wake_thread
                (put_thread s si (record sender { ipc_transfer_slots = slots; ipc_actual_len = n }))
                tid;
          tables = ts;
        } in
        read w bytes handles
        ≡ done (ok n) (copy_bytes n sender.ipc_buf bytes) (extract handles hs).0 v
  unfolding read
  read-takes w ci si tid cur sender tids bytes handles o p c at h ws sl st ne =
      let pop = ap pop_waiter ws ∙ pop_waiter-padded max_waiters tid tids h in
      let w' : World O = record w {
        theirs = record w.theirs { send_waiters = padded max_waiters tids };
      } in
      let n = min (length sender.ipc_buf) (length bytes) in
      let hs = (taken cur sender w.tables).0 in
      read-reaches w true ci si tid cur (padded max_waiters tids) bytes handles o p c at pop sl
      ∙ take_message-done w' ci si tid cur sender bytes handles at st
      ∙ ap
          (λ s.
            done (ok n) (copy_bytes n sender.ipc_buf bytes) (extract handles hs).0
              (record w' { sched = s; tables = (taken cur sender w.tables).1 }))
          (after_take-sched w' ci si tid n cur sender handles at st ne)

  -- The sender that such a read wakes is ready, and stands last in the queue of its priority.
  pub sender_woken :
      (s : Scheduler O) (ci si tid : ℕ) (cur cur' sender sender' : Thread O) (q : ThreadQueue)
      (xs : List ℕ)
      → get_elem? s.threads ci ≡ some (some cur)
      → get_elem? s.threads si ≡ some (some sender)
      → ci ≢ si
      → cur'.id ≡ cur.id
      → sender'.id ≡ sender.id
      → slot_of s.threads tid ≡ some si
      → is_waiting sender'.state ≡ true
      → get_elem? s.queues (priority_to_index sender'.priority) ≡ some q
      → Holds q xs
      → length xs < max_threads
      → let s' = wake_thread (put_thread (put_thread s ci cur') si sender') tid in
        (q' : ThreadQueue) × (thread_at s' si ≡ some (record sender' { state = ready }))
        × (get_elem? s'.queues (priority_to_index sender'.priority) ≡ some q')
        × Holds q' (xs ++ (si ∷ []))
  sender_woken s ci si tid cur cur' sender sender' q xs at st ne same same' sl waits e h room =
      let ts = set s.threads ci (some cur') in
      let still = get_elem?-set_ne s.threads ci si (some cur') ne ∙ st in
      let last = get_elem?-set_self ts si (some sender') (get_elem?-lt ts si still) in
      let found =
        slot_of-set ts si tid sender sender' still same'
        ∙ slot_of-set s.threads ci tid cur cur' at same
        ∙ sl in
      let (q', now, queue, held, _) =
        wake_thread-Holds (put_thread (put_thread s ci cur') si sender') tid si sender' q xs
          (waiting_slot-of_slot (set ts si (some sender')) tid si sender' found last waits)
          (rw (last, thread_at) refl) e h room in
      (q', now, queue, held)
