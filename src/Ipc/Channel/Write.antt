-- ===== src/Ipc/Channel/Write.antt =====
-- The writing half of kernel/src/ipc/channel.rs: `write`.
use capsule_os.Base.{
  ℕ, ◌+◌, min, not, Option, none, some, List, [], ◌∷◌, length, map, set, take, if◌then◌else◌,
}
use capsule_os.Shared.Status.{no_memory, thread_not_found, peer_closed}
use capsule_os.Shared.Result.{Result, ok, err}
use capsule_os.Shared.Types.{HandleValue}
use capsule_os.Object.{KernelObject, add, duplicate_handle, remove_with_rights}
use capsule_os.Task.Thread.{Thread, running, blocked}
use capsule_os.Task.Scheduler.{thread_at, put_thread, slot_of, wake_thread}
use capsule_os.Ipc.Channel.Waiters.{push_waiter, pop_waiter}
use capsule_os.Ipc.Channel.{
  Tables, World, Progress, done, blocks, is_closed, copy_bytes, modify, table_of, put_table,
  inject_one,
}

module _ {ℓ} {V R C P : Type ℓ} where
  -- A handle leaves table `i`: by way of a duplicate, where its object allows one.
  unfoldable pub grab :
      ℕ
      → HandleValue
      → Tables (KernelObject V R C P)
      → Option (KernelObject V R C P × ℕ) × Tables (KernelObject V R C P)
  grab i hv ts =
      let (d, t) = duplicate_handle (table_of ts i) hv 0 in
      let (r, t') = remove_with_rights t (elim d [ err _ ↦ hv | ok dup ↦ dup ]) in
      (elim r [ err _ ↦ none | ok o ↦ some o ], put_table ts i t')

  -- The handles of a message, from table `i` straight to table `j`.
  unfoldable pub send_handles :
      ℕ
      → ℕ
      → List HandleValue
      → ℕ × List (Option ℕ) × Tables (KernelObject V R C P)
      → ℕ × List (Option ℕ) × Tables (KernelObject V R C P)
  unfolding grab inject_one
  send_handles i j [] acc = acc
  send_handles i j (hv ∷ hvs) (n, hs, ts) =
      let (o, ts') = grab i hv ts in
      send_handles i j hvs (elim o [ none ↦ (n, hs, ts') | some p ↦ inject_one j p (n, hs, ts') ])

  -- The handles of a message, from table `i` to the thread's own slots, from index `n` on.
  unfoldable pub stash :
      ℕ
      → List HandleValue
      → ℕ
      → List (Option (KernelObject V R C P × ℕ))
      → Tables (KernelObject V R C P)
      → List (Option (KernelObject V R C P × ℕ)) × Tables (KernelObject V R C P)
  unfolding grab
  stash i [] n slots ts = (slots, ts)
  stash i (hv ∷ hvs) n slots ts =
      let (o, ts') = grab i hv ts in
      elim o [
        | none ↦ stash i hvs n slots ts'
        | some p ↦ stash i hvs (n + 1) (set slots n (some p)) ts'
      ]

  -- Stashed objects go back to table `i`; what does not fit is dropped.
  unfoldable pub restore :
      ℕ
      → List (Option (KernelObject V R C P × ℕ))
      → Tables (KernelObject V R C P)
      → Tables (KernelObject V R C P)
  restore i [] ts = ts
  restore i (none ∷ slots) ts = restore i slots ts
  restore i (some (object, rights) ∷ slots) ts =
      restore i slots (put_table ts i (add (table_of ts i) object rights).1)

  -- What passes of the handles from `cur` to `receiver`: its list of handles, and the tables.
  unfoldable pub passed :
      Thread (KernelObject V R C P)
      → Thread (KernelObject V R C P)
      → List HandleValue
      → Tables (KernelObject V R C P)
      → List (Option ℕ) × Tables (KernelObject V R C P)
  unfolding send_handles
  passed cur receiver handles ts = elim cur.handle_table [
    | none ↦ (receiver.ipc_transfer_handles, ts)
    | some i ↦ elim receiver.handle_table [
      | none ↦ (receiver.ipc_transfer_handles, ts)
      | some j ↦
          let (_, hs, ts') =
            send_handles i j (take 2 handles) (0, receiver.ipc_transfer_handles, ts) in
          (hs, ts')
    ]
  ]

  -- The message goes to the receiver in slot `ri`, which is woken.
  unfoldable pub give_message :
      World (KernelObject V R C P)
      → ℕ
      → ℕ
      → ℕ
      → List ℕ
      → List HandleValue
      → Progress (KernelObject V R C P)
  unfolding passed wake_thread
  give_message w ci ri tid bytes handles = elim (thread_at w.sched ri) [
    | none ↦ done (err thread_not_found) bytes handles w
    | some receiver ↦ elim (thread_at w.sched ci) [
      | none ↦ done (err thread_not_found) bytes handles w
      | some cur ↦
          let copy_len = min (length bytes) (length receiver.ipc_buf) in
          let (hs, ts) = passed cur receiver handles w.tables in
          let s = modify w.sched ri (λ t. record t {
            ipc_buf = copy_bytes copy_len bytes receiver.ipc_buf;
            ipc_transfer_handles = hs;
            ipc_actual_len = copy_len;
          }) in
          done (ok copy_len) bytes handles (record w { sched = wake_thread s tid; tables = ts })
    ]
  ]

  -- What the thread `cur` stashes of its handles, and the tables after.
  unfoldable pub stashed :
      Thread (KernelObject V R C P)
      → List HandleValue
      → Tables (KernelObject V R C P)
      → List (Option (KernelObject V R C P × ℕ)) × Tables (KernelObject V R C P)
  unfolding stash
  stashed cur handles ts =
      let free = map (λ _. none) cur.ipc_transfer_slots in
      elim cur.handle_table [ none ↦ (free, ts) | some i ↦ stash i (take 2 handles) 0 free ts ]

  -- The stashed objects go back where the call cannot wait.
  unfoldable pub unstashed :
      Thread (KernelObject V R C P)
      → List (Option (KernelObject V R C P × ℕ))
      → Tables (KernelObject V R C P)
      → List (Option (KernelObject V R C P × ℕ)) × Tables (KernelObject V R C P)
  unfolding restore
  unstashed cur slots ts = elim cur.handle_table [
    | none ↦ (slots, ts)
    | some i ↦ (map (λ _. none) slots, restore i slots ts)
  ]

  -- The caller in slot `ci` stashes its message and blocks.
  unfoldable pub block_writer :
      World (KernelObject V R C P) → ℕ → List ℕ → List HandleValue → Progress (KernelObject V R C P)
  unfolding push_waiter stashed unstashed
  block_writer w ci bytes handles = elim (thread_at w.sched ci) [
    | none ↦ done (err thread_not_found) bytes handles w
    | some cur ↦
        let (slots, ts) = stashed cur handles w.tables in
        let waiting : Thread (KernelObject V R C P) = record cur {
          ipc_buf = bytes;
          ipc_actual_len = 0;
          state = blocked;
          ipc_transfer_slots = slots;
        } in
        let (pushed, ws) = push_waiter w.mine.send_waiters cur.id in
        let (left, ts') = unstashed cur slots ts in
        if pushed
        then blocks (record w {
          mine = record w.mine { send_waiters = ws };
          sched = put_thread w.sched ci waiting;
          tables = ts;
        })
        else done (err no_memory) bytes handles (record w {
          sched =
              put_thread w.sched ci (record waiting { state = running; ipc_transfer_slots = left });
          tables = ts';
        })
  ]

  unfoldable pub write :
      World (KernelObject V R C P) → List ℕ → List HandleValue → Progress (KernelObject V R C P)
  unfolding pop_waiter give_message block_writer
  write w bytes handles =
      if is_closed w.mine.state
      then done (err peer_closed) bytes handles w
      else elim w.sched.current_idx [
        | none ↦ done (err thread_not_found) bytes handles w
        | some ci ↦ elim (thread_at w.sched ci) [
          | none ↦ done (err thread_not_found) bytes handles w
          | some _ ↦
              if not w.mine.has_peer
              then done (err peer_closed) bytes handles w
              else (let (popped, ws) = pop_waiter w.theirs.recv_waiters in
                  let w' : World (KernelObject V R C P) = record w {
                    theirs = record w.theirs { recv_waiters = ws };
                  } in
                  elim popped [
                    | none ↦ block_writer w' ci bytes handles
                    | some tid ↦ elim (slot_of w.sched.threads tid) [
                      | none ↦ block_writer w' ci bytes handles
                      | some ri ↦ give_message w' ci ri tid bytes handles
                    ]
                  ])
        ]
      ]

  -- After the scheduler has returned to the writer in slot `ci`.
  unfoldable pub write_finish : World (KernelObject V R C P) → ℕ → Result ℕ
  write_finish w ci = elim (thread_at w.sched ci) [
    | none ↦ err thread_not_found
    | some t ↦ ok t.ipc_actual_len
  ]
