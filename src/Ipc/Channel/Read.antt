-- ===== src/Ipc/Channel/Read.antt =====
-- The reading half of kernel/src/ipc/channel.rs: `read` and `read_with_timeout`.
use capsule_os.Base.{
  ℕ, ◌+◌, ◌*◌, ◌/◌, ◌%◌, ◌^◌, min, Bool, true, false, not, ◌&&◌, Option, none, some, List, [], ◌∷◌,
  length, map, leb, ltb, if◌then◌else◌,
}
use capsule_os.Shared.Status.{no_memory, thread_not_found, peer_closed, timed_out}
use capsule_os.Shared.Result.{Result, ok, err}
use capsule_os.Shared.Types.{HandleValue}
use capsule_os.Task.Thread.{Thread, running, blocked}
use capsule_os.Task.Scheduler.{thread_at, put_thread, slot_of, wake_thread}
use capsule_os.Ipc.Port.{unblocked}
use capsule_os.Ipc.Channel.Waiters.{push_waiter, pop_waiter}
use capsule_os.Ipc.Channel.{
  Tables, World, Progress, done, blocks, is_closed, copy_bytes, extract, remove_receiver, modify,
  inject_one,
}

module _ {ℓ} {O : Type ℓ} where
  -- The stashed objects, in order.
  unfoldable pub inject :
      ℕ → List (Option (O × ℕ)) → ℕ × List (Option ℕ) × Tables O → ℕ × List (Option ℕ) × Tables O
  unfolding inject_one
  inject i [] acc = acc
  inject i (none ∷ slots) acc = inject i slots acc
  inject i (some o ∷ slots) acc = inject i slots (inject_one i o acc)

  -- What the thread `cur` takes of the objects that `sender` has stashed: its list of handles, the
  -- tables, and what stays stashed.
  unfoldable pub taken :
      Thread O → Thread O → Tables O → List (Option ℕ) × Tables O × List (Option (O × ℕ))
  unfolding inject
  taken cur sender ts = elim cur.handle_table [
    | none ↦ (cur.ipc_transfer_handles, ts, sender.ipc_transfer_slots)
    | some i ↦
        let (_, hs, ts') = inject i sender.ipc_transfer_slots (0, cur.ipc_transfer_handles, ts) in
        (hs, ts', map (λ _. none) sender.ipc_transfer_slots)
  ]

  -- The threads and the tables once `cur` has taken the message, and the handles that it sees.
  unfoldable pub after_take :
      World O → ℕ → ℕ → ℕ → Thread O → Thread O → ℕ → List HandleValue → List HandleValue × World O
  unfolding taken extract wake_thread
  after_take w ci si tid cur sender copy_len handles =
      let (hs, ts, slots) = taken cur sender w.tables in
      let (handles', hs') = extract handles hs in
      let s₁ = modify w.sched ci (λ t. record t { ipc_transfer_handles = hs' }) in
      let s₂ =
        modify s₁ si (λ t. record t { ipc_transfer_slots = slots; ipc_actual_len = copy_len }) in
      (handles', record w { sched = wake_thread s₂ tid; tables = ts })

  -- The caller takes the message of the sender in slot `si`: bytes, objects, and the wake-up.
  unfoldable pub take_message : World O → ℕ → ℕ → ℕ → List ℕ → List HandleValue → Progress O
  unfolding after_take
  take_message w ci si tid bytes handles = elim (thread_at w.sched si) [
    | none ↦ done (err thread_not_found) bytes handles w
    | some sender ↦ elim (thread_at w.sched ci) [
      | none ↦ done (err thread_not_found) bytes handles w
      | some cur ↦
          let copy_len = min (length sender.ipc_buf) (length bytes) in
          let (handles', w') = after_take w ci si tid cur sender copy_len handles in
          done (ok copy_len) (copy_bytes copy_len sender.ipc_buf bytes) handles' w'
    ]
  ]

  -- The caller in slot `ci` registers its buffer and blocks. `clear` tells whether the handles of an
  -- earlier call are forgotten first.
  unfoldable pub block_reader : World O → ℕ → Bool → List ℕ → List HandleValue → Progress O
  unfolding push_waiter
  block_reader w ci clear bytes handles = elim (thread_at w.sched ci) [
    | none ↦ done (err thread_not_found) bytes handles w
    | some cur ↦
        let waiting : Thread O = record cur {
          ipc_buf = bytes;
          ipc_actual_len = 0;
          state = blocked;
          ipc_transfer_handles =
              if clear then map (λ _. none) cur.ipc_transfer_handles else cur.ipc_transfer_handles;
        } in
        let (pushed, ws) = push_waiter w.mine.recv_waiters cur.id in
        if pushed
        then blocks (record w {
          mine = record w.mine { recv_waiters = ws };
          sched = put_thread w.sched ci waiting;
        })
        else done (err no_memory) bytes handles
            (record w { sched = put_thread w.sched ci (record waiting { state = running }) })
  ]

  -- Up to the point where the call ends or blocks. A sender that is gone is forgotten.
  unfoldable pub read_some : World O → Bool → List ℕ → List HandleValue → Progress O
  unfolding pop_waiter take_message block_reader
  read_some w clear bytes handles =
      if is_closed w.mine.state
      then done (err peer_closed) bytes handles w
      else elim w.sched.current_idx [
        | none ↦ done (err thread_not_found) bytes handles w
        | some ci ↦ elim (thread_at w.sched ci) [
          | none ↦ done (err thread_not_found) bytes handles w
          | some _ ↦
              if not w.mine.has_peer
              then done (err peer_closed) bytes handles w
              else (let (popped, ws) = pop_waiter w.theirs.send_waiters in
                  let w' : World O = record w { theirs = record w.theirs { send_waiters = ws } } in
                  elim popped [
                    | none ↦ block_reader w' ci clear bytes handles
                    | some tid ↦ elim (slot_of w.sched.threads tid) [
                      | none ↦ block_reader w' ci clear bytes handles
                      | some si ↦ take_message w' ci si tid bytes handles
                    ]
                  ])
        ]
      ]

  unfoldable pub read : World O → List ℕ → List HandleValue → Progress O
  unfolding read_some
  read w bytes handles = read_some w true bytes handles

  unfoldable pub read_with_timeout : World O → List ℕ → List HandleValue → Progress O
  unfolding read_some
  read_with_timeout w bytes handles = read_some w false bytes handles

  -- After the scheduler has returned to the reader in slot `ci`: the result, the buffer, the handles.
  unfoldable pub read_finish :
      World O → ℕ → List HandleValue → Result ℕ × List ℕ × List HandleValue × World O
  unfolding extract
  read_finish w ci handles = elim (thread_at w.sched ci) [
    | none ↦ (err thread_not_found, [], handles, w)
    | some t ↦
        let (handles', hs') = extract handles t.ipc_transfer_handles in
        (
          ok t.ipc_actual_len,
          t.ipc_buf,
          handles',
          record w { sched = put_thread w.sched ci (record t { ipc_transfer_handles = hs' }) },
        )
  ]

  -- The same for a timed read: `started` and `now` are tick counts before and after the wait.
  unfoldable pub read_timeout_finish :
      World O → ℕ → List HandleValue → ℕ → ℕ → ℕ → Result ℕ × List ℕ × List HandleValue × World O
  unfolding read_finish remove_receiver
  read_timeout_finish w ci handles timeout_ms started now = elim (thread_at w.sched ci) [
    | none ↦ (err thread_not_found, [], handles, w)
    | some t ↦
        if ltb 0 timeout_ms && leb ((started + timeout_ms * 1000 % 2 ^ 64 / 10) % 2 ^ 64) now
        then (
          err timed_out,
          t.ipc_buf,
          handles,
          record w {
            mine = remove_receiver w.mine t.id;
            sched = put_thread w.sched ci (record t { state = unblocked t.state });
          },
        )
        else read_finish w ci handles
  ]
