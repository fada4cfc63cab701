-- ===== src/Examples/Channels.antt =====
-- Channels on concrete threads and messages (kernel/src/ipc/channel.rs).
use capsule_os.Base.{ℕ, ◌≡◌, ◌⊎◌, find_key, refl, true, false, none, some, List, [], ◌∷◌, replicate}
use capsule_os.Base.Padded.{padded}
use capsule_os.Shared.Status.{peer_closed}
use capsule_os.Shared.Result.{err}
use capsule_os.Object.{KernelObject, vmo}
use capsule_os.Task.Thread.{Thread, ThreadState, normal, ready, running, blocked}
use capsule_os.Task.Scheduler.{new_queue}
use capsule_os.Ipc.Channel.{Channel, World, Tables, done, open_state, max_waiters, close}
use capsule_os.Ipc.Channel.Read.{read}
use capsule_os.Ipc.Channel.Taking.{other_end}
use capsule_os.Ipc.Channel.Closing.{IsListed, close-read}
use capsule_os.Task.Scheduler.Woken.{Awake}

abbrev Object : Type 0
Object = KernelObject ℕ ℕ ℕ ℕ

-- A thread with a buffer, and the handle table of an index.
abbrev thread : ℕ → ThreadState → List ℕ → ℕ → Thread Object
thread id state buf table = record {
  id = id;
  state = state;
  priority = normal;
  time_slice = 5;
  remaining_ticks = 5;
  process_id = 1;
  ipc_buf = buf;
  ipc_actual_len = 0;
  ipc_transfer_handles = replicate 4 none;
  handle_table = some table;
  ipc_transfer_slots = none ∷ none ∷ [];
  port_packet_slot = none;
}

abbrev channel_end : ℕ → List ℕ → Channel
channel_end id senders = record {
  id = id;
  state = open_state;
  has_peer = true;
  read_refs = 1;
  write_refs = 1;
  send_waiters = padded max_waiters senders;
  recv_waiters = padded max_waiters [];
}

-- Thread 1 runs, in slot 0, and owns the handle 1000; thread 2 is in slot 1.
abbrev world : List ℕ → ThreadState → World Object
world senders state = record {
  mine = channel_end 1 [];
  theirs = channel_end 2 senders;
  sched = record {
    threads =
        some (thread 1 running [] 0) ∷ some (thread 2 state (4 ∷ 5 ∷ 6 ∷ []) 1) ∷ replicate 14 none;
    queues = replicate 5 new_queue;
    current_idx = some 0;
    is_running = true;
  };
  tables = record {
    counter = 1001;
    tables =
        (some (record { value = 1000; rights = 3; object = vmo 7 }) ∷ replicate 11 none)
        ∷ replicate 12 none
        ∷ [];
  };
}

-- Thread 2 waits to send three bytes; there is room for two.
abbrev buffer : List ℕ
buffer = 0 ∷ 0 ∷ []

close-read_example :
    let w = world (2 ∷ []) blocked in
    let v = close w in
    ((tid : ℕ)
      → (IsListed w.mine.send_waiters tid ⊎ IsListed w.mine.recv_waiters tid)
        ⊎ (IsListed w.theirs.send_waiters tid ⊎ IsListed w.theirs.recv_waiters tid)
      → Awake v.sched.threads tid)
    × (v.mine.send_waiters ≡ padded max_waiters [])
    × (v.mine.recv_waiters ≡ padded max_waiters [])
    × (v.theirs.send_waiters ≡ padded max_waiters [])
    × (v.theirs.recv_waiters ≡ padded max_waiters [])
    × (v.mine.has_peer ≡ false)
    × (v.theirs.has_peer ≡ false)
    × (read v buffer [] ≡ done (err peer_closed) buffer [] v)
    × (read (other_end v 1) buffer [] ≡ done (err peer_closed) buffer [] (other_end v 1))
unfolding find_key
close-read_example =
    close-read (world (2 ∷ []) blocked) 1 buffer [] refl refl refl refl refl (refl, (refl, tt))

-- Thread 1 sends three bytes and the handle 1000, which names a memory object: a copy of it travels.
abbrev stashed_tables : Tables Object
stashed_tables = record (world [] ready).tables { counter = 1002 }

abbrev tids : List ℕ
tids = 5 ∷ 6 ∷ []
