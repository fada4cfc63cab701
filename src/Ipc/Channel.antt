-- ===== src/Ipc/Channel.antt =====
-- kernel/src/ipc/channel.rs: channels without buffers, where a message goes from the sender's memory
-- to the receiver's once both have come. A call that blocks is two functions, as for ports. An
-- object that a failed transfer loses is dropped; what its destructor does is left out.
pub mod Waiters
pub mod Read
pub mod Write
pub mod Taking
pub mod Rendezvous
pub mod Closing
use capsule_os.Base.{
  ℕ, zero, suc, ◌+◌, ◌*◌, ◌/◌, ◌%◌, ◌^◌, min, ◌≡◌, Bool, true, false, not, ◌&&◌, Option, none, some,
  List, [], ◌∷◌, ◌++◌, length, get_or, map, set, take, drop, replicate, leb, ltb, ◌==◌,
  if◌then◌else◌,
}
use capsule_os.Shared.Status.{Status, no_memory, thread_not_found, peer_closed, timed_out}
use capsule_os.Shared.Result.{Result, ok, err}
use capsule_os.Shared.Types.{HandleValue}
use capsule_os.Object.{KernelObject, Slot, HandleTable, add, duplicate_handle, remove_with_rights}
use capsule_os.Task.Thread.{Thread, running, ready, blocked}
use capsule_os.Task.Scheduler.{Scheduler, thread_at, put_thread, slot_of, wake_thread}
use capsule_os.Ipc.Port.{current, unblocked}
use capsule_os.Ipc.Channel.Waiters.{push_waiter, pop_waiter, remove_waiter}

pub data ChannelState : Type 0 where
  open_state half_closed closed : ChannelState

abbrev pub is_closed : ChannelState → Bool
is_closed closed = true
is_closed _ = false

-- `has_peer` tells whether `peer` is set: it points to the other end of the pair.
pub record Channel : Type 0 where
  pub id : ℕ
  pub state : ChannelState
  pub has_peer : Bool
  pub read_refs : ℕ
  pub write_refs : ℕ
  pub send_waiters : List (Option ℕ)
  pub recv_waiters : List (Option ℕ)

abbrev pub max_waiters : ℕ
max_waiters = 8

-- `id` is the value of the channel counter.
unfoldable pub new : ℕ → Channel
new id = record {
  id = id;
  state = open_state;
  has_peer = false;
  read_refs = 1;
  write_refs = 1;
  send_waiters = replicate max_waiters none;
  recv_waiters = replicate max_waiters none;
}

-- The handle tables of the processes, and the counter that they share.
pub record Tables {ℓ} (O : Type ℓ) : Type ℓ where
  pub counter : ℕ
  pub tables : List (List (Option (Slot O)))

-- The end that a call is made on, the other end, the threads and the handle tables.
pub record World {ℓ} (O : Type ℓ) : Type ℓ where
  pub mine : Channel
  pub theirs : Channel
  pub sched : Scheduler O
  pub tables : Tables O

-- How a call goes on: it ends, with its result, the caller's buffer and handles; or it blocks.
pub data Progress {ℓ} (O : Type ℓ) : Type ℓ where
  done : Result ℕ → List ℕ → List HandleValue → World O → Progress O
  blocks : World O → Progress O

-- `dest[..n].copy_from_slice(&src[..n])`.
abbrev pub copy_bytes : ℕ → List ℕ → List ℕ → List ℕ
copy_bytes n src dest = take n src ++ drop n dest

-- The handles that were passed are moved to the caller's slice, as many as it has room for.
unfoldable pub extract : List HandleValue → List (Option ℕ) → List HandleValue × List (Option ℕ)
extract [] hs = ([], hs)
extract (h ∷ out) [] = (h ∷ out, [])
extract (h ∷ out) (x ∷ hs) =
    let (out', hs') = extract out hs in (elim x [ none ↦ h | some v ↦ v ] ∷ out', none ∷ hs')

unfoldable pub remove_receiver : Channel → ℕ → Channel
unfolding remove_waiter
remove_receiver c tid = record c { recv_waiters = remove_waiter c.recv_waiters tid }

-- An end that `close` has gone over, with what its loop left of the arrays.
abbrev pub shut : Channel → List (Option ℕ) → List (Option ℕ) → Channel
shut c senders receivers = record c {
  state = closed;
  has_peer = false;
  send_waiters = senders;
  recv_waiters = receivers;
}

module _ {ℓ} {O : Type ℓ} where
  abbrev pub modify : Scheduler O → ℕ → (Thread O → Thread O) → Scheduler O
  modify s i f = elim (thread_at s i) [ none ↦ s | some t ↦ put_thread s i (f t) ]

  -- The table that index `i` points to.
  abbrev pub table_of : Tables O → ℕ → HandleTable O
  table_of ts i = record { counter = ts.counter; slots = get_or ts.tables i [] }

  abbrev pub put_table : Tables O → ℕ → HandleTable O → Tables O
  put_table ts i t = record { counter = t.counter; tables = set ts.tables i t.slots }

  -- One object is added to table `i`; its handle is written at index `n` of the thread's list.
  unfoldable pub inject_one :
      ℕ → O × ℕ → ℕ × List (Option ℕ) × Tables O → ℕ × List (Option ℕ) × Tables O
  inject_one i (object, rights) (n, hs, ts) =
      let (r, t) = add (table_of ts i) object rights in
      let ts' = put_table ts i t in
      elim r [ err _ ↦ (n, hs, ts') | ok hv ↦ (n + 1, set hs n (some hv), ts') ]

  -- What an entry of a waiter array wakes.
  unfoldable pub wake_entry : Option ℕ → Scheduler O → Scheduler O
  unfolding wake_thread
  wake_entry none s = s
  wake_entry (some tid) s = wake_thread s tid

  -- The loop of `close` over the senders and receivers of an end: each entry is taken, and its thread
  -- is woken.
  unfoldable pub wake_waiters :
      List (Option ℕ)
      → List (Option ℕ)
      → Scheduler O
      → List (Option ℕ) × List (Option ℕ) × Scheduler O
  unfolding wake_entry
  wake_waiters (x ∷ xs) (y ∷ ys) s =
      let (xs', ys', s') = wake_waiters xs ys (wake_entry y (wake_entry x s)) in
      (none ∷ xs', none ∷ ys', s')
  wake_waiters xs ys s = (xs, ys, s)

  unfoldable pub close : World O → World O
  unfolding wake_waiters
  close w =
      let (senders, receivers, s) = wake_waiters w.mine.send_waiters w.mine.recv_waiters w.sched in
      let (senders', receivers', s') = wake_waiters w.theirs.send_waiters w.theirs.recv_waiters s in
      if w.mine.has_peer
      then record w {
        mine = shut w.mine senders receivers;
        theirs = shut w.theirs senders' receivers';
        sched = s';
      }
      else record w { mine = shut w.mine senders receivers; sched = s }
