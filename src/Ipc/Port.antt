-- ===== src/Ipc/Port.antt =====
-- kernel/src/ipc/port.rs: packet ports. A wait that blocks is two functions: up to the call of the
-- scheduler, and from its return on; what other threads do in between is the caller's sequence of
-- steps. The queue's page is the list of its slots.
pub mod Fifo
use capsule_os.Base.{
  ℕ, ◌+◌, ◌*◌, ◌/◌, ◌%◌, ◌^◌, ◌≡◌, Bool, true, false, ◌||◌, Option, none, some, List, get_or, set,
  replicate, leb, ltb, ◌==◌, if◌then◌else◌,
}
use capsule_os.Shared.Status.{
  Status, invalid_args, thread_not_found, canceled, try_again, timed_out,
}
use capsule_os.Shared.Result.{Result, ok, err}
use capsule_os.Task.Thread.{Thread, ThreadState, ready, blocked, PortPacket}
use capsule_os.Task.Scheduler.{Scheduler, thread_at, put_thread, slot_of}

abbrev pub port_queue_max : ℕ
port_queue_max = 16

-- Packets are read at `head` and written at `tail`.
pub record Port : Type 0 where
  pub id : ℕ
  pub queue_len : ℕ
  pub slots : List (Option PortPacket)
  pub head : ℕ
  pub tail : ℕ
  pub waiter : Option ℕ

-- `id` is the value of the port counter; `page` tells whether a page could be allocated.
unfoldable pub new : ℕ → ℕ → Result (Unit {0}) → Result Port
new queue_len id page =
    if queue_len == 0 || ltb port_queue_max queue_len then err invalid_args else elim page [
      | err e ↦ err e
      | ok _ ↦ ok (record {
        id = id;
        queue_len = queue_len;
        slots = replicate port_queue_max none;
        head = 0;
        tail = 0;
        waiter = none;
      })
    ]

-- The packet at `head`, which leaves its slot; `head` goes to the index given.
unfoldable pub take_packet : Port → ℕ → Option (PortPacket × Port)
take_packet p head' = if p.head == p.tail then none else elim (get_or p.slots p.head none) [
  | none ↦ none
  | some packet ↦ some (packet, record p { slots = set p.slots p.head none; head = head' })
]

-- A wait ends at once, or blocks.
pub data Waiting {ℓ} (O : Type ℓ) : Type ℓ where
  done : Result PortPacket → Port → Scheduler O → Waiting O
  blocks : Port → Scheduler O → Waiting O

abbrev pub unblocked : ThreadState → ThreadState
unblocked blocked = ready
unblocked st = st

unfoldable pub push_packet : Port → PortPacket → Result (Unit {0}) × Port
push_packet p packet =
    let next_tail = (p.tail + 1) % port_queue_max in
    if next_tail == p.head
    then (err try_again, p)
    else (ok tt, record p { slots = set p.slots p.tail (some packet); tail = next_tail })

module _ {ℓ} {O : Type ℓ} where
  -- The current thread and its slot.
  abbrev pub current : Scheduler O → Option (ℕ × Thread O)
  current s = elim s.current_idx [
    | none ↦ none
    | some i ↦ elim (thread_at s i) [ none ↦ none | some t ↦ some (i, t) ]
  ]

  unfoldable pub register_waiter : Port → Scheduler O → Waiting O
  register_waiter p s = elim (current s) [
    | none ↦ done (err thread_not_found) p s
    | some (i, t) ↦
        blocks (record p { waiter = some t.id })
          (put_thread s i (record t { port_packet_slot = none; state = blocked }))
  ]

  unfoldable pub wait : Port → Scheduler O → Waiting O
  unfolding take_packet register_waiter
  wait p s = elim (take_packet p ((p.head + 1) % port_queue_max)) [
    | some (packet, p') ↦ done (ok packet) p' s
    | none ↦ register_waiter p s
  ]

  -- The first half of `wait_with_timeout`, which sets `head` from `tail`.
  unfoldable pub wait_with_timeout : Port → Scheduler O → Waiting O
  unfolding take_packet register_waiter
  wait_with_timeout p s = elim (take_packet p ((p.tail + 1) % port_queue_max)) [
    | some (packet, p') ↦ done (ok packet) p' s
    | none ↦ register_waiter p s
  ]

  -- After the scheduler has returned to the thread in slot `i`.
  unfoldable pub wait_finish : Scheduler O → ℕ → Result PortPacket × Scheduler O
  wait_finish s i = elim (thread_at s i) [
    | none ↦ (err canceled, s)
    | some t ↦ elim t.port_packet_slot [
      | none ↦ (err canceled, s)
      | some packet ↦ (ok packet, put_thread s i (record t { port_packet_slot = none }))
    ]
  ]

  -- The second half of `wait_with_timeout`: `started` is the tick count before it blocked, `now` the
  -- one after.
  unfoldable pub timeout_finish :
      Port → Scheduler O → ℕ → ℕ → ℕ → ℕ → Result PortPacket × Port × Scheduler O
  unfolding wait_finish
  timeout_finish p s i timeout_ms started now =
      if ltb 0 timeout_ms
      then (if leb ((started + timeout_ms * 1000 % 2 ^ 64 / 10) % 2 ^ 64) now
          then (
            err timed_out,
            record p { waiter = none },
            elim (thread_at s i) [
              | none ↦ s
              | some t ↦ put_thread s i (record t { state = unblocked t.state })
            ],
          )
          else (let (r, s') = wait_finish s i in (r, p, s')))
      else (let (r, s') = wait_finish s i in (r, p, s'))

  -- A waiter that is gone is forgotten, and the packet is queued.
  unfoldable pub queue : Port → Scheduler O → PortPacket → Result (Unit {0}) × Port × Scheduler O
  unfolding push_packet
  queue p s packet =
      let (r, p') = push_packet (record p { waiter = none }) packet in
      elim p.waiter [
        | none ↦ (r, p', s)
        | some tid ↦ elim (slot_of s.threads tid) [
          | none ↦ (r, p', s)
          | some i ↦ elim (thread_at s i) [
            | none ↦ (r, p', s)
            | some t ↦ (
              ok tt,
              record p { waiter = none },
              put_thread s i (record t { port_packet_slot = some packet; state = ready }),
            )
          ]
        ]
      ]
