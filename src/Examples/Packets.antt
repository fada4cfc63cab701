-- ===== src/Examples/Packets.antt =====
-- Ports on concrete packets (kernel/src/ipc/port.rs).
use capsule_os.Base.{ℕ, ◌≡◌, refl, none, some, List, [], ◌∷◌, ◌++◌, replicate, arith, true}
use capsule_os.Base.Ring.{used}
use capsule_os.Shared.Result.{ok}
use capsule_os.Task.Thread.{PortPacket, Thread, normal, blocked, ready}
use capsule_os.Task.Scheduler.{Scheduler, new_queue, thread_at, slot_of}
use capsule_os.Ipc.Port.{Port, done, wait_with_timeout, wait_finish, queue, port_queue_max}
use capsule_os.Ipc.Port.Fifo.{Holds, wait_with_timeout-full, queue-wait_finish, slots_held}

abbrev packet : ℕ → PortPacket
packet key = record { key = key; trigger = 0; status = 0; bytes = replicate 64 0 }

-- Two packets wait, in slots 14 and 15.
abbrev port : Port
port = record {
  id = 1;
  queue_len = 8;
  slots = replicate 14 none ++ (some (packet 1) ∷ some (packet 2) ∷ []);
  head = 14;
  tail = 0;
  waiter = none;
}

abbrev scheduler : Scheduler ℕ
scheduler = record {
  threads = replicate 16 none;
  queues = replicate 5 new_queue;
  current_idx = none;
  is_running = true;
}

port-Holds : Holds port (packet 1 ∷ packet 2 ∷ [])
port-Holds = record { sized = refl; head_in = omega arith; tail_in = omega arith; held = refl }

wait_with_timeout-full_example :
    (p' : Port) × (wait_with_timeout port scheduler ≡ done (ok (packet 1)) p' scheduler)
    × (used port_queue_max p'.head p'.tail ≡ 15)
wait_with_timeout-full_example =
    wait_with_timeout-full port scheduler (packet 1) (packet 2 ∷ []) port-Holds

abbrev packets : List PortPacket
packets = packet 1 ∷ packet 2 ∷ []

-- Thread 5 waits in slot 0.
abbrev thread : Thread ℕ
thread = record {
  id = 5;
  state = blocked;
  priority = normal;
  time_slice = 5;
  remaining_ticks = 5;
  process_id = 1;
  ipc_buf = [];
  ipc_actual_len = 0;
  ipc_transfer_handles = replicate 4 none;
  handle_table = none;
  ipc_transfer_slots = none ∷ none ∷ [];
  port_packet_slot = none;
}

abbrev waited : Port
waited = record {
  id = 1;
  queue_len = 8;
  slots = replicate 16 none;
  head = 3;
  tail = 3;
  waiter = some 5;
}

abbrev waiting : Scheduler ℕ
waiting = record {
  threads = some thread ∷ replicate 15 none;
  queues = replicate 5 new_queue;
  current_idx = none;
  is_running = true;
}

queue-wait_finish_example :
    (p' : Port) × (s' : Scheduler ℕ) × (t' : Thread ℕ) × (queue waited waiting (packet 1)
      ≡ (ok tt, p', s'))
    × (p'.waiter ≡ none)
    × (slots_held p' ≡ slots_held waited)
    × (thread_at s' 0 ≡ some t')
    × (t'.state ≡ ready)
    × ((wait_finish s' 0).0 ≡ ok (packet 1))
    × (s'.queues ≡ waiting.queues)
unfolding slot_of
queue-wait_finish_example = queue-wait_finish waited waiting (packet 1) 5 0 thread refl refl refl
