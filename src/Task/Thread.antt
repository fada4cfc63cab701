-- ===== src/Task/Thread.antt =====
-- kernel/src/task/thread.rs: the thread control block, as far as the kernel's own logic reads it.
-- Stacks and register contexts are left out; the buffer that `ipc_buf_ptr` and `ipc_buf_len` name
-- is held as its bytes. `O` is the type of kernel objects.
use capsule_os.Base.{ℕ, Option, List, Bool, true, false}

pub data Priority : Type 0 where
  realtime high normal low idle : Priority

pub data ThreadState : Type 0 where
  initial ready running blocked sleeping dead : ThreadState

abbrev pub is_dead : ThreadState → Bool
is_dead dead = true
is_dead _ = false

-- `PortPacket` of kernel/src/ipc/port.rs.
pub record PortPacket : Type 0 where
  pub key : ℕ
  pub trigger : ℕ
  pub status : ℕ
  pub bytes : List ℕ

pub record Thread {ℓ} (O : Type ℓ) : Type ℓ where
  pub id : ℕ
  pub state : ThreadState
  pub priority : Priority
  pub time_slice : ℕ
  pub remaining_ticks : ℕ
  pub process_id : ℕ
  pub ipc_buf : List ℕ
  pub ipc_actual_len : ℕ
  pub ipc_transfer_handles : List (Option ℕ)
  pub handle_table : Option ℕ
  pub ipc_transfer_slots : List (Option (O × ℕ))
  pub port_packet_slot : Option PortPacket

abbrev pub default_time_slice : ℕ
default_time_slice = 5

unfoldable pub lower : Priority → Priority
lower realtime = high
lower high = normal
lower normal = low
lower low = low
lower idle = idle

module _ {ℓ} {O : Type ℓ} where
  unfoldable pub reset_time_slice : Thread O → Thread O
  reset_time_slice t = record t { remaining_ticks = t.time_slice }

  unfoldable pub decay_priority : Thread O → Thread O
  unfolding reset_time_slice lower
  decay_priority t = reset_time_slice (record t { priority = lower t.priority })
