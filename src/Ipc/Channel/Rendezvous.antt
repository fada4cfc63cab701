-- ===== src/Ipc/Channel/Rendezvous.antt =====
-- Messages of a channel: what the two ends see (kernel/src/ipc/channel.rs).
use capsule_os.Base.{ℕ, List}
use capsule_os.Shared.Result.{Result}
use capsule_os.Shared.Types.{HandleValue}
use capsule_os.Object.{KernelObject}
use capsule_os.Task.Thread.{Thread, blocked}
use capsule_os.Task.Scheduler.{Scheduler}
use capsule_os.Ipc.Channel.{Tables}
use capsule_os.Ipc.Channel.Write.{stashed}

module _ {ℓ} {V R C P : Type ℓ} where
  -- A writer that blocks: its message and its objects wait in its own slot.
  abbrev waiting_writer :
      Thread (KernelObject V R C P)
      → List ℕ
      → List HandleValue
      → Tables (KernelObject V R C P)
      → Thread (KernelObject V R C P)
  waiting_writer cur bytes handles ts = record cur {
    ipc_buf = bytes;
    ipc_actual_len = 0;
    state = blocked;
    ipc_transfer_slots = (stashed cur handles ts).0;
  }
