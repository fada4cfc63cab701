-- ===== src/Examples/Kills.antt =====
-- A process with pending signals (kernel/src/task/signals.rs).
use capsule_os.Base.{◌≡◌, refl, true, none, some, [], ◌∷◌, replicate, set}
use capsule_os.Shared.Result.{ok}
use capsule_os.Task.Signals.{
  Process, running, sig_ign, killed, with_process, dispatch_loop, dispatch, signal_send,
}
use capsule_os.Task.Signals.Delivery.{Delivers, dispatch-Delivers}

-- Signals 3 and 5 are pending, and 3 is ignored.
abbrev waiting : Process
waiting = record {
  id = 7;
  state = running;
  exit_status = none;
  sig_handlers = set (replicate 32 0) 2 sig_ign;
  pending_signals = 20;
}

dispatch-Delivers_example : Delivers 1 33 20 waiting (dispatch waiting)
dispatch-Delivers_example = dispatch-Delivers waiting

-- Signal 5 ends it.
ended : dispatch waiting ≡ (true, killed waiting)
unfolding dispatch dispatch_loop
ended = refl

-- A signal that is sent is pending in the process with the id.
sent_signal :
    signal_send 7 9 (none ∷ some (record waiting { pending_signals = 0 }) ∷ [])
    ≡ ok (tt, none ∷ some (record waiting { pending_signals = 256 }) ∷ [])
unfolding signal_send with_process
sent_signal = refl
