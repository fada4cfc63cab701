-- ===== src/Task/Signals.antt =====
-- Signals (kernel/src/task/signals.rs), on the fields of a process that they use.
pub mod Delivery
use capsule_os.Base.{
  ℕ, zero, suc, ◌+◌, ◌-◌, ◌^◌, Bool, true, false, not, ◌&&◌, ◌||◌, Option, none, some, List, [],
  ◌∷◌, bit_and, replicate, set, get_or, ltb, ◌==◌, if◌then◌else◌,
}
use capsule_os.Base.Int.{ℤ, negsuc}
use capsule_os.Shared.Status.{invalid_args, not_found}
use capsule_os.Shared.Result.{Result, ok, err}
use Prim.Native.Nat.{bit_or}

pub data ProcessState : Type 0 where
  initial running zombie dead : ProcessState

pub record Process : Type 0 where
  pub id : ℕ
  pub state : ProcessState
  pub exit_status : Option ℤ
  pub sig_handlers : List ℕ
  pub pending_signals : ℕ

abbrev pub sig_dfl : ℕ
sig_dfl = 0

abbrev pub sig_ign : ℕ
sig_ign = 1

abbrev pub nsig : ℕ
nsig = 32

abbrev pub bad_signal : ℕ → Bool
bad_signal sig = (sig == 0) || ltb nsig sig

-- `1u32 << (sig - 1)`.
abbrev pub bit_of : ℕ → ℕ
bit_of sig = 2 ^ (sig - 1)

-- `find_process_mut`, and what is done through the reference: a result, and the process after it.
unfoldable pub with_process {ℓ} :
    {A : Type ℓ}
    → (Process → A × Process)
    → ℕ
    → List (Option Process)
    → Option (A × List (Option Process))
with_process f pid [] = none
with_process f pid (none ∷ slots) = elim (with_process f pid slots) [
  | none ↦ none
  | some (a, rest) ↦ some (a, none ∷ rest)
]
with_process f pid (some p ∷ slots) =
    let later = with_process f pid slots in
    if p.id == pid
    then some ((f p).0, some (f p).1 ∷ slots)
    else elim later [ none ↦ none | some (a, rest) ↦ some (a, some p ∷ rest) ]

-- A missing process is `NotFound`.
abbrev pub found_or {ℓ} : {A : Type ℓ} → Option A → Result A
found_or none = err not_found
found_or (some a) = ok a

-- `sigaction_set`, for the calling process.
unfoldable pub sigaction_set :
    ℕ → ℕ → ℕ → List (Option Process) → Result (ℕ × List (Option Process))
unfolding with_process
sigaction_set caller sig handler slots =
    if bad_signal sig
    then err invalid_args
    else if not (handler == sig_dfl) && not (handler == sig_ign)
    then err invalid_args
    else found_or (
        with_process
          (λ p. (
            get_or p.sig_handlers (sig - 1) 0,
            record p { sig_handlers = set p.sig_handlers (sig - 1) handler },
          ))
          caller slots)

abbrev pub queued : ℕ → Process → Process
queued sig p = record p { pending_signals = bit_or p.pending_signals (bit_of sig) }

unfoldable pub signal_send :
    ℕ → ℕ → List (Option Process) → Result ((Unit {0}) × List (Option Process))
unfolding with_process
signal_send target_pid sig slots =
    if bad_signal sig
    then err invalid_args
    else found_or (with_process (λ p. (tt, queued sig p)) target_pid slots)

abbrev pub raise : ℕ → ℕ → List (Option Process) → Result ((Unit {0}) × List (Option Process))
raise caller sig slots = if bad_signal sig then err invalid_args else signal_send caller sig slots

-- A process that a signal ends.
abbrev pub killed : Process → Process
killed p = record p { exit_status = some (negsuc 0); state = zombie; pending_signals = 0 }

-- The loop of `dispatch_pending` from signal `n` on, over the signals that were pending at its start.
unfoldable pub dispatch_loop : ℕ → ℕ → ℕ → Process → Bool × Process
dispatch_loop zero n pending p = (false, p)
dispatch_loop (suc k) n pending p =
    let consumed : Process = record p {
      pending_signals = bit_and p.pending_signals (0xffff_ffff - bit_of n);
    } in
    let skipped = dispatch_loop k (n + 1) pending p in
    let ignored = dispatch_loop k (n + 1) pending consumed in
    if bit_and pending (bit_of n) == 0
    then skipped
    else if get_or p.sig_handlers (n - 1) 0 == sig_ign
    then ignored
    else (true, killed consumed)

unfoldable pub dispatch : Process → Bool × Process
unfolding dispatch_loop
dispatch p = if p.pending_signals == 0 then (false, p) else dispatch_loop nsig 1 p.pending_signals p

unfoldable pub dispatch_pending : ℕ → List (Option Process) → Result (Bool × List (Option Process))
unfolding dispatch with_process
dispatch_pending caller_pid slots = found_or (with_process dispatch caller_pid slots)

-- A missing process is left alone.
unfoldable pub reset_disposition : ℕ → List (Option Process) → List (Option Process)
unfolding with_process
reset_disposition target_pid slots =
    let reset : Process → (Unit {0}) × Process =
      λ p. (tt, record p { sig_handlers = replicate 32 0; pending_signals = 0 }) in
    elim (with_process reset target_pid slots) [ none ↦ slots | some (_, rest) ↦ rest ]
