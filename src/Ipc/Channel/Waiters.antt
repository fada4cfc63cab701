-- ===== src/Ipc/Channel/Waiters.antt =====
-- The arrays of waiting threads of a channel (kernel/src/ipc/channel.rs): queues of at most eight.
use capsule_os.Base.{
  ℕ, zero, suc, ◌≤◌, ◌<◌, ◌≡◌, refl, ap, Bool, true, false, Option, none, some, List, [], ◌∷◌, ◌++◌,
  length, set, free_index, arith, ◌==◌, if◌then◌else◌, Bool-cases, inl, inr, ◌∙◌,
}
use capsule_os.Base.Padded.{
  padded, shift_left, shift_left-padded, free_index-padded, free_index-padded_full, set-padded,
}

-- `push_sender`, `push_receiver`.
unfoldable pub push_waiter : List (Option ℕ) → ℕ → Bool × List (Option ℕ)
push_waiter ws tid = elim (free_index ws) [
  | none ↦ (false, ws)
  | some i ↦ (true, set ws i (some tid))
]

-- Entry `i`, the first one here, is cleared and those behind it move up.
abbrev pub close_gap : List (Option ℕ) → List (Option ℕ)
close_gap [] = []
close_gap (w ∷ ws) = set (shift_left (length ws) (none ∷ ws)) (length ws) none

-- `pop_sender`, `pop_receiver`.
unfoldable pub pop_waiter : List (Option ℕ) → Option ℕ × List (Option ℕ)
unfolding shift_left
pop_waiter [] = (none, [])
pop_waiter (none ∷ ws) = let (r, ws') = pop_waiter ws in (r, none ∷ ws')
pop_waiter (some tid ∷ ws) = (some tid, close_gap (some tid ∷ ws))

-- `remove_receiver`.
unfoldable pub remove_waiter : List (Option ℕ) → ℕ → List (Option ℕ)
unfolding shift_left
remove_waiter [] tid = []
remove_waiter (none ∷ ws) tid = none ∷ remove_waiter ws tid
remove_waiter (some w ∷ ws) tid =
    let rest = remove_waiter ws tid in if w == tid then close_gap (some w ∷ ws) else some w ∷ rest

length-padded : (n : ℕ) (xs : List ℕ) → length (padded n xs) ≡ n
length-padded zero xs = refl
length-padded (suc n) [] = ap suc (length-padded n [])
length-padded (suc n) (x ∷ xs) = ap suc (length-padded n xs)

-- What stood in the gap does not matter.
gap_head :
    (ws : List (Option ℕ)) (a b : Option ℕ)
    → set (shift_left (length ws) (a ∷ ws)) (length ws) none
      ≡ set (shift_left (length ws) (b ∷ ws)) (length ws) none
unfolding shift_left
gap_head [] a b = refl
gap_head (w ∷ ws) a b = refl

-- A thread that waits is put behind those that wait already, and is refused when all slots are full.
pub push_waiter-padded :
    (n tid : ℕ) (tids : List ℕ)
    → length tids ≤ n
    → (length tids < n → push_waiter (padded n tids) tid ≡ (true, padded n (tids ++ (tid ∷ []))))
      × (length tids ≡ n → push_waiter (padded n tids) tid ≡ (false, padded n tids))
unfolding push_waiter
push_waiter-padded n tid tids h = (
  λ room.
      rw (free_index-padded n tids room, push_waiter)
        (ap (λ r. (true, r)) (set-padded n tids tid room)),
  λ full. rw (free_index-padded_full n tids (omega arith), push_waiter) refl,
)

-- The thread that has waited longest is taken, and the others keep their order.
pub pop_waiter-padded :
    (n tid : ℕ) (tids : List ℕ)
    → length tids < n
    → pop_waiter (padded n (tid ∷ tids)) ≡ (some tid, padded n tids)
unfolding pop_waiter
pop_waiter-padded zero tid tids h = absurd (omega arith)
pop_waiter-padded (suc n) tid tids h =
    let m = length (padded n tids) in
    ap (λ r. (some tid, r))
      (gap_head (padded n tids) none (some tid)
        ∙ shift_left-padded (suc n) m tid tids (omega (arith, length-padded n tids))
            (omega (arith, length-padded n tids)))

pub pop_waiter-none : (n : ℕ) → pop_waiter (padded n []) ≡ (none, padded n [])
unfolding pop_waiter
pop_waiter-none zero = refl
pop_waiter-none (suc n) = rw (pop_waiter-none n) refl

-- The list without the first occurrence of a thread.
unfoldable pub without : List ℕ → ℕ → List ℕ
without [] tid = []
without (x ∷ xs) tid = let rest = without xs tid in if x == tid then xs else x ∷ rest

-- A reader that gives up leaves the queue, and the others keep their order.
pub remove_waiter-padded :
    (n tid : ℕ) (tids : List ℕ)
    → length tids ≤ n
    → remove_waiter (padded n tids) tid ≡ padded n (without tids tid)
unfolding remove_waiter without
remove_waiter-padded zero tid [] h = refl
remove_waiter-padded zero tid (x ∷ xs) h = absurd (omega arith)
remove_waiter-padded (suc n) tid [] h =
    ap (λ r. none ∷ r) (remove_waiter-padded n tid [] (omega arith))
remove_waiter-padded (suc n) tid (x ∷ xs) h = elim (Bool-cases (x == tid)) [
  | inl here ↦ rw here (
      gap_head (padded n xs) none (some x)
      ∙ shift_left-padded (suc n) (length (padded n xs)) x xs (omega (arith, length-padded n xs))
          (omega (arith, length-padded n xs)))
  | inr behind ↦ rw behind (ap (λ r. some x ∷ r) (remove_waiter-padded n tid xs (omega arith)))
]
