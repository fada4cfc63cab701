-- ===== src/Sync/Futex/Links.antt =====
-- The waiters of a futex entry as a list (kernel/src/sync/futex.rs).
use capsule_os.Base.{ℕ, zero, suc, ◌≤◌, ◌≡◌, refl, Option, none, some, List, [], ◌∷◌, length, arith}
use capsule_os.Sync.Futex.{FutexWaiter, FutexEntry, max_futex_waiters, new_entry}

-- The index `i`, if anything stands there.
abbrev pub following : ℕ → List ℕ → Option ℕ
following i [] = none
following i (t ∷ ts) = some i

-- Slots `i` and on: the threads in order, each linked to the next, then free slots.
abbrev pub links : ℕ → ℕ → List ℕ → List (Option FutexWaiter)
links i zero ts = []
links i (suc n) [] = none ∷ links (suc i) n []
links i (suc n) (t ∷ ts) =
    some (record { thread_id = t; next = following (suc i) ts }) ∷ links (suc i) n ts

-- The index of the last thread.
abbrev pub last_index : ℕ → List ℕ → Option ℕ
last_index i [] = none
last_index i (t ∷ []) = some i
last_index i (t ∷ u ∷ ts) = last_index (suc i) (u ∷ ts)

-- These threads wait at the entry, in this order.
pub record Holds (e : FutexEntry) (tids : List ℕ) : Type 0 where
  pub stored : e.waiters ≡ links 0 max_futex_waiters tids
  pub counted : e.waiter_count ≡ length tids
  pub bounded : length tids ≤ max_futex_waiters
  pub first : e.head ≡ following 0 tids
  pub last : e.tail ≡ last_index 0 tids

pub new_entry-Holds : (addr : ℕ) → Holds (new_entry addr) []
unfolding new_entry
new_entry-Holds addr = record {
  stored = refl;
  counted = refl;
  bounded = omega arith;
  first = refl;
  last = refl;
}
