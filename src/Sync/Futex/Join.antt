-- ===== src/Sync/Futex/Join.antt =====
-- Who comes to wait at a futex (kernel/src/sync/futex.rs).
use capsule_os.Base.{
  ℕ, zero, suc, ◌+◌, ◌<◌, ◌≡◌, refl, sym, ap, subst, ◌∙◌, true, false, Option, none, some, List, [],
  ◌∷◌, ◌++◌, length, length-append, get_elem?, set, free_index, arith, leb,
}
use capsule_os.Sync.Futex.{FutexWaiter, FutexEntry, max_futex_waiters, link, add_waiter}
use capsule_os.Sync.Futex.Links.{links, last_index, Holds}

free_index-links :
    (i n : ℕ) (ts : List ℕ) → length ts < n → free_index (links i n ts) ≡ some (length ts)
unfolding free_index
free_index-links i zero ts h = absurd (omega arith)
free_index-links i (suc n) [] h = refl
free_index-links i (suc n) (t ∷ ts) h = ground (arith, free_index-links (suc i) n ts)

link-cons :
    (w : Option FutexWaiter) (ws : List (Option FutexWaiter)) (j : ℕ) (next : Option ℕ)
    → link (w ∷ ws) (suc j) next ≡ w ∷ link ws j next
link-cons w ws j next = go (get_elem? ws j) refl
  where
    go :
        (o : Option (Option FutexWaiter))
        → get_elem? ws j ≡ o
        → link (w ∷ ws) (suc j) next ≡ w ∷ link ws j next
    go none e = ground (arith, e)
    go (some none) e = ground (arith, e)
    go (some (some v)) e = ground (arith, e)

-- Storing a thread in the next slot and linking the last one to it.
link-links :
    (i n x t : ℕ) (ts : List ℕ)
    → suc (length ts) < n
    → link
        (set (links i n (x ∷ ts)) (suc (length ts)) (some (record { thread_id = t; next = none })))
        (length ts)
        (some (i + suc (length ts)))
      ≡ links i n (x ∷ (ts ++ (t ∷ [])))
link-links i zero x t ts h = absurd (omega arith)
link-links i (suc zero) x t ts h = absurd (omega arith)
link-links i (suc (suc n)) x t [] h =
    ap
      (λ k.
        some (record { thread_id = x; next = some k })
        ∷ some (record { thread_id = t; next = none })
        ∷ links (suc (suc i)) n [])
      (omega arith)
link-links i (suc n) x t (y ∷ ts) h =
    let w : Option FutexWaiter = some (record { thread_id = x; next = some (suc i) }) in
    let ws =
      set (links (suc i) n (y ∷ ts)) (suc (length ts))
        (some (record { thread_id = t; next = none })) in
    link-cons w ws (length ts) (some (i + suc (suc (length ts))))
    ∙ ap (λ r. w ∷ r)
        (ap (λ k. link ws (length ts) (some k)) (omega arith)
          ∙ link-links (suc i) n y t ts (omega arith))

last_index-snoc :
    (i x t : ℕ) (ts : List ℕ) → last_index i (x ∷ (ts ++ (t ∷ []))) ≡ some (i + suc (length ts))
last_index-snoc i x t [] = ap some (omega arith)
last_index-snoc i x t (y ∷ ts) = last_index-snoc (suc i) y t ts ∙ ap some (omega arith)

last_index-cons : (i x : ℕ) (ts : List ℕ) → last_index i (x ∷ ts) ≡ some (i + length ts)
last_index-cons i x [] = ap some (omega arith)
last_index-cons i x (y ∷ ts) = last_index-cons (suc i) y ts ∙ ap some (omega arith)

-- The three ways of `add_waiter`.
pub add_waiter-full :
    (e : FutexEntry) (tid : ℕ)
    → leb max_futex_waiters e.waiter_count ≡ true
    → add_waiter e tid ≡ (false, e)
unfolding add_waiter
add_waiter-full e tid full = rw (full, add_waiter) refl

pub add_waiter-first :
    (e : FutexEntry) (tid i : ℕ)
    → leb max_futex_waiters e.waiter_count ≡ false
    → free_index e.waiters ≡ some i
    → e.head ≡ none
    → add_waiter e tid ≡ (
      true,
      record e {
        waiters = set e.waiters i (some (record { thread_id = tid; next = none }));
        waiter_count = e.waiter_count + 1;
        head = some i;
        tail = some i;
      },
    )
unfolding add_waiter
add_waiter-first e tid i short free none_yet = simp (short, free, none_yet, add_waiter)

pub add_waiter-next :
    (e : FutexEntry) (tid i j last : ℕ)
    → leb max_futex_waiters e.waiter_count ≡ false
    → free_index e.waiters ≡ some i
    → e.head ≡ some j
    → e.tail ≡ some last
    → add_waiter e tid ≡ (
      true,
      record e {
        waiters =
            link (set e.waiters i (some (record { thread_id = tid; next = none }))) last (some i);
        waiter_count = e.waiter_count + 1;
        tail = some i;
      },
    )
unfolding add_waiter
add_waiter-next e tid i j last short free some_first some_last =
    simp (short, free, some_first, some_last, add_waiter)

-- Where waiters stand in the slots from 0 on, in the order in which they came and without a gap, a
-- thread that comes to wait is put behind them, and is refused when there are eight.
pub add_waiter-Holds :
    (e : FutexEntry) (tids : List ℕ) (tid : ℕ)
    → Holds e tids
    → (length tids < max_futex_waiters
        → ((add_waiter e tid).0 ≡ true) × Holds (add_waiter e tid).1 (tids ++ (tid ∷ [])))
      × (length tids ≡ max_futex_waiters → add_waiter e tid ≡ (false, e))
add_waiter-Holds e tids tid h =
    (λ room. joins tids h room, λ full. add_waiter-full e tid (ground (arith, h.counted)))
  where
    joins :
        (ts : List ℕ)
        → Holds e ts
        → length ts < max_futex_waiters
        → ((add_waiter e tid).0 ≡ true) × Holds (add_waiter e tid).1 (ts ++ (tid ∷ []))
    joins [] g room =
        let free = ap free_index g.stored ∙ free_index-links 0 max_futex_waiters [] room in
        let eq = add_waiter-first e tid 0 (ground (arith, g.counted)) free g.first in
        (
          ap (λ z. z.0) eq,
          subst (λ z. Holds z.1 (tid ∷ [])) (sym eq)
              (record {
                stored =
                    ap (λ ws. set ws 0 (some (record { thread_id = tid; next = none }))) g.stored;
                counted = omega (arith, g.counted);
                bounded = omega arith;
                first = refl;
                last = refl;
              }),
        )
    joins (x ∷ ts) g room =
        let free = ap free_index g.stored ∙ free_index-links 0 max_futex_waiters (x ∷ ts) room in
        let eq =
          add_waiter-next e tid (suc (length ts)) 0 (length ts) (ground (arith, g.counted)) free
            g.first (g.last ∙ last_index-cons 0 x ts ∙ ap some (omega arith)) in
        (
          ap (λ z. z.0) eq,
          subst (λ z. Holds z.1 (x ∷ (ts ++ (tid ∷ [])))) (sym eq)
              (record {
                stored =
                    ap
                      (λ ws.
                        link
                          (set ws (suc (length ts))
                            (some (record { thread_id = tid; next = none })))
                          (length ts) (some (suc (length ts))))
                      g.stored
                    ∙ ap
                        (λ k.
                          link
                            (set (links 0 max_futex_waiters (x ∷ ts)) (suc (length ts))
                              (some (record { thread_id = tid; next = none })))
                            (length ts) (some k))
                        (omega arith)
                    ∙ link-links 0 max_futex_waiters x tid ts room;
                counted = omega (arith, g.counted, length-append ts (tid ∷ []));
                bounded = omega (arith, length-append ts (tid ∷ []));
                first = g.first;
                last = ap some (omega arith) ∙ sym (last_index-snoc 0 x tid ts);
              }),
        )
