-- ===== src/Sync/Futex/Arrival.antt =====
-- Where `add_waiter` puts a thread, in any entry (kernel/src/sync/futex.rs).
use capsule_os.Base.{
  ℕ, ◌+◌, ◌≤◌, ◌<◌, ◌≡◌, ◌≢◌, ◌⊎◌, inl, inr, ◌==◌, refl, sym, ap, ◌∙◌, Bool-cases, Option-cases,
  true, false, Option, none, some, List, get_elem?, get_elem?-lt, get_elem?-set_self,
  get_elem?-set_ne, set, free_index, free_index-some, free_index-none, arith, leb,
}
use capsule_os.Sync.Futex.{FutexWaiter, FutexEntry, max_futex_waiters, link, add_waiter}
use capsule_os.Sync.Futex.Join.{add_waiter-full, add_waiter-first, add_waiter-next}

add_waiter-crowded :
    (e : FutexEntry) (tid : ℕ)
    → leb max_futex_waiters e.waiter_count ≡ false
    → free_index e.waiters ≡ none
    → add_waiter e tid ≡ (false, e)
unfolding add_waiter
add_waiter-crowded e tid short full = simp (short, full, add_waiter)

-- An entry with a first waiter and no last one.
add_waiter-loose :
    (e : FutexEntry) (tid i j : ℕ)
    → leb max_futex_waiters e.waiter_count ≡ false
    → free_index e.waiters ≡ some i
    → e.head ≡ some j
    → e.tail ≡ none
    → add_waiter e tid ≡ (
      true,
      record e {
        waiters = set e.waiters i (some (record { thread_id = tid; next = none }));
        waiter_count = e.waiter_count + 1;
      },
    )
unfolding add_waiter
add_waiter-loose e tid i j short free some_first none_last =
    simp (short, free, some_first, none_last, add_waiter)

link-some :
    (ws : List (Option FutexWaiter)) (l : ℕ) (next : Option ℕ) (v : FutexWaiter)
    → get_elem? ws l ≡ some (some v)
    → link ws l next ≡ set ws l (some (record v { next = next }))
link-some ws l next v e = ground (arith, e)

link-other :
    (ws : List (Option FutexWaiter)) (l : ℕ) (next : Option ℕ)
    → ((v : FutexWaiter) → get_elem? ws l ≢ some (some v))
    → link ws l next ≡ ws
link-other ws l next absent = go (get_elem? ws l) refl
  where
    go : (o : Option (Option FutexWaiter)) → get_elem? ws l ≡ o → link ws l next ≡ ws
    go none e = ground (arith, e)
    go (some none) e = ground (arith, e)
    go (some (some v)) e = absurd (absent v e)

-- The waiter of each slot is there still, under its thread.
abbrev pub Keeps : List (Option FutexWaiter) → List (Option FutexWaiter) → Type 0
Keeps ws us =
    (j : ℕ) (w : FutexWaiter)
    → get_elem? ws j ≡ some (some w)
    → (u : FutexWaiter) × (get_elem? us j ≡ some (some u)) × (u.thread_id ≡ w.thread_id)

-- A slot in use is not a free one.
used_ne :
    (ws : List (Option FutexWaiter)) (i j : ℕ) (w : FutexWaiter)
    → get_elem? ws i ≡ some none
    → get_elem? ws j ≡ some (some w)
    → i ≢ j
used_ne ws i j w free at q = no (sym free ∙ ap (get_elem? ws) q ∙ at)
  where
    no : some none ≡ some (some w) → ⊥
    no e = cc

set-Keeps :
    (ws : List (Option FutexWaiter)) (i : ℕ) (x : Option FutexWaiter)
    → get_elem? ws i ≡ some none
    → Keeps ws (set ws i x)
set-Keeps ws i x free j w at = (w, get_elem?-set_ne ws i j x (used_ne ws i j w free at) ∙ at, refl)

slot_eq : {x y : FutexWaiter} → some (some x) ≡ some (some y) → x ≡ y
slot_eq e = cc

link-Keeps : (ws : List (Option FutexWaiter)) (l : ℕ) (next : Option ℕ) → Keeps ws (link ws l next)
link-Keeps ws l next j w at = go (get_elem? ws l) refl
  where
    unchanged :
        ((v : FutexWaiter) → get_elem? ws l ≢ some (some v))
        → (u : FutexWaiter) × (get_elem? (link ws l next) j ≡ some (some u))
          × (u.thread_id ≡ w.thread_id)
    unchanged absent = (w, ap (λ z. get_elem? z j) (link-other ws l next absent) ∙ at, refl)

    go :
        (o : Option (Option FutexWaiter))
        → get_elem? ws l ≡ o
        → (u : FutexWaiter) × (get_elem? (link ws l next) j ≡ some (some u))
          × (u.thread_id ≡ w.thread_id)
    go none e = unchanged λ v q. cc
    go (some none) e = unchanged λ v q. cc
    go (some (some v)) e =
        let x : Option FutexWaiter = some (record v { next = next }) in
        let linked = ap (λ z. get_elem? z j) (link-some ws l next v e) in
        elim (Bool-cases (l == j)) [
          | inl here ↦
              let q : l ≡ j = ground (arith, here) in
              let same : v ≡ w = slot_eq (sym e ∙ ap (get_elem? ws) q ∙ at) in
              (
                record v { next = next },
                linked
                    ∙ ap (get_elem? (set ws l x)) (sym q)
                    ∙ get_elem?-set_self ws l x (get_elem?-lt ws l e),
                ap (λ z. z.thread_id) same,
              )
          | inr there ↦
              let ne : l ≢ j = ground (arith, there) in
              (w, linked ∙ get_elem?-set_ne ws l j x ne ∙ at, refl)
        ]

-- How `e'` comes from `e` when a thread joins in slot `i`.
abbrev pub IsJoined : FutexEntry → ℕ → ℕ → FutexEntry → Type 0
IsJoined e tid i e' =
    (e.waiter_count < max_futex_waiters)
    × (e'.waiter_count ≡ e.waiter_count + 1)
    × (get_elem? e.waiters i ≡ some none)
    × ((u : FutexWaiter) × (get_elem? e'.waiters i ≡ some (some u)) × (u.thread_id ≡ tid))
    × Keeps e.waiters e'.waiters
    × ((first last : ℕ) (w : FutexWaiter)
        → e.head ≡ some first
        → e.tail ≡ some last
        → get_elem? e.waiters last ≡ some (some w)
        → (e'.tail ≡ some i)
          × (get_elem? e'.waiters last ≡ some (some (record w { next = some i }))))

add_waiter-IsJoined :
    (e : FutexEntry) (tid i j last : ℕ)
    → leb max_futex_waiters e.waiter_count ≡ false
    → free_index e.waiters ≡ some i
    → e.head ≡ some j
    → e.tail ≡ some last
    → (k : ℕ) × (e' : FutexEntry) × (add_waiter e tid ≡ (true, e')) × IsJoined e tid k e'
add_waiter-IsJoined e tid i j last short free first ends =
    let at = free_index-some e.waiters i free in
    let v : FutexWaiter = record { thread_id = tid; next = none } in
    let ws = set e.waiters i (some v) in
    let new = get_elem?-set_self e.waiters i (some v) (get_elem?-lt e.waiters i at) in
    (
      i,
      record e {
        waiters = link ws last (some i);
        waiter_count = e.waiter_count + 1;
        tail = some i;
      },
      add_waiter-next e tid i j last short free first ends,
      (
        ground (arith, short),
        refl,
        at,
        link-Keeps ws last (some i) i v new,
        (λ k w g.
            let (u, h, same) = set-Keeps e.waiters i (some v) at k w g in
            let (u', h', same') = link-Keeps ws last (some i) k u h in (u', h', same' ∙ same)),
        λ first' last' w _ t g.
            let q : last' ≡ last = cc in
            let there =
              get_elem?-set_ne e.waiters i last' (some v) (used_ne e.waiters i last' w at g) ∙ g in
            (
              refl,
              ap (λ l. get_elem? (link ws l (some i)) last') (sym q)
                  ∙ ap (λ z. get_elem? z last') (link-some ws last' (some i) w there)
                  ∙ get_elem?-set_self ws last' (some (record w { next = some i }))
                      (get_elem?-lt ws last' there),
            ),
      ),
    )

-- What `add_waiter` does to any entry, in two cases. It refuses the thread and changes nothing, and then
-- eight wait already or no slot is free. Or it counts one more and puts the thread into a slot that was
-- free; every other waiter stands in its slot under its thread as before, and if the entry had a first
-- and a last waiter, the slot of the last one now leads to the new one, which is the last.
pub add_waiter-waiters :
    (e : FutexEntry) (tid : ℕ)
    → ((add_waiter e tid ≡ (false, e))
        × ((max_futex_waiters ≤ e.waiter_count) ⊎ ((i : ℕ) → get_elem? e.waiters i ≢ some none)))
      ⊎ ((i : ℕ) × (e' : FutexEntry) × (add_waiter e tid ≡ (true, e')) × IsJoined e tid i e')
add_waiter-waiters e tid = elim (Bool-cases (leb max_futex_waiters e.waiter_count)) [
  | inl many ↦ inl (add_waiter-full e tid many, inl (ground (arith, many)))
  | inr short ↦ elim (Option-cases (free_index e.waiters)) [
    | inl full ↦ inl (add_waiter-crowded e tid short full, inr (free_index-none e.waiters full))
    | inr (i, free) ↦
        let at = free_index-some e.waiters i free in
        let x : Option FutexWaiter = some (record { thread_id = tid; next = none }) in
        let ws = set e.waiters i x in
        let new = get_elem?-set_self e.waiters i x (get_elem?-lt e.waiters i at) in
        let kept = set-Keeps e.waiters i x at in
        let e' : FutexEntry = record e { waiters = ws; waiter_count = e.waiter_count + 1 } in
        let room : e.waiter_count < max_futex_waiters = ground (arith, short) in
        inr (elim (Option-cases e.head) [
          | inl nobody ↦ (
            i,
            record e' { head = some i; tail = some i },
            add_waiter-first e tid i short free nobody,
            (
              room,
              refl,
              at,
              (record { thread_id = tid; next = none }, new, refl),
              kept,
              λ first last w h _ _. absurd (differ (sym nobody ∙ h)),
            ),
          )
          | inr (j, first) ↦ elim (Option-cases e.tail) [
            | inl loose ↦ (
              i,
              e',
              add_waiter-loose e tid i j short free first loose,
              (
                room,
                refl,
                at,
                (record { thread_id = tid; next = none }, new, refl),
                kept,
                λ first' last w _ t _. absurd (differ (sym loose ∙ t)),
              ),
            )
            | inr (last, ends) ↦ add_waiter-IsJoined e tid i j last short free first ends
          ]
        ])
  ]
]
  where
    differ : {n : ℕ} → none ≡ some n → ⊥
    differ q = cc
