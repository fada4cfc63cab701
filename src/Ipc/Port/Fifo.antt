-- ===== src/Ipc/Port/Fifo.antt =====
-- A port's page is a queue of at most fifteen packets (kernel/src/ipc/port.rs).
use capsule_os.Base.{
  ℕ, ◌+◌, ◌%◌, ◌<◌, ◌≡◌, ◌≢◌, refl, suc, ap, sym, ◌∙◌, ◌⊎◌, inl, inr, Option, none, some, List, [],
  ◌∷◌, ◌++◌, map, length, get_or, get_elem?, get_elem?-lt, get_elem?-set_self, set, length-set,
  false, Bool-cases, arith, ◌==◌,
}
use capsule_os.Base.Ring.{
  next, next_mod, used, used_facts, window, window-push, window-pop, window-set_past, length-window,
}
use capsule_os.Shared.Status.{try_again}
use capsule_os.Shared.Result.{ok, err}
use capsule_os.Task.Thread.{PortPacket, Thread, ready}
use capsule_os.Task.Scheduler.{Scheduler, thread_at, put_thread, slot_of}
use capsule_os.Ipc.Port.{
  Port, done, port_queue_max, take_packet, wait, wait_with_timeout, wait_finish, queue, push_packet,
}

-- The slots from `head` up to `tail`.
abbrev pub slots_held : Port → List (Option PortPacket)
slots_held p = window none port_queue_max p.slots p.head (used port_queue_max p.head p.tail)

-- The port holds these packets, oldest first.
pub record Holds (p : Port) (packets : List PortPacket) : Type 0 where
  pub sized : length p.slots ≡ port_queue_max
  pub head_in : p.head < port_queue_max
  pub tail_in : p.tail < port_queue_max
  pub held : slots_held p ≡ map some packets

length-map : (xs : List PortPacket) → length (map some xs) ≡ length xs
length-map [] = refl
length-map (x ∷ xs) = ap suc (length-map xs)

map-snoc :
    (xs : List PortPacket) (x : PortPacket)
    → map some (xs ++ (x ∷ [])) ≡ map some xs ++ (some x ∷ [])
map-snoc [] x = refl
map-snoc (y ∷ xs) x = ap (λ r. some y ∷ r) (map-snoc xs x)

-- How far `tail` is from `head`.
pub used-Holds :
    (p : Port) (packets : List PortPacket)
    → Holds p packets
    → used port_queue_max p.head p.tail ≡ length packets
used-Holds p packets h =
    sym (length-window none port_queue_max p.slots p.head (used port_queue_max p.head p.tail))
    ∙ ap length h.held
    ∙ length-map packets

-- Clearing the slot that has been read leaves the packets behind it.
cleared :
    (slots : List (Option PortPacket)) (r w : ℕ)
    → r < port_queue_max
    → w < port_queue_max
    → let r' = (r + 1) % port_queue_max in
      window none port_queue_max (set slots r none) r' (used port_queue_max r' w)
      ≡ window none port_queue_max slots r' (used port_queue_max r' w)
cleared slots r w hr hw = rw (next_mod port_queue_max r hr) (
    window-set_past none port_queue_max slots none (next port_queue_max r)
      (used port_queue_max (next port_queue_max r) w) 15 r (ground arith) (ground arith)
      (omega arith) (ground arith))

-- The packet at `head` leaves its slot, which is behind the ones that stay.
take_packet-Holds :
    (p : Port) (packet : PortPacket) (rest : List PortPacket) (head' : ℕ)
    → Holds p (packet ∷ rest)
    → (take_packet p head'
        ≡ some (packet, record p { slots = set p.slots p.head none; head = head' }))
      × Holds
          (record p { slots = set p.slots p.head none; head = (p.head + 1) % port_queue_max })
          rest
unfolding take_packet
take_packet-Holds p packet rest head' h =
    let facts = used_facts port_queue_max p.head p.tail h.head_in h.tail_in in
    let ne : p.head ≢ p.tail = λ e. omega (arith, used-Holds p (packet ∷ rest) h, facts.3.0 e) in
    let pop = window-pop none port_queue_max p.slots p.head p.tail h.head_in h.tail_in ne in
    let more : (p.head == p.tail) ≡ false = ground arith in
    let first : get_or p.slots p.head none ≡ some packet = cc in
    let later : window none port_queue_max p.slots ((p.head + 1) % port_queue_max)
          (used port_queue_max ((p.head + 1) % port_queue_max) p.tail)
        ≡ map some rest =
      cc in
    (
      rw (first, more) refl,
      record {
        sized = length-set p.slots p.head none ∙ h.sized;
        head_in = omega arith;
        tail_in = h.tail_in;
        held = cleared p.slots p.head p.tail h.head_in h.tail_in ∙ later;
      },
    )

-- `wait` on a port that holds packets returns the oldest at once, and the port holds the others.
pub wait-Holds {ℓ} :
    {O : Type ℓ} (p : Port) (s : Scheduler O) (packet : PortPacket) (rest : List PortPacket)
    → Holds p (packet ∷ rest)
    → (p' : Port) × (wait p s ≡ done (ok packet) p' s) × Holds p' rest
unfolding wait
wait-Holds p s packet rest h =
    let (e, h') = take_packet-Holds p packet rest ((p.head + 1) % port_queue_max) h in
    (
      record p { slots = set p.slots p.head none; head = (p.head + 1) % port_queue_max },
      rw (wait, e) refl,
      h',
    )

-- `wait_with_timeout` on a port that holds packets returns the oldest at once, but it sets `head`
-- just behind `tail`: whatever was held, the port then counts as full.
pub wait_with_timeout-full {ℓ} :
    {O : Type ℓ} (p : Port) (s : Scheduler O) (packet : PortPacket) (rest : List PortPacket)
    → Holds p (packet ∷ rest)
    → (p' : Port) × (wait_with_timeout p s ≡ done (ok packet) p' s)
      × (used port_queue_max p'.head p'.tail ≡ 15)
unfolding wait_with_timeout
wait_with_timeout-full p s packet rest h =
    let (e, h') = take_packet-Holds p packet rest ((p.tail + 1) % port_queue_max) h in
    (
      record p { slots = set p.slots p.head none; head = (p.tail + 1) % port_queue_max },
      rw (wait_with_timeout, e) refl,
      full p.tail h.tail_in,
    )
  where
    full : (w : ℕ) → w < port_queue_max → used port_queue_max ((w + 1) % port_queue_max) w ≡ 15
    full w hw = rw (next_mod port_queue_max w hw) (ground arith)

-- `queue` on a port that no thread waits for: with fewer than fifteen packets held the packet is
-- held behind them, and with fifteen the call fails and the port holds what it held.
pub queue-Holds {ℓ} :
    {O : Type ℓ} (p : Port) (s : Scheduler O) (packet : PortPacket) (packets : List PortPacket)
    → p.waiter ≡ none
    → Holds p packets
    → (p' : Port) × (((length packets < 15)
          × (queue p s packet ≡ (ok tt, p', s))
          × Holds p' (packets ++ (packet ∷ [])))
        ⊎ ((length packets ≡ 15) × (queue p s packet ≡ (err try_again, p', s)) × Holds p' packets))
unfolding queue push_packet
queue-Holds p s packet packets nobody h =
    let facts = used_facts port_queue_max p.head p.tail h.head_in h.tail_in in
    let step = next_mod port_queue_max p.tail h.tail_in in
    let count = used-Holds p packets h in
    elim (Bool-cases ((p.tail + 1) % port_queue_max == p.head)) [
      | inl full ↦
          let brim = facts.2.0 (sym step ∙ ground arith) in
          (
            record p { waiter = none },
            inr (
              omega (arith, brim, count),
              rw (nobody, full) refl,
              record { sized = h.sized; head_in = h.head_in; tail_in = h.tail_in; held = h.held },
            ),
          )
      | inr more ↦
          let ne : (p.tail + 1) % port_queue_max ≢ p.head = ground arith in
          let below : used port_queue_max p.head p.tail + 1 ≢ port_queue_max =
            λ e. ne (step ∙ facts.2.1 e) in
          (
            record p {
              slots = set p.slots p.tail (some packet);
              tail = (p.tail + 1) % port_queue_max;
              waiter = none;
            },
            inl (
              omega (arith, count, below, facts.0),
              rw (nobody, more) refl,
              record {
                sized = length-set p.slots p.tail (some packet) ∙ h.sized;
                head_in = h.head_in;
                tail_in = omega arith;
                held =
                    window-push none port_queue_max p.slots (some packet) p.head p.tail
                      (omega (arith, h.sized)) h.head_in h.tail_in ne
                    ∙ ap (λ r. r ++ (some packet ∷ [])) h.held
                    ∙ sym (map-snoc packets packet);
              },
            ),
          )
    ]

-- `queue` on a port that a thread waits for: the packet goes to that thread and not into the queue,
-- the port forgets its waiter, and the thread's wait then returns the packet. The ready queues stay
-- as they were: the thread is marked ready and is put in none of them.
pub queue-wait_finish {ℓ} :
    {O : Type ℓ} (p : Port) (s : Scheduler O) (packet : PortPacket) (tid i : ℕ) (t : Thread O)
    → p.waiter ≡ some tid
    → slot_of s.threads tid ≡ some i
    → thread_at s i ≡ some t
    → (p' : Port) × (s' : Scheduler O) × (t' : Thread O) × (queue p s packet ≡ (ok tt, p', s'))
      × (p'.waiter ≡ none)
      × (slots_held p' ≡ slots_held p)
      × (thread_at s' i ≡ some t')
      × (t'.state ≡ ready)
      × ((wait_finish s' i).0 ≡ ok packet)
      × (s'.queues ≡ s.queues)
unfolding queue wait_finish
queue-wait_finish p s packet tid i t w sl at =
    let t' = record t { port_packet_slot = some packet; state = ready } in
    let g : get_elem? s.threads i ≡ some (some t) = ground (arith, at) in
    let at' : thread_at (put_thread s i t') i ≡ some t' =
      rw (get_elem?-set_self s.threads i (some t') (get_elem?-lt s.threads i g), thread_at) refl in
    (
      record p { waiter = none },
      put_thread s i t',
      t',
      simp (w, sl, at, queue),
      refl,
      refl,
      at',
      refl,
      rw (at', wait_finish) refl,
      refl,
    )
