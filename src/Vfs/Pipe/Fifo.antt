-- ===== src/Vfs/Pipe/Fifo.antt =====
-- A pipe is a queue of at most 4095 bytes (kernel/src/vfs/pipe.rs).
use capsule_os.Base.{
  ℕ, zero, suc, ◌+◌, ◌-◌, ◌%◌, ◌<◌, min, ◌≡◌, ◌≢◌, refl, inl, inr, ◌∙◌, ap, sym, List, [], ◌∷◌,
  ◌++◌, append-nil, append_assoc, length, length-append, ◌↔◌, get_or, set, take, drop, take-nil,
  drop-nil, take-cons, length-set, length-replicate, not, ◌&&◌, arith, ◌==◌, if◌then◌else◌,
  Bool-cases,
}
use capsule_os.Base.Ring.{
  used, used_facts, window, length-window, window-push, window-pop, length-window_tests,
}
use capsule_os.Shared.Status.{not_allowed, peer_closed}
use capsule_os.Shared.Result.{Result, ok, err}
use capsule_os.Vfs.Pipe.{
  Pipe, pipe_buf_size, read_loop, read_pipe, write_loop, write_pipe, new_uninit,
}

pub record IsValid (p : Pipe) : Type 0 where
  pub sized : length p.buf ≡ pipe_buf_size
  pub head_in : p.head < pipe_buf_size
  pub tail_in : p.tail < pipe_buf_size

-- The bytes that wait, oldest first.
abbrev pub contents : Pipe → List ℕ
contents p = window 0 pipe_buf_size p.buf p.tail (used pipe_buf_size p.tail p.head)

-- What a ring of 4096 bytes can hold: one slot stays empty.
abbrev pub capacity : ℕ
capacity = 4095

pub length-contents : (p : Pipe) → length (contents p) ≡ used pipe_buf_size p.tail p.head
length-contents p = length-window 0 pipe_buf_size p.buf p.tail (used pipe_buf_size p.tail p.head)

-- One turn of the writing loop on a pipe that is not full.
push-contents :
    (p : Pipe) (b : ℕ)
    → IsValid p
    → (p.head + 1) % pipe_buf_size ≢ p.tail
    → let p' : Pipe = record p { buf = set p.buf p.head b; head = (p.head + 1) % pipe_buf_size } in
      IsValid p' × (contents p' ≡ contents p ++ (b ∷ []))
push-contents p b v ne = (
  record {
    sized = length-set p.buf p.head b ∙ v.sized;
    head_in = omega arith;
    tail_in = v.tail_in;
  },
  window-push 0 pipe_buf_size p.buf b p.tail p.head (omega (arith, v.sized)) v.tail_in v.head_in ne,
)

-- One turn of the reading loop on a pipe that is not empty.
pop-contents :
    (p : Pipe)
    → IsValid p
    → p.head ≢ p.tail
    → let p' : Pipe = record p { tail = (p.tail + 1) % pipe_buf_size } in
      IsValid p' × (contents p ≡ get_or p.buf p.tail 0 ∷ contents p')
pop-contents p v ne = (
  record { sized = v.sized; head_in = v.head_in; tail_in = omega arith },
  window-pop 0 pipe_buf_size p.buf p.tail p.head v.tail_in v.head_in (λ e. ne (sym e)),
)

contents-empty : (p : Pipe) → p.head ≡ p.tail → contents p ≡ []
contents-empty p e = ap (window 0 pipe_buf_size p.buf p.tail) (zero_used p.tail p.head (sym e))
  where
    zero_used : (r w : ℕ) → r ≡ w → used pipe_buf_size r w ≡ 0
    zero_used r w q = ground arith

-- The loop of `pipe_read` takes the oldest bytes, as many as there are and fit.
read_loop-contents :
    (room : ℕ) (p : Pipe)
    → IsValid p
    → IsValid (read_loop room p).1
      × ((read_loop room p).0 ≡ take room (contents p))
      × (contents (read_loop room p).1 ≡ drop room (contents p))
unfolding read_loop
read_loop-contents zero p v = (v, refl, refl)
read_loop-contents (suc room) p v = elim (Bool-cases (p.head == p.tail)) [
  | inl empty ↦ rw (empty, contents-empty p (ground arith)) (v, refl, refl)
  | inr more ↦
      let (v', c) = pop-contents p v (ground arith) in
      let (u, t, d) =
        read_loop-contents room (record p { tail = (p.tail + 1) % pipe_buf_size }) v' in
      rw (more, c) (u, ap (λ x. get_or p.buf p.tail 0 ∷ x) t, d)
]

-- `pipe_read` hands out the oldest bytes in order, as many as wait and fit, leaves the others, and
-- keeps the pipe valid, whether writers are left or not.
pub read_pipe-contents :
    (p : Pipe) (room : ℕ)
    → IsValid p
    → IsValid (read_pipe p room).1
      × ((read_pipe p room).0 ≡ take room (contents p))
      × (contents (read_pipe p room).1 ≡ drop room (contents p))
unfolding read_pipe
read_pipe-contents p room v = elim (Bool-cases (p.n_writers == 0 && p.head == p.tail)) [
  | inl eof ↦
      let none_left = contents-empty p (ground arith) in
      rw (eof, none_left) (v, sym (take-nil room), sym (drop-nil room))
  | inr more ↦ rw more (read_loop-contents room p v)
]

-- What `write_loop` returns after `n` bytes, with `bytes` to go and `free` slots.
abbrev verdict : ℕ → List ℕ → ℕ → Result ℕ
verdict n bytes free =
    if n == 0 && free == 0 && not (length bytes == 0)
    then err not_allowed
    else ok (n + min (length bytes) free)

-- How many bytes a pipe can still take.
abbrev pub room_left : Pipe → ℕ
room_left p = capacity - length (contents p)

append-take_cons :
    (xs : List ℕ) (b : ℕ) (bytes : List ℕ) (n : ℕ)
    → 0 < n
    → (xs ++ (b ∷ [])) ++ take (n - 1) bytes ≡ xs ++ take n (b ∷ bytes)
append-take_cons xs b bytes n h =
    append_assoc xs (b ∷ []) (take (n - 1) bytes) ∙ ap (◌++◌ xs) (sym (take-cons n b bytes h))

full_iff : (p : Pipe) → IsValid p → ((p.head + 1) % pipe_buf_size ≡ p.tail) ↔ (room_left p ≡ 0)
full_iff p v =
    let full = (length-window_tests 0 pipe_buf_size p.buf p.tail p.head v.tail_in v.head_in).1 in
    let f = used_facts pipe_buf_size p.tail p.head v.tail_in v.head_in in
    let n = length-contents p in
    (λ e. omega (arith, full.0 e), λ e. full.1 (omega (arith, e, n, f.0)))

write_loop-contents :
    (bytes : List ℕ) (n : ℕ) (p : Pipe)
    → IsValid p
    → IsValid (write_loop bytes n p).1
      × ((write_loop bytes n p).0 ≡ verdict n bytes (room_left p))
      × (contents (write_loop bytes n p).1 ≡ contents p ++ take (room_left p) bytes)
unfolding write_loop
write_loop-contents [] n p v = (v, ground arith, rw take-nil (sym (append-nil (contents p))))
write_loop-contents (b ∷ bytes) n p v = elim (Bool-cases ((p.head + 1) % pipe_buf_size == p.tail)) [
  | inl full ↦
      let none_free = (full_iff p v).0 (ground arith) in
      rw full (v, ground (arith, none_free), rw none_free (sym (append-nil (contents p))))
  | inr more ↦
      let ne : (p.head + 1) % pipe_buf_size ≢ p.tail = ground arith in
      let free : room_left p ≢ 0 = λ e. ne ((full_iff p v).1 e) in
      let (v', c) = push-contents p b v ne in
      let p' : Pipe = record p { buf = set p.buf p.head b; head = (p.head + 1) % pipe_buf_size } in
      let (u, r, t) = write_loop-contents bytes (n + 1) p' v' in
      let less : room_left p' ≡ room_left p - 1 =
        omega (arith, ap length c, length-append (contents p) (b ∷ [])) in
      rw more (
        u,
        ground (arith, r, less, free),
        t ∙ rw (less, c) (append-take_cons (contents p) b bytes (room_left p) (omega arith)),
      )
]

-- `pipe_write` on a pipe with readers appends, in order, as many bytes as there is room for, keeps
-- the pipe valid, and returns their number; it fails, and changes nothing, if there is no room for
-- a first byte. Without readers it fails and changes nothing.
pub write_pipe-contents :
    (p : Pipe) (bytes : List ℕ)
    → IsValid p
    → IsValid (write_pipe p bytes).1
      × ((p.n_readers ≡ 0) → write_pipe p bytes ≡ (err peer_closed, p))
      × ((p.n_readers ≢ 0)
          → ((write_pipe p bytes).0 ≡ (
              if room_left p == 0 && not (length bytes == 0)
              then err not_allowed
              else ok (min (length bytes) (room_left p))))
            × (contents (write_pipe p bytes).1 ≡ contents p ++ take (room_left p) bytes))
unfolding write_pipe
write_pipe-contents p bytes v = elim (Bool-cases (p.n_readers == 0)) [
  | inl closed ↦ rw closed (v, λ _. refl, λ ne. absurd (ground arith))
  | inr open_end ↦
      let (u, r, t) = write_loop-contents bytes 0 p v in
      rw open_end (u, λ e. absurd (ground arith), λ _. (ground (arith, r), t))
]

pub new_uninit-IsValid : IsValid new_uninit × (contents new_uninit ≡ [])
unfolding new_uninit
new_uninit-IsValid = (
  record {
    sized = length-replicate {A = ℕ} pipe_buf_size 0;
    head_in = omega arith;
    tail_in = omega arith;
  },
  refl,
)
