-- ===== src/Vfs/Pipe.antt =====
-- kernel/src/vfs/pipe.rs: the kernel's table of pipes. Out of range, an index into the table
-- panics: such a call returns `none`.
pub mod Fifo
pub mod Ends
pub mod Transfer
use capsule_os.Base.{
  ℕ, zero, suc, ◌+◌, ◌-◌, ◌%◌, ◌^◌, Bool, ◌&&◌, Option, none, some, List, [], ◌∷◌, length, get_or,
  get_elem?, set, replicate, leb, ltb, ◌==◌, if◌then◌else◌,
}
use capsule_os.Shared.Status.{Status, no_memory, bad_handle, not_allowed, peer_closed}
use capsule_os.Shared.Result.{Result, ok, err}

abbrev pub pipe_buf_size : ℕ
pipe_buf_size = 4096

abbrev pub max_pipes : ℕ
max_pipes = 16

-- Bytes are pushed at `head` and popped at `tail`.
pub record Pipe : Type 0 where
  pub buf : List ℕ
  pub head : ℕ
  pub tail : ℕ
  pub n_readers : ℕ
  pub n_writers : ℕ

pub data PipeRole : Type 0 where
  read write : PipeRole

-- `PIPES` and `NEXT_PIPE_ID`.
pub record Pipes : Type 0 where
  pub table : List (Option Pipe)
  pub next_pipe_id : ℕ

unfoldable pub new_uninit : Pipe
new_uninit = record {
  buf = replicate pipe_buf_size 0;
  head = 0;
  tail = 0;
  n_readers = 0;
  n_writers = 0;
}

unfoldable pub boot : Pipes
boot = record { table = replicate max_pipes none; next_pipe_id = 0 }

-- The counter is 64 bits wide, an id its low 32.
unfoldable pub alloc_pipe : Pipes → Result ℕ × Pipes
unfolding new_uninit
alloc_pipe s =
    let new_id = s.next_pipe_id % 2 ^ 32 in
    let s' : Pipes = record s { next_pipe_id = (s.next_pipe_id + 1) % 2 ^ 64 } in
    if leb max_pipes new_id then (err no_memory, s') else (
      ok new_id,
      record s' {
        table = set s.table new_id (some (record new_uninit { n_readers = 1; n_writers = 1 }));
      },
    )

bump : Pipe → PipeRole → Pipe
bump p read = record p { n_readers = p.n_readers + 1 }
bump p write = record p { n_writers = p.n_writers + 1 }

-- `-` stops at 0, as the code's guards do.
drop_end : Pipe → PipeRole → Pipe
drop_end p read = record p { n_readers = p.n_readers - 1 }
drop_end p write = record p { n_writers = p.n_writers - 1 }

unfoldable pub pipe_clone_role : Pipes → ℕ → PipeRole → Option Pipes
unfolding bump
pipe_clone_role s id role = elim (get_elem? s.table id) [
  | none ↦ none
  | some slot ↦ elim slot [
    | none ↦ some s
    | some p ↦ some (record s { table = set s.table id (some (bump p role)) })
  ]
]

unfoldable pub pipe_close_role : Pipes → ℕ → PipeRole → Option Pipes
unfolding drop_end
pipe_close_role s id role = elim (get_elem? s.table id) [
  | none ↦ none
  | some slot ↦ elim slot [
    | none ↦ some s
    | some p ↦
        let p' = drop_end p role in
        let slot' = if p'.n_readers == 0 && p'.n_writers == 0 then none else some p' in
        some (record s { table = set s.table id slot' })
  ]
]

-- The loop of `pipe_read` with `room` bytes of the caller's buffer left: the bytes it copies.
unfoldable pub read_loop : ℕ → Pipe → List ℕ × Pipe
read_loop zero p = ([], p)
read_loop (suc room) p =
    let rest = read_loop room (record p { tail = (p.tail + 1) % pipe_buf_size }) in
    if p.head == p.tail then ([], p) else (get_or p.buf p.tail 0 ∷ rest.0, rest.1)

-- A pipe's read into a buffer of `room` bytes: the bytes copied, whose number is the result.
unfoldable pub read_pipe : Pipe → ℕ → List ℕ × Pipe
unfolding read_loop
read_pipe p room = if p.n_writers == 0 && p.head == p.tail then ([], p) else read_loop room p

unfoldable pub pipe_read : Pipes → ℕ → ℕ → Option (Result (List ℕ) × Pipes)
unfolding read_pipe
pipe_read s id room = elim (get_elem? s.table id) [
  | none ↦ none
  | some slot ↦ elim slot [
    | none ↦ some (err bad_handle, s)
    | some p ↦
        let (bytes, p') = read_pipe p room in
        some (ok bytes, record s { table = set s.table id (some p') })
  ]
]

-- The loop of `pipe_write` after `n` bytes.
unfoldable pub write_loop : List ℕ → ℕ → Pipe → Result ℕ × Pipe
write_loop [] n p = (ok n, p)
write_loop (b ∷ bs) n p =
    let next_head = (p.head + 1) % pipe_buf_size in
    let rest = write_loop bs (n + 1) (record p { buf = set p.buf p.head b; head = next_head }) in
    if next_head == p.tail then ((if n == 0 then err not_allowed else ok n), p) else rest

unfoldable pub write_pipe : Pipe → List ℕ → Result ℕ × Pipe
unfolding write_loop
write_pipe p bytes = if p.n_readers == 0 then (err peer_closed, p) else write_loop bytes 0 p

unfoldable pub pipe_write : Pipes → ℕ → List ℕ → Option (Result ℕ × Pipes)
unfolding write_pipe
pipe_write s id bytes = elim (get_elem? s.table id) [
  | none ↦ none
  | some slot ↦ elim slot [
    | none ↦ some (err bad_handle, s)
    | some p ↦
        let (r, p') = write_pipe p bytes in some (r, record s { table = set s.table id (some p') })
  ]
]
