-- ===== src/Vfs/Pipe/Transfer.antt =====
-- Bytes through the table of pipes: a write followed by a read (kernel/src/vfs/pipe.rs).
use capsule_os.Base.{
  ℕ, ◌≤◌, ◌<◌, ◌≡◌, ◌≢◌, ◌∙◌, ap, some, List, ◌++◌, length, set, get_elem?-lt, take, take-all,
  arith,
}
use capsule_os.Shared.Result.{ok}
use capsule_os.Vfs.Pipe.{Pipe, Pipes, read_pipe, write_pipe, pipe_read, pipe_write}
use capsule_os.Vfs.Pipe.Ends.{pipe_at, slot_of_pipe, pipe_at-set}
use capsule_os.Vfs.Pipe.Fifo.{IsValid, contents, room_left, read_pipe-contents, write_pipe-contents}

-- What a reader finds after a write that fits: the bytes that waited before, then those written,
-- as many of them as it has room for. Other pipes stay as they were.
pub pipe_read-write :
    (s : Pipes) (id room : ℕ) (bytes : List ℕ) (p : Pipe)
    → pipe_at s id ≡ some p
    → IsValid p
    → p.n_readers ≢ 0
    → 0 < room_left p
    → length bytes ≤ room_left p
    → (t : Pipes) × (u : Pipes) × (pipe_write s id bytes ≡ some (ok (length bytes), t))
      × (pipe_read t id room ≡ some (ok (take room (contents p ++ bytes)), u))
      × ((other : ℕ) → id ≢ other → pipe_at u other ≡ pipe_at s other)
unfolding pipe_write pipe_read
pipe_read-write s id room bytes p e v readers free fits =
    let g = slot_of_pipe s id e in
    let (v', _, written) = write_pipe-contents p bytes v in
    let (count, held) = written readers in
    let p' = (write_pipe p bytes).1 in
    let t : Pipes = record s { table = set s.table id (some p') } in
    let (here, others) = pipe_at-set s id (some p') (get_elem?-lt s.table id g) in
    let g' = slot_of_pipe t id here in
    let (_, taken, _) = read_pipe-contents p' room v' in
    let p'' = (read_pipe p' room).1 in
    let (_, others') = pipe_at-set t id (some p'') (get_elem?-lt t.table id g') in
    let all : (write_pipe p bytes).0 ≡ ok (length bytes) = ground (arith, count, free, fits) in
    let got : (read_pipe p' room).0 ≡ take room (contents p ++ bytes) =
      taken ∙ ap (take room) (held ∙ ap (◌++◌ (contents p)) (take-all (room_left p) bytes fits)) in
    (
      t,
      record t { table = set t.table id (some p'') },
      rw (g, pipe_write) (ap (λ r. some (r, t)) all),
      rw (g', pipe_read)
          (ap (λ b. some (ok b, record t { table = set t.table id (some p'') })) got),
      λ other ne. others' other ne ∙ others other ne,
    )
