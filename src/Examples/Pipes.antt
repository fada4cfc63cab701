-- ===== src/Examples/Pipes.antt =====
-- Pipes on concrete tables (kernel/src/vfs/pipe.rs).
use capsule_os.Base.{
  ℕ, min, ◌≡◌, ◌≢◌, refl, not, ◌&&◌, none, some, [], ◌∷◌, ◌++◌, take, drop, replicate,
  length-replicate, arith, ◌==◌, if◌then◌else◌,
}
use capsule_os.Shared.Status.{not_allowed, peer_closed}
use capsule_os.Shared.Result.{ok, err}
use capsule_os.Vfs.Pipe.{Pipe, Pipes, read_pipe, write_pipe, pipe_read, pipe_write}
use capsule_os.Vfs.Pipe.Fifo.{IsValid, contents, room_left, read_pipe-contents, write_pipe-contents}
use capsule_os.Vfs.Pipe.Ends.{pipe_at}
use capsule_os.Vfs.Pipe.Transfer.{pipe_read-write}

-- A pipe that holds the bytes 7 and 8, with one end of each role.
abbrev pipe : Pipe
pipe = record { buf = 7 ∷ 8 ∷ replicate 4094 0; head = 2; tail = 0; n_readers = 1; n_writers = 1 }

pipe-IsValid : IsValid pipe
pipe-IsValid = record {
  sized = omega (arith, length-replicate 4094 (let z : ℕ = 0 in z));
  head_in = omega arith;
  tail_in = omega arith;
}

abbrev pipes : Pipes
pipes = record { table = some pipe ∷ replicate 15 none; next_pipe_id = 1 }

write_pipe-contents_example :
    IsValid (write_pipe pipe (9 ∷ [])).1
    × ((pipe.n_readers ≡ 0) → write_pipe pipe (9 ∷ []) ≡ (err peer_closed, pipe))
    × ((pipe.n_readers ≢ 0)
        → ((write_pipe pipe (9 ∷ [])).0 ≡ (
            if room_left pipe == 0 && not (1 == 0)
            then err not_allowed
            else ok (min 1 (room_left pipe))))
          × (contents (write_pipe pipe (9 ∷ [])).1
              ≡ contents pipe ++ take (room_left pipe) (9 ∷ [])))
write_pipe-contents_example = write_pipe-contents pipe (9 ∷ []) pipe-IsValid

read_pipe-contents_example :
    IsValid (read_pipe pipe 1).1
    × ((read_pipe pipe 1).0 ≡ take 1 (contents pipe))
    × (contents (read_pipe pipe 1).1 ≡ drop 1 (contents pipe))
read_pipe-contents_example = read_pipe-contents pipe 1 pipe-IsValid

pipe_read-write_example :
    (t : Pipes) × (u : Pipes) × (pipe_write pipes 0 (9 ∷ []) ≡ some (ok 1, t))
    × (pipe_read t 0 3 ≡ some (ok (take 3 (contents pipe ++ (9 ∷ []))), u))
    × ((other : ℕ) → 0 ≢ other → pipe_at u other ≡ pipe_at pipes other)
pipe_read-write_example =
    pipe_read-write pipes 0 3 (9 ∷ []) pipe refl pipe-IsValid (omega arith) (omega arith)
      (omega arith)
