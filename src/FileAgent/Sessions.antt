-- ===== src/FileAgent/Sessions.antt =====
-- The sessions of the file service and their open files
-- (userspace/services/fileagent/src/vfs.rs). An index out of range panics, which is `none`.
use capsule_os.Base.{
  ℕ, ◌+◌, ◌^◌, ◌%◌, ◌||◌, Option, none, some, List, [], ◌∷◌, length, get_elem?, set, bit_and,
  bytes_eq, ltb, ◌==◌, if◌then◌else◌,
}
use capsule_os.Base.Int.{ℤ, pos, negsuc}
use capsule_os.Shared.Status.{discriminant, not_found, no_memory, not_empty, invalid_args}
use capsule_os.FileAgent.{
  Ramfs, ◌>>=◌, read, write, remove, parent_of, readdir_names, stat_size, stat_type, type_code,
}
use capsule_os.FileAgent.Paths.{clean, resolve, create_file_path}

abbrev pub max_fds : ℕ
max_fds = 16

pub record OpenFile : Type 0 where
  pub node_idx : ℕ
  pub offset : ℕ

pub record Session : Type 0 where
  pub server_chan : ℕ
  pub fds : List (Option OpenFile)

pub record Service : Type 0 where
  pub sessions : List (Option Session)
  pub ramfs : Ramfs

abbrev pub tty_fd : ℕ
tty_fd = 100

-- `dev/tty`.
abbrev pub tty_path : List ℕ
tty_path = 100 ∷ 101 ∷ 118 ∷ 47 ∷ 116 ∷ 116 ∷ 121 ∷ []

-- The loop over the descriptors of a session.
unfoldable pub free_fd : ℕ → List (Option OpenFile) → Option ℕ
free_fd fd [] = none
free_fd fd (none ∷ fds) = some fd
free_fd fd (some _ ∷ fds) = free_fd (fd + 1) fds

abbrev pub with_file : ℕ → ℕ → Option OpenFile → Session → Service → Service
with_file session_idx fd entry sess s = record s {
  sessions = set s.sessions session_idx (some (record sess { fds = set sess.fds fd entry }));
}

-- The node that a path names, made as a file when the flags ask for that.
unfoldable pub open_node : List ℕ → ℕ → Ramfs → Option (Option ℕ × Ramfs)
unfolding resolve create_file_path
open_node path flags fs = resolve path fs >>= (λ node. elim node [
  | some idx ↦ some (some idx, fs)
  | none ↦ if bit_and flags 0x40 == 0 then some (none, fs) else create_file_path path fs
])

unfoldable pub do_open : ℕ → List ℕ → ℕ → Service → Option (ℤ × Service)
unfolding open_node free_fd clean
do_open session_idx path flags s = get_elem? s.sessions session_idx >>= (λ slot. elim slot [
  | none ↦ some (negsuc 0, s)
  | some sess ↦
      if bytes_eq path tty_path || bytes_eq path (47 ∷ tty_path)
      then some (pos tty_fd, s)
      else open_node (clean path) flags s.ramfs >>= (λ found.
        let (node, fs) = found in
        let s1 : Service = record s { ramfs = fs } in
        elim node [
          | none ↦ some (discriminant not_found, s1)
          | some idx ↦ elim (free_fd 0 sess.fds) [
            | none ↦ some (discriminant no_memory, s1)
            | some fd ↦ some (
              pos fd,
              with_file session_idx fd (some (record { node_idx = idx; offset = 0 })) sess s1,
            )
          ]
        ])
])

unfoldable pub do_close : ℕ → ℕ → Service → Option (ℤ × Service)
do_close session_idx fd s =
    if fd == tty_fd
    then some (pos 0, s)
    else get_elem? s.sessions session_idx >>= (λ slot. elim slot [
      | none ↦ some (negsuc 0, s)
      | some sess ↦
          if ltb fd max_fds
          then some (pos 0, with_file session_idx fd none sess s)
          else some (negsuc 0, s)
    ])

-- The offset of a file moves by what was read or written; it has 32 bits.
abbrev pub advance : ℕ → ℕ → ℤ → OpenFile → Session → Service → Service
advance session_idx fd (pos n) of sess s =
    with_file session_idx fd (some (record of { offset = (of.offset + n) % 2 ^ 32 })) sess s
advance session_idx fd (negsuc n) of sess s = s

unfoldable pub do_read : ℕ → ℕ → ℕ → Service → Option (ℤ × List ℕ × Service)
unfolding read
do_read session_idx fd len s =
    if fd == tty_fd
    then some (pos 0, [], s)
    else get_elem? s.sessions session_idx >>= (λ slot. elim slot [
      | none ↦ some (negsuc 0, [], s)
      | some sess ↦ get_elem? sess.fds fd >>= (λ entry. elim entry [
        | none ↦ some (negsuc 0, [], s)
        | some of ↦
            let (result, bytes) = read of.node_idx len of.offset s.ramfs in
            some (result, bytes, advance session_idx fd result of sess s)
      ])
    ])

unfoldable pub do_write : ℕ → ℕ → List ℕ → Service → Option (ℤ × Service)
unfolding write
do_write session_idx fd bytes s =
    if fd == tty_fd
    then some (pos (length bytes), s)
    else get_elem? s.sessions session_idx >>= (λ slot. elim slot [
      | none ↦ some (negsuc 0, s)
      | some sess ↦ get_elem? sess.fds fd >>= (λ entry. elim entry [
        | none ↦ some (negsuc 0, s)
        | some of ↦ write of.node_idx bytes of.offset s.ramfs >>= (λ answer.
            let (result, fs) = answer in
            some (result, advance session_idx fd result of sess (record s { ramfs = fs })))
      ])
    ])

-- `do_rmdir` and `do_unlink` differ in the code for a node that cannot be removed.
unfoldable pub remove_path : ℤ → List ℕ → Ramfs → Option (ℤ × Ramfs)
unfolding resolve parent_of remove
remove_path refused path fs = resolve path fs >>= (λ child. elim child [
  | none ↦ some (discriminant not_found, fs)
  | some idx ↦ elim (parent_of idx fs) [
    | none ↦ some (discriminant invalid_args, fs)
    | some parent ↦ remove parent idx fs >>= (λ answer.
        let (removed, fs') = answer in some (if removed then pos 0 else refused, fs'))
  ]
])

abbrev pub do_rmdir : List ℕ → Ramfs → Option (ℤ × Ramfs)
do_rmdir path fs = remove_path (discriminant not_empty) path fs

abbrev pub do_unlink : List ℕ → Ramfs → Option (ℤ × Ramfs)
do_unlink path fs = remove_path (negsuc 0) path fs

unfoldable pub do_readdir : ℕ → ℕ → ℕ → Service → Option (ℤ × List ℕ × Service)
unfolding readdir_names
do_readdir session_idx fd len s = get_elem? s.sessions session_idx >>= (λ slot. elim slot [
  | none ↦ some (negsuc 0, [], s)
  | some sess ↦ get_elem? sess.fds fd >>= (λ entry. elim entry [
    | none ↦ some (negsuc 0, [], s)
    | some of ↦ readdir_names of.node_idx len s.ramfs >>= (λ answer.
        let (result, names) = answer in
        some (result, names, advance session_idx fd result of sess s))
  ])
])

unfoldable pub do_stat : List ℕ → Ramfs → Option (ℤ × ℕ)
unfolding resolve clean stat_size stat_type type_code
do_stat path fs = resolve (clean path) fs >>= (λ node. elim node [
  | none ↦ some (negsuc 0, 0)
  | some idx ↦
      some (stat_size idx fs, elim (stat_type idx fs) [ none ↦ 0 | some ntype ↦ type_code ntype ])
])
