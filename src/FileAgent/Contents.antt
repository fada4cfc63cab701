-- ===== src/FileAgent/Contents.antt =====
-- What is written to a file is read from it (userspace/services/fileagent/src/ramfs.rs, vfs.rs).
use capsule_os.Base.{
  ℕ, ◌+◌, ◌-◌, ◌%◌, ◌^◌, ◌≤◌, ◌<◌, ◌≡◌, ◌≢◌, refl, ap, ◌∙◌, inl, inr, min, true, false, Bool-cases,
  some, List, ◌++◌, length, length-take, take, take-all, drop, get_elem?, get_elem?-lt,
  get_elem?-set_self, get_elem?-set_ne, set, ltb, leb, ◌==◌, if◌then◌else◌, arith,
}
use capsule_os.Base.Int.{pos}
use capsule_os.Base.Slices.{splice, take-append, drop-append}
use capsule_os.FileAgent.{Node, Ramfs, file_size, read, write}
use capsule_os.FileAgent.Sessions.{OpenFile, Session, Service, tty_fd, advance, do_read, do_write}

-- The part of a buffer that was spliced in.
spliced :
    (offset : ℕ) (bytes buf : List ℕ)
    → offset ≤ length buf
    → take (length bytes) (drop offset (splice offset bytes buf)) ≡ bytes
spliced offset bytes buf h =
    let before = take offset buf in
    let after = drop (offset + length bytes) buf in
    let whole : length before ≡ offset = omega (arith, length-take offset buf, h) in
    let tail : drop (offset + 0) (before ++ (bytes ++ after)) ≡ bytes ++ after =
      drop-append offset 0 before (bytes ++ after) whole in
    let same : drop offset (before ++ (bytes ++ after))
        ≡ drop (offset + 0) (before ++ (bytes ++ after)) =
      ap (λ k. drop k (before ++ (bytes ++ after))) (omega arith) in
    ap (take (length bytes)) (same ∙ tail) ∙ take-append (length bytes) bytes after refl

-- The node after bytes are written.
abbrev written : List ℕ → ℕ → Node → Node
written bytes offset n = record n {
  contents = splice offset bytes n.contents;
  size = if ltb n.size (offset + length bytes) then offset + length bytes else n.size;
}

write-fits :
    (s : Ramfs) (idx offset : ℕ) (bytes : List ℕ) (n : Node)
    → get_elem? s.nodes idx ≡ some n
    → n.ntype ≡ 1
    → offset + length bytes ≤ file_size
    → write idx bytes offset s
      ≡ some (pos (length bytes), record s { nodes = set s.nodes idx (written bytes offset n) })
unfolding write
write-fits s idx offset bytes n at is_file fits =
    let typed : (n.ntype == 1) ≡ true = rw is_file refl in
    let inside : ltb file_size offset ≡ false = ground (arith, fits) in
    let len : min (length bytes) (file_size - offset) ≡ length bytes = omega (arith, fits) in
    rw (at, write, typed, inside, len, take-all (length bytes) bytes (omega arith)) refl

read-written :
    (s : Ramfs) (idx offset : ℕ) (bytes : List ℕ) (n : Node)
    → get_elem? s.nodes idx ≡ some (written bytes offset n)
    → n.ntype ≡ 1
    → length n.contents ≡ file_size
    → offset + length bytes ≤ file_size
    → 0 < length bytes
    → read idx (length bytes) offset s ≡ (pos (length bytes), bytes)
unfolding read
read-written s idx offset bytes n at is_file whole fits some_bytes =
    let new = written bytes offset n in
    let enough : offset + length bytes ≤ new.size =
      elim (Bool-cases (ltb n.size (offset + length bytes))) [
        | inl longer ↦ rw longer (omega arith)
        | inr kept ↦ rw kept (ground (arith, kept))
      ] in
    let typed : (n.ntype == 0) ≡ false = rw is_file refl in
    let inside : leb new.size offset ≡ false = ground (arith, enough, some_bytes) in
    let len : min (length bytes) (new.size - offset) ≡ length bytes = omega (arith, enough) in
    rw (at, read, typed, inside, len, spliced offset bytes n.contents (omega (arith, whole, fits)))
      refl

-- Bytes that fit behind the offset of an open file and are written through its descriptor can be read
-- through another descriptor of the session, on the same node at the same offset: the write returns their
-- number, and the read gives them back, at least one byte being written and neither descriptor being the
-- terminal's.
pub do_write-do_read :
    (s : Service) (i fd other : ℕ) (sess : Session) (node offset : ℕ) (n : Node) (bytes : List ℕ)
    → get_elem? s.sessions i ≡ some (some sess)
    → get_elem? sess.fds fd ≡ some (some (record { node_idx = node; offset = offset }))
    → get_elem? sess.fds other ≡ some (some (record { node_idx = node; offset = offset }))
    → fd ≢ other
    → fd ≢ tty_fd
    → other ≢ tty_fd
    → get_elem? s.ramfs.nodes node ≡ some n
    → n.ntype ≡ 1
    → length n.contents ≡ file_size
    → offset + length bytes ≤ file_size
    → 0 < length bytes
    → (s1 : Service) × (s2 : Service) × (do_write i fd bytes s ≡ some (pos (length bytes), s1))
      × (do_read i other (length bytes) s1 ≡ some (pos (length bytes), bytes, s2))
unfolding do_write do_read
do_write-do_read s i fd other sess node offset n bytes session at_fd at_other differ no_tty no_tty'
      at is_file whole fits some_bytes =
    let of : OpenFile = record { node_idx = node; offset = offset } in
    let fs : Ramfs = record s.ramfs { nodes = set s.ramfs.nodes node (written bytes offset n) } in
    let moved : OpenFile = record of { offset = (offset + length bytes) % 2 ^ 32 } in
    let sess1 : Session = record sess { fds = set sess.fds fd (some moved) } in
    let s1 : Service = record s { ramfs = fs; sessions = set s.sessions i (some sess1) } in
    let s2 = advance i other (pos (length bytes)) of sess1 s1 in
    let w = write-fits s.ramfs node offset bytes n at is_file fits in
    let session1 : get_elem? s1.sessions i ≡ some (some sess1) =
      get_elem?-set_self s.sessions i (some sess1) (get_elem?-lt s.sessions i session) in
    let at_other1 : get_elem? sess1.fds other ≡ some (some of) =
      get_elem?-set_ne sess.fds fd other (some moved) differ ∙ at_other in
    let at1 : get_elem? fs.nodes node ≡ some (written bytes offset n) =
      get_elem?-set_self s.ramfs.nodes node (written bytes offset n)
        (get_elem?-lt s.ramfs.nodes node at) in
    let r = read-written fs node offset bytes n at1 is_file whole fits some_bytes in
    let t1 : (fd == tty_fd) ≡ false = ground (arith, no_tty) in
    let t2 : (other == tty_fd) ≡ false = ground (arith, no_tty') in
    (
      s1,
      s2,
      rw (do_write, t1, session, at_fd, w) refl,
      rw (do_read, t2, session1, at_other1, r) refl,
    )
