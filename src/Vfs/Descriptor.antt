-- ===== src/Vfs/Descriptor.antt =====
-- kernel/src/vfs/mod.rs: the table of file descriptors. A descriptor is the index of its slot.
use capsule_os.Base.{
  ℕ, ◌<◌, ◌≡◌, ◌≢◌, refl, inl, inr, Bool, true, false, Option, none, some, List, length, set,
  get_elem?, get_elem?-lt, get_elem?-set_self, get_elem?-set_ne, replicate, free_index,
  free_index-some, arith, ltb, if◌then◌else◌, Option-cases,
}
use capsule_os.Shared.Status.{no_memory}
use capsule_os.Shared.Result.{Result, ok, err}

abbrev pub max_open_files : ℕ
max_open_files = 128

pub record FileDescriptor : Type 0 where
  pub vnode_id : ℕ
  pub offset : ℕ
  pub flags : ℕ
  pub rights : ℕ

unfoldable pub new : ℕ → ℕ → FileDescriptor
new vnode_id rights = record { vnode_id = vnode_id; offset = 0; flags = 0; rights = rights }

abbrev pub Table : Type 0
Table = List (Option FileDescriptor)

unfoldable pub empty : Table
empty = replicate max_open_files none

unfoldable pub alloc_fd : Table → ℕ → ℕ → Result ℕ × Table
unfolding new
alloc_fd t vnode_id rights = elim (free_index t) [
  | none ↦ (err no_memory, t)
  | some i ↦ (ok i, set t i (some (new vnode_id rights)))
]

-- `get_fd` and `get_fd_mut`.
unfoldable pub get_fd : Table → ℕ → Option FileDescriptor
get_fd t fd =
    if ltb fd max_open_files
    then (elim (get_elem? t fd) [ none ↦ none | some slot ↦ slot ])
    else none

unfoldable pub close_fd : Table → ℕ → Bool × Table
unfolding get_fd
close_fd t fd = elim (get_fd t fd) [ none ↦ (false, t) | some _ ↦ (true, set t fd none) ]

unfoldable pub read_fd_offset : Table → ℕ → Option ℕ
unfolding get_fd
read_fd_offset t fd = elim (get_fd t fd) [ none ↦ none | some f ↦ some f.offset ]

unfoldable pub write_fd_offset : Table → ℕ → ℕ → Bool × Table
unfolding get_fd
write_fd_offset t fd offset = elim (get_fd t fd) [
  | none ↦ (false, t)
  | some f ↦ (true, set t fd (some (record f { offset = offset })))
]

-- Writing the slot of a descriptor changes that descriptor alone.
get_fd-set :
    (t : Table) (fd : ℕ) (slot : Option FileDescriptor)
    → fd < length t
    → length t ≡ max_open_files
    → (get_fd (set t fd slot) fd ≡ slot)
      × ((other : ℕ) → fd ≢ other → get_fd (set t fd slot) other ≡ get_fd t other)
unfolding get_fd
get_fd-set t fd slot h sized = (
  ground (arith, get_elem?-set_self t fd slot h),
  λ other ne. rw (get_elem?-set_ne t fd other slot ne),
)

slot_of_fd :
    (t : Table) (fd : ℕ) {f : FileDescriptor}
    → get_fd t fd ≡ some f
    → get_elem? t fd ≡ some (some f)
unfolding get_fd
slot_of_fd t fd e = ground arith

-- A descriptor that is handed out was free, starts at offset 0 on its vnode with the rights
-- asked for, and disturbs no other descriptor.
pub alloc_fd-get_fd :
    (t : Table) (vnode_id rights : ℕ) {fd : ℕ}
    → length t ≡ max_open_files
    → (alloc_fd t vnode_id rights).0 ≡ ok fd
    → let u = (alloc_fd t vnode_id rights).1 in
      (fd < max_open_files)
      × (get_fd t fd ≡ none)
      × (get_fd u fd ≡ some (new vnode_id rights))
      × ((other : ℕ) → fd ≢ other → get_fd u other ≡ get_fd t other)
unfolding alloc_fd
alloc_fd-get_fd t vnode_id rights {fd} sized e = elim (Option-cases (free_index t)) [
  | inl full ↦ absurd (ground (arith, full))
  | inr (i, free) ↦
      let at = free_index-some t i free in
      let here : i ≡ fd = ground (arith, free) in
      let inside = get_elem?-lt t i at in
      let (set_here, others) = get_fd-set t i (some (new vnode_id rights)) inside sized in
      rw (free, alloc_fd, ← here) (omega (arith, inside, sized), was_free i at, set_here, others)
]
  where
    was_free : (i : ℕ) → get_elem? t i ≡ some none → get_fd t i ≡ none
    was_free i g = unfold get_fd in ground (arith, g)

-- Closing frees an open descriptor alone, and reports a closed one.
pub close_fd-get_fd :
    (t : Table) (fd : ℕ)
    → length t ≡ max_open_files
    → ((f : FileDescriptor)
        → get_fd t fd ≡ some f
        → ((close_fd t fd).0 ≡ true)
          × (get_fd (close_fd t fd).1 fd ≡ none)
          × ((other : ℕ) → fd ≢ other → get_fd (close_fd t fd).1 other ≡ get_fd t other))
      × (get_fd t fd ≡ none → close_fd t fd ≡ (false, t))
unfolding close_fd
close_fd-get_fd t fd sized = (
  λ f e.
      let (here, others) = get_fd-set t fd none (get_elem?-lt t fd (slot_of_fd t fd e)) sized in
      rw (e, close_fd) (refl, here, others),
  λ e. rw (e, close_fd),
)

-- An offset that is written is the one read back; the rest of the descriptor and every other
-- descriptor stay. A closed descriptor refuses it.
pub write_fd_offset-get_fd :
    (t : Table) (fd offset : ℕ)
    → length t ≡ max_open_files
    → ((f : FileDescriptor)
        → get_fd t fd ≡ some f
        → let (done, u) = write_fd_offset t fd offset in
          (done ≡ true)
          × (read_fd_offset u fd ≡ some offset)
          × (get_fd u fd ≡ some (record f { offset = offset }))
          × ((other : ℕ) → fd ≢ other → get_fd u other ≡ get_fd t other))
      × (get_fd t fd ≡ none → write_fd_offset t fd offset ≡ (false, t))
unfolding write_fd_offset read_fd_offset
write_fd_offset-get_fd t fd offset sized = (
  λ f e.
      let f' : FileDescriptor = record f { offset = offset } in
      let (here, others) =
        get_fd-set t fd (some f') (get_elem?-lt t fd (slot_of_fd t fd e)) sized in
      rw (e, write_fd_offset) (refl, rw (here, read_fd_offset), here, others),
  λ e. rw (e, write_fd_offset),
)
