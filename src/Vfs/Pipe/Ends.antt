-- ===== src/Vfs/Pipe/Ends.antt =====
-- The life of a pipe: allocation, the counts of its ends, and release (kernel/src/vfs/pipe.rs).
use capsule_os.Base.{
  ℕ, ◌+◌, ◌-◌, ◌%◌, ◌^◌, ◌≤◌, ◌<◌, ◌&&◌, ◌≡◌, ◌≢◌, refl, inl, inr, ◌∙◌, ap, Option, none, some,
  length, get_elem?, set, get_elem?-set_self, get_elem?-set_ne, get_elem?-lt, arith, leb, ◌==◌,
  if◌then◌else◌, Bool-cases,
}
use capsule_os.Shared.Status.{no_memory}
use capsule_os.Shared.Result.{ok, err}
use capsule_os.Vfs.Pipe.{
  Pipe, Pipes, PipeRole, read, write, max_pipes, new_uninit, alloc_pipe, pipe_clone_role,
  pipe_close_role, bump, drop_end,
}

-- The pipe of an id, if its slot is in use.
abbrev pub pipe_at : Pipes → ℕ → Option Pipe
pipe_at s id = elim (get_elem? s.table id) [ none ↦ none | some slot ↦ slot ]

-- How many ends of a role are open.
abbrev pub ends : Pipe → PipeRole → ℕ
ends p read = p.n_readers
ends p write = p.n_writers

pub slot_of_pipe :
    (s : Pipes) (id : ℕ) {p : Pipe} → pipe_at s id ≡ some p → get_elem? s.table id ≡ some (some p)
slot_of_pipe s id e = ground arith

-- Writing a slot that is in range changes that pipe alone.
pub pipe_at-set :
    (s : Pipes) (id : ℕ) (slot : Option Pipe)
    → id < length s.table
    → let t : Pipes = record s { table = set s.table id slot } in
      (pipe_at t id ≡ slot) × ((other : ℕ) → id ≢ other → pipe_at t other ≡ pipe_at s other)
pipe_at-set s id slot h = (
  rw (get_elem?-set_self s.table id slot h, pipe_at),
  λ other ne. rw (get_elem?-set_ne s.table id other slot ne, pipe_at),
)

-- Allocation takes the next id, gives it an empty pipe with one end of each role, and leaves the
-- other pipes; ids are never taken again, so once sixteen pipes have been allocated every call
-- fails, whether or not their slots have been released.
pub alloc_pipe-fresh :
    (s : Pipes)
    → length s.table ≡ max_pipes
    → s.next_pipe_id < 2 ^ 32
    → let (r, t) = alloc_pipe s in
      (t.next_pipe_id ≡ s.next_pipe_id + 1)
      × (s.next_pipe_id < max_pipes
          → (r ≡ ok s.next_pipe_id)
            × (pipe_at t s.next_pipe_id ≡ some (record new_uninit { n_readers = 1; n_writers = 1 }))
            × ((id : ℕ) → s.next_pipe_id ≢ id → pipe_at t id ≡ pipe_at s id))
      × (max_pipes ≤ s.next_pipe_id → (r ≡ err no_memory) × (t.table ≡ s.table))
unfolding alloc_pipe
alloc_pipe-fresh s sized small =
    let low : s.next_pipe_id % 2 ^ 32 ≡ s.next_pipe_id = omega arith in
    elim (Bool-cases (leb max_pipes s.next_pipe_id)) [
      | inl full ↦
          rw (low, full) (omega arith, λ h. absurd (ground (arith, full)), λ h. (refl, refl))
      | inr free ↦
          rw (low, free)
            (
              omega arith,
              λ h.
                  let (here, others) =
                    pipe_at-set s s.next_pipe_id
                      (some (record new_uninit { n_readers = 1; n_writers = 1 }))
                      (omega (arith, sized)) in
                  (refl, here, others),
              λ h. absurd (ground (arith, free)),
            )
    ]

-- The slot after one end has been closed.
abbrev slot_left : Pipe → Option Pipe
slot_left q = if q.n_readers == 0 && q.n_writers == 0 then none else some q

close-exact :
    (s : Pipes) (id : ℕ) (role : PipeRole) (p : Pipe)
    → pipe_at s id ≡ some p
    → (t : Pipes) × (pipe_close_role s id role ≡ some t)
      × (pipe_at t id ≡ slot_left (drop_end p role))
      × ((other : ℕ) → id ≢ other → pipe_at t other ≡ pipe_at s other)
unfolding pipe_close_role
close-exact s id role p e =
    let g = slot_of_pipe s id e in
    let left = slot_left (drop_end p role) in
    let (here, others) = pipe_at-set s id left (get_elem?-lt s.table id g) in
    (record s { table = set s.table id left }, rw (g, pipe_close_role), here, others)

ends-drop_end : (p : Pipe) (r : PipeRole) → ends (drop_end p r) r ≡ ends p r - 1
unfolding drop_end
ends-drop_end p read = refl
ends-drop_end p write = refl

drop_end-bump : (p : Pipe) (r : PipeRole) → drop_end (bump p r) r ≡ p
unfolding drop_end bump
drop_end-bump p read = ground arith
drop_end-bump p write = ground arith

-- Closing one end of a pipe: its count falls by one, and not below zero; the slot is released
-- exactly when no end of either role is left; the other pipes stay.
pub pipe_close_role-ends :
    (s : Pipes) (id : ℕ) (role : PipeRole) (p : Pipe)
    → pipe_at s id ≡ some p
    → (t : Pipes) × (q : Pipe) × (pipe_close_role s id role ≡ some t)
      × (ends q role ≡ ends p role - 1)
      × (pipe_at t id ≡ (if ends q read == 0 && ends q write == 0 then none else some q))
      × ((other : ℕ) → id ≢ other → pipe_at t other ≡ pipe_at s other)
pipe_close_role-ends s id role p e =
    let (t, c, here, others) = close-exact s id role p e in
    (t, drop_end p role, c, ends-drop_end p role, here, others)

-- Cloning an end of a pipe adds one to the count of its role, and closing it again restores the
-- pipe; the other pipes stay.
pub pipe_close_role-clone :
    (s : Pipes) (id : ℕ) (role : PipeRole) (p : Pipe)
    → pipe_at s id ≡ some p
    → (t : Pipes) × (u : Pipes) × (q : Pipe) × (pipe_clone_role s id role ≡ some t)
      × (pipe_close_role t id role ≡ some u)
      × (pipe_at t id ≡ some q)
      × (ends q role ≡ ends p role + 1)
      × (0 < ends p read + ends p write → pipe_at u id ≡ some p)
      × ((other : ℕ) → id ≢ other → pipe_at u other ≡ pipe_at s other)
unfolding pipe_clone_role
pipe_close_role-clone s id role p e =
    let g = slot_of_pipe s id e in
    let h = get_elem?-lt s.table id g in
    let t : Pipes = record s { table = set s.table id (some (bump p role)) } in
    let (here, others) = pipe_at-set s id (some (bump p role)) h in
    let (u, closed, left, rest) = close-exact t id role (bump p role) here in
    (
      t,
      u,
      bump p role,
      rw (g, pipe_clone_role),
      closed,
      here,
      more role,
      λ open_ends. left ∙ ap slot_left (drop_end-bump p role) ∙ ground arith,
      λ other ne. rest other ne ∙ others other ne,
    )
  where
    more : (r : PipeRole) → ends (bump p r) r ≡ ends p r + 1
    more read = refl
    more write = refl
