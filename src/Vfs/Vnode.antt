-- ===== src/Vfs/Vnode.antt =====
-- kernel/src/vfs/mod.rs: the table of vnodes.
use capsule_os.Base.{
  ℕ, ◌+◌, ◌-◌, ◌%◌, ◌^◌, ◌≤◌, ◌<◌, ◌≡◌, refl, inl, inr, Bool, true, false, Option, none, some, List,
  length, set, length-set, get_elem?, replicate, length-replicate, free_index, free_index-some,
  find_index, find_key, find_key-of_index, find_index-none, find_key-set-some, find_key-set-none,
  find_key-set_keep, Distinct, Distinct-set-some, arith, ltb, ◌==◌, if◌then◌else◌, Option-cases,
  ==_of_ne, ◌∙◌,
}
use capsule_os.Base.Int.{ℤ, pos, negsuc}
use capsule_os.Shared.Status.{no_memory, usize_as_i32}
use capsule_os.Shared.Result.{Result, ok, err}

abbrev pub max_vnodes : ℕ
max_vnodes = 256

pub data VnodeType : Type 0 where
  file directory device symlink socket pipe : VnodeType

pub record Vnode : Type 0 where
  pub id : ℕ
  pub vtype : VnodeType
  pub ref_count : ℕ
  pub size : ℕ
  pub flags : ℕ

unfoldable pub new : ℕ → VnodeType → Vnode
new id vtype = record { id = id; vtype = vtype; ref_count = 1; size = 0; flags = 0 }

unfoldable pub inc_ref : Vnode → Vnode
inc_ref v = record v { ref_count = (v.ref_count + 1) % 2 ^ 32 }

-- `saturating_sub`, and the count cast to `i32`.
unfoldable pub dec_ref : Vnode → ℤ × Vnode
unfolding usize_as_i32
dec_ref v = let count = v.ref_count - 1 in (usize_as_i32 count, record v { ref_count = count })

pub record VnodeTable : Type 0 where
  pub entries : List (Option Vnode)
  pub next_id : ℕ

unfoldable pub empty : VnodeTable
empty = record { entries = replicate max_vnodes none; next_id = 1 }

unfoldable pub alloc_vnode : VnodeTable → VnodeType → Result ℕ × VnodeTable
unfolding new
alloc_vnode t vtype = elim (free_index t.entries) [
  | none ↦ (err no_memory, t)
  | some i ↦ (
    ok t.next_id,
    record {
      entries = set t.entries i (some (new t.next_id vtype));
      next_id = (t.next_id + 1) % 2 ^ 64;
    },
  )
]

-- `get_vnode` and `get_vnode_mut` make the same scan.
unfoldable pub get_vnode : VnodeTable → ℕ → Option Vnode
get_vnode t id = find_key (λ v. v.id) id t.entries

abbrev is_dead : ℤ → Bool
is_dead (pos n) = n == 0
is_dead (negsuc n) = true

unfoldable pub release_vnode : VnodeTable → ℕ → Bool × VnodeTable
unfolding dec_ref
release_vnode t id = elim (find_index (λ v. v.id) id t.entries) [
  | none ↦ (false, t)
  | some i ↦ elim (get_elem? t.entries i) [
    | none ↦ (false, t)
    | some slot ↦ elim slot [
      | none ↦ (false, t)
      | some v ↦
          let (count, v') = dec_ref v in
          (true, record t { entries = set t.entries i (if is_dead count then none else some v') })
    ]
  ]
]

-- Ids are distinct, and all of them below the next one.
pub record IsValid (t : VnodeTable) : Type 0 where
  pub sized : length t.entries ≡ max_vnodes
  pub distinct : Distinct (λ v. v.id) t.entries
  pub issued : (k : ℕ) → t.next_id ≤ k → get_vnode t k ≡ none

pub empty-IsValid : IsValid empty
unfolding empty get_vnode find_key
empty-IsValid = record {
  sized = length-replicate {A = Option Vnode} max_vnodes none;
  distinct = tt;
  issued = λ k h. refl;
}

-- A vnode that is allocated can be found, under an id that no other has and with one reference;
-- nothing else changes, and the table stays valid.
pub alloc_vnode-get_vnode :
    (t : VnodeTable) (vtype : VnodeType) {id : ℕ}
    → IsValid t
    → t.next_id + 1 < 2 ^ 64
    → (alloc_vnode t vtype).0 ≡ ok id
    → let u = (alloc_vnode t vtype).1 in
      IsValid u
      × (get_vnode t id ≡ none)
      × ((k : ℕ) → get_vnode u k ≡ (if id == k then some (new id vtype) else get_vnode t k))
unfolding alloc_vnode get_vnode
alloc_vnode-get_vnode t vtype {id} v small e = elim (Option-cases (free_index t.entries)) [
  | inl full ↦ absurd (ground (arith, full))
  | inr (i, free) ↦
      let at = free_index-some t.entries i free in
      let n = new t.next_id vtype in
      let fresh = v.issued t.next_id (omega arith) in
      let after = λ (k : ℕ). find_key-set-some (λ x. x.id) k i n t.entries at fresh in
      let is_next : t.next_id ≡ id = ground (arith, free) in
      rw (free, alloc_vnode, ← is_next)
        (
          record {
            sized = length-set t.entries i (some n) ∙ v.sized;
            distinct = Distinct-set-some (λ x. x.id) i n t.entries at fresh v.distinct;
            issued =
                λ k h. after k ∙ rw (==_of_ne t.next_id k (omega arith)) (v.issued k (omega arith));
          },
          fresh,
          after,
        )
]

-- The test of `release_vnode` on the decremented count.
dead_test :
    (m : Vnode)
    → m.ref_count ≤ 2 ^ 31
    → (if is_dead (dec_ref m).0 then none else some (dec_ref m).1)
      ≡ (if ltb m.ref_count 2 then none else some (record m { ref_count = m.ref_count - 1 }))
unfolding dec_ref
dead_test m h = ground arith

-- What writing the vnode back, or clearing its slot, does to the lookups.
released :
    (t : VnodeTable) (i : ℕ) (m : Vnode) (b : Bool) (j : ℕ)
    → IsValid t
    → get_elem? t.entries i ≡ some (some m)
    → let left : Option Vnode =
        (if b then none else some (record m { ref_count = m.ref_count - 1 })) in
      find_key (λ x. x.id) j (set t.entries i left)
      ≡ (if m.id == j then left else find_key (λ x. x.id) j t.entries)
released t i m true j v g = find_key-set-none (λ x. x.id) j i m t.entries v.distinct g
released t i m false j v g =
    find_key-set_keep (λ x. x.id) j i m (record m { ref_count = m.ref_count - 1 }) t.entries
      v.distinct g refl

-- Releasing drops one reference of the vnode, and the vnode with its last one; other vnodes stay.
-- The count is read as an `i32`, so it is taken to lie below 2 ^ 31.
pub release_vnode-get_vnode :
    (t : VnodeTable) (id : ℕ) (n : Vnode)
    → IsValid t
    → get_vnode t id ≡ some n
    → n.ref_count ≤ 2 ^ 31
    → let (done, u) = release_vnode t id in
      (done ≡ true)
      × ((k : ℕ)
          → get_vnode u k ≡ (
              if id == k
              then (if ltb n.ref_count 2
                  then none
                  else some (record n { ref_count = n.ref_count - 1 }))
              else get_vnode t k))
unfolding release_vnode get_vnode
release_vnode-get_vnode t id n v e small =
    elim (Option-cases (find_index (λ x. x.id) id t.entries)) [
      | inl missing ↦ absurd (ground (arith, find_index-none (λ x. x.id) id t.entries missing))
      | inr (i, at) ↦
          let (m, g, k, f) = find_key-of_index (λ x. x.id) id i t.entries at in
          let same : m ≡ n = ground (arith, f) in
          let left : Option Vnode =
            (if ltb m.ref_count 2 then none else some (record m { ref_count = m.ref_count - 1 })) in
          let cut : (if is_dead (dec_ref m).0 then none else some (dec_ref m).1) ≡ left =
            dead_test m (rw same small) in
          rw (at, release_vnode, g)
            (rw (cut, ← same) (refl, λ j. rw (← k) (released t i m (ltb m.ref_count 2) j v g)))
    ]
