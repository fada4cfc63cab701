-- ===== src/FileAgent.antt =====
-- The file service: the nodes of its file system in memory
-- (userspace/services/fileagent/src/ramfs.rs). The arrays of the nodes' fields are one list of nodes,
-- and an index of -1 is `none`. A result of `none` in place of a state stands for a panic, or for a
-- list of siblings without an end.
pub mod Paths
pub mod Sessions
pub mod Contents
pub mod Siblings
pub mod Names
pub mod Creation
use capsule_os.Base.{
  ℕ, zero, suc, ◌+◌, ◌-◌, ◌%◌, min, Bool, true, false, not, ◌&&◌, ◌||◌, Option, none, some, List,
  [], ◌∷◌, ◌++◌, length, get_elem?, set, take, drop, replicate, bytes_eq, ltb, leb, ◌==◌,
  if◌then◌else◌,
}
use capsule_os.Base.Int.{ℤ, pos, negsuc}
use capsule_os.Base.Slices.{splice}

abbrev pub max_files : ℕ
max_files = 16

abbrev pub max_name : ℕ
max_name = 64

abbrev pub file_size : ℕ
file_size = 4096

pub data NodeType : Type 0 where
  file directory : NodeType

-- The fields of a node; the name is the part of the array that its length covers. A type of 0 is that of
-- a free slot, 1 of a file, and 2 of a directory.
pub record Node : Type 0 where
  pub name : List ℕ
  pub ntype : ℕ
  pub size : ℕ
  pub parent : Option ℕ
  pub first_child : Option ℕ
  pub next_sibling : Option ℕ
  pub child_count : ℕ
  pub contents : List ℕ

abbrev pub blank : Node
blank = record {
  name = [];
  ntype = 0;
  size = 0;
  parent = none;
  first_child = none;
  next_sibling = none;
  child_count = 0;
  contents = replicate file_size 0;
}

pub record Ramfs : Type 0 where
  pub nodes : List Node
  pub root : Option ℕ
  pub next_idx : ℕ

-- The statics, as the program starts.
abbrev pub empty : Ramfs
empty = record { nodes = replicate max_files blank; root = none; next_idx = 0 }

infixl 5 ◌>>=◌
abbrev pub ◌>>=◌ {ℓ κ} : {A : Type ℓ} {B : Type κ} → Option A → (A → Option B) → Option B
none >>= f = none
some a >>= f = f a

-- A change of one node; an index out of range panics.
abbrev pub modify : ℕ → (Node → Node) → Ramfs → Option Ramfs
modify i change s =
    get_elem? s.nodes i >>= (λ n. some (record s { nodes = set s.nodes i (change n) }))

unfoldable pub init : Ramfs → Option Ramfs
init s =
    modify 0 (λ n. record n { ntype = 2; name = 47 ∷ [] })
      (record s { root = some 0; next_idx = 1 })

-- The loop of `alloc_idx` over the slots from `j` on.
unfoldable pub first_free : List Node → ℕ → Option ℕ
first_free [] j = none
first_free (n ∷ nodes) j =
    let rest = first_free nodes (j + 1) in if n.ntype == 0 then some j else rest

unfoldable pub alloc_idx : Ramfs → Option ℕ × Ramfs
unfolding first_free
alloc_idx s =
    if ltb s.next_idx max_files
    then (some s.next_idx, record s { next_idx = s.next_idx + 1 })
    else elim (first_free (drop 1 s.nodes) 1) [
      | none ↦ (none, s)
      | some j ↦ (some j, record s { next_idx = j + 1 })
    ]

unfoldable pub type_code : NodeType → ℕ
type_code file = 1
type_code directory = 2

-- The loop that looks for the last sibling, over the nodes.
unfoldable pub last_sibling : ℕ → List Node → ℕ → Option ℕ
last_sibling zero nodes cur = none
last_sibling (suc fuel) nodes cur =
    get_elem? nodes cur
    >>= (λ n. elim (n.next_sibling) [ none ↦ some cur | some next ↦ last_sibling fuel nodes next ])

-- The new node at the end of its parent's children.
unfoldable pub add_child : ℕ → ℕ → Ramfs → Option Ramfs
unfolding last_sibling
add_child parent idx s = get_elem? s.nodes parent >>= (λ p.
    let counted : Ramfs → Option Ramfs =
      modify parent (λ n. record n { child_count = (n.child_count + 1) % 256 }) in
    elim (p.first_child) [
      | none ↦ modify parent (λ n. record n { first_child = some idx }) s >>= counted
      | some first ↦
          last_sibling max_files s.nodes first
          >>= (λ last. modify last (λ n. record n { next_sibling = some idx }) s >>= counted)
    ])

-- `set_node` below a parent, with the slot. The name is cut to 63 bytes; the contents stay.
unfoldable pub fill_slot : List ℕ → NodeType → ℕ → Option ℕ × Ramfs → Option (Option ℕ × Ramfs)
unfolding type_code add_child
fill_slot name ntype parent (none, s) = some (none, s)
fill_slot name ntype parent (some idx, s) =
    modify idx
      (λ n. record n {
        name = take (max_name - 1) name;
        ntype = type_code ntype;
        size = 0;
        parent = some parent;
        first_child = none;
        next_sibling = none;
        child_count = 0;
      })
      s
    >>= add_child parent idx
    >>= (λ s'. some (some idx, s'))

unfoldable pub set_node : List ℕ → NodeType → ℕ → Ramfs → Option (Option ℕ × Ramfs)
unfolding alloc_idx fill_slot
set_node name ntype parent s = fill_slot name ntype parent (alloc_idx s)

-- The loop of `find_child` over the siblings from `cur` on.
unfoldable pub find_loop : ℕ → List Node → List ℕ → Option ℕ → Option (Option ℕ)
find_loop fuel nodes name none = some none
find_loop zero nodes name (some cur) = none
find_loop (suc fuel) nodes name (some cur) = get_elem? nodes cur >>= (λ n.
    let rest = find_loop fuel nodes name n.next_sibling in
    if bytes_eq n.name name then some (some cur) else rest)

unfoldable pub find_child : ℕ → List ℕ → Ramfs → Option (Option ℕ)
unfolding find_loop
find_child parent name s =
    if leb max_files parent
    then some none
    else get_elem? s.nodes parent >>= (λ p. find_loop max_files s.nodes name p.first_child)

-- `create_file` and `create_dir`.
unfoldable pub create : NodeType → ℕ → List ℕ → Ramfs → Option (Option ℕ × Ramfs)
unfolding find_child set_node
create ntype parent name s =
    if leb max_files parent
    then some (none, s)
    else get_elem? s.nodes parent >>= (λ p.
      if not (p.ntype == 2)
      then some (none, s)
      else find_child parent name s
        >>= (λ found. elim found [ some _ ↦ some (none, s) | none ↦ set_node name ntype parent s ]))

-- `read` into a buffer of a length: the code, and the bytes.
unfoldable pub read : ℕ → ℕ → ℕ → Ramfs → ℤ × List ℕ
read idx len offset s = elim (get_elem? s.nodes idx) [
  | none ↦ (negsuc 0, [])
  | some n ↦
      let read_len = min len (n.size - offset) in
      if n.ntype == 0
      then (negsuc 0, [])
      else if leb n.size offset
      then (pos 0, [])
      else (pos read_len, take read_len (drop offset n.contents))
]

-- `write`: an offset behind the end of the array panics.
unfoldable pub write : ℕ → List ℕ → ℕ → Ramfs → Option (ℤ × Ramfs)
write idx bytes offset s = elim (get_elem? s.nodes idx) [
  | none ↦ some (negsuc 0, s)
  | some n ↦
      let write_len = min (length bytes) (file_size - offset) in
      let new_size = offset + write_len in
      if not (n.ntype == 1)
      then some (negsuc 0, s)
      else if ltb file_size offset
      then none
      else some (
        pos write_len,
        record s {
          nodes = set s.nodes idx (record n {
            contents = splice offset (take write_len bytes) n.contents;
            size = if ltb n.size new_size then new_size else n.size;
          });
        },
      )
]

unfoldable pub stat_size : ℕ → Ramfs → ℤ
stat_size idx s = elim (get_elem? s.nodes idx) [
  | none ↦ negsuc 0
  | some n ↦ if n.ntype == 0 then negsuc 0 else pos n.size
]

unfoldable pub stat_type : ℕ → Ramfs → Option NodeType
stat_type idx s = elim (get_elem? s.nodes idx) [
  | none ↦ none
  | some n ↦ if n.ntype == 1 then some file else if n.ntype == 2 then some directory else none
]

-- The node is taken out of the list: its predecessor, or the parent, skips it.
unfoldable pub unlink_child : ℕ → Option ℕ → Option ℕ → Ramfs → Option Ramfs
unlink_child parent none next s = modify parent (λ n. record n { first_child = next }) s
unlink_child parent (some prev) next s = modify prev (λ n. record n { next_sibling = next }) s

-- The loop of `remove`.
unfoldable pub remove_loop : ℕ → ℕ → ℕ → Option ℕ → Option ℕ → Ramfs → Option (Bool × Ramfs)
unfolding unlink_child
remove_loop fuel parent child prev none s = some (false, s)
remove_loop zero parent child prev (some cur) s = none
remove_loop (suc fuel) parent child prev (some cur) s = get_elem? s.nodes cur >>= (λ n.
    let rest = remove_loop fuel parent child (some cur) n.next_sibling s in
    if cur == child
    then unlink_child parent prev n.next_sibling s
      >>= modify parent (λ p. record p { child_count = (p.child_count + 255) % 256 })
      >>= modify cur (λ _. blank)
      >>= (λ s'. some (true, s'))
    else rest)

unfoldable pub remove : ℕ → ℕ → Ramfs → Option (Bool × Ramfs)
unfolding remove_loop
remove parent child s =
    if leb max_files parent || leb max_files child
    then some (false, s)
    else get_elem? s.nodes child >>= (λ n.
      if (n.ntype == 2) && ltb 0 n.child_count
      then some (false, s)
      else if n.ntype == 0
      then some (false, s)
      else get_elem? s.nodes parent
        >>= (λ p. remove_loop max_files parent child none p.first_child s))

unfoldable pub parent_of : ℕ → Ramfs → Option ℕ
parent_of child s = get_elem? s.nodes child >>= (λ n. n.parent)

-- The loop of `readdir_names` with the bytes written so far; a full buffer cuts the names.
unfoldable pub names_loop : ℕ → List Node → ℕ → Bool → List ℕ → Option ℕ → Option (List ℕ)
names_loop fuel nodes len first written none = some written
names_loop zero nodes len first written (some cur) = none
names_loop (suc fuel) nodes len first written (some cur) =
    let separated = if first then written else written ++ (10 ∷ []) in
    if not first && leb len (length written)
    then some written
    else get_elem? nodes cur >>= (λ n.
      names_loop fuel nodes len false (separated ++ take (len - length separated) n.name)
        n.next_sibling)

unfoldable pub readdir_names : ℕ → ℕ → Ramfs → Option (ℤ × List ℕ)
unfolding names_loop
readdir_names parent len s = elim (get_elem? s.nodes parent) [
  | none ↦ some (negsuc 0, [])
  | some p ↦
      if not (p.ntype == 2)
      then some (negsuc 0, [])
      else names_loop max_files s.nodes len true [] p.first_child
        >>= (λ names. some (pos (length names), names))
]
