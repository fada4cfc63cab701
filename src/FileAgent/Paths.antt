-- ===== src/FileAgent/Paths.antt =====
-- The paths of the file service (userspace/services/fileagent/src/ramfs.rs). A text is the list of its
-- bytes.
use capsule_os.Base.{
  ℕ, not, Option, none, some, List, [], ◌∷◌, ◌++◌, get_elem?, ◌==◌, if◌then◌else◌,
}
use capsule_os.Base.Int.{ℤ, pos}
use capsule_os.Shared.Status.{discriminant, not_found, already_exists, wrong_type, no_memory}
use capsule_os.FileAgent.{file, directory, Ramfs, max_files, ◌>>=◌, find_loop, create}

-- A leading slash is dropped.
unfoldable pub clean : List ℕ → List ℕ
clean [] = []
clean (c ∷ path) = if c == 47 then path else c ∷ path

-- `split('/')`, after the bytes of the current part: the parts, empty ones left out.
unfoldable pub components_from : List ℕ → List ℕ → List (List ℕ)
components_from [] [] = []
components_from (c ∷ part) [] = (c ∷ part) ∷ []
components_from [] (b ∷ path) =
    if b == 47 then components_from [] path else components_from (b ∷ []) path
components_from (c ∷ part) (b ∷ path) =
    if b == 47
    then (c ∷ part) ∷ components_from [] path
    else components_from (c ∷ part ++ (b ∷ [])) path

unfoldable pub components : List ℕ → List (List ℕ)
unfolding components_from
components path = components_from [] path

-- One component below a node, of whatever type.
unfoldable pub step_down : ℕ → List ℕ → Ramfs → Option (Option ℕ)
unfolding find_loop
step_down current component s =
    get_elem? s.nodes current >>= (λ n. find_loop max_files s.nodes component n.first_child)

unfoldable pub resolve_from : List (List ℕ) → ℕ → Ramfs → Option (Option ℕ)
unfolding step_down
resolve_from [] current s = some (some current)
resolve_from (c ∷ cs) current s =
    step_down current c s
    >>= (λ found. elim found [ none ↦ some none | some next ↦ resolve_from cs next s ])

unfoldable pub resolve : List ℕ → Ramfs → Option (Option ℕ)
unfolding resolve_from clean components
resolve path s = elim (s.root) [
  | none ↦ some none
  | some root ↦ resolve_from (components (clean path)) root s
]

-- The loop of `mkdir_path`.
unfoldable pub mkdir_from : List (List ℕ) → ℕ → Ramfs → Option (ℤ × Ramfs)
unfolding step_down
mkdir_from [] current s = some (pos 0, s)
mkdir_from (c ∷ cs) current s = step_down current c s >>= (λ found. elim found [
  | some next ↦ elim cs [
    | [] ↦ some (discriminant already_exists, s)
    | _ ∷ _ ↦ get_elem? s.nodes next >>= (λ n.
        if not (n.ntype == 2) then some (discriminant wrong_type, s) else mkdir_from cs next s)
  ]
  | none ↦ create directory current c s >>= (λ made.
      let (new, s1) = made in
      elim new [ none ↦ some (discriminant no_memory, s1) | some next ↦ mkdir_from cs next s1 ])
])

unfoldable pub mkdir_path : List ℕ → Ramfs → Option (ℤ × Ramfs)
unfolding mkdir_from clean components
mkdir_path path s = elim (clean path) [
  | [] ↦ some (pos 0, s)
  | b ∷ rest ↦ elim (s.root) [
    | none ↦ some (discriminant not_found, s)
    | some root ↦ mkdir_from (components (b ∷ rest)) root s
  ]
]

-- `rfind('/')`: the parts before and after the last slash.
unfoldable pub split_last : List ℕ → Option (List ℕ × List ℕ)
split_last [] = none
split_last (b ∷ path) = elim (split_last path) [
  | some (before, after) ↦ some (b ∷ before, after)
  | none ↦ if b == 47 then some ([], path) else none
]

unfoldable pub create_file_path : List ℕ → Ramfs → Option (Option ℕ × Ramfs)
unfolding clean resolve split_last create
create_file_path path s = elim (clean path) [
  | [] ↦ some (none, s)
  | b ∷ rest ↦ elim (split_last (b ∷ rest)) [
    | none ↦ elim (s.root) [ none ↦ some (none, s) | some root ↦ create file root (b ∷ rest) s ]
    | some (parent_path, file_name) ↦
        resolve parent_path s
        >>= (λ parent. elim parent [ none ↦ some (none, s) | some p ↦ create file p file_name s ])
  ]
]
