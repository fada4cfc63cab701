-- ===== src/FileAgent/Siblings.antt =====
-- The children of a directory as the list that its links make
-- (userspace/services/fileagent/src/ramfs.rs).
use capsule_os.Base.{
  ℕ, zero, suc, ◌≤◌, ◌<◌, ◌≡◌, ◌≢◌, refl, sym, ap, ◌∙◌, inl, inr, Bool, true, false, Bool-cases,
  Option, none, some, List, [], ◌∷◌, ◌++◌, length, get_elem?, get_elem?-lt, get_elem?-set_self,
  get_elem?-set_ne, set, bytes_eq, leb, if◌then◌else◌, arith,
}
use capsule_os.FileAgent.{Node, Ramfs, max_files, ◌>>=◌, find_loop, find_child, last_sibling}

-- The link of a node, if the index is in range.
abbrev pub next_of : List Node → ℕ → Option (Option ℕ)
next_of nodes x = get_elem? nodes x >>= (λ n. some n.next_sibling)

-- The links from `cur` on lead through the nodes of a list, and end behind it.
abbrev pub Linked : List Node → Option ℕ → List ℕ → Type 0
Linked nodes cur [] = cur ≡ none
Linked nodes cur (x ∷ xs) =
    (next : Option ℕ) × (cur ≡ some x) × (next_of nodes x ≡ some next) × Linked nodes next xs

abbrev pub Absent : ℕ → List ℕ → Type 0
Absent y [] = Unit
Absent y (x ∷ xs) = (x ≢ y) × Absent y xs

abbrev pub AllDifferent : List ℕ → Type 0
AllDifferent [] = Unit
AllDifferent (x ∷ xs) = Absent x xs × AllDifferent xs

-- The reference for the search: the first of a list of nodes that has the name.
abbrev pub is_named : List Node → List ℕ → ℕ → Bool
is_named nodes name x = elim (get_elem? nodes x) [ none ↦ false | some n ↦ bytes_eq n.name name ]

unfoldable pub first_named : List Node → List ℕ → List ℕ → Option ℕ
first_named nodes name [] = none
first_named nodes name (x ∷ xs) =
    let rest = first_named nodes name xs in if is_named nodes name x then some x else rest

-- A link in range is that of a node.
pub linked_node :
    (nodes : List Node) (x : ℕ) (next : Option ℕ)
    → next_of nodes x ≡ some next
    → (n : Node) × (get_elem? nodes x ≡ some n) × (n.next_sibling ≡ next)
linked_node nodes x next h = go (get_elem? nodes x) refl
  where
    go :
        (o : Option Node)
        → get_elem? nodes x ≡ o
        → (n : Node) × (get_elem? nodes x ≡ some n) × (n.next_sibling ≡ next)
    go none e = absurd (cc (rw e at h))
    go (some n) e = (n, e, cc (rw e at h))

find_loop-none :
    (fuel : ℕ) (nodes : List Node) (name : List ℕ) → find_loop fuel nodes name none ≡ some none
unfolding find_loop
find_loop-none zero nodes name = refl
find_loop-none (suc fuel) nodes name = refl

-- With a round for each node of the list, the loop ends, with the first that has the name.
find_loop-Linked :
    (fuel : ℕ) (nodes : List Node) (name : List ℕ) (cur : Option ℕ) (xs : List ℕ)
    → Linked nodes cur xs
    → length xs ≤ fuel
    → find_loop fuel nodes name cur ≡ some (first_named nodes name xs)
unfolding find_loop first_named
find_loop-Linked fuel nodes name cur [] h enough =
    ap (find_loop fuel nodes name) h ∙ find_loop-none fuel nodes name
find_loop-Linked zero nodes name cur (x ∷ xs) h enough = absurd (omega (arith, enough))
find_loop-Linked (suc fuel) nodes name cur (x ∷ xs) (next, at, link, rest) enough =
    let (n, found, leads) = linked_node nodes x next link in
    let later = find_loop-Linked fuel nodes name next xs rest (omega (arith, enough)) in
    elim (Bool-cases (bytes_eq n.name name)) [
      | inl same ↦ rw (at, find_loop, found, same, first_named, named n true found same) refl
      | inr other ↦
          rw (at, find_loop, found, other, first_named, named n false found other)
            (ap (find_loop fuel nodes name) leads ∙ later)
    ]
  where
    named :
        (n : Node) (b : Bool)
        → get_elem? nodes x ≡ some n
        → bytes_eq n.name name ≡ b
        → is_named nodes name x ≡ b
    named n b found h = ap (λ o. elim o [ none ↦ false | some n ↦ bytes_eq n.name name ]) found ∙ h

-- `find_child` below a node whose links lead through at most 16 children returns the first child that has
-- the name, or nothing when none has; so its loop ends.
pub find_child-first_named :
    (s : Ramfs) (parent : ℕ) (p : Node) (name xs : List ℕ)
    → parent < max_files
    → get_elem? s.nodes parent ≡ some p
    → Linked s.nodes p.first_child xs
    → length xs ≤ max_files
    → find_child parent name s ≡ some (first_named s.nodes name xs)
unfolding find_child
find_child-first_named s parent p name xs inside at linked few =
    let test : leb max_files parent ≡ false = ground (arith, inside) in
    rw (find_child, test, at) (find_loop-Linked max_files s.nodes name p.first_child xs linked few)

-- The last of a list that is not empty.
abbrev pub last_of : ℕ → List ℕ → ℕ
last_of x [] = x
last_of x (y ∷ ys) = last_of y ys

pub last_sibling-Linked :
    (fuel : ℕ) (nodes : List Node) (x : ℕ) (xs : List ℕ)
    → Linked nodes (some x) (x ∷ xs)
    → length (x ∷ xs) ≤ fuel
    → last_sibling fuel nodes x ≡ some (last_of x xs)
unfolding last_sibling
last_sibling-Linked zero nodes x xs h enough = absurd (omega (arith, enough))
last_sibling-Linked (suc fuel) nodes x [] (next, at, link, rest) enough =
    let (n, found, leads) = linked_node nodes x next link in
    rw (last_sibling, found)
      (ap (λ k. elim k [ none ↦ some x | some y ↦ last_sibling fuel nodes y ]) (leads ∙ rest))
last_sibling-Linked (suc fuel) nodes x (y ∷ ys) (next, at, link, (next_y, at_y, link_y, rest))
      enough =
    let (n, found, leads) = linked_node nodes x next link in
    rw (last_sibling, found)
      (ap (λ k. elim k [ none ↦ some x | some z ↦ last_sibling fuel nodes z ]) (leads ∙ at_y)
        ∙ last_sibling-Linked fuel nodes y ys (next_y, refl, link_y, rest) (omega (arith, enough)))

-- A node that is not in the list may change.
pub Linked-set :
    (nodes : List Node) (y : ℕ) (v : Node) (cur : Option ℕ) (xs : List ℕ)
    → Absent y xs
    → Linked nodes cur xs
    → Linked (set nodes y v) cur xs
Linked-set nodes y v cur [] absent h = h
Linked-set nodes y v cur (x ∷ xs) (other, absent) (next, at, link, rest) = (
  next,
  at,
  ap (λ o. o >>= (λ n. some n.next_sibling)) (get_elem?-set_ne nodes y x v (λ e. other (sym e)))
      ∙ link,
  Linked-set nodes y v next xs absent rest,
)

pub last_of-ne : (y x : ℕ) (xs : List ℕ) → Absent y (x ∷ xs) → last_of x xs ≢ y
last_of-ne y x [] (other, _) = other
last_of-ne y x (z ∷ zs) (_, absent) = last_of-ne y z zs absent

-- The last node's link leads to a node that is not in the list and ends it.
pub Linked-append :
    (nodes : List Node) (idx x : ℕ) (xs : List ℕ) (v : Node)
    → AllDifferent (x ∷ xs)
    → Absent idx (x ∷ xs)
    → next_of nodes idx ≡ some none
    → v.next_sibling ≡ some idx
    → Linked nodes (some x) (x ∷ xs)
    → Linked (set nodes (last_of x xs) v) (some x) (x ∷ (xs ++ (idx ∷ [])))
Linked-append nodes idx x [] v _ (other, _) ends leads (next, at, link, rest) =
    let (n, found, _) = linked_node nodes x next link in
    (
      some idx,
      refl,
      rw (get_elem?-set_self nodes x v (get_elem?-lt nodes x found)) (ap some leads),
      (
        none,
        refl,
        ap (λ o. o >>= (λ n. some n.next_sibling)) (get_elem?-set_ne nodes x idx v other) ∙ ends,
        refl,
      ),
    )
Linked-append nodes idx x (y ∷ ys) v (absent, different) (other, absent_idx) ends leads
      (next, at, link, (next_y, at_y, link_y, rest)) =
    (
      some y,
      refl,
      ap (λ o. o >>= (λ n. some n.next_sibling))
            (get_elem?-set_ne nodes (last_of y ys) x v (last_of-ne x y ys absent))
          ∙ link
          ∙ ap some at_y,
      Linked-append nodes idx y ys v different absent_idx ends leads (next_y, refl, link_y, rest),
    )

pub last_node :
    (nodes : List Node) (x : ℕ) (xs : List ℕ)
    → Linked nodes (some x) (x ∷ xs)
    → (n : Node) × (get_elem? nodes (last_of x xs) ≡ some n)
last_node nodes x [] (next, at, link, rest) =
    let (n, found, _) = linked_node nodes x next link in (n, found)
last_node nodes x (y ∷ ys) (next, at, link, (next_y, at_y, link_y, rest)) =
    last_node nodes y ys (next_y, refl, link_y, rest)
