-- ===== src/FileAgent/Creation.antt =====
-- A new node is found below its parent, and the other children as before
-- (userspace/services/fileagent/src/ramfs.rs).
use capsule_os.Base.{
  ℕ, ◌+◌, ◌%◌, ◌≤◌, ◌<◌, ◌≡◌, ◌≢◌, refl, sym, ap, subst, ◌∙◌, inl, inr, true, false, not,
  Bool-cases, Option, none, some, List, [], ◌∷◌, ◌++◌, length, length-append, take, take-all, drop,
  get_elem?, get_elem?-lt, get_elem?-set_self, get_elem?-set_ne, set, bytes_eq, bytes_eq_refl,
  bytes_eq_sound, ltb, leb, ◌==◌, if◌then◌else◌, arith,
}
use capsule_os.FileAgent.{
  NodeType, file, Node, Ramfs, max_files, first_free, stat_type, ◌>>=◌, alloc_idx, type_code,
  add_child, set_node, fill_slot, find_child, create,
}
use capsule_os.FileAgent.Names.{
  is_named-other, is_named-at, is_named-kept, first_named-agree, first_named-append,
  first_named-unnamed,
}
use capsule_os.FileAgent.Siblings.{
  next_of, Linked, Absent, AllDifferent, is_named, first_named, find_child-first_named, last_of,
  last_of-ne, last_node, last_sibling-Linked, Linked-set, Linked-append,
}

-- What `add_child` does to the children of the parent and to the names.
record IsAdded (s s' : Ramfs) (parent idx : ℕ) (xs : List ℕ) : Type 0 where
  p : Node
  at : get_elem? s'.nodes parent ≡ some p
  linked : Linked s'.nodes p.first_child (xs ++ (idx ∷ []))
  kept : (x : ℕ) (name : List ℕ) → is_named s'.nodes name x ≡ is_named s.nodes name x

-- The first child.
add_child-first :
    (s : Ramfs) (parent idx : ℕ) (p : Node)
    → get_elem? s.nodes parent ≡ some p
    → p.first_child ≡ none
    → parent ≢ idx
    → next_of s.nodes idx ≡ some none
    → (s' : Ramfs) × (add_child parent idx s ≡ some s') × IsAdded s s' parent idx []
unfolding add_child
add_child-first s parent idx p at empty differ ends =
    let p2 : Node = record p { first_child = some idx } in
    let p3 : Node = record p2 { child_count = (p.child_count + 1) % 256 } in
    let nodes2 = set s.nodes parent p2 in
    let nodes3 = set nodes2 parent p3 in
    let at2 = get_elem?-set_self s.nodes parent p2 (get_elem?-lt s.nodes parent at) in
    let at3 = get_elem?-set_self nodes2 parent p3 (get_elem?-lt nodes2 parent at2) in
    let end3 : next_of nodes3 idx ≡ some none =
      ap (λ o. o >>= (λ n. some n.next_sibling))
        (get_elem?-set_ne nodes2 parent idx p3 differ
          ∙ get_elem?-set_ne s.nodes parent idx p2 differ)
      ∙ ends in
    (
      record s { nodes = nodes3 },
      rw (add_child, at, empty, at, at2) refl,
      record {
        p = p3;
        at = at3;
        linked = (none, refl, end3, refl);
        kept = λ x name.
            is_named-kept nodes2 parent x p2 p3 name at2 refl
            ∙ is_named-kept s.nodes parent x p p2 name at refl;
      },
    )

Absent-append : (y idx : ℕ) (xs : List ℕ) → Absent y xs → idx ≢ y → Absent y (xs ++ (idx ∷ []))
Absent-append y idx [] absent h = (h, tt)
Absent-append y idx (x ∷ xs) (other, absent) h = (other, Absent-append y idx xs absent h)

-- A later child.
add_child-next :
    (s : Ramfs) (parent idx x : ℕ) (xs : List ℕ) (p : Node)
    → get_elem? s.nodes parent ≡ some p
    → p.first_child ≡ some x
    → Linked s.nodes (some x) (x ∷ xs)
    → length (x ∷ xs) ≤ max_files
    → AllDifferent (x ∷ xs)
    → Absent parent (x ∷ xs)
    → Absent idx (x ∷ xs)
    → parent ≢ idx
    → next_of s.nodes idx ≡ some none
    → (s' : Ramfs) × (add_child parent idx s ≡ some s') × IsAdded s s' parent idx (x ∷ xs)
unfolding add_child
add_child-next s parent idx x xs p at first linked few different no_parent fresh differ ends =
    let last = last_of x xs in
    let (ln, at_last) = last_node s.nodes x xs linked in
    let ln' : Node = record ln { next_sibling = some idx } in
    let p' : Node = record p { child_count = (p.child_count + 1) % 256 } in
    let nodes2 = set s.nodes last ln' in
    let nodes3 = set nodes2 parent p' in
    let no_last : last ≢ parent = last_of-ne parent x xs no_parent in
    let at2 : get_elem? nodes2 parent ≡ some p =
      get_elem?-set_ne s.nodes last parent ln' no_last ∙ at in
    let found = last_sibling-Linked max_files s.nodes x xs linked few in
    let longer = Linked-append s.nodes idx x xs ln' different fresh ends refl linked in
    let far : Absent parent (x ∷ (xs ++ (idx ∷ []))) =
      Absent-append parent idx (x ∷ xs) no_parent (λ e. differ (sym e)) in
    (
      record s { nodes = nodes3 },
      rw (add_child, at, first, found, at_last, at2, first) refl,
      record {
        p = p';
        at = get_elem?-set_self nodes2 parent p' (get_elem?-lt nodes2 parent at2);
        linked =
            subst (λ c. Linked nodes3 c (x ∷ (xs ++ (idx ∷ [])))) (sym first)
              (Linked-set nodes2 parent p' (some x) (x ∷ (xs ++ (idx ∷ []))) far longer);
        kept = λ y name.
            is_named-kept nodes2 parent y p p' name at2 refl
            ∙ is_named-kept s.nodes last y ln ln' name at_last refl;
      },
    )

add_child-IsAdded :
    (s : Ramfs) (parent idx : ℕ) (xs : List ℕ) (p : Node)
    → get_elem? s.nodes parent ≡ some p
    → Linked s.nodes p.first_child xs
    → length xs ≤ max_files
    → AllDifferent xs
    → Absent parent xs
    → Absent idx xs
    → parent ≢ idx
    → next_of s.nodes idx ≡ some none
    → (s' : Ramfs) × (add_child parent idx s ≡ some s') × IsAdded s s' parent idx xs
add_child-IsAdded s parent idx [] p at linked few different no_parent fresh differ ends =
    add_child-first s parent idx p at linked differ ends
add_child-IsAdded s parent idx (x ∷ xs) p at (next, first, link, rest) few different no_parent fresh
      differ ends =
    add_child-next s parent idx x xs p at first (next, refl, link, rest) few different no_parent
      fresh differ ends

-- A directory whose children are a list of different nodes, at most 15 of them, and a free slot to give
-- to the next node.
pub record HasRoom (s : Ramfs) (parent : ℕ) (xs : List ℕ) : Type 0 where
  pub p : Node
  pub old : Node
  pub parent_at : get_elem? s.nodes parent ≡ some p
  pub is_directory : p.ntype ≡ 2
  pub inside : parent < max_files
  pub linked : Linked s.nodes p.first_child xs
  pub few : length xs < max_files
  pub different : AllDifferent xs
  pub no_parent : Absent parent xs
  pub next : s.next_idx < max_files
  pub next_at : get_elem? s.nodes s.next_idx ≡ some old
  pub fresh : Absent s.next_idx xs
  pub differ : parent ≢ s.next_idx

-- The node before it is linked.
abbrev prepared : ℕ → List ℕ → NodeType → Node → Node
prepared parent name ntype old = record old {
  name = take 63 name;
  ntype = type_code ntype;
  size = 0;
  parent = some parent;
  first_child = none;
  next_sibling = none;
  child_count = 0;
}

-- The slots are given in order, as long as there is one that was never given.
next_slot :
    (s : Ramfs)
    → s.next_idx < max_files
    → alloc_idx s ≡ (some s.next_idx, record s { next_idx = s.next_idx + 1 })
unfolding alloc_idx
next_slot s h =
    let test : ltb s.next_idx max_files ≡ true = ground (arith, h) in rw (alloc_idx, test) refl

-- The guards of `create_file` and `create_dir`.
create-set_node :
    (s : Ramfs) (parent : ℕ) (name : List ℕ) (ntype : NodeType) (p : Node)
    → parent < max_files
    → get_elem? s.nodes parent ≡ some p
    → p.ntype ≡ 2
    → find_child parent name s ≡ some none
    → create ntype parent name s ≡ set_node name ntype parent s
unfolding create
create-set_node s parent name ntype p inside at typed missing =
    let no_limit : leb max_files parent ≡ false = ground (arith, inside) in
    ap
      (λ b.
        if b
        then some (none, s)
        else get_elem? s.nodes parent >>= (λ p.
          if not (p.ntype == 2) then some (none, s) else find_child parent name s >>= answer))
      no_limit
    ∙ ap
        (λ o. o >>= (λ p.
          if not (p.ntype == 2) then some (none, s) else find_child parent name s >>= answer))
        at
    ∙ ap (λ k. if not (k == 2) then some (none, s) else find_child parent name s >>= answer) typed
    ∙ ap (λ o. o >>= answer) missing
  where
    answer : Option ℕ → Option (Option ℕ × Ramfs)
    answer (some _) = some (none, s)
    answer none = set_node name ntype parent s

-- Where a directory has room, a name of at most 63 bytes that it does not have yet is given to a new file
-- or directory, in the next slot. The name is then found there, and any other name leads where it did
-- before.
pub create-find_child :
    (s : Ramfs) (parent : ℕ) (xs name other : List ℕ) (ntype : NodeType)
    → HasRoom s parent xs
    → length name ≤ 63
    → find_child parent name s ≡ some none
    → name ≢ other
    → (s' : Ramfs) × (create ntype parent name s ≡ some (some s.next_idx, s'))
      × (find_child parent name s' ≡ some (some s.next_idx))
      × (find_child parent other s' ≡ find_child parent other s)
unfolding create set_node fill_slot
create-find_child s parent xs name other ntype r short missing unlike =
    let idx = s.next_idx in
    let new = prepared parent name ntype r.old in
    let nodes1 = set s.nodes idx new in
    let s1 : Ramfs = record s { nodes = nodes1; next_idx = idx + 1 } in
    let new_at = get_elem?-set_self s.nodes idx new (get_elem?-lt s.nodes idx r.next_at) in
    let p_at : get_elem? nodes1 parent ≡ some r.p =
      get_elem?-set_ne s.nodes idx parent new (λ e. r.differ (sym e)) ∙ r.parent_at in
    let linked1 = Linked-set s.nodes idx new r.p.first_child xs r.fresh r.linked in
    let (s', added, a) =
      add_child-IsAdded s1 parent idx xs r.p p_at linked1 (omega (arith, r.few)) r.different
        r.no_parent r.fresh r.differ (ap (λ o. o >>= (λ n. some n.next_sibling)) new_at) in
    let agree : (n : List ℕ) (x : ℕ) → x ≢ idx → is_named s'.nodes n x ≡ is_named s.nodes n x =
      λ n x h. a.kept x n ∙ is_named-other s.nodes idx x new n (λ e. h (sym e)) in
    let before : (n : List ℕ) → find_child parent n s ≡ some (first_named s.nodes n xs) = λ n.
      find_child-first_named s parent r.p n xs r.inside r.parent_at r.linked
        (omega (arith, r.few)) in
    let after : (n : List ℕ)
        → find_child parent n s' ≡ some (first_named s'.nodes n (xs ++ (idx ∷ []))) =
      λ n.
        find_child-first_named s' parent a.p n (xs ++ (idx ∷ [])) r.inside a.at a.linked
          (omega (arith, length-append xs (idx ∷ []), r.few)) in
    let same : (n : List ℕ) → first_named s'.nodes n xs ≡ first_named s.nodes n xs =
      λ n. first_named-agree s.nodes s'.nodes n idx xs (agree n) r.fresh in
    let given : (n : List ℕ) → is_named s'.nodes n idx ≡ bytes_eq name n = λ n.
      a.kept idx n
      ∙ is_named-at nodes1 idx new n new_at
      ∙ ap (λ k. bytes_eq k n) (take-all 63 name short) in
    let absent : first_named s.nodes name xs ≡ none = cc (sym (before name) ∙ missing) in
    let differs : bytes_eq name other ≡ false = elim (Bool-cases (bytes_eq name other)) [
      | inl hit ↦ absurd (unlike (bytes_eq_sound name other hit))
      | inr miss ↦ miss
    ] in
    (
      s',
      create-set_node s parent name ntype r.p r.inside r.parent_at r.is_directory missing
          ∙ ap (fill_slot name ntype parent) (next_slot s r.next)
          ∙ rw (fill_slot, r.next_at, added) refl,
      after name
          ∙ ap some (
              first_named-append s'.nodes name idx xs (same name ∙ absent)
              ∙ ap (λ b. if b then some idx else none) (given name ∙ bytes_eq_refl name)),
      after other
          ∙ ap some (first_named-unnamed s'.nodes other idx xs (given other ∙ differs) ∙ same other)
          ∙ sym (before other),
    )

-- Once every slot has been given, a slot that was freed is given again, and then the one right behind it,
-- even when that is the slot of a file in use.
pub alloc_idx-in_use :
    (s : Ramfs) (j : ℕ) (n : Node)
    → max_files ≤ s.next_idx
    → first_free (drop 1 s.nodes) 1 ≡ some j
    → j + 1 < max_files
    → get_elem? s.nodes (j + 1) ≡ some n
    → n.ntype ≡ 1
    → (s1 : Ramfs) × (s2 : Ramfs) × (alloc_idx s ≡ (some j, s1))
      × (alloc_idx s1 ≡ (some (j + 1), s2))
      × (stat_type (j + 1) s2 ≡ some file)
unfolding alloc_idx stat_type
alloc_idx-in_use s j n full free_slot more at is_file =
    let s1 : Ramfs = record s { next_idx = j + 1 } in
    let s2 : Ramfs = record s { next_idx = j + 1 + 1 } in
    let none_left : ltb s.next_idx max_files ≡ false = ground (arith, full) in
    let typed : (n.ntype == 1) ≡ true = rw is_file refl in
    (
      s1,
      s2,
      rw (alloc_idx, none_left, free_slot) refl,
      next_slot s1 more,
      rw (stat_type, at, typed) refl,
    )
