-- ===== src/FileAgent/Names.antt =====
-- What a name finds among children whose nodes change (userspace/services/fileagent/src/ramfs.rs).
use capsule_os.Base.{
  ℕ, ◌≡◌, ◌≢◌, refl, sym, ap, ◌∙◌, inl, inr, false, Bool-cases, none, some, List, [], ◌∷◌, ◌++◌,
  get_elem?, get_elem?-lt, get_elem?-set_self, get_elem?-set_ne, set, bytes_eq, ◌==◌, eq_of_==,
  ==_refl, if◌then◌else◌,
}
use capsule_os.FileAgent.{Node}
use capsule_os.FileAgent.Siblings.{Absent, is_named, first_named}

-- A change of a node that keeps its name, and a change of another node, keep what a name finds.
pub is_named-other :
    (nodes : List Node) (y x : ℕ) (v : Node) (name : List ℕ)
    → y ≢ x
    → is_named (set nodes y v) name x ≡ is_named nodes name x
is_named-other nodes y x v name h =
    ap (λ o. elim o [ none ↦ false | some n ↦ bytes_eq n.name name ])
      (get_elem?-set_ne nodes y x v h)

pub is_named-at :
    (nodes : List Node) (x : ℕ) (n : Node) (name : List ℕ)
    → get_elem? nodes x ≡ some n
    → is_named nodes name x ≡ bytes_eq n.name name
is_named-at nodes x n name h = ap (λ o. elim o [ none ↦ false | some n ↦ bytes_eq n.name name ]) h

pub is_named-kept :
    (nodes : List Node) (y x : ℕ) (n v : Node) (name : List ℕ)
    → get_elem? nodes y ≡ some n
    → v.name ≡ n.name
    → is_named (set nodes y v) name x ≡ is_named nodes name x
is_named-kept nodes y x n v name at same = elim (Bool-cases (x == y)) [
  | inl here ↦ rw (eq_of_== x y here) (
      is_named-at (set nodes y v) y v name (get_elem?-set_self nodes y v (get_elem?-lt nodes y at))
      ∙ ap (λ k. bytes_eq k name) same
      ∙ sym (is_named-at nodes y n name at))
  | inr other ↦ is_named-other nodes y x v name (λ e. absurd (cc (rw (sym e, ==_refl y) at other)))
]

pub first_named-agree :
    (nodes nodes' : List Node) (name : List ℕ) (idx : ℕ) (xs : List ℕ)
    → ((x : ℕ) → x ≢ idx → is_named nodes' name x ≡ is_named nodes name x)
    → Absent idx xs
    → first_named nodes' name xs ≡ first_named nodes name xs
unfolding first_named
first_named-agree nodes nodes' name idx [] same absent = refl
first_named-agree nodes nodes' name idx (x ∷ xs) same (other, absent) =
    ap (λ b. if b then some x else first_named nodes' name xs) (same x other)
    ∙ ap (λ r. if is_named nodes name x then some x else r)
        (first_named-agree nodes nodes' name idx xs same absent)

-- One more child is found when it has the name and no earlier one has.
pub first_named-append :
    (nodes : List Node) (name : List ℕ) (idx : ℕ) (xs : List ℕ)
    → first_named nodes name xs ≡ none
    → first_named nodes name (xs ++ (idx ∷ []))
      ≡ (if is_named nodes name idx then some idx else none)
unfolding first_named
first_named-append nodes name idx [] h = refl
first_named-append nodes name idx (x ∷ xs) h = elim (Bool-cases (is_named nodes name x)) [
  | inl hit ↦ absurd (cc (rw (first_named, hit) at h))
  | inr miss ↦
      rw (first_named, miss) (first_named-append nodes name idx xs (rw (first_named, miss) at h))
]

pub first_named-unnamed :
    (nodes : List Node) (name : List ℕ) (idx : ℕ) (xs : List ℕ)
    → is_named nodes name idx ≡ false
    → first_named nodes name (xs ++ (idx ∷ [])) ≡ first_named nodes name xs
unfolding first_named
first_named-unnamed nodes name idx [] h = rw (first_named, h) refl
first_named-unnamed nodes name idx (x ∷ xs) h =
    ap (λ r. if is_named nodes name x then some x else r) (first_named-unnamed nodes name idx xs h)
