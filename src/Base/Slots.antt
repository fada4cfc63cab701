-- ===== src/Base/Slots.antt =====
-- Fixed arrays of optional entries, the representation of most kernel tables: the scans for a
-- free slot and for an entry, and what a write to one slot does to them.
use Prim.Native.Nat.{ℕ, zero, suc, ◌≤◌, ◌<◌}
use mathlib.Core.Path.{◌≡◌, refl, ap}
use mathlib.Core.Logic.{◌≢◌}
use mathlib.Core.List.{List, [], ◌∷◌}
use mathlib.Core.Option.{Option, none, some}
use native.Mathlib.Omega.{arith}
use capsule_os.Base.Tests.{if◌then◌else◌, ◌==◌}
use capsule_os.Base.Lists.{length, get_elem?, set}

module _ {ℓ} {A : Type ℓ} where
  -- The index of the first free slot.
  unfoldable pub free_index : List (Option A) → Option ℕ
  free_index [] = none
  free_index (none ∷ s) = some 0
  free_index (some a ∷ s) = elim (free_index s) [ none ↦ none | some i ↦ some (suc i) ]

  -- The number of slots in use.
  unfoldable pub occupied : List (Option A) → ℕ
  occupied [] = 0
  occupied (none ∷ s) = occupied s
  occupied (some a ∷ s) = suc (occupied s)

  pub free_index-some :
      (s : List (Option A)) (i : ℕ) → free_index s ≡ some i → get_elem? s i ≡ some none
  unfolding free_index
  free_index-some [] i e = cc
  free_index-some (none ∷ s) zero e = refl
  free_index-some (none ∷ s) (suc i) e = ground arith
  free_index-some (some a ∷ s) zero e = ground arith
  free_index-some (some a ∷ s) (suc i) e = free_index-some s i (ground arith)

  pub free_index-none :
      (s : List (Option A)) → free_index s ≡ none → (i : ℕ) → get_elem? s i ≢ some none
  unfolding free_index
  free_index-none [] full i at = absurd cc
  free_index-none (none ∷ s) full i at = absurd cc
  free_index-none (some a ∷ s) full zero at = absurd cc
  free_index-none (some a ∷ s) full (suc i) at = free_index-none s (ground arith) i at

  pub free_index-full : (s : List (Option A)) → free_index s ≡ none → occupied s ≡ length s
  unfolding free_index occupied
  free_index-full [] e = refl
  free_index-full (none ∷ s) e = cc
  free_index-full (some a ∷ s) e = ground (arith, free_index-full s)

  pub occupied-lt_of_free :
      (s : List (Option A)) (i : ℕ) → get_elem? s i ≡ some none → occupied s < length s
  unfolding occupied
  occupied-lt_of_free [] i e = cc
  occupied-lt_of_free (none ∷ s) i e = bound s
    where
      bound : (t : List (Option A)) → occupied t < suc (length t)
      bound [] = omega arith
      bound (none ∷ t) = omega (arith, bound t)
      bound (some b ∷ t) = omega (arith, bound t)
  occupied-lt_of_free (some a ∷ s) zero e = ground arith
  occupied-lt_of_free (some a ∷ s) (suc i) e = omega (arith, occupied-lt_of_free s i e)

  pub occupied-le : (s : List (Option A)) → occupied s ≤ length s
  unfolding occupied
  occupied-le [] = omega arith
  occupied-le (none ∷ s) = omega (arith, occupied-le s)
  occupied-le (some a ∷ s) = omega (arith, occupied-le s)

  pub occupied-set-some :
      (s : List (Option A)) (i : ℕ) (a : A)
      → get_elem? s i ≡ some none
      → occupied (set s i (some a)) ≡ suc (occupied s)
  unfolding occupied
  occupied-set-some [] i a e = cc
  occupied-set-some (none ∷ s) zero a e = refl
  occupied-set-some (none ∷ s) (suc i) a e = occupied-set-some s i a e
  occupied-set-some (some b ∷ s) zero a e = ground arith
  occupied-set-some (some b ∷ s) (suc i) a e = ap suc (occupied-set-some s i a e)

  pub occupied-set-none :
      (s : List (Option A)) (i : ℕ) (a : A)
      → get_elem? s i ≡ some (some a)
      → suc (occupied (set s i none)) ≡ occupied s
  unfolding occupied
  occupied-set-none [] i a e = cc
  occupied-set-none (none ∷ s) zero a e = ground arith
  occupied-set-none (none ∷ s) (suc i) a e = occupied-set-none s i a e
  occupied-set-none (some b ∷ s) zero a e = refl
  occupied-set-none (some b ∷ s) (suc i) a e = ap suc (occupied-set-none s i a e)

  pub occupied-set_keep :
      (s : List (Option A)) (i : ℕ) (a b : A)
      → get_elem? s i ≡ some (some a)
      → occupied (set s i (some b)) ≡ occupied s
  unfolding occupied
  occupied-set_keep [] i a b e = cc
  occupied-set_keep (none ∷ s) zero a b e = ground arith
  occupied-set_keep (none ∷ s) (suc i) a b e = occupied-set_keep s i a b e
  occupied-set_keep (some c ∷ s) zero a b e = refl
  occupied-set_keep (some c ∷ s) (suc i) a b e = ap suc (occupied-set_keep s i a b e)

-- Entries that carry a numeric key.
module _ {ℓ} {A : Type ℓ} (key : A → ℕ) where
  -- The first entry with the key, and its index.
  unfoldable pub find_key : ℕ → List (Option A) → Option A
  find_key k [] = none
  find_key k (none ∷ s) = find_key k s
  find_key k (some a ∷ s) = let rest = find_key k s in if key a == k then some a else rest

  unfoldable pub find_index : ℕ → List (Option A) → Option ℕ
  find_index k [] = none
  find_index k (none ∷ s) = elim (find_index k s) [ none ↦ none | some i ↦ some (suc i) ]
  find_index k (some a ∷ s) =
      let rest : Option ℕ = elim (find_index k s) [ none ↦ none | some i ↦ some (suc i) ] in
      if key a == k then some 0 else rest

  -- No two entries share a key.
  abbrev pub Distinct : List (Option A) → Type ℓ
  Distinct [] = Unit
  Distinct (none ∷ s) = Distinct s
  Distinct (some a ∷ s) = (find_key (key a) s ≡ none) × Distinct s

  pub find_key-of_index :
      (k i : ℕ) (s : List (Option A))
      → find_index k s ≡ some i
      → (a : A) × (get_elem? s i ≡ some (some a)) × (key a ≡ k) × (find_key k s ≡ some a)
  unfolding find_key find_index
  find_key-of_index k i [] e = cc
  find_key-of_index k zero (none ∷ s) e = ground arith
  find_key-of_index k (suc i) (none ∷ s) e = find_key-of_index k i s (ground arith)
  find_key-of_index k zero (some a ∷ s) e = (a, refl, ground arith, ground arith)
  find_key-of_index k (suc i) (some a ∷ s) e =
      let (b, g, h, f) = find_key-of_index k i s (ground arith) in (b, g, h, ground arith)

  pub find_index-none : (k : ℕ) (s : List (Option A)) → find_index k s ≡ none → find_key k s ≡ none
  unfolding find_key find_index
  find_index-none k [] e = refl
  find_index-none k (none ∷ s) e = find_index-none k s (ground arith)
  find_index-none k (some a ∷ s) e = ground (arith, find_index-none k s)

  -- A write to a free slot adds the entry to what can be found.
  pub find_key-set-some :
      (k i : ℕ) (a : A) (s : List (Option A))
      → get_elem? s i ≡ some none
      → find_key (key a) s ≡ none
      → find_key k (set s i (some a)) ≡ (if key a == k then some a else find_key k s)
  unfolding find_key
  find_key-set-some k i a [] g f = cc
  find_key-set-some k zero a (none ∷ s) g f = refl
  find_key-set-some k (suc i) a (none ∷ s) g f = find_key-set-some k i a s g f
  find_key-set-some k zero a (some b ∷ s) g f = ground arith
  find_key-set-some k (suc i) a (some b ∷ s) g f = ground (arith, find_key-set-some k i a s)

  -- An entry that is stored is found, though another of its key may come first.
  pub find_key-ne-none_at :
      (i : ℕ) (a : A) (s : List (Option A))
      → get_elem? s i ≡ some (some a)
      → find_key (key a) s ≢ none
  unfolding find_key
  find_key-ne-none_at i a [] e = cc
  find_key-ne-none_at zero a (none ∷ s) e = ground arith
  find_key-ne-none_at (suc i) a (none ∷ s) e = find_key-ne-none_at i a s e
  find_key-ne-none_at zero a (some b ∷ s) e = ground arith
  find_key-ne-none_at (suc i) a (some b ∷ s) e = ground (arith, find_key-ne-none_at i a s e)

  -- Clearing a slot hides its entry only.
  pub find_key-set-none :
      (k i : ℕ) (a : A) (s : List (Option A))
      → Distinct s
      → get_elem? s i ≡ some (some a)
      → find_key k (set s i none) ≡ (if key a == k then none else find_key k s)
  unfolding find_key
  find_key-set-none k i a [] d g = cc
  find_key-set-none k zero a (none ∷ s) d g = ground arith
  find_key-set-none k (suc i) a (none ∷ s) d g = find_key-set-none k i a s d g
  find_key-set-none k zero a (some b ∷ s) d g = ground arith
  find_key-set-none k (suc i) a (some b ∷ s) d g =
      ground (arith, find_key-set-none k i a s d.1 g, find_key-ne-none_at i a s g)

  -- Replacing an entry by one of the same key changes that entry only.
  pub find_key-set_keep :
      (k i : ℕ) (a b : A) (s : List (Option A))
      → Distinct s
      → get_elem? s i ≡ some (some a)
      → key b ≡ key a
      → find_key k (set s i (some b)) ≡ (if key a == k then some b else find_key k s)
  unfolding find_key
  find_key-set_keep k i a b [] d g e = cc
  find_key-set_keep k zero a b (none ∷ s) d g e = ground arith
  find_key-set_keep k (suc i) a b (none ∷ s) d g e = find_key-set_keep k i a b s d g e
  find_key-set_keep k zero a b (some c ∷ s) d g e = ground arith
  find_key-set_keep k (suc i) a b (some c ∷ s) d g e =
      ground (arith, find_key-set_keep k i a b s d.1 g e, find_key-ne-none_at i a s g)

  pub Distinct-set-some :
      (i : ℕ) (a : A) (s : List (Option A))
      → get_elem? s i ≡ some none
      → find_key (key a) s ≡ none
      → Distinct s
      → Distinct (set s i (some a))
  unfolding find_key
  Distinct-set-some i a [] g f d = tt
  Distinct-set-some zero a (none ∷ s) g f d = (f, d)
  Distinct-set-some (suc i) a (none ∷ s) g f d = Distinct-set-some i a s g f d
  Distinct-set-some zero a (some b ∷ s) g f d = absurd (ground arith)
  Distinct-set-some (suc i) a (some b ∷ s) g f d = (
    ground (arith, find_key-set-some (key b) i a s g),
    Distinct-set-some i a s g (ground arith) d.1,
  )

  pub Distinct-set-none :
      (i : ℕ) (a : A) (s : List (Option A))
      → get_elem? s i ≡ some (some a)
      → Distinct s
      → Distinct (set s i none)
  unfolding find_key
  Distinct-set-none i a [] g d = tt
  Distinct-set-none zero a (none ∷ s) g d = d
  Distinct-set-none (suc i) a (none ∷ s) g d = Distinct-set-none i a s g d
  Distinct-set-none zero a (some b ∷ s) g d = d.1
  Distinct-set-none (suc i) a (some b ∷ s) g d =
      (ground (arith, find_key-set-none (key b) i a s d.1 g), Distinct-set-none i a s g d.1)

  pub Distinct-set_keep :
      (i : ℕ) (a b : A) (s : List (Option A))
      → get_elem? s i ≡ some (some a)
      → key b ≡ key a
      → Distinct s
      → Distinct (set s i (some b))
  unfolding find_key
  Distinct-set_keep i a b [] g e d = tt
  Distinct-set_keep zero a b (none ∷ s) g e d = absurd (ground arith)
  Distinct-set_keep (suc i) a b (none ∷ s) g e d = Distinct-set_keep i a b s g e d
  Distinct-set_keep zero a b (some c ∷ s) g e d = (rw (e, ← (ap-key g)) d.0, d.1)
    where
      ap-key : (get_elem? (some c ∷ s) zero ≡ some (some a)) → key c ≡ key a
      ap-key g' = ground arith
  Distinct-set_keep (suc i) a b (some c ∷ s) g e d = (
    ground (arith, find_key-set_keep (key c) i a b s d.1 g e, find_key-ne-none_at i a s g),
    Distinct-set_keep i a b s g e d.1,
  )
