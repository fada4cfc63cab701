-- ===== src/Base/Padded.antt =====
-- Arrays of optional entries that are filled from the front: queues of at most `n` entries.
use capsule_os.Base.{
  ℕ, zero, suc, ◌≤◌, ◌<◌, ◌≡◌, refl, ap, Option, none, some, List, [], ◌∷◌, ◌++◌, length, set,
  free_index, arith,
}

module _ {ℓ} {A : Type ℓ} where
  -- The entries, then free slots up to `n`.
  abbrev pub padded : ℕ → List A → List (Option A)
  padded zero xs = []
  padded (suc n) [] = none ∷ padded n []
  padded (suc n) (x ∷ xs) = some x ∷ padded n xs

  pub free_index-padded :
      (n : ℕ) (xs : List A) → length xs < n → free_index (padded n xs) ≡ some (length xs)
  unfolding free_index
  free_index-padded zero xs h = absurd (omega arith)
  free_index-padded (suc n) [] h = refl
  free_index-padded (suc n) (x ∷ xs) h = ground (arith, free_index-padded n xs)

  pub free_index-padded_full :
      (n : ℕ) (xs : List A) → n ≤ length xs → free_index (padded n xs) ≡ none
  unfolding free_index
  free_index-padded_full zero xs h = refl
  free_index-padded_full (suc n) [] h = absurd (omega arith)
  free_index-padded_full (suc n) (x ∷ xs) h = ground (arith, free_index-padded_full n xs)

  pub set-padded :
      (n : ℕ) (xs : List A) (v : A)
      → length xs < n
      → set (padded n xs) (length xs) (some v) ≡ padded n (xs ++ (v ∷ []))
  set-padded zero xs v h = absurd (omega arith)
  set-padded (suc n) [] v h = refl
  set-padded (suc n) (x ∷ xs) v h = ap (λ r. some x ∷ r) (set-padded n xs v (omega arith))

-- `for j in 0..k { a[j] = a[j + 1] }`.
unfoldable pub shift_left {ℓ} : {A : Type ℓ} → ℕ → List A → List A
shift_left zero xs = xs
shift_left (suc k) [] = []
shift_left (suc k) (x ∷ []) = x ∷ []
shift_left (suc k) (x ∷ y ∷ ys) = y ∷ shift_left k (y ∷ ys)

module _ {ℓ} {A : Type ℓ} where
  shift_left-blank :
      (n k : ℕ)
      → k < n
      → set (shift_left k (padded n (let e : List A = [] in e))) k none ≡ padded n []
  unfolding shift_left
  shift_left-blank zero k l = absurd (omega arith)
  shift_left-blank (suc n) zero l = refl
  shift_left-blank (suc zero) (suc k) l = absurd (omega arith)
  shift_left-blank (suc (suc n)) (suc k) l =
      ap (λ r. none ∷ r) (shift_left-blank (suc n) k (omega arith))

  -- Shifting down to index `k`, at or behind the last entry, and clearing it removes the first.
  pub shift_left-padded :
      (n k : ℕ) (x : A) (xs : List A)
      → length xs ≤ k
      → k < n
      → set (shift_left k (padded n (x ∷ xs))) k none ≡ padded n xs
  unfolding shift_left
  shift_left-padded zero k x xs h l = absurd (omega arith)
  shift_left-padded (suc zero) zero x [] h l = refl
  shift_left-padded (suc (suc n)) zero x [] h l = refl
  shift_left-padded (suc n) zero x (y ∷ ys) h l = absurd (omega arith)
  shift_left-padded (suc zero) (suc k) x xs h l = absurd (omega arith)
  shift_left-padded (suc (suc n)) (suc k) x [] h l =
      ap (λ r. none ∷ r) (shift_left-blank (suc n) k (omega arith))
  shift_left-padded (suc (suc n)) (suc k) x (y ∷ ys) h l =
      ap (λ r. some y ∷ r) (shift_left-padded (suc n) k y ys (omega arith) (omega arith))
