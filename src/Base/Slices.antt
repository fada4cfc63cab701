-- ===== src/Base/Slices.antt =====
-- Slices of a list that is built from parts.
use capsule_os.Base.{
  ℕ, zero, suc, ◌+◌, ◌≡◌, refl, ap, ap₂, ◌∙◌, List, [], ◌∷◌, ◌++◌, length, take, drop, replicate,
  arith,
}

-- `buf[offset..offset + bytes.len()].copy_from_slice(bytes)`.
abbrev pub splice {ℓ} : {A : Type ℓ} → ℕ → List A → List A → List A
splice offset bytes buf = take offset buf ++ (bytes ++ drop (offset + length bytes) buf)

module _ {ℓ} {A : Type ℓ} where
  pub take-append : (n : ℕ) (xs ys : List A) → length xs ≡ n → take n (xs ++ ys) ≡ xs
  take-append zero [] ys h = refl
  take-append zero (x ∷ xs) ys h = absurd (omega arith)
  take-append (suc n) [] ys h = absurd (omega arith)
  take-append (suc n) (x ∷ xs) ys h = ap (λ r. x ∷ r) (take-append n xs ys (omega arith))

  pub drop-append : (n k : ℕ) (xs ys : List A) → length xs ≡ n → drop (n + k) (xs ++ ys) ≡ drop k ys
  drop-append zero k [] ys h = ap (λ j. drop j ys) {x = 0 + k} {y = k} (omega arith)
  drop-append zero k (x ∷ xs) ys h = absurd (omega arith)
  drop-append (suc n) k [] ys h = absurd (omega arith)
  drop-append (suc n) k (x ∷ xs) ys h =
      ap (λ j. drop j (x ∷ xs ++ ys)) {x = suc n + k} {y = suc (n + k)} (omega arith)
      ∙ drop-append n k xs ys (omega arith)

  pub replicate_add : (n m : ℕ) (a : A) → replicate (n + m) a ≡ replicate n a ++ replicate m a
  replicate_add zero m a = ap (λ k. replicate k a) {x = 0 + m} {y = m} (omega arith)
  replicate_add (suc n) m a =
      ap (λ k. replicate k a) {x = suc n + m} {y = suc (n + m)} (omega arith)
      ∙ ap (λ r. a ∷ r) (replicate_add n m a)

  -- A splice over a part of its own length replaces it.
  pub splice-append :
      (n : ℕ) (pre new old rest : List A)
      → length pre ≡ n
      → length new ≡ length old
      → splice n new (pre ++ (old ++ rest)) ≡ pre ++ (new ++ rest)
  splice-append n pre new old rest h e =
      let shift : drop (length new) (old ++ rest) ≡ drop (length old + 0) (old ++ rest) =
        ap (λ k. drop k (old ++ rest)) (omega (arith, e)) in
      let end : drop (length old + 0) (old ++ rest) ≡ rest =
        drop-append (length old) 0 old rest refl in
      ap₂ (λ a b. a ++ (new ++ b)) (take-append n pre (old ++ rest) h)
        (drop-append n (length new) pre (old ++ rest) h ∙ shift ∙ end)
