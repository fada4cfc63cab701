-- ===== src/Base/Ring.antt =====
-- Ring buffers: an array that is read at `r` and written at `w`, both going round at `cap`, seen
-- as the list of the items that are held.
use capsule_os.Base.{
  ℕ, zero, suc, ◌+◌, ◌-◌, ◌%◌, ◌≤◌, ◌<◌, ◌≡◌, ◌≢◌, refl, ap, ap₂, ◌↔◌, ◌∙◌, List, [], ◌∷◌, ◌++◌,
  length, get_or, set, get_or-set_self, get_or-set_ne, arith, leb, ltb, ◌==◌, if◌then◌else◌,
}
use native.Mathlib.Nat.{mod-eq_of_lt, mod-eq-sub-mod}
use native.Mathlib.Numerals.{add-one}

-- The index after `i`.
abbrev pub next : ℕ → ℕ → ℕ
next cap i = if i + 1 == cap then 0 else i + 1

pub next_mod : (cap i : ℕ) → i < cap → (i + 1) % cap ≡ next cap i
next_mod cap i h = grind (arith, mod-eq_of_lt, mod-eq-sub-mod)

-- The index `n` steps after `r`, for `n` up to `cap`.
abbrev pub advance : ℕ → ℕ → ℕ → ℕ
advance cap r n = if ltb (r + n) cap then r + n else r + n - cap

-- How many items lie from `r` up to `w`.
abbrev pub used : ℕ → ℕ → ℕ → ℕ
used cap r w = if leb r w then w - r else w + cap - r

-- What the indices of a valid ring say of its length.
pub used_facts :
    (cap r w : ℕ)
    → r < cap
    → w < cap
    → (used cap r w < cap)
      × (w ≡ advance cap r (used cap r w))
      × ((next cap w ≡ r) ↔ (used cap r w + 1 ≡ cap))
      × ((r ≡ w) ↔ (used cap r w ≡ 0))
      × (next cap w ≢ r → used cap r (next cap w) ≡ used cap r w + 1)
used_facts cap r w hr hw = (
  ground arith,
  ground arith,
  (λ e. ground arith, λ e. ground arith),
  (λ e. ground arith, λ e. ground arith),
  λ ne. ground arith,
)

module _ {ℓ} {A : Type ℓ} (d : A) (cap : ℕ) where
  -- The `n` items from index `r` on.
  abbrev pub window : List A → ℕ → ℕ → List A
  window buf r zero = []
  window buf r (suc n) = get_or buf r d ∷ window buf (next cap r) n

  pub length-window : (buf : List A) (r n : ℕ) → length (window buf r n) ≡ n
  length-window buf r zero = refl
  length-window buf r (suc n) = omega (arith, length-window buf (next cap r) n)

  -- A write beyond the window leaves it alone.
  pub window-set_past :
      (buf : List A) (v : A) (r n k i : ℕ)
      → r < cap
      → n ≤ k
      → k < cap
      → i ≡ advance cap r k
      → window (set buf i v) r n ≡ window buf r n
  window-set_past buf v r zero k i hr h hk e = refl
  window-set_past buf v r (suc n) zero i hr h hk e = absurd (omega arith)
  window-set_past buf v r (suc n) (suc k) i hr h hk e =
      ap₂ ◌∷◌ (get_or-set_ne buf i r v d (ground arith)) (
        window-set_past buf v (next cap r) n k i (ground arith) (omega arith) (omega arith)
          (ground arith))

  -- A write just past the window appends to it.
  pub window-set_end :
      (buf : List A) (v : A) (r n i : ℕ)
      → cap ≤ length buf
      → r < cap
      → n < cap
      → i ≡ advance cap r n
      → window (set buf i v) r (suc n) ≡ window buf r n ++ (v ∷ [])
  window-set_end buf v r zero i hb hr hn e =
      ap (λ x. x ∷ []) (ground (arith, get_or-set_self buf i v d))
  window-set_end buf v r (suc n) i hb hr hn e =
      ap₂ ◌∷◌ (get_or-set_ne buf i r v d (ground arith))
        (window-set_end buf v (next cap r) n i hb (ground arith) (omega arith) (ground arith))

  -- The item at the read index comes first, and the rest follow from the next index on.
  pub window_of_used :
      (buf : List A) (r w : ℕ)
      → r < cap
      → w < cap
      → r ≢ w
      → window buf r (used cap r w)
        ≡ get_or buf r d ∷ window buf (next cap r) (used cap (next cap r) w)
  window_of_used buf r w hr hw ne = rw (used_suc hr hw ne) refl
    where
      used_suc : r < cap → w < cap → r ≢ w → used cap r w ≡ suc (used cap (next cap r) w)
      used_suc a b c = ground arith

  -- Storing one item at the write index, where the ring is not full.
  pub window-push :
      (buf : List A) (v : A) (r w : ℕ)
      → cap ≤ length buf
      → r < cap
      → w < cap
      → (w + 1) % cap ≢ r
      → window (set buf w v) r (used cap r ((w + 1) % cap))
        ≡ window buf r (used cap r w) ++ (v ∷ [])
  window-push buf v r w hb hr hw ne =
      let f = used_facts cap r w hr hw in
      let n = next_mod cap w hw in
      ap (window (set buf w v) r)
        (ap (used cap r) n ∙ f.4 (λ e. ne (n ∙ e)) ∙ add-one (used cap r w))
      ∙ window-set_end buf v r (used cap r w) w hb hr f.0 f.1

  -- Taking one item at the read index, where the ring is not empty.
  pub window-pop :
      (buf : List A) (r w : ℕ)
      → r < cap
      → w < cap
      → r ≢ w
      → window buf r (used cap r w)
        ≡ get_or buf r d ∷ window buf ((r + 1) % cap) (used cap ((r + 1) % cap) w)
  window-pop buf r w hr hw ne = rw (next_mod cap r hr) (window_of_used buf r w hr hw ne)

  -- The test for an empty ring, and the test for a full one.
  pub length-window_tests :
      (buf : List A) (r w : ℕ)
      → r < cap
      → w < cap
      → ((r ≡ w) ↔ (length (window buf r (used cap r w)) ≡ 0))
        × (((w + 1) % cap ≡ r) ↔ (length (window buf r (used cap r w)) + 1 ≡ cap))
  length-window_tests buf r w hr hw =
      let f = used_facts cap r w hr hw in rw (length-window, next_mod cap w hw) (f.3, f.2)
