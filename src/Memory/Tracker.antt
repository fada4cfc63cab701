-- ===== src/Memory/Tracker.antt =====
-- The tracker of live page-table pages (kernel/src/arch/aarch64/phys.rs).
use capsule_os.Base.{
  ℕ, ◌≡◌, ◌≢◌, refl, Bool, true, false, Bool-cases, inl, inr, List, [], ◌∷◌, ◌==◌, ==_refl,
  ==_of_ne, eq_of_==, if◌then◌else◌,
}

abbrev pub max_live_pt : ℕ
max_live_pt = 64

-- The loop of `register_pt_page` over the slots; a free slot holds 0. A full tracker is left as it is.
unfoldable pub register_slots : ℕ → List ℕ → List ℕ
register_slots pa [] = []
register_slots pa (prev ∷ slots) =
    let rest = register_slots pa slots in
    if prev == pa then prev ∷ slots else if prev == 0 then pa ∷ slots else prev ∷ rest

abbrev pub register_pt_page : ℕ → List ℕ → List ℕ
register_pt_page pa slots = if pa == 0 then slots else register_slots pa slots

-- The loop of `unregister_pt_page`.
unfoldable pub unregister_slots : ℕ → List ℕ → List ℕ
unregister_slots pa [] = []
unregister_slots pa (prev ∷ slots) =
    let rest = unregister_slots pa slots in if prev == pa then 0 ∷ slots else prev ∷ rest

abbrev pub unregister_pt_page : ℕ → List ℕ → List ℕ
unregister_pt_page pa slots = if pa == 0 then slots else unregister_slots pa slots

-- The loop of `is_live_pt_page`.
unfoldable pub live_slots : ℕ → List ℕ → Bool
live_slots pa [] = false
live_slots pa (prev ∷ slots) = if prev == pa then true else live_slots pa slots

abbrev pub is_live_pt_page : ℕ → List ℕ → Bool
is_live_pt_page pa slots = if pa == 0 then false else live_slots pa slots

-- Registration with a free slot makes the page live.
live_slots-register :
    (pa : ℕ) (slots : List ℕ)
    → live_slots 0 slots ≡ true
    → live_slots pa (register_slots pa slots) ≡ true
unfolding live_slots register_slots
live_slots-register pa [] free = absurd cc
live_slots-register pa (prev ∷ slots) free = elim (Bool-cases (prev == pa)) [
  | inl same ↦ rw (same, live_slots, same) refl
  | inr other ↦ elim (Bool-cases (prev == 0)) [
    | inl empty ↦ rw (other, empty, live_slots, ==_refl pa) refl
    | inr used ↦
        rw (other, used, live_slots, other)
          (live_slots-register pa slots (rw (live_slots, used) at free))
  ]
]

-- It changes no other page.
pub live_slots-register_ne :
    (pa other : ℕ) (slots : List ℕ)
    → pa ≢ other
    → 0 ≢ other
    → live_slots other (register_slots pa slots) ≡ live_slots other slots
unfolding live_slots register_slots
live_slots-register_ne pa other [] h nz = refl
live_slots-register_ne pa other (prev ∷ slots) h nz = elim (Bool-cases (prev == pa)) [
  | inl same ↦ rw (same) refl
  | inr differs ↦ elim (Bool-cases (prev == 0)) [
    | inl empty ↦
        let zero_prev : prev ≡ 0 = eq_of_== prev 0 empty in
        rw (differs, empty, zero_prev, live_slots, ==_of_ne pa other h, ==_of_ne 0 other nz) refl
    | inr used ↦ rw (differs, used, live_slots, live_slots-register_ne pa other slots h nz) refl
  ]
]
