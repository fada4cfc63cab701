-- ===== src/Memory/Pages/Runs.antt =====
-- Sequences of calls of the page allocator (kernel/src/arch/aarch64/phys.rs).
use capsule_os.Base.{
  ℕ, ◌+◌, ◌≤◌, ◌<◌, ◌≡◌, refl, false, sym, ap, ◌∙◌, subst, Option-cases, inl, inr, Option, none,
  some, List, [], ◌∷◌, length, length-set, get_elem?, set, arith, ◌==◌, if◌then◌else◌, Bool-cases,
}
use capsule_os.Memory.Tracker.{register_pt_page, unregister_pt_page}
use capsule_os.Memory.Cache.{add_page}
use capsule_os.Memory.Pages.{
  PageTag, Phys, pa_to_pfn, Allocated, given, no_page, panicked, out_of_fuel, alloc_page, free_page,
}
use capsule_os.Memory.Pages.Cursor.{IsValid, after-IsValid, alloc_page-given, alloc_page-no_page}

pub data Request : Type 0 where
  want : PageTag → Request
  give_back register : ℕ → Request

-- The pages that a sequence of calls is given, and the state after it; none when a call panics.
unfoldable pub run : List Request → Phys → Option (List ℕ × Phys)
unfolding alloc_page free_page
run [] s = some ([], s)
run (want tag ∷ rs) s = elim (alloc_page tag s) [
  | given pa s' ↦ elim (run rs s') [ none ↦ none | some (pages, last) ↦ some (pa ∷ pages, last) ]
  | no_page s' ↦ run rs s'
  | panicked ↦ none
  | out_of_fuel ↦ none
]
run (give_back pa ∷ rs) s = elim (free_page pa s) [ none ↦ none | some s' ↦ run rs s' ]
run (register pa ∷ rs) s = run rs (record s { live = register_pt_page pa s.live })

-- Each page starts behind the one before it, from an address on, and before the end.
abbrev pub Ascending : ℕ → ℕ → List ℕ → Type 0
Ascending from end [] = Unit
Ascending from end (pa ∷ pages) = (from ≤ pa) × (pa < end) × Ascending (pa + 4096) end pages

Ascending-le :
    (a b end : ℕ) (pages : List ℕ) → a ≤ b → Ascending b end pages → Ascending a end pages
Ascending-le a b end [] h p = tt
Ascending-le a b end (pa ∷ pages) h (low, high, rest) = (omega (arith, h, low), high, rest)

-- The state after a page with a tag is freed.
abbrev freed : ℕ → ℕ → Phys → Phys
freed old pa s = record s {
  live = if old == 1 then unregister_pt_page pa s.live else s.live;
  tags = set s.tags (pa_to_pfn pa) 0;
  cache = add_page pa false s.cache;
}

-- A page that is freed leaves the cursor where it is.
free_page-keeps :
    (pa : ℕ) (s s' : Phys)
    → free_page pa s ≡ some s'
    → (s'.next ≡ s.next)
      × (s'.end ≡ s.end)
      × (s'.free_count ≡ s.free_count)
      × (length s'.tags ≡ length s.tags)
unfolding free_page
free_page-keeps pa s s' h = elim (Option-cases (get_elem? s.tags (pa_to_pfn pa))) [
  | inl outside ↦ absurd (cc (rw (outside, free_page) at h))
  | inr (old, tagged) ↦ elim (Bool-cases (old == 0)) [
    | inl unused ↦ absurd (cc (rw (tagged, unused, free_page) at h))
    | inr used ↦
        let e = rw (tagged, used, free_page) at h in
        let same : freed old pa s ≡ s' = cc in
        subst
          (λ t.
            (t.next ≡ s.next)
            × (t.end ≡ s.end)
            × (t.free_count ≡ s.free_count)
            × (length t.tags ≡ length s.tags))
          same (refl, refl, refl, length-set s.tags (pa_to_pfn pa) 0)
  ]
]

run-want :
    (tag : PageTag) (rs : List Request) (s s' : Phys) (pages : List ℕ) (r : Allocated)
    → IsValid s
    → alloc_page tag s ≡ r
    → ((mid : Phys) (ps : List ℕ)
        → IsValid mid
        → run rs mid ≡ some (ps, s')
        → Ascending mid.next mid.end ps)
    → run (want tag ∷ rs) s ≡ some (pages, s')
    → Ascending s.next s.end pages
unfolding run
run-want tag rs s s' pages (given pa mid) v e rest h = elim (Option-cases (run rs mid)) [
  | inl failed ↦ absurd (cc (rw (e, failed, run) at h))
  | inr ((ps, last), some_run) ↦
      let (up, f, same) = alloc_page-given tag s mid pa v e in
      let found = rw (e, some_run, run) at h in
      let pages_eq : pa ∷ ps ≡ pages = cc in
      let last_eq : last ≡ s' = cc in
      let valid : IsValid mid = subst IsValid (sym same) (
        after-IsValid tag (record s { next = pa })
          (record { size = v.size; small = omega (arith, f.in_ram.1) }) f) in
      let tail = rest mid ps valid (some_run ∙ ap (λ l. some (ps, l)) last_eq) in
      subst (Ascending s.next s.end) pages_eq
        (up, f.before_end, subst (λ m. Ascending m.next m.end ps) same tail)
]
run-want tag rs s s' pages (no_page mid) v e rest h =
    let (last, up, small, same) = alloc_page-no_page tag s mid v e in
    let valid : IsValid mid = subst IsValid (sym same) (record { size = v.size; small = small }) in
    let tail = rest mid pages valid (rw (e, run) at h) in
    Ascending-le s.next last s.end pages up (subst (λ m. Ascending m.next m.end pages) same tail)
run-want tag rs s s' pages panicked v e rest h = absurd (cc (rw (e, run) at h))
run-want tag rs s s' pages out_of_fuel v e rest h = absurd (cc (rw (e, run) at h))

-- In a sequence of calls without a panic, from a valid allocator and whatever is freed or registered in
-- between, every page that is given starts behind the one given before it, from the cursor on and
-- before the end: no page is given twice.
pub run-Ascending :
    (rs : List Request) (s s' : Phys) (pages : List ℕ)
    → IsValid s
    → run rs s ≡ some (pages, s')
    → Ascending s.next s.end pages
unfolding run
run-Ascending [] s s' pages v h =
    let empty : [] ≡ pages = cc in subst (Ascending s.next s.end) empty tt
run-Ascending (want tag ∷ rs) s s' pages v h =
    run-want tag rs s s' pages (alloc_page tag s) v refl
      (λ mid ps valid e. run-Ascending rs mid s' ps valid e) h
run-Ascending (give_back pa ∷ rs) s s' pages v h = elim (Option-cases (free_page pa s)) [
  | inl failed ↦ absurd (cc (rw (failed, run) at h))
  | inr (mid, freed) ↦
      let (next, end, _, size) = free_page-keeps pa s mid freed in
      let valid : IsValid mid = record {
        size = size ∙ v.size;
        small = omega (arith, next, v.small);
      } in
      let rest = run-Ascending rs mid s' pages valid (rw (freed, run) at h) in
      rw (← next, ← end) rest
]
run-Ascending (register pa ∷ rs) s s' pages v h =
    run-Ascending rs (record s { live = register_pt_page pa s.live }) s' pages
      (record { size = v.size; small = v.small }) h

-- Once the cursor has reached the end, no such sequence is given a page, whatever it frees.
pub run-exhausted :
    (rs : List Request) (s s' : Phys) (pages : List ℕ)
    → IsValid s
    → s.end ≤ s.next
    → run rs s ≡ some (pages, s')
    → pages ≡ []
run-exhausted rs s s' pages v full h = none_fit pages (run-Ascending rs s s' pages v h)
  where
    none_fit : (ps : List ℕ) → Ascending s.next s.end ps → ps ≡ []
    none_fit [] p = refl
    none_fit (pa ∷ ps) (low, high, rest) = absurd (omega (arith, low, high, full))
