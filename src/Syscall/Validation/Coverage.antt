-- ===== src/Syscall/Validation/Coverage.antt =====
-- Which pages the check of a user range (kernel/src/syscall/validation.rs) has looked up.
use capsule_os.Base.{
  ℕ, zero, suc, ◌+◌, ◌-◌, ◌/◌, ◌%◌, ◌^◌, ◌≤◌, ◌<◌, ◌≡◌, ◌⊎◌, inl, inr, refl, ap, true, false,
  Bool-cases, Option-cases, Option, some, bit_and, ltb, leb, ◌==◌, ==_refl, arith,
}
use capsule_os.Base.Bits.{bit_and_page}
use capsule_os.Shared.Status.{invalid_args}
use capsule_os.Shared.Result.{ok, err}
use capsule_os.Syscall.Validation.{translate, next_probe, probe_tail, range_loop, validate_range}

-- The next probe moves up, stays in the range, and leaves nothing of another page behind.
next_probe_lem :
    (addr end : ℕ)
    → addr < end - 1
    → end < 2 ^ 64
    → (addr < next_probe addr end)
      × (next_probe addr end < end)
      × ((a : ℕ) → addr ≤ a → a < next_probe addr end → addr / 4096 ≡ a / 4096)
next_probe_lem addr end below small =
    let page = bit_and_page addr (omega (arith, below, small)) in
    elim (Bool-cases (ltb (bit_and addr 0xffff_ffff_ffff_f000 + 0x1000) end)) [
      | inl more ↦
          let more' : bit_and addr 0xffff_ffff_ffff_f000 + 0x1000 < end = ground (arith, more) in
          rw more (
            omega (arith, page),
            more',
            λ a low high.
                same_page a (bit_and addr 0xffff_ffff_ffff_f000) page low (omega (arith, high)),
          )
      | inr tail ↦
          let tail' : end ≤ bit_and addr 0xffff_ffff_ffff_f000 + 0x1000 = ground (arith, tail) in
          rw tail (
            below,
            omega (arith, below),
            λ a low high.
                same_page a (bit_and addr 0xffff_ffff_ffff_f000) page low
                  (omega (arith, high, tail')),
          )
    ]
  where
    same_page :
        (a start : ℕ)
        → start + addr % 4096 ≡ addr
        → addr ≤ a
        → a < start + 0x1000
        → addr / 4096 ≡ a / 4096
    same_page a start page low high = omega (arith, page, low, high)

module _ (translate_user_va : ℕ → ℕ → Option ℕ) where
  -- A lookup succeeds, or it fails with one error.
  translate-cases :
      (va l0_pa : ℕ)
      → (translate translate_user_va va l0_pa ≡ ok tt)
        ⊎ (translate translate_user_va va l0_pa ≡ err invalid_args)
  unfolding translate
  translate-cases va l0_pa = elim (Bool-cases (l0_pa == 0)) [
    | inl null ↦ inr (rw null refl)
    | inr base ↦ elim (Option-cases (translate_user_va l0_pa va)) [
      | inl unmapped ↦ inr (rw (base, unmapped) refl)
      | inr (pa, mapped) ↦ inl (rw (base, mapped) refl)
    ]
  ]

  -- Every page that a range touches was looked up, at an address in the range, and is mapped.
  abbrev pub Covered : ℕ → ℕ → ℕ → Type 0
  Covered start end l0_pa =
      (a : ℕ)
      → start ≤ a
      → a < end
      → (b : ℕ) × (start ≤ b)
        × (b < end)
        × (b / 4096 ≡ a / 4096)
        × (translate translate_user_va b l0_pa ≡ ok tt)

  -- An address of the range is not mapped.
  abbrev pub Unmapped : ℕ → ℕ → ℕ → Type 0
  Unmapped start end l0_pa =
      (a : ℕ) × (start ≤ a) × (a < end) × (translate translate_user_va a l0_pa ≡ err invalid_args)

  -- The probe covers its page up to the next probe.
  extend :
      (addr next end l0_pa : ℕ)
      → addr < end
      → addr < next
      → translate translate_user_va addr l0_pa ≡ ok tt
      → ((a : ℕ) → addr ≤ a → a < next → addr / 4096 ≡ a / 4096)
      → Covered next end l0_pa
      → Covered addr end l0_pa
  extend addr next end l0_pa before up mapped same_page covered a low high =
      elim (Bool-cases (ltb a next)) [
        | inl here ↦ (addr, omega arith, before, same_page a low (ground (arith, here)), mapped)
        | inr later ↦
            let (b, b_low, b_high, page, b_mapped) = covered a (ground (arith, later)) high in
            (b, omega (arith, b_low, up), b_high, page, b_mapped)
      ]

  range_loop_lem :
      (fuel addr end l0_pa : ℕ)
      → addr < end
      → end ≤ addr + fuel
      → end < 2 ^ 64
      → ((range_loop translate_user_va fuel addr end l0_pa ≡ some (ok tt)) × Covered addr end l0_pa)
        ⊎ ((range_loop translate_user_va fuel addr end l0_pa ≡ some (err invalid_args))
            × Unmapped addr end l0_pa)
  unfolding range_loop probe_tail
  range_loop_lem zero addr end l0_pa before enough small = absurd (omega (arith, before, enough))
  range_loop_lem (suc fuel) addr end l0_pa before enough small = elim (translate-cases addr l0_pa) [
    | inr unmapped ↦ inr (rw (unmapped, range_loop) refl, (addr, omega arith, before, unmapped))
    | inl mapped ↦ elim (Bool-cases (leb (end - 1) addr)) [
      | inl last ↦
          let at_end : end - 1 ≡ addr = ground (arith, last) in
          let same : (bit_and addr 0xfff == bit_and addr 0xfff) ≡ true =
            ==_refl (bit_and addr 0xfff) in
          let tail : probe_tail translate_user_va addr end l0_pa ≡ ok tt =
            rw (at_end, probe_tail, mapped, same) refl in
          inl (
            rw (mapped, last, tail, range_loop) refl,
            λ a low high. (
              addr,
              omega arith,
              before,
              ap (λ x. x / 4096) {x = addr} {y = a} (omega (arith, low, high, at_end)),
              mapped,
            ),
          )
      | inr more ↦
          let below : addr < end - 1 = ground (arith, more) in
          let (up, inside, same_page) = next_probe_lem addr end below small in
          elim (range_loop_lem fuel (next_probe addr end) end l0_pa inside
            (omega (arith, enough, up)) small) [
              | inr (e, (a, low, high, unmapped)) ↦
                  inr (rw (mapped, more, range_loop) e, (a, omega (arith, low, up), high, unmapped))
              | inl (e, covered) ↦ inl (
                rw (mapped, more, range_loop) e,
                extend addr (next_probe addr end) end l0_pa before up mapped same_page covered,
              )
            ]
    ]
  ]

  -- The check of a range of at least one byte ends, whatever the lookup answers. Either it accepts the
  -- range, and every page that the range touches has been found mapped, at an address of the range, and
  -- the range ends below 2 ^ 64; or it refuses it, and the range does not end there, or an address of
  -- it is not mapped.
  pub validate_range-Covered :
      (ptr len l0_pa : ℕ)
      → 0 < len
      → ((validate_range translate_user_va ptr len l0_pa ≡ some (ok tt))
          × (ptr + len < 2 ^ 64)
          × Covered ptr (ptr + len) l0_pa)
        ⊎ ((validate_range translate_user_va ptr len l0_pa ≡ some (err invalid_args))
            × ((2 ^ 64 ≤ ptr + len) ⊎ Unmapped ptr (ptr + len) l0_pa))
  unfolding validate_range
  validate_range-Covered ptr len l0_pa some_bytes =
      let positive : (len == 0) ≡ false = ground (arith, some_bytes) in
      elim (Bool-cases (leb (2 ^ 64) (ptr + len))) [
        | inl wraps ↦ inr (rw (positive, wraps) refl, inl (ground (arith, wraps)))
        | inr fits ↦
            let small : ptr + len < 2 ^ 64 = ground (arith, fits) in
            elim (range_loop_lem len ptr (ptr + len) l0_pa (omega (arith, some_bytes)) (omega arith)
              small) [
                | inl (e, covered) ↦ inl (rw (positive, fits) e, small, covered)
                | inr (e, unmapped) ↦ inr (rw (positive, fits) e, inr unmapped)
              ]
      ]
