-- ===== src/Syscall/Validation.antt =====
-- The checks of user pointers (kernel/src/syscall/validation.rs). The walk of the page tables,
-- `arch::translate_user_va`, is an argument, and so is the answer of `current_l0_pa`.
pub mod Coverage
use capsule_os.Base.{
  ℕ, zero, suc, ◌+◌, ◌-◌, ◌^◌, not, ◌&&◌, Option, none, some, bit_and, ltb, leb, ◌==◌,
  if◌then◌else◌,
}
use capsule_os.Shared.Status.{invalid_args}
use capsule_os.Shared.Result.{Result, ok, err, ◌>>=◌}

-- The next probe: the next page, or the last byte.
abbrev pub next_probe : ℕ → ℕ → ℕ
next_probe addr end =
    let next_page = bit_and addr 0xffff_ffff_ffff_f000 + 0x1000 in
    if ltb next_page end then next_page else end - 1

module _ (translate_user_va : ℕ → ℕ → Option ℕ) where
  unfoldable pub translate : ℕ → ℕ → Result (Unit {0})
  translate va l0_pa =
      if l0_pa == 0
      then err invalid_args
      else elim (translate_user_va l0_pa va) [ none ↦ err invalid_args | some _ ↦ ok tt ]

  -- The probes at the end of the loop.
  unfoldable pub probe_tail : ℕ → ℕ → ℕ → Result (Unit {0})
  unfolding translate
  probe_tail addr end l0_pa = translate addr l0_pa >>= (λ _.
      if not (bit_and (end - 1) 0xfff == bit_and addr 0xfff)
      then translate (end - 1) l0_pa
      else ok tt)

  -- The loop; it is out of fuel at `none`.
  unfoldable pub range_loop : ℕ → ℕ → ℕ → ℕ → Option (Result (Unit {0}))
  unfolding probe_tail
  range_loop zero addr end l0_pa = none
  range_loop (suc fuel) addr end l0_pa =
      let rest = range_loop fuel (next_probe addr end) end l0_pa in
      elim (translate addr l0_pa) [
        | err e ↦ some (err e)
        | ok _ ↦ if leb (end - 1) addr then some (probe_tail addr end l0_pa) else rest
      ]

  -- Every round moves the probe up: a round for each byte is enough.
  unfoldable pub validate_range : ℕ → ℕ → ℕ → Option (Result (Unit {0}))
  unfolding range_loop
  validate_range ptr len l0_pa =
      if len == 0
      then some (translate ptr l0_pa)
      else if leb (2 ^ 64) (ptr + len)
      then some (err invalid_args)
      else range_loop len ptr (ptr + len) l0_pa

  -- `validate_pointer` and `validate_mut_pointer`, for a type of a size.
  unfoldable pub validate_pointer : Result ℕ → ℕ → ℕ → Option (Result (Unit {0}))
  unfolding validate_range
  validate_pointer (err e) ptr size = some (err e)
  validate_pointer (ok l0_pa) ptr size =
      if ptr == 0 then some (err invalid_args) else validate_range ptr size l0_pa

  unfoldable pub validate_buffer : Result ℕ → ℕ → ℕ → Option (Result (Unit {0}))
  unfolding validate_range
  validate_buffer (err e) ptr len = some (err e)
  validate_buffer (ok l0_pa) ptr len =
      if (ptr == 0) && ltb 0 len
      then some (err invalid_args)
      else if len == 0
      then (if not (ptr == 0) then validate_range ptr 1 l0_pa else some (ok tt))
      else validate_range ptr len l0_pa
