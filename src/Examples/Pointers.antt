-- ===== src/Examples/Pointers.antt =====
-- User ranges on a small page table (kernel/src/syscall/validation.rs), and heap blocks
-- (kernel/src/arch/aarch64/slab.rs).
use capsule_os.Base.{
  ℕ, ◌+◌, ◌%◌, ◌^◌, ◌≤◌, ◌<◌, ◌≡◌, ◌⊎◌, refl, Option, none, some, replicate, ltb, arith,
  if◌then◌else◌,
}
use capsule_os.Shared.Status.{invalid_args}
use capsule_os.Shared.Result.{ok, err}
use capsule_os.Syscall.Validation.{validate_range}
use capsule_os.Syscall.Validation.Coverage.{Covered, Unmapped, validate_range-Covered}
use capsule_os.Memory.Slab.{
  Slab, write_word, class_index, first_class, allocate, deallocate, allocate-deallocate,
  allocate-fresh,
}

-- The first four pages are mapped.
abbrev four_pages : ℕ → ℕ → Option ℕ
four_pages l0_pa va = if ltb va 0x4000 then some (va + 0x8000) else none

validate_range-Covered_example :
    ((validate_range four_pages 0xff8 0x1010 4096 ≡ some (ok tt))
      × (0xff8 + 0x1010 < 2 ^ 64)
      × Covered four_pages 0xff8 (0xff8 + 0x1010) 4096)
    ⊎ ((validate_range four_pages 0xff8 0x1010 4096 ≡ some (err invalid_args))
        × ((2 ^ 64 ≤ 0xff8 + 0x1010) ⊎ Unmapped four_pages 0xff8 (0xff8 + 0x1010) 4096))
validate_range-Covered_example = validate_range-Covered four_pages 0xff8 0x1010 4096 (omega arith)

abbrev no_blocks : Slab
no_blocks = record { heads = replicate 7 0; words = λ a. 0 }

class_of_100 : class_index 100 8 ≡ some 2
unfolding class_index first_class
class_of_100 = refl

class_of_aligned : class_index 100 64 ≡ some 2
unfolding class_index first_class
class_of_aligned = refl

allocate-deallocate_example :
    allocate 100 8 none (deallocate 0x9008 100 8 no_blocks)
    ≡ (0x9008, record no_blocks { words = write_word 0x9008 0 (λ a. 0) })
allocate-deallocate_example =
    allocate-deallocate 0x9008 100 8 2 none no_blocks (ground arith) refl (omega arith) class_of_100

-- A layout of alignment 64 gets an address that is not a multiple of 16.
allocate-fresh_example :
    ((allocate 100 64 (some 0x9000) no_blocks).0 ≡ 0x9000 + 8)
    × ((allocate 100 64 (some 0x9000) no_blocks).0 % 32 ≡ 8)
allocate-fresh_example =
    allocate-fresh 100 64 2 0x9000 no_blocks refl (omega arith) class_of_aligned refl refl
