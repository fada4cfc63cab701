-- ===== src/Shared/Status.antt =====
-- kernel/shared/src/status.rs: `Status` and its two raw forms. An `i32` is a `ℤ` here, a `usize`
-- a number below 2 ^ 64.
use capsule_os.Base.Int.{ℤ, pos, negsuc}
use capsule_os.Base.{ℕ, ◌-◌, ◌+◌, ◌%◌, ◌^◌, ◌≡◌, refl, ltb, if◌then◌else◌, ◌==◌}

pub data Status : Type 0 where
  ok not_found no_memory invalid_args bad_handle wrong_type access_denied : Status
  already_exists not_empty file_open file_not_found : Status
  process_not_found thread_not_found invalid_image : Status
  peer_closed not_allowed try_again timed_out canceled : Status

-- The discriminants, `self as i32`.
unfoldable pub discriminant : Status → ℤ
discriminant ok = pos 0
discriminant not_found = negsuc 0
discriminant no_memory = negsuc 1
discriminant invalid_args = negsuc 2
discriminant bad_handle = negsuc 3
discriminant wrong_type = negsuc 4
discriminant access_denied = negsuc 5
discriminant already_exists = negsuc 9
discriminant not_empty = negsuc 10
discriminant file_open = negsuc 11
discriminant file_not_found = negsuc 12
discriminant process_not_found = negsuc 19
discriminant thread_not_found = negsuc 20
discriminant invalid_image = negsuc 21
discriminant peer_closed = negsuc 29
discriminant not_allowed = negsuc 30
discriminant try_again = negsuc 39
discriminant timed_out = negsuc 40
discriminant canceled = negsuc 41

-- `i32 as usize` extends the sign to 64 bits.
unfoldable pub i32_as_usize : ℤ → ℕ
i32_as_usize (pos n) = n
i32_as_usize (negsuc n) = 2 ^ 64 - (n + 1)

-- `usize as i32` keeps the low 32 bits.
unfoldable pub usize_as_i32 : ℕ → ℤ
usize_as_i32 raw =
    let low = raw % 2 ^ 32 in if ltb low (2 ^ 31) then pos low else negsuc (2 ^ 32 - low - 1)

unfoldable pub to_raw : Status → ℕ
unfolding discriminant i32_as_usize
to_raw s = i32_as_usize (discriminant s)

-- The arms of `from_raw` on a negative code -(n + 1).
from_negative : ℕ → Status
from_negative n =
    if n == 0
    then not_found
    else if n == 1
    then no_memory
    else if n == 2
    then invalid_args
    else if n == 3
    then bad_handle
    else if n == 4
    then wrong_type
    else if n == 5
    then access_denied
    else if n == 9
    then already_exists
    else if n == 10
    then not_empty
    else if n == 11
    then file_open
    else if n == 12
    then file_not_found
    else if n == 19
    then process_not_found
    else if n == 20
    then thread_not_found
    else if n == 21
    then invalid_image
    else if n == 29
    then peer_closed
    else if n == 30
    then not_allowed
    else if n == 39
    then try_again
    else if n == 40
    then timed_out
    else if n == 41
    then canceled
    else invalid_args

unfoldable pub from_raw : ℤ → Status
unfolding from_negative
from_raw (pos n) = if n == 0 then ok else invalid_args
from_raw (negsuc n) = from_negative n

-- A status survives the way out through `to_raw`, the cut to 32 bits and `from_raw`.
pub from_raw-to_raw : (s : Status) → from_raw (usize_as_i32 (to_raw s)) ≡ s
unfolding from_raw usize_as_i32 to_raw
from_raw-to_raw ok = refl
from_raw-to_raw _ = refl
