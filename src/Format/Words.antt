-- ===== src/Format/Words.antt =====
-- Little-endian words in byte slices, and the errors of the format
-- (tools/ohlink-toolchain/crates/ohlink-format/src/lib.rs).
use capsule_os.Base.{
  ℕ, zero, suc, ◌+◌, ◌*◌, ◌/◌, ◌%◌, ◌<◌, ◌≡◌, refl, List, [], ◌∷◌, length, take, drop, arith,
}

pub data FormatError : Type 0 where
  buffer_too_small invalid_magic invalid_version : FormatError
  checksum_mismatch : ℕ → ℕ → FormatError
  invalid_entry_index : FormatError

pub data Parsed {ℓ} (A : Type ℓ) : Type ℓ where
  parsed : A → Parsed A
  failed : FormatError → Parsed A

-- `to_le_bytes` of a word of `n` bytes.
abbrev pub to_le : ℕ → ℕ → List ℕ
to_le zero x = []
to_le (suc n) x = x % 256 ∷ to_le n (x / 256)

-- `from_le_bytes`.
abbrev pub from_le : List ℕ → ℕ
from_le [] = 0
from_le (b ∷ bs) = b + 256 * from_le bs

-- The word of `n` bytes at an offset.
abbrev pub word_at : ℕ → ℕ → List ℕ → ℕ
word_at offset n bytes = from_le (take n (drop offset bytes))

-- How many values a word of `n` bytes has.
abbrev pub word_size : ℕ → ℕ
word_size zero = 1
word_size (suc n) = 256 * word_size n

pub from_le-to_le : (n x : ℕ) → x < word_size n → from_le (to_le n x) ≡ x
from_le-to_le zero x h = omega arith
from_le-to_le (suc n) x h = omega (arith, from_le-to_le n (x / 256) (omega arith))

pub length-to_le : (n x : ℕ) → length (to_le n x) ≡ n
length-to_le zero x = refl
length-to_le (suc n) x = omega (arith, length-to_le n (x / 256))
