-- ===== src/Base/Bits.antt =====
-- Laws of the bitwise operations that the code uses as masks.
use capsule_os.Base.{
  ℕ, zero, suc, ◌+◌, ◌-◌, ◌*◌, ◌/◌, ◌%◌, ◌^◌, ◌≤◌, ◌<◌, ◌≡◌, refl, min, bit_and, arith,
}
use Prim.Native.Nat.{digits, bit_and-bitwise}

-- A word has no more binary digits than its value: more rounds of the digit loop add nothing.
stable :
    (rounds more x y : ℕ)
    → rounds ≤ more
    → x ≤ rounds
    → digits (λ rest. zero) min more x y ≡ digits (λ rest. zero) min rounds x y
stable zero more (suc x) y le enough = absurd (omega (arith, enough))
stable (suc rounds) zero x y le enough = absurd (omega (arith, le))
stable (suc rounds) (suc more) zero y le enough = refl
stable zero zero zero y le enough = refl
stable zero (suc more) zero y le enough = refl
stable (suc rounds) (suc more) (suc x) y le enough =
    let halved =
      stable rounds more (suc x / 2) (y / 2) (omega (arith, le)) (omega (arith, enough)) in
    omega (arith, halved)

-- The mask of two words, from that of their halves and their lowest digits.
pub bit_and-halves : (x y : ℕ) → bit_and x y ≡ 2 * bit_and (x / 2) (y / 2) + min (x % 2) (y % 2)
bit_and-halves (suc x) y =
    let whole = bit_and-bitwise (suc x) y in
    let half = bit_and-bitwise (suc x / 2) (y / 2) in
    let rounds = stable (suc x / 2) x (suc x / 2) (y / 2) (omega arith) (omega arith) in
    omega (arith, rounds, half, whole)
bit_and-halves zero y =
    let whole = bit_and-bitwise zero y in
    let half = bit_and-bitwise zero (y / 2) in omega (arith, half, whole)

-- A mask and its complement on `n` bits share a word out between them.
pub bit_and_complement :
    (n y m : ℕ) → y < 2 ^ n → m < 2 ^ n → bit_and y (2 ^ n - 1 - m) + bit_and y m ≡ y
bit_and_complement zero y m hy hm =
    let y0 : y ≡ 0 = omega arith in
    rw y0 (omega (arith, bit_and-bitwise 0 (1 - 1 - m), bit_and-bitwise 0 m))
bit_and_complement (suc n) y m hy hm =
    let half : (2 ^ suc n - 1 - m) / 2 ≡ 2 ^ n - 1 - m / 2 = omega arith in
    let low : (2 ^ suc n - 1 - m) % 2 ≡ 1 - m % 2 = omega arith in
    omega (
      arith,
      bit_and-halves y m,
      rw (half, low) at (bit_and-halves y (2 ^ suc n - 1 - m)),
      bit_and_complement n (y / 2) (m / 2) (omega arith) (omega arith),
    )

-- A masked word is at most the mask.
pub bit_and_le : (n y m : ℕ) → y < 2 ^ n → m < 2 ^ n → bit_and y m ≤ m
bit_and_le zero y m hy h =
    let y0 : y ≡ 0 = omega arith in rw y0 (omega (arith, bit_and-bitwise 0 m))
bit_and_le (suc n) y m hy h =
    omega (arith, bit_and-halves y m, bit_and_le n (y / 2) (m / 2) (omega arith) (omega arith))

-- Rounding up to an alignment, by a mask, moves up, by less than the alignment.
pub bit_and_round_up :
    (a c : ℕ)
    → 0 < a
    → c + a ≤ 2 ^ 64
    → (c ≤ bit_and ((c + a - 1) % 2 ^ 64) (2 ^ 64 - a))
      × (bit_and ((c + a - 1) % 2 ^ 64) (2 ^ 64 - a) ≤ c + a - 1)
bit_and_round_up a c ha h =
    let y = c + a - 1 in
    let inside : y % 2 ^ 64 ≡ y = omega arith in
    let mask : 2 ^ 64 - 1 - (a - 1) ≡ 2 ^ 64 - a = omega arith in
    let split : bit_and y (2 ^ 64 - a) + bit_and y (a - 1) ≡ y =
      rw mask at (bit_and_complement 64 y (a - 1) (omega arith) (omega arith)) in
    let low = bit_and_le 64 y (a - 1) (omega arith) (omega arith) in
    rw inside (omega (arith, split, low), omega (arith, split))

no_digits : (rounds y : ℕ) → y ≤ rounds → bit_and y 0 ≡ 0
no_digits zero y h =
    let none_left : y ≡ 0 = omega (arith, h) in rw none_left (bit_and-bitwise zero zero)
no_digits (suc rounds) y h =
    omega (arith, bit_and-halves y 0, no_digits rounds (y / 2) (omega (arith, h)))

pub bit_and-zero : (y : ℕ) → bit_and y 0 ≡ 0
bit_and-zero y = no_digits y y (omega arith)

-- One more digit at the end of a mask of ones.
pub bit_and_ones : (y m : ℕ) → bit_and y (2 * m + 1) ≡ 2 * bit_and (y / 2) m + y % 2
bit_and_ones y m =
    let half : (2 * m + 1) / 2 ≡ m = omega arith in
    let odd : (2 * m + 1) % 2 ≡ 1 = omega arith in
    omega (arith, rw (half, odd) at (bit_and-halves y (2 * m + 1)))

pub bit_and_63 : (y : ℕ) → bit_and y 63 ≡ y % 64
bit_and_63 y = omega (
  arith,
  bit_and_ones y 31,
  bit_and_ones (y / 2) 15,
  bit_and_ones (y / 2 / 2) 7,
  bit_and_ones (y / 2 / 2 / 2) 3,
  bit_and_ones (y / 2 / 2 / 2 / 2) 1,
  bit_and_ones (y / 2 / 2 / 2 / 2 / 2) 0,
  bit_and-zero (y / 2 / 2 / 2 / 2 / 2 / 2),
)

-- The low twelve digits are the offset in a page.
pub bit_and_4095 : (y : ℕ) → bit_and y 4095 ≡ y % 4096
bit_and_4095 y = omega (
  arith,
  bit_and_ones y 2047,
  bit_and_ones (y / 2) 1023,
  bit_and_ones (y / 2 / 2) 511,
  bit_and_ones (y / 2 / 2 / 2) 255,
  bit_and_ones (y / 2 / 2 / 2 / 2) 127,
  bit_and_ones (y / 2 / 2 / 2 / 2 / 2) 63,
  bit_and_63 (y / 2 / 2 / 2 / 2 / 2 / 2),
)

-- The rest of the digits are the start of the page.
pub bit_and_page : (y : ℕ) → y < 2 ^ 64 → bit_and y 0xffff_ffff_ffff_f000 + y % 4096 ≡ y
bit_and_page y h =
    let split : bit_and y 0xffff_ffff_ffff_f000 + bit_and y 4095 ≡ y =
      bit_and_complement 64 y 4095 h (omega arith) in
    omega (arith, split, bit_and_4095 y)
