-- ===== src/Base/Masks.antt =====
-- Laws of disjunction on words, and of masks that cut a run of digits out of a word.
use capsule_os.Base.{ℕ, zero, suc, ◌+◌, ◌*◌, ◌/◌, ◌%◌, ◌^◌, ◌≤◌, ◌≡◌, refl, ap, max, bit_and, arith}
use capsule_os.Base.Bits.{bit_and-halves, bit_and-zero, bit_and_ones}
use Prim.Native.Nat.{digits, bit_or, bit_or-bitwise}

-- More rounds of the digit loop than the word has digits add nothing.
more_rounds :
    (rounds more x y : ℕ)
    → rounds ≤ more
    → x ≤ rounds
    → digits (λ b. b) max more x y ≡ digits (λ b. b) max rounds x y
more_rounds zero more (suc x) y le enough = absurd (omega (arith, enough))
more_rounds (suc rounds) zero (suc x) y le enough = absurd (omega (arith, le))
more_rounds (suc rounds) zero zero y le enough = refl
more_rounds (suc rounds) (suc more) zero y le enough = refl
more_rounds zero zero zero y le enough = refl
more_rounds zero (suc more) zero y le enough = refl
more_rounds (suc rounds) (suc more) (suc x) y le enough =
    let halved =
      more_rounds rounds more (suc x / 2) (y / 2) (omega (arith, le)) (omega (arith, enough)) in
    omega (arith, halved)

bit_or-zero_left : (y : ℕ) → bit_or 0 y ≡ y
bit_or-zero_left y = bit_or-bitwise 0 y

-- The disjunction of two words, from that of their halves and their lowest digits.
pub bit_or-halves : (x y : ℕ) → bit_or x y ≡ 2 * bit_or (x / 2) (y / 2) + max (x % 2) (y % 2)
bit_or-halves (suc x) y =
    let whole = bit_or-bitwise (suc x) y in
    let half = bit_or-bitwise (suc x / 2) (y / 2) in
    let rounds = more_rounds (suc x / 2) x (suc x / 2) (y / 2) (omega arith) (omega arith) in
    omega (arith, rounds, half, whole)
bit_or-halves zero y =
    let half : bit_or (0 / 2) (y / 2) ≡ y / 2 = bit_or-zero_left (y / 2) in
    omega (arith, half, bit_or-zero_left y)

bit_or-zero_at : (n x : ℕ) → x ≤ n → bit_or x 0 ≡ x
bit_or-zero_at zero x h =
    let none_left : x ≡ 0 = omega (arith, h) in rw none_left (bit_or-zero_left 0)
bit_or-zero_at (suc n) x h =
    omega (arith, bit_or-halves x 0, bit_or-zero_at n (x / 2) (omega (arith, h)))

pub bit_or-zero : (x : ℕ) → bit_or x 0 ≡ x
bit_or-zero x = bit_or-zero_at x x (omega arith)

bit_and-bit_or_at :
    (n x y m : ℕ) → x + y + m ≤ n → bit_and (bit_or x y) m ≡ bit_or (bit_and x m) (bit_and y m)
bit_and-bit_or_at zero x y m h =
    let x0 : x ≡ 0 = omega (arith, h) in
    let y0 : y ≡ 0 = omega (arith, h) in let m0 : m ≡ 0 = omega (arith, h) in rw (x0, y0, m0) refl
bit_and-bit_or_at (suc n) x y m h =
    let half = bit_and-bit_or_at n (x / 2) (y / 2) (m / 2) (omega (arith, h)) in
    let joined : bit_or x y / 2 ≡ bit_or (x / 2) (y / 2) = omega (arith, bit_or-halves x y) in
    let left : bit_and x m / 2 ≡ bit_and (x / 2) (m / 2) = omega (arith, bit_and-halves x m) in
    let right : bit_and y m / 2 ≡ bit_and (y / 2) (m / 2) = omega (arith, bit_and-halves y m) in
    omega (
      arith,
      half,
      bit_or-halves x y,
      bit_and-halves x m,
      bit_and-halves y m,
      rw joined at (bit_and-halves (bit_or x y) m),
      rw (left, right) at (bit_or-halves (bit_and x m) (bit_and y m)),
    )

-- A mask is applied to both sides of a disjunction.
pub bit_and-bit_or : (x y m : ℕ) → bit_and (bit_or x y) m ≡ bit_or (bit_and x m) (bit_and y m)
bit_and-bit_or x y m = bit_and-bit_or_at (x + y + m) x y m (omega arith)

bit_and_assoc_at : (n x m k : ℕ) → x + m + k ≤ n → bit_and (bit_and x m) k ≡ bit_and x (bit_and m k)
bit_and_assoc_at zero x m k h =
    let x0 : x ≡ 0 = omega (arith, h) in
    let m0 : m ≡ 0 = omega (arith, h) in let k0 : k ≡ 0 = omega (arith, h) in rw (x0, m0, k0) refl
bit_and_assoc_at (suc n) x m k h =
    let half = bit_and_assoc_at n (x / 2) (m / 2) (k / 2) (omega (arith, h)) in
    let left : bit_and x m / 2 ≡ bit_and (x / 2) (m / 2) = omega (arith, bit_and-halves x m) in
    let right : bit_and m k / 2 ≡ bit_and (m / 2) (k / 2) = omega (arith, bit_and-halves m k) in
    omega (
      arith,
      half,
      bit_and-halves x m,
      bit_and-halves m k,
      rw left at (bit_and-halves (bit_and x m) k),
      rw right at (bit_and-halves x (bit_and m k)),
    )

-- Two masks are one.
pub bit_and_assoc : (x m k : ℕ) → bit_and (bit_and x m) k ≡ bit_and x (bit_and m k)
bit_and_assoc x m k = bit_and_assoc_at (x + m + k) x m k (omega arith)

-- A mask whose lowest digit is 0.
double : (y m : ℕ) → bit_and y (2 * m) ≡ 2 * bit_and (y / 2) m
double y m =
    let half : 2 * m / 2 ≡ m = omega arith in
    let even : 2 * m % 2 ≡ 0 = omega arith in
    omega (arith, rw (half, even) at (bit_and-halves y (2 * m)))

-- Three digits more, of 0 or of 1.
zeros3 : (y m : ℕ) → bit_and y (8 * m) ≡ 8 * bit_and (y / 8) m
zeros3 y m =
    let e4 : 8 * m ≡ 2 * (4 * m) = omega arith in
    let e2 : 4 * m ≡ 2 * (2 * m) = omega arith in
    let d : y / 2 / 2 / 2 ≡ y / 8 = omega arith in
    omega (
      arith,
      ap (bit_and y) e4,
      double y (4 * m),
      ap (bit_and (y / 2)) e2,
      double (y / 2) (2 * m),
      rw d at (double (y / 2 / 2) m),
    )

ones3 : (y m : ℕ) → bit_and y (8 * m + 7) ≡ 8 * bit_and (y / 8) m + y % 8
ones3 y m =
    let e4 : 8 * m + 7 ≡ 2 * (4 * m + 3) + 1 = omega arith in
    let e2 : 4 * m + 3 ≡ 2 * (2 * m + 1) + 1 = omega arith in
    let d : y / 2 / 2 / 2 ≡ y / 8 = omega arith in
    omega (
      arith,
      ap (bit_and y) e4,
      bit_and_ones y (4 * m + 3),
      ap (bit_and (y / 2)) e2,
      bit_and_ones (y / 2) (2 * m + 1),
      rw d at (bit_and_ones (y / 2 / 2) m),
    )

ones9 : (y m : ℕ) → bit_and y (512 * m + 511) ≡ 512 * bit_and (y / 512) m + y % 512
ones9 y m =
    let e64 : 512 * m + 511 ≡ 8 * (64 * m + 63) + 7 = omega arith in
    let e8 : 64 * m + 63 ≡ 8 * (8 * m + 7) + 7 = omega arith in
    let d : y / 8 / 8 / 8 ≡ y / 512 = omega arith in
    omega (
      arith,
      ap (bit_and y) e64,
      ones3 y (64 * m + 63),
      ap (bit_and (y / 8)) e8,
      ones3 (y / 8) (8 * m + 7),
      rw d at (ones3 (y / 8 / 8) m),
    )

zeros9 : (y m : ℕ) → bit_and y (512 * m) ≡ 512 * bit_and (y / 512) m
zeros9 y m =
    let e64 : 512 * m ≡ 8 * (64 * m) = omega arith in
    let e8 : 64 * m ≡ 8 * (8 * m) = omega arith in
    let d : y / 8 / 8 / 8 ≡ y / 512 = omega arith in
    omega (
      arith,
      ap (bit_and y) e64,
      zeros3 y (64 * m),
      ap (bit_and (y / 8)) e8,
      zeros3 (y / 8) (8 * m),
      rw d at (zeros3 (y / 8 / 8) m),
    )

-- Masks of ones: what is left of a division.
pub bit_and_511 : (y : ℕ) → bit_and y 511 ≡ y % 512
bit_and_511 y = omega (arith, ones9 y 0, bit_and-zero (y / 512))

ones18 : (y : ℕ) → bit_and y 0x3ffff ≡ y % 2 ^ 18
ones18 y = omega (arith, ones9 y 511, bit_and_511 (y / 512))

ones27 : (y : ℕ) → bit_and y 0x7ff_ffff ≡ y % 2 ^ 27
ones27 y = omega (arith, ones9 y 0x3ffff, ones18 (y / 512))

ones36 : (y : ℕ) → bit_and y 0xf_ffff_ffff ≡ y % 2 ^ 36
ones36 y = omega (arith, ones9 y 0x7ff_ffff, ones27 (y / 512))

pub bit_and_2m : (y : ℕ) → bit_and y 0x1f_ffff ≡ y % 2 ^ 21
bit_and_2m y = omega (arith, ones3 y 0x3ffff, ones18 (y / 8))

pub bit_and_1g : (y : ℕ) → bit_and y 0x3fff_ffff ≡ y % 2 ^ 30
bit_and_1g y = omega (arith, ones3 y 0x7ff_ffff, ones27 (y / 8))

-- The addresses of a page, of a block of 2 MiB and of one of 1 GiB, in 48 digits.
pub bit_and_page_base : (y : ℕ) → bit_and y 0xffff_ffff_f000 ≡ y / 4096 % 2 ^ 36 * 4096
bit_and_page_base y =
    omega (arith, zeros9 y 0x7f_ffff_fff8, zeros3 (y / 512) 0xf_ffff_ffff, ones36 (y / 512 / 8))

pub bit_and_2m_base : (y : ℕ) → bit_and y 0xffff_ffe0_0000 ≡ y / 2 ^ 21 % 2 ^ 27 * 2 ^ 21
bit_and_2m_base y = omega (
  arith,
  zeros9 y 0x7f_ffff_f000,
  zeros9 (y / 512) 0x3fff_fff8,
  zeros3 (y / 512 / 512) 0x7ff_ffff,
  ones27 (y / 512 / 512 / 8),
)

pub bit_and_1g_base : (y : ℕ) → bit_and y 0xffff_c000_0000 ≡ y / 2 ^ 30 % 2 ^ 18 * 2 ^ 30
bit_and_1g_base y = omega (
  arith,
  zeros9 y 0x7f_ffe0_0000,
  zeros9 (y / 512) 0x3fff_f000,
  zeros9 (y / 512 / 512) 0x1f_fff8,
  zeros3 (y / 512 / 512 / 512) 0x3ffff,
  ones18 (y / 512 / 512 / 512 / 8),
)
