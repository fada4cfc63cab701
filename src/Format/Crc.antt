-- ===== src/Format/Crc.antt =====
-- tools/ohlink-toolchain/crates/ohlink-format/src/crc32.rs: the checksum of a file.
mod Table
use capsule_os.Base.{ℕ, ◌-◌, ◌/◌, ◌^◌, ◌<◌, ◌≡◌, refl, List, [], ◌∷◌, get_or, bit_and, arith}
use Prim.Native.Nat.{bit_xor}
use Table.{crc32_table}

-- One byte of the loop.
unfoldable pub crc_step : ℕ → ℕ → ℕ
crc_step crc byte = bit_xor (crc / 2 ^ 8) (get_or crc32_table (bit_and (bit_xor crc byte) 0xff) 0)

unfoldable pub crc_loop : ℕ → List ℕ → ℕ
crc_loop crc [] = crc
crc_loop crc (b ∷ bs) = crc_loop (crc_step crc b) bs

-- `!crc` on 32 bits.
abbrev pub complement : ℕ → ℕ
complement crc = 0xffff_ffff - crc

unfoldable pub crc32_ieee : List ℕ → ℕ
unfolding crc_loop
crc32_ieee bytes = complement (crc_loop 0xffff_ffff bytes)

pub crc32_ieee-lt : (bytes : List ℕ) → crc32_ieee bytes < 2 ^ 32
unfolding crc32_ieee
crc32_ieee-lt bytes = omega arith
