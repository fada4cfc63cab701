-- ===== src/Format/Checksum.antt =====
-- The checksum that the parser recomputes (tools/ohlink-toolchain/crates/ohlink-format/src/parser.rs)
-- against the one that the builder writes.
use capsule_os.Base.{
  ℕ, zero, suc, ◌+◌, ◌-◌, ◌≤◌, ◌≡◌, refl, sym, ap₂, ◌∙◌, List, [], ◌∷◌, ◌++◌, length, take, drop,
  arith, true, false, leb, ltb,
}
use capsule_os.Format.Crc.{crc_step, crc_loop}
use capsule_os.Format.Header.{Header, to_bytes}
use capsule_os.Format.Parser.{checksum_loop}

-- Past the checksum's bytes, the parser's loop is the plain one.
checksum_loop-past :
    (bytes : List ℕ) (i n crc : ℕ)
    → 34 ≤ i
    → length bytes ≤ n
    → checksum_loop i n crc bytes ≡ crc_loop crc bytes
unfolding checksum_loop crc_loop
checksum_loop-past [] i zero crc hi hn = refl
checksum_loop-past [] i (suc n) crc hi hn = refl
checksum_loop-past (b ∷ bs) i zero crc hi hn = absurd (omega arith)
checksum_loop-past (b ∷ bs) i (suc n) crc hi hn =
    let outside : ltb i 34 ≡ false = ground arith in
    let inside : leb 30 i ≡ true = ground arith in
    rw (outside, inside)
      (checksum_loop-past bs (i + 1) n (crc_step crc b) (omega arith) (omega arith))

-- Before them, too.
checksum_loop-before :
    (pre rest : List ℕ) (i n crc : ℕ)
    → i + length pre ≤ 30
    → length pre ≤ n
    → checksum_loop i n crc (pre ++ rest)
      ≡ checksum_loop (i + length pre) (n - length pre) (crc_loop crc pre) rest
unfolding checksum_loop crc_loop
checksum_loop-before [] rest i n crc hi hn =
    ap₂ (λ j m. checksum_loop j m crc rest) {x = i} {y = i + 0} {u = n} {v = n - 0} (omega arith)
      (omega arith)
checksum_loop-before (b ∷ bs) rest i zero crc hi hn = absurd (omega arith)
checksum_loop-before (b ∷ bs) rest i (suc n) crc hi hn =
    let outside : leb 30 i ≡ false = ground arith in
    rw outside (
      checksum_loop-before bs rest (i + 1) n (crc_step crc b) (omega arith) (omega arith)
      ∙ ap₂ (λ j m. checksum_loop j m (crc_loop (crc_step crc b) bs) rest) {x = i + 1 + length bs}
          {y = i + length (b ∷ bs)} {u = n - length bs} {v = suc n - length (b ∷ bs)} (omega arith)
          (omega arith))

crc_loop-append :
    (xs ys : List ℕ) (crc : ℕ) → crc_loop crc (xs ++ ys) ≡ crc_loop (crc_loop crc xs) ys
unfolding crc_loop
crc_loop-append [] ys crc = refl
crc_loop-append (x ∷ xs) ys crc = crc_loop-append xs ys (crc_step crc x)

-- The four bytes of the checksum count as zeros.
checksum_loop-masked :
    (a b c d : ℕ) (rest : List ℕ) (n crc : ℕ)
    → 4 + length rest ≤ n
    → checksum_loop 30 n crc (a ∷ b ∷ c ∷ d ∷ rest) ≡ crc_loop crc (0 ∷ 0 ∷ 0 ∷ 0 ∷ rest)
unfolding checksum_loop crc_loop
checksum_loop-masked a b c d rest zero crc h = absurd (omega arith)
checksum_loop-masked a b c d rest (suc zero) crc h = absurd (omega arith)
checksum_loop-masked a b c d rest (suc (suc zero)) crc h = absurd (omega arith)
checksum_loop-masked a b c d rest (suc (suc (suc zero))) crc h = absurd (omega arith)
checksum_loop-masked a b c d rest (suc (suc (suc (suc n)))) crc h =
    checksum_loop-past rest 34 n _ (omega arith) (omega arith)

-- Over a header and what follows it, with a limit that is not below their length, the parser's loop,
-- which passes over the checksum's own bytes, computes the plain checksum of the same bytes with the
-- header's checksum set to 0.
pub checksum_loop-to_bytes :
    (h : Header) (rest : List ℕ) (n crc : ℕ)
    → length (to_bytes h ++ rest) ≤ n
    → checksum_loop 0 n crc (to_bytes h ++ rest)
      ≡ crc_loop crc (to_bytes (record h { checksum = 0 }) ++ rest)
unfolding to_bytes
checksum_loop-to_bytes h rest n crc hn =
    let bytes = to_bytes h ++ rest in
    let pre = take 30 bytes in
    let post = drop 34 bytes in
    checksum_loop-before pre (drop 30 bytes) 0 n crc (omega arith) (omega arith)
    ∙ checksum_loop-masked _ _ _ _ post (n - 30) (crc_loop crc pre) (omega arith)
    ∙ sym (crc_loop-append pre (0 ∷ 0 ∷ 0 ∷ 0 ∷ post) crc)
