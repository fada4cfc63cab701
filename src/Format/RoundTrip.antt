-- ===== src/Format/RoundTrip.antt =====
-- What the parser (tools/ohlink-toolchain/crates/ohlink-format/src/parser.rs) reads from a file that
-- the builder wrote.
use capsule_os.Base.{
  ℕ, ◌≤◌, ◌≡◌, refl, sym, subst, ap, List, ◌++◌, length, arith, true, false, leb, ltb, ◌==◌,
  ==_refl,
}
use capsule_os.Format.Words.{parsed}
use capsule_os.Format.Crc.{complement, crc32_ieee}
use capsule_os.Format.Header.{
  Header, header_size, to_bytes, from_bytes, from_bytes-to_bytes, length-to_bytes,
}
use capsule_os.Format.Builder.{Builder, build}
use capsule_os.Format.Checksum.{checksum_loop-to_bytes}
use capsule_os.Format.Parser.{calculated_checksum, new}
use capsule_os.Format.Written.{
  IsValid, after_header, written_header, build_lem, written_header-IsValid, length-build,
}

new_ok :
    (bytes : List ℕ) (h : Header)
    → header_size ≤ length bytes
    → from_bytes bytes ≡ parsed h
    → length bytes ≡ h.file_size
    → calculated_checksum h bytes ≡ h.checksum
    → new bytes ≡ parsed (record { bytes = bytes; header = h })
unfolding new
new_ok bytes h long read size crc =
    let long_test : ltb (length bytes) header_size ≡ false = ground (arith, long) in
    let whole : ltb (length bytes) h.file_size ≡ false = ground (arith, size) in
    let same : (h.checksum == h.checksum) ≡ true = ==_refl h.checksum in
    rw (new, long_test, read, whole, crc, same) refl

calculated_checksum-written :
    (b : Builder)
    → IsValid b
    → calculated_checksum (written_header b) (to_bytes (written_header b) ++ after_header b)
      ≡ (written_header b).checksum
unfolding calculated_checksum crc32_ieee
calculated_checksum-written b v =
    let h = written_header b in
    let rest = after_header b in
    let hv = written_header-IsValid b v in
    let size = length-build b h.checksum v hv.checksum in
    let some_bytes : leb 32 (length (to_bytes h ++ rest)) ≡ true =
      ground (arith, length-to_bytes h rest hv) in
    let crc = checksum_loop-to_bytes h rest h.file_size 0xffff_ffff (omega (arith, size)) in
    rw some_bytes (ap complement crc)

-- The parser takes the file that is built from a builder whose fields fit their words, with the table
-- right behind the header, the count of its segments, and offsets that fit 64 bits; it reads the
-- builder's header, with the start of the data, the size of the file and the checksum that were
-- written.
pub new-build :
    (b : Builder)
    → IsValid b
    → new (build b) ≡ parsed (record { bytes = build b; header = written_header b })
new-build b v =
    let h = written_header b in
    let rest = after_header b in
    let hv = written_header-IsValid b v in
    let opened : new (to_bytes h ++ rest)
        ≡ parsed (record { bytes = to_bytes h ++ rest; header = h }) =
      new_ok (to_bytes h ++ rest) h (omega (arith, length-to_bytes h rest hv))
        (from_bytes-to_bytes h rest hv) (length-build b h.checksum v hv.checksum)
        (calculated_checksum-written b v) in
    subst (λ f. new f ≡ parsed (record { bytes = f; header = h })) (sym (build_lem b v)) opened
