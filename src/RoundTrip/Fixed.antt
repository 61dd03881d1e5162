-- ===== src/RoundTrip/Fixed.antt =====
-- The fixed-width integers.
use ocaml_core.Prelude.{ℕ, ◌^◌, ◌<◌, ◌≡◌, false, ℤ, pos, negsuc, wrap, signed, arith, ◌∙◌, ap}
use ocaml_core.Exec.{ok}
use ocaml_core.Memory.{Memory}
use ocaml_core.Endian.{ByteOrder, le_bytes, be_bytes}
use ocaml_core.Write.Emit.{IsBuffer, emit}
use ocaml_core.Write.Integers.Encoding.{IsLong}
use ocaml_core.Write.Fixed.{
  write_int_16bit_stub, write_int_32bit_stub, write_int_64bit_stub, write_int64_bits_stub,
  write_network16_int_stub, write_network32_int_stub, write_network32_int32_stub,
  write_network64_int_stub, write_network64_int64_stub,
}
use ocaml_core.Write.Fixed.Layout.{
  int_16bit-emit, int_32bit-emit, int_64bit-emit, int64_bits-emit, network16_int-emit,
  network32_int-emit, network32_int32-emit, network64_int-emit, network64_int64-emit,
}
use ocaml_core.Read.Integers.{overflows}
use ocaml_core.Read.Integers.RoundTrip.{IsOcamlInt, IsInt32}
use ocaml_core.Read.Fixed.{
  read_int_16bit_stub, read_int_32bit_stub, read_int_64bit_stub, read_int64_bits_stub,
  read_network16_int_stub, read_network32_int_stub, read_network32_int32_stub,
  read_network64_int_stub, read_network64_int64_stub,
}
use ocaml_core.Read.Fixed.RoundTrip.{
  int_16bit-Holds, int_32bit-Holds, int_64bit-Holds, int64_bits-Holds, network16_int-Holds,
  network32_int-Holds, network32_int32-Holds, network64_int-Holds, network64_int64-Holds,
}
use ocaml_core.RoundTrip.{read-write}

le_low : (n : ℤ) → le_bytes 2 (wrap 32 n) ≡ le_bytes 2 (wrap 16 n)
le_low n = ground arith

be_low : (n : ℤ) → be_bytes 2 (wrap 32 n) ≡ be_bytes 2 (wrap 16 n)
be_low n = ground arith

wrap-lt : (n : ℤ) → (wrap 16 n < 2 ^ 16) × (wrap 32 n < 2 ^ 32) × (wrap 64 n < 2 ^ 64)
wrap-lt (pos n) = omega arith
wrap-lt (negsuc n) = omega arith

signed-wrap32 : (n : ℤ) → IsInt32 n → signed 32 (wrap 32 n) ≡ n
signed-wrap32 n h = ground arith

signed-wrap64 : (n : ℤ) → IsLong n → signed 64 (wrap 64 n) ≡ n
signed-wrap64 n h = ground arith

not_overflows : (n : ℤ) → IsOcamlInt n → overflows n ≡ false
not_overflows n h = ground arith

module _ (writer reader : ByteOrder) {m : Memory} {sptr eptr : ℕ} (h : IsBuffer m sptr eptr) (q : ℕ)
    (n : ℤ) where
  -- If `write_int_16bit_stub` of an OCaml integer returns a pointer into a mapped buffer below 2 ^
  -- 63, then `read_int_16bit_stub` from the start returns its low 16 bits, unsigned, and stops at
  -- that pointer, whatever the byte orders of the two hosts.
  pub read_int_16bit-write_int_16bit :
      (write_int_16bit_stub writer sptr eptr n m).0 ≡ ok q
      → read_int_16bit_stub reader (write_int_16bit_stub writer sptr eptr n m).1 eptr sptr
        ≡ (ok (wrap 16 n), q)
  read_int_16bit-write_int_16bit =
      read-write (write_int_16bit_stub writer sptr eptr n)
        (λ m'. read_int_16bit_stub reader m' eptr) (le_bytes 2 (wrap 16 n)) (wrap 16 n)
        (int_16bit-emit h n writer ∙ ap (λ bs. emit bs sptr eptr m) (le_low n))
        (λ m' hb fits.
          int_16bit-Holds reader m' eptr sptr h.end (wrap 16 n) (wrap-lt n).0 hb (omega arith))
        q

  -- A number written by write_int_32bit is read back as its low 32 bits, unsigned.
  pub read_int_32bit-write_int_32bit :
      (write_int_32bit_stub writer sptr eptr n m).0 ≡ ok q
      → read_int_32bit_stub reader (write_int_32bit_stub writer sptr eptr n m).1 eptr sptr
        ≡ (ok (wrap 32 n), q)
  read_int_32bit-write_int_32bit =
      read-write (write_int_32bit_stub writer sptr eptr n)
        (λ m'. read_int_32bit_stub reader m' eptr) (le_bytes 4 (wrap 32 n)) (wrap 32 n)
        (int_32bit-emit h n writer)
        (λ m' hb fits.
          int_32bit-Holds reader m' eptr sptr h.end (wrap 32 n) (wrap-lt n).1 hb (omega arith))
        q

  -- If `write_int_64bit_stub` of a 63-bit OCaml integer returns a pointer into a mapped buffer
  -- below 2 ^ 63, then `read_int_64bit_stub` from the start returns the integer and stops at that
  -- pointer, whatever the byte orders of the two hosts.
  pub read_int_64bit-write_int_64bit :
      IsOcamlInt n
      → (write_int_64bit_stub writer sptr eptr n m).0 ≡ ok q
      → read_int_64bit_stub reader (write_int_64bit_stub writer sptr eptr n m).1 eptr sptr
        ≡ (ok (n), q)
  read_int_64bit-write_int_64bit range =
      read-write (write_int_64bit_stub writer sptr eptr n)
        (λ m'. read_int_64bit_stub reader m' eptr) (le_bytes 8 (wrap 64 n)) (n)
        (int_64bit-emit h n writer)
        (λ m' hb fits.
          rw (signed-wrap64 n (omega arith), not_overflows n range) at
            (int_64bit-Holds reader m' eptr sptr h.end (wrap 64 n) (wrap-lt n).2 hb (omega arith)))
        q

  -- A number written by write_int64_bits is read back, sign included.
  pub read_int64_bits-write_int64_bits :
      IsLong n
      → (write_int64_bits_stub writer sptr eptr n m).0 ≡ ok q
      → read_int64_bits_stub reader (write_int64_bits_stub writer sptr eptr n m).1 eptr sptr
        ≡ (ok (n), q)
  read_int64_bits-write_int64_bits range =
      read-write (write_int64_bits_stub writer sptr eptr n)
        (λ m'. read_int64_bits_stub reader m' eptr) (le_bytes 8 (wrap 64 n)) (n)
        (int64_bits-emit h n writer)
        (λ m' hb fits.
          rw (signed-wrap64 n range) at
            (int64_bits-Holds reader m' eptr sptr h.end (wrap 64 n) (wrap-lt n).2 hb (omega arith)))
        q

  -- If `write_network16_int_stub` of an OCaml integer returns a pointer into a mapped buffer below
  -- 2 ^ 63, then `read_network16_int_stub` from the start returns its low 16 bits, unsigned, and
  -- stops at that pointer, whatever the byte orders of the two hosts.
  pub read_network16_int-write_network16_int :
      (write_network16_int_stub writer sptr eptr n m).0 ≡ ok q
      → read_network16_int_stub reader (write_network16_int_stub writer sptr eptr n m).1 eptr sptr
        ≡ (ok (wrap 16 n), q)
  read_network16_int-write_network16_int =
      read-write (write_network16_int_stub writer sptr eptr n)
        (λ m'. read_network16_int_stub reader m' eptr) (be_bytes 2 (wrap 16 n)) (wrap 16 n)
        (network16_int-emit h n writer ∙ ap (λ bs. emit bs sptr eptr m) (be_low n))
        (λ m' hb fits.
          network16_int-Holds reader m' eptr sptr h.end (wrap 16 n) (wrap-lt n).0 hb (omega arith))
        q

  -- A number written by write_network32_int is read back as its low 32 bits, unsigned.
  pub read_network32_int-write_network32_int :
      (write_network32_int_stub writer sptr eptr n m).0 ≡ ok q
      → read_network32_int_stub reader (write_network32_int_stub writer sptr eptr n m).1 eptr sptr
        ≡ (ok (wrap 32 n), q)
  read_network32_int-write_network32_int =
      read-write (write_network32_int_stub writer sptr eptr n)
        (λ m'. read_network32_int_stub reader m' eptr) (be_bytes 4 (wrap 32 n)) (wrap 32 n)
        (network32_int-emit h n writer)
        (λ m' hb fits.
          network32_int-Holds reader m' eptr sptr h.end (wrap 32 n) (wrap-lt n).1 hb (omega arith))
        q

  -- If `write_network32_int32_stub` of a signed 32-bit integer returns a pointer into a mapped
  -- buffer below 2 ^ 63, then `read_network32_int32_stub` from the start returns the integer, sign
  -- included, and stops at that pointer, whatever the byte orders of the two hosts.
  pub read_network32_int32-write_network32_int32 :
      IsInt32 n
      → (write_network32_int32_stub writer sptr eptr n m).0 ≡ ok q
      → read_network32_int32_stub reader
          (write_network32_int32_stub writer sptr eptr n m).1
          eptr
          sptr
        ≡ (ok (n), q)
  read_network32_int32-write_network32_int32 range =
      read-write (write_network32_int32_stub writer sptr eptr n)
        (λ m'. read_network32_int32_stub reader m' eptr) (be_bytes 4 (wrap 32 n)) (n)
        (network32_int32-emit h n writer)
        (λ m' hb fits. rw (signed-wrap32 n range) at (
          network32_int32-Holds reader m' eptr sptr h.end (wrap 32 n) (wrap-lt n).1 hb
            (omega arith)))
        q

  -- If `write_network64_int_stub` of a 63-bit OCaml integer returns a pointer into a mapped buffer
  -- below 2 ^ 63, then `read_network64_int_stub` from the start returns the integer and stops at
  -- that pointer, whatever the byte orders of the two hosts.
  pub read_network64_int-write_network64_int :
      IsOcamlInt n
      → (write_network64_int_stub writer sptr eptr n m).0 ≡ ok q
      → read_network64_int_stub reader (write_network64_int_stub writer sptr eptr n m).1 eptr sptr
        ≡ (ok (n), q)
  read_network64_int-write_network64_int range =
      read-write (write_network64_int_stub writer sptr eptr n)
        (λ m'. read_network64_int_stub reader m' eptr) (be_bytes 8 (wrap 64 n)) (n)
        (network64_int-emit h n writer)
        (λ m' hb fits.
          rw (signed-wrap64 n (omega arith), not_overflows n range) at
            (network64_int-Holds reader m' eptr sptr h.end (wrap 64 n) (wrap-lt n).2 hb
              (omega arith)))
        q

  -- A number written by write_network64_int64 is read back, sign included.
  pub read_network64_int64-write_network64_int64 :
      IsLong n
      → (write_network64_int64_stub writer sptr eptr n m).0 ≡ ok q
      → read_network64_int64_stub reader
          (write_network64_int64_stub writer sptr eptr n m).1
          eptr
          sptr
        ≡ (ok (n), q)
  read_network64_int64-write_network64_int64 range =
      read-write (write_network64_int64_stub writer sptr eptr n)
        (λ m'. read_network64_int64_stub reader m' eptr) (be_bytes 8 (wrap 64 n)) (n)
        (network64_int64-emit h n writer)
        (λ m' hb fits. rw (signed-wrap64 n range) at (
          network64_int64-Holds reader m' eptr sptr h.end (wrap 64 n) (wrap-lt n).2 hb
            (omega arith)))
        q
