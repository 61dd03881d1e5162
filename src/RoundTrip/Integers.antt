-- ===== src/RoundTrip/Integers.antt =====
-- The integers: what `write_int` and `write_nat0` wrote is read back by the readers of the same type.
use ocaml_core.Prelude.{pos, negsuc, ℕ, ◌+◌, ◌^◌, ◌≤◌, ◌<◌, ◌≡◌, ℤ, List, length, arith}
use ocaml_core.Exec.{ok}
use ocaml_core.Memory.{Memory}
use ocaml_core.Endian.{ByteOrder}
use ocaml_core.Write.Emit.{IsBuffer, emit_ok}
use ocaml_core.Write.Integers.{
  write_int, write_nat0, write_int32_stub, write_int64_stub, write_nativeint_stub,
}
use ocaml_core.Write.Integers.Encoding.{
  int_bytes, nat0_bytes, IsLong, write_int-emit, write_nat0-emit,
}
use ocaml_core.Write.Integers.Forms.{
  IntForm, length-int_bytes-le, int_bytes-IntForm, nat0_bytes-NatForm,
}
use ocaml_core.Read.Integers.{read_int, read_nat0, read_int32, read_int64, read_nativeint}
use ocaml_core.Read.Integers.RoundTrip.{
  IsOcamlInt, IsInt32, read_int-IntForm, read_int32-IntForm, read_int64-IntForm,
  read_nativeint-IntForm, read_nat0-NatForm,
}
use ocaml_core.RoundTrip.{read-write}

int32_bytes_short : (n : ℤ) → IsInt32 n → length (int_bytes n) ≤ 5
int32_bytes_short (pos n) h = ground arith
int32_bytes_short (negsuc n) h = ground arith

module _ (writer reader : ByteOrder) {m : Memory} {sptr eptr : ℕ} (h : IsBuffer m sptr eptr)
    (q : ℕ) where
  -- If `write_int` of an OCaml integer (63 bits) into a mapped buffer below 2 ^ 63 returns a
  -- pointer, then `read_int` from the start of the buffer returns the same integer and leaves its
  -- pointer at the one that the writer returned, whatever the byte orders of the two hosts.
  pub read_int-write_int :
      (n : ℤ)
      → IsOcamlInt n
      → (write_int writer sptr eptr n m).0 ≡ ok q
      → read_int reader (write_int writer sptr eptr n m).1 eptr sptr ≡ (ok n, q)
  read_int-write_int n range =
      read-write (write_int writer sptr eptr n) (λ m'. read_int reader m' eptr) (int_bytes n) n
        (write_int-emit h writer n (omega arith))
        (λ m'.
          read_int-IntForm reader m' eptr sptr h.end n range (int_bytes-IntForm n (omega arith)))
        q

  -- If `write_int32_stub` of a 32-bit integer into a mapped buffer below 2 ^ 63 returns a pointer,
  -- then `read_int32` from the start returns the integer and stops at that pointer, whatever the
  -- byte orders of the two hosts.
  pub read_int32-write_int32_stub :
      (n : ℤ)
      → IsInt32 n
      → (write_int32_stub writer sptr eptr n m).0 ≡ ok q
      → read_int32 reader (write_int32_stub writer sptr eptr n m).1 eptr sptr ≡ (ok n, q)
  unfolding write_int32_stub
  read_int32-write_int32_stub n range =
      read-write (write_int writer sptr eptr n) (λ m'. read_int32 reader m' eptr) (int_bytes n) n
        (write_int-emit h writer n (omega arith))
        (λ m'.
          read_int32-IntForm reader m' eptr sptr h.end n (int32_bytes_short n range)
            (int_bytes-IntForm n (omega arith)))
        q

  -- If `write_int64_stub` of a 64-bit integer into a mapped buffer below 2 ^ 63 returns a pointer,
  -- then `read_int64` from the start returns the integer and stops at that pointer, whatever the
  -- byte orders of the two hosts.
  pub read_int64-write_int64_stub :
      (n : ℤ)
      → IsLong n
      → (write_int64_stub writer sptr eptr n m).0 ≡ ok q
      → read_int64 reader (write_int64_stub writer sptr eptr n m).1 eptr sptr ≡ (ok n, q)
  unfolding write_int64_stub
  read_int64-write_int64_stub n range =
      read-write (write_int writer sptr eptr n) (λ m'. read_int64 reader m' eptr) (int_bytes n) n
        (write_int-emit h writer n range)
        (λ m'. read_int64-IntForm reader m' eptr sptr h.end n (int_bytes-IntForm n range)) q

  -- If `write_nativeint_stub` of a 64-bit integer into a mapped buffer below 2 ^ 63 returns a
  -- pointer, then `read_nativeint` from the start returns the integer and stops at that pointer,
  -- whatever the byte orders of the two hosts.
  pub read_nativeint-write_nativeint_stub :
      (n : ℤ)
      → IsLong n
      → (write_nativeint_stub writer sptr eptr n m).0 ≡ ok q
      → read_nativeint reader (write_nativeint_stub writer sptr eptr n m).1 eptr sptr ≡ (ok n, q)
  unfolding write_nativeint_stub
  read_nativeint-write_nativeint_stub n range =
      read-write (write_int writer sptr eptr n) (λ m'. read_nativeint reader m' eptr) (int_bytes n)
        n (write_int-emit h writer n range)
        (λ m'. read_nativeint-IntForm reader m' eptr sptr h.end n (int_bytes-IntForm n range)) q

  -- If `write_nat0` of a number below 2 ^ 62 into a mapped buffer below 2 ^ 63 returns a pointer,
  -- then `read_nat0` from the start returns the number and stops at that pointer, whatever the byte
  -- orders of the two hosts.
  pub read_nat0-write_nat0 :
      (n : ℕ)
      → n < 2 ^ 62
      → (write_nat0 writer sptr eptr n m).0 ≡ ok q
      → read_nat0 reader (write_nat0 writer sptr eptr n m).1 eptr sptr ≡ (ok n, q)
  read_nat0-write_nat0 n range =
      read-write (write_nat0 writer sptr eptr n) (λ m'. read_nat0 reader m' eptr) (nat0_bytes n) n
        (write_nat0-emit h writer n (omega arith))
        (λ m'.
          read_nat0-NatForm reader m' eptr sptr h.end n range (nat0_bytes-NatForm n (omega arith)))
        q

  -- Of the forms that the protocol has for a `long`, none is shorter than what `write_int` wrote,
  -- if it returned a pointer into a mapped buffer below 2 ^ 63.
  pub write_int_shortest :
      (n : ℤ) {bs : List ℕ}
      → IsLong n
      → IntForm n bs
      → (write_int writer sptr eptr n m).0 ≡ ok q
      → q ≤ sptr + length bs
  write_int_shortest n range form wrote =
      let (next, fits, left) =
        emit_ok (int_bytes n) sptr eptr m q (rw (write_int-emit h writer n range) at wrote) in
      omega (arith, length-int_bytes-le n form)
