-- ===== src/Read/Fixed/RoundTrip.antt =====
-- What the fixed-width readers return on the bytes of a number.
use ocaml_core.Prelude.{ℕ, ◌+◌, ◌^◌, ◌≤◌, ◌<◌, ◌≡◌, signed, arith, if◌then◌else◌}
use ocaml_core.Exec.{ok, raised, error, int_overflow}
use ocaml_core.Memory.{Memory}
use ocaml_core.Memory.Load.{Holds}
use ocaml_core.Endian.{ByteOrder, le_bytes, be_bytes}
use ocaml_core.Endian.Decoded.{le64dec_lem, be16dec_lem, be32dec_lem, be64dec_lem}
use ocaml_core.Read.Integers.{overflows}
use ocaml_core.Read.Integers.Decoding.{nat0_16_decoded, nat0_32_decoded}
use ocaml_core.Read.Fixed.{
  read_int_16bit_stub, read_int_32bit_stub, read_int_64bit_stub, read_int64_bits_stub,
  read_network16_int_stub, read_network32_int_stub, read_network32_int32_stub,
  read_network64_int_stub, read_network64_int64_stub,
}

module _ (host : ByteOrder) (m : Memory) (eptr p : ℕ) (end : eptr < 2 ^ 63) (x : ℕ) where
  pub int_16bit-Holds :
      x < 2 ^ 16
      → Holds m p (le_bytes 2 x)
      → p + 2 ≤ eptr
      → read_int_16bit_stub host m eptr p ≡ (ok (x), p + 2)
  unfolding read_int_16bit_stub
  int_16bit-Holds small h fits = ground (arith, nat0_16_decoded host m eptr p end x h fits)

  pub int_32bit-Holds :
      x < 2 ^ 32
      → Holds m p (le_bytes 4 x)
      → p + 4 ≤ eptr
      → read_int_32bit_stub host m eptr p ≡ (ok (x), p + 4)
  unfolding read_int_32bit_stub
  int_32bit-Holds small h fits = ground (arith, nat0_32_decoded host m eptr p end x h fits)

  pub int64_bits-Holds :
      x < 2 ^ 64
      → Holds m p (le_bytes 8 x)
      → p + 8 ≤ eptr
      → read_int64_bits_stub host m eptr p ≡ (ok (signed 64 x), p + 8)
  unfolding read_int64_bits_stub
  int64_bits-Holds small h fits = ground (arith, le64dec_lem host m p x h)

  pub network16_int-Holds :
      x < 2 ^ 16
      → Holds m p (be_bytes 2 x)
      → p + 2 ≤ eptr
      → read_network16_int_stub host m eptr p ≡ (ok (x), p + 2)
  unfolding read_network16_int_stub
  network16_int-Holds small h fits = ground (arith, be16dec_lem host m p x h)

  pub network32_int-Holds :
      x < 2 ^ 32
      → Holds m p (be_bytes 4 x)
      → p + 4 ≤ eptr
      → read_network32_int_stub host m eptr p ≡ (ok (x), p + 4)
  unfolding read_network32_int_stub
  network32_int-Holds small h fits = ground (arith, be32dec_lem host m p x h)

  pub network32_int32-Holds :
      x < 2 ^ 32
      → Holds m p (be_bytes 4 x)
      → p + 4 ≤ eptr
      → read_network32_int32_stub host m eptr p ≡ (ok (signed 32 x), p + 4)
  unfolding read_network32_int32_stub
  network32_int32-Holds small h fits = ground (arith, be32dec_lem host m p x h)

  pub network64_int64-Holds :
      x < 2 ^ 64
      → Holds m p (be_bytes 8 x)
      → p + 8 ≤ eptr
      → read_network64_int64_stub host m eptr p ≡ (ok (signed 64 x), p + 8)
  unfolding read_network64_int64_stub
  network64_int64-Holds small h fits = ground (arith, be64dec_lem host m p x h)

  pub int_64bit-Holds :
      x < 2 ^ 64
      → Holds m p (le_bytes 8 x)
      → p + 8 ≤ eptr
      → read_int_64bit_stub host m eptr p ≡ (
          if overflows (signed 64 x)
          then (raised (error int_overflow), p)
          else (ok (signed 64 x), p + 8))
  unfolding read_int_64bit_stub
  int_64bit-Holds small h fits = ground (arith, le64dec_lem host m p x h)

  pub network64_int-Holds :
      x < 2 ^ 64
      → Holds m p (be_bytes 8 x)
      → p + 8 ≤ eptr
      → read_network64_int_stub host m eptr p ≡ (
          if overflows (signed 64 x)
          then (raised (error int_overflow), p)
          else (ok (signed 64 x), p + 8))
  unfolding read_network64_int_stub
  network64_int-Holds small h fits = ground (arith, be64dec_lem host m p x h)
