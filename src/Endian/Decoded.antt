-- ===== src/Endian/Decoded.antt =====
-- What the decoders of common_stubs.h return, on hosts of either byte order.
use ocaml_core.Prelude.{ℕ, ◌/◌, ◌%◌, ◌^◌, ◌≡◌, ap, arith, some}
use ocaml_core.Memory.{Memory}
use ocaml_core.Endian.{
  ByteOrder, little_endian, big_endian, bswap_16, bswap_32, bswap_64, le_bytes, be_bytes, le_value,
  be_value, swap_le, swap_be, le16dec, le32dec, le64dec, be16dec, be32dec, be64dec, native_value,
}
use ocaml_core.Memory.Load.{Holds, load-Holds}
use ocaml_core.Endian.Swap.{bswap_16_sum, bswap_32_sum, bswap_64_sum}

native_value_le16 :
    (host : ByteOrder) (n : ℕ)
    → swap_le bswap_16 host (native_value host (le_bytes 2 n)) ≡ n % 2 ^ 16
unfolding swap_le
native_value_le16 little_endian n = omega arith
native_value_le16 big_endian n = omega (arith, bswap_16_sum (be_value (le_bytes 2 n)))

native_value_le32 :
    (host : ByteOrder) (n : ℕ)
    → swap_le bswap_32 host (native_value host (le_bytes 4 n)) ≡ n % 2 ^ 32
unfolding swap_le
native_value_le32 little_endian n = omega arith
native_value_le32 big_endian n =
    let x : ℕ = be_value (le_bytes 4 n) in
    omega (arith, bswap_32_sum x, bswap_16_sum x, bswap_16_sum (x / 2 ^ 16))

native_value_le64 :
    (host : ByteOrder) (n : ℕ)
    → swap_le bswap_64 host (native_value host (le_bytes 8 n)) ≡ n % 2 ^ 64
unfolding swap_le
native_value_le64 little_endian n = omega arith
native_value_le64 big_endian n =
    let x : ℕ = be_value (le_bytes 8 n) in
    omega (
      arith,
      bswap_64_sum x,
      bswap_32_sum x,
      bswap_32_sum (x / 2 ^ 32),
      bswap_16_sum x,
      bswap_16_sum (x / 2 ^ 16),
      bswap_16_sum (x / 2 ^ 32),
      bswap_16_sum (x / 2 ^ 32 / 2 ^ 16),
    )

native_value_be16 :
    (host : ByteOrder) (n : ℕ)
    → swap_be bswap_16 host (native_value host (be_bytes 2 n)) ≡ n % 2 ^ 16
unfolding swap_be
native_value_be16 big_endian n = omega arith
native_value_be16 little_endian n = omega (arith, bswap_16_sum (le_value (be_bytes 2 n)))

native_value_be32 :
    (host : ByteOrder) (n : ℕ)
    → swap_be bswap_32 host (native_value host (be_bytes 4 n)) ≡ n % 2 ^ 32
unfolding swap_be
native_value_be32 big_endian n = omega arith
native_value_be32 little_endian n =
    let x : ℕ = le_value (be_bytes 4 n) in
    omega (arith, bswap_32_sum x, bswap_16_sum x, bswap_16_sum (x / 2 ^ 16))

native_value_be64 :
    (host : ByteOrder) (n : ℕ)
    → swap_be bswap_64 host (native_value host (be_bytes 8 n)) ≡ n % 2 ^ 64
unfolding swap_be
native_value_be64 big_endian n = omega arith
native_value_be64 little_endian n =
    let x : ℕ = le_value (be_bytes 8 n) in
    omega (
      arith,
      bswap_64_sum x,
      bswap_32_sum x,
      bswap_32_sum (x / 2 ^ 32),
      bswap_16_sum x,
      bswap_16_sum (x / 2 ^ 16),
      bswap_16_sum (x / 2 ^ 32),
      bswap_16_sum (x / 2 ^ 32 / 2 ^ 16),
    )

-- Each decoder gives back the number whose bytes it finds, whatever the host's order.
module _ (host : ByteOrder) (m : Memory) (p n : ℕ) where
  pub le16dec_lem : Holds m p (le_bytes 2 n) → le16dec host m p ≡ some (n % 2 ^ 16)
  unfolding le16dec
  le16dec_lem h = rw (load-Holds (le_bytes 2 n) m p h) (ap some (native_value_le16 host n))

  pub le32dec_lem : Holds m p (le_bytes 4 n) → le32dec host m p ≡ some (n % 2 ^ 32)
  unfolding le32dec
  le32dec_lem h = rw (load-Holds (le_bytes 4 n) m p h) (ap some (native_value_le32 host n))

  pub le64dec_lem : Holds m p (le_bytes 8 n) → le64dec host m p ≡ some (n % 2 ^ 64)
  unfolding le64dec
  le64dec_lem h = rw (load-Holds (le_bytes 8 n) m p h) (ap some (native_value_le64 host n))

  pub be16dec_lem : Holds m p (be_bytes 2 n) → be16dec host m p ≡ some (n % 2 ^ 16)
  unfolding be16dec
  be16dec_lem h = rw (load-Holds (be_bytes 2 n) m p h) (ap some (native_value_be16 host n))

  pub be32dec_lem : Holds m p (be_bytes 4 n) → be32dec host m p ≡ some (n % 2 ^ 32)
  unfolding be32dec
  be32dec_lem h = rw (load-Holds (be_bytes 4 n) m p h) (ap some (native_value_be32 host n))

  pub be64dec_lem : Holds m p (be_bytes 8 n) → be64dec host m p ≡ some (n % 2 ^ 64)
  unfolding be64dec
  be64dec_lem h = rw (load-Holds (be_bytes 8 n) m p h) (ap some (native_value_be64 host n))
