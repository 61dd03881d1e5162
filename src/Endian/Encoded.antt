-- ===== src/Endian/Encoded.antt =====
-- What the encoders of common_stubs.h store, on hosts of either byte order.
use ocaml_core.Prelude.{ℕ, ◌/◌, ◌%◌, ◌^◌, ◌≡◌, ap, arith}
use ocaml_core.Memory.{store}
use ocaml_core.Endian.{
  ByteOrder, little_endian, big_endian, bswap_16, bswap_32, bswap_64, le_bytes, be_bytes,
  native_bytes, swap_le, swap_be, le16enc, le32enc, le64enc, be16enc, be32enc, be64enc,
}
use ocaml_core.Endian.Swap.{bswap_16_sum, bswap_32_sum, bswap_64_sum}

native_bytes_le16 :
    (host : ByteOrder) (n : ℕ)
    → native_bytes host 2 (swap_le bswap_16 host n % 2 ^ 16) ≡ le_bytes 2 n
unfolding swap_le
native_bytes_le16 little_endian n = ground arith
native_bytes_le16 big_endian n = ground (arith, bswap_16_sum n)

native_bytes_be16 :
    (host : ByteOrder) (n : ℕ)
    → native_bytes host 2 (swap_be bswap_16 host n % 2 ^ 16) ≡ be_bytes 2 n
unfolding swap_be
native_bytes_be16 little_endian n = ground (arith, bswap_16_sum n)
native_bytes_be16 big_endian n = ground arith

native_bytes_le32 :
    (host : ByteOrder) (n : ℕ)
    → native_bytes host 4 (swap_le bswap_32 host n % 2 ^ 32) ≡ le_bytes 4 n
unfolding swap_le
native_bytes_le32 little_endian n = ground arith
native_bytes_le32 big_endian n =
    ground (arith, bswap_32_sum n, bswap_16_sum n, bswap_16_sum (n / 2 ^ 16))

native_bytes_be32 :
    (host : ByteOrder) (n : ℕ)
    → native_bytes host 4 (swap_be bswap_32 host n % 2 ^ 32) ≡ be_bytes 4 n
unfolding swap_be
native_bytes_be32 little_endian n =
    ground (arith, bswap_32_sum n, bswap_16_sum n, bswap_16_sum (n / 2 ^ 16))
native_bytes_be32 big_endian n = ground arith

native_bytes_le64 :
    (host : ByteOrder) (n : ℕ)
    → native_bytes host 8 (swap_le bswap_64 host n % 2 ^ 64) ≡ le_bytes 8 n
unfolding swap_le
native_bytes_le64 little_endian n = ground arith
native_bytes_le64 big_endian n = ground (
  arith,
  bswap_64_sum n,
  bswap_32_sum n,
  bswap_32_sum (n / 2 ^ 32),
  bswap_16_sum n,
  bswap_16_sum (n / 2 ^ 16),
  bswap_16_sum (n / 2 ^ 32),
  bswap_16_sum (n / 2 ^ 32 / 2 ^ 16),
)

native_bytes_be64 :
    (host : ByteOrder) (n : ℕ)
    → native_bytes host 8 (swap_be bswap_64 host n % 2 ^ 64) ≡ be_bytes 8 n
unfolding swap_be
native_bytes_be64 little_endian n = ground (
  arith,
  bswap_64_sum n,
  bswap_32_sum n,
  bswap_32_sum (n / 2 ^ 32),
  bswap_16_sum n,
  bswap_16_sum (n / 2 ^ 16),
  bswap_16_sum (n / 2 ^ 32),
  bswap_16_sum (n / 2 ^ 32 / 2 ^ 16),
)
native_bytes_be64 big_endian n = ground arith

-- Each encoder stores the little-endian or the big-endian bytes, whatever the host's order.
module _ (host : ByteOrder) (p n : ℕ) where
  pub le16enc_lem : le16enc host p n ≡ store p (le_bytes 2 n)
  unfolding le16enc
  le16enc_lem = ap (store p) (native_bytes_le16 host n)

  pub le32enc_lem : le32enc host p n ≡ store p (le_bytes 4 n)
  unfolding le32enc
  le32enc_lem = ap (store p) (native_bytes_le32 host n)

  -- `le64enc` stores the little-endian bytes of the number's low 64 bits at the address, whatever
  -- the byte order of the host.
  pub le64enc_lem : le64enc host p n ≡ store p (le_bytes 8 n)
  unfolding le64enc
  le64enc_lem = ap (store p) (native_bytes_le64 host n)

  pub be16enc_lem : be16enc host p n ≡ store p (be_bytes 2 n)
  unfolding be16enc
  be16enc_lem = ap (store p) (native_bytes_be16 host n)

  pub be32enc_lem : be32enc host p n ≡ store p (be_bytes 4 n)
  unfolding be32enc
  be32enc_lem = ap (store p) (native_bytes_be32 host n)

  -- `be64enc` stores the big-endian bytes of the number's low 64 bits at the address, whatever the
  -- byte order of the host.
  pub be64enc_lem : be64enc host p n ≡ store p (be_bytes 8 n)
  unfolding be64enc
  be64enc_lem = ap (store p) (native_bytes_be64 host n)
