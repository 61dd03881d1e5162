-- ===== src/Endian/Swap.antt =====
-- The byte swaps of common_stubs.h as arithmetic.
use ocaml_core.Prelude.{ℕ, ◌+◌, ◌*◌, ◌/◌, ◌%◌, ◌^◌, ◌<◌, ◌≡◌, arith}
use ocaml_core.Prelude.Bits.{bit_or_disjoint, bit_and_low}
use ocaml_core.Endian.{bswap_16, bswap_32, bswap_64}

pub bswap_16_sum : (x : ℕ) → bswap_16 x ≡ x % 256 * 256 + x / 256 % 256
unfolding bswap_16
bswap_16_sum x =
    rw (bit_and_low 8 x, bit_or_disjoint 8 (x % 2 ^ 8) (x % 2 ^ 16 / 2 ^ 8) (omega arith))
      (omega arith)

pub bswap_32_sum : (x : ℕ) → bswap_32 x ≡ bswap_16 x * 2 ^ 16 + bswap_16 (x / 2 ^ 16)
unfolding bswap_32
bswap_32_sum x = ground (
  arith,
  bit_and_low 16 x,
  bswap_16_sum x,
  bswap_16_sum (x % 2 ^ 16),
  bswap_16_sum (x / 2 ^ 16),
  bit_or_disjoint 16 (bswap_16 x) (bswap_16 (x / 2 ^ 16)),
)

bswap_32-lt : (x : ℕ) → bswap_32 x < 2 ^ 32
bswap_32-lt x = omega (arith, bswap_32_sum x, bswap_16_sum x, bswap_16_sum (x / 2 ^ 16))

bswap_32-mod : (x : ℕ) → bswap_32 (x % 2 ^ 32) ≡ bswap_32 x
bswap_32-mod x = omega (
  arith,
  bswap_32_sum x,
  bswap_32_sum (x % 2 ^ 32),
  bswap_16_sum x,
  bswap_16_sum (x % 2 ^ 32),
  bswap_16_sum (x / 2 ^ 16),
  bswap_16_sum (x % 2 ^ 32 / 2 ^ 16),
)

pub bswap_64_sum : (x : ℕ) → bswap_64 x ≡ bswap_32 x * 2 ^ 32 + bswap_32 (x / 2 ^ 32)
unfolding bswap_64
bswap_64_sum x = ground (
  arith,
  bit_and_low 32 x,
  bswap_32-mod x,
  bswap_32-lt x,
  bswap_32-lt (x / 2 ^ 32),
  bit_or_disjoint 32 (bswap_32 x) (bswap_32 (x / 2 ^ 32)),
)
