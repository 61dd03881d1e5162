-- ===== src/Endian.antt =====
-- The marshalling macros of base/bin_prot/lib/common_stubs.h on a platform that lacks FreeBSD's
-- functions and is not Darwin: `memcpy` of an integer with its bytes swapped where the host's order
-- differs.
pub mod Swap
pub mod Encoded
pub mod Decoded
pub mod Mapped
use ocaml_core.Prelude.{
  ℕ, zero, suc, ◌+◌, ◌*◌, ◌/◌, ◌%◌, ◌^◌, List, [], ◌∷◌, ◌++◌, bit_and, bit_or, Option, none, some,
}
use ocaml_core.Exec.{Exec}
use ocaml_core.Memory.{Memory, load, store}

-- `__BYTE_ORDER`.
pub data ByteOrder : Type 0 where
  little_endian big_endian : ByteOrder

-- The bytes of an integer in either order, and the integer that bytes stand for.
abbrev pub le_bytes : ℕ → ℕ → List ℕ
le_bytes zero n = []
le_bytes (suc k) n = n % 256 ∷ le_bytes k (n / 256)

abbrev pub be_bytes : ℕ → ℕ → List ℕ
be_bytes zero n = []
be_bytes (suc k) n = be_bytes k (n / 256) ++ n % 256 ∷ []

abbrev pub le_value : List ℕ → ℕ
le_value [] = 0
le_value (b ∷ bs) = b + 256 * le_value bs

abbrev pub be_value_from : ℕ → List ℕ → ℕ
be_value_from acc [] = acc
be_value_from acc (b ∷ bs) = be_value_from (acc * 256 + b) bs

abbrev pub be_value : List ℕ → ℕ
be_value = be_value_from 0

-- How the host lays an integer of `k` bytes out, which is what `memcpy` of its address copies.
abbrev pub native_bytes : ByteOrder → ℕ → ℕ → List ℕ
native_bytes little_endian k n = le_bytes k n
native_bytes big_endian k n = be_bytes k n

abbrev pub native_value : ByteOrder → List ℕ → ℕ
native_value little_endian bs = le_value bs
native_value big_endian bs = be_value bs

-- The portable byte swaps. An argument is the bit pattern of the macro's operand.
pub bswap_16 : ℕ → ℕ
bswap_16 x = bit_or (bit_and x 0xff * 2 ^ 8) (x % 2 ^ 16 / 2 ^ 8)

pub bswap_32 : ℕ → ℕ
bswap_32 x = bit_or (bswap_16 (bit_and x 0xffff) * 2 ^ 16 % 2 ^ 32) (bswap_16 (x / 2 ^ 16))

pub bswap_64 : ℕ → ℕ
bswap_64 x = bit_or (bswap_32 (bit_and x 0xffff_ffff) * 2 ^ 32 % 2 ^ 64) (bswap_32 (x / 2 ^ 32))

-- `htobe16` and `be16toh` are one map, as are `htole16` and `le16toh`; so for the other widths.
pub swap_be : (ℕ → ℕ) → ByteOrder → ℕ → ℕ
swap_be bswap little_endian x = bswap x
swap_be bswap big_endian x = x

pub swap_le : (ℕ → ℕ) → ByteOrder → ℕ → ℕ
swap_le bswap little_endian x = x
swap_le bswap big_endian x = bswap x

-- `none` is a read outside the mapped memory.
abbrev decode : (List ℕ → ℕ) → Option (List ℕ) → Option ℕ
decode to_number none = none
decode to_number (some bs) = some (to_number bs)

module _ (host : ByteOrder) where
  pub le16enc : ℕ → ℕ → Exec Memory (Unit {0})
  le16enc p n = store p (native_bytes host 2 (swap_le bswap_16 host n % 2 ^ 16))

  pub le32enc : ℕ → ℕ → Exec Memory (Unit {0})
  le32enc p n = store p (native_bytes host 4 (swap_le bswap_32 host n % 2 ^ 32))

  pub le64enc : ℕ → ℕ → Exec Memory (Unit {0})
  le64enc p n = store p (native_bytes host 8 (swap_le bswap_64 host n % 2 ^ 64))

  pub be16enc : ℕ → ℕ → Exec Memory (Unit {0})
  be16enc p n = store p (native_bytes host 2 (swap_be bswap_16 host n % 2 ^ 16))

  pub be32enc : ℕ → ℕ → Exec Memory (Unit {0})
  be32enc p n = store p (native_bytes host 4 (swap_be bswap_32 host n % 2 ^ 32))

  pub be64enc : ℕ → ℕ → Exec Memory (Unit {0})
  be64enc p n = store p (native_bytes host 8 (swap_be bswap_64 host n % 2 ^ 64))

  pub le16dec : Memory → ℕ → Option ℕ
  le16dec m p = decode (λ bs. swap_le bswap_16 host (native_value host bs)) (load m p 2)

  pub le32dec : Memory → ℕ → Option ℕ
  le32dec m p = decode (λ bs. swap_le bswap_32 host (native_value host bs)) (load m p 4)

  pub le64dec : Memory → ℕ → Option ℕ
  le64dec m p = decode (λ bs. swap_le bswap_64 host (native_value host bs)) (load m p 8)

  pub be16dec : Memory → ℕ → Option ℕ
  be16dec m p = decode (λ bs. swap_be bswap_16 host (native_value host bs)) (load m p 2)

  pub be32dec : Memory → ℕ → Option ℕ
  be32dec m p = decode (λ bs. swap_be bswap_32 host (native_value host bs)) (load m p 4)

  pub be64dec : Memory → ℕ → Option ℕ
  be64dec m p = decode (λ bs. swap_be bswap_64 host (native_value host bs)) (load m p 8)
