-- ===== src/Crc.antt =====
-- The checksums of base/core/lib/misc.c: crc32 with its table, and crc_octets. Octets are numbers
-- below 256; the static table is a function from indices.
pub mod Xor
pub mod Bitwise
use ocaml_core.Prelude.{
  ℕ, zero, suc, ◌+◌, ◌*◌, ◌/◌, ◌%◌, ◌^◌, List, [], ◌∷◌, bit_and, bit_xor, ltb, wrap, signed, ◌==◌,
  if◌then◌else◌,
}

-- `crc_table`, zero until it is made.
abbrev pub Table : Type 0
Table = ℕ → ℕ

abbrev pub empty_table : Table
empty_table i = 0

abbrev pub set : Table → ℕ → ℕ → Table
set table i x k = if k == i then x else table k

abbrev pub polynomial : ℕ
polynomial = 0xedb8_8320

-- `(h >> 1) ^ ((h & 1) ? POLYNOMIAL : 0)`.
unfoldable pub crc_step : ℕ → ℕ
crc_step h = bit_xor (h / 2) (if bit_and h 1 == 0 then 0 else polynomial)

-- The inner loop, over `j = 0, 2 * i, ...`; 256 turns are enough, since `i` is positive.
pub fill : ℕ → ℕ → ℕ → ℕ → Table → Table
fill zero i h j table = table
fill (suc fuel) i h j table =
    let rest = fill fuel i h (j + 2 * i) (set table (i + j) (bit_xor (table j) h)) in
    if ltb j 256 then rest else table

-- The outer loop, over `i = 128, 64, ...` down to 1.
pub make_from : ℕ → ℕ → ℕ → Table → Table
make_from zero i h table = table
make_from (suc fuel) i h table =
    let h' = crc_step h in
    let rest = make_from fuel (i / 2) h' (fill 256 i h' 0 table) in if i == 0 then table else rest

pub make_crc_table : Table → Table
make_crc_table table = make_from 9 128 1 (set table 0 0)

-- `*buf++` is a `char`, which is signed.
abbrev pub char_word : ℕ → ℕ
char_word b = wrap 32 (signed 8 b)

pub crc32_loop : Table → ℕ → List ℕ → ℕ
crc32_loop table crc [] = crc
crc32_loop table crc (b ∷ buf) =
    crc32_loop table (bit_xor (crc / 2 ^ 8) (table (bit_and (bit_xor crc (char_word b)) 0xff))) buf

-- The checksum and the table that the call leaves.
pub crc32 : ℕ → List ℕ → Table → ℕ × Table
crc32 crc buf table =
    let made = if table 255 == 0 then make_crc_table table else table in
    (bit_xor (crc32_loop made (bit_xor crc 0xffff_ffff) buf) 0xffff_ffff, made)

-- RFC 2440: `crc24` is a `long`.
abbrev pub crc24_init : ℕ
crc24_init = 0xb7_04ce

abbrev pub crc24_poly : ℕ
crc24_poly = 0x186_4cfb

pub crc24_shift : ℕ → ℕ
crc24_shift crc =
    let doubled = crc * 2 % 2 ^ 64 in
    if bit_and doubled 0x100_0000 == 0 then doubled else bit_xor doubled crc24_poly

pub crc24_bits : ℕ → ℕ → ℕ
crc24_bits zero crc = crc
crc24_bits (suc i) crc = crc24_bits i (crc24_shift crc)

pub crc24_loop : ℕ → List ℕ → ℕ
crc24_loop crc [] = crc
crc24_loop crc (b ∷ octets) = crc24_loop (crc24_bits 8 (bit_xor crc (b * 2 ^ 16))) octets

pub crc_octets : List ℕ → ℕ
crc_octets octets = bit_and (crc24_loop crc24_init octets) 0xff_ffff
