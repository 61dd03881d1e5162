-- ===== src/Crc/Bitwise.antt =====
-- crc32 with its table is the checksum that goes bit by bit.
use native.Mathlib.Nat.{pow-suc}
use ocaml_core.Prelude.{
  ℕ, zero, suc, ◌*◌, ◌/◌, ◌%◌, ◌^◌, ◌<◌, ◌≡◌, refl, sym, ap, ◌∙◌, List, [], ◌∷◌, IsBytes, bit_xor,
  bit_and, Bool, ◌+◌, ◌-◌, true, false, ◌&&◌, ◌==◌, if◌then◌else◌, Bool-cases, inl, inr, arith,
}
use ocaml_core.Prelude.Bits.{bit_and_low}
use ocaml_core.Crc.{
  empty_table, crc_step, fill, make_from, make_crc_table, char_word, crc32_loop, crc32,
}
use ocaml_core.Crc.Xor.{xor_half, xor_parity, xor_assoc, xor_octet, xor_mod, xor_split, xor-zero}

-- The generator of CRC-32 (IEEE 802.3): x ^ 32 and these powers of x.
abbrev pub powers : List ℕ
powers = 26 ∷ 23 ∷ 22 ∷ 16 ∷ 12 ∷ 11 ∷ 10 ∷ 8 ∷ 7 ∷ 5 ∷ 4 ∷ 2 ∷ 1 ∷ 0 ∷ []

-- A word that holds the coefficient of x ^ 31 in its lowest bit.
abbrev pub reflected : List ℕ → ℕ
reflected [] = 0
reflected (k ∷ ks) = 2 ^ (31 - k) + reflected ks

-- Times x, modulo the generator.
unfoldable pub times_x : ℕ → ℕ
times_x crc = if crc % 2 == 0 then crc / 2 else bit_xor (crc / 2) (reflected powers)

-- A bit of the message after the other, lowest first.
abbrev pub shift_bits : ℕ → ℕ → ℕ
shift_bits zero crc = crc
shift_bits (suc k) crc = shift_bits k (times_x crc)

abbrev pub bitwise_loop : ℕ → List ℕ → ℕ
bitwise_loop crc [] = crc
bitwise_loop crc (b ∷ buf) = bitwise_loop (shift_bits 8 (bit_xor crc b)) buf

table_correct_below : ℕ → Bool
table_correct_below zero = true
table_correct_below (suc n) =
    table_correct_below n && (make_crc_table empty_table n == shift_bits 8 n)

table_256 : table_correct_below 256 ≡ true
unfolding table_correct_below make_crc_table make_from fill crc_step times_x
table_256 = refl

table_entry_below :
    (k n : ℕ) → table_correct_below k ≡ true → n < k → make_crc_table empty_table n ≡ shift_bits 8 n
unfolding table_correct_below
table_entry_below zero n h lt = absurd (omega arith)
table_entry_below (suc k) n h lt = elim (Bool-cases (n == k)) [
  | inl same ↦ let e : n ≡ k = ground (arith, same) in rw e (ground (arith, h))
  | inr other ↦ table_entry_below k n (ground (arith, h)) (ground (arith, other))
]

-- Every entry of the table is eight single shifts of its index.
pub make_crc_table_entry : (n : ℕ) → n < 256 → make_crc_table empty_table n ≡ shift_bits 8 n
make_crc_table_entry n lt = table_entry_below 256 n table_256 lt

-- One bit goes through the digits above it unchanged.
times_x_above : (a z : ℕ) → times_x (bit_xor (a * 2) z) ≡ bit_xor a (times_x z)
unfolding times_x
times_x_above a z =
    let half : bit_xor (a * 2) z / 2 ≡ bit_xor a (z / 2) =
      xor_half (a * 2) z ∙ ap (λ t. bit_xor t (z / 2)) (omega arith) in
    let bit : bit_xor (a * 2) z % 2 ≡ z % 2 = xor_parity (a * 2) z ∙ omega arith in
    elim (Bool-cases (z % 2 == 0)) [
      | inl even ↦ rw (bit, even) half
      | inr odd ↦
          rw (bit, odd)
            (ap (λ t. bit_xor t (reflected powers)) half ∙ xor_assoc a (z / 2) (reflected powers))
    ]

shift_above : (k a z : ℕ) → shift_bits k (bit_xor (a * 2 ^ k) z) ≡ bit_xor a (shift_bits k z)
shift_above zero a z = ap (λ t. bit_xor t z) (omega arith)
shift_above (suc k) a z =
    let e : a * 2 ^ suc k ≡ a * 2 ^ k * 2 = ground (arith, ap (λ (t : ℕ). a * t) (pow-suc 2 k)) in
    rw (e, times_x_above (a * 2 ^ k) z) (shift_above k a (times_x z))

-- Eight bits are an entry of the table.
shift_octet : (x : ℕ) → shift_bits 8 x ≡ bit_xor (x / 256) (shift_bits 8 (x % 256))
shift_octet x = ap (shift_bits 8) (xor_split x) ∙ shift_above 8 (x / 256) (x % 256)

char_word_octet : (b : ℕ) → b < 256 → char_word b % 256 ≡ b % 256
char_word_octet b lt = ground arith

crc32_step :
    (crc b : ℕ)
    → b < 256
    → bit_xor (crc / 2 ^ 8) (make_crc_table empty_table (bit_and (bit_xor crc (char_word b)) 0xff))
      ≡ shift_bits 8 (bit_xor crc b)
crc32_step crc b byte =
    let index : bit_and (bit_xor crc (char_word b)) 0xff ≡ bit_xor crc b % 256 =
      bit_and_low 8 (bit_xor crc (char_word b))
      ∙ xor_mod crc (char_word b) b (char_word_octet b byte) in
    let rest : bit_xor crc b / 256 ≡ crc / 256 =
      xor_octet crc b ∙ (ap (bit_xor (crc / 256)) (omega arith) ∙ xor-zero (crc / 256)) in
    rw (index, make_crc_table_entry (bit_xor crc b % 256) (omega arith))
      (ap (λ t. bit_xor t (shift_bits 8 (bit_xor crc b % 256))) (sym rest)
        ∙ sym (shift_octet (bit_xor crc b)))

loop_bitwise :
    (buf : List ℕ) (crc : ℕ)
    → IsBytes buf
    → crc32_loop (make_crc_table empty_table) crc buf ≡ bitwise_loop crc buf
unfolding crc32_loop
loop_bitwise [] crc bytes = refl
loop_bitwise (b ∷ buf) crc (byte, bytes) =
    ap (λ c. crc32_loop (make_crc_table empty_table) c buf) (crc32_step crc b byte)
    ∙ loop_bitwise buf (shift_bits 8 (bit_xor crc b)) bytes

-- The reference: division by the generator bit by bit, with the complement before and after.
abbrev pub bitwise_crc32 : ℕ → List ℕ → ℕ
bitwise_crc32 crc buf = bit_xor (bitwise_loop (bit_xor crc 0xffff_ffff) buf) 0xffff_ffff

full_entry : (make_crc_table empty_table 255 == 0) ≡ false
unfolding make_crc_table make_from fill crc_step
full_entry = refl

-- For any start value and any bytes, `crc32` with the table still empty and `crc32` with the table
-- made both return the CRC-32 of IEEE 802.3, written as a division one bit at a time by its
-- generator (a list of the powers of x), complemented before and after, and leave the table made.
pub crc32_bitwise :
    (crc : ℕ) (buf : List ℕ)
    → IsBytes buf
    → (crc32 crc buf empty_table ≡ (bitwise_crc32 crc buf, make_crc_table empty_table))
      × (crc32 crc buf (make_crc_table empty_table)
          ≡ (bitwise_crc32 crc buf, make_crc_table empty_table))
unfolding crc32
crc32_bitwise crc buf bytes =
    let e = loop_bitwise buf (bit_xor crc 0xffff_ffff) bytes in (rw e refl, rw (full_entry, e) refl)
