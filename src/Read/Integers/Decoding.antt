-- ===== src/Read/Integers/Decoding.antt =====
-- Reading back what the writers write.
use ocaml_core.Prelude.{
  ℕ, ◌+◌, ◌-◌, ◌%◌, ◌^◌, ◌≤◌, ◌<◌, ◌≡◌, ℤ, pos, negsuc, signed, ◌≤ℤ◌, ◌<ℤ◌, true, false, arith,
  some,
}
use ocaml_core.Exec.{ok, raised, error, buffer_short, neg_int8, int_overflow, nat0_overflow}
use ocaml_core.Memory.{Memory}
use ocaml_core.Memory.Load.{Holds}
use ocaml_core.Endian.{ByteOrder, le_bytes}
use ocaml_core.Endian.Decoded.{le16dec_lem, le32dec_lem, le64dec_lem}
use ocaml_core.Read.Integers.{
  overflows, safe_read_neg_int8, safe_read_int16, safe_read_int32, safe_read_int64,
  safe_read_nocheck_int64, safe_read_nat0_16, safe_read_nat0_32, safe_read_nat0_64,
}

-- An OCaml integer of 63 bits.
abbrev pub IsOcamlInt : ℤ → Type 0
IsOcamlInt n = (negsuc (2 ^ 62 - 1) ≤ℤ n) × (n <ℤ pos (2 ^ 62))

module _ (host : ByteOrder) (m : Memory) (eptr p : ℕ) (end : eptr < 2 ^ 63) where
  pub int16_decoded :
      (x : ℕ)
      → Holds m p (le_bytes 2 x)
      → p + 2 ≤ eptr
      → safe_read_int16 host m eptr p ≡ (ok (signed 16 (x % 2 ^ 16)), p + 2)
  unfolding safe_read_int16
  int16_decoded x h fits = ground (arith, le16dec_lem host m p x h)

  pub int32_decoded :
      (x : ℕ)
      → Holds m p (le_bytes 4 x)
      → p + 4 ≤ eptr
      → safe_read_int32 host m eptr p ≡ (ok (signed 32 (x % 2 ^ 32)), p + 4)
  unfolding safe_read_int32
  int32_decoded x h fits = ground (arith, le32dec_lem host m p x h)

  pub int64_decoded :
      (x : ℕ)
      → Holds m p (le_bytes 8 x)
      → p + 8 ≤ eptr
      → overflows (signed 64 (x % 2 ^ 64)) ≡ false
      → safe_read_int64 host m eptr p ≡ (ok (signed 64 (x % 2 ^ 64)), p + 8)
  unfolding safe_read_int64
  int64_decoded x h fits small = ground (arith, le64dec_lem host m p x h)

  pub nocheck_int64_decoded :
      (x : ℕ)
      → Holds m p (le_bytes 8 x)
      → p + 8 ≤ eptr
      → safe_read_nocheck_int64 host m eptr p ≡ (ok (signed 64 (x % 2 ^ 64)), p + 8)
  unfolding safe_read_nocheck_int64
  nocheck_int64_decoded x h fits = ground (arith, le64dec_lem host m p x h)

  pub nat0_16_decoded :
      (x : ℕ)
      → Holds m p (le_bytes 2 x)
      → p + 2 ≤ eptr
      → safe_read_nat0_16 host m eptr p ≡ (ok (x % 2 ^ 16), p + 2)
  unfolding safe_read_nat0_16
  nat0_16_decoded x h fits = ground (arith, le16dec_lem host m p x h)

  pub nat0_32_decoded :
      (x : ℕ)
      → Holds m p (le_bytes 4 x)
      → p + 4 ≤ eptr
      → safe_read_nat0_32 host m eptr p ≡ (ok (x % 2 ^ 32), p + 4)
  unfolding safe_read_nat0_32
  nat0_32_decoded x h fits = ground (arith, le32dec_lem host m p x h)

  pub nat0_64_decoded :
      (x : ℕ)
      → x < 2 ^ 62
      → Holds m p (le_bytes 8 x)
      → p + 8 ≤ eptr
      → safe_read_nat0_64 host m eptr p ≡ (ok x, p + 8)
  unfolding safe_read_nat0_64
  nat0_64_decoded x small h fits = ground (arith, le64dec_lem host m p x h)

  pub neg_int8_decoded :
      (n : ℕ)
      → n < 128
      → m p ≡ some (255 - n)
      → p + 1 ≤ eptr
      → safe_read_neg_int8 host m eptr p ≡ (ok (negsuc n), p + 1)
  unfolding safe_read_neg_int8
  neg_int8_decoded n small h fits = ground arith

-- Too few bytes: the pointer stays where the fixed-width reader began.
module _ (host : ByteOrder) (m : Memory) (eptr p : ℕ) (below : p < 2 ^ 63) where
  pub neg_int8_short : eptr < p + 1 → safe_read_neg_int8 host m eptr p ≡ (raised buffer_short, p)
  unfolding safe_read_neg_int8
  neg_int8_short short = ground arith

  pub int16_short : eptr < p + 2 → safe_read_int16 host m eptr p ≡ (raised buffer_short, p)
  unfolding safe_read_int16
  int16_short short = ground arith

  pub int32_short : eptr < p + 4 → safe_read_int32 host m eptr p ≡ (raised buffer_short, p)
  unfolding safe_read_int32
  int32_short short = ground arith

  pub int64_short : eptr < p + 8 → safe_read_int64 host m eptr p ≡ (raised buffer_short, p)
  unfolding safe_read_int64
  int64_short short = ground arith

  pub nocheck_int64_short :
      eptr < p + 8 → safe_read_nocheck_int64 host m eptr p ≡ (raised buffer_short, p)
  unfolding safe_read_nocheck_int64
  nocheck_int64_short short = ground arith

  pub nat0_16_short : eptr < p + 2 → safe_read_nat0_16 host m eptr p ≡ (raised buffer_short, p)
  unfolding safe_read_nat0_16
  nat0_16_short short = ground arith

  pub nat0_32_short : eptr < p + 4 → safe_read_nat0_32 host m eptr p ≡ (raised buffer_short, p)
  unfolding safe_read_nat0_32
  nat0_32_short short = ground arith

  pub nat0_64_short : eptr < p + 8 → safe_read_nat0_64 host m eptr p ≡ (raised buffer_short, p)
  unfolding safe_read_nat0_64
  nat0_64_short short = ground arith

-- A number out of range: the pointer goes back to the code byte.
module _ (host : ByteOrder) (m : Memory) (eptr p : ℕ) (end : eptr < 2 ^ 63) (pos_p : 0 < p) where
  pub neg_int8_refused :
      (b : ℕ)
      → b < 128
      → m p ≡ some b
      → p + 1 ≤ eptr
      → safe_read_neg_int8 host m eptr p ≡ (raised (error neg_int8), p - 1)
  unfolding safe_read_neg_int8
  neg_int8_refused b small at fits = ground arith

  pub int64_refused :
      (x : ℕ)
      → Holds m p (le_bytes 8 x)
      → p + 8 ≤ eptr
      → overflows (signed 64 (x % 2 ^ 64)) ≡ true
      → safe_read_int64 host m eptr p ≡ (raised (error int_overflow), p - 1)
  unfolding safe_read_int64
  int64_refused x h fits wide = ground (arith, le64dec_lem host m p x h)

  pub nat0_64_refused :
      (x : ℕ)
      → x < 2 ^ 64
      → 2 ^ 62 ≤ x
      → Holds m p (le_bytes 8 x)
      → p + 8 ≤ eptr
      → safe_read_nat0_64 host m eptr p ≡ (raised (error nat0_overflow), p - 1)
  unfolding safe_read_nat0_64
  nat0_64_refused x small wide h fits = ground (arith, le64dec_lem host m p x h)
