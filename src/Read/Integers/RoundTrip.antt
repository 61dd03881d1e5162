-- ===== src/Read/Integers/RoundTrip.antt =====
-- The integer readers give back the integer of any form of the protocol, and move behind it.
use ocaml_core.Prelude.{
  ℕ, ◌+◌, ◌-◌, ◌^◌, ◌≤◌, ◌<◌, ◌≡◌, ℤ, pos, negsuc, ◌≤ℤ◌, ◌<ℤ◌, arith, List, length,
}
use ocaml_core.Exec.{ok}
use ocaml_core.Memory.{Memory}
use ocaml_core.Memory.Load.{Holds}
use ocaml_core.Endian.{ByteOrder}
use ocaml_core.Write.Integers.Forms.{IntForm, NatForm, small, neg8, wide16, wide32, wide64}
use ocaml_core.Read.Integers.{read_int, read_nat0, read_int32, read_int64, read_nativeint}
use ocaml_core.Read.Integers.Decoding.{
  int16_decoded, int32_decoded, int64_decoded, nocheck_int64_decoded, nat0_16_decoded,
  nat0_32_decoded, nat0_64_decoded, neg_int8_decoded,
}
use ocaml_core.Read.Integers.Dispatch.{
  read_int_at_small, read_int_at_int16, read_int_at_neg_int8, read_int_at_int32, read_int_at_int64,
  read_int32_at_small, read_int32_at_int16, read_int32_at_neg_int8, read_int32_at_int32,
  read_int64_at_small, read_int64_at_int16, read_int64_at_neg_int8, read_int64_at_int32,
  read_int64_at_nocheck_int64, read_nativeint_at_small, read_nativeint_at_int16,
  read_nativeint_at_neg_int8, read_nativeint_at_int32, read_nativeint_at_nocheck_int64,
  read_nat0_at_small, read_nat0_at_nat0_16, read_nat0_at_nat0_32, read_nat0_at_nat0_64,
}

-- An OCaml integer of 63 bits, and a 32-bit integer.
abbrev pub IsOcamlInt : ℤ → Type 0
IsOcamlInt n = (negsuc (2 ^ 62 - 1) ≤ℤ n) × (n <ℤ pos (2 ^ 62))

abbrev pub IsInt32 : ℤ → Type 0
IsInt32 n = (negsuc (2 ^ 31 - 1) ≤ℤ n) × (n <ℤ pos (2 ^ 31))

module _ (host : ByteOrder) (m : Memory) (eptr p : ℕ) (end : eptr < 2 ^ 63) where
  pub read_int-IntForm :
      (n : ℤ) {bs : List ℕ}
      → IsOcamlInt n
      → IntForm n bs
      → Holds m p bs
      → p + length bs ≤ eptr
      → read_int host m eptr p ≡ (ok n, p + length bs)
  read_int-IntForm n range (small b lt e) h fits =
      ground (arith, read_int_at_small host m eptr p end (omega arith) b)
  read_int-IntForm n range (neg8 k lt e) h fits = ground (
    arith,
    read_int_at_neg_int8 host m eptr p end (omega arith),
    neg_int8_decoded host m eptr (p + 1) end k,
  )
  read_int-IntForm n range (wide16 x lt e) h fits = ground (
    arith,
    read_int_at_int16 host m eptr p end (omega arith),
    int16_decoded host m eptr (p + 1) end x h.1 (omega arith),
  )
  read_int-IntForm n range (wide32 x lt e) h fits = ground (
    arith,
    read_int_at_int32 host m eptr p end (omega arith),
    int32_decoded host m eptr (p + 1) end x h.1 (omega arith),
  )
  read_int-IntForm n range (wide64 x lt e) h fits = ground (
    arith,
    read_int_at_int64 host m eptr p end (omega arith),
    int64_decoded host m eptr (p + 1) end x h.1 (omega arith) (ground arith),
  )

  pub read_int64-IntForm :
      (n : ℤ) {bs : List ℕ}
      → IntForm n bs
      → Holds m p bs
      → p + length bs ≤ eptr
      → read_int64 host m eptr p ≡ (ok n, p + length bs)
  read_int64-IntForm n (small b lt e) h fits =
      ground (arith, read_int64_at_small host m eptr p end (omega arith) b)
  read_int64-IntForm n (neg8 k lt e) h fits = ground (
    arith,
    read_int64_at_neg_int8 host m eptr p end (omega arith),
    neg_int8_decoded host m eptr (p + 1) end k,
  )
  read_int64-IntForm n (wide16 x lt e) h fits = ground (
    arith,
    read_int64_at_int16 host m eptr p end (omega arith),
    int16_decoded host m eptr (p + 1) end x h.1 (omega arith),
  )
  read_int64-IntForm n (wide32 x lt e) h fits = ground (
    arith,
    read_int64_at_int32 host m eptr p end (omega arith),
    int32_decoded host m eptr (p + 1) end x h.1 (omega arith),
  )
  read_int64-IntForm n (wide64 x lt e) h fits = ground (
    arith,
    read_int64_at_nocheck_int64 host m eptr p end (omega arith),
    nocheck_int64_decoded host m eptr (p + 1) end x h.1 (omega arith),
  )

  pub read_nativeint-IntForm :
      (n : ℤ) {bs : List ℕ}
      → IntForm n bs
      → Holds m p bs
      → p + length bs ≤ eptr
      → read_nativeint host m eptr p ≡ (ok n, p + length bs)
  read_nativeint-IntForm n (small b lt e) h fits =
      ground (arith, read_nativeint_at_small host m eptr p end (omega arith) b)
  read_nativeint-IntForm n (neg8 k lt e) h fits = ground (
    arith,
    read_nativeint_at_neg_int8 host m eptr p end (omega arith),
    neg_int8_decoded host m eptr (p + 1) end k,
  )
  read_nativeint-IntForm n (wide16 x lt e) h fits = ground (
    arith,
    read_nativeint_at_int16 host m eptr p end (omega arith),
    int16_decoded host m eptr (p + 1) end x h.1 (omega arith),
  )
  read_nativeint-IntForm n (wide32 x lt e) h fits = ground (
    arith,
    read_nativeint_at_int32 host m eptr p end (omega arith),
    int32_decoded host m eptr (p + 1) end x h.1 (omega arith),
  )
  read_nativeint-IntForm n (wide64 x lt e) h fits = ground (
    arith,
    read_nativeint_at_nocheck_int64 host m eptr p end (omega arith),
    nocheck_int64_decoded host m eptr (p + 1) end x h.1 (omega arith),
  )

  -- The 32-bit reader has no form with eight bytes.
  pub read_int32-IntForm :
      (n : ℤ) {bs : List ℕ}
      → length bs ≤ 5
      → IntForm n bs
      → Holds m p bs
      → p + length bs ≤ eptr
      → read_int32 host m eptr p ≡ (ok n, p + length bs)
  read_int32-IntForm n len (small b lt e) h fits =
      ground (arith, read_int32_at_small host m eptr p end (omega arith) b)
  read_int32-IntForm n len (neg8 k lt e) h fits = ground (
    arith,
    read_int32_at_neg_int8 host m eptr p end (omega arith),
    neg_int8_decoded host m eptr (p + 1) end k,
  )
  read_int32-IntForm n len (wide16 x lt e) h fits = ground (
    arith,
    read_int32_at_int16 host m eptr p end (omega arith),
    int16_decoded host m eptr (p + 1) end x h.1 (omega arith),
  )
  read_int32-IntForm n len (wide32 x lt e) h fits = ground (
    arith,
    read_int32_at_int32 host m eptr p end (omega arith),
    int32_decoded host m eptr (p + 1) end x h.1 (omega arith),
  )
  read_int32-IntForm n len (wide64 x lt e) h fits = absurd (omega arith)

  pub read_nat0-NatForm :
      (n : ℕ) {bs : List ℕ}
      → n < 2 ^ 62
      → NatForm n bs
      → Holds m p bs
      → p + length bs ≤ eptr
      → read_nat0 host m eptr p ≡ (ok n, p + length bs)
  read_nat0-NatForm n range (NatForm.small b lt e) h fits =
      ground (arith, read_nat0_at_small host m eptr p end (omega arith) b)
  read_nat0-NatForm n range (NatForm.wide16 x lt e) h fits = ground (
    arith,
    read_nat0_at_nat0_16 host m eptr p end (omega arith),
    nat0_16_decoded host m eptr (p + 1) end x h.1 (omega arith),
  )
  read_nat0-NatForm n range (NatForm.wide32 x lt e) h fits = ground (
    arith,
    read_nat0_at_nat0_32 host m eptr p end (omega arith),
    nat0_32_decoded host m eptr (p + 1) end x h.1 (omega arith),
  )
  read_nat0-NatForm n range (NatForm.wide64 x lt e) h fits = ground (
    arith,
    read_nat0_at_nat0_64 host m eptr p end (omega arith),
    nat0_64_decoded host m eptr (p + 1) end x (omega arith) h.1 (omega arith),
  )
