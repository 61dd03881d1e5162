-- ===== src/Read/Integers/Dispatch.antt =====
-- Which branch each integer reader takes on its first byte.
use ocaml_core.Prelude.{ℕ, ◌+◌, ◌^◌, ◌≤◌, ◌<◌, ◌≡◌, pos, arith, some, ◌≢◌}
use ocaml_core.Exec.{
  ok, raised, error, buffer_short, int_code, nat0_code, int32_code, int64_code, nativeint_code,
}
use ocaml_core.Memory.{Memory}
use ocaml_core.Endian.{ByteOrder}
use ocaml_core.Read.Integers.{
  safe_read_neg_int8, safe_read_int16, safe_read_int32, safe_read_int64, safe_read_nocheck_int64,
  safe_read_nat0_16, safe_read_nat0_32, safe_read_nat0_64, read_int, read_nat0, read_int32,
  read_int64, read_nativeint,
}

module _ (host : ByteOrder) (m : Memory) (eptr p : ℕ) (end : eptr < 2 ^ 63) (room : p < eptr) where
  pub read_int_at_small :
      (n : ℕ) → n < 128 → m p ≡ some n → read_int host m eptr p ≡ (ok (pos n), p + 1)
  unfolding read_int
  read_int_at_small n small at = ground arith

  pub read_int_at_int16 :
      m p ≡ some 0xfe → read_int host m eptr p ≡ safe_read_int16 host m eptr (p + 1)
  unfolding read_int
  read_int_at_int16 at = ground arith

  pub read_int_at_neg_int8 :
      m p ≡ some 0xff → read_int host m eptr p ≡ safe_read_neg_int8 host m eptr (p + 1)
  unfolding read_int
  read_int_at_neg_int8 at = ground arith

  pub read_int_at_int32 :
      m p ≡ some 0xfd → read_int host m eptr p ≡ safe_read_int32 host m eptr (p + 1)
  unfolding read_int
  read_int_at_int32 at = ground arith

  pub read_int_at_int64 :
      m p ≡ some 0xfc → read_int host m eptr p ≡ safe_read_int64 host m eptr (p + 1)
  unfolding read_int
  read_int_at_int64 at = ground arith

  pub read_int_at_other :
      (b : ℕ)
      → m p ≡ some b
      → 128 ≤ b
      → b < 256
      → b ≢ 0xfe
      → b ≢ 0xff
      → b ≢ 0xfd
      → b ≢ 0xfc
      → read_int host m eptr p ≡ (raised (error int_code), p)
  unfolding read_int
  read_int_at_other b at wide byte n0 n1 n2 n3 = ground arith

  pub read_nat0_at_small :
      (n : ℕ) → n < 128 → m p ≡ some n → read_nat0 host m eptr p ≡ (ok (n), p + 1)
  unfolding read_nat0
  read_nat0_at_small n small at = ground arith

  pub read_nat0_at_nat0_16 :
      m p ≡ some 0xfe → read_nat0 host m eptr p ≡ safe_read_nat0_16 host m eptr (p + 1)
  unfolding read_nat0
  read_nat0_at_nat0_16 at = ground arith

  pub read_nat0_at_nat0_32 :
      m p ≡ some 0xfd → read_nat0 host m eptr p ≡ safe_read_nat0_32 host m eptr (p + 1)
  unfolding read_nat0
  read_nat0_at_nat0_32 at = ground arith

  pub read_nat0_at_nat0_64 :
      m p ≡ some 0xfc → read_nat0 host m eptr p ≡ safe_read_nat0_64 host m eptr (p + 1)
  unfolding read_nat0
  read_nat0_at_nat0_64 at = ground arith

  pub read_nat0_at_other :
      (b : ℕ)
      → m p ≡ some b
      → 128 ≤ b
      → b < 256
      → b ≢ 0xfe
      → b ≢ 0xfd
      → b ≢ 0xfc
      → read_nat0 host m eptr p ≡ (raised (error nat0_code), p)
  unfolding read_nat0
  read_nat0_at_other b at wide byte n0 n1 n2 = ground arith

  pub read_int32_at_small :
      (n : ℕ) → n < 128 → m p ≡ some n → read_int32 host m eptr p ≡ (ok (pos n), p + 1)
  unfolding read_int32
  read_int32_at_small n small at = ground arith

  pub read_int32_at_int16 :
      m p ≡ some 0xfe → read_int32 host m eptr p ≡ safe_read_int16 host m eptr (p + 1)
  unfolding read_int32
  read_int32_at_int16 at = ground arith

  pub read_int32_at_neg_int8 :
      m p ≡ some 0xff → read_int32 host m eptr p ≡ safe_read_neg_int8 host m eptr (p + 1)
  unfolding read_int32
  read_int32_at_neg_int8 at = ground arith

  pub read_int32_at_int32 :
      m p ≡ some 0xfd → read_int32 host m eptr p ≡ safe_read_int32 host m eptr (p + 1)
  unfolding read_int32
  read_int32_at_int32 at = ground arith

  pub read_int32_at_other :
      (b : ℕ)
      → m p ≡ some b
      → 128 ≤ b
      → b < 256
      → b ≢ 0xfe
      → b ≢ 0xff
      → b ≢ 0xfd
      → read_int32 host m eptr p ≡ (raised (error int32_code), p)
  unfolding read_int32
  read_int32_at_other b at wide byte n0 n1 n2 = ground arith

  pub read_int64_at_small :
      (n : ℕ) → n < 128 → m p ≡ some n → read_int64 host m eptr p ≡ (ok (pos n), p + 1)
  unfolding read_int64
  read_int64_at_small n small at = ground arith

  pub read_int64_at_int16 :
      m p ≡ some 0xfe → read_int64 host m eptr p ≡ safe_read_int16 host m eptr (p + 1)
  unfolding read_int64
  read_int64_at_int16 at = ground arith

  pub read_int64_at_neg_int8 :
      m p ≡ some 0xff → read_int64 host m eptr p ≡ safe_read_neg_int8 host m eptr (p + 1)
  unfolding read_int64
  read_int64_at_neg_int8 at = ground arith

  pub read_int64_at_int32 :
      m p ≡ some 0xfd → read_int64 host m eptr p ≡ safe_read_int32 host m eptr (p + 1)
  unfolding read_int64
  read_int64_at_int32 at = ground arith

  pub read_int64_at_nocheck_int64 :
      m p ≡ some 0xfc → read_int64 host m eptr p ≡ safe_read_nocheck_int64 host m eptr (p + 1)
  unfolding read_int64
  read_int64_at_nocheck_int64 at = ground arith

  pub read_int64_at_other :
      (b : ℕ)
      → m p ≡ some b
      → 128 ≤ b
      → b < 256
      → b ≢ 0xfe
      → b ≢ 0xff
      → b ≢ 0xfd
      → b ≢ 0xfc
      → read_int64 host m eptr p ≡ (raised (error int64_code), p)
  unfolding read_int64
  read_int64_at_other b at wide byte n0 n1 n2 n3 = ground arith

  pub read_nativeint_at_small :
      (n : ℕ) → n < 128 → m p ≡ some n → read_nativeint host m eptr p ≡ (ok (pos n), p + 1)
  unfolding read_nativeint
  read_nativeint_at_small n small at = ground arith

  pub read_nativeint_at_int16 :
      m p ≡ some 0xfe → read_nativeint host m eptr p ≡ safe_read_int16 host m eptr (p + 1)
  unfolding read_nativeint
  read_nativeint_at_int16 at = ground arith

  pub read_nativeint_at_neg_int8 :
      m p ≡ some 0xff → read_nativeint host m eptr p ≡ safe_read_neg_int8 host m eptr (p + 1)
  unfolding read_nativeint
  read_nativeint_at_neg_int8 at = ground arith

  pub read_nativeint_at_int32 :
      m p ≡ some 0xfd → read_nativeint host m eptr p ≡ safe_read_int32 host m eptr (p + 1)
  unfolding read_nativeint
  read_nativeint_at_int32 at = ground arith

  pub read_nativeint_at_nocheck_int64 :
      m p ≡ some 0xfc → read_nativeint host m eptr p ≡ safe_read_nocheck_int64 host m eptr (p + 1)
  unfolding read_nativeint
  read_nativeint_at_nocheck_int64 at = ground arith

  pub read_nativeint_at_other :
      (b : ℕ)
      → m p ≡ some b
      → 128 ≤ b
      → b < 256
      → b ≢ 0xfe
      → b ≢ 0xff
      → b ≢ 0xfd
      → b ≢ 0xfc
      → read_nativeint host m eptr p ≡ (raised (error nativeint_code), p)
  unfolding read_nativeint
  read_nativeint_at_other b at wide byte n0 n1 n2 n3 = ground arith

module _ (host : ByteOrder) (m : Memory) (eptr p : ℕ) where
  pub read_int_at_end : p < 2 ^ 63 → eptr ≤ p → read_int host m eptr p ≡ (raised buffer_short, p)
  unfolding read_int
  read_int_at_end below short = ground arith

  pub read_nat0_at_end : p < 2 ^ 63 → eptr ≤ p → read_nat0 host m eptr p ≡ (raised buffer_short, p)
  unfolding read_nat0
  read_nat0_at_end below short = ground arith

  pub read_int32_at_end :
      p < 2 ^ 63 → eptr ≤ p → read_int32 host m eptr p ≡ (raised buffer_short, p)
  unfolding read_int32
  read_int32_at_end below short = ground arith

  pub read_int64_at_end :
      p < 2 ^ 63 → eptr ≤ p → read_int64 host m eptr p ≡ (raised buffer_short, p)
  unfolding read_int64
  read_int64_at_end below short = ground arith

  pub read_nativeint_at_end :
      p < 2 ^ 63 → eptr ≤ p → read_nativeint host m eptr p ≡ (raised buffer_short, p)
  unfolding read_nativeint
  read_nativeint_at_end below short = ground arith
