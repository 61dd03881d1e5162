-- ===== src/Read/Integers.antt =====
-- Reading integers on a 64-bit host: `read_int`, `read_nat0` and the boxed integers.
pub mod Decoding
pub mod Dispatch
pub mod RoundTrip
pub mod Sound
pub mod Total
pub mod Boxed
use ocaml_core.Prelude.{
  ℕ, ◌+◌, ◌^◌, ℤ, pos, negsuc, signed, pos_part, neg_part, leb_ℤ, ltb_ℤ, Bool, ◌||◌, false, ltb,
  leb, ◌==◌, if◌then◌else◌,
}
use ocaml_core.Exec.{
  ReadError, neg_int8, int_code, int_overflow, nat0_code, nat0_overflow, int32_code, int64_code,
  nativeint_code, error, raise, pure, ◌>>=◌, ◌>>◌,
}
use ocaml_core.Memory.{Memory, ptr_add}
use ocaml_core.Endian.{ByteOrder, le16dec, le32dec, le64dec}
use ocaml_core.Write.Integers.{code_neg_int8, code_int16, code_int32, code_int64}
use ocaml_core.Read.Pointer.{Reader, get_sptr, set_sptr, safe_read, safe_read_checked, read_code}

abbrev pub eq_ℤ : ℤ → ℤ → Bool
eq_ℤ a b = pos_part a + neg_part b == pos_part b + neg_part a

-- The CHECK of `safe_read_int64`: outside the 63 bits of an OCaml integer.
abbrev pub overflows : ℤ → Bool
overflows n = ltb_ℤ n (negsuc 0x3fff_ffff_ffff_ffff) || ltb_ℤ (pos 0x3fff_ffff_ffff_ffff) n

module _ (host : ByteOrder) (m : Memory) (eptr : ℕ) where
  pub safe_read_neg_int8 : Reader ℤ
  unfolding safe_read_checked
  safe_read_neg_int8 = safe_read_checked eptr 1 m (signed 8) (leb_ℤ (pos 0)) neg_int8

  pub safe_read_int16 : Reader ℤ
  unfolding safe_read
  safe_read_int16 = safe_read eptr 2 (le16dec host m) (signed 16)

  pub safe_read_int32 : Reader ℤ
  unfolding safe_read
  safe_read_int32 = safe_read eptr 4 (le32dec host m) (signed 32)

  pub safe_read_int64 : Reader ℤ
  unfolding safe_read_checked
  safe_read_int64 = safe_read_checked eptr 8 (le64dec host m) (signed 64) overflows int_overflow

  pub safe_read_nocheck_int64 : Reader ℤ
  unfolding safe_read
  safe_read_nocheck_int64 = safe_read eptr 8 (le64dec host m) (signed 64)

  unfoldable pub safe_read_nat0_16 : Reader ℕ
  unfolding safe_read
  safe_read_nat0_16 = safe_read eptr 2 (le16dec host m) (λ x. x)

  unfoldable pub safe_read_nat0_32 : Reader ℕ
  unfolding safe_read
  safe_read_nat0_32 = safe_read eptr 4 (le32dec host m) (λ x. x)

  unfoldable pub safe_read_nat0_64 : Reader ℕ
  unfolding safe_read_checked
  safe_read_nat0_64 =
      safe_read_checked eptr 8 (le64dec host m) (λ x. x) (ltb 0x3fff_ffff_ffff_ffff) nat0_overflow

  pub read_int : Reader ℤ
  unfolding read_code
  read_int = do
    sptr ← get_sptr
    code ← read_code m eptr
    if leb_ℤ (pos 0) code
        then pure code
        else if eq_ℤ code code_int16
        then safe_read_int16
        else if eq_ℤ code code_neg_int8
        then safe_read_neg_int8
        else if eq_ℤ code code_int32
        then safe_read_int32
        else if eq_ℤ code code_int64
        then safe_read_int64
        else do set_sptr sptr; raise (error int_code)

  -- `code` is returned as an `unsigned long`.
  unfoldable pub read_nat0 : Reader ℕ
  unfolding read_code
  read_nat0 = do
    sptr ← get_sptr
    code ← read_code m eptr
    if leb_ℤ (pos 0) code
        then pure (pos_part code)
        else if eq_ℤ code code_int16
        then safe_read_nat0_16
        else if eq_ℤ code code_int32
        then safe_read_nat0_32
        else if eq_ℤ code code_int64
        then safe_read_nat0_64
        else do set_sptr sptr; raise (error nat0_code)

  pub read_int32 : Reader ℤ
  unfolding read_code
  read_int32 = do
    sptr ← get_sptr
    code ← read_code m eptr
    if leb_ℤ (pos 0) code
        then pure code
        else if eq_ℤ code code_int16
        then safe_read_int16
        else if eq_ℤ code code_neg_int8
        then safe_read_neg_int8
        else if eq_ℤ code code_int32
        then safe_read_int32
        else do set_sptr sptr; raise (error int32_code)

  pub read_int64 : Reader ℤ
  unfolding read_code
  read_int64 = do
    sptr ← get_sptr
    code ← read_code m eptr
    if leb_ℤ (pos 0) code
        then pure code
        else if eq_ℤ code code_int16
        then safe_read_int16
        else if eq_ℤ code code_neg_int8
        then safe_read_neg_int8
        else if eq_ℤ code code_int32
        then safe_read_int32
        else if eq_ℤ code code_int64
        then safe_read_nocheck_int64
        else do set_sptr sptr; raise (error int64_code)

  pub read_nativeint : Reader ℤ
  unfolding read_code
  read_nativeint = do
    sptr ← get_sptr
    code ← read_code m eptr
    if leb_ℤ (pos 0) code
        then pure code
        else if eq_ℤ code code_int16
        then safe_read_int16
        else if eq_ℤ code code_neg_int8
        then safe_read_neg_int8
        else if eq_ℤ code code_int32
        then safe_read_int32
        else if eq_ℤ code code_int64
        then safe_read_nocheck_int64
        else do set_sptr sptr; raise (error nativeint_code)
