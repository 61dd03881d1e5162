-- ===== src/Read/Pointer.antt =====
-- The readers' state is the pointer `*sptr_ptr`, which they move and which stays where it is when
-- they raise. The memory and `eptr` are read only.
use ocaml_core.Prelude.{ℕ, ◌+◌, ◌-◌, ◌%◌, ◌^◌, Option, ℤ, signed, Bool, leb, ltb, if◌then◌else◌}
use ocaml_core.Exec.{Outcome, ReadError, buffer_short, error, ok, raise, pure, access, ◌>>=◌, ◌>>◌}
use ocaml_core.Memory.{Memory, ptr_add}

abbrev pub Reader : Type 0 → Type 0
Reader A = ℕ → Outcome A × ℕ

abbrev pub get_sptr : Reader ℕ
get_sptr sptr = (ok sptr, sptr)

abbrev pub set_sptr : ℕ → Reader (Unit {0})
set_sptr p sptr = (ok tt, p)

-- `sptr - 1`.
abbrev pub ptr_pred : ℕ → ℕ
ptr_pred p = (p + 2 ^ 64 - 1) % 2 ^ 64

module _ {A : Type 0} (eptr len : ℕ) (dec : ℕ → Option ℕ) (convert : ℕ → A) where
  -- MK_GEN_SAFE_READ with an empty CHECK: `len` bytes, decoded and converted to the C type.
  unfoldable pub safe_read : Reader A
  safe_read = do
    sptr ← get_sptr
    if ltb eptr (ptr_add sptr len)
        then raise buffer_short
        else do x ← access (dec sptr); set_sptr (ptr_add sptr len); pure (convert x)

  -- MK_GEN_SAFE_READ with a CHECK that puts the pointer before the code and raises.
  unfoldable pub safe_read_checked : (A → Bool) → ReadError → Reader A
  safe_read_checked bad code = do
    sptr ← get_sptr
    if ltb eptr (ptr_add sptr len) then raise buffer_short else do
      x ← access (dec sptr)
      if bad (convert x)
          then (do set_sptr (ptr_pred sptr); raise (error code))
          else do set_sptr (ptr_add sptr len); pure (convert x)

-- The opening of the integer readers: the first byte as a `char`, and the pointer behind it.
unfoldable pub read_code : Memory → ℕ → Reader ℤ
read_code m eptr = do
  sptr ← get_sptr
  if leb eptr sptr
      then raise buffer_short
      else do b ← access (m sptr); set_sptr (ptr_add sptr 1); pure (signed 8 b)
