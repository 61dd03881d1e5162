-- ===== src/Bigarray/Direct/Derived.antt =====
-- The readers that are written out agree with those that MK_ML_READER would derive, but for the
-- exception of their own check.
use ocaml_core.Prelude.{ℕ, ◌+◌, ◌^◌, ◌<◌, ◌≡◌, refl, ℤ, pos, wrap, arith}
use ocaml_core.Exec.{
  Outcome, ok, raised, fault, array_bound, buffer_short, error, read_error, array_too_long,
  variant_tag, out_of_memory, neg_int8, int_code, nat0_code, nat0_overflow,
}
use ocaml_core.Memory.{Memory, ptr_add}
use ocaml_core.Endian.{ByteOrder}
use ocaml_core.Read.Integers.{read_nat0, safe_read_nat0_16, safe_read_nat0_32, safe_read_nat0_64}
use ocaml_core.Read.Blocks.{Runtime, read_float_array_stub, read_variant_tag_stub}
use ocaml_core.Bigarray.{Buf, ml_read}
use ocaml_core.Bigarray.Direct.{ml_read_float_array_stub, ml_read_variant_tag_stub}

-- `Error` of the reader's own check becomes `Read_error` with the position; nothing else changes.
abbrev pub with_position : {A : Type 0} → Outcome A × ℤ → Outcome A × ℤ
with_position (ok a, p) = (ok a, p)
with_position (raised (error array_too_long), p) =
    (raised (read_error array_too_long (wrap 64 p)), p)
with_position (raised (error variant_tag), p) = (raised (read_error variant_tag (wrap 64 p)), p)
with_position (raised e, p) = (raised e, p)
with_position (fault, p) = (fault, p)

-- The errors of `read_nat0` are its own.
abbrev Nat0Errors : Outcome ℕ → Type 0
Nat0Errors (raised (error nat0_code)) = Unit {0}
Nat0Errors (raised (error nat0_overflow)) = Unit {0}
Nat0Errors (raised (error _)) = ⊥
Nat0Errors _ = Unit {0}

read_nat0-Nat0Errors :
    (host : ByteOrder) (m : Memory) (eptr p : ℕ) → Nat0Errors (read_nat0 host m eptr p).0
unfolding read_nat0 safe_read_nat0_16 safe_read_nat0_32 safe_read_nat0_64
read_nat0-Nat0Errors host m eptr p = ground arith

module _ (host : ByteOrder) (m : Memory) (buf : Buf) (n : ℕ) (small : n < 2 ^ 62)
    (low : buf.start + buf.dim < 2 ^ 62) where
  -- At a position below 2 ^ 62 of a bigarray below 2 ^ 62, `ml_read_variant_tag_stub` has the
  -- result and the position of the reader that MK_ML_READER derives from `read_variant_tag_stub`,
  -- except that the error VARIANT_TAG is raised as `Read_error` with the position.
  pub ml_read_variant_tag_stub_lem :
      ml_read_variant_tag_stub host m buf (pos n)
      ≡ with_position (ml_read (read_variant_tag_stub host m) buf (pos n))
  unfolding ml_read_variant_tag_stub ml_read read_variant_tag_stub
  ml_read_variant_tag_stub_lem = ground arith

  array_after :
      (rt : Runtime) (r : Outcome ℕ × ℕ)
      → read_nat0 host m (ptr_add buf.start buf.dim) (ptr_add buf.start (wrap 64 (pos n))) ≡ r
      → Nat0Errors r.0
      → ml_read_float_array_stub host m buf (pos n) rt
        ≡ with_position (ml_read (λ eptr. read_float_array_stub host m eptr rt) buf (pos n))
  unfolding ml_read_float_array_stub ml_read read_float_array_stub
  array_after rt (ok len, q) e h = ground (arith, e)
  array_after rt (raised (error nat0_code), q) e h = ground (arith, e)
  array_after rt (raised (error nat0_overflow), q) e h = ground (arith, e)
  array_after rt (raised buffer_short, q) e h = ground (arith, e)
  array_after rt (raised (error neg_int8), q) e h = absurd h
  array_after rt (raised (error int_code), q) e h = absurd h
  array_after rt (raised (error _), q) e h = absurd h
  array_after rt (raised (read_error x y), q) e h = ground (arith, e)
  array_after rt (raised array_bound, q) e h = ground (arith, e)
  array_after rt (raised out_of_memory, q) e h = ground (arith, e)
  array_after rt (fault, q) e h = ground (arith, e)

  -- At a position below 2 ^ 62 of a bigarray below 2 ^ 62, `ml_read_float_array_stub` has the
  -- result and the position of the reader that MK_ML_READER derives from `read_float_array_stub`,
  -- except that the error ARRAY_TOO_LONG is raised as `Read_error` with the position.
  pub ml_read_float_array_stub_lem :
      (rt : Runtime)
      → ml_read_float_array_stub host m buf (pos n) rt
        ≡ with_position (ml_read (λ eptr. read_float_array_stub host m eptr rt) buf (pos n))
  ml_read_float_array_stub_lem rt = array_after rt _ refl (
      read_nat0-Nat0Errors host m (ptr_add buf.start buf.dim) (ptr_add buf.start (wrap 64 (pos n))))
