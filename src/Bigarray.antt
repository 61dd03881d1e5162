-- ===== src/Bigarray.antt =====
-- The OCaml entry points of the MK_ML_WRITER and MK_ML_READER macros: a position in a bigarray in
-- place of pointers. A negative position raises the runtime's array bound error.
pub mod RoundTrip
pub mod Direct
use ocaml_core.Prelude.{ℕ, ◌+◌, ◌-◌, ◌%◌, ◌^◌, ℤ, pos, wrap, signed, ltb_ℤ, if◌then◌else◌}
use ocaml_core.Exec.{Exec, Outcome, ok, raised, fault, array_bound, raise, pure, ◌>>=◌}
use ocaml_core.Memory.{Memory, ptr_add}
use ocaml_core.Read.Pointer.{Reader}

-- `buf->data` and `*buf->dim` of a one-dimensional bigarray of characters.
pub record Buf : Type 0 where
  pub start : ℕ
  pub dim : ℕ

-- `sptr - start`.
abbrev pub ptr_diff : ℕ → ℕ → ℤ
ptr_diff p q = signed 64 ((p + 2 ^ 64 - q) % 2 ^ 64)

-- `write` is `write_NAME_stub` applied to its value.
pub ml_write : (ℕ → ℕ → Exec Memory ℕ) → Buf → ℤ → Exec Memory ℤ
ml_write write buf v_pos = if ltb_ℤ v_pos (pos 0) then raise array_bound else do
  sptr ← write (ptr_add buf.start (wrap 64 v_pos)) (ptr_add buf.start buf.dim)
  pure (ptr_diff sptr buf.start)

-- The position after a read: an exception leaves the reference as it was.
abbrev pub store_position : {A : Type 0} → Buf → ℤ → Outcome A × ℕ → Outcome A × ℤ
store_position buf v_pos (ok a, sptr) = (ok a, ptr_diff sptr buf.start)
store_position buf v_pos (raised e, sptr) = (raised e, v_pos)
store_position buf v_pos (fault, sptr) = (fault, v_pos)

-- `read` is `read_NAME_stub`, which takes `eptr`. The state is the contents of `v_pos_ref`.
unfoldable pub ml_read : {A : Type 0} → (ℕ → Reader A) → Buf → ℤ → Outcome A × ℤ
ml_read read buf v_pos =
    if ltb_ℤ v_pos (pos 0)
    then (raised array_bound, v_pos)
    else store_position buf v_pos
        (read (ptr_add buf.start buf.dim) (ptr_add buf.start (wrap 64 v_pos)))
