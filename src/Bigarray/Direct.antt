-- ===== src/Bigarray/Direct.antt =====
-- The two readers that read_stubs.c writes out instead of deriving them from MK_ML_READER:
-- `ml_read_float_array_stub` and `ml_read_variant_tag_stub`. They raise `Read_error` with a position.
pub mod Derived
use ocaml_core.Prelude.{
  ℕ, ◌+◌, ◌*◌, ◌%◌, ◌^◌, ℤ, pos, wrap, signed, ltb_ℤ, ltb, ◌==◌, if◌then◌else◌, List, [], none,
  some,
}
use ocaml_core.Exec.{
  Outcome, ok, raised, fault, array_bound, buffer_short, read_error, array_too_long, variant_tag,
  raise, pure, access, ◌>>=◌, ◌>>◌,
}
use ocaml_core.Memory.{Memory, ptr_add, load}
use ocaml_core.Endian.{ByteOrder, le32dec}
use ocaml_core.Read.Pointer.{Reader, get_sptr}
use ocaml_core.Read.Integers.{read_nat0}
use ocaml_core.Read.Blocks.{Runtime}
use ocaml_core.Bigarray.{Buf, ptr_diff, store_position}

module _ (host : ByteOrder) (m : Memory) (buf : Buf) (v_pos : ℤ) where
  -- The body runs on the local `sptr`; the result is the array and the pointer `next` behind it,
  -- which alone reaches the position. An empty array leaves it behind the length.
  pub read_float_array_at : Runtime → Reader (ℕ × List ℕ)
  read_float_array_at rt = do
    len ← read_nat0 host m (ptr_add buf.start buf.dim)
    sptr ← get_sptr
    if len == 0
        then pure (sptr, [])
        else (if ltb rt.max_wosize len
            then raise (read_error array_too_long (wrap 64 v_pos))
            else do
              let tot_size = len * 8 % 2 ^ 64
              let next = ptr_add sptr tot_size
              if ltb (ptr_add buf.start buf.dim) next
                  then raise buffer_short
                  else do bs ← access (load m sptr tot_size); pure (next, bs))

  abbrev pub array_position : Outcome (ℕ × List ℕ) × ℕ → Outcome (List ℕ) × ℤ
  array_position (ok (next, bs), sptr) = (ok bs, ptr_diff next buf.start)
  array_position (raised e, sptr) = (raised e, v_pos)
  array_position (fault, sptr) = (fault, v_pos)

  pub ml_read_float_array_stub : Runtime → Outcome (List ℕ) × ℤ
  unfolding read_float_array_at
  ml_read_float_array_stub rt =
      if ltb_ℤ v_pos (pos 0)
      then (raised array_bound, v_pos)
      else array_position (read_float_array_at rt (ptr_add buf.start (wrap 64 v_pos)))

  -- A decoded word, tested by `Is_long`.
  tag_or_error : ℤ → ℕ → Outcome ℤ × ℤ
  tag_or_error next_pos n =
      if n % 2 == 1
      then (ok (signed 32 n), next_pos)
      else (raised (read_error variant_tag (wrap 64 v_pos)), v_pos)

  pub ml_read_variant_tag_stub : Outcome ℤ × ℤ
  unfolding tag_or_error
  ml_read_variant_tag_stub =
      let next_pos = (wrap 64 v_pos + 4) % 2 ^ 64 in
      if ltb_ℤ v_pos (pos 0)
      then (raised array_bound, v_pos)
      else if ltb buf.dim next_pos
      then (raised buffer_short, v_pos)
      else elim (le32dec host m (ptr_add buf.start (wrap 64 v_pos))) [
        | none ↦ (fault, v_pos)
        | some n ↦ tag_or_error (pos next_pos) n
      ]
