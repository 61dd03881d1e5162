-- ===== src/Write/Integers.antt =====
-- Writing integers: write_int, write_nat0 and the stubs on them. Pointers are addresses; `char`,
-- `short`, `int` and `long` arguments are integers, `unsigned long` ones natural numbers.
pub mod Encoding
pub mod Forms
use ocaml_core.Prelude.{
  ℕ, ◌^◌, ℤ, pos, negsuc, wrap, cast, leb_ℤ, ltb_ℤ, List, [], ◌∷◌, ltb, leb, if◌then◌else◌,
}
use ocaml_core.Exec.{Exec, buffer_short, raise, pure, ◌>>=◌, ◌>>◌}
use ocaml_core.Memory.{Memory, ptr_add, store}
use ocaml_core.Endian.{ByteOrder, le16enc, le32enc, le64enc}

abbrev pub code_neg_int8 : ℤ
code_neg_int8 = negsuc 0

abbrev pub code_int16 : ℤ
code_int16 = negsuc 1

abbrev pub code_int32 : ℤ
code_int32 = negsuc 2

abbrev pub code_int64 : ℤ
code_int64 = negsuc 3

-- `*sptr = n` for a `char` `n`.
abbrev pub put_char : ℕ → ℤ → Exec Memory (Unit {0})
put_char sptr n = store sptr (wrap 8 n ∷ [])

do_write_small_int : ℕ → ℤ → Exec Memory (Unit {0})
do_write_small_int sptr n = put_char sptr n

unfoldable pub write_small_int : ℕ → ℕ → ℤ → Exec Memory ℕ
unfolding do_write_small_int
write_small_int sptr eptr n =
    if leb eptr sptr
    then raise buffer_short
    else do do_write_small_int sptr n; pure (ptr_add sptr 1)

do_write_neg_int8 : ℕ → ℤ → Exec Memory (Unit {0})
do_write_neg_int8 sptr n = do put_char sptr code_neg_int8; put_char (ptr_add sptr 1) n

unfoldable pub write_neg_int8 : ℕ → ℕ → ℤ → Exec Memory ℕ
unfolding do_write_neg_int8
write_neg_int8 sptr eptr n =
    let next = ptr_add sptr 2 in
    if ltb eptr next then raise buffer_short else do do_write_neg_int8 sptr n; pure next

module _ (host : ByteOrder) where
  unfoldable pub do_write_int16 : ℕ → ℤ → Exec Memory (Unit {0})
  do_write_int16 sptr n = do put_char sptr code_int16; le16enc host (ptr_add sptr 1) (wrap 16 n)

  unfoldable pub write_int16 : ℕ → ℕ → ℤ → Exec Memory ℕ
  unfolding do_write_int16
  write_int16 sptr eptr n =
      let next = ptr_add sptr 3 in
      if ltb eptr next then raise buffer_short else do do_write_int16 sptr n; pure next

  unfoldable pub do_write_int32 : ℕ → ℤ → Exec Memory (Unit {0})
  do_write_int32 sptr n = do put_char sptr code_int32; le32enc host (ptr_add sptr 1) (wrap 32 n)

  unfoldable pub write_int32 : ℕ → ℕ → ℤ → Exec Memory ℕ
  unfolding do_write_int32
  write_int32 sptr eptr n =
      let next = ptr_add sptr 5 in
      if ltb eptr next then raise buffer_short else do do_write_int32 sptr n; pure next

  unfoldable pub do_write_int64 : ℕ → ℤ → Exec Memory (Unit {0})
  do_write_int64 sptr n = do put_char sptr code_int64; le64enc host (ptr_add sptr 1) (wrap 64 n)

  unfoldable pub write_int64 : ℕ → ℕ → ℤ → Exec Memory ℕ
  unfolding do_write_int64
  write_int64 sptr eptr n =
      let next = ptr_add sptr 9 in
      if ltb eptr next then raise buffer_short else do do_write_int64 sptr n; pure next

  pub write_int_nat0 : ℕ → ℕ → ℕ → Exec Memory ℕ
  write_int_nat0 sptr eptr n =
      if ltb n 0x80
      then write_small_int sptr eptr (cast 8 (pos n))
      else if ltb n 0x8000
      then write_int16 sptr eptr (cast 16 (pos n))
      else if leb 0x8000_0000 n
      then write_int64 sptr eptr (cast 64 (pos n))
      else write_int32 sptr eptr (cast 32 (pos n))

  -- `negsuc 0x7f` is -0x80.
  pub write_int_negative : ℕ → ℕ → ℤ → Exec Memory ℕ
  write_int_negative sptr eptr n =
      if leb_ℤ (negsuc 0x7f) n
      then write_neg_int8 sptr eptr (cast 8 n)
      else if leb_ℤ (negsuc 0x7fff) n
      then write_int16 sptr eptr (cast 16 n)
      else if ltb_ℤ n (negsuc 0x7fff_ffff)
      then write_int64 sptr eptr n
      else write_int32 sptr eptr (cast 32 n)

  pub write_int : ℕ → ℕ → ℤ → Exec Memory ℕ
  write_int sptr eptr n =
      if leb_ℤ (pos 0) n
      then write_int_nat0 sptr eptr (wrap 64 n)
      else write_int_negative sptr eptr n

  pub write_nat0 : ℕ → ℕ → ℕ → Exec Memory ℕ
  write_nat0 sptr eptr n =
      if ltb n 0x80
      then write_small_int sptr eptr (cast 8 (pos n))
      else if ltb n 0x1_0000
      then write_int16 sptr eptr (cast 16 (pos n))
      else if leb 0x1_0000_0000 n
      then write_int64 sptr eptr (cast 64 (pos n))
      else write_int32 sptr eptr (cast 32 (pos n))

  -- The stubs take the OCaml integer that `Long_val`, `Int32_val`, `Int64_val` or `Nativeint_val`
  -- reads out of the value.
  pub write_int_stub : ℕ → ℕ → ℤ → Exec Memory ℕ
  write_int_stub sptr eptr n = write_int sptr eptr n

  pub write_nat0_stub : ℕ → ℕ → ℤ → Exec Memory ℕ
  write_nat0_stub sptr eptr n = write_nat0 sptr eptr (wrap 64 n)

  unfoldable pub write_int32_stub : ℕ → ℕ → ℤ → Exec Memory ℕ
  write_int32_stub sptr eptr n = write_int sptr eptr n

  unfoldable pub write_int64_stub : ℕ → ℕ → ℤ → Exec Memory ℕ
  write_int64_stub sptr eptr n = write_int sptr eptr n

  unfoldable pub write_nativeint_stub : ℕ → ℕ → ℤ → Exec Memory ℕ
  write_nativeint_stub sptr eptr n = write_int sptr eptr n

-- `Int_val` is an `int`: the low 32 bits of the OCaml integer, with a sign.
pub write_small_int_stub : ℕ → ℕ → ℤ → Exec Memory ℕ
write_small_int_stub sptr eptr n = write_small_int sptr eptr (cast 8 (cast 32 n))
