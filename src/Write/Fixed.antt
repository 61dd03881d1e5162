-- ===== src/Write/Fixed.antt =====
-- The fixed-width writers of write_stubs.c: bits in little-endian and network byte order.
pub mod Layout
use ocaml_core.Prelude.{ℕ, ◌^◌, ◌%◌, ℤ, wrap, cast, ltb, if◌then◌else◌, List, [], ◌∷◌}
use ocaml_core.Exec.{Exec, buffer_short, raise, pure, ◌>>=◌, ◌>>◌}
use ocaml_core.Memory.{Memory, ptr_add, store}
use ocaml_core.Endian.{ByteOrder, le16enc, le32enc, le64enc, be16enc, be32enc, be64enc}
use ocaml_core.Write.Integers.{put_char}

-- `Int_val`: the low 32 bits of the OCaml integer, as an `int`.
abbrev pub int_val : ℤ → ℤ
int_val n = cast 32 n

pub write_int_8bit_stub : ℕ → ℕ → ℤ → Exec Memory ℕ
write_int_8bit_stub sptr eptr v_n =
    let next = ptr_add sptr 1 in
    if ltb eptr next then raise buffer_short else do put_char sptr (cast 8 (int_val v_n)); pure next

module _ (host : ByteOrder) where
  pub write_int_16bit_stub : ℕ → ℕ → ℤ → Exec Memory ℕ
  write_int_16bit_stub sptr eptr v_n =
      let next = ptr_add sptr 2 in
      if ltb eptr next
      then raise buffer_short
      else do le16enc host sptr (wrap 32 (int_val v_n)); pure next

  pub write_int_32bit_stub : ℕ → ℕ → ℤ → Exec Memory ℕ
  write_int_32bit_stub sptr eptr v_n =
      let next = ptr_add sptr 4 in
      if ltb eptr next
      then raise buffer_short
      else do le32enc host sptr (wrap 32 (int_val v_n)); pure next

  pub write_int_64bit_stub : ℕ → ℕ → ℤ → Exec Memory ℕ
  write_int_64bit_stub sptr eptr v_n =
      let next = ptr_add sptr 8 in
      if ltb eptr next then raise buffer_short else do le64enc host sptr (wrap 64 v_n); pure next

  -- `Int64_val` is the boxed integer.
  pub write_int64_bits_stub : ℕ → ℕ → ℤ → Exec Memory ℕ
  write_int64_bits_stub sptr eptr n =
      let next = ptr_add sptr 8 in
      if ltb eptr next then raise buffer_short else do le64enc host sptr (wrap 64 n); pure next

  pub write_network16_int_stub : ℕ → ℕ → ℤ → Exec Memory ℕ
  write_network16_int_stub sptr eptr v_n =
      let next = ptr_add sptr 2 in
      if ltb eptr next
      then raise buffer_short
      else do be16enc host sptr (wrap 32 (int_val v_n)); pure next

  pub write_network32_int_stub : ℕ → ℕ → ℤ → Exec Memory ℕ
  write_network32_int_stub sptr eptr v_n =
      let next = ptr_add sptr 4 in
      if ltb eptr next
      then raise buffer_short
      else do be32enc host sptr (wrap 32 (int_val v_n)); pure next

  -- `Int32_val` is the boxed integer.
  pub write_network32_int32_stub : ℕ → ℕ → ℤ → Exec Memory ℕ
  write_network32_int32_stub sptr eptr n =
      let next = ptr_add sptr 4 in
      if ltb eptr next then raise buffer_short else do be32enc host sptr (wrap 32 n); pure next

  pub write_network64_int_stub : ℕ → ℕ → ℤ → Exec Memory ℕ
  write_network64_int_stub sptr eptr v_n =
      let next = ptr_add sptr 8 in
      if ltb eptr next then raise buffer_short else do be64enc host sptr (wrap 64 v_n); pure next

  pub write_network64_int64_stub : ℕ → ℕ → ℤ → Exec Memory ℕ
  write_network64_int64_stub sptr eptr n =
      let next = ptr_add sptr 8 in
      if ltb eptr next then raise buffer_short else do be64enc host sptr (wrap 64 n); pure next
