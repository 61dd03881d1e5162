-- ===== src/Write/Blocks.antt =====
-- Writing strings, floats, float arrays, variant tags, raw strings and bigarrays: a header and a copy
-- of a block of memory. The source of a copy is the list of its bytes; a double is the eight bytes
-- that the host keeps it in.
pub mod Layout
pub mod Strings
pub mod Matrices
use ocaml_core.Prelude.{
  ℕ, zero, suc, ◌+◌, ◌-◌, ◌*◌, ◌^◌, ◌%◌, ℤ, pos, negsuc, wrap, cast, Bool, List, [], ◌∷◌, ◌++◌,
  take, drop, length, ltb, leb, if◌then◌else◌,
}
use ocaml_core.Exec.{Exec, buffer_short, raise, pure, ◌>>=◌, ◌>>◌}
use ocaml_core.Memory.{Memory, ptr_add, store, memcpy}
use ocaml_core.Endian.{ByteOrder, le32enc}
use ocaml_core.Write.Integers.{put_char, do_write_int16, do_write_int32, do_write_int64, write_nat0}

-- `do dst[len] = str[len]; while (len-- != 0)` copies from the last index down to 0.
pub copy_down : ℕ → List ℕ → ℕ → Exec Memory (Unit {0})
copy_down dst str zero = store dst (take 1 str)
copy_down dst str (suc len) = do
  store (ptr_add dst (suc len)) (take 1 (drop (suc len) str))
  copy_down dst str len

-- A vector or matrix of a bigarray, with its elements' bytes in memory order.
pub record Vector : Type 0 where
  pub dim : ℕ
  pub bytes : List ℕ

pub record Matrix : Type 0 where
  pub dim1 : ℕ
  pub dim2 : ℕ
  pub bytes : List ℕ

-- A polymorphic variant: an immediate word, or a block whose first field is that word.
pub data Variant : Type 0 where
  immediate : ℤ → Variant
  block : ℤ → Variant

abbrev pub tag_word : Variant → ℤ
tag_word (immediate w) = w
tag_word (block w) = w

abbrev pub concat : List (List ℕ) → List ℕ
concat [] = []
concat (xs ∷ xss) = xs ++ concat xss

module _ (host : ByteOrder) where
  -- The four branches that `write_string_stub`, `write_float_array_stub` and `write_area` share: the
  -- length `len` in the header, then the `size` bytes of the block.
  unfoldable pub write_block : ℕ → ℕ → ℕ → ℕ → List ℕ → Exec Memory ℕ
  write_block sptr eptr len size src =
      if ltb len 0x80
      then (let dst = ptr_add sptr 1 in
          let next = ptr_add dst size in
          if ltb eptr next
          then raise buffer_short
          else do put_char sptr (cast 8 (pos len)); memcpy dst src size; pure next)
      else if ltb len 0x1_0000
      then (let dst = ptr_add sptr 3 in
          let next = ptr_add dst size in
          if ltb eptr next
          then raise buffer_short
          else do do_write_int16 host sptr (cast 16 (pos len)); memcpy dst src size; pure next)
      else if leb 0x1_0000_0000 len
      then (let dst = ptr_add sptr 9 in
          let next = ptr_add dst size in
          if ltb eptr next
          then raise buffer_short
          else do do_write_int64 host sptr (cast 64 (pos len)); memcpy dst src size; pure next)
      else (let dst = ptr_add sptr 5 in
          let next = ptr_add dst size in
          if ltb eptr next
          then raise buffer_short
          else do do_write_int32 host sptr (cast 32 (pos len)); memcpy dst src size; pure next)

  -- A string below 20 bytes is copied by the loop, a longer one by `memcpy`.
  pub write_string_stub : ℕ → ℕ → List ℕ → Exec Memory ℕ
  write_string_stub sptr eptr str =
      let len = length str in
      if ltb len 0x14
      then (let dst = ptr_add sptr 1 in
          let next = ptr_add dst len in
          if ltb eptr next then raise buffer_short else do
            put_char sptr (cast 8 (pos len))
            if ltb 0 len then copy_down dst str (len - 1) else pure tt
            pure next)
      else write_block sptr eptr len len str

  -- A float array is the list of its elements; `sizeof(double)` is 8. `Double_wosize` is 1 on a 64-bit
  -- host, so that the block has as many words as elements.
  pub write_float_array_stub : ℕ → ℕ → List (List ℕ) → Exec Memory ℕ
  write_float_array_stub sptr eptr ar =
      let len = length ar in
      let tot_size = len * 8 % 2 ^ 64 in write_block sptr eptr len tot_size (concat ar)

  -- `write_area` on the data of a bigarray; the blocking section around a long copy changes nothing.
  pub write_area : ℕ → ℕ → List ℕ → ℕ → ℕ → Exec Memory ℕ
  write_area sptr eptr src len tot_size = write_block sptr eptr len tot_size src

  -- The MK_BA1_WRITER functions, for elements of `size` bytes.
  pub write_ba1_stub : ℕ → ℕ → ℕ → Vector → Exec Memory ℕ
  write_ba1_stub size sptr eptr vec =
      write_area sptr eptr vec.bytes vec.dim (vec.dim * size % 2 ^ 64)

  -- The `write_..._mat_stub` functions of MK_VEC_MAT_WRITERS.
  pub write_mat_stub : ℕ → ℕ → ℕ → Matrix → Exec Memory ℕ
  write_mat_stub size sptr eptr mat = do
    sptr' ← write_nat0 host sptr eptr mat.dim1
    write_area sptr' eptr mat.bytes mat.dim2 (mat.dim1 * mat.dim2 % 2 ^ 64 * size % 2 ^ 64)

  -- The tag of a polymorphic variant is the C word of the value, or of its first field.
  pub write_variant_tag_stub : ℕ → ℕ → Variant → Exec Memory ℕ
  write_variant_tag_stub sptr eptr v_tag =
      let next = ptr_add sptr 4 in
      if ltb eptr next
      then raise buffer_short
      else do le32enc host sptr (wrap 32 (cast 32 (tag_word v_tag))); pure next

-- `memcpy(sptr, &n, sizeof(double))`, in the host's byte order.
pub write_float_stub : ℕ → ℕ → List ℕ → Exec Memory ℕ
write_float_stub sptr eptr n =
    let next = ptr_add sptr 8 in
    if ltb eptr next then raise buffer_short else do memcpy sptr n 8; pure next

-- `pos` and `len` become `size_t`.
pub write_raw_string_stub : ℕ → ℕ → List ℕ → ℤ → ℤ → Exec Memory ℕ
write_raw_string_stub sptr eptr str v_pos v_len =
    let len = wrap 64 v_len in
    let next = ptr_add sptr len in
    if ltb eptr next
    then raise buffer_short
    else do memcpy sptr (drop (wrap 64 v_pos) str) len; pure next
