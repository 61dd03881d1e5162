-- ===== src/Read/Blocks.antt =====
-- Reading units, booleans, characters, strings, floats, float arrays, variant tags, raw strings and
-- bigarrays. A block is the list of its bytes; a double is the eight bytes that the host keeps it in.
-- Allocating an OCaml string, float or float array is taken to succeed.
pub mod RoundTrip
pub mod Sound
use ocaml_core.Prelude.{
  ℕ, zero, suc, ◌+◌, ◌-◌, ◌*◌, ◌/◌, ◌%◌, ◌^◌, ◌<◌, ◌≡◌, ℤ, pos, negsuc, signed, wrap, pos_part,
  Bool, true, false, List, [], ◌∷◌, ◌++◌, take, drop, length, ltb, leb, ◌==◌, if◌then◌else◌,
}
use ocaml_core.Exec.{
  ok, raised, fault, unit_code, bool_code, option_code, string_too_long, variant_tag,
  array_too_long, ReadError, buffer_short, error, out_of_memory, raise, pure, access, ◌>>=◌, ◌>>◌,
}
use ocaml_core.Memory.{Memory, ptr_add, load}
use ocaml_core.Endian.{ByteOrder, le32dec}
use ocaml_core.Write.Blocks.{Vector, Matrix}
use ocaml_core.Read.Pointer.{Reader, get_sptr, set_sptr}
use ocaml_core.Read.Integers.{read_nat0, eq_ℤ}

-- The bytes of a bigarray.
abbrev pub volume : ℕ → List ℕ → ℕ
volume size [] = size
volume size (d ∷ ds) = d * volume size ds

-- What the OCaml runtime decides: the largest block, in words, and whether `caml_ba_alloc` can
-- allocate a bigarray of the dimensions for elements of the size. It raises `Out_of_memory`
-- otherwise, and always where the number of bytes passes the largest object of the C library.
pub record Runtime : Type 0 where
  pub max_wosize : ℕ
  pub max_wosize-lt : max_wosize < 2 ^ 54
  pub ba_alloc : ℕ → List ℕ → Bool
  pub ba_alloc_fits :
      (size : ℕ) (dims : List ℕ) → ba_alloc size dims ≡ true → volume size dims < 2 ^ 63

module _ (m : Memory) (eptr : ℕ) where
  pub read_unit_stub : Reader (Unit {0})
  read_unit_stub = do
    sptr ← get_sptr
    if leb eptr sptr then raise buffer_short else do
      res ← access (m sptr)
      if eq_ℤ (signed 8 res) (pos 0)
          then (do set_sptr (ptr_add sptr 1); pure tt)
          else raise (error unit_code)

  -- The functions of READ_ZERO_OR_ONE.
  pub read_zero_or_one : ReadError → Reader ℕ
  read_zero_or_one code = do
    sptr ← get_sptr
    if leb eptr sptr then raise buffer_short else do
      res ← access (m sptr)
      if eq_ℤ (signed 8 res) (pos 0)
          then (do set_sptr (ptr_add sptr 1); pure 0)
          else if eq_ℤ (signed 8 res) (pos 1)
          then (do set_sptr (ptr_add sptr 1); pure 1)
          else raise (error code)

  pub read_bool_stub : Reader ℕ
  unfolding read_zero_or_one
  read_bool_stub = read_zero_or_one bool_code

  pub read_option_bool_stub : Reader ℕ
  unfolding read_zero_or_one
  read_option_bool_stub = read_zero_or_one option_code

  pub read_char_stub : Reader ℕ
  read_char_stub = do
    sptr ← get_sptr
    if leb eptr sptr
        then raise buffer_short
        else do res ← access (m sptr); set_sptr (ptr_add sptr 1); pure res

  pub read_float_stub : Reader (List ℕ)
  read_float_stub = do
    sptr ← get_sptr
    let next = ptr_add sptr 8
    if ltb eptr next then raise buffer_short else do set_sptr next; access (load m sptr 8)

  -- The string that `v_str` becomes; `pos` and `len` are `size_t`. A copy past its end is a fault.
  pub read_raw_string_stub : List ℕ → ℤ → ℤ → Reader (List ℕ)
  read_raw_string_stub v_str v_pos v_len = do
    let at = wrap 64 v_pos
    let len = wrap 64 v_len
    sptr ← get_sptr
    let next = ptr_add sptr len
    if ltb eptr next then raise buffer_short else do
      set_sptr next
      bs ← access (load m sptr len)
      if ltb (length v_str) (at + len)
          then (λ s. (fault, s))
          else pure (take at v_str ++ (bs ++ drop (at + len) v_str))

module _ (host : ByteOrder) (m : Memory) (eptr : ℕ) where
  -- `Is_long` tests the lowest bit. The tag is returned as the C word that it is.
  unfoldable pub read_variant_tag_stub : Reader ℤ
  read_variant_tag_stub = do
    sptr ← get_sptr
    let next = ptr_add sptr 4
    if ltb eptr next then raise buffer_short else do
      n ← access (le32dec host m sptr)
      if n % 2 == 1 then (do set_sptr next; pure (signed 32 n)) else raise (error variant_tag)

  module _ (rt : Runtime) where
    -- `Bsize_wsize(Max_wosize) - 1` is the length of the longest string.
    pub read_string_stub : Reader (List ℕ)
    read_string_stub = do
      start ← get_sptr
      len ← read_nat0 host m eptr
      sptr ← get_sptr
      let next = ptr_add sptr len
      if ltb (rt.max_wosize * 8 - 1) len
          then (do set_sptr start; raise (error string_too_long))
          else if ltb eptr next
          then raise buffer_short
          else do set_sptr next; access (load m sptr len)

    -- `Double_wosize` is 1. The result is the contents of the array.
    unfoldable pub read_float_array_stub : Reader (List ℕ)
    read_float_array_stub = do
      start ← get_sptr
      len ← read_nat0 host m eptr
      if len == 0
          then pure []
          else (if ltb rt.max_wosize len
              then (do set_sptr start; raise (error array_too_long))
              else do
                sptr ← get_sptr
                let tot_size = len * 8 % 2 ^ 64
                let next = ptr_add sptr tot_size
                if ltb eptr next
                    then raise buffer_short
                    else do set_sptr next; access (load m sptr tot_size))

    -- The functions of MK_BA1_READER, for elements of `size` bytes. The blocking section around a
    -- long copy changes nothing.
    pub read_ba1_stub : ℕ → Reader Vector
    read_ba1_stub size = do
      len ← read_nat0 host m eptr
      let tot_size = len * size % 2 ^ 64
      sptr ← get_sptr
      let next = ptr_add sptr tot_size
      if ltb eptr next
          then raise buffer_short
          else if rt.ba_alloc size (len ∷ [])
          then (do
            set_sptr next
            bs ← access (load m sptr tot_size)
            pure (record { dim = len; bytes = bs }))
          else raise out_of_memory

    -- The `read_..._mat_stub` functions of MK_VEC_MAT_READERS.
    pub read_mat_stub : ℕ → Reader Matrix
    read_mat_stub size = do
      dim1 ← read_nat0 host m eptr
      dim2 ← read_nat0 host m eptr
      let tot_size = dim1 * dim2 % 2 ^ 64 * size % 2 ^ 64
      sptr ← get_sptr
      let next = ptr_add sptr tot_size
      if ltb eptr next
          then raise buffer_short
          else if rt.ba_alloc size (dim1 ∷ dim2 ∷ [])
          then (do
            set_sptr next
            bs ← access (load m sptr tot_size)
            pure (record { dim1 = dim1; dim2 = dim2; bytes = bs }))
          else raise out_of_memory
