-- ===== src/Read/Fixed.antt =====
-- The fixed-width readers of read_stubs.c on a 64-bit host: bits in little-endian and network byte
-- order.
pub mod RoundTrip
use ocaml_core.Prelude.{ℕ, ◌^◌, ℤ, signed, ltb, if◌then◌else◌}
use ocaml_core.Exec.{buffer_short, int_overflow, error, raise, pure, access, ◌>>=◌, ◌>>◌}
use ocaml_core.Memory.{Memory, ptr_add}
use ocaml_core.Endian.{ByteOrder, le64dec, be16dec, be32dec, be64dec}
use ocaml_core.Read.Pointer.{Reader, get_sptr, set_sptr}
use ocaml_core.Read.Integers.{overflows, safe_read_nat0_16, safe_read_nat0_32}

module _ (host : ByteOrder) (m : Memory) (eptr : ℕ) where
  pub read_int_16bit_stub : Reader ℕ
  read_int_16bit_stub = safe_read_nat0_16 host m eptr

  pub read_int_32bit_stub : Reader ℕ
  read_int_32bit_stub = safe_read_nat0_32 host m eptr

  pub read_int_64bit_stub : Reader ℤ
  read_int_64bit_stub = do
    sptr ← get_sptr
    let next = ptr_add sptr 8
    if ltb eptr next then raise buffer_short else do
      x ← access (le64dec host m sptr)
      if overflows (signed 64 x)
          then raise (error int_overflow)
          else do set_sptr next; pure (signed 64 x)

  pub read_int64_bits_stub : Reader ℤ
  read_int64_bits_stub = do
    sptr ← get_sptr
    let next = ptr_add sptr 8
    if ltb eptr next
        then raise buffer_short
        else do x ← access (le64dec host m sptr); set_sptr next; pure (signed 64 x)

  pub read_network16_int_stub : Reader ℕ
  read_network16_int_stub = do
    sptr ← get_sptr
    let next = ptr_add sptr 2
    if ltb eptr next then raise buffer_short else do set_sptr next; access (be16dec host m sptr)

  -- The word is returned unsigned, by the cast to `uint32_t`.
  pub read_network32_int_stub : Reader ℕ
  read_network32_int_stub = do
    sptr ← get_sptr
    let next = ptr_add sptr 4
    if ltb eptr next
        then raise buffer_short
        else do x ← access (be32dec host m sptr); set_sptr next; pure x

  pub read_network32_int32_stub : Reader ℤ
  read_network32_int32_stub = do
    sptr ← get_sptr
    let next = ptr_add sptr 4
    if ltb eptr next
        then raise buffer_short
        else do set_sptr next; x ← access (be32dec host m sptr); pure (signed 32 x)

  pub read_network64_int_stub : Reader ℤ
  read_network64_int_stub = do
    sptr ← get_sptr
    let next = ptr_add sptr 8
    if ltb eptr next then raise buffer_short else do
      x ← access (be64dec host m sptr)
      if overflows (signed 64 x)
          then raise (error int_overflow)
          else do set_sptr next; pure (signed 64 x)

  pub read_network64_int64_stub : Reader ℤ
  read_network64_int64_stub = do
    sptr ← get_sptr
    let next = ptr_add sptr 8
    if ltb eptr next
        then raise buffer_short
        else do set_sptr next; x ← access (be64dec host m sptr); pure (signed 64 x)
