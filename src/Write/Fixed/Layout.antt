-- ===== src/Write/Fixed/Layout.antt =====
-- The bytes that the fixed-width writers write.
use ocaml_core.Prelude.{ℕ, ◌≡◌, ℤ, wrap, cast, [], ◌∷◌, arith}
use ocaml_core.Memory.{Memory}
use ocaml_core.Endian.{ByteOrder, le_bytes, be_bytes}
use ocaml_core.Endian.Encoded.{
  le16enc_lem, le32enc_lem, le64enc_lem, be16enc_lem, be32enc_lem, be64enc_lem,
}
use ocaml_core.Write.Emit.{emit, IsBuffer, store_fits, checked-emit}
use ocaml_core.Write.Fixed.{
  write_int_8bit_stub, write_int_16bit_stub, write_int_32bit_stub, write_int_64bit_stub,
  write_int64_bits_stub, write_network16_int_stub, write_network32_int_stub,
  write_network32_int32_stub, write_network64_int_stub, write_network64_int64_stub,
}

wrap_narrow : (n : ℤ) → (wrap 32 (cast 32 n) ≡ wrap 32 n)
wrap_narrow n = ground arith

wrap_char : (n : ℤ) → wrap 8 (cast 8 (cast 32 n)) ≡ wrap 8 n
wrap_char n = ground arith

module _ {m : Memory} {sptr eptr : ℕ} (h : IsBuffer m sptr eptr) (n : ℤ) where
  pub int_8bit-emit : write_int_8bit_stub sptr eptr n m ≡ emit (wrap 8 n ∷ []) sptr eptr m
  unfolding write_int_8bit_stub
  int_8bit-emit =
      rw (wrap_char n)
        (checked-emit (wrap 8 n ∷ []) _ h (omega arith) (λ fits. store_fits _ h fits))

  module _ (host : ByteOrder) where
    pub int_16bit-emit :
        write_int_16bit_stub host sptr eptr n m ≡ emit (le_bytes 2 (wrap 32 n)) sptr eptr m
    unfolding write_int_16bit_stub
    int_16bit-emit = rw (wrap_narrow n) (
        checked-emit (le_bytes 2 (wrap 32 n)) _ h (omega arith)
          (λ fits. rw le16enc_lem (store_fits _ h fits)))

    pub int_32bit-emit :
        write_int_32bit_stub host sptr eptr n m ≡ emit (le_bytes 4 (wrap 32 n)) sptr eptr m
    unfolding write_int_32bit_stub
    int_32bit-emit = rw (wrap_narrow n) (
        checked-emit (le_bytes 4 (wrap 32 n)) _ h (omega arith)
          (λ fits. rw le32enc_lem (store_fits _ h fits)))

    pub int_64bit-emit :
        write_int_64bit_stub host sptr eptr n m ≡ emit (le_bytes 8 (wrap 64 n)) sptr eptr m
    unfolding write_int_64bit_stub
    int_64bit-emit =
        checked-emit (le_bytes 8 (wrap 64 n)) _ h (omega arith)
          (λ fits. rw le64enc_lem (store_fits _ h fits))

    pub int64_bits-emit :
        write_int64_bits_stub host sptr eptr n m ≡ emit (le_bytes 8 (wrap 64 n)) sptr eptr m
    unfolding write_int64_bits_stub
    int64_bits-emit =
        checked-emit (le_bytes 8 (wrap 64 n)) _ h (omega arith)
          (λ fits. rw le64enc_lem (store_fits _ h fits))

    pub network16_int-emit :
        write_network16_int_stub host sptr eptr n m ≡ emit (be_bytes 2 (wrap 32 n)) sptr eptr m
    unfolding write_network16_int_stub
    network16_int-emit = rw (wrap_narrow n) (
        checked-emit (be_bytes 2 (wrap 32 n)) _ h (omega arith)
          (λ fits. rw be16enc_lem (store_fits _ h fits)))

    pub network32_int-emit :
        write_network32_int_stub host sptr eptr n m ≡ emit (be_bytes 4 (wrap 32 n)) sptr eptr m
    unfolding write_network32_int_stub
    network32_int-emit = rw (wrap_narrow n) (
        checked-emit (be_bytes 4 (wrap 32 n)) _ h (omega arith)
          (λ fits. rw be32enc_lem (store_fits _ h fits)))

    pub network32_int32-emit :
        write_network32_int32_stub host sptr eptr n m ≡ emit (be_bytes 4 (wrap 32 n)) sptr eptr m
    unfolding write_network32_int32_stub
    network32_int32-emit =
        checked-emit (be_bytes 4 (wrap 32 n)) _ h (omega arith)
          (λ fits. rw be32enc_lem (store_fits _ h fits))

    pub network64_int-emit :
        write_network64_int_stub host sptr eptr n m ≡ emit (be_bytes 8 (wrap 64 n)) sptr eptr m
    unfolding write_network64_int_stub
    network64_int-emit =
        checked-emit (be_bytes 8 (wrap 64 n)) _ h (omega arith)
          (λ fits. rw be64enc_lem (store_fits _ h fits))

    pub network64_int64-emit :
        write_network64_int64_stub host sptr eptr n m ≡ emit (be_bytes 8 (wrap 64 n)) sptr eptr m
    unfolding write_network64_int64_stub
    network64_int64-emit =
        checked-emit (be_bytes 8 (wrap 64 n)) _ h (omega arith)
          (λ fits. rw be64enc_lem (store_fits _ h fits))
