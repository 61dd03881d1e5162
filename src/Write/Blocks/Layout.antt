-- ===== src/Write/Blocks/Layout.antt =====
-- The bytes of a block: its length as a natural number of the protocol, then its contents.
use ocaml_core.Prelude.{
  ℕ, ◌+◌, ◌*◌, ◌^◌, ◌%◌, ◌≤◌, ◌<◌, ◌≡◌, refl, ◌∙◌, ℤ, pos, wrap, cast, true, false, List, [], ◌∷◌,
  ◌++◌, length, ltb, leb, arith, Bool-cases, inl, inr,
}
use ocaml_core.Exec.{ok}
use ocaml_core.Memory.{Memory, store}
use ocaml_core.Memory.Store.{put, memcpy_whole}
use ocaml_core.Endian.{ByteOrder, le_bytes}
use ocaml_core.Endian.Encoded.{le32enc_lem}
use ocaml_core.Write.Emit.{emit, IsBuffer, store_fits, checked_block-emit, checked-emit}
use ocaml_core.Write.Integers.Encoding.{
  nat0_bytes, do_write_int16-put, do_write_int32-put, do_write_int64-put,
}
use ocaml_core.Write.Blocks.{
  Vector, Variant, tag_word, concat, write_block, write_float_array_stub, write_area,
  write_ba1_stub, write_float_stub, write_variant_tag_stub,
}

wrap-cast : (n : ℤ) → wrap 32 (cast 32 n) ≡ wrap 32 n
wrap-cast n = ground arith

module _ (host : ByteOrder) {m : Memory} {sptr eptr : ℕ} (h : IsBuffer m sptr eptr) where
  pub char_put :
      (n : ℕ)
      → n < 0x80
      → sptr + 1 ≤ eptr
      → store sptr (wrap 8 (cast 8 (pos n)) ∷ []) m ≡ (ok tt, put m sptr (n ∷ []))
  char_put n small fits =
      let e : wrap 8 (cast 8 (pos n)) ≡ n = ground arith in
      rw e (store_fits (n ∷ []) h (omega arith))

  -- `write_block` writes the length and the block, or reports that they do not fit.
  pub write_block-emit :
      (len size : ℕ) (src : List ℕ)
      → len < 2 ^ 64
      → size ≡ length src
      → size < 2 ^ 62
      → write_block host sptr eptr len size src m ≡ emit (nat0_bytes len ++ src) sptr eptr m
  unfolding write_block
  write_block-emit len size src small e fits = elim (Bool-cases (ltb len 0x80)) [
    | inl c1 ↦
        rw (c1, e)
          (checked_block-emit (len ∷ []) src _ h (omega arith)
            (λ f. char_put len (ground arith) (omega arith)))
    | inr d1 ↦ elim (Bool-cases (ltb len 0x1_0000)) [
      | inl c2 ↦
          rw (d1, c2, e)
            (checked_block-emit (0xfe ∷ le_bytes 2 len) src _ h (omega arith)
              (λ f. do_write_int16-put h host len (ground arith) (omega arith)))
      | inr d2 ↦ elim (Bool-cases (ltb len 0x1_0000_0000)) [
        | inl c3 ↦
            let c3' : leb 0x1_0000_0000 len ≡ false = ground arith in
            rw (d1, d2, c3, c3', e)
              (checked_block-emit (0xfd ∷ le_bytes 4 len) src _ h (omega arith)
                (λ f. do_write_int32-put h host len (ground arith) (omega arith)))
        | inr d3 ↦
            let c3' : leb 0x1_0000_0000 len ≡ true = ground arith in
            rw (d1, d2, d3, c3', e)
              (checked_block-emit (0xfc ∷ le_bytes 8 len) src _ h (omega arith)
                (λ f. do_write_int64-put h host len (ground arith) (omega arith)))
      ]
    ]
  ]

  -- A float array is written as its length and its elements.
  pub write_float_array_stub-emit :
      (ar : List (List ℕ))
      → length (concat ar) ≡ length ar * 8
      → length ar < 2 ^ 58
      → write_float_array_stub host sptr eptr ar m
        ≡ emit (nat0_bytes (length ar) ++ concat ar) sptr eptr m
  unfolding write_float_array_stub
  write_float_array_stub-emit ar sizes small =
      write_block-emit (length ar) (length ar * 8 % 2 ^ 64) (concat ar) (omega arith) (omega arith)
        (omega arith)

  pub write_ba1_stub-emit :
      (size : ℕ) (vec : Vector)
      → length vec.bytes ≡ vec.dim * size
      → vec.dim < 2 ^ 62
      → length vec.bytes < 2 ^ 62
      → write_ba1_stub host size sptr eptr vec m
        ≡ emit (nat0_bytes vec.dim ++ vec.bytes) sptr eptr m
  unfolding write_ba1_stub write_area
  write_ba1_stub-emit size vec sizes d small =
      write_block-emit vec.dim (vec.dim * size % 2 ^ 64) vec.bytes (omega arith) (omega arith)
        (omega arith)

module _ {m : Memory} {sptr eptr : ℕ} (h : IsBuffer m sptr eptr) where
  pub write_float_stub-emit :
      (n : List ℕ) → length n ≡ 8 → write_float_stub sptr eptr n m ≡ emit n sptr eptr m
  unfolding write_float_stub
  write_float_stub-emit n e = rw (← e) (
      checked-emit n _ h (omega arith)
        (λ fits. memcpy_whole sptr n (length n) m refl ∙ store_fits n h fits))

  -- A tag is four bytes, least significant first.
  pub write_variant_tag_stub-emit :
      (host : ByteOrder) (v : Variant)
      → write_variant_tag_stub host sptr eptr v m
        ≡ emit (le_bytes 4 (wrap 32 (tag_word v))) sptr eptr m
  unfolding write_variant_tag_stub
  write_variant_tag_stub-emit host v =
      let e : wrap 32 (cast 32 (tag_word v)) ≡ wrap 32 (tag_word v) = wrap-cast (tag_word v) in
      rw e (
        checked-emit (le_bytes 4 (wrap 32 (tag_word v))) _ h (omega arith)
          (λ fits. rw le32enc_lem (store_fits _ h fits)))
