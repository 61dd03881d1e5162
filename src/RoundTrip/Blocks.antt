-- ===== src/RoundTrip/Blocks.antt =====
-- Strings, floats, float arrays, variant tags and bigarrays.
use ocaml_core.Prelude.{
  ℕ, ◌+◌, ◌-◌, ◌*◌, ◌^◌, ◌%◌, ◌≤◌, ◌<◌, ◌≡◌, true, pos, negsuc, if◌then◌else◌, ℤ, wrap, signed,
  ◌≤ℤ◌, ◌<ℤ◌, List, [], ◌∷◌, ◌++◌, length, length-append, arith, ◌∙◌, ap, ◌==◌,
}
use ocaml_core.Exec.{Outcome, ok}
use ocaml_core.Memory.{Memory}
use ocaml_core.Endian.{ByteOrder, le_bytes}
use ocaml_core.Write.Emit.{IsBuffer}
use ocaml_core.Write.Integers.Encoding.{nat0_bytes}
use ocaml_core.Write.Integers.Forms.{nat0_bytes-NatForm}
use ocaml_core.Write.Blocks.{
  Vector, Variant, tag_word, concat, write_string_stub, write_float_array_stub, write_ba1_stub,
  write_float_stub, write_variant_tag_stub,
}
use ocaml_core.Write.Blocks.Layout.{
  write_float_array_stub-emit, write_ba1_stub-emit, write_float_stub-emit,
  write_variant_tag_stub-emit,
}
use ocaml_core.Write.Blocks.Strings.{write_string_stub-emit}
use ocaml_core.Read.Blocks.{
  Runtime, read_string_stub, read_float_array_stub, read_ba1_stub, read_float_stub,
  read_variant_tag_stub,
}
use ocaml_core.Read.Blocks.RoundTrip.{
  read_string_stub-NatForm, read_float_array_stub-NatForm, read_ba1_stub-NatForm,
  read_float_stub-Holds, read_variant_tag_stub-Holds,
}
use ocaml_core.RoundTrip.{read-write}

-- A 32-bit word whose lowest bit is set, as the word of an OCaml integer's is.
abbrev pub IsTag : ℤ → Type 0
IsTag w = (negsuc (2 ^ 31 - 1) ≤ℤ w) × (w <ℤ pos (2 ^ 31)) × (wrap 32 w % 2 ≡ 1)

tag_small : (w : ℤ) → IsTag w → wrap 32 w < 2 ^ 32
tag_small (pos n) h = omega arith
tag_small (negsuc n) h = omega arith

tag_decoded :
    (w : ℤ)
    → IsTag w
    → (good bad : Outcome ℤ × ℕ) → (if wrap 32 w % 2 == 1 then good else bad) ≡ good
tag_decoded w h good bad = ground arith

tag_signed : (w : ℤ) → IsTag w → signed 32 (wrap 32 w) ≡ w
tag_signed (pos n) h = ground arith
tag_signed (negsuc n) h = ground arith

module _ {m : Memory} {sptr eptr : ℕ} (h : IsBuffer m sptr eptr) (q : ℕ) where
  -- If `write_float_stub` of the eight bytes of a double returns a pointer into a mapped buffer
  -- below 2 ^ 63, then `read_float_stub` from the start returns the same eight bytes and stops at
  -- that pointer.
  pub read_float_stub-write_float_stub :
      (n : List ℕ)
      → length n ≡ 8
      → (write_float_stub sptr eptr n m).0 ≡ ok q
      → read_float_stub (write_float_stub sptr eptr n m).1 eptr sptr ≡ (ok n, q)
  read_float_stub-write_float_stub n len =
      read-write (write_float_stub sptr eptr n) (λ m'. read_float_stub m' eptr) n n
        (write_float_stub-emit h n len)
        (λ m' hn fits.
          rw len (read_float_stub-Holds m' eptr sptr h.end n len hn (omega (arith, len))))
        q

  module _ (writer reader : ByteOrder) where
    -- If `write_variant_tag_stub` of a variant whose tag word is an odd signed 32-bit integer
    -- returns a pointer into a mapped buffer below 2 ^ 63, then `read_variant_tag_stub` from the
    -- start returns that word and stops at that pointer.
    pub read_variant_tag_stub-write_variant_tag_stub :
        (v : Variant)
        → IsTag (tag_word v)
        → (write_variant_tag_stub writer sptr eptr v m).0 ≡ ok q
        → read_variant_tag_stub reader (write_variant_tag_stub writer sptr eptr v m).1 eptr sptr
          ≡ (ok (tag_word v), q)
    read_variant_tag_stub-write_variant_tag_stub v tag =
        read-write (write_variant_tag_stub writer sptr eptr v)
          (λ m'. read_variant_tag_stub reader m' eptr) (le_bytes 4 (wrap 32 (tag_word v)))
          (tag_word v) (write_variant_tag_stub-emit h writer v)
          (λ m' hb fits.
            let w = wrap 32 (tag_word v) in
            read_variant_tag_stub-Holds m' eptr sptr h.end reader w (tag_small (tag_word v) tag) hb
              (omega arith)
            ∙ (tag_decoded (tag_word v) tag _ _
                ∙ ap (λ z. (ok z, sptr + 4)) (tag_signed (tag_word v) tag)))
          q

  module _ (writer reader : ByteOrder) (rt : Runtime) where
    -- If `write_string_stub` of a string into a mapped buffer below 2 ^ 63 returns a pointer, and
    -- the string is shorter than the runtime's `max_wosize * 8`, then `read_string_stub` from the
    -- start returns its bytes and stops at that pointer, whatever the byte orders of the two hosts.
    pub read_string_stub-write_string_stub :
        (str : List ℕ)
        → length str < rt.max_wosize * 8
        → (write_string_stub writer sptr eptr str m).0 ≡ ok q
        → read_string_stub reader (write_string_stub writer sptr eptr str m).1 eptr rt sptr
          ≡ (ok (str), q)
    read_string_stub-write_string_stub str small =
        read-write (write_string_stub writer sptr eptr str)
          (λ m'. read_string_stub reader m' eptr rt) (nat0_bytes (length str) ++ str) str
          (write_string_stub-emit writer h str (omega (arith, rt.max_wosize-lt)))
          (λ m' hb fits.
            let total = length-append (nat0_bytes (length str)) (str) in
            let e : sptr + length (nat0_bytes (length str) ++ str)
                ≡ sptr + length (nat0_bytes (length str)) + length (str) =
              omega (arith, total) in
            rw e (
              read_string_stub-NatForm reader rt m' eptr sptr h.end str
                (nat0_bytes-NatForm (length str) (omega (arith, rt.max_wosize-lt))) small hb
                (omega (arith, total))))
          q

    -- If `write_float_array_stub` of an array of 8-byte elements, no more than the runtime's
    -- `max_wosize`, into a mapped buffer below 2 ^ 63 returns a pointer, then
    -- `read_float_array_stub` from the start returns the elements' bytes and stops at that pointer.
    pub read_float_array_stub-write_float_array_stub :
        (ar : List (List ℕ))
        → length (concat ar) ≡ length ar * 8
        → length ar ≤ rt.max_wosize
        → (write_float_array_stub writer sptr eptr ar m).0 ≡ ok q
        → read_float_array_stub reader (write_float_array_stub writer sptr eptr ar m).1 eptr rt sptr
          ≡ (ok (concat ar), q)
    read_float_array_stub-write_float_array_stub ar sizes small =
        read-write (write_float_array_stub writer sptr eptr ar)
          (λ m'. read_float_array_stub reader m' eptr rt) (nat0_bytes (length ar) ++ concat ar)
          (concat ar)
          (write_float_array_stub-emit writer h ar sizes (omega (arith, rt.max_wosize-lt)))
          (λ m' hb fits.
            let total = length-append (nat0_bytes (length ar)) (concat ar) in
            let e : sptr + length (nat0_bytes (length ar) ++ concat ar)
                ≡ sptr + length (nat0_bytes (length ar)) + length (concat ar) =
              omega (arith, total) in
            rw e (
              read_float_array_stub-NatForm reader rt m' eptr sptr h.end (length ar) (concat ar)
                (nat0_bytes-NatForm (length ar) (omega (arith, rt.max_wosize-lt))) sizes small hb
                (omega (arith, total))))
          q

    -- If a MK_BA1_WRITER function writes a vector (fewer than 2 ^ 62 elements and bytes, `size`
    -- bytes for each element) into a mapped buffer below 2 ^ 63 and returns a pointer, and
    -- `caml_ba_alloc` can allocate its dimension, then the MK_BA1_READER function for the size
    -- returns the vector and stops at that pointer.
    pub read_ba1_stub-write_ba1_stub :
        (size : ℕ) (vec : Vector)
        → length vec.bytes ≡ vec.dim * size
        → vec.dim < 2 ^ 62
        → length vec.bytes < 2 ^ 62
        → rt.ba_alloc size (vec.dim ∷ []) ≡ true
        → (write_ba1_stub writer size sptr eptr vec m).0 ≡ ok q
        → read_ba1_stub reader (write_ba1_stub writer size sptr eptr vec m).1 eptr rt size sptr
          ≡ (ok (vec), q)
    read_ba1_stub-write_ba1_stub size vec sizes dims small alloc =
        read-write (write_ba1_stub writer size sptr eptr vec)
          (λ m'. read_ba1_stub reader m' eptr rt size) (nat0_bytes vec.dim ++ vec.bytes) vec
          (write_ba1_stub-emit writer h size vec sizes dims small)
          (λ m' hb fits.
            let total = length-append (nat0_bytes vec.dim) (vec.bytes) in
            let e : sptr + length (nat0_bytes vec.dim ++ vec.bytes)
                ≡ sptr + length (nat0_bytes vec.dim) + length (vec.bytes) =
              omega (arith, total) in
            rw e (
              read_ba1_stub-NatForm reader rt m' eptr sptr h.end size vec
                (nat0_bytes-NatForm vec.dim (omega arith)) dims sizes alloc hb
                (omega (arith, total))))
          q
