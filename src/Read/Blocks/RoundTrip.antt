-- ===== src/Read/Blocks/RoundTrip.antt =====
-- The block readers give back the blocks whose bytes they find.
use ocaml_core.Prelude.{
  ℕ, ◌+◌, ◌*◌, ◌%◌, ◌^◌, ◌≤◌, ◌<◌, ◌≡◌, signed, true, List, [], ◌∷◌, ◌++◌, length, ltb, ◌==◌,
  if◌then◌else◌, arith, some,
}
use ocaml_core.Exec.{ok, raised, error, string_too_long, variant_tag, ReadError}
use ocaml_core.Memory.{Memory}
use ocaml_core.Memory.Load.{Holds, load-Holds, Holds-append}
use ocaml_core.Endian.{ByteOrder, le_bytes}
use ocaml_core.Endian.Decoded.{le32dec_lem}
use ocaml_core.Write.Blocks.{Vector, Matrix}
use ocaml_core.Write.Integers.Forms.{NatForm}
use ocaml_core.Read.Integers.RoundTrip.{read_nat0-NatForm}
use ocaml_core.Read.Blocks.{
  Runtime, read_string_stub, read_float_array_stub, read_float_stub, read_ba1_stub, read_mat_stub,
  read_variant_tag_stub, read_zero_or_one, read_char_stub,
}

module _ (host : ByteOrder) (rt : Runtime) (m : Memory) (eptr p : ℕ) (end : eptr < 2 ^ 63) where
  pub read_string_stub-NatForm :
      (str : List ℕ) {hd : List ℕ}
      → NatForm (length str) hd
      → length str < rt.max_wosize * 8
      → Holds m p (hd ++ str)
      → p + length hd + length str ≤ eptr
      → read_string_stub host m eptr rt p ≡ (ok str, p + length hd + length str)
  unfolding read_string_stub
  read_string_stub-NatForm str {hd} form small h fits =
      let (front, back) = Holds-append hd str m p h in
      ground (
        arith,
        rt.max_wosize-lt,
        read_nat0-NatForm host m eptr p end (length str) (omega (arith, rt.max_wosize-lt)) form
            front (omega arith),
        load-Holds str m (p + length hd) back,
      )

  -- On the form of a positive length below 2 ^ 62 that is at least the runtime's `max_wosize * 8`,
  -- before `eptr` (below 2 ^ 63), `read_string_stub` raises the error STRING_TOO_LONG and puts the
  -- pointer back to the start of the header.
  pub read_string_stub_too_long :
      (n : ℕ) {hd : List ℕ}
      → NatForm n hd
      → n < 2 ^ 62
      → rt.max_wosize * 8 ≤ n
      → 0 < n
      → Holds m p hd
      → p + length hd ≤ eptr
      → read_string_stub host m eptr rt p ≡ (raised (error string_too_long), p)
  unfolding read_string_stub
  read_string_stub_too_long n {hd} form range long positive h fits =
      ground (arith, read_nat0-NatForm host m eptr p end n range form h fits)

  pub read_float_array_stub-NatForm :
      (n : ℕ) (bs : List ℕ) {hd : List ℕ}
      → NatForm n hd
      → length bs ≡ n * 8
      → n ≤ rt.max_wosize
      → Holds m p (hd ++ bs)
      → p + length hd + length bs ≤ eptr
      → read_float_array_stub host m eptr rt p ≡ (ok bs, p + length hd + length bs)
  unfolding read_float_array_stub
  read_float_array_stub-NatForm n [] {hd} form len small h fits =
      let (front, back) = Holds-append hd [] m p h in
      ground (
        arith,
        rt.max_wosize-lt,
        read_nat0-NatForm host m eptr p end n (omega (arith, rt.max_wosize-lt)) form front
            (omega arith),
      )
  read_float_array_stub-NatForm n (b ∷ bs) {hd} form len small h fits =
      let (front, back) = Holds-append hd (b ∷ bs) m p h in
      ground (
        arith,
        rt.max_wosize-lt,
        read_nat0-NatForm host m eptr p end n (omega (arith, rt.max_wosize-lt)) form front
            (omega arith),
        load-Holds (b ∷ bs) m (p + length hd) back,
      )

  pub read_ba1_stub-NatForm :
      (size : ℕ) (vec : Vector) {hd : List ℕ}
      → NatForm vec.dim hd
      → vec.dim < 2 ^ 62
      → length vec.bytes ≡ vec.dim * size
      → rt.ba_alloc size (vec.dim ∷ []) ≡ true
      → Holds m p (hd ++ vec.bytes)
      → p + length hd + length vec.bytes ≤ eptr
      → read_ba1_stub host m eptr rt size p ≡ (ok vec, p + length hd + length vec.bytes)
  unfolding read_ba1_stub
  read_ba1_stub-NatForm size vec {hd} form range len alloc h fits =
      let (front, back) = Holds-append hd vec.bytes m p h in
      ground (
        arith,
        rt.ba_alloc_fits size (vec.dim ∷ []) alloc,
        read_nat0-NatForm host m eptr p end vec.dim range form front (omega arith),
        load-Holds vec.bytes m (p + length hd) back,
      )

  -- Where forms of two dimensions below 2 ^ 62, whose product is below 2 ^ 64, and then the bytes
  -- of the elements stand between the pointer and `eptr` (below 2 ^ 63), and `caml_ba_alloc` can
  -- allocate the dimensions, the matrix reader returns the matrix and stops behind it.
  pub read_mat_stub-NatForm :
      (size : ℕ) (mat : Matrix) {hd1 hd2 : List ℕ}
      → NatForm mat.dim1 hd1
      → NatForm mat.dim2 hd2
      → mat.dim1 < 2 ^ 62
      → mat.dim2 < 2 ^ 62
      → length mat.bytes ≡ mat.dim1 * mat.dim2 * size
      → mat.dim1 * mat.dim2 < 2 ^ 64
      → rt.ba_alloc size (mat.dim1 ∷ mat.dim2 ∷ []) ≡ true
      → Holds m p (hd1 ++ (hd2 ++ mat.bytes))
      → p + length hd1 + length hd2 + length mat.bytes ≤ eptr
      → read_mat_stub host m eptr rt size p
        ≡ (ok mat, p + length hd1 + length hd2 + length mat.bytes)
  unfolding read_mat_stub
  read_mat_stub-NatForm size mat {hd1} {hd2} form1 form2 range1 range2 len area alloc h fits =
      let (front, back) = Holds-append hd1 (hd2 ++ mat.bytes) m p h in
      let (front2, back2) = Holds-append hd2 mat.bytes m (p + length hd1) back in
      let a : mat.dim1 * mat.dim2 % 2 ^ 64 ≡ mat.dim1 * mat.dim2 = omega arith in
      let tot : mat.dim1 * mat.dim2 % 2 ^ 64 * size % 2 ^ 64 ≡ length mat.bytes =
        rw (a, ← len) (omega arith) in
      rw
        (
          read_nat0-NatForm host m eptr p end mat.dim1 range1 form1 front (omega arith),
          read_nat0-NatForm host m eptr (p + length hd1) end mat.dim2 range2 form2 front2
              (omega arith),
          tot,
          alloc,
          load-Holds mat.bytes m (p + length hd1 + length hd2) back2,
        )
        (ground arith)

module _ (m : Memory) (eptr p : ℕ) (end : eptr < 2 ^ 63) where
  pub read_float_stub-Holds :
      (n : List ℕ)
      → length n ≡ 8
      → Holds m p n
      → p + 8 ≤ eptr
      → read_float_stub m eptr p ≡ (ok n, p + 8)
  unfolding read_float_stub
  read_float_stub-Holds n len h fits = ground (arith, load-Holds n m p h)

  pub read_char_stub-Holds :
      (b : ℕ) → m p ≡ some b → p < eptr → read_char_stub m eptr p ≡ (ok b, p + 1)
  unfolding read_char_stub
  read_char_stub-Holds b at fits = ground arith

  -- Where a byte stands before `eptr` (below 2 ^ 63), the boolean and option readers return it and
  -- step behind it if it is 0 or 1, and raise their error and leave the pointer where it was if it
  -- is any other.
  pub read_zero_or_one_lem :
      (code : ReadError) (b : ℕ)
      → m p ≡ some b
      → b < 256
      → p < eptr
      → read_zero_or_one m eptr code p
        ≡ (if ltb b 2 then (ok b, p + 1) else (raised (error code), p))
  unfolding read_zero_or_one
  read_zero_or_one_lem code b at lt fits = ground arith

  -- An odd word is a tag; an even one is refused, and the pointer stays.
  pub read_variant_tag_stub-Holds :
      (host : ByteOrder) (x : ℕ)
      → x < 2 ^ 32
      → Holds m p (le_bytes 4 x)
      → p + 4 ≤ eptr
      → read_variant_tag_stub host m eptr p
        ≡ (if x % 2 == 1 then (ok (signed 32 x), p + 4) else (raised (error variant_tag), p))
  unfolding read_variant_tag_stub
  read_variant_tag_stub-Holds host x lt h fits = ground (arith, le32dec_lem host m p x h)
