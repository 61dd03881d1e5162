-- ===== src/Bigstring/Blit/Moved.antt =====
-- bigstring_blit_stub moves bytes between ranges that may overlap; a string that was copied into a
-- bigstring is copied back unchanged.
use ocaml_core.Prelude.{
  ℕ, ◌+◌, ◌%◌, ◌^◌, ◌≤◌, ◌<◌, ◌≡◌, refl, ◌∙◌, pos, wrap, List, ◌++◌, length, take, drop, ltb, false,
  arith,
}
use ocaml_core.Exec.{ok}
use ocaml_core.Memory.{Memory, ptr_add}
use ocaml_core.Memory.Store.{put, store-eq-put, memcpy_whole}
use ocaml_core.Memory.Load.{Holds, load-Holds, Holds-put}
use ocaml_core.Bigarray.{Buf}
use ocaml_core.Bigarray.RoundTrip.{IsBigarray}
use ocaml_core.Bigstring.Blit.{
  bigstring_blit_stub, bigstring_blit_string_bigstring_stub, bigstring_blit_bigstring_string_stub,
}

-- For ranges of one length inside two bigstrings that are mapped whole below 2 ^ 62, which may be
-- one and may overlap, `bigstring_blit_stub` returns and has stored at the destination the bytes
-- that the source held before.
pub bigstring_blit_stub_moved :
    {m : Memory} {src dst : Buf} (p q : ℕ) (bs : List ℕ)
    → IsBigarray m src
    → IsBigarray m dst
    → p + length bs ≤ src.dim
    → q + length bs ≤ dst.dim
    → Holds m (src.start + p) bs
    → bigstring_blit_stub src (pos p) dst (pos q) (pos (length bs)) m
      ≡ (ok tt, put m (dst.start + q) bs)
unfolding bigstring_blit_stub
bigstring_blit_stub_moved {m} {src} {dst} p q bs hs hd fits_src fits_dst h =
    let l : length bs % 2 ^ 64 ≡ length bs = omega (arith, hs.low) in
    let s : ptr_add src.start (wrap 64 (pos p)) ≡ src.start + p = omega (arith, hs.low) in
    let d : ptr_add dst.start (wrap 64 (pos q)) ≡ dst.start + q = omega (arith, hd.low) in
    rw
      (
        l,
        s,
        d,
        load-Holds bs m (src.start + p) h,
        store-eq-put bs m (dst.start + q) (λ a la ah. hd.mapped a (omega arith) (omega arith)),
      )
      refl

module _ {m : Memory} {buf : Buf} (h : IsBigarray m buf) (p : ℕ) (bs : List ℕ)
    (fits : p + length bs ≤ buf.dim) where
  string_copied :
      bigstring_blit_string_bigstring_stub bs (pos 0) buf (pos p) (pos (length bs)) m
      ≡ (ok tt, put m (buf.start + p) bs)
  unfolding bigstring_blit_string_bigstring_stub
  string_copied =
      let l : length bs % 2 ^ 64 ≡ length bs = omega (arith, h.low) in
      let s : ptr_add buf.start (wrap 64 (pos p)) ≡ buf.start + p = omega (arith, h.low) in
      rw (l, s)
        (memcpy_whole (buf.start + p) bs (length bs) m refl
          ∙ store-eq-put bs m (buf.start + p) (λ a la ah. h.mapped a (omega arith) (omega arith)))

  -- If `bigstring_blit_string_bigstring_stub` copies a string into a bigstring that is mapped whole
  -- below 2 ^ 62 and has room for it, then `bigstring_blit_bigstring_string_stub` copies the same
  -- bytes into the range of a string and leaves the rest of that string.
  pub bigstring_blit_bigstring_string_stub_back :
      (v_str : List ℕ) (q : ℕ)
      → q + length bs ≤ length v_str
      → q < 2 ^ 62
      → (bigstring_blit_bigstring_string_stub buf
          (pos p)
          v_str
          (pos q)
          (pos (length bs))
          (bigstring_blit_string_bigstring_stub bs (pos 0) buf (pos p) (pos (length bs)) m).1).0
        ≡ ok (take q v_str ++ (bs ++ drop (q + length bs) v_str))
  unfolding bigstring_blit_bigstring_string_stub
  bigstring_blit_bigstring_string_stub_back v_str q room small =
      let l : length bs % 2 ^ 64 ≡ length bs = omega (arith, h.low) in
      let d : q % 2 ^ 64 ≡ q = omega arith in
      let s : ptr_add buf.start (wrap 64 (pos p)) ≡ buf.start + p = omega (arith, h.low) in
      let inside : ltb (length v_str) (q + length bs) ≡ false = ground arith in
      rw
        (
          string_copied,
          l,
          s,
          d,
          load-Holds bs (put m (buf.start + p) bs) (buf.start + p) (Holds-put bs m (buf.start + p)),
          inside,
        )
        refl
