-- ===== src/Bigstring/Blit/Found.antt =====
-- bigstring_find returns the first position of the byte.
use ocaml_core.Prelude.{
  ℕ, ◌+◌, ◌%◌, ◌^◌, ◌<◌, ◌≡◌, ◌≢◌, refl, pos, negsuc, wrap, cast, List, [], ◌∷◌, ◌++◌, length,
  length-append, none, some, ◌==◌, true, false, arith,
}
use ocaml_core.Exec.{ok}
use ocaml_core.Memory.{Memory, ptr_add}
use ocaml_core.Memory.Load.{Holds}
use ocaml_core.Bigarray.{Buf}
use ocaml_core.Bigstring.Blit.{memchr, bigstring_find}

-- The byte is not in the list.
abbrev pub Absent : ℕ → List ℕ → Type 0
Absent c [] = Unit {0}
Absent c (b ∷ bs) = (b ≢ c) × Absent c bs

memchr_found :
    (front back : List ℕ) (m : Memory) (p c : ℕ)
    → Absent c front
    → Holds m p (front ++ c ∷ back)
    → memchr m p c (length (front ++ c ∷ back)) ≡ ok (some (length front))
unfolding memchr
memchr_found [] back m p c absent (at, h) =
    let same : (c == c) ≡ true = ground arith in rw (at, same) refl
memchr_found (b ∷ front) back m p c (ne, absent) (at, h) =
    let other : (b == c) ≡ false = ground (arith, ne) in
    rw (at, other, memchr_found front back m (p + 1) c absent h) refl

memchr-Absent :
    (bs : List ℕ) (m : Memory) (p c : ℕ)
    → Absent c bs
    → Holds m p bs
    → memchr m p c (length bs) ≡ ok none
unfolding memchr
memchr-Absent [] m p c absent h = refl
memchr-Absent (b ∷ bs) m p c (ne, absent) (at, h) =
    let other : (b == c) ≡ false = ground (arith, ne) in
    rw (at, other, memchr-Absent bs m (p + 1) c absent h) refl

module _ (m : Memory) (buf : Buf) (p c : ℕ) (byte : c < 256) where
  -- Where a range below address 2 ^ 62 of a bigstring holds bytes in which the needle (a byte)
  -- stands behind a part without it, `bigstring_find` on the range returns the position of that
  -- first needle.
  pub bigstring_find_first :
      (front back : List ℕ)
      → Absent c front
      → Holds m (buf.start + p) (front ++ c ∷ back)
      → buf.start + p + length (front ++ c ∷ back) < 2 ^ 62
      → bigstring_find m buf (pos c) (pos p) (pos (length (front ++ c ∷ back)))
        ≡ ok (pos (p + length front))
  unfolding bigstring_find
  bigstring_find_first front back absent h small =
      let n = length (front ++ c ∷ back) in
      let all = length-append front (c ∷ back) in
      let l : n % 2 ^ 64 ≡ n = omega arith in
      let s : ptr_add buf.start (wrap 64 (pos p)) ≡ buf.start + p = omega arith in
      let needle : c % 2 ^ 8 ≡ c = omega arith in
      let v : p % 2 ^ 64 ≡ p = omega arith in
      let result : cast 64 (pos (p + length front)) ≡ pos (p + length front) =
        ground (arith, all) in
      rw (l, s, needle, memchr_found front back m (buf.start + p) c absent h, v, result) refl

  pub bigstring_find-Absent :
      (bs : List ℕ)
      → Absent c bs
      → Holds m (buf.start + p) bs
      → buf.start + p + length bs < 2 ^ 62
      → bigstring_find m buf (pos c) (pos p) (pos (length bs)) ≡ ok (negsuc 0)
  unfolding bigstring_find
  bigstring_find-Absent bs absent h small =
      let l : length bs % 2 ^ 64 ≡ length bs = omega arith in
      let s : ptr_add buf.start (wrap 64 (pos p)) ≡ buf.start + p = omega arith in
      let needle : c % 2 ^ 8 ≡ c = omega arith in
      rw (l, s, needle, memchr-Absent bs m (buf.start + p) c absent h) refl
