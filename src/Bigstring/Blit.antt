-- ===== src/Bigstring/Blit.antt =====
-- Copies between bigstrings and strings, search and destruction: the blitting stubs of
-- base/core/lib/bigstring_stubs.c, and bigstring_find and bigstring_destroy_stub.
pub mod Moved
pub mod Found
use ocaml_core.Prelude.{
  ℕ, zero, suc, ◌+◌, ◌^◌, ℤ, pos, negsuc, wrap, cast, List, [], ◌∷◌, ◌++◌, length, take, drop,
  Option, none, some, Bool, ltb, ◌==◌, if◌then◌else◌,
}
use ocaml_core.Exec.{Exec, Outcome, ok, fault, access, pure, ◌>>=◌, ◌>>◌}
use ocaml_core.Memory.{Memory, load, memcpy, memmove}
use ocaml_core.Bigarray.{Buf}
use ocaml_core.Bigstring.{get_bstr}

pub bigstring_blit_string_bigstring_stub : List ℕ → ℤ → Buf → ℤ → ℤ → Exec Memory (Unit {0})
bigstring_blit_string_bigstring_stub v_str v_src_pos v_bstr v_dst_pos v_len =
    memcpy (get_bstr v_bstr v_dst_pos) (drop (wrap 64 v_src_pos) v_str) (wrap 64 v_len)

-- The string that `v_str` becomes; writing past its end is a fault.
pub bigstring_blit_bigstring_string_stub : Buf → ℤ → List ℕ → ℤ → ℤ → Exec Memory (List ℕ)
bigstring_blit_bigstring_string_stub v_bstr v_src_pos v_str v_dst_pos v_len = do
  let dst = wrap 64 v_dst_pos
  let len = wrap 64 v_len
  bs ← (λ m. access (load m (get_bstr v_bstr v_src_pos) len) m)
  if ltb (length v_str) (dst + len)
      then (λ m. (fault, m))
      else pure (take dst v_str ++ (bs ++ drop (dst + len) v_str))

-- With or without a blocking section, one `memmove`.
pub bigstring_blit_stub : Buf → ℤ → Buf → ℤ → ℤ → Exec Memory (Unit {0})
bigstring_blit_stub v_src v_src_pos v_dst v_dst_pos v_len =
    memmove (get_bstr v_dst v_dst_pos) (get_bstr v_src v_src_pos) (wrap 64 v_len)

-- `memchr`: the offset of the first of `n` bytes that is the `unsigned char` `c`; the bytes behind it
-- are not read.
abbrev behind : Outcome (Option ℕ) → Outcome (Option ℕ)
behind (ok (some k)) = ok (some (suc k))
behind r = r

abbrev at_byte : Option ℕ → ℕ → Outcome (Option ℕ) → Outcome (Option ℕ)
at_byte none c rest = fault
at_byte (some b) c rest = if b == c then ok (some 0) else behind rest

pub memchr : Memory → ℕ → ℕ → ℕ → Outcome (Option ℕ)
memchr m p c zero = ok none
memchr m p c (suc n) = at_byte (m p) c (memchr m (p + 1) c n)

-- The position in the bigstring, -1 if there is none.
abbrev position_of : ℕ → Outcome (Option ℕ) → Outcome ℤ
position_of v_pos (ok none) = ok (negsuc 0)
position_of v_pos (ok (some k)) = ok (cast 64 (pos (v_pos + k)))
position_of v_pos r = fault

pub bigstring_find : Memory → Buf → ℤ → ℤ → ℤ → Outcome ℤ
bigstring_find m v_str v_needle v_pos v_len =
    position_of (wrap 64 v_pos) (memchr m (get_bstr v_str v_pos) (wrap 8 v_needle) (wrap 64 v_len))
