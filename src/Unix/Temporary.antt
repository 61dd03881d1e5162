-- ===== src/Unix/Temporary.antt =====
-- Temporary files and directories in base/core/lib/unix_stubs.c: init_mktemp, unix_mkstemp and
-- unix_mkdtemp. The buffer is on the stack; a store beyond it has no value.
use ocaml_core.Prelude.{
  ℕ, zero, suc, ℤ, pos, negsuc, cast, ltb_ℤ, take, take_fits, false, ◌^◌, ◌+◌, ◌-◌, ◌<◌, ◌≤◌, ◌≡◌,
  sym, ap, ◌∙◌, List, [], ◌∷◌, ◌++◌, length, length-append, append_assoc, append-nil, Option, none,
  some, Bool-cases, inl, inr, true, ltb, ◌==◌, ◌||◌, if◌then◌else◌, arith,
}
use ocaml_core.Unix.{Reply, value, uerror, invalid_argument, failed}

-- JANE_PATH_MAX, for a PATH_MAX that may be undefined.
abbrev pub jane_path_max : Option ℕ → ℕ
jane_path_max none = 65536
jane_path_max (some path_max) = if path_max == 0 || ltb 65536 path_max then 65536 else path_max

-- The bytes that were stored in the buffer, from its start; `overrun` is a store beyond its end.
pub data Buffer : Type 0 where
  stored : List ℕ → Buffer
  overrun : Buffer

-- The stores go one behind the other.
abbrev pub append : ℕ → Buffer → ℕ → Buffer
append size overrun b = overrun
append size (stored buf) b = if ltb (length buf) size then stored (buf ++ b ∷ []) else overrun

pub memcpy : ℕ → Buffer → List ℕ → Buffer
memcpy size buf [] = buf
memcpy size buf (b ∷ src) = memcpy size (append size buf b) src

-- `for (i = len; i < len + 6; ++i) buf[i] = 'X'`, for the turns that are left.
abbrev pub char_x : ℕ
char_x = 88

pub fill_x : ℕ → ℕ → Buffer → Buffer
fill_x size zero buf = buf
fill_x size (suc n) buf = fill_x size n (append size buf char_x)

-- `JANE_PATH_MAX - 7`, an `int`.
abbrev pub max_len : ℕ → ℤ
max_len jane_path_max =
    if ltb jane_path_max 7 then negsuc (6 - jane_path_max) else pos (jane_path_max - 7)

-- After the test of `len`; `memcpy` takes a negative one for a size beyond the buffer.
abbrev pub with_len : ℕ → List ℕ → ℤ → Buffer
with_len jane_path_max v_path (negsuc n) = overrun
with_len jane_path_max v_path (pos len) =
    append jane_path_max
      (fill_x jane_path_max 6 (memcpy jane_path_max (stored []) (take len v_path))) 0

-- `int len = caml_string_length(v_path)`.
pub init_mktemp : ℕ → List ℕ → Reply Buffer
init_mktemp jane_path_max v_path =
    let len = cast 32 (pos (length v_path)) in
    if ltb_ℤ (max_len jane_path_max) len
    then invalid_argument
    else value (with_len jane_path_max v_path len)

abbrev pub marks : ℕ → List ℕ
marks zero = []
marks (suc n) = char_x ∷ marks n

memcpy_fits :
    (size : ℕ) (src buf : List ℕ)
    → length buf + length src ≤ size
    → memcpy size (stored buf) src ≡ stored (buf ++ src)
unfolding memcpy
memcpy_fits size [] buf h = ap stored (sym (append-nil buf))
memcpy_fits size (b ∷ src) buf h =
    let room : ltb (length buf) size ≡ true = ground (arith, h) in
    rw room (
      memcpy_fits size src (buf ++ b ∷ []) (omega (arith, length-append {0} buf (b ∷ []), h))
      ∙ ap stored (append_assoc buf (b ∷ []) src))

fill_fits :
    (size n : ℕ) (buf : List ℕ)
    → length buf + n ≤ size
    → fill_x size n (stored buf) ≡ stored (buf ++ marks n)
unfolding fill_x
fill_fits size zero buf h = ap stored (sym (append-nil buf))
fill_fits size (suc n) buf h =
    let room : ltb (length buf) size ≡ true = ground (arith, h) in
    rw room (
      fill_fits size n (buf ++ char_x ∷ []) (omega (arith, length-append {0} buf (char_x ∷ []), h))
      ∙ ap stored (append_assoc buf (char_x ∷ []) (marks n)))

-- The path, six times 'X' and a null character are in the buffer; or the path is too long for it.
abbrev pub IsTemplate : ℕ → List ℕ → Reply Buffer → Type 0
IsTemplate size v_path (value (stored buf)) =
    (buf ≡ v_path ++ (marks 6 ++ 0 ∷ [])) × (length buf ≤ size)
IsTemplate size v_path (value overrun) = ⊥
IsTemplate size v_path invalid_argument = size < length v_path + 7
IsTemplate size v_path (uerror e) = ⊥
IsTemplate size v_path failed = ⊥

-- For any JANE_PATH_MAX of 7 or more: `init_mktemp` stores only inside the buffer, which then holds
-- the path, six times 'X' and a null character, or raises Invalid_argument, and the latter only for
-- a path that with these does not fit the buffer.
len_lem : (n : ℕ) → n < 2 ^ 31 → cast 32 (pos n) ≡ pos n
len_lem n low = ground arith

-- For any JANE_PATH_MAX of 7 or more and a path of fewer than 2 ^ 31 bytes: `init_mktemp` stores
-- only inside the buffer, which then holds the path, six times 'X' and a null character, or raises
-- Invalid_argument, and the latter only for a path that with these does not fit the buffer.
pub init_mktemp-IsTemplate :
    (path_max : Option ℕ) (v_path : List ℕ)
    → 7 ≤ jane_path_max path_max
    → length v_path < 2 ^ 31
    → IsTemplate (jane_path_max path_max) v_path (init_mktemp (jane_path_max path_max) v_path)
unfolding init_mktemp
init_mktemp-IsTemplate path_max v_path low short_enough =
    let size = jane_path_max path_max in
    let small : ltb size 7 ≡ false = ground (arith, low) in
    rw (len_lem (length v_path) short_enough, small)
      (elim (Bool-cases (ltb (size - 7) (length v_path))) [
        | inl long ↦
            let long' : ltb_ℤ (pos (size - 7)) (pos (length v_path)) ≡ true =
              ground (arith, long) in
            rw long' (ground (arith, long, low))
        | inr short ↦
            let short' : ltb_ℤ (pos (size - 7)) (pos (length v_path)) ≡ false =
              ground (arith, short) in
            let fits : length v_path + 7 ≤ size = ground (arith, short, low) in
            let all_marks : length (v_path ++ marks 6) ≡ length v_path + 6 =
              length-append v_path (marks 6) in
            let room : ltb (length (v_path ++ marks 6)) size ≡ true =
              ground (arith, all_marks, fits) in
            rw
              (
                short',
                take_fits (length v_path) v_path (omega arith),
                memcpy_fits size v_path [] (omega (arith, fits)),
                fill_fits size 6 v_path (omega (arith, fits)),
                room,
              )
              (
                append_assoc v_path (marks 6) (0 ∷ []),
                omega (arith, length-append {0} (v_path ++ marks 6) (0 ∷ []), all_marks, fits),
              )
      ])
