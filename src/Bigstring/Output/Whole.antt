-- ===== src/Bigstring/Output/Whole.antt =====
-- The functions of MakeReallyOutputFun send every byte once and in order, whatever part of them
-- each call takes.
use ocaml_core.Prelude.{
  take-drop, length-take, append_assoc, append-nil, length-drop, take-append_drop, ℕ, ◌+◌, ◌-◌, ◌%◌,
  ◌^◌, ◌≤◌, ◌<◌, ◌≡◌, refl, ap, sym, ◌∙◌, pos, wrap, List, [], ◌∷◌, ◌++◌, length, take, drop, some,
  ltb, true, false, if◌then◌else◌, arith,
}
use ocaml_core.Memory.{Memory, ptr_add, load}
use ocaml_core.Memory.Load.{Holds, load-Holds, Holds-take}
use ocaml_core.Bigarray.{Buf, ptr_diff}
use ocaml_core.Bigstring.{returned, io_error, unix_error, Written, wrote, refused, len_sub}
use ocaml_core.Bigstring.Output.{at_most, really_output_loop, bigstring_really_output_stub}

-- Calls that take the counts one after the other.
abbrev pub counts : List ℕ → List Written
counts [] = []
counts (n ∷ ns) = wrote n ∷ counts ns

abbrev pub total : List ℕ → ℕ
total [] = 0
total (n ∷ ns) = n + total ns

module _ (m : Memory) (start : ℕ) where
  -- A call that takes `n` of the bytes that are left.
  output_step :
      (n : ℕ) (bs : List ℕ) (answers : List Written) (bstr : ℕ) (sent : List ℕ)
      → n ≤ length bs
      → bstr + length bs < 2 ^ 62
      → Holds m bstr bs
      → really_output_loop m start (bstr + length bs) (wrote n ∷ answers) bstr (length bs) sent ≡ (
          if ltb n (length bs)
          then really_output_loop m start
              (bstr + length bs)
              answers
              (bstr + n)
              (length bs - n)
              (sent ++ take n bs)
          else (returned tt, sent ++ take n bs))
  unfolding really_output_loop
  output_step n bs answers bstr sent le small h =
      let most : at_most (length bs) n ≡ n = ground arith in
      let next : ptr_add bstr n ≡ bstr + n = omega arith in
      let left : len_sub (length bs) n ≡ length bs - n = omega arith in
      let at_end : ltb (bstr + n) (bstr + length bs) ≡ ltb n (length bs) = ground arith in
      let loaded : load m bstr n ≡ some (take n bs) =
        rw (length-take n bs le) at
          (load-Holds (take n bs) m bstr (Holds-take n bs m bstr h le).0) in
      rw (most, loaded, next, left, at_end) refl

  -- A call that would take all that is left, or more.
  output_last :
      (n : ℕ) (bs : List ℕ) (answers : List Written) (bstr : ℕ) (sent : List ℕ)
      → length bs ≤ n
      → bstr + length bs < 2 ^ 62
      → Holds m bstr bs
      → really_output_loop m start (bstr + length bs) (wrote n ∷ answers) bstr (length bs) sent
        ≡ (returned tt, sent ++ bs)
  unfolding really_output_loop
  output_last n bs answers bstr sent le small h =
      let most : at_most (length bs) n ≡ length bs = ground arith in
      let next : ptr_add bstr (length bs) ≡ bstr + length bs = omega arith in
      let at_end : ltb (bstr + length bs) (bstr + length bs) ≡ false = ground arith in
      rw (most, load-Holds bs m bstr h, next, at_end) refl

module _ (m : Memory) (start : ℕ) where
  -- Calls that leave some bytes.
  output_more :
      (ns bs : List ℕ) (answers : List Written) (bstr : ℕ) (sent : List ℕ)
      → total ns < length bs
      → bstr + length bs < 2 ^ 62
      → Holds m bstr bs
      → really_output_loop m start (bstr + length bs) (counts ns ++ answers) bstr (length bs) sent
        ≡ really_output_loop m start
            (bstr + length bs)
            answers
            (bstr + total ns)
            (length bs - total ns)
            (sent ++ take (total ns) bs)
  output_more [] bs answers bstr sent lt small h =
      let e : bstr + 0 ≡ bstr = omega arith in
      let d : length bs - 0 ≡ length bs = omega arith in rw (e, d, append-nil sent) refl
  output_more (n ∷ ns) bs answers bstr sent lt small h =
      let rest = drop n bs in
      let left : length rest ≡ length bs - n = length-drop n bs in
      let go : ltb n (length bs) ≡ true = ground arith in
      let last : bstr + n + length rest ≡ bstr + length bs = omega (arith, left) in
      let at_next : bstr + n + total ns ≡ bstr + (n + total ns) = omega arith in
      let fewer : length bs - n - total ns ≡ length bs - (n + total ns) = omega arith in
      let all : (sent ++ take n bs) ++ take (total ns) rest ≡ sent ++ take (n + total ns) bs =
        append_assoc sent (take n bs) (take (total ns) rest)
        ∙ ap (λ xs. sent ++ xs) (take-append_drop n (total ns) bs) in
      output_step m start n bs (counts ns ++ answers) bstr sent (omega arith) small h
      ∙ rw go (
          rw (last, left, at_next, fewer, all) at
            (output_more ns rest answers (bstr + n) (sent ++ take n bs) (omega (arith, left))
              (omega (arith, left)) (Holds-take n bs m bstr h (omega arith)).1))

module _ (m : Memory) (buf : Buf) (p : ℕ) (bs : List ℕ) (ns : List ℕ) (sent : List ℕ)
    (h : Holds m (buf.start + p) bs) (small : buf.start + p + length bs < 2 ^ 62)
    (some_left : total ns < length bs) where
  output_loop :
      (answers : List Written)
      → bigstring_really_output_stub m (counts ns ++ answers) (pos p) (pos (length bs)) buf sent
        ≡ really_output_loop m
            (buf.start + p)
            (buf.start + p + length bs)
            answers
            (buf.start + p + total ns)
            (length bs - total ns)
            (sent ++ take (total ns) bs)
  unfolding bigstring_really_output_stub
  output_loop answers =
      let l : length bs % 2 ^ 64 ≡ length bs = omega arith in
      let s : ptr_add buf.start (wrap 64 (pos p)) ≡ buf.start + p = omega arith in
      let e : ptr_add (buf.start + p) (length bs) ≡ buf.start + p + length bs = omega arith in
      rw (l, s, e)
        (output_more m (buf.start + p) ns bs answers (buf.start + p) sent some_left small h)

  -- For bytes that the memory holds at a position of a bigstring, below address 2 ^ 62: whatever
  -- parts the calls of `write` or `send` take, as long as the parts but the last leave some bytes
  -- and the last call takes the rest, the functions of MakeReallyOutputFun return and have sent
  -- every byte once and in order.
  pub bigstring_really_output_stub_whole :
      (n : ℕ) (answers : List Written)
      → length bs ≤ total ns + n
      → bigstring_really_output_stub m
          (counts ns ++ wrote n ∷ answers)
          (pos p)
          (pos (length bs))
          buf
          sent
        ≡ (returned tt, sent ++ bs)
  bigstring_really_output_stub_whole n answers enough =
      let k = total ns in
      let rest = drop k bs in
      let left : length rest ≡ length bs - k = length-drop k bs in
      let last : buf.start + p + k + length rest ≡ buf.start + p + length bs =
        omega (arith, left) in
      let all : (sent ++ take k bs) ++ rest ≡ sent ++ bs =
        append_assoc sent (take k bs) rest ∙ ap (λ xs. sent ++ xs) (sym (take-drop k bs)) in
      output_loop (wrote n ∷ answers)
      ∙ (rw (last, left, all) at
          (output_last m (buf.start + p) n rest answers (buf.start + p + k) (sent ++ take k bs)
            (omega (arith, left)) (omega (arith, left))
            (Holds-take k bs m (buf.start + p) h (omega arith)).1))

  -- For bytes that the memory holds at a position of a bigstring, below address 2 ^ 62: if calls of
  -- `write` or `send` take some of the bytes but not all and the next one fails, the functions of
  -- MakeReallyOutputFun raise `IOError` with the number of bytes sent and the error, and have sent
  -- exactly that many bytes, in order.
  pub bigstring_really_output_stub-refused :
      (errno : ℕ) (answers : List Written)
      → bigstring_really_output_stub m
          (counts ns ++ refused errno ∷ answers)
          (pos p)
          (pos (length bs))
          buf
          sent
        ≡ (io_error (pos (total ns)) (unix_error errno), sent ++ take (total ns) bs)
  unfolding really_output_loop
  bigstring_really_output_stub-refused errno answers =
      let diff : ptr_diff (buf.start + p + total ns) (buf.start + p) ≡ pos (total ns) =
        ground arith in
      output_loop (refused errno ∷ answers) ∙ rw diff refl
