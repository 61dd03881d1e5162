-- ===== src/Bigstring/Input/Chunks.antt =====
-- Reading in chunks: what bigstring_read_stub leaves in the bigstring.
use ocaml_core.Prelude.{
  ℕ, suc, ◌+◌, ◌-◌, ◌%◌, ◌^◌, ◌≤◌, ◌<◌, ◌≡◌, ◌⊎◌, inl, inr, refl, ◌∙◌, pos, wrap, List, [], ◌∷◌,
  ◌++◌, length, length-append, take, take_fits, ltb, true, false, ◌==◌, if◌then◌else◌, arith,
}
use ocaml_core.Memory.{Memory, ptr_add}
use ocaml_core.Memory.Store.{IsMapped, put, store-eq-put, IsMapped-put, put-append}
use ocaml_core.Write.Blocks.{concat}
use ocaml_core.Bigarray.{Buf, ptr_diff}
use ocaml_core.Bigarray.RoundTrip.{IsBigarray}
use ocaml_core.Bigstring.{
  returned, io_error, end_of_file, unix_error, Cause, Received, received, failed, len_sub,
}
use ocaml_core.Bigstring.Input.{read_loop, bigstring_read_stub}

-- Calls that return the chunks one after the other; none returns 0.
abbrev pub chunks : List (List ℕ) → List Received
chunks [] = []
chunks (c ∷ cs) = received c ∷ chunks cs

abbrev pub AllNonempty : List (List ℕ) → Type 0
AllNonempty [] = Unit {0}
AllNonempty (c ∷ cs) = (0 < length c) × AllNonempty cs

module _ (init_len start min : ℕ) where
  -- A call that returns a chunk.
  read_step :
      (b : ℕ) (bs : List ℕ) (answers : List Received) (bstr len : ℕ) (m : Memory)
      → start ≤ bstr
      → suc (length bs) ≤ len
      → bstr + len < 2 ^ 62
      → IsMapped m bstr (bstr + len)
      → read_loop init_len start min (received (b ∷ bs) ∷ answers) bstr len m ≡ (
          if ltb (bstr + suc (length bs)) min
          then read_loop init_len start min answers
              (bstr + suc (length bs))
              (len - suc (length bs))
              (put m bstr (b ∷ bs))
          else (returned (pos (bstr + suc (length bs) - start)), put m bstr (b ∷ bs)))
  unfolding read_loop
  read_step b bs answers bstr len m le fits small mapped =
      let next : ptr_add bstr (suc (length bs)) ≡ bstr + suc (length bs) = omega arith in
      let left : len_sub len (suc (length bs)) ≡ len - suc (length bs) = omega arith in
      let diff : ptr_diff (bstr + suc (length bs)) start ≡ pos (bstr + suc (length bs) - start) =
        ground arith in
      rw
        (
          take_fits len (b ∷ bs) fits,
          store-eq-put (b ∷ bs) m bstr (λ a la ah. mapped a la (omega arith)),
          next,
          left,
          diff,
        )
        refl

  -- Chunks that do not reach the minimum are stored one behind the other.
  read_more :
      (front : List (List ℕ)) (answers : List Received) (bstr len : ℕ) (m : Memory)
      → AllNonempty front
      → (bstr + length (concat front) < min) ⊎ (length (concat front) ≡ 0)
      → start ≤ bstr
      → length (concat front) ≤ len
      → bstr + len < 2 ^ 62
      → IsMapped m bstr (bstr + len)
      → read_loop init_len start min (chunks front ++ answers) bstr len m
        ≡ read_loop init_len start min answers
            (bstr + length (concat front))
            (len - length (concat front))
            (put m bstr (concat front))
  read_more [] answers bstr len m nonempty below le fits small mapped =
      let e : bstr + 0 ≡ bstr = omega arith in let d : len - 0 ≡ len = omega arith in rw (e, d) refl
  read_more ([] ∷ front) answers bstr len m (ne, nonempty) below le fits small mapped =
      absurd (omega arith)
  read_more ((b ∷ bs) ∷ front) answers bstr len m (ne, nonempty) (inr none_at_all) le fits small
        mapped =
      absurd (omega (arith, length-append (b ∷ bs) (concat front)))
  read_more ((b ∷ bs) ∷ front) answers bstr len m (ne, nonempty) (inl below) le fits small mapped =
      let all = length-append (b ∷ bs) (concat front) in
      let go : ltb (bstr + suc (length bs)) min ≡ true = ground (arith, all) in
      let e : bstr + suc (length bs) + length (concat front)
          ≡ bstr + length ((b ∷ bs) ++ concat front) =
        omega (arith, all) in
      let d : len - suc (length bs) - length (concat front)
          ≡ len - length ((b ∷ bs) ++ concat front) =
        omega (arith, all) in
      let w = put-append (b ∷ bs) (concat front) m bstr in
      read_step b bs (chunks front ++ answers) bstr len m le (omega (arith, all)) small mapped
      ∙ (rw (go, ← e, ← d, w)
          (read_more front answers (bstr + suc (length bs)) (len - suc (length bs))
            (put m bstr (b ∷ bs)) nonempty (inl (omega (arith, all))) (omega arith)
            (omega (arith, all)) (omega (arith, all))
            (λ a la ah.
              IsMapped-put (b ∷ bs) m bstr (bstr + len) bstr mapped a (omega arith)
                (omega (arith, all)))))

-- The result of the call that ends a read with an exception.
abbrev pub stopped_by : Cause → Received
stopped_by end_of_file = received []
stopped_by (unix_error errno) = failed errno

module _ {m : Memory} {buf : Buf} (h : IsBigarray m buf) (p len min_len : ℕ)
    (room : p + len ≤ buf.dim) (small : min_len < 2 ^ 62) (front : List (List ℕ))
    (nonempty : AllNonempty front)
    (below : (length (concat front) < min_len) ⊎ (length (concat front) ≡ 0)) where
  abbrev at : ℕ
  at = buf.start + p

  range-IsMapped : IsMapped m at (at + len)
  range-IsMapped = λ a la ah. h.mapped a (omega arith) (omega arith)

  stub_loop :
      (answers : List Received)
      → length (concat front) ≤ len
      → bigstring_read_stub (chunks front ++ answers) (pos min_len) (pos p) (pos len) buf m
        ≡ read_loop len at
            (at + min_len)
            answers
            (at + length (concat front))
            (len - length (concat front))
            (put m at (concat front))
  unfolding bigstring_read_stub
  stub_loop answers fits =
      let l : len % 2 ^ 64 ≡ len = omega (arith, h.low) in
      let s : ptr_add buf.start (wrap 64 (pos p)) ≡ at = omega (arith, h.low) in
      let e : ptr_add at (wrap 64 (pos min_len)) ≡ at + min_len = omega (arith, h.low) in
      rw (l, s, e)
        (read_more len at (at + min_len) front answers at len m nonempty
          (elim below [ inl lt ↦ inl (omega arith) | inr none_at_all ↦ inr none_at_all ])
          (omega arith) fits (omega (arith, h.low)) range-IsMapped)

  -- On a bigstring that is mapped whole below 2 ^ 62 and a range of `len` bytes inside it: if the
  -- calls of `read` return chunks, none of them empty and together no more than `len` bytes, and
  -- the chunk that reaches `min_len` is the last (the first chunk is, where `min_len` is 0), then
  -- `bigstring_read_stub` makes no further call, returns the number of bytes and has stored the
  -- chunks one behind the other from the position on.
  pub bigstring_read_stub_enough :
      (b : ℕ) (bs : List ℕ) (answers : List Received)
      → min_len ≤ length (concat front) + length (b ∷ bs)
      → length (concat front) + length (b ∷ bs) ≤ len
      → bigstring_read_stub
          (chunks front ++ received (b ∷ bs) ∷ answers)
          (pos min_len)
          (pos p)
          (pos len)
          buf
          m
        ≡ (
          returned (pos (length (concat front) + length (b ∷ bs))),
          put m at (concat front ++ (b ∷ bs)),
        )
  bigstring_read_stub_enough b bs answers enough fits =
      let n = length (concat front) in
      let stop : ltb (at + n + suc (length bs)) (at + min_len) ≡ false = ground arith in
      let count : at + n + suc (length bs) - at ≡ n + suc (length bs) = omega arith in
      stub_loop (received (b ∷ bs) ∷ answers) (omega arith)
      ∙ (read_step len at (at + min_len) b bs answers (at + n) (len - n) (put m at (concat front))
            (omega arith) (omega arith) (omega (arith, h.low))
            (λ a la ah.
              IsMapped-put (concat front) m at (at + len) at range-IsMapped a (omega arith)
                (omega arith))
          ∙ rw (stop, count, put-append (concat front) (b ∷ bs) m at) refl)

  -- On a bigstring that is mapped whole below 2 ^ 62 and a range of `len` bytes inside it, `len`
  -- positive: if the calls of `read` return nonempty chunks that stay below `min_len` (or none) and
  -- then one returns 0 or fails, `bigstring_read_stub` raises `IOError` with the number of bytes
  -- read so far and End_of_file or the error, also where `min_len` is 0, and has stored these bytes
  -- from the position on.
  pub bigstring_read_stub_stopped :
      (cause : Cause) (answers : List Received)
      → length (concat front) ≤ len
      → 0 < len
      → bigstring_read_stub
          (chunks front ++ stopped_by cause ∷ answers)
          (pos min_len)
          (pos p)
          (pos len)
          buf
          m
        ≡ (io_error (pos (length (concat front))) cause, put m at (concat front))
  unfolding read_loop
  bigstring_read_stub_stopped end_of_file answers fits positive =
      let n = length (concat front) in
      let diff : ptr_diff (at + n) at ≡ pos n = ground (arith, h.low) in
      let some_room : (len == 0) ≡ false = ground arith in
      let nothing : take (len - n) [] ≡ [] = take_fits {A = ℕ} (len - n) [] (omega arith) in
      stub_loop (received [] ∷ answers) fits ∙ rw (nothing, some_room, diff) refl
  bigstring_read_stub_stopped (unix_error errno) answers fits positive =
      let n = length (concat front) in
      let diff : ptr_diff (at + n) at ≡ pos n = ground (arith, h.low) in
      stub_loop (failed errno ∷ answers) fits ∙ rw diff refl
