-- ===== src/Bigstring/Input/Receive.antt =====
-- What bigstring_really_recv_stub leaves in the bigstring, where `recv` returns everything at once
-- and where it does not.
use ocaml_core.Prelude.{
  ℕ, suc, ◌+◌, ◌-◌, ◌%◌, ◌^◌, ◌≤◌, ◌<◌, ◌≡◌, refl, inr, ◌∙◌, pos, wrap, List, [], ◌∷◌, length,
  take_fits, false, ◌==◌, arith, none,
}
use ocaml_core.Memory.{Memory, ptr_add}
use ocaml_core.Memory.Store.{IsMapped, put, store-eq-put, IsMapped-put, put_outside, store_unmapped}
use ocaml_core.Bigarray.{Buf}
use ocaml_core.Bigarray.RoundTrip.{IsBigarray}
use ocaml_core.Bigstring.{returned, unmapped, Received, received, failed, len_sub}
use ocaml_core.Bigstring.Input.{recv_loop, bigstring_really_recv_stub}

-- A call that returns some of the bytes that are asked for.
recv_step :
    (b : ℕ) (bs : List ℕ) (answers : List Received) (bstr len total : ℕ) (m : Memory)
    → suc (length bs) ≤ len
    → bstr + len < 2 ^ 62
    → IsMapped m bstr (bstr + suc (length bs))
    → recv_loop (received (b ∷ bs) ∷ answers) bstr len total m
      ≡ recv_loop answers
          (bstr + (len - suc (length bs)))
          (len - suc (length bs))
          (ptr_add total (suc (length bs)))
          (put m bstr (b ∷ bs))
unfolding recv_loop
recv_step b bs answers bstr len total m fits small mapped =
    let some_left : (len == 0) ≡ false = ground arith in
    let left : len_sub len (suc (length bs)) ≡ len - suc (length bs) = omega arith in
    let next : ptr_add bstr (len - suc (length bs)) ≡ bstr + (len - suc (length bs)) =
      omega arith in
    rw (some_left, take_fits len (b ∷ bs) fits, store-eq-put (b ∷ bs) m bstr mapped, left, next)
      refl

-- Nothing is left to receive.
recv_done :
    (answers : List Received) (bstr total : ℕ) (m : Memory)
    → recv_loop answers bstr 0 total m ≡ (returned tt, m)
unfolding recv_loop
recv_done [] bstr total m = refl
recv_done (received bs ∷ answers) bstr total m = refl
recv_done (failed errno ∷ answers) bstr total m = refl

module _ {m : Memory} {buf : Buf} (h : IsBigarray m buf) (p : ℕ) (b : ℕ) (bs : List ℕ) where
  abbrev at : ℕ
  at = buf.start + p

  stub_loop :
      (answers : List Received) (n : ℕ)
      → 0 < n
      → p + n ≤ buf.dim
      → bigstring_really_recv_stub answers (pos p) (pos n) buf m ≡ recv_loop answers at n 0 m
  unfolding bigstring_really_recv_stub
  stub_loop answers n positive fits =
      let l : n % 2 ^ 64 ≡ n = omega (arith, h.low) in
      let s : ptr_add buf.start (wrap 64 (pos p)) ≡ at = omega (arith, h.low) in
      let some_left : (n == 0) ≡ false = ground arith in rw (l, s, some_left) refl

  -- On a bigstring that is mapped whole below 2 ^ 62: if the first `recv` returns all the bytes
  -- that are asked for, at least one, and they fit the bigstring, `bigstring_really_recv_stub`
  -- returns and has stored them from the position on.
  pub bigstring_really_recv_stub_whole :
      (answers : List Received)
      → p + length (b ∷ bs) ≤ buf.dim
      → bigstring_really_recv_stub
          (received (b ∷ bs) ∷ answers)
          (pos p)
          (pos (length (b ∷ bs)))
          buf
          m
        ≡ (returned tt, put m at (b ∷ bs))
  bigstring_really_recv_stub_whole answers fits =
      let n = suc (length bs) in
      let none_left : n - n ≡ 0 = omega arith in
      stub_loop (received (b ∷ bs) ∷ answers) n (omega arith) fits
      ∙ (recv_step b bs answers at n 0 m (omega arith) (omega (arith, h.low))
            (λ a la ah. h.mapped a (omega arith) (omega arith))
          ∙ rw none_left (recv_done answers (at + 0) (ptr_add 0 n) (put m at (b ∷ bs))))

  module _ (c : ℕ) (cs : List ℕ) (answers : List Received)
      (fits : p + (length (b ∷ bs) + length (c ∷ cs)) ≤ buf.dim) where
    stub_parts :
        bigstring_really_recv_stub
          (received (b ∷ bs) ∷ received (c ∷ cs) ∷ answers)
          (pos p)
          (pos (length (b ∷ bs) + length (c ∷ cs)))
          buf
          m
        ≡ recv_loop
            (received (c ∷ cs) ∷ answers)
            (at + suc (length cs))
            (suc (length cs))
            (ptr_add 0 (suc (length bs)))
            (put m at (b ∷ bs))
    stub_parts =
        let n = suc (length bs) + suc (length cs) in
        let rest : n - suc (length bs) ≡ suc (length cs) = omega arith in
        stub_loop (received (b ∷ bs) ∷ received (c ∷ cs) ∷ answers) n (omega arith) fits
        ∙ (recv_step b bs (received (c ∷ cs) ∷ answers) at n 0 m (omega arith)
              (omega (arith, h.low)) (λ a la ah. h.mapped a (omega arith) (omega arith))
            ∙ rw rest refl)

    -- On a bigstring that is mapped whole below 2 ^ 62: if two calls of `recv` return the bytes in
    -- two parts that fit the bigstring, and twice the second part fits behind the position too,
    -- `bigstring_really_recv_stub` stores the second part at its own length behind the position,
    -- instead of behind the first part.
    pub bigstring_really_recv_stub_parts :
        p + (length (c ∷ cs) + length (c ∷ cs)) ≤ buf.dim
        → bigstring_really_recv_stub
            (received (b ∷ bs) ∷ received (c ∷ cs) ∷ answers)
            (pos p)
            (pos (length (b ∷ bs) + length (c ∷ cs)))
            buf
            m
          ≡ (returned tt, put (put m at (b ∷ bs)) (at + length (c ∷ cs)) (c ∷ cs))
    bigstring_really_recv_stub_parts room =
        let k = suc (length cs) in
        let none_left : k - k ≡ 0 = omega arith in
        stub_parts
        ∙ (recv_step c cs answers (at + k) k (ptr_add 0 (suc (length bs))) (put m at (b ∷ bs))
              (omega arith) (omega (arith, h.low))
              (λ a la ah.
                IsMapped-put (b ∷ bs) m buf.start (buf.start + buf.dim) at h.mapped a (omega arith)
                  (omega arith))
            ∙ rw none_left (recv_done answers _ _ _))

    -- On a bigstring that is mapped whole below 2 ^ 62 with nothing mapped at its end: if two calls
    -- of `recv` return the bytes in two parts that fit the bigstring, but twice the second part
    -- does not fit behind the position, `bigstring_really_recv_stub` stores outside of the
    -- bigstring.
    pub bigstring_really_recv_stub_outside :
        buf.dim < p + (length (c ∷ cs) + length (c ∷ cs))
        → m (buf.start + buf.dim) ≡ none
        → (bigstring_really_recv_stub
            (received (b ∷ bs) ∷ received (c ∷ cs) ∷ answers)
            (pos p)
            (pos (length (b ∷ bs) + length (c ∷ cs)))
            buf
            m).0
          ≡ unmapped
    unfolding recv_loop
    bigstring_really_recv_stub_outside outside hole =
        let k = suc (length cs) in
        let some_left : (k == 0) ≡ false = ground arith in
        let kept : put m at (b ∷ bs) (buf.start + buf.dim) ≡ none =
          put_outside (b ∷ bs) m at (buf.start + buf.dim) (inr (omega arith)) ∙ hole in
        let f =
          store_unmapped (c ∷ cs) (put m at (b ∷ bs)) (at + k) (buf.start + buf.dim) (omega arith)
            (omega arith) kept in
        rw (stub_parts, some_left, take_fits k (c ∷ cs) (omega arith)) (ground (arith, f))
