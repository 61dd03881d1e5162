-- ===== src/Write/Blocks/Strings.antt =====
-- The copying loop of `write_string_stub`, and the whole stub.
use ocaml_core.Prelude.{
  ℕ, zero, suc, ◌+◌, ◌-◌, ◌^◌, ◌≤◌, ◌<◌, ◌≡◌, refl, ap, ◌∙◌, pos, wrap, cast, true, List, [], ◌∷◌,
  ◌++◌, take, drop, length, ltb, if◌then◌else◌, arith, Bool-cases, inl, inr,
}
use ocaml_core.Exec.{Exec, ok, pure, ◌>>◌}
use ocaml_core.Memory.{Memory, ptr_add, store, update}
use ocaml_core.Memory.Store.{IsMapped, put, put-append, update-put, store-eq-put, IsMapped-update}
use ocaml_core.Endian.{ByteOrder}
use ocaml_core.Write.Emit.{emit, IsBuffer, checked_two-emit}
use ocaml_core.Write.Integers.Encoding.{nat0_bytes}
use ocaml_core.Write.Blocks.{copy_down, write_string_stub}
use ocaml_core.Write.Blocks.Layout.{char_put, write_block-emit}

take-suc : (n : ℕ) (xs : List ℕ) → take (suc n) xs ≡ take n xs ++ take 1 (drop n xs)
take-suc zero xs = refl
take-suc (suc n) [] = refl
take-suc (suc n) (x ∷ xs) = ap (◌∷◌ x) (take-suc n xs)

length-take : (n : ℕ) (xs : List ℕ) → n ≤ length xs → length (take n xs) ≡ n
length-take zero xs h = refl
length-take (suc n) [] h = omega arith
length-take (suc n) (x ∷ xs) h = omega (arith, length-take n xs (omega arith))

elem_at : (n : ℕ) (xs : List ℕ) → n < length xs → (x : ℕ) × (take 1 (drop n xs) ≡ x ∷ [])
elem_at zero [] h = absurd (omega arith)
elem_at zero (x ∷ xs) h = (x, refl)
elem_at (suc n) [] h = absurd (omega arith)
elem_at (suc n) (x ∷ xs) h = elem_at n xs (omega arith)

-- From index `len` down to 0 the loop writes the first `len + 1` bytes.
copy_down-put :
    (len : ℕ) (str : List ℕ) (m : Memory) (dst : ℕ)
    → IsMapped m dst (dst + length str)
    → len < length str
    → dst + length str < 2 ^ 64
    → copy_down dst str len m ≡ (ok tt, put m dst (take (suc len) str))
unfolding copy_down
copy_down-put zero str m dst mapped h room =
    store-eq-put (take 1 str) m dst
      (λ a la ah. mapped a la (omega (arith, length-take 1 str (omega arith))))
copy_down-put (suc len) str m dst mapped h room =
    let (x, at) = elem_at (suc len) str h in
    let a = dst + suc len in
    let e : ptr_add dst (suc len) ≡ a = omega arith in
    let l = length-take (suc len) str (omega arith) in
    let low = take (suc len) str in
    let split : put m dst (take (suc (suc len)) str) ≡ put (update m a x) dst low =
      rw (take-suc (suc len) str, at, put-append low (x ∷ []) m dst, l)
        (update-put low m dst a x (omega (arith, l))) in
    rw (e, at, store-eq-put (x ∷ []) m a (λ b lb bh. mapped b (omega arith) (omega arith)), split)
      (copy_down-put len str (update m a x) dst
        (IsMapped-update m dst (dst + length str) a x mapped) (omega arith) room)

take-all : (xs : List ℕ) → take (length xs) xs ≡ xs
take-all [] = refl
take-all (x ∷ xs) = ap (◌∷◌ x) (take-all xs)

-- The two steps of the branch for short strings.
abbrev length_byte : ℕ → List ℕ → Exec Memory (Unit {0})
length_byte sptr str = store sptr (wrap 8 (cast 8 (pos (length str))) ∷ [])

abbrev short_copy : ℕ → List ℕ → Exec Memory (Unit {0})
short_copy sptr str =
    if ltb 0 (length str) then copy_down (ptr_add sptr 1) str (length str - 1) else pure tt

module _ (host : ByteOrder) {m : Memory} {sptr eptr : ℕ} (h : IsBuffer m sptr eptr) where
  short_body :
      (str : List ℕ)
      → length str < 0x14
      → sptr + 1 + length str ≤ eptr
      → (length_byte sptr str >> short_copy sptr str) m ≡ (ok tt, put m sptr (length str ∷ str))
  short_body [] short fits = rw (char_put host h 0 (omega arith) (omega arith))
  short_body (x ∷ xs) short fits =
      let str = x ∷ xs in
      let e : ptr_add sptr 1 ≡ sptr + 1 = omega (arith, h.below) in
      let k : suc (length xs) - 1 ≡ length xs = omega arith in
      let t : ltb 0 (suc (length xs)) ≡ true = ground arith in
      rw (char_put host h (length str) (omega arith) (omega arith), t, e, k)
        (copy_down-put (length xs) str (update m sptr (length str)) (sptr + 1)
            (λ a la ah.
              IsMapped-update m sptr eptr sptr (length str) h.mapped a (omega arith) (omega arith))
            (omega arith) (omega (arith, h.below))
          ∙ ap (λ bs. (ok tt, put (update m sptr (length str)) (sptr + 1) bs)) (take-all str))

  -- For a string below 2 ^ 62 bytes and a mapped buffer below 2 ^ 63, `write_string_stub` stores
  -- the header of the length and then the bytes of the string, the short ones by the loop, and
  -- returns the pointer behind them if they fit; otherwise it raises `Buffer_short` and the memory
  -- is as before.
  pub write_string_stub-emit :
      (str : List ℕ)
      → length str < 2 ^ 62
      → write_string_stub host sptr eptr str m ≡ emit (nat0_bytes (length str) ++ str) sptr eptr m
  unfolding write_string_stub
  write_string_stub-emit str small = elim (Bool-cases (ltb (length str) 0x14)) [
    | inl short ↦
        let e : nat0_bytes (length str) ≡ length str ∷ [] = ground arith in
        rw (short, e)
          (checked_two-emit (length str ∷ []) str (length_byte sptr str) (short_copy sptr str) h
            (omega arith) (λ fits. short_body str (ground arith) (omega arith)))
    | inr long ↦
        rw long (write_block-emit host h (length str) (length str) str (omega arith) refl small)
  ]
