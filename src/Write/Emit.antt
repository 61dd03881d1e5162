-- ===== src/Write/Emit.antt =====
-- What every writer promises: its bytes at `sptr` and a pointer behind them, or `Buffer_short` and an
-- untouched memory.
use ocaml_core.Prelude.{
  ℕ, ◌+◌, ◌^◌, ◌≤◌, ◌<◌, ◌≡◌, refl, List, [], ◌∷◌, ◌++◌, ◌∙◌, length-append, length, leb, ltb,
  if◌then◌else◌, arith, Bool-cases, inl, inr,
}
use ocaml_core.Exec.{Exec, ok, raised, buffer_short, raise, pure, ◌>>◌}
use ocaml_core.Memory.{Memory, ptr_add, update, store, memcpy}
use ocaml_core.Memory.Store.{
  IsMapped, put, store-eq-put, IsMapped-update, IsMapped-put, put-append, memcpy_whole,
}

unfoldable pub emit : List ℕ → ℕ → ℕ → Exec Memory ℕ
emit bs sptr eptr m =
    if leb (sptr + length bs) eptr
    then (ok (sptr + length bs), put m sptr bs)
    else (raised buffer_short, m)

-- The part of the memory that a writer may write, at addresses where pointers do not wrap.
pub record IsBuffer (m : Memory) (sptr eptr : ℕ) : Type 0 where
  pub mapped : IsMapped m sptr eptr
  pub below : sptr < 2 ^ 63
  pub end : eptr < 2 ^ 63

-- Storing bytes that fit the buffer, and storing more behind a first byte.
pub store_fits :
    (bs : List ℕ) {m : Memory} {sptr eptr : ℕ}
    → IsBuffer m sptr eptr
    → sptr + length bs ≤ eptr
    → store sptr bs m ≡ (ok tt, put m sptr bs)
store_fits bs {m} {sptr} h fits = store-eq-put bs m sptr (λ a la ah. h.mapped a la (omega arith))

pub store_behind :
    (b : ℕ) (bs : List ℕ) {m : Memory} {sptr eptr : ℕ}
    → IsBuffer m sptr eptr
    → sptr + 1 + length bs ≤ eptr
    → (store sptr (b ∷ []) >> store (ptr_add sptr 1) bs) m ≡ (ok tt, put m sptr (b ∷ bs))
store_behind b bs {m} {sptr} {eptr} h fits =
    let e : ptr_add sptr 1 ≡ sptr + 1 = omega (arith, h.below) in
    rw (store_fits (b ∷ []) h (omega arith), e)
      (store-eq-put bs (update m sptr b) (sptr + 1)
        λ a la ah. IsMapped-update m sptr eptr sptr b h.mapped a (omega arith) (omega arith))

-- The shape of the writers: the test against `eptr`, the stores, the next pointer.
abbrev pub checked : ℕ → ℕ → ℕ → Exec Memory (Unit {0}) → Exec Memory ℕ
checked len sptr eptr body =
    let next = ptr_add sptr len in if ltb eptr next then raise buffer_short else (body >> pure next)

pub checked-emit :
    (bs : List ℕ) (body : Exec Memory (Unit {0})) {m : Memory} {sptr eptr : ℕ}
    → IsBuffer m sptr eptr
    → length bs < 2 ^ 63
    → (sptr + length bs ≤ eptr → body m ≡ (ok tt, put m sptr bs))
    → checked (length bs) sptr eptr body m ≡ emit bs sptr eptr m
unfolding emit
checked-emit bs body {m} {sptr} {eptr} h small stores =
    let e : ptr_add sptr (length bs) ≡ sptr + length bs = omega (arith, h.below) in
    elim (Bool-cases (leb (sptr + length bs) eptr)) [
      | inl fits ↦ rw (e, fits) (ground (arith, stores (ground arith)))
      | inr short ↦ rw (e, short) (ground arith)
    ]

-- Storing a block behind a header.
pub store_after_header :
    (hd bs : List ℕ) (header : Exec Memory (Unit {0})) {m : Memory} {sptr eptr : ℕ}
    → IsBuffer m sptr eptr
    → sptr + length hd + length bs ≤ eptr
    → length hd < 2 ^ 63
    → header m ≡ (ok tt, put m sptr hd)
    → (header >> memcpy (ptr_add sptr (length hd)) bs (length bs)) m
      ≡ (ok tt, put m sptr (hd ++ bs))
store_after_header hd bs header {m} {sptr} {eptr} h fits small e =
    let d : ptr_add sptr (length hd) ≡ sptr + length hd = omega (arith, h.below) in
    rw (e, d, memcpy_whole _ bs (length bs) (put m sptr hd) refl, put-append hd bs m sptr)
      (store-eq-put bs (put m sptr hd) (sptr + length hd)
        λ a la ah. IsMapped-put hd m sptr eptr sptr h.mapped a (omega arith) (omega arith))

>>-assoc :
    (x y : Exec Memory (Unit {0})) (z : Exec Memory ℕ) (m : Memory)
    → (x >> (y >> z)) m ≡ ((x >> y) >> z) m
>>-assoc x y z m = ground arith

-- Two steps under one test: a header, and what follows it.
abbrev pub checked_two :
    ℕ → ℕ → ℕ → ℕ → Exec Memory (Unit {0}) → Exec Memory (Unit {0}) → Exec Memory ℕ
checked_two hd size sptr eptr header rest =
    let next = ptr_add (ptr_add sptr hd) size in
    if ltb eptr next then raise buffer_short else (header >> (rest >> pure next))

pub checked_two-emit :
    (hd bs : List ℕ) (header rest : Exec Memory (Unit {0})) {m : Memory} {sptr eptr : ℕ}
    → IsBuffer m sptr eptr
    → length hd + length bs < 2 ^ 63
    → (sptr + length hd + length bs ≤ eptr → (header >> rest) m ≡ (ok tt, put m sptr (hd ++ bs)))
    → checked_two (length hd) (length bs) sptr eptr header rest m ≡ emit (hd ++ bs) sptr eptr m
checked_two-emit hd bs header rest {m} {sptr} {eptr} h small stores =
    let total = length-append hd bs in
    let n : ptr_add (ptr_add sptr (length hd)) (length bs) ≡ ptr_add sptr (length (hd ++ bs)) =
      omega (arith, h.below, total) in
    let regroup : checked_two (length hd) (length bs) sptr eptr header rest m
        ≡ checked (length (hd ++ bs)) sptr eptr (header >> rest) m =
      rw n (elim (Bool-cases (ltb eptr (ptr_add sptr (length (hd ++ bs))))) [
        | inl short ↦ rw short
        | inr fits ↦ rw fits (>>-assoc header rest _ m)
      ]) in
    regroup
    ∙ checked-emit (hd ++ bs) (header >> rest) h (omega (arith, total))
        (λ fits. stores (omega (arith, total)))

-- A header, and a block that is copied behind it.
pub checked_block-emit :
    (hd bs : List ℕ) (header : Exec Memory (Unit {0})) {m : Memory} {sptr eptr : ℕ}
    → IsBuffer m sptr eptr
    → length hd + length bs < 2 ^ 63
    → (sptr + length hd + length bs ≤ eptr → header m ≡ (ok tt, put m sptr hd))
    → checked_two
        (length hd)
        (length bs)
        sptr
        eptr
        header
        (memcpy (ptr_add sptr (length hd)) bs (length bs))
        m
      ≡ emit (hd ++ bs) sptr eptr m
checked_block-emit hd bs header h small stores =
    checked_two-emit hd bs header _ h small
      (λ fits. store_after_header hd bs header h fits (omega arith) (stores fits))

-- What a successful writer leaves, and that it reports nothing but a short buffer.
pub emit_ok :
    (bs : List ℕ) (sptr eptr : ℕ) (m : Memory) (q : ℕ)
    → (emit bs sptr eptr m).0 ≡ ok q
    → (q ≡ sptr + length bs) × (sptr + length bs ≤ eptr) × ((emit bs sptr eptr m).1 ≡ put m sptr bs)
unfolding emit
emit_ok bs sptr eptr m q e = elim (Bool-cases (leb (sptr + length bs) eptr)) [
  | inl fits ↦ (ground arith, ground arith, rw fits)
  | inr short ↦ absurd (ground arith)
]
