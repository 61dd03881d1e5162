-- ===== src/Read/Blocks/Sound.antt =====
-- The block readers on any mapped bytes: they fault nowhere and return whole blocks.
use ocaml_core.Prelude.{
  ℕ, ◌+◌, ◌-◌, ◌*◌, ◌%◌, ◌^◌, ◌≤◌, ◌<◌, ◌≡◌, ◌⊎◌, refl, List, [], ◌∷◌, ◌++◌, length, ltb, arith,
  some, inl, inr, Bool-cases,
}
use ocaml_core.Exec.{
  Outcome, ok, raised, fault, buffer_short, error, read_error, array_bound, out_of_memory,
}
use ocaml_core.Memory.{Memory, ptr_add, load}
use ocaml_core.Memory.Store.{IsMapped}
use ocaml_core.Memory.Load.{Holds, load-Holds, Holds-append_of, load_mapped, IsByteMemory}
use ocaml_core.Endian.{ByteOrder}
use ocaml_core.Write.Blocks.{Vector}
use ocaml_core.Write.Integers.Forms.{NatForm}
use ocaml_core.Read.Integers.{read_nat0}
use ocaml_core.Read.Integers.Sound.{ReadResult}
use ocaml_core.Read.Integers.Total.{read_nat0_result}
use ocaml_core.Read.Blocks.{Runtime, read_string_stub, read_ba1_stub}

-- What was read is a header for `count a` and the block `contents a`, and `a` is whole. Every error
-- but a short buffer and a failed allocation leaves the pointer where it was; none moves it past
-- `eptr`.
module _ {A : Type 0} (count : A → ℕ) (contents : A → List ℕ) (IsWhole : A → Type 0) where
  abbrev pub BlockResult : Memory → ℕ → ℕ → Outcome A × ℕ → Type 0
  BlockResult m eptr p (ok a, q) =
      IsWhole a
      × ((hd : List ℕ) × NatForm (count a) hd
          × Holds m p (hd ++ contents a)
          × (q ≡ p + length hd + length (contents a)))
      × (q ≤ eptr)
  BlockResult m eptr p (raised (error e), q) = q ≡ p
  BlockResult m eptr p (raised buffer_short, q) = (q ≡ p) ⊎ (q ≤ eptr)
  BlockResult m eptr p (raised out_of_memory, q) = q ≤ eptr
  BlockResult m eptr p (raised (read_error e x), q) = ⊥
  BlockResult m eptr p (raised array_bound, q) = ⊥
  BlockResult m eptr p (fault, q) = ⊥

-- A string that the runtime can hold; a vector with all its elements' bytes.
abbrev pub StringResult : Runtime → Memory → ℕ → ℕ → Outcome (List ℕ) × ℕ → Type 0
StringResult rt = BlockResult length (λ s. s) (λ s. length s < rt.max_wosize * 8 ⊎ (length s ≡ 0))

abbrev pub VectorResult : ℕ → Memory → ℕ → ℕ → Outcome Vector × ℕ → Type 0
VectorResult size = BlockResult (λ v. v.dim) (λ v. v.bytes) (λ v. length v.bytes ≡ v.dim * size)

short_header :
    {p q eptr : ℕ}
    → ((q ≡ p) × (eptr ≤ p)) ⊎ ((q ≡ p + 1) × (q ≤ eptr) × (eptr < p + 9))
    → (q ≡ p) ⊎ (q ≤ eptr)
short_header (inl (e, h)) = inl e
short_header (inr (e, h, k)) = inr h

module _ (host : ByteOrder) (rt : Runtime) (m : Memory) (eptr p : ℕ) (mapped : IsMapped m p eptr)
    (bytes : IsByteMemory m) (end : eptr < 2 ^ 63) (below : p < 2 ^ 63) where
  string_after :
      (r : Outcome ℕ × ℕ)
      → read_nat0 host m eptr p ≡ r
      → ReadResult NatForm (λ n. n < 2 ^ 62) m eptr p r
      → StringResult rt m eptr p (read_string_stub host m eptr rt p)
  unfolding read_string_stub
  string_after (ok len, q) e (range, (hd, form, h, eq), le) =
      elim (Bool-cases (ltb (rt.max_wosize * 8 - 1) len)) [
        | inl long ↦ rw (e, long) refl
        | inr fine ↦ elim (Bool-cases (ltb eptr (ptr_add q len))) [
          | inl short ↦ rw (e, fine, short) (inr le)
          | inr fits ↦
              let room : q + len ≤ eptr = ground (arith, rt.max_wosize-lt) in
              let (bs, l, hb) = load_mapped len m p eptr q mapped (omega arith) room in
              let loaded : load m q len ≡ some bs = rw l at (load-Holds bs m q hb) in
              rw (e, fine, fits, loaded)
                (
                  ground (arith, l),
                  (hd, rw l form, Holds-append_of hd bs m p h (rw eq at hb), omega (arith, l)),
                  omega (arith, room),
                )
        ]
      ]
  string_after (raised buffer_short, q) e h = rw e (short_header h)
  string_after (raised (error x), q) e h = rw e h
  string_after (raised (read_error x y), q) e h = absurd h
  string_after (raised array_bound, q) e h = absurd h
  string_after (raised out_of_memory, q) e h = absurd h
  string_after (fault, q) e h = absurd h

  -- `read_string_stub` on any mapped bytes between a pointer and `eptr`, both below 2 ^ 63, touches
  -- nothing outside them: a string that it returns fits the runtime and stands whole behind a
  -- header for its length, and the pointer ends behind it, not beyond `eptr`; an `Error` leaves the
  -- pointer where it was, a `Buffer_short` there or not beyond `eptr`.
  pub read_string_stub_result : StringResult rt m eptr p (read_string_stub host m eptr rt p)
  read_string_stub_result =
      string_after (read_nat0 host m eptr p) refl
        (read_nat0_result host m eptr p mapped bytes end below)

  module _ (size : ℕ) where
    ba1_after :
        (r : Outcome ℕ × ℕ)
        → read_nat0 host m eptr p ≡ r
        → ReadResult NatForm (λ n. n < 2 ^ 62) m eptr p r
        → VectorResult size m eptr p (read_ba1_stub host m eptr rt size p)
    unfolding read_ba1_stub
    ba1_after (ok len, q) e (range, (hd, form, h, eq), le) =
        let tot = len * size % 2 ^ 64 in
        elim (Bool-cases (ltb eptr (ptr_add q tot))) [
          | inl short ↦ rw (e, short) (inr le)
          | inr fits ↦ elim (Bool-cases (rt.ba_alloc size (len ∷ []))) [
            | inr refused ↦ rw (e, fits, refused) le
            | inl alloc ↦
                let vol = rt.ba_alloc_fits size (len ∷ []) alloc in
                let whole : len * size % 2 ^ 64 ≡ len * size = omega (arith, vol) in
                let room : q + len * size ≤ eptr = ground (arith, vol, whole) in
                let (bs, l, hb) = load_mapped (len * size) m p eptr q mapped (omega arith) room in
                let loaded : load m q (len * size) ≡ some bs = rw l at (load-Holds bs m q hb) in
                rw (e, fits, alloc, whole, loaded)
                  (
                    l,
                    (hd, form, Holds-append_of hd bs m p h (rw eq at hb), omega (arith, l)),
                    omega (arith, room),
                  )
          ]
        ]
    ba1_after (raised buffer_short, q) e h = rw e (short_header h)
    ba1_after (raised (error x), q) e h = rw e h
    ba1_after (raised (read_error x y), q) e h = absurd h
    ba1_after (raised array_bound, q) e h = absurd h
    ba1_after (raised out_of_memory, q) e h = absurd h
    ba1_after (fault, q) e h = absurd h

    -- A MK_BA1_READER function for elements of `size` bytes, on any mapped bytes between a pointer
    -- and `eptr`, both below 2 ^ 63, touches nothing outside them: a vector that it returns has
    -- `size` bytes for each element and stands whole behind a header for its dimension, and the
    -- pointer ends behind it, not beyond `eptr`; an `Error` leaves the pointer where it was, and
    -- `Buffer_short` and `Out_of_memory` leave it there or not beyond `eptr`.
    pub read_ba1_stub_result : VectorResult size m eptr p (read_ba1_stub host m eptr rt size p)
    read_ba1_stub_result =
        ba1_after (read_nat0 host m eptr p) refl
          (read_nat0_result host m eptr p mapped bytes end below)
