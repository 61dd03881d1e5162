-- ===== src/Read/Integers/Total.antt =====
-- The integer readers on any mapped bytes are sound: they fault nowhere, and accept only forms of the
-- protocol.
use ocaml_core.Prelude.{
  ℕ, ◌^◌, ◌<◌, ◌≡◌, refl, ltb, leb, ◌==◌, arith, [], ◌∷◌, some, Bool-cases, inl, inr,
}
use ocaml_core.Memory.{Memory}
use ocaml_core.Memory.Load.{IsByteMemory}
use ocaml_core.Memory.Store.{IsMapped}
use ocaml_core.Endian.{ByteOrder}
use ocaml_core.Endian.Mapped.{byte_mapped}
use ocaml_core.Write.Integers.Forms.{IntForm, NatForm}
use ocaml_core.Read.Integers.{read_int, read_nat0}
use ocaml_core.Read.Integers.Dispatch.{
  read_int_at_small, read_int_at_int16, read_int_at_neg_int8, read_int_at_int32, read_int_at_int64,
  read_int_at_other, read_int_at_end, read_nat0_at_small, read_nat0_at_nat0_16,
  read_nat0_at_nat0_32, read_nat0_at_nat0_64, read_nat0_at_other, read_nat0_at_end,
}
use ocaml_core.Read.Integers.RoundTrip.{IsOcamlInt}
use ocaml_core.Read.Integers.Sound.{
  ReadResult, int16_result, int32_result, neg_int8_result, int64_result, nat0_16_result,
  nat0_32_result, nat0_64_result,
}

module _ (host : ByteOrder) (m : Memory) (eptr p : ℕ) (mapped : IsMapped m p eptr)
    (bytes : IsByteMemory m) (end : eptr < 2 ^ 63) (below : p < 2 ^ 63) where
  read_int_inside : p < eptr → ReadResult IntForm IsOcamlInt m eptr p (read_int host m eptr p)
  read_int_inside room =
      let (b, at, lt) = byte_mapped m p eptr p mapped bytes (omega arith) room in
      elim (Bool-cases (ltb b 128)) [
        | inl low ↦ rw (read_int_at_small host m eptr p end room b (ground arith) at) (
          ground arith,
          (b ∷ [], IntForm.small b (ground arith) refl, (at, tt), refl),
          omega arith,
        )
        | inr d0 ↦ elim (Bool-cases (b == 0xfe)) [
          | inl c1 ↦
              let at1 : m p ≡ some 0xfe = ground arith in
              rw (read_int_at_int16 host m eptr p end room at1) (
                int16_result host m eptr p mapped bytes end room IsOcamlInt (λ n h. omega arith)
                  at1)
          | inr d1 ↦ elim (Bool-cases (b == 0xff)) [
            | inl c2 ↦
                let at2 : m p ≡ some 0xff = ground arith in
                rw (read_int_at_neg_int8 host m eptr p end room at2) (
                  neg_int8_result host m eptr p mapped bytes end room IsOcamlInt
                    (λ n h. omega arith) at2)
            | inr d2 ↦ elim (Bool-cases (b == 0xfd)) [
              | inl c3 ↦
                  let at3 : m p ≡ some 0xfd = ground arith in
                  rw (read_int_at_int32 host m eptr p end room at3) (
                    int32_result host m eptr p mapped bytes end room IsOcamlInt (λ n h. omega arith)
                      at3)
              | inr d3 ↦ elim (Bool-cases (b == 0xfc)) [
                | inl c4 ↦
                    let at4 : m p ≡ some 0xfc = ground arith in
                    rw (read_int_at_int64 host m eptr p end room at4)
                      (int64_result host m eptr p mapped bytes end room at4)
                | inr d4 ↦
                    rw
                      (read_int_at_other host m eptr p end room b at (ground arith) lt
                        (ground arith) (ground arith) (ground arith) (ground arith))
                      refl
              ]
            ]
          ]
        ]
      ]

  -- `read_int` on any mapped bytes between a pointer and `eptr`, both below 2 ^ 63, touches nothing
  -- outside them, and either returns a 63-bit integer whose form in the protocol is exactly the
  -- bytes that it passed, not beyond `eptr`, or raises `Error` with the pointer where it was, or
  -- raises `Buffer_short` with the pointer where it was (nothing to read) or behind the code byte
  -- (fewer than 8 bytes behind it).
  pub read_int_result : ReadResult IntForm IsOcamlInt m eptr p (read_int host m eptr p)
  read_int_result = elim (Bool-cases (leb eptr p)) [
    | inl out ↦ rw (read_int_at_end host m eptr p below (ground arith)) (inl (refl, ground arith))
    | inr room ↦ read_int_inside (ground arith)
  ]

  read_nat0_inside :
      p < eptr → ReadResult NatForm (λ n. n < 2 ^ 62) m eptr p (read_nat0 host m eptr p)
  read_nat0_inside room =
      let (b, at, lt) = byte_mapped m p eptr p mapped bytes (omega arith) room in
      elim (Bool-cases (ltb b 128)) [
        | inl low ↦ rw (read_nat0_at_small host m eptr p end room b (ground arith) at) (
          ground arith,
          (b ∷ [], NatForm.small b (ground arith) refl, (at, tt), refl),
          omega arith,
        )
        | inr d0 ↦ elim (Bool-cases (b == 0xfe)) [
          | inl c1 ↦
              let at1 : m p ≡ some 0xfe = ground arith in
              rw (read_nat0_at_nat0_16 host m eptr p end room at1)
                (nat0_16_result host m eptr p mapped bytes end room at1)
          | inr d1 ↦ elim (Bool-cases (b == 0xfd)) [
            | inl c2 ↦
                let at2 : m p ≡ some 0xfd = ground arith in
                rw (read_nat0_at_nat0_32 host m eptr p end room at2)
                  (nat0_32_result host m eptr p mapped bytes end room at2)
            | inr d2 ↦ elim (Bool-cases (b == 0xfc)) [
              | inl c3 ↦
                  let at3 : m p ≡ some 0xfc = ground arith in
                  rw (read_nat0_at_nat0_64 host m eptr p end room at3)
                    (nat0_64_result host m eptr p mapped bytes end room at3)
              | inr d3 ↦
                  rw
                    (read_nat0_at_other host m eptr p end room b at (ground arith) lt (ground arith)
                      (ground arith) (ground arith))
                    refl
            ]
          ]
        ]
      ]

  -- `read_nat0` on any mapped bytes between a pointer and `eptr`, both below 2 ^ 63, touches
  -- nothing outside them, and either returns a number below 2 ^ 62 whose form is exactly the bytes
  -- that it passed, or raises `Error` with the pointer where it was, or raises `Buffer_short` with
  -- the pointer where it was or behind the code byte.
  pub read_nat0_result : ReadResult NatForm (λ n. n < 2 ^ 62) m eptr p (read_nat0 host m eptr p)
  read_nat0_result = elim (Bool-cases (leb eptr p)) [
    | inl out ↦ rw (read_nat0_at_end host m eptr p below (ground arith)) (inl (refl, ground arith))
    | inr room ↦ read_nat0_inside (ground arith)
  ]
