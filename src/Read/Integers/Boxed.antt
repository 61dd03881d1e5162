-- ===== src/Read/Integers/Boxed.antt =====
-- The readers of boxed integers on any mapped bytes.
use ocaml_core.Prelude.{
  ℕ, ◌^◌, ◌<◌, ◌≡◌, refl, ltb, leb, ◌==◌, arith, [], ◌∷◌, some, Bool-cases, inl, inr,
}
use ocaml_core.Memory.{Memory}
use ocaml_core.Memory.Load.{IsByteMemory}
use ocaml_core.Memory.Store.{IsMapped}
use ocaml_core.Endian.{ByteOrder}
use ocaml_core.Endian.Mapped.{byte_mapped}
use ocaml_core.Write.Integers.Encoding.{IsLong}
use ocaml_core.Write.Integers.Forms.{IntForm}
use ocaml_core.Read.Integers.{read_int32, read_int64, read_nativeint}
use ocaml_core.Read.Integers.Dispatch.{
  read_int32_at_small, read_int32_at_int16, read_int32_at_neg_int8, read_int32_at_int32,
  read_int32_at_other, read_int32_at_end, read_int64_at_small, read_int64_at_int16,
  read_int64_at_neg_int8, read_int64_at_int32, read_int64_at_nocheck_int64, read_int64_at_other,
  read_int64_at_end, read_nativeint_at_small, read_nativeint_at_int16, read_nativeint_at_neg_int8,
  read_nativeint_at_int32, read_nativeint_at_nocheck_int64, read_nativeint_at_other,
  read_nativeint_at_end,
}
use ocaml_core.Read.Integers.RoundTrip.{IsInt32}
use ocaml_core.Read.Integers.Sound.{
  ReadResult, int16_result, int32_result, neg_int8_result, nocheck_int64_result,
}

module _ (host : ByteOrder) (m : Memory) (eptr p : ℕ) (mapped : IsMapped m p eptr)
    (bytes : IsByteMemory m) (end : eptr < 2 ^ 63) (below : p < 2 ^ 63) where
  read_int64_inside : p < eptr → ReadResult IntForm IsLong m eptr p (read_int64 host m eptr p)
  read_int64_inside room =
      let (b, at, lt) = byte_mapped m p eptr p mapped bytes (omega arith) room in
      elim (Bool-cases (ltb b 128)) [
        | inl low ↦ rw (read_int64_at_small host m eptr p end room b (ground arith) at) (
          ground arith,
          (b ∷ [], IntForm.small b (ground arith) refl, (at, tt), refl),
          omega arith,
        )
        | inr d0 ↦ elim (Bool-cases (b == 0xfe)) [
          | inl c1 ↦
              let at1 : m p ≡ some 0xfe = ground arith in
              rw (read_int64_at_int16 host m eptr p end room at1)
                (int16_result host m eptr p mapped bytes end room IsLong (λ n h. omega arith) at1)
          | inr d1 ↦ elim (Bool-cases (b == 0xff)) [
            | inl c2 ↦
                let at2 : m p ≡ some 0xff = ground arith in
                rw (read_int64_at_neg_int8 host m eptr p end room at2) (
                  neg_int8_result host m eptr p mapped bytes end room IsLong (λ n h. omega arith)
                    at2)
            | inr d2 ↦ elim (Bool-cases (b == 0xfd)) [
              | inl c3 ↦
                  let at3 : m p ≡ some 0xfd = ground arith in
                  rw (read_int64_at_int32 host m eptr p end room at3) (
                    int32_result host m eptr p mapped bytes end room IsLong (λ n h. omega arith)
                      at3)
              | inr d3 ↦ elim (Bool-cases (b == 0xfc)) [
                | inl c4 ↦
                    let at4 : m p ≡ some 0xfc = ground arith in
                    rw (read_int64_at_nocheck_int64 host m eptr p end room at4)
                      (nocheck_int64_result host m eptr p mapped bytes end room at4)
                | inr d4 ↦
                    rw
                      (read_int64_at_other host m eptr p end room b at (ground arith) lt
                        (ground arith) (ground arith) (ground arith) (ground arith))
                      refl
              ]
            ]
          ]
        ]
      ]

  -- `read_int64` on any mapped bytes between a pointer and `eptr`, both below 2 ^ 63, touches
  -- nothing outside them, and either returns a signed 64-bit integer whose form is exactly the
  -- bytes that it passed, not beyond `eptr`, or raises `Error` with the pointer where it was, or
  -- raises `Buffer_short` with the pointer where it was or behind the code byte.
  pub read_int64_result : ReadResult IntForm IsLong m eptr p (read_int64 host m eptr p)
  read_int64_result = elim (Bool-cases (leb eptr p)) [
    | inl out ↦ rw (read_int64_at_end host m eptr p below (ground arith)) (inl (refl, ground arith))
    | inr room ↦ read_int64_inside (ground arith)
  ]

  read_nativeint_inside :
      p < eptr → ReadResult IntForm IsLong m eptr p (read_nativeint host m eptr p)
  read_nativeint_inside room =
      let (b, at, lt) = byte_mapped m p eptr p mapped bytes (omega arith) room in
      elim (Bool-cases (ltb b 128)) [
        | inl low ↦ rw (read_nativeint_at_small host m eptr p end room b (ground arith) at) (
          ground arith,
          (b ∷ [], IntForm.small b (ground arith) refl, (at, tt), refl),
          omega arith,
        )
        | inr d0 ↦ elim (Bool-cases (b == 0xfe)) [
          | inl c1 ↦
              let at1 : m p ≡ some 0xfe = ground arith in
              rw (read_nativeint_at_int16 host m eptr p end room at1)
                (int16_result host m eptr p mapped bytes end room IsLong (λ n h. omega arith) at1)
          | inr d1 ↦ elim (Bool-cases (b == 0xff)) [
            | inl c2 ↦
                let at2 : m p ≡ some 0xff = ground arith in
                rw (read_nativeint_at_neg_int8 host m eptr p end room at2) (
                  neg_int8_result host m eptr p mapped bytes end room IsLong (λ n h. omega arith)
                    at2)
            | inr d2 ↦ elim (Bool-cases (b == 0xfd)) [
              | inl c3 ↦
                  let at3 : m p ≡ some 0xfd = ground arith in
                  rw (read_nativeint_at_int32 host m eptr p end room at3) (
                    int32_result host m eptr p mapped bytes end room IsLong (λ n h. omega arith)
                      at3)
              | inr d3 ↦ elim (Bool-cases (b == 0xfc)) [
                | inl c4 ↦
                    let at4 : m p ≡ some 0xfc = ground arith in
                    rw (read_nativeint_at_nocheck_int64 host m eptr p end room at4)
                      (nocheck_int64_result host m eptr p mapped bytes end room at4)
                | inr d4 ↦
                    rw
                      (read_nativeint_at_other host m eptr p end room b at (ground arith) lt
                        (ground arith) (ground arith) (ground arith) (ground arith))
                      refl
              ]
            ]
          ]
        ]
      ]

  -- `read_nativeint` on any mapped bytes between a pointer and `eptr`, both below 2 ^ 63, touches
  -- nothing outside them, and either returns a signed 64-bit integer whose form is exactly the
  -- bytes that it passed, not beyond `eptr`, or raises `Error` with the pointer where it was, or
  -- raises `Buffer_short` with the pointer where it was or behind the code byte.
  pub read_nativeint_result : ReadResult IntForm IsLong m eptr p (read_nativeint host m eptr p)
  read_nativeint_result = elim (Bool-cases (leb eptr p)) [
    | inl out ↦
        rw (read_nativeint_at_end host m eptr p below (ground arith)) (inl (refl, ground arith))
    | inr room ↦ read_nativeint_inside (ground arith)
  ]

  read_int32_inside : p < eptr → ReadResult IntForm IsInt32 m eptr p (read_int32 host m eptr p)
  read_int32_inside room =
      let (b, at, lt) = byte_mapped m p eptr p mapped bytes (omega arith) room in
      elim (Bool-cases (ltb b 128)) [
        | inl low ↦ rw (read_int32_at_small host m eptr p end room b (ground arith) at) (
          ground arith,
          (b ∷ [], IntForm.small b (ground arith) refl, (at, tt), refl),
          omega arith,
        )
        | inr d0 ↦ elim (Bool-cases (b == 0xfe)) [
          | inl c1 ↦
              let at1 : m p ≡ some 0xfe = ground arith in
              rw (read_int32_at_int16 host m eptr p end room at1)
                (int16_result host m eptr p mapped bytes end room IsInt32 (λ n h. omega arith) at1)
          | inr d1 ↦ elim (Bool-cases (b == 0xff)) [
            | inl c2 ↦
                let at2 : m p ≡ some 0xff = ground arith in
                rw (read_int32_at_neg_int8 host m eptr p end room at2) (
                  neg_int8_result host m eptr p mapped bytes end room IsInt32 (λ n h. omega arith)
                    at2)
            | inr d2 ↦ elim (Bool-cases (b == 0xfd)) [
              | inl c3 ↦
                  let at3 : m p ≡ some 0xfd = ground arith in
                  rw (read_int32_at_int32 host m eptr p end room at3) (
                    int32_result host m eptr p mapped bytes end room IsInt32 (λ n h. omega arith)
                      at3)
              | inr d3 ↦
                  rw
                    (read_int32_at_other host m eptr p end room b at (ground arith) lt
                      (ground arith) (ground arith) (ground arith))
                    refl
            ]
          ]
        ]
      ]

  -- `read_int32` on any mapped bytes between a pointer and `eptr`, both below 2 ^ 63, touches
  -- nothing outside them, and either returns a signed 32-bit integer whose form is exactly the
  -- bytes that it passed, not beyond `eptr`, or raises `Error` with the pointer where it was, or
  -- raises `Buffer_short` with the pointer where it was or behind the code byte.
  pub read_int32_result : ReadResult IntForm IsInt32 m eptr p (read_int32 host m eptr p)
  read_int32_result = elim (Bool-cases (leb eptr p)) [
    | inl out ↦ rw (read_int32_at_end host m eptr p below (ground arith)) (inl (refl, ground arith))
    | inr room ↦ read_int32_inside (ground arith)
  ]
