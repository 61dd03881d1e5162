-- ===== src/Read/Integers/Sound.antt =====
-- The integer readers on any mapped bytes: what they accept, and where they leave the pointer.
use ocaml_core.Prelude.{
  ℕ, ◌+◌, ◌-◌, ◌%◌, ◌^◌, ◌≤◌, ◌<◌, ◌≡◌, ◌⊎◌, refl, ℤ, negsuc, signed, false, ltb, leb, arith, List,
  [], ◌∷◌, length, some, Bool-cases, inl, inr,
}
use ocaml_core.Exec.{
  Outcome, ok, raised, fault, error, buffer_short, read_error, array_bound, out_of_memory,
}
use ocaml_core.Memory.{Memory}
use ocaml_core.Memory.Load.{Holds, IsByteMemory}
use ocaml_core.Memory.Store.{IsMapped}
use ocaml_core.Endian.{ByteOrder, le_bytes}
use ocaml_core.Endian.Mapped.{byte_mapped, le_bytes_mapped}
use ocaml_core.Write.Integers.Encoding.{IsLong}
use ocaml_core.Write.Integers.Forms.{IntForm, NatForm, neg8, wide16, wide32, wide64}
use ocaml_core.Read.Integers.{
  overflows, safe_read_int16, safe_read_int32, safe_read_neg_int8, safe_read_int64,
  safe_read_nocheck_int64, safe_read_nat0_16, safe_read_nat0_32, safe_read_nat0_64,
}
use ocaml_core.Read.Integers.Decoding.{
  int16_decoded, int32_decoded, int64_decoded, nocheck_int64_decoded, nat0_16_decoded,
  nat0_32_decoded, nat0_64_decoded, neg_int8_decoded, int16_short, int32_short, int64_short,
  nocheck_int64_short, nat0_16_short, nat0_32_short, nat0_64_short, neg_int8_short,
  neg_int8_refused, int64_refused, nat0_64_refused,
}
use ocaml_core.Read.Integers.RoundTrip.{IsOcamlInt, IsInt32}

-- A value is one in range whose form is what was read. A refused value leaves the pointer where it
-- was; a short buffer leaves it there or behind the code byte.
abbrev pub ReadResult :
    {A : Type 0} → (A → List ℕ → Type 0) → (A → Type 0) → Memory → ℕ → ℕ → Outcome A × ℕ → Type 0
ReadResult Form InRange m eptr p (ok n, q) =
    InRange n × ((bs : List ℕ) × Form n bs × Holds m p bs × (q ≡ p + length bs)) × (q ≤ eptr)
ReadResult Form InRange m eptr p (raised buffer_short, q) =
    ((q ≡ p) × (eptr ≤ p)) ⊎ ((q ≡ p + 1) × (q ≤ eptr) × (eptr < p + 9))
ReadResult Form InRange m eptr p (raised (error e), q) = q ≡ p
ReadResult Form InRange m eptr p (raised (read_error e x), q) = ⊥
ReadResult Form InRange m eptr p (raised array_bound, q) = ⊥
ReadResult Form InRange m eptr p (raised out_of_memory, q) = ⊥
ReadResult Form InRange m eptr p (fault, q) = ⊥

signed-IsLong : (x : ℕ) → x < 2 ^ 64 → IsLong (signed 64 x)
signed-IsLong x lt = ground arith

in_range : (x : ℕ) → x < 2 ^ 64 → overflows (signed 64 x) ≡ false → IsOcamlInt (signed 64 x)
in_range x lt good = ground arith

module _ (host : ByteOrder) (m : Memory) (eptr p : ℕ) (mapped : IsMapped m p eptr)
    (bytes : IsByteMemory m) (end : eptr < 2 ^ 63) (room : p < eptr) where
  module _ (R : ℤ → Type 0) (narrow : (n : ℤ) → IsInt32 n → R n) where
    pub int16_result :
        m p ≡ some 0xfe → ReadResult IntForm R m eptr p (safe_read_int16 host m eptr (p + 1))
    int16_result at = elim (Bool-cases (leb (p + 3) eptr)) [
      | inl fits ↦
          let (x, lt, h) =
            le_bytes_mapped 2 m p eptr (p + 1) mapped bytes (omega arith) (ground arith) in
          let e : x % 2 ^ 16 ≡ x = omega arith in
          rw (int16_decoded host m eptr (p + 1) end x h (ground arith), e)
            (
              narrow (signed 16 x) (ground arith),
              (0xfe ∷ le_bytes 2 x, wide16 x lt refl, (at, h), omega arith),
              ground arith,
            )
      | inr short ↦
          rw (int16_short host m eptr (p + 1) (omega arith) (ground arith))
            (inr (refl, omega arith, ground arith))
    ]

    pub int32_result :
        m p ≡ some 0xfd → ReadResult IntForm R m eptr p (safe_read_int32 host m eptr (p + 1))
    int32_result at = elim (Bool-cases (leb (p + 5) eptr)) [
      | inl fits ↦
          let (x, lt, h) =
            le_bytes_mapped 4 m p eptr (p + 1) mapped bytes (omega arith) (ground arith) in
          let e : x % 2 ^ 32 ≡ x = omega arith in
          rw (int32_decoded host m eptr (p + 1) end x h (ground arith), e)
            (
              narrow (signed 32 x) (ground arith),
              (0xfd ∷ le_bytes 4 x, wide32 x lt refl, (at, h), omega arith),
              ground arith,
            )
      | inr short ↦
          rw (int32_short host m eptr (p + 1) (omega arith) (ground arith))
            (inr (refl, omega arith, ground arith))
    ]

    pub neg_int8_result :
        m p ≡ some 0xff → ReadResult IntForm R m eptr p (safe_read_neg_int8 host m eptr (p + 1))
    neg_int8_result at = elim (Bool-cases (leb (p + 2) eptr)) [
      | inl fits ↦
          let (b, bt, lt) =
            byte_mapped m p eptr (p + 1) mapped bytes (omega arith) (ground arith) in
          elim (Bool-cases (ltb b 128)) [
            | inl low ↦
                rw
                  (neg_int8_refused host m eptr (p + 1) end (omega arith) b (ground arith) bt
                    (ground arith))
                  (omega arith)
            | inr high ↦
                let k : b ≡ 255 - (255 - b) = ground arith in
                let at' : m (p + 1) ≡ some (255 - (255 - b)) = ground arith in
                rw
                  (neg_int8_decoded host m eptr (p + 1) end (255 - b) (ground arith) at'
                    (ground arith))
                  (
                    narrow (negsuc (255 - b)) (ground arith),
                    (
                      0xff ∷ (255 - (255 - b)) ∷ [],
                      neg8 (255 - b) (ground arith) refl,
                      (at, (at', tt)),
                      omega arith,
                    ),
                    ground arith,
                  )
          ]
      | inr short ↦
          rw (neg_int8_short host m eptr (p + 1) (omega arith) (ground arith))
            (inr (refl, omega arith, ground arith))
    ]

  pub int64_result :
      m p ≡ some 0xfc → ReadResult IntForm IsOcamlInt m eptr p (safe_read_int64 host m eptr (p + 1))
  int64_result at = elim (Bool-cases (leb (p + 9) eptr)) [
    | inl fits ↦
        let (x, lt, h) =
          le_bytes_mapped 8 m p eptr (p + 1) mapped bytes (omega arith) (ground arith) in
        let e : x % 2 ^ 64 ≡ x = omega arith in
        elim (Bool-cases (overflows (signed 64 (x % 2 ^ 64)))) [
          | inl wide ↦
              rw (int64_refused host m eptr (p + 1) end (omega arith) x h (ground arith) wide)
                (omega arith)
          | inr good ↦
              let good' : overflows (signed 64 x) ≡ false = rw e at good in
              rw (int64_decoded host m eptr (p + 1) end x h (ground arith) good, e)
                (
                  in_range x lt good',
                  (0xfc ∷ le_bytes 8 x, wide64 x lt refl, (at, h), omega arith),
                  ground arith,
                )
        ]
    | inr short ↦
        rw (int64_short host m eptr (p + 1) (omega arith) (ground arith))
          (inr (refl, omega arith, ground arith))
  ]

  pub nocheck_int64_result :
      m p ≡ some 0xfc
      → ReadResult IntForm IsLong m eptr p (safe_read_nocheck_int64 host m eptr (p + 1))
  nocheck_int64_result at = elim (Bool-cases (leb (p + 9) eptr)) [
    | inl fits ↦
        let (x, lt, h) =
          le_bytes_mapped 8 m p eptr (p + 1) mapped bytes (omega arith) (ground arith) in
        let e : x % 2 ^ 64 ≡ x = omega arith in
        rw (nocheck_int64_decoded host m eptr (p + 1) end x h (ground arith), e)
          (
            signed-IsLong x lt,
            (0xfc ∷ le_bytes 8 x, wide64 x lt refl, (at, h), omega arith),
            ground arith,
          )
    | inr short ↦
        rw (nocheck_int64_short host m eptr (p + 1) (omega arith) (ground arith))
          (inr (refl, omega arith, ground arith))
  ]

  pub nat0_16_result :
      m p ≡ some 0xfe
      → ReadResult NatForm (λ n. n < 2 ^ 62) m eptr p (safe_read_nat0_16 host m eptr (p + 1))
  nat0_16_result at = elim (Bool-cases (leb (p + 3) eptr)) [
    | inl fits ↦
        let (x, lt, h) =
          le_bytes_mapped 2 m p eptr (p + 1) mapped bytes (omega arith) (ground arith) in
        let e : x % 2 ^ 16 ≡ x = omega arith in
        rw (nat0_16_decoded host m eptr (p + 1) end x h (ground arith), e)
          (
            omega arith,
            (0xfe ∷ le_bytes 2 x, NatForm.wide16 x lt refl, (at, h), omega arith),
            ground arith,
          )
    | inr short ↦
        rw (nat0_16_short host m eptr (p + 1) (omega arith) (ground arith))
          (inr (refl, omega arith, ground arith))
  ]

  pub nat0_32_result :
      m p ≡ some 0xfd
      → ReadResult NatForm (λ n. n < 2 ^ 62) m eptr p (safe_read_nat0_32 host m eptr (p + 1))
  nat0_32_result at = elim (Bool-cases (leb (p + 5) eptr)) [
    | inl fits ↦
        let (x, lt, h) =
          le_bytes_mapped 4 m p eptr (p + 1) mapped bytes (omega arith) (ground arith) in
        let e : x % 2 ^ 32 ≡ x = omega arith in
        rw (nat0_32_decoded host m eptr (p + 1) end x h (ground arith), e)
          (
            omega arith,
            (0xfd ∷ le_bytes 4 x, NatForm.wide32 x lt refl, (at, h), omega arith),
            ground arith,
          )
    | inr short ↦
        rw (nat0_32_short host m eptr (p + 1) (omega arith) (ground arith))
          (inr (refl, omega arith, ground arith))
  ]

  pub nat0_64_result :
      m p ≡ some 0xfc
      → ReadResult NatForm (λ n. n < 2 ^ 62) m eptr p (safe_read_nat0_64 host m eptr (p + 1))
  nat0_64_result at = elim (Bool-cases (leb (p + 9) eptr)) [
    | inl fits ↦
        let (x, lt, h) =
          le_bytes_mapped 8 m p eptr (p + 1) mapped bytes (omega arith) (ground arith) in
        elim (Bool-cases (ltb x (2 ^ 62))) [
          | inl good ↦
              rw (nat0_64_decoded host m eptr (p + 1) end x (ground arith) h (ground arith)) (
                ground arith,
                (0xfc ∷ le_bytes 8 x, NatForm.wide64 x lt refl, (at, h), omega arith),
                ground arith,
              )
          | inr wide ↦
              rw
                (nat0_64_refused host m eptr (p + 1) end (omega arith) x lt (ground arith) h
                  (ground arith))
                (omega arith)
        ]
    | inr short ↦
        rw (nat0_64_short host m eptr (p + 1) (omega arith) (ground arith))
          (inr (refl, omega arith, ground arith))
  ]
