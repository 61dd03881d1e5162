-- ===== src/Write/Integers/Forms.antt =====
-- The integer forms of the protocol as a relation, without the writers' choice between them.
use ocaml_core.Prelude.{
  ℕ, ◌-◌, ◌^◌, ◌≤◌, ◌<◌, ◌≡◌, ℤ, pos, negsuc, signed, ltb, arith, List, [], ◌∷◌, length, Bool-cases,
  inl, inr,
}
use ocaml_core.Endian.{le_bytes}
use ocaml_core.Write.Integers.Encoding.{int_bytes, nat0_bytes, IsLong}

-- The bytes stand for the integer, in one of the forms.
pub data IntForm (n : ℤ) : List ℕ → Type 0 where
  small : (b : ℕ) → b < 128 → n ≡ pos b → IntForm n (b ∷ [])
  neg8 : (k : ℕ) → k < 128 → n ≡ negsuc k → IntForm n (0xff ∷ (255 - k) ∷ [])
  wide16 : (x : ℕ) → x < 2 ^ 16 → n ≡ signed 16 x → IntForm n (0xfe ∷ le_bytes 2 x)
  wide32 : (x : ℕ) → x < 2 ^ 32 → n ≡ signed 32 x → IntForm n (0xfd ∷ le_bytes 4 x)
  wide64 : (x : ℕ) → x < 2 ^ 64 → n ≡ signed 64 x → IntForm n (0xfc ∷ le_bytes 8 x)

pub data NatForm (n : ℕ) : List ℕ → Type 0 where
  small : (b : ℕ) → b < 128 → n ≡ b → NatForm n (b ∷ [])
  wide16 : (x : ℕ) → x < 2 ^ 16 → n ≡ x → NatForm n (0xfe ∷ le_bytes 2 x)
  wide32 : (x : ℕ) → x < 2 ^ 32 → n ≡ x → NatForm n (0xfd ∷ le_bytes 4 x)
  wide64 : (x : ℕ) → x < 2 ^ 64 → n ≡ x → NatForm n (0xfc ∷ le_bytes 8 x)

pub int_bytes-IntForm : (n : ℤ) → IsLong n → IntForm n (int_bytes n)
int_bytes-IntForm (pos n) long = elim (Bool-cases (ltb n 0x80)) [
  | inl c1 ↦ rw c1 (IntForm.small n (ground arith) (ground arith))
  | inr d1 ↦ elim (Bool-cases (ltb n 0x8000)) [
    | inl c2 ↦ rw (d1, c2) (wide16 n (ground arith) (ground arith))
    | inr d2 ↦ elim (Bool-cases (ltb n 0x8000_0000)) [
      | inl c3 ↦ rw (d1, d2, c3) (wide32 n (ground arith) (ground arith))
      | inr d3 ↦ rw (d1, d2, d3) (wide64 n (ground arith) (ground arith))
    ]
  ]
]
int_bytes-IntForm (negsuc n) long = elim (Bool-cases (ltb n 0x80)) [
  | inl c1 ↦ rw c1 (neg8 n (ground arith) (ground arith))
  | inr d1 ↦ elim (Bool-cases (ltb n 0x8000)) [
    | inl c2 ↦ rw (d1, c2) (wide16 (2 ^ 16 - 1 - n) (ground arith) (ground arith))
    | inr d2 ↦ elim (Bool-cases (ltb n 0x8000_0000)) [
      | inl c3 ↦ rw (d1, d2, c3) (wide32 (2 ^ 32 - 1 - n) (ground arith) (ground arith))
      | inr d3 ↦ rw (d1, d2, d3) (wide64 (2 ^ 64 - 1 - n) (ground arith) (ground arith))
    ]
  ]
]

pub nat0_bytes-NatForm : (n : ℕ) → n < 2 ^ 64 → NatForm n (nat0_bytes n)
nat0_bytes-NatForm n long = elim (Bool-cases (ltb n 0x80)) [
  | inl c1 ↦ rw c1 (NatForm.small n (ground arith) (ground arith))
  | inr d1 ↦ elim (Bool-cases (ltb n 0x1_0000)) [
    | inl c2 ↦ rw (d1, c2) (NatForm.wide16 n (ground arith) (ground arith))
    | inr d2 ↦ elim (Bool-cases (ltb n 0x1_0000_0000)) [
      | inl c3 ↦ rw (d1, d2, c3) (NatForm.wide32 n (ground arith) (ground arith))
      | inr d3 ↦ rw (d1, d2, d3) (NatForm.wide64 n (ground arith) (ground arith))
    ]
  ]
]

-- The length of the writers' form, which is the least.
pub length-int_bytes-le : (n : ℤ) {bs : List ℕ} → IntForm n bs → length (int_bytes n) ≤ length bs
length-int_bytes-le (pos n) (small b h e) = ground arith
length-int_bytes-le (pos n) (neg8 b h e) = ground arith
length-int_bytes-le (pos n) (wide16 b h e) = ground arith
length-int_bytes-le (pos n) (wide32 b h e) = ground arith
length-int_bytes-le (pos n) (wide64 b h e) = ground arith
length-int_bytes-le (negsuc n) (small b h e) = ground arith
length-int_bytes-le (negsuc n) (neg8 b h e) = ground arith
length-int_bytes-le (negsuc n) (wide16 b h e) = ground arith
length-int_bytes-le (negsuc n) (wide32 b h e) = ground arith
length-int_bytes-le (negsuc n) (wide64 b h e) = ground arith
