-- ===== src/Endian/Mapped.antt =====
-- Mapped bytes are the little-endian, and the big-endian, bytes of some number.
use ocaml_core.Prelude.{
  ℕ, zero, suc, ◌+◌, ◌*◌, ◌/◌, ◌%◌, ◌^◌, ◌≤◌, ◌<◌, ◌≡◌, some, arith, Option-cases, inl, inr,
}
use native.Mathlib.Nat.{pow-suc}
use ocaml_core.Memory.{Memory}
use ocaml_core.Memory.Store.{IsMapped}
use ocaml_core.Memory.Load.{Holds, IsByteMemory}
use ocaml_core.Endian.{le_bytes}

pub byte_mapped :
    (m : Memory) (lo hi p : ℕ)
    → IsMapped m lo hi
    → IsByteMemory m
    → lo ≤ p
    → p < hi
    → (b : ℕ) × (m p ≡ some b) × (b < 256)
byte_mapped m lo hi p mapped bytes le lt = elim (Option-cases (m p)) [
  | inl e ↦ absurd (mapped p le lt e)
  | inr (b, e) ↦ (b, e, bytes p b e)
]

pub le_bytes_mapped :
    (k : ℕ) (m : Memory) (lo hi p : ℕ)
    → IsMapped m lo hi
    → IsByteMemory m
    → lo ≤ p
    → p + k ≤ hi
    → (x : ℕ) × (x < 256 ^ k) × Holds m p (le_bytes k x)
le_bytes_mapped zero m lo hi p mapped bytes le fits = (0, omega arith, tt)
le_bytes_mapped (suc k) m lo hi p mapped bytes le fits =
    let (b, at, lt) = byte_mapped m lo hi p mapped bytes le (omega arith) in
    let (x, small, rest) =
      le_bytes_mapped k m lo hi (p + 1) mapped bytes (omega arith) (omega arith) in
    let low : (b + 256 * x) % 256 ≡ b = omega arith in
    let high : (b + 256 * x) / 256 ≡ x = omega arith in
    (b + 256 * x, omega (arith, pow-suc 256 k), (rw low at, rw high rest))
