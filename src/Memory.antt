-- ===== src/Memory.antt =====
-- The memory that the stubs read and write: bytes at 64-bit addresses, and C's `memcpy` from and to
-- it. Pointers are addresses; pointer arithmetic wraps as the machine's does.
pub mod Store
pub mod Load
use ocaml_core.Prelude.{
  ℕ, zero, suc, ◌+◌, ◌%◌, ◌^◌, Option, none, some, List, [], ◌∷◌, ◌==◌, if◌then◌else◌, ltb, length,
  take,
}
use ocaml_core.Exec.{Exec, Outcome, ok, fault, access, ◌>>=◌}

-- The byte at an address, `none` where nothing is mapped.
abbrev pub Memory : Type 0
Memory = ℕ → Option ℕ

abbrev pub ptr_add : ℕ → ℕ → ℕ
ptr_add p n = (p + n) % 2 ^ 64

abbrev pub update : Memory → ℕ → ℕ → Memory
update m p b a = if a == p then some b else m a

-- The `n` bytes from address `p` on.
pub load : Memory → ℕ → ℕ → Option (List ℕ)
load m p zero = some []
load m p (suc n) = elim (m p) [
  | none ↦ none
  | some b ↦ elim (load m (p + 1) n) [ none ↦ none | some bs ↦ some (b ∷ bs) ]
]

-- Writes the bytes from address `p` on.
pub store : ℕ → List ℕ → Exec Memory (Unit {0})
store p [] m = (ok tt, m)
store p (b ∷ bs) m = elim (m p) [ none ↦ (fault, m) | some _ ↦ store (p + 1) bs (update m p b) ]

-- `memcpy` of the first `n` bytes of an object outside the memory, such as an OCaml string; reading
-- past its end is a fault.
pub memcpy : ℕ → List ℕ → ℕ → Exec Memory (Unit {0})
memcpy dst src n m = if ltb (length src) n then (fault, m) else store dst (take n src) m

-- `memmove`: the bytes are all read before one is written.
abbrev pub memmove : ℕ → ℕ → ℕ → Exec Memory (Unit {0})
memmove dst src n m = (access (load m src n) >>= λ bs. store dst bs) m
