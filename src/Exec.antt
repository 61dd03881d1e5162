-- ===== src/Exec.antt =====
-- Stubs that change a state and may raise an OCaml exception. What was written before a raise stays
-- written, so that the state comes back beside the exception too.
use ocaml_core.Prelude.{ℕ, Option, none, some}

-- The codes of `Unsafe_read_c.Error` and `Read_error`, in the order of the READ_ERROR macros.
pub data ReadError : Type 0 where
  neg_int8 int_code int_overflow nat0_code nat0_overflow int32_code int64_code : ReadError
  nativeint_code unit_code bool_code option_code string_too_long variant_tag : ReadError
  array_too_long : ReadError

pub data Exn : Type 0 where
  buffer_short : Exn
  error : ReadError → Exn
  read_error : ReadError → ℕ → Exn
  array_bound : Exn
  out_of_memory : Exn

-- `fault` is an access outside the mapped memory, which C leaves undefined.
pub data Outcome {ℓ} (A : Type ℓ) : Type ℓ where
  ok : A → Outcome A
  raised : Exn → Outcome A
  fault : Outcome A

abbrev pub Exec {ℓ} : Type ℓ → Type ℓ → Type ℓ
Exec S A = S → Outcome A × S

module _ {ℓ} {S A : Type ℓ} where
  abbrev pub pure : A → Exec S A
  pure a s = (ok a, s)

  abbrev pub raise : Exn → Exec S A
  raise e s = (raised e, s)

  -- A computation that touches no state; `none` is a fault.
  abbrev pub access : Option A → Exec S A
  access none s = (fault, s)
  access (some a) s = (ok a, s)

module _ {ℓ} {S A B : Type ℓ} where
  abbrev pub continue : Outcome A → (A → Exec S B) → Exec S B
  continue (ok a) f s = f a s
  continue (raised e) f s = (raised e, s)
  continue fault f s = (fault, s)

  infixl 5 ◌>>=◌ ◌>>◌
  abbrev pub ◌>>=◌ : Exec S A → (A → Exec S B) → Exec S B
  ◌>>=◌ m f s = let (r, s') = m s in continue r f s'

  abbrev pub ◌>>◌ : Exec S A → Exec S B → Exec S B
  m >> n = m >>= λ _. n
