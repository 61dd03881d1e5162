-- ===== src/Unix.antt =====
-- base/core/lib/unix_stubs.c apart from ml_create_process: stubs around single calls of the system, whose
-- results are arguments.
pub mod Files
pub mod Limits
pub mod Temporary
pub mod Select
use ocaml_core.Prelude.{ℕ}

-- The value of a stub, or its exception: a Unix error, `Invalid_argument` or `Failure`.
pub data Reply {ℓ} (A : Type ℓ) : Type ℓ where
  value : A → Reply A
  uerror : ℕ → Reply A
  invalid_argument failed : Reply A

-- The result of a call, or `errno`.
pub data Called {ℓ} (A : Type ℓ) : Type ℓ where
  gives : A → Called A
  errs : ℕ → Called A
