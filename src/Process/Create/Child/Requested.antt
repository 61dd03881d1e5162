-- ===== src/Process/Create/Child/Requested.antt =====
-- The program that the child of ml_create_process in base/core/lib/unix_stubs.c executes.
use ocaml_core.Prelude.{ℕ, pos, cast, List, [], ◌∷◌, Option, some, ◌<◌, ◌^◌, ◌≡◌, refl, arith}
use ocaml_core.Process.{Image, Text}
use ocaml_core.Process.Environ.{found, wanted, found-putenv}
use ocaml_core.Process.Spawn.Outcome.{vector_of}
use ocaml_core.Process.Create.Child.{Request, put_all}

-- What is to be executed: the program with its name and its arguments, in an environment that says of each
-- name what the strings of the request say.
pub record IsRequested (r : Request) (image : Option Image) : Type 0 where
  pub environ : List Text
  pub image_is :
      image
      ≡ some (record {
        search = r.search_path;
        prog = r.prog;
        args = vector_of (r.prog ∷ r.args);
        env = some (vector_of environ);
      })
  pub environ_says : (name : Text) → found name environ ≡ wanted name r.env

pub put_all-wanted :
    (name : Text) (strings : List Text) → found name (put_all strings) ≡ wanted name strings
put_all-wanted name [] = refl
put_all-wanted name (s ∷ strings) =
    found-putenv name s strings (put_all strings) (put_all-wanted name strings)

pub n_env_lem : (n : ℕ) → n < 2 ^ 31 → cast 32 (pos n) ≡ pos n
n_env_lem n low = ground arith
