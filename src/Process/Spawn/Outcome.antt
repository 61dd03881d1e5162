-- ===== src/Process/Spawn/Outcome.antt =====
-- How the forked side of extended_ml_spawn in base/core/extended/lib/fork_exec.c may end.
use ocaml_core.Prelude.{
  ℕ, refl, ap, [], ◌∷◌, ◌++◌, ◌≤◌, ◌≡◌, ◌⊎◌, ℤ, wrap, List, Option, none, some, Bool, true, false,
  ◌&&◌, ◌==◌,
}
use mathlib.Core.List.{map}
use ocaml_core.Endian.{ByteOrder, native_bytes}
use ocaml_core.Process.{Answer, Process, Image, Text, copied, eperm, inherited}
use ocaml_core.Process.Spawn.{Request, copy_stringvect, envp}
use ocaml_core.Process.Spawn.Stages.{first_error}

-- Which ids the process may set: only the superuser's process sets one, also after it has set another.
abbrev pub id_of : Option ℤ → ℕ → ℕ
id_of none id = id
id_of (some v) id = wrap 32 v

abbrev pub may_set : Option ℤ → ℕ → Bool
may_set none uid = true
may_set (some v) uid = uid == 0

abbrev pub allowed : Request → ℕ → Bool
allowed r uid = may_set r.setuid uid && may_set r.setgid (id_of r.setuid uid)

abbrev pub dir_of : Option Text → Text → Text
dir_of none cwd = cwd
dir_of (some dir) cwd = dir

-- What the code executes.
abbrev pub image_of : Request → Image
image_of r = record {
  search = false;
  prog = r.prog;
  args = copy_stringvect r.args;
  env = envp r.env;
}

-- A vector of strings, as `exec` takes it: the strings in their order, and a null pointer.
abbrev pub vector_of : List Text → List (Option Text)
vector_of strings = map some strings ++ none ∷ []

-- What is to be executed: just the program of the request, without a search, with its arguments, and in
-- its environment or, where it has none, in that of the parent.
abbrev pub environment_of : Option (List Text) → Option (List (Option Text))
environment_of none = none
environment_of (some strings) = some (vector_of strings)

abbrev pub requested : Request → Image
requested r = record {
  search = false;
  prog = r.prog;
  args = vector_of r.args;
  env = environment_of r.env;
}

pub copy_stringvect-vector_of : (strings : List Text) → copy_stringvect strings ≡ vector_of strings
copy_stringvect-vector_of [] = refl
copy_stringvect-vector_of (s ∷ strings) = ap (◌∷◌ (some s)) (copy_stringvect-vector_of strings)

envp-environment_of : (env : Option (List Text)) → envp env ≡ environment_of env
envp-environment_of none = refl
envp-environment_of (some strings) = ap some (copy_stringvect-vector_of strings)

pub image_of-requested : (r : Request) → image_of r ≡ requested r
image_of-requested r = rw (copy_stringvect-vector_of r.args, envp-environment_of r.env) refl

-- The process `p` that executes the program of `r`, forked from `start`.
pub record IsSpawned (r : Request) (start p : Process) : Type 0 where
  pub stdin_is : p.fds 0 ≡ copied (start.fds r.stdin)
  pub stdout_is : p.fds 1 ≡ copied (start.fds r.stdout)
  pub stderr_is : p.fds 2 ≡ copied (start.fds r.stderr)
  pub others_are : (m : ℕ) → 3 ≤ m → p.fds m ≡ inherited (start.fds m)
  pub cwd_is : p.cwd ≡ dir_of r.working_dir start.cwd
  pub uid_is : p.uid ≡ id_of r.setuid start.uid
  pub gid_is : p.gid ≡ id_of r.setgid start.gid
  pub files_are : p.files ≡ start.files
  pub image_is : p.image ≡ some (requested r)
  pub is_allowed : allowed r start.uid ≡ true

-- `p` has reported the first errno that a call left, or EPERM for an id that it may not set.
abbrev pub IsFailed : ByteOrder → ℕ → Request → List Answer → Process → Process → Type 0
IsFailed host file r ans start p =
    (e : ℕ) × (p.files file ≡ native_bytes host 4 e)
    × ((some e ≡ first_error ans) ⊎ ((e ≡ eperm) × (allowed r start.uid ≡ false)))
