-- ===== src/Examples/Stubs.antt =====
-- The stubs of base/core/lib/unix_stubs.c around single calls.
use ocaml_core.Prelude.{
  ℕ, ◌+◌, ◌*◌, ◌≡◌, true, refl, pos, List, [], ◌∷◌, some, ◌==◌, arith, if◌then◌else◌,
}
use ocaml_core.Unix.{value, Called, gives, errs}
use ocaml_core.Unix.Files.{mknod_args}
use ocaml_core.Unix.Files.Kinds.{IsMade, mknod_args-IsMade}
use ocaml_core.Unix.Limits.{
  Limits, Rlimit, limit, infinity, rlim_t_val, unix_getrlimit, unix_setrlimit,
}
use ocaml_core.Unix.Limits.RoundTrip.{unix_getrlimit-unix_setrlimit}
use ocaml_core.Unix.Temporary.{jane_path_max, init_mktemp, IsTemplate, init_mktemp-IsTemplate}
use ocaml_core.Unix.Select.{FdSet, Sets, unix_pselect_stub}
use ocaml_core.Unix.Select.Ready.{IsOutcome, unix_pselect_stub-IsOutcome}

-- A block device with the permissions 0o644.
abbrev makedev : ℕ → ℕ → ℕ
makedev major minor = 256 * major + minor

mknod_args-IsMade_example : IsMade 3 420 (mknod_args makedev 3 420 8 1)
mknod_args-IsMade_example = mknod_args-IsMade makedev 3 420 8 1 (omega arith)

-- A system in which each limit can be set.
abbrev with_limit : ℕ → Rlimit → ℕ → Called Rlimit
with_limit resource rl n = if n == resource then gives rl else errs 22

abbrev setrlimit : ℕ → Rlimit → Called (ℕ → Called Rlimit)
setrlimit resource rl = gives (with_limit resource rl)

abbrev limits : Limits
limits = record { cur = limit (pos 1024); max = infinity }

stores :
    (resource : ℕ) (rl : Rlimit) (system : ℕ → Called Rlimit)
    → setrlimit resource rl ≡ gives system
    → system resource ≡ gives rl
stores resource rl system h =
    let same : system ≡ with_limit resource rl = cc in
    let here : (resource == resource) ≡ true = ground arith in rw (same, here) refl

abbrev new_system : ℕ → Called Rlimit
new_system = with_limit 7 (record { rlim_cur = 1024; rlim_max = rlim_t_val infinity })

unix_getrlimit-unix_setrlimit_example : unix_getrlimit new_system 4 ≡ value limits
unfolding unix_setrlimit
unix_getrlimit-unix_setrlimit_example =
    unix_getrlimit-unix_setrlimit setrlimit new_system 4 limits stores (omega arith) tt refl

init_mktemp-IsTemplate_example :
    IsTemplate
      (jane_path_max (some 4096))
      (47 ∷ 116 ∷ [])
      (init_mktemp (jane_path_max (some 4096)) (47 ∷ 116 ∷ []))
init_mktemp-IsTemplate_example =
    init_mktemp-IsTemplate (some 4096) (47 ∷ 116 ∷ []) (omega arith) (omega arith)

-- Everything that is asked about is ready.
abbrev pselect : ℕ → Sets FdSet → Called (Sets FdSet)
pselect nfds s = gives s

abbrev lists : Sets (List ℕ)
lists = record { rfds = 3 ∷ 5 ∷ []; wfds = 4 ∷ []; efds = [] }

unix_pselect_stub-IsOutcome_example : IsOutcome pselect lists (unix_pselect_stub pselect lists)
unix_pselect_stub-IsOutcome_example = unix_pselect_stub-IsOutcome pselect lists
