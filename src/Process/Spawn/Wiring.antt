-- ===== src/Process/Spawn/Wiring.antt =====
-- The descriptor tables of the forked side of extended_ml_spawn in base/core/extended/lib/fork_exec.c.
use ocaml_core.Prelude.{ℕ, ◌≤◌, ◌≡◌, refl, Option, none, some, false, ◌==◌, if◌then◌else◌, arith}
use ocaml_core.Process.{Descriptor, Fds, set, copied, is_free, inherited}
use ocaml_core.Process.Spawn.{Request}

-- The three descriptors at work in the new program, and the others as they were.
abbrev pub wired : Request → Fds → Fds
wired r fds m =
    if m == 0
    then copied (fds r.stdin)
    else if m == 1
    then copied (fds r.stdout)
    else if m == 2
    then copied (fds r.stderr)
    else fds m

-- The table after each call, for the three copies `a`, `b` and `c`.
abbrev pub duped : Request → ℕ → ℕ → ℕ → Fds → Fds
duped r a b c fds =
    let fds1 = set a (copied (fds r.stdin)) fds in
    let fds2 = set b (copied (fds1 r.stdout)) fds1 in set c (copied (fds2 r.stderr)) fds2

abbrev pub moved : ℕ → ℕ → ℕ → Fds → Fds
moved a b c fds =
    let fds1 = set 0 (copied (fds a)) fds in
    let fds2 = set 1 (copied (fds1 b)) fds1 in set 2 (copied (fds2 c)) fds2

abbrev pub closed : ℕ → ℕ → ℕ → Fds → Fds
closed a b c fds = set c none (set b none (set a none fds))

pub record IsFresh (r : Request) (fds : Fds) (a b c : ℕ) : Type 0 where
  pub stdin_open : is_free (fds r.stdin) ≡ false
  pub stdout_open : is_free (fds r.stdout) ≡ false
  pub stderr_open : is_free (fds r.stderr) ≡ false
  pub low_a : 3 ≤ a
  pub low_b : 3 ≤ b
  pub low_c : 3 ≤ c
  pub free_a : fds a ≡ none
  pub free_b : fds b ≡ none
  pub free_c : fds c ≡ none
  pub differ_ab : (b == a) ≡ false
  pub differ_ac : (c == a) ≡ false
  pub differ_bc : (c == b) ≡ false

pub wired_lem :
    (r : Request) (fds : Fds) (a b c m : ℕ)
    → IsFresh r fds a b c
    → closed a b c (moved a b c (duped r a b c fds)) m ≡ wired r fds m
wired_lem r fds a b c m h = ground (arith, h)

pub open_lem :
    (o : Option Descriptor)
    → is_free o ≡ false
    → (file : ℕ) × (copied o ≡ some (record { file = file; flags = 0 }))
open_lem none h = cc
open_lem (some d) h = (d.file, refl)

-- A descriptor that is free beside a new copy is another one, and was free before.
pub free_after :
    (a b : ℕ) (o : Option Descriptor) (fds : Fds)
    → is_free o ≡ false
    → set a (copied o) fds b ≡ none
    → ((b == a) ≡ false) × (fds b ≡ none)
free_after a b none fds is_open free = cc
free_after a b (some d) fds is_open free = ground arith

pub differ :
    (fds : Fds) (n m : ℕ) (d : Descriptor) → fds n ≡ some d → fds m ≡ none → (n == m) ≡ false
differ fds n m d is_open free = ground arith

pub duped_a :
    (r : Request) (fds : Fds) (a b c : ℕ)
    → IsFresh r fds a b c
    → duped r a b c fds a ≡ copied (fds r.stdin)
duped_a r fds a b c h = ground (arith, h)

pub duped_b :
    (r : Request) (fds : Fds) (a b c : ℕ)
    → IsFresh r fds a b c
    → duped r a b c fds b ≡ copied (fds r.stdout)
duped_b r fds a b c h = ground (arith, h)

pub duped_c :
    (r : Request) (fds : Fds) (a b c : ℕ)
    → IsFresh r fds a b c
    → duped r a b c fds c ≡ copied (fds r.stderr)
duped_c r fds a b c h = ground (arith, h)

pub inherited-copied : (o : Option Descriptor) → inherited (copied o) ≡ copied o
inherited-copied none = refl
inherited-copied (some d) = refl

pub wired_high : (r : Request) (fds : Fds) (m : ℕ) → 3 ≤ m → wired r fds m ≡ fds m
wired_high r fds m high = ground arith
