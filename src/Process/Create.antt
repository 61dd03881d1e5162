-- ===== src/Process/Create.antt =====
-- ml_create_process of base/core/lib/unix_stubs.c: its array of arguments (Args), its child (Child) and
-- its parent (Parent), with the functions that they share.
pub mod Args
pub mod Tables
pub mod Wiring
pub mod Child
pub mod Parent
use ocaml_core.Prelude.{
  ℕ, zero, suc, ◌+◌, List, [], ◌∷◌, Option, none, some, Bool, true, false, ◌&&◌, ◌==◌,
  if◌then◌else◌,
}
use ocaml_core.Process.{
  Answer, done, fails, Descriptor, Fds, Process, End, blocked, impossible, Tried, gave, erred,
  waits, unreal, eintr, ebadf, copy_to, is_free, release, piped, no_pipe, open_pipe, set,
}

-- The system allocates the lowest descriptor that is not in use.
abbrev pub all_open : ℕ → Fds → Bool
all_open zero fds = true
all_open (suc n) fds = if is_free (fds n) then false else all_open n fds

abbrev pub is_lowest : ℕ → Fds → Bool
is_lowest n fds = is_free (fds n) && all_open n fds

abbrev pub dup : ℕ → ℕ → Process → Option Process
dup fd n p = if is_lowest n p.fds then copy_to n (p.fds fd) p else none

-- `safe_close`: closes again where a signal arrives.
pub safe_close : ℕ → List Answer → Process → Tried
safe_close fd [] p = waits p
safe_close fd (done n ∷ ans) p = gave n ans (release fd p)
safe_close fd (fails e ∷ ans) p =
    let rest = safe_close fd ans (release fd p) in
    if e == eintr then rest else erred e ans (release fd p)

-- `safe_close_idem`: a descriptor that is closed already is no error.
abbrev pub ignoring_ebadf : Tried → Tried
ignoring_ebadf (gave n ans p) = gave n ans p
ignoring_ebadf (erred e ans p) = if e == ebadf then gave 0 ans p else erred e ans p
ignoring_ebadf (waits p) = waits p
ignoring_ebadf (unreal p) = unreal p

abbrev pub safe_close_idem : ℕ → List Answer → Process → Tried
safe_close_idem fd ans p = ignoring_ebadf (safe_close fd ans p)

-- The ends of a pipe.
pub record Pipe : Type 0 where
  pub read_end : ℕ
  pub write_end : ℕ
  pub in_file : ℕ
  pub out_file : ℕ

-- `pipe` allocates two descriptors, one after the other.
abbrev pub with_pipe : Pipe → Process → Process
with_pipe q p = open_pipe q.read_end q.write_end q.in_file q.out_file p

abbrev pub is_pipe : Pipe → Fds → Bool
is_pipe q fds =
    is_lowest q.read_end fds
    && is_lowest q.write_end (set q.read_end (some (record { file = q.in_file; flags = 0 })) fds)
