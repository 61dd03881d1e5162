-- ===== src/Process/Spawn.antt =====
-- extended_ml_spawn of base/core/extended/lib/fork_exec.c: the forked side here, the parent's side in
-- Parent.
pub mod Stages
pub mod Wiring
pub mod Outcome
pub mod Enter
pub mod Forked
pub mod Ids
pub mod Runs
pub mod Parent
use ocaml_core.Prelude.{
  ℕ, ◌-◌, ◌^◌, ℤ, wrap, List, [], ◌∷◌, Option, none, some, Bool, true, false, bit_and, bit_or, ◌==◌,
  if◌then◌else◌,
}
use ocaml_core.Endian.{ByteOrder}
use ocaml_core.Process.{
  Answer, Descriptor, Process, Image, Text, Tried, gave, erred, waits, unreal, End, executed,
  impossible, fd_cloexec, eperm, call, set, dupfd, dup2, close, exec,
}
use ocaml_core.Process.Pipe.{report_errno_on_pipe}
use ocaml_core.Process.Retry.{syscall, on_tried}

-- The arguments of `extended_ml_spawn`; a descriptor is not negative.
pub record Request : Type 0 where
  pub stdin : ℕ
  pub stdout : ℕ
  pub stderr : ℕ
  pub working_dir : Option Text
  pub setuid : Option ℤ
  pub setgid : Option ℤ
  pub env : Option (List Text)
  pub prog : Text
  pub args : List Text

-- The strings, and a null pointer behind them.
abbrev pub copy_stringvect : List Text → List (Option Text)
copy_stringvect [] = none ∷ []
copy_stringvect (s ∷ arg) = some s ∷ copy_stringvect arg

abbrev pub envp : Option (List Text) → Option (List (Option Text))
envp none = none
envp (some env) = some (copy_stringvect env)

-- `fcntl(fd, F_GETFD)` gives the flags of the descriptor, and `fcntl(fd, F_SETFD, flags)` sets them.
abbrev pub same_flags : Option Descriptor → ℕ → Bool
same_flags none n = false
same_flags (some d) n = d.flags == n

abbrev pub getfd : ℕ → ℕ → Process → Option Process
getfd fd n p = if same_flags (p.fds fd) n then some p else none

abbrev pub flagged : ℕ → Option Descriptor → Option Descriptor
flagged flags none = none
flagged flags (some d) = some (record { file = d.file; flags = flags })

abbrev pub setfd : ℕ → ℕ → ℕ → Process → Option Process
setfd fd flags n p = some (record p { fds = set fd (flagged flags (p.fds fd)) p.fds })

abbrev pub new_flags : Bool → ℕ → ℕ
new_flags true flags = bit_or flags fd_cloexec
new_flags false flags = bit_and flags (2 ^ 32 - 1 - fd_cloexec)

abbrev pub on_flags : ℕ → Bool → Tried → Tried
on_flags fd v (gave flags ans p) =
    if new_flags v flags == flags then gave 0 ans p else call (setfd fd (new_flags v flags)) ans p
on_flags fd v (erred e ans p) = erred e ans p
on_flags fd v (waits p) = waits p
on_flags fd v (unreal p) = unreal p

abbrev pub set_cloexec : ℕ → Bool → List Answer → Process → Tried
set_cloexec fd v ans p = on_flags fd v (call (getfd fd) ans p)

abbrev pub chdir : Text → ℕ → Process → Option Process
chdir dir n p = some (record p { cwd = dir })

abbrev pub setuid_to : ℕ → ℕ → Process → Option Process
setuid_to uid n p = some (record p { uid = uid })

abbrev pub setgid_to : ℕ → ℕ → Process → Option Process
setgid_to gid n p = some (record p { gid = gid })

-- A program that is executed does not come back to this code.
abbrev pub after_exec : ℕ → List Answer → Process → End
after_exec n ans p = (executed, p)

abbrev pub Code : Type 0
Code = List Answer → Process → End

-- `fcntl(-1, F_DUPFD, 3)` can only fail.
abbrev pub no_descriptor : ℕ → Process → Option Process
no_descriptor n p = none

module _ (host : ByteOrder) (pipe_write : ℕ) where
  abbrev pub run_program : Request → Code
  run_program r ans p =
      syscall host pipe_write
        (call (
          exec (record {
            search = false;
            prog = r.prog;
            args = copy_stringvect r.args;
            env = envp r.env;
          })))
        ans p after_exec

  -- `SYSCALL(fd = fcntl(fd, F_DUPFD, 3))`: a call that is interrupted leaves -1 in `fd`.
  abbrev pub syscall_dupfd : ℕ → List Answer → Process → (ℕ → List Answer → Process → End) → End
  syscall_dupfd fd ans p next =
      on_tried (λ ans' p'. syscall host pipe_write (call no_descriptor) ans' p' next)
        (report_errno_on_pipe host pipe_write) next (call (dupfd fd 3) ans p)

  -- `getuid()` gives the real user of the process.
  abbrev pub change_group : Option ℤ → Code → Code
  change_group none next ans p = next ans p
  change_group (some v_gid) next ans p =
      if p.uid == 0
      then syscall host pipe_write (call (setgid_to (wrap 32 v_gid))) ans p
          (λ n ans' p'. next ans' p')
      else report_errno_on_pipe host pipe_write eperm ans p

  abbrev pub change_user : Option ℤ → Code → Code
  change_user none next ans p = next ans p
  change_user (some v_uid) next ans p =
      if p.uid == 0
      then syscall host pipe_write (call (setuid_to (wrap 32 v_uid))) ans p
          (λ n ans' p'. next ans' p')
      else report_errno_on_pipe host pipe_write eperm ans p

  abbrev pub change_dir : Option Text → Code → Code
  change_dir none next ans p = next ans p
  change_dir (some dir) next ans p =
      syscall host pipe_write (call (chdir dir)) ans p (λ n ans' p'. next ans' p')

  -- The copies go to the places of the standard descriptors.
  abbrev pub connect : ℕ → ℕ → ℕ → Code → Code
  connect stdin_fd stdout_fd stderr_fd next ans p =
      syscall host pipe_write (set_cloexec stdin_fd false) ans p λ _ ans p.
        syscall host pipe_write (set_cloexec stdout_fd false) ans p λ _ ans p.
          syscall host pipe_write (set_cloexec stderr_fd false) ans p λ _ ans p.
            syscall host pipe_write (call (dup2 stdin_fd 0)) ans p λ _ ans p.
              syscall host pipe_write (call (dup2 stdout_fd 1)) ans p λ _ ans p.
                syscall host pipe_write (call (dup2 stderr_fd 2)) ans p λ _ ans p.
                  syscall host pipe_write (close stdin_fd) ans p λ _ ans p.
                    syscall host pipe_write (close stdout_fd) ans p λ _ ans p.
                      syscall host pipe_write (close stderr_fd) ans p λ _ ans p. next ans p

  abbrev pub enter : Request → Code
  enter r = change_dir r.working_dir (change_user r.setuid (change_group r.setgid (run_program r)))

  -- From `clear_sigprocmask` on, which touches nothing that is modelled.
  pub forked_side : Request → Code
  forked_side r ans p = syscall_dupfd r.stdin ans p λ stdin_fd ans p.
      syscall_dupfd r.stdout ans p λ stdout_fd ans p.
        syscall_dupfd r.stderr ans p
          λ stderr_fd ans p. connect stdin_fd stdout_fd stderr_fd (enter r) ans p
