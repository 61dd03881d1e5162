-- ===== src/Process/Create/Parent/Outcome.antt =====
-- What ml_create_process of base/core/lib/unix_stubs.c leaves in the parent.
use ocaml_core.Prelude.{ℕ, ◌≤◌, ◌≡◌, length, Option, some, ◌==◌, if◌then◌else◌}
use ocaml_core.Process.{done, Descriptor, Process, End, Ends, PipeAnswer, piped}
use ocaml_core.Process.Create.{Pipe}
use ocaml_core.Process.Create.Child.{Request}
use ocaml_core.Process.Create.Child.Connected.{IsConnected}
use ocaml_core.Process.Create.Parent.{
  created, raises, close_on_exec_failed, too_many_arguments, overrun, waiting, impossible, Result,
  Calls,
}

-- A descriptor marked close-on-exec.
abbrev pub marked : ℕ → Option Descriptor
marked file = some (record { file = file; flags = 1 })

-- What `pipe` answers with the pipe `q`.
abbrev pub piped_as : Pipe → PipeAnswer
piped_as q = piped q.read_end q.write_end q.in_file q.out_file

-- The three pipes that the system gave: the parent has, beside what it had, the ends that it returns,
-- which are not passed on to other programs; the program of the child runs with the other ends.
pub record IsCreated (c : Calls) (r : Request) (p0 : Process) (a b c' : ℕ) (child : End)
    (p : Process) : Type 0 where
  pub q1 : Pipe
  pub q2 : Pipe
  pub q3 : Pipe
  pub stdin_given : c.stdin_pipe ≡ piped_as q1
  pub stdout_given : c.stdout_pipe ≡ piped_as q2
  pub stderr_given : c.stderr_pipe ≡ piped_as q3
  pub stdin_returned : a ≡ q1.write_end
  pub stdout_returned : b ≡ q2.read_end
  pub stderr_returned : c' ≡ q3.read_end
  pub fds_are :
      (m : ℕ)
      → p.fds m ≡ (
          if m == a
          then marked q1.out_file
          else if m == b
          then marked q2.in_file
          else if m == c'
          then marked q3.in_file
          else p0.fds m)
  pub child_ends : Ends (IsConnected p0.fds q1 q2 q3 r p0.cwd) (λ q. Unit {0}) child

-- After a failure the descriptors are as before.
abbrev pub IsClean : Calls → Request → Process → Result → Type 0
IsClean c r p0 (created pid a b c' child, p) = (c.fork ≡ done pid) × IsCreated c r p0 a b c' child p
IsClean c r p0 (raises e, p) = (m : ℕ) → p.fds m ≡ p0.fds m
IsClean c r p0 (too_many_arguments, p) = (4096 ≤ length r.args) × (p ≡ p0)
IsClean c r p0 (overrun, p) = ⊥
IsClean c r p0 (close_on_exec_failed e, p) = Unit {0}
IsClean c r p0 (waiting, p) = Unit {0}
IsClean c r p0 (impossible, p) = Unit {0}
