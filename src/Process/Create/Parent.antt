-- ===== src/Process/Create/Parent.antt =====
-- ml_create_process of base/core/lib/unix_stubs.c, with close_on_exec: the parent's side, around the child.
pub mod Outcome
pub mod Steps
pub mod Forked
pub mod Clean
pub mod Runs
use ocaml_core.Prelude.{
  ℕ, ◌+◌, List, [], ◌∷◌, Option, none, some, Bool, true, false, bit_or, ◌==◌, if◌then◌else◌,
}
use ocaml_core.Process.{
  Answer, done, fails, Process, End, Tried, gave, erred, waits, unreal, call, fd_cloexec,
  PipeAnswer, piped, no_pipe,
}
use ocaml_core.Process.Spawn.{getfd, setfd}
use ocaml_core.Process.Create.{safe_close, Pipe, with_pipe, is_pipe}
use ocaml_core.Process.Create.Args.{Array, Filled, failure, outside, filled, create_args}
use ocaml_core.Process.Create.Child.{Request, Site, child_side}

-- The pid and the three descriptors, beside what the child came to; or the exception; `overrun` is a store outside of the array of
-- arguments, `waiting` a call that has no answer, and `impossible` an answer that the system cannot give.
pub data Created : Type 0 where
  created : ℕ → ℕ → ℕ → ℕ → End → Created
  raises : ℕ → Created
  close_on_exec_failed : ℕ → Created
  too_many_arguments overrun waiting impossible : Created

abbrev pub Result : Type 0
Result = Created × Process

abbrev pub Code : Type 0
Code = List Answer → Process → Result

-- A call of `safe_close` whose result is not looked at.
abbrev pub ignoring : Tried → Code → Result
ignoring (gave n ans p) next = next ans p
ignoring (erred e ans p) next = next ans p
ignoring (waits p) next = (waiting, p)
ignoring (unreal p) next = (impossible, p)

abbrev pub closes : ℕ → Code → Code
closes fd next ans p = ignoring (safe_close fd ans p) next

abbrev pub or_raise : Tried → (ℕ → Code) → Result
or_raise (gave n ans p) next = next n ans p
or_raise (erred e ans p) next = (close_on_exec_failed e, p)
or_raise (waits p) next = (waiting, p)
or_raise (unreal p) next = (impossible, p)

pub close_on_exec : ℕ → Code → Code
close_on_exec fd next ans p =
    or_raise (call (getfd fd) ans p) λ flags ans p.
      or_raise (call (setfd fd (bit_or flags fd_cloexec)) ans p) λ _ ans p. next ans p

abbrev pub fails_with : ℕ → Code
fails_with e ans p = (raises e, p)

-- After `fork`, in the parent.
abbrev pub on_fork : Pipe → Pipe → Pipe → Answer → End → Code
on_fork to_stdin from_stdout from_stderr (fails my_errno) child ans p =
    closes to_stdin.write_end
      (closes from_stdout.read_end (closes from_stderr.read_end (fails_with my_errno))) ans p
on_fork to_stdin from_stdout from_stderr (done child_pid) child ans p =
    (created child_pid to_stdin.write_end from_stdout.read_end from_stderr.read_end child, p)

abbrev pub parent_side : Pipe → Pipe → Pipe → Answer → End → Code
parent_side to_stdin from_stdout from_stderr fork child = closes to_stdin.read_end (
    closes from_stdout.write_end (
      closes from_stderr.write_end (
        close_on_exec to_stdin.write_end (
          close_on_exec from_stdout.read_end (
            close_on_exec from_stderr.read_end
              (on_fork to_stdin from_stdout from_stderr fork child))))))

-- `pipe`, with the code that cleans up where it fails.
abbrev pub on_pipe : PipeAnswer → (ℕ → Code) → (Pipe → Code) → Code
on_pipe (no_pipe e) cleanup next ans p = cleanup e ans p
on_pipe (piped rd wr in_file out_file) cleanup next ans p =
    let q : Pipe = record {
      read_end = rd;
      write_end = wr;
      in_file = in_file;
      out_file = out_file;
    } in
    if is_pipe q p.fds then next q ans (with_pipe q p) else (impossible, p)

-- The results of the three calls of `pipe` and of `fork`, and the answers to the child's calls.
pub record Calls : Type 0 where
  pub stdin_pipe : PipeAnswer
  pub stdout_pipe : PipeAnswer
  pub stderr_pipe : PipeAnswer
  pub fork : Answer
  pub child : List Answer

-- The child has the process at `fork`.
abbrev pub forks : (Site → List ℕ) → Calls → Request → Array → Pipe → Pipe → Pipe → Code
forks line c r args to_stdin from_stdout from_stderr ans p =
    parent_side to_stdin from_stdout from_stderr c.fork
      (child_side line to_stdin from_stdout from_stderr args r c.child p) ans p

abbrev pub make_pipes : Calls → (Pipe → Pipe → Pipe → Code) → Code
make_pipes c next = on_pipe c.stdin_pipe fails_with λ to_stdin.
    on_pipe c.stdout_pipe (λ e. closes to_stdin.read_end (closes to_stdin.write_end (fails_with e)))
      λ from_stdout.
        on_pipe c.stderr_pipe
          (λ e. closes to_stdin.read_end (
            closes to_stdin.write_end
              (closes from_stdout.read_end (closes from_stdout.write_end (fails_with e)))))
          λ from_stderr. next to_stdin from_stdout from_stderr

abbrev pub on_args : Filled → (Array → Code) → Code
on_args failure next ans p = (too_many_arguments, p)
on_args outside next ans p = (overrun, p)
on_args (filled args) next ans p = next args ans p

pub ml_create_process : (Site → List ℕ) → Calls → Request → Code
ml_create_process line c r =
    on_args (create_args r.prog r.args (λ i. none)) (λ args. make_pipes c (forks line c r args))
