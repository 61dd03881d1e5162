-- ===== src/Process/Create/Child.antt =====
-- The child of ml_create_process in base/core/lib/unix_stubs.c.
pub mod Calls
pub mod Requested
pub mod Connected
pub mod Runs
use ocaml_core.Prelude.{
  ℕ, ℤ, pos, negsuc, cast, take, length, ◌+◌, List, [], ◌∷◌, ◌++◌, Option, none, some, Bool, true,
  false, ◌==◌, if◌then◌else◌,
}
use ocaml_core.Process.{
  Answer, Process, Image, Text, Tried, gave, erred, waits, unreal, End, executed, exited, blocked,
  impossible, call, dup2, write, exec,
}
use ocaml_core.Process.Create.{dup, safe_close, safe_close_idem, Pipe}
use ocaml_core.Process.Spawn.{Code, chdir}
use ocaml_core.Process.Spawn.Outcome.{vector_of}
use ocaml_core.Process.Environ.{putenv}
use ocaml_core.Process.Create.Args.{Array, read_args, ml_arg_max}

-- The arguments of `ml_create_process`.
pub record Request : Type 0 where
  pub working_dir : Option Text
  pub prog : Text
  pub args : List Text
  pub env : List Text
  pub search_path : Bool

-- The places of `report_error`.
pub data Site : Type 0 where
  could_not_dup could_not_close could_not_dup2 chdir_failed exec_failed : Site

-- What follows a call: the code with its result, -1 being `none`.
abbrev pub on_result : Tried → (Option ℕ → Code) → End
on_result (gave n ans p) next = next (some n) ans p
on_result (erred e ans p) next = next none ans p
on_result (waits p) next = (blocked, p)
on_result (unreal p) next = (impossible, p)

-- `if (... == -1) { report_error(fd, ...); exit(254); }`.
abbrev pub or_exit : (Process → Process) → Tried → Code → End
or_exit report (gave n ans p) next = next ans p
or_exit report (erred e ans p) next = (exited 254, report p)
or_exit report (waits p) next = (blocked, p)
or_exit report (unreal p) next = (impossible, p)

abbrev pub closes : ℕ → Code → Code
closes fd next ans p = on_result (safe_close fd ans p) (λ ret. next)

-- `putenv` on each of the first `n_env` strings, from the last to the first.
abbrev pub put_all : List Text → List Text
put_all [] = []
put_all (s ∷ v_env) = putenv s (put_all v_env)

-- `int n_env = Wosize_val(v_env)`; a loop that starts below 0 reads outside of the block.
abbrev pub put_count : List Text → ℤ → (List Text → Code) → Code
put_count v_env (pos n_env) next ans p = next (put_all (take n_env v_env)) ans p
put_count v_env (negsuc n_env) next ans p = (impossible, p)

abbrev pub put_env : List Text → (List Text → Code) → Code
put_env v_env = put_count v_env (cast 32 (pos (length v_env)))

-- `exec` gets the array and, by `environ`, the strings.
abbrev pub image_of : Array → List Text → Request → Image
image_of args environ r = record {
  search = r.search_path;
  prog = r.prog;
  args = read_args ml_arg_max args 0;
  env = some (vector_of environ);
}

abbrev pub after_exec : Code
after_exec ans p = (executed, p)

-- `line` is what `report_error` writes at each place; the write is taken to be whole.
module _ (line : Site → List ℕ) where
  abbrev pub report_error : ℕ → Site → Process → Process
  report_error fd site p = write fd (line site) p

  abbrev pub run_program : Array → List Text → Request → Code
  run_program args environ r ans p =
      or_exit (report_error 2 exec_failed) (call (exec (image_of args environ r)) ans p) after_exec

  abbrev pub change_dir : Option Text → Code → Code
  change_dir none next ans p = next ans p
  change_dir (some dir) next ans p =
      or_exit (report_error 2 chdir_failed) (call (chdir dir) ans p) next

  -- From the first `safe_close_idem` on.
  abbrev pub connect : Pipe → Pipe → Pipe → ℕ → ℕ → ℕ → Code → Code
  connect to_stdin from_stdout from_stderr temp_stdin temp_stdout temp_stderr next ans p =
      or_exit (report_error temp_stderr could_not_close) (safe_close_idem 0 ans p) λ ans p.
        or_exit (report_error temp_stderr could_not_close) (safe_close_idem 1 ans p) λ ans p.
          or_exit (report_error temp_stderr could_not_close) (safe_close_idem 2 ans p) (
            closes to_stdin.read_end (
              closes to_stdin.write_end (
                closes from_stdout.read_end (
                  closes from_stdout.write_end (
                    closes from_stderr.read_end (
                      closes from_stderr.write_end (λ ans p.
                        or_exit (report_error temp_stderr could_not_dup2)
                          (call (dup2 temp_stdin 0) ans p)
                          λ ans p.
                            or_exit (report_error temp_stderr could_not_dup2)
                              (call (dup2 temp_stdout 1) ans p)
                              λ ans p.
                                or_exit (report_error temp_stderr could_not_dup2)
                                  (call (dup2 temp_stderr 2) ans p)
                                  (closes temp_stdin
                                    (closes temp_stdout (closes temp_stderr next))))))))))

  -- The three descriptors of `dup`, one of which may be -1.
  abbrev pub on_temps : ℕ → Option ℕ → Option ℕ → Option ℕ → (ℕ → ℕ → ℕ → Code) → Code
  on_temps fd (some a) (some b) (some c) next ans p = next a b c ans p
  on_temps fd (some a) (some b) none next ans p = (exited 254, report_error fd could_not_dup p)
  on_temps fd (some a) none c next ans p = (exited 254, report_error fd could_not_dup p)
  on_temps fd none b c next ans p = (exited 254, report_error fd could_not_dup p)

  -- From `environ = NULL` on.
  abbrev pub start_program : Array → Request → Code
  start_program args r =
      put_env r.env (λ environ. change_dir r.working_dir (run_program args environ r))

  pub child_side : Pipe → Pipe → Pipe → Array → Request → Code
  child_side to_stdin from_stdout from_stderr args r ans p =
      on_result (call (dup to_stdin.read_end) ans p) λ temp_stdin ans p.
        on_result (call (dup from_stdout.write_end) ans p) λ temp_stdout ans p.
          on_result (call (dup from_stderr.write_end) ans p) λ temp_stderr ans p.
            on_temps from_stderr.write_end temp_stdin temp_stdout temp_stderr
              (λ a b c. connect to_stdin from_stdout from_stderr a b c (start_program args r)) ans p
