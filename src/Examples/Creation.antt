-- ===== src/Examples/Creation.antt =====
-- ml_create_process: the standard descriptors are open, and the six ends of the pipes are 3 to 8.
use ocaml_core.Prelude.{◌≡◌, refl, ℕ, zero, suc, true, List, [], ◌∷◌, none, arith}
use ocaml_core.Process.{Answer, done, fails, End, executed, piped}
use ocaml_core.Process.Create.Args.{create_args, IsVector, create_args-IsVector}
use ocaml_core.Process.Create.Child.{Request, Site}
use ocaml_core.Process.Create.Parent.{Calls, ml_create_process}
use ocaml_core.Process.Create.{Pipe}
use ocaml_core.Process.Create.Child.Runs.{connected}
use ocaml_core.Process.Create.Parent.{created}
use ocaml_core.Process.Create.Parent.Runs.{served, ml_create_process_runs}
use ocaml_core.Process.Create.Parent.Runs
use ocaml_core.Process.Create.Parent.Outcome.{IsClean}
use ocaml_core.Process.Create.Parent.Clean.{ml_create_process-IsClean}
use ocaml_core.Examples.Processes.{parent}

abbrev request : Request
request = record {
  working_dir = none;
  prog = 97 ∷ [];
  args = (98 ∷ []) ∷ (99 ∷ []) ∷ [];
  env = (65 ∷ 61 ∷ []) ∷ [];
  search_path = true;
}

abbrev line : Site → List ℕ
line site = 10 ∷ []

abbrev zeros : ℕ → List Answer → List Answer
zeros zero ans = ans
zeros (suc n) ans = done 0 ∷ zeros n ans

-- The copies in the child are 9, 10 and 11; `close` of the descriptor 0 is interrupted.
abbrev calls : Calls
calls = record {
  stdin_pipe = piped 3 4 30 31;
  stdout_pipe = piped 5 6 32 33;
  stderr_pipe = piped 7 8 34 35;
  fork = done 99;
  child = done 9 ∷ done 10 ∷ done 11 ∷ fails 4 ∷ fails 9 ∷ zeros 12 (done 1 ∷ done 2 ∷ zeros 4 []);
}

ml_create_process-IsClean_example :
    IsClean calls request parent (ml_create_process line calls request (zeros 9 []) parent)
ml_create_process-IsClean_example =
    ml_create_process-IsClean calls request parent line (zeros 9 []) (omega arith) (omega arith)

create_args-IsVector_example :
    IsVector
      (97 ∷ [])
      ((98 ∷ []) ∷ (99 ∷ []) ∷ [])
      (create_args (97 ∷ []) ((98 ∷ []) ∷ (99 ∷ []) ∷ []) (λ i. none))
create_args-IsVector_example =
    create_args-IsVector (97 ∷ []) ((98 ∷ []) ∷ (99 ∷ []) ∷ []) (omega arith) (λ i. none)

abbrev to_stdin : Pipe
to_stdin = record { read_end = 3; write_end = 4; in_file = 30; out_file = 31 }

abbrev from_stdout : Pipe
from_stdout = record { read_end = 5; write_end = 6; in_file = 32; out_file = 33 }

abbrev from_stderr : Pipe
from_stderr = record { read_end = 7; write_end = 8; in_file = 34; out_file = 35 }

ml_create_process_runs_example :
    (child : End) × (child.0 ≡ executed)
    × ((ml_create_process line
          (Runs.calls line to_stdin from_stdout from_stderr request parent 99
            (done 9 ∷ done 10 ∷ done 11 ∷ connected 0 1 2 (done 0 ∷ done 0 ∷ [])))
          request
          (served line to_stdin from_stdout from_stderr request parent)
          parent).0
        ≡ created 99 4 5 7 child)
ml_create_process_runs_example =
    ml_create_process_runs line to_stdin from_stdout from_stderr request parent 9 10 11 0 1 2 0 0 99
      (omega arith) (omega arith) refl refl refl
      (record { copy_a = refl; copy_b = refl; copy_c = refl })
