-- ===== src/Examples/Processes.antt =====
-- extended_ml_spawn: the standard descriptors are open, the pipe gets the descriptors 3 and 4, and the
-- program cannot be executed.
use ocaml_core.Prelude.{
  ℕ, ◌+◌, ◌≡◌, ◌≢◌, refl, pos, List, [], ◌∷◌, none, some, ltb, if◌then◌else◌, arith,
}
use ocaml_core.Endian.{little_endian}
use ocaml_core.Process.{
  Answer, done, fails, Process, Fds, Ends, exited, executed, piped, release, eintr,
}
use ocaml_core.Process.Pipe.{report_errno_on_pipe, errno_from_pipe, errno}
use ocaml_core.Process.Pipe.RoundTrip.{errno_from_pipe-report_errno_on_pipe}
use ocaml_core.Process.Spawn.{Request, forked_side}
use ocaml_core.Process.Spawn.Outcome.{IsSpawned, IsFailed}
use ocaml_core.Process.Spawn.Wiring.{IsFresh}
use ocaml_core.Process.Spawn.Forked.{forked_side-Ends}
use ocaml_core.Process.Spawn.Ids.{forked_side_with_ids}
use ocaml_core.Process.Spawn.Runs.{connected}
use ocaml_core.Process.Spawn.Parent.{Calls, child_pid, raises, extended_ml_spawn}
use ocaml_core.Process.Spawn.Parent.Runs.{extended_ml_spawn_runs}
use ocaml_core.Process.Spawn.Parent.Replies.{
  IsPipe, IsServed, IsAnswer, forked, left, extended_ml_spawn-IsAnswer,
  extended_ml_spawn_fork_fails,
}

-- The descriptors 0, 1 and 2 stand for the files 20, 21 and 22.
abbrev standard : Fds
standard n = if ltb n 3 then some (record { file = 20 + n; flags = 0 }) else none

abbrev pub parent : Process
parent = record { fds = standard; files = λ f. []; uid = 0; gid = 0; cwd = 47 ∷ []; image = none }

abbrev request : Request
request = record {
  stdin = 0;
  stdout = 1;
  stderr = 2;
  working_dir = some (47 ∷ 116 ∷ []);
  setuid = some (pos 1000);
  setgid = none;
  env = some ((65 ∷ 61 ∷ []) ∷ []);
  prog = 47 ∷ 97 ∷ [];
  args = (97 ∷ []) ∷ (98 ∷ []) ∷ [];
}

abbrev child : Process
child = forked 3 4 30 31 parent

-- The copies are 5, 6 and 7; all calls succeed but `execve`, which fails with ENOENT.
abbrev all_succeed : List Answer → List Answer
all_succeed last =
    done 5
    ∷ done 6
    ∷ done 7
    ∷ connected little_endian 4 request child 0 1 2 0 0 0 (done 0 ∷ done 0 ∷ last)

abbrev enoent : ℕ
enoent = 2

abbrev answers : List Answer
answers = all_succeed (fails enoent ∷ done 2 ∷ fails eintr ∷ done 1 ∷ done 1 ∷ [])

abbrev reads : List Answer
reads = done 1 ∷ fails eintr ∷ done 2 ∷ done 4 ∷ done 4 ∷ done 4 ∷ []

abbrev calls : Answer → Calls
calls fork = record {
  pipe = piped 3 4 30 31;
  cloexec_write = done 0 ∷ done 0 ∷ [];
  cloexec_read = done 0 ∷ done 0 ∷ [];
  fork = fork;
  child = answers;
  close_write = fails eintr ∷ done 0 ∷ [];
  reads = reads;
  close_read = done 0 ∷ [];
  wait = fails eintr ∷ done 99 ∷ [];
}

calls-IsServed : (fork : Answer) → IsServed (calls fork)
calls-IsServed fork = record {
  cloexec_write = refl;
  cloexec_read = refl;
  close_write = (refl, tt);
  close_read = tt;
  wait = (refl, tt);
  reads = (omega arith, (refl, (omega arith, (omega arith, (omega arith, (omega arith, tt))))));
  enough = omega arith;
}

parent-IsPipe : IsPipe 3 4 31 parent
parent-IsPipe = record {
  free_rd = refl;
  free_wr = refl;
  differ = refl;
  high = omega arith;
  empty = refl;
}

extended_ml_spawn-IsAnswer_example :
    (IsAnswer little_endian (calls (done 99)) request 3 4 30 31 99 parent)
      (forked_side little_endian 4 request answers child)
      (extended_ml_spawn little_endian (calls (done 99)) request parent)
    × ((m : ℕ) → (left 3 4 child).fds m ≡ standard m)
extended_ml_spawn-IsAnswer_example =
    extended_ml_spawn-IsAnswer little_endian (calls (done 99)) request 3 4 30 31 99 parent refl refl
      (calls-IsServed (done 99)) parent-IsPipe refl refl refl (λ e h. ground (arith, h))

extended_ml_spawn_fork_fails_example :
    (extended_ml_spawn little_endian (calls (fails 11)) request parent
      ≡ (raises 11, (release 4 (release 3 child), [])))
    × ((m : ℕ) → (release 4 (release 3 child)).fds m ≡ standard m)
extended_ml_spawn_fork_fails_example =
    extended_ml_spawn_fork_fails little_endian (calls (fails 11)) request 3 4 30 31 99 parent 11
      refl refl (calls-IsServed (fails 11)) parent-IsPipe

forked_side-Ends_example :
    Ends
      (IsSpawned request child)
      (IsFailed little_endian 31 request answers child)
      (forked_side little_endian 4 request answers child)
forked_side-Ends_example =
    forked_side-Ends little_endian 4 request answers child (record { file = 31; flags = 1 }) refl
      (omega arith) refl refl refl refl

child-IsFresh : IsFresh request child.fds 5 6 7
child-IsFresh = record {
  stdin_open = refl;
  stdout_open = refl;
  stderr_open = refl;
  low_a = omega arith;
  low_b = omega arith;
  low_c = omega arith;
  free_a = refl;
  free_b = refl;
  free_c = refl;
  differ_ab = refl;
  differ_ac = refl;
  differ_bc = refl;
}

abbrev good_calls : Calls
good_calls = record (calls (done 99)) { child = all_succeed (done 0 ∷ done 0 ∷ []) }

good_calls-IsServed : IsServed good_calls
good_calls-IsServed = record {
  cloexec_write = refl;
  cloexec_read = refl;
  close_write = (refl, tt);
  close_read = tt;
  wait = (refl, tt);
  reads = (calls-IsServed (done 99)).reads;
  enough = omega arith;
}

extended_ml_spawn_runs_example :
    (extended_ml_spawn little_endian good_calls request parent
      ≡ (child_pid 99, (left 3 4 child, [])))
    × ((i : ℕ) → (left 3 4 child).fds i ≡ standard i)
extended_ml_spawn_runs_example =
    extended_ml_spawn_runs little_endian good_calls request 3 4 30 31 99 parent 5 6 7 0 1 2 0 0 0 0
      0 0 0 refl refl refl good_calls-IsServed parent-IsPipe refl refl refl child-IsFresh refl

abbrev both_ids : Request
both_ids = record request { setgid = some (pos 100) }

forked_side_with_ids_example :
    (forked_side little_endian 4 both_ids (all_succeed (done 0 ∷ done 0 ∷ [])) child).0 ≢ executed
forked_side_with_ids_example =
    forked_side_with_ids little_endian 4 both_ids (all_succeed (done 0 ∷ done 0 ∷ [])) child
      (record { file = 31; flags = 1 }) (pos 1000) (pos 100) refl (omega arith) refl refl refl refl
      refl refl (λ e. absurd (omega (arith, e)))

abbrev writes : List Answer
writes = done 2 ∷ fails eintr ∷ done 0 ∷ done 1 ∷ done 1 ∷ done 4 ∷ []

errno_from_pipe-report_errno_on_pipe_example :
    let e = report_errno_on_pipe little_endian 4 enoent writes child in
    (e.0 ≡ exited 254) × (errno_from_pipe little_endian reads (e.1.files 31) [] ≡ errno enoent)
errno_from_pipe-report_errno_on_pipe_example =
    errno_from_pipe-report_errno_on_pipe little_endian 4 enoent writes reads child
      (record { file = 31; flags = 1 }) refl refl (omega arith) (omega arith)
      (omega arith, (refl, (omega arith, (omega arith, (omega arith, (omega arith, tt))))))
      (omega arith)
