-- ===== src/Process/Create/Parent/Runs.antt =====
-- ml_create_process of base/core/lib/unix_stubs.c returns where every call succeeds.
use ocaml_core.Prelude.{◌^◌, ℕ, ◌<◌, ◌≡◌, refl, ap, ◌∙◌, List, [], ◌∷◌, length, none, some, true}
use ocaml_core.Process.{Answer, done, Fds, Process, End, executed, set}
use ocaml_core.Process.Spawn.{flagged}
use ocaml_core.Process.Create.{safe_close, Pipe, with_pipe, is_pipe}
use ocaml_core.Process.Create.Args.{
  Array, Filled, failure, outside, filled, create_args, create_args-IsVector, IsVector,
}
use ocaml_core.Process.Create.Tables.{IsPiped, ordered, piped3}
use ocaml_core.Process.Create.Child.{Request, Site, child_side}
use ocaml_core.Process.Create.Child.Runs.{connected, IsCopied, child_side_runs}
use ocaml_core.Process.Create.Parent.{
  Created, created, Result, Code, close_on_exec, parent_side, Calls, forks, make_pipes, on_args,
  ml_create_process,
}
use ocaml_core.Process.Create.Parent.Outcome.{marked, piped_as}
use ocaml_core.Process.Create.Parent.Steps.{with_pipe_fds}
use ocaml_core.Process.Create.Parent.Forked.{halved, w1_open, r2_open, r3_open}
use ocaml_core.Process.Create.Parent.Clean.{pair_lem}

abbrev answer : Result → Created
answer x = x.0

make_pipes_gives :
    (q1 q2 q3 : Pipe) (c : Calls) (next : Pipe → Pipe → Pipe → Code) (ans : List Answer)
    (p : Process)
    → c.stdin_pipe ≡ piped_as q1
    → c.stdout_pipe ≡ piped_as q2
    → c.stderr_pipe ≡ piped_as q3
    → is_pipe q1 p.fds ≡ true
    → is_pipe q2 (with_pipe_fds q1 p.fds) ≡ true
    → is_pipe q3 (with_pipe_fds q2 (with_pipe_fds q1 p.fds)) ≡ true
    → make_pipes c next ans p ≡ next q1 q2 q3 ans (with_pipe q3 (with_pipe q2 (with_pipe q1 p)))
make_pipes_gives q1 q2 q3 c next ans p e1 e2 e3 given1 given2 given3 =
    rw (e1, given1, e2, given2, e3, given3) refl

close_on_exec_gives :
    (fd file : ℕ) (next : Code) (ans : List Answer) (p : Process)
    → p.fds fd ≡ some (record { file = file; flags = 0 })
    → close_on_exec fd next (done 0 ∷ done 0 ∷ ans) p
      ≡ next ans (record p { fds = set fd (marked file) p.fds })
unfolding close_on_exec
close_on_exec_gives fd file next ans p is_open =
    rw is_open (ap (λ o. next ans (record p { fds = set fd (flagged 1 o) p.fds })) is_open)

filled_lem :
    (r : Request) (x : Filled) → IsVector r.prog r.args x → (args : Array) × (x ≡ filled args)
filled_lem r (filled args) h = (args, refl)
filled_lem r failure h = elim h [ ]
filled_lem r outside h = elim h [ ]

module _ (line : Site → List ℕ) (q1 q2 q3 : Pipe) (r : Request) (p0 : Process) where
  -- The answers to the parent where all calls succeed.
  abbrev pub served : List Answer
  served = done 0 ∷ done 0 ∷ done 0 ∷ done 0 ∷ done 0 ∷ done 0 ∷ done 0 ∷ done 0 ∷ done 0 ∷ []

  abbrev pub calls : ℕ → List Answer → Calls
  calls pid child = record {
    stdin_pipe = piped_as q1;
    stdout_pipe = piped_as q2;
    stderr_pipe = piped_as q3;
    fork = done pid;
    child = child;
  }

  abbrev proc : Fds → Process
  proc fds = record p0 { fds = fds }

  parent_side_runs :
      (pid : ℕ) (child : End)
      → IsPiped p0.fds q1 q2 q3
      → answer (parent_side q1 q2 q3 (done pid) child served (proc (piped3 p0.fds q1 q2 q3)))
        ≡ created pid q1.write_end q2.read_end q3.read_end child
  unfolding safe_close
  parent_side_runs pid child h =
      let cs = calls pid [] in
      let o = ordered p0.fds q1 q2 q3 h in
      let t0 = halved cs r p0 q1 q2 q3 h refl refl refl in
      let t1 = set q1.write_end (marked q1.out_file) t0 in
      let t2 = set q2.read_end (marked q2.in_file) t1 in
      ap answer (
        close_on_exec_gives q1.write_end q1.out_file _ _ (proc t0)
          (w1_open cs r p0 q1 q2 q3 h refl refl refl o)
        ∙ close_on_exec_gives q2.read_end q2.in_file _ _ (proc t1)
            (r2_open cs r p0 q1 q2 q3 h refl refl refl o)
        ∙ close_on_exec_gives q3.read_end q3.in_file _ _ (proc t2)
            (r3_open cs r p0 q1 q2 q3 h refl refl refl o))

  -- For fewer than 4096 arguments and 2 ^ 31 strings of environment, where the calls of `pipe` and
  -- `dup` give the lowest free descriptors and every call succeeds: `ml_create_process` returns the
  -- pid of `fork` with the write end of the first pipe and the read ends of the others, and the
  -- child executes its program. Nine answers in the parent and twenty in the child are enough.
  pub ml_create_process_runs :
      (a b c x y z n m pid : ℕ)
      → length r.args < 4096
      → length r.env < 2 ^ 31
      → is_pipe q1 p0.fds ≡ true
      → is_pipe q2 (with_pipe_fds q1 p0.fds) ≡ true
      → is_pipe q3 (with_pipe_fds q2 (with_pipe_fds q1 p0.fds)) ≡ true
      → IsCopied q1 q2 q3 p0 a b c
      → let child_answers = done a ∷ done b ∷ done c ∷ connected x y z (done n ∷ done m ∷ []) in
        (child : End) × (child.0 ≡ executed)
        × ((ml_create_process line (calls pid child_answers) r served p0).0
            ≡ created pid q1.write_end q2.read_end q3.read_end child)
  unfolding ml_create_process
  ml_create_process_runs a b c x y z n m pid few few_env pipe1 pipe2 pipe3 copies =
      let (r1, w1) = pair_lem q1 p0.fds pipe1 in
      let (r2, w2) = pair_lem q2 _ pipe2 in
      let (r3, w3) = pair_lem q3 _ pipe3 in
      let h : IsPiped p0.fds q1 q2 q3 = record {
        read1 = r1;
        write1 = w1;
        read2 = r2;
        write2 = w2;
        read3 = r3;
        write3 = w3;
      } in
      let child_answers = done a ∷ done b ∷ done c ∷ connected x y z (done n ∷ done m ∷ []) in
      let cs = calls pid child_answers in
      let (args, is_filled) =
        filled_lem r (create_args r.prog r.args (λ i. none))
          (create_args-IsVector r.prog r.args few (λ i. none)) in
      (
        child_side line q1 q2 q3 args r child_answers (proc (piped3 p0.fds q1 q2 q3)),
        child_side_runs line q1 q2 q3 args r p0 a b c x y z n m [] h copies few_env,
        ap answer (
              ap (λ f. on_args f (λ args'. make_pipes cs (forks line cs r args')) served p0)
                is_filled
              ∙ make_pipes_gives q1 q2 q3 cs (forks line cs r args) served p0 refl refl refl pipe1
                  pipe2 pipe3)
            ∙ parent_side_runs pid _ h,
      )
