-- ===== src/Process/Create/Parent/Forked.antt =====
-- The parent's side of ml_create_process in base/core/lib/unix_stubs.c after `fork`.
use ocaml_core.Prelude.{ℕ, ◌≡◌, refl, ap, ◌∙◌, List, none, some, ◌==◌, if◌then◌else◌, arith}
use ocaml_core.Process.{Answer, done, fails, Fds, Process, End, Ends, set}
use ocaml_core.Process.Create.{Pipe}
use ocaml_core.Process.Create.Tables.{IsPiped, IsOrdered, WasFree, ordered, was_free, piped3}
use ocaml_core.Process.Create.Child.{Request}
use ocaml_core.Process.Create.Child.Calls.{At}
use ocaml_core.Process.Create.Child.Connected.{IsConnected}
use ocaml_core.Process.Create.Parent.{Calls, fails_with, on_fork, parent_side}
use ocaml_core.Process.Create.Parent.Outcome.{marked, piped_as, IsClean}
use ocaml_core.Process.Create.Parent.Steps.{closes-IsClean, close_on_exec-IsClean}

module _ (cs : Calls) (r : Request) (p0 : Process) where
  -- The three pipes.
  module _ (q1 q2 q3 : Pipe) (piped_well : IsPiped p0.fds q1 q2 q3)
      (given1 : cs.stdin_pipe ≡ piped_as q1) (given2 : cs.stdout_pipe ≡ piped_as q2)
      (given3 : cs.stderr_pipe ≡ piped_as q3) where
    -- The ends of the child are closed.
    abbrev pub halved : Fds
    halved =
        set q3.write_end none
          (set q2.write_end none (set q1.read_end none (piped3 p0.fds q1 q2 q3)))

    abbrev all_marked : Fds
    all_marked =
        set q3.read_end (marked q3.in_file)
          (set q2.read_end (marked q2.in_file) (set q1.write_end (marked q1.out_file) halved))

    all_marked_lem :
        (m : ℕ)
        → IsOrdered p0.fds q1 q2 q3
        → WasFree p0.fds q1 q2 q3
        → all_marked m ≡ (
            if m == q1.write_end
            then marked q1.out_file
            else if m == q2.read_end
            then marked q2.in_file
            else if m == q3.read_end
            then marked q3.in_file
            else p0.fds m)
    all_marked_lem m o w = ground (arith, o, w)

    none_left :
        (m : ℕ)
        → IsOrdered p0.fds q1 q2 q3
        → WasFree p0.fds q1 q2 q3
        → set q3.read_end none (set q2.read_end none (set q1.write_end none all_marked)) m
          ≡ p0.fds m
    none_left m o w = ground (arith, o, w)

    pub w1_open :
        IsOrdered p0.fds q1 q2 q3
        → halved q1.write_end ≡ some (record { file = q1.out_file; flags = 0 })
    w1_open o = ground (arith, o)

    pub r2_open :
        IsOrdered p0.fds q1 q2 q3
        → set q1.write_end (marked q1.out_file) halved q2.read_end
          ≡ some (record { file = q2.in_file; flags = 0 })
    r2_open o = ground (arith, o)

    pub r3_open :
        IsOrdered p0.fds q1 q2 q3
        → set q2.read_end
            (marked q2.in_file)
            (set q1.write_end (marked q1.out_file) halved)
            q3.read_end
          ≡ some (record { file = q3.in_file; flags = 0 })
    r3_open o = ground (arith, o)

    on_fork-IsClean :
        (fork : Answer) (child : End)
        → cs.fork ≡ fork
        → Ends (IsConnected p0.fds q1 q2 q3 r p0.cwd) (λ q. Unit {0}) child
        → (ans : List Answer) (p : Process) → At all_marked p0.cwd p
        → IsClean cs r p0 (on_fork q1 q2 q3 fork child ans p)
    on_fork-IsClean (done pid) child is_fork good ans p h =
        let o = ordered p0.fds q1 q2 q3 piped_well in
        let w = was_free p0.fds q1 q2 q3 piped_well in
        (
          is_fork,
          record {
            q1 = q1;
            q2 = q2;
            q3 = q3;
            stdin_given = given1;
            stdout_given = given2;
            stderr_given = given3;
            stdin_returned = refl;
            stdout_returned = refl;
            stderr_returned = refl;
            fds_are = λ m. ap (λ (u : Fds). u m) h.fds_are ∙ all_marked_lem m o w;
            child_ends = good;
          },
        )
    on_fork-IsClean (fails e) child is_fork good ans p h =
        let o = ordered p0.fds q1 q2 q3 piped_well in
        let w = was_free p0.fds q1 q2 q3 piped_well in
        let t1 = set q1.write_end none all_marked in
        let t2 = set q2.read_end none t1 in
        (closes-IsClean cs r p0) all_marked q1.write_end _
          ((closes-IsClean cs r p0) t1 q2.read_end _ (
            (closes-IsClean cs r p0) t2 q3.read_end (fails_with e)
              (λ ans' p' h' m. ap (λ (u : Fds). u m) h'.fds_are ∙ none_left m o w)))
          ans p h

    pub parent_side-IsClean :
        (fork : Answer) (child : End)
        → cs.fork ≡ fork
        → Ends (IsConnected p0.fds q1 q2 q3 r p0.cwd) (λ q. Unit {0}) child
        → (ans : List Answer) (p : Process) → At (piped3 p0.fds q1 q2 q3) p0.cwd p
        → IsClean cs r p0 (parent_side q1 q2 q3 fork child ans p)
    parent_side-IsClean fork child is_fork good =
        let o = ordered p0.fds q1 q2 q3 piped_well in
        let t0 = piped3 p0.fds q1 q2 q3 in
        let t1 = set q1.read_end none t0 in
        let t2 = set q2.write_end none t1 in
        let t3 = set q1.write_end (marked q1.out_file) halved in
        let t4 = set q2.read_end (marked q2.in_file) t3 in
        (closes-IsClean cs r p0) t0 q1.read_end _ (
          (closes-IsClean cs r p0) t1 q2.write_end _ (
            (closes-IsClean cs r p0) t2 q3.write_end _ (
              (close_on_exec-IsClean cs r p0) halved q1.write_end q1.out_file _ (w1_open o) (
                (close_on_exec-IsClean cs r p0) t3 q2.read_end q2.in_file _ (r2_open o) (
                  (close_on_exec-IsClean cs r p0) t4 q3.read_end q3.in_file _ (r3_open o)
                    (on_fork-IsClean fork child is_fork good))))))
