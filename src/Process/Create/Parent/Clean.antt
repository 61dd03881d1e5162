-- ===== src/Process/Create/Parent/Clean.antt =====
-- ml_create_process of base/core/lib/unix_stubs.c leaks no descriptor.
use ocaml_core.Prelude.{
  ℕ, ◌<◌, ◌^◌, ◌≤◌, ◌≡◌, refl, sym, ap, ◌∙◌, List, length, none, some, Bool, Bool-cases, inl, inr,
  true, false, ◌&&◌, leb, arith,
}
use ocaml_core.Process.{Answer, Fds, Process, PipeAnswer, piped, no_pipe, set}
use ocaml_core.Process.Create.{is_lowest, Pipe, with_pipe, is_pipe}
use ocaml_core.Process.Create.Args.{
  Array, Filled, failure, outside, filled, create_args, create_args-IsVector, create_args_too_many,
  IsVector,
}
use ocaml_core.Process.Create.Tables.{IsLowest, lowest_lem, IsPiped, piped3}
use ocaml_core.Process.Create.Child.{Request, Site, child_side}
use ocaml_core.Process.Create.Child.Calls.{At}
use ocaml_core.Process.Create.Child.Connected.{child_side-Good}
use ocaml_core.Process.Create.Parent.{
  Code, closes, fails_with, on_pipe, Calls, forks, make_pipes, on_args, ml_create_process,
}
use ocaml_core.Process.Create.Parent.Outcome.{piped_as, IsClean}
use ocaml_core.Process.Create.Parent.Steps.{with_pipe_fds, closes-IsClean}
use ocaml_core.Process.Create.Parent.Forked.{parent_side-IsClean}

pub pair_lem :
    (q : Pipe) (fds : Fds)
    → is_pipe q fds ≡ true
    → IsLowest q.read_end fds
      × IsLowest q.write_end (set q.read_end (some (record { file = q.in_file; flags = 0 })) fds)
pair_lem q fds h = (
  lowest_lem q.read_end fds (first_true _ _ h),
  lowest_lem q.write_end _ (second_true (is_lowest q.read_end fds) _ h),
)
  where
    first_true : (a b : Bool) → (a && b) ≡ true → a ≡ true
    first_true true b e = refl
    first_true false b e = e

    second_true : (a b : Bool) → (a && b) ≡ true → b ≡ true
    second_true true b e = e
    second_true false b e = cc

-- The descriptors after a failed call of `pipe`.
one_closed :
    (fds : Fds) (q : Pipe) (m : ℕ)
    → IsLowest q.read_end fds
    → IsLowest q.write_end (set q.read_end (some (record { file = q.in_file; flags = 0 })) fds)
    → set q.write_end none (set q.read_end none (with_pipe_fds q fds)) m ≡ fds m
one_closed fds q m hr hw = ground (arith, hr.free, hw.free)

-- Two pipes closed again.
two_closed :
    (fds : Fds) (q1 q2 : Pipe) (m : ℕ)
    → fds q1.read_end ≡ none
    → fds q1.write_end ≡ none
    → fds q2.read_end ≡ none
    → fds q2.write_end ≡ none
    → set q2.write_end none
        (set q2.read_end none
          (set q1.write_end none (set q1.read_end none (with_pipe_fds q2 (with_pipe_fds q1 fds)))))
        m
      ≡ fds m
two_closed fds q1 q2 m r1 w1 r2 w2 = ground (arith, r1, w1, r2, w2)

before_read :
    (q : Pipe) (t : Fds) (m : ℕ)
    → set q.read_end (some (record { file = q.in_file; flags = 0 })) t m ≡ none
    → t m ≡ none
before_read q t m free = ground arith

before : (q : Pipe) (t : Fds) (m : ℕ) → with_pipe_fds q t m ≡ none → t m ≡ none
before q t m free = ground arith

module _ (cs : Calls) (r : Request) (p0 : Process) where
  -- `pipe` fails, or gives the lowest descriptors.
  on_pipe-IsClean :
      (answer : PipeAnswer) (cleanup : ℕ → Code) (next : Pipe → Code) (t : Fds) (ans : List Answer)
      (p : Process)
      → At t p0.cwd p
      → ((e : ℕ) → IsClean cs r p0 (cleanup e ans p))
      → ((q : Pipe) (p' : Process)
          → answer ≡ piped_as q
          → IsLowest q.read_end t
          → IsLowest q.write_end (set q.read_end (some (record { file = q.in_file; flags = 0 })) t)
          → At (with_pipe_fds q t) p0.cwd p'
          → IsClean cs r p0 (next q ans p'))
      → IsClean cs r p0 (on_pipe answer cleanup next ans p)
  on_pipe-IsClean (no_pipe e) cleanup next t ans p h hc hn = hc e
  on_pipe-IsClean (piped rd wr in_file out_file) cleanup next t ans p h hc hn =
      let q : Pipe = record {
        read_end = rd;
        write_end = wr;
        in_file = in_file;
        out_file = out_file;
      } in
      elim (Bool-cases (is_pipe q p.fds)) [
        | inr not_given ↦ rw not_given tt
        | inl given ↦
            let (hr, hw) = pair_lem q t (sym (ap (is_pipe q) h.fds_are) ∙ given) in
            rw given (
              hn q (with_pipe q p) refl hr hw
                (record { fds_are = ap (with_pipe_fds q) h.fds_are; cwd_is = h.cwd_is }))
      ]

  beginning : At p0.fds p0.cwd p0
  beginning = record { fds_are = refl; cwd_is = refl }

  module _ (line : Site → List ℕ) (args : Array) (vector : IsVector r.prog r.args (filled args))
      (few_args : length r.args < 4096) (few_env : length r.env < 2 ^ 31) where
    forks-IsClean :
        (q1 q2 q3 : Pipe) (ans : List Answer) (p : Process)
        → cs.stdin_pipe ≡ piped_as q1
        → cs.stdout_pipe ≡ piped_as q2
        → cs.stderr_pipe ≡ piped_as q3
        → IsPiped p0.fds q1 q2 q3
        → At (piped3 p0.fds q1 q2 q3) p0.cwd p
        → IsClean cs r p0 (forks line cs r args q1 q2 q3 ans p)
    forks-IsClean q1 q2 q3 ans p given1 given2 given3 piped_well h =
        parent_side-IsClean cs r p0 q1 q2 q3 piped_well given1 given2 given3 cs.fork
          (child_side line q1 q2 q3 args r cs.child p) refl
          (child_side-Good p0.fds q1 q2 q3 r p0.cwd line args
            (record { vector = vector; few_args = few_args; few_env = few_env }) cs.child p
            piped_well h)
          ans p h

    one_cleanup :
        (q : Pipe) (ans : List Answer) (p : Process) (e : ℕ)
        → IsLowest q.read_end p0.fds
        → IsLowest q.write_end
            (set q.read_end (some (record { file = q.in_file; flags = 0 })) p0.fds)
        → At (with_pipe_fds q p0.fds) p0.cwd p
        → IsClean cs r p0 (closes q.read_end (closes q.write_end (fails_with e)) ans p)
    one_cleanup q ans p e hr hw h =
        let t = with_pipe_fds q p0.fds in
        closes-IsClean cs r p0 t q.read_end _
          (closes-IsClean cs r p0 (set q.read_end none t) q.write_end (fails_with e)
            (λ ans' p' h' m. ap (λ (u : Fds). u m) h'.fds_are ∙ one_closed p0.fds q m hr hw))
          ans p h

    two_cleanup :
        (q1 q2 : Pipe) (ans : List Answer) (p : Process) (e : ℕ)
        → p0.fds q1.read_end ≡ none
        → p0.fds q1.write_end ≡ none
        → p0.fds q2.read_end ≡ none
        → p0.fds q2.write_end ≡ none
        → At (with_pipe_fds q2 (with_pipe_fds q1 p0.fds)) p0.cwd p
        → IsClean cs r p0 (
            closes q1.read_end
              (closes q1.write_end (closes q2.read_end (closes q2.write_end (fails_with e))))
              ans
              p)
    two_cleanup q1 q2 ans p e r1 w1 r2 w2 h =
        let t = with_pipe_fds q2 (with_pipe_fds q1 p0.fds) in
        let t1 = set q1.read_end none t in
        let t2 = set q1.write_end none t1 in
        let t3 = set q2.read_end none t2 in
        closes-IsClean cs r p0 t q1.read_end _
          (closes-IsClean cs r p0 t1 q1.write_end _ (
            closes-IsClean cs r p0 t2 q2.read_end _ (
              closes-IsClean cs r p0 t3 q2.write_end (fails_with e) (λ ans' p' h' m.
                ap (λ (u : Fds). u m) h'.fds_are ∙ two_closed p0.fds q1 q2 m r1 w1 r2 w2))))
          ans p h

    make_pipes-IsClean :
        (ans : List Answer) → IsClean cs r p0 (make_pipes cs (forks line cs r args) ans p0)
    make_pipes-IsClean ans =
        on_pipe-IsClean cs.stdin_pipe fails_with _ p0.fds ans p0 beginning (λ e m. refl)
          λ q1 p1 g1 r1 w1 h1.
            let t1 = with_pipe_fds q1 p0.fds in
            on_pipe-IsClean cs.stdout_pipe _ _ t1 ans p1 h1 (λ e. one_cleanup q1 ans p1 e r1 w1 h1)
              λ q2 p2 g2 r2 w2 h2.
                let t2 = with_pipe_fds q2 t1 in
                on_pipe-IsClean cs.stderr_pipe _ _ t2 ans p2 h2
                  (λ e.
                    two_cleanup q1 q2 ans p2 e r1.free (before_read q1 p0.fds q1.write_end w1.free)
                      (before q1 p0.fds q2.read_end r2.free)
                      (before q1 p0.fds q2.write_end (before_read q2 t1 q2.write_end w2.free)) h2)
                  λ q3 p3 g3 r3 w3 h3.
                    forks-IsClean q1 q2 q3 ans p3 g1 g2 g3
                      (record {
                        read1 = r1;
                        write1 = w1;
                        read2 = r2;
                        write2 = w2;
                        read3 = r3;
                        write3 = w3;
                      })
                      h3

  on_args-IsClean :
      (line : Site → List ℕ) (args : Filled) (ans : List Answer)
      → length r.args < 4096
      → length r.env < 2 ^ 31
      → IsVector r.prog r.args args
      → IsClean cs r p0 (on_args args (λ args'. make_pipes cs (forks line cs r args')) ans p0)
  on_args-IsClean line (filled args) ans few_args few_env h =
      make_pipes-IsClean line args h few_args few_env ans
  on_args-IsClean line failure ans few_args few_env h = elim h [ ]
  on_args-IsClean line outside ans few_args few_env h = elim h [ ]

  -- For a request of fewer than 2 ^ 31 arguments and strings of environment, and any process,
  -- whatever the calls of `pipe`, `fork`, `close` and `fcntl` answer (a new descriptor being the
  -- lowest that is free): if `ml_create_process` raises the error of `pipe` or of `fork`, the
  -- descriptors of the parent are as they were. It raises the error about too many arguments only
  -- for 4096 or more and then has done nothing, and it never stores outside of its array. If it
  -- returns, it returns the pid of `fork`, the write end of the first pipe that `pipe` gave and the
  -- read ends of the second and the third; beside what it had the parent has just these, marked
  -- close-on-exec; and a child that executes its program has the read end of the first pipe at 0,
  -- the write ends of the second and the third at 1 and 2, what the parent passes on otherwise, the
  -- requested directory and program, as arguments the program's name, the requested ones and a null
  -- pointer, and an environment that says of each name what the first of the requested strings with
  -- this name says. Nothing is said where `fcntl` fails in `close_on_exec`, where a call never
  -- returns, and of a child that exits.
  pub ml_create_process-IsClean :
      (line : Site → List ℕ) (ans : List Answer)
      → length r.args < 2 ^ 31
      → length r.env < 2 ^ 31
      → IsClean cs r p0 (ml_create_process line cs r ans p0)
  unfolding ml_create_process
  ml_create_process-IsClean line ans low_args low_env =
      elim (Bool-cases (leb 4096 (length r.args))) [
        | inl many ↦
            let too_many : 4096 ≤ length r.args = ground (arith, many) in
            rw (create_args_too_many r.prog r.args (λ i. none) too_many low_args) (too_many, refl)
        | inr few ↦
            let few_args : length r.args < 4096 = ground (arith, few) in
            on_args-IsClean line (create_args r.prog r.args (λ i. none)) ans few_args low_env
              (create_args-IsVector r.prog r.args few_args (λ i. none))
      ]
