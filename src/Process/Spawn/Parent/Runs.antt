-- ===== src/Process/Spawn/Parent/Runs.antt =====
-- extended_ml_spawn of base/core/extended/lib/fork_exec.c returns where every call succeeds in the end.
use ocaml_core.Prelude.{ℕ, ◌<◌, ◌^◌, ◌≡◌, ap, ◌∙◌, List, [], ◌∷◌, none, some, true, false}
use ocaml_core.Endian.{ByteOrder}
use ocaml_core.Process.{
  Answer, done, Process, End, executed, exited, blocked, impossible, piped, is_free,
}
use ocaml_core.Process.Spawn.{Request, forked_side}
use ocaml_core.Process.Spawn.Outcome.{allowed}
use ocaml_core.Process.Spawn.Wiring.{IsFresh}
use ocaml_core.Process.Spawn.Runs.{connected, forked_side_runs}
use ocaml_core.Process.Spawn.Stages.{first_error}
use ocaml_core.Process.Spawn.Parent.{Calls, Reply, child_pid, Parent, extended_ml_spawn}
use ocaml_core.Process.Spawn.Parent.Replies.{
  IsServed, IsPipe, IsAnswer, forked, left, extended_ml_spawn-IsAnswer,
}

module _ (host : ByteOrder) (c : Calls) (r : Request) (rd wr in_file out_file pid : ℕ)
    (p : Process) where
  answer_of :
      (child : End) (answer : Reply × Parent)
      → IsAnswer host c r rd wr in_file out_file pid p child answer
      → child.0 ≡ executed
      → answer ≡ (child_pid pid, (left rd wr (forked rd wr in_file out_file p), []))
  answer_of (executed, q) answer h e = h.1
  answer_of (exited code, q) answer h e = cc
  answer_of (blocked, q) answer h e = cc
  answer_of (impossible, q) answer h e = cc

  -- Where the three descriptors of the request are open, the pipe is new (its write end is 3 or
  -- more), the three copies get descriptors that are free, different and 3 or more, the process may
  -- set the ids that are asked for, the parent's calls succeed, some after interruptions, and every
  -- call of the child succeeds: `extended_ml_spawn` returns the pid of `fork`, has waited for
  -- nobody, and the descriptors of the parent are as they were.
  pub extended_ml_spawn_runs :
      (a b c' x y z u v w n m k l : ℕ)
      → c.pipe ≡ piped rd wr in_file out_file
      → c.fork ≡ done pid
      → c.child
        ≡ done a
          ∷ done b
          ∷ done c'
          ∷ connected host wr r
              (forked rd wr in_file out_file p)
              x
              y
              z
              u
              v
              w
              (done n ∷ done m ∷ done k ∷ done l ∷ [])
      → IsServed c
      → IsPipe rd wr out_file p
      → is_free (p.fds r.stdin) ≡ false
      → is_free (p.fds r.stdout) ≡ false
      → is_free (p.fds r.stderr) ≡ false
      → IsFresh r (forked rd wr in_file out_file p).fds a b c'
      → allowed r p.uid ≡ true
      → (extended_ml_spawn host c r p
          ≡ (child_pid pid, (left rd wr (forked rd wr in_file out_file p), [])))
        × ((i : ℕ) → (left rd wr (forked rd wr in_file out_file p)).fds i ≡ p.fds i)
  extended_ml_spawn_runs a b c' x y z u v w n m k l pipe fork child h q open_in open_out open_err f
        may =
      let start = forked rd wr in_file out_file p in
      let (answered, same) =
        extended_ml_spawn-IsAnswer host c r rd wr in_file out_file pid p pipe fork h q open_in
          open_out open_err (λ e is_error. no_error e is_error) in
      (
        answer_of (forked_side host wr r c.child start) _ answered (
            ap (λ (ans : List Answer). (forked_side host wr r ans start).0) child
            ∙ forked_side_runs host wr r start a b c' x y z u v w n m k l [] f may),
        same,
      )
    where
      no_error : (e : ℕ) → some e ≡ first_error c.child → e < 2 ^ 32
      no_error e is_error =
          let none_there : first_error c.child ≡ none = ap first_error child in
          let refused : some e ≡ none = is_error ∙ none_there in cc
