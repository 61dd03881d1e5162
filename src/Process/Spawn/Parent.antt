-- ===== src/Process/Spawn/Parent.antt =====
-- The parent's side of extended_ml_spawn in base/core/extended/lib/fork_exec.c, around the forked side.
pub mod Replies
pub mod Runs
use ocaml_core.Prelude.{ℕ, List, [], ◌∷◌, none, some, Bool, true, false, ◌==◌, if◌then◌else◌}
use ocaml_core.Endian.{ByteOrder}
use ocaml_core.Process.{
  Answer, done, fails, Process, End, executed, exited, blocked, impossible, Tried, gave, erred,
  waits, unreal, eintr, is_free, release, PipeAnswer, piped, no_pipe, open_pipe,
}
use ocaml_core.Process.Pipe.{Found, no_errno, errno, asserted, pending, errno_from_pipe}
use ocaml_core.Process.Spawn.{Request, set_cloexec, forked_side}

-- The answers of the calls, one field for each place in the code.
pub record Calls : Type 0 where
  pub pipe : PipeAnswer
  pub cloexec_write : List Answer
  pub cloexec_read : List Answer
  pub fork : Answer
  pub child : List Answer
  pub close_write : List Answer
  pub reads : List Answer
  pub close_read : List Answer
  pub wait : List Answer

-- The pid that is returned, or the errno of `unix_error`; `aborts` is a failed assertion, and `waiting`
-- a call that has no answer.
pub data Reply : Type 0 where
  child_pid : ℕ → Reply
  raises : ℕ → Reply
  aborts waiting : Reply

-- The parent process, and the children that it has waited for.
abbrev pub Parent : Type 0
Parent = Process × List ℕ

-- NONINTR, for a call that does `failing` where it fails and `effect` where it succeeds.
pub nonintr :
    (Parent → Parent)
    → (Parent → Parent)
    → List Answer
    → Parent
    → (Parent → Reply × Parent)
    → Reply × Parent
nonintr failing effect [] w next = (waiting, w)
nonintr failing effect (done n ∷ ans) w next = next (effect w)
nonintr failing effect (fails e ∷ ans) w next =
    let rest = nonintr failing effect ans (failing w) next in
    if e == eintr then rest else (aborts, failing w)

abbrev pub closing : ℕ → Parent → Parent
closing fd w = (release fd w.0, w.1)

abbrev pub nonintr_close : ℕ → List Answer → Parent → (Parent → Reply × Parent) → Reply × Parent
nonintr_close fd = nonintr (closing fd) (closing fd)

abbrev pub reaping : ℕ → Parent → Parent
reaping pid w = (w.0, pid ∷ w.1)

abbrev pub nonintr_waitpid : ℕ → List Answer → Parent → (Parent → Reply × Parent) → Reply × Parent
nonintr_waitpid pid = nonintr (λ w. w) (reaping pid)

-- `(void) set_cloexec(...)`.
abbrev pub ignored : Tried → (Process → Reply × Parent) → Reply × Parent
ignored (gave n ans p) next = next p
ignored (erred e ans p) next = next p
ignored (waits p) next = (waiting, (p, []))
ignored (unreal p) next = (waiting, (p, []))

-- The pipe comes to its end when the child has closed it, by `exec` or by its exit.
abbrev pub is_closed : ℕ → End → Bool
is_closed wr (executed, p) = is_free (p.fds wr)
is_closed wr (exited code, p) = true
is_closed wr (blocked, p) = false
is_closed wr (impossible, p) = false

abbrev pub on_found : Calls → ℕ → ℕ → Found → Parent → Reply × Parent
on_found c rd pid no_errno w = nonintr_close rd c.close_read w (λ w'. (child_pid pid, w'))
on_found c rd pid (errno my_errno) w =
    nonintr_close rd c.close_read w
      (λ w'. nonintr_waitpid pid c.wait w' (λ w''. (raises my_errno, w'')))
on_found c rd pid asserted w = (aborts, w)
on_found c rd pid pending w = (waiting, w)

-- From `default:` on, beside the child.
abbrev pub on_child : ByteOrder → Calls → ℕ → ℕ → ℕ → ℕ → Process → End → Reply × Parent
on_child host c rd wr out_file pid p child =
    nonintr_close wr c.close_write (p, [])
      (λ w.
        if is_closed wr child
        then on_found c rd pid (errno_from_pipe host c.reads (child.1.files out_file) []) w
        else (waiting, w))

abbrev pub on_forked : ByteOrder → Calls → Request → ℕ → ℕ → ℕ → Answer → Process → Reply × Parent
on_forked host c r rd wr out_file (fails my_errno) p =
    nonintr_close rd c.close_read (p, [])
      (λ w. nonintr_close wr c.close_write w (λ w'. (raises my_errno, w')))
on_forked host c r rd wr out_file (done pid) p =
    on_child host c rd wr out_file pid p (forked_side host wr r c.child p)

abbrev pub on_pipe : ByteOrder → Calls → Request → PipeAnswer → Process → Reply × Parent
on_pipe host c r (no_pipe e) p = (raises e, (p, []))
on_pipe host c r (piped rd wr in_file out_file) p =
    ignored (set_cloexec wr true c.cloexec_write (open_pipe rd wr in_file out_file p)) (λ p1.
      ignored (set_cloexec rd true c.cloexec_read p1)
        (λ p2. on_forked host c r rd wr out_file c.fork p2))

pub extended_ml_spawn : ByteOrder → Calls → Request → Process → Reply × Parent
extended_ml_spawn host c r p = on_pipe host c r c.pipe p
