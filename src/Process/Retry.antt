-- ===== src/Process/Retry.antt =====
-- The macro SYSCALL of base/core/extended/lib/fork_exec.c, and the rules by which a run of several
-- calls is followed.
use ocaml_core.Prelude.{
  ℕ, zero, suc, List, length, ◌≡◌, refl, true, false, Bool-cases, inl, inr, ◌==◌, if◌then◌else◌,
}
use ocaml_core.Endian.{ByteOrder}
use ocaml_core.Process.{
  Answer, Process, End, blocked, impossible, Tried, gave, erred, waits, unreal, Ends, eintr,
}
use ocaml_core.Process.Pipe.{report_errno_on_pipe}

-- What follows one attempt: the rest of the code, another attempt, or the report of the error.
abbrev pub on_tried :
    (List Answer → Process → End)
    → (ℕ → List Answer → Process → End)
    → (ℕ → List Answer → Process → End)
    → Tried
    → End
on_tried again report next (gave n ans p) = next n ans p
on_tried again report next (erred e ans p) = if e == eintr then again ans p else report e ans p
on_tried again report next (waits p) = (blocked, p)
on_tried again report next (unreal p) = (impossible, p)

module _ (host : ByteOrder) (pipe_write : ℕ) (attempt : List Answer → Process → Tried) where
  pub retry : ℕ → List Answer → Process → (ℕ → List Answer → Process → End) → End
  retry zero ans p next = (blocked, p)
  retry (suc fuel) ans p next =
      on_tried (λ ans' p'. retry fuel ans' p' next) (report_errno_on_pipe host pipe_write) next
        (attempt ans p)

  -- Each attempt takes an answer, so that there are no more of them than answers.
  abbrev pub syscall : List Answer → Process → (ℕ → List Answer → Process → End) → End
  syscall ans p next = retry (suc (length ans)) ans p next

-- An attempt that succeeds is the last.
pub syscall_gave :
    (host : ByteOrder) (pipe_write : ℕ) (attempt : List Answer → Process → Tried) (n : ℕ)
    (ans ans' : List Answer) (p p' : Process) (next : ℕ → List Answer → Process → End)
    → attempt ans p ≡ gave n ans' p'
    → syscall host pipe_write attempt ans p next ≡ next n ans' p'
unfolding retry
syscall_gave host pipe_write attempt n ans ans' p p' next h = rw h refl

-- `I` holds between two attempts, `R` after one that succeeds, and `F` after one that fails for good.
abbrev pub OnTried :
    (List Answer → Process → Type 0)
    → (ℕ → List Answer → Process → Type 0)
    → (ℕ → Process → Type 0)
    → Tried
    → Type 0
OnTried I R F (gave n ans p) = R n ans p
OnTried I R F (erred e ans p) = ((e == eintr) ≡ true → I ans p) × ((e == eintr) ≡ false → F e p)
OnTried I R F (waits p) = Unit {0}
OnTried I R F (unreal p) = Unit {0}

-- How a run of SYSCALL ends: the rest of the code runs, or the error is reported.
module _ (host : ByteOrder) (pipe_write : ℕ) (attempt : List Answer → Process → Tried)
    (I : List Answer → Process → Type 0) (R : ℕ → List Answer → Process → Type 0)
    (F : ℕ → Process → Type 0) (Q X : Process → Type 0)
    (tries : (ans : List Answer) (p : Process) → I ans p → OnTried I R F (attempt ans p))
    (reports : (e : ℕ) (ans : List Answer) (p : Process)
      → F e p
      → Ends Q X (report_errno_on_pipe host pipe_write e ans p)) where
  pub on_tried-Ends :
      (again : List Answer → Process → End) (next : ℕ → List Answer → Process → End)
      → ((ans : List Answer) (p : Process) → I ans p → Ends Q X (again ans p))
      → ((n : ℕ) (ans : List Answer) (p : Process) → R n ans p → Ends Q X (next n ans p))
      → (t : Tried) → OnTried I R F t
      → Ends Q X (on_tried again (report_errno_on_pipe host pipe_write) next t)
  on_tried-Ends again next ha hn (gave n ans p) h = hn n ans p h
  on_tried-Ends again next ha hn (erred e ans p) (intr, final) = elim (Bool-cases (e == eintr)) [
    | inl same ↦ rw same (ha ans p (intr same))
    | inr other ↦ rw other (reports e ans p (final other))
  ]
  on_tried-Ends again next ha hn (waits p) h = tt
  on_tried-Ends again next ha hn (unreal p) h = tt

  pub retry-Ends :
      (next : ℕ → List Answer → Process → End)
      → ((n : ℕ) (ans : List Answer) (p : Process) → R n ans p → Ends Q X (next n ans p))
      → (fuel : ℕ) (ans : List Answer) (p : Process) → I ans p
      → Ends Q X (retry host pipe_write attempt fuel ans p next)
  unfolding retry
  retry-Ends next hn zero ans p h = tt
  retry-Ends next hn (suc fuel) ans p h =
      on_tried-Ends (λ ans' p'. retry host pipe_write attempt fuel ans' p' next) next
        (λ ans' p' h'. retry-Ends next hn fuel ans' p' h') hn (attempt ans p) (tries ans p h)
