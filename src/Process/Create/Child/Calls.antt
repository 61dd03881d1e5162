-- ===== src/Process/Create/Child/Calls.antt =====
-- The calls of the child of ml_create_process in base/core/lib/unix_stubs.c, each with the table of
-- descriptors that it leaves.
use ocaml_core.Prelude.{
  ℕ, ◌≡◌, sym, ap, ◌∙◌, List, [], ◌∷◌, Option, Option-cases, none, some, Bool-cases, inl, inr, ◌⊎◌,
  true, ◌==◌, arith,
}
use mathlib.Core.Path.{fun_ext}
use ocaml_core.Process.{
  Answer, done, fails, Descriptor, Fds, Process, Text, Tried, gave, erred, waits, unreal, End, Ends,
  call, eintr, ebadf, set, copied, copy_to, release,
}
use ocaml_core.Process.Spawn.{Code}
use ocaml_core.Process.Spawn.Stages.{copy_to-some}
use ocaml_core.Process.Create.{dup, is_lowest, safe_close, safe_close_idem, ignoring_ebadf}
use ocaml_core.Process.Create.Child.{on_result, or_exit, closes}

pub record At (fds : Fds) (cwd : Text) (p : Process) : Type 0 where
  pub fds_are : p.fds ≡ fds
  pub cwd_is : p.cwd ≡ cwd

-- `Q` holds of a child that executes the program.
module _ (Q : Process → Type 0) where
  abbrev pub Executes : End → Type 0
  Executes = Ends Q (λ p. Unit {0})

  pub any_result :
      (next : Option ℕ → Code)
      → ((o : Option ℕ) (ans : List Answer) (p : Process) → Executes (next o ans p))
      → (t : Tried) → Executes (on_result t next)
  any_result next h (gave n ans p) = h (some n) ans p
  any_result next h (erred e ans p) = h none ans p
  any_result next h (waits p) = tt
  any_result next h (unreal p) = tt

  module _ (fds : Fds) (cwd : Text) where
    -- A call whose failure ends the child.
    pub or_exit-Executes :
        (R : Process → Type 0) (effect : ℕ → Process → Option Process) (report : Process → Process)
        (next : Code)
        → ((n : ℕ) (p p' : Process) → At fds cwd p → effect n p ≡ some p' → R p')
        → ((ans : List Answer) (p : Process) → R p → Executes (next ans p))
        → (ans : List Answer) (p : Process) → At fds cwd p
        → Executes (or_exit report (call effect ans p) next)
    or_exit-Executes R effect report next step hn [] p h = tt
    or_exit-Executes R effect report next step hn (fails e ∷ ans) p h = tt
    or_exit-Executes R effect report next step hn (done n ∷ ans) p h =
        elim (Option-cases (effect n p)) [
          | inl not_given ↦ rw not_given tt
          | inr (p', given) ↦ rw given (hn ans p' (step n p p' h given))
        ]

    set-At :
        (n : ℕ) (o : Option Descriptor) (p : Process)
        → At fds cwd p
        → At (set n o fds) cwd (record p { fds = set n o p.fds })
    set-At n o p h = record { fds_are = ap (λ (t : Fds). set n o t) h.fds_are; cwd_is = h.cwd_is }

    pub copied-At :
        (fd n : ℕ) (p p' : Process)
        → At fds cwd p
        → copy_to n (p.fds fd) p ≡ some p'
        → At (set n (copied (fds fd)) fds) cwd p'
    copied-At fd n p p' h made = rw (copy_to-some n (p.fds fd) p p' made).1 (record {
      fds_are = ap (λ (t : Fds). set n (copied (t fd)) t) h.fds_are;
      cwd_is = h.cwd_is;
    })

    -- `dup` allocates the lowest descriptor, or gives -1.
    pub dup-Executes :
        (fd : ℕ) (next : Option ℕ → Code)
        → ((n : ℕ) (ans : List Answer) (p : Process)
            → is_lowest n fds ≡ true
            → At (set n (copied (fds fd)) fds) cwd p
            → Executes (next (some n) ans p))
        → ((ans : List Answer) (p : Process) → Executes (next none ans p))
        → (ans : List Answer) (p : Process) → At fds cwd p
        → Executes (on_result (call (dup fd) ans p) next)
    dup-Executes fd next hn ho [] p h = tt
    dup-Executes fd next hn ho (fails e ∷ ans) p h = ho ans p
    dup-Executes fd next hn ho (done n ∷ ans) p h = elim (Bool-cases (is_lowest n p.fds)) [
      | inr high ↦ rw high tt
      | inl low ↦ elim (Option-cases (copy_to n (p.fds fd) p)) [
        | inl not_given ↦ rw (low, not_given) tt
        | inr (p', given) ↦
            rw (low, given)
              (hn n ans p' (sym (ap (λ (t : Fds). is_lowest n t) h.fds_are) ∙ low)
                (copied-At fd n p p' h given))
      ]
    ]

    -- Whatever `safe_close` returns, the descriptor is free.
    abbrev pub Closing : ℕ → Process → Type 0
    Closing fd p = At fds cwd p ⊎ At (set fd none fds) cwd p

    released : (fd : ℕ) (p : Process) → Closing fd p → At (set fd none fds) cwd (release fd p)
    released fd p (inl h) = set-At fd none p h
    released fd p (inr h) = record {
      fds_are = rw h.fds_are (fun_ext (λ m. ground arith));
      cwd_is = h.cwd_is;
    }

    abbrev pub Closed : ℕ → Tried → Type 0
    Closed fd (gave n ans p) = At (set fd none fds) cwd p
    Closed fd (erred e ans p) = At (set fd none fds) cwd p
    Closed fd (waits p) = Unit {0}
    Closed fd (unreal p) = Unit {0}

    pub safe_close-Closed :
        (fd : ℕ) (ans : List Answer) (p : Process) → Closing fd p → Closed fd (safe_close fd ans p)
    unfolding safe_close
    safe_close-Closed fd [] p h = tt
    safe_close-Closed fd (done n ∷ ans) p h = released fd p h
    safe_close-Closed fd (fails e ∷ ans) p h = elim (Bool-cases (e == eintr)) [
      | inl intr ↦ rw intr (safe_close-Closed fd ans (release fd p) (inr (released fd p h)))
      | inr other ↦ rw other (released fd p h)
    ]

    Closed-Executes :
        (fd : ℕ) (next : Code)
        → ((ans : List Answer) (p : Process) → At (set fd none fds) cwd p → Executes (next ans p))
        → (t : Tried) → Closed fd t
        → Executes (on_result t (λ ret. next))
    Closed-Executes fd next hn (gave n ans p) h = hn ans p h
    Closed-Executes fd next hn (erred e ans p) h = hn ans p h
    Closed-Executes fd next hn (waits p) h = tt
    Closed-Executes fd next hn (unreal p) h = tt

    pub closes-Executes :
        (fd : ℕ) (next : Code)
        → ((ans : List Answer) (p : Process) → At (set fd none fds) cwd p → Executes (next ans p))
        → (ans : List Answer) (p : Process) → At fds cwd p
        → Executes (closes fd next ans p)
    closes-Executes fd next hn ans p h =
        Closed-Executes fd next hn (safe_close fd ans p) (safe_close-Closed fd ans p (inl h))

    idem-Executes :
        (fd : ℕ) (report : Process → Process) (next : Code)
        → ((ans : List Answer) (p : Process) → At (set fd none fds) cwd p → Executes (next ans p))
        → (t : Tried) → Closed fd t
        → Executes (or_exit report (ignoring_ebadf t) next)
    idem-Executes fd report next hn (gave n ans p) h = hn ans p h
    idem-Executes fd report next hn (erred e ans p) h = elim (Bool-cases (e == ebadf)) [
      | inl closed_before ↦ rw closed_before (hn ans p h)
      | inr other ↦ rw other tt
    ]
    idem-Executes fd report next hn (waits p) h = tt
    idem-Executes fd report next hn (unreal p) h = tt

    pub safe_close_idem-Executes :
        (fd : ℕ) (report : Process → Process) (next : Code)
        → ((ans : List Answer) (p : Process) → At (set fd none fds) cwd p → Executes (next ans p))
        → (ans : List Answer) (p : Process) → At fds cwd p
        → Executes (or_exit report (safe_close_idem fd ans p) next)
    safe_close_idem-Executes fd report next hn ans p h =
        idem-Executes fd report next hn (safe_close fd ans p) (safe_close-Closed fd ans p (inl h))
