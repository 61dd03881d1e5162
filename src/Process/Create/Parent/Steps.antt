-- ===== src/Process/Create/Parent/Steps.antt =====
-- The calls of safe_close and close_on_exec in the parent's side of ml_create_process, in
-- base/core/lib/unix_stubs.c.
use ocaml_core.Prelude.{
  ℕ, ◌≡◌, refl, sym, ap, ◌∙◌, List, [], ◌∷◌, Option, Option-cases, none, some, Bool-cases, inl, inr,
  bit_or, ◌==◌, arith,
}
use mathlib.Core.Path.{subst}
use ocaml_core.Process.{
  Answer, done, fails, Descriptor, Fds, Process, Tried, gave, erred, waits, unreal, call,
  fd_cloexec, set,
}
use ocaml_core.Process.Spawn.{getfd, setfd, flagged}
use ocaml_core.Process.Create.{safe_close, Pipe}
use ocaml_core.Process.Create.Child.{Request}
use ocaml_core.Process.Create.Child.Calls.{At, Closed, safe_close-Closed}
use ocaml_core.Process.Create.Parent.{Calls, Code, ignoring, closes, or_raise, close_on_exec}
use ocaml_core.Process.Create.Parent.Outcome.{marked, IsClean}

abbrev pub with_pipe_fds : Pipe → Fds → Fds
with_pipe_fds q fds =
    set q.write_end (some (record { file = q.out_file; flags = 0 }))
      (set q.read_end (some (record { file = q.in_file; flags = 0 })) fds)

module _ (cs : Calls) (r : Request) (p0 : Process) where
  module _ (t : Fds) where
    pub closes-IsClean :
        (fd : ℕ) (next : Code)
        → ((ans : List Answer) (p : Process)
            → At (set fd none t) p0.cwd p
            → IsClean cs r p0 (next ans p))
        → (ans : List Answer) (p : Process) → At t p0.cwd p
        → IsClean cs r p0 (closes fd next ans p)
    closes-IsClean fd next hn ans p h =
        go (safe_close fd ans p) (safe_close-Closed (λ q. Unit {0}) t p0.cwd fd ans p (inl h))
      where
        go : (x : Tried) → Closed (λ q. Unit {0}) t p0.cwd fd x → IsClean cs r p0 (ignoring x next)
        go (gave n a q) hq = hn a q hq
        go (erred e a q) hq = hn a q hq
        go (waits q) hq = tt
        go (unreal q) hq = tt

    or_raise-IsClean :
        (effect : ℕ → Process → Option Process) (p : Process) (R : ℕ → Process → Type 0)
        (next : ℕ → Code)
        → ((n : ℕ) (p' : Process) → effect n p ≡ some p' → R n p')
        → ((n : ℕ) (ans : List Answer) (p' : Process) → R n p' → IsClean cs r p0 (next n ans p'))
        → (ans : List Answer) → IsClean cs r p0 (or_raise (call effect ans p) next)
    or_raise-IsClean effect p R next step hn [] = tt
    or_raise-IsClean effect p R next step hn (fails e ∷ ans) = tt
    or_raise-IsClean effect p R next step hn (done n ∷ ans) = elim (Option-cases (effect n p)) [
      | inl not_given ↦ rw not_given tt
      | inr (p', given) ↦ rw given (hn n ans p' (step n p' given))
    ]

    getfd-some :
        (fd file n : ℕ) (p p' : Process)
        → p.fds fd ≡ some (record { file = file; flags = 0 })
        → getfd fd n p ≡ some p'
        → (n ≡ 0) × (p' ≡ p)
    getfd-some fd file n p p' is_open given = elim (Bool-cases (0 == n)) [
      | inl zero_flags ↦
          let same : getfd fd n p ≡ some p = rw (is_open, zero_flags) refl in
          (ground (arith, zero_flags), cc)
      | inr other ↦ let not_given : getfd fd n p ≡ none = rw (is_open, other) refl in cc
    ]

    marked-At :
        (fd file n flags : ℕ) (p p' : Process)
        → t fd ≡ some (record { file = file; flags = 0 })
        → At t p0.cwd p
        → flags ≡ 0
        → setfd fd (bit_or flags fd_cloexec) n p ≡ some p'
        → At (set fd (marked file) t) p0.cwd p'
    marked-At fd file n flags p p' is_open h no_flags given =
        let same : p'
            ≡ record p { fds = set fd (flagged (bit_or flags fd_cloexec) (p.fds fd)) p.fds } =
          cc in
        rw same (record {
          fds_are =
              ap (λ (u : Fds). set fd (flagged (bit_or flags fd_cloexec) (u fd)) u) h.fds_are
              ∙ ap (λ (o : Option Descriptor). set fd (flagged (bit_or flags fd_cloexec) o) t)
                  is_open
              ∙ ap
                  (λ (k : ℕ). set fd (some (record { file = file; flags = bit_or k fd_cloexec })) t)
                  no_flags;
          cwd_is = h.cwd_is;
        })

    pub close_on_exec-IsClean :
        (fd file : ℕ) (next : Code)
        → t fd ≡ some (record { file = file; flags = 0 })
        → ((ans : List Answer) (p : Process)
            → At (set fd (marked file) t) p0.cwd p
            → IsClean cs r p0 (next ans p))
        → (ans : List Answer) (p : Process) → At t p0.cwd p
        → IsClean cs r p0 (close_on_exec fd next ans p)
    unfolding close_on_exec
    close_on_exec-IsClean fd file next is_open hn ans p h =
        or_raise-IsClean (getfd fd) p (λ n p'. (n ≡ 0) × (p' ≡ p)) _
          (λ n p' given.
            getfd-some fd file n p p' (ap (λ (u : Fds). u fd) h.fds_are ∙ is_open) given)
          (λ flags ans' p' h'.
            or_raise-IsClean (setfd fd (bit_or flags fd_cloexec)) p'
              (λ n q. At (set fd (marked file) t) p0.cwd q) _
              (λ n q given.
                marked-At fd file n flags p' q is_open (subst (λ x. At t p0.cwd x) (sym h'.1) h)
                  h'.0 given)
              (λ n ans'' q hq. hn ans'' q hq) ans')
          ans
