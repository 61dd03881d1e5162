-- ===== src/Process/Spawn/Stages/Calls.antt =====
-- The calls under SYSCALL of extended_ml_spawn in base/core/extended/lib/fork_exec.c: the stage that each
-- leaves, and what it reports where it fails.
use ocaml_core.Prelude.{
  ℕ, zero, suc, ◌≤◌, ◌≡◌, refl, sym, ap, ◌∙◌, ◌⊎◌, inl, inr, List, [], ◌∷◌, length, Option, none,
  some, false, ◌==◌, arith,
}
use mathlib.Core.Path.{fun_ext}
use ocaml_core.Endian.{native_bytes}
use ocaml_core.Process.{
  Answer, done, fails, Descriptor, Fds, Process, Text, End, Ends, call, set, dupfd, dup2, close,
  release, copied, is_free,
}
use ocaml_core.Process.Pipe.{report_errno_on_pipe}
use ocaml_core.Process.Pipe.Reports.{Reported-Ends, report_errno_on_pipe-Reported}
use ocaml_core.Process.Retry.{syscall, OnTried, retry-Ends, on_tried-Ends}
use ocaml_core.Process.Spawn.{set_cloexec, syscall_dupfd, no_descriptor}
use ocaml_core.Process.Spawn.Stages.{
  Setting, Stage, Failing, IsReport, copy_to-some, dupfd-some, interrupted, failing, passed,
  call-OnTried,
}

module _ (s : Setting) where
  module _ (Q X : Process → Type 0) (empty : s.files s.write_end.file ≡ [])
      (reported : (e : ℕ) (p : Process) → some e ≡ s.error → IsReport s e p → X p) where
    pub reports :
        (e : ℕ) (ans : List Answer) (p : Process)
        → Failing s e p
        → Ends Q X (report_errno_on_pipe s.host s.pipe_write e ans p)
    reports e ans p h =
        Reported-Ends Q X s.write_end.file (native_bytes s.host 4 e) p
          (report_errno_on_pipe s.host s.pipe_write e ans p)
          (λ p' written. reported e p' h.error_is (written ∙ rw (h.files_are, empty) refl))
          (report_errno_on_pipe-Reported s.host s.pipe_write e ans p s.write_end h.pipe)

    module _ (fds : Fds) (uid gid : ℕ) (cwd : Text) where
      -- The stage after the descriptor `n` was set to `o`.
      set-Stage :
          (n : ℕ) (o : Option Descriptor) (ans : List Answer) (p : Process) (now : Fds)
          → now ≡ set n o fds
          → set n o fds s.pipe_write ≡ some s.write_end
          → Stage s fds uid gid cwd ans p
          → Stage s (set n o fds) uid gid cwd ans (record p { fds = now })
      set-Stage n o ans p now same still h = record {
        fds_are = same;
        uid_is = h.uid_is;
        gid_is = h.gid_is;
        cwd_is = h.cwd_is;
        files_are = h.files_are;
        error_is = h.error_is;
        pipe = still;
      }

      -- A descriptor that was free, and is now a copy of `fd`.
      pub record Duped (fd n : ℕ) (ans : List Answer) (p : Process) : Type 0 where
        pub not_low : 3 ≤ n
        pub was_free : fds n ≡ none
        pub was_open : is_free (fds fd) ≡ false
        pub stage : Stage s (set n (copied (fds fd)) fds) uid gid cwd ans p

      dupfd_step :
          (fd n : ℕ) (ans : List Answer) (p p' : Process)
          → Stage s fds uid gid cwd ans p
          → dupfd fd 3 n p ≡ some p'
          → Duped fd n ans p'
      dupfd_step fd n ans p p' h made =
          let (low, free, is_open, same) = dupfd-some fd 3 n p p' made in
          let free' : fds n ≡ none = sym (ap (λ (f : Fds). f n) h.fds_are) ∙ free in
          rw same (record {
            not_low = low;
            was_free = free';
            was_open = sym (ap (λ (f : Fds). is_free (f fd)) h.fds_are) ∙ is_open;
            stage =
                set-Stage n (copied (fds fd)) ans p (set n (copied (p.fds fd)) p.fds)
                  (rw h.fds_are refl) (ground (arith, free', h.pipe)) h;
          })

      dup2_step :
          (fd n answer : ℕ) (ans : List Answer) (p p' : Process)
          → (s.pipe_write == n) ≡ false
          → Stage s fds uid gid cwd ans p
          → dup2 fd n answer p ≡ some p'
          → Stage s (set n (copied (fds fd)) fds) uid gid cwd ans p'
      dup2_step fd n answer ans p p' other h made = rw (copy_to-some n (p.fds fd) p p' made).1 (
          set-Stage n (copied (fds fd)) ans p (set n (copied (p.fds fd)) p.fds) (rw h.fds_are refl)
            (rw other h.pipe) h)

      pub syscall_dupfd-Ends :
          (fd : ℕ) (next : ℕ → List Answer → Process → End)
          → ((n : ℕ) (ans : List Answer) (p : Process) → Duped fd n ans p → Ends Q X (next n ans p))
          → (ans : List Answer) (p : Process) → Stage s fds uid gid cwd ans p
          → Ends Q X (syscall_dupfd s.host s.pipe_write fd ans p next)
      syscall_dupfd-Ends fd next hn ans p h =
          on_tried-Ends s.host s.pipe_write (call (dupfd fd 3)) (Stage s fds uid gid cwd) (Duped fd)
            (Failing s) Q X (call-OnTried s fds uid gid cwd (dupfd fd 3) (Duped fd) (dupfd_step fd))
            reports (λ ans' p'. syscall s.host s.pipe_write (call no_descriptor) ans' p' next) next
            (λ ans' p' h'.
              retry-Ends s.host s.pipe_write (call no_descriptor) (Stage s fds uid gid cwd)
                (Duped fd) (Failing s) Q X
                (call-OnTried s fds uid gid cwd no_descriptor (Duped fd) (λ n' a q q' hq e. cc))
                reports next hn (suc (length ans')) ans' p' h')
            hn (call (dupfd fd 3) ans p)
            (call-OnTried s fds uid gid cwd (dupfd fd 3) (Duped fd) (dupfd_step fd) ans p h)

      -- A call that moves one stage to another.
      pub syscall-Ends :
          (effect : ℕ → Process → Option Process) (fds' : Fds) (uid' gid' : ℕ) (cwd' : Text)
          → ((n : ℕ) (ans : List Answer) (p p' : Process)
              → Stage s fds uid gid cwd ans p
              → effect n p ≡ some p'
              → Stage s fds' uid' gid' cwd' ans p')
          → (next : ℕ → List Answer → Process → End)
          → ((n : ℕ) (ans : List Answer) (p : Process)
              → Stage s fds' uid' gid' cwd' ans p
              → Ends Q X (next n ans p))
          → (ans : List Answer) (p : Process) → Stage s fds uid gid cwd ans p
          → Ends Q X (syscall s.host s.pipe_write (call effect) ans p next)
      syscall-Ends effect fds' uid' gid' cwd' step next hn ans p h =
          retry-Ends s.host s.pipe_write (call effect) (Stage s fds uid gid cwd)
            (λ n. Stage s fds' uid' gid' cwd') (Failing s) Q X
            (call-OnTried s fds uid gid cwd effect (λ n. Stage s fds' uid' gid' cwd') step) reports
            next hn (suc (length ans)) ans p h

      pub syscall_dup2-Ends :
          (fd n : ℕ) (next : ℕ → List Answer → Process → End)
          → (s.pipe_write == n) ≡ false
          → ((m : ℕ) (ans : List Answer) (p : Process)
              → Stage s (set n (copied (fds fd)) fds) uid gid cwd ans p
              → Ends Q X (next m ans p))
          → (ans : List Answer) (p : Process) → Stage s fds uid gid cwd ans p
          → Ends Q X (syscall s.host s.pipe_write (call (dup2 fd n)) ans p next)
      syscall_dup2-Ends fd n next other =
          syscall-Ends (dup2 fd n) (set n (copied (fds fd)) fds) uid gid cwd
            (λ m ans p p' h made. dup2_step fd n m ans p p' other h made) next

      -- A copy has no flag to clear.
      cloexec-OnTried :
          (fd file : ℕ) (ans : List Answer) (p : Process)
          → fds fd ≡ some (record { file = file; flags = 0 })
          → Stage s fds uid gid cwd ans p
          → OnTried
              (Stage s fds uid gid cwd)
              (λ n. Stage s fds uid gid cwd)
              (Failing s)
              (set_cloexec fd false ans p)
      cloexec-OnTried fd file [] p copy h = tt
      cloexec-OnTried fd file (fails e ∷ ans) p copy h =
          (interrupted s fds uid gid cwd e ans p h, failing s fds uid gid cwd e ans p h)
      cloexec-OnTried fd file (done zero ∷ ans) p copy h =
          let same : p.fds fd ≡ some (record { file = file; flags = 0 }) =
            ap (λ (f : Fds). f fd) h.fds_are ∙ copy in
          rw same (passed s fds uid gid cwd 0 ans p h)
      cloexec-OnTried fd file (done (suc n) ∷ ans) p copy h =
          let same : p.fds fd ≡ some (record { file = file; flags = 0 }) =
            ap (λ (f : Fds). f fd) h.fds_are ∙ copy in
          let differs : (0 == suc n) ≡ false = ground arith in rw (same, differs) tt

      pub syscall_cloexec-Ends :
          (fd file : ℕ) (next : ℕ → List Answer → Process → End)
          → fds fd ≡ some (record { file = file; flags = 0 })
          → ((n : ℕ) (ans : List Answer) (p : Process)
              → Stage s fds uid gid cwd ans p
              → Ends Q X (next n ans p))
          → (ans : List Answer) (p : Process) → Stage s fds uid gid cwd ans p
          → Ends Q X (syscall s.host s.pipe_write (set_cloexec fd false) ans p next)
      syscall_cloexec-Ends fd file next copy hn ans p h =
          retry-Ends s.host s.pipe_write (set_cloexec fd false) (Stage s fds uid gid cwd)
            (λ n. Stage s fds uid gid cwd) (Failing s) Q X
            (λ ans' p' h'. cloexec-OnTried fd file ans' p' copy h') reports next hn
            (suc (length ans)) ans p h

      -- Whatever `close` returns, the descriptor is free.
      abbrev Closing : ℕ → List Answer → Process → Type 0
      Closing fd ans p = Stage s fds uid gid cwd ans p ⊎ Stage s (set fd none fds) uid gid cwd ans p

      released :
          (fd : ℕ) (ans : List Answer) (p : Process)
          → (s.pipe_write == fd) ≡ false
          → Closing fd ans p
          → Stage s (set fd none fds) uid gid cwd ans (release fd p)
      released fd ans p other (inl h) =
          set-Stage fd none ans p (set fd none p.fds) (rw h.fds_are refl) (rw other h.pipe) h
      released fd ans p other (inr h) = record {
        fds_are = rw h.fds_are (fun_ext (λ m. ground arith));
        uid_is = h.uid_is;
        gid_is = h.gid_is;
        cwd_is = h.cwd_is;
        files_are = h.files_are;
        error_is = h.error_is;
        pipe = h.pipe;
      }

      close-OnTried :
          (fd : ℕ)
          → (s.pipe_write == fd) ≡ false
          → (ans : List Answer) (p : Process) → Closing fd ans p
          → OnTried
              (Closing fd)
              (λ n. Stage s (set fd none fds) uid gid cwd)
              (Failing s)
              (close fd ans p)
      close-OnTried fd other [] p h = tt
      close-OnTried fd other (fails e ∷ ans) p h =
          let h' = released fd (fails e ∷ ans) p other h in
          (
            λ intr. inr (interrupted s (set fd none fds) uid gid cwd e ans (release fd p) h' intr),
            λ final. failing s (set fd none fds) uid gid cwd e ans (release fd p) h' final,
          )
      close-OnTried fd other (done n ∷ ans) p h =
          passed s (set fd none fds) uid gid cwd n ans (release fd p)
            (released fd (done n ∷ ans) p other h)

      pub syscall_close-Ends :
          (fd : ℕ) (next : ℕ → List Answer → Process → End)
          → (s.pipe_write == fd) ≡ false
          → ((n : ℕ) (ans : List Answer) (p : Process)
              → Stage s (set fd none fds) uid gid cwd ans p
              → Ends Q X (next n ans p))
          → (ans : List Answer) (p : Process) → Stage s fds uid gid cwd ans p
          → Ends Q X (syscall s.host s.pipe_write (close fd) ans p next)
      syscall_close-Ends fd next other hn ans p h =
          retry-Ends s.host s.pipe_write (close fd) (Closing fd)
            (λ n. Stage s (set fd none fds) uid gid cwd) (Failing s) Q X (close-OnTried fd other)
            reports next hn (suc (length ans)) ans p (inl h)
