-- ===== src/Process/Spawn/Stages.antt =====
-- One step of the forked side of extended_ml_spawn of base/core/extended/lib/fork_exec.c: what holds
-- between two calls, and where a call has failed.
pub mod Calls
use ocaml_core.Prelude.{
  ℕ, zero, suc, ◌+◌, ◌^◌, ◌≤◌, ◌<◌, ◌≡◌, refl, sym, ap, ◌∙◌, ◌⊎◌, inl, inr, List, [], ◌∷◌, ◌++◌,
  length, Option, none, some, Option-cases, Bool, Bool-cases, true, false, ◌&&◌, bit_and, leb, ◌==◌,
  if◌then◌else◌, arith,
}
use mathlib.Core.Path.{fun_ext}
use ocaml_core.Endian.{ByteOrder, native_bytes}
use ocaml_core.Process.{
  Answer, done, fails, Descriptor, Fds, Process, Text, Tried, gave, erred, waits, unreal, End, Ends,
  call, on_effect, set, dupfd, dup2, close, release, eintr, copy_to, copied, is_free,
}
use ocaml_core.Process.Pipe.{report_errno_on_pipe}
use ocaml_core.Process.Pipe.Reports.{Reported-Ends, report_errno_on_pipe-Reported}
use ocaml_core.Process.Retry.{retry, syscall, on_tried, OnTried, retry-Ends, on_tried-Ends}
use ocaml_core.Process.Spawn.{set_cloexec, getfd, syscall_dupfd, no_descriptor}

-- The first error that is no interruption.
abbrev pub first_error : List Answer → Option ℕ
first_error [] = none
first_error (done n ∷ ans) = first_error ans
first_error (fails e ∷ ans) = if e == eintr then first_error ans else some e

pub copy_to-some :
    (n : ℕ) (o : Option Descriptor) (p p' : Process)
    → copy_to n o p ≡ some p'
    → (is_free o ≡ false) × (p' ≡ record p { fds = set n (copied o) p.fds })
copy_to-some n none p p' h = cc
copy_to-some n (some d) p p' h = (refl, cc)

pub dupfd-some :
    (fd low n : ℕ) (p p' : Process)
    → dupfd fd low n p ≡ some p'
    → (low ≤ n)
      × (p.fds n ≡ none)
      × (is_free (p.fds fd) ≡ false)
      × (p' ≡ record p { fds = set n (copied (p.fds fd)) p.fds })
dupfd-some fd low n p p' h = elim (Bool-cases (leb low n && is_free (p.fds n))) [
  | inl free ↦
      let made : copy_to n (p.fds fd) p ≡ some p' = sym (rw free refl) ∙ h in
      let (is_open, same) = copy_to-some n (p.fds fd) p p' made in
      (ground (arith, free), ground (arith, free), is_open, same)
  | inr other ↦
      let refused : ◌≡◌ {A = Option Process} none (some p') = sym (rw other refl) ∙ h in cc
]

-- What does not change: the error pipe, what the files held, and the errno that is to be reported.
pub record Setting : Type 0 where
  pub host : ByteOrder
  pub pipe_write : ℕ
  pub error : Option ℕ
  pub files : ℕ → List ℕ
  pub write_end : Descriptor

module _ (s : Setting) where
  -- The state between two calls; `pipe` says that the s.error pipe is still open.
  pub record Stage (fds : Fds) (uid gid : ℕ) (cwd : Text) (ans : List Answer) (p : Process)
      : Type 0 where
    pub fds_are : p.fds ≡ fds
    pub uid_is : p.uid ≡ uid
    pub gid_is : p.gid ≡ gid
    pub cwd_is : p.cwd ≡ cwd
    pub files_are : p.files ≡ s.files
    pub error_is : first_error ans ≡ s.error
    pub pipe : fds s.pipe_write ≡ some s.write_end

  -- The state in which a call has failed with `e`.
  pub record Failing (e : ℕ) (p : Process) : Type 0 where
    pub error_is : some e ≡ s.error
    pub files_are : p.files ≡ s.files
    pub pipe : p.fds s.pipe_write ≡ some s.write_end

  -- What `e` leaves in the pipe.
  abbrev pub IsReport : ℕ → Process → Type 0
  IsReport e p = p.files s.write_end.file ≡ native_bytes s.host 4 e

  module _ (fds : Fds) (uid gid : ℕ) (cwd : Text) where
    pub interrupted :
        (e : ℕ) (ans : List Answer) (p : Process)
        → Stage fds uid gid cwd (fails e ∷ ans) p
        → (e == eintr) ≡ true
        → Stage fds uid gid cwd ans p
    interrupted e ans p h intr = record {
      fds_are = h.fds_are;
      uid_is = h.uid_is;
      gid_is = h.gid_is;
      cwd_is = h.cwd_is;
      files_are = h.files_are;
      error_is = sym (rw intr refl) ∙ h.error_is;
      pipe = h.pipe;
    }

    pub failing :
        (e : ℕ) (ans : List Answer) (p : Process)
        → Stage fds uid gid cwd (fails e ∷ ans) p
        → (e == eintr) ≡ false
        → Failing e p
    failing e ans p h final = record {
      error_is = sym (rw final refl) ∙ h.error_is;
      files_are = h.files_are;
      pipe = rw h.fds_are h.pipe;
    }

    pub passed :
        (n : ℕ) (ans : List Answer) (p : Process)
        → Stage fds uid gid cwd (done n ∷ ans) p
        → Stage fds uid gid cwd ans p
    passed n ans p h = record {
      fds_are = h.fds_are;
      uid_is = h.uid_is;
      gid_is = h.gid_is;
      cwd_is = h.cwd_is;
      files_are = h.files_are;
      error_is = h.error_is;
      pipe = h.pipe;
    }

    pub call-OnTried :
        (effect : ℕ → Process → Option Process) (R : ℕ → List Answer → Process → Type 0)
        → ((n : ℕ) (ans : List Answer) (p p' : Process)
            → Stage fds uid gid cwd ans p
            → effect n p ≡ some p'
            → R n ans p')
        → (ans : List Answer) (p : Process) → Stage fds uid gid cwd ans p
        → OnTried (Stage fds uid gid cwd) R Failing (call effect ans p)
    call-OnTried effect R step [] p h = tt
    call-OnTried effect R step (fails e ∷ ans) p h = (interrupted e ans p h, failing e ans p h)
    call-OnTried effect R step (done n ∷ ans) p h = elim (Option-cases (effect n p)) [
      | inl none_left ↦ rw none_left tt
      | inr (p', same) ↦ rw same (step n ans p p' (passed n ans p h) same)
    ]
