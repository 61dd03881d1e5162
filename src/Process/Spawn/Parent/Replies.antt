-- ===== src/Process/Spawn/Parent/Replies.antt =====
-- What extended_ml_spawn of base/core/extended/lib/fork_exec.c answers, and what it leaves in the parent.
use ocaml_core.Prelude.{
  ℕ, ◌^◌, ◌≤◌, ◌<◌, ◌≡◌, refl, ap, ◌∙◌, ◌⊎◌, inl, inr, List, [], ◌∷◌, none, some, true, false, ◌==◌,
  arith,
}
use mathlib.Core.Path.{fun_ext}
use ocaml_core.Endian.{ByteOrder}
use ocaml_core.Process.{
  Answer, done, fails, Process, Fds, End, Ends, executed, exited, blocked, impossible, eintr, gave,
  set, is_free, eperm, release, inherited, piped, open_pipe,
}
use ocaml_core.Process.Pipe.Reports.{progress}
use ocaml_core.Process.Pipe.RoundTrip.{IsReads, errno_from_pipe_none, errno_from_pipe-native_bytes}
use ocaml_core.Process.Spawn.{Request, flagged, set_cloexec, forked_side}
use ocaml_core.Process.Spawn.Stages.{first_error}
use ocaml_core.Process.Spawn.Outcome.{IsSpawned, IsFailed, allowed}
use ocaml_core.Process.Spawn.Forked.{forked_side-Ends}
use ocaml_core.Process.Spawn.Parent.{
  Calls, Reply, child_pid, raises, Parent, nonintr, nonintr_close, nonintr_waitpid, closing,
  reaping, ignored, on_child, on_forked, extended_ml_spawn,
}

-- A call that succeeds after some interruptions.
abbrev pub IsRetried : List Answer → Type 0
IsRetried [] = ⊥
IsRetried (done n ∷ ans) = Unit {0}
IsRetried (fails e ∷ ans) = (e ≡ eintr) × IsRetried ans

nonintr_lem :
    (failing effect : Parent → Parent)
    → ((w : Parent) → effect (failing w) ≡ effect w)
    → (ans : List Answer) → IsRetried ans
    → (w : Parent) (next : Parent → Reply × Parent)
    → nonintr failing effect ans w next ≡ next (effect w)
unfolding nonintr
nonintr_lem failing effect same [] h w next = elim h [ ]
nonintr_lem failing effect same (done n ∷ ans) h w next = refl
nonintr_lem failing effect same (fails e ∷ ans) (intr, h) w next =
    rw intr (nonintr_lem failing effect same ans h (failing w) next ∙ ap next (same w))

close_lem :
    (fd : ℕ) (ans : List Answer)
    → IsRetried ans
    → (w : Parent) (next : Parent → Reply × Parent)
    → nonintr_close fd ans w next ≡ next (closing fd w)
close_lem fd =
    nonintr_lem (closing fd) (closing fd)
      λ w. ap (λ (fds : Fds). (record w.0 { fds = fds }, w.1)) (fun_ext (λ m. ground arith))

wait_lem :
    (pid : ℕ) (ans : List Answer)
    → IsRetried ans
    → (w : Parent) (next : Parent → Reply × Parent)
    → nonintr_waitpid pid ans w next ≡ next (reaping pid w)
wait_lem pid = nonintr_lem (λ w. w) (reaping pid) (λ w. refl)

-- The pipe is new, and its ends are no standard descriptors of the program.
pub record IsPipe (rd wr out_file : ℕ) (p : Process) : Type 0 where
  pub free_rd : p.fds rd ≡ none
  pub free_wr : p.fds wr ≡ none
  pub differ : (rd == wr) ≡ false
  pub high : 3 ≤ wr
  pub empty : p.files out_file ≡ []

-- The parent's calls work, some of them after interruptions.
pub record IsServed (c : Calls) : Type 0 where
  pub cloexec_write : c.cloexec_write ≡ done 0 ∷ done 0 ∷ []
  pub cloexec_read : c.cloexec_read ≡ done 0 ∷ done 0 ∷ []
  pub close_write : IsRetried c.close_write
  pub close_read : IsRetried c.close_read
  pub wait : IsRetried c.wait
  pub reads : IsReads c.reads
  pub enough : 5 ≤ progress c.reads

-- The process that is forked: the ends of the pipe are marked close-on-exec.
abbrev pub forked : ℕ → ℕ → ℕ → ℕ → Process → Process
forked rd wr in_file out_file p = record p {
  fds = set rd (some (record { file = in_file; flags = 1 })) (
      set wr (some (record { file = out_file; flags = 1 }))
        (open_pipe rd wr in_file out_file p).fds);
}

-- The parent afterwards.
abbrev pub left : ℕ → ℕ → Process → Process
left rd wr p = release rd (release wr p)

left_lem :
    (rd wr in_file out_file out' : ℕ) (p : Process) (m : ℕ)
    → IsPipe rd wr out' p
    → (left rd wr (forked rd wr in_file out_file p)).fds m ≡ p.fds m
left_lem rd wr in_file out_file out' p m h = ground (arith, h)

eq_refl : (n : ℕ) → (n == n) ≡ true
eq_refl n = ground arith

cloexec_set :
    (fd file : ℕ) (p : Process)
    → p.fds fd ≡ some (record { file = file; flags = 0 })
    → set_cloexec fd true (done 0 ∷ done 0 ∷ []) p
      ≡ gave 0 [] (record p { fds = set fd (some (record { file = file; flags = 1 })) p.fds })
cloexec_set fd file p h =
    rw h (ap (λ o. gave 0 [] (record p { fds = set fd (flagged 1 o) p.fds })) h)

cloexec_lem :
    (c : Calls) (rd wr in_file out_file : ℕ) (p : Process) (next : Process → Reply × Parent)
    → IsServed c
    → IsPipe rd wr out_file p
    → ignored
        (set_cloexec wr true c.cloexec_write (open_pipe rd wr in_file out_file p))
        (λ p1. ignored (set_cloexec rd true c.cloexec_read p1) next)
      ≡ next (forked rd wr in_file out_file p)
cloexec_lem c rd wr in_file out_file p next h q =
    let p0 = open_pipe rd wr in_file out_file p in
    let wr_set = cloexec_set wr out_file p0 (rw (eq_refl wr) refl) in
    let p1 : Process = record p0 {
      fds = set wr (some (record { file = out_file; flags = 1 })) p0.fds;
    } in
    let rd_set = cloexec_set rd in_file p1 (rw (q.differ, eq_refl rd) refl) in
    rw (h.cloexec_write, h.cloexec_read, wr_set, rd_set) refl

-- Why a child reports `e`.
abbrev pub IsCause : Request → List Answer → ℕ → ℕ → Type 0
IsCause r answers uid e = (some e ≡ first_error answers) ⊎ ((e ≡ eperm) × (allowed r uid ≡ false))

IsCause-low :
    (r : Request) (answers : List Answer) (uid e : ℕ)
    → ((e' : ℕ) → some e' ≡ first_error answers → e' < 2 ^ 32)
    → IsCause r answers uid e
    → e < 2 ^ 32
IsCause-low r answers uid e low (inl same) = low e same
IsCause-low r answers uid e low (inr (same, not_allowed)) = omega (arith, same)

module _ (host : ByteOrder) (c : Calls) (r : Request) (rd wr in_file out_file pid : ℕ)
    (p : Process) where
  abbrev start : Process
  start = forked rd wr in_file out_file p

  -- The parent's side answers by what the child came to.
  abbrev pub IsAnswer : End → Reply × Parent → Type 0
  IsAnswer child answer =
      Ends (λ q. IsSpawned r start q × (answer ≡ (child_pid pid, (left rd wr start, []))))
        (λ q.
          (e : ℕ) × IsCause r c.child p.uid e × (answer ≡ (raises e, (left rd wr start, pid ∷ []))))
        child

  on_child-IsAnswer :
      IsServed c
      → IsPipe rd wr out_file p
      → ((e : ℕ) → some e ≡ first_error c.child → e < 2 ^ 32)
      → (child : End) → Ends (IsSpawned r start) (IsFailed host out_file r c.child start) child
      → IsAnswer child (on_child host c rd wr out_file pid start child)
  on_child-IsAnswer h q low (executed, p') spawned =
      let marked : start.fds wr ≡ some (record { file = out_file; flags = 1 }) =
        ground (arith, q.differ) in
      let closed : p'.fds wr ≡ none = spawned.others_are wr q.high ∙ ap inherited marked in
      let unwritten : p'.files out_file ≡ [] =
        ap (λ (f : ℕ → List ℕ). f out_file) spawned.files_are ∙ q.empty in
      (
        spawned,
        close_lem wr c.close_write h.close_write (start, []) _
            ∙ rw
                (
                  closed,
                  unwritten,
                  errno_from_pipe_none host c.reads h.reads (omega (arith, h.enough)),
                )
                (close_lem rd c.close_read h.close_read (release wr start, []) _),
      )
  on_child-IsAnswer h q low (exited code, p') (e, written, cause) = (
    e,
    cause,
    close_lem wr c.close_write h.close_write (start, []) _
        ∙ rw
            (
              written,
              errno_from_pipe-native_bytes host e c.reads (IsCause-low r c.child p.uid e low cause)
                  h.reads h.enough,
            )
            (close_lem rd c.close_read h.close_read (release wr start, []) _
              ∙ wait_lem pid c.wait h.wait (left rd wr start, []) _),
  )
  on_child-IsAnswer h q low (blocked, p') ended = tt
  on_child-IsAnswer h q low (impossible, p') ended = tt

  still_open : (n : ℕ) → is_free (p.fds n) ≡ false → is_free (start.fds n) ≡ false
  still_open n is_open = ground arith

  -- Where the standard descriptors of the request are open, the pipe is new (its write end is 3 or
  -- more) and the parent's own calls succeed, some after interruptions: if the child executes the
  -- program, it is set up as requested and `extended_ml_spawn` returns its pid and has not waited
  -- for it; if the child exits, `extended_ml_spawn` has waited for it and raises the first errno,
  -- below 2 ^ 32, that a call of the child left, or EPERM for an id that the child may not set. In
  -- both cases the descriptors of the parent are as they were.
  pub extended_ml_spawn-IsAnswer :
      c.pipe ≡ piped rd wr in_file out_file
      → c.fork ≡ done pid
      → IsServed c
      → IsPipe rd wr out_file p
      → is_free (p.fds r.stdin) ≡ false
      → is_free (p.fds r.stdout) ≡ false
      → is_free (p.fds r.stderr) ≡ false
      → ((e : ℕ) → some e ≡ first_error c.child → e < 2 ^ 32)
      → IsAnswer (forked_side host wr r c.child start) (extended_ml_spawn host c r p)
        × ((m : ℕ) → (left rd wr start).fds m ≡ p.fds m)
  unfolding extended_ml_spawn
  extended_ml_spawn-IsAnswer pipe fork h q open_in open_out open_err low = (
    rw
        (
          pipe,
          cloexec_lem c rd wr in_file out_file p (on_forked host c r rd wr out_file c.fork) h q,
          fork,
        )
        (on_child-IsAnswer h q low (forked_side host wr r c.child start) (
          forked_side-Ends host wr r c.child start (record { file = out_file; flags = 1 }) q.empty
            q.high (ground (arith, q.differ)) (still_open r.stdin open_in)
            (still_open r.stdout open_out) (still_open r.stderr open_err))),
    λ m. left_lem rd wr in_file out_file out_file p m q,
  )

  -- Where the pipe is new and the parent's own calls succeed, some after interruptions: if `fork`
  -- fails, `extended_ml_spawn` raises its errno, has waited for nobody, and the descriptors of the
  -- parent are as they were.
  pub extended_ml_spawn_fork_fails :
      (e : ℕ)
      → c.pipe ≡ piped rd wr in_file out_file
      → c.fork ≡ fails e
      → IsServed c
      → IsPipe rd wr out_file p
      → (extended_ml_spawn host c r p ≡ (raises e, (release wr (release rd start), [])))
        × ((m : ℕ) → (release wr (release rd start)).fds m ≡ p.fds m)
  unfolding extended_ml_spawn
  extended_ml_spawn_fork_fails e pipe fork h q = (
    rw
        (
          pipe,
          cloexec_lem c rd wr in_file out_file p (on_forked host c r rd wr out_file c.fork) h q,
          fork,
        )
        (close_lem rd c.close_read h.close_read (start, []) _
          ∙ close_lem wr c.close_write h.close_write (release rd start, []) _),
    λ m. ground (arith, q),
  )
