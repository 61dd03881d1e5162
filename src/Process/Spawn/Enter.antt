-- ===== src/Process/Spawn/Enter.antt =====
-- The forked side of extended_ml_spawn in base/core/extended/lib/fork_exec.c from `chdir` on: the working
-- directory, the ids and the program.
use ocaml_core.Prelude.{
  ℕ, suc, ◌≡◌, refl, ap, ◌∙◌, inl, inr, ℤ, wrap, List, [], length, Option, none, some, Bool-cases,
  true, false, ◌==◌,
}
use ocaml_core.Endian.{ByteOrder, native_bytes}
use ocaml_core.Process.{Answer, Descriptor, Fds, Process, Text, Ends, call, eperm, inherited, exec}
use ocaml_core.Process.Pipe.{report_errno_on_pipe}
use ocaml_core.Process.Pipe.Reports.{Reported-Ends, report_errno_on_pipe-Reported}
use ocaml_core.Process.Retry.{retry-Ends}
use ocaml_core.Process.Spawn.{
  Code, Request, chdir, setuid_to, setgid_to, run_program, change_dir, change_user, change_group,
  after_exec,
}
use ocaml_core.Process.Spawn.Stages.{Setting, Stage, Failing, IsReport, first_error, call-OnTried}
use ocaml_core.Process.Spawn.Stages.Calls.{syscall-Ends, reports}
use ocaml_core.Process.Spawn.Wiring.{wired, inherited-copied, wired_high}
use ocaml_core.Process.Spawn.Outcome.{
  id_of, may_set, allowed, dir_of, image_of, image_of-requested, IsSpawned, IsFailed,
}

module _ (host : ByteOrder) (pipe_write : ℕ) (r : Request) (answers : List Answer) (start : Process)
    (d : Descriptor) (empty : start.files d.file ≡ []) where
  abbrev pub setting : Setting
  setting = record {
    host = host;
    pipe_write = pipe_write;
    error = first_error answers;
    files = start.files;
    write_end = d;
  }

  abbrev pub Good : Process → Type 0
  Good = IsSpawned r start

  abbrev pub Bad : Process → Type 0
  Bad = IsFailed host d.file r answers start

  pub reported : (e : ℕ) (p : Process) → some e ≡ first_error answers → IsReport setting e p → Bad p
  reported e p same written = (e, written, inl same)

  -- The process does not set an id that it may not set.
  refused :
      (fds : Fds) (uid gid : ℕ) (cwd : Text) (ans : List Answer) (p : Process)
      → Stage setting fds uid gid cwd ans p
      → allowed r start.uid ≡ false
      → Ends Good Bad (report_errno_on_pipe host pipe_write eperm ans p)
  refused fds uid gid cwd ans p h not_allowed =
      Reported-Ends Good Bad d.file (native_bytes host 4 eperm) p
        (report_errno_on_pipe host pipe_write eperm ans p)
        (λ p' written. (eperm, written ∙ rw (h.files_are, empty) refl, inr (refl, not_allowed)))
        (report_errno_on_pipe-Reported host pipe_write eperm ans p d (rw h.fds_are h.pipe))

  -- The table of the new program before `exec`.
  abbrev pub IsWired : Fds → Type 0
  IsWired fds = (m : ℕ) → fds m ≡ wired r start.fds m

  program_step :
      (fds : Fds)
      → IsWired fds
      → allowed r start.uid ≡ true
      → (n : ℕ) (ans : List Answer) (p p' : Process)
      → Stage setting fds
          (id_of r.setuid start.uid)
          (id_of r.setgid start.gid)
          (dir_of r.working_dir start.cwd)
          ans
          p
      → exec (image_of r) n p ≡ some p'
      → Good p'
  program_step fds wires may n ans p p' h made =
      let same : p' ≡ record p { fds = λ m. inherited (p.fds m); image = some (image_of r) } = cc in
      let at : (m : ℕ) → inherited (p.fds m) ≡ inherited (wired r start.fds m) =
        λ m. ap inherited (ap (λ (f : Fds). f m) h.fds_are ∙ wires m) in
      rw same (record {
        stdin_is = at 0 ∙ inherited-copied (start.fds r.stdin);
        stdout_is = at 1 ∙ inherited-copied (start.fds r.stdout);
        stderr_is = at 2 ∙ inherited-copied (start.fds r.stderr);
        others_are = λ m high. at m ∙ ap inherited (wired_high r start.fds m high);
        cwd_is = h.cwd_is;
        uid_is = h.uid_is;
        gid_is = h.gid_is;
        files_are = h.files_are;
        image_is = ap some (image_of-requested r);
        is_allowed = may;
      })

  -- A part of the code that ends well from each state with this table and these ids.
  abbrev pub EndsFrom : Fds → ℕ → ℕ → Text → Code → Type 0
  EndsFrom fds uid gid cwd code =
      (ans : List Answer) (p : Process)
      → Stage setting fds uid gid cwd ans p
      → Ends Good Bad (code ans p)

  module _ (fds : Fds) (wires : IsWired fds) where
    setgid_step :
        (uid gid : ℕ) (cwd : Text) (new : ℕ) (n : ℕ) (ans : List Answer) (p p' : Process)
        → Stage setting fds uid gid cwd ans p
        → setgid_to new n p ≡ some p'
        → Stage setting fds uid new cwd ans p'
    setgid_step uid gid cwd new n ans p p' h made =
        let same : p' ≡ record p { gid = new } = cc in
        rw same (record {
          fds_are = h.fds_are;
          uid_is = h.uid_is;
          gid_is = refl;
          cwd_is = h.cwd_is;
          files_are = h.files_are;
          error_is = h.error_is;
          pipe = h.pipe;
        })

    setuid_step :
        (uid gid : ℕ) (cwd : Text) (new : ℕ) (n : ℕ) (ans : List Answer) (p p' : Process)
        → Stage setting fds uid gid cwd ans p
        → setuid_to new n p ≡ some p'
        → Stage setting fds new gid cwd ans p'
    setuid_step uid gid cwd new n ans p p' h made =
        let same : p' ≡ record p { uid = new } = cc in
        rw same (record {
          fds_are = h.fds_are;
          uid_is = refl;
          gid_is = h.gid_is;
          cwd_is = h.cwd_is;
          files_are = h.files_are;
          error_is = h.error_is;
          pipe = h.pipe;
        })

    chdir_step :
        (uid gid : ℕ) (cwd : Text) (new : Text) (n : ℕ) (ans : List Answer) (p p' : Process)
        → Stage setting fds uid gid cwd ans p
        → chdir new n p ≡ some p'
        → Stage setting fds uid gid new ans p'
    chdir_step uid gid cwd new n ans p p' h made =
        let same : p' ≡ record p { cwd = new } = cc in
        rw same (record {
          fds_are = h.fds_are;
          uid_is = h.uid_is;
          gid_is = h.gid_is;
          cwd_is = refl;
          files_are = h.files_are;
          error_is = h.error_is;
          pipe = h.pipe;
        })

    run_program-Ends :
        allowed r start.uid ≡ true
        → EndsFrom fds
            (id_of r.setuid start.uid)
            (id_of r.setgid start.gid)
            (dir_of r.working_dir start.cwd)
            (run_program host pipe_write r)
    run_program-Ends may ans p h =
        let uid = id_of r.setuid start.uid in
        let gid = id_of r.setgid start.gid in
        let cwd = dir_of r.working_dir start.cwd in
        retry-Ends host pipe_write (call (exec (image_of r))) (Stage setting fds uid gid cwd)
          (λ n ans' p'. Good p') (Failing setting) Good Bad
          (call-OnTried setting fds uid gid cwd (exec (image_of r)) (λ n ans' p'. Good p')
            (program_step fds wires may))
          (reports setting Good Bad empty reported) after_exec (λ n ans' p' done_well. done_well)
          (suc (length ans)) ans p h

    change_group-Ends :
        (v_gid : Option ℤ)
        → r.setgid ≡ v_gid
        → may_set r.setuid start.uid ≡ true
        → EndsFrom fds
            (id_of r.setuid start.uid)
            start.gid
            (dir_of r.working_dir start.cwd)
            (change_group host pipe_write v_gid (run_program host pipe_write r))
    change_group-Ends none is_none may ans p h =
        run_program-Ends (rw (may, is_none) refl) ans p (rw is_none h)
    change_group-Ends (some v) is_some may ans p h =
        let uid = id_of r.setuid start.uid in
        let cwd = dir_of r.working_dir start.cwd in
        elim (Bool-cases (uid == 0)) [
          | inl root ↦
              let is_root : (p.uid == 0) ≡ true = ap (λ (u : ℕ). u == 0) h.uid_is ∙ root in
              rw is_root (
                syscall-Ends setting Good Bad empty reported fds uid start.gid cwd
                  (setgid_to (wrap 32 v)) fds uid (wrap 32 v) cwd
                  (setgid_step uid start.gid cwd (wrap 32 v)) _
                  (λ n a q hq. run_program-Ends (rw (may, is_some, root) refl) a q (rw is_some hq))
                  ans p h)
          | inr other ↦
              let not_root : (p.uid == 0) ≡ false = ap (λ (u : ℕ). u == 0) h.uid_is ∙ other in
              rw not_root (refused fds uid start.gid cwd ans p h (rw (may, is_some, other) refl))
        ]

    change_user-Ends :
        (v_uid : Option ℤ)
        → r.setuid ≡ v_uid
        → EndsFrom fds start.uid start.gid (dir_of r.working_dir start.cwd) (
            change_user host pipe_write v_uid
              (change_group host pipe_write r.setgid (run_program host pipe_write r)))
    change_user-Ends none is_none ans p h =
        change_group-Ends r.setgid refl (rw is_none refl) ans p (rw is_none h)
    change_user-Ends (some v) is_some ans p h =
        let cwd = dir_of r.working_dir start.cwd in
        elim (Bool-cases (start.uid == 0)) [
          | inl root ↦
              let is_root : (p.uid == 0) ≡ true = ap (λ (u : ℕ). u == 0) h.uid_is ∙ root in
              rw is_root (
                syscall-Ends setting Good Bad empty reported fds start.uid start.gid cwd
                  (setuid_to (wrap 32 v)) fds (wrap 32 v) start.gid cwd
                  (setuid_step start.uid start.gid cwd (wrap 32 v)) _
                  (λ n a q hq.
                    change_group-Ends r.setgid refl (rw (is_some, root) refl) a q (rw is_some hq))
                  ans p h)
          | inr other ↦
              let not_root : (p.uid == 0) ≡ false = ap (λ (u : ℕ). u == 0) h.uid_is ∙ other in
              rw not_root (refused fds start.uid start.gid cwd ans p h (rw (is_some, other) refl))
        ]

    pub change_dir-Ends :
        (dir : Option Text)
        → r.working_dir ≡ dir
        → EndsFrom fds start.uid start.gid start.cwd (
            change_dir host pipe_write dir (
              change_user host pipe_write r.setuid
                (change_group host pipe_write r.setgid (run_program host pipe_write r))))
    change_dir-Ends none is_none ans p h = change_user-Ends r.setuid refl ans p (rw is_none h)
    change_dir-Ends (some dir) is_some ans p h =
        syscall-Ends setting Good Bad empty reported fds start.uid start.gid start.cwd (chdir dir)
          fds start.uid start.gid dir (chdir_step start.uid start.gid start.cwd dir) _
          (λ n a q hq. change_user-Ends r.setuid refl a q (rw is_some hq)) ans p h
