-- ===== src/Process/Create/Child/Connected.antt =====
-- The child of ml_create_process in base/core/lib/unix_stubs.c: the descriptors with which it executes the
-- program.
use ocaml_core.Prelude.{
  ℕ, length, take_fits, ◌<◌, ◌^◌, ◌≡◌, refl, sym, ap, ◌∙◌, List, Option, none, some, true, false,
  ◌==◌, arith,
}
use ocaml_core.Process.{
  Answer, Descriptor, Fds, Process, Text, End, call, dup2, exec, set, copied, inherited,
}
use ocaml_core.Process.Spawn.{Code, chdir}
use ocaml_core.Process.Spawn.Outcome.{dir_of}
use ocaml_core.Process.Create.Args.{Array, filled, IsVector, read_args-vector_of}
use ocaml_core.Process.Create.{dup, is_lowest, Pipe}
use ocaml_core.Process.Create.Tables.{lowest_lem, IsPiped, piped3, ordered}
use ocaml_core.Process.Create.Wiring.{
  IsFresh, duped3, emptied, unpiped, moved, closed, wired, read1_lem, write2_lem, wired_lem,
}
use ocaml_core.Process.Create.Child.{
  Request, Site, or_exit, image_of, after_exec, put_all, start_program, run_program, change_dir,
  connect, child_side,
}
use ocaml_core.Process.Create.Child.Requested.{IsRequested, put_all-wanted, n_env_lem}
use ocaml_core.Process.Create.Child.Calls.{
  At, Executes, or_exit-Executes, dup-Executes, closes-Executes, safe_close_idem-Executes,
  any_result, copied-At,
}

module _ (fds : Fds) (q1 q2 q3 : Pipe) (r : Request) (cwd : Text) where
  -- The program runs with the pipes at its standard descriptors, and beside them with what the parent
  -- had before the pipes.
  pub record IsConnected (p : Process) : Type 0 where
    pub fds_are : (m : ℕ) → p.fds m ≡ inherited (wired fds q1 q2 q3 m)
    pub cwd_is : p.cwd ≡ dir_of r.working_dir cwd
    pub image_is : IsRequested r p.image

  -- The array holds the program and its arguments, and the sizes are those of the code's integers.
  pub record IsReadable (args : Array) : Type 0 where
    pub vector : IsVector r.prog r.args (filled args)
    pub few_args : length r.args < 4096
    pub few_env : length r.env < 2 ^ 31

  program_step :
      (t : Fds) (args : Array)
      → ((m : ℕ) → t m ≡ wired fds q1 q2 q3 m)
      → IsReadable args
      → (n : ℕ) (p p' : Process) → At t (dir_of r.working_dir cwd) p
      → exec (image_of args (put_all r.env) r) n p ≡ some p'
      → IsConnected p'
  program_step t args wires k n p p' h made =
      let image = image_of args (put_all r.env) r in
      let same : p' ≡ record p { fds = λ m. inherited (p.fds m); image = some image } = cc in
      rw same (record {
        fds_are = λ m. ap inherited (ap (λ (f : Fds). f m) h.fds_are ∙ wires m);
        cwd_is = h.cwd_is;
        image_is = record {
          environ = put_all r.env;
          image_is = rw (read_args-vector_of r.prog r.args args k.few_args k.vector) refl;
          environ_says = λ name. put_all-wanted name r.env;
        };
      })

  -- A descriptor that is free beside a copy of an open one.
  beside :
      (n m fd : ℕ) (d : Descriptor) (t : Fds)
      → t fd ≡ some d
      → set n (copied (t fd)) t m ≡ none
      → (t m ≡ none) × ((m == n) ≡ false)
  beside n m fd d t is_open free =
      let free' : set n (copied (some d)) t m ≡ none = sym (rw is_open refl) ∙ free in ground arith

  pub still_open :
      (n fd : ℕ) (d : Descriptor) (o : Option Descriptor) (t : Fds)
      → t fd ≡ some d
      → t n ≡ none
      → set n o t fd ≡ some d
  still_open n fd d o t is_open free = ground arith

  pub fresh :
      (a b c : ℕ)
      → IsPiped fds q1 q2 q3
      → let t0 = piped3 fds q1 q2 q3 in
        let t1 = set a (copied (t0 q1.read_end)) t0 in
        let t2 = set b (copied (t1 q2.write_end)) t1 in
        is_lowest a t0 ≡ true
        → is_lowest b t1 ≡ true
        → is_lowest c t2 ≡ true
        → IsFresh fds q1 q2 q3 a b c
  fresh a b c piped low_a low_b low_c =
      let o = ordered fds q1 q2 q3 piped in
      let t0 = piped3 fds q1 q2 q3 in
      let t1 = set a (copied (t0 q1.read_end)) t0 in
      let t2 = set b (copied (t1 q2.write_end)) t1 in
      let la = lowest_lem a t0 low_a in
      let lb = lowest_lem b t1 low_b in
      let lc = lowest_lem c t2 low_c in
      let (fb, ba) = beside a b q1.read_end _ t0 (read1_lem fds q1 q2 q3 o) lb.free in
      let open_b =
        still_open a q2.write_end _ (copied (t0 q1.read_end)) t0 (write2_lem fds q1 q2 q3 o)
          la.free in
      let (fc1, cb) = beside b c q2.write_end _ t1 open_b lc.free in
      let (fc, ca) = beside a c q1.read_end _ t0 (read1_lem fds q1 q2 q3 o) fc1 in
      record {
        free_a = la.free;
        free_b = fb;
        free_c = fc;
        differ_ab = ba;
        differ_ac = ca;
        differ_bc = cb;
      }

  module _ (line : Site → List ℕ) (args : Array) (k : IsReadable args) where
    abbrev Good : End → Type 0
    Good = Executes IsConnected

    run_program-Good :
        (t : Fds)
        → ((m : ℕ) → t m ≡ wired fds q1 q2 q3 m)
        → (ans : List Answer) (p : Process) → At t (dir_of r.working_dir cwd) p
        → Good (run_program line args (put_all r.env) r ans p)
    run_program-Good t wires =
        or_exit-Executes IsConnected t (dir_of r.working_dir cwd) IsConnected
          (exec (image_of args (put_all r.env) r)) _ after_exec (program_step t args wires k)
          (λ ans p h. h)

    change_dir-Good :
        (t : Fds) (dir : Option Text)
        → r.working_dir ≡ dir
        → ((m : ℕ) → t m ≡ wired fds q1 q2 q3 m)
        → (ans : List Answer) (p : Process) → At t cwd p
        → Good (change_dir line dir (run_program line args (put_all r.env) r) ans p)
    change_dir-Good t none is_none wires ans p h = run_program-Good t wires ans p (rw is_none h)
    change_dir-Good t (some dir) is_some wires ans p h =
        or_exit-Executes IsConnected t cwd (At t dir) (chdir dir) _
          (run_program line args (put_all r.env) r) (λ n p p' hp made. moved_to dir n p p' hp made)
          (λ a q hq. run_program-Good t wires a q (rw is_some hq)) ans p h
      where
        moved_to :
            (new : Text) (n : ℕ) (p p' : Process)
            → At t cwd p
            → chdir new n p ≡ some p'
            → At t new p'
        moved_to new n p p' hp made =
            let same : p' ≡ record p { cwd = new } = cc in
            rw same (record { fds_are = hp.fds_are; cwd_is = refl })

    start_program-Good :
        (t : Fds)
        → ((m : ℕ) → t m ≡ wired fds q1 q2 q3 m)
        → (ans : List Answer) (p : Process) → At t cwd p
        → Good (start_program line args r ans p)
    start_program-Good t wires ans p h =
        rw (n_env_lem (length r.env) k.few_env, take_fits (length r.env) r.env (omega arith))
          (change_dir-Good t r.working_dir refl wires ans p h)

    dup2-Executes :
        (t : Fds) (fd n : ℕ) (report : Process → Process) (next : Code)
        → ((ans : List Answer) (p : Process)
            → At (set n (copied (t fd)) t) cwd p
            → Good (next ans p))
        → (ans : List Answer) (p : Process) → At t cwd p
        → Good (or_exit report (call (dup2 fd n) ans p) next)
    dup2-Executes t fd n report next hn =
        or_exit-Executes IsConnected t cwd (At (set n (copied (t fd)) t) cwd) (dup2 fd n) report
          next (λ m p p' h made. copied-At IsConnected t cwd fd n p p' h made) hn

    connect-Good :
        (a b c : ℕ) (t : Fds) (next : Code)
        → ((ans : List Answer) (p : Process)
            → At
                (closed fds q1 q2 q3 a b c
                  (moved fds q1 q2 q3 a b c (unpiped fds q1 q2 q3 (emptied fds q1 q2 q3 t))))
                cwd
                p
            → Good (next ans p))
        → (ans : List Answer) (p : Process) → At t cwd p
        → Good (connect line q1 q2 q3 a b c next ans p)
    connect-Good a b c t next hn =
        let t1 = set 0 none t in
        let t2 = set 1 none t1 in
        let t3 = emptied fds q1 q2 q3 t in
        let t4 = set q1.read_end none t3 in
        let t5 = set q1.write_end none t4 in
        let t6 = set q2.read_end none t5 in
        let t7 = set q2.write_end none t6 in
        let t8 = set q3.read_end none t7 in
        let t9 = unpiped fds q1 q2 q3 t3 in
        let t10 = set 0 (copied (t9 a)) t9 in
        let t11 = set 1 (copied (t10 b)) t10 in
        let t12 = moved fds q1 q2 q3 a b c t9 in
        safe_close_idem-Executes IsConnected t cwd 0 _ _ (
          safe_close_idem-Executes IsConnected t1 cwd 1 _ _ (
            safe_close_idem-Executes IsConnected t2 cwd 2 _ _ (
              closes-Executes IsConnected t3 cwd q1.read_end _ (
                closes-Executes IsConnected t4 cwd q1.write_end _ (
                  closes-Executes IsConnected t5 cwd q2.read_end _ (
                    closes-Executes IsConnected t6 cwd q2.write_end _ (
                      closes-Executes IsConnected t7 cwd q3.read_end _ (
                        closes-Executes IsConnected t8 cwd q3.write_end _ (
                          dup2-Executes t9 a 0 _ _ (
                            dup2-Executes t10 b 1 _ _ (
                              dup2-Executes t11 c 2 _ _ (
                                closes-Executes IsConnected t12 cwd a _ (
                                  closes-Executes IsConnected (set a none t12) cwd b _ (
                                    closes-Executes IsConnected (set b none (set a none t12)) cwd c
                                      _ hn))))))))))))))

    -- The copies are made, or the child ends.
    pub child_side-Good :
        (ans : List Answer) (p : Process)
        → IsPiped fds q1 q2 q3
        → At (piped3 fds q1 q2 q3) cwd p
        → Good (child_side line q1 q2 q3 args r ans p)
    unfolding child_side
    child_side-Good ans p piped h =
        let o = ordered fds q1 q2 q3 piped in
        let t0 = piped3 fds q1 q2 q3 in
        dup-Executes IsConnected t0 cwd q1.read_end _
          (λ a ans1 p1 low_a h1.
            let t1 = set a (copied (t0 q1.read_end)) t0 in
            dup-Executes IsConnected t1 cwd q2.write_end _
              (λ b ans2 p2 low_b h2.
                let t2 = set b (copied (t1 q2.write_end)) t1 in
                dup-Executes IsConnected t2 cwd q3.write_end _
                  (λ c ans3 p3 low_c h3.
                    connect-Good a b c (duped3 fds q1 q2 q3 a b c) _
                      (λ ans4 p4 h4.
                        start_program-Good _
                          (λ m.
                            wired_lem fds q1 q2 q3 a b c m piped
                              (fresh a b c piped low_a low_b low_c))
                          ans4 p4 h4)
                      ans3 p3 h3)
                  (λ ans3 p3. tt) ans2 p2 h2)
              (λ ans2 p2.
                any_result IsConnected _ (λ z ans3 p3. tt) (call (dup q3.write_end) ans2 p2))
              ans1 p1 h1)
          (λ ans1 p1.
            any_result IsConnected _
              (λ y ans2 p2.
                any_result IsConnected _ (λ z ans3 p3. tt) (call (dup q3.write_end) ans2 p2))
              (call (dup q2.write_end) ans1 p1))
          ans p h
