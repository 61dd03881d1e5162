-- ===== src/Process/Create/Child/Runs.antt =====
-- The child of ml_create_process in base/core/lib/unix_stubs.c executes the program where every call
-- succeeds.
use ocaml_core.Prelude.{
  ◌^◌, length, take, ℕ, ◌<◌, ◌≡◌, refl, ap, ◌∙◌, List, ◌∷◌, Option, none, some, true, arith,
}
use ocaml_core.Process.{
  Answer, done, Descriptor, Fds, Process, Text, How, End, executed, Tried, gave, call, dup2, set,
  copied,
}
use ocaml_core.Process.Create.{dup, is_lowest, safe_close, Pipe}
use ocaml_core.Process.Create.Tables.{IsPiped, ordered, lowest_lem, piped3}
use ocaml_core.Process.Create.Wiring.{
  IsFresh, IsReady, ready_lem, duped3, emptied, unpiped, read1_lem, write2_lem, write3_lem,
}
use ocaml_core.Process.Create.Child.{
  Request, Site, Code, on_result, or_exit, put_all, start_program, run_program, change_dir, connect,
  child_side,
}
use ocaml_core.Process.Create.Args.{Array}
use ocaml_core.Process.Create.Child.Requested.{n_env_lem}
use ocaml_core.Process.Create.Child.Connected.{fresh, still_open}

abbrev how : End → How
how e = e.0

on_result_gave :
    (t : Tried) (n : ℕ) (ans : List Answer) (p : Process) (next : Option ℕ → Code)
    → t ≡ gave n ans p
    → on_result t next ≡ next (some n) ans p
on_result_gave t n ans p next h = rw h refl

or_exit_gave :
    (report : Process → Process) (t : Tried) (n : ℕ) (ans : List Answer) (p : Process) (next : Code)
    → t ≡ gave n ans p
    → or_exit report t next ≡ next ans p
or_exit_gave report t n ans p next h = rw h refl

dup_gives :
    (fd n : ℕ) (ans : List Answer) (p : Process) (d : Descriptor)
    → is_lowest n p.fds ≡ true
    → p.fds fd ≡ some d
    → call (dup fd) (done n ∷ ans) p
      ≡ gave n ans (record p { fds = set n (copied (p.fds fd)) p.fds })
dup_gives fd n ans p d lowest is_open = rw (lowest, is_open) refl

dup2_gives :
    (fd n answer : ℕ) (ans : List Answer) (p : Process) (d : Descriptor)
    → p.fds fd ≡ some d
    → call (dup2 fd n) (done answer ∷ ans) p
      ≡ gave answer ans (record p { fds = set n (copied (p.fds fd)) p.fds })
dup2_gives fd n answer ans p d is_open = rw is_open refl

other : (n m : ℕ) (o : Option Descriptor) (t : Fds) → n < m → set n o t m ≡ t m
other n m o t low = ground arith

-- The answers from the first `safe_close_idem` on; `x`, `y` and `z` are those of `dup2`.
abbrev pub connected : ℕ → ℕ → ℕ → List Answer → List Answer
connected x y z ans =
    done 0
    ∷ done 0
    ∷ done 0
    ∷ done 0
    ∷ done 0
    ∷ done 0
    ∷ done 0
    ∷ done 0
    ∷ done 0
    ∷ done x
    ∷ done y
    ∷ done z
    ∷ done 0
    ∷ done 0
    ∷ done 0
    ∷ ans

-- The copies get the lowest free descriptors.
pub record IsCopied (q1 q2 q3 : Pipe) (p0 : Process) (a b c : ℕ) : Type 0 where
  pub copy_a : is_lowest a (piped3 p0.fds q1 q2 q3) ≡ true
  pub copy_b :
      is_lowest b (set a (copied (piped3 p0.fds q1 q2 q3 q1.read_end)) (piped3 p0.fds q1 q2 q3))
      ≡ true
  pub copy_c :
      let t1 = set a (copied (piped3 p0.fds q1 q2 q3 q1.read_end)) (piped3 p0.fds q1 q2 q3) in
      is_lowest c (set b (copied (t1 q2.write_end)) t1) ≡ true

module _ (line : Site → List ℕ) (q1 q2 q3 : Pipe) (args : Array) (r : Request) (p0 : Process) where
  abbrev proc : Fds → Process
  proc fds = record p0 { fds = fds }

  change_dir_runs :
      (environ : List Text) (dir : Option Text) (n m : ℕ) (ans : List Answer) (p : Process)
      → how (change_dir line dir (run_program line args environ r) (done n ∷ done m ∷ ans) p)
        ≡ executed
  change_dir_runs environ none n m ans p = refl
  change_dir_runs environ (some dir) n m ans p = refl

  start_program_runs :
      (n m : ℕ) (ans : List Answer) (p : Process)
      → length r.env < 2 ^ 31
      → how (start_program line args r (done n ∷ done m ∷ ans) p) ≡ executed
  start_program_runs n m ans p few =
      rw (n_env_lem (length r.env) few)
        (change_dir_runs (put_all (take (length r.env) r.env)) r.working_dir n m ans p)

  connect_runs :
      (a b c x y z : ℕ) (ans : List Answer) (t : Fds) (next : Code)
      → IsReady p0.fds q1 q2 q3 (unpiped p0.fds q1 q2 q3 (emptied p0.fds q1 q2 q3 t)) a b c
      → ((p : Process) → how (next ans p) ≡ executed)
      → how (connect line q1 q2 q3 a b c next (connected x y z ans) (proc t)) ≡ executed
  unfolding safe_close
  connect_runs a b c x y z ans t next k ends =
      let t9 = unpiped p0.fds q1 q2 q3 (emptied p0.fds q1 q2 q3 t) in
      let t10 = set 0 (copied (t9 a)) t9 in
      let t11 = set 1 (copied (t10 b)) t10 in
      let b0 : t10 b ≡ t9 b = other 0 b _ t9 (omega (arith, k.high_b)) in
      let c0 : t10 c ≡ t9 c = other 0 c _ t9 (omega (arith, k.high_c)) in
      let c1 : t11 c ≡ t10 c = other 1 c _ t10 (omega (arith, k.high_c)) in
      ap how (
        or_exit_gave _ _ x _ (proc t10) _ (dup2_gives a 0 x _ (proc t9) _ k.ready_a)
        ∙ or_exit_gave _ _ y _ (proc t11) _ (dup2_gives b 1 y _ (proc t10) _ (b0 ∙ k.ready_b))
        ∙ or_exit_gave _ _ z _ _ _ (dup2_gives c 2 z _ (proc t11) _ (c1 ∙ c0 ∙ k.ready_c)))
      ∙ ends _

  pub child_side_runs :
      (a b c x y z n m : ℕ) (ans : List Answer)
      → IsPiped p0.fds q1 q2 q3
      → IsCopied q1 q2 q3 p0 a b c
      → length r.env < 2 ^ 31
      → how (
          child_side line q1 q2 q3 args r
            (done a ∷ done b ∷ done c ∷ connected x y z (done n ∷ done m ∷ ans))
            (proc (piped3 p0.fds q1 q2 q3)))
        ≡ executed
  unfolding child_side
  child_side_runs a b c x y z n m ans h k few =
      let o = ordered p0.fds q1 q2 q3 h in
      let t0 = piped3 p0.fds q1 q2 q3 in
      let t1 = set a (copied (t0 q1.read_end)) t0 in
      let t2 = set b (copied (t1 q2.write_end)) t1 in
      let f : IsFresh p0.fds q1 q2 q3 a b c =
        fresh p0.fds q1 q2 q3 r p0.cwd a b c h k.copy_a k.copy_b k.copy_c in
      let open2 =
        still_open p0.fds q1 q2 q3 r p0.cwd a q2.write_end _ (copied (t0 q1.read_end)) t0
          (write2_lem p0.fds q1 q2 q3 o) f.free_a in
      let open3 =
        still_open p0.fds q1 q2 q3 r p0.cwd a q3.write_end _ (copied (t0 q1.read_end)) t0
          (write3_lem p0.fds q1 q2 q3 o) f.free_a in
      let open3' =
        still_open p0.fds q1 q2 q3 r p0.cwd b q3.write_end _ (copied (t1 q2.write_end)) t1 open3
          ((lowest_lem b t1 k.copy_b).free) in
      let ans3 = connected x y z (done n ∷ done m ∷ ans) in
      ap how (
        on_result_gave _ a (done b ∷ done c ∷ ans3) (proc t1) _
          (dup_gives q1.read_end a _ (proc t0) _ k.copy_a (read1_lem p0.fds q1 q2 q3 o))
        ∙ on_result_gave _ b (done c ∷ ans3) (proc t2) _
            (dup_gives q2.write_end b _ (proc t1) _ k.copy_b open2)
        ∙ on_result_gave _ c ans3 (proc (duped3 p0.fds q1 q2 q3 a b c)) _
            (dup_gives q3.write_end c _ (proc t2) _ k.copy_c open3'))
      ∙ connect_runs a b c x y z (done n ∷ done m ∷ ans) (duped3 p0.fds q1 q2 q3 a b c) _
          (ready_lem p0.fds q1 q2 q3 a b c h f) (λ p. start_program_runs n m ans p few)
