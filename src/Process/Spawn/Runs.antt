-- ===== src/Process/Spawn/Runs.antt =====
-- The forked side of extended_ml_spawn in base/core/extended/lib/fork_exec.c executes the program where
-- every call succeeds.
use ocaml_core.Prelude.{
  ℕ, ◌≤◌, ◌<◌, ◌≡◌, refl, ap, ◌∙◌, ℤ, wrap, List, ◌∷◌, Option, none, some, Bool, true, false, ◌&&◌,
  leb, arith,
}
use ocaml_core.Endian.{ByteOrder}
use ocaml_core.Process.{
  Answer, done, Descriptor, Fds, Process, Text, How, gave, End, executed, call, set, copied, dupfd,
  dup2, close, is_free, exec,
}
use ocaml_core.Process.Retry.{syscall_gave}
use ocaml_core.Process.Spawn.{
  Request, Code, set_cloexec, run_program, change_group, change_user, change_dir, connect, enter,
  syscall_dupfd, forked_side, setgid_to, setuid_to, chdir, after_exec,
}
use ocaml_core.Process.Spawn.Wiring.{IsFresh, duped, duped_a, duped_b, duped_c, open_lem}
use ocaml_core.Process.Spawn.Outcome.{allowed, may_set, id_of, image_of}

-- How a run ends.
abbrev how : End → How
how e = e.0

module _ (host : ByteOrder) (pipe_write : ℕ) (r : Request) where
  -- The program is executed, with as many answers as the options of the request take.
  run_program_runs :
      (n : ℕ) (ans : List Answer) (p : Process)
      → how (run_program host pipe_write r (done n ∷ ans) p) ≡ executed
  run_program_runs n ans p = ap how (
      syscall_gave host pipe_write (call (exec (image_of r))) n (done n ∷ ans) ans p _ after_exec
        refl)

  change_group_runs :
      (v_gid : Option ℤ) (n m : ℕ) (ans : List Answer) (p : Process)
      → may_set v_gid p.uid ≡ true
      → how (
          change_group host pipe_write v_gid
            (run_program host pipe_write r)
            (done n ∷ done m ∷ ans)
            p)
        ≡ executed
  change_group_runs none n m ans p may = run_program_runs n (done m ∷ ans) p
  change_group_runs (some v) n m ans p may = rw may (
      ap how (
        syscall_gave host pipe_write (call (setgid_to (wrap 32 v))) n (done n ∷ done m ∷ ans)
          (done m ∷ ans) p _ (λ _ ans' p'. run_program host pipe_write r ans' p') refl)
      ∙ run_program_runs m ans _)

  abbrev ids : Code
  ids =
      change_user host pipe_write r.setuid
        (change_group host pipe_write r.setgid (run_program host pipe_write r))

  change_user_runs :
      (v_uid : Option ℤ) (n m k : ℕ) (ans : List Answer) (p : Process)
      → may_set v_uid p.uid ≡ true
      → may_set r.setgid (id_of v_uid p.uid) ≡ true
      → how (
          change_user host pipe_write v_uid
            (change_group host pipe_write r.setgid (run_program host pipe_write r))
            (done n ∷ done m ∷ done k ∷ ans)
            p)
        ≡ executed
  change_user_runs none n m k ans p may may_group =
      change_group_runs r.setgid n m (done k ∷ ans) p may_group
  change_user_runs (some v) n m k ans p may may_group = rw may (
      ap how (
        syscall_gave host pipe_write (call (setuid_to (wrap 32 v))) n
          (done n ∷ done m ∷ done k ∷ ans) (done m ∷ done k ∷ ans) p _
          (λ _ ans' p'.
            change_group host pipe_write r.setgid (run_program host pipe_write r) ans' p')
          refl)
      ∙ change_group_runs r.setgid m k ans _ may_group)

  change_dir_runs :
      (dir : Option Text) (n m k l : ℕ) (ans : List Answer) (p : Process)
      → may_set r.setuid p.uid ≡ true
      → may_set r.setgid (id_of r.setuid p.uid) ≡ true
      → how (change_dir host pipe_write dir ids (done n ∷ done m ∷ done k ∷ done l ∷ ans) p)
        ≡ executed
  change_dir_runs none n m k l ans p may may_group =
      change_user_runs r.setuid n m k (done l ∷ ans) p may may_group
  change_dir_runs (some dir) n m k l ans p may may_group =
      ap how (
        syscall_gave host pipe_write (call (chdir dir)) n (done n ∷ done m ∷ done k ∷ done l ∷ ans)
          (done m ∷ done k ∷ done l ∷ ans) p _ (λ _ ans' p'. ids ans' p') refl)
      ∙ change_user_runs r.setuid m k l ans _ may may_group

-- Single calls that succeed.
dupfd_gives :
    (fd n : ℕ) (ans : List Answer) (p : Process) (d : Descriptor)
    → 3 ≤ n
    → p.fds n ≡ none
    → p.fds fd ≡ some d
    → call (dupfd fd 3) (done n ∷ ans) p
      ≡ gave n ans (record p { fds = set n (copied (p.fds fd)) p.fds })
dupfd_gives fd n ans p d low free is_open =
    let high : leb 3 n ≡ true = ground (arith, low) in rw (high, free, is_open) refl

dup2_gives :
    (fd n answer : ℕ) (ans : List Answer) (p : Process) (d : Descriptor)
    → p.fds fd ≡ some d
    → call (dup2 fd n) (done answer ∷ ans) p
      ≡ gave answer ans (record p { fds = set n (copied (p.fds fd)) p.fds })
dup2_gives fd n answer ans p d is_open = rw is_open refl

cloexec_gives :
    (fd file : ℕ) (ans : List Answer) (p : Process)
    → p.fds fd ≡ some (record { file = file; flags = 0 })
    → set_cloexec fd false (done 0 ∷ ans) p ≡ gave 0 ans p
cloexec_gives fd file ans p is_open = rw is_open refl

module _ (host : ByteOrder) (pipe_write : ℕ) (r : Request) (start : Process) where
  abbrev proc : Fds → Process
  proc fds = record start { fds = fds }

  syscall_dupfd_gave :
      (fd n : ℕ) (ans ans' : List Answer) (p p' : Process) (next : ℕ → List Answer → Process → End)
      → call (dupfd fd 3) ans p ≡ gave n ans' p'
      → syscall_dupfd host pipe_write fd ans p next ≡ next n ans' p'
  syscall_dupfd_gave fd n ans ans' p p' next h = rw h refl

  -- The answers to the calls of `connect` where all succeed.
  abbrev pub connected : ℕ → ℕ → ℕ → ℕ → ℕ → ℕ → List Answer → List Answer
  connected x y z u v w ans =
      done 0 ∷ done 0 ∷ done 0 ∷ done x ∷ done y ∷ done z ∷ done u ∷ done v ∷ done w ∷ ans

  connect_runs :
      (a b c x y z u v w : ℕ) (ans : List Answer) (next : Code)
      → IsFresh r start.fds a b c
      → ((p : Process) → p.uid ≡ start.uid → how (next ans p) ≡ executed)
      → how (
          connect host pipe_write a b c next
            (connected x y z u v w ans)
            (proc (duped r a b c start.fds)))
        ≡ executed
  connect_runs a b c x y z u v w ans next f ends =
      let t0 = duped r a b c start.fds in
      let (fa, copy_a) = open_lem (start.fds r.stdin) f.stdin_open in
      let (fb, copy_b) = open_lem (start.fds r.stdout) f.stdout_open in
      let (fc, copy_c) = open_lem (start.fds r.stderr) f.stderr_open in
      let open_a = duped_a r start.fds a b c f ∙ copy_a in
      let open_b = duped_b r start.fds a b c f ∙ copy_b in
      let open_c = duped_c r start.fds a b c f ∙ copy_c in
      let t1 = set 0 (copied (t0 a)) t0 in
      let t2 = set 1 (copied (t1 b)) t1 in
      let b0 : t1 b ≡ t0 b = other 0 b _ t0 (omega (arith, f.low_b)) in
      let c0 : t1 c ≡ t0 c = other 0 c _ t0 (omega (arith, f.low_c)) in
      let c1 : t2 c ≡ t1 c = other 1 c _ t1 (omega (arith, f.low_c)) in
      ap how (
        syscall_gave host pipe_write (set_cloexec a false) 0 _ _ (proc t0) (proc t0) _
          (cloexec_gives a fa _ (proc t0) open_a)
        ∙ syscall_gave host pipe_write (set_cloexec b false) 0 _ _ (proc t0) (proc t0) _
            (cloexec_gives b fb _ (proc t0) open_b)
        ∙ syscall_gave host pipe_write (set_cloexec c false) 0 _ _ (proc t0) (proc t0) _
            (cloexec_gives c fc _ (proc t0) open_c)
        ∙ syscall_gave host pipe_write (call (dup2 a 0)) x _ _ (proc t0) (proc t1) _
            (dup2_gives a 0 x _ (proc t0) _ open_a)
        ∙ syscall_gave host pipe_write (call (dup2 b 1)) y _ _ (proc t1) (proc t2) _
            (dup2_gives b 1 y _ (proc t1) _ (b0 ∙ open_b))
        ∙ syscall_gave host pipe_write (call (dup2 c 2)) z _ _ (proc t2) _ _
            (dup2_gives c 2 z _ (proc t2) _ (c1 ∙ c0 ∙ open_c))
        ∙ syscall_gave host pipe_write (close a) u _ _ _ _ _ refl
        ∙ syscall_gave host pipe_write (close b) v _ _ _ _ _ refl
        ∙ syscall_gave host pipe_write (close c) w _ _ _ _ _ refl)
      ∙ ends _ refl
    where
      other : (n m : ℕ) (o : Option Descriptor) (t : Fds) → n < m → set n o t m ≡ t m
      other n m o t low = ground arith

  abbrev next_connect : ℕ → ℕ → ℕ → Code
  next_connect a b c ans p = connect host pipe_write a b c (enter host pipe_write r) ans p

  abbrev next_err : ℕ → ℕ → Code
  next_err a b ans p = syscall_dupfd host pipe_write r.stderr ans p (next_connect a b)

  abbrev next_out : ℕ → Code
  next_out a ans p = syscall_dupfd host pipe_write r.stdout ans p (next_err a)

  -- Where the three descriptors of the request are open, the three copies get descriptors that are
  -- free, different and 3 or more, the process may set the ids that are asked for, and every call
  -- succeeds, the forked side executes the program: sixteen answers are enough.
  pub forked_side_runs :
      (a b c x y z u v w n m k l : ℕ) (ans : List Answer)
      → IsFresh r start.fds a b c
      → allowed r start.uid ≡ true
      → how (
          forked_side host pipe_write r
            (done a
              ∷ done b
              ∷ done c
              ∷ connected x y z u v w (done n ∷ done m ∷ done k ∷ done l ∷ ans))
            start)
        ≡ executed
  unfolding forked_side
  forked_side_runs a b c x y z u v w n m k l ans f may =
      let t0 = start.fds in
      let (d0, open0) = some_lem (t0 r.stdin) f.stdin_open in
      let (d1, open1) = some_lem (t0 r.stdout) f.stdout_open in
      let (d2, open2) = some_lem (t0 r.stderr) f.stderr_open in
      let t1 = set a (copied (t0 r.stdin)) t0 in
      let t2 = set b (copied (t1 r.stdout)) t1 in
      let (may_user, may_group) = both _ _ may in
      let free_b1 : t1 b ≡ none = rw f.differ_ab f.free_b in
      let free_c2 : t2 c ≡ none = rw (f.differ_bc, f.differ_ac) f.free_c in
      let open1' = still_open a r.stdout d1 (copied (t0 r.stdin)) t0 open1 f.free_a in
      let open2' = still_open a r.stderr d2 (copied (t0 r.stdin)) t0 open2 f.free_a in
      let open2'' = still_open b r.stderr d2 (copied (t1 r.stdout)) t1 open2' free_b1 in
      let ans3 = connected x y z u v w (done n ∷ done m ∷ done k ∷ done l ∷ ans) in
      ap how (
        syscall_dupfd_gave r.stdin a (done a ∷ done b ∷ done c ∷ ans3) (done b ∷ done c ∷ ans3)
          (proc t0) (proc t1) next_out (dupfd_gives r.stdin a _ (proc t0) d0 f.low_a f.free_a open0)
        ∙ syscall_dupfd_gave r.stdout b (done b ∷ done c ∷ ans3) (done c ∷ ans3) (proc t1) (proc t2)
            (next_err a) (dupfd_gives r.stdout b _ (proc t1) d1 f.low_b free_b1 open1')
        ∙ syscall_dupfd_gave r.stderr c (done c ∷ ans3) ans3 (proc t2) _ (next_connect a b)
            (dupfd_gives r.stderr c _ (proc t2) d2 f.low_c free_c2 open2''))
      ∙ connect_runs a b c x y z u v w (done n ∷ done m ∷ done k ∷ done l ∷ ans)
          (enter host pipe_write r) f
          (λ p same.
            change_dir_runs host pipe_write r r.working_dir n m k l ans p
              (ap (may_set r.setuid) same ∙ may_user)
              (ap (λ (id : ℕ). may_set r.setgid (id_of r.setuid id)) same ∙ may_group))
    where
      some_lem : (o : Option Descriptor) → is_free o ≡ false → (d : Descriptor) × (o ≡ some d)
      some_lem none h = cc
      some_lem (some d) h = (d, refl)

      both : (p q : Bool) → (p && q) ≡ true → (p ≡ true) × (q ≡ true)
      both true q h = (refl, h)
      both false q h = cc

      still_open :
          (i fd : ℕ) (d : Descriptor) (o : Option Descriptor) (t : Fds)
          → t fd ≡ some d
          → t i ≡ none
          → set i o t fd ≡ some d
      still_open i fd d o t is_open free = ground arith
