-- ===== src/Process/Spawn/Forked.antt =====
-- The forked side of extended_ml_spawn of base/core/extended/lib/fork_exec.c: which process executes the
-- program, and what is reported where none does.
use ocaml_core.Prelude.{ℕ, ◌≤◌, ◌≡◌, refl, ◌∙◌, List, [], none, some, false, ◌==◌, arith}
use ocaml_core.Endian.{ByteOrder}
use ocaml_core.Process.{Answer, Descriptor, Process, Ends, set, copied, is_free}
use ocaml_core.Process.Spawn.{Request, connect, enter, forked_side}
use ocaml_core.Process.Spawn.Stages.Calls.{
  syscall_dupfd-Ends, syscall_dup2-Ends, syscall_cloexec-Ends, syscall_close-Ends,
}
use ocaml_core.Process.Spawn.Wiring.{
  duped, moved, closed, IsFresh, wired_lem, open_lem, free_after, differ, duped_a, duped_b, duped_c,
}
use ocaml_core.Process.Spawn.Enter.{setting, Good, Bad, reported, EndsFrom, change_dir-Ends}

module _ (host : ByteOrder) (pipe_write : ℕ) (r : Request) (answers : List Answer) (start : Process)
    (d : Descriptor) (empty : start.files d.file ≡ []) where
  connect-Ends :
      (a b c : ℕ)
      → (pipe_write == a) ≡ false
      → (pipe_write == b) ≡ false
      → (pipe_write == c) ≡ false
      → 3 ≤ pipe_write
      → IsFresh r start.fds a b c
      → (EndsFrom host pipe_write r answers start d empty)
          (duped r a b c start.fds)
          start.uid
          start.gid
          start.cwd
          (connect host pipe_write a b c (enter host pipe_write r))
  connect-Ends a b c other_a other_b other_c high fresh =
      let u = start.uid in
      let g = start.gid in
      let w = start.cwd in
      let fds0 = duped r a b c start.fds in
      let fds1 = set 0 (copied (fds0 a)) fds0 in
      let fds2 = set 1 (copied (fds1 b)) fds1 in
      let fds3 = moved a b c fds0 in
      let (x, copy_x) = open_lem (start.fds r.stdin) fresh.stdin_open in
      let (y, copy_y) = open_lem (start.fds r.stdout) fresh.stdout_open in
      let (z, copy_z) = open_lem (start.fds r.stderr) fresh.stderr_open in
      syscall_cloexec-Ends (setting host pipe_write r answers start d empty)
        (Good host pipe_write r answers start d empty) (Bad host pipe_write r answers start d empty)
        empty (reported host pipe_write r answers start d empty) fds0 u g w a x _
        (duped_a r start.fds a b c fresh ∙ copy_x)
        λ _.
          syscall_cloexec-Ends (setting host pipe_write r answers start d empty)
            (Good host pipe_write r answers start d empty)
            (Bad host pipe_write r answers start d empty) empty
            (reported host pipe_write r answers start d empty) fds0 u g w b y _
            (duped_b r start.fds a b c fresh ∙ copy_y)
            λ _.
              syscall_cloexec-Ends (setting host pipe_write r answers start d empty)
                (Good host pipe_write r answers start d empty)
                (Bad host pipe_write r answers start d empty) empty
                (reported host pipe_write r answers start d empty) fds0 u g w c z _
                (duped_c r start.fds a b c fresh ∙ copy_z)
                λ _.
                  syscall_dup2-Ends (setting host pipe_write r answers start d empty)
                    (Good host pipe_write r answers start d empty)
                    (Bad host pipe_write r answers start d empty) empty
                    (reported host pipe_write r answers start d empty) fds0 u g w a 0 _
                    (ground arith)
                    λ _.
                      syscall_dup2-Ends (setting host pipe_write r answers start d empty)
                        (Good host pipe_write r answers start d empty)
                        (Bad host pipe_write r answers start d empty) empty
                        (reported host pipe_write r answers start d empty) fds1 u g w b 1 _
                        (ground arith)
                        λ _.
                          syscall_dup2-Ends (setting host pipe_write r answers start d empty)
                            (Good host pipe_write r answers start d empty)
                            (Bad host pipe_write r answers start d empty) empty
                            (reported host pipe_write r answers start d empty) fds2 u g w c 2 _
                            (ground arith)
                            λ _.
                              syscall_close-Ends (setting host pipe_write r answers start d empty)
                                (Good host pipe_write r answers start d empty)
                                (Bad host pipe_write r answers start d empty) empty
                                (reported host pipe_write r answers start d empty) fds3 u g w a _
                                other_a
                                λ _.
                                  syscall_close-Ends
                                    (setting host pipe_write r answers start d empty)
                                    (Good host pipe_write r answers start d empty)
                                    (Bad host pipe_write r answers start d empty) empty
                                    (reported host pipe_write r answers start d empty)
                                    (set a none fds3) u g w b _ other_b
                                    λ _.
                                      syscall_close-Ends
                                        (setting host pipe_write r answers start d empty)
                                        (Good host pipe_write r answers start d empty)
                                        (Bad host pipe_write r answers start d empty) empty
                                        (reported host pipe_write r answers start d empty)
                                        (set b none (set a none fds3)) u g w c _ other_c
                                        λ _.
                                          (change_dir-Ends host pipe_write r answers start d empty)
                                            (closed a b c fds3)
                                            (λ m. wired_lem r start.fds a b c m fresh) r.working_dir
                                            refl

  -- Where the three descriptors of the request are open and the write end of the error pipe, on
  -- which nothing stands yet, is open and 3 or more, whatever the calls of the forked side answer:
  -- a process that executes the program has copies of the three descriptors at 0, 1 and 2, beside
  -- them just what it inherits, the requested directory and ids, executes the requested program
  -- with the requested arguments and a null pointer behind them, in the requested environment or
  -- that of the parent where none is requested, has written nothing, and may set the ids that it
  -- has set. Where a process exits, the pipe holds just the bytes of the first errno that was no
  -- interruption, or of EPERM if it may not set the ids.
  pub forked_side-Ends :
      3 ≤ pipe_write
      → start.fds pipe_write ≡ some d
      → is_free (start.fds r.stdin) ≡ false
      → is_free (start.fds r.stdout) ≡ false
      → is_free (start.fds r.stderr) ≡ false
      → Ends
          (Good host pipe_write r answers start d empty)
          (Bad host pipe_write r answers start d empty)
          (forked_side host pipe_write r answers start)
  unfolding forked_side
  forked_side-Ends high pipe_open open_in open_out open_err =
      let u = start.uid in
      let g = start.gid in
      let w = start.cwd in
      let fds0 = start.fds in
      syscall_dupfd-Ends (setting host pipe_write r answers start d empty)
        (Good host pipe_write r answers start d empty) (Bad host pipe_write r answers start d empty)
        empty (reported host pipe_write r answers start d empty) fds0 u g w r.stdin _
        (λ a ans1 p1 h1.
          let fds1 = set a (copied (fds0 r.stdin)) fds0 in
          syscall_dupfd-Ends (setting host pipe_write r answers start d empty)
            (Good host pipe_write r answers start d empty)
            (Bad host pipe_write r answers start d empty) empty
            (reported host pipe_write r answers start d empty) fds1 u g w r.stdout _
            (λ b ans2 p2 h2.
              let fds2 = set b (copied (fds1 r.stdout)) fds1 in
              syscall_dupfd-Ends (setting host pipe_write r answers start d empty)
                (Good host pipe_write r answers start d empty)
                (Bad host pipe_write r answers start d empty) empty
                (reported host pipe_write r answers start d empty) fds2 u g w r.stderr _
                (λ c ans3 p3 h3.
                  let (ba, free_b) = free_after a b (fds0 r.stdin) fds0 open_in h2.was_free in
                  let (cb, free_c1) = free_after b c (fds1 r.stdout) fds1 h2.was_open h3.was_free in
                  let (ca, free_c) = free_after a c (fds0 r.stdin) fds0 open_in free_c1 in
                  connect-Ends a b c (differ fds0 pipe_write a d pipe_open h1.was_free)
                    (differ fds0 pipe_write b d pipe_open free_b)
                    (differ fds0 pipe_write c d pipe_open free_c) high
                    (record {
                      stdin_open = open_in;
                      stdout_open = open_out;
                      stderr_open = open_err;
                      low_a = h1.not_low;
                      low_b = h2.not_low;
                      low_c = h3.not_low;
                      free_a = h1.was_free;
                      free_b = free_b;
                      free_c = free_c;
                      differ_ab = ba;
                      differ_ac = ca;
                      differ_bc = cb;
                    })
                    ans3 p3 h3.stage)
                ans2 p2 h2.stage)
            ans1 p1 h1.stage)
        answers start
        (record {
          fds_are = refl;
          uid_is = refl;
          gid_is = refl;
          cwd_is = refl;
          files_are = refl;
          error_is = refl;
          pipe = pipe_open;
        })
