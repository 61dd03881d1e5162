-- ===== src/Process/Spawn/Ids.antt =====
-- The user and group ids of extended_ml_spawn in base/core/extended/lib/fork_exec.c: setuid comes before
-- setgid, and only the superuser's process may set a group.
use ocaml_core.Prelude.{
  ℕ, ◌≤◌, ◌≡◌, ◌≢◌, refl, sym, ◌∙◌, ◌&&◌, ℤ, wrap, List, [], some, true, false, ◌==◌, arith,
}
use ocaml_core.Endian.{ByteOrder}
use ocaml_core.Process.{
  Answer, Process, Descriptor, End, Ends, executed, exited, blocked, impossible, is_free,
}
use ocaml_core.Process.Spawn.{Request, forked_side}
use ocaml_core.Process.Spawn.Forked.{forked_side-Ends}

not-executed :
    (Q X : Process → Type 0) (e : End) → ((p : Process) → Q p → ⊥) → Ends Q X e → e.0 ≢ executed
not-executed Q X (executed, p) none_good h = absurd (none_good p h)
not-executed Q X (exited code, p) none_good h = cc
not-executed Q X (blocked, p) none_good h = cc
not-executed Q X (impossible, p) none_good h = cc

second_zero : (a b : ℕ) → (a == 0 && b == 0) ≡ true → b ≡ 0
second_zero a b h = ground arith

-- Where the three descriptors of the request are open and the write end of the error pipe is open,
-- empty and 3 or more: if the request asks for a user id whose low 32 bits are not 0 and for a
-- group id too, the forked side executes no program, whatever the calls answer, also for the
-- superuser.
pub forked_side_with_ids :
    (host : ByteOrder) (pipe_write : ℕ) (r : Request) (answers : List Answer) (start : Process)
    (d : Descriptor) (v_uid v_gid : ℤ)
    → start.files d.file ≡ []
    → 3 ≤ pipe_write
    → start.fds pipe_write ≡ some d
    → is_free (start.fds r.stdin) ≡ false
    → is_free (start.fds r.stdout) ≡ false
    → is_free (start.fds r.stderr) ≡ false
    → r.setuid ≡ some v_uid
    → r.setgid ≡ some v_gid
    → wrap 32 v_uid ≢ 0
    → (forked_side host pipe_write r answers start).0 ≢ executed
forked_side_with_ids host pw r answers start d v_uid v_gid empty high open_pipe open_in open_out
      open_err uid_is gid_is not_root =
    not-executed _ _ (forked_side host pw r answers start)
      (λ p h.
        let may : (start.uid == 0 && wrap 32 v_uid == 0) ≡ true =
          sym (rw (uid_is, gid_is) refl) ∙ h.is_allowed in
        not_root (second_zero start.uid (wrap 32 v_uid) may))
      (forked_side-Ends host pw r answers start d empty high open_pipe open_in open_out open_err)
