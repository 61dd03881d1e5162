-- ===== src/Process/Pipe.antt =====
-- The error pipe of base/core/extended/lib/fork_exec.c: report_errno_on_pipe and errno_from_pipe.
pub mod Reports
pub mod RoundTrip
use ocaml_core.Prelude.{
  ℕ, zero, suc, ◌+◌, ◌-◌, List, [], ◌∷◌, ◌++◌, length, take, drop, ltb, ◌==◌, if◌then◌else◌,
}
use ocaml_core.Endian.{ByteOrder, native_bytes, native_value}
use ocaml_core.Bigstring.Output.{at_most}
use ocaml_core.Process.{Answer, done, fails, Process, End, exited, blocked, eintr, write}

-- `sizeof(int)`.
abbrev pub sizeof_int : ℕ
sizeof_int = 4

-- What `errno_from_pipe` finds; `asserted` is a failed assertion, `pending` a read that has no answer.
pub data Found : Type 0 where
  no_errno : Found
  errno : ℕ → Found
  asserted pending : Found

-- The loop, entered with `offset < sizeof(int)`; the child leaves with the status 254.
pub report_loop : ℕ → List ℕ → ℕ → List Answer → Process → End
report_loop fd my_err offset [] p = (blocked, p)
report_loop fd my_err offset (fails e ∷ ans) p = report_loop fd my_err offset ans p
report_loop fd my_err offset (done n ∷ ans) p =
    let out_chars = at_most (sizeof_int - offset) n in
    let p' = write fd (take out_chars (drop offset my_err)) p in
    let rest = report_loop fd my_err (offset + out_chars) ans p' in
    if ltb (offset + out_chars) sizeof_int then rest else (exited 254, p')

pub report_errno_on_pipe : ByteOrder → ℕ → ℕ → List Answer → Process → End
report_errno_on_pipe host fd my_err ans p =
    report_loop fd (native_bytes host sizeof_int my_err) 0 ans p

-- The end of the pipe.
abbrev pub at_end : ByteOrder → List ℕ → Found
at_end host my_errno =
    if length my_errno == 0
    then no_errno
    else if length my_errno == sizeof_int
    then errno (native_value host my_errno)
    else asserted

-- `content` is what the pipe holds, `my_errno` the bytes that were read.
pub errno_from_pipe : ByteOrder → List Answer → List ℕ → List ℕ → Found
errno_from_pipe host [] content my_errno = pending
errno_from_pipe host (fails e ∷ ans) content my_errno =
    let rest = errno_from_pipe host ans content my_errno in if e == eintr then rest else asserted
errno_from_pipe host (done n ∷ ans) content my_errno =
    let in_chars = at_most (length content) (at_most (sizeof_int - length my_errno) n) in
    let rest =
      errno_from_pipe host ans (drop in_chars content) (my_errno ++ take in_chars content) in
    if in_chars == 0 then at_end host my_errno else rest
