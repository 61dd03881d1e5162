-- ===== src/Process.antt =====
-- What base/core/extended/lib/fork_exec.c and base/core/lib/unix_stubs.c share when they create a
-- process: its descriptors and the system calls on them. A run takes the answers of the system, one for
-- each call, in their order.
pub mod Environ
pub mod Pipe
pub mod Retry
pub mod Spawn
pub mod Create
use ocaml_core.Prelude.{
  ℕ, zero, suc, ◌+◌, ◌-◌, ◌%◌, ◌/◌, ◌*◌, ◌^◌, List, [], ◌∷◌, ◌++◌, Option, none, some, Bool, true,
  false, ◌&&◌, bit_and, bit_or, ltb, leb, ◌==◌, if◌then◌else◌,
}

-- The result of a call, or `errno` where the call returns -1.
pub data Answer : Type 0 where
  done : ℕ → Answer
  fails : ℕ → Answer

-- An open file description, named by a number, and the flags of the descriptor.
pub record Descriptor : Type 0 where
  pub file : ℕ
  pub flags : ℕ

abbrev pub Fds : Type 0
Fds = ℕ → Option Descriptor

abbrev pub set : ℕ → Option Descriptor → Fds → Fds
set n d fds m = if m == n then d else fds m

abbrev pub Text : Type 0
Text = List ℕ

-- What `exec` runs; a vector of strings ends with a null pointer, `none`. `search` is true for `execvp`.
pub record Image : Type 0 where
  pub search : Bool
  pub prog : Text
  pub args : List (Option Text)
  pub env : Option (List (Option Text))

pub record Process : Type 0 where
  pub fds : Fds
  pub files : ℕ → List ℕ  -- the bytes written to each open file description
  pub uid : ℕ
  pub gid : ℕ
  pub cwd : Text
  pub image : Option Image

abbrev pub fd_cloexec : ℕ
fd_cloexec = 1

abbrev pub eperm : ℕ
eperm = 1

abbrev pub eintr : ℕ
eintr = 4

abbrev pub ebadf : ℕ
ebadf = 9

-- How a run ends. `blocked`: no answer is left; `impossible`: the system does not give this answer.
pub data How : Type 0 where
  executed : How
  exited : ℕ → How
  blocked impossible : How

abbrev pub End : Type 0
End = How × Process

-- One attempt at a call, with the answers that are left.
pub data Tried : Type 0 where
  gave : ℕ → List Answer → Process → Tried
  erred : ℕ → List Answer → Process → Tried
  waits unreal : Process → Tried

abbrev pub on_effect : Option Process → ℕ → List Answer → Process → Tried
on_effect (some p') n ans p = gave n ans p'
on_effect none n ans p = unreal p

-- A call that changes the process only where it succeeds: `effect n` is `none` where the call cannot
-- give `n`.
abbrev pub call : (ℕ → Process → Option Process) → List Answer → Process → Tried
call effect [] p = waits p
call effect (fails e ∷ ans) p = erred e ans p
call effect (done n ∷ ans) p = on_effect (effect n p) n ans p

abbrev pub is_free : Option Descriptor → Bool
is_free none = true
is_free (some d) = false

-- A copy of a descriptor has no flags.
abbrev pub copied : Option Descriptor → Option Descriptor
copied none = none
copied (some d) = some (record { file = d.file; flags = 0 })

abbrev pub copy_to : ℕ → Option Descriptor → Process → Option Process
copy_to n none p = none
copy_to n (some d) p = some (record p { fds = set n (copied (some d)) p.fds })

-- `fcntl(fd, F_DUPFD, low)` gives a descriptor that is not in use, and not below `low`.
abbrev pub dupfd : ℕ → ℕ → ℕ → Process → Option Process
dupfd fd low n p = if leb low n && is_free (p.fds n) then copy_to n (p.fds fd) p else none

-- `dup2(fd, n)`.
abbrev pub dup2 : ℕ → ℕ → ℕ → Process → Option Process
dup2 fd n answer p = copy_to n (p.fds fd) p

-- `close(fd)`: on Linux the descriptor is free afterwards whatever the call returns.
abbrev pub release : ℕ → Process → Process
release fd p = record p { fds = set fd none p.fds }

abbrev pub close : ℕ → List Answer → Process → Tried
close fd [] p = waits p
close fd (fails e ∷ ans) p = erred e ans (release fd p)
close fd (done n ∷ ans) p = gave n ans (release fd p)

-- `pipe` gives two descriptors, for reading and for writing, with their open files.
pub data PipeAnswer : Type 0 where
  piped : ℕ → ℕ → ℕ → ℕ → PipeAnswer
  no_pipe : ℕ → PipeAnswer

abbrev pub open_pipe : ℕ → ℕ → ℕ → ℕ → Process → Process
open_pipe rd wr in_file out_file p = record p {
  fds =
      set wr (some (record { file = out_file; flags = 0 }))
        (set rd (some (record { file = in_file; flags = 0 })) p.fds);
}

-- `write(fd, bytes)` to the file that the descriptor stands for.
abbrev pub append : ℕ → List ℕ → (ℕ → List ℕ) → ℕ → List ℕ
append file bytes files f = if f == file then files f ++ bytes else files f

abbrev pub write_file : Option Descriptor → List ℕ → Process → Process
write_file none bytes p = p
write_file (some d) bytes p = record p { files = append d.file bytes p.files }

abbrev pub write : ℕ → List ℕ → Process → Process
write fd bytes p = write_file (p.fds fd) bytes p

-- `exec` closes the descriptors with the flag FD_CLOEXEC.
abbrev pub inherited : Option Descriptor → Option Descriptor
inherited none = none
inherited (some d) = if bit_and d.flags fd_cloexec == 0 then some d else none

abbrev pub exec : Image → ℕ → Process → Option Process
exec image n p = some (record p { fds = λ m. inherited (p.fds m); image = some image })

-- `Q` holds of a process that executes its program, and `X` of one that exits.
abbrev pub Ends : (Process → Type 0) → (Process → Type 0) → End → Type 0
Ends Q X (executed, p) = Q p
Ends Q X (exited code, p) = X p
Ends Q X (blocked, p) = Unit {0}
Ends Q X (impossible, p) = Unit {0}
