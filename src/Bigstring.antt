-- ===== src/Bigstring.antt =====
-- base/core/lib/bigstring_stubs.c: what its stubs share. A stub that calls the system takes the
-- results of the calls in their order; its state is the memory or the bytes that were sent.
pub mod Blit
pub mod Input
pub mod Output
use ocaml_core.Prelude.{ℕ, ◌+◌, ◌-◌, ◌%◌, ◌^◌, ℤ, wrap, List}
use ocaml_core.Exec.{Outcome, ok, raised, fault}
use ocaml_core.Memory.{Memory, ptr_add}
use ocaml_core.Bigarray.{Buf}

-- The exception inside `Bigstring.IOError`; a Unix error with its `errno`.
pub data Cause : Type 0 where
  end_of_file : Cause
  unix_error : ℕ → Cause

-- `io_error` has the number of bytes that were transferred. A `blocked` stub waits in a call for
-- which no result is given; `unmapped` is an access outside the mapped memory.
pub data Result {ℓ} (A : Type ℓ) : Type ℓ where
  returned : A → Result A
  io_error : ℤ → Cause → Result A
  uerror : ℕ → Result A
  blocked unmapped : Result A

-- A result of `read` or `recv`: the bytes at hand, of which the call takes no more than it asked
-- for, or `errno`. The call returns 0 where there are none.
pub data Received : Type 0 where
  received : List ℕ → Received
  failed : ℕ → Received

-- A result of `write` or `send`: how many bytes the descriptor would take, or `errno`.
pub data Written : Type 0 where
  wrote : ℕ → Written
  refused : ℕ → Written

abbrev pub get_bstr : Buf → ℤ → ℕ
get_bstr buf v_pos = ptr_add buf.start (wrap 64 v_pos)

-- `len -= n` on `size_t`.
abbrev pub len_sub : ℕ → ℕ → ℕ
len_sub len n = (len + 2 ^ 64 - n) % 2 ^ 64

-- What follows a store by the system or by `memcpy`.
abbrev pub after_store :
    {A : Type 0} → Outcome (Unit {0}) × Memory → (Memory → Result A × Memory) → Result A × Memory
after_store (ok u, m) next = next m
after_store (raised e, m) next = (unmapped, m)
after_store (fault, m) next = (unmapped, m)
