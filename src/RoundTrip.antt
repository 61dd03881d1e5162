-- ===== src/RoundTrip.antt =====
-- Reading back what was written, where the writer's and the reader's hosts may differ in byte order.
pub mod Integers
pub mod Blocks
pub mod Fixed
pub mod Positions
use ocaml_core.Prelude.{ℕ, ◌+◌, ◌≤◌, ◌≡◌, List, length, arith}
use ocaml_core.Exec.{Exec, ok}
use ocaml_core.Memory.{Memory}
use ocaml_core.Memory.Store.{put}
use ocaml_core.Memory.Load.{Holds, Holds-put}
use ocaml_core.Write.Emit.{emit, emit_ok}
use ocaml_core.Read.Pointer.{Reader}

-- A writer that emits bytes, and a reader that takes these bytes for a value.
module _ {A : Type 0} {m : Memory} {sptr eptr : ℕ} where
  pub read-write :
      (write : Exec Memory ℕ) (read : Memory → Reader A) (bs : List ℕ) (a : A)
      → write m ≡ emit bs sptr eptr m
      → ((m' : Memory)
          → Holds m' sptr bs
          → sptr + length bs ≤ eptr
          → read m' sptr ≡ (ok a, sptr + length bs))
      → (q : ℕ) → (write m).0 ≡ ok q
      → read (write m).1 sptr ≡ (ok a, q)
  read-write write read bs a emits reads q wrote =
      let (next, fits, left) = emit_ok bs sptr eptr m q (rw emits at wrote) in
      rw (emits, left, next) (reads (put m sptr bs) (Holds-put bs m sptr) fits)
