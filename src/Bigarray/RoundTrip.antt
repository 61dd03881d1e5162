-- ===== src/Bigarray/RoundTrip.antt =====
-- Reading at a position what was written there.
use ocaml_core.Prelude.{ℕ, ◌+◌, ◌^◌, ◌≤◌, ◌<◌, ◌≡◌, pos, List, length, arith, if◌then◌else◌, leb}
use ocaml_core.Exec.{Exec, ok, raised, buffer_short}
use ocaml_core.Memory.{Memory}
use ocaml_core.Memory.Store.{IsMapped, put}
use ocaml_core.Write.Emit.{emit, IsBuffer}
use ocaml_core.Read.Pointer.{Reader}
use ocaml_core.Bigarray.{Buf, ml_write, ml_read}

-- The whole bigarray is mapped, in the half of the address space that programs have.
pub record IsBigarray (m : Memory) (buf : Buf) : Type 0 where
  pub mapped : IsMapped m buf.start (buf.start + buf.dim)
  pub low : buf.start + buf.dim < 2 ^ 62

pub IsBuffer-at :
    {m : Memory} {buf : Buf} (n : ℕ)
    → IsBigarray m buf
    → n < 2 ^ 62
    → IsBuffer m (buf.start + n) (buf.start + buf.dim)
IsBuffer-at {m} {buf} n h small = record {
  mapped = λ a la ah. h.mapped a (omega arith) ah;
  below = omega (arith, h.low);
  end = omega (arith, h.low);
}

module _ {m : Memory} {buf : Buf} (h : IsBigarray m buf) (n : ℕ) (small : n < 2 ^ 62) where
  abbrev at : ℕ
  at = buf.start + n

  abbrev end : ℕ
  end = buf.start + buf.dim

  -- On a bigarray that is mapped whole below 2 ^ 62, at a position below 2 ^ 62: a writer that
  -- stores fewer than 2 ^ 62 given bytes or raises `Buffer_short`, as the stubs do, becomes an
  -- `ml_write_..._stub` that returns the position behind the bytes and stores them at the position
  -- if they end inside the bigarray, and that raises `Buffer_short` and stores nothing otherwise.
  pub ml_write-emit :
      (write : ℕ → ℕ → Exec Memory ℕ) (bs : List ℕ)
      → length bs < 2 ^ 62
      → write at end m ≡ emit bs at end m
      → ml_write write buf (pos n) m ≡ (
          if leb (n + length bs) buf.dim
          then (ok (pos (n + length bs)), put m at bs)
          else (raised buffer_short, m))
  unfolding ml_write emit
  ml_write-emit write bs len emits = ground (arith, h.low, emits)

  -- On a bigarray that is mapped whole below 2 ^ 62, at a position below 2 ^ 62: where a reader
  -- passes bytes that end inside the bigarray and returns a value, the `ml_read_..._stub` on it
  -- returns the value and sets the position behind the bytes.
  pub ml_read-Holds :
      {A : Type 0} (read : ℕ → Reader A) (bs : List ℕ) (a : A)
      → length bs < 2 ^ 62
      → n + length bs ≤ buf.dim
      → read end at ≡ (ok a, at + length bs)
      → ml_read read buf (pos n) ≡ (ok a, pos (n + length bs))
  unfolding ml_read
  ml_read-Holds read bs a len fits reads = ground (arith, h.low, reads)
