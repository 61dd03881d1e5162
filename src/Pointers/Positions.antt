-- ===== src/Pointers/Positions.antt =====
-- Reading through a cell agrees with reading at a position of the bigarray.
use ocaml_core.Prelude.{ℕ, ◌^◌, ◌<◌, ◌≡◌, refl, ap, ℤ, pos, wrap, ltb_ℤ, none, false, arith}
use ocaml_core.Exec.{Outcome, ok, raised, fault, pure, ◌>>=◌}
use ocaml_core.Memory.{ptr_add}
use ocaml_core.Read.Pointer.{Reader}
use ocaml_core.Bigarray.{Buf, ml_read, store_position}
use ocaml_core.Pointers.{
  SptrPtr, on_sptr_ptr, get_buf_ptr_stub, get_buf_pos_stub, alloc_sptr_ptr_stub,
  dealloc_sptr_ptr_stub,
}

-- The position of the pointer to a position.
pub get_buf_pos_stub-get_buf_ptr_stub :
    (buf : Buf) (n : ℕ)
    → n < 2 ^ 62
    → buf.start < 2 ^ 62
    → get_buf_pos_stub buf.start (get_buf_ptr_stub buf (pos n)) ≡ pos n
unfolding get_buf_pos_stub get_buf_ptr_stub
get_buf_pos_stub-get_buf_ptr_stub buf n small low = ground arith

-- A value and a position, as the pair that reading through a cell returns once the cell is freed.
abbrev freed_with : {A : Type 0} → Outcome A × ℤ → Outcome (A × ℤ) × SptrPtr
freed_with (ok a, p) = (ok (a, p), none)
freed_with (raised e, p) = (raised e, none)
freed_with (fault, p) = (fault, none)

module _ {A : Type 0} (read : ℕ → Reader A) (buf : Buf) (n : ℕ) where
  -- Allocate the cell at the position, read through it, free it.
  abbrev pub read_through_cell : Outcome (A × ℤ) × SptrPtr
  read_through_cell =
      (on_sptr_ptr (read (ptr_add buf.start buf.dim)) >>= λ a.
      dealloc_sptr_ptr_stub buf >>= λ p. pure (a, p))
        (alloc_sptr_ptr_stub buf (pos n))

  after_read :
      (a : A) (p : ℤ) (r : Outcome A × ℕ)
      → read (ptr_add buf.start buf.dim) (ptr_add buf.start (wrap 64 (pos n))) ≡ r
      → store_position buf (pos n) r ≡ (ok a, p)
      → read_through_cell ≡ (ok (a, p), none)
  unfolding alloc_sptr_ptr_stub dealloc_sptr_ptr_stub get_buf_ptr_stub
  after_read a p (ok b, q) e stored = rw e (ap freed_with stored)
  after_read a p (raised x, q) e stored = absurd (ground arith)
  after_read a p (fault, q) e stored = absurd (ground arith)

  -- For any reader: where the `ml_read_..._stub` at a position returns a value and sets a new
  -- position, allocating a cell at the position, reading through it up to the end of the bigarray
  -- and freeing it returns the same value and the same new position, and leaves the cell freed.
  pub read_through_cell-ml_read :
      (a : A) (p : ℤ) → ml_read read buf (pos n) ≡ (ok a, p) → read_through_cell ≡ (ok (a, p), none)
  unfolding ml_read
  read_through_cell-ml_read a p h =
      let inside : ltb_ℤ (pos n) (pos 0) ≡ false = ground arith in
      after_read a p _ refl (rw inside at h)
