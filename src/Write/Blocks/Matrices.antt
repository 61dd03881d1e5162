-- ===== src/Write/Blocks/Matrices.antt =====
-- A matrix: its first dimension, then its second with the elements. Where the first fits and the rest
-- does not, the first stays written.
use ocaml_core.Prelude.{
  ℕ, ◌+◌, ◌*◌, ◌^◌, ◌%◌, ◌≤◌, ◌<◌, ◌≡◌, refl, List, ◌++◌, length, leb, arith, Bool-cases, inl, inr,
}
use ocaml_core.Exec.{◌>>=◌}
use ocaml_core.Memory.{Memory}
use ocaml_core.Memory.Store.{put, IsMapped-put}
use ocaml_core.Endian.{ByteOrder}
use ocaml_core.Write.Emit.{emit, IsBuffer}
use ocaml_core.Write.Integers.Encoding.{nat0_bytes, write_nat0-emit}
use ocaml_core.Write.Blocks.{Matrix, write_mat_stub, write_area}
use ocaml_core.Write.Blocks.Layout.{write_block-emit}

length-nat0_bytes : (n : ℕ) → length (nat0_bytes n) ≤ 9
length-nat0_bytes n = ground arith

IsBuffer-put :
    {m : Memory} {sptr eptr : ℕ} (bs : List ℕ)
    → IsBuffer m sptr eptr
    → sptr + length bs ≤ eptr
    → IsBuffer (put m sptr bs) (sptr + length bs) eptr
IsBuffer-put {m} {sptr} {eptr} bs h fits = record {
  mapped = λ a la ah. IsMapped-put bs m sptr eptr sptr h.mapped a (omega arith) ah;
  below = omega (arith, h.end);
  end = h.end;
}

module _ (host : ByteOrder) {m : Memory} {sptr eptr : ℕ} (h : IsBuffer m sptr eptr) where
  -- For a matrix whose dimensions and their product are below 2 ^ 64, with `size` bytes for each
  -- element and below 2 ^ 62 bytes in all, and a mapped buffer below 2 ^ 63, the matrix writer
  -- stores the first dimension and then, as one unit, the second dimension and the elements; where
  -- the first fits and the rest does not, it raises `Buffer_short` with the first stored.
  pub write_mat_stub-emit :
      (size : ℕ) (mat : Matrix)
      → mat.dim1 < 2 ^ 64
      → mat.dim2 < 2 ^ 64
      → mat.dim1 * mat.dim2 < 2 ^ 64
      → length mat.bytes ≡ mat.dim1 * mat.dim2 * size
      → length mat.bytes < 2 ^ 62
      → write_mat_stub host size sptr eptr mat m
        ≡ (emit (nat0_bytes mat.dim1) sptr eptr >>= λ next.
              emit (nat0_bytes mat.dim2 ++ mat.bytes) next eptr)
            m
  unfolding write_mat_stub write_area emit
  write_mat_stub-emit size mat d1 d2 area sizes small =
      let first = nat0_bytes mat.dim1 in
      let a : mat.dim1 * mat.dim2 % 2 ^ 64 ≡ mat.dim1 * mat.dim2 = omega arith in
      let tot : mat.dim1 * mat.dim2 % 2 ^ 64 * size % 2 ^ 64 ≡ length mat.bytes =
        rw (a, ← sizes) (omega arith) in
      elim (Bool-cases (leb (sptr + length first) eptr)) [
        | inl fits ↦
            rw (write_nat0-emit h host mat.dim1 d1, fits, tot)
              (write_block-emit host (IsBuffer-put first h (ground arith)) mat.dim2
                (length mat.bytes) mat.bytes d2 refl small)
        | inr short ↦ rw (write_nat0-emit h host mat.dim1 d1, short)
      ]
