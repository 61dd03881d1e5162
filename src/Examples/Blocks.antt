-- ===== src/Examples/Blocks.antt =====
-- Blocks: a string of three bytes, two doubles, a vector of two 4-byte elements, a 1 by 2 matrix of
-- them, the tag 7; and what the readers make of the bytes at address 1020 and of hostile headers.
use ocaml_core.Prelude.{ℕ, ◌^◌, ◌≡◌, refl, List, [], ◌∷◌, arith}
use ocaml_core.Exec.{ok, raised, error, string_too_long, ◌>>=◌}
use ocaml_core.Memory.Store.{put}
use ocaml_core.Memory.Load.{Holds-put}
use ocaml_core.Endian.{le_bytes, little_endian, big_endian}
use ocaml_core.Write.Emit.{emit}
use ocaml_core.Write.Integers.Forms.{NatForm}
use ocaml_core.Write.Blocks.{Vector, Matrix, write_string_stub, write_ba1_stub, write_mat_stub}
use ocaml_core.Write.Blocks.Layout.{write_ba1_stub-emit}
use ocaml_core.Write.Blocks.Strings.{write_string_stub-emit}
use ocaml_core.Write.Blocks.Matrices.{write_mat_stub-emit}
use ocaml_core.Read.Blocks.{read_string_stub, read_ba1_stub, read_mat_stub}
use ocaml_core.Read.Blocks.RoundTrip.{read_string_stub_too_long, read_mat_stub-NatForm}
use ocaml_core.Read.Blocks.Sound.{StringResult, read_string_stub_result}
use ocaml_core.RoundTrip.Blocks.{read_string_stub-write_string_stub, read_ba1_stub-write_ba1_stub}
use ocaml_core.Examples.Setting.{
  memory, memory-IsBuffer, memory-IsMapped_from, memory-IsByteMemory, runtime,
}

abbrev text : List ℕ
text = 104 ∷ 105 ∷ 33 ∷ []

abbrev double : List ℕ
double = 1 ∷ 2 ∷ 3 ∷ 4 ∷ 5 ∷ 6 ∷ 7 ∷ 8 ∷ []

abbrev vector : Vector
vector = record { dim = 2; bytes = double }

abbrev matrix : Matrix
matrix = record { dim1 = 1; dim2 = 2; bytes = double }

wrote_string : (write_string_stub big_endian 1000 1100 text memory).0 ≡ ok 1004
unfolding emit
wrote_string = rw (write_string_stub-emit big_endian memory-IsBuffer text (omega arith))

wrote_vector : (write_ba1_stub big_endian 4 1000 1100 vector memory).0 ≡ ok 1009
unfolding emit
wrote_vector =
    rw (write_ba1_stub-emit big_endian memory-IsBuffer 4 vector refl (omega arith) (omega arith))

write_string_stub-emit_example :
    write_string_stub big_endian 1000 1100 text memory ≡ emit (3 ∷ text) 1000 1100 memory
write_string_stub-emit_example =
    write_string_stub-emit big_endian memory-IsBuffer text (omega arith)

write_mat_stub-emit_example :
    write_mat_stub big_endian 4 1000 1100 matrix memory
    ≡ (emit (1 ∷ []) 1000 1100 >>= λ next. emit (2 ∷ double) next 1100) memory
write_mat_stub-emit_example =
    write_mat_stub-emit big_endian memory-IsBuffer 4 matrix (omega arith) (omega arith)
      (omega arith) refl (omega arith)

read_string_stub-write_string_stub_example :
    read_string_stub little_endian
      (write_string_stub big_endian 1000 1100 text memory).1
      1100
      runtime
      1000
    ≡ (ok text, 1004)
read_string_stub-write_string_stub_example =
    read_string_stub-write_string_stub memory-IsBuffer 1004 big_endian little_endian runtime text
      (omega arith) wrote_string

read_ba1_stub-write_ba1_stub_example :
    read_ba1_stub little_endian
      (write_ba1_stub big_endian 4 1000 1100 vector memory).1
      1100
      runtime
      4
      1000
    ≡ (ok vector, 1009)
read_ba1_stub-write_ba1_stub_example =
    read_ba1_stub-write_ba1_stub memory-IsBuffer 1009 big_endian little_endian runtime 4 vector refl
      (omega arith) (omega arith) (ground arith) wrote_vector

read_string_stub_result_example :
    StringResult runtime memory 1100 1020 (read_string_stub little_endian memory 1100 runtime 1020)
read_string_stub_result_example =
    read_string_stub_result little_endian runtime memory 1100 1020 memory-IsMapped_from
      memory-IsByteMemory (omega arith) (omega arith)

abbrev hostile : List ℕ
hostile = 0xfd ∷ le_bytes 4 (2 ^ 30)

read_string_stub_too_long_example :
    read_string_stub little_endian (put memory 1000 hostile) 1100 runtime 1000
    ≡ (raised (error string_too_long), 1000)
read_string_stub_too_long_example =
    read_string_stub_too_long little_endian runtime (put memory 1000 hostile) 1100 1000
      (omega arith) (2 ^ 30) (NatForm.wide32 (2 ^ 30) (omega arith) refl) (omega arith)
      (omega arith) (omega arith) (Holds-put hostile memory 1000) (omega arith)

abbrev matrix_bytes : List ℕ
matrix_bytes = 1 ∷ 2 ∷ double

read_mat_stub-NatForm_example :
    read_mat_stub little_endian (put memory 1000 matrix_bytes) 1100 runtime 4 1000
    ≡ (ok matrix, 1010)
read_mat_stub-NatForm_example =
    read_mat_stub-NatForm little_endian runtime (put memory 1000 matrix_bytes) 1100 1000
      (omega arith) 4 matrix (NatForm.small 1 (omega arith) refl)
      (NatForm.small 2 (omega arith) refl) (omega arith) (omega arith) refl (omega arith)
      (ground arith) (Holds-put matrix_bytes memory 1000) (omega arith)
