-- ===== src/Examples/Integers.antt =====
-- Integers: -300 is written as the code of the 16-bit form and two bytes; at address 1020 of the
-- memory stands the code of the 64-bit form.
use ocaml_core.Prelude.{◌+◌, ◌-◌, ◌≤◌, ◌^◌, ◌<◌, ◌≡◌, negsuc, [], ◌∷◌, arith}
use ocaml_core.Exec.{ok}
use ocaml_core.Endian.{le_bytes, little_endian, big_endian}
use ocaml_core.Write.Emit.{emit}
use ocaml_core.Write.Integers.{write_int, write_nat0, write_int64_stub}
use ocaml_core.Write.Integers.Encoding.{write_int-emit, write_nat0-emit}
use ocaml_core.Write.Integers.Forms.{IntForm, NatForm, wide32}
use ocaml_core.Read.Integers.{read_int, read_nat0, read_int64}
use ocaml_core.Read.Integers.RoundTrip.{IsOcamlInt}
use ocaml_core.Read.Integers.Sound.{ReadResult}
use ocaml_core.Read.Integers.Total.{read_int_result, read_nat0_result}
use ocaml_core.RoundTrip.Integers.{
  read_int-write_int, read_int64-write_int64_stub, read_nat0-write_nat0, write_int_shortest,
}
use ocaml_core.Examples.Setting.{memory, memory-IsBuffer, memory-IsMapped_from, memory-IsByteMemory}

write_int-emit_example :
    write_int big_endian 1000 1100 (negsuc 299) memory
    ≡ emit (0xfe ∷ 0xd4 ∷ 0xfe ∷ []) 1000 1100 memory
write_int-emit_example = write_int-emit memory-IsBuffer big_endian (negsuc 299) (omega arith)

wrote_int : (write_int big_endian 1000 1100 (negsuc 299) memory).0 ≡ ok 1003
unfolding emit
wrote_int = rw (write_int-emit memory-IsBuffer big_endian (negsuc 299) (omega arith))

wrote_nat0 : (write_nat0 big_endian 1000 1100 300 memory).0 ≡ ok 1003
unfolding emit
wrote_nat0 = rw (write_nat0-emit memory-IsBuffer big_endian 300 (omega arith))

wrote_int64 : (write_int64_stub big_endian 1000 1100 (negsuc 299) memory).0 ≡ ok 1003
unfolding write_int64_stub
wrote_int64 = wrote_int

read_int-write_int_example :
    read_int little_endian (write_int big_endian 1000 1100 (negsuc 299) memory).1 1100 1000
    ≡ (ok (negsuc 299), 1003)
read_int-write_int_example =
    read_int-write_int big_endian little_endian memory-IsBuffer 1003 (negsuc 299) (omega arith)
      wrote_int

read_int64-write_int64_stub_example :
    read_int64 little_endian (write_int64_stub big_endian 1000 1100 (negsuc 299) memory).1 1100 1000
    ≡ (ok (negsuc 299), 1003)
read_int64-write_int64_stub_example =
    read_int64-write_int64_stub big_endian little_endian memory-IsBuffer 1003 (negsuc 299)
      (omega arith) wrote_int64

read_nat0-write_nat0_example :
    read_nat0 little_endian (write_nat0 big_endian 1000 1100 300 memory).1 1100 1000
    ≡ (ok 300, 1003)
read_nat0-write_nat0_example =
    read_nat0-write_nat0 big_endian little_endian memory-IsBuffer 1003 300 (omega arith) wrote_nat0

long_form : IntForm (negsuc 299) (0xfd ∷ le_bytes 4 (2 ^ 32 - 300))
long_form = wide32 (2 ^ 32 - 300) (omega arith) (ground arith)

write_int_shortest_example : 1003 ≤ 1000 + 5
write_int_shortest_example =
    write_int_shortest big_endian little_endian memory-IsBuffer 1003 (negsuc 299) (omega arith)
      long_form wrote_int

read_int_result_example :
    ReadResult IntForm IsOcamlInt memory 1100 1020 (read_int little_endian memory 1100 1020)
read_int_result_example =
    read_int_result little_endian memory 1100 1020 memory-IsMapped_from memory-IsByteMemory
      (omega arith) (omega arith)

read_nat0_result_example :
    ReadResult NatForm (λ n. n < 2 ^ 62) memory 1100 1020 (read_nat0 little_endian memory 1100 1020)
read_nat0_result_example =
    read_nat0_result little_endian memory 1100 1020 memory-IsMapped_from memory-IsByteMemory
      (omega arith) (omega arith)
