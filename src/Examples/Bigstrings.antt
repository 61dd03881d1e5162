-- ===== src/Examples/Bigstrings.antt =====
-- Bigstrings of a hundred bytes with two chunks, and checksums of three bytes.
use ocaml_core.Prelude.{refl, ℕ, ◌≡◌, pos, inl, List, [], ◌∷◌, arith}
use ocaml_core.Memory.{Memory}
use ocaml_core.Memory.Store.{put}
use ocaml_core.Memory.Load.{Holds-put}
use ocaml_core.Bigstring.{returned, io_error, end_of_file, received, wrote}
use ocaml_core.Bigstring.Input.{bigstring_read_stub, bigstring_really_recv_stub}
use ocaml_core.Bigstring.Input.Chunks.{bigstring_read_stub_enough, bigstring_read_stub_stopped}
use ocaml_core.Bigstring.Input.Receive.{bigstring_really_recv_stub_parts}
use ocaml_core.Bigstring.Output.{bigstring_really_output_stub}
use ocaml_core.Bigstring.Output.Whole.{bigstring_really_output_stub_whole}
use ocaml_core.Crc.{crc32, make_crc_table, empty_table}
use ocaml_core.Crc.Bitwise.{times_x, bitwise_crc32, crc32_bitwise}
use ocaml_core.Examples.Setting.{memory, buffer, buffer-IsBigarray}

abbrev text : List ℕ
text = 104 ∷ 105 ∷ 33 ∷ []

bigstring_read_stub_enough_example :
    bigstring_read_stub
      (received (1 ∷ 2 ∷ []) ∷ received (3 ∷ []) ∷ [])
      (pos 3)
      (pos 20)
      (pos 10)
      buffer
      memory
    ≡ (returned (pos 3), put memory 1020 (1 ∷ 2 ∷ 3 ∷ []))
bigstring_read_stub_enough_example =
    bigstring_read_stub_enough buffer-IsBigarray 20 10 3 (omega arith) (omega arith)
      ((1 ∷ 2 ∷ []) ∷ []) (omega arith, tt) (inl (omega arith)) 3 [] [] (omega arith) (omega arith)

bigstring_read_stub_stopped_example :
    bigstring_read_stub
      (received (1 ∷ 2 ∷ []) ∷ received [] ∷ [])
      (pos 3)
      (pos 20)
      (pos 10)
      buffer
      memory
    ≡ (io_error (pos 2) end_of_file, put memory 1020 (1 ∷ 2 ∷ []))
bigstring_read_stub_stopped_example =
    bigstring_read_stub_stopped buffer-IsBigarray 20 10 3 (omega arith) (omega arith)
      ((1 ∷ 2 ∷ []) ∷ []) (omega arith, tt) (inl (omega arith)) end_of_file [] (omega arith)
      (omega arith)

bigstring_really_recv_stub_parts_example :
    bigstring_really_recv_stub
      (received (104 ∷ 105 ∷ []) ∷ received (33 ∷ []) ∷ [])
      (pos 20)
      (pos 3)
      buffer
      memory
    ≡ (returned tt, put (put memory 1020 (104 ∷ 105 ∷ [])) 1021 (33 ∷ []))
bigstring_really_recv_stub_parts_example =
    bigstring_really_recv_stub_parts buffer-IsBigarray 20 104 (105 ∷ []) 33 [] [] (omega arith)
      (omega arith)

abbrev filled : Memory
filled = put memory 1020 text

bigstring_really_output_stub_whole_example :
    bigstring_really_output_stub filled (wrote 1 ∷ wrote 9 ∷ []) (pos 20) (pos 3) buffer []
    ≡ (returned tt, text)
bigstring_really_output_stub_whole_example =
    bigstring_really_output_stub_whole filled buffer 20 text (1 ∷ []) []
      (Holds-put text memory 1020) (omega arith) (omega arith) 9 [] (omega arith)

-- The reference has the check value of CRC-32, that of the text "123456789".
check_value : bitwise_crc32 0 (49 ∷ 50 ∷ 51 ∷ 52 ∷ 53 ∷ 54 ∷ 55 ∷ 56 ∷ 57 ∷ []) ≡ 0xcbf4_3926
unfolding times_x
check_value = refl

crc32_bitwise_example :
    (crc32 0 text empty_table ≡ (bitwise_crc32 0 text, make_crc_table empty_table))
    × (crc32 0 text (make_crc_table empty_table)
        ≡ (bitwise_crc32 0 text, make_crc_table empty_table))
crc32_bitwise_example = crc32_bitwise 0 text (omega arith, (omega arith, (omega arith, tt)))
