-- ===== src/Examples/Positions.antt =====
-- Fixed-width integers, bigarray positions and encoders at concrete inputs.
use ocaml_core.Prelude.{◌≡◌, refl, pos, negsuc, [], ◌∷◌, arith}
use ocaml_core.Exec.{ok}
use ocaml_core.Memory.{store}
use ocaml_core.Memory.Store.{put}
use ocaml_core.Memory.Load.{Holds-put}
use ocaml_core.Endian.{little_endian, big_endian, le64enc}
use ocaml_core.Endian.Encoded.{le64enc_lem}
use ocaml_core.Write.Integers.{write_int}
use ocaml_core.Write.Integers.Encoding.{write_int-emit}
use ocaml_core.Read.Integers.{read_int}
use ocaml_core.Read.Integers.RoundTrip.{read_int-IntForm}
use ocaml_core.Write.Integers.Forms.{small}
use ocaml_core.Bigarray.{ml_write, ml_read}
use ocaml_core.Bigarray.RoundTrip.{IsBuffer-at, ml_write-emit, ml_read-Holds}
use ocaml_core.RoundTrip.Positions.{IsReadAt, ml_read_int-IsReadAt, ml_read_int-ml_write_int}
use ocaml_core.Pointers.Positions.{read_through_cell, read_through_cell-ml_read}
use ocaml_core.Prelude.{none}
use ocaml_core.Examples.Setting.{memory, memory-IsByteMemory, buffer, buffer-IsBigarray}

le64enc_lem_example :
    le64enc big_endian 1000 0x0102 ≡ store 1000 (2 ∷ 1 ∷ 0 ∷ 0 ∷ 0 ∷ 0 ∷ 0 ∷ 0 ∷ [])
le64enc_lem_example = le64enc_lem big_endian 1000 0x0102

ml_write-emit_example :
    ml_write (λ sptr eptr. write_int big_endian sptr eptr (negsuc 299)) buffer (pos 20) memory
    ≡ (ok (pos 23), put memory 1020 (0xfe ∷ 0xd4 ∷ 0xfe ∷ []))
ml_write-emit_example =
    ml_write-emit buffer-IsBigarray 20 (omega arith)
      (λ sptr eptr. write_int big_endian sptr eptr (negsuc 299)) (0xfe ∷ 0xd4 ∷ 0xfe ∷ [])
      (omega arith)
      (write_int-emit (IsBuffer-at 20 buffer-IsBigarray (omega arith)) big_endian (negsuc 299)
        (omega arith))

read_at_20 :
    ml_read (λ eptr. read_int big_endian (put memory 1020 (7 ∷ [])) eptr) buffer (pos 20)
    ≡ (ok (pos 7), pos 21)
read_at_20 =
    ml_read-Holds buffer-IsBigarray 20 (omega arith)
      (λ eptr. read_int big_endian (put memory 1020 (7 ∷ [])) eptr) (7 ∷ []) (pos 7) (omega arith)
      (omega arith)
      (read_int-IntForm big_endian (put memory 1020 (7 ∷ [])) 1100 1020 (omega arith) (pos 7)
        (omega arith) (small 7 (omega arith) refl) (Holds-put (7 ∷ []) memory 1020) (omega arith))

read_through_cell-ml_read_example :
    read_through_cell (λ eptr. read_int big_endian (put memory 1020 (7 ∷ [])) eptr) buffer 20
    ≡ (ok (pos 7, pos 21), none)
read_through_cell-ml_read_example =
    read_through_cell-ml_read (λ eptr. read_int big_endian (put memory 1020 (7 ∷ [])) eptr) buffer
      20 (pos 7) (pos 21) read_at_20

ml_read_int-IsReadAt_example :
    IsReadAt memory buffer
      (pos 20)
      (ml_read (λ eptr. read_int big_endian memory eptr) buffer (pos 20))
ml_read_int-IsReadAt_example =
    ml_read_int-IsReadAt buffer-IsBigarray big_endian (pos 20) memory-IsByteMemory (omega arith)

wrote_minus_300 :
    ml_write (λ sptr eptr. write_int big_endian sptr eptr (negsuc 299)) buffer (pos 20) memory
    ≡ (ok (pos 23), put memory 1020 (0xfe ∷ 0xd4 ∷ 0xfe ∷ []))
wrote_minus_300 =
    ml_write-emit buffer-IsBigarray 20 (omega arith)
      (λ sptr eptr. write_int big_endian sptr eptr (negsuc 299)) (0xfe ∷ 0xd4 ∷ 0xfe ∷ [])
      (omega arith)
      (write_int-emit (IsBuffer-at 20 buffer-IsBigarray (omega arith)) big_endian (negsuc 299)
        (omega arith))

ml_read_int-ml_write_int_example :
    ml_read
      (λ eptr.
        read_int little_endian
          ((ml_write
            (λ sptr eptr'. write_int big_endian sptr eptr' (negsuc 299))
            buffer
            (pos 20)
            memory).1)
          eptr)
      buffer
      (pos 20)
    ≡ (ok (negsuc 299), pos 23)
ml_read_int-ml_write_int_example =
    ml_read_int-ml_write_int buffer-IsBigarray big_endian little_endian (negsuc 299) (pos 23) 20
      (omega arith) (omega arith) (rw wrote_minus_300 refl)
