-- ===== src/RoundTrip/Positions.antt =====
-- Integers at the positions of a bigarray: the entry points that MK_ML_WRITER and MK_ML_READER of
-- base/bin_prot/lib make of write_int and read_int.
use ocaml_core.Prelude.{
  ℕ, ltb_ℤ, wrap, ◌<ℤ◌, ◌+◌, ◌^◌, ◌≤◌, ◌<◌, ◌≡◌, refl, sym, ap, ◌∙◌, inl, inr, ℤ, pos, negsuc, List,
  length, leb, true, false, Bool-cases, arith,
}
use ocaml_core.Exec.{
  Outcome, ok, raised, fault, Exn, buffer_short, error, read_error, array_bound, out_of_memory,
}
use ocaml_core.Memory.{Memory, ptr_add}
use ocaml_core.Memory.Store.{put}
use ocaml_core.Memory.Load.{Holds, Holds-put, IsByteMemory}
use ocaml_core.Endian.{ByteOrder}
use ocaml_core.Bigarray.{Buf, ml_write, ml_read, store_position}
use ocaml_core.Bigarray.RoundTrip.{IsBigarray, IsBuffer-at, ml_write-emit, ml_read-Holds}
use ocaml_core.Write.Integers.{write_int}
use ocaml_core.Write.Integers.Encoding.{int_bytes, write_int-emit}
use ocaml_core.Write.Integers.Forms.{IntForm, int_bytes-IntForm}
use ocaml_core.Read.Integers.{read_int}
use ocaml_core.Read.Integers.RoundTrip.{IsOcamlInt, read_int-IntForm}
use ocaml_core.Read.Integers.Sound.{ReadResult}
use ocaml_core.Read.Integers.Total.{read_int_result}

-- What a read at a position may do: a negative position is refused; a value stands there in one of its
-- forms, inside the bigarray, and the position goes behind it; an exception leaves the position.
abbrev pub IsReadError : Exn → Type 0
IsReadError buffer_short = Unit {0}
IsReadError (error e) = Unit {0}
IsReadError (read_error e x) = ⊥
IsReadError array_bound = ⊥
IsReadError out_of_memory = ⊥

abbrev pub IsReadAt : Memory → Buf → ℤ → Outcome ℤ × ℤ → Type 0
IsReadAt m buf (negsuc k) (o, v) = (o ≡ raised array_bound) × (v ≡ negsuc k)
IsReadAt m buf (pos n) (ok a, v) =
    IsOcamlInt a
    × ((bs : List ℕ) × IntForm a bs
        × Holds m (buf.start + n) bs
        × (v ≡ pos (n + length bs))
        × (n + length bs ≤ buf.dim))
IsReadAt m buf (pos n) (raised e, v) = IsReadError e × (v ≡ pos n)
IsReadAt m buf (pos n) (fault, v) = ⊥

module _ {m : Memory} {buf : Buf} (h : IsBigarray m buf) where
  stored_position :
      (n : ℕ) (r : Outcome ℤ × ℕ)
      → n < 2 ^ 62
      → ReadResult IntForm IsOcamlInt m (buf.start + buf.dim) (buf.start + n) r
      → IsReadAt m buf (pos n) (store_position buf (pos n) r)
  stored_position n (ok a, q) small (range, (bs, form, holds, next), inside) =
      (range, (bs, form, holds, ground (arith, h.low, next, inside), omega (arith, next, inside)))
  stored_position n (raised buffer_short, q) small r = (tt, refl)
  stored_position n (raised (error e), q) small r = (tt, refl)
  stored_position n (raised (read_error e x), q) small r = elim r [ ]
  stored_position n (raised array_bound, q) small r = elim r [ ]
  stored_position n (raised out_of_memory, q) small r = elim r [ ]
  stored_position n (fault, q) small r = elim r [ ]

  -- On a bigarray that is mapped whole below 2 ^ 62 and holds any bytes, at any position below 2 ^
  -- 62: `ml_read_int_stub` touches nothing outside. At a negative position it raises the array
  -- bound error and leaves the position. Otherwise it returns a 63-bit integer of which a form
  -- stands at the position and ends inside the bigarray, and sets the position just behind this
  -- form; or it raises `Buffer_short` or `Error` and leaves the position, also where the reader's
  -- pointer had moved.
  pub ml_read_int-IsReadAt :
      (host : ByteOrder) (v_pos : ℤ)
      → IsByteMemory m
      → v_pos <ℤ pos (2 ^ 62)
      → IsReadAt m buf v_pos (ml_read (λ eptr. read_int host m eptr) buf v_pos)
  unfolding ml_read
  ml_read_int-IsReadAt host (negsuc k) bytes small =
      let negative : ltb_ℤ (negsuc k) (pos 0) ≡ true = ground arith in rw negative (refl, refl)
  ml_read_int-IsReadAt host (pos n) bytes small =
      let start : ptr_add buf.start (wrap 64 (pos n)) ≡ buf.start + n = omega (arith, h.low) in
      let end : ptr_add buf.start buf.dim ≡ buf.start + buf.dim = omega (arith, h.low) in
      let not_negative : ltb_ℤ (pos n) (pos 0) ≡ false = ground arith in
      rw (start, end, not_negative)
        (stored_position n (read_int host m (buf.start + buf.dim) (buf.start + n)) (omega arith) (
          read_int_result host m (buf.start + buf.dim) (buf.start + n)
            (λ a la ah. h.mapped a (omega arith) ah) bytes (omega (arith, h.low))
            (omega (arith, h.low))))

  int_bytes_few : (n : ℤ) → IsOcamlInt n → length (int_bytes n) ≤ 9
  int_bytes_few (pos n) range = ground arith
  int_bytes_few (negsuc n) range = ground arith

  -- On a bigarray that is mapped whole below 2 ^ 62, at a position below 2 ^ 62: if
  -- `ml_write_int_stub` of an OCaml integer returns a position, then `ml_read_int_stub` at the
  -- first position returns the integer and sets the returned position, whatever the byte orders of
  -- the two hosts.
  pub ml_read_int-ml_write_int :
      (writer reader : ByteOrder) (n v : ℤ) (p : ℕ)
      → IsOcamlInt n
      → p < 2 ^ 62
      → (ml_write (λ sptr eptr. write_int writer sptr eptr n) buf (pos p) m).0 ≡ ok v
      → ml_read
          (λ eptr.
            read_int reader
              ((ml_write (λ sptr eptr'. write_int writer sptr eptr' n) buf (pos p) m).1)
              eptr)
          buf
          (pos p)
        ≡ (ok n, v)
  ml_read_int-ml_write_int writer reader n v p range small wrote =
      let bs = int_bytes n in
      let few = int_bytes_few n range in
      let w =
        ml_write-emit h p small (λ sptr eptr. write_int writer sptr eptr n) bs (omega (arith, few))
          (write_int-emit (IsBuffer-at p h small) writer n (omega arith)) in
      elim (Bool-cases (leb (p + length bs) buf.dim)) [
        | inl fits ↦
            let w' : ml_write (λ sptr eptr. write_int writer sptr eptr n) buf (pos p) m
                ≡ (ok (pos (p + length bs)), put m (buf.start + p) bs) =
              rw fits at w in
            let behind : v ≡ pos (p + length bs) =
              let e : ok v ≡ ok (pos (p + length bs)) =
                sym wrote ∙ ap (λ (r : Outcome ℤ × Memory). r.0) w' in
              cc in
            rw (w', behind)
              (ml_read-Holds h p small (λ eptr. read_int reader (put m (buf.start + p) bs) eptr) bs
                n (omega (arith, few)) (ground (arith, fits))
                (read_int-IntForm reader (put m (buf.start + p) bs) (buf.start + buf.dim)
                  (buf.start + p) (omega (arith, h.low)) n range (int_bytes-IntForm n (omega arith))
                  (Holds-put bs m (buf.start + p)) (ground (arith, fits))))
        | inr short ↦
            let refused : ◌≡◌ {A = Outcome ℤ} (ok v) (raised buffer_short) =
              sym wrote ∙ ap (λ (r : Outcome ℤ × Memory). r.0) (rw short at w) in
            cc
      ]
