-- ===== src/Channel/Input.antt =====
-- bigstring_input_stub of base/core/lib/bigstring_stubs.c.
pub mod Buffered
pub mod Refilled
use ocaml_core.Prelude.{
  ℕ, suc, ℤ, pos, wrap, List, [], ◌∷◌, length, take, drop, ltb, leb, ◌==◌, if◌then◌else◌,
}
use ocaml_core.Exec.{Outcome, ok, raised, fault}
use ocaml_core.Memory.{Memory, ptr_add, store, memmove}
use ocaml_core.Bigarray.{Buf, ptr_diff}
use ocaml_core.Bigstring.{
  Result, returned, io_error, blocked, unmapped, end_of_file, unix_error, Received, received,
  failed, get_bstr, len_sub,
}
use ocaml_core.Channel.{Channel, set_curr, set_max, advance, eintr}

abbrev pub InputState : Type 0
InputState = Channel × Memory

abbrev on_stored :
    Outcome (Unit {0}) × Memory → Channel → (Memory → Result ℤ × InputState) → Result ℤ × InputState
on_stored (ok u, m) chan next = next m
on_stored (raised e, m) chan next = (unmapped, (chan, m))
on_stored (fault, m) chan next = (unmapped, (chan, m))

module _ (v_len : ℤ) (bstr_start bstr_min bstr_max : ℕ) where
  abbrev init_bstr_len : ℕ
  init_bstr_len = wrap 64 v_len

  -- A `readv` that returned the bytes: first into the bigstring, then into the channel's buffer.
  abbrev on_readv :
      List ℕ
      → ℕ
      → ℕ
      → Channel
      → Memory
      → (ℕ → ℕ → Channel → Memory → Result ℤ × InputState)
      → Result ℤ × InputState
  on_readv [] iov_base iov_len chan m loop =
      let emptied = set_curr chan.max chan in
      if init_bstr_len == 0
      then (returned (pos 0), (emptied, m))
      else (io_error (ptr_diff iov_base bstr_start) end_of_file, (emptied, m))
  on_readv (b ∷ bs) iov_base iov_len chan m loop =
      let n_read = suc (length bs) in
      let read = advance n_read chan in
      let bstr = ptr_add iov_base n_read in
      on_stored (store iov_base (take iov_len (b ∷ bs)) m) read (λ m1.
        on_stored (store chan.buff (drop iov_len (b ∷ bs)) m1) read (λ m2.
          if leb bstr_min bstr
          then (if ltb bstr_max bstr
              then (
                returned v_len,
                (set_curr chan.buff (set_max (ptr_add chan.buff (len_sub bstr bstr_max)) read), m2),
              )
              else (returned (ptr_diff bstr bstr_start), (set_curr chan.max read, m2)))
          else loop bstr (len_sub iov_len n_read) read m2))

  pub input_loop : List Received → ℕ → ℕ → Channel → Memory → Result ℤ × InputState
  input_loop [] iov_base iov_len chan m = (blocked, (chan, m))
  input_loop (failed errno ∷ answers) iov_base iov_len chan m =
      let rest = input_loop answers iov_base iov_len chan m in
      if errno == eintr
      then rest
      else (io_error (ptr_diff iov_base bstr_start) (unix_error errno), (set_curr chan.max chan, m))
  input_loop (received bs ∷ answers) iov_base iov_len chan m =
      on_readv (take (ptr_add iov_len (len_sub chan.end chan.buff)) bs) iov_base iov_len chan m
        (λ base' len' chan' m'. input_loop answers base' len' chan' m')

-- What the buffer holds is copied first; only if that is too little, the descriptor is read.
pub bigstring_input_stub :
    List Received → ℤ → ℤ → ℤ → Buf → Channel → Memory → Result ℤ × InputState
bigstring_input_stub answers v_min_len v_pos v_len v_bstr chan m =
    let bstr_start = get_bstr v_bstr v_pos in
    let bstr_len = wrap 64 v_len in
    let min_len = wrap 64 v_min_len in
    let avail = len_sub chan.max chan.curr in
    let rest_len = len_sub bstr_len avail in
    let bstr = ptr_add bstr_start avail in
    if avail == 0
    then input_loop v_len bstr_start (ptr_add bstr_start min_len) (ptr_add bstr_start bstr_len)
        answers bstr_start bstr_len chan m
    else if leb bstr_len avail
    then on_stored (memmove bstr_start chan.curr bstr_len m) chan
        (λ m'. (returned v_len, (set_curr (ptr_add chan.curr bstr_len) chan, m')))
    else on_stored (memmove bstr_start chan.curr avail m) chan (λ m'.
      input_loop v_len bstr_start (ptr_add bstr (len_sub min_len avail)) (ptr_add bstr rest_len)
        answers bstr rest_len chan m')
