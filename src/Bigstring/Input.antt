-- ===== src/Bigstring/Input.antt =====
-- Reading into a bigstring from a descriptor or a socket: bigstring_read_stub and
-- bigstring_really_recv_stub of base/core/lib/bigstring_stubs.c.
pub mod Chunks
pub mod Receive
use ocaml_core.Prelude.{
  ℕ, suc, ◌+◌, ◌-◌, ◌%◌, ◌^◌, ℤ, pos, wrap, signed, List, [], ◌∷◌, length, take, ltb, ◌==◌,
  if◌then◌else◌,
}
use ocaml_core.Memory.{Memory, ptr_add, store}
use ocaml_core.Bigarray.{Buf, ptr_diff}
use ocaml_core.Bigstring.{
  Result, returned, io_error, uerror, blocked, end_of_file, unix_error, Received, received, failed,
  get_bstr, len_sub, after_store,
}

module _ (init_len bstr_start bstr_min : ℕ) where
  -- After a call that did not fail: the bytes it read, and the rest of the loop.
  abbrev on_read :
      List ℕ → ℕ → ℕ → Memory → (ℕ → ℕ → Memory → Result ℤ × Memory) → Result ℤ × Memory
  on_read [] bstr len m loop =
      if init_len == 0
      then (returned (pos 0), m)
      else (io_error (ptr_diff bstr bstr_start) end_of_file, m)
  on_read (b ∷ bs) bstr len m loop =
      let n_read = suc (length bs) in
      let next = ptr_add bstr n_read in
      after_store (store bstr (b ∷ bs) m) (λ m'.
        if ltb next bstr_min
        then loop next (len_sub len n_read) m'
        else (returned (ptr_diff next bstr_start), m'))

  -- The loop of `bigstring_read_stub`, on the results of its calls of `read`.
  pub read_loop : List Received → ℕ → ℕ → Memory → Result ℤ × Memory
  read_loop [] bstr len m = (blocked, m)
  read_loop (failed errno ∷ answers) bstr len m =
      (io_error (ptr_diff bstr bstr_start) (unix_error errno), m)
  read_loop (received bs ∷ answers) bstr len m =
      on_read (take len bs) bstr len m (λ bstr' len' m'. read_loop answers bstr' len' m')

pub bigstring_read_stub : List Received → ℤ → ℤ → ℤ → Buf → Memory → Result ℤ × Memory
bigstring_read_stub answers v_min_len v_pos v_len v_bstr m =
    let init_len = wrap 64 v_len in
    let bstr_start = get_bstr v_bstr v_pos in
    read_loop init_len bstr_start (ptr_add bstr_start (wrap 64 v_min_len)) answers bstr_start
      init_len m

-- One `read`; a failure raises `Unix_error`.
pub bigstring_read_assume_fd_is_nonblocking_stub :
    Received → ℤ → ℤ → Buf → Memory → Result ℤ × Memory
bigstring_read_assume_fd_is_nonblocking_stub (failed errno) v_pos v_len v_bstr m = (uerror errno, m)
bigstring_read_assume_fd_is_nonblocking_stub (received bs) v_pos v_len v_bstr m =
    let got = take (wrap 64 v_len) bs in
    after_store (store (get_bstr v_bstr v_pos) got m) (λ m'. (returned (pos (length got)), m'))

-- After a `recv` that did not fail. The pointer advances by what is left to receive.
abbrev on_recv :
    List ℕ
    → ℕ
    → ℕ
    → ℕ
    → Memory
    → (ℕ → ℕ → ℕ → Memory → Result (Unit {0}) × Memory)
    → Result (Unit {0}) × Memory
on_recv [] bstr len n_total m loop = (io_error (signed 64 n_total) end_of_file, m)
on_recv (b ∷ bs) bstr len n_total m loop =
    let n_read = suc (length bs) in
    let left = len_sub len n_read in
    after_store (store bstr (b ∷ bs) m)
      (λ m'. loop (ptr_add bstr left) left (ptr_add n_total n_read) m')

-- The loop of `bigstring_really_recv_stub`, on the results of its calls of `recv`.
pub recv_loop : List Received → ℕ → ℕ → ℕ → Memory → Result (Unit {0}) × Memory
recv_loop [] bstr len n_total m = if len == 0 then (returned tt, m) else (blocked, m)
recv_loop (failed errno ∷ answers) bstr len n_total m =
    if len == 0 then (returned tt, m) else (io_error (signed 64 n_total) (unix_error errno), m)
recv_loop (received bs ∷ answers) bstr len n_total m =
    if len == 0
    then (returned tt, m)
    else on_recv (take len bs) bstr len n_total m
        (λ bstr' len' n_total' m'. recv_loop answers bstr' len' n_total' m')

pub bigstring_really_recv_stub : List Received → ℤ → ℤ → Buf → Memory → Result (Unit {0}) × Memory
bigstring_really_recv_stub answers v_pos v_len v_bstr m =
    let len = wrap 64 v_len in
    if len == 0 then (returned tt, m) else recv_loop answers (get_bstr v_bstr v_pos) len 0 m
