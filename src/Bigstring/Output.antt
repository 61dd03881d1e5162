-- ===== src/Bigstring/Output.antt =====
-- Writing a bigstring to a descriptor: the functions of MakeReallyOutputFun and the stubs around a
-- single `write` or `send` of base/core/lib/bigstring_stubs.c. The state is what the descriptor
-- took.
pub mod Whole
use ocaml_core.Prelude.{
  ℕ, ℤ, pos, negsuc, wrap, List, [], ◌∷◌, ◌++◌, Option, none, some, ltb, if◌then◌else◌,
}
use ocaml_core.Memory.{Memory, ptr_add, load}
use ocaml_core.Bigarray.{Buf, ptr_diff}
use ocaml_core.Bigstring.{
  Result, returned, io_error, uerror, blocked, unmapped, unix_error, Written, wrote, refused,
  get_bstr, len_sub,
}

-- No more bytes are taken than `len`.
abbrev pub at_most : ℕ → ℕ → ℕ
at_most len n = if ltb len n then len else n

-- What follows a call that took the bytes which it read from the memory.
abbrev after_load :
    {A : Type 0} → Option (List ℕ) → List ℕ → (List ℕ → Result A × List ℕ) → Result A × List ℕ
after_load none sent next = (unmapped, sent)
after_load (some bs) sent next = next (sent ++ bs)

module _ (m : Memory) (bstr_start bstr_max : ℕ) where
  -- The loop of MakeReallyOutputFun, on the results of its calls.
  pub really_output_loop : List Written → ℕ → ℕ → List ℕ → Result (Unit {0}) × List ℕ
  really_output_loop [] bstr len sent = (blocked, sent)
  really_output_loop (refused errno ∷ answers) bstr len sent =
      (io_error (ptr_diff bstr bstr_start) (unix_error errno), sent)
  really_output_loop (wrote n ∷ answers) bstr len sent =
      let written = at_most len n in
      let next = ptr_add bstr written in
      after_load (load m bstr written) sent (λ sent'.
        let rest = really_output_loop answers next (len_sub len written) sent' in
        if ltb next bstr_max then rest else (returned tt, sent'))

-- `bigstring_really_write_stub` and `bigstring_really_send_no_sigpipe_stub`.
pub bigstring_really_output_stub :
    Memory → List Written → ℤ → ℤ → Buf → List ℕ → Result (Unit {0}) × List ℕ
bigstring_really_output_stub m answers v_pos v_len v_bstr sent =
    let len = wrap 64 v_len in
    let bstr = get_bstr v_bstr v_pos in
    really_output_loop m bstr (ptr_add bstr len) answers bstr len sent

-- `bigstring_write_stub` and `bigstring_write_assume_fd_is_nonblocking_stub`: one `write`.
pub bigstring_write_stub : Memory → Written → ℤ → ℤ → Buf → List ℕ → Result ℤ × List ℕ
bigstring_write_stub m (refused errno) v_pos v_len v_bstr sent = (uerror errno, sent)
bigstring_write_stub m (wrote n) v_pos v_len v_bstr sent =
    let written = at_most (wrap 64 v_len) n in
    after_load (load m (get_bstr v_bstr v_pos) written) sent
      (λ sent'. (returned (pos written), sent'))
