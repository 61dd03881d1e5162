-- ===== src/Channel/Output.antt =====
-- bigstring_output_stub of base/core/lib/bigstring_stubs.c.
pub mod Kept
use ocaml_core.Prelude.{
  ℕ, ◌+◌, ◌-◌, ◌%◌, ◌^◌, ℤ, pos, wrap, signed, List, [], ◌∷◌, ◌++◌, Bool, ◌&&◌, ◌||◌, Option, none,
  some, ltb, leb, ◌==◌, if◌then◌else◌,
}
use ocaml_core.Exec.{Outcome, ok, raised, fault}
use ocaml_core.Memory.{Memory, ptr_add, load, memmove}
use ocaml_core.Bigarray.{Buf, ptr_diff}
use ocaml_core.Bigstring.{
  Result, returned, io_error, blocked, unmapped, unix_error, Written, wrote, refused, get_bstr,
  len_sub,
}
use ocaml_core.Bigstring.Output.{at_most}
use ocaml_core.Channel.{Channel, set_curr, advance, eintr, eagain, ewouldblock}

-- The channel, the memory and what the descriptor took.
pub record World : Type 0 where
  pub chan : Channel
  pub memory : Memory
  pub sent : List ℕ

abbrev pub world_of : Channel → Memory → List ℕ → World
world_of chan m sent = record { chan = chan; memory = m; sent = sent }

-- The local variables of the loop: the two iovecs and the lengths of what is still to be sent.
pub record Pending : Type 0 where
  pub buff_base : ℕ
  pub buff_iov_len : ℕ
  pub buff_len : ℕ
  pub bstr_base : ℕ
  pub bstr_iov_len : ℕ
  pub bstr_len : ℕ

abbrev pub iov_lens : ℕ → ℕ → Pending → Pending
iov_lens in_buff in_bstr st = record {
  buff_base = st.buff_base;
  buff_iov_len = in_buff;
  buff_len = st.buff_len;
  bstr_base = st.bstr_base;
  bstr_iov_len = in_bstr;
  bstr_len = st.bstr_len;
}

-- The buffer was written in part only.
abbrev pub shorten_buff : ℕ → Pending → Pending
shorten_buff written st = record {
  buff_base = ptr_add st.buff_base written;
  buff_iov_len = len_sub st.buff_len written;
  buff_len = len_sub st.buff_len written;
  bstr_base = st.bstr_base;
  bstr_iov_len = st.bstr_iov_len;
  bstr_len = st.bstr_len;
}

-- The buffer is empty, and some of the bigstring was written.
abbrev pub shorten_bstr : ℕ → Pending → Pending
shorten_bstr bstr_written st = record {
  buff_base = st.buff_base;
  buff_iov_len = 0;
  buff_len = 0;
  bstr_base = ptr_add st.bstr_base bstr_written;
  bstr_iov_len = len_sub st.bstr_len bstr_written;
  bstr_len = len_sub st.bstr_len bstr_written;
}

abbrev pub would_block : ℕ → Bool
would_block errno = errno == eagain || errno == ewouldblock

-- `memmove` of what is left to the start of the channel's buffer.
abbrev pub on_moved : Outcome (Unit {0}) × Memory → Channel → List ℕ → Result ℤ → Result ℤ × World
on_moved (ok u, m) chan sent r = (r, world_of chan m sent)
on_moved (raised e, m) chan sent r = (unmapped, world_of chan m sent)
on_moved (fault, m) chan sent r = (unmapped, world_of chan m sent)

-- What `writev` took out of the two ranges.
abbrev pub on_gathered :
    Option (List ℕ) → Option (List ℕ) → World → (List ℕ → Result ℤ × World) → Result ℤ × World
on_gathered (some bs) (some cs) w next = next (w.sent ++ (bs ++ cs))
on_gathered (some bs) none w next = (unmapped, w)
on_gathered none r w next = (unmapped, w)

module _ (bstr bstr_min : ℕ) where
  -- After a `writev` that failed.
  abbrev pub on_refused : ℕ → Pending → World → (Pending → Result ℤ × World) → Result ℤ × World
  on_refused errno st w loop =
      if errno == eintr
      then loop st
      else if would_block errno && ltb 1 (ptr_add st.buff_iov_len st.bstr_iov_len)
      then loop (if st.buff_len == 0 then iov_lens st.buff_iov_len 1 st else iov_lens 1 0 st)
      else on_moved
          (if st.buff_len == 0
            then (ok tt, w.memory)
            else memmove w.chan.buff st.buff_base st.buff_len w.memory)
          (set_curr (ptr_add w.chan.buff st.buff_len) w.chan) w.sent
          (io_error (ptr_diff st.bstr_base bstr) (unix_error errno))

  -- After a `writev` that took `written` bytes.
  abbrev pub on_written :
      ℕ → Pending → World → (Pending → World → Result ℤ × World) → Result ℤ × World
  on_written written st w loop =
      let from_buff = at_most st.buff_iov_len written in
      let new_bstr = ptr_add st.bstr_base (len_sub written st.buff_len) in
      on_gathered (load w.memory st.buff_base from_buff)
        (load w.memory st.bstr_base (written - from_buff)) w
        (λ sent.
          let w' = world_of (advance written w.chan) w.memory sent in
          if ltb written st.buff_len
          then loop (shorten_buff written st) w'
          else if leb bstr_min new_bstr
          then (
            returned (ptr_diff new_bstr bstr),
            record {
              chan = set_curr w.chan.buff (advance written w.chan);
              memory = w.memory;
              sent = sent;
            },
          )
          else loop (shorten_bstr (len_sub written st.buff_len) st) w')

  pub output_loop : List Written → Pending → World → Result ℤ × World
  output_loop [] st w = (blocked, w)
  output_loop (refused errno ∷ answers) st w =
      on_refused errno st w (λ st'. output_loop answers st' w)
  output_loop (wrote n ∷ answers) st w =
      on_written (at_most (ptr_add st.buff_iov_len st.bstr_iov_len) n) st w
        (λ st' w'. output_loop answers st' w')

-- Small data goes to the channel's buffer, other data to the descriptor behind the buffer.
pub bigstring_output_stub : List Written → ℤ → ℤ → ℤ → Buf → World → Result ℤ × World
bigstring_output_stub answers v_min_len v_pos v_len v_bstr w =
    let chan = w.chan in
    let bstr = get_bstr v_bstr v_pos in
    let bstr_len = wrap 64 v_len in
    let buff_len = len_sub chan.curr chan.buff in
    if leb bstr_len (len_sub chan.end chan.curr)
    then on_moved (memmove chan.curr bstr bstr_len w.memory)
        (set_curr (ptr_add chan.curr bstr_len) chan) w.sent (returned v_len)
    else output_loop bstr (ptr_add bstr (wrap 64 v_min_len)) answers
        (record {
          buff_base = chan.buff;
          buff_iov_len = buff_len;
          buff_len = buff_len;
          bstr_base = bstr;
          bstr_iov_len = bstr_len;
          bstr_len = bstr_len;
        })
        w
