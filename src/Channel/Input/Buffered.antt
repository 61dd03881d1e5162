-- ===== src/Channel/Input/Buffered.antt =====
-- bigstring_input_stub where the channel's buffer holds enough, and where it holds too little and the
-- descriptor is at its end.
use ocaml_core.Prelude.{
  ℕ, ◌+◌, ◌%◌, ◌^◌, ◌≤◌, ◌<◌, ◌≡◌, refl, pos, wrap, List, [], ◌∷◌, some, length, take, take_fits,
  length-take, leb, true, false, ◌==◌, arith,
}
use ocaml_core.Memory.{Memory, ptr_add, load}
use ocaml_core.Memory.Store.{put, store-eq-put}
use ocaml_core.Memory.Load.{Holds, load-Holds, Holds-take}
use ocaml_core.Bigarray.{Buf, ptr_diff}
use ocaml_core.Bigarray.RoundTrip.{IsBigarray}
use ocaml_core.Bigstring.{returned, io_error, end_of_file, Received, received, len_sub}
use ocaml_core.Channel.{Channel, set_curr}
use ocaml_core.Channel.Input.{input_loop, bigstring_input_stub}

-- The channel: `held` stands between `curr` and `max`.
pub record IsFilled (m : Memory) (chan : Channel) (held : List ℕ) : Type 0 where
  pub low : chan.max < 2 ^ 62
  pub max : chan.max ≡ chan.curr + length held
  pub holds : Holds m chan.curr held
  pub some_held : 0 < length held

module _ {m : Memory} {buf : Buf} {chan : Channel} {held : List ℕ} (h : IsBigarray m buf)
    (ch : IsFilled m chan held) (p len min_len : ℕ) (fits : p + len ≤ buf.dim)
    (small : min_len < 2 ^ 62) (answers : List Received) where
  abbrev at : ℕ
  at = buf.start + p

  -- Enough in the buffer: the descriptor is not read.
  pub bigstring_input_stub_buffered :
      len ≤ length held
      → bigstring_input_stub answers (pos min_len) (pos p) (pos len) buf chan m
        ≡ (returned (pos len), (set_curr (chan.curr + len) chan, put m at (take len held)))
  unfolding bigstring_input_stub
  bigstring_input_stub_buffered enough =
      let s : ptr_add buf.start (wrap 64 (pos p)) ≡ at = omega (arith, h.low) in
      let l : len % 2 ^ 64 ≡ len = omega (arith, h.low) in
      let a : len_sub chan.max chan.curr ≡ length held = omega (arith, ch.low, ch.max) in
      let some_avail : (length held == 0) ≡ false = ground (arith, ch.some_held) in
      let all : leb len (length held) ≡ true = ground arith in
      let c : ptr_add chan.curr len ≡ chan.curr + len = omega (arith, ch.low, ch.max) in
      let n = length-take len held enough in
      let loaded : load m chan.curr len ≡ some (take len held) = rw n at (
        load-Holds (take len held) m chan.curr
          (Holds-take len held m chan.curr ch.holds enough).0) in
      rw
        (
          s,
          l,
          a,
          some_avail,
          all,
          loaded,
          store-eq-put (take len held) m at
              (λ x lx xh. h.mapped x (omega arith) (omega (arith, n))),
          c,
        )
        refl

  -- For a bigstring that is mapped whole below 2 ^ 62 with a range of `len` bytes inside it, and a
  -- channel whose buffer holds some bytes, fewer than `len`: if the first `readv` returns 0,
  -- `bigstring_input_stub` has stored the held bytes in the range, empties the channel and raises
  -- `IOError` with their number and End_of_file, also where they are `min_len` or more.
  pub bigstring_input_stub_ended :
      length held < len
      → bigstring_input_stub (received [] ∷ answers) (pos min_len) (pos p) (pos len) buf chan m
        ≡ (io_error (pos (length held)) end_of_file, (set_curr chan.max chan, put m at held))
  unfolding bigstring_input_stub input_loop
  bigstring_input_stub_ended short =
      let s : ptr_add buf.start (wrap 64 (pos p)) ≡ at = omega (arith, h.low) in
      let l : len % 2 ^ 64 ≡ len = omega (arith, h.low) in
      let a : len_sub chan.max chan.curr ≡ length held = omega (arith, ch.low, ch.max) in
      let some_avail : (length held == 0) ≡ false = ground (arith, ch.some_held) in
      let some_len : (len % 2 ^ 64 == 0) ≡ false = ground arith in
      let not_all : leb len (length held) ≡ false = ground arith in
      let b : ptr_add at (length held) ≡ at + length held = omega (arith, h.low) in
      let d : ptr_diff (at + length held) at ≡ pos (length held) = ground (arith, h.low) in
      rw
        (
          s,
          l,
          a,
          some_avail,
          not_all,
          load-Holds held m chan.curr ch.holds,
          store-eq-put held m at (λ x lx xh. h.mapped x (omega arith) (omega arith)),
          b,
          take_fits {A = ℕ} (ptr_add (len_sub len (length held)) (len_sub chan.end chan.buff)) []
              (omega arith),
          some_len,
          d,
        )
        refl
