-- ===== src/Channel/Input/Refilled.antt =====
-- bigstring_input_stub where the channel's buffer holds too little and one read brings enough: the
-- bytes beyond the range refill the buffer.
use ocaml_core.Prelude.{
  ℕ, suc, ◌+◌, ◌-◌, ◌%◌, ◌^◌, ◌≤◌, ◌<◌, ◌≡◌, refl, pos, wrap, List, ◌∷◌, length, take, take_fits,
  length-take-le, length-drop, Bool-cases, inl, inr, drop, ltb, leb, true, false, ◌==◌,
  if◌then◌else◌, arith,
}
use ocaml_core.Memory.{Memory, ptr_add}
use ocaml_core.Memory.Store.{IsMapped, put, store-eq-put, IsMapped-put}
use ocaml_core.Memory.Load.{load-Holds}
use ocaml_core.Bigarray.{Buf, ptr_diff}
use ocaml_core.Bigarray.RoundTrip.{IsBigarray}
use ocaml_core.Bigstring.{returned, Received, received, len_sub}
use ocaml_core.Channel.{Channel, set_curr, set_max, advance}
use ocaml_core.Channel.Input.{input_loop, bigstring_input_stub}
use ocaml_core.Channel.Input.Buffered.{IsFilled}

module _ {m : Memory} {buf : Buf} {chan : Channel} {held : List ℕ} (h : IsBigarray m buf)
    (ch : IsFilled m chan held) (p len min_len : ℕ) (fits : p + len ≤ buf.dim)
    (small : min_len < 2 ^ 62) (answers : List Received) where
  abbrev at : ℕ
  at = buf.start + p

  -- For a bigstring that is mapped whole below 2 ^ 62 with a range of `len` bytes inside it, and a
  -- channel whose buffer (mapped below 2 ^ 62) has some bytes held, fewer than `len`: if the first
  -- `readv` returns at least one byte, so many that `min_len` is reached and no more than there is
  -- room for, `bigstring_input_stub` stores the held bytes and then the new ones in the range, up
  -- to `len`, and those beyond it at the start of the channel's buffer. It returns `len` and leaves
  -- exactly these in the channel if there are some, and otherwise returns the number of bytes and
  -- leaves the channel empty; the offset advances by what was read.
  pub bigstring_input_stub_enough :
      (b : ℕ) (bs : List ℕ)
      → length held < len
      → min_len ≤ length held + length (b ∷ bs)
      → length held + length (b ∷ bs) ≤ len + (chan.end - chan.buff)
      → chan.buff ≤ chan.end
      → chan.end < 2 ^ 62
      → IsMapped m chan.buff chan.end
      → bigstring_input_stub
          (received (b ∷ bs) ∷ answers)
          (pos min_len)
          (pos p)
          (pos len)
          buf
          chan
          m
        ≡ (if ltb len (length held + length (b ∷ bs))
            then (
              returned (pos len),
              (
                set_curr chan.buff (
                    set_max
                      (chan.buff + (length held + length (b ∷ bs) - len))
                      (advance (length (b ∷ bs)) chan)),
                put
                    (put (put m at held) (at + length held) (take (len - length held) (b ∷ bs)))
                    chan.buff
                    (drop (len - length held) (b ∷ bs)),
              ),
            )
            else (
              returned (pos (length held + length (b ∷ bs))),
              (
                set_curr chan.max (advance (length (b ∷ bs)) chan),
                put
                    (put (put m at held) (at + length held) (take (len - length held) (b ∷ bs)))
                    chan.buff
                    (drop (len - length held) (b ∷ bs)),
              ),
            ))
  unfolding bigstring_input_stub input_loop
  bigstring_input_stub_enough b bs short reached room order low mapped =
      let a = length held in
      let got = b ∷ bs in
      let n = suc (length bs) in
      let s : ptr_add buf.start (wrap 64 (pos p)) ≡ at = omega (arith, h.low) in
      let l : len % 2 ^ 64 ≡ len = omega (arith, h.low) in
      let av : len_sub chan.max chan.curr ≡ a = omega (arith, ch.low, ch.max) in
      let some_avail : (a == 0) ≡ false = ground (arith, ch.some_held) in
      let not_all : leb len a ≡ false = ground arith in
      let e : ptr_add at a ≡ at + a = omega (arith, h.low) in
      let left : len_sub len a ≡ len - a = omega (arith, h.low) in
      let size : len_sub chan.end chan.buff ≡ chan.end - chan.buff = omega arith in
      let both : ptr_add (len - a) (chan.end - chan.buff) ≡ len - a + (chan.end - chan.buff) =
        omega (arith, h.low) in
      let next : ptr_add (at + a) n ≡ at + a + n = omega (arith, h.low) in
      let least : ptr_add (at + a) (len_sub (min_len % 2 ^ 64) a) ≡ at + min_len =
        omega (arith, h.low) in
      let most : ptr_add (at + a) (len - a) ≡ at + len = omega (arith, h.low) in
      let sufficient : leb (at + min_len) (at + a + n) ≡ true = ground arith in
      let over : ltb (at + len) (at + a + n) ≡ ltb len (a + n) = ground arith in
      let count : ptr_diff (at + a + n) at ≡ pos (a + n) = ground (arith, h.low) in
      let mapped_at : IsMapped (put m at held) at (at + len) = λ x lx xh.
        IsMapped-put held m at (at + len) at (λ y ly yh. h.mapped y (omega arith) (omega arith)) x
          lx xh in
      let first = take (len - a) got in
      let second = drop (len - a) got in
      let stored1 = put (put m at held) (at + a) first in
      let into_bigstring =
        store-eq-put first (put m at held) (at + a)
          (λ x lx xh. mapped_at x (omega arith) (omega (arith, length-take-le (len - a) got))) in
      let into_buffer = store-eq-put second stored1 chan.buff (λ x lx xh.
        IsMapped-put first (put m at held) chan.buff chan.end (at + a)
          (λ y ly yh. IsMapped-put held m chan.buff chan.end at mapped y ly yh) x lx
          (omega (arith, length-drop (len - a) got))) in
      elim (Bool-cases (ltb len (a + n))) [
        | inl extra ↦
            let kept : ptr_add chan.buff (len_sub (at + a + n) (at + len))
                ≡ chan.buff + (a + n - len) =
              ground (arith, h.low, extra) in
            rw
              (
                s,
                l,
                av,
                some_avail,
                not_all,
                load-Holds held m chan.curr ch.holds,
                store-eq-put held m at (λ x lx xh. h.mapped x (omega arith) (omega arith)),
                e,
                left,
                size,
                both,
                take_fits (len - a + (chan.end - chan.buff)) got (omega arith),
                into_bigstring,
                into_buffer,
                next,
                least,
                most,
                sufficient,
                over,
                extra,
                kept,
              )
              refl
        | inr exact ↦
            rw
              (
                s,
                l,
                av,
                some_avail,
                not_all,
                load-Holds held m chan.curr ch.holds,
                store-eq-put held m at (λ x lx xh. h.mapped x (omega arith) (omega arith)),
                e,
                left,
                size,
                both,
                take_fits (len - a + (chan.end - chan.buff)) got (omega arith),
                into_bigstring,
                into_buffer,
                next,
                least,
                most,
                sufficient,
                over,
                exact,
                count,
              )
              refl
      ]
