-- ===== src/Channel/Output/Kept/Stub.antt =====
-- bigstring_output_stub on both of its branches.
use ocaml_core.Prelude.{
  ℕ, ◌+◌, ◌-◌, ◌%◌, ◌^◌, ◌≤◌, ◌<◌, ◌≡◌, inl, inr, refl, ℤ, pos, wrap, List, [], ◌∷◌, ◌++◌, length,
  Bool-cases, true, false, ltb, leb, arith,
}
use ocaml_core.Memory.{Memory, ptr_add}
use ocaml_core.Memory.Store.{IsMapped, put, store-eq-put}
use ocaml_core.Memory.Load.{Holds, load-Holds}
use ocaml_core.Bigarray.{Buf}
use ocaml_core.Bigstring.{Result, returned, Written, wrote, refused, len_sub}
use ocaml_core.Bigstring.Output.{at_most}
use ocaml_core.Channel.{Channel, set_curr}
use ocaml_core.Channel.Output.{World, world_of, Pending, output_loop, bigstring_output_stub}
use ocaml_core.Channel.Output.Kept.{IsKept, IsPending, pending, LoopKept, refused-IsKept}
use ocaml_core.Channel.Output.Kept.Taken.{partial_kept, whole_kept}

module _ (all bytes : List ℕ) (buff bstr bstr_min : ℕ) (m : Memory) where
  abbrev Left : List ℕ → ℕ → ℕ → ℕ → ℕ → Channel → List ℕ → Type 0
  Left = IsPending all bytes buff bstr bstr_min m

  abbrev left_over : List ℕ → ℕ → ℕ → ℕ → ℕ → Pending
  left_over = pending all bytes buff bstr bstr_min m

  abbrev Keeps : Result ℤ × World → Type 0
  Keeps = IsKept all bytes buff bstr bstr_min

  abbrev LoopKeeps : (Pending → World → Result ℤ × World) → Type 0
  LoopKeeps = LoopKept all bytes buff bstr bstr_min m

  loop_kept : (answers : List Written) → LoopKeeps (output_loop bstr bstr_min answers)
  unfolding output_loop
  loop_kept [] rest k base i j chan sent h = tt
  loop_kept (refused errno ∷ answers) rest k base i j chan sent h =
      refused-IsKept all bytes buff bstr bstr_min m (output_loop bstr bstr_min answers)
        (loop_kept answers) errno rest k base i j chan sent h
  loop_kept (wrote n ∷ answers) rest k base i j chan sent h =
      let t = at_most (ptr_add i j) n in
      let le : t ≤ i + j = ground (arith, h.in_buff, h.in_bstr, h.low, h.bstr_low) in
      elim (Bool-cases (ltb t (length rest))) [
        | inl partial ↦
            partial_kept all bytes buff bstr bstr_min m (output_loop bstr bstr_min answers)
              (loop_kept answers) t rest k base i j chan sent h le (ground arith)
        | inr whole ↦
            whole_kept all bytes buff bstr bstr_min m (output_loop bstr bstr_min answers)
              (loop_kept answers) t rest k base i j chan sent h le (ground arith)
      ]

-- The channel: its buffer is mapped, and `held` stands from its start up to `curr`.
pub record IsChannel (w : World) (held : List ℕ) : Type 0 where
  pub low : w.chan.end < 2 ^ 62
  pub inside : w.chan.curr ≤ w.chan.end
  pub curr : w.chan.curr ≡ w.chan.buff + length held
  pub holds : Holds w.memory w.chan.buff held
  pub mapped : IsMapped w.memory w.chan.buff w.chan.end

module _ {w : World} {held : List ℕ} (ch : IsChannel w held) (buf : Buf) (p min_len : ℕ)
    (bytes : List ℕ) (h : Holds w.memory (buf.start + p) bytes)
    (low : buf.start + p + length bytes < 2 ^ 62) (small : min_len < 2 ^ 62)
    (answers : List Written) where
  -- For a channel whose buffer is mapped below 2 ^ 62 and bytes at a position of a bigstring, below
  -- address 2 ^ 62, that do not fit the free part of the buffer: whatever the calls of `writev`
  -- take and wherever they fail, `bigstring_output_stub` touches nothing unmapped. If it returns a
  -- number, at least `min_len`, the descriptor took the buffer and then so many of the bytes, and
  -- the buffer is empty. If it raises `IOError` with a number, what the descriptor took, then what
  -- the buffer now holds, then the bytes from that number on are what was sent before, the old
  -- buffer and the bytes.
  pub bigstring_output_stub-IsKept :
      w.chan.end < w.chan.curr + length bytes
      → IsKept
          (w.sent ++ (held ++ bytes))
          bytes
          w.chan.buff
          (buf.start + p)
          (buf.start + p + min_len)
          (bigstring_output_stub answers (pos min_len) (pos p) (pos (length bytes)) buf w)
  unfolding bigstring_output_stub
  bigstring_output_stub-IsKept large =
      let s : ptr_add buf.start (wrap 64 (pos p)) ≡ buf.start + p = omega arith in
      let z : buf.start + p + 0 ≡ buf.start + p = omega arith in
      let l : length bytes % 2 ^ 64 ≡ length bytes = omega arith in
      let n : length bytes - 0 ≡ length bytes = omega arith in
      let k : ptr_add (buf.start + p) (wrap 64 (pos min_len)) ≡ buf.start + p + min_len =
        omega arith in
      let b : len_sub w.chan.curr w.chan.buff ≡ length held =
        omega (arith, ch.curr, ch.low, ch.inside) in
      let big : leb (length bytes) (len_sub w.chan.end w.chan.curr) ≡ false =
        ground (arith, ch.low, ch.inside, large) in
      rw (s, l, k, b, big)
        (rw (z, n) at
          (loop_kept (w.sent ++ (held ++ bytes)) bytes w.chan.buff (buf.start + p)
            (buf.start + p + min_len) w.memory answers held 0 w.chan.buff (length held)
            (length bytes) w.chan w.sent
            (record {
              low = omega (arith, ch.low, ch.curr, ch.inside);
              buff_low = omega (arith, ch.low, ch.curr, ch.inside);
              bstr_low = low;
              inside = omega arith;
              in_buff = omega arith;
              in_bstr = omega arith;
              buff_first = inl refl;
              holds_buff = ch.holds;
              holds_bytes = rw z h;
              kept = refl;
              same_buff = refl;
              mapped = λ a la ah. ch.mapped a la (omega (arith, ch.curr, ch.inside));
            })))

  -- Bytes that fit the free part of the buffer are stored there, and nothing is sent.
  pub bigstring_output_stub_buffered :
      w.chan.curr + length bytes ≤ w.chan.end
      → bigstring_output_stub answers (pos min_len) (pos p) (pos (length bytes)) buf w ≡ (
        returned (pos (length bytes)),
        world_of
            (set_curr (w.chan.curr + length bytes) w.chan)
            (put w.memory w.chan.curr bytes)
            w.sent,
      )
  unfolding bigstring_output_stub
  bigstring_output_stub_buffered room =
      let s : ptr_add buf.start (wrap 64 (pos p)) ≡ buf.start + p = omega arith in
      let l : length bytes % 2 ^ 64 ≡ length bytes = omega arith in
      let e : ptr_add w.chan.curr (length bytes) ≡ w.chan.curr + length bytes =
        omega (arith, ch.low, room) in
      let fits : leb (length bytes) (len_sub w.chan.end w.chan.curr) ≡ true =
        ground (arith, ch.low, room) in
      rw
        (
          s,
          l,
          fits,
          e,
          load-Holds bytes w.memory (buf.start + p) h,
          store-eq-put bytes w.memory w.chan.curr
              (λ a la ah. ch.mapped a (omega (arith, ch.curr)) (omega (arith, room))),
        )
        refl
