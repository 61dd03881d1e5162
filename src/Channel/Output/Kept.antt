-- ===== src/Channel/Output/Kept.antt =====
-- Whatever the calls of `writev` take and wherever they fail, bigstring_output_stub neither loses nor
-- doubles a byte of the channel's buffer or of the bigstring.
pub mod Taken
pub mod Stub
use ocaml_core.Prelude.{
  drop-drop, take-drop, length-take, append_assoc, append-nil, length-drop, take-append_drop, ℕ,
  zero, suc, ◌+◌, ◌-◌, ◌%◌, ◌^◌, ◌≤◌, ◌<◌, ◌≡◌, ◌⊎◌, inl, inr, refl, sym, ap, ◌∙◌, ℤ, pos, negsuc,
  wrap, signed, List, [], ◌∷◌, ◌++◌, length, take, drop, Bool, Bool-cases, true, false, ◌&&◌, ◌||◌,
  some, ltb, leb, ◌==◌, if◌then◌else◌, arith,
}
use ocaml_core.Exec.{ok}
use ocaml_core.Memory.{Memory, ptr_add, load, memmove}
use ocaml_core.Memory.Store.{IsMapped, put, store-eq-put}
use ocaml_core.Memory.Load.{Holds, load-Holds, Holds-put, Holds-take}
use ocaml_core.Bigarray.{Buf, ptr_diff}
use ocaml_core.Bigstring.{
  Result, returned, io_error, uerror, blocked, unmapped, unix_error, Written, wrote, refused,
  len_sub, get_bstr,
}
use ocaml_core.Bigstring.Output.{at_most}
use ocaml_core.Channel.{Channel, set_curr, advance, eintr}
use ocaml_core.Channel.Output.{
  World, world_of, Pending, iov_lens, shorten_buff, shorten_bstr, would_block, on_moved,
  on_gathered, on_refused, on_written, output_loop, bigstring_output_stub,
}

-- `all` is what was sent before, the channel's buffer and the bigstring's range `bytes`, in this
-- order.
module _ (all bytes : List ℕ) (buff bstr bstr_min : ℕ) where
  -- A number returned says how much of `bytes` is sent; the buffer is then empty. An error says the
  -- same, and the buffer holds what of it is not sent.
  abbrev pub IsKept : Result ℤ × World → Type 0
  IsKept (returned (pos n), w) =
      (bstr_min ≤ bstr + n)
      × (n ≤ length bytes)
      × (w.chan.curr ≡ buff)
      × (w.sent ++ drop n bytes ≡ all)
  IsKept (io_error (pos n) cause, w) =
      (n ≤ length bytes)
      × ((rest : List ℕ) × Holds w.memory buff rest
          × (w.chan.curr ≡ buff + length rest)
          × (w.sent ++ (rest ++ drop n bytes) ≡ all))
  IsKept (blocked, w) = Unit {0}
  IsKept _ = ⊥

  module _ (m : Memory) where
    -- What holds whenever `writev` is called: `rest` of the buffer and `bytes` from `k` on are left.
    pub record IsPending (rest : List ℕ) (k base i j : ℕ) (chan : Channel) (sent : List ℕ)
        : Type 0 where
      pub low : base + length rest < 2 ^ 62
      pub buff_low : buff + length rest < 2 ^ 62
      pub bstr_low : bstr + length bytes < 2 ^ 62
      pub inside : k ≤ length bytes
      pub in_buff : i ≤ length rest
      pub in_bstr : j ≤ length bytes - k
      pub buff_first : (i ≡ length rest) ⊎ (j ≡ 0)
      pub holds_buff : Holds m base rest
      pub holds_bytes : Holds m (bstr + k) (drop k bytes)
      pub kept : sent ++ (rest ++ drop k bytes) ≡ all
      pub same_buff : chan.buff ≡ buff
      pub mapped : IsMapped m buff (buff + length rest)

    abbrev pub pending : List ℕ → ℕ → ℕ → ℕ → ℕ → Pending
    pending rest k base i j = record {
      buff_base = base;
      buff_iov_len = i;
      buff_len = length rest;
      bstr_base = bstr + k;
      bstr_iov_len = j;
      bstr_len = length bytes - k;
    }

    -- A rest of the loop that keeps everything.
    abbrev pub LoopKept : (Pending → World → Result ℤ × World) → Type 0
    LoopKept loop =
        (rest : List ℕ) (k base i j : ℕ) (chan : Channel) (sent : List ℕ)
        → IsPending rest k base i j chan sent
        → IsKept (loop (pending rest k base i j) (world_of chan m sent))

    Holds-empty : (rest : List ℕ) (p : ℕ) → length rest ≡ 0 → Holds m p rest
    Holds-empty [] p h = tt
    Holds-empty (b ∷ bs) p h = absurd (omega arith)

    -- The last error: what is left of the buffer moves to its start.
    failed-IsKept :
        (errno : ℕ) (rest : List ℕ) (k base i j : ℕ) (chan : Channel) (sent : List ℕ)
        → IsPending rest k base i j chan sent
        → IsKept (
            on_moved
              (if length rest == 0 then (ok tt, m) else memmove chan.buff base (length rest) m)
              (set_curr (ptr_add chan.buff (length rest)) chan)
              sent
              (io_error (ptr_diff (bstr + k) bstr) (unix_error errno)))
    failed-IsKept errno rest k base i j chan sent h =
        let count : ptr_diff (bstr + k) bstr ≡ pos k = ground (arith, h.bstr_low, h.inside) in
        let curr : ptr_add chan.buff (length rest) ≡ buff + length rest =
          omega (arith, h.same_buff, h.buff_low) in
        elim (Bool-cases (length rest == 0)) [
          | inl none_left ↦
              rw (none_left, count, curr)
                (h.inside, (rest, Holds-empty rest buff (ground (arith, none_left)), refl, h.kept))
          | inr some_left ↦
              rw
                (
                  some_left,
                  count,
                  curr,
                  h.same_buff,
                  load-Holds rest m base h.holds_buff,
                  store-eq-put rest m buff h.mapped,
                )
                (h.inside, (rest, Holds-put rest m buff, refl, h.kept))
        ]

    -- One byte at a time.
    one_of_bytes :
        (rest : List ℕ) (k base i j : ℕ) (chan : Channel) (sent : List ℕ)
        → IsPending rest k base i j chan sent
        → length rest ≡ 0
        → 1 ≤ j
        → IsPending rest k base i 1 chan sent
    one_of_bytes rest k base i j chan sent h empty some_bytes = record {
      low = h.low;
      buff_low = h.buff_low;
      bstr_low = h.bstr_low;
      inside = h.inside;
      in_buff = h.in_buff;
      in_bstr = omega (arith, h.in_bstr);
      buff_first = inl (omega (arith, h.in_buff));
      holds_buff = h.holds_buff;
      holds_bytes = h.holds_bytes;
      kept = h.kept;
      same_buff = h.same_buff;
      mapped = h.mapped;
    }

    one_of_rest :
        (rest : List ℕ) (k base i j : ℕ) (chan : Channel) (sent : List ℕ)
        → IsPending rest k base i j chan sent
        → 1 ≤ length rest
        → IsPending rest k base 1 0 chan sent
    one_of_rest rest k base i j chan sent h some_left = record {
      low = h.low;
      buff_low = h.buff_low;
      bstr_low = h.bstr_low;
      inside = h.inside;
      in_buff = some_left;
      in_bstr = omega arith;
      buff_first = inr refl;
      holds_buff = h.holds_buff;
      holds_bytes = h.holds_bytes;
      kept = h.kept;
      same_buff = h.same_buff;
      mapped = h.mapped;
    }

    pub refused-IsKept :
        (loop : Pending → World → Result ℤ × World)
        → LoopKept loop
        → (errno : ℕ) (rest : List ℕ) (k base i j : ℕ) (chan : Channel) (sent : List ℕ)
        → IsPending rest k base i j chan sent
        → IsKept (
            on_refused bstr bstr_min errno
              (pending rest k base i j)
              (world_of chan m sent)
              (λ st'. loop st' (world_of chan m sent)))
    refused-IsKept loop kept errno rest k base i j chan sent h =
        elim (Bool-cases (errno == eintr)) [
          | inl again ↦ rw again (kept rest k base i j chan sent h)
          | inr other ↦ elim (Bool-cases (would_block errno && ltb 1 (ptr_add i j))) [
            | inr last ↦ rw (other, last) (failed-IsKept errno rest k base i j chan sent h)
            | inl one ↦ elim (Bool-cases (length rest == 0)) [
              | inl empty ↦
                  rw (other, one, empty)
                    (kept rest k base i 1 chan sent (
                      one_of_bytes rest k base i j chan sent h (ground (arith, empty))
                        (ground (arith, one, h.in_buff))))
              | inr some_left ↦
                  rw (other, one, some_left)
                    (kept rest k base 1 0 chan sent
                      (one_of_rest rest k base i j chan sent h (ground (arith, some_left))))
            ]
          ]
        ]
