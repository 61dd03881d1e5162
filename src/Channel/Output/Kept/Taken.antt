-- ===== src/Channel/Output/Kept/Taken.antt =====
-- A call of `writev` that takes a part of the channel's buffer, or all of it and more.
use ocaml_core.Prelude.{
  drop-drop, take-drop, length-take, append_assoc, append-nil, length-drop, ℕ, ◌+◌, ◌-◌, ◌≤◌, ◌<◌,
  ◌≡◌, inl, inr, refl, sym, ap, ◌∙◌, ℤ, pos, List, [], ◌++◌, length, take, drop, Bool-cases, true,
  false, some, ltb, leb, arith,
}
use ocaml_core.Memory.{Memory, ptr_add, load}
use ocaml_core.Memory.Load.{load-Holds, Holds-take}
use ocaml_core.Bigarray.{ptr_diff}
use ocaml_core.Bigstring.{Result, len_sub}
use ocaml_core.Bigstring.Output.{at_most}
use ocaml_core.Channel.{Channel, advance}
use ocaml_core.Channel.Output.{World, world_of, Pending, on_written}
use ocaml_core.Channel.Output.Kept.{IsKept, IsPending, pending, LoopKept}

module _ (all bytes : List ℕ) (buff bstr bstr_min : ℕ) (m : Memory) where
  abbrev Left : List ℕ → ℕ → ℕ → ℕ → ℕ → Channel → List ℕ → Type 0
  Left = IsPending all bytes buff bstr bstr_min m

  abbrev left_over : List ℕ → ℕ → ℕ → ℕ → ℕ → Pending
  left_over = pending all bytes buff bstr bstr_min m

  abbrev Keeps : Result ℤ × World → Type 0
  Keeps = IsKept all bytes buff bstr bstr_min

  abbrev LoopKeeps : (Pending → World → Result ℤ × World) → Type 0
  LoopKeeps = LoopKept all bytes buff bstr bstr_min m

  pub partial_kept :
      (loop : Pending → World → Result ℤ × World)
      → LoopKeeps loop
      → (t : ℕ) (rest : List ℕ) (k base i j : ℕ) (chan : Channel) (sent : List ℕ)
      → Left rest k base i j chan sent
      → t ≤ i + j
      → t < length rest
      → Keeps (on_written bstr bstr_min t (left_over rest k base i j) (world_of chan m sent) loop)
  partial_kept loop kept t rest k base i j chan sent h le lt =
      let from : at_most i t ≡ t = elim h.buff_first [
        | inl full ↦ ground arith
        | inr nothing ↦ ground arith
      ] in
      let (holds_front, holds_back) = Holds-take t rest m base h.holds_buff (omega arith) in
      let loaded : load m base t ≡ some (take t rest) =
        rw (length-take t rest (omega arith)) at (load-Holds (take t rest) m base holds_front) in
      let zero_left : t - t ≡ 0 = omega arith in
      let left = length-drop t rest in
      let next : ptr_add base t ≡ base + t = omega (arith, h.low) in
      let fewer : len_sub (length rest) t ≡ length (drop t rest) = omega (arith, h.low, left) in
      let goes : ltb t (length rest) ≡ true = ground arith in
      let none_of : load m (bstr + k) 0 ≡ some [] = load-Holds [] m (bstr + k) tt in
      let all_kept : (sent ++ take t rest) ++ (drop t rest ++ drop k bytes) ≡ all =
        append_assoc sent (take t rest) (drop t rest ++ drop k bytes)
        ∙ (ap (λ xs. sent ++ xs) (sym (append_assoc (take t rest) (drop t rest) (drop k bytes)))
            ∙ (ap (λ xs. sent ++ (xs ++ drop k bytes)) (sym (take-drop t rest)) ∙ h.kept)) in
      rw (from, loaded, zero_left, none_of, goes, next, fewer, append-nil (take t rest))
        (kept (drop t rest) k (base + t) (length (drop t rest)) j (advance t chan)
          (sent ++ take t rest)
          (record {
            low = omega (arith, h.low, left);
            buff_low = omega (arith, h.buff_low, left);
            bstr_low = h.bstr_low;
            inside = h.inside;
            in_buff = omega arith;
            in_bstr = h.in_bstr;
            buff_first = inl refl;
            holds_buff = holds_back;
            holds_bytes = h.holds_bytes;
            kept = all_kept;
            same_buff = h.same_buff;
            mapped = λ a la ah. h.mapped a la (omega (arith, left));
          }))

  pub whole_kept :
      (loop : Pending → World → Result ℤ × World)
      → LoopKeeps loop
      → (t : ℕ) (rest : List ℕ) (k base i j : ℕ) (chan : Channel) (sent : List ℕ)
      → Left rest k base i j chan sent
      → t ≤ i + j
      → length rest ≤ t
      → Keeps (on_written bstr bstr_min t (left_over rest k base i j) (world_of chan m sent) loop)
  whole_kept loop kept t rest k base i j chan sent h le enough =
      let r = t - length rest in
      let full : i ≡ length rest = elim h.buff_first [
        | inl full ↦ full
        | inr nothing ↦ omega (arith, h.in_buff)
      ] in
      let from : at_most i t ≡ length rest = ground (arith, full) in
      let inside : k + r ≤ length bytes = omega (arith, full, h.in_bstr, h.inside) in
      let behind = length-drop k bytes in
      let (holds_front, holds_back) =
        Holds-take r (drop k bytes) m (bstr + k) h.holds_bytes (omega (arith, behind, inside)) in
      let taken : load m (bstr + k) r ≡ some (take r (drop k bytes)) =
        rw (length-take r (drop k bytes) (omega (arith, behind, inside))) at
          (load-Holds (take r (drop k bytes)) m (bstr + k) holds_front) in
      let sub : len_sub t (length rest) ≡ r =
        omega (arith, full, h.in_bstr, h.inside, h.bstr_low, h.low) in
      let next : ptr_add (bstr + k) r ≡ bstr + (k + r) = omega (arith, inside, h.bstr_low) in
      let fewer : len_sub (length bytes - k) r ≡ length bytes - (k + r) =
        omega (arith, inside, h.bstr_low) in
      let count : ptr_diff (bstr + (k + r)) bstr ≡ pos (k + r) =
        ground (arith, inside, h.bstr_low) in
      let emptied : ltb t (length rest) ≡ false = ground arith in
      let deeper = drop-drop k r bytes in
      let at_next : bstr + k + r ≡ bstr + (k + r) = omega arith in
      let all_kept : (sent ++ (rest ++ take r (drop k bytes))) ++ drop (k + r) bytes ≡ all =
        ap (λ xs. (sent ++ (rest ++ take r (drop k bytes))) ++ xs) (sym deeper)
        ∙ (append_assoc sent (rest ++ take r (drop k bytes)) (drop r (drop k bytes))
            ∙ (ap (λ xs. sent ++ xs)
                  (append_assoc rest (take r (drop k bytes)) (drop r (drop k bytes)))
                ∙ (ap (λ xs. sent ++ (rest ++ xs)) (sym (take-drop r (drop k bytes))) ∙ h.kept))) in
      elim (Bool-cases (leb bstr_min (bstr + (k + r)))) [
        | inl done ↦
            rw (from, load-Holds rest m base h.holds_buff, taken, emptied, sub, next, done, count)
              (ground (arith, done), inside, h.same_buff, all_kept)
        | inr more ↦
            rw (from, load-Holds rest m base h.holds_buff, taken, emptied, sub, next, more, fewer)
              (kept [] (k + r) base 0 (length bytes - (k + r)) (advance t chan)
                (sent ++ (rest ++ take r (drop k bytes)))
                (record {
                  low = omega (arith, h.low);
                  buff_low = omega (arith, h.buff_low);
                  bstr_low = h.bstr_low;
                  inside = inside;
                  in_buff = omega arith;
                  in_bstr = omega arith;
                  buff_first = inl refl;
                  holds_buff = tt;
                  holds_bytes = rw (at_next, deeper) at holds_back;
                  kept = all_kept;
                  same_buff = h.same_buff;
                  mapped = λ a la ah. absurd (omega arith);
                }))
      ]
