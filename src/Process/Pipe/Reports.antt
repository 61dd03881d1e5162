-- ===== src/Process/Pipe/Reports.antt =====
-- What report_errno_on_pipe of base/core/extended/lib/fork_exec.c writes, and when it ends.
use ocaml_core.Prelude.{
  ℕ, zero, suc, ◌+◌, ◌-◌, ◌≤◌, ◌<◌, ◌≡◌, refl, sym, ◌∙◌, List, [], ◌∷◌, ◌++◌, length, take, drop,
  some, true, Bool-cases, inl, inr, ltb, arith, append_assoc, drop-drop, length-drop, take_fits,
  take-drop,
}
use ocaml_core.Endian.{ByteOrder, little_endian, big_endian, native_bytes}
use ocaml_core.Bigstring.Output.{at_most}
use ocaml_core.Process.{
  Answer, done, fails, Process, Descriptor, End, Ends, executed, exited, blocked, impossible,
  append,
}
use ocaml_core.Process.Pipe.{sizeof_int, report_loop, report_errno_on_pipe}

pub length-native_bytes : (host : ByteOrder) (e : ℕ) → length (native_bytes host sizeof_int e) ≡ 4
length-native_bytes little_endian e = refl
length-native_bytes big_endian e = refl

-- How many calls moved at least one byte.
abbrev pub progress : List Answer → ℕ
progress [] = 0
progress (done zero ∷ ans) = progress ans
progress (done (suc n) ∷ ans) = suc (progress ans)
progress (fails e ∷ ans) = progress ans

-- `file` has got `bytes`, and the descriptors are as before.
abbrev pub Reported : ℕ → List ℕ → Process → End → Type 0
Reported file bytes p (exited code, p') =
    (code ≡ 254) × (p'.files file ≡ p.files file ++ bytes) × (p'.fds ≡ p.fds)
Reported file bytes p (blocked, p') = Unit {0}
Reported file bytes p _ = ⊥

append_here :
    (file : ℕ) (bytes : List ℕ) (files : ℕ → List ℕ)
    → append file bytes files file ≡ files file ++ bytes
append_here file bytes files = ground arith

-- One write, and then what the rest reports.
Reported-append :
    (file : ℕ) (xs ys bytes : List ℕ) (p : Process) (e : End)
    → xs ++ ys ≡ bytes
    → Reported file ys (record p { files = append file xs p.files }) e
    → Reported file bytes p e
Reported-append file xs ys bytes p (exited code, p') joined (c, f, s) =
    (c, f ∙ rw (append_here file xs p.files, append_assoc (p.files file) xs ys, joined) refl, s)
Reported-append file xs ys bytes p (blocked, p') joined h = tt
Reported-append file xs ys bytes p (executed, p') joined h = elim h [ ]
Reported-append file xs ys bytes p (impossible, p') joined h = elim h [ ]

split_at : (k n : ℕ) (xs : List ℕ) → take k (drop n xs) ++ drop (n + k) xs ≡ drop n xs
split_at k n xs = rw (← drop-drop n k xs) (sym (take-drop k (drop n xs)))

report_loop-Reported :
    (fd : ℕ) (my_err : List ℕ) (d : Descriptor)
    → length my_err ≡ 4
    → (ans : List Answer) (offset : ℕ) (p : Process) → p.fds fd ≡ some d
    → offset < 4
    → Reported d.file (drop offset my_err) p (report_loop fd my_err offset ans p)
unfolding report_loop
report_loop-Reported fd my_err d len [] offset p h low = tt
report_loop-Reported fd my_err d len (fails e ∷ ans) offset p h low =
    report_loop-Reported fd my_err d len ans offset p h low
report_loop-Reported fd my_err d len (done n ∷ ans) offset p h low =
    let k = at_most (4 - offset) n in
    let p' : Process = record p { files = append d.file (take k (drop offset my_err)) p.files } in
    elim (Bool-cases (ltb (offset + k) 4)) [
      | inl more ↦
          rw (more, h)
            (Reported-append d.file (take k (drop offset my_err)) (drop (offset + k) my_err)
              (drop offset my_err) p (report_loop fd my_err (offset + k) ans p')
              (split_at k offset my_err)
              (report_loop-Reported fd my_err d len ans (offset + k) p' h (ground (arith, more))))
      | inr full ↦
          let reached : 4 ≤ offset + k = ground (arith, full) in
          rw
            (
              full,
              h,
              take_fits k (drop offset my_err)
                  (omega (arith, length-drop offset my_err, len, reached)),
            )
            (refl, append_here d.file (drop offset my_err) p.files, refl)
    ]

-- The loop of `report_errno_on_pipe`, entered below 4, ends with the exit status 254 if the offset
-- and the number of writes that move a byte or more are together at least 4, whatever other writes
-- fail or move nothing in between.
pub report_loop_ends :
    (fd : ℕ) (my_err : List ℕ) (ans : List Answer) (offset : ℕ) (p : Process)
    → offset < 4
    → 4 ≤ offset + progress ans
    → (report_loop fd my_err offset ans p).0 ≡ exited 254
unfolding report_loop
report_loop_ends fd my_err [] offset p low enough = absurd (omega arith)
report_loop_ends fd my_err (fails e ∷ ans) offset p low enough =
    report_loop_ends fd my_err ans offset p low enough
report_loop_ends fd my_err (done zero ∷ ans) offset p low enough =
    let same : offset + at_most (4 - offset) 0 ≡ offset = ground arith in
    let more : ltb offset 4 ≡ true = ground arith in
    rw (same, more) (report_loop_ends fd my_err ans offset _ low enough)
report_loop_ends fd my_err (done (suc n) ∷ ans) offset p low enough =
    let k = at_most (4 - offset) (suc n) in
    elim (Bool-cases (ltb (offset + k) 4)) [
      | inl more ↦ rw more (
          report_loop_ends fd my_err ans (offset + k) _ (ground (arith, more))
            (ground (arith, more)))
      | inr full ↦ rw full refl
    ]

pub report_errno_on_pipe-Reported :
    (host : ByteOrder) (fd my_err : ℕ) (ans : List Answer) (p : Process) (d : Descriptor)
    → p.fds fd ≡ some d
    → Reported d.file (native_bytes host 4 my_err) p (report_errno_on_pipe host fd my_err ans p)
unfolding report_errno_on_pipe
report_errno_on_pipe-Reported host fd my_err ans p d h =
    report_loop-Reported fd (native_bytes host 4 my_err) d (length-native_bytes host my_err) ans 0 p
      h (omega arith)

pub Reported-exited :
    (file : ℕ) (bytes : List ℕ) (p : Process) (e : End)
    → Reported file bytes p e
    → e.0 ≡ exited 254
    → e.1.files file ≡ p.files file ++ bytes
Reported-exited file bytes p (exited code, p') (c, f, s) ended = f
Reported-exited file bytes p (blocked, p') h ended = cc
Reported-exited file bytes p (executed, p') h ended = elim h [ ]
Reported-exited file bytes p (impossible, p') h ended = elim h [ ]

-- A report ends a child that executes no program.
pub Reported-Ends :
    (Q X : Process → Type 0) (file : ℕ) (bytes : List ℕ) (p : Process) (e : End)
    → ((p' : Process) → p'.files file ≡ p.files file ++ bytes → X p')
    → Reported file bytes p e
    → Ends Q X e
Reported-Ends Q X file bytes p (exited code, p') hx (c, f, s) = hx p' f
Reported-Ends Q X file bytes p (blocked, p') hx h = tt
Reported-Ends Q X file bytes p (executed, p') hx h = elim h [ ]
Reported-Ends Q X file bytes p (impossible, p') hx h = elim h [ ]
