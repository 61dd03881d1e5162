-- ===== src/Process/Pipe/RoundTrip.antt =====
-- The errno that report_errno_on_pipe writes is the one that errno_from_pipe reads, however the calls of
-- write and read cut it up and however often they are interrupted.
use ocaml_core.Prelude.{
  ℕ, zero, suc, ◌+◌, ◌-◌, ◌%◌, ◌^◌, ◌≤◌, ◌<◌, ◌≡◌, refl, sym, ap, ◌∙◌, List, [], ◌∷◌, ◌++◌, length,
  take, drop, some, true, false, ◌==◌, arith, append_assoc, length-append, length-take, append-nil,
  take-drop,
}
use ocaml_core.Endian.{ByteOrder, little_endian, big_endian, native_bytes, native_value}
use ocaml_core.Bigstring.Output.{at_most}
use ocaml_core.Process.{Answer, done, fails, Process, Descriptor, exited, eintr}
use ocaml_core.Process.Pipe.Reports.{
  length-native_bytes, progress, report_loop_ends, report_errno_on_pipe-Reported, Reported-exited,
}
use ocaml_core.Process.Pipe.{sizeof_int, no_errno, errno, report_errno_on_pipe, errno_from_pipe}

native_value-native_bytes :
    (host : ByteOrder) (e : ℕ) → native_value host (native_bytes host sizeof_int e) ≡ e % 2 ^ 32
native_value-native_bytes little_endian e = omega arith
native_value-native_bytes big_endian e = omega arith

-- As documented, `read` gives 0 at the end of the pipe only; it fails when a signal arrives.
abbrev pub IsReads : List Answer → Type 0
IsReads [] = Unit {0}
IsReads (done n ∷ ans) = (1 ≤ n) × IsReads ans
IsReads (fails e ∷ ans) = (e ≡ eintr) × IsReads ans

errno_from_pipe_enough :
    (host : ByteOrder) (full : List ℕ)
    → length full ≡ 4
    → (ans : List Answer) (content my_errno : List ℕ) → my_errno ++ content ≡ full
    → IsReads ans
    → 5 ≤ length my_errno + progress ans
    → errno_from_pipe host ans content my_errno ≡ errno (native_value host full)
unfolding errno_from_pipe
errno_from_pipe_enough host full len [] content my_errno e ok enough =
    absurd (omega (arith, ap length e, length-append {0} my_errno content))
errno_from_pipe_enough host full len (fails x ∷ ans) content my_errno e (intr, ok) enough =
    rw intr (errno_from_pipe_enough host full len ans content my_errno e ok enough)
errno_from_pipe_enough host full len (done zero ∷ ans) content my_errno e (low, ok) enough =
    absurd (omega arith)
errno_from_pipe_enough host full len (done (suc n) ∷ ans) [] my_errno e (low, ok) enough =
    let all : my_errno ≡ full = sym (append-nil my_errno) ∙ e in
    let none_left : (at_most 0 (at_most (4 - length my_errno) (suc n)) == 0) ≡ true =
      ground arith in
    rw none_left (rw (all, len) refl)
errno_from_pipe_enough host full len (done (suc n) ∷ ans) (c ∷ content) my_errno e (low, ok)
      enough =
    let k = at_most (length (c ∷ content)) (at_most (4 - length my_errno) (suc n)) in
    let sum : length my_errno + length (c ∷ content) ≡ 4 =
      omega (arith, len, ap length e, length-append {0} my_errno (c ∷ content)) in
    let some_bytes : 1 ≤ k = ground (arith, sum) in
    let inside : k ≤ length (c ∷ content) = ground arith in
    let nonzero : (k == 0) ≡ false = ground (arith, some_bytes) in
    rw nonzero (
      errno_from_pipe_enough host full len ans (drop k (c ∷ content))
        (my_errno ++ take k (c ∷ content))
        (rw
          (
            append_assoc my_errno (take k (c ∷ content)) (drop k (c ∷ content)),
            ← take-drop k (c ∷ content),
          )
          e)
        ok
        (omega (
          arith,
          length-append {0} my_errno (take k (c ∷ content)),
          length-take k (c ∷ content) inside,
          some_bytes,
          enough,
        )))

pub errno_from_pipe_none :
    (host : ByteOrder) (ans : List Answer)
    → IsReads ans
    → 1 ≤ progress ans
    → errno_from_pipe host ans [] [] ≡ no_errno
unfolding errno_from_pipe
errno_from_pipe_none host [] ok enough = absurd (omega arith)
errno_from_pipe_none host (fails e ∷ ans) (intr, ok) enough =
    rw intr (errno_from_pipe_none host ans ok enough)
errno_from_pipe_none host (done zero ∷ ans) (low, ok) enough = absurd (omega arith)
errno_from_pipe_none host (done (suc n) ∷ ans) ok enough =
    let none_left : (at_most 0 (at_most 4 (suc n)) == 0) ≡ true = ground arith in rw none_left refl

pub errno_from_pipe-native_bytes :
    (host : ByteOrder) (my_err : ℕ) (ans : List Answer)
    → my_err < 2 ^ 32
    → IsReads ans
    → 5 ≤ progress ans
    → errno_from_pipe host ans (native_bytes host 4 my_err) [] ≡ errno my_err
errno_from_pipe-native_bytes host my_err ans low ok enough =
    errno_from_pipe_enough host (native_bytes host 4 my_err) (length-native_bytes host my_err) ans
      (native_bytes host 4 my_err) [] refl ok (omega arith)
    ∙ ap errno (native_value-native_bytes host my_err ∙ omega arith)

-- However the calls of `write` and `read` cut the number up and however often they are interrupted:
-- once four writes have moved a byte or more, `report_errno_on_pipe` of an errno below 2 ^ 32 to an
-- empty pipe has ended with the status 254; and `errno_from_pipe` finds this errno there, where
-- `read` fails only by interruptions and returns five times or more.
pub errno_from_pipe-report_errno_on_pipe :
    (host : ByteOrder) (fd my_err : ℕ) (writes reads : List Answer) (p : Process) (d : Descriptor)
    → p.fds fd ≡ some d
    → p.files d.file ≡ []
    → my_err < 2 ^ 32
    → 4 ≤ progress writes
    → IsReads reads
    → 5 ≤ progress reads
    → let e = report_errno_on_pipe host fd my_err writes p in
      (e.0 ≡ exited 254) × (errno_from_pipe host reads (e.1.files d.file) [] ≡ errno my_err)
errno_from_pipe-report_errno_on_pipe host fd my_err writes reads p d h empty low enough ok
      enough_reads =
    let ended : (report_errno_on_pipe host fd my_err writes p).0 ≡ exited 254 =
      unfold report_errno_on_pipe in
      report_loop_ends fd (native_bytes host 4 my_err) writes 0 p (omega arith) (omega arith) in
    (
      ended,
      rw
          (
            Reported-exited d.file (native_bytes host 4 my_err) p
                (report_errno_on_pipe host fd my_err writes p)
                (report_errno_on_pipe-Reported host fd my_err writes p d h) ended,
            empty,
          )
          (errno_from_pipe-native_bytes host my_err reads low ok enough_reads),
    )
