-- ===== src/Process/Create/Wiring.antt =====
-- The descriptor tables of the child of ml_create_process in base/core/lib/unix_stubs.c, from its calls of
-- `dup` on.
use ocaml_core.Prelude.{
  ℕ, zero, suc, ◌≤◌, ◌≡◌, refl, sym, ap, ◌∙◌, Option, none, some, Bool-cases, inl, inr, true, false,
  ◌==◌, if◌then◌else◌, arith,
}
use ocaml_core.Process.{Descriptor, Fds, set, copied}
use ocaml_core.Process.Create.{Pipe}
use ocaml_core.Process.Create.Tables.{piped3, IsPiped, IsOrdered, ordered, WasFree, was_free}

module _ (fds : Fds) (q1 q2 q3 : Pipe) where
  -- The copies that `dup` makes.
  abbrev pub duped3 : ℕ → ℕ → ℕ → Fds
  duped3 a b c =
      let fds1 = set a (copied ((piped3 fds q1 q2 q3) q1.read_end)) (piped3 fds q1 q2 q3) in
      let fds2 = set b (copied (fds1 q2.write_end)) fds1 in set c (copied (fds2 q3.write_end)) fds2

  abbrev pub emptied : Fds → Fds
  emptied t = set 2 none (set 1 none (set 0 none t))

  abbrev pub unpiped : Fds → Fds
  unpiped t = set q3.write_end none (
      set q3.read_end none (
        set q2.write_end none
          (set q2.read_end none (set q1.write_end none (set q1.read_end none t)))))

  abbrev pub moved : ℕ → ℕ → ℕ → Fds → Fds
  moved a b c t =
      let fds1 = set 0 (copied (t a)) t in
      let fds2 = set 1 (copied (fds1 b)) fds1 in set 2 (copied (fds2 c)) fds2

  abbrev pub closed : ℕ → ℕ → ℕ → Fds → Fds
  closed a b c t = set c none (set b none (set a none t))

  -- The pipes at the standard descriptors, and the others as they were.
  abbrev pub wired : Fds
  wired m =
      if m == 0
      then some (record { file = q1.in_file; flags = 0 })
      else if m == 1
      then some (record { file = q2.out_file; flags = 0 })
      else if m == 2
      then some (record { file = q3.out_file; flags = 0 })
      else fds m

  -- The copies are new descriptors.
  pub record IsFresh (a b c : ℕ) : Type 0 where
    pub free_a : (piped3 fds q1 q2 q3) a ≡ none
    pub free_b : (piped3 fds q1 q2 q3) b ≡ none
    pub free_c : (piped3 fds q1 q2 q3) c ≡ none
    pub differ_ab : (b == a) ≡ false
    pub differ_ac : (c == a) ≡ false
    pub differ_bc : (c == b) ≡ false

  high_lem : (n : ℕ) → (IsOrdered fds q1 q2 q3) → (piped3 fds q1 q2 q3) n ≡ none → 3 ≤ n
  high_lem zero o free = cc
  high_lem (suc zero) o free = cc
  high_lem (suc (suc zero)) o free = cc
  high_lem (suc (suc (suc n))) o free = omega arith

  pub read1_lem :
      (IsOrdered fds q1 q2 q3)
      → (piped3 fds q1 q2 q3) q1.read_end ≡ some (record { file = q1.in_file; flags = 0 })
  read1_lem o = ground (arith, o)

  pub write2_lem :
      (IsOrdered fds q1 q2 q3)
      → (piped3 fds q1 q2 q3) q2.write_end ≡ some (record { file = q2.out_file; flags = 0 })
  write2_lem o = ground (arith, o)

  pub write3_lem :
      (IsOrdered fds q1 q2 q3)
      → (piped3 fds q1 q2 q3) q3.write_end ≡ some (record { file = q3.out_file; flags = 0 })
  write3_lem o = ground (arith, o)

  -- A descriptor that is no end of a pipe.
  record IsOff (n : ℕ) : Type 0 where
    off_r1 : (n == q1.read_end) ≡ false
    off_w1 : (n == q1.write_end) ≡ false
    off_r2 : (n == q2.read_end) ≡ false
    off_w2 : (n == q2.write_end) ≡ false
    off_r3 : (n == q3.read_end) ≡ false
    off_w3 : (n == q3.write_end) ≡ false

  off_lem : (n : ℕ) → (piped3 fds q1 q2 q3) n ≡ none → IsOff n
  off_lem n free = ground arith

  -- What is above the standard descriptors and no end of a pipe is not touched by the closing.
  kept_lem : (t : Fds) (n : ℕ) → IsOff n → 3 ≤ n → unpiped (emptied t) n ≡ t n
  kept_lem t n off high =
      let n0 : (n == 0) ≡ false = ground (arith, high) in
      let n1 : (n == 1) ≡ false = ground (arith, high) in
      let n2 : (n == 2) ≡ false = ground (arith, high) in
      rw (off.off_r1, off.off_w1, off.off_r2, off.off_w2, off.off_r3, off.off_w3, n0, n1, n2) refl

  duped_a :
      (a b c : ℕ) → IsFresh a b c → duped3 a b c a ≡ copied ((piped3 fds q1 q2 q3) q1.read_end)
  duped_a a b c f = ground (arith, f)

  module _ (a b c : ℕ) (o : (IsOrdered fds q1 q2 q3)) (f : IsFresh a b c) where
    differs :
        (n m : ℕ) (d : Descriptor)
        → (piped3 fds q1 q2 q3) n ≡ some d
        → (piped3 fds q1 q2 q3) m ≡ none
        → (n == m) ≡ false
    differs n m d is_open free = ground arith

    duped_b : duped3 a b c b ≡ copied ((piped3 fds q1 q2 q3) q2.write_end)
    duped_b =
        let t : (b == c) ≡ false = ground (arith, f.differ_bc) in
        let u : (q2.write_end == a) ≡ false = differs q2.write_end a _ (write2_lem o) f.free_a in
        let same : (b == b) ≡ true = ground arith in rw (t, same, u) refl

    duped_c : duped3 a b c c ≡ copied ((piped3 fds q1 q2 q3) q3.write_end)
    duped_c =
        let u : (q3.write_end == a) ≡ false = differs q3.write_end a _ (write3_lem o) f.free_a in
        let v : (q3.write_end == b) ≡ false = differs q3.write_end b _ (write3_lem o) f.free_b in
        let same : (c == c) ≡ true = ground arith in rw (same, v, u) refl

    duped_other :
        (m : ℕ)
        → (m == a) ≡ false
        → (m == b) ≡ false
        → (m == c) ≡ false
        → duped3 a b c m ≡ (piped3 fds q1 q2 q3) m
    duped_other m ma mb mc = rw (mc, mb, ma) refl

  -- They are closed again.
  unpiped_lem :
      (t : Fds) (m : ℕ)
      → (WasFree fds q1 q2 q3)
      → 3 ≤ m
      → t m ≡ (piped3 fds q1 q2 q3) m
      → unpiped (emptied t) m ≡ fds m
  unpiped_lem t m h high same = ground (arith, h, same, high)

  -- Three copies at work.
  moved_lem :
      (t : Fds) (a b c m : ℕ) (x y z : ℕ)
      → t a ≡ some (record { file = x; flags = 0 })
      → t b ≡ some (record { file = y; flags = 0 })
      → t c ≡ some (record { file = z; flags = 0 })
      → 3 ≤ a
      → 3 ≤ b
      → 3 ≤ c
      → closed a b c (moved a b c t) m ≡ (
          if m == 0
          then some (record { file = x; flags = 0 })
          else if m == 1
          then some (record { file = y; flags = 0 })
          else if m == 2
          then some (record { file = z; flags = 0 })
          else set a none (set b none (set c none t)) m)
  moved_lem t a b c m x y z ta tb tc ha hb hc = ground arith

  free_of_piped3 : (m : ℕ) → (piped3 fds q1 q2 q3) m ≡ none → fds m ≡ none
  free_of_piped3 m free = ground arith

  closed_at :
      (t : Fds) (a b c m : ℕ)
      → (m == a) ≡ false
      → (m == b) ≡ false
      → (m == c) ≡ false
      → set a none (set b none (set c none t)) m ≡ t m
  closed_at t a b c m ma mb mc = rw (ma, mb, mc) refl

  rest_lem :
      (a b c m : ℕ)
      → (IsPiped fds q1 q2 q3)
      → IsFresh a b c
      → 3 ≤ m
      → set a none (set b none (set c none (unpiped (emptied (duped3 a b c))))) m ≡ fds m
  rest_lem a b c m h f high = elim (Bool-cases (m == a)) [
    | inl here ↦
        let e : m ≡ a = ground (arith, here) in rw here (rw e (sym (free_of_piped3 a f.free_a)))
    | inr ma ↦ elim (Bool-cases (m == b)) [
      | inl here ↦
          let e : m ≡ b = ground (arith, here) in
          rw (ma, here) (rw e (sym (free_of_piped3 b f.free_b)))
      | inr mb ↦ elim (Bool-cases (m == c)) [
        | inl here ↦
            let e : m ≡ c = ground (arith, here) in
            rw (ma, mb, here) (rw e (sym (free_of_piped3 c f.free_c)))
        | inr mc ↦
            let t = duped3 a b c in
            closed_at (unpiped (emptied t)) a b c m ma mb mc
            ∙ unpiped_lem t m ((was_free fds q1 q2 q3) h) high
                (duped_other a b c ((ordered fds q1 q2 q3) h) f m ma mb mc)
      ]
    ]
  ]

  joined :
      (m : ℕ) (o : Option Descriptor)
      → (3 ≤ m → o ≡ fds m)
      → (if m == 0
          then some (record { file = q1.in_file; flags = 0 })
          else if m == 1
          then some (record { file = q2.out_file; flags = 0 })
          else if m == 2
          then some (record { file = q3.out_file; flags = 0 })
          else o)
        ≡ wired m
  joined zero o h = refl
  joined (suc zero) o h = refl
  joined (suc (suc zero)) o h = refl
  joined (suc (suc (suc m))) o h =
      let high : 3 ≤ suc (suc (suc m)) = omega arith in
      let n0 : (suc (suc (suc m)) == 0) ≡ false = ground arith in
      let n1 : (suc (suc (suc m)) == 1) ≡ false = ground arith in
      let n2 : (suc (suc (suc m)) == 2) ≡ false = ground arith in rw (n0, n1, n2) (h high)

  -- The copies above the standard descriptors, after the closing.
  pub record IsReady (t : Fds) (a b c : ℕ) : Type 0 where
    pub ready_a : t a ≡ some (record { file = q1.in_file; flags = 0 })
    pub ready_b : t b ≡ some (record { file = q2.out_file; flags = 0 })
    pub ready_c : t c ≡ some (record { file = q3.out_file; flags = 0 })
    pub high_a : 3 ≤ a
    pub high_b : 3 ≤ b
    pub high_c : 3 ≤ c

  pub ready_lem :
      (a b c : ℕ)
      → (IsPiped fds q1 q2 q3)
      → IsFresh a b c
      → IsReady (unpiped (emptied (duped3 a b c))) a b c
  ready_lem a b c h f =
      let o = (ordered fds q1 q2 q3) h in
      let high_a = high_lem a o f.free_a in
      let high_b = high_lem b o f.free_b in
      let high_c = high_lem c o f.free_c in
      let t = duped3 a b c in
      record {
        ready_a =
            kept_lem t a (off_lem a f.free_a) high_a ∙ duped_a a b c f ∙ ap copied (read1_lem o);
        ready_b =
            kept_lem t b (off_lem b f.free_b) high_b ∙ duped_b a b c o f ∙ ap copied (write2_lem o);
        ready_c =
            kept_lem t c (off_lem c f.free_c) high_c ∙ duped_c a b c o f ∙ ap copied (write3_lem o);
        high_a = high_a;
        high_b = high_b;
        high_c = high_c;
      }

  pub wired_lem :
      (a b c m : ℕ)
      → (IsPiped fds q1 q2 q3)
      → IsFresh a b c
      → closed a b c (moved a b c (unpiped (emptied (duped3 a b c)))) m ≡ wired m
  wired_lem a b c m h f =
      let k = ready_lem a b c h f in
      moved_lem (unpiped (emptied (duped3 a b c))) a b c m q1.in_file q2.out_file q3.out_file
        k.ready_a k.ready_b k.ready_c k.high_a k.high_b k.high_c
      ∙ joined m _ (rest_lem a b c m h f)
