-- ===== src/Process/Create/Tables.antt =====
-- The descriptor tables of the child of ml_create_process in base/core/lib/unix_stubs.c.
use ocaml_core.Prelude.{
  ℕ, zero, suc, ◌<◌, ◌≡◌, refl, none, some, Bool-cases, inl, inr, true, false, ◌==◌, arith,
}
use ocaml_core.Process.{Descriptor, Fds, set, is_free}
use ocaml_core.Process.Create.{all_open, is_lowest, Pipe}

all_open_below : (n m : ℕ) (fds : Fds) → all_open n fds ≡ true → m < n → is_free (fds m) ≡ false
all_open_below zero m fds h low = absurd (omega arith)
all_open_below (suc n) m fds h low = elim (Bool-cases (m == n)) [
  | inl here ↦ ground (arith, here, h)
  | inr there ↦ ground (arith, there, h, all_open_below n m fds)
]

-- What the lowest free descriptor is.
pub record IsLowest (n : ℕ) (fds : Fds) : Type 0 where
  pub free : fds n ≡ none
  pub below : (m : ℕ) → m < n → is_free (fds m) ≡ false

pub lowest_lem : (n : ℕ) (fds : Fds) → is_lowest n fds ≡ true → IsLowest n fds
lowest_lem n fds h = record {
  free = ground (arith, h);
  below = λ m low. all_open_below n m fds (ground (arith, h)) low;
}

-- The next descriptor is higher.
grows :
    (n m : ℕ) (d : Descriptor) (fds : Fds)
    → IsLowest n fds
    → IsLowest m (set n (some d) fds)
    → n < m
grows n m d fds hn hm = ground (arith, hn.below m, hm.free)

module _ (fds : Fds) (q1 q2 q3 : Pipe) where
  -- The table after each call of `pipe`, and in its middle.
  abbrev pub read_set : Pipe → Fds → Fds
  read_set q t = set q.read_end (some (record { file = q.in_file; flags = 0 })) t

  abbrev pub both_set : Pipe → Fds → Fds
  both_set q t = set q.write_end (some (record { file = q.out_file; flags = 0 })) (read_set q t)

  abbrev pub piped3 : Fds
  piped3 = both_set q3 (both_set q2 (both_set q1 fds))

  pub record IsPiped : Type 0 where
    pub read1 : IsLowest q1.read_end fds
    pub write1 : IsLowest q1.write_end (read_set q1 fds)
    pub read2 : IsLowest q2.read_end (both_set q1 fds)
    pub write2 : IsLowest q2.write_end (read_set q2 (both_set q1 fds))
    pub read3 : IsLowest q3.read_end (both_set q2 (both_set q1 fds))
    pub write3 : IsLowest q3.write_end (read_set q3 (both_set q2 (both_set q1 fds)))

  -- The ends come in the order of the calls.
  pub record IsOrdered : Type 0 where
    pub order1 : q1.read_end < q1.write_end
    pub order2 : q1.write_end < q2.read_end
    pub order3 : q2.read_end < q2.write_end
    pub order4 : q2.write_end < q3.read_end
    pub order5 : q3.read_end < q3.write_end
    pub open0 : is_free (piped3 0) ≡ false
    pub open1 : is_free (piped3 1) ≡ false
    pub open2 : is_free (piped3 2) ≡ false

  pub ordered : IsPiped → IsOrdered
  ordered h =
      let o1 = grows q1.read_end q1.write_end _ fds h.read1 h.write1 in
      let o2 = grows q1.write_end q2.read_end _ (read_set q1 fds) h.write1 h.read2 in
      let o3 = grows q2.read_end q2.write_end _ (both_set q1 fds) h.read2 h.write2 in
      let o4 = grows q2.write_end q3.read_end _ (read_set q2 (both_set q1 fds)) h.write2 h.read3 in
      let o5 = grows q3.read_end q3.write_end _ (both_set q2 (both_set q1 fds)) h.read3 h.write3 in
      record {
        order1 = o1;
        order2 = o2;
        order3 = o3;
        order4 = o4;
        order5 = o5;
        open0 = still 0 (h.write3.below 0 (omega (arith, o1, o2, o3, o4, o5)));
        open1 = still 1 (h.write3.below 1 (omega (arith, o1, o2, o3, o4, o5)));
        open2 = still 2 (h.write3.below 2 (omega (arith, o1, o2, o3, o4, o5)));
      }
    where
      still :
          (m : ℕ)
          → is_free (read_set q3 (both_set q2 (both_set q1 fds)) m) ≡ false
          → is_free (piped3 m) ≡ false
      still m is_open = elim (Bool-cases (m == q3.write_end)) [
        | inl here ↦ rw here refl
        | inr there ↦ rw there is_open
      ]

  -- The ends of the pipes were free.
  pub record WasFree : Type 0 where
    pub was_r1 : fds q1.read_end ≡ none
    pub was_w1 : fds q1.write_end ≡ none
    pub was_r2 : fds q2.read_end ≡ none
    pub was_w2 : fds q2.write_end ≡ none
    pub was_r3 : fds q3.read_end ≡ none
    pub was_w3 : fds q3.write_end ≡ none

  pub free_before :
      (n : ℕ) (d : Descriptor) (t : Fds) (m : ℕ) → set n (some d) t m ≡ none → t m ≡ none
  free_before n d t m free = ground arith

  pub was_free : IsPiped → WasFree
  was_free h = record {
    was_r1 = h.read1.free;
    was_w1 = before1 q1.write_end h.write1.free;
    was_r2 = before2 q2.read_end h.read2.free;
    was_w2 = before2 q2.write_end (free_before q2.read_end _ (both_set q1 fds) _ h.write2.free);
    was_r3 = before3 q3.read_end h.read3.free;
    was_w3 =
        before3 q3.write_end
          (free_before q3.read_end _ (both_set q2 (both_set q1 fds)) _ h.write3.free);
  }
    where
      before1 : (m : ℕ) → read_set q1 fds m ≡ none → fds m ≡ none
      before1 m free = free_before q1.read_end _ fds m free

      before2 : (m : ℕ) → both_set q1 fds m ≡ none → fds m ≡ none
      before2 m free = before1 m (free_before q1.write_end _ (read_set q1 fds) m free)

      before3 : (m : ℕ) → both_set q2 (both_set q1 fds) m ≡ none → fds m ≡ none
      before3 m free = before2 m (
          free_before q2.read_end _ (both_set q1 fds) m
            (free_before q2.write_end _ (read_set q2 (both_set q1 fds)) m free))
