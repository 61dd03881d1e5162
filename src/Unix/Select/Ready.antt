-- ===== src/Unix/Select/Ready.antt =====
-- What unix_pselect_stub of base/core/lib/unix_stubs.c asks the system, and what it makes of the answer.
use ocaml_core.Prelude.{
  ℕ, suc, ◌<◌, ◌≤◌, ◌≡◌, refl, sym, ◌∙◌, ℤ, pos, negsuc, List, [], ◌∷◌, ◌++◌, append_assoc,
  append-nil, Option, none, some, ltb, Bool, Bool-cases, inl, inr, true, false, ◌||◌, ◌==◌,
  if◌then◌else◌, arith,
}
use ocaml_core.Unix.{Reply, value, uerror, Called, gives, errs}
use ocaml_core.Unix.Select.{
  ◌>>=◌, FdSet, fd_zero, max_fd, fdlist_loop, fdlist_to_fdset, fdset_loop, fdset_to_fdlist, Sets,
  successor, on_pselect, unix_pselect_stub,
}

abbrev pub elem : ℕ → List ℕ → Bool
elem n [] = false
elem n (fd ∷ l) = if n == fd then true else elem n l

grows :
    (fd : ℕ) (m : ℤ) → (suc fd ≤ successor (max_fd fd m)) × (successor m ≤ successor (max_fd fd m))
grows fd (pos n) = ground arith
grows fd (negsuc n) = ground arith

-- What the loop leaves: the descriptors of the list in the set, all of them below FD_SETSIZE and below
-- the successor of the highest.
record IsFilled (l : List ℕ) (fdset : FdSet) (maxfd : ℤ) (s : FdSet) (m : ℤ) : Type 0 where
  low : (n : ℕ) → elem n l ≡ true → n < 1024
  members : (n : ℕ) → s n ≡ (elem n l || fdset n)
  higher : successor maxfd ≤ successor m
  below : (n : ℕ) → elem n l ≡ true → n < successor m

abbrev Loops : List ℕ → FdSet → ℤ → Option (FdSet × ℤ) → Type 0
Loops l fdset maxfd none = (n : ℕ) × (elem n l ≡ true) × (1024 ≤ n)
Loops l fdset maxfd (some (s, m)) = IsFilled l fdset maxfd s m

first_is : (fd : ℕ) (l : List ℕ) → elem fd (fd ∷ l) ≡ true
first_is fd l = ground arith

behind : (fd n : ℕ) (l : List ℕ) → elem n l ≡ true → elem n (fd ∷ l) ≡ true
behind fd n l h = ground arith

-- One descriptor before the others.
Loops-cons :
    (fd : ℕ) (l : List ℕ) (fdset : FdSet) (maxfd : ℤ) (o : Option (FdSet × ℤ))
    → fd < 1024
    → Loops l (λ n. if n == fd then true else fdset n) (max_fd fd maxfd) o
    → Loops (fd ∷ l) fdset maxfd o
Loops-cons fd l fdset maxfd none low (n, among, high) = (n, behind fd n l among, high)
Loops-cons fd l fdset maxfd (some (s, m)) low h = record {
  low = λ n among. elim (Bool-cases (n == fd)) [
    | inl here ↦ ground (arith, here, low)
    | inr there ↦ h.low n (sym (rw there refl) ∙ among)
  ];
  members = λ n. ground (arith, h.members n);
  higher = omega (arith, grows fd maxfd, h.higher);
  below = λ n among. elim (Bool-cases (n == fd)) [
    | inl here ↦ let e : n ≡ fd = ground (arith, here) in omega (arith, e, grows fd maxfd, h.higher)
    | inr there ↦ h.below n (sym (rw there refl) ∙ among)
  ];
}

fdlist_loop-Loops :
    (l : List ℕ) (fdset : FdSet) (maxfd : ℤ) → Loops l fdset maxfd (fdlist_loop l fdset maxfd)
unfolding fdlist_loop
fdlist_loop-Loops [] fdset maxfd = record {
  low = λ n among. cc;
  members = λ n. refl;
  higher = omega arith;
  below = λ n among. cc;
}
fdlist_loop-Loops (fd ∷ l) fdset maxfd = elim (Bool-cases (ltb fd 1024)) [
  | inl low ↦ rw low (
      Loops-cons fd l fdset maxfd _ (ground (arith, low))
        (fdlist_loop-Loops l (λ n. if n == fd then true else fdset n) (max_fd fd maxfd)))
  | inr high ↦ rw high (fd, first_is fd l, ground (arith, high))
]

or_false : (b : Bool) → (b || false) ≡ b
or_false true = refl
or_false false = refl

seen :
    (n : ℕ) (a b c : Bool) {x y z : ℕ}
    → (a ≡ true → n < x)
    → x ≤ y
    → (b ≡ true → n < y)
    → y ≤ z
    → (c ≡ true → n < z)
    → (a || (b || c)) ≡ true
    → n < z
seen n true b c ha xy hb yz hc h = omega (arith, ha refl, xy, yz)
seen n false true c ha xy hb yz hc h = omega (arith, hb refl, yz)
seen n false false c ha xy hb yz hc h = hc h

-- A descriptor of one of the lists.
abbrev pub any : Sets (List ℕ) → ℕ → Bool
any v n = elem n v.rfds || (elem n v.wfds || elem n v.efds)

-- The question: each set has the descriptors of its list, and all of them are looked at.
pub record IsAsked (v : Sets (List ℕ)) (nfds : ℕ) (s : Sets FdSet) : Type 0 where
  pub reads : (n : ℕ) → s.rfds n ≡ elem n v.rfds
  pub writes : (n : ℕ) → s.wfds n ≡ elem n v.wfds
  pub errors : (n : ℕ) → s.efds n ≡ elem n v.efds
  pub all_seen : (n : ℕ) → any v n ≡ true → n < nfds

-- The descriptors of a list that the system leaves in the set, in the reverse order.
abbrev pub ready : List ℕ → FdSet → List ℕ
ready [] s = []
ready (fd ∷ l) s = ready l s ++ (if s fd then fd ∷ [] else [])

fdset_loop-ready : (l : List ℕ) (s : FdSet) (res : List ℕ) → fdset_loop l s res ≡ ready l s ++ res
unfolding fdset_loop
fdset_loop-ready [] s res = refl
fdset_loop-ready (fd ∷ l) s res = elim (Bool-cases (s fd)) [
  | inl set ↦ rw (set, append_assoc (ready l s) (fd ∷ []) res) (fdset_loop-ready l s (fd ∷ res))
  | inr clear ↦ rw (clear, append_assoc (ready l s) [] res) (fdset_loop-ready l s res)
]

abbrev pub IsAnswered : Sets (List ℕ) → Called (Sets FdSet) → Reply (Sets (List ℕ)) → Type 0
IsAnswered v (errs e) reply = reply ≡ uerror e
IsAnswered v (gives s) reply =
    reply
    ≡ value (record {
      rfds = ready v.rfds s.rfds;
      wfds = ready v.wfds s.wfds;
      efds = ready v.efds s.efds;
    })

on_pselect-IsAnswered :
    (v : Sets (List ℕ)) (a : Called (Sets FdSet)) → IsAnswered v a (on_pselect v a)
on_pselect-IsAnswered v (errs e) = refl
on_pselect-IsAnswered v (gives s) =
    rw (all_ready v.rfds s.rfds, all_ready v.wfds s.wfds, all_ready v.efds s.efds) refl
  where
    all_ready : (l : List ℕ) (t : FdSet) → fdset_to_fdlist l t ≡ ready l t
    all_ready l t = fdset_loop-ready l t [] ∙ append-nil (ready l t)

-- `unix_pselect_stub` calls `pselect` with sets that have just the descriptors of its lists and
-- with a number above each of them; it raises the error of the call, or returns of each list, in
-- the reverse order, the descriptors that the call has left in the set.
-- No descriptor is too high, and the system is asked and answers; or one is too high.
abbrev pub IsOutcome :
    (ℕ → Sets FdSet → Called (Sets FdSet)) → Sets (List ℕ) → Option (Reply (Sets (List ℕ))) → Type 0
IsOutcome pselect v none = (n : ℕ) × (any v n ≡ true) × (1024 ≤ n)
IsOutcome pselect v (some reply) =
    ((n : ℕ) → any v n ≡ true → n < 1024)
    × (nfds : ℕ) × (s : Sets FdSet) × IsAsked v nfds s
    × IsAnswered v (pselect nfds s) reply

second : (a b : Bool) → b ≡ true → (a || b) ≡ true
second true b h = refl
second false b h = h

first : (a b : Bool) → a ≡ true → (a || b) ≡ true
first true b h = refl
first false b h = cc

module _ (pselect : ℕ → Sets FdSet → Called (Sets FdSet)) (v : Sets (List ℕ)) where
  -- After the three loops.
  asks :
      (r w e : FdSet × ℤ)
      → Loops v.rfds fd_zero (negsuc 0) (some r)
      → Loops v.wfds fd_zero r.1 (some w)
      → Loops v.efds fd_zero w.1 (some e)
      → IsOutcome pselect v (
          some (
            on_pselect v (pselect (successor e.1) (record { rfds = r.0; wfds = w.0; efds = e.0 }))))
  asks r w e hr hw he = (
    λ n h.
        seen n (elem n v.rfds) (elem n v.wfds) (elem n v.efds) (hr.low n) (omega arith) (hw.low n)
          (omega arith) (he.low n) h,
    successor e.1,
    record { rfds = r.0; wfds = w.0; efds = e.0 },
    record {
      reads = λ n. hr.members n ∙ or_false (elem n v.rfds);
      writes = λ n. hw.members n ∙ or_false (elem n v.wfds);
      errors = λ n. he.members n ∙ or_false (elem n v.efds);
      all_seen = λ n h.
          seen n (elem n v.rfds) (elem n v.wfds) (elem n v.efds) (hr.below n) hw.higher (hw.below n)
            he.higher (he.below n) h;
    },
    on_pselect-IsAnswered v
        (pselect (successor e.1) (record { rfds = r.0; wfds = w.0; efds = e.0 })),
  )

  on_errors :
      (r w : FdSet × ℤ) (o : Option (FdSet × ℤ))
      → Loops v.rfds fd_zero (negsuc 0) (some r)
      → Loops v.wfds fd_zero r.1 (some w)
      → Loops v.efds fd_zero w.1 o
      → IsOutcome pselect v (
          o >>= λ e.
          some (
            on_pselect v (pselect (successor e.1) (record { rfds = r.0; wfds = w.0; efds = e.0 }))))
  on_errors r w none hr hw (n, among, high) =
      (n, second (elem n v.rfds) _ (second (elem n v.wfds) _ among), high)
  on_errors r w (some e) hr hw he = asks r w e hr hw he

  on_writes :
      (r : FdSet × ℤ) (o : Option (FdSet × ℤ))
      → Loops v.rfds fd_zero (negsuc 0) (some r)
      → Loops v.wfds fd_zero r.1 o
      → IsOutcome pselect v (
          o >>= λ w. fdlist_to_fdset v.efds w.1 >>= λ e.
          some (
            on_pselect v (pselect (successor e.1) (record { rfds = r.0; wfds = w.0; efds = e.0 }))))
  on_writes r none hr (n, among, high) =
      (n, second (elem n v.rfds) _ (first (elem n v.wfds) _ among), high)
  on_writes r (some w) hr hw =
      on_errors r w (fdlist_to_fdset v.efds w.1) hr hw (fdlist_loop-Loops v.efds fd_zero w.1)

  on_reads :
      (o : Option (FdSet × ℤ))
      → Loops v.rfds fd_zero (negsuc 0) o
      → IsOutcome pselect v (
          o >>= λ r. fdlist_to_fdset v.wfds r.1 >>= λ w. fdlist_to_fdset v.efds w.1 >>= λ e.
          some (
            on_pselect v (pselect (successor e.1) (record { rfds = r.0; wfds = w.0; efds = e.0 }))))
  on_reads none (n, among, high) = (n, first (elem n v.rfds) _ among, high)
  on_reads (some r) hr =
      on_writes r (fdlist_to_fdset v.wfds r.1) hr (fdlist_loop-Loops v.wfds fd_zero r.1)

  -- Either a list has a descriptor of 1024 (FD_SETSIZE) or more and `unix_pselect_stub` stores
  -- outside of a set; or all are below and it calls `pselect` with sets that have just the
  -- descriptors of its lists and with a number above each of them, and raises the error of the
  -- call, or returns of each list, in the reverse order, the descriptors that the call has left in
  -- the set.
  pub unix_pselect_stub-IsOutcome : IsOutcome pselect v (unix_pselect_stub pselect v)
  unfolding unix_pselect_stub
  unix_pselect_stub-IsOutcome =
      on_reads (fdlist_to_fdset v.rfds (negsuc 0)) (fdlist_loop-Loops v.rfds fd_zero (negsuc 0))
