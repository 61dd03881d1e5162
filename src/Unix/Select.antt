-- ===== src/Unix/Select.antt =====
-- unix_pselect_stub of base/core/lib/unix_stubs.c, with fdlist_to_fdset and fdset_to_fdlist. An `fd_set`
-- has FD_SETSIZE bits; FD_SET does not test for it and stores outside of the set for a higher descriptor,
-- which is `none` here. The timeout and the mask go to the system as they are.
pub mod Ready
use ocaml_core.Prelude.{
  ℕ, ◌+◌, ℤ, pos, negsuc, ltb_ℤ, List, [], ◌∷◌, Option, none, some, ltb, Bool, true, false, ◌==◌,
  if◌then◌else◌,
}
use ocaml_core.Unix.{Reply, value, uerror, Called, gives, errs}

infixl 5 ◌>>=◌
abbrev pub ◌>>=◌ {ℓ κ} : {A : Type ℓ} {B : Type κ} → Option A → (A → Option B) → Option B
none >>= next = none
some a >>= next = next a

abbrev pub FdSet : Type 0
FdSet = ℕ → Bool

abbrev pub fd_zero : FdSet
fd_zero n = false

abbrev pub fd_setsize : ℕ
fd_setsize = 1024

abbrev pub fd_set : ℕ → FdSet → Option FdSet
fd_set fd fdset = if ltb fd fd_setsize then some (λ n. if n == fd then true else fdset n) else none

-- The loop; `maxfd` goes on from one list to the next.
abbrev pub max_fd : ℕ → ℤ → ℤ
max_fd fd maxfd = if ltb_ℤ maxfd (pos fd) then pos fd else maxfd

pub fdlist_loop : List ℕ → FdSet → ℤ → Option (FdSet × ℤ)
fdlist_loop [] fdset maxfd = some (fdset, maxfd)
fdlist_loop (fd ∷ l) fdset maxfd = do
  fdset' ← fd_set fd fdset
  fdlist_loop l fdset' (max_fd fd maxfd)

abbrev pub fdlist_to_fdset : List ℕ → ℤ → Option (FdSet × ℤ)
fdlist_to_fdset fdlist maxfd = fdlist_loop fdlist fd_zero maxfd

-- The loop, with the list that is made so far.
pub fdset_loop : List ℕ → FdSet → List ℕ → List ℕ
fdset_loop [] fdset res = res
fdset_loop (fd ∷ l) fdset res = fdset_loop l fdset (if fdset fd then fd ∷ res else res)

abbrev pub fdset_to_fdlist : List ℕ → FdSet → List ℕ
fdset_to_fdlist fdlist fdset = fdset_loop fdlist fdset []

pub record Sets {ℓ} (A : Type ℓ) : Type ℓ where
  pub rfds : A
  pub wfds : A
  pub efds : A

abbrev pub successor : ℤ → ℕ
successor (pos n) = n + 1
successor (negsuc n) = 0

abbrev pub on_pselect : Sets (List ℕ) → Called (Sets FdSet) → Reply (Sets (List ℕ))
on_pselect v (errs e) = uerror e
on_pselect v (gives s) = value (record {
  rfds = fdset_to_fdlist v.rfds s.rfds;
  wfds = fdset_to_fdlist v.wfds s.wfds;
  efds = fdset_to_fdlist v.efds s.efds;
})

-- `pselect` gets the number of descriptors to look at, and the sets.
pub unix_pselect_stub :
    (ℕ → Sets FdSet → Called (Sets FdSet)) → Sets (List ℕ) → Option (Reply (Sets (List ℕ)))
unix_pselect_stub pselect v = do
  r ← fdlist_to_fdset v.rfds (negsuc 0)
  w ← fdlist_to_fdset v.wfds r.1
  e ← fdlist_to_fdset v.efds w.1
  some (on_pselect v (pselect (successor e.1) (record { rfds = r.0; wfds = w.0; efds = e.0 })))
