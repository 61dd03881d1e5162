-- ===== src/Memory/Store.antt =====
-- What `store` does to a mapped range.
use ocaml_core.Prelude.{
  ℕ, suc, take, ltb, false, ap, ◌∙◌, ◌+◌, ◌≤◌, ◌<◌, ◌≡◌, ◌≢◌, ◌⊎◌, refl, none, List, [], ◌∷◌, ◌++◌,
  length, arith, Option-cases, Bool-cases, ◌==◌, inl, inr,
}
use mathlib.Core.Path.{fun_ext}
use ocaml_core.Exec.{ok, fault}
use ocaml_core.Memory.{Memory, update, store, memcpy}

-- Every address from `lo` up to `hi` holds a byte.
abbrev pub IsMapped : Memory → ℕ → ℕ → Type 0
IsMapped m lo hi = (a : ℕ) → lo ≤ a → a < hi → m a ≢ none

-- The memory with the bytes written from address `p` on.
abbrev pub put : Memory → ℕ → List ℕ → Memory
put m p [] = m
put m p (b ∷ bs) = put (update m p b) (p + 1) bs

pub IsMapped-update :
    (m : Memory) (lo hi p b : ℕ) → IsMapped m lo hi → IsMapped (update m p b) lo hi
IsMapped-update m lo hi p b h a la ah = ground (arith, h a la ah)

-- On a mapped range `store` writes its bytes and returns.
pub store-eq-put :
    (bs : List ℕ) (m : Memory) (p : ℕ)
    → IsMapped m p (p + length bs)
    → store p bs m ≡ (ok tt, put m p bs)
unfolding store
store-eq-put [] m p h = refl
store-eq-put (b ∷ bs) m p h = elim (Option-cases (m p)) [
  | inl e ↦ absurd (h p (omega arith) (omega arith) e)
  | inr (x, e) ↦
      rw (e, store)
        (store-eq-put bs (update m p b) (p + 1)
          λ a la ah. IsMapped-update m p (p + length (b ∷ bs)) p b h a (omega arith) (omega arith))
]

-- Bytes outside the written range are kept.
pub put_outside :
    (bs : List ℕ) (m : Memory) (p a : ℕ) → (a < p) ⊎ (p + length bs ≤ a) → put m p bs a ≡ m a
put_outside [] m p a h = refl
put_outside (b ∷ bs) m p a h = ground (arith, put_outside bs (update m p b) (p + 1) a)

pub IsMapped-put :
    (bs : List ℕ) (m : Memory) (lo hi p : ℕ) → IsMapped m lo hi → IsMapped (put m p bs) lo hi
IsMapped-put [] m lo hi p h = h
IsMapped-put (b ∷ bs) m lo hi p h =
    IsMapped-put bs (update m p b) lo hi (p + 1) (IsMapped-update m lo hi p b h)

pub put-append :
    (bs cs : List ℕ) (m : Memory) (p : ℕ) → put m p (bs ++ cs) ≡ put (put m p bs) (p + length bs) cs
put-append [] cs m p = let e : p + 0 ≡ p = omega arith in rw e
put-append (b ∷ bs) cs m p =
    let e : p + suc (length bs) ≡ p + 1 + length bs = omega arith in
    rw e (put-append bs cs (update m p b) (p + 1))

take-length : (bs : List ℕ) → take (length bs) bs ≡ bs
take-length [] = refl
take-length (b ∷ bs) = ap (◌∷◌ b) (take-length bs)

-- A copy of a whole object stores its bytes.
pub memcpy_whole :
    (dst : ℕ) (bs : List ℕ) (n : ℕ) (m : Memory)
    → n ≡ length bs
    → memcpy dst bs n m ≡ store dst bs m
unfolding memcpy
memcpy_whole dst bs n m e =
    let fits : ltb (length bs) (length bs) ≡ false = ground arith in rw (e, fits, take-length bs)

update_comm :
    (m : Memory) (p q b c : ℕ) → p ≢ q → update (update m p b) q c ≡ update (update m q c) p b
update_comm m p q b c ne = fun_ext λ a. ground (arith, ne)

-- A byte behind a block may be written before the block.
pub update-put :
    (bs : List ℕ) (m : Memory) (p a b : ℕ)
    → p + length bs ≤ a
    → update (put m p bs) a b ≡ put (update m a b) p bs
update-put [] m p a b h = refl
update-put (c ∷ bs) m p a b h =
    update-put bs (update m p c) (p + 1) a b (omega arith)
    ∙ ap (λ m'. put m' (p + 1) bs) (update_comm m p a c b (omega arith))

-- Bytes that cross an unmapped address are not stored.
pub store_unmapped :
    (bs : List ℕ) (m : Memory) (p a : ℕ)
    → p ≤ a
    → a < p + length bs
    → m a ≡ none
    → (store p bs m).0 ≡ fault
unfolding store
store_unmapped [] m p a le lt e = absurd (omega arith)
store_unmapped (b ∷ bs) m p a le lt e = elim (Option-cases (m p)) [
  | inl here ↦ rw (here, store) refl
  | inr (x, there) ↦ elim (Bool-cases (a == p)) [
    | inl same ↦ absurd (ground (arith, e, there))
    | inr other ↦
        rw (there, store)
          (store_unmapped bs (update m p b) (p + 1) a (ground arith) (omega arith) (rw other e))
  ]
]
