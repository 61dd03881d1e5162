-- ===== src/Memory/Load.antt =====
-- Ranges that hold given bytes, and what `load` returns on them.
use ocaml_core.Prelude.{
  inl, inr, ap, zero, suc, ◌++◌, ◌≤◌, Option-cases, ◌<◌, ℕ, ◌+◌, ◌≡◌, refl, some, List, [], ◌∷◌,
  length, take, drop, take-drop, length-take, arith,
}
use ocaml_core.Memory.{Memory, load, update}
use ocaml_core.Memory.Store.{put, put_outside, IsMapped}

-- The memory holds the bytes from address `p` on.
abbrev pub Holds : Memory → ℕ → List ℕ → Type 0
Holds m p [] = Unit {0}
Holds m p (b ∷ bs) = (m p ≡ some b) × Holds m (p + 1) bs

pub load-Holds : (bs : List ℕ) (m : Memory) (p : ℕ) → Holds m p bs → load m p (length bs) ≡ some bs
unfolding load
load-Holds [] m p h = refl
load-Holds (b ∷ bs) m p h = ground (arith, load-Holds bs m (p + 1) h.1)

-- What was written is held.
pub Holds-put : (bs : List ℕ) (m : Memory) (p : ℕ) → Holds (put m p bs) p bs
Holds-put [] m p = tt
Holds-put (b ∷ bs) m p =
    (ground (arith, put_outside bs (update m p b) (p + 1) p), Holds-put bs (update m p b) (p + 1))

-- What the memory holds are bytes.
abbrev pub IsByteMemory : Memory → Type 0
IsByteMemory m = (a b : ℕ) → m a ≡ some b → b < 256

pub Holds-append :
    (bs cs : List ℕ) (m : Memory) (p : ℕ)
    → Holds m p (bs ++ cs)
    → Holds m p bs × Holds m (p + length bs) cs
Holds-append [] cs m p h = let e : p + 0 ≡ p = omega arith in (tt, rw e h)
Holds-append (b ∷ bs) cs m p (at, h) =
    let (front, back) = Holds-append bs cs m (p + 1) h in
    let e : p + suc (length bs) ≡ p + 1 + length bs = omega arith in ((at, front), rw e back)

pub Holds-append_of :
    (bs cs : List ℕ) (m : Memory) (p : ℕ)
    → Holds m p bs
    → Holds m (p + length bs) cs
    → Holds m p (bs ++ cs)
Holds-append_of [] cs m p h k = let e : p + 0 ≡ p = omega arith in rw e at k
Holds-append_of (b ∷ bs) cs m p (at, h) k =
    let e : p + suc (length bs) ≡ p + 1 + length bs = omega arith in
    (at, Holds-append_of bs cs m (p + 1) h (rw e at k))

-- A mapped range is loaded whole.
pub load_mapped :
    (n : ℕ) (m : Memory) (lo hi p : ℕ)
    → IsMapped m lo hi
    → lo ≤ p
    → p + n ≤ hi
    → (bs : List ℕ) × (length bs ≡ n) × Holds m p bs
load_mapped zero m lo hi p mapped le fits = ([], refl, tt)
load_mapped (suc n) m lo hi p mapped le fits = elim (Option-cases (m p)) [
  | inl e ↦ absurd (mapped p le (omega arith) e)
  | inr (b, e) ↦
      let (bs, len, h) = load_mapped n m lo hi (p + 1) mapped (omega arith) (omega arith) in
      (b ∷ bs, ap suc len, (e, h))
]

-- The first bytes of a range, and the others.
pub Holds-take :
    (n : ℕ) (bs : List ℕ) (m : Memory) (p : ℕ)
    → Holds m p bs
    → n ≤ length bs
    → Holds m p (take n bs) × Holds m (p + n) (drop n bs)
Holds-take n bs m p h le =
    let (front, back) = Holds-append (take n bs) (drop n bs) m p (rw (← take-drop n bs) h) in
    (front, rw (length-take n bs le) at back)
