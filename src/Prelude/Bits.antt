-- ===== src/Prelude/Bits.antt =====
-- The bitwise operations of C at variables: `|` of disjoint fields is a sum, and `&` with a mask of
-- low bits is a remainder.
use Prim.Native.Nat.{
  ℕ, zero, suc, ◌+◌, ◌-◌, ◌*◌, ◌/◌, ◌%◌, ◌^◌, ◌≤◌, ◌<◌, min, max, digits, bit_and, bit_or,
}
use Prim.Native.Nat.{bit_and-bitwise, bit_or-bitwise}
use mathlib.Core.Path.{◌≡◌, refl, ap}
use native.Mathlib.Nat.{le_refl, pow-suc, one-le-pow}
use native.Mathlib.Omega.{arith}

-- The digit recursion needs no more fuel than the number it walks along.
pub digits_enough :
    (z : ℕ → ℕ) (f : ℕ → ℕ → ℕ) (fuel more a b : ℕ)
    → a ≤ fuel
    → fuel ≤ more
    → digits z f more a b ≡ digits z f fuel a b
digits_enough z f zero zero a b p q = refl
digits_enough z f zero (suc more) zero b p q = refl
digits_enough z f zero (suc more) (suc a) b p q = absurd (omega arith)
digits_enough z f (suc fuel) zero a b p q = absurd (omega arith)
digits_enough z f (suc fuel) (suc more) zero b p q = refl
digits_enough z f (suc fuel) (suc more) (suc a) b p q =
    omega (arith, digits_enough z f fuel more (suc a / 2) (b / 2) (omega arith) (omega arith))

or_low : (a b : ℕ) → bit_or a b ≡ bit_or (a / 2) (b / 2) * 2 + max (a % 2) (b % 2)
or_low zero b = simp bit_or-bitwise (omega arith)
or_low (suc a) b =
    let half : ℕ = suc a / 2 in
    simp bit_or-bitwise
      (omega (arith, digits_enough (λ y. y) max half a half (b / 2) (le_refl _) (omega arith)))

and_low : (a b : ℕ) → bit_and a b ≡ bit_and (a / 2) (b / 2) * 2 + min (a % 2) (b % 2)
and_low zero b = simp bit_and-bitwise (omega arith)
and_low (suc a) b =
    let half : ℕ = suc a / 2 in
    simp bit_and-bitwise
      (omega (arith, digits_enough (λ y. zero) min half a half (b / 2) (le_refl _) (omega arith)))

zero-or : (b : ℕ) → bit_or 0 b ≡ b
zero-or b = bit_or-bitwise 0 b

or-zero_upto : (k a : ℕ) → a ≤ k → bit_or a 0 ≡ a
or-zero_upto zero a h = let e : a ≡ 0 = omega arith in rw e (zero-or 0)
or-zero_upto (suc k) zero h = zero-or 0
or-zero_upto (suc k) (suc a) h =
    omega (arith, or_low (suc a) 0, or-zero_upto k (suc a / 2) (omega arith))

and-zero_upto : (k a : ℕ) → a ≤ k → bit_and a 0 ≡ 0
and-zero_upto zero a h = let e : a ≡ 0 = omega arith in rw e (bit_and-bitwise 0 0)
and-zero_upto (suc k) zero h = bit_and-bitwise 0 0
and-zero_upto (suc k) (suc a) h =
    omega (arith, and_low (suc a) 0, and-zero_upto k (suc a / 2) (omega arith))

-- `(high << k) | low` where `low` has `k` bits.
pub bit_or_disjoint :
    (k high low : ℕ) → low < 2 ^ k → bit_or (high * 2 ^ k) low ≡ high * 2 ^ k + low
bit_or_disjoint zero high low h =
    let e : low ≡ 0 = omega arith in
    rw e (omega (arith, or-zero_upto (high * 2 ^ 0) (high * 2 ^ 0) (le_refl _)))
bit_or_disjoint (suc k) high low h = ground (
  arith,
  or_low (high * 2 ^ suc k) low,
  ap (λ (t : ℕ). high * t) (pow-suc 2 k),
  bit_or_disjoint k high (low / 2) (omega (arith, pow-suc 2 k)),
)

and_split : (k high low : ℕ) → low < 2 ^ k → bit_and (high * 2 ^ k + low) (2 ^ k - 1) ≡ low
and_split zero high low h =
    let e : low ≡ 0 = omega arith in
    rw e (and-zero_upto (high * 2 ^ 0 + 0) (high * 2 ^ 0 + 0) (le_refl _))
and_split (suc k) high low h = ground (
  arith,
  and_low (high * 2 ^ suc k + low) (2 ^ suc k - 1),
  ap (λ (t : ℕ). high * t) (pow-suc 2 k),
  pow-suc 2 k,
  one-le-pow k 2,
  and_split k high (low / 2) (omega (arith, pow-suc 2 k)),
)

-- `x & (2^k - 1)`.
pub bit_and_low : (k x : ℕ) → bit_and x (2 ^ k - 1) ≡ x % 2 ^ k
bit_and_low k x = ground (arith, one-le-pow k 2, and_split k (x / 2 ^ k) (x % 2 ^ k))

-- `x & (mask << k)`.
pub bit_and_shift :
    (k high low mask : ℕ)
    → low < 2 ^ k
    → bit_and (high * 2 ^ k + low) (mask * 2 ^ k) ≡ bit_and high mask * 2 ^ k
bit_and_shift zero high low mask h =
    let e : low ≡ 0 = omega arith in
    let a : high * 2 ^ 0 + 0 ≡ high = omega arith in
    let b : mask * 2 ^ 0 ≡ mask = omega arith in rw (e, a, b) (omega arith)
bit_and_shift (suc k) high low mask h = ground (
  arith,
  and_low (high * 2 ^ suc k + low) (mask * 2 ^ suc k),
  ap (λ (t : ℕ). high * t) (pow-suc 2 k),
  ap (λ (t : ℕ). mask * t) (pow-suc 2 k),
  ap (λ (t : ℕ). bit_and high mask * t) (pow-suc 2 k),
  pow-suc 2 k,
  bit_and_shift k high (low / 2) mask (omega (arith, pow-suc 2 k)),
)

-- `low | (high << k)` where `low` has `k` bits.
pub bit_or_disjoint_low :
    (k low high : ℕ) → low < 2 ^ k → bit_or low (high * 2 ^ k) ≡ high * 2 ^ k + low
bit_or_disjoint_low zero low high h =
    let e : low ≡ 0 = omega arith in rw e (omega (arith, zero-or (high * 2 ^ 0)))
bit_or_disjoint_low (suc k) low high h = ground (
  arith,
  or_low low (high * 2 ^ suc k),
  ap (λ (t : ℕ). high * t) (pow-suc 2 k),
  bit_or_disjoint_low k (low / 2) high (omega (arith, pow-suc 2 k)),
)
