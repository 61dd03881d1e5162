-- ===== src/Crc/Xor.antt =====
-- Laws of `^` at variables.
use Prim.Native.Nat.{differ, bit_xor-bitwise}
use native.Mathlib.Nat.{le_refl, pow-suc}
use ocaml_core.Prelude.{
  ℕ, zero, suc, ◌+◌, ◌*◌, ◌/◌, ◌%◌, ◌^◌, ◌≤◌, ◌<◌, ◌≡◌, refl, sym, ap, ◌∙◌, bit_xor, arith,
}
use ocaml_core.Prelude.Bits.{digits_enough}

differ_bits : (x y : ℕ) → x < 2 → y < 2 → differ x y ≡ (x + y) % 2
differ_bits zero y p q = omega arith
differ_bits (suc zero) zero p q = refl
differ_bits (suc zero) (suc zero) p q = refl
differ_bits (suc zero) (suc (suc y)) p q = absurd (omega arith)
differ_bits (suc (suc x)) y p q = absurd (omega arith)

lowest : (a b : ℕ) → bit_xor a b ≡ bit_xor (a / 2) (b / 2) * 2 + differ (a % 2) (b % 2)
lowest zero b = simp bit_xor-bitwise (omega arith)
lowest (suc a) b =
    let half : ℕ = suc a / 2 in
    simp bit_xor-bitwise
      (omega (arith, digits_enough (λ y. y) differ half a half (b / 2) (le_refl _) (omega arith)))

pub xor_low : (a b : ℕ) → bit_xor a b ≡ bit_xor (a / 2) (b / 2) * 2 + (a % 2 + b % 2) % 2
xor_low a b =
    lowest a b
    ∙ ap (λ d. bit_xor (a / 2) (b / 2) * 2 + d)
        (differ_bits (a % 2) (b % 2) (omega arith) (omega arith))

pub xor_half : (a b : ℕ) → bit_xor a b / 2 ≡ bit_xor (a / 2) (b / 2)
xor_half a b = omega (arith, xor_low a b)

pub xor_parity : (a b : ℕ) → bit_xor a b % 2 ≡ (a % 2 + b % 2) % 2
xor_parity a b = omega (arith, xor_low a b)

pub zero-xor : (b : ℕ) → bit_xor 0 b ≡ b
zero-xor b = bit_xor-bitwise 0 b

xor-zero_upto : (k a : ℕ) → a ≤ k → bit_xor a 0 ≡ a
xor-zero_upto zero a h = let e : a ≡ 0 = omega arith in rw e (zero-xor 0)
xor-zero_upto (suc k) zero h = zero-xor 0
xor-zero_upto (suc k) (suc a) h =
    omega (arith, xor_low (suc a) 0, xor-zero_upto k (suc a / 2) (omega arith))

pub xor-zero : (a : ℕ) → bit_xor a 0 ≡ a
xor-zero a = xor-zero_upto a a (le_refl _)

assoc_upto :
    (k a b c : ℕ) → a ≤ k → b ≤ k → c ≤ k → bit_xor (bit_xor a b) c ≡ bit_xor a (bit_xor b c)
assoc_upto zero a b c p q r =
    let ea : a ≡ 0 = omega arith in
    let eb : b ≡ 0 = omega arith in let ec : c ≡ 0 = omega arith in rw (ea, eb, ec, zero-xor 0) refl
assoc_upto (suc k) a b c p q r =
    let left = rw (xor_half a b) at (xor_low (bit_xor a b) c) in
    let right = rw (xor_half b c) at (xor_low a (bit_xor b c)) in
    let deeper = assoc_upto k (a / 2) (b / 2) (c / 2) (omega arith) (omega arith) (omega arith) in
    omega (arith, left, right, deeper, xor_parity a b, xor_parity b c)

pub xor_assoc : (a b c : ℕ) → bit_xor (bit_xor a b) c ≡ bit_xor a (bit_xor b c)
xor_assoc a b c = assoc_upto (a + b + c) a b c (omega arith) (omega arith) (omega arith)

-- The lowest `k` digits, and what stands above them.
abbrev pub halve : ℕ → ℕ → ℕ
halve zero a = a
halve (suc k) a = halve k (a / 2)

abbrev pub low : ℕ → ℕ → ℕ → ℕ
low zero a b = 0
low (suc k) a b = (a % 2 + b % 2) % 2 + 2 * low k (a / 2) (b / 2)

low-lt : (k a b : ℕ) → low k a b < 2 ^ k
low-lt zero a b = omega arith
low-lt (suc k) a b = omega (arith, pow-suc 2 k, low-lt k (a / 2) (b / 2))

split : (k a b : ℕ) → bit_xor a b ≡ bit_xor (halve k a) (halve k b) * 2 ^ k + low k a b
split zero a b = omega arith
split (suc k) a b = ground (
  arith,
  xor_low a b,
  ap (λ (t : ℕ). bit_xor (halve k (a / 2)) (halve k (b / 2)) * t) (pow-suc 2 k),
  split k (a / 2) (b / 2),
)

-- The octet at the bottom.
octets : (a b : ℕ) → bit_xor a b ≡ bit_xor (a / 256) (b / 256) * 256 + low 8 a b
octets a b =
    let ea : halve 8 a ≡ a / 256 = omega arith in
    let eb : halve 8 b ≡ b / 256 = omega arith in rw (ea, eb) at (split 8 a b)

pub xor_octet : (a b : ℕ) → bit_xor a b / 256 ≡ bit_xor (a / 256) (b / 256)
xor_octet a b = omega (arith, octets a b, low-lt 8 a b)

remainder : {x r : ℕ} (q : ℕ) → x ≡ q * 256 + r → r < 256 → x % 256 ≡ r
remainder q e h = omega (arith, e, h)

abbrev SameDigits : ℕ → ℕ → ℕ → Type 0
SameDigits zero b c = Unit {0}
SameDigits (suc k) b c = (b % 2 ≡ c % 2) × SameDigits k (b / 2) (c / 2)

low_same : (k a b c : ℕ) → SameDigits k b c → low k a b ≡ low k a c
low_same zero a b c h = refl
low_same (suc k) a b c (e, h) = omega (arith, e, low_same k (a / 2) (b / 2) (c / 2) h)

octet-SameDigits : (b c : ℕ) → b % 256 ≡ c % 256 → SameDigits 8 b c
octet-SameDigits b c e = (
  omega (arith, e),
  (
    omega (arith, e),
    (
      omega (arith, e),
      (
        omega (arith, e),
        (omega (arith, e), (omega (arith, e), (omega (arith, e), (omega (arith, e), tt)))),
      ),
    ),
  ),
)

pub xor_mod : (a b c : ℕ) → b % 256 ≡ c % 256 → bit_xor a b % 256 ≡ bit_xor a c % 256
xor_mod a b c e =
    let same = low_same 8 a b c (octet-SameDigits b c e) in
    let lb : bit_xor a b % 256 ≡ low 8 a b = remainder _ (octets a b) (low-lt 8 a b) in
    let lc : bit_xor a c % 256 ≡ low 8 a c = remainder _ (octets a c) (low-lt 8 a c) in
    lb ∙ (same ∙ sym lc)

-- Nothing at the bottom of the first number.
xor_mod_zero : (k a b : ℕ) → SameDigits k a 0 → SameDigits k b b → low k a b ≡ low k 0 b
xor_mod_zero zero a b h g = refl
xor_mod_zero (suc k) a b (e, h) (f, g) = omega (arith, e, xor_mod_zero k (a / 2) (b / 2) h g)

same_self : (k b : ℕ) → SameDigits k b b
same_self zero b = tt
same_self (suc k) b = (refl, same_self k (b / 2))

commuted : (a : ℕ) → bit_xor (a / 256 * 256) (a % 256) % 256 ≡ a % 256
commuted a =
    let x = a / 256 * 256 in
    let y = a % 256 in
    let same = xor_mod_zero 8 x y (octet-SameDigits x 0 (omega arith)) (same_self 8 y) in
    let lx : bit_xor x y % 256 ≡ low 8 x y = remainder _ (octets x y) (low-lt 8 x y) in
    let lz : bit_xor 0 y % 256 ≡ low 8 0 y = remainder _ (octets 0 y) (low-lt 8 0 y) in
    let z : bit_xor 0 y % 256 ≡ a % 256 = ap (λ t. t % 256) (zero-xor y) ∙ omega arith in
    lx ∙ (same ∙ (sym lz ∙ z))

-- A number is its octet at the bottom and the rest.
pub xor_split : (a : ℕ) → a ≡ bit_xor (a / 256 * 256) (a % 256)
xor_split a =
    let ea : a / 256 * 256 / 256 ≡ a / 256 = omega arith in
    let eb : a % 256 / 256 ≡ 0 = omega arith in
    let up : bit_xor (a / 256 * 256) (a % 256) / 256 ≡ a / 256 =
      xor_octet (a / 256 * 256) (a % 256)
      ∙ (ap (λ t. bit_xor t (a % 256 / 256)) ea
          ∙ (ap (bit_xor (a / 256)) eb ∙ xor-zero (a / 256))) in
    let down : bit_xor (a / 256 * 256) (a % 256) % 256 ≡ a % 256 = commuted a in
    omega (arith, up, down)
