-- ===== src/Process/Create/Args.antt =====
-- The array of arguments that ml_create_process of base/core/lib/unix_stubs.c fills, with its bound.
use ocaml_core.Prelude.{
  ℕ, ℤ, pos, negsuc, cast, leb_ℤ, ap, ◌∙◌, ◌^◌, zero, suc, ◌+◌, ◌-◌, ◌≤◌, ◌<◌, ◌≡◌, refl, sym, List,
  [], ◌∷◌, length, Option, none, some, Bool-cases, inl, inr, true, false, ltb, ◌==◌, if◌then◌else◌,
  arith,
}
use ocaml_core.Process.{Text}
use ocaml_core.Process.Spawn.{copy_stringvect}
use ocaml_core.Process.Spawn.Outcome.{vector_of}

-- ML_ARG_MAX.
abbrev pub ml_arg_max : ℕ
ml_arg_max = 4096 + 1

-- The array `args`, with no value where nothing was stored.
abbrev pub Array : Type 0
Array = ℕ → Option (Option Text)

-- `caml_failwith`, a store beyond the array, or the array.
pub data Filled : Type 0 where
  failure : Filled
  outside : Filled
  filled : Array → Filled

abbrev pub store : ℕ → Option Text → Array → (Array → Filled) → Filled
store i s args next =
    if ltb i ml_arg_max then next (λ j. if j == i then some s else args j) else outside

-- `Field(v_args, i)`.
abbrev pub field : List Text → ℕ → Text
field [] i = []
field (s ∷ v_args) zero = s
field (s ∷ v_args) (suc i) = field v_args i

-- The loop, from `n_args` down to 1.
pub fill_args : List Text → ℕ → Array → Filled
fill_args v_args zero args = filled args
fill_args v_args (suc n) args = store (suc n) (some (field v_args n)) args (fill_args v_args n)

-- An index that is an `int`.
abbrev pub store_at : ℤ → Option Text → Array → (Array → Filled) → Filled
store_at (pos i) s args next = store i s args next
store_at (negsuc i) s args next = outside

-- With a negative `n_args` the first turn stores before the array.
abbrev pub fill_all : List Text → ℤ → Array → Filled
fill_all v_args (pos n) args = fill_args v_args n args
fill_all v_args (negsuc n) args = outside

abbrev pub next_int : ℤ → ℤ
next_int (pos n) = pos (n + 1)
next_int (negsuc zero) = pos 0
next_int (negsuc (suc n)) = negsuc n

-- `int n_args = Wosize_val(v_args)`.
pub create_args : Text → List Text → Array → Filled
create_args prog v_args args =
    let n_args = cast 32 (pos (length v_args)) in
    if leb_ℤ (pos (ml_arg_max - 1)) n_args
    then failure
    else store 0 (some prog) args
        (λ args'. store_at (next_int n_args) none args' (fill_all v_args n_args))

-- What `exec` reads: the strings up to the null pointer. It stops where nothing was stored.
abbrev pub with_next : Option (Option Text) → List (Option Text) → List (Option Text)
with_next none rest = []
with_next (some none) rest = none ∷ []
with_next (some (some s)) rest = some s ∷ rest

pub read_args : ℕ → Array → ℕ → List (Option Text)
read_args zero args i = []
read_args (suc fuel) args i = let rest = read_args fuel args (i + 1) in with_next (args i) rest

-- The vector that `exec` wants.
abbrev pub at : List (Option Text) → ℕ → Option (Option Text)
at [] i = none
at (s ∷ v) zero = some s
at (s ∷ v) (suc i) = at v i

-- Between two turns: `args` holds what stands behind `n`, and at 0.
record IsPartly (prog : Text) (v_args : List Text) (n : ℕ) (args : Array) : Type 0 where
  first : args 0 ≡ some (some prog)
  others :
      (i : ℕ) → n < i → i ≤ length v_args + 1 → args i ≡ at (some prog ∷ copy_stringvect v_args) i

abbrev pub IsVector : Text → List Text → Filled → Type 0
IsVector prog v_args (filled args) =
    (i : ℕ) → i ≤ length v_args + 1 → args i ≡ at (some prog ∷ copy_stringvect v_args) i
IsVector prog v_args failure = ⊥
IsVector prog v_args outside = ⊥

at-field :
    (v_args : List Text) (n : ℕ)
    → n < length v_args
    → at (copy_stringvect v_args) n ≡ some (some (field v_args n))
at-field [] n h = absurd (omega arith)
at-field (s ∷ v_args) zero h = refl
at-field (s ∷ v_args) (suc n) h = at-field v_args n (omega arith)

at_end : (v_args : List Text) → at (copy_stringvect v_args) (length v_args) ≡ some none
at_end [] = refl
at_end (s ∷ v_args) = at_end v_args

n_args_lem : (n : ℕ) → n < 2 ^ 31 → cast 32 (pos n) ≡ pos n
n_args_lem n low = ground arith

module _ (prog : Text) (v_args : List Text) (low : length v_args < 4096) where
  store-IsPartly :
      (n : ℕ) (args : Array)
      → n < length v_args
      → IsPartly prog v_args (suc n) args
      → IsPartly prog v_args n (λ j. if j == suc n then some (some (field v_args n)) else args j)
  store-IsPartly n args inside h = record {
    first = let other : (0 == suc n) ≡ false = ground arith in rw other h.first;
    others = λ i above upto. elim (Bool-cases (i == suc n)) [
      | inl here ↦
          let e : i ≡ suc n = ground (arith, here) in
          let t : (suc n == suc n) ≡ true = ground arith in
          rw (e, t) (sym (at-field v_args n inside))
      | inr there ↦ rw there (h.others i (ground (arith, there, above)) upto)
    ];
  }

  all_of :
      (args : Array)
      → IsPartly prog v_args 0 args
      → (i : ℕ) → i ≤ length v_args + 1
      → args i ≡ at (some prog ∷ copy_stringvect v_args) i
  all_of args h zero upto = h.first
  all_of args h (suc i) upto = h.others (suc i) (omega arith) upto

  fill_args-IsVector :
      (n : ℕ) (args : Array)
      → n ≤ length v_args
      → IsPartly prog v_args n args
      → IsVector prog v_args (fill_args v_args n args)
  unfolding fill_args
  fill_args-IsVector zero args inside h = λ i. all_of args h i
  fill_args-IsVector (suc n) args inside h =
      let fits : ltb (suc n) ml_arg_max ≡ true = ground (arith, low, inside) in
      rw fits (fill_args-IsVector n _ (omega arith) (store-IsPartly n args (omega arith) h))

  -- For fewer than 4096 arguments, `ml_create_process` stores only inside its array of arguments,
  -- which then holds the program's name, the arguments in order and a null pointer behind them,
  -- whatever the array held before.
  pub create_args-IsVector : (args : Array) → IsVector prog v_args (create_args prog v_args args)
  unfolding create_args
  create_args-IsVector args =
      let n = length v_args in
      let same = n_args_lem n (omega (arith, low)) in
      let few : leb_ℤ (pos (ml_arg_max - 1)) (pos n) ≡ false = ground (arith, low) in
      let fits : ltb (n + 1) ml_arg_max ≡ true = ground (arith, low) in
      rw (same, few, fits)
        (fill_args-IsVector n _ (omega arith) (record {
          first = let other : (0 == n + 1) ≡ false = ground arith in rw other refl;
          others = λ i above upto.
              let e : i ≡ suc n = omega arith in
              let t : (suc n == n + 1) ≡ true = ground arith in rw (e, t) (sym (at_end v_args));
        }))

pub create_args_too_many :
    (prog : Text) (v_args : List Text) (args : Array)
    → 4096 ≤ length v_args
    → length v_args < 2 ^ 31
    → create_args prog v_args args ≡ failure
unfolding create_args
create_args_too_many prog v_args args many low =
    let same = n_args_lem (length v_args) low in
    let t : leb_ℤ (pos (ml_arg_max - 1)) (pos (length v_args)) ≡ true = ground (arith, many) in
    rw (same, t) refl

-- Where the array agrees with the strings and a null pointer from `i` on, these are read.
read_args_lem :
    (strings : List Text) (fuel i : ℕ) (args : Array)
    → length strings < fuel
    → ((j : ℕ) → j ≤ length strings → args (i + j) ≡ at (copy_stringvect strings) j)
    → read_args fuel args i ≡ vector_of strings
unfolding read_args
read_args_lem strings zero i args enough agrees = absurd (omega arith)
read_args_lem [] (suc fuel) i args enough agrees =
    let e : i + 0 ≡ i = omega arith in
    let here : args i ≡ some none = sym (ap args e) ∙ agrees 0 (omega arith) in rw here refl
read_args_lem (s ∷ strings) (suc fuel) i args enough agrees =
    let e : i + 0 ≡ i = omega arith in
    let here : args i ≡ some (some s) = sym (ap args e) ∙ agrees 0 (omega arith) in
    rw here (
      ap (◌∷◌ (some s)) (
        read_args_lem strings fuel (i + 1) args (omega arith) (λ j upto.
          let next : i + 1 + j ≡ i + suc j = omega arith in
          ap args next ∙ agrees (suc j) (omega arith))))

pub read_args-vector_of :
    (prog : Text) (v_args : List Text) (args : Array)
    → length v_args < 4096
    → IsVector prog v_args (filled args)
    → read_args ml_arg_max args 0 ≡ vector_of (prog ∷ v_args)
read_args-vector_of prog v_args args low h =
    read_args_lem (prog ∷ v_args) ml_arg_max 0 args (omega arith)
      (λ j upto. let e : 0 + j ≡ j = omega arith in ap args e ∙ h j (omega arith))
