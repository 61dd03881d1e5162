-- ===== src/Process/Environ.antt =====
-- The environment of the C library, which ml_create_process of base/core/lib/unix_stubs.c fills with
-- `putenv`: a list of strings, each a name, the sign `=` and a value.
use ocaml_core.Prelude.{
  ℕ, ◌≡◌, refl, sym, ap, ◌∙◌, List, [], ◌∷◌, Option, none, some, Bool, Bool-cases, inl, inr, true,
  false, ◌==◌, if◌then◌else◌, arith,
}
use ocaml_core.Process.{Text}

-- The sign `=`.
abbrev pub equals_sign : ℕ
equals_sign = 61

abbrev with_first : ℕ → Option Text → Option Text
with_first c none = none
with_first c (some n) = some (c ∷ n)

-- What stands before the first sign `=`.
abbrev pub name_of : Text → Option Text
name_of [] = none
name_of (c ∷ s) = let rest = name_of s in if c == equals_sign then some [] else with_first c rest

abbrev pub same_text : Text → Text → Bool
same_text [] [] = true
same_text [] (d ∷ t) = false
same_text (c ∷ s) [] = false
same_text (c ∷ s) (d ∷ t) = let rest = same_text s t in if c == d then rest else false

abbrev named : Text → Option Text → Bool
named n none = false
named n (some m) = same_text n m

-- Whether the string has the name `n`.
abbrev pub is_of : Text → Text → Bool
is_of n t = named n (name_of t)

-- The string takes the place of the first one of its name, or comes last.
pub put : Text → Text → List Text → List Text
put n s [] = s ∷ []
put n s (t ∷ environ) = let rest = put n s environ in if is_of n t then s ∷ environ else t ∷ rest

pub remove : Text → List Text → List Text
remove n [] = []
remove n (t ∷ environ) = let rest = remove n environ in if is_of n t then rest else t ∷ rest

-- `putenv`: a string without a sign `=` is a name to be removed; the empty string is refused.
abbrev put_named : Text → Option Text → List Text → List Text
put_named s (some n) environ = put n s environ
put_named [] none environ = environ
put_named (c ∷ s) none environ = remove (c ∷ s) environ

abbrev pub putenv : Text → List Text → List Text
putenv s environ = put_named s (name_of s) environ

-- `getenv`, for the whole string.
abbrev pub found : Text → List Text → Option Text
found n [] = none
found n (t ∷ environ) = let rest = found n environ in if is_of n t then some t else rest

-- What a list of strings says about a name: the first that has the name, or that is the name itself, says
-- it.
abbrev says : Text → Text → Option Text → Option Text → Option Text
says m s (some n) rest = if same_text m n then some s else rest
says m [] none rest = rest
says m (c ∷ s) none rest = if same_text m (c ∷ s) then none else rest

abbrev pub wanted : Text → List Text → Option Text
wanted m [] = none
wanted m (s ∷ strings) = says m s (name_of s) (wanted m strings)

same_text-true : (a b : Text) → same_text a b ≡ true → a ≡ b
same_text-true [] [] h = refl
same_text-true [] (d ∷ t) h = cc
same_text-true (c ∷ s) [] h = cc
same_text-true (c ∷ s) (d ∷ t) h = elim (Bool-cases (c == d)) [
  | inl same ↦
      let e : c ≡ d = ground (arith, same) in
      let rest : s ≡ t = same_text-true s t (sym (rw same refl) ∙ h) in cc
  | inr other ↦ let refused : false ≡ true = sym (rw other refl) ∙ h in cc
]

named-true : (n : Text) (o : Option Text) → named n o ≡ true → o ≡ some n
named-true n none h = cc
named-true n (some m) h = ap some (sym (same_text-true n m h))

-- A string of the name `n` has another name just where that is `n`.
is_of-same : (m n t : Text) → is_of n t ≡ true → is_of m t ≡ same_text m n
is_of-same m n t h = ap (named m) (named-true n (name_of t) h)

is_of-other : (m n t : Text) → is_of n t ≡ false → same_text m n ≡ true → is_of m t ≡ false
is_of-other m n t h same = ap (λ (x : Text). is_of x t) (same_text-true m n same) ∙ h

found-put :
    (m n s : Text) (environ : List Text)
    → name_of s ≡ some n
    → found m (put n s environ) ≡ (if same_text m n then some s else found m environ)
unfolding put
found-put m n s [] h = rw h refl
found-put m n s (t ∷ environ) h = elim (Bool-cases (is_of n t)) [
  | inl here ↦ elim (Bool-cases (same_text m n)) [
    | inl same ↦ rw (here, h, same) refl
    | inr other ↦ rw (here, h, other, is_of-same m n t here, other) refl
  ]
  | inr there ↦ elim (Bool-cases (same_text m n)) [
    | inl same ↦ rw (there, is_of-other m n t there same, found-put m n s environ h, same) refl
    | inr other ↦ rw (there, found-put m n s environ h, other) refl
  ]
]

found-remove :
    (m n : Text) (environ : List Text)
    → found m (remove n environ) ≡ (if same_text m n then none else found m environ)
unfolding remove
found-remove m n [] = elim (Bool-cases (same_text m n)) [
  | inl same ↦ rw same refl
  | inr other ↦ rw other refl
]
found-remove m n (t ∷ environ) = elim (Bool-cases (is_of n t)) [
  | inl here ↦ elim (Bool-cases (same_text m n)) [
    | inl same ↦ rw (here, found-remove m n environ, same) refl
    | inr other ↦ rw (here, found-remove m n environ, is_of-same m n t here, other) refl
  ]
  | inr there ↦ elim (Bool-cases (same_text m n)) [
    | inl same ↦ rw (there, is_of-other m n t there same, found-remove m n environ, same) refl
    | inr other ↦ rw (there, found-remove m n environ, other) refl
  ]
]

-- `putenv` before what the other strings say.
pub found-putenv :
    (m s : Text) (strings environ : List Text)
    → found m environ ≡ wanted m strings
    → found m (putenv s environ) ≡ wanted m (s ∷ strings)
found-putenv m s strings environ h = by_name s (name_of s) refl
  where
    by_name :
        (s : Text) (o : Option Text)
        → name_of s ≡ o
        → found m (put_named s o environ) ≡ says m s o (wanted m strings)
    by_name s (some n) e =
        found-put m n s environ e ∙ ap (λ o. if same_text m n then some s else o) h
    by_name [] none e = h
    by_name (c ∷ s) none e =
        found-remove m (c ∷ s) environ ∙ ap (λ o. if same_text m (c ∷ s) then none else o) h
