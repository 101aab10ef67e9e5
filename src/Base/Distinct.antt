-- ===== src/Base/Distinct.antt =====
-- Lists of different texts, and the number of their elements.
use Prim.Native.Nat.{suc, ◌≤◌}
use Prim.Native.String.{String}
use mathlib.Core.Path.{◌≡◌, refl, sym, ap, ◌∙◌}
use mathlib.Core.Logic.{inl, inr}
use mathlib.Core.Bool.{Bool, true, false, not, ◌&&◌, ◌||◌}
use mathlib.Core.List.{List, [], ◌∷◌, ◌++◌}
use native.Mathlib.Omega.{arith}
use text.Mathlib.Text.{◌==◌ as str_eq}
use text.Mathlib.TextEquality.{eq_iff}
use sanare_agent_core.Base.Tests.{Bool-cases, if◌then◌else◌}
use sanare_agent_core.Base.Lists.{length}

unfoldable pub contains : String → List String → Bool
contains x [] = false
contains x (y ∷ ys) = str_eq x y || contains x ys

-- set(xs) <= set(ys)
unfoldable pub all_in : List String → List String → Bool
all_in [] ys = true
all_in (x ∷ xs) ys = contains x ys && all_in xs ys

unfoldable pub distinct : List String → Bool
distinct [] = true
distinct (x ∷ xs) = not (contains x xs) && distinct xs

without : String → List String → List String
without x [] = []
without x (y ∷ ys) = if str_eq x y then ys else y ∷ without x ys

str_eq_refl : (x : String) → str_eq x x ≡ true
str_eq_refl x = (eq_iff x x).1 refl

length-without :
    (x : String) (ys : List String) → contains x ys ≡ true → length ys ≡ suc (length (without x ys))
unfolding contains without
length-without x [] h = cc
length-without x (y ∷ ys) h = elim (Bool-cases (str_eq x y)) [
  | inl same ↦ rw same refl
  | inr other ↦ rw other (ap suc (length-without x ys (rw other at h)))
]

contains-without :
    (z x : String) (ys : List String)
    → contains z ys ≡ true
    → str_eq z x ≡ false
    → contains z (without x ys) ≡ true
unfolding contains without
contains-without z x [] h apart = cc
contains-without z x (y ∷ ys) h apart = elim (Bool-cases (str_eq x y)) [
  | inl same ↦ let e : x ≡ y = (eq_iff x y).0 same in rw same (rw (sym e, apart) at h)
  | inr other ↦ elim (Bool-cases (str_eq z y)) [
    | inl found ↦ rw (other, found) refl
    | inr later ↦ rw (other, later) (contains-without z x ys (rw later at h) apart)
  ]
]

all_in-without :
    (x : String) (xs ys : List String)
    → contains x xs ≡ false
    → all_in xs ys ≡ true
    → all_in xs (without x ys) ≡ true
unfolding contains all_in
all_in-without x [] ys absent h = refl
all_in-without x (z ∷ zs) ys absent h =
    let apart : str_eq z x ≡ false = elim (Bool-cases (str_eq z x)) [
      | inl same ↦ let e : z ≡ x = (eq_iff z x).0 same in cc (rw (e, str_eq_refl x) at absent)
      | inr other ↦ other
    ] in
    let first : contains z ys ≡ true = ground arith in
    let rest : all_in zs ys ≡ true = ground arith in
    let later : contains x zs ≡ false = ground arith in
    rw (contains-without z x ys first apart) (all_in-without x zs ys later rest)

-- Different texts that all occur in a list are at most as many as its elements.
pub distinct-le :
    (xs ys : List String) → distinct xs ≡ true → all_in xs ys ≡ true → length xs ≤ length ys
unfolding distinct all_in
distinct-le [] ys d h = omega arith
distinct-le (x ∷ xs) ys d h =
    let absent : contains x xs ≡ false = ground arith in
    let apart : distinct xs ≡ true = ground arith in
    let first : contains x ys ≡ true = ground arith in
    let rest : all_in xs ys ≡ true = ground arith in
    omega (
      arith,
      length-without x ys first,
      distinct-le xs (without x ys) apart (all_in-without x xs ys absent rest),
    )

pub contains-append :
    (x : String) (xs ys : List String) → contains x (xs ++ ys) ≡ (contains x xs || contains x ys)
unfolding contains
contains-append x [] ys = refl
contains-append x (y ∷ xs) ys = elim (Bool-cases (str_eq x y)) [
  | inl same ↦ rw same refl
  | inr other ↦ rw other (contains-append x xs ys)
]

pub distinct-snoc :
    (xs : List String) (x : String)
    → distinct xs ≡ true
    → contains x xs ≡ false
    → distinct (xs ++ x ∷ []) ≡ true
unfolding distinct contains
distinct-snoc [] x d absent = refl
distinct-snoc (y ∷ ys) x d absent =
    let fresh : contains y ys ≡ false = ground arith in
    let apart : distinct ys ≡ true = ground arith in
    let later : contains x ys ≡ false = ground arith in
    let other : str_eq x y ≡ false = ground arith in
    let turned : str_eq y x ≡ false = elim (Bool-cases (str_eq y x)) [
      | inl same ↦ let e : y ≡ x = (eq_iff y x).0 same in cc (rw (e, str_eq_refl x) at other)
      | inr different ↦ different
    ] in
    rw (contains-append y ys (x ∷ []), fresh, turned) (distinct-snoc ys x apart later)

pub all_in-contains :
    (xs ys : List String) (x : String)
    → all_in xs ys ≡ true
    → contains x xs ≡ true
    → contains x ys ≡ true
unfolding contains all_in
all_in-contains [] ys x all h = cc
all_in-contains (z ∷ zs) ys x all h = elim (Bool-cases (str_eq x z)) [
  | inl same ↦
      let e : x ≡ z = (eq_iff x z).0 same in
      let found : contains z ys ≡ true = ground arith in ap (λ y. contains y ys) e ∙ found
  | inr other ↦ all_in-contains zs ys x (ground arith) (rw other at h)
]

pub contains-all_in :
    (xs ys : List String)
    → ((x : String) → contains x xs ≡ true → contains x ys ≡ true)
    → all_in xs ys ≡ true
unfolding contains all_in
contains-all_in [] ys h = refl
contains-all_in (z ∷ zs) ys h =
    rw (h z (rw (str_eq_refl z) refl))
      (contains-all_in zs ys (λ x found. h x (rw found (ground arith))))
